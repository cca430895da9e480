-- ===== src/Reloc/Apply.antt =====
-- `modloader_reloc_read_addend`, `modloader_sym_is_thumb` and `modloader_apply_arm_reloc` of
-- app/modloader/modloader_reloc.c. Addresses and words are numbers below 2 ^ 32, an `int32_t` is its
-- bit pattern, and signed sums wrap.
pub mod Frame
pub mod Data
pub mod Branch
pub mod Mov
use lk_modloader.Base.{
  ℕ, ◌+◌, ◌/◌, ◌%◌, ◌^◌, Bool, true, false, not, ◌&&◌, ◌||◌, bit_and, bit_or, ◌==◌, if◌then◌else◌,
  u16, u32, add32, sub32, not32, ◌>>◌,
}
use lk_modloader.Status.{Result, ok, err, err_not_supported}
use lk_modloader.Memory.{Memory, read16, read32, write16, write32}
use lk_modloader.Reloc.Insn.{
  reloc_addend_thumb32_branch, reloc_addend_arm_branch, reloc_addend_thumb_mov,
  reloc_addend_arm_mov, reloc_encode_thumb32_branch, reloc_encode_thumb_mov, reloc_encode_arm_mov,
  arm_branch_insn,
}

-- The relocation types that the sources name; `unknown` is any other number.
pub data RelocType : Type 0 where
  r_arm_none r_arm_thm_pc12 r_arm_abs32 r_arm_glob_dat r_arm_jump_slot r_arm_target2 : RelocType
  r_arm_relative r_arm_rel32 r_arm_prel31 r_arm_call r_arm_jump24 r_arm_thm_call : RelocType
  r_arm_thm_jump24 r_arm_movw_abs_nc r_arm_thm_movw_abs_nc r_arm_movt_abs : RelocType
  r_arm_thm_movt_abs : RelocType
  unknown : ℕ → RelocType

unfoldable pub reloc_read_addend : RelocType → Memory → ℕ → ℕ
reloc_read_addend r_arm_abs32 m place = read32 m place
reloc_read_addend r_arm_glob_dat m place = read32 m place
reloc_read_addend r_arm_jump_slot m place = read32 m place
reloc_read_addend r_arm_rel32 m place = read32 m place
reloc_read_addend r_arm_thm_call m place = reloc_addend_thumb32_branch m place
reloc_read_addend r_arm_thm_jump24 m place = reloc_addend_thumb32_branch m place
reloc_read_addend r_arm_call m place = reloc_addend_arm_branch m place
reloc_read_addend r_arm_jump24 m place = reloc_addend_arm_branch m place
reloc_read_addend r_arm_thm_movw_abs_nc m place = reloc_addend_thumb_mov m place
reloc_read_addend r_arm_thm_movt_abs m place = reloc_addend_thumb_mov m place
reloc_read_addend r_arm_movw_abs_nc m place = reloc_addend_arm_mov m place
reloc_read_addend r_arm_movt_abs m place = reloc_addend_arm_mov m place
reloc_read_addend _ m place = 0

-- `(s + addend) | t`, with `s` the symbol without its Thumb bit.
unfoldable pub reloc_target : ℕ → ℕ → Bool → ℕ
reloc_target sym_val addend sym_thumb =
    bit_or (add32 (bit_and sym_val (not32 1)) addend) (if sym_thumb then 1 else 0)

-- The branch of `R_ARM_CALL` and `R_ARM_JUMP24`; `interwork` is `type == R_ARM_CALL`.
unfoldable pub apply_arm_branch : Bool → ℕ → ℕ → ℕ → Bool → Memory → Memory
unfolding reloc_target
apply_arm_branch interwork place sym_val addend sym_thumb m =
    let result = sub32 (reloc_target sym_val addend sym_thumb) place in
    write32 m place (arm_branch_insn (read32 m place) result (sym_thumb && interwork))

-- The branch of `R_ARM_THM_CALL` and `R_ARM_THM_JUMP24`; `interwork` is `type == R_ARM_THM_CALL`.
unfoldable pub apply_thumb_branch : Bool → ℕ → ℕ → ℕ → Bool → Memory → Memory
unfolding reloc_target
apply_thumb_branch interwork place sym_val addend sym_thumb m =
    let to_arm = not sym_thumb && interwork in
    let p = if to_arm then bit_and place (not32 3) else place in
    let result = sub32 (reloc_target sym_val addend sym_thumb) p in
    let m' = reloc_encode_thumb32_branch m place result true in
    if to_arm
    then write16 m' (place + 2) (u16 (bit_and (read16 m' (place + 2)) (not32 0x1000)))
    else m'

-- The branch of `R_ARM_PREL31`.
unfoldable pub apply_prel31 : ℕ → ℕ → ℕ → Bool → Memory → Memory
unfolding reloc_target
apply_prel31 place sym_val addend sym_thumb m =
    let offset = sub32 (reloc_target sym_val addend sym_thumb) place in
    let insn = bit_or (bit_and (read32 m place) 0x80000000) (bit_and offset 0x7fffffff) in
    write32 m place insn

-- `sym_val + addend` for `is_rela` and without it.
unfoldable pub relative_word : ℕ → ℕ → Bool → ℕ
relative_word sym_val addend is_rela =
    if is_rela then add32 sym_val addend else add32 sym_val addend

-- The halves that MOVW and MOVT are given.
unfoldable pub low_half : ℕ → ℕ → Bool → ℕ
unfolding reloc_target
low_half sym_val addend sym_thumb = bit_and (reloc_target sym_val addend sym_thumb) 0xffff

unfoldable pub high_half : ℕ → ℕ → ℕ
high_half sym_val addend = bit_and (add32 (bit_and sym_val (not32 1)) addend) 0xffff0000 >> 16

unfoldable pub apply_arm_reloc : RelocType → ℕ → ℕ → ℕ → Bool → Bool → Memory → Result Memory
apply_arm_reloc r_arm_none place sym_val addend sym_thumb is_rela m = ok m
apply_arm_reloc r_arm_thm_pc12 place sym_val addend sym_thumb is_rela m = ok m
apply_arm_reloc r_arm_abs32 place sym_val addend sym_thumb is_rela m =
    ok (write32 m place (reloc_target sym_val addend sym_thumb))
apply_arm_reloc r_arm_glob_dat place sym_val addend sym_thumb is_rela m =
    ok (write32 m place (reloc_target sym_val addend sym_thumb))
apply_arm_reloc r_arm_jump_slot place sym_val addend sym_thumb is_rela m =
    ok (write32 m place (reloc_target sym_val addend sym_thumb))
apply_arm_reloc r_arm_target2 place sym_val addend sym_thumb is_rela m =
    ok (write32 m place (reloc_target sym_val addend sym_thumb))
apply_arm_reloc r_arm_relative place sym_val addend sym_thumb is_rela m =
    ok (write32 m place (relative_word sym_val addend is_rela))
apply_arm_reloc r_arm_rel32 place sym_val addend sym_thumb is_rela m =
    ok (write32 m place (sub32 (reloc_target sym_val addend sym_thumb) place))
apply_arm_reloc r_arm_prel31 place sym_val addend sym_thumb is_rela m =
    ok (apply_prel31 place sym_val addend sym_thumb m)
apply_arm_reloc r_arm_call place sym_val addend sym_thumb is_rela m =
    ok (apply_arm_branch true place sym_val addend sym_thumb m)
apply_arm_reloc r_arm_jump24 place sym_val addend sym_thumb is_rela m =
    ok (apply_arm_branch false place sym_val addend sym_thumb m)
apply_arm_reloc r_arm_thm_call place sym_val addend sym_thumb is_rela m =
    ok (apply_thumb_branch true place sym_val addend sym_thumb m)
apply_arm_reloc r_arm_thm_jump24 place sym_val addend sym_thumb is_rela m =
    ok (apply_thumb_branch false place sym_val addend sym_thumb m)
apply_arm_reloc r_arm_movw_abs_nc place sym_val addend sym_thumb is_rela m =
    ok (reloc_encode_arm_mov m place (low_half sym_val addend sym_thumb))
apply_arm_reloc r_arm_thm_movw_abs_nc place sym_val addend sym_thumb is_rela m =
    ok (reloc_encode_thumb_mov m place (low_half sym_val addend sym_thumb))
apply_arm_reloc r_arm_movt_abs place sym_val addend sym_thumb is_rela m =
    ok (reloc_encode_arm_mov m place (high_half sym_val addend))
apply_arm_reloc r_arm_thm_movt_abs place sym_val addend sym_thumb is_rela m =
    ok (reloc_encode_thumb_mov m place (high_half sym_val addend))
apply_arm_reloc (unknown n) place sym_val addend sym_thumb is_rela m = err err_not_supported
