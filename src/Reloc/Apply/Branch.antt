-- ===== src/Reloc/Apply/Branch.antt =====
-- Branch relocations: where the patched instruction goes.
use lk_modloader.Base.{
  ℕ, ◌+◌, ◌-◌, ◌*◌, ◌/◌, ◌%◌, ◌^◌, ◌<◌, ◌≤◌, ◌≡◌, ◌≢◌, ◌∙◌, ◌⊎◌, refl, ap, ap₂, Bool, true, false,
  arith, u32, sub32, add32,
}
use lk_modloader.Status.{ok}
use lk_modloader.Memory.{Memory, IsBytes, read16, read32}
use lk_modloader.Memory.Laws.{read16-write16_pair, read16-lt, read32-write32, read32-lt}
use lk_modloader.Reloc.Insn.{
  sign_extend, thumb32_branch_insn, thumb32_branch_offset, reloc_addend_thumb32_branch,
  reloc_encode_thumb32_branch, write_halfwords, arm_branch_insn, arm_branch_offset,
  reloc_addend_arm_branch,
}
use lk_modloader.Reloc.Insn.Masks.{sign_extend_25, sign_extend_26}
use lk_modloader.Reloc.Insn.Branch.{
  offset-thumb32_branch_insn, offset-arm_branch_insn_bl, offset-arm_branch_insn_blx,
  arm_branch_insn-lt,
}
use lk_modloader.Reloc.Apply.{
  RelocType, r_arm_thm_call, r_arm_thm_jump24, r_arm_call, apply_arm_reloc, apply_thumb_branch,
  apply_arm_branch, reloc_target,
}
use lk_modloader.Reloc.Apply.Data.{reloc_target_thumb, reloc_target_arm}

pub data IsThumbBranch : RelocType → Type 0 where
  call : IsThumbBranch r_arm_thm_call
  jump : IsThumbBranch r_arm_thm_jump24

-- A displacement that `w + 1` signed bits hold, as a 32-bit pattern.
abbrev pub InRange : ℕ → ℕ → Type 0
InRange w d = (d < 2 ^ w) ⊎ (2 ^ 32 - 2 ^ w ≤ d)

halfwords-lt :
    (insn0 insn1 v : ℕ)
    → ((thumb32_branch_insn insn0 insn1 v true).0 < 2 ^ 16)
      × ((thumb32_branch_insn insn0 insn1 v true).1 < 2 ^ 16)
unfolding thumb32_branch_insn
halfwords-lt insn0 insn1 v = (omega arith, omega arith)

addend-encode :
    (m : Memory) (place v : ℕ)
    → IsBytes m
    → reloc_addend_thumb32_branch (reloc_encode_thumb32_branch m place v true) place
      ≡ sign_extend (v / 2 % 2 ^ 24 * 2) 25
unfolding reloc_addend_thumb32_branch reloc_encode_thumb32_branch write_halfwords
addend-encode m place v hm =
    let insn = thumb32_branch_insn (read16 m place) (read16 m (place + 2)) v true in
    let back = read16-write16_pair m place insn.0 insn.1 in
    let small = halfwords-lt (read16 m place) (read16 m (place + 2)) v in
    ap₂ thumb32_branch_offset (omega (arith, back, small)) (omega (arith, back, small))
    ∙ offset-thumb32_branch_insn (read16 m place) (read16 m (place + 2)) v (read16-lt m place hm)
        (read16-lt m (place + 2) hm)

module _ (m : Memory) (place s a : ℕ) (is_rela : Bool) (hm : IsBytes m) (hs : s < 2 ^ 32)
    (hp : place < 2 ^ 32) (place_even : place % 2 ≡ 0) (a_even : a % 2 ≡ 0) where
  thumb_branch :
      {ty : RelocType}
      → IsThumbBranch ty
      → apply_arm_reloc ty place s a true is_rela m
        ≡ ok (reloc_encode_thumb32_branch m place (sub32 (reloc_target s a true) place) true)
  unfolding apply_arm_reloc apply_thumb_branch
  thumb_branch call = refl
  thumb_branch jump = refl

  abbrev distance : ℕ
  distance = sub32 (s / 2 * 2 + a) place

  patched_offset :
      reloc_addend_thumb32_branch
        (reloc_encode_thumb32_branch m place (sub32 (reloc_target s a true) place) true)
        place
      ≡ distance / 2 ^ 24 % 2 * (2 ^ 32 - 2 ^ 24) + distance % 2 ^ 24
  patched_offset =
      let v = sub32 (reloc_target s a true) place in
      let q = distance / 2 ^ 24 % 2 in
      let r = distance % 2 ^ 24 in
      let split : v / 2 % 2 ^ 24 * 2 ≡ q * 2 ^ 24 + r = omega (arith, reloc_target_thumb s a hs) in
      addend-encode m place v hm
      ∙ ap (λ x. sign_extend x 25) split
      ∙ sign_extend_25 q r (omega arith) (omega arith)

  -- A Thumb BL or B.W at an even place, to Thumb code, with an even addend: if the distance from
  -- place to (S without its Thumb bit) + A fits 25 signed bits, the relocation succeeds and the
  -- patched instruction, decoded, goes from place to that target.
  pub reloc_thumb_branch :
      {ty : RelocType}
      → IsThumbBranch ty
      → InRange 24 (sub32 (s / 2 * 2 + a) place)
      → (m' : Memory) × (apply_arm_reloc ty place s a true is_rela m ≡ ok m')
        × (add32 place (reloc_addend_thumb32_branch m' place) ≡ u32 (s / 2 * 2 + a))
  reloc_thumb_branch branch near = (_, thumb_branch branch, omega (arith, patched_offset))

  -- A Thumb BL or B.W at an even place, to Thumb code, with an even addend, whose distance to (S
  -- without its Thumb bit) + A does not fit 25 signed bits: the relocation succeeds all the same,
  -- and the patched instruction, decoded, does not go to that target.
  pub reloc_thumb_branch_far :
      {ty : RelocType}
      → IsThumbBranch ty
      → 2 ^ 24 ≤ sub32 (s / 2 * 2 + a) place
      → sub32 (s / 2 * 2 + a) place < 2 ^ 32 - 2 ^ 24
      → (m' : Memory) × (apply_arm_reloc ty place s a true is_rela m ≡ ok m')
        × (add32 place (reloc_addend_thumb32_branch m' place) ≢ u32 (s / 2 * 2 + a))
  reloc_thumb_branch_far branch far_up far_down =
      (_, thumb_branch branch, λ e. omega (arith, patched_offset))

module _ (m : Memory) (place s a : ℕ) (is_rela : Bool) (hm : IsBytes m) (hs : s < 2 ^ 32)
    (hp : place < 2 ^ 32) (place-IsAligned : place % 4 ≡ 0) (a_aligned : a % 4 ≡ 0) where
  arm_result : Bool → ℕ
  arm_result t = sub32 (reloc_target s a t) place

  old-lt : read32 m place < 2 ^ 32
  old-lt = read32-lt m place hm

  arm_addend :
      (t : Bool)
      → reloc_addend_arm_branch (apply_arm_branch true place s a t m) place
        ≡ arm_branch_offset (arm_branch_insn (read32 m place) (arm_result t) t)
  unfolding apply_arm_branch reloc_addend_arm_branch arm_result
  arm_addend true = ap arm_branch_offset (
      read32-write32 m place (arm_branch_insn (read32 m place) (arm_result true) true)
      ∙ omega (arith, arm_branch_insn-lt (read32 m place) (arm_result true) old-lt))
  arm_addend false = ap arm_branch_offset (
      read32-write32 m place (arm_branch_insn (read32 m place) (arm_result false) false)
      ∙ omega (arith, arm_branch_insn-lt (read32 m place) (arm_result false) old-lt))

  -- An ARM BL at a word-aligned place, to ARM code at a multiple of 4, with an addend that is a
  -- multiple of 4: if the old instruction is not a BLX and the distance fits 26 signed bits,
  -- R_ARM_CALL succeeds and the patched instruction, decoded, goes from place to S + A.
  pub reloc_arm_call :
      read32 m place / 2 ^ 28 ≢ 0xf
      → s % 4 ≡ 0
      → InRange 25 (sub32 (s + a) place)
      → (m' : Memory) × (apply_arm_reloc r_arm_call place s a false is_rela m ≡ ok m')
        × (add32 place (reloc_addend_arm_branch m' place) ≡ u32 (s + a))
  unfolding apply_arm_reloc arm_result
  reloc_arm_call plain s_aligned near =
      let d = sub32 (s + a) place in
      let v = arm_result false in
      let split : v / 4 % 2 ^ 24 * 4 ≡ d / 2 ^ 25 % 2 * 2 ^ 25 + d % 2 ^ 25 =
        omega (arith, reloc_target_arm s a hs) in
      let offset =
        arm_addend false
        ∙ offset-arm_branch_insn_bl (read32 m place) v old-lt plain
        ∙ ap (λ x. sign_extend x 26) split
        ∙ sign_extend_26 (d / 2 ^ 25 % 2) (d % 2 ^ 25) (omega arith) (omega arith) in
      (apply_arm_branch true place s a false m, refl, omega (arith, offset))

  -- An ARM call at a word-aligned place, to Thumb code, with an addend that is a multiple of 4: if
  -- the distance fits 26 signed bits, R_ARM_CALL succeeds, the instruction becomes a BLX, and
  -- decoded it goes from place to (S without its Thumb bit) + A.
  pub reloc_arm_blx :
      InRange 25 (sub32 (s / 2 * 2 + a) place)
      → (m' : Memory) × (apply_arm_reloc r_arm_call place s a true is_rela m ≡ ok m')
        × (add32 place (reloc_addend_arm_branch m' place) ≡ u32 (s / 2 * 2 + a))
        × (read32 m' place / 2 ^ 25 ≡ 0x7d)
  unfolding apply_arm_reloc arm_result
  reloc_arm_blx near =
      let d = sub32 (s / 2 * 2 + a) place in
      let v = arm_result true in
      let split : v / 2 % 2 ^ 25 * 2 ≡ d / 2 ^ 25 % 2 * 2 ^ 25 + d % 2 ^ 25 =
        omega (arith, reloc_target_thumb s a hs) in
      let offset =
        arm_addend true
        ∙ offset-arm_branch_insn_blx (read32 m place) v old-lt
        ∙ ap (λ x. sign_extend x 26) split
        ∙ sign_extend_26 (d / 2 ^ 25 % 2) (d % 2 ^ 25) (omega arith) (omega arith) in
      (apply_arm_branch true place s a true m, refl, omega (arith, offset), blx_word)
    where
      blx_word : read32 (apply_arm_branch true place s a true m) place / 2 ^ 25 ≡ 0x7d
      blx_word =
          unfold apply_arm_branch in
          omega (
            arith,
            read32-write32 m place (arm_branch_insn (read32 m place) (arm_result true) true),
            arm_branch_insn-lt (read32 m place) (arm_result true) old-lt,
          )
