-- ===== src/Reloc/Apply/Frame.antt =====
-- What a relocation writes, and when it is refused.
use lk_modloader.Base.{ℕ, ◌+◌, ◌≡◌, ◌∙◌, Bool, true, false, arith, sub32}
use lk_modloader.Status.{ok}
use lk_modloader.Memory.{Memory, read16, read32, write16}
use lk_modloader.Memory.Laws.{Outside, write16-frame, write32-frame}
use lk_modloader.Reloc.Insn.{
  write_halfwords, thumb_mov_insn, arm_mov_insn, thumb32_branch_insn, reloc_encode_thumb32_branch,
  reloc_encode_thumb_mov, reloc_encode_arm_mov,
}
use lk_modloader.Reloc.Apply.{
  RelocType, r_arm_abs32, r_arm_call, r_arm_glob_dat, r_arm_jump24, r_arm_jump_slot, r_arm_movt_abs,
  r_arm_movw_abs_nc, r_arm_none, r_arm_prel31, r_arm_rel32, r_arm_relative, r_arm_target2,
  r_arm_thm_call, r_arm_thm_jump24, r_arm_thm_movt_abs, r_arm_thm_movw_abs_nc, r_arm_thm_pc12,
  unknown, reloc_target, relative_word, low_half, high_half, apply_arm_reloc, apply_arm_branch,
  apply_thumb_branch, apply_prel31,
}

module _ (m : Memory) (place b : ℕ) (out : Outside place 4 b) where
  at : {x y : Memory} → ok x ≡ ok y → x b ≡ m b → y b ≡ m b
  at e h = ground arith

  write_halfwords-frame : (v : ℕ × ℕ) → write_halfwords m place v b ≡ m b
  unfolding write_halfwords
  write_halfwords-frame (hi, lo) =
      write16-frame (write16 m place hi) (place + 2) lo b (omega arith)
      ∙ write16-frame m place hi b (omega arith)

  thumb_mov-frame : (value : ℕ) → reloc_encode_thumb_mov m place value b ≡ m b
  unfolding reloc_encode_thumb_mov
  thumb_mov-frame value =
      write_halfwords-frame (thumb_mov_insn (read16 m place) (read16 m (place + 2)) value)

  arm_mov-frame : (value : ℕ) → reloc_encode_arm_mov m place value b ≡ m b
  unfolding reloc_encode_arm_mov
  arm_mov-frame value = write32-frame m place (arm_mov_insn (read32 m place) value) b out

  thumb32_branch-frame : (result : ℕ) → reloc_encode_thumb32_branch m place result true b ≡ m b
  unfolding reloc_encode_thumb32_branch
  thumb32_branch-frame result =
      write_halfwords-frame
        (thumb32_branch_insn (read16 m place) (read16 m (place + 2)) result true)

  thumb_branch-frame :
      (interwork : Bool) (sym_val addend : ℕ) (sym_thumb : Bool)
      → apply_thumb_branch interwork place sym_val addend sym_thumb m b ≡ m b
  unfolding apply_thumb_branch
  thumb_branch-frame interwork sym_val addend true = thumb32_branch-frame _
  thumb_branch-frame true sym_val addend false =
      write16-frame _ (place + 2) _ b (omega arith) ∙ thumb32_branch-frame _
  thumb_branch-frame false sym_val addend false = thumb32_branch-frame _

  -- A relocation of any type that succeeds leaves every byte outside the four bytes at its place as
  -- it was.
  pub reloc-frame :
      (ty : RelocType) (sym_val addend : ℕ) (sym_thumb is_rela : Bool) {m' : Memory}
      → apply_arm_reloc ty place sym_val addend sym_thumb is_rela m ≡ ok m'
      → m' b ≡ m b
  unfolding apply_arm_reloc apply_arm_branch apply_prel31
  reloc-frame r_arm_none s a t r e = ground arith
  reloc-frame r_arm_thm_pc12 s a t r e = ground arith
  reloc-frame r_arm_abs32 s a t r e = at e (write32-frame m place (reloc_target s a t) b out)
  reloc-frame r_arm_glob_dat s a t r e = at e (write32-frame m place (reloc_target s a t) b out)
  reloc-frame r_arm_jump_slot s a t r e = at e (write32-frame m place (reloc_target s a t) b out)
  reloc-frame r_arm_target2 s a t r e = at e (write32-frame m place (reloc_target s a t) b out)
  reloc-frame r_arm_relative s a t r e = at e (write32-frame m place (relative_word s a r) b out)
  reloc-frame r_arm_rel32 s a t r e =
      at e (write32-frame m place (sub32 (reloc_target s a t) place) b out)
  reloc-frame r_arm_prel31 s a t r e = at e (write32-frame m place _ b out)
  reloc-frame r_arm_call s a t r e = at e (write32-frame m place _ b out)
  reloc-frame r_arm_jump24 s a t r e = at e (write32-frame m place _ b out)
  reloc-frame r_arm_thm_call s a t r e = at e (thumb_branch-frame true s a t)
  reloc-frame r_arm_thm_jump24 s a t r e = at e (thumb_branch-frame false s a t)
  reloc-frame r_arm_movw_abs_nc s a t r e = at e (arm_mov-frame (low_half s a t))
  reloc-frame r_arm_thm_movw_abs_nc s a t r e = at e (thumb_mov-frame (low_half s a t))
  reloc-frame r_arm_movt_abs s a t r e = at e (arm_mov-frame (high_half s a))
  reloc-frame r_arm_thm_movt_abs s a t r e = at e (thumb_mov-frame (high_half s a))
  reloc-frame (unknown n) s a t r e = cc
