-- ===== src/Tests/RelocCases.antt =====
-- The relocation theorems at concrete places and targets.
use lk_modloader.Base.{
  ◌+◌, ◌*◌, ◌/◌, ◌%◌, ◌^◌, ◌≡◌, ◌≢◌, inl, inr, true, false, refl, arith, u32, add32,
}
use lk_modloader.Status.{ok}
use lk_modloader.Outcome.{done}
use lk_modloader.Memory.{Memory, IsBytes, read32, write32}
use lk_modloader.Reloc.Insn.{
  sign_extend, thumb32_branch_insn, thumb32_branch_offset, thumb_mov_insn, thumb_mov_value,
  reloc_addend_thumb32_branch, reloc_addend_arm_branch, reloc_addend_thumb_mov,
  reloc_addend_arm_mov,
}
use lk_modloader.Reloc.Insn.Branch.{offset-thumb32_branch_insn}
use lk_modloader.Reloc.Insn.Mov.{value-thumb_mov_insn}
use lk_modloader.Reloc.Apply.{
  r_arm_abs32, r_arm_rel32, r_arm_prel31, r_arm_call, r_arm_thm_call, r_arm_thm_movw_abs_nc,
  r_arm_thm_movt_abs, r_arm_movw_abs_nc, r_arm_movt_abs, apply_arm_reloc, reloc_target,
}
use lk_modloader.Reloc.Apply.Data.{
  abs32, reloc_absolute, reloc_absolute_odd, reloc_rel32, reloc_prel31,
}
use lk_modloader.Reloc.Apply.Branch.{
  call, reloc_thumb_branch, reloc_thumb_branch_far, reloc_arm_call, reloc_arm_blx,
}
use lk_modloader.Reloc.Apply.Mov.{reloc_thumb_mov_pair, reloc_arm_mov_pair}
use lk_modloader.Reloc.Apply.Frame.{reloc-frame}
use lk_modloader.SymValue.{sym_value, resolved_sym_addr}
use lk_modloader.SymValue.Laws.{sym_value-eq-resolved, sym_value_defined}
use lk_modloader.Tests.Samples.{small_elf, small_sec_addr, thumb_function}

abbrev blank : Memory
blank a = 0

blank-IsBytes : IsBytes blank
blank-IsBytes a = omega arith

reloc_thumb_branch_example :
    (m' : Memory) × (apply_arm_reloc r_arm_thm_call 0x1000 0x2001 0xfffffffc true false blank
      ≡ ok m')
    × (add32 0x1000 (reloc_addend_thumb32_branch m' 0x1000) ≡ 0x1ffc)
reloc_thumb_branch_example =
    reloc_thumb_branch blank 0x1000 0x2001 0xfffffffc false blank-IsBytes (omega arith)
      (omega arith) refl refl call (inl (omega arith))

reloc_thumb_branch_far_example :
    (m' : Memory) × (apply_arm_reloc r_arm_thm_call 0x1000 0x7f108001 0 true false blank ≡ ok m')
    × (add32 0x1000 (reloc_addend_thumb32_branch m' 0x1000) ≢ 0x7f108000)
reloc_thumb_branch_far_example =
    reloc_thumb_branch_far blank 0x1000 0x7f108001 0 false blank-IsBytes (omega arith) (omega arith)
      refl refl call (omega arith) (omega arith)

no_blx : read32 blank 0x1000 / 2 ^ 28 ≢ 0xf
unfolding read32
no_blx e = omega (arith, e)

reloc_arm_call_example :
    (m' : Memory) × (apply_arm_reloc r_arm_call 0x1000 0x2000 0xfffffff8 false false blank ≡ ok m')
    × (add32 0x1000 (reloc_addend_arm_branch m' 0x1000) ≡ 0x1ff8)
reloc_arm_call_example =
    reloc_arm_call blank 0x1000 0x2000 0xfffffff8 false blank-IsBytes (omega arith) (omega arith)
      refl refl no_blx refl (inl (omega arith))

reloc_arm_blx_example :
    (m' : Memory) × (apply_arm_reloc r_arm_call 0x1000 0x2003 0xfffffff8 true false blank ≡ ok m')
    × (add32 0x1000 (reloc_addend_arm_branch m' 0x1000) ≡ 0x1ffa)
    × (read32 m' 0x1000 / 2 ^ 25 ≡ 0x7d)
reloc_arm_blx_example =
    reloc_arm_blx blank 0x1000 0x2003 0xfffffff8 false blank-IsBytes (omega arith) (omega arith)
      refl refl (inl (omega arith))

reloc_thumb_mov_pair_example :
    (m₁ m₂ : Memory) × (apply_arm_reloc r_arm_thm_movw_abs_nc 0x1000 0x7f108001 4 true false blank
      ≡ ok m₁)
    × (apply_arm_reloc r_arm_thm_movt_abs 0x1004 0x7f108001 4 true false m₁ ≡ ok m₂)
    × (reloc_addend_thumb_mov m₂ 0x1004 * 2 ^ 16 + reloc_addend_thumb_mov m₂ 0x1000
        ≡ reloc_target 0x7f108001 4 true)
reloc_thumb_mov_pair_example =
    reloc_thumb_mov_pair blank 0x1000 0x1004 0x7f108001 4 true false blank-IsBytes (omega arith)
      (inl (omega arith))

reloc_arm_mov_pair_example :
    (m₁ m₂ : Memory) × (apply_arm_reloc r_arm_movw_abs_nc 0x1000 0x7f108000 4 false false blank
      ≡ ok m₁)
    × (apply_arm_reloc r_arm_movt_abs 0x1004 0x7f108000 4 false false m₁ ≡ ok m₂)
    × (reloc_addend_arm_mov m₂ 0x1004 * 2 ^ 16 + reloc_addend_arm_mov m₂ 0x1000
        ≡ reloc_target 0x7f108000 4 false)
reloc_arm_mov_pair_example =
    reloc_arm_mov_pair blank 0x1000 0x1004 0x7f108000 4 false false blank-IsBytes (omega arith)
      (inl (omega arith))

reloc_absolute_example :
    (m' : Memory) × (apply_arm_reloc r_arm_abs32 0x1000 0x2001 8 true false blank ≡ ok m')
    × (read32 m' 0x1000 ≡ 0x2009)
reloc_absolute_example = reloc_absolute blank 0x1000 0x2001 8 false (omega arith) true abs32 refl

reloc_absolute_odd_example :
    (m' : Memory) × (apply_arm_reloc r_arm_abs32 0x1000 0x2001 3 true false blank ≡ ok m')
    × (u32 (read32 m' 0x1000 + 1) ≡ 0x2004)
reloc_absolute_odd_example =
    reloc_absolute_odd blank 0x1000 0x2001 3 false (omega arith) abs32 refl refl

reloc_rel32_example :
    (m' : Memory) × (apply_arm_reloc r_arm_rel32 0x1000 0x2001 0 true false blank ≡ ok m')
    × (add32 (read32 m' 0x1000) 0x1000 ≡ reloc_target 0x2001 0 true)
reloc_rel32_example = reloc_rel32 blank 0x1000 0x2001 0 false (omega arith) true (omega arith)

reloc_prel31_example :
    (m' : Memory) × (apply_arm_reloc r_arm_prel31 0x1000 0x2001 0 true false blank ≡ ok m')
    × ((read32 m' 0x1000 + 0x1000) % 2 ^ 31 ≡ reloc_target 0x2001 0 true % 2 ^ 31)
    × (read32 m' 0x1000 / 2 ^ 31 ≡ read32 blank 0x1000 / 2 ^ 31)
reloc_prel31_example =
    reloc_prel31 blank 0x1000 0x2001 0 false (omega arith) true blank-IsBytes (omega arith)

-- The memory after an absolute relocation.
abbrev relocated : Memory
relocated = write32 blank 0x1000 (reloc_target 0x2001 8 true)

relocated_is : apply_arm_reloc r_arm_abs32 0x1000 0x2001 8 true false blank ≡ ok relocated
unfolding apply_arm_reloc
relocated_is = refl

reloc-frame_example : relocated 0x1004 ≡ 0
reloc-frame_example =
    reloc-frame blank 0x1000 0x1004 (inr (omega arith)) r_arm_abs32 0x2001 8 true false relocated_is

offset-thumb32_branch_insn_example :
    (let insn = thumb32_branch_insn 0xf000 0xd000 0x1234 true in
      thumb32_branch_offset insn.0 insn.1)
    ≡ sign_extend 0x1234 25
offset-thumb32_branch_insn_example =
    offset-thumb32_branch_insn 0xf000 0xd000 0x1234 (omega arith) (omega arith)

value-thumb_mov_insn_example :
    (let insn = thumb_mov_insn 0xf240 0x0000 0xbeef in thumb_mov_value insn.0 insn.1) ≡ 0xbeef
value-thumb_mov_insn_example = value-thumb_mov_insn 0xf240 0x0000 0xbeef (omega arith) (omega arith)

sym_value-eq-resolved_example :
    sym_value small_elf thumb_function 0x7f108000 small_sec_addr 3
    ≡ resolved_sym_addr small_elf thumb_function 0x7f108000 small_sec_addr 3
sym_value-eq-resolved_example =
    sym_value-eq-resolved small_elf thumb_function 0x7f108000 small_sec_addr 3

sym_value_defined_example :
    sym_value small_elf thumb_function 0x7f108000 small_sec_addr 3 ≡ done 0x7f108011
sym_value_defined_example =
    sym_value_defined small_elf thumb_function 0x7f108000 small_sec_addr 3 0
      (record {
        not_undef = λ e. omega (arith, e);
        not_abs = λ e. omega (arith, e);
        not_reserved = omega arith;
        in_range = omega arith;
      })
      (λ e. omega (arith, e)) refl (omega arith) refl
