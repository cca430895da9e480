-- ===== src/Reloc/Insn.antt =====
-- The instruction fields of app/modloader/modloader_reloc.c: addends read out of instructions, and
-- values written into them. An `int32_t` is its bit pattern, a number below 2 ^ 32.
pub mod Masks
pub mod Branch
pub mod Mov
use lk_modloader.Base.{
  ℕ, ◌+◌, ◌-◌, ◌*◌, ◌/◌, ◌%◌, ◌^◌, Bool, bit_and, bit_or, bit_xor, ◌==◌, if◌then◌else◌, u16, u32,
  sub32, not32, ◌<<◌, ◌>>◌,
}
use lk_modloader.Memory.{Memory, read16, read32, write16, write32}

unfoldable pub sign_extend : ℕ → ℕ → ℕ
sign_extend val bits = let sign_bit = 1 << (bits - 1) in sub32 (bit_xor val sign_bit) sign_bit

-- `(~(j ^ s)) & 1u`
unfoldable pub xnor_bit : ℕ → ℕ → ℕ
xnor_bit j s = bit_and (not32 (bit_xor j s)) 1

-- The branch offset of a Thumb-2 instruction with halfwords `hi` and `lo`.
unfoldable pub thumb32_branch_offset : ℕ → ℕ → ℕ
unfolding sign_extend xnor_bit
thumb32_branch_offset hi lo =
    let imm10 = bit_and hi 0x3ff in
    let s = bit_and (hi >> 10) 1 in
    let imm11 = bit_and lo 0x7ff in
    let j2 = bit_and (lo >> 11) 1 in
    let i2 = xnor_bit j2 s in
    let j1 = bit_and (lo >> 13) 1 in
    let i1 = xnor_bit j1 s in
    let val =
      bit_or (bit_or (bit_or (bit_or (s << 24) (i1 << 23)) (i2 << 22)) (imm10 << 12))
        (imm11 << 1) in
    sign_extend val 25

unfoldable pub reloc_addend_thumb32_branch : Memory → ℕ → ℕ
unfolding thumb32_branch_offset
reloc_addend_thumb32_branch m place = thumb32_branch_offset (read16 m place) (read16 m (place + 2))

unfoldable pub arm_branch_offset : ℕ → ℕ
unfolding sign_extend
arm_branch_offset insn =
    let is_blx = bit_and insn 0xf0000000 == 0xf0000000 in
    let bit_h = if is_blx then bit_and insn 0x01000000 >> 24 else 0 in
    let val = bit_or (bit_and insn 0x00ffffff << 2) (bit_h << 1) in sign_extend val 26

unfoldable pub reloc_addend_arm_branch : Memory → ℕ → ℕ
unfolding arm_branch_offset
reloc_addend_arm_branch m place = arm_branch_offset (read32 m place)

unfoldable pub thumb_mov_value : ℕ → ℕ → ℕ
thumb_mov_value hi lo =
    let imm8 = bit_and lo 0xff in
    let imm3 = bit_and (lo >> 12) 0x7 in
    let imm4 = bit_and hi 0xf in
    let bit_i = bit_and (hi >> 10) 1 in
    bit_or (bit_or (bit_or (imm4 << 12) (bit_i << 11)) (imm3 << 8)) imm8

unfoldable pub reloc_addend_thumb_mov : Memory → ℕ → ℕ
unfolding thumb_mov_value
reloc_addend_thumb_mov m place = thumb_mov_value (read16 m place) (read16 m (place + 2))

unfoldable pub arm_mov_value : ℕ → ℕ
arm_mov_value insn =
    let imm12 = bit_and insn 0xfff in
    let imm4 = bit_and (insn >> 16) 0xf in bit_or (imm4 << 12) imm12

unfoldable pub reloc_addend_arm_mov : Memory → ℕ → ℕ
unfolding arm_mov_value
reloc_addend_arm_mov m place = arm_mov_value (read32 m place)

-- The two halfwords with the offset `result` put in.
unfoldable pub thumb32_branch_insn : ℕ → ℕ → ℕ → Bool → ℕ × ℕ
unfolding xnor_bit
thumb32_branch_insn insn0 insn1 value use_js =
    let result = bit_and value 0x01fffffe >> 1 in
    let imm10 = u16 (bit_and (result >> 11) 0x3ff) in
    let s = u16 (bit_and (result >> 23) 1) in
    let imm11 = u16 (bit_and result 0x7ff) in
    let j2 = if use_js then u16 (bit_and (result >> 21) 1) else s in
    let i2 = xnor_bit j2 s in
    let j1 = if use_js then u16 (bit_and (result >> 22) 1) else s in
    let i1 = xnor_bit j1 s in
    let res_hi = bit_or (s << 10) imm10 in
    let res_lo = bit_or (bit_or (i1 << 13) (i2 << 11)) imm11 in
    (
      u16 (bit_or (bit_and insn0 0xf800) (bit_and res_hi 0x07ff)),
      u16 (bit_or (bit_and insn1 0xd000) (bit_and res_lo 0x2fff)),
    )

-- Stores both halfwords of an instruction.
unfoldable pub write_halfwords : Memory → ℕ → ℕ × ℕ → Memory
write_halfwords m place (hi, lo) = write16 (write16 m place hi) (place + 2) lo

unfoldable pub reloc_encode_thumb32_branch : Memory → ℕ → ℕ → Bool → Memory
unfolding thumb32_branch_insn write_halfwords
reloc_encode_thumb32_branch m place result use_js =
    write_halfwords m place
      (thumb32_branch_insn (read16 m place) (read16 m (place + 2)) result use_js)

unfoldable pub thumb_mov_insn : ℕ → ℕ → ℕ → ℕ × ℕ
thumb_mov_insn insn0 insn1 value =
    let imm8 = u16 (bit_and value 0xff) in
    let imm3 = u16 (bit_and (value >> 8) 0x7) in
    let res_lo = u16 (bit_or (imm3 << 12) imm8) in
    let imm4 = u16 (bit_and (value >> 12) 0xf) in
    let bit_i = u16 (bit_and (value >> 11) 1) in
    let res_hi = u16 (bit_or (bit_i << 10) imm4) in
    (
      u16 (bit_or (bit_and insn0 0xfbf0) (bit_and res_hi 0x040f)),
      u16 (bit_or (bit_and insn1 0x8f00) (bit_and res_lo 0x70ff)),
    )

unfoldable pub reloc_encode_thumb_mov : Memory → ℕ → ℕ → Memory
unfolding thumb_mov_insn write_halfwords
reloc_encode_thumb_mov m place value =
    write_halfwords m place (thumb_mov_insn (read16 m place) (read16 m (place + 2)) value)

unfoldable pub arm_mov_insn : ℕ → ℕ → ℕ
arm_mov_insn insn value =
    let imm12 = bit_and value 0xfff in
    let imm4 = bit_and (value >> 12) 0xf in
    bit_or (bit_or (bit_and insn 0xfff0f000) (imm4 << 16)) imm12

unfoldable pub reloc_encode_arm_mov : Memory → ℕ → ℕ → Memory
unfolding arm_mov_insn
reloc_encode_arm_mov m place value = write32 m place (arm_mov_insn (read32 m place) value)

-- The ARM branch with the offset `result` put in; `blx` when the target is Thumb code.
unfoldable pub arm_branch_insn : ℕ → ℕ → Bool → ℕ
arm_branch_insn insn result blx =
    let imm24 = bit_and result 0x03fffffc >> 2 in
    let insn' = bit_or (bit_and insn 0xff000000) (bit_and imm24 0x00ffffff) in
    let bit_h = bit_and result 0x2 >> 1 in
    if blx then bit_or (bit_and insn' 0x00ffffff) (bit_or 0xfa bit_h << 24) else insn'
