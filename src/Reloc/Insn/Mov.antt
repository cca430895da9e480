-- ===== src/Reloc/Insn/Mov.antt =====
-- MOVW and MOVT: the immediate that an encoder of app/modloader/modloader_reloc.c writes is what the
-- decoder reads.
use lk_modloader.Base.{
  ℕ, ◌+◌, ◌*◌, ◌/◌, ◌%◌, ◌^◌, ◌<◌, ◌≡◌, ◌∙◌, ap₂, refl, arith, bit_and, bit_or, and_mask, or_add,
  or_fields, or-zero, u16, ◌<<◌, ◌>>◌,
}
use lk_modloader.Reloc.Insn.{thumb_mov_value, thumb_mov_insn, arm_mov_value, arm_mov_insn}
use lk_modloader.Reloc.Insn.Masks.{and_fbf0, and_040f, and_8f00, and_70ff, and_fff0f000}

-- A field put in above a part that stays.
or_fields_high :
    (k q m r : ℕ) → r < 2 ^ k → bit_or (q * 2 ^ k + r) (m << k) ≡ bit_or q m * 2 ^ k + r
or_fields_high k q m r h =
    ap₂ bit_or refl (omega arith) ∙ or_fields k q m r 0 h (omega arith) ∙ ground (arith, or-zero r)

arm_mov_insn_fields :
    (insn value : ℕ)
    → insn < 2 ^ 32
    → arm_mov_insn insn value
      ≡ insn / 2 ^ 20 * 2 ^ 20
        + value / 2 ^ 12 % 2 ^ 4 * 2 ^ 16
        + insn / 2 ^ 12 % 2 ^ 4 * 2 ^ 12
        + value % 2 ^ 12
unfolding arm_mov_insn
arm_mov_insn_fields insn value h =
    let top = insn / 2 ^ 20 * 2 ^ 4 in
    let reg = insn / 2 ^ 12 % 2 ^ 4 * 2 ^ 12 in
    let imm4 = value / 2 ^ 12 % 2 ^ 4 in
    let kept : insn / 2 ^ 20 * 2 ^ 20 + reg ≡ top * 2 ^ 16 + reg = omega arith in
    rw
      (
        and_fff0f000 insn h,
        and_mask 12 value,
        and_mask 4 (value >> 12),
        kept,
        or_fields_high 16 top imm4 reg (omega arith),
        or_add 4 top imm4 (omega arith) (omega arith),
        or_add 12 ((top + imm4) * 2 ^ 16 + reg) (value % 2 ^ 12) (omega arith) (omega arith),
      )
      (omega arith)

-- For any word, the immediate that is decoded from an ARM MOVW or MOVT after an encode is the low
-- 16 bits of the encoded value.
pub value-arm_mov_insn :
    (insn value : ℕ) → insn < 2 ^ 32 → arm_mov_value (arm_mov_insn insn value) ≡ u16 value
unfolding arm_mov_value
value-arm_mov_insn insn value h =
    let w =
      insn / 2 ^ 20 * 2 ^ 20
      + value / 2 ^ 12 % 2 ^ 4 * 2 ^ 16
      + insn / 2 ^ 12 % 2 ^ 4 * 2 ^ 12
      + value % 2 ^ 12 in
    rw
      (
        arm_mov_insn_fields insn value h,
        and_mask 12 w,
        and_mask 4 (w >> 16),
        or_add 12 ((w >> 16) % 2 ^ 4 << 12) (w % 2 ^ 12) (omega arith) (omega arith),
      )
      (omega arith)

high_halfword :
    (x i imm4 : ℕ)
    → x < 2 ^ 16
    → i < 2
    → imm4 < 2 ^ 4
    → u16 (bit_or (bit_and x 0xfbf0) (bit_and (u16 (bit_or (i << 10) imm4)) 0x040f))
      ≡ x / 2 ^ 11 * 2 ^ 11 + i * 2 ^ 10 + x / 2 ^ 4 % 2 ^ 6 * 2 ^ 4 + imm4
high_halfword x i imm4 hx hi h4 =
    let q = x / 2 ^ 11 * 2 in
    let r = x / 2 ^ 4 % 2 ^ 6 * 2 ^ 4 in
    let kept : x / 2 ^ 11 * 2 ^ 11 + r ≡ q * 2 ^ 10 + r = omega arith in
    let new : bit_and (u16 (i * 2 ^ 10 + imm4)) 0x040f ≡ i * 2 ^ 10 + imm4 =
      omega (arith, and_040f (u16 (i * 2 ^ 10 + imm4))) in
    rw
      (
        and_fbf0 x hx,
        or_add 10 (i << 10) imm4 (omega arith) (omega arith),
        new,
        kept,
        or_fields 10 q i r imm4 (omega arith) (omega arith),
        or_add 1 q i (omega arith) hi,
        or_add 4 r imm4 (omega arith) h4,
      )
      (omega arith)

low_halfword :
    (x imm3 imm8 : ℕ)
    → x < 2 ^ 16
    → imm3 < 2 ^ 3
    → imm8 < 2 ^ 8
    → u16 (bit_or (bit_and x 0x8f00) (bit_and (u16 (bit_or (imm3 << 12) imm8)) 0x70ff))
      ≡ x / 2 ^ 15 * 2 ^ 15 + imm3 * 2 ^ 12 + x / 2 ^ 8 % 2 ^ 4 * 2 ^ 8 + imm8
low_halfword x imm3 imm8 hx h3 h8 =
    let q = x / 2 ^ 15 * 2 ^ 3 in
    let r = x / 2 ^ 8 % 2 ^ 4 * 2 ^ 8 in
    let kept : x / 2 ^ 15 * 2 ^ 15 + r ≡ q * 2 ^ 12 + r = omega arith in
    let new : bit_and (u16 (imm3 * 2 ^ 12 + imm8)) 0x70ff ≡ imm3 * 2 ^ 12 + imm8 =
      omega (arith, and_70ff (u16 (imm3 * 2 ^ 12 + imm8))) in
    rw
      (
        and_8f00 x hx,
        or_add 12 (imm3 << 12) imm8 (omega arith) (omega arith),
        new,
        kept,
        or_fields 12 q imm3 r imm8 (omega arith) (omega arith),
        or_add 3 q imm3 (omega arith) h3,
        or_add 8 r imm8 (omega arith) h8,
      )
      (omega arith)

thumb_mov_insn_fields :
    (insn0 insn1 value : ℕ)
    → insn0 < 2 ^ 16
    → insn1 < 2 ^ 16
    → thumb_mov_insn insn0 insn1 value ≡ (
      insn0 / 2 ^ 11 * 2 ^ 11
          + value / 2 ^ 11 % 2 * 2 ^ 10
          + insn0 / 2 ^ 4 % 2 ^ 6 * 2 ^ 4
          + value / 2 ^ 12 % 2 ^ 4,
      insn1 / 2 ^ 15 * 2 ^ 15
          + value / 2 ^ 8 % 2 ^ 3 * 2 ^ 12
          + insn1 / 2 ^ 8 % 2 ^ 4 * 2 ^ 8
          + value % 2 ^ 8,
    )
unfolding thumb_mov_insn
thumb_mov_insn_fields insn0 insn1 value h0 h1 =
    let imm8_eq : u16 (bit_and value 0xff) ≡ value % 2 ^ 8 = omega (arith, and_mask 8 value) in
    let imm3_eq : u16 (bit_and (value >> 8) 7) ≡ value / 2 ^ 8 % 2 ^ 3 =
      omega (arith, and_mask 3 (value >> 8)) in
    let imm4_eq : u16 (bit_and (value >> 12) 0xf) ≡ value / 2 ^ 12 % 2 ^ 4 =
      omega (arith, and_mask 4 (value >> 12)) in
    let bit_i_eq : u16 (bit_and (value >> 11) 1) ≡ value / 2 ^ 11 % 2 =
      omega (arith, and_mask 1 (value >> 11)) in
    rw (
      imm8_eq,
      imm3_eq,
      imm4_eq,
      bit_i_eq,
      high_halfword insn0 (value / 2 ^ 11 % 2) (value / 2 ^ 12 % 2 ^ 4) h0 (omega arith)
          (omega arith),
      low_halfword insn1 (value / 2 ^ 8 % 2 ^ 3) (value % 2 ^ 8) h1 (omega arith) (omega arith),
    )

thumb_mov_value_fields :
    (hi lo : ℕ)
    → thumb_mov_value hi lo
      ≡ hi % 2 ^ 4 * 2 ^ 12 + hi / 2 ^ 10 % 2 * 2 ^ 11 + lo / 2 ^ 12 % 2 ^ 3 * 2 ^ 8 + lo % 2 ^ 8
unfolding thumb_mov_value
thumb_mov_value_fields hi lo =
    let imm4 = hi % 2 ^ 4 << 12 in
    let bit_i = hi / 2 ^ 10 % 2 << 11 in
    let imm3 = lo / 2 ^ 12 % 2 ^ 3 << 8 in
    rw (
      and_mask 8 lo,
      and_mask 3 (lo >> 12),
      and_mask 4 hi,
      and_mask 1 (hi >> 10),
      or_add 12 imm4 bit_i (omega arith) (omega arith),
      or_add 11 (imm4 + bit_i) imm3 (omega arith) (omega arith),
      or_add 8 (imm4 + bit_i + imm3) (lo % 2 ^ 8) (omega arith) (omega arith),
    )

-- For any two halfwords, the immediate that is decoded from a Thumb MOVW or MOVT after an encode is
-- the low 16 bits of the encoded value.
pub value-thumb_mov_insn :
    (insn0 insn1 value : ℕ)
    → insn0 < 2 ^ 16
    → insn1 < 2 ^ 16
    → (let insn = thumb_mov_insn insn0 insn1 value in thumb_mov_value insn.0 insn.1) ≡ u16 value
value-thumb_mov_insn insn0 insn1 value h0 h1 =
    let hi =
      insn0 / 2 ^ 11 * 2 ^ 11
      + value / 2 ^ 11 % 2 * 2 ^ 10
      + insn0 / 2 ^ 4 % 2 ^ 6 * 2 ^ 4
      + value / 2 ^ 12 % 2 ^ 4 in
    let lo =
      insn1 / 2 ^ 15 * 2 ^ 15
      + value / 2 ^ 8 % 2 ^ 3 * 2 ^ 12
      + insn1 / 2 ^ 8 % 2 ^ 4 * 2 ^ 8
      + value % 2 ^ 8 in
    rw (thumb_mov_insn_fields insn0 insn1 value h0 h1, thumb_mov_value_fields hi lo) (omega arith)

pub thumb_mov_insn-lt :
    (insn0 insn1 v : ℕ)
    → ((thumb_mov_insn insn0 insn1 v).0 < 2 ^ 16) × ((thumb_mov_insn insn0 insn1 v).1 < 2 ^ 16)
unfolding thumb_mov_insn
thumb_mov_insn-lt insn0 insn1 v = (omega arith, omega arith)

pub arm_mov_insn-lt : (insn v : ℕ) → insn < 2 ^ 32 → arm_mov_insn insn v < 2 ^ 32
arm_mov_insn-lt insn v h = omega (arith, arm_mov_insn_fields insn v h)
