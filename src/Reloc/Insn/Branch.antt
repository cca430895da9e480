-- ===== src/Reloc/Insn/Branch.antt =====
-- Branch instructions: what an encoder of app/modloader/modloader_reloc.c writes is what the decoder
-- reads, and the bits that are no part of the offset stay.
use lk_modloader.Base.{
  ℕ, ◌+◌, ◌*◌, ◌/◌, ◌%◌, ◌^◌, ◌<◌, ◌≡◌, ◌∙◌, ap, ap₂, refl, arith, bit_and, bit_or, and_mask,
  and_shifted, or_add, or_fields, u16, ◌<<◌, ◌>>◌, true, false, ◌≢◌, or-zero, zero-or, ◌==◌,
  if◌then◌else◌,
}
use lk_modloader.Reloc.Insn.{
  sign_extend, thumb32_branch_offset, thumb32_branch_insn, arm_branch_offset, arm_branch_insn,
}
use lk_modloader.Reloc.Insn.Masks.{and_d000, and_2fff, and_f800, xnor_bit_lem}

-- The halfwords with the fields put in.
low_halfword :
    (x i1 i2 imm11 : ℕ)
    → x < 2 ^ 16
    → i1 < 2
    → i2 < 2
    → imm11 < 2 ^ 11
    → u16 (bit_or (bit_and x 0xd000) (bit_and (bit_or (bit_or (i1 << 13) (i2 << 11)) imm11) 0x2fff))
      ≡ x / 2 ^ 14 * 2 ^ 14 + i1 * 2 ^ 13 + x / 2 ^ 12 % 2 * 2 ^ 12 + i2 * 2 ^ 11 + imm11
low_halfword x i1 i2 imm11 hx h1 h2 hi =
    let kept = x / 2 ^ 14 * 2 ^ 14 + x / 2 ^ 12 % 2 * 2 ^ 12 in
    let new = i1 * 2 ^ 13 + i2 * 2 ^ 11 + imm11 in
    let q = x / 2 ^ 14 * 2 in
    let r = x / 2 ^ 12 % 2 * 2 ^ 12 in
    let n = i2 * 2 ^ 11 + imm11 in
    let kept_split : kept ≡ q * 2 ^ 13 + r = omega arith in
    let new_split : new / 2 ^ 13 % 2 * 2 ^ 13 + new % 2 ^ 12 ≡ i1 * 2 ^ 13 + n = omega arith in
    rw
      (
        and_d000 x hx,
        or_add 13 (i1 * 2 ^ 13) (i2 * 2 ^ 11) (omega arith) (omega arith),
        or_add 11 (i1 * 2 ^ 13 + i2 * 2 ^ 11) imm11 (omega arith) hi,
        and_2fff,
      )
      (omega (
        arith,
        ap₂ bit_or kept_split new_split,
        or_fields 13 q i1 r n (omega arith) (omega arith),
        or_add 1 q i1 (omega arith) h1,
        or_add 12 r n (omega arith) (omega arith),
      ))

high_halfword :
    (x s imm10 : ℕ)
    → x < 2 ^ 16
    → s < 2
    → imm10 < 2 ^ 10
    → u16 (bit_or (bit_and x 0xf800) (bit_and (bit_or (s << 10) imm10) 0x07ff))
      ≡ x / 2 ^ 11 * 2 ^ 11 + s * 2 ^ 10 + imm10
high_halfword x s imm10 hx hs hi =
    rw (and_f800 x hx, or_add 10 (s * 2 ^ 10) imm10 (omega arith) hi, and_mask 11)
      (rw
        (or_add 11 (x / 2 ^ 11 * 2 ^ 11) ((s * 2 ^ 10 + imm10) % 2 ^ 11) (omega arith)
          (omega arith))
        (omega arith))

-- What the Thumb-2 encoder writes, field by field: `r` is the offset in halfwords.
abbrev high_field : ℕ → ℕ → ℕ
high_field insn0 r = insn0 / 2 ^ 11 * 2 ^ 11 + r / 2 ^ 23 * 2 ^ 10 + r / 2 ^ 11 % 2 ^ 10

abbrev low_field : ℕ → ℕ → ℕ
low_field insn1 r =
    insn1 / 2 ^ 14 * 2 ^ 14
    + (r / 2 ^ 22 % 2 + r / 2 ^ 23 + 1) % 2 * 2 ^ 13
    + insn1 / 2 ^ 12 % 2 * 2 ^ 12
    + (r / 2 ^ 21 % 2 + r / 2 ^ 23 + 1) % 2 * 2 ^ 11
    + r % 2 ^ 11

thumb32_branch_insn_fields :
    (insn0 insn1 value : ℕ)
    → insn0 < 2 ^ 16
    → insn1 < 2 ^ 16
    → thumb32_branch_insn insn0 insn1 value true
      ≡ (high_field insn0 (value / 2 % 2 ^ 24), low_field insn1 (value / 2 % 2 ^ 24))
unfolding thumb32_branch_insn
thumb32_branch_insn_fields insn0 insn1 value h0 h1 =
    let r = value / 2 % 2 ^ 24 in
    let whole : bit_and value 0x01fffffe >> 1 ≡ r =
      omega (arith, and_shifted 1 value 0xffffff, and_mask 24 (value / 2 ^ 1)) in
    let s_eq : u16 (bit_and (r >> 23) 1) ≡ r / 2 ^ 23 = omega (arith, and_mask 1 (r >> 23)) in
    let i1_eq : u16 (bit_and (r >> 22) 1) ≡ r / 2 ^ 22 % 2 = omega (arith, and_mask 1 (r >> 22)) in
    let i2_eq : u16 (bit_and (r >> 21) 1) ≡ r / 2 ^ 21 % 2 = omega (arith, and_mask 1 (r >> 21)) in
    let imm10_eq : u16 (bit_and (r >> 11) 0x3ff) ≡ r / 2 ^ 11 % 2 ^ 10 =
      omega (arith, and_mask 10 (r >> 11)) in
    let imm11_eq : u16 (bit_and r 0x7ff) ≡ r % 2 ^ 11 = omega (arith, and_mask 11 r) in
    rw (
      whole,
      s_eq,
      i1_eq,
      i2_eq,
      imm10_eq,
      imm11_eq,
      xnor_bit_lem (r / 2 ^ 22 % 2) (r / 2 ^ 23) (omega arith) (omega arith),
      xnor_bit_lem (r / 2 ^ 21 % 2) (r / 2 ^ 23) (omega arith) (omega arith),
      high_halfword insn0 (r / 2 ^ 23) (r / 2 ^ 11 % 2 ^ 10) h0 (omega arith) (omega arith),
      low_halfword insn1 ((r / 2 ^ 22 % 2 + r / 2 ^ 23 + 1) % 2)
          ((r / 2 ^ 21 % 2 + r / 2 ^ 23 + 1) % 2) (r % 2 ^ 11) h1 (omega arith) (omega arith)
          (omega arith),
    )

-- Decoding reads the same fields.
thumb32_branch_offset_fields :
    (hi lo : ℕ)
    → let s = hi / 2 ^ 10 % 2 in
      thumb32_branch_offset hi lo
      ≡ sign_extend
          (s * 2 ^ 24
            + ((lo / 2 ^ 13 % 2 + s + 1) % 2 * 2 ^ 23
                + (lo / 2 ^ 11 % 2 + s + 1) % 2 * 2 ^ 22
                + hi % 2 ^ 10 * 2 ^ 12
                + lo % 2 ^ 11 * 2))
          25
unfolding thumb32_branch_offset
thumb32_branch_offset_fields hi lo =
    let s = hi / 2 ^ 10 % 2 in
    let i1 = (lo / 2 ^ 13 % 2 + s + 1) % 2 in
    let i2 = (lo / 2 ^ 11 % 2 + s + 1) % 2 in
    rw
      (
        and_mask 10 hi,
        and_mask 11 lo,
        and_mask 1 (hi >> 10),
        and_mask 1 (lo >> 11),
        and_mask 1 (lo >> 13),
        xnor_bit_lem (lo / 2 ^ 13 % 2) s (omega arith) (omega arith),
        xnor_bit_lem (lo / 2 ^ 11 % 2) s (omega arith) (omega arith),
        or_add 24 (s << 24) (i1 << 23) (omega arith) (omega arith),
        or_add 23 ((s << 24) + (i1 << 23)) (i2 << 22) (omega arith) (omega arith),
        or_add 22 ((s << 24) + (i1 << 23) + (i2 << 22)) (hi % 2 ^ 10 << 12) (omega arith)
            (omega arith),
        or_add 12 ((s << 24) + (i1 << 23) + (i2 << 22) + (hi % 2 ^ 10 << 12)) (lo % 2 ^ 11 << 1)
            (omega arith) (omega arith),
      )
      (ap (λ v. sign_extend v 25) (omega arith))

-- For any two halfwords, the branch offset that is decoded from a Thumb-2 branch after an encode is
-- the encoded value, without its lowest bit, as a 25-bit signed number.
pub offset-thumb32_branch_insn :
    (insn0 insn1 value : ℕ)
    → insn0 < 2 ^ 16
    → insn1 < 2 ^ 16
    → (let insn = thumb32_branch_insn insn0 insn1 value true in thumb32_branch_offset insn.0 insn.1)
      ≡ sign_extend (value / 2 % 2 ^ 24 * 2) 25
offset-thumb32_branch_insn insn0 insn1 value h0 h1 =
    let r = value / 2 % 2 ^ 24 in
    rw
      (
        thumb32_branch_insn_fields insn0 insn1 value h0 h1,
        thumb32_branch_offset_fields (high_field insn0 r) (low_field insn1 r),
      )
      (ap (λ v. sign_extend v 25) (omega arith))

-- The field that is set may be the high one.
or_comm_add : (r q : ℕ) → r < 2 ^ 24 → bit_or r (q << 24) ≡ (q << 24) + r
or_comm_add r q h =
    ap₂ bit_or (omega arith) (omega arith)
    ∙ or_fields 24 0 q r 0 h (omega arith)
    ∙ omega (arith, or-zero r, zero-or q)

arm_branch_insn_bl :
    (insn value : ℕ)
    → insn < 2 ^ 32
    → arm_branch_insn insn value false ≡ insn / 2 ^ 24 * 2 ^ 24 + value / 4 % 2 ^ 24
unfolding arm_branch_insn
arm_branch_insn_bl insn value h =
    let v = value / 4 % 2 ^ 24 in
    let imm24 : bit_and value 0x03fffffc >> 2 ≡ v =
      omega (arith, and_shifted 2 value 0xffffff, and_mask 24 (value / 2 ^ 2)) in
    rw
      (
        imm24,
        and_mask 24 v,
        and_shifted 24 insn 0xff,
        and_mask 8 (insn / 2 ^ 24),
        or_add 24 (insn / 2 ^ 24 % 2 ^ 8 * 2 ^ 24) (v % 2 ^ 24) (omega arith) (omega arith),
      )
      (omega arith)

arm_branch_insn_blx :
    (insn value : ℕ)
    → insn < 2 ^ 32
    → arm_branch_insn insn value true ≡ (0xfa + value / 2 % 2) * 2 ^ 24 + value / 4 % 2 ^ 24
unfolding arm_branch_insn
arm_branch_insn_blx insn value h =
    let w = arm_branch_insn insn value false in
    let low : bit_and w 0x00ffffff ≡ value / 4 % 2 ^ 24 =
      omega (arith, and_mask 24 w, arm_branch_insn_bl insn value h) in
    let bit_h : bit_and value 2 >> 1 ≡ value / 2 % 2 =
      omega (arith, and_shifted 1 value 1, and_mask 1 (value / 2 ^ 1)) in
    rw (
      low,
      bit_h,
      or_add 1 0xfa (value / 2 % 2) refl (omega arith),
      or_comm_add (value / 4 % 2 ^ 24) (0xfa + value / 2 % 2) (omega arith),
    )

arm_branch_offset_fields :
    (insn : ℕ)
    → insn < 2 ^ 32
    → arm_branch_offset insn
      ≡ sign_extend
          (insn % 2 ^ 24 * 4 + (if insn / 2 ^ 28 == 0xf then insn / 2 ^ 24 % 2 else 0) * 2)
          26
unfolding arm_branch_offset
arm_branch_offset_fields insn h =
    let top : bit_and insn 0xf0000000 ≡ insn / 2 ^ 28 * 2 ^ 28 =
      omega (arith, and_shifted 28 insn 0xf, and_mask 4 (insn / 2 ^ 28)) in
    let test : (insn / 2 ^ 28 * 2 ^ 28 == 0xf0000000) ≡ (insn / 2 ^ 28 == 0xf) = ground arith in
    let bit_h : bit_and insn 0x01000000 >> 24 ≡ insn / 2 ^ 24 % 2 =
      omega (arith, and_shifted 24 insn 1, and_mask 1 (insn / 2 ^ 24)) in
    let h_bit = if insn / 2 ^ 28 == 0xf then insn / 2 ^ 24 % 2 else 0 in
    let h_small : h_bit < 2 = ground arith in
    rw (
      top,
      test,
      bit_h,
      and_mask 24 insn,
      or_add 2 (insn % 2 ^ 24 << 2) (h_bit << 1) (omega arith) (omega arith),
    )

-- For any word that is not a BLX, the branch offset that is decoded from an ARM branch after an
-- encode is the encoded value, without its two lowest bits, as a 26-bit signed number.
pub offset-arm_branch_insn_bl :
    (insn value : ℕ)
    → insn < 2 ^ 32
    → insn / 2 ^ 28 ≢ 0xf
    → arm_branch_offset (arm_branch_insn insn value false) ≡ sign_extend (value / 4 % 2 ^ 24 * 4) 26
offset-arm_branch_insn_bl insn value h plain =
    let w = insn / 2 ^ 24 * 2 ^ 24 + value / 4 % 2 ^ 24 in
    let test : (w / 2 ^ 28 == 0xf) ≡ false = ground arith in
    rw (arm_branch_insn_bl insn value h, arm_branch_offset_fields w (omega arith), test)
      (ap (λ v. sign_extend v 26) (omega arith))

-- For any word that is made a BLX, the decoded branch offset is the encoded value, without its
-- lowest bit, as a 26-bit signed number.
pub offset-arm_branch_insn_blx :
    (insn value : ℕ)
    → insn < 2 ^ 32
    → arm_branch_offset (arm_branch_insn insn value true) ≡ sign_extend (value / 2 % 2 ^ 25 * 2) 26
offset-arm_branch_insn_blx insn value h =
    let w = (0xfa + value / 2 % 2) * 2 ^ 24 + value / 4 % 2 ^ 24 in
    let test : (w / 2 ^ 28 == 0xf) ≡ true = ground arith in
    rw (arm_branch_insn_blx insn value h, arm_branch_offset_fields w (omega arith), test)
      (ap (λ v. sign_extend v 26) (omega arith))

-- An instruction stays a word, and a `BLX` is marked as one.
pub arm_branch_insn-lt :
    (insn value : ℕ)
    → insn < 2 ^ 32
    → (arm_branch_insn insn value false < 2 ^ 32)
      × (arm_branch_insn insn value true < 2 ^ 32)
      × (arm_branch_insn insn value true / 2 ^ 25 ≡ 0x7d)
arm_branch_insn-lt insn value h =
    omega (arith, arm_branch_insn_bl insn value h, arm_branch_insn_blx insn value h)
