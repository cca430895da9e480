-- ===== src/Reloc/Insn/Masks.antt =====
-- The masks of the instruction encoders and decoders as arithmetic on fields.
use lk_modloader.Base.{
  ℕ, ◌+◌, ◌-◌, ◌*◌, ◌/◌, ◌%◌, ◌^◌, ◌<◌, ◌≡◌, ◌∙◌, ap, zero, suc, refl, arith, bit_and, and_mask,
  and_shifted, and_split, xor_fields, xor-zero,
}
use lk_modloader.Reloc.Insn.{xnor_bit, sign_extend}

pub and_d000 :
    (x : ℕ) → x < 2 ^ 16 → bit_and x 0xd000 ≡ x / 2 ^ 14 * 2 ^ 14 + x / 2 ^ 12 % 2 * 2 ^ 12
and_d000 x h = omega (
  arith,
  and_shifted 12 x 13,
  and_split 2 (x / 2 ^ 12) 13,
  and_mask 2 (x / 2 ^ 12 / 2 ^ 2),
  and_mask 1 (x / 2 ^ 12 % 2 ^ 2),
)

pub and_2fff : (x : ℕ) → bit_and x 0x2fff ≡ x / 2 ^ 13 % 2 * 2 ^ 13 + x % 2 ^ 12
and_2fff x = omega (
  arith,
  and_split 12 x 0x2fff,
  and_shifted 1 (x / 2 ^ 12) 1,
  and_mask 1 (x / 2 ^ 12 / 2 ^ 1),
  and_mask 12 (x % 2 ^ 12),
)

pub and_f800 : (x : ℕ) → x < 2 ^ 16 → bit_and x 0xf800 ≡ x / 2 ^ 11 * 2 ^ 11
and_f800 x h = omega (arith, and_shifted 11 x 31, and_mask 5 (x / 2 ^ 11))

pub and_fbf0 :
    (x : ℕ) → x < 2 ^ 16 → bit_and x 0xfbf0 ≡ x / 2 ^ 11 * 2 ^ 11 + x / 2 ^ 4 % 2 ^ 6 * 2 ^ 4
and_fbf0 x h = omega (
  arith,
  and_split 10 x 0xfbf0,
  and_shifted 1 (x / 2 ^ 10) 31,
  and_mask 5 (x / 2 ^ 10 / 2 ^ 1),
  and_shifted 4 (x % 2 ^ 10) 63,
  and_mask 6 (x % 2 ^ 10 / 2 ^ 4),
)

pub and_040f : (x : ℕ) → bit_and x 0x040f ≡ x / 2 ^ 10 % 2 * 2 ^ 10 + x % 2 ^ 4
and_040f x = omega (arith, and_split 10 x 0x040f, and_mask 1 (x / 2 ^ 10), and_mask 4 (x % 2 ^ 10))

pub and_8f00 :
    (x : ℕ) → x < 2 ^ 16 → bit_and x 0x8f00 ≡ x / 2 ^ 15 * 2 ^ 15 + x / 2 ^ 8 % 2 ^ 4 * 2 ^ 8
and_8f00 x h = omega (
  arith,
  and_shifted 8 x 0x8f,
  and_split 7 (x / 2 ^ 8) 0x8f,
  and_mask 1 (x / 2 ^ 8 / 2 ^ 7),
  and_mask 4 (x / 2 ^ 8 % 2 ^ 7),
)

pub and_70ff : (x : ℕ) → bit_and x 0x70ff ≡ x / 2 ^ 12 % 2 ^ 3 * 2 ^ 12 + x % 2 ^ 8
and_70ff x = omega (
  arith,
  and_split 8 x 0x70ff,
  and_shifted 4 (x / 2 ^ 8) 7,
  and_mask 3 (x / 2 ^ 8 / 2 ^ 4),
  and_mask 8 (x % 2 ^ 8),
)

pub and_fff0f000 :
    (x : ℕ) → x < 2 ^ 32 → bit_and x 0xfff0f000 ≡ x / 2 ^ 20 * 2 ^ 20 + x / 2 ^ 12 % 2 ^ 4 * 2 ^ 12
and_fff0f000 x h = omega (
  arith,
  and_split 16 x 0xfff0f000,
  and_shifted 4 (x / 2 ^ 16) 0xfff,
  and_mask 12 (x / 2 ^ 16 / 2 ^ 4),
  and_shifted 12 (x % 2 ^ 16) 15,
  and_mask 4 (x % 2 ^ 16 / 2 ^ 12),
)

-- A field in the middle of a word.
pub and_middle : (k w x : ℕ) → bit_and x ((2 ^ w - 1) * 2 ^ k) ≡ x / 2 ^ k % 2 ^ w * 2 ^ k
and_middle k w x = and_shifted k x (2 ^ w - 1) ∙ ap (λ (t : ℕ). t * 2 ^ k) (and_mask w (x / 2 ^ k))

-- On two bits `~(j ^ s) & 1` says whether they are the same.
pub xnor_bit_lem : (j s : ℕ) → j < 2 → s < 2 → xnor_bit j s ≡ (j + s + 1) % 2
unfolding xnor_bit
xnor_bit_lem zero zero p q = refl
xnor_bit_lem zero (suc zero) p q = refl
xnor_bit_lem (suc zero) zero p q = refl
xnor_bit_lem (suc zero) (suc zero) p q = refl
xnor_bit_lem (suc (suc j)) s p q = absurd (omega arith)
xnor_bit_lem j (suc (suc s)) p q = absurd (omega arith)

-- The value of `k + 1` bits with sign bit `q`: as it is, or less 2 ^ (k + 1).
pub sign_extend_25 :
    (q r : ℕ) → q < 2 → r < 2 ^ 24 → sign_extend (q * 2 ^ 24 + r) 25 ≡ (q * (2 ^ 32 - 2 ^ 24)) + r
unfolding sign_extend
sign_extend_25 zero r p h = omega (arith, xor_fields 24 0 1 r 0 h (omega arith), xor-zero r)
sign_extend_25 (suc zero) r p h = omega (arith, xor_fields 24 1 1 r 0 h (omega arith), xor-zero r)
sign_extend_25 (suc (suc q)) r p h = absurd (omega arith)

pub sign_extend_26 :
    (q r : ℕ) → q < 2 → r < 2 ^ 25 → sign_extend (q * 2 ^ 25 + r) 26 ≡ (q * (2 ^ 32 - 2 ^ 25)) + r
unfolding sign_extend
sign_extend_26 zero r p h = omega (arith, xor_fields 25 0 1 r 0 h (omega arith), xor-zero r)
sign_extend_26 (suc zero) r p h = omega (arith, xor_fields 25 1 1 r 0 h (omega arith), xor-zero r)
sign_extend_26 (suc (suc q)) r p h = absurd (omega arith)
