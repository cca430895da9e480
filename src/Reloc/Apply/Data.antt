-- ===== src/Reloc/Apply/Data.antt =====
-- Relocations of data words: what stands in the word afterwards.
use lk_modloader.Base.{
  ℕ, ◌+◌, ◌-◌, ◌*◌, ◌/◌, ◌%◌, ◌^◌, ◌<◌, ◌≡◌, ◌∙◌, refl, Bool, true, false, arith, bit_and, and_mask,
  and_shifted, or-one, or-zero, or_add, u32, sub32, not32, add32, if◌then◌else◌,
}
use lk_modloader.Status.{ok}
use lk_modloader.Memory.{Memory, IsBytes, read32, write32}
use lk_modloader.Memory.Laws.{read32-write32, read32-lt}
use lk_modloader.Reloc.Apply.{
  RelocType, r_arm_abs32, r_arm_glob_dat, r_arm_jump_slot, r_arm_target2, r_arm_rel32, r_arm_prel31,
  apply_arm_reloc, apply_prel31, reloc_target,
}

-- The relocations that write `(S + A) | T` into the word.
pub data IsAbsolute : RelocType → Type 0 where
  abs32 : IsAbsolute r_arm_abs32
  glob_dat : IsAbsolute r_arm_glob_dat
  jump_slot : IsAbsolute r_arm_jump_slot
  target2 : IsAbsolute r_arm_target2

pub without_thumb_bit : (a : ℕ) → a < 2 ^ 32 → bit_and a (not32 1) ≡ a / 2 * 2
without_thumb_bit a h = omega (arith, and_shifted 1 a (2 ^ 31 - 1), and_mask 31 (a / 2 ^ 1))

pub reloc_target_thumb :
    (s a : ℕ) → s < 2 ^ 32 → reloc_target s a true ≡ u32 (s / 2 * 2 + a) / 2 * 2 + 1
unfolding reloc_target
reloc_target_thumb s a h = rw (without_thumb_bit s h, or-one (u32 (s / 2 * 2 + a)))

pub reloc_target_arm : (s a : ℕ) → s < 2 ^ 32 → reloc_target s a false ≡ u32 (s / 2 * 2 + a)
unfolding reloc_target
reloc_target_arm s a h = rw (without_thumb_bit s h, or-zero (u32 (s / 2 * 2 + a)))

reloc_target-lt : (s a : ℕ) (t : Bool) → s < 2 ^ 32 → reloc_target s a t < 2 ^ 32
reloc_target-lt s a true h = omega (arith, reloc_target_thumb s a h)
reloc_target-lt s a false h = omega (arith, reloc_target_arm s a h)

module _ (m : Memory) (place s a : ℕ) (is_rela : Bool) (hs : s < 2 ^ 32) where
  absolute_word :
      {ty : RelocType} (t : Bool)
      → IsAbsolute ty
      → apply_arm_reloc ty place s a t is_rela m ≡ ok (write32 m place (reloc_target s a t))
  unfolding apply_arm_reloc
  absolute_word t abs32 = refl
  absolute_word t glob_dat = refl
  absolute_word t jump_slot = refl
  absolute_word t target2 = refl

  -- For each of ABS32, GLOB_DAT, JUMP_SLOT and TARGET2, and an even addend: the relocation
  -- succeeds, and the word holds the symbol's address without its Thumb bit plus the addend, plus 1
  -- exactly if the symbol is Thumb code.
  pub reloc_absolute :
      {ty : RelocType} (t : Bool)
      → IsAbsolute ty
      → a % 2 ≡ 0
      → (m' : Memory) × (apply_arm_reloc ty place s a t is_rela m ≡ ok m')
        × (read32 m' place ≡ u32 (s / 2 * 2 + a) + (if t then 1 else 0))
  reloc_absolute t abs even = (
    write32 m place (reloc_target s a t),
    absolute_word t abs,
    read32-write32 m place (reloc_target s a t) ∙ value t,
  )
    where
      value : (t : Bool) → u32 (reloc_target s a t) ≡ u32 (s / 2 * 2 + a) + (if t then 1 else 0)
      value true = omega (arith, reloc_target_thumb s a hs)
      value false = omega (arith, reloc_target_arm s a hs)

  -- For each of ABS32, GLOB_DAT, JUMP_SLOT and TARGET2, an odd symbol value that counts as Thumb
  -- code and an odd addend: the relocation succeeds, and the word is one less than S + A modulo 2 ^
  -- 32.
  pub reloc_absolute_odd :
      {ty : RelocType}
      → IsAbsolute ty
      → s % 2 ≡ 1
      → a % 2 ≡ 1
      → (m' : Memory) × (apply_arm_reloc ty place s a true is_rela m ≡ ok m')
        × (u32 (read32 m' place + 1) ≡ u32 (s + a))
  reloc_absolute_odd abs odd_s odd_a = (
    write32 m place (reloc_target s a true),
    absolute_word true abs,
    omega (arith, read32-write32 m place (reloc_target s a true), reloc_target_thumb s a hs),
  )

  -- R_ARM_REL32 succeeds, and the word plus its own address gives (S + A) | T back.
  pub reloc_rel32 :
      (t : Bool)
      → place < 2 ^ 32
      → (m' : Memory) × (apply_arm_reloc r_arm_rel32 place s a t is_rela m ≡ ok m')
        × (add32 (read32 m' place) place ≡ reloc_target s a t)
  unfolding apply_arm_reloc
  reloc_rel32 t hp = (
    write32 m place (sub32 (reloc_target s a t) place),
    refl,
    omega (
      arith,
      read32-write32 m place (sub32 (reloc_target s a t) place),
      reloc_target-lt s a t hs,
    ),
  )

  prel31_word :
      (t : Bool)
      → IsBytes m
      → read32 (apply_prel31 place s a t m) place
        ≡ read32 m place / 2 ^ 31 * 2 ^ 31 + sub32 (reloc_target s a t) place % 2 ^ 31
  unfolding apply_prel31
  prel31_word t hm =
      let old = read32 m place in
      let offset = sub32 (reloc_target s a t) place in
      let small : old < 2 ^ 32 = read32-lt m place hm in
      rw
        (
          and_shifted 31 old 1,
          and_mask 1 (old / 2 ^ 31),
          and_mask 31 offset,
          or_add 31 (old / 2 ^ 31 % 2 ^ 1 * 2 ^ 31) (offset % 2 ^ 31) (omega arith) (omega arith),
          read32-write32,
        )
        (omega arith)

  -- R_ARM_PREL31 succeeds, the word plus its own address agrees with (S + A) | T in the low 31
  -- bits, and the top bit of the word is as before.
  pub reloc_prel31 :
      (t : Bool)
      → IsBytes m
      → place < 2 ^ 32
      → (m' : Memory) × (apply_arm_reloc r_arm_prel31 place s a t is_rela m ≡ ok m')
        × ((read32 m' place + place) % 2 ^ 31 ≡ reloc_target s a t % 2 ^ 31)
        × (read32 m' place / 2 ^ 31 ≡ read32 m place / 2 ^ 31)
  unfolding apply_arm_reloc
  reloc_prel31 t hm hp = (
    apply_prel31 place s a t m,
    refl,
    omega (arith, prel31_word t hm),
    omega (arith, prel31_word t hm, read32-lt m place hm),
  )
