-- ===== src/Reloc/Apply/Mov.antt =====
-- MOVW and MOVT relocations: the pair loads the whole 32-bit value.
use lk_modloader.Base.{
  ℕ, ◌+◌, ◌*◌, ◌/◌, ◌%◌, ◌^◌, ◌<◌, ◌≤◌, ◌≡◌, ◌∙◌, ◌⊎◌, refl, ap, ap₂, Bool, true, false, arith,
  and_mask, and_shifted, u16, u32,
}
use lk_modloader.Status.{ok}
use lk_modloader.Memory.{Memory, IsBytes, read16, read32, write16}
use lk_modloader.Memory.Laws.{
  write16-IsBytes, write32-IsBytes, read16-write16_pair, read16-lt, read32-write32, read32-lt,
}
use lk_modloader.Reloc.Insn.{
  thumb_mov_value, thumb_mov_insn, arm_mov_value, arm_mov_insn, reloc_encode_thumb_mov,
  reloc_encode_arm_mov, reloc_addend_thumb_mov, reloc_addend_arm_mov, write_halfwords,
}
use lk_modloader.Reloc.Insn.Mov.{
  value-thumb_mov_insn, value-arm_mov_insn, arm_mov_insn-lt, thumb_mov_insn-lt,
}
use lk_modloader.Reloc.Apply.{
  r_arm_movw_abs_nc, r_arm_movt_abs, r_arm_thm_movw_abs_nc, r_arm_thm_movt_abs, apply_arm_reloc,
  reloc_target, low_half, high_half,
}
use lk_modloader.Reloc.Apply.Data.{without_thumb_bit, reloc_target_thumb, reloc_target_arm}
use lk_modloader.Reloc.Apply.Frame.{reloc-frame}

addend-encode_thumb_mov :
    (m : Memory) (place v : ℕ)
    → IsBytes m
    → reloc_addend_thumb_mov (reloc_encode_thumb_mov m place v) place ≡ u16 v
unfolding reloc_addend_thumb_mov reloc_encode_thumb_mov write_halfwords
addend-encode_thumb_mov m place v hm =
    let insn = thumb_mov_insn (read16 m place) (read16 m (place + 2)) v in
    let back = read16-write16_pair m place insn.0 insn.1 in
    let small = thumb_mov_insn-lt (read16 m place) (read16 m (place + 2)) v in
    ap₂ thumb_mov_value (omega (arith, back, small)) (omega (arith, back, small))
    ∙ value-thumb_mov_insn (read16 m place) (read16 m (place + 2)) v (read16-lt m place hm)
        (read16-lt m (place + 2) hm)

addend-encode_arm_mov :
    (m : Memory) (place v : ℕ)
    → IsBytes m
    → reloc_addend_arm_mov (reloc_encode_arm_mov m place v) place ≡ u16 v
unfolding reloc_addend_arm_mov reloc_encode_arm_mov
addend-encode_arm_mov m place v hm =
    let insn = arm_mov_insn (read32 m place) v in
    ap arm_mov_value (
      read32-write32 m place insn
      ∙ omega (arith, arm_mov_insn-lt (read32 m place) v (read32-lt m place hm)))
    ∙ value-arm_mov_insn (read32 m place) v (read32-lt m place hm)

encode_thumb_mov-IsBytes :
    (m : Memory) (place v : ℕ) → IsBytes m → IsBytes (reloc_encode_thumb_mov m place v)
unfolding reloc_encode_thumb_mov write_halfwords
encode_thumb_mov-IsBytes m place v hm =
    let insn = thumb_mov_insn (read16 m place) (read16 m (place + 2)) v in
    write16-IsBytes (write16 m place insn.0) (place + 2) insn.1 (write16-IsBytes m place insn.0 hm)

encode_arm_mov-IsBytes :
    (m : Memory) (place v : ℕ) → IsBytes m → IsBytes (reloc_encode_arm_mov m place v)
unfolding reloc_encode_arm_mov
encode_arm_mov-IsBytes m place v hm = write32-IsBytes m place (arm_mov_insn (read32 m place) v) hm

-- MOVW gets the low 16 bits of `(S + A) | T`, and MOVT the high 16 bits of `S + A`.
halves :
    (s a : ℕ) (t : Bool)
    → s < 2 ^ 32
    → (low_half s a t ≡ reloc_target s a t % 2 ^ 16)
      × (high_half s a ≡ u32 (s / 2 * 2 + a) / 2 ^ 16)
unfolding low_half high_half
halves s a t hs = (
  and_mask 16 (reloc_target s a t),
  rw (without_thumb_bit s hs) (
      omega (
        arith,
        and_shifted 16 (u32 (s / 2 * 2 + a)) 0xffff,
        and_mask 16 (u32 (s / 2 * 2 + a) / 2 ^ 16),
      )),
)

-- The two halves make up the target.
halves_sum :
    (s a : ℕ) (t : Bool)
    → s < 2 ^ 32
    → u16 (high_half s a) * 2 ^ 16 + u16 (low_half s a t) ≡ reloc_target s a t
halves_sum s a true hs = omega (arith, halves s a true hs, reloc_target_thumb s a hs)
halves_sum s a false hs = omega (arith, halves s a false hs, reloc_target_arm s a hs)

-- The decoders read four bytes.
addend_frame_thumb :
    (m m' : Memory) (place : ℕ)
    → ((b : ℕ) → place ≤ b → b < place + 4 → m' b ≡ m b)
    → reloc_addend_thumb_mov m' place ≡ reloc_addend_thumb_mov m place
unfolding reloc_addend_thumb_mov read16
addend_frame_thumb m m' place same =
    ap₂ thumb_mov_value
      (omega (
        arith,
        same place (omega arith) (omega arith),
        same (place + 1) (omega arith) (omega arith),
      ))
      (omega (
        arith,
        same (place + 2) (omega arith) (omega arith),
        same (place + 2 + 1) (omega arith) (omega arith),
      ))

addend_frame_arm :
    (m m' : Memory) (place : ℕ)
    → ((b : ℕ) → place ≤ b → b < place + 4 → m' b ≡ m b)
    → reloc_addend_arm_mov m' place ≡ reloc_addend_arm_mov m place
unfolding reloc_addend_arm_mov read32
addend_frame_arm m m' place same = ap arm_mov_value (
    omega (
      arith,
      same place (omega arith) (omega arith),
      same (place + 1) (omega arith) (omega arith),
      same (place + 2) (omega arith) (omega arith),
      same (place + 2 + 1) (omega arith) (omega arith),
    ))

module _ (m : Memory) (movw movt s a : ℕ) (t is_rela : Bool) (hm : IsBytes m) (hs : s < 2 ^ 32)
    (apart : (movw + 4 ≤ movt) ⊎ (movt + 4 ≤ movw)) where
  -- A Thumb MOVW and a Thumb MOVT at places that do not overlap, relocated one after the other for
  -- the same symbol and addend, both succeed, and their immediates put together are (S + A) | T.
  pub reloc_thumb_mov_pair :
      (m₁ m₂ : Memory) × (apply_arm_reloc r_arm_thm_movw_abs_nc movw s a t is_rela m ≡ ok m₁)
      × (apply_arm_reloc r_arm_thm_movt_abs movt s a t is_rela m₁ ≡ ok m₂)
      × (reloc_addend_thumb_mov m₂ movt * 2 ^ 16 + reloc_addend_thumb_mov m₂ movw
          ≡ reloc_target s a t)
  unfolding apply_arm_reloc
  reloc_thumb_mov_pair =
      let m₁ = reloc_encode_thumb_mov m movw (low_half s a t) in
      let m₂ = reloc_encode_thumb_mov m₁ movt (high_half s a) in
      let bytes : IsBytes m₁ = encode_thumb_mov-IsBytes m movw (low_half s a t) hm in
      let kept =
        addend_frame_thumb m₁ m₂ movw
          (λ b p q. reloc-frame m₁ movt b (omega arith) r_arm_thm_movt_abs s a t is_rela refl) in
      (
        m₁,
        m₂,
        refl,
        refl,
        omega (
          arith,
          kept,
          addend-encode_thumb_mov m movw (low_half s a t) hm,
          addend-encode_thumb_mov m₁ movt (high_half s a) bytes,
          halves_sum s a t hs,
        ),
      )

  -- An ARM MOVW and an ARM MOVT at places that do not overlap, relocated one after the other for
  -- the same symbol and addend, both succeed, and their immediates put together are (S + A) | T.
  pub reloc_arm_mov_pair :
      (m₁ m₂ : Memory) × (apply_arm_reloc r_arm_movw_abs_nc movw s a t is_rela m ≡ ok m₁)
      × (apply_arm_reloc r_arm_movt_abs movt s a t is_rela m₁ ≡ ok m₂)
      × (reloc_addend_arm_mov m₂ movt * 2 ^ 16 + reloc_addend_arm_mov m₂ movw ≡ reloc_target s a t)
  unfolding apply_arm_reloc
  reloc_arm_mov_pair =
      let m₁ = reloc_encode_arm_mov m movw (low_half s a t) in
      let m₂ = reloc_encode_arm_mov m₁ movt (high_half s a) in
      let bytes : IsBytes m₁ = encode_arm_mov-IsBytes m movw (low_half s a t) hm in
      let kept =
        addend_frame_arm m₁ m₂ movw
          (λ b p q. reloc-frame m₁ movt b (omega arith) r_arm_movt_abs s a t is_rela refl) in
      (
        m₁,
        m₂,
        refl,
        refl,
        omega (
          arith,
          kept,
          addend-encode_arm_mov m movw (low_half s a t) hm,
          addend-encode_arm_mov m₁ movt (high_half s a) bytes,
          halves_sum s a t hs,
        ),
      )
