-- ===== src/Rel/SectionBytes.antt =====
-- What the copy of one section writes, in `modloader_load_rel_image`.
use lk_modloader.Base.{
  ℕ, zero, suc, ◌+◌, ◌≤◌, ◌<◌, ◌≡◌, ◌⊎◌, sym, ap, subst, ◌∙◌, arith, List, [], ◌∷◌, some, true,
  false, ◌==◌, leb, get_elem?, take, drop, length, u8, inl, inr, Bool-cases, Option-cases,
}
use lk_modloader.Outcome.{done}
use lk_modloader.Action.{◌>>=◌}
use lk_modloader.Elf.{Elf, Shdr}
use lk_modloader.Kernel.{Kernel}
use lk_modloader.Memory.{Memory, write8, copy_bytes, zero_bytes}
use lk_modloader.Memory.Laws.{Outside, copy_bytes-frame, zero_bytes-frame}
use lk_modloader.World.{World}
use lk_modloader.Rel.Layout.{beyond}
use lk_modloader.Rel.{image_bytes, copy_section}

get-copy_bytes :
    (m : Memory) (a : ℕ) (xs : List ℕ) (n v : ℕ)
    → get_elem? xs n ≡ some v
    → copy_bytes m a xs (a + n) ≡ u8 v
unfolding copy_bytes
get-copy_bytes m a [] n v h = absurd (ground (arith, h))
get-copy_bytes m a (x ∷ xs) zero v h =
    ap (copy_bytes (write8 m a x) (a + 1) xs) (omega arith)
    ∙ copy_bytes-frame (write8 m a x) (a + 1) xs a (inl (omega arith))
    ∙ (unfold write8 in ground (arith, h))
get-copy_bytes m a (x ∷ xs) (suc n) v h =
    ap (copy_bytes (write8 m a x) (a + 1) xs) (omega arith)
    ∙ get-copy_bytes (write8 m a x) (a + 1) xs n v h

get-zero_bytes : (m : Memory) (a size n : ℕ) → n < size → zero_bytes m a size (a + n) ≡ 0
unfolding zero_bytes
get-zero_bytes m a zero n h = absurd (omega (arith, h))
get-zero_bytes m a (suc size) zero h =
    ap (zero_bytes (write8 m a 0) (a + 1) size) (omega arith)
    ∙ zero_bytes-frame (write8 m a 0) (a + 1) size a (inl (omega arith))
    ∙ (unfold write8 in ground arith)
get-zero_bytes m a (suc size) (suc n) h =
    ap (zero_bytes (write8 m a 0) (a + 1) size) (omega arith)
    ∙ get-zero_bytes (write8 m a 0) (a + 1) size n (omega (arith, h))

Outside-le : (a size n b : ℕ) → Outside a size b → n ≤ size → Outside a n b
Outside-le a size n b (inl before) le = inl before
Outside-le a size n b (inr after) le = inr (omega (arith, after, le))

pub get-lt : (xs : List ℕ) (n v : ℕ) → get_elem? xs n ≡ some v → n < length xs
get-lt [] n v h = absurd (ground (arith, h))
get-lt (x ∷ xs) zero v h = omega arith
get-lt (x ∷ xs) (suc n) v h = omega (arith, get-lt xs n v h)

length-take_le : (n : ℕ) (xs : List ℕ) → length (take n xs) ≤ n
length-take_le zero xs = omega arith
length-take_le (suc n) [] = omega arith
length-take_le (suc n) (x ∷ xs) = omega (arith, length-take_le n xs)

-- The copy loop fills these two types of sections and no other.
abbrev pub IsFilled : Elf → Shdr → Type 0
IsFilled elf s = ((s.sh_type == elf.sht_progbits) ≡ true) ⊎ ((s.sh_type == elf.sht_nobits) ≡ true)

-- A section of another type has in `m'` the bytes that stood there in `m`.
abbrev pub KeepsSection : Elf → Shdr → ℕ → Memory → Memory → Type 0
KeepsSection elf s dest m m' =
    (n : ℕ) → ¬ IsFilled elf s → n < s.sh_size → m' (dest + n) ≡ m (dest + n)

module _ (k : Kernel) (elf : Elf) (image : List ℕ) where
  -- From `dest` on, the memory holds the section: the bytes of the image, or zeros.
  abbrev pub HoldsSection : Shdr → ℕ → Memory → Type 0
  HoldsSection s dest m =
      ((bytes : List ℕ) (n v : ℕ)
        → (s.sh_type == elf.sht_progbits) ≡ true
        → image_bytes image s.sh_offset s.sh_size ≡ some bytes
        → get_elem? bytes n ≡ some v
        → m (dest + n) ≡ u8 v)
      × ((n : ℕ)
          → (s.sh_type == elf.sht_progbits) ≡ false
          → (s.sh_type == elf.sht_nobits) ≡ true
          → n < s.sh_size
          → m (dest + n) ≡ 0)

  -- Nothing is written outside the section, and nothing at all for a section that is not filled.
  abbrev pub Frames : Shdr → ℕ → Memory → Memory → Type 0
  Frames s dest m m' = (b : ℕ) → (IsFilled elf s → Outside dest s.sh_size b) → m' b ≡ m b

  pub image_bytes-le :
      (offset size : ℕ) (bytes : List ℕ)
      → image_bytes image offset size ≡ some bytes
      → length bytes ≤ size
  unfolding image_bytes
  image_bytes-le offset size bytes h = elim (Bool-cases (leb (offset + size) (length image))) [
    | inl fits ↦
        let same : bytes ≡ take size (drop offset image) = ground (arith, fits, h) in
        subst (λ b. length b ≤ size) (sym same) (length-take_le size (drop offset image))
    | inr long ↦ absurd (ground (arith, long, h))
  ]

  pub copy_section_done :
      (s : Shdr) (dest : ℕ) (w w' : World k)
      → copy_section k elf image s dest w ≡ (done tt, w')
      → HoldsSection s dest w'.mem × Frames s dest w.mem w'.mem
  unfolding copy_section ◌>>=◌
  copy_section_done s dest w w' h = elim (Bool-cases (s.sh_type == elf.sht_progbits)) [
    | inl progbits ↦ elim (Bool-cases (beyond s image)) [
      | inl out ↦ absurd (ground (arith, progbits, out, h))
      | inr within ↦ elim (Option-cases (image_bytes image s.sh_offset s.sh_size)) [
        | inl missing ↦ absurd (ground (arith, progbits, within, missing, h))
        | inr (bytes, at) ↦
            let written : w'.mem ≡ copy_bytes w.mem dest bytes =
              ground (arith, progbits, within, at, h) in
            (
              (
                λ bytes' n v is at' got.
                    ap (λ (m : Memory). m (dest + n)) written
                    ∙ get-copy_bytes w.mem dest bytes n v (ground (arith, at, at', got)),
                λ n other. absurd (ground (arith, progbits, other)),
              ),
              λ b out.
                  ap (λ (m : Memory). m b) written
                  ∙ copy_bytes-frame w.mem dest bytes b (
                      Outside-le dest s.sh_size (length bytes) b (out (inl progbits))
                        (image_bytes-le s.sh_offset s.sh_size bytes at)),
            )
      ]
    ]
    | inr other ↦ elim (Bool-cases (s.sh_type == elf.sht_nobits)) [
      | inl nobits ↦
          let written : w'.mem ≡ zero_bytes w.mem dest s.sh_size =
            ground (arith, other, nobits, h) in
          (
            (
              λ bytes n v is. absurd (ground (arith, other, is)),
              λ n is_other is n_lt.
                  ap (λ (m : Memory). m (dest + n)) written
                  ∙ get-zero_bytes w.mem dest s.sh_size n n_lt,
            ),
            λ b out.
                ap (λ (m : Memory). m b) written
                ∙ zero_bytes-frame w.mem dest s.sh_size b (out (inr nobits)),
          )
      | inr neither ↦
          let same : w'.mem ≡ w.mem = ground (arith, other, neither, h) in
          (
            (
              λ bytes n v is. absurd (ground (arith, other, is)),
              λ n is_other is. absurd (ground (arith, neither, is)),
            ),
            λ b out. ap (λ (m : Memory). m b) same,
          )
    ]
  ]
