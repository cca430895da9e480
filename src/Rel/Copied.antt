-- ===== src/Rel/Copied.antt =====
-- What the copy loop of `modloader_load_rel_image` leaves in the mapping.
use lk_modloader.Base.{
  ℕ, zero, suc, ◌+◌, ◌-◌, ◌^◌, ◌≤◌, ◌<◌, ◌≡◌, ◌⊎◌, refl, sym, ap, subst, ◌∙◌, arith, List, Option,
  some, true, false, ◌==◌, ltb, get_elem?, add32, inl, inr, Bool-cases, Option-cases, ltb→lt,
}
use lk_modloader.Outcome.{Outcome, done, Outcome-cases}
use lk_modloader.Action.{◌>>=◌}
use lk_modloader.Elf.{Elf, Shdr}
use lk_modloader.Kernel.{Kernel, RoundupLaws}
use lk_modloader.Memory.{Memory}
use lk_modloader.Memory.Laws.{Outside}
use lk_modloader.World.{World}
use lk_modloader.Wx.PageFlags.{has_flag}
use lk_modloader.Rel.Layout.{layout}
use lk_modloader.Rel.Layout.Placed.{IsAt, extent}
use lk_modloader.Rel.Layout.Disjoint.{sections_inside, sections_apart}
use lk_modloader.Rel.{copy_section, copy_from}
use lk_modloader.Rel.SectionBytes.{
  get-lt, HoldsSection, KeepsSection, IsFilled, image_bytes-le, copy_section_done,
}

module _ (k : Kernel) (elf : Elf) (image : List ℕ) where
  module _ (shdrs : ℕ → Option Shdr) (sec_addr : List ℕ) (base : ℕ) where
    -- What one round of the loop did: nothing, or the copy of a loaded section.
    abbrev Round : ℕ → Shdr → World k → World k → Type 0
    Round i s w w' =
        ((has_flag s.sh_flags elf.shf_alloc ≡ false) × (w' ≡ w))
        ⊎ ((x : ℕ) × IsAt elf shdrs sec_addr i i s x
            × (copy_section k elf image s (add32 base x) w ≡ (done tt, w')))

    copy_from_step :
        (left i : ℕ) (w w' : World k)
        → copy_from k elf image shdrs sec_addr base (suc left) i w ≡ (done tt, w')
        → (s : Shdr) × (w1 : World k) × (shdrs i ≡ some s)
          × Round i s w w1
          × (copy_from k elf image shdrs sec_addr base left (i + 1) w1 ≡ (done tt, w'))
    unfolding copy_from ◌>>=◌
    copy_from_step left i w w' h = elim (Option-cases (shdrs i)) [
      | inl missing ↦ absurd (ground (arith, missing, h))
      | inr (s, found) ↦ elim (Bool-cases (has_flag s.sh_flags elf.shf_alloc)) [
        | inr other ↦ (s, w, found, inl (other, refl), ground (arith, found, other, h))
        | inl loaded ↦ elim (Option-cases (get_elem? sec_addr i)) [
          | inl no_offset ↦ absurd (ground (arith, found, loaded, no_offset, h))
          | inr (x, offset) ↦
              let w1 = (copy_section k elf image s (add32 base x) w).1 in
              elim (Outcome-cases (copy_section k elf image s (add32 base x) w).0) [
                | inr bad ↦ absurd (ground (arith, found, loaded, offset, bad, h))
                | inl (u, copied) ↦ (
                  s,
                  w1,
                  found,
                  inr (
                    x,
                    record { header = found; loaded = loaded; offset = offset },
                    ground (arith, copied),
                  ),
                  ground (arith, found, loaded, offset, copied, h),
                )
              ]
        ]
      ]
    ]

    -- One round writes to its section only, if it fills it.
    Round-frames :
        (i : ℕ) (s : Shdr) (w w1 : World k) (b : ℕ)
        → Round i s w w1
        → ((x : ℕ)
            → IsAt elf shdrs sec_addr i i s x
            → IsFilled elf s
            → Outside (add32 base x) s.sh_size b)
        → w1.mem b ≡ w.mem b
    Round-frames i s w w1 b (inl (other, same)) out = ap (λ (v : World k). v.mem b) same
    Round-frames i s w w1 b (inr (x, at, copied)) out =
        (copy_section_done k elf image s (add32 base x) w w1 copied).1 b (out x at)

    -- The loop writes to the loaded sections that it fills only.
    copy_from_frames :
        (left i : ℕ) (w w' : World k) (b : ℕ)
        → copy_from k elf image shdrs sec_addr base left i w ≡ (done tt, w')
        → ((j : ℕ) (s : Shdr) (x : ℕ)
            → i ≤ j
            → IsAt elf shdrs sec_addr j j s x
            → IsFilled elf s
            → Outside (add32 base x) s.sh_size b)
        → w'.mem b ≡ w.mem b
    unfolding copy_from
    copy_from_frames zero i w w' b h out =
        unfold lk_modloader.Action.pure in
        ap (λ (r : Outcome (Unit {0}) × World k). r.1.mem b) (sym h)
    copy_from_frames (suc left) i w w' b h out =
        let (s, w1, found, round, rest) = copy_from_step left i w w' h in
        copy_from_frames left (i + 1) w1 w' b rest (λ j t y from. out j t y (omega (arith, from)))
        ∙ Round-frames i s w w1 b round (λ x. out i s x (omega arith))

    -- A section stays as it is where none of its bytes is written.
    HoldsSection-kept :
        (s : Shdr) (dest : ℕ) (m m' : Memory)
        → ((n : ℕ) → n < s.sh_size → m' (dest + n) ≡ m (dest + n))
        → HoldsSection k elf image s dest m
        → HoldsSection k elf image s dest m'
    HoldsSection-kept s dest m m' kept (bytes_in, zeros_in) = (
      λ bytes n v is at got.
          kept n (
            omega (
              arith,
              get-lt bytes n v got,
              image_bytes-le k elf image s.sh_offset s.sh_size bytes at,
            ))
          ∙ bytes_in bytes n v is at got,
      λ n other is n_lt. kept n n_lt ∙ zeros_in n other is n_lt,
    )

    -- The round of a loaded section fills it.
    Round-HoldsSection :
        (i : ℕ) (s t : Shdr) (x : ℕ) (w w1 : World k)
        → shdrs i ≡ some t
        → Round i t w w1
        → IsAt elf shdrs sec_addr i i s x
        → HoldsSection k elf image s (add32 base x) w1.mem
    Round-HoldsSection i s t x w w1 found (inl (other, same)) at =
        let header : shdrs i ≡ some s = at.header in
        let equal : t ≡ s = ground (arith, found, header) in
        let loaded : has_flag t.sh_flags elf.shf_alloc ≡ true =
          ap (λ r. has_flag r.sh_flags elf.shf_alloc) equal ∙ at.loaded in
        absurd (ground (arith, loaded, other))
    Round-HoldsSection i s t x w w1 found (inr (y, there, copied)) at =
        let header : shdrs i ≡ some s = at.header in
        let offset : get_elem? sec_addr i ≡ some x = at.offset in
        let offset' : get_elem? sec_addr i ≡ some y = there.offset in
        let equal : t ≡ s = ground (arith, found, header) in
        let place : y ≡ x = ground (arith, offset, offset') in
        subst (λ r. HoldsSection k elf image r (add32 base x) w1.mem) equal
          (subst (λ z. HoldsSection k elf image t (add32 base z) w1.mem) place
            (copy_section_done k elf image t (add32 base y) w w1 copied).0)

    -- The loop fills each section that no later one overlaps.
    copy_from_fills :
        (left i : ℕ) (w w' : World k) (j : ℕ) (s : Shdr) (x : ℕ)
        → copy_from k elf image shdrs sec_addr base left i w ≡ (done tt, w')
        → i ≤ j
        → j < i + left
        → IsAt elf shdrs sec_addr j j s x
        → ((l : ℕ) (t : Shdr) (y n : ℕ)
            → j < l
            → IsAt elf shdrs sec_addr l l t y
            → n < s.sh_size
            → Outside (add32 base y) t.sh_size (add32 base x + n))
        → HoldsSection k elf image s (add32 base x) w'.mem
    copy_from_fills zero i w w' j s x h from below at apart = absurd (omega (arith, from, below))
    copy_from_fills (suc left) i w w' j s x h from below at apart =
        let (t, w1, found, round, rest) = copy_from_step left i w w' h in
        elim (Bool-cases (j == i)) [
          | inl here ↦
              let same : j ≡ i = ground (arith, here) in
              HoldsSection-kept s (add32 base x) w1.mem w'.mem
                (λ n n_lt.
                  copy_from_frames left (i + 1) w1 w' (add32 base x + n) rest
                    (λ l r y later there filled.
                      apart l r y n (omega (arith, later, same)) there n_lt))
                (Round-HoldsSection i s t x w w1 found round
                  (subst (λ (q : ℕ). IsAt elf shdrs sec_addr q q s x) same at))
          | inr later ↦
              let next : i + 1 ≤ j = ground (arith, later, from) in
              copy_from_fills left (i + 1) w1 w' j s x rest next (omega (arith, below)) at apart
        ]

module _ (k : Kernel) (l : RoundupLaws k) (elf : Elf) (image : List ℕ) (shdrs : ℕ → Option Shdr)
    (shnum total base : ℕ) (sec_addr : List ℕ)
    (laid_out : layout k elf shdrs shnum ≡ done (total, sec_addr))
    (fits : extent elf shdrs (shnum - 1) 1 < 2 ^ 32) (below : base + total ≤ 2 ^ 32) where
  -- An address of an earlier section, against a later section.
  later-Outside :
      (i j : ℕ) (s t : Shdr) (x y n : ℕ)
      → 0 < i
      → i < j
      → IsAt elf shdrs sec_addr i i s x
      → IsAt elf shdrs sec_addr j j t y
      → n < s.sh_size
      → Outside (add32 base y) t.sh_size (add32 base x + n)
  later-Outside i j s t x y n pos lt at_s at_t n_lt =
      let apart =
        sections_apart k l elf shdrs shnum total sec_addr i j s t x y laid_out fits pos lt at_s
          at_t in
      let inside =
        (sections_inside k l elf shdrs shnum total sec_addr j t y laid_out fits
          (omega (arith, pos, lt)) at_t).0 in
      elim (Bool-cases (ltb (base + y) (2 ^ 32))) [
        | inl low ↦
            let low_lt : base + y < 2 ^ 32 = ltb→lt _ _ low in
            inl (omega (arith, low_lt, apart, n_lt))
        | inr high ↦
            let empty : t.sh_size ≡ 0 = ground (arith, high, inside, below) in
            let wrapped : add32 base y ≡ 0 = ground (arith, high, inside, below) in
            inr (omega (arith, empty, wrapped))
      ]

  -- An address of a later section, against an earlier section.
  earlier-Outside :
      (i j : ℕ) (s t : Shdr) (x y n : ℕ)
      → 0 < j
      → j < i
      → i < shnum
      → IsAt elf shdrs sec_addr i i s x
      → IsAt elf shdrs sec_addr j j t y
      → n < s.sh_size
      → Outside (add32 base y) t.sh_size (add32 base x + n)
  earlier-Outside i j s t x y n pos lt in_table at_s at_t n_lt =
      let apart =
        sections_apart k l elf shdrs shnum total sec_addr j i t s y x laid_out fits pos lt at_t
          at_s in
      let inside =
        (sections_inside k l elf shdrs shnum total sec_addr i s x laid_out fits
          (omega (arith, pos, lt)) at_s).0 in
      inr (omega (arith, apart, inside, below, n_lt))

  -- An address of a section that is not filled, against one that is.
  other-Outside :
      (i j : ℕ) (s t : Shdr) (x y n : ℕ)
      → 0 < i
      → 0 < j
      → i < shnum
      → IsAt elf shdrs sec_addr i i s x
      → IsAt elf shdrs sec_addr j j t y
      → n < s.sh_size
      → ¬ IsFilled elf s
      → IsFilled elf t
      → Outside (add32 base y) t.sh_size (add32 base x + n)
  other-Outside i j s t x y n pos pos' in_table at_s at_t n_lt other filled =
      elim (Bool-cases (ltb i j)) [
        | inl later ↦ later-Outside i j s t x y n pos (ltb→lt _ _ later) at_s at_t n_lt
        | inr not_later ↦ elim (Bool-cases (ltb j i)) [
          | inl earlier ↦
              earlier-Outside i j s t x y n pos' (ltb→lt _ _ earlier) in_table at_s at_t n_lt
          | inr not_earlier ↦
              let here : j ≡ i = ground (arith, not_later, not_earlier) in
              let header : shdrs i ≡ some s = at_s.header in
              let header' : shdrs j ≡ some t = at_t.header in
              let equal : t ≡ s = ground (arith, here, header, header') in
              absurd (other (subst (IsFilled elf) equal filled))
        ]
      ]

  -- For a kernel that keeps the laws of ROUNDUP, a layout that succeeded, loaded sections whose
  -- sizes and alignments sum to less than 2 ^ 32, and a mapping that ends at or below 2 ^ 32: when
  -- the copy loop has returned, every loaded section holds at its place the bytes that the image
  -- has for it if it is an SHT_PROGBITS section, zeros if it is an SHT_NOBITS section, and if it is
  -- of any other type what the memory held there before the loop.
  pub copied_sections :
      (w w' : World k) (i : ℕ) (s : Shdr) (x : ℕ)
      → copy_from k elf image shdrs sec_addr base (shnum - 1) 1 w ≡ (done tt, w')
      → 0 < i
      → i < shnum
      → IsAt elf shdrs sec_addr i i s x
      → HoldsSection k elf image s (add32 base x) w'.mem
        × KeepsSection elf s (add32 base x) w.mem w'.mem
  copied_sections w w' i s x h pos lt at = (
    copy_from_fills k elf image shdrs sec_addr base (shnum - 1) 1 w w' i s x h (omega (arith, pos))
        (omega (arith, lt, pos)) at
        (λ j t y n later there n_lt. later-Outside i j s t x y n pos later at there n_lt),
    λ n other n_lt.
        copy_from_frames k elf image shdrs sec_addr base (shnum - 1) 1 w w' (add32 base x + n) h
          (λ j t y from there filled.
            other-Outside i j s t x y n pos (omega (arith, from)) lt at there n_lt other filled),
  )
