-- ===== src/Rel/Layout/Disjoint.antt =====
-- The layout gives each loaded section a place of its own.
use lk_modloader.Base.{
  ℕ, zero, suc, ◌+◌, ◌-◌, ◌^◌, ◌≤◌, ◌<◌, ◌≡◌, ◌∙◌, sym, ap, arith, List, [], ◌∷◌, Option, some,
  get_elem?, inl, inr,
}
use lk_modloader.Outcome.{done, Outcome-cases}
use lk_modloader.Elf.{Elf, Shdr}
use lk_modloader.Kernel.{Kernel, RoundupLaws}
use lk_modloader.Rel.Layout.{place_section, layout_from, layout}
use lk_modloader.Rel.Layout.Placed.{
  room, extent, IsAligned, IsAt, place_bounds, layout_step, later_IsAt, extent-suc, first_inside,
}

module _ (k : Kernel) (l : RoundupLaws k) (elf : Elf) (shdrs : ℕ → Option Shdr) where
  -- What holds of the sections after the first holds of all.
  all_inside :
      (i total end : ℕ) (s0 : Shdr) (rest offsets : List ℕ)
      → shdrs i ≡ some s0
      → offsets ≡ (place_section k elf s0 total).0 ∷ rest
      → total + room elf (some s0) < 2 ^ 32
      → (place_section k elf s0 total).1 ≤ end
      → ((j : ℕ) (s : Shdr) (x : ℕ)
          → IsAt elf shdrs rest (i + 1 + j) j s x
          → ((place_section k elf s0 total).1 ≤ x) × (x + s.sh_size ≤ end) × IsAligned s x)
      → (j : ℕ) (s : Shdr) (x : ℕ) → IsAt elf shdrs offsets (i + j) j s x
      → (total ≤ x) × (x + s.sh_size ≤ end) × IsAligned s x
  all_inside i total end s0 rest offsets found e fits stop inside zero s x at =
      let first = first_inside k l elf shdrs i total s0 rest offsets s x found e fits at in
      (first.0, omega (arith, first.1, stop), first.2)
  all_inside i total end s0 rest offsets found e fits stop inside (suc j) s x at =
      let later = inside j s x (later_IsAt k l elf shdrs i j _ rest offsets s x e at) in
      let placed = place_bounds k l elf shdrs s0 total fits in
      (omega (arith, later.0, placed), later.1, later.2)

  -- Every loaded section lies between the start of the layout and its end.
  layout_bounds :
      (left i total end : ℕ) (offsets : List ℕ)
      → layout_from k elf shdrs left i total ≡ done (end, offsets)
      → total + extent elf shdrs left i < 2 ^ 32
      → (total ≤ end)
        × (end ≤ total + extent elf shdrs left i)
        × ((j : ℕ) (s : Shdr) (x : ℕ)
            → IsAt elf shdrs offsets (i + j) j s x
            → (total ≤ x) × (x + s.sh_size ≤ end) × IsAligned s x)
  unfolding layout_from
  layout_bounds zero i total end offsets h fits =
      let at_end : total ≡ end = ground (arith, h) in
      let no_offsets : offsets ≡ [] = ground (arith, h) in
      (
        omega (arith, at_end),
        unfold extent in omega (arith, at_end),
        λ j s x at. absurd (ground (arith, no_offsets, at.offset)),
      )
  layout_bounds (suc left) i total end offsets h fits =
      let (s0, rest, found, went, e) = layout_step k l elf shdrs left i total end offsets h in
      let spare : total + room elf (some s0) + extent elf shdrs left (i + 1) < 2 ^ 32 =
        omega (arith, extent-suc k l elf shdrs left i s0 found, fits) in
      let placed = place_bounds k l elf shdrs s0 total (omega (arith, spare)) in
      let next = (place_section k elf s0 total).1 in
      let (start, stop, inside) =
        layout_bounds left (i + 1) next end rest went (omega (arith, placed, spare)) in
      (
        omega (arith, placed, start),
        omega (arith, placed, stop, extent-suc k l elf shdrs left i s0 found),
        all_inside i total end s0 rest offsets found e (omega (arith, spare)) start inside,
      )

  -- The first section ends before the others start, and those are apart.
  all_apart :
      (i total end : ℕ) (s0 : Shdr) (rest offsets : List ℕ)
      → shdrs i ≡ some s0
      → offsets ≡ (place_section k elf s0 total).0 ∷ rest
      → total + room elf (some s0) < 2 ^ 32
      → ((j : ℕ) (s : Shdr) (x : ℕ)
          → IsAt elf shdrs rest (i + 1 + j) j s x
          → ((place_section k elf s0 total).1 ≤ x) × (x + s.sh_size ≤ end) × IsAligned s x)
      → ((a b : ℕ) (s t : Shdr) (x y : ℕ)
          → a < b
          → IsAt elf shdrs rest (i + 1 + a) a s x
          → IsAt elf shdrs rest (i + 1 + b) b t y
          → x + s.sh_size ≤ y)
      → (a b : ℕ) (s t : Shdr) (x y : ℕ) → a < b
      → IsAt elf shdrs offsets (i + a) a s x
      → IsAt elf shdrs offsets (i + b) b t y
      → x + s.sh_size ≤ y
  all_apart i total end s0 rest offsets found e fits inside apart a zero s t x y lt at_s at_t =
      absurd (omega (arith, lt))
  all_apart i total end s0 rest offsets found e fits inside apart zero (suc b) s t x y lt at_s
        at_t =
      let first = first_inside k l elf shdrs i total s0 rest offsets s x found e fits at_s in
      let later = inside b t y (later_IsAt k l elf shdrs i b _ rest offsets t y e at_t) in
      omega (arith, first.1, later.0)
  all_apart i total end s0 rest offsets found e fits inside apart (suc a) (suc b) s t x y lt at_s
        at_t =
      apart a b s t x y (omega (arith, lt)) (later_IsAt k l elf shdrs i a _ rest offsets s x e at_s)
        (later_IsAt k l elf shdrs i b _ rest offsets t y e at_t)

  -- Of two loaded sections the earlier ends before the later starts.
  layout_apart :
      (left i total end : ℕ) (offsets : List ℕ)
      → layout_from k elf shdrs left i total ≡ done (end, offsets)
      → total + extent elf shdrs left i < 2 ^ 32
      → (a b : ℕ) (s t : Shdr) (x y : ℕ) → a < b
      → IsAt elf shdrs offsets (i + a) a s x
      → IsAt elf shdrs offsets (i + b) b t y
      → x + s.sh_size ≤ y
  unfolding layout_from
  layout_apart zero i total end offsets h fits a b s t x y lt at_s at_t =
      let no_offsets : offsets ≡ [] = ground (arith, h) in
      absurd (ground (arith, no_offsets, at_s.offset))
  layout_apart (suc left) i total end offsets h fits a b s t x y lt at_s at_t =
      let (s0, rest, found, went, e) = layout_step k l elf shdrs left i total end offsets h in
      let spare : total + room elf (some s0) + extent elf shdrs left (i + 1) < 2 ^ 32 =
        omega (arith, extent-suc k l elf shdrs left i s0 found, fits) in
      let placed = place_bounds k l elf shdrs s0 total (omega (arith, spare)) in
      let next = (place_section k elf s0 total).1 in
      let fits' : next + extent elf shdrs left (i + 1) < 2 ^ 32 = omega (arith, placed, spare) in
      let bounds = layout_bounds left (i + 1) next end rest went fits' in
      all_apart i total end s0 rest offsets found e (omega (arith, spare)) bounds.2
        (layout_apart left (i + 1) next end rest went fits') a b s t x y lt at_s at_t

  -- In `sec_addr` the offsets come after that of the null section.
  sec_addr_IsAt :
      (i : ℕ) (rest sec_addr : List ℕ) (s : Shdr) (x : ℕ)
      → sec_addr ≡ 0 ∷ rest
      → IsAt elf shdrs sec_addr (suc i) (suc i) s x
      → IsAt elf shdrs rest (1 + i) i s x
  sec_addr_IsAt i rest sec_addr s x e at = record {
    header = ap shdrs (omega arith) ∙ at.header;
    loaded = at.loaded;
    offset = sym (ap (λ (o : List ℕ). get_elem? o (suc i)) e) ∙ at.offset;
  }

  layout_done :
      (shnum total : ℕ) (sec_addr : List ℕ)
      → layout k elf shdrs shnum ≡ done (total, sec_addr)
      → (rest : List ℕ) × (layout_from k elf shdrs (shnum - 1) 1 0 ≡ done (total, rest))
        × (sec_addr ≡ 0 ∷ rest)
  unfolding layout
  layout_done shnum total sec_addr h =
      elim (Outcome-cases (layout_from k elf shdrs (shnum - 1) 1 0)) [
        | inl ((end, rest), went) ↦ (
          rest,
          went ∙ ap (λ x. done (x, rest)) (ground (arith, went, h)),
          ground (arith, went, h),
        )
        | inr bad ↦ absurd (ground (arith, bad, h))
      ]

  -- For a kernel that keeps the laws of ROUNDUP: if the sizes and alignments of the loaded sections
  -- sum to less than 2 ^ 32 and the layout succeeds, then every loaded section ends within the
  -- total size, and an alignment that is a power of two divides its offset.
  pub sections_inside :
      (shnum total : ℕ) (sec_addr : List ℕ) (i : ℕ) (s : Shdr) (x : ℕ)
      → layout k elf shdrs shnum ≡ done (total, sec_addr)
      → extent elf shdrs (shnum - 1) 1 < 2 ^ 32
      → 0 < i
      → IsAt elf shdrs sec_addr i i s x
      → (x + s.sh_size ≤ total) × IsAligned s x
  sections_inside shnum total sec_addr zero s x h fits pos at = absurd (omega (arith, pos))
  sections_inside shnum total sec_addr (suc i) s x h fits pos at =
      let (rest, went, e) = layout_done shnum total sec_addr h in
      let bounds = layout_bounds (shnum - 1) 1 0 total rest went (omega (arith, fits)) in
      let inside = bounds.2 i s x (sec_addr_IsAt i rest sec_addr s x e at) in (inside.1, inside.2)

  -- For a kernel that keeps the laws of ROUNDUP: if the sizes and alignments of the loaded sections
  -- sum to less than 2 ^ 32 and the layout succeeds, then of any two loaded sections the earlier
  -- ends at or before the offset of the later: no two overlap.
  pub sections_apart :
      (shnum total : ℕ) (sec_addr : List ℕ) (i j : ℕ) (s t : Shdr) (x y : ℕ)
      → layout k elf shdrs shnum ≡ done (total, sec_addr)
      → extent elf shdrs (shnum - 1) 1 < 2 ^ 32
      → 0 < i
      → i < j
      → IsAt elf shdrs sec_addr i i s x
      → IsAt elf shdrs sec_addr j j t y
      → x + s.sh_size ≤ y
  sections_apart shnum total sec_addr zero j s t x y h fits pos lt at_s at_t =
      absurd (omega (arith, pos))
  sections_apart shnum total sec_addr (suc i) zero s t x y h fits pos lt at_s at_t =
      absurd (omega (arith, lt))
  sections_apart shnum total sec_addr (suc i) (suc j) s t x y h fits pos lt at_s at_t =
      let (rest, went, e) = layout_done shnum total sec_addr h in
      layout_apart (shnum - 1) 1 0 total rest went (omega (arith, fits)) i j s t x y
        (omega (arith, lt)) (sec_addr_IsAt i rest sec_addr s x e at_s)
        (sec_addr_IsAt j rest sec_addr t y e at_t)
