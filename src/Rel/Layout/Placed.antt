-- ===== src/Rel/Layout/Placed.antt =====
-- Where one round of the layout puts a section.
use lk_modloader.Base.{
  ℕ, zero, suc, ◌+◌, ◌^◌, ◌%◌, ◌≤◌, ◌<◌, ◌≡◌, ◌∙◌, refl, sym, ap, subst, arith, List, ◌∷◌, Option,
  none, some, true, false, ltb, if◌then◌else◌, get_elem?, two-pow-pos, inl, inr, Bool-cases,
  Option-cases,
}
use lk_modloader.Outcome.{done, Outcome-cases}
use lk_modloader.Elf.{Elf, Shdr}
use lk_modloader.Kernel.{Kernel, RoundupLaws}
use lk_modloader.Rel.Layout.{place_section, layout_from}
use lk_modloader.Wx.PageFlags.{has_flag}

-- The bytes that the sections from `i` on can take, their alignment included.
abbrev pub room : Elf → Option Shdr → ℕ
room elf none = 0
room elf (some s) = if has_flag s.sh_flags elf.shf_alloc then s.sh_size + s.sh_addralign else 0

unfoldable pub extent : Elf → (ℕ → Option Shdr) → ℕ → ℕ → ℕ
extent elf shdrs zero i = 0
extent elf shdrs (suc left) i = room elf (shdrs i) + extent elf shdrs left (i + 1)

-- A power of two that the section asks for divides the offset.
abbrev pub IsAligned : Shdr → ℕ → Type 0
IsAligned s x = (e : ℕ) → s.sh_addralign ≡ 2 ^ e → x % 2 ^ e ≡ 0

-- Section `i` is loaded, at the offset `x`.
pub record IsAt (elf : Elf) (shdrs : ℕ → Option Shdr) (offsets : List ℕ) (i j : ℕ) (s : Shdr)
    (x : ℕ) : Type 0 where
  pub header : shdrs i ≡ some s
  pub loaded : has_flag s.sh_flags elf.shf_alloc ≡ true
  pub offset : get_elem? offsets j ≡ some x

module _ (k : Kernel) (l : RoundupLaws k) (elf : Elf) (shdrs : ℕ → Option Shdr) where
  -- One round: where a loaded section goes.
  place_loaded :
      (s : Shdr) (total : ℕ)
      → has_flag s.sh_flags elf.shf_alloc ≡ true
      → total + s.sh_size + s.sh_addralign < 2 ^ 32
      → (total ≤ (place_section k elf s total).0)
        × ((place_section k elf s total).1 ≡ (place_section k elf s total).0 + s.sh_size)
        × ((place_section k elf s total).1 ≤ total + s.sh_size + s.sh_addralign)
  unfolding place_section
  place_loaded s total loaded fits = elim (Bool-cases (ltb 1 s.sh_addralign)) [
    | inl aligned ↦
        let pos : 0 < s.sh_addralign = ground (arith, aligned) in
        let ge = l.roundup_ge total s.sh_addralign pos (omega (arith, fits)) in
        let lt = l.roundup_lt total s.sh_addralign pos (omega (arith, fits)) in
        ground (arith, loaded, aligned, ge, lt, fits)
    | inr plain ↦ ground (arith, loaded, plain, fits)
  ]

  place-IsAligned :
      (s : Shdr) (total : ℕ)
      → has_flag s.sh_flags elf.shf_alloc ≡ true
      → total + s.sh_size + s.sh_addralign < 2 ^ 32
      → IsAligned s (place_section k elf s total).0
  unfolding place_section
  place-IsAligned s total loaded fits e power = elim (Bool-cases (ltb 1 s.sh_addralign)) [
    | inl aligned ↦
        let rounded : k.roundup total (2 ^ e) % 2 ^ e ≡ 0 =
          l.roundup_aligned total e (omega (arith, fits, power)) in
        let at : k.roundup total s.sh_addralign ≡ k.roundup total (2 ^ e) =
          ap (k.roundup total) power in
        ground (arith, loaded, aligned, at, rounded)
    | inr plain ↦
        let one : 2 ^ e ≡ 1 = ground (arith, two-pow-pos e, power, plain) in
        subst (λ p. (place_section k elf s total).0 % p ≡ 0) (sym one) (omega arith)
  ]

  -- Another section takes no place.
  place_other :
      (s : Shdr) (total : ℕ)
      → has_flag s.sh_flags elf.shf_alloc ≡ false
      → place_section k elf s total ≡ (0, total)
  unfolding place_section
  place_other s total other = rw other refl

  pub place_bounds :
      (s : Shdr) (total : ℕ)
      → total + room elf (some s) < 2 ^ 32
      → (total ≤ (place_section k elf s total).1)
        × ((place_section k elf s total).1 ≤ total + room elf (some s))
  place_bounds s total fits = elim (Bool-cases (has_flag s.sh_flags elf.shf_alloc)) [
    | inl loaded ↦
        let placed = place_loaded s total loaded (ground (arith, loaded, fits)) in
        ground (arith, loaded, placed)
    | inr other ↦
        let same : (place_section k elf s total).1 ≡ total =
          ap (λ x. x.1) (place_other s total other) in
        ground (arith, other, same)
  ]

  -- The first round of a layout that returned.
  pub layout_step :
      (left i total end : ℕ) (offsets : List ℕ)
      → layout_from k elf shdrs (suc left) i total ≡ done (end, offsets)
      → (s : Shdr) × (rest : List ℕ) × (shdrs i ≡ some s)
        × (layout_from k elf shdrs left (i + 1) (place_section k elf s total).1 ≡ done (end, rest))
        × (offsets ≡ (place_section k elf s total).0 ∷ rest)
  unfolding layout_from
  layout_step left i total end offsets h = elim (Option-cases (shdrs i)) [
    | inl missing ↦ absurd (ground (arith, missing, h))
    | inr (s, found) ↦
        let next = (place_section k elf s total).1 in
        elim (Outcome-cases (layout_from k elf shdrs left (i + 1) next)) [
          | inl ((end', rest), went) ↦ (
            s,
            rest,
            found,
            went ∙ ap (λ x. done (x, rest)) (ground (arith, found, went, h)),
            ground (arith, found, went, h),
          )
          | inr bad ↦ absurd (ground (arith, found, bad, h))
        ]
  ]

  -- The section after the first in a list of offsets.
  pub later_IsAt :
      (i j x0 : ℕ) (rest offsets : List ℕ) (s : Shdr) (x : ℕ)
      → offsets ≡ x0 ∷ rest
      → IsAt elf shdrs offsets (i + suc j) (suc j) s x
      → IsAt elf shdrs rest (i + 1 + j) j s x
  later_IsAt i j x0 rest offsets s x e at = record {
    header = ap shdrs (omega arith) ∙ at.header;
    loaded = at.loaded;
    offset = sym (ap (λ (o : List ℕ). get_elem? o (suc j)) e) ∙ at.offset;
  }

  -- The first section.
  first_IsAt :
      (i total : ℕ) (s0 : Shdr) (rest offsets : List ℕ) (s : Shdr) (x : ℕ)
      → shdrs i ≡ some s0
      → offsets ≡ (place_section k elf s0 total).0 ∷ rest
      → IsAt elf shdrs offsets (i + 0) 0 s x
      → (s0 ≡ s) × (x ≡ (place_section k elf s0 total).0)
  first_IsAt i total s0 rest offsets s x found e at =
      let header : shdrs i ≡ some s = ap shdrs (omega arith) ∙ at.header in
      let offset : get_elem? offsets 0 ≡ some x = at.offset in
      (ground (arith, found, header), ground (arith, e, offset))

  pub extent-suc :
      (left i : ℕ) (s : Shdr)
      → shdrs i ≡ some s
      → extent elf shdrs (suc left) i ≡ room elf (some s) + extent elf shdrs left (i + 1)
  unfolding extent
  extent-suc left i s found = ap (λ o. room elf o + extent elf shdrs left (i + 1)) found

  -- The first section fills the layout up to where the next starts.
  pub first_inside :
      (i total : ℕ) (s0 : Shdr) (rest offsets : List ℕ) (s : Shdr) (x : ℕ)
      → shdrs i ≡ some s0
      → offsets ≡ (place_section k elf s0 total).0 ∷ rest
      → total + room elf (some s0) < 2 ^ 32
      → IsAt elf shdrs offsets (i + 0) 0 s x
      → (total ≤ x) × (x + s.sh_size ≡ (place_section k elf s0 total).1) × IsAligned s x
  first_inside i total s0 rest offsets s x found e fits at =
      let (same, here) = first_IsAt i total s0 rest offsets s x found e at in
      let loaded : has_flag s0.sh_flags elf.shf_alloc ≡ true =
        ap (λ t. has_flag t.sh_flags elf.shf_alloc) same ∙ at.loaded in
      let placed = place_loaded s0 total loaded (ground (arith, loaded, fits)) in
      let size : s0.sh_size ≡ s.sh_size = ap (λ t. t.sh_size) same in
      let offset : (place_section k elf s0 total).0 ≡ x = sym here in
      (
        omega (arith, here, placed.0),
        omega (arith, here, placed.1, size),
        λ n power.
            subst (λ o. o % 2 ^ n ≡ 0) offset
              (place-IsAligned s0 total loaded (ground (arith, loaded, fits)) n
                (ap (λ t. t.sh_addralign) same ∙ power)),
      )
