-- ===== src/Rel/FindEntry/Sound.antt =====
-- The entry that `modloader_find_entry` finds.
use lk_modloader.Base.{
  ℕ, zero, suc, ◌+◌, ◌<◌, ◌≤◌, ◌≡◌, ◌≢◌, sym, ap, ◌∙◌, subst, arith, List, some, true, ◌||◌, ◌==◌,
  leb, str_eq, str_eq_iff, eq_of_str_eq, bit_and, bit_or, if◌then◌else◌, get_elem?, add32, not32,
  inl, inr, Bool-cases, Option-cases,
}
use lk_modloader.Outcome.{done}
use lk_modloader.Elf.{Elf, Sym}
use lk_modloader.Rel.Layout.{SymTab}
use lk_modloader.Rel.FindEntry.{
  entry_name, is_global_function, entry_address, find_entry_from, find_entry,
}

module _ (elf : Elf) (t : SymTab) (sec_addr : List ℕ) (base shnum : ℕ) where
  -- Symbol `i` is a global function called `payload_entry`.
  abbrev pub IsEntry : ℕ → Sym → Type 0
  IsEntry i s =
      (t.syms i ≡ some s)
      × (is_global_function elf t sec_addr base shnum s ≡ true)
      × (t.symstr s.st_name ≡ some entry_name)

  -- The place of a symbol in its section, with the Thumb bit of its value.
  abbrev pub place_of : Sym → ℕ → ℕ
  place_of s offset =
      let addr = add32 (add32 base offset) (bit_and s.st_value (not32 1)) in
      if bit_and s.st_value 1 == 0 then addr else bit_or addr 1

  -- The symbol is defined in a section of the image, and lies at the address.
  abbrev pub IsAddress : Sym → ℕ → Type 0
  IsAddress s entry =
      (s.st_shndx ≢ elf.shn_undef)
      × (s.st_shndx < shnum)
      × ((offset : ℕ) × (get_elem? sec_addr s.st_shndx ≡ some offset) × (entry ≡ place_of s offset))

  entry_address_done :
      (s : Sym) (entry : ℕ)
      → entry_address elf t sec_addr base shnum s ≡ done entry
      → IsAddress s entry
  unfolding entry_address
  entry_address_done s entry h =
      elim (Bool-cases (s.st_shndx == elf.shn_undef || leb shnum s.st_shndx)) [
        | inl bad ↦ absurd (ground (arith, bad, h))
        | inr good ↦ elim (Option-cases (get_elem? sec_addr s.st_shndx)) [
          | inl missing ↦ absurd (ground (arith, good, missing, h))
          | inr (offset, found) ↦ (
            (λ e. ground (arith, good, e)),
            ground (arith, good),
            (offset, found, ground (arith, good, found, h)),
          )
        ]
      ]

  -- A symbol that is passed over.
  abbrev pub IsOther : ℕ → Type 0
  IsOther i = (s : Sym) → IsEntry i s → ⊥

  -- What a search from the next symbol found.
  passed :
      (left i entry : ℕ)
      → IsOther i
      → ((j : ℕ) × (s : Sym) × (i + 1 ≤ j)
          × (j < i + 1 + left)
          × IsEntry j s
          × IsAddress s entry
          × ((n : ℕ) → i + 1 ≤ n → n < j → IsOther n))
      → (j : ℕ) × (s : Sym) × (i ≤ j)
        × (j < i + suc left)
        × IsEntry j s
        × IsAddress s entry
        × ((n : ℕ) → i ≤ n → n < j → IsOther n)
  passed left i entry other (j, s, from, below, is_entry, at, others) = (
    j,
    s,
    omega (arith, from),
    omega (arith, below),
    is_entry,
    at,
    λ n start before. elim (Bool-cases (n == i)) [
      | inl same ↦ subst IsOther (sym (ground (arith, same))) other
      | inr later ↦ others n (ground (arith, later, start)) before
    ],
  )

  find_entry_from_done :
      (left i entry : ℕ)
      → find_entry_from elf t sec_addr base shnum left i ≡ done entry
      → (j : ℕ) × (s : Sym) × (i ≤ j)
        × (j < i + left)
        × IsEntry j s
        × IsAddress s entry
        × ((n : ℕ) → i ≤ n → n < j → IsOther n)
  unfolding find_entry_from
  find_entry_from_done zero i entry h = absurd (ground (arith, h))
  find_entry_from_done (suc left) i entry h = elim (Option-cases (t.syms i)) [
    | inl missing ↦ absurd (ground (arith, missing, h))
    | inr (s, at) ↦ elim (Bool-cases (is_global_function elf t sec_addr base shnum s)) [
      | inl global ↦ elim (Option-cases (t.symstr s.st_name)) [
        | inl no_name ↦ absurd (ground (arith, at, global, no_name, h))
        | inr (name, named) ↦ elim (Bool-cases (str_eq name entry_name)) [
          | inl matches ↦
              let entry_here : t.symstr s.st_name ≡ some entry_name =
                named ∙ ap some (eq_of_str_eq name entry_name matches) in
              let found : entry_address elf t sec_addr base shnum s ≡ done entry =
                ground (arith, at, global, named, matches, h) in
              (
                i,
                s,
                omega arith,
                omega arith,
                (at, global, entry_here),
                entry_address_done s entry found,
                λ n from before. absurd (omega (arith, from, before)),
              )
          | inr differs ↦
              passed left i entry
                (λ s' e. ground (arith, at, named, differs, e, str_eq_iff name entry_name))
                (find_entry_from_done left (i + 1) entry
                  (ground (arith, at, global, named, differs, h)))
        ]
      ]
      | inr local ↦
          passed left i entry (λ s' e. ground (arith, at, local, e))
            (find_entry_from_done left (i + 1) entry (ground (arith, at, local, h)))
    ]
  ]

  -- When find_entry succeeds, its address is that of the first symbol of the table that is a
  -- function, is seen by other modules and is called payload_entry: that symbol is defined in a
  -- section of the image, the address is its place in that section from the base of the mapping,
  -- with the Thumb bit of its value, and no symbol before it is such a function.
  pub find_entry_done :
      (entry : ℕ)
      → find_entry elf t sec_addr base shnum ≡ done entry
      → (j : ℕ) × (s : Sym) × (j < t.sym_count)
        × IsEntry j s
        × IsAddress s entry
        × ((n : ℕ) → n < j → IsOther n)
  unfolding find_entry
  find_entry_done entry h =
      let (j, s, from, below, is_entry, at, others) = find_entry_from_done t.sym_count 0 entry h in
      (j, s, omega (arith, below), is_entry, at, λ n before. others n (omega arith) before)
