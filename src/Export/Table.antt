-- ===== src/Export/Table.antt =====
-- The export table as a finite map: what each loop does to lookups, and the table's invariant.
use lk_modloader.Base.{
  ℕ, ◌+◌, ◌≤◌, ◌≡◌, ◌↔◌, refl, [], ◌∷◌, none, some, true, str_eq, str_eq_iff, if◌then◌else◌, length,
  take, arith, Option-cases, inl, inr, Bool-cases,
}
use lk_modloader.Elf.{Name}
use lk_modloader.Export.{
  Exports, free_slot, holds, find_dynamic, replace_addr, fill_free, clear_slot,
}

-- No two used slots have one name.
abbrev pub Distinct : Exports → Type 0
Distinct [] = Unit
Distinct (slot ∷ rest) = (slot.used ≡ true → find_dynamic rest slot.name ≡ none) × Distinct rest

module _ (name : Name) (addr : ℕ) where
  pub find-replace :
      (t : Exports) {t' : Exports} (n : Name)
      → replace_addr t name addr ≡ some t'
      → find_dynamic t' n ≡ (if str_eq name n then some addr else find_dynamic t n)
  unfolding find_dynamic replace_addr
  find-replace [] n e = cc
  find-replace (slot ∷ rest) n e = elim (Option-cases (replace_addr rest name addr)) [
    | inl gone ↦
        ground (arith, gone, str_eq_iff slot.name name, str_eq_iff slot.name n, str_eq_iff name n)
    | inr (r, found) ↦ ground (
      arith,
      found,
      str_eq_iff slot.name name,
      str_eq_iff slot.name n,
      str_eq_iff name n,
      find-replace rest n found,
    )
  ]

  -- With no slot of this name to replace, the first free slot is found under the new name only.
  pub replace-none : (t : Exports) → replace_addr t name addr ≡ none → find_dynamic t name ≡ none
  unfolding find_dynamic replace_addr
  replace-none [] e = refl
  replace-none (slot ∷ rest) e = elim (Option-cases (replace_addr rest name addr)) [
    | inl gone ↦ ground (arith, gone, replace-none rest gone)
    | inr (r, found) ↦ ground (arith, found)
  ]

  pub find-fill :
      (t : Exports) {t' : Exports} (n : Name)
      → take 63 name ≡ name
      → find_dynamic t name ≡ none
      → fill_free t name addr ≡ some t'
      → find_dynamic t' n ≡ (if str_eq name n then some addr else find_dynamic t n)
  unfolding find_dynamic fill_free
  find-fill [] n short absent e = cc
  find-fill (slot ∷ rest) n short absent e = elim (Option-cases (fill_free rest name addr)) [
    | inl gone ↦
        ground (arith, gone, str_eq_iff slot.name name, str_eq_iff slot.name n, str_eq_iff name n)
    | inr (r, found) ↦ ground (
      arith,
      found,
      str_eq_iff slot.name name,
      str_eq_iff slot.name n,
      str_eq_iff name n,
      find-fill rest {t' = r} n short,
    )
  ]

  pub replace-Distinct :
      (t : Exports) {t' : Exports} → Distinct t → replace_addr t name addr ≡ some t' → Distinct t'
  unfolding find_dynamic replace_addr
  replace-Distinct [] d e = cc
  replace-Distinct (slot ∷ rest) {t'} d e = elim (Bool-cases (holds slot name)) [
    | inl here ↦ let same : t' ≡ record slot { addr = addr } ∷ rest = ground arith in rw same d
    | inr other ↦ elim (Option-cases (replace_addr rest name addr)) [
      | inl gone ↦ absurd (ground (arith, gone))
      | inr (r, found) ↦
          let same : t' ≡ slot ∷ r = ground (arith, found) in
          rw same (
            λ used. ground (
              arith,
              d.0 used,
              find-replace rest slot.name found,
              str_eq_iff name slot.name,
              str_eq_iff slot.name name,
            ),
            replace-Distinct rest d.1 found,
          )
    ]
  ]

  pub fill-Distinct :
      (t : Exports) {t' : Exports}
      → take 63 name ≡ name
      → find_dynamic t name ≡ none
      → Distinct t
      → fill_free t name addr ≡ some t'
      → Distinct t'
  unfolding find_dynamic fill_free
  fill-Distinct [] short absent d e = cc
  fill-Distinct (slot ∷ rest) {t'} short absent d e = elim (Bool-cases slot.used) [
    | inl used ↦ elim (Option-cases (fill_free rest name addr)) [
      | inl gone ↦ absurd (ground (arith, gone))
      | inr (r, found) ↦
          let same : t' ≡ slot ∷ r = ground (arith, found) in
          let absent_rest : find_dynamic rest name ≡ none = ground arith in
          rw same (
            λ _. ground (
              arith,
              d.0 used,
              find-fill rest slot.name short absent_rest found,
              str_eq_iff name slot.name,
              str_eq_iff slot.name name,
            ),
            fill-Distinct rest short absent_rest d.1 found,
          )
    ]
    | inr free ↦
        let absent_rest : find_dynamic rest name ≡ none = ground arith in
        let same : t' ≡ record { used = true; name = take 63 name; addr = addr } ∷ rest =
          ground arith in
        rw same (λ _. rw short absent_rest, d.1)
  ]

pub find-clear :
    (name : Name) (t : Exports) {t' : Exports} (n : Name)
    → Distinct t
    → clear_slot t name ≡ some t'
    → find_dynamic t' n ≡ (if str_eq name n then none else find_dynamic t n)
unfolding find_dynamic clear_slot
find-clear name [] n d e = cc
find-clear name (slot ∷ rest) n d e = elim (Option-cases (clear_slot rest name)) [
  | inl gone ↦
      ground (arith, gone, d, str_eq_iff slot.name name, str_eq_iff slot.name n, str_eq_iff name n)
  | inr (r, found) ↦ ground (
    arith,
    found,
    d,
    str_eq_iff slot.name name,
    str_eq_iff slot.name n,
    str_eq_iff name n,
    find-clear name rest n d.1 found,
  )
]

pub clear-Distinct :
    (name : Name) (t : Exports) {t' : Exports}
    → Distinct t
    → clear_slot t name ≡ some t'
    → Distinct t'
unfolding find_dynamic clear_slot
clear-Distinct name [] d e = cc
clear-Distinct name (slot ∷ rest) {t'} d e = elim (Bool-cases (holds slot name)) [
  | inl here ↦ let same : t' ≡ free_slot ∷ rest = ground arith in rw same (λ used. cc, d.1)
  | inr other ↦ elim (Option-cases (clear_slot rest name)) [
    | inl gone ↦ absurd (ground (arith, gone))
    | inr (r, found) ↦
        let same : t' ≡ slot ∷ r = ground (arith, found) in
        rw same (
          λ used. ground (
            arith,
            d.0 used,
            find-clear name rest slot.name d.1 found,
            str_eq_iff name slot.name,
            str_eq_iff slot.name name,
          ),
          clear-Distinct name rest d.1 found,
        )
  ]
]

-- The loops keep the number of slots.
pub length-replace :
    (name : Name) (addr : ℕ) (t : Exports) {t' : Exports}
    → replace_addr t name addr ≡ some t'
    → length t' ≡ length t
unfolding replace_addr
length-replace name addr [] e = cc
length-replace name addr (slot ∷ rest) e = elim (Option-cases (replace_addr rest name addr)) [
  | inl gone ↦ ground (arith, gone)
  | inr (r, found) ↦ ground (arith, found, length-replace name addr rest found)
]

pub length-fill :
    (name : Name) (addr : ℕ) (t : Exports) {t' : Exports}
    → fill_free t name addr ≡ some t'
    → length t' ≡ length t
unfolding fill_free
length-fill name addr [] e = cc
length-fill name addr (slot ∷ rest) e = elim (Option-cases (fill_free rest name addr)) [
  | inl gone ↦ ground (arith, gone)
  | inr (r, found) ↦ ground (arith, found, length-fill name addr rest found)
]

pub length-clear :
    (name : Name) (t : Exports) {t' : Exports} → clear_slot t name ≡ some t' → length t' ≡ length t
unfolding clear_slot
length-clear name [] e = cc
length-clear name (slot ∷ rest) e = elim (Option-cases (clear_slot rest name)) [
  | inl gone ↦ ground (arith, gone)
  | inr (r, found) ↦ ground (arith, found, length-clear name rest found)
]

-- The number of used slots.
unfoldable pub count_used : Exports → ℕ
count_used [] = 0
count_used (slot ∷ rest) = (if slot.used then 1 else 0) + count_used rest

pub count_used-le : (t : Exports) → count_used t ≤ length t
unfolding count_used
count_used-le [] = omega arith
count_used-le (slot ∷ rest) = ground (arith, count_used-le rest)

-- The third loop finds no slot exactly when all are used.
pub fill-none_iff :
    (name : Name) (addr : ℕ) (t : Exports)
    → (fill_free t name addr ≡ none) ↔ (count_used t ≡ length t)
unfolding fill_free count_used
fill-none_iff name addr [] = (λ _. refl, λ _. refl)
fill-none_iff name addr (slot ∷ rest) = elim (Option-cases (fill_free rest name addr)) [
  | inl gone ↦ ground (arith, gone, fill-none_iff name addr rest, count_used-le rest)
  | inr (r, found) ↦ ground (arith, found, fill-none_iff name addr rest, count_used-le rest)
]

pub find-none_iff :
    (name : Name) (addr : ℕ) (t : Exports)
    → (replace_addr t name addr ≡ none) ↔ (find_dynamic t name ≡ none)
unfolding find_dynamic replace_addr
find-none_iff name addr [] = (λ _. refl, λ _. refl)
find-none_iff name addr (slot ∷ rest) = elim (Option-cases (replace_addr rest name addr)) [
  | inl gone ↦ ground (arith, gone, find-none_iff name addr rest)
  | inr (r, found) ↦ ground (arith, found, find-none_iff name addr rest)
]

pub clear-none_iff :
    (name : Name) (t : Exports) → (clear_slot t name ≡ none) ↔ (find_dynamic t name ≡ none)
unfolding find_dynamic clear_slot
clear-none_iff name [] = (λ _. refl, λ _. refl)
clear-none_iff name (slot ∷ rest) = elim (Option-cases (clear_slot rest name)) [
  | inl gone ↦ ground (arith, gone, clear-none_iff name rest)
  | inr (r, found) ↦ ground (arith, found, clear-none_iff name rest)
]
