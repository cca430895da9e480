-- ===== src/Export/Lookup.antt =====
-- The export table as its users see it: register, unregister and lookup.
use lk_modloader.Base.{
  ℕ, zero, suc, replicate, ◌<◌, ◌≡◌, ◌≢◌, ◌↔◌, ◌∙◌, ◌⊎◌, refl, [], Option, none, some, Bool, true,
  str_eq, ap, subst, sym, str_eq_iff, if◌then◌else◌, length, take_all, arith, Option-cases, inl,
  inr,
}
use lk_modloader.Status.{ok, err, err_no_memory, err_not_found, Error, Result-cases}
use lk_modloader.Elf.{Name}
use lk_modloader.Export.{
  free_slot, initial_exports, Exports, find_builtin, builtin_exports, find_dynamic, replace_addr,
  fill_free, clear_slot, max_dynamic_exports, export_name_max, export_register, export_unregister,
  lookup_export, export_vaddr,
}
use lk_modloader.Export.Table.{
  Distinct, find-replace, replace-none, find-fill, find-clear, replace-Distinct, fill-Distinct,
  clear-Distinct, length-replace, length-fill, length-clear, count_used, fill-none_iff,
  find-none_iff, clear-none_iff,
}

-- The static array keeps its sixteen slots, and no two used slots have one name.
pub record IsValid (t : Exports) : Type 0 where
  pub size : length t ≡ max_dynamic_exports
  pub distinct : Distinct t

free-Distinct : (n : ℕ) → Distinct (replicate n free_slot)
free-Distinct zero = tt
free-Distinct (suc n) = (λ used. absurd (ground (arith, used)), free-Distinct n)

-- The array is well formed at start-up.
pub initial_exports-IsValid : IsValid initial_exports
initial_exports-IsValid = record { size = refl; distinct = free-Distinct 16 }

-- A name and an address that register takes.
pub record IsAcceptable (add_addr : ℕ) (name : Name) (addr : ℕ) : Type 0 where
  pub not_empty : name ≢ []
  pub short : length name < export_name_max
  pub address : addr ≢ 0
  pub not_builtin : find_builtin (builtin_exports add_addr) name ≡ none

unregister_ok :
    (name : Name) (t : Exports) {t' : Exports}
    → export_unregister (some name) t ≡ (ok tt, t')
    → clear_slot t name ≡ some t'
unfolding export_unregister
unregister_ok name t h = ground (arith, Option-cases (clear_slot t name))

-- A failed unregister leaves the table as it was.
pub unregister_error :
    (name : Option Name) (t : Exports) (e : Error)
    → (export_unregister name t).0 ≡ err e
    → (export_unregister name t).1 ≡ t
unfolding export_unregister
unregister_error none t e h = refl
unregister_error (some name) t e h = ground (arith, Option-cases (clear_slot t name))

-- Unregister of a name that is not empty reports ERR_NOT_FOUND exactly when no used slot has the
-- name.
pub unregister-not_found :
    (name : Name) (t : Exports)
    → name ≢ []
    → ((export_unregister (some name) t).0 ≡ err err_not_found) ↔ (find_dynamic t name ≡ none)
unfolding export_unregister
unregister-not_found name t h =
    ground (arith, Option-cases (clear_slot t name), clear-none_iff name t)

module _ (add_addr : ℕ) where
  -- What a successful register has done.
  register_ok :
      (name : Name) (addr : ℕ) (t : Exports) {t' : Exports}
      → export_register add_addr (some name) addr t ≡ (ok tt, t')
      → (find_builtin (builtin_exports add_addr) name ≡ none)
        × (length name < 64)
        × ((replace_addr t name addr ≡ some t')
            ⊎ ((replace_addr t name addr ≡ none) × (fill_free t name addr ≡ some t')))
  unfolding export_register
  register_ok name addr t h =
      let found = Option-cases (find_builtin (builtin_exports add_addr) name) in
      let replaced = Option-cases (replace_addr t name addr) in
      let filled = Option-cases (fill_free t name addr) in ground (arith, found, replaced, filled)

  -- A register that reports any error leaves the table as it was.
  pub register_error :
      (name : Option Name) (addr : ℕ) (t : Exports) (e : Error)
      → (export_register add_addr name addr t).0 ≡ err e
      → (export_register add_addr name addr t).1 ≡ t
  unfolding export_register
  register_error none addr t e h = refl
  register_error (some name) addr t e h =
      let found = Option-cases (find_builtin (builtin_exports add_addr) name) in
      let replaced = Option-cases (replace_addr t name addr) in
      let filled = Option-cases (fill_free t name addr) in ground (arith, found, replaced, filled)

  -- For a name that is not empty, shorter than 64 bytes and not built in, and an address that is
  -- not 0: register reports ERR_NO_MEMORY exactly when the name is not in the table and every slot
  -- is used.
  pub register-no_memory_iff :
      (name : Name) (addr : ℕ) (t : Exports)
      → IsAcceptable add_addr name addr
      → ((export_register add_addr (some name) addr t).0 ≡ err err_no_memory)
        ↔ ((find_dynamic t name ≡ none) × (count_used t ≡ length t))
  unfolding export_register
  register-no_memory_iff name addr t good = ground (
    arith,
    Option-cases (replace_addr t name addr),
    Option-cases (fill_free t name addr),
    find-none_iff name addr t,
    fill-none_iff name addr t,
  )

  find_after :
      (name : Name) (addr : ℕ) (t : Exports) (n : Name) {t' : Exports}
      → export_register add_addr (some name) addr t ≡ (ok tt, t')
      → find_dynamic t' n ≡ (if str_eq name n then some addr else find_dynamic t n)
  find_after name addr t n h = elim (register_ok name addr t h).2 [
    | inl replaced ↦ find-replace name addr t n replaced
    | inr (gone, filled) ↦
        find-fill name addr t n (take_all 63 name (omega (arith, register_ok name addr t h)))
          (replace-none name addr t gone) filled
  ]

  -- After a successful register a lookup finds the new address under the registered name, and under
  -- any other name what it found before.
  pub lookup-register :
      (name : Name) (addr : ℕ) (t : Exports) (n : Name) (is_func : Bool) {t' : Exports}
      → export_register add_addr (some name) addr t ≡ (ok tt, t')
      → lookup_export add_addr t' n is_func
        ≡ (if str_eq name n then export_vaddr addr is_func else lookup_export add_addr t n is_func)
  unfolding export_register lookup_export
  lookup-register name addr t n is_func {t'} h =
      ground (arith, register_ok name addr t h, str_eq_iff name n, find_after name addr t n h)

  -- A successful register takes a well-formed table, of sixteen slots whose used names are
  -- distinct, to a well-formed table.
  pub register-IsValid :
      (name : Name) (addr : ℕ) (t : Exports) {t' : Exports}
      → IsValid t
      → export_register add_addr (some name) addr t ≡ (ok tt, t')
      → IsValid t'
  register-IsValid name addr t v h = elim (register_ok name addr t h).2 [
    | inl replaced ↦ record {
      size = length-replace name addr t replaced ∙ v.size;
      distinct = replace-Distinct name addr t v.distinct replaced;
    }
    | inr (gone, filled) ↦ record {
      size = length-fill name addr t filled ∙ v.size;
      distinct =
          fill-Distinct name addr t (take_all 63 name (omega (arith, register_ok name addr t h)))
            (replace-none name addr t gone) v.distinct filled;
    }
  ]

  -- On a well-formed table, after a successful unregister the table is well formed, a lookup of the
  -- name finds only what the built-in table has, and lookups of other names are as before.
  pub lookup-unregister :
      (name : Name) (t : Exports) (n : Name) (is_func : Bool) {t' : Exports}
      → IsValid t
      → export_unregister (some name) t ≡ (ok tt, t')
      → IsValid t'
        × (lookup_export add_addr t' n is_func ≡ (
            if str_eq name n
            then lookup_export add_addr [] n is_func
            else lookup_export add_addr t n is_func))
  unfolding lookup_export find_dynamic
  lookup-unregister name t n is_func v h =
      let cleared = unregister_ok name t h in
      (
        record {
          size = length-clear name t cleared ∙ v.size;
          distinct = clear-Distinct name t v.distinct cleared;
        },
        ground (
          arith,
          find-clear name t n v.distinct cleared,
          Option-cases (find_builtin (builtin_exports add_addr) n),
        ),
      )

pub unregister-IsValid :
    (name : Name) (t : Exports) {t' : Exports}
    → IsValid t
    → export_unregister (some name) t ≡ (ok tt, t')
    → IsValid t'
unregister-IsValid name t v h = (lookup-unregister 0 name t [] true v h).0

-- Both operations keep the array well formed, however they end.
pub export_register-IsValid :
    (add_addr : ℕ) (name : Option Name) (addr : ℕ) (t : Exports)
    → IsValid t
    → IsValid (export_register add_addr name addr t).1
unfolding export_register
export_register-IsValid add_addr none addr t v = v
export_register-IsValid add_addr (some name) addr t v =
    let r = export_register add_addr (some name) addr t in
    elim (Result-cases r.0) [
      | inl (u, done) ↦ register-IsValid add_addr name addr t v (ap (λ x. (x, r.1)) done)
      | inr (e, failed) ↦
          subst IsValid (sym (register_error add_addr (some name) addr t e failed)) v
    ]

pub export_unregister-IsValid :
    (name : Option Name) (t : Exports) → IsValid t → IsValid (export_unregister name t).1
unfolding export_unregister
export_unregister-IsValid none t v = v
export_unregister-IsValid (some name) t v =
    let r = export_unregister (some name) t in
    elim (Result-cases r.0) [
      | inl (u, done) ↦ unregister-IsValid name t v (ap (λ x. (x, r.1)) done)
      | inr (e, failed) ↦ subst IsValid (sym (unregister_error (some name) t e failed)) v
    ]
