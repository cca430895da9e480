-- ===== src/Export.antt =====
-- app/modloader/modloader_export.c: the kernel's export table, which payloads import from. The
-- built-in table has one entry, whose address the kernel's link decides: `add_addr` here.
-- A string is the bytes before its terminator, and `none` is a null pointer.
pub mod Table
pub mod Lookup
pub mod Directory
pub mod Count
pub mod Refines
use lk_modloader.Base.{
  ℕ, ◌-◌, List, [], ◌∷◌, Option, none, some, Bool, true, false, ◌&&◌, ◌||◌, not, bit_or, ◌==◌, leb,
  ltb, str_eq, if◌then◌else◌, length, replicate, take, add32,
}
use lk_modloader.Status.{
  Result, Status, ok, err, err_invalid_args, err_too_big, err_already_exists, err_no_memory,
  err_not_found,
}
use lk_modloader.Elf.{Name}

abbrev pub max_dynamic_exports : ℕ
max_dynamic_exports = 16

abbrev pub export_name_max : ℕ
export_name_max = 64

pub record DynExport : Type 0 where
  pub used : Bool
  pub name : Name
  pub addr : ℕ

abbrev pub Exports : Type 0
Exports = List DynExport

-- A slot after `memset(&slot, 0, sizeof slot)`.
abbrev pub free_slot : DynExport
free_slot = record { used = false; name = []; addr = 0 }

-- The static array at start-up.
abbrev pub initial_exports : Exports
initial_exports = replicate max_dynamic_exports free_slot

-- On `int` bit patterns; the sum wraps.
unfoldable pub export_add : ℕ → ℕ → ℕ
export_add a b = add32 a b

-- `"modloader_export_add"`
abbrev pub export_add_name : Name
export_add_name =
    b'm' ∷ b'o' ∷ b'd' ∷ b'l' ∷ b'o' ∷ b'a' ∷ b'd' ∷ b'e' ∷ b'r' ∷ b'_' ∷ b'e' ∷ b'x' ∷ b'p' ∷ b'o'
    ∷ b'r' ∷ b't' ∷ b'_' ∷ b'a' ∷ b'd' ∷ b'd' ∷ []

unfoldable pub builtin_exports : ℕ → List (Name × ℕ)
builtin_exports add_addr = (export_add_name, add_addr) ∷ []

unfoldable pub export_vaddr : ℕ → Bool → ℕ
export_vaddr addr is_func = if is_func then bit_or addr 1 else addr

-- `!name || !name[0]`
abbrev pub is_empty : Option Name → Bool
is_empty none = true
is_empty (some []) = true
is_empty (some (c ∷ cs)) = false

-- The loop over the built-in table.
unfoldable pub find_builtin : List (Name × ℕ) → Name → Option ℕ
find_builtin [] name = none
find_builtin ((n, addr) ∷ rest) name = if str_eq n name then some addr else find_builtin rest name

-- `slot.used && !strcmp(slot.name, name)`
abbrev pub holds : DynExport → Name → Bool
holds slot name = slot.used && str_eq slot.name name

-- The loop that looks for a used slot of this name.
unfoldable pub find_dynamic : Exports → Name → Option ℕ
find_dynamic [] name = none
find_dynamic (slot ∷ rest) name = if holds slot name then some slot.addr else find_dynamic rest name

-- The second loop of register: the new address in the slot of this name.
unfoldable pub replace_addr : Exports → Name → ℕ → Option Exports
replace_addr [] name addr = none
replace_addr (slot ∷ rest) name addr =
    if holds slot name
    then some (record slot { addr = addr } ∷ rest)
    else elim (replace_addr rest name addr) [ none ↦ none | some rest' ↦ some (slot ∷ rest') ]

-- The third loop: the first free slot is filled; `strlcpy` keeps what fits with its terminator.
unfoldable pub fill_free : Exports → Name → ℕ → Option Exports
fill_free [] name addr = none
fill_free (slot ∷ rest) name addr =
    if not slot.used
    then some (record { used = true; name = take (export_name_max - 1) name; addr = addr } ∷ rest)
    else elim (fill_free rest name addr) [ none ↦ none | some rest' ↦ some (slot ∷ rest') ]

-- The loop of unregister: the slot of this name is cleared.
unfoldable pub clear_slot : Exports → Name → Option Exports
clear_slot [] name = none
clear_slot (slot ∷ rest) name =
    if holds slot name
    then some (free_slot ∷ rest)
    else elim (clear_slot rest name) [ none ↦ none | some rest' ↦ some (slot ∷ rest') ]

unfoldable pub register_named : ℕ → Name → ℕ → Exports → Status × Exports
register_named add_addr name addr table =
    if leb export_name_max (length name)
    then (err err_too_big, table)
    else elim (find_builtin (builtin_exports add_addr) name) [
      | some _ ↦ (err err_already_exists, table)
      | none ↦ elim (replace_addr table name addr) [
        | some table' ↦ (ok tt, table')
        | none ↦ elim (fill_free table name addr) [
          | some table' ↦ (ok tt, table')
          | none ↦ (err err_no_memory, table)
        ]
      ]
    ]

unfoldable pub export_register : ℕ → Option Name → ℕ → Exports → Status × Exports
unfolding register_named
export_register add_addr none addr table = (err err_invalid_args, table)
export_register add_addr (some name) addr table =
    if is_empty (some name) || addr == 0
    then (err err_invalid_args, table)
    else register_named add_addr name addr table

unfoldable pub export_unregister : Option Name → Exports → Status × Exports
export_unregister none table = (err err_invalid_args, table)
export_unregister (some name) table =
    if is_empty (some name) then (err err_invalid_args, table) else elim (clear_slot table name) [
      | some table' ↦ (ok tt, table')
      | none ↦ (err err_not_found, table)
    ]

unfoldable pub lookup_export : ℕ → Exports → Name → Bool → ℕ
lookup_export add_addr table name is_func = elim (find_builtin (builtin_exports add_addr) name) [
  | some addr ↦ export_vaddr addr is_func
  | none ↦ elim (find_dynamic table name) [ some addr ↦ export_vaddr addr is_func | none ↦ 0 ]
]
