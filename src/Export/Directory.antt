-- ===== src/Export/Directory.antt =====
-- What the export table is to its users: a directory of at most sixteen names, without slots and
-- their order.
use lk_modloader.Base.{
  ℕ, ◌+◌, ◌-◌, List, [], ◌∷◌, Option, none, some, Bool, ◌||◌, ◌==◌, leb, ltb, str_eq, if◌then◌else◌,
  length,
}
use lk_modloader.Status.{
  Status, ok, err, err_invalid_args, err_too_big, err_already_exists, err_no_memory, err_not_found,
}
use lk_modloader.Elf.{Name}
use lk_modloader.Export.{
  Exports, max_dynamic_exports, export_name_max, builtin_exports, find_builtin, is_empty,
  export_vaddr, export_register, export_unregister, lookup_export,
}

pub record Directory : Type 0 where
  pub find : Name → Option ℕ
  pub used : ℕ

abbrev pub empty_directory : Directory
empty_directory = record { find = λ n. none; used = 0 }

-- The directory with another address, or none, under a name.
abbrev pub rebind : Name → Option ℕ → Directory → Name → Option ℕ
rebind name addr d n = if str_eq name n then addr else d.find n

-- A name that is in the directory gets the new address, and a new one is added while there is room.
unfoldable pub add : Name → ℕ → Directory → Status × Directory
add name addr d = elim (d.find name) [
  | some old ↦ (ok tt, record { find = rebind name (some addr) d; used = d.used })
  | none ↦
      if ltb d.used max_dynamic_exports
      then (ok tt, record { find = rebind name (some addr) d; used = d.used + 1 })
      else (err err_no_memory, d)
]

module _ (add_addr : ℕ) where
  unfoldable pub dir_register : Option Name → ℕ → Directory → Status × Directory
  dir_register none addr d = (err err_invalid_args, d)
  dir_register (some name) addr d =
      if is_empty (some name) || addr == 0
      then (err err_invalid_args, d)
      else if leb export_name_max (length name)
      then (err err_too_big, d)
      else elim (find_builtin (builtin_exports add_addr) name) [
        | some _ ↦ (err err_already_exists, d)
        | none ↦ add name addr d
      ]

  unfoldable pub dir_lookup : Directory → Name → Bool → ℕ
  dir_lookup d name is_func = elim (find_builtin (builtin_exports add_addr) name) [
    | some addr ↦ export_vaddr addr is_func
    | none ↦ elim (d.find name) [ some addr ↦ export_vaddr addr is_func | none ↦ 0 ]
  ]

unfoldable pub dir_unregister : Option Name → Directory → Status × Directory
dir_unregister none d = (err err_invalid_args, d)
dir_unregister (some name) d =
    if is_empty (some name) then (err err_invalid_args, d) else elim (d.find name) [
      | some addr ↦ (ok tt, record { find = rebind name none d; used = d.used - 1 })
      | none ↦ (err err_not_found, d)
    ]

-- A call of the table, and what it answers.
pub data TableCall : Type 0 where
  registers : Option Name → ℕ → TableCall
  unregisters : Option Name → TableCall
  looks_up : Name → Bool → TableCall

pub data Answer : Type 0 where
  status : Status → Answer
  address : ℕ → Answer

-- The answers to a sequence of calls: of the table, and of the directory.
module _ (add_addr : ℕ) where
  unfoldable pub run_table : List TableCall → Exports → List Answer
  run_table [] t = []
  run_table (registers name addr ∷ calls) t =
      let r = export_register add_addr name addr t in status r.0 ∷ run_table calls r.1
  run_table (unregisters name ∷ calls) t =
      let r = export_unregister name t in status r.0 ∷ run_table calls r.1
  run_table (looks_up name is_func ∷ calls) t =
      address (lookup_export add_addr t name is_func) ∷ run_table calls t

  unfoldable pub run_directory : List TableCall → Directory → List Answer
  run_directory [] d = []
  run_directory (registers name addr ∷ calls) d =
      let r = dir_register add_addr name addr d in status r.0 ∷ run_directory calls r.1
  run_directory (unregisters name ∷ calls) d =
      let r = dir_unregister name d in status r.0 ∷ run_directory calls r.1
  run_directory (looks_up name is_func ∷ calls) d =
      address (dir_lookup add_addr d name is_func) ∷ run_directory calls d
