-- ===== src/Export/Refines.antt =====
-- The export table answers as the directory does.
use lk_modloader.Base.{
  ℕ, ◌+◌, ◌-◌, ◌<◌, ◌≡◌, ◌∙◌, refl, sym, ap, ap₂, arith, List, [], ◌∷◌, Option, none, some, Bool,
  ◌||◌, ◌==◌, leb, str_eq, if◌then◌else◌, length, take_all, Bool-cases, Option-cases, inl, inr,
}
use lk_modloader.Status.{
  Status, ok, err, Error, err_invalid_args, err_too_big, err_already_exists, err_no_memory,
  err_not_found,
}
use lk_modloader.Elf.{Name}
use lk_modloader.Export.{
  Exports, initial_exports, export_name_max, builtin_exports, find_builtin, is_empty, export_vaddr,
  export_register, export_unregister, lookup_export, find_dynamic, replace_addr, fill_free,
  clear_slot, register_named,
}
use lk_modloader.Export.Table.{
  count_used, find-replace, replace-none, find-fill, find-clear, fill-none_iff, find-none_iff,
  clear-none_iff, count_used-le,
}
use lk_modloader.Export.Lookup.{
  IsValid, initial_exports-IsValid, export_register-IsValid, export_unregister-IsValid,
}
use lk_modloader.Export.Count.{count-replace, count-fill, count-clear}
use lk_modloader.Export.Directory.{
  Directory, empty_directory, rebind, add, dir_register, dir_lookup, dir_unregister, TableCall,
  registers, unregisters, looks_up, status, address, run_table, run_directory,
}

-- The table holds what the directory does.
pub record Represents (t : Exports) (d : Directory) : Type 0 where
  pub valid : IsValid t
  pub find : (n : Name) → find_dynamic t n ≡ d.find n
  pub used : count_used t ≡ d.used

-- A table and a directory give one answer, and still agree.
abbrev Agree : Status × Exports → Status × Directory → Type 0
Agree r q =
    (r.0 ≡ q.0) × ((n : Name) → find_dynamic r.1 n ≡ q.1.find n) × (count_used r.1 ≡ q.1.used)

module _ (add_addr : ℕ) (t : Exports) (d : Directory) (rep : Represents t d) where
  -- Both refuse, for one reason.
  refused :
      (r : Status × Exports) (q : Status × Directory) (e : Error)
      → r ≡ (err e, t)
      → q ≡ (err e, d)
      → Agree r q
  refused r q e at_r at_q = rw at_r (rw at_q (refl, rep.find, rep.used))

  -- Both go on to `t'` and `d'`.
  accepted :
      (r : Status × Exports) (q : Status × Directory) (t' : Exports) (d' : Directory)
      → r ≡ (ok tt, t')
      → q ≡ (ok tt, d')
      → ((n : Name) → find_dynamic t' n ≡ d'.find n)
      → count_used t' ≡ d'.used
      → Agree r q
  accepted r q t' d' at_r at_q found count = rw at_r (rw at_q (refl, found, count))

  moved :
      (r r' : Status × Exports) (q q' : Status × Directory)
      → r ≡ r'
      → q ≡ q'
      → Agree r' q'
      → Agree r q
  moved r r' q q' at_r at_q agree = rw at_r (rw at_q agree)

  -- The loops of register against a step of the directory.
  register_named-Agree :
      (name : Name) (addr : ℕ)
      → length name < export_name_max
      → find_builtin (builtin_exports add_addr) name ≡ none
      → Agree (register_named add_addr name addr t) (add name addr d)
  unfolding register_named add
  register_named-Agree name addr short free_name = elim (Option-cases (replace_addr t name addr)) [
    | inr (t', replaced) ↦ elim (Option-cases (d.find name)) [
      | inl unknown ↦
          absurd (ground (arith, find-none_iff name addr t, rep.find name, unknown, replaced))
      | inr (old, known) ↦
          accepted _ _ t' (record { find = rebind name (some addr) d; used = d.used })
            (ground (arith, short, free_name, replaced)) (ground (arith, known))
            (λ n.
              find-replace name addr t n replaced
              ∙ ap (λ (o : Option ℕ). if str_eq name n then some addr else o) (rep.find n))
            (count-replace name addr t replaced ∙ rep.used)
    ]
    | inl gone ↦
        let unknown : d.find name ≡ none = sym (rep.find name) ∙ replace-none name addr t gone in
        elim (Option-cases (fill_free t name addr)) [
          | inl full ↦
              let no_room : count_used t ≡ 16 =
                (fill-none_iff name addr t).0 full ∙ rep.valid.size in
              refused _ _ err_no_memory (ground (arith, short, free_name, gone, full))
                (ground (arith, unknown, no_room, rep.used))
          | inr (t', filled) ↦
              let more : count_used t < 16 = omega (arith, room t filled, rep.valid.size) in
              accepted _ _ t' (record { find = rebind name (some addr) d; used = d.used + 1 })
                (ground (arith, short, free_name, gone, filled))
                (ground (arith, unknown, more, rep.used))
                (λ n.
                  find-fill name addr t n (take_all 63 name (omega (arith, short)))
                    (replace-none name addr t gone) filled
                  ∙ ap (λ (o : Option ℕ). if str_eq name n then some addr else o) (rep.find n))
                (count-fill name addr t filled ∙ ap (λ x. x + 1) rep.used)
        ]
  ]
    where
      room :
          (t : Exports) {t' : Exports} → fill_free t name addr ≡ some t' → count_used t < length t
      room t filled = ground (arith, fill-none_iff name addr t, count_used-le t, filled)

  dir_register-Agree :
      (name : Option Name) (addr : ℕ)
      → Agree (export_register add_addr name addr t) (dir_register add_addr name addr d)
  unfolding export_register dir_register
  dir_register-Agree none addr = (refl, rep.find, rep.used)
  dir_register-Agree (some name) addr = elim (Bool-cases (is_empty (some name) || addr == 0)) [
    | inl bad ↦ refused _ _ err_invalid_args (ground (arith, bad)) (ground (arith, bad))
    | inr good ↦ elim (Bool-cases (leb export_name_max (length name))) [
      | inl long ↦
          refused _ _ err_too_big (unfold register_named in ground (arith, good, long))
            (ground (arith, good, long))
      | inr short ↦ elim (Option-cases (find_builtin (builtin_exports add_addr) name)) [
        | inl free_name ↦
            moved _ (register_named add_addr name addr t) _ (add name addr d) (ground (arith, good))
              (ground (arith, good, short, free_name))
              (register_named-Agree name addr (ground (arith, short)) free_name)
        | inr (a, built_in) ↦
            refused _ _ err_already_exists
              (unfold register_named in ground (arith, good, short, built_in))
              (ground (arith, good, short, built_in))
      ]
    ]
  ]

  dir_unregister-Agree :
      (name : Option Name) → Agree (export_unregister name t) (dir_unregister name d)
  unfolding export_unregister dir_unregister
  dir_unregister-Agree none = (refl, rep.find, rep.used)
  dir_unregister-Agree (some name) = elim (Bool-cases (is_empty (some name))) [
    | inl bad ↦ refused _ _ err_invalid_args (ground (arith, bad)) (ground (arith, bad))
    | inr good ↦ elim (Option-cases (clear_slot t name)) [
      | inl gone ↦
          let unknown : d.find name ≡ none = sym (rep.find name) ∙ (clear-none_iff name t).0 gone in
          refused _ _ err_not_found (ground (arith, good, gone)) (ground (arith, good, unknown))
      | inr (t', cleared) ↦ elim (Option-cases (d.find name)) [
        | inl unknown ↦
            absurd (ground (arith, clear-none_iff name t, rep.find name, unknown, cleared))
        | inr (old, known) ↦
            accepted _ _ t' (record { find = rebind name none d; used = d.used - 1 })
              (ground (arith, good, cleared)) (ground (arith, good, known))
              (λ n.
                find-clear name t n rep.valid.distinct cleared
                ∙ ap (λ (o : Option ℕ). if str_eq name n then none else o) (rep.find n))
              (omega (arith, count-clear name t cleared, rep.used))
      ]
    ]
  ]

  dir_lookup-eq :
      (name : Name) (is_func : Bool)
      → lookup_export add_addr t name is_func ≡ dir_lookup add_addr d name is_func
  unfolding lookup_export dir_lookup
  dir_lookup-eq name is_func =
      let builtin = find_builtin (builtin_exports add_addr) name in
      ap
        (λ (o : Option ℕ). elim builtin [
          | some addr ↦ export_vaddr addr is_func
          | none ↦ elim o [ some addr ↦ export_vaddr addr is_func | none ↦ 0 ]
        ])
        (rep.find name)

empty_Represents : Represents initial_exports empty_directory
unfolding find_dynamic count_used
empty_Represents = record { valid = initial_exports-IsValid; find = λ n. refl; used = refl }

module _ (add_addr : ℕ) where
  run_table-eq :
      (calls : List TableCall) (t : Exports) (d : Directory)
      → Represents t d
      → run_table add_addr calls t ≡ run_directory add_addr calls d
  unfolding run_table run_directory
  run_table-eq [] t d rep = refl
  run_table-eq (registers name addr ∷ calls) t d rep =
      let agree = dir_register-Agree add_addr t d rep name addr in
      let next =
        run_table-eq calls (export_register add_addr name addr t).1
          (dir_register add_addr name addr d).1
          (record {
            valid = export_register-IsValid add_addr name addr t rep.valid;
            find = agree.1;
            used = agree.2;
          }) in
      ap₂ (λ s rest. status s ∷ rest) agree.0 next
  run_table-eq (unregisters name ∷ calls) t d rep =
      let agree = dir_unregister-Agree add_addr t d rep name in
      let next = run_table-eq calls (export_unregister name t).1 (dir_unregister name d).1 (record {
        valid = export_unregister-IsValid name t rep.valid;
        find = agree.1;
        used = agree.2;
      }) in
      ap₂ (λ s rest. status s ∷ rest) agree.0 next
  run_table-eq (looks_up name is_func ∷ calls) t d rep =
      ap₂ (λ a rest. address a ∷ rest) (dir_lookup-eq add_addr t d rep name is_func)
        (run_table-eq calls t d rep)

  -- For every sequence of registers, unregisters and lookups from start-up, with any arguments, the
  -- array of sixteen slots answers exactly as an abstract directory does, which is a map from names
  -- to addresses with a count of its names: a register replaces a name's address or adds a name
  -- while there are fewer than sixteen, and every error is the same.
  pub table_refines :
      (calls : List TableCall)
      → run_table add_addr calls initial_exports ≡ run_directory add_addr calls empty_directory
  table_refines calls = run_table-eq calls initial_exports empty_directory empty_Represents
