-- ===== src/Symbols/Build.antt =====
-- The index of module exports against a search of the ELF symbol table.
use lk_modloader.Base.{
  ℕ, zero, suc, ◌+◌, ◌-◌, ◌≤◌, ◌≡◌, refl, List, [], ◌∷◌, ◌++◌, Option, none, some, arith, ◌==◌,
  str_eq, if◌then◌else◌, length, length-append, take, Option-cases, inl, inr,
}
use lk_modloader.Outcome.{Outcome, done, fail, fault, out_of_fuel, Outcome-cases}
use lk_modloader.Action.{◌>>=◌}
use lk_modloader.Action.Rules.{
  Maintains, Maintains-pure, Maintains-bind, Maintains-lift, maintains_rules,
}
use lk_modloader.Elf.{Elf, Sym, Name}
use lk_modloader.SymValue.{resolved_sym_addr}
use lk_modloader.Symbols.{
  ModuleExport, ModuleExports, max_module_exports, symbol_name_max, skip_module_export, passed_over,
  index_named, index_symbol, index_from, symbols_build, find_symbol,
}

-- A search that goes on where another has found nothing.
abbrev pub or_else : Option ℕ → Option ℕ → Option ℕ
or_else none o = o
or_else (some a) o = some a

abbrev pub value_or_none : Outcome ℕ → Option ℕ
value_or_none (done a) = if a == 0 then none else some a
value_or_none (fail e) = none
value_or_none fault = none
value_or_none out_of_fuel = none

module _ (elf : Elf) (syms : ℕ → Option Sym) (symstr : ℕ → Option Name) (load_base : ℕ)
    (sec_addr : List ℕ) (shnum : ℕ) where
  -- The address that a symbol is exported at under a name that was cut to 63 bytes.
  pub exported_as : Sym → Name → Option ℕ
  exported_as sym wanted = if passed_over elf sym then none else elim (symstr sym.st_name) [
    | none ↦ none
    | some name ↦
        if skip_module_export name
        then none
        else if str_eq (take (symbol_name_max - 1) name) wanted
        then value_or_none (resolved_sym_addr elf sym load_base sec_addr shnum)
        else none
  ]

  -- The first of `left` symbols from `i` that is exported under the name: a lookup with no index.
  pub search_from : ℕ → ℕ → Name → Option ℕ
  unfolding exported_as
  search_from zero i wanted = none
  search_from (suc left) i wanted = elim (syms i) [
    | none ↦ none
    | some sym ↦ or_else (exported_as sym wanted) (search_from left (i + 1) wanted)
  ]

  find_append :
      (t : ModuleExports) (e : ModuleExport) (n : Name)
      → find_symbol (t ++ e ∷ []) n
        ≡ or_else (find_symbol t n) (if str_eq e.name n then some e.addr else none)
  unfolding find_symbol
  find_append [] e n = refl
  find_append (x ∷ t) e n = ground (arith, find_append t e n)

  find_index_named :
      (sym : Sym) (name n : Name) (t t' : ModuleExports)
      → index_named elf syms symstr load_base sec_addr shnum sym name t ≡ (done tt, t')
      → find_symbol t' n
        ≡ or_else (find_symbol t n) (
            if str_eq (take (symbol_name_max - 1) name) n
            then value_or_none (resolved_sym_addr elf sym load_base sec_addr shnum)
            else none)
  unfolding index_named
  find_index_named sym name n t t' h =
      let entry =
        λ (addr : ℕ). let e : ModuleExport = record { name = take 63 name; addr = addr } in e in
      elim (Outcome-cases (resolved_sym_addr elf sym load_base sec_addr shnum)) [
        | inl (addr, e) ↦ ground (arith, e, find_append t (entry addr) n)
        | inr bad ↦ absurd (ground (arith, bad))
      ]

  find_index_symbol :
      (sym : Sym) (n : Name) (t t' : ModuleExports)
      → index_symbol elf syms symstr load_base sec_addr shnum sym t ≡ (done tt, t')
      → find_symbol t' n ≡ or_else (find_symbol t n) (exported_as sym n)
  unfolding index_symbol exported_as ◌>>=◌
  find_index_symbol sym n t t' h = elim (Option-cases (symstr sym.st_name)) [
    | inl missing ↦ ground (arith, missing)
    | inr (name, at) ↦ ground (arith, at, find_index_named sym name n t t')
  ]

  or_else_assoc : (a b c : Option ℕ) → or_else (or_else a b) c ≡ or_else a (or_else b c)
  or_else_assoc none b c = refl
  or_else_assoc (some a) b c = refl

  find_index_from :
      (left i : ℕ) (n : Name) (t t' : ModuleExports)
      → index_from elf syms symstr load_base sec_addr shnum left i t ≡ (done tt, t')
      → find_symbol t' n ≡ or_else (find_symbol t n) (search_from left i n)
  unfolding index_from search_from ◌>>=◌
  find_index_from zero i n t t' h = ground arith
  find_index_from (suc left) i n t t' h = elim (Option-cases (syms i)) [
    | inl missing ↦ ground (arith, missing)
    | inr (sym, at) ↦
        let t₁ = (index_symbol elf syms symstr load_base sec_addr shnum sym t).1 in
        elim (Outcome-cases (index_symbol elf syms symstr load_base sec_addr shnum sym t).0) [
          | inl (u, e) ↦ ground (
            arith,
            at,
            e,
            find_index_symbol sym n t t₁,
            find_index_from left (i + 1) n t₁ t',
            or_else_assoc (find_symbol t n) (exported_as sym n) (search_from left (i + 1) n),
          )
          | inr bad ↦ absurd (ground (arith, at, bad))
        ]
  ]

  -- When symbols_build has succeeded on a symbol table and a string table, a lookup in the index
  -- finds, for every name, what a search of the ELF symbol table in its order finds: the first
  -- exported symbol of that name (cut to 63 bytes) whose address is not 0.
  pub find_symbol-build :
      (sym_count : ℕ) (n : Name) (t t' : ModuleExports)
      → symbols_build elf (some syms) sym_count (some symstr) load_base sec_addr shnum t
        ≡ (done tt, t')
      → find_symbol t' n ≡ search_from sym_count 0 n
  unfolding symbols_build find_symbol
  find_symbol-build sym_count n t t' h = find_index_from sym_count 0 n [] t' h

  index_named-le :
      (sym : Sym) (name : Name) (t : ModuleExports)
      → length t ≤ max_module_exports
      → length (index_named elf syms symstr load_base sec_addr shnum sym name t).1
        ≤ max_module_exports
  unfolding index_named
  index_named-le sym name t h =
      let entry =
        λ (addr : ℕ). let e : ModuleExport = record { name = take 63 name; addr = addr } in e in
      elim (Outcome-cases (resolved_sym_addr elf sym load_base sec_addr shnum)) [
        | inl (addr, e) ↦ ground (arith, e, length-append t (entry addr ∷ []))
        | inr bad ↦ ground (arith, bad)
      ]

  index_named-Maintains :
      (sym : Sym) (name : Name)
      → Maintains
          (λ t. length t ≤ max_module_exports)
          (index_named elf syms symstr load_base sec_addr shnum sym name)
  index_named-Maintains sym name = record { run = index_named-le sym name }

  index_symbol-Maintains :
      (sym : Sym)
      → Maintains
          (λ t. length t ≤ max_module_exports)
          (index_symbol elf syms symstr load_base sec_addr shnum sym)
  unfolding index_symbol
  index_symbol-Maintains sym = search (maintains_rules, index_named-Maintains)

  index_from-Maintains :
      (left i : ℕ)
      → Maintains
          (λ t. length t ≤ max_module_exports)
          (index_from elf syms symstr load_base sec_addr shnum left i)
  unfolding index_from
  index_from-Maintains zero i = Maintains-pure tt
  index_from-Maintains (suc left) i = Maintains-bind _ _ (Maintains-lift _) (λ sym.
      Maintains-bind _ _ (index_symbol-Maintains sym) (λ u. index_from-Maintains left (i + 1)))

  index_from-le :
      (left i : ℕ) (t : ModuleExports)
      → length t ≤ max_module_exports
      → length (index_from elf syms symstr load_base sec_addr shnum left i t).1 ≤ max_module_exports
  index_from-le left i t h = (index_from-Maintains left i).run t h

-- However symbols_build ends, and on null pointers too, the index holds at most 32 entries: the
-- static array is never overrun.
pub length-build :
    (elf : Elf) (syms : Option (ℕ → Option Sym)) (sym_count : ℕ) (symstr : Option (ℕ → Option Name))
    (load_base : ℕ) (sec_addr : List ℕ) (shnum : ℕ) (t : ModuleExports)
    → length (symbols_build elf syms sym_count symstr load_base sec_addr shnum t).1
      ≤ max_module_exports
unfolding symbols_build
length-build elf none sym_count symstr load_base sec_addr shnum t = omega arith
length-build elf (some syms) sym_count none load_base sec_addr shnum t = omega arith
length-build elf (some syms) sym_count (some symstr) load_base sec_addr shnum t =
    index_from-le elf syms symstr load_base sec_addr shnum sym_count 0 [] (omega arith)
