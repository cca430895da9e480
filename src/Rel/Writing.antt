-- ===== src/Rel/Writing.antt =====
-- The loops of a load that write to the memory or to the index of symbols end.
use lk_modloader.Base.{
  ℕ, zero, suc, ◌+◌, ◌-◌, ◌==◌, List, [], ◌∷◌, Option, some, Bool, if◌then◌else◌, leb, length, take,
  ◌++◌, inl, inr, Bool-cases,
}
use lk_modloader.Outcome.{Outcome, done, fail, fault, out_of_fuel}
use lk_modloader.Action.{Action, continue}
use lk_modloader.Action.Ended.{IsEnded, Ends, ends_rules, Ends-bind, Ends-on_error}
use lk_modloader.Elf.{Elf, Shdr, Sym, Name}
use lk_modloader.Kernel.{Kernel}
use lk_modloader.Memory.{Memory}
use lk_modloader.World.{on_mem}
use lk_modloader.SymValue.{resolved_sym_addr}
use lk_modloader.Rel.Layout.{SymTab}
use lk_modloader.Rel.Relocate.{
  relocate_entry, relocate_entries, relocate_target, relocate_section, relocate_from,
}
use lk_modloader.Rel.Ending.{
  read_entry-IsEnded, entry_symbol-IsEnded, divide-IsEnded, resolved_sym_addr-IsEnded,
}
use lk_modloader.Symbols.{
  symbols_build, index_from, index_symbol, index_named, ModuleExports, symbols_clear,
  max_module_exports, symbol_name_max,
}

pub on_mem-Ends : (k : Kernel) {A : Type 0} (m : Action Memory A) → Ends m → Ends (on_mem k m)
unfolding on_mem
on_mem-Ends k m h = record { run = λ w. h.run w.mem }

module _ (elf : Elf) (symtab : Option SymTab) (resolved : Option (List ℕ)) (base : ℕ)
    (sec_addr : List ℕ) (shnum : ℕ) (image : List ℕ) (shdrs : ℕ → Option Shdr) where
  relocate_entry-Ends :
      (is_rel : Bool) (target at : ℕ)
      → Ends (relocate_entry elf symtab resolved base sec_addr shnum image shdrs is_rel target at)
  unfolding relocate_entry
  relocate_entry-Ends is_rel target at =
      search (ends_rules, read_entry-IsEnded, entry_symbol-IsEnded) depth 12

  relocate_entries-Ends :
      (shdr : Shdr) (target left r : ℕ)
      → Ends
          (relocate_entries elf symtab resolved base sec_addr shnum image shdrs shdr target left r)
  unfolding relocate_entries
  relocate_entries-Ends shdr target zero r = search (ends_rules)
  relocate_entries-Ends shdr target (suc left) r =
      Ends-bind _ _ (relocate_entry-Ends _ target _)
        (λ u. relocate_entries-Ends shdr target left (r + 1))

  module _ (k : Kernel) (sym_resolved : ℕ) where
    relocate_target-Ends :
        (shdr : Shdr)
        → Ends (
            relocate_target elf symtab resolved base sec_addr shnum image shdrs k sym_resolved shdr)
    unfolding relocate_target
    relocate_target-Ends shdr = Ends-bind _ _ (search (ends_rules)) (λ u.
        Ends-bind _ _ (search (ends_rules, divide-IsEnded)) (λ count.
          Ends-bind _ _ (search (ends_rules))
            (λ offset. Ends-on_error _ _ (on_mem-Ends k _ (relocate_entries-Ends shdr _ count 0)))))

    relocate_section-Ends :
        (shdr : Shdr)
        → Ends (
            relocate_section elf symtab resolved base sec_addr shnum image shdrs k sym_resolved
              shdr)
    unfolding relocate_section
    relocate_section-Ends shdr = search (ends_rules, relocate_target-Ends)

    pub relocate_from-Ends :
        (left i : ℕ)
        → Ends (
            relocate_from elf symtab resolved base sec_addr shnum image shdrs k sym_resolved left i)
    unfolding relocate_from
    relocate_from-Ends zero i = search (ends_rules)
    relocate_from-Ends (suc left) i =
        Ends-bind _ _ (search (ends_rules)) (λ shdr.
          Ends-bind _ _ (relocate_section-Ends shdr) (λ u. relocate_from-Ends left (i + 1)))

module _ (elf : Elf) (syms : ℕ → Option Sym) (symstr : ℕ → Option Name) (base : ℕ)
    (sec_addr : List ℕ) (shnum : ℕ) where
  index_named-Ends :
      (sym : Sym) (name : Name) → Ends (index_named elf syms symstr base sec_addr shnum sym name)
  unfolding index_named
  index_named-Ends sym name = record {
    run = λ exports. elim (Bool-cases (leb max_module_exports (length exports))) [
      | inl full ↦ rw full tt
      | inr room ↦ rw room (
          after (resolved_sym_addr elf sym base sec_addr shnum)
            (resolved_sym_addr-IsEnded elf sym base sec_addr shnum) exports)
    ];
  }
    where
      after :
          (r : Outcome ℕ)
          → IsEnded r
          → (exports : ModuleExports)
          → IsEnded
              (continue r
                (λ addr exports'. (
                  done tt,
                  if addr == 0
                      then exports'
                      else exports'
                        ++ record { name = take (symbol_name_max - 1) name; addr = addr } ∷ [],
                ))
                exports).0
      after (done a) h exports = tt
      after (fail e) h exports = tt
      after fault h exports = tt
      after out_of_fuel h exports = h

  index_symbol-Ends : (sym : Sym) → Ends (index_symbol elf syms symstr base sec_addr shnum sym)
  unfolding index_symbol
  index_symbol-Ends sym = search (ends_rules, index_named-Ends)

  index_from-Ends : (left i : ℕ) → Ends (index_from elf syms symstr base sec_addr shnum left i)
  unfolding index_from
  index_from-Ends zero i = search (ends_rules)
  index_from-Ends (suc left) i =
      Ends-bind _ _ (search (ends_rules))
        (λ sym. Ends-bind _ _ (index_symbol-Ends sym) (λ u. index_from-Ends left (i + 1)))

pub symbols_build-Ends :
    (elf : Elf) (syms : ℕ → Option Sym) (sym_count : ℕ) (symstr : ℕ → Option Name) (base : ℕ)
    (sec_addr : List ℕ) (shnum : ℕ)
    → Ends (symbols_build elf (some syms) sym_count (some symstr) base sec_addr shnum)
unfolding symbols_build
symbols_build-Ends elf syms sym_count symstr base sec_addr shnum = record {
  run = λ t. (index_from-Ends elf syms symstr base sec_addr shnum sym_count 0).run symbols_clear;
}
