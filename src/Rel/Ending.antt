-- ===== src/Rel/Ending.antt =====
-- The loops of a load over sections, symbols and relocations end.
use lk_modloader.Base.{
  ℕ, zero, suc, ◌+◌, List, [], ◌∷◌, Option, none, some, Bool, true, false, if◌then◌else◌, get_elem?,
  not, ltb,
}
use lk_modloader.Outcome.{done, read, ◌>>=◌}
use lk_modloader.Action.Ended.{IsEnded, IsEnded-if, ended_rules}
use lk_modloader.Elf.{Elf, Ehdr, Shdr, Sym, Name}
use lk_modloader.Export.{Exports}
use lk_modloader.Externals.{resolve_externals, resolve_from, resolve_symbol, resolve_name}
use lk_modloader.Kernel.{Kernel}
use lk_modloader.Memory.{Memory}
use lk_modloader.Reloc.Apply.{RelocType}
use lk_modloader.Rel.Entry.{
  RelocEntry, read_entry, divide, own_value, entry_value, entry_symbol, no_symbol, is_relative,
}
use lk_modloader.Rel.FindEntry.{check_header, find_entry, find_entry_from, entry_address}
use lk_modloader.Rel.Layout.{SymTab, layout, layout_from, find_symtab, read_symtab}
use lk_modloader.SymValue.{sym_is_thumb, sym_value, resolved_sym_addr, defined_addr, resolved_addr}

module _ (k : Kernel) (elf : Elf) where
  layout_from-IsEnded :
      (shdrs : ℕ → Option Shdr) (left i total : ℕ) → IsEnded (layout_from k elf shdrs left i total)
  unfolding layout_from
  layout_from-IsEnded shdrs zero i total = tt
  layout_from-IsEnded shdrs (suc left) i total =
      search (ended_rules, layout_from-IsEnded shdrs left (i + 1))

  pub layout-IsEnded : (shdrs : ℕ → Option Shdr) (shnum : ℕ) → IsEnded (layout k elf shdrs shnum)
  unfolding layout
  layout-IsEnded shdrs shnum = search (ended_rules, layout_from-IsEnded)

module _ (elf : Elf) where
  module _ (image : List ℕ) (shdrs : ℕ → Option Shdr) where
    read_symtab-IsEnded : (shdr : Shdr) → IsEnded (read_symtab elf image shdrs shdr)
    unfolding read_symtab
    read_symtab-IsEnded shdr = search (ended_rules)

    pub find_symtab-IsEnded : (left i : ℕ) → IsEnded (find_symtab elf image shdrs left i)
    unfolding find_symtab
    find_symtab-IsEnded zero i = tt
    find_symtab-IsEnded (suc left) i =
        search (ended_rules, read_symtab-IsEnded, find_symtab-IsEnded left (i + 1))

  pub check_header-IsEnded : (image : List ℕ) (ehdr : Ehdr) → IsEnded (check_header elf image ehdr)
  unfolding check_header
  check_header-IsEnded image ehdr = search (ended_rules)

  module _ (t : SymTab) (sec_addr : List ℕ) (base shnum : ℕ) where
    entry_address-IsEnded : (sym : Sym) → IsEnded (entry_address elf t sec_addr base shnum sym)
    unfolding entry_address
    entry_address-IsEnded sym = search (ended_rules)

    find_entry_from-IsEnded :
        (left i : ℕ) → IsEnded (find_entry_from elf t sec_addr base shnum left i)
    unfolding find_entry_from
    find_entry_from-IsEnded zero i = tt
    find_entry_from-IsEnded (suc left) i =
        search (ended_rules, entry_address-IsEnded, find_entry_from-IsEnded left (i + 1))

    pub find_entry-IsEnded : IsEnded (find_entry elf t sec_addr base shnum)
    unfolding find_entry
    find_entry-IsEnded = find_entry_from-IsEnded t.sym_count 0

  module _ (sym : Sym) (base : ℕ) (sec_addr : List ℕ) where
    defined_addr-IsEnded : IsEnded (defined_addr elf sym base sec_addr)
    unfolding defined_addr
    defined_addr-IsEnded = search (ended_rules)

    resolved_addr-IsEnded : IsEnded (resolved_addr elf sym base sec_addr)
    unfolding resolved_addr
    resolved_addr-IsEnded = search (ended_rules)

    sym_value-IsEnded : (shnum : ℕ) → IsEnded (sym_value elf sym base sec_addr shnum)
    unfolding sym_value
    sym_value-IsEnded shnum = search (ended_rules, defined_addr-IsEnded)

    pub resolved_sym_addr-IsEnded :
        (shnum : ℕ) → IsEnded (resolved_sym_addr elf sym base sec_addr shnum)
    unfolding resolved_sym_addr
    resolved_sym_addr-IsEnded shnum = search (ended_rules, resolved_addr-IsEnded)

  module _ (add_addr : ℕ) (table : Exports) where
    resolve_name-IsEnded :
        (sym : Sym) (name : Name) → IsEnded (resolve_name elf add_addr table sym name)
    unfolding resolve_name
    resolve_name-IsEnded sym [] = tt
    resolve_name-IsEnded sym (c ∷ cs) = search (ended_rules)

    resolve_symbol-IsEnded :
        (symstr : ℕ → Option Name) (sym : Sym)
        → IsEnded (resolve_symbol elf add_addr table symstr sym)
    unfolding resolve_symbol
    resolve_symbol-IsEnded symstr sym = search (ended_rules, resolve_name-IsEnded)

    resolve_from-IsEnded :
        (symstr : ℕ → Option Name) (syms : ℕ → Option Sym) (left i : ℕ)
        → IsEnded (resolve_from elf add_addr table symstr syms left i)
    unfolding resolve_from
    resolve_from-IsEnded symstr syms zero i = tt
    resolve_from-IsEnded symstr syms (suc left) i =
        search (ended_rules, resolve_symbol-IsEnded, resolve_from-IsEnded symstr syms left (i + 1))

    pub resolve_externals-IsEnded :
        (symstr : ℕ → Option Name) (syms : ℕ → Option Sym) (sym_count : ℕ)
        → IsEnded (resolve_externals elf add_addr table symstr syms sym_count)
    unfolding resolve_externals
    resolve_externals-IsEnded symstr syms sym_count = resolve_from-IsEnded symstr syms sym_count 0

  module _ (image : List ℕ) (symtab : Option SymTab) (resolved : Option (List ℕ)) (base : ℕ)
      (sec_addr : List ℕ) (shnum : ℕ) where
    pub read_entry-IsEnded :
        (is_rel : Bool) (target at : ℕ) (m : Memory)
        → IsEnded (read_entry elf image is_rel target at m)
    unfolding read_entry
    read_entry-IsEnded true target at m = search (ended_rules)
    read_entry-IsEnded false target at m = search (ended_rules)

    pub own_value-IsEnded :
        (sym : Sym) (found : ℕ)
        → IsEnded (own_value elf symtab resolved base sec_addr shnum sym found)
    unfolding own_value
    own_value-IsEnded sym found = search (ended_rules, sym_value-IsEnded)

    pub entry_value-IsEnded :
        (sym : Sym) (i : ℕ) → IsEnded (entry_value elf symtab resolved base sec_addr shnum sym i)
    unfolding entry_value
    entry_value-IsEnded sym i = IsEnded-if _ _ _ (own_value-IsEnded sym 0) (own resolved)
      where
        own :
            (r : Option (List ℕ))
            → IsEnded (elim r [
              | none ↦ own_value elf symtab resolved base sec_addr shnum sym 0
              | some addrs ↦
                  read (get_elem? addrs i) >>= own_value elf symtab resolved base sec_addr shnum sym
            ])
        own none = own_value-IsEnded sym 0
        own (some addrs) = search (ended_rules, own_value-IsEnded)

    pub divide-IsEnded : (a b : ℕ) → IsEnded (divide a b)
    unfolding divide
    divide-IsEnded a b = search (ended_rules)

    no_symbol-IsEnded :
        (ty : RelocType) → IsEnded (no_symbol elf symtab resolved base sec_addr shnum ty)
    unfolding no_symbol
    no_symbol-IsEnded ty = search (ended_rules)

    pub entry_symbol-IsEnded :
        (e : RelocEntry) → IsEnded (entry_symbol elf symtab resolved base sec_addr shnum e)
    unfolding entry_symbol
    entry_symbol-IsEnded e = of_table symtab
      where
        of_table :
            (o : Option SymTab)
            → IsEnded (elim o [
              | none ↦ no_symbol elf symtab resolved base sec_addr shnum e.ty
              | some t ↦
                  if not (ltb e.sym_idx t.sym_count)
                  then no_symbol elf symtab resolved base sec_addr shnum e.ty
                  else read (t.syms e.sym_idx) >>= λ sym.
                      entry_value elf symtab resolved base sec_addr shnum sym e.sym_idx >>= λ value.
                      let sym_val = if is_relative e.ty then base else value in
                      done (sym_val, sym_is_thumb elf sym sym_val)
            ])
        of_table none = no_symbol-IsEnded e.ty
        of_table (some t) = search (ended_rules, no_symbol-IsEnded, entry_value-IsEnded)
