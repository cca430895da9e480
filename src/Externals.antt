-- ===== src/Externals.antt =====
-- `modloader_resolve_externals` of app/modloader/modloader_export.c: the addresses of the symbols that
-- a module imports, one for each entry of its symbol table, 0 where none is needed or found.
pub mod Sound
use lk_modloader.Base.{
  ℕ, zero, suc, ◌+◌, List, [], ◌∷◌, Option, Bool, true, false, not, ◌==◌, if◌then◌else◌,
}
use lk_modloader.Status.{err_not_found}
use lk_modloader.Outcome.{Outcome, done, fail, ◌>>=◌, read}
use lk_modloader.Elf.{Elf, Sym, Name}
use lk_modloader.Export.{Exports, lookup_export}
use lk_modloader.Symbols.{not_exported}

module _ (elf : Elf) (add_addr : ℕ) (table : Exports) where
  -- `STT_NOTYPE` imports count as functions if the kernel exports the name.
  unfoldable pub is_function : Sym → Name → Bool
  is_function sym name =
      if elf.st_type sym.st_info == elf.stt_notype
      then not (lookup_export add_addr table name false == 0)
      else elf.st_type sym.st_info == elf.stt_func

  unfoldable pub resolve_name : Sym → Name → Outcome ℕ
  unfolding is_function
  resolve_name sym [] = done 0
  resolve_name sym (c ∷ cs) =
      let addr = lookup_export add_addr table (c ∷ cs) (is_function sym (c ∷ cs)) in
      if addr == 0
      then (if elf.st_bind sym.st_info == elf.stb_weak then done 0 else fail err_not_found)
      else done addr

  module _ (symstr : ℕ → Option Name) where
    -- One round of the loop: `resolved[i]` after it.
    unfoldable pub resolve_symbol : Sym → Outcome ℕ
    resolve_symbol sym =
        if not (sym.st_shndx == elf.shn_undef)
        then done 0
        else if not_exported elf sym
        then done 0
        else do name ← read (symstr sym.st_name); resolve_name sym name

    -- The loop from symbol `i`, with `left` symbols to go.
    unfoldable pub resolve_from : (ℕ → Option Sym) → ℕ → ℕ → Outcome (List ℕ)
    resolve_from syms zero i = done []
    resolve_from syms (suc left) i = do
      sym ← read (syms i)
      addr ← resolve_symbol sym
      rest ← resolve_from syms left (i + 1)
      done (addr ∷ rest)

    unfoldable pub resolve_externals : (ℕ → Option Sym) → ℕ → Outcome (List ℕ)
    unfolding resolve_from
    resolve_externals syms sym_count = resolve_from syms sym_count 0
