-- ===== src/Symbols.antt =====
-- app/modloader/modloader_symbols.c: the index of the symbols that a loaded module exports.
-- `sec_addr` is the array of section offsets, and `syms` and `symstr` are reads of the image's symbol
-- and string tables by index and offset; `none` is a read outside of them.
pub mod Build
use lk_modloader.Base.{
  ℕ, zero, suc, ◌+◌, ◌-◌, ◌%◌, ◌≡◌, refl, List, [], ◌∷◌, ◌++◌, Option, none, some, Bool, true,
  false, ◌&&◌, ◌||◌, not, bit_and, bit_or, ◌==◌, leb, ltb, str_eq, if◌then◌else◌, length, take,
  get_elem?, add32, not32,
}
use lk_modloader.Status.{Error, err_no_memory, err_invalid_args}
use lk_modloader.Outcome.{Outcome, done, fail, read}
use lk_modloader.Action.{Action, ◌>>=◌, ◌>>◌, pure, lift, continue}
use lk_modloader.SymValue.{resolved_sym_addr}
use lk_modloader.Elf.{Elf, Sym, Name}

abbrev pub max_module_exports : ℕ
max_module_exports = 32

abbrev pub symbol_name_max : ℕ
symbol_name_max = 64

pub record ModuleExport : Type 0 where
  pub name : Name
  pub addr : ℕ

-- The used part of the array; its length is `modloader_module_export_count`.
abbrev pub ModuleExports : Type 0
ModuleExports = List ModuleExport

-- `modloader_symbols_clear`
abbrev pub symbols_clear : ModuleExports
symbols_clear = []

-- `"__modloader_"`
abbrev pub marker_prefix : Name
marker_prefix =
    b'_' ∷ b'_' ∷ b'm' ∷ b'o' ∷ b'd' ∷ b'l' ∷ b'o' ∷ b'a' ∷ b'd' ∷ b'e' ∷ b'r' ∷ b'_' ∷ []

-- `!strncmp(name, prefix, strlen(prefix))`
unfoldable pub starts_with : Name → Name → Bool
starts_with name [] = true
starts_with [] (p ∷ ps) = false
starts_with (c ∷ cs) (p ∷ ps) = c == p && starts_with cs ps

unfoldable pub skip_module_export : Name → Bool
unfolding starts_with
skip_module_export [] = true
skip_module_export (c ∷ cs) = if c == b'$' then true else starts_with (c ∷ cs) marker_prefix

module _ (elf : Elf) where
  -- `bind != STB_GLOBAL && bind != STB_WEAK`
  unfoldable pub not_exported : Sym → Bool
  not_exported sym =
      not (elf.st_bind sym.st_info == elf.stb_global)
      && not (elf.st_bind sym.st_info == elf.stb_weak)

  -- The tests of the loop of `modloader_symbols_build` that come before the symbol's name is read.
  unfoldable pub passed_over : Sym → Bool
  unfolding not_exported
  passed_over sym =
      if not_exported sym
      then true
      else if not (elf.st_type sym.st_info == elf.stt_func)
          && not (elf.st_type sym.st_info == elf.stt_object)
      then true
      else sym.st_shndx == elf.shn_undef

  module _ (syms : ℕ → Option Sym) (symstr : ℕ → Option Name) (load_base : ℕ) (sec_addr : List ℕ)
      (shnum : ℕ) where
    -- A symbol that is not passed over.
    unfoldable pub index_named : Sym → Name → Action ModuleExports (Unit {0})
    index_named sym name exports =
        if leb max_module_exports (length exports)
        then (fail err_no_memory, exports)
        else continue (resolved_sym_addr elf sym load_base sec_addr shnum)
            (λ addr exports. (
              done tt,
              if addr == 0
                  then exports
                  else exports
                    ++ record { name = take (symbol_name_max - 1) name; addr = addr } ∷ [],
            ))
            exports

    -- One round of the loop.
    unfoldable pub index_symbol : Sym → Action ModuleExports (Unit {0})
    index_symbol sym = if passed_over sym then pure tt else do
      name ← lift (read (symstr sym.st_name))
      if skip_module_export name then pure tt else index_named sym name

    -- The loop from symbol `i`, with `left` symbols to go.
    unfoldable pub index_from : ℕ → ℕ → Action ModuleExports (Unit {0})
    index_from zero i = pure tt
    index_from (suc left) i = do
      sym ← lift (read (syms i))
      index_symbol sym
      index_from left (i + 1)

  -- `none` is a null pointer; `sec_addr` is a local array of the caller, never null.
  unfoldable pub symbols_build :
      Option (ℕ → Option Sym)
      → ℕ
      → Option (ℕ → Option Name)
      → ℕ
      → List ℕ
      → ℕ
      → Action ModuleExports (Unit {0})
  symbols_build none sym_count symstr load_base sec_addr shnum exports =
      (fail err_invalid_args, symbols_clear)
  symbols_build (some syms) sym_count none load_base sec_addr shnum exports =
      (fail err_invalid_args, symbols_clear)
  symbols_build (some syms) sym_count (some symstr) load_base sec_addr shnum exports =
      index_from syms symstr load_base sec_addr shnum sym_count 0 symbols_clear

-- The loop of `modloader_lookup_symbol`.
unfoldable pub find_symbol : ModuleExports → Name → Option ℕ
find_symbol [] name = none
find_symbol (e ∷ rest) name = if str_eq e.name name then some e.addr else find_symbol rest name
