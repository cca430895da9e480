-- ===== src/SymValue.antt =====
-- The value of a symbol: `modloader_sym_value` and `modloader_sym_is_thumb` of
-- app/modloader/modloader_reloc.c and `modloader_resolved_sym_addr` of
-- app/modloader/modloader_symbols.c. `sec_addr` is the array of section offsets.
pub mod Laws
use lk_modloader.Base.{
  ℕ, List, Bool, true, false, not, ◌||◌, bit_and, bit_or, ◌==◌, leb, if◌then◌else◌, get_elem?,
  add32, not32,
}
use lk_modloader.Outcome.{Outcome, done, ◌>>=◌, read}
use lk_modloader.Elf.{Elf, Sym}

module _ (elf : Elf) (sym : Sym) (load_base : ℕ) (sec_addr : List ℕ) where
  -- The last part of `modloader_sym_value`, for a section index in range.
  unfoldable pub defined_addr : Outcome ℕ
  defined_addr =
      if elf.st_type sym.st_info == elf.stt_section
      then (do offset ← read (get_elem? sec_addr sym.st_value); done (add32 load_base offset))
      else (do
        offset ← read (get_elem? sec_addr sym.st_shndx)
        let addr = add32 (add32 load_base offset) (bit_and sym.st_value (not32 1))
        done (if bit_and sym.st_value 1 == 0 then addr else bit_or addr 1))

  unfoldable pub sym_value : ℕ → Outcome ℕ
  unfolding defined_addr
  sym_value shnum =
      if sym.st_shndx == elf.shn_undef
      then done 0
      else if sym.st_shndx == elf.shn_abs
      then done sym.st_value
      else if leb elf.shn_loreserve sym.st_shndx
      then done 0
      else if leb shnum sym.st_shndx
      then done 0
      else defined_addr

  -- The last part of `modloader_resolved_sym_addr`, which the source writes out a second time.
  unfoldable pub resolved_addr : Outcome ℕ
  resolved_addr =
      if elf.st_type sym.st_info == elf.stt_section
      then (do offset ← read (get_elem? sec_addr sym.st_value); done (add32 load_base offset))
      else (do
        offset ← read (get_elem? sec_addr sym.st_shndx)
        let addr = add32 (add32 load_base offset) (bit_and sym.st_value (not32 1))
        done (if bit_and sym.st_value 1 == 0 then addr else bit_or addr 1))

  unfoldable pub resolved_sym_addr : ℕ → Outcome ℕ
  unfolding resolved_addr
  resolved_sym_addr shnum =
      if sym.st_shndx == elf.shn_undef
      then done 0
      else if sym.st_shndx == elf.shn_abs
      then done sym.st_value
      else if leb elf.shn_loreserve sym.st_shndx || leb shnum sym.st_shndx
      then done 0
      else resolved_addr

unfoldable pub sym_is_thumb : Elf → Sym → ℕ → Bool
sym_is_thumb elf sym sym_val =
    if not (bit_and sym_val 1 == 0) then true else elf.st_type sym.st_info == elf.stt_func
