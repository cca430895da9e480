-- ===== src/Rel/FindEntry.antt =====
-- `modloader_find_entry` of app/modloader/modloader_reloc.c, and the tests that
-- `modloader_load_rel_image` makes on the ELF header.
pub mod Sound
use lk_modloader.Base.{
  ℕ, zero, suc, ◌+◌, ◌*◌, List, [], ◌∷◌, Option, none, some, Bool, false, not, ◌&&◌, ◌||◌, bit_and,
  bit_or, ◌==◌, leb, ltb, str_eq, if◌then◌else◌, get_elem?, take, length, add32, not32, u32,
}
use lk_modloader.Status.{err_not_found, err_not_valid}
use lk_modloader.Outcome.{Outcome, done, fail, ◌>>=◌, ◌>>◌, read, check}
use lk_modloader.Elf.{Elf, Ehdr, Shdr, Sym, Name}
use lk_modloader.Symbols.{not_exported}
use lk_modloader.Rel.Layout.{SymTab, beyond}

-- `"payload_entry"`
abbrev pub entry_name : Name
entry_name =
    b'p' ∷ b'a' ∷ b'y' ∷ b'l' ∷ b'o' ∷ b'a' ∷ b'd' ∷ b'_' ∷ b'e' ∷ b'n' ∷ b't' ∷ b'r' ∷ b'y' ∷ []

module _ (elf : Elf) where
  -- `ehdr->e_ident[i] == v`
  abbrev ident_is : Ehdr → ℕ → ℕ → Bool
  ident_is ehdr i v = elim (get_elem? ehdr.e_ident i) [ none ↦ false | some x ↦ x == v ]

  -- The tests of `modloader_load_elf_buffer` of app/modloader/modloader.c.
  unfoldable pub is_elf32 : Ehdr → Bool
  is_elf32 ehdr =
      str_eq (take 4 ehdr.e_ident) elf.elf_magic && ident_is ehdr elf.ei_class elf.elfclass32

  unfoldable pub is_arm_rel : Ehdr → Bool
  unfolding is_elf32
  is_arm_rel ehdr =
      is_elf32 ehdr
      && ident_is ehdr elf.ei_data elf.elfdata2lsb
      && ehdr.e_type == elf.et_rel
      && ehdr.e_machine == elf.em_arm

  -- `shdrs[i]`
  unfoldable pub shdr_of : List ℕ → Ehdr → ℕ → Option Shdr
  shdr_of image ehdr i = elf.shdr_at image (ehdr.e_shoff + i * elf.shdr_size)

  -- The tests on the header before the section headers are used.
  unfoldable pub check_header : List ℕ → Ehdr → Outcome (Unit {0})
  unfolding is_arm_rel shdr_of
  check_header image ehdr = do
    check (not (is_arm_rel ehdr)) err_not_valid
    check (not (ehdr.e_shentsize == elf.shdr_size) || ehdr.e_shnum == 0) err_not_valid
    check (ltb (length image) (add32 ehdr.e_shoff (u32 (ehdr.e_shentsize * ehdr.e_shnum))))
        err_not_valid
    shstrtab ← read (shdr_of image ehdr ehdr.e_shstrndx)
    check (beyond shstrtab image) err_not_valid

  module _ (t : SymTab) (sec_addr : List ℕ) (load_base shnum : ℕ) where
    -- The symbol is a function that other modules see.
    unfoldable pub is_global_function : Sym → Bool
    is_global_function sym = elf.st_type sym.st_info == elf.stt_func && not (not_exported elf sym)

    -- The address of a symbol called `payload_entry`.
    unfoldable pub entry_address : Sym → Outcome ℕ
    entry_address sym =
        if sym.st_shndx == elf.shn_undef || leb shnum sym.st_shndx then fail err_not_found else do
          offset ← read (get_elem? sec_addr sym.st_shndx)
          let addr = add32 (add32 load_base offset) (bit_and sym.st_value (not32 1))
          done (if bit_and sym.st_value 1 == 0 then addr else bit_or addr 1)

    -- The loop from symbol `i`, with `left` symbols to go.
    unfoldable pub find_entry_from : ℕ → ℕ → Outcome ℕ
    unfolding is_global_function entry_address
    find_entry_from zero i = fail err_not_found
    find_entry_from (suc left) i = do
      sym ← read (t.syms i)
      let rest = find_entry_from left (i + 1)
      if not (is_global_function sym) then rest else (do
        name ← read (t.symstr sym.st_name)
        if str_eq name entry_name then entry_address sym else rest)

    unfoldable pub find_entry : Outcome ℕ
    unfolding find_entry_from
    find_entry = find_entry_from t.sym_count 0
