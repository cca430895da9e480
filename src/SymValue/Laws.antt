-- ===== src/SymValue/Laws.antt =====
-- What the value of a symbol is.
use lk_modloader.Base.{
  ℕ, ◌+◌, ◌*◌, ◌/◌, ◌%◌, ◌^◌, ◌<◌, ◌≡◌, ◌≢◌, List, some, arith, and_mask, or-one, get_elem?, add32,
  u32,
}
use lk_modloader.Outcome.{done}
use lk_modloader.Elf.{Elf, Sym}
use lk_modloader.Reloc.Apply.Data.{without_thumb_bit}
use lk_modloader.SymValue.{defined_addr, resolved_addr, sym_value, resolved_sym_addr}

-- The symbol is defined in a section that the loader has an address for.
pub record IsDefined (elf : Elf) (sym : Sym) (shnum : ℕ) : Type 0 where
  pub not_undef : sym.st_shndx ≢ elf.shn_undef
  pub not_abs : sym.st_shndx ≢ elf.shn_abs
  pub not_reserved : sym.st_shndx < elf.shn_loreserve
  pub in_range : sym.st_shndx < shnum

module _ (elf : Elf) (sym : Sym) (load_base : ℕ) (sec_addr : List ℕ) (shnum : ℕ) where
  -- The relocator and the symbol index, two separate functions of the source with separate bodies,
  -- give every symbol the same value, and fault on the same symbols.
  pub sym_value-eq-resolved :
      sym_value elf sym load_base sec_addr shnum
      ≡ resolved_sym_addr elf sym load_base sec_addr shnum
  unfolding sym_value resolved_sym_addr defined_addr resolved_addr
  sym_value-eq-resolved = ground arith

  value_of_defined :
      IsDefined elf sym shnum
      → sym_value elf sym load_base sec_addr shnum ≡ defined_addr elf sym load_base sec_addr
  unfolding sym_value
  value_of_defined d = ground arith

  -- A symbol that is no section symbol, defined in a section that the loader has an offset for,
  -- with a section that starts at an even address, has the value load_base + offset + st_value
  -- modulo 2 ^ 32, Thumb bit included.
  pub sym_value_defined :
      (offset : ℕ)
      → IsDefined elf sym shnum
      → elf.st_type sym.st_info ≢ elf.stt_section
      → get_elem? sec_addr sym.st_shndx ≡ some offset
      → sym.st_value < 2 ^ 32
      → (load_base + offset) % 2 ≡ 0
      → sym_value elf sym load_base sec_addr shnum ≡ done (u32 (load_base + offset + sym.st_value))
  unfolding defined_addr
  sym_value_defined offset d plain at small even =
      let addr = add32 (add32 load_base offset) (sym.st_value / 2 * 2) in
      ground (
        arith,
        value_of_defined d,
        without_thumb_bit sym.st_value small,
        and_mask 1 sym.st_value,
        or-one addr,
      )
