-- ===== src/Rel/Entry.antt =====
-- One relocation entry of `modloader_load_rel_image` of app/modloader/modloader_reloc.c: how it is
-- read, and the value of its symbol.
use lk_modloader.Base.{
  ℕ, ◌/◌, List, Option, none, some, Bool, true, false, not, ◌==◌, ltb, if◌then◌else◌, get_elem?,
  add32,
}
use lk_modloader.Status.{err_not_valid}
use lk_modloader.Outcome.{Outcome, done, fail, fault, ◌>>=◌, read}
use lk_modloader.Elf.{Elf, Sym}
use lk_modloader.Memory.{Memory, read32}
use lk_modloader.Reloc.Apply.{
  RelocType, r_arm_none, r_arm_thm_pc12, r_arm_abs32, r_arm_glob_dat, r_arm_jump_slot,
  r_arm_target2, r_arm_relative, r_arm_rel32, r_arm_prel31, r_arm_call, r_arm_jump24,
  r_arm_thm_call, r_arm_thm_jump24, r_arm_movw_abs_nc, r_arm_thm_movw_abs_nc, r_arm_movt_abs,
  r_arm_thm_movt_abs, unknown, reloc_read_addend,
}
use lk_modloader.SymValue.{sym_value, sym_is_thumb}
use lk_modloader.Rel.Layout.{SymTab}

-- The relocation entry that a round reads.
pub record RelocEntry : Type 0 where
  pub sym_idx : ℕ
  pub ty : RelocType
  pub offset : ℕ
  pub addend : ℕ
  pub is_rela : Bool

-- The numbers of modloader_priv.h and of the ELF header.
unfoldable pub reloc_type : Elf → ℕ → RelocType
reloc_type elf n =
    if n == elf.reloc_none
    then r_arm_none
    else if n == elf.reloc_abs32
    then r_arm_abs32
    else if n == elf.reloc_rel32
    then r_arm_rel32
    else if n == elf.reloc_thm_pc22
    then r_arm_thm_call
    else if n == elf.reloc_relative
    then r_arm_relative
    else if n == 54
    then r_arm_thm_pc12
    else if n == 28
    then r_arm_call
    else if n == 29
    then r_arm_jump24
    else if n == 30
    then r_arm_thm_jump24
    else if n == 43
    then r_arm_movw_abs_nc
    else if n == 44
    then r_arm_movt_abs
    else if n == 47
    then r_arm_thm_movw_abs_nc
    else if n == 48
    then r_arm_thm_movt_abs
    else if n == 42
    then r_arm_prel31
    else if n == 21
    then r_arm_glob_dat
    else if n == 22
    then r_arm_jump_slot
    else if n == 41
    then r_arm_target2
    else unknown n

-- The switch on the type of an `SHT_REL` entry: the addend that stands at the place.
unfoldable pub implicit_addend : RelocType → Memory → ℕ → ℕ
implicit_addend r_arm_abs32 m place = read32 m place
implicit_addend r_arm_glob_dat m place = read32 m place
implicit_addend r_arm_jump_slot m place = read32 m place
implicit_addend r_arm_rel32 m place = read32 m place
implicit_addend r_arm_thm_call m place = reloc_read_addend r_arm_thm_call m place
implicit_addend r_arm_thm_jump24 m place = reloc_read_addend r_arm_thm_jump24 m place
implicit_addend r_arm_call m place = reloc_read_addend r_arm_call m place
implicit_addend r_arm_jump24 m place = reloc_read_addend r_arm_jump24 m place
implicit_addend r_arm_thm_movw_abs_nc m place = reloc_read_addend r_arm_thm_movw_abs_nc m place
implicit_addend r_arm_thm_movt_abs m place = reloc_read_addend r_arm_thm_movt_abs m place
implicit_addend r_arm_movw_abs_nc m place = reloc_read_addend r_arm_movw_abs_nc m place
implicit_addend r_arm_movt_abs m place = reloc_read_addend r_arm_movt_abs m place
implicit_addend _ m place = 0

-- `type == R_ARM_RELATIVE`
unfoldable pub is_relative : RelocType → Bool
is_relative r_arm_relative = true
is_relative _ = false

-- C leaves a division by 0 undefined.
unfoldable pub divide : ℕ → ℕ → Outcome ℕ
divide a b = if b == 0 then fault else done (a / b)

module _ (elf : Elf) (image : List ℕ) where
  -- The entry at an offset of the image, of a section whose target starts at `target`.
  unfoldable pub read_entry : Bool → ℕ → ℕ → Memory → Outcome RelocEntry
  read_entry true target at m = do
    rel ← read (elf.rel_at image at)
    let ty = reloc_type elf (elf.r_type rel.r_info)
    done (record {
      sym_idx = elf.r_sym rel.r_info;
      ty = ty;
      offset = rel.r_offset;
      addend = implicit_addend ty m (add32 target rel.r_offset);
      is_rela = false;
    })
  read_entry false target at m = do
    rela ← read (elf.rela_at image at)
    done (record {
      sym_idx = elf.r_sym rela.r_info;
      ty = reloc_type elf (elf.r_type rela.r_info);
      offset = rela.r_offset;
      addend = rela.r_addend;
      is_rela = true;
    })

-- What the loops share: `resolved` is `none` where `sym_resolved` is null.
module _ (elf : Elf) (symtab : Option SymTab) (resolved : Option (List ℕ)) (load_base : ℕ)
    (sec_addr : List ℕ) (shnum : ℕ) where
  -- The value that a symbol has if it was not resolved to an export.
  unfoldable pub own_value : Sym → ℕ → Outcome ℕ
  own_value sym found =
      if found == 0 then sym_value elf sym load_base sec_addr shnum else done found

  unfoldable pub entry_value : Sym → ℕ → Outcome ℕ
  unfolding own_value
  entry_value sym i =
      if not (sym.st_shndx == elf.shn_undef) then own_value sym 0 else elim resolved [
        | none ↦ own_value sym 0
        | some addrs ↦ do found ← read (get_elem? addrs i); own_value sym found
      ]

  -- An index that is not in the table; only `R_ARM_RELATIVE` needs no symbol.
  unfoldable pub no_symbol : RelocType → Outcome (ℕ × Bool)
  no_symbol ty = if is_relative ty then done (load_base, false) else fail err_not_valid

  -- `sym_val` and `sym_thumb`.
  unfoldable pub entry_symbol : RelocEntry → Outcome (ℕ × Bool)
  unfolding no_symbol
  entry_symbol e = elim symtab [
    | none ↦ no_symbol e.ty
    | some t ↦ if not (ltb e.sym_idx t.sym_count) then no_symbol e.ty else (do
      sym ← read (t.syms e.sym_idx)
      value ← entry_value sym e.sym_idx
      let sym_val = if is_relative e.ty then load_base else value
      done (sym_val, sym_is_thumb elf sym sym_val))
  ]
