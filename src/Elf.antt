-- ===== src/Elf.antt =====
-- The ELF32 structures and constants that the loader takes from lib/elf_defines.h, which is not part
-- of the repository: the record `Elf` is a parameter of every definition that uses them. Its `_at`
-- fields are the C casts that read a structure out of the bytes of an image, `none` where it does not
-- lie within them.
use lk_modloader.Base.{ℕ, zero, suc, List, [], ◌∷◌, Option, none, some, drop}

pub record Ehdr : Type 0 where
  pub e_ident : List ℕ
  pub e_type : ℕ
  pub e_machine : ℕ
  pub e_shoff : ℕ
  pub e_shentsize : ℕ
  pub e_shnum : ℕ
  pub e_shstrndx : ℕ

pub record Shdr : Type 0 where
  pub sh_name : ℕ
  pub sh_type : ℕ
  pub sh_flags : ℕ
  pub sh_offset : ℕ
  pub sh_size : ℕ
  pub sh_link : ℕ
  pub sh_info : ℕ
  pub sh_addralign : ℕ
  pub sh_entsize : ℕ

pub record Sym : Type 0 where
  pub st_name : ℕ
  pub st_value : ℕ
  pub st_info : ℕ
  pub st_shndx : ℕ

pub record Rel : Type 0 where
  pub r_offset : ℕ
  pub r_info : ℕ

pub record Rela : Type 0 where
  pub r_offset : ℕ
  pub r_info : ℕ
  pub r_addend : ℕ

pub record Elf : Type 0 where
  pub ehdr_size : ℕ
  pub shdr_size : ℕ
  pub sym_size : ℕ
  pub ehdr_at : List ℕ → Option Ehdr
  pub shdr_at : List ℕ → ℕ → Option Shdr
  pub sym_at : List ℕ → ℕ → Option Sym
  pub rel_at : List ℕ → ℕ → Option Rel
  pub rela_at : List ℕ → ℕ → Option Rela
  pub elf_magic : List ℕ
  pub ei_class : ℕ
  pub ei_data : ℕ
  pub elfclass32 : ℕ
  pub elfdata2lsb : ℕ
  pub et_rel : ℕ
  pub em_arm : ℕ
  pub shf_write : ℕ
  pub shf_alloc : ℕ
  pub shf_execinstr : ℕ
  pub sht_progbits : ℕ
  pub sht_symtab : ℕ
  pub sht_rela : ℕ
  pub sht_nobits : ℕ
  pub sht_rel : ℕ
  pub shn_undef : ℕ
  pub shn_loreserve : ℕ
  pub shn_abs : ℕ
  pub stb_global : ℕ
  pub stb_weak : ℕ
  pub stt_notype : ℕ
  pub stt_object : ℕ
  pub stt_func : ℕ
  pub stt_section : ℕ
  -- `ELF32_ST_BIND`, `ELF32_ST_TYPE`, `ELF32_R_SYM` and `ELF32_R_TYPE`
  pub st_bind : ℕ → ℕ
  pub st_type : ℕ → ℕ
  pub r_sym : ℕ → ℕ
  pub r_type : ℕ → ℕ
  -- `R_ARM_NONE`, `R_ARM_ABS32`, `R_ARM_REL32`, `R_ARM_THM_PC22` and `R_ARM_RELATIVE`
  pub reloc_none : ℕ
  pub reloc_abs32 : ℕ
  pub reloc_rel32 : ℕ
  pub reloc_thm_pc22 : ℕ
  pub reloc_relative : ℕ

-- A C string: the bytes before its terminator.
abbrev pub Name : Type 0
Name = List ℕ

until_nul : List ℕ → Option Name
until_nul [] = none
until_nul (zero ∷ xs) = some []
until_nul (suc x ∷ xs) = elim (until_nul xs) [ none ↦ none | some s ↦ some (suc x ∷ s) ]

-- The C string at an offset of the image; `none` if it runs past the end.
unfoldable pub cstring_at : List ℕ → ℕ → Option Name
unfolding until_nul
cstring_at image offset = until_nul (drop offset image)
