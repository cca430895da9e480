-- ===== src/Tests/Samples.antt =====
-- Concrete instances of the parameters of the model, and test data.
use lk_modloader.Base.{
  ℕ, ◌/◌, ◌+◌, ◌*◌, ◌-◌, ◌%◌, refl, List, [], ◌∷◌, Option, none, some, false, ◌==◌, if◌then◌else◌,
  arith, get_elem?,
}
use lk_modloader.Status.{Result, ok, err, err_not_found}
use lk_modloader.Elf.{Elf, Shdr, Sym, Name}
use lk_modloader.Kernel.{Kernel, MmuLaws}

-- A page table: the frame and the flags of a page number.
abbrev pub PageTable : Type 0
PageTable = ℕ → Option (ℕ × ℕ)

abbrev answer : Option (ℕ × ℕ) → Result (ℕ × ℕ)
answer none = err err_not_found
answer (some found) = ok found

-- A kernel that maps pages and does nothing else.
abbrev pub small_kernel : Kernel
small_kernel = record {
  Os = PageTable;
  page_size = 4096;
  roundup = λ a b. (a + (b - 1)) / b * b;
  perm_ro = 8;
  perm_no_execute = 16;
  vmm_alloc = λ os size va. (ok va, os);
  vmm_free_region = λ os va. (ok tt, os);
  arch_mmu_query = λ os va. answer (os (va / 4096));
  arch_mmu_map =
      λ os va pa n flags. (ok tt, λ p. if p == va / 4096 then some (pa, flags) else os p);
  arch_sync_cache_range = λ os start len. os;
  malloc = λ os size. (0x1000, os);
  calloc = λ os n size. (0x1000, os);
  free = λ os a. os;
  bio_open = λ os name. (some 1, os);
  bio_close = λ os dev. os;
  fs_mount = λ os path fs dev. (ok tt, os);
  fs_open_file = λ os path. (ok 3, os);
  fs_stat_file = λ os fh. (ok (record { is_dir = false; size = 2 }), os);
  fs_read_file = λ os fh offset len. (ok (7 ∷ 9 ∷ []), os);
  fs_close_file = λ os fh. os;
  call = λ os a. (42, os);
}

pub small_kernel-MmuLaws : MmuLaws small_kernel
small_kernel-MmuLaws = record {
  page_pos = omega arith;
  ro_ne-zero = λ e. omega (arith, e);
  no_execute_ne-zero = λ e. omega (arith, e);
  query-map_self = λ os va pa flags h. ((pa, flags), ground (arith, h), refl, refl);
  query-map_other = λ os va pa flags other h ne. ground (arith, h, ne);
  query-sync = λ os start len va. refl;
  query-free = λ os p va. refl;
}

-- All pages are mapped, writable and executable.
abbrev pub open_pages : PageTable
open_pages p = some (p * 4096, 0)

-- The constants of ELF32. The sections and symbols of an image are given apart, so that no bytes are
-- decoded.
abbrev pub small_elf : Elf
small_elf = record {
  ehdr_size = 52;
  shdr_size = 40;
  sym_size = 16;
  ehdr_at = λ image. none;
  shdr_at = λ image offset. none;
  sym_at = λ image offset. none;
  rel_at = λ image offset. none;
  rela_at = λ image offset. none;
  elf_magic = 0x7f ∷ b'E' ∷ b'L' ∷ b'F' ∷ [];
  ei_class = 4;
  ei_data = 5;
  elfclass32 = 1;
  elfdata2lsb = 1;
  et_rel = 1;
  em_arm = 40;
  shf_write = 1;
  shf_alloc = 2;
  shf_execinstr = 4;
  sht_progbits = 1;
  sht_symtab = 2;
  sht_rela = 4;
  sht_nobits = 8;
  sht_rel = 9;
  shn_undef = 0;
  shn_loreserve = 0xff00;
  shn_abs = 0xfff1;
  stb_global = 1;
  stb_weak = 2;
  stt_notype = 0;
  stt_object = 1;
  stt_func = 2;
  stt_section = 3;
  st_bind = λ info. info / 16;
  st_type = λ info. info % 16;
  r_sym = λ info. info / 256;
  r_type = λ info. info % 256;
  reloc_none = 0;
  reloc_abs32 = 2;
  reloc_rel32 = 3;
  reloc_thm_pc22 = 10;
  reloc_relative = 23;
}

abbrev section : ℕ → ℕ → Shdr
section flags size = record {
  sh_name = 0;
  sh_type = 1;
  sh_flags = flags;
  sh_offset = 0;
  sh_size = size;
  sh_link = 0;
  sh_info = 0;
  sh_addralign = 4;
  sh_entsize = 0;
}

-- The null section, code, and data.
abbrev pub small_shdrs : ℕ → Option Shdr
small_shdrs i = get_elem? (section 0 0 ∷ section 6 4096 ∷ section 3 100 ∷ []) i

abbrev pub small_sec_addr : List ℕ
small_sec_addr = 0 ∷ 0 ∷ 4096 ∷ []

abbrev pub small_name : Name
small_name = b'f' ∷ b'n' ∷ []

abbrev symbol : ℕ → ℕ → ℕ → Sym
symbol value info shndx = record { st_name = 1; st_value = value; st_info = info; st_shndx = shndx }

-- A global Thumb function in section 1.
abbrev pub thumb_function : Sym
thumb_function = symbol 0x11 0x12 1

-- The section symbol of section 2.
abbrev pub data_section : Sym
data_section = symbol 0 3 2

abbrev pub small_syms : ℕ → Option Sym
small_syms i = get_elem? (symbol 0 0 0 ∷ data_section ∷ thumb_function ∷ []) i

abbrev pub small_symstr : ℕ → Option Name
small_symstr i = some small_name
