-- ===== src/Tests/LayoutCases.antt =====
-- The theorems on relocatable images, at a small image whose structures the ELF parameter gives.
use lk_modloader.Base.{
  ℕ, ◌+◌, ◌<◌, ◌≤◌, ◌≡◌, refl, List, [], ◌∷◌, Option, ◌++◌, some, str_eq, arith, get_elem?,
}
use lk_modloader.Outcome.{done}
use lk_modloader.Action.{◌>>=◌}
use lk_modloader.Elf.{Elf, Ehdr, Shdr, Sym, cstring_at}
use lk_modloader.World.{World, start_up, on_mem, on_os, on_symbols, call_service, ask}
use lk_modloader.Kernel.Resources.{same}
use lk_modloader.Memory.{copy_bytes}
use lk_modloader.Externals.{resolve_externals, resolve_from, resolve_symbol}
use lk_modloader.Rel.{
  load_rel_image, map_image, fill_image, finish_image, copy_from, copy_section, image_bytes,
  resolve_all, resolve_symtab,
}
use lk_modloader.Rel.Relocate.{relocate_from, relocate_section}
use lk_modloader.Rel.FindEntry.{
  entry_name, find_entry, find_entry_from, is_global_function, entry_address, check_header,
  is_arm_rel, is_elf32, shdr_of,
}
use lk_modloader.Wx.{apply_wx_sections, protect_page, remap_page, for_pages}
use lk_modloader.Wx.PageFlags.{page_flags, see_from, see_section, see, on_page, choose_flags}
use lk_modloader.Symbols.{
  symbols_build, index_from, index_symbol, passed_over, skip_module_export, not_exported,
  index_named, starts_with,
}
use lk_modloader.SymValue.{resolved_sym_addr, resolved_addr}
use lk_modloader.Rel.FindEntry.Sound.{IsEntry, IsAddress, IsOther, find_entry_done}
use lk_modloader.Rel.SectionBytes.{HoldsSection, KeepsSection}
use lk_modloader.Rel.Copied.{copied_sections}
use lk_modloader.Load.Composed.{IsLoadedFrom, FindsSymbols, load_rel_image_done}
use lk_modloader.Rel.Layout.{SymTab, place_section, layout_from, layout, find_symtab, read_symtab}
use lk_modloader.Rel.Layout.Placed.{extent, IsAligned, IsAt}
use lk_modloader.Rel.Layout.Disjoint.{sections_inside, sections_apart}
use lk_modloader.Tests.Samples.{small_elf, small_shdrs, small_sec_addr}
use lk_modloader.Tests.Counting.{counting_kernel, nothing_held, counting_kernel-RoundupLaws}

abbrev pub code_header : Shdr
code_header = record {
  sh_name = 0;
  sh_type = 1;
  sh_flags = 6;
  sh_offset = 0;
  sh_size = 4096;
  sh_link = 0;
  sh_info = 0;
  sh_addralign = 4;
  sh_entsize = 0;
}

abbrev data_header : Shdr
data_header = record code_header { sh_flags = 3; sh_size = 100 }

small_layout : layout counting_kernel small_elf small_shdrs 3 ≡ done (4196, small_sec_addr)
unfolding layout layout_from place_section
small_layout = refl

small_extent : extent small_elf small_shdrs 2 1 < 4294967296
unfolding extent
small_extent = omega arith

code-IsAt : IsAt small_elf small_shdrs small_sec_addr 1 1 code_header 0
code-IsAt = record { header = refl; loaded = refl; offset = refl }

data-IsAt : IsAt small_elf small_shdrs small_sec_addr 2 2 data_header 4096
data-IsAt = record { header = refl; loaded = refl; offset = refl }

sections_inside_example : (4096 + 100 ≤ 4196) × IsAligned data_header 4096
sections_inside_example =
    sections_inside counting_kernel counting_kernel-RoundupLaws small_elf small_shdrs 3 4196
      small_sec_addr 2 data_header 4096 small_layout small_extent (omega arith) data-IsAt

sections_apart_example : 0 + 4096 ≤ 4096
sections_apart_example =
    sections_apart counting_kernel counting_kernel-RoundupLaws small_elf small_shdrs 3 4196
      small_sec_addr 1 2 code_header data_header 0 4096 small_layout small_extent (omega arith)
      (omega arith) code-IsAt data-IsAt

-- A section of code, the symbol table and the string table.
abbrev pub tiny_shdrs : List Shdr
tiny_shdrs =
    record code_header { sh_type = 0; sh_flags = 0; sh_size = 0 }
    ∷ record code_header { sh_size = 4 }
    ∷ record code_header { sh_type = 2; sh_flags = 0; sh_size = 2; sh_link = 3 }
    ∷ record code_header { sh_type = 3; sh_flags = 0; sh_size = 0 }
    ∷ []

-- The null symbol, and a global Thumb function.
abbrev tiny_syms : List Sym
tiny_syms =
    record { st_name = 0; st_value = 0; st_info = 0; st_shndx = 0 }
    ∷ record { st_name = 4; st_value = 1; st_info = 0x12; st_shndx = 1 }
    ∷ []

abbrev pub tiny_ehdr : Ehdr
tiny_ehdr = record {
  e_ident = 0x7f ∷ b'E' ∷ b'L' ∷ b'F' ∷ 1 ∷ 1 ∷ [];
  e_type = 1;
  e_machine = 40;
  e_shoff = 0;
  e_shentsize = 1;
  e_shnum = 4;
  e_shstrndx = 3;
}

-- The structures stand for those of the image below, one byte each.
abbrev pub tiny_elf : Elf
tiny_elf = record small_elf {
  ehdr_size = 1;
  shdr_size = 1;
  sym_size = 1;
  ehdr_at = λ image. some tiny_ehdr;
  shdr_at = λ image offset. get_elem? tiny_shdrs offset;
  sym_at = λ image offset. get_elem? tiny_syms offset;
}

-- Four bytes of code, and the name of the function.
abbrev pub tiny_image : List ℕ
tiny_image = 1 ∷ 2 ∷ 3 ∷ 4 ∷ (entry_name ++ 0 ∷ [])

abbrev before : World counting_kernel
before = start_up counting_kernel nothing_held (λ a. 0)

abbrev after : World counting_kernel
after = (load_rel_image counting_kernel tiny_elf 0x80000000 tiny_image 0 before).1

image_loaded :
    load_rel_image counting_kernel tiny_elf 0x80000000 tiny_image 0 before ≡ (done tt, after)
unfolding load_rel_image map_image fill_image finish_image copy_from copy_section image_bytes
    resolve_all resolve_symtab resolve_externals resolve_from resolve_symbol relocate_from
    relocate_section find_entry find_entry_from is_global_function entry_address check_header
    is_arm_rel is_elf32 shdr_of layout layout_from place_section find_symtab read_symtab cstring_at
    apply_wx_sections protect_page page_flags see_from see_section see on_page choose_flags
    remap_page for_pages symbols_build index_from index_symbol passed_over skip_module_export
    not_exported index_named resolved_sym_addr resolved_addr str_eq starts_with on_mem on_os
    on_symbols call_service ask copy_bytes same ◌>>=◌
image_loaded = refl

load_rel_image_done_example :
    (d : IsLoadedFrom counting_kernel tiny_elf tiny_image after) × FindsSymbols counting_kernel
      tiny_elf after d
load_rel_image_done_example =
    load_rel_image_done counting_kernel tiny_elf 0x80000000 tiny_image 0 before after image_loaded

abbrev tiny_symtab : SymTab
tiny_symtab = record {
  syms = λ i. get_elem? tiny_syms i;
  sym_count = 2;
  symstr = λ offset. cstring_at tiny_image offset;
}

entry_found : find_entry tiny_elf tiny_symtab (0 ∷ 0 ∷ []) 0x7f108000 4 ≡ done 0x7f108001
unfolding find_entry find_entry_from is_global_function entry_address not_exported cstring_at str_eq
entry_found = refl

find_entry_done_example :
    (j : ℕ) × (s : Sym) × (j < 2)
    × IsEntry tiny_elf tiny_symtab (0 ∷ 0 ∷ []) 0x7f108000 4 j s
    × IsAddress tiny_elf tiny_symtab (0 ∷ 0 ∷ []) 0x7f108000 4 s 0x7f108001
    × ((n : ℕ) → n < j → IsOther tiny_elf tiny_symtab (0 ∷ 0 ∷ []) 0x7f108000 4 n)
find_entry_done_example =
    find_entry_done tiny_elf tiny_symtab (0 ∷ 0 ∷ []) 0x7f108000 4 0x7f108001 entry_found

abbrev tiny_sec_addr : List ℕ
tiny_sec_addr = 0 ∷ 0 ∷ 0 ∷ 0 ∷ []

abbrev tiny_headers : ℕ → Option Shdr
tiny_headers i = get_elem? tiny_shdrs i

tiny_layout : layout counting_kernel tiny_elf tiny_headers 4 ≡ done (4, tiny_sec_addr)
unfolding layout layout_from place_section
tiny_layout = refl

tiny_extent : extent tiny_elf tiny_headers 3 1 < 4294967296
unfolding extent
tiny_extent = omega arith

abbrev tiny_code : Shdr
tiny_code = record code_header { sh_size = 4 }

tiny_code-IsAt : IsAt tiny_elf tiny_headers tiny_sec_addr 1 1 tiny_code 0
tiny_code-IsAt = record { header = refl; loaded = refl; offset = refl }

abbrev after_copy : World counting_kernel
after_copy =
    (copy_from counting_kernel tiny_elf tiny_image tiny_headers tiny_sec_addr 0x7f108000 3 1
      before).1

tiny_copied :
    copy_from counting_kernel tiny_elf tiny_image tiny_headers tiny_sec_addr 0x7f108000 3 1 before
    ≡ (done tt, after_copy)
unfolding copy_from copy_section image_bytes copy_bytes ◌>>=◌
tiny_copied = refl

copied_sections_example :
    HoldsSection counting_kernel tiny_elf tiny_image tiny_code 0x7f108000 after_copy.mem
    × KeepsSection tiny_elf tiny_code 0x7f108000 before.mem after_copy.mem
copied_sections_example =
    copied_sections counting_kernel counting_kernel-RoundupLaws tiny_elf tiny_image tiny_headers 4 4
      0x7f108000 tiny_sec_addr tiny_layout tiny_extent (omega arith) before after_copy 1 tiny_code 0
      tiny_copied (omega arith) (omega arith) tiny_code-IsAt
