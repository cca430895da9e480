-- ===== src/Tests/LeakCases.antt =====
-- What a load that fails gives back, at an image whose relocation section names a section that is not
-- in the table.
use lk_modloader.Base.{ℕ, ◌≡◌, ◌≢◌, ◌⊎◌, refl, List, [], ◌∷◌, ◌++◌, some, true, str_eq, get_elem?}
use lk_modloader.Status.{err_not_valid}
use lk_modloader.Outcome.{done, fail}
use lk_modloader.Action.{◌>>=◌}
use lk_modloader.Elf.{Elf, Shdr, Name, cstring_at}
use lk_modloader.Memory.{copy_bytes, read32, write32}
use lk_modloader.Rel.Malformed.{IsMalformed}
use lk_modloader.Load.Accepted.{load_rel_image_checked}
use lk_modloader.Rel.Entry.{
  read_entry, reloc_type, implicit_addend, is_relative, divide, entry_symbol, entry_value,
  own_value,
}
use lk_modloader.SymValue.{sym_value, defined_addr, sym_is_thumb, resolved_sym_addr, resolved_addr}
use lk_modloader.Reloc.Apply.{apply_arm_reloc, reloc_target}
use lk_modloader.Wx.{apply_wx_sections, protect_page, remap_page, for_pages}
use lk_modloader.Wx.PageFlags.{page_flags, see_from, see_section, see, on_page, choose_flags}
use lk_modloader.Externals.{resolve_externals, resolve_from, resolve_symbol}
use lk_modloader.Kernel.Resources.{block, same, Agrees, Gains}
use lk_modloader.World.{World, start_up, on_mem, on_os, on_symbols, call_service, ask}
use lk_modloader.Symbols.{
  not_exported, symbols_build, index_from, index_symbol, passed_over, skip_module_export,
  index_named, starts_with,
}
use lk_modloader.Rel.{
  load_rel_image, map_image, fill_image, finish_image, copy_from, copy_section, image_bytes,
  resolve_all, resolve_symtab,
}
use lk_modloader.Rel.Relocate.{
  relocate_from, relocate_section, relocate_target, relocate_entries, relocate_entry,
}
use lk_modloader.Rel.FindEntry.{
  find_entry, find_entry_from, is_global_function, entry_address, check_header, is_arm_rel,
  is_elf32, shdr_of,
}
use lk_modloader.Rel.Layout.{layout, layout_from, place_section, find_symtab, read_symtab}
use lk_modloader.Api.{
  Payloads, load_embedded, load_embedded_elf, load_elf_buffer, load_uri, parse_embed_uri,
  embedded_bytes,
}
use lk_modloader.Load.Released.{IsUriMalformed, load_uri_releases}
use lk_modloader.Tests.Counting.{counting_kernel, nothing_held, counting_kernel-ResourceLaws}
use lk_modloader.Tests.LayoutCases.{code_header, tiny_shdrs, tiny_ehdr, tiny_elf, tiny_image}

-- Relocations of section 99.
abbrev misplaced_header : Shdr
misplaced_header = record code_header { sh_type = 9; sh_flags = 0; sh_size = 0; sh_info = 99 }

abbrev misplaced_shdrs : List Shdr
misplaced_shdrs = tiny_shdrs ++ misplaced_header ∷ []

abbrev misplaced_elf : Elf
misplaced_elf = record tiny_elf {
  ehdr_at = λ image. some (record tiny_ehdr { e_shnum = 5 });
  shdr_at = λ image offset. get_elem? misplaced_shdrs offset;
}

abbrev rel_payloads : Payloads
rel_payloads = record {
  exec = [];
  rel = tiny_image;
  sym = [];
  imported = [];
  entry_vaddr = 0;
  rx_size = 0;
}

-- `"embed:rel"`
abbrev rel_uri : Name
rel_uri = b'e' ∷ b'm' ∷ b'b' ∷ b'e' ∷ b'd' ∷ b':' ∷ b'r' ∷ b'e' ∷ b'l' ∷ []

abbrev before_load : World counting_kernel
before_load = start_up counting_kernel nothing_held (λ a. 0)

abbrev after_leak : World counting_kernel
after_leak =
    (load_uri counting_kernel misplaced_elf 0x80000000 rel_payloads (some rel_uri) 0 before_load).1

misplaced_refused :
    load_uri counting_kernel misplaced_elf 0x80000000 rel_payloads (some rel_uri) 0 before_load
    ≡ (fail err_not_valid, after_leak)
unfolding load_uri parse_embed_uri load_embedded load_embedded_elf embedded_bytes load_elf_buffer
    load_rel_image map_image fill_image copy_from copy_section image_bytes resolve_all
    resolve_symtab resolve_externals resolve_from resolve_symbol relocate_from relocate_section
    check_header is_arm_rel is_elf32 shdr_of layout layout_from place_section find_symtab
    read_symtab cstring_at not_exported str_eq on_mem on_os call_service ask copy_bytes same ◌>>=◌
misplaced_refused = refl

-- The block that `calloc` gave is held when the load has failed.
block_kept : after_leak.os (block 0x2000) ≡ true
unfolding load_uri parse_embed_uri load_embedded load_embedded_elf embedded_bytes load_elf_buffer
    load_rel_image map_image fill_image copy_from copy_section image_bytes resolve_all
    resolve_symtab resolve_externals resolve_from resolve_symbol relocate_from relocate_section
    check_header is_arm_rel is_elf32 shdr_of layout layout_from place_section find_symtab
    read_symtab cstring_at not_exported str_eq on_mem on_os call_service ask copy_bytes same ◌>>=◌
block_kept = refl

load_uri_releases_example :
    Agrees
      (counting_kernel-ResourceLaws.held after_leak.os)
      (counting_kernel-ResourceLaws.held before_load.os)
    ⊎ (IsUriMalformed counting_kernel misplaced_elf rel_payloads (some rel_uri) before_load
        × ((b : ℕ) × (b ≢ 0)
            × Gains
                (counting_kernel-ResourceLaws.held before_load.os)
                (block b)
                (counting_kernel-ResourceLaws.held after_leak.os)))
load_uri_releases_example =
    load_uri_releases counting_kernel counting_kernel-ResourceLaws misplaced_elf 0x80000000
      rel_payloads (some rel_uri) 0 before_load after_leak err_not_valid misplaced_refused

-- One relocation of the section of code, of type R_ARM_ABS32 and the payload's function.
abbrev placed_shdrs : List Shdr
placed_shdrs =
    tiny_shdrs ++ record misplaced_header { sh_info = 1; sh_size = 1; sh_entsize = 1 } ∷ []

abbrev placed_elf : Elf
placed_elf = record misplaced_elf {
  shdr_at = λ image offset. get_elem? placed_shdrs offset;
  rel_at = λ image offset. some (record { r_offset = 0; r_info = 0x102 });
}

abbrev after_placed : World counting_kernel
after_placed = (load_rel_image counting_kernel placed_elf 0x80000000 tiny_image 0 before_load).1

placed_loaded :
    load_rel_image counting_kernel placed_elf 0x80000000 tiny_image 0 before_load
    ≡ (done tt, after_placed)
unfolding load_rel_image map_image fill_image finish_image copy_from copy_section image_bytes
    resolve_all resolve_symtab resolve_externals resolve_from resolve_symbol relocate_from
    relocate_section relocate_target relocate_entries relocate_entry read_entry reloc_type
    implicit_addend is_relative divide entry_symbol entry_value own_value sym_value defined_addr
    sym_is_thumb apply_arm_reloc reloc_target read32 write32 find_entry find_entry_from
    is_global_function entry_address check_header is_arm_rel is_elf32 shdr_of layout layout_from
    place_section find_symtab read_symtab cstring_at apply_wx_sections protect_page page_flags
    see_from see_section see on_page choose_flags remap_page for_pages symbols_build index_from
    index_symbol passed_over skip_module_export not_exported index_named resolved_sym_addr
    resolved_addr str_eq starts_with on_mem on_os on_symbols call_service ask copy_bytes same ◌>>=◌
placed_loaded = refl

load_rel_image_checked_example : ¬ IsMalformed placed_elf tiny_image
load_rel_image_checked_example =
    load_rel_image_checked counting_kernel placed_elf 0x80000000 tiny_image 0 before_load
      after_placed placed_loaded
