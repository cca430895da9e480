-- ===== src/Rel.antt =====
-- `modloader_load_rel_image` of app/modloader/modloader_reloc.c: a relocatable ELF file. `image` is the
-- bytes of the file, so that `image_size` is its length. Every error after the mapping is made frees
-- it. `sym_resolved` is freed where resolving fails, where a relocation entry fails, and after the
-- relocations; the two errors of a relocation section itself return without freeing it.
pub mod Layout
pub mod FindEntry
pub mod Entry
pub mod Relocate
pub mod Ending
pub mod SectionBytes
pub mod Copied
pub mod Writing
pub mod Malformed
use lk_modloader.Base.{
  ℕ, zero, suc, ◌+◌, ◌-◌, List, [], ◌∷◌, Option, none, some, Bool, true, false, not, ◌==◌, leb, ltb,
  if◌then◌else◌, get_elem?, take, drop, length, add32,
}
use lk_modloader.Status.{
  err_not_valid, err_already_exists, err_not_found, err_no_memory, err_invalid_args,
}
use lk_modloader.Outcome.{Outcome, done, fail, fault, read}
use lk_modloader.Action.{Action, ◌>>=◌, ◌>>◌, pure, raise, lift, gets, modify, guard, on_error}
use lk_modloader.Memory.{Memory, copy_bytes, zero_bytes}
use lk_modloader.Elf.{Elf, Ehdr, Shdr}
use lk_modloader.Kernel.{Kernel}
use lk_modloader.Externals.{resolve_externals}
use lk_modloader.Symbols.{symbols_build}
use lk_modloader.Wx.{apply_wx_sections}
use lk_modloader.Wx.PageFlags.{has_flag}
use lk_modloader.World.{
  World, modloader_rel, payload_load_vaddr, on_os, on_symbols, call_service, ask, with_os, with_mem,
  with_module, clear_index, free_region, free_heap,
}
use Layout.{SymTab, layout, find_symtab, beyond}
use FindEntry.{check_header, shdr_of, find_entry}
use Relocate.{relocate_from}

-- The bytes that `memcpy` takes out of the image.
unfoldable pub image_bytes : List ℕ → ℕ → ℕ → Option (List ℕ)
image_bytes image offset size =
    if leb (offset + size) (length image) then some (take size (drop offset image)) else none

module _ (k : Kernel) where
  module _ (elf : Elf) (image : List ℕ) where
    -- One section of the copy loop.
    unfoldable pub copy_section : Shdr → ℕ → Action (World k) (Unit {0})
    copy_section shdr dest =
        if shdr.sh_type == elf.sht_progbits
        then (do
          guard (beyond shdr image) err_not_valid
          bytes ← lift (read (image_bytes image shdr.sh_offset shdr.sh_size))
          modify (with_mem k (λ mem. copy_bytes mem dest bytes)))
        else (if shdr.sh_type == elf.sht_nobits
            then modify (with_mem k (λ mem. zero_bytes mem dest shdr.sh_size))
            else pure tt)

    -- The loop from section `i`, with `left` sections to go.
    unfoldable pub copy_from : (ℕ → Option Shdr) → List ℕ → ℕ → ℕ → ℕ → Action (World k) (Unit {0})
    unfolding copy_section
    copy_from shdrs sec_addr base zero i = pure tt
    copy_from shdrs sec_addr base (suc left) i = do
      shdr ← lift (read (shdrs i))
      if not (has_flag shdr.sh_flags elf.shf_alloc) then pure tt else (do
        offset ← lift (read (get_elem? sec_addr i))
        copy_section shdr (add32 base offset))
      copy_from shdrs sec_addr base left (i + 1)

  module _ (elf : Elf) (add_addr : ℕ) where
    -- `sym_resolved`: the address that `calloc` gave, 0 where nothing was allocated, and its contents.
    unfoldable pub resolve_symtab : SymTab → Action (World k) (ℕ × Option (List ℕ))
    resolve_symtab t = if t.sym_count == 0 then pure (0, none) else do
      ptr ← ask k (λ os. k.calloc os t.sym_count 4)
      guard (ptr == 0) err_no_memory
      table ← gets (λ w. w.exports)
      addrs ←
          on_error (free_heap k ptr)
            (lift (resolve_externals elf add_addr table t.symstr t.syms t.sym_count))
      pure (ptr, some addrs)

    unfoldable pub resolve_all : Option SymTab → Action (World k) (ℕ × Option (List ℕ))
    unfolding resolve_symtab
    resolve_all none = pure (0, none)
    resolve_all (some t) = resolve_symtab t

    module _ (image : List ℕ) (shdrs : ℕ → Option Shdr) (shnum base total_size map_size : ℕ)
        (sec_addr : List ℕ) where
      -- From the relocations' end on: the entry, the permissions, and the index of symbols.
      unfoldable pub finish_image : Option SymTab → Action (World k) ℕ
      finish_image none = raise err_not_found
      finish_image (some t) = do
        entry ← lift (find_entry elf t sec_addr base shnum)
        on_os k (apply_wx_sections k elf shdrs shnum sec_addr base map_size)
        modify (with_os k (λ os. k.arch_sync_cache_range os base total_size))
        on_symbols k
            (symbols_build elf (some t.syms) t.sym_count (some t.symstr) base sec_addr shnum)
        pure entry

      -- Everything between the mapping and the fields of `modloader_mod`.
      unfoldable pub fill_image : Action (World k) ℕ
      unfolding finish_image
      fill_image = do
        copy_from elf image shdrs sec_addr base (shnum - 1) 1
        symtab ← lift (find_symtab elf image shdrs (shnum - 1) 1)
        resolved ← resolve_all symtab
        relocate_from elf symtab resolved.1 base sec_addr shnum image shdrs k resolved.0 (shnum - 1)
            1
        modify (free_heap k resolved.0)
        finish_image symtab

    -- From the layout on.
    unfoldable pub map_image : List ℕ → Ehdr → Action (World k) (Unit {0})
    map_image image ehdr = do
      let shdrs = shdr_of elf image ehdr
      (total_size, sec_addr) ← lift (layout k elf shdrs ehdr.e_shnum)
      guard (total_size == 0) err_not_valid
      let map_size = k.roundup total_size k.page_size
      base ← call_service k (λ os. k.vmm_alloc os map_size payload_load_vaddr)
      entry ←
          on_error (free_region k base)
            (fill_image image shdrs ehdr.e_shnum base total_size map_size sec_addr)
      modify (
          with_module k (record {
            loaded = true;
            wx = true;
            kind = modloader_rel;
            base = base;
            size = map_size;
            entry = entry;
          }))

    -- The flags are not used.
    unfoldable pub load_rel_image : List ℕ → ℕ → Action (World k) (Unit {0})
    load_rel_image image flags = do
      guard (ltb (length image) elf.ehdr_size) err_not_valid
      loaded ← gets (λ w. w.current.loaded)
      guard loaded err_already_exists
      modify (clear_index k)
      ehdr ← lift (read (elf.ehdr_at image))
      lift (check_header elf image ehdr)
      map_image image ehdr
