-- ===== src/Lib.antt =====
-- lk-modloader: a loader of code modules for the LK kernel on 32-bit ARM. It loads prelinked blobs
-- and relocatable ELF files, from images built into the kernel or from files, relocates them against
-- the kernel's export table, makes their pages either writable or executable, runs them, and unloads
-- them.
--
-- The parts of the program, and the files that model them:
--   * app/modloader/modloader_reloc.c, relocations: Reloc.Insn has the instruction fields (functions
--     modloader_reloc_addend_* and modloader_reloc_encode_*), Reloc.Apply has
--     modloader_reloc_read_addend and modloader_apply_arm_reloc, with one constructor of RelocType
--     for each type that the source names. Each `_addend_` and `_encode_` function of the source is a
--     pure function on instruction words, and a function that loads or stores them.
--   * app/modloader/modloader_reloc.c and app/modloader/modloader_symbols.c, symbol values:
--     SymValue has modloader_sym_value, modloader_sym_is_thumb and modloader_resolved_sym_addr, which
--     the source writes out twice and so does the model.
--   * app/modloader/modloader_export.c, the table that payloads import from: Export has
--     modloader_export_register, _unregister, modloader_lookup_export and the table; Export.Table has
--     the lemmas on the table's loops.
--   * app/modloader/modloader_symbols.c, the index of what a loaded module exports: Symbols has
--     modloader_symbols_build and the loop of modloader_lookup_symbol.
--   * app/modloader/modloader_wx.c, page permissions: Wx.PageFlags has modloader_page_flags, and Wx
--     has modloader_remap_page, modloader_apply_wx_split, modloader_apply_wx_sections and
--     modloader_verify_wx; Wx.Pages has the lemmas on their page loops.
--   * app/modloader/modloader_reloc.c, the load pipeline: Exec has modloader_load_exec_blob; Rel has
--     modloader_load_rel_image, with its layout and its search of the symbol table in Rel.Layout, its
--     header checks and modloader_find_entry in Rel.FindEntry, and its relocation loops in Rel.Entry
--     and Rel.Relocate, and the sections at which these stop without a free in Rel.Malformed;
--     Externals has modloader_resolve_externals of app/modloader/modloader_export.c.
--   * app/modloader/modloader_fetch.c, images out of files: Fetch.
--   * app/modloader/modloader.c, the operations: Api, with modloader_lookup_symbol of
--     app/modloader/modloader_symbols.c. World is the state that they share: modloader_mod, the export
--     table, the index of symbols, the mount flag, the memory and the kernel. Load has the theorems on
--     loads and unloads as a whole, with what is held after a load in Load.Balance, Load.Images and
--     Load.Released, and what a load has checked in Load.Accepted.
--   * app/modloader/modloader_shell.c, the command `modtest`: Shell has cmd_modtest, with one
--     constructor of Subcommand for each branch that does something different.
--   * Calls is the program as its clients use it: a step relation with one constructor for each
--     operation of app/modloader/modloader.c, for the two that change the export table, and for the
--     command, and the states that steps lead to from start-up.
-- Base, Status, Outcome, Action and Memory are shared: numbers and bits, `status_t`, results of code
-- that reads through pointers, code that changes a state, and byte-addressed memory. Elf and Kernel
-- are records that stand for lib/elf_defines.h and for the services of the LK kernel and the C heap,
-- which are not in the repository. What the loader relies on of them are records of laws, beside the
-- services: Kernel.MmuLaws of the MMU, Kernel.PageLaws and Kernel.RoundupLaws of ROUNDUP, and
-- Kernel.Resources of the services that hand out mappings, heap blocks, files and devices.
-- Export.Directory is an independent description of the export table: a map with a count.
-- Tests has concrete instances of both records, and the theorems at concrete inputs.
--
-- How the code is modelled: a function that changes a static object takes the object and gives the
-- new one back (Action); a read outside an object is a `fault`. Addresses and `size_t` are 32-bit and
-- their sums wrap (add32, sub32). A loop over an array has the number of entries left as its
-- argument. A page loop has fuel for one round more than the mapping has bytes: a page has at least
-- one byte, and a mapping is a number of whole pages below 2 ^ 32, so that the offset does not wrap
-- before it reaches the end.
--
-- Not modelled: the text that is printed; cache and barrier instructions beyond the kernel's cache
-- service; the payloads, the linker scripts and the build rules, which make the images. Memory has a byte
-- at every address: a write of the loader outside its mapping is a write there, not a fault. What a
-- payload does when it is run is the kernel record's `call`.
pub mod Base
pub mod Status
pub mod Outcome
pub mod Memory
pub mod Reloc
pub mod Elf
pub mod Export
pub mod Action
pub mod SymValue
pub mod Symbols
pub mod Kernel
pub mod Wx
pub mod World
pub mod Fetch
pub mod Load
pub mod Externals
pub mod Exec
pub mod Rel
pub mod Api
pub mod Shell
pub mod Calls
pub mod Tests
