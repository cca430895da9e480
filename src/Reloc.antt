-- ===== src/Reloc.antt =====
-- Relocations of app/modloader/modloader_reloc.c: the instruction fields, and the relocation types.
pub mod Insn
pub mod Apply
