-- ===== src/Rel/Relocate.antt =====
-- The relocation loops of `modloader_load_rel_image` of app/modloader/modloader_reloc.c. The state of
-- the inner loop is the memory, and `sym_resolved` is the address of the heap block that the resolved
-- symbols are in, 0 where there is none.
use lk_modloader.Base.{
  ℕ, zero, suc, ◌+◌, ◌*◌, List, Option, not, ◌&&◌, ◌==◌, leb, if◌then◌else◌, get_elem?, add32, Bool,
}
use lk_modloader.Status.{err_not_valid}
use lk_modloader.Outcome.{read, of_result}
use lk_modloader.Action.{Action, ◌>>=◌, ◌>>◌, pure, lift, gets, modify, guard, on_error}
use lk_modloader.Elf.{Elf, Shdr}
use lk_modloader.Kernel.{Kernel}
use lk_modloader.Memory.{Memory}
use lk_modloader.World.{World, on_mem, free_heap}
use lk_modloader.Reloc.Apply.{apply_arm_reloc}
use lk_modloader.Wx.PageFlags.{has_flag}
use lk_modloader.Rel.Layout.{SymTab, beyond}
use lk_modloader.Rel.Entry.{read_entry, entry_symbol, divide}

module _ (elf : Elf) (symtab : Option SymTab) (resolved : Option (List ℕ)) (load_base : ℕ)
    (sec_addr : List ℕ) (shnum : ℕ) (image : List ℕ) (shdrs : ℕ → Option Shdr) where
  -- One round of the inner loop.
  unfoldable pub relocate_entry : Bool → ℕ → ℕ → Action Memory (Unit {0})
  relocate_entry is_rel target at = do
    before ← gets (λ (m : Memory). m)
    e ← lift (read_entry elf image is_rel target at before)
    found ← lift (entry_symbol elf symtab resolved load_base sec_addr shnum e)
    after ← lift (
        of_result
          (apply_arm_reloc e.ty (add32 target e.offset) found.0 e.addend found.1 e.is_rela before))
    modify (λ m. after)

  -- The inner loop from entry `r`, with `left` entries to go.
  unfoldable pub relocate_entries : Shdr → ℕ → ℕ → ℕ → Action Memory (Unit {0})
  relocate_entries shdr target zero r = pure tt
  relocate_entries shdr target (suc left) r = do
    relocate_entry (shdr.sh_type == elf.sht_rel) target (shdr.sh_offset + r * shdr.sh_entsize)
    relocate_entries shdr target left (r + 1)

  module _ (k : Kernel) (sym_resolved : ℕ) where
    -- A relocation section whose target is loaded. The error of an entry frees `sym_resolved`; the
    -- section that ends beyond the image does not.
    unfoldable pub relocate_target : Shdr → Action (World k) (Unit {0})
    relocate_target shdr = do
      guard (beyond shdr image) err_not_valid
      count ← lift (divide shdr.sh_size shdr.sh_entsize)
      offset ← lift (read (get_elem? sec_addr shdr.sh_info))
      on_error (free_heap k sym_resolved)
          (on_mem k (relocate_entries shdr (add32 load_base offset) count 0))

    -- One round of the outer loop. A target that is not in the table does not free `sym_resolved`
    -- either.
    unfoldable pub relocate_section : Shdr → Action (World k) (Unit {0})
    relocate_section shdr =
        if not (shdr.sh_type == elf.sht_rel) && not (shdr.sh_type == elf.sht_rela)
        then pure tt
        else (do
          guard (leb shnum shdr.sh_info) err_not_valid
          target ← lift (read (shdrs shdr.sh_info))
          if not (has_flag target.sh_flags elf.shf_alloc) then pure tt else relocate_target shdr)

    -- The outer loop from section `i`, with `left` sections to go.
    unfoldable pub relocate_from : ℕ → ℕ → Action (World k) (Unit {0})
    relocate_from zero i = pure tt
    relocate_from (suc left) i = do
      shdr ← lift (read (shdrs i))
      relocate_section shdr
      relocate_from left (i + 1)
