-- ===== src/Rel/Layout.antt =====
-- The layout of `modloader_load_rel_image` of app/modloader/modloader_reloc.c, and its search of the
-- symbol table. `shdrs` reads the image's section headers by index.
pub mod Placed
pub mod Disjoint
use lk_modloader.Base.{
  ℕ, zero, suc, ◌+◌, ◌*◌, ◌/◌, ◌-◌, List, [], ◌∷◌, Option, none, some, Bool, not, ◌==◌, ltb,
  if◌then◌else◌, length, add32,
}
use lk_modloader.Status.{err_not_valid}
use lk_modloader.Outcome.{Outcome, done, ◌>>=◌, ◌>>◌, read, check}
use lk_modloader.Elf.{Elf, Shdr, Sym, Name, cstring_at}
use lk_modloader.Kernel.{Kernel}
use lk_modloader.Wx.PageFlags.{has_flag}

module _ (k : Kernel) (elf : Elf) where
  -- One round of the layout: `sec_addr[i]`, and `total_size` after it.
  unfoldable pub place_section : Shdr → ℕ → ℕ × ℕ
  place_section shdr total =
      if not (has_flag shdr.sh_flags elf.shf_alloc)
      then (0, total)
      else let start =
          if ltb 1 shdr.sh_addralign then k.roundup total shdr.sh_addralign else total in
        (start, add32 start shdr.sh_size)

  -- The loop from section `i`, with `left` sections to go.
  unfoldable pub layout_from : (ℕ → Option Shdr) → ℕ → ℕ → ℕ → Outcome (ℕ × List ℕ)
  layout_from shdrs zero i total = done (total, [])
  layout_from shdrs (suc left) i total = do
    shdr ← read (shdrs i)
    let placed = place_section shdr total
    (end, rest) ← layout_from shdrs left (i + 1) placed.1
    done (end, placed.0 ∷ rest)

  -- `total_size` and `sec_addr`, whose entry for the null section is 0.
  unfoldable pub layout : (ℕ → Option Shdr) → ℕ → Outcome (ℕ × List ℕ)
  layout shdrs shnum = do (total, rest) ← layout_from shdrs (shnum - 1) 1 0; done (total, 0 ∷ rest)

-- `syms`, `sym_count` and `symstr`.
pub record SymTab : Type 0 where
  pub syms : ℕ → Option Sym
  pub sym_count : ℕ
  pub symstr : ℕ → Option Name

-- `(size_t)shdr->sh_offset + shdr->sh_size > image_size`
abbrev pub beyond : Shdr → List ℕ → Bool
beyond shdr image = ltb (length image) (add32 shdr.sh_offset shdr.sh_size)

module _ (elf : Elf) (image : List ℕ) (shdrs : ℕ → Option Shdr) where
  -- The symbol table of this section.
  unfoldable pub read_symtab : Shdr → Outcome (Option SymTab)
  read_symtab shdr = do
    check (beyond shdr image) err_not_valid
    strtab ← read (shdrs shdr.sh_link)
    check (beyond strtab image) err_not_valid
    done (
        some (record {
          syms = λ i. elf.sym_at image (shdr.sh_offset + i * elf.sym_size);
          sym_count = shdr.sh_size / elf.sym_size;
          symstr = λ offset. cstring_at image (strtab.sh_offset + offset);
        }))

  -- The search from section `i`, with `left` sections to go; `none` where the pointers stay null.
  unfoldable pub find_symtab : ℕ → ℕ → Outcome (Option SymTab)
  unfolding read_symtab
  find_symtab zero i = done none
  find_symtab (suc left) i = do
    shdr ← read (shdrs i)
    let rest = find_symtab left (i + 1)
    if shdr.sh_type == elf.sht_symtab then read_symtab shdr else rest
