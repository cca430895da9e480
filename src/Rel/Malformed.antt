-- ===== src/Rel/Malformed.antt =====
-- The relocation sections at which `modloader_load_rel_image` of app/modloader/modloader_reloc.c stops
-- without a `free` of `sym_resolved`.
use lk_modloader.Base.{ℕ, ◌<◌, ◌≡◌, ◌⊎◌, List, Option, some, true, leb, ◌==◌}
use lk_modloader.Elf.{Elf, Ehdr, Shdr}
use lk_modloader.Wx.PageFlags.{has_flag}
use lk_modloader.Rel.Layout.{beyond}
use lk_modloader.Rel.FindEntry.{shdr_of}

abbrev pub IsRelocation : Elf → Shdr → Type 0
IsRelocation elf s = ((s.sh_type == elf.sht_rel) ≡ true) ⊎ ((s.sh_type == elf.sht_rela) ≡ true)

module _ (elf : Elf) (image : List ℕ) where
  -- The section that it relocates is not in the table of sections, or is loaded while the relocations
  -- end beyond the image.
  abbrev pub IsMisplaced : (ℕ → Option Shdr) → ℕ → Shdr → Type 0
  IsMisplaced shdrs shnum s =
      (leb shnum s.sh_info ≡ true)
      ⊎ ((target : Shdr) × (shdrs s.sh_info ≡ some target)
          × (has_flag target.sh_flags elf.shf_alloc ≡ true)
          × (beyond s image ≡ true))

  -- One of the sections, from section 1 on, is a relocation section and misplaced.
  abbrev pub HasMisplaced : (ℕ → Option Shdr) → ℕ → Type 0
  HasMisplaced shdrs shnum =
      (i : ℕ) × (s : Shdr) × (0 < i)
      × (i < shnum)
      × (shdrs i ≡ some s)
      × IsRelocation elf s
      × IsMisplaced shdrs shnum s

  -- So in the section headers of the image.
  abbrev pub IsMalformed : Type 0
  IsMalformed =
      (ehdr : Ehdr) × (elf.ehdr_at image ≡ some ehdr)
      × HasMisplaced (shdr_of elf image ehdr) ehdr.e_shnum
