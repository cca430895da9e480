-- ===== src/Load/Accepted.antt =====
-- What `modloader_load_rel_image` of app/modloader/modloader_reloc.c has checked of the relocation
-- sections of an image that it has loaded.
use lk_modloader.Base.{
  ℕ, zero, suc, ◌+◌, ◌<◌, ◌≤◌, ◌≡◌, inl, inr, ap, subst, List, Option, some, true, false, not, ◌&&◌,
  ◌==◌, leb, arith, Bool-cases,
}
use lk_modloader.Outcome.{done}
use lk_modloader.Action.Shows.{
  Shows, Shows-fact, Shows-bind, Shows-first, Shows-lift, Shows-guard, Shows-test, Shows-both,
}
use lk_modloader.Action.Ends.{Ensures-on_error}
use lk_modloader.Elf.{Elf, Ehdr, Shdr}
use lk_modloader.Kernel.{Kernel}
use lk_modloader.World.{World}
use lk_modloader.Wx.PageFlags.{has_flag}
use lk_modloader.Rel.{fill_image, map_image, load_rel_image}
use lk_modloader.Rel.Layout.{SymTab, beyond}
use lk_modloader.Rel.FindEntry.{shdr_of}
use lk_modloader.Rel.Relocate.{relocate_target, relocate_section, relocate_from}
use lk_modloader.Rel.Malformed.{IsMisplaced, IsRelocation, IsMalformed}
use lk_modloader.Load.Composed.{some_of_read}

module _ (k : Kernel) (elf : Elf) (image : List ℕ) (shdrs : ℕ → Option Shdr) (shnum : ℕ) where
  -- Neither reason to stop at this section.
  abbrev IsPlaced : Shdr → Type 0
  IsPlaced s = IsRelocation elf s → ¬ IsMisplaced elf image shdrs shnum s

  passed_over-IsPlaced :
      (s : Shdr)
      → (not (s.sh_type == elf.sht_rel) && not (s.sh_type == elf.sht_rela)) ≡ true
      → IsPlaced s
  passed_over-IsPlaced s t (inl rel) bad = absurd (ground (arith, t, rel))
  passed_over-IsPlaced s t (inr rela) bad = absurd (ground (arith, t, rela))

  not_loaded-IsPlaced :
      (s target : Shdr)
      → leb shnum s.sh_info ≡ false
      → shdrs s.sh_info ≡ some target
      → not (has_flag target.sh_flags elf.shf_alloc) ≡ true
      → IsPlaced s
  not_loaded-IsPlaced s target below found other rel (inl out) = absurd (ground (arith, below, out))
  not_loaded-IsPlaced s target below found other rel (inr (target', found', loaded, out)) =
      let same : target' ≡ target = ground (arith, found, found') in
      let flags : has_flag target'.sh_flags elf.shf_alloc ≡ has_flag target.sh_flags elf.shf_alloc =
        ap (λ r. has_flag r.sh_flags elf.shf_alloc) same in
      absurd (ground (arith, flags, loaded, other))

  within-IsPlaced : (s : Shdr) → leb shnum s.sh_info ≡ false → beyond s image ≡ false → IsPlaced s
  within-IsPlaced s below inside rel (inl out) = absurd (ground (arith, below, out))
  within-IsPlaced s below inside rel (inr (target, found, loaded, out)) =
      absurd (ground (arith, inside, out))

  module _ (symtab : Option SymTab) (resolved : Option (List ℕ)) (base : ℕ) (sec_addr : List ℕ)
      (p : ℕ) where
    relocate_section-Shows :
        (s : Shdr)
        → Shows
            (relocate_section elf symtab resolved base sec_addr shnum image shdrs k p s)
            (IsPlaced s)
    unfolding relocate_section relocate_target
    relocate_section-Shows s =
        Shows-test _ _ _ (λ t. Shows-fact _ (passed_over-IsPlaced s t))
          (λ t. Shows-guard _ _ _ (λ below. Shows-lift _ _ (λ target found.
            Shows-test _ _ _
              (λ other.
                Shows-fact _
                  (not_loaded-IsPlaced s target below (some_of_read _ target found) other))
              (λ loaded.
                Shows-guard _ _ _ (λ inside. Shows-fact _ (within-IsPlaced s below inside))))))

    relocate_from-Shows :
        (left i : ℕ)
        → Shows
            (relocate_from elf symtab resolved base sec_addr shnum image shdrs k p left i)
            ((j : ℕ) (s : Shdr) → i ≤ j → j < i + left → shdrs j ≡ some s → IsPlaced s)
    unfolding relocate_from
    relocate_from-Shows zero i =
        Shows-fact _ (λ j s from below at. absurd (omega (arith, from, below)))
    relocate_from-Shows (suc left) i = Shows-lift _ _ (λ t found.
        Shows-both _ (Shows-first _ _ (relocate_section-Shows t))
          (Shows-bind _ _ (λ u. relocate_from-Shows left (i + 1)))
          (λ here later j s from below at. elim (Bool-cases (j == i)) [
            | inl is ↦
                let same : j ≡ i = ground (arith, is) in
                let found' : shdrs i ≡ some t = some_of_read _ t found in
                let equal : t ≡ s = ground (arith, same, at, found') in subst IsPlaced equal here
            | inr other ↦
                let next : i + 1 ≤ j = ground (arith, other, from) in
                later j s next (omega (arith, below)) at
          ]))

  fill_image-Shows :
      (add_addr base total_size map_size : ℕ) (sec_addr : List ℕ)
      → Shows
          (fill_image k elf add_addr image shdrs shnum base total_size map_size sec_addr)
          ((j : ℕ) (s : Shdr) → 0 < j → j < shnum → shdrs j ≡ some s → IsPlaced s)
  unfolding fill_image
  fill_image-Shows add_addr base total_size map_size sec_addr = Shows-bind _ _ (λ u.
      Shows-bind _ _ (λ symtab. Shows-bind _ _ (λ resolved. Shows-first _ _ (
        Shows-both _ (relocate_from-Shows symtab resolved.1 base sec_addr resolved.0 _ 1)
          (Shows-fact _ tt)
          (λ placed u' j s pos below.
            placed j s (omega (arith, pos)) (omega (arith, pos, below)))))))

module _ (k : Kernel) (elf : Elf) (add_addr : ℕ) (image : List ℕ) where
  load_rel_image-Shows :
      (flags : ℕ) → Shows (load_rel_image k elf add_addr image flags) (¬ IsMalformed elf image)
  unfolding load_rel_image map_image
  load_rel_image-Shows flags = Shows-bind _ _ (λ u. Shows-bind _ _ (λ loaded. Shows-bind _ _ (λ u1.
      Shows-bind _ _ (λ u2. Shows-lift _ _ (λ ehdr header. Shows-bind _ _ (λ u3.
        Shows-bind _ _ (λ placed. Shows-bind _ _ (λ u4. Shows-bind _ _ (λ base. Shows-first _ _ (
          Shows-both _
            (Ensures-on_error _ _ (
              fill_image-Shows k elf image (shdr_of elf image ehdr) ehdr.e_shnum add_addr base _ _
                _))
            (Shows-fact _ header)
            (λ checked read_at bad.
              refuted ehdr (some_of_read _ ehdr read_at) checked bad)))))))))))
    where
      refuted :
          (ehdr : Ehdr)
          → elf.ehdr_at image ≡ some ehdr
          → ((j : ℕ) (s : Shdr)
              → 0 < j
              → j < ehdr.e_shnum
              → shdr_of elf image ehdr j ≡ some s
              → IsPlaced k elf image (shdr_of elf image ehdr) ehdr.e_shnum s)
          → ¬ IsMalformed elf image
      refuted ehdr header checked (ehdr', header', (i, s, pos, lt, at, rel, bad)) =
          let same : ehdr ≡ ehdr' = ground (arith, header, header') in
          subst
            (λ e.
              ((j : ℕ) (s : Shdr)
                → 0 < j
                → j < e.e_shnum
                → shdr_of elf image e j ≡ some s
                → IsPlaced k elf image (shdr_of elf image e) e.e_shnum s))
            same checked i s pos lt at rel bad

  -- When load_rel_image succeeds, no relocation section of the image is misplaced: each one from
  -- section 1 on names a section in the table of sections, and if that one is loaded, the sum in 32
  -- bits of the relocations' offset and size does not pass the end of the image.
  pub load_rel_image_checked :
      (flags : ℕ) (w w' : World k)
      → load_rel_image k elf add_addr image flags w ≡ (done tt, w')
      → ¬ IsMalformed elf image
  load_rel_image_checked flags w w' h = (load_rel_image-Shows flags).run w tt tt w' h
