-- ===== src/Load/Images.antt =====
-- What a load of an image holds after it failed: what was held before it, or beside that the block
-- `sym_resolved`, where a relocation section is misplaced.
use lk_modloader.Base.{
  ℕ, zero, suc, ◌+◌, ◌-◌, ◌<◌, ◌≤◌, ◌≡◌, ◌≢◌, refl, ◌∙◌, inl, inr, List, Option, none, some, Bool,
  true, false, not, ◌&&◌, ◌==◌, arith, Bool-cases,
}
use lk_modloader.Status.{Error}
use lk_modloader.Outcome.{fail, read}
use lk_modloader.Action.{Action}
use lk_modloader.Action.Triple.{
  Holds, Holds-pure, Holds-raise, Holds-bind, Holds-on_error, Holds-modify, Holds-sure_bind,
  Holds-test, Holds-guard_test, Holds-fails, Keeps-Maintains, Keeps-lift, Keeps-gets, Keeps-guard,
  Keeps-modify,
}
use lk_modloader.Elf.{Elf, Shdr}
use lk_modloader.Kernel.{Kernel}
use lk_modloader.Kernel.Resources.{region, Held, ResourceLaws}
use lk_modloader.World.{World}
use lk_modloader.Rel.{fill_image, map_image, load_rel_image}
use lk_modloader.Rel.Layout.{SymTab, beyond}
use lk_modloader.Rel.Relocate.{relocate_target, relocate_section, relocate_from}
use lk_modloader.Rel.Entry.{divide}
use lk_modloader.Rel.Malformed.{IsRelocation, HasMisplaced, IsMalformed}
use lk_modloader.Exec.{load_exec_blob, fill_exec}
use lk_modloader.Load.Stable.{copy_from-Maintains, finish_image-Maintains, wx_split-Maintains}
use lk_modloader.Load.Composed.{some_of_read}
use lk_modloader.Load.Leak.{MayLeak, MayLeak-map, calm, in_region-Holds}
use lk_modloader.Load.Balance.{
  Has, HasMore, HasBlock, HasModule, Has-Stable, free_heap-HasBlock, vmm_alloc-Holds,
  resolve_all-Holds, on_mem-HasBlock,
}

read-sure : {A : Type 0} (o : Option A) (e : Error) → read o ≢ fail e
read-sure none e h = ground (arith, h)
read-sure (some a) e h = ground (arith, h)

divide-sure : (a b : ℕ) (e : Error) → divide a b ≢ fail e
unfolding divide
divide-sure a b e h = ground (arith, h)

true_of_not : (b : Bool) → not b ≡ false → b ≡ true
true_of_not true h = refl
true_of_not false h = ground (arith, h)

-- The test that passes a section over fails for the relocations only.
is_relocation :
    (elf : Elf) (s : Shdr)
    → (not (s.sh_type == elf.sht_rel) && not (s.sh_type == elf.sht_rela)) ≡ false
    → IsRelocation elf s
is_relocation elf s t = elim (Bool-cases (s.sh_type == elf.sht_rel)) [
  | inl rel ↦ inl rel
  | inr other ↦ inr (ground (arith, t, other))
]

module _ (k : Kernel) (l : ResourceLaws k) where
  -- Where `sym_resolved` is not freed it stays held.
  leak_block :
      {Why : Type 0} (h : Held) (p : ℕ) (w : World k)
      → Why
      → HasBlock k l h p w
      → MayLeak k l Why h w
  leak_block h p w why (inl (null, has)) = inl has
  leak_block h p w why (inr (given, more)) = inr (why, (p, given, more))

  module _ (elf : Elf) (image : List ℕ) (shdrs : ℕ → Option Shdr) (shnum : ℕ) where
    abbrev Why : Type 0
    Why = HasMisplaced elf image shdrs shnum

    module _ (symtab : Option SymTab) (resolved : Option (List ℕ)) (base : ℕ) (sec_addr : List ℕ)
        (p : ℕ) (h : Held) where
      abbrev FromBlock : Action (World k) (Unit {0}) → Type 0
      FromBlock m = Holds (HasBlock k l h p) m (λ u w. HasBlock k l h p w) (MayLeak k l Why h)

      relocate_target-Holds :
          (s : Shdr)
          → (beyond s image ≡ true → Why)
          → FromBlock (relocate_target elf symtab resolved base sec_addr shnum image shdrs k p s)
      unfolding relocate_target
      relocate_target-Holds s why =
          Holds-bind _ _ (Holds-guard_test _ _ (λ t w b. b) (λ t w b. leak_block h p w (why t) b))
            (λ u. Holds-sure_bind _ _ (divide-sure _ _) (λ n counted.
              Holds-sure_bind _ _ (read-sure _) (λ offset found.
                Holds-on_error _ _ (λ w b. inl (free_heap-HasBlock k l h p w b))
                  (Keeps-Maintains _ (on_mem-HasBlock k l h p _)))))

      relocate_section-Holds :
          (i : ℕ) (s : Shdr)
          → 0 < i
          → i < shnum
          → shdrs i ≡ some s
          → FromBlock (relocate_section elf symtab resolved base sec_addr shnum image shdrs k p s)
      unfolding relocate_section
      relocate_section-Holds i s pos lt at =
          Holds-test _ _ _ (λ other. Holds-pure _ (λ w b. b))
            (λ t.
              let rel = is_relocation elf s t in
              Holds-bind _ _
                (Holds-guard_test _ _ (λ t' w b. b)
                  (λ t' w b. leak_block h p w (i, s, pos, lt, at, rel, inl t') b))
                (λ u. Holds-sure_bind _ _ (read-sure _) (λ target found.
                  Holds-test _ _ _ (λ other. Holds-pure _ (λ w b. b))
                    (λ loaded. relocate_target-Holds s (λ out. (
                      i,
                      s,
                      pos,
                      lt,
                      at,
                      rel,
                      inr (target, some_of_read _ target found, true_of_not _ loaded, out),
                    ))))))

      relocate_from-Holds :
          (left i : ℕ)
          → 0 < i
          → left ≤ shnum - i
          → FromBlock (relocate_from elf symtab resolved base sec_addr shnum image shdrs k p left i)
      unfolding relocate_from
      relocate_from-Holds zero i pos le = Holds-pure _ (λ w b. b)
      relocate_from-Holds (suc left) i pos le = Holds-sure_bind _ _ (read-sure _) (λ s found.
          Holds-bind _ _
            (relocate_section-Holds i s pos (omega (arith, le)) (some_of_read _ s found))
            (λ u. relocate_from-Holds left (i + 1) (omega arith) (omega (arith, le))))

    fill_image-Holds :
        (add_addr base total_size map_size : ℕ) (sec_addr : List ℕ) (h : Held)
        → Holds
            (Has k l h)
            (fill_image k elf add_addr image shdrs shnum base total_size map_size sec_addr)
            (λ entry w. Has k l h w)
            (MayLeak k l Why h)
    unfolding fill_image
    fill_image-Holds add_addr base total_size map_size sec_addr h =
        Holds-bind _ _
          (calm k l h _ (
            Keeps-Maintains _
              (copy_from-Maintains k _ (Has-Stable k l h) elf image shdrs sec_addr base _ 1)))
          (λ u. Holds-bind _ _ (calm k l h _ (Keeps-lift _)) (λ symtab.
            Holds-bind _ _ (calm k l h _ (resolve_all-Holds k l elf add_addr h symtab)) (λ resolved.
              Holds-bind _ _
                (relocate_from-Holds symtab resolved.1 base sec_addr resolved.0 h (shnum - 1) 1
                  (omega arith) (omega arith))
                (λ u'. Holds-bind _ _ (Holds-modify _ (free_heap-HasBlock k l h resolved.0)) (λ u''.
                  calm k l h _ (
                    Keeps-Maintains _ (
                      finish_image-Maintains k _ (Has-Stable k l h) elf add_addr image shdrs shnum
                        base total_size map_size sec_addr symtab)))))))

  pub load_rel_image-Holds :
      (elf : Elf) (add_addr : ℕ) (image : List ℕ) (flags : ℕ) (h : Held)
      → Holds
          (Has k l h)
          (load_rel_image k elf add_addr image flags)
          (λ u w. HasModule k l h w)
          (MayLeak k l (IsMalformed elf image) h)
  unfolding load_rel_image map_image
  load_rel_image-Holds elf add_addr image flags h =
      Holds-bind _ _ (calm k l h _ (Keeps-guard _ _)) (λ u.
        Holds-bind _ _ (calm k l h _ (Keeps-gets _)) (λ loaded.
          Holds-bind _ _ (calm k l h _ (Keeps-guard _ _)) (λ u1.
            Holds-bind _ _ (calm k l h _ (Keeps-modify _ (λ w p. p))) (λ u2.
              Holds-sure_bind _ _ (read-sure _) (λ ehdr header.
                Holds-bind _ _ (calm k l h _ (Keeps-lift _)) (λ u3.
                  Holds-bind _ _ (calm k l h _ (Keeps-lift _)) (λ placed.
                    Holds-bind _ _ (calm k l h _ (Keeps-guard _ _)) (λ u4.
                      Holds-bind _ _ (calm k l h _ (vmm_alloc-Holds k l h _ _)) (λ base.
                        Holds-bind _ _
                          (in_region-Holds k l h base _ (
                            Holds-fails _
                              (λ w.
                                MayLeak-map k l (λ why. (ehdr, some_of_read _ ehdr header, why)) _
                                  w)
                              (fill_image-Holds elf image _ _ add_addr base _ _ _ _)))
                          (λ entry. Holds-modify _ (λ w p. (refl, p))))))))))))

  pub load_exec_blob-Holds :
      (blob : Option (List ℕ)) (entry_vaddr rx_size : ℕ) (h : Held)
      → Holds
          (Has k l h)
          (load_exec_blob k blob entry_vaddr rx_size)
          (λ u w. HasModule k l h w)
          (Has k l h)
  unfolding load_exec_blob fill_exec
  load_exec_blob-Holds none entry_vaddr rx_size h = Holds-raise _ (λ w p. p)
  load_exec_blob-Holds (some blob) entry_vaddr rx_size h = Holds-bind _ _ (Keeps-guard _ _) (λ u.
      Holds-bind _ _ (Keeps-gets _) (λ loaded. Holds-bind _ _ (Keeps-guard _ _) (λ u1.
        Holds-bind _ _ (vmm_alloc-Holds k l h _ _) (λ base.
          Holds-bind _ _
            (Holds-bind {R = λ u w. HasMore k l h (region base) w} _ _ (Holds-modify _ (λ w p. p))
              (λ u2.
                Holds-bind {R = λ u w. HasMore k l h (region base) w} _ _
                  (Holds-modify _ (λ w p. (p.0, λ r. l.sync_same w.os base _ r ∙ p.1 r)))
                  (λ u3. Holds-fails _ no_leak (
                    in_region-Holds k l {Why = ⊥} h base _ (
                      calm k l _ _ (
                        Keeps-Maintains _
                          (wx_split-Maintains k _ (Has-Stable k l _) base _ rx_size)))))))
            (λ u4. Holds-modify _ (λ w p. (refl, p)))))))
    where
      no_leak : (w : World k) → MayLeak k l ⊥ h w → Has k l h w
      no_leak w (inl has) = has
      no_leak w (inr (why, leak)) = absurd why
