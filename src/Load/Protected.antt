-- ===== src/Load/Protected.antt =====
-- After a load that succeeds, the pages of the loaded module are safe.
use lk_modloader.Base.{ℕ, ◌+◌, ◌^◌, ◌≤◌, ◌≡◌, refl, List, Option, none, some, true}
use lk_modloader.Outcome.{done}
use lk_modloader.Action.{Action, raise}
use lk_modloader.Action.Ends.{
  Ensures, Ensures-bind, Ensures-on_error, Ensures-any, Ensures-Maintains, Ensures-modify,
  Ensures-pure, Ensures-never,
}
use lk_modloader.Elf.{Elf, Shdr}
use lk_modloader.Kernel.{Kernel, MmuLaws}
use lk_modloader.Symbols.{ModuleExports}
use lk_modloader.Wx.Enforce.{
  PagesEnforced, sync_safe, verify-apply_wx_split, verify-apply_wx_sections,
}
use lk_modloader.World.{World, on_os, on_symbols}
use lk_modloader.Rel.Layout.{SymTab}
use lk_modloader.Rel.{finish_image, fill_image, map_image, load_rel_image}
use lk_modloader.Exec.{fill_exec, load_exec_blob}

-- The pages of a mapping are safe if the mapping lies in the address space.
abbrev pub Safe : (k : Kernel) → ℕ → ℕ → k.Os → Type 0
Safe k base size os =
    base + size ≤ 2 ^ 32 → size + k.page_size ≤ 2 ^ 32 → PagesEnforced k base size os

-- A module is loaded, and its pages are safe.
abbrev pub IsProtected : (k : Kernel) → World k → Type 0
IsProtected k w = (w.current.loaded ≡ true) × Safe k w.current.base w.current.size w.os

abbrev pub Any : {S : Type 0} → S → Type 0
Any s = Unit {0}

module _ (k : Kernel) where
  Ensures-on_os :
      {A : Type 0} {Q : A → k.Os → Type 0} (m : Action k.Os A)
      → ((os : k.Os) (a : A) (os' : k.Os) → m os ≡ (done a, os') → Q a os')
      → Ensures (Any {S = World k}) (on_os k m) (λ a w. Q a w.os)
  unfolding on_os
  Ensures-on_os m ends = record {
    run = λ w p a w' h. ends w.os a w'.os (λ i. ((h i).0, (h i).1.os));
  }

  Ensures-on_symbols :
      (base size : ℕ) (m : Action ModuleExports (Unit {0}))
      → Ensures (λ w. Safe k base size w.os) (on_symbols k m) (λ a w. Safe k base size w.os)
  unfolding on_symbols
  Ensures-on_symbols base size m = Ensures-Maintains _ (record { run = λ w p. p })

  module _ (laws : MmuLaws k) where
    fill_exec-Safe :
        (blob : List ℕ) (rx_size base map_size : ℕ)
        → Ensures
            (Any {S = World k})
            (fill_exec k blob rx_size base map_size)
            (λ a w. Safe k base map_size w.os)
    unfolding fill_exec
    fill_exec-Safe blob rx_size base map_size = Ensures-bind _ _ (Ensures-any _) (λ u.
        Ensures-bind _ _ (Ensures-any _) (λ u'. Ensures-on_error _ _ (
          Ensures-on_os _ (λ os a os' h below room.
            (verify-apply_wx_split k laws base map_size below room rx_size os os' h).0))))

    pub load_exec_blob-IsProtected :
        (blob : Option (List ℕ)) (entry_vaddr rx_size : ℕ)
        → Ensures
            (Any {S = World k})
            (load_exec_blob k blob entry_vaddr rx_size)
            (λ a w. IsProtected k w)
    unfolding load_exec_blob
    load_exec_blob-IsProtected none entry_vaddr rx_size =
        Ensures-never _ (λ s. unfold raise in refl)
    load_exec_blob-IsProtected (some blob) entry_vaddr rx_size =
        Ensures-bind _ _ (Ensures-any _) (λ u. Ensures-bind _ _ (Ensures-any _) (λ loaded.
          Ensures-bind _ _ (Ensures-any _) (λ u'. Ensures-bind _ _ (Ensures-any _) (λ base.
            Ensures-bind _ _ (fill_exec-Safe blob rx_size base _)
              (λ u''. Ensures-modify _ (λ w safe. (refl, safe)))))))

    module _ (elf : Elf) (add_addr : ℕ) where
      finish_image-Safe :
          (image : List ℕ) (shdrs : ℕ → Option Shdr) (shnum base total_size map_size : ℕ)
          (sec_addr : List ℕ) (symtab : Option SymTab)
          → Ensures
              (Any {S = World k})
              (finish_image k elf add_addr image shdrs shnum base total_size map_size sec_addr
                symtab)
              (λ a w. Safe k base map_size w.os)
      unfolding finish_image
      finish_image-Safe image shdrs shnum base total_size map_size sec_addr none =
          Ensures-never _ (λ s. unfold raise in refl)
      finish_image-Safe image shdrs shnum base total_size map_size sec_addr (some t) =
          Ensures-bind _ _ (Ensures-any _) (λ entry.
            Ensures-bind _ _
              (Ensures-on_os {Q = λ a os. Safe k base map_size os} _ (λ os a os' h below room.
                (verify-apply_wx_sections k laws base map_size below room elf shdrs shnum sec_addr
                  os os' h).0))
              (λ u.
                Ensures-bind _ _
                  (Ensures-modify {Q = λ a w. Safe k base map_size w.os} _ (λ w safe below room.
                    let pages = safe below room in
                    (
                      pages.0,
                      pages.1,
                      sync_safe k laws base map_size below room pages.0 base total_size w.os
                          pages.2,
                    )))
                  (λ u'.
                    Ensures-bind _ _ (Ensures-on_symbols base map_size _)
                      (λ u''. Ensures-pure entry))))

      fill_image-Safe :
          (image : List ℕ) (shdrs : ℕ → Option Shdr) (shnum base total_size map_size : ℕ)
          (sec_addr : List ℕ)
          → Ensures
              (Any {S = World k})
              (fill_image k elf add_addr image shdrs shnum base total_size map_size sec_addr)
              (λ a w. Safe k base map_size w.os)
      unfolding fill_image
      fill_image-Safe image shdrs shnum base total_size map_size sec_addr =
          Ensures-bind _ _ (Ensures-any _) (λ u. Ensures-bind _ _ (Ensures-any _) (λ symtab.
            Ensures-bind _ _ (Ensures-any _) (λ resolved. Ensures-bind _ _ (Ensures-any _) (λ u'.
              Ensures-bind _ _ (Ensures-any _) (λ u''.
                finish_image-Safe image shdrs shnum base total_size map_size sec_addr symtab)))))

      pub load_rel_image-IsProtected :
          (image : List ℕ) (flags : ℕ)
          → Ensures
              (Any {S = World k})
              (load_rel_image k elf add_addr image flags)
              (λ a w. IsProtected k w)
      unfolding load_rel_image map_image
      load_rel_image-IsProtected image flags = Ensures-bind _ _ (Ensures-any _) (λ u.
          Ensures-bind _ _ (Ensures-any _) (λ loaded. Ensures-bind _ _ (Ensures-any _) (λ u1.
            Ensures-bind _ _ (Ensures-any _) (λ u2. Ensures-bind _ _ (Ensures-any _) (λ ehdr.
              Ensures-bind _ _ (Ensures-any _) (λ u3. Ensures-bind _ _ (Ensures-any _) (λ placed.
                Ensures-bind _ _ (Ensures-any _) (λ u4. Ensures-bind _ _ (Ensures-any _) (λ base.
                  Ensures-bind _ _ (Ensures-on_error _ _ (fill_image-Safe image _ _ base _ _ _))
                    (λ entry. Ensures-modify _ (λ w safe. (refl, safe))))))))))))
