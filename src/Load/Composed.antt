-- ===== src/Load/Composed.antt =====
-- What a load of a relocatable image that succeeded has made of the file.
use lk_modloader.Base.{ℕ, ◌-◌, ◌≡◌, refl, ap, subst, arith, List, [], ◌∷◌, Option, none, some, true}
use lk_modloader.Outcome.{Outcome, done, fail, fault, out_of_fuel, read}
use lk_modloader.Action.{Action, ◌>>=◌, raise, lift, pure}
use lk_modloader.Action.Ends.{
  Ensures, Ensures-bind, Ensures-on_error, Ensures-any, Ensures-modify, Ensures-never,
}
use lk_modloader.Elf.{Elf, Ehdr, Shdr, Name}
use lk_modloader.Kernel.{Kernel}
use lk_modloader.Symbols.{symbols_build}
use lk_modloader.Symbols.Build.{search_from, find_symbol-build}
use lk_modloader.Api.{lookup_symbol}
use lk_modloader.World.{World, modloader_rel, on_symbols}
use lk_modloader.Rel.Layout.{SymTab, layout, find_symtab}
use lk_modloader.Rel.FindEntry.{check_header, shdr_of, find_entry}
use lk_modloader.Rel.{finish_image, fill_image, map_image, load_rel_image}

-- The entry and the index come from the symbol table `t`.
pub record HasSymbols (k : Kernel) (elf : Elf) (t : SymTab) (base : ℕ) (sec_addr : List ℕ)
    (shnum entry : ℕ) (w : World k) : Type 0 where
  pub entry_found : find_entry elf t sec_addr base shnum ≡ done entry
  pub indexed :
      symbols_build elf (some t.syms) t.sym_count (some t.symstr) base sec_addr shnum []
      ≡ (done tt, w.module_exports)

-- The loaded module is what the image says.
pub record IsLoadedFrom (k : Kernel) (elf : Elf) (image : List ℕ) (w : World k) : Type 0 where
  pub ehdr : Ehdr
  pub header : elf.ehdr_at image ≡ some ehdr
  pub checked : check_header elf image ehdr ≡ done tt
  pub total : ℕ
  pub sec_addr : List ℕ
  pub placed : layout k elf (shdr_of elf image ehdr) ehdr.e_shnum ≡ done (total, sec_addr)
  pub symtab : SymTab
  pub found :
      find_symtab elf image (shdr_of elf image ehdr) (ehdr.e_shnum - 1) 1 ≡ done (some symtab)
  pub loaded : w.current.loaded ≡ true
  pub kind : w.current.kind ≡ modloader_rel
  pub size : w.current.size ≡ k.roundup total k.page_size
  pub symbols : HasSymbols k elf symtab w.current.base sec_addr ehdr.e_shnum w.current.entry w

abbrev Any : {S : Type 0} → S → Type 0
Any s = Unit {0}

module _ {S A B : Type 0} {Q : B → S → Type 0} where
  -- What a computation gave is at hand in the rest.
  Ensures-lift :
      (r : Outcome A) (f : A → Action S B)
      → ((a : A) → r ≡ done a → Ensures Any (f a) Q)
      → Ensures Any (lift r >>= f) Q
  unfolding ◌>>=◌
  Ensures-lift (done a) f kf = record { run = λ s p b s' h. (kf a refl).run s p b s' h }
  Ensures-lift (fail e) f kf = record { run = λ s p b s' h. absurd (ground (arith, h)) }
  Ensures-lift fault f kf = record { run = λ s p b s' h. absurd (ground (arith, h)) }
  Ensures-lift out_of_fuel f kf = record { run = λ s p b s' h. absurd (ground (arith, h)) }

  -- An action of which nothing is needed.
  Ensures-skip :
      {P : S → Type 0} (m : Action S A) (f : A → Action S B)
      → ((a : A) → Ensures Any (f a) Q)
      → Ensures P (m >>= f) Q
  Ensures-skip m f kf = Ensures-bind _ _ (Ensures-any m) kf

Ensures-return :
    {S A : Type 0} {P : S → Type 0} {Q : A → S → Type 0} (a : A)
    → ((s : S) → P s → Q a s)
    → Ensures P (pure a) Q
unfolding pure
Ensures-return {Q = Q} a keep = record {
  run = λ s p b s' h.
      let same : a ≡ b = ground (arith, h) in
      subst (λ x. Q x s') same (subst (Q a) (ap (λ r. r.1) h) (keep s p));
}

-- A read that returned.
pub some_of_read : {A : Type 0} (o : Option A) (a : A) → read o ≡ done a → o ≡ some a
some_of_read none a h = absurd (ground (arith, h))
some_of_read (some b) a h = ground (arith, h)

module _ (k : Kernel) (elf : Elf) (add_addr : ℕ) (image : List ℕ) where
  -- The index that a build leaves.
  Ensures-build :
      (t : SymTab) (base : ℕ) (sec_addr : List ℕ) (shnum : ℕ)
      → Ensures
          (Any {S = World k})
          (on_symbols k
            (symbols_build elf (some t.syms) t.sym_count (some t.symstr) base sec_addr shnum))
          (λ u w.
            symbols_build elf (some t.syms) t.sym_count (some t.symstr) base sec_addr shnum []
            ≡ (done tt, w.module_exports))
  unfolding on_symbols symbols_build
  Ensures-build t base sec_addr shnum = record {
    run = λ w p u w' h i. ((h i).0, (h i).1.module_exports);
  }

  finish_image-Ensures :
      (shdrs : ℕ → Option Shdr) (shnum base total map_size : ℕ) (sec_addr : List ℕ) (t : SymTab)
      → Ensures
          (Any {S = World k})
          (finish_image k elf add_addr image shdrs shnum base total map_size sec_addr (some t))
          (λ entry w. HasSymbols k elf t base sec_addr shnum entry w)
  unfolding finish_image
  finish_image-Ensures shdrs shnum base total map_size sec_addr t = Ensures-lift _ _ (λ entry found.
      Ensures-skip _ _ (λ u. Ensures-skip _ _ (λ u'.
        Ensures-bind _ _ (Ensures-build t base sec_addr shnum) (λ u''.
          Ensures-return entry (λ w built. record { entry_found = found; indexed = built })))))

  -- With the symbol table that the image has.
  abbrev Filled : (ℕ → Option Shdr) → ℕ → ℕ → List ℕ → ℕ → World k → Type 0
  Filled shdrs shnum base sec_addr entry w =
      (t : SymTab) × (find_symtab elf image shdrs (shnum - 1) 1 ≡ done (some t))
      × HasSymbols k elf t base sec_addr shnum entry w

  finish_found :
      (shdrs : ℕ → Option Shdr) (shnum base total map_size : ℕ) (sec_addr : List ℕ)
      (symtab : Option SymTab)
      → find_symtab elf image shdrs (shnum - 1) 1 ≡ done symtab
      → Ensures
          (Any {S = World k})
          (finish_image k elf add_addr image shdrs shnum base total map_size sec_addr symtab)
          (Filled shdrs shnum base sec_addr)
  finish_found shdrs shnum base total map_size sec_addr none found =
      Ensures-never _ (λ s. unfold finish_image raise in refl)
  finish_found shdrs shnum base total map_size sec_addr (some t) found = record {
    run = λ w p entry w' h. (
      t,
      found,
      (finish_image-Ensures shdrs shnum base total map_size sec_addr t).run w p entry w' h,
    );
  }

  fill_image-Ensures :
      (shdrs : ℕ → Option Shdr) (shnum base total map_size : ℕ) (sec_addr : List ℕ)
      → Ensures
          (Any {S = World k})
          (fill_image k elf add_addr image shdrs shnum base total map_size sec_addr)
          (Filled shdrs shnum base sec_addr)
  unfolding fill_image
  fill_image-Ensures shdrs shnum base total map_size sec_addr = Ensures-skip _ _ (λ u.
      Ensures-lift _ _ (λ symtab found. Ensures-skip _ _ (λ resolved. Ensures-skip _ _ (λ u'.
        Ensures-skip _ _
          (λ u''. finish_found shdrs shnum base total map_size sec_addr symtab found)))))

  load_rel_image-Ensures :
      (flags : ℕ)
      → Ensures
          (Any {S = World k})
          (load_rel_image k elf add_addr image flags)
          (λ u w. IsLoadedFrom k elf image w)
  unfolding load_rel_image map_image
  load_rel_image-Ensures flags = Ensures-skip _ _ (λ u. Ensures-skip _ _ (λ loaded.
      Ensures-skip _ _ (λ u1. Ensures-skip _ _ (λ u2. Ensures-lift _ _ (λ ehdr header.
        Ensures-lift _ _ (λ u3 checked. Ensures-lift _ _ (λ placed layout_eq.
          Ensures-skip _ _ (λ u4. Ensures-skip _ _ (λ base.
            Ensures-bind _ _ (Ensures-on_error _ _ (fill_image-Ensures _ _ base _ _ _)) (λ entry.
              Ensures-modify _ (λ w (t, found, symbols). record {
                ehdr = ehdr;
                header = some_of_read _ ehdr header;
                checked = checked;
                total = placed.0;
                sec_addr = placed.1;
                placed = layout_eq;
                symtab = t;
                found = found;
                loaded = refl;
                kind = refl;
                size = refl;
                symbols = record { entry_found = symbols.entry_found; indexed = symbols.indexed };
              })))))))))))

-- The address of a symbol, 0 where there is none.
abbrev address_or_null : Option ℕ → ℕ
address_or_null none = 0
address_or_null (some addr) = addr

-- Lookups search the symbol table of the image.
abbrev pub FindsSymbols :
    (k : Kernel) (elf : Elf) {image : List ℕ} (w : World k) → IsLoadedFrom k elf image w → Type 0
FindsSymbols k elf w d =
    (c : ℕ) (cs : Name)
    → lookup_symbol k (some (c ∷ cs)) w
      ≡ address_or_null (
          search_from elf d.symtab.syms d.symtab.symstr w.current.base d.sec_addr d.ehdr.e_shnum
            d.symtab.sym_count 0 (c ∷ cs))

loaded-FindsSymbols :
    (k : Kernel) (elf : Elf) {image : List ℕ} (w : World k) (d : IsLoadedFrom k elf image w)
    → FindsSymbols k elf w d
unfolding lookup_symbol
loaded-FindsSymbols k elf w d c cs =
    let t = d.symtab in
    let same =
      find_symbol-build elf t.syms t.symstr w.current.base d.sec_addr d.ehdr.e_shnum t.sym_count
        (c ∷ cs) [] w.module_exports d.symbols.indexed in
    simp (d.loaded, d.kind) (ap address_or_null same)

module _ (k : Kernel) (elf : Elf) (add_addr : ℕ) (image : List ℕ) where
  -- When load_rel_image succeeds, the header of the image was read and passed the checks, and the
  -- loaded module is a relocatable one made of the image: its size is the size of the layout of the
  -- sections rounded up to pages, its entry is what find_entry finds in the image's symbol table at
  -- the base of the mapping, the index of symbols is what symbols_build makes of that table, and a
  -- lookup of any name that is not empty gives the first address, other than 0, of an exported
  -- symbol of the table whose name, cut to its first 63 bytes, is that name, or 0 if there is none.
  pub load_rel_image_done :
      (flags : ℕ) (w w' : World k)
      → load_rel_image k elf add_addr image flags w ≡ (done tt, w')
      → (d : IsLoadedFrom k elf image w') × FindsSymbols k elf w' d
  load_rel_image_done flags w w' h =
      let d = (load_rel_image-Ensures k elf add_addr image flags).run w tt tt w' h in
      (d, loaded-FindsSymbols k elf w' d)
