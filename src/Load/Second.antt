-- ===== src/Load/Second.antt =====
-- While a module is loaded no other is.
use lk_modloader.Base.{
  ℕ, ◌≡◌, refl, ap, ◌∙◌, bit_or, List, Option, none, some, true, false, Bool-cases, length, ltb,
  ◌==◌, inl, inr,
}
use lk_modloader.Outcome.{is_done}
use lk_modloader.Action.{Action, ◌>>=◌}
use lk_modloader.Action.Rules.{Maintains-guard, Maintains-lift}
use lk_modloader.Action.Ends.{Refuses, Refuses-raise, Refuses-if, Refuses-bind}
use lk_modloader.Elf.{Elf, Name}
use lk_modloader.Kernel.{Kernel}
use lk_modloader.Exec.{load_exec_blob}
use lk_modloader.Rel.{load_rel_image}
use lk_modloader.World.{World, Module}
use lk_modloader.Api.{
  Payloads, embedded_bytes, load_elf_buffer, load_embedded_elf, load_embedded, load_image, load_uri,
  load_file, free_after, parse_embed_uri,
}
use lk_modloader.Load.Indifferent.{Indifferent, fetch-Maintains}
use lk_modloader.Load.Kept.{Same, Same-Indifferent}

-- This state, in which a module is loaded.
abbrev Still : (k : Kernel) → World k → World k → Type 0
Still k w s = (s ≡ w) × (s.current.loaded ≡ true)

-- `P` holds only of states in which a module is loaded.
module _ (k : Kernel) (P : World k → Type 0)
    (is_loaded : (s : World k) → P s → s.current.loaded ≡ true) where
  load_exec_blob-Refuses :
      (blob : Option (List ℕ)) (entry_vaddr rx_size : ℕ)
      → Refuses P (load_exec_blob k blob entry_vaddr rx_size)
  unfolding load_exec_blob ◌>>=◌
  load_exec_blob-Refuses none entry_vaddr rx_size = Refuses-raise _
  load_exec_blob-Refuses (some blob) entry_vaddr rx_size = record {
    run = λ s p. elim (Bool-cases (length blob == 0)) [
      | inl empty ↦ rw empty (refl, p)
      | inr filled ↦ simp (filled, is_loaded s p) (refl, p)
    ];
  }

  module _ (elf : Elf) (add_addr : ℕ) where
    load_rel_image-Refuses :
        (image : List ℕ) (flags : ℕ) → Refuses P (load_rel_image k elf add_addr image flags)
    unfolding load_rel_image ◌>>=◌
    load_rel_image-Refuses image flags = record {
      run = λ s p. elim (Bool-cases (ltb (length image) elf.ehdr_size)) [
        | inl small ↦ rw small (refl, p)
        | inr enough ↦ simp (enough, is_loaded s p) (refl, p)
      ];
    }

    module _ (p : Payloads) where
      load_elf_buffer-Refuses :
          (bytes : List ℕ) (flags : ℕ) → Refuses P (load_elf_buffer k elf add_addr p bytes flags)
      unfolding load_elf_buffer
      load_elf_buffer-Refuses bytes flags = Refuses-bind _ _ (Maintains-guard _ _) (λ u.
          Refuses-bind _ _ (Maintains-guard _ _) (λ u'. Refuses-bind _ _ (Maintains-lift _) (λ ehdr.
            Refuses-bind _ _ (Maintains-guard _ _) (λ u''. load_rel_image-Refuses bytes flags))))

      load_embedded_elf-Refuses :
          (bytes : Option (List ℕ)) (flags : ℕ)
          → Refuses P (load_embedded_elf k elf add_addr p bytes flags)
      unfolding load_embedded_elf
      load_embedded_elf-Refuses none flags = Refuses-raise _
      load_embedded_elf-Refuses (some bytes) flags =
          Refuses-bind _ _ (Maintains-guard _ _) (λ u. load_elf_buffer-Refuses bytes flags)

      load_embedded-Refuses :
          (image flags : ℕ) → Refuses P (load_embedded k elf add_addr p image flags)
      unfolding load_embedded
      load_embedded-Refuses image flags =
          Refuses-if _ _ _
            (Refuses-bind _ _ (Maintains-guard _ _)
              (λ u. load_exec_blob-Refuses (some p.exec) p.entry_vaddr p.rx_size))
            (load_embedded_elf-Refuses (embedded_bytes p image) flags)

      load_image-Refuses : (image flags : ℕ) → Refuses P (load_image k elf add_addr p image flags)
      unfolding load_image
      load_image-Refuses image flags =
          Refuses-bind _ _ (Maintains-guard _ _) (λ u. load_embedded-Refuses image flags)

      free_after-Refuses :
          (quiet : Indifferent k P) (buf : ℕ) (m : Action (World k) (Unit {0}))
          → Refuses P m
          → Refuses P (free_after k elf add_addr p buf m)
      unfolding free_after
      free_after-Refuses quiet buf m km = record {
        run = λ w h. ((km.run w h).0, quiet.os _ _ (km.run w h).1);
      }

      load_uri-Refuses :
          (quiet : Indifferent k P) (uri : Option Name) (flags : ℕ)
          → Refuses P (load_uri k elf add_addr p uri flags)
      unfolding load_uri load_file
      load_uri-Refuses quiet none flags = Refuses-raise _
      load_uri-Refuses quiet (some uri) flags =
          Refuses-if _ _ _ (Refuses-raise _) (embed (parse_embed_uri uri))
        where
          embed :
              (o : Option (ℕ × ℕ))
              → Refuses P (elim o [
                | some (image, embed_flags) ↦
                    load_embedded k elf add_addr p image (bit_or embed_flags flags)
                | none ↦ load_file k elf add_addr p uri flags
              ])
          embed (some (image, embed_flags)) = load_embedded-Refuses image _
          embed none =
              Refuses-bind _ _ (fetch-Maintains k P quiet (some uri))
                (λ f. free_after-Refuses quiet f.0 _ (load_elf_buffer-Refuses f.1 flags))

module _ (k : Kernel) (elf : Elf) (add_addr : ℕ) (p : Payloads) where
  -- Loads refuse: of an embedded image in the whole state, and from a URI in what is loaded and exported.
  abbrev pub LoadsRefuse : World k → Type 0
  LoadsRefuse w =
      ((image flags : ℕ)
        → (is_done (load_image k elf add_addr p image flags w).0 ≡ false)
          × ((load_image k elf add_addr p image flags w).1 ≡ w))
      × ((uri : Option Name) (flags : ℕ)
          → (is_done (load_uri k elf add_addr p uri flags w).0 ≡ false)
            × ((load_uri k elf add_addr p uri flags w).1.current ≡ w.current)
            × ((load_uri k elf add_addr p uri flags w).1.exports ≡ w.exports))

  -- While a module is loaded, no load succeeds: a load of an embedded image leaves the whole state
  -- as it was, and a load from a URI, embedded or a file, leaves modloader_mod and the export table
  -- as they were.
  pub load_loaded : (w : World k) → w.current.loaded ≡ true → LoadsRefuse w
  load_loaded w loaded = (
    λ image flags.
        let refused =
          (load_image-Refuses k (Still k w) (λ s h. h.1) elf add_addr p image flags).run w
            (refl, loaded) in
        (refused.0, refused.1.0),
    λ uri flags.
        let moved = λ (s : World k) (h : Same k w.current w.exports s).
          ap (λ (m : Module). m.loaded) h.0 ∙ loaded in
        let refused =
          (load_uri-Refuses k (Same k w.current w.exports) moved elf add_addr p
              (Same-Indifferent k w.current w.exports) uri flags).run
            w (refl, refl) in
        (refused.0, refused.1.0, refused.1.1),
  )
