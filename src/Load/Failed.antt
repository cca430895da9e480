-- ===== src/Load/Failed.antt =====
-- A load that does not succeed leaves `modloader_mod` and the export table as they were.
use lk_modloader.Base.{
  ℕ, ◌≡◌, refl, List, Option, none, some, Bool, true, false, arith, if◌then◌else◌, ◌==◌,
}
use lk_modloader.Outcome.{is_done}
use lk_modloader.Action.{Action}
use lk_modloader.Action.Rules.{
  Maintains-raise, Maintains-lift, Maintains-guard, Maintains-gets, Maintains-modify,
  Maintains-on_error,
}
use lk_modloader.Action.Ends.{
  KeepsOnFail, KeepsOnFail-Maintains, KeepsOnFail-bind, KeepsOnFail-if, KeepsOnFail-modify,
}
use lk_modloader.Elf.{Elf, Ehdr, Name}
use lk_modloader.Kernel.{Kernel}
use lk_modloader.Export.{Exports}
use lk_modloader.Exec.{load_exec_blob}
use lk_modloader.Rel.{map_image, load_rel_image}
use lk_modloader.World.{World, Module}
use lk_modloader.Load.Kept.{Same, Same-Indifferent}
use lk_modloader.Load.Indifferent.{
  call_service-Maintains, fill_exec-Maintains, fill_image-Maintains, fetch-Maintains,
}
use lk_modloader.Api.{
  Payloads, embedded_bytes, parse_embed_uri, load_elf_buffer, load_embedded_elf, load_embedded,
  load_image, load_file, load_uri, free_after,
}

module _ (k : Kernel) (c : Module) (t : Exports) where
  load_exec_blob-KeepsOnFail :
      (blob : Option (List ℕ)) (entry_vaddr rx_size : ℕ)
      → KeepsOnFail (Same k c t) (load_exec_blob k blob entry_vaddr rx_size)
  unfolding load_exec_blob
  load_exec_blob-KeepsOnFail none entry_vaddr rx_size = KeepsOnFail-Maintains _ (Maintains-raise _)
  load_exec_blob-KeepsOnFail (some blob) entry_vaddr rx_size =
      KeepsOnFail-bind _ _ (Maintains-guard _ _) (λ u.
        KeepsOnFail-bind _ _ (Maintains-gets _) (λ loaded.
          KeepsOnFail-bind _ _ (Maintains-guard _ _) (λ u'.
            KeepsOnFail-bind _ _ (call_service-Maintains k _ (Same-Indifferent k c t) _) (λ base.
              KeepsOnFail-bind _ _
                (fill_exec-Maintains k _ (Same-Indifferent k c t) blob rx_size base _)
                (λ u''. KeepsOnFail-modify _)))))

  module _ (elf : Elf) (add_addr : ℕ) where
    map_image-KeepsOnFail :
        (image : List ℕ) (ehdr : Ehdr)
        → KeepsOnFail (Same k c t) (map_image k elf add_addr image ehdr)
    unfolding map_image
    map_image-KeepsOnFail image ehdr = KeepsOnFail-bind _ _ (Maintains-lift _) (λ placed.
        KeepsOnFail-bind _ _ (Maintains-guard _ _) (λ u.
          KeepsOnFail-bind _ _ (call_service-Maintains k _ (Same-Indifferent k c t) _) (λ base.
            KeepsOnFail-bind _ _
              (Maintains-on_error _ _ (λ w p. p)
                (fill_image-Maintains k _ (Same-Indifferent k c t) elf add_addr image _ _ _ _ _ _))
              (λ entry. KeepsOnFail-modify _))))

    load_rel_image-KeepsOnFail :
        (image : List ℕ) (flags : ℕ)
        → KeepsOnFail (Same k c t) (load_rel_image k elf add_addr image flags)
    unfolding load_rel_image
    load_rel_image-KeepsOnFail image flags = KeepsOnFail-bind _ _ (Maintains-guard _ _) (λ u.
        KeepsOnFail-bind _ _ (Maintains-gets _) (λ loaded.
          KeepsOnFail-bind _ _ (Maintains-guard _ _) (λ u'.
            KeepsOnFail-bind _ _ (Maintains-modify _ (λ w p. p)) (λ u''.
              KeepsOnFail-bind _ _ (Maintains-lift _) (λ ehdr.
                KeepsOnFail-bind _ _ (Maintains-lift _)
                  (λ u'''. map_image-KeepsOnFail image ehdr))))))

    module _ (p : Payloads) where
      load_elf_buffer-KeepsOnFail :
          (bytes : List ℕ) (flags : ℕ)
          → KeepsOnFail (Same k c t) (load_elf_buffer k elf add_addr p bytes flags)
      unfolding load_elf_buffer
      load_elf_buffer-KeepsOnFail bytes flags = KeepsOnFail-bind _ _ (Maintains-guard _ _) (λ u.
          KeepsOnFail-bind _ _ (Maintains-guard _ _) (λ u'.
            KeepsOnFail-bind _ _ (Maintains-lift _) (λ ehdr.
              KeepsOnFail-bind _ _ (Maintains-guard _ _)
                (λ u''. load_rel_image-KeepsOnFail bytes flags))))

      load_embedded_elf-KeepsOnFail :
          (bytes : Option (List ℕ)) (flags : ℕ)
          → KeepsOnFail (Same k c t) (load_embedded_elf k elf add_addr p bytes flags)
      unfolding load_embedded_elf
      load_embedded_elf-KeepsOnFail none flags = KeepsOnFail-Maintains _ (Maintains-raise _)
      load_embedded_elf-KeepsOnFail (some bytes) flags =
          KeepsOnFail-bind _ _ (Maintains-guard _ _) (λ u. load_elf_buffer-KeepsOnFail bytes flags)

      load_embedded-KeepsOnFail :
          (image flags : ℕ) → KeepsOnFail (Same k c t) (load_embedded k elf add_addr p image flags)
      unfolding load_embedded
      load_embedded-KeepsOnFail image flags =
          KeepsOnFail-if _ _ _
            (KeepsOnFail-bind _ _ (Maintains-guard _ _)
              (λ u. load_exec_blob-KeepsOnFail (some p.exec) p.entry_vaddr p.rx_size))
            (load_embedded_elf-KeepsOnFail (embedded_bytes p image) flags)

      pub load_image-KeepsOnFail :
          (image flags : ℕ) → KeepsOnFail (Same k c t) (load_image k elf add_addr p image flags)
      unfolding load_image
      load_image-KeepsOnFail image flags =
          KeepsOnFail-bind _ _ (Maintains-guard _ _) (λ u. load_embedded-KeepsOnFail image flags)

  module _ (elf : Elf) (add_addr : ℕ) (p : Payloads) where
    free_after-KeepsOnFail :
        (buf : ℕ) (m : Action (World k) (Unit {0}))
        → KeepsOnFail (Same k c t) m
        → KeepsOnFail (Same k c t) (free_after k elf add_addr p buf m)
    unfolding free_after
    free_after-KeepsOnFail buf m km = record { run = λ w p h. km.run w p h }

    pub load_uri-KeepsOnFail :
        (uri : Option Name) (flags : ℕ)
        → KeepsOnFail (Same k c t) (load_uri k elf add_addr p uri flags)
    unfolding load_uri load_file
    load_uri-KeepsOnFail none flags = KeepsOnFail-Maintains _ (Maintains-raise _)
    load_uri-KeepsOnFail (some uri) flags =
        KeepsOnFail-if _ _ _ (KeepsOnFail-Maintains _ (Maintains-raise _))
          (embed (parse_embed_uri uri))
      where
        embed :
            (o : Option (ℕ × ℕ))
            → KeepsOnFail (Same k c t) (elim o [
              | some (image, embed_flags) ↦
                  load_embedded k elf add_addr p image (lk_modloader.Base.bit_or embed_flags flags)
              | none ↦ load_file k elf add_addr p uri flags
            ])
        embed (some (image, embed_flags)) = load_embedded-KeepsOnFail elf add_addr p image _
        embed none =
            KeepsOnFail-bind _ _ (fetch-Maintains k _ (Same-Indifferent k c t) (some uri)) (λ f.
              free_after-KeepsOnFail f.0 _ (load_elf_buffer-KeepsOnFail elf add_addr p f.1 flags))

module _ (k : Kernel) (elf : Elf) (add_addr : ℕ) (p : Payloads) (w : World k) where
  -- A load of an embedded image that does not succeed leaves modloader_mod and the export table as
  -- they were, whatever stopped it.
  pub load_image_failed :
      (image flags : ℕ)
      → is_done (load_image k elf add_addr p image flags w).0 ≡ false
      → ((load_image k elf add_addr p image flags w).1.current ≡ w.current)
        × ((load_image k elf add_addr p image flags w).1.exports ≡ w.exports)
  load_image_failed image flags h =
      (load_image-KeepsOnFail k w.current w.exports elf add_addr p image flags).run w (refl, refl) h

  -- A load from a URI, embedded or a file, that does not succeed leaves modloader_mod and the
  -- export table as they were, whatever stopped it.
  pub load_uri_failed :
      (uri : Option Name) (flags : ℕ)
      → is_done (load_uri k elf add_addr p uri flags w).0 ≡ false
      → ((load_uri k elf add_addr p uri flags w).1.current ≡ w.current)
        × ((load_uri k elf add_addr p uri flags w).1.exports ≡ w.exports)
  load_uri_failed uri flags h =
      (load_uri-KeepsOnFail k w.current w.exports elf add_addr p uri flags).run w (refl, refl) h
