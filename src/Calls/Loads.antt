-- ===== src/Calls/Loads.antt =====
-- What every load maintains: a predicate that the writes of a load maintain, and that holds of any whole
-- module.
use lk_modloader.Base.{
  ℕ, ◌≡◌, ◌≢◌, refl, ◌⊎◌, inr, List, Option, none, some, true, arith, length, bit_or,
}
use lk_modloader.Action.{Action}
use lk_modloader.Action.Rules.{
  Maintains, Maintains-raise, Maintains-lift, Maintains-if, Maintains-bind, Maintains-on_error,
  Maintains-guard, Maintains-gets, Maintains-modify,
}
use lk_modloader.Elf.{Elf, Name}
use lk_modloader.Kernel.{Kernel}
use lk_modloader.Symbols.{symbols_clear}
use lk_modloader.World.{
  World, Module, modloader_none, modloader_exec, modloader_rel, no_module, with_module,
}
use lk_modloader.Exec.{load_exec_blob}
use lk_modloader.Rel.{map_image, load_rel_image}
use lk_modloader.Api.{
  Payloads, embedded_bytes, parse_embed_uri, load_elf_buffer, load_embedded_elf, load_embedded,
  load_image, load_file, load_uri, free_after,
}
use lk_modloader.Load.Indifferent.{
  Indifferent, call_service-Maintains, fill_exec-Maintains, fill_image-Maintains, fetch-Maintains,
}

-- `modloader_mod` is all zero, or a loaded module with a kind, with its pages protected, and with a
-- size that was rounded up to pages.
abbrev pub IsWhole : Kernel → Module → Type 0
IsWhole k c =
    (c ≡ no_module)
    ⊎ ((c.loaded ≡ true)
        × (c.wx ≡ true)
        × (c.kind ≢ modloader_none)
        × ((size : ℕ) × (c.size ≡ k.roundup size k.page_size)))

-- Beside the writes of a load that has not ended, a write of a whole module.
pub record Modular (k : Kernel) (P : World k → Type 0) : Type 0 where
  pub kept : Indifferent k P
  pub whole : (c : Module) → IsWhole k c → (w : World k) → P w → P (with_module k c w)

module _ (k : Kernel) (P : World k → Type 0) (d : Modular k P) where
  load_exec_blob-Maintains :
      (blob : Option (List ℕ)) (entry_vaddr rx_size : ℕ)
      → Maintains P (load_exec_blob k blob entry_vaddr rx_size)
  unfolding load_exec_blob
  load_exec_blob-Maintains none entry_vaddr rx_size = Maintains-raise _
  load_exec_blob-Maintains (some blob) entry_vaddr rx_size =
      Maintains-bind _ _ (Maintains-guard _ _) (λ u.
        Maintains-bind _ _ (Maintains-gets _) (λ loaded.
          Maintains-bind _ _ (Maintains-guard _ _) (λ u1.
            Maintains-bind _ _ (call_service-Maintains k P d.kept _) (λ base.
              Maintains-bind _ _ (fill_exec-Maintains k P d.kept blob rx_size base _) (λ u2.
                Maintains-modify _ (
                  d.whole
                    (record {
                      loaded = true;
                      wx = true;
                      kind = modloader_exec;
                      base = base;
                      size = k.roundup (length blob) k.page_size;
                      entry = _;
                    })
                    (inr (refl, refl, (λ e. ground (arith, e)), (_, refl)))))))))

  module _ (elf : Elf) (add_addr : ℕ) where
    load_rel_image-Maintains :
        (image : List ℕ) (flags : ℕ) → Maintains P (load_rel_image k elf add_addr image flags)
    unfolding load_rel_image map_image
    load_rel_image-Maintains image flags = Maintains-bind _ _ (Maintains-guard _ _) (λ u.
        Maintains-bind _ _ (Maintains-gets _) (λ loaded.
          Maintains-bind _ _ (Maintains-guard _ _) (λ u1.
            Maintains-bind _ _
              (Maintains-modify _ (λ w q. d.kept.index symbols_clear w (omega arith) q))
              (λ u2. Maintains-bind _ _ (Maintains-lift _) (λ ehdr.
                Maintains-bind _ _ (Maintains-lift _) (λ u3.
                  Maintains-bind _ _ (Maintains-lift _) (λ placed.
                    Maintains-bind _ _ (Maintains-guard _ _) (λ u4.
                      Maintains-bind _ _ (call_service-Maintains k P d.kept _) (λ base.
                        Maintains-bind _ _
                          (Maintains-on_error _ _ (λ w. d.kept.os _ w)
                            (fill_image-Maintains k P d.kept elf add_addr image _ _ base _ _ _))
                          (λ entry. Maintains-modify _ (
                            d.whole
                              (record {
                                loaded = true;
                                wx = true;
                                kind = modloader_rel;
                                base = base;
                                size = k.roundup placed.0 k.page_size;
                                entry = entry;
                              })
                              (inr (refl, refl, (λ e. ground (arith, e)), (_, refl))))))))))))))

    module _ (p : Payloads) where
      load_elf_buffer-Maintains :
          (bytes : List ℕ) (flags : ℕ) → Maintains P (load_elf_buffer k elf add_addr p bytes flags)
      unfolding load_elf_buffer
      load_elf_buffer-Maintains bytes flags = Maintains-bind _ _ (Maintains-guard _ _) (λ u.
          Maintains-bind _ _ (Maintains-guard _ _) (λ u'.
            Maintains-bind _ _ (Maintains-lift _) (λ ehdr.
              Maintains-bind _ _ (Maintains-guard _ _)
                (λ u''. load_rel_image-Maintains bytes flags))))

      load_embedded_elf-Maintains :
          (bytes : Option (List ℕ)) (flags : ℕ)
          → Maintains P (load_embedded_elf k elf add_addr p bytes flags)
      unfolding load_embedded_elf
      load_embedded_elf-Maintains none flags = Maintains-raise _
      load_embedded_elf-Maintains (some bytes) flags =
          Maintains-bind _ _ (Maintains-guard _ _) (λ u. load_elf_buffer-Maintains bytes flags)

      load_embedded-Maintains :
          (image flags : ℕ) → Maintains P (load_embedded k elf add_addr p image flags)
      unfolding load_embedded
      load_embedded-Maintains image flags =
          Maintains-if _ _ _
            (Maintains-bind _ _ (Maintains-guard _ _)
              (λ u. load_exec_blob-Maintains (some p.exec) p.entry_vaddr p.rx_size))
            (load_embedded_elf-Maintains (embedded_bytes p image) flags)

      pub load_image-Maintains :
          (image flags : ℕ) → Maintains P (load_image k elf add_addr p image flags)
      unfolding load_image
      load_image-Maintains image flags =
          Maintains-bind _ _ (Maintains-guard _ _) (λ u. load_embedded-Maintains image flags)

      free_after-Maintains :
          (buf : ℕ) (m : Action (World k) (Unit {0}))
          → Maintains P m
          → Maintains P (free_after k elf add_addr p buf m)
      unfolding free_after
      free_after-Maintains buf m km = record { run = λ w c. d.kept.os _ _ (km.run w c) }

      load_file-Maintains :
          (uri : Name) (flags : ℕ) → Maintains P (load_file k elf add_addr p uri flags)
      unfolding load_file
      load_file-Maintains uri flags =
          Maintains-bind _ _ (fetch-Maintains k P d.kept (some uri))
            (λ f. free_after-Maintains f.0 _ (load_elf_buffer-Maintains f.1 flags))

      pub load_uri-Maintains :
          (uri : Option Name) (flags : ℕ) → Maintains P (load_uri k elf add_addr p uri flags)
      unfolding load_uri
      load_uri-Maintains none flags = Maintains-raise _
      load_uri-Maintains (some uri) flags =
          Maintains-if _ _ _ (Maintains-raise _) (embed (parse_embed_uri uri))
        where
          embed :
              (o : Option (ℕ × ℕ))
              → Maintains P (elim o [
                | some (image, embed_flags) ↦
                    load_embedded k elf add_addr p image (bit_or embed_flags flags)
                | none ↦ load_file k elf add_addr p uri flags
              ])
          embed (some (image, embed_flags)) = load_embedded-Maintains image _
          embed none = load_file-Maintains uri flags
