-- ===== src/Load/Released.antt =====
-- Fetches, loads from a URI, and unloads: what is held after them.
use lk_modloader.Base.{
  ℕ, ◌≡◌, ◌≢◌, refl, subst, ◌∙◌, List, [], Option, none, some, true, false, arith, bit_or, ◌⊎◌, inl,
  inr, Bool-cases,
}
use lk_modloader.Status.{ok, Error}
use lk_modloader.Outcome.{Outcome, done, fail, fault, out_of_fuel}
use lk_modloader.Action.{Action, ◌>>=◌, raise}
use lk_modloader.Action.Triple.{
  Holds, After, After-bind, Holds-raise, Holds-if, Holds-bind, Holds-fails, Keeps-lift, Keeps-guard,
}
use lk_modloader.Elf.{Elf, Name}
use lk_modloader.Kernel.{Kernel}
use lk_modloader.Kernel.Resources.{
  region, block, Held, with_held, Agrees, Gains, Loses, ResourceLaws,
}
use lk_modloader.Kernel.Held.{gain_lose, gain_gain_lose, held_gained}
use lk_modloader.World.{World, on_os, call_service, free_heap, no_module}
use lk_modloader.Api.{
  Payloads, embedded_bytes, parse_embed_uri, load_elf_buffer, load_embedded_elf, load_embedded,
  load_file, load_uri, free_after, unload,
}
use lk_modloader.Symbols.{symbols_clear}
use lk_modloader.Load.Unload.{unload_done}
use lk_modloader.Rel.Malformed.{IsMalformed}
use lk_modloader.Fetch.{fetch}
use lk_modloader.Export.{is_empty}
use lk_modloader.Load.Balance.{Has, HasMore, HasModule}
use lk_modloader.Load.Leak.{MayLeak, MayLeak-map, MayLeak-lose, calm}
use lk_modloader.Load.Images.{load_rel_image-Holds, load_exec_blob-Holds}
use lk_modloader.Load.Fetched.{fetch-Holds}

module _ (k : Kernel) (elf : Elf) (p : Payloads) where
  -- The bytes of the image that a load from the URI is given: those of an embedded image, or those
  -- that a fetch returns.
  abbrev pub IsUriImage : Option Name → World k → List ℕ → Type 0
  IsUriImage uri w bytes =
      ((name : Name) × (image : ℕ) × (flags : ℕ) × (uri ≡ some name)
        × (parse_embed_uri name ≡ some (image, flags))
        × (embedded_bytes p image ≡ some bytes))
      ⊎ ((buf : ℕ) × (w' : World k) × (fetch k uri w ≡ (done (buf, bytes), w')))

  -- A relocation section of that image is misplaced.
  abbrev pub IsUriMalformed : Option Name → World k → Type 0
  IsUriMalformed uri w = (bytes : List ℕ) × IsUriImage uri w bytes × IsMalformed elf bytes

module _ (k : Kernel) (l : ResourceLaws k) where
  module _ (elf : Elf) (add_addr : ℕ) (p : Payloads) where
    load_elf_buffer-Holds :
        (bytes : List ℕ) (flags : ℕ) (h : Held)
        → Holds
            (Has k l h)
            (load_elf_buffer k elf add_addr p bytes flags)
            (λ u w. HasModule k l h w)
            (MayLeak k l (IsMalformed elf bytes) h)
    unfolding load_elf_buffer
    load_elf_buffer-Holds bytes flags h = Holds-bind _ _ (calm k l h _ (Keeps-guard _ _)) (λ u.
        Holds-bind _ _ (calm k l h _ (Keeps-guard _ _)) (λ u1.
          Holds-bind _ _ (calm k l h _ (Keeps-lift _)) (λ ehdr.
            Holds-bind _ _ (calm k l h _ (Keeps-guard _ _))
              (λ u2. load_rel_image-Holds k l elf add_addr bytes flags h))))

    load_embedded_elf-Holds :
        (Why : Type 0) (o : Option (List ℕ)) (flags : ℕ) (h : Held)
        → ((bytes : List ℕ) → o ≡ some bytes → IsMalformed elf bytes → Why)
        → Holds
            (Has k l h)
            (load_embedded_elf k elf add_addr p o flags)
            (λ u w. HasModule k l h w)
            (MayLeak k l Why h)
    unfolding load_embedded_elf
    load_embedded_elf-Holds Why none flags h why = Holds-raise _ (λ w has. inl has)
    load_embedded_elf-Holds Why (some bytes) flags h why =
        Holds-bind _ _ (calm k l h _ (Keeps-guard _ _)) (λ u.
          Holds-fails _ (MayLeak-map k l (why bytes refl) h) (load_elf_buffer-Holds bytes flags h))

    load_embedded-Holds :
        (Why : Type 0) (image flags : ℕ) (h : Held)
        → ((bytes : List ℕ) → embedded_bytes p image ≡ some bytes → IsMalformed elf bytes → Why)
        → Holds
            (Has k l h)
            (load_embedded k elf add_addr p image flags)
            (λ u w. HasModule k l h w)
            (MayLeak k l Why h)
    unfolding load_embedded
    load_embedded-Holds Why image flags h why =
        Holds-if _ _ _
          (Holds-bind _ _ (calm k l h _ (Keeps-guard _ _))
            (λ u. calm k l h _ (load_exec_blob-Holds k l (some p.exec) p.entry_vaddr p.rx_size h)))
          (load_embedded_elf-Holds Why (embedded_bytes p image) flags h why)

    free_after-Holds :
        (Why : Type 0) (buf : ℕ) (m : Action (World k) (Unit {0})) (h : Held)
        → ((h' : Held) → Holds (Has k l h') m (λ u w. HasModule k l h' w) (MayLeak k l Why h'))
        → Holds
            (λ w. (buf ≢ 0) × HasMore k l h (block buf) w)
            (free_after k elf add_addr p buf m)
            (λ u w. HasModule k l h w)
            (MayLeak k l Why h)
    unfolding free_after
    free_after-Holds Why buf m h km = record {
      run = λ w b. after b.0 b.1.0 (m w) ((km (with_held h (block buf) true)).run w b.1.1);
    }
      where
        after :
            buf ≢ 0
            → h (block buf) ≡ false
            → (r : Outcome (Unit {0}) × World k)
            → After
                (λ u w. HasModule k l (with_held h (block buf) true) w)
                (MayLeak k l Why (with_held h (block buf) true))
                r
            → After (λ u w. HasModule k l h w) (MayLeak k l Why h) (r.0, free_heap k buf r.1)
        after given fresh (done u, w) (loaded, more) = (
          loaded,
          gain_gain_lose _ (l.held w.os) h (block buf) (region w.current.base) fresh more.0 more.1
              (l.free_block w.os buf given),
        )
        after given fresh (fail e, w) leak =
            MayLeak-lose k l h (block buf) w (free_heap k buf w) fresh
              (λ live. l.free_block w.os buf given) leak
        after given fresh (fault, w) has = tt
        after given fresh (out_of_fuel, w) has = tt

    -- What holds after a load from a URI.
    abbrev AfterLoad : Option Name → World k → Held → Outcome (Unit {0}) × World k → Type 0
    AfterLoad uri w h =
        After (λ u w'. HasModule k l h w') (MayLeak k l (IsUriMalformed k elf p uri w) h)

    abbrev AfterRun : Option Name → World k → Held → Action (World k) (Unit {0}) → Type 0
    AfterRun uri w h m = AfterLoad uri w h (m w)

    load_file_after :
        (uri : Name) (flags : ℕ) (h : Held) (w : World k)
        → Has k l h w
        → AfterLoad (some uri) w h (load_file k elf add_addr p uri flags w)
    unfolding load_file
    load_file_after uri flags h w has =
        After-bind _ _ (fetch k (some uri)) _ w has (calm k l h _ (fetch-Holds k l h (some uri)))
          (λ f w' fetched more.
            (free_after-Holds (IsUriMalformed k elf p (some uri) w) f.0 _ h (λ h'.
                Holds-fails _ (MayLeak-map k l (λ bad. (f.1, inr (f.0, w', fetched), bad)) h')
                  (load_elf_buffer-Holds f.1 flags h'))).run
              w' more)

    load_uri_after :
        (uri : Option Name) (flags : ℕ) (h : Held) (w : World k)
        → Has k l h w
        → AfterLoad uri w h (load_uri k elf add_addr p uri flags w)
    unfolding load_uri raise
    load_uri_after none flags h w has = inl has
    load_uri_after (some uri) flags h w has = elim (Bool-cases (is_empty (some uri))) [
      | inl empty ↦ rw empty (inl has)
      | inr given ↦ rw given (embed (parse_embed_uri uri) refl)
    ]
      where
        embed :
            (o : Option (ℕ × ℕ))
            → parse_embed_uri uri ≡ o
            → AfterRun (some uri) w h (elim o [
              | some (image, embed_flags) ↦
                  load_embedded k elf add_addr p image (bit_or embed_flags flags)
              | none ↦ load_file k elf add_addr p uri flags
            ])
        embed (some (image, embed_flags)) parsed =
            (load_embedded-Holds (IsUriMalformed k elf p (some uri) w) image _ h
                (λ bytes at bad. (bytes, inl (uri, image, embed_flags, refl, parsed, at), bad))).run
              w has
        embed none parsed = load_file_after uri flags h w has

module _ (k : Kernel) (l : ResourceLaws k) where
  -- An unload of a module whose mapping is held succeeds and gives the mapping back.
  unload_held :
      (w : World k)
      → w.current.loaded ≡ true
      → l.held w.os (region w.current.base) ≡ true
      → (w' : World k) × (unload k w ≡ (done tt, w'))
        × Loses (l.held w.os) (region w.current.base) (l.held w'.os)
  unfolding unload ◌>>=◌ call_service on_os
  unload_held w loaded live =
      let os' = (k.vmm_free_region w.os w.current.base).1 in
      let freed : k.vmm_free_region w.os w.current.base ≡ (ok tt, os') =
        ground (arith, l.vmm_free_held w.os w.current.base live) in
      (
        record w { os = os'; module_exports = symbols_clear; current = no_module },
        ground (arith, loaded, freed),
        l.vmm_free_ok w.os w.current.base freed,
      )

module _ (k : Kernel) (l : ResourceLaws k) (elf : Elf) (add_addr : ℕ) (p : Payloads)
    (uri : Option Name) (flags : ℕ) where
  -- A load that succeeds has a module loaded, and holds its mapping and nothing else beside what was held.
  pub load_uri-Gains :
      (w w' : World k)
      → load_uri k elf add_addr p uri flags w ≡ (done tt, w')
      → (w'.current.loaded ≡ true) × Gains (l.held w.os) (region w'.current.base) (l.held w'.os)
  load_uri-Gains w w' h =
      subst (AfterLoad k l elf add_addr p uri w (l.held w.os)) h
        (load_uri_after k l elf add_addr p uri flags (l.held w.os) w (λ r. refl))

  -- For a kernel that keeps the resource laws: a load from a URI, embedded or a file, that reports
  -- an error, whatever stopped it, has given back every mapping, heap block, file and device that
  -- it took, or it has given back all but one heap block, and then the image that it was given,
  -- embedded or fetched, has a relocation section that is misplaced: the section that it relocates
  -- is not in the table of sections, or is loaded while the sum in 32 bits of the relocations'
  -- offset and size passes the end of the image.
  pub load_uri_releases :
      (w w' : World k) (e : Error)
      → load_uri k elf add_addr p uri flags w ≡ (fail e, w')
      → Agrees (l.held w'.os) (l.held w.os)
        ⊎ (IsUriMalformed k elf p uri w
            × ((b : ℕ) × (b ≢ 0) × Gains (l.held w.os) (block b) (l.held w'.os)))
  load_uri_releases w w' e h =
      subst (AfterLoad k l elf add_addr p uri w (l.held w.os)) h
        (load_uri_after k l elf add_addr p uri flags (l.held w.os) w (λ r. refl))

  -- For a kernel that keeps the resource laws: after a load from a URI that succeeds, unload
  -- succeeds, modloader_mod is all zero and the index of symbols is empty, and exactly the
  -- mappings, heap blocks, files and devices are held that were held before the load.
  pub unload-load_uri :
      (w w' : World k)
      → load_uri k elf add_addr p uri flags w ≡ (done tt, w')
      → (w'' : World k) × (unload k w' ≡ (done tt, w''))
        × (w''.current ≡ no_module)
        × (w''.module_exports ≡ [])
        × Agrees (l.held w''.os) (l.held w.os)
  unload-load_uri w w' h =
      let (loaded, (fresh, more)) = load_uri-Gains w w' h in
      let base = region w'.current.base in
      let (w'', ran, given) =
        unload_held k l w' loaded (more base ∙ held_gained (l.held w.os) base) in
      let ended = unload_done k w' w'' ran in
      (
        w'',
        ran,
        ended.1,
        ended.2,
        gain_lose (l.held w''.os) (l.held w'.os) (l.held w.os) base fresh more given,
      )
