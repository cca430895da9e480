-- ===== src/Load/Verified.antt =====
-- After any load that succeeds, the check of the pages of the loaded module.
use lk_modloader.Base.{
  ℕ, ◌+◌, ◌^◌, ◌≤◌, ◌≡◌, refl, ap, subst, ◌∙◌, ◌⊎◌, inl, inr, bit_or, List, Option, none, some,
  true, arith,
}
use lk_modloader.Status.{err_invalid_args}
use lk_modloader.Outcome.{done}
use lk_modloader.Action.{Action, ◌>>=◌, raise}
use lk_modloader.Action.Ends.{Ensures, Ensures-bind, Ensures-if, Ensures-any, Ensures-never}
use lk_modloader.Elf.{Elf, Name}
use lk_modloader.Kernel.{Kernel, MmuLaws}
use lk_modloader.Wx.{verify_wx}
use lk_modloader.Wx.Enforce.{verify_passes}
use lk_modloader.World.{World, on_os}
use lk_modloader.Api.{
  Payloads, embedded_bytes, load_elf_buffer, load_embedded_elf, load_embedded, load_image, load_uri,
  load_file, free_after, parse_embed_uri, wx_verify,
}
use lk_modloader.Load.Protected.{
  Any, IsProtected, load_exec_blob-IsProtected, load_rel_image-IsProtected,
}

module _ (k : Kernel) (laws : MmuLaws k) (elf : Elf) (add_addr : ℕ) (p : Payloads) where
  load_elf_buffer-IsProtected :
      (bytes : List ℕ) (flags : ℕ)
      → Ensures
          (Any {S = World k})
          (load_elf_buffer k elf add_addr p bytes flags)
          (λ a w. IsProtected k w)
  unfolding load_elf_buffer
  load_elf_buffer-IsProtected bytes flags = Ensures-bind _ _ (Ensures-any _) (λ u.
      Ensures-bind _ _ (Ensures-any _) (λ u'. Ensures-bind _ _ (Ensures-any _) (λ ehdr.
        Ensures-bind _ _ (Ensures-any _)
          (λ u''. load_rel_image-IsProtected k laws elf add_addr bytes flags))))

  load_embedded_elf-IsProtected :
      (bytes : Option (List ℕ)) (flags : ℕ)
      → Ensures
          (Any {S = World k})
          (load_embedded_elf k elf add_addr p bytes flags)
          (λ a w. IsProtected k w)
  unfolding load_embedded_elf
  load_embedded_elf-IsProtected none flags = Ensures-never _ (λ s. unfold raise in refl)
  load_embedded_elf-IsProtected (some bytes) flags =
      Ensures-bind _ _ (Ensures-any _) (λ u. load_elf_buffer-IsProtected bytes flags)

  load_embedded-IsProtected :
      (image flags : ℕ)
      → Ensures
          (Any {S = World k})
          (load_embedded k elf add_addr p image flags)
          (λ a w. IsProtected k w)
  unfolding load_embedded
  load_embedded-IsProtected image flags =
      Ensures-if _ _ _
        (Ensures-bind _ _ (Ensures-any _)
          (λ u. load_exec_blob-IsProtected k laws (some p.exec) p.entry_vaddr p.rx_size))
        (load_embedded_elf-IsProtected (embedded_bytes p image) flags)

  load_image-IsProtected :
      (image flags : ℕ)
      → Ensures
          (Any {S = World k})
          (load_image k elf add_addr p image flags)
          (λ a w. IsProtected k w)
  unfolding load_image
  load_image-IsProtected image flags =
      Ensures-bind _ _ (Ensures-any _) (λ u. load_embedded-IsProtected image flags)

  free_after-IsProtected :
      (buf : ℕ) (m : Action (World k) (Unit {0}))
      → Ensures (Any {S = World k}) m (λ a w. IsProtected k w)
      → Ensures (Any {S = World k}) (free_after k elf add_addr p buf m) (λ a w. IsProtected k w)
  unfolding free_after
  free_after-IsProtected buf m km = record {
    run = λ w t a w' h.
        let loads : m w ≡ (done a, (m w).1) = λ i. ((h i).0, (m w).1) in
        subst (IsProtected k) (ap (λ r. r.1) h) (freed (m w).1 buf (km.run w tt a (m w).1 loads));
  }
    where
      freed :
          (w : World k) (buf : ℕ)
          → IsProtected k w
          → IsProtected k (record w { os = k.free w.os buf })
      freed w buf (loaded, safe) = (
        loaded,
        λ below room.
            let pages = safe below room in
            (
              pages.0,
              pages.1,
              λ i lt.
                  let page = pages.2 i lt in (page.0, laws.query-free w.os buf _ ∙ page.1, page.2),
            ),
      )

  load_uri-IsProtected :
      (uri : Option Name) (flags : ℕ)
      → Ensures (Any {S = World k}) (load_uri k elf add_addr p uri flags) (λ a w. IsProtected k w)
  unfolding load_uri load_file
  load_uri-IsProtected none flags = Ensures-never _ (λ s. unfold raise in refl)
  load_uri-IsProtected (some uri) flags = Ensures-if _ _ _ refused (embed (parse_embed_uri uri))
    where
      refused :
          Ensures {A = Unit {0}}
            (Any {S = World k})
            (raise err_invalid_args)
            (λ a w. IsProtected k w)
      refused = Ensures-never _ (λ s. unfold raise in refl)

      embed :
          (o : Option (ℕ × ℕ))
          → Ensures
              (Any {S = World k})
              (elim o [
                | some (image, embed_flags) ↦
                    load_embedded k elf add_addr p image (bit_or embed_flags flags)
                | none ↦ load_file k elf add_addr p uri flags
              ])
              (λ a w. IsProtected k w)
      embed (some (image, embed_flags)) = load_embedded-IsProtected image _
      embed none =
          Ensures-bind _ _ (Ensures-any _)
            (λ f. free_after-IsProtected f.0 _ (load_elf_buffer-IsProtected f.1 flags))

module _ (k : Kernel) (laws : MmuLaws k) where
  wx_verify-IsProtected :
      (w : World k)
      → IsProtected k w
      → w.current.base + w.current.size ≤ 2 ^ 32
      → w.current.size + k.page_size ≤ 2 ^ 32
      → wx_verify k w ≡ (done tt, w)
  unfolding wx_verify ◌>>=◌ on_os
  wx_verify-IsProtected w safe below room =
      let pages = safe.1 below room in
      let passes =
        verify_passes k laws w.current.base w.current.size below room pages.0 w.os pages.1
          pages.2 in
      let checked : on_os k (verify_wx k w.current.base w.current.size) w ≡ (done tt, w) =
        ap (λ r. (r.0, record w { os = r.1 })) passes in
      ground (arith, safe.0, checked)

module _ (k : Kernel) (laws : MmuLaws k) (elf : Elf) (add_addr : ℕ) (p : Payloads) where
  -- A load of either kind that succeeded.
  abbrev pub Loaded : World k → World k → Type 0
  Loaded w w' =
      ((image : ℕ) × (flags : ℕ) × (load_image k elf add_addr p image flags w ≡ (done tt, w')))
      ⊎ ((uri : Option Name) × (flags : ℕ) × (load_uri k elf add_addr p uri flags w
            ≡ (done tt, w')))

  -- For a kernel that keeps the MMU laws: when a load of an embedded image or a load from a URI has
  -- succeeded, for an image of either kind, and the mapping of the module ends at or below 2 ^ 32
  -- and its size with a page added is at most 2 ^ 32, then a module is loaded, and wx_verify
  -- succeeds and changes nothing.
  pub wx_verify-Loaded :
      (w w' : World k)
      → Loaded w w'
      → w'.current.base + w'.current.size ≤ 2 ^ 32
      → w'.current.size + k.page_size ≤ 2 ^ 32
      → (w'.current.loaded ≡ true) × (wx_verify k w' ≡ (done tt, w'))
  wx_verify-Loaded w w' (inl (image, flags, h)) below room =
      let safe = (load_image-IsProtected k laws elf add_addr p image flags).run w tt tt w' h in
      (safe.0, wx_verify-IsProtected k laws w' safe below room)
  wx_verify-Loaded w w' (inr (uri, flags, h)) below room =
      let safe = (load_uri-IsProtected k laws elf add_addr p uri flags).run w tt tt w' h in
      (safe.0, wx_verify-IsProtected k laws w' safe below room)
