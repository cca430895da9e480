-- ===== src/Load/Unload.antt =====
-- Unload, and the operations that need a module.
use lk_modloader.Base.{
  ◌≡◌, refl, ap, [], ◌∷◌, Option, none, some, true, false, arith, inl, inr, Bool-cases,
}
use lk_modloader.Status.{err_not_ready, err_not_found, Result-cases}
use lk_modloader.Outcome.{done, fail, is_done}
use lk_modloader.Action.{◌>>=◌}
use lk_modloader.Elf.{Name}
use lk_modloader.Kernel.{Kernel}
use lk_modloader.World.{World, no_module, call_service, on_os}
use lk_modloader.Api.{unload, run, wx_verify, lookup_symbol}

module _ (k : Kernel) where
  -- Nothing can be done with a state that has no module.
  abbrev pub IsUnloaded : World k → Type 0
  IsUnloaded w =
      ((run k w).0 ≡ fail err_not_ready)
      × ((wx_verify k w).0 ≡ fail err_not_ready)
      × ((unload k w).0 ≡ fail err_not_found)
      × ((name : Option Name) → lookup_symbol k name w ≡ 0)

  lookup-unloaded :
      (name : Option Name) (w : World k) → w.current.loaded ≡ false → lookup_symbol k name w ≡ 0
  unfolding lookup_symbol
  lookup-unloaded none w e = refl
  lookup-unloaded (some []) w e = refl
  lookup-unloaded (some (c ∷ cs)) w e = rw e refl

  pub not_loaded-IsUnloaded : (w : World k) → w.current.loaded ≡ false → IsUnloaded w
  unfolding run wx_verify unload ◌>>=◌
  not_loaded-IsUnloaded w e = (rw e refl, rw e refl, rw e refl, λ name. lookup-unloaded name w e)

  -- When unload succeeds, a module was loaded; modloader_mod is all zero, the index of symbols is
  -- empty, the export table is as before, and run, wx_verify, unload and symbol lookups all refuse.
  pub unload_done :
      (w w' : World k)
      → unload k w ≡ (done tt, w')
      → (w.current.loaded ≡ true)
        × (w'.current ≡ no_module)
        × (w'.module_exports ≡ [])
        × (w'.exports ≡ w.exports)
        × IsUnloaded w'
  unfolding unload ◌>>=◌ call_service on_os
  unload_done w w' h = elim (Bool-cases w.current.loaded) [
    | inl loaded ↦ elim (Result-cases (k.vmm_free_region w.os w.current.base).0) [
      | inl (u, freed) ↦
          let end : (w'.current ≡ no_module) × (w'.module_exports ≡ []) × (w'.exports ≡ w.exports) =
            ground (arith, loaded, freed, h) in
          (loaded, end.0, end.1, end.2, not_loaded-IsUnloaded w' (ap (λ m. m.loaded) end.0))
      | inr (e, failed) ↦ absurd (ground (arith, loaded, failed, h))
    ]
    | inr not_loaded ↦ absurd (ground (arith, not_loaded, h))
  ]

  -- An unload that does not succeed leaves modloader_mod and the index of symbols as they were.
  pub unload_failed :
      (w : World k)
      → is_done (unload k w).0 ≡ false
      → ((unload k w).1.current ≡ w.current) × ((unload k w).1.module_exports ≡ w.module_exports)
  unfolding unload ◌>>=◌ call_service on_os
  unload_failed w h = elim (Bool-cases w.current.loaded) [
    | inl loaded ↦ elim (Result-cases (k.vmm_free_region w.os w.current.base).0) [
      | inl (u, freed) ↦ absurd (ground (arith, loaded, freed, h))
      | inr (e, failed) ↦ ground (arith, loaded, failed)
    ]
    | inr not_loaded ↦ ground (arith, not_loaded)
  ]
