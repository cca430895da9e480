-- ===== src/Calls/Consistent.antt =====
-- Every call of the loader keeps the invariant of its state.
use lk_modloader.Base.{ℕ, ◌≤◌, refl, subst, sym, inl, Option, arith, length}
use lk_modloader.Status.{Result}
use lk_modloader.Outcome.{of_result}
use lk_modloader.Action.Rules.{Maintains}
use lk_modloader.Elf.{Elf, Name}
use lk_modloader.Kernel.{Kernel}
use lk_modloader.Export.{Exports, export_register, export_unregister}
use lk_modloader.Export.Lookup.{
  IsValid, initial_exports-IsValid, export_register-IsValid, export_unregister-IsValid,
}
use lk_modloader.Symbols.{max_module_exports}
use lk_modloader.World.{World}
use lk_modloader.Api.{Payloads}
use lk_modloader.Calls.{
  register_call, unregister_call, Step, load_images, load_uris, runs, unloads, verifies, registers,
  unregisters, commands, Reachable, starts, steps,
}
use lk_modloader.Calls.Loads.{IsWhole, Modular, load_image-Maintains, load_uri-Maintains}
use lk_modloader.Calls.Commands.{
  run-Maintains, unload-Maintains, wx_verify-Maintains, cmd_modtest-Maintains,
}

-- The export table has its sixteen slots with distinct names, the index of symbols fits its array, and
-- `modloader_mod` is all zero or a whole module.
abbrev pub IsConsistent : (k : Kernel) → World k → Type 0
IsConsistent k w =
    IsValid w.exports × (length w.module_exports ≤ max_module_exports) × IsWhole k w.current

consistent : (k : Kernel) → Modular k (IsConsistent k)
consistent k = record {
  kept = record {
    os = λ s w c. c;
    mem = λ f w c. c;
    mounted = λ b w c. c;
    index = λ t w small c. (c.0, small, c.2);
  };
  whole = λ m is_whole w c. (c.0, c.1, is_whole);
}

module _ (k : Kernel) where
  -- An operation of the export table, which keeps the table well formed.
  on_table :
      (op : Exports → Result (Unit {0}) × Exports)
      → ((t : Exports) → IsValid t → IsValid (op t).1)
      → Maintains
          (IsConsistent k)
          (λ w. (of_result (op w.exports).0, record w { exports = (op w.exports).1 }))
  on_table op keeps = record { run = λ w c. (keeps w.exports c.0, c.1, c.2) }

  register_call-Maintains :
      (add_addr : ℕ) (name : Option Name) (addr : ℕ)
      → Maintains (IsConsistent k) (register_call k add_addr name addr)
  unfolding register_call
  register_call-Maintains add_addr name addr =
      on_table (export_register add_addr name addr) (export_register-IsValid add_addr name addr)

  unregister_call-Maintains :
      (name : Option Name) → Maintains (IsConsistent k) (unregister_call k name)
  unfolding unregister_call
  unregister_call-Maintains name =
      on_table (export_unregister name) (export_unregister-IsValid name)

module _ (k : Kernel) (elf : Elf) (add_addr : ℕ) (p : Payloads) where
  Step-IsConsistent :
      {w w' : World k} → Step k elf add_addr p w w' → IsConsistent k w → IsConsistent k w'
  Step-IsConsistent {w} step c = elim step [
    | load_images image flags e ↦ subst (IsConsistent k) (sym e) (
        (load_image-Maintains k (IsConsistent k) (consistent k) elf add_addr p image flags).run w c)
    | load_uris uri flags e ↦
        subst (IsConsistent k) (sym e)
          ((load_uri-Maintains k (IsConsistent k) (consistent k) elf add_addr p uri flags).run w c)
    | runs e ↦
        subst (IsConsistent k) (sym e)
          ((run-Maintains k (IsConsistent k) (consistent k).kept).run w c)
    | unloads e ↦
        subst (IsConsistent k) (sym e)
          ((unload-Maintains k (IsConsistent k) (consistent k)).run w c)
    | verifies e ↦
        subst (IsConsistent k) (sym e)
          ((wx_verify-Maintains k (IsConsistent k) (consistent k).kept).run w c)
    | registers name addr e ↦
        subst (IsConsistent k) (sym e) ((register_call-Maintains k add_addr name addr).run w c)
    | unregisters name e ↦
        subst (IsConsistent k) (sym e) ((unregister_call-Maintains k name).run w c)
    | commands argv e ↦
        subst (IsConsistent k) (sym e)
          ((cmd_modtest-Maintains k (IsConsistent k) (consistent k) elf add_addr p argv).run w c)
  ]

  -- In every state that calls lead to from start-up (loads of images and of URIs, runs, unloads,
  -- checks of the pages, registers, unregisters and shell commands, in any order, with any
  -- arguments and however each ends), the export table has its sixteen slots with distinct names,
  -- the index of symbols has at most 32 entries, and modloader_mod is all zero or a loaded module
  -- with a kind, its pages marked as protected, and a size that was rounded up to pages.
  pub Reachable-IsConsistent : (w : World k) → Reachable k elf add_addr p w → IsConsistent k w
  Reachable-IsConsistent w (starts os mem) = (initial_exports-IsValid, omega arith, inl refl)
  Reachable-IsConsistent w' (steps {w} r step) = Step-IsConsistent step (Reachable-IsConsistent w r)
