-- ===== src/Calls/Ending.antt =====
-- Every call of the loader ends, in every state that calls lead to.
use lk_modloader.Base.{ℕ, ◌≢◌, sym, subst, arith, inl, inr, Bool-cases, List, [], ◌∷◌, Option, some}
use lk_modloader.Outcome.{Outcome, done, fail, fault, out_of_fuel}
use lk_modloader.Action.{Action, ◌>>=◌}
use lk_modloader.Action.Ended.{
  IsEnded, IsEnded-ne, Ends, Ends-pure, Ends-gets, Ends-if, Ends-bind, Ends-modify, Ends-guard,
}
use lk_modloader.Elf.{Elf, Name}
use lk_modloader.Kernel.{Kernel, PageLaws}
use lk_modloader.World.{World, Module, on_os}
use lk_modloader.Wx.Ending.{IsPages, roundup-IsPages, verify_wx-Ends}
use lk_modloader.Load.Ending.{call_service-Ends, ask-Ends, load_image-Ends, load_uri-Ends}
use lk_modloader.Api.{Payloads, run, unload, wx_verify, load_image, load_uri}
use lk_modloader.Shell.{
  Subcommand, load_embedded_image, load_file_image, run_module, call_symbol, unload_module,
  check_pages, show_info, unknown_word, subcommand, exit_status, exit_code, run_status, run_exit,
  call_sym, wxcheck, perform, cmd_modtest,
}
use lk_modloader.Calls.{Reachable}
use lk_modloader.Calls.Loads.{IsWhole}
use lk_modloader.Calls.Consistent.{Reachable-IsConsistent}

exit_status-IsEnded : (r : Outcome (Unit {0})) → IsEnded r → IsEnded (exit_status r)
exit_status-IsEnded (done u) h = tt
exit_status-IsEnded (fail e) h = tt
exit_status-IsEnded fault h = tt
exit_status-IsEnded out_of_fuel h = h

run_status-IsEnded : (r : Outcome ℕ) → IsEnded r → IsEnded (run_status r)
run_status-IsEnded (done ret) h = tt
run_status-IsEnded (fail e) h = tt
run_status-IsEnded fault h = tt
run_status-IsEnded out_of_fuel h = h

module _ (k : Kernel) (l : PageLaws k) where
  run-Ends : Ends (run k)
  unfolding run
  run-Ends = Ends-bind _ _ (Ends-gets _) (λ loaded.
      Ends-bind _ _ (Ends-guard _ _) (λ u. Ends-bind _ _ (Ends-gets _) (λ entry. ask-Ends k _)))

  unload-Ends : Ends (unload k)
  unfolding unload
  unload-Ends = Ends-bind _ _ (Ends-gets _) (λ loaded. Ends-bind _ _ (Ends-guard _ _) (λ u.
      Ends-bind _ _ (Ends-gets _) (λ base.
        Ends-bind _ _ (call_service-Ends k _)
          (λ u1. Ends-bind _ _ (Ends-modify _) (λ u2. Ends-modify _)))))

  call_sym-Ends : (name : Name) → Ends (call_sym k name)
  unfolding call_sym
  call_sym-Ends name = Ends-bind _ _ (Ends-gets _) (λ c.
      Ends-bind _ _ (Ends-gets _)
        (λ addr. Ends-if _ _ _ (Ends-pure _) (Ends-bind _ _ (ask-Ends k _) (λ ret. Ends-pure _))))

  exit_code-Ends : (m : Action (World k) (Unit {0})) → Ends m → Ends (exit_code m)
  unfolding exit_code
  exit_code-Ends m h = record { run = λ w. exit_status-IsEnded _ (h.run w) }

  run_exit-Ends : (m : Action (World k) ℕ) → Ends m → Ends (run_exit m)
  unfolding run_exit
  run_exit-Ends m h = record { run = λ w. run_status-IsEnded _ (h.run w) }

  -- The check of a whole module.
  whole-IsPages : (c : Module) → IsWhole k c → IsPages k c.size
  whole-IsPages c (inl nothing) = record {
    count = 0;
    whole = ground (arith, nothing);
    small = ground (arith, nothing);
  }
  whole-IsPages c (inr (loaded, wx, kind, (size, rounded))) =
      subst (IsPages k) (sym rounded) (roundup-IsPages k l size)

  wx_verify-IsEnded : (w : World k) → IsWhole k w.current → IsEnded (wx_verify k w).0
  unfolding wx_verify on_os ◌>>=◌
  wx_verify-IsEnded w whole = elim (Bool-cases w.current.loaded) [
    | inl loaded ↦ rw loaded (
        (verify_wx-Ends k l w.current.size (whole-IsPages w.current whole) w.current.base).run w.os)
    | inr absent ↦ rw absent tt
  ]

  wxcheck-IsEnded : (w : World k) → IsWhole k w.current → IsEnded (wxcheck k w).0
  unfolding wxcheck ◌>>=◌ exit_code
  wxcheck-IsEnded w whole = elim (Bool-cases w.current.loaded) [
    | inl loaded ↦ simp loaded (exit_status-IsEnded _ (wx_verify-IsEnded w whole))
    | inr absent ↦ simp absent tt
  ]

  module _ (elf : Elf) (add_addr : ℕ) (p : Payloads) where
    perform-IsEnded :
        (s : Subcommand) (args : List Name) (w : World k)
        → IsWhole k w.current
        → IsEnded (perform k elf add_addr p s args w).0
    unfolding perform
    perform-IsEnded (load_embedded_image image flags) args w whole =
        (exit_code-Ends _ (load_image-Ends k l elf add_addr p image flags)).run w
    perform-IsEnded (load_file_image flags) [] w whole = unfold lk_modloader.Action.pure in tt
    perform-IsEnded (load_file_image flags) (path ∷ rest) w whole =
        (exit_code-Ends _ (load_uri-Ends k l elf add_addr p (some path) flags)).run w
    perform-IsEnded run_module args w whole = (run_exit-Ends _ run-Ends).run w
    perform-IsEnded call_symbol [] w whole = unfold lk_modloader.Action.pure in tt
    perform-IsEnded call_symbol (name ∷ rest) w whole = (call_sym-Ends name).run w
    perform-IsEnded unload_module args w whole = (exit_code-Ends _ unload-Ends).run w
    perform-IsEnded check_pages args w whole = wxcheck-IsEnded w whole
    perform-IsEnded show_info args w whole = unfold lk_modloader.Action.pure in tt
    perform-IsEnded unknown_word args w whole = unfold lk_modloader.Action.pure in tt

    cmd_modtest-IsEnded :
        (argv : List Name) (w : World k)
        → IsWhole k w.current
        → IsEnded (cmd_modtest k elf add_addr p argv w).0
    unfolding cmd_modtest
    cmd_modtest-IsEnded [] w whole = unfold lk_modloader.Action.pure in tt
    cmd_modtest-IsEnded (name ∷ []) w whole = unfold lk_modloader.Action.pure in tt
    cmd_modtest-IsEnded (name ∷ word ∷ args) w whole =
        perform-IsEnded (subcommand word) args w whole

    -- None of the calls is cut off by the fuel.
    abbrev pub AllEnd : World k → Type 0
    AllEnd w =
        ((image flags : ℕ) → (load_image k elf add_addr p image flags w).0 ≢ out_of_fuel)
        × ((uri : Option Name) (flags : ℕ)
            → (load_uri k elf add_addr p uri flags w).0 ≢ out_of_fuel)
        × ((run k w).0 ≢ out_of_fuel)
        × ((unload k w).0 ≢ out_of_fuel)
        × ((wx_verify k w).0 ≢ out_of_fuel)
        × ((argv : List Name) → (cmd_modtest k elf add_addr p argv w).0 ≢ out_of_fuel)

    -- For a kernel whose page size is not 0 and whose round-ups are whole pages in 32 bits: in
    -- every state that calls lead to from start-up, every load of an image or a URI, every run,
    -- unload, check of the pages and shell command ends before the fuel of its page loops is used
    -- up.
    pub calls_end : (w : World k) → Reachable k elf add_addr p w → AllEnd w
    calls_end w reached =
        let whole : IsWhole k w.current = (Reachable-IsConsistent k elf add_addr p w reached).2 in
        (
          (λ image flags. IsEnded-ne _ ((load_image-Ends k l elf add_addr p image flags).run w)),
          (λ uri flags. IsEnded-ne _ ((load_uri-Ends k l elf add_addr p uri flags).run w)),
          IsEnded-ne _ (run-Ends.run w),
          IsEnded-ne _ (unload-Ends.run w),
          IsEnded-ne _ (wx_verify-IsEnded w whole),
          (λ argv. IsEnded-ne _ (cmd_modtest-IsEnded argv w whole)),
        )
