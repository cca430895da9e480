-- ===== src/Calls/Commands.antt =====
-- What run, unload, the check of the pages, and the shell command maintain.
use lk_modloader.Base.{ℕ, refl, inl, List, [], ◌∷◌, some, arith}
use lk_modloader.Action.{Action}
use lk_modloader.Action.Rules.{
  Maintains, Maintains-pure, Maintains-if, Maintains-bind, Maintains-guard, Maintains-gets,
  Maintains-modify,
}
use lk_modloader.Elf.{Elf, Name}
use lk_modloader.Kernel.{Kernel}
use lk_modloader.Symbols.{symbols_clear}
use lk_modloader.World.{World}
use lk_modloader.Api.{Payloads, run, unload, wx_verify}
use lk_modloader.Load.Indifferent.{
  Indifferent, call_service-Maintains, on_os-Maintains, ask-Maintains,
}
use lk_modloader.Shell.{
  Subcommand, load_embedded_image, load_file_image, run_module, call_symbol, unload_module,
  check_pages, show_info, unknown_word, subcommand, exit_code, run_exit, call_sym, wxcheck, perform,
  cmd_modtest,
}
use lk_modloader.Calls.Loads.{Modular, load_image-Maintains, load_uri-Maintains}

module _ (k : Kernel) (P : World k → Type 0) (i : Indifferent k P) where
  pub run-Maintains : Maintains P (run k)
  unfolding run
  run-Maintains = Maintains-bind _ _ (Maintains-gets _) (λ loaded.
      Maintains-bind _ _ (Maintains-guard _ _)
        (λ u. Maintains-bind _ _ (Maintains-gets _) (λ entry. ask-Maintains k P i _)))

  pub wx_verify-Maintains : Maintains P (wx_verify k)
  unfolding wx_verify
  wx_verify-Maintains = Maintains-bind _ _ (Maintains-gets _) (λ loaded.
      Maintains-bind _ _ (Maintains-guard _ _)
        (λ u. Maintains-bind _ _ (Maintains-gets _) (λ c. on_os-Maintains k P i _)))

  pub exit_code-Maintains :
      (m : Action (World k) (Unit {0})) → Maintains P m → Maintains P (exit_code m)
  unfolding exit_code
  exit_code-Maintains m km = record { run = λ w c. km.run w c }

  pub run_exit-Maintains : (m : Action (World k) ℕ) → Maintains P m → Maintains P (run_exit m)
  unfolding run_exit
  run_exit-Maintains m km = record { run = λ w c. km.run w c }

  pub call_sym-Maintains : (name : Name) → Maintains P (call_sym k name)
  unfolding call_sym
  call_sym-Maintains name = Maintains-bind _ _ (Maintains-gets _) (λ c.
      Maintains-bind _ _ (Maintains-gets _) (λ addr.
        Maintains-if _ _ _ (Maintains-pure _)
          (Maintains-bind _ _ (ask-Maintains k P i _) (λ ret. Maintains-pure _))))

  pub wxcheck-Maintains : Maintains P (wxcheck k)
  unfolding wxcheck
  wxcheck-Maintains =
      Maintains-bind _ _ (Maintains-gets _)
        (λ c. Maintains-if _ _ _ (Maintains-pure _) (exit_code-Maintains _ wx_verify-Maintains))

module _ (k : Kernel) (P : World k → Type 0) (d : Modular k P) where
  pub unload-Maintains : Maintains P (unload k)
  unfolding unload
  unload-Maintains = Maintains-bind _ _ (Maintains-gets _) (λ loaded.
      Maintains-bind _ _ (Maintains-guard _ _) (λ u. Maintains-bind _ _ (Maintains-gets _) (λ base.
        Maintains-bind _ _ (call_service-Maintains k P d.kept _) (λ u1.
          Maintains-bind _ _
            (Maintains-modify _ (λ w q. d.kept.index symbols_clear w (omega arith) q))
            (λ u2. Maintains-modify _ (d.whole _ (inl refl)))))))

  module _ (elf : Elf) (add_addr : ℕ) (p : Payloads) where
    perform-Maintains :
        (s : Subcommand) (args : List Name) → Maintains P (perform k elf add_addr p s args)
    unfolding perform
    perform-Maintains (load_embedded_image image flags) args =
        exit_code-Maintains k P d.kept _ (load_image-Maintains k P d elf add_addr p image flags)
    perform-Maintains (load_file_image flags) [] = Maintains-pure _
    perform-Maintains (load_file_image flags) (path ∷ rest) =
        exit_code-Maintains k P d.kept _ (load_uri-Maintains k P d elf add_addr p (some path) flags)
    perform-Maintains run_module args = run_exit-Maintains k P d.kept _ (run-Maintains k P d.kept)
    perform-Maintains call_symbol [] = Maintains-pure _
    perform-Maintains call_symbol (name ∷ rest) = (call_sym-Maintains k P d.kept) name
    perform-Maintains unload_module args = exit_code-Maintains k P d.kept _ unload-Maintains
    perform-Maintains check_pages args = (wxcheck-Maintains k P d.kept)
    perform-Maintains show_info args = Maintains-pure _
    perform-Maintains unknown_word args = Maintains-pure _

    pub cmd_modtest-Maintains : (argv : List Name) → Maintains P (cmd_modtest k elf add_addr p argv)
    unfolding cmd_modtest
    cmd_modtest-Maintains [] = Maintains-pure _
    cmd_modtest-Maintains (name ∷ []) = Maintains-pure _
    cmd_modtest-Maintains (name ∷ word ∷ args) = perform-Maintains (subcommand word) args
