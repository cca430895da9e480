-- ===== src/Shell/Exits.antt =====
-- What the exit code of `modtest` says of the state.
use lk_modloader.Base.{
  ℕ, ◌≡◌, refl, subst, ap, ◌⊎◌, inl, inr, List, [], ◌∷◌, some, Bool, true, false, arith, Bool-cases,
  if◌then◌else◌,
}
use lk_modloader.Outcome.{Outcome, done, fail, fault, out_of_fuel, is_done}
use lk_modloader.Action.{Action, ◌>>=◌, pure, continue}
use lk_modloader.Action.Rules.{Maintains, Maintains-gets, Maintains-guard, Maintains-modify}
use lk_modloader.Action.Ends.{
  KeepsOnFail, KeepsOnFail-Maintains, KeepsOnFail-bind, KeepsOnFail-modify,
}
use lk_modloader.Elf.{Elf, Name}
use lk_modloader.Kernel.{Kernel}
use lk_modloader.Export.{Exports}
use lk_modloader.World.{World, Module}
use lk_modloader.Api.{Payloads, unload}
use lk_modloader.Load.Kept.{Same, Same-Indifferent}
use lk_modloader.Load.Indifferent.{call_service-Maintains, ask-Maintains}
use lk_modloader.Load.Failed.{load_image-KeepsOnFail, load_uri-KeepsOnFail}
use lk_modloader.Shell.{
  Subcommand, load_embedded_image, load_file_image, run_module, call_symbol, unload_module,
  check_pages, show_info, unknown_word, subcommand, exit_ok, exit_error, exit_status, exit_code,
  run_status, run_exit, is_error_code, call_sym, wxcheck, perform, cmd_modtest,
}
use lk_modloader.Calls.Loads.{Modular}
use lk_modloader.Calls.Commands.{run-Maintains, wx_verify-Maintains, cmd_modtest-Maintains}

-- The code is 0 or -1, and after -1 `P` holds as before.
pub record Exits {S : Type 0} (P : S → Type 0) (m : Action S ℕ) : Type 0 where
  pub run :
      (s : S)
      → P s
      → (code : ℕ) (s' : S) → m s ≡ (done code, s')
      → (code ≡ exit_ok) ⊎ ((code ≡ exit_error) × P s')

module _ {S : Type 0} {P : S → Type 0} where
  Exits-pure : (code : ℕ) → (code ≡ exit_ok) ⊎ (code ≡ exit_error) → Exits P (pure code)
  unfolding pure
  Exits-pure code (inl zero_code) = record {
    run = λ s p code' s' h. inl (ground (arith, h, zero_code));
  }
  Exits-pure code (inr minus_one) = record {
    run = λ s p code' s' h. inr (ground (arith, h, minus_one), subst P (ap (λ x. x.1) h) p);
  }

  Exits-exit_code : (m : Action S (Unit {0})) → KeepsOnFail P m → Exits P (exit_code m)
  unfolding exit_code
  Exits-exit_code m km = record {
    run = λ s p code s' h. after (m s).0 (m s).1 code s' (km.run s p) h;
  }
    where
      after :
          (r : Outcome (Unit {0})) (t : S) (code : ℕ) (s' : S)
          → (is_done r ≡ false → P t)
          → ◌≡◌ {A = Outcome ℕ × S} (exit_status r, t) (done code, s')
          → (code ≡ exit_ok) ⊎ ((code ≡ exit_error) × P s')
      after (done u) t code s' k h = inl (ground (arith, h))
      after (fail e) t code s' k h = inr (ground (arith, h), subst P (ap (λ x. x.1) h) (k refl))
      after fault t code s' k h = absurd (ground (arith, h))
      after out_of_fuel t code s' k h = absurd (ground (arith, h))

  Exits-run_exit : (m : Action S ℕ) → Maintains P m → Exits P (run_exit m)
  unfolding run_exit
  Exits-run_exit m km = record {
    run = λ s p code s' h. after (m s).0 (m s).1 code s' (km.run s p) h;
  }
    where
      after :
          (r : Outcome ℕ) (t : S) (code : ℕ) (s' : S)
          → P t
          → ◌≡◌ {A = Outcome ℕ × S} (run_status r, t) (done code, s')
          → (code ≡ exit_ok) ⊎ ((code ≡ exit_error) × P s')
      after (done ret) t code s' p h = elim (Bool-cases (is_error_code ret)) [
        | inl bad ↦ inr (ground (arith, h, bad), subst P (ap (λ x. x.1) h) p)
        | inr good ↦ inl (ground (arith, h, good))
      ]
      after (fail e) t code s' p h = inr (ground (arith, h), subst P (ap (λ x. x.1) h) p)
      after fault t code s' p h = absurd (ground (arith, h))
      after out_of_fuel t code s' p h = absurd (ground (arith, h))

  Exits-if : (b : Bool) (m n : Action S ℕ) → Exits P m → Exits P n → Exits P (if b then m else n)
  Exits-if true m n km kn = km
  Exits-if false m n km kn = kn

  Exits-bind :
      {A : Type 0} (m : Action S A) (f : A → Action S ℕ)
      → Maintains P m
      → ((a : A) → Exits P (f a))
      → Exits P (m >>= f)
  unfolding ◌>>=◌
  Exits-bind {A} m f km kf = record {
    run = λ s p code s' h. after (m s).0 (m s).1 code s' (km.run s p) h;
  }
    where
      after :
          (r : Outcome A) (t : S) (code : ℕ) (s' : S)
          → P t
          → continue r f t ≡ (done code, s')
          → (code ≡ exit_ok) ⊎ ((code ≡ exit_error) × P s')
      after (done a) t code s' p h = (kf a).run t p code s' h
      after (fail e) t code s' p h = absurd (ground (arith, h))
      after fault t code s' p h = absurd (ground (arith, h))
      after out_of_fuel t code s' p h = absurd (ground (arith, h))

module _ (k : Kernel) (c : Module) (t : Exports) where
  unload-KeepsOnFail : KeepsOnFail (Same k c t) (unload k)
  unfolding unload
  unload-KeepsOnFail = KeepsOnFail-bind _ _ (Maintains-gets _) (λ loaded.
      KeepsOnFail-bind _ _ (Maintains-guard _ _) (λ u.
        KeepsOnFail-bind _ _ (Maintains-gets _) (λ base.
          KeepsOnFail-bind _ _ (call_service-Maintains k _ (Same-Indifferent k c t) _) (λ u'.
            KeepsOnFail-bind _ _ (Maintains-modify _ (λ w p. p)) (λ u''. KeepsOnFail-modify _)))))

  failed : Exits (Same k c t) (pure exit_error)
  failed = Exits-pure _ (inr refl)

  call_sym-Exits : (name : Name) → Exits (Same k c t) (call_sym k name)
  unfolding call_sym
  call_sym-Exits name = Exits-bind _ _ (Maintains-gets _) (λ c'.
      Exits-bind _ _ (Maintains-gets _) (λ addr. Exits-if _ _ _ failed (
        Exits-bind _ _ (ask-Maintains k _ (Same-Indifferent k c t) _)
          (λ ret. Exits-pure _ (inl refl)))))

  wxcheck-Exits : Exits (Same k c t) (wxcheck k)
  unfolding wxcheck
  wxcheck-Exits = Exits-bind _ _ (Maintains-gets _) (λ c'. Exits-if _ _ _ failed (
      Exits-exit_code _
        (KeepsOnFail-Maintains _ (wx_verify-Maintains k _ (Same-Indifferent k c t)))))

  module _ (elf : Elf) (add_addr : ℕ) (p : Payloads) where
    perform-Exits :
        (s : Subcommand) (args : List Name) → Exits (Same k c t) (perform k elf add_addr p s args)
    unfolding perform
    perform-Exits (load_embedded_image image flags) args =
        Exits-exit_code _ (load_image-KeepsOnFail k c t elf add_addr p image flags)
    perform-Exits (load_file_image flags) [] = failed
    perform-Exits (load_file_image flags) (path ∷ rest) =
        Exits-exit_code _ (load_uri-KeepsOnFail k c t elf add_addr p (some path) flags)
    perform-Exits run_module args = Exits-run_exit _ (run-Maintains k _ (Same-Indifferent k c t))
    perform-Exits call_symbol [] = failed
    perform-Exits call_symbol (name ∷ rest) = call_sym-Exits name
    perform-Exits unload_module args = Exits-exit_code _ unload-KeepsOnFail
    perform-Exits check_pages args = wxcheck-Exits
    perform-Exits show_info args = Exits-pure _ (inl refl)
    perform-Exits unknown_word args = failed

    cmd_modtest-Exits : (argv : List Name) → Exits (Same k c t) (cmd_modtest k elf add_addr p argv)
    unfolding cmd_modtest
    cmd_modtest-Exits [] = failed
    cmd_modtest-Exits (name ∷ []) = failed
    cmd_modtest-Exits (name ∷ word ∷ args) = perform-Exits (subcommand word) args

same_exports : (k : Kernel) (t : Exports) → Modular k (λ w. w.exports ≡ t)
same_exports k t = record {
  kept = record {
    os = λ s w p. p;
    mem = λ f w p. p;
    mounted = λ b w p. p;
    index = λ t' w small p. p;
  };
  whole = λ c is_whole w p. p;
}

-- Whatever its arguments, a modtest command that ends leaves the export table as it was and exits
-- with 0 or with -1, and if it exits with -1 then modloader_mod is as it was.
pub modtest_exit :
    (k : Kernel) (elf : Elf) (add_addr : ℕ) (p : Payloads) (argv : List Name) (w w' : World k)
    (code : ℕ)
    → cmd_modtest k elf add_addr p argv w ≡ (done code, w')
    → (w'.exports ≡ w.exports)
      × ((code ≡ exit_ok) ⊎ ((code ≡ exit_error) × (w'.current ≡ w.current)))
modtest_exit k elf add_addr p argv w w' code h =
    let table =
      (cmd_modtest-Maintains k _ (same_exports k w.exports) elf add_addr p argv).run w refl in
    let exits = cmd_modtest-Exits k w.current w.exports elf add_addr p argv in
    (
      subst (λ v. v.exports ≡ w.exports) (ap (λ x. x.1) h) table,
      elim (exits.run w (refl, refl) code w' h) [
        | inl zero_code ↦ inl zero_code
        | inr (minus_one, kept) ↦ inr (minus_one, kept.0)
      ],
    )
