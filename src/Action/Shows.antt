-- ===== src/Action/Shows.antt =====
-- What follows from the mere fact that an action has returned.
use lk_modloader.Base.{◌≡◌, refl, Bool, true, false, if◌then◌else◌, arith}
use lk_modloader.Status.{Error}
use lk_modloader.Outcome.{Outcome, done, fail, fault, out_of_fuel}
use lk_modloader.Action.{Action, ◌>>=◌, lift, guard}
use lk_modloader.Action.Ends.{Ensures, Ensures-bind, Ensures-any}

-- Where `m` returns, `F` holds.
abbrev pub Shows : {S A : Type 0} → Action S A → Type 0 → Type 0
Shows m F = Ensures (λ s. Unit {0}) m (λ a s. F)

module _ {S A F : Type 0} where
  pub Shows-fact : (m : Action S A) → F → Shows m F
  Shows-fact m fact = record { run = λ s p a s' h. fact }

  pub Shows-bind :
      {B : Type 0} (m : Action S B) (f : B → Action S A)
      → ((b : B) → Shows (f b) F)
      → Shows (m >>= f) F
  Shows-bind m f kf = Ensures-bind m f (Ensures-any m) kf

  pub Shows-first :
      {B : Type 0} (m : Action S B) (f : B → Action S A) → Shows m F → Shows (m >>= f) F
  Shows-first m f km = Ensures-bind m f km (λ b. record { run = λ s fact a s' h. fact })

  pub Shows-lift :
      {B : Type 0} (r : Outcome B) (f : B → Action S A)
      → ((b : B) → r ≡ done b → Shows (f b) F)
      → Shows (lift r >>= f) F
  unfolding ◌>>=◌
  Shows-lift (done b) f kf = record { run = λ s p a s' h. (kf b refl).run s p a s' h }
  Shows-lift (fail e) f kf = record { run = λ s p a s' h. absurd (ground (arith, h)) }
  Shows-lift fault f kf = record { run = λ s p a s' h. absurd (ground (arith, h)) }
  Shows-lift out_of_fuel f kf = record { run = λ s p a s' h. absurd (ground (arith, h)) }

  pub Shows-guard :
      (b : Bool) (e : Error) (f : Unit {0} → Action S A)
      → (b ≡ false → Shows (f tt) F)
      → Shows (guard b e >>= f) F
  unfolding ◌>>=◌
  Shows-guard true e f kf = record { run = λ s p a s' h. absurd (ground (arith, h)) }
  Shows-guard false e f kf = record { run = λ s p a s' h. (kf refl).run s p a s' h }

  pub Shows-test :
      (b : Bool) (m n : Action S A)
      → (b ≡ true → Shows m F)
      → (b ≡ false → Shows n F)
      → Shows (if b then m else n) F
  Shows-test true m n km kn = km refl
  Shows-test false m n km kn = kn refl

  pub Shows-both : {G H : Type 0} (m : Action S A) → Shows m G → Shows m H → (G → H → F) → Shows m F
  Shows-both m kg kh both = record {
    run = λ s p a s' h. both (kg.run s p a s' h) (kh.run s p a s' h);
  }
