-- ===== src/Action/Ends.antt =====
-- What holds of the state where an action has failed, and where it has returned: one rule for each way
-- to build an action.
use lk_modloader.Base.{Bool, true, false, ◌≡◌, refl, ap, subst, if◌then◌else◌, arith}
use lk_modloader.Status.{Error}
use lk_modloader.Outcome.{Outcome, done, fail, fault, out_of_fuel, is_done, Outcome-cases}
use lk_modloader.Action.{Action, continue, ◌>>=◌, pure, raise, modify, on_error}
use lk_modloader.Action.Rules.{Maintains}

-- From a state with `P`, `m` ends in a state with `P` unless it returns.
pub record KeepsOnFail {ℓ} {S A : Type 0} (P : S → Type ℓ) (m : Action S A) : Type ℓ where
  pub run : (s : S) → P s → is_done (m s).0 ≡ false → P (m s).1

-- From a state with `P`, if `m` returns a value then `Q` holds of it and of the new state.
pub record Ensures {ℓ κ} {S A : Type 0} (P : S → Type ℓ) (m : Action S A) (Q : A → S → Type κ)
    : Type (ℓ ⊔ κ) where
  pub run : (s : S) → P s → (a : A) (s' : S) → m s ≡ (done a, s') → Q a s'

module _ {ℓ} {S A : Type 0} {P : S → Type ℓ} where
  pub KeepsOnFail-Maintains : (m : Action S A) → Maintains P m → KeepsOnFail P m
  KeepsOnFail-Maintains m km = record { run = λ s p h. km.run s p }

  pub KeepsOnFail-bind :
      {B : Type 0} (m : Action S B) (f : B → Action S A)
      → Maintains P m
      → ((b : B) → KeepsOnFail P (f b))
      → KeepsOnFail P (m >>= f)
  unfolding ◌>>=◌
  KeepsOnFail-bind {B} m f km kf = record { run = λ s p h. after (m s).0 (m s).1 (km.run s p) h }
    where
      after :
          (r : Outcome B) (s : S) → P s → is_done (continue r f s).0 ≡ false → P (continue r f s).1
      after (done b) s p h = (kf b).run s p h
      after (fail e) s p h = p
      after fault s p h = p
      after out_of_fuel s p h = p

  pub KeepsOnFail-if :
      (b : Bool) (m n : Action S A)
      → KeepsOnFail P m
      → KeepsOnFail P n
      → KeepsOnFail P (if b then m else n)
  KeepsOnFail-if true m n km kn = km
  KeepsOnFail-if false m n km kn = kn

module _ {ℓ} {S : Type 0} {P : S → Type ℓ} where
  pub KeepsOnFail-modify : (f : S → S) → KeepsOnFail P (modify f)
  unfolding modify
  KeepsOnFail-modify f = record { run = λ s p h. absurd (ground (arith, h)) }

module _ {ℓ κ} {S A : Type 0} {P : S → Type ℓ} {Q : A → S → Type κ} where
  pub Ensures-bind {ρ} :
      {B : Type 0} {R : B → S → Type ρ} (m : Action S B) (f : B → Action S A)
      → Ensures P m R
      → ((b : B) → Ensures (R b) (f b) Q)
      → Ensures P (m >>= f) Q
  unfolding ◌>>=◌
  Ensures-bind {B = B} {R} m f km kf = record {
    run = λ s p a s' h. after (m s).0 (m s).1 (λ b e. km.run s p b (m s).1 (pair e)) a s' h;
  }
    where
      pair : {s : S} {b : B} → (m s).0 ≡ done b → m s ≡ (done b, (m s).1)
      pair {s} e i = (e i, (m s).1)

      after :
          (r : Outcome B) (s : S)
          → ((b : B) → r ≡ done b → R b s)
          → (a : A) (s' : S) → continue r f s ≡ (done a, s')
          → Q a s'
      after (done b) s k a s' h = (kf b).run s (k b refl) a s' h
      after (fail e) s k a s' h = absurd (ground (arith, h))
      after fault s k a s' h = absurd (ground (arith, h))
      after out_of_fuel s k a s' h = absurd (ground (arith, h))

  pub Ensures-if :
      (b : Bool) (m n : Action S A)
      → Ensures P m Q
      → Ensures P n Q
      → Ensures P (if b then m else n) Q
  Ensures-if true m n km kn = km
  Ensures-if false m n km kn = kn

  pub Ensures-on_error :
      (cleanup : S → S) (m : Action S A) → Ensures P m Q → Ensures P (on_error cleanup m) Q
  unfolding on_error
  Ensures-on_error cleanup m km = record {
    run = λ s p a s' h. km.run s p a s' (ground (arith, Outcome-cases (m s).0, h));
  }

-- An action that nothing is asked of.
pub Ensures-any {ℓ} :
    {S A : Type 0} {P : S → Type ℓ} (m : Action S A) → Ensures P m (λ a s. Unit {0})
Ensures-any m = record { run = λ s p a s' h. tt }

-- A predicate that an action maintains holds where it returns.
pub Ensures-Maintains {ℓ} :
    {S A : Type 0} {P : S → Type ℓ} (m : Action S A) → Maintains P m → Ensures P m (λ a s. P s)
Ensures-Maintains {P = P} m km = record {
  run = λ s p a s' h. subst P (ap (λ r. r.1) h) (km.run s p);
}

module _ {ℓ κ} {S : Type 0} {P : S → Type ℓ} {Q : Unit {0} → S → Type κ} where
  pub Ensures-modify : (f : S → S) → ((s : S) → P s → Q tt (f s)) → Ensures P (modify f) Q
  unfolding modify
  Ensures-modify f k = record { run = λ s p a s' h. subst (Q tt) (ap (λ r. r.1) h) (k s p) }

-- What is returned is fixed, and the state stays.
pub Ensures-pure {ℓ} : {S A : Type 0} {P : S → Type ℓ} (a : A) → Ensures P (pure a) (λ b s. P s)
unfolding pure
Ensures-pure {P = P} a = record { run = λ s p b s' h. subst P (ap (λ r. r.1) h) p }

-- An action that never returns.
pub Ensures-never {ℓ κ} :
    {S A : Type 0} {P : S → Type ℓ} {Q : A → S → Type κ} (m : Action S A)
    → ((s : S) → is_done (m s).0 ≡ false)
    → Ensures P m Q
Ensures-never m never = record { run = λ s p a s' h. absurd (ground (arith, h, never s)) }

-- From a state with `P`, `m` does not return, and ends in a state with `P`.
pub record Refuses {ℓ} {S A : Type 0} (P : S → Type ℓ) (m : Action S A) : Type ℓ where
  pub run : (s : S) → P s → (is_done (m s).0 ≡ false) × P (m s).1

module _ {ℓ} {S A : Type 0} {P : S → Type ℓ} where
  pub Refuses-raise : (e : Error) → Refuses P (raise {A = A} e)
  unfolding raise
  Refuses-raise e = record { run = λ s p. (refl, p) }

  pub Refuses-if :
      (b : Bool) (m n : Action S A) → Refuses P m → Refuses P n → Refuses P (if b then m else n)
  Refuses-if true m n km kn = km
  Refuses-if false m n km kn = kn

  pub Refuses-bind :
      {B : Type 0} (m : Action S B) (f : B → Action S A)
      → Maintains P m
      → ((b : B) → Refuses P (f b))
      → Refuses P (m >>= f)
  unfolding ◌>>=◌
  Refuses-bind {B} m f km kf = record { run = λ s p. after (m s).0 (m s).1 (km.run s p) }
    where
      after :
          (r : Outcome B) (s : S)
          → P s
          → (is_done (continue r f s).0 ≡ false) × P (continue r f s).1
      after (done b) s p = (kf b).run s p
      after (fail e) s p = (refl, p)
      after fault s p = (refl, p)
      after out_of_fuel s p = (refl, p)
