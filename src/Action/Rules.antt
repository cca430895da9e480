-- ===== src/Action/Rules.antt =====
-- State predicates that an action maintains however it ends, one rule for each way to build one.
use lk_modloader.Base.{Bool, true, false, if◌then◌else◌}
use lk_modloader.Status.{Error}
use lk_modloader.Outcome.{Outcome, done, fail, fault, out_of_fuel}
use lk_modloader.Action.{
  Action, gets, continue, ◌>>=◌, pure, raise, lift, modify, guard, on_error, clean_up,
}

-- From a state with `P`, `m` ends in a state with `P`.
pub record Maintains {ℓ} {S A : Type 0} (P : S → Type ℓ) (m : Action S A) : Type ℓ where
  pub run : (s : S) → P s → P (m s).1

module _ {ℓ} {S A : Type 0} {P : S → Type ℓ} where
  pub Maintains-pure : (a : A) → Maintains P (pure a)
  unfolding pure
  Maintains-pure a = record { run = λ s p. p }

  pub Maintains-raise : (e : Error) → Maintains P (raise {A = A} e)
  unfolding raise
  Maintains-raise e = record { run = λ s p. p }

  pub Maintains-lift : (r : Outcome A) → Maintains P (lift r)
  unfolding lift
  Maintains-lift r = record { run = λ s p. p }

  pub Maintains-gets : (f : S → A) → Maintains P (gets f)
  unfolding gets
  Maintains-gets f = record { run = λ s p. p }

  pub Maintains-if :
      (b : Bool) (m n : Action S A)
      → Maintains P m
      → Maintains P n
      → Maintains P (if b then m else n)
  Maintains-if true m n km kn = km
  Maintains-if false m n km kn = kn

  pub Maintains-bind :
      {B : Type 0} (m : Action S B) (f : B → Action S A)
      → Maintains P m
      → ((b : B) → Maintains P (f b))
      → Maintains P (m >>= f)
  unfolding ◌>>=◌
  Maintains-bind {B} m f km kf = record { run = λ s p. after (m s).0 (m s).1 (km.run s p) }
    where
      after : (r : Outcome B) (s : S) → P s → P (continue r f s).1
      after (done b) s p = (kf b).run s p
      after (fail e) s p = p
      after fault s p = p
      after out_of_fuel s p = p

  pub Maintains-on_error :
      (cleanup : S → S) (m : Action S A)
      → ((s : S) → P s → P (cleanup s))
      → Maintains P m
      → Maintains P (on_error cleanup m)
  unfolding on_error
  Maintains-on_error cleanup m kc km = record { run = λ s p. after (m s).0 (m s).1 (km.run s p) }
    where
      after : (r : Outcome A) (s : S) → P s → P (clean_up cleanup (r, s)).1
      after (done a) s p = p
      after (fail e) s p = kc s p
      after fault s p = p
      after out_of_fuel s p = p

module _ {ℓ} {S : Type 0} {P : S → Type ℓ} where
  pub Maintains-guard : (b : Bool) (e : Error) → Maintains P (guard b e)
  unfolding guard
  Maintains-guard true e = record { run = λ s p. p }
  Maintains-guard false e = record { run = λ s p. p }

  pub Maintains-modify : (f : S → S) → ((s : S) → P s → P (f s)) → Maintains P (modify f)
  unfolding modify
  Maintains-modify f k = record { run = k }

pub ruleset maintains_rules = (
  Maintains-pure, Maintains-raise, Maintains-lift, Maintains-if, Maintains-bind, Maintains-on_error,
  Maintains-guard,
)
