-- ===== src/Action/Ended.antt =====
-- Computations that end: no loop of theirs is cut off by the model's fuel.
use lk_modloader.Base.{Bool, true, false, Option, none, some, ◌≢◌, if◌then◌else◌}
use lk_modloader.Status.{Error, Result, ok, err}
use lk_modloader.Outcome.{Outcome, done, fail, fault, out_of_fuel, ◌>>=◌, read, check, of_result}
use lk_modloader.Action as Act
use lk_modloader.Action.{
  Action, continue, pure, raise, lift, gets, modify, guard, on_error, clean_up,
}

abbrev pub IsEnded : {A : Type 0} → Outcome A → Type 0
IsEnded (done a) = Unit
IsEnded (fail e) = Unit
IsEnded fault = Unit
IsEnded out_of_fuel = ⊥

pub record Ends {S A : Type 0} (m : Action S A) : Type 0 where
  pub run : (s : S) → IsEnded (m s).0

pub IsEnded-ne : {A : Type 0} (r : Outcome A) → IsEnded r → r ≢ out_of_fuel
IsEnded-ne (done a) h e = cc
IsEnded-ne (fail x) h e = cc
IsEnded-ne fault h e = cc
IsEnded-ne out_of_fuel h e = h

-- Outcomes without a loop on fuel.
pub IsEnded-read : {A : Type 0} (o : Option A) → IsEnded (read o)
IsEnded-read none = tt
IsEnded-read (some a) = tt

pub IsEnded-check : (b : Bool) (e : Error) → IsEnded (check b e)
IsEnded-check true e = tt
IsEnded-check false e = tt

pub IsEnded-of_result : {A : Type 0} (r : Result A) → IsEnded (of_result r)
IsEnded-of_result (ok a) = tt
IsEnded-of_result (err e) = tt

pub IsEnded-bind :
    {A B : Type 0} (m : Outcome A) (f : A → Outcome B)
    → IsEnded m
    → ((a : A) → IsEnded (f a))
    → IsEnded (m >>= f)
IsEnded-bind (done a) f hm hf = hf a
IsEnded-bind (fail e) f hm hf = tt
IsEnded-bind fault f hm hf = tt
IsEnded-bind out_of_fuel f hm hf = hm

pub IsEnded-if :
    {A : Type 0} (b : Bool) (m n : Outcome A) → IsEnded m → IsEnded n → IsEnded (if b then m else n)
IsEnded-if true m n hm hn = hm
IsEnded-if false m n hm hn = hn

module _ {S A : Type 0} where
  pub Ends-pure : (a : A) → Ends {S = S} (pure a)
  unfolding pure
  Ends-pure a = record { run = λ s. tt }

  pub Ends-raise : (e : Error) → Ends {S = S} {A = A} (raise e)
  unfolding raise
  Ends-raise e = record { run = λ s. tt }

  pub Ends-lift : (r : Outcome A) → IsEnded r → Ends {S = S} (lift r)
  unfolding lift
  Ends-lift r h = record { run = λ s. h }

  pub Ends-gets : (f : S → A) → Ends (gets f)
  unfolding gets
  Ends-gets f = record { run = λ s. tt }

  pub Ends-if : (b : Bool) (m n : Action S A) → Ends m → Ends n → Ends (if b then m else n)
  Ends-if true m n hm hn = hm
  Ends-if false m n hm hn = hn

  pub Ends-bind :
      {B : Type 0} (m : Action S B) (f : B → Action S A)
      → Ends m
      → ((b : B) → Ends (f b))
      → Ends (Act.◌>>=◌ m f)
  unfolding Act.◌>>=◌
  Ends-bind {B} m f hm hf = record { run = λ s. after (m s).0 (m s).1 (hm.run s) }
    where
      after : (r : Outcome B) (s : S) → IsEnded r → IsEnded (continue r f s).0
      after (done b) s h = (hf b).run s
      after (fail e) s h = tt
      after fault s h = tt
      after out_of_fuel s h = h

  pub Ends-on_error : (cleanup : S → S) (m : Action S A) → Ends m → Ends (on_error cleanup m)
  unfolding on_error
  Ends-on_error cleanup m hm = record { run = λ s. after (m s).0 (m s).1 (hm.run s) }
    where
      after : (r : Outcome A) (s : S) → IsEnded r → IsEnded (clean_up cleanup (r, s)).0
      after (done a) s h = tt
      after (fail e) s h = tt
      after fault s h = tt
      after out_of_fuel s h = h

module _ {S : Type 0} where
  pub Ends-modify : (f : S → S) → Ends (modify f)
  unfolding modify
  Ends-modify f = record { run = λ s. tt }

  pub Ends-guard : (b : Bool) (e : Error) → Ends {S = S} (guard b e)
  unfolding guard
  Ends-guard true e = record { run = λ s. tt }
  Ends-guard false e = record { run = λ s. tt }

pub ruleset ended_rules = (IsEnded-read, IsEnded-check, IsEnded-of_result, IsEnded-bind, IsEnded-if)

pub ruleset ends_rules = (
  Ends-pure, Ends-raise, Ends-lift, Ends-gets, Ends-if, Ends-bind, Ends-on_error, Ends-modify,
  Ends-guard, ended_rules,
)
