-- ===== src/Action/Triple.antt =====
-- Triples: what holds after an action that returned, and after one that failed. A fault or an end of
-- fuel asks nothing.
use lk_modloader.Base.{◌≡◌, ◌≢◌, refl, Bool, true, false, if◌then◌else◌}
use lk_modloader.Status.{Error}
use lk_modloader.Outcome.{Outcome, done, fail, fault, out_of_fuel}
use lk_modloader.Action.Rules.{Maintains}
use lk_modloader.Action.{
  Action, continue, ◌>>=◌, pure, raise, lift, gets, modify, guard, on_error, clean_up,
}

abbrev pub After : {S A : Type 0} → (A → S → Type 0) → (S → Type 0) → Outcome A × S → Type 0
After Q E (done a, s) = Q a s
After Q E (fail e, s) = E s
After Q E (fault, s) = Unit {0}
After Q E (out_of_fuel, s) = Unit {0}

-- From a state with `P`, `m` returns with `Q` or fails with `E`.
pub record Holds {S A : Type 0} (P : S → Type 0) (m : Action S A) (Q : A → S → Type 0)
    (E : S → Type 0) : Type 0 where
  pub run : (s : S) → P s → After Q E (m s)

module _ {S A : Type 0} {P : S → Type 0} {Q : A → S → Type 0} {E : S → Type 0} where
  pub Holds-pure : (a : A) → ((s : S) → P s → Q a s) → Holds P (pure a) Q E
  unfolding pure
  Holds-pure a k = record { run = k }

  pub Holds-raise : (e : Error) → ((s : S) → P s → E s) → Holds P (raise {A = A} e) Q E
  unfolding raise
  Holds-raise e k = record { run = k }

  pub Holds-lift :
      (r : Outcome A)
      → ((a : A) (s : S) → P s → Q a s)
      → ((s : S) → P s → E s)
      → Holds P (lift r) Q E
  unfolding lift
  Holds-lift (done a) ka ke = record { run = λ s p. ka a s p }
  Holds-lift (fail e) ka ke = record { run = λ s p. ke s p }
  Holds-lift fault ka ke = record { run = λ s p. tt }
  Holds-lift out_of_fuel ka ke = record { run = λ s p. tt }

  pub Holds-gets : (f : S → A) → ((s : S) → P s → Q (f s) s) → Holds P (gets f) Q E
  unfolding gets
  Holds-gets f k = record { run = k }

  pub Holds-if :
      (b : Bool) (m n : Action S A)
      → Holds P m Q E
      → Holds P n Q E
      → Holds P (if b then m else n) Q E
  Holds-if true m n km kn = km
  Holds-if false m n km kn = kn

  pub Holds-bind :
      {B : Type 0} {R : B → S → Type 0} (m : Action S B) (f : B → Action S A)
      → Holds P m R E
      → ((b : B) → Holds (R b) (f b) Q E)
      → Holds P (m >>= f) Q E
  unfolding ◌>>=◌
  Holds-bind {B} {R} m f km kf = record { run = λ s p. after (m s).0 (m s).1 (km.run s p) }
    where
      after : (r : Outcome B) (s : S) → After R E (r, s) → After Q E (continue r f s)
      after (done b) s h = (kf b).run s h
      after (fail e) s h = h
      after fault s h = tt
      after out_of_fuel s h = tt

  pub Holds-on_error :
      {F : S → Type 0} (cleanup : S → S) (m : Action S A)
      → ((s : S) → F s → E (cleanup s))
      → Holds P m Q F
      → Holds P (on_error cleanup m) Q E
  unfolding on_error
  Holds-on_error {F} cleanup m kc km = record { run = λ s p. after (m s).0 (m s).1 (km.run s p) }
    where
      after : (r : Outcome A) (s : S) → After Q F (r, s) → After Q E (clean_up cleanup (r, s))
      after (done a) s h = h
      after (fail e) s h = kc s h
      after fault s h = tt
      after out_of_fuel s h = tt

  -- A value that is computed with no effect and no error, with the equation that it was.
  pub Holds-sure_bind :
      {B : Type 0} (r : Outcome B) (f : B → Action S A)
      → ((e : Error) → r ≢ fail e)
      → ((b : B) → r ≡ done b → Holds P (f b) Q E)
      → Holds P (lift r >>= f) Q E
  unfolding ◌>>=◌
  Holds-sure_bind (done b) f sure kf = record { run = λ s p. (kf b refl).run s p }
  Holds-sure_bind (fail e) f sure kf = absurd (sure e refl)
  Holds-sure_bind fault f sure kf = record { run = λ s p. tt }
  Holds-sure_bind out_of_fuel f sure kf = record { run = λ s p. tt }

  -- A test, with the equation in each branch.
  pub Holds-test :
      (b : Bool) (m n : Action S A)
      → (b ≡ true → Holds P m Q E)
      → (b ≡ false → Holds P n Q E)
      → Holds P (if b then m else n) Q E
  Holds-test true m n km kn = km refl
  Holds-test false m n km kn = kn refl

  -- A weaker condition on failure.
  pub Holds-fails :
      {F : S → Type 0} (m : Action S A) → ((s : S) → F s → E s) → Holds P m Q F → Holds P m Q E
  Holds-fails {F} m kf km = record { run = λ s p. after (m s) (km.run s p) }
    where
      after : (r : Outcome A × S) → After Q F r → After Q E r
      after (done a, s) h = h
      after (fail e, s) h = kf s h
      after (fault, s) h = tt
      after (out_of_fuel, s) h = tt

module _ {S : Type 0} {P : S → Type 0} {Q : Unit {0} → S → Type 0} {E : S → Type 0} where
  pub Holds-guard :
      (b : Bool) (e : Error)
      → ((s : S) → P s → Q tt s)
      → ((s : S) → P s → E s)
      → Holds P (guard b e) Q E
  unfolding guard
  Holds-guard true e kq ke = record { run = ke }
  Holds-guard false e kq ke = record { run = kq }

  -- `guard` with the equation of its test.
  pub Holds-guard_test :
      (b : Bool) (e : Error)
      → (b ≡ false → (s : S) → P s → Q tt s)
      → (b ≡ true → (s : S) → P s → E s)
      → Holds P (guard b e) Q E
  unfolding guard
  Holds-guard_test true e kq ke = record { run = ke refl }
  Holds-guard_test false e kq ke = record { run = kq refl }

  pub Holds-modify : (f : S → S) → ((s : S) → P s → Q tt (f s)) → Holds P (modify f) Q E
  unfolding modify
  Holds-modify f k = record { run = k }

-- What an action keeps whether it returns or fails.
abbrev pub Keeps : {S A : Type 0} → (S → Type 0) → Action S A → Type 0
Keeps P m = Holds P m (λ a s. P s) P

module _ {S A : Type 0} {P : S → Type 0} where
  pub Keeps-pure : (a : A) → Keeps P (pure a)
  Keeps-pure a = Holds-pure a (λ s p. p)

  pub Keeps-raise : (e : Error) → Keeps P (raise {A = A} e)
  Keeps-raise e = Holds-raise e (λ s p. p)

  pub Keeps-lift : (r : Outcome A) → Keeps P (lift r)
  Keeps-lift r = Holds-lift r (λ a s p. p) (λ s p. p)

  pub Keeps-gets : (f : S → A) → Keeps P (gets f)
  Keeps-gets f = Holds-gets f (λ s p. p)

  pub Keeps-if :
      (b : Bool) (m n : Action S A) → Keeps P m → Keeps P n → Keeps P (if b then m else n)
  Keeps-if b m n km kn = Holds-if b m n km kn

  pub Keeps-bind :
      {B : Type 0} (m : Action S B) (f : B → Action S A)
      → Keeps P m
      → ((b : B) → Keeps P (f b))
      → Keeps P (m >>= f)
  Keeps-bind m f km kf = Holds-bind m f km kf

module _ {S : Type 0} {P : S → Type 0} where
  pub Keeps-guard : (b : Bool) (e : Error) → Keeps P (guard b e)
  Keeps-guard b e = Holds-guard b e (λ s p. p) (λ s p. p)

  pub Keeps-modify : (f : S → S) → ((s : S) → P s → P (f s)) → Keeps P (modify f)
  Keeps-modify f k = Holds-modify f k

pub ruleset keeps_rules =
    (Keeps-pure, Keeps-raise, Keeps-lift, Keeps-gets, Keeps-if, Keeps-bind, Keeps-guard)

pub Keeps-Maintains : {S A : Type 0} {P : S → Type 0} (m : Action S A) → Maintains P m → Keeps P m
Keeps-Maintains {S} {A} {P} m km = record { run = λ s p. after (m s).0 (m s).1 (km.run s p) }
  where
    after : (r : Outcome A) (s : S) → P s → After (λ a s. P s) P (r, s)
    after (done a) s p = p
    after (fail e) s p = p
    after fault s p = tt
    after out_of_fuel s p = tt

-- From one state, with the run of the first action.
pub After-bind :
    {S A B : Type 0} {P : S → Type 0} {R : B → S → Type 0} (Q : A → S → Type 0) (E : S → Type 0)
    (m : Action S B) (f : B → Action S A) (s : S)
    → P s
    → Holds P m R E
    → ((b : B) (s' : S) → m s ≡ (done b, s') → R b s' → After Q E (f b s'))
    → After Q E ((m >>= f) s)
unfolding ◌>>=◌
After-bind {S} {A} {B} {P} {R} Q E m f s p km kf = after (m s).0 (m s).1 refl (km.run s p)
  where
    after :
        (r : Outcome B) (s' : S) → m s ≡ (r, s') → After R E (r, s') → After Q E (continue r f s')
    after (done b) s' e h = kf b s' e h
    after (fail e') s' e h = h
    after fault s' e h = tt
    after out_of_fuel s' e h = tt
