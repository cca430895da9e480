-- ===== src/Outcome.antt =====
-- Results of code that reads through pointers: a value, an error code, or `fault`, a read outside the
-- object that a pointer points into, which C leaves undefined.
use lk_modloader.Base.{Option, none, some, Bool, true, false, ◌≡◌, ◌⊎◌, inl, inr, refl}
use lk_modloader.Status.{Error, Result, ok, err}

pub data Outcome {ℓ} (A : Type ℓ) : Type ℓ where
  done : A → Outcome A
  fail : Error → Outcome A
  fault : Outcome A
  -- A loop of the source that the model's fuel does not cover.
  out_of_fuel : Outcome A

infixl 5 ◌>>=◌ ◌>>◌
abbrev pub ◌>>=◌ {ℓ κ} : {A : Type ℓ} {B : Type κ} → Outcome A → (A → Outcome B) → Outcome B
done a >>= f = f a
fail e >>= f = fail e
fault >>= f = fault
out_of_fuel >>= f = out_of_fuel

abbrev pub ◌>>◌ {ℓ} : {B : Type ℓ} → Outcome (Unit {0}) → Outcome B → Outcome B
m >> k = m >>= λ _. k

-- A read that the C code makes.
abbrev pub read {ℓ} : {A : Type ℓ} → Option A → Outcome A
read none = fault
read (some a) = done a

-- `if (test) return e;`
abbrev pub check : Bool → Error → Outcome (Unit {0})
check true e = fail e
check false e = done tt

abbrev pub of_result {ℓ} : {A : Type ℓ} → Result A → Outcome A
of_result (ok a) = done a
of_result (err e) = fail e

-- What a sequence that returned has done.
pub >>=-eq-done {ℓ κ} :
    {A : Type ℓ} {B : Type κ} (m : Outcome A) (f : A → Outcome B) {b : B}
    → (m >>= f) ≡ done b
    → (a : A) × (m ≡ done a) × (f a ≡ done b)
>>=-eq-done (done a) f h = (a, refl, h)
>>=-eq-done (fail e) f h = cc
>>=-eq-done fault f h = cc
>>=-eq-done out_of_fuel f h = cc

-- A computation returned, or it did not.
abbrev pub is_done {ℓ} : {A : Type ℓ} → Outcome A → Bool
is_done (done a) = true
is_done (fail e) = false
is_done fault = false
is_done out_of_fuel = false

pub Outcome-cases {ℓ} :
    {A : Type ℓ} (m : Outcome A) → ((a : A) × (m ≡ done a)) ⊎ (is_done m ≡ false)
Outcome-cases (done a) = inl (a, refl)
Outcome-cases (fail e) = inr refl
Outcome-cases fault = inr refl
Outcome-cases out_of_fuel = inr refl
