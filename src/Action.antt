-- ===== src/Action.antt =====
-- Code that changes a state and may stop with an error or a fault. What was written before it stops
-- stays written, so the state comes back in every case.
pub mod Rules
pub mod Ends
pub mod Triple
pub mod Shows
pub mod Ended
use lk_modloader.Base.{Bool, true, false}
use lk_modloader.Status.{Error}
use lk_modloader.Outcome.{Outcome, done, fail, fault, out_of_fuel}

abbrev pub Action {ℓ κ} : Type ℓ → Type κ → Type (ℓ ⊔ κ)
Action S A = S → Outcome A × S

abbrev pub continue {ℓ κ λ'} :
    {S : Type ℓ} {A : Type κ} {B : Type λ'} → Outcome A → (A → Action S B) → Action S B
continue (done a) f s = f a s
continue (fail e) f s = (fail e, s)
continue fault f s = (fault, s)
continue out_of_fuel f s = (out_of_fuel, s)

unfoldable pub pure {ℓ κ} : {S : Type ℓ} {A : Type κ} → A → Action S A
pure a s = (done a, s)

unfoldable pub raise {ℓ κ} : {S : Type ℓ} {A : Type κ} → Error → Action S A
raise e s = (fail e, s)

-- A computation that reads and does not write.
unfoldable pub lift {ℓ κ} : {S : Type ℓ} {A : Type κ} → Outcome A → Action S A
lift r s = (r, s)

unfoldable pub gets {ℓ κ} : {S : Type ℓ} {A : Type κ} → (S → A) → Action S A
gets f s = (done (f s), s)

unfoldable pub modify {ℓ} : {S : Type ℓ} → (S → S) → Action S (Unit {0})
modify f s = (done tt, f s)

-- `if (test) return e;`
unfoldable pub guard {ℓ} : {S : Type ℓ} → Bool → Error → Action S (Unit {0})
guard true e s = (fail e, s)
guard false e s = (done tt, s)

-- `if (err < 0) { cleanup; return err; }` after `m`.
abbrev pub clean_up {ℓ κ} : {S : Type ℓ} {A : Type κ} → (S → S) → Outcome A × S → Outcome A × S
clean_up cleanup (done a, s) = (done a, s)
clean_up cleanup (fail e, s) = (fail e, cleanup s)
clean_up cleanup (fault, s) = (fault, s)
clean_up cleanup (out_of_fuel, s) = (out_of_fuel, s)

unfoldable pub on_error {ℓ κ} : {S : Type ℓ} {A : Type κ} → (S → S) → Action S A → Action S A
on_error cleanup m s = clean_up cleanup (m s)

infixl 5 ◌>>=◌ ◌>>◌
-- To unfold it is to unfold all of the above.
unfoldable pub ◌>>=◌ {ℓ κ λ'} :
    {S : Type ℓ} {A : Type κ} {B : Type λ'} → Action S A → (A → Action S B) → Action S B
unfolding pure raise lift gets modify guard on_error
◌>>=◌ m f s = continue (m s).0 f (m s).1

abbrev pub ◌>>◌ {ℓ κ} : {S : Type ℓ} {B : Type κ} → Action S (Unit {0}) → Action S B → Action S B
m >> k = m >>= λ _. k
