-- ===== src/Status.antt =====
-- `status_t`: the codes that the sources of app/modloader return, and results that carry them.
-- A kernel service returns `NO_ERROR` or a negative code; `other` stands for the codes that only the
-- services use.
use lk_modloader.Base.{ℕ, ◌≡◌, ◌⊎◌, inl, inr, refl}

pub data Error : Type 0 where
  err_not_valid err_already_exists err_not_found err_no_memory err_not_supported : Error
  err_invalid_args err_too_big err_not_ready err_not_allowed err_not_file err_io : Error
  other : ℕ → Error

pub data Result {ℓ} (A : Type ℓ) : Type ℓ where
  ok : A → Result A
  err : Error → Result A

-- `status_t` with no value beside it: `ok tt` is `NO_ERROR`.
abbrev pub Status : Type 0
Status = Result (Unit {0})

pub Result-cases {ℓ} :
    {A : Type ℓ} (r : Result A) → ((a : A) × (r ≡ ok a)) ⊎ ((e : Error) × (r ≡ err e))
Result-cases (ok a) = inl (a, refl)
Result-cases (err e) = inr (e, refl)
