-- ===== src/Load/Leak.antt =====
-- A state in which what was held before is held, or beside that one heap block, which was not given
-- back for a reason.
use lk_modloader.Base.{ℕ, ◌≡◌, ◌≢◌, ◌∙◌, ◌⊎◌, inl, inr, true, false, arith, Bool-cases}
use lk_modloader.Status.{ok}
use lk_modloader.Outcome.{Outcome, done, fail, fault, out_of_fuel}
use lk_modloader.Action.{Action, on_error, clean_up}
use lk_modloader.Action.Triple.{Holds, After, Holds-fails}
use lk_modloader.Kernel.{Kernel}
use lk_modloader.Kernel.Resources.{
  Resource, region, block, same, Held, with_held, Loses, ResourceLaws,
}
use lk_modloader.Kernel.Held.{held_gained, gain_lose, gain_gain_lose}
use lk_modloader.World.{World, free_region}
use lk_modloader.Load.Balance.{Has, HasMore}

module _ (k : Kernel) (l : ResourceLaws k) where
  -- Beside `h`, one heap block more is held.
  abbrev pub HasLeak : Held → World k → Type 0
  HasLeak h w = (p : ℕ) × (p ≢ 0) × HasMore k l h (block p) w

  -- What was held, or one heap block more and a reason.
  abbrev pub MayLeak : Type 0 → Held → World k → Type 0
  MayLeak Why h w = Has k l h w ⊎ (Why × HasLeak h w)

  pub MayLeak-map :
      {A B : Type 0} → (A → B) → (h : Held) (w : World k) → MayLeak A h w → MayLeak B h w
  MayLeak-map f h w (inl has) = inl has
  MayLeak-map f h w (inr (why, leak)) = inr (f why, leak)

  pub calm :
      {A Why : Type 0} {P : World k → Type 0} {Q : A → World k → Type 0} (h : Held)
      (m : Action (World k) A)
      → Holds P m Q (Has k l h)
      → Holds P m Q (MayLeak Why h)
  calm h m = Holds-fails m (λ w has. inl has)

  -- What was taken is given back, beside a leak too.
  pub MayLeak-lose :
      {Why : Type 0} (h : Held) (x : Resource) (w w' : World k)
      → h x ≡ false
      → (l.held w.os x ≡ true → Loses (l.held w.os) x (l.held w'.os))
      → MayLeak Why (with_held h x true) w
      → MayLeak Why h w'
  MayLeak-lose h x w w' fresh lost (inl has) =
      let live : l.held w.os x ≡ true = has x ∙ held_gained h x in
      inl (gain_lose (l.held w'.os) (l.held w.os) h x fresh has (lost live))
  MayLeak-lose h x w w' fresh lost (inr (why, (p, given, (fresh', has)))) =
      let live : l.held w.os x ≡ true =
        ground (arith, has x, held_gained h x, Bool-cases (same (block p) x)) in
      inr (
        why,
        (
          p,
          given,
          gain_gain_lose (l.held w'.os) (l.held w.os) h x (block p) fresh fresh' has (lost live),
        ),
      )

  -- A load in a mapping that is freed where the load fails.
  pub in_region-Holds :
      {A Why : Type 0} (h : Held) (base : ℕ) (m : Action (World k) A)
      → Holds
          (Has k l (with_held h (region base) true))
          m
          (λ a w. Has k l (with_held h (region base) true) w)
          (MayLeak Why (with_held h (region base) true))
      → Holds
          (HasMore k l h (region base))
          (on_error (free_region k base) m)
          (λ a w. HasMore k l h (region base) w)
          (MayLeak Why h)
  unfolding on_error
  in_region-Holds {A} {Why} h base m km = record { run = λ w p. after p.0 (m w) (km.run w p.1) }
    where
      after :
          h (region base) ≡ false
          → (r : Outcome A × World k)
          → After
              (λ a w. Has k l (with_held h (region base) true) w)
              (MayLeak Why (with_held h (region base) true))
              r
          → After
              (λ a w. HasMore k l h (region base) w)
              (MayLeak Why h)
              (clean_up (free_region k base) r)
      after fresh (done a, w) p = (fresh, p)
      after fresh (fail e, w) p =
          MayLeak-lose h (region base) w (free_region k base w) fresh (region_lost w) p
        where
          region_lost :
              (w : World k)
              → l.held w.os (region base) ≡ true
              → Loses (l.held w.os) (region base) (l.held (free_region k base w).os)
          region_lost w live =
              let freed : k.vmm_free_region w.os base ≡ (ok tt, (k.vmm_free_region w.os base).1) =
                ground (arith, l.vmm_free_held w.os base live) in
              l.vmm_free_ok w.os base freed
      after fresh (fault, w) p = tt
      after fresh (out_of_fuel, w) p = tt
