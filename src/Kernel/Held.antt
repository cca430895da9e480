-- ===== src/Kernel/Held.antt =====
-- What is held after something was taken and given back again.
use lk_modloader.Base.{◌≡◌, sym, ap, ◌∙◌, ◌⊎◌, inl, inr, true, false, arith, Bool-cases}
use lk_modloader.Kernel.Resources.{
  Resource, Held, same, same_refl, eq_of_same, with_held, Agrees, Gains, Loses,
}

pub Agrees-trans : (f g h : Held) → Agrees f g → Agrees g h → Agrees f h
Agrees-trans f g h p q r = p r ∙ q r

pub held_gained : (h : Held) (x : Resource) → with_held h x true x ≡ true
held_gained h x = ground (arith, same_refl x)

-- What was taken is given back.
pub gain_lose :
    (f g h : Held) (x : Resource)
    → h x ≡ false
    → Agrees g (with_held h x true)
    → Loses g x f
    → Agrees f h
gain_lose f g h x fresh taken given r = elim (Bool-cases (same x r)) [
  | inl here ↦
      let at : h x ≡ h r = ap h (eq_of_same x r here) in ground (arith, here, at, fresh, given r)
  | inr other ↦ ground (arith, other, taken r, given r)
]

-- Of two that were taken the first is given back.
pub gain_gain_lose :
    (f g h : Held) (x y : Resource)
    → h x ≡ false
    → with_held h x true y ≡ false
    → Agrees g (with_held (with_held h x true) y true)
    → Loses g x f
    → (h y ≡ false) × Agrees f (with_held h y true)
gain_gain_lose f g h x y fresh fresh' taken given =
    (ground (arith, fresh'), λ r. after r (Bool-cases (same x r)))
  where
    apart : same x y ≡ false
    apart = ground (arith, fresh', Bool-cases (same x y))

    after : (r : Resource) → ((same x r ≡ true) ⊎ (same x r ≡ false)) → f r ≡ with_held h y true r
    after r (inl here) =
        let eq : x ≡ r = eq_of_same x r here in
        let at : h x ≡ h r = ap h eq in
        let not_y : same y r ≡ false = y_apart r eq in
        ground (arith, here, at, not_y, fresh, given r)
      where
        y_apart : (r : Resource) → x ≡ r → same y r ≡ false
        y_apart r eq = elim (Bool-cases (same y r)) [
          | inl also ↦
              let eq' : y ≡ x = eq_of_same y r also ∙ sym eq in
              absurd (ground (arith, apart, ap (same x) eq', same_refl x))
          | inr not ↦ not
        ]
    after r (inr other) = ground (arith, other, taken r, given r)

pub Gains-over :
    (f g h : Held) (x : Resource)
    → Agrees g h
    → Gains g x f
    → (h x ≡ false) × Agrees f (with_held h x true)
Gains-over f g h x same_held (fresh, more) =
    (ground (arith, fresh, same_held x), λ r. ground (arith, more r, same_held r))
