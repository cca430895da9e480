-- ===== src/Base/Bits.antt =====
-- Bit operations on words that are split into two fields, at every width, and what follows for masks.
use Prim.Native.Nat.{ℕ, zero, suc, ◌+◌, ◌-◌, ◌*◌, ◌/◌, ◌%◌, ◌^◌, ◌≤◌, ◌<◌, bit_and, bit_or, bit_xor}
use mathlib.Core.Path.{◌≡◌, refl, ap, ap₂, ◌∙◌, sym}
use native.Mathlib.Nat.{pow-suc, div-add-mod', mod-lt, one-le-pow}
use native.Mathlib.Omega.{arith}
pub use lk_modloader.Base.BitSteps.{zero-or}
use lk_modloader.Base.BitSteps.{and_step, or_step, xor_step, differ-zero}

mul-pow-suc : (q k : ℕ) → q * 2 ^ suc k ≡ 2 * (q * 2 ^ k)
mul-pow-suc q k = omega (arith, ap (λ (t : ℕ). q * t) (pow-suc 2 k))

-- The operations work field by field: high parts `q` and `m`, low parts `r` and `n` of `k` bits.
pub and_fields :
    (k q m r n : ℕ)
    → r < 2 ^ k
    → n < 2 ^ k
    → bit_and (q * 2 ^ k + r) (m * 2 ^ k + n) ≡ bit_and q m * 2 ^ k + bit_and r n
and_fields zero q m zero zero hr hn = ground arith
and_fields zero q m zero (suc n) hr hn = absurd (omega arith)
and_fields zero q m (suc r) n hr hn = absurd (omega arith)
and_fields (suc k) q m r n hr hn = ground (
  arith,
  and_step (q * 2 ^ suc k + r) (m * 2 ^ suc k + n),
  and_step r n,
  mul-pow-suc q k,
  mul-pow-suc m k,
  mul-pow-suc (bit_and q m) k,
  pow-suc 2 k,
  and_fields k q m (r / 2) (n / 2) (omega arith) (omega arith),
)

pub or_fields :
    (k q m r n : ℕ)
    → r < 2 ^ k
    → n < 2 ^ k
    → bit_or (q * 2 ^ k + r) (m * 2 ^ k + n) ≡ bit_or q m * 2 ^ k + bit_or r n
or_fields zero q m zero zero hr hn = ground arith
or_fields zero q m zero (suc n) hr hn = absurd (omega arith)
or_fields zero q m (suc r) n hr hn = absurd (omega arith)
or_fields (suc k) q m r n hr hn = ground (
  arith,
  or_step (q * 2 ^ suc k + r) (m * 2 ^ suc k + n),
  or_step r n,
  mul-pow-suc q k,
  mul-pow-suc m k,
  mul-pow-suc (bit_or q m) k,
  pow-suc 2 k,
  or_fields k q m (r / 2) (n / 2) (omega arith) (omega arith),
)

pub xor_fields :
    (k q m r n : ℕ)
    → r < 2 ^ k
    → n < 2 ^ k
    → bit_xor (q * 2 ^ k + r) (m * 2 ^ k + n) ≡ bit_xor q m * 2 ^ k + bit_xor r n
xor_fields zero q m zero zero hr hn = ground arith
xor_fields zero q m zero (suc n) hr hn = absurd (omega arith)
xor_fields zero q m (suc r) n hr hn = absurd (omega arith)
xor_fields (suc k) q m r n hr hn = ground (
  arith,
  xor_step (q * 2 ^ suc k + r) (m * 2 ^ suc k + n),
  xor_step r n,
  mul-pow-suc q k,
  mul-pow-suc m k,
  mul-pow-suc (bit_xor q m) k,
  pow-suc 2 k,
  xor_fields k q m (r / 2) (n / 2) (omega arith) (omega arith),
)

and-zero_fuel : (f a : ℕ) → a ≤ f → bit_and a 0 ≡ 0
and-zero_fuel f zero h = refl
and-zero_fuel zero (suc a) h = absurd (omega arith)
and-zero_fuel (suc f) (suc a) h =
    ground (arith, and_step (suc a) 0, and-zero_fuel f (suc a / 2) (omega arith))

pub and-zero : (a : ℕ) → bit_and a 0 ≡ 0
and-zero a = and-zero_fuel a a (omega arith)

or-zero_fuel : (f a : ℕ) → a ≤ f → bit_or a 0 ≡ a
or-zero_fuel f zero h = refl
or-zero_fuel zero (suc a) h = absurd (omega arith)
or-zero_fuel (suc f) (suc a) h =
    ground (arith, or_step (suc a) 0, or-zero_fuel f (suc a / 2) (omega arith))

pub or-zero : (a : ℕ) → bit_or a 0 ≡ a
or-zero a = or-zero_fuel a a (omega arith)

xor-zero_fuel : (f a : ℕ) → a ≤ f → bit_xor a 0 ≡ a
xor-zero_fuel f zero h = refl
xor-zero_fuel zero (suc a) h = absurd (omega arith)
xor-zero_fuel (suc f) (suc a) h =
    ground (
      arith,
      differ-zero (suc a % 2),
      xor_step (suc a) 0,
      xor-zero_fuel f (suc a / 2) (omega arith),
    )

pub xor-zero : (a : ℕ) → bit_xor a 0 ≡ a
xor-zero a = xor-zero_fuel a a (omega arith)

pub two-pow-pos : (k : ℕ) → 0 < 2 ^ k
two-pow-pos k = one-le-pow k 2 (omega arith)

-- Any two words split at bit `k`.
pub and_split :
    (k a b : ℕ)
    → bit_and a b ≡ bit_and (a / 2 ^ k) (b / 2 ^ k) * 2 ^ k + bit_and (a % 2 ^ k) (b % 2 ^ k)
and_split k a b =
    ap₂ bit_and (sym (div-add-mod' a (2 ^ k))) (sym (div-add-mod' b (2 ^ k)))
    ∙ and_fields k (a / 2 ^ k) (b / 2 ^ k) (a % 2 ^ k) (b % 2 ^ k) (mod-lt a (two-pow-pos k))
        (mod-lt b (two-pow-pos k))

pub or_split :
    (k a b : ℕ)
    → bit_or a b ≡ bit_or (a / 2 ^ k) (b / 2 ^ k) * 2 ^ k + bit_or (a % 2 ^ k) (b % 2 ^ k)
or_split k a b =
    ap₂ bit_or (sym (div-add-mod' a (2 ^ k))) (sym (div-add-mod' b (2 ^ k)))
    ∙ or_fields k (a / 2 ^ k) (b / 2 ^ k) (a % 2 ^ k) (b % 2 ^ k) (mod-lt a (two-pow-pos k))
        (mod-lt b (two-pow-pos k))

and_mask_fields : (k q r : ℕ) → r < 2 ^ k → bit_and (q * 2 ^ k + r) (2 ^ k - 1) ≡ r
and_mask_fields zero q r h = ground (arith, and-zero (q * 2 ^ 0 + r))
and_mask_fields (suc k) q r h = ground (
  arith,
  and_step (q * 2 ^ suc k + r) (2 ^ suc k - 1),
  mul-pow-suc q k,
  pow-suc 2 k,
  two-pow-pos k,
  and_mask_fields k q (r / 2) (omega arith),
)

-- A mask of the `k` low bits is the remainder by `2 ^ k`.
pub and_mask : (k a : ℕ) → bit_and a (2 ^ k - 1) ≡ a % 2 ^ k
and_mask k a =
    ap (λ x. bit_and x (2 ^ k - 1)) (sym (div-add-mod' a (2 ^ k)))
    ∙ and_mask_fields k (a / 2 ^ k) (a % 2 ^ k) (mod-lt a (two-pow-pos k))

-- A mask that leaves out the `k` low bits.
pub and_shifted : (k a m : ℕ) → bit_and a (m * 2 ^ k) ≡ bit_and (a / 2 ^ k) m * 2 ^ k
and_shifted k a m =
    ap₂ bit_and (sym (div-add-mod' a (2 ^ k))) (omega arith)
    ∙ and_fields k (a / 2 ^ k) m (a % 2 ^ k) 0 (mod-lt a (two-pow-pos k)) (two-pow-pos k)
    ∙ omega (arith, and-zero (a % 2 ^ k))

-- `q << k | r` is a sum where `r` has `k` bits.
pub or_disjoint : (k q r : ℕ) → r < 2 ^ k → bit_or (q * 2 ^ k) r ≡ q * 2 ^ k + r
or_disjoint k q r h =
    ap₂ bit_or (omega arith) (omega arith)
    ∙ or_fields k q 0 0 r (two-pow-pos k) h
    ∙ ground (arith, or-zero q, zero-or r)

-- The same for a word whose `k` low bits are clear.
pub or_add : (k a b : ℕ) → a % 2 ^ k ≡ 0 → b < 2 ^ k → bit_or a b ≡ a + b
or_add k a b clear h =
    let whole : a / 2 ^ k * 2 ^ k ≡ a = omega (arith, div-add-mod' a (2 ^ k)) in
    rw (← whole) (or_disjoint k (a / 2 ^ k) b h)

pub or-one : (a : ℕ) → bit_or a 1 ≡ a / 2 * 2 + 1
or-one a = ground (arith, or_step a 1, or-zero (a / 2))

-- A word and its own bits.
and-or_fuel : (f a b : ℕ) → a ≤ f → bit_and (bit_or a b) a ≡ a
and-or_fuel f zero b h = and-zero (bit_or 0 b)
and-or_fuel zero (suc a) b h = absurd (omega arith)
and-or_fuel (suc f) (suc a) b h = ground (
  arith,
  and_step (bit_or (suc a) b) (suc a),
  or_step (suc a) b,
  and-or_fuel f (suc a / 2) (b / 2) (omega arith),
)

pub and-or_left : (a b : ℕ) → bit_and (bit_or a b) a ≡ a
and-or_left a b = and-or_fuel a a b (omega arith)

pub and_self : (a : ℕ) → bit_and a a ≡ a
and_self a = rw (or-zero a) at (and-or_left a 0)
