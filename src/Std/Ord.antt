-- ===== src/Std/Ord.antt =====
-- The bound `K: Ord` on the keys of the collections, with the laws the trait documents.
use Prim.Native.Nat.{ℕ, compare, Ordering}
use Prim.Native.Nat.Ordering.{lt, eq, gt}
use mathlib.Core.Path.{◌≡◌, refl}
use mathlib.Core.Logic.{◌⊎◌, inl, inr}
use native.Mathlib.Omega.{arith}

-- What the documentation of `Ord` asks of an implementation; equal keys are one key.
pub record IsTotalOrder {ℓ} {K : Type ℓ} (cmp : K → K → Ordering) : Type ℓ where
  pub cmp_refl : (x : K) → cmp x x ≡ eq
  pub same : (x y : K) → cmp x y ≡ eq → x ≡ y
  pub flip_gt : (x y : K) → cmp x y ≡ gt → cmp y x ≡ lt
  pub flip_lt : (x y : K) → cmp x y ≡ lt → cmp y x ≡ gt
  pub trans_lt : (x y z : K) → cmp x y ≡ lt → cmp y z ≡ lt → cmp x z ≡ lt

pub record Ord {ℓ} (K : Type ℓ) : Type ℓ where
  pub cmp : K → K → Ordering
  pub total : IsTotalOrder cmp
  pub open total use *

infix 50 ◌≺◌
abbrev pub ◌≺◌ {ℓ} : {K : Type ℓ} ⦃o : Ord K⦄ → K → K → Type 0
◌≺◌ ⦃o⦄ x y = o.cmp x y ≡ lt

pub cmp-cases {ℓ} :
    {K : Type ℓ} ⦃o : Ord K⦄ (x y : K) → (x ≺ y) ⊎ ((o.cmp x y ≡ eq) ⊎ (o.cmp x y ≡ gt))
cmp-cases ⦃o⦄ x y = Ordering-cases (o.cmp x y)
  where
    Ordering-cases : (r : Ordering) → (r ≡ lt) ⊎ ((r ≡ eq) ⊎ (r ≡ gt))
    Ordering-cases lt = inl refl
    Ordering-cases eq = inr (inl refl)
    Ordering-cases gt = inr (inr refl)

pub compare-IsTotalOrder : IsTotalOrder compare
compare-IsTotalOrder = ground arith

instance unfoldable pub nat_ord : Ord ℕ
nat_ord = record { cmp = compare; total = compare-IsTotalOrder }
