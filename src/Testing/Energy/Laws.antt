-- ===== src/Testing/Energy/Laws.antt =====
-- Conversions between energy and amounts (contract-testing/src/impls.rs).
use rust_smart_contract.Base.{ℕ, ◌+◌, ◌*◌, ◌/◌, ◌≤◌, ◌<◌, ◌≡◌, arith, ok}
use native.Mathlib.Nat.{mul-le-mul_left, mul-le-mul_right, mul_right_comm}
use native.Mathlib.Decide.{dec_lt}
use rust_smart_contract.Testing.Sdk.{Sdk, u64_mod}
use rust_smart_contract.Testing.Types.{ExchangeRate}
use rust_smart_contract.Testing.Energy.{
  rate_numerator, rate_denominator, energy_to_amount, check_exchange_rates,
  max_allowed_micro_ccd_to_energy,
}

le-of-mul-lt : (c k d : ℕ) → c * d < k * d + d → c ≤ k
le-of-mul-lt c k d h = elim (dec_lt k c) [
  | yes l ↦ absurd (omega (arith, mul-le-mul_right d l))
  | no n ↦ omega arith
]

mul-lt-of-div-le : (n d m : ℕ) → 0 < d → n / d ≤ m → n ≤ (m + 1) * d
mul-lt-of-div-le n d m h k = grind arith

cost-lt :
    (n d e c : ℕ)
    → 0 < d
    → n / d ≤ max_allowed_micro_ccd_to_energy
    → e ≤ 99_999_999_857
    → c * d < n * e + d
    → c < u64_mod
cost-lt n d e c d0 q small hi =
    let a : n ≤ (max_allowed_micro_ccd_to_energy + 1) * d = mul-lt-of-div-le n d _ d0 q in
    let b : n * e ≤ (max_allowed_micro_ccd_to_energy + 1) * e * d =
      rw mul_right_comm (mul-le-mul_right e a) in
    let k : c ≤ (max_allowed_micro_ccd_to_energy + 1) * e =
      le-of-mul-lt c ((max_allowed_micro_ccd_to_energy + 1) * e) d (omega arith) in
    omega arith

module _ (sdk : Sdk) (euro_per_energy micro_ccd_per_euro : ExchangeRate) where
  abbrev pub num : ℕ
  num = rate_numerator euro_per_energy micro_ccd_per_euro

  abbrev pub den : ℕ
  den = rate_denominator euro_per_energy micro_ccd_per_euro

  -- With rates that pass the check, the cost of at most 99_999_999_857 energy is computed without a
  -- panic, and it is the exact quotient rounded up.
  pub energy_to_amount_checked :
      {E : Type 0} (energy : ℕ)
      → check_exchange_rates euro_per_energy micro_ccd_per_euro ≡ ok tt
      → energy ≤ 99_999_999_857
      → (cost : ℕ) × (energy_to_amount {E = E} sdk energy euro_per_energy micro_ccd_per_euro
          ≡ ok cost)
        × (num * energy ≤ cost * den)
        × (cost * den < num * energy + den)
  unfolding check_exchange_rates energy_to_amount
  energy_to_amount_checked energy h small =
      let d0 : 0 < den = ground arith in
      let q : num / den ≤ max_allowed_micro_ccd_to_energy = ground arith in
      let (lo, hi) = sdk.div_ceil_lem (num * energy) den d0 in
      let fits : sdk.div_ceil (num * energy) den < u64_mod =
        cost-lt num den energy (sdk.div_ceil (num * energy) den) d0 q small hi in
      (sdk.div_ceil (num * energy) den, ground (arith, fits, d0), lo, hi)

  -- More energy never costs less: a cost that is within what was reserved stays within it.
  pub energy_to_amount_mono :
      {E : Type 0} (e e' cost cost' : ℕ)
      → e ≤ e'
      → energy_to_amount {E = E} sdk e euro_per_energy micro_ccd_per_euro ≡ ok cost
      → energy_to_amount {E = E} sdk e' euro_per_energy micro_ccd_per_euro ≡ ok cost'
      → cost ≤ cost'
  unfolding energy_to_amount
  energy_to_amount_mono e e' cost cost' le h h' =
      let d0 : 0 < den = ground arith in
      let (lo, hi) = sdk.div_ceil_lem (num * e) den d0 in
      let (lo', hi') = sdk.div_ceil_lem (num * e') den d0 in
      let c : sdk.div_ceil (num * e) den ≡ cost = ground arith in
      let c' : sdk.div_ceil (num * e') den ≡ cost' = ground arith in
      rw (← c, ← c')
        (le-of-mul-lt (sdk.div_ceil (num * e) den) (sdk.div_ceil (num * e') den) den
          (omega (arith, mul-le-mul_left num le)))
