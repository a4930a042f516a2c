-- ===== src/Testing/Delta/Laws.antt =====
-- The arithmetic of balance deltas: `AmountDelta` is a signed number, and applying it to a balance
-- is checked addition (contract-testing/src/invocation/impls.rs).
use rust_smart_contract.Base.{ℕ, ◌+◌, ◌-◌, ◌≤◌, ◌<◌, ◌≡◌, arith, ltb, if◌then◌else◌, ok, err}
use rust_smart_contract.Testing.Sdk.{AmountApi, u64_mod}
use rust_smart_contract.Testing.Delta.{
  AmountDelta, positive, negative, overflow, insufficient, add_delta, apply_to_balance,
}

-- The number that a delta stands for is `up d - down d`.
abbrev pub up : AmountDelta → ℕ
up (positive d) = d
up (negative d) = 0

abbrev pub down : AmountDelta → ℕ
down (positive d) = 0
down (negative d) = d

module _ (api : AmountApi) where
  open api use {add_micro_ccd_lem, subtract_micro_ccd_lem, checked_add_lem, checked_sub_lem}

  -- `add_delta` adds the signed numbers that the two deltas stand for, whenever the sum of the
  -- increases and the sum of the decreases fit a u64.
  pub add_delta_value :
      (a b : AmountDelta)
      → up a + up b < u64_mod
      → down a + down b < u64_mod
      → up (add_delta api a b) + down a + down b ≡ down (add_delta api a b) + up a + up b
  unfolding add_delta
  add_delta_value (positive a) (positive b) h k = ground (arith, add_micro_ccd_lem a b)
  add_delta_value (positive a) (negative b) h k =
      ground (arith, subtract_micro_ccd_lem a b, subtract_micro_ccd_lem b a)
  add_delta_value (negative a) (positive b) h k =
      ground (arith, subtract_micro_ccd_lem a b, subtract_micro_ccd_lem b a)
  add_delta_value (negative a) (negative b) h k = ground (arith, add_micro_ccd_lem a b)

  -- The result of `apply_to_balance` as checked arithmetic on the signed number.
  pub apply_to_balance_cases :
      (d : AmountDelta) (balance : ℕ)
      → balance < u64_mod
      → apply_to_balance api d balance ≡ (
          if ltb (balance + up d) (down d)
          then err insufficient
          else if ltb (balance + up d - down d) u64_mod
          then ok (balance + up d - down d)
          else err overflow)
  unfolding apply_to_balance
  apply_to_balance_cases (positive d) balance h = ground (arith, checked_add_lem balance d)
  apply_to_balance_cases (negative d) balance h = ground (arith, checked_sub_lem balance d)

-- The delta leaves the balance within a u64.
pub record InRange (original : ℕ) (d : AmountDelta) : Type 0 where
  pub covered : down d ≤ original + up d
  pub fits : original + up d < u64_mod

-- The balance after the delta.
abbrev pub balance_after : ℕ → AmountDelta → ℕ
balance_after original d = original + up d - down d

module _ (api : AmountApi) where
  open api use {add_micro_ccd_lem, subtract_micro_ccd_lem, checked_add_lem, checked_sub_lem}

  pub apply_to_balance-InRange :
      (original : ℕ) (d : AmountDelta)
      → InRange original d
      → apply_to_balance api d original ≡ ok (balance_after original d)
  unfolding apply_to_balance
  apply_to_balance-InRange original (positive d) h = ground (arith, checked_add_lem original d)
  apply_to_balance-InRange original (negative d) h = ground (arith, checked_sub_lem original d)

  -- A delta that is valid for the balance reached so far stays valid when it is accumulated.
  pub add_delta-InRange :
      (original : ℕ) (a b : AmountDelta)
      → InRange original a
      → InRange (balance_after original a) b
      → InRange original (add_delta api a b)
        × (balance_after original (add_delta api a b) ≡ balance_after (balance_after original a) b)
  unfolding add_delta
  add_delta-InRange original (positive a) (positive b) h k = ground (arith, add_micro_ccd_lem a b)
  add_delta-InRange original (positive a) (negative b) h k =
      ground (arith, subtract_micro_ccd_lem a b, subtract_micro_ccd_lem b a)
  add_delta-InRange original (negative a) (positive b) h k =
      ground (arith, subtract_micro_ccd_lem a b, subtract_micro_ccd_lem b a)
  add_delta-InRange original (negative a) (negative b) h k = ground (arith, add_micro_ccd_lem a b)

  -- A decrease beyond the balance reached so far is refused.
  pub add_delta-insufficient :
      (original : ℕ) (a : AmountDelta) (d : ℕ)
      → InRange original a
      → original + d < u64_mod
      → balance_after original a < d
      → apply_to_balance api (add_delta api a (negative d)) original ≡ err insufficient
  unfolding add_delta apply_to_balance
  add_delta-insufficient original (positive a) d h k l = ground (
    arith,
    subtract_micro_ccd_lem a d,
    subtract_micro_ccd_lem d a,
    checked_sub_lem original (d - a),
  )
  add_delta-insufficient original (negative a) d h k l =
      ground (arith, add_micro_ccd_lem a d, checked_sub_lem original (a + d))
