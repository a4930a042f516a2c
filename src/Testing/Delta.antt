-- ===== src/Testing/Delta.antt =====
-- `AmountDelta` of contract-testing/src/invocation/types.rs, with its methods from
-- contract-testing/src/invocation/impls.rs.
pub mod Laws
use rust_smart_contract.Base.{ℕ, Bool, leb, ◌==◌, if◌then◌else◌, Res, ok_or}
use rust_smart_contract.Testing.Sdk.{AmountApi}

-- A positive or negative delta of an amount.
pub data AmountDelta : Type 0 where
  positive : ℕ → AmountDelta
  negative : ℕ → AmountDelta

-- `BalanceError` of contract-testing/src/types.rs
pub data BalanceError : Type 0 where
  overflow insufficient : BalanceError

module _ (api : AmountApi) where
  open api use {add_micro_ccd, subtract_micro_ccd, checked_add, checked_sub}

  -- `AmountDelta::subtract_amount`
  pub subtract_amount : AmountDelta → ℕ → AmountDelta
  subtract_amount (positive current) amount =
      if leb amount current
      then positive (subtract_micro_ccd current amount)
      else negative (subtract_micro_ccd amount current)
  subtract_amount (negative current) amount = negative (add_micro_ccd current amount)

  -- `AmountDelta::add_amount`
  pub add_amount : AmountDelta → ℕ → AmountDelta
  add_amount (positive current) amount = positive (add_micro_ccd current amount)
  add_amount (negative current) amount =
      if leb amount current
      then negative (subtract_micro_ccd current amount)
      else positive (subtract_micro_ccd amount current)

  -- `AmountDelta::add_delta`
  unfoldable pub add_delta : AmountDelta → AmountDelta → AmountDelta
  unfolding add_amount subtract_amount
  add_delta self (positive d) = add_amount self d
  add_delta self (negative d) = subtract_amount self d

  -- `AmountDelta::apply_to_balance`
  unfoldable pub apply_to_balance : AmountDelta → ℕ → Res BalanceError ℕ
  apply_to_balance (positive d) balance = ok_or (checked_add balance d) overflow
  apply_to_balance (negative d) balance = ok_or (checked_sub balance d) insufficient

-- `AmountDelta::new`
unfoldable pub new : AmountDelta
new = positive 0

-- `AmountDelta::is_zero`
unfoldable pub is_zero : AmountDelta → Bool
is_zero (positive d) = d == 0
is_zero (negative d) = d == 0
