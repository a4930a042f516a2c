-- ===== src/Testing/Handler/Frame.antt =====
-- What no method of the handler touches: the chain, and the changes under the topmost ones
-- (contract-testing/src/invocation/impls.rs).
use rust_smart_contract.Base.{ℕ, ◌≡◌, Option, none, some, arith, [], ◌∷◌}
use rust_smart_contract.Testing.Sdk.{Sdk}
use rust_smart_contract.Testing.Delta.{AmountDelta}
use rust_smart_contract.Testing.Types.{ChangeSet}
use rust_smart_contract.Testing.Handler.{Handler, change_contract_balance, change_account_balance}

module _ (sdk : Sdk) where
  -- The changes under the topmost ones.
  abbrev pub below : ChangeSet sdk → Option (ChangeSet sdk)
  below [] = none
  below (top ∷ rest) = some rest

  pub record Keeps (h h' : Handler sdk) : Type 0 where
    pub stack : below h'.changeset ≡ below h.changeset
    pub chain : h'.chain ≡ h.chain

  pub change_contract_balance-Keeps :
      (a : ℕ) (d : AmountDelta) (h : Handler sdk) → Keeps h (change_contract_balance sdk a d h).1
  unfolding change_contract_balance
  change_contract_balance-Keeps a d h = ground arith

  pub change_account_balance-Keeps :
      (a : ℕ) (d : AmountDelta) (h : Handler sdk) → Keeps h (change_account_balance sdk a d h).1
  unfolding change_account_balance
  change_account_balance-Keeps a d h = ground arith
