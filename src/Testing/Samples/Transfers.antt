-- ===== src/Testing/Samples/Transfers.antt =====
-- Transfers, states and checkpoints on the sample chain (contract-testing).
use rust_smart_contract.Base.{
  ℕ, ◌+◌, ◌≡◌, ◌≢◌, refl, ◌⊎◌, inl, inr, true, none, some, [], arith, ok, err, expect,
}
use rust_smart_contract.Base.Dict.{get?, insert, contains_key}
use rust_smart_contract.Testing.Delta.{positive, negative, insufficient, add_delta}
use rust_smart_contract.Testing.Delta.Laws.{
  InRange, up, down, balance_after, add_delta_value, add_delta-InRange,
}
use rust_smart_contract.Testing.Types.{Changes, new_contract_changes}
use rust_smart_contract.Testing.Handler.{
  Handler, balance_error, to_missing, change_contract_balance, change_account_balance,
  account_balance, transfer_from_contract_to_account, transfer_from_contract_to_contract,
  transfer_from_account_to_contract,
}
use rust_smart_contract.Testing.Handler.Contracts.{ContractHolds}
use rust_smart_contract.Testing.Handler.Accounts.{AccountHolds}
use rust_smart_contract.Testing.Handler.Queries.{
  account_balance_after_change, account_balance_alias,
}
use rust_smart_contract.Testing.Handler.Transfers.{
  Step, Nobody, transfer_from_contract_to_account_moves, transfer_from_contract_to_contract_moves,
  transfer_from_account_to_contract_moves, transfer_to_itself, transfer_from_contract_refused,
}
use rust_smart_contract.Testing.States.{
  save_state_changes, save_module_upgrade, contract_state, contract_module,
  contract_module_reference, modification_index, checkpoint,
}
use rust_smart_contract.Testing.States.Indices.{
  save_state_changes_lem, save_module_upgrade_lem, contract_module_reference_lost,
}
use rust_smart_contract.Testing.Samples.{
  sample_sdk, checked_amounts, sample_chain, sample_contract, sample_account, sample_handler,
  empty_changes,
}

abbrev Holds : ℕ → ℕ → Type 0
Holds a b = ContractHolds sample_sdk sample_handler empty_changes a b

first-Holds : Holds 1 50
unfolding get?
first-Holds = inl (sample_contract 1 50, refl, refl, refl, omega arith)

second-Holds : Holds 2 7
unfolding get?
second-Holds = inl (sample_contract 2 7, refl, refl, refl, omega arith)

account_holds : AccountHolds sample_sdk sample_handler empty_changes 10 70
unfolding get?
account_holds = inl (sample_account 10 100 30, refl, refl, refl, omega arith)

account_known : contains_key 5 sample_chain.accounts ≡ true
unfolding contains_key
account_known = refl

contract_known : (a : ℕ) → (a ≡ 1) ⊎ (a ≡ 2) → contains_key a sample_chain.contracts ≡ true
unfolding contains_key get?
contract_known a (inl e) = rw e refl
contract_known a (inr e) = rw e refl

to_account_example :
    (h' : Handler sample_sdk) × (cur' : Changes sample_sdk) × (transfer_from_contract_to_account
        sample_sdk 40 1 10 sample_handler
      ≡ (ok 10, h'))
    × ContractHolds sample_sdk h' cur' 1 10
    × ((alias : ℕ) → 5 ≡ sample_sdk.address_eq alias → AccountHolds sample_sdk h' cur' alias 110)
    × Step sample_sdk
        (λ c. 1 ≡ c)
        (λ c. 5 ≡ sample_sdk.address_eq c)
        sample_handler
        empty_changes
        h'
        cur'
to_account_example =
    transfer_from_contract_to_account_moves sample_sdk 40 1 10 sample_handler empty_changes 50 70
      refl account_known first-Holds account_holds (omega arith) (omega arith)

between_contracts_example :
    (h' : Handler sample_sdk) × (cur' : Changes sample_sdk) × (transfer_from_contract_to_contract
        sample_sdk 40 1 2 sample_handler
      ≡ (ok 47, h'))
    × ContractHolds sample_sdk h' cur' 1 10
    × ContractHolds sample_sdk h' cur' 2 47
    × Step sample_sdk
        (λ c. (1 ≡ c) ⊎ (2 ≡ c))
        (Nobody sample_sdk)
        sample_handler
        empty_changes
        h'
        cur'
between_contracts_example =
    transfer_from_contract_to_contract_moves sample_sdk 40 1 2 sample_handler empty_changes 50 7
      refl (contract_known 2 (inr refl)) (omega arith) first-Holds second-Holds (omega arith)
      (omega arith)

to_itself_example :
    (h' : Handler sample_sdk) × (cur' : Changes sample_sdk) × (transfer_from_contract_to_contract
        sample_sdk 40 1 1 sample_handler
      ≡ (ok 50, h'))
    × ContractHolds sample_sdk h' cur' 1 50
    × Step sample_sdk (λ c. 1 ≡ c) (Nobody sample_sdk) sample_handler empty_changes h' cur'
to_itself_example =
    transfer_to_itself sample_sdk 40 1 sample_handler empty_changes 50 refl
      (contract_known 1 (inl refl)) first-Holds (omega arith)

from_account_example :
    (h' : Handler sample_sdk) × (cur' : Changes sample_sdk) × (transfer_from_account_to_contract
        sample_sdk 60 10 2 sample_handler
      ≡ (ok 67, h'))
    × ((alias : ℕ) → 5 ≡ sample_sdk.address_eq alias → AccountHolds sample_sdk h' cur' alias 10)
    × ContractHolds sample_sdk h' cur' 2 67
    × Step sample_sdk
        (λ c. 2 ≡ c)
        (λ c. 5 ≡ sample_sdk.address_eq c)
        sample_handler
        empty_changes
        h'
        cur'
from_account_example =
    transfer_from_account_to_contract_moves sample_sdk 60 10 2 sample_handler empty_changes 70 7
      refl (contract_known 2 (inr refl)) account_holds second-Holds (omega arith) (omega arith)

refused_example :
    (transfer_from_contract_to_contract sample_sdk 60 1 9 sample_handler
      ≡ (err to_missing, sample_handler))
    × (transfer_from_contract_to_account sample_sdk 60 1 10 sample_handler
        ≡ (err (balance_error insufficient), sample_handler))
unfolding contains_key get?
refused_example =
    transfer_from_contract_refused sample_sdk 60 1 9 10 sample_handler empty_changes 50 50 refl
      first-Holds refl (omega arith) (inl refl) (inr (omega arith))

-- a call that takes 5 from a contract, and then calls another contract, which succeeds
abbrev calling : Handler sample_sdk
calling =
    (change_contract_balance sample_sdk 1 (negative 5) (checkpoint sample_sdk sample_handler).1).1

abbrev changes_of_call : Changes sample_sdk
changes_of_call = record empty_changes {
  contracts =
      insert 1 (record (new_contract_changes sample_sdk 50) { self_balance_delta = negative 5 }) [];
}

save_state_example :
    let (r, h') = save_state_changes sample_sdk 1 8 sample_handler in
    (r ≡ ok 1)
    × (h'.next_contract_modification_index ≡ 2)
    × (contract_state sample_sdk 1 h' ≡ ok 8)
    × (modification_index sample_sdk 1 h' ≡ ok 1)
    × ((b : ℕ)
        → 1 ≢ b
        → (contract_state sample_sdk b h' ≡ contract_state sample_sdk b sample_handler)
          × (modification_index sample_sdk b h' ≡ modification_index sample_sdk b sample_handler))
unfolding get?
save_state_example =
    save_state_changes_lem sample_sdk 1 8 sample_handler empty_changes (sample_contract 1 50) refl
      refl

upgrade_example :
    let (r, h') = save_module_upgrade sample_sdk 1 80 sample_handler in
    let (r', h'') = save_module_upgrade sample_sdk 1 72 h' in
    (r ≡ ok 71)
    × (contract_module sample_sdk (sample_contract 1 50) sample_handler
        ≡ expect (get? 71 sample_chain.modules))
    × (r' ≡ ok 80)
    × (contract_module_reference sample_sdk 1 h'' ≡ ok (some 72))
    × (contract_module sample_sdk (sample_contract 1 50) h''
        ≡ expect (get? 72 sample_chain.modules))
    × ((b : ℕ)
        → 1 ≢ b
        → contract_module_reference sample_sdk b h''
          ≡ contract_module_reference sample_sdk b sample_handler)
unfolding get?
upgrade_example =
    save_module_upgrade_lem sample_sdk 1 80 72 sample_handler empty_changes (sample_contract 1 50)
      refl refl refl

module_reference_lost_example :
    (contract_module_reference sample_sdk 1 sample_handler ≡ ok (some 71))
    × (contract_module_reference sample_sdk 1
          (change_contract_balance sample_sdk 1 (positive 5) sample_handler).1
        ≡ ok none)
unfolding get?
module_reference_lost_example =
    contract_module_reference_lost sample_sdk 1 (positive 5) sample_handler empty_changes
      (sample_contract 1 50) refl refl refl (omega arith)

-- The account has 100 and a stake of 30: after it receives 5, the total is reported as 75.
account_balance_example :
    (account_balance sample_sdk 10 sample_handler
      ≡ ok (some (record { total = 100; staked = 30; locked = 20 })))
    × (account_balance sample_sdk 10
          (change_account_balance sample_sdk 10 (positive 5) sample_handler).1
        ≡ ok (some (record { total = 75; staked = 30; locked = 20 })))
unfolding get?
account_balance_example =
    account_balance_after_change sample_sdk 10 (positive 5) sample_handler empty_changes
      (sample_account 10 100 30) refl refl refl (omega arith) (omega arith)

account_alias_example :
    (account_balance sample_sdk 20 sample_handler
      ≡ ok (some (record { total = 8000; staked = 0; locked = 20 })))
    × (account_balance sample_sdk 21 sample_handler
        ≡ ok (some (record { total = 9000; staked = 0; locked = 20 })))
    × (account_balance sample_sdk 20
          (change_account_balance sample_sdk 21 (negative 60) sample_handler).1
        ≡ ok (some (record { total = 8920; staked = 0; locked = 20 })))
unfolding get?
account_alias_example =
    account_balance_alias sample_sdk 21 (negative 60) sample_handler empty_changes
      (sample_account 20 9000 0) refl refl (omega arith) refl refl (omega arith) (omega arith)

add_delta_example :
    up (add_delta checked_amounts (positive 3) (negative 5)) + 0 + 5
    ≡ down (add_delta checked_amounts (positive 3) (negative 5)) + 3 + 0
add_delta_example =
    add_delta_value checked_amounts (positive 3) (negative 5) (omega arith) (omega arith)

accumulated_example :
    InRange 10 (add_delta checked_amounts (positive 3) (negative 5))
    × (balance_after 10 (add_delta checked_amounts (positive 3) (negative 5)) ≡ 8)
accumulated_example =
    add_delta-InRange checked_amounts 10 (positive 3) (negative 5) (omega arith) (omega arith)
