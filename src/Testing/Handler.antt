-- ===== src/Testing/Handler.antt =====
-- `EntrypointInvocationHandler` of contract-testing/src/invocation/impls.rs: the balances, states
-- and modules that a running transaction sees and changes.
pub mod Contracts
pub mod Accounts
pub mod Queries
pub mod Frame
pub mod Transfers
use rust_smart_contract.Base.{
  ℕ, Option, none, some, ◌==◌, if◌then◌else◌, Res, ok, err, panic, ◌>>=◌, expect, expect_ok,
}
use rust_smart_contract.Base.Dict.{get?, insert, contains_key}
use rust_smart_contract.Testing.Sdk.{Sdk, AccountBalance}
use rust_smart_contract.Testing.Delta.{
  AmountDelta, positive, negative, BalanceError, add_delta, apply_to_balance,
}
use rust_smart_contract.Testing.Types.{
  Chain, Contract, Account, Changes, ChangeSet, ContractChanges, AccountChanges,
  new_contract_changes, contract_current_balance, account_current_balance,
}
use rust_smart_contract.Testing.ChangeSet.{current, set_current}
use mathlib.Core.Option

-- `TransferError` of contract-testing/src/types.rs
pub data TransferError : Type 0 where
  to_missing : TransferError
  balance_error : BalanceError → TransferError

module _ (sdk : Sdk) where
  open sdk use {amount, address_eq, available}

  pub record EntrypointInvocationHandler : Type 0 where
    pub reserved_amount : ℕ
    pub invoker : ℕ
    pub changeset : ChangeSet sdk
    pub remaining_energy : ℕ
    pub module_load_energy : ℕ
    pub energy_reserved : ℕ
    pub chain : Chain sdk
    pub next_contract_modification_index : ℕ

  abbrev pub Handler : Type 0
  Handler = EntrypointInvocationHandler

  -- A method on `&mut self`: what it returns, and the handler after it, also after an `Err`.
  abbrev pub Action : Type 0 → Type 0 → Type 0
  Action E A = Handler → Res E A × Handler

  -- Replace the topmost changes.
  abbrev pub put_changes : Handler → Changes sdk → Handler
  put_changes h changes = record h { changeset = set_current sdk changes h.changeset }

  abbrev pub put_contract : Handler → Changes sdk → ℕ → ContractChanges sdk → Handler
  put_contract h cur address changes =
      put_changes h (record cur { contracts = insert address changes cur.contracts })

  abbrev pub put_account : Handler → Changes sdk → ℕ → AccountChanges → Handler
  put_account h cur address changes =
      put_changes h (record cur { accounts = insert address changes cur.accounts })

  -- `change_contract_balance` where the contract has no entry in the changeset yet.
  pub change_vacant_contract : ℕ → AmountDelta → Changes sdk → Action BalanceError ℕ
  change_vacant_contract address delta cur h = elim (get? address h.chain.contracts) [
    | none ↦ (panic, h)
    | some contract ↦ elim (apply_to_balance amount delta contract.self_balance) [
      | ok new_contract_balance ↦ (
        ok new_contract_balance,
        put_contract h cur address (record (new_contract_changes sdk contract.self_balance) {
          self_balance_delta = delta;
        }),
      )
      | err e ↦ (err e, h)
      | panic ↦ (panic, h)
    ]
  ]

  -- `change_contract_balance` where it has one.
  pub change_occupied_contract :
      ℕ → AmountDelta → Changes sdk → ContractChanges sdk → Action BalanceError ℕ
  change_occupied_contract address delta cur changes h =
      let new_delta = add_delta amount changes.self_balance_delta delta in
      elim (apply_to_balance amount new_delta changes.self_balance_original) [
        | ok new_contract_balance ↦ (
          ok new_contract_balance,
          put_contract h cur address (record changes { self_balance_delta = new_delta }),
        )
        | err e ↦ (err e, h)
        | panic ↦ (panic, h)
      ]

  unfoldable pub change_contract_balance : ℕ → AmountDelta → Action BalanceError ℕ
  unfolding change_vacant_contract change_occupied_contract
  change_contract_balance address delta h = elim (current sdk h.changeset) [
    | none ↦ (panic, h)
    | some cur ↦ elim (get? address cur.contracts) [
      | none ↦ change_vacant_contract address delta cur h
      | some changes ↦ change_occupied_contract address delta cur changes h
    ]
  ]

  -- The balance that an account starts from: the energy of the transaction is reserved.
  abbrev pub original_account_balance : Handler → ℕ → Account sdk → ℕ
  original_account_balance h address account =
      if h.invoker == address
      then amount.subtract_micro_ccd (available account.balance) h.reserved_amount
      else available account.balance

  pub change_vacant_account : ℕ → AmountDelta → Changes sdk → Action BalanceError ℕ
  change_vacant_account address delta cur h = elim (get? (address_eq address) h.chain.accounts) [
    | none ↦ (panic, h)
    | some account ↦
        let original_balance = original_account_balance h address account in
        elim (apply_to_balance amount delta original_balance) [
          | ok new_account_balance ↦ (
            ok new_account_balance,
            put_account h cur (address_eq address)
                (record { original_balance = original_balance; balance_delta = delta }),
          )
          | err e ↦ (err e, h)
          | panic ↦ (panic, h)
        ]
  ]

  pub change_occupied_account :
      ℕ → AmountDelta → Changes sdk → AccountChanges → Action BalanceError ℕ
  change_occupied_account address delta cur changes h =
      let new_delta = add_delta amount changes.balance_delta delta in
      elim (apply_to_balance amount new_delta changes.original_balance) [
        | ok new_account_balance ↦ (
          ok new_account_balance,
          put_account h cur (address_eq address) (record changes { balance_delta = new_delta }),
        )
        | err e ↦ (err e, h)
        | panic ↦ (panic, h)
      ]

  pub change_account_balance : ℕ → AmountDelta → Action BalanceError ℕ
  unfolding change_vacant_account change_occupied_account
  change_account_balance address delta h = elim (current sdk h.changeset) [
    | none ↦ (panic, h)
    | some cur ↦ elim (get? (address_eq address) cur.accounts) [
      | none ↦ change_vacant_account address delta cur h
      | some changes ↦ change_occupied_account address delta cur changes h
    ]
  ]

  -- `?` on a `BalanceError` inside a transfer, and what follows.
  abbrev pub then_transfer :
      Res BalanceError ℕ × Handler → (ℕ → Action TransferError ℕ) → Res TransferError ℕ × Handler
  then_transfer (ok a, h) f = f a h
  then_transfer (err e, h) f = (err (balance_error e), h)
  then_transfer (panic, h) f = (panic, h)

  pub transfer_from_contract_to_account : ℕ → ℕ → ℕ → Action TransferError ℕ
  transfer_from_contract_to_account value from to h =
      if contains_key (address_eq to) h.chain.accounts
      then then_transfer (change_contract_balance from (negative value) h) (λ new_balance h'.
        let (r, h'') = change_account_balance to (positive value) h' in
        (expect_ok r >>= λ _. ok new_balance, h''))
      else (err to_missing, h)

  pub transfer_from_contract_to_contract : ℕ → ℕ → ℕ → Action TransferError ℕ
  transfer_from_contract_to_contract value from to h =
      if contains_key to h.chain.contracts
      then then_transfer (change_contract_balance from (negative value) h) (λ _ h'.
        then_transfer (change_contract_balance to (positive value) h')
          (λ new_balance h''. (ok new_balance, h'')))
      else (err to_missing, h)

  pub transfer_from_account_to_contract : ℕ → ℕ → ℕ → Action TransferError ℕ
  transfer_from_account_to_contract value from to h =
      if contains_key to h.chain.contracts
      then then_transfer (change_account_balance from (negative value) h) (λ _ h'.
        then_transfer (change_contract_balance to (positive value) h')
          (λ new_balance h''. (ok new_balance, h'')))
      else (err to_missing, h)

  -- A read through `&self`, which may panic.
  abbrev pub Reads : Type 0 → Type 0
  Reads A = Handler → Res ⊥ A

  pub contract_balance : ℕ → Reads (Option ℕ)
  contract_balance address h = do
    cur ← expect (current sdk h.changeset)
    elim (get? address cur.contracts) [
      | some changes ↦ contract_current_balance sdk changes >>= λ b. ok (some b)
      | none ↦
          ok (Option.map (λ (c : Contract sdk). c.self_balance) (get? address h.chain.contracts))
    ]

  pub account_balance : ℕ → Reads (Option AccountBalance)
  account_balance address h = elim (get? (address_eq address) h.chain.accounts) [
    | none ↦ ok none
    | some account ↦ do
      cur ← expect (current sdk h.changeset)
      elim (get? (address_eq address) cur.accounts) [
        | some changes ↦ do
          total ← account_current_balance sdk changes
          ok (some (record account.balance { total = total }))
        | none ↦ ok (
            some (
              if h.invoker == address
              then record account.balance {
                total = amount.subtract_micro_ccd account.balance.total h.reserved_amount;
              }
              else account.balance))
      ]
  ]
