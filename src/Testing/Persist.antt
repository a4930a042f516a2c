-- ===== src/Testing/Persist.antt =====
-- `ChangeSet::persist` of contract-testing/src/invocation/impls.rs: the topmost changes are written
-- to the chain, if the energy suffices for the new state bytes.
pub mod Contracts
pub mod Laws
use rust_smart_contract.Base.{
  ℕ, ◌+◌, Bool, true, false, ◌||◌, Option, none, some, [], ◌∷◌, ◌==◌, if◌then◌else◌, Res, ok, err,
  panic, ◌>>=◌, expect, expect_ok,
}
use rust_smart_contract.Base.Dict.{Dict, get?, insert}
use rust_smart_contract.Testing.Sdk.{Sdk}
use rust_smart_contract.Testing.Delta
use rust_smart_contract.Testing.Delta.{apply_to_balance}
use rust_smart_contract.Testing.Types.{
  Contract, Account, Changes, ChangeSet, ContractChanges, AccountChanges,
}
use rust_smart_contract.Testing.ChangeSet.{current}

-- `InsufficientEnergy` of the SDK
pub data InsufficientEnergy : Type 0 where
  insufficient_energy : InsufficientEnergy

module _ (sdk : Sdk) where
  open sdk use {amount, PersistentState, MutableState, freeze, tick_energy}

  -- The first loop: the frozen states, and the bytes that the collector has counted.
  unfoldable pub freeze_states : Dict (ContractChanges sdk) → Dict PersistentState × ℕ
  freeze_states [] = ([], 0)
  freeze_states ((addr, changes) ∷ rest) =
      let (frozen, bytes) = freeze_states rest in
      elim changes.state [
        | none ↦ (frozen, bytes)
        | some modified_state ↦
            let (state, size) = freeze modified_state in (insert addr state frozen, size + bytes)
      ]

  -- The body of the second loop for one contract. An entry that `remove` takes out of the frozen
  -- states is not read again, so it is only looked up.
  unfoldable pub persist_contract :
      {E : Type 0}
      → Dict PersistentState
      → ℕ
      → ContractChanges sdk
      → Contract sdk
      → Res E (Contract sdk)
  persist_contract frozen addr changes contract = do
    self_balance ←
        if Delta.is_zero changes.self_balance_delta
        then ok contract.self_balance
        else expect_ok
            (apply_to_balance amount changes.self_balance_delta changes.self_balance_original)
    let module_reference : ℕ = elim changes.new_module [
      | none ↦ contract.module_reference
      | some new_module_ref ↦ new_module_ref
    ]
    state ← elim changes.state [ none ↦ ok contract.state | some _ ↦ expect (get? addr frozen) ]
    ok (record contract {
      self_balance = self_balance;
      module_reference = module_reference;
      state = state;
    })

  -- The second loop, with the flag whether the state of the invoked contract has changed.
  unfoldable pub persist_contracts :
      {E : Type 0}
      → Dict PersistentState
      → ℕ
      → Dict (ContractChanges sdk)
      → Dict (Contract sdk) × Bool
      → Res E (Dict (Contract sdk) × Bool)
  persist_contracts frozen invoked_contract [] (persisted, changed) = ok (persisted, changed)
  persist_contracts frozen invoked_contract ((addr, changes) ∷ rest) (persisted, changed) = do
    contract ← expect (get? addr persisted)
    contract' ← persist_contract frozen addr changes contract
    persist_contracts frozen invoked_contract rest (
      insert addr contract' persisted,
      changed || elim changes.state [ none ↦ false | some _ ↦ addr == invoked_contract ],
    )

  unfoldable pub persist_account : {E : Type 0} → AccountChanges → Account sdk → Res E (Account sdk)
  persist_account changes account = do
    total ←
        if Delta.is_zero changes.balance_delta
        then ok account.balance.total
        else expect_ok (apply_to_balance amount changes.balance_delta account.balance.total)
    ok (record account { balance = record (account.balance) { total = total } })

  -- The third loop.
  unfoldable pub persist_accounts :
      {E : Type 0} → Dict AccountChanges → Dict (Account sdk) → Res E (Dict (Account sdk))
  persist_accounts [] persisted = ok persisted
  persist_accounts ((addr, changes) ∷ rest) persisted = do
    account ← expect (get? addr persisted)
    account' ← persist_account changes account
    persist_accounts rest (insert addr account' persisted)

  -- What `persist` leaves behind: the remaining energy, the accounts and the contracts.
  pub record Persisted : Type 0 where
    pub remaining_energy : ℕ
    pub accounts : Dict (Account sdk)
    pub contracts : Dict (Contract sdk)

  unfoldable pub write_changes :
      Dict PersistentState → ℕ → Changes sdk → Persisted → Res InsufficientEnergy (Bool × Persisted)
  write_changes frozen invoked_contract cur p = do
    (contracts, changed) ←
        persist_contracts frozen invoked_contract cur.contracts (p.contracts, false)
    accounts ← persist_accounts cur.accounts p.accounts
    ok (changed, record p { contracts = contracts; accounts = accounts })

  unfoldable pub persist_all :
      Dict PersistentState → ℕ → Changes sdk → Persisted → Res InsufficientEnergy Bool × Persisted
  persist_all frozen invoked_contract cur p = elim (write_changes frozen invoked_contract cur p) [
    | ok (changed, p') ↦ (ok changed, p')
    | err e ↦ (err e, p)
    | panic ↦ (panic, p)
  ]

  unfoldable pub persist : ChangeSet sdk → ℕ → Persisted → Res InsufficientEnergy Bool × Persisted
  unfolding persist_all write_changes
  persist changeset invoked_contract p = elim (current sdk changeset) [
    | none ↦ (panic, p)
    | some cur ↦
        let (frozen, energy_for_state_increase) = freeze_states cur.contracts in
        let (enough, remaining) = tick_energy p.remaining_energy energy_for_state_increase in
        let p' = record p { remaining_energy = remaining } in
        if enough then persist_all frozen invoked_contract cur p' else (err insufficient_energy, p')
  ]

  -- `ChangeSet::collect_energy_for_state`: the same charge with nothing written.
  unfoldable pub state_changed : ℕ → Dict (ContractChanges sdk) → Bool
  state_changed invoked_contract [] = false
  state_changed invoked_contract ((addr, changes) ∷ rest) =
      elim changes.state [ none ↦ false | some _ ↦ addr == invoked_contract ]
      || state_changed invoked_contract rest

  unfoldable pub collect_energy_for_state : ChangeSet sdk → ℕ → ℕ → Res InsufficientEnergy Bool × ℕ
  collect_energy_for_state changeset invoked_contract remaining_energy =
      elim (current sdk changeset) [
        | none ↦ (panic, remaining_energy)
        | some cur ↦
            let (enough, remaining) =
              tick_energy remaining_energy (freeze_states cur.contracts).1 in
            (
              if enough
                  then ok (state_changed invoked_contract cur.contracts)
                  else err insufficient_energy,
              remaining,
            )
      ]
