-- ===== src/Testing/States/Indices.antt =====
-- States, modification indices and modules in the changeset
-- (contract-testing/src/invocation/impls.rs).
use rust_smart_contract.Base.{ℕ, ◌+◌, ◌%◌, ◌^◌, ◌≡◌, ◌≢◌, none, some, arith, ok, expect}
use rust_smart_contract.Base.Dict.{get?, get?-insert_self, get?-insert_ne}
use mathlib.Core.Option
use rust_smart_contract.Testing.Sdk.{Sdk}
use rust_smart_contract.Testing.Delta.{AmountDelta}
use rust_smart_contract.Testing.Delta.Laws.{InRange, apply_to_balance-InRange}
use rust_smart_contract.Testing.Types.{Changes, Contract}
use rust_smart_contract.Testing.ChangeSet.{current}
use rust_smart_contract.Testing.Handler.{Handler, change_contract_balance}
use rust_smart_contract.Testing.States.{
  save_state_changes, save_module_upgrade, contract_state, contract_module,
  contract_module_reference, modification_index,
}

module _ (sdk : Sdk) where
  -- Saving a state succeeds for a contract on the chain: the returned index is the next one, which
  -- is then counted up, the saved state is what the contract sees from then on, and other
  -- contracts keep their states and indices.
  pub save_state_changes_lem :
      (a : ℕ) (s : sdk.MutableState) (h : Handler sdk) (cur : Changes sdk) (c : Contract sdk)
      → current sdk h.changeset ≡ some cur
      → get? a h.chain.contracts ≡ some c
      → let (r, h') = save_state_changes sdk a s h in
        (r ≡ ok h.next_contract_modification_index)
        × (h'.next_contract_modification_index ≡ (h.next_contract_modification_index + 1) % 2 ^ 32)
        × (contract_state sdk a h' ≡ ok s)
        × (modification_index sdk a h' ≡ ok h.next_contract_modification_index)
        × ((b : ℕ)
            → a ≢ b
            → (contract_state sdk b h' ≡ contract_state sdk b h)
              × (modification_index sdk b h' ≡ modification_index sdk b h))
  unfolding save_state_changes contract_state modification_index
  save_state_changes_lem a s h cur c top known = (
    ground arith,
    ground arith,
    grind (arith, get?-insert_self),
    grind (arith, get?-insert_self),
    λ b n. (grind (arith, get?-insert_ne), grind (arith, get?-insert_ne)),
  )

  -- The module that a contract runs: the one of its last upgrade, or the one on chain.
  abbrev pub old_module : Contract sdk → Changes sdk → ℕ
  old_module c cur = elim (get? c.address cur.contracts) [
    | none ↦ c.module_reference
    | some changes ↦ Option.get_or changes.new_module c.module_reference
  ]

  -- Upgrading succeeds for a contract stored under its address, with changes or without, and
  -- reports the module
  -- that the contract ran before: the one of its last upgrade in the transaction, or the one on
  -- chain. So a further upgrade reports the module of the upgrade before it; the contract's module
  -- reference and its module are then the newest ones, and other contracts keep their references.
  pub save_module_upgrade_lem :
      (a m m' : ℕ) (h : Handler sdk) (cur : Changes sdk) (c : Contract sdk)
      → current sdk h.changeset ≡ some cur
      → get? a h.chain.contracts ≡ some c
      → c.address ≡ a
      → let (r, h') = save_module_upgrade sdk a m h in
        let (r', h'') = save_module_upgrade sdk a m' h' in
        (r ≡ ok (old_module c cur))
        × (contract_module sdk c h ≡ expect (get? (old_module c cur) h.chain.modules))
        × (r' ≡ ok m)
        × (contract_module_reference sdk a h'' ≡ ok (some m'))
        × (contract_module sdk c h'' ≡ expect (get? m' h.chain.modules))
        × ((b : ℕ)
            → a ≢ b
            → contract_module_reference sdk b h'' ≡ contract_module_reference sdk b h)
  unfolding save_module_upgrade contract_module_reference contract_module
  save_module_upgrade_lem a m m' h cur c top known own = (
    ground (arith, own),
    ground (arith, own),
    grind (arith, get?-insert_self),
    grind (arith, get?-insert_self),
    grind (arith, get?-insert_self),
    λ b n. grind (arith, get?-insert_ne),
  )

  -- The module reference of a contract that has not changed in this transaction is found, and is
  -- `None` as soon as its balance has changed, although the contract was not upgraded.
  pub contract_module_reference_lost :
      (a : ℕ) (d : AmountDelta) (h : Handler sdk) (cur : Changes sdk) (c : Contract sdk)
      → current sdk h.changeset ≡ some cur
      → get? a cur.contracts ≡ none
      → get? a h.chain.contracts ≡ some c
      → InRange c.self_balance d
      → (contract_module_reference sdk a h ≡ ok (some c.module_reference))
        × (contract_module_reference sdk a (change_contract_balance sdk a d h).1 ≡ ok none)
  unfolding contract_module_reference change_contract_balance
  contract_module_reference_lost a d h cur c top fresh known r = (
    ground arith,
    grind (arith, apply_to_balance-InRange sdk.amount c.self_balance d r, get?-insert_self),
  )
