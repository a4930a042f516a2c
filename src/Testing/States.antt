-- ===== src/Testing/States.antt =====
-- The contract states and modules of a running transaction, and its checkpoints
-- (contract-testing/src/invocation/impls.rs).
pub mod Checkpoints
pub mod Indices
use rust_smart_contract.Base.{
  ℕ, ◌+◌, ◌%◌, ◌^◌, Option, none, some, Res, ok, err, panic, ◌>>=◌, expect,
}
use rust_smart_contract.Base.Dict.{get?}
use rust_smart_contract.Testing.Sdk.{Sdk}
use rust_smart_contract.Testing.Types.{
  Contract, Changes, ChangeSet, ContractChanges, ContractModule, new_contract_changes,
}
use rust_smart_contract.Testing.ChangeSet
use rust_smart_contract.Testing.ChangeSet.{current}
use rust_smart_contract.Testing.Handler.{Handler, Action, Reads, put_contract}
use mathlib.Core.Option

module _ (sdk : Sdk) where
  open sdk use {MutableState, ContractName, thaw}

  -- `EntrypointInvocationHandler::contract_module_reference`. A contract with changes but no new
  -- module gives `None`, as in the source.
  pub contract_module_reference : ℕ → Reads sdk (Option ℕ)
  contract_module_reference address h = do
    cur ← expect (current sdk h.changeset)
    elim (get? address cur.contracts) [
      | none ↦
          ok
            (Option.map (λ (c : Contract sdk). c.module_reference) (get? address h.chain.contracts))
      | some changes ↦ ok changes.new_module
    ]

  -- `contract_name`
  pub contract_name : ℕ → Handler sdk → Option ContractName
  contract_name address h =
      Option.map (λ (c : Contract sdk). c.contract_name) (get? address h.chain.contracts)

  -- `get(&address).and_then(|c| ...)` on the topmost contract changes.
  abbrev changed : {A : Type 0} → (ContractChanges sdk → Option A) → ℕ → Changes sdk → Option A
  changed f address cur = elim (get? address cur.contracts) [ none ↦ none | some c ↦ f c ]

  -- `contract_module`
  pub contract_module : Contract sdk → Reads sdk ContractModule
  contract_module contract h = do
    cur ← expect (current sdk h.changeset)
    elim (changed (λ c. c.new_module) contract.address cur) [
      | some new_module ↦ expect (get? new_module h.chain.modules)
      | none ↦ expect (get? contract.module_reference h.chain.modules)
    ]

  -- `contract_state`
  pub contract_state : ℕ → Reads sdk MutableState
  contract_state address h = do
    cur ← expect (current sdk h.changeset)
    elim (changed (λ c. c.state) address cur) [
      | some modified_state ↦ ok modified_state
      | none ↦ expect (get? address h.chain.contracts) >>= λ c. ok (thaw c.state)
    ]

  -- `self.next_contract_modification_index += 1` on a `u32`.
  abbrev bump_index : Handler sdk → Handler sdk
  bump_index h = record h {
    next_contract_modification_index = (h.next_contract_modification_index + 1) % 2 ^ 32;
  }

  -- `save_state_changes`
  pub save_state_changes : ℕ → MutableState → Action sdk ⊥ ℕ
  save_state_changes address state h =
      let modification_index = h.next_contract_modification_index in
      elim (current sdk h.changeset) [
        | none ↦ (panic, h)
        | some cur ↦ elim (get? address cur.contracts) [
          | none ↦ elim (get? address h.chain.contracts) [
            | none ↦ (panic, h)
            | some contract ↦ (
              ok modification_index,
              bump_index (
                  put_contract sdk h cur address
                    (record (new_contract_changes sdk contract.self_balance) {
                      state = some state;
                      modification_index = modification_index;
                    })),
            )
          ]
          | some changes ↦ (
            ok modification_index,
            bump_index (
                put_contract sdk h cur address
                  (record changes { state = some state; modification_index = modification_index })),
          )
        ]
      ]

  -- `save_module_upgrade`
  pub save_module_upgrade : ℕ → ℕ → Action sdk ⊥ ℕ
  save_module_upgrade address module_reference h = elim (current sdk h.changeset) [
    | none ↦ (panic, h)
    | some cur ↦ elim (get? address cur.contracts) [
      | none ↦ elim (get? address h.chain.contracts) [
        | none ↦ (panic, h)
        | some contract ↦ (
          ok contract.module_reference,
          put_contract sdk h cur address (record (new_contract_changes sdk contract.self_balance) {
            new_module = some module_reference;
          }),
        )
      ]
      | some changes ↦ (
        elim changes.new_module [
          | some old_module ↦ ok old_module
          | none ↦ expect (get? address h.chain.contracts) >>= λ c. ok c.module_reference
        ],
        put_contract sdk h cur address (record changes { new_module = some module_reference }),
      )
    ]
  ]

  -- `modification_index`: 0 for a contract without changes.
  pub modification_index : ℕ → Reads sdk ℕ
  modification_index address h = do
    cur ← expect (current sdk h.changeset)
    ok (elim (get? address cur.contracts) [ none ↦ 0 | some c ↦ c.modification_index ])

  abbrev on_changeset : (Res ⊥ (ChangeSet sdk)) → Handler sdk → Res ⊥ (Unit {0}) × Handler sdk
  on_changeset (ok stack) h = (ok tt, record h { changeset = stack })
  on_changeset (err e) h = (err e, h)
  on_changeset panic h = (panic, h)

  -- `checkpoint` and `rollback` of the handler
  unfoldable pub checkpoint : Action sdk ⊥ (Unit {0})
  unfolding ChangeSet.checkpoint
  checkpoint h = on_changeset (ChangeSet.checkpoint sdk h.changeset) h

  pub rollback : Action sdk ⊥ (Unit {0})
  unfolding ChangeSet.rollback
  rollback h = on_changeset (ChangeSet.rollback sdk h.changeset) h
