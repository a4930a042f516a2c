-- ===== src/Testing/Update.antt =====
-- `Chain::contract_update` and `Chain::contract_invoke` of contract-testing/src/impls.rs. What runs
-- the entrypoint, `invoke_entrypoint` of contract-testing/src/invocation/impls.rs with the Wasm
-- engine under it, is a parameter: nothing is assumed of it.
pub mod Laws
pub mod Fees
use rust_smart_contract.Base.{
  ℕ, ◌+◌, Bool, true, false, Option, none, some, List, [], ltb, leb, length, if◌then◌else◌, Res, ok,
  err, panic, ◌>>=◌, expect,
}
use rust_smart_contract.Base.Dict.{get?}
use rust_smart_contract.Testing.Sdk.{Sdk}
use rust_smart_contract.Testing.Types.{Chain, Account, ChangeSet}
use rust_smart_contract.Testing.ChangeSet
use rust_smart_contract.Testing.Energy.{calculate_energy_cost}
use rust_smart_contract.Testing.Handler.{EntrypointInvocationHandler, Handler}
use rust_smart_contract.Testing.Persist.{
  Persisted, persist, collect_energy_for_state, InsufficientEnergy,
}
use rust_smart_contract.Testing.Chain.{
  Address, UpdateContractPayload, TestConfigurationError, InvokeResponse, success, failure,
  ContractInvokeErrorKind, execution_error, contract_does_not_exist, invoker_does_not_exist,
  sender_does_not_exist, insufficient_funds, amount_too_large, parameter_too_large,
  ContractInvokeError, ContractInvokeSuccess, sub_energy, checked_sub_energy, find_account,
  account_exists, contract_exists, address_exists, charge, convert_to_invoke_error,
}
use mathlib.Core.Option

module _ (sdk : Sdk) (Trace : Type 0) (Failure : Type 0) where
  open sdk use {available, base_cost, transaction_header_size, max_parameter_len}

  abbrev pub Err : Type 0
  Err = ContractInvokeError Trace Failure

  abbrev pub Success : Type 0
  Success = ContractInvokeSuccess Trace Failure

  abbrev pub Kind : Type 0
  Kind = ContractInvokeErrorKind Trace Failure

  abbrev pub Response : Type 0
  Response = InvokeResponse Trace Failure

  -- `EntrypointInvocationHandler::invoke_entrypoint`
  abbrev pub InvokeEntrypoint : Type 0
  InvokeEntrypoint =
      ℕ
      → Address
      → UpdateContractPayload
      → Handler sdk
      → Res TestConfigurationError (Response × List Trace) × Handler sdk

  -- `ContractInvokeErrorKind::from` on a `TestConfigurationError`
  abbrev pub kind_of : TestConfigurationError → Kind
  kind_of TestConfigurationError.out_of_energy = ContractInvokeErrorKind.out_of_energy
  kind_of TestConfigurationError.balance_overflow = ContractInvokeErrorKind.balance_overflow

  -- What the worker returns: the response, the changes, the trace and the module load energy.
  pub record Invoked : Type 0 where
    pub result : Response
    pub changeset : ChangeSet sdk
    pub trace_elements : List Trace
    pub module_load_energy : ℕ

  -- The handler with which the worker starts.
  abbrev pub start_handler : Chain sdk → ℕ → ℕ → ℕ → ℕ → Handler sdk
  start_handler chain invoker energy_reserved amount_reserved_for_energy remaining_energy = record {
    reserved_amount = amount_reserved_for_energy;
    invoker = invoker;
    changeset = ChangeSet.new sdk;
    remaining_energy = remaining_energy;
    module_load_energy = 0;
    energy_reserved = energy_reserved;
    chain = chain;
    next_contract_modification_index = 1;
  }

  -- The end of the worker: `module_load_energy` was copied before the invocation, when it was 0.
  unfoldable pub invoked :
      Chain sdk
      → ℕ
      → Res TestConfigurationError (Response × List Trace) × Handler sdk
      → Res Err Invoked × ℕ
  invoked chain energy_reserved (ok (result, trace_elements), h) = (
    ok (record {
      result = result;
      changeset = h.changeset;
      trace_elements = trace_elements;
      module_load_energy = h.module_load_energy;
    }),
    h.remaining_energy,
  )
  invoked chain energy_reserved (err e, h) = (
    convert_to_invoke_error sdk Trace Failure chain (kind_of e) [] energy_reserved
        h.remaining_energy 0,
    h.remaining_energy,
  )
  invoked chain energy_reserved (panic, h) = (panic, h.remaining_energy)

  -- `contract_invocation_worker`: the result, and the remaining energy.
  unfoldable pub contract_invocation_worker :
      InvokeEntrypoint
      → Chain sdk
      → ℕ
      → Address
      → ℕ
      → ℕ
      → UpdateContractPayload
      → ℕ
      → Res Err Invoked × ℕ
  unfolding invoked
  contract_invocation_worker invoke chain invoker sender energy_reserved amount_reserved_for_energy
        payload remaining_energy =
      let refuse : Kind → Res Err Invoked × ℕ = λ kind. (
        convert_to_invoke_error sdk Trace Failure {A = Invoked} chain kind [] energy_reserved
            remaining_energy 0,
        remaining_energy,
      ) in
      if contract_exists sdk payload.address chain
      then if ltb max_parameter_len (length payload.message)
        then refuse parameter_too_large
        else elim (find_account sdk invoker chain) [
          | none ↦ (panic, remaining_energy)
          | some a ↦
              if ltb (available a.balance)
                (sdk.amount.add_micro_ccd amount_reserved_for_energy payload.amount)
              then refuse amount_too_large
              else invoked chain energy_reserved (
                  invoke invoker sender payload (
                    start_handler chain invoker energy_reserved amount_reserved_for_energy
                      remaining_energy))
        ]
      else refuse (contract_does_not_exist payload.address)

  -- `contract_invocation_process_response`
  unfoldable pub contract_invocation_process_response :
      Chain sdk → Response → List Trace → ℕ → ℕ → ℕ → Bool → ℕ → Res Err Success
  contract_invocation_process_response chain (success new_balance return_value) trace_elements
        energy_reserved remaining_energy state_energy state_changed module_load_energy =
      do
        energy_used ← sub_energy energy_reserved remaining_energy
        transaction_fee ← calculate_energy_cost sdk chain.parameters energy_used
        ok (record {
          trace_elements = trace_elements;
          energy_used = energy_used;
          storage_energy = state_energy;
          module_load_energy = module_load_energy;
          transaction_fee = transaction_fee;
          return_value = Option.get_or return_value [];
          state_changed = state_changed;
          new_balance = new_balance;
        })
  contract_invocation_process_response chain (failure kind) trace_elements energy_reserved
        remaining_energy state_energy state_changed module_load_energy =
      convert_to_invoke_error sdk Trace Failure chain (execution_error kind) trace_elements
        energy_reserved remaining_energy module_load_energy

  -- An error before anything is charged.
  abbrev pub refused : Kind → Err
  refused kind = record {
    energy_used = 0;
    module_load_energy = 0;
    transaction_fee = 0;
    trace_elements = [];
    kind = kind;
  }

  -- The end of `contract_update`: the fee of the result is taken from the invoker.
  abbrev pub fee : Res Err Success → Option ℕ
  fee (ok s) = some s.transaction_fee
  fee (err e) = some e.transaction_fee
  fee panic = none

  unfoldable pub charge_fee : ℕ → Res Err Success → Chain sdk → Res Err Success × Chain sdk
  charge_fee invoker res chain = elim (fee res) [
    | none ↦ (panic, chain)
    | some transaction_fee ↦ elim (charge sdk invoker transaction_fee chain) [
      | none ↦ (panic, chain)
      | some chain' ↦ (res, chain')
    ]
  ]

  -- The middle of `contract_update`: changes are persisted after a success only.
  unfoldable pub store_changes :
      ℕ → ℕ → UpdateContractPayload → Invoked → ℕ → Chain sdk → Res Err Success × Chain sdk
  unfolding charge_fee
  store_changes energy_reserved invoker payload i remaining_energy chain = elim i.result [
    | failure kind ↦
        charge_fee invoker
          (contract_invocation_process_response chain i.result i.trace_elements energy_reserved
            remaining_energy 0 false i.module_load_energy)
          chain
    | success _ _ ↦
        let (r, p) = persist sdk i.changeset payload.address (record {
          remaining_energy = remaining_energy;
          accounts = chain.accounts;
          contracts = chain.contracts;
        }) in
        let chain' = record chain { accounts = p.accounts; contracts = p.contracts } in
        elim r [
          | ok state_changed ↦ elim (checked_sub_energy remaining_energy p.remaining_energy) [
            | some state_energy ↦
                charge_fee invoker
                  (contract_invocation_process_response chain' i.result i.trace_elements
                    energy_reserved p.remaining_energy state_energy state_changed
                    i.module_load_energy)
                  chain'
            | none ↦ (panic, chain')
          ]
          -- `return Err(..)`: the charge at the end of the function is not reached.
          | err _ ↦ (
            convert_to_invoke_error sdk Trace Failure chain' ContractInvokeErrorKind.out_of_energy
                [] energy_reserved 0 i.module_load_energy,
            chain',
          )
          | panic ↦ (panic, chain')
        ]
  ]

  -- `contract_update` after the worker.
  unfoldable pub settle :
      ℕ → ℕ → UpdateContractPayload → Res Err Invoked × ℕ → Chain sdk → Res Err Success × Chain sdk
  settle energy_reserved invoker payload (ok i, remaining) chain =
      store_changes energy_reserved invoker payload i remaining chain
  settle energy_reserved invoker payload (err e, remaining) chain = charge_fee invoker (err e) chain
  settle energy_reserved invoker payload (panic, remaining) chain = (panic, chain)

  -- `contract_update`, with the number of keys of the signer.
  unfoldable pub contract_update :
      InvokeEntrypoint
      → ℕ
      → ℕ
      → Address
      → ℕ
      → UpdateContractPayload
      → Chain sdk
      → Res Err Success × Chain sdk
  contract_update invoke num_keys invoker sender energy_reserved payload chain =
      if address_exists sdk sender chain
      then elim (find_account sdk invoker chain) [
        | none ↦ (err (refused (invoker_does_not_exist invoker)), chain)
        | some account_info ↦
            let check_header_cost =
              base_cost (transaction_header_size + 1 + payload.size) num_keys in
            elim (checked_sub_energy energy_reserved check_header_cost) [
              | some remaining_energy ↦
                  elim (calculate_energy_cost {E = Err} sdk chain.parameters energy_reserved) [
                    | ok reserved_for_nrg ↦
                        if ltb (available account_info.balance) reserved_for_nrg
                        then (
                          convert_to_invoke_error sdk Trace Failure chain insufficient_funds []
                              energy_reserved remaining_energy 0,
                          chain,
                        )
                        else settle energy_reserved invoker payload
                            (contract_invocation_worker invoke chain invoker sender energy_reserved
                              reserved_for_nrg payload remaining_energy)
                            chain
                    | err e ↦ (err e, chain)
                    | panic ↦ (panic, chain)
                  ]
              | none ↦ (err (refused ContractInvokeErrorKind.out_of_energy), chain)
            ]
      ]
      else (err (refused (sender_does_not_exist sender)), chain)

  -- The end of `contract_invoke`: the energy for the state is counted, and nothing is stored.
  unfoldable pub dry_run_changes :
      ℕ → UpdateContractPayload → Invoked → ℕ → Chain sdk → Res Err Success
  dry_run_changes energy_reserved payload i remaining_energy chain = elim i.result [
    | failure kind ↦
        contract_invocation_process_response chain i.result i.trace_elements energy_reserved
          remaining_energy 0 false i.module_load_energy
    | success _ _ ↦
        let (r, remaining) =
          collect_energy_for_state sdk i.changeset payload.address remaining_energy in
        elim r [
          | ok state_changed ↦ elim (checked_sub_energy remaining_energy remaining) [
            | some state_energy ↦
                contract_invocation_process_response chain i.result i.trace_elements energy_reserved
                  remaining state_energy state_changed i.module_load_energy
            | none ↦ panic
          ]
          | err _ ↦
              convert_to_invoke_error sdk Trace Failure chain ContractInvokeErrorKind.out_of_energy
                [] energy_reserved 0 i.module_load_energy
          | panic ↦ panic
        ]
  ]

  -- `contract_invoke` after the test whether the energy cannot be paid for.
  unfoldable pub invoke_with_funds :
      InvokeEntrypoint
      → ℕ
      → Address
      → ℕ
      → UpdateContractPayload
      → Chain sdk
      → Bool
      → ℕ
      → Res Err Success
  invoke_with_funds invoke invoker sender energy_reserved payload chain true reserved_for_nrg =
      calculate_energy_cost sdk chain.parameters 0 >>= λ transaction_fee.
      err (record (refused insufficient_funds) { transaction_fee = transaction_fee })
  invoke_with_funds invoke invoker sender energy_reserved payload chain false reserved_for_nrg =
      let (worker, remaining) =
        contract_invocation_worker invoke chain invoker sender energy_reserved reserved_for_nrg
          payload energy_reserved in
      worker >>= λ i. dry_run_changes energy_reserved payload i remaining chain

  -- `contract_invoke`: it takes `&self`, so it returns no chain.
  unfoldable pub contract_invoke :
      InvokeEntrypoint → ℕ → Address → ℕ → UpdateContractPayload → Chain sdk → Res Err Success
  contract_invoke invoke invoker sender energy_reserved payload chain =
      if address_exists sdk sender chain
      then elim (find_account sdk invoker chain) [
        | none ↦ err (refused (invoker_does_not_exist invoker))
        | some account_info ↦ do
          reserved_for_nrg ← calculate_energy_cost sdk chain.parameters energy_reserved
          invoke_with_funds invoke invoker sender energy_reserved payload chain
              (ltb (available account_info.balance) reserved_for_nrg) reserved_for_nrg
      ]
      else err (refused (sender_does_not_exist sender))
