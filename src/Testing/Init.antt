-- ===== src/Testing/Init.antt =====
-- The initialization of a contract: `Chain::contract_init` and its worker
-- (contract-testing/src/impls.rs). The run of the init method (`v1::invoke_init`) is a parameter.
pub mod Laws
pub mod Outcome
pub mod Stored
use rust_smart_contract.Base.{
  ℕ, ◌+◌, ◌-◌, ◌*◌, ◌%◌, ◌^◌, Bool, true, false, Option, none, some, List, [], ltb, length,
  if◌then◌else◌, Res, ok, err, panic, ◌>>=◌,
}
use rust_smart_contract.Base.Dict.{get?, insert}
use rust_smart_contract.Testing.Sdk.{Sdk, u64_mod}
use rust_smart_contract.Testing.Types.{Chain, Account, Contract, ContractModule}
use rust_smart_contract.Testing.Energy.{
  calculate_energy_cost, lookup_module_cost, to_interpreter_energy, from_interpreter_energy,
}
use rust_smart_contract.Testing.Chain.{find_account, account_exists, charge, sub_energy}

abbrev pub initialize_contract_instance_base_cost : ℕ
initialize_contract_instance_base_cost = 300

abbrev pub initialize_contract_instance_create_cost : ℕ
initialize_contract_instance_create_cost = 200

-- The logs of a run and the reasons of its failures are opaque.
module _ (sdk : Sdk) (Logs : Type 0) (Failure : Type 0) where
  open sdk use {
    MutableState, ContractName, base_cost, transaction_header_size, max_parameter_len, available,
    tick_energy, freeze,
  }

  pub record InitContractPayload : Type 0 where
    pub amount : ℕ
    pub mod_ref : ℕ
    pub init_name : ContractName
    pub param : List ℕ
    pub size : ℕ

  -- `v1::InitResult`, and the error `InvalidReturnCodeError`; the numbers are the remaining
  -- interpreter energy.
  pub data InitResult : Type 0 where
    success : Logs → ℕ → MutableState → InitResult
    reject : Failure → ℕ → InitResult
    trap : Failure → ℕ → InitResult
    ran_out : InitResult
    invalid_return_code : Failure → InitResult

  -- The engine: whether a module exports an init method, and the run of one by a sender at a block
  -- time with some interpreter energy.
  pub record Engine : Type 0 where
    pub exports : ℕ → ContractName → Bool
    pub invoke_init : ℕ → ℕ → InitContractPayload → ℕ → InitResult

  pub data ContractInitErrorKind : Type 0 where
    execution_error : Option Failure → ContractInitErrorKind
    out_of_energy : ContractInitErrorKind
    module_does_not_exist : ℕ → ContractInitErrorKind
    contract_not_present_in_module : ContractName → ContractInitErrorKind
    sender_does_not_exist : ℕ → ContractInitErrorKind
    insufficient_funds : ContractInitErrorKind
    amount_too_large : ContractInitErrorKind
    parameter_too_large : ContractInitErrorKind

  pub record ContractInitError : Type 0 where
    pub energy_used : ℕ
    pub transaction_fee : ℕ
    pub kind : ContractInitErrorKind

  pub record ContractInitSuccess : Type 0 where
    pub contract_address : ℕ
    pub events : Logs
    pub energy_used : ℕ
    pub transaction_fee : ℕ

  -- A result and the remaining energy.
  abbrev pub Metered : Type 0 → Type 0
  Metered A = Res ContractInitErrorKind A × ℕ

  -- `exit_ooe!(remaining_energy.tick_energy(cost))`, and what follows.
  unfoldable pub ticked : {A : Type 0} → ℕ → ℕ → (ℕ → Metered A) → Metered A
  ticked cost remaining_energy next =
      let (enough, left) = tick_energy remaining_energy cost in
      if enough then next left else (err out_of_energy, left)

  -- The part of `contract_init_worker` that ends with the module's lookup.
  unfoldable pub find_init :
      Engine → ℕ → Account sdk → ℕ → InitContractPayload → Chain sdk → ℕ → Metered (Unit {0})
  find_init engine num_keys account_info energy_reserved_cost payload chain remaining_energy =
      ticked (base_cost (transaction_header_size + 1 + payload.size) num_keys) remaining_energy
        (λ left.
          if ltb max_parameter_len (length payload.param)
          then (err parameter_too_large, left)
          else ticked initialize_contract_instance_base_cost left (λ left'.
            if ltb (available account_info.balance)
              (sdk.amount.add_micro_ccd energy_reserved_cost payload.amount)
            then (err amount_too_large, left')
            else elim (get? payload.mod_ref chain.modules) [
              | none ↦ (err (module_does_not_exist payload.mod_ref), left')
              | some module_ ↦ ticked (lookup_module_cost module_) left' (λ left''.
                  if engine.exports payload.mod_ref payload.init_name
                  then (ok tt, left'')
                  else (err (contract_not_present_in_module payload.init_name), left''))
            ]))

  -- `contract_init_worker` up to the run: the guards, and what the interpreter is given.
  unfoldable pub prepare_init : Engine → ℕ → ℕ → ℕ → InitContractPayload → Chain sdk → ℕ → Metered ℕ
  prepare_init engine num_keys sender energy_reserved payload chain remaining_energy =
      elim (find_account sdk sender chain) [
        | none ↦ (err (sender_does_not_exist sender), remaining_energy)
        | some account_info ↦
            elim (calculate_energy_cost {E = ⊥} sdk chain.parameters energy_reserved) [
              | ok energy_reserved_cost ↦
                  if ltb (available account_info.balance) energy_reserved_cost
                  then (err insufficient_funds, remaining_energy)
                  else (let (found, left) =
                        find_init engine num_keys account_info energy_reserved_cost payload chain
                          remaining_energy in
                      (found >>= λ _. to_interpreter_energy left, left))
              | err _ ↦ (panic, remaining_energy)
              | panic ↦ (panic, remaining_energy)
            ]
      ]

  -- `create_contract_address`: the subindex is always 0, so the address is the index.
  unfoldable pub create_contract_address : Chain sdk → ℕ × Chain sdk
  create_contract_address chain = (
    chain.next_contract_index,
    record chain { next_contract_index = (chain.next_contract_index + 1) % u64_mod },
  )

  -- The contract is saved and the amount taken from the sender.
  unfoldable pub save_contract :
      ℕ → InitContractPayload → ℕ → MutableState → Chain sdk → Option (Chain sdk)
  save_contract sender payload contract_address state chain =
      let contract : Contract sdk = record {
        module_reference = payload.mod_ref;
        contract_name = payload.init_name;
        state = (freeze state).0;
        owner = sender;
        self_balance = payload.amount;
        address = contract_address;
      } in
      charge sdk sender payload.amount
        (record chain { contracts = insert contract_address contract chain.contracts })

  -- The charges after a run that succeeded.
  unfoldable pub charge_success : ℕ → MutableState → ℕ → Metered (Unit {0})
  charge_success energy_used_in_interpreter state remaining_energy =
      ticked energy_used_in_interpreter remaining_energy (λ left.
        ticked (freeze state).1 left (λ left'.
          ticked initialize_contract_instance_create_cost left' (λ left''. (ok tt, left''))))

  -- A run that failed with some interpreter energy left.
  unfoldable pub charge_failure : ℕ → Failure → ℕ → Metered (Unit {0})
  charge_failure energy_used_in_interpreter failure remaining_energy =
      ticked energy_used_in_interpreter remaining_energy
        (λ left. (err (execution_error (some failure)), left))

  -- `contract_init_worker` after a run that succeeded: the result, the chain, the remaining energy.
  unfoldable pub finish_success :
      ℕ
      → InitContractPayload
      → ℕ
      → Logs
      → ℕ
      → MutableState
      → Chain sdk
      → ℕ
      → Res ContractInitErrorKind ContractInitSuccess × (Chain sdk × ℕ)
  finish_success sender payload energy_reserved logs energy_used_in_interpreter state chain
        remaining_energy =
      let (contract_address, chain') = create_contract_address chain in
      let (charged, left) = charge_success energy_used_in_interpreter state remaining_energy in
      elim charged [
        | ok _ ↦ elim (save_contract sender payload contract_address state chain') [
          | none ↦ (panic, (chain', left))
          | some chain'' ↦ (
            sub_energy energy_reserved left >>= λ energy_used.
                calculate_energy_cost sdk chain''.parameters energy_used >>= λ transaction_fee.
                ok (record {
                  contract_address = contract_address;
                  events = logs;
                  energy_used = energy_used;
                  transaction_fee = transaction_fee;
                }),
            (chain'', left),
          )
        ]
        | err e ↦ (err e, (chain', left))
        | panic ↦ (panic, (chain', left))
      ]

  -- A failed run leaves the chain.
  abbrev pub failed :
      Metered (Unit {0})
      → Chain sdk
      → Res ContractInitErrorKind ContractInitSuccess × (Chain sdk × ℕ)
  failed (ok _, left) chain = (panic, (chain, left))
  failed (err e, left) chain = (err e, (chain, left))
  failed (panic, left) chain = (panic, (chain, left))

  -- What the worker makes of the result of the run.
  unfoldable pub handle_result :
      ℕ
      → InitContractPayload
      → ℕ
      → ℕ
      → InitResult
      → Chain sdk
      → ℕ
      → Res ContractInitErrorKind ContractInitSuccess × (Chain sdk × ℕ)
  handle_result sender payload energy_reserved given result chain remaining_energy = elim result [
    | success logs rest state ↦
        finish_success sender payload energy_reserved logs (from_interpreter_energy (given - rest))
          state chain remaining_energy
    | reject failure rest ↦
        failed (charge_failure (from_interpreter_energy (given - rest)) failure remaining_energy)
          chain
    | trap failure rest ↦
        failed (charge_failure (from_interpreter_energy (given - rest)) failure remaining_energy)
          chain
    | ran_out ↦ (err (execution_error none), (chain, 0))
    | invalid_return_code failure ↦
        (err (execution_error (some failure)), (chain, remaining_energy))
  ]

  -- `contract_init_worker`
  unfoldable pub contract_init_worker :
      Engine
      → ℕ
      → ℕ
      → ℕ
      → InitContractPayload
      → Chain sdk
      → ℕ
      → Res ContractInitErrorKind ContractInitSuccess × (Chain sdk × ℕ)
  contract_init_worker engine num_keys sender energy_reserved payload chain remaining_energy =
      let (prepared, left) =
        prepare_init engine num_keys sender energy_reserved payload chain remaining_energy in
      elim prepared [
        | ok given ↦
            handle_result sender payload energy_reserved given
              (engine.invoke_init sender chain.parameters.block_time payload given) chain left
        | err e ↦ (err e, (chain, left))
        | panic ↦ (panic, (chain, left))
      ]

  -- `convert_to_init_error`
  unfoldable pub convert_to_init_error :
      Chain sdk → ContractInitErrorKind → ℕ → ℕ → Res ⊥ ContractInitError
  convert_to_init_error chain kind energy_reserved remaining_energy =
      sub_energy energy_reserved remaining_energy >>= λ energy_used.
      calculate_energy_cost sdk chain.parameters energy_used >>= λ transaction_fee.
      ok (record { energy_used = energy_used; transaction_fee = transaction_fee; kind = kind })

  -- The end of `contract_init`: the fee of the result is taken from the sender.
  unfoldable pub charge_init :
      ℕ
      → Res ContractInitError ContractInitSuccess
      → ℕ
      → Chain sdk
      → Res ContractInitError ContractInitSuccess × Chain sdk
  charge_init sender res transaction_fee chain = elim (charge sdk sender transaction_fee chain) [
    | none ↦ (panic, chain)
    | some chain' ↦ (res, chain')
  ]

  -- `contract_init` behind the worker.
  unfoldable pub settle_init :
      ℕ
      → ℕ
      → Res ContractInitErrorKind ContractInitSuccess × (Chain sdk × ℕ)
      → Res ContractInitError ContractInitSuccess × Chain sdk
  settle_init sender energy_reserved (ok s, (chain, left)) =
      charge_init sender (ok s) s.transaction_fee chain
  settle_init sender energy_reserved (err kind, (chain, left)) =
      elim (convert_to_init_error chain kind energy_reserved left) [
        | ok e ↦ charge_init sender (err e) e.transaction_fee chain
        | err _ ↦ (panic, chain)
        | panic ↦ (panic, chain)
      ]
  settle_init sender energy_reserved (panic, (chain, left)) = (panic, chain)

  -- `contract_init`
  unfoldable pub contract_init :
      Engine
      → ℕ
      → ℕ
      → ℕ
      → InitContractPayload
      → Chain sdk
      → Res ContractInitError ContractInitSuccess × Chain sdk
  contract_init engine num_keys sender energy_reserved payload chain =
      if account_exists sdk sender chain
      then settle_init sender energy_reserved (
          contract_init_worker engine num_keys sender energy_reserved payload chain energy_reserved)
      else elim (convert_to_init_error chain (sender_does_not_exist sender) energy_reserved
          energy_reserved) [
            | ok e ↦ (err e, chain)
            | err _ ↦ (panic, chain)
            | panic ↦ (panic, chain)
          ]
