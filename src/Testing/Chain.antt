-- ===== src/Testing/Chain.antt =====
-- `Chain` of contract-testing/src/impls.rs: accounts, contracts, fees, and the update of a contract.
-- The execution of an entrypoint (`invoke_entrypoint`) is a parameter of this module.
use rust_smart_contract.Base.{
  ℕ, ◌-◌, Bool, Option, none, some, List, leb, if◌then◌else◌, Res, ok, err, panic, ◌>>=◌,
}
use rust_smart_contract.Base.Dict.{get?, insert, contains_key}
use rust_smart_contract.Testing.Sdk.{Sdk}
use rust_smart_contract.Testing.Types.{Chain, Account}
use rust_smart_contract.Testing.Energy.{calculate_energy_cost}

-- `Address` of contracts-common
pub data Address : Type 0 where
  account : ℕ → Address
  contract : ℕ → Address

-- `UpdateContractPayload` of the SDK, with the value of its method `size`.
pub record UpdateContractPayload : Type 0 where
  pub amount : ℕ
  pub address : ℕ
  pub receive_name : List ℕ
  pub message : List ℕ
  pub size : ℕ

-- `TestConfigurationError` of contract-testing/src/invocation/types.rs, without the debug trace.
pub data TestConfigurationError : Type 0 where
  out_of_energy : TestConfigurationError
  balance_overflow : TestConfigurationError

-- The types of the trace elements and of the engine's failures are opaque.
module _ (Trace : Type 0) (Failure : Type 0) where
  -- `v1::InvokeResponse`
  pub data InvokeResponse : Type 0 where
    success : (new_balance : ℕ) → (return_value : Option (List ℕ)) → InvokeResponse
    failure : Failure → InvokeResponse

  -- `ContractInvokeErrorKind` of contract-testing/src/types.rs, without the debug trace.
  pub data ContractInvokeErrorKind : Type 0 where
    execution_error : Failure → ContractInvokeErrorKind
    out_of_energy : ContractInvokeErrorKind
    balance_overflow : ContractInvokeErrorKind
    contract_does_not_exist : ℕ → ContractInvokeErrorKind
    invoker_does_not_exist : ℕ → ContractInvokeErrorKind
    sender_does_not_exist : Address → ContractInvokeErrorKind
    insufficient_funds : ContractInvokeErrorKind
    amount_too_large : ContractInvokeErrorKind
    parameter_too_large : ContractInvokeErrorKind

  pub record ContractInvokeError : Type 0 where
    pub energy_used : ℕ
    pub module_load_energy : ℕ
    pub transaction_fee : ℕ
    pub trace_elements : List Trace
    pub kind : ContractInvokeErrorKind

  pub record ContractInvokeSuccess : Type 0 where
    pub trace_elements : List Trace
    pub energy_used : ℕ
    pub storage_energy : ℕ
    pub module_load_energy : ℕ
    pub transaction_fee : ℕ
    pub return_value : List ℕ
    pub state_changed : Bool
    pub new_balance : ℕ

-- `Energy` minus `Energy`: a `u64` subtraction, which panics below 0.
abbrev pub sub_energy : {E : Type 0} → ℕ → ℕ → Res E ℕ
sub_energy a b = if leb b a then ok (a - b) else panic

-- `Energy::checked_sub`
abbrev pub checked_sub_energy : ℕ → ℕ → Option ℕ
checked_sub_energy a b = if leb b a then some (a - b) else none

module _ (sdk : Sdk) where
  open sdk use {address_eq, available}

  -- `Chain::account`, `account_exists`, `contract_exists`, `address_exists`
  unfoldable pub find_account : ℕ → Chain sdk → Option (Account sdk)
  find_account address chain = get? (address_eq address) chain.accounts

  unfoldable pub account_exists : ℕ → Chain sdk → Bool
  account_exists address chain = contains_key (address_eq address) chain.accounts

  unfoldable pub contract_exists : ℕ → Chain sdk → Bool
  contract_exists address chain = contains_key address chain.contracts

  unfoldable pub address_exists : Address → Chain sdk → Bool
  unfolding account_exists contract_exists
  address_exists (account acc) chain = account_exists acc chain
  address_exists (contract contr) chain = contract_exists contr chain

  -- `Chain::create_account`: the account that was there before, and the chain.
  unfoldable pub create_account : Account sdk → Chain sdk → Option (Account sdk) × Chain sdk
  create_account new chain = (
    get? (address_eq new.address) chain.accounts,
    record chain { accounts = insert (address_eq new.address) new chain.accounts },
  )

  -- `self.account_mut(address).expect(..).balance.total -= amount`
  unfoldable pub charge : ℕ → ℕ → Chain sdk → Option (Chain sdk)
  charge address amount chain = elim (get? (address_eq address) chain.accounts) [
    | none ↦ none
    | some a ↦
        if leb amount a.balance.total
        then some (record chain {
          accounts =
              insert (address_eq address)
                (record a {
                  balance = record (a.balance) {
                    total = sdk.amount.subtract_micro_ccd a.balance.total amount;
                  };
                })
                chain.accounts;
        })
        else none
  ]

module _ (sdk : Sdk) (Trace : Type 0) (Failure : Type 0) where
  abbrev Err : Type 0
  Err = ContractInvokeError Trace Failure

  abbrev Success : Type 0
  Success = ContractInvokeSuccess Trace Failure

  -- `Chain::convert_to_invoke_error`: running out of energy uses all that was reserved.
  unfoldable pub convert_to_invoke_error :
      {A : Type 0}
      → Chain sdk
      → ContractInvokeErrorKind Trace Failure
      → List Trace
      → ℕ
      → ℕ
      → ℕ
      → Res Err A
  convert_to_invoke_error chain kind trace_elements energy_reserved remaining module_load_energy =
      let remaining_energy : ℕ = elim kind [ out_of_energy ↦ 0 | _ ↦ remaining ] in
      do
        energy_used ← sub_energy energy_reserved remaining_energy
        transaction_fee ← calculate_energy_cost sdk chain.parameters energy_used
        err (record {
          energy_used = energy_used;
          module_load_energy = module_load_energy;
          transaction_fee = transaction_fee;
          trace_elements = trace_elements;
          kind = kind;
        })
