-- ===== src/Testing/Types.antt =====
-- The data of contract-testing/src/types.rs and contract-testing/src/invocation/types.rs: the
-- chain, and the changes that a contract invocation collects before they are persisted.
use rust_smart_contract.Base.{ℕ, Option, none, List, Res, expect_ok}
use rust_smart_contract.Base.Dict.{Dict}
use rust_smart_contract.Testing.Sdk.{Sdk, AccountBalance}
use rust_smart_contract.Testing.Delta
use rust_smart_contract.Testing.Delta.{AmountDelta, apply_to_balance}

-- `ExchangeRate` of the SDK: two `u64`s.
pub record ExchangeRate : Type 0 where
  pub numerator : ℕ
  pub denominator : ℕ

pub record ChainParameters : Type 0 where
  pub block_time : ℕ
  pub micro_ccd_per_euro : ExchangeRate
  pub euro_per_energy : ExchangeRate

-- `ContractModule`; of the artifact only its presence counts here.
pub record ContractModule : Type 0 where
  pub size : ℕ

module _ (sdk : Sdk) where
  open sdk use {PersistentState, MutableState, ContractName, Policy, Keys}

  pub record Contract : Type 0 where
    pub address : ℕ
    pub module_reference : ℕ
    pub contract_name : ContractName
    pub state : PersistentState
    pub owner : ℕ
    pub self_balance : ℕ

  pub record Account : Type 0 where
    pub address : ℕ
    pub balance : AccountBalance
    pub policy : Policy
    pub keys : Keys

  -- `Chain`, without the connection to an external node.
  pub record Chain : Type 0 where
    pub parameters : ChainParameters
    pub accounts : Dict Account
    pub modules : Dict ContractModule
    pub contracts : Dict Contract
    pub next_contract_index : ℕ

  -- The field `module` of the source is `new_module` here.
  pub record ContractChanges : Type 0 where
    pub modification_index : ℕ
    pub self_balance_delta : AmountDelta
    pub self_balance_original : ℕ
    pub state : Option MutableState
    pub new_module : Option ℕ

pub record AccountChanges : Type 0 where
  pub original_balance : ℕ
  pub balance_delta : AmountDelta

module _ (sdk : Sdk) where
  pub record Changes : Type 0 where
    pub contracts : Dict (ContractChanges sdk)
    pub accounts : Dict AccountChanges

  -- The stack of changes: the head of the list is the last element of the vector.
  abbrev pub ChangeSet : Type 0
  ChangeSet = List Changes

  -- `ContractChanges::new`
  abbrev pub new_contract_changes : ℕ → ContractChanges sdk
  new_contract_changes original_balance = record {
    modification_index = 0;
    self_balance_delta = Delta.new;
    self_balance_original = original_balance;
    state = none;
    new_module = none;
  }

  -- `ContractChanges::current_balance`: it panics where the delta is not valid.
  unfoldable pub contract_current_balance : {E : Type 0} → ContractChanges sdk → Res E ℕ
  contract_current_balance changes =
      expect_ok
        (apply_to_balance sdk.amount changes.self_balance_delta changes.self_balance_original)

  -- `AccountChanges::current_balance`
  unfoldable pub account_current_balance : {E : Type 0} → AccountChanges → Res E ℕ
  account_current_balance changes =
      expect_ok (apply_to_balance sdk.amount changes.balance_delta changes.original_balance)
