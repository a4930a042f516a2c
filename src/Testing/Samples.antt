-- ===== src/Testing/Samples.antt =====
-- A concrete instance of the SDK's part and a small chain, for runs and examples of
-- contract-testing.
mod Transfers
mod Persisting
mod Deploying
mod Initializing
use rust_smart_contract.Base.{
  ℕ, ◌+◌, ◌-◌, ◌*◌, ◌/◌, ◌≤◌, ◌<◌, ◌≡◌, refl, Bool, true, false, Option, none, some, List, [], ◌∷◌,
  if◌then◌else◌, ltb, leb, arith, max,
}
use rust_smart_contract.Testing.Sdk.{Sdk, AmountApi, AccountBalance, u64_mod}
use rust_smart_contract.Testing.Types.{
  Chain, Contract, Account, Changes, ExchangeRate, ChainParameters,
}
use rust_smart_contract.Testing.Handler.{Handler}

abbrev pub checked_amounts : AmountApi
checked_amounts = record {
  add_micro_ccd = λ a b. a + b;
  subtract_micro_ccd = λ a b. a - b;
  checked_add = λ a b. if ltb (a + b) u64_mod then some (a + b) else none;
  checked_sub = λ a b. if leb b a then some (a - b) else none;
  add_micro_ccd_lem = λ a b h. refl;
  subtract_micro_ccd_lem = λ a b h. refl;
  checked_add_lem = λ a b. refl;
  checked_sub_lem = λ a b. refl;
}

abbrev pub tick : ℕ → ℕ → Bool × ℕ
tick e a = if leb a e then (true, e - a) else (false, 0)

pub tick_enough : (e a : ℕ) → a ≤ e → tick e a ≡ (true, e - a)
tick_enough e a h = ground arith

pub tick_insufficient : (e a : ℕ) → e < a → ((tick e a).0 ≡ false) × ((tick e a).1 ≤ e)
tick_insufficient e a h = ground arith

abbrev pub ceil : ℕ → ℕ → ℕ
ceil n d = (n + d - 1) / d

pub ceil_lem : (n d : ℕ) → 0 < d → (n ≤ ceil n d * d) × (ceil n d * d < n + d)
ceil_lem n d h = grind arith

-- States are numbers and take as many bytes; two addresses that differ in the last bit are aliases.
abbrev pub sample_sdk : Sdk
sample_sdk = record {
  amount = checked_amounts;
  PersistentState = ℕ;
  MutableState = ℕ;
  ContractName = ℕ;
  Policy = Unit {0};
  Keys = Unit {0};
  thaw = λ s. s;
  freeze = λ s. (s, s);
  address_eq = λ a. a / 2;
  available = λ b. b.total - max b.staked b.locked;
  available_lem = λ b. refl;
  tick_energy = tick;
  tick_energy_enough = tick_enough;
  tick_energy_insufficient = tick_insufficient;
  div_ceil = ceil;
  div_ceil_lem = ceil_lem;
  base_cost = λ size keys. size + 100 * keys;
  transaction_header_size = 60;
  max_parameter_len = 65535;
}

abbrev pub sample_contract : ℕ → ℕ → Contract sample_sdk
sample_contract address balance = record {
  address = address;
  module_reference = 70 + address;
  contract_name = 0;
  state = 3;
  owner = 20;
  self_balance = balance;
}

abbrev pub sample_account : ℕ → ℕ → ℕ → Account sample_sdk
sample_account address total staked = record {
  address = address;
  balance = record { total = total; staked = staked; locked = 20 };
  policy = tt;
  keys = tt;
}

-- Contracts 1 and 2, and the accounts 10 and 20.
abbrev pub sample_chain : Chain sample_sdk
sample_chain = record {
  parameters = record {
    block_time = 0;
    micro_ccd_per_euro = record { numerator = 50_000; denominator = 1 };
    euro_per_energy = record { numerator = 1; denominator = 50_000 };
  };
  accounts = (5, sample_account 10 100 30) ∷ (10, sample_account 20 9000 0) ∷ [];
  modules =
      (71, record { size = 500 }) ∷ (72, record { size = 500 }) ∷ (80, record { size = 900 }) ∷ [];
  contracts = (1, sample_contract 1 50) ∷ (2, sample_contract 2 7) ∷ [];
  next_contract_index = 3;
}

abbrev pub empty_changes : Changes sample_sdk
empty_changes = record { contracts = []; accounts = [] }

abbrev pub sample_handler : Handler sample_sdk
sample_handler = record {
  reserved_amount = 1000;
  invoker = 20;
  changeset = empty_changes ∷ [];
  remaining_energy = 500;
  module_load_energy = 0;
  energy_reserved = 1000;
  chain = sample_chain;
  next_contract_modification_index = 1;
}
