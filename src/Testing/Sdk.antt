-- ===== src/Testing/Sdk.antt =====
-- What contract-testing uses of the Concordium SDK, whose sources are not in this repository:
-- the parameters of the model, with the documented behaviour that the code relies on.
use rust_smart_contract.Base.{
  ℕ, ◌+◌, ◌-◌, ◌*◌, ◌^◌, ◌≤◌, ◌<◌, ◌≡◌, Bool, true, false, Option, none, some, if◌then◌else◌, ltb,
  leb, max,
}

-- The values of a `u64`.
abbrev pub u64_mod : ℕ
u64_mod = 2 ^ 64

-- `Amount`, a wrapper of `micro_ccd : u64`, is written as that number.
pub record AmountApi : Type 0 where
  -- `Amount::add_micro_ccd`, `Amount::subtract_micro_ccd`, and `+` and `-` on amounts.
  pub add_micro_ccd : ℕ → ℕ → ℕ
  pub subtract_micro_ccd : ℕ → ℕ → ℕ
  pub checked_add : ℕ → ℕ → Option ℕ
  pub checked_sub : ℕ → ℕ → Option ℕ
  pub add_micro_ccd_lem : (a b : ℕ) → a + b < u64_mod → add_micro_ccd a b ≡ a + b
  pub subtract_micro_ccd_lem : (a b : ℕ) → b ≤ a → subtract_micro_ccd a b ≡ a - b
  pub checked_add_lem :
      (a b : ℕ) → checked_add a b ≡ (if ltb (a + b) u64_mod then some (a + b) else none)
  pub checked_sub_lem : (a b : ℕ) → checked_sub a b ≡ (if leb b a then some (a - b) else none)

-- `AccountBalance` of contracts-common.
pub record AccountBalance : Type 0 where
  pub total : ℕ
  pub staked : ℕ
  pub locked : ℕ

-- Account addresses, contract addresses and module references are only compared: they are
-- written as numbers.
pub record Sdk : Type 1 where
  pub amount : AmountApi
  -- `trie::PersistentState`, `trie::MutableState`, `OwnedContractName`, `OwnedPolicy`,
  -- `AccountAccessStructure`
  pub PersistentState : Type 0
  pub MutableState : Type 0
  pub ContractName : Type 0
  pub Policy : Type 0
  pub Keys : Type 0
  -- `PersistentState::thaw`, and `MutableState::freeze` with the bytes that the collector counts.
  pub thaw : PersistentState → MutableState
  pub freeze : MutableState → PersistentState × ℕ
  -- `AccountAddressEq::from`: the class of an address under aliases.
  pub address_eq : ℕ → ℕ
  -- `AccountBalance::available`
  pub available : AccountBalance → ℕ
  pub available_lem : (b : AccountBalance) → available b ≡ b.total - max b.staked b.locked
  -- `Energy::tick_energy`: whether the energy sufficed, and what is left.
  pub tick_energy : ℕ → ℕ → Bool × ℕ
  pub tick_energy_enough : (e a : ℕ) → a ≤ e → tick_energy e a ≡ (true, e - a)
  pub tick_energy_insufficient :
      (e a : ℕ) → e < a → ((tick_energy e a).0 ≡ false) × ((tick_energy e a).1 ≤ e)
  -- `div_ceil` on `BigUint`, which is written as ℕ.
  pub div_ceil : ℕ → ℕ → ℕ
  pub div_ceil_lem : (n d : ℕ) → 0 < d → (n ≤ div_ceil n d * d) × (div_ceil n d * d < n + d)
  -- The cost of checking a transaction's header: its size and the number of keys.
  pub base_cost : ℕ → ℕ → ℕ
  pub transaction_header_size : ℕ
  pub max_parameter_len : ℕ
