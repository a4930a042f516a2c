-- ===== src/Testing/Energy.antt =====
-- Energy, exchange rates and their conversions (contract-testing/src/impls.rs and
-- contract-testing/src/constants.rs).
pub mod Laws
use rust_smart_contract.Base.{
  ℕ, zero, ◌+◌, ◌-◌, ◌*◌, ◌/◌, ltb, leb, ◌==◌, if◌then◌else◌, Res, ok, err, panic, ◌>>=◌,
}
use rust_smart_contract.Testing.Sdk.{Sdk, u64_mod}
use rust_smart_contract.Testing.Types.{ExchangeRate, ChainParameters, ContractModule}

-- `ExchangeRateError` of contract-testing/src/types.rs
pub data ExchangeRateError : Type 0 where
  exchange_rate_error : ExchangeRateError

-- `to_interpreter_energy`: a product of `u64`s, which panics on overflow.
unfoldable pub to_interpreter_energy : {E : Type 0} → ℕ → Res E ℕ
to_interpreter_energy energy = if ltb (energy * 1000) u64_mod then ok (energy * 1000) else panic

-- `from_interpreter_energy`
unfoldable pub from_interpreter_energy : ℕ → ℕ
from_interpreter_energy interpreter_energy = interpreter_energy / 1000

-- `lookup_module_cost`
unfoldable pub lookup_module_cost : ContractModule → ℕ
lookup_module_cost module_ = module_.size / 500

-- `verify_ed25519_energy_cost` and `contract_instance_query_account_keys_return_cost` of
-- constants.rs; both arguments are `u32`s, so the products fit a `u64`.
unfoldable pub verify_ed25519_energy_cost : ℕ → ℕ → ℕ
verify_ed25519_energy_cost num_sigs message_len = num_sigs * (100 + message_len / 10)

unfoldable pub contract_instance_query_account_keys_return_cost : ℕ → ℕ
contract_instance_query_account_keys_return_cost num_keys = num_keys * 3

-- The ratio microCCD / NRG of both functions below.
abbrev pub rate_numerator : ExchangeRate → ExchangeRate → ℕ
rate_numerator euro_per_energy micro_ccd_per_euro =
    euro_per_energy.numerator * micro_ccd_per_euro.numerator

abbrev pub rate_denominator : ExchangeRate → ExchangeRate → ℕ
rate_denominator euro_per_energy micro_ccd_per_euro =
    euro_per_energy.denominator * micro_ccd_per_euro.denominator

-- `energy_to_amount`; a division of `BigUint` by zero panics, and so does a cost beyond a `u64`.
unfoldable pub energy_to_amount : {E : Type 0} → Sdk → ℕ → ExchangeRate → ExchangeRate → Res E ℕ
energy_to_amount sdk energy euro_per_energy micro_ccd_per_euro =
    let d = rate_denominator euro_per_energy micro_ccd_per_euro in
    let cost = sdk.div_ceil (rate_numerator euro_per_energy micro_ccd_per_euro * energy) d in
    if d == 0 then panic else if ltb cost u64_mod then ok cost else panic

-- `u64::MAX / 100_000_000_000`
abbrev pub max_allowed_micro_ccd_to_energy : ℕ
max_allowed_micro_ccd_to_energy = (u64_mod - 1) / 100_000_000_000

-- `check_exchange_rates`
unfoldable pub check_exchange_rates : ExchangeRate → ExchangeRate → Res ExchangeRateError (Unit {0})
check_exchange_rates euro_per_energy micro_ccd_per_euro =
    let d = rate_denominator euro_per_energy micro_ccd_per_euro in
    let micro_ccd_per_energy = rate_numerator euro_per_energy micro_ccd_per_euro / d in
    if d == 0
    then panic
    else if ltb micro_ccd_per_energy u64_mod
    then if ltb max_allowed_micro_ccd_to_energy micro_ccd_per_energy
      then err exchange_rate_error
      else ok tt
    else err exchange_rate_error

-- `ChainParameters::calculate_energy_cost`
unfoldable pub calculate_energy_cost : {E : Type 0} → Sdk → ChainParameters → ℕ → Res E ℕ
calculate_energy_cost sdk parameters energy =
    energy_to_amount sdk energy parameters.euro_per_energy parameters.micro_ccd_per_euro

-- `ChainParameters::new_with_time_and_rates`
unfoldable pub new_with_time_and_rates :
    ℕ → ExchangeRate → ExchangeRate → Res ExchangeRateError ChainParameters
new_with_time_and_rates block_time micro_ccd_per_euro euro_per_energy = do
  _ ← check_exchange_rates euro_per_energy micro_ccd_per_euro
  ok (record {
    block_time = block_time;
    micro_ccd_per_euro = micro_ccd_per_euro;
    euro_per_energy = euro_per_energy;
  })
