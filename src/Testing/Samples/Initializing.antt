-- ===== src/Testing/Samples/Initializing.antt =====
-- Examples of the initialization of contracts (contract-testing/src/impls.rs).
use rust_smart_contract.Base.{ℕ, ◌-◌, ◌≡◌, refl, ◌⊎◌, true, some, [], Res, ok, err}
use rust_smart_contract.Base.Dict.{get?, insert, contains_key}
use rust_smart_contract.Testing.Types.{Chain}
use rust_smart_contract.Testing.Chain.{find_account, account_exists, charge}
use rust_smart_contract.Testing.Energy.{
  calculate_energy_cost, energy_to_amount, lookup_module_cost, to_interpreter_energy,
  from_interpreter_energy,
}
use rust_smart_contract.Testing.Init.{
  InitContractPayload, Engine, success, module_does_not_exist, ContractInitError,
  ContractInitSuccess, ticked, find_init, prepare_init, create_contract_address, save_contract,
  charge_success, finish_success, handle_result, contract_init_worker, convert_to_init_error,
  charge_init, settle_init, contract_init,
}
use rust_smart_contract.Testing.Init.Laws.{Kept}
use rust_smart_contract.Testing.Init.Outcome.{contract_init_err}
use rust_smart_contract.Testing.Init.Stored.{Stored, contract_init-Stored}
use rust_smart_contract.Testing.Samples.{sample_sdk, sample_chain}

-- Every run uses 5_000 of the interpreter energy and leaves a state of 7 bytes.
abbrev sample_engine : Engine sample_sdk ℕ ℕ
sample_engine = record {
  exports = λ m n. true;
  invoke_init = λ sender time payload energy. success 0 (energy - 5000) 7;
}

abbrev payload_of : ℕ → InitContractPayload sample_sdk ℕ ℕ
payload_of mod_ref = record { amount = 40; mod_ref = mod_ref; init_name = 0; param = []; size = 30 }

abbrev result :
    ℕ
    → Res (ContractInitError sample_sdk ℕ ℕ) (ContractInitSuccess sample_sdk ℕ ℕ) × Chain sample_sdk
result mod_ref =
    contract_init sample_sdk ℕ ℕ sample_engine 1 20 2000 (payload_of mod_ref) sample_chain

abbrev missing_error : ContractInitError sample_sdk ℕ ℕ
missing_error = record { energy_used = 491; transaction_fee = 491; kind = module_does_not_exist 99 }

missing_run : result 99 ≡ (err missing_error, (result 99).1)
unfolding contract_init contract_init_worker prepare_init find_init ticked convert_to_init_error
    charge_init settle_init charge find_account account_exists contains_key get? insert
    calculate_energy_cost energy_to_amount
missing_run = refl

init_err_example :
    ((result 99).1 ≡ sample_chain)
    ⊎ ((mid : Chain sample_sdk) × Kept sample_sdk ℕ ℕ sample_chain mid
        × (charge sample_sdk 20 491 mid ≡ some (result 99).1))
init_err_example =
    contract_init_err sample_sdk ℕ ℕ sample_engine 1 20 2000 (payload_of 99) sample_chain
      (result 99).1 missing_error missing_run

abbrev stored_success : ContractInitSuccess sample_sdk ℕ ℕ
stored_success = record {
  contract_address = 3;
  events = 0;
  energy_used = 704;
  transaction_fee = 704;
}

stored_run : result 71 ≡ (ok stored_success, (result 71).1)
unfolding contract_init contract_init_worker prepare_init find_init ticked convert_to_init_error
    charge_init settle_init charge find_account account_exists contains_key get? insert
    calculate_energy_cost energy_to_amount lookup_module_cost to_interpreter_energy
    from_interpreter_energy handle_result finish_success charge_success save_contract
    create_contract_address
stored_run = refl

init_ok_example :
    (mid : Chain sample_sdk) × Stored sample_sdk ℕ ℕ 20 (payload_of 71) 3 sample_chain mid
    × (charge sample_sdk 20 704 mid ≡ some (result 71).1)
    × ((result 71).1.contracts ≡ mid.contracts)
init_ok_example =
    contract_init-Stored sample_sdk ℕ ℕ sample_engine 1 20 2000 (payload_of 71) sample_chain
      (result 71).1 stored_success stored_run
