-- ===== src/Testing/Samples/Persisting.antt =====
-- Persisting, fees and contract updates on the sample chain (contract-testing).
use rust_smart_contract.Base.{
  ℕ, ◌+◌, ◌-◌, ◌*◌, ◌≤◌, ◌<◌, ◌≡◌, refl, true, none, some, [], ◌∷◌, arith, ok, err,
}
use rust_smart_contract.Base.Dict.{get?, insert, contains_key}
use rust_smart_contract.Testing.Delta
use rust_smart_contract.Testing.Delta.{positive, negative}
use rust_smart_contract.Testing.Types.{Changes, Chain, ExchangeRate}
use rust_smart_contract.Testing.Energy.{
  energy_to_amount, check_exchange_rates, calculate_energy_cost,
}
use rust_smart_contract.Testing.Energy.Laws.{
  energy_to_amount_checked, energy_to_amount_mono, num, den,
}
use rust_smart_contract.Testing.Persist.{
  Persisted, persist, freeze_states, state_changed, insufficient_energy, collect_energy_for_state,
}
use rust_smart_contract.Testing.Persist.Contracts.{updated}
use rust_smart_contract.Testing.Persist.Laws.{persist_writes, persist_insufficient, updated_account}
use rust_smart_contract.Testing.Chain.{
  account, UpdateContractPayload, ContractInvokeErrorKind, ContractInvokeError,
  ContractInvokeSuccess, success, failure, find_account, contract_exists, address_exists, charge,
  convert_to_invoke_error,
}
use rust_smart_contract.Testing.Update.{
  InvokeEntrypoint, contract_update, contract_invocation_worker, settle, store_changes, charge_fee,
  contract_invocation_process_response,
}
use rust_smart_contract.Testing.Update.Laws.{OnlyCharged, contract_update_err}
use rust_smart_contract.Testing.Update.Fees.{contract_update_uncharged}
use rust_smart_contract.Testing.Samples.{
  sample_sdk, sample_chain, sample_contract, sample_account, sample_handler,
}

abbrev one : ExchangeRate
one = record { numerator = 1; denominator = 1 }

rates_pass : check_exchange_rates one one ≡ ok tt
unfolding check_exchange_rates
rates_pass = refl

cost_example :
    (cost : ℕ) × (energy_to_amount {E = ⊥} sample_sdk 300 one one ≡ ok cost)
    × (num sample_sdk one one * 300 ≤ cost * den sample_sdk one one)
    × (cost * den sample_sdk one one < num sample_sdk one one * 300 + den sample_sdk one one)
cost_example = energy_to_amount_checked sample_sdk one one {E = ⊥} 300 rates_pass (omega arith)

cost_mono_example : 7 ≤ 9
unfolding energy_to_amount
cost_mono_example = energy_to_amount_mono sample_sdk one one {E = ⊥} 7 9 7 9 (omega arith) refl refl

-- Contract 1 has received 5, and its state is now 9.
abbrev some_changes : Changes sample_sdk
some_changes = record {
  contracts =
      (
        1,
        record {
          modification_index = 1;
          self_balance_delta = positive 5;
          self_balance_original = 50;
          state = some 9;
          new_module = none;
        },
      )
      ∷ [];
  accounts = (5, record { original_balance = 70; balance_delta = negative 5 }) ∷ [];
}

abbrev before : ℕ → Persisted sample_sdk
before energy = record {
  remaining_energy = energy;
  accounts = sample_chain.accounts;
  contracts = sample_chain.contracts;
}

persist_writes_example :
    let (r, p') = persist sample_sdk (some_changes ∷ []) 1 (before 100) in
    (r ≡ ok (state_changed sample_sdk 1 some_changes.contracts))
    × (p'.remaining_energy ≡ 100 - (freeze_states sample_sdk some_changes.contracts).1)
    × ((a : ℕ)
        → get? a p'.contracts
          ≡ updated sample_sdk (get? a some_changes.contracts) (get? a sample_chain.contracts))
    × ((a : ℕ)
        → get? a p'.accounts
          ≡ updated_account sample_sdk
              (get? a some_changes.accounts)
              (get? a sample_chain.accounts))
unfolding get? freeze_states
persist_writes_example =
    persist_writes sample_sdk (some_changes ∷ []) 1 (before 100) some_changes refl
      ((sample_contract 1 50, refl, refl), omega arith, refl, tt)
      ((sample_account 10 100 30, refl, omega arith), refl, tt) (omega arith)

persist_insufficient_example :
    let (r, p') = persist sample_sdk (some_changes ∷ []) 1 (before 8) in
    (r ≡ err insufficient_energy)
    × (p'.contracts ≡ sample_chain.contracts)
    × (p'.accounts ≡ sample_chain.accounts)
    × (collect_energy_for_state sample_sdk (some_changes ∷ []) 1 8
        ≡ (err insufficient_energy, p'.remaining_energy))
unfolding freeze_states
persist_insufficient_example =
    persist_insufficient sample_sdk (some_changes ∷ []) 1 (before 8) some_changes refl (omega arith)

abbrev Trace : Type 0
Trace = ℕ

abbrev payload : UpdateContractPayload
payload = record { amount = 0; address = 1; receive_name = []; message = []; size = 40 }

-- An entrypoint that succeeds with the changes above and leaves `left` energy, and one that fails.
abbrev succeeds : ℕ → InvokeEntrypoint sample_sdk Trace ℕ
succeeds left invoker sender p h =
    (ok (success 55 none, []), record h { changeset = some_changes ∷ []; remaining_energy = left })

abbrev fails : InvokeEntrypoint sample_sdk Trace ℕ
fails invoker sender p h = (ok (failure 3, []), record h { remaining_energy = 100 })

abbrev run : InvokeEntrypoint sample_sdk Trace ℕ → Chain sample_sdk
run invoke =
    (contract_update sample_sdk Trace ℕ invoke 1 20 (account 20) 1000 payload sample_chain).1

abbrev paid : ℕ → Chain sample_sdk → Chain sample_sdk
paid fee c = record c {
  accounts = (5, sample_account 10 100 30) ∷ (10, sample_account 20 (9000 - fee) 0) ∷ [];
}

abbrev failure_error : ContractInvokeError Trace ℕ
failure_error = record {
  energy_used = 900;
  module_load_energy = 0;
  transaction_fee = 900;
  trace_elements = [];
  kind = ContractInvokeErrorKind.execution_error 3;
}

failed_run :
    contract_update sample_sdk Trace ℕ fails 1 20 (account 20) 1000 payload sample_chain
    ≡ (err failure_error, paid 900 sample_chain)
unfolding contract_update contract_invocation_worker settle store_changes charge_fee
    contract_invocation_process_response convert_to_invoke_error charge find_account contract_exists
    address_exists get? contains_key calculate_energy_cost energy_to_amount insert
failed_run = refl

update_err_example :
    OnlyCharged sample_sdk Trace ℕ 20 failure_error sample_chain (paid 900 sample_chain)
update_err_example =
    contract_update_err sample_sdk Trace ℕ fails 1 20 (account 20) 1000 payload sample_chain
      (paid 900 sample_chain) failure_error failed_run

reserved_cost : calculate_energy_cost {E = ⊥} sample_sdk sample_chain.parameters 1000 ≡ ok 1000
unfolding calculate_energy_cost energy_to_amount
reserved_cost = refl

abbrev SenderKnown : Type 0
SenderKnown = address_exists sample_sdk (account 20) sample_chain ≡ true

uncharged_example :
    contract_update sample_sdk Trace ℕ (succeeds 8) 1 20 (account 20) 1000 payload sample_chain ≡ (
      err (record {
        energy_used = 1000;
        module_load_energy = 0;
        transaction_fee = 1000;
        trace_elements = [];
        kind = ContractInvokeErrorKind.out_of_energy;
      }),
      sample_chain,
    )
unfolding address_exists contains_key get? find_account contract_exists freeze_states
uncharged_example =
    contract_update_uncharged sample_sdk Trace ℕ (succeeds 8) 1 20 (account 20) 1000 payload
      sample_chain (sample_account 20 9000 0) 1000 55 none []
      (record sample_handler { changeset = some_changes ∷ []; remaining_energy = 8 }) some_changes
      refl refl refl (omega arith) reserved_cost (omega arith) (omega arith) (omega arith) refl refl
      (omega arith)

abbrev updated_chain : Chain sample_sdk
updated_chain = record sample_chain {
  accounts = (5, sample_account 10 95 30) ∷ (10, sample_account 20 (9000 - 909) 0) ∷ [];
  contracts = (1, record (sample_contract 1 55) { state = 9 }) ∷ (2, sample_contract 2 7) ∷ [];
}

abbrev update_result : ContractInvokeSuccess Trace ℕ
update_result = record {
  trace_elements = [];
  energy_used = 909;
  storage_energy = 9;
  module_load_energy = 0;
  transaction_fee = 909;
  return_value = [];
  state_changed = true;
  new_balance = 55;
}
