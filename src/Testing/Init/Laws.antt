-- ===== src/Testing/Init/Laws.antt =====
-- What the initialization of a contract does to the chain (contract-testing/src/impls.rs).
use rust_smart_contract.Base.{
  ℕ, ◌≡◌, ◌≢◌, refl, inl, inr, Option-cases, ok, err, panic, Res-cases, ◌>>=◌, arith,
}
use rust_smart_contract.Testing.Sdk.{Sdk}
use rust_smart_contract.Testing.Types.{Chain}
use rust_smart_contract.Testing.Chain.{sub_energy}
use rust_smart_contract.Testing.Energy.{calculate_energy_cost, energy_to_amount}
use rust_smart_contract.Testing.Init.{
  InitContractPayload, Engine, ContractInitErrorKind, ContractInitSuccess, InitResult, success,
  reject, trap, ran_out, invalid_return_code, create_contract_address, save_contract,
  charge_success, finish_success, failed, handle_result, prepare_init, Metered,
  contract_init_worker,
}

module _ (sdk : Sdk) (Logs : Type 0) (Failure : Type 0) where
  -- The parts of the chain that no error changes.
  pub record Kept (chain chain' : Chain sdk) : Type 0 where
    pub accounts : chain'.accounts ≡ chain.accounts
    pub contracts : chain'.contracts ≡ chain.contracts
    pub modules : chain'.modules ≡ chain.modules
    pub parameters : chain'.parameters ≡ chain.parameters

  pub Kept-refl : (chain : Chain sdk) → Kept chain chain
  Kept-refl chain = record { accounts = refl; contracts = refl; modules = refl; parameters = refl }

  -- Computing a fee gives no error.
  priced-ne-err :
      {A : Type 0} (chain : Chain sdk) (a b : ℕ) (f : ℕ → ℕ → A)
      (e : ContractInitErrorKind sdk Logs Failure)
      → (sub_energy a b >>= λ used.
          calculate_energy_cost sdk chain.parameters used >>= λ fee. ok (f used fee))
        ≢ err e
  unfolding calculate_energy_cost energy_to_amount
  priced-ne-err chain a b f e h = absurd (grind arith)

  finish_success_err :
      (sender : ℕ) (payload : InitContractPayload sdk Logs Failure) (energy_reserved : ℕ)
      (logs : Logs) (used : ℕ) (state : sdk.MutableState) (chain chain' : Chain sdk)
      (remaining left : ℕ) (e : ContractInitErrorKind sdk Logs Failure)
      → finish_success sdk Logs Failure sender payload energy_reserved logs used state chain
          remaining
        ≡ (err e, (chain', left))
      → Kept chain chain'
  unfolding finish_success create_contract_address
  finish_success_err sender payload energy_reserved logs used state chain chain' remaining left e
        h =
      let (charged, rest) = charge_success sdk Logs Failure used state remaining in
      elim (Res-cases charged) [
        | inl (u, c) ↦
            elim (Option-cases (
              save_contract sdk Logs Failure sender payload
                (create_contract_address sdk Logs Failure chain).0 state
                (create_contract_address sdk Logs Failure chain).1)) [
                  | inl n ↦ absurd (grind (arith, c, n))
                  | inr (chain'', y) ↦
                      let made : ℕ → ℕ → ContractInitSuccess sdk Logs Failure = λ u f. record {
                        contract_address = (create_contract_address sdk Logs Failure chain).0;
                        events = logs;
                        energy_used = u;
                        transaction_fee = f;
                      } in
                      absurd
                        (grind (arith, c, y, priced-ne-err chain'' energy_reserved rest made e))
                ]
        | inr (inl (x, c)) ↦
            let same : chain' ≡ (create_contract_address sdk Logs Failure chain).1 =
              grind (arith, c) in
            rw same
              (record { accounts = refl; contracts = refl; modules = refl; parameters = refl })
        | inr (inr c) ↦ absurd (grind (arith, c))
      ]

  failed_err :
      (m : Metered sdk Logs Failure (Unit {0})) (chain chain' : Chain sdk) (left : ℕ)
      (e : ContractInitErrorKind sdk Logs Failure)
      → failed sdk Logs Failure m chain ≡ (err e, (chain', left))
      → Kept chain chain'
  failed_err (ok _, l) chain chain' left e h = absurd (grind arith)
  failed_err (err x, l) chain chain' left e h =
      let same : chain' ≡ chain = grind arith in rw same (Kept-refl chain)
  failed_err (panic, l) chain chain' left e h = absurd (grind arith)

  handle_result_err :
      (sender : ℕ) (payload : InitContractPayload sdk Logs Failure) (energy_reserved given : ℕ)
      (result : InitResult sdk Logs Failure) (chain chain' : Chain sdk) (remaining left : ℕ)
      (e : ContractInitErrorKind sdk Logs Failure)
      → handle_result sdk Logs Failure sender payload energy_reserved given result chain remaining
        ≡ (err e, (chain', left))
      → Kept chain chain'
  unfolding handle_result
  handle_result_err sender payload energy_reserved given (success logs rest state) chain chain'
        remaining left e h =
      finish_success_err sender payload energy_reserved logs _ state chain chain' remaining left e h
  handle_result_err sender payload energy_reserved given (reject failure rest) chain chain'
        remaining left e h =
      failed_err _ chain chain' left e h
  handle_result_err sender payload energy_reserved given (trap failure rest) chain chain' remaining
        left e h =
      failed_err _ chain chain' left e h
  handle_result_err sender payload energy_reserved given ran_out chain chain' remaining left e h =
      let same : chain' ≡ chain = grind arith in rw same (Kept-refl chain)
  handle_result_err sender payload energy_reserved given (invalid_return_code failure) chain chain'
        remaining left e h =
      let same : chain' ≡ chain = grind arith in rw same (Kept-refl chain)

  pub contract_init_worker_err :
      (engine : Engine sdk Logs Failure) (num_keys sender energy_reserved : ℕ)
      (payload : InitContractPayload sdk Logs Failure) (chain chain' : Chain sdk)
      (remaining left : ℕ) (e : ContractInitErrorKind sdk Logs Failure)
      → contract_init_worker sdk Logs Failure engine num_keys sender energy_reserved payload chain
          remaining
        ≡ (err e, (chain', left))
      → Kept chain chain'
  unfolding contract_init_worker
  contract_init_worker_err engine num_keys sender energy_reserved payload chain chain' remaining
        left e h =
      let (prepared, l) =
        prepare_init sdk Logs Failure engine num_keys sender energy_reserved payload chain
          remaining in
      elim (Res-cases prepared) [
        | inl (given, p) ↦
            handle_result_err sender payload energy_reserved given
              (engine.invoke_init sender chain.parameters.block_time payload given) chain chain' l
              left e (grind (arith, p))
        | inr (inl (x, p)) ↦
            let same : chain' ≡ chain = grind (arith, p) in rw same (Kept-refl chain)
        | inr (inr p) ↦ absurd (grind (arith, p))
      ]
