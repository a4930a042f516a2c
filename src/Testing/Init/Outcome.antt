-- ===== src/Testing/Init/Outcome.antt =====
-- The outcome of the initialization of a contract (contract-testing/src/impls.rs).
use rust_smart_contract.Base.{
  ℕ, ◌≡◌, ◌≢◌, refl, sym, ◌⊎◌, inl, inr, Bool-cases, some, Option-cases, Res, ok, err, panic,
  Res-cases, arith,
}
use rust_smart_contract.Testing.Sdk.{Sdk}
use rust_smart_contract.Testing.Types.{Chain}
use rust_smart_contract.Testing.Chain.{charge, account_exists}
use rust_smart_contract.Testing.Init.{
  InitContractPayload, Engine, ContractInitErrorKind, ContractInitError, ContractInitSuccess,
  sender_does_not_exist, contract_init_worker, convert_to_init_error, charge_init, settle_init,
  contract_init,
}
use rust_smart_contract.Testing.Init.Laws.{Kept, contract_init_worker_err}

module _ (sdk : Sdk) (Logs : Type 0) (Failure : Type 0) where
  abbrev Outcome : Type 0
  Outcome =
      Res (ContractInitErrorKind sdk Logs Failure) (ContractInitSuccess sdk Logs Failure)
      × (Chain sdk × ℕ)

  pub charge_init_inv :
      (sender fee : ℕ)
      (res res' : Res (ContractInitError sdk Logs Failure) (ContractInitSuccess sdk Logs Failure))
      (chain chain' : Chain sdk)
      → charge_init sdk Logs Failure sender res fee chain ≡ (res', chain')
      → res' ≢ panic
      → (res ≡ res') × (charge sdk sender fee chain ≡ some chain')
  unfolding charge_init
  charge_init_inv sender fee res res' chain chain' h returned =
      elim (Option-cases (charge sdk sender fee chain)) [
        | inl n ↦ absurd (returned (grind (arith, n)))
        | inr (c, y) ↦ (grind (arith, y), grind (arith, y))
      ]

  settle_init_err :
      (sender energy_reserved : ℕ) (w : Outcome) (chain chain' : Chain sdk)
      (e : ContractInitError sdk Logs Failure)
      → ((kind : ContractInitErrorKind sdk Logs Failure) (mid : Chain sdk) (left : ℕ)
          → w ≡ (err kind, (mid, left))
          → Kept sdk Logs Failure chain mid)
      → settle_init sdk Logs Failure sender energy_reserved w ≡ (err e, chain')
      → (mid : Chain sdk) × Kept sdk Logs Failure chain mid
        × (charge sdk sender e.transaction_fee mid ≡ some chain')
  unfolding settle_init
  settle_init_err sender energy_reserved (ok s, (c, left)) chain chain' e kept h =
      let (same, paid) =
        charge_init_inv sender s.transaction_fee (ok s) (err e) c chain' h (λ p. grind arith) in
      absurd (grind arith)
  settle_init_err sender energy_reserved (panic, (c, left)) chain chain' e kept h =
      absurd (grind arith)
  settle_init_err sender energy_reserved (err kind, (c, left)) chain chain' e kept h =
      elim (Res-cases (convert_to_init_error sdk Logs Failure c kind energy_reserved left)) [
        | inl (x, y) ↦
            let (same, paid) =
              charge_init_inv sender x.transaction_fee (err x) (err e) c chain' (grind (arith, y))
                (λ p. grind arith) in
            let eq : x ≡ e = grind arith in (c, kept kind c left refl, rw (sym eq) paid)
        | inr (inl (x, y)) ↦ absurd x
        | inr (inr y) ↦ absurd (grind (arith, y))
      ]

  -- An initialization that fails stores no contract: either the chain is as it was, or the sender
  -- paid the fee that the error reports, and apart from that the accounts, contracts, modules and
  -- parameters are as they were (the next contract index may have advanced).
  pub contract_init_err :
      (engine : Engine sdk Logs Failure) (num_keys sender energy_reserved : ℕ)
      (payload : InitContractPayload sdk Logs Failure) (chain chain' : Chain sdk)
      (e : ContractInitError sdk Logs Failure)
      → contract_init sdk Logs Failure engine num_keys sender energy_reserved payload chain
        ≡ (err e, chain')
      → (chain' ≡ chain)
        ⊎ ((mid : Chain sdk) × Kept sdk Logs Failure chain mid
            × (charge sdk sender e.transaction_fee mid ≡ some chain'))
  unfolding contract_init
  contract_init_err engine num_keys sender energy_reserved payload chain chain' e h =
      let w =
        contract_init_worker sdk Logs Failure engine num_keys sender energy_reserved payload chain
          energy_reserved in
      elim (Bool-cases (account_exists sdk sender chain)) [
        | inl known ↦ inr (
            settle_init_err sender energy_reserved w chain chain' e
              (λ kind mid left eq.
                contract_init_worker_err sdk Logs Failure engine num_keys sender energy_reserved
                  payload chain mid energy_reserved left kind eq)
              (grind (arith, known)))
        | inr unknown ↦
            elim (Res-cases (
              convert_to_init_error sdk Logs Failure chain (sender_does_not_exist sender)
                energy_reserved energy_reserved)) [
                  | inl (x, y) ↦ inl (grind (arith, unknown, y))
                  | inr (inl (x, y)) ↦ absurd x
                  | inr (inr y) ↦ absurd (grind (arith, unknown, y))
                ]
      ]
