-- ===== src/Testing/Update/Laws.antt =====
-- The effect of `Chain::contract_update` on the chain, whatever the executed entrypoint does
-- (contract-testing/src/impls.rs).
use rust_smart_contract.Base.{
  ℕ, ◌+◌, ◌-◌, ◌≡◌, ◌≢◌, ◌⊎◌, inl, inr, refl, Bool, Option, some, List, Res, ok, err, panic, arith,
  Res-cases,
}
use rust_smart_contract.Testing.Sdk.{Sdk}
use rust_smart_contract.Testing.Types.{Chain}
use rust_smart_contract.Testing.Energy.{calculate_energy_cost, energy_to_amount}
use rust_smart_contract.Testing.Persist.Laws.{persist_err}
use rust_smart_contract.Testing.Chain.{
  Address, UpdateContractPayload, success, failure, ContractInvokeError, charge,
}
use rust_smart_contract.Testing.Update.{
  InvokeEntrypoint, Invoked, Err, Success, Response, charge_fee,
  contract_invocation_process_response, contract_invocation_worker, store_changes, settle,
  contract_update,
}

module _ (sdk : Sdk) (Trace : Type 0) (Failure : Type 0) where
  -- What may have happened to the chain after an error `e`: nothing, or the invoker has paid the
  -- fee that the error reports.
  abbrev pub OnlyCharged : ℕ → ContractInvokeError Trace Failure → Chain sdk → Chain sdk → Type 0
  OnlyCharged invoker e chain chain' =
      (chain' ≡ chain) ⊎ (charge sdk invoker e.transaction_fee chain ≡ some chain')

  charge_fee_err :
      (invoker : ℕ) (res : Res (Err sdk Trace Failure) (Success sdk Trace Failure))
      (chain chain' : Chain sdk) (e : Err sdk Trace Failure)
      → charge_fee sdk Trace Failure invoker res chain ≡ (err e, chain')
      → OnlyCharged invoker e chain chain'
  unfolding charge_fee
  charge_fee_err invoker res chain chain' e h = ground arith

  pub Response-cases :
      (r : Response sdk Trace Failure)
      → ((b : ℕ) × (d : Option (List ℕ)) × (r ≡ success b d)) ⊎ ((k : Failure) × (r ≡ failure k))
  Response-cases (success b d) = inl (b, d, refl)
  Response-cases (failure k) = inr (k, refl)

  pub calculate_energy_cost-ne-err :
      {E : Type 0} (chain : Chain sdk) (energy : ℕ) (e : E)
      → calculate_energy_cost {E = E} sdk chain.parameters energy ≢ err e
  unfolding calculate_energy_cost energy_to_amount
  calculate_energy_cost-ne-err chain energy e = ground arith

  -- A success is never turned into an error.
  pub success-ne-err :
      (chain : Chain sdk) (b : ℕ) (d : Option (List ℕ)) (t : List Trace) (er re se : ℕ) (c : Bool)
      (ml : ℕ) (e : Err sdk Trace Failure)
      → contract_invocation_process_response sdk Trace Failure chain (success b d) t er re se c ml
        ≢ err e
  unfolding contract_invocation_process_response
  success-ne-err chain b d t er re se c ml e =
      ground (arith, calculate_energy_cost-ne-err {E = Err sdk Trace Failure} chain (er - re) e)

  charge_fee-err_inv :
      (invoker : ℕ) (res : Res (Err sdk Trace Failure) (Success sdk Trace Failure))
      (chain chain' : Chain sdk) (e : Err sdk Trace Failure)
      → charge_fee sdk Trace Failure invoker res chain ≡ (err e, chain')
      → res ≡ err e
  unfolding charge_fee
  charge_fee-err_inv invoker res chain chain' e h = ground arith

  store_changes_err :
      (energy_reserved invoker : ℕ) (payload : UpdateContractPayload)
      (i : Invoked sdk Trace Failure) (remaining : ℕ) (chain chain' : Chain sdk)
      (e : Err sdk Trace Failure)
      → store_changes sdk Trace Failure energy_reserved invoker payload i remaining chain
        ≡ (err e, chain')
      → OnlyCharged invoker e chain chain'
  unfolding store_changes
  store_changes_err energy_reserved invoker payload i remaining chain chain' e h =
      elim (Response-cases i.result) [
        | inl (b, d, r) ↦ grind (arith, persist_err, charge_fee-err_inv, success-ne-err)
        | inr (k, r) ↦ charge_fee_err invoker _ chain chain' e (rw r at h)
      ]

  settle_err :
      (energy_reserved invoker : ℕ) (payload : UpdateContractPayload)
      (w : Res (Err sdk Trace Failure) (Invoked sdk Trace Failure) × ℕ) (chain chain' : Chain sdk)
      (e : Err sdk Trace Failure)
      → settle sdk Trace Failure energy_reserved invoker payload w chain ≡ (err e, chain')
      → OnlyCharged invoker e chain chain'
  unfolding settle
  settle_err energy_reserved invoker payload (ok i, remaining) chain chain' e h =
      store_changes_err energy_reserved invoker payload i remaining chain chain' e h
  settle_err energy_reserved invoker payload (err e', remaining) chain chain' e h =
      charge_fee_err invoker (err e') chain chain' e h
  settle_err energy_reserved invoker payload (panic, remaining) chain chain' e h = cc

  -- An update that fails leaves the chain as it was, except that the invoker may have paid the fee
  -- that the error reports: no change of the executed entrypoint is kept.
  pub contract_update_err :
      (invoke : InvokeEntrypoint sdk Trace Failure) (num_keys invoker : ℕ) (sender : Address)
      (energy_reserved : ℕ) (payload : UpdateContractPayload) (chain chain' : Chain sdk)
      (e : Err sdk Trace Failure)
      → contract_update sdk Trace Failure invoke num_keys invoker sender energy_reserved payload
          chain
        ≡ (err e, chain')
      → OnlyCharged invoker e chain chain'
  unfolding contract_update
  contract_update_err invoke num_keys invoker sender energy_reserved payload chain chain' e h =
      elim (Res-cases
        (calculate_energy_cost {E = Err sdk Trace Failure} sdk chain.parameters energy_reserved)) [
          | inl (c, r) ↦
              let left =
                energy_reserved
                - sdk.base_cost (sdk.transaction_header_size + 1 + payload.size) num_keys in
              let w =
                contract_invocation_worker sdk Trace Failure invoke chain invoker sender
                  energy_reserved c payload left in
              ground (arith, settle_err energy_reserved invoker payload w chain chain' e)
          | inr (inl (x, r)) ↦ absurd (calculate_energy_cost-ne-err chain energy_reserved x r)
          | inr (inr r) ↦ ground arith
        ]
