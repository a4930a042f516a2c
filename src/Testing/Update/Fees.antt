-- ===== src/Testing/Update/Fees.antt =====
-- Fees: what a contract update costs, and who pays it
-- (contract-testing/src/impls.rs).
use rust_smart_contract.Base.{
  ℕ, ◌+◌, ◌-◌, ◌≤◌, ◌<◌, ◌≡◌, Bool, true, Option, some, List, [], length, Res, ok, err, arith,
}
use rust_smart_contract.Testing.Sdk.{Sdk}
use rust_smart_contract.Testing.Types.{Chain, Account, Changes}
use rust_smart_contract.Testing.ChangeSet.{current}
use rust_smart_contract.Testing.Energy.{calculate_energy_cost, energy_to_amount}
use rust_smart_contract.Testing.Handler.{Handler}
use rust_smart_contract.Testing.Persist.{Persisted, persist, freeze_states, InsufficientEnergy}
use rust_smart_contract.Testing.Persist.Laws.{persist_insufficient}
use rust_smart_contract.Testing.Chain.{
  Address, UpdateContractPayload, success, ContractInvokeErrorKind, find_account, contract_exists,
  address_exists, charge, convert_to_invoke_error,
}
use rust_smart_contract.Testing.Update.{
  InvokeEntrypoint, Invoked, Err, Success, start_handler, contract_invocation_worker, store_changes,
  settle, contract_update,
}

module _ (sdk : Sdk) (Trace : Type 0) (Failure : Type 0) where
  -- What is known of a success, where `worker` is what the run of the entrypoint gave: the changes
  -- of the run were persisted from the chain, with the energy that it left; the energy used is what
  -- was reserved less what is left after that; the reported fee is its cost, and was taken from the
  -- invoker on the chain `before`, which has the accounts and contracts that were persisted.
  pub record Charged (worker : Res (Err sdk Trace Failure) (Invoked sdk Trace Failure) × ℕ)
      (payload : UpdateContractPayload) (invoker energy_reserved : ℕ)
      (s : Success sdk Trace Failure) (chain chain' : Chain sdk) : Type 0 where
    pub run : Invoked sdk Trace Failure
    pub remaining : ℕ
    pub ran : worker ≡ (ok run, remaining)
    pub left : ℕ
    pub used : s.energy_used + left ≡ energy_reserved
    pub cost :
        calculate_energy_cost {E = ⊥} sdk chain.parameters s.energy_used ≡ ok s.transaction_fee
    pub before : Chain sdk
    pub persisted :
        persist sdk run.changeset payload.address (record {
          remaining_energy = remaining;
          accounts = chain.accounts;
          contracts = chain.contracts;
        })
        ≡ (
          ok s.state_changed,
          record {
            remaining_energy = left;
            accounts = before.accounts;
            contracts = before.contracts;
          },
        )
    pub paid : charge sdk invoker s.transaction_fee before ≡ some chain'
    pub modules : before.modules ≡ chain.modules
    pub parameters : before.parameters ≡ chain.parameters
    pub next_index : before.next_contract_index ≡ chain.next_contract_index

  abbrev run_persist :
      Invoked sdk Trace Failure → ℕ → ℕ → Chain sdk → Res InsufficientEnergy Bool × Persisted sdk
  run_persist i invoked remaining chain = persist sdk i.changeset invoked (record {
    remaining_energy = remaining;
    accounts = chain.accounts;
    contracts = chain.contracts;
  })

  -- The chain with the changes of an invocation written to it, before the fee is paid.
  abbrev stored : Invoked sdk Trace Failure → ℕ → ℕ → Chain sdk → Chain sdk
  stored i invoked remaining chain =
      let p =
        (persist sdk i.changeset invoked (record {
          remaining_energy = remaining;
          accounts = chain.accounts;
          contracts = chain.contracts;
        })).1 in
      record chain { accounts = p.accounts; contracts = p.contracts }

  cost_any :
      {E : Type 0} (chain : Chain sdk) (energy c : ℕ)
      → calculate_energy_cost {E = ⊥} sdk chain.parameters energy ≡ ok c
      → calculate_energy_cost {E = E} sdk chain.parameters energy ≡ ok c
  unfolding calculate_energy_cost energy_to_amount
  cost_any chain energy c h = ground arith

  -- If the entrypoint succeeds and the remaining energy does not cover the new state bytes, the
  -- update fails and reports the cost of all reserved energy as its fee, but nobody pays it: the
  -- chain is the one before the update, the balance of the invoker included.
  pub contract_update_uncharged :
      (invoke : InvokeEntrypoint sdk Trace Failure) (num_keys invoker : ℕ) (sender : Address)
      (energy_reserved : ℕ) (payload : UpdateContractPayload) (chain : Chain sdk) (a : Account sdk)
      (reserved b : ℕ) (d : Option (List ℕ)) (t : List Trace) (h : Handler sdk) (cur : Changes sdk)
      → address_exists sdk sender chain ≡ true
      → find_account sdk invoker chain ≡ some a
      → contract_exists sdk payload.address chain ≡ true
      → length payload.message ≤ sdk.max_parameter_len
      → calculate_energy_cost {E = ⊥} sdk chain.parameters energy_reserved ≡ ok reserved
      → sdk.base_cost (sdk.transaction_header_size + 1 + payload.size) num_keys ≤ energy_reserved
      → reserved ≤ sdk.available a.balance
      → sdk.amount.add_micro_ccd reserved payload.amount ≤ sdk.available a.balance
      → invoke invoker sender payload (
          start_handler sdk Trace Failure chain invoker energy_reserved reserved (
            energy_reserved
            - sdk.base_cost (sdk.transaction_header_size + 1 + payload.size) num_keys))
        ≡ (ok (success b d, t), h)
      → current sdk h.changeset ≡ some cur
      → h.remaining_energy < (freeze_states sdk cur.contracts).1
      → contract_update sdk Trace Failure invoke num_keys invoker sender energy_reserved payload
          chain
        ≡ (
          err (record {
            energy_used = energy_reserved;
            module_load_energy = h.module_load_energy;
            transaction_fee = reserved;
            trace_elements = [];
            kind = ContractInvokeErrorKind.out_of_energy;
          }),
          chain,
        )
  unfolding contract_update contract_invocation_worker store_changes convert_to_invoke_error settle
  contract_update_uncharged invoke num_keys invoker sender energy_reserved payload chain a reserved
        b d t h cur se fa ce small c hc av av' run top short =
      let stored_none =
        persist_insufficient sdk h.changeset payload.address
          (record {
            remaining_energy = h.remaining_energy;
            accounts = chain.accounts;
            contracts = chain.contracts;
          })
          cur top short in
      ground (
        arith,
        run,
        stored_none,
        cost_any {E = Err sdk Trace Failure} chain energy_reserved reserved c,
      )
