-- ===== src/Testing/Init/Stored.antt =====
-- The contract that an initialization stores (contract-testing/src/impls.rs).
use rust_smart_contract.Base.{
  ℕ, ◌+◌, ◌%◌, ◌≡◌, ◌≢◌, refl, sym, ap, ◌∙◌, inl, inr, Bool-cases, some, Res, ok, err, panic,
  Res-cases, arith,
}
use rust_smart_contract.Base.Dict.{get?, insert, get?-insert_self, get?-insert_ne}
use rust_smart_contract.Testing.Sdk.{Sdk, u64_mod}
use rust_smart_contract.Testing.Types.{Chain, Contract}
use rust_smart_contract.Testing.Chain.{charge, account_exists}
use rust_smart_contract.Testing.Init.{
  InitContractPayload, Engine, ContractInitErrorKind, ContractInitSuccess, InitResult, success,
  reject, trap, ran_out, invalid_return_code, Metered, sender_does_not_exist,
  create_contract_address, save_contract, charge_success, finish_success, failed, handle_result,
  prepare_init, contract_init_worker, convert_to_init_error, settle_init, contract_init,
}
use rust_smart_contract.Testing.Init.Outcome.{charge_init_inv}

module _ (sdk : Sdk) (Logs : Type 0) (Failure : Type 0) where
  -- What a payment leaves.
  charge_keeps :
      (a n : ℕ) (chain chain' : Chain sdk)
      → charge sdk a n chain ≡ some chain'
      → (chain'.contracts ≡ chain.contracts)
        × (chain'.modules ≡ chain.modules)
        × (chain'.next_contract_index ≡ chain.next_contract_index)
  unfolding charge
  charge_keeps a n chain chain' h = (grind arith, grind arith, grind arith)

  -- A chain on which a contract is stored at the next address, and no other contract changed. The
  -- amount was taken from the sender, and no account changed otherwise: `funded` has the accounts
  -- of the chain before.
  pub record Stored (sender : ℕ) (payload : InitContractPayload sdk Logs Failure) (address : ℕ)
      (chain chain' : Chain sdk) : Type 0 where
    pub contract : Contract sdk
    pub here : address ≡ chain.next_contract_index
    pub stored : get? address chain'.contracts ≡ some contract
    pub balance : contract.self_balance ≡ payload.amount
    pub owner : contract.owner ≡ sender
    pub module_reference : contract.module_reference ≡ payload.mod_ref
    pub others : (b : ℕ) → address ≢ b → get? b chain'.contracts ≡ get? b chain.contracts
    pub funded : Chain sdk
    pub funded_accounts : funded.accounts ≡ chain.accounts
    pub taken : charge sdk sender payload.amount funded ≡ some chain'
    pub modules : chain'.modules ≡ chain.modules
    pub next : chain'.next_contract_index ≡ (chain.next_contract_index + 1) % u64_mod

  save_contract-Stored :
      (sender : ℕ) (payload : InitContractPayload sdk Logs Failure) (state : sdk.MutableState)
      (chain mid : Chain sdk)
      → save_contract sdk Logs Failure sender payload chain.next_contract_index state
          (create_contract_address sdk Logs Failure chain).1
        ≡ some mid
      → Stored sender payload chain.next_contract_index chain mid
  unfolding save_contract create_contract_address
  save_contract-Stored sender payload state chain mid h =
      let (contracts, modules, index) = charge_keeps sender payload.amount _ mid h in
      let a = chain.next_contract_index in
      record {
        contract = record {
          module_reference = payload.mod_ref;
          contract_name = payload.init_name;
          state = (sdk.freeze state).0;
          owner = sender;
          self_balance = payload.amount;
          address = a;
        };
        here = refl;
        stored = ap (get? a) contracts ∙ get?-insert_self a _ chain.contracts;
        balance = refl;
        owner = refl;
        module_reference = refl;
        others = λ b n. ap (get? b) contracts ∙ get?-insert_ne a b _ chain.contracts n;
        funded = record ((create_contract_address sdk Logs Failure chain).1) {
          contracts =
              insert a
                (record {
                  module_reference = payload.mod_ref;
                  contract_name = payload.init_name;
                  state = (sdk.freeze state).0;
                  owner = sender;
                  self_balance = payload.amount;
                  address = a;
                })
                chain.contracts;
        };
        funded_accounts = refl;
        taken = h;
        modules = modules;
        next = index;
      }

  finish_success-Stored :
      (sender : ℕ) (payload : InitContractPayload sdk Logs Failure) (energy_reserved : ℕ)
      (logs : Logs) (used : ℕ) (state : sdk.MutableState) (chain mid : Chain sdk)
      (remaining left : ℕ) (s : ContractInitSuccess sdk Logs Failure)
      → finish_success sdk Logs Failure sender payload energy_reserved logs used state chain
          remaining
        ≡ (ok s, (mid, left))
      → Stored sender payload s.contract_address chain mid
  unfolding finish_success create_contract_address
  finish_success-Stored sender payload energy_reserved logs used state chain mid remaining left s
        h =
      let (charged, rest) = charge_success sdk Logs Failure used state remaining in
      elim (Res-cases charged) [
        | inl (u, c) ↦
            let saved : save_contract sdk Logs Failure sender payload chain.next_contract_index
                  state (create_contract_address sdk Logs Failure chain).1
                ≡ some mid =
              grind (arith, c) in
            let same : s.contract_address ≡ chain.next_contract_index = grind (arith, c) in
            rw same (save_contract-Stored sender payload state chain mid saved)
        | inr (inl (x, c)) ↦ absurd (grind (arith, c))
        | inr (inr c) ↦ absurd (grind (arith, c))
      ]

  failed-ne-ok :
      (m : Metered sdk Logs Failure (Unit {0})) (chain mid : Chain sdk) (left : ℕ)
      (s : ContractInitSuccess sdk Logs Failure)
      → failed sdk Logs Failure m chain ≢ (ok s, (mid, left))
  failed-ne-ok (ok _, l) chain mid left s h = absurd (grind arith)
  failed-ne-ok (err x, l) chain mid left s h = absurd (grind arith)
  failed-ne-ok (panic, l) chain mid left s h = absurd (grind arith)

  handle_result-Stored :
      (sender : ℕ) (payload : InitContractPayload sdk Logs Failure) (energy_reserved given : ℕ)
      (result : InitResult sdk Logs Failure) (chain mid : Chain sdk) (remaining left : ℕ)
      (s : ContractInitSuccess sdk Logs Failure)
      → handle_result sdk Logs Failure sender payload energy_reserved given result chain remaining
        ≡ (ok s, (mid, left))
      → Stored sender payload s.contract_address chain mid
  unfolding handle_result
  handle_result-Stored sender payload energy_reserved given (success logs rest state) chain mid
        remaining left s h =
      finish_success-Stored sender payload energy_reserved logs _ state chain mid remaining left s h
  handle_result-Stored sender payload energy_reserved given (reject failure rest) chain mid
        remaining left s h =
      absurd (failed-ne-ok _ chain mid left s h)
  handle_result-Stored sender payload energy_reserved given (trap failure rest) chain mid remaining
        left s h =
      absurd (failed-ne-ok _ chain mid left s h)
  handle_result-Stored sender payload energy_reserved given ran_out chain mid remaining left s h =
      absurd (grind arith)
  handle_result-Stored sender payload energy_reserved given (invalid_return_code failure) chain mid
        remaining left s h =
      absurd (grind arith)

  contract_init_worker-Stored :
      (engine : Engine sdk Logs Failure) (num_keys sender energy_reserved : ℕ)
      (payload : InitContractPayload sdk Logs Failure) (chain mid : Chain sdk) (remaining left : ℕ)
      (s : ContractInitSuccess sdk Logs Failure)
      → contract_init_worker sdk Logs Failure engine num_keys sender energy_reserved payload chain
          remaining
        ≡ (ok s, (mid, left))
      → Stored sender payload s.contract_address chain mid
  unfolding contract_init_worker
  contract_init_worker-Stored engine num_keys sender energy_reserved payload chain mid remaining
        left s h =
      let (prepared, l) =
        prepare_init sdk Logs Failure engine num_keys sender energy_reserved payload chain
          remaining in
      elim (Res-cases prepared) [
        | inl (given, p) ↦
            handle_result-Stored sender payload energy_reserved given
              (engine.invoke_init sender chain.parameters.block_time payload given) chain mid l left
              s (grind (arith, p))
        | inr (inl (x, p)) ↦ absurd (grind (arith, p))
        | inr (inr p) ↦ absurd (grind (arith, p))
      ]

  settle_init-Stored :
      (sender energy_reserved : ℕ) (payload : InitContractPayload sdk Logs Failure)
      (res : Res (ContractInitErrorKind sdk Logs Failure) (ContractInitSuccess sdk Logs Failure))
      (mid : Chain sdk) (left : ℕ) (chain chain' : Chain sdk)
      (s : ContractInitSuccess sdk Logs Failure)
      → (res ≡ ok s → Stored sender payload s.contract_address chain mid)
      → settle_init sdk Logs Failure sender energy_reserved (res, (mid, left)) ≡ (ok s, chain')
      → Stored sender payload s.contract_address chain mid
        × (charge sdk sender s.transaction_fee mid ≡ some chain')
  unfolding settle_init
  settle_init-Stored sender energy_reserved payload (ok s') mid left chain chain' s stored h =
      let (same, paid) =
        charge_init_inv sdk Logs Failure sender s'.transaction_fee (ok s') (ok s) mid chain' h
          (λ p. grind arith) in
      let eq : s' ≡ s = grind arith in (stored (ap ok eq), rw (sym eq) paid)
  settle_init-Stored sender energy_reserved payload panic mid left chain chain' s stored h =
      absurd (grind arith)
  settle_init-Stored sender energy_reserved payload (err kind) mid left chain chain' s stored h =
      elim (Res-cases (convert_to_init_error sdk Logs Failure mid kind energy_reserved left)) [
        | inl (x, y) ↦
            let (same, paid) =
              charge_init_inv sdk Logs Failure sender x.transaction_fee (err x) (ok s) mid chain'
                (grind (arith, y)) (λ p. grind arith) in
            absurd (grind arith)
        | inr (inl (x, y)) ↦ absurd x
        | inr (inr y) ↦ absurd (grind (arith, y))
      ]

  -- An initialization that succeeds stores a contract at the next free address: its owner is the
  -- sender, its balance the amount and its module the one of the payload; no other contract and no
  -- module changes, and the next address is counted up. From the accounts of before, first the
  -- amount and then the reported fee was taken from the sender, and no account changed otherwise.
  pub contract_init-Stored :
      (engine : Engine sdk Logs Failure) (num_keys sender energy_reserved : ℕ)
      (payload : InitContractPayload sdk Logs Failure) (chain chain' : Chain sdk)
      (s : ContractInitSuccess sdk Logs Failure)
      → contract_init sdk Logs Failure engine num_keys sender energy_reserved payload chain
        ≡ (ok s, chain')
      → (mid : Chain sdk) × Stored sender payload s.contract_address chain mid
        × (charge sdk sender s.transaction_fee mid ≡ some chain')
        × (chain'.contracts ≡ mid.contracts)
  unfolding contract_init
  contract_init-Stored engine num_keys sender energy_reserved payload chain chain' s h =
      elim (Bool-cases (account_exists sdk sender chain)) [
        | inl known ↦
            let w =
              contract_init_worker sdk Logs Failure engine num_keys sender energy_reserved payload
                chain energy_reserved in
            let (stored, paid) =
              settle_init-Stored sender energy_reserved payload w.0 w.1.0 w.1.1 chain chain' s
                (λ e.
                  contract_init_worker-Stored engine num_keys sender energy_reserved payload chain
                    w.1.0 energy_reserved w.1.1 s (λ i. (e i, w.1)))
                (grind (arith, known)) in
            (w.1.0, stored, paid, (charge_keeps sender s.transaction_fee w.1.0 chain' paid).0)
        | inr unknown ↦
            elim (Res-cases (
              convert_to_init_error sdk Logs Failure chain (sender_does_not_exist sender)
                energy_reserved energy_reserved)) [
                  | inl (x, y) ↦ absurd (grind (arith, unknown, y))
                  | inr (inl (x, y)) ↦ absurd x
                  | inr (inr y) ↦ absurd (grind (arith, unknown, y))
                ]
      ]
