-- ===== src/Testing/Deploy/Laws.antt =====
-- What the deployment of a module does to the chain (contract-testing/src/impls.rs).
use native.Mathlib.Decide.{dec_lt}
use rust_smart_contract.Base.{
  ℕ, ◌-◌, ◌≤◌, ◌<◌, ◌≡◌, ◌≢◌, refl, sym, ap, ◌⊎◌, inl, inr, Bool, true, false, Bool-cases, none,
  some, Option-cases, Res, ok, err, panic, arith,
}
use rust_smart_contract.Base.Dict.{get?, insert, contains_key, get?-insert_self, get?-insert_ne}
use rust_smart_contract.Testing.Sdk.{Sdk}
use rust_smart_contract.Testing.Types.{Chain, Account}
use rust_smart_contract.Testing.Energy.{calculate_energy_cost}
use rust_smart_contract.Testing.Chain.{find_account, charge}
use rust_smart_contract.Testing.Deploy.{
  WasmVersion, v0, v1, WasmModule, ModuleApi, ModuleDeployError, ModuleDeploySuccess,
  invalid_module, duplicate_module, insufficient_funds, sender_does_not_exist,
  unsupported_module_version, not_charged, deploy_energy, install, deploy_v1,
  module_deploy_v1_debug,
}

version_cases : (v : WasmVersion) → (v ≡ v0) ⊎ (v ≡ v1)
version_cases v0 = inl refl
version_cases v1 = inr refl

module _ (sdk : Sdk) (api : ModuleApi) where
  -- What a deployment may have done. An error either reports no fee and changed nothing, or the
  -- fee that it reports was paid and nothing else changed. A success paid the reported fee, and
  -- stored the module, which is valid, under its reference, which was free: with the size of the
  -- module less its custom sections. No other module changed.
  abbrev pub Deployed :
      ℕ
      → ℕ
      → WasmModule
      → Bool
      → Chain sdk
      → Res ModuleDeployError ModuleDeploySuccess × Chain sdk
      → Type 0
  Deployed sender cost w debug chain (ok s, chain') =
      (paid : Chain sdk) × (custom : ℕ) × (s.transaction_fee ≡ cost)
      × (charge sdk sender cost chain ≡ some paid)
      × (contains_key s.module_reference chain.modules ≡ false)
      × (s.module_reference ≡ api.get_module_ref w)
      × (api.instantiate_with_metering debug w.source ≡ some custom)
      × (get? s.module_reference chain'.modules ≡ some (record { size = w.size - custom }))
      × ((m : ℕ) → s.module_reference ≢ m → get? m chain'.modules ≡ get? m chain.modules)
      × (chain'.accounts ≡ paid.accounts)
      × (chain'.contracts ≡ chain.contracts)
  Deployed sender cost w debug chain (err e, chain') =
      ((e.transaction_fee ≡ 0) × (chain' ≡ chain))
      ⊎ ((e.transaction_fee ≡ cost) × (charge sdk sender cost chain ≡ some chain'))
  Deployed sender cost w debug chain (panic, chain') = ⊥

  charge_covered :
      (sender fee : ℕ) (chain : Chain sdk) (a : Account sdk)
      → find_account sdk sender chain ≡ some a
      → fee ≤ sdk.available a.balance
      → (paid : Chain sdk) × (charge sdk sender fee chain ≡ some paid)
        × (paid.modules ≡ chain.modules)
        × (paid.contracts ≡ chain.contracts)
  unfolding find_account charge
  charge_covered sender fee chain a known enough =
      let paid : Chain sdk = record chain {
        accounts =
            insert (sdk.address_eq sender)
              (record a {
                balance = record (a.balance) {
                  total = sdk.amount.subtract_micro_ccd a.balance.total fee;
                };
              })
              chain.accounts;
      } in
      let covered : fee ≤ a.balance.total = omega (arith, sdk.available_lem a.balance) in
      (paid, ground (arith, known, covered), refl, refl)

  install_invalid :
      (debug : Bool) (energy cost : ℕ) (w : WasmModule) (paid : Chain sdk)
      → api.instantiate_with_metering debug w.source ≡ none
      → install sdk api debug energy cost w paid ≡ (
        err (record { energy_used = energy; transaction_fee = cost; kind = invalid_module }),
        paid,
      )
  unfolding install
  install_invalid debug energy cost w paid e = grind (arith, e)

  install_duplicate :
      (debug : Bool) (energy cost custom : ℕ) (w : WasmModule) (paid : Chain sdk)
      → api.instantiate_with_metering debug w.source ≡ some custom
      → contains_key (api.get_module_ref w) paid.modules ≡ true
      → install sdk api debug energy cost w paid ≡ (
        err (record {
          energy_used = energy;
          transaction_fee = cost;
          kind = duplicate_module (api.get_module_ref w);
        }),
        paid,
      )
  unfolding install
  install_duplicate debug energy cost custom w paid e k = grind (arith, e, k)

  install_new :
      (debug : Bool) (energy cost custom : ℕ) (w : WasmModule) (paid : Chain sdk)
      → api.instantiate_with_metering debug w.source ≡ some custom
      → contains_key (api.get_module_ref w) paid.modules ≡ false
      → install sdk api debug energy cost w paid ≡ (
        ok (record {
          module_reference = api.get_module_ref w;
          energy_used = energy;
          transaction_fee = cost;
        }),
        record paid {
          modules = insert (api.get_module_ref w) (record { size = w.size - custom }) paid.modules;
        },
      )
  unfolding install
  install_new debug energy cost custom w paid e k = grind (arith, e, k)

  install-Deployed :
      (sender cost energy : ℕ) (w : WasmModule) (debug : Bool) (chain paid : Chain sdk)
      → charge sdk sender cost chain ≡ some paid
      → paid.modules ≡ chain.modules
      → paid.contracts ≡ chain.contracts
      → Deployed sender cost w debug chain (install sdk api debug energy cost w paid)
  install-Deployed sender cost energy w debug chain paid charged modules contracts =
      let r = api.get_module_ref w in
      elim (Option-cases (api.instantiate_with_metering debug w.source)) [
        | inl invalid ↦ rw (install_invalid debug energy cost w paid invalid) (inr (refl, charged))
        | inr (custom, valid) ↦ elim (Bool-cases (contains_key r paid.modules)) [
          | inl known ↦
              rw (install_duplicate debug energy cost custom w paid valid known)
                (inr (refl, charged))
          | inr free ↦ rw (install_new debug energy cost custom w paid valid free) (
            paid,
            custom,
            refl,
            charged,
            rw (sym modules) free,
            refl,
            valid,
            get?-insert_self r _ paid.modules,
            λ m other. rw (get?-insert_ne r m _ paid.modules other) (ap (get? m) modules),
            refl,
            contracts,
          )
        ]
      ]

  deploy_v1_short :
      (num_keys sender cost : ℕ) (a : Account sdk) (w : WasmModule) (debug : Bool)
      (chain : Chain sdk)
      → calculate_energy_cost {E = ⊥} sdk chain.parameters (deploy_energy sdk api num_keys w)
        ≡ ok cost
      → sdk.available a.balance < cost
      → deploy_v1 sdk api num_keys sender a w debug chain
        ≡ (err (not_charged insufficient_funds), chain)
  unfolding deploy_v1
  deploy_v1_short num_keys sender cost a w debug chain price short = grind (arith, price)

  deploy_v1_paid :
      (num_keys sender cost : ℕ) (a : Account sdk) (w : WasmModule) (debug : Bool)
      (chain paid : Chain sdk)
      → calculate_energy_cost {E = ⊥} sdk chain.parameters (deploy_energy sdk api num_keys w)
        ≡ ok cost
      → cost ≤ sdk.available a.balance
      → charge sdk sender cost chain ≡ some paid
      → deploy_v1 sdk api num_keys sender a w debug chain
        ≡ install sdk api debug (deploy_energy sdk api num_keys w) cost w paid
  unfolding deploy_v1
  deploy_v1_paid num_keys sender cost a w debug chain paid price enough charged =
      grind (arith, price, charged)

  deploy_v1-Deployed :
      (num_keys sender cost : ℕ) (a : Account sdk) (w : WasmModule) (debug : Bool)
      (chain : Chain sdk)
      → find_account sdk sender chain ≡ some a
      → calculate_energy_cost {E = ⊥} sdk chain.parameters (deploy_energy sdk api num_keys w)
        ≡ ok cost
      → Deployed sender cost w debug chain (deploy_v1 sdk api num_keys sender a w debug chain)
  deploy_v1-Deployed num_keys sender cost a w debug chain known price =
      elim (dec_lt (sdk.available a.balance) cost) [
        | yes short ↦
            rw (deploy_v1_short num_keys sender cost a w debug chain price short) (inl (refl, refl))
        | no enough ↦
            let (paid, charged, modules, contracts) =
              charge_covered sender cost chain a known (omega arith) in
            rw
              (deploy_v1_paid num_keys sender cost a w debug chain paid price (omega arith) charged)
              (install-Deployed sender cost (deploy_energy sdk api num_keys w) w debug chain paid
                charged modules contracts)
      ]

  no_sender :
      (num_keys sender : ℕ) (w : WasmModule) (debug : Bool) (chain : Chain sdk)
      → find_account sdk sender chain ≡ none
      → module_deploy_v1_debug sdk api num_keys sender w debug chain
        ≡ (err (not_charged (sender_does_not_exist sender)), chain)
  unfolding module_deploy_v1_debug
  no_sender num_keys sender w debug chain e = grind (arith, e)

  for_sender :
      (num_keys sender : ℕ) (a : Account sdk) (w : WasmModule) (debug : Bool) (chain : Chain sdk)
      (version : WasmVersion)
      → find_account sdk sender chain ≡ some a
      → w.version ≡ version
      → module_deploy_v1_debug sdk api num_keys sender w debug chain ≡ elim version [
        | v0 ↦ (err (not_charged (unsupported_module_version v0)), chain)
        | v1 ↦ deploy_v1 sdk api num_keys sender a w debug chain
      ]
  unfolding module_deploy_v1_debug
  for_sender num_keys sender a w debug chain v0 e v = grind (arith, e, v)
  for_sender num_keys sender a w debug chain v1 e v = grind (arith, e, v)

  -- If the cost of its energy can be computed, a deployment returns: either with an error that
  -- reports no fee and leaves the chain as it was, or with an error whose reported fee, the cost
  -- of the energy, was paid and nothing else changed, or with a success: the fee was paid, the
  -- module could be instantiated, is stored with its size less that of its custom sections under
  -- its reference, which was free before, and no other module or contract changed.
  pub module_deploy-Deployed :
      (num_keys sender cost : ℕ) (w : WasmModule) (debug : Bool) (chain : Chain sdk)
      → calculate_energy_cost {E = ⊥} sdk chain.parameters (deploy_energy sdk api num_keys w)
        ≡ ok cost
      → Deployed sender cost w debug chain
          (module_deploy_v1_debug sdk api num_keys sender w debug chain)
  module_deploy-Deployed num_keys sender cost w debug chain price =
      elim (Option-cases (find_account sdk sender chain)) [
        | inl e ↦ rw (no_sender num_keys sender w debug chain e) (inl (refl, refl))
        | inr (a, e) ↦ elim (version_cases w.version) [
          | inl v ↦ rw (for_sender num_keys sender a w debug chain v0 e v) (inl (refl, refl))
          | inr v ↦
              rw (for_sender num_keys sender a w debug chain v1 e v)
                (deploy_v1-Deployed num_keys sender cost a w debug chain e price)
        ]
      ]
