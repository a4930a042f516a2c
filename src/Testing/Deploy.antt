-- ===== src/Testing/Deploy.antt =====
-- The deployment of a module: `Chain::module_deploy_v1_debug` (contract-testing/src/impls.rs).
-- The validation of Wasm, the reference of a module and the cost of its bytes are parameters.
pub mod Laws
use rust_smart_contract.Base.{
  ℕ, ◌+◌, ◌-◌, Bool, true, Option, none, some, List, ltb, if◌then◌else◌, Res, ok, err, panic,
}
use rust_smart_contract.Base.Dict.{insert, contains_key}
use rust_smart_contract.Testing.Sdk.{Sdk}
use rust_smart_contract.Testing.Types.{Chain, Account, ContractModule}
use rust_smart_contract.Testing.Energy.{calculate_energy_cost}
use rust_smart_contract.Testing.Chain.{find_account, charge}

pub data WasmVersion : Type 0 where
  v0 : WasmVersion
  v1 : WasmVersion

-- `WasmModule` of the SDK, with the value of `source.size()`.
pub record WasmModule : Type 0 where
  pub version : WasmVersion
  pub source : List ℕ
  pub size : ℕ

-- `cost::deploy_module`, `WasmModule::get_module_ref`, and `instantiate_with_metering` with the
-- flag `enable_debug`, which gives the size of the custom sections of the artifact or fails.
pub record ModuleApi : Type 0 where
  pub deploy_module : ℕ → ℕ
  pub get_module_ref : WasmModule → ℕ
  pub instantiate_with_metering : Bool → List ℕ → Option ℕ

pub data ModuleDeployErrorKind : Type 0 where
  invalid_module : ModuleDeployErrorKind
  insufficient_funds : ModuleDeployErrorKind
  sender_does_not_exist : ℕ → ModuleDeployErrorKind
  duplicate_module : ℕ → ModuleDeployErrorKind
  unsupported_module_version : WasmVersion → ModuleDeployErrorKind

pub record ModuleDeployError : Type 0 where
  pub energy_used : ℕ
  pub transaction_fee : ℕ
  pub kind : ModuleDeployErrorKind

pub record ModuleDeploySuccess : Type 0 where
  pub module_reference : ℕ
  pub energy_used : ℕ
  pub transaction_fee : ℕ

abbrev pub not_charged : ModuleDeployErrorKind → ModuleDeployError
not_charged kind = record { energy_used = 0; transaction_fee = 0; kind = kind }

module _ (sdk : Sdk) (api : ModuleApi) where
  open sdk use {base_cost, transaction_header_size, available}
  open api use {deploy_module, get_module_ref, instantiate_with_metering}

  -- The energy of a deployment: the header and the bytes of the module.
  abbrev pub deploy_energy : ℕ → WasmModule → ℕ
  deploy_energy num_keys wasm_module =
      base_cost (1 + 8 + wasm_module.size + transaction_header_size) num_keys
      + deploy_module wasm_module.size

  -- What follows the charge: the artifact is built and stored under a new reference.
  unfoldable pub install :
      Bool → ℕ → ℕ → WasmModule → Chain sdk → Res ModuleDeployError ModuleDeploySuccess × Chain sdk
  install enable_debug energy_used transaction_fee wasm_module chain =
      let failed : ModuleDeployErrorKind → ModuleDeployError = λ kind. record {
        energy_used = energy_used;
        transaction_fee = transaction_fee;
        kind = kind;
      } in
      let module_reference = get_module_ref wasm_module in
      elim (instantiate_with_metering enable_debug wasm_module.source) [
        | none ↦ (err (failed invalid_module), chain)
        | some custom_sections_size ↦
            if contains_key module_reference chain.modules
            then (err (failed (duplicate_module module_reference)), chain)
            else (
              ok (record {
                module_reference = module_reference;
                energy_used = energy_used;
                transaction_fee = transaction_fee;
              }),
              record chain {
                modules =
                    insert module_reference
                      (record { size = wasm_module.size - custom_sections_size }) chain.modules;
              },
            )
      ]

  -- The part for a V1 module of an account that exists.
  unfoldable pub deploy_v1 :
      ℕ
      → ℕ
      → Account sdk
      → WasmModule
      → Bool
      → Chain sdk
      → Res ModuleDeployError ModuleDeploySuccess × Chain sdk
  deploy_v1 num_keys sender sender_account wasm_module enable_debug chain =
      let energy_used = deploy_energy num_keys wasm_module in
      elim (calculate_energy_cost {E = ⊥} sdk chain.parameters energy_used) [
        | ok transaction_fee ↦
            if ltb (available sender_account.balance) transaction_fee
            then (err (not_charged insufficient_funds), chain)
            else elim (charge sdk sender transaction_fee chain) [
              | some chain' ↦ install enable_debug energy_used transaction_fee wasm_module chain'
              | none ↦ (panic, chain)
            ]
        | err _ ↦ (panic, chain)
        | panic ↦ (panic, chain)
      ]

  -- `module_deploy_v1_debug`
  unfoldable pub module_deploy_v1_debug :
      ℕ → ℕ → WasmModule → Bool → Chain sdk → Res ModuleDeployError ModuleDeploySuccess × Chain sdk
  module_deploy_v1_debug num_keys sender wasm_module enable_debug chain =
      elim (find_account sdk sender chain) [
        | none ↦ (err (not_charged (sender_does_not_exist sender)), chain)
        | some sender_account ↦ elim wasm_module.version [
          | v0 ↦ (err (not_charged (unsupported_module_version v0)), chain)
          | v1 ↦ deploy_v1 num_keys sender sender_account wasm_module enable_debug chain
        ]
      ]
