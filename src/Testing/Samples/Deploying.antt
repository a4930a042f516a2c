-- ===== src/Testing/Samples/Deploying.antt =====
-- Examples of the deployment of modules (contract-testing/src/impls.rs).
use rust_smart_contract.Base.{◌≡◌, refl, true, [], ◌∷◌, some, ok}
use rust_smart_contract.Testing.Energy.{calculate_energy_cost, energy_to_amount}
use rust_smart_contract.Testing.Deploy.{WasmModule, v1, ModuleApi, module_deploy_v1_debug}
use rust_smart_contract.Testing.Deploy.Laws.{Deployed, module_deploy-Deployed}
use rust_smart_contract.Testing.Samples.{sample_sdk, sample_chain}

-- A module costs its size, and artifacts have custom sections of five bytes.
abbrev sample_api : ModuleApi
sample_api = record {
  deploy_module = λ size. size;
  get_module_ref = λ w. 99;
  instantiate_with_metering = λ debug source. some 5;
}

abbrev sample_module : WasmModule
sample_module = record { version = v1; source = 0 ∷ 97 ∷ []; size = 300 }

deploy_price : calculate_energy_cost {E = ⊥} sample_sdk sample_chain.parameters 769 ≡ ok 769
unfolding calculate_energy_cost energy_to_amount
deploy_price = refl

deploy_example :
    Deployed sample_sdk sample_api 20 769 sample_module true sample_chain
      (module_deploy_v1_debug sample_sdk sample_api 1 20 sample_module true sample_chain)
deploy_example =
    module_deploy-Deployed sample_sdk sample_api 1 20 769 sample_module true sample_chain
      deploy_price
