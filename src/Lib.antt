-- ===== src/Lib.antt =====
-- The smart contract libraries of Concordium: `contract-testing`, which runs contracts on a chain
-- kept in memory, and the libraries that contracts are written with.
--
-- Parts and files:
--   Base: Boolean tests on numbers, lists, results with panics, dictionaries.
--   Testing: `contract-testing/src`. A transaction runs on a `Chain` (Testing/Types). A contract
--     update (Testing/Update: `Chain::contract_update`, `contract_invoke`, the worker and the
--     processing of the response, `impls.rs`) checks its guards (Testing/Chain), reserves the cost
--     of its energy (Testing/Energy: `energy_to_amount`, `check_exchange_rates`), and runs the
--     entrypoint with an `EntrypointInvocationHandler` (Testing/Handler, Testing/States:
--     `invocation/impls.rs`). The handler writes balances as deltas (Testing/Delta:
--     `AmountDelta`), states and modules to a stack of changes (Testing/ChangeSet), whose
--     checkpoints are made before nested calls and rolled back after those that fail; at the end `ChangeSet::persist`
--     (Testing/Persist) writes the topmost changes to the chain. Modules are deployed by
--     Testing/Deploy (`module_deploy_v1_debug`), with the validation of Wasm as a parameter, and
--     contracts are created by Testing/Init (`contract_init` and its worker), with the run of the
--     init method as a parameter.
--   Std/BumpAlloc: `concordium-std/src/bump_alloc.rs`: the allocator of contracts, over the memory
--     instructions of Wasm, which are the parameter `Wasm`.
--   Std/BTree: `concordium-std/src/state_btree.rs`: the ordered set `StateBTreeSet`. The nodes are
--     entries of the contract state by id (Std/BTree/Node); look-ups (Std/BTree/Search), the
--     iterator (Std/BTree/Iter) and insertion (Std/BTree/Insert) go from node to node. Keys are any
--     type with the order of Std/Ord. The abstract view is an increasing list of keys
--     (Std/BTree/Sorted), which Std/BTree/View reads off the tree; `Holds` (Std/BTree/Tree) says
--     that a set is a tree of a height that holds a list.
--   Cis2: `concordium-cis2/src/lib.rs`: token amounts as LEB128 (Cis2/Amount), token ids as bytes
--     (Cis2/TokenId) and as hex strings (Cis2/Hex). The integers and arrays that the crate
--     `concordium-contracts-common` reads and writes are the parameter `Stream` (Cis2/Common).
--   Cis2/Samples: a stream over lists of bytes, and examples.
--   Testing/Samples: concrete chains and the examples.
--
-- Correspondence: operations have the names of the source. `&mut self` is a handler or a chain
-- passed in and returned. Errors are `err`, and what panics in the source (`unwrap`, `expect`,
-- an overflow that is checked, a division by zero) is `panic` (Base/Result). Amounts and energy
-- are natural numbers below `2 ^ 64`, with the checks and the wrap-around written out. Maps are
-- association lists; an address is a number, and account addresses are keyed by `address_eq`, which
-- identifies the aliases of an account.
--
-- Parameters: the crates that are not part of the repository, in the record `Sdk` (Testing/Sdk):
-- the amounts, the available balance of an account, the freezing of states, the size limits and
-- the base cost, with laws for their documented behaviour; and `invoke_entrypoint`, the run of
-- the Wasm engine, as a function of the handler. Testing/Samples has a concrete `Sdk`.
--
-- The loops of the ordered set recur on fuel, and every theorem on them asks only that the fuel
-- exceeds the height of the tree; running out of it is `none`, as is a trap. The other functions
-- are structurally recursive. The loop that writes an amount has 37 rounds, the bound
-- of the encoding; an amount of 256 bits needs at most that many.
--
-- Not modelled: the loop that runs the Wasm engine, the connection to an external node, debug
-- traces, the map over the ordered set, the other state types of `concordium-std`, the derive
-- macros, and the example contracts. Removal from the ordered set is defined (Std/BTree/Remove),
-- but no theorem is about its descent.

pub mod Base
pub mod Cis2
pub mod Std
pub mod Testing
