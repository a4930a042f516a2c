-- ===== src/Std/BTree/Search.antt =====
-- The look-ups of the ordered set (concordium-std/src/state_btree.rs: `contains`, `higher`,
-- `eq_or_higher`, `lower`, `eq_or_lower`, `first`, `last`). The loops recur on fuel; running out
-- of it gives `none`, like a trap.
pub mod Locate
pub mod Descend
pub mod Contains
pub mod Higher
pub mod Lower
pub mod Ends
use rust_smart_contract.Base.{
  ℕ, zero, suc, Bool, true, false, Option, none, some, List, [], ◌∷◌, get_elem?, length, ◌-◌,
}
use rust_smart_contract.Std.Ord.{Ord}
use rust_smart_contract.Std.BTree.Sorted.{or_else}
use rust_smart_contract.Std.BTree.Node.{
  Node, NodeId, StateBTreeSet, Search, found, missing, binary_search, is_leaf, get_node, ◌>>=◌,
}

abbrev pub higher_key_index : Search → ℕ
higher_key_index (found i) = suc i
higher_key_index (missing i) = i

abbrev pub lower_key_index : Search → ℕ
lower_key_index (found i) = i
lower_key_index (missing i) = i

module _ {ℓ} {K : Type ℓ} where
  -- `self.get_node(node.children[i])`
  unfoldable pub get_child : StateBTreeSet K → Node K → ℕ → Option (Node K)
  get_child set node i = do id ← get_elem? node.children i; get_node id set

  -- The key before the index if there is one, as `lower_key_index - 1` selects it.
  unfoldable pub key_before : List K → ℕ → Option K → Option (Option K)
  key_before ks zero so_far = some so_far
  key_before ks (suc i) so_far = do key ← get_elem? ks i; some (some key)

  unfoldable pub lowest_key_from : ℕ → StateBTreeSet K → Node K → Option K
  lowest_key_from zero set node = none
  lowest_key_from (suc fuel) set node = elim (is_leaf node) [
    | true ↦ get_elem? node.keys 0
    | false ↦ get_child set node 0 >>= λ child. lowest_key_from fuel set child
  ]

  unfoldable pub highest_key_from : ℕ → StateBTreeSet K → Node K → Option K
  highest_key_from zero set node = none
  highest_key_from (suc fuel) set node = elim (is_leaf node) [
    | true ↦ get_elem? node.keys (length node.keys - 1)
    | false ↦
        get_child set node (length node.children - 1) >>= λ child. highest_key_from fuel set child
  ]

  unfoldable pub get_lowest_key : ℕ → StateBTreeSet K → Node K → ℕ → Option K
  get_lowest_key fuel set node child_index = do
    child ← get_child set node child_index
    lowest_key_from fuel set child

  unfoldable pub get_highest_key : ℕ → StateBTreeSet K → Node K → ℕ → Option K
  get_highest_key fuel set node child_index = do
    child ← get_child set node child_index
    highest_key_from fuel set child

  -- the set's root if it has one
  unfoldable pub at_root {κ} : {B : Type κ} → StateBTreeSet K → B → (Node K → Option B) → Option B
  at_root set empty f = elim set.root [ none ↦ some empty | some id ↦ get_node id set >>= f ]

  unfoldable pub first : ℕ → StateBTreeSet K → Option (Option K)
  first fuel set = at_root set none λ root. elim (is_leaf root) [
    | true ↦ get_elem? root.keys 0 >>= λ key. some (some key)
    | false ↦ get_lowest_key fuel set root 0 >>= λ key. some (some key)
  ]

  unfoldable pub last : ℕ → StateBTreeSet K → Option (Option K)
  last fuel set = at_root set none λ root. elim (is_leaf root) [
    | true ↦ get_elem? root.keys (length root.keys - 1) >>= λ key. some (some key)
    | false ↦ get_highest_key fuel set root (length root.children - 1) >>= λ key. some (some key)
  ]

module _ {ℓ} {K : Type ℓ} ⦃o : Ord K⦄ where
  unfoldable pub contains_from : ℕ → StateBTreeSet K → Node K → K → Option Bool
  contains_from zero set node key = none
  contains_from (suc fuel) set node key = elim (binary_search node.keys key) [
    | found i ↦ some true
    | missing i ↦ elim (is_leaf node) [
      | true ↦ some false
      | false ↦ get_child set node i >>= λ child. contains_from fuel set child key
    ]
  ]

  unfoldable pub contains : ℕ → StateBTreeSet K → K → Option Bool
  contains fuel set key = at_root set false λ node. contains_from fuel set node key

  unfoldable pub higher_from : ℕ → StateBTreeSet K → Node K → K → Option K → Option (Option K)
  higher_from zero set node key so_far = none
  higher_from (suc fuel) set node key so_far =
      let i = higher_key_index (binary_search node.keys key) in
      let candidate = or_else (get_elem? node.keys i) so_far in
      elim (is_leaf node) [
        | true ↦ some candidate
        | false ↦ get_child set node i >>= λ child. higher_from fuel set child key candidate
      ]

  unfoldable pub higher : ℕ → StateBTreeSet K → K → Option (Option K)
  higher fuel set key = at_root set none λ node. higher_from fuel set node key none

  unfoldable pub eq_or_higher_from : ℕ → StateBTreeSet K → Node K → K → Option K → Option (Option K)
  eq_or_higher_from zero set node key so_far = none
  eq_or_higher_from (suc fuel) set node key so_far = elim (binary_search node.keys key) [
    | found i ↦ get_elem? node.keys i >>= λ k. some (some k)
    | missing i ↦
        let candidate = or_else (get_elem? node.keys i) so_far in
        elim (is_leaf node) [
          | true ↦ some candidate
          | false ↦ get_child set node i >>= λ child. eq_or_higher_from fuel set child key candidate
        ]
  ]

  unfoldable pub eq_or_higher : ℕ → StateBTreeSet K → K → Option (Option K)
  eq_or_higher fuel set key = at_root set none λ node. eq_or_higher_from fuel set node key none

  unfoldable pub lower_from : ℕ → StateBTreeSet K → Node K → K → Option K → Option (Option K)
  lower_from zero set node key so_far = none
  lower_from (suc fuel) set node key so_far =
      let i = lower_key_index (binary_search node.keys key) in
      key_before node.keys i so_far >>= λ candidate. elim (is_leaf node) [
        | true ↦ some candidate
        | false ↦ get_child set node i >>= λ child. lower_from fuel set child key candidate
      ]

  unfoldable pub lower : ℕ → StateBTreeSet K → K → Option (Option K)
  lower fuel set key = at_root set none λ node. lower_from fuel set node key none

  unfoldable pub eq_or_lower_from : ℕ → StateBTreeSet K → Node K → K → Option K → Option (Option K)
  eq_or_lower_from zero set node key so_far = none
  eq_or_lower_from (suc fuel) set node key so_far = elim (binary_search node.keys key) [
    | found i ↦ get_elem? node.keys i >>= λ k. some (some k)
    | missing i ↦ key_before node.keys i so_far >>= λ candidate. elim (is_leaf node) [
      | true ↦ some candidate
      | false ↦ get_child set node i >>= λ child. eq_or_lower_from fuel set child key candidate
    ]
  ]

  unfoldable pub eq_or_lower : ℕ → StateBTreeSet K → K → Option (Option K)
  eq_or_lower fuel set key = at_root set none λ node. eq_or_lower_from fuel set node key none
