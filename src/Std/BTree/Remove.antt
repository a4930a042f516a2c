-- ===== src/Std/BTree/Remove.antt =====
-- Removing from the ordered set (concordium-std/src/state_btree.rs: `remove`,
-- `remove_largest_key`, `remove_smallest_key`, `prepare_child_for_key_removal`, `merge`). A node held
-- by a `StateRefMut` is written back where the reference is dropped; the loops recur on fuel.
use rust_smart_contract.Base.{
  ℕ, zero, suc, ◌+◌, ◌-◌, ◌%◌, ◌^◌, ◌==◌, ltb, Bool, true, false, Option, none, some, List, [], ◌∷◌,
  ◌++◌, get_elem?, length,
}
use rust_smart_contract.Std.Ord.{Ord}
use rust_smart_contract.Std.BTree.Node.{
  Node, NodeId, StateBTreeSet, found, missing, binary_search, is_leaf, is_at_min, get_node,
  store_node, delete_node, ◌>>=◌,
}
use rust_smart_contract.Std.BTree.Insert.{pop}

module _ {ℓ} {A : Type ℓ} where
  -- `Vec::remove`, which panics out of range: the element, and what stays
  unfoldable pub remove_at : ℕ → List A → Option (A × List A)
  remove_at i [] = none
  remove_at zero (x ∷ l) = some (x, l)
  remove_at (suc i) (x ∷ l) = remove_at i l >>= λ (y, rest). some (y, x ∷ rest)

  -- `mem::replace` of an element: the old one, and the list with the new one
  unfoldable pub replace_at : ℕ → A → List A → Option (A × List A)
  replace_at i y [] = none
  replace_at zero y (x ∷ l) = some (x, y ∷ l)
  replace_at (suc i) y (x ∷ l) = replace_at i y l >>= λ (old, rest). some (old, x ∷ rest)

module _ {ℓ} {K : Type ℓ} where
  -- `merge`: the parent without the key and the larger child, the child with both, and the set
  -- without the larger child
  unfoldable pub merge :
      Node K → ℕ → Node K → Node K → StateBTreeSet K → Option (Node K × Node K × StateBTreeSet K)
  merge parent index child larger set = do
    (parent_key, keys) ← remove_at index parent.keys
    (larger_id, children) ← remove_at (index + 1) parent.children
    let parent' : Node K = record { keys = keys; children = children }
    let child' : Node K = record {
      keys = child.keys ++ parent_key ∷ larger.keys;
      children = child.children ++ larger.children;
    }
    some (parent', child', delete_node larger_id set)

  -- what the dropped references of three nodes write back
  unfoldable pub store_three :
      NodeId → Node K → NodeId → Node K → NodeId → Node K → StateBTreeSet K → StateBTreeSet K
  store_three a x b y c z set = store_node a x (store_node b y (store_node c z set))

  -- The children that a node takes over from its smaller sibling, and those that stay there.
  unfoldable pub last_child_of : Node K → Node K → Option (List NodeId × List NodeId)
  last_child_of child sibling = elim (is_leaf child) [
    | true ↦ some (child.children, sibling.children)
    | false ↦ pop sibling.children >>= λ (rest, moved). some (moved ∷ child.children, rest)
  ]

  unfoldable pub first_child_of : Node K → Node K → Option (List NodeId × List NodeId)
  first_child_of child sibling = elim (is_leaf child) [
    | true ↦ some (child.children, sibling.children)
    | false ↦
        remove_at 0 sibling.children >>= λ (moved, rest). some (child.children ++ moved ∷ [], rest)
  ]

  -- a key from the smaller sibling, through the parent
  unfoldable pub take_from_smaller :
      StateBTreeSet K
      → NodeId
      → Node K
      → ℕ
      → NodeId
      → Node K
      → NodeId
      → Node K
      → Option (NodeId × StateBTreeSet K)
  take_from_smaller set id node index child_id child sibling_id sibling = do
    (sibling_keys, largest) ← pop sibling.keys
    (swapped, keys) ← replace_at (index - 1) largest node.keys
    (children, sibling_children) ← last_child_of child sibling
    let child' : Node K = record { keys = swapped ∷ child.keys; children = children }
    let sibling' : Node K = record { keys = sibling_keys; children = sibling_children }
    let node' : Node K = record node { keys = keys }
    some (child_id, store_three id node' child_id child' sibling_id sibling' set)

  unfoldable pub take_from_larger :
      StateBTreeSet K
      → NodeId
      → Node K
      → ℕ
      → NodeId
      → Node K
      → NodeId
      → Node K
      → Option (NodeId × StateBTreeSet K)
  take_from_larger set id node index child_id child sibling_id sibling = do
    (smallest, sibling_keys) ← remove_at 0 sibling.keys
    (swapped, keys) ← replace_at index smallest node.keys
    (children, sibling_children) ← first_child_of child sibling
    let child' : Node K = record { keys = child.keys ++ swapped ∷ []; children = children }
    let sibling' : Node K = record { keys = sibling_keys; children = sibling_children }
    let node' : Node K = record node { keys = keys }
    some (child_id, store_three id node' child_id child' sibling_id sibling' set)

  -- `merge` of two children, with what is written back
  unfoldable pub merge_children :
      StateBTreeSet K
      → NodeId
      → Node K
      → ℕ
      → NodeId
      → Node K
      → Node K
      → Option (NodeId × StateBTreeSet K)
  merge_children set id node index child_id child larger = do
    (node', child', set') ← merge node index child larger set
    some (child_id, store_node id node' (store_node child_id child' set'))

  -- a sibling of a child, if the node has it
  unfoldable pub sibling_at :
      StateBTreeSet K → Node K → Bool → ℕ → Option (Option (NodeId × Node K))
  sibling_at set node has index = elim has [
    | false ↦ some none
    | true ↦ get_elem? node.children index >>= λ id. get_node id set >>= λ n. some (some (id, n))
  ]

  -- no sibling can spare a key
  unfoldable pub merge_with_sibling :
      StateBTreeSet K
      → NodeId
      → Node K
      → ℕ
      → NodeId
      → Node K
      → Option (NodeId × Node K)
      → Option (NodeId × Node K)
      → Option (NodeId × StateBTreeSet K)
  merge_with_sibling set id node index child_id child smaller (some (larger_id, larger)) =
      merge_children set id node index child_id child larger
  merge_with_sibling set id node index child_id child (some (smaller_id, smaller)) none =
      merge_children set id node (index - 1) smaller_id smaller child
  merge_with_sibling set id node index child_id child none none = none

  unfoldable pub try_larger :
      ℕ
      → StateBTreeSet K
      → NodeId
      → Node K
      → ℕ
      → NodeId
      → Node K
      → Option (NodeId × Node K)
      → Option (NodeId × Node K)
      → Option (NodeId × StateBTreeSet K)
  try_larger degree set id node index child_id child smaller none =
      merge_with_sibling set id node index child_id child smaller none
  try_larger degree set id node index child_id child smaller (some (larger_id, larger)) =
      elim (is_at_min degree larger) [
        | false ↦ take_from_larger set id node index child_id child larger_id larger
        | true ↦
            merge_with_sibling set id node index child_id child smaller (some (larger_id, larger))
      ]

  unfoldable pub try_siblings :
      ℕ
      → StateBTreeSet K
      → NodeId
      → Node K
      → ℕ
      → NodeId
      → Node K
      → Option (NodeId × Node K)
      → Option (NodeId × StateBTreeSet K)
  try_siblings degree set id node index child_id child smaller =
      sibling_at set node (ltb index (length node.children - 1)) (index + 1) >>= λ larger.
      try_larger degree set id node index child_id child smaller larger

  -- The id of the child to go on with, which can spare a key.
  unfoldable pub prepare_child_for_key_removal :
      ℕ → StateBTreeSet K → NodeId → Node K → ℕ → Option (NodeId × StateBTreeSet K)
  prepare_child_for_key_removal degree set id node index =
      get_elem? node.children index >>= λ child_id. get_node child_id set >>= λ child.
      elim (is_at_min degree child) [
        | false ↦ some (child_id, set)
        | true ↦ sibling_at set node (ltb 0 index) (index - 1) >>= λ smaller. elim smaller [
          | none ↦ try_siblings degree set id node index child_id child none
          | some (smaller_id, sibling) ↦ elim (is_at_min degree sibling) [
            | false ↦ take_from_smaller set id node index child_id child smaller_id sibling
            | true ↦
                try_siblings degree set id node index child_id child (some (smaller_id, sibling))
          ]
        ]
      ]

  unfoldable pub remove_largest_key :
      ℕ → ℕ → StateBTreeSet K → NodeId → Option (K × StateBTreeSet K)
  remove_largest_key degree zero set id = none
  remove_largest_key degree (suc fuel) set id = get_node id set >>= λ node. elim (is_leaf node) [
    | true ↦
        pop node.keys >>= λ (keys, key). some (key, store_node id (record node { keys = keys }) set)
    | false ↦
        prepare_child_for_key_removal degree set id node (length node.children - 1)
        >>= λ (child_id, set'). remove_largest_key degree fuel set' child_id
  ]

  unfoldable pub remove_smallest_key :
      ℕ → ℕ → StateBTreeSet K → NodeId → Option (K × StateBTreeSet K)
  remove_smallest_key degree zero set id = none
  remove_smallest_key degree (suc fuel) set id = get_node id set >>= λ node. elim (is_leaf node) [
    | true ↦ remove_at 0 node.keys >>= λ (key, keys).
        some (key, store_node id (record node { keys = keys }) set)
    | false ↦ prepare_child_for_key_removal degree set id node 0 >>= λ (child_id, set').
        remove_smallest_key degree fuel set' child_id
  ]

  -- `node.keys[index] = key`, and the end of the loop
  unfoldable pub put_key :
      NodeId → Node K → ℕ → Option (K × StateBTreeSet K) → Option (Bool × StateBTreeSet K)
  put_key id node index result = do
    (key, set) ← result
    (_, keys) ← replace_at index key node.keys
    some (true, store_node id (record node { keys = keys }) set)

module _ {ℓ} {K : Type ℓ} ⦃o : Ord K⦄ (degree : ℕ) where
  -- the loop of `remove`
  unfoldable pub remove_from : ℕ → StateBTreeSet K → NodeId → K → Option (Bool × StateBTreeSet K)
  remove_from zero set id key = none
  remove_from (suc fuel) set id key = get_node id set >>= λ node.
      elim (binary_search node.keys key) [
        | found index ↦ elim (is_leaf node) [
          | true ↦ remove_at index node.keys >>= λ (_, keys).
              some (true, store_node id (record node { keys = keys }) set)
          | false ↦ get_elem? node.children index >>= λ left_id. get_node left_id set >>= λ left.
              elim (is_at_min degree left) [
                | false ↦ put_key id node index (remove_largest_key degree fuel set left_id)
                | true ↦ get_elem? node.children (index + 1) >>= λ right_id.
                    get_node right_id set >>= λ right. elim (is_at_min degree right) [
                      | false ↦ put_key id node index (remove_smallest_key degree fuel set right_id)
                      | true ↦
                          merge_children set id node index left_id left right
                          >>= λ (child_id, set'). remove_from fuel set' child_id key
                    ]
              ]
        ]
        | missing index ↦ elim (is_leaf node) [
          | true ↦ some (false, set)
          | false ↦ prepare_child_for_key_removal degree set id node index >>= λ (child_id, set').
              remove_from fuel set' child_id key
        ]
      ]

  -- an empty root of a set that is not empty gives way to its only child
  unfoldable pub drop_empty_root : NodeId → Bool → StateBTreeSet K → Option (Bool × StateBTreeSet K)
  drop_empty_root root_id deleted set = get_node root_id set >>= λ root. elim root.keys [
    | [] ↦ get_elem? root.children 0 >>= λ child_id.
        some (deleted, delete_node root_id (record set { root = some child_id }))
    | _ ∷ _ ↦ some (deleted, set)
  ]

  unfoldable pub after_removal : NodeId → Bool × StateBTreeSet K → Option (Bool × StateBTreeSet K)
  after_removal root_id (false, set) = drop_empty_root root_id false set
  after_removal root_id (true, set) =
      let len : ℕ = (set.len + (2 ^ 32 - 1)) % 2 ^ 32 in
      elim (len == 0) [
        | true ↦ some (true, delete_node root_id (record set { len = len; root = none }))
        | false ↦ drop_empty_root root_id true (record set { len = len })
      ]

  unfoldable pub remove : ℕ → StateBTreeSet K → K → Option (Bool × StateBTreeSet K)
  remove fuel set key = elim set.root [
    | none ↦ some (false, set)
    | some root_id ↦ remove_from fuel set root_id key >>= λ result. after_removal root_id result
  ]
