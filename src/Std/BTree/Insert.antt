-- ===== src/Std/BTree/Insert.antt =====
-- Inserting into the ordered set (concordium-std/src/state_btree.rs: `insert`, `insert_non_full`,
-- `split_child`). A node held by a `StateRefMut` is written back where the reference is dropped.
pub mod Inserted
pub mod Below
pub mod Cut
pub mod Split
pub mod Halves
pub mod Heads
pub mod SplitChild
pub mod Runs
pub mod Into
pub mod NonFull
pub mod Root
pub mod FullRoot
pub mod Laws
pub mod Series
use Prim.Native.Nat.Ordering.{lt, eq, gt}
use rust_smart_contract.Base.{
  ℕ, zero, suc, ◌+◌, ◌%◌, ◌^◌, Bool, true, false, Option, none, some, List, [], ◌∷◌, get_elem?,
  length, if◌then◌else◌,
}
use rust_smart_contract.Std.Ord.{Ord}
use rust_smart_contract.Std.BTree.Node.{
  Node, NodeId, StateBTreeSet, Search, found, missing, binary_search, is_leaf, is_full, get_node,
  store_node, create_node, minimum_key_len, ◌>>=◌,
}

module _ {ℓ} {A : Type ℓ} where
  -- `Vec::insert`, which panics beyond the end
  unfoldable pub insert_at : ℕ → A → List A → Option (List A)
  insert_at zero x l = some (x ∷ l)
  insert_at (suc i) x [] = none
  insert_at (suc i) x (y ∷ l) = insert_at i x l >>= λ rest. some (y ∷ rest)

  -- `Vec::split_off`, which panics beyond the end: what stays, and what is split off
  unfoldable pub split_off : ℕ → List A → Option (List A × List A)
  split_off zero l = some ([], l)
  split_off (suc i) [] = none
  split_off (suc i) (y ∷ l) = split_off i l >>= λ (kept, off). some (y ∷ kept, off)

  -- `Vec::pop`: what stays, and the last element
  unfoldable pub pop : List A → Option (List A × A)
  pop [] = none
  pop (x ∷ []) = some ([], x)
  pop (x ∷ y ∷ l) = pop (y ∷ l) >>= λ (kept, last). some (x ∷ kept, last)

module _ {ℓ} {K : Type ℓ} where
  unfoldable pub split_children : ℕ → Node K → Option (List NodeId × List NodeId)
  split_children at child = elim (is_leaf child) [
    | true ↦ some (child.children, [])
    | false ↦ split_off at child.children
  ]

  -- `split_child`, with what the dropped references write back: the parent, the child, the id of
  -- the new sibling and the set
  unfoldable pub split_child :
      ℕ
      → NodeId
      → Node K
      → ℕ
      → NodeId
      → Node K
      → StateBTreeSet K
      → Option (Node K × NodeId × StateBTreeSet K)
  split_child degree id node child_index child_id child set = do
    (child_keys, larger_keys) ← split_off (minimum_key_len degree + 1) child.keys
    (child_children, larger_children) ← split_children (minimum_key_len degree + 1) child
    (keys, key) ← pop child_keys
    let (larger_id, created) = create_node larger_keys larger_children set
    children' ← insert_at (child_index + 1) larger_id node.children
    keys' ← insert_at child_index key node.keys
    let node' : Node K = record { keys = keys'; children = children' }
    let child' : Node K = record { keys = keys; children = child_children }
    some (node', larger_id, store_node id node' (store_node child_id child' created))

  -- `if new { self.len += 1; }`
  unfoldable pub count_new : Bool × StateBTreeSet K → Bool × StateBTreeSet K
  count_new (false, set) = (false, set)
  count_new (true, set) = (true, record set { len = (set.len + 1) % 2 ^ 32 })

module _ {ℓ} {K : Type ℓ} ⦃o : Ord K⦄ (degree : ℕ) where
  unfoldable pub insert_non_full :
      ℕ → StateBTreeSet K → NodeId → K → Option (Bool × StateBTreeSet K)
  insert_non_full zero set id key = none
  insert_non_full (suc fuel) set id key = get_node id set >>= λ node.
      elim (binary_search node.keys key) [
        | found i ↦ some (false, set)
        | missing i ↦ elim (is_leaf node) [
          | true ↦ insert_at i key node.keys >>= λ keys.
              some (true, store_node id (record node { keys = keys }) set)
          | false ↦ get_elem? node.children i >>= λ child_id. get_node child_id set >>= λ child.
              elim (is_full degree child) [
                | false ↦ insert_non_full fuel set child_id key
                | true ↦
                    split_child degree id node i child_id child set >>= λ (node', larger_id, set').
                    get_elem? node'.keys i >>= λ moved_up_key. elim (o.cmp moved_up_key key) [
                      | eq ↦ some (false, set')
                      | lt ↦ insert_non_full fuel set' larger_id key
                      | gt ↦ insert_non_full fuel set' child_id key
                    ]
              ]
        ]
      ]

  -- The root is full and does not hold the key: it becomes a child of a new root.
  unfoldable pub insert_full_root :
      ℕ → StateBTreeSet K → NodeId → Node K → K → Option (Bool × StateBTreeSet K)
  insert_full_root fuel set root_id root_node key =
      let (new_root_id, created) = create_node [] (root_id ∷ []) set in
      let new_root : Node K = record { keys = []; children = root_id ∷ [] } in
      let rooted : StateBTreeSet K = record created { root = some new_root_id } in
      split_child degree new_root_id new_root 0 root_id root_node rooted
      >>= λ (new_root', larger_id, set'). get_elem? new_root'.keys 0 >>= λ key_in_root.
          let child_id : NodeId = elim (o.cmp key_in_root key) [
            | lt ↦ larger_id
            | eq ↦ root_id
            | gt ↦ root_id
          ] in
          insert_non_full fuel set' child_id key >>= λ result. some (count_new result)

  unfoldable pub insert : ℕ → StateBTreeSet K → K → Option (Bool × StateBTreeSet K)
  insert fuel set key = elim set.root [
    | none ↦
        let (id, created) = create_node (key ∷ []) [] set in
        some (true, record created { root = some id; len = 1 })
    | some root_id ↦ get_node root_id set >>= λ root_node. elim (is_full degree root_node) [
      | false ↦ insert_non_full fuel set root_id key >>= λ result. some (count_new result)
      | true ↦ elim (binary_search root_node.keys key) [
        | found i ↦ some (false, set)
        | missing i ↦ insert_full_root fuel set root_id root_node key
      ]
    ]
  ]
