-- ===== src/Std/BTree/Node.antt =====
-- The nodes of the ordered set and the fields of the set (concordium-std/src/state_btree.rs:
-- `StateBTreeSet`, `NodeId`, `Node`). The entries that the contract state holds under the set's
-- prefix are an association list from node ids to nodes. A failed `unwrap_abort`, an index out of
-- range and `trap` give `none`.
use Prim.Native.Nat.Ordering.{lt, eq, gt}
use rust_smart_contract.Base.{
  ℕ, suc, ◌+◌, ◌-◌, ◌*◌, ◌%◌, ◌^◌, ◌==◌, ◌≡◌, refl, ◌⊎◌, inl, inr, Bool, true, false, Option, none,
  some, List, [], ◌∷◌, length,
}
use rust_smart_contract.Base.Dict.{Dict, get?, insert, remove}
use rust_smart_contract.Std.Ord.{Ord}

-- `NodeId`, a `u64`
abbrev pub NodeId : Type 0
NodeId = ℕ

pub record Node {ℓ} (K : Type ℓ) : Type ℓ where
  pub keys : List K
  pub children : List NodeId

pub record StateBTreeSet {ℓ} (K : Type ℓ) : Type ℓ where
  pub root : Option NodeId
  pub len : ℕ
  pub next_node_id : NodeId
  pub nodes : Dict (Node K)

-- the id handed out, and the next one
unfoldable pub fetch_and_add : NodeId → NodeId × NodeId
fetch_and_add id = (id, (id + 1) % 2 ^ 64)

-- The minimum degree `M` of the tree.
module _ (degree : ℕ) where
  abbrev pub maximum_child_len : ℕ
  maximum_child_len = 2 * degree

  abbrev pub maximum_key_len : ℕ
  maximum_key_len = maximum_child_len - 1

  abbrev pub minimum_child_len : ℕ
  minimum_child_len = degree

  abbrev pub minimum_key_len : ℕ
  minimum_key_len = minimum_child_len - 1

-- What `binary_search` returns: the index of the key, or where it would be inserted.
pub data Search : Type 0 where
  found : ℕ → Search
  missing : ℕ → Search

abbrev pub next_index : Search → Search
next_index (found i) = found (suc i)
next_index (missing i) = missing (suc i)

pub Search-cases : (r : Search) → ((i : ℕ) × (r ≡ found i)) ⊎ ((i : ℕ) × (r ≡ missing i))
Search-cases (found i) = inl (i, refl)
Search-cases (missing i) = inr (i, refl)

-- Going on with the value of an `unwrap_abort` or of an index.
infixl 5 ◌>>=◌
abbrev pub ◌>>=◌ {ℓ κ} : {A : Type ℓ} {B : Type κ} → Option A → (A → Option B) → Option B
none >>= f = none
some a >>= f = f a

module _ {ℓ} {K : Type ℓ} where
  abbrev pub is_full : ℕ → Node K → Bool
  is_full degree node = length node.keys == maximum_key_len degree

  abbrev pub is_leaf : Node K → Bool
  is_leaf node = elim node.children [ [] ↦ true | _ ∷ _ ↦ false ]

  abbrev pub is_at_min : ℕ → Node K → Bool
  is_at_min degree node = length node.keys == minimum_key_len degree

  unfoldable pub new : StateBTreeSet K
  new = record { root = none; len = 0; next_node_id = 0; nodes = [] }

  -- `get_node`, and the first read through the reference of `get_node_mut`
  unfoldable pub get_node : NodeId → StateBTreeSet K → Option (Node K)
  get_node id set = get? id set.nodes

  -- what dropping a `StateRefMut` writes back
  unfoldable pub store_node : NodeId → Node K → StateBTreeSet K → StateBTreeSet K
  store_node id node set = record set { nodes = insert id node set.nodes }

  unfoldable pub create_node : List K → List NodeId → StateBTreeSet K → NodeId × StateBTreeSet K
  unfolding fetch_and_add
  create_node keys children set =
      let (id, next) = fetch_and_add set.next_node_id in
      let node : Node K = record { keys = keys; children = children } in
      (id, record set { next_node_id = next; nodes = insert id node set.nodes })

  unfoldable pub delete_node : NodeId → StateBTreeSet K → StateBTreeSet K
  delete_node id set = record set { nodes = remove id set.nodes }

  unfoldable pub clear : StateBTreeSet K → StateBTreeSet K
  clear set = record set { root = none; len = 0; next_node_id = 0; nodes = [] }

  unfoldable pub binary_search : ⦃o : Ord K⦄ → List K → K → Search
  binary_search [] key = missing 0
  binary_search ⦃o⦄ (k ∷ ks) key =
      let rest = binary_search ks key in
      elim (o.cmp k key) [ lt ↦ next_index rest | eq ↦ found 0 | gt ↦ missing 0 ]
