-- ===== src/Std/BTree/Insert/Inserted.antt =====
-- What inserting below a node leaves: the keys of the subtree with the new one in its place, and
-- every other node as it was (concordium-std/src/state_btree.rs: `insert_non_full`).
use rust_smart_contract.Base.{
  ℕ, zero, suc, ◌+◌, ◌≤◌, ◌≡◌, refl, sym, Bool, true, false, not, Option, some, List, [], ◌∷◌,
  length, get_elem?, arith, inl, inr,
}
use rust_smart_contract.Base.Dict.{get?-insert, get?-insert_self}
use rust_smart_contract.Std.Ord.{Ord, cmp-cases}
use rust_smart_contract.Std.BTree.Sorted.{Sorted, elem, search_Above, Above-trans, sorted_insert}
use rust_smart_contract.Std.BTree.Node.{
  Node, NodeId, StateBTreeSet, get_node, store_node, missing, binary_search, Search-cases,
}
use rust_smart_contract.Std.BTree.View.{in_order, Shape}
use rust_smart_contract.Std.BTree.Frame.{Frame, Unused}
use rust_smart_contract.Std.BTree.Insert.{insert_at}

pub some_inj {ℓ} : {A : Type ℓ} (x y : A) → ◌≡◌ {A = Option A} (some x) (some y) → x ≡ y
some_inj x y e = ground arith

module _ {ℓ} {K : Type ℓ} ⦃o : Ord K⦄ where
  -- `key` was inserted in the subtree at height `h` under `id`, whose keys were `l`.
  abbrev pub Inserted : ℕ → StateBTreeSet K → NodeId → List K → K → Bool → StateBTreeSet K → Type ℓ
  Inserted h set id l key is_new set' =
      ((node : Node K) × (get_node id set' ≡ some node)
        × Shape h set' node
        × (in_order h set' node ≡ sorted_insert key l))
      × (is_new ≡ not (elem key l))
      × Frame set set' l
      × Unused set'
      × (set'.next_node_id ≤ set.next_node_id + h)
      × (set'.root ≡ set.root)
      × (set'.len ≡ set.len)

  pub sorted_insert_present :
      (key : K) (l : List K) → Sorted l → elem key l ≡ true → sorted_insert key l ≡ l
  unfolding sorted_insert elem
  sorted_insert_present key [] s e = ground arith
  sorted_insert_present key (k ∷ l) s e = elim (cmp-cases k key) [
    | inl c ↦ grind (arith, sorted_insert_present key l s.1)
    | inr (inl c) ↦ ground (arith, c)
    | inr (inr c) ↦ grind (arith, search_Above key l (Above-trans key k l (o.flip_gt k key c) s.0))
  ]

  -- a key that is there already
  pub present-Inserted :
      (h : ℕ) (set : StateBTreeSet K) (id : NodeId) (node : Node K) (key : K)
      → get_node id set ≡ some node
      → Shape h set node
      → Sorted (in_order h set node)
      → Unused set
      → elem key (in_order h set node) ≡ true
      → Inserted h set id (in_order h set node) key false set
  present-Inserted h set id node key g s sorted u e = (
    (node, g, s, sym (sorted_insert_present key (in_order h set node) sorted e)),
    ground (arith, e),
    λ x n k f first out. f,
    u,
    omega arith,
    refl,
    refl,
  )

  pub insert_at-sorted_insert :
      (keys : List K) (key : K) (i : ℕ)
      → binary_search keys key ≡ missing i
      → insert_at i key keys ≡ some (sorted_insert key keys)
  unfolding binary_search insert_at sorted_insert
  insert_at-sorted_insert [] key zero e = refl
  insert_at-sorted_insert [] key (suc i) e = ground arith
  insert_at-sorted_insert (k ∷ keys) key zero e = elim (Search-cases (binary_search keys key)) [
    | inl (j, f) ↦ ground arith
    | inr (j, f) ↦ ground arith
  ]
  insert_at-sorted_insert (k ∷ keys) key (suc i) e = elim (Search-cases (binary_search keys key)) [
    | inl (j, f) ↦ ground arith
    | inr (j, f) ↦ ground (arith, f, insert_at-sorted_insert keys key i)
  ]

  length-sorted_insert : (key : K) (l : List K) → 1 ≤ length (sorted_insert key l)
  unfolding sorted_insert
  length-sorted_insert key [] = omega arith
  length-sorted_insert key (k ∷ l) = ground arith

  first_elem : (k : K) (l : List K) → get_elem? l 0 ≡ some k → elem k l ≡ true
  unfolding elem
  first_elem k [] e = ground arith
  first_elem k (j ∷ l) e = grind (arith, e, o.cmp_refl k)

  -- writing a node leaves the nodes that do not start with one of its keys
  pub store_node-Frame :
      (set : StateBTreeSet K) (id : NodeId) (node node' : Node K) (l : List K)
      → get_node id set ≡ some node
      → ((k : K) → elem k l ≡ false → elem k node.keys ≡ false)
      → Frame set (store_node id node' set) l
  unfolding get_node store_node
  store_node-Frame set id node node' l g s x n k f first out =
      grind (arith, get?-insert id x node' set.nodes, first_elem k n.keys first, s k out)

  pub store_node-Unused :
      (set : StateBTreeSet K) (id : NodeId) (node node' : Node K)
      → get_node id set ≡ some node
      → Unused set
      → Unused (store_node id node' set)
  unfolding get_node store_node
  store_node-Unused set id node node' g u x b =
      grind (arith, get?-insert id x node' set.nodes, u x b, g)

  -- a key that is new in a leaf
  pub leaf-Inserted :
      (set : StateBTreeSet K) (id : NodeId) (node : Node K) (key : K)
      → get_node id set ≡ some node
      → Shape 0 set node
      → Unused set
      → elem key node.keys ≡ false
      → Inserted 0 set id node.keys key true
          (store_node id (record node { keys = sorted_insert key node.keys }) set)
  unfolding store_node get_node in_order
  leaf-Inserted set id node key g s u e =
      let node' : Node K = record node { keys = sorted_insert key node.keys } in
      (
        (
          node',
          get?-insert_self id node' set.nodes,
          (length-sorted_insert key node.keys, s.1, tt),
          refl,
        ),
        ground (arith, e),
        store_node-Frame set id node node' node.keys g (λ k f. f),
        store_node-Unused set id node node' g u,
        omega arith,
        refl,
        refl,
      )
