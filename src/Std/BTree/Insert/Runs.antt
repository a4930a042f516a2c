-- ===== src/Std/BTree/Insert/Runs.antt =====
-- `insert_non_full` puts the key in its place among the keys of the subtree
-- (concordium-std/src/state_btree.rs).
use Prim.Native.Nat.Ordering.{lt, eq, gt}
use rust_smart_contract.Base.{
  ℕ, zero, suc, ◌≡◌, Bool, true, false, some, List, [], ◌∷◌, get_elem?, arith, inl, inr,
}
use rust_smart_contract.Std.Ord.{Ord}
use rust_smart_contract.Std.BTree.Node.{
  Node, NodeId, StateBTreeSet, get_node, store_node, is_full, is_leaf, binary_search, Search-cases,
  found, missing,
}
use rust_smart_contract.Std.BTree.Insert.{insert_at, split_child, insert_non_full}
use rust_smart_contract.Std.BTree.Insert.Inserted.{Inserted}
use rust_smart_contract.Std.BTree.Insert.Cut.{added}

module _ {ℓ} {K : Type ℓ} ⦃o : Ord K⦄ where
  -- where a search ends once a key stands at the index it gave
  pub added-lt :
      (ks : List K) (k key : K) (i : ℕ)
      → binary_search ks key ≡ missing i
      → o.cmp k key ≡ lt
      → binary_search (added i k ks) key ≡ missing (suc i)
  unfolding binary_search
  added-lt ks k key zero e c = grind (arith, c, e)
  added-lt [] k key (suc i) e c = ground arith
  added-lt (j ∷ ks) k key (suc i) e c = elim (Search-cases (binary_search ks key)) [
    | inl (n, f) ↦ ground (arith, f)
    | inr (n, f) ↦ ground (arith, f, added-lt ks k key i)
  ]

  pub added-gt :
      (ks : List K) (k key : K) (i : ℕ)
      → binary_search ks key ≡ missing i
      → o.cmp k key ≡ gt
      → binary_search (added i k ks) key ≡ missing i
  unfolding binary_search
  added-gt ks k key zero e c = grind (arith, c, e)
  added-gt [] k key (suc i) e c = ground arith
  added-gt (j ∷ ks) k key (suc i) e c = elim (Search-cases (binary_search ks key)) [
    | inl (n, f) ↦ ground (arith, f)
    | inr (n, f) ↦ ground (arith, f, added-gt ks k key i)
  ]

  -- `insert_non_full` returns and did what it is for.
  abbrev pub Inserts : ℕ → ℕ → ℕ → StateBTreeSet K → NodeId → List K → K → Type ℓ
  Inserts degree fuel h set id l key =
      (b : Bool) × (set' : StateBTreeSet K) × (insert_non_full degree fuel set id key
        ≡ some (b, set'))
      × Inserted h set id l key b set'

  module _ (degree fuel : ℕ) (set : StateBTreeSet K) (id : NodeId) (node : Node K) (key : K)
      (g : get_node id set ≡ some node) where
    pub run_found :
        (i : ℕ)
        → binary_search node.keys key ≡ found i
        → insert_non_full degree (suc fuel) set id key ≡ some (false, set)
    unfolding insert_non_full
    run_found i e = grind (arith, g, e)

    pub run_leaf :
        (i : ℕ) (keys : List K)
        → binary_search node.keys key ≡ missing i
        → is_leaf node ≡ true
        → insert_at i key node.keys ≡ some keys
        → insert_non_full degree (suc fuel) set id key
          ≡ some (true, store_node id (record node { keys = keys }) set)
    unfolding insert_non_full
    run_leaf i keys e leaf k = grind (arith, g, e, leaf, k)

    module _ (i : ℕ) (cid : NodeId) (child : Node K) (e : binary_search node.keys key ≡ missing i)
        (leaf : is_leaf node ≡ false) (c : get_elem? node.children i ≡ some cid)
        (gc : get_node cid set ≡ some child) where
      pub run_below :
          is_full degree child ≡ false
          → insert_non_full degree (suc fuel) set id key ≡ insert_non_full degree fuel set cid key
      unfolding insert_non_full
      run_below full = grind (arith, g, e, leaf, c, gc, full)

      module _ (parent : Node K) (larger : NodeId) (set' : StateBTreeSet K) (k : K)
          (full : is_full degree child ≡ true)
          (split : split_child degree id node i cid child set ≡ some (parent, larger, set'))
          (up : get_elem? parent.keys i ≡ some k) where
        pub run_split_eq :
            o.cmp k key ≡ eq → insert_non_full degree (suc fuel) set id key ≡ some (false, set')
        unfolding insert_non_full
        run_split_eq m = grind (arith, g, e, leaf, c, gc, full, split, up, m)

        pub run_split_lt :
            o.cmp k key ≡ lt
            → insert_non_full degree (suc fuel) set id key
              ≡ insert_non_full degree fuel set' larger key
        unfolding insert_non_full
        run_split_lt m = grind (arith, g, e, leaf, c, gc, full, split, up, m)

        pub run_split_gt :
            o.cmp k key ≡ gt
            → insert_non_full degree (suc fuel) set id key
              ≡ insert_non_full degree fuel set' cid key
        unfolding insert_non_full
        run_split_gt m = grind (arith, g, e, leaf, c, gc, full, split, up, m)
