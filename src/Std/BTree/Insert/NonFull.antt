-- ===== src/Std/BTree/Insert/NonFull.antt =====
-- `insert_non_full` returns, and puts the key in its place among the keys of the subtree
-- (concordium-std/src/state_btree.rs).
use rust_smart_contract.Std.BTree.Slots.{Apart}
use rust_smart_contract.Std.BTree.Insert.Split.{first_of, ids_differ}
use rust_smart_contract.Std.BTree.Search.Contains.{elem-cut}
use rust_smart_contract.Std.BTree.Iter.Pending.{child_id}
use mathlib.Core.Path.{subst}
use rust_smart_contract.Base.{
  ℕ, zero, suc, ◌+◌, ◌^◌, ◌≤◌, ◌<◌, ◌≡◌, ◌≢◌, refl, ap, ◌∙◌, true, false, some, List, [], length,
  get_elem?, arith, inl, inr, Bool-cases,
}
use rust_smart_contract.Std.Ord.{Ord}
use rust_smart_contract.Std.BTree.Sorted.{Sorted, elem, sorted_insert}
use rust_smart_contract.Std.BTree.Node.{
  Node, NodeId, StateBTreeSet, get_node, store_node, maximum_key_len, is_full, binary_search,
  missing,
}
use rust_smart_contract.Std.BTree.View.{before, after, in_order, Shape}
use rust_smart_contract.Std.BTree.Search.Descend.{
  subtrees, in_order-subtrees, length-subtrees, search-Step,
}
use rust_smart_contract.Std.BTree.Frame.{Unused, keys_under-some, Shape-head}
use rust_smart_contract.Std.BTree.Insert.Inserted.{
  present-Inserted, leaf-Inserted, insert_at-sorted_insert,
}
use rust_smart_contract.Std.BTree.Insert.Below.{get_elem-keys_under}
use rust_smart_contract.Std.BTree.Insert.SplitChild.{split_child-Splits}
use rust_smart_contract.Std.BTree.Insert.Heads.{firsts-Apart, All-get}
use rust_smart_contract.Std.BTree.Insert.Runs.{Inserts, run_below, run_found, run_leaf}
use rust_smart_contract.Std.BTree.Insert.Into.{Recursion, into_child, into_full}

module _ {ℓ} {K : Type ℓ} ⦃o : Ord K⦄ where
  leaf_run :
      (degree fuel i : ℕ) (set : StateBTreeSet K) (id : NodeId) (node : Node K) (key : K)
      → get_node id set ≡ some node
      → Shape 0 set node
      → Unused set
      → binary_search node.keys key ≡ missing i
      → elem key node.keys ≡ false
      → Inserts degree (suc fuel) 0 set id node.keys key
  leaf_run degree fuel i set id node key g s u e out = (
    true,
    store_node id (record node { keys = sorted_insert key node.keys }) set,
    run_leaf degree fuel set id node key g i (sorted_insert key node.keys) e (ground (arith, s.1))
        (insert_at-sorted_insert node.keys key i e),
    leaf-Inserted set id node key g s u out,
  )

  leaf_keys : (set : StateBTreeSet K) (node : Node K) → node.keys ≡ in_order 0 set node
  unfolding in_order
  leaf_keys set node = refl

  elem-nil : (x : K) → elem x [] ≡ false
  unfolding elem
  elem-nil x = refl

  -- a node and its child are stored under different ids
  child_differs :
      (h i : ℕ) (set : StateBTreeSet K) (id cid : NodeId) (node child : Node K)
      → get_node id set ≡ some node
      → get_node cid set ≡ some child
      → get_elem? node.children i ≡ some cid
      → Shape (suc h) set node
      → Shape h set child
      → Sorted (in_order (suc h) set node)
      → id ≢ cid
  child_differs h i set id cid node child g gc c s sc sorted =
      let apart =
        firsts-Apart node.keys (subtrees (suc h) set node) (length-subtrees (suc h) set node s)
          (subst Sorted (in_order-subtrees (suc h) set node) sorted) in
      let slot =
        get_elem-keys_under h set node.children i cid c
        ∙ ap (λ (t : List K). some t) (keys_under-some h set cid child gc) in
      let (k, first, out) =
        Shape-head (λ y. elem y (first_of node.keys) ≡ false) h set child sc
          (All-get (Apart (first_of node.keys)) _ i (in_order h set child) slot apart) in
      ids_differ set id cid node child k g gc first out

  full_length :
      (degree : ℕ) (child : Node K)
      → is_full degree child ≡ true
      → length child.keys ≡ maximum_key_len degree
  full_length degree child e = ground (arith, e)

  -- `insert_non_full` returns, whatever the key is, if the fuel exceeds the height.
  pub insert_non_full-Inserts :
      (degree fuel h : ℕ) (set : StateBTreeSet K) (id : NodeId) (node : Node K) (key : K)
      → 2 ≤ degree
      → h < fuel
      → get_node id set ≡ some node
      → Shape h set node
      → Sorted (in_order h set node)
      → Unused set
      → set.next_node_id + h < 2 ^ 64
      → Inserts degree fuel h set id (in_order h set node) key
  insert_non_full-Inserts degree zero h set id node key d f g s sorted u n = ground arith
  insert_non_full-Inserts degree (suc fuel) zero set id node key d f g s sorted u n =
      elim (search-Step 0 set node key s sorted) [
        | inl (i, e, here, _) ↦ (
          false,
          set,
          run_found degree fuel set id node key g i e,
          present-Inserted 0 set id node key g s sorted u
              (ap (elem key) (in_order-subtrees 0 set node) ∙ here.1),
        )
        | inr (i, e, (bound, low, high), l, (view, (leaf, empty, _), _)) ↦
            let ls = subtrees 0 set node in
            let out : elem key node.keys ≡ false =
              ap (elem key) (leaf_keys set node ∙ view)
              ∙ elem-cut key (before i node.keys ls) l (after i node.keys ls) low high
              ∙ ap (elem key) empty
              ∙ elem-nil key in
            subst (λ (t : List K). Inserts degree (suc fuel) 0 set id t key) (leaf_keys set node)
              (leaf_run degree fuel i set id node key g s u e out)
      ]
  insert_non_full-Inserts degree (suc fuel) (suc h) set id node key d f g s sorted u n =
      elim (search-Step (suc h) set node key s sorted) [
        | inl (i, e, here, _) ↦ (
          false,
          set,
          run_found degree fuel set id node key g i e,
          present-Inserted (suc h) set id node key g s sorted u
              (ap (elem key) (in_order-subtrees (suc h) set node) ∙ here.1),
        )
        | inr (i, e, (bound, low, high), l, (view, (leaf, (child, gc, shape, keys)), below)) ↦
            let (cid, c, at) = child_id set node child i gc in
            let rec : Recursion degree fuel h key = λ set id node g s sorted u n.
              insert_non_full-Inserts degree fuel h set id node key d (omega arith) g s sorted u
                n in
            elim (Bool-cases (is_full degree child)) [
              | inl full ↦
                  into_full degree fuel h i set id cid node child key rec g at s e c sorted full n
                    bound
                    (split_child-Splits degree h i set id cid node child d
                      (full_length degree child full) g at
                      (child_differs h i set id cid node child g at c s shape sorted) u
                      (omega (arith, n)) s.1 s.2 c shape
                      (subst Sorted (in_order-subtrees (suc h) set node) sorted))
              | inr full ↦
                  let (b, set', r, ins, last) =
                    into_child degree fuel h i set id cid node key rec g s sorted u
                      (omega (arith, n)) e bound c in
                  (
                    b,
                    set',
                    run_below degree fuel set id node key g i cid child e leaf c at full ∙ r,
                    ins,
                  )
            ]
      ]
