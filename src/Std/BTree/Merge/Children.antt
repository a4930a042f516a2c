-- ===== src/Std/BTree/Merge/Children.antt =====
-- `merge_children` keeps the keys of the parent's subtree and their order
-- (concordium-std/src/state_btree.rs).
use mathlib.Core.Path.{subst}
use rust_smart_contract.Base.{
  ℕ, suc, ◌+◌, ◌≤◌, ◌≡◌, sym, ap, ◌∙◌, false, none, some, List, ◌∷◌, ◌++◌, map, All, length,
  length-append, get_elem?, arith,
}
use rust_smart_contract.Std.Ord.{Ord}
use rust_smart_contract.Std.BTree.Sorted.{Sorted, elem, elem-append}
use rust_smart_contract.Std.BTree.Node.{Node, NodeId, StateBTreeSet, get_node}
use rust_smart_contract.Std.BTree.View.{weave, in_order, Shape}
use rust_smart_contract.Std.BTree.Search.Descend.{
  keys_under, length-map, get_elem_bound, in_order-subtrees,
}
use rust_smart_contract.Std.BTree.Slots.{Apart, AllBut, set_at, slots-Apart, weave_set}
use rust_smart_contract.Std.BTree.Frame.{Frame, Kid, Frame-but, keys_under-some}
use rust_smart_contract.Std.BTree.Insert.Split.{first_of}
use rust_smart_contract.Std.BTree.Insert.Heads.{
  All-get, both_Apart, within_Apart, both_AllBut, child_kids, first_of-weave,
}
use rust_smart_contract.Std.BTree.Remove.{merge_children}
use rust_smart_contract.Std.BTree.Merge.{
  All-removed, get_elem-removed, length-removed, map-removed, weave_merge, merged, merge_parent,
}
use rust_smart_contract.Std.BTree.Merge.Kept.{
  merge_set, merge-parent, merge-child, merge-larger, merge_children_eq, merged-Shape, merge-Frame,
}
use rust_smart_contract.Std.BTree.Merge.Siblings.{
  Siblings, slots, enough, bound, keys_all, woven, child_slot, larger_slot, slot-Sorted,
  larger-Apart, child-Apart, heads_Apart, heads_of, head_of_slot, parent_not, siblings_differ,
}

module _ {ℓ} {K : Type ℓ} ⦃o : Ord K⦄ where
  -- What `merge_children` returns and leaves, for the children at `i` and `i + 1` of a node above
  -- height `h`.
  abbrev pub Merges :
      ℕ → ℕ → StateBTreeSet K → NodeId → NodeId → NodeId → Node K → Node K → Node K → Type ℓ
  Merges h i set id cid lid node child larger =
      (parent : Node K) × (child' : Node K) × (set' : StateBTreeSet K) × (merge_children set id node
          i cid child larger
        ≡ some (cid, set'))
      × (get_node id set' ≡ some parent)
      × (get_node cid set' ≡ some child')
      × (get_node lid set' ≡ none)
      × (get_elem? parent.children i ≡ some cid)
      × (suc (length parent.keys) ≡ length node.keys)
      × (length parent.children ≡ suc (length parent.keys))
      × All (Kid h set') parent.children
      × (length child'.keys ≡ suc (length child.keys + length larger.keys))
      × (in_order (suc h) set' parent ≡ in_order (suc h) set node)
      × Frame set set' (in_order (suc h) set node)

  apart_of :
      (y k : K) (a b : List K)
      → elem y (a ++ k ∷ b) ≡ false
      → (elem y a ≡ false) × (elem y b ≡ false)
  unfolding elem
  apart_of y k a b out =
      (grind (arith, elem-append y a (k ∷ b)), grind (arith, elem-append y a (k ∷ b)))

  module _ {h i : ℕ} {set : StateBTreeSet K} {id cid lid : NodeId} {node child larger : Node K}
      (sib : Siblings h i set id cid lid node child larger) where
    module _ (k : K) (at : get_elem? node.keys i ≡ some k) where
      abbrev parent' : Node K
      parent' = merge_parent i node

      abbrev child' : Node K
      child' = merged child k larger

      abbrev set' : StateBTreeSet K
      set' = merge_set set id cid lid parent' child'

      abbrev keys_merged : List K
      keys_merged = (in_order h set child) ++ k ∷ (in_order h set larger)

      Frame-of :
          (l : List K)
          → ((y : K)
              → elem y l ≡ false
              → (elem y (first_of child.keys) ≡ false)
                × (elem y (first_of larger.keys) ≡ false)
                × (elem y (first_of node.keys) ≡ false))
          → Frame set set' l
      Frame-of l =
          merge-Frame set id cid lid node child larger parent' child' l sib.parent_here
            sib.child_here sib.larger_here

      child_kept : Shape h set' child' × (in_order h set' child' ≡ keys_merged)
      child_kept =
          merged-Shape h set set' child larger k sib.child_Shape sib.larger_Shape
            (child_kids h set set' child (first_of larger.keys ++ first_of node.keys)
              sib.child_Shape (slot-Sorted sib i (in_order h set child) (child_slot sib))
              (both_Apart (first_of larger.keys) (first_of node.keys) (in_order h set child)
                (within_Apart (first_of larger.keys) (in_order h set larger) (in_order h set child)
                  (heads_of sib larger sib.larger_Shape) (child-Apart sib))
                (All-get (Apart (first_of node.keys)) (slots h set node) i (in_order h set child)
                  (child_slot sib) (heads_Apart sib)))
              (Frame-of _ λ y out. grind (
                arith,
                elem-append y (first_of child.keys) (first_of larger.keys ++ first_of node.keys),
                elem-append y (first_of larger.keys) (first_of node.keys),
              )))
            (child_kids h set set' larger (first_of child.keys ++ first_of node.keys)
              sib.larger_Shape (slot-Sorted sib (suc i) (in_order h set larger) (larger_slot sib))
              (both_Apart (first_of child.keys) (first_of node.keys) (in_order h set larger)
                (within_Apart (first_of child.keys) (in_order h set child) (in_order h set larger)
                  (heads_of sib child sib.child_Shape) (larger-Apart sib))
                (All-get (Apart (first_of node.keys)) (slots h set node) (suc i)
                  (in_order h set larger) (larger_slot sib) (heads_Apart sib)))
              (Frame-of _ λ y out. grind (
                arith,
                elem-append y (first_of larger.keys) (first_of child.keys ++ first_of node.keys),
                elem-append y (first_of child.keys) (first_of node.keys),
              )))

      -- the (slots h set node) of the parent that stay
      abbrev rest : List (List K)
      rest = map (keys_under h set) parent'.children

      rest_enough : length rest ≡ suc (length parent'.keys)
      rest_enough = omega (
        arith,
        length-map (keys_under h set) parent'.children,
        length-removed (suc i) node.children
            (get_elem_bound node.children (suc i) lid sib.larger_at),
        length-removed i node.keys (bound sib),
        sib.shape.1,
      )

      woven_rest :
          weave parent'.keys (set_at i keys_merged rest) ≡ weave node.keys (slots h set node)
      woven_rest =
          ap (λ (t : List (List K)). weave parent'.keys (set_at i keys_merged t))
            (map-removed (keys_under h set) (suc i) node.children)
          ∙ weave_merge i node.keys k (slots h set node) (in_order h set child)
              (in_order h set larger) (enough sib) at (child_slot sib) (larger_slot sib)

      index_bound : i ≤ length parent'.keys
      index_bound = omega (arith, length-removed i node.keys (bound sib), (bound sib))

      merged-Apart : AllBut i (Apart keys_merged) rest
      merged-Apart = slots-Apart i parent'.keys rest keys_merged rest_enough index_bound (
          subst Sorted (weave_set i parent'.keys rest keys_merged rest_enough index_bound)
            (subst Sorted (sym woven_rest) (woven sib)))

      heads_merged :
          (y : K)
          → elem y keys_merged ≡ false
          → elem y (first_of child.keys ++ first_of larger.keys) ≡ false
      heads_merged y out =
          let (p, q) = apart_of y k (in_order h set child) (in_order h set larger) out in
          grind (
            arith,
            elem-append y (first_of child.keys) (first_of larger.keys),
            heads_of sib child sib.child_Shape y p,
            heads_of sib larger sib.larger_Shape y q,
          )

      kids_after :
          All (Kid h set') parent'.children
          × (map (keys_under h set') parent'.children ≡ set_at i (keys_under h set' cid) rest)
      kids_after =
          Frame-but h i set set'
            ((first_of child.keys ++ first_of larger.keys) ++ first_of node.keys) parent'.children
            cid
            (Frame-of _ λ y out. grind (
              arith,
              elem-append y (first_of child.keys ++ first_of larger.keys) (first_of node.keys),
              elem-append y (first_of child.keys) (first_of larger.keys),
            ))
            (All-removed (Kid h set) (suc i) node.children sib.shape.2)
            (get_elem-removed i cid node.children sib.child_at)
            (both_AllBut i (first_of child.keys ++ first_of larger.keys) (first_of node.keys)
              keys_merged rest heads_merged merged-Apart
              (subst (All (Apart (first_of node.keys)))
                (sym (map-removed (keys_under h set) (suc i) node.children))
                (All-removed (Apart (first_of node.keys)) (suc i) (slots h set node)
                  (heads_Apart sib))))
            (
              child',
              merge-child set id cid lid parent' child'
                  (parent_not sib cid child i sib.child_here sib.child_Shape (child_slot sib)),
              child_kept.0,
            )

      parent-in_order : in_order (suc h) set' parent' ≡ in_order (suc h) set node
      parent-in_order =
          in_order-subtrees (suc h) set' parent'
          ∙ ap (weave parent'.keys) kids_after.1
          ∙ ap (λ (t : List K). weave parent'.keys (set_at i t rest))
              (keys_under-some h set' cid child' (
                  merge-child set id cid lid parent' child'
                    (parent_not sib cid child i sib.child_here sib.child_Shape (child_slot sib)))
                ∙ child_kept.1)
          ∙ woven_rest
          ∙ sym (keys_all sib)

      Frame-keys : Frame set set' (in_order (suc h) set node)
      Frame-keys = Frame-of (in_order (suc h) set node) λ y out. (
        head_of_slot sib i child sib.child_Shape (child_slot sib) y out,
        head_of_slot sib (suc i) larger sib.larger_Shape (larger_slot sib) y out,
        first_of-weave y node.keys (slots h set node) (enough sib)
            (sym (ap (elem y) (keys_all sib)) ∙ out),
      )

  -- `merge_children` of the children at `i` and `i + 1` of a stored node, whose subtree has
  -- increasing keys and is at height `h + 1`, returns the id of the child at `i`. In the set that
  -- it leaves, the larger child is gone; the parent has one key less, one child more than keys,
  -- and still the child at `i`; all its children are stored subtrees of height `h`; the merged
  -- child has as many keys as both and one more. The keys of the parent's subtree, in order, are
  -- those of before, and no stored node whose first key is not one of them changed.
  pub merge_children-Merges :
      (h i : ℕ) (set : StateBTreeSet K) (id cid lid : NodeId) (node child larger : Node K)
      → get_node id set ≡ some node
      → get_node cid set ≡ some child
      → get_node lid set ≡ some larger
      → Shape (suc h) set node
      → get_elem? node.children i ≡ some cid
      → get_elem? node.children (suc i) ≡ some lid
      → Shape h set child
      → Shape h set larger
      → Sorted (in_order (suc h) set node)
      → Merges h i set id cid lid node child larger
  merge_children-Merges h i set id cid lid node child larger g gc gl shape c d sc sl sorted =
      let sib : Siblings h i set id cid lid node child larger = record {
        parent_here = g;
        child_here = gc;
        larger_here = gl;
        shape = shape;
        child_at = c;
        larger_at = d;
        child_Shape = sc;
        larger_Shape = sl;
        increases = sorted;
      } in
      let (k, at, run) =
        merge_children_eq i set id cid lid node child larger (bound sib) sib.larger_at in
      let not_child = parent_not sib cid child i sib.child_here sib.child_Shape (child_slot sib) in
      (
        merge_parent i node,
        merged child k larger,
        set' sib k at,
        run,
        merge-parent set id cid lid (merge_parent i node) (merged child k larger),
        merge-child set id cid lid (merge_parent i node) (merged child k larger) not_child,
        merge-larger set id cid lid (merge_parent i node) (merged child k larger)
            (parent_not sib lid larger (suc i) sib.larger_here sib.larger_Shape (larger_slot sib))
            (siblings_differ sib),
        get_elem-removed i cid node.children sib.child_at,
        length-removed i node.keys (bound sib),
        omega (
          arith,
          length-removed (suc i) node.children
              (get_elem_bound node.children (suc i) lid sib.larger_at),
          length-removed i node.keys (bound sib),
          sib.shape.1,
        ),
        (kids_after sib k at).0,
        omega (arith, length-append child.keys (k ∷ larger.keys)),
        parent-in_order sib k at,
        Frame-keys sib k at,
      )
