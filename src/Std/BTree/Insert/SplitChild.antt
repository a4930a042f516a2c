-- ===== src/Std/BTree/Insert/SplitChild.antt =====
-- `split_child` keeps the keys of the parent's subtree and their order
-- (concordium-std/src/state_btree.rs).
use mathlib.Core.Path.{subst}
use rust_smart_contract.Base.{
  ℕ, suc, ◌+◌, ◌^◌, ◌≤◌, ◌<◌, ◌≡◌, ◌≢◌, refl, sym, ap, ◌∙◌, true, false, some, List, ◌∷◌, ◌++◌, map,
  All, length, get_elem?, arith,
}
use rust_smart_contract.Std.Ord.{Ord}
use rust_smart_contract.Std.BTree.Sorted.{Sorted, elem, elem-append, Sorted-right, Sorted-prefix}
use rust_smart_contract.Std.BTree.Node.{
  Node, NodeId, StateBTreeSet, get_node, maximum_key_len, store_node, create_node,
}
use rust_smart_contract.Std.BTree.View.{weave, before, after, weave_at, in_order, Shape}
use rust_smart_contract.Std.BTree.Search.Descend.{
  keys_under, length-map, get_elem_bound, subtrees, in_order-subtrees, length-subtrees,
}
use rust_smart_contract.Std.BTree.Slots.{Apart, set_at, slots-Apart}
use rust_smart_contract.Std.BTree.Frame.{Frame, Kid, Unused, Frame-but, keys_under-some}
use rust_smart_contract.Std.BTree.Insert.Below.{get_elem-keys_under, elem-middle}
use rust_smart_contract.Std.BTree.Insert.{split_child}
use rust_smart_contract.Std.BTree.Insert.Cut.{
  added, weave_split, All-added, length-added, get_elem-added, get_elem-added_before,
}
use rust_smart_contract.Std.BTree.Insert.Split.{
  split_set, first_of, split-parent, split-child, split-larger, split-next, split-Frame,
  split-Unused, used,
}
use rust_smart_contract.Std.BTree.Insert.Halves.{
  Halves, full-Halves, split_parent, split_child_eq, Halves-in_order,
}
use rust_smart_contract.Std.BTree.Insert.Heads.{
  All-get, both_AllBut, child_kids, elem-first, first_of-weave, firsts-Apart, map-added,
}

module _ {ℓ} {K : Type ℓ} ⦃o : Ord K⦄ where
  -- What `split_child` returns and leaves, on the parent and the full child at an index.
  abbrev pub Splits : ℕ → ℕ → ℕ → StateBTreeSet K → NodeId → NodeId → Node K → Node K → Type ℓ
  Splits degree h i set id cid node child =
      let keys = weave node.keys (map (keys_under h set) node.children) in
      let next = set.next_node_id in
      (parent : Node K) × (k : K) × (set' : StateBTreeSet K) × (split_child degree id node i cid
          child set
        ≡ some (parent, next, set'))
      × (get_node id set' ≡ some parent)
      × Shape (suc h) set' parent
      × (in_order (suc h) set' parent ≡ keys)
      × (parent.keys ≡ added i k node.keys)
      × (get_elem? parent.children i ≡ some cid)
      × (get_elem? parent.children (suc i) ≡ some next)
      × Frame set set' keys
      × Unused set'
      × (set'.next_node_id ≡ next + 1)
      × (set'.root ≡ set.root)
      × (set'.len ≡ set.len)
      × (elem k child.keys ≡ true)

  module _ (degree h i : ℕ) (set : StateBTreeSet K) (id cid : NodeId) (node child : Node K)
      (d : 2 ≤ degree) (full : length child.keys ≡ maximum_key_len degree)
      (g : get_node id set ≡ some node) (gc : get_node cid set ≡ some child) (diff : id ≢ cid)
      (u : Unused set) (b : set.next_node_id + 1 < 2 ^ 64)
      (len : length node.children ≡ suc (length node.keys)) (kids : All (Kid h set) node.children)
      (c : get_elem? node.children i ≡ some cid) (sc : Shape h set child)
      (sorted : Sorted (weave node.keys (map (keys_under h set) node.children))) where
    -- the keys below the parent, and below the child
    abbrev all_keys : List K
    all_keys = weave node.keys (map (keys_under h set) node.children)

    index_bound : i ≤ length node.keys
    index_bound = omega (arith, get_elem_bound node.children i cid c, len)

    slots_enough : length (map (keys_under h set) node.children) ≡ suc (length node.keys)
    slots_enough = length-map (keys_under h set) node.children ∙ len

    child_slot : get_elem? (map (keys_under h set) node.children) i ≡ some (in_order h set child)
    child_slot =
        get_elem-keys_under h set node.children i cid c
        ∙ ap (λ (t : List K). some t) (keys_under-some h set cid child gc)

    around :
        all_keys
        ≡ before i node.keys (map (keys_under h set) node.children)
          ++ (in_order h set child ++ after i node.keys (map (keys_under h set) node.children))
    around =
        weave_at i node.keys (map (keys_under h set) node.children) (in_order h set child)
          slots_enough child_slot

    child-Sorted : Sorted (in_order h set child)
    child-Sorted =
        Sorted-prefix (in_order h set child) _ (Sorted-right _ _ (subst Sorted around sorted))

    heads_Apart : All (Apart (first_of node.keys)) (map (keys_under h set) node.children)
    heads_Apart = firsts-Apart node.keys _ slots_enough sorted

    child_heads :
        (y : K) → elem y (in_order h set child) ≡ false → elem y (first_of child.keys) ≡ false
    child_heads y e =
        first_of-weave y child.keys (subtrees h set child) (length-subtrees h set child sc)
          (sym (ap (elem y) (in_order-subtrees h set child)) ∙ e)

    module _ (kept larger : Node K) (k : K) (halves : Halves h child kept k larger) where
      abbrev new_parent : Node K
      new_parent = split_parent node i k set.next_node_id

      abbrev new_set : StateBTreeSet K
      new_set = split_set set id cid new_parent kept larger

      Frame-of :
          (l : List K)
          → ((y : K)
              → elem y l ≡ false
              → (elem y (first_of child.keys) ≡ false) × (elem y (first_of node.keys) ≡ false))
          → Frame set new_set l
      Frame-of = split-Frame set id cid node child new_parent kept larger g gc u

      Frame-heads : Frame set new_set (first_of child.keys ++ first_of node.keys)
      Frame-heads =
          Frame-of _
            λ y out. grind (arith, elem-append y (first_of child.keys) (first_of node.keys))

      Frame-keys : Frame set new_set all_keys
      Frame-keys = Frame-of all_keys λ y out. (
        child_heads y (elem-middle y _ (in_order h set child) _ (sym (ap (elem y) around) ∙ out)),
        first_of-weave y node.keys _ slots_enough out,
      )

      halves_Shape :
          Shape h new_set kept
          × Shape h new_set larger
          × (in_order h set child ≡ in_order h new_set kept ++ k ∷ in_order h new_set larger)
      halves_Shape = Halves-in_order h set new_set child kept k larger halves sc (
          child_kids h set new_set child (first_of node.keys) sc child-Sorted
            (All-get (Apart (first_of node.keys)) _ i _ child_slot heads_Apart) Frame-heads)

      kids_after :
          All (Kid h new_set) node.children
          × (map (keys_under h new_set) node.children
              ≡ set_at i (keys_under h new_set cid) (map (keys_under h set) node.children))
      kids_after =
          Frame-but h i set new_set (first_of child.keys ++ first_of node.keys) node.children cid
            Frame-heads kids c
            (both_AllBut i (first_of child.keys) (first_of node.keys) (in_order h set child) _
              child_heads
              (slots-Apart i node.keys _ (in_order h set child) slots_enough index_bound
                (subst Sorted around sorted))
              heads_Apart)
            (kept, split-child set id cid new_parent kept larger diff, halves_Shape.0)

      larger_at : get_node set.next_node_id new_set ≡ some larger
      larger_at =
          split-larger set id cid new_parent kept larger
            (used set id cid node child new_parent kept larger g gc u id node g)
            (used set id cid node child new_parent kept larger g gc u cid child gc)

      parent_Shape : Shape (suc h) new_set new_parent
      parent_Shape = (
        omega (arith, length-added i k node.keys),
        omega (
          arith,
          length-added i k node.keys,
          length-added (suc i) set.next_node_id node.children,
          len,
        ),
        All-added (Kid h new_set) (suc i) set.next_node_id node.children
            (larger, larger_at, halves_Shape.1) kids_after.0,
      )

      moved_up : elem k child.keys ≡ true
      moved_up =
          ap (elem k) halves.0
          ∙ elem-append k kept.keys (k ∷ larger.keys)
          ∙ elem-first k (elem k kept.keys) larger.keys

      middle :
          keys_under h new_set cid ++ k ∷ keys_under h new_set set.next_node_id
          ≡ in_order h set child
      middle = grind (
        arith,
        keys_under-some h new_set cid kept (split-child set id cid new_parent kept larger diff),
        keys_under-some h new_set set.next_node_id larger larger_at,
        halves_Shape.2,
      )

      parent_in_order : in_order (suc h) new_set new_parent ≡ all_keys
      parent_in_order =
          let keys' : List K = added i k node.keys in
          let after' : NodeId → List K = keys_under h new_set in
          let slots : List (List K) = map (keys_under h set) node.children in
          in_order-subtrees (suc h) new_set new_parent
          ∙ ap (weave keys') (map-added after' (suc i) set.next_node_id node.children)
          ∙ ap (λ (t : List (List K)). weave keys' (added (suc i) (after' set.next_node_id) t))
              kids_after.1
          ∙ weave_split i node.keys k _ (after' cid) (after' set.next_node_id) slots_enough
              index_bound
          ∙ ap (λ (t : List K). before i node.keys slots ++ (t ++ after i node.keys slots)) middle
          ∙ sym around

    -- A split keeps the keys of the parent's subtree.
    pub split_child-Splits : Splits degree h i set id cid node child
    unfolding store_node create_node
    split_child-Splits =
        let (kept, k, larger, halves, run) = full-Halves h degree set child d sc full in
        (
          new_parent kept larger k halves,
          k,
          new_set kept larger k halves,
          split_child_eq degree i set id cid node child kept larger k run index_bound len,
          split-parent set id cid (new_parent kept larger k halves) kept larger,
          parent_Shape kept larger k halves,
          parent_in_order kept larger k halves,
          refl,
          get_elem-added_before i set.next_node_id cid node.children c,
          get_elem-added (suc i) set.next_node_id node.children
              (get_elem_bound node.children i cid c),
          Frame-keys kept larger k halves,
          split-Unused set id cid node child (new_parent kept larger k halves) kept larger g gc u b,
          split-next set id cid (new_parent kept larger k halves) kept larger b,
          refl,
          refl,
          moved_up kept larger k halves,
        )
