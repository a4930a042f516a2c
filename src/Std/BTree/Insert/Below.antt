-- ===== src/Std/BTree/Insert/Below.antt =====
-- Inserting in a child inserts in the node (concordium-std/src/state_btree.rs:
-- `insert_non_full`).
use rust_smart_contract.Std.BTree.Iter.Laws.{key_at}
use mathlib.Core.Path.{subst}
use rust_smart_contract.Base.{
  ℕ, zero, suc, ◌≡◌, sym, ap, ◌∙◌, Bool, false, not, some, List, [], ◌∷◌, ◌++◌, map, All, get_elem?,
  arith,
}
use rust_smart_contract.Std.Ord.{Ord}
use rust_smart_contract.Std.BTree.Sorted.{
  Sorted, elem, elem-append, sorted_insert, sorted_insert-Below, sorted_insert-Above, Below, Above,
}
use rust_smart_contract.Std.BTree.Node.{
  Node, NodeId, StateBTreeSet, get_node, missing, binary_search,
}
use rust_smart_contract.Std.BTree.View.{weave, before, after, weave_at, in_order, Shape}
use rust_smart_contract.Std.BTree.Search.Descend.{
  keys_under, subtrees, in_order-subtrees, length-subtrees,
}
use rust_smart_contract.Std.BTree.Search.Locate.{missing-Between}
use rust_smart_contract.Std.BTree.Search.Contains.{elem-cut}
use rust_smart_contract.Std.BTree.Slots.{
  weave_set, sides-keys, slots-Apart, Apart-left, Apart-right,
}
use rust_smart_contract.Std.BTree.Frame.{Frame-but, Frame-more, keys_under-some}
use rust_smart_contract.Std.BTree.Insert.Inserted.{Inserted, some_inj}

module _ {ℓ} {K : Type ℓ} ⦃o : Ord K⦄ where
  All-at {κ} : (P : K → Type κ) (l : List K) (k : K) → All P l → get_elem? l 0 ≡ some k → P k
  All-at P [] k a e = ground arith
  All-at P (j ∷ l) k a e = subst P (some_inj j k e) a.0

  -- the subtree under one id of a list
  pub get_elem-keys_under :
      (h : ℕ) (set : StateBTreeSet K) (ids : List NodeId) (i : ℕ) (cid : NodeId)
      → get_elem? ids i ≡ some cid
      → get_elem? (map (keys_under h set) ids) i ≡ some (keys_under h set cid)
  get_elem-keys_under h set [] i cid e = ground arith
  get_elem-keys_under h set (id ∷ ids) zero cid e =
      ap (λ (x : NodeId). some (keys_under h set x)) (some_inj id cid e)
  get_elem-keys_under h set (id ∷ ids) (suc i) cid e = get_elem-keys_under h set ids i cid e

  sorted_insert-cut :
      (key : K) (a l b : List K)
      → Below key a
      → Above key b
      → sorted_insert key (a ++ (l ++ b)) ≡ a ++ (sorted_insert key l ++ b)
  sorted_insert-cut key a l b low high =
      sorted_insert-Below key a (l ++ b) low
      ∙ ap (λ (t : List K). a ++ t) (sorted_insert-Above key l b high)

  pub elem-middle : (k : K) (a l b : List K) → elem k (a ++ (l ++ b)) ≡ false → elem k l ≡ false
  elem-middle k a l b e = grind (arith, elem-append k a (l ++ b), elem-append k l b)

  -- Inserting in the subtree where the search of a node ends inserts in the node's subtree.
  pub below-Inserted :
      (h i : ℕ) (set set' : StateBTreeSet K) (id cid : NodeId) (node : Node K) (key : K) (b : Bool)
      → get_node id set ≡ some node
      → Shape (suc h) set node
      → Sorted (in_order (suc h) set node)
      → get_elem? node.children i ≡ some cid
      → binary_search node.keys key ≡ missing i
      → Inserted h set cid (keys_under h set cid) key b set'
      → Inserted (suc h) set id (in_order (suc h) set node) key b set'
  below-Inserted h i set set' id cid node key b g s sorted c e
        ((child, gc, sc, keys), new, f, u, next, root, len) =
      let ls = subtrees (suc h) set node in
      let l = keys_under h set cid in
      let enough = length-subtrees (suc h) set node s in
      let at = get_elem-keys_under h set node.children i cid c in
      let (bound, low, high) =
        missing-Between node.keys ls key i enough
          (subst Sorted (in_order-subtrees (suc h) set node) sorted) e in
      let view = in_order-subtrees (suc h) set node ∙ weave_at i node.keys ls l enough at in
      let cut = subst Sorted view sorted in
      let (kids, same) =
        Frame-but h i set set' l node.children cid f s.2 c
          (slots-Apart i node.keys ls l enough bound cut) (child, gc, sc) in
      let left = before i node.keys ls in
      let right = after i node.keys ls in
      let first = λ (k : K) (x : get_elem? node.keys 0 ≡ some k).
        All-at (λ y. elem y l ≡ false) node.keys k
          (sides-keys (λ y. elem y l ≡ false) i node.keys ls enough bound
            (Apart-left left l right cut) (Apart-right left l right cut))
          x in
      let (k, here) = key_at node.keys 0 s.0 in
      let under = keys_under-some h set' cid child gc ∙ keys in
      (
        (
          node,
          f id node k g here (first k here),
          (s.0, s.1, kids),
          in_order-subtrees (suc h) set' node
              ∙ ap (weave node.keys) same
              ∙ weave_set i node.keys ls (keys_under h set' cid) enough bound
              ∙ ap (λ (t : List K). left ++ (t ++ right)) under
              ∙ sym (sorted_insert-cut key left l right low high)
              ∙ sym (ap (sorted_insert key) view),
        ),
        new ∙ ap not (sym (ap (elem key) view ∙ elem-cut key left l right low high)),
        Frame-more set set' l (in_order (suc h) set node)
            (λ k out. elem-middle k left l right (sym (ap (elem k) view) ∙ out)) f,
        u,
        omega (arith, next),
        root,
        len,
      )
