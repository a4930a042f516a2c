-- ===== src/Std/BTree/Merge/Siblings.antt =====
-- Two neighbouring children of a node: they are different nodes, and no key is below both
-- (concordium-std/src/state_btree.rs).
use mathlib.Core.Path.{subst}
use rust_smart_contract.Base.{
  ℕ, suc, ◌≤◌, ◌≡◌, ◌≢◌, sym, ap, ◌∙◌, false, some, List, ◌++◌, map, All, length, get_elem?, arith,
}
use rust_smart_contract.Std.Ord.{Ord}
use rust_smart_contract.Std.BTree.Sorted.{Sorted, elem, Sorted-right, Sorted-prefix}
use rust_smart_contract.Std.BTree.Node.{Node, NodeId, StateBTreeSet, get_node}
use rust_smart_contract.Std.BTree.View.{weave, before, after, weave_at, in_order, Shape}
use rust_smart_contract.Std.BTree.Search.Descend.{
  keys_under, get_elem_bound, subtrees, in_order-subtrees, length-subtrees,
}
use rust_smart_contract.Std.BTree.Slots.{Apart, slots-Apart}
use rust_smart_contract.Std.BTree.Frame.{keys_under-some, Shape-head}
use rust_smart_contract.Std.BTree.Insert.Below.{get_elem-keys_under, elem-middle}
use rust_smart_contract.Std.BTree.Insert.Split.{first_of, ids_differ}
use rust_smart_contract.Std.BTree.Insert.Heads.{All-get, within_Apart, first_of-weave, firsts-Apart}
use rust_smart_contract.Std.BTree.Merge.{AllBut-get}

module _ {ℓ} {K : Type ℓ} ⦃o : Ord K⦄ where
  -- The children `child` and `larger` at `i` and `i + 1` of a stored node at height `h + 1`, whose
  -- keys increase.
  pub record Siblings (h i : ℕ) (set : StateBTreeSet K) (id cid lid : NodeId)
      (node child larger : Node K) : Type ℓ where
    pub parent_here : get_node id set ≡ some node
    pub child_here : get_node cid set ≡ some child
    pub larger_here : get_node lid set ≡ some larger
    pub shape : Shape (suc h) set node
    pub child_at : get_elem? node.children i ≡ some cid
    pub larger_at : get_elem? node.children (suc i) ≡ some lid
    pub child_Shape : Shape h set child
    pub larger_Shape : Shape h set larger
    pub increases : Sorted (in_order (suc h) set node)

  -- the keys below the children
  abbrev pub slots : ℕ → StateBTreeSet K → Node K → List (List K)
  slots h set node = map (keys_under h set) node.children

  module _ {h i : ℕ} {set : StateBTreeSet K} {id cid lid : NodeId} {node child larger : Node K}
      (sib : Siblings h i set id cid lid node child larger) where
    pub enough : length (slots h set node) ≡ suc (length node.keys)
    enough = length-subtrees (suc h) set node sib.shape

    pub bound : suc i ≤ length node.keys
    bound = omega (arith, get_elem_bound node.children (suc i) lid sib.larger_at, sib.shape.1)

    pub keys_all : in_order (suc h) set node ≡ weave node.keys (slots h set node)
    keys_all = in_order-subtrees (suc h) set node

    pub woven : Sorted (weave node.keys (slots h set node))
    woven = subst Sorted keys_all sib.increases

    pub child_slot : get_elem? (slots h set node) i ≡ some (in_order h set child)
    child_slot =
        get_elem-keys_under h set node.children i cid sib.child_at
        ∙ ap (λ (t : List K). some t) (keys_under-some h set cid child sib.child_here)

    pub larger_slot : get_elem? (slots h set node) (suc i) ≡ some (in_order h set larger)
    larger_slot =
        get_elem-keys_under h set node.children (suc i) lid sib.larger_at
        ∙ ap (λ (t : List K). some t) (keys_under-some h set lid larger sib.larger_here)

    -- a slot among the keys
    around :
        (j : ℕ) (l : List K)
        → get_elem? (slots h set node) j ≡ some l
        → Sorted
            (before j node.keys (slots h set node) ++ (l ++ after j node.keys (slots h set node)))
    around j l e = subst Sorted (weave_at j node.keys (slots h set node) l enough e) woven

    pub slot-Sorted : (j : ℕ) (l : List K) → get_elem? (slots h set node) j ≡ some l → Sorted l
    slot-Sorted j l e = Sorted-prefix l _ (Sorted-right _ _ (around j l e))

    -- the keys below one child are not below the other
    pub larger-Apart : Apart (in_order h set child) (in_order h set larger)
    larger-Apart =
        AllBut-get (Apart (in_order h set child)) i (suc i) (in_order h set larger)
          (slots h set node) (λ e. omega (arith, e)) larger_slot
          (slots-Apart i node.keys (slots h set node) (in_order h set child) enough
            (omega (arith, bound)) (around i (in_order h set child) child_slot))

    pub child-Apart : Apart (in_order h set larger) (in_order h set child)
    child-Apart =
        AllBut-get (Apart (in_order h set larger)) (suc i) i (in_order h set child)
          (slots h set node) (λ e. omega (arith, e)) child_slot
          (slots-Apart (suc i) node.keys (slots h set node) (in_order h set larger) enough bound
            (around (suc i) (in_order h set larger) larger_slot))

    pub heads_Apart : All (Apart (first_of node.keys)) (slots h set node)
    heads_Apart = firsts-Apart node.keys (slots h set node) enough woven

    pub heads_of :
        (n : Node K)
        → Shape h set n
        → (y : K) → elem y (in_order h set n) ≡ false
        → elem y (first_of n.keys) ≡ false
    heads_of n s y e =
        first_of-weave y n.keys (subtrees h set n) (length-subtrees h set n s)
          (sym (ap (elem y) (in_order-subtrees h set n)) ∙ e)

    pub head_of_slot :
        (j : ℕ) (n : Node K)
        → Shape h set n
        → get_elem? (slots h set node) j ≡ some (in_order h set n)
        → (y : K) → elem y (in_order (suc h) set node) ≡ false
        → elem y (first_of n.keys) ≡ false
    head_of_slot j n s e y out = heads_of n s y (
        elem-middle y (before j node.keys (slots h set node)) (in_order h set n)
          (after j node.keys (slots h set node))
          (sym (ap (elem y) (keys_all ∙ weave_at j node.keys (slots h set node) _ enough e)) ∙ out))

    -- the three nodes are different
    pub parent_not :
        (x : NodeId) (n : Node K) (j : ℕ)
        → get_node x set ≡ some n
        → Shape h set n
        → get_elem? (slots h set node) j ≡ some (in_order h set n)
        → id ≢ x
    parent_not x n j e s at =
        let (k, first, out) =
          Shape-head (λ k. elem k (first_of node.keys) ≡ false) h set n s
            (All-get (Apart (first_of node.keys)) (slots h set node) j (in_order h set n) at
              heads_Apart) in
        ids_differ set id x node n k sib.parent_here e first out

    pub siblings_differ : cid ≢ lid
    siblings_differ =
        let (k, first, out) =
          Shape-head (λ k. elem k (first_of child.keys) ≡ false) h set larger sib.larger_Shape
            (within_Apart (first_of child.keys) (in_order h set child) (in_order h set larger)
              (heads_of child sib.child_Shape) larger-Apart) in
        ids_differ set cid lid child larger k sib.child_here sib.larger_here first out
