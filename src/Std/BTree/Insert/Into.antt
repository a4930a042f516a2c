-- ===== src/Std/BTree/Insert/Into.antt =====
-- `insert_non_full` puts the key in its place among the keys of the subtree
-- (concordium-std/src/state_btree.rs).
use rust_smart_contract.Std.BTree.Iter.Pending.{child_id}
use Prim.Native.Nat.Ordering.{eq}
use mathlib.Core.Path.{subst}
use rust_smart_contract.Base.{
  ℕ, zero, suc, ◌+◌, ◌^◌, ◌≤◌, ◌<◌, ◌≡◌, sym, ap, ◌∙◌, Bool, true, false, some, List, [], ◌∷◌,
  length, get_elem?, arith, inl, inr,
}
use rust_smart_contract.Std.Ord.{Ord, cmp-cases}
use rust_smart_contract.Std.BTree.Sorted.{Sorted, elem, elem-append}
use rust_smart_contract.Std.BTree.Node.{
  Node, NodeId, StateBTreeSet, get_node, is_full, is_leaf, binary_search, missing,
}
use rust_smart_contract.Std.BTree.View.{weave, in_order, Shape}
use rust_smart_contract.Std.BTree.Search.Descend.{
  subtrees, in_order-subtrees, length-subtrees, Cut-at,
}
use rust_smart_contract.Std.BTree.Frame.{Unused, Frame-trans, keys_under-some}
use rust_smart_contract.Std.BTree.Insert.{insert_non_full}
use rust_smart_contract.Std.BTree.Insert.Inserted.{Inserted, present-Inserted, some_inj}
use rust_smart_contract.Std.BTree.Insert.Below.{below-Inserted}
use rust_smart_contract.Std.BTree.Insert.Cut.{added, get_elem-added, length-added}
use rust_smart_contract.Std.BTree.Insert.SplitChild.{Splits}
use rust_smart_contract.Std.BTree.Insert.Runs.{
  Inserts, added-gt, added-lt, run_split_eq, run_split_gt, run_split_lt,
}

module _ {ℓ} {K : Type ℓ} ⦃o : Ord K⦄ where
  -- What the recursive call does, for every subtree of a height.
  abbrev pub Recursion : ℕ → ℕ → ℕ → K → Type ℓ
  Recursion degree fuel h key =
      (set : StateBTreeSet K) (id : NodeId) (node : Node K)
      → get_node id set ≡ some node
      → Shape h set node
      → Sorted (in_order h set node)
      → Unused set
      → set.next_node_id + h < 2 ^ 64
      → Inserts degree fuel h set id (in_order h set node) key

  -- the loop goes on in the child that the search of the node gives
  pub into_child :
      (degree fuel h i : ℕ) (set : StateBTreeSet K) (id cid : NodeId) (node : Node K) (key : K)
      → Recursion degree fuel h key
      → get_node id set ≡ some node
      → Shape (suc h) set node
      → Sorted (in_order (suc h) set node)
      → Unused set
      → set.next_node_id + h < 2 ^ 64
      → binary_search node.keys key ≡ missing i
      → i ≤ length node.keys
      → get_elem? node.children i ≡ some cid
      → (b : Bool) × (set' : StateBTreeSet K) × (insert_non_full degree fuel set cid key
          ≡ some (b, set'))
        × Inserted (suc h) set id (in_order (suc h) set node) key b set'
        × (set'.next_node_id ≤ set.next_node_id + h)
  into_child degree fuel h i set id cid node key rec g s sorted u n e bound c =
      let (l, (view, (leaf, (child, gc, shape, keys)), below)) =
        Cut-at (suc h) set node i s sorted bound in
      let (cid', c', at') = child_id set node child i gc in
      let at : get_node cid set ≡ some child =
        subst (λ x. get_node x set ≡ some child) (some_inj cid' cid (sym c' ∙ c)) at' in
      let (b, set', run, inserted) = rec set cid child at shape (subst Sorted keys below) u n in
      (
        b,
        set',
        run,
        below-Inserted h i set set' id cid node key b g s sorted c e (
            subst (λ (t : List K). Inserted h set cid t key b set')
              (sym (keys_under-some h set cid child at)) inserted),
        inserted.4,
      )

  -- What an insertion after a split did, seen from before the split.
  after_split :
      (degree h i : ℕ) (set set' : StateBTreeSet K) (id cid : NodeId) (node child : Node K)
      (key : K) (b : Bool) (split : Splits degree h i set id cid node child)
      → Inserted (suc h) split.2 id (in_order (suc h) split.2 split.0) key b set'
      → set'.next_node_id ≤ split.2.next_node_id + h
      → Inserted (suc h) set id (in_order (suc h) set node) key b set'
  after_split degree h i set set' id cid node child key b
        (parent, k, set1, run, g, s, view, keys, c, d, f, u, next, root, len, _)
        (there, new, frame, u', _, root', len') bound =
      let whole =
        subst (λ (t : List K). Inserted (suc h) set1 id t key b set') view
          (there, new, frame, u', omega (arith, bound), root', len') in
      subst (λ (t : List K). Inserted (suc h) set id t key b set')
        (sym (in_order-subtrees (suc h) set node))
        (
          whole.0,
          whole.1,
          Frame-trans set set1 set' _ f whole.2,
          u',
          omega (arith, bound, next),
          root' ∙ root,
          len' ∙ len,
        )

  elem-weave :
      (x : K) (ks : List K) (ls : List (List K))
      → length ls ≡ suc (length ks)
      → elem x ks ≡ true
      → elem x (weave ks ls) ≡ true
  unfolding weave elem
  elem-weave x [] ls h e = ground arith
  elem-weave x (k ∷ ks) [] h e = e
  elem-weave x (k ∷ ks) (l ∷ ls) h e =
      grind (arith, elem-append x l (k ∷ weave ks ls), elem-weave x ks ls (omega arith))

  elem-added : (x k : K) (i : ℕ) (ks : List K) → o.cmp k x ≡ eq → elem x (added i k ks) ≡ true
  unfolding elem
  elem-added x k zero ks e = grind (arith, e)
  elem-added x k (suc i) [] e = grind (arith, e)
  elem-added x k (suc i) (j ∷ ks) e = grind (arith, elem-added x k i ks e)

  parent_holds :
      (h : ℕ) (set : StateBTreeSet K) (parent : Node K) (key k : K) (i : ℕ) (ks : List K)
      → parent.keys ≡ added i k ks
      → Shape h set parent
      → o.cmp k key ≡ eq
      → elem key (in_order h set parent) ≡ true
  parent_holds h set parent key k i ks e s m =
      ap (elem key) (in_order-subtrees h set parent)
      ∙ elem-weave key parent.keys (subtrees h set parent) (length-subtrees h set parent s)
          (ap (elem key) e ∙ elem-added key k i ks m)

  -- The child is full: it is split, and the loop goes on in one of the halves.
  pub into_full :
      (degree fuel h i : ℕ) (set : StateBTreeSet K) (id cid : NodeId) (node child : Node K)
      (key : K)
      → Recursion degree fuel h key
      → get_node id set ≡ some node
      → get_node cid set ≡ some child
      → Shape (suc h) set node
      → binary_search node.keys key ≡ missing i
      → get_elem? node.children i ≡ some cid
      → Sorted (in_order (suc h) set node)
      → is_full degree child ≡ true
      → set.next_node_id + suc h < 2 ^ 64
      → i ≤ length node.keys
      → Splits degree h i set id cid node child
      → Inserts degree (suc fuel) (suc h) set id (in_order (suc h) set node) key
  into_full degree fuel h i set id cid node child key rec g gc s e c sorted full n bound split =
      let (parent, k, set1, run, g1, s1, view, keys, c1, d1, f, u1, next, root, len, _) = split in
      let sorted1 : Sorted (in_order (suc h) set1 parent) =
        subst Sorted (in_order-subtrees (suc h) set node ∙ sym view) sorted in
      let up : get_elem? parent.keys i ≡ some k =
        subst (λ (t : List K). get_elem? t i ≡ some k) (sym keys)
          (get_elem-added i k node.keys bound) in
      let size : length parent.keys ≡ suc (length node.keys) =
        ap length keys ∙ length-added i k node.keys in
      let leaf : is_leaf node ≡ false = ground (arith, s.1) in
      elim (cmp-cases k key) [
        | inl m ↦
            let at : binary_search parent.keys key ≡ missing (suc i) =
              subst (λ (t : List K). binary_search t key ≡ missing (suc i)) (sym keys)
                (added-lt node.keys k key i e m) in
            let (b, set', r, ins, last) =
              into_child degree fuel h (suc i) set1 id set.next_node_id parent key rec g1 s1 sorted1
                u1 (omega (arith, n, next)) at (omega (arith, size, bound)) d1 in
            (
              b,
              set',
              run_split_lt degree fuel set id node key g i cid child e leaf c gc parent
                    set.next_node_id set1 k full run up m
                  ∙ r,
              after_split degree h i set set' id cid node child key b split ins last,
            )
        | inr (inl m) ↦ (
          false,
          set1,
          run_split_eq degree fuel set id node key g i cid child e leaf c gc parent set.next_node_id
              set1 k full run up m,
          after_split degree h i set set1 id cid node child key false split
              (present-Inserted (suc h) set1 id parent key g1 s1 sorted1 u1
                (parent_holds (suc h) set1 parent key k i node.keys keys s1 m))
              (omega arith),
        )
        | inr (inr m) ↦
            let at : binary_search parent.keys key ≡ missing i =
              subst (λ (t : List K). binary_search t key ≡ missing i) (sym keys)
                (added-gt node.keys k key i e m) in
            let (b, set', r, ins, last) =
              into_child degree fuel h i set1 id cid parent key rec g1 s1 sorted1 u1
                (omega (arith, n, next)) at (omega (arith, size, bound)) c1 in
            (
              b,
              set',
              run_split_gt degree fuel set id node key g i cid child e leaf c gc parent
                    set.next_node_id set1 k full run up m
                  ∙ r,
              after_split degree h i set set' id cid node child key b split ins last,
            )
      ]
