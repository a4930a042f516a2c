-- ===== src/Std/BTree/Insert/FullRoot.antt =====
-- `insert` where the root is full: the root becomes a child of a new one
-- (concordium-std/src/state_btree.rs).
use Prim.Native.Nat.Ordering.{lt, gt}
use mathlib.Core.Path.{subst}
use rust_smart_contract.Base.{
  ℕ, suc, ◌+◌, ◌^◌, ◌≤◌, ◌<◌, ◌≡◌, ◌≢◌, refl, sym, ap, ◌∙◌, Bool, false, not, some, List, [], ◌∷◌,
  map, length, get_elem?, arith, inl, inr,
}
use rust_smart_contract.Base.Dict.{get?-insert_ne, get?-insert_self}
use rust_smart_contract.Std.Ord.{Ord, cmp-cases, ◌≺◌}
use rust_smart_contract.Std.BTree.Sorted.{
  Sorted, elem, sorted_insert, search_Above, Above-trans, Sorted-right,
}
use rust_smart_contract.Std.BTree.Node.{
  Node, NodeId, StateBTreeSet, get_node, create_node, fetch_and_add, maximum_key_len, binary_search,
  Search-cases, missing,
}
use rust_smart_contract.Std.BTree.View.{weave, in_order, Shape}
use rust_smart_contract.Std.BTree.Search.Descend.{
  keys_under, subtrees, in_order-subtrees, length-subtrees,
}
use rust_smart_contract.Std.BTree.Frame.{Frame, Unused, keys_under-some, Frame-Shape}
use rust_smart_contract.Std.BTree.Slots.{weave-keys}
use rust_smart_contract.Std.BTree.Insert.{split_child, insert_non_full, insert_full_root, count_new}
use rust_smart_contract.Std.BTree.Insert.Inserted.{Inserted}
use rust_smart_contract.Std.BTree.Insert.SplitChild.{Splits, split_child-Splits}
use rust_smart_contract.Std.BTree.Insert.Into.{Recursion, into_child}
use rust_smart_contract.Std.BTree.Insert.Root.{counted, Apart-none, named, count_new_lem}
use rust_smart_contract.Std.BTree.Tree.{Holds}

module _ {ℓ} {K : Type ℓ} ⦃o : Ord K⦄ where
  missing_elem :
      (ks : List K) (ls : List (List K)) (key : K) (i : ℕ)
      → length ls ≡ suc (length ks)
      → Sorted (weave ks ls)
      → binary_search ks key ≡ missing i
      → elem key ks ≡ false
  unfolding weave binary_search elem
  missing_elem [] ls key i h s e = refl
  missing_elem (k ∷ ks) [] key i h s e = ground arith
  missing_elem (k ∷ ks) (l ∷ ls) key i h s e =
      let (high, right) = Sorted-right l (k ∷ weave ks ls) s in
      elim (cmp-cases k key) [
        | inl c ↦ elim (Search-cases (binary_search ks key)) [
          | inl (j, f) ↦ ground (arith, c, f)
          | inr (j, f) ↦ grind (arith, c, missing_elem ks ls key j (omega arith) right f)
        ]
        | inr (inl c) ↦ ground (arith, c)
        | inr (inr c) ↦
            let above = weave-keys (λ y. k ≺ y) ks ls (omega arith) high in
            grind (arith, c, search_Above key ks (Above-trans key k ks (o.flip_gt k key c) above))
      ]

  -- the set with the new, empty root
  abbrev rooted : StateBTreeSet K → NodeId → StateBTreeSet K
  rooted set id = record (create_node [] (id ∷ []) set).1 {
    root = some (create_node {K = K} [] (id ∷ []) set).0;
  }

  abbrev empty_root : NodeId → Node K
  empty_root id = record { keys = []; children = id ∷ [] }

  module _ (set : StateBTreeSet K) (id : NodeId) (root : Node K) (g : get_node id set ≡ some root)
      (u : Unused set) (b : set.next_node_id + 1 < 2 ^ 64) where
    root_id_used : set.next_node_id ≢ id
    root_id_used same = ground (arith, u id (omega (arith, same)), g)

    rooted-new : get_node set.next_node_id (rooted set id) ≡ some (empty_root id)
    unfolding get_node create_node fetch_and_add
    rooted-new = get?-insert_self set.next_node_id (empty_root id) set.nodes

    rooted-old : get_node id (rooted set id) ≡ some root
    unfolding get_node create_node fetch_and_add
    rooted-old = get?-insert_ne set.next_node_id id (empty_root id) set.nodes root_id_used ∙ g

    rooted_facts :
        ((rooted set id).next_node_id ≡ set.next_node_id + 1)
        × ((rooted set id).root ≡ some set.next_node_id)
        × ((rooted set id).len ≡ set.len)
    unfolding create_node fetch_and_add
    rooted_facts = (omega (arith, b), refl, refl)

    rooted-Frame : Frame set (rooted set id) []
    unfolding get_node create_node fetch_and_add
    rooted-Frame x n k e first out =
        get?-insert_ne set.next_node_id x (empty_root id) set.nodes
          (λ same. ground (arith, u x (omega (arith, same)), e))
        ∙ e

    rooted-Unused : Unused (rooted set id)
    unfolding get_node create_node fetch_and_add
    rooted-Unused x c =
        get?-insert_ne set.next_node_id x (empty_root id) set.nodes
          (λ same. omega (arith, c, b, same))
        ∙ u x (omega (arith, c, b))

    -- what the set with the new root is, before and after the split
    rooted_slots :
        (h : ℕ)
        → Shape h set root
        → Shape h (rooted set id) root
          × (weave [] (map (keys_under h (rooted set id)) (id ∷ [])) ≡ in_order h set root)
    unfolding weave
    rooted_slots h s =
        let (s', same) =
          Frame-Shape h set (rooted set id) [] root rooted-Frame s
            (Apart-none (in_order h set root)) in
        (s', keys_under-some h (rooted set id) id root rooted-old ∙ same)

    rooted-Splits :
        (degree h : ℕ)
        → 2 ≤ degree
        → length root.keys ≡ maximum_key_len degree
        → Shape h set root
        → Sorted (in_order h set root)
        → set.next_node_id + 2 < 2 ^ 64
        → Splits degree h 0 (rooted set id) set.next_node_id id (empty_root id) root
    rooted-Splits degree h d full s sorted n =
        let (s', view) = rooted_slots h s in
        split_child-Splits degree h 0 (rooted set id) set.next_node_id id (empty_root id) root d
          full rooted-new rooted-old root_id_used rooted-Unused (omega (arith, rooted_facts.0, n))
          refl ((root, rooted-old, s'), tt) refl s' (subst Sorted (sym view) sorted)

    module _ (degree fuel : ℕ) (key k : K) (parent : Node K) (set1 : StateBTreeSet K)
        (run : split_child degree set.next_node_id (empty_root id) 0 id root (rooted set id)
          ≡ some (parent, (rooted set id).next_node_id, set1))
        (up : get_elem? parent.keys 0 ≡ some k) (r : Bool) (set' : StateBTreeSet K) where
      full_lt :
          o.cmp k key ≡ lt
          → insert_non_full degree fuel set1 (rooted set id).next_node_id key ≡ some (r, set')
          → insert_full_root degree fuel set id root key ≡ some (count_new (r, set'))
      unfolding insert_full_root create_node fetch_and_add
      full_lt c e = grind (arith, run, up, c, e)

      full_gt :
          o.cmp k key ≡ gt
          → insert_non_full degree fuel set1 id key ≡ some (r, set')
          → insert_full_root degree fuel set id root key ≡ some (count_new (r, set'))
      unfolding insert_full_root create_node fetch_and_add
      full_gt c e = grind (arith, run, up, c, e)

  one_key :
      (k key : K)
      → ((o.cmp k key ≡ lt) → binary_search (k ∷ []) key ≡ missing 1)
        × ((o.cmp k key ≡ gt) → binary_search (k ∷ []) key ≡ missing 0)
  unfolding binary_search
  one_key k key = ((λ c. grind (arith, c)), (λ c. grind (arith, c)))

  -- what `insert` returns after the loop under the new root
  full_result :
      (degree fuel h : ℕ) (set set1 set' : StateBTreeSet K) (id new_id : NodeId)
      (root parent : Node K) (key : K) (b : Bool)
      → insert_full_root degree fuel set id root key ≡ some (count_new (b, set'))
      → set1.root ≡ some new_id
      → in_order (suc h) set1 parent ≡ in_order h set root
      → Inserted (suc h) set1 new_id (in_order (suc h) set1 parent) key b set'
      → Sorted (in_order (suc h) set1 parent)
      → set1.len ≡ length (in_order h set root)
      → length (in_order h set root) + 1 < 2 ^ 32
      → set'.next_node_id ≤ set.next_node_id + (h + 2)
      → (set' : StateBTreeSet K) × (insert_full_root degree fuel set id root key
          ≡ some (not (elem key (in_order h set root)), set'))
        × Holds (suc h) set' (sorted_insert key (in_order h set root))
        × (set'.next_node_id ≤ set.next_node_id + (h + 2))
  full_result degree fuel h set set1 set' id new_id root parent key b e r all ins sorted count short
        last =
      let (holds, flag, _) =
        counted (suc h) set1 set' new_id (in_order h set root) key b r
          (subst (λ (t : List K). Inserted (suc h) set1 new_id t key b set') all ins)
          (subst Sorted all sorted) count short in
      (
        (count_new (b, set')).1,
        named (insert_full_root degree fuel set id root key) (count_new (b, set')) _ e flag,
        holds,
        omega (arith, last, (count_new_lem b set').1.1),
      )

  -- `insert` where the root is full and does not hold the key.
  pub insert_full_root-Holds :
      (degree fuel h i : ℕ) (set : StateBTreeSet K) (id : NodeId) (root : Node K) (key : K)
      → Recursion degree fuel h key
      → 2 ≤ degree
      → get_node id set ≡ some root
      → Shape h set root
      → Sorted (in_order h set root)
      → Unused set
      → set.len ≡ length (in_order h set root)
      → length (in_order h set root) + 1 < 2 ^ 32
      → set.next_node_id + (h + 2) < 2 ^ 64
      → length root.keys ≡ maximum_key_len degree
      → binary_search root.keys key ≡ missing i
      → (set' : StateBTreeSet K) × (insert_full_root degree fuel set id root key
          ≡ some (not (elem key (in_order h set root)), set'))
        × Holds (suc h) set' (sorted_insert key (in_order h set root))
        × (set'.next_node_id ≤ set.next_node_id + (h + 2))
  insert_full_root-Holds degree fuel h i set id root key rec d g s sorted u count short n full e =
      let b : set.next_node_id + 1 < 2 ^ 64 = omega (arith, n) in
      let before : StateBTreeSet K = rooted set id in
      let (next0, root0, len0) = rooted_facts set id root g u b in
      let (parent, k, set1, run, g1, s1, view, keys, c1, d1, f1, u1, next, root1, len1, moved) =
        rooted-Splits set id root g u b degree h d full s sorted (omega (arith, n)) in
      let all : in_order (suc h) set1 parent ≡ in_order h set root =
        view ∙ (rooted_slots set id root g u b h s).1 in
      let sorted1 : Sorted (in_order (suc h) set1 parent) = subst Sorted (sym all) sorted in
      let up : get_elem? parent.keys 0 ≡ some k = ap (λ (t : List K). get_elem? t 0) keys in
      let size : length parent.keys ≡ 1 = ap length keys in
      let finish =
        λ (b : Bool) (set' : StateBTreeSet K)
            (e : insert_full_root degree fuel set id root key ≡ some (count_new (b, set')))
            (ins : Inserted (suc h) set1 set.next_node_id (in_order (suc h) set1 parent) key b set')
            (last : set'.next_node_id ≤ set1.next_node_id + h).
          full_result degree fuel h set set1 set' id set.next_node_id root parent key b e
            (root1 ∙ root0) all ins sorted1 (len1 ∙ len0 ∙ count) short
            (omega (arith, last, next, next0)) in
      elim (cmp-cases k key) [
        | inl c ↦
            let at : binary_search parent.keys key ≡ missing 1 =
              ap (λ (t : List K). binary_search t key) keys ∙ (one_key k key).0 c in
            let (b', set', r, ins, last) =
              into_child degree fuel h 1 set1 set.next_node_id before.next_node_id parent key rec g1
                s1 sorted1 u1 (omega (arith, n, next, next0)) at (omega (arith, size)) d1 in
            finish b' set'
              (full_lt set id root g u b degree fuel key k parent set1 run up b' set' c r) ins last
        | inr (inl c) ↦
            let out =
              missing_elem root.keys (subtrees h set root) key i (length-subtrees h set root s)
                (subst Sorted (in_order-subtrees h set root) sorted) e in
            ground (arith, moved, out, ap (λ (x : K). elem x root.keys) (o.same k key c))
        | inr (inr c) ↦
            let at : binary_search parent.keys key ≡ missing 0 =
              ap (λ (t : List K). binary_search t key) keys ∙ (one_key k key).1 c in
            let (b', set', r, ins, last) =
              into_child degree fuel h 0 set1 set.next_node_id id parent key rec g1 s1 sorted1 u1
                (omega (arith, n, next, next0)) at (omega (arith, size)) c1 in
            finish b' set'
              (full_gt set id root g u b degree fuel key k parent set1 run up b' set' c r) ins last
      ]
