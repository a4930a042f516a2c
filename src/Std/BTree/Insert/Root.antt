-- ===== src/Std/BTree/Insert/Root.antt =====
-- `insert` on the ordered set, whatever the root is (concordium-std/src/state_btree.rs).
use rust_smart_contract.Std.BTree.Slots.{Apart}
use Prim.Native.Nat.Ordering.{gt}
use mathlib.Core.Path.{subst}
use rust_smart_contract.Base.{
  ℕ, suc, ◌+◌, ◌%◌, ◌^◌, ◌≤◌, ◌<◌, ◌≡◌, refl, sym, ◌∙◌, Bool, true, false, not, Option, none, some,
  List, [], ◌∷◌, length, arith, inl, inr, if◌then◌else◌,
}
use rust_smart_contract.Std.Ord.{Ord, cmp-cases, ◌≺◌}
use rust_smart_contract.Std.BTree.Sorted.{
  Sorted, Above, elem, sorted_insert, search_Above, Above-trans,
}
use rust_smart_contract.Std.BTree.Node.{
  Node, NodeId, StateBTreeSet, get_node, create_node, is_full, binary_search, found, missing,
}
use rust_smart_contract.Std.BTree.View.{in_order}
use rust_smart_contract.Std.BTree.Frame.{Frame, Unused, Shape-head, Frame-Shape}
use rust_smart_contract.Std.BTree.Insert.{insert_non_full, insert, insert_full_root, count_new}
use rust_smart_contract.Std.BTree.Insert.Inserted.{Inserted}
use rust_smart_contract.Std.BTree.Tree.{Holds, Rooted}

module _ {ℓ} {K : Type ℓ} ⦃o : Ord K⦄ where
  sorted_insert-Above : (j x : K) (l : List K) → j ≺ x → Above j l → Above j (sorted_insert x l)
  unfolding sorted_insert
  sorted_insert-Above j x [] b a = (b, tt)
  sorted_insert-Above j x (k ∷ l) b a = ground (arith, sorted_insert-Above j x l)

  at_front : (x k : K) (l : List K) → o.cmp k x ≡ gt → x ∷ k ∷ l ≡ sorted_insert x (k ∷ l)
  unfolding sorted_insert
  at_front x k l c = grind (arith, c)

  pub sorted_insert-Sorted : (x : K) (l : List K) → Sorted l → Sorted (sorted_insert x l)
  unfolding sorted_insert
  sorted_insert-Sorted x [] s = (tt, tt)
  sorted_insert-Sorted x (k ∷ l) s = elim (cmp-cases k x) [
    | inl c ↦ grind (arith, sorted_insert-Sorted x l s.1, sorted_insert-Above k x l c s.0)
    | inr (inl c) ↦ ground (arith, c)
    | inr (inr c) ↦
        let below = o.flip_gt k x c in
        subst Sorted (at_front x k l c) ((below, Above-trans x k l below s.0), s)
  ]

  pub length-sorted_insert_lem :
      (x : K) (l : List K)
      → Sorted l
      → length (sorted_insert x l) ≡ (if elem x l then length l else length l + 1)
  unfolding sorted_insert elem
  length-sorted_insert_lem x [] s = refl
  length-sorted_insert_lem x (k ∷ l) s = elim (cmp-cases k x) [
    | inl c ↦ grind (arith, length-sorted_insert_lem x l s.1)
    | inr (inl c) ↦ ground (arith, c)
    | inr (inr c) ↦ grind (arith, search_Above x l (Above-trans x k l (o.flip_gt k x c) s.0))
  ]

  -- `insert` returned whether the key was new, and the set now holds it, in its place.
  abbrev pub InsertsKey : ℕ → ℕ → ℕ → StateBTreeSet K → List K → K → Type ℓ
  InsertsKey degree fuel h set l key =
      (set' : StateBTreeSet K) × (h' : ℕ) × (insert degree fuel set key
        ≡ some (not (elem key l), set'))
      × Holds h' set' (sorted_insert key l)
      × (h' ≤ suc h)
      × (set'.next_node_id ≤ set.next_node_id + (h' + 1))

  pub Apart-none : (l : List K) → Apart [] l
  unfolding elem
  Apart-none [] = tt
  Apart-none (k ∷ l) = (refl, Apart-none l)

  -- a root under which no node changed
  pub kept-Rooted :
      (h : ℕ) (set set' : StateBTreeSet K) (id : Option NodeId) (l : List K)
      → Frame set set' []
      → Rooted h set id l
      → Rooted h set' id l
  unfolding elem
  kept-Rooted h set set' none l f r = r
  kept-Rooted h set set' (some id) l f (node, g, s, keys) =
      let (s', same) = Frame-Shape h set set' [] node f s (Apart-none (in_order h set node)) in
      let (k, first, _) =
        Shape-head (λ y. elem y [] ≡ false) h set node s (Apart-none (in_order h set node)) in
      (node, f id node k g first refl, s', keys ∙ sym same)

  count_new-Frame : (b : Bool) (set : StateBTreeSet K) → Frame set (count_new (b, set)).1 []
  unfolding count_new get_node
  count_new-Frame true set x n k e first out = e
  count_new-Frame false set x n k e first out = e

  pub count_new_lem :
      (b : Bool) (set : StateBTreeSet K)
      → let after = (count_new (b, set)).1 in
        (after.root ≡ set.root)
        × (((count_new (b, set)).0 ≡ b) × (after.next_node_id ≡ set.next_node_id))
        × (Unused set → Unused after)
        × (after.len ≡ (if b then (set.len + 1) % 2 ^ 32 else set.len))
  unfolding count_new get_node
  count_new_lem true set = (refl, (refl, refl), (λ u. u), refl)
  count_new_lem false set = (refl, (refl, refl), (λ u. u), refl)

  -- counting a new key
  pub counted :
      (h : ℕ) (set set' : StateBTreeSet K) (id : NodeId) (l : List K) (key : K) (b : Bool)
      → set.root ≡ some id
      → Inserted h set id l key b set'
      → Sorted l
      → set.len ≡ length l
      → length l + 1 < 2 ^ 32
      → Holds h (count_new (b, set')).1 (sorted_insert key l)
        × ((count_new (b, set')).0 ≡ not (elem key l))
        × ((count_new (b, set')).1.next_node_id ≤ set.next_node_id + h)
  counted h set set' id l key b r ((node, g, s, view), new, f, u, next, root, len) sorted e bound =
      let rooted : Rooted h set' set'.root (sorted_insert key l) =
        subst (λ i. Rooted h set' i (sorted_insert key l)) (sym (root ∙ r))
          (node, g, s, sym view) in
      let (at, same, unused, count) = count_new_lem b set' in
      (
        (
          subst (λ i. Rooted h (count_new (b, set')).1 i (sorted_insert key l)) (sym at)
              (kept-Rooted h set' (count_new (b, set')).1 set'.root _ (count_new-Frame b set')
                rooted),
          sorted_insert-Sorted key l sorted,
          unused u,
          grind (arith, len, e, length-sorted_insert_lem key l sorted, new, count),
        ),
        same.0 ∙ new,
        omega (arith, next, same.1),
      )

  -- a result, its flag by another name
  pub named :
      (op : Option (Bool × StateBTreeSet K)) (p : Bool × StateBTreeSet K) (v : Bool)
      → op ≡ some p
      → p.0 ≡ v
      → op ≡ some (v, p.1)
  named op p v e f = ground (arith, e, f)

  module _ (degree fuel : ℕ) (set : StateBTreeSet K) (key : K) where
    pub insert-none :
        set.root ≡ none
        → let (id, created) = create_node (key ∷ []) [] set in
          insert degree fuel set key ≡ some (true, record created { root = some id; len = 1 })
    unfolding insert
    insert-none r = grind (arith, r)

    module _ (id : NodeId) (root : Node K) (r : set.root ≡ some id)
        (g : get_node id set ≡ some root) where
      pub insert_not_full :
          (b : Bool) (set' : StateBTreeSet K)
          → is_full degree root ≡ false
          → insert_non_full degree fuel set id key ≡ some (b, set')
          → insert degree fuel set key ≡ some (count_new (b, set'))
      unfolding insert
      insert_not_full b set' full run = grind (arith, r, g, full, run)

      pub insert_present :
          (i : ℕ)
          → is_full degree root ≡ true
          → binary_search root.keys key ≡ found i
          → insert degree fuel set key ≡ some (false, set)
      unfolding insert
      insert_present i full e = grind (arith, r, g, full, e)

      pub insert_full :
          (i : ℕ)
          → is_full degree root ≡ true
          → binary_search root.keys key ≡ missing i
          → insert degree fuel set key ≡ insert_full_root degree fuel set id root key
      unfolding insert
      insert_full i full e = grind (arith, r, g, full, e)
