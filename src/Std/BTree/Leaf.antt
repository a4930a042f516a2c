-- ===== src/Std/BTree/Leaf.antt =====
-- The loop of `remove` at a leaf (concordium-std/src/state_btree.rs).
use rust_smart_contract.Base.{
  ℕ, suc, ◌<◌, ◌≡◌, refl, true, false, some, List, [], ◌∷◌, length, arith, inl, inr, if◌then◌else◌,
}
use Prim.Native.Nat.Ordering.{lt, eq, gt}
use rust_smart_contract.Std.Ord.{Ord, cmp-cases}
use rust_smart_contract.Std.BTree.Sorted.{Sorted, elem, Above-trans, search_Above}
use rust_smart_contract.Std.BTree.Node.{
  Node, NodeId, StateBTreeSet, get_node, store_node, binary_search, found, missing, Search-cases,
}
use rust_smart_contract.Std.BTree.Remove.{remove_from}
use rust_smart_contract.Std.BTree.Merge.{removed, remove_at-removed}

module _ {ℓ} {K : Type ℓ} ⦃o : Ord K⦄ where
  -- the list without the key
  unfoldable pub sorted_remove : K → List K → List K
  sorted_remove x [] = []
  sorted_remove x (k ∷ ks) =
      let rest = sorted_remove x ks in elim (o.cmp k x) [ lt ↦ k ∷ rest | eq ↦ ks | gt ↦ k ∷ ks ]

  found_lem :
      (key : K) (l : List K) (i : ℕ)
      → binary_search l key ≡ found i
      → (i < length l) × (elem key l ≡ true) × (removed i l ≡ sorted_remove key l)
  unfolding binary_search elem sorted_remove
  found_lem key [] i e = ground arith
  found_lem key (k ∷ l) i e = elim (cmp-cases k key) [
    | inl c ↦ elim (Search-cases (binary_search l key)) [
      | inl (j, f) ↦ grind (arith, found_lem key l j f)
      | inr (j, f) ↦ ground arith
    ]
    | inr (inl c) ↦ ground arith
    | inr (inr c) ↦ ground arith
  ]

  missing_lem :
      (key : K) (l : List K) (i : ℕ)
      → Sorted l
      → binary_search l key ≡ missing i
      → (elem key l ≡ false) × (sorted_remove key l ≡ l)
  unfolding binary_search elem sorted_remove
  missing_lem key [] i s e = (refl, refl)
  missing_lem key (k ∷ l) i s e = elim (cmp-cases k key) [
    | inl c ↦ elim (Search-cases (binary_search l key)) [
      | inl (j, f) ↦ ground arith
      | inr (j, f) ↦ grind (arith, missing_lem key l j s.1 f)
    ]
    | inr (inl c) ↦ ground arith
    | inr (inr c) ↦ grind (arith, search_Above key l (Above-trans key k l (o.flip_gt k key c) s.0))
  ]

  -- At a leaf the loop ends: it says whether the leaf has the key, and a key that is there is taken
  -- out of the leaf, and the rest of it and of the set stays.
  remove_from-leaf :
      (degree fuel : ℕ) (set : StateBTreeSet K) (id : NodeId) (node : Node K) (key : K)
      → get_node id set ≡ some node
      → node.children ≡ []
      → Sorted node.keys
      → remove_from degree (suc fuel) set id key
        ≡ some (
          elem key node.keys,
          if elem key node.keys
              then store_node id (record node { keys = sorted_remove key node.keys }) set
              else set,
        )
  unfolding remove_from
  remove_from-leaf degree fuel set id node key g leaf s =
      elim (Search-cases (binary_search node.keys key)) [
        | inl (i, f) ↦
            let (bound, there, rest) = found_lem key node.keys i f in
            let (x, run, _) = remove_at-removed i node.keys bound in
            grind (arith, g, leaf, f, there, rest, run)
        | inr (i, f) ↦
            let (absent, _) = missing_lem key node.keys i s f in grind (arith, g, leaf, f, absent)
      ]
