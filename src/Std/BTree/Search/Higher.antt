-- ===== src/Std/BTree/Search/Higher.antt =====
-- `higher` and `eq_or_higher` agree with the list of the set's keys in order
-- (concordium-std/src/state_btree.rs).
use rust_smart_contract.Base.{
  inl, inr, ℕ, zero, suc, ◌<◌, ◌≡◌, refl, ap, true, false, Option, none, some, List, [], ◌++◌,
  get_elem?, arith,
}
use rust_smart_contract.Std.Ord.{Ord}
use rust_smart_contract.Std.BTree.Sorted.{
  Sorted, or_else, first_above, first_from, first_above-append, first_from-append, search_Below,
}
use rust_smart_contract.Std.BTree.Node.{Node, StateBTreeSet, found, missing, binary_search, is_leaf}
use rust_smart_contract.Std.BTree.Search.{
  get_child, higher_from, higher_key_index, eq_or_higher_from,
}
use rust_smart_contract.Std.BTree.View.{in_order, Shape}
use rust_smart_contract.Std.BTree.Search.Descend.{
  or_else_assoc, subtrees, Cut, Cut-at, search-Step, in_order-subtrees, length-subtrees,
}
use rust_smart_contract.Std.BTree.Search.Locate.{first_above-after, first_from-after}

module _ {ℓ} {K : Type ℓ} ⦃o : Ord K⦄ where
  first_above-cut :
      (key : K) (a l b : List K)
      → first_above key a ≡ none
      → first_above key (a ++ (l ++ b)) ≡ or_else (first_above key l) (first_above key b)
  first_above-cut key a l b low =
      grind (arith, first_above-append key a (l ++ b), first_above-append key l b)

  first_from-cut :
      (key : K) (a l b : List K)
      → first_from key a ≡ none
      → first_from key (a ++ (l ++ b)) ≡ or_else (first_from key l) (first_from key b)
  first_from-cut key a l b low =
      grind (arith, first_from-append key a (l ++ b), first_from-append key l b)

  -- Where `higher` goes on: the keys on the left of the subtree are not above the key.
  abbrev HigherIndex : ℕ → StateBTreeSet K → Node K → K → Type ℓ
  HigherIndex h set node key =
      (i : ℕ) × (l : List K) × (higher_key_index (binary_search node.keys key) ≡ i)
      × Cut h set node i l
      × (first_above key (in_order h set node)
          ≡ or_else (first_above key l) (get_elem? node.keys i))

  higher_index :
      (h : ℕ) (set : StateBTreeSet K) (node : Node K) (key : K)
      → Shape h set node
      → Sorted (in_order h set node)
      → HigherIndex h set node key
  higher_index h set node key s sorted =
      let enough = length-subtrees h set node s in
      elim (search-Step h set node key s sorted) [
        | inl (i, e, (at, _, _, _, none_left, high, _, _), bound) ↦
            let (l, cut) = Cut-at h set node (suc i) s sorted bound in
            (
              suc i,
              l,
              ap higher_key_index e,
              cut,
              grind (
                arith,
                cut.0,
                first_above-cut key _ l _ none_left,
                first_above-after (suc i) node.keys (subtrees h set node) key enough high,
              ),
            )
        | inr (i, e, (_, low, high), l, cut) ↦ (
          i,
          l,
          ap higher_key_index e,
          cut,
          grind (
            arith,
            cut.0,
            first_above-cut key _ l _ (search_Below key _ low).1,
            first_above-after i node.keys (subtrees h set node) key enough high,
          ),
        )
      ]

  higher_step_leaf :
      (fuel : ℕ) (set : StateBTreeSet K) (node : Node K) (key : K) (so_far : Option K) (i : ℕ)
      → higher_key_index (binary_search node.keys key) ≡ i
      → is_leaf node ≡ true
      → higher_from (suc fuel) set node key so_far ≡ some (or_else (get_elem? node.keys i) so_far)
  unfolding higher_from
  higher_step_leaf fuel set node key so_far i e leaf = grind (arith, e, leaf)

  higher_step :
      (fuel : ℕ) (set : StateBTreeSet K) (node n : Node K) (key : K) (so_far : Option K) (i : ℕ)
      → higher_key_index (binary_search node.keys key) ≡ i
      → is_leaf node ≡ false
      → get_child set node i ≡ some n
      → higher_from (suc fuel) set node key so_far
        ≡ higher_from fuel set n key (or_else (get_elem? node.keys i) so_far)
  unfolding higher_from
  higher_step fuel set node n key so_far i e leaf c = grind (arith, e, leaf, c)

  -- The loop of `higher` gives the least key above, or what it had before.
  pub higher_from-first_above :
      (h fuel : ℕ) (set : StateBTreeSet K) (node : Node K) (key : K) (so_far : Option K)
      → h < fuel
      → Shape h set node
      → Sorted (in_order h set node)
      → higher_from fuel set node key so_far
        ≡ some (or_else (first_above key (in_order h set node)) so_far)
  unfolding first_above
  higher_from-first_above h zero set node key so_far b s sorted = ground arith
  higher_from-first_above zero (suc fuel) set node key so_far b s sorted =
      let (i, l, e, (view, (leaf, empty, _), _), above) = higher_index 0 set node key s sorted in
      grind (arith, higher_step_leaf fuel set node key so_far i e leaf)
  higher_from-first_above (suc h) (suc fuel) set node key so_far b s sorted =
      let (i, l, e, (view, (leaf, (n, child, shape, keys)), below), above) =
        higher_index (suc h) set node key s sorted in
      let candidate = or_else (get_elem? node.keys i) so_far in
      grind (
        arith,
        higher_step fuel set node n key so_far i e leaf child,
        higher_from-first_above h fuel set n key candidate (omega arith) shape,
        or_else_assoc (first_above key l) (get_elem? node.keys i) so_far,
      )

  eq_or_higher_step :
      (fuel : ℕ) (set : StateBTreeSet K) (node n : Node K) (key : K) (so_far : Option K) (i : ℕ)
      → binary_search node.keys key ≡ missing i
      → is_leaf node ≡ false
      → get_child set node i ≡ some n
      → eq_or_higher_from (suc fuel) set node key so_far
        ≡ eq_or_higher_from fuel set n key (or_else (get_elem? node.keys i) so_far)
  unfolding eq_or_higher_from
  eq_or_higher_step fuel set node n key so_far i e leaf c = grind (arith, e, leaf, c)

  eq_or_higher_found :
      (fuel : ℕ) (set : StateBTreeSet K) (node : Node K) (key : K) (so_far : Option K) (i : ℕ)
      → binary_search node.keys key ≡ found i
      → get_elem? node.keys i ≡ some key
      → eq_or_higher_from (suc fuel) set node key so_far ≡ some (some key)
  unfolding eq_or_higher_from
  eq_or_higher_found fuel set node key so_far i e at = grind (arith, e, at)

  eq_or_higher_leaf :
      (fuel : ℕ) (set : StateBTreeSet K) (node : Node K) (key : K) (so_far : Option K) (i : ℕ)
      → binary_search node.keys key ≡ missing i
      → is_leaf node ≡ true
      → eq_or_higher_from (suc fuel) set node key so_far
        ≡ some (or_else (get_elem? node.keys i) so_far)
  unfolding eq_or_higher_from
  eq_or_higher_leaf fuel set node key so_far i e leaf = grind (arith, e, leaf)

  first_from-nil : (key : K) → first_from key [] ≡ none
  unfolding first_from
  first_from-nil key = refl

  -- The loop of `eq_or_higher` gives the least key that is not below, or what it had before.
  pub eq_or_higher_from-first_from :
      (h fuel : ℕ) (set : StateBTreeSet K) (node : Node K) (key : K) (so_far : Option K)
      → h < fuel
      → Shape h set node
      → Sorted (in_order h set node)
      → eq_or_higher_from fuel set node key so_far
        ≡ some (or_else (first_from key (in_order h set node)) so_far)
  eq_or_higher_from-first_from h zero set node key so_far b s sorted = ground arith
  eq_or_higher_from-first_from zero (suc fuel) set node key so_far b s sorted =
      elim (search-Step 0 set node key s sorted) [
        | inl (i, e, here, _) ↦ grind (
          arith,
          in_order-subtrees 0 set node,
          eq_or_higher_found fuel set node key so_far i e here.0,
          here.2,
        )
        | inr (i, e, (_, low, high), l, (view, (leaf, empty, _), _)) ↦ grind (
          arith,
          first_from-nil key,
          eq_or_higher_leaf fuel set node key so_far i e leaf,
          first_from-cut key _ l _ (search_Below key _ low).2,
          first_from-after i node.keys (subtrees 0 set node) key (length-subtrees 0 set node s)
              high,
        )
      ]
  eq_or_higher_from-first_from (suc h) (suc fuel) set node key so_far b s sorted =
      elim (search-Step (suc h) set node key s sorted) [
        | inl (i, e, here, _) ↦ grind (
          arith,
          in_order-subtrees (suc h) set node,
          eq_or_higher_found fuel set node key so_far i e here.0,
          here.2,
        )
        | inr (i, e, (_, low, high), l, (view, (leaf, (n, child, shape, keys)), below)) ↦
            let candidate = or_else (get_elem? node.keys i) so_far in
            grind (
              arith,
              eq_or_higher_step fuel set node n key so_far i e leaf child,
              first_from-cut key _ l _ (search_Below key _ low).2,
              first_from-after i node.keys (subtrees (suc h) set node) key
                  (length-subtrees (suc h) set node s) high,
              eq_or_higher_from-first_from h fuel set n key candidate (omega arith) shape,
              or_else_assoc (first_from key l) (get_elem? node.keys i) so_far,
            )
      ]
