-- ===== src/Std/BTree/Search/Lower.antt =====
-- `lower` and `eq_or_lower` agree with the list of the set's keys in order
-- (concordium-std/src/state_btree.rs).
use rust_smart_contract.Base.{
  inl, inr, ℕ, zero, suc, ◌<◌, ◌≡◌, refl, ap, true, false, Option, none, some, List, [], ◌++◌,
  get_elem?, arith,
}
use rust_smart_contract.Std.Ord.{Ord}
use rust_smart_contract.Std.BTree.Sorted.{
  Sorted, or_else, last_below, last_upto, last_below-append, last_upto-append, search_Above,
}
use rust_smart_contract.Std.BTree.Node.{Node, StateBTreeSet, found, missing, binary_search, is_leaf}
use rust_smart_contract.Std.BTree.Search.{
  get_child, lower_from, lower_key_index, eq_or_lower_from, key_before,
}
use rust_smart_contract.Std.BTree.View.{before, in_order, Shape}
use rust_smart_contract.Std.BTree.Search.Descend.{
  or_else_assoc, subtrees, Cut, Cut-at, search-Step, in_order-subtrees, length-subtrees,
}
use rust_smart_contract.Std.BTree.Search.Locate.{last_upto-Below, key_before-before}

module _ {ℓ} {K : Type ℓ} ⦃o : Ord K⦄ where
  last_below-cut :
      (key : K) (a l b : List K)
      → last_below key b ≡ none
      → last_below key (a ++ (l ++ b)) ≡ or_else (last_below key l) (last_below key a)
  last_below-cut key a l b high =
      grind (arith, last_below-append key a (l ++ b), last_below-append key l b)

  last_upto-cut :
      (key : K) (a l b : List K)
      → last_upto key b ≡ none
      → last_upto key (a ++ (l ++ b)) ≡ or_else (last_upto key l) (last_upto key a)
  last_upto-cut key a l b high =
      grind (arith, last_upto-append key a (l ++ b), last_upto-append key l b)

  -- Where `lower` goes on: the keys on the right of the subtree are not below the key.
  abbrev LowerIndex : ℕ → StateBTreeSet K → Node K → K → Option K → Type ℓ
  LowerIndex h set node key so_far =
      (i : ℕ) × (l : List K) × (c : Option K) × (lower_key_index (binary_search node.keys key) ≡ i)
      × Cut h set node i l
      × (key_before node.keys i so_far ≡ some c)
      × (or_else (last_below key (in_order h set node)) so_far ≡ or_else (last_below key l) c)

  lower_index :
      (h : ℕ) (set : StateBTreeSet K) (node : Node K) (key : K) (so_far : Option K)
      → Shape h set node
      → Sorted (in_order h set node)
      → LowerIndex h set node key so_far
  lower_index h set node key so_far s sorted =
      let enough = length-subtrees h set node s in
      let left : (i : ℕ) → List K = λ i. before i node.keys (subtrees h set node) in
      elim (search-Step h set node key s sorted) [
        | inl (i, e, (at, _, _, _, _, _, low, none_right), bound) ↦
            let (l, cut) = Cut-at h set node i s sorted (omega (arith, bound)) in
            (
              i,
              l,
              or_else (last_below key (left i)) so_far,
              ap lower_key_index e,
              cut,
              key_before-before i node.keys _ key so_far enough (omega (arith, bound)) low,
              grind (
                arith,
                cut.0,
                last_below-cut key (left i) l _ none_right,
                or_else_assoc (last_below key l) (last_below key (left i)) so_far,
              ),
            )
        | inr (i, e, (bound, low, high), l, cut) ↦ (
          i,
          l,
          or_else (last_below key (left i)) so_far,
          ap lower_key_index e,
          cut,
          key_before-before i node.keys _ key so_far enough bound low,
          grind (
            arith,
            cut.0,
            last_below-cut key (left i) l _ (search_Above key _ high).1,
            or_else_assoc (last_below key l) (last_below key (left i)) so_far,
          ),
        )
      ]

  lower_step_leaf :
      (fuel : ℕ) (set : StateBTreeSet K) (node : Node K) (key : K) (so_far c : Option K) (i : ℕ)
      → lower_key_index (binary_search node.keys key) ≡ i
      → key_before node.keys i so_far ≡ some c
      → is_leaf node ≡ true
      → lower_from (suc fuel) set node key so_far ≡ some c
  unfolding lower_from
  lower_step_leaf fuel set node key so_far c i e k leaf = grind (arith, e, k, leaf)

  lower_step :
      (fuel : ℕ) (set : StateBTreeSet K) (node n : Node K) (key : K) (so_far c : Option K) (i : ℕ)
      → lower_key_index (binary_search node.keys key) ≡ i
      → key_before node.keys i so_far ≡ some c
      → is_leaf node ≡ false
      → get_child set node i ≡ some n
      → lower_from (suc fuel) set node key so_far ≡ lower_from fuel set n key c
  unfolding lower_from
  lower_step fuel set node n key so_far c i e k leaf g = grind (arith, e, k, leaf, g)

  -- The loop of `lower` gives the greatest key below, or what it had before.
  pub lower_from-last_below :
      (h fuel : ℕ) (set : StateBTreeSet K) (node : Node K) (key : K) (so_far : Option K)
      → h < fuel
      → Shape h set node
      → Sorted (in_order h set node)
      → lower_from fuel set node key so_far
        ≡ some (or_else (last_below key (in_order h set node)) so_far)
  unfolding last_below
  lower_from-last_below h zero set node key so_far b s sorted = ground arith
  lower_from-last_below zero (suc fuel) set node key so_far b s sorted =
      let (i, l, c, e, (view, (leaf, empty, _), _), k, below) =
        lower_index 0 set node key so_far s sorted in
      grind (arith, lower_step_leaf fuel set node key so_far c i e k leaf)
  lower_from-last_below (suc h) (suc fuel) set node key so_far b s sorted =
      let (i, l, c, e, (view, (leaf, (n, child, shape, keys)), sorted_below), k, below) =
        lower_index (suc h) set node key so_far s sorted in
      grind (
        arith,
        lower_step fuel set node n key so_far c i e k leaf child,
        lower_from-last_below h fuel set n key c (omega arith) shape,
      )

  eq_or_lower_step :
      (fuel : ℕ) (set : StateBTreeSet K) (node n : Node K) (key : K) (so_far c : Option K) (i : ℕ)
      → binary_search node.keys key ≡ missing i
      → key_before node.keys i so_far ≡ some c
      → is_leaf node ≡ false
      → get_child set node i ≡ some n
      → eq_or_lower_from (suc fuel) set node key so_far ≡ eq_or_lower_from fuel set n key c
  unfolding eq_or_lower_from
  eq_or_lower_step fuel set node n key so_far c i e k leaf g = grind (arith, e, k, leaf, g)

  eq_or_lower_found :
      (fuel : ℕ) (set : StateBTreeSet K) (node : Node K) (key : K) (so_far : Option K) (i : ℕ)
      → binary_search node.keys key ≡ found i
      → get_elem? node.keys i ≡ some key
      → eq_or_lower_from (suc fuel) set node key so_far ≡ some (some key)
  unfolding eq_or_lower_from
  eq_or_lower_found fuel set node key so_far i e at = grind (arith, e, at)

  eq_or_lower_leaf :
      (fuel : ℕ) (set : StateBTreeSet K) (node : Node K) (key : K) (so_far c : Option K) (i : ℕ)
      → binary_search node.keys key ≡ missing i
      → key_before node.keys i so_far ≡ some c
      → is_leaf node ≡ true
      → eq_or_lower_from (suc fuel) set node key so_far ≡ some c
  unfolding eq_or_lower_from
  eq_or_lower_leaf fuel set node key so_far c i e k leaf = grind (arith, e, k, leaf)

  last_upto-nil : (key : K) → last_upto key [] ≡ none
  unfolding last_upto
  last_upto-nil key = refl

  -- The loop of `eq_or_lower` gives the greatest key that is not above, or what it had before.
  pub eq_or_lower_from-last_upto :
      (h fuel : ℕ) (set : StateBTreeSet K) (node : Node K) (key : K) (so_far : Option K)
      → h < fuel
      → Shape h set node
      → Sorted (in_order h set node)
      → eq_or_lower_from fuel set node key so_far
        ≡ some (or_else (last_upto key (in_order h set node)) so_far)
  eq_or_lower_from-last_upto h zero set node key so_far b s sorted = ground arith
  eq_or_lower_from-last_upto zero (suc fuel) set node key so_far b s sorted =
      elim (search-Step 0 set node key s sorted) [
        | inl (i, e, here, _) ↦ grind (
          arith,
          in_order-subtrees 0 set node,
          eq_or_lower_found fuel set node key so_far i e here.0,
          here.3,
        )
        | inr (i, e, (bound, low, high), l, (view, (leaf, empty, _), _)) ↦
            let left = before i node.keys (subtrees 0 set node) in
            let candidate = or_else (last_below key left) so_far in
            let at =
              key_before-before i node.keys (subtrees 0 set node) key so_far
                (length-subtrees 0 set node s) bound low in
            grind (
              arith,
              last_upto-nil key,
              eq_or_lower_leaf fuel set node key so_far candidate i e at leaf,
              last_upto-cut key left l _ (search_Above key _ high).2,
              last_upto-Below key left low,
            )
      ]
  eq_or_lower_from-last_upto (suc h) (suc fuel) set node key so_far b s sorted =
      elim (search-Step (suc h) set node key s sorted) [
        | inl (i, e, here, _) ↦ grind (
          arith,
          in_order-subtrees (suc h) set node,
          eq_or_lower_found fuel set node key so_far i e here.0,
          here.3,
        )
        | inr (i, e, (bound, low, high), l, (view, (leaf, (n, child, shape, keys)), below)) ↦
            let left = before i node.keys (subtrees (suc h) set node) in
            let candidate = or_else (last_below key left) so_far in
            let at =
              key_before-before i node.keys (subtrees (suc h) set node) key so_far
                (length-subtrees (suc h) set node s) bound low in
            grind (
              arith,
              eq_or_lower_step fuel set node n key so_far candidate i e at leaf child,
              last_upto-cut key left l _ (search_Above key _ high).2,
              last_upto-Below key left low,
              eq_or_lower_from-last_upto h fuel set n key candidate (omega arith) shape,
              or_else_assoc (last_upto key l) (last_below key left) so_far,
            )
      ]
