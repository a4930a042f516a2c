-- ===== src/Std/BTree/Search/Contains.antt =====
-- `contains` of the ordered set agrees with the list of its keys in order
-- (concordium-std/src/state_btree.rs).
use rust_smart_contract.Base.{inl, inr, ℕ, zero, suc, ◌<◌, ◌≡◌, some, List, ◌++◌, arith}
use rust_smart_contract.Std.Ord.{Ord}
use rust_smart_contract.Std.BTree.Sorted.{
  Sorted, Below, Above, elem, elem-append, search_Below, search_Above,
}
use rust_smart_contract.Std.BTree.Node.{Node, StateBTreeSet}
use rust_smart_contract.Std.BTree.Search.{contains_from}
use rust_smart_contract.Std.BTree.View.{in_order, Shape}
use rust_smart_contract.Std.BTree.Search.Descend.{search-Step, in_order-subtrees}

module _ {ℓ} {K : Type ℓ} ⦃o : Ord K⦄ where
  pub elem-cut :
      (key : K) (a l b : List K) → Below key a → Above key b → elem key (a ++ (l ++ b)) ≡ elem key l
  elem-cut key a l b low high = grind (
    arith,
    elem-append key a (l ++ b),
    elem-append key l b,
    search_Below key a low,
    search_Above key b high,
  )

  pub contains_from-elem :
      (h fuel : ℕ) (set : StateBTreeSet K) (node : Node K) (key : K)
      → h < fuel
      → Shape h set node
      → Sorted (in_order h set node)
      → contains_from fuel set node key ≡ some (elem key (in_order h set node))
  unfolding contains_from elem
  contains_from-elem h zero set node key b s sorted = ground arith
  contains_from-elem zero (suc fuel) set node key b s sorted =
      elim (search-Step 0 set node key s sorted) [
        | inl (i, e, here, _) ↦ grind (arith, in_order-subtrees 0 set node)
        | inr (i, e, (_, low, high), l, (view, (leaf, empty, _), below)) ↦
            grind (arith, elem-cut key _ l _ low high)
      ]
  contains_from-elem (suc h) (suc fuel) set node key b s sorted =
      elim (search-Step (suc h) set node key s sorted) [
        | inl (i, e, here, _) ↦ grind (arith, in_order-subtrees (suc h) set node)
        | inr (i, e, (_, low, high), l, (view, (leaf, (n, child, shape, keys)), below)) ↦ grind (
          arith,
          elem-cut key _ l _ low high,
          contains_from-elem h fuel set n key (omega arith) shape,
        )
      ]
