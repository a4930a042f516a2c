-- ===== src/Std/BTree/Tree.antt =====
-- The ordered set as a strictly increasing list of keys: the invariant and what the look-ups
-- return (concordium-std/src/state_btree.rs).
use rust_smart_contract.Base.Dict.{get?}
use mathlib.Core.List.{append-nil}
use mathlib.Core.Path.{subst}
use rust_smart_contract.Base.{
  ℕ, ◌^◌, ◌<◌, ◌≡◌, refl, sym, ap, ◌∙◌, false, Option, none, some, List, [], length, arith,
}
use rust_smart_contract.Std.Ord.{Ord}
use rust_smart_contract.Std.BTree.Sorted.{
  Sorted, elem, first_above, first_from, last_below, last_upto, or_else,
}
use rust_smart_contract.Std.BTree.Node.{Node, NodeId, StateBTreeSet, get_node, new, clear}
use rust_smart_contract.Std.BTree.View.{in_order, Shape}
use rust_smart_contract.Std.BTree.Frame.{Unused}
use rust_smart_contract.Std.BTree.Search.{
  at_root, contains, higher, eq_or_higher, lower, eq_or_lower,
}
use rust_smart_contract.Std.BTree.Search.Contains.{contains_from-elem}
use rust_smart_contract.Std.BTree.Search.Higher.{
  higher_from-first_above, eq_or_higher_from-first_from,
}
use rust_smart_contract.Std.BTree.Search.Lower.{lower_from-last_below, eq_or_lower_from-last_upto}
use rust_smart_contract.Std.BTree.Iter.{iter}
use rust_smart_contract.Std.BTree.Iter.Laws.{collect, collect-Yields}
use rust_smart_contract.Std.BTree.Iter.Pending.{Ahead}

module _ {ℓ} {K : Type ℓ} ⦃o : Ord K⦄ where
  -- The tree under a root: it has the height, and its keys in order are `l`, which increases.
  abbrev pub Rooted : ℕ → StateBTreeSet K → Option NodeId → List K → Type ℓ
  Rooted h set none l = l ≡ []
  Rooted h set (some id) l =
      (node : Node K) × (get_node id set ≡ some node) × Shape h set node × (l ≡ in_order h set node)

  -- The set is a tree of height `h` that holds the keys `l`, in increasing order.
  abbrev pub Holds : ℕ → StateBTreeSet K → List K → Type ℓ
  Holds h set l = Rooted h set set.root l × Sorted l × Unused set × (set.len ≡ length l)

  -- An operation that asks the root, on a set that is empty or not.
  pub at_root_lem {κ} :
      {B : Type κ} (h : ℕ) (set : StateBTreeSet K) (id : Option NodeId) (l : List K) (empty : B)
      (f : Node K → Option B) (spec : List K → B)
      → set.root ≡ id
      → Rooted h set id l
      → empty ≡ spec []
      → ((node : Node K) → Shape h set node → l ≡ in_order h set node → f node ≡ some (spec l))
      → at_root set empty f ≡ some (spec l)
  unfolding at_root
  at_root_lem h set none l empty f spec r e n s = grind (arith, r, e, n)
  at_root_lem h set (some id) l empty f spec r (node, g, shape, keys) n s =
      grind (arith, r, g, s node shape keys)

  -- On a set that is a tree holding a list of keys, and with fuel above the height, `contains`
  -- returns, and says whether the key is in the list.
  pub contains-elem :
      (h fuel : ℕ) (set : StateBTreeSet K) (l : List K) (key : K)
      → h < fuel
      → Holds h set l
      → contains fuel set key ≡ some (elem key l)
  unfolding contains elem
  contains-elem h fuel set l key b (r, sorted, u, len) =
      at_root_lem h set set.root l false _ (elem key) refl r refl λ node shape keys.
        contains_from-elem h fuel set node key b shape (subst Sorted keys sorted)
        ∙ ap (λ (t : List K). some (elem key t)) (sym keys)

  -- The neighbours of a key: the least key above it (or from it on), the greatest below it (or up
  -- to it).
  abbrev pub Neighbours : ℕ → StateBTreeSet K → List K → K → Type ℓ
  Neighbours fuel set l key =
      (higher fuel set key ≡ some (first_above key l))
      × (eq_or_higher fuel set key ≡ some (first_from key l))
      × (lower fuel set key ≡ some (last_below key l))
      × (eq_or_lower fuel set key ≡ some (last_upto key l))

  or_else-none : (a : Option K) → or_else a none ≡ a
  or_else-none none = refl
  or_else-none (some k) = refl

  -- On a set that is a tree holding a list of keys, and with fuel above the height, `higher`,
  -- `eq_or_higher`, `lower` and `eq_or_lower` return and give the least key of the list above the
  -- given key or from it on, and the greatest below it or up to it, if there is one.
  pub higher-Neighbours :
      (h fuel : ℕ) (set : StateBTreeSet K) (l : List K) (key : K)
      → h < fuel
      → Holds h set l
      → Neighbours fuel set l key
  unfolding higher eq_or_higher lower eq_or_lower first_above first_from last_below last_upto
  higher-Neighbours h fuel set l key b (r, sorted, u, len) = (
    at_root_lem h set set.root l none _ (first_above key) refl r refl (λ node shape keys.
        higher_from-first_above h fuel set node key none b shape (subst Sorted keys sorted)
        ∙ at (first_above key) l _ keys),
    at_root_lem h set set.root l none _ (first_from key) refl r refl (λ node shape keys.
        eq_or_higher_from-first_from h fuel set node key none b shape (subst Sorted keys sorted)
        ∙ at (first_from key) l _ keys),
    at_root_lem h set set.root l none _ (last_below key) refl r refl (λ node shape keys.
        lower_from-last_below h fuel set node key none b shape (subst Sorted keys sorted)
        ∙ at (last_below key) l _ keys),
    at_root_lem h set set.root l none _ (last_upto key) refl r refl (λ node shape keys.
        eq_or_lower_from-last_upto h fuel set node key none b shape (subst Sorted keys sorted)
        ∙ at (last_upto key) l _ keys),
  )
    where
      at :
          (spec : List K → Option K) (l m : List K)
          → l ≡ m
          → ◌≡◌ {A = Option (Option K)} (some (or_else (spec m) none)) (some (spec l))
      at spec l m e = grind (arith, or_else-none (spec m), ap spec e)

  -- On a set that is a tree holding fewer than 2^32 keys, and with fuel above the height, a loop over
  -- `iter` ends after one step more than there are keys, and sees exactly the keys, in order.
  pub collect-iter :
      (h fuel steps : ℕ) (set : StateBTreeSet K) (l : List K)
      → h < fuel
      → length l < steps
      → length l < 2 ^ 32
      → Holds h set l
      → collect fuel steps set (iter set) ≡ some l
  unfolding iter
  collect-iter h fuel steps set l b c d (r, sorted, u, len) =
      collect-Yields fuel steps set (iter set) l c d
        (l, [], sym (append-nil l), ahead set.root r, refl, len)
    where
      ahead : (id : Option NodeId) → Rooted h set id l → Ahead fuel set id l
      ahead none e = e
      ahead (some id) (node, g, shape, keys) = (h, node, g, shape, b, keys)

  pub new-Holds : Holds 0 new []
  unfolding new get_node get?
  new-Holds = (refl, tt, (λ x b. refl), refl)

  -- `clear` leaves an empty set.
  pub clear-Holds : (set : StateBTreeSet K) → Holds 0 (clear set) []
  unfolding clear get_node get?
  clear-Holds set = (refl, tt, (λ x b. refl), refl)
