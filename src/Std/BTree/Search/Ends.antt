-- ===== src/Std/BTree/Search/Ends.antt =====
-- The first and the last key of the ordered set (concordium-std/src/state_btree.rs: `first`,
-- `last`, `get_lowest_key`, `get_highest_key`).
use mathlib.Core.Path.{subst}
use mathlib.Core.List.{append-nil}
use rust_smart_contract.Base.{
  ℕ, zero, suc, ◌-◌, ◌≤◌, ◌<◌, ◌≡◌, refl, sym, ap, ◌∙◌, true, false, Option, none, some, List, [],
  ◌∷◌, ◌++◌, length, length-append, get_elem?, arith,
}
use rust_smart_contract.Std.Ord.{Ord}
use rust_smart_contract.Std.BTree.Node.{Node, StateBTreeSet, is_leaf, ◌>>=◌}
use rust_smart_contract.Std.BTree.View.{weave, before, after, weave_at, in_order, Shape}
use rust_smart_contract.Std.BTree.Search.Descend.{
  subtrees, Shape-Descends, in_order-subtrees, length-subtrees, Shape-nonempty,
}
use rust_smart_contract.Std.BTree.Iter.Pending.{after_first, after_last}
use rust_smart_contract.Std.BTree.Search.{
  lowest_key_from, highest_key_from, get_lowest_key, get_highest_key, first, last,
}
use rust_smart_contract.Std.BTree.Tree.{Holds, at_root_lem}

module _ {ℓ} {A : Type ℓ} where
  -- the last entry of a list
  abbrev pub last_of : List A → Option A
  last_of l = get_elem? l (length l - 1)

  first-append : (a b : List A) → 1 ≤ length a → get_elem? (a ++ b) 0 ≡ get_elem? a 0
  first-append [] b h = ground arith
  first-append (x ∷ a) b h = refl

  get_elem-append :
      (a b : List A) (i : ℕ) → length a ≤ i → get_elem? (a ++ b) i ≡ get_elem? b (i - length a)
  get_elem-append [] b i h = ap (get_elem? b) (omega arith)
  get_elem-append (x ∷ a) b zero h = ground arith
  get_elem-append (x ∷ a) b (suc i) h =
      get_elem-append a b i (omega arith) ∙ ap (get_elem? b) (omega arith)

  last-append : (a b : List A) → 1 ≤ length b → last_of (a ++ b) ≡ last_of b
  last-append a b h =
      get_elem-append a b (length (a ++ b) - 1) (omega (arith, length-append a b))
      ∙ ap (get_elem? b) (omega (arith, length-append a b))

module _ {ℓ} {K : Type ℓ} where
  weave_nonempty : (ks : List K) (ls : List (List K)) → 1 ≤ length ks → 1 ≤ length (weave ks ls)
  unfolding weave
  weave_nonempty [] ls b = ground arith
  weave_nonempty (k ∷ ks) [] b = b
  weave_nonempty (k ∷ ks) (l ∷ ls) b = omega (arith, length-append l (k ∷ weave ks ls))

  in_order_nonempty :
      (h : ℕ) (set : StateBTreeSet K) (node : Node K)
      → Shape h set node
      → 1 ≤ length (in_order h set node)
  in_order_nonempty h set node s =
      subst (λ (t : List K). 1 ≤ length t) (sym (in_order-subtrees h set node))
        (weave_nonempty node.keys (subtrees h set node) (Shape-nonempty h set node s))

  leaf_keys : (set : StateBTreeSet K) (node : Node K) → in_order 0 set node ≡ node.keys
  unfolding in_order
  leaf_keys set node = refl

  pub lowest_key_from-first :
      (h fuel : ℕ) (set : StateBTreeSet K) (node : Node K)
      → h < fuel
      → Shape h set node
      → lowest_key_from fuel set node ≡ get_elem? (in_order h set node) 0
  unfolding lowest_key_from
  lowest_key_from-first h zero set node b s = ground arith
  lowest_key_from-first zero (suc fuel) set node b s = grind (arith, s.1, leaf_keys set node)
  lowest_key_from-first (suc h) (suc fuel) set node b s =
      let (l, (leaf, (n, child, shape, keys)), e) =
        Shape-Descends (suc h) set node 0 s (omega arith) in
      grind (
        arith,
        leaf,
        child,
        lowest_key_from-first h fuel set n (omega arith) shape,
        after_first (suc h) set node l s e,
        first-append l (after 0 node.keys (subtrees (suc h) set node))
            (subst (λ (t : List K). 1 ≤ length t) (sym keys) (in_order_nonempty h set n shape)),
      )

  -- the keys up to the last child's
  last_child :
      (h : ℕ) (set : StateBTreeSet K) (node : Node K) (l : List K)
      → Shape h set node
      → get_elem? (subtrees h set node) (length node.keys) ≡ some l
      → in_order h set node ≡ before (length node.keys) node.keys (subtrees h set node) ++ l
  last_child h set node l s e = grind (
    arith,
    in_order-subtrees h set node,
    weave_at (length node.keys) node.keys (subtrees h set node) l (length-subtrees h set node s) e,
    after_last (length node.keys) node.keys (subtrees h set node) (omega arith),
    append-nil l,
  )

  pub highest_key_from-last :
      (h fuel : ℕ) (set : StateBTreeSet K) (node : Node K)
      → h < fuel
      → Shape h set node
      → highest_key_from fuel set node ≡ last_of (in_order h set node)
  unfolding highest_key_from
  highest_key_from-last h zero set node b s = ground arith
  highest_key_from-last zero (suc fuel) set node b s = grind (arith, s.1, leaf_keys set node)
  highest_key_from-last (suc h) (suc fuel) set node b s =
      let (l, (leaf, (n, child, shape, keys)), e) =
        Shape-Descends (suc h) set node (length node.keys) s (omega arith) in
      let at : length node.children - 1 ≡ length node.keys = omega (arith, s.1) in
      grind (
        arith,
        leaf,
        child,
        at,
        highest_key_from-last h fuel set n (omega arith) shape,
        last_child (suc h) set node l s e,
        last-append (before (length node.keys) node.keys (subtrees (suc h) set node)) l
            (subst (λ (t : List K). 1 ≤ length t) (sym keys) (in_order_nonempty h set n shape)),
      )

  get_elem-some : (l : List K) (i : ℕ) → i < length l → (k : K) × (get_elem? l i ≡ some k)
  get_elem-some [] i b = ground arith
  get_elem-some (k ∷ l) zero b = (k, refl)
  get_elem-some (k ∷ l) (suc i) b = get_elem-some l i (omega arith)

  -- what `first` and `last` compute at a root
  first_at_root :
      (h fuel : ℕ) (set : StateBTreeSet K) (root : Node K)
      → h < fuel
      → Shape h set root
      → elim (is_leaf root) [
        | true ↦ get_elem? root.keys 0 >>= λ key. some (some key)
        | false ↦ get_lowest_key fuel set root 0 >>= λ key. some (some key)
      ]
        ≡ some (get_elem? (in_order h set root) 0)
  unfolding get_lowest_key lowest_key_from
  first_at_root h fuel set root b s =
      let (k, e) = get_elem-some (in_order h set root) 0 (in_order_nonempty h set root s) in
      grind (arith, e, lowest_key_from-first h (suc fuel) set root (omega arith) s)

  last_at_root :
      (h fuel : ℕ) (set : StateBTreeSet K) (root : Node K)
      → h < fuel
      → Shape h set root
      → elim (is_leaf root) [
        | true ↦ get_elem? root.keys (length root.keys - 1) >>= λ key. some (some key)
        | false ↦
            get_highest_key fuel set root (length root.children - 1) >>= λ key. some (some key)
      ]
        ≡ some (last_of (in_order h set root))
  unfolding get_highest_key highest_key_from
  last_at_root h fuel set root b s =
      let l = in_order h set root in
      let (k, e) = get_elem-some l (length l - 1) (omega (arith, in_order_nonempty h set root s)) in
      grind (arith, e, highest_key_from-last h (suc fuel) set root (omega arith) s)

module _ {ℓ} {K : Type ℓ} ⦃o : Ord K⦄ where
  -- On a set that is a tree holding a list of keys, and with fuel above the height, `first` returns
  -- the first key of the list and `last` the last one, if the list has one.
  pub first_and_last :
      (h fuel : ℕ) (set : StateBTreeSet K) (l : List K)
      → h < fuel
      → Holds h set l
      → (first fuel set ≡ some (get_elem? l 0)) × (last fuel set ≡ some (last_of l))
  unfolding first last
  first_and_last h fuel set l b (r, sorted, u, len) = (
    at_root_lem h set set.root l none _ (λ m. get_elem? m 0) refl r refl
        (λ node shape keys.
          first_at_root h fuel set node b shape
          ∙ ap (λ (t : List K). some (get_elem? t 0)) (sym keys)),
    at_root_lem h set set.root l none _ (λ m. last_of m) refl r refl
        (λ node shape keys.
          last_at_root h fuel set node b shape ∙ ap (λ (t : List K). some (last_of t)) (sym keys)),
  )
