-- ===== src/Std/BTree/Search/Descend.antt =====
-- One step of a look-up: the subtree that the search of a node goes on with
-- (concordium-std/src/state_btree.rs).
use mathlib.Core.Path.{subst}
use rust_smart_contract.Base.{
  ◌⊎◌, inl, inr, ℕ, zero, suc, ◌≤◌, ◌<◌, ◌≡◌, refl, sym, ap, ◌∙◌, true, false, Option, none, some,
  List, [], ◌∷◌, ◌++◌, map, All, length, get_elem?, arith,
}
use rust_smart_contract.Std.Ord.{Ord}
use rust_smart_contract.Std.BTree.Sorted.{Sorted, or_else, Sorted-right, Sorted-prefix}
use rust_smart_contract.Std.BTree.Node.{
  Node, NodeId, StateBTreeSet, missing, found, Search-cases, binary_search, is_leaf, get_node,
}
use rust_smart_contract.Std.BTree.Search.{get_child}
use rust_smart_contract.Std.BTree.View.{weave, before, after, weave_at, in_order, Shape}
use rust_smart_contract.Std.BTree.Search.Locate.{Between, Here, missing-Between, found-Here}

pub length-map {ℓ κ} :
    {A : Type ℓ} {B : Type κ} (f : A → B) (xs : List A) → length (map f xs) ≡ length xs
length-map f [] = refl
length-map f (x ∷ xs) = ap {B = ℕ} suc (length-map f xs)

module _ {ℓ} {K : Type ℓ} where
  -- the keys of the subtree under an id
  abbrev pub keys_under : ℕ → StateBTreeSet K → NodeId → List K
  keys_under h set id = elim (get_node id set) [ none ↦ [] | some n ↦ in_order h set n ]

  -- a leaf has an empty subtree around every key
  abbrev pub blanks : List K → List (List K)
  blanks [] = [] ∷ []
  blanks (k ∷ ks) = [] ∷ blanks ks

  abbrev pub subtrees : ℕ → StateBTreeSet K → Node K → List (List K)
  subtrees zero set node = blanks node.keys
  subtrees (suc h) set node = map (keys_under h set) node.children

  weave-blanks : (ks : List K) → weave ks (blanks ks) ≡ ks
  unfolding weave
  weave-blanks [] = refl
  weave-blanks (k ∷ ks) = ap (λ (l : List K). k ∷ l) (weave-blanks ks)

  length-blanks : (ks : List K) → length (blanks ks) ≡ suc (length ks)
  length-blanks [] = refl
  length-blanks (k ∷ ks) = ap {B = ℕ} suc (length-blanks ks)

  pub in_order-subtrees :
      (h : ℕ) (set : StateBTreeSet K) (node : Node K)
      → in_order h set node ≡ weave node.keys (subtrees h set node)
  unfolding in_order
  in_order-subtrees zero set node = sym (weave-blanks node.keys)
  in_order-subtrees (suc h) set node = refl

  pub length-subtrees :
      (h : ℕ) (set : StateBTreeSet K) (node : Node K)
      → Shape h set node
      → length (subtrees h set node) ≡ suc (length node.keys)
  length-subtrees zero set node s = length-blanks node.keys
  length-subtrees (suc h) set node s = length-map (keys_under h set) node.children ∙ s.1

  pub Shape-nonempty :
      (h : ℕ) (set : StateBTreeSet K) (node : Node K) → Shape h set node → 0 < length node.keys
  Shape-nonempty zero set node s = s.0
  Shape-nonempty (suc h) set node s = s.0

  -- What a look-up finds below a node at an index, `l` being the keys there: nothing if the node
  -- is a leaf, and otherwise a child of the height below.
  abbrev pub Descends : ℕ → StateBTreeSet K → Node K → ℕ → List K → Type ℓ
  Descends zero set node i l = (is_leaf node ≡ true) × (l ≡ []) × Unit {ℓ}
  Descends (suc h) set node i l =
      (is_leaf node ≡ false)
      × ((n : Node K) × (get_child set node i ≡ some n) × Shape h set n × (l ≡ in_order h set n))

  get_elem-blanks : (ks : List K) (i : ℕ) → i ≤ length ks → get_elem? (blanks ks) i ≡ some []
  get_elem-blanks [] zero b = refl
  get_elem-blanks [] (suc i) b = ground arith
  get_elem-blanks (k ∷ ks) zero b = refl
  get_elem-blanks (k ∷ ks) (suc i) b = get_elem-blanks ks i (omega arith)

  child_of :
      (h : ℕ) (set : StateBTreeSet K) (ids : List NodeId) (i : ℕ)
      → i < length ids
      → All (λ id. (n : Node K) × (get_node id set ≡ some n) × Shape h set n) ids
      → (id : NodeId) × (n : Node K) × (get_elem? ids i ≡ some id)
        × (get_node id set ≡ some n)
        × Shape h set n
        × (get_elem? (map (keys_under h set) ids) i ≡ some (in_order h set n))
  child_of h set [] i b a = ground arith
  child_of h set (id ∷ ids) zero b ((n, e, s), a) = (id, n, refl, e, s, ground (arith, e))
  child_of h set (id ∷ ids) (suc i) b (s, a) = child_of h set ids i (omega arith) a

  pub Shape-Descends :
      (h : ℕ) (set : StateBTreeSet K) (node : Node K) (i : ℕ)
      → Shape h set node
      → i ≤ length node.keys
      → (l : List K) × Descends h set node i l × (get_elem? (subtrees h set node) i ≡ some l)
  unfolding get_child
  Shape-Descends zero set node i s b = ([], (ground arith, refl, tt), get_elem-blanks node.keys i b)
  Shape-Descends (suc h) set node i s b =
      let (id, n, e, g, shape, v) = child_of h set node.children i (omega arith) s.2 in
      (in_order h set n, (ground arith, (n, rw e g, shape, refl)), v)

pub or_else_assoc {ℓ} :
    {A : Type ℓ} (a b c : Option A) → or_else (or_else a b) c ≡ or_else a (or_else b c)
or_else_assoc none b c = refl
or_else_assoc (some x) b c = refl

pub get_elem_bound {ℓ} :
    {A : Type ℓ} (xs : List A) (i : ℕ) (x : A) → get_elem? xs i ≡ some x → suc i ≤ length xs
get_elem_bound [] i x e = ground arith
get_elem_bound (y ∷ xs) zero x e = omega arith
get_elem_bound (y ∷ xs) (suc i) x e = omega (arith, get_elem_bound xs i x e)

module _ {ℓ} {K : Type ℓ} ⦃o : Ord K⦄ where
  -- What a look-up knows when the key is missing in a node.
  abbrev pub Cut : ℕ → StateBTreeSet K → Node K → ℕ → List K → Type ℓ
  Cut h set node i l =
      (in_order h set node
        ≡ before i node.keys (subtrees h set node)
          ++ (l ++ after i node.keys (subtrees h set node)))
      × Descends h set node i l
      × Sorted l

  pub Cut-at :
      (h : ℕ) (set : StateBTreeSet K) (node : Node K) (i : ℕ)
      → Shape h set node
      → Sorted (in_order h set node)
      → i ≤ length node.keys
      → (l : List K) × Cut h set node i l
  Cut-at h set node i s o b =
      let (l, d, e) = Shape-Descends h set node i s b in
      let ls = subtrees h set node in
      let eq =
        in_order-subtrees h set node ∙ weave_at i node.keys ls l (length-subtrees h set node s) e in
      let sorted =
        Sorted-right (before i node.keys ls) (l ++ after i node.keys ls) (subst Sorted eq o) in
      (l, (eq, d, Sorted-prefix l (after i node.keys ls) sorted))

  -- The search of a node: it found the key, or it goes on in a subtree.
  abbrev pub Step : ℕ → StateBTreeSet K → Node K → K → Type ℓ
  Step h set node key =
      ((i : ℕ) × (binary_search node.keys key ≡ found i)
        × Here key node.keys (subtrees h set node) i
        × (suc i ≤ length node.keys))
      ⊎ ((i : ℕ) × (binary_search node.keys key ≡ missing i)
          × Between key node.keys (subtrees h set node) i
          × (l : List K) × Cut h set node i l)

  pub search-Step :
      (h : ℕ) (set : StateBTreeSet K) (node : Node K) (key : K)
      → Shape h set node
      → Sorted (in_order h set node)
      → Step h set node key
  search-Step h set node key s o =
      let enough = length-subtrees h set node s in
      let sorted = subst Sorted (in_order-subtrees h set node) o in
      elim (Search-cases (binary_search node.keys key)) [
        | inl (i, e) ↦
            let here = found-Here node.keys (subtrees h set node) key i enough sorted e in
            inl (i, e, here, get_elem_bound node.keys i key here.0)
        | inr (i, e) ↦
            let between = missing-Between node.keys (subtrees h set node) key i enough sorted e in
            let (l, cut) = Cut-at h set node i s o between.0 in inr (i, e, between, l, cut)
      ]
