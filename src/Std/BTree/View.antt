-- ===== src/Std/BTree/View.antt =====
-- The keys of a subtree in order, and the shape of a subtree of a given height
-- (concordium-std/src/state_btree.rs, the comments on `Node`).
use rust_smart_contract.Base.{
  ℕ, zero, suc, ◌≤◌, ◌≡◌, none, some, List, [], ◌∷◌, ◌++◌, map, All, length, get_elem?, arith,
}
use mathlib.Core.List.{append-nil, append_assoc}
use rust_smart_contract.Std.BTree.Node.{Node, NodeId, StateBTreeSet, get_node}

module _ {ℓ} {K : Type ℓ} where
  -- the keys of a node with the keys of its subtrees between them
  unfoldable pub weave : List K → List (List K) → List K
  weave ks [] = ks
  weave [] (l ∷ ls) = l
  weave (k ∷ ks) (l ∷ ls) = l ++ k ∷ weave ks ls

  -- what stands before, and after, the subtree at an index
  unfoldable pub before : ℕ → List K → List (List K) → List K
  before i ks [] = []
  before zero ks (l ∷ ls) = []
  before (suc i) [] (l ∷ ls) = []
  before (suc i) (k ∷ ks) (l ∷ ls) = l ++ k ∷ before i ks ls

  unfoldable pub after : ℕ → List K → List (List K) → List K
  after i ks [] = []
  after zero [] (l ∷ ls) = []
  after zero (k ∷ ks) (l ∷ ls) = k ∷ weave ks ls
  after (suc i) [] (l ∷ ls) = []
  after (suc i) (k ∷ ks) (l ∷ ls) = after i ks ls

  unfoldable pub subtree_keys : (NodeId → List K) → List NodeId → List (List K)
  subtree_keys f ids = map f ids

  -- The keys of a node's subtree in order. The height bounds how far the view descends.
  unfoldable pub in_order : ℕ → StateBTreeSet K → Node K → List K
  in_order zero set node = node.keys
  in_order (suc h) set node =
      weave node.keys
        (map (λ id. elim (get_node id set) [ none ↦ [] | some n ↦ in_order h set n ]) node.children)

  -- A node at height `h`: a leaf at height 0, and otherwise one child more than keys, all of them
  -- in the state and of height `h - 1`. No node is empty.
  abbrev pub Shape : ℕ → StateBTreeSet K → Node K → Type ℓ
  Shape zero set node = (1 ≤ length node.keys) × (node.children ≡ []) × Unit {ℓ}
  Shape (suc h) set node =
      (1 ≤ length node.keys)
      × (length node.children ≡ suc (length node.keys))
      × All (λ id. (n : Node K) × (get_node id set ≡ some n) × Shape h set n) node.children

  -- the view, seen from the subtree at an index
  pub weave_at :
      (i : ℕ) (ks : List K) (ls : List (List K)) (l : List K)
      → length ls ≡ suc (length ks)
      → get_elem? ls i ≡ some l
      → weave ks ls ≡ before i ks ls ++ (l ++ after i ks ls)
  unfolding weave before after
  weave_at i ks [] l h e = ground arith
  weave_at zero [] (m ∷ []) l h e = ground (arith, append-nil l)
  weave_at zero [] (m ∷ n ∷ ls) l h e = ground arith
  weave_at (suc i) [] (m ∷ []) l h e = ground arith
  weave_at (suc i) [] (m ∷ n ∷ ls) l h e = ground arith
  weave_at zero (k ∷ ks) (m ∷ ls) l h e = ground arith
  weave_at (suc i) (k ∷ ks) (m ∷ ls) l h e =
      grind (arith, weave_at i ks ls l, append_assoc m (k ∷ before i ks ls) (l ++ after i ks ls))
