-- ===== src/Std/BTree/Iter/Pending.antt =====
-- The iterator of the ordered set yields the keys in order (concordium-std/src/state_btree.rs).
use rust_smart_contract.Base.{
  inl, inr, ℕ, zero, suc, ◌≤◌, ◌<◌, ◌≡◌, refl, Option, none, some, List, [], ◌∷◌, ◌++◌, length,
  get_elem?, arith, Option-cases,
}
use rust_smart_contract.Std.BTree.Node.{Node, NodeId, StateBTreeSet, get_node}
use rust_smart_contract.Std.BTree.Search.{get_child}
use rust_smart_contract.Std.BTree.View.{weave, before, after, weave_at, in_order, Shape}
use rust_smart_contract.Std.BTree.Search.Descend.{subtrees, in_order-subtrees, length-subtrees}
use rust_smart_contract.Std.BTree.Iter.{Iter, Stack}

module _ {ℓ} {K : Type ℓ} where
  -- The keys that the nodes on the stack still give: those after each index.
  abbrev pub Pending : ℕ → StateBTreeSet K → Stack K → List K → Type ℓ
  Pending fuel set [] l = l ≡ []
  Pending fuel set ((node, i) ∷ stack) l =
      (h : ℕ) × (m : List K) × Shape h set node
      × (h ≤ fuel)
      × (i < length node.keys)
      × (l ≡ after i node.keys (subtrees h set node) ++ m)
      × Pending fuel set stack m

  -- The subtree that the iterator enters next.
  abbrev pub Ahead : ℕ → StateBTreeSet K → Option NodeId → List K → Type ℓ
  Ahead fuel set none l = l ≡ []
  Ahead fuel set (some id) l =
      (h : ℕ) × (node : Node K) × (get_node id set ≡ some node)
      × Shape h set node
      × (h < fuel)
      × (l ≡ in_order h set node)

  -- `it` will give the keys `l`.
  abbrev pub Yields : ℕ → StateBTreeSet K → Iter K → List K → Type ℓ
  Yields fuel set it l =
      (first : List K) × (rest : List K) × (l ≡ first ++ rest)
      × Ahead fuel set it.next_node first
      × Pending fuel set it.depth_first_stack rest
      × (it.remaining ≡ length l)

  before_zero : (ks : List K) (ls : List (List K)) → before 0 ks ls ≡ []
  unfolding before
  before_zero ks [] = refl
  before_zero ks (l ∷ ls) = refl

  pub after_next :
      (i : ℕ) (ks : List K) (ls : List (List K)) (k : K) (l : List K)
      → length ls ≡ suc (length ks)
      → get_elem? ks i ≡ some k
      → get_elem? ls (suc i) ≡ some l
      → after i ks ls ≡ k ∷ (l ++ after (suc i) ks ls)
  unfolding after weave
  after_next i [] ls k l h e f = ground arith
  after_next i (j ∷ ks) [] k l h e f = ground arith
  after_next zero (j ∷ ks) (m ∷ ls) k l h e f = grind (arith, weave_at 0 ks ls l, before_zero ks ls)
  after_next (suc i) (j ∷ ks) (m ∷ ls) k l h e f = after_next i ks ls k l (omega arith) e f

  pub after_last : (i : ℕ) (ks : List K) (ls : List (List K)) → length ks ≤ i → after i ks ls ≡ []
  unfolding after
  after_last i ks [] b = refl
  after_last zero [] (l ∷ ls) b = refl
  after_last (suc i) [] (l ∷ ls) b = refl
  after_last zero (k ∷ ks) (l ∷ ls) b = ground arith
  after_last (suc i) (k ∷ ks) (l ∷ ls) b = after_last i ks ls (omega arith)

  pub after_first :
      (h : ℕ) (set : StateBTreeSet K) (node : Node K) (l : List K)
      → Shape h set node
      → get_elem? (subtrees h set node) 0 ≡ some l
      → in_order h set node ≡ l ++ after 0 node.keys (subtrees h set node)
  after_first h set node l s e = grind (
    arith,
    in_order-subtrees h set node,
    weave_at 0 node.keys (subtrees h set node) l (length-subtrees h set node s) e,
    before_zero node.keys (subtrees h set node),
  )

  pub child_id :
      (set : StateBTreeSet K) (node n : Node K) (i : ℕ)
      → get_child set node i ≡ some n
      → (id : NodeId) × (get_elem? node.children i ≡ some id) × (get_node id set ≡ some n)
  unfolding get_child
  child_id set node n i e = elim (Option-cases (get_elem? node.children i)) [
    | inl f ↦ ground arith
    | inr (id, f) ↦ (id, f, ground arith)
  ]
