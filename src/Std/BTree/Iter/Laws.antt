-- ===== src/Std/BTree/Iter/Laws.antt =====
-- The iterator of the ordered set yields the keys in order (concordium-std/src/state_btree.rs).
use native.Mathlib.Decide.{dec_lt}
use mathlib.Core.Path.{subst}
use mathlib.Core.List.{append_assoc}
use rust_smart_contract.Base.{
  ℕ, zero, suc, ◌+◌, ◌-◌, ◌%◌, ◌^◌, ◌≤◌, ◌<◌, ◌≡◌, refl, sym, ◌∙◌, true, false, Option, none, some,
  List, [], ◌∷◌, ◌++◌, length, get_elem?, arith,
}
use rust_smart_contract.Std.BTree.Node.{Node, NodeId, StateBTreeSet, is_leaf, get_node, ◌>>=◌}
use rust_smart_contract.Std.BTree.View.{weave, after, in_order, Shape}
use rust_smart_contract.Std.BTree.Search.Descend.{
  subtrees, Shape-Descends, length-subtrees, Shape-nonempty,
}
use rust_smart_contract.Std.BTree.Iter.{
  Iter, Stack, descend, descend_from, drop_exhausted, next_child, take_key, next,
}
use rust_smart_contract.Std.BTree.Iter.Pending.{
  Ahead, Pending, Yields, after_first, after_last, after_next, child_id,
}

module _ {ℓ} {K : Type ℓ} where
  descend_leaf :
      (steps : ℕ) (set : StateBTreeSet K) (id : NodeId) (node : Node K) (stack : Stack K)
      → get_node id set ≡ some node
      → is_leaf node ≡ true
      → descend (suc steps) set id stack ≡ some ((node, 0) ∷ stack)
  unfolding descend
  descend_leaf steps set id node stack g leaf = grind (arith, g, leaf)

  descend_node :
      (steps : ℕ) (set : StateBTreeSet K) (id child : NodeId) (node : Node K) (stack : Stack K)
      → get_node id set ≡ some node
      → is_leaf node ≡ false
      → get_elem? node.children 0 ≡ some child
      → descend (suc steps) set id stack ≡ descend steps set child ((node, 0) ∷ stack)
  unfolding descend
  descend_node steps set id child node stack g leaf c = grind (arith, g, leaf, c)

  descend-Pending :
      (fuel h steps : ℕ) (set : StateBTreeSet K) (id : NodeId) (node : Node K) (stack : Stack K)
      (m : List K)
      → h < steps
      → h ≤ fuel
      → get_node id set ≡ some node
      → Shape h set node
      → Pending fuel set stack m
      → (s : Stack K) × (descend steps set id stack ≡ some s)
        × Pending fuel set s (in_order h set node ++ m)
  descend-Pending fuel h zero set id node stack m b c g s p = ground arith
  descend-Pending fuel zero (suc steps) set id node stack m b c g s p =
      let (l, (leaf, empty, _), e) = Shape-Descends 0 set node 0 s (omega arith) in
      (
        (node, 0) ∷ stack,
        descend_leaf steps set id node stack g leaf,
        (0, m, s, c, Shape-nonempty 0 set node s, grind (arith, after_first 0 set node l s e), p),
      )
  descend-Pending fuel (suc h) (suc steps) set id node stack m b c g s p =
      let (l, (leaf, (n, child, shape, keys)), e) =
        Shape-Descends (suc h) set node 0 s (omega arith) in
      let (cid, f, at) = child_id set node n 0 child in
      let right = after 0 node.keys (subtrees (suc h) set node) in
      let (stack', e', p') =
        descend-Pending fuel h steps set cid n ((node, 0) ∷ stack) (right ++ m) (omega arith)
          (omega arith) at shape (suc h, m, s, c, Shape-nonempty (suc h) set node s, refl, p) in
      (
        stack',
        descend_node steps set id cid node stack g leaf f ∙ e',
        subst (Pending fuel set stack')
            (grind
              (arith, after_first (suc h) set node l s e, append_assoc (in_order h set n) right m))
            p',
      )

  drop_kept :
      (i : ℕ) (node : Node K) (stack : Stack K)
      → i < length node.keys
      → (node, i) ∷ stack ≡ drop_exhausted node i stack
  unfolding drop_exhausted
  drop_kept i node stack b = ground (arith, b)

  drop_last :
      (i : ℕ) (node : Node K) (stack : Stack K)
      → i ≡ length node.keys
      → stack ≡ drop_exhausted node i stack
  unfolding drop_exhausted
  drop_last i node stack b = ground (arith, b)

  -- what the top of the stack gives once its index is increased
  drop_exhausted-Pending :
      (fuel h i : ℕ) (set : StateBTreeSet K) (node : Node K) (stack : Stack K) (m : List K)
      → Shape h set node
      → h ≤ fuel
      → i ≤ length node.keys
      → Pending fuel set stack m
      → Pending fuel set
          (drop_exhausted node i stack)
          (after i node.keys (subtrees h set node) ++ m)
  drop_exhausted-Pending fuel h i set node stack m s c b p =
      let right = after i node.keys (subtrees h set node) in
      elim (dec_lt i (length node.keys)) [
        | yes l ↦
            subst (λ (t : Stack K). Pending fuel set t (right ++ m)) (drop_kept i node stack l)
              (h, m, s, c, l, refl, p)
        | no l ↦
            subst (λ (r : List K). Pending fuel set (drop_exhausted node i stack) (r ++ m))
              (sym (after_last i node.keys (subtrees h set node) (omega arith)))
              (subst (λ (t : Stack K). Pending fuel set t m) (drop_last i node stack (omega arith))
                p)
      ]

  next_child-Ahead :
      (fuel h i : ℕ) (set : StateBTreeSet K) (node : Node K)
      → Shape h set node
      → h ≤ fuel
      → i ≤ length node.keys
      → (child : Option NodeId) × (l : List K) × (next_child node i ≡ some child)
        × Ahead fuel set child l
        × (get_elem? (subtrees h set node) i ≡ some l)
  unfolding next_child
  next_child-Ahead fuel zero i set node s c b =
      let (l, (leaf, empty, _), e) = Shape-Descends 0 set node i s b in
      (none, l, grind (arith, leaf), empty, e)
  next_child-Ahead fuel (suc h) i set node s c b =
      let (l, (leaf, (n, child, shape, keys)), e) = Shape-Descends (suc h) set node i s b in
      let (cid, f, at) = child_id set node n i child in
      (some cid, l, grind (arith, leaf, f), (h, n, at, shape, omega arith, keys), e)

  pub key_at : (ks : List K) (i : ℕ) → i < length ks → (k : K) × (get_elem? ks i ≡ some k)
  key_at [] i b = ground arith
  key_at (k ∷ ks) zero b = (k, refl)
  key_at (k ∷ ks) (suc i) b = key_at ks i (omega arith)

  take_key_eq :
      (remaining i : ℕ) (node : Node K) (stack : Stack K) (key : K) (child : Option NodeId)
      → get_elem? node.keys i ≡ some key
      → next_child node (suc i) ≡ some child
      → take_key remaining ((node, i) ∷ stack)
        ≡ some (
          some key,
          record {
            remaining = (remaining + (2 ^ 32 - 1)) % 2 ^ 32;
            next_node = child;
            depth_first_stack = drop_exhausted node (suc i) stack;
          },
        )
  unfolding take_key
  take_key_eq remaining i node stack key child e f = grind (arith, e, f)

  -- `take_key` gives the first of the pending keys, and the iterator that it leaves the others.
  take_key-Yields :
      (fuel : ℕ) (set : StateBTreeSet K) (remaining : ℕ) (stack : Stack K) (k : K) (l : List K)
      → remaining ≡ suc (length l)
      → length l < 2 ^ 32
      → Pending fuel set stack (k ∷ l)
      → (it : Iter K) × (take_key remaining stack ≡ some (some k, it)) × Yields fuel set it l
  take_key-Yields fuel set remaining [] k l r b p = ground arith
  take_key-Yields fuel set remaining ((node, i) ∷ stack) k l r b (h, m, s, c, i<n, e, p) =
      let ls = subtrees h set node in
      let right = after (suc i) node.keys ls in
      let (key, at) = key_at node.keys i i<n in
      let (child, first, f, ahead, g) = next_child-Ahead fuel h (suc i) set node s c i<n in
      let split = after_next i node.keys ls key first (length-subtrees h set node s) at g in
      let assoc = append_assoc first right m in
      let same : k ≡ key = ground (arith, e, split) in
      let rest : l ≡ first ++ (right ++ m) = grind (arith, e, split, assoc) in
      (
        record {
          remaining = (remaining + (2 ^ 32 - 1)) % 2 ^ 32;
          next_node = child;
          depth_first_stack = drop_exhausted node (suc i) stack;
        },
        take_key_eq remaining i node stack key child at f ∙ rw (sym same) refl,
        (
          first,
          right ++ m,
          rest,
          ahead,
          drop_exhausted-Pending fuel h (suc i) set node stack m s c i<n p,
          omega (arith, r, b),
        ),
      )

  next_eq :
      (fuel : ℕ) (set : StateBTreeSet K) (it : Iter K) (stack : Stack K)
      → descend_from fuel set it.next_node it.depth_first_stack ≡ some stack
      → next fuel set it ≡ take_key it.remaining stack
  unfolding next
  next_eq fuel set it stack e = grind (arith, e)

  -- the loop of `next` on what the iterator enters next
  descend_from-Pending :
      (fuel : ℕ) (set : StateBTreeSet K) (id : Option NodeId) (stack : Stack K) (l m : List K)
      → Ahead fuel set id l
      → Pending fuel set stack m
      → (s : Stack K) × (descend_from fuel set id stack ≡ some s) × Pending fuel set s (l ++ m)
  unfolding descend_from
  descend_from-Pending fuel set none stack l m a p =
      (stack, refl, subst (λ (r : List K). Pending fuel set stack (r ++ m)) (sym a) p)
  descend_from-Pending fuel set (some id) stack l m (h, node, g, s, b, e) p =
      let (stack', e', p') =
        descend-Pending fuel h fuel set id node stack m b (omega arith) g s p in
      (stack', e', subst (λ (r : List K). Pending fuel set stack' (r ++ m)) (sym e) p')

  -- `next` gives the first key that is left, and the iterator then gives the others.
  pub next-Yields :
      (fuel : ℕ) (set : StateBTreeSet K) (it : Iter K) (k : K) (l : List K)
      → length l + 1 < 2 ^ 32
      → Yields fuel set it (k ∷ l)
      → (it' : Iter K) × (next fuel set it ≡ some (some k, it')) × Yields fuel set it' l
  next-Yields fuel set it k l b (first, rest, e, ahead, p, r) =
      let (stack, d, p') =
        descend_from-Pending fuel set it.next_node it.depth_first_stack first rest ahead p in
      let (it', t, y) =
        take_key-Yields fuel set it.remaining stack k l (omega (arith, r)) (omega arith)
          (subst (Pending fuel set stack) (sym e) p') in
      (it', next_eq fuel set it stack d ∙ t, y)

  after-some :
      (i : ℕ) (ks : List K) (ls : List (List K))
      → i < length ks
      → length ls ≡ suc (length ks)
      → (k : K) × (r : List K) × (after i ks ls ≡ k ∷ r)
  unfolding after
  after-some i [] ls b h = ground arith
  after-some i (k ∷ ks) [] b h = ground arith
  after-some zero (k ∷ ks) (l ∷ ls) b h = (k, weave ks ls, refl)
  after-some (suc i) (k ∷ ks) (l ∷ ls) b h = after-some i ks ls (omega arith) (omega arith)

  empty_stack :
      (fuel : ℕ) (set : StateBTreeSet K) (stack : Stack K) → Pending fuel set stack [] → stack ≡ []
  empty_stack fuel set [] p = refl
  empty_stack fuel set ((node, i) ∷ stack) (h, m, s, c, b, e, p) =
      let (k, r, f) = after-some i node.keys _ b (length-subtrees h set node s) in ground arith

  -- Where no key is left, `next` returns `None`.
  pub next_end :
      (fuel : ℕ) (set : StateBTreeSet K) (it : Iter K)
      → Yields fuel set it []
      → (it' : Iter K) × (next fuel set it ≡ some (none, it')) × Yields fuel set it' []
  unfolding take_key
  next_end fuel set it (first, rest, e, ahead, p, r) =
      let (stack, d, p') =
        descend_from-Pending fuel set it.next_node it.depth_first_stack first rest ahead p in
      let empty = empty_stack fuel set stack (subst (Pending fuel set stack) (sym e) p') in
      (
        record { remaining = it.remaining; next_node = none; depth_first_stack = [] },
        next_eq fuel set it stack d ∙ rw empty refl,
        ([], [], refl, refl, refl, r),
      )

  -- What a `for` loop over the iterator sees, in at most `steps` calls of `next`.
  unfoldable pub collect : ℕ → ℕ → StateBTreeSet K → Iter K → Option (List K)
  collect fuel zero set it = none
  collect fuel (suc steps) set it = next fuel set it >>= λ (found, it'). elim found [
    | none ↦ some []
    | some key ↦ collect fuel steps set it' >>= λ keys. some (key ∷ keys)
  ]

  pub collect-Yields :
      (fuel steps : ℕ) (set : StateBTreeSet K) (it : Iter K) (l : List K)
      → length l < steps
      → length l < 2 ^ 32
      → Yields fuel set it l
      → collect fuel steps set it ≡ some l
  unfolding collect
  collect-Yields fuel zero set it l b c y = ground arith
  collect-Yields fuel (suc steps) set it [] b c y =
      let (it', e, y') = next_end fuel set it y in grind (arith, e)
  collect-Yields fuel (suc steps) set it (k ∷ l) b c y =
      let (it', e, y') = next-Yields fuel set it k l (omega arith) y in
      grind (arith, e, collect-Yields fuel steps set it' l (omega arith) (omega arith) y')
