-- ===== src/Std/BTree/Insert/Halves.antt =====
-- `split_child` on a full child: the two halves and the key between them
-- (concordium-std/src/state_btree.rs).
use mathlib.Core.Path.{subst}
use mathlib.Core.List.{append_assoc}
use rust_smart_contract.Base.{
  ℕ, zero, suc, ◌+◌, ◌≤◌, ◌≡◌, refl, sym, ap, ◌∙◌, some, List, [], ◌∷◌, ◌++◌, map, All, length,
  length-append, arith,
}
use rust_smart_contract.Std.BTree.Sorted.{All-append_left, All-append_right}
use rust_smart_contract.Std.BTree.Node.{
  Node, NodeId, StateBTreeSet, minimum_key_len, maximum_key_len, create_node, fetch_and_add,
}
use rust_smart_contract.Std.BTree.View.{weave, in_order, Shape}
use rust_smart_contract.Std.BTree.Search.Descend.{keys_under, length-map}
use rust_smart_contract.Std.BTree.Frame.{Kid}
use rust_smart_contract.Std.BTree.Insert.{split_off, split_children, pop, split_child}
use rust_smart_contract.Std.BTree.Insert.Cut.{
  added, insert_at-added, split_off_lem, pop_lem, weave-append,
}
use rust_smart_contract.Std.BTree.Insert.Split.{split_set}

pub map-append {ℓ κ} :
    {A : Type ℓ} {B : Type κ} (f : A → B) (xs ys : List A) → map f (xs ++ ys) ≡ map f xs ++ map f ys
map-append f [] ys = refl
map-append f (x ∷ xs) ys = ap (λ (t : List _). f x ∷ t) (map-append f xs ys)

module _ {ℓ} {K : Type ℓ} where
  -- the children of the halves of a node at a height
  abbrev pub HalfChildren : ℕ → Node K → Node K → Type 0
  HalfChildren zero kept larger = (kept.children ≡ []) × (larger.children ≡ [])
  HalfChildren (suc h) kept larger =
      (length kept.children ≡ suc (length kept.keys))
      × (length larger.children ≡ suc (length larger.keys))

  -- `child` is `kept`, a key and `larger`.
  abbrev pub Halves : ℕ → Node K → Node K → K → Node K → Type ℓ
  Halves h child kept k larger =
      (child.keys ≡ kept.keys ++ k ∷ larger.keys)
      × (child.children ≡ kept.children ++ larger.children)
      × (1 ≤ length kept.keys)
      × (1 ≤ length larger.keys)
      × HalfChildren h kept larger

  -- what `split_child` computes of the child alone
  abbrev pub Run : ℕ → Node K → Node K → K → Node K → Type ℓ
  Run degree child kept k larger =
      (front : List K) × (split_off (minimum_key_len degree + 1) child.keys
        ≡ some (front, larger.keys))
      × (split_children (minimum_key_len degree + 1) child ≡ some (kept.children, larger.children))
      × (pop front ≡ some (kept.keys, k))

  half_children :
      (h degree n m : ℕ) (set : StateBTreeSet K) (child : Node K)
      → 2 ≤ degree
      → Shape h set child
      → length child.keys ≡ suc (n + m)
      → suc n ≡ minimum_key_len degree + 1
      → (cs : List NodeId) × (ds : List NodeId) × (split_children (minimum_key_len degree + 1) child
          ≡ some (cs, ds))
        × (child.children ≡ cs ++ ds)
        × ((ks ls : List K)
            → length ks ≡ n
            → length ls ≡ m
            → HalfChildren h
                (record { keys = ks; children = cs })
                (record { keys = ls; children = ds }))
  unfolding split_children
  half_children zero degree n m set child d s e f =
      ([], [], ground (arith, s.1), s.1, λ ks ls p q. (refl, refl))
  half_children (suc h) degree n m set child d s e f =
      let (cs, ds, run, split, len) =
        split_off_lem (minimum_key_len degree + 1) child.children (omega (arith, s.1)) in
      (
        cs,
        ds,
        grind (arith, run, s.1),
        split,
        λ ks ls p q. (
          omega (arith, p, len, f),
          omega (arith, length-append cs ds, ap length split, s.1, e, len, f, q),
        ),
      )

  pub full-Halves :
      (h degree : ℕ) (set : StateBTreeSet K) (child : Node K)
      → 2 ≤ degree
      → Shape h set child
      → length child.keys ≡ maximum_key_len degree
      → (kept : Node K) × (k : K) × (larger : Node K) × Halves h child kept k larger
        × Run degree child kept k larger
  full-Halves h degree set child d s full =
      let (front, back, run, split, len) =
        split_off_lem (minimum_key_len degree + 1) child.keys (omega (arith, full)) in
      let (ks, k, popped, front_eq, n) = pop_lem front (omega (arith, len)) in
      let total = length-append front back in
      let (cs, ds, cut, children, heights) =
        half_children h degree (length ks) (length back) set child d s
          (omega (arith, total, ap length split, n)) (omega (arith, n, len)) in
      (
        record { keys = ks; children = cs },
        k,
        record { keys = back; children = ds },
        (
          split ∙ ap (λ (t : List K). t ++ back) front_eq ∙ append_assoc ks (k ∷ []) back,
          children,
          omega (arith, n, len),
          omega (arith, total, ap length split, full, len),
          heights ks back refl refl,
        ),
        (front, run, cut, popped),
      )

  -- the parent that `split_child` writes
  abbrev pub split_parent : Node K → ℕ → K → NodeId → Node K
  split_parent node i k larger_id = record {
    keys = added i k node.keys;
    children = added (suc i) larger_id node.children;
  }

  pub split_child_eq :
      (degree i : ℕ) (set : StateBTreeSet K) (id cid : NodeId) (node child kept larger : Node K)
      (k : K)
      → Run degree child kept k larger
      → i ≤ length node.keys
      → length node.children ≡ suc (length node.keys)
      → let next = set.next_node_id in
        split_child degree id node i cid child set
        ≡ some (
          split_parent node i k next,
          next,
          split_set set id cid (split_parent node i k next) kept larger,
        )
  unfolding split_child create_node fetch_and_add
  split_child_eq degree i set id cid node child kept larger k (front, run, cut, popped) b len =
      grind (
        arith,
        run,
        cut,
        popped,
        insert_at-added i k node.keys b,
        insert_at-added (i + 1) set.next_node_id node.children (omega (arith, len)),
      )

  -- The halves give the keys of the child, given that the child's subtrees are as they were.
  pub Halves-in_order :
      (h : ℕ) (set set' : StateBTreeSet K) (child kept : Node K) (k : K) (larger : Node K)
      → Halves h child kept k larger
      → Shape h set child
      → ((h' : ℕ)
          → h ≡ suc h'
          → All (Kid h' set') child.children
            × (map (keys_under h' set') child.children ≡ map (keys_under h' set) child.children))
      → Shape h set' kept
        × Shape h set' larger
        × (in_order h set child ≡ in_order h set' kept ++ k ∷ in_order h set' larger)
  unfolding in_order
  Halves-in_order zero set set' child kept k larger (keys, children, p, q, (c, d)) s f =
      ((p, c, tt), (q, d, tt), keys)
  Halves-in_order (suc h) set set' child kept k larger (keys, children, p, q, (c, d)) s f =
      let (kids, same) = f h refl in
      let both = subst (All (Kid h set')) children kids in
      (
        (p, c, All-append_left _ kept.children larger.children both),
        (q, d, All-append_right _ kept.children larger.children both),
        ap (λ (t : List K). weave t (map (keys_under h set) child.children)) keys
            ∙ ap (weave (kept.keys ++ k ∷ larger.keys)) (sym same)
            ∙ ap
                (λ (t : List NodeId).
                  weave (kept.keys ++ k ∷ larger.keys) (map (keys_under h set') t))
                children
            ∙ ap (weave (kept.keys ++ k ∷ larger.keys))
                (map-append (keys_under h set') kept.children larger.children)
            ∙ weave-append kept.keys k larger.keys (map (keys_under h set') kept.children)
                (map (keys_under h set') larger.children)
                (length-map (keys_under h set') kept.children ∙ c)
                (length-map (keys_under h set') larger.children ∙ d),
      )
