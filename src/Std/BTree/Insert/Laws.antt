-- ===== src/Std/BTree/Insert/Laws.antt =====
-- `insert` on the ordered set: it returns, the set is a tree again, and it holds the key in its
-- place (concordium-std/src/state_btree.rs).
use mathlib.Core.Path.{subst}
use rust_smart_contract.Base.{
  ℕ, suc, ◌+◌, ◌^◌, ◌≤◌, ◌<◌, ◌≡◌, refl, sym, ap, ◌∙◌, true, false, not, Option, none, some, List,
  [], ◌∷◌, length, arith, inl, inr, Bool-cases,
}
use rust_smart_contract.Base.Dict.{get?-insert_self, get?-insert_ne}
use rust_smart_contract.Std.Ord.{Ord}
use rust_smart_contract.Std.BTree.Sorted.{Sorted, elem, sorted_insert}
use rust_smart_contract.Std.BTree.Node.{
  Node, NodeId, StateBTreeSet, get_node, create_node, fetch_and_add, is_full, maximum_key_len,
}
use rust_smart_contract.Std.BTree.View.{in_order, Shape}
use rust_smart_contract.Std.BTree.Search.Descend.{search-Step, in_order-subtrees}
use rust_smart_contract.Std.BTree.Frame.{Unused}
use rust_smart_contract.Std.BTree.Insert.{insert, count_new}
use rust_smart_contract.Std.BTree.Insert.Inserted.{sorted_insert_present}
use rust_smart_contract.Std.BTree.Insert.NonFull.{insert_non_full-Inserts}
use rust_smart_contract.Std.BTree.Insert.Root.{
  InsertsKey, counted, named, insert-none, insert_not_full, insert_present, insert_full,
}
use rust_smart_contract.Std.BTree.Insert.FullRoot.{insert_full_root-Holds}
use rust_smart_contract.Std.BTree.Tree.{Holds, Rooted}

module _ {ℓ} {K : Type ℓ} ⦃o : Ord K⦄ where
  -- the set after the first insertion
  abbrev single_set : StateBTreeSet K → K → StateBTreeSet K
  single_set set key = record (create_node (key ∷ []) [] set).1 {
    root = some (create_node (key ∷ []) [] set).0;
    len = 1;
  }

  single-Holds :
      (set : StateBTreeSet K) (key : K)
      → Unused set
      → set.next_node_id + 1 < 2 ^ 64
      → Holds 0 (single_set set key) (key ∷ [])
        × ((single_set set key).next_node_id ≡ set.next_node_id + 1)
  unfolding create_node fetch_and_add get_node in_order
  single-Holds set key u b =
      let node : Node K = record { keys = key ∷ []; children = [] } in
      (
        (
          (node, get?-insert_self set.next_node_id node set.nodes, (omega arith, refl, tt), refl),
          (tt, tt),
          (λ x c.
              get?-insert_ne set.next_node_id x node set.nodes (λ same. omega (arith, c, b, same))
              ∙ u x (omega (arith, c, b))),
          refl,
        ),
        omega (arith, b),
      )

  insert_empty : (key : K) → (not (elem key []) ≡ true) × (sorted_insert key [] ≡ key ∷ [])
  unfolding elem sorted_insert
  insert_empty key = (refl, refl)

  full_length :
      (degree : ℕ) (node : Node K)
      → is_full degree node ≡ true
      → length node.keys ≡ maximum_key_len degree
  full_length degree node e = ground (arith, e)

  -- `insert` under a full root
  full_root :
      (degree fuel h : ℕ) (set : StateBTreeSet K) (id : NodeId) (root : Node K) (key : K)
      → set.root ≡ some id
      → 2 ≤ degree
      → h < fuel
      → get_node id set ≡ some root
      → Shape h set root
      → Sorted (in_order h set root)
      → Unused set
      → set.len ≡ length (in_order h set root)
      → set.next_node_id + (h + 2) < 2 ^ 64
      → length (in_order h set root) + 1 < 2 ^ 32
      → is_full degree root ≡ true
      → InsertsKey degree fuel h set (in_order h set root) key
  full_root degree fuel h set id root key r d f g s sorted u count n short full =
      elim (search-Step h set root key s sorted) [
        | inl (i, e, here, _) ↦
            let there : elem key (in_order h set root) ≡ true =
              ap (elem key) (in_order-subtrees h set root) ∙ here.1 in
            let same = sorted_insert_present key (in_order h set root) sorted there in
            (
              set,
              h,
              named (insert degree fuel set key) (false, set) _
                  (insert_present degree fuel set key id root r g i full e) (sym (ap not there)),
              subst (Holds h set) (sym same) (
                subst (λ x. Rooted h set x (in_order h set root)) (sym r) (root, g, s, refl),
                sorted,
                u,
                count,
              ),
              omega arith,
              omega arith,
            )
        | inr (i, e, _, _, _) ↦
            let (set', run, holds, next) =
              insert_full_root-Holds degree fuel h i set id root key
                (λ set id node g s sorted u n.
                  insert_non_full-Inserts degree fuel h set id node key d f g s sorted u n)
                d g s sorted u count short n (full_length degree root full) e in
            (
              set',
              suc h,
              insert_full degree fuel set key id root r g i full e ∙ run,
              holds,
              omega arith,
              omega (arith, next),
            )
      ]

  -- `insert` under a root that is not full
  open_root :
      (degree fuel h : ℕ) (set : StateBTreeSet K) (id : NodeId) (root : Node K) (key : K)
      → set.root ≡ some id
      → 2 ≤ degree
      → h < fuel
      → get_node id set ≡ some root
      → Shape h set root
      → Sorted (in_order h set root)
      → Unused set
      → set.len ≡ length (in_order h set root)
      → set.next_node_id + (h + 2) < 2 ^ 64
      → length (in_order h set root) + 1 < 2 ^ 32
      → is_full degree root ≡ false
      → InsertsKey degree fuel h set (in_order h set root) key
  open_root degree fuel h set id root key r d f g s sorted u count n short full =
      let (b, set', run, ins) =
        insert_non_full-Inserts degree fuel h set id root key d f g s sorted u (omega (arith, n)) in
      let (holds, flag, next) =
        counted h set set' id (in_order h set root) key b r ins sorted count short in
      (
        (count_new (b, set')).1,
        h,
        named (insert degree fuel set key) (count_new (b, set')) _
            (insert_not_full degree fuel set key id root r g b set' full run) flag,
        holds,
        omega arith,
        omega (arith, next),
      )

  insert-InsertsKey :
      (degree fuel h : ℕ) (set : StateBTreeSet K) (l : List K) (key : K) (root : Option NodeId)
      → set.root ≡ root
      → 2 ≤ degree
      → h < fuel
      → Rooted h set root l
      → Sorted l
      → Unused set
      → set.len ≡ length l
      → set.next_node_id + (h + 2) < 2 ^ 64
      → length l + 1 < 2 ^ 32
      → InsertsKey degree fuel h set l key
  insert-InsertsKey degree fuel h set l key none r d f e sorted u count n short =
      let (holds, next) = single-Holds set key u (omega (arith, n)) in
      let (flag, place) = insert_empty key in
      (
        single_set set key,
        0,
        named (insert degree fuel set key) (true, single_set set key) _
            (insert-none degree fuel set key r) (sym (ap (λ t. not (elem key t)) e ∙ flag)),
        subst (Holds 0 (single_set set key)) (sym (ap (sorted_insert key) e ∙ place)) holds,
        omega arith,
        omega (arith, next),
      )
  insert-InsertsKey degree fuel h set l key (some id) r d f (root, g, s, keys) sorted u count n
        short =
      let ordered : Sorted (in_order h set root) = subst Sorted keys sorted in
      let size = ap length keys in
      subst (λ (t : List K). InsertsKey degree fuel h set t key) (sym keys)
        (elim (Bool-cases (is_full degree root)) [
          | inl full ↦
              full_root degree fuel h set id root key r d f g s ordered u (count ∙ size) n
                (omega (arith, size, short)) full
          | inr full ↦
              open_root degree fuel h set id root key r d f g s ordered u (count ∙ size) n
                (omega (arith, size, short)) full
        ])

  -- For a minimum degree of at least 2, on a set that is a tree holding fewer than 2^32 - 1 keys, with
  -- fuel above the height and node ids left below 2^64, `insert` returns whether the key is new, and
  -- leaves a set that is a tree, at most one level higher, with the key in its place in the list
  -- (and the list unchanged if it was there); it takes at most one new node id per level and one.
  pub insert-Holds :
      (degree fuel h : ℕ) (set : StateBTreeSet K) (l : List K) (key : K)
      → 2 ≤ degree
      → h < fuel
      → Holds h set l
      → set.next_node_id + (h + 2) < 2 ^ 64
      → length l + 1 < 2 ^ 32
      → InsertsKey degree fuel h set l key
  insert-Holds degree fuel h set l key d f (rooted, sorted, u, count) n short =
      insert-InsertsKey degree fuel h set l key set.root refl d f rooted sorted u count n short
