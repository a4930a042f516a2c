-- ===== src/Std/BTree/Samples.antt =====
-- Tests of the ordered set, and its theorems at small inputs.
use rust_smart_contract.Base.{ℕ, ◌≡◌, refl, some, List, [], ◌∷◌, arith, get_elem?}
use rust_smart_contract.Base.Dict.{get?}
use rust_smart_contract.Std.Ord.{nat_ord}
use rust_smart_contract.Std.BTree.Node.{Node, StateBTreeSet, new, get_node}
use rust_smart_contract.Std.BTree.Sorted.{elem, Sorted}
use rust_smart_contract.Std.BTree.Search.{contains, first, last}
use rust_smart_contract.Std.BTree.View.{Shape, in_order, weave}
use rust_smart_contract.Std.BTree.Iter.{iter}
use rust_smart_contract.Std.BTree.Iter.Laws.{collect}
use rust_smart_contract.Std.BTree.Insert.Root.{InsertsKey}
use rust_smart_contract.Std.BTree.Insert.Laws.{insert-Holds}
use rust_smart_contract.Std.BTree.Tree.{
  Holds, Neighbours, contains-elem, higher-Neighbours, collect-iter,
}
use rust_smart_contract.Std.BTree.Merge.Children.{Merges, merge_children-Merges}
use rust_smart_contract.Std.BTree.Search.Ends.{first_and_last, last_of}
use rust_smart_contract.Std.BTree.Insert.Series.{insert_all, insert_all-collect, sorted_all}

-- a tree of height 1 with minimum degree 2, its root full
abbrev leaf_of : List ℕ → Node ℕ
leaf_of keys = record { keys = keys; children = [] }

abbrev sample : StateBTreeSet ℕ
sample = record {
  root = some 4;
  len = 8;
  next_node_id = 5;
  nodes =
      (0, leaf_of (1 ∷ 2 ∷ []))
      ∷ (1, leaf_of (4 ∷ []))
      ∷ (2, leaf_of (6 ∷ []))
      ∷ (3, leaf_of (8 ∷ []))
      ∷ (4, record { keys = 3 ∷ 5 ∷ 7 ∷ []; children = 0 ∷ 1 ∷ 2 ∷ 3 ∷ [] })
      ∷ [];
}

abbrev sample_keys : List ℕ
sample_keys = 1 ∷ 2 ∷ 3 ∷ 4 ∷ 5 ∷ 6 ∷ 7 ∷ 8 ∷ []

abbrev sample_root : Node ℕ
sample_root = record { keys = 3 ∷ 5 ∷ 7 ∷ []; children = 0 ∷ 1 ∷ 2 ∷ 3 ∷ [] }

sample-Shape : Shape 1 sample sample_root
unfolding get_node get?
sample-Shape = (
  omega arith,
  refl,
  (
    (leaf_of (1 ∷ 2 ∷ []), refl, (omega arith, refl, tt)),
    (
      (leaf_of (4 ∷ []), refl, (omega arith, refl, tt)),
      (
        (leaf_of (6 ∷ []), refl, (omega arith, refl, tt)),
        ((leaf_of (8 ∷ []), refl, (omega arith, refl, tt)), tt),
      ),
    ),
  ),
)

sample_increases : Sorted (in_order 1 sample sample_root)
unfolding get_node get? in_order weave nat_ord
sample_increases = ground arith

sample-Holds : Holds 1 sample sample_keys
unfolding get_node get? in_order weave nat_ord
sample-Holds =
    ((sample_root, refl, sample-Shape, refl), ground arith, (λ x b. ground (arith, b)), refl)

contains-elem_example : contains 2 sample 6 ≡ some (elem 6 sample_keys)
contains-elem_example = contains-elem 1 2 sample sample_keys 6 (omega arith) sample-Holds

higher-Neighbours_example : Neighbours 2 sample sample_keys 5
higher-Neighbours_example = higher-Neighbours 1 2 sample sample_keys 5 (omega arith) sample-Holds

first_and_last_example :
    (first 2 sample ≡ some (get_elem? sample_keys 0)) × (last 2 sample ≡ some (last_of sample_keys))
first_and_last_example = first_and_last 1 2 sample sample_keys (omega arith) sample-Holds

collect-iter_example : collect 2 9 sample (iter sample) ≡ some sample_keys
collect-iter_example =
    collect-iter 1 2 9 sample sample_keys (omega arith) (omega arith) (omega arith) sample-Holds

insert-Holds_example : InsertsKey 2 2 1 sample sample_keys 9
insert-Holds_example =
    insert-Holds 2 2 1 sample sample_keys 9 (omega arith) (omega arith) sample-Holds (omega arith)
      (omega arith)

abbrev inserted_keys : List ℕ
inserted_keys = 5 ∷ 1 ∷ 9 ∷ 3 ∷ 7 ∷ 3 ∷ []

insert_all-collect_example :
    (set : StateBTreeSet ℕ) × (insert_all 2 7 inserted_keys new ≡ some set)
    × (collect 7 7 set (iter set) ≡ some (sorted_all inserted_keys []))
    × Sorted (sorted_all inserted_keys [])
insert_all-collect_example =
    insert_all-collect 2 7 inserted_keys (omega arith) (omega arith) (omega arith) (omega arith)

-- the children with the keys 4 and 6
merge_children-Merges_example :
    Merges 0 1 sample 4 1 2 sample_root (leaf_of (4 ∷ [])) (leaf_of (6 ∷ []))
unfolding get_node get?
merge_children-Merges_example =
    merge_children-Merges 0 1 sample 4 1 2 sample_root (leaf_of (4 ∷ [])) (leaf_of (6 ∷ [])) refl
      refl refl sample-Shape refl refl (omega arith, refl, tt) (omega arith, refl, tt)
      sample_increases
