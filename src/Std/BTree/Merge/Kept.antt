-- ===== src/Std/BTree/Merge/Kept.antt =====
-- The store after `merge_children`, and the merged child in it
-- (concordium-std/src/state_btree.rs).
use rust_smart_contract.Base.{
  ℕ, zero, suc, ◌≤◌, ◌≡◌, ◌≢◌, refl, ap, ◌∙◌, none, some, List, ◌∷◌, ◌++◌, map, All, length,
  length-append, get_elem?, arith, false,
}
use rust_smart_contract.Base.Dict.{get?-insert_self, get?-insert_ne, get?-remove}
use rust_smart_contract.Std.Ord.{Ord}
use rust_smart_contract.Std.BTree.Sorted.{elem, All-append}
use rust_smart_contract.Std.BTree.Node.{
  Node, NodeId, StateBTreeSet, get_node, store_node, delete_node,
}
use rust_smart_contract.Std.BTree.View.{weave, in_order, Shape}
use rust_smart_contract.Std.BTree.Search.Descend.{keys_under, length-map}
use rust_smart_contract.Std.BTree.Frame.{Frame, Kid}
use rust_smart_contract.Std.BTree.Insert.Cut.{weave-append}
use rust_smart_contract.Std.BTree.Insert.Split.{first_of, ids_differ}
use rust_smart_contract.Std.BTree.Insert.Halves.{map-append}
use rust_smart_contract.Std.BTree.Remove.{merge_children}
use rust_smart_contract.Std.BTree.Merge.{merged, merge_parent, merge_run}

module _ {ℓ} {K : Type ℓ} where
  -- what a merge stores
  abbrev pub merge_set :
      StateBTreeSet K → NodeId → NodeId → NodeId → Node K → Node K → StateBTreeSet K
  merge_set set id cid lid parent child =
      store_node id parent (store_node cid child (delete_node lid set))

  module _ (set : StateBTreeSet K) (id cid lid : NodeId) (parent child : Node K) where
    pub merge-parent : get_node id (merge_set set id cid lid parent child) ≡ some parent
    unfolding get_node store_node delete_node
    merge-parent = get?-insert_self id parent _

    pub merge-child : id ≢ cid → get_node cid (merge_set set id cid lid parent child) ≡ some child
    unfolding get_node store_node delete_node
    merge-child n = get?-insert_ne id cid parent _ n ∙ get?-insert_self cid child _

    pub merge-larger :
        id ≢ lid → cid ≢ lid → get_node lid (merge_set set id cid lid parent child) ≡ none
    unfolding get_node store_node delete_node
    merge-larger n m =
        get?-insert_ne id lid parent _ n
        ∙ get?-insert_ne cid lid child _ m
        ∙ ground (arith, get?-remove lid lid set.nodes)

    pub merge-other :
        (x : NodeId)
        → id ≢ x
        → cid ≢ x
        → lid ≢ x
        → get_node x (merge_set set id cid lid parent child) ≡ get_node x set
    unfolding get_node store_node delete_node
    merge-other x n m p =
        get?-insert_ne id x parent _ n
        ∙ get?-insert_ne cid x child _ m
        ∙ ground (arith, get?-remove lid x set.nodes)

  pub merge_children_eq :
      (i : ℕ) (set : StateBTreeSet K) (id cid lid : NodeId) (node child larger : Node K)
      → suc i ≤ length node.keys
      → get_elem? node.children (suc i) ≡ some lid
      → (k : K) × (get_elem? node.keys i ≡ some k)
        × (merge_children set id node i cid child larger
            ≡ some (cid, merge_set set id cid lid (merge_parent i node) (merged child k larger)))
  unfolding merge_children
  merge_children_eq i set id cid lid node child larger b d =
      let (k, at, run) = merge_run i set node child larger lid (omega (arith, b)) d in
      (k, at, rw run refl)

  -- the grandchildren are as they were
  abbrev pub KeepsKids : ℕ → StateBTreeSet K → StateBTreeSet K → Node K → Type ℓ
  KeepsKids h set set' child =
      (h' : ℕ)
      → h ≡ suc h'
      → All (Kid h' set') child.children
        × (map (keys_under h' set') child.children ≡ map (keys_under h' set) child.children)

  pub merged-Shape :
      (h : ℕ) (set set' : StateBTreeSet K) (child larger : Node K) (k : K)
      → Shape h set child
      → Shape h set larger
      → KeepsKids h set set' child
      → KeepsKids h set set' larger
      → Shape h set' (merged child k larger)
        × (in_order h set' (merged child k larger)
            ≡ in_order h set child ++ k ∷ in_order h set larger)
  unfolding in_order
  merged-Shape zero set set' child larger k (p, c, _) (q, d, _) f g =
      ((omega (arith, length-append child.keys (k ∷ larger.keys)), ground (arith, c, d), tt), refl)
  merged-Shape (suc h) set set' child larger k (p, c, _) (q, d, _) f g =
      let (kids, same) = f h refl in
      let (kids', same') = g h refl in
      let ks : List K = child.keys ++ k ∷ larger.keys in
      (
        (
          omega (arith, length-append child.keys (k ∷ larger.keys)),
          omega (
            arith,
            length-append child.children larger.children,
            length-append child.keys (k ∷ larger.keys),
            c,
            d,
          ),
          All-append _ child.children larger.children kids kids',
        ),
        ap (weave ks) (map-append (keys_under h set') child.children larger.children)
            ∙ ap (λ (t : List (List K)). weave ks (t ++ map (keys_under h set') larger.children))
                same
            ∙ ap (λ (t : List (List K)). weave ks (map (keys_under h set) child.children ++ t))
                same'
            ∙ weave-append child.keys k larger.keys (map (keys_under h set) child.children)
                (map (keys_under h set) larger.children)
                (length-map (keys_under h set) child.children ∙ c)
                (length-map (keys_under h set) larger.children ∙ d),
      )

module _ {ℓ} {K : Type ℓ} ⦃o : Ord K⦄ where
  pub merge-Frame :
      (set : StateBTreeSet K) (id cid lid : NodeId) (node child larger parent child' : Node K)
      (l : List K)
      → get_node id set ≡ some node
      → get_node cid set ≡ some child
      → get_node lid set ≡ some larger
      → ((k : K)
          → elem k l ≡ false
          → (elem k (first_of child.keys) ≡ false)
            × (elem k (first_of larger.keys) ≡ false)
            × (elem k (first_of node.keys) ≡ false))
      → Frame set (merge_set set id cid lid parent child') l
  merge-Frame set id cid lid node child larger parent child' l g gc gl apart x n k e first out =
      let (c, r, p) = apart k out in
      merge-other set id cid lid parent child' x (ids_differ set id x node n k g e first p)
        (ids_differ set cid x child n k gc e first c) (ids_differ set lid x larger n k gl e first r)
      ∙ e
