-- ===== src/Std/BTree/Insert/Split.antt =====
-- The store after `split_child` (concordium-std/src/state_btree.rs).
use rust_smart_contract.Base.{
  ◌+◌, ◌^◌, ◌<◌, ◌≡◌, ◌≢◌, sym, ap, ◌∙◌, true, false, Option, some, List, [], ◌∷◌, get_elem?, arith,
}
use rust_smart_contract.Base.Dict.{get?-insert_ne, get?-insert_self}
use rust_smart_contract.Std.Ord.{Ord}
use rust_smart_contract.Std.BTree.Sorted.{elem}
use rust_smart_contract.Std.BTree.Node.{
  Node, NodeId, StateBTreeSet, get_node, store_node, create_node, fetch_and_add,
}
use rust_smart_contract.Std.BTree.Frame.{Frame, Unused}

some_eq {ℓ} : {A : Type ℓ} {x y : A} → ◌≡◌ {A = Option A} (some x) (some y) → x ≡ y
some_eq e = ground arith

-- the first key of a list of keys, if it has one
abbrev pub first_of {ℓ} : {K : Type ℓ} → List K → List K
first_of [] = []
first_of (k ∷ ks) = k ∷ []

module _ {ℓ} {K : Type ℓ} where
  -- What a split stores: the larger sibling under the next id, the child and the parent.
  abbrev pub split_set :
      StateBTreeSet K → NodeId → NodeId → Node K → Node K → Node K → StateBTreeSet K
  split_set set id cid parent child larger =
      store_node id parent (store_node cid child (create_node larger.keys larger.children set).1)

  module _ (set : StateBTreeSet K) (id cid : NodeId) (parent child larger : Node K) where
    pub split-parent : get_node id (split_set set id cid parent child larger) ≡ some parent
    unfolding get_node store_node create_node fetch_and_add
    split-parent = get?-insert_self id parent _

    pub split-child :
        id ≢ cid → get_node cid (split_set set id cid parent child larger) ≡ some child
    unfolding get_node store_node create_node fetch_and_add
    split-child n = get?-insert_ne id cid parent _ n ∙ get?-insert_self cid child _

    pub split-larger :
        id ≢ set.next_node_id
        → cid ≢ set.next_node_id
        → get_node set.next_node_id (split_set set id cid parent child larger) ≡ some larger
    unfolding get_node store_node create_node fetch_and_add
    split-larger n m =
        get?-insert_ne id set.next_node_id parent _ n
        ∙ get?-insert_ne cid set.next_node_id child _ m
        ∙ get?-insert_self set.next_node_id larger _

    pub split-other :
        (x : NodeId)
        → id ≢ x
        → cid ≢ x
        → set.next_node_id ≢ x
        → get_node x (split_set set id cid parent child larger) ≡ get_node x set
    unfolding get_node store_node create_node fetch_and_add
    split-other x n m p =
        get?-insert_ne id x parent _ n
        ∙ get?-insert_ne cid x child _ m
        ∙ get?-insert_ne set.next_node_id x larger _ p

    pub split-next :
        set.next_node_id + 1 < 2 ^ 64
        → (split_set set id cid parent child larger).next_node_id ≡ set.next_node_id + 1
    unfolding store_node create_node fetch_and_add
    split-next b = omega (arith, b)

module _ {ℓ} {K : Type ℓ} ⦃o : Ord K⦄ where
  first_of-elem : (k : K) (l : List K) → get_elem? l 0 ≡ some k → elem k (first_of l) ≡ true
  unfolding elem
  first_of-elem k [] e = ground arith
  first_of-elem k (j ∷ l) e = grind (arith, e, o.cmp_refl k)

  -- two ids whose nodes start with different keys
  pub ids_differ :
      (set : StateBTreeSet K) (x y : NodeId) (n m : Node K) (k : K)
      → get_node x set ≡ some n
      → get_node y set ≡ some m
      → get_elem? m.keys 0 ≡ some k
      → elem k (first_of n.keys) ≡ false
      → x ≢ y
  ids_differ set x y n m k e f first out same =
      let eq : n ≡ m = some_eq (sym e ∙ ap (λ z. get_node z set) same ∙ f) in
      ground
        (arith, first_of-elem k m.keys first, ap (λ (z : Node K). elem k (first_of z.keys)) eq, out)

  module _ (set : StateBTreeSet K) (id cid : NodeId) (node old parent child larger : Node K)
      (g : get_node id set ≡ some node) (gc : get_node cid set ≡ some old) (u : Unused set) where
    -- an id in use is not the next one
    pub used : (x : NodeId) (n : Node K) → get_node x set ≡ some n → x ≢ set.next_node_id
    used x n e same = ground (arith, u x (omega (arith, same)), e)

    pub split-Frame :
        (l : List K)
        → ((k : K)
            → elem k l ≡ false
            → (elem k (first_of old.keys) ≡ false) × (elem k (first_of node.keys) ≡ false))
        → Frame set (split_set set id cid parent child larger) l
    split-Frame l apart x n k e first out =
        split-other set id cid parent child larger x
          (ids_differ set id x node n k g e first (apart k out).1)
          (ids_differ set cid x old n k gc e first (apart k out).0) (λ same. used x n e (sym same))
        ∙ e

    pub split-Unused :
        set.next_node_id + 1 < 2 ^ 64 → Unused (split_set set id cid parent child larger)
    split-Unused b x c =
        let next = split-next set id cid parent child larger b in
        split-other set id cid parent child larger x
          (λ same. ground (arith, next, c, u x, sym (ap (λ z. get_node z set) same) ∙ g))
          (λ same. ground (arith, next, c, u x, sym (ap (λ z. get_node z set) same) ∙ gc))
          (λ same. omega (arith, next, c, same))
        ∙ u x (omega (arith, next, c))
