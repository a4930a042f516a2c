-- ===== src/Std/BTree/Frame.antt =====
-- What writing some nodes leaves as it was: a subtree none of whose keys stands first in a node
-- that was written (concordium-std/src/state_btree.rs).
use mathlib.Core.Path.{subst}
use rust_smart_contract.Base.{
  ℕ, zero, suc, ◌≤◌, ◌≡◌, refl, sym, ap, ◌∙◌, false, none, some, List, [], ◌∷◌, map, All, length,
  get_elem?, arith,
}
use rust_smart_contract.Std.Ord.{Ord}
use rust_smart_contract.Std.BTree.Sorted.{elem, All-append_right}
use rust_smart_contract.Std.BTree.Node.{Node, NodeId, StateBTreeSet, get_node}
use rust_smart_contract.Std.BTree.View.{weave, in_order, Shape}
use rust_smart_contract.Std.BTree.Search.Descend.{
  keys_under, subtrees, in_order-subtrees, length-subtrees, Shape-nonempty,
}
use rust_smart_contract.Std.BTree.Slots.{Apart, AllBut, set_at, weave-slots}

first_id : (id cid : NodeId) (ids : List NodeId) → get_elem? (id ∷ ids) 0 ≡ some cid → cid ≡ id
first_id id cid ids e = ground arith

module _ {ℓ} {K : Type ℓ} where
  -- a child at a height, as `Shape` asks for it
  abbrev pub Kid : ℕ → StateBTreeSet K → NodeId → Type ℓ
  Kid h set id = (n : Node K) × (get_node id set ≡ some n) × Shape h set n

  -- No node is stored under an id that was not handed out.
  abbrev pub Unused : StateBTreeSet K → Type ℓ
  Unused set = (x : NodeId) → set.next_node_id ≤ x → get_node x set ≡ none

  weave_head :
      (P : K → Type 0) (ks : List K) (ls : List (List K))
      → 1 ≤ length ks
      → length ls ≡ suc (length ks)
      → All P (weave ks ls)
      → (k : K) × (get_elem? ks 0 ≡ some k) × P k
  unfolding weave
  weave_head P [] ls b h a = ground arith
  weave_head P (k ∷ ks) [] b h a = ground arith
  weave_head P (k ∷ ks) (l ∷ ls) b h a = (k, refl, (All-append_right P l (k ∷ weave ks ls) a).0)

  -- The first key of a node is a key of its subtree.
  pub Shape-head :
      (P : K → Type 0) (h : ℕ) (set : StateBTreeSet K) (n : Node K)
      → Shape h set n
      → All P (in_order h set n)
      → (k : K) × (get_elem? n.keys 0 ≡ some k) × P k
  Shape-head P h set n s a =
      weave_head P n.keys (subtrees h set n) (Shape-nonempty h set n s) (length-subtrees h set n s)
        (subst (All P) (in_order-subtrees h set n) a)

module _ {ℓ} {K : Type ℓ} ⦃o : Ord K⦄ where
  -- Every stored node keeps its content but those whose first key is in the list.
  abbrev pub Frame : StateBTreeSet K → StateBTreeSet K → List K → Type ℓ
  Frame set set' l =
      (x : NodeId) (n : Node K) (k : K)
      → get_node x set ≡ some n
      → get_elem? n.keys 0 ≡ some k
      → elem k l ≡ false
      → get_node x set' ≡ some n

  -- a subtree that is as it was
  abbrev pub Same : ℕ → StateBTreeSet K → StateBTreeSet K → NodeId → Type ℓ
  Same h set set' id = Kid h set' id × (keys_under h set' id ≡ keys_under h set id)

  pub keys_under-some :
      (h : ℕ) (set : StateBTreeSet K) (id : NodeId) (n : Node K)
      → get_node id set ≡ some n
      → keys_under h set id ≡ in_order h set n
  keys_under-some h set id n e = ground (arith, e)

  frame_kids :
      (h : ℕ) (set set' : StateBTreeSet K) (l : List K) (ids : List NodeId)
      → ((id : NodeId) → Kid h set id → Apart l (keys_under h set id) → Same h set set' id)
      → All (Kid h set) ids
      → All (Apart l) (map (keys_under h set) ids)
      → All (Kid h set') ids × (map (keys_under h set') ids ≡ map (keys_under h set) ids)
  frame_kids h set set' l [] f a b = (tt, refl)
  frame_kids h set set' l (id ∷ ids) f (a, rest) (b, apart) =
      let (kid, keys) = f id a b in
      let (kids, same) = frame_kids h set set' l ids f rest apart in
      ((kid, kids), ground (arith, keys, same))

  -- a child under a frame, given what the frame does to the child's subtree
  Frame-Kid :
      (h : ℕ) (set set' : StateBTreeSet K) (l : List K) (id : NodeId)
      → Frame set set' l
      → ((n : Node K)
          → Shape h set n
          → Apart l (in_order h set n)
          → Shape h set' n × (in_order h set' n ≡ in_order h set n))
      → Kid h set id
      → Apart l (keys_under h set id)
      → Same h set set' id
  Frame-Kid h set set' l id f step (n, g, s) a =
      let before_keys = keys_under-some h set id n g in
      let apart = subst (Apart l) before_keys a in
      let (shape, keys) = step n s apart in
      let (k, first, out) = Shape-head (λ k. elem k l ≡ false) h set n s apart in
      let still = f id n k g first out in
      ((n, still, shape), keys_under-some h set' id n still ∙ keys ∙ sym before_keys)

  pub Frame-Shape :
      (h : ℕ) (set set' : StateBTreeSet K) (l : List K) (n : Node K)
      → Frame set set' l
      → Shape h set n
      → Apart l (in_order h set n)
      → Shape h set' n × (in_order h set' n ≡ in_order h set n)
  unfolding in_order
  Frame-Shape zero set set' l n f s a = (s, refl)
  Frame-Shape (suc h) set set' l n f (p, c, kids) a =
      let slots =
        weave-slots (λ k. elem k l ≡ false) n.keys _ (length-subtrees (suc h) set n (p, c, kids))
          a in
      let (kids', same) =
        frame_kids h set set' l n.children
          (λ id. Frame-Kid h set set' l id f (λ m. Frame-Shape h set set' l m f)) kids slots in
      ((p, c, kids'), ap (weave n.keys) same)

  -- Children none of whose keys is listed are as they were.
  pub Frame-All :
      (h : ℕ) (set set' : StateBTreeSet K) (l : List K) (ids : List NodeId)
      → Frame set set' l
      → All (Kid h set) ids
      → All (Apart l) (map (keys_under h set) ids)
      → All (Kid h set') ids × (map (keys_under h set') ids ≡ map (keys_under h set) ids)
  Frame-All h set set' l ids f kids apart =
      frame_kids h set set' l ids
        (λ id. Frame-Kid h set set' l id f (λ m. Frame-Shape h set set' l m f)) kids apart

  -- The children of a node where one of them is replaced.
  pub Frame-but :
      (h i : ℕ) (set set' : StateBTreeSet K) (l : List K) (ids : List NodeId) (cid : NodeId)
      → Frame set set' l
      → All (Kid h set) ids
      → get_elem? ids i ≡ some cid
      → AllBut i (Apart l) (map (keys_under h set) ids)
      → Kid h set' cid
      → All (Kid h set') ids
        × (map (keys_under h set') ids
            ≡ set_at i (keys_under h set' cid) (map (keys_under h set) ids))
  Frame-but h i set set' l [] cid f a e b kid = ground arith
  Frame-but h zero set set' l (id ∷ ids) cid f (a, rest) e b kid =
      let (kids, same) =
        frame_kids h set set' l ids
          (λ id. Frame-Kid h set set' l id f (λ m. Frame-Shape h set set' l m f)) rest b in
      (
        (subst (Kid h set') (first_id id cid ids e) kid, kids),
        ground (arith, same, ap (keys_under h set') (first_id id cid ids e)),
      )
  Frame-but h (suc i) set set' l (id ∷ ids) cid f (a, rest) e (b, apart) kid =
      let (same_kid, keys) = Frame-Kid h set set' l id f (λ m. Frame-Shape h set set' l m f) a b in
      let (kids, same) = Frame-but h i set set' l ids cid f rest e apart kid in
      ((same_kid, kids), ground (arith, keys, same))

  pub Frame-trans :
      (set set' set'' : StateBTreeSet K) (l : List K)
      → Frame set set' l
      → Frame set' set'' l
      → Frame set set'' l
  Frame-trans set set' set'' l f g x n k e h b = g x n k (f x n k e h b) h b

  -- a frame may list more keys
  pub Frame-more :
      (set set' : StateBTreeSet K) (l m : List K)
      → ((k : K) → elem k m ≡ false → elem k l ≡ false)
      → Frame set set' l
      → Frame set set' m
  Frame-more set set' l m s f x n k e h b = f x n k e h (s k b)
