-- ===== src/Std/BTree/Merge.antt =====
-- `merge` of two siblings, the inverse of a split: what it computes of the nodes
-- (concordium-std/src/state_btree.rs).
pub mod Kept
pub mod Siblings
pub mod Children
use mathlib.Core.List.{append_assoc}
use rust_smart_contract.Base.{
  ℕ, zero, suc, ◌+◌, ◌<◌, ◌≢◌, All, ◌≡◌, refl, ap, ◌∙◌, some, List, [], ◌∷◌, ◌++◌, map, length,
  length-append, get_elem?, arith,
}
use rust_smart_contract.Std.Ord.{Ord}
use rust_smart_contract.Std.BTree.Node.{Node, NodeId, StateBTreeSet, delete_node}
use rust_smart_contract.Std.BTree.View.{weave, in_order, Shape}
use rust_smart_contract.Std.BTree.Search.Descend.{keys_under, length-map, get_elem_bound}
use rust_smart_contract.Std.BTree.Slots.{set_at, AllBut}
use rust_smart_contract.Std.BTree.Insert.Inserted.{some_inj}
use mathlib.Core.Path.{subst}
use rust_smart_contract.Std.BTree.Insert.Below.{get_elem-keys_under}
use rust_smart_contract.Std.BTree.Insert.Cut.{weave-append}
use rust_smart_contract.Std.BTree.Insert.Halves.{map-append}
use rust_smart_contract.Std.BTree.Remove.{remove_at, merge}

module _ {ℓ} {A : Type ℓ} where
  -- the list without the entry at an index
  abbrev pub removed : ℕ → List A → List A
  removed i [] = []
  removed zero (x ∷ l) = l
  removed (suc i) (x ∷ l) = x ∷ removed i l

module _ {ℓ} {A : Type ℓ} where
  pub All-removed {κ} : (P : A → Type κ) (i : ℕ) (l : List A) → All P l → All P (removed i l)
  All-removed P i [] a = tt
  All-removed P zero (x ∷ l) a = a.1
  All-removed P (suc i) (x ∷ l) a = (a.0, All-removed P i l a.1)

  pub get_elem-removed :
      (i : ℕ) (x : A) (l : List A)
      → get_elem? l i ≡ some x
      → get_elem? (removed (suc i) l) i ≡ some x
  get_elem-removed i x [] e = e
  get_elem-removed zero x (y ∷ l) e = e
  get_elem-removed (suc i) x (y ∷ l) e = get_elem-removed i x l e

  All-at {κ} :
      (P : A → Type κ) (i : ℕ) (x : A) (l : List A) → get_elem? l i ≡ some x → All P l → P x
  All-at P i x [] e a = ground arith
  All-at P zero x (y ∷ l) e a = subst P (some_inj y x e) a.0
  All-at P (suc i) x (y ∷ l) e a = All-at P i x l e a.1

  pub AllBut-get {κ} :
      (P : A → Type κ) (i j : ℕ) (m : A) (l : List A)
      → i ≢ j
      → get_elem? l j ≡ some m
      → AllBut i P l
      → P m
  AllBut-get P i j m [] n e a = ground arith
  AllBut-get P zero zero m (x ∷ l) n e a = absurd (n refl)
  AllBut-get P zero (suc j) m (x ∷ l) n e a = All-at P j m l e a
  AllBut-get P (suc i) zero m (x ∷ l) n e a = subst P (some_inj x m e) a.0
  AllBut-get P (suc i) (suc j) m (x ∷ l) n e a =
      AllBut-get P i j m l (λ q. n (ap {B = ℕ} suc q)) e a.1

  pub remove_at-removed :
      (i : ℕ) (l : List A)
      → i < length l
      → (x : A) × (remove_at i l ≡ some (x, removed i l)) × (get_elem? l i ≡ some x)
  unfolding remove_at
  remove_at-removed i [] b = ground arith
  remove_at-removed zero (x ∷ l) b = (x, refl, refl)
  remove_at-removed (suc i) (x ∷ l) b =
      let (y, e, f) = remove_at-removed i l (omega arith) in (y, grind (arith, e), f)

  pub length-removed : (i : ℕ) (l : List A) → i < length l → suc (length (removed i l)) ≡ length l
  length-removed i [] b = ground arith
  length-removed zero (x ∷ l) b = refl
  length-removed (suc i) (x ∷ l) b = ap {B = ℕ} suc (length-removed i l (omega arith))

  pub map-removed {κ} :
      {B : Type κ} (f : A → B) (i : ℕ) (l : List A) → map f (removed i l) ≡ removed i (map f l)
  map-removed f i [] = refl
  map-removed f zero (x ∷ l) = refl
  map-removed f (suc i) (x ∷ l) = ap (λ (t : List _). f x ∷ t) (map-removed f i l)

  -- two subtrees and the key between them, replaced by one subtree
  pub weave_merge :
      (i : ℕ) (ks : List A) (k : A) (ls : List (List A)) (l m : List A)
      → length ls ≡ suc (length ks)
      → get_elem? ks i ≡ some k
      → get_elem? ls i ≡ some l
      → get_elem? ls (suc i) ≡ some m
      → weave (removed i ks) (set_at i (l ++ k ∷ m) (removed (suc i) ls)) ≡ weave ks ls
  unfolding weave
  weave_merge i [] k ls l m h e f g = ground arith
  weave_merge i (j ∷ ks) k [] l m h e f g = ground arith
  weave_merge i (j ∷ ks) k (n ∷ []) l m h e f g = ground arith
  weave_merge zero (j ∷ []) k (n ∷ p ∷ []) l m h e f g = ground (arith, e, f, g)
  weave_merge zero (j ∷ []) k (n ∷ p ∷ q ∷ ls) l m h e f g = ground arith
  weave_merge zero (j ∷ j' ∷ ks) k (n ∷ p ∷ []) l m h e f g = ground arith
  weave_merge zero (j ∷ j' ∷ ks) k (n ∷ p ∷ q ∷ ls) l m h e f g =
      grind (arith, e, f, g, append_assoc l (k ∷ m) (j' ∷ weave ks (q ∷ ls)))
  weave_merge (suc i) (j ∷ ks) k (n ∷ p ∷ ls) l m h e f g =
      ap (λ (t : List A). n ++ j ∷ t) (weave_merge i ks k (p ∷ ls) l m (omega arith) e f g)

module _ {ℓ} {K : Type ℓ} where
  -- the node that `merge` leaves of two siblings
  abbrev pub merged : Node K → K → Node K → Node K
  merged child k larger = record {
    keys = child.keys ++ k ∷ larger.keys;
    children = child.children ++ larger.children;
  }

  -- the parent that `merge` leaves
  abbrev pub merge_parent : ℕ → Node K → Node K
  merge_parent i parent = record {
    keys = removed i parent.keys;
    children = removed (suc i) parent.children;
  }

  pub merge_run :
      (i : ℕ) (set : StateBTreeSet K) (parent child larger : Node K) (larger_id : NodeId)
      → i < length parent.keys
      → get_elem? parent.children (suc i) ≡ some larger_id
      → (k : K) × (get_elem? parent.keys i ≡ some k)
        × (merge parent i child larger set
            ≡ some (merge_parent i parent, merged child k larger, delete_node larger_id set))
  unfolding merge
  merge_run i set parent child larger larger_id b d =
      let (k, run, at) = remove_at-removed i parent.keys b in
      let (x, run', at') =
        remove_at-removed (suc i) parent.children
          (get_elem_bound parent.children (suc i) larger_id d) in
      (k, at, grind (arith, run, run', at', d))
