-- ===== src/Std/BTree/Insert/Heads.antt =====
-- `split_child` keeps the keys of the parent's subtree and their order
-- (concordium-std/src/state_btree.rs).
use mathlib.Core.Path.{subst}
use rust_smart_contract.Base.{
  ℕ, zero, suc, ◌≡◌, refl, ap, Bool, true, false, some, List, [], ◌∷◌, ◌++◌, map, All, length,
  get_elem?, arith, ◌||◌,
}
use rust_smart_contract.Std.Ord.{Ord}
use rust_smart_contract.Std.BTree.Sorted.{Sorted, elem, elem-append}
use rust_smart_contract.Std.BTree.Node.{Node, StateBTreeSet}
use rust_smart_contract.Std.BTree.View.{weave, in_order, Shape}
use rust_smart_contract.Std.BTree.Search.Descend.{keys_under, subtrees, length-subtrees}
use rust_smart_contract.Std.BTree.Slots.{Apart, AllBut, weave-slots, head-Apart}
use rust_smart_contract.Std.BTree.Frame.{Frame, Kid, Frame-All}
use rust_smart_contract.Std.BTree.Insert.Inserted.{some_inj}
use rust_smart_contract.Std.BTree.Insert.Cut.{added}
use rust_smart_contract.Std.BTree.Insert.Split.{first_of}

pub map-added {ℓ κ} :
    {A : Type ℓ} {B : Type κ} (f : A → B) (i : ℕ) (x : A) (l : List A)
    → map f (added i x l) ≡ added i (f x) (map f l)
map-added f zero x l = refl
map-added f (suc i) x [] = refl
map-added f (suc i) x (y ∷ l) = ap (λ (t : List _). f y ∷ t) (map-added f i x l)

module _ {ℓ} {K : Type ℓ} ⦃o : Ord K⦄ where
  pub firsts-Apart :
      (ks : List K) (ls : List (List K))
      → length ls ≡ suc (length ks)
      → Sorted (weave ks ls)
      → All (Apart (first_of ks)) ls
  unfolding weave elem
  firsts-Apart ks [] h s = ground arith
  firsts-Apart [] (l ∷ []) h s = (none_apart l, tt)
    where
      none_apart : (m : List K) → Apart [] m
      none_apart [] = tt
      none_apart (k ∷ m) = (refl, none_apart m)
  firsts-Apart [] (l ∷ m ∷ ls) h s = ground arith
  firsts-Apart (k ∷ ks) (l ∷ ls) h s = head-Apart k ks (l ∷ ls) h s

  pub first_of-weave :
      (y : K) (ks : List K) (ls : List (List K))
      → length ls ≡ suc (length ks)
      → elem y (weave ks ls) ≡ false
      → elem y (first_of ks) ≡ false
  unfolding weave elem
  first_of-weave y ks [] h e = ground arith
  first_of-weave y [] (l ∷ ls) h e = refl
  first_of-weave y (k ∷ ks) (l ∷ ls) h e = grind (arith, elem-append y l (k ∷ weave ks ls))

  pub both_Apart : (a b m : List K) → Apart a m → Apart b m → Apart (a ++ b) m
  both_Apart a b [] p q = tt
  both_Apart a b (k ∷ m) (p, ps) (q, qs) =
      (grind (arith, elem-append k a b), both_Apart a b m ps qs)

  both_All :
      (a b : List K) (ms : List (List K))
      → All (Apart a) ms
      → All (Apart b) ms
      → All (Apart (a ++ b)) ms
  both_All a b [] p q = tt
  both_All a b (m ∷ ms) (p, ps) (q, qs) = (both_Apart a b m p q, both_All a b ms ps qs)

  pub within_Apart :
      (a b m : List K) → ((k : K) → elem k b ≡ false → elem k a ≡ false) → Apart b m → Apart a m
  within_Apart a b [] f p = tt
  within_Apart a b (k ∷ m) f (p, ps) = (f k p, within_Apart a b m f ps)

  within_All :
      (a b : List K) (ms : List (List K))
      → ((k : K) → elem k b ≡ false → elem k a ≡ false)
      → All (Apart b) ms
      → All (Apart a) ms
  within_All a b [] f p = tt
  within_All a b (m ∷ ms) f (p, ps) = (within_Apart a b m f p, within_All a b ms f ps)

  pub both_AllBut :
      (i : ℕ) (a b c : List K) (ms : List (List K))
      → ((k : K) → elem k c ≡ false → elem k a ≡ false)
      → AllBut i (Apart c) ms
      → All (Apart b) ms
      → AllBut i (Apart (a ++ b)) ms
  both_AllBut i a b c [] f p q = tt
  both_AllBut zero a b c (m ∷ ms) f p (q, qs) = both_All a b ms (within_All a c ms f p) qs
  both_AllBut (suc i) a b c (m ∷ ms) f (p, ps) (q, qs) =
      (both_Apart a b m (within_Apart a c m f p) q, both_AllBut i a b c ms f ps qs)

  pub All-get {κ} :
      (P : List K → Type κ) (ms : List (List K)) (i : ℕ) (m : List K)
      → get_elem? ms i ≡ some m
      → All P ms
      → P m
  All-get P [] i m e a = ground arith
  All-get P (n ∷ ms) zero m e a = subst P (some_inj n m e) a.0
  All-get P (n ∷ ms) (suc i) m e a = All-get P ms i m e a.1

  -- The grandchildren are as they were.
  pub child_kids :
      (h : ℕ) (set set' : StateBTreeSet K) (child : Node K) (heads : List K)
      → Shape h set child
      → Sorted (in_order h set child)
      → Apart heads (in_order h set child)
      → Frame set set' (first_of child.keys ++ heads)
      → (h' : ℕ) → h ≡ suc h'
      → All (Kid h' set') child.children
        × (map (keys_under h' set') child.children ≡ map (keys_under h' set) child.children)
  unfolding weave in_order
  child_kids zero set set' child heads s sorted apart f h' e = ground arith
  child_kids (suc h) set set' child heads s sorted apart f h' e =
      let enough = length-subtrees (suc h) set child s in
      let slots : List (List K) = subtrees (suc h) set child in
      subst
        (λ t.
          All (Kid t set') child.children
          × (map (keys_under t set') child.children ≡ map (keys_under t set) child.children))
        (omega (arith, e))
        (Frame-All h set set' (first_of child.keys ++ heads) child.children f s.2 (
          both_All (first_of child.keys) heads slots (firsts-Apart child.keys slots enough sorted)
            (weave-slots (λ k. elem k heads ≡ false) child.keys slots enough apart)))

  pub elem-first : (k : K) (b : Bool) (l : List K) → (b || elem k (k ∷ l)) ≡ true
  unfolding elem
  elem-first k true l = refl
  elem-first k false l = grind (arith, o.cmp_refl k)
