-- ===== src/Std/BTree/Slots.antt =====
-- The view of a node whose subtrees change: one replaced, one split in two
-- (concordium-std/src/state_btree.rs).
use mathlib.Core.List.{append-nil, append_assoc}
use rust_smart_contract.Base.{
  ℕ, zero, suc, ◌≤◌, ◌≡◌, refl, sym, false, List, [], ◌∷◌, ◌++◌, All, length, arith, ◌⊎◌, inl, inr,
}
use rust_smart_contract.Std.Ord.{Ord, ◌≺◌}
use rust_smart_contract.Std.BTree.Sorted.{
  Sorted, Below, elem, Sorted-left, Sorted-right, All-append_left, All-append_right, All-imp,
  search_Below, search_Above,
}
use rust_smart_contract.Std.BTree.View.{weave, before, after}

module _ {ℓ} {A : Type ℓ} where
  -- the list with its entry at an index replaced
  abbrev pub set_at : ℕ → A → List A → List A
  set_at i x [] = []
  set_at zero x (y ∷ l) = x ∷ l
  set_at (suc i) x (y ∷ l) = y ∷ set_at i x l

  -- every entry but the one at the index
  abbrev pub AllBut {κ} : ℕ → (A → Type κ) → List A → Type κ
  AllBut i P [] = Unit {κ}
  AllBut zero P (x ∷ xs) = All P xs
  AllBut (suc i) P (x ∷ xs) = P x × AllBut i P xs

module _ {ℓ} {A : Type ℓ} where
  All-zip {κ μ} :
      (P : A → Type κ) (Q : A → Type μ) (l : List A) → All P l → All Q l → All (λ x. P x × Q x) l
  All-zip P Q [] a b = tt
  All-zip P Q (x ∷ l) (p, a) (q, b) = ((p, q), All-zip P Q l a b)

  All-tt {κ} : (P : A → Type κ) → ((x : A) → P x) → (l : List A) → All P l
  All-tt P f [] = tt
  All-tt P f (x ∷ l) = (f x, All-tt P f l)

  pub weave_set :
      (i : ℕ) (ks : List A) (ls : List (List A)) (l : List A)
      → length ls ≡ suc (length ks)
      → i ≤ length ks
      → weave ks (set_at i l ls) ≡ before i ks ls ++ (l ++ after i ks ls)
  unfolding weave before after
  weave_set i ks [] l h b = ground arith
  weave_set zero [] (m ∷ []) l h b = sym (append-nil l)
  weave_set zero [] (m ∷ n ∷ ls) l h b = ground arith
  weave_set (suc i) [] (m ∷ ls) l h b = ground arith
  weave_set zero (k ∷ ks) (m ∷ ls) l h b = refl
  weave_set (suc i) (k ∷ ks) (m ∷ ls) l h b =
      grind (arith, weave_set i ks ls l, append_assoc m (k ∷ before i ks ls) (l ++ after i ks ls))

  -- what holds of all keys holds in every subtree
  pub weave-slots {κ} :
      (P : A → Type κ) (ks : List A) (ls : List (List A))
      → length ls ≡ suc (length ks)
      → All P (weave ks ls)
      → All (λ l. All P l) ls
  unfolding weave
  weave-slots P ks [] h a = ground arith
  weave-slots P [] (l ∷ []) h a = (a, tt)
  weave-slots P [] (l ∷ m ∷ ls) h a = ground arith
  weave-slots P (k ∷ ks) (l ∷ ls) h a = (
    All-append_left P l (k ∷ weave ks ls) a,
    weave-slots P ks ls (omega arith) (All-append_right P l (k ∷ weave ks ls) a).1,
  )

  pub weave-keys {κ} :
      (P : A → Type κ) (ks : List A) (ls : List (List A))
      → length ls ≡ suc (length ks)
      → All P (weave ks ls)
      → All P ks
  unfolding weave
  weave-keys P [] ls h a = tt
  weave-keys P (k ∷ ks) [] h a = a
  weave-keys P (k ∷ ks) (l ∷ ls) h a =
      let (at, rest) = All-append_right P l (k ∷ weave ks ls) a in
      (at, weave-keys P ks ls (omega arith) rest)

  pub sides-keys {κ} :
      (P : A → Type κ) (i : ℕ) (ks : List A) (ls : List (List A))
      → length ls ≡ suc (length ks)
      → i ≤ length ks
      → All P (before i ks ls)
      → All P (after i ks ls)
      → All P ks
  unfolding before after
  sides-keys P i [] ls h c a b = tt
  sides-keys P i (k ∷ ks) [] h c a b = ground arith
  sides-keys P zero (k ∷ ks) (l ∷ ls) h c a b = (b.0, weave-keys P ks ls (omega arith) b.1)
  sides-keys P (suc i) (k ∷ ks) (l ∷ ls) h c a b =
      let (at, rest) = All-append_right P l (k ∷ before i ks ls) a in
      (at, sides-keys P i ks ls (omega arith) (omega arith) rest b)

  pub sides-slots {κ} :
      (P : A → Type κ) (i : ℕ) (ks : List A) (ls : List (List A))
      → length ls ≡ suc (length ks)
      → i ≤ length ks
      → All P (before i ks ls)
      → All P (after i ks ls)
      → AllBut i (λ l. All P l) ls
  unfolding before after
  sides-slots P i ks [] h c a b = tt
  sides-slots P zero [] (l ∷ []) h c a b = tt
  sides-slots P zero [] (l ∷ m ∷ ls) h c a b = ground arith
  sides-slots P (suc i) [] (l ∷ []) h c a b = ground arith
  sides-slots P (suc i) [] (l ∷ m ∷ ls) h c a b = ground arith
  sides-slots P zero (k ∷ ks) (l ∷ ls) h c a b = weave-slots P ks ls (omega arith) b.1
  sides-slots P (suc i) (k ∷ ks) (l ∷ ls) h c a b = (
    All-append_left P l (k ∷ before i ks ls) a,
    sides-slots P i ks ls (omega arith) (omega arith)
        (All-append_right P l (k ∷ before i ks ls) a).1 b,
  )

module _ {ℓ} {K : Type ℓ} ⦃o : Ord K⦄ where
  -- no key of the list is among `l`
  abbrev pub Apart : List K → List K → Type 0
  Apart l m = All (λ k. elem k l ≡ false) m

  Sorted-sides : (l b : List K) → Sorted (l ++ b) → All (λ y. Below y l) b
  Sorted-sides [] b s = All-tt (λ y. Below y []) (λ y. tt) b
  Sorted-sides (x ∷ l) b s =
      All-zip (λ y. x ≺ y) (λ y. Below y l) b (All-append_right (λ y. x ≺ y) l b s.0)
        (Sorted-sides l b s.1)

  pub Apart-left : (a l b : List K) → Sorted (a ++ (l ++ b)) → Apart l a
  Apart-left [] l b s = tt
  Apart-left (x ∷ a) l b s =
      let right = All-append_right (λ y. x ≺ y) a (l ++ b) s.0 in
      ((search_Above x l (All-append_left (λ y. x ≺ y) l b right)).0, Apart-left a l b s.1)

  pub Apart-right : (a l b : List K) → Sorted (a ++ (l ++ b)) → Apart l b
  Apart-right a l b s =
      All-imp (λ y. Below y l) (λ y below. (search_Below y l below).0) b
        (Sorted-sides l b (Sorted-right a (l ++ b) s))

  -- The subtrees other than the one at an index share no key with it.
  pub slots-Apart :
      (i : ℕ) (ks : List K) (ls : List (List K)) (l : List K)
      → length ls ≡ suc (length ks)
      → i ≤ length ks
      → Sorted (before i ks ls ++ (l ++ after i ks ls))
      → AllBut i (Apart l) ls
  slots-Apart i ks ls l h c s =
      sides-slots (λ k. elem k l ≡ false) i ks ls h c
        (Apart-left (before i ks ls) l (after i ks ls) s)
        (Apart-right (before i ks ls) l (after i ks ls) s)

  elem_single : (k y : K) → (y ≺ k) ⊎ (k ≺ y) → elem y (k ∷ []) ≡ false
  unfolding elem
  elem_single k y (inl l) = ground (arith, o.flip_lt y k)
  elem_single k y (inr l) = ground arith

  -- No subtree of a node holds the node's first key.
  pub head-Apart :
      (k : K) (ks : List K) (ls : List (List K))
      → length ls ≡ suc (suc (length ks))
      → Sorted (weave (k ∷ ks) ls)
      → All (Apart (k ∷ [])) ls
  unfolding weave
  head-Apart k ks [] h s = ground arith
  head-Apart k ks (l ∷ ls) h s = (
    All-imp (λ y. y ≺ k) (λ y b. elem_single k y (inl b)) l (Sorted-left l k (weave ks ls) s).1,
    weave-slots (λ y. elem y (k ∷ []) ≡ false) ks ls (omega arith)
        (All-imp (λ y. k ≺ y) (λ y a. elem_single k y (inr a)) (weave ks ls)
          (Sorted-right l (k ∷ weave ks ls) s).0),
  )
