-- ===== src/Std/BTree/Sorted.antt =====
-- What the operations of the ordered set promise: the same operations on a strictly increasing
-- list of keys.
use Prim.Native.Nat.Ordering.{lt, eq, gt}
use rust_smart_contract.Base.{
  ◌≡◌, refl, Bool, true, false, ◌||◌, Option, none, some, List, [], ◌∷◌, ◌++◌, All, arith,
}
use rust_smart_contract.Std.Ord.{Ord, ◌≺◌}

-- `Option::or`
abbrev pub or_else {ℓ} : {A : Type ℓ} → Option A → Option A → Option A
or_else none b = b
or_else (some a) b = some a

module _ {ℓ κ} {A : Type ℓ} (P : A → Type κ) where
  pub All-append : (xs ys : List A) → All P xs → All P ys → All P (xs ++ ys)
  All-append [] ys a b = b
  All-append (x ∷ xs) ys a b = (a.0, All-append xs ys a.1 b)

  pub All-append_left : (xs ys : List A) → All P (xs ++ ys) → All P xs
  All-append_left [] ys a = tt
  All-append_left (x ∷ xs) ys a = (a.0, All-append_left xs ys a.1)

  pub All-append_right : (xs ys : List A) → All P (xs ++ ys) → All P ys
  All-append_right [] ys a = a
  All-append_right (x ∷ xs) ys a = All-append_right xs ys a.1

  pub All-imp {μ} : {Q : A → Type μ} → ((x : A) → P x → Q x) → (xs : List A) → All P xs → All Q xs
  All-imp f [] a = tt
  All-imp f (x ∷ xs) a = (f x a.0, All-imp f xs a.1)

module _ {ℓ} {K : Type ℓ} ⦃o : Ord K⦄ where
  abbrev pub Below : K → List K → Type 0
  Below x l = All (λ k. k ≺ x) l

  abbrev pub Above : K → List K → Type 0
  Above x l = All (λ k. x ≺ k) l

  abbrev pub Sorted : List K → Type 0
  Sorted [] = Unit
  Sorted (k ∷ ks) = Above k ks × Sorted ks

  unfoldable pub elem : K → List K → Bool
  elem x [] = false
  elem x (k ∷ ks) = let rest = elem x ks in elim (o.cmp k x) [ lt ↦ rest | eq ↦ true | gt ↦ rest ]

  -- the least key above `x`
  unfoldable pub first_above : K → List K → Option K
  first_above x [] = none
  first_above x (k ∷ ks) =
      let rest = first_above x ks in elim (o.cmp k x) [ lt ↦ rest | eq ↦ rest | gt ↦ some k ]

  -- the least key that is `x` or above it
  unfoldable pub first_from : K → List K → Option K
  first_from x [] = none
  first_from x (k ∷ ks) =
      let rest = first_from x ks in elim (o.cmp k x) [ lt ↦ rest | eq ↦ some k | gt ↦ some k ]

  -- the greatest key below `x`
  unfoldable pub last_below : K → List K → Option K
  last_below x [] = none
  last_below x (k ∷ ks) =
      let rest = last_below x ks in
      or_else rest (elim (o.cmp k x) [ lt ↦ some k | eq ↦ none | gt ↦ none ])

  -- the greatest key that is `x` or below it
  unfoldable pub last_upto : K → List K → Option K
  last_upto x [] = none
  last_upto x (k ∷ ks) =
      let rest = last_upto x ks in
      or_else rest (elim (o.cmp k x) [ lt ↦ some k | eq ↦ some k | gt ↦ none ])

  -- `x` in its place
  unfoldable pub sorted_insert : K → List K → List K
  sorted_insert x [] = x ∷ []
  sorted_insert x (k ∷ ks) =
      let rest = sorted_insert x ks in
      elim (o.cmp k x) [ lt ↦ k ∷ rest | eq ↦ k ∷ ks | gt ↦ x ∷ k ∷ ks ]

  pub Sorted-left : (a : List K) (k : K) (b : List K) → Sorted (a ++ k ∷ b) → Sorted a × Below k a
  Sorted-left [] k b s = (tt, tt)
  Sorted-left (x ∷ a) k b s =
      let (sorted, below) = Sorted-left a k b s.1 in
      ((All-append_left _ a (k ∷ b) s.0, sorted), ((All-append_right _ a (k ∷ b) s.0).0, below))

  pub Sorted-right : (a b : List K) → Sorted (a ++ b) → Sorted b
  Sorted-right [] b s = s
  Sorted-right (x ∷ a) b s = Sorted-right a b s.1

  pub Sorted-prefix : (a b : List K) → Sorted (a ++ b) → Sorted a
  Sorted-prefix [] b s = tt
  Sorted-prefix (x ∷ a) b s = (All-append_left _ a b s.0, Sorted-prefix a b s.1)

  pub Below-trans : (k x : K) (l : List K) → Below k l → k ≺ x → Below x l
  Below-trans k x l b h = All-imp _ (λ y c. o.trans_lt y k x c h) l b

  pub Above-trans : (x k : K) (l : List K) → x ≺ k → Above k l → Above x l
  Above-trans x k l h a = All-imp _ (λ y c. o.trans_lt x k y h c) l a

  pub first_above-append :
      (x : K) (a b : List K) → first_above x (a ++ b) ≡ or_else (first_above x a) (first_above x b)
  unfolding first_above
  first_above-append x [] b = refl
  first_above-append x (k ∷ a) b = ground (arith, first_above-append x a b)

  pub first_from-append :
      (x : K) (a b : List K) → first_from x (a ++ b) ≡ or_else (first_from x a) (first_from x b)
  unfolding first_from
  first_from-append x [] b = refl
  first_from-append x (k ∷ a) b = ground (arith, first_from-append x a b)

  pub last_below-append :
      (x : K) (a b : List K) → last_below x (a ++ b) ≡ or_else (last_below x b) (last_below x a)
  unfolding last_below
  last_below-append x [] b = ground arith
  last_below-append x (k ∷ a) b = ground (arith, last_below-append x a b)

  pub last_upto-append :
      (x : K) (a b : List K) → last_upto x (a ++ b) ≡ or_else (last_upto x b) (last_upto x a)
  unfolding last_upto
  last_upto-append x [] b = ground arith
  last_upto-append x (k ∷ a) b = ground (arith, last_upto-append x a b)

  pub elem-append : (x : K) (a b : List K) → elem x (a ++ b) ≡ (elem x a || elem x b)
  unfolding elem
  elem-append x [] b = refl
  elem-append x (k ∷ a) b = ground (arith, elem-append x a b)

  -- what the searches give on keys that are all below, or all above
  pub search_Below :
      (x : K) (l : List K)
      → Below x l
      → (elem x l ≡ false) × (first_above x l ≡ none) × (first_from x l ≡ none)
  unfolding elem first_above first_from
  search_Below x [] b = (refl, refl, refl)
  search_Below x (k ∷ l) b = ground (arith, search_Below x l)

  pub search_Above :
      (x : K) (l : List K)
      → Above x l
      → (elem x l ≡ false) × (last_below x l ≡ none) × (last_upto x l ≡ none)
  unfolding elem last_below last_upto
  search_Above x [] b = (refl, refl, refl)
  search_Above x (k ∷ l) b = ground (arith, search_Above x l, o.flip_lt x k)

  pub sorted_insert-Below :
      (x : K) (a b : List K) → Below x a → sorted_insert x (a ++ b) ≡ a ++ sorted_insert x b
  unfolding sorted_insert
  sorted_insert-Below x [] b h = refl
  sorted_insert-Below x (k ∷ a) b h = ground (arith, sorted_insert-Below x a b)

  pub sorted_insert-Above :
      (x : K) (a b : List K) → Above x b → sorted_insert x (a ++ b) ≡ sorted_insert x a ++ b
  unfolding sorted_insert
  sorted_insert-Above x [] [] h = refl
  sorted_insert-Above x [] (k ∷ b) h = ground (arith, o.flip_lt x k)
  sorted_insert-Above x (k ∷ a) b h = ground (arith, sorted_insert-Above x a b)
