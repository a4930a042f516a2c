-- ===== src/Std/BTree/Search/Locate.antt =====
-- Where `binary_search` sends a search of a node, among the keys of the node's subtree in order
-- (concordium-std/src/state_btree.rs).
use mathlib.Core.Path.{subst}
use rust_smart_contract.Base.{
  inl, inr, ℕ, zero, suc, ◌≤◌, ◌≡◌, refl, true, Option, none, some, List, [], ◌∷◌, length,
  get_elem?, arith,
}
use rust_smart_contract.Std.Ord.{Ord, ◌≺◌, cmp-cases}
use rust_smart_contract.Std.BTree.Sorted.{
  Sorted, Below, Above, Sorted-left, Sorted-right, Below-trans, Above-trans, All-append,
  All-append_right, or_else, first_above, last_below, first_from, last_upto, elem, elem-append,
  first_above-append, first_from-append, last_below-append, last_upto-append, search_Below,
  search_Above,
}
use rust_smart_contract.Std.BTree.Node.{found, missing, Search-cases, binary_search}
use rust_smart_contract.Std.BTree.View.{weave, before, after}
use rust_smart_contract.Std.BTree.Search.{key_before}

module _ {ℓ} {K : Type ℓ} ⦃o : Ord K⦄ where
  -- The search says that the key is missing and which subtree would hold it: the keys on the left
  -- of that subtree are below the key, and those on its right above.
  abbrev pub Between : K → List K → List (List K) → ℕ → Type 0
  Between key ks ls i = (i ≤ length ks) × Below key (before i ks ls) × Above key (after i ks ls)

  -- The search found the key at an index.
  abbrev pub Here : K → List K → List (List K) → ℕ → Type ℓ
  Here key ks ls i =
      (get_elem? ks i ≡ some key)
      × (elem key (weave ks ls) ≡ true)
      × (first_from key (weave ks ls) ≡ some key)
      × (last_upto key (weave ks ls) ≡ some key)
      × (first_above key (before (suc i) ks ls) ≡ none)
      × Above key (after (suc i) ks ls)
      × Below key (before i ks ls)
      × (last_below key (after i ks ls) ≡ none)

  Between-next :
      (key k : K) (ks l : List K) (ls : List (List K)) (i : ℕ)
      → k ≺ key
      → Below k l
      → Between key ks ls i
      → Between key (k ∷ ks) (l ∷ ls) (suc i)
  unfolding before after
  Between-next key k ks l ls i c low (bound, below, above) = (
    omega arith,
    All-append _ l (k ∷ before i ks ls) (Below-trans k key l low c) (c, below),
    above,
  )

  Between-first :
      (key k : K) (ks l : List K) (ls : List (List K))
      → key ≺ k
      → Above k (weave ks ls)
      → Between key (k ∷ ks) (l ∷ ls) 0
  unfolding before after
  Between-first key k ks l ls c high = (omega arith, tt, (c, Above-trans key k _ c high))

  pub missing-Between :
      (ks : List K) (ls : List (List K)) (key : K) (i : ℕ)
      → length ls ≡ suc (length ks)
      → Sorted (weave ks ls)
      → binary_search ks key ≡ missing i
      → Between key ks ls i
  unfolding weave before after binary_search
  missing-Between ks [] key i h s e = ground arith
  missing-Between [] (l ∷ ls) key i h s e = ground arith
  missing-Between (k ∷ ks) (l ∷ ls) key i h s e =
      let (left, low) = Sorted-left l k (weave ks ls) s in
      let (high, right) = Sorted-right l (k ∷ weave ks ls) s in
      elim (cmp-cases k key) [
        | inl c ↦ elim (Search-cases (binary_search ks key)) [
          | inl (j, f) ↦ ground arith
          | inr (j, f) ↦
              let step =
                Between-next key k ks l ls j c low
                  (missing-Between ks ls key j (omega arith) right f) in
              subst (Between key (k ∷ ks) (l ∷ ls)) (ground arith) step
        ]
        | inr (inl c) ↦ ground arith
        | inr (inr c) ↦
            subst (Between key (k ∷ ks) (l ∷ ls)) (ground arith)
              (Between-first key k ks l ls (o.flip_gt k key c) high)
      ]

  Here-next :
      (key k : K) (ks l : List K) (ls : List (List K)) (i : ℕ)
      → k ≺ key
      → Below k l
      → Here key ks ls i
      → Here key (k ∷ ks) (l ∷ ls) (suc i)
  unfolding weave before after elem first_from last_upto first_above
  Here-next key k ks l ls i c low (e, m, ff, lu, fa, a, b, lb) =
      let low_key = Below-trans k key l low c in
      let none_left = search_Below key l low_key in
      (
        e,
        grind (arith, none_left, elem-append key l (k ∷ weave ks ls), m),
        grind (arith, none_left, first_from-append key l (k ∷ weave ks ls), ff),
        grind (arith, last_upto-append key l (k ∷ weave ks ls), lu),
        grind (arith, none_left, first_above-append key l (k ∷ before (suc i) ks ls), fa),
        a,
        All-append _ l (k ∷ before i ks ls) low_key (c, b),
        lb,
      )

  before_zero : (ks : List K) (ls : List (List K)) → before 0 ks ls ≡ []
  unfolding before
  before_zero ks [] = refl
  before_zero ks (l ∷ ls) = refl

  after_zero :
      (k : K) (ks : List K) (ls : List (List K)) → Above k (weave ks ls) → Above k (after 0 ks ls)
  unfolding after weave
  after_zero k ks [] a = tt
  after_zero k [] (l ∷ ls) a = tt
  after_zero k (j ∷ ks) (l ∷ ls) a = All-append_right _ l (j ∷ weave ks ls) a

  Here-first :
      (k : K) (ks l : List K) (ls : List (List K))
      → Below k l
      → Above k (weave ks ls)
      → Here k (k ∷ ks) (l ∷ ls) 0
  unfolding weave before after elem first_from last_upto first_above last_below
  Here-first k ks l ls low high =
      let none_left = search_Below k l low in
      let none_right = search_Above k (weave ks ls) high in
      let self = o.cmp_refl k in
      (
        refl,
        grind (arith, none_left, elem-append k l (k ∷ weave ks ls), self),
        grind (arith, none_left, first_from-append k l (k ∷ weave ks ls), self),
        grind (arith, none_right, last_upto-append k l (k ∷ weave ks ls), self),
        grind (
          arith,
          none_left,
          first_above-append k l (k ∷ before 0 ks ls),
          before_zero ks ls,
          self,
        ),
        after_zero k ks ls high,
        tt,
        grind (arith, none_right, self),
      )

  pub found-Here :
      (ks : List K) (ls : List (List K)) (key : K) (i : ℕ)
      → length ls ≡ suc (length ks)
      → Sorted (weave ks ls)
      → binary_search ks key ≡ found i
      → Here key ks ls i
  unfolding weave before after binary_search
  found-Here ks [] key i h s e = ground arith
  found-Here [] (l ∷ ls) key i h s e = ground arith
  found-Here (k ∷ ks) (l ∷ ls) key i h s e =
      let (left, low) = Sorted-left l k (weave ks ls) s in
      let (high, right) = Sorted-right l (k ∷ weave ks ls) s in
      elim (cmp-cases k key) [
        | inl c ↦ elim (Search-cases (binary_search ks key)) [
          | inr (j, f) ↦ ground arith
          | inl (j, f) ↦
              subst (Here key (k ∷ ks) (l ∷ ls)) (ground arith)
                (Here-next key k ks l ls j c low (found-Here ks ls key j (omega arith) right f))
        ]
        | inr (inl c) ↦ subst (Here key (k ∷ ks) (l ∷ ls)) (ground arith) (
            subst (λ x. Here x (k ∷ ks) (l ∷ ls) 0) (o.same k key c)
              (Here-first k ks l ls low high))
        | inr (inr c) ↦ ground arith
      ]

  -- the key after the subtree at an index, and the one before it
  pub first_above-after :
      (i : ℕ) (ks : List K) (ls : List (List K)) (key : K)
      → length ls ≡ suc (length ks)
      → Above key (after i ks ls)
      → first_above key (after i ks ls) ≡ get_elem? ks i
  unfolding after first_above
  first_above-after i ks [] key h a = ground arith
  first_above-after zero [] (l ∷ ls) key h a = refl
  first_above-after zero (k ∷ ks) (l ∷ ls) key h a = ground (arith, o.flip_lt key k)
  first_above-after (suc i) [] (l ∷ ls) key h a = refl
  first_above-after (suc i) (k ∷ ks) (l ∷ ls) key h a =
      first_above-after i ks ls key (omega arith) a

  pub first_from-after :
      (i : ℕ) (ks : List K) (ls : List (List K)) (key : K)
      → length ls ≡ suc (length ks)
      → Above key (after i ks ls)
      → first_from key (after i ks ls) ≡ get_elem? ks i
  unfolding after first_from
  first_from-after i ks [] key h a = ground arith
  first_from-after zero [] (l ∷ ls) key h a = refl
  first_from-after zero (k ∷ ks) (l ∷ ls) key h a = ground (arith, o.flip_lt key k)
  first_from-after (suc i) [] (l ∷ ls) key h a = refl
  first_from-after (suc i) (k ∷ ks) (l ∷ ls) key h a = first_from-after i ks ls key (omega arith) a

  pub last_upto-Below : (key : K) (l : List K) → Below key l → last_upto key l ≡ last_below key l
  unfolding last_below last_upto
  last_upto-Below key [] b = refl
  last_upto-Below key (k ∷ l) b = ground (arith, last_upto-Below key l)

  -- the key that `lower_key_index - 1` selects
  pub key_before-before :
      (i : ℕ) (ks : List K) (ls : List (List K)) (key : K) (so_far : Option K)
      → length ls ≡ suc (length ks)
      → i ≤ length ks
      → Below key (before i ks ls)
      → key_before ks i so_far ≡ some (or_else (last_below key (before i ks ls)) so_far)
  unfolding before last_below key_before
  key_before-before i ks [] key so_far h b a = ground arith
  key_before-before zero ks (l ∷ ls) key so_far h b a = refl
  key_before-before (suc i) [] (l ∷ ls) key so_far h b a = ground arith
  key_before-before (suc zero) (k ∷ ks) (l ∷ ls) key so_far h b a = grind (
    arith,
    last_below-append key l (k ∷ before 0 ks ls),
    before_zero ks ls,
    All-append_right _ l (k ∷ before 0 ks ls) a,
  )
  key_before-before (suc (suc i)) (k ∷ ks) (l ∷ ls) key so_far h b a =
      let (at, rest) = All-append_right _ l (k ∷ before (suc i) ks ls) a in
      grind (
        arith,
        last_below-append key l (k ∷ before (suc i) ks ls),
        key_before-before (suc i) ks ls key none (omega arith) (omega arith) rest,
      )
