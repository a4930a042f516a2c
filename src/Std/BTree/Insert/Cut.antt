-- ===== src/Std/BTree/Insert/Cut.antt =====
-- Lists of keys and of subtrees cut in two around a key, as `split_child` does
-- (concordium-std/src/state_btree.rs).
use mathlib.Core.List.{append-nil, append_assoc}
use rust_smart_contract.Base.{
  ℕ, zero, suc, ◌≤◌, ◌≡◌, refl, sym, ap, some, List, [], ◌∷◌, ◌++◌, All, length, get_elem?, arith,
}
use rust_smart_contract.Std.BTree.View.{weave, before, after}
use rust_smart_contract.Std.BTree.Slots.{set_at}
use rust_smart_contract.Std.BTree.Insert.{insert_at, split_off, pop}

module _ {ℓ} {A : Type ℓ} where
  -- the list with an entry added at an index that is in range
  abbrev pub added : ℕ → A → List A → List A
  added zero x l = x ∷ l
  added (suc i) x [] = x ∷ []
  added (suc i) x (y ∷ l) = y ∷ added i x l

module _ {ℓ} {A : Type ℓ} where
  pub insert_at-added :
      (i : ℕ) (x : A) (l : List A) → i ≤ length l → insert_at i x l ≡ some (added i x l)
  unfolding insert_at
  insert_at-added zero x l b = refl
  insert_at-added (suc i) x [] b = ground arith
  insert_at-added (suc i) x (y ∷ l) b = grind (arith, insert_at-added i x l (omega arith))

  pub length-added : (i : ℕ) (x : A) (l : List A) → length (added i x l) ≡ suc (length l)
  length-added zero x l = refl
  length-added (suc i) x [] = refl
  length-added (suc i) x (y ∷ l) = ap {B = ℕ} suc (length-added i x l)

  pub get_elem-added :
      (i : ℕ) (x : A) (l : List A) → i ≤ length l → get_elem? (added i x l) i ≡ some x
  get_elem-added zero x l b = refl
  get_elem-added (suc i) x [] b = ground arith
  get_elem-added (suc i) x (y ∷ l) b = get_elem-added i x l (omega arith)

  pub get_elem-added_before :
      (i : ℕ) (x y : A) (l : List A)
      → get_elem? l i ≡ some y
      → get_elem? (added (suc i) x l) i ≡ some y
  get_elem-added_before i x y [] e = ground arith
  get_elem-added_before zero x y (z ∷ l) e = e
  get_elem-added_before (suc i) x y (z ∷ l) e = get_elem-added_before i x y l e

  pub All-added {κ} :
      (P : A → Type κ) (i : ℕ) (x : A) (l : List A) → P x → All P l → All P (added i x l)
  All-added P zero x l p a = (p, a)
  All-added P (suc i) x [] p a = (p, tt)
  All-added P (suc i) x (y ∷ l) p a = (a.0, All-added P i x l p a.1)

  pub split_off_lem :
      (i : ℕ) (l : List A)
      → i ≤ length l
      → (a : List A) × (b : List A) × (split_off i l ≡ some (a, b)) × (l ≡ a ++ b) × (length a ≡ i)
  unfolding split_off
  split_off_lem zero l b = ([], l, refl, refl, refl)
  split_off_lem (suc i) [] b = ground arith
  split_off_lem (suc i) (x ∷ l) b =
      let (a, c, e, f, g) = split_off_lem i l (omega arith) in
      (x ∷ a, c, grind (arith, e), ap (λ (t : List A). x ∷ t) f, omega (arith, g))

  pub pop_lem :
      (l : List A)
      → 1 ≤ length l
      → (a : List A) × (x : A) × (pop l ≡ some (a, x))
        × (l ≡ a ++ x ∷ [])
        × (length l ≡ suc (length a))
  unfolding pop
  pop_lem [] b = ground arith
  pop_lem (x ∷ []) b = ([], x, refl, refl, refl)
  pop_lem (x ∷ y ∷ l) b =
      let (a, z, e, f, g) = pop_lem (y ∷ l) (omega arith) in
      (x ∷ a, z, grind (arith, e), ap (λ (t : List A). x ∷ t) f, omega (arith, g))

  -- the view of two nodes with a key between them
  pub weave-append :
      (ks : List A) (k : A) (ks' : List A) (ls ls' : List (List A))
      → length ls ≡ suc (length ks)
      → length ls' ≡ suc (length ks')
      → weave (ks ++ k ∷ ks') (ls ++ ls') ≡ weave ks ls ++ k ∷ weave ks' ls'
  unfolding weave
  weave-append ks k ks' [] ls' h h' = ground arith
  weave-append [] k ks' (l ∷ []) ls' h h' = refl
  weave-append [] k ks' (l ∷ m ∷ ls) ls' h h' = ground arith
  weave-append (j ∷ ks) k ks' (l ∷ ls) ls' h h' = grind (
    arith,
    weave-append ks k ks' ls ls' (omega arith) h',
    append_assoc l (j ∷ weave ks ls) (k ∷ weave ks' ls'),
  )

  -- a subtree replaced by two and a key between them
  pub weave_split :
      (i : ℕ) (ks : List A) (k : A) (ls : List (List A)) (l m : List A)
      → length ls ≡ suc (length ks)
      → i ≤ length ks
      → weave (added i k ks) (added (suc i) m (set_at i l ls))
        ≡ before i ks ls ++ ((l ++ k ∷ m) ++ after i ks ls)
  unfolding weave before after
  weave_split i ks k [] l m h b = ground arith
  weave_split zero [] k (n ∷ []) l m h b = sym (append-nil (l ++ k ∷ m))
  weave_split zero [] k (n ∷ p ∷ ls) l m h b = ground arith
  weave_split zero (j ∷ ks) k (n ∷ ls) l m h b = sym (append_assoc l (k ∷ m) (j ∷ weave ks ls))
  weave_split (suc i) [] k (n ∷ ls) l m h b = ground arith
  weave_split (suc i) (j ∷ ks) k (n ∷ ls) l m h b = grind (
    arith,
    weave_split i ks k ls l m (omega arith) (omega arith),
    append_assoc n (j ∷ before i ks ls) ((l ++ k ∷ m) ++ after i ks ls),
  )
