-- ===== src/Base/Dict.antt =====
-- A `BTreeMap` as an association list. Only look-ups, updates and sums over all entries are
-- used, none of which depends on the order of the entries.
use mathlib.Core.Path.{◌≡◌, refl}
use mathlib.Core.Logic.{◌≢◌}
use mathlib.Core.Bool.{Bool, true, false}
use mathlib.Core.Option.{Option, none, some}
use mathlib.Core.List.{List, [], ◌∷◌}
use native.Mathlib.Omega.{arith}
use rust_smart_contract.Base.Tests.{◌==◌, if◌then◌else◌}
use Prim.Native.Nat.{ℕ, ◌+◌}

abbrev pub Dict {ℓ} : Type ℓ → Type ℓ
Dict V = List (ℕ × V)

module _ {ℓ} {V : Type ℓ} where
  -- `map.get(&k)`
  unfoldable pub get? : ℕ → Dict V → Option V
  get? k [] = none
  get? k ((j, v) ∷ d) = if j == k then some v else get? k d

  -- `map.insert(k, v)`: an old value is replaced.
  unfoldable pub insert : ℕ → V → Dict V → Dict V
  insert k v [] = (k, v) ∷ []
  insert k v ((j, w) ∷ d) = if j == k then (k, v) ∷ d else (j, w) ∷ insert k v d

  -- `map.remove(&k)`
  unfoldable pub remove : ℕ → Dict V → Dict V
  remove k [] = []
  remove k ((j, v) ∷ d) = let rest = remove k d in if j == k then rest else (j, v) ∷ rest

  pub get?-remove :
      (k j : ℕ) (d : Dict V) → get? j (remove k d) ≡ (if k == j then none else get? j d)
  unfolding get? remove
  get?-remove k j [] = ground arith
  get?-remove k j ((i, v) ∷ d) = ground (arith, get?-remove k j d)

  -- `map.contains_key(&k)`
  unfoldable pub contains_key : ℕ → Dict V → Bool
  unfolding get?
  contains_key k d = elim (get? k d) [ none ↦ false | some _ ↦ true ]

  pub get?-insert :
      (k j : ℕ) (v : V) (d : Dict V) → get? j (insert k v d) ≡ (if k == j then some v else get? j d)
  unfolding get? insert
  get?-insert k j v [] = refl
  get?-insert k j v ((i, w) ∷ d) = ground (arith, get?-insert k j v d)

  pub get?-insert_self : (k : ℕ) (v : V) (d : Dict V) → get? k (insert k v d) ≡ some v
  get?-insert_self k v d = ground (arith, get?-insert k k v d)

  pub get?-insert_ne : (k j : ℕ) (v : V) (d : Dict V) → k ≢ j → get? j (insert k v d) ≡ get? j d
  get?-insert_ne k j v d h = ground (arith, get?-insert k j v d)

  -- The sum of a measure over all entries.
  pub sum_by : (V → ℕ) → Dict V → ℕ
  sum_by f [] = 0
  sum_by f ((k, v) ∷ d) = f v + sum_by f d

  pub sum_by-insert :
      (f : V → ℕ) (k : ℕ) (v old : V) (d : Dict V)
      → get? k d ≡ some old
      → sum_by f (insert k v d) + f old ≡ sum_by f d + f v
  unfolding get? insert sum_by
  sum_by-insert f k v old [] e = cc
  sum_by-insert f k v old ((j, w) ∷ d) e = ground (arith, sum_by-insert f k v old d)

  pub sum_by-insert_new :
      (f : V → ℕ) (k : ℕ) (v : V) (d : Dict V)
      → get? k d ≡ none
      → sum_by f (insert k v d) ≡ sum_by f d + f v
  unfolding get? insert sum_by
  sum_by-insert_new f k v [] e = omega arith
  sum_by-insert_new f k v ((j, w) ∷ d) e = ground (arith, sum_by-insert_new f k v d)

  -- No key has two entries.
  abbrev pub Unique : Dict V → Type ℓ
  Unique [] = Unit {ℓ}
  Unique ((k, v) ∷ d) = (get? k d ≡ none) × Unique d

  pub insert-Unique : (k : ℕ) (v : V) (d : Dict V) → Unique d → Unique (insert k v d)
  unfolding insert get?
  insert-Unique k v [] u = (refl, tt)
  insert-Unique k v ((j, w) ∷ d) u = ground (arith, get?-insert k j v d, insert-Unique k v d u.1)
