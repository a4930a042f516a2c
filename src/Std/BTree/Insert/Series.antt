-- ===== src/Std/BTree/Insert/Series.antt =====
-- Sets that a series of insertions builds from the empty one (concordium-std/src/state_btree.rs).
use rust_smart_contract.Base.{
  ℕ, suc, ◌+◌, ◌*◌, ◌^◌, ◌≤◌, ◌<◌, ◌≡◌, refl, ◌∙◌, Bool, not, Option, some, List, [], ◌∷◌, length,
  arith,
}
use rust_smart_contract.Std.Ord.{Ord}
use rust_smart_contract.Std.BTree.Sorted.{Sorted, elem, sorted_insert}
use rust_smart_contract.Std.BTree.Node.{StateBTreeSet, new, ◌>>=◌}
use rust_smart_contract.Std.BTree.Insert.{insert}
use rust_smart_contract.Std.BTree.Iter.{iter}
use rust_smart_contract.Std.BTree.Iter.Laws.{collect}
use rust_smart_contract.Std.BTree.Insert.Root.{length-sorted_insert_lem}
use rust_smart_contract.Std.BTree.Insert.Laws.{insert-Holds}
use rust_smart_contract.Std.BTree.Tree.{Holds, new-Holds, collect-iter}

spent : (bound n : ℕ) → (bound + 2) * (suc n + 1) ≡ (bound + 2) * (n + 1) + (bound + 2)
spent bound n = omega arith

new_next {ℓ} : (K : Type ℓ) → (new {K = K}).next_node_id ≡ 0
unfolding new
new_next K = refl

module _ {ℓ} {K : Type ℓ} ⦃o : Ord K⦄ where
  -- the keys inserted one after the other
  unfoldable pub insert_all : ℕ → ℕ → List K → StateBTreeSet K → Option (StateBTreeSet K)
  insert_all degree fuel [] set = some set
  insert_all degree fuel (k ∷ ks) set =
      insert degree fuel set k >>= λ result. insert_all degree fuel ks result.1

  abbrev pub sorted_all : List K → List K → List K
  sorted_all [] l = l
  sorted_all (k ∷ ks) l = sorted_all ks (sorted_insert k l)

  insert_all_next :
      (degree fuel : ℕ) (k : K) (ks : List K) (set set' : StateBTreeSet K) (b : Bool)
      → insert degree fuel set k ≡ some (b, set')
      → insert_all degree fuel (k ∷ ks) set ≡ insert_all degree fuel ks set'
  unfolding insert_all
  insert_all_next degree fuel k ks set set' b e = grind (arith, e)

  insert_all-Holds :
      (degree fuel h bound : ℕ) (set : StateBTreeSet K) (l ks : List K)
      → 2 ≤ degree
      → h + length ks < fuel
      → h + length ks ≤ bound
      → Holds h set l
      → set.next_node_id + (bound + 2) * (length ks + 1) < 2 ^ 64
      → length l + length ks < 2 ^ 32
      → (h' : ℕ) × (set' : StateBTreeSet K) × (insert_all degree fuel ks set ≡ some set')
        × Holds h' set' (sorted_all ks l)
        × (h' ≤ h + length ks)
        × (length (sorted_all ks l) ≤ length l + length ks)
  unfolding insert_all
  insert_all-Holds degree fuel h bound set l [] d f c holds n short =
      (h, set, refl, holds, omega arith, omega arith)
  insert_all-Holds degree fuel h bound set l (k ∷ ks) d f c holds n short =
      let rest : ℕ = (bound + 2) * (length ks + 1) in
      let spend : (bound + 2) * (suc (length ks) + 1) ≡ rest + (bound + 2) =
        spent bound (length ks) in
      let size : length (sorted_insert k l) ≤ length l + 1 =
        ground (arith, length-sorted_insert_lem k l holds.1) in
      let now : set.next_node_id + (h + 2) < 2 ^ 64 = omega (arith, n, c, spend) in
      let (set', h', e, holds', low, next) =
        insert-Holds degree fuel h set l k d (omega (arith, f)) holds now (omega (arith, short)) in
      let later : set'.next_node_id + rest < 2 ^ 64 = omega (arith, n, c, spend, next, low) in
      let (h'', set'', run, last, high, count) =
        insert_all-Holds degree fuel h' bound set' (sorted_insert k l) ks d (omega (arith, f, low))
          (omega (arith, c, low)) holds' later (omega (arith, size, short)) in
      (
        h'',
        set'',
        insert_all_next degree fuel k ks set set' (not (elem k l)) e ∙ run,
        last,
        omega (arith, high, low),
        omega (arith, count, size),
      )

  -- For a minimum degree of at least 2, any series of n insertions into the new set, for n below
  -- 2^32 and (n + 2) (n + 1) below 2^64, with fuel above n, returns a set; a loop over it ends after
  -- n + 1 steps at most and sees the inserted keys, each once and in increasing order.
  pub insert_all-collect :
      (degree fuel : ℕ) (ks : List K)
      → 2 ≤ degree
      → length ks < fuel
      → (length ks + 2) * (length ks + 1) < 2 ^ 64
      → length ks < 2 ^ 32
      → (set : StateBTreeSet K) × (insert_all degree fuel ks new ≡ some set)
        × (collect fuel (length ks + 1) set (iter set) ≡ some (sorted_all ks []))
        × Sorted (sorted_all ks [])
  insert_all-collect degree fuel ks d f n short =
      let start : (new {K = K}).next_node_id + (length ks + 2) * (length ks + 1) < 2 ^ 64 =
        omega (arith, n, new_next K) in
      let (h, set, run, holds, high, count) =
        insert_all-Holds degree fuel 0 (length ks) new [] ks d (omega (arith, f)) (omega arith)
          new-Holds start (omega (arith, short)) in
      (
        set,
        run,
        collect-iter h fuel (length ks + 1) set (sorted_all ks []) (omega (arith, high, f))
            (omega (arith, count)) (omega (arith, count, short)) holds,
        holds.1,
      )
