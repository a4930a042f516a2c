-- ===== src/Std/BumpAlloc/Free.antt =====
-- Giving blocks back to the bump allocator (concordium-std/src/bump_alloc.rs).
use rust_smart_contract.Base.{
  ℕ, ◌+◌, ◌-◌, ◌*◌, ◌%◌, ◌^◌, ◌≤◌, ◌<◌, ◌≡◌, ◌≢◌, refl, sym, ap, inl, inr, List, [], ◌∷◌, ◌++◌,
  length, length-append, All, arith,
}
use native.Mathlib.Decide.{ℕ_discrete}
use rust_smart_contract.Std.BumpAlloc.{Wasm, BumpAllocator, page_size, dealloc}
use rust_smart_contract.Std.BumpAlloc.Ready.{Block, Disjoint, Apart, Inside, Ready}

All-without :
    (P : Block → Type 0) (xs ys : List Block) (b : Block)
    → All P (xs ++ b ∷ ys)
    → P b × All P (xs ++ ys)
All-without P [] ys b (h, hs) = (h, hs)
All-without P (x ∷ xs) ys b (h, hs) = let (hb, rest) = All-without P xs ys b hs in (hb, (h, rest))

Disjoint-comm : (b c : Block) → Disjoint b c → Disjoint c b
Disjoint-comm (p, s) (q, t) (inl h) = inr h
Disjoint-comm (p, s) (q, t) (inr h) = inl h

-- The others of blocks that do not overlap: they do not overlap the one taken out.
Apart-without :
    (xs ys : List Block) (b : Block)
    → Apart (xs ++ b ∷ ys)
    → Apart (xs ++ ys) × All (Disjoint b) (xs ++ ys)
Apart-without [] ys b (h, hs) = (hs, h)
Apart-without (x ∷ xs) ys b (h, hs) =
    let (rest, others) = Apart-without xs ys b hs in
    let (hb, kept) = All-without (Disjoint x) xs ys b h in
    ((kept, rest), (Disjoint-comm x b hb, others))

-- If the block at `last` is taken out, the others end there.
Inside-last :
    (start last next s : ℕ) (live : List Block)
    → 0 < s
    → All (Inside start last next) live
    → All (Disjoint (last, s)) live
    → All (Inside start last last) live
Inside-last start last next s [] pos h d = tt
Inside-last start last next s ((q, t) ∷ live) pos ((qpos, lo, hi, inl below), hs) (d, ds) =
    ((qpos, lo, below, inl below), Inside-last start last next s live pos hs ds)
Inside-last start last next s ((q, t) ∷ live) pos ((qpos, lo, hi, inr same), hs) (d, ds) =
    absurd (elim d [ inl h ↦ omega arith | inr h ↦ omega arith ])

no_blocks : (live : List Block) → length live ≡ 0 → live ≡ []
no_blocks [] h = refl
no_blocks (b ∷ live) h = absurd (omega arith)

module _ (wasm : Wasm) where
  -- The three ways to free a block.
  free_only :
      (a : BumpAllocator) (p : ℕ)
      → a.allocations ≡ 1
      → dealloc p a ≡ record a { allocations = 0; next = a.heap_start; last_alloc = a.heap_start }
  unfolding dealloc
  free_only a p h = rw h refl

  free_last :
      (a : BumpAllocator) (p n : ℕ)
      → a.allocations ≡ n + 2
      → n + 2 < 2 ^ 32
      → a.last_alloc ≡ p
      → dealloc p a ≡ record a { allocations = n + 1; next = a.last_alloc }
  unfolding dealloc
  free_last a p n h room e =
      let m : (n + 2 + 2 ^ 32 - 1) % 2 ^ 32 ≡ n + 1 = omega arith in rw h (rw m (ground arith))

  free_other :
      (a : BumpAllocator) (p n : ℕ)
      → a.allocations ≡ n + 2
      → n + 2 < 2 ^ 32
      → a.last_alloc ≢ p
      → dealloc p a ≡ record a { allocations = n + 1 }
  unfolding dealloc
  free_other a p n h room e =
      let m : (n + 2 + 2 ^ 32 - 1) % 2 ^ 32 ≡ n + 1 = omega arith in rw h (rw m (ground arith))

  -- What all three leave.
  abbrev Freed : BumpAllocator → List Block → ℕ → BumpAllocator → Type 0
  Freed a live p a' =
      Ready wasm a' live
      × (live ≡ [] → a'.next ≡ a.heap_start)
      × (live ≢ [] → a.last_alloc ≡ p → a'.next ≡ p)

  -- The facts on the blocks that are left, from those on all blocks.
  record Remaining (a : BumpAllocator) (live : List Block) (p s : ℕ) : Type 0 where
    size : a.heap_end ≡ a.pages * page_size
    limit : a.pages ≤ wasm.max_pages
    nonempty : 0 < a.pages
    start : a.heap_start ≤ a.last_alloc
    last : a.last_alloc ≤ a.next
    end : a.next ≤ a.heap_end
    count : a.allocations ≡ length live + 1
    small : length live + 1 < 2 ^ 32
    here : Inside a.heap_start a.last_alloc a.next (p, s)
    blocks : All (Inside a.heap_start a.last_alloc a.next) live
    apart : Apart live
    others : All (Disjoint (p, s)) live

  Freed-only :
      (a : BumpAllocator) (live : List Block) (p s : ℕ)
      → Remaining a live p s
      → length live ≡ 0
      → Freed a live p (dealloc p a)
  Freed-only a live p s r e =
      let empty = no_blocks live e in
      let count = r.count in
      rw (free_only a p (omega arith)) (
        record {
          size = r.size;
          limit = r.limit;
          nonempty = r.nonempty;
          start = omega arith;
          last = omega arith;
          end = omega (arith, r.start, r.last, r.end);
          count = sym e;
          blocks = rw empty tt;
          apart = r.apart;
        },
        λ _. refl,
        λ ne. absurd (ne empty),
      )

  Freed-last :
      (a : BumpAllocator) (live : List Block) (p s n : ℕ)
      → Remaining a live p s
      → length live ≡ n + 1
      → a.last_alloc ≡ p
      → Freed a live p (dealloc p a)
  Freed-last a live p s n r e same =
      let count = r.count in
      let small = r.small in
      rw (free_last a p n (omega arith) (omega arith) same) (
        record {
          size = r.size;
          limit = r.limit;
          nonempty = r.nonempty;
          start = r.start;
          last = omega arith;
          end = omega (arith, r.last, r.end);
          count = sym e;
          blocks =
              Inside-last a.heap_start a.last_alloc a.next s live r.here.0 r.blocks
                (rw same r.others);
          apart = r.apart;
        },
        λ none_left. absurd (omega (arith, ap length none_left)),
        λ _ _. same,
      )

  Freed-other :
      (a : BumpAllocator) (live : List Block) (p s n : ℕ)
      → Remaining a live p s
      → length live ≡ n + 1
      → a.last_alloc ≢ p
      → Freed a live p (dealloc p a)
  Freed-other a live p s n r e other =
      let count = r.count in
      let small = r.small in
      rw (free_other a p n (omega arith) (omega arith) other) (
        record {
          size = r.size;
          limit = r.limit;
          nonempty = r.nonempty;
          start = r.start;
          last = r.last;
          end = r.end;
          count = sym e;
          blocks = r.blocks;
          apart = r.apart;
        },
        λ none_left. absurd (omega (arith, ap length none_left)),
        λ _ same. absurd (other same),
      )

  -- Freeing a live block keeps the allocator valid with the other blocks; freeing the only one
  -- makes the whole heap available again, and freeing the one that was handed out last makes its
  -- space available again.
  pub dealloc-Ready :
      (a : BumpAllocator) (xs ys : List Block) (p s : ℕ)
      → Ready wasm a (xs ++ (p, s) ∷ ys)
      → length xs + length ys + 1 < 2 ^ 32
      → Ready wasm (dealloc p a) (xs ++ ys)
        × (xs ++ ys ≡ [] → (dealloc p a).next ≡ a.heap_start)
        × (xs ++ ys ≢ [] → a.last_alloc ≡ p → (dealloc p a).next ≡ p)
  dealloc-Ready a xs ys p s r room =
      let live = xs ++ ys in
      let count = r.count in
      let all_length = length-append xs ((p, s) ∷ ys) in
      let left_length = length-append xs ys in
      let (here, blocks) =
        All-without (Inside a.heap_start a.last_alloc a.next) xs ys (p, s) r.blocks in
      let (apart, others) = Apart-without xs ys (p, s) r.apart in
      let remaining : Remaining a live p s = record {
        size = r.size;
        limit = r.limit;
        nonempty = r.nonempty;
        start = r.start;
        last = r.last;
        end = r.end;
        count = omega arith;
        small = omega arith;
        here = here;
        blocks = blocks;
        apart = apart;
        others = others;
      } in
      elim (ℕ_discrete (length live) 0) [
        | yes e ↦ Freed-only a live p s remaining e
        | no ne ↦ elim (ℕ_discrete a.last_alloc p) [
          | yes same ↦ Freed-last a live p s (length live - 1) remaining (omega arith) same
          | no other ↦ Freed-other a live p s (length live - 1) remaining (omega arith) other
        ]
      ]
