-- ===== src/Std/BumpAlloc/Laws.antt =====
-- The blocks that the bump allocator hands out (concordium-std/src/bump_alloc.rs).
use native.Mathlib.Decide.{dec_lt}
use rust_smart_contract.Base.{
  ℕ, ◌+◌, ◌*◌, ◌%◌, ◌^◌, ◌≤◌, ◌<◌, ◌≡◌, refl, ◌⊎◌, inl, inr, Option, none, some, List, [], ◌∷◌,
  length, All, arith,
}
use rust_smart_contract.Std.BumpAlloc.{
  Wasm, BumpAllocator, page_size, align_up, initialize, reserve, alloc_initialized, alloc,
}
use rust_smart_contract.Std.BumpAlloc.Ready.{
  Block, Disjoint, Ready, Valid, initialize-Ready, initialize-Fresh, reserve_fits, Inside-below,
  Disjoint-above,
}
use native.Mathlib.Nat.{pow-le-pow_right}
use rust_smart_contract.Std.BumpAlloc.Align.{align_up_least}

module _ (wasm : Wasm) where
  -- What `alloc` did: it refused and changed no block, or it returned an aligned block that
  -- overlaps no live one.
  abbrev pub Allocated : ℕ → ℕ → List Block → Option ℕ × BumpAllocator → Type 0
  Allocated size k live (r, a') =
      ((r ≡ none) × Valid wasm a' live)
      ⊎ ((p : ℕ) × (q : ℕ) × (r ≡ some p)
          × (p ≡ q * 2 ^ k)
          × All (Disjoint (p, size)) live
          × Valid wasm a' ((p, size) ∷ live))

  -- `alloc` where the aligned block fits.
  placed :
      (size align p : ℕ) (a : BumpAllocator) (start : ℕ)
      → align_up a.next align ≡ start
      → start + size < 2 ^ 32
      → reserve wasm (start + size) a ≡ some (record a { heap_end = p * page_size; pages = p })
      → alloc_initialized wasm size align a ≡ (
        some start,
        record a {
          heap_end = p * page_size;
          pages = p;
          allocations = (a.allocations + 1) % 2 ^ 32;
          last_alloc = start;
          next = start + size;
        },
      )
  unfolding alloc_initialized
  placed size align p a start e fits r = rw e (grind (arith, r))

  refused :
      (size align : ℕ) (a : BumpAllocator) (start : ℕ)
      → align_up a.next align ≡ start
      → (start + size < 2 ^ 32 → reserve wasm (start + size) a ≡ none)
      → alloc_initialized wasm size align a ≡ (none, a)
  unfolding alloc_initialized
  refused size align a start e r = rw e (grind (arith, r))

  placed-Ready :
      (size : ℕ) (a : BumpAllocator) (live : List Block) (p start : ℕ)
      → Ready wasm a live
      → 0 < size
      → a.next ≤ start
      → p ≤ wasm.max_pages
      → a.pages ≤ p
      → start + size ≤ p * page_size
      → length live + 1 < 2 ^ 32
      → Ready wasm
          (record a {
            heap_end = p * page_size;
            pages = p;
            allocations = (a.allocations + 1) % 2 ^ 32;
            last_alloc = start;
            next = start + size;
          })
          ((start, size) ∷ live)
  placed-Ready size a live p start r pos above limit grown fits room =
      let count_lem = r.count in
      record {
        size = refl;
        limit = limit;
        nonempty = omega (arith, r.nonempty);
        start = omega (arith, r.start, r.last);
        last = omega arith;
        end = fits;
        count = omega arith;
        blocks = (
          (pos, omega (arith, r.start, r.last), omega arith, inr refl),
          Inside-below wasm a.heap_start a.last_alloc a.next start (start + size) live above
              (omega arith) r.blocks,
        );
        apart = (
          Disjoint-above wasm a.heap_start a.last_alloc a.next start size live above r.blocks,
          r.apart,
        );
      }

  alloc-Ready :
      (size k : ℕ) (a : BumpAllocator) (live : List Block)
      → Ready wasm a live
      → 0 < size
      → k ≤ 16
      → length live + 1 < 2 ^ 32
      → Allocated size k live (alloc_initialized wasm size (2 ^ k) a)
  alloc-Ready size k a live r pos small room =
      let bound = pow-le-pow_right {n = 2} (omega arith) {i = k} {j = 16} small in
      let limit = wasm.max_pages_small in
      let size_lem = r.size in
      let limit_lem = r.limit in
      let end_lem = r.end in
      let (q, start, above, near) = align_up_least a.next k (omega arith) (omega arith) in
      elim (dec_lt (q * 2 ^ k + size) (2 ^ 32)) [
        | no n ↦
            rw (refused size (2 ^ k) a (q * 2 ^ k) start (λ l. absurd (n l))) (inl (refl, inr r))
        | yes l ↦ elim (reserve_fits wasm (q * 2 ^ k + size) a live r) [
          | inl e ↦ rw (refused size (2 ^ k) a (q * 2 ^ k) start (λ _. e)) (inl (refl, inr r))
          | inr (p, e, p_limit, grown, fits) ↦ rw (placed size (2 ^ k) p a (q * 2 ^ k) start l e) (
              inr (
                q * 2 ^ k,
                q,
                refl,
                refl,
                Disjoint-above wasm a.heap_start a.last_alloc a.next (q * 2 ^ k) size live above
                    r.blocks,
                inr (placed-Ready size a live p (q * 2 ^ k) r pos above p_limit grown fits room),
              ))
        ]
      ]

  -- A valid allocator that is asked for a block of positive size, aligned to a power of two up to
  -- a page, gives either the null pointer, and all live blocks stay valid, or the address of a block
  -- that is aligned and overlaps no live block; the live blocks and the new one are then valid.
  pub alloc-Valid :
      (size k : ℕ) (a : BumpAllocator) (live : List Block)
      → Valid wasm a live
      → 0 < size
      → k ≤ 16
      → length live + 1 < 2 ^ 32
      → Allocated size k live (alloc wasm size (2 ^ k) a)
  unfolding alloc
  alloc-Valid size k a live (inl (fresh, empty)) pos small room = rw empty (
      alloc-Ready size k (initialize wasm a) [] (initialize-Fresh wasm a fresh) pos small
        (omega arith))
  alloc-Valid size k a live (inr r) pos small room =
      rw (initialize-Ready wasm a live r) (alloc-Ready size k a live r pos small room)
