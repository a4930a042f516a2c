-- ===== src/Std/BumpAlloc/Ready.antt =====
-- What holds of the bump allocator between its operations (concordium-std/src/bump_alloc.rs).
use native.Mathlib.Decide.{dec_lt}
use rust_smart_contract.Base.{
  ℕ, ◌+◌, ◌-◌, ◌*◌, ◌%◌, ◌^◌, ◌≤◌, ◌<◌, ◌≡◌, refl, ◌∙◌, ◌⊎◌, inl, inr, ap, none, some, List, [],
  ◌∷◌, length, All, arith,
}
use rust_smart_contract.Std.BumpAlloc.{
  Wasm, BumpAllocator, page_size, pages_to_request, initialize, request, reserve,
}
use rust_smart_contract.Std.BumpAlloc.Align.{pages_to_request_least}

-- A block is its address and its size.
abbrev pub Block : Type 0
Block = ℕ × ℕ

abbrev pub Disjoint : Block → Block → Type 0
Disjoint (p, s) (q, t) = (p + s ≤ q) ⊎ (q + t ≤ p)

abbrev pub Apart : List Block → Type 0
Apart [] = Unit {0}
Apart (b ∷ bs) = All (Disjoint b) bs × Apart bs

-- A block lies in the used part of the heap, and is the last one or ends before it.
abbrev pub Inside : ℕ → ℕ → ℕ → Block → Type 0
Inside start last next (p, s) =
    (0 < s) × (start ≤ p) × (p + s ≤ next) × ((p + s ≤ last) ⊎ (p ≡ last))

module _ (wasm : Wasm) where
  -- An allocator that has been used: the heap is the rest of the memory, and the live blocks are
  -- counted, lie in the heap and do not overlap.
  pub record Ready (a : BumpAllocator) (live : List Block) : Type 0 where
    pub size : a.heap_end ≡ a.pages * page_size
    pub limit : a.pages ≤ wasm.max_pages
    pub nonempty : 0 < a.pages
    pub start : a.heap_start ≤ a.last_alloc
    pub last : a.last_alloc ≤ a.next
    pub end : a.next ≤ a.heap_end
    pub count : a.allocations ≡ length live
    pub blocks : All (Inside a.heap_start a.last_alloc a.next) live
    pub apart : Apart live

  -- An allocator before its first use: the memory holds the start of the heap.
  pub record Fresh (a : BumpAllocator) : Type 0 where
    pub unset : a.heap_end ≡ 0
    pub limit : a.pages ≤ wasm.max_pages
    pub nonempty : 0 < a.pages
    pub base : wasm.heap_base ≤ a.pages * page_size
    pub count : a.allocations ≡ 0

  abbrev pub Valid : BumpAllocator → List Block → Type 0
  Valid a live = (Fresh a × (live ≡ [])) ⊎ Ready a live

  pub initialize-Ready :
      (a : BumpAllocator) (live : List Block) → Ready a live → initialize wasm a ≡ a
  unfolding initialize
  initialize-Ready a live r = let w = r.size in let n = r.nonempty in ground arith

  first_initialize :
      (a : BumpAllocator)
      → Fresh a
      → initialize wasm a ≡ record a {
        next = wasm.heap_base;
        heap_start = wasm.heap_base;
        last_alloc = wasm.heap_base;
        heap_end = a.pages * page_size;
      }
  unfolding initialize
  first_initialize a f =
      let small = wasm.max_pages_small in
      let m : a.pages * page_size % 2 ^ 32 ≡ a.pages * page_size = let l = f.limit in omega arith in
      let u = f.unset in ground (arith, m)

  pub initialize-Fresh : (a : BumpAllocator) → Fresh a → Ready (initialize wasm a) []
  initialize-Fresh a f = rw (first_initialize a f) (record {
    size = refl;
    limit = f.limit;
    nonempty = f.nonempty;
    start = omega arith;
    last = omega arith;
    end = f.base;
    count = f.count;
    blocks = tt;
    apart = tt;
  })

  -- What is left of a larger request: the heap still ends with the memory, and holds the block.
  request_fits :
      (alloc_end : ℕ) (a : BumpAllocator) (live : List Block)
      → Ready a live
      → a.heap_end < alloc_end
      → (request wasm (pages_to_request (alloc_end - a.heap_end)) a ≡ none)
        ⊎ ((p : ℕ) × (request wasm (pages_to_request (alloc_end - a.heap_end)) a
              ≡ some (record a { heap_end = p * page_size; pages = p }))
            × (p ≤ wasm.max_pages)
            × (a.pages ≤ p)
            × (alloc_end ≤ p * page_size))
  unfolding request
  request_fits alloc_end a live r more =
      let d = pages_to_request (alloc_end - a.heap_end) in
      let small = wasm.max_pages_small in
      let (cover, least) = pages_to_request_least (alloc_end - a.heap_end) in
      let size = r.size in
      let limit = r.limit in
      elim (wasm.memory_grow_lem a.pages d) [
        | inl e ↦ inl (grind (arith, e))
        | inr (e, bound) ↦
            let sum : (a.heap_end + d * page_size) % 2 ^ 32 ≡ (a.pages + d) * page_size =
              omega arith in
            inr (a.pages + d, grind (arith, e, sum), bound, omega arith, omega arith)
      ]

  pub reserve_fits :
      (alloc_end : ℕ) (a : BumpAllocator) (live : List Block)
      → Ready a live
      → (reserve wasm alloc_end a ≡ none)
        ⊎ ((p : ℕ) × (reserve wasm alloc_end a
              ≡ some (record a { heap_end = p * page_size; pages = p }))
            × (p ≤ wasm.max_pages)
            × (a.pages ≤ p)
            × (alloc_end ≤ p * page_size))
  unfolding reserve
  reserve_fits alloc_end a live r =
      let size = r.size in
      elim (dec_lt a.heap_end alloc_end) [
        | yes l ↦ elim (request_fits alloc_end a live r l) [
          | inl e ↦ inl (grind (arith, e))
          | inr (p, e, b, g, c) ↦ inr (p, grind (arith, e), b, g, c)
        ]
        | no n ↦
            let kept : reserve wasm alloc_end a ≡ some a = ground arith in
            inr (
              a.pages,
              kept ∙ ap (λ (t : ℕ). some (record a { heap_end = t })) size,
              r.limit,
              omega arith,
              omega arith,
            )
      ]

  -- Blocks below a new one.
  pub Inside-below :
      (start last next p n : ℕ) (live : List Block)
      → next ≤ p
      → p ≤ n
      → All (Inside start last next) live
      → All (Inside start p n) live
  Inside-below start last next p n [] h k b = tt
  Inside-below start last next p n ((q, t) ∷ live) h k ((pos, lo, hi, _), bs) =
      ((pos, lo, omega arith, inl (omega arith)), Inside-below start last next p n live h k bs)

  pub Disjoint-above :
      (start last next p s : ℕ) (live : List Block)
      → next ≤ p
      → All (Inside start last next) live
      → All (Disjoint (p, s)) live
  Disjoint-above start last next p s [] h b = tt
  Disjoint-above start last next p s ((q, t) ∷ live) h ((pos, lo, hi, _), bs) =
      (inr (omega arith), Disjoint-above start last next p s live h bs)
