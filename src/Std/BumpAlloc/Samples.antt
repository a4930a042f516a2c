-- ===== src/Std/BumpAlloc/Samples.antt =====
-- Examples of the bump allocator (concordium-std/src/bump_alloc.rs).
use rust_smart_contract.Base.{
  ℕ, ◌+◌, ◌*◌, ◌^◌, ◌≤◌, ◌<◌, ◌≡◌, ◌≢◌, refl, ◌⊎◌, inl, inr, List, [], ◌∷◌, leb, Bool-cases,
  if◌then◌else◌, arith,
}
use rust_smart_contract.Std.BumpAlloc.{
  Wasm, BumpAllocator, error_page_count, new, align_up, alloc, dealloc,
}
use rust_smart_contract.Std.BumpAlloc.Align.{align_up_least}
use rust_smart_contract.Std.BumpAlloc.Ready.{Block, Ready, Valid}
use rust_smart_contract.Std.BumpAlloc.Laws.{Allocated, alloc-Valid}
use rust_smart_contract.Std.BumpAlloc.Free.{dealloc-Ready}

abbrev grow : ℕ → ℕ → ℕ × ℕ
grow pages delta =
    if leb (pages + delta) 32 then (pages, pages + delta) else (error_page_count, pages)

grow_cases :
    (pages delta : ℕ)
    → (grow pages delta ≡ (error_page_count, pages))
      ⊎ ((grow pages delta ≡ (pages, pages + delta)) × (pages + delta ≤ 32))
grow_cases pages delta = elim (Bool-cases (leb (pages + delta) 32)) [
  | inl e ↦ inr (ground arith, ground arith)
  | inr e ↦ inl (ground arith)
]

abbrev small_memory : Wasm
small_memory = record {
  heap_base = 1000;
  max_pages = 32;
  memory_grow = grow;
  max_pages_small = omega arith;
  memory_grow_lem = grow_cases;
}

align_example :
    (q : ℕ) × (align_up 1003 (2 ^ 3) ≡ q * 2 ^ 3) × (1003 ≤ q * 2 ^ 3) × (q * 2 ^ 3 < 1003 + 2 ^ 3)
align_example = align_up_least 1003 3 (omega arith) (omega arith)

new-Valid : Valid small_memory (new 1) []
unfolding new
new-Valid = inl (
  record {
    unset = refl;
    limit = omega arith;
    nonempty = omega arith;
    base = omega arith;
    count = refl;
  },
  refl,
)

alloc_example : Allocated small_memory 70000 3 [] (alloc small_memory 70000 (2 ^ 3) (new 1))
alloc_example =
    alloc-Valid small_memory 70000 3 (new 1) [] new-Valid (omega arith) (omega arith) (omega arith)

abbrev two_blocks : BumpAllocator
two_blocks = record {
  next = 1032;
  heap_start = 1000;
  heap_end = 65536;
  allocations = 2;
  last_alloc = 1016;
  pages = 1;
}

two_blocks-Ready : Ready small_memory two_blocks ((1016, 16) ∷ (1000, 10) ∷ [])
two_blocks-Ready = record {
  size = refl;
  limit = omega arith;
  nonempty = omega arith;
  start = omega arith;
  last = omega arith;
  end = omega arith;
  count = refl;
  blocks = (
    (omega arith, omega arith, omega arith, inr refl),
    ((omega arith, omega arith, omega arith, inl (omega arith)), tt),
  );
  apart = ((inr (omega arith), tt), (tt, tt));
}

dealloc_example :
    Ready small_memory (dealloc 1016 two_blocks) ((1000, 10) ∷ [])
    × (◌≡◌ {A = List Block} ((1000, 10) ∷ []) [] → (dealloc 1016 two_blocks).next ≡ 1000)
    × (◌≢◌ {A = List Block} ((1000, 10) ∷ []) []
        → ◌≡◌ {A = ℕ} 1016 1016
        → (dealloc 1016 two_blocks).next ≡ 1016)
dealloc_example =
    dealloc-Ready small_memory two_blocks [] ((1000, 10) ∷ []) 1016 16 two_blocks-Ready
      (omega arith)
