-- ===== src/Std/BumpAlloc.antt =====
-- The bump allocator (concordium-std/src/bump_alloc.rs), on the 32-bit addresses of Wasm.
pub mod Align
pub mod Ready
pub mod Laws
pub mod Free
mod Samples
use Prim.Native.Nat.{bit_and}
use rust_smart_contract.Base.{
  ℕ, ◌+◌, ◌-◌, ◌*◌, ◌/◌, ◌%◌, ◌^◌, ◌≤◌, ◌<◌, ◌≡◌, ◌⊎◌, ◌==◌, Bool, Option, none, some, ltb,
  if◌then◌else◌,
}

abbrev pub page_size : ℕ
page_size = 65536

-- `ERROR_PAGE_COUNT`
abbrev pub error_page_count : ℕ
error_page_count = 4_294_967_295

-- The linear memory of Wasm: where the linker put the start of the heap, and `memory_grow`, which
-- takes the number of pages and what to add to it, and gives what it returns and the new number.
-- A runtime limits the memory to fewer pages than a module could address.
pub record Wasm : Type 0 where
  pub heap_base : ℕ
  pub max_pages : ℕ
  pub memory_grow : ℕ → ℕ → ℕ × ℕ
  pub max_pages_small : max_pages < 65536
  pub memory_grow_lem :
      (pages delta : ℕ)
      → (memory_grow pages delta ≡ (error_page_count, pages))
        ⊎ ((memory_grow pages delta ≡ (pages, pages + delta)) × (pages + delta ≤ max_pages))

-- `BumpAllocator`, with the number of pages of the memory.
pub record BumpAllocator : Type 0 where
  pub next : ℕ
  pub heap_start : ℕ
  pub heap_end : ℕ
  pub allocations : ℕ
  pub last_alloc : ℕ
  pub pages : ℕ

-- `BumpAllocator::new`, in a memory of so many pages.
unfoldable pub new : ℕ → BumpAllocator
new pages = record {
  next = 0;
  heap_start = 0;
  heap_end = 0;
  allocations = 0;
  last_alloc = 0;
  pages = pages;
}

-- `align_up`: `(addr + align - 1) & !(align - 1)`
unfoldable pub align_up : ℕ → ℕ → ℕ
align_up addr align = bit_and ((addr + align - 1) % 2 ^ 32) (2 ^ 32 - 1 - (align - 1))

-- `pages_to_request`
unfoldable pub pages_to_request : ℕ → ℕ
pages_to_request space_needed =
    space_needed / 2 ^ 16 + (if bit_and space_needed 0xffff == 0 then 0 else 1)

-- `dealloc`
unfoldable pub dealloc : ℕ → BumpAllocator → BumpAllocator
dealloc ptr a =
    let allocations = (a.allocations + 2 ^ 32 - 1) % 2 ^ 32 in
    if allocations == 0
    then record a { allocations = allocations; next = a.heap_start; last_alloc = a.heap_start }
    else if a.last_alloc == ptr
    then record a { allocations = allocations; next = a.last_alloc }
    else record a { allocations = allocations }

module _ (wasm : Wasm) where
  open wasm use {heap_base, memory_grow}

  -- The dummy values are replaced on the first allocation.
  unfoldable pub initialize : BumpAllocator → BumpAllocator
  initialize a =
      if a.heap_end == 0
      then record a {
        next = heap_base;
        heap_start = heap_base;
        last_alloc = heap_base;
        heap_end = a.pages * page_size % 2 ^ 32;
      }
      else a

  -- The memory is grown by so many pages; `none` if it cannot be.
  unfoldable pub request : ℕ → BumpAllocator → Option BumpAllocator
  request requested a =
      let (previous_page_count, pages) = memory_grow a.pages requested in
      if previous_page_count == error_page_count
      then none
      else some
          (record a { heap_end = (a.heap_end + requested * page_size) % 2 ^ 32; pages = pages })

  -- More memory is requested if the allocation ends behind the heap.
  unfoldable pub reserve : ℕ → BumpAllocator → Option BumpAllocator
  unfolding request
  reserve alloc_end a =
      if ltb a.heap_end alloc_end
      then request (pages_to_request (alloc_end - a.heap_end)) a
      else some a

  -- `alloc` behind the initialization; the null pointer is `none`.
  unfoldable pub alloc_initialized : ℕ → ℕ → BumpAllocator → Option ℕ × BumpAllocator
  alloc_initialized size align a =
      let alloc_start = align_up a.next align in
      let alloc_end = alloc_start + size in
      if ltb alloc_end (2 ^ 32)
      then elim (reserve alloc_end a) [
        | none ↦ (none, a)
        | some a' ↦ (
          some alloc_start,
          record a' {
            allocations = (a'.allocations + 1) % 2 ^ 32;
            last_alloc = alloc_start;
            next = alloc_end;
          },
        )
      ]
      else (none, a)

  -- `alloc` of a layout
  unfoldable pub alloc : ℕ → ℕ → BumpAllocator → Option ℕ × BumpAllocator
  alloc size align a = alloc_initialized size align (initialize a)
