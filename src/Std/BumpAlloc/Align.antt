-- ===== src/Std/BumpAlloc/Align.antt =====
-- The arithmetic of the bump allocator (concordium-std/src/bump_alloc.rs).
use Prim.Native.Nat.{bit_and}
use native.Mathlib.Nat.{one-le-pow, mod-lt, div-add-mod', mod-eq_of_lt}
use rust_smart_contract.Base.{ℕ, ◌+◌, ◌-◌, ◌*◌, ◌/◌, ◌%◌, ◌^◌, ◌≤◌, ◌<◌, ◌≡◌, ap, arith}
use rust_smart_contract.Base.Masks.{low_mask, high_mask}
use rust_smart_contract.Std.BumpAlloc.{align_up, pages_to_request, page_size}

-- For an alignment that is a power of two and a sum within 32 bits, `align_up` is the least
-- multiple of the alignment that is not below the address.
pub align_up_least :
    (addr k : ℕ)
    → k ≤ 32
    → addr + 2 ^ k ≤ 2 ^ 32
    → (q : ℕ) × (align_up addr (2 ^ k) ≡ q * 2 ^ k)
      × (addr ≤ q * 2 ^ k)
      × (q * 2 ^ k < addr + 2 ^ k)
unfolding align_up
align_up_least addr k le fits =
    let p = 2 ^ k in
    let pos = one-le-pow k 2 (omega arith) in
    let x = addr + p - 1 in
    let whole = div-add-mod' x p in
    let below = mod-lt x pos in
    let masked = high_mask 32 k x le (omega arith) in
    let mask : bit_and (x % 2 ^ 32) (2 ^ 32 - 1 - (p - 1)) ≡ bit_and x (2 ^ 32 - p) =
      rw (mod-eq_of_lt {n = x} {m = 2 ^ 32} (omega arith))
        (ap (λ (t : ℕ). bit_and x t) (omega arith)) in
    (x / p, omega (arith, mask, masked), omega arith, omega arith)

-- `pages_to_request` is the least number of pages that cover the space.
pub pages_to_request_least :
    (space : ℕ)
    → (space ≤ pages_to_request space * page_size)
      × (pages_to_request space * page_size < space + page_size)
unfolding pages_to_request
pages_to_request_least space = let m = low_mask 16 space in (ground (arith, m), ground (arith, m))
