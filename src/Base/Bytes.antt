-- ===== src/Base/Bytes.antt =====
-- Masks of one byte as arithmetic: every byte is tried.
use Prim.Native.Nat.{ℕ, zero, suc, ◌+◌, ◌*◌, ◌/◌, ◌%◌, ◌<◌, bit_and, bit_or}
use mathlib.Core.Path.{◌≡◌, refl}
use mathlib.Core.Bool.{Bool, true, ◌&&◌}
use native.Mathlib.Omega.{arith}
use rust_smart_contract.Base.Tests.{◌==◌, ==_iff}

every_below : ℕ → (ℕ → Bool) → Bool
every_below zero p = true
every_below (suc n) p = every_below n p && p n

every_below-elem : (n : ℕ) (p : ℕ → Bool) → every_below n p ≡ true → (x : ℕ) → x < n → p x ≡ true
unfolding every_below
every_below-elem zero p e x h = absurd (omega arith)
every_below-elem (suc n) p e x h = ground (arith, every_below-elem n p (ground arith) x)

low_table : every_below 256 (λ b. bit_and b 0x7f == b % 128) ≡ true
unfolding every_below
low_table = refl

pub low_bits : (b : ℕ) → b < 256 → bit_and b 0x7f ≡ b % 128
low_bits b h = (==_iff _ _).0 (every_below-elem 256 _ low_table b h)

high_table : every_below 256 (λ b. bit_and b 0x80 == b / 128 * 128) ≡ true
unfolding every_below
high_table = refl

pub high_bit : (b : ℕ) → b < 256 → bit_and b 0x80 ≡ b / 128 * 128
high_bit b h = (==_iff _ _).0 (every_below-elem 256 _ high_table b h)

set_table : every_below 128 (λ b. bit_or b 0x80 == b + 128) ≡ true
unfolding every_below
set_table = refl

pub set_high_bit : (b : ℕ) → b < 128 → bit_or b 0x80 ≡ b + 128
set_high_bit b h = (==_iff _ _).0 (every_below-elem 128 _ set_table b h)
