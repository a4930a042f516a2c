-- ===== src/Base/Masks.antt =====
-- `&` with a mask of low or of high bits, as arithmetic.
use Prim.Native.Nat.{
  ℕ, zero, suc, ◌+◌, ◌-◌, ◌*◌, ◌/◌, ◌%◌, ◌^◌, ◌≤◌, ◌<◌, min, bit_and, digits, bit_and-bitwise,
}
use native.Mathlib.Nat.{pow-succ', one-le-pow, div-add-mod', mod-lt}
use mathlib.Core.Path.{◌≡◌, refl, ap}
use native.Mathlib.Omega.{arith}

-- The digits of `&` do not depend on a bound that is large enough.
enough_digits :
    (n m a b : ℕ) → a ≤ n → a ≤ m → digits (λ _. 0) min n a b ≡ digits (λ _. 0) min m a b
enough_digits zero zero zero b h k = refl
enough_digits zero (suc m) zero b h k = refl
enough_digits (suc n) zero zero b h k = refl
enough_digits (suc n) (suc m) zero b h k = refl
enough_digits zero m (suc a) b h k = absurd (omega arith)
enough_digits (suc n) zero (suc a) b h k = absurd (omega arith)
enough_digits (suc n) (suc m) (suc a) b h k =
    omega (arith, enough_digits n m (suc a / 2) (b / 2) (omega arith) (omega arith))

-- The lowest digit of `&`.
lowest_digit : (a b : ℕ) → bit_and a b ≡ bit_and (a / 2) (b / 2) * 2 + min (a % 2) (b % 2)
lowest_digit zero b = omega (arith, bit_and-bitwise 0 b, bit_and-bitwise 0 (b / 2))
lowest_digit (suc a) b = omega (
  arith,
  enough_digits a (suc a / 2) (suc a / 2) (b / 2) (omega arith) (omega arith),
  bit_and-bitwise (suc a / 2) (b / 2),
  bit_and-bitwise (suc a) b,
)

and_zero : (n a : ℕ) → a ≤ n → bit_and a 0 ≡ 0
and_zero n zero h = bit_and-bitwise 0 0
and_zero zero (suc a) h = absurd (omega arith)
and_zero (suc n) (suc a) h =
    omega (arith, lowest_digit (suc a) 0, and_zero n (suc a / 2) (omega arith))

double : (q k : ℕ) → q * 2 ^ suc k ≡ 2 * (q * 2 ^ k)
double q k = omega (arith, ap (λ (t : ℕ). q * t) (pow-succ' 2 k))

and_low : (k q r : ℕ) → r < 2 ^ k → bit_and (q * 2 ^ k + r) (2 ^ k - 1) ≡ r
and_low zero q r h = omega (arith, and_zero (q * 2 ^ 0 + r) (q * 2 ^ 0 + r) (omega arith))
and_low (suc k) q r h = omega (
  arith,
  double q k,
  pow-succ' 2 k,
  one-le-pow k 2 (omega arith),
  lowest_digit (q * 2 ^ suc k + r) (2 ^ suc k - 1),
  and_low k q (r / 2) (omega (arith, pow-succ' 2 k)),
  ap (λ (t : ℕ). bit_and t ((2 ^ suc k - 1) / 2)) {x = (q * 2 ^ suc k + r) / 2}
      {y = q * 2 ^ k + r / 2} (omega (arith, double q k)),
  ap (λ (t : ℕ). bit_and (q * 2 ^ k + r / 2) t) {x = (2 ^ suc k - 1) / 2} {y = 2 ^ k - 1}
      (omega (arith, pow-succ' 2 k)),
)

-- A mask of the low `k` bits is the remainder by `2 ^ k`.
pub low_mask : (k x : ℕ) → bit_and x (2 ^ k - 1) ≡ x % 2 ^ k
low_mask k x = omega (
  arith,
  one-le-pow k 2 (omega arith),
  and_low k (x / 2 ^ k) (x % 2 ^ k) (mod-lt x (one-le-pow k 2 (omega arith))),
  ap (λ (t : ℕ). bit_and t (2 ^ k - 1)) (div-add-mod' x (2 ^ k)),
)

and_high :
    (n k q r : ℕ)
    → k ≤ n
    → r < 2 ^ k
    → q * 2 ^ k + r < 2 ^ n
    → bit_and (q * 2 ^ k + r) (2 ^ n - 2 ^ k) ≡ q * 2 ^ k
and_high n zero q r le small fits = omega (
  arith,
  and_low n 0 (q * 2 ^ 0 + r) fits,
  ap (λ (t : ℕ). bit_and t (2 ^ n - 1)) {x = 0 * 2 ^ n + (q * 2 ^ 0 + r)} {y = q * 2 ^ 0 + r}
      (omega arith),
)
and_high zero (suc k) q r le small fits = absurd (omega arith)
and_high (suc n) (suc k) q r le small fits = omega (
  arith,
  double q k,
  pow-succ' 2 k,
  pow-succ' 2 n,
  lowest_digit (q * 2 ^ suc k + r) (2 ^ suc n - 2 ^ suc k),
  and_high n k q (r / 2) (omega arith) (omega (arith, pow-succ' 2 k))
      (omega (arith, double q k, pow-succ' 2 n)),
  ap (λ (t : ℕ). bit_and t ((2 ^ suc n - 2 ^ suc k) / 2)) {x = (q * 2 ^ suc k + r) / 2}
      {y = q * 2 ^ k + r / 2} (omega (arith, double q k)),
  ap (λ (t : ℕ). bit_and (q * 2 ^ k + r / 2) t) {x = (2 ^ suc n - 2 ^ suc k) / 2}
      {y = 2 ^ n - 2 ^ k} (omega (arith, pow-succ' 2 k, pow-succ' 2 n)),
)

-- A mask of all but the low `k` bits of `n` rounds down to a multiple of `2 ^ k`.
pub high_mask : (n k x : ℕ) → k ≤ n → x < 2 ^ n → bit_and x (2 ^ n - 2 ^ k) ≡ x / 2 ^ k * 2 ^ k
high_mask n k x le fits =
    let whole = div-add-mod' x (2 ^ k) in
    omega (
      arith,
      and_high n k (x / 2 ^ k) (x % 2 ^ k) le (mod-lt x (one-le-pow k 2 (omega arith)))
          (omega (arith, whole)),
      ap (λ (t : ℕ). bit_and t (2 ^ n - 2 ^ k)) whole,
    )
