-- ===== src/Cis2/Amount/Laws.antt =====
-- The serialization of token amounts, of concordium-cis2/src/lib.rs.
use Prim.Native.Nat.{bit_and, bit_or}
use native.Mathlib.Nat.{pow-le-pow_right, pow-succ', div-add-mod', mul-le-mul_right, mod-eq_of_lt}
use native.Mathlib.Decide.{dec_lt}
use mathlib.Core.List.{append_assoc}
use rust_smart_contract.Base.{
  ℕ, zero, suc, ◌+◌, ◌*◌, ◌/◌, ◌%◌, ◌^◌, ◌≤◌, ◌<◌, ◌≡◌, ap, ◌∙◌, inl, inr, Bool, some, List, ◌∷◌,
  ◌++◌, Option-cases, ok, arith,
}
use rust_smart_contract.Base.Bytes.{low_bits, high_bit, set_high_bit}
use rust_smart_contract.Cis2.Common.{Stream, shift_left}
use rust_smart_contract.Cis2.Amount.{serial_loop, serial_amount, deserial_loop, deserial_amount}

low_group : (v : ℕ) → bit_and (v % 256) 0x7f ≡ v % 128
low_group v = omega (arith, low_bits (v % 256) (omega arith))

inner_group : (v : ℕ) → bit_or (bit_and (v % 256) 0x7f) 0x80 ≡ v % 128 + 128
inner_group v = rw low_group (set_high_bit (v % 128) (omega arith))

-- One group of seven bits of a value that is shifted by `p`.
split_group : (v p : ℕ) → v * p ≡ (v / 128) * (p * 128) + (v % 128) * p
split_group v p = omega (arith, ap (λ (t : ℕ). t * p) (div-add-mod' v 128))

group_le : (v p : ℕ) → 0 < v → (v % 128) * p ≤ v * p
group_le v p h = mul-le-mul_right p (omega arith)

pow_add : (n k : ℕ) → 2 ^ (n + k) ≡ 2 ^ k * 2 ^ n
pow_add zero k = omega (arith, ap (λ (t : ℕ). 2 ^ t) {x = 0 + k} {y = k} (omega arith))
pow_add (suc n) k = omega (
  arith,
  pow-succ' 2 (n + k),
  ap (λ (t : ℕ). 2 ^ t) {x = suc n + k} {y = suc (n + k)} (omega arith),
  ap (λ (t : ℕ). 2 ^ k * t) (pow-succ' 2 n),
  pow_add n k,
)

pow_next : (i : ℕ) → 2 ^ ((i + 1) * 7) ≡ 2 ^ (i * 7) * 128
pow_next i =
    ap (λ (t : ℕ). 2 ^ t) {x = (i + 1) * 7} {y = 7 + i * 7} (omega arith) ∙ pow_add 7 (i * 7)

shift_below : (w k v : ℕ) → 0 < v → v * 2 ^ k < 2 ^ w → k < w
shift_below w k v h fits = elim (dec_lt k w) [
  | yes l ↦ l
  | no n ↦ absurd (
      omega (
        arith,
        pow-le-pow_right {n = 2} (omega arith) {i = w} {j = k} (omega arith),
        mul-le-mul_right (2 ^ k) h,
      ))
]

-- The shift of a group that fits.
shift_fits :
    {E : Type 0} (checks : Bool) (w v k : ℕ)
    → k < w
    → v * 2 ^ k < 2 ^ w
    → shift_left {E = E} checks w v k ≡ ok (v * 2 ^ k)
unfolding shift_left
shift_fits checks w v k lt fits = ground (arith, mod-eq_of_lt fits)

-- One round of the loop that reads a byte below 128.
last_round :
    (stream : Stream) (checks : Bool) (w left i acc v : ℕ) (rest : List ℕ)
    → v < 128
    → i * 7 < w
    → acc + v * 2 ^ (i * 7) < 2 ^ w
    → deserial_loop stream checks w (suc left) i acc (stream.write 1 v ++ rest)
      ≡ ok (acc + v * 2 ^ (i * 7), rest)
unfolding deserial_loop
last_round stream checks w left i acc v rest small shift fits = grind (
  arith,
  stream.write_u8 v (omega arith),
  stream.read_u8 v rest,
  low_bits v (omega arith),
  high_bit v (omega arith),
  shift_fits checks w v (i * 7) shift (omega arith),
)

-- One round that reads a byte with the continuation bit.
inner_round :
    (stream : Stream) (checks : Bool) (w left i acc v : ℕ) (rest : List ℕ)
    → v < 128
    → i * 7 < w
    → acc + v * 2 ^ (i * 7) < 2 ^ w
    → deserial_loop stream checks w (suc left) i acc (stream.write 1 (v + 128) ++ rest)
      ≡ deserial_loop stream checks w left (i + 1) (acc + v * 2 ^ (i * 7)) rest
unfolding deserial_loop
inner_round stream checks w left i acc v rest small shift fits = grind (
  arith,
  stream.write_u8 (v + 128) (omega arith),
  stream.read_u8 (v + 128) rest,
  low_bits (v + 128) (omega arith),
  high_bit (v + 128) (omega arith),
  shift_fits checks w v (i * 7) shift (omega arith),
)

-- What `serial_loop` writes is read back, into the bits above those that are read already.
serial_loop-read :
    (stream : Stream) (checks : Bool) (w fuel left i acc v : ℕ) (bytes rest : List ℕ)
    → serial_loop stream fuel v ≡ some bytes
    → fuel ≤ left
    → i * 7 < w
    → acc + v * 2 ^ (i * 7) < 2 ^ w
    → deserial_loop stream checks w left i acc (bytes ++ rest) ≡ ok (acc + v * 2 ^ (i * 7), rest)
unfolding serial_loop
serial_loop-read stream checks w zero left i acc v bytes rest e le shift fits =
    absurd (ground arith)
serial_loop-read stream checks w (suc fuel) zero i acc v bytes rest e le shift fits =
    absurd (omega arith)
serial_loop-read stream checks w (suc fuel) (suc left) i acc v bytes rest e le shift fits =
    elim (dec_lt v 128) [
      | yes small ↦
          grind (arith, low_group v, last_round stream checks w left i acc v rest small shift fits)
      | no large ↦ elim (Option-cases (serial_loop stream fuel (v / 128))) [
        | inl none_left ↦ absurd (ground arith)
        | inr (tail, more) ↦
            let p = 2 ^ (i * 7) in
            let head : bytes ≡ stream.write 1 (v % 128 + 128) ++ tail =
              ground (arith, low_group v, inner_group v) in
            let split = split_group v p in
            let next = pow_next i in
            let scaled : (v / 128) * 2 ^ ((i + 1) * 7) ≡ (v / 128) * (p * 128) =
              ap (λ (t : ℕ). (v / 128) * t) next in
            let above : (i + 1) * 7 < w =
              shift_below w ((i + 1) * 7) (v / 128) (omega arith) (omega arith) in
            let round =
              inner_round stream checks w left i acc (v % 128) (tail ++ rest) (omega arith) shift
                (omega arith) in
            let ih =
              serial_loop-read stream checks w fuel left (i + 1) (acc + v % 128 * p) (v / 128) tail
                rest more (omega arith) above (omega arith) in
            let sum : acc + v % 128 * p + (v / 128) * 2 ^ ((i + 1) * 7) ≡ acc + v * p =
              omega arith in
            cc (head, append_assoc (stream.write 1 (v % 128 + 128)) tail rest, round, ih, sum)
      ]
    ]

serial_loop_total :
    (stream : Stream) (f v : ℕ)
    → v < 2 ^ ((f + 1) * 7)
    → (bytes : List ℕ) × (serial_loop stream (suc f) v ≡ some bytes)
unfolding serial_loop
serial_loop_total stream zero v small = (stream.write 1 (v % 128), grind (arith, low_group v))
serial_loop_total stream (suc f) v small =
    let next : 2 ^ ((suc f + 1) * 7) ≡ 2 ^ ((f + 1) * 7) * 128 =
      ap (λ (t : ℕ). 2 ^ (t * 7)) {x = suc f + 1} {y = f + 1 + 1} (omega arith)
      ∙ pow_next (f + 1) in
    let (tail, more) = serial_loop_total stream f (v / 128) (omega arith) in
    elim (dec_lt v 128) [
      | yes low ↦ (stream.write 1 (v % 128), grind (arith, low_group v))
      | no high ↦
          (stream.write 1 (v % 128 + 128) ++ tail, grind (arith, low_group v, inner_group v))
    ]

-- Every amount of a width of at most 256 bits is written within 37 bytes, and reading what was
-- written, in front of any further bytes, gives the amount and these bytes, with and without
-- overflow checks.
pub deserial-serial_amount :
    (stream : Stream) (checks : Bool) (w v : ℕ) (rest : List ℕ)
    → 0 < w
    → w ≤ 256
    → v < 2 ^ w
    → (bytes : List ℕ) × (serial_amount stream v ≡ some bytes)
      × (deserial_amount stream checks w (bytes ++ rest) ≡ ok (v, rest))
unfolding serial_amount deserial_amount
deserial-serial_amount stream checks w v rest pos le fits =
    let wide = pow-le-pow_right {n = 2} (omega arith) {i = w} {j = 259} (omega arith) in
    let (bytes, e) = serial_loop_total stream 36 v (omega arith) in
    let read =
      serial_loop-read stream checks w 37 37 0 0 v bytes rest e (omega arith) (omega arith)
        (omega arith) in
    (bytes, e, grind (arith, read))

-- An amount of 8 bits that is encoded in two bytes is read without an error whatever the second
-- byte is: the value modulo 256 is returned, although up to 14 bits are encoded.
pub deserial_amount_wraps :
    (stream : Stream) (checks : Bool) (x b : ℕ) (rest : List ℕ)
    → x < 128
    → b < 128
    → deserial_amount stream checks 8 ((x + 128) ∷ b ∷ rest) ≡ ok ((x + b * 128) % 256, rest)
unfolding deserial_amount deserial_loop shift_left
deserial_amount_wraps stream checks x b rest hx hb = grind (
  arith,
  stream.read_u8 (x + 128) (b ∷ rest),
  stream.read_u8 b rest,
  low_bits (x + 128) (omega arith),
  high_bit (x + 128) (omega arith),
  low_bits b (omega arith),
  high_bit b (omega arith),
)
