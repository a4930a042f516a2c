-- ===== src/Cis2/Samples.antt =====
-- Streams over plain lists of bytes, and examples of the token types.
use native.Mathlib.Nat.{pow-succ'}
use rust_smart_contract.Base.{
  ℕ, zero, suc, ◌+◌, ◌*◌, ◌/◌, ◌%◌, ◌^◌, ◌<◌, ◌≡◌, ◌≢◌, refl, ap, true, false, Option, none, some,
  List, [], ◌∷◌, ◌++◌, length, ok, err, arith,
}
use rust_smart_contract.Cis2.Common.{Stream, parse_error}
use rust_smart_contract.Cis2.Amount.{serial_amount, deserial_amount}
use rust_smart_contract.Cis2.Amount.Laws.{deserial-serial_amount, deserial_amount_wraps}
use rust_smart_contract.Cis2.TokenId.{
  serial_token_id_u64, deserial_token_id_u64, serial_token_id_u32, deserial_token_id_u32,
  serial_token_id_u16, deserial_token_id_u16, serial_token_id_u8, deserial_token_id_u8,
  serial_token_id_unit, deserial_token_id_unit, serial_token_id_fixed, deserial_token_id_fixed,
}
use rust_smart_contract.Cis2.TokenId.Laws.{deserial-serial_token_id, deserial-serial_token_id_fixed}
use rust_smart_contract.Cis2.Hex.{
  display, token_id_vec_from_str, parse_bytes_exact, display_token_id_u64, token_id_u64_from_str,
  display_token_id_u32, token_id_u32_from_str, display_token_id_u16, token_id_u16_from_str,
  display_token_id_u8, token_id_u8_from_str,
}
use rust_smart_contract.Cis2.Hex.Laws.{from_str-display, from_str-display_token_id, from_str_sign}

abbrev write_le : ℕ → ℕ → List ℕ
write_le zero v = []
write_le (suc n) v = v % 256 ∷ write_le n (v / 256)

abbrev read_le : ℕ → List ℕ → Option (ℕ × List ℕ)
read_le zero source = some (0, source)
read_le (suc n) [] = none
read_le (suc n) (b ∷ source) = elim (read_le n source) [
  | none ↦ none
  | some (v, rest) ↦ some (b + 256 * v, rest)
]

read_le-write_le :
    (n v : ℕ) (rest : List ℕ) → v < 256 ^ n → read_le n (write_le n v ++ rest) ≡ some (v, rest)
read_le-write_le zero v rest h = ap (λ (t : ℕ). some (t, rest)) (omega arith)
read_le-write_le (suc n) v rest h =
    let ih = read_le-write_le n (v / 256) rest (omega (arith, pow-succ' 256 n)) in
    rw ih (ap (λ (t : ℕ). some (t, rest)) (omega arith))

length-write_le : (n v : ℕ) → length (write_le n v) ≡ n
length-write_le zero v = refl
length-write_le (suc n) v = omega (arith, length-write_le n (v / 256))

abbrev read_bytes : ℕ → List ℕ → Option (List ℕ × List ℕ)
read_bytes zero source = some ([], source)
read_bytes (suc n) [] = none
read_bytes (suc n) (b ∷ source) = elim (read_bytes n source) [
  | none ↦ none
  | some (bytes, rest) ↦ some (b ∷ bytes, rest)
]

read_bytes-append :
    (bytes rest : List ℕ) → read_bytes (length bytes) (bytes ++ rest) ≡ some (bytes, rest)
read_bytes-append [] rest = refl
read_bytes-append (b ∷ bytes) rest = rw (read_bytes-append bytes rest) refl

abbrev byte_stream : Stream
byte_stream = record {
  write = write_le;
  read = read_le;
  write_u8 = λ b h. ap (λ (t : ℕ). t ∷ []) (omega arith);
  read_u8 = λ b rest. ap (λ (t : ℕ). some (t, rest)) (omega arith);
  read_end = refl;
  read-write = read_le-write_le;
  length-write = length-write_le;
  write_all = λ bytes. bytes;
  read_array = read_bytes;
  write_all_lem = λ bytes. refl;
  read_array_lem = read_bytes-append;
}

amount_example :
    (bytes : List ℕ) × (serial_amount byte_stream 300 ≡ some bytes)
    × (deserial_amount byte_stream true 16 (bytes ++ 9 ∷ []) ≡ ok (300, 9 ∷ []))
amount_example =
    deserial-serial_amount byte_stream true 16 300 (9 ∷ []) (omega arith) (omega arith)
      (omega arith)

wraps_example : deserial_amount byte_stream false 8 (133 ∷ 2 ∷ []) ≡ ok (5, [])
wraps_example = deserial_amount_wraps byte_stream false 5 2 [] (omega arith) (omega arith)

token_id_example :
    (7 < 2 ^ 64
      → deserial_token_id_u64 byte_stream (serial_token_id_u64 byte_stream 7 ++ 1 ∷ [])
        ≡ ok (7, 1 ∷ []))
    × (7 < 2 ^ 32
        → deserial_token_id_u32 byte_stream (serial_token_id_u32 byte_stream 7 ++ 1 ∷ [])
          ≡ ok (7, 1 ∷ []))
    × (7 < 2 ^ 16
        → deserial_token_id_u16 byte_stream (serial_token_id_u16 byte_stream 7 ++ 1 ∷ [])
          ≡ ok (7, 1 ∷ []))
    × (7 < 2 ^ 8
        → deserial_token_id_u8 byte_stream (serial_token_id_u8 byte_stream 7 ++ 1 ∷ [])
          ≡ ok (7, 1 ∷ []))
    × (deserial_token_id_unit byte_stream (serial_token_id_unit byte_stream ++ 1 ∷ [])
        ≡ ok (1 ∷ []))
token_id_example = deserial-serial_token_id byte_stream 7 (1 ∷ [])

token_id_fixed_example :
    (written : List ℕ) × (serial_token_id_fixed byte_stream 3 (4 ∷ 5 ∷ 6 ∷ []) ≡ ok written)
    × (deserial_token_id_fixed byte_stream 3 (written ++ 1 ∷ []) ≡ ok (4 ∷ 5 ∷ 6 ∷ [], 1 ∷ []))
    × (◌≢◌ {A = ℕ} 2 3
        → deserial_token_id_fixed byte_stream 2 (written ++ 1 ∷ []) ≡ err parse_error)
token_id_fixed_example =
    deserial-serial_token_id_fixed byte_stream (4 ∷ 5 ∷ 6 ∷ []) (1 ∷ []) 2 (omega arith)

from_str_example :
    (token_id_vec_from_str (display (222 ∷ 10 ∷ [])) ≡ ok (222 ∷ 10 ∷ []))
    × (◌≡◌ {A = ℕ} 2 2 → parse_bytes_exact 2 (display (222 ∷ 10 ∷ [])) ≡ ok (222 ∷ 10 ∷ []))
    × ((◌≡◌ {A = ℕ} 2 2 → ⊥) → parse_bytes_exact 2 (display (222 ∷ 10 ∷ [])) ≡ err parse_error)
from_str_example = from_str-display (222 ∷ 10 ∷ []) 2 (omega arith, (omega arith, tt))

from_str_id_example :
    (200 < 2 ^ 64 → token_id_u64_from_str (display_token_id_u64 200) ≡ ok 200)
    × (200 < 2 ^ 32 → token_id_u32_from_str (display_token_id_u32 200) ≡ ok 200)
    × (200 < 2 ^ 16 → token_id_u16_from_str (display_token_id_u16 200) ≡ ok 200)
    × (200 < 2 ^ 8 → token_id_u8_from_str (display_token_id_u8 200) ≡ ok 200)
from_str_id_example = from_str-display_token_id 200

sign_example :
    (token_id_vec_from_str (43 ∷ 70 ∷ []) ≡ ok (15 ∷ [])) × (display (15 ∷ []) ≡ 48 ∷ 70 ∷ [])
sign_example = from_str_sign 15 (omega arith)
