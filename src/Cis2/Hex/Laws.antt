-- ===== src/Cis2/Hex/Laws.antt =====
-- Round trips of the hex strings of token ids, of concordium-cis2/src/lib.rs.
use rust_smart_contract.Base.{
  expect, get_elem?, ℕ, zero, suc, ◌*◌, ◌/◌, ◌%◌, ◌^◌, ◌<◌, ◌≡◌, refl, true, some, List, [], ◌∷◌,
  length, All, ok, err, ◌>>=◌, arith,
}
use native.Mathlib.Nat.{pow-succ'}
use rust_smart_contract.Cis2.Common.{parse_error}
use rust_smart_contract.Cis2.Hex.{
  to_digit, from_digits, from_str_radix, hex_digit, display, is_ascii, parse_pairs,
  token_id_vec_from_str, parse_bytes_exact, to_le_bytes, from_le_bytes, display_token_id_u64,
  token_id_u64_from_str, display_token_id_u32, token_id_u32_from_str, display_token_id_u16,
  token_id_u16_from_str, display_token_id_u8, token_id_u8_from_str,
}

to_digit-hex_digit : (d : ℕ) → d < 16 → to_digit (hex_digit d) ≡ some d
unfolding to_digit
to_digit-hex_digit d h = ground arith

read_byte :
    (b : ℕ) → b < 256 → from_str_radix (hex_digit (b / 16) ∷ hex_digit (b % 16) ∷ []) ≡ some b
unfolding from_str_radix from_digits
read_byte b h =
    grind
      (arith, to_digit-hex_digit (b / 16) (omega arith), to_digit-hex_digit (b % 16) (omega arith))

abbrev IsByte : ℕ → Type 0
IsByte b = b < 256

parse_pairs-display : (bytes : List ℕ) → All IsByte bytes → parse_pairs (display bytes) ≡ ok bytes
unfolding parse_pairs display
parse_pairs-display [] h = refl
parse_pairs-display (b ∷ bytes) (h, hs) = grind (arith, read_byte b h, parse_pairs-display bytes hs)

length-display : (bytes : List ℕ) → length (display bytes) ≡ 2 * length bytes
unfolding display
length-display [] = omega arith
length-display (b ∷ bytes) = omega (arith, length-display bytes)

is_ascii-display : (bytes : List ℕ) → All IsByte bytes → is_ascii (display bytes) ≡ true
unfolding is_ascii display
is_ascii-display [] h = refl
is_ascii-display (b ∷ bytes) (h, hs) = grind (arith, is_ascii-display bytes hs)

to_le_bytes-bytes : (n v : ℕ) → All IsByte (to_le_bytes n v)
unfolding to_le_bytes
to_le_bytes-bytes zero v = tt
to_le_bytes-bytes (suc n) v = (omega arith, to_le_bytes-bytes n (v / 256))

length-to_le_bytes : (n v : ℕ) → length (to_le_bytes n v) ≡ n
unfolding to_le_bytes
length-to_le_bytes zero v = refl
length-to_le_bytes (suc n) v = omega (arith, length-to_le_bytes n (v / 256))

-- A token id of any number of bytes that is displayed is parsed back, as a vector and as an array
-- of its length, and at another length the string is rejected.
pub from_str-display :
    (bytes : List ℕ) (n : ℕ)
    → All IsByte bytes
    → (token_id_vec_from_str (display bytes) ≡ ok bytes)
      × (n ≡ length bytes → parse_bytes_exact n (display bytes) ≡ ok bytes)
      × ((n ≡ length bytes → ⊥) → parse_bytes_exact n (display bytes) ≡ err parse_error)
unfolding token_id_vec_from_str parse_bytes_exact
from_str-display bytes n h =
    let parsed = parse_pairs-display bytes h in
    let len = length-display bytes in
    let ascii = is_ascii-display bytes h in
    (
      grind (arith, parsed, len, ascii),
      λ e. grind (arith, parsed, len, ascii),
      λ other. grind (arith, len, other),
    )

from_le_bytes-to_le_bytes : (n v : ℕ) → v < 256 ^ n → from_le_bytes (to_le_bytes n v) ≡ v
unfolding from_le_bytes to_le_bytes
from_le_bytes-to_le_bytes zero v h = omega arith
from_le_bytes-to_le_bytes (suc n) v h =
    omega (
      arith,
      pow-succ' 256 n,
      from_le_bytes-to_le_bytes n (v / 256) (omega (arith, pow-succ' 256 n)),
    )

exact-display :
    (n v : ℕ)
    → v < 256 ^ n
    → (parse_bytes_exact n (display (to_le_bytes n v)) >>= λ bytes. ok (from_le_bytes bytes)) ≡ ok v
exact-display n v h =
    let len = length-to_le_bytes n v in
    let (vec, exact, other) = from_str-display (to_le_bytes n v) n (to_le_bytes-bytes n v) in
    rw (exact (omega arith)) (rw (from_le_bytes-to_le_bytes n v h) refl)

first_byte :
    (id : ℕ)
    → id < 2 ^ 8
    → (parse_bytes_exact 1 (display (id % 256 ∷ [])) >>= λ bytes. expect (get_elem? bytes 0))
      ≡ ok id
first_byte id h =
    let (vec, exact, other) = from_str-display (id % 256 ∷ []) 1 (omega arith, tt) in
    rw (exact refl) (ground arith)

-- A token id of 64, 32, 16 or 8 bits that is displayed is parsed back.
pub from_str-display_token_id :
    (id : ℕ)
    → (id < 2 ^ 64 → token_id_u64_from_str (display_token_id_u64 id) ≡ ok id)
      × (id < 2 ^ 32 → token_id_u32_from_str (display_token_id_u32 id) ≡ ok id)
      × (id < 2 ^ 16 → token_id_u16_from_str (display_token_id_u16 id) ≡ ok id)
      × (id < 2 ^ 8 → token_id_u8_from_str (display_token_id_u8 id) ≡ ok id)
unfolding token_id_u64_from_str display_token_id_u64 token_id_u32_from_str display_token_id_u32
    token_id_u16_from_str display_token_id_u16 token_id_u8_from_str display_token_id_u8 to_le_bytes
from_str-display_token_id id = (
  λ h. exact-display 8 id (omega arith),
  λ h. exact-display 4 id (omega arith),
  λ h. exact-display 2 id (omega arith),
  λ h. first_byte id h,
)

-- A plus sign in front of a hex digit is accepted as a byte: such a string is parsed to the token
-- id that is displayed with a zero in the place of the sign.
pub from_str_sign :
    (d : ℕ)
    → d < 16
    → (token_id_vec_from_str (43 ∷ hex_digit d ∷ []) ≡ ok (d ∷ []))
      × (display (d ∷ []) ≡ 48 ∷ hex_digit d ∷ [])
unfolding token_id_vec_from_str is_ascii parse_pairs from_str_radix from_digits display
from_str_sign d h = (grind (arith, to_digit-hex_digit d h), grind arith)
