-- ===== src/Cis2/Hex.antt =====
-- Token ids as hex strings (concordium-cis2/src/lib.rs). A string is the list of its bytes.
pub mod Laws
use rust_smart_contract.Base.{
  ℕ, zero, suc, ◌+◌, ◌-◌, ◌*◌, ◌/◌, ◌%◌, ◌≡◌, ◌==◌, ◌&&◌, ◌||◌, not, Bool, true, false, Option,
  none, some, List, [], ◌∷◌, ◌++◌, ltb, leb, length, if◌then◌else◌, Res, ok, err, ok_or, ◌>>=◌,
  expect, get_elem?,
}
use rust_smart_contract.Cis2.Common.{ParseError, parse_error}

-- `char::to_digit(16)`
unfoldable pub to_digit : ℕ → Option ℕ
to_digit c =
    if leb 48 c && leb c 57
    then some (c - 48)
    else if leb 65 c && leb c 70
    then some (c - 55)
    else if leb 97 c && leb c 102
    then some (c - 87)
    else none

-- The digits of `u8::from_str_radix(_, 16)`, with its overflow.
unfoldable pub from_digits : ℕ → List ℕ → Option ℕ
from_digits acc [] = some acc
from_digits acc (c ∷ rest) = elim (to_digit c) [
  | none ↦ none
  | some d ↦ let next = acc * 16 + d in if ltb next 256 then from_digits next rest else none
]

-- `u8::from_str_radix(_, 16)`: digits after an optional `+`.
unfoldable pub from_str_radix : List ℕ → Option ℕ
unfolding from_digits
from_str_radix [] = none
from_str_radix (c ∷ []) = from_digits 0 (c ∷ [])
from_str_radix (c ∷ d ∷ rest) =
    if c == 43 then from_digits 0 (d ∷ rest) else from_digits 0 (c ∷ d ∷ rest)

-- `{:02X}`
abbrev pub hex_digit : ℕ → ℕ
hex_digit d = if ltb d 10 then 48 + d else 55 + d

-- `fmt::Display` on the bytes of a token id
unfoldable pub display : List ℕ → List ℕ
display [] = []
display (byte ∷ bytes) = hex_digit (byte / 16) ∷ hex_digit (byte % 16) ∷ display bytes

-- `is_ascii`
unfoldable pub is_ascii : List ℕ → Bool
is_ascii [] = true
is_ascii (c ∷ s) = ltb c 128 && is_ascii s

-- The loop that parses two characters at a time.
unfoldable pub parse_pairs : List ℕ → Res ParseError (List ℕ)
parse_pairs [] = ok []
parse_pairs (c ∷ []) = err parse_error
parse_pairs (c ∷ d ∷ s) = do
  byte ← ok_or (from_str_radix (c ∷ d ∷ [])) parse_error
  bytes ← parse_pairs s
  ok (byte ∷ bytes)

-- `TokenIdVec::from_str`
unfoldable pub token_id_vec_from_str : List ℕ → Res ParseError (List ℕ)
token_id_vec_from_str s =
    if not (length s % 2 == 0) || not (is_ascii s) then err parse_error else parse_pairs s

-- `parse_bytes_exact`
unfoldable pub parse_bytes_exact : ℕ → List ℕ → Res ParseError (List ℕ)
parse_bytes_exact n s =
    if not (length s == 2 * n) || not (is_ascii s) then err parse_error else parse_pairs s

-- `to_le_bytes` of an integer of `n` bytes, and `from_le_bytes`
unfoldable pub to_le_bytes : ℕ → ℕ → List ℕ
to_le_bytes zero v = []
to_le_bytes (suc n) v = v % 256 ∷ to_le_bytes n (v / 256)

unfoldable pub from_le_bytes : List ℕ → ℕ
from_le_bytes [] = 0
from_le_bytes (b ∷ bytes) = b + 256 * from_le_bytes bytes

-- `Display` and `FromStr` of the token ids of a fixed width
unfoldable pub display_token_id_u64 : ℕ → List ℕ
display_token_id_u64 id = display (to_le_bytes 8 id)

unfoldable pub token_id_u64_from_str : List ℕ → Res ParseError ℕ
token_id_u64_from_str s = parse_bytes_exact 8 s >>= λ bytes. ok (from_le_bytes bytes)

unfoldable pub display_token_id_u32 : ℕ → List ℕ
display_token_id_u32 id = display (to_le_bytes 4 id)

unfoldable pub token_id_u32_from_str : List ℕ → Res ParseError ℕ
token_id_u32_from_str s = parse_bytes_exact 4 s >>= λ bytes. ok (from_le_bytes bytes)

unfoldable pub display_token_id_u16 : ℕ → List ℕ
display_token_id_u16 id = display (to_le_bytes 2 id)

unfoldable pub token_id_u16_from_str : List ℕ → Res ParseError ℕ
token_id_u16_from_str s = parse_bytes_exact 2 s >>= λ bytes. ok (from_le_bytes bytes)

unfoldable pub display_token_id_u8 : ℕ → List ℕ
display_token_id_u8 id = display (to_le_bytes 1 id)

-- `bytes[0]`, which panics on no bytes
unfoldable pub token_id_u8_from_str : List ℕ → Res ParseError ℕ
token_id_u8_from_str s = parse_bytes_exact 1 s >>= λ bytes. expect (get_elem? bytes 0)
