-- ===== src/Cis2/Common.antt =====
-- What the CIS-2 library uses of the crate `concordium-contracts-common`, and of the integers of
-- Rust. A sink is the list of the bytes written to it, which does not fail, and a source is the
-- list of the bytes that are left to read.
use rust_smart_contract.Base.{
  ℕ, ◌+◌, ◌*◌, ◌%◌, ◌^◌, ◌<◌, ◌≡◌, Bool, Option, none, some, List, [], ◌∷◌, ◌++◌, ltb, leb, length,
  if◌then◌else◌, Res, ok, panic,
}

-- `ParseError`
pub data ParseError : Type 0 where
  parse_error : ParseError

-- `Write` and `Read`; `write n v` and `read n` write and read an unsigned integer of `n` bytes.
pub record Stream : Type 0 where
  pub write : ℕ → ℕ → List ℕ
  pub read : ℕ → List ℕ → Option (ℕ × List ℕ)
  pub write_u8 : (b : ℕ) → b < 256 → write 1 b ≡ b ∷ []
  pub read_u8 : (b : ℕ) (rest : List ℕ) → read 1 (b ∷ rest) ≡ some (b, rest)
  pub read_end : read 1 [] ≡ none
  pub read-write :
      (n v : ℕ) (rest : List ℕ) → v < 256 ^ n → read n (write n v ++ rest) ≡ some (v, rest)
  pub length-write : (n v : ℕ) → length (write n v) ≡ n
  -- `write_all`, and `get` of an array of `n` bytes.
  pub write_all : List ℕ → List ℕ
  pub read_array : ℕ → List ℕ → Option (List ℕ × List ℕ)
  pub write_all_lem : (bytes : List ℕ) → write_all bytes ≡ bytes
  pub read_array_lem :
      (bytes rest : List ℕ) → read_array (length bytes) (bytes ++ rest) ≡ some (bytes, rest)

-- `value << shift` on an unsigned integer of `w` bits: if the shift is not below the width, it
-- panics with overflow checks, and else it counts modulo the width. Bits shifted out are lost.
unfoldable pub shift_left : {E : Type 0} → Bool → ℕ → ℕ → ℕ → Res E ℕ
shift_left overflow_checks w value shift =
    if leb w shift
    then if overflow_checks then panic else ok (value * 2 ^ (shift % w) % 2 ^ w)
    else ok (value * 2 ^ shift % 2 ^ w)

-- `checked_add` on an unsigned integer of `w` bits.
abbrev pub checked_add : ℕ → ℕ → ℕ → Option ℕ
checked_add w a b = if ltb (a + b) (2 ^ w) then some (a + b) else none
