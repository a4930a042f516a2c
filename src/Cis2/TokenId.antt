-- ===== src/Cis2/TokenId.antt =====
-- The token ids of a fixed width, and how they are serialized (concordium-cis2/src/lib.rs): the first
-- byte is the number of bytes that follow.
pub mod Laws
use rust_smart_contract.Base.{
  ℕ, ◌<◌, ◌==◌, Bool, List, ◌++◌, ltb, length, if◌then◌else◌, Res, ok, err, ok_or, ◌>>=◌,
}
use rust_smart_contract.Cis2.Common.{ParseError, parse_error, Stream}

module _ (stream : Stream) where
  open stream use {write, read, write_all, read_array}

  -- `read_u8`, and `read_u16` to `read_u64`
  abbrev pub get : ℕ → List ℕ → Res ParseError (ℕ × List ℕ)
  get n source = ok_or (read n source) parse_error

  unfoldable pub serial_token_id_u64 : ℕ → List ℕ
  serial_token_id_u64 id = write 1 8 ++ write 8 id

  unfoldable pub deserial_token_id_u64 : List ℕ → Res ParseError (ℕ × List ℕ)
  deserial_token_id_u64 source = get 1 source >>= λ (byte_length, rest).
      if byte_length == 8 then get 8 rest else err parse_error

  unfoldable pub serial_token_id_u32 : ℕ → List ℕ
  serial_token_id_u32 id = write 1 4 ++ write 4 id

  unfoldable pub deserial_token_id_u32 : List ℕ → Res ParseError (ℕ × List ℕ)
  deserial_token_id_u32 source = get 1 source >>= λ (byte_length, rest).
      if byte_length == 4 then get 4 rest else err parse_error

  unfoldable pub serial_token_id_u16 : ℕ → List ℕ
  serial_token_id_u16 id = write 1 2 ++ write 2 id

  unfoldable pub deserial_token_id_u16 : List ℕ → Res ParseError (ℕ × List ℕ)
  deserial_token_id_u16 source = get 1 source >>= λ (byte_length, rest).
      if byte_length == 2 then get 2 rest else err parse_error

  unfoldable pub serial_token_id_u8 : ℕ → List ℕ
  serial_token_id_u8 id = write 1 1 ++ write 1 id

  unfoldable pub deserial_token_id_u8 : List ℕ → Res ParseError (ℕ × List ℕ)
  deserial_token_id_u8 source = get 1 source >>= λ (byte_length, rest).
      if byte_length == 1 then get 1 rest else err parse_error

  unfoldable pub serial_token_id_unit : List ℕ
  serial_token_id_unit = write 1 0

  unfoldable pub deserial_token_id_unit : List ℕ → Res ParseError (List ℕ)
  deserial_token_id_unit source =
      get 1 source >>= λ (byte_length, rest). if byte_length == 0 then ok rest else err parse_error

  -- `TokenIdFixed<N>`, whose array is a list of `n` bytes; a length that is no byte is an error.
  unfoldable pub serial_token_id_fixed : ℕ → List ℕ → Res ParseError (List ℕ)
  serial_token_id_fixed n bytes =
      if ltb n 256 then ok (write 1 n ++ write_all bytes) else err parse_error

  unfoldable pub deserial_token_id_fixed : ℕ → List ℕ → Res ParseError (List ℕ × List ℕ)
  deserial_token_id_fixed n source = get 1 source >>= λ (byte_length, rest).
      if byte_length == n then ok_or (read_array n rest) parse_error else err parse_error
