-- ===== src/Cis2/Amount.antt =====
-- The token amounts: the macro `token_amount_wrapper` of concordium-cis2/src/lib.rs, for an unsigned
-- integer of `w` bits.
pub mod Laws
use Prim.Native.Nat.{bit_and, bit_or}
use mathlib.Core.Option
use rust_smart_contract.Base.{
  ℕ, zero, suc, ◌+◌, ◌*◌, ◌/◌, ◌%◌, ◌^◌, ◌==◌, Bool, Option, none, some, List, [], ◌∷◌, ◌++◌,
  if◌then◌else◌, Res, ok, err, ok_or, ◌>>=◌,
}
use rust_smart_contract.Cis2.Common.{ParseError, parse_error, Stream, shift_left, checked_add}

module _ (stream : Stream) where
  open stream use {write, read}

  -- The loop of `serial`, at most `fuel` times around.
  unfoldable pub serial_loop : ℕ → ℕ → Option (List ℕ)
  serial_loop zero value = none
  serial_loop (suc fuel) value =
      let byte = bit_and (value % 256) 0x7f in
      let shifted = value / 128 in
      let rest = serial_loop fuel shifted in
      if shifted == 0
      then some (write 1 byte)
      else Option.map (λ r. write 1 (bit_or byte 0x80) ++ r) rest

  -- `serial`
  unfoldable pub serial_amount : ℕ → Option (List ℕ)
  serial_amount value = serial_loop 37 value

  -- The loop of `deserial`, with `left` rounds to go and the round `i`.
  unfoldable pub deserial_loop : Bool → ℕ → ℕ → ℕ → ℕ → List ℕ → Res ParseError (ℕ × List ℕ)
  deserial_loop overflow_checks w zero i result source = err parse_error
  deserial_loop overflow_checks w (suc left) i result source =
      ok_or (read 1 source) parse_error >>= λ (byte, rest).
      shift_left overflow_checks w (bit_and byte 0x7f) (i * 7) >>= λ shifted.
      ok_or (checked_add w result shifted) parse_error >>= λ sum.
      if bit_and byte 0x80 == 0
      then ok (sum, rest)
      else deserial_loop overflow_checks w left (i + 1) sum rest

  -- `deserial`
  unfoldable pub deserial_amount : Bool → ℕ → List ℕ → Res ParseError (ℕ × List ℕ)
  deserial_amount overflow_checks w source = deserial_loop overflow_checks w 37 0 0 source
