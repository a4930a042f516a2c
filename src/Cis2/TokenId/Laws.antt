-- ===== src/Cis2/TokenId/Laws.antt =====
-- Round trips of the token ids of concordium-cis2/src/lib.rs.
use mathlib.Core.List.{append_assoc}
use rust_smart_contract.Base.{ℕ, ◌^◌, ◌<◌, ◌≡◌, ◌≢◌, refl, List, ◌++◌, length, ok, err, arith}
use rust_smart_contract.Cis2.Common.{parse_error, Stream}
use rust_smart_contract.Cis2.TokenId.{
  get, serial_token_id_u64, deserial_token_id_u64, serial_token_id_u32, deserial_token_id_u32,
  serial_token_id_u16, deserial_token_id_u16, serial_token_id_u8, deserial_token_id_u8,
  serial_token_id_unit, deserial_token_id_unit, serial_token_id_fixed, deserial_token_id_fixed,
}

module _ (stream : Stream) where
  open stream use {write, read}

  -- Reading an integer that was written.
  get-write :
      (n v : ℕ) (rest : List ℕ) → v < 256 ^ n → get stream n (write n v ++ rest) ≡ ok (v, rest)
  get-write n v rest h = grind (arith, stream.read-write n v rest h)

  -- Reading the byte of the length and what follows it.
  get-length :
      (n : ℕ) (body rest : List ℕ)
      → n < 256
      → get stream 1 ((write 1 n ++ body) ++ rest) ≡ ok (n, body ++ rest)
  get-length n body rest h =
      rw (append_assoc (write 1 n) body rest) (get-write 1 n (body ++ rest) (omega arith))

  -- A token id that is written in front of any bytes is read back, and these bytes are left, for
  -- every width.
  pub deserial-serial_token_id :
      (id : ℕ) (rest : List ℕ)
      → (id < 2 ^ 64
          → deserial_token_id_u64 stream (serial_token_id_u64 stream id ++ rest) ≡ ok (id, rest))
        × (id < 2 ^ 32
            → deserial_token_id_u32 stream (serial_token_id_u32 stream id ++ rest) ≡ ok (id, rest))
        × (id < 2 ^ 16
            → deserial_token_id_u16 stream (serial_token_id_u16 stream id ++ rest) ≡ ok (id, rest))
        × (id < 2 ^ 8
            → deserial_token_id_u8 stream (serial_token_id_u8 stream id ++ rest) ≡ ok (id, rest))
        × (deserial_token_id_unit stream (serial_token_id_unit stream ++ rest) ≡ ok rest)
  unfolding serial_token_id_u64 deserial_token_id_u64 serial_token_id_u32 deserial_token_id_u32
      serial_token_id_u16 deserial_token_id_u16 serial_token_id_u8 deserial_token_id_u8
      serial_token_id_unit deserial_token_id_unit
  deserial-serial_token_id id rest = (
    λ h. rw (get-length 8 (write 8 id) rest (omega arith)) (get-write 8 id rest (omega arith)),
    λ h. rw (get-length 4 (write 4 id) rest (omega arith)) (get-write 4 id rest (omega arith)),
    λ h. rw (get-length 2 (write 2 id) rest (omega arith)) (get-write 2 id rest (omega arith)),
    λ h. rw (get-length 1 (write 1 id) rest (omega arith)) (get-write 1 id rest (omega arith)),
    rw (get-write 1 0 rest (omega arith)) refl,
  )

  -- An array of at most 255 bytes is written, and read back at its length; reading it at another
  -- length is a parse error.
  pub deserial-serial_token_id_fixed :
      (bytes rest : List ℕ) (m : ℕ)
      → length bytes < 256
      → (written : List ℕ) × (serial_token_id_fixed stream (length bytes) bytes ≡ ok written)
        × (deserial_token_id_fixed stream (length bytes) (written ++ rest) ≡ ok (bytes, rest))
        × (m ≢ length bytes → deserial_token_id_fixed stream m (written ++ rest) ≡ err parse_error)
  unfolding serial_token_id_fixed deserial_token_id_fixed
  deserial-serial_token_id_fixed bytes rest m small =
      let n = length bytes in
      let head = get-length n (stream.write_all bytes) rest small in
      (
        write 1 n ++ stream.write_all bytes,
        ground (arith, small),
        rw head (rw stream.write_all_lem (grind (arith, stream.read_array_lem bytes rest))),
        λ other. rw head (ground arith),
      )
