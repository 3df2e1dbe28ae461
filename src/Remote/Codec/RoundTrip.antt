-- ===== src/Remote/Codec/RoundTrip.antt =====
-- What is written into a message is read back from it.
use transferencia_switch.Base.{ℕ, ◌+◌, ◌^◌, ◌<◌, ◌≡◌, refl, ◌↔◌, ◌++◌, length, drop, arith}
use transferencia_switch.Base.Bytes.{Bytes, same}
use transferencia_switch.Base.Words.{u16_at, u32_at, u64_at}
use transferencia_switch.Domain.Status.{ts_ok}
use transferencia_switch.Remote.Codec.{
  write_u32_le, le_bytes, make_header, validate_header, file_request,
}

-- A header of a type, a command and a size below 2 ^ 32 has 16 bytes and carries the three, whatever
-- follows it, and validate_header accepts it for exactly its type and command.
pub make_header_lem :
    (type command size expected_type expected_command : ℕ) (rest : Bytes)
    → type < 2 ^ 32
    → command < 2 ^ 32
    → size < 2 ^ 32
    → (length (make_header type command size) ≡ 16)
      × (u32_at (make_header type command size ++ rest) 4 ≡ type)
      × (u32_at (make_header type command size ++ rest) 8 ≡ command)
      × (u32_at (make_header type command size ++ rest) 12 ≡ size)
      × ((validate_header (make_header type command size ++ rest) expected_type expected_command
            ≡ ts_ok)
          ↔ ((type ≡ expected_type) × (command ≡ expected_command)))
unfolding make_header write_u32_le u32_at u16_at validate_header same
make_header_lem type command size expected_type expected_command rest t c s = (
  refl,
  omega (arith, t),
  omega (arith, c),
  omega (arith, s),
  ((λ e. ground (arith, e, t, c)), λ e. ground (arith, e, t, c)),
)

-- The request for a part of a file, of a size and a length of the name below 2 ^ 32 and an offset
-- below 2 ^ 64, carries the size, the offset, and the name behind its length, in 16 bytes and the
-- name.
pub file_request_lem :
    (size offset : ℕ) (name : Bytes)
    → size < 2 ^ 32
    → offset < 2 ^ 64
    → length name < 2 ^ 32
    → (length (file_request size offset name) ≡ 16 + length name)
      × (u32_at (file_request size offset name) 0 ≡ size)
      × (u64_at (file_request size offset name) 4 ≡ offset)
      × (u32_at (file_request size offset name) 12 ≡ length name)
      × (drop 16 (file_request size offset name) ≡ name)
unfolding file_request write_u32_le le_bytes u32_at u16_at u64_at
file_request_lem size offset name s o n =
    (omega arith, omega (arith, s), omega (arith, o), omega (arith, n), refl)
