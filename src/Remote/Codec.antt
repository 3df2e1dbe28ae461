-- ===== src/Remote/Codec.antt =====
-- The messages of dbi_catalog.c: headers of 16 bytes, and the request for a part of a file.
pub mod RoundTrip
use transferencia_switch.Base.{
  ℕ, zero, suc, ◌+◌, ◌/◌, ◌%◌, ◌^◌, not, ◌||◌, [], ◌∷◌, ◌++◌, take, length, ◌==◌, if◌then◌else◌,
}
use transferencia_switch.Base.Bytes.{Bytes, codes, same}
use transferencia_switch.Base.Words.{u32_at}
use transferencia_switch.Domain.Status.{Status, ts_ok, ts_protocol_error}

abbrev pub dbi_header_size : ℕ
dbi_header_size = 16

abbrev pub dbi_request : ℕ
dbi_request = 0

abbrev pub dbi_response : ℕ
dbi_response = 1

abbrev pub dbi_ack : ℕ
dbi_ack = 2

abbrev pub dbi_exit : ℕ
dbi_exit = 0

abbrev pub dbi_file_range : ℕ
dbi_file_range = 2

abbrev pub dbi_list : ℕ
dbi_list = 3

unfoldable pub write_u32_le : ℕ → Bytes
write_u32_le value =
    value % 256 ∷ value / 2 ^ 8 % 256 ∷ value / 2 ^ 16 % 256 ∷ value / 2 ^ 24 % 256 ∷ []

-- The loop of write_u64_le, by the number of bytes that are left.
unfoldable pub le_bytes : ℕ → ℕ → Bytes
le_bytes zero value = []
le_bytes (suc n) value = value % 256 ∷ le_bytes n (value / 256)

abbrev pub write_u64_le : ℕ → Bytes
write_u64_le value = le_bytes 8 value

unfoldable pub make_header : ℕ → ℕ → ℕ → Bytes
make_header type command size =
    codes "DBI0" ++ (write_u32_le type ++ (write_u32_le command ++ write_u32_le size))

unfoldable pub validate_header : Bytes → ℕ → ℕ → Status
validate_header header expected_type expected_command =
    if not (same (take 4 header) (codes "DBI0"))
    then ts_protocol_error
    else if not (u32_at header 4 == expected_type) || not (u32_at header 8 == expected_command)
    then ts_protocol_error
    else ts_ok

-- The payload that read_file_range sends.
unfoldable pub file_request : ℕ → ℕ → Bytes → Bytes
file_request size offset name =
    write_u32_le size ++ (write_u64_le offset ++ (write_u32_le (length name) ++ name))
