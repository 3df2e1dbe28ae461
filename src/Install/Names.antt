-- ===== src/Install/Names.antt =====
-- The names of the files in a package (sd_install_receiver.cpp): suffixes, and the content id that
-- an NCA's name spells in hexadecimal.
use transferencia_switch.Base.{
  ℕ, zero, suc, ◌+◌, ◌-◌, ◌*◌, Bool, ◌&&◌, Option, none, some, [], ◌∷◌, length, drop, ltb, leb,
  if◌then◌else◌,
}
use transferencia_switch.Base.Bytes.{Bytes, same}

-- `endsWith`
unfoldable pub ends_with : Bytes → Bytes → Bool
ends_with value suffix =
    leb (length suffix) (length value) && same (drop (length value - length suffix) value) suffix

-- The lambda `nibble`; `none` is -1.
unfoldable pub nibble : ℕ → Option ℕ
nibble c =
    if leb b'0' c && leb c b'9'
    then some (c - b'0')
    else if leb b'a' c && leb c b'f'
    then some (c - b'a' + 10)
    else if leb b'A' c && leb c b'F'
    then some (c - b'A' + 10)
    else none

abbrev byte_of : Option ℕ → Option ℕ → Option ℕ
byte_of (some high) (some low) = some (high * 16 + low)
byte_of _ _ = none

abbrev cons_byte : Option ℕ → Option Bytes → Option Bytes
cons_byte (some b) (some rest) = some (b ∷ rest)
cons_byte _ _ = none

-- The loop over the bytes of the id, two digits each.
unfoldable pub id_bytes : ℕ → Bytes → Option Bytes
id_bytes zero name = some []
id_bytes (suc n) (high ∷ low ∷ rest) =
    cons_byte (byte_of (nibble high) (nibble low)) (id_bytes n rest)
id_bytes (suc n) _ = none

-- `contentIdFromName`
unfoldable pub content_id_from_name : Bytes → Option Bytes
content_id_from_name name = if ltb (length name) 36 then none else id_bytes 16 name
