-- ===== src/Install/Header.antt =====
-- The file table of an NSP (parseNspHeader of sd_install_receiver.cpp).
use transferencia_switch.Base.{
  String, ℕ, zero, suc, ◌+◌, ◌-◌, ◌*◌, Bool, true, false, ◌&&◌, ◌||◌, Option, none, some, List, [],
  ◌∷◌, ◌++◌, drop, ltb, leb, ◌==◌, if◌then◌else◌,
}
use transferencia_switch.Base.Bytes.{Bytes, codes, same, lower}
use transferencia_switch.Base.Words.{u32_at, u64_at, add_u64}
use transferencia_switch.Base.Results.{Result, yields, stops, ◌>>=◌, ◌>>◌, fail_if, or_fail}
use transferencia_switch.Install.Names.{ends_with, content_id_from_name}

abbrev pub pfs0_magic : ℕ
pfs0_magic = 0x30534650

abbrev pub max_files : ℕ
max_files = 4096

abbrev pub max_header_size : ℕ
max_header_size = 8 * 1024 * 1024

abbrev pub max_sidecar_size : ℕ
max_sidecar_size = 2 * 1024 * 1024

abbrev pub header_size : ℕ
header_size = 16

abbrev pub pfs0_entry_size : ℕ
pfs0_entry_size = 24

pub record Entry : Type 0 where
  pub offset : ℕ
  pub size : ℕ
  pub name : Bytes
  pub nca : Bool
  pub cnmt : Bool
  pub ticket : Bool
  pub certificate : Bool
  pub content_id : Bytes

-- `Pfs0Header`, read from the first 16 bytes.
pub record Pfs0Header : Type 0 where
  pub magic : ℕ
  pub file_count : ℕ
  pub string_table_size : ℕ

unfoldable pub read_header : Bytes → Pfs0Header
read_header bytes = record {
  magic = u32_at bytes 0;
  file_count = u32_at bytes 4;
  string_table_size = u32_at bytes 8;
}

-- `Pfs0Entry`
pub record RawEntry : Type 0 where
  pub data_offset : ℕ
  pub file_size : ℕ
  pub string_offset : ℕ

unfoldable pub raw_entry : Bytes → ℕ → RawEntry
raw_entry bytes index = record {
  data_offset = u64_at bytes (header_size + index * pfs0_entry_size);
  file_size = u64_at bytes (header_size + index * pfs0_entry_size + 8);
  string_offset = u32_at bytes (header_size + index * pfs0_entry_size + 16);
}

abbrev cons_some : ℕ → Option Bytes → Option Bytes
cons_some c none = none
cons_some c (some cs) = some (c ∷ cs)

-- The bytes before the first NUL among `available` bytes, or `none` where `memchr` finds no NUL.
unfoldable pub c_string : ℕ → Bytes → Option Bytes
c_string zero bytes = none
c_string (suc n) [] = none
c_string (suc n) (b ∷ bytes) =
    let rest = cons_some b (c_string n bytes) in if b == 0 then some [] else rest

-- `set.insert(x).second` is false where this is true.
unfoldable pub member : Bytes → List Bytes → Bool
member x [] = false
member x (y ∷ ys) = same x y || member x ys

-- What the loop over the table has built so far.
pub record Progress : Type 0 where
  pub previous_end : ℕ
  pub names : List Bytes
  pub content_ids : List Bytes
  pub entries : List Entry

abbrev pub empty_id : Bytes
empty_id = 0 ∷ 0 ∷ 0 ∷ 0 ∷ 0 ∷ 0 ∷ 0 ∷ 0 ∷ 0 ∷ 0 ∷ 0 ∷ 0 ∷ 0 ∷ 0 ∷ 0 ∷ 0 ∷ []

-- The content id of an NCA; the other files have the zero id.
abbrev pub entry_id : Bool → Bytes → Result Bytes
entry_id true name = or_fail (content_id_from_name name) "nombre NCA invalido"
entry_id false name = yields empty_id

abbrev pub add_id : Bool → Bytes → List Bytes → List Bytes
add_id true id ids = id ∷ ids
add_id false id ids = ids

-- The entry that a raw one and its name become; `target` is the size of the header.
abbrev pub make_entry : ℕ → RawEntry → Bytes → Bytes → Entry
make_entry target raw name id = record {
  offset = add_u64 target raw.data_offset;
  size = raw.file_size;
  name = name;
  nca = ends_with (lower name) (codes ".nca");
  cnmt = ends_with (lower name) (codes ".cnmt.nca");
  ticket = ends_with (lower name) (codes ".tik");
  certificate = ends_with (lower name) (codes ".cert");
  content_id = id;
}

-- One round of the loop of parseNspHeader, after the raw entry has been read. `strings` is the
-- string table, whose size the header declares.
unfoldable pub parse_raw : ℕ → ℕ → Bytes → RawEntry → Progress → Result Progress
parse_raw target table_size strings raw p = do
  fail_if
      (leb table_size raw.string_offset
        || ltb raw.data_offset p.previous_end
        || ltb (add_u64 raw.data_offset raw.file_size) raw.data_offset)
      "tabla PFS0 invalida"
  name ←
      or_fail (c_string (table_size - raw.string_offset) (drop raw.string_offset strings))
        "nombre PFS0 sin terminador"
  fail_if (member (lower name) p.names) "nombre PFS0 duplicado"
  id ← entry_id (ends_with (lower name) (codes ".nca")) name
  let entry = make_entry target raw name id
  fail_if (entry.nca && member id p.content_ids) "Content ID duplicado"
  fail_if ((entry.ticket || entry.certificate) && ltb max_sidecar_size entry.size)
      "ticket o certificado demasiado grande"
  yields (record {
    previous_end = add_u64 raw.data_offset raw.file_size;
    names = lower name ∷ p.names;
    content_ids = add_id entry.nca id p.content_ids;
    entries = p.entries ++ entry ∷ [];
  })

-- What the loop leaves: the entries before the first bad one, and the message about that one.
pub record Parsed : Type 0 where
  pub progress : Progress
  pub failure : Option String

abbrev pub start : Progress
start = record { previous_end = 0; names = []; content_ids = []; entries = [] }

-- A round is followed by the rest of the loop, or is the last.
abbrev pub after_raw : Progress → (Progress → Parsed) → Result Progress → Parsed
after_raw p rest (yields q) = rest q
after_raw p rest (stops message) = record { progress = p; failure = some message }

-- The loop, by the number of entries that are left.
unfoldable pub parse_entries : ℕ → Bytes → ℕ → ℕ → ℕ → Progress → Parsed
parse_entries zero bytes target table_size index p = record { progress = p; failure = none }
parse_entries (suc n) bytes target table_size index p =
    let strings = drop (header_size + u32_at bytes 4 * pfs0_entry_size) bytes in
    after_raw p (λ q. parse_entries n bytes target table_size (index + 1) q)
      (parse_raw target table_size strings (raw_entry bytes index) p)

-- The table of a whole header.
unfoldable pub parse_table : Bytes → ℕ → Parsed
unfolding parse_entries
parse_table bytes target =
    let base = read_header bytes in
    parse_entries base.file_count bytes target base.string_table_size 0 start
