-- ===== src/Install/Xci.antt =====
-- The headers of an XCI: the root table names the secure partition, whose table lists the files
-- (consumeXciHeader, setHfsHeaderTarget, findSecurePartition and parseXciSecureHeader of
-- sd_install_receiver.cpp).
pub mod Consume
pub mod Partition
pub mod Advance
pub mod Ends
use transferencia_switch.Base.{
  ℕ, zero, suc, ◌+◌, ◌-◌, ◌*◌, String, Bool, true, false, not, ◌&&◌, ◌||◌, Option, none, some, [],
  ◌∷◌, ◌++◌, drop, ltb, leb, ◌==◌, if◌then◌else◌,
}
use transferencia_switch.Base.Bytes.{Bytes, codes, same, lower}
use transferencia_switch.Base.Words.{u32_at, u64_at, add_u64}
use transferencia_switch.Base.Results.{Result, yields, stops, ◌>>=◌, ◌>>◌, fail_if, or_fail}
use transferencia_switch.Install.Names.{ends_with, content_id_from_name}
use transferencia_switch.Install.Header.{
  max_files, max_header_size, header_size, Pfs0Header, RawEntry, c_string, member, Progress, Parsed,
  start, empty_id, add_id, make_entry, after_raw,
}
use transferencia_switch.Install.Sink.{Sink, fail, has_known_final_size}

abbrev pub hfs0_magic : ℕ
hfs0_magic = 0x30534648

abbrev pub xci_root_offset : ℕ
xci_root_offset = 0xF000

abbrev pub hfs0_entry_size : ℕ
hfs0_entry_size = 64

-- `Hfs0Entry`, less the hash, which the code does not read.
unfoldable pub hfs0_entry : Bytes → ℕ → RawEntry
hfs0_entry bytes index = record {
  data_offset = u64_at bytes (header_size + index * hfs0_entry_size);
  file_size = u64_at bytes (header_size + index * hfs0_entry_size + 8);
  string_offset = u32_at bytes (header_size + index * hfs0_entry_size + 16);
}

abbrev pub hfs0_strings : Bytes → Bytes
hfs0_strings bytes = drop (header_size + u32_at bytes 4 * hfs0_entry_size) bytes

-- `setHfsHeaderTarget`: the size of the whole header, or the message about it.
unfoldable pub set_hfs_header_target : Pfs0Header → String → Result ℕ
set_hfs_header_target base error = do
  fail_if (not (base.magic == hfs0_magic) || base.file_count == 0 || ltb max_files base.file_count)
      error
  let calculated = header_size + base.file_count * hfs0_entry_size + base.string_table_size
  fail_if (ltb max_header_size calculated) "cabecera HFS0 demasiado grande"
  yields calculated

-- What the loop over the root table knows: the secure partition's offset and size, and the end of
-- the last partition.
pub record RootProgress : Type 0 where
  pub secure : Option (ℕ × ℕ)
  pub computed_end : ℕ

abbrev pub partition_end : ℕ → RawEntry → ℕ
partition_end data_start raw = add_u64 (add_u64 data_start raw.data_offset) raw.file_size

abbrev pub max_u64 : ℕ → ℕ → ℕ
max_u64 a b = if ltb a b then b else a

abbrev note_end : ℕ → RootProgress → RootProgress
note_end end p = record p { computed_end = max_u64 p.computed_end end }

-- One round of the loop of findSecurePartition; `limit` is the known size of the package.
unfoldable pub root_round : Option ℕ → ℕ → ℕ → Bytes → RawEntry → RootProgress → Result RootProgress
root_round limit data_start table_size strings raw p = do
  fail_if (leb table_size raw.string_offset) "tabla HFS0 raiz invalida"
  let end = partition_end data_start raw
  fail_if (ltb (add_u64 raw.data_offset raw.file_size) raw.data_offset || ltb end data_start)
      "particion HFS0 fuera de rango"
  name ←
      or_fail (c_string (table_size - raw.string_offset) (drop raw.string_offset strings))
        "nombre HFS0 invalido"
  fail_if (same name (codes "secure") && elim limit [ none ↦ false | some size ↦ ltb size end ])
      "particion secure fuera del XCI"
  yields (
      if same name (codes "secure")
      then record (note_end end p) {
        secure = some (add_u64 data_start raw.data_offset, raw.file_size);
      }
      else note_end end p)

unfoldable pub root_rounds : ℕ → Option ℕ → ℕ → Bytes → ℕ → RootProgress → Result RootProgress
root_rounds zero limit data_start bytes index p = yields p
root_rounds (suc n) limit data_start bytes index p =
    root_round limit data_start (u32_at bytes 8) (hfs0_strings bytes) (hfs0_entry bytes index) p
    >>= root_rounds n limit data_start bytes (index + 1)

abbrev pub secure_id : Bool → Bytes → Result Bytes
secure_id true name = or_fail (content_id_from_name name) "nombre NCA de XCI invalido"
secure_id false name = yields empty_id

-- One round of the loop of parseXciSecureHeader; `target` is where the files' data begins.
unfoldable pub secure_round : ℕ → ℕ → ℕ → Bytes → RawEntry → Progress → Result Progress
secure_round target data_size table_size strings raw p = do
  fail_if
      (leb table_size raw.string_offset
        || ltb raw.data_offset p.previous_end
        || ltb (add_u64 raw.data_offset raw.file_size) raw.data_offset
        || ltb data_size (add_u64 raw.data_offset raw.file_size))
      "tabla HFS0 secure invalida"
  name ←
      or_fail (c_string (table_size - raw.string_offset) (drop raw.string_offset strings))
        "nombre secure sin terminador"
  fail_if (member (lower name) p.names) "nombre secure duplicado"
  id ← secure_id (ends_with (lower name) (codes ".nca")) name
  let entry = make_entry target raw name id
  fail_if (entry.nca && member id p.content_ids) "Content ID de XCI duplicado"
  yields (record {
    previous_end = add_u64 raw.data_offset raw.file_size;
    names = lower name ∷ p.names;
    content_ids = add_id entry.nca id p.content_ids;
    entries = p.entries ++ entry ∷ [];
  })

unfoldable pub secure_rounds : ℕ → Bytes → ℕ → ℕ → ℕ → Progress → Parsed
secure_rounds zero bytes target data_size index p = record { progress = p; failure = none }
secure_rounds (suc n) bytes target data_size index p =
    after_raw p (λ q. secure_rounds n bytes target data_size (index + 1) q)
      (secure_round target data_size (u32_at bytes 8) (hfs0_strings bytes) (hfs0_entry bytes index)
        p)

module _ {W : Type 0} where
  abbrev pub known_size : Sink W → Option ℕ
  known_size s = if has_known_final_size s then some s.expected_size else none

  abbrev pub xci_inferred : ℕ → Sink W → Sink W
  xci_inferred computed_end s =
      if has_known_final_size s then s else record s { expected_size = computed_end }

  -- The end of findSecurePartition.
  abbrev pub take_secure : Result RootProgress → Sink W → Bool × Sink W
  take_secure (stops message) s = fail message s
  take_secure (yields p) s = elim p.secure [
    | none ↦ fail "particion secure no encontrada" s
    | some (offset, size) ↦
        let placed = record (xci_inferred p.computed_end s) {
          xci_secure_offset = offset;
          xci_secure_size = size;
        } in
        if ltb offset s.xci_cursor then fail "offset secure invalido" placed else (true, placed)
  ]

  abbrev pub root_data_start : Sink W → ℕ
  root_data_start s = add_u64 xci_root_offset s.xci_root_target

  unfoldable pub find_secure_partition : Sink W → Bool × Sink W
  find_secure_partition s =
      let data_start = root_data_start s in
      take_secure
        (root_rounds (u32_at s.xci_root_header 4) (known_size s) data_start s.xci_root_header 0
          (record { secure = none; computed_end = data_start }))
        s

  abbrev pub take_entries : Parsed → Sink W → Bool × Sink W
  take_entries parsed s = elim parsed.failure [
    | some message ↦ fail message (record s { entries = parsed.progress.entries })
    | none ↦ (true, record s { entries = parsed.progress.entries })
  ]

  unfoldable pub parse_xci_secure_header : Sink W → Bool × Sink W
  parse_xci_secure_header s =
      if ltb s.xci_secure_size s.xci_secure_target
      then fail "particion secure menor que su cabecera" s
      else take_entries
          (secure_rounds (u32_at s.xci_secure_header 4) s.xci_secure_header
            (add_u64 s.xci_secure_offset s.xci_secure_target)
            (s.xci_secure_size - s.xci_secure_target) 0 start)
          s
