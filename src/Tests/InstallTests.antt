-- ===== src/Tests/InstallTests.antt =====
-- Packages that are read, written and aborted.
use transferencia_switch.Base.{
  ℕ, zero, suc, some, ◌≡◌, refl, Bool, true, false, ◌&&◌, List, [], ◌∷◌, ◌++◌, ltb, arith,
  Bool-cases, inl, inr,
}
use transferencia_switch.Base.Bytes.{Bytes, codes, same, to_lower, lower}
use transferencia_switch.Base.Words.{u16_at, u32_at, u64_at}
use transferencia_switch.Install.Names.{ends_with, nibble, id_bytes, content_id_from_name}
use transferencia_switch.Install.Header.{
  Entry, member, raw_entry, read_header, c_string, parse_raw, parse_entries, parse_table,
}
use transferencia_switch.Install.Sink.{Sink, nsp, xci, new_sink, unknown_mtp_object_size}
use transferencia_switch.Install.Xci.{
  hfs0_entry, root_round, root_rounds, secure_round, secure_rounds, find_secure_partition,
  parse_xci_secure_header,
}
use transferencia_switch.Install.Xci.Consume.{consume_xci_header}
use transferencia_switch.Install.Xci.Ends.{Ends, consume_xci_header-Ends}
use transferencia_switch.Install.Xci.Partition.{HasPartition, find_secure_partition-HasPartition}
use transferencia_switch.Install.Layout.Xci.{IsSecureTable, parse_xci_secure_header-IsSecureTable}
use transferencia_switch.Install.Stream.{write}
use transferencia_switch.Install.Stream.Total.{IsReady, write-returns}
use transferencia_switch.Install.Receive.{parse_nsp_header}
use transferencia_switch.Install.Layout.{AllBytes}
use transferencia_switch.Install.Layout.Nsp.{IsTable, parse_nsp_header-IsTable}
use transferencia_switch.Tests.Shelf.{shelf, id_one, file_name, one_file, new_nsp}

abbrev first_entry : Entry
first_entry = record {
  offset = 0;
  size = 4;
  name = codes "x.nca";
  nca = true;
  cnmt = false;
  ticket = false;
  certificate = false;
  content_id = id_one;
}

abbrev one_file_sink : Sink (List Bytes)
one_file_sink = record (new_sink (codes "a.nsp") 81 nsp []) {
  header = one_file;
  header_target = 77;
}

abbrev all_bytes? : Bytes → Bool
all_bytes? [] = true
all_bytes? (b ∷ bs) = ltb b 256 && all_bytes? bs

and_right : (a b : Bool) → (a && b) ≡ true → b ≡ true
and_right a b e = ground arith

and_left : (a b : Bool) → (a && b) ≡ true → a ≡ false → ⊥
and_left a b e f = ground arith

AllBytes-all_bytes? : (bs : Bytes) → all_bytes? bs ≡ true → AllBytes bs
AllBytes-all_bytes? [] e = tt
AllBytes-all_bytes? (b ∷ bs) e = elim (Bool-cases (ltb b 256)) [
  | inl small ↦
      (ground (arith, small), AllBytes-all_bytes? bs (and_right (ltb b 256) (all_bytes? bs) e))
  | inr large ↦ absurd (and_left (ltb b 256) (all_bytes? bs) e large)
]

one_file_accepted : (parse_nsp_header one_file_sink).0 ≡ true
unfolding parse_nsp_header parse_table read_header parse_entries parse_raw raw_entry c_string member
    u16_at u32_at u64_at content_id_from_name id_bytes nibble ends_with lower to_lower same
one_file_accepted = refl

parse_nsp_header-IsTable_example :
    IsTable (u32_at one_file_sink.header 4) (parse_nsp_header one_file_sink).1
parse_nsp_header-IsTable_example =
    parse_nsp_header-IsTable one_file_sink (AllBytes-all_bytes? one_file_sink.header refl) refl
      (omega arith) (omega arith) one_file_accepted

abbrev two_bytes : Bytes
two_bytes = 7 ∷ 8 ∷ []

abbrev zeros : ℕ → Bytes
zeros zero = []
zeros (suc n) = 0 ∷ zeros n

abbrev xci_sink : Sink (List Bytes)
xci_sink = new_sink (codes "a.xci") unknown_mtp_object_size xci []

consume_xci_header-Ends_example : Ends two_bytes (consume_xci_header two_bytes xci_sink)
consume_xci_header-Ends_example =
    consume_xci_header-Ends two_bytes xci_sink
      (inr (inr (inl (refl, omega arith), inl (refl, omega arith))))

write-returns_example :
    (b : Bool × Sink (List Bytes)) × (write shelf one_file new_nsp ≡ some b) × IsReady b.1
write-returns_example = write-returns shelf one_file new_nsp (inr (inr (inl (refl, omega arith))))

-- A root table with one partition, `secure`, of 64 bytes behind the table.
abbrev root_table : Bytes
root_table =
    (0x48 ∷ 0x46 ∷ 0x53 ∷ 0x30 ∷ 1 ∷ 0 ∷ 0 ∷ 0 ∷ 7 ∷ 0 ∷ 0 ∷ 0 ∷ 0 ∷ 0 ∷ 0 ∷ 0 ∷ [])
    ++ (0 ∷ 0 ∷ 0 ∷ 0 ∷ 0 ∷ 0 ∷ 0 ∷ 0 ∷ 64 ∷ 0 ∷ 0 ∷ 0 ∷ 0 ∷ 0 ∷ 0 ∷ 0 ∷ 0 ∷ 0 ∷ 0 ∷ 0 ∷ 0 ∷ 0 ∷ 0
        ∷ 0 ∷ [])
    ++ zeros 40
    ++ codes "secure"
    ++ 0 ∷ []

abbrev root_sink : Sink (List Bytes)
root_sink = record xci_sink {
  xci_root_header = root_table;
  xci_root_target = 87;
  xci_cursor = 0xF057;
}

secure_found : (find_secure_partition root_sink).0 ≡ true
unfolding find_secure_partition root_rounds root_round hfs0_entry c_string u16_at u32_at u64_at same
secure_found = refl

find_secure_partition-HasPartition_example : HasPartition (find_secure_partition root_sink).1
find_secure_partition-HasPartition_example =
    find_secure_partition-HasPartition root_sink
      (AllBytes-all_bytes? root_sink.xci_root_header refl) secure_found

-- A secure partition at 0xF057 that holds the file of `one_file`.
abbrev secure_table : Bytes
secure_table =
    (0x48 ∷ 0x46 ∷ 0x53 ∷ 0x30 ∷ 1 ∷ 0 ∷ 0 ∷ 0 ∷ 37 ∷ 0 ∷ 0 ∷ 0 ∷ 0 ∷ 0 ∷ 0 ∷ 0 ∷ [])
    ++ (0 ∷ 0 ∷ 0 ∷ 0 ∷ 0 ∷ 0 ∷ 0 ∷ 0 ∷ 4 ∷ 0 ∷ 0 ∷ 0 ∷ 0 ∷ 0 ∷ 0 ∷ 0 ∷ 0 ∷ 0 ∷ 0 ∷ 0 ∷ 0 ∷ 0 ∷ 0
        ∷ 0 ∷ [])
    ++ zeros 40
    ++ file_name
    ++ 0 ∷ []

abbrev secure_sink : Sink (List Bytes)
secure_sink = record xci_sink {
  xci_secure_header = secure_table;
  xci_secure_target = 117;
  xci_secure_offset = 0xF057;
  xci_secure_size = 200;
}

secure_accepted : (parse_xci_secure_header secure_sink).0 ≡ true
unfolding parse_xci_secure_header secure_rounds secure_round hfs0_entry c_string member u16_at
    u32_at u64_at content_id_from_name id_bytes nibble ends_with lower to_lower same
secure_accepted = refl

parse_xci_secure_header-IsSecureTable_example :
    IsSecureTable (u32_at secure_sink.xci_secure_header 4) (parse_xci_secure_header secure_sink).1
parse_xci_secure_header-IsSecureTable_example =
    parse_xci_secure_header-IsSecureTable secure_sink
      (AllBytes-all_bytes? secure_sink.xci_secure_header refl) (omega arith) secure_accepted
