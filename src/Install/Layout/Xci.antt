-- ===== src/Install/Layout/Xci.antt =====
-- The table of the secure partition that parseXciSecureHeader accepts.
use transferencia_switch.Base.{
  ℕ, zero, suc, ◌+◌, ◌-◌, ◌*◌, ◌^◌, ◌≤◌, ◌<◌, ◌≡◌, refl, sym, ◌⊎◌, inl, inr, Bool, true, false,
  none, some, [], length, drop, arith, Option-cases, String,
}
use mathlib.Core.Path.{subst}
use transferencia_switch.Base.Bytes.{Bytes, codes, lower}
use transferencia_switch.Base.Words.{add_u64, u32_at}
use transferencia_switch.Base.Results.{Result, yields, stops}
use transferencia_switch.Install.Names.{ends_with, content_id_from_name}
use transferencia_switch.Install.Sink.{Sink}
use transferencia_switch.Install.Header.{
  Entry, RawEntry, c_string, Progress, Parsed, start, after_raw, header_size,
}
use transferencia_switch.Install.Xci.{
  hfs0_entry, hfs0_entry_size, hfs0_strings, secure_id, secure_round, secure_rounds, take_entries,
  parse_xci_secure_header,
}
use transferencia_switch.Install.Layout.Files.{
  IsFile, IsFileAt, make_entry-IsFile, IsSpelled, make_entry-IsSpelled,
}
use transferencia_switch.Install.Layout.{
  IsLaid, AllEntries, IsDistinct, lowered, nca_ids, Adds, Loops, loop_step, start-IsGood, IsRawWord,
  AllBytes, u64_at-IsWord,
}

abbrev is_nca : Bytes → Bool
is_nca name = ends_with (lower name) (codes ".nca")

secure_id_cases :
    (name : Bytes) (r : Result Bytes)
    → secure_id (is_nca name) name ≡ r
    → ((message : String) × (r ≡ stops message))
      ⊎ ((id : Bytes) × (r ≡ yields id)
          × ((is_nca name ≡ false) ⊎ (content_id_from_name name ≡ some id)))
secure_id_cases name (stops message) e = inl (message, refl)
secure_id_cases name (yields id) e = inr (id, refl, ground arith)

-- What is asked of an entry, where the table describes its file by these numbers.
abbrev IsFileOf : ℕ → ℕ → Bytes → RawEntry → Entry → Type 0
IsFileOf target table_size strings raw e =
    IsFile target raw.data_offset raw.file_size raw.string_offset table_size strings e × IsSpelled e

secure_round-Adds :
    (target data_size table_size : ℕ) (strings : Bytes) (raw : RawEntry) (p q : Progress)
    → secure_round target data_size table_size strings raw p ≡ yields q
    → Adds (IsFileOf target table_size strings raw) target raw p q × (q.previous_end ≤ data_size)
unfolding secure_round
secure_round-Adds target data_size table_size strings raw p q e =
    elim (Option-cases
      (c_string (table_size - raw.string_offset) (drop raw.string_offset strings))) [
        | inl unnamed ↦ ground arith
        | inr (name, named) ↦ elim (secure_id_cases name _ refl) [
          | inl (message, refused) ↦ ground arith
          | inr (id, identified, spelled) ↦ (
            record {
              name = name;
              id = id;
              entries_eq = ground arith;
              end_eq = ground arith;
              in_order = ground arith;
              no_wrap = ground arith;
              names_eq = ground arith;
              name_new = ground arith;
              ids_eq = ground arith;
              id_new = ground arith;
              sound = λ room. (
                make_entry-IsFile target table_size strings raw name id named room,
                make_entry-IsSpelled target raw name id spelled,
              );
            },
            ground arith,
          )
        ]
      ]

-- The rounds stay below a limit where each one does.
limit_step :
    (limit : ℕ) (p : Progress) (rest : Progress → Parsed) (r : Result Progress)
    → p.previous_end ≤ limit
    → ((q : Progress) → r ≡ yields q → q.previous_end ≤ limit)
    → ((q : Progress) → q.previous_end ≤ limit → (rest q).progress.previous_end ≤ limit)
    → (after_raw p rest r).progress.previous_end ≤ limit
limit_step limit p rest (stops m) below one more = below
limit_step limit p rest (yields q) below one more = more q (one q refl)

secure_rounds-limit :
    (n : ℕ) (bytes : Bytes) (target data_size index : ℕ) (p : Progress)
    → p.previous_end ≤ data_size
    → (secure_rounds n bytes target data_size index p).progress.previous_end ≤ data_size
unfolding secure_rounds
secure_rounds-limit zero bytes target data_size index p below = below
secure_rounds-limit (suc n) bytes target data_size index p below =
    limit_step data_size p (secure_rounds n bytes target data_size (index + 1)) _ below
      (λ q e. (secure_round-Adds target data_size _ _ (hfs0_entry bytes index) p q e).1)
      (λ q. secure_rounds-limit n bytes target data_size (index + 1) q)

-- What the table of a secure partition says of the entry at an index, whose numbers and hash take 64
-- bytes.
abbrev pub IsEntryAt : ℕ → Bytes → ℕ → Entry → Type 0
IsEntryAt target bytes index e = IsFileAt 64 target bytes index e × IsSpelled e

secure_rounds-Loops :
    (n : ℕ) (bytes : Bytes) (target data_size index : ℕ) (p : Progress)
    → index ≡ length p.entries
    → ((i : ℕ) → IsRawWord (hfs0_entry bytes i))
    → (secure_rounds n bytes target data_size index p).failure ≡ none
    → Loops (IsEntryAt target bytes) n target p (secure_rounds n bytes target data_size index p)
unfolding secure_rounds hfs0_entry
secure_rounds-Loops zero bytes target data_size index p at_index words done = record {
  grows = omega arith;
  good = λ room g. g;
  word = λ w. w;
  count = omega arith;
}
secure_rounds-Loops (suc n) bytes target data_size index p at_index words done =
    loop_step (IsEntryAt target bytes) n index target (hfs0_entry bytes index) p
      (secure_rounds n bytes target data_size (index + 1)) _ at_index (words index)
      (λ q e.
        (secure_round-Adds target data_size (u32_at bytes 8) (hfs0_strings bytes)
          (hfs0_entry bytes index) p q e).0)
      (λ q at. secure_rounds-Loops n bytes target data_size (index + 1) q at words) done

pub hfs0_entry-IsRawWord : (bytes : Bytes) (i : ℕ) → AllBytes bytes → IsRawWord (hfs0_entry bytes i)
unfolding hfs0_entry
hfs0_entry-IsRawWord bytes i all = (
  u64_at-IsWord bytes (header_size + i * hfs0_entry_size) all,
  u64_at-IsWord bytes (header_size + i * hfs0_entry_size + 8) all,
)

module _ {W : Type 0} where
  -- What a sink holds once the table of the secure partition has been accepted: for each index of the
  -- table the entry that its bytes describe, one behind the other between the end of the table and the
  -- end of the partition.
  pub record IsSecureTable (file_count : ℕ) (s : Sink W) : Type 0 where
    pub end : ℕ
    pub count : length s.entries ≡ file_count
    pub laid : IsLaid (s.xci_secure_offset + s.xci_secure_target) s.entries end
    pub inside : end ≤ s.xci_secure_offset + s.xci_secure_size
    pub sound :
        AllEntries
          (IsEntryAt (s.xci_secure_offset + s.xci_secure_target) s.xci_secure_header)
          0
          s.entries
    pub names_distinct : IsDistinct (lowered s.entries [])
    pub ids_distinct : IsDistinct (nca_ids s.entries [])

  accepted_entries :
      (parsed : Parsed) (s : Sink W)
      → (take_entries parsed s).0 ≡ true
      → (parsed.failure ≡ none)
        × ((take_entries parsed s).1 ≡ record s { entries = parsed.progress.entries })
  accepted_entries parsed s done = ground arith

  abbrev rounds : Sink W → Parsed
  rounds s =
      secure_rounds (u32_at s.xci_secure_header 4) s.xci_secure_header
        (add_u64 s.xci_secure_offset s.xci_secure_target) (s.xci_secure_size - s.xci_secure_target)
        0 start

  parsed_rounds :
      (s : Sink W)
      → (parse_xci_secure_header s).0 ≡ true
      → (s.xci_secure_target ≤ s.xci_secure_size)
        × ((rounds s).failure ≡ none)
        × ((parse_xci_secure_header s).1 ≡ record s { entries = (rounds s).progress.entries })
  unfolding parse_xci_secure_header
  parsed_rounds s done = ground (arith, accepted_entries (rounds s) s)

  -- A table of a secure partition that parseXciSecureHeader accepts, where the partition ends below
  -- 2 ^ 64. The sink then holds as many entries as the table declares. Each has the offset, the size
  -- and the name that the bytes of the table give at its index, and counts as an NCA, metadata, a
  -- ticket or a certificate exactly where its name has that ending. They lie inside the partition and
  -- one behind the other; an NCA has the content id whose 16 bytes its name spells in hexadecimal
  -- digits; no name (in lower case) and no content id occurs twice.
  pub parse_xci_secure_header-IsSecureTable :
      (s : Sink W)
      → AllBytes s.xci_secure_header
      → s.xci_secure_offset + s.xci_secure_size < 2 ^ 64
      → (parse_xci_secure_header s).0 ≡ true
      → IsSecureTable (u32_at s.xci_secure_header 4) (parse_xci_secure_header s).1
  parse_xci_secure_header-IsSecureTable s bytes room done =
      let (fits, all_parsed, sink_eq) = parsed_rounds s done in
      let at = add_u64 s.xci_secure_offset s.xci_secure_target in
      let size = s.xci_secure_size - s.xci_secure_target in
      let l =
        secure_rounds-Loops (u32_at s.xci_secure_header 4) s.xci_secure_header at size 0 start refl
          (λ i. hfs0_entry-IsRawWord s.xci_secure_header i bytes) all_parsed in
      let below =
        secure_rounds-limit (u32_at s.xci_secure_header 4) s.xci_secure_header at size 0 start
          (omega arith) in
      let g =
        l.good (omega (arith, below, fits, room))
          (start-IsGood (IsEntryAt at s.xci_secure_header) at) in
      subst (IsSecureTable (u32_at s.xci_secure_header 4)) (sym sink_eq) (record {
        end = at + (rounds s).progress.previous_end;
        count = omega (arith, l.count);
        laid =
            subst
              (λ (a : ℕ).
                IsLaid a (rounds s).progress.entries (at + (rounds s).progress.previous_end))
              (omega (arith, fits, room)) g.laid;
        inside = omega (arith, below, fits, room);
        sound =
            subst
              (λ (a : ℕ).
                AllEntries (IsEntryAt a s.xci_secure_header) 0 (rounds s).progress.entries)
              (omega (arith, fits, room)) g.sound;
        names_distinct = subst IsDistinct g.names_eq g.names_distinct;
        ids_distinct = subst IsDistinct g.ids_eq g.ids_distinct;
      })
