-- ===== src/Install/Layout/Nsp.antt =====
-- The table of an NSP that parseNspHeader accepts.
use transferencia_switch.Base.{
  ℕ, zero, suc, ◌+◌, ◌-◌, ◌*◌, ◌^◌, ◌≤◌, ◌<◌, ◌≡◌, refl, sym, ◌⊎◌, inl, inr, Bool, true, false,
  none, some, [], length, drop, arith, Option-cases, String,
}
use mathlib.Core.Path.{subst}
use transferencia_switch.Base.Bytes.{Bytes, codes, lower}
use transferencia_switch.Base.Words.{add_u64, u32_at}
use transferencia_switch.Base.Results.{Result, yields, stops}
use transferencia_switch.Install.Names.{ends_with, content_id_from_name}
use transferencia_switch.Install.Sink.{Sink, has_known_final_size}
use transferencia_switch.Install.Receive.{after_table, parse_nsp_header}
use transferencia_switch.Install.Header.{
  Entry, RawEntry, raw_entry, c_string, Progress, Parsed, start, entry_id, parse_raw, parse_entries,
  parse_table, read_header, max_sidecar_size, header_size, pfs0_entry_size,
}
use transferencia_switch.Install.Layout.Files.{
  IsFile, IsFileAt, make_entry-IsFile, IsSpelled, make_entry-IsSpelled,
}
use transferencia_switch.Install.Layout.{
  IsLaid, AllEntries, IsDistinct, lowered, nca_ids, Adds, Loops, loop_step, start-IsGood, IsRawWord,
  AllBytes, u64_at-IsWord,
}

-- Besides the content id: a ticket or certificate is small.
abbrev pub IsSound : Entry → Type 0
IsSound e =
    IsSpelled e × (((e.ticket ≡ false) × (e.certificate ≡ false)) ⊎ (e.size ≤ max_sidecar_size))

abbrev is_nca : Bytes → Bool
is_nca name = ends_with (lower name) (codes ".nca")

entry_id_cases :
    (name : Bytes) (r : Result Bytes)
    → entry_id (is_nca name) name ≡ r
    → ((message : String) × (r ≡ stops message))
      ⊎ ((id : Bytes) × (r ≡ yields id)
          × ((is_nca name ≡ false) ⊎ (content_id_from_name name ≡ some id)))
entry_id_cases name (stops message) e = inl (message, refl)
entry_id_cases name (yields id) e = inr (id, refl, ground arith)

-- What is asked of an entry, where the table describes its file by these numbers.
abbrev IsFileOf : ℕ → ℕ → Bytes → RawEntry → Entry → Type 0
IsFileOf target table_size strings raw e =
    IsFile target raw.data_offset raw.file_size raw.string_offset table_size strings e × IsSound e

parse_raw-Adds :
    (target table_size : ℕ) (strings : Bytes) (raw : RawEntry) (p q : Progress)
    → parse_raw target table_size strings raw p ≡ yields q
    → Adds (IsFileOf target table_size strings raw) target raw p q
unfolding parse_raw
parse_raw-Adds target table_size strings raw p q e =
    elim (Option-cases
      (c_string (table_size - raw.string_offset) (drop raw.string_offset strings))) [
        | inl unnamed ↦ ground arith
        | inr (name, named) ↦ elim (entry_id_cases name _ refl) [
          | inl (message, refused) ↦ ground arith
          | inr (id, identified, spelled) ↦ record {
            name = name;
            id = id;
            entries_eq = ground arith;
            end_eq = ground arith;
            in_order = ground arith;
            no_wrap = ground arith;
            names_eq = ground arith;
            name_new = ground arith;
            ids_eq = ground arith;
            id_new = ground arith;
            sound = λ room. (
              make_entry-IsFile target table_size strings raw name id named room,
              (make_entry-IsSpelled target raw name id spelled, ground arith),
            );
          }
        ]
      ]

-- What the table of an NSP says of the entry at an index, whose numbers take 24 bytes.
abbrev pub IsEntryAt : ℕ → Bytes → ℕ → Entry → Type 0
IsEntryAt target bytes index e = IsFileAt 24 target bytes index e × IsSound e

parse_entries-Loops :
    (n : ℕ) (bytes : Bytes) (target index : ℕ) (p : Progress)
    → index ≡ length p.entries
    → ((i : ℕ) → IsRawWord (raw_entry bytes i))
    → (parse_entries n bytes target (u32_at bytes 8) index p).failure ≡ none
    → Loops
        (IsEntryAt target bytes)
        n
        target
        p
        (parse_entries n bytes target (u32_at bytes 8) index p)
unfolding parse_entries raw_entry
parse_entries-Loops zero bytes target index p at_index words done = record {
  grows = omega arith;
  good = λ room g. g;
  word = λ w. w;
  count = omega arith;
}
parse_entries-Loops (suc n) bytes target index p at_index words done =
    loop_step (IsEntryAt target bytes) n index target (raw_entry bytes index) p
      (parse_entries n bytes target (u32_at bytes 8) (index + 1)) _ at_index (words index)
      (λ q.
        parse_raw-Adds target (u32_at bytes 8)
          (drop (header_size + u32_at bytes 4 * pfs0_entry_size) bytes) (raw_entry bytes index) p q)
      (λ q at. parse_entries-Loops n bytes target (index + 1) q at words) done

raw_entry-IsRawWord : (bytes : Bytes) (i : ℕ) → AllBytes bytes → IsRawWord (raw_entry bytes i)
unfolding raw_entry
raw_entry-IsRawWord bytes i all = (
  u64_at-IsWord bytes (header_size + i * pfs0_entry_size) all,
  u64_at-IsWord bytes (header_size + i * pfs0_entry_size + 8) all,
)

module _ {W : Type 0} where
  -- What a sink holds once the table of its NSP has been accepted: for each index of the table the
  -- entry that its bytes describe, one behind the other from the end of the header to the end of the
  -- file, sound, and with no name (in lower case) and no content id twice.
  pub record IsTable (file_count : ℕ) (s : Sink W) : Type 0 where
    pub count : length s.entries ≡ file_count
    pub laid : IsLaid s.header_target s.entries s.expected_size
    pub sound : AllEntries (IsEntryAt s.header_target s.header) 0 s.entries
    pub names_distinct : IsDistinct (lowered s.entries [])
    pub ids_distinct : IsDistinct (nca_ids s.entries [])
    pub parsed : s.header_parsed ≡ true
    pub at_data : s.data_position ≡ s.header_target

  -- The sizes that the end of parseNspHeader compares.
  accepted_sizes :
      (parsed : Parsed) (s : Sink W)
      → has_known_final_size s ≡ true
      → (after_table parsed s).0 ≡ true
      → (parsed.failure ≡ none)
        × (add_u64 s.header_target parsed.progress.previous_end ≡ s.expected_size)
        × ((after_table parsed s).1 ≡ record s {
          entries = parsed.progress.entries;
          header_parsed = true;
          data_position = s.header_target;
        })
  accepted_sizes parsed s known done = ground arith

  -- A table that parseNspHeader accepts, of a package whose size is known and not below the size of
  -- the header, as its caller has checked, and below 2 ^ 64. The sink then holds as many entries as
  -- the header declares. Each has the offset, the size and the name that the bytes of the table give
  -- at its index, and counts as an NCA, metadata, a ticket or a certificate exactly where its name has
  -- that ending. They lie one behind the other from the end of the header to the end of the file; an
  -- NCA has the content id whose 16 bytes its name spells in hexadecimal digits; a ticket or certificate
  -- is small; no name (in lower case) and no content id occurs twice.
  pub parse_nsp_header-IsTable :
      (s : Sink W)
      → AllBytes s.header
      → has_known_final_size s ≡ true
      → s.header_target ≤ s.expected_size
      → s.expected_size < 2 ^ 64
      → (parse_nsp_header s).0 ≡ true
      → IsTable (u32_at s.header 4) (parse_nsp_header s).1
  unfolding parse_nsp_header parse_table read_header
  parse_nsp_header-IsTable s bytes known fits small done =
      let (all_parsed, total, sink_eq) =
        accepted_sizes (parse_table s.header s.header_target) s known done in
      let l =
        parse_entries-Loops (u32_at s.header 4) s.header s.header_target 0 start refl
          (λ i. raw_entry-IsRawWord s.header i bytes) all_parsed in
      let room : s.header_target + (parse_table s.header s.header_target).progress.previous_end
          < 2 ^ 64 =
        omega (arith, total, l.word (omega arith)) in
      let g = l.good room (start-IsGood (IsEntryAt s.header_target s.header) s.header_target) in
      subst (IsTable (u32_at s.header 4)) (sym sink_eq) (record {
        count = omega (arith, l.count);
        laid =
            subst (IsLaid s.header_target (parse_table s.header s.header_target).progress.entries)
              (omega (arith, total, room)) g.laid;
        sound = g.sound;
        names_distinct = subst IsDistinct g.names_eq g.names_distinct;
        ids_distinct = subst IsDistinct g.ids_eq g.ids_distinct;
        parsed = refl;
        at_data = refl;
      })
