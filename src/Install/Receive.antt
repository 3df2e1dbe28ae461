-- ===== src/Install/Receive.antt =====
-- The header phase of an NSP (consumeNspHeader and parseNspHeader of sd_install_receiver.cpp).
use transferencia_switch.Base.{
  ℕ, ◌+◌, ◌-◌, ◌*◌, Bool, true, not, ◌&&◌, ◌||◌, none, some, ◌++◌, length, take, ltb, ◌==◌,
  if◌then◌else◌, min,
}
use transferencia_switch.Base.Bytes.{Bytes}
use transferencia_switch.Base.Words.{add_u64}
use transferencia_switch.Install.Header.{
  pfs0_magic, max_files, max_header_size, header_size, pfs0_entry_size, read_header, Parsed,
  parse_table,
}
use transferencia_switch.Install.Sink.{Sink, fail, has_known_final_size}

-- The size of the whole header, from its first 16 bytes.
abbrev pub declared_size : Bytes → ℕ
declared_size bytes =
    let base = read_header bytes in
    header_size + base.file_count * pfs0_entry_size + base.string_table_size

module _ {W : Type 0} where
  -- The end of parseNspHeader: the size of the file must be that of the table.
  abbrev pub check_size : ℕ → Sink W → Bool × Sink W
  check_size total s =
      if not (total == s.expected_size)
      then fail "tamano NSP no coincide con PFS0" s
      else (true, record s { header_parsed = true; data_position = s.header_target })

  abbrev pub infer_size : ℕ → Sink W → Sink W
  infer_size total s = if has_known_final_size s then s else record s { expected_size = total }

  abbrev pub after_table : Parsed → Sink W → Bool × Sink W
  after_table parsed s = elim parsed.failure [
    | some message ↦ fail message (record s { entries = parsed.progress.entries })
    | none ↦
        let total = add_u64 s.header_target parsed.progress.previous_end in
        check_size total (infer_size total (record s { entries = parsed.progress.entries }))
  ]

  unfoldable pub parse_nsp_header : Sink W → Bool × Sink W
  parse_nsp_header s = after_table (parse_table s.header s.header_target) s

  unfoldable pub set_target : Sink W → Sink W
  set_target s =
      let base = read_header s.header in
      if not (base.magic == pfs0_magic) || base.file_count == 0 || ltb max_files base.file_count
      then (fail "cabecera PFS0 invalida" s).1
      else if ltb max_header_size (declared_size s.header)
          || has_known_final_size s && ltb s.expected_size (declared_size s.header)
      then (fail "cabecera PFS0 demasiado grande" s).1
      else record s { header_target = declared_size s.header }

  -- How many bytes of the header are wanted next.
  abbrev pub wanted : Sink W → ℕ
  wanted s = if s.header_target == 0 then header_size else s.header_target

  abbrev pub take_header : ℕ → Bytes → Sink W → Sink W
  take_header amount bytes s = record s { header = s.header ++ take amount bytes }

  abbrev pub target_step : Sink W → Sink W
  target_step s = if s.header_target == 0 && length s.header == header_size then set_target s else s

  abbrev pub parse_step : Sink W → Sink W
  parse_step s =
      if not s.failed && not (s.header_target == 0) && length s.header == s.header_target
      then (parse_nsp_header s).1
      else s

  -- The number of bytes taken, and the sink after it. A header that is refused returns the amount.
  unfoldable pub consume_nsp_header : Bytes → Sink W → ℕ × Sink W
  consume_nsp_header bytes s =
      let amount = min (length bytes) (wanted s - length s.header) in
      (amount, parse_step (target_step (take_header amount bytes s)))
