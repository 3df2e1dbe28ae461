-- ===== src/Install/Xci/Consume.antt =====
-- consumeXciHeader of sd_install_receiver.cpp: the bytes up to the end of the secure partition's
-- table.
use transferencia_switch.Base.{
  ℕ, zero, suc, ◌+◌, ◌-◌, Bool, true, false, not, ◌&&◌, ◌||◌, ◌++◌, length, take, drop, ltb, ◌==◌,
  if◌then◌else◌, min,
}
use transferencia_switch.Base.Bytes.{Bytes}
use transferencia_switch.Base.Words.{add_u64}
use transferencia_switch.Base.Results.{Result, yields, stops}
use transferencia_switch.Install.Header.{header_size, read_header}
use transferencia_switch.Install.Sink.{Sink, fail, has_known_final_size}
use transferencia_switch.Install.Xci.{
  xci_root_offset, set_hfs_header_target, find_secure_partition, parse_xci_secure_header,
}

-- How many bytes of a header are wanted, by its target.
abbrev pub hfs_wanted : ℕ → ℕ
hfs_wanted target = if target == 0 then header_size else target

module _ {W : Type 0} where
  abbrev pub move_cursor : ℕ → Sink W → Sink W
  move_cursor amount s = record s { xci_cursor = add_u64 s.xci_cursor amount }

  -- The bytes up to an offset are skipped.
  abbrev pub skip_to : ℕ → Bytes → Sink W → ℕ × Sink W
  skip_to offset bytes s =
      let amount = min (length bytes) (offset - s.xci_cursor) in (amount, move_cursor amount s)

  abbrev pub root_target : Result ℕ → Sink W → Sink W
  root_target (stops message) s = (fail message s).1
  root_target (yields target) s = record s { xci_root_target = target }

  abbrev pub root_sized : Sink W → Sink W
  root_sized s =
      if s.xci_root_target == 0 && length s.xci_root_header == header_size
      then root_target (set_hfs_header_target (read_header s.xci_root_header) "HFS0 raiz invalido")
          s
      else s

  abbrev pub root_found : Sink W → Sink W
  root_found s =
      if s.failed || s.xci_root_target == 0 || ltb (length s.xci_root_header) s.xci_root_target
      then s
      else (find_secure_partition s).1

  abbrev pub take_root : Bytes → Sink W → ℕ × Sink W
  take_root bytes s =
      let amount = min (length bytes) (hfs_wanted s.xci_root_target - length s.xci_root_header) in
      (
        amount,
        root_found (
            root_sized (
              move_cursor amount
                (record s { xci_root_header = s.xci_root_header ++ take amount bytes }))),
      )

  abbrev pub secure_fits : Sink W → Sink W
  secure_fits s =
      if has_known_final_size s
        && ltb s.expected_size (add_u64 s.xci_secure_offset s.xci_secure_target)
      then (fail "cabecera secure fuera del XCI" s).1
      else s

  abbrev pub secure_target : Result ℕ → Sink W → Sink W
  secure_target (stops message) s = (fail message s).1
  secure_target (yields target) s = secure_fits (record s { xci_secure_target = target })

  abbrev pub secure_sized : Sink W → Sink W
  secure_sized s =
      if s.xci_secure_target == 0 && length s.xci_secure_header == header_size
      then secure_target
          (set_hfs_header_target (read_header s.xci_secure_header) "HFS0 secure invalido") s
      else s

  abbrev pub data_begins : Bool × Sink W → Sink W
  data_begins (true, s) = record s { header_parsed = true; data_position = s.xci_cursor }
  data_begins (false, s) = s

  abbrev pub secure_parsed : Sink W → Sink W
  secure_parsed s =
      if not s.failed
        && not (s.xci_secure_target == 0)
        && length s.xci_secure_header == s.xci_secure_target
      then data_begins (parse_xci_secure_header s)
      else s

  abbrev pub take_secure_header : Bytes → Sink W → ℕ × Sink W
  take_secure_header bytes s =
      let amount =
        min (length bytes) (hfs_wanted s.xci_secure_target - length s.xci_secure_header) in
      (
        amount,
        secure_parsed (
            secure_sized (
              move_cursor amount
                (record s { xci_secure_header = s.xci_secure_header ++ take amount bytes }))),
      )

  -- One round of the loop of consumeXciHeader: how many bytes it takes, and the sink after it.
  unfoldable pub xci_round : Bytes → Sink W → ℕ × Sink W
  xci_round bytes s =
      if ltb s.xci_cursor xci_root_offset
      then skip_to xci_root_offset bytes s
      else if s.xci_root_target == 0 || ltb (length s.xci_root_header) s.xci_root_target
      then take_root bytes s
      else if ltb s.xci_cursor s.xci_secure_offset
      then skip_to s.xci_secure_offset bytes s
      else take_secure_header bytes s

  -- The loop, at most `n` rounds of it.
  unfoldable pub xci_rounds : ℕ → Bytes → Sink W → ℕ × Sink W
  xci_rounds zero bytes s = (0, s)
  xci_rounds (suc n) bytes s =
      let (amount, after) = xci_round bytes s in
      let (more, last) = xci_rounds n (drop amount bytes) after in
      if length bytes == 0 || s.header_parsed || s.failed then (0, s) else (amount + more, last)

  -- Each round takes a byte, so there are no more rounds than bytes.
  unfoldable pub consume_xci_header : Bytes → Sink W → ℕ × Sink W
  consume_xci_header bytes s = xci_rounds (length bytes) bytes s
