-- ===== src/Install/Data.antt =====
-- consumeData of sd_install_receiver.cpp: the next bytes of a package whose table is known.
use transferencia_switch.Base.{
  ℕ, ◌-◌, Bool, true, false, ◌&&◌, Option, none, some, List, [], ◌∷◌, length, get_elem?, take, drop,
  ltb, ◌==◌, if◌then◌else◌, min,
}
use transferencia_switch.Base.Bytes.{Bytes}
use transferencia_switch.Base.Words.{add_u64, sub_u64}
use transferencia_switch.Install.Header.{Entry}
use transferencia_switch.Install.Services.{Services}
use transferencia_switch.Install.Sink.{Sink}
use transferencia_switch.Install.Entries.{begin_entry, consume_entry, end_entry, and_then, advance}

module _ {W : Type 0} where
  -- `false` becomes the result 0.
  abbrev pub or_zero : Bool × Sink W → (Sink W → ℕ × Sink W) → ℕ × Sink W
  or_zero r f = elim r.0 [ true ↦ f r.1 | false ↦ (0, r.1) ]

  abbrev pub move_on : ℕ → Sink W → Sink W
  move_on amount s = record s { data_position = add_u64 s.data_position amount }

module _ {W : Type 0} (services : Services W) where
  -- An entry begins and ends at once.
  abbrev pub pass_empty : Entry → Sink W → Bool × Sink W
  pass_empty entry s =
      and_then (begin_entry services entry s)
        (λ begun. and_then (end_entry services entry begun) (λ ended. (true, advance ended)))

  -- The loop over the empty entries at the position, by the entries from the current one on.
  unfoldable pub skip_empty : List Entry → Sink W → Bool × Sink W
  skip_empty [] s = (true, s)
  skip_empty (entry ∷ rest) s =
      let passed = and_then (pass_empty entry s) (λ s'. skip_empty rest s') in
      if entry.size == 0 && s.data_position == entry.offset then passed else (true, s)

  abbrev pub finish_part : Entry → ℕ → ℕ → Sink W → ℕ × Sink W
  finish_part entry entry_offset amount s =
      if add_u64 entry_offset amount == entry.size
      then or_zero (end_entry services entry s) (λ ended. (amount, advance ended))
      else (amount, s)

  -- The part of the bytes that belongs to an entry which has begun.
  abbrev pub consume_part : Entry → Bytes → Sink W → ℕ × Sink W
  consume_part entry bytes s =
      let entry_offset = s.data_position - entry.offset in
      let amount = min (length bytes) (sub_u64 entry.size entry_offset) in
      or_zero (consume_entry services entry entry_offset (take amount bytes) s)
        (λ consumed. finish_part entry entry_offset amount (move_on amount consumed))

  abbrev pub start_entry : Entry → Sink W → Bool × Sink W
  start_entry entry s = if s.entry_started then (true, s) else begin_entry services entry s

  abbrev pub consume_current : Option Entry → Bytes → Sink W → ℕ × Sink W
  consume_current none bytes s = (min (length bytes) (sub_u64 s.expected_size s.received), s)
  consume_current (some entry) bytes s =
      if ltb s.data_position entry.offset
      then (let gap = min (length bytes) (entry.offset - s.data_position) in (gap, move_on gap s))
      else or_zero (start_entry entry s) (consume_part entry bytes)

  -- `consumeData`: the number of bytes that were taken.
  unfoldable pub consume_data : Bytes → Sink W → ℕ × Sink W
  consume_data bytes s =
      or_zero (skip_empty (drop s.current_entry s.entries) s)
        (λ s'. consume_current (get_elem? s'.entries s'.current_entry) bytes s')
