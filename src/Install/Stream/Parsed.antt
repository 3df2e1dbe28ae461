-- ===== src/Install/Stream/Parsed.antt =====
-- The data phase leaves the header as parsed.
use transferencia_switch.Base.{
  ℕ, ◌-◌, ◌≡◌, refl, ◌∙◌, Bool, true, false, ◌&&◌, Option, none, some, List, [], ◌∷◌, length,
  get_elem?, take, drop, ltb, ◌==◌, arith, if_cases, min,
}
use transferencia_switch.Base.Bytes.{Bytes}
use transferencia_switch.Base.Words.{add_u64, sub_u64}
use transferencia_switch.Install.Header.{Entry}
use transferencia_switch.Install.Services.{Services}
use transferencia_switch.Install.Sink.{Sink}
use transferencia_switch.Install.Entries.{
  begin_entry, consume_entry, convert_gamecard_nca_header, end_entry, and_then, advance,
}
use transferencia_switch.Install.Data.{
  skip_empty, pass_empty, or_zero, move_on, finish_part, consume_part, start_entry, consume_current,
  consume_data,
}

module _ {W : Type 0} (services : Services W) where
  abbrev Same : Sink W → Sink W → Type 0
  Same s s' = s'.header_parsed ≡ s.header_parsed

  begin_entry-Same : (entry : Entry) (s : Sink W) → Same s (begin_entry services entry s).1
  unfolding begin_entry
  begin_entry-Same entry s = ground arith

  consume_entry-Same :
      (entry : Entry) (offset : ℕ) (bytes : Bytes) (s : Sink W)
      → Same s (consume_entry services entry offset bytes s).1
  unfolding consume_entry convert_gamecard_nca_header
  consume_entry-Same entry offset bytes s = ground arith

  end_entry-Same : (entry : Entry) (s : Sink W) → Same s (end_entry services entry s).1
  unfolding end_entry
  end_entry-Same entry s = ground arith

  then_Same :
      (s : Sink W) (r : Bool × Sink W) (f : Sink W → Bool × Sink W)
      → Same s r.1
      → Same r.1 (f r.1).1
      → Same s (and_then r f).1
  then_Same s (true, s') f a b = b ∙ a
  then_Same s (false, s') f a b = a

  zero-Same :
      (s : Sink W) (r : Bool × Sink W) (f : Sink W → ℕ × Sink W)
      → Same s r.1
      → Same r.1 (f r.1).1
      → Same s (or_zero r f).1
  zero-Same s (true, s') f a b = b ∙ a
  zero-Same s (false, s') f a b = a

  pass_empty-Same : (entry : Entry) (s : Sink W) → Same s (pass_empty services entry s).1
  pass_empty-Same entry s =
      let begun = (begin_entry services entry s).1 in
      then_Same s (begin_entry services entry s)
        (λ b. and_then (end_entry services entry b) (λ e. (true, advance e)))
        (begin_entry-Same entry s)
        (then_Same begun (end_entry services entry begun) (λ e. (true, advance e))
          (end_entry-Same entry begun) refl)

  skip_empty-Same : (rest : List Entry) (s : Sink W) → Same s (skip_empty services rest s).1
  unfolding skip_empty
  skip_empty-Same [] s = refl
  skip_empty-Same (entry ∷ rest) s =
      if_cases (λ (r : Bool × Sink W). Same s r.1)
        (entry.size == 0 && s.data_position == entry.offset) _ _
        (λ _.
          then_Same s (pass_empty services entry s) (λ s'. skip_empty services rest s')
            (pass_empty-Same entry s) (skip_empty-Same rest (pass_empty services entry s).1))
        (λ _. refl)

  finish_part-Same :
      (entry : Entry) (offset amount : ℕ) (s : Sink W)
      → Same s (finish_part services entry offset amount s).1
  finish_part-Same entry offset amount s =
      if_cases (λ (r : ℕ × Sink W). Same s r.1) (add_u64 offset amount == entry.size) _ _
        (λ _.
          zero-Same s (end_entry services entry s) (λ e. (amount, advance e))
            (end_entry-Same entry s) refl)
        (λ _. refl)

  consume_part-Same :
      (entry : Entry) (bytes : Bytes) (s : Sink W) → Same s (consume_part services entry bytes s).1
  consume_part-Same entry bytes s =
      let offset = s.data_position - entry.offset in
      let amount = min (length bytes) (sub_u64 entry.size offset) in
      let consumed = consume_entry services entry offset (take amount bytes) s in
      zero-Same s consumed (λ c. finish_part services entry offset amount (move_on amount c))
        (consume_entry-Same entry offset (take amount bytes) s)
        (finish_part-Same entry offset amount (move_on amount consumed.1))

  start_entry-Same : (entry : Entry) (s : Sink W) → Same s (start_entry services entry s).1
  start_entry-Same entry s =
      if_cases (λ (r : Bool × Sink W). Same s r.1) s.entry_started _ _ (λ _. refl)
        (λ _. begin_entry-Same entry s)

  consume_current-Same :
      (entry : Option Entry) (bytes : Bytes) (s : Sink W)
      → Same s (consume_current services entry bytes s).1
  consume_current-Same none bytes s = refl
  consume_current-Same (some entry) bytes s =
      if_cases (λ (r : ℕ × Sink W). Same s r.1) (ltb s.data_position entry.offset) _ _ (λ _. refl)
        (λ _.
          zero-Same s (start_entry services entry s) (consume_part services entry bytes)
            (start_entry-Same entry s)
            (consume_part-Same entry bytes (start_entry services entry s).1))

  pub consume_data-Same :
      (bytes : Bytes) (s : Sink W)
      → (consume_data services bytes s).1.header_parsed ≡ s.header_parsed
  unfolding consume_data
  consume_data-Same bytes s =
      let passed = skip_empty services (drop s.current_entry s.entries) s in
      zero-Same s passed
        (λ s'. consume_current services (get_elem? s'.entries s'.current_entry) bytes s')
        (skip_empty-Same (drop s.current_entry s.entries) s)
        (consume_current-Same (get_elem? passed.1.entries passed.1.current_entry) bytes passed.1)
