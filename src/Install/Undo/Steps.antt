-- ===== src/Install/Undo/Steps.antt =====
-- What consumeData keeps true of a sink: what is registered is tracked, and an entry that has
-- begun was not there at the start.
use transferencia_switch.Base.{
  ℕ, ◌-◌, ◌≡◌, refl, sym, ap, ◌∙◌, ◌⊎◌, inl, inr, Bool, true, false, ◌&&◌, Option, none, some, List,
  [], ◌∷◌, length, get_elem?, take, drop, ltb, ◌==◌, if_cases, min,
}
use mathlib.Core.Path.{ap₂}
use transferencia_switch.Base.Bytes.{Bytes}
use transferencia_switch.Base.Words.{add_u64, sub_u64}
use transferencia_switch.Install.Header.{Entry}
use transferencia_switch.Install.Services.{Services}
use transferencia_switch.Install.Sink.{Sink}
use transferencia_switch.Install.Entries.{begin_entry, consume_entry, end_entry, and_then, advance}
use transferencia_switch.Install.Data.{
  skip_empty, pass_empty, or_zero, move_on, finish_part, consume_part, start_entry, consume_current,
  consume_data,
}
use transferencia_switch.Install.Restore.{
  StorageLaws, TracksSink, IsNew, begin_entry-Tracks, begin_entry-IsNew, begin_entry-failed,
  begin_entry-keeps,
}
use transferencia_switch.Install.Restore.Writes.{consume_entry-Writes}
use transferencia_switch.Install.Restore.Ends.{end_entry-Tracks, end_entry-failed}

module _ {W : Type 0} (services : Services W) (installed : Bytes → W → Bool) (base : Bytes → Bool)
    (laws : StorageLaws services installed) where
  abbrev T : Sink W → Type 0
  T s = TracksSink services installed base laws s

  abbrev New : Entry → Sink W → Type 0
  New entry s = IsNew services installed base laws entry s

  -- Between two parts: the entry that has begun, if any, was not there at the start.
  abbrev pub IsReady : Sink W → Type 0
  IsReady s =
      (entry : Entry)
      → get_elem? s.entries s.current_entry ≡ some entry
      → s.entry_started ≡ true
      → New entry s

  abbrev pub Stopped : Sink W → Type 0
  Stopped s = s.failed ≡ true

  pub record IsSafe (s : Sink W) : Type 0 where
    pub tracks : T s
    pub ready : Stopped s ⊎ IsReady s

  -- A step that either goes on, ready, or has failed.
  abbrev pub Steps : Bool × Sink W → Type 0
  Steps (true, s) = T s × IsReady s
  Steps (false, s) = T s × Stopped s

  fresh : (s : Sink W) → IsReady (advance s)
  fresh s entry found started = cc

  same_entry :
      (entry e : Entry) (s : Sink W)
      → get_elem? s.entries s.current_entry ≡ some entry
      → get_elem? s.entries s.current_entry ≡ some e
      → New entry s
      → New e s
  same_entry entry e s found f new is_nca fetched =
      let eq : e ≡ entry = cc in
      ap (λ (x : Entry). base x.content_id) eq
      ∙ new (sym (ap (λ (x : Entry). x.nca) eq) ∙ is_nca) fetched

  ended :
      (entry : Entry) (r : Bool × Sink W)
      → T r.1
      → (r.0 ≡ false → Stopped r.1)
      → Steps (and_then r (λ s. (true, advance s)))
  ended entry (true, s) t stopped = (t, fresh s)
  ended entry (false, s) t stopped = (t, stopped refl)

  begun_passes :
      (entry : Entry) (r : Bool × Sink W)
      → T r.1
      → (r.0 ≡ false → Stopped r.1)
      → (r.0 ≡ true → New entry r.1)
      → Steps
          (and_then r (λ begun. and_then (end_entry services entry begun) (λ s. (true, advance s))))
  begun_passes entry (true, s) t stopped new =
      ended entry (end_entry services entry s)
        (end_entry-Tracks services installed base laws entry s (new refl) t)
        (end_entry-failed services installed base laws entry s)
  begun_passes entry (false, s) t stopped new = (t, stopped refl)

  pass_empty-Steps : (entry : Entry) (s : Sink W) → T s → Steps (pass_empty services entry s)
  pass_empty-Steps entry s t =
      begun_passes entry (begin_entry services entry s)
        (begin_entry-Tracks services installed base laws entry s t)
        (begin_entry-failed services installed base laws entry s)
        (begin_entry-IsNew services installed base laws entry s t)

  then_Steps :
      (r : Bool × Sink W) (f : Sink W → Bool × Sink W)
      → Steps r
      → ((s : Sink W) → T s → IsReady s → Steps (f s))
      → Steps (and_then r f)
  then_Steps (true, s) f st next = next s st.0 st.1
  then_Steps (false, s) f st next = st

  pub skip_empty-Steps :
      (rest : List Entry) (s : Sink W) → T s → IsReady s → Steps (skip_empty services rest s)
  unfolding skip_empty
  skip_empty-Steps [] s t ready = (t, ready)
  skip_empty-Steps (entry ∷ rest) s t ready =
      if_cases Steps (entry.size == 0 && s.data_position == entry.offset) _ _
        (λ _.
          then_Steps (pass_empty services entry s) (λ s'. skip_empty services rest s')
            (pass_empty-Steps entry s t) (λ s' t' ready'. skip_empty-Steps rest s' t' ready'))
        (λ _. (t, ready))

  zero-IsSafe :
      (r : Bool × Sink W) (f : Sink W → ℕ × Sink W)
      → T r.1
      → (r.0 ≡ false → Stopped r.1)
      → (r.0 ≡ true → IsSafe (f r.1).1)
      → IsSafe (or_zero r f).1
  zero-IsSafe (true, s) f t stopped next = next refl
  zero-IsSafe (false, s) f t stopped next = record { tracks = t; ready = inl (stopped refl) }

  finish_part-IsSafe :
      (entry : Entry) (entry_offset amount : ℕ) (s : Sink W)
      → T s
      → New entry s
      → get_elem? s.entries s.current_entry ≡ some entry
      → IsSafe (finish_part services entry entry_offset amount s).1
  finish_part-IsSafe entry entry_offset amount s t new found =
      if_cases (λ (r : ℕ × Sink W). IsSafe r.1) (add_u64 entry_offset amount == entry.size) _ _
        (λ _.
          zero-IsSafe (end_entry services entry s) (λ e. (amount, advance e))
            (end_entry-Tracks services installed base laws entry s new t)
            (end_entry-failed services installed base laws entry s)
            (λ _. record {
              tracks = end_entry-Tracks services installed base laws entry s new t;
              ready = inr (fresh (end_entry services entry s).1);
            }))
        (λ _. record { tracks = t; ready = inr (λ e f started. same_entry entry e s found f new) })

  consume_part-IsSafe :
      (entry : Entry) (bytes : Bytes) (s : Sink W)
      → T s
      → New entry s
      → get_elem? s.entries s.current_entry ≡ some entry
      → IsSafe (consume_part services entry bytes s).1
  consume_part-IsSafe entry bytes s t new found =
      let entry_offset = s.data_position - entry.offset in
      let amount = min (length bytes) (sub_u64 entry.size entry_offset) in
      let w =
        consume_entry-Writes services installed base laws entry entry_offset (take amount bytes) s
          t in
      let after = (consume_entry services entry entry_offset (take amount bytes) s).1 in
      zero-IsSafe (consume_entry services entry entry_offset (take amount bytes) s)
        (λ consumed. finish_part services entry entry_offset amount (move_on amount consumed))
        w.tracks w.failing
        (λ _.
          finish_part-IsSafe entry entry_offset amount (move_on amount after) w.tracks
            (λ is_nca fetched. new is_nca (sym w.skip_eq ∙ fetched))
            (ap₂ get_elem? w.entries_eq w.current_eq ∙ found))

  start_entry-IsSafe :
      (entry : Entry) (bytes : Bytes) (s : Sink W)
      → T s
      → IsReady s
      → get_elem? s.entries s.current_entry ≡ some entry
      → IsSafe (or_zero (start_entry services entry s) (consume_part services entry bytes)).1
  start_entry-IsSafe entry bytes s t ready found =
      let keeps = begin_entry-keeps services installed base laws entry s in
      let t' = begin_entry-Tracks services installed base laws entry s t in
      if_cases (λ (r : Bool × Sink W). IsSafe (or_zero r (consume_part services entry bytes)).1)
        s.entry_started _ _
        (λ started. consume_part-IsSafe entry bytes s t (ready entry found started) found)
        (λ idle.
          zero-IsSafe (begin_entry services entry s) (consume_part services entry bytes) t'
            (begin_entry-failed services installed base laws entry s)
            (λ done.
              consume_part-IsSafe entry bytes (begin_entry services entry s).1 t'
                (begin_entry-IsNew services installed base laws entry s t done)
                (ap₂ get_elem? keeps.0 keeps.1 ∙ found)))

  consume_current-IsSafe :
      (entry : Option Entry) (bytes : Bytes) (s : Sink W)
      → get_elem? s.entries s.current_entry ≡ entry
      → T s
      → IsReady s
      → IsSafe (consume_current services entry bytes s).1
  consume_current-IsSafe none bytes s found t ready = record { tracks = t; ready = inr ready }
  consume_current-IsSafe (some entry) bytes s found t ready =
      if_cases (λ (r : ℕ × Sink W). IsSafe r.1) (ltb s.data_position entry.offset) _ _
        (λ _. record { tracks = t; ready = inr ready })
        (λ _. start_entry-IsSafe entry bytes s t ready found)

  after_empty :
      (bytes : Bytes) (r : Bool × Sink W)
      → Steps r
      → IsSafe
          (or_zero r
            (λ s. consume_current services (get_elem? s.entries s.current_entry) bytes s)).1
  after_empty bytes (true, s) st = consume_current-IsSafe _ bytes s refl st.0 st.1
  after_empty bytes (false, s) st = record { tracks = st.0; ready = inl st.1 }

  pub consume_data-IsSafe :
      (bytes : Bytes) (s : Sink W) → T s → IsReady s → IsSafe (consume_data services bytes s).1
  unfolding consume_data
  consume_data-IsSafe bytes s t ready =
      after_empty bytes _ (skip_empty-Steps (drop s.current_entry s.entries) s t ready)
