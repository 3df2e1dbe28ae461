-- ===== src/Install/Restore/Writes.antt =====
-- Writing the bytes of an entry keeps track of what is registered (consumeEntry).
use transferencia_switch.Base.{
  ℕ, ◌≡◌, refl, ◌∙◌, Bool, true, false, not, ◌&&◌, ◌||◌, List, ◌++◌, length, take, drop, ltb, ◌==◌,
  if_cases, String, min, ◌+◌, ◌-◌,
}
use transferencia_switch.Base.Words.{u32_at}
use transferencia_switch.Base.Bytes.{Bytes}
use transferencia_switch.Install.Header.{Entry}
use transferencia_switch.Install.Services.{Services, succeeded}
use transferencia_switch.Install.Sink.{Sink, Detail, fail_with}
use transferencia_switch.Install.Entries.{
  consume_entry, and_then, write_place_holder, write_header, write_rest, consume_nca_header,
  convert_gamecard_nca_header, is_xci, nca_header_size,
}
use transferencia_switch.Install.Restore.{StorageLaws, Tracks, TracksSink, same_contents}

module _ {W : Type 0} (services : Services W) (installed : Bytes → W → Bool) (base : Bytes → Bool)
    (laws : StorageLaws services installed) where
  written :
      (entry : Entry) (offset : ℕ) (bytes : Bytes) (ids : List Bytes) (w : W)
      → Tracks services installed base laws ids w
      → Tracks services installed base laws ids
          (services.write_place_holder entry.content_id offset bytes w).1
  written entry offset bytes ids w t =
      same_contents services installed base laws ids w _
        (λ j. laws.write_place_holder_keeps entry.content_id offset bytes j w) t

  -- What a call that writes bytes may do: it tracks, it fails only with the flag set, and it leaves
  -- the entries, the current one and its mode.
  pub record Writes (s : Sink W) (r : Bool × Sink W) : Type 0 where
    pub tracks : TracksSink services installed base laws r.1
    pub failing : r.0 ≡ false → r.1.failed ≡ true
    pub entries_eq : r.1.entries ≡ s.entries
    pub current_eq : r.1.current_entry ≡ s.current_entry
    pub skip_eq : r.1.skip_active_nca ≡ s.skip_active_nca

  write_place_holder-Writes :
      (entry : Entry) (offset : ℕ) (bytes : Bytes) (message : String) (s : Sink W)
      → TracksSink services installed base laws s
      → Writes s (write_place_holder services entry offset bytes message s)
  write_place_holder-Writes entry offset bytes message s t =
      if_cases (Writes s)
        (not (succeeded (services.write_place_holder entry.content_id offset bytes s.world).0)) _ _
        (λ _. record {
          tracks = (kept, t.1, t.2, t.3);
          failing = λ _. refl;
          entries_eq = refl;
          current_eq = refl;
          skip_eq = refl;
        })
        (λ _. record {
          tracks = (kept, t.1, t.2, t.3);
          failing = λ e. cc;
          entries_eq = refl;
          current_eq = refl;
          skip_eq = refl;
        })
    where
      kept :
          Tracks services installed base laws s.newly_registered
            (services.write_place_holder entry.content_id offset bytes s.world).1
      kept = written entry offset bytes s.newly_registered s.world t.0

  Writes-refl : (s : Sink W) → TracksSink services installed base laws s → Writes s (true, s)
  Writes-refl s t = record {
    tracks = t;
    failing = λ e. cc;
    entries_eq = refl;
    current_eq = refl;
    skip_eq = refl;
  }

  Writes-fail : (s s' : Sink W) (m : Detail) → Writes s (true, s') → Writes s (fail_with m s')
  Writes-fail s s' m w = record {
    tracks = w.tracks;
    failing = λ _. refl;
    entries_eq = w.entries_eq;
    current_eq = w.current_eq;
    skip_eq = w.skip_eq;
  }

  Writes-then :
      (s : Sink W) (r : Bool × Sink W) (f : Sink W → Bool × Sink W)
      → Writes s r
      → (TracksSink services installed base laws r.1 → Writes r.1 (f r.1))
      → Writes s (and_then r f)
  Writes-then s (true, s') f w next =
      let n = next w.tracks in
      record {
        tracks = n.tracks;
        failing = n.failing;
        entries_eq = n.entries_eq ∙ w.entries_eq;
        current_eq = n.current_eq ∙ w.current_eq;
        skip_eq = n.skip_eq ∙ w.skip_eq;
      }
  Writes-then s (false, s') f w next = w

  convert-Writes :
      (s : Sink W)
      → TracksSink services installed base laws s
      → Writes s (convert_gamecard_nca_header services s)
  unfolding convert_gamecard_nca_header
  convert-Writes s t =
      if_cases (Writes s) (not (length s.nca_header_buffer == nca_header_size)) _ _
        (λ _. Writes-fail s s _ (Writes-refl s t))
        λ _.
          if_cases (Writes s)
            (not
              (u32_at (services.xts_decrypt s.header_key s.nca_header_buffer) 0x200 == 0x3341434E))
            _ _ (λ _. Writes-fail s s _ (Writes-refl s t))
            (λ _. record {
              tracks = t;
              failing = λ e. cc;
              entries_eq = refl;
              current_eq = refl;
              skip_eq = refl;
            })

  write_rest-Writes :
      (entry : Entry) (offset : ℕ) (rest : Bytes) (s : Sink W)
      → TracksSink services installed base laws s
      → Writes s (write_rest services entry offset rest s)
  write_rest-Writes entry offset rest s t =
      if_cases (Writes s) (ltb 0 (length rest)) _ _
        (λ _. write_place_holder-Writes entry offset rest _ s t) (λ _. Writes-refl s t)

  abbrev header_message : String
  header_message = "fallo escribiendo cabecera NCA"

  write_header-Writes :
      (entry : Entry) (s : Sink W)
      → TracksSink services installed base laws s
      → Writes s (write_header services entry s)
  write_header-Writes entry s t =
      if_cases (Writes s) (length s.nca_header_buffer == nca_header_size) _ _
        (λ _.
          Writes-then s (convert_gamecard_nca_header services s)
            (λ s'. write_place_holder services entry 0 s'.nca_header_buffer header_message s')
            (convert-Writes s t)
            (λ t'.
              write_place_holder-Writes entry 0
                (convert_gamecard_nca_header services s).1.nca_header_buffer header_message
                (convert_gamecard_nca_header services s).1 t'))
        (λ _. Writes-refl s t)

  consume_nca_header-Writes :
      (entry : Entry) (offset : ℕ) (bytes : Bytes) (s : Sink W)
      → TracksSink services installed base laws s
      → Writes s (consume_nca_header services entry offset bytes s)
  consume_nca_header-Writes entry offset bytes s t =
      if_cases (Writes s) (not (length s.nca_header_buffer == offset)) _ _
        (λ _. Writes-fail s s _ (Writes-refl s t))
        (λ _.
          Writes-then s (write_header services entry buffered)
            (write_rest services entry (offset + amount) (drop amount bytes)) buffered_Writes
            (λ t'.
              write_rest-Writes entry (offset + amount) (drop amount bytes)
                (write_header services entry buffered).1 t'))
    where
      amount : ℕ
      amount = min (length bytes) (nca_header_size - length s.nca_header_buffer)

      buffered : Sink W
      buffered = record s { nca_header_buffer = s.nca_header_buffer ++ take amount bytes }

      buffered_Writes : Writes s (write_header services entry buffered)
      buffered_Writes =
          let w = write_header-Writes entry buffered t in
          record {
            tracks = w.tracks;
            failing = w.failing;
            entries_eq = w.entries_eq;
            current_eq = w.current_eq;
            skip_eq = w.skip_eq;
          }

  pub consume_entry-Writes :
      (entry : Entry) (offset : ℕ) (bytes : Bytes) (s : Sink W)
      → TracksSink services installed base laws s
      → Writes s (consume_entry services entry offset bytes s)
  unfolding consume_entry
  consume_entry-Writes entry offset bytes s t =
      if_cases (Writes s) (entry.nca && not s.skip_active_nca) _ _
        (λ _.
          if_cases (Writes s)
            (is_xci s.package_type && not entry.cnmt && ltb offset nca_header_size) _ _
            (λ _. consume_nca_header-Writes entry offset bytes s t)
            (λ _. write_rest-Writes entry offset bytes s t))
        (λ _.
          if_cases (Writes s) (entry.ticket || entry.certificate) _ _
            (λ _. record {
              tracks = t;
              failing = λ e. cc;
              entries_eq = refl;
              current_eq = refl;
              skip_eq = refl;
            })
            (λ _. Writes-refl s t))
