-- ===== src/Install/Restore/Ends.antt =====
-- The end of an entry registers its content (endEntry).
use transferencia_switch.Base.{
  ◌≡◌, ap, ◌∙◌, inl, inr, Bool, true, false, not, List, [], ◌∷◌, ◌++◌, arith, Bool-cases, if_cases,
}
use transferencia_switch.Base.Bytes.{Bytes, same, same-eq}
use transferencia_switch.Install.Header.{Entry}
use transferencia_switch.Install.Services.{Services, succeeded}
use transferencia_switch.Install.Sink.{Sink}
use transferencia_switch.Install.Entries.{end_entry, register_content}
use transferencia_switch.Install.Restore.{
  StorageLaws, Tracks, TracksSink, IsNew, same_contents, member-append,
}

module _ {W : Type 0} (services : Services W) (installed : Bytes → W → Bool) (base : Bytes → Bool)
    (laws : StorageLaws services installed) where
  flushed :
      (ids : List Bytes) (w : W)
      → Tracks services installed base laws ids w
      → Tracks services installed base laws ids (services.flush_place_holder w).1
  flushed ids w t =
      same_contents services installed base laws ids w _ (λ j. laws.flush_place_holder_keeps j w) t

  added :
      (id : Bytes) (ids : List Bytes) (w : W)
      → base id ≡ false
      → Tracks services installed base laws ids w
      → succeeded (services.register id id w).0 ≡ true
      → Tracks services installed base laws (ids ++ id ∷ []) (services.register id id w).1
  added id ids w absent t done = record {
    contents =
        λ j. ground (arith, laws.register_adds id id j w, t.contents j, member-append j id ids);
    new = λ j m. elim (Bool-cases (same j id)) [
      | inl e ↦ ap base (same-eq j id e) ∙ absent
      | inr e ↦ ground (arith, t.new j, member-append j id ids)
    ];
  }

  not_added :
      (id : Bytes) (ids : List Bytes) (w : W)
      → Tracks services installed base laws ids w
      → succeeded (services.register id id w).0 ≡ false
      → Tracks services installed base laws ids (services.register id id w).1
  not_added id ids w t undone =
      same_contents services installed base laws ids w _
        (λ j. ground (arith, laws.register_adds id id j w)) t

  registered :
      (entry : Entry) (s : Sink W)
      → base entry.content_id ≡ false
      → TracksSink services installed base laws s
      → TracksSink services installed base laws (register_content services entry s).1
  registered entry s absent t =
      let w = (services.flush_place_holder s.world).1 in
      let kept = flushed s.newly_registered s.world t.0 in
      if_cases (λ (r : Bool × Sink W). TracksSink services installed base laws r.1)
        (not (succeeded (services.flush_place_holder s.world).0)) _ _ (λ _. (kept, t.1, t.2, t.3))
        λ _.
          if_cases (λ (r : Bool × Sink W). TracksSink services installed base laws r.1)
            (not (succeeded (services.register entry.content_id entry.content_id w).0)) _ _
            (λ e.
              (not_added entry.content_id s.newly_registered w kept (ground arith), t.1, t.2, t.3))
            (λ e. (
              added entry.content_id s.newly_registered w absent kept (ground arith),
              t.1,
              t.2,
              t.3,
            ))

  pub end_entry-Tracks :
      (entry : Entry) (s : Sink W)
      → IsNew services installed base laws entry s
      → TracksSink services installed base laws s
      → TracksSink services installed base laws (end_entry services entry s).1
  unfolding end_entry
  end_entry-Tracks entry s new t = ground (arith, new, t, registered entry s)

  pub end_entry-failed :
      (entry : Entry) (s : Sink W)
      → (end_entry services entry s).0 ≡ false
      → (end_entry services entry s).1.failed ≡ true
  unfolding end_entry
  end_entry-failed entry s stopped = ground arith
