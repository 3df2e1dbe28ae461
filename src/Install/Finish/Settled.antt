-- ===== src/Install/Finish/Settled.antt =====
-- finish either completes an installation or gives it up.
use transferencia_switch.Base.{
  ◌≡◌, refl, sym, ap, ◌∙◌, ◌⊎◌, inl, inr, Bool, true, false, ◌||◌, ◌&&◌, length, drop, ltb, ◌==◌,
  arith, if_cases,
}
use transferencia_switch.Base.Bytes.{Bytes}
use transferencia_switch.Install.Header.{member}
use transferencia_switch.Install.Services.{Services}
use transferencia_switch.Install.MetaServices.{NcmLayout, MetaServices}
use transferencia_switch.Install.Sink.{Sink}
use transferencia_switch.Install.Entries.{and_then}
use transferencia_switch.Install.Data.{skip_empty}
use transferencia_switch.Install.Rollback.{close_place_holder, rollback, abort}
use transferencia_switch.Install.Finish.{
  import_tickets, install_all, commit, is_incomplete, finish_entries, finish,
}
use transferencia_switch.Install.Restore.{StorageLaws, Tracks, TracksSink}
use transferencia_switch.Install.Undo.{IsFresh}
use transferencia_switch.Install.Undo.Steps.{IsReady, Stopped, Steps, skip_empty-Steps}
use transferencia_switch.Install.Undo.Rollbacks.{left_over, rollback_restores, abort_restores}
use transferencia_switch.Install.Session.{Session, IsLive, session-IsLive, fresh-IsLive}
use transferencia_switch.Install.Finish.Tracks.{
  MetaLaws, then_tracks, import_tickets-Tracks, install_all-Tracks,
}

module _ {W : Type 0} (layout : NcmLayout) (services : Services W) (meta : MetaServices W)
    (installed : Bytes → W → Bool) (base : Bytes → Bool) (laws : StorageLaws services installed)
    (meta_laws : MetaLaws meta installed) where
  abbrev T : Sink W → Type 0
  T s = TracksSink services installed base laws s

  -- What a rollback leaves is tracked from there on.
  rollback-Tracks :
      (u : Sink W)
      → T u
      → TracksSink services installed
          (λ j. installed j (rollback services u).world)
          laws
          (rollback services u)
  unfolding rollback member
  rollback-Tracks u (tracked, is_open, aborted, finished) =
      rw is_open (record { contents = λ j. ground arith; new = λ j e. cc }, refl, aborted, finished)

  again :
      (u : Sink W) (j : Bytes)
      → T u
      → installed j (abort services (rollback services u)).world
        ≡ installed j (rollback services u).world
  unfolding rollback member
  again u j t = ground (
    arith,
    t.1,
    abort_restores services installed (λ j. installed j (rollback services u).world) laws
        (rollback services u) j (rollback-Tracks u t),
  )

  -- How an installation ends: given up, where an abort still finds what to restore; rolled back; or
  -- complete.
  abbrev Settled : Bool × Sink W → Type 0
  Settled (false, s) = T s ⊎ ((u : Sink W) × T u × (s ≡ rollback services u))
  Settled (true, s) =
      (s.finished ≡ true) × Tracks services installed base laws s.newly_registered s.world

  commit-Settled : (r : Bool × Sink W) → T r.1 → Settled (commit layout services meta r)
  commit-Settled (false, s) t = inr (s, t, refl)
  commit-Settled (true, s) t = (refl, t.0)

  finish_entries-Settled : (s : Sink W) → T s → Settled (finish_entries layout services meta s)
  finish_entries-Settled s t =
      if_cases Settled (is_incomplete layout services meta s) _ _ (λ _. inl t)
        λ _.
          if_cases Settled (length s.cnmt_ids == 0 || ltb 32 (length s.cnmt_ids)) _ _ (λ _. inl t)
            (λ _.
              commit-Settled
                (and_then (import_tickets meta s)
                  (λ s'. install_all layout services meta s'.cnmt_ids s'))
                (then_tracks layout services meta installed base laws meta_laws
                  (import_tickets meta s) (λ s'. install_all layout services meta s'.cnmt_ids s')
                  (import_tickets-Tracks layout services meta installed base laws meta_laws s t)
                  (λ s' t'.
                    install_all-Tracks layout services meta installed base laws meta_laws
                      s'.cnmt_ids s' t')))

  passed-Settled :
      (r : Bool × Sink W)
      → Steps services installed base laws r
      → Settled (and_then r (finish_entries layout services meta))
  passed-Settled (true, s) st = finish_entries-Settled s st.0
  passed-Settled (false, s) st = inl st.0

  finish-Settled :
      (s : Sink W) → IsLive services installed base laws s → Settled (finish layout services meta s)
  unfolding finish
  finish-Settled s live =
      if_cases Settled s.failed _ _ (λ _. inl live.tracks)
        (λ going. passed-Settled (skip_empty services (drop s.current_entry s.entries) s) (
          skip_empty-Steps services installed base laws (drop s.current_entry s.entries) s
            live.tracks (ready going live.ready)))
    where
      ready :
          s.failed ≡ false
          → Stopped services installed base laws s ⊎ IsReady services installed base laws s
          → IsReady services installed base laws s
      ready going (inl stopped) = cc
      ready going (inr r) = r

  -- How an installation stands behind its end: given up, with nothing rolled back yet or after a
  -- rollback of a sink `u`, in which the contents were those at the start and the registered ones; or
  -- complete.
  pub IsSettled : Bytes → Bool × Sink W → Type 0
  IsSettled id (false, s) =
      (installed id (abort services s).world
        ≡ (base id || left_over services id (close_place_holder services s)))
      ⊎ ((u : Sink W) × (installed id u.world ≡ (base id || member id u.newly_registered))
          × (s ≡ rollback services u)
          × (installed id s.world ≡ (base id || left_over services id u))
          × (installed id (abort services s).world ≡ installed id s.world))
  IsSettled id (true, s) =
      (installed id s.world ≡ (base id || member id s.newly_registered))
      × ((base id && member id s.newly_registered) ≡ false)
      × (abort services s ≡ s)

  rolled_back :
      (id : Bytes) (s u : Sink W) → T u → s ≡ rollback services u → IsSettled id (false, s)
  unfolding IsSettled
  rolled_back id s u t e = inr (
    u,
    t.0.contents id,
    e,
    ap (λ (x : Sink W). installed id x.world) e
        ∙ rollback_restores services installed base laws u id t,
    ap (λ (x : Sink W). installed id (abort services x).world) e
        ∙ again u id t
        ∙ sym (ap (λ (x : Sink W). installed id x.world) e),
  )

  settled : (id : Bytes) (r : Bool × Sink W) → Settled r → IsSettled id r
  unfolding IsSettled abort
  settled id (false, s) (inl t) = inl (abort_restores services installed base laws s id t)
  settled id (false, s) (inr (u, t, e)) = rolled_back id s u t e
  settled id (true, s) (finished, tracked) =
      (tracked.contents id, ground (arith, tracked.new id), ground (arith, finished))

  pub finish-IsSettled :
      (id : Bytes) (s : Sink W)
      → IsLive services installed base laws s
      → IsSettled id (finish layout services meta s)
  finish-IsSettled id s live = settled id (finish layout services meta s) (finish-Settled s live)

-- After any sequence of writes to a fresh sink, finish settles the installation. Where it answers
-- false, nothing is rolled back yet and an abort leaves the contents that were there when the sink was
-- fresh, and of the registered ones those whose deletions all answered an error; or finish has rolled
-- back to just that, and an abort changes no contents any more. Where it answers true, the contents
-- are those at the start and the ones newly registered, none of which was there before, and an abort
-- that follows changes nothing. The services keep the laws of content storage, and may answer any call
-- with an error.
pub finish-Session :
    {W : Type 0} (layout : NcmLayout) (services : Services W) (meta : MetaServices W)
    (installed : Bytes → W → Bool) (s t : Sink W) (id : Bytes)
    (laws : StorageLaws services installed) (meta_laws : MetaLaws meta installed)
    → IsFresh s
    → Session services s t
    → IsSettled layout services meta installed
        (λ j. installed j s.world)
        laws
        meta_laws
        id
        (finish layout services meta t)
finish-Session layout services meta installed s t id laws meta_laws f session =
    finish-IsSettled layout services meta installed (λ j. installed j s.world) laws meta_laws id t
      (session-IsLive services installed (λ j. installed j s.world) laws s t
        (fresh-IsLive services installed s laws f) session)
