-- ===== src/Install/Finish/Tracks.antt =====
-- The stages of finish keep track of what is registered: importTickets and installMetadata leave
-- the contents of content storage alone.
use transferencia_switch.Base.{
  ℕ, ◌≡◌, refl, ◌∙◌, Bool, true, false, not, Option, none, some, List, [], ◌∷◌, length, ◌==◌,
  if◌then◌else◌, if_cases,
}
use transferencia_switch.Base.Bytes.{Bytes}
use transferencia_switch.Base.Results.{Result, yields, stops}
use transferencia_switch.Install.Services.{Services, MetaKey, succeeded}
use transferencia_switch.Install.MetaServices.{NcmLayout, MetaServices}
use transferencia_switch.Install.Sink.{Sink}
use transferencia_switch.Install.Entries.{and_then}
use transferencia_switch.Install.Cnmt.{Read, unread, bytes_of, read_result, read_cnmt, cnmt_bytes}
use transferencia_switch.Install.Meta.{
  PackagedHeader, read_packaged_header, build_install_meta, built, built_result,
  base_application_id,
}
use transferencia_switch.Install.Finish.{
  find_certificate, send_ticket, send_tickets, import_tickets, publish, and_commit, save_meta,
  save_built, install_packaged, install_metadata, install_all,
}
use transferencia_switch.Install.Restore.{StorageLaws, TracksSink, same_contents}

-- The calls of the last stage leave the contents of content storage alone.
pub record MetaLaws {W : Type 0} (meta : MetaServices W) (installed : Bytes → W → Bool)
    : Type 0 where
  pub open_es_keeps : (j : Bytes) (w : W) → installed j (meta.open_es w).1 ≡ installed j w
  pub import_ticket_keeps :
      (ticket certificate j : Bytes) (w : W)
      → installed j (meta.import_ticket ticket certificate w).1 ≡ installed j w
  pub set_meta_keeps :
      (key : MetaKey) (bytes j : Bytes) (w : W)
      → installed j (meta.set_meta key bytes w).1 ≡ installed j w
  pub push_application_record_keeps :
      (key : MetaKey) (id : ℕ) (j : Bytes) (w : W)
      → installed j (meta.push_application_record key id w).1 ≡ installed j w

module _ {W : Type 0} (layout : NcmLayout) (services : Services W) (meta : MetaServices W)
    (installed : Bytes → W → Bool) (base : Bytes → Bool) (laws : StorageLaws services installed)
    (meta_laws : MetaLaws meta installed) where
  abbrev T : Sink W → Type 0
  T s = TracksSink services installed base laws s

  pub then_tracks :
      (r : Bool × Sink W) (f : Sink W → Bool × Sink W)
      → T r.1
      → ((s : Sink W) → T s → T (f s).1)
      → T (and_then r f).1
  then_tracks (true, s) f t next = next s t
  then_tracks (false, s) f t next = t

  -- The services have moved on, and the contents are the same.
  moved :
      (s : Sink W) (w : W)
      → ((j : Bytes) → installed j w ≡ installed j s.world)
      → T s
      → T (record s { world = w })
  moved s w keeps (tracked, is_open, aborted, finished) = (
    same_contents services installed base laws s.newly_registered s.world w keeps tracked,
    is_open,
    aborted,
    finished,
  )

  -- A call that fails or succeeds, and has moved the services in both cases.
  either :
      (test : Bool) (failed done : Sink W)
      → T failed
      → T done
      → (λ (r : Bool × Sink W). T r.1) (if test then (false, failed) else (true, done))
  either true failed done a b = a
  either false failed done a b = b

  send_ticket-Tracks :
      (ticket : Bytes) (certificate : Option Bytes) (s : Sink W)
      → T s
      → T (send_ticket meta ticket certificate s).1
  send_ticket-Tracks ticket none s t = t
  send_ticket-Tracks ticket (some certificate) s t =
      let kept =
        moved s (meta.import_ticket ticket certificate s.world).1
          (λ j. meta_laws.import_ticket_keeps ticket certificate j s.world) t in
      either (not (succeeded (meta.import_ticket ticket certificate s.world).0)) _ _ kept kept

  send_tickets-Tracks :
      (tickets : List (Bytes × Bytes)) (s : Sink W) → T s → T (send_tickets meta tickets s).1
  unfolding send_tickets
  send_tickets-Tracks [] s t = t
  send_tickets-Tracks ((stem, ticket) ∷ rest) s t =
      then_tracks (send_ticket meta ticket (find_certificate stem s.certificates) s)
        (λ s'. send_tickets meta rest s')
        (send_ticket-Tracks ticket (find_certificate stem s.certificates) s t)
        (λ s' t'. send_tickets-Tracks rest s' t')

  pub import_tickets-Tracks : (s : Sink W) → T s → T (import_tickets meta s).1
  unfolding import_tickets
  import_tickets-Tracks s t =
      let kept = moved s (meta.open_es s.world).1 (λ j. meta_laws.open_es_keeps j s.world) t in
      if_cases (λ (r : Bool × Sink W). T r.1) (not (length s.tickets == length s.certificates)) _ _
        (λ _. t)
        λ _.
          if_cases (λ (r : Bool × Sink W). T r.1) (length s.tickets == 0) _ _ (λ _. t)
            λ _.
              if_cases (λ (r : Bool × Sink W). T r.1) (not (succeeded (meta.open_es s.world).0)) _ _
                (λ _. kept)
                (λ _.
                  send_tickets-Tracks s.tickets (record s { world = (meta.open_es s.world).1 })
                    kept)

  publish-Tracks :
      (header : PackagedHeader) (key : MetaKey) (s : Sink W)
      → T s
      → T (publish layout services meta header key s).1
  publish-Tracks header key s t =
      let id = base_application_id layout header.title_id header.type in
      let kept =
        moved s (meta.push_application_record key id s.world).1
          (λ j. meta_laws.push_application_record_keeps key id j s.world) t in
      either (not (succeeded (meta.push_application_record key id s.world).0)) _ _ kept kept

  and_commit-keeps :
      (r : ℕ × W) (j : Bytes) → installed j (and_commit layout services meta r).1 ≡ installed j r.1
  and_commit-keeps (result, w) j =
      if_cases (λ (q : ℕ × W). installed j q.1 ≡ installed j w) (succeeded result) _ _
        (λ _. laws.commit_database_keeps j w) (λ _. refl)

  save_meta-Tracks :
      (bytes : Bytes) (key : MetaKey) (s : Sink W)
      → T s
      → T (save_meta layout services meta bytes key s).1
  save_meta-Tracks bytes key s t =
      let w = (services.open_database s.world).1 in
      let saved = (and_commit layout services meta (meta.set_meta key bytes w)) in
      let opened = moved s w (λ j. laws.open_database_keeps j s.world) t in
      let kept =
        moved s (services.close_database saved.1)
          (λ j.
            laws.close_database_keeps j saved.1
            ∙ (and_commit-keeps (meta.set_meta key bytes w) j
                ∙ (meta_laws.set_meta_keeps key bytes j w ∙ laws.open_database_keeps j s.world)))
          t in
      if_cases (λ (r : Bool × Sink W). T r.1) (not (succeeded (services.open_database s.world).0)) _
        _ (λ _. opened) (λ _. either (not (succeeded saved.0)) _ _ kept kept)

  save_built-Tracks :
      (packaged : Bytes) (r : Result (Bytes × MetaKey)) (s : Sink W)
      → T s
      → T (save_built layout services meta packaged (built_result layout services r s)).1
  save_built-Tracks packaged (stops message) s t = t
  save_built-Tracks packaged (yields (bytes, key)) s t =
      then_tracks (save_meta layout services meta bytes key s)
        (publish layout services meta (read_packaged_header packaged) key)
        (save_meta-Tracks bytes key s t) (publish-Tracks (read_packaged_header packaged) key)

  install_packaged-Tracks :
      (cnmt_id : Bytes) (r : Read) (s : Sink W)
      → T s
      → T (install_packaged layout services meta cnmt_id (read_result meta r s)).1
  unfolding build_install_meta
  install_packaged-Tracks cnmt_id (unread detail) s t = t
  install_packaged-Tracks cnmt_id (bytes_of packaged) s t =
      save_built-Tracks packaged (built layout services packaged cnmt_id s.entries s.world) s t

  pub install_all-Tracks :
      (cnmt_ids : List Bytes) (s : Sink W) → T s → T (install_all layout services meta cnmt_ids s).1
  unfolding install_all install_metadata read_cnmt
  install_all-Tracks [] s t = t
  install_all-Tracks (cnmt_id ∷ cnmt_ids) s t =
      then_tracks (install_packaged layout services meta cnmt_id (read_cnmt meta cnmt_id s))
        (λ s'. install_all layout services meta cnmt_ids s')
        (install_packaged-Tracks cnmt_id (cnmt_bytes meta cnmt_id s.world) s t)
        (λ s' t'. install_all-Tracks cnmt_ids s' t')
