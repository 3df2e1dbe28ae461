-- ===== src/Install/Finish.antt =====
-- importTickets, installMetadata and finish of sd_install_receiver.cpp.
pub mod Tracks
pub mod Settled
use transferencia_switch.Base.{
  ℕ, ◌+◌, Bool, true, false, not, ◌&&◌, ◌||◌, Option, none, some, List, [], ◌∷◌, ◌++◌, length, drop,
  ltb, ◌==◌, if◌then◌else◌,
}
use transferencia_switch.Base.Bytes.{Bytes, same}
use transferencia_switch.Install.Services.{Services, MetaKey, succeeded}
use transferencia_switch.Install.MetaServices.{NcmLayout, MetaServices}
use transferencia_switch.Install.Sink.{
  Sink, Detail, already_installed, installed, partly_installed, fail, fail_result,
}
use transferencia_switch.Install.Entries.{and_then}
use transferencia_switch.Install.Data.{skip_empty}
use transferencia_switch.Install.Rollback.{rollback}
use transferencia_switch.Install.Cnmt.{read_cnmt}
use transferencia_switch.Install.Meta.{
  read_packaged_header, base_application_id, build_install_meta, PackagedHeader,
}

-- `certificates_.find(stem)`
unfoldable pub find_certificate : Bytes → List (Bytes × Bytes) → Option Bytes
find_certificate stem [] = none
find_certificate stem ((key, certificate) ∷ rest) =
    if same key stem then some certificate else find_certificate stem rest

module _ {W : Type 0} (meta : MetaServices W) where
  abbrev pub send_ticket : Bytes → Option Bytes → Sink W → Bool × Sink W
  send_ticket ticket none s = fail "certificado de ticket ausente" s
  send_ticket ticket (some certificate) s =
      let (result, world) = meta.import_ticket ticket certificate s.world in
      if not (succeeded result)
      then fail_result "ES rechazo el ticket" result (record s { world = world })
      else (true, record s { world = world })

  -- The loop over the tickets.
  unfoldable pub send_tickets : List (Bytes × Bytes) → Sink W → Bool × Sink W
  send_tickets [] s = (true, s)
  send_tickets ((stem, ticket) ∷ rest) s =
      and_then (send_ticket ticket (find_certificate stem s.certificates) s) (send_tickets rest)

  -- `importTickets`
  unfoldable pub import_tickets : Sink W → Bool × Sink W
  import_tickets s =
      let (result, world) = meta.open_es s.world in
      if not (length s.tickets == length s.certificates)
      then fail "cantidad de tickets y certificados no coincide" s
      else if length s.tickets == 0
      then (true, s)
      else if not (succeeded result)
      then fail_result "no se pudo abrir ES" result (record s { world = world })
      else send_tickets s.tickets (record s { world = world })

module _ {W : Type 0} (layout : NcmLayout) (services : Services W) (meta : MetaServices W) where
  abbrev pub publish : PackagedHeader → MetaKey → Sink W → Bool × Sink W
  publish header key s =
      let (result, world) =
        meta.push_application_record key (base_application_id layout header.title_id header.type)
          s.world in
      if not (succeeded result)
      then fail_result "no se pudo publicar ApplicationRecord" result (record s { world = world })
      else (true, record s { world = world })

  -- The result of a call and the commit that follows it if it succeeded.
  abbrev pub and_commit : ℕ × W → ℕ × W
  and_commit (result, w) = if succeeded result then services.commit_database w else (result, w)

  abbrev pub save_meta : Bytes → MetaKey → Sink W → Bool × Sink W
  save_meta bytes key s =
      let (opened, w) = services.open_database s.world in
      let (result, saved) = and_commit (meta.set_meta key bytes w) in
      let closed = services.close_database saved in
      if not (succeeded opened)
      then fail_result "no se pudo abrir ContentMetaDatabase" opened (record s { world = w })
      else if not (succeeded result)
      then fail_result "no se pudo confirmar ContentMeta" result (record s { world = closed })
      else (true, record s { world = closed; metadata_keys = s.metadata_keys ++ key ∷ [] })

  abbrev pub save_built : Bytes → Option (Bytes × MetaKey) × Sink W → Bool × Sink W
  save_built packaged (none, s) = (false, s)
  save_built packaged (some (bytes, key), s) =
      and_then (save_meta bytes key s) (publish (read_packaged_header packaged) key)

  abbrev pub install_packaged : Bytes → Option Bytes × Sink W → Bool × Sink W
  install_packaged cnmt_id (none, s) = (false, s)
  install_packaged cnmt_id (some packaged, s) =
      save_built packaged (build_install_meta layout services packaged cnmt_id s)

  -- `installMetadata`
  unfoldable pub install_metadata : Bytes → Sink W → Bool × Sink W
  install_metadata cnmt_id s = install_packaged cnmt_id (read_cnmt meta cnmt_id s)

  -- The loop over the metadata of the package.
  unfoldable pub install_all : List Bytes → Sink W → Bool × Sink W
  install_all [] s = (true, s)
  install_all (cnmt_id ∷ cnmt_ids) s = and_then (install_metadata cnmt_id s) (install_all cnmt_ids)

  abbrev pub outcome : Sink W → Detail
  outcome s =
      if length s.newly_registered == 0 && ltb 0 s.existing_nca_count
      then already_installed s.package_type
      else if ltb 0 s.existing_nca_count
      then partly_installed s.package_type (length s.newly_registered) s.existing_nca_count
      else installed s.package_type

  -- `rollback(); return false;`, or the end of finish.
  abbrev pub commit : Bool × Sink W → Bool × Sink W
  commit (false, s) = (false, rollback services s)
  commit (true, s) = (true, record s { finished = true; detail = outcome s })

  abbrev pub is_incomplete : Sink W → Bool
  is_incomplete s =
      not (s.received == s.expected_size)
      || not s.header_parsed
      || not (s.current_entry == length s.entries)

  abbrev pub finish_entries : Sink W → Bool × Sink W
  finish_entries s =
      if is_incomplete s
      then fail "paquete incompleto" s
      else if length s.cnmt_ids == 0 || ltb 32 (length s.cnmt_ids)
      then fail "cantidad de CNMT no compatible" s
      else commit (and_then (import_tickets meta s) (λ t. install_all t.cnmt_ids t))

  -- `finish`
  unfoldable pub finish : Sink W → Bool × Sink W
  finish s =
      let passed = skip_empty services (drop s.current_entry s.entries) s in
      if s.failed then (false, s) else and_then passed finish_entries
