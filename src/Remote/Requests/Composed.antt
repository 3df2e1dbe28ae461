-- ===== src/Remote/Requests/Composed.antt =====
-- The use cases over the DBI client.
use transferencia_switch.Base.{
  ℕ, ◌^◌, ◌≡◌, ◌<◌, refl, true, false, Option, none, some, [], ◌∷◌, ◌++◌, length, ◌==◌, arith, inl,
  inr, Option-cases, get_elem?,
}
use mathlib.Core.Path.{subst}
use transferencia_switch.Base.Bytes.{Bytes}
use transferencia_switch.Domain.Status.{Status, ts_ok}
use transferencia_switch.Domain.Catalog.{FileCatalog, parse, NameResult, copy_name}
use transferencia_switch.Domain.Catalog.Counted.{AllAllowed, catalog_of, parse_cases}
use transferencia_switch.Domain.Catalog.Lines.{names, copy_name_lem}
use transferencia_switch.Remote.Runs.{Answer, failed, done}
use transferencia_switch.Remote.Transport.{Transport, Adapter}
use transferencia_switch.Remote.Codec.{dbi_response, dbi_list, make_header}
use transferencia_switch.Remote.Exact.Streams.{StreamLaws}
use transferencia_switch.Remote.Exact.Reliable.{ReliableLaws}
use transferencia_switch.Remote.Client.{fetch_catalog, read_file_range, file_name_capacity}
use transferencia_switch.Remote.Client.Served.{fetch_catalog_served}
use transferencia_switch.Remote.Client.Range.{RangeWire, read_file_range-Wire}
use transferencia_switch.Remote.Requests.{
  FileProbe, dbi_catalog_port, dbi_file_port, listed, list_remote_files, probed, probe_named,
  probe_remote_file,
}

accepted :
    (content : Bytes)
    → AllAllowed content
    → parse (some content) ≡ (ts_ok, some (catalog_of content))
accepted content all = elim (parse_cases content) [
  | inl (_, e) ↦ e
  | inr (bad, _) ↦ absurd (bad all)
]

copied_ok :
    (catalog : FileCatalog) (index : ℕ) (status : Status) (name : Bytes)
    → copy_name catalog index file_name_capacity ≡ (status, some name)
    → copy_name catalog index file_name_capacity ≡ (ts_ok, some name)
copied_ok catalog index status name e =
    elim (Option-cases (get_elem? (names catalog.content) index)) [
      | inl absent ↦ ground (arith, copy_name_lem catalog index file_name_capacity, absent)
      | inr (found_name, found) ↦
          ground (arith, copy_name_lem catalog index file_name_capacity, found)
    ]

module _ {X : Type 0} (transport : Transport X) (input output : X → Bytes)
    (laws : StreamLaws transport input output) where
  -- Over a transport that is a stream and works, a peer that answers with the text of a catalog,
  -- shorter than the buffer, is listed: the catalog of exactly that text is parsed.
  pub list_remote_files_served :
      (reliable : ReliableLaws transport input) (capacity : ℕ) (adapter : Adapter X)
      (content rest : Bytes)
      → transport.is_null ≡ false
      → transport.is_complete ≡ true
      → length content < capacity
      → length content < 2 ^ 32
      → AllAllowed content
      → input adapter.context
        ≡ make_header dbi_response dbi_list (length content) ++ (content ++ rest)
      → (list_remote_files (dbi_catalog_port transport) capacity adapter).0
        ≡ (ts_ok, some (catalog_of content))
  unfolding list_remote_files
  list_remote_files_served reliable capacity adapter content rest there complete fits small all e =
      let (answered, _) =
        fetch_catalog_served transport input output laws reliable capacity adapter content rest
          there complete fits small e in
      let some_room : (capacity == 0) ≡ false = ground (arith, fits) in
      rw some_room (go (fetch_catalog transport capacity adapter) answered)
    where
      go :
          (r : Answer Bytes × Adapter X)
          → r.0 ≡ done content
          → (listed capacity r).0 ≡ (ts_ok, some (catalog_of content))
      go (failed status, a) answered = cc
      go (done received, a) answered =
          let same : content ≡ received = cc in
          subst
            (λ (b : Bytes). (listed capacity (done b, a)).0 ≡ (ts_ok, some (catalog_of content)))
            same (ground (arith, fits, accepted content all))

  abbrev Probed : FileCatalog → ℕ → Adapter X → FileProbe → Adapter X → Type 0
  Probed catalog index adapter probe after =
      (copy_name catalog index file_name_capacity ≡ (ts_ok, some probe.name))
      × RangeWire transport input output laws probe.name 0 1 adapter.context (probe.first_byte ∷ [])
          after.context

  go_probed :
      (catalog : FileCatalog) (index : ℕ) (adapter : Adapter X) (name : Bytes)
      (r : Answer Bytes × Adapter X) (probe : FileProbe)
      → copy_name catalog index file_name_capacity ≡ (ts_ok, some name)
      → ((bytes : Bytes)
          → r.0 ≡ done bytes
          → RangeWire transport input output laws name 0 1 adapter.context bytes r.1.context)
      → (probed name r).0 ≡ (ts_ok, some probe)
      → Probed catalog index adapter probe (probed name r).1
  go_probed catalog index adapter name (failed status, a) probe copied wire e = cc
  go_probed catalog index adapter name (done [], a) probe copied wire e = cc
  go_probed catalog index adapter name (done (byte ∷ more ∷ bytes), a) probe copied wire e = cc
  go_probed catalog index adapter name (done (byte ∷ []), a) probe copied wire e =
      subst (λ (p : FileProbe). Probed catalog index adapter p a) (same_probe _ _ e)
        (copied, wire (byte ∷ []) refl)
    where
      same_probe :
          (p q : FileProbe)
          → (◌≡◌ {A = Status × Option FileProbe} (ts_ok, some p) (ts_ok, some q))
          → p ≡ q
      same_probe p q e = cc

  -- A probe that succeeds, over a transport that is a stream: the name is the one that
  -- ts_catalog_copy_name copies for the index, and the byte is the one that the peer sent for it,
  -- after a request for one byte at offset 0 of the file of that name.
  pub probe_remote_file-Wire :
      (catalog : FileCatalog) (index : ℕ) (adapter : Adapter X) (probe : FileProbe)
      → (probe_remote_file (dbi_file_port transport) catalog index adapter).0 ≡ (ts_ok, some probe)
      → (copy_name catalog index file_name_capacity ≡ (ts_ok, some probe.name))
        × RangeWire transport input output laws probe.name 0 1 adapter.context
            (probe.first_byte ∷ [])
            (probe_remote_file (dbi_file_port transport) catalog index adapter).1.context
  unfolding probe_remote_file
  probe_remote_file-Wire catalog index adapter probe e =
      go (copy_name catalog index file_name_capacity) refl e
    where
      go :
          (r : NameResult)
          → copy_name catalog index file_name_capacity ≡ r
          → (probe_named (dbi_file_port transport) r adapter).0 ≡ (ts_ok, some probe)
          → Probed catalog index adapter probe (probe_named (dbi_file_port transport) r adapter).1
      go (status, none) copied e' = cc
      go (status, some name) copied e' =
          go_probed catalog index adapter name (read_file_range transport name 0 1 1 adapter) probe
            (copied_ok catalog index status name copied)
            (λ bytes. read_file_range-Wire transport input output laws name 0 1 1 adapter bytes) e'
