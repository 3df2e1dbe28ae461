-- ===== src/Remote/Client/Wire.antt =====
-- What a request that succeeds has sent and received, over a transport that is a stream.
use transferencia_switch.Base.{
  ℕ, ◌≡◌, ◌<◌, sym, ap, ◌∙◌, Bool, true, false, [], ◌++◌, length, ltb, leb, ◌==◌, if◌then◌else◌,
  arith, Bool-cases, inl, inr,
}
use mathlib.Core.Path.{subst}
use mathlib.Core.List.{append-nil}
use transferencia_switch.Base.Bytes.{Bytes}
use transferencia_switch.Base.Words.{u32_at}
use transferencia_switch.Domain.Status.{
  Status, ts_ok, ts_invalid_argument, ts_buffer_too_small, is_ok,
}
use transferencia_switch.Remote.Transport.{Transport, Adapter}
use transferencia_switch.Remote.Runs.{Answer, failed, done, Run, Leaves, pass-Leaves}
use transferencia_switch.Remote.Codec.{
  dbi_header_size, dbi_request, dbi_response, dbi_ack, dbi_list, make_header, validate_header,
}
use transferencia_switch.Remote.Exact.{read_exact, write_exact}
use transferencia_switch.Remote.Exact.Streams.{StreamLaws}
use transferencia_switch.Remote.Client.{
  ensure_connected, conclude, with_connection, payload, catalog_exchange, fetch_catalog,
}
use transferencia_switch.Remote.Client.Exchanges.{
  Wire, still, sends, receives, check-Leaves, stop_if-Leaves,
}

module _ {X : Type 0} (transport : Transport X) (input output : X → Bytes)
    (laws : StreamLaws transport input output) where
  -- The exchange of a catalog: the peer answered the request with a header of the right kind, whose
  -- size is below the capacity, and then with as many bytes, which were acknowledged if there were any.
  pub record CatalogWire (capacity : ℕ) (x : X) (bytes : Bytes) (y : X) : Type 0 where
    pub header : Bytes
    pub header_size : length header ≡ dbi_header_size
    pub header_kind : validate_header header dbi_response dbi_list ≡ ts_ok
    pub size_eq : length bytes ≡ u32_at header 12
    pub size_lt : length bytes < capacity
    pub wire :
        Wire transport input output laws x
          (header ++ bytes)
          (if ltb 0 (length bytes)
            then make_header dbi_request dbi_list 0 ++ make_header dbi_ack dbi_list 0
            else make_header dbi_request dbi_list 0)
          y

  abbrev request : Bytes
  request = make_header dbi_request dbi_list 0

  abbrev ack : Bytes
  ack = make_header dbi_ack dbi_list 0

  payload-Wire :
      (size : ℕ) (x y : X) (got : Bytes)
      → Wire transport input output laws x got request y
      → Leaves
          (λ bytes z.
            (length bytes ≡ size)
            × Wire transport input output laws x
                (got ++ bytes)
                (if ltb 0 size then request ++ ack else request)
                z)
          (payload transport size y)
  payload-Wire size x y got w = elim (Bool-cases (ltb 0 size)) [
    | inl e ↦ rw e (
        pass-Leaves (λ _ z. Wire transport input output laws x got (request ++ ack) z)
          (λ bytes z.
            (length bytes ≡ size)
            × Wire transport input output laws x (got ++ bytes) (request ++ ack) z)
          (write_exact transport ack y) (λ _. read_exact transport size)
          (sends transport input output laws x y got request ack w)
          (λ _ z w'. receives transport input output laws size x z got (request ++ ack) w'))
    | inr e ↦
        rw e
          (ground (arith, e), (w.0 ∙ ap (λ (b : Bytes). b ++ input y) (sym (append-nil got)), w.1))
  ]

  catalog_exchange-Wire :
      (capacity : ℕ) (x : X)
      → Leaves (CatalogWire capacity x) (catalog_exchange transport capacity x)
  unfolding catalog_exchange
  catalog_exchange-Wire capacity x =
      pass-Leaves (λ _ y. Wire transport input output laws x [] request y) Q
        (write_exact transport request x) _
        (sends transport input output laws x x [] [] request (still transport input output laws x))
        λ _ x1 w1.
          pass-Leaves
            (λ header y.
              (length header ≡ dbi_header_size)
              × Wire transport input output laws x header request y)
            Q (read_exact transport dbi_header_size x1) _
            (receives transport input output laws dbi_header_size x x1 [] request w1)
            λ header x2 (n, w2).
              check-Leaves Q (validate_header header dbi_response dbi_list) x2 _ λ kind.
                stop_if-Leaves Q (leb capacity (u32_at header 12)) ts_buffer_too_small x2 _ λ fits.
                  to_catalog header n kind fits (payload transport (u32_at header 12) x2)
                    (payload-Wire (u32_at header 12) x x2 header w2)
    where
      Q : Bytes → X → Type 0
      Q = CatalogWire capacity x

      to_catalog :
          (header : Bytes)
          → length header ≡ dbi_header_size
          → validate_header header dbi_response dbi_list ≡ ts_ok
          → leb capacity (u32_at header 12) ≡ false
          → (r : Answer Bytes × X)
          → Leaves
              (λ bytes z.
                (length bytes ≡ u32_at header 12)
                × Wire transport input output laws x
                    (header ++ bytes)
                    (if ltb 0 (u32_at header 12) then request ++ ack else request)
                    z)
              r
          → Leaves Q r
      to_catalog header n kind fits (failed status, z) w = tt
      to_catalog header n kind fits (done bytes, z) (size, w) = record {
        header = header;
        header_size = n;
        header_kind = kind;
        size_eq = size;
        size_lt = ground (arith, size, fits);
        wire =
            subst
              (λ (k : ℕ).
                Wire transport input output laws x (header ++ bytes)
                  (if ltb 0 k then request ++ ack else request) z)
              (sym size) w;
      }

  -- A connection that succeeds or was there moves no bytes.
  pub ensure_connected-keeps :
      (adapter : Adapter X)
      → (input (ensure_connected transport adapter).1.context ≡ input adapter.context)
        × (output (ensure_connected transport adapter).1.context ≡ output adapter.context)
  unfolding ensure_connected
  ensure_connected-keeps adapter =
      ground (arith, (laws.connect_keeps adapter.context).0, (laws.connect_keeps adapter.context).1)

  concluded :
      {A : Type 0} (P : A → X → Type 0) (r : Answer A × X) (adapter : Adapter X) (a : A)
      → Leaves P r
      → (conclude transport r adapter).0 ≡ done a
      → P a (conclude transport r adapter).1.context
  concluded P (failed status, x) adapter a p e = cc
  concluded {A} P (done b, x) adapter a p e = subst (λ (c : A). P c x) (same_done b a e) p
    where
      same_done : (b a : A) → (◌≡◌ {A = Answer A} (done b) (done a)) → b ≡ a
      same_done b a e = cc

  pub with_connection-Leaves :
      {A : Type 0} (P : A → X → Type 0) (run : Run X A) (r : Status × Adapter X) (a : A)
      → Leaves P (run r.1.context)
      → (with_connection transport run r).0 ≡ done a
      → P a (with_connection transport run r).1.context
  with_connection-Leaves {A} P run (status, adapter) a p e = go (is_ok status) e
    where
      go :
          (b : Bool)
          → (if b
              then conclude transport (run adapter.context) adapter
              else (failed status, adapter)).0
            ≡ done a
          → P a
              (if b
                then conclude transport (run adapter.context) adapter
                else (failed status, adapter)).1.context
      go true e' = concluded P (run adapter.context) adapter a p e'
      go false e' = cc

  -- A request for the catalog that succeeds, over a transport that is a stream, however it cuts the
  -- bytes: it has sent the request, received a header of the right kind and as many bytes as the
  -- header says, fewer than there is room for, and acknowledged them if there were any; nothing
  -- else was sent or taken.
  pub fetch_catalog-Wire :
      (capacity : ℕ) (adapter : Adapter X) (bytes : Bytes)
      → (fetch_catalog transport capacity adapter).0 ≡ done bytes
      → CatalogWire capacity adapter.context bytes
          (fetch_catalog transport capacity adapter).1.context
  unfolding fetch_catalog
  fetch_catalog-Wire capacity adapter bytes = go (capacity == 0)
    where
      r : Status × Adapter X
      r = ensure_connected transport adapter

      last : Answer Bytes × Adapter X
      last = with_connection transport (catalog_exchange transport capacity) r

      moved :
          CatalogWire capacity r.1.context bytes last.1.context
          → CatalogWire capacity adapter.context bytes last.1.context
      moved c = record {
        header = c.header;
        header_size = c.header_size;
        header_kind = c.header_kind;
        size_eq = c.size_eq;
        size_lt = c.size_lt;
        wire = (
          sym (ensure_connected-keeps adapter).0 ∙ c.wire.0,
          c.wire.1
              ∙ ap (λ (b : Bytes). b ++ (if ltb 0 (length bytes) then request ++ ack else request))
                  (ensure_connected-keeps adapter).1,
        );
      }

      go :
          (b : Bool)
          → (if b then (failed ts_invalid_argument, adapter) else last).0 ≡ done bytes
          → CatalogWire capacity adapter.context bytes
              (if b then (failed ts_invalid_argument, adapter) else last).1.context
      go true e = cc
      go false e = moved (
          with_connection-Leaves (CatalogWire capacity r.1.context)
            (catalog_exchange transport capacity) r bytes
            (catalog_exchange-Wire capacity r.1.context) e)
