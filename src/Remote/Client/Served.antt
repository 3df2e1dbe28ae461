-- ===== src/Remote/Client/Served.antt =====
-- A peer that answers is heard.
use transferencia_switch.Base.{
  ℕ, ◌^◌, ◌≡◌, ◌<◌, refl, ◌∙◌, true, false, [], ◌∷◌, ◌++◌, length, ltb, leb, ◌==◌, arith,
  Bool-cases, inl, inr,
}
use mathlib.Core.Path.{subst}
use transferencia_switch.Base.Bytes.{Bytes}
use transferencia_switch.Base.Words.{u32_at}
use transferencia_switch.Domain.Status.{ts_ok, is_ok}
use transferencia_switch.Remote.Transport.{Transport, Adapter}
use transferencia_switch.Remote.Runs.{done}
use transferencia_switch.Remote.Codec.{
  dbi_header_size, dbi_request, dbi_response, dbi_ack, dbi_list, make_header, validate_header,
  write_u32_le,
}
use transferencia_switch.Remote.Codec.RoundTrip.{make_header_lem}
use transferencia_switch.Remote.Exact.{read_exact}
use transferencia_switch.Remote.Exact.Streams.{StreamLaws}
use transferencia_switch.Remote.Exact.Reliable.{ReliableLaws, read_exact_served, write_exact_served}
use transferencia_switch.Remote.Client.{ensure_connected, payload, catalog_exchange, fetch_catalog}
use transferencia_switch.Remote.Client.Wire.{ensure_connected-keeps}

connected_ok :
    {X : Type 0} (transport : Transport X)
    → ((x : X) → (transport.connect x).0 ≡ ts_ok)
    → (adapter : Adapter X) → transport.is_null ≡ false
    → transport.is_complete ≡ true
    → is_ok (ensure_connected transport adapter).0 ≡ true
unfolding ensure_connected
connected_ok transport connects adapter there complete =
    ground (arith, connects adapter.context, there, complete)

answer_header :
    (size : ℕ)
    → size < 2 ^ 32
    → (length (make_header dbi_response dbi_list size) ≡ dbi_header_size)
      × (u32_at (make_header dbi_response dbi_list size) 12 ≡ size)
      × (validate_header (make_header dbi_response dbi_list size) dbi_response dbi_list ≡ ts_ok)
unfolding make_header write_u32_le
answer_header size small =
    let (n, _, _, s, kind) =
      make_header_lem dbi_response dbi_list size dbi_response dbi_list [] (omega arith)
        (omega arith) small in
    (n, s, kind.1 (refl, refl))

module _ {X : Type 0} (transport : Transport X) (input output : X → Bytes)
    (laws : StreamLaws transport input output) (reliable : ReliableLaws transport input) where
  payload_served :
      (x : X) (bytes rest : Bytes)
      → input x ≡ bytes ++ rest
      → (y : X) × (payload transport (length bytes) x ≡ (done bytes, y)) × (input y ≡ rest)
  payload_served x bytes rest e = elim (Bool-cases (ltb 0 (length bytes))) [
    | inl more ↦
        let (x1, e1, i1) =
          write_exact_served transport input output laws reliable x
            (make_header dbi_ack dbi_list 0) in
        let (x2, e2, i2) =
          read_exact_served transport input output laws reliable x1 bytes rest (i1 ∙ e) in
        (x2, rw (more, e1) e2, i2)
    | inr none_left ↦ empty_payload bytes none_left e
  ]
    where
      empty_payload :
          (bytes : Bytes)
          → ltb 0 (length bytes) ≡ false
          → input x ≡ bytes ++ rest
          → (y : X) × (payload transport (length bytes) x ≡ (done bytes, y)) × (input y ≡ rest)
      empty_payload [] small e' = (x, refl, e')
      empty_payload (b ∷ bs) small e' = absurd (ground (arith, small))

  catalog_exchange_served :
      (capacity : ℕ) (x : X) (bytes rest : Bytes)
      → length bytes < capacity
      → length bytes < 2 ^ 32
      → input x ≡ make_header dbi_response dbi_list (length bytes) ++ (bytes ++ rest)
      → (y : X) × (catalog_exchange transport capacity x ≡ (done bytes, y)) × (input y ≡ rest)
  unfolding catalog_exchange
  catalog_exchange_served capacity x bytes rest fits small e =
      let header = make_header dbi_response dbi_list (length bytes) in
      let (n, size, kind) = answer_header (length bytes) small in
      let (x1, e1, i1) =
        write_exact_served transport input output laws reliable x
          (make_header dbi_request dbi_list 0) in
      let (x2, e2, i2) =
        read_exact_served transport input output laws reliable x1 header (bytes ++ rest) (i1 ∙ e) in
      let e2' : read_exact transport dbi_header_size x1 ≡ (done header, x2) =
        subst (λ (k : ℕ). read_exact transport k x1 ≡ (done header, x2)) n e2 in
      let (x3, e3, i3) = payload_served x2 bytes rest i2 in
      let room : leb capacity (length bytes) ≡ false = ground (arith, fits) in
      (x3, rw (e1, e2', kind, size, room) e3, i3)

  -- Over a transport that is a stream and works, not null and complete, a peer that has answered a
  -- request for the catalog with a header of the right kind and as many bytes as it says, fewer than
  -- there is room for and than 2 ^ 32, is heard: the request succeeds with exactly these bytes, and
  -- what the peer gives next is left.
  pub fetch_catalog_served :
      (capacity : ℕ) (adapter : Adapter X) (bytes rest : Bytes)
      → transport.is_null ≡ false
      → transport.is_complete ≡ true
      → length bytes < capacity
      → length bytes < 2 ^ 32
      → input adapter.context ≡ make_header dbi_response dbi_list (length bytes) ++ (bytes ++ rest)
      → let (answer, after) = fetch_catalog transport capacity adapter in
        (answer ≡ done bytes) × (input after.context ≡ rest)
  unfolding fetch_catalog
  fetch_catalog_served capacity adapter bytes rest there complete fits small e =
      let r = ensure_connected transport adapter in
      let (y, done_eq, left) =
        catalog_exchange_served capacity r.1.context bytes rest fits small
          ((ensure_connected-keeps transport input output laws adapter).0 ∙ e) in
      let room : (capacity == 0) ≡ false = ground (arith, fits) in
      let on : is_ok r.0 ≡ true = connects adapter in rw (room, on, done_eq) (refl, left)
    where
      connects : (a : Adapter X) → is_ok (ensure_connected transport a).0 ≡ true
      connects a = connected_ok transport reliable.connects a there complete
