-- ===== src/Remote/Client/Range.antt =====
-- What a request for a part of a file has sent and received, over a transport that is a stream.
use transferencia_switch.Base.{
  ℕ, ◌+◌, ◌≡◌, sym, ap, ◌∙◌, Bool, true, false, not, ◌||◌, [], ◌++◌, length, ◌==◌, if◌then◌else◌,
  arith,
}
use transferencia_switch.Base.Bytes.{Bytes}
use transferencia_switch.Base.Words.{u32_at}
use transferencia_switch.Domain.Status.{
  Status, ts_ok, ts_invalid_argument, ts_protocol_error, is_ok,
}
use transferencia_switch.Remote.Transport.{Transport, Adapter}
use transferencia_switch.Remote.Runs.{Answer, failed, done, Leaves, pass-Leaves}
use transferencia_switch.Remote.Codec.{
  dbi_header_size, dbi_request, dbi_response, dbi_ack, dbi_file_range, make_header, validate_header,
  file_request,
}
use transferencia_switch.Remote.Exact.{read_exact, write_exact}
use transferencia_switch.Remote.Exact.Streams.{StreamLaws}
use transferencia_switch.Remote.Client.{
  file_request_size, ensure_connected, with_connection, range_exchange, bad_range, read_file_range,
}
use transferencia_switch.Remote.Client.Wire.{ensure_connected-keeps, with_connection-Leaves}
use transferencia_switch.Remote.Client.Exchanges.{
  Wire, still, sends, receives, check-Leaves, stop_if-Leaves,
}

module _ {X : Type 0} (transport : Transport X) (input output : X → Bytes)
    (laws : StreamLaws transport input output) where
  abbrev request : Bytes → Bytes
  request name = make_header dbi_request dbi_file_range (file_request_size + length name)

  abbrev ack : Bytes
  ack = make_header dbi_ack dbi_file_range 0

  -- The exchange of a part of a file: the peer acknowledged the request, got the size, the offset
  -- and the name, answered with a header of the right kind for exactly that size, and sent as many
  -- bytes, once they were acknowledged.
  pub record RangeWire (name : Bytes) (offset size : ℕ) (x : X) (bytes : Bytes) (y : X)
      : Type 0 where
    pub acknowledged : Bytes
    pub acknowledged_kind : validate_header acknowledged dbi_ack dbi_file_range ≡ ts_ok
    pub header : Bytes
    pub header_kind : validate_header header dbi_response dbi_file_range ≡ ts_ok
    pub header_sizes : (length acknowledged ≡ dbi_header_size) × (length header ≡ dbi_header_size)
    pub declared : u32_at header 12 ≡ size
    pub size_eq : length bytes ≡ size
    pub wire :
        Wire transport input output laws x
          (acknowledged ++ header ++ bytes)
          (request name ++ file_request size offset name ++ ack)
          y

  range_exchange-Wire :
      (name : Bytes) (offset size : ℕ) (x : X)
      → Leaves (RangeWire name offset size x) (range_exchange transport name offset size x)
  unfolding range_exchange
  range_exchange-Wire name offset size x =
      pass-Leaves (λ _ y. W [] first y) Q (write_exact transport first x) _
        (sends transport input output laws x x [] [] first (still transport input output laws x))
        λ _ x1 w1.
          pass-Leaves (λ h y. (length h ≡ dbi_header_size) × W h first y) Q
            (read_exact transport dbi_header_size x1) _
            (receives transport input output laws dbi_header_size x x1 [] first w1)
            λ h x2 (n, w2). check-Leaves Q (validate_header h dbi_ack dbi_file_range) x2 _ λ kind.
              pass-Leaves (λ _ y. W h (first ++ second) y) Q (write_exact transport second x2) _
                (sends transport input output laws x x2 h first second w2)
                λ _ x3 w3.
                  pass-Leaves (λ g y. (length g ≡ dbi_header_size) × W (h ++ g) (first ++ second) y)
                    Q (read_exact transport dbi_header_size x3) _
                    (receives transport input output laws dbi_header_size x x3 h (first ++ second)
                      w3)
                    λ g x4 (m, w4).
                      stop_if-Leaves Q
                        (not (is_ok (validate_header g dbi_response dbi_file_range))
                          || not (u32_at g 12 == size))
                        ts_protocol_error x4 _
                        λ right.
                          pass-Leaves (λ _ y. W (h ++ g) (first ++ second ++ ack) y) Q
                            (write_exact transport ack x4) _
                            (sends transport input output laws x x4 (h ++ g) (first ++ second) ack
                              w4)
                            λ _ x5 w5. to_range h g n m kind right (read_exact transport size x5) (
                              receives transport input output laws size x x5 (h ++ g)
                                (first ++ second ++ ack) w5)
    where
      first : Bytes
      first = request name

      second : Bytes
      second = file_request size offset name

      W : Bytes → Bytes → X → Type 0
      W got sent y = Wire transport input output laws x got sent y

      Q : Bytes → X → Type 0
      Q = RangeWire name offset size x

      to_range :
          (h g : Bytes)
          → length h ≡ dbi_header_size
          → length g ≡ dbi_header_size
          → validate_header h dbi_ack dbi_file_range ≡ ts_ok
          → (not (is_ok (validate_header g dbi_response dbi_file_range))
              || not (u32_at g 12 == size))
            ≡ false
          → (r : Answer Bytes × X)
          → Leaves
              (λ bytes z. (length bytes ≡ size) × W (h ++ g ++ bytes) (first ++ second ++ ack) z)
              r
          → Leaves Q r
      to_range h g n m kind right (failed status, z) w = tt
      to_range h g n m kind right (done bytes, z) (sized, w) = record {
        acknowledged = h;
        acknowledged_kind = kind;
        header = g;
        header_kind = ground (arith, right);
        header_sizes = (n, m);
        declared = ground (arith, right);
        size_eq = sized;
        wire = w;
      }

  -- A request for a part of a file that succeeds, over a transport that is a stream, however it cuts
  -- the bytes: it has sent the request, the size, the offset and the name, and an acknowledgement;
  -- it has received an acknowledgement, a header of the right kind for exactly the size that was
  -- asked for, and that many bytes; nothing else was sent or taken.
  pub read_file_range-Wire :
      (name : Bytes) (offset size capacity : ℕ) (adapter : Adapter X) (bytes : Bytes)
      → (read_file_range transport name offset size capacity adapter).0 ≡ done bytes
      → RangeWire name offset size adapter.context bytes
          (read_file_range transport name offset size capacity adapter).1.context
  unfolding read_file_range
  read_file_range-Wire name offset size capacity adapter bytes = go (bad_range name size capacity)
    where
      r : Status × Adapter X
      r = ensure_connected transport adapter

      last : Answer Bytes × Adapter X
      last = with_connection transport (range_exchange transport name offset size) r

      moved :
          RangeWire name offset size r.1.context bytes last.1.context
          → RangeWire name offset size adapter.context bytes last.1.context
      moved c = record {
        acknowledged = c.acknowledged;
        acknowledged_kind = c.acknowledged_kind;
        header = c.header;
        header_kind = c.header_kind;
        header_sizes = c.header_sizes;
        declared = c.declared;
        size_eq = c.size_eq;
        wire = (
          sym (ensure_connected-keeps transport input output laws adapter).0 ∙ c.wire.0,
          c.wire.1
              ∙ ap (λ (b : Bytes). b ++ (request name ++ file_request size offset name ++ ack))
                  (ensure_connected-keeps transport input output laws adapter).1,
        );
      }

      go :
          (b : Bool)
          → (if b then (failed ts_invalid_argument, adapter) else last).0 ≡ done bytes
          → RangeWire name offset size adapter.context bytes
              (if b then (failed ts_invalid_argument, adapter) else last).1.context
      go true e = cc
      go false e = moved (
          with_connection-Leaves transport input output laws
            (RangeWire name offset size r.1.context) (range_exchange transport name offset size) r
            bytes (range_exchange-Wire name offset size r.1.context) e)
