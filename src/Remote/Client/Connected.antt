-- ===== src/Remote/Client/Connected.antt =====
-- Whether the client is connected after a request.
use transferencia_switch.Base.{
  ℕ, ◌≡◌, ◌∙◌, refl, ◌<◌, true, false, not, ◌==◌, if◌then◌else◌, arith, Bool-cases, if_cases, inl,
  inr,
}
use transferencia_switch.Base.Bytes.{Bytes}
use transferencia_switch.Domain.Status.{Status, ts_invalid_argument, is_ok}
use transferencia_switch.Remote.Transport.{Transport, Adapter}
use transferencia_switch.Remote.Runs.{Answer, failed, done, is_done, Run}
use transferencia_switch.Remote.Client.{
  disconnect, ensure_connected, conclude, with_connection, catalog_exchange, fetch_catalog,
  range_exchange, bad_range, read_file_range, exit_exchange, disconnected, adapter_close,
}

module _ {X : Type 0} (transport : Transport X) where
  -- The connection tells how the request ended.
  abbrev Tells : {A : Type 0} → Answer A × Adapter X → Type 0
  Tells r = r.1.connected ≡ is_done r.0

  disconnect_lem : (adapter : Adapter X) → (disconnect transport adapter).connected ≡ false
  unfolding disconnect
  disconnect_lem adapter = ground arith

  ensure_connected_lem :
      (adapter : Adapter X)
      → transport.is_null ≡ false
      → (ensure_connected transport adapter).1.connected
        ≡ is_ok (ensure_connected transport adapter).0
  unfolding ensure_connected
  ensure_connected_lem adapter there = ground (arith, there)

  conclude-Tells :
      {A : Type 0} (r : Answer A × X) (adapter : Adapter X)
      → adapter.connected ≡ true
      → Tells (conclude transport r adapter)
  conclude-Tells (failed status, x) adapter on = disconnect_lem (record adapter { context = x })
  conclude-Tells (done a, x) adapter on = on

  with_connection-Tells :
      {A : Type 0} (run : Run X A) (r : Status × Adapter X)
      → r.1.connected ≡ is_ok r.0
      → Tells (with_connection transport run r)
  with_connection-Tells run (status, adapter) on = elim (Bool-cases (is_ok status)) [
    | inl e ↦ rw e (conclude-Tells (run adapter.context) adapter (on ∙ e))
    | inr e ↦ rw e (on ∙ e)
  ]

  -- After a request for the catalog the client is connected if the request succeeded, and
  -- disconnected if it failed, at whatever point: the buffer is not empty, the transport not null.
  pub fetch_catalog-connected :
      (capacity : ℕ) (adapter : Adapter X)
      → transport.is_null ≡ false
      → 0 < capacity
      → (fetch_catalog transport capacity adapter).1.connected
        ≡ is_done (fetch_catalog transport capacity adapter).0
  unfolding fetch_catalog
  fetch_catalog-connected capacity adapter there some_room =
      if_cases Tells (capacity == 0) _ _ (λ e. absurd (ground (arith, e, some_room)))
        (λ _.
          with_connection-Tells (catalog_exchange transport capacity)
            (ensure_connected transport adapter) (ensure_connected_lem adapter there))

  -- A request for a part of a file leaves the client connected exactly if it succeeded, and where its
  -- arguments are refused it fails and leaves the client as it was: the transport is not null.
  pub read_file_range-connected :
      (name : Bytes) (offset size capacity : ℕ) (adapter : Adapter X)
      → transport.is_null ≡ false
      → let (answer, after) = read_file_range transport name offset size capacity adapter in
        if bad_range name size capacity
        then (answer ≡ failed ts_invalid_argument) × (after ≡ adapter)
        else after.connected ≡ is_done answer
  unfolding read_file_range
  read_file_range-connected name offset size capacity adapter there =
      elim (Bool-cases (bad_range name size capacity)) [
        | inl e ↦ rw e (refl, refl)
        | inr e ↦ rw e (
            with_connection-Tells (range_exchange transport name offset size)
              (ensure_connected transport adapter) (ensure_connected_lem adapter there))
      ]

  off :
      (r : Answer (Unit {0}) × X) (adapter : Adapter X)
      → (disconnected transport r adapter).1.connected ≡ false
  off (answer, x) adapter = disconnect_lem (record adapter { context = x })

  -- Closing the client disconnects it, whatever the peer answers: the transport is not null.
  pub adapter_close-connected :
      (adapter : Adapter X)
      → transport.is_null ≡ false
      → (adapter_close transport adapter).1.connected ≡ false
  unfolding adapter_close
  adapter_close-connected adapter there =
      if_cases (λ (r : Status × Adapter X). r.1.connected ≡ false) transport.is_null _ _
        (λ e. cc (there, e))
        λ _.
          if_cases (λ (r : Status × Adapter X). r.1.connected ≡ false) (not adapter.connected) _ _
            (λ e. ground (arith, e)) (λ _. off (exit_exchange transport adapter.context) adapter)
