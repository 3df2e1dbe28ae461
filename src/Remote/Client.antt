-- ===== src/Remote/Client.antt =====
-- The connection and the requests of dbi_catalog.c.
pub mod Connected
pub mod Exchanges
pub mod Wire
pub mod Range
pub mod Served
use transferencia_switch.Base.{
  ℕ, ◌+◌, Bool, false, not, ◌||◌, [], length, ltb, leb, ◌==◌, if◌then◌else◌,
}
use transferencia_switch.Base.Bytes.{Bytes}
use transferencia_switch.Base.Words.{u32_at}
use transferencia_switch.Domain.Status.{
  Status, ts_ok, ts_invalid_argument, ts_buffer_too_small, ts_protocol_error, is_ok,
}
use transferencia_switch.Remote.Transport.{Transport, Adapter}
use transferencia_switch.Remote.Runs.{Answer, failed, done, Run, ◌>>=◌, ◌>>◌, give, check, stop_if}
use transferencia_switch.Remote.Codec.{
  dbi_header_size, dbi_request, dbi_response, dbi_ack, dbi_exit, dbi_file_range, dbi_list,
  make_header, validate_header, file_request,
}
use transferencia_switch.Remote.Exact.{read_exact, write_exact}

-- `TS_FILE_NAME_CAPACITY`
abbrev pub file_name_capacity : ℕ
file_name_capacity = 512

abbrev pub file_request_size : ℕ
file_request_size = 16

-- The arguments that read_file_range refuses; the pointers are not null.
abbrev pub bad_range : Bytes → ℕ → ℕ → Bool
bad_range name size capacity =
    length name == 0
    || leb file_name_capacity (length name)
    || size == 0
    || ltb capacity size
    || ltb 0xFFFFFFFF size

-- ts_dbi_catalog_adapter_init: what it makes of the adapter, over a context.
abbrev pub adapter_init : {X : Type 0} → X → Adapter X
adapter_init x = record { connected = false; context = x }

module _ {X : Type 0} (transport : Transport X) where
  unfoldable pub disconnect : Adapter X → Adapter X
  disconnect adapter =
      if adapter.connected
      then record adapter { connected = false; context = transport.close adapter.context }
      else adapter

  abbrev opened : Status × X → Adapter X → Status × Adapter X
  opened (status, x) adapter = (status, record adapter { connected = is_ok status; context = x })

  unfoldable pub ensure_connected : Adapter X → Status × Adapter X
  ensure_connected adapter =
      if transport.is_null
      then (ts_invalid_argument, adapter)
      else if adapter.connected
      then (ts_ok, adapter)
      else if not transport.is_complete
      then (ts_invalid_argument, adapter)
      else opened (transport.connect adapter.context) adapter

  -- How a request ends: after an error, at the label `fail`.
  abbrev pub conclude : {A : Type 0} → Answer A × X → Adapter X → Answer A × Adapter X
  conclude (failed status, x) adapter = (failed status, disconnect (record adapter { context = x }))
  conclude (done a, x) adapter = (done a, record adapter { context = x })

  abbrev pub with_connection : {A : Type 0} → Run X A → Status × Adapter X → Answer A × Adapter X
  with_connection run (status, adapter) =
      if is_ok status then conclude (run adapter.context) adapter else (failed status, adapter)

  abbrev pub payload : ℕ → Run X Bytes
  payload size =
      if ltb 0 size
      then (write_exact transport (make_header dbi_ack dbi_list 0) >> read_exact transport size)
      else give []

  -- The exchange of fetch_catalog, between the connection and the label `fail`.
  unfoldable pub catalog_exchange : ℕ → Run X Bytes
  catalog_exchange capacity =
      write_exact transport (make_header dbi_request dbi_list 0)
      >> (read_exact transport dbi_header_size >>= λ header.
          check (validate_header header dbi_response dbi_list)
          >> (stop_if (leb capacity (u32_at header 12)) ts_buffer_too_small
              >> payload (u32_at header 12)))

  -- `fetch_catalog`, into a buffer that is not null: the bytes received.
  unfoldable pub fetch_catalog : ℕ → Adapter X → Answer Bytes × Adapter X
  fetch_catalog capacity adapter =
      if capacity == 0
      then (failed ts_invalid_argument, adapter)
      else with_connection (catalog_exchange capacity) (ensure_connected adapter)

  -- The exchange of read_file_range.
  unfoldable pub range_exchange : Bytes → ℕ → ℕ → Run X Bytes
  range_exchange name offset size =
      write_exact transport
        (make_header dbi_request dbi_file_range (file_request_size + length name))
      >> (read_exact transport dbi_header_size >>= λ acknowledged.
          check (validate_header acknowledged dbi_ack dbi_file_range)
          >> (write_exact transport (file_request size offset name)
              >> (read_exact transport dbi_header_size >>= λ header.
                  stop_if
                    (not (is_ok (validate_header header dbi_response dbi_file_range))
                      || not (u32_at header 12 == size))
                    ts_protocol_error
                  >> (write_exact transport (make_header dbi_ack dbi_file_range 0)
                      >> read_exact transport size))))

  -- `read_file_range`
  unfoldable pub read_file_range : Bytes → ℕ → ℕ → ℕ → Adapter X → Answer Bytes × Adapter X
  read_file_range name offset size capacity adapter =
      if bad_range name size capacity
      then (failed ts_invalid_argument, adapter)
      else with_connection (range_exchange name offset size) (ensure_connected adapter)

  unfoldable pub exit_exchange : Run X (Unit {0})
  exit_exchange =
      write_exact transport (make_header dbi_request dbi_exit 0)
      >> (read_exact transport dbi_header_size >>= λ header.
          check (validate_header header dbi_response dbi_exit))

  abbrev pub status_of : {A : Type 0} → Answer A → Status
  status_of (failed status) = status
  status_of (done a) = ts_ok

  abbrev pub disconnected : Answer (Unit {0}) × X → Adapter X → Status × Adapter X
  disconnected (answer, x) adapter = (status_of answer, disconnect (record adapter { context = x }))

  -- `ts_dbi_catalog_adapter_close`
  unfoldable pub adapter_close : Adapter X → Status × Adapter X
  adapter_close adapter =
      if transport.is_null
      then (ts_invalid_argument, adapter)
      else if not adapter.connected
      then (ts_ok, adapter)
      else disconnected (exit_exchange adapter.context) adapter
