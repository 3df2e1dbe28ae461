-- ===== src/Remote/Transport.antt =====
-- switch_app/include/transfer_switch/ports/byte_transport.h, and the adapter that uses it.
use transferencia_switch.Base.{ℕ, Bool}
use transferencia_switch.Base.Bytes.{Bytes}
use transferencia_switch.Domain.Status.{Status}

-- `TsByteTransport`, with `X` what its context holds. `read` has the bytes that it put into the
-- buffer, `write` the number that it took; either may claim more than it was asked for.
pub record Transport (X : Type 0) : Type 0 where
  -- The pointer itself is null.
  pub is_null : Bool
  -- None of the four functions is null.
  pub is_complete : Bool
  pub connect : X → Status × X
  pub close : X → X
  pub read : ℕ → X → Status × Bytes × X
  pub write : Bytes → X → Status × ℕ × X

-- `TsDbiCatalogAdapter`, with the context of its transport.
pub record Adapter (X : Type 0) : Type 0 where
  pub connected : Bool
  pub context : X
