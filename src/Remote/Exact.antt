-- ===== src/Remote/Exact.antt =====
-- read_exact and write_exact of dbi_catalog.c: a transport may take or give fewer bytes than it was
-- asked for, and the loops ask again.
pub mod Streams
pub mod Reliable
use transferencia_switch.Base.{
  ℕ, zero, suc, ◌-◌, not, ◌||◌, [], ◌++◌, length, drop, ltb, ◌==◌, if◌then◌else◌,
}
use transferencia_switch.Base.Bytes.{Bytes}
use transferencia_switch.Domain.Status.{Status, ts_transport_error, is_ok}
use transferencia_switch.Remote.Transport.{Transport}
use transferencia_switch.Remote.Runs.{Answer, failed, done, Run}

module _ {X : Type 0} where
  -- The bytes of one read, before those of the reads behind it.
  abbrev pub prepend : Bytes → Answer Bytes × X → Answer Bytes × X
  prepend bytes (failed status, x) = (failed status, x)
  prepend bytes (done more, x) = (done (bytes ++ more), x)

  -- What one read answers: an error, or the bytes that the rest of the loop goes on behind.
  abbrev pub after_read : ℕ → Status × Bytes × X → (ℕ → Run X Bytes) → Answer Bytes × X
  after_read size (status, bytes, x) rest =
      if not (is_ok status)
      then (failed status, x)
      else if length bytes == 0 || ltb size (length bytes)
      then (failed ts_transport_error, x)
      else prepend bytes (rest (size - length bytes) x)

  abbrev pub after_write :
      Bytes → Status × ℕ × X → (Bytes → Run X (Unit {0})) → Answer (Unit {0}) × X
  after_write bytes (status, transferred, x) rest =
      if not (is_ok status)
      then (failed status, x)
      else if transferred == 0 || ltb (length bytes) transferred
      then (failed ts_transport_error, x)
      else rest (drop transferred bytes) x

module _ {X : Type 0} (transport : Transport X) where
  -- The loop, at most `n` rounds of it; each takes a byte or is the last.
  unfoldable pub read_rounds : ℕ → ℕ → Run X Bytes
  read_rounds zero size x = (done [], x)
  read_rounds (suc n) size x =
      let next = after_read size (transport.read size x) (read_rounds n) in
      if size == 0 then (done [], x) else next

  unfoldable pub read_exact : ℕ → Run X Bytes
  read_exact size x = read_rounds size size x

  unfoldable pub write_rounds : ℕ → Bytes → Run X (Unit {0})
  write_rounds zero bytes x = (done tt, x)
  write_rounds (suc n) bytes x =
      let next = after_write bytes (transport.write bytes x) (write_rounds n) in
      if length bytes == 0 then (done tt, x) else next

  unfoldable pub write_exact : Bytes → Run X (Unit {0})
  write_exact bytes x = write_rounds (length bytes) bytes x
