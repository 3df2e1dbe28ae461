-- ===== src/Install/Stream.antt =====
-- write, isComplete and finalSize of sd_install_receiver.cpp.
pub mod Core
pub mod Nsp
pub mod Parsed
pub mod Total
use transferencia_switch.Base.{
  ℕ, zero, suc, Bool, not, ◌&&◌, ◌||◌, Option, none, some, length, drop, ltb, ◌==◌, if◌then◌else◌,
}
use transferencia_switch.Base.Bytes.{Bytes}
use transferencia_switch.Base.Words.{add_u64}
use transferencia_switch.Install.Services.{Services}
use transferencia_switch.Install.Sink.{Sink, fail, has_known_final_size}
use transferencia_switch.Install.Receive.{consume_nsp_header}
use transferencia_switch.Install.Xci.Consume.{consume_xci_header}
use transferencia_switch.Install.Entries.{is_xci}
use transferencia_switch.Install.Data.{consume_data}

module _ {W : Type 0} where
  unfoldable pub is_complete : Sink W → Bool
  is_complete s =
      has_known_final_size s
      && s.received == s.expected_size
      && s.header_parsed
      && s.current_entry == length s.entries

  unfoldable pub final_size : Sink W → ℕ
  final_size s = if has_known_final_size s then s.expected_size else 0

  abbrev pub receive : ℕ → Sink W → Sink W
  receive amount s = record s { received = add_u64 s.received amount }

  abbrev pub consume_header : Bytes → Sink W → ℕ × Sink W
  consume_header bytes s =
      if is_xci s.package_type then consume_xci_header bytes s else consume_nsp_header bytes s

  -- The early return of write; a buffer is never null here.
  abbrev pub is_refused : Bytes → Sink W → Bool
  is_refused bytes s =
      s.failed
      || s.finished
      || has_known_final_size s && ltb s.expected_size (add_u64 s.received (length bytes))

module _ {W : Type 0} (services : Services W) where
  -- One round of the loop: the bytes taken and the sink after it, `none` where write stops because
  -- nothing was taken.
  unfoldable pub write_round : Bytes → Sink W → ℕ × Option (Sink W)
  write_round bytes s =
      if not s.header_parsed
      then (let (amount, after) = consume_header bytes s in (amount, some (receive amount after)))
      else let (amount, after) = consume_data services bytes s in
        if amount == 0 && not after.failed then (0, none) else (amount, some (receive amount after))

  -- The loop, at most `n` rounds of it; `none` if that is not enough.
  unfoldable pub write_rounds : ℕ → Bytes → Sink W → Option (Bool × Sink W)
  write_rounds zero bytes s = if length bytes == 0 || s.failed then some (not s.failed, s) else none
  write_rounds (suc n) bytes s =
      let (amount, after) = write_round bytes s in
      let rest = (λ (s' : Sink W). write_rounds n (drop amount bytes) s') in
      if length bytes == 0 || s.failed then some (not s.failed, s) else elim after [
        | none ↦
            some
              (fail "el analizador del paquete no pudo avanzar" (consume_data services bytes s).1)
        | some s' ↦ rest s'
      ]

  unfoldable pub write : Bytes → Sink W → Option (Bool × Sink W)
  write bytes s =
      if is_refused bytes s
      then some (fail "flujo de paquete fuera de limites" s)
      else write_rounds (length bytes) bytes s
