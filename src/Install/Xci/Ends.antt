-- ===== src/Install/Xci/Ends.antt =====
-- Where the loop of consumeXciHeader stops.
use transferencia_switch.Base.{
  ℕ, zero, suc, ◌+◌, ◌≤◌, ◌≡◌, ◌⊎◌, inl, inr, true, false, ◌||◌, length, length-drop, drop, ◌==◌,
  arith, if_cases,
}
use transferencia_switch.Base.Bytes.{Bytes}
use transferencia_switch.Install.Sink.{Sink}
use transferencia_switch.Install.Xci.Consume.{xci_round, xci_rounds, consume_xci_header}
use transferencia_switch.Install.Xci.Advance.{IsXciReady, Advances, xci_round-Advances}

module _ {W : Type 0} where
  xci_round-le : (bytes : Bytes) (s : Sink W) → (xci_round bytes s).0 ≤ length bytes
  unfolding xci_round
  xci_round-le bytes s = ground arith

  -- How a call on `bytes` ends: the header is whole, or refused, or all bytes are taken.
  pub record Ends (bytes : Bytes) (r : ℕ × Sink W) : Type 0 where
    pub ready : IsXciReady r.1
    pub taken_le : r.0 ≤ length bytes
    pub stopped : (r.0 ≡ length bytes) ⊎ ((r.1.header_parsed ≡ true) ⊎ (r.1.failed ≡ true))

  more_rounds :
      (n : ℕ) (bytes : Bytes) (s : Sink W)
      → length bytes ≤ suc n
      → ((s' : Sink W) (rest : Bytes)
          → length rest ≤ n
          → IsXciReady s'
          → Ends rest (xci_rounds n rest s'))
      → Advances (xci_round bytes s)
      → let (amount, after) = xci_round bytes s in
        let (more, last) = xci_rounds n (drop amount bytes) after in
        Ends bytes (amount + more, last)
  more_rounds n bytes s enough recur (one, next) =
      let amount = (xci_round bytes s).0 in
      let left = length-drop amount bytes in
      let le = xci_round-le bytes s in
      let ih =
        recur (xci_round bytes s).1 (drop amount bytes) (omega (arith, left, le, one, enough))
          next in
      record {
        ready = ih.ready;
        taken_le = omega (arith, ih.taken_le, left, le);
        stopped = elim ih.stopped [
          | inl all ↦ inl (omega (arith, all, left, le))
          | inr why ↦ inr why
        ];
      }

  -- A round that is begun advances: the sink reads, as it has neither parsed nor failed.
  begun_round :
      (bytes : Bytes) (s : Sink W)
      → (length bytes == 0 || s.header_parsed || s.failed) ≡ false
      → IsXciReady s
      → Advances (xci_round bytes s)
  begun_round bytes s e (inl parsed) = absurd (ground (arith, e, parsed))
  begun_round bytes s e (inr (inl failed)) = absurd (ground (arith, e, failed))
  begun_round bytes s e (inr (inr reading)) = xci_round-Advances bytes s (ground (arith, e)) reading

  xci_rounds-Ends :
      (n : ℕ) (bytes : Bytes) (s : Sink W)
      → length bytes ≤ n
      → IsXciReady s
      → Ends bytes (xci_rounds n bytes s)
  unfolding xci_rounds
  xci_rounds-Ends zero bytes s enough ready = record {
    ready = ready;
    taken_le = omega arith;
    stopped = inl (omega (arith, enough));
  }
  xci_rounds-Ends (suc n) bytes s enough ready =
      if_cases (Ends bytes) (length bytes == 0 || s.header_parsed || s.failed) _ _
        (λ e. record { ready = ready; taken_le = omega arith; stopped = ground (arith, e) })
        (λ e.
          more_rounds n bytes s enough (λ s' rest. xci_rounds-Ends n rest s')
            (begun_round bytes s e ready))

  -- While a sink reads the header of an XCI, consumeXciHeader stops only where the header is whole
  -- or refused, or where all bytes are taken; it takes no more bytes than there are, and the sink
  -- is ready for the next bytes.
  pub consume_xci_header-Ends :
      (bytes : Bytes) (s : Sink W) → IsXciReady s → Ends bytes (consume_xci_header bytes s)
  unfolding consume_xci_header
  consume_xci_header-Ends bytes s ready = xci_rounds-Ends (length bytes) bytes s (omega arith) ready
