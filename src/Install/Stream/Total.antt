-- ===== src/Install/Stream/Total.antt =====
-- write always returns: its loop takes a byte in each round, or stops.
use transferencia_switch.Base.{
  ℕ, zero, suc, List, ◌≤◌, ◌<◌, ◌≡◌, refl, sym, ap, ◌∙◌, ◌⊎◌, inl, inr, Bool, true, false, not,
  ◌||◌, ◌&&◌, Option, none, some, length, length-drop, drop, ◌==◌, if◌then◌else◌, arith, Bool-cases,
  if_cases,
}
use mathlib.Core.Path.{subst}
use transferencia_switch.Base.Bytes.{Bytes}
use transferencia_switch.Install.Services.{Services}
use transferencia_switch.Install.Sink.{PackageType, Sink, fail}
use transferencia_switch.Install.Receive.{consume_nsp_header}
use transferencia_switch.Install.Xci.Consume.{xci_rounds, consume_xci_header}
use transferencia_switch.Install.Xci.Advance.{IsOpen, IsReading, xci_round-Advances}
use transferencia_switch.Install.Xci.Ends.{consume_xci_header-Ends}
use transferencia_switch.Install.Entries.{is_xci}
use transferencia_switch.Install.Data.{consume_data}
use transferencia_switch.Install.Stream.{
  consume_header, receive, is_refused, write_round, write_rounds, write,
}
use transferencia_switch.Install.Stream.Core.{SameCore, xci_rounds-core, consume_nsp_header-core}
use transferencia_switch.Install.Stream.Nsp.{consume_nsp_header-IsNspReady}
use transferencia_switch.Install.Stream.Parsed.{consume_data-Same}

module _ {W : Type 0} where
  -- A header is being read, of an NSP or of an XCI.
  abbrev IsHeaderOpen : Bool → Sink W → Type 0
  IsHeaderOpen true s = IsReading s
  IsHeaderOpen false s = IsOpen s.header_target (length s.header)

  -- The header is parsed, or refused, or being read.
  abbrev pub IsReady : Sink W → Type 0
  IsReady s =
      (s.header_parsed ≡ true) ⊎ ((s.failed ≡ true) ⊎ IsHeaderOpen (is_xci s.package_type) s)

  received_open :
      (kind : Bool) (n : ℕ) (s : Sink W) → IsHeaderOpen kind s → IsHeaderOpen kind (receive n s)
  received_open true n s pending = pending
  received_open false n s pending = pending

  received-IsReady : (n : ℕ) (s : Sink W) → IsReady s → IsReady (receive n s)
  received-IsReady n s (inl parsed) = inl parsed
  received-IsReady n s (inr (inl failed)) = inr (inl failed)
  received-IsReady n s (inr (inr pending)) =
      inr (inr (received_open (is_xci s.package_type) n s pending))

  same_kind : (s t : Sink W) → SameCore s t → is_xci t.package_type ≡ is_xci s.package_type
  same_kind s t same =
      ap (λ (c : W × List Bytes × Bool × Bool × Bool × Bool × PackageType). is_xci c.6) same

  xci_rounds-first :
      (n : ℕ) (bytes : Bytes) (s : Sink W)
      → 0 < n
      → 0 < length bytes
      → s.header_parsed ≡ false
      → s.failed ≡ false
      → IsReading s
      → 1 ≤ (xci_rounds n bytes s).0
  unfolding xci_rounds
  xci_rounds-first zero bytes s more some_left unparsed going reading = omega (arith, more)
  xci_rounds-first (suc n) bytes s more some_left unparsed going reading =
      let one = (xci_round-Advances bytes s some_left reading).0 in
      if_cases (λ (r : ℕ × Sink W). 1 ≤ r.0) (length bytes == 0 || s.header_parsed || s.failed) _ _
        (λ e. absurd (ground (arith, e, unparsed, going, some_left))) (λ _. omega (arith, one))

  -- A round in the header phase.
  abbrev HeaderStep : ℕ × Sink W → Type 0
  HeaderStep r = (1 ≤ r.0) × IsReady r.1

  as-IsReady :
      (kind : Bool) (s : Sink W)
      → is_xci s.package_type ≡ kind
      → (s.header_parsed ≡ true) ⊎ ((s.failed ≡ true) ⊎ IsHeaderOpen kind s)
      → IsReady s
  as-IsReady kind s e ready =
      subst (λ (k : Bool). (s.header_parsed ≡ true) ⊎ ((s.failed ≡ true) ⊎ IsHeaderOpen k s))
        (sym e) ready

  header_step :
      (kind : Bool) (bytes : Bytes) (s : Sink W)
      → is_xci s.package_type ≡ kind
      → 0 < length bytes
      → s.header_parsed ≡ false
      → s.failed ≡ false
      → IsHeaderOpen kind s
      → HeaderStep (if kind then consume_xci_header bytes s else consume_nsp_header bytes s)
  unfolding consume_xci_header
  header_step true bytes s e some_left unparsed going reading = (
    xci_rounds-first (length bytes) bytes s some_left some_left unparsed going reading,
    as-IsReady true (consume_xci_header bytes s).1
        (same_kind s (consume_xci_header bytes s).1 (xci_rounds-core (length bytes) bytes s) ∙ e)
        (consume_xci_header-Ends bytes s (inr (inr reading))).ready,
  )
  header_step false bytes s e some_left unparsed going pending =
      let step = consume_nsp_header-IsNspReady bytes s some_left pending in
      (
        step.0,
        as-IsReady false (consume_nsp_header bytes s).1
            (same_kind s (consume_nsp_header bytes s).1 (consume_nsp_header-core bytes s) ∙ e)
            step.1,
      )

module _ {W : Type 0} (services : Services W) where
  Returns : ℕ → Bytes → Sink W → Type 0
  Returns n bytes s = (r : Bool × Sink W) × (write_rounds services n bytes s ≡ some r) × IsReady r.1

  failed-Returns : (n : ℕ) (bytes : Bytes) (s : Sink W) → s.failed ≡ true → Returns n bytes s
  unfolding write_rounds Returns
  failed-Returns zero bytes s failed = ((false, s), ground (arith, failed), inr (inl failed))
  failed-Returns (suc n) bytes s failed = ((false, s), ground (arith, failed), inr (inl failed))

  -- The round that a sink begins which has not failed, on some bytes: either nothing was taken and
  -- write stops, or the sink has failed, or a byte was taken and the sink is ready for the next.
  abbrev RoundEnds : ℕ × Option (Sink W) → Type 0
  RoundEnds (amount, none) = Unit
  RoundEnds (amount, some s') = (s'.failed ≡ true) ⊎ ((1 ≤ amount) × IsReady s')

  in_header :
      (bytes : Bytes) (s : Sink W)
      → 0 < length bytes
      → s.header_parsed ≡ false
      → s.failed ≡ false
      → IsReady s
      → HeaderStep (consume_header bytes s)
  in_header bytes s some_left unparsed going (inl parsed) = cc
  in_header bytes s some_left unparsed going (inr (inl failed)) = cc
  in_header bytes s some_left unparsed going (inr (inr pending)) =
      header_step (is_xci s.package_type) bytes s refl some_left unparsed going pending

  write_round-RoundEnds :
      (bytes : Bytes) (s : Sink W)
      → 0 < length bytes
      → s.failed ≡ false
      → IsReady s
      → RoundEnds (write_round services bytes s)
  unfolding write_round
  write_round-RoundEnds bytes s some_left going ready =
      if_cases RoundEnds (not s.header_parsed) _ _ (λ e. header_ends e)
        λ e.
          if_cases RoundEnds
            ((consume_data services bytes s).0 == 0 && not (consume_data services bytes s).1.failed)
            _ _ (λ _. tt)
            (λ some_taken. elim (Bool-cases (consume_data services bytes s).1.failed) [
              | inl failed ↦ inl failed
              | inr fine ↦ inr (
                ground (arith, some_taken, fine),
                inl (consume_data-Same services bytes s ∙ parsed e),
              )
            ])
    where
      header_ends :
          not s.header_parsed ≡ true
          → RoundEnds (
            (consume_header bytes s).0,
            some (receive (consume_header bytes s).0 (consume_header bytes s).1),
          )
      header_ends e =
          let step = in_header bytes s some_left (ground (arith, e)) going ready in
          inr
            (step.0, received-IsReady (consume_header bytes s).0 (consume_header bytes s).1 step.1)

      parsed : not s.header_parsed ≡ false → s.header_parsed ≡ true
      parsed e = ground arith

  abbrev next_round : ℕ → Bytes → Sink W → ℕ × Option (Sink W) → Option (Bool × Sink W)
  next_round n bytes s r = elim r.1 [
    | none ↦
        some (fail "el analizador del paquete no pudo avanzar" (consume_data services bytes s).1)
    | some s' ↦ write_rounds services n (drop r.0 bytes) s'
  ]

  next_returns :
      (n : ℕ) (bytes : Bytes) (s : Sink W) (r : ℕ × Option (Sink W))
      → length bytes ≤ suc n
      → RoundEnds r
      → ((s' : Sink W) (rest : Bytes)
          → length rest ≤ n
          → IsReady s'
          → (b : Bool × Sink W) × (write_rounds services n rest s' ≡ some b) × IsReady b.1)
      → (b : Bool × Sink W) × (next_round n bytes s r ≡ some b) × IsReady b.1
  unfolding Returns
  next_returns n bytes s (amount, none) enough ends recur = (
    fail "el analizador del paquete no pudo avanzar" (consume_data services bytes s).1,
    refl,
    inr (inl refl),
  )
  next_returns n bytes s (amount, some s') enough (inl failed) recur =
      failed-Returns n (drop amount bytes) s' failed
  next_returns n bytes s (amount, some s') enough (inr (one, ready)) recur =
      recur s' (drop amount bytes) (omega (arith, length-drop amount bytes, one, enough)) ready

  write_rounds-returns :
      (n : ℕ) (bytes : Bytes) (s : Sink W)
      → length bytes ≤ n
      → IsReady s
      → (b : Bool × Sink W) × (write_rounds services n bytes s ≡ some b) × IsReady b.1
  unfolding write_rounds
  write_rounds-returns zero bytes s enough ready =
      ((not s.failed, s), ground (arith, enough), ready)
  write_rounds-returns (suc n) bytes s enough ready =
      if_cases (λ (o : Option (Bool × Sink W)). (b : Bool × Sink W) × (o ≡ some b) × IsReady b.1)
        (length bytes == 0 || s.failed) _ _ (λ _. ((not s.failed, s), refl, ready))
        (λ e.
          next_returns n bytes s (write_round services bytes s) enough
            (write_round-RoundEnds bytes s (ground (arith, e)) (ground (arith, e)) ready)
            (λ s' rest. write_rounds-returns n rest s'))

  -- write returns for any bytes, whatever the services answer, where the header of the sink is
  -- parsed, refused, or being read: as many rounds as there are bytes are enough. The sink that it
  -- leaves is in such a state again, so the next write returns too.
  pub write-returns :
      (bytes : Bytes) (s : Sink W)
      → IsReady s
      → (b : Bool × Sink W) × (write services bytes s ≡ some b) × IsReady b.1
  unfolding write
  write-returns bytes s ready =
      if_cases (λ (o : Option (Bool × Sink W)). (b : Bool × Sink W) × (o ≡ some b) × IsReady b.1)
        (is_refused bytes s) _ _
        (λ _. (fail "flujo de paquete fuera de limites" s, refl, inr (inl refl)))
        (λ _. write_rounds-returns (length bytes) bytes s (omega arith) ready)
