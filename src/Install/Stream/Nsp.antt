-- ===== src/Install/Stream/Nsp.antt =====
-- consumeNspHeader makes progress.
use transferencia_switch.Base.{
  ℕ, ◌+◌, ◌-◌, ◌≤◌, ◌<◌, ◌≡◌, ◌≢◌, ◌⊎◌, inl, inr, true, not, ◌&&◌, length, length-append,
  length-take, take, ◌==◌, arith, Bool-cases, if_cases, min,
}
use transferencia_switch.Base.Bytes.{Bytes}
use transferencia_switch.Install.Header.{header_size}
use transferencia_switch.Install.Sink.{Sink}
use transferencia_switch.Install.Receive.{
  set_target, wanted, consume_nsp_header, parse_nsp_header, take_header, target_step, parse_step,
}
use transferencia_switch.Install.Xci.Advance.{IsOpen, IsOpenOrWhole}

module _ {W : Type 0} where
  -- A sink that reads the header of an NSP, has parsed it, or has failed.
  abbrev pub IsNspReady : Sink W → Type 0
  IsNspReady s =
      (s.header_parsed ≡ true) ⊎ ((s.failed ≡ true) ⊎ IsOpen s.header_target (length s.header))

  abbrev IsSized : Sink W → Type 0
  IsSized s = (s.failed ≡ true) ⊎ IsOpenOrWhole s.header_target (length s.header)

  wanted_cases :
      (s : Sink W)
      → ((s.header_target ≡ 0) × (wanted s ≡ header_size))
        ⊎ ((s.header_target ≢ 0) × (wanted s ≡ s.header_target))
  wanted_cases s = elim (Bool-cases (s.header_target == 0)) [
    | inl e ↦ inl (ground arith)
    | inr e ↦ inr (ground (arith, e))
  ]

  abbrev amount : Bytes → Sink W → ℕ
  amount bytes s = min (length bytes) (wanted s - length s.header)

  set_target-IsSized : (s : Sink W) → length s.header ≡ header_size → IsSized (set_target s)
  unfolding set_target
  set_target-IsSized s whole = ground (arith, whole)

  target_step-IsSized :
      (bytes : Bytes) (s : Sink W)
      → IsOpen s.header_target (length s.header)
      → IsSized (target_step (take_header (amount bytes s) bytes s))
  target_step-IsSized bytes s pending =
      if_cases IsSized (s.header_target == 0 && length read.header == header_size) _ _
        (λ e. set_target-IsSized read (ground (arith, e)))
        (λ e. inr (ground (arith, e, pending, wanted_cases s, grown)))
    where
      read : Sink W
      read = take_header (amount bytes s) bytes s

      grown : length read.header ≡ length s.header + amount bytes s
      grown = omega (
        arith,
        length-append s.header (take (amount bytes s) bytes),
        length-take (amount bytes s) bytes,
      )

  parse_nsp_header-failed :
      (s : Sink W)
      → ((parse_nsp_header s).1.header_parsed ≡ true) ⊎ ((parse_nsp_header s).1.failed ≡ true)
  unfolding parse_nsp_header
  parse_nsp_header-failed s = ground arith

  parse_step-IsNspReady : (s : Sink W) → IsSized s → IsNspReady (parse_step s)
  parse_step-IsNspReady s sized =
      if_cases IsNspReady
        (not s.failed && not (s.header_target == 0) && length s.header == s.header_target) _ _
        (λ _. elim (parse_nsp_header-failed s) [
          | inl parsed ↦ inl parsed
          | inr failed ↦ inr (inl failed)
        ])
        (λ e. inr (ground (arith, e, sized)))

  -- Where a sink reads the header of an NSP, consumeNspHeader takes a byte.
  pub consume_nsp_header-IsNspReady :
      (bytes : Bytes) (s : Sink W)
      → 0 < length bytes
      → IsOpen s.header_target (length s.header)
      → (1 ≤ (consume_nsp_header bytes s).0) × IsNspReady (consume_nsp_header bytes s).1
  unfolding consume_nsp_header
  consume_nsp_header-IsNspReady bytes s some_left pending = (
    omega (arith, some_left, pending, wanted_cases s),
    parse_step-IsNspReady (target_step (take_header (amount bytes s) bytes s))
        (target_step-IsSized bytes s pending),
  )
