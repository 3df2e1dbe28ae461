-- ===== src/Install/Xci/Advance.antt =====
-- consumeXciHeader makes progress: each round takes at least one byte.
use transferencia_switch.Base.{
  ℕ, ◌+◌, ◌-◌, ◌≤◌, ◌<◌, ◌≡◌, ◌≢◌, refl, ◌⊎◌, inl, inr, Bool, true, false, not, ◌||◌, ◌&&◌, ◌++◌,
  length, length-append, length-take, take, ltb, ◌==◌, arith, Bool-cases, Option-cases, if_cases,
  min, String,
}
use transferencia_switch.Base.Bytes.{Bytes}
use transferencia_switch.Base.Words.{add_u64}
use transferencia_switch.Base.Results.{Result, yields, stops}
use transferencia_switch.Install.Header.{Pfs0Header, read_header, header_size}
use transferencia_switch.Install.Sink.{Sink, has_known_final_size}
use transferencia_switch.Install.Xci.{
  xci_root_offset, set_hfs_header_target, RootProgress, take_secure, find_secure_partition,
  parse_xci_secure_header,
}
use transferencia_switch.Install.Xci.Consume.{
  hfs_wanted, move_cursor, root_target, root_sized, root_found, take_root, secure_target,
  secure_sized, secure_parsed, take_secure_header, data_begins, xci_round,
}

-- A header that is being read: its first 16 bytes, or all of it.
abbrev pub IsOpen : ℕ → ℕ → Type 0
IsOpen target read = ((target ≡ 0) × (read < header_size)) ⊎ (read < target)

-- The root table is being read, or is whole.
abbrev pub IsOpenOrWhole : ℕ → ℕ → Type 0
IsOpenOrWhole target read = ((target ≡ 0) × (read < header_size)) ⊎ ((target ≢ 0) × (read ≤ target))

set_hfs_header_target-gt :
    (base : Pfs0Header) (error : String) (target : ℕ)
    → set_hfs_header_target base error ≡ yields target
    → header_size < target
unfolding set_hfs_header_target
set_hfs_header_target-gt base error target e = ground arith

hfs_wanted_cases :
    (target : ℕ)
    → ((target ≡ 0) × (hfs_wanted target ≡ header_size))
      ⊎ ((target ≢ 0) × (hfs_wanted target ≡ target))
hfs_wanted_cases target = elim (Bool-cases (target == 0)) [
  | inl e ↦ inl (ground arith)
  | inr e ↦ inr (ground (arith, e))
]

-- How far a header has come after a part of it.
grown :
    (target : ℕ) (header bytes : Bytes)
    → length (header ++ take (min (length bytes) (hfs_wanted target - length header)) bytes)
      ≡ length header + min (length bytes) (hfs_wanted target - length header)
grown target header bytes = omega (
  arith,
  length-append header (take (min (length bytes) (hfs_wanted target - length header)) bytes),
  length-take (min (length bytes) (hfs_wanted target - length header)) bytes,
)

module _ {W : Type 0} where
  -- A sink that reads the header of an XCI.
  abbrev pub IsReading : Sink W → Type 0
  IsReading s =
      IsOpenOrWhole s.xci_root_target (length s.xci_root_header)
      × IsOpen s.xci_secure_target (length s.xci_secure_header)

  abbrev IsRootReady : Sink W → Type 0
  IsRootReady s = (s.failed ≡ true) ⊎ IsReading s

  abbrev pub IsXciReady : Sink W → Type 0
  IsXciReady s = (s.header_parsed ≡ true) ⊎ IsRootReady s

  abbrev IsRootBegun : Sink W → Type 0
  IsRootBegun s =
      (((s.xci_root_target ≡ 0) × (length s.xci_root_header ≤ header_size))
        ⊎ ((s.xci_root_target ≢ 0) × (length s.xci_root_header ≤ s.xci_root_target)))
      × IsOpen s.xci_secure_target (length s.xci_secure_header)

  sized :
      (s : Sink W) (r : Result ℕ)
      → ((target : ℕ) → r ≡ yields target → header_size < target)
      → length s.xci_root_header ≡ header_size
      → IsOpen s.xci_secure_target (length s.xci_secure_header)
      → IsRootReady (root_target r s)
  sized s (stops m) gt whole pending = inl refl
  sized s (yields t) gt whole pending =
      inr (inr (omega (arith, gt t refl), omega (arith, gt t refl, whole)), pending)

  root_sized-IsRootReady : (s : Sink W) → IsRootBegun s → IsRootReady (root_sized s)
  root_sized-IsRootReady s (begun, pending) =
      if_cases IsRootReady (s.xci_root_target == 0 && length s.xci_root_header == header_size) _ _
        (λ e.
          sized s (set_hfs_header_target (read_header s.xci_root_header) "HFS0 raiz invalido")
            (λ t. set_hfs_header_target-gt _ _ t) (ground arith) pending)
        (λ e. inr (ground (arith, begun), pending))

  found_keeps : (s : Sink W) (r : Result RootProgress) → IsReading s → IsReading (take_secure r s).1
  found_keeps s (stops m) reading = reading
  found_keeps s (yields p) reading = elim (Option-cases p.secure) [
    | inl absent ↦ ground (arith, reading)
    | inr ((offset, size), found) ↦ ground (arith, found, reading)
  ]

  root_found-IsRootReady : (s : Sink W) → IsRootReady s → IsRootReady (root_found s)
  unfolding find_secure_partition
  root_found-IsRootReady s ready =
      if_cases IsRootReady
        (s.failed || s.xci_root_target == 0 || ltb (length s.xci_root_header) s.xci_root_target) _ _
        (λ _. ready) (λ e. go ready (ground arith))
    where
      go : IsRootReady s → s.failed ≡ false → IsRootReady (find_secure_partition s).1
      go (inl stopped) going = cc
      go (inr reading) going = inr (found_keeps s _ reading)

  abbrev pub root_read : Bytes → Sink W → Sink W
  root_read bytes s =
      let amount = min (length bytes) (hfs_wanted s.xci_root_target - length s.xci_root_header) in
      move_cursor amount (record s { xci_root_header = s.xci_root_header ++ take amount bytes })

  root_read-begun : (bytes : Bytes) (s : Sink W) → IsReading s → IsRootBegun (root_read bytes s)
  root_read-begun bytes s (root, secure) = (
    omega (
      arith,
      root,
      hfs_wanted_cases s.xci_root_target,
      grown s.xci_root_target s.xci_root_header bytes,
    ),
    secure,
  )

  -- A part of the root table: it takes a byte, and the sink has failed or reads on.
  take_root-IsXciReady :
      (bytes : Bytes) (s : Sink W)
      → 0 < length bytes
      → (s.xci_root_target ≡ 0) ⊎ (length s.xci_root_header < s.xci_root_target)
      → IsReading s
      → (1 ≤ (take_root bytes s).0) × IsXciReady (take_root bytes s).1
  take_root-IsXciReady bytes s some_left short reading = (
    omega (arith, reading.0, short, hfs_wanted_cases s.xci_root_target),
    inr (
        root_found-IsRootReady (root_sized (root_read bytes s))
          (root_sized-IsRootReady (root_read bytes s) (root_read-begun bytes s reading))),
  )

  abbrev pub secure_read : Bytes → Sink W → Sink W
  secure_read bytes s =
      let amount =
        min (length bytes) (hfs_wanted s.xci_secure_target - length s.xci_secure_header) in
      move_cursor amount (record s { xci_secure_header = s.xci_secure_header ++ take amount bytes })

  abbrev IsRoot : Sink W → Type 0
  IsRoot s = IsOpenOrWhole s.xci_root_target (length s.xci_root_header)

  -- The secure table after a part of it, which may be whole.
  abbrev IsSecureBegun : Sink W → Type 0
  IsSecureBegun s =
      IsRoot s
      × (((s.xci_secure_target ≡ 0) × (length s.xci_secure_header ≤ header_size))
          ⊎ ((s.xci_secure_target ≢ 0) × (length s.xci_secure_header ≤ s.xci_secure_target)))

  abbrev IsSecureSized : Sink W → Type 0
  IsSecureSized s =
      (s.failed ≡ true)
      ⊎ (IsRoot s × IsOpenOrWhole s.xci_secure_target (length s.xci_secure_header))

  secure_read-begun :
      (bytes : Bytes) (s : Sink W) → IsReading s → IsSecureBegun (secure_read bytes s)
  secure_read-begun bytes s (root, secure) = (
    root,
    omega (
      arith,
      secure,
      hfs_wanted_cases s.xci_secure_target,
      grown s.xci_secure_target s.xci_secure_header bytes,
    ),
  )

  targeted :
      (s : Sink W) (r : Result ℕ)
      → ((target : ℕ) → r ≡ yields target → header_size < target)
      → length s.xci_secure_header ≡ header_size
      → IsRoot s
      → IsSecureSized (secure_target r s)
  targeted s (stops m) gt whole root = inl refl
  targeted s (yields t) gt whole root =
      if_cases IsSecureSized
        (has_known_final_size s && ltb s.expected_size (add_u64 s.xci_secure_offset t)) _ _
        (λ _. inl refl)
        (λ _. inr (root, inr (omega (arith, gt t refl), omega (arith, gt t refl, whole))))

  secure_sized-IsSecureSized : (s : Sink W) → IsSecureBegun s → IsSecureSized (secure_sized s)
  secure_sized-IsSecureSized s (root, begun) =
      if_cases IsSecureSized (s.xci_secure_target == 0 && length s.xci_secure_header == header_size)
        _ _
        (λ e.
          targeted s
            (set_hfs_header_target (read_header s.xci_secure_header) "HFS0 secure invalido")
            (λ t. set_hfs_header_target-gt _ _ t) (ground arith) root)
        (λ e. inr (root, ground (arith, begun)))

  parsed_or_failed :
      (s : Sink W) (r : Bool × Sink W)
      → (r.0 ≡ false → r.1.failed ≡ true)
      → IsXciReady (data_begins r)
  parsed_or_failed s (true, s') stopped = inl refl
  parsed_or_failed s (false, s') stopped = inr (inl (stopped refl))

  parse_xci_secure_header-failed :
      (s : Sink W)
      → (parse_xci_secure_header s).0 ≡ false
      → (parse_xci_secure_header s).1.failed ≡ true
  unfolding parse_xci_secure_header
  parse_xci_secure_header-failed s stopped = ground arith

  secure_parsed-IsXciReady : (s : Sink W) → IsSecureSized s → IsXciReady (secure_parsed s)
  secure_parsed-IsXciReady s ready =
      if_cases IsXciReady
        (not s.failed
          && not (s.xci_secure_target == 0)
          && length s.xci_secure_header == s.xci_secure_target)
        _ _ (λ _. parsed_or_failed s (parse_xci_secure_header s) (parse_xci_secure_header-failed s))
        (λ e. inr (still ready e))
    where
      still :
          IsSecureSized s
          → (not s.failed
              && not (s.xci_secure_target == 0)
              && length s.xci_secure_header == s.xci_secure_target)
            ≡ false
          → IsRootReady s
      still (inl stopped) e = inl stopped
      still (inr (root, secure)) e = elim (Bool-cases s.failed) [
        | inl stopped ↦ inl stopped
        | inr going ↦ inr (root, ground (arith, secure, e, going))
      ]

  take_secure_header-IsXciReady :
      (bytes : Bytes) (s : Sink W)
      → 0 < length bytes
      → IsReading s
      → (1 ≤ (take_secure_header bytes s).0) × IsXciReady (take_secure_header bytes s).1
  take_secure_header-IsXciReady bytes s some_left reading = (
    omega (arith, reading.1, some_left, hfs_wanted_cases s.xci_secure_target),
    secure_parsed-IsXciReady (secure_sized (secure_read bytes s))
        (secure_sized-IsSecureSized (secure_read bytes s) (secure_read-begun bytes s reading)),
  )

  abbrev pub Advances : ℕ × Sink W → Type 0
  Advances r = (1 ≤ r.0) × IsXciReady r.1

  pub xci_round-Advances :
      (bytes : Bytes) (s : Sink W) → 0 < length bytes → IsReading s → Advances (xci_round bytes s)
  unfolding xci_round
  xci_round-Advances bytes s some_left reading =
      if_cases Advances (ltb s.xci_cursor xci_root_offset) _ _
        (λ e. (ground (arith, e, some_left), inr (inr reading)))
        λ _.
          if_cases Advances
            (s.xci_root_target == 0 || ltb (length s.xci_root_header) s.xci_root_target) _ _
            (λ e. take_root-IsXciReady bytes s some_left (ground (arith, e)) reading)
            λ _.
              if_cases Advances (ltb s.xci_cursor s.xci_secure_offset) _ _
                (λ e. (ground (arith, e, some_left), inr (inr reading)))
                (λ _. take_secure_header-IsXciReady bytes s some_left reading)
