-- ===== src/Install/Stream/Core.antt =====
-- What the header phase leaves alone: the state of the services, what was registered, and how far
-- the installation has come.
use transferencia_switch.Base.{
  ℕ, zero, suc, ◌-◌, min, ◌≡◌, refl, ◌∙◌, Bool, true, false, not, ◌||◌, ◌&&◌, some, List, length,
  drop, ltb, ◌==◌, Option-cases, if_cases, inl, inr,
}
use transferencia_switch.Base.Bytes.{Bytes}
use transferencia_switch.Base.Words.{add_u64, u32_at}
use transferencia_switch.Base.Results.{Result, yields, stops}
use transferencia_switch.Install.Header.{
  start, header_size, Parsed, parse_table, read_header, pfs0_magic, max_files, max_header_size,
}
use transferencia_switch.Install.Sink.{Sink, PackageType, has_known_final_size}
use transferencia_switch.Install.Receive.{
  set_target, declared_size, consume_nsp_header, parse_nsp_header, after_table, check_size,
  infer_size, take_header, target_step, parse_step, wanted,
}
use transferencia_switch.Install.Xci.{
  xci_root_offset, secure_rounds, RootProgress, take_secure, take_entries, find_secure_partition,
  parse_xci_secure_header, xci_inferred,
}
use transferencia_switch.Install.Xci.Consume.{
  root_target, root_sized, root_found, secure_target, secure_sized, data_begins, secure_parsed,
  xci_round, xci_rounds, consume_xci_header,
}
use transferencia_switch.Install.Xci.Advance.{root_read, secure_read}
use transferencia_switch.Install.Entries.{is_xci}
use transferencia_switch.Install.Stream.{consume_header}

module _ {W : Type 0} where
  abbrev pub core : Sink W → W × List Bytes × Bool × Bool × Bool × Bool × PackageType
  core s = (
    s.world, s.newly_registered, s.content_storage_open, s.aborted, s.finished, s.entry_started,
    s.package_type,
  )

  abbrev pub SameCore : Sink W → Sink W → Type 0
  SameCore s t = core t ≡ core s

  abbrev Keeps : (Sink W → Sink W) → Type 0
  Keeps f = (s : Sink W) → SameCore s (f s)

  set_target-core : Keeps set_target
  unfolding set_target
  set_target-core s =
      if_cases (SameCore s)
        (not ((read_header s.header).magic == pfs0_magic)
          || (read_header s.header).file_count == 0
          || ltb max_files (read_header s.header).file_count)
        _ _ (λ _. refl)
        λ _.
          if_cases (SameCore s)
            (ltb max_header_size (declared_size s.header)
              || has_known_final_size s && ltb s.expected_size (declared_size s.header))
            _ _ (λ _. refl) (λ _. refl)

  infer_size-core : (total : ℕ) → Keeps (infer_size total)
  infer_size-core total s =
      if_cases (SameCore s) (has_known_final_size s) _ _ (λ _. refl) (λ _. refl)

  check_size-core : (total : ℕ) → Keeps (λ s. (check_size total s).1)
  check_size-core total s =
      if_cases (λ (r : Bool × Sink W). SameCore s r.1) (not (total == s.expected_size)) _ _
        (λ _. refl) (λ _. refl)

  after_table-core : (parsed : Parsed) → Keeps (λ s. (after_table parsed s).1)
  after_table-core parsed s = elim (Option-cases parsed.failure) [
    | inl e ↦ rw e (
        check_size-core _ (infer_size _ (record s { entries = parsed.progress.entries }))
        ∙ infer_size-core _ (record s { entries = parsed.progress.entries }))
    | inr (message, e) ↦ rw e refl
  ]

  parse_nsp_header-core : Keeps (λ s. (parse_nsp_header s).1)
  unfolding parse_nsp_header
  parse_nsp_header-core s = after_table-core (parse_table s.header s.header_target) s

  target_step-core : Keeps target_step
  target_step-core s =
      if_cases (SameCore s) (s.header_target == 0 && length s.header == header_size) _ _
        (λ _. set_target-core s) (λ _. refl)

  parse_step-core : Keeps parse_step
  parse_step-core s =
      if_cases (SameCore s)
        (not s.failed && not (s.header_target == 0) && length s.header == s.header_target) _ _
        (λ _. parse_nsp_header-core s) (λ _. refl)

  pub consume_nsp_header-core : (bytes : Bytes) → Keeps (λ s. (consume_nsp_header bytes s).1)
  unfolding consume_nsp_header
  consume_nsp_header-core bytes s =
      let read = take_header (min (length bytes) (wanted s - length s.header)) bytes s in
      parse_step-core (target_step read) ∙ target_step-core read

  take_secure-core : (r : Result RootProgress) → Keeps (λ s. (take_secure r s).1)
  take_secure-core (stops message) s = refl
  take_secure-core (yields p) s = elim (Option-cases p.secure) [
    | inl absent ↦ rw absent refl
    | inr ((offset, size), found) ↦ rw found (placed offset size)
  ]
    where
      inferred : SameCore s (xci_inferred p.computed_end s)
      inferred = if_cases (SameCore s) (has_known_final_size s) _ _ (λ _. refl) (λ _. refl)

      placed :
          (offset size : ℕ)
          → SameCore s
              (take_secure
                (yields (record { secure = some (offset, size); computed_end = p.computed_end }))
                s).1
      placed offset size =
          if_cases (λ (r : Bool × Sink W). SameCore s r.1) (ltb offset s.xci_cursor) _ _
            (λ _. inferred) (λ _. inferred)

  found-core : Keeps (λ s. (find_secure_partition s).1)
  unfolding find_secure_partition
  found-core s = take_secure-core _ s

  root_found-core : Keeps root_found
  root_found-core s =
      if_cases (SameCore s)
        (s.failed || s.xci_root_target == 0 || ltb (length s.xci_root_header) s.xci_root_target) _ _
        (λ _. refl) (λ _. found-core s)

  targeted-core : (r : Result ℕ) → Keeps (root_target r)
  targeted-core (stops message) s = refl
  targeted-core (yields target) s = refl

  root_sized-core : Keeps root_sized
  root_sized-core s =
      if_cases (SameCore s) (s.xci_root_target == 0 && length s.xci_root_header == header_size) _ _
        (λ _. targeted-core _ s) (λ _. refl)

  secure_targeted-core : (r : Result ℕ) → Keeps (secure_target r)
  secure_targeted-core (stops message) s = refl
  secure_targeted-core (yields target) s =
      if_cases (SameCore s)
        (has_known_final_size s && ltb s.expected_size (add_u64 s.xci_secure_offset target)) _ _
        (λ _. refl) (λ _. refl)

  secure_sized-core : Keeps secure_sized
  secure_sized-core s =
      if_cases (SameCore s) (s.xci_secure_target == 0 && length s.xci_secure_header == header_size)
        _ _ (λ _. secure_targeted-core _ s) (λ _. refl)

  parsed-core : (s : Sink W) (r : Bool × Sink W) → SameCore s r.1 → SameCore s (data_begins r)
  parsed-core s (true, t) same = same
  parsed-core s (false, t) same = same

  take_entries-core : (parsed : Parsed) → Keeps (λ s. (take_entries parsed s).1)
  take_entries-core parsed s = elim (Option-cases parsed.failure) [
    | inl e ↦ rw e refl
    | inr (message, e) ↦ rw e refl
  ]

  parse_xci-core : Keeps (λ s. (parse_xci_secure_header s).1)
  unfolding parse_xci_secure_header
  parse_xci-core s =
      if_cases (λ (r : Bool × Sink W). SameCore s r.1) (ltb s.xci_secure_size s.xci_secure_target) _
        _ (λ _. refl)
        (λ _.
          take_entries-core
            (secure_rounds (u32_at s.xci_secure_header 4) s.xci_secure_header
              (add_u64 s.xci_secure_offset s.xci_secure_target)
              (s.xci_secure_size - s.xci_secure_target) 0 start)
            s)

  secure_parsed-core : Keeps secure_parsed
  secure_parsed-core s =
      if_cases (SameCore s)
        (not s.failed
          && not (s.xci_secure_target == 0)
          && length s.xci_secure_header == s.xci_secure_target)
        _ _ (λ _. parsed-core s (parse_xci_secure_header s) (parse_xci-core s)) (λ _. refl)

  xci_round-core : (bytes : Bytes) → Keeps (λ s. (xci_round bytes s).1)
  unfolding xci_round
  xci_round-core bytes s =
      if_cases (λ (r : ℕ × Sink W). SameCore s r.1) (ltb s.xci_cursor xci_root_offset) _ _
        (λ _. refl)
        λ _.
          if_cases (λ (r : ℕ × Sink W). SameCore s r.1)
            (s.xci_root_target == 0 || ltb (length s.xci_root_header) s.xci_root_target) _ _
            (λ _.
              root_found-core (root_sized (root_read bytes s))
              ∙ root_sized-core (root_read bytes s))
            λ _.
              if_cases (λ (r : ℕ × Sink W). SameCore s r.1) (ltb s.xci_cursor s.xci_secure_offset) _
                _ (λ _. refl)
                (λ _.
                  secure_parsed-core (secure_sized (secure_read bytes s))
                  ∙ secure_sized-core (secure_read bytes s))

  pub xci_rounds-core : (n : ℕ) (bytes : Bytes) → Keeps (λ s. (xci_rounds n bytes s).1)
  unfolding xci_rounds
  xci_rounds-core zero bytes s = refl
  xci_rounds-core (suc n) bytes s =
      if_cases (λ (r : ℕ × Sink W). SameCore s r.1)
        (length bytes == 0 || s.header_parsed || s.failed) _ _ (λ _. refl)
        (λ _.
          xci_rounds-core n (drop (xci_round bytes s).0 bytes) (xci_round bytes s).1
          ∙ xci_round-core bytes s)

  pub consume_header-core : (bytes : Bytes) → Keeps (λ s. (consume_header bytes s).1)
  unfolding consume_xci_header
  consume_header-core bytes s =
      if_cases (λ (r : ℕ × Sink W). SameCore s r.1) (is_xci s.package_type) _ _
        (λ _. xci_rounds-core (length bytes) bytes s) (λ _. consume_nsp_header-core bytes s)
