-- ===== src/Install/Entries.antt =====
-- The data phase: the entries of a package are streamed into content storage (beginEntry,
-- consumeEntry, endEntry and consumeData of sd_install_receiver.cpp).
use transferencia_switch.Base.{
  ℕ, ◌+◌, ◌-◌, String, Bool, true, false, not, ◌&&◌, ◌||◌, List, [], ◌∷◌, ◌++◌, length, take, drop,
  ltb, ◌==◌, if◌then◌else◌, min,
}
use transferencia_switch.Base.Bytes.{Bytes, same}
use transferencia_switch.Base.Words.{u32_at}
use transferencia_switch.Install.Header.{Entry}
use transferencia_switch.Install.Services.{Services, succeeded}
use transferencia_switch.Install.Sink.{
  Sink, PackageType, nsp, xci, small_nca, bad_magic, fail, fail_with, fail_result,
}

abbrev pub nca_header_size : ℕ
nca_header_size = 0x4000

-- `std::map<std::string, …>::operator[]` and an assignment, in the order of the keys.
unfoldable pub bytes_before : Bytes → Bytes → Bool
bytes_before _ [] = false
bytes_before [] (b ∷ bs) = true
bytes_before (a ∷ as') (b ∷ bs) = ltb a b || a == b && bytes_before as' bs

unfoldable pub assign : Bytes → Bytes → List (Bytes × Bytes) → List (Bytes × Bytes)
assign k v [] = (k, v) ∷ []
assign k v ((j, w) ∷ m) =
    if same k j
    then (k, v) ∷ m
    else if bytes_before k j
    then (k, v) ∷ (j, w) ∷ m
    else (j, w) ∷ assign k v m

abbrev pub is_xci : PackageType → Bool
is_xci xci = true
is_xci nsp = false

-- `plain[at] = 0`
unfoldable pub clear_byte : ℕ → Bytes → Bytes
clear_byte at bytes = take at bytes ++ 0 ∷ drop (at + 1) bytes

abbrev pub stem : ℕ → Bytes → Bytes
stem suffix name = take (length name - suffix) name

module _ {W : Type 0} where
  abbrev pub and_then : Bool × Sink W → (Sink W → Bool × Sink W) → Bool × Sink W
  and_then r f = elim r.0 [ true ↦ f r.1 | false ↦ (false, r.1) ]

  abbrev pub note_cnmt : Entry → Sink W → Bool × Sink W
  note_cnmt entry s = (
    true,
    if entry.cnmt
        then record s { cnmt_ids = s.cnmt_ids ++ entry.content_id ∷ []; sidecar = [] }
        else record s { sidecar = [] },
  )

  abbrev pub keep_sidecar : Entry → Sink W → Sink W
  keep_sidecar entry s =
      if entry.ticket
      then record s { tickets = assign (stem 4 entry.name) s.sidecar s.tickets }
      else if entry.certificate
      then record s { certificates = assign (stem 5 entry.name) s.sidecar s.certificates }
      else s

  -- `++current_entry_; entry_started_ = false;`
  abbrev pub advance : Sink W → Sink W
  advance s = record s { current_entry = s.current_entry + 1; entry_started = false }

module _ {W : Type 0} (services : Services W) where
  -- An NCA that content storage has already: its size must be that of the entry.
  abbrev pub reuse_content : Entry → Sink W → Bool × Sink W
  reuse_content entry s =
      let (result, installed) = services.content_size entry.content_id s.world in
      if not (succeeded result) || not (installed == entry.size)
      then fail "NCA existente con tamano diferente" s
      else (
        true,
        record s { existing_nca_count = s.existing_nca_count + 1; skip_active_nca = true },
      )

  abbrev pub open_place_holder : Entry → Sink W → Bool × Sink W
  open_place_holder entry s =
      let (_, cleared) = services.delete_place_holder entry.content_id s.world in
      let (result, created) =
        services.create_place_holder entry.content_id entry.content_id entry.size cleared in
      if not (succeeded result)
      then fail_result "no se pudo crear placeholder SD" result (record s { world = created })
      else (
        true,
        record s { world = created; entry_placeholder_open = true; skip_active_nca = false },
      )

  abbrev pub begin_content : Entry → Sink W → Bool × Sink W
  begin_content entry s =
      let (result, present) = services.content_has entry.content_id s.world in
      if not (succeeded result)
      then fail_result "no se pudo consultar NCA" result s
      else if present
      then reuse_content entry s
      else open_place_holder entry s

  -- `beginEntry`
  unfoldable pub begin_entry : Entry → Sink W → Bool × Sink W
  begin_entry entry s0 =
      let s = record s0 { entry_started = true; sidecar = [] } in
      if not entry.nca
      then (true, s)
      else if is_xci s.package_type && not entry.cnmt && ltb entry.size nca_header_size
      then fail_with (small_nca entry.name entry.size) (record s { nca_header_buffer = [] })
      else begin_content entry
          (record s { nca_header_buffer = []; active_content_id = entry.content_id })

  -- `convertGamecardNcaHeader`: the distribution byte of the decrypted header is cleared.
  unfoldable pub convert_gamecard_nca_header : Sink W → Bool × Sink W
  convert_gamecard_nca_header s =
      if not (length s.nca_header_buffer == nca_header_size)
      then fail "cabecera NCA incompleta" s
      else let plain = services.xts_decrypt s.header_key s.nca_header_buffer in
        let magic = u32_at plain 0x200 in
        if not (magic == 0x3341434E) then fail_with (bad_magic magic) s else (
          true,
          record s {
            nca_header_buffer = services.xts_encrypt s.header_key (clear_byte 0x204 plain);
          },
        )

  abbrev pub write_place_holder : Entry → ℕ → Bytes → String → Sink W → Bool × Sink W
  write_place_holder entry offset bytes message s =
      let (result, world) = services.write_place_holder entry.content_id offset bytes s.world in
      if not (succeeded result)
      then fail_result message result (record s { world = world })
      else (true, record s { world = world })

  -- The converted header is written once it is whole.
  abbrev pub write_header : Entry → Sink W → Bool × Sink W
  write_header entry s =
      if length s.nca_header_buffer == nca_header_size
      then and_then (convert_gamecard_nca_header s) (λ s'.
        write_place_holder entry 0 s'.nca_header_buffer "fallo escribiendo cabecera NCA" s')
      else (true, s)

  -- The bytes of an NCA behind the ones that its header takes.
  abbrev pub write_rest : Entry → ℕ → Bytes → Sink W → Bool × Sink W
  write_rest entry offset rest s =
      if ltb 0 (length rest)
      then write_place_holder entry offset rest "fallo escribiendo placeholder" s
      else (true, s)

  abbrev pub consume_nca_header : Entry → ℕ → Bytes → Sink W → Bool × Sink W
  consume_nca_header entry offset bytes s =
      if not (length s.nca_header_buffer == offset)
      then fail "flujo de cabecera NCA no secuencial" s
      else let amount = min (length bytes) (nca_header_size - length s.nca_header_buffer) in
        and_then
          (write_header entry
            (record s { nca_header_buffer = s.nca_header_buffer ++ take amount bytes }))
          (write_rest entry (offset + amount) (drop amount bytes))

  -- `consumeEntry`
  unfoldable pub consume_entry : Entry → ℕ → Bytes → Sink W → Bool × Sink W
  consume_entry entry offset bytes s =
      if entry.nca && not s.skip_active_nca
      then (if is_xci s.package_type && not entry.cnmt && ltb offset nca_header_size
          then consume_nca_header entry offset bytes s
          else write_rest entry offset bytes s)
      else if entry.ticket || entry.certificate
      then (true, record s { sidecar = s.sidecar ++ bytes })
      else (true, s)

  abbrev pub register_content : Entry → Sink W → Bool × Sink W
  register_content entry s =
      let (flushed, world) = services.flush_place_holder s.world in
      if not (succeeded flushed)
      then fail_result "no se pudo sincronizar placeholder" flushed (record s { world = world })
      else let (result, world') = services.register entry.content_id entry.content_id world in
        if not (succeeded result)
        then fail_result "no se pudo registrar NCA" result (record s { world = world' })
        else (
          true,
          record s {
            world = world';
            entry_placeholder_open = false;
            newly_registered = s.newly_registered ++ entry.content_id ∷ [];
          },
        )

  -- `endEntry`
  unfoldable pub end_entry : Entry → Sink W → Bool × Sink W
  end_entry entry s =
      if entry.nca
      then and_then (if s.skip_active_nca then (true, s) else register_content entry s)
          (note_cnmt entry)
      else (true, record (keep_sidecar entry s) { sidecar = [] })
