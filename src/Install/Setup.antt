-- ===== src/Install/Setup.antt =====
-- How a sink comes to be and goes: initialize and the destructor of SdPackageInstallSink, and
-- SdInstallReceiverFactory, in sd_install_receiver.cpp.
pub mod Prepared
pub mod Opened
use transferencia_switch.Base.{
  ℕ, ◌*◌, String, Bool, true, false, not, ◌&&◌, Option, none, some, [], ◌∷◌, ◌++◌, take, drop, ltb,
  ◌==◌, if◌then◌else◌,
}
use transferencia_switch.Base.Bytes.{Bytes, codes, lower, after_last}
use transferencia_switch.Install.Names.{ends_with}
use transferencia_switch.Install.Services.{Services, succeeded}
use transferencia_switch.Install.Sink.{
  Sink, Detail, PackageType, nsp, xci, text, new_sink, fail, fail_result, has_known_final_size,
}
use transferencia_switch.Install.Entries.{and_then, is_xci}
use transferencia_switch.Install.Rollback.{abort}

-- The calls of libnx that start the services, parameters like those of Install/Services.
pub record SetupServices (W : Type 0) : Type 0 where
  pub ncm_initialize : W → ℕ × W
  pub open_content_storage : W → ℕ × W
  pub ns_initialize : W → ℕ × W
  pub get_application_manager : W → ℕ × W
  pub spl_crypto_initialize : W → ℕ × W
  pub spl_initialize : W → ℕ × W
  pub generate_aes_kek : Bytes → ℕ → ℕ → W → ℕ × Bytes
  pub generate_aes_key : Bytes → Bytes → W → ℕ × Bytes

abbrev pub min_package_size : ℕ
min_package_size = 1024 * 1024

abbrev header_kek_source : Bytes
header_kek_source =
    0x1F ∷ 0x12 ∷ 0x91 ∷ 0x3A ∷ 0x4A ∷ 0xCB ∷ 0xF0 ∷ 0x0D ∷ 0x4C ∷ 0xDE ∷ 0x3A ∷ 0xF6 ∷ 0xD5 ∷ 0x23
    ∷ 0x88 ∷ 0x2A ∷ []

abbrev header_key_source : Bytes
header_key_source =
    0x5A ∷ 0x3E ∷ 0xD8 ∷ 0x4F ∷ 0xDE ∷ 0xC0 ∷ 0xD8 ∷ 0x26 ∷ 0x31 ∷ 0xF7 ∷ 0xE2 ∷ 0x5D ∷ 0x19 ∷ 0x7B
    ∷ 0xF5 ∷ 0xD0 ∷ 0x1C ∷ 0x9B ∷ 0x7B ∷ 0xFA ∷ 0xF6 ∷ 0x28 ∷ 0x18 ∷ 0x3D ∷ 0x71 ∷ 0xF6 ∷ 0x4D
    ∷ 0x73 ∷ 0xF1 ∷ 0x50 ∷ 0xB9 ∷ 0xD2 ∷ []

-- `detail_` of the factory, less what a sink says.
abbrev pub ready_detail : PackageType → Detail
ready_detail xci = text "receptor XCI preparado"
ready_detail nsp = text "receptor NSP preparado"

module _ {W : Type 0} where
  -- A call, its result moved into the sink.
  abbrev pub after_call : String → ℕ × W → Sink W → Bool × Sink W
  after_call message (result, world) s =
      if not (succeeded result)
      then fail_result message result (record s { world = world })
      else (true, record s { world = world })

  abbrev pub with_key : ℕ × Bytes → Sink W → Bool × Sink W
  with_key (result, key) s =
      if not (succeeded result)
      then fail_result "no se pudo derivar NCA header key" result s
      else (true, record s { header_key = key })

module _ {W : Type 0} (setup : SetupServices W) where
  -- Half of the header key, unless a call has failed before.
  abbrev next_key : ℕ → Bytes → Bytes → W → ℕ × Bytes
  next_key result sealed_kek source w =
      if succeeded result then setup.generate_aes_key sealed_kek source w else (result, [])

  -- The key that is derived; a key whose halves are not both derived is never used.
  abbrev pub derived_key : W → ℕ × Bytes
  derived_key w =
      let (sealed, sealed_kek) = setup.generate_aes_kek header_kek_source 0 0 w in
      let (first, low) = next_key sealed sealed_kek (take 0x10 header_key_source) w in
      let (second, high) = next_key first sealed_kek (drop 0x10 header_key_source) w in
      (second, low ++ high)

  abbrev pub prepare_keys : Sink W → Bool × Sink W
  prepare_keys s =
      if is_xci s.package_type
      then and_then
          (after_call "no se pudo iniciar SPL crypto" (setup.spl_crypto_initialize s.world) s)
          (λ s1.
            and_then
              (after_call "no se pudo iniciar SPL general" (setup.spl_initialize s1.world) s1)
              (λ s2. with_key (derived_key s2.world) s2))
      else (true, s)

  -- initialize, from the end to the beginning: each service is started behind the ones before it.
  abbrev pub last_step : Sink W → Bool × Sink W
  last_step s = (true, record s { detail = ready_detail s.package_type })

  abbrev pub key_step : Sink W → Bool × Sink W
  key_step s = and_then (prepare_keys s) last_step

  abbrev pub manager_step : Sink W → Bool × Sink W
  manager_step s =
      and_then
        (after_call "no se pudo abrir ApplicationManager" (setup.get_application_manager s.world) s)
        key_step

  abbrev pub ns_step : Sink W → Bool × Sink W
  ns_step s =
      and_then (after_call "no se pudo iniciar NS" (setup.ns_initialize s.world) s) manager_step

  abbrev pub storage_opened : Sink W → Bool × Sink W
  storage_opened s = ns_step (record s { content_storage_open = true })

  abbrev pub storage_step : Sink W → Bool × Sink W
  storage_step s =
      and_then
        (after_call "no se pudo abrir ContentStorage SD" (setup.open_content_storage s.world) s)
        storage_opened

  -- `initialize`
  unfoldable pub initialize : Sink W → Bool × Sink W
  initialize s =
      if has_known_final_size s && ltb s.expected_size min_package_size
      then fail "tamano de paquete no compatible en esta version" s
      else and_then (after_call "no se pudo iniciar NCM" (setup.ncm_initialize s.world) s)
          storage_step

-- `SdInstallReceiverFactory`
pub record Factory : Type 0 where
  pub storage_id : ℕ
  pub detail : Detail

unfoldable pub handles : Factory → ℕ → Bool
handles factory storage_id = storage_id == factory.storage_id

-- The part of a path behind its last separator.
abbrev pub file_part : Bytes → Bytes
file_part path = elim (after_last b'/' path) [ none ↦ path | some name ↦ name ]

-- The type of a package, by its name.
unfoldable pub package_of : Bytes → Option PackageType
package_of name =
    let normalized = lower name in
    if not (ends_with normalized (codes ".nsp")) && not (ends_with normalized (codes ".xci"))
    then none
    else some (if ends_with normalized (codes ".xci") then xci else nsp)

module _ {W : Type 0} (services : Services W) where
  -- `~SdPackageInstallSink`; the services that it closes hold nothing else.
  unfoldable pub destroy : Sink W → Sink W
  destroy s = if s.finished then s else abort services s

module _ {W : Type 0} (services : Services W) (setup : SetupServices W) where
  -- What the factory makes of a sink that was initialized: the sink, itself and the services.
  abbrev pub settle : Bool × Sink W → Factory → Option (Sink W) × Factory × W
  settle (true, s) factory =
      (some s, record factory { detail = ready_detail s.package_type }, s.world)
  settle (false, s) factory =
      (none, record factory { detail = s.detail }, (destroy services s).world)

  abbrev pub open_name :
      Bytes → Option PackageType → ℕ → Factory → W → Option (Sink W) × Factory × W
  open_name name none expected_size factory w =
      (none, record factory { detail = text "solo NSP o XCI sin compresion en esta version" }, w)
  open_name name (some package_type) expected_size factory w =
      settle (initialize setup (new_sink name expected_size package_type w)) factory

  abbrev pub open_path : ℕ → Option Bytes → ℕ → Factory → W → Option (Sink W) × Factory × W
  open_path storage_id none expected_size factory w =
      (none, record factory { detail = text "storage de instalacion invalido" }, w)
  open_path storage_id (some path) expected_size factory w =
      if not (handles factory storage_id)
      then (none, record factory { detail = text "storage de instalacion invalido" }, w)
      else open_name (file_part path) (package_of (file_part path)) expected_size factory w

  -- `open`
  unfoldable pub open_sink : ℕ → Option Bytes → ℕ → Factory → W → Option (Sink W) × Factory × W
  open_sink storage_id path expected_size factory w =
      open_path storage_id path expected_size (record factory { detail = text "evaluando archivo" })
        w
