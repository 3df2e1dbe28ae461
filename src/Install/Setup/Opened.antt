-- ===== src/Install/Setup/Opened.antt =====
-- What a sink that the factory opens starts from.
use transferencia_switch.Base.{
  ℕ, ◌≤◌, ◌≡◌, refl, ◌∙◌, ◌⊎◌, Bool, true, false, not, Option, none, some, arith, if_cases, ap, sym,
}
use transferencia_switch.Base.Bytes.{Bytes}
use transferencia_switch.Install.Services.{Services}
use transferencia_switch.Install.Sink.{Sink, PackageType, new_sink, unknown_mtp_object_size, text}
use transferencia_switch.Install.Undo.{IsFresh}
use transferencia_switch.Install.Stream.Total.{IsReady}
use transferencia_switch.Install.Setup.{
  SetupServices, min_package_size, initialize, Factory, handles, file_part, package_of, settle,
  open_name, open_sink,
}
use transferencia_switch.Install.Setup.Prepared.{SetupLaws, Same, Prepared, initialize-Prepared}

module _ {W : Type 0} (services : Services W) (setup : SetupServices W)
    (installed : Bytes → W → Bool) (laws : SetupLaws setup installed) (w : W) where
  -- The end of the path.
  abbrev IsNamed : Option Bytes → Bytes → Type 0
  IsNamed none name = ⊥
  IsNamed (some path) name = name ≡ file_part path

  -- What open makes of a path: no sink, with the contents as they were; or a fresh sink for a package
  -- file of the factory's storage.
  pub Opened : ℕ → Option Bytes → ℕ → Factory → Option (Sink W) × Factory × W → Type 0
  Opened storage_id path size factory (none, after, v) = Same services setup installed laws w v
  Opened storage_id path size factory (some s, after, v) =
      Same services setup installed laws w s.world
      × IsFresh s
      × IsReady s
      × (handles factory storage_id ≡ true)
      × IsNamed path s.name
      × (package_of s.name ≡ some s.package_type)
      × (s.expected_size ≡ size)
      × ((size ≡ unknown_mtp_object_size) ⊎ (min_package_size ≤ size))

  settle-Opened :
      (storage_id : ℕ) (path : Bytes) (size : ℕ) (factory f : Factory) (type : PackageType)
      (r : Bool × Sink W)
      → handles factory storage_id ≡ true
      → package_of (file_part path) ≡ some type
      → Prepared services setup installed laws w (file_part path) size type r
      → Opened storage_id (some path) size factory (settle services setup r f)
  unfolding Opened
  settle-Opened storage_id path size factory f type (false, s) right spelled p = p
  settle-Opened storage_id path size factory f type (true, s) right spelled
        (same, fresh, header_open, n, z, type_eq, fits) =
      (
        same,
        fresh,
        header_open,
        right,
        n,
        ap package_of n ∙ (spelled ∙ ap some (sym type_eq)),
        z,
        fits,
      )

  -- A sink that the factory opens is fresh and ready for its header; the storage is the factory's,
  -- the name is the end of the path, with a suffix that says the package's type, and a size that is
  -- known is at least 1 MiB. Opening a sink, or refusing to, changes no contents, also where a
  -- service does not start and the sink is destroyed.
  pub open_sink-Opened :
      (storage_id : ℕ) (path : Option Bytes) (size : ℕ) (factory : Factory)
      → Opened storage_id path size factory
          (open_sink services setup storage_id path size factory w)
  unfolding open_sink Opened handles
  open_sink-Opened storage_id none size factory = λ j. refl
  open_sink-Opened storage_id (some path) size factory =
      if_cases (Opened storage_id (some path) size factory) (not (handles started storage_id)) _ _
        (λ _. λ j. refl) (λ e. named (package_of (file_part path)) refl (ground (arith, e)))
    where
      started : Factory
      started = record factory { detail = text "evaluando archivo" }

      named :
          (type : Option PackageType)
          → package_of (file_part path) ≡ type
          → handles factory storage_id ≡ true
          → Opened storage_id
              (some path)
              size
              factory
              (open_name services setup (file_part path) type size started w)
      named none e right = λ j. refl
      named (some type) e right =
          settle-Opened storage_id path size factory started type
            (initialize setup (new_sink (file_part path) size type w)) right e
            (initialize-Prepared services setup installed laws w (file_part path) size type)
