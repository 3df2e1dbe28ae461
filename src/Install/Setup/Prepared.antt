-- ===== src/Install/Setup/Prepared.antt =====
-- What initialize leaves of a new sink: started services, or a sink that can be destroyed.
use transferencia_switch.Base.{
  ℕ, ◌≤◌, ◌≡◌, refl, ◌∙◌, ◌⊎◌, inl, inr, Bool, true, false, not, ◌&&◌, [], ltb, ◌==◌, arith,
  if_cases, Bool-cases,
}
use transferencia_switch.Base.Bytes.{Bytes}
use transferencia_switch.Install.Services.{Services, succeeded}
use transferencia_switch.Install.Sink.{
  Sink, Detail, PackageType, nsp, xci, new_sink, has_known_final_size, unknown_mtp_object_size,
  empty,
}
use transferencia_switch.Install.Entries.{and_then}
use transferencia_switch.Install.Rollback.{abort, rollback, delete_contents, drop_keys}
use transferencia_switch.Install.Undo.{IsFresh}
use transferencia_switch.Install.Stream.Total.{IsReady}
use transferencia_switch.Install.Setup.{
  SetupServices, min_package_size, after_call, with_key, derived_key, prepare_keys, last_step,
  key_step, manager_step, ns_step, storage_opened, storage_step, initialize, ready_detail, destroy,
}

-- Starting the services leaves the contents of content storage alone.
pub record SetupLaws {W : Type 0} (setup : SetupServices W) (installed : Bytes → W → Bool)
    : Type 0 where
  pub ncm_initialize_keeps :
      (j : Bytes) (w : W) → installed j (setup.ncm_initialize w).1 ≡ installed j w
  pub open_content_storage_keeps :
      (j : Bytes) (w : W) → installed j (setup.open_content_storage w).1 ≡ installed j w
  pub ns_initialize_keeps :
      (j : Bytes) (w : W) → installed j (setup.ns_initialize w).1 ≡ installed j w
  pub get_application_manager_keeps :
      (j : Bytes) (w : W) → installed j (setup.get_application_manager w).1 ≡ installed j w
  pub spl_crypto_initialize_keeps :
      (j : Bytes) (w : W) → installed j (setup.spl_crypto_initialize w).1 ≡ installed j w
  pub spl_initialize_keeps :
      (j : Bytes) (w : W) → installed j (setup.spl_initialize w).1 ≡ installed j w

module _ {W : Type 0} (services : Services W) (setup : SetupServices W)
    (installed : Bytes → W → Bool) (laws : SetupLaws setup installed) (w : W) where
  abbrev pub Same : W → Type 0
  Same v = (j : Bytes) → installed j v ≡ installed j w

  -- A sink to which nothing has happened but that services were started.
  abbrev blank : Bytes → ℕ → PackageType → Detail → Bool → Bool → Bytes → W → Sink W
  blank name size type detail storage failed key v = record (new_sink name size type v) {
    detail = detail;
    content_storage_open = storage;
    failed = failed;
    header_key = key;
  }

  -- A sink that is given up leaves the contents; one that is ready starts from nothing.
  abbrev pub Prepared : Bytes → ℕ → PackageType → Bool × Sink W → Type 0
  Prepared name size type (false, s) = Same (destroy services s).world
  Prepared name size type (true, s) =
      Same s.world
      × IsFresh s
      × IsReady s
      × (s.name ≡ name)
      × (s.expected_size ≡ size)
      × (s.package_type ≡ type)
      × ((size ≡ unknown_mtp_object_size) ⊎ (min_package_size ≤ size))

  given_up :
      (name : Bytes) (size : ℕ) (type : PackageType) (detail : Detail) (storage : Bool)
      (key : Bytes) (v : W)
      → Same v
      → Same (destroy services (blank name size type detail storage true key v)).world
  unfolding destroy abort rollback delete_contents drop_keys
  given_up name size type detail true key v same = same
  given_up name size type detail false key v same = same

  ready :
      (name : Bytes) (size : ℕ) (type : PackageType) (detail : Detail) (key : Bytes) (v : W)
      → IsReady (blank name size type detail true false key v)
  ready name size nsp detail key v = inr (inr (inl (refl, omega arith)))
  ready name size xci detail key v = inr (inr (inl (refl, omega arith), inl (refl, omega arith)))

  prepared :
      (name : Bytes) (size : ℕ) (type : PackageType) (detail : Detail) (key : Bytes) (v : W)
      → (size ≡ unknown_mtp_object_size) ⊎ (min_package_size ≤ size)
      → Same v
      → Prepared name size type (true, blank name size type detail true false key v)
  prepared name size type detail key v fits same = (
    same,
    record {
      nothing_registered = refl;
      no_entry = refl;
      is_open = refl;
      not_aborted = refl;
      not_finished = refl;
    },
    ready name size type detail key v,
    refl,
    refl,
    refl,
    fits,
  )

  with_key-Prepared :
      (name : Bytes) (size : ℕ) (type : PackageType) (r : ℕ × Bytes) (detail : Detail) (v : W)
      → (size ≡ unknown_mtp_object_size) ⊎ (min_package_size ≤ size)
      → Same v
      → Prepared name size type
          (and_then (with_key r (blank name size type detail true false [] v)) (last_step setup))
  with_key-Prepared name size type (result, key) detail v fits same =
      if_cases (λ (q : Bool × Sink W). Prepared name size type (and_then q (last_step setup)))
        (not (succeeded result)) _ _ (λ _. given_up name size type _ true [] v same)
        (λ _. prepared name size type (ready_detail type) key v fits same)

  prepare_keys-Prepared :
      (name : Bytes) (size : ℕ) (type : PackageType) (detail : Detail) (v : W)
      → (size ≡ unknown_mtp_object_size) ⊎ (min_package_size ≤ size)
      → Same v
      → Prepared name size type (
          and_then
            (prepare_keys setup (blank name size type detail true false [] v))
            (last_step setup))
  prepare_keys-Prepared name size nsp detail v fits same =
      prepared name size nsp (ready_detail nsp) [] v fits same
  prepare_keys-Prepared name size xci detail v fits same =
      let crypto = setup.spl_crypto_initialize v in
      let general = setup.spl_initialize crypto.1 in
      let same1 : Same crypto.1 = λ j. laws.spl_crypto_initialize_keeps j v ∙ same j in
      let same2 : Same general.1 = λ j. laws.spl_initialize_keeps j crypto.1 ∙ same1 j in
      if_cases
        (λ (q : Bool × Sink W). Prepared name size xci (
          and_then
            (and_then q (λ s1.
              and_then
                (after_call "no se pudo iniciar SPL general" (setup.spl_initialize s1.world) s1)
                (λ s2. with_key (derived_key setup s2.world) s2)))
            (last_step setup)))
        (not (succeeded crypto.0)) _ _ (λ _. given_up name size xci _ true [] crypto.1 same1)
        λ _.
          if_cases
            (λ (q : Bool × Sink W). Prepared name size xci (
              and_then (and_then q (λ s2. with_key (derived_key setup s2.world) s2))
                (last_step setup)))
            (not (succeeded general.0)) _ _ (λ _. given_up name size xci _ true [] general.1 same2)
            (λ _.
              with_key-Prepared name size xci (derived_key setup general.1) detail general.1 fits
                same2)

  manager_step-Prepared :
      (name : Bytes) (size : ℕ) (type : PackageType) (v : W)
      → (size ≡ unknown_mtp_object_size) ⊎ (min_package_size ≤ size)
      → Same v
      → Prepared name size type (manager_step setup (blank name size type empty true false [] v))
  manager_step-Prepared name size type v fits same =
      let manager = setup.get_application_manager v in
      let moved : Same manager.1 = λ j. laws.get_application_manager_keeps j v ∙ same j in
      if_cases (λ (q : Bool × Sink W). Prepared name size type (and_then q (key_step setup)))
        (not (succeeded manager.0)) _ _ (λ _. given_up name size type _ true [] manager.1 moved)
        (λ _. prepare_keys-Prepared name size type empty manager.1 fits moved)

  ns_step-Prepared :
      (name : Bytes) (size : ℕ) (type : PackageType) (v : W)
      → (size ≡ unknown_mtp_object_size) ⊎ (min_package_size ≤ size)
      → Same v
      → Prepared name size type (ns_step setup (blank name size type empty true false [] v))
  ns_step-Prepared name size type v fits same =
      let ns = setup.ns_initialize v in
      let moved : Same ns.1 = λ j. laws.ns_initialize_keeps j v ∙ same j in
      if_cases (λ (q : Bool × Sink W). Prepared name size type (and_then q (manager_step setup)))
        (not (succeeded ns.0)) _ _ (λ _. given_up name size type _ true [] ns.1 moved)
        (λ _. manager_step-Prepared name size type ns.1 fits moved)

  storage_step-Prepared :
      (name : Bytes) (size : ℕ) (type : PackageType) (v : W)
      → (size ≡ unknown_mtp_object_size) ⊎ (min_package_size ≤ size)
      → Same v
      → Prepared name size type (storage_step setup (new_sink name size type v))
  storage_step-Prepared name size type v fits same =
      let storage = setup.open_content_storage v in
      let moved : Same storage.1 = λ j. laws.open_content_storage_keeps j v ∙ same j in
      if_cases (λ (q : Bool × Sink W). Prepared name size type (and_then q (storage_opened setup)))
        (not (succeeded storage.0)) _ _ (λ _. given_up name size type _ false [] storage.1 moved)
        (λ _. ns_step-Prepared name size type storage.1 fits moved)

  pub initialize-Prepared :
      (name : Bytes) (size : ℕ) (type : PackageType)
      → Prepared name size type (initialize setup (new_sink name size type w))
  unfolding initialize
  initialize-Prepared name size type =
      let ncm = setup.ncm_initialize w in
      let moved : Same ncm.1 = λ j. laws.ncm_initialize_keeps j w in
      if_cases (Prepared name size type)
        (has_known_final_size (new_sink name size type w) && ltb size min_package_size) _ _
        (λ _. given_up name size type _ false [] w (λ j. refl))
        λ large.
          if_cases
            (λ (q : Bool × Sink W). Prepared name size type (and_then q (storage_step setup)))
            (not (succeeded ncm.0)) _ _ (λ _. given_up name size type _ false [] ncm.1 moved)
            (λ _. storage_step-Prepared name size type ncm.1 (fits large) moved)
    where
      fits :
          (has_known_final_size (new_sink name size type w) && ltb size min_package_size) ≡ false
          → (size ≡ unknown_mtp_object_size) ⊎ (min_package_size ≤ size)
      fits large = elim (Bool-cases (size == unknown_mtp_object_size)) [
        | inl e ↦ inl (ground (arith, e))
        | inr e ↦ inr (ground (arith, large, e))
      ]
