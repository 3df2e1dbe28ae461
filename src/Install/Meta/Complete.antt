-- ===== src/Install/Meta/Complete.antt =====
-- The metadata that buildInstallMeta writes, where it writes any.
use transferencia_switch.Base.{
  String, ℕ, zero, suc, ◌+◌, ◌≤◌, ◌≡◌, refl, sym, ap, ◌∙◌, Bool, true, false, not, ◌||◌, some, List,
  [], ◌∷◌, length, drop, ltb, ◌==◌, if◌then◌else◌, arith,
}
use mathlib.Core.Path.{ap₂}
use transferencia_switch.Base.Bytes.{Bytes}
use transferencia_switch.Base.Results.{Result, yields, stops, ◌>>=◌, ◌>>◌, fail_if}
use transferencia_switch.Install.Services.{Services, MetaKey, succeeded}
use transferencia_switch.Install.MetaServices.{NcmLayout}
use transferencia_switch.Install.Sink.{Sink}
use transferencia_switch.Install.Meta.{
  PackagedHeader, read_packaged_header, find_entry_size, is_supported, records_offset,
  extended_size, check_content, checked, select, install_meta, meta_key, tables_end, written,
  gathered, bounded, built, built_result, build_install_meta,
}

module _ {W : Type 0} (layout : NcmLayout) (services : Services W) where
  -- The records of contents, one behind the other.
  unfoldable pub contents : ℕ → Bytes → List Bytes
  contents zero records = []
  contents (suc n) records = records ∷ contents n (drop layout.packaged_content_size records)

  -- Those that are asked for: fragments of deltas are left out.
  unfoldable pub required : List Bytes → List Bytes
  required [] = []
  required (content ∷ contents) =
      if ltb layout.legal_information (layout.content_type content)
      then required contents
      else content ∷ required contents

  unfoldable pub infos : List Bytes → List Bytes
  infos [] = []
  infos (content ∷ contents) = layout.content_info content ∷ infos contents

  -- Content storage has a content, with the size that its record declares.
  abbrev pub IsInstalled : W → Bytes → Type 0
  IsInstalled w content =
      (services.content_has (layout.content_id content) w ≡ (0, true))
      × (services.content_size (layout.content_id content) w ≡ (0, layout.content_size content))

  abbrev pub AllInstalled : W → List Bytes → Type 0
  AllInstalled w [] = Unit
  AllInstalled w (content ∷ contents) = IsInstalled w content × AllInstalled w contents

  fail_if_lem :
      (test : Bool) (message : String) (rest : Result (Unit {0}))
      → (fail_if test message >> rest) ≡ yields tt
      → (test ≡ false) × (rest ≡ yields tt)
  fail_if_lem true message rest e = cc
  fail_if_lem false message rest e = (refl, e)

  asked : (r : ℕ × Bool) → (not (succeeded r.0) || not r.1) ≡ false → r ≡ (0, true)
  asked (result, present) e =
      ap₂ (λ (a : ℕ) (b : Bool). (a, b)) (ground (arith, e)) (ground (arith, e))

  sized :
      (r : ℕ × ℕ) (size : ℕ) → (not (succeeded r.0) || not (r.1 == size)) ≡ false → r ≡ (0, size)
  sized (result, present) size e = ap₂ (λ (a b : ℕ). (a, b)) (ground (arith, e)) (ground (arith, e))

  check_content_lem :
      (content : Bytes) (w : W)
      → check_content layout services content w ≡ yields tt
      → IsInstalled w content
  check_content_lem content w e = (asked _ first.0, sized _ _ (stopped _ _ first.1))
    where
      stopped : (test : Bool) (message : String) → fail_if test message ≡ yields tt → test ≡ false
      stopped true message e = cc
      stopped false message e = refl

      first :
          ((not (succeeded (services.content_has (layout.content_id content) w).0)
              || not (services.content_has (layout.content_id content) w).1)
            ≡ false)
          × (fail_if
                (not (succeeded (services.content_size (layout.content_id content) w).0)
                  || not (
                      (services.content_size (layout.content_id content) w).1
                      == layout.content_size content))
                "tamano NCA no coincide con CNMT"
              ≡ yields tt)
      first = fail_if_lem _ _ _ e

  checked_lem :
      (content : Bytes) (c : Result (Unit {0})) (rest : Result (List Bytes)) (selected : List Bytes)
      → checked layout services content c rest ≡ yields selected
      → (c ≡ yields tt)
        × (l : List Bytes) × (rest ≡ yields l)
        × (selected ≡ layout.content_info content ∷ l)
  checked_lem content (stops message) rest selected e = cc
  checked_lem content (yields done) (stops message) selected e = cc
  checked_lem content (yields done) (yields l) selected e = (refl, l, refl, cc)

  select_step :
      (skipped : Bool) (content : Bytes) (c : Result (Unit {0})) (rest : Result (List Bytes))
      (tail : List Bytes) (w : W) (selected : List Bytes)
      → (c ≡ yields tt → IsInstalled w content)
      → ((l : List Bytes) → rest ≡ yields l → (l ≡ infos tail) × AllInstalled w tail)
      → (if skipped then rest else checked layout services content c rest) ≡ yields selected
      → (selected ≡ infos (if skipped then tail else content ∷ tail))
        × AllInstalled w (if skipped then tail else content ∷ tail)
  unfolding infos
  select_step true content c rest tail w selected fine more e = more selected e
  select_step false content c rest tail w selected fine more e =
      let (passed, l, rest_eq, eq) = checked_lem content c rest selected e in
      let (infos_eq, all) = more l rest_eq in
      (eq ∙ ap (λ (m : List Bytes). layout.content_info content ∷ m) infos_eq, (fine passed, all))

  select_lem :
      (n : ℕ) (records : Bytes) (w : W) (selected : List Bytes)
      → select layout services n records w ≡ yields selected
      → (selected ≡ infos (required (contents n records)))
        × AllInstalled w (required (contents n records))
  unfolding select contents required infos
  select_lem zero records w selected e = (cc, tt)
  select_lem (suc n) records w selected e =
      let rest = drop layout.packaged_content_size records in
      select_step (ltb layout.legal_information (layout.content_type records)) records
        (check_content layout services records w) (select layout services n rest w)
        (required (contents n rest)) w selected (check_content_lem records w)
        (λ l. select_lem n rest w l) e

  -- The contents that a package's metadata asks for.
  abbrev pub wanted : Bytes → List Bytes
  wanted packaged = required (
      contents (read_packaged_header packaged).content_count
        (drop (records_offset layout (read_packaged_header packaged)) packaged))

  -- The metadata that is built: the type is supported, the tables lie inside, all the contents asked
  -- for are installed, and the bytes hold the infos of exactly these.
  pub record IsComplete (packaged cnmt_id : Bytes) (s : Sink W) (r : Bytes × MetaKey) : Type 0 where
    pub supported : is_supported layout (read_packaged_header packaged).type ≡ true
    pub inside :
        tables_end layout services (read_packaged_header packaged)
          + extended_size layout (read_packaged_header packaged) packaged
        ≤ length packaged
    pub all_installed : AllInstalled s.world (wanted packaged)
    pub bytes :
        r.0
        ≡ install_meta layout services
            (read_packaged_header packaged)
            packaged
            cnmt_id
            (find_entry_size cnmt_id s.entries)
            (infos (wanted packaged))
    pub key : r.1 ≡ meta_key layout services (read_packaged_header packaged)

  -- What `a >> b` yields.
  passed :
      {Y : Type 0} (test : Bool) (message : String) (rest : Result Y) (y : Y)
      → (fail_if test message >> rest) ≡ yields y
      → (test ≡ false) × (rest ≡ yields y)
  passed true message rest y e = cc
  passed false message rest y e = (refl, e)

  bound :
      {Y : Type 0} (first : Result (List Bytes)) (next : List Bytes → Result Y) (y : Y)
      → (first >>= next) ≡ yields y
      → (x : List Bytes) × (first ≡ yields x) × (next x ≡ yields y)
  bound (stops message) next y e = cc
  bound (yields x) next y e = (x, refl, e)

  built_lem :
      (packaged cnmt_id : Bytes) (s : Sink W) (r : Bytes × MetaKey)
      → built layout services packaged cnmt_id s.entries s.world ≡ yields r
      → IsComplete packaged cnmt_id s r
  unfolding built
  built_lem packaged cnmt_id s r e =
      let header = read_packaged_header packaged in
      let (supported, e1) =
        passed (not (is_supported layout header.type))
          "tipo de contenido no admitido en esta version"
          (bounded layout services header packaged cnmt_id s.entries s.world) r e in
      let (_, e2) =
        passed (ltb (length packaged) (tables_end layout services header))
          "estructura CNMT fuera de limites"
          (gathered layout services header packaged cnmt_id s.entries s.world) r e1 in
      let (selected, selected_eq, e3) =
        bound
          (select layout services header.content_count
            (drop (records_offset layout header) packaged) s.world)
          (written layout services header packaged cnmt_id s.entries) r e2 in
      let (room, e4) =
        passed
          (ltb (length packaged)
            (tables_end layout services header + extended_size layout header packaged))
          "datos extendidos CNMT fuera de limites" (yields (made header selected)) r e3 in
      let (infos_eq, all) =
        select_lem header.content_count (drop (records_offset layout header) packaged) s.world
          selected selected_eq in
      let r_eq : made header selected ≡ r = cc in
      record {
        supported = ground (arith, supported);
        inside = ground (arith, room);
        all_installed = all;
        bytes =
            sym (ap (λ (q : Bytes × MetaKey). q.0) r_eq)
            ∙ ap (λ (l : List Bytes). (made header l).0) infos_eq;
        key = sym (ap (λ (q : Bytes × MetaKey). q.1) r_eq);
      }
    where
      made : PackagedHeader → List Bytes → Bytes × MetaKey
      made header selected = (
        install_meta layout services header packaged cnmt_id (find_entry_size cnmt_id s.entries)
            selected,
        meta_key layout services header,
      )

  taken :
      (packaged cnmt_id : Bytes) (s : Sink W) (q : Result (Bytes × MetaKey)) (r : Bytes × MetaKey)
      → (built_result layout services q s).0 ≡ some r
      → q ≡ yields r
  taken packaged cnmt_id s (stops message) r e = cc
  taken packaged cnmt_id s (yields q) r e = cc

  -- Where buildInstallMeta succeeds, the package's type is supported, its tables lie inside the
  -- metadata that was read, every content that it asks for is in content storage with the size that
  -- it declares, and the bytes that are built hold the infos of exactly these contents, in their
  -- order, behind that of the metadata itself.
  pub build_install_meta-IsComplete :
      (packaged cnmt_id : Bytes) (s : Sink W) (r : Bytes × MetaKey)
      → (build_install_meta layout services packaged cnmt_id s).0 ≡ some r
      → IsComplete packaged cnmt_id s r
  unfolding build_install_meta
  build_install_meta-IsComplete packaged cnmt_id s r e =
      built_lem packaged cnmt_id s r
        (taken packaged cnmt_id s (built layout services packaged cnmt_id s.entries s.world) r e)
