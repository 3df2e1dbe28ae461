-- ===== src/Install/Meta.antt =====
-- buildInstallMeta of sd_install_receiver.cpp: the metadata that is written for an application, from
-- the one in its package.
pub mod Complete
use Prim.Native.Nat.{bit_xor}
use transferencia_switch.Base.{
  ℕ, zero, suc, ◌+◌, ◌*◌, ◌/◌, ◌%◌, ◌^◌, Bool, not, ◌&&◌, ◌||◌, Option, none, some, List, [], ◌∷◌,
  ◌++◌, length, get_or, take, drop, ltb, leb, ◌==◌, if◌then◌else◌,
}
use transferencia_switch.Base.Bytes.{Bytes, same}
use transferencia_switch.Base.Words.{u16_at, u32_at, u64_at}
use transferencia_switch.Base.Results.{Result, yields, stops, ◌>>=◌, ◌>>◌, fail_if}
use transferencia_switch.Install.Header.{Entry}
use transferencia_switch.Install.Services.{Services, MetaKey, succeeded}
use transferencia_switch.Install.MetaServices.{NcmLayout}
use transferencia_switch.Install.Sink.{Sink, fail}
use transferencia_switch.Install.Cnmt.{packaged_header_size}

-- `PackagedContentMetaHeader`, less what is not read.
pub record PackagedHeader : Type 0 where
  pub title_id : ℕ
  pub version : ℕ
  pub type : ℕ
  pub extended_header_size : ℕ
  pub content_count : ℕ
  pub content_meta_count : ℕ
  pub attributes : ℕ
  pub install_type : ℕ

unfoldable pub read_packaged_header : Bytes → PackagedHeader
read_packaged_header bytes = record {
  title_id = u64_at bytes 0;
  version = u32_at bytes 8;
  type = get_or bytes 12 0;
  extended_header_size = u16_at bytes 14;
  content_count = u16_at bytes 16;
  content_meta_count = u16_at bytes 18;
  attributes = get_or bytes 20 0;
  install_type = get_or bytes 22 0;
}

-- `findEntrySize`
unfoldable pub find_entry_size : Bytes → List Entry → ℕ
find_entry_size id [] = 0
find_entry_size id (entry ∷ entries) =
    if entry.nca && same entry.content_id id then entry.size else find_entry_size id entries

unfoldable pub concat : List Bytes → Bytes
concat [] = []
concat (bytes ∷ rest) = bytes ++ concat rest

module _ (layout : NcmLayout) where
  -- `baseApplicationId`
  unfoldable pub base_application_id : ℕ → ℕ → ℕ
  base_application_id title_id type =
      if type == layout.patch_type
      then bit_xor title_id 0x800
      else if type == layout.add_on_type
      then bit_xor title_id 0x1000 / 0x1000 * 0x1000
      else title_id

  unfoldable pub is_supported : ℕ → Bool
  is_supported type =
      type == layout.application_type || type == layout.patch_type || type == layout.add_on_type

  abbrev pub records_offset : PackagedHeader → ℕ
  records_offset header = packaged_header_size + header.extended_header_size

  abbrev pub records_size : PackagedHeader → ℕ
  records_size header = header.content_count * layout.packaged_content_size

  abbrev pub meta_size : PackagedHeader → ℕ
  meta_size header = header.content_meta_count * layout.meta_info_size

  abbrev pub extended_size : PackagedHeader → Bytes → ℕ
  extended_size header packaged =
      if header.type == layout.patch_type
        && leb layout.patch_extended_size header.extended_header_size
      then layout.extended_data_size (drop packaged_header_size packaged)
      else 0

  module _ {W : Type 0} (services : Services W) where
    -- The checks of one content that the metadata asks for.
    abbrev pub check_content : Bytes → W → Result (Unit {0})
    check_content content w =
        let (asked, present) = services.content_has (layout.content_id content) w in
        let (result, installed_size) = services.content_size (layout.content_id content) w in
        fail_if (not (succeeded asked) || not present) "falta una NCA requerida por CNMT"
        >> fail_if (not (succeeded result) || not (installed_size == layout.content_size content))
            "tamano NCA no coincide con CNMT"

    abbrev pub with_info : Bytes → Result (List Bytes) → Result (List Bytes)
    with_info content (stops message) = stops message
    with_info content (yields infos) = yields (layout.content_info content ∷ infos)

    abbrev pub checked : Bytes → Result (Unit {0}) → Result (List Bytes) → Result (List Bytes)
    checked content (stops message) rest = stops message
    checked content (yields _) rest = with_info content rest

    -- The loop over the records of contents: the infos of the ones that are installed.
    unfoldable pub select : ℕ → Bytes → W → Result (List Bytes)
    select zero records w = yields []
    select (suc n) records w =
        let rest = select n (drop layout.packaged_content_size records) w in
        if ltb layout.legal_information (layout.content_type records)
        then rest
        else checked records (check_content records w) rest

    -- The bytes of the install metadata, where all checks pass.
    abbrev pub install_meta : PackagedHeader → Bytes → Bytes → ℕ → List Bytes → Bytes
    install_meta header packaged cnmt_id cnmt_size selected =
        layout.install_header header.extended_header_size ((length selected + 1) % 2 ^ 16)
          header.content_meta_count header.attributes
        ++ (take header.extended_header_size (drop packaged_header_size packaged)
            ++ (layout.meta_content_info cnmt_id cnmt_size
                ++ (concat selected
                    ++ (take (meta_size header)
                          (drop (records_offset header + records_size header) packaged)
                        ++ take (extended_size header packaged) (
                            drop (records_offset header + records_size header + meta_size header)
                              packaged)))))

    abbrev pub meta_key : PackagedHeader → MetaKey
    meta_key header = record {
      id = header.title_id;
      version = header.version;
      type = header.type;
      install_type = header.install_type;
    }

    -- The end of the tables behind the header.
    abbrev pub tables_end : PackagedHeader → ℕ
    tables_end header = records_offset header + records_size header + meta_size header

    abbrev pub written :
        PackagedHeader → Bytes → Bytes → List Entry → List Bytes → Result (Bytes × MetaKey)
    written header packaged cnmt_id entries selected =
        fail_if (ltb (length packaged) (tables_end header + extended_size header packaged))
          "datos extendidos CNMT fuera de limites"
        >> yields (
          install_meta header packaged cnmt_id (find_entry_size cnmt_id entries) selected,
          meta_key header,
        )

    abbrev pub gathered : PackagedHeader → Bytes → Bytes → List Entry → W → Result (Bytes × MetaKey)
    gathered header packaged cnmt_id entries w =
        select header.content_count (drop (records_offset header) packaged) w
        >>= written header packaged cnmt_id entries

    abbrev pub bounded : PackagedHeader → Bytes → Bytes → List Entry → W → Result (Bytes × MetaKey)
    bounded header packaged cnmt_id entries w =
        fail_if (ltb (length packaged) (tables_end header)) "estructura CNMT fuera de limites"
        >> gathered header packaged cnmt_id entries w

    unfoldable pub built : Bytes → Bytes → List Entry → W → Result (Bytes × MetaKey)
    built packaged cnmt_id entries w =
        let header = read_packaged_header packaged in
        fail_if (not (is_supported header.type)) "tipo de contenido no admitido en esta version"
        >> bounded header packaged cnmt_id entries w

    abbrev pub built_result : Result (Bytes × MetaKey) → Sink W → Option (Bytes × MetaKey) × Sink W
    built_result (stops message) s = (none, (fail message s).1)
    built_result (yields r) s = (some r, s)

    -- `buildInstallMeta`
    unfoldable pub build_install_meta : Bytes → Bytes → Sink W → Option (Bytes × MetaKey) × Sink W
    build_install_meta packaged cnmt_id s =
        built_result (built packaged cnmt_id s.entries s.world) s
