-- ===== src/Install/MetaServices.antt =====
-- What the last stage of an installation uses of libnx: the layout of its structs of content
-- metadata, and the services that read the metadata of a content, import tickets and publish the
-- application. They are parameters, like those of Install/Services.
use transferencia_switch.Base.{ℕ, List}
use transferencia_switch.Base.Bytes.{Bytes}
use transferencia_switch.Install.Services.{MetaKey}

-- The constants and the layout of the structs `NcmPackagedContentInfo`, `NcmContentMetaInfo`,
-- `NcmContentMetaHeader`, `NcmContentInfo` and `NcmPatchMetaExtendedHeader`.
pub record NcmLayout : Type 0 where
  pub application_type : ℕ
  pub patch_type : ℕ
  pub add_on_type : ℕ
  pub legal_information : ℕ
  pub packaged_content_size : ℕ
  pub meta_info_size : ℕ
  pub patch_extended_size : ℕ
  -- Of the packaged content record at the front of some bytes: its type, content id and size, and the
  -- bytes of its info.
  pub content_type : Bytes → ℕ
  pub content_id : Bytes → Bytes
  pub content_size : Bytes → ℕ
  pub content_info : Bytes → Bytes
  -- An install header, by its extended header's size, its counts and its attributes.
  pub install_header : ℕ → ℕ → ℕ → ℕ → Bytes
  -- The info of the metadata's own content, by its id and size.
  pub meta_content_info : Bytes → ℕ → Bytes
  pub extended_data_size : Bytes → ℕ

pub record MetaServices (W : Type 0) : Type 0 where
  pub get_path : Bytes → W → ℕ × Bytes
  -- The handles that are opened for reading are closed on every path, which shows nowhere.
  pub open_file_system : Bytes → W → ℕ
  pub open_directory : Bytes → W → ℕ
  -- What the calls of fsDirRead answer one after the other, up to eight names each; a call behind
  -- the last of them finds no name.
  pub read_directory : Bytes → W → List (ℕ × List Bytes)
  pub open_file : Bytes → Bytes → W → ℕ
  -- The size as the bit pattern of an `int64_t`.
  pub get_file_size : Bytes → Bytes → W → ℕ × ℕ
  -- The bytes that a read of so many at the start of the file gives.
  pub read_file : Bytes → Bytes → ℕ → W → ℕ × Bytes
  pub open_es : W → ℕ × W
  pub import_ticket : Bytes → Bytes → W → ℕ × W
  pub set_meta : MetaKey → Bytes → W → ℕ × W
  -- The call 16 of the application manager, with the record's key and the application's id.
  pub push_application_record : MetaKey → ℕ → W → ℕ × W
