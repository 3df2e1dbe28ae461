-- ===== src/Install/Sink.antt =====
-- The state of SdPackageInstallSink (sd_install_receiver.cpp), and how a call fails.
use transferencia_switch.Base.{ℕ, String, Bool, true, false, not, List, [], ◌==◌}
use transferencia_switch.Base.Bytes.{Bytes}
use transferencia_switch.Install.Header.{Entry, empty_id}
use transferencia_switch.Install.Services.{MetaKey}

pub data PackageType : Type 0 where
  nsp xci : PackageType

abbrev pub unknown_mtp_object_size : ℕ
unknown_mtp_object_size = 0xFFFFFFFF

-- The text of `detail_`, with the values that its format takes.
pub data Detail : Type 0 where
  empty : Detail
  text : String → Detail
  coded : String → ℕ → Detail
  small_nca : Bytes → ℕ → Detail
  bad_magic : ℕ → Detail
  cnmt_not_opened : Bytes → ℕ → Detail
  already_installed installed : PackageType → Detail
  partly_installed : PackageType → ℕ → ℕ → Detail

-- The fields, less the flags of the services that the destructor closes; `world` is the state of
-- the services.
pub record Sink (W : Type 0) : Type 0 where
  pub name : Bytes
  pub expected_size : ℕ
  pub package_type : PackageType
  pub received : ℕ
  pub data_position : ℕ
  pub header_target : ℕ
  pub current_entry : ℕ
  pub header : Bytes
  pub xci_root_header : Bytes
  pub xci_secure_header : Bytes
  pub nca_header_buffer : Bytes
  pub header_key : Bytes
  pub xci_cursor : ℕ
  pub xci_secure_offset : ℕ
  pub xci_secure_size : ℕ
  pub xci_root_target : ℕ
  pub xci_secure_target : ℕ
  pub entries : List Entry
  pub sidecar : Bytes
  pub tickets : List (Bytes × Bytes)
  pub certificates : List (Bytes × Bytes)
  pub cnmt_ids : List Bytes
  pub newly_registered : List Bytes
  pub existing_nca_count : ℕ
  pub active_content_id : Bytes
  pub metadata_keys : List MetaKey
  pub detail : Detail
  pub header_parsed : Bool
  pub entry_started : Bool
  pub entry_placeholder_open : Bool
  pub skip_active_nca : Bool
  pub content_storage_open : Bool
  pub failed : Bool
  pub finished : Bool
  pub aborted : Bool
  pub world : W

module _ {W : Type 0} where
  -- `fail` and `failResult`
  abbrev pub fail_with : Detail → Sink W → Bool × Sink W
  fail_with message s = (false, record s { failed = true; detail = message })

  abbrev pub fail : String → Sink W → Bool × Sink W
  fail message = fail_with (text message)

  abbrev pub fail_result : String → ℕ → Sink W → Bool × Sink W
  fail_result message result = fail_with (coded message result)

  abbrev pub has_known_final_size : Sink W → Bool
  has_known_final_size s = not (s.expected_size == unknown_mtp_object_size)

  -- The members as the constructor leaves them.
  abbrev pub new_sink : Bytes → ℕ → PackageType → W → Sink W
  new_sink name expected_size package_type world = record {
    name = name;
    expected_size = expected_size;
    package_type = package_type;
    received = 0;
    data_position = 0;
    header_target = 0;
    current_entry = 0;
    header = [];
    xci_root_header = [];
    xci_secure_header = [];
    nca_header_buffer = [];
    header_key = [];
    xci_cursor = 0;
    xci_secure_offset = 0;
    xci_secure_size = 0;
    xci_root_target = 0;
    xci_secure_target = 0;
    entries = [];
    sidecar = [];
    tickets = [];
    certificates = [];
    cnmt_ids = [];
    newly_registered = [];
    existing_nca_count = 0;
    active_content_id = empty_id;
    metadata_keys = [];
    detail = empty;
    header_parsed = false;
    entry_started = false;
    entry_placeholder_open = false;
    skip_active_nca = false;
    content_storage_open = false;
    failed = false;
    finished = false;
    aborted = false;
    world = world;
  }
