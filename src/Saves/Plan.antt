-- ===== src/Saves/Plan.antt =====
-- switch_app/source/domain/save_backup_plan.c: where the backup of a save goes.
use transferencia_switch.Base.{
  ℕ, ◌+◌, ◌%◌, ◌^◌, Bool, true, false, not, ◌&&◌, ◌||◌, Option, none, some, [], ◌∷◌, ◌++◌, length,
  leb, ◌==◌, if◌then◌else◌,
}
use transferencia_switch.Base.Hex.{hex}
use transferencia_switch.Base.Bytes.{Bytes, codes}
use transferencia_switch.Domain.Status.{Status, ts_ok, ts_invalid_argument, ts_buffer_too_small}

-- `TsSaveBackupPlan`
pub record SaveBackupPlan : Type 0 where
  pub application_id : ℕ
  pub user_id_low : ℕ
  pub user_id_high : ℕ
  pub date : Bytes
  pub folder_name : Bytes
  pub backup_path : Bytes
  pub files_path : Bytes
  pub manifest_path : Bytes

-- A status other than TS_OK, after which callers do not read the plan, or a plan.
pub data Outcome : Type 0 where
  refused : Status → Outcome
  planned : SaveBackupPlan → Outcome

abbrev pub is_digit : ℕ → Bool
is_digit c = leb b'0' c && leb c b'9'

abbrev date_byte : ℕ → ℕ → Bool
date_byte index c = if index == 4 || index == 7 then c == b'-' else is_digit c

unfoldable pub date_bytes : ℕ → Bytes → Bool
date_bytes index [] = true
date_bytes index (c ∷ cs) = date_byte index c && date_bytes (index + 1) cs

unfoldable pub is_valid_date : Option Bytes → Bool
is_valid_date none = false
is_valid_date (some date) = length date == 10 && date_bytes 0 date

-- `checked_snprintf`, of a text with its arguments filled in.
unfoldable pub checked_snprintf : ℕ → Bytes → Option Bytes
checked_snprintf capacity text = if leb capacity (length text) then none else some text

abbrev pub backup_root : Bytes
backup_root = codes "sdmc:/switch/transferencia-switch/backups/saves"

abbrev pub folder_of : ℕ → ℕ → Bytes
folder_of application_id user_id_low =
    hex 16 application_id ++ codes "_user_" ++ hex 8 (user_id_low % 2 ^ 32)

abbrev pub path_of : Bytes → Bytes → Bytes
path_of date folder = backup_root ++ codes "/" ++ date ++ codes "/" ++ folder

abbrev pub filled_plan : ℕ → ℕ → ℕ → Bytes → Bytes → Bytes → Bytes → Bytes → SaveBackupPlan
filled_plan application_id user_id_low user_id_high date folder backup files manifest = record {
  application_id = application_id;
  user_id_low = user_id_low;
  user_id_high = user_id_high;
  date = date;
  folder_name = folder;
  backup_path = backup;
  files_path = files;
  manifest_path = manifest;
}

abbrev then_fill : Option Bytes → (Bytes → Outcome) → Outcome
then_fill none next = refused ts_buffer_too_small
then_fill (some text) next = next text

abbrev pub fill : ℕ → ℕ → ℕ → Bytes → Outcome
fill application_id user_id_low user_id_high date =
    then_fill (checked_snprintf 80 (folder_of application_id user_id_low)) λ folder.
      then_fill (checked_snprintf 256 (path_of date folder)) λ backup.
        then_fill (checked_snprintf 256 (backup ++ codes "/files")) λ files.
          then_fill (checked_snprintf 256 (backup ++ codes "/manifest.json")) λ manifest.
            planned (
              filled_plan application_id user_id_low user_id_high date folder backup files manifest)

abbrev fill_date : ℕ → ℕ → ℕ → Option Bytes → Outcome
fill_date application_id user_id_low user_id_high none = refused ts_invalid_argument
fill_date application_id user_id_low user_id_high (some date) =
    fill application_id user_id_low user_id_high date

-- `ts_save_backup_plan_create`, into a plan that is not null.
unfoldable pub create : ℕ → ℕ → ℕ → Option Bytes → Outcome
create application_id user_id_low user_id_high date =
    if application_id == 0 || not (is_valid_date date)
    then refused ts_invalid_argument
    else fill_date application_id user_id_low user_id_high date

-- A line of the manifest: a name and a quoted value.
abbrev line : Bytes → Bytes → Bytes
line name value = codes "  \"" ++ name ++ codes "\": \"" ++ value ++ codes "\""

abbrev next_line : Bytes
next_line = codes ",\n"

unfoldable pub manifest_text : SaveBackupPlan → Bytes
manifest_text plan =
    codes "{\n"
    ++ line (codes "schema") (codes "transferencia-switch.save-backup.v1")
    ++ next_line
    ++ line (codes "application_id") (hex 16 plan.application_id)
    ++ next_line
    ++ line (codes "user_id_low") (hex 16 plan.user_id_low)
    ++ next_line
    ++ line (codes "user_id_high") (hex 16 plan.user_id_high)
    ++ next_line
    ++ line (codes "date") plan.date
    ++ next_line
    ++ line (codes "files_dir") (codes "files")
    ++ codes "\n}\n"

-- `ts_save_backup_manifest_json`, of a plan and a buffer that are not null.
unfoldable pub manifest_json : SaveBackupPlan → ℕ → Status × Option Bytes
manifest_json plan capacity =
    if capacity == 0
    then (ts_invalid_argument, none)
    else elim (checked_snprintf capacity (manifest_text plan)) [
      | none ↦ (ts_buffer_too_small, none)
      | some text ↦ (ts_ok, some text)
    ]
