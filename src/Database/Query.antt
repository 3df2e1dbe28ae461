-- ===== src/Database/Query.antt =====
-- What MTP clients ask of ReadOnlySdDatabase: lists of handles, object infos, file paths; and the
-- requests that it always turns down.
use transferencia_switch.Base.{
  ℕ, Bool, true, false, ◌&&◌, ◌||◌, Option, none, some, List, [], ◌∷◌, length, ltb, ◌==◌,
  if◌then◌else◌,
}
use transferencia_switch.Base.Maps.{Map, lookup}
use transferencia_switch.Database.Types.{
  Bytes, FileSystem, Entry, StorageRoot, Database, format_association, parent_root,
}
use transferencia_switch.Database.Scan.{scan}

-- The loop over the storages, which scans the root of each.
unfoldable pub scan_roots : FileSystem → Map StorageRoot → Database → Database
scan_roots fs [] db = db
scan_roots fs ((storage, _) ∷ roots) db = scan_roots fs roots (scan fs storage 0 db).1

abbrev pub is_any_storage : ℕ → Bool
is_any_storage storage = storage == 0 || storage == 0xFFFFFFFF

abbrev pub matches : ℕ → ℕ → ℕ → Entry → Bool
matches storage format parent entry =
    (is_any_storage storage || entry.storage == storage)
    && (format == 0 || entry.format == format)
    && entry.parent == parent

-- The handles of the entries that match, in the order of the handles.
unfoldable pub matching : (Entry → Bool) → Map Entry → List ℕ
matching p [] = []
matching p ((handle, entry) ∷ m) =
    let rest = matching p m in if p entry then handle ∷ rest else rest

abbrev pub scan_parent : FileSystem → ℕ → Option Entry → Database → Bool × Database
scan_parent fs parent none db = (false, db)
scan_parent fs parent (some entry) db = scan fs entry.storage parent db

-- The scan before the list is made; `false` where the list is empty whatever the entries are.
unfoldable pub prepare : FileSystem → ℕ → ℕ → Database → Bool × Database
prepare fs storage parent db =
    if parent == 0 && is_any_storage storage
    then (true, scan_roots fs db.storage_roots db)
    else if parent == 0
    then scan fs storage 0 db
    else scan_parent fs parent (lookup parent db.entries) db

abbrev pub root_as_zero : ℕ → ℕ
root_as_zero parent = if parent == parent_root then 0 else parent

unfoldable pub get_object_list : FileSystem → ℕ → ℕ → ℕ → Database → List ℕ × Database
get_object_list fs storage format parent db =
    let (listed, db') = prepare fs storage (root_as_zero parent) db in
    (
      if listed then matching (matches storage format (root_as_zero parent)) db'.entries else [],
      db',
    )

unfoldable pub get_num_objects : FileSystem → ℕ → ℕ → ℕ → Database → ℕ × Database
get_num_objects fs storage format parent db =
    let (objects, db') = get_object_list fs storage format parent db in (length objects, db')

-- The fields of MtpObjectInfo that are not always zero or empty.
pub record ObjectInfo : Type 0 where
  pub handle : ℕ
  pub storage_id : ℕ
  pub format : ℕ
  pub protection_status : ℕ
  pub compressed_size : ℕ
  pub parent : ℕ
  pub association_type : ℕ
  pub name : Bytes
  pub date_created : ℕ
  pub date_modified : ℕ

-- mtp.h
pub data ResponseCode : Type 0 where
  ok invalid_object_handle store_read_only : ResponseCode
  object_prop_not_supported device_prop_not_supported operation_not_supported : ResponseCode

abbrev pub object_info : ℕ → Entry → ObjectInfo
object_info handle entry = record {
  handle = handle;
  storage_id = entry.storage;
  format = entry.format;
  protection_status = 0x0001;
  compressed_size = if ltb 0xFFFFFFFF entry.size then 0xFFFFFFFF else entry.size;
  parent = entry.parent;
  association_type = if entry.format == format_association then 1 else 0;
  name = entry.name;
  date_created = entry.modified;
  date_modified = entry.modified;
}

-- The response, and the info where the response is `ok`.
unfoldable pub get_object_info : ℕ → Database → ResponseCode × Option ObjectInfo
get_object_info handle db = elim (lookup handle db.entries) [
  | none ↦ (invalid_object_handle, none)
  | some entry ↦ (ok, some (object_info handle entry))
]

pub record FilePath : Type 0 where
  pub path : Bytes
  pub length : ℕ
  pub format : ℕ

unfoldable pub get_object_file_path : ℕ → Database → ResponseCode × Option FilePath
get_object_file_path handle db = elim (lookup handle db.entries) [
  | none ↦ (invalid_object_handle, none)
  | some entry ↦
      (ok, some (record { path = entry.path; length = entry.size; format = entry.format }))
]

-- deleteFile and moveFile change nothing on any storage.
unfoldable pub delete_file : ℕ → Database → ResponseCode × Database
delete_file handle db = (store_read_only, db)

unfoldable pub move_file : ℕ → ℕ → Database → ResponseCode × Database
move_file handle new_parent db = (store_read_only, db)
