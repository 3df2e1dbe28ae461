-- ===== src/Database/Scan.antt =====
-- scan and detectFormat of ReadOnlySdDatabase.
use transferencia_switch.Base.{
  ℕ, Bool, true, false, not, ◌||◌, Option, none, some, List, [], ◌∷◌, ◌++◌, ◌==◌, if◌then◌else◌,
}
use transferencia_switch.Base.Bytes.{codes, same, after_last, lower}
use transferencia_switch.Base.Maps.{lookup, adjust}
use transferencia_switch.Database.Types.{
  Bytes, FileInfo, FileSystem, Entry, StorageRoot, Database, format_association, format_undefined,
  normalize_root, add_entry,
}

-- The format of a file by its extension, the bytes from the last dot on, in lower case.
unfoldable pub format_of_extension : Bytes → ℕ
format_of_extension extension =
    if same extension (codes ".jpg") || same extension (codes ".jpeg")
    then 0x3801
    else if same extension (codes ".png")
    then 0x380B
    else if same extension (codes ".txt")
        || same extension (codes ".ini")
        || same extension (codes ".log")
    then 0x3004
    else if same extension (codes ".mp3")
    then 0x3009
    else if same extension (codes ".mp4")
    then 0xB982
    else format_undefined

unfoldable pub detect_format : Bytes → Bool → ℕ
detect_format name directory =
    if directory then format_association else elim (after_last b'.' name) [
      | none ↦ format_undefined
      | some rest ↦ format_of_extension (lower (b'.' ∷ rest))
    ]

-- `directory_path`, a slash unless it ends in one, and the name. This is `normalizeRoot` on a
-- path that is not empty.
abbrev pub child_path : Bytes → Bytes → Bytes
child_path directory_path name = normalize_root directory_path ++ name

unfoldable pub scanned_entry : ℕ → ℕ → Bytes → Bytes → FileInfo → Entry
scanned_entry storage parent directory_path name info = record {
  storage = storage;
  parent = parent;
  format = detect_format name info.is_directory;
  name = name;
  path = child_path directory_path name;
  size = if info.is_directory then 0 else info.st_size;
  modified = info.st_mtime;
  scanned = false;
}

unfoldable pub is_skipped : Bytes → Bool
is_skipped name =
    same name (codes ".")
    || same name (codes "..")
    || same name (codes ".transferencia-switch-staging")

abbrev pub add_item : ℕ → ℕ → Bytes → Bytes → Option FileInfo → Database → Database
add_item storage parent directory_path name none db = db
add_item storage parent directory_path name (some info) db =
    add_entry (scanned_entry storage parent directory_path name info) db

-- One round of the `readdir` loop.
unfoldable pub scan_item : FileSystem → ℕ → ℕ → Bytes → Bytes → Database → Database
scan_item fs storage parent directory_path name db =
    if is_skipped name
    then db
    else add_item storage parent directory_path name (fs.stat (child_path directory_path name)) db

unfoldable pub scan_items : FileSystem → ℕ → ℕ → Bytes → List Bytes → Database → Database
scan_items fs storage parent directory_path [] db = db
scan_items fs storage parent directory_path (name ∷ names) db =
    scan_items fs storage parent directory_path names
      (scan_item fs storage parent directory_path name db)

abbrev pub root_scanned : StorageRoot → StorageRoot
root_scanned root = record root { scanned = true }

abbrev pub entry_scanned : Entry → Entry
entry_scanned entry = record entry { scanned = true }

-- What the head of scan decides: to stop with an answer, or to read a directory.
pub data Target : Type 0 where
  refused : Target
  already : Target
  action : Target
  directory : Bytes → Target

abbrev root_target : Option StorageRoot → Target
root_target none = refused
root_target (some root) =
    if root.scanned then already else if root.action then action else directory root.path

abbrev entry_target : ℕ → Option Entry → Target
entry_target storage none = refused
entry_target storage (some entry) =
    if not (entry.storage == storage) || not (entry.format == format_association)
    then refused
    else if entry.scanned
    then already
    else directory entry.path

unfoldable pub scan_target : ℕ → ℕ → Database → Target
scan_target storage parent db =
    if parent == 0
    then root_target (lookup storage db.storage_roots)
    else entry_target storage (lookup parent db.entries)

-- The last step of scan: the root or the directory counts as scanned.
unfoldable pub mark_scanned : ℕ → ℕ → Database → Database
mark_scanned storage parent db =
    if parent == 0
    then record db { storage_roots = adjust storage root_scanned db.storage_roots }
    else record db { entries = adjust parent entry_scanned db.entries }

abbrev pub read_directory :
    FileSystem → ℕ → ℕ → Bytes → Option (List Bytes) → Database → Bool × Database
read_directory fs storage parent directory_path none db = (false, db)
read_directory fs storage parent directory_path (some names) db =
    (true, mark_scanned storage parent (scan_items fs storage parent directory_path names db))

abbrev pub run_target : FileSystem → ℕ → ℕ → Target → Database → Bool × Database
run_target fs storage parent refused db = (false, db)
run_target fs storage parent already db = (true, db)
run_target fs storage parent action db =
    (true, record db { storage_roots = adjust storage root_scanned db.storage_roots })
run_target fs storage parent (directory path) db =
    read_directory fs storage parent path (fs.opendir path) db

unfoldable pub scan : FileSystem → ℕ → ℕ → Database → Bool × Database
scan fs storage parent db = run_target fs storage parent (scan_target storage parent db) db
