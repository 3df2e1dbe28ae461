-- ===== src/Database/Send.antt =====
-- beginSendObject and endSendObject of ReadOnlySdDatabase.
use transferencia_switch.Base.{
  ℕ, Bool, true, false, not, ◌&&◌, ◌||◌, Option, none, some, [], ◌∷◌, ◌==◌, if◌then◌else◌,
}
use transferencia_switch.Base.Bytes.{same, after_last}
use transferencia_switch.Base.Maps.{Map, lookup, contains, insert_or_assign, erase, adjust}
use transferencia_switch.Domain.SafePath.{is_safe_direct_child}
use transferencia_switch.Database.Types.{
  Bytes, FileInfo, FileSystem, Entry, StorageRoot, Database, format_association,
  invalid_object_handle, add_entry,
}
use transferencia_switch.Database.Storage.{is_action}

abbrev parent_entry_path : ℕ → Option Entry → Option Bytes
parent_entry_path storage none = none
parent_entry_path storage (some entry) =
    if not (entry.storage == storage) || not (entry.format == format_association)
    then none
    else some entry.path

-- The path of the parent, or `none` where the handle is refused.
unfoldable pub parent_path : StorageRoot → ℕ → ℕ → Database → Option Bytes
parent_path root parent storage db =
    if parent == 0 then some root.path else parent_entry_path storage (lookup parent db.entries)

unfoldable pub has_path : Bytes → Map Entry → Bool
has_path path [] = false
has_path path ((handle, entry) ∷ m) = same entry.path path || has_path path m

-- The file name of a path.
unfoldable pub base_name : Bytes → Bytes
base_name path = elim (after_last b'/' path) [ none ↦ path | some name ↦ name ]

abbrev is_found : Option FileInfo → Bool
is_found none = false
is_found (some _) = true

-- The guards from the parent's path on.
abbrev admits_child : FileSystem → Bytes → StorageRoot → Option Bytes → Database → Bool
admits_child fs path root none db = false
admits_child fs path root (some parent) db =
    if not (is_safe_direct_child (some root.path) (some parent) (some path))
    then false
    else if is_found (fs.stat path)
    then false
    else not (has_path path db.entries)

abbrev admits_root : FileSystem → Bytes → ℕ → ℕ → ℕ → Option StorageRoot → Database → Bool
admits_root fs path format parent storage none db = false
admits_root fs path format parent storage (some root) db =
    if not root.writable
    then false
    else if root.action && format == format_association
    then false
    else admits_child fs path root (parent_path root parent storage db) db

-- Whether no early return of beginSendObject refuses the object.
unfoldable pub admits : FileSystem → Bytes → ℕ → ℕ → ℕ → Database → Bool
admits fs path format parent storage db =
    admits_root fs path format parent storage (lookup storage db.storage_roots) db

abbrev pub sent_entry : Bytes → ℕ → ℕ → ℕ → ℕ → ℕ → Entry
sent_entry path format parent storage size modified = record {
  storage = storage;
  parent = parent;
  format = format;
  name = base_name path;
  path = path;
  size = size;
  modified = modified;
  scanned = false;
}

abbrev with_pending : ℕ → Database → Database
with_pending handle db = record db {
  pending_handles = insert_or_assign handle tt db.pending_handles;
}

unfoldable pub begin_send_object : FileSystem → Bytes → ℕ → ℕ → ℕ → ℕ → ℕ → Database → ℕ × Database
begin_send_object fs path format parent storage size modified db =
    if admits fs path format parent storage db
    then (
      db.next_handle,
      with_pending db.next_handle
          (add_entry (sent_entry path format parent storage size modified) db),
    )
    else (invalid_object_handle, db)

-- What `stat` changes in the entry of an object that has arrived.
abbrev pub refresh : Option FileInfo → Entry → Entry
refresh none entry = entry
refresh (some info) entry = record entry {
  size = if info.is_directory then 0 else info.st_size;
  modified = info.st_mtime;
}

-- The entry of an object that has arrived: an action's object counts as scanned.
abbrev pub completed : FileSystem → Database → Entry → Entry
completed fs db entry =
    if is_action (lookup entry.storage db.storage_roots)
    then record entry { scanned = true }
    else refresh (fs.stat entry.path) entry

-- The early return of endSendObject.
abbrev pub is_unknown : ℕ → Database → Bool
is_unknown handle db = not (contains handle db.entries) || not (contains handle db.pending_handles)

unfoldable pub end_send_object : FileSystem → ℕ → Bool → Database → Database
end_send_object fs handle succeeded db =
    if is_unknown handle db
    then db
    else if not succeeded
    then record db {
      entries = erase handle db.entries;
      pending_handles = erase handle db.pending_handles;
    }
    else record db {
      entries = adjust handle (completed fs db) db.entries;
      pending_handles = erase handle db.pending_handles;
    }
