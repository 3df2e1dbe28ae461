-- ===== src/Database/Types.antt =====
-- The state of ReadOnlySdDatabase (read_only_sd_database.hpp), the file system that it reads
-- through stat, opendir and readdir, and the helpers on its maps.
use transferencia_switch.Base.{
  ℕ, ◌+◌, ◌-◌, ◌%◌, ◌^◌, Bool, Option, List, [], ◌∷◌, ◌++◌, length, get_or, ◌==◌, if◌then◌else◌,
}
pub use transferencia_switch.Base.Bytes.{Bytes}
use transferencia_switch.Base.Maps.{Map, erase, erase_if, emplace}

-- What `stat` reports of a file.
pub record FileInfo : Type 0 where
  pub is_directory : Bool
  pub st_size : ℕ
  pub st_mtime : ℕ

-- `none` is a failed call; a directory is the list of the names that `readdir` returns.
pub record FileSystem : Type 0 where
  pub stat : Bytes → Option FileInfo
  pub opendir : Bytes → Option (List Bytes)

pub record Entry : Type 0 where
  pub storage : ℕ
  pub parent : ℕ
  pub format : ℕ
  pub name : Bytes
  pub path : Bytes
  pub size : ℕ
  pub modified : ℕ
  pub scanned : Bool

pub record StorageRoot : Type 0 where
  pub path : Bytes
  pub writable : Bool
  pub scanned : Bool
  pub virtual_root : Bool
  pub action : Bool

pub record VirtualRootSeed : Type 0 where
  pub storage : ℕ
  pub name : Bytes
  pub path : Bytes

pub record Database : Type 0 where
  pub initial_root_path : Bytes
  pub initial_writable : Bool
  pub next_handle : ℕ
  pub storage_roots : Map StorageRoot
  pub virtual_root_seeds : List VirtualRootSeed
  pub entries : Map Entry
  pub pending_handles : Map (Unit {0})

-- MtpTypes.h and mtp.h
abbrev pub invalid_object_handle : ℕ
invalid_object_handle = 0xFFFFFFFF

abbrev pub parent_root : ℕ
parent_root = 0xFFFFFFFF

abbrev pub format_undefined : ℕ
format_undefined = 0x3000

abbrev pub format_association : ℕ
format_association = 0x3001

-- `next_handle_++` on a `uint32_t`.
abbrev pub next_after : ℕ → ℕ
next_after h = (h + 1) % 2 ^ 32

unfoldable pub normalize_root : Bytes → Bytes
normalize_root path =
    if length path == 0
    then path
    else if get_or path (length path - 1) 0 == b'/'
    then path
    else path ++ b'/' ∷ []

-- `pending_handles_.erase` for each entry that a loop erases.
unfoldable pub drop_pending : (Entry → Bool) → Map Entry → Map (Unit {0}) → Map (Unit {0})
drop_pending p [] pending = pending
drop_pending p ((handle, entry) ∷ m) pending =
    drop_pending p m (if p entry then erase handle pending else pending)

-- The loops that erase the entries which pass a test, with their pending handles.
unfoldable pub purge : (Entry → Bool) → Database → Database
purge p db = record db {
  entries = erase_if p db.entries;
  pending_handles = drop_pending p db.entries db.pending_handles;
}

-- `entries_.emplace(next_handle_++, entry)`
unfoldable pub add_entry : Entry → Database → Database
add_entry entry db = record db {
  next_handle = next_after db.next_handle;
  entries = emplace db.next_handle entry db.entries;
}
