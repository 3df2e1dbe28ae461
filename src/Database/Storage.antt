-- ===== src/Database/Storage.antt =====
-- The storages of ReadOnlySdDatabase and its sessions.
use transferencia_switch.Base.{
  ℕ, Bool, true, false, not, ◌&&◌, ◌||◌, Option, none, some, List, [], ◌∷◌, ◌++◌, ◌==◌,
  if◌then◌else◌,
}
use transferencia_switch.Base.Bytes.{same}
use transferencia_switch.Base.Maps.{Map, lookup, contains, insert_or_assign, erase}
use transferencia_switch.Database.Types.{
  Bytes, Entry, StorageRoot, VirtualRootSeed, Database, format_association, normalize_root, purge,
  add_entry,
}

-- The constructor.
unfoldable pub new_database : Bytes → Bool → Database
new_database root_path writable = record {
  initial_root_path = normalize_root root_path;
  initial_writable = writable;
  next_handle = 1;
  storage_roots = [];
  virtual_root_seeds = [];
  entries = [];
  pending_handles = [];
}

unfoldable pub is_handle_valid : ℕ → Database → Bool
is_handle_valid handle db = contains handle db.entries

abbrev pub of_storage : ℕ → Entry → Bool
of_storage storage entry = entry.storage == storage

unfoldable pub add_storage_path_with_policy : Bytes → ℕ → Bool → Database → Database
add_storage_path_with_policy path storage writable db =
    let purged = purge (of_storage storage) db in
    record purged { storage_roots = insert_or_assign storage root db.storage_roots }
  where
    root : StorageRoot
    root = record {
      path = normalize_root path;
      writable = writable;
      scanned = false;
      virtual_root = false;
      action = false;
    }

abbrev is_empty {ℓ} : {A : Type ℓ} → List A → Bool
is_empty [] = true
is_empty (x ∷ xs) = false

unfoldable pub add_storage_path : Bytes → ℕ → Database → Database
add_storage_path path storage db =
    add_storage_path_with_policy path storage
      (is_empty db.storage_roots
        && same (normalize_root path) db.initial_root_path
        && db.initial_writable)
      db

unfoldable pub add_virtual_storage : ℕ → Database → Database
add_virtual_storage storage db = record db {
  storage_roots = insert_or_assign storage root db.storage_roots;
}
  where
    root : StorageRoot
    root = record {
      path = [];
      writable = false;
      scanned = true;
      virtual_root = true;
      action = false;
    }

unfoldable pub add_action_storage : ℕ → Bytes → Database → Database
add_action_storage storage path db = record db {
  storage_roots = insert_or_assign storage root db.storage_roots;
}
  where
    root : StorageRoot
    root = record {
      path = normalize_root path;
      writable = true;
      scanned = true;
      virtual_root = false;
      action = true;
    }

abbrev pub seed_entry : VirtualRootSeed → Entry
seed_entry seed = record {
  storage = seed.storage;
  parent = 0;
  format = format_association;
  name = seed.name;
  path = normalize_root seed.path;
  size = 0;
  modified = 0;
  scanned = false;
}

unfoldable pub add_virtual_root_entry : VirtualRootSeed → Database → Database
add_virtual_root_entry seed db = add_entry (seed_entry seed) db

abbrev is_virtual : Option StorageRoot → Bool
is_virtual none = false
is_virtual (some root) = root.virtual_root

-- The early return of addVirtualRootDirectory.
abbrev pub is_refused : ℕ → Bytes → Bytes → Database → Bool
is_refused storage display_name mounted_path db =
    not (is_virtual (lookup storage db.storage_roots))
    || is_empty display_name
    || is_empty mounted_path

unfoldable pub add_virtual_root_directory : ℕ → Bytes → Bytes → Database → Database
add_virtual_root_directory storage display_name mounted_path db =
    if is_refused storage display_name mounted_path db
    then db
    else add_virtual_root_entry seed
        (record db { virtual_root_seeds = db.virtual_root_seeds ++ seed ∷ [] })
  where
    seed : VirtualRootSeed
    seed = record { storage = storage; name = display_name; path = mounted_path }

-- `std::remove_if` on the seeds.
unfoldable pub remove_seeds : ℕ → List VirtualRootSeed → List VirtualRootSeed
remove_seeds storage [] = []
remove_seeds storage (seed ∷ seeds) =
    let rest = remove_seeds storage seeds in if seed.storage == storage then rest else seed ∷ rest

unfoldable pub remove_storage : ℕ → Database → Database
remove_storage storage db = purge (of_storage storage) (record db {
  storage_roots = erase storage db.storage_roots;
  virtual_root_seeds = remove_seeds storage db.virtual_root_seeds;
})

-- `root.scanned = root.virtual_root` for every root.
unfoldable pub reset_scanned : Map StorageRoot → Map StorageRoot
reset_scanned [] = []
reset_scanned ((storage, root) ∷ m) =
    (storage, record root { scanned = root.virtual_root }) ∷ reset_scanned m

unfoldable pub add_seeds : List VirtualRootSeed → Database → Database
add_seeds [] db = db
add_seeds (seed ∷ seeds) db = add_seeds seeds (add_virtual_root_entry seed db)

unfoldable pub session_started : Database → Database
session_started db = add_seeds db.virtual_root_seeds (record db {
  entries = [];
  pending_handles = [];
  next_handle = 1;
  storage_roots = reset_scanned db.storage_roots;
})

abbrev pub is_action : Option StorageRoot → Bool
is_action none = false
is_action (some root) = root.action

unfoldable pub session_ended : Database → Database
session_ended db = purge (λ entry. is_action (lookup entry.storage db.storage_roots)) db
