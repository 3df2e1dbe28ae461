-- ===== src/Database/Invariant/Runs.antt =====
-- The database over a whole run: the calls that change it, in any order, as a step relation.
use transferencia_switch.Base.{ℕ, ◌+◌, ◌<◌, ◌^◌, Bool, length}
use transferencia_switch.Database.Types.{Bytes, FileSystem, Database}
use transferencia_switch.Database.Storage.{
  new_database, add_storage_path_with_policy, add_storage_path, add_virtual_storage,
  add_action_storage, add_virtual_root_directory, remove_storage, session_started, session_ended,
}
use transferencia_switch.Database.Send.{begin_send_object, end_send_object}
use transferencia_switch.Database.Query.{get_object_list}
use transferencia_switch.Database.Invariant.{IsValid, HasRoom}
use transferencia_switch.Database.Invariant.Storages
use transferencia_switch.Database.Invariant.Sends
use transferencia_switch.Database.Invariant.Scans.{IsNarrow, list_cost, get_object_list-IsWithin}

-- One call, while the 32-bit counter has room for the handles that it takes. Each call may meet
-- another file system, in which no directory has more than `width` names.
pub data Step (width : ℕ) : Database → Database → Type 0 where
  adds_path :
      (path : Bytes) (storage : ℕ) (db : Database)
      → Step width db (add_storage_path path storage db)
  adds_policy :
      (path : Bytes) (storage : ℕ) (writable : Bool) (db : Database)
      → Step width db (add_storage_path_with_policy path storage writable db)
  adds_virtual : (storage : ℕ) (db : Database) → Step width db (add_virtual_storage storage db)
  adds_action :
      (storage : ℕ) (path : Bytes) (db : Database)
      → Step width db (add_action_storage storage path db)
  adds_directory :
      (storage : ℕ) (name path : Bytes) (db : Database)
      → HasRoom 1 db
      → Step width db (add_virtual_root_directory storage name path db)
  removes : (storage : ℕ) (db : Database) → Step width db (remove_storage storage db)
  begins :
      (fs : FileSystem) (path : Bytes) (format parent storage size modified : ℕ) (db : Database)
      → HasRoom 1 db
      → Step width db (begin_send_object fs path format parent storage size modified db).1
  ends :
      (fs : FileSystem) (handle : ℕ) (succeeded : Bool) (db : Database)
      → Step width db (end_send_object fs handle succeeded db)
  lists :
      (fs : FileSystem) (storage format parent : ℕ) (db : Database)
      → IsNarrow fs width
      → HasRoom (list_cost width db) db
      → Step width db (get_object_list fs storage format parent db).1
  starts :
      (db : Database)
      → length db.virtual_root_seeds + 1 < 2 ^ 32
      → Step width db (session_started db)
  finishes : (db : Database) → Step width db (session_ended db)

pub data Reach (width : ℕ) (db : Database) : Database → Type 0 where
  here : Reach width db db
  next : {t u : Database} → Reach width db t → Step width t u → Reach width db u

pub Step-IsValid : {width : ℕ} {t u : Database} → Step width t u → IsValid t → IsValid u
unfolding add_storage_path
Step-IsValid (adds_path path storage db) v =
    Storages.add_storage_path_with_policy-IsValid path storage _ db v
Step-IsValid (adds_policy path storage writable db) v =
    Storages.add_storage_path_with_policy-IsValid path storage writable db v
Step-IsValid (adds_virtual storage db) v = Storages.add_virtual_storage-IsValid storage db v
Step-IsValid (adds_action storage path db) v = Storages.add_action_storage-IsValid storage path db v
Step-IsValid (adds_directory storage name path db room) v =
    Storages.add_virtual_root_directory-IsValid storage name path db room v
Step-IsValid (removes storage db) v = Storages.remove_storage-IsValid storage db v
Step-IsValid (begins fs path format parent storage size modified db room) v =
    Sends.begin_send_object-IsValid fs path format parent storage size modified db room v
Step-IsValid (ends fs handle succeeded db) v =
    Sends.end_send_object-IsValid fs handle succeeded db v
Step-IsValid {width} (lists fs storage format parent db narrow room) v =
    (get_object_list-IsWithin fs width narrow storage format parent db room v).0
Step-IsValid (starts db room) v = Storages.session_started-IsValid db room v
Step-IsValid (finishes db) v = Storages.session_ended-IsValid db v

Reach-IsValid : {width : ℕ} {t u : Database} → IsValid t → Reach width t u → IsValid u
Reach-IsValid v here = v
Reach-IsValid v (next r s) = Step-IsValid s (Reach-IsValid v r)

-- In every database that calls make of a new one, the handles rise strictly and lie between 1 and
-- the counter, every object and every seed belongs to a registered storage, and only objects are
-- pending; the calls are any, while the handle counter does not wrap.
pub new_database-Reach :
    (path : Bytes) (writable : Bool) (width : ℕ) (db : Database)
    → Reach width (new_database path writable) db
    → IsValid db
new_database-Reach path writable width db r =
    Reach-IsValid (Storages.new_database-IsValid path writable) r
