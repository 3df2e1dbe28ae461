-- ===== src/Database/Invariant/Scans.antt =====
-- scan and the requests that scan keep the invariant (Database.Scan and Database.Query).
use transferencia_switch.Base.{
  ℕ, ◌+◌, ◌*◌, ◌≤◌, ◌≡◌, refl, ◌∙◌, inl, inr, Bool, true, Option, none, some, List, [], ◌∷◌, ◌==◌,
  arith, ◌&&◌, Option-cases, if_cases, length,
}
use transferencia_switch.Base.Maps.{Map, lookup, contains, adjust, lookup-adjust}
use transferencia_switch.Database.Types.{
  Bytes, FileInfo, FileSystem, Entry, StorageRoot, Database, add_entry,
}
use transferencia_switch.Database.Scan.{
  scanned_entry, scan_item, add_item, run_target, read_directory, is_skipped, scan_items,
  root_scanned, entry_scanned, child_path, Target, refused, already, action, directory, scan_target,
  mark_scanned, scan,
}
use transferencia_switch.Database.Query.{
  scan_roots, is_any_storage, prepare, scan_parent, root_as_zero, get_object_list,
}
use transferencia_switch.Database.Invariant.{IsValid, HasRoom, add_entry-IsValid}
use transferencia_switch.Database.Invariant.Sends.{adjust-IsValid}
use transferencia_switch.Database.Invariant.Storages.{AllSeeds-mono}

-- No directory has more than `width` names.
abbrev pub IsNarrow : FileSystem → ℕ → Type 0
IsNarrow fs width =
    (path : Bytes) (names : List Bytes) → fs.opendir path ≡ some names → length names ≤ width

-- What scanning changes besides the marks: objects of `storage` are added, `n` at most, and the
-- storages, the seeds and the pending handles stay.
pub record Grows (n storage : ℕ) (db db' : Database) : Type 0 where
  pub next_le : db'.next_handle ≤ db.next_handle + n
  pub roots : db'.storage_roots ≡ db.storage_roots
  pub valid : IsValid db'

scan_item-Grows :
    (fs : FileSystem) (storage parent : ℕ) (directory_path name : Bytes) (db : Database)
    → HasRoom 1 db
    → contains storage db.storage_roots ≡ true
    → IsValid db
    → Grows 1 storage db (scan_item fs storage parent directory_path name db)
unfolding scan_item add_entry scanned_entry
scan_item-Grows fs storage parent directory_path name db room known v =
    if_cases (Grows 1 storage db) (is_skipped name) _ _ (λ _. stays)
      (λ _. added (fs.stat (child_path directory_path name)))
  where
    stays : Grows 1 storage db db
    stays = record { next_le = omega arith; roots = refl; valid = v }

    added :
        (info : Option FileInfo)
        → Grows 1 storage db (add_item storage parent directory_path name info db)
    added none = stays
    added (some i) = record {
      next_le = omega arith;
      roots = refl;
      valid =
          add_entry-IsValid (scanned_entry storage parent directory_path name i) db room known v;
    }

pub scan_items-Grows :
    (fs : FileSystem) (storage parent : ℕ) (directory_path : Bytes) (names : List Bytes)
    (db : Database)
    → HasRoom (length names) db
    → contains storage db.storage_roots ≡ true
    → IsValid db
    → Grows (length names) storage db (scan_items fs storage parent directory_path names db)
unfolding scan_items
scan_items-Grows fs storage parent directory_path [] db room known v = record {
  next_le = omega arith;
  roots = refl;
  valid = v;
}
scan_items-Grows fs storage parent directory_path (name ∷ names) db room known v =
    let first = scan_item-Grows fs storage parent directory_path name db (omega arith) known v in
    let db' = scan_item fs storage parent directory_path name db in
    let rest =
      scan_items-Grows fs storage parent directory_path names db'
        (omega (arith, first.next_le, room)) (rw first.roots known) first.valid in
    record {
      next_le = omega (arith, first.next_le, rest.next_le);
      roots = rest.roots ∙ first.roots;
      valid = rest.valid;
    }

-- Writing the mark of a root keeps the storages registered.
mark_root-IsValid :
    (storage : ℕ) (db : Database)
    → IsValid db
    → IsValid (record db { storage_roots = adjust storage root_scanned db.storage_roots })
mark_root-IsValid storage db v = record {
  sorted = v.sorted;
  positive = v.positive;
  bounded = v.bounded;
  housed = λ h e eq. stays e.storage (v.housed h e eq);
  pending_known = v.pending_known;
  seeded = AllSeeds-mono db.virtual_root_seeds (λ seed. stays seed.storage) v.seeded;
}
  where
    stays :
        (s : ℕ)
        → contains s db.storage_roots ≡ true
        → contains s (adjust storage root_scanned db.storage_roots) ≡ true
    stays s known = ground (arith, lookup-adjust s storage root_scanned db.storage_roots)

mark_scanned-IsValid :
    (storage parent : ℕ) (db : Database) → IsValid db → IsValid (mark_scanned storage parent db)
unfolding mark_scanned
mark_scanned-IsValid storage parent db v =
    if_cases IsValid (parent == 0) _ _ (λ _. mark_root-IsValid storage db v)
      (λ _. adjust-IsValid entry_scanned parent db (λ e. refl) v)

-- A directory that scan reads belongs to a storage that is registered.
target-registered :
    (storage parent : ℕ) (db : Database) (path : Bytes)
    → IsValid db
    → scan_target storage parent db ≡ directory path
    → contains storage db.storage_roots ≡ true
unfolding scan_target
target-registered storage parent db path v e = elim (Option-cases (lookup parent db.entries)) [
  | inl missing ↦ ground arith
  | inr (entry, found) ↦ ground (arith, v.housed parent entry found)
]

next-mark_scanned :
    (storage parent : ℕ) (db : Database)
    → (mark_scanned storage parent db).next_handle ≡ db.next_handle
unfolding mark_scanned
next-mark_scanned storage parent db = ground arith

-- A result that is valid and has taken `n` handles at most.
abbrev pub IsWithin : ℕ → Database → Database → Type 0
IsWithin n db db' = IsValid db' × (db'.next_handle ≤ db.next_handle + n)

module _ (fs : FileSystem) (width : ℕ) (narrow : IsNarrow fs width) where
  read_directory-IsWithin :
      (storage parent : ℕ) (path : Bytes) (listing : Option (List Bytes)) (db : Database)
      → fs.opendir path ≡ listing
      → contains storage db.storage_roots ≡ true
      → HasRoom width db
      → IsValid db
      → IsWithin width db (read_directory fs storage parent path listing db).1
  read_directory-IsWithin storage parent path none db e known room v = (v, omega arith)
  read_directory-IsWithin storage parent path (some names) db e known room v =
      let few = narrow path names e in
      let grown = scan_items-Grows fs storage parent path names db (omega arith) known v in
      (
        mark_scanned-IsValid storage parent _ grown.valid,
        omega (
          arith,
          grown.next_le,
          few,
          next-mark_scanned storage parent (scan_items fs storage parent path names db),
        ),
      )

  run_target-IsWithin :
      (storage parent : ℕ) (target : Target) (db : Database)
      → scan_target storage parent db ≡ target
      → HasRoom width db
      → IsValid db
      → IsWithin width db (run_target fs storage parent target db).1
  run_target-IsWithin storage parent refused db e room v = (v, omega arith)
  run_target-IsWithin storage parent already db e room v = (v, omega arith)
  run_target-IsWithin storage parent action db e room v =
      (mark_root-IsValid storage db v, omega arith)
  run_target-IsWithin storage parent (directory path) db e room v =
      read_directory-IsWithin storage parent path (fs.opendir path) db refl
        (target-registered storage parent db path v e) room v

  pub scan-IsWithin :
      (storage parent : ℕ) (db : Database)
      → HasRoom width db
      → IsValid db
      → IsWithin width db (scan fs storage parent db).1
  unfolding scan
  scan-IsWithin storage parent db room v = run_target-IsWithin storage parent _ db refl room v

  scan_roots-IsWithin :
      (roots : Map StorageRoot) (db : Database)
      → HasRoom (length roots * width) db
      → IsValid db
      → IsWithin (length roots * width) db (scan_roots fs roots db)
  unfolding scan_roots
  scan_roots-IsWithin [] db room v = (v, omega arith)
  scan_roots-IsWithin ((storage, _) ∷ roots) db room v =
      let first = scan-IsWithin storage 0 db (grind arith) v in
      let rest =
        scan_roots-IsWithin roots (scan fs storage 0 db).1 (grind (arith, first.1)) first.0 in
      (rest.0, grind (arith, first.1, rest.1))

  scan_parent-IsWithin :
      (parent : ℕ) (found : Option Entry) (db : Database)
      → HasRoom width db
      → IsValid db
      → IsWithin width db (scan_parent fs parent found db).1
  scan_parent-IsWithin parent none db room v = (v, omega arith)
  scan_parent-IsWithin parent (some entry) db room v = scan-IsWithin entry.storage parent db room v

  IsWithin-mono : {n k : ℕ} (db db' : Database) → n ≤ k → IsWithin n db db' → IsWithin k db db'
  IsWithin-mono db db' h w = (w.0, omega (arith, w.1))

-- The handles that a list of objects can take: those of a directory, or of all roots.
abbrev pub list_cost : ℕ → Database → ℕ
list_cost width db = width + length db.storage_roots * width

module _ (fs : FileSystem) (width : ℕ) (narrow : IsNarrow fs width) where
  prepare-IsWithin :
      (storage parent : ℕ) (db : Database)
      → HasRoom (list_cost width db) db
      → IsValid db
      → IsWithin (list_cost width db) db (prepare fs storage parent db).1
  unfolding prepare
  prepare-IsWithin storage parent db room v =
      if_cases (λ (r : Bool × Database). IsWithin (list_cost width db) db r.1)
        (parent == 0 && is_any_storage storage) _ _
        (λ _.
          IsWithin-mono fs width narrow db _ (omega arith)
            (scan_roots-IsWithin fs width narrow db.storage_roots db (omega arith) v))
        λ _.
          if_cases (λ (r : Bool × Database). IsWithin (list_cost width db) db r.1) (parent == 0) _ _
            (λ _.
              IsWithin-mono fs width narrow db _ (omega arith)
                (scan-IsWithin fs width narrow storage 0 db (omega arith) v))
            (λ _.
              IsWithin-mono fs width narrow db _ (omega arith)
                (scan_parent-IsWithin fs width narrow parent _ db (omega arith) v))

  pub get_object_list-IsWithin :
      (storage format parent : ℕ) (db : Database)
      → HasRoom (list_cost width db) db
      → IsValid db
      → IsWithin (list_cost width db) db (get_object_list fs storage format parent db).1
  unfolding get_object_list
  get_object_list-IsWithin storage format parent db room v =
      prepare-IsWithin storage (root_as_zero parent) db room v
