-- ===== src/Database/Rescan.antt =====
-- A directory is read once, and reading it loses no object (scan of read_only_sd_database.cpp).
use transferencia_switch.Base.{
  Bool-cases, ◌==◌, ℕ, ◌≡◌, ◌⊎◌, inl, inr, refl, ◌∙◌, true, Option, none, some, List, [], ◌∷◌,
  arith, Option-cases, if_cases,
}
use transferencia_switch.Base.Maps.{lookup, lookup-adjust, adjust, emplace_keeps}
use transferencia_switch.Database.Types.{Bytes, FileInfo, FileSystem, Entry, Database, add_entry}
use transferencia_switch.Database.Scan.{
  Target, refused, already, action, directory, scan_item, add_item, is_skipped, scan_items,
  scan_target, mark_scanned, run_target, read_directory, scan, entry_scanned, root_scanned,
  child_path,
}

-- The storages stay, and so does every object.
abbrev pub Keeps : Database → Database → Type 0
Keeps db db' =
    (db'.storage_roots ≡ db.storage_roots)
    × ((h : ℕ) (e : Entry) → lookup h db.entries ≡ some e → lookup h db'.entries ≡ some e)

Keeps-refl : (db : Database) → Keeps db db
Keeps-refl db = (refl, λ h e found. found)

Keeps-trans : (a b c : Database) → Keeps a b → Keeps b c → Keeps a c
Keeps-trans a b c k l = (l.0 ∙ k.0, λ h e found. l.1 h e (k.1 h e found))

add_entry-Keeps : (entry : Entry) (db : Database) → Keeps db (add_entry entry db)
unfolding add_entry
add_entry-Keeps entry db =
    (refl, λ h e found. emplace_keeps h db.next_handle entry e db.entries found)

add_item-Keeps :
    (storage parent : ℕ) (path name : Bytes) (info : Option FileInfo) (db : Database)
    → Keeps db (add_item storage parent path name info db)
add_item-Keeps storage parent path name none db = Keeps-refl db
add_item-Keeps storage parent path name (some info) db = add_entry-Keeps _ db

scan_items-Keeps :
    (fs : FileSystem) (storage parent : ℕ) (path : Bytes) (names : List Bytes) (db : Database)
    → Keeps db (scan_items fs storage parent path names db)
unfolding scan_items scan_item
scan_items-Keeps fs storage parent path [] db = Keeps-refl db
scan_items-Keeps fs storage parent path (name ∷ names) db =
    Keeps-trans db (scan_item fs storage parent path name db)
      (scan_items fs storage parent path names (scan_item fs storage parent path name db))
      (if_cases (Keeps db) (is_skipped name) _ _ (λ _. Keeps-refl db)
        (λ _. add_item-Keeps storage parent path name (fs.stat (child_path path name)) db))
      (scan_items-Keeps fs storage parent path names (scan_item fs storage parent path name db))

-- What is found under the handle `h` of an object `e`: the object as it is or, if it is the directory
-- `parent` itself, with the mark that it has been scanned.
abbrev pub SameObject : ℕ → ℕ → Entry → Option Entry → Type 0
SameObject parent h e found =
    (found ≡ some e) ⊎ ((h ≡ parent) × (found ≡ some (record e { scanned = true })))

marked :
    (storage parent h : ℕ) (e : Entry) (db : Database)
    → lookup h db.entries ≡ some e
    → SameObject parent h e (lookup h (mark_scanned storage parent db).entries)
unfolding mark_scanned
marked storage parent h e db found =
    if_cases (λ (db' : Database). SameObject parent h e (lookup h db'.entries)) (parent == 0) _ _
      (λ _. inl found)
      (λ _. elim (Bool-cases (h == parent)) [
        | inl same ↦ inr (
          ground (arith, same),
          ground (arith, same, found, lookup-adjust h parent entry_scanned db.entries),
        )
        | inr other ↦
            inl (ground (arith, other, found, lookup-adjust h parent entry_scanned db.entries))
      ])

-- Scanning a directory loses no object and changes none but the directory itself, which may be marked
-- as scanned.
pub scan_keeps :
    (fs : FileSystem) (storage parent h : ℕ) (e : Entry) (db : Database)
    → lookup h db.entries ≡ some e
    → SameObject parent h e (lookup h (scan fs storage parent db).1.entries)
unfolding scan
scan_keeps fs storage parent h e db found = go (scan_target storage parent db)
  where
    listed :
        (path : Bytes) (listing : Option (List Bytes))
        → SameObject parent h e
            (lookup h (read_directory fs storage parent path listing db).1.entries)
    listed path none = inl found
    listed path (some names) =
        let kept = (scan_items-Keeps fs storage parent path names db).1 h e found in
        marked storage parent h e (scan_items fs storage parent path names db) kept

    go :
        (target : Target)
        → SameObject parent h e (lookup h (run_target fs storage parent target db).1.entries)
    go refused = inl found
    go already = inl found
    go action = inl found
    go (directory path) = listed path (fs.opendir path)

target_after :
    (storage parent : ℕ) (path : Bytes) (db db' : Database)
    → scan_target storage parent db ≡ directory path
    → Keeps db db'
    → scan_target storage parent (mark_scanned storage parent db') ≡ already
unfolding scan_target mark_scanned
target_after storage parent path db db' e keeps =
    elim (Option-cases (lookup storage db.storage_roots)) [
      | inl no_root ↦ by_parent (Option-cases (lookup parent db.entries))
      | inr (root, is_root) ↦ by_parent (Option-cases (lookup parent db.entries))
    ]
  where
    by_parent :
        (lookup parent db.entries ≡ none)
          ⊎ ((entry : Entry) × (lookup parent db.entries ≡ some entry))
        → scan_target storage parent (mark_scanned storage parent db') ≡ already
    by_parent (inl missing) =
        ground (arith, e, keeps.0, lookup-adjust storage storage root_scanned db'.storage_roots)
    by_parent (inr (entry, found)) = ground (
      arith,
      e,
      keeps.0,
      keeps.1 parent entry found,
      lookup-adjust storage storage root_scanned db'.storage_roots,
      lookup-adjust parent parent entry_scanned db'.entries,
    )

settled :
    (fs : FileSystem) (storage parent : ℕ) (db : Database)
    → scan_target storage parent db ≡ already
    → run_target fs storage parent (scan_target storage parent db) db ≡ (true, db)
settled fs storage parent db e = rw e

action_after :
    (storage parent : ℕ) (db : Database)
    → scan_target storage parent db ≡ action
    → scan_target storage parent
        (record db { storage_roots = adjust storage root_scanned db.storage_roots })
      ≡ already
unfolding scan_target
action_after storage parent db e =
    ground (arith, lookup-adjust storage storage root_scanned db.storage_roots)

target_read :
    (fs : FileSystem) (storage parent : ℕ) (path : Bytes) (listing : Option (List Bytes))
    (db : Database)
    → scan_target storage parent db ≡ directory path
    → (read_directory fs storage parent path listing db).0 ≡ true
    → scan_target storage parent (read_directory fs storage parent path listing db).1 ≡ already
target_read fs storage parent path none db e done = cc
target_read fs storage parent path (some names) db e done =
    target_after storage parent path db (scan_items fs storage parent path names db) e
      (scan_items-Keeps fs storage parent path names db)

target_run :
    (fs : FileSystem) (storage parent : ℕ) (target : Target) (db : Database)
    → scan_target storage parent db ≡ target
    → (run_target fs storage parent target db).0 ≡ true
    → scan_target storage parent (run_target fs storage parent target db).1 ≡ already
target_run fs storage parent refused db e done = cc
target_run fs storage parent already db e done = e
target_run fs storage parent action db e done = action_after storage parent db e
target_run fs storage parent (directory path) db e done =
    target_read fs storage parent path (fs.opendir path) db e done

-- A scan that succeeds is not repeated: another scan of the same directory or root succeeds at
-- once and changes nothing, whatever the file system holds by then.
pub scan_once :
    (fs fs' : FileSystem) (storage parent : ℕ) (db : Database)
    → (scan fs storage parent db).0 ≡ true
    → scan fs' storage parent (scan fs storage parent db).1 ≡ (true, (scan fs storage parent db).1)
unfolding scan
scan_once fs fs' storage parent db done =
    settled fs' storage parent _ (target_run fs storage parent _ db refl done)
