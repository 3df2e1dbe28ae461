-- ===== src/Database/Transfer/Admits.antt =====
-- Which objects may be stored (the guards of beginSendObject), described apart from the code.
use transferencia_switch.Base.{
  ℕ, suc, ◌≡◌, refl, ◌≢◌, ◌⊎◌, ◌↔◌, inl, inr, true, false, none, some, [], ◌∷◌, ◌==◌, arith,
  Bool-cases, Option-cases, ap,
}
use transferencia_switch.Base.Bytes.{same, same-eq, same_refl}
use transferencia_switch.Base.Maps.{Map, lookup, IsSortedFrom, lookup_below}
use transferencia_switch.Domain.SafePath.{is_safe_direct_child}
use transferencia_switch.Domain.SafePath.Sound.{
  IsName, IsDirectChild, last, is_safe_direct_child_iff,
}
use transferencia_switch.Database.Types.{
  Bytes, FileSystem, Entry, StorageRoot, Database, format_association,
}
use transferencia_switch.Database.Send.{parent_path, has_path, admits}
use transferencia_switch.Database.Invariant.{IsValid}

-- The directory that a parent handle stands for.
abbrev pub IsParentDirectory : StorageRoot → ℕ → ℕ → Database → Bytes → Type 0
IsParentDirectory root parent storage db path =
    ((parent ≡ 0) × (path ≡ root.path))
    ⊎ ((parent ≢ 0)
        × ((e : Entry) × (lookup parent db.entries ≡ some e)
            × (e.storage ≡ storage)
            × (e.format ≡ format_association)
            × (path ≡ e.path)))

abbrev pub IsFreshPath : Bytes → Database → Type 0
IsFreshPath path db = (h : ℕ) (e : Entry) → lookup h db.entries ≡ some e → e.path ≢ path

-- When an object may be stored at `path`: in a registered and writable storage, no folder into an
-- action storage, under a name that is safe, in the root or in a known folder of the storage,
-- where there is neither a file nor an object of that path.
abbrev pub MayStore : FileSystem → Bytes → ℕ → ℕ → ℕ → Database → Type 0
MayStore fs path format parent storage db =
    ((root : StorageRoot) × (directory : Bytes) × (name : Bytes) × (lookup storage db.storage_roots
        ≡ some root)
      × (root.writable ≡ true)
      × ((root.action ≡ false) ⊎ (format ≢ format_association))
      × IsParentDirectory root parent storage db directory
      × (last root.path ≡ b'/')
      × IsName name
      × IsDirectChild root.path directory name path)
    × (fs.stat path ≡ none)
    × IsFreshPath path db

has_path-fresh :
    (path : Bytes) (m : Map Entry)
    → has_path path m ≡ false
    → (h : ℕ) (e : Entry) → lookup h m ≡ some e
    → e.path ≢ path
unfolding has_path lookup
has_path-fresh path [] none_has h e found = cc
has_path-fresh path ((k, first) ∷ m) none_has h e found = λ eq.
    ground (
      arith,
      eq,
      same_refl path,
      ap (λ t. same t path) eq,
      has_path-fresh path m (ground arith) h e,
    )

fresh-has_path :
    (n : ℕ) (path : Bytes) (m : Map Entry)
    → IsSortedFrom n m
    → ((h : ℕ) (e : Entry) → lookup h m ≡ some e → e.path ≢ path)
    → has_path path m ≡ false
unfolding has_path lookup
fresh-has_path n path [] s fresh = refl
fresh-has_path n path ((k, first) ∷ m) s fresh =
    let differs : same first.path path ≡ false = elim (Bool-cases (same first.path path)) [
      | inl e ↦ absurd (fresh k first (ground arith) (same-eq first.path path e))
      | inr e ↦ e
    ] in
    rw (differs) (
      fresh-has_path (suc k) path m s.1
        (λ h e found. fresh h e (ground (arith, lookup_below (suc k) h m s.1, found))))

parent_path_cases :
    (root : StorageRoot) (parent storage : ℕ) (db : Database) (directory : Bytes)
    → (parent_path root parent storage db ≡ some directory)
      ↔ IsParentDirectory root parent storage db directory
unfolding parent_path
parent_path_cases root parent storage db directory = (to, from)
  where
    to :
        parent_path root parent storage db ≡ some directory
        → IsParentDirectory root parent storage db directory
    to e = elim (Bool-cases (parent == 0)) [
      | inl zero_parent ↦ inl (ground arith)
      | inr other ↦ elim (Option-cases (lookup parent db.entries)) [
        | inl missing ↦ ground arith
        | inr (entry, found) ↦
            inr (ground arith, (entry, found, ground arith, ground arith, ground arith))
      ]
    ]

    from :
        IsParentDirectory root parent storage db directory
        → parent_path root parent storage db ≡ some directory
    from (inl (z, p)) = ground arith
    from (inr (nz, (entry, found, s, f, p))) = ground arith

-- The guards as tests.
admits_cases :
    (fs : FileSystem) (path : Bytes) (format parent storage : ℕ) (db : Database)
    → admits fs path format parent storage db ≡ true
    → (root : StorageRoot) × (directory : Bytes) × (lookup storage db.storage_roots ≡ some root)
      × (root.writable ≡ true)
      × ((root.action ≡ false) ⊎ (format ≢ format_association))
      × (parent_path root parent storage db ≡ some directory)
      × (is_safe_direct_child (some root.path) (some directory) (some path) ≡ true)
      × (fs.stat path ≡ none)
      × (has_path path db.entries ≡ false)
unfolding admits
admits_cases fs path format parent storage db e =
    elim (Option-cases (lookup storage db.storage_roots)) [
      | inl missing ↦ ground arith
      | inr (root, found) ↦ elim (Option-cases (parent_path root parent storage db)) [
        | inl missing ↦ ground arith
        | inr (directory, named) ↦ (
          root,
          directory,
          found,
          ground arith,
          ground arith,
          named,
          ground arith,
          ground arith,
          ground arith,
        )
      ]
    ]

admits_tests :
    (fs : FileSystem) (path : Bytes) (format parent storage : ℕ) (db : Database)
    (root : StorageRoot) (directory : Bytes)
    → lookup storage db.storage_roots ≡ some root
    → root.writable ≡ true
    → (root.action ≡ false) ⊎ (format ≢ format_association)
    → parent_path root parent storage db ≡ some directory
    → is_safe_direct_child (some root.path) (some directory) (some path) ≡ true
    → fs.stat path ≡ none
    → has_path path db.entries ≡ false
    → admits fs path format parent storage db ≡ true
unfolding admits
admits_tests fs path format parent storage db root directory l w a p s f h = ground arith

pub admits_iff :
    (fs : FileSystem) (path : Bytes) (format parent storage : ℕ) (db : Database)
    → IsValid db
    → (admits fs path format parent storage db ≡ true) ↔ MayStore fs path format parent storage db
admits_iff fs path format parent storage db v = (to, from)
  where
    to : admits fs path format parent storage db ≡ true → MayStore fs path format parent storage db
    to e =
        let (root, directory, found, writable, kind, named, safe, absent, fresh) =
          admits_cases fs path format parent storage db e in
        let (slash, (name, good, child)) =
          (is_safe_direct_child_iff root.path directory path).0 safe in
        (
          (
            root,
            directory,
            name,
            found,
            writable,
            kind,
            (parent_path_cases root parent storage db directory).0 named,
            slash,
            good,
            child,
          ),
          absent,
          has_path-fresh path db.entries fresh,
        )

    from :
        MayStore fs path format parent storage db → admits fs path format parent storage db ≡ true
    from
          (
            (root, directory, name, found, writable, kind, named, slash, good, child),
            absent,
            fresh,
          ) =
        admits_tests fs path format parent storage db root directory found writable kind
          ((parent_path_cases root parent storage db directory).1 named)
          ((is_safe_direct_child_iff root.path directory path).1 (slash, (name, good, child)))
          absent (fresh-has_path 0 path db.entries v.sorted fresh)
