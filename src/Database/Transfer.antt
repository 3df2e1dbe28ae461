-- ===== src/Database/Transfer.antt =====
-- What beginSendObject and endSendObject promise (read_only_sd_database.cpp).
pub mod Admits
use transferencia_switch.Base.{
  ℕ, ◌≡◌, refl, ◌∙◌, ◌≢◌, ◌⊎◌, ◌↔◌, inl, inr, Bool, true, false, Option, none, some, ◌==◌,
  if◌then◌else◌, arith, Bool-cases, if_cases, ap,
}
use transferencia_switch.Base.Maps.{
  lookup, contains, insert_or_assign, emplace, erase, lookup-emplace, lookup-adjust, lookup-erase,
  lookup-insert_or_assign, erase-emplace, erase-insert_or_assign,
}
use transferencia_switch.Database.Types.{
  Bytes, FileInfo, FileSystem, Entry, StorageRoot, Database, invalid_object_handle, add_entry,
}
use transferencia_switch.Database.Storage.{is_action}
use transferencia_switch.Database.Send.{
  admits, sent_entry, begin_send_object, completed, end_send_object, is_unknown, refresh,
}
use transferencia_switch.Database.Invariant.{IsValid, HasRoom, next_handle_free}
use transferencia_switch.Database.Transfer.Admits.{MayStore, admits_iff}

-- What a call of beginSendObject leaves: a refusal and the database as it was, or the next handle,
-- whose object is the announced one and is pending.
abbrev pub Begun : Entry → Database → ℕ × Database → Type 0
Begun entry db (handle, db') =
    ((handle ≡ invalid_object_handle) × (db' ≡ db))
    ⊎ ((handle ≡ db.next_handle)
        × (lookup handle db'.entries ≡ some entry)
        × (contains handle db'.pending_handles ≡ true))

-- beginSendObject answers with a handle other than the invalid one exactly for an object that may
-- be stored. It answers with the invalid handle and an unchanged database, or with the next handle,
-- under which the announced object is known and pending.
pub begin_send_object_iff :
    (fs : FileSystem) (path : Bytes) (format parent storage size modified : ℕ) (db : Database)
    → IsValid db
    → HasRoom 1 db
    → (((begin_send_object fs path format parent storage size modified db).0
          ≢ invalid_object_handle)
        ↔ MayStore fs path format parent storage db)
      × Begun
          (sent_entry path format parent storage size modified)
          db
          (begin_send_object fs path format parent storage size modified db)
unfolding begin_send_object add_entry
begin_send_object_iff fs path format parent storage size modified db v room =
    let iff = admits_iff fs path format parent storage db v in
    let entry = sent_entry path format parent storage size modified in
    (
      ((λ taken. iff.0 (ground (arith, room, taken))), λ may. rw (iff.1 may) (omega arith)),
      if_cases (Begun entry db) (admits fs path format parent storage db) _ _
          (λ _. inr (
            refl,
            added entry,
            ground (
              arith,
              lookup-insert_or_assign db.next_handle db.next_handle tt db.pending_handles,
            ),
          ))
          (λ _. inl (refl, refl)),
    )
  where
    added :
        (entry : Entry)
        → lookup db.next_handle (emplace db.next_handle entry db.entries) ≡ some entry
    added entry = ground (
      arith,
      lookup-emplace db.next_handle db.next_handle entry db.entries (next_handle_free db v),
    )

-- An object with the size and the time that `stat` reports for its file (a directory has size 0), or
-- as it was if it reports none.
abbrev pub IsRefreshed : Option FileInfo → Entry → Entry → Type 0
IsRefreshed none entry arrived = arrived ≡ entry
IsRefreshed (some info) entry arrived = arrived ≡ record entry {
  size = if info.is_directory then 0 else info.st_size;
  modified = info.st_mtime;
}

-- What an announced object is once it has arrived, by its storage and what `stat` reports.
abbrev pub IsArrived : Option StorageRoot → Option FileInfo → Entry → Entry → Type 0
IsArrived none info entry arrived = IsRefreshed info entry arrived
IsArrived (some root) info entry arrived =
    ((root.action ≡ true) × (arrived ≡ record entry { scanned = true }))
    ⊎ ((root.action ≡ false) × IsRefreshed info entry arrived)

completed-IsArrived :
    (fs : FileSystem) (db : Database) (entry : Entry)
    → IsArrived
        (lookup entry.storage db.storage_roots)
        (fs.stat entry.path)
        entry
        (completed fs db entry)
completed-IsArrived fs db entry = by (lookup entry.storage db.storage_roots)
  where
    refreshed : (info : Option FileInfo) → IsRefreshed info entry (refresh info entry)
    refreshed none = refl
    refreshed (some info) = refl

    by :
        (root : Option StorageRoot)
        → IsArrived root (fs.stat entry.path) entry (
            if is_action root
            then record entry { scanned = true }
            else refresh (fs.stat entry.path) entry)
    by none = refreshed (fs.stat entry.path)
    by (some root) = elim (Bool-cases root.action) [
      | inl e ↦ inl (e, rw e refl)
      | inr e ↦ inr (e, rw e (refreshed (fs.stat entry.path)))
    ]

not_pending : (db : Database) → IsValid db → lookup db.next_handle db.pending_handles ≡ none
not_pending db v = ground (arith, v.pending_known db.next_handle, next_handle_free db v)

module _ (fs fs' : FileSystem) (path : Bytes) (format parent storage size modified : ℕ)
    (db : Database) (v : IsValid db)
    (admitted : admits fs path format parent storage db ≡ true) where
  abbrev begun : Database
  begun = (begin_send_object fs path format parent storage size modified db).1

  abbrev announced : Entry
  announced = sent_entry path format parent storage size modified

  entries-begun : begun.entries ≡ emplace db.next_handle announced db.entries
  unfolding begin_send_object add_entry
  entries-begun = ground (arith, admitted)

  pending-begun : begun.pending_handles ≡ insert_or_assign db.next_handle tt db.pending_handles
  unfolding begin_send_object add_entry
  pending-begun = ground (arith, admitted)

  roots-begun : begun.storage_roots ≡ db.storage_roots
  unfolding begin_send_object add_entry
  roots-begun = ground (arith, admitted)

  known : is_unknown db.next_handle begun ≡ false
  known = ground (
    arith,
    entries-begun,
    pending-begun,
    lookup-emplace db.next_handle db.next_handle announced db.entries (next_handle_free db v),
    lookup-insert_or_assign db.next_handle db.next_handle tt db.pending_handles,
  )

  -- A transfer that begins and then fails leaves the objects, the pending handles and the storages
  -- as they were.
  pub end_send_object_undoes :
      let db' = end_send_object fs' db.next_handle false begun in
      (db'.entries ≡ db.entries)
      × (db'.pending_handles ≡ db.pending_handles)
      × (db'.storage_roots ≡ db.storage_roots)
  unfolding end_send_object
  end_send_object_undoes = rw known (
    ap (erase db.next_handle) entries-begun
        ∙ erase-emplace db.next_handle announced db.entries (next_handle_free db v),
    ap (erase db.next_handle) pending-begun
        ∙ erase-insert_or_assign db.next_handle tt db.pending_handles (not_pending db v),
    roots-begun,
  )

  -- A transfer that begins and then succeeds adds one object, the announced one: marked as scanned if
  -- its storage is an action, and else with the size and the time that `stat` reports for its file,
  -- or as it was announced if it reports none. Every other object stays, and nothing more is pending
  -- than before.
  pub end_send_object_completes :
      (h : ℕ)
      → let db' = end_send_object fs' db.next_handle true begun in
        (arrived : Entry) × IsArrived
          (lookup storage db.storage_roots)
          (fs'.stat path)
          announced
          arrived
        × (lookup h db'.entries
            ≡ (if h == db.next_handle then some arrived else lookup h db.entries))
        × (db'.pending_handles ≡ db.pending_handles)
  unfolding end_send_object
  end_send_object_completes h = rw known (
    completed fs' db announced,
    completed-IsArrived fs' db announced,
    ground (
      arith,
      entries-begun,
      roots-begun,
      lookup-emplace h db.next_handle announced db.entries (next_handle_free db v),
      lookup-adjust h db.next_handle (completed fs' begun) begun.entries,
    ),
    ap (erase db.next_handle) pending-begun
        ∙ erase-insert_or_assign db.next_handle tt db.pending_handles (not_pending db v),
  )

-- Once a transfer has ended, a second end of it changes nothing, whatever it reports.
pub end_send_object_once :
    (fs fs' : FileSystem) (handle : ℕ) (first second : Bool) (db : Database)
    → end_send_object fs' handle second (end_send_object fs handle first db)
      ≡ end_send_object fs handle first db
unfolding end_send_object
end_send_object_once fs fs' handle first second db =
    ground (arith, lookup-erase handle handle db.pending_handles)
