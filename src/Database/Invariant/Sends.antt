-- ===== src/Database/Invariant/Sends.antt =====
-- beginSendObject and endSendObject keep the invariant (Database.Send).
use transferencia_switch.Base.{
  ℕ, ◌≡◌, inl, inr, Bool, true, some, arith, not, Option-cases, if_cases,
}
use transferencia_switch.Base.Maps.{
  lookup, contains, insert_or_assign, erase, adjust, lookup-insert_or_assign, lookup-erase,
  lookup-adjust, erase-IsSortedFrom, adjust-IsSortedFrom, lookup-emplace, emplace,
}
use transferencia_switch.Database.Types.{Bytes, FileSystem, Entry, StorageRoot, Database, add_entry}
use transferencia_switch.Database.Send.{
  admits, sent_entry, begin_send_object, completed, is_unknown, end_send_object,
}
use transferencia_switch.Database.Invariant.{IsValid, HasRoom, add_entry-IsValid, next_handle_free}

-- An object is admitted into a storage that is registered, and writable.
pub admits-registered :
    (fs : FileSystem) (path : Bytes) (format parent storage : ℕ) (db : Database)
    → admits fs path format parent storage db ≡ true
    → (root : StorageRoot) × (lookup storage db.storage_roots ≡ some root) × (root.writable ≡ true)
unfolding admits
admits-registered fs path format parent storage db e = ground arith

pending-IsValid :
    (handle : ℕ) (db : Database)
    → contains handle db.entries ≡ true
    → IsValid db
    → IsValid (record db { pending_handles = insert_or_assign handle tt db.pending_handles })
pending-IsValid handle db known v = record {
  sorted = v.sorted;
  positive = v.positive;
  bounded = v.bounded;
  housed = v.housed;
  pending_known = λ h eq.
      ground (arith, v.pending_known h, lookup-insert_or_assign h handle tt db.pending_handles);
  seeded = v.seeded;
}

pub begin_send_object-IsValid :
    (fs : FileSystem) (path : Bytes) (format parent storage size modified : ℕ) (db : Database)
    → HasRoom 1 db
    → IsValid db
    → IsValid (begin_send_object fs path format parent storage size modified db).1
unfolding begin_send_object add_entry emplace
begin_send_object-IsValid fs path format parent storage size modified db room v =
    if_cases (λ (r : ℕ × Database). IsValid r.1) (admits fs path format parent storage db) _ _
      (λ e.
        let (root, known, _) = admits-registered fs path format parent storage db e in
        let entry = sent_entry path format parent storage size modified in
        pending-IsValid db.next_handle (add_entry entry db) (added entry)
          (add_entry-IsValid entry db room (ground (arith, known)) v))
      (λ _. v)
  where
    added :
        (entry : Entry) → contains db.next_handle (emplace db.next_handle entry db.entries) ≡ true
    added entry = ground (
      arith,
      lookup-emplace db.next_handle db.next_handle entry db.entries (next_handle_free db v),
    )

erase-IsValid :
    (handle : ℕ) (db : Database)
    → IsValid db
    → IsValid (record db {
      entries = erase handle db.entries;
      pending_handles = erase handle db.pending_handles;
    })
erase-IsValid handle db v = record {
  sorted = erase-IsSortedFrom 0 handle db.entries v.sorted;
  positive = v.positive;
  bounded = λ h e eq. ground (arith, v.bounded h e, lookup-erase h handle db.entries);
  housed = λ h e eq. ground (arith, v.housed h e, lookup-erase h handle db.entries);
  pending_known = λ h eq. ground (
    arith,
    v.pending_known h,
    lookup-erase h handle db.entries,
    lookup-erase h handle db.pending_handles,
  );
  seeded = v.seeded;
}

-- A write to an entry that leaves its storage alone.
pub adjust-IsValid :
    (f : Entry → Entry) (handle : ℕ) (db : Database)
    → ((e : Entry) → (f e).storage ≡ e.storage)
    → IsValid db
    → IsValid (record db { entries = adjust handle f db.entries })
adjust-IsValid f handle db same_storage v = record {
  sorted = adjust-IsSortedFrom 0 handle f db.entries v.sorted;
  positive = v.positive;
  bounded = λ h e eq. elim (Option-cases (lookup h db.entries)) [
    | inl missing ↦ ground (arith, lookup-adjust h handle f db.entries)
    | inr (old, found) ↦ ground (arith, v.bounded h old found)
  ];
  housed = λ h e eq. elim (Option-cases (lookup h db.entries)) [
    | inl missing ↦ ground (arith, lookup-adjust h handle f db.entries)
    | inr (old, found) ↦
        ground (arith, v.housed h old found, lookup-adjust h handle f db.entries, same_storage old)
  ];
  pending_known = λ h eq. ground (arith, v.pending_known h, lookup-adjust h handle f db.entries);
  seeded = v.seeded;
}

completed-storage :
    (fs : FileSystem) (db : Database) (e : Entry) → (completed fs db e).storage ≡ e.storage
completed-storage fs db e = ground arith

unpend-IsValid :
    (handle : ℕ) (db : Database)
    → IsValid db
    → IsValid (record db { pending_handles = erase handle db.pending_handles })
unpend-IsValid handle db v = record {
  sorted = v.sorted;
  positive = v.positive;
  bounded = v.bounded;
  housed = v.housed;
  pending_known =
      λ h eq. ground (arith, v.pending_known h, lookup-erase h handle db.pending_handles);
  seeded = v.seeded;
}

pub end_send_object-IsValid :
    (fs : FileSystem) (handle : ℕ) (succeeded : Bool) (db : Database)
    → IsValid db
    → IsValid (end_send_object fs handle succeeded db)
unfolding end_send_object
end_send_object-IsValid fs handle succeeded db v =
    if_cases IsValid (is_unknown handle db) _ _ (λ _. v)
      λ _.
        if_cases IsValid (not succeeded) _ _ (λ _. erase-IsValid handle db v)
          λ _.
            unpend-IsValid handle
              (record db { entries = adjust handle (completed fs db) db.entries })
              (adjust-IsValid (completed fs db) handle db (completed-storage fs db) v)
