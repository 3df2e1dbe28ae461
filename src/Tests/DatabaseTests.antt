-- ===== src/Tests/DatabaseTests.antt =====
-- A small database with an SD card that can be written, an action storage, and one folder.
use transferencia_switch.Base.{
  ℕ, ◌≡◌, refl, ◌↔◌, ◌≢◌, true, false, none, some, [], ◌∷◌, arith, length, ◌==◌, if◌then◌else◌,
}
use transferencia_switch.Base.Bytes.{codes, same, starts_with, after_last}
use transferencia_switch.Base.Maps.{lookup, insert_or_assign, erase_if, emplace}
use transferencia_switch.Domain.SafePath.{
  allowed_bytes, is_safe_name, child_name, name_or_refuse, check_child, is_safe_direct_child,
}
use transferencia_switch.Database.Types.{
  Bytes, FileSystem, Entry, Database, normalize_root, purge, add_entry, invalid_object_handle,
}
use transferencia_switch.Database.Storage.{
  new_database, add_storage_path, add_storage_path_with_policy,
}
use transferencia_switch.Database.Send.{
  parent_path, has_path, base_name, admits, sent_entry, begin_send_object, end_send_object,
}
use transferencia_switch.Database.Scan.{scan, scan_target}
use transferencia_switch.Database.Query.{get_object_list, prepare, root_as_zero}
use transferencia_switch.Database.Invariant.{IsValid}
use transferencia_switch.Database.Invariant.Storages.{new_database-IsValid}
use transferencia_switch.Database.Invariant.Scans.{IsNarrow}
use transferencia_switch.Database.Invariant.Runs.{
  here, next, adds_path, begins, Step-IsValid, new_database-Reach,
}
use transferencia_switch.Database.Transfer.{
  IsArrived, Begun, begin_send_object_iff, end_send_object_undoes, end_send_object_completes,
  end_send_object_once,
}
use transferencia_switch.Database.Transfer.Admits.{MayStore}
use transferencia_switch.Database.Rescan.{SameObject, scan_keeps, scan_once}
use transferencia_switch.Database.Listing.{Among, IsMatch, get_object_list_iff}

-- Every file is a text of 7 bytes, and every directory holds one file; `absent` is a path that
-- does not exist yet.
abbrev card : FileSystem
card = record {
  stat = λ path.
      if same path (codes "sdmc:/new.txt")
      then none
      else some (record { is_directory = false; st_size = 7; st_mtime = 1 });
  opendir = λ path. some (codes "a.txt" ∷ []);
}

abbrev card_after : FileSystem
card_after = record {
  stat = λ path. some (record { is_directory = false; st_size = 9; st_mtime = 2 });
  opendir = λ path. some (codes "a.txt" ∷ codes "new.txt" ∷ []);
}

abbrev sd : ℕ
sd = 0x10001

sd_database : Database
sd_database = add_storage_path (codes "sdmc:/") sd (new_database (codes "sdmc:") true)

sd_database-IsValid : IsValid sd_database
unfolding sd_database
sd_database-IsValid =
    Step-IsValid {width = 1} (adds_path (codes "sdmc:/") sd (new_database (codes "sdmc:") true))
      (new_database-IsValid (codes "sdmc:") true)

sd_database-HasRoom : (sd_database.next_handle ≡ 1) × (length sd_database.storage_roots ≡ 1)
unfolding sd_database add_storage_path add_storage_path_with_policy new_database purge
    insert_or_assign erase_if normalize_root same
sd_database-HasRoom = (refl, refl)

card-IsNarrow : IsNarrow card 1
card-IsNarrow path names e = ground arith

abbrev new_file : Bytes
new_file = codes "sdmc:/new.txt"

new_file_admitted : admits card new_file 0x3004 0 sd sd_database ≡ true
unfolding sd_database admits add_storage_path add_storage_path_with_policy new_database purge
    insert_or_assign erase_if normalize_root same lookup parent_path is_safe_direct_child
    check_child child_name name_or_refuse is_safe_name allowed_bytes starts_with has_path
new_file_admitted = refl

new_database-Reach_example : IsValid (begin_send_object card new_file 0x3004 0 sd 7 0 sd_database).1
unfolding sd_database
new_database-Reach_example =
    new_database-Reach (codes "sdmc:") true 1
      (begin_send_object card new_file 0x3004 0 sd 7 0 sd_database).1
      (next (next here (adds_path (codes "sdmc:/") sd (new_database (codes "sdmc:") true)))
        (begins card new_file 0x3004 0 sd 7 0 sd_database (omega (arith, sd_database-HasRoom))))

begin_send_object_iff_example :
    (((begin_send_object card new_file 0x3004 0 sd 7 0 sd_database).0 ≢ invalid_object_handle)
      ↔ MayStore card new_file 0x3004 0 sd sd_database)
    × Begun
        (sent_entry new_file 0x3004 0 sd 7 0)
        sd_database
        (begin_send_object card new_file 0x3004 0 sd 7 0 sd_database)
begin_send_object_iff_example =
    begin_send_object_iff card new_file 0x3004 0 sd 7 0 sd_database sd_database-IsValid
      (omega (arith, sd_database-HasRoom))

abbrev sent : Database
sent = (begin_send_object card new_file 0x3004 0 sd 7 0 sd_database).1

end_send_object_undoes_example :
    let db' = end_send_object card sd_database.next_handle false sent in
    (db'.entries ≡ sd_database.entries)
    × (db'.pending_handles ≡ sd_database.pending_handles)
    × (db'.storage_roots ≡ sd_database.storage_roots)
end_send_object_undoes_example =
    end_send_object_undoes card card new_file 0x3004 0 sd 7 0 sd_database sd_database-IsValid
      new_file_admitted

end_send_object_completes_example :
    let db' = end_send_object card_after sd_database.next_handle true sent in
    (arrived : Entry) × IsArrived
      (lookup sd sd_database.storage_roots)
      (card_after.stat new_file)
      (sent_entry new_file 0x3004 0 sd 7 0)
      arrived
    × (lookup 1 db'.entries
        ≡ (if 1 == sd_database.next_handle then some arrived else lookup 1 sd_database.entries))
    × (db'.pending_handles ≡ sd_database.pending_handles)
end_send_object_completes_example =
    end_send_object_completes card card_after new_file 0x3004 0 sd 7 0 sd_database
      sd_database-IsValid new_file_admitted 1

end_send_object_once_example :
    end_send_object card 1 false (end_send_object card_after 1 true sent)
    ≡ end_send_object card_after 1 true sent
end_send_object_once_example = end_send_object_once card_after card 1 true false sent

get_object_list_iff_example :
    let (list, db') = get_object_list card sd 0 0xFFFFFFFF sd_database in
    Among 1 list ↔ (
      ((prepare card sd (root_as_zero 0xFFFFFFFF) sd_database).0 ≡ true)
      × ((e : Entry) × (lookup 1 db'.entries ≡ some e) × IsMatch sd 0 (root_as_zero 0xFFFFFFFF) e))
get_object_list_iff_example =
    get_object_list_iff card 1 sd 0 0xFFFFFFFF 1 sd_database card-IsNarrow
      (omega (arith, sd_database-HasRoom)) sd_database-IsValid

sd_scanned : (scan card sd 0 sd_database).0 ≡ true
unfolding sd_database add_storage_path add_storage_path_with_policy new_database purge
    insert_or_assign erase_if normalize_root same lookup scan scan_target
sd_scanned = refl

scan_once_example :
    scan card_after sd 0 (scan card sd 0 sd_database).1 ≡ (true, (scan card sd 0 sd_database).1)
scan_once_example = scan_once card card_after sd 0 sd_database sd_scanned

sent_found : lookup 1 sent.entries ≡ some (sent_entry new_file 0x3004 0 sd 7 0)
unfolding begin_send_object add_entry emplace sd_database admits add_storage_path
    add_storage_path_with_policy new_database purge insert_or_assign erase_if normalize_root same
    lookup parent_path is_safe_direct_child check_child child_name name_or_refuse is_safe_name
    allowed_bytes starts_with has_path base_name after_last
sent_found = refl

scan_keeps_example :
    SameObject 0 1 (sent_entry new_file 0x3004 0 sd 7 0) (lookup 1 (scan card sd 0 sent).1.entries)
scan_keeps_example = scan_keeps card sd 0 1 (sent_entry new_file 0x3004 0 sd 7 0) sent sent_found
