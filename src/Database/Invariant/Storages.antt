-- ===== src/Database/Invariant/Storages.antt =====
-- The operations on storages and the sessions keep the invariant (Database.Storage).
use transferencia_switch.Base.{
  ℕ, ◌+◌, ◌<◌, ◌^◌, ◌≡◌, refl, ◌∙◌, Bool, true, false, List, [], ◌∷◌, ◌++◌, arith, if_cases, length,
}
use transferencia_switch.Base.Maps.{
  Map, lookup, contains, insert_or_assign, erase, lookup-insert_or_assign, lookup-erase,
  lookup-erase_if,
}
use transferencia_switch.Database.Types.{
  Bytes, StorageRoot, VirtualRootSeed, Database, purge, add_entry,
}
use transferencia_switch.Database.Storage.{
  new_database, of_storage, add_storage_path_with_policy, add_virtual_storage, add_action_storage,
  add_virtual_root_entry, is_refused, add_virtual_root_directory, remove_seeds, remove_storage,
  reset_scanned, add_seeds, session_started, session_ended, seed_entry,
}
use transferencia_switch.Database.Invariant.{
  AllSeeds, IsValid, HasRoom, add_entry-IsValid, purge-IsValid,
}

pub AllSeeds-mono :
    {P Q : VirtualRootSeed → Type 0} (seeds : List VirtualRootSeed)
    → ((seed : VirtualRootSeed) → P seed → Q seed)
    → AllSeeds P seeds
    → AllSeeds Q seeds
AllSeeds-mono [] f all = tt
AllSeeds-mono (seed ∷ seeds) f all = (f seed all.0, AllSeeds-mono seeds f all.1)

AllSeeds-append :
    (P : VirtualRootSeed → Type 0) (seeds : List VirtualRootSeed) (seed : VirtualRootSeed)
    → AllSeeds P seeds
    → P seed
    → AllSeeds P (seeds ++ seed ∷ [])
AllSeeds-append P [] seed all p = (p, tt)
AllSeeds-append P (s ∷ seeds) seed all p = (all.0, AllSeeds-append P seeds seed all.1 p)

-- Registering a storage keeps the others registered.
register-IsValid :
    (storage : ℕ) (root : StorageRoot) (db : Database)
    → IsValid db
    → IsValid (record db { storage_roots = insert_or_assign storage root db.storage_roots })
register-IsValid storage root db v = record {
  sorted = v.sorted;
  positive = v.positive;
  bounded = v.bounded;
  housed = λ h e eq. stays e.storage (v.housed h e eq);
  pending_known = v.pending_known;
  seeded = AllSeeds-mono db.virtual_root_seeds (λ seed. stays seed.storage) v.seeded;
}
  where
    stays :
        (s : ℕ)
        → contains s db.storage_roots ≡ true
        → contains s (insert_or_assign storage root db.storage_roots) ≡ true
    stays s known = ground (arith, lookup-insert_or_assign s storage root db.storage_roots)

pub new_database-IsValid : (path : Bytes) (writable : Bool) → IsValid (new_database path writable)
unfolding new_database lookup
new_database-IsValid path writable = record {
  sorted = tt;
  positive = omega arith;
  bounded = λ h e eq. cc;
  housed = λ h e eq. cc;
  pending_known = λ h eq. cc;
  seeded = tt;
}

pub add_storage_path_with_policy-IsValid :
    (path : Bytes) (storage : ℕ) (writable : Bool) (db : Database)
    → IsValid db
    → IsValid (add_storage_path_with_policy path storage writable db)
unfolding add_storage_path_with_policy purge
add_storage_path_with_policy-IsValid path storage writable db v =
    register-IsValid storage _ (purge (of_storage storage) db)
      (purge-IsValid (of_storage storage) db v)

pub add_virtual_storage-IsValid :
    (storage : ℕ) (db : Database) → IsValid db → IsValid (add_virtual_storage storage db)
unfolding add_virtual_storage
add_virtual_storage-IsValid storage db v = register-IsValid storage _ db v

pub add_action_storage-IsValid :
    (storage : ℕ) (path : Bytes) (db : Database)
    → IsValid db
    → IsValid (add_action_storage storage path db)
unfolding add_action_storage
add_action_storage-IsValid storage path db v = register-IsValid storage _ db v

add_seed-IsValid :
    (seed : VirtualRootSeed) (db : Database)
    → contains seed.storage db.storage_roots ≡ true
    → IsValid db
    → IsValid (record db { virtual_root_seeds = db.virtual_root_seeds ++ seed ∷ [] })
add_seed-IsValid seed db known v = record {
  sorted = v.sorted;
  positive = v.positive;
  bounded = v.bounded;
  housed = v.housed;
  pending_known = v.pending_known;
  seeded = AllSeeds-append _ db.virtual_root_seeds seed v.seeded known;
}

is_refused-registered :
    (storage : ℕ) (name path : Bytes) (db : Database)
    → is_refused storage name path db ≡ false
    → contains storage db.storage_roots ≡ true
is_refused-registered storage name path db e = ground arith

pub add_virtual_root_directory-IsValid :
    (storage : ℕ) (name path : Bytes) (db : Database)
    → HasRoom 1 db
    → IsValid db
    → IsValid (add_virtual_root_directory storage name path db)
unfolding add_virtual_root_directory add_virtual_root_entry
add_virtual_root_directory-IsValid storage name path db room v =
    if_cases IsValid (is_refused storage name path db) _ _ (λ _. v)
      λ accepted.
        let known = is_refused-registered storage name path db accepted in
        add_entry-IsValid _ _ room known (add_seed-IsValid _ db known v)

remove_seeds-seeded :
    (storage : ℕ) (roots : Map StorageRoot) (seeds : List VirtualRootSeed)
    → AllSeeds (λ seed. contains seed.storage roots ≡ true) seeds
    → AllSeeds
        (λ seed. contains seed.storage (erase storage roots) ≡ true)
        (remove_seeds storage seeds)
unfolding remove_seeds
remove_seeds-seeded storage roots [] all = tt
remove_seeds-seeded storage roots (seed ∷ seeds) all =
    ground (
      arith,
      remove_seeds-seeded storage roots seeds all.1,
      lookup-erase seed.storage storage roots,
    )

pub remove_storage-IsValid :
    (storage : ℕ) (db : Database) → IsValid db → IsValid (remove_storage storage db)
unfolding remove_storage purge
remove_storage-IsValid storage db v =
    let kept = purge-IsValid (of_storage storage) db v in
    record {
      sorted = kept.sorted;
      positive = v.positive;
      bounded = kept.bounded;
      housed = λ h e eq. ground (
        arith,
        v.housed h e,
        lookup-erase_if 0 h (of_storage storage) db.entries v.sorted,
        lookup-erase e.storage storage db.storage_roots,
      );
      pending_known = kept.pending_known;
      seeded = remove_seeds-seeded storage db.storage_roots db.virtual_root_seeds v.seeded;
    }

pub session_ended-IsValid : (db : Database) → IsValid db → IsValid (session_ended db)
unfolding session_ended
session_ended-IsValid db v = purge-IsValid _ db v

pub contains-reset_scanned :
    (s : ℕ) (roots : Map StorageRoot) → contains s (reset_scanned roots) ≡ contains s roots
unfolding reset_scanned lookup
contains-reset_scanned s [] = refl
contains-reset_scanned s ((k, root) ∷ roots) = ground (arith, contains-reset_scanned s roots)

add_seeds-IsValid :
    (seeds : List VirtualRootSeed) (db : Database)
    → HasRoom (length seeds) db
    → AllSeeds (λ seed. contains seed.storage db.storage_roots ≡ true) seeds
    → IsValid db
    → IsValid (add_seeds seeds db)
unfolding add_seeds add_virtual_root_entry add_entry
add_seeds-IsValid [] db room all v = v
add_seeds-IsValid (seed ∷ seeds) db room all v =
    add_seeds-IsValid seeds (add_entry (seed_entry seed) db) (omega arith) all.1
      (add_entry-IsValid (seed_entry seed) db (omega arith) all.0 v)

pub session_started-IsValid :
    (db : Database)
    → length db.virtual_root_seeds + 1 < 2 ^ 32
    → IsValid db
    → IsValid (session_started db)
unfolding session_started lookup
session_started-IsValid db room v =
    add_seeds-IsValid db.virtual_root_seeds _ (omega arith)
      (AllSeeds-mono db.virtual_root_seeds
        (λ seed known. contains-reset_scanned seed.storage db.storage_roots ∙ known) v.seeded)
      (record {
        sorted = tt;
        positive = omega arith;
        bounded = λ h e eq. cc;
        housed = λ h e eq. cc;
        pending_known = λ h eq. cc;
        seeded =
            AllSeeds-mono db.virtual_root_seeds
              (λ seed known. contains-reset_scanned seed.storage db.storage_roots ∙ known) v.seeded;
      })
