-- ===== src/Database/Invariant.antt =====
-- What holds of the database between any two calls, and that the helpers of Database.Types keep it.
pub mod Storages
pub mod Sends
pub mod Scans
pub mod Runs
use transferencia_switch.Base.{
  ℕ, ◌+◌, ◌<◌, ◌^◌, ◌≡◌, inl, inr, Bool, true, false, none, some, List, [], ◌∷◌, if◌then◌else◌,
  arith, Option-cases,
}
use transferencia_switch.Base.Maps.{
  Map, lookup, contains, IsSorted, erase, emplace-IsSorted, erase_if-IsSortedFrom, lookup-emplace,
  lookup-erase, lookup-erase_if,
}
use transferencia_switch.Database.Types.{
  Entry, VirtualRootSeed, Database, drop_pending, purge, add_entry,
}

abbrev pub AllSeeds : (VirtualRootSeed → Type 0) → List VirtualRootSeed → Type 0
AllSeeds P [] = Unit
AllSeeds P (seed ∷ seeds) = P seed × AllSeeds P seeds

-- The handles rise and stay in range, every object and every seed belongs to a storage that is
-- registered, and only objects are pending.
pub record IsValid (db : Database) : Type 0 where
  pub sorted : IsSorted db.entries
  pub positive : 0 < db.next_handle
  pub bounded : (h : ℕ) (e : Entry) → lookup h db.entries ≡ some e → (0 < h) × (h < db.next_handle)
  pub housed :
      (h : ℕ) (e : Entry)
      → lookup h db.entries ≡ some e
      → contains e.storage db.storage_roots ≡ true
  pub pending_known : (h : ℕ) → contains h db.pending_handles ≡ true → contains h db.entries ≡ true
  pub seeded :
      AllSeeds (λ seed. contains seed.storage db.storage_roots ≡ true) db.virtual_root_seeds

-- A new handle is free.
pub next_handle_free : (db : Database) → IsValid db → lookup db.next_handle db.entries ≡ none
next_handle_free db v = elim (Option-cases (lookup db.next_handle db.entries)) [
  | inl e ↦ e
  | inr (entry, e) ↦ absurd (omega (arith, v.bounded db.next_handle entry e))
]

-- Room for `n` more handles before the counter wraps.
abbrev pub HasRoom : ℕ → Database → Type 0
HasRoom n db = db.next_handle + n < 2 ^ 32

pub add_entry-IsValid :
    (entry : Entry) (db : Database)
    → HasRoom 1 db
    → contains entry.storage db.storage_roots ≡ true
    → IsValid db
    → IsValid (add_entry entry db)
unfolding add_entry
add_entry-IsValid entry db room known v = record {
  sorted = emplace-IsSorted db.next_handle entry db.entries v.sorted;
  positive = omega (arith, v.positive);
  bounded = λ h e eq. ground (
    arith,
    room,
    v.positive,
    v.bounded h e,
    lookup-emplace h db.next_handle entry db.entries (next_handle_free db v),
  );
  housed = λ h e eq. ground (
    arith,
    known,
    v.housed h e,
    lookup-emplace h db.next_handle entry db.entries (next_handle_free db v),
  );
  pending_known = λ h eq. ground (
    arith,
    v.pending_known h,
    lookup-emplace h db.next_handle entry db.entries (next_handle_free db v),
  );
  seeded = v.seeded;
}

pub drop_pending-sub :
    (p : Entry → Bool) (m : Map Entry) (pending : Map (Unit {0})) (h : ℕ)
    → contains h (drop_pending p m pending) ≡ true
    → contains h pending ≡ true
unfolding drop_pending
drop_pending-sub p [] pending h e = e
drop_pending-sub p ((k, entry) ∷ m) pending h e = ground (
  arith,
  lookup-erase h k pending,
  drop_pending-sub p m (if p entry then erase k pending else pending) h e,
)

pub drop_pending_removes :
    (p : Entry → Bool) (m : Map Entry) (pending : Map (Unit {0})) (h : ℕ) (entry : Entry)
    → lookup h m ≡ some entry
    → p entry ≡ true
    → contains h (drop_pending p m pending) ≡ false
unfolding drop_pending lookup
drop_pending_removes p [] pending h entry e t = cc
drop_pending_removes p ((k, first) ∷ m) pending h entry e t = ground (
  arith,
  lookup-erase h k pending,
  drop_pending-sub p m (if p first then erase k pending else pending) h,
  drop_pending_removes p m (if p first then erase k pending else pending) h entry,
)

pub purge-IsValid : (p : Entry → Bool) (db : Database) → IsValid db → IsValid (purge p db)
unfolding purge
purge-IsValid p db v = record {
  sorted = erase_if-IsSortedFrom 0 p db.entries v.sorted;
  positive = v.positive;
  bounded = λ h e eq. ground (arith, v.bounded h e, lookup-erase_if 0 h p db.entries v.sorted);
  housed = λ h e eq. ground (arith, v.housed h e, lookup-erase_if 0 h p db.entries v.sorted);
  pending_known = λ h eq. elim (Option-cases (lookup h db.entries)) [
    | inl e ↦
        ground (arith, v.pending_known h, drop_pending-sub p db.entries db.pending_handles h eq)
    | inr (entry, e) ↦ ground (
      arith,
      drop_pending_removes p db.entries db.pending_handles h entry e,
      lookup-erase_if 0 h p db.entries v.sorted,
    )
  ];
  seeded = v.seeded;
}
