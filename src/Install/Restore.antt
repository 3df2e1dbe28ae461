-- ===== src/Install/Restore.antt =====
-- What an installation has registered, tracked through its steps.
pub mod Writes
pub mod Ends
use transferencia_switch.Base.{
  ℕ, ◌≡◌, refl, ◌∙◌, Bool, true, false, not, ◌&&◌, ◌||◌, List, [], ◌∷◌, ◌++◌, if◌then◌else◌, arith,
  ◌+◌, ◌-◌,
}
use mathlib.Core.List.{reverse, reverse-cons}
use transferencia_switch.Base.Bytes.{Bytes, same}
use transferencia_switch.Install.Header.{Entry, member}
use transferencia_switch.Install.Services.{Services, MetaKey, succeeded}
use transferencia_switch.Install.Sink.{Sink}
use transferencia_switch.Install.Entries.{begin_entry, write_place_holder}

-- What the installer relies on of content storage, whose contents are `installed`: `has` answers
-- whether a content is there, a registration that succeeds adds its content, a deletion that
-- succeeds removes its content, and no other call changes which contents there are.
pub record StorageLaws {W : Type 0} (services : Services W) (installed : Bytes → W → Bool)
    : Type 0 where
  pub has_installed :
      (id : Bytes) (w : W)
      → succeeded (services.content_has id w).0 ≡ true
      → (services.content_has id w).1 ≡ installed id w
  pub delete_place_holder_keeps :
      (id j : Bytes) (w : W) → installed j (services.delete_place_holder id w).1 ≡ installed j w
  pub create_place_holder_keeps :
      (id place : Bytes) (size : ℕ) (j : Bytes) (w : W)
      → installed j (services.create_place_holder id place size w).1 ≡ installed j w
  pub write_place_holder_keeps :
      (id : Bytes) (offset : ℕ) (bytes j : Bytes) (w : W)
      → installed j (services.write_place_holder id offset bytes w).1 ≡ installed j w
  pub flush_place_holder_keeps :
      (j : Bytes) (w : W) → installed j (services.flush_place_holder w).1 ≡ installed j w
  pub register_adds :
      (id place j : Bytes) (w : W)
      → installed j (services.register id place w).1 ≡ (
          if succeeded (services.register id place w).0
          then same j id || installed j w
          else installed j w)
  pub delete_content_removes :
      (id j : Bytes) (w : W)
      → installed j (services.delete_content id w).1
        ≡ (installed j w && not (succeeded (services.delete_content id w).0 && same j id))
  pub open_database_keeps :
      (j : Bytes) (w : W) → installed j (services.open_database w).1 ≡ installed j w
  pub remove_key_keeps :
      (key : MetaKey) (j : Bytes) (w : W)
      → installed j (services.remove_key key w).1 ≡ installed j w
  pub commit_database_keeps :
      (j : Bytes) (w : W) → installed j (services.commit_database w).1 ≡ installed j w
  pub close_database_keeps :
      (j : Bytes) (w : W) → installed j (services.close_database w) ≡ installed j w

pub member-append :
    (j id : Bytes) (ids : List Bytes) → member j (ids ++ id ∷ []) ≡ (member j ids || same j id)
unfolding member
member-append j id [] = ground arith
member-append j id (x ∷ ids) = ground (arith, member-append j id ids)

pub member-reverse : (j : Bytes) (ids : List Bytes) → member j (reverse ids) ≡ member j ids
unfolding member
member-reverse j [] = refl
member-reverse j (x ∷ ids) =
    rw (reverse-cons x ids, member-append j x (reverse ids), member-reverse j ids) (ground arith)

module _ {W : Type 0} (services : Services W) (installed : Bytes → W → Bool) (base : Bytes → Bool)
    (laws : StorageLaws services installed) where
  -- The contents are those at the start and the ones registered since, which were not there.
  pub record Tracks (registered : List Bytes) (w : W) : Type 0 where
    pub contents : (j : Bytes) → installed j w ≡ (base j || member j registered)
    pub new : (j : Bytes) → member j registered ≡ true → base j ≡ false

  -- So for a sink whose content storage is open, and which is neither aborted nor finished.
  abbrev pub TracksSink : Sink W → Type 0
  TracksSink s =
      Tracks s.newly_registered s.world
      × (s.content_storage_open ≡ true)
      × (s.aborted ≡ false)
      × (s.finished ≡ false)

  -- An NCA that is being received was not there at the start.
  abbrev pub IsNew : Entry → Sink W → Type 0
  IsNew entry s = entry.nca ≡ true → s.skip_active_nca ≡ false → base entry.content_id ≡ false

  pub same_contents :
      (registered : List Bytes) (v w : W)
      → ((j : Bytes) → installed j w ≡ installed j v)
      → Tracks registered v
      → Tracks registered w
  same_contents registered v w keeps t = record {
    contents = λ j. keeps j ∙ t.contents j;
    new = t.new;
  }

  opened :
      (entry : Entry) (ids : List Bytes) (w : W)
      → Tracks ids w
      → Tracks ids
          (services.create_place_holder entry.content_id entry.content_id entry.size
            (services.delete_place_holder entry.content_id w).1).1
  opened entry ids w t =
      same_contents ids w _
        (λ j.
          laws.create_place_holder_keeps entry.content_id entry.content_id entry.size j _
          ∙ laws.delete_place_holder_keeps entry.content_id j w)
        t

  pub begin_entry-Tracks :
      (entry : Entry) (s : Sink W) → TracksSink s → TracksSink (begin_entry services entry s).1
  unfolding begin_entry
  begin_entry-Tracks entry s t = ground (arith, t, opened entry s.newly_registered s.world t.0)

  pub begin_entry-IsNew :
      (entry : Entry) (s : Sink W)
      → TracksSink s
      → (begin_entry services entry s).0 ≡ true
      → IsNew entry (begin_entry services entry s).1
  unfolding begin_entry
  begin_entry-IsNew entry s t done =
      ground (arith, t.0.contents entry.content_id, laws.has_installed entry.content_id s.world)

  pub begin_entry-failed :
      (entry : Entry) (s : Sink W)
      → (begin_entry services entry s).0 ≡ false
      → (begin_entry services entry s).1.failed ≡ true
  unfolding begin_entry
  begin_entry-failed entry s stopped = ground arith

  pub begin_entry-keeps :
      (entry : Entry) (s : Sink W)
      → ((begin_entry services entry s).1.entries ≡ s.entries)
        × ((begin_entry services entry s).1.current_entry ≡ s.current_entry)
  unfolding begin_entry
  begin_entry-keeps entry s = ground arith
