-- ===== src/Install/Undo/Rollbacks.antt =====
-- abort takes away what was registered, as far as it can be deleted (rollback and abort).
use transferencia_switch.Base.{
  ◌≡◌, refl, ◌∙◌, Bool, true, false, not, ◌||◌, ◌&&◌, List, [], ◌∷◌, arith,
}
use mathlib.Core.List.{reverse}
use transferencia_switch.Base.Bytes.{Bytes, same}
use transferencia_switch.Install.Header.{member}
use transferencia_switch.Install.Services.{Services, MetaKey, succeeded}
use transferencia_switch.Install.Sink.{Sink}
use transferencia_switch.Install.Rollback.{
  drop_key, drop_keys, delete_contents, close_place_holder, rollback, abort,
}
use transferencia_switch.Install.Restore.{
  StorageLaws, Tracks, TracksSink, same_contents, member-reverse,
}

module _ {W : Type 0} (services : Services W) where
  -- A content is not deleted by a row of deletions that starts in a world: each of them that is of
  -- its id answers an error.
  unfoldable pub undeleted : Bytes → List Bytes → W → Bool
  undeleted j [] w = true
  undeleted j (id ∷ ids) w =
      not (succeeded (services.delete_content id w).0 && same j id)
      && undeleted j ids (services.delete_content id w).1

  -- The contents that a rollback of a sink leaves although they were registered.
  abbrev pub left_over : Bytes → Sink W → Bool
  left_over j s =
      member j s.newly_registered
      && undeleted j (reverse s.newly_registered)
          (drop_keys services (reverse s.metadata_keys) s.world)

module _ {W : Type 0} (services : Services W) (installed : Bytes → W → Bool) (base : Bytes → Bool)
    (laws : StorageLaws services installed) where
  abbrev T : Sink W → Type 0
  T s = TracksSink services installed base laws s

  drop_key-keeps :
      (key : MetaKey) (j : Bytes) (w : W) → installed j (drop_key services key w) ≡ installed j w
  drop_key-keeps key j w = ground (
    arith,
    laws.open_database_keeps j w,
    laws.remove_key_keeps key j (services.open_database w).1,
    laws.commit_database_keeps j (services.remove_key key (services.open_database w).1).1,
    laws.close_database_keeps j (services.remove_key key (services.open_database w).1).1,
    laws.close_database_keeps j
        (services.commit_database (services.remove_key key (services.open_database w).1).1).1,
  )

  drop_keys-keeps :
      (keys : List MetaKey) (j : Bytes) (w : W)
      → installed j (drop_keys services keys w) ≡ installed j w
  unfolding drop_keys
  drop_keys-keeps [] j w = refl
  drop_keys-keeps (key ∷ keys) j w =
      drop_keys-keeps keys j (drop_key services key w) ∙ drop_key-keeps key j w

  delete_contents_lem :
      (ids : List Bytes) (j : Bytes) (w : W)
      → installed j (delete_contents services ids w) ≡ (installed j w && undeleted services j ids w)
  unfolding delete_contents undeleted
  delete_contents_lem [] j w = ground arith
  delete_contents_lem (id ∷ ids) j w = ground (
    arith,
    delete_contents_lem ids j (services.delete_content id w).1,
    laws.delete_content_removes id j w,
  )

  -- What is not among the ids stays.
  undeleted_other :
      (ids : List Bytes) (j : Bytes) (w : W)
      → member j ids ≡ false
      → undeleted services j ids w ≡ true
  unfolding undeleted member
  undeleted_other [] j w e = refl
  undeleted_other (id ∷ ids) j w e =
      ground (arith, undeleted_other ids j (services.delete_content id w).1 (ground (arith, e)), e)

  delete_place_holder-Tracks :
      (id : Bytes) (ids : List Bytes) (w : W)
      → Tracks services installed base laws ids w
      → Tracks services installed base laws ids (services.delete_place_holder id w).1
  delete_place_holder-Tracks id ids w t =
      same_contents services installed base laws ids w _
        (λ j. laws.delete_place_holder_keeps id j w) t

  undone :
      (ids : List Bytes) (keys : List MetaKey) (w : W) (j : Bytes)
      → Tracks services installed base laws ids w
      → installed j (delete_contents services (reverse ids) (drop_keys services (reverse keys) w))
        ≡ (base j
            || member j ids
              && undeleted services j (reverse ids) (drop_keys services (reverse keys) w))
  undone ids keys w j t = ground (
    arith,
    delete_contents_lem (reverse ids) j (drop_keys services (reverse keys) w),
    drop_keys-keeps (reverse keys) j w,
    undeleted_other (reverse ids) j (drop_keys services (reverse keys) w),
    member-reverse j ids,
    t.contents j,
    t.new j,
  )

  -- rollback keeps what was there at the start, and of what was registered it leaves what it could
  -- not delete.
  pub rollback_restores :
      (s : Sink W) (j : Bytes)
      → T s
      → installed j (rollback services s).world ≡ (base j || left_over services j s)
  unfolding rollback
  rollback_restores s j t =
      ground (arith, t.1, undone s.newly_registered s.metadata_keys s.world j t.0)

  pub abort_restores :
      (s : Sink W) (j : Bytes)
      → T s
      → installed j (abort services s).world
        ≡ (base j || left_over services j (close_place_holder services s))
  unfolding abort rollback
  abort_restores s j t = ground (
    arith,
    t.1,
    t.2,
    t.3,
    undone s.newly_registered s.metadata_keys s.world j t.0,
    undone s.newly_registered s.metadata_keys
        (services.delete_place_holder s.active_content_id s.world).1 j
        (delete_place_holder-Tracks s.active_content_id s.newly_registered s.world t.0),
  )
