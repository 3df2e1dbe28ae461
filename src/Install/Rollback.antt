-- ===== src/Install/Rollback.antt =====
-- rollback and abort of sd_install_receiver.cpp.
use transferencia_switch.Base.{Bool, true, false, not, ◌||◌, List, [], ◌∷◌, if◌then◌else◌}
use mathlib.Core.List.{reverse}
use transferencia_switch.Base.Bytes.{Bytes}
use transferencia_switch.Install.Services.{Services, MetaKey, succeeded}
use transferencia_switch.Install.Sink.{Sink, Detail, empty, text}

module _ {W : Type 0} (services : Services W) where
  abbrev commit_if : Bool → W → W
  commit_if true w = (services.commit_database w).1
  commit_if false w = w

  abbrev remove_if : Bool → MetaKey → W → W
  remove_if true key w =
      let (result, removed) = services.remove_key key w in
      services.close_database (commit_if (succeeded result) removed)
  remove_if false key w = w

  abbrev pub drop_key : MetaKey → W → W
  drop_key key w =
      let (result, opened) = services.open_database w in remove_if (succeeded result) key opened

  unfoldable pub drop_keys : List MetaKey → W → W
  drop_keys [] w = w
  drop_keys (key ∷ keys) w = drop_keys keys (drop_key key w)

  unfoldable pub delete_contents : List Bytes → W → W
  delete_contents [] w = w
  delete_contents (id ∷ ids) w = delete_contents ids (services.delete_content id w).1

  -- `rollback`: what was recorded is undone in reverse order.
  unfoldable pub rollback : Sink W → Sink W
  rollback s = if not s.content_storage_open then s else record s {
    metadata_keys = [];
    newly_registered = [];
    world =
        delete_contents (reverse s.newly_registered) (drop_keys (reverse s.metadata_keys) s.world);
  }

  abbrev pub close_place_holder : Sink W → Sink W
  close_place_holder s =
      if s.entry_placeholder_open
      then record s {
        entry_placeholder_open = false;
        world = (services.delete_place_holder s.active_content_id s.world).1;
      }
      else s

  abbrev or_cancelled : Detail → Detail
  or_cancelled empty = text "instalacion cancelada"
  or_cancelled detail = detail

  abbrev cancelled : Sink W → Sink W
  cancelled s = record s { detail = or_cancelled s.detail }

  -- `abort`
  unfoldable pub abort : Sink W → Sink W
  abort s =
      if s.aborted || s.finished
      then s
      else cancelled (rollback (close_place_holder (record s { aborted = true })))
