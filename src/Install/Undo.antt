-- ===== src/Install/Undo.antt =====
-- What a fresh sink is, and what consumeData and abort do with the contents that it registers: the
-- child modules.
pub mod Steps
pub mod Rollbacks
use transferencia_switch.Base.{◌≡◌, Bool, true, false, [], arith}
use transferencia_switch.Base.Bytes.{Bytes}
use transferencia_switch.Install.Header.{member}
use transferencia_switch.Install.Services.{Services}
use transferencia_switch.Install.Sink.{Sink}
use transferencia_switch.Install.Restore.{StorageLaws, Tracks, TracksSink}

-- A sink between two entries that has registered nothing and recorded no metadata, with content
-- storage open, neither aborted nor finished.
pub record IsFresh {W : Type 0} (s : Sink W) : Type 0 where
  pub nothing_registered : s.newly_registered ≡ []
  pub no_entry : s.entry_started ≡ false
  pub is_open : s.content_storage_open ≡ true
  pub not_aborted : s.aborted ≡ false
  pub not_finished : s.finished ≡ false

-- What a fresh sink has registered, nothing, is tracked from the contents that are there.
pub fresh_tracks :
    {W : Type 0} (services : Services W) (installed : Bytes → W → Bool) (s : Sink W)
    (laws : StorageLaws services installed)
    → IsFresh s
    → TracksSink services installed (λ j. installed j s.world) laws s
unfolding member
fresh_tracks services installed s laws f = (begins, f.is_open, f.not_aborted, f.not_finished)
  where
    begins : Tracks services installed (λ j. installed j s.world) laws s.newly_registered s.world
    begins = record {
      contents = λ j. ground (arith, f.nothing_registered);
      new = λ j e. ground (arith, f.nothing_registered);
    }
