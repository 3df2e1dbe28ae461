-- ===== src/Installed/Files.antt =====
-- writeFileAtomic of installed_catalog.cpp: a file is written beside its place and then moved there.
pub mod Atomic
use transferencia_switch.Base.{
  ℕ, zero, suc, Bool, true, false, not, ◌||◌, Option, none, some, ◌++◌, length, drop, ◌==◌,
  if◌then◌else◌,
}
use transferencia_switch.Base.Bytes.{Bytes, codes}

-- The calls of POSIX, a parameter: `W` is the state of the file system, a Boolean says whether a
-- call returned 0. `open_new` is open with O_WRONLY, O_CREAT and O_TRUNC, its descriptor `none` where
-- it is negative; so is the number of bytes that `write` answers.
pub record Files (W : Type 0) : Type 0 where
  pub unlink : Bytes → W → Bool × W
  pub open_new : Bytes → W → Option ℕ × W
  pub write : ℕ → Bytes → W → Option ℕ × W
  pub fsync : ℕ → W → Bool × W
  pub close : ℕ → W → Bool × W
  pub rename : Bytes → Bytes → W → Bool × W

abbrev pub temporary : Bytes → Bytes
temporary path = path ++ codes ".partial"

module _ {W : Type 0} (files : Files W) where
  abbrev pub after_write : Bytes → Option ℕ × W → (Bytes → W → Bool × W) → Bool × W
  after_write bytes (none, w) rest = (false, w)
  after_write bytes (some current, w) rest =
      if current == 0 then (false, w) else rest (drop current bytes) w

  -- The loop, at most `n` rounds of it; each writes a byte or is the last.
  unfoldable pub write_rounds : ℕ → ℕ → Bytes → W → Bool × W
  write_rounds zero descriptor bytes w = (true, w)
  write_rounds (suc n) descriptor bytes w =
      let next =
        after_write bytes (files.write descriptor bytes w)
          (λ rest w'. write_rounds n descriptor rest w') in
      if length bytes == 0 then (true, w) else next

  -- `unlink(temporary.c_str()); return false;`
  abbrev pub give_up : Bytes → W → Bool × W
  give_up path w = (false, (files.unlink (temporary path) w).1)

  abbrev pub moved : Bytes → Bool × W → Bool × W
  moved path (true, w) = (true, w)
  moved path (false, w) = give_up path w

  abbrev pub finished : Bytes → ℕ → Bool × W → Bool × W
  finished path descriptor (false, w) = give_up path (files.close descriptor w).1
  finished path descriptor (true, w) =
      let (synced, w1) = files.fsync descriptor w in
      let (closed, w2) = files.close descriptor w1 in
      if not synced || not closed
      then give_up path w2
      else moved path (files.rename (temporary path) path w2)

  abbrev pub opened : Bytes → Bytes → Option ℕ × W → Bool × W
  opened path bytes (none, w) = (false, w)
  opened path bytes (some descriptor, w) =
      finished path descriptor (write_rounds (length bytes) descriptor bytes w)

  -- `writeFileAtomic`
  unfoldable pub write_file_atomic : Bytes → Bytes → W → Bool × W
  write_file_atomic path bytes w =
      opened path bytes (files.open_new (temporary path) (files.unlink (temporary path) w).1)
