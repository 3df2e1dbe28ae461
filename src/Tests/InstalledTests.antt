-- ===== src/Tests/InstalledTests.antt =====
-- Names of applications, and a file system that writes one byte at a time.
use transferencia_switch.Base.{
  zero, suc, ℕ, ◌≤◌, ◌≡◌, ◌≢◌, refl, sym, ap, ◌∙◌, Bool, true, false, Option, none, some, [], ◌∷◌,
  ◌++◌, length, take, if◌then◌else◌, arith, if_cases,
}
use mathlib.Core.List.{append-nil}
use transferencia_switch.Base.Bytes.{Bytes, codes, same, same-eq, same_refl}
use transferencia_switch.Domain.SafePath.{is_safe_direct_child}
use transferencia_switch.Installed.Names.{root_path, sanitize_name, directory_path}
use transferencia_switch.Installed.Names.Safe.{directory_path-safe, directory_path-apart}
use transferencia_switch.Installed.Files.{Files, write_file_atomic}
use transferencia_switch.Installed.Files.Atomic.{FilesLaws, IsAtomic, write_file_atomic-IsAtomic}

directory_path-safe_example :
    (is_safe_direct_child
        (some root_path)
        (some root_path)
        (some (directory_path (codes "A: b/c. ") 255))
      ≡ true)
    × (length (sanitize_name (codes "A: b/c. ") 255) ≤ 91)
directory_path-safe_example = directory_path-safe (codes "A: b/c. ") 255

directory_path-apart_example : directory_path (codes "A") 1 ≢ directory_path (codes "A") 2
directory_path-apart_example =
    directory_path-apart (codes "A") (codes "A") 1 2 (omega arith) (omega arith) (omega arith)

record Disk : Type 0 where
  pub held : Bytes → Option Bytes
  pub open_path : Bytes

abbrev put : Bytes → Option Bytes → (Bytes → Option Bytes) → Bytes → Option Bytes
put p value held q = if same q p then value else held q

abbrev write_one : Bytes → Option Bytes → Disk → Option ℕ × Disk
write_one bytes none disk = (none, disk)
write_one [] (some old) disk = (some 0, disk)
write_one (b ∷ bytes) (some old) disk =
    (some 1, record disk { held = put disk.open_path (some (old ++ b ∷ [])) disk.held })

abbrev rename_held : Bytes → Bytes → Option Bytes → Disk → Bool × Disk
rename_held p q none disk = (false, disk)
rename_held p q (some bytes) disk =
    (true, record disk { held = put q (some bytes) (put p none disk.held) })

abbrev disk_files : Files Disk
disk_files = record {
  unlink = λ p disk. (true, record disk { held = put p none disk.held });
  open_new = λ p disk. (some 3, record { held = put p (some []) disk.held; open_path = p });
  write = λ d bytes disk. write_one bytes (disk.held disk.open_path) disk;
  fsync = λ d disk. (true, disk);
  close = λ d disk. (true, disk);
  rename = λ p q disk. rename_held p q (disk.held p) disk;
}

put_other :
    (p q : Bytes) (value : Option Bytes) (held : Bytes → Option Bytes)
    → q ≢ p
    → put p value held q ≡ held q
put_other p q value held apart =
    if_cases (λ (o : Option Bytes). o ≡ held q) (same q p) _ _ (λ e. absurd (apart (same-eq q p e)))
      (λ _. refl)

put_self :
    (p : Bytes) (value : Option Bytes) (held : Bytes → Option Bytes) → put p value held p ≡ value
put_self p value held = rw (same_refl p)

abbrev some_append : Option Bytes → ℕ → Option Bytes
some_append none b = none
some_append (some bytes) b = some (bytes ++ b ∷ [])

one_adds :
    (bytes old : Bytes) (k : ℕ) (o : Option Bytes) (disk : Disk)
    → disk.held disk.open_path ≡ o
    → o ≡ some old
    → (write_one bytes o disk).0 ≡ some k
    → (k ≤ length bytes)
      × ((write_one bytes o disk).1.held disk.open_path ≡ some (old ++ take k bytes))
one_adds bytes old k none disk e f g = cc
one_adds [] old zero (some o) disk e f g = (omega arith, e ∙ f ∙ ap some (sym (append-nil old)))
one_adds [] old (suc k) (some o) disk e f g = cc
one_adds (b ∷ bytes) old zero (some o) disk e f g = cc
one_adds (b ∷ bytes) old (suc (suc k)) (some o) disk e f g = cc
one_adds (b ∷ bytes) old (suc zero) (some o) disk e f g = (
  omega arith,
  put_self disk.open_path (some (o ++ b ∷ [])) disk.held
      ∙ ap (λ (h : Option Bytes). some_append h b) f,
)

one_keeps :
    (bytes q : Bytes) (o : Option Bytes) (disk : Disk)
    → q ≢ disk.open_path
    → (write_one bytes o disk).1.held q ≡ disk.held q
one_keeps bytes q none disk apart = refl
one_keeps [] q (some o) disk apart = refl
one_keeps (b ∷ bytes) q (some o) disk apart =
    put_other disk.open_path q (some (o ++ b ∷ [])) disk.held apart

one_target :
    (bytes : Bytes) (o : Option Bytes) (disk : Disk)
    → (write_one bytes o disk).1.open_path ≡ disk.open_path
one_target bytes none disk = refl
one_target [] (some o) disk = refl
one_target (b ∷ bytes) (some o) disk = refl

renamed :
    (p q : Bytes) (o : Option Bytes) (disk : Disk)
    → disk.held p ≡ o
    → (rename_held p q o disk).0 ≡ true
    → (rename_held p q o disk).1.held q ≡ disk.held p
renamed p q none disk e f = cc
renamed p q (some o) disk e f = put_self q (some o) (put p none disk.held) ∙ sym e

not_renamed :
    (p q r : Bytes) (o : Option Bytes) (disk : Disk)
    → (rename_held p q o disk).0 ≡ false
    → (rename_held p q o disk).1.held r ≡ disk.held r
not_renamed p q r none disk f = refl
not_renamed p q r (some o) disk f = cc

rename_others :
    (p q r : Bytes) (o : Option Bytes) (disk : Disk)
    → r ≢ p
    → r ≢ q
    → (rename_held p q o disk).1.held r ≡ disk.held r
rename_others p q r none disk a b = refl
rename_others p q r (some o) disk a b =
    put_other q r (some o) (put p none disk.held) b ∙ put_other p r none disk.held a

disk_laws : FilesLaws disk_files (λ p disk. disk.held p) (λ d disk. disk.open_path)
disk_laws = record {
  unlink_keeps = λ p q disk apart. put_other p q none disk.held apart;
  open_creates = λ p d disk opened. (put_self p (some []) disk.held, refl);
  open_keeps = λ p q disk apart. put_other p q (some []) disk.held apart;
  write_adds = λ d k bytes old disk holds wrote.
      one_adds bytes old k (disk.held disk.open_path) disk refl holds wrote;
  write_target = λ d bytes disk. one_target bytes (disk.held disk.open_path) disk;
  write_keeps = λ d bytes q disk apart. one_keeps bytes q (disk.held disk.open_path) disk apart;
  fsync_keeps = λ d q disk. refl;
  close_keeps = λ d q disk. refl;
  rename_moves = λ p q disk done. renamed p q (disk.held p) disk refl done;
  rename_fails = λ p q r disk undone. not_renamed p q r (disk.held p) disk undone;
  rename_keeps = λ p q r disk a b. rename_others p q r (disk.held p) disk a b;
}

abbrev empty_disk : Disk
empty_disk = record { held = λ p. none; open_path = [] }

write_file_atomic-IsAtomic_example :
    IsAtomic disk_files
      (λ p disk. disk.held p)
      (λ d disk. disk.open_path)
      disk_laws
      (codes "/a/info.txt")
      (codes "Name: A")
      empty_disk
      (write_file_atomic disk_files (codes "/a/info.txt") (codes "Name: A") empty_disk)
write_file_atomic-IsAtomic_example =
    write_file_atomic-IsAtomic disk_files (λ p disk. disk.held p) (λ d disk. disk.open_path)
      disk_laws (codes "/a/info.txt") (codes "Name: A") empty_disk
