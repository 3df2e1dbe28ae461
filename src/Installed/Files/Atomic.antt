-- ===== src/Installed/Files/Atomic.antt =====
-- A file is replaced whole or not at all.
use transferencia_switch.Base.{
  ℕ, zero, suc, ◌≤◌, ◌≡◌, ◌≢◌, refl, sym, ap, ◌∙◌, ◌⊎◌, inl, inr, Bool, true, false, not, ◌||◌,
  Option, none, some, [], ◌∷◌, ◌++◌, length, length-append, length-drop, take, drop,
  take-append-drop, ◌==◌, arith, if_cases,
}
use mathlib.Core.Path.{subst}
use mathlib.Core.List.{append_assoc, append-nil}
use transferencia_switch.Base.Bytes.{Bytes, codes}
use transferencia_switch.Installed.Files.{
  Files, temporary, after_write, write_rounds, give_up, moved, finished, opened, write_file_atomic,
}

-- What POSIX says of the calls, where `content` is what a path holds and `target` the path that a
-- descriptor was opened for.
pub record FilesLaws {W : Type 0} (files : Files W) (content : Bytes → W → Option Bytes)
    (target : ℕ → W → Bytes) : Type 0 where
  pub unlink_keeps : (p q : Bytes) (w : W) → q ≢ p → content q (files.unlink p w).1 ≡ content q w
  pub open_creates :
      (p : Bytes) (d : ℕ) (w : W)
      → (files.open_new p w).0 ≡ some d
      → (content p (files.open_new p w).1 ≡ some []) × (target d (files.open_new p w).1 ≡ p)
  pub open_keeps : (p q : Bytes) (w : W) → q ≢ p → content q (files.open_new p w).1 ≡ content q w
  pub write_adds :
      (d k : ℕ) (bytes old : Bytes) (w : W)
      → content (target d w) w ≡ some old
      → (files.write d bytes w).0 ≡ some k
      → (k ≤ length bytes)
        × (content (target d w) (files.write d bytes w).1 ≡ some (old ++ take k bytes))
  pub write_target :
      (d : ℕ) (bytes : Bytes) (w : W) → target d (files.write d bytes w).1 ≡ target d w
  pub write_keeps :
      (d : ℕ) (bytes q : Bytes) (w : W)
      → q ≢ target d w
      → content q (files.write d bytes w).1 ≡ content q w
  pub fsync_keeps : (d : ℕ) (q : Bytes) (w : W) → content q (files.fsync d w).1 ≡ content q w
  pub close_keeps : (d : ℕ) (q : Bytes) (w : W) → content q (files.close d w).1 ≡ content q w
  pub rename_moves :
      (p q : Bytes) (w : W)
      → (files.rename p q w).0 ≡ true
      → content q (files.rename p q w).1 ≡ content p w
  pub rename_fails :
      (p q r : Bytes) (w : W)
      → (files.rename p q w).0 ≡ false
      → content r (files.rename p q w).1 ≡ content r w
  pub rename_keeps :
      (p q r : Bytes) (w : W) → r ≢ p → r ≢ q → content r (files.rename p q w).1 ≡ content r w

module _ {W : Type 0} (files : Files W) (content : Bytes → W → Option Bytes)
    (target : ℕ → W → Bytes) (laws : FilesLaws files content target) where
  -- Only the path `p` may have changed.
  abbrev Keeps : Bytes → W → W → Type 0
  Keeps p w v = (q : Bytes) → q ≢ p → content q v ≡ content q w

  -- The loop has written all bytes behind the old ones, or has failed; nothing else has changed.
  abbrev Wrote : Bytes → Bytes → W → Bool × W → Type 0
  Wrote p all w (false, v) = Keeps p w v
  Wrote p all w (true, v) = (content p v ≡ some all) × Keeps p w v

  Keeps-then : (p : Bytes) (w v u : W) → Keeps p w v → Keeps p v u → Keeps p w u
  Keeps-then p w v u first second q apart = second q apart ∙ first q apart

  Wrote-then :
      (p all : Bytes) (w v : W) (r : Bool × W) → Keeps p w v → Wrote p all v r → Wrote p all w r
  Wrote-then p all w v (false, u) first second = Keeps-then p w v u first second
  Wrote-then p all w v (true, u) first (held, second) = (held, Keeps-then p w v u first second)

  all_written :
      (bytes old p : Bytes) (w : W)
      → length bytes ≤ 0
      → content p w ≡ some old
      → Wrote p (old ++ bytes) w (true, w)
  all_written [] old p w none_left holds = (holds ∙ ap some (sym (append-nil old)), λ q apart. refl)
  all_written (b ∷ bytes) old p w none_left holds = absurd (omega (arith, none_left))

  joined : (k : ℕ) (bytes old : Bytes) → (old ++ take k bytes) ++ drop k bytes ≡ old ++ bytes
  joined k bytes old =
      append_assoc old (take k bytes) (drop k bytes) ∙ ap (◌++◌ old) (take-append-drop k bytes)

  round-Wrote :
      (bytes old p : Bytes) (w : W) (r : Option ℕ × W) (rest : Bytes → W → Bool × W)
      → Keeps p w r.1
      → ((k : ℕ) → r.0 ≡ some k → content p r.1 ≡ some (old ++ take k bytes))
      → ((k : ℕ)
          → 1 ≤ k
          → content p r.1 ≡ some (old ++ take k bytes)
          → Wrote p ((old ++ take k bytes) ++ drop k bytes) r.1 (rest (drop k bytes) r.1))
      → Wrote p (old ++ bytes) w (after_write files bytes r rest)
  round-Wrote bytes old p w (none, v) rest keeps adds goes_on = keeps
  round-Wrote bytes old p w (some k, v) rest keeps adds goes_on =
      if_cases (Wrote p (old ++ bytes) w) (k == 0) _ _ (λ _. keeps)
        (λ more. Wrote-then p (old ++ bytes) w v (rest (drop k bytes) v) keeps (
          subst (λ (all : Bytes). Wrote p all v (rest (drop k bytes) v)) (joined k bytes old)
            (goes_on k (ground (arith, more)) (adds k refl))))

  write_rounds-Wrote :
      (n d : ℕ) (bytes old p : Bytes) (w : W)
      → length bytes ≤ n
      → target d w ≡ p
      → content p w ≡ some old
      → Wrote p (old ++ bytes) w (write_rounds files n d bytes w)
  unfolding write_rounds
  write_rounds-Wrote zero d bytes old p w enough at holds = all_written bytes old p w enough holds
  write_rounds-Wrote (suc n) d bytes old p w enough at holds =
      if_cases (Wrote p (old ++ bytes) w) (length bytes == 0) _ _
        (λ e. all_written bytes old p w (ground (arith, e)) holds)
        (λ _.
          round-Wrote bytes old p w (files.write d bytes w)
            (λ rest v. write_rounds files n d rest v)
            (λ q apart. laws.write_keeps d bytes q w (λ e. apart (e ∙ at)))
            (λ k e.
              sym (ap (λ (t : Bytes). content t (files.write d bytes w).1) at)
              ∙ (laws.write_adds d k bytes old w (ap (λ (t : Bytes). content t w) at ∙ holds) e).1)
            (λ k more holds'.
              write_rounds-Wrote n d (drop k bytes) (old ++ take k bytes) p
                (files.write d bytes w).1 (omega (arith, length-drop k bytes, more, enough))
                (laws.write_target d bytes w ∙ at) holds'))

  -- How the file at a path may stand: the new bytes are there, or it is as it was; and no file but
  -- this one and the temporary one has changed.
  abbrev Replaced : Bytes → Bytes → W → Bool × W → Type 0
  Replaced path bytes w (true, v) =
      (content path v ≡ some bytes)
      × ((q : Bytes) → q ≢ temporary path → q ≢ path → content q v ≡ content q w)
  Replaced path bytes w (false, v) = Keeps (temporary path) w v

  give_up-Replaced :
      (path bytes : Bytes) (w v : W)
      → Keeps (temporary path) w v
      → Replaced path bytes w (give_up files path v)
  give_up-Replaced path bytes w v keeps q apart =
      laws.unlink_keeps (temporary path) q v apart ∙ keeps q apart

  moved-Replaced :
      (path bytes : Bytes) (w v : W) (r : Bool × W)
      → Keeps (temporary path) w v
      → files.rename (temporary path) path v ≡ r
      → content (temporary path) v ≡ some bytes
      → Replaced path bytes w (moved files path r)
  moved-Replaced path bytes w v (true, u) keeps e held = (
    ap (λ (r : Bool × W). content path r.1) (sym e)
        ∙ (laws.rename_moves (temporary path) path v (ap (λ (r : Bool × W). r.0) e) ∙ held),
    λ q apart other.
        ap (λ (r : Bool × W). content q r.1) (sym e)
        ∙ (laws.rename_keeps (temporary path) path q v apart other ∙ keeps q apart),
  )
  moved-Replaced path bytes w v (false, u) keeps e held =
      give_up-Replaced path bytes w u (λ q apart.
        ap (λ (r : Bool × W). content q r.1) (sym e)
        ∙ (laws.rename_fails (temporary path) path q v (ap (λ (r : Bool × W). r.0) e)
            ∙ keeps q apart))

  finished-Replaced :
      (path bytes : Bytes) (d : ℕ) (w : W) (r : Bool × W)
      → Wrote (temporary path) bytes w r
      → Replaced path bytes w (finished files path d r)
  finished-Replaced path bytes d w (false, v) keeps =
      give_up-Replaced path bytes w (files.close d v).1
        (λ q apart. laws.close_keeps d q v ∙ keeps q apart)
  finished-Replaced path bytes d w (true, v) (held, keeps) =
      let v1 = (files.fsync d v).1 in
      let v2 = (files.close d v1).1 in
      let same : (q : Bytes) → content q v2 ≡ content q v =
        λ q. laws.close_keeps d q v1 ∙ laws.fsync_keeps d q v in
      let keeps2 : Keeps (temporary path) w v2 = λ q apart. same q ∙ keeps q apart in
      if_cases (Replaced path bytes w) (not (files.fsync d v).0 || not (files.close d v1).0) _ _
        (λ _. give_up-Replaced path bytes w v2 keeps2)
        (λ _.
          moved-Replaced path bytes w v2 (files.rename (temporary path) path v2) keeps2 refl
            (same (temporary path) ∙ held))

  opened-Replaced :
      (path bytes : Bytes) (w v : W) (r : Option ℕ × W)
      → Keeps (temporary path) w v
      → files.open_new (temporary path) v ≡ r
      → Replaced path bytes w (opened files path bytes r)
  opened-Replaced path bytes w v (none, u) keeps e = λ q apart.
      ap (λ (r : Option ℕ × W). content q r.1) (sym e)
      ∙ (laws.open_keeps (temporary path) q v apart ∙ keeps q apart)
  opened-Replaced path bytes w v (some d, u) keeps e =
      let (empty, at) = laws.open_creates (temporary path) d v (ap (λ (r : Option ℕ × W). r.0) e) in
      let moved_on = ap (λ (r : Option ℕ × W). r.1) e in
      finished-Replaced path bytes d w (write_rounds files (length bytes) d bytes u) (
        Wrote-then (temporary path) bytes w u (write_rounds files (length bytes) d bytes u)
          (λ q apart.
            ap (content q) (sym moved_on)
            ∙ (laws.open_keeps (temporary path) q v apart ∙ keeps q apart))
          (write_rounds-Wrote (length bytes) d bytes [] (temporary path) u (omega arith)
            (ap (target d) (sym moved_on) ∙ at)
            (ap (content (temporary path)) (sym moved_on) ∙ empty)))

  apart_from_temporary : (path : Bytes) → path ≢ temporary path
  apart_from_temporary path e = omega (arith, ap length e, length-append path (codes ".partial"))

  -- How a file stands behind writeFileAtomic.
  pub record IsAtomic (path bytes : Bytes) (w : W) (r : Bool × W) : Type 0 where
    pub file :
        ((r.0 ≡ true) × (content path r.1 ≡ some bytes))
        ⊎ ((r.0 ≡ false) × (content path r.1 ≡ content path w))
    pub others : (q : Bytes) → q ≢ temporary path → q ≢ path → content q r.1 ≡ content q w

  atomic :
      (path bytes : Bytes) (w : W) (r : Bool × W)
      → Replaced path bytes w r
      → IsAtomic path bytes w r
  atomic path bytes w (true, v) (held, keeps) = record { file = inl (refl, held); others = keeps }
  atomic path bytes w (false, v) keeps = record {
    file = inr (refl, keeps path (apart_from_temporary path));
    others = λ q apart other. keeps q apart;
  }

  -- Where writeFileAtomic succeeds, the file holds exactly the bytes; where it fails, at any call,
  -- the file is as it was. No other file has changed, but for the temporary one beside it.
  pub write_file_atomic-IsAtomic :
      (path bytes : Bytes) (w : W) → IsAtomic path bytes w (write_file_atomic files path bytes w)
  unfolding write_file_atomic
  write_file_atomic-IsAtomic path bytes w =
      let cleared = (files.unlink (temporary path) w).1 in
      atomic path bytes w (opened files path bytes (files.open_new (temporary path) cleared)) (
        opened-Replaced path bytes w cleared (files.open_new (temporary path) cleared)
          (λ q apart. laws.unlink_keeps (temporary path) q w apart) refl)
