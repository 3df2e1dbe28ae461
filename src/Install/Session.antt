-- ===== src/Install/Session.antt =====
-- A session of the installer: the writes of a package, one after the other (write of
-- sd_install_receiver.cpp), and what they keep true of the sink.
use transferencia_switch.Base.{
  ℕ, zero, suc, String, ◌≡◌, refl, sym, ap, ◌∙◌, ◌⊎◌, inl, inr, Bool, true, false, not, ◌||◌, ◌&&◌,
  Option, none, some, List, length, drop, ◌==◌, arith, if_cases,
}
use mathlib.Core.Path.{subst}
use transferencia_switch.Base.Bytes.{Bytes}
use transferencia_switch.Install.Services.{Services}
use transferencia_switch.Install.Sink.{Sink, PackageType, fail}
use transferencia_switch.Install.Data.{consume_data}
use transferencia_switch.Install.Rollback.{close_place_holder, abort}
use transferencia_switch.Install.Stream.{
  consume_header, receive, is_refused, write_round, write_rounds, write,
}
use transferencia_switch.Install.Stream.Core.{SameCore, consume_header-core}
use transferencia_switch.Install.Stream.Parsed.{consume_data-Same}
use transferencia_switch.Install.Restore.{StorageLaws, Tracks, TracksSink}
use transferencia_switch.Install.Undo.{IsFresh, fresh_tracks}
use transferencia_switch.Install.Undo.Steps.{IsReady, Stopped, consume_data-IsSafe}
use transferencia_switch.Install.Undo.Rollbacks.{left_over, abort_restores}

-- The sinks that a sequence of calls of write leads to.
pub data Session {W : Type 0} (services : Services W) (s : Sink W) : Sink W → Type 0 where
  begun : Session services s s
  wrote :
      (t u : Sink W) (bytes : Bytes) (accepted : Bool)
      → Session services s t
      → write services bytes t ≡ some (accepted, u)
      → Session services s u

module _ {W : Type 0} (services : Services W) (installed : Bytes → W → Bool) (base : Bytes → Bool)
    (laws : StorageLaws services installed) where
  -- What holds between two writes: what is registered is tracked, an entry that has begun was not
  -- there at the start, and none begins before the header is parsed.
  pub record IsLive (s : Sink W) : Type 0 where
    pub tracks : TracksSink services installed base laws s
    pub ready : Stopped services installed base laws s ⊎ IsReady services installed base laws s
    pub idle : s.header_parsed ≡ false → s.entry_started ≡ false

  same_tracks :
      (s t : Sink W)
      → SameCore s t
      → TracksSink services installed base laws s
      → TracksSink services installed base laws t
  same_tracks s t same (tracked, is_open, aborted, finished) = (
    subst
        (λ (c : W × List Bytes × Bool × Bool × Bool × Bool × PackageType).
          Tracks services installed base laws c.1 c.0)
        (sym same) tracked,
    ap (λ (c : W × List Bytes × Bool × Bool × Bool × Bool × PackageType). c.2) same ∙ is_open,
    ap (λ (c : W × List Bytes × Bool × Bool × Bool × Bool × PackageType). c.3) same ∙ aborted,
    ap (λ (c : W × List Bytes × Bool × Bool × Bool × Bool × PackageType). c.4) same ∙ finished,
  )

  header-IsLive :
      (bytes : Bytes) (s : Sink W)
      → s.header_parsed ≡ false
      → IsLive s
      → IsLive (receive (consume_header bytes s).0 (consume_header bytes s).1)
  header-IsLive bytes s unparsed live =
      let same = consume_header-core bytes s in
      let not_started : (consume_header bytes s).1.entry_started ≡ false =
        ap (λ (c : W × List Bytes × Bool × Bool × Bool × Bool × PackageType). c.5) same
        ∙ live.idle unparsed in
      record {
        tracks = same_tracks s (consume_header bytes s).1 same live.tracks;
        ready = inr (λ entry found started. cc (not_started));
        idle = λ _. not_started;
      }

  data-IsLive :
      (bytes : Bytes) (s : Sink W)
      → s.header_parsed ≡ true
      → s.failed ≡ false
      → IsLive s
      → IsLive (consume_data services bytes s).1
  data-IsLive bytes s parsed going live =
      let safe =
        consume_data-IsSafe services installed base laws bytes s live.tracks
          (going_ready live.ready) in
      record {
        tracks = safe.tracks;
        ready = safe.ready;
        idle = λ e. cc (consume_data-Same services bytes s, parsed);
      }
    where
      going_ready :
          Stopped services installed base laws s ⊎ IsReady services installed base laws s
          → IsReady services installed base laws s
      going_ready (inl stopped) = cc
      going_ready (inr ready) = ready

  fail-IsLive : (message : String) (s : Sink W) → IsLive s → IsLive (fail message s).1
  fail-IsLive message s live = record { tracks = live.tracks; ready = inl refl; idle = live.idle }

  receive-IsLive : (n : ℕ) (s : Sink W) → IsLive s → IsLive (receive n s)
  receive-IsLive n s live = record { tracks = live.tracks; ready = live.ready; idle = live.idle }

  -- A round that takes nothing leaves the sink that the data phase has failed to move.
  abbrev Round : Bytes → Sink W → Option (Sink W) → Type 0
  Round bytes s none = IsLive (consume_data services bytes s).1
  Round bytes s (some t) = IsLive t

  write_round-Round :
      (bytes : Bytes) (s : Sink W)
      → s.failed ≡ false
      → IsLive s
      → Round bytes s (write_round services bytes s).1
  unfolding write_round
  write_round-Round bytes s going live =
      if_cases (λ (r : ℕ × Option (Sink W)). Round bytes s r.1) (not s.header_parsed) _ _
        (λ e. header-IsLive bytes s (ground (arith, e)) live)
        λ e.
          if_cases (λ (r : ℕ × Option (Sink W)). Round bytes s r.1)
            ((consume_data services bytes s).0 == 0 && not (consume_data services bytes s).1.failed)
            _ _ (λ _. data-IsLive bytes s (ground (arith, e)) going live)
            (λ _.
              receive-IsLive (consume_data services bytes s).0 (consume_data services bytes s).1
                (data-IsLive bytes s (ground (arith, e)) going live))

  abbrev Written : Option (Bool × Sink W) → Type 0
  Written none = Unit
  Written (some (accepted, s)) = IsLive s

  next-Written :
      (n : ℕ) (bytes : Bytes) (s : Sink W) (r : ℕ × Option (Sink W))
      → Round bytes s r.1
      → ((rest : Bytes) (t : Sink W) → IsLive t → Written (write_rounds services n rest t))
      → Written (elim r.1 [
        | none ↦
            some
              (fail "el analizador del paquete no pudo avanzar" (consume_data services bytes s).1)
        | some t ↦ write_rounds services n (drop r.0 bytes) t
      ])
  next-Written n bytes s (amount, none) live recur =
      fail-IsLive "el analizador del paquete no pudo avanzar" (consume_data services bytes s).1 live
  next-Written n bytes s (amount, some t) live recur = recur (drop amount bytes) t live

  write_rounds-Written :
      (n : ℕ) (bytes : Bytes) (s : Sink W) → IsLive s → Written (write_rounds services n bytes s)
  unfolding write_rounds
  write_rounds-Written zero bytes s live =
      if_cases Written (length bytes == 0 || s.failed) _ _ (λ _. live) (λ _. tt)
  write_rounds-Written (suc n) bytes s live =
      if_cases Written (length bytes == 0 || s.failed) _ _ (λ _. live)
        (λ e.
          next-Written n bytes s (write_round services bytes s)
            (write_round-Round bytes s (ground (arith, e)) live)
            (λ rest t. write_rounds-Written n rest t))

  write-Written : (bytes : Bytes) (s : Sink W) → IsLive s → Written (write services bytes s)
  unfolding write
  write-Written bytes s live =
      if_cases Written (is_refused bytes s) _ _
        (λ _. fail-IsLive "flujo de paquete fuera de limites" s live)
        (λ _. write_rounds-Written (length bytes) bytes s live)

  pub session-IsLive : (s t : Sink W) → IsLive s → Session services s t → IsLive t
  session-IsLive s _ live begun = live
  session-IsLive s _ live (wrote t u bytes accepted session e) =
      subst Written e (write-Written bytes t (session-IsLive s t live session))

pub fresh-IsLive :
    {W : Type 0} (services : Services W) (installed : Bytes → W → Bool) (s : Sink W)
    (laws : StorageLaws services installed)
    → IsFresh s
    → IsLive services installed (λ j. installed j s.world) laws s
fresh-IsLive services installed s laws f = record {
  tracks = fresh_tracks services installed s laws f;
  ready = inr (λ entry found started. cc (f.no_entry));
  idle = λ _. f.no_entry;
}

-- However a package is cut into calls of write, of an NSP or an XCI, and after whichever of them it
-- stops, refused or not, an abort keeps every content that was there when the sink was fresh. Of the
-- contents registered since, it leaves exactly those whose deletions all answered an error, and there
-- is no other content. The services keep the laws of content storage, and may answer any call with an
-- error.
pub abort-Session :
    {W : Type 0} (services : Services W) (installed : Bytes → W → Bool) (s t : Sink W) (id : Bytes)
    → StorageLaws services installed
    → IsFresh s
    → Session services s t
    → installed id (abort services t).world
      ≡ (installed id s.world || left_over services id (close_place_holder services t))
abort-Session services installed s t id laws f session =
    abort_restores services installed (λ j. installed j s.world) laws t id
      (session-IsLive services installed (λ j. installed j s.world) laws s t
        (fresh-IsLive services installed s laws f) session).tracks
