-- ===== src/Remote/Client/Exchanges.antt =====
-- What the steps of an exchange send and receive, over a transport that is a stream.
use transferencia_switch.Base.{
  ℕ, ◌≡◌, refl, sym, ap, ◌∙◌, Bool, true, false, [], ◌++◌, length, arith, Bool-cases, inl, inr,
}
use mathlib.Core.List.{append_assoc, append-nil}
use transferencia_switch.Base.Bytes.{Bytes}
use transferencia_switch.Domain.Status.{Status, ts_ok, is_ok}
use transferencia_switch.Remote.Transport.{Transport}
use transferencia_switch.Remote.Runs.{Answer, failed, done, Run, pass, check, stop_if, Leaves}
use transferencia_switch.Remote.Exact.{read_exact, write_exact}
use transferencia_switch.Remote.Exact.Streams
use transferencia_switch.Remote.Exact.Streams.{StreamLaws, read_exact-Reads, write_exact-Writes}

-- `if (status != TS_OK) goto fail;`, and what comes behind it.
pub check-Leaves :
    {X A : Type 0} (P : A → X → Type 0) (status : Status) (x : X) (next : Unit {0} → Run X A)
    → (status ≡ ts_ok → Leaves P (next tt x))
    → Leaves P (pass (check status x) next)
check-Leaves P status x next more = elim (Bool-cases (is_ok status)) [
  | inl e ↦ rw e (more (ground (arith, e)))
  | inr e ↦ rw e tt
]

pub stop_if-Leaves :
    {X A : Type 0} (P : A → X → Type 0) (test : Bool) (status : Status) (x : X)
    (next : Unit {0} → Run X A)
    → (test ≡ false → Leaves P (next tt x))
    → Leaves P (pass (stop_if test status x) next)
stop_if-Leaves P true status x next more = tt
stop_if-Leaves P false status x next more = more refl

module _ {X : Type 0} (transport : Transport X) (input output : X → Bytes)
    (laws : StreamLaws transport input output) where
  -- From `x` to `y`, `got` was received and `sent` was sent.
  abbrev pub Wire : X → Bytes → Bytes → X → Type 0
  Wire x got sent y = (input x ≡ got ++ input y) × (output y ≡ output x ++ sent)

  pub still : (x : X) → Wire x [] [] x
  still x = (refl, sym (append-nil (output x)))

  pub sends :
      (x y : X) (got sent bytes : Bytes)
      → Wire x got sent y
      → Leaves (λ _ z. Wire x got (sent ++ bytes) z) (write_exact transport bytes y)
  sends x y got sent bytes (i, o) =
      go (write_exact transport bytes y) (write_exact-Writes transport input output laws bytes y)
    where
      go :
          (r : Answer (Unit {0}) × X)
          → Streams.Writes transport input output laws bytes y r
          → Leaves (λ _ z. Wire x got (sent ++ bytes) z) r
      go (failed status, z) w = tt
      go (done u, z) (o', i') = (
        i ∙ ap (λ (b : Bytes). got ++ b) (sym i'),
        o' ∙ ap (λ (b : Bytes). b ++ bytes) o ∙ append_assoc (output x) sent bytes,
      )

  pub receives :
      (size : ℕ) (x y : X) (got sent : Bytes)
      → Wire x got sent y
      → Leaves
          (λ bytes z. (length bytes ≡ size) × Wire x (got ++ bytes) sent z)
          (read_exact transport size y)
  receives size x y got sent (i, o) =
      go (read_exact transport size y) (read_exact-Reads transport input output laws size y)
    where
      go :
          (r : Answer Bytes × X)
          → Streams.Reads transport input output laws size y r
          → Leaves (λ bytes z. (length bytes ≡ size) × Wire x (got ++ bytes) sent z) r
      go (failed status, z) w = tt
      go (done bytes, z) (n, i', o') = (
        n,
        (i ∙ ap (λ (b : Bytes). got ++ b) i' ∙ sym (append_assoc got bytes (input z)), o' ∙ o),
      )
