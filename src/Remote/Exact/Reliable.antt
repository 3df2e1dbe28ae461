-- ===== src/Remote/Exact/Reliable.antt =====
-- A transport that works: the loops succeed while there is something to read.
use transferencia_switch.Base.{
  append_same, ℕ, zero, suc, ◌-◌, ◌≤◌, ◌<◌, ◌≡◌, refl, sym, ap, ◌∙◌, true, not, ◌||◌, ◌++◌, length,
  length-append, length-drop, drop, ltb, ◌==◌, arith, if_cases,
}
use transferencia_switch.Base.Bytes.{Bytes}
use transferencia_switch.Domain.Status.{ts_ok, is_ok}
use transferencia_switch.Remote.Transport.{Transport}
use transferencia_switch.Remote.Runs.{Answer, failed, done, is_done}
use transferencia_switch.Remote.Exact.{prepend, read_rounds, read_exact, write_rounds, write_exact}
use transferencia_switch.Remote.Exact.Streams.{
  StreamLaws, Reads, Writes, read_exact-Reads, write_exact-Writes,
}

-- A read succeeds with a byte at least while the input has one, a write takes a byte at least, and a
-- connection succeeds.
pub record ReliableLaws {X : Type 0} (transport : Transport X) (input : X → Bytes) : Type 0 where
  pub reads :
      (size : ℕ) (x : X)
      → 0 < size
      → 0 < length (input x)
      → ((transport.read size x).0 ≡ ts_ok)
        × (1 ≤ length (transport.read size x).1)
        × (length (transport.read size x).1 ≤ size)
  pub writes :
      (bytes : Bytes) (x : X)
      → 0 < length bytes
      → ((transport.write bytes x).0 ≡ ts_ok)
        × (1 ≤ (transport.write bytes x).1)
        × ((transport.write bytes x).1 ≤ length bytes)
  pub connects : (x : X) → (transport.connect x).0 ≡ ts_ok

module _ {X : Type 0} (transport : Transport X) (input output : X → Bytes)
    (laws : StreamLaws transport input output) (reliable : ReliableLaws transport input) where
  abbrev Done : {A : Type 0} → Answer A × X → Type 0
  Done r = is_done r.0 ≡ true

  prepend-Done : (bytes : Bytes) (r : Answer Bytes × X) → Done r → Done (prepend bytes r)
  prepend-Done bytes (failed status, x) d = d
  prepend-Done bytes (done more, x) d = refl

  read_rounds-Done :
      (n size : ℕ) (x : X)
      → size ≤ n
      → size ≤ length (input x)
      → Done (read_rounds transport n size x)
  unfolding read_rounds
  read_rounds-Done zero size x enough there = refl
  read_rounds-Done (suc n) size x enough there =
      if_cases Done (size == 0) _ _ (λ _. refl)
        λ more.
          let (ok, one, le) =
            reliable.reads size x (ground (arith, more)) (ground (arith, more, there)) in
          if_cases Done (not (is_ok (transport.read size x).0)) _ _
            (λ bad. absurd (ground (arith, bad, ok)))
            λ _.
              if_cases Done
                (length (transport.read size x).1 == 0
                  || ltb size (length (transport.read size x).1))
                _ _ (λ bad. absurd (ground (arith, bad, one, le)))
                λ _.
                  prepend-Done (transport.read size x).1
                    (read_rounds transport n (size - length (transport.read size x).1)
                      (transport.read size x).2)
                    (read_rounds-Done n (size - length (transport.read size x).1)
                      (transport.read size x).2 (omega (arith, one, enough))
                      (omega (
                        arith,
                        one,
                        le,
                        there,
                        ap length (laws.read_takes size x ok le),
                        length-append (transport.read size x).1 (input (transport.read size x).2),
                      )))

  write_rounds-Done :
      (n : ℕ) (bytes : Bytes) (x : X) → length bytes ≤ n → Done (write_rounds transport n bytes x)
  unfolding write_rounds
  write_rounds-Done zero bytes x enough = refl
  write_rounds-Done (suc n) bytes x enough =
      if_cases Done (length bytes == 0) _ _ (λ _. refl)
        λ more.
          let (ok, one, le) = reliable.writes bytes x (ground (arith, more)) in
          if_cases Done (not (is_ok (transport.write bytes x).0)) _ _
            (λ bad. absurd (ground (arith, bad, ok)))
            λ _.
              if_cases Done
                ((transport.write bytes x).1 == 0 || ltb (length bytes) (transport.write bytes x).1)
                _ _ (λ bad. absurd (ground (arith, bad, one, le)))
                λ _.
                  write_rounds-Done n (drop (transport.write bytes x).1 bytes)
                    (transport.write bytes x).2
                    (omega (arith, length-drop (transport.write bytes x).1 bytes, one, enough))

  -- Over a transport that is a stream and works, read_exact returns, with as many of the first bytes
  -- of the input as it is asked for, where there are so many; what follows them is left.
  pub read_exact_served :
      (x : X) (front rest : Bytes)
      → input x ≡ front ++ rest
      → (y : X) × (read_exact transport (length front) x ≡ (done front, y)) × (input y ≡ rest)
  unfolding read_exact
  read_exact_served x front rest e =
      go (read_exact transport (length front) x)
        (read_rounds-Done (length front) (length front) x (omega arith)
          (omega (arith, ap length e, length-append front rest)))
        (read_exact-Reads transport input output laws (length front) x)
    where
      go :
          (r : Answer Bytes × X)
          → Done r
          → Reads transport input output laws (length front) x r
          → (y : X) × (r ≡ (done front, y)) × (input y ≡ rest)
      go (failed status, y) d w = cc
      go (done bytes, y) d (n, i, o) =
          let (same_front, same_rest) = append_same bytes front (input y) rest n (sym i ∙ e) in
          (y, ap (λ (b : Bytes). (done b, y)) same_front, same_rest)

  pub write_exact_served :
      (x : X) (bytes : Bytes)
      → (y : X) × (write_exact transport bytes x ≡ (done tt, y)) × (input y ≡ input x)
  unfolding write_exact
  write_exact_served x bytes =
      go (write_exact transport bytes x) (write_rounds-Done (length bytes) bytes x (omega arith))
        (write_exact-Writes transport input output laws bytes x)
    where
      go :
          (r : Answer (Unit {0}) × X)
          → Done r
          → Writes transport input output laws bytes x r
          → (y : X) × (r ≡ (done tt, y)) × (input y ≡ input x)
      go (failed status, y) d w = cc
      go (done u, y) d (o, i) = (y, refl, i)
