-- ===== src/Remote/Exact/Streams.antt =====
-- The loops as one read and one write of a stream, however the transport cuts the bytes.
use transferencia_switch.Base.{
  false, ℕ, zero, suc, ◌-◌, ◌≤◌, ◌≡◌, refl, sym, ap, ◌∙◌, true, not, ◌||◌, [], ◌∷◌, ◌++◌, length,
  length-append, length-drop, take, drop, take-append-drop, ltb, ◌==◌, arith, if_cases,
}
use mathlib.Core.List.{append_assoc, append-nil}
use transferencia_switch.Base.Bytes.{Bytes}
use transferencia_switch.Domain.Status.{Status, is_ok, ts_ok}
use transferencia_switch.Remote.Transport.{Transport}
use transferencia_switch.Remote.Runs.{Answer, failed, done}
use transferencia_switch.Remote.Exact.{prepend, read_rounds, read_exact, write_rounds, write_exact}

-- A transport over a stream: `input` is what the peer has still to give, `output` what it got. A
-- read that succeeds gives the first bytes of the input, a write that succeeds adds the first bytes
-- of what was asked to the output; a call changes nothing else of the two.
pub record StreamLaws {X : Type 0} (transport : Transport X) (input output : X → Bytes)
    : Type 0 where
  pub read_takes :
      (size : ℕ) (x : X)
      → (transport.read size x).0 ≡ ts_ok
      → length (transport.read size x).1 ≤ size
      → input x ≡ (transport.read size x).1 ++ input (transport.read size x).2
  pub read_keeps : (size : ℕ) (x : X) → output (transport.read size x).2 ≡ output x
  pub write_adds :
      (bytes : Bytes) (x : X)
      → (transport.write bytes x).0 ≡ ts_ok
      → (transport.write bytes x).1 ≤ length bytes
      → output (transport.write bytes x).2 ≡ output x ++ take (transport.write bytes x).1 bytes
  pub write_keeps : (bytes : Bytes) (x : X) → input (transport.write bytes x).2 ≡ input x
  pub connect_keeps :
      (x : X)
      → (input (transport.connect x).1 ≡ input x) × (output (transport.connect x).1 ≡ output x)

is_ok-eq : (status : Status) → is_ok status ≡ true → status ≡ ts_ok
is_ok-eq status e = ground arith

module _ {X : Type 0} (transport : Transport X) (input output : X → Bytes)
    (laws : StreamLaws transport input output) where
  -- What an exact read of `size` bytes from `x` may leave.
  abbrev pub Reads : ℕ → X → Answer Bytes × X → Type 0
  Reads size x (failed status, after) = (is_ok status ≡ false) × (output after ≡ output x)
  Reads size x (done bytes, after) =
      (length bytes ≡ size) × (input x ≡ bytes ++ input after) × (output after ≡ output x)

  prepended :
      (size : ℕ) (x : X) (bytes : Bytes) (between : X) (r : Answer Bytes × X)
      → length bytes ≤ size
      → input x ≡ bytes ++ input between
      → output between ≡ output x
      → Reads (size - length bytes) between r
      → Reads size x (prepend bytes r)
  prepended size x bytes between (failed status, after) le i o (bad, o') = (bad, o' ∙ o)
  prepended size x bytes between (done more, after) le i o (n, i', o') = (
    omega (arith, length-append bytes more, n, le),
    i ∙ ap (λ (b : Bytes). bytes ++ b) i' ∙ sym (append_assoc bytes more (input after)),
    o' ∙ o,
  )

  read_rounds-Reads :
      (n size : ℕ) (x : X) → size ≤ n → Reads size x (read_rounds transport n size x)
  unfolding read_rounds
  read_rounds-Reads zero size x enough = (omega (arith, enough), refl, refl)
  read_rounds-Reads (suc n) size x enough =
      if_cases (Reads size x) (size == 0) _ _ (λ e. (ground (arith, e), refl, refl))
        λ _.
          if_cases (Reads size x) (not (is_ok (transport.read size x).0)) _ _
            (λ bad. (ground (arith, bad), laws.read_keeps size x))
            λ fine.
              if_cases (Reads size x)
                (length (transport.read size x).1 == 0
                  || ltb size (length (transport.read size x).1))
                _ _ (λ _. (refl, laws.read_keeps size x))
                λ short.
                  let le : length (transport.read size x).1 ≤ size = ground (arith, short) in
                  prepended size x (transport.read size x).1 (transport.read size x).2
                    (read_rounds transport n (size - length (transport.read size x).1)
                      (transport.read size x).2)
                    le
                    (laws.read_takes size x
                      (is_ok-eq (transport.read size x).0 (ground (arith, fine))) le)
                    (laws.read_keeps size x)
                    (read_rounds-Reads n (size - length (transport.read size x).1)
                      (transport.read size x).2 (ground (arith, short, enough)))

  -- Over a transport that is a stream, however it cuts its bytes, read_exact answers with exactly
  -- the next `size` bytes of the input, and TS_OK, or with another status; it sends nothing.
  pub read_exact-Reads : (size : ℕ) (x : X) → Reads size x (read_exact transport size x)
  unfolding read_exact
  read_exact-Reads size x = read_rounds-Reads size size x (omega arith)

  -- What an exact write of `bytes` may leave.
  abbrev pub Writes : Bytes → X → Answer (Unit {0}) × X → Type 0
  Writes bytes x (failed status, after) = (is_ok status ≡ false) × (input after ≡ input x)
  Writes bytes x (done _, after) = (output after ≡ output x ++ bytes) × (input after ≡ input x)

  written :
      (k : ℕ) (bytes : Bytes) (x between : X) (r : Answer (Unit {0}) × X)
      → output between ≡ output x ++ take k bytes
      → input between ≡ input x
      → Writes (drop k bytes) between r
      → Writes bytes x r
  written k bytes x between (failed status, after) o i (bad, i') = (bad, i' ∙ i)
  written k bytes x between (done u, after) o i (o', i') = (
    o'
        ∙ ap (λ (b : Bytes). b ++ drop k bytes) o
        ∙ append_assoc (output x) (take k bytes) (drop k bytes)
        ∙ ap (λ (b : Bytes). output x ++ b) (take-append-drop k bytes),
    i' ∙ i,
  )

  no_bytes : (bytes : Bytes) → length bytes ≤ 0 → bytes ≡ []
  no_bytes [] small = refl
  no_bytes (b ∷ bytes) small = absurd (omega (arith, small))

  nothing : (bytes : Bytes) (x : X) → length bytes ≤ 0 → Writes bytes x (done tt, x)
  nothing bytes x small =
      (sym (ap (λ (b : Bytes). output x ++ b) (no_bytes bytes small) ∙ append-nil (output x)), refl)

  write_rounds-Writes :
      (n : ℕ) (bytes : Bytes) (x : X)
      → length bytes ≤ n
      → Writes bytes x (write_rounds transport n bytes x)
  unfolding write_rounds
  write_rounds-Writes zero bytes x enough = nothing bytes x enough
  write_rounds-Writes (suc n) bytes x enough =
      if_cases (Writes bytes x) (length bytes == 0) _ _ (λ e. nothing bytes x (ground (arith, e)))
        λ _.
          if_cases (Writes bytes x) (not (is_ok (transport.write bytes x).0)) _ _
            (λ bad. (ground (arith, bad), laws.write_keeps bytes x))
            λ fine.
              if_cases (Writes bytes x)
                ((transport.write bytes x).1 == 0 || ltb (length bytes) (transport.write bytes x).1)
                _ _ (λ _. (refl, laws.write_keeps bytes x))
                λ short.
                  let k = (transport.write bytes x).1 in
                  let left = length-drop k bytes in
                  written k bytes x (transport.write bytes x).2
                    (write_rounds transport n (drop k bytes) (transport.write bytes x).2)
                    (laws.write_adds bytes x
                      (is_ok-eq (transport.write bytes x).0 (ground (arith, fine)))
                      (ground (arith, short)))
                    (laws.write_keeps bytes x)
                    (write_rounds-Writes n (drop k bytes) (transport.write bytes x).2
                      (ground (arith, left, short, enough)))

  -- Over a transport that is a stream, however it cuts the bytes, write_exact adds exactly its bytes
  -- to the output, and answers TS_OK, or answers with another status; it takes nothing.
  pub write_exact-Writes : (bytes : Bytes) (x : X) → Writes bytes x (write_exact transport bytes x)
  unfolding write_exact
  write_exact-Writes bytes x = write_rounds-Writes (length bytes) bytes x (omega arith)
