-- ===== src/Base/Hex.antt =====
-- Hexadecimal numbers of a fixed width, `%0*llX`.
use Prim.Native.Nat.{ℕ, zero, suc, ◌+◌, ◌-◌, ◌/◌, ◌%◌, ◌<◌}
use mathlib.Core.Path.{◌≡◌, refl}
use mathlib.Core.List.{[], ◌∷◌, ◌++◌}
use native.Mathlib.Omega.{arith}
use transferencia_switch.Base.Bytes.{Bytes}
use transferencia_switch.Base.Tests.{ltb, if◌then◌else◌}
use transferencia_switch.Base.Lists.{length, length-append, append_same}

abbrev pub hex_digit : ℕ → ℕ
hex_digit n = if ltb n 10 then b'0' + n else b'A' + (n - 10)

-- For a number of at most that many digits.
unfoldable pub hex : ℕ → ℕ → Bytes
hex zero n = []
hex (suc width) n = hex width (n / 16) ++ hex_digit (n % 16) ∷ []

pub length-hex : (width n : ℕ) → length (hex width n) ≡ width
unfolding hex
length-hex zero n = refl
length-hex (suc width) n =
    omega (
      arith,
      length-append (hex width (n / 16)) (hex_digit (n % 16) ∷ []),
      length-hex width (n / 16),
    )

-- A number has at most that many digits.
abbrev pub Fits : ℕ → ℕ → Type 0
Fits zero n = n ≡ 0
Fits (suc width) n = Fits width (n / 16)

digit_same : (a b : ℕ) → a < 16 → b < 16 → hex_digit a ≡ hex_digit b → a ≡ b
digit_same a b a_lt b_lt e = ground arith

digit_of : (a b : ℕ) → a / 16 ≡ b / 16 → a % 16 ≡ b % 16 → a ≡ b
digit_of a b high low = omega (arith, high, low)

pub hex-same : (width a b : ℕ) → Fits width a → Fits width b → hex width a ≡ hex width b → a ≡ b
unfolding hex
hex-same zero a b a_fits b_fits e = omega (arith, a_fits, b_fits)
hex-same (suc width) a b a_fits b_fits e =
    let (high, low) =
      append_same (hex width (a / 16)) (hex width (b / 16)) (hex_digit (a % 16) ∷ [])
        (hex_digit (b % 16) ∷ [])
        (omega (arith, length-hex width (a / 16), length-hex width (b / 16))) e in
    digit_of a b (hex-same width (a / 16) (b / 16) a_fits b_fits high)
      (digit_same (a % 16) (b % 16) (omega arith) (omega arith) (cc low))
