-- ===== src/Base/Results.antt =====
-- A step that yields a value or stops with a message.
use mathlib.Core.Option.{Option, none, some}
use mathlib.Core.Bool.{Bool, true, false}
use Prim.Native.String.{String}

pub data Result {ℓ} (X : Type ℓ) : Type ℓ where
  stops : String → Result X
  yields : X → Result X

infixl 4 ◌>>=◌ ◌>>◌
abbrev pub ◌>>=◌ {κ ℓ} : {X : Type κ} {Y : Type ℓ} → Result X → (X → Result Y) → Result Y
stops message >>= next = stops message
yields x >>= next = next x

abbrev pub ◌>>◌ {κ} : {Y : Type κ} → Result (Unit {0}) → Result Y → Result Y
stops message >> second = stops message
yields done >> second = second

-- `if (stop) return fail(message);`
abbrev pub fail_if : Bool → String → Result (Unit {0})
fail_if true message = stops message
fail_if false message = yields tt

abbrev pub or_fail {ℓ} : {X : Type ℓ} → Option X → String → Result X
or_fail none message = stops message
or_fail (some x) message = yields x
