-- ===== src/Base/Bytes.antt =====
-- C strings as the lists of their bytes, the final NUL left out.
use Prim.Native.Nat.{ℕ, ◌+◌}
use Prim.Native.String.{String}
use Prim.Native.Char.{code}
use mathlib.Core.Path.{◌≡◌, refl}
use mathlib.Core.Bool.{Bool, true, false, ◌&&◌}
use mathlib.Core.Option.{Option, none, some}
use mathlib.Core.List.{List, [], ◌∷◌, ◌++◌}
use native.Mathlib.Omega.{arith}
use transferencia_switch.Base.Tests.{leb, ◌==◌, if◌then◌else◌}

abbrev pub Bytes : Type 0
Bytes = List ℕ

-- The bytes of a text, which is ASCII wherever this is used.
abbrev pub codes : String → List ℕ
codes String.[] = []
codes (String.◌∷◌ letter text) = code letter ∷ codes text

-- `strcmp(a, b) == 0`, and the equality of two `std::string`s.
unfoldable pub same : List ℕ → List ℕ → Bool
same [] [] = true
same [] (b ∷ bs) = false
same (a ∷ as') [] = false
same (a ∷ as') (b ∷ bs) = a == b && same as' bs

pub same_refl : (xs : List ℕ) → same xs xs ≡ true
unfolding same
same_refl [] = refl
same_refl (x ∷ xs) = ground (arith, same_refl xs)

pub same-eq : (xs ys : List ℕ) → same xs ys ≡ true → xs ≡ ys
unfolding same
same-eq [] [] h = refl
same-eq [] (y ∷ ys) h = cc
same-eq (x ∷ xs) [] h = cc
same-eq (x ∷ xs) (y ∷ ys) h = ground (arith, same-eq xs ys)

-- `strncmp(value, prefix, strlen(prefix)) == 0`
unfoldable pub starts_with : List ℕ → List ℕ → Bool
starts_with value [] = true
starts_with [] (p ∷ ps) = false
starts_with (v ∷ vs) (p ∷ ps) = v == p && starts_with vs ps

pub starts_with-append : (ps rest : List ℕ) → starts_with (ps ++ rest) ps ≡ true
unfolding starts_with
starts_with-append [] rest = refl
starts_with-append (p ∷ ps) rest = ground (arith, starts_with-append ps rest)

pub starts_with-eq :
    (value ps : List ℕ) → starts_with value ps ≡ true → (rest : List ℕ) × (value ≡ ps ++ rest)
unfolding starts_with
starts_with-eq value [] h = (value, refl)
starts_with-eq [] (p ∷ ps) h = cc
starts_with-eq (v ∷ vs) (p ∷ ps) h = ground (arith, starts_with-eq vs ps)

-- `find_last_of`: what follows the last occurrence of a byte, or `none` for `npos`.
unfoldable pub after_last : ℕ → List ℕ → Option (List ℕ)
after_last c [] = none
after_last c (x ∷ xs) =
    let rest = after_last c xs in
    elim rest [ some suffix ↦ some suffix | none ↦ if x == c then some xs else none ]

-- `tolower` on ASCII.
unfoldable pub to_lower : ℕ → ℕ
to_lower c = if leb b'A' c && leb c b'Z' then c + 32 else c

-- `std::transform` by `tolower`.
unfoldable pub lower : List ℕ → List ℕ
unfolding to_lower
lower [] = []
lower (c ∷ cs) = to_lower c ∷ lower cs
