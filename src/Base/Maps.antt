-- ===== src/Base/Maps.antt =====
-- `std::map` with numeric keys: the pairs in the order of their keys.
use Prim.Native.Nat.{ℕ, suc, ◌≤◌, ◌<◌}
use mathlib.Core.Path.{◌≡◌, refl}
use mathlib.Core.Bool.{Bool, true, false}
use mathlib.Core.Option.{Option, none, some}
use mathlib.Core.List.{List, [], ◌∷◌}
use native.Mathlib.Omega.{arith}
use transferencia_switch.Base.Tests.{ltb, ◌==◌, if◌then◌else◌}

abbrev pub Map {ℓ} : Type ℓ → Type ℓ
Map V = List (ℕ × V)

module _ {ℓ} {V : Type ℓ} where
  -- `find`
  unfoldable pub lookup : ℕ → Map V → Option V
  lookup k [] = none
  lookup k ((j, v) ∷ m) = if k == j then some v else lookup k m

  abbrev pub is_some : Option V → Bool
  is_some none = false
  is_some (some v) = true

  abbrev pub contains : ℕ → Map V → Bool
  contains k m = is_some (lookup k m)

  unfoldable pub insert_or_assign : ℕ → V → Map V → Map V
  insert_or_assign k v [] = (k, v) ∷ []
  insert_or_assign k v ((j, w) ∷ m) =
      if k == j
      then (k, v) ∷ m
      else if ltb k j
      then (k, v) ∷ (j, w) ∷ m
      else (j, w) ∷ insert_or_assign k v m

  -- A key that is present keeps its value.
  unfoldable pub emplace : ℕ → V → Map V → Map V
  unfolding insert_or_assign
  emplace k v m = if contains k m then m else insert_or_assign k v m

  unfoldable pub erase : ℕ → Map V → Map V
  erase k [] = []
  erase k ((j, v) ∷ m) = let rest = erase k m in if k == j then rest else (j, v) ∷ rest

  -- The loop that erases the pairs whose value passes a test.
  unfoldable pub erase_if : (V → Bool) → Map V → Map V
  erase_if p [] = []
  erase_if p ((j, v) ∷ m) = let rest = erase_if p m in if p v then rest else (j, v) ∷ rest

  -- A write through the iterator that `find` returned.
  unfoldable pub adjust : ℕ → (V → V) → Map V → Map V
  adjust k f [] = []
  adjust k f ((j, v) ∷ m) = if k == j then (j, f v) ∷ m else (j, v) ∷ adjust k f m

  pub lookup-insert_or_assign :
      (j k : ℕ) (v : V) (m : Map V)
      → lookup j (insert_or_assign k v m) ≡ (if j == k then some v else lookup j m)
  unfolding lookup insert_or_assign
  lookup-insert_or_assign j k v [] = refl
  lookup-insert_or_assign j k v ((i, w) ∷ m) = ground (arith, lookup-insert_or_assign j k v m)

  pub lookup-emplace :
      (j k : ℕ) (v : V) (m : Map V)
      → lookup k m ≡ none
      → lookup j (emplace k v m) ≡ (if j == k then some v else lookup j m)
  unfolding emplace
  lookup-emplace j k v m h = rw h (lookup-insert_or_assign j k v m)

  pub lookup-erase :
      (j k : ℕ) (m : Map V) → lookup j (erase k m) ≡ (if j == k then none else lookup j m)
  unfolding lookup erase
  lookup-erase j k [] = ground arith
  lookup-erase j k ((i, w) ∷ m) = ground (arith, lookup-erase j k m)

  abbrev pub map_option : (V → V) → Option V → Option V
  map_option f none = none
  map_option f (some v) = some (f v)

  pub lookup-adjust :
      (j k : ℕ) (f : V → V) (m : Map V)
      → lookup j (adjust k f m) ≡ (if j == k then map_option f (lookup j m) else lookup j m)
  unfolding lookup adjust
  lookup-adjust j k f [] = ground arith
  lookup-adjust j k f ((i, w) ∷ m) = ground (arith, lookup-adjust j k f m)

  -- The keys rise strictly, from `n` on.
  abbrev pub IsSortedFrom : ℕ → Map V → Type 0
  IsSortedFrom n [] = Unit
  IsSortedFrom n ((k, v) ∷ m) = (n ≤ k) × IsSortedFrom (suc k) m

  abbrev pub IsSorted : Map V → Type 0
  IsSorted m = IsSortedFrom 0 m

  pub IsSortedFrom-mono : {n k : ℕ} (m : Map V) → n ≤ k → IsSortedFrom k m → IsSortedFrom n m
  IsSortedFrom-mono [] h s = tt
  IsSortedFrom-mono ((j, v) ∷ m) h s = (omega arith, s.1)

  pub lookup_below : (n k : ℕ) (m : Map V) → IsSortedFrom n m → k < n → lookup k m ≡ none
  unfolding lookup
  lookup_below n k [] s h = refl
  lookup_below n k ((j, v) ∷ m) s h = ground (arith, lookup_below (suc j) k m s.1)

  pub insert_or_assign-IsSortedFrom :
      (n k : ℕ) (v : V) (m : Map V)
      → n ≤ k
      → IsSortedFrom n m
      → IsSortedFrom n (insert_or_assign k v m)
  unfolding insert_or_assign
  insert_or_assign-IsSortedFrom n k v [] h s = (h, tt)
  insert_or_assign-IsSortedFrom n k v ((j, w) ∷ m) h s =
      ground (arith, insert_or_assign-IsSortedFrom (suc j) k v m)

  pub emplace-IsSorted : (k : ℕ) (v : V) (m : Map V) → IsSorted m → IsSorted (emplace k v m)
  unfolding emplace
  emplace-IsSorted k v m s = ground (arith, insert_or_assign-IsSortedFrom 0 k v m)

  pub erase-IsSortedFrom : (n k : ℕ) (m : Map V) → IsSortedFrom n m → IsSortedFrom n (erase k m)
  unfolding erase
  erase-IsSortedFrom n k [] s = tt
  erase-IsSortedFrom n k ((j, v) ∷ m) s =
      ground (
        arith,
        erase-IsSortedFrom (suc j) k m s.1,
        IsSortedFrom-mono {n = n} {k = suc j} (erase k m),
      )

  pub erase_if-IsSortedFrom :
      (n : ℕ) (p : V → Bool) (m : Map V) → IsSortedFrom n m → IsSortedFrom n (erase_if p m)
  unfolding erase_if
  erase_if-IsSortedFrom n p [] s = tt
  erase_if-IsSortedFrom n p ((j, v) ∷ m) s = ground (
    arith,
    erase_if-IsSortedFrom (suc j) p m s.1,
    IsSortedFrom-mono {n = n} {k = suc j} (erase_if p m),
  )

  pub adjust-IsSortedFrom :
      (n k : ℕ) (f : V → V) (m : Map V) → IsSortedFrom n m → IsSortedFrom n (adjust k f m)
  unfolding adjust
  adjust-IsSortedFrom n k f [] s = tt
  adjust-IsSortedFrom n k f ((j, v) ∷ m) s = ground (arith, adjust-IsSortedFrom (suc j) k f m s.1)

  abbrev pub drop_if : (V → Bool) → Option V → Option V
  drop_if p none = none
  drop_if p (some v) = if p v then none else some v

  pub lookup-erase_if :
      (n j : ℕ) (p : V → Bool) (m : Map V)
      → IsSortedFrom n m
      → lookup j (erase_if p m) ≡ drop_if p (lookup j m)
  unfolding lookup erase_if
  lookup-erase_if n j p [] s = refl
  lookup-erase_if n j p ((i, v) ∷ m) s =
      ground (arith, lookup-erase_if (suc i) j p m s.1, lookup_below (suc i) j m s.1)

  erase-missing : (k : ℕ) (m : Map V) → lookup k m ≡ none → erase k m ≡ m
  unfolding lookup erase
  erase-missing k [] h = refl
  erase-missing k ((j, w) ∷ m) h = ground (arith, erase-missing k m)

  -- Erasing a new key undoes its insertion.
  pub erase-insert_or_assign :
      (k : ℕ) (v : V) (m : Map V) → lookup k m ≡ none → erase k (insert_or_assign k v m) ≡ m
  unfolding lookup erase insert_or_assign
  erase-insert_or_assign k v [] h = ground arith
  erase-insert_or_assign k v ((j, w) ∷ m) h =
      ground (arith, erase-insert_or_assign k v m, erase-missing k m)

  pub erase-emplace : (k : ℕ) (v : V) (m : Map V) → lookup k m ≡ none → erase k (emplace k v m) ≡ m
  unfolding emplace
  erase-emplace k v m h = rw h (erase-insert_or_assign k v m h)

  -- A pair of a sorted map is found by its key.
  pub lookup_head : (k : ℕ) (v : V) (m : Map V) → lookup k ((k, v) ∷ m) ≡ some v
  unfolding lookup
  lookup_head k v m = ground arith

  pub emplace_keeps :
      (h k : ℕ) (v w : V) (m : Map V) → lookup h m ≡ some w → lookup h (emplace k v m) ≡ some w
  unfolding emplace
  emplace_keeps h k v w m e = ground (arith, lookup-insert_or_assign h k v m)
