-- ===== src/Domain/Catalog/Lines.antt =====
-- The names of a catalog as its lines.
use transferencia_switch.Base.{
  ℕ, zero, suc, ◌+◌, ◌≡◌, refl, ap, ◌∙◌, Option, none, some, List, [], ◌∷◌, ◌++◌, get_elem?, ◌==◌,
  get_or, length, take, ltb, ◌-◌, if◌then◌else◌, arith, Bool-cases, inl, inr,
}
use transferencia_switch.Base.Bytes.{Bytes}
use transferencia_switch.Domain.Status.{ts_ok, ts_buffer_too_small, ts_invalid_argument}
use transferencia_switch.Domain.Catalog.{
  FileCatalog, newline, carriage_return, strip_cr, NameResult, copy_bytes, at_line, find_name,
  copy_name,
}

-- The lines of a text: it is cut at each newline. `line` is what the first one has already.
unfoldable pub lines_from : Bytes → Bytes → List Bytes
lines_from line [] = line ∷ []
lines_from line (c ∷ rest) =
    let next = lines_from [] rest in
    let more = lines_from (line ++ c ∷ []) rest in if c == newline then line ∷ next else more

-- The lines that hold something.
unfoldable pub filled : List Bytes → List Bytes
filled [] = []
filled ([] ∷ lines) = filled lines
filled ((c ∷ cs) ∷ lines) = (c ∷ cs) ∷ filled lines

-- A line without the `\r` at its end, if it ends in one.
unfoldable pub chomped : Bytes → Bytes
chomped line =
    if get_or line (length line - 1) 0 == carriage_return then take (length line - 1) line else line

strip_cr_lem : (line : Bytes) → strip_cr line ≡ chomped line
unfolding strip_cr chomped
strip_cr_lem [] = refl
strip_cr_lem (c ∷ []) = ground arith
strip_cr_lem (c ∷ d ∷ rest) = ground (arith, strip_cr_lem (d ∷ rest))

unfoldable pub stripped : List Bytes → List Bytes
stripped [] = []
stripped (line ∷ lines) = chomped line ∷ stripped lines

-- The names of a catalog: its lines without a `\r` at the end, less the empty ones.
abbrev pub names : Bytes → List Bytes
names content = filled (stripped (lines_from [] content))

-- The answer for the name at an index of a list of names: there must be room for its NUL.
abbrev pub answer : ℕ → Option Bytes → NameResult
answer capacity none = (ts_invalid_argument, none)
answer capacity (some name) =
    if ltb (length name) capacity then (ts_ok, some name) else (ts_buffer_too_small, none)

copy_bytes-answer :
    (capacity : ℕ) (name : Bytes) → copy_bytes capacity name ≡ answer capacity (some name)
copy_bytes-answer capacity name = ground arith

-- The search from a line on, where `skipped` more names are passed first.
at_line-answer :
    (skipped current capacity : ℕ) (name : Bytes) (lines : List Bytes) (next : ℕ → NameResult)
    → next current ≡ answer capacity (get_elem? (filled lines) skipped)
    → ((k : ℕ)
        → skipped ≡ suc k
        → next (current + 1) ≡ answer capacity (get_elem? (filled lines) k))
    → at_line (current + skipped) capacity current name next
      ≡ answer capacity (get_elem? (filled (name ∷ lines)) skipped)
unfolding filled
at_line-answer skipped current capacity [] lines next same more = same
at_line-answer zero current capacity (c ∷ cs) lines next same more = ground arith
at_line-answer (suc k) current capacity (c ∷ cs) lines next same more = ground (arith, more k refl)

find_name-answer :
    (skipped current capacity : ℕ) (line rest : Bytes)
    → find_name (current + skipped) capacity current line rest
      ≡ answer capacity (get_elem? (filled (stripped (lines_from line rest))) skipped)
unfolding find_name lines_from stripped filled
find_name-answer skipped current capacity line [] = rw (strip_cr_lem line) (
    at_line-answer skipped current capacity (chomped line) [] (λ _. (ts_invalid_argument, none))
      refl (λ k e. refl))
find_name-answer skipped current capacity line (c ∷ rest) = elim (Bool-cases (c == newline)) [
  | inl e ↦
      rw (e, strip_cr_lem line)
        (at_line-answer skipped current capacity (chomped line) (stripped (lines_from [] rest))
          (λ at. find_name (current + skipped) capacity at [] rest)
          (find_name-answer skipped current capacity [] rest)
          (λ k s.
            ap (λ (n : ℕ). find_name n capacity (current + 1) [] rest) (omega (arith, s))
            ∙ find_name-answer k (current + 1) capacity [] rest))
  | inr e ↦ rw e (find_name-answer skipped current capacity (line ++ c ∷ []) rest)
]

-- ts_catalog_copy_name copies the name at the index, of the lines of the catalog without a `\r` at
-- the end and less the empty ones; it refuses an index behind the last name, a name that does not
-- fit with its NUL, and a capacity of zero.
pub copy_name_lem :
    (catalog : FileCatalog) (index capacity : ℕ)
    → copy_name catalog index capacity ≡ (
        if capacity == 0
        then (ts_invalid_argument, none)
        else answer capacity (get_elem? (names catalog.content) index))
unfolding copy_name
copy_name_lem catalog index capacity =
    ap (λ (r : NameResult). if capacity == 0 then (ts_invalid_argument, none) else r)
      (ap (λ (n : ℕ). find_name n capacity 0 [] catalog.content) (omega arith)
        ∙ find_name-answer index 0 capacity [] catalog.content)
