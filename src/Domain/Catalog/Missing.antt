-- ===== src/Domain/Catalog/Missing.antt =====
-- A catalog with a line that is a `\r` alone counts a file that has no name.
use transferencia_switch.Base.{
  ℕ, zero, suc, ◌-◌, ◌≡◌, ◌≤◌, ◌<◌, refl, sym, ap, ◌∙◌, none, some, List, [], ◌∷◌, length,
  get_elem?, arith, inl, inr, ◌==◌, if_cases,
}
use mathlib.Core.Path.{subst}
use transferencia_switch.Base.Bytes.{Bytes}
use transferencia_switch.Domain.Status.{ts_ok, ts_invalid_argument}
use transferencia_switch.Domain.Catalog.{FileCatalog, NameResult, parse, copy_name}
use transferencia_switch.Domain.Catalog.Lines.{lines_from, names, answer, copy_name_lem}
use transferencia_switch.Domain.Catalog.Counted.{catalog_of, lone_cr, parse_cases}

get_elem?-beyond : (index : ℕ) (xs : List Bytes) → length xs ≤ index → get_elem? xs index ≡ none
get_elem?-beyond index [] beyond = refl
get_elem?-beyond zero (x ∷ xs) beyond = absurd (omega (arith, beyond))
get_elem?-beyond (suc index) (x ∷ xs) beyond = get_elem?-beyond index xs (omega (arith, beyond))

parsed_catalog :
    (content : Bytes) (catalog : FileCatalog)
    → parse (some content) ≡ (ts_ok, some catalog)
    → catalog ≡ catalog_of content
parsed_catalog content catalog e = elim (parse_cases content) [
  | inl (all, p) ↦ cc (e, p)
  | inr (bad, p) ↦ cc (e, p)
]

-- Where a line of a catalog that is accepted is a `\r` alone, the last of the files that it counts
-- has no name: ts_catalog_copy_name refuses its index.
pub copy_name-missing :
    (content : Bytes) (catalog : FileCatalog) (capacity : ℕ)
    → parse (some content) ≡ (ts_ok, some catalog)
    → 0 < lone_cr (lines_from [] content)
    → copy_name catalog (catalog.file_count - 1) capacity ≡ (ts_invalid_argument, none)
copy_name-missing content catalog capacity e some_cr =
    subst
      (λ (c : FileCatalog). copy_name c (c.file_count - 1) capacity ≡ (ts_invalid_argument, none))
      (sym (parsed_catalog content catalog e))
      (copy_name_lem (catalog_of content) ((catalog_of content).file_count - 1) capacity
        ∙ if_cases (λ (r : NameResult). r ≡ (ts_invalid_argument, none)) (capacity == 0) _ _
            (λ _. refl)
            (λ _. ap (answer capacity) (
              get_elem?-beyond ((catalog_of content).file_count - 1) (names content)
                (omega (arith, some_cr)))))
