-- ===== src/Domain/Catalog/Counted.antt =====
-- What ts_catalog_parse accepts, and how its count relates to the names that can be copied.
use transferencia_switch.Base.{
  ℕ, ◌+◌, ◌≡◌, refl, ap, Bool, true, false, not, ◌&&◌, ◌||◌, none, some, List, [], ◌∷◌, ◌++◌,
  length, length-append, ◌==◌, if◌then◌else◌, arith, Bool-cases, inl, inr, ◌⊎◌, ◌↔◌, ◌↔◌,
}
use transferencia_switch.Base.Bytes.{Bytes, same}
use transferencia_switch.Domain.Status.{ts_ok, ts_invalid_catalog}
use transferencia_switch.Domain.Catalog.{
  FileCatalog, newline, carriage_return, is_control, count_files, parse,
}
use transferencia_switch.Domain.Catalog.Lines.{lines_from, filled, chomped, stripped, names}

-- The bytes of a catalog: newlines, and what is no control byte.
abbrev pub AllAllowed : Bytes → Type 0
AllAllowed [] = Unit
AllAllowed (c ∷ cs) = ((c ≡ newline) ⊎ (is_control c ≡ false)) × AllAllowed cs

unfoldable pub all_allowed : Bytes → Bool
all_allowed [] = true
all_allowed (c ∷ cs) = (c == newline || not (is_control c)) && all_allowed cs

-- The parser as a test and a count of the lines that hold something.
count_files_lem :
    (line rest : Bytes) (file_count : ℕ)
    → count_files rest (length line) file_count ≡ (
        if all_allowed rest
        then some (file_count + length (filled (lines_from line rest)))
        else none)
unfolding count_files all_allowed lines_from filled
count_files_lem [] [] file_count = ground arith
count_files_lem (b ∷ bs) [] file_count = ground arith
count_files_lem [] (c ∷ rest) file_count =
    ground (arith, count_files_lem [] rest file_count, count_files_lem (c ∷ []) rest file_count)
count_files_lem (b ∷ bs) (c ∷ rest) file_count = ground (
  arith,
  count_files_lem [] rest (file_count + 1),
  count_files_lem (b ∷ (bs ++ c ∷ [])) rest file_count,
  length-append bs (c ∷ []),
)

-- How many lines are a `\r` alone.
unfoldable pub lone_cr : List Bytes → ℕ
lone_cr [] = 0
lone_cr (line ∷ lines) = (if same line (carriage_return ∷ []) then 1 else 0) + lone_cr lines

length-filled :
    (lines : List Bytes) → length (filled lines) ≡ length (filled (stripped lines)) + lone_cr lines
unfolding filled stripped chomped lone_cr same
length-filled [] = omega arith
length-filled ([] ∷ lines) = omega (arith, length-filled lines)
length-filled ((c ∷ []) ∷ lines) = ground (arith, length-filled lines)
length-filled ((c ∷ d ∷ cs) ∷ lines) = ground (arith, length-filled lines)

all_allowed_iff : (content : Bytes) → (all_allowed content ≡ true) ↔ AllAllowed content
unfolding all_allowed
all_allowed_iff [] = ((λ _. tt), λ _. refl)
all_allowed_iff (c ∷ cs) = (
  (λ e. (ground (arith, e), (all_allowed_iff cs).0 (ground (arith, e)))),
  λ all. ground (arith, all.0, (all_allowed_iff cs).1 all.1),
)

-- The catalog of a text.
abbrev pub catalog_of : Bytes → FileCatalog
catalog_of content = record {
  content = content;
  file_count = length (names content) + lone_cr (lines_from [] content);
}

-- ts_catalog_parse accepts a text whose bytes are newlines and no other control bytes than `\r` and
-- tab, and refuses every other text. The number of files that it counts is that of the names that
-- ts_catalog_copy_name knows, and one for each line that is a `\r` alone.
pub parse_cases :
    (content : Bytes)
    → (AllAllowed content × (parse (some content) ≡ (ts_ok, some (catalog_of content))))
      ⊎ ((¬ AllAllowed content) × (parse (some content) ≡ (ts_invalid_catalog, none)))
unfolding parse
parse_cases content = elim (Bool-cases (all_allowed content)) [
  | inl e ↦ inl ((all_allowed_iff content).0 e, parsed e)
  | inr e ↦ inr ((λ all. refused (((all_allowed_iff content).1 all)) e), unparsed e)
]
  where
    refused : all_allowed content ≡ true → all_allowed content ≡ false → ⊥
    refused a b = cc

    parsed : all_allowed content ≡ true → parse (some content) ≡ (ts_ok, some (catalog_of content))
    parsed e =
        rw (count_files_lem [] content 0, e, length-filled (lines_from [] content))
          (ap (λ (n : ℕ). (ts_ok, some (record { content = content; file_count = n })))
            (omega arith))

    unparsed : all_allowed content ≡ false → parse (some content) ≡ (ts_invalid_catalog, none)
    unparsed e = rw (count_files_lem [] content 0, e) refl
