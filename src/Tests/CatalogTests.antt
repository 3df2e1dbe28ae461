-- ===== src/Tests/CatalogTests.antt =====
-- Catalogs of a few names.
use transferencia_switch.Base.{◌≡◌, refl, ◌⊎◌, none, some, [], ◌∷◌, ◌++◌, arith}
use transferencia_switch.Base.Bytes.{Bytes, codes, same}
use transferencia_switch.Domain.Status.{ts_ok, ts_invalid_argument, ts_invalid_catalog}
use transferencia_switch.Domain.Catalog.{
  FileCatalog, newline, carriage_return, count_files, parse, copy_name,
}
use transferencia_switch.Domain.Catalog.Lines.{lines_from, filled, chomped, stripped, copy_name_lem}
use transferencia_switch.Domain.Catalog.Counted.{AllAllowed, lone_cr, catalog_of, parse_cases}
use transferencia_switch.Domain.Catalog.Missing.{copy_name-missing}

-- Two names, an empty line between them, the first with a `\r` at its end.
abbrev two_names : Bytes
two_names = codes "a.nsp" ++ carriage_return ∷ newline ∷ newline ∷ codes "b.xci"

abbrev two_files : FileCatalog
two_files = record { content = two_names; file_count = 2 }

copy_name_lem_example : copy_name two_files 1 512 ≡ (ts_ok, some (codes "b.xci"))
unfolding lines_from filled stripped chomped
copy_name_lem_example = copy_name_lem two_files 1 512

parse_cases_example :
    (AllAllowed two_names × (parse (some two_names) ≡ (ts_ok, some (catalog_of two_names))))
    ⊎ ((¬ AllAllowed two_names) × (parse (some two_names) ≡ (ts_invalid_catalog, none)))
parse_cases_example = parse_cases two_names

-- One name, and a line that is a `\r` alone.
abbrev cr_line : Bytes
cr_line = codes "a" ++ newline ∷ carriage_return ∷ newline ∷ []

abbrev cr_files : FileCatalog
cr_files = record { content = cr_line; file_count = 2 }

cr_parsed : parse (some cr_line) ≡ (ts_ok, some cr_files)
unfolding parse count_files
cr_parsed = refl

cr_counted : lone_cr (lines_from [] cr_line) ≡ 1
unfolding lone_cr lines_from same
cr_counted = refl

-- Two files are counted, but the second has no name.
copy_name-missing_example : copy_name cr_files 1 512 ≡ (ts_invalid_argument, none)
copy_name-missing_example =
    copy_name-missing cr_line cr_files 512 cr_parsed (omega (arith, cr_counted))
