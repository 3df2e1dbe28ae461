-- ===== src/Domain/Catalog.antt =====
-- switch_app/source/domain/catalog.c: a list of file names, one on each line.
pub mod Lines
pub mod Counted
pub mod Missing
use transferencia_switch.Base.{
  ℕ, ◌+◌, Bool, not, ◌&&◌, ◌||◌, Option, none, some, [], ◌∷◌, ◌++◌, length, ltb, leb, ◌==◌,
  if◌then◌else◌,
}
use transferencia_switch.Base.Bytes.{Bytes}
use transferencia_switch.Domain.Status.{
  Status, ts_ok, ts_invalid_argument, ts_invalid_catalog, ts_buffer_too_small,
}

-- `TsFileCatalog`; the `length` of the C struct is that of `content`, its `data`.
pub record FileCatalog : Type 0 where
  pub content : Bytes
  pub file_count : ℕ

abbrev pub newline : ℕ
newline = b'\n'

abbrev pub carriage_return : ℕ
carriage_return = 13

-- A byte that the parser refuses.
abbrev pub is_control : ℕ → Bool
is_control value =
    value == 0 || ltb value 0x20 && not (value == carriage_return) && not (value == 9)

-- A name that has begun counts as a file.
abbrev pub count_name : ℕ → ℕ → ℕ
count_name name_length file_count = if ltb 0 name_length then file_count + 1 else file_count

-- The loop of ts_catalog_parse: the number of names, or `none` for a refused byte.
unfoldable pub count_files : Bytes → ℕ → ℕ → Option ℕ
count_files [] name_length file_count = some (count_name name_length file_count)
count_files (value ∷ rest) name_length file_count =
    let line_end = count_files rest 0 (count_name name_length file_count) in
    let next = count_files rest (name_length + 1) file_count in
    if value == 0
    then none
    else if value == newline
    then line_end
    else if is_control value
    then none
    else next

abbrev counted : Bytes → Option ℕ → Status × Option FileCatalog
counted content none = (ts_invalid_catalog, none)
counted content (some file_count) =
    (ts_ok, some (record { content = content; file_count = file_count }))

-- `ts_catalog_parse`, into a catalog that is not null: `none` leaves it as it was.
unfoldable pub parse : Option Bytes → Status × Option FileCatalog
parse none = (ts_invalid_argument, none)
parse (some content) = counted content (count_files content 0 0)

-- A line without the `\r` at its end.
unfoldable pub strip_cr : Bytes → Bytes
strip_cr [] = []
strip_cr (c ∷ []) = if c == carriage_return then [] else c ∷ []
strip_cr (c ∷ d ∷ rest) = c ∷ strip_cr (d ∷ rest)

-- The status, and the name that is copied, without its NUL.
abbrev pub NameResult : Type 0
NameResult = Status × Option Bytes

abbrev pub copy_bytes : ℕ → Bytes → NameResult
copy_bytes capacity name =
    if leb capacity (length name) then (ts_buffer_too_small, none) else (ts_ok, some name)

-- What happens where a line ends: its name is copied, or the search goes on.
abbrev pub at_line : ℕ → ℕ → ℕ → Bytes → (ℕ → NameResult) → NameResult
at_line index capacity current_index name next =
    if length name == 0
    then next current_index
    else if current_index == index
    then copy_bytes capacity name
    else next (current_index + 1)

-- The loop of ts_catalog_copy_name; `line` is what stands between `start` and `position`.
unfoldable pub find_name : ℕ → ℕ → ℕ → Bytes → Bytes → NameResult
find_name index capacity current_index line [] =
    at_line index capacity current_index (strip_cr line) (λ _. (ts_invalid_argument, none))
find_name index capacity current_index line (c ∷ rest) =
    let ended =
      at_line index capacity current_index (strip_cr line)
        (λ current. find_name index capacity current [] rest) in
    let more = find_name index capacity current_index (line ++ c ∷ []) rest in
    if c == newline then ended else more

-- `ts_catalog_copy_name`, of a catalog and into a buffer that are not null.
unfoldable pub copy_name : FileCatalog → ℕ → ℕ → NameResult
copy_name catalog index capacity =
    if capacity == 0
    then (ts_invalid_argument, none)
    else find_name index capacity 0 [] catalog.content
