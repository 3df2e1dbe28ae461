-- ===== src/Installed/Names.antt =====
-- sanitizeName of installed_catalog.cpp: the directory of an application.
pub mod Safe
use transferencia_switch.Base.{
  ℕ, Bool, ◌&&◌, ◌||◌, [], ◌∷◌, ◌++◌, length, take, ltb, ◌==◌, if◌then◌else◌,
}
use transferencia_switch.Base.Bytes.{Bytes, codes}
use transferencia_switch.Base.Hex.{hex}

-- `InstalledCatalog::rootPath`
abbrev pub root_path : Bytes
root_path = codes "sdmc:/switch/transferencia-switch/cache/installed/"

-- The characters that a name must not have.
unfoldable pub is_forbidden : ℕ → Bool
is_forbidden c =
    ltb c 0x20
    || c == b'/'
    || c == 0x5c
    || c == b':'
    || c == b'*'
    || c == b'?'
    || c == 0x22
    || c == b'<'
    || c == b'>'
    || c == b'|'

unfoldable pub replace : Bytes → Bytes
replace [] = []
replace (c ∷ cs) = (if is_forbidden c then b'_' else c) ∷ replace cs

-- The loop that takes spaces and dots off the end.
unfoldable pub trim_end : Bytes → Bytes
trim_end [] = []
trim_end (c ∷ cs) =
    let rest = trim_end cs in if (c == b' ' || c == b'.') && length rest == 0 then [] else c ∷ rest

abbrev pub or_application : Bytes → Bytes
or_application name = if length name == 0 then codes "Application" else name

abbrev pub cut : Bytes → Bytes
cut name = if ltb 72 (length name) then take 72 name else name

-- `" [%016llX]"`
abbrev pub suffix : ℕ → Bytes
suffix application_id = codes " [" ++ (hex 16 application_id ++ codes "]")

-- `sanitizeName`; a title is never null.
unfoldable pub sanitize_name : Bytes → ℕ → Bytes
sanitize_name source application_id =
    cut (or_application (trim_end (replace source))) ++ suffix application_id

-- `directory_path` of generate.
abbrev pub directory_path : Bytes → ℕ → Bytes
directory_path title application_id = root_path ++ sanitize_name title application_id
