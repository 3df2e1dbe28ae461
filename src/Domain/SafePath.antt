-- ===== src/Domain/SafePath.antt =====
-- switch_app/source/domain/safe_path.c: which path may be created under a storage's root.
-- A `const char*` is `none` for NULL, and else the bytes before its NUL.
pub mod Sound
use transferencia_switch.Base.{
  ℕ, ◌+◌, ◌-◌, Bool, true, false, not, ◌&&◌, ◌||◌, Option, none, some, List, [], ◌∷◌, length,
  get_or, drop, ltb, ◌==◌, if◌then◌else◌,
}
use transferencia_switch.Base.Bytes.{codes, same, starts_with}

-- The loop over the bytes of the name: no control byte, no `/`, `\` or `:`.
unfoldable pub allowed_bytes : List ℕ → Bool
allowed_bytes [] = true
allowed_bytes (c ∷ cs) =
    if ltb c 0x20 || c == b'/' || c == 0x5c || c == b':' then false else allowed_bytes cs

unfoldable pub is_safe_name : List ℕ → Bool
is_safe_name name =
    if same name [] || same name (codes ".") || same name (codes "..")
    then false
    else allowed_bytes name

-- The name that the candidate adds to its parent.
unfoldable pub child_name : List ℕ → List ℕ → List ℕ → Option (List ℕ)
child_name storage_root parent_path candidate_path =
    let root_length = length storage_root in
    let parent_length = length parent_path in
    if parent_length == root_length && same parent_path storage_root
    then some (drop root_length candidate_path)
    else if get_or parent_path (parent_length - 1) 0 == b'/'
        || not (starts_with candidate_path parent_path)
        || not (get_or candidate_path parent_length 0 == b'/')
    then none
    else some (drop (parent_length + 1) candidate_path)

unfoldable pub name_or_refuse : Option (List ℕ) → Bool
name_or_refuse none = false
name_or_refuse (some name) = is_safe_name name

unfoldable pub check_child : List ℕ → List ℕ → List ℕ → Bool
check_child storage_root parent_path candidate_path =
    if length storage_root == 0
      || length parent_path == 0
      || not (get_or storage_root (length storage_root - 1) 0 == b'/')
    then false
    else if not (starts_with parent_path storage_root)
        || not (starts_with candidate_path storage_root)
    then false
    else name_or_refuse (child_name storage_root parent_path candidate_path)

unfoldable pub is_safe_direct_child : Option (List ℕ) → Option (List ℕ) → Option (List ℕ) → Bool
is_safe_direct_child (some storage_root) (some parent_path) (some candidate_path) =
    check_child storage_root parent_path candidate_path
is_safe_direct_child _ _ _ = false
