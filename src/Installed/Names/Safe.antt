-- ===== src/Installed/Names/Safe.antt =====
-- The directories of applications are safe, and no two applications share one.
use transferencia_switch.Base.{
  ℕ, zero, suc, ◌/◌, ◌%◌, ◌^◌, ◌<◌, ◌≤◌, ◌≡◌, ◌≢◌, refl, sym, ap, ◌∙◌, inl, true, false, ◌&&◌, ◌||◌,
  some, [], ◌∷◌, ◌++◌, length, length-append, length-take, append_same, take, ltb, ◌==◌, arith,
  if_cases,
}
use transferencia_switch.Base.Bytes.{Bytes, codes}
use transferencia_switch.Base.Hex.{hex, hex_digit, length-hex, Fits, hex-same}
use transferencia_switch.Domain.SafePath.{is_safe_direct_child}
use transferencia_switch.Domain.SafePath.Sound.{All, IsNameByte, IsName, is_safe_direct_child_iff}
use transferencia_switch.Installed.Names.{
  root_path, is_forbidden, replace, trim_end, or_application, cut, suffix, sanitize_name,
  directory_path,
}

abbrev Safe : Bytes → Type 0
Safe cs = All IsNameByte cs

append-Safe : (xs ys : Bytes) → Safe xs → Safe ys → Safe (xs ++ ys)
append-Safe [] ys a b = b
append-Safe (x ∷ xs) ys (first, rest) b = (first, append-Safe xs ys rest b)

take-Safe : (n : ℕ) (xs : Bytes) → Safe xs → Safe (take n xs)
take-Safe zero xs a = tt
take-Safe (suc n) [] a = tt
take-Safe (suc n) (x ∷ xs) (first, rest) = (first, take-Safe n xs rest)

replace-Safe : (cs : Bytes) → Safe (replace cs)
unfolding replace is_forbidden
replace-Safe [] = tt
replace-Safe (c ∷ cs) = (
  if_cases IsNameByte (is_forbidden c) b'_' c
      (λ _. (omega arith, omega arith, omega arith, omega arith)) (λ e. allowed e),
  replace-Safe cs,
)
  where
    allowed : is_forbidden c ≡ false → IsNameByte c
    allowed e = ground (arith, e)

trim_end-Safe : (cs : Bytes) → Safe cs → Safe (trim_end cs)
unfolding trim_end
trim_end-Safe [] a = tt
trim_end-Safe (c ∷ cs) (first, rest) =
    if_cases Safe ((c == b' ' || c == b'.') && length (trim_end cs) == 0) _ _ (λ _. tt)
      (λ _. (first, trim_end-Safe cs rest))

hex-Safe : (width n : ℕ) → Safe (hex width n)
unfolding hex
hex-Safe zero n = tt
hex-Safe (suc width) n =
    append-Safe (hex width (n / 16)) (hex_digit (n % 16) ∷ []) (hex-Safe width (n / 16))
      (digit (n % 16) (omega arith), tt)
  where
    digit : (d : ℕ) → d < 16 → IsNameByte (hex_digit d)
    digit d small = ground arith

suffix-Safe : (id : ℕ) → Safe (suffix id)
suffix-Safe id = (
  allowed b' ' (omega arith) (omega arith),
  (
    allowed b'[' (omega arith) (omega arith),
    append-Safe (hex 16 id) (codes "]") (hex-Safe 16 id)
        (allowed b']' (omega arith) (omega arith), tt),
  ),
)
  where
    allowed : (c : ℕ) → 0x20 ≤ c → (c ≢ b'/') × (c ≢ 0x5c) × (c ≢ b':') → IsNameByte c
    allowed c printable (a, b, d) = (printable, a, b, d)

front-Safe : (source : Bytes) → Safe (cut (or_application (trim_end (replace source))))
front-Safe source =
    cut-Safe (or_application (trim_end (replace source)))
      (named (trim_end (replace source)) (trim_end-Safe (replace source) (replace-Safe source)))
  where
    cut-Safe : (name : Bytes) → Safe name → Safe (cut name)
    cut-Safe name a = if_cases Safe (ltb 72 (length name)) _ _ (λ _. take-Safe 72 name a) (λ _. a)

    letters : Safe (codes "Application")
    letters = ground arith

    named : (name : Bytes) → Safe name → Safe (or_application name)
    named name a = if_cases Safe (length name == 0) _ _ (λ _. letters) (λ _. a)

length-suffix : (id : ℕ) → length (suffix id) ≡ 19
length-suffix id = omega (
  arith,
  length-append (codes " [") (hex 16 id ++ codes "]"),
  length-append (hex 16 id) (codes "]"),
  length-hex 16 id,
)

length-name : (source : Bytes) (id : ℕ) → 19 ≤ length (sanitize_name source id)
unfolding sanitize_name
length-name source id = omega (
  arith,
  length-append (cut (or_application (trim_end (replace source)))) (suffix id),
  length-suffix id,
)

sanitize_name-IsName : (source : Bytes) (id : ℕ) → IsName (sanitize_name source id)
unfolding sanitize_name
sanitize_name-IsName source id = (
  λ e. absurd (omega (arith, long, ap length e)),
  λ e. absurd (omega (arith, long, ap length e)),
  λ e. absurd (omega (arith, long, ap length e)),
  append-Safe (cut (or_application (trim_end (replace source)))) (suffix id) (front-Safe source)
      (suffix-Safe id),
)
  where
    long : 19 ≤ length (sanitize_name source id)
    long = length-name source id

-- Whatever the title of an application is, its directory is a safe direct child of the catalog's
-- root, as ts_is_safe_direct_child checks it, and its name has at most 91 bytes.
pub directory_path-safe :
    (title : Bytes) (id : ℕ)
    → (is_safe_direct_child (some root_path) (some root_path) (some (directory_path title id))
        ≡ true)
      × (length (sanitize_name title id) ≤ 91)
unfolding sanitize_name
directory_path-safe title id = (
  (is_safe_direct_child_iff root_path root_path (directory_path title id)).1
      (refl, (sanitize_name title id, sanitize_name-IsName title id, inl (refl, refl))),
  omega (
    arith,
    length-append (front title) (suffix id),
    length-suffix id,
    short (or_application (trim_end (replace title))),
  ),
)
  where
    front : Bytes → Bytes
    front source = cut (or_application (trim_end (replace source)))

    short : (name : Bytes) → length (cut name) ≤ 72
    short name =
        if_cases (λ (n : Bytes). length n ≤ 72) (ltb 72 (length name)) _ _
          (λ _. omega (arith, length-take 72 name)) (λ e. ground (arith, e))

Fits-u64 : (id : ℕ) → id < 2 ^ 64 → Fits 16 id
Fits-u64 id small = omega (arith, small)

suffix_same : (a b : ℕ) → a < 2 ^ 64 → b < 2 ^ 64 → suffix a ≡ suffix b → a ≡ b
suffix_same a b a_small b_small e =
    let (_, tail) =
      append_same (codes " [") (codes " [") (hex 16 a ++ codes "]") (hex 16 b ++ codes "]") refl
        e in
    let (digits, _) =
      append_same (hex 16 a) (hex 16 b) (codes "]") (codes "]")
        (length-hex 16 a ∙ sym (length-hex 16 b)) tail in
    hex-same 16 a b (Fits-u64 a a_small) (Fits-u64 b b_small) digits

ends_same :
    (front other : Bytes) (a b : ℕ)
    → a < 2 ^ 64
    → b < 2 ^ 64
    → front ++ suffix a ≡ other ++ suffix b
    → a ≡ b
ends_same front other a b a_small b_small e =
    let same_length : length front ≡ length other = omega (
      arith,
      length-append front (suffix a),
      length-append other (suffix b),
      length-suffix a,
      length-suffix b,
      ap length e,
    ) in
    suffix_same a b a_small b_small (append_same front other (suffix a) (suffix b) same_length e).1

-- Two applications with different ids below 2 ^ 64 have different directories, whatever their
-- titles are.
pub directory_path-apart :
    (title other : Bytes) (id other_id : ℕ)
    → id < 2 ^ 64
    → other_id < 2 ^ 64
    → id ≢ other_id
    → directory_path title id ≢ directory_path other other_id
unfolding sanitize_name
directory_path-apart title other id other_id small other_small apart e = apart (
    ends_same (cut (or_application (trim_end (replace title))))
      (cut (or_application (trim_end (replace other)))) id other_id small other_small
      (append_same root_path root_path (sanitize_name title id) (sanitize_name other other_id) refl
        e).1)
