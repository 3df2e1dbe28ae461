-- ===== src/Install/Layout/Files.antt =====
-- The file that an entry of a table describes, read from the bytes of the table and from its name:
-- shared by the tables of NSP and XCI packages.
use transferencia_switch.Base.{
  ℕ, zero, suc, ◌+◌, ◌-◌, ◌*◌, ◌^◌, ◌≤◌, ◌<◌, ◌≡◌, refl, sym, ap, ◌∙◌, ◌↔◌, ◌⊎◌, inl, inr, true,
  false, some, [], ◌∷◌, ◌++◌, length, length-append, take, drop, take-append-drop, drop-append_self,
  ◌==◌, arith, Bool-cases, Option-cases, String,
}
use mathlib.Core.Path.{subst}
use transferencia_switch.Base.Bytes.{Bytes, codes, lower, same, same-eq, same_refl}
use transferencia_switch.Base.Words.{u64_at, u32_at}
use transferencia_switch.Install.Names.{ends_with, nibble, id_bytes, content_id_from_name}
use transferencia_switch.Install.Header.{Entry, RawEntry, c_string, make_entry}

abbrev pub AllNonZero : Bytes → Type 0
AllNonZero [] = Unit
AllNonZero (b ∷ bs) = (0 < b) × AllNonZero bs

-- A text that ends at the first NUL of some bytes, of which `available` may be read.
abbrev pub IsText : ℕ → Bytes → Bytes → Type 0
IsText available bytes text =
    (rest : Bytes) × (bytes ≡ text ++ 0 ∷ rest) × AllNonZero text × (length text < available)

pub c_string-IsText :
    (n : ℕ) (bytes name : Bytes) → c_string n bytes ≡ some name → IsText n bytes name
unfolding c_string
c_string-IsText zero bytes name e = cc
c_string-IsText (suc n) [] name e = cc
c_string-IsText (suc n) (b ∷ bytes) name e = elim (Bool-cases (b == 0)) [
  | inl nul ↦
      let empty : [] ≡ name = ground (arith, e, nul) in
      subst (IsText (suc n) (b ∷ bytes)) empty (bytes, ground (arith, nul), tt, omega arith)
  | inr other ↦ elim (Option-cases (c_string n bytes)) [
    | inl missing ↦ ground (arith, e, other, missing)
    | inr (text, found) ↦
        let (rest, spelled, no_nul, short) = c_string-IsText n bytes text found in
        let longer : b ∷ text ≡ name = ground (arith, e, other, found) in
        subst (IsText (suc n) (b ∷ bytes)) longer
          (rest, ap (◌∷◌ b) spelled, (ground (arith, other), no_nul), omega (arith, short))
  ]
]

-- A name ends in an ending, whatever the case of its letters.
abbrev pub HasEnding : String → Bytes → Type 0
HasEnding ending name = (stem : Bytes) × (lower name ≡ stem ++ codes ending)

pub ends_with_iff :
    (value suffix : Bytes)
    → (ends_with value suffix ≡ true) ↔ ((stem : Bytes) × (value ≡ stem ++ suffix))
unfolding ends_with
ends_with_iff value suffix = (
  (λ e.
      let at = length value - length suffix in
      let tail : drop at value ≡ suffix = same-eq _ _ (ground (arith, e)) in
      (take at value, sym (take-append-drop at value) ∙ ap (◌++◌ (take at value)) tail)),
  λ (stem, spelled).
      let at : length value - length suffix ≡ length stem =
        omega (arith, ap length spelled, length-append stem suffix) in
      let tail : drop (length value - length suffix) value ≡ suffix =
        ap (λ (n : ℕ). drop n value) at
        ∙ ap (drop (length stem)) spelled
        ∙ drop-append_self stem suffix in
      let whole : same (drop (length value - length suffix) value) suffix ≡ true =
        ap (λ (xs : Bytes). same xs suffix) tail ∙ same_refl suffix in
      ground (arith, whole, ap length spelled, length-append stem suffix),
)

-- An entry is the file that a table describes by these numbers, where the data begins at `target` and
-- the names are in `strings`.
pub record IsFile (target data_offset file_size string_offset table_size : ℕ) (strings : Bytes)
    (e : Entry) : Type 0 where
  pub offset_eq : e.offset ≡ target + data_offset
  pub size_eq : e.size ≡ file_size
  pub named : IsText (table_size - string_offset) (drop string_offset strings) e.name
  pub nca_iff : (e.nca ≡ true) ↔ HasEnding ".nca" e.name
  pub cnmt_iff : (e.cnmt ≡ true) ↔ HasEnding ".cnmt.nca" e.name
  pub ticket_iff : (e.ticket ≡ true) ↔ HasEnding ".tik" e.name
  pub certificate_iff : (e.certificate ≡ true) ↔ HasEnding ".cert" e.name

-- An entry is the file at an index of a table: its numbers stand 16 bytes behind the start of the
-- table and `stride` bytes apart, and the names behind the numbers of all files.
abbrev pub IsFileAt : ℕ → ℕ → Bytes → ℕ → Entry → Type 0
IsFileAt stride target bytes index e =
    let at = 16 + index * stride in
    IsFile target (u64_at bytes at) (u64_at bytes (at + 8)) (u32_at bytes (at + 16))
      (u32_at bytes 8) (drop (16 + u32_at bytes 4 * stride) bytes) e

pub make_entry-IsFile :
    (target table_size : ℕ) (strings : Bytes) (raw : RawEntry) (name id : Bytes)
    → c_string (table_size - raw.string_offset) (drop raw.string_offset strings) ≡ some name
    → target + raw.data_offset < 2 ^ 64
    → IsFile target raw.data_offset raw.file_size raw.string_offset table_size strings
        (make_entry target raw name id)
make_entry-IsFile target table_size strings raw name id found room = record {
  offset_eq = omega (arith, room);
  size_eq = refl;
  named = c_string-IsText _ _ name found;
  nca_iff = ends_with_iff (lower name) (codes ".nca");
  cnmt_iff = ends_with_iff (lower name) (codes ".cnmt.nca");
  ticket_iff = ends_with_iff (lower name) (codes ".tik");
  certificate_iff = ends_with_iff (lower name) (codes ".cert");
}

-- A character is a hexadecimal digit of a value.
abbrev pub IsDigit : ℕ → ℕ → Type 0
IsDigit c value =
    ((value < 10) × (c ≡ b'0' + value))
    ⊎ ((10 ≤ value) × (value < 16) × ((c ≡ b'a' + (value - 10)) ⊎ (c ≡ b'A' + (value - 10))))

-- The bytes of an id are spelled, two digits each, at the start of a name.
abbrev pub Spells : Bytes → Bytes → Type 0
Spells [] name = Unit
Spells (b ∷ id) [] = ⊥
Spells (b ∷ id) (high ∷ []) = ⊥
Spells (b ∷ id) (high ∷ low ∷ rest) =
    (h : ℕ) × (l : ℕ) × IsDigit high h × IsDigit low l × (b ≡ h * 16 + l) × Spells id rest

-- The content id of an NCA has 16 bytes, which its name spells.
abbrev pub IsSpelled : Entry → Type 0
IsSpelled e = (e.nca ≡ false) ⊎ ((length e.content_id ≡ 16) × Spells e.content_id e.name)

nibble-IsDigit : (c value : ℕ) → nibble c ≡ some value → IsDigit c value
unfolding nibble
nibble-IsDigit c value e = ground (arith, e)

id_bytes-Spells :
    (n : ℕ) (name id : Bytes) → id_bytes n name ≡ some id → (length id ≡ n) × Spells id name
unfolding id_bytes
id_bytes-Spells zero name id e =
    let empty : [] ≡ id = cc in
    subst (λ (x : Bytes). (length x ≡ 0) × Spells x name) empty (refl, tt)
id_bytes-Spells (suc n) [] id e = cc
id_bytes-Spells (suc n) (high ∷ []) id e = cc
id_bytes-Spells (suc n) (high ∷ low ∷ rest) id e = elim (Option-cases (nibble high)) [
  | inl bad ↦ ground (arith, e, bad)
  | inr (h, is_h) ↦ elim (Option-cases (nibble low)) [
    | inl bad ↦ ground (arith, e, is_h, bad)
    | inr (l, is_l) ↦ elim (Option-cases (id_bytes n rest)) [
      | inl bad ↦ ground (arith, e, is_h, is_l, bad)
      | inr (more, found) ↦
          let (count, spelled) = id_bytes-Spells n rest more found in
          let whole : (h * 16 + l) ∷ more ≡ id = ground (arith, e, is_h, is_l, found) in
          subst (λ (x : Bytes). (length x ≡ suc n) × Spells x (high ∷ low ∷ rest)) whole
            (
              omega (arith, count),
              (h, l, nibble-IsDigit high h is_h, nibble-IsDigit low l is_l, refl, spelled),
            )
    ]
  ]
]

pub make_entry-IsSpelled :
    (target : ℕ) (raw : RawEntry) (name id : Bytes)
    → (ends_with (lower name) (codes ".nca") ≡ false) ⊎ (content_id_from_name name ≡ some id)
    → IsSpelled (make_entry target raw name id)
unfolding content_id_from_name
make_entry-IsSpelled target raw name id (inl other) = inl other
make_entry-IsSpelled target raw name id (inr found) =
    inr (id_bytes-Spells 16 name id (ground (arith, found)))
