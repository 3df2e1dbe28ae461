-- ===== src/Tests/Shelf.antt =====
-- A content storage that is a list of content ids, with its services, and a package with one file.
use transferencia_switch.Base.{
  ◌≡◌, refl, true, false, not, ◌&&◌, List, [], ◌∷◌, ◌++◌, if◌then◌else◌, arith, Bool-cases,
  if_cases, ap, inl, inr,
}
use transferencia_switch.Base.Bytes.{Bytes, codes, same, same-eq}
use transferencia_switch.Install.Header.{member}
use transferencia_switch.Install.Services.{Services}
use transferencia_switch.Install.Sink.{Sink, nsp, new_sink}
use transferencia_switch.Install.Restore.{StorageLaws}

abbrev pub without : Bytes → List Bytes → List Bytes
without id [] = []
without id (x ∷ xs) = if same x id then without id xs else x ∷ without id xs

-- Every call succeeds; a placeholder leaves no trace.
abbrev pub shelf : Services (List Bytes)
shelf = record {
  content_has = λ id w. (0, member id w);
  content_size = λ id w. (0, 0);
  delete_place_holder = λ id w. (0, w);
  create_place_holder = λ id place size w. (0, w);
  write_place_holder = λ id offset bytes w. (0, w);
  flush_place_holder = λ w. (0, w);
  register = λ id place w. (0, id ∷ w);
  delete_content = λ id w. (0, without id w);
  open_database = λ w. (0, w);
  remove_key = λ key w. (0, w);
  commit_database = λ w. (0, w);
  close_database = λ w. w;
  xts_decrypt = λ key bytes. bytes;
  xts_encrypt = λ key bytes. bytes;
}

eq_step :
    (id j x : Bytes) (xs : List Bytes)
    → (same x id ≡ true → (same j x && not (same j id)) ≡ false)
    → member j (without id xs) ≡ (member j xs && not (same j id))
    → member j (without id (x ∷ xs)) ≡ (member j (x ∷ xs) && not (same j id))
unfolding member
eq_step id j x xs apart ih =
    if_cases (λ (ys : List Bytes). member j ys ≡ (member j (x ∷ xs) && not (same j id))) (same x id)
      _ _ (λ e. ground (arith, apart e, ih))
      (λ e. elim (Bool-cases (same j x)) [
        | inl f ↦ ground (arith, ih, f, ap (λ (y : Bytes). same y id) (same-eq j x f))
        | inr f ↦ ground (arith, ih, f)
      ])

apart_from : (id j x : Bytes) → same x id ≡ true → (same j x && not (same j id)) ≡ false
apart_from id j x e = elim (Bool-cases (same j x)) [
  | inl f ↦ ground (arith, ap (λ (y : Bytes). same j y) (same-eq x id e))
  | inr f ↦ ground arith
]

member-without :
    (id j : Bytes) (w : List Bytes) → member j (without id w) ≡ (member j w && not (same j id))
unfolding member
member-without id j [] = refl
member-without id j (x ∷ xs) = eq_step id j x xs (apart_from id j x) (member-without id j xs)

pub shelf_laws : StorageLaws shelf member
unfolding member
shelf_laws = record {
  has_installed = λ id w _. refl;
  delete_place_holder_keeps = λ id j w. refl;
  create_place_holder_keeps = λ id place size j w. refl;
  write_place_holder_keeps = λ id offset bytes j w. refl;
  flush_place_holder_keeps = λ j w. refl;
  register_adds = λ id place j w. refl;
  delete_content_removes = λ id j w. member-without id j w;
  open_database_keeps = λ j w. refl;
  remove_key_keeps = λ key j w. refl;
  commit_database_keeps = λ j w. refl;
  close_database_keeps = λ j w. refl;
}

-- A shelf that answers every deletion of a content with an error, and keeps the content.
abbrev pub stuck_shelf : Services (List Bytes)
stuck_shelf = record shelf { delete_content = λ id w. (1, w) }

pub stuck_shelf_laws : StorageLaws stuck_shelf member
unfolding member
stuck_shelf_laws = record {
  has_installed = λ id w _. refl;
  delete_place_holder_keeps = λ id j w. refl;
  create_place_holder_keeps = λ id place size j w. refl;
  write_place_holder_keeps = λ id offset bytes j w. refl;
  flush_place_holder_keeps = λ j w. refl;
  register_adds = λ id place j w. refl;
  delete_content_removes = λ id j w. ground arith;
  open_database_keeps = λ j w. refl;
  remove_key_keeps = λ key j w. refl;
  commit_database_keeps = λ j w. refl;
  close_database_keeps = λ j w. refl;
}

abbrev pub id_one : Bytes
id_one = 1 ∷ 2 ∷ 3 ∷ []

abbrev pub id_old : Bytes
id_old = 9 ∷ []

abbrev pub file_name : Bytes
file_name = codes "000102030405060708090a0b0c0d0e0f.nca"

-- One file of four bytes behind a header of 16 + 24 + 37 bytes.
abbrev pub one_file : Bytes
one_file =
    (0x50 ∷ 0x46 ∷ 0x53 ∷ 0x30 ∷ 1 ∷ 0 ∷ 0 ∷ 0 ∷ 37 ∷ 0 ∷ 0 ∷ 0 ∷ 0 ∷ 0 ∷ 0 ∷ 0 ∷ [])
    ++ (0 ∷ 0 ∷ 0 ∷ 0 ∷ 0 ∷ 0 ∷ 0 ∷ 0 ∷ 4 ∷ 0 ∷ 0 ∷ 0 ∷ 0 ∷ 0 ∷ 0 ∷ 0 ∷ 0 ∷ 0 ∷ 0 ∷ 0 ∷ 0 ∷ 0 ∷ 0
        ∷ 0 ∷ [])
    ++ file_name
    ++ 0 ∷ []

abbrev pub new_nsp : Sink (List Bytes)
new_nsp = new_sink (codes "a.nsp") 81 nsp []
