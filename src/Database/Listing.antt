-- ===== src/Database/Listing.antt =====
-- What getObjectList answers and what scanning leaves (read_only_sd_database.cpp).
use transferencia_switch.Base.{
  ℕ, suc, ◌≡◌, refl, ◌⊎◌, ◌↔◌, inl, inr, Bool, true, some, List, [], ◌∷◌, ◌==◌, if◌then◌else◌,
  arith, Bool-cases, if_cases,
}
use transferencia_switch.Base.Maps.{Map, lookup, IsSortedFrom, lookup_below}
use transferencia_switch.Database.Types.{FileSystem, Entry, Database}
use transferencia_switch.Database.Query.{matches, matching, prepare, root_as_zero, get_object_list}
use transferencia_switch.Database.Invariant.{IsValid, HasRoom}
use transferencia_switch.Database.Invariant.Scans.{IsNarrow, list_cost, get_object_list-IsWithin}

abbrev pub Among : ℕ → List ℕ → Type 0
Among h [] = ⊥
Among h (x ∷ xs) = (h ≡ x) ⊎ Among h xs

-- What a client asks for: 0 and 0xFFFFFFFF stand for any storage, 0 for any format.
abbrev pub IsMatch : ℕ → ℕ → ℕ → Entry → Type 0
IsMatch storage format parent e =
    ((storage ≡ 0) ⊎ (storage ≡ 0xFFFFFFFF) ⊎ (e.storage ≡ storage))
    × ((format ≡ 0) ⊎ (e.format ≡ format))
    × (e.parent ≡ parent)

matches_iff :
    (storage format parent : ℕ) (e : Entry)
    → (matches storage format parent e ≡ true) ↔ IsMatch storage format parent e
matches_iff storage format parent e = ground arith

matching-mem :
    (p : Entry → Bool) (n : ℕ) (m : Map Entry) (h : ℕ)
    → IsSortedFrom n m
    → Among h (matching p m)
    → (e : Entry) × (lookup h m ≡ some e) × (p e ≡ true)
unfolding matching lookup
matching-mem p n [] h s a = absurd a
matching-mem p n ((k, first) ∷ m) h s a = elim (Bool-cases (p first)) [
  | inl pass ↦ picked pass (matching-mem p (suc k) m h s.1) (rw pass at a)
  | inr miss ↦ later (matching-mem p (suc k) m h s.1 (rw miss at a))
]
  where
    Found : Type 0
    Found = (e : Entry) × ((if h == k then some first else lookup h m) ≡ some e) × (p e ≡ true)

    later : ((e : Entry) × (lookup h m ≡ some e) × (p e ≡ true)) → Found
    later (e, found, t) = (e, ground (arith, lookup_below (suc k) h m s.1), t)

    picked :
        p first ≡ true
        → (Among h (matching p m) → (e : Entry) × (lookup h m ≡ some e) × (p e ≡ true))
        → (h ≡ k) ⊎ Among h (matching p m)
        → Found
    picked pass ih (inl same_key) = (first, ground arith, pass)
    picked pass ih (inr rest) = later (ih rest)

mem-matching :
    (p : Entry → Bool) (m : Map Entry) (h : ℕ) (e : Entry)
    → lookup h m ≡ some e
    → p e ≡ true
    → Among h (matching p m)
unfolding matching lookup
mem-matching p [] h e found t = cc
mem-matching p ((k, first) ∷ m) h e found t = elim (Bool-cases (h == k)) [
  | inl hit ↦ let passes : p first ≡ true = ground arith in rw passes (inl (ground arith))
  | inr miss ↦
      let rest = mem-matching p m h e (ground arith) t in
      if_cases (Among h) (p first) _ _ (λ _. inr rest) (λ _. rest)
]

-- getObjectList answers exactly with the handles of the objects that match, of those that are
-- known after its scan; where the scan fails, with none.
pub get_object_list_iff :
    (fs : FileSystem) (width : ℕ) (storage format parent h : ℕ) (db : Database)
    → IsNarrow fs width
    → HasRoom (list_cost width db) db
    → IsValid db
    → let (list, db') = get_object_list fs storage format parent db in
      Among h list ↔ (
        ((prepare fs storage (root_as_zero parent) db).0 ≡ true)
        × ((e : Entry) × (lookup h db'.entries ≡ some e)
            × IsMatch storage format (root_as_zero parent) e))
unfolding get_object_list
get_object_list_iff fs width storage format parent h db narrow room v =
    elim (Bool-cases (prepare fs storage (root_as_zero parent) db).0) [
      | inl e ↦ rw e (to, from)
      | inr e ↦ rw e ((λ a. absurd a), λ pair. cc (pair.0))
    ]
  where
    after : Database
    after = (prepare fs storage (root_as_zero parent) db).1

    test : Entry → Bool
    test = matches storage format (root_as_zero parent)

    valid : IsValid after
    valid = (get_object_list-IsWithin fs width narrow storage format parent db room v).0

    to :
        Among h (matching test after.entries)
        → (◌≡◌ {A = Bool} true true)
          × ((e : Entry) × (lookup h after.entries ≡ some e)
              × IsMatch storage format (root_as_zero parent) e)
    to a =
        let (e, found, t) = matching-mem test 0 after.entries h valid.sorted a in
        (refl, (e, found, (matches_iff storage format (root_as_zero parent) e).0 t))

    from :
        (◌≡◌ {A = Bool} true true)
          × ((e : Entry) × (lookup h after.entries ≡ some e)
              × IsMatch storage format (root_as_zero parent) e)
        → Among h (matching test after.entries)
    from (_, (e, found, m)) =
        mem-matching test after.entries h e found
          ((matches_iff storage format (root_as_zero parent) e).1 m)
