-- ===== src/Install/Layout.antt =====
-- What a table of files looks like once the installer has accepted it, and how the loops over it
-- build it: shared by the tables of NSP and XCI packages.
pub mod Files
pub mod Nsp
pub mod Xci
use transferencia_switch.Base.{
  ℕ, zero, suc, ◌+◌, ◌-◌, ◌^◌, ◌≤◌, ◌<◌, ◌≡◌, refl, sym, ap, ◌∙◌, ◌⊎◌, inl, inr, Bool, true, false,
  none, some, List, [], ◌∷◌, ◌++◌, length, get_or, length-append, arith,
}
use mathlib.Core.Path.{subst}
use transferencia_switch.Base.Bytes.{Bytes, lower}
use transferencia_switch.Base.Words.{add_u64, u64_at, u32_at, u16_at}
use transferencia_switch.Base.Results.{Result, yields, stops}
use transferencia_switch.Install.Header.{
  Entry, RawEntry, member, Progress, Parsed, start, make_entry, add_id, after_raw,
}

-- The entries lie one behind the other, from `a` to `b`, perhaps with gaps between them.
abbrev pub IsLaid : ℕ → List Entry → ℕ → Type 0
IsLaid a [] b = a ≡ b
IsLaid a (e ∷ es) b = (a ≤ e.offset) × IsLaid (e.offset + e.size) es b

IsLaid-append :
    (a b : ℕ) (es : List Entry) (e : Entry)
    → IsLaid a es b
    → b ≤ e.offset
    → IsLaid a (es ++ e ∷ []) (e.offset + e.size)
IsLaid-append a b [] e laid h = (omega (arith, laid), refl)
IsLaid-append a b (x ∷ es) e laid h = (laid.0, IsLaid-append (x.offset + x.size) b es e laid.1 h)

-- Every entry has what is asked of its index; the first index is given.
abbrev pub AllEntries : (ℕ → Entry → Type 0) → ℕ → List Entry → Type 0
AllEntries P index [] = Unit
AllEntries P index (e ∷ es) = P index e × AllEntries P (index + 1) es

AllEntries-append :
    (P : ℕ → Entry → Type 0) (first last : ℕ) (es : List Entry) (e : Entry)
    → last ≡ first + length es
    → AllEntries P first es
    → P last e
    → AllEntries P first (es ++ e ∷ [])
AllEntries-append P first last [] e at all p = (subst (λ (k : ℕ). P k e) (omega (arith, at)) p, tt)
AllEntries-append P first last (x ∷ es) e at all p =
    (all.0, AllEntries-append P (first + 1) last es e (omega (arith, at)) all.1 p)

-- No name and no content id occurs twice: each is not among the later ones of the list.
abbrev pub IsDistinct : List Bytes → Type 0
IsDistinct [] = Unit
IsDistinct (x ∷ xs) = (member x xs ≡ false) × IsDistinct xs

-- The names of the entries in lower case, the last one first.
abbrev pub lowered : List Entry → List Bytes → List Bytes
lowered [] acc = acc
lowered (e ∷ es) acc = lowered es (lower e.name ∷ acc)

-- The content ids of the NCAs, the last one first.
abbrev pub nca_ids : List Entry → List Bytes → List Bytes
nca_ids [] acc = acc
nca_ids (e ∷ es) acc = nca_ids es (add_id e.nca e.content_id acc)

lowered-append :
    (es : List Entry) (e : Entry) (acc : List Bytes)
    → lowered (es ++ e ∷ []) acc ≡ lower e.name ∷ lowered es acc
lowered-append [] e acc = refl
lowered-append (x ∷ es) e acc = lowered-append es e (lower x.name ∷ acc)

nca_ids-append :
    (es : List Entry) (e : Entry) (acc : List Bytes)
    → nca_ids (es ++ e ∷ []) acc ≡ add_id e.nca e.content_id (nca_ids es acc)
nca_ids-append [] e acc = refl
nca_ids-append (x ∷ es) e acc = nca_ids-append es e (add_id x.nca x.content_id acc)

-- What one round adds to the progress.
pub record Adds (Q : Entry → Type 0) (target : ℕ) (raw : RawEntry) (p q : Progress) : Type 0 where
  pub name : Bytes
  pub id : Bytes
  pub entries_eq : q.entries ≡ p.entries ++ make_entry target raw name id ∷ []
  pub end_eq : q.previous_end ≡ add_u64 raw.data_offset raw.file_size
  pub in_order : p.previous_end ≤ raw.data_offset
  pub no_wrap : raw.data_offset ≤ add_u64 raw.data_offset raw.file_size
  pub names_eq : q.names ≡ lower name ∷ p.names
  pub name_new : member (lower name) p.names ≡ false
  pub ids_eq : q.content_ids ≡ add_id (make_entry target raw name id).nca id p.content_ids
  pub id_new : ((make_entry target raw name id).nca ≡ false) ⊎ (member id p.content_ids ≡ false)
  pub sound : target + raw.data_offset < 2 ^ 64 → Q (make_entry target raw name id)

-- The progress of the loop: what it has accepted is laid out, sound and free of duplicates.
pub record IsGood (P : ℕ → Entry → Type 0) (target : ℕ) (p : Progress) : Type 0 where
  pub laid : IsLaid target p.entries (target + p.previous_end)
  pub sound : AllEntries P 0 p.entries
  pub names_eq : p.names ≡ lowered p.entries []
  pub names_distinct : IsDistinct p.names
  pub ids_eq : p.content_ids ≡ nca_ids p.entries []
  pub ids_distinct : IsDistinct p.content_ids

abbrev pub IsWord : ℕ → Type 0
IsWord n = n < 2 ^ 64

add_id-IsDistinct :
    (nca : Bool) (id : Bytes) (ids : List Bytes)
    → (nca ≡ false) ⊎ (member id ids ≡ false)
    → IsDistinct ids
    → IsDistinct (add_id nca id ids)
add_id-IsDistinct true id ids (inl e) d = cc
add_id-IsDistinct true id ids (inr e) d = (e, d)
add_id-IsDistinct false id ids new d = d

-- A round keeps this, where the end of the entry does not wrap behind the header.
Adds-IsGood :
    (P : ℕ → Entry → Type 0) (index target : ℕ) (raw : RawEntry) (p q : Progress)
    → index ≡ length p.entries
    → IsWord raw.data_offset
    → IsWord raw.file_size
    → target + q.previous_end < 2 ^ 64
    → Adds (P index) target raw p q
    → IsGood P target p
    → IsGood P target q
Adds-IsGood P index target raw p q at_index d s room a g =
    let no_carry : q.previous_end ≡ raw.data_offset + raw.file_size =
      omega (arith, a.end_eq, a.no_wrap, d, s) in
    let entry = make_entry target raw a.name a.id in
    let at : entry.offset ≡ target + raw.data_offset = omega (arith, no_carry, room) in
    record {
      laid =
          subst (λ (es : List Entry). IsLaid target es (target + q.previous_end)) (sym a.entries_eq)
            (subst (IsLaid target (p.entries ++ entry ∷ [])) (omega (arith, at, no_carry)) (
              IsLaid-append target (target + p.previous_end) p.entries entry g.laid
                (omega (arith, at, a.in_order))));
      sound = subst (AllEntries P 0) (sym a.entries_eq) (
          AllEntries-append P 0 index p.entries entry (omega (arith, at_index)) g.sound
            (a.sound (omega (arith, no_carry, room))));
      names_eq =
          a.names_eq
          ∙ ap (◌∷◌ (lower a.name)) g.names_eq
          ∙ sym (
              ap (λ (es : List Entry). lowered es []) a.entries_eq
              ∙ lowered-append p.entries entry []);
      names_distinct = subst IsDistinct (sym a.names_eq) (a.name_new, g.names_distinct);
      ids_eq =
          a.ids_eq
          ∙ ap (add_id entry.nca a.id) g.ids_eq
          ∙ sym (
              ap (λ (es : List Entry). nca_ids es []) a.entries_eq
              ∙ nca_ids-append p.entries entry []);
      ids_distinct =
          subst IsDistinct (sym a.ids_eq)
            (add_id-IsDistinct entry.nca a.id p.content_ids a.id_new g.ids_distinct);
    }

abbrev pub IsRawWord : RawEntry → Type 0
IsRawWord raw = IsWord raw.data_offset × IsWord raw.file_size

-- The loop as a whole.
pub record Loops (P : ℕ → Entry → Type 0) (n target : ℕ) (p : Progress) (r : Parsed) : Type 0 where
  pub grows : p.previous_end ≤ r.progress.previous_end
  pub good :
      target + r.progress.previous_end < 2 ^ 64 → IsGood P target p → IsGood P target r.progress
  pub word : IsWord p.previous_end → IsWord r.progress.previous_end
  pub count : length r.progress.entries ≡ length p.entries + n

pub loop_step :
    (P : ℕ → Entry → Type 0) (n index target : ℕ) (raw : RawEntry) (p : Progress)
    (rest : Progress → Parsed) (r : Result Progress)
    → index ≡ length p.entries
    → IsRawWord raw
    → ((q : Progress) → r ≡ yields q → Adds (P index) target raw p q)
    → ((q : Progress)
        → index + 1 ≡ length q.entries
        → (rest q).failure ≡ none
        → Loops P n target q (rest q))
    → (after_raw p rest r).failure ≡ none
    → Loops P (suc n) target p (after_raw p rest r)
loop_step P n index target raw p rest (stops m) at_index words adds recur done = cc
loop_step P n index target raw p rest (yields q) at_index words adds recur done =
    let a = adds q refl in
    let longer : length q.entries ≡ length p.entries + 1 =
      ap length a.entries_eq ∙ length-append p.entries (make_entry target raw a.name a.id ∷ []) in
    let l = recur q (omega (arith, longer, at_index)) done in
    record {
      grows = omega (arith, a.in_order, a.no_wrap, a.end_eq, l.grows);
      good = λ room g. l.good room (
          Adds-IsGood P index target raw p q at_index words.0 words.1 (omega (arith, room, l.grows))
            a g);
      word = λ w. l.word (omega (arith, a.end_eq));
      count = omega (arith, l.count, longer);
    }

-- The bytes of a header.
abbrev pub AllBytes : Bytes → Type 0
AllBytes [] = Unit
AllBytes (b ∷ bs) = (b < 256) × AllBytes bs

get_or-lt : (bytes : Bytes) (i : ℕ) → AllBytes bytes → get_or bytes i 0 < 256
get_or-lt [] i all = omega arith
get_or-lt (b ∷ bytes) zero all = all.0
get_or-lt (b ∷ bytes) (suc i) all = get_or-lt bytes i all.1

pub u64_at-IsWord : (bytes : Bytes) (i : ℕ) → AllBytes bytes → IsWord (u64_at bytes i)
unfolding u64_at u32_at u16_at
u64_at-IsWord bytes i all = omega (
  arith,
  get_or-lt bytes i all,
  get_or-lt bytes (i + 1) all,
  get_or-lt bytes (i + 2) all,
  get_or-lt bytes (i + 2 + 1) all,
  get_or-lt bytes (i + 4) all,
  get_or-lt bytes (i + 4 + 1) all,
  get_or-lt bytes (i + 4 + 2) all,
  get_or-lt bytes (i + 4 + 2 + 1) all,
)

pub start-IsGood : (P : ℕ → Entry → Type 0) (target : ℕ) → IsGood P target start
start-IsGood P target = record {
  laid = omega arith;
  sound = tt;
  names_eq = refl;
  names_distinct = tt;
  ids_eq = refl;
  ids_distinct = tt;
}
