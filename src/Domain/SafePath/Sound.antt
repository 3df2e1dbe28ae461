-- ===== src/Domain/SafePath/Sound.antt =====
-- The independent description of a safe direct child (safe_path.c), and that the check decides it.
use mathlib.Core.List.{append_assoc}
use transferencia_switch.Base.{
  ℕ, ◌+◌, ◌-◌, ◌≤◌, ◌≡◌, refl, ap, sym, ◌∙◌, ◌≢◌, ◌⊎◌, ◌↔◌, inl, inr, true, some, List, [], ◌∷◌,
  ◌++◌, length, get_or, drop, arith, drop-append_self, get_or-append_right, drop-append_next,
}
use transferencia_switch.Base.Bytes.{
  codes, same, same-eq, same_refl, starts_with, starts_with-eq, starts_with-append,
}
use transferencia_switch.Domain.SafePath.{
  allowed_bytes, is_safe_name, child_name, name_or_refuse, check_child, is_safe_direct_child,
}

abbrev pub All {κ} : (ℕ → Type κ) → List ℕ → Type κ
All P [] = Unit
All P (c ∷ cs) = P c × All P cs

abbrev pub IsNameByte : ℕ → Type 0
IsNameByte c = (0x20 ≤ c) × (c ≢ b'/') × (c ≢ 0x5c) × (c ≢ b':')

abbrev pub IsName : List ℕ → Type 0
IsName name = (name ≢ []) × (name ≢ codes ".") × (name ≢ codes "..") × All IsNameByte name

abbrev pub last : List ℕ → ℕ
last s = get_or s (length s - 1) 0

-- The parent is the root, and the candidate is the root and a name; or the parent lies below
-- the root, without a final slash, and the candidate is the parent, a slash and a name.
abbrev pub IsDirectChild : List ℕ → List ℕ → List ℕ → List ℕ → Type 0
IsDirectChild root parent name candidate =
    ((parent ≡ root) × (candidate ≡ root ++ name))
    ⊎ ((rest : List ℕ) × (parent ≡ root ++ rest)
        × (parent ≢ root)
        × (last parent ≢ b'/')
        × (candidate ≡ parent ++ b'/' ∷ name))

same_iff : (xs ys : List ℕ) → (same xs ys ≡ true) ↔ (xs ≡ ys)
same_iff xs ys = (same-eq xs ys, λ e. rw e (same_refl ys))

starts_with_iff :
    (value ps : List ℕ) → (starts_with value ps ≡ true) ↔ ((rest : List ℕ) × (value ≡ ps ++ rest))
starts_with_iff value ps = (starts_with-eq value ps, λ e. rw e.1 (starts_with-append ps e.0))

allowed_bytes_iff : (cs : List ℕ) → (allowed_bytes cs ≡ true) ↔ All IsNameByte cs
unfolding allowed_bytes
allowed_bytes_iff [] = ((λ _. tt), (λ _. refl))
allowed_bytes_iff (c ∷ cs) = ground (arith, allowed_bytes_iff cs)

is_safe_name_iff : (name : List ℕ) → (is_safe_name name ≡ true) ↔ IsName name
unfolding is_safe_name
is_safe_name_iff name = ground (
  arith,
  same_iff name [],
  same_iff name (codes "."),
  same_iff name (codes ".."),
  allowed_bytes_iff name,
)

slash_at :
    (parent candidate rest : List ℕ)
    → candidate ≡ parent ++ rest
    → get_or candidate (length parent) 0 ≡ get_or rest 0 0
slash_at parent candidate rest e = rw e (get_or-append_right parent rest 0)

-- What follows a prefix of the candidate, where its first byte is a slash.
after_slash :
    (parent candidate rest : List ℕ)
    → candidate ≡ parent ++ rest
    → get_or candidate (length parent) 0 ≡ b'/'
    → candidate ≡ parent ++ b'/' ∷ drop (length parent + 1) candidate
after_slash parent candidate [] e g = absurd (omega (arith, g, slash_at parent candidate [] e))
after_slash parent candidate (c ∷ rest) e g =
    let is_slash : c ≡ b'/' = omega (arith, g, slash_at parent candidate (c ∷ rest) e) in
    rw (e, drop-append_next parent c rest, is_slash)

-- How `child_name` finds a name, test by test.
child_name_cases :
    (root parent candidate name : List ℕ)
    → child_name root parent candidate ≡ some name
    → ((parent ≡ root) × (name ≡ drop (length root) candidate))
      ⊎ ((parent ≢ root)
          × (last parent ≢ b'/')
          × (starts_with candidate parent ≡ true)
          × (get_or candidate (length parent) 0 ≡ b'/')
          × (name ≡ drop (length parent + 1) candidate))
unfolding child_name
child_name_cases root parent candidate name e =
    ground (arith, same_iff parent root, ap length {x = parent} {y = root})

-- Where the code finds a name, the candidate is a direct child by that name.
child_name-IsDirectChild :
    (root parent candidate name : List ℕ)
    → starts_with candidate root ≡ true
    → starts_with parent root ≡ true
    → child_name root parent candidate ≡ some name
    → IsDirectChild root parent name candidate
child_name-IsDirectChild root parent candidate name hc hp e =
    elim (child_name_cases root parent candidate name e) [
      | inl (p, n) ↦
          let below = starts_with-eq candidate root hc in
          inl (
            p,
            below.1
                ∙ ap (◌++◌ root)
                    (sym (n ∙ ap (drop (length root)) below.1 ∙ drop-append_self root below.0)),
          )
      | inr (ne, l, s, g, n) ↦
          let under = starts_with-eq parent root hp in
          let below = starts_with-eq candidate parent s in
          inr (
            under.0,
            under.1,
            ne,
            l,
            after_slash parent candidate below.0 below.1 g ∙ ap (λ t. parent ++ b'/' ∷ t) (sym n),
          )
    ]

IsDirectChild-child_name :
    (root parent candidate name : List ℕ)
    → IsDirectChild root parent name candidate
    → child_name root parent candidate ≡ some name
unfolding child_name
IsDirectChild-child_name root parent candidate name (inl (p, c)) =
    rw (p, c, drop-append_self root name, same_refl root) (ground arith)
IsDirectChild-child_name root parent candidate name (inr (rest, p, n, l, c)) =
    rw
      (
        c,
        drop-append_next parent b'/' name,
        starts_with-append parent (b'/' ∷ name),
        get_or-append_right parent (b'/' ∷ name) 0,
      )
      (ground (arith, same_iff parent root))

-- The guards on the root and the two prefixes.
check_child_cases :
    (root parent candidate : List ℕ)
    → check_child root parent candidate ≡ true
    → (last root ≡ b'/')
      × (starts_with parent root ≡ true)
      × (starts_with candidate root ≡ true)
      × ((name : List ℕ) × (child_name root parent candidate ≡ some name)
          × (is_safe_name name ≡ true))
unfolding check_child name_or_refuse
check_child_cases root parent candidate e = ground arith

starts_with_self : (ps : List ℕ) → starts_with ps ps ≡ true
unfolding starts_with
starts_with_self [] = refl
starts_with_self (p ∷ ps) = ground (arith, starts_with_self ps)

child-starts_with :
    (root parent name candidate : List ℕ)
    → IsDirectChild root parent name candidate
    → (starts_with parent root ≡ true) × (starts_with candidate root ≡ true)
child-starts_with root parent name candidate (inl (p, c)) =
    (rw p (starts_with_self root), rw c (starts_with-append root name))
child-starts_with root parent name candidate (inr (rest, p, n, l, c)) = (
  rw p (starts_with-append root rest),
  rw (c, p, append_assoc) (starts_with-append root (rest ++ b'/' ∷ name)),
)

check_child_accepts :
    (root parent candidate name : List ℕ)
    → last root ≡ b'/'
    → (starts_with parent root ≡ true) × (starts_with candidate root ≡ true)
    → child_name root parent candidate ≡ some name
    → is_safe_name name ≡ true
    → check_child root parent candidate ≡ true
unfolding check_child name_or_refuse starts_with
check_child_accepts [] parent candidate name slash hs e safe = absurd (omega arith)
check_child_accepts (r ∷ root) [] candidate name slash hs e safe = cc
check_child_accepts (r ∷ root) (p ∷ parent) candidate name slash hs e safe = ground arith

-- A candidate is accepted exactly when the root ends in a slash and the candidate is the parent,
-- which is the root or lies below it, extended by one safe name.
pub is_safe_direct_child_iff :
    (root parent candidate : List ℕ)
    → (is_safe_direct_child (some root) (some parent) (some candidate) ≡ true) ↔ (
        (last root ≡ b'/')
        × ((name : List ℕ) × IsName name × IsDirectChild root parent name candidate))
unfolding is_safe_direct_child
is_safe_direct_child_iff root parent candidate = (sound, complete)
  where
    sound :
        check_child root parent candidate ≡ true
        → (last root ≡ b'/')
          × ((name : List ℕ) × IsName name × IsDirectChild root parent name candidate)
    sound e =
        let (slash, hp, hc, found) = check_child_cases root parent candidate e in
        (
          slash,
          (
            found.0,
            (is_safe_name_iff found.0).0 found.2,
            child_name-IsDirectChild root parent candidate found.0 hc hp found.1,
          ),
        )

    complete :
        (last root ≡ b'/')
          × ((name : List ℕ) × IsName name × IsDirectChild root parent name candidate)
        → check_child root parent candidate ≡ true
    complete (slash, (name, safe, child)) =
        check_child_accepts root parent candidate name slash
          (child-starts_with root parent name candidate child)
          (IsDirectChild-child_name root parent candidate name child)
          ((is_safe_name_iff name).1 safe)
