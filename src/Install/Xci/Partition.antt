-- ===== src/Install/Xci/Partition.antt =====
-- Where the secure partition lies that findSecurePartition accepts.
use transferencia_switch.Base.{
  ℕ, zero, suc, ◌+◌, ◌-◌, ◌^◌, ◌≤◌, ◌<◌, ◌≡◌, refl, sym, ◌∙◌, ◌⊎◌, inl, inr, true, Option, none,
  some, drop, arith, Option-cases, Bool-cases,
}
use mathlib.Core.Path.{subst}
use transferencia_switch.Base.Bytes.{Bytes, codes, same}
use transferencia_switch.Base.Words.{add_u64, u32_at}
use transferencia_switch.Base.Results.{Result, yields, stops, ◌>>=◌}
use transferencia_switch.Install.Header.{RawEntry, c_string}
use transferencia_switch.Install.Sink.{Sink, has_known_final_size}
use transferencia_switch.Install.Layout.{IsRawWord, AllBytes}
use transferencia_switch.Install.Layout.Xci.{hfs0_entry-IsRawWord}
use transferencia_switch.Install.Xci.{
  hfs0_entry, RootProgress, partition_end, root_round, root_rounds, known_size, take_secure,
  root_data_start, find_secure_partition,
}

-- A partition between the start of the data and the end of the last partition, and inside a
-- package of known size.
pub record IsWithin (limit : Option ℕ) (data_start computed_end offset size : ℕ) : Type 0 where
  pub behind : data_start ≤ offset
  pub inside : offset + size ≤ computed_end
  pub below : (expected : ℕ) → limit ≡ some expected → offset + size ≤ expected

abbrev SecureWithin : Option ℕ → ℕ → RootProgress → Type 0
SecureWithin limit data_start p =
    (offset size : ℕ)
    → p.secure ≡ some (offset, size)
    → IsWithin limit data_start p.computed_end offset size

-- What a round does: it keeps the partition or takes a new one, and the end does not sink.
record Rounds (limit : Option ℕ) (data_start : ℕ) (raw : RawEntry) (p q : RootProgress)
    : Type 0 where
  no_wrap : (partition_end data_start raw ≡ data_start + raw.data_offset + raw.file_size)
  end_le : partition_end data_start raw ≤ q.computed_end
  grows : p.computed_end ≤ q.computed_end
  taken :
      (q.secure ≡ p.secure)
      ⊎ ((q.secure ≡ some (add_u64 data_start raw.data_offset, raw.file_size))
          × ((expected : ℕ) → limit ≡ some expected → partition_end data_start raw ≤ expected))

root_round-Rounds :
    (limit : Option ℕ) (data_start table_size : ℕ) (strings : Bytes) (raw : RawEntry)
    (p q : RootProgress)
    → IsRawWord raw
    → data_start < 2 ^ 64
    → root_round limit data_start table_size strings raw p ≡ yields q
    → Rounds limit data_start raw p q
unfolding root_round
root_round-Rounds limit data_start table_size strings raw p q words small e =
    elim (Option-cases
      (c_string (table_size - raw.string_offset) (drop raw.string_offset strings))) [
        | inl unnamed ↦ ground arith
        | inr (name, named) ↦ record {
          no_wrap = ground (arith, words);
          end_le = ground arith;
          grows = ground arith;
          taken = elim (Bool-cases (same name (codes "secure"))) [
            | inl secure ↦ inr (ground arith, λ expected known. ground arith)
            | inr other ↦ inl (ground arith)
          ];
        }
      ]

taken-IsWithin :
    (limit : Option ℕ) (data_start : ℕ) (raw : RawEntry) (p q : RootProgress) (offset size : ℕ)
    → IsRawWord raw
    → data_start < 2 ^ 64
    → Rounds limit data_start raw p q
    → offset ≡ add_u64 data_start raw.data_offset
    → size ≡ raw.file_size
    → ((expected : ℕ) → limit ≡ some expected → partition_end data_start raw ≤ expected)
    → IsWithin limit data_start q.computed_end offset size
taken-IsWithin limit data_start raw p q offset size words small r at_eq size_eq below = record {
  behind = omega (arith, r.no_wrap, at_eq, words.0, words.1);
  inside = omega (arith, r.no_wrap, r.end_le, at_eq, size_eq);
  below = λ expected known. omega (arith, r.no_wrap, below expected known, at_eq, size_eq);
}

some_pair :
    (a b c d : ℕ) → (◌≡◌ {A = Option (ℕ × ℕ)} (some (a, b)) (some (c, d))) → (c ≡ a) × (d ≡ b)
some_pair a b c d e = (cc, cc)

Rounds-SecureWithin :
    (limit : Option ℕ) (data_start : ℕ) (raw : RawEntry) (p q : RootProgress)
    → IsRawWord raw
    → data_start < 2 ^ 64
    → Rounds limit data_start raw p q
    → SecureWithin limit data_start p
    → SecureWithin limit data_start q
Rounds-SecureWithin limit data_start raw p q words small r within offset size found = elim r.taken [
  | inl kept ↦
      let w = within offset size (sym kept ∙ found) in
      record { behind = w.behind; inside = omega (arith, w.inside, r.grows); below = w.below }
  | inr (new, below) ↦
      let (at_eq, size_eq) = some_pair _ _ offset size (sym new ∙ found) in
      taken-IsWithin limit data_start raw p q offset size words small r at_eq size_eq below
]

then_within :
    (limit : Option ℕ) (data_start : ℕ) (q : RootProgress)
    (rest : RootProgress → Result RootProgress) (r : Result RootProgress)
    → ((p : RootProgress) → r ≡ yields p → SecureWithin limit data_start p)
    → ((p : RootProgress)
        → SecureWithin limit data_start p
        → rest p ≡ yields q
        → SecureWithin limit data_start q)
    → (r >>= rest) ≡ yields q
    → SecureWithin limit data_start q
then_within limit data_start q rest (stops m) one more e = cc
then_within limit data_start q rest (yields p) one more e = more p (one p refl) e

yields-injective :
    (p q : RootProgress) → (◌≡◌ {A = Result RootProgress} (yields p) (yields q)) → p ≡ q
yields-injective p q e = cc

root_rounds-SecureWithin :
    (n : ℕ) (limit : Option ℕ) (data_start : ℕ) (bytes : Bytes) (index : ℕ) (p q : RootProgress)
    → ((i : ℕ) → IsRawWord (hfs0_entry bytes i))
    → data_start < 2 ^ 64
    → SecureWithin limit data_start p
    → root_rounds n limit data_start bytes index p ≡ yields q
    → SecureWithin limit data_start q
unfolding root_rounds
root_rounds-SecureWithin zero limit data_start bytes index p q words small within e =
    subst (SecureWithin limit data_start) (yields-injective p q e) within
root_rounds-SecureWithin (suc n) limit data_start bytes index p q words small within e =
    then_within limit data_start q (root_rounds n limit data_start bytes (index + 1)) _
      (λ p' done.
        Rounds-SecureWithin limit data_start (hfs0_entry bytes index) p p' (words index) small
          (root_round-Rounds limit data_start _ _ (hfs0_entry bytes index) p p' (words index) small
            done)
          within)
      (λ p' within'.
        root_rounds-SecureWithin n limit data_start bytes (index + 1) p' q words small within')
      e

module _ {W : Type 0} where
  -- The partition that a sink has found: behind the root table and what has been read, and inside
  -- the package, whose size is known by then.
  pub record HasPartition (s : Sink W) : Type 0 where
    pub behind : root_data_start s ≤ s.xci_secure_offset
    pub unread : s.xci_cursor ≤ s.xci_secure_offset
    pub inside : s.xci_secure_offset + s.xci_secure_size ≤ s.expected_size

  taken_partition :
      (r : Result RootProgress) (s : Sink W)
      → ((q : RootProgress) → r ≡ yields q → SecureWithin (known_size s) (root_data_start s) q)
      → (take_secure r s).0 ≡ true
      → HasPartition (take_secure r s).1
  taken_partition (stops m) s within done = cc
  taken_partition (yields q) s within done = elim (Option-cases q.secure) [
    | inl absent ↦ ground arith
    | inr ((offset, size), found) ↦
        let w = within q refl offset size found in
        record {
          behind = ground (arith, found, w.behind);
          unread = ground (arith, found);
          inside = elim (Bool-cases (has_known_final_size s)) [
            | inl known ↦ ground (arith, found, w.below s.expected_size (ground (arith, known)))
            | inr unknown ↦ ground (arith, found, w.inside)
          ];
        }
  ]

  -- A secure partition that findSecurePartition accepts lies behind the root table and behind the
  -- bytes that were read, and it ends inside the package, of known size or of the size that the
  -- root table implies.
  pub find_secure_partition-HasPartition :
      (s : Sink W)
      → AllBytes s.xci_root_header
      → (find_secure_partition s).0 ≡ true
      → HasPartition (find_secure_partition s).1
  unfolding find_secure_partition
  find_secure_partition-HasPartition s bytes done =
      taken_partition _ s
        (λ q.
          root_rounds-SecureWithin (u32_at s.xci_root_header 4) (known_size s) (root_data_start s)
            s.xci_root_header 0 (record { secure = none; computed_end = root_data_start s }) q
            (λ i. hfs0_entry-IsRawWord s.xci_root_header i bytes) (omega arith)
            (λ offset size found. cc))
        done
