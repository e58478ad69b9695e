-- ===== src/Ide/Tables.antt =====
-- What the loop of `partition_scan` of device/ide.c finds in a table without extended partitions.
use geniux.Base.{
  ℕ, suc, ◌+◌, ◌%◌, ◌^◌, ◌<◌, ◌≤◌, ◌≡◌, refl, ap, ◌∙◌, Bool, true, false, not, ◌==◌, ltb,
  if◌then◌else◌, List, [], ◌∷◌, ◌++◌, length, Outcome, ok, panic, ◌>>=◌, arith, Bool-cases, inl,
  inr, dec_lt,
}
use mathlib.Core.List.{append_assoc, append-nil}
use geniux.Ide.Partitions.{
  PartitionTableEntry, Partition, Scan, Search, entry_at, partition_table, le32, add_primary,
  scan_entries,
}

-- The entries that are used, none of them an extended partition.
abbrev pub is_extended : PartitionTableEntry → Bool
is_extended p = p.fs_type == 0x5

abbrev pub is_used : PartitionTableEntry → Bool
is_used p = not (p.fs_type == 0)

abbrev pub NoExtended : List PartitionTableEntry → Type 0
NoExtended [] = Unit {0}
NoExtended (p ∷ ps) = (is_extended p ≡ false) × NoExtended ps

pub used : List PartitionTableEntry → List PartitionTableEntry
used [] = []
used (p ∷ ps) = let more = used ps in if is_used p then p ∷ more else more

-- What a table of primary partitions stands for, numbered from `n` on.
pub numbered : ℕ → List PartitionTableEntry → List Partition
numbered n [] = []
numbered n (p ∷ ps) =
    record { name = n; start_lba = p.start_lba % 2 ^ 32; sec_cnt = p.sec_cnt } ∷ numbered (n + 1) ps

-- The scan after it has found the used entries of a table.
abbrev pub after : Scan → List PartitionTableEntry → Scan
after s found = record s {
  p_no = s.p_no + length found;
  partition_list = s.partition_list ++ numbered (s.p_no + 1) found;
}

-- One primary partition more.
abbrev added : PartitionTableEntry → Scan → Scan
added p s = record s {
  p_no = s.p_no + 1;
  partition_list =
      s.partition_list
      ++ record { name = s.p_no + 1; start_lba = p.start_lba % 2 ^ 32; sec_cnt = p.sec_cnt } ∷ [];
}

add_primary-ok :
    (p : PartitionTableEntry) (s : Scan) → s.p_no + 1 < 4 → add_primary 0 p s ≡ ok (added p s)
unfolding add_primary
add_primary-ok p s h =
    let t : ltb (s.p_no + 1) 4 ≡ true = ground arith in
    let z : 0 + p.start_lba ≡ p.start_lba = omega arith in rw (t, z) refl

add_primary-panic : (p : PartitionTableEntry) (s : Scan) → s.p_no ≡ 3 → add_primary 0 p s ≡ panic
unfolding add_primary
add_primary-panic p s h = let t : ltb (s.p_no + 1) 4 ≡ false = ground arith in rw t refl

after-added :
    (p : PartitionTableEntry) (s : Scan) (found : List PartitionTableEntry)
    → after (added p s) found ≡ after s (p ∷ found)
unfolding numbered
after-added p s found =
    let e : s.p_no + 1 + length found ≡ s.p_no + suc (length found) = omega arith in
    rw (e, append_assoc) refl

-- The entries that stand at some addresses.
unfoldable pub entries : (ℕ → ℕ) → List ℕ → List PartitionTableEntry
entries bytes [] = []
entries bytes (a ∷ rest) = entry_at bytes a ∷ entries bytes rest

abbrev pub with_scan : {Hw : Type 0} → Search Hw → Scan → Search Hw
with_scan s found = record s { scan = found }

module _ {Hw : Type 0} (scan : ℕ → Search Hw → Outcome (Search Hw)) where
  scan-used :
      (a : ℕ) (rest : List ℕ) (s : Search Hw)
      → is_extended (entry_at s.heap.contents a) ≡ false
      → ((entry_at s.heap.contents a).fs_type == 0) ≡ false
      → scan_entries scan 0 (a ∷ rest) s ≡ (
          add_primary 0 (entry_at s.heap.contents a) s.scan >>= λ found.
          scan_entries scan 0 rest (with_scan s found))
  unfolding scan_entries
  scan-used a rest s h t = rw (h, t) refl

  scan-unused :
      (a : ℕ) (rest : List ℕ) (s : Search Hw)
      → is_extended (entry_at s.heap.contents a) ≡ false
      → ((entry_at s.heap.contents a).fs_type == 0) ≡ true
      → scan_entries scan 0 (a ∷ rest) s ≡ scan_entries scan 0 rest s
  unfolding scan_entries
  scan-unused a rest s h t = rw (h, t) refl

  pub scan-found :
      (rest : List ℕ) (s : Search Hw)
      → NoExtended (entries s.heap.contents rest)
      → s.scan.p_no + length (used (entries s.heap.contents rest)) < 4
      → scan_entries scan 0 rest s
        ≡ ok (false, with_scan s (after s.scan (used (entries s.heap.contents rest))))
  unfolding scan_entries used numbered entries
  scan-found [] s h room =
      let e : s.scan.p_no + 0 ≡ s.scan.p_no = omega arith in rw (e, append-nil) refl
  scan-found (a ∷ rest) s h room =
      let p = entry_at s.heap.contents a in
      let ps = entries s.heap.contents rest in
      elim (Bool-cases (p.fs_type == 0)) [
        | inl t ↦ scan-unused a rest s h.0 t ∙ rw t (scan-found rest s h.1 (ground arith))
        | inr t ↦
            let more : s.scan.p_no + suc (length (used ps)) < 4 = ground arith in
            scan-used a rest s h.0 t
            ∙ rw (t, add_primary-ok p s.scan (omega (arith, more)))
                (scan-found rest (with_scan s (added p s.scan)) h.1 (omega (arith, more))
                  ∙ ap (λ (f : Scan). ok (false, with_scan s f)) (after-added p s.scan (used ps)))
      ]

  pub scan-panic :
      (rest : List ℕ) (s : Search Hw)
      → NoExtended (entries s.heap.contents rest)
      → s.scan.p_no < 4
      → 4 ≤ s.scan.p_no + length (used (entries s.heap.contents rest))
      → scan_entries scan 0 rest s ≡ panic
  unfolding used entries
  scan-panic [] s h small many = absurd (omega arith)
  scan-panic (a ∷ rest) s h small many =
      let p = entry_at s.heap.contents a in
      let ps = entries s.heap.contents rest in
      elim (Bool-cases (p.fs_type == 0)) [
        | inl t ↦ scan-unused a rest s h.0 t ∙ scan-panic rest s h.1 small (ground arith)
        | inr t ↦
            let more : 4 ≤ s.scan.p_no + suc (length (used ps)) = ground arith in
            scan-used a rest s h.0 t ∙ elim (dec_lt (s.scan.p_no + 1) 4) [
              | yes room ↦
                  rw (add_primary-ok p s.scan room)
                    (scan-panic rest (with_scan s (added p s.scan)) h.1 room (omega (arith, more)))
              | no full ↦ rw (add_primary-panic p s.scan (omega arith)) refl
            ]
      ]

-- The boot sector that has been read into a buffer.
same_le32 :
    (m f : ℕ → ℕ) (a b : ℕ) → ((k : ℕ) → k < 4 → m (a + k) ≡ f (b + k)) → le32 m a ≡ le32 f b
same_le32 m f a b same =
    let e0 : m a ≡ f b = ap m (omega arith) ∙ same 0 (omega arith) ∙ ap f (omega arith) in
    rw (e0, same 1 (omega arith), same 2 (omega arith), same 3 (omega arith)) refl

same_entry :
    (m f : ℕ → ℕ) (bs a b : ℕ)
    → ((k : ℕ) → k < 512 → m (bs + k) ≡ f k)
    → a ≡ bs + b
    → b + 16 ≤ 512
    → entry_at m a ≡ entry_at f b
same_entry m f bs a b same e inside =
    let at : (o k : ℕ) → o + k < 16 → m (a + o + k) ≡ f (b + o + k) =
      λ o k lt. ap m (omega (arith, e)) ∙ same (b + o + k) (omega (arith, lt, inside)) in
    let kind : m (a + 4) ≡ f (b + 4) =
      ap m (omega arith) ∙ at 4 0 (omega arith) ∙ ap f (omega arith) in
    rw
      (
        kind,
        same_le32 m f (a + 8) (b + 8) (λ k lt. at 8 k (omega (arith, lt))),
        same_le32 m f (a + 12) (b + 12) (λ k lt. at 12 k (omega (arith, lt))),
      )
      refl

pub same_table :
    (m f : ℕ → ℕ) (bs : ℕ)
    → ((k : ℕ) → k < 512 → m (bs + k) ≡ f k)
    → entries m (partition_table bs) ≡ entries f (partition_table 0)
unfolding entries
same_table m f bs same =
    rw
      (
        same_entry m f bs (bs + 446) 446 same (omega arith) (omega arith),
        same_entry m f bs (bs + 462) 462 same (omega arith) (omega arith),
        same_entry m f bs (bs + 478) 478 same (omega arith) (omega arith),
        same_entry m f bs (bs + 494) 494 same (omega arith) (omega arith),
      )
      refl
