-- ===== src/Ide/Partitions.antt =====
-- `partition_scan` of device/ide.c. The driver's memory holds the bytes of the heap, which the buffer
-- is part of; the heap's own pools and locks stay as they are while the driver sleeps. The recursion
-- follows the extended partitions that the disk names, so it runs on fuel, a bound on its depth. A
-- name "%s%d" is kept as its number, and the list of logical partitions
-- has no bound of its own.
use geniux.Base.{
  ℕ, zero, suc, ◌+◌, ◌*◌, ◌%◌, ◌^◌, not, ◌==◌, leb, ltb, if◌then◌else◌, List, [], ◌∷◌, ◌++◌, Bool,
  true, false, suc, Outcome, ok, out_of_fuel, ◌>>=◌, ◌>>◌, assert,
}
use geniux.Malloc.{Heap, sys_malloc, sys_free}
use geniux.Ide.{Ports, Ide, Disk}
use geniux.Ide.Transfer.{ide_read}

pub record PartitionTableEntry : Type 0 where
  pub fs_type : ℕ
  pub start_lba : ℕ
  pub sec_cnt : ℕ

-- A partition found: its number in its name, and its sectors.
pub record Partition : Type 0 where
  pub name : ℕ
  pub start_lba : ℕ
  pub sec_cnt : ℕ

-- `ext_lba_base`, `p_no`, `l_no` and `partition_list`.
pub record Scan : Type 0 where
  pub ext_lba_base : ℕ
  pub p_no : ℕ
  pub l_no : ℕ
  pub partition_list : List Partition

abbrev pub le32 : (ℕ → ℕ) → ℕ → ℕ
le32 content p =
    content p + 2 ^ 8 * content (p + 1) + 2 ^ 16 * content (p + 2) + 2 ^ 24 * content (p + 3)

-- The entry at `p`.
abbrev pub entry_at : (ℕ → ℕ) → ℕ → PartitionTableEntry
entry_at bytes p = record {
  fs_type = bytes (p + 4);
  start_lba = le32 bytes (p + 8);
  sec_cnt = le32 bytes (p + 12);
}

-- Where the four entries stand, in the boot sector at `bs`.
abbrev pub partition_table : ℕ → List ℕ
partition_table bs = (bs + 446) ∷ (bs + 462) ∷ (bs + 478) ∷ (bs + 494) ∷ []

-- The driver, the heap with the bytes of memory, and what has been found.
pub record Search (Hw : Type 0) : Type 0 where
  pub ide : Ide Hw
  pub heap : Heap
  pub scan : Scan

unfoldable pub add_primary : ℕ → PartitionTableEntry → Scan → Outcome Scan
add_primary ext_lba p s = do
  let part : Partition = record {
    name = s.p_no + 1;
    start_lba = (ext_lba + p.start_lba) % 2 ^ 32;
    sec_cnt = p.sec_cnt;
  }
  assert (ltb (s.p_no + 1) 4)
  ok (record s { p_no = s.p_no + 1; partition_list = s.partition_list ++ part ∷ [] })

unfoldable pub add_logic : ℕ → PartitionTableEntry → Scan → Scan
add_logic ext_lba p s = record s {
  l_no = s.l_no + 1;
  partition_list =
      s.partition_list
      ++ record {
        name = s.l_no + 5;
        start_lba = (ext_lba + p.start_lba) % 2 ^ 32;
        sec_cnt = p.sec_cnt;
      }
        ∷ [];
}

-- The loop over the entries, each at its address; `scan` is the recursive call. Whether it returns
-- early, at the eighth logical partition, and the state.
unfoldable pub scan_entries :
    {Hw : Type 0}
    → (ℕ → Search Hw → Outcome (Search Hw))
    → ℕ
    → List ℕ
    → Search Hw
    → Outcome (Bool × Search Hw)
unfolding add_primary add_logic
scan_entries scan ext_lba [] s = ok (false, s)
scan_entries scan ext_lba (a ∷ rest) s =
    let p = entry_at s.heap.contents a in
    let base = s.scan.ext_lba_base in
    let extended = (do
      s' ←
          (if not (base == 0)
            then scan ((p.start_lba + base) % 2 ^ 32) s
            else scan p.start_lba
                (record s { scan = record s.scan { ext_lba_base = p.start_lba } }))
      scan_entries scan ext_lba rest s') in
    let primary = (do
      found ← add_primary ext_lba p s.scan
      scan_entries scan ext_lba rest (record s { scan = found })) in
    let logic = scan_entries scan ext_lba rest (record s { scan = add_logic ext_lba p s.scan }) in
    let unused = scan_entries scan ext_lba rest s in
    if p.fs_type == 0x5
    then extended
    else if not (p.fs_type == 0)
    then (if ext_lba == 0
        then primary
        else if leb 8 (s.scan.l_no + 1)
        then ok (true, record s { scan = add_logic ext_lba p s.scan })
        else logic)
    else unused

-- `depth` bounds the recursion. The early return leaves the buffer. `early` is that of `ide_read`, for
-- each sector read.
unfoldable pub partition_scan :
    {Hw : Type 0}
    → Ports Hw
    → ℕ
    → (ℕ → ℕ)
    → (ℕ → ℕ → Bool)
    → ℕ
    → Disk
    → ℕ
    → ℕ
    → Search Hw
    → Outcome (Search Hw)
unfolding scan_entries
partition_scan P fuel reads early running hd zero ext_lba s = out_of_fuel
partition_scan P fuel reads early running hd (suc depth) ext_lba s = do
  (bs, h1) ← sys_malloc 512 s.heap
  ide1 ←
      ide_read P fuel reads (early ext_lba) running hd ext_lba bs 1
        (record s.ide { mem = h1.contents })
  (returned, s2) ←
      scan_entries (partition_scan P fuel reads early running hd depth) ext_lba (partition_table bs)
        (record s { ide = ide1; heap = record h1 { contents = ide1.mem } })
  if returned then ok s2 else (do h2 ← sys_free bs s2.heap; ok (record s2 { heap = h2 }))
