-- ===== src/Ide/Finding.antt =====
-- What `partition_scan` of device/ide.c finds on a disk without extended partitions.
use geniux.Base.{ℕ, List}
use geniux.Ide.{Ide}
use geniux.Ide.Partitions.{PartitionTableEntry, partition_table}
use geniux.Ide.Tables.{entries}

-- The entries of the partition table in the first sector of a disk.
abbrev pub table_of : (ℕ → ℕ) → List PartitionTableEntry
table_of content = entries content (partition_table 0)
