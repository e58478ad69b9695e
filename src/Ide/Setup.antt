-- ===== src/Ide/Setup.antt =====
-- How `ide_init` of device/ide.c sets a channel up and asks a disk who it is. The printing is left
-- out; `id_info` and `buf` are the places of the two arrays on the stack.
use geniux.Base.{
  ℕ, ◌+◌, ◌*◌, ◌<◌, ◌≡◌, false, ◌==◌, if◌then◌else◌, Outcome, ok, ◌>>=◌, ◌>>◌, assert, arith,
}
use geniux.Str.{memset}
use geniux.Sync.{lock_init, sema_init}
use geniux.Ide.{Ports, Ide, IdeChannel, Disk, select_disk, cmd_out, busy_wait, read_from_sector}
use geniux.Ide.Pairs.{swap_pairs_bytes}
use geniux.Ide.Partitions.{le32}
use geniux.Ide.Reading.{IsIdle}

-- The `switch` and what follows it; `irq_no` and `port_base` of a channel past the second stay.
unfoldable pub init_channel : ℕ → IdeChannel → IdeChannel
unfolding lock_init sema_init
init_channel channel_no k =
    let k1 =
      (if channel_no == 0
        then record k { port_base = 0x1f0; irq_no = 0x2e }
        else if channel_no == 1
        then record k { port_base = 0x170; irq_no = 0x2f }
        else k) in
    record k1 { expecting_intr = false; lock = lock_init; disk_done = sema_init 0 }

-- The number of sectors, and the state; a disk that does not answer is a PANIC.
unfoldable pub identify_disk :
    {Hw : Type 0}
    → Ports Hw
    → ℕ
    → (ℕ → ℕ)
    → Disk
    → (id_info buf : ℕ) → Ide Hw
    → Outcome (ℕ × Ide Hw)
identify_disk P fuel reads hd id_info buf s = do
  let s1 = cmd_out P hd.my_channel 0xec (select_disk P hd s)
  (ready, s2) ← busy_wait P fuel reads hd s1
  assert ready
  let s3 = read_from_sector P hd id_info 1 s2
  m1 ← memset s3.mem buf 0 64
  m2 ← swap_pairs_bytes 21 m1 (id_info + 10 * 2) buf 20
  m3 ← swap_pairs_bytes 41 m2 (id_info + 27 * 2) buf 40
  ok (le32 m3 (id_info + 60 * 2), record s3 { mem = m3 })

-- `ide_init` leaves each of its two channels as `ide_read` wants it: at rest, with its lock free and
-- nothing expected.
pub init_channel_lem :
    (c : ℕ) (k : IdeChannel)
    → c < 2
    → IsIdle c (init_channel c k)
      × ((init_channel c k).expecting_intr ≡ false)
      × ((init_channel c k).lock ≡ lock_init)
unfolding init_channel lock_init sema_init
init_channel_lem c k h = (((ground arith, h), ground arith), ground arith, ground arith)
