-- ===== src/Ide.antt =====
-- device/ide.c: the driver of ATA disks, with the port accesses of lib/kernel/io.h. The hardware
-- behind the ports is no code of the repository: it is a parameter, a state `Hw` and what each
-- access to a port does to it. `fuel` and `reads` are the fuel and the clock of the sleeping calls.
-- The children: reading and writing sectors, what a read gives, what a write leaves, the two
-- together, the wait for a disk, swapped bytes, partitions.
pub mod Transfer
pub mod Data
pub mod Reading
pub mod Sectors
pub mod Writer
pub mod Writing
pub mod Storing
pub mod Return
pub mod Waiting
pub mod Pairs
pub mod Setup
pub mod Partitions
pub mod Tables
pub mod Finding
mod Examples
use geniux.Base.{
  ℕ, zero, suc, ◌+◌, ◌-◌, ◌*◌, ◌/◌, ◌%◌, ◌^◌, Bool, true, false, not, ◌||◌, ◌==◌, leb,
  if◌then◌else◌, store, Mem, Option, bit_and, bit_or, Outcome, ok, blocked, ◌>>=◌, ◌>>◌, assert,
}
use geniux.Sync.{Lock, Semaphore, Round, entered, asleep, sema_down, sema_up}
use geniux.Thread.{Kernel}
use geniux.Timer.{mtime_sleep}

-- The four accesses to a port, of a byte or of a word of two bytes.
pub record Ports (Hw : Type 0) : Type 0 where
  pub outb : ℕ → ℕ → Hw → Hw
  pub inb : ℕ → Hw → ℕ × Hw
  pub outw : ℕ → ℕ → Hw → Hw
  pub inw : ℕ → Hw → ℕ × Hw

pub record IdeChannel : Type 0 where
  pub port_base : ℕ
  pub irq_no : ℕ
  pub lock : Lock
  pub expecting_intr : Bool
  pub disk_done : Semaphore

-- `channels[2]`, the hardware, the memory that the buffers are in, and the kernel of the caller.
pub record Ide (Hw : Type 0) : Type 0 where
  pub channels : ℕ → IdeChannel
  pub hw : Hw
  pub mem : Mem
  pub kernel : Kernel

-- A disk by the index of its channel and its number there.
pub record Disk : Type 0 where
  pub my_channel : ℕ
  pub dev_no : ℕ

abbrev pub max_lba : ℕ
max_lba = 80 * 1024 * 1024 / 512 - 1

-- `BIT_DEV_MBS | BIT_DEV_LBA`, and `BIT_DEV_DEV` for the second disk of a channel.
abbrev pub reg_device : ℕ → ℕ
reg_device dev_no = if dev_no == 1 then 0xf0 else 0xe0

module _ {Hw : Type 0} (P : Ports Hw) where
  -- `rep insw` and `rep outsw`: a word has its low byte first.
  unfoldable pub insw : ℕ → ℕ → ℕ → Mem → Hw → Mem × Hw
  insw port addr zero m hw = (m, hw)
  insw port addr (suc word_cnt) m hw =
      let (w, hw') = P.inw port hw in
      insw port (addr + 2) word_cnt (store (store m addr (w % 256)) (addr + 1) (w / 256 % 256)) hw'

  unfoldable pub outsw : ℕ → ℕ → ℕ → Mem → Hw → Hw
  outsw port addr zero m hw = hw
  outsw port addr (suc word_cnt) m hw =
      outsw port (addr + 2) word_cnt m (P.outw port (m addr + 256 * m (addr + 1)) hw)

  abbrev pub port_of : Ide Hw → Disk → ℕ → ℕ
  port_of s hd offset = (s.channels hd.my_channel).port_base + offset

  abbrev pub with_channel : Ide Hw → ℕ → IdeChannel → Ide Hw
  with_channel s c k = record s { channels = store s.channels c k }

  unfoldable pub select_disk : Disk → Ide Hw → Ide Hw
  select_disk hd s = record s { hw = P.outb (port_of s hd 6) (reg_device hd.dev_no) s.hw }

  -- The writes of `select_sector`; the port takes the lowest byte.
  unfoldable pub sector_out : ℕ → ℕ → ℕ → ℕ → Hw → Hw
  sector_out base dev_no lba sec_cnt hw =
      let hw1 = P.outb (base + 2) sec_cnt hw in
      let hw2 = P.outb (base + 3) (lba % 2 ^ 8) hw1 in
      let hw3 = P.outb (base + 4) (lba / 2 ^ 8 % 2 ^ 8) hw2 in
      let hw4 = P.outb (base + 5) (lba / 2 ^ 16 % 2 ^ 8) hw3 in
      P.outb (base + 6) (bit_or (reg_device dev_no) (lba / 2 ^ 24) % 2 ^ 8) hw4

  unfoldable pub select_sector : Disk → ℕ → ℕ → Ide Hw → Outcome (Ide Hw)
  select_sector hd lba sec_cnt s = do
    assert (leb lba max_lba)
    ok (record s { hw = sector_out (port_of s hd 0) hd.dev_no lba sec_cnt s.hw })

  unfoldable pub cmd_out : ℕ → ℕ → Ide Hw → Ide Hw
  cmd_out c cmd s =
      let k = s.channels c in
      record s {
        channels = store s.channels c (record k { expecting_intr = true });
        hw = P.outb (k.port_base + 7) cmd s.hw;
      }

  -- The number of words in `sec_cnt` sectors, a `uint8_t` in which 0 stands for 256.
  abbrev pub words_in : ℕ → ℕ
  words_in sec_cnt = if sec_cnt == 0 then 256 * 512 / 2 else sec_cnt * 512 / 2

  unfoldable pub read_from_sector : Disk → ℕ → ℕ → Ide Hw → Ide Hw
  read_from_sector hd buf sec_cnt s =
      let (m, hw) = insw (port_of s hd 0) buf (words_in sec_cnt) s.mem s.hw in
      record s { mem = m; hw = hw }

  unfoldable pub write2sector : Disk → ℕ → ℕ → Ide Hw → Ide Hw
  write2sector hd buf sec_cnt s = record s {
    hw = outsw (port_of s hd 0) buf (words_in sec_cnt) s.mem s.hw;
  }

  -- `while (time_limit -= 10 >= 0)`: the comparison binds first, so each round takes 1 away.
  unfoldable pub busy_rounds : ℕ → ℕ → (ℕ → ℕ) → ℕ → Ide Hw → Outcome (Bool × Ide Hw)
  busy_rounds zero fuel reads port s = ok (false, s)
  busy_rounds (suc time_limit) fuel reads port s = do
    let (status, hw1) = P.inb port s.hw
    if bit_and status 0x80 == 0
        then (let (drq, hw2) = P.inb port hw1 in
            ok (not (bit_and drq 8 == 0), record s { hw = hw2 }))
        else (do
          k ← mtime_sleep fuel reads 10 s.kernel
          busy_rounds time_limit fuel reads port (record s { hw = hw1; kernel = k }))

  -- The limit of 30000 is decreased before the first round, and a limit of 0 ends the loop.
  unfoldable pub busy_wait : ℕ → (ℕ → ℕ) → Disk → Ide Hw → Outcome (Bool × Ide Hw)
  busy_wait fuel reads hd s = busy_rounds (30 * 1000 - 1) fuel reads (port_of s hd 7) s

  unfoldable pub intr_hd_handler : ℕ → Ide Hw → Outcome (Ide Hw)
  intr_hd_handler irq_no s = do
    assert ((irq_no == 0x2e) || (irq_no == 0x2f))
    let ch_no = irq_no - 0x20 - 0xe
    let k = s.channels ch_no
    assert (k.irq_no == irq_no)
    if k.expecting_intr
        then (do
          (woken, sem) ← sema_up k.disk_done
          let s1 = with_channel s ch_no (record k { expecting_intr = false; disk_done = sem })
          ok (record s1 { hw = (P.inb (k.port_base + 7) s.hw).1 }))
        else ok s

  -- One round of `sema_down(&disk_done)`: whether the thread has it, or sleeps.
  unfoldable pub down_disk : ℕ → ℕ → Ide Hw → Outcome (Bool × Ide Hw)
  down_disk running c s = do
    let k = s.channels c
    r ← sema_down running k.disk_done
    elim r [
      | entered sem ↦ ok (true, with_channel s c (record k { disk_done = sem }))
      | asleep sem ↦ ok (false, with_channel s c (record k { disk_done = sem }))
    ]

  -- `sema_down(&disk_done)` and the disk's interrupt, which comes before the call if `early`, and
  -- else while the thread sleeps.
  unfoldable pub wait_disk : Bool → ℕ → ℕ → Ide Hw → Outcome (Ide Hw)
  wait_disk early running c s = do
    let irq_no = (s.channels c).irq_no
    s1 ← (if early then intr_hd_handler irq_no s else ok s)
    (got, s2) ← down_disk running c s1
    if got then ok s2 else (do
      s3 ← intr_hd_handler irq_no s2
      (again, s4) ← down_disk running c s3
      if again then ok s4 else blocked)
