-- ===== src/Ide/Sectors.antt =====
-- The loop of `ide_read` of device/ide.c, over as many commands as the request takes.
use geniux.Base.{
  ℕ, ◌+◌, ◌-◌, ◌*◌, ◌^◌, ◌<◌, ◌≤◌, ◌≡◌, refl, sym, subst, Bool, false, if◌then◌else◌, arith, ok,
  store,
}
use geniux.Str.Blocks.{within}
use geniux.Sync.{Lock, lock_init}
use geniux.Ide.{Ports, Ide, IdeChannel, Disk, max_lba, select_disk, reg_device}
use geniux.Ide.Data.{IsDisk, Prompt}
use geniux.Ide.Waiting.{idle, store_same}
use geniux.Ide.Reading.{rested}
use geniux.Ide.Transfer.{secs_op, with_lock, read_round}

pub op_bounds :
    (done cnt : ℕ)
    → done < cnt
    → (0 < secs_op done cnt) × (secs_op done cnt ≤ 256) × (done + secs_op done cnt ≤ cnt)
op_bounds done cnt h = ground arith

module _ {Hw : Type 0} (P : Ports Hw) (content : ℕ → ℕ) (fuel : ℕ) (reads : ℕ → ℕ)
    (early : ℕ → Bool) (running : ℕ) (hd : Disk) (base lba buf cnt : ℕ)
    (disk : IsDisk P base hd.dev_no content)
    (prompt : 1 < cnt → Prompt P base hd.dev_no content disk) (inside : lba + cnt ≤ max_lba + 1)
    (room : buf + cnt * 512 ≤ 2 ^ 32) where
  -- One command, on a channel whose ports start at `base`.
  abbrev Round : Bool → ℕ → ℕ → ℕ → Ide Hw → (b : ℕ) → IsDisk P b hd.dev_no content → Type 0
  Round soon sector from op s b d =
      (s' : Ide Hw) × (read_round P fuel reads soon running hd sector from op s ≡ ok s')
      × (s'.channels ≡ store s.channels hd.my_channel (rested (s.channels hd.my_channel)))
      × ((q : ℕ)
          → s'.mem q
            ≡ (if within from (op * 512) q then content (sector * 512 + (q - from)) else s.mem q))
      × d.Good s'.hw

  -- What the loop leaves: the channel at rest with its lock, and the sectors in the buffer.
  record Read (done : ℕ) (s s' : Ide Hw) : Type 0 where
    channel : s'.channels hd.my_channel ≡ rested (s.channels hd.my_channel)
    mem :
        (q : ℕ)
        → s'.mem q ≡ (
            if within (buf + done * 512) ((cnt - done) * 512) q
            then content (lba * 512 + (q - buf))
            else s.mem q)
    good : disk.Good s'.hw

module _ {Hw : Type 0} (P : Ports Hw) (hd : Disk) where
  pub selected :
      (s : Ide Hw) (c : ℕ) (l : Lock)
      → (select_disk P hd (with_lock P s c l)).channels c ≡ record (s.channels c) { lock = l }
  unfolding select_disk
  selected s c l = store_same P s.channels c (record (s.channels c) { lock = l })

  pub selected-mem :
      (s : Ide Hw) (c : ℕ) (l : Lock) → (select_disk P hd (with_lock P s c l)).mem ≡ s.mem
  unfolding select_disk
  selected-mem s c l = refl

  -- `select_disk` writes to the port behind the sector's, which changes no byte.
  pub chosen-Good :
      (content : ℕ → ℕ) (s : Ide Hw) (l : Lock)
      → (disk : IsDisk P (s.channels hd.my_channel).port_base hd.dev_no content) → disk.Good s.hw
      → disk.Good (select_disk P hd (with_lock P s hd.my_channel l)).hw
  unfolding select_disk
  chosen-Good content s l disk held =
      let c = hd.my_channel in
      subst (λ (k : IdeChannel). disk.Good (P.outb (k.port_base + 6) (reg_device hd.dev_no) s.hw))
        (sym (store_same P s.channels c (record (s.channels c) { lock = l })))
        (disk.chosen s.hw (reg_device hd.dev_no) held)

  pub selected-kernel :
      (s : Ide Hw) (c : ℕ) (l : Lock) → (select_disk P hd (with_lock P s c l)).kernel ≡ s.kernel
  unfolding select_disk
  selected-kernel s c l = refl

  abbrev pub relocked : IdeChannel → IdeChannel
  relocked k = record k { lock = lock_init }

  -- A channel at rest that has its lock back is as it was.
  pub unlocked :
      (k : IdeChannel)
      → k.disk_done ≡ idle
      → k.expecting_intr ≡ false
      → k.lock ≡ lock_init
      → record k { lock = lock_init; expecting_intr = false; disk_done = idle } ≡ k
  unlocked k h quiet free = ground arith
