-- ===== src/Ide/Storing.antt =====
-- The loop of `ide_write` of device/ide.c, over as many commands as the request takes.
use geniux.Base.{
  ◌⊎◌, panic, ℕ, suc, ◌+◌, ◌-◌, ◌*◌, ◌^◌, ◌<◌, ◌≤◌, ◌≡◌, Bool, if◌then◌else◌, ok, store,
}
use geniux.Str.Blocks.{within}
use geniux.Ide.{Ports, Ide, Disk, max_lba}
use geniux.Ide.Writer.{IsWriter, PromptWriter}
use geniux.Ide.Reading.{rested}
use geniux.Ide.Writing.{Busy}
use geniux.Ide.Transfer.{write_round, write_rounds}

module _ {Hw : Type 0} (P : Ports Hw) (fuel : ℕ) (reads : ℕ → ℕ) (early : ℕ → Bool) (running : ℕ)
    (hd : Disk) (base lba buf cnt : ℕ) (disk : IsWriter P base hd.dev_no)
    (prompt : 1 < cnt → PromptWriter P base hd.dev_no disk) (still : reads 1 ≡ reads 0)
    (inside : lba + cnt ≤ max_lba + 1) (room : buf + cnt * 512 ≤ 2 ^ 32) where
  -- One command, on a channel whose ports start at `base`.
  abbrev Round : Bool → ℕ → ℕ → ℕ → Ide Hw → (b : ℕ) → IsWriter P b hd.dev_no → Type 0
  Round soon sector from op s b d =
      ((write_round P (suc fuel) reads soon running hd sector from op s ≡ panic) × Busy P hd s b d)
      ⊎ ((s' : Ide Hw) × (write_round P (suc fuel) reads soon running hd sector from op s ≡ ok s')
          × ((s'.channels ≡ store s.channels hd.my_channel (rested (s.channels hd.my_channel)))
              × (s'.mem ≡ s.mem)
              × (s'.kernel ≡ s.kernel)
              × ((q : ℕ)
                  → d.content s'.hw q ≡ (
                      if within (sector * 512) (op * 512) q
                      then s.mem (from + (q - sector * 512))
                      else d.content s.hw q))))

  -- What the loop leaves: the channel at rest with its lock, and the sectors on the disk.
  record Wrote (done : ℕ) (s s' : Ide Hw) : Type 0 where
    channel : s'.channels hd.my_channel ≡ rested (s.channels hd.my_channel)
    mem : s'.mem ≡ s.mem
    kernel : s'.kernel ≡ s.kernel
    content :
        (q : ℕ)
        → disk.content s'.hw q ≡ (
            if within ((lba + done) * 512) ((cnt - done) * 512) q
            then s.mem (buf + (q - lba * 512))
            else disk.content s.hw q)

  -- The loop ends in a panic at a busy drive, or with all sectors on the disk.
  abbrev Ends : ℕ → ℕ → Ide Hw → Type 0
  Ends left done s =
      ((write_rounds P left (suc fuel) reads early running hd lba buf cnt done s ≡ panic)
        × Busy P hd s base disk)
      ⊎ ((s' : Ide Hw) × (write_rounds P left (suc fuel) reads early running hd lba buf cnt done s
            ≡ ok s')
          × Wrote done s s')
