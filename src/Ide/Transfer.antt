-- ===== src/Ide/Transfer.antt =====
-- `ide_read` and `ide_write` of device/ide.c. `early n` says whether the interrupt of the command
-- sent when `n` sectors were done comes before the thread waits for it. A failed `busy_wait` only
-- builds a message before PANIC. The loops have more rounds than sectors, so they do not run out.
use geniux.Base.{
  ℕ, zero, suc, ◌+◌, ◌-◌, ◌*◌, ◌%◌, ◌^◌, Bool, leb, ltb, if◌then◌else◌, Outcome, ok, out_of_fuel,
  ◌>>=◌, ◌>>◌, assert,
}
use geniux.Sync.{try_lock, try_release, Lock}
use geniux.Ide.{
  Ports, Ide, Disk, max_lba, with_channel, select_disk, select_sector, cmd_out, read_from_sector,
  write2sector, busy_wait, wait_disk,
}

-- How many sectors the next command moves, at most 256.
abbrev pub secs_op : ℕ → ℕ → ℕ
secs_op secs_done sec_cnt = if leb (secs_done + 256) sec_cnt then 256 else sec_cnt - secs_done

module _ {Hw : Type 0} (P : Ports Hw) where
  abbrev pub with_lock : Ide Hw → ℕ → Lock → Ide Hw
  with_lock s c l = with_channel P s c (record (s.channels c) { lock = l })

  -- One round of the loop of `ide_read`.
  unfoldable pub read_round : ℕ → (ℕ → ℕ) → Bool → ℕ → Disk → ℕ → ℕ → ℕ → Ide Hw → Outcome (Ide Hw)
  read_round fuel reads early running hd lba buf op s = do
    s1 ← select_sector P hd lba (op % 2 ^ 8) s
    s2 ← wait_disk P early running hd.my_channel (cmd_out P hd.my_channel 0x20 s1)
    (ready, s3) ← busy_wait P fuel reads hd s2
    assert ready
    ok (read_from_sector P hd buf (op % 2 ^ 8) s3)

  unfoldable pub read_rounds :
      ℕ → ℕ → (ℕ → ℕ) → (ℕ → Bool) → ℕ → Disk → ℕ → ℕ → ℕ → ℕ → Ide Hw → Outcome (Ide Hw)
  read_rounds zero fuel reads early running hd lba buf sec_cnt secs_done s = out_of_fuel
  read_rounds (suc left) fuel reads early running hd lba buf sec_cnt secs_done s =
      let op = secs_op secs_done sec_cnt in
      let round = (do
        s' ←
            read_round fuel reads (early secs_done) running hd (lba + secs_done)
              ((buf + secs_done * 512) % 2 ^ 32) op s
        read_rounds left fuel reads early running hd lba buf sec_cnt (secs_done + op) s') in
      if ltb secs_done sec_cnt then round else ok s

  unfoldable pub ide_read :
      ℕ → (ℕ → ℕ) → (ℕ → Bool) → ℕ → Disk → ℕ → ℕ → ℕ → Ide Hw → Outcome (Ide Hw)
  ide_read fuel reads early running hd lba buf sec_cnt s = do
    assert (leb lba max_lba)
    assert (ltb 0 sec_cnt)
    let c = hd.my_channel
    l ← try_lock running (s.channels c).lock
    s1 ←
        read_rounds (sec_cnt + 1) fuel reads early running hd lba buf sec_cnt 0
          (select_disk P hd (with_lock s c l))
    (woken, l') ← try_release running (s1.channels c).lock
    ok (with_lock s1 c l')

  -- One round of the loop of `ide_write`: the disk interrupts after the data.
  unfoldable pub write_round : ℕ → (ℕ → ℕ) → Bool → ℕ → Disk → ℕ → ℕ → ℕ → Ide Hw → Outcome (Ide Hw)
  write_round fuel reads early running hd lba buf op s = do
    s1 ← select_sector P hd lba (op % 2 ^ 8) s
    (ready, s2) ← busy_wait P fuel reads hd (cmd_out P hd.my_channel 0x30 s1)
    assert ready
    wait_disk P early running hd.my_channel (write2sector P hd buf (op % 2 ^ 8) s2)

  unfoldable pub write_rounds :
      ℕ → ℕ → (ℕ → ℕ) → (ℕ → Bool) → ℕ → Disk → ℕ → ℕ → ℕ → ℕ → Ide Hw → Outcome (Ide Hw)
  write_rounds zero fuel reads early running hd lba buf sec_cnt secs_done s = out_of_fuel
  write_rounds (suc left) fuel reads early running hd lba buf sec_cnt secs_done s =
      let op = secs_op secs_done sec_cnt in
      let round = (do
        s' ←
            write_round fuel reads (early secs_done) running hd (lba + secs_done)
              ((buf + secs_done * 512) % 2 ^ 32) op s
        write_rounds left fuel reads early running hd lba buf sec_cnt (secs_done + op) s') in
      if ltb secs_done sec_cnt then round else ok s

  unfoldable pub ide_write :
      ℕ → (ℕ → ℕ) → (ℕ → Bool) → ℕ → Disk → ℕ → ℕ → ℕ → Ide Hw → Outcome (Ide Hw)
  ide_write fuel reads early running hd lba buf sec_cnt s = do
    assert (leb lba max_lba)
    assert (ltb 0 sec_cnt)
    let c = hd.my_channel
    l ← try_lock running (s.channels c).lock
    s1 ←
        write_rounds (sec_cnt + 1) fuel reads early running hd lba buf sec_cnt 0
          (select_disk P hd (with_lock s c l))
    (woken, l') ← try_release running (s1.channels c).lock
    ok (with_lock s1 c l')
