-- ===== src/Ide/Reading.antt =====
-- `ide_read` of device/ide.c gives the disk's sectors.
use geniux.Base.{
  ℕ, suc, ◌+◌, ◌-◌, ◌*◌, ◌%◌, ◌^◌, ◌<◌, ◌≤◌, ◌≡◌, refl, ap, ◌∙◌, subst, Bool, true, false, not,
  ◌==◌, if◌then◌else◌, store, bit_and, arith, ok, leb, dec_lt,
}
use geniux.Str.Blocks.{within}
use geniux.Ide.{
  Ports, Ide, IdeChannel, Disk, max_lba, port_of, sector_out, select_sector, cmd_out, wait_disk,
  read_from_sector, words_in, busy_wait,
}
use geniux.Ide.Data.{IsDisk, Prompt, Flows, insw-content}
use geniux.Ide.Waiting.{
  IsChannel, idle, store_same, store_twice, answered, wait_disk_lem, busy_wait-ready,
}
use geniux.Ide.Transfer.{read_round}

-- The channel of the disk is set up, and no command is under way.
abbrev pub IsIdle : ℕ → IdeChannel → Type 0
IsIdle c k = IsChannel c k × (k.disk_done ≡ idle)

-- The channel after a command and its interrupt.
abbrev pub rested : IdeChannel → IdeChannel
rested k = record k { expecting_intr = false; disk_done = idle }

module _ {Hw : Type 0} (P : Ports Hw) (hd : Disk) (s : Ide Hw) where
  abbrev base : ℕ
  base = (s.channels hd.my_channel).port_base

  abbrev command : ℕ → ℕ → Hw
  command lba op = P.outb (base + 7) 0x20 (sector_out P base hd.dev_no lba (op % 2 ^ 8) s.hw)

  abbrev sent : ℕ → ℕ → Ide Hw
  sent lba op = record s {
    channels =
        store s.channels hd.my_channel
          (record (s.channels hd.my_channel) { expecting_intr = true });
    hw = command lba op;
  }

  abbrev done : ℕ → ℕ → Ide Hw
  done lba op = record s {
    channels = store s.channels hd.my_channel (rested (s.channels hd.my_channel));
    hw = (P.inb (base + 7) (command lba op)).1;
  }

  answered-sent : (lba op : ℕ) → answered P (sent lba op) hd.my_channel idle ≡ done lba op
  answered-sent lba op =
      let c = hd.my_channel in
      let k = record (s.channels c) { expecting_intr = true } in
      rw (store_same P s.channels c k, store_twice P s.channels c k (rested k)) refl

  wait-sent :
      (early : Bool) (running lba op : ℕ)
      → IsIdle hd.my_channel (s.channels hd.my_channel)
      → wait_disk P early running hd.my_channel (sent lba op) ≡ ok (done lba op)
  wait-sent early running lba op h =
      let c = hd.my_channel in
      let same = store_same P s.channels c (record (s.channels c) { expecting_intr = true }) in
      wait_disk_lem P early running c (sent lba op) (rw same h.0) (rw same refl) (rw same h.1)
      ∙ ap ok (answered-sent lba op)

  -- `words_in` undoes the cut to a `uint8_t`.
  pub words_op : (op : ℕ) → 0 < op → op ≤ 256 → words_in P (op % 2 ^ 8) ≡ suc (op * 256 - 1)
  words_op op lo hi = ground arith

  -- The state when the disk has been found ready.
  abbrev found : ℕ → ℕ → Ide Hw
  found lba op =
      let hw1 = (P.inb (base + 7) (command lba op)).1 in
      let hw2 = (P.inb (base + 7) hw1).1 in record (done lba op) { hw = (P.inb (base + 7) hw2).1 }

  port-done : (lba op offset : ℕ) → port_of P (done lba op) hd offset ≡ base + offset
  port-done lba op offset =
      ap (λ k. k.port_base + offset)
        (store_same P s.channels hd.my_channel (rested (s.channels hd.my_channel)))

  pub add_zero : (n : ℕ) → n + 0 ≡ n
  add_zero n = omega arith

  module _ (content : ℕ → ℕ) (disk : IsDisk P base hd.dev_no content) (held : disk.Good s.hw) where
    at-found :
        (lba op : ℕ)
        → lba ≤ max_lba
        → 0 < op
        → op ≤ 256
        → disk.At (found lba op).hw (lba * 512) (suc (op * 256 - 1))
          × (bit_and (P.inb (base + 7) (done lba op).hw).0 0x80 ≡ 0)
          × ((bit_and (P.inb (base + 7) (P.inb (base + 7) (done lba op).hw).1).0 8 == 0) ≡ false)
    at-found lba op small lo hi =
        let n = op * 256 - 1 in
        let p = lba * 512 in
        let h0 : disk.Sought (command lba op) p (suc n) =
          subst (disk.Sought (command lba op) p) (words_op op lo hi)
            (disk.selected s.hw lba (op % 2 ^ 8) held small (omega arith)) in
        let h1 = disk.interrupt (command lba op) p n h0 in
        let (h2, b2, d2) = disk.status (P.inb (base + 7) (command lba op)).1 p n h1 in
        let (h3, b3, d3) =
          disk.status (P.inb (base + 7) (P.inb (base + 7) (command lba op)).1).1 p n h2 in
        (h3, b2, d3)

    -- One sector, or a drive without a pause.
    flows :
        (lba op : ℕ)
        → 0 < op
        → (1 < op → Prompt P base hd.dev_no content disk)
        → Flows P base hd.dev_no content disk (lba * 512) (suc (op * 256 - 1))
    flows lba op lo prompt hw q k above below whole there = elim (dec_lt 1 op) [
      | yes many ↦ prompt many hw q k there
      | no one ↦ absurd (omega (arith, one, above, below, whole))
    ]

    busy-found :
        (fuel : ℕ) (reads : ℕ → ℕ) (lba op : ℕ)
        → lba ≤ max_lba
        → 0 < op
        → op ≤ 256
        → busy_wait P fuel reads hd (done lba op) ≡ ok (true, found lba op)
    busy-found fuel reads lba op small lo hi =
        let (h, b, d) = at-found lba op small lo hi in
        busy_wait-ready P fuel reads hd (done lba op) (base + 7) (port-done lba op 7) b
        ∙ ap (λ x. ok (not x, found lba op)) d

    select-ok :
        (lba n : ℕ)
        → lba ≤ max_lba
        → select_sector P hd lba n s ≡ ok (record s { hw = sector_out P base hd.dev_no lba n s.hw })
    unfolding select_sector
    select-ok lba n small =
        let t : leb lba max_lba ≡ true = ground arith in
        rw t (ap (λ b. ok (record s { hw = sector_out P b hd.dev_no lba n s.hw })) (add_zero base))

    read-channels :
        (lba op buf : ℕ)
        → (read_from_sector P hd buf (op % 2 ^ 8) (found lba op)).channels
          ≡ store s.channels hd.my_channel (rested (s.channels hd.my_channel))
    unfolding read_from_sector
    read-channels lba op buf = refl

    cmd-sent :
        (lba op : ℕ)
        → cmd_out P hd.my_channel 0x20
            (record s { hw = sector_out P base hd.dev_no lba (op % 2 ^ 8) s.hw })
          ≡ sent lba op
    unfolding cmd_out
    cmd-sent lba op = refl

    read-found :
        (lba op buf : ℕ)
        → lba ≤ max_lba
        → 0 < op
        → op ≤ 256
        → (1 < op → Prompt P base hd.dev_no content disk)
        → disk.Good (read_from_sector P hd buf (op % 2 ^ 8) (found lba op)).hw
          × ((q : ℕ)
              → (read_from_sector P hd buf (op % 2 ^ 8) (found lba op)).mem q
                ≡ (if within buf (op * 512) q then content (lba * 512 + (q - buf)) else s.mem q))
    unfolding read_from_sector
    read-found lba op buf small lo hi prompt =
        let hw = (found lba op).hw in
        let n = op * 256 - 1 in
        let size : suc n * 2 ≡ op * 512 = omega arith in
        let port : port_of P (found lba op) hd 0 ≡ base = port-done lba op 0 ∙ add_zero base in
        let words : words_in P (op % 2 ^ 8) ≡ suc n = words_op op lo hi in
        let (good, got) =
          insw-content P base hd.dev_no content disk n s.mem hw buf (lba * 512)
            (at-found lba op small lo hi).0 (flows lba op lo prompt) (omega arith) (omega arith) in
        rw (port, words)
          (
            good,
            λ q.
                got q
                ∙ ap
                    (λ (z : ℕ). if within buf z q then content (lba * 512 + (q - buf)) else s.mem q)
                    size,
          )

    -- One command moves its sectors to the buffer.
    pub read_round_lem :
        (fuel : ℕ) (reads : ℕ → ℕ) (early : Bool) (running lba buf op : ℕ)
        → IsIdle hd.my_channel (s.channels hd.my_channel)
        → lba ≤ max_lba
        → 0 < op
        → op ≤ 256
        → (1 < op → Prompt P base hd.dev_no content disk)
        → (s' : Ide Hw) × (read_round P fuel reads early running hd lba buf op s ≡ ok s')
          × (s'.channels ≡ store s.channels hd.my_channel (rested (s.channels hd.my_channel)))
          × ((q : ℕ)
              → s'.mem q
                ≡ (if within buf (op * 512) q then content (lba * 512 + (q - buf)) else s.mem q))
          × disk.Good s'.hw
    unfolding read_round
    read_round_lem fuel reads early running lba buf op h small lo hi prompt = (
      read_from_sector P hd buf (op % 2 ^ 8) (found lba op),
      rw
          (
            select-ok lba (op % 2 ^ 8) small,
            cmd-sent lba op,
            wait-sent early running lba op h,
            busy-found fuel reads lba op small lo hi,
          )
          refl,
      read-channels lba op buf,
      (read-found lba op buf small lo hi prompt).1,
      (read-found lba op buf small lo hi prompt).0,
    )
