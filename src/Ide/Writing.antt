-- ===== src/Ide/Writing.antt =====
-- `ide_write` of device/ide.c gives the disk the bytes of memory: one command.
use geniux.Base.{
  ◌⊎◌, inl, inr, dec_lt, panic, bit_and, ◌==◌, false, ℕ, suc, ◌+◌, ◌-◌, ◌*◌, ◌%◌, ◌^◌, ◌<◌, ◌≤◌,
  ◌≡◌, refl, ap, ◌∙◌, subst, Bool, true, not, if◌then◌else◌, store, arith, ok, leb, IsBytes,
}
use geniux.Str.Blocks.{within}
use geniux.Ide.{
  Ports, Ide, IdeChannel, Disk, max_lba, port_of, sector_out, select_sector, cmd_out, wait_disk,
  write2sector, words_in, busy_wait, outsw,
}
use geniux.Ide.Writer.{IsWriter, PromptWriter, Flows, outsw-content}
use geniux.Ide.Waiting.{
  busy_wait-panic, idle, store_same, store_twice, answered, wait_disk_lem, busy_wait-ready,
}
use geniux.Ide.Reading.{IsIdle, rested, words_op, add_zero}
use geniux.Ide.Transfer.{write_round}
use geniux.Thread.{is_running}
use geniux.Thread.Invariant.{status}

module _ {Hw : Type 0} (P : Ports Hw) (hd : Disk) (s : Ide Hw) where
  abbrev base : ℕ
  base = (s.channels hd.my_channel).port_base

  abbrev expecting : IdeChannel
  expecting = record (s.channels hd.my_channel) { expecting_intr = true }

  abbrev command : ℕ → ℕ → Hw
  command lba op = P.outb (base + 7) 0x30 (sector_out P base hd.dev_no lba (op % 2 ^ 8) s.hw)

  abbrev with_hw : Hw → Ide Hw
  with_hw hw = record s { channels = store s.channels hd.my_channel expecting; hw = hw }

  -- The disk's state when it has been found ready.
  abbrev ready_hw : ℕ → ℕ → Hw
  ready_hw lba op = (P.inb (base + 7) (P.inb (base + 7) (command lba op)).1).1

  abbrev flushed : ℕ → ℕ → ℕ → Hw
  flushed lba op buf = outsw P base buf (suc (op * 256 - 1)) s.mem (ready_hw lba op)

  -- After the disk's interrupt.
  abbrev written : ℕ → ℕ → ℕ → Ide Hw
  written lba op buf = record s {
    channels = store s.channels hd.my_channel (rested (s.channels hd.my_channel));
    hw = (P.inb (base + 7) (flushed lba op buf)).1;
  }

  at_expecting : (hw : Hw) → (with_hw hw).channels hd.my_channel ≡ expecting
  at_expecting hw = store_same P s.channels hd.my_channel expecting

  port-expecting : (hw : Hw) (offset : ℕ) → port_of P (with_hw hw) hd offset ≡ base + offset
  port-expecting hw offset = ap (λ (k : IdeChannel). k.port_base + offset) (at_expecting hw)

  answered-flushed :
      (lba op buf : ℕ)
      → answered P (with_hw (flushed lba op buf)) hd.my_channel idle ≡ written lba op buf
  answered-flushed lba op buf =
      let c = hd.my_channel in
      rw
        (
          store_same P s.channels c expecting,
          store_twice P s.channels c expecting (rested (s.channels c)),
        )
        refl

  wait-flushed :
      (early : Bool) (running lba op buf : ℕ)
      → IsIdle hd.my_channel (s.channels hd.my_channel)
      → wait_disk P early running hd.my_channel (with_hw (flushed lba op buf))
        ≡ ok (written lba op buf)
  wait-flushed early running lba op buf h =
      let same = at_expecting (flushed lba op buf) in
      wait_disk_lem P early running hd.my_channel (with_hw (flushed lba op buf)) (rw same h.0)
        (rw same refl) (rw same h.1)
      ∙ ap ok (answered-flushed lba op buf)

  select-ok :
      (lba n : ℕ)
      → lba ≤ max_lba
      → select_sector P hd lba n s ≡ ok (record s { hw = sector_out P base hd.dev_no lba n s.hw })
  unfolding select_sector
  select-ok lba n small =
      let t : leb lba max_lba ≡ true = ground arith in
      rw t (
        ap (λ (b : ℕ). ok (record s { hw = sector_out P b hd.dev_no lba n s.hw }))
          (add_zero P hd s base))

  cmd-sent :
      (lba op : ℕ)
      → cmd_out P hd.my_channel 0x30
          (record s { hw = sector_out P base hd.dev_no lba (op % 2 ^ 8) s.hw })
        ≡ with_hw (command lba op)
  unfolding cmd_out
  cmd-sent lba op = refl

  write-flushed :
      (lba op buf : ℕ)
      → 0 < op
      → op ≤ 256
      → write2sector P hd buf (op % 2 ^ 8) (with_hw (ready_hw lba op))
        ≡ with_hw (flushed lba op buf)
  unfolding write2sector
  write-flushed lba op buf lo hi =
      ap (λ (b : ℕ). with_hw (outsw P b buf (words_in P (op % 2 ^ 8)) s.mem (ready_hw lba op)))
        (port-expecting (ready_hw lba op) 0 ∙ add_zero P hd s base)
      ∙ ap (λ (n : ℕ). with_hw (outsw P base buf n s.mem (ready_hw lba op)))
          (words_op P hd s op lo hi)

  -- The drive is still busy when the status is read behind a write command.
  abbrev pub Busy : (b : ℕ) → IsWriter P b hd.dev_no → Type 0
  Busy b disk =
      (hw : Hw) × (p : ℕ) × (n : ℕ) × disk.Started hw p n
      × ((bit_and (P.inb (b + 7) hw).0 0x80 == 0) ≡ false)

  module _ (disk : IsWriter P base hd.dev_no) where
    started :
        (lba op : ℕ)
        → lba ≤ max_lba
        → 0 < op
        → op ≤ 256
        → disk.Started (command lba op) (lba * 512) (suc (op * 256 - 1))
    started lba op small lo hi =
        subst (disk.Started (command lba op) (lba * 512)) (words_op P hd s op lo hi)
          (disk.selected s.hw lba (op % 2 ^ 8) small (omega arith)).0

    -- The drive is ready for the command's sectors.
    abbrev Begun : ℕ → ℕ → Type 0
    Begun lba op =
        (bit_and (P.inb (base + 7) (command lba op)).0 0x80 ≡ 0)
        × disk.Taking (P.inb (base + 7) (command lba op)).1 (lba * 512) (suc (op * 256 - 1))

    busy-ready :
        (fuel : ℕ) (reads : ℕ → ℕ) (lba op : ℕ)
        → Begun lba op
        → busy_wait P fuel reads hd (with_hw (command lba op))
          ≡ ok (true, with_hw (ready_hw lba op))
    busy-ready fuel reads lba op (free, at) =
        let n = op * 256 - 1 in
        let (h2, d2) = disk.status (P.inb (base + 7) (command lba op)).1 (lba * 512) n at in
        busy_wait-ready P fuel reads hd (with_hw (command lba op)) (base + 7)
          (port-expecting (command lba op) 7) free
        ∙ ap (λ (x : Bool). ok (not x, with_hw (ready_hw lba op))) d2

    -- One sector, or a drive without a pause.
    flows :
        (lba op : ℕ)
        → (1 < op → PromptWriter P base hd.dev_no disk)
        → Flows P base hd.dev_no disk (lba * 512) (suc (op * 256 - 1))
    flows lba op prompt hw q k above below whole there = elim (dec_lt 1 op) [
      | yes many ↦ prompt many hw q k there
      | no one ↦ absurd (omega (arith, one, above, below, whole))
    ]

    content-written :
        (lba op buf q : ℕ)
        → IsBytes s.mem
        → lba ≤ max_lba
        → 0 < op
        → op ≤ 256
        → (1 < op → PromptWriter P base hd.dev_no disk)
        → Begun lba op
        → disk.content (written lba op buf).hw q ≡ (
            if within (lba * 512) (op * 512) q
            then s.mem (buf + (q - lba * 512))
            else disk.content s.hw q)
    content-written lba op buf q bytes small lo hi prompt (free, at) =
        let n = op * 256 - 1 in
        let p = lba * 512 in
        let size : suc n * 2 ≡ op * 512 = omega arith in
        let (h2, d2) = disk.status (P.inb (base + 7) (command lba op)).1 p n at in
        let old : disk.content (ready_hw lba op) q ≡ disk.content s.hw q =
          disk.asked (P.inb (base + 7) (command lba op)).1 q
          ∙ disk.asked (command lba op) q
          ∙ (disk.selected s.hw lba (op % 2 ^ 8) small (omega arith)).1 q in
        disk.asked (flushed lba op buf) q
        ∙ outsw-content P base hd.dev_no disk n s.mem (ready_hw lba op) buf p bytes h2
            (flows lba op prompt) q
        ∙ ap
            (λ (z : ℕ).
              if within p z q then s.mem (buf + (q - p)) else disk.content (ready_hw lba op) q)
            size
        ∙ ap (λ (x : ℕ). if within p (op * 512) q then s.mem (buf + (q - p)) else x) old

    -- What one command leaves: its sectors on the disk.
    abbrev pub Moved : ℕ → ℕ → ℕ → Ide Hw → Type 0
    Moved lba buf op s' =
        (s'.channels ≡ store s.channels hd.my_channel (rested (s.channels hd.my_channel)))
        × (s'.mem ≡ s.mem)
        × (s'.kernel ≡ s.kernel)
        × ((q : ℕ)
            → disk.content s'.hw q ≡ (
                if within (lba * 512) (op * 512) q
                then s.mem (buf + (q - lba * 512))
                else disk.content s.hw q))

    round-panic :
        (fuel : ℕ) (reads : ℕ → ℕ) (early : Bool) (running lba buf op : ℕ)
        → lba ≤ max_lba
        → is_running (status s.kernel s.kernel.running) ≡ true
        → reads 1 ≡ reads 0
        → (bit_and (P.inb (base + 7) (command lba op)).0 0x80 == 0) ≡ false
        → write_round P (suc fuel) reads early running hd lba buf op s ≡ panic
    unfolding write_round
    round-panic fuel reads early running lba buf op small live still busy =
        let port = port-expecting (command lba op) 7 in
        let stop =
          busy_wait-panic P fuel reads hd (with_hw (command lba op)) (rw port busy) live still in
        rw (select-ok lba (op % 2 ^ 8) small, cmd-sent lba op, stop) refl

    -- One command moves its sectors to the disk, or the drive is busy.
    pub write_round_lem :
        (fuel : ℕ) (reads : ℕ → ℕ) (early : Bool) (running lba buf op : ℕ)
        → IsBytes s.mem
        → IsIdle hd.my_channel (s.channels hd.my_channel)
        → lba ≤ max_lba
        → 0 < op
        → op ≤ 256
        → is_running (status s.kernel s.kernel.running) ≡ true
        → reads 1 ≡ reads 0
        → (1 < op → PromptWriter P base hd.dev_no disk)
        → ((write_round P (suc fuel) reads early running hd lba buf op s ≡ panic) × Busy base disk)
          ⊎ ((s' : Ide Hw) × (write_round P (suc fuel) reads early running hd lba buf op s ≡ ok s')
              × Moved lba buf op s')
    unfolding write_round
    write_round_lem fuel reads early running lba buf op bytes h small lo hi live still prompt =
        let at = started lba op small lo hi in
        elim (disk.begun (command lba op) (lba * 512) (op * 256 - 1) at) [
          | inl busy ↦ inl (
            round-panic fuel reads early running lba buf op small live still busy,
            (command lba op, lba * 512, suc (op * 256 - 1), at, busy),
          )
          | inr begun ↦ inr (
            written lba op buf,
            rw
                (
                  select-ok lba (op % 2 ^ 8) small,
                  cmd-sent lba op,
                  busy-ready (suc fuel) reads lba op begun,
                  write-flushed lba op buf lo hi,
                )
                (wait-flushed early running lba op buf h),
            (refl, refl, refl, λ q. content-written lba op buf q bytes small lo hi prompt begun),
          )
        ]
