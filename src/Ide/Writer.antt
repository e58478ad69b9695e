-- ===== src/Ide/Writer.antt =====
-- What the driver of device/ide.c relies on of a disk that it writes, and the words that it moves.
use geniux.Base.{
  ℕ, zero, suc, ◌+◌, ◌-◌, ◌*◌, ◌/◌, ◌%◌, ◌<◌, ◌≤◌, ◌≡◌, ◌≢◌, ◌⊎◌, ◌∙◌, ap, false, ◌==◌,
  if◌then◌else◌, Mem, IsBytes, bit_and, arith, dec_lt, ℕ_discrete,
}
use geniux.Str.Blocks.{within}
use geniux.Ide.{Ports, outsw, sector_out, words_in, max_lba}

-- A disk behind the ports from `base` on, by the ATA command WRITE SECTORS. `content hw` are its
-- bytes, as a read would give them.
-- * `Started hw p n`: it has taken a command for `n` words to byte `p` on. At a read of the status it
--   is still busy, or it is ready for the first sector.
-- * `Taking hw p n`: the next word written to the data port goes to byte `p`, and `n` words are due.
--   The status is DRQ and not BSY.
-- * `Between hw p n`: it has the last word of a sector, and may be busy with it; it will interrupt.
-- Commands, selections and reads of the status change no byte.
pub record IsWriter {Hw : Type 0} (P : Ports Hw) (base dev_no : ℕ) : Type 1 where
  pub content : Hw → ℕ → ℕ
  pub Started : Hw → ℕ → ℕ → Type 0
  pub Taking : Hw → ℕ → ℕ → Type 0
  pub Between : Hw → ℕ → ℕ → Type 0
  pub chosen : (hw : Hw) (b q : ℕ) → content (P.outb (base + 6) b hw) q ≡ content hw q
  pub selected :
      (hw : Hw) (lba sec_cnt : ℕ)
      → lba ≤ max_lba
      → sec_cnt < 256
      → Started
          (P.outb (base + 7) 0x30 (sector_out P base dev_no lba sec_cnt hw))
          (lba * 512)
          (words_in P sec_cnt)
        × ((q : ℕ)
            → content (P.outb (base + 7) 0x30 (sector_out P base dev_no lba sec_cnt hw)) q
              ≡ content hw q)
  pub asked : (hw : Hw) (q : ℕ) → content (P.inb (base + 7) hw).1 q ≡ content hw q
  pub begun :
      (hw : Hw) (p n : ℕ)
      → Started hw p (suc n)
      → ((bit_and (P.inb (base + 7) hw).0 0x80 == 0) ≡ false)
        ⊎ ((bit_and (P.inb (base + 7) hw).0 0x80 ≡ 0) × Taking (P.inb (base + 7) hw).1 p (suc n))
  pub status :
      (hw : Hw) (p n : ℕ)
      → Taking hw p (suc n)
      → Taking (P.inb (base + 7) hw).1 p (suc n)
        × ((bit_and (P.inb (base + 7) hw).0 8 == 0) ≡ false)
  pub word :
      (hw : Hw) (p n w : ℕ)
      → Taking hw p (suc n)
      → (((p + 2) % 512 ≢ 0) → Taking (P.outw base w hw) (p + 2) n)
        × (((p + 2) % 512 ≡ 0) → Between (P.outw base w hw) (p + 2) n)
        × ((q : ℕ)
            → content (P.outw base w hw) q
              ≡ (if q == p then w % 256 else if q == p + 1 then w / 256 % 256 else content hw q))

-- The drive takes the next sector of a command at once behind the one before, and interrupts once for
-- the command, as one with a buffer for all of them: WRITE SECTORS does not promise this, and the
-- driver, which does not wait between the sectors of a command, depends on it for more than one.
abbrev pub PromptWriter :
    {Hw : Type 0} → (P : Ports Hw) (base dev_no : ℕ) → IsWriter P base dev_no → Type 0
PromptWriter {Hw} P base dev_no disk =
    (hw : Hw) (p n : ℕ) → disk.Between hw p (suc n) → disk.Taking hw p (suc n)

ahead : (p addr q : ℕ) → p + 2 ≤ q → addr + 2 + (q - (p + 2)) ≡ addr + (q - p)
ahead p addr q h = omega arith

-- Two bytes, and those behind them.
two_more :
    (m : Mem) (addr p n q low high old : ℕ)
    → low ≡ m addr
    → high ≡ m (addr + 1)
    → (if within (p + 2) (n * 2) q
        then m (addr + 2 + (q - (p + 2)))
        else (if q == p then low else if q == p + 1 then high else old))
      ≡ (if within p (suc n * 2) q then m (addr + (q - p)) else old)
two_more m addr p n q low high old el eh = elim (dec_lt q (p + 2)) [
  | yes before ↦ elim (ℕ_discrete q p) [
    | yes e ↦ let z : addr + (q - p) ≡ addr = omega arith in ground (arith, ap m z)
    | no ne ↦ elim (ℕ_discrete q (p + 1)) [
      | yes e ↦ let z : addr + (q - p) ≡ addr + 1 = omega arith in ground (arith, ap m z)
      | no ne' ↦ ground arith
    ]
  ]
  | no behind ↦ ground (arith, ap m (ahead p addr q (omega arith)))
]

module _ {Hw : Type 0} (P : Ports Hw) (base dev_no : ℕ) (disk : IsWriter P base dev_no) where
  -- The words to `p` on are taken without a pause: they are in one sector, or the drive makes none.
  abbrev pub Flows : ℕ → ℕ → Type 0
  Flows p n =
      (hw : Hw) (q k : ℕ)
      → p < q
      → q < p + n * 2
      → q % 512 ≡ 0
      → disk.Between hw q (suc k)
      → disk.Taking hw q (suc k)

  -- What is due of a command.
  Due : Hw → ℕ → ℕ → Type 0
  Due hw p zero = Unit
  Due hw p (suc n) = disk.Taking hw p (suc n)

  next :
      (hw : Hw) (p n w : ℕ)
      → disk.Taking hw p (suc n)
      → Flows p (suc n)
      → Due (P.outw base w hw) (p + 2) n
  unfolding Due
  next hw p zero w at flow = tt
  next hw p (suc n) w at flow =
      let (inside, over, changed) = disk.word hw p (suc n) w at in
      elim (ℕ_discrete ((p + 2) % 512) 0) [
        | yes e ↦ flow (P.outw base w hw) (p + 2) n (omega arith) (omega arith) e (over e)
        | no ne ↦ inside ne
      ]

  words-content :
      (n : ℕ) (m : Mem) (hw : Hw) (addr p : ℕ)
      → IsBytes m
      → Due hw p n
      → Flows p n
      → (q : ℕ)
      → disk.content (outsw P base addr n m hw) q
        ≡ (if within p (n * 2) q then m (addr + (q - p)) else disk.content hw q)
  unfolding outsw Due
  words-content zero m hw addr p bytes at flow q = ground arith
  words-content (suc n) m hw addr p bytes at flow q =
      let w = m addr + 256 * m (addr + 1) in
      let low : m addr < 256 = bytes addr in
      let high : m (addr + 1) < 256 = bytes (addr + 1) in
      let changed = (disk.word hw p n w at).2 in
      words-content n m (P.outw base w hw) (addr + 2) (p + 2) bytes (next hw p n w at flow)
        (λ hw q k lo hi. flow hw q k (omega (arith, lo)) (omega (arith, hi))) q
      ∙ ap (λ (x : ℕ). if within (p + 2) (n * 2) q then m (addr + 2 + (q - (p + 2))) else x)
          (changed q)
      ∙ two_more m addr p n q (w % 256) (w / 256 % 256) (disk.content hw q) (omega (arith, low))
          (omega (arith, low, high))

  -- `rep outsw` moves bytes of memory to the disk.
  pub outsw-content :
      (n : ℕ) (m : Mem) (hw : Hw) (addr p : ℕ)
      → IsBytes m
      → disk.Taking hw p (suc n)
      → Flows p (suc n)
      → (q : ℕ)
      → disk.content (outsw P base addr (suc n) m hw) q
        ≡ (if within p (suc n * 2) q then m (addr + (q - p)) else disk.content hw q)
  unfolding Due
  outsw-content n m hw addr p bytes at flow q = words-content (suc n) m hw addr p bytes at flow q
