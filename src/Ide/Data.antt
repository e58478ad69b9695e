-- ===== src/Ide/Data.antt =====
-- What the driver of device/ide.c relies on of a disk, and the words that it moves.
use geniux.Base.{
  ℕ, zero, suc, ◌+◌, ◌-◌, ◌*◌, ◌/◌, ◌%◌, ◌<◌, ◌≤◌, ◌≡◌, ◌≢◌, ◌∙◌, ap, false, ◌==◌, if◌then◌else◌,
  store, Mem, bit_and, arith, dec_lt, ℕ_discrete,
}
use geniux.Str.Blocks.{within}
use geniux.Ide.{Ports, insw, sector_out, words_in, max_lba}

-- A disk behind the ports from `base` on, by the ATA command READ SECTORS; `Good hw`: its bytes are
-- `content`.
-- * `Sought hw p n`: it has taken a command for `n` words from byte `p` on, and may be busy. When it
--   has the first sector it interrupts, and the read of the status in the handler leaves it `At`.
-- * `At hw p n`: the next word that the data port gives is that at byte `p`, and `n` words are left.
--   The status is DRQ and not BSY, and reading it takes no word.
-- * `Between hw p n`: it has given the last word of a sector, and may be busy with the next one.
-- The interrupts of further sectors find nothing expected (`intr_hd_handler-ignored`).
pub record IsDisk {Hw : Type 0} (P : Ports Hw) (base dev_no : ℕ) (content : ℕ → ℕ) : Type 1 where
  pub Good : Hw → Type 0
  pub Sought : Hw → ℕ → ℕ → Type 0
  pub At : Hw → ℕ → ℕ → Type 0
  pub Between : Hw → ℕ → ℕ → Type 0
  pub chosen : (hw : Hw) (b : ℕ) → Good hw → Good (P.outb (base + 6) b hw)
  pub done : (hw : Hw) (p n : ℕ) → Between hw p n → Good hw
  pub selected :
      (hw : Hw) (lba sec_cnt : ℕ)
      → Good hw
      → lba ≤ max_lba
      → sec_cnt < 256
      → Sought
          (P.outb (base + 7) 0x20 (sector_out P base dev_no lba sec_cnt hw))
          (lba * 512)
          (words_in P sec_cnt)
  pub interrupt : (hw : Hw) (p n : ℕ) → Sought hw p (suc n) → At (P.inb (base + 7) hw).1 p (suc n)
  pub status :
      (hw : Hw) (p n : ℕ)
      → At hw p (suc n)
      → At (P.inb (base + 7) hw).1 p (suc n)
        × (bit_and (P.inb (base + 7) hw).0 0x80 ≡ 0)
        × ((bit_and (P.inb (base + 7) hw).0 8 == 0) ≡ false)
  pub word :
      (hw : Hw) (p n : ℕ)
      → At hw p (suc n)
      → ((P.inw base hw).0 ≡ content p + 256 * content (p + 1))
        × (((p + 2) % 512 ≢ 0) → At (P.inw base hw).1 (p + 2) n)
        × (((p + 2) % 512 ≡ 0) → Between (P.inw base hw).1 (p + 2) n)
  pub bytes : (p : ℕ) → content p < 256

-- The drive has the next sector of a command ready when the last word of the one before is read, as
-- one with a buffer for all of them: it makes no pause between sectors. READ SECTORS does not
-- promise this, and the driver, which does not look at the status between the sectors of a command,
-- depends on it for more than one.
abbrev pub Prompt :
    {Hw : Type 0}
    → (P : Ports Hw) (base dev_no : ℕ) (content : ℕ → ℕ) → IsDisk P base dev_no content
    → Type 0
Prompt {Hw} P base dev_no content disk =
    (hw : Hw) (p n : ℕ) → disk.Between hw p (suc n) → disk.At hw p (suc n)

ahead : (p addr q : ℕ) → addr + 2 ≤ q → p + 2 + (q - (addr + 2)) ≡ p + (q - addr)
ahead p addr q h = omega arith

-- Two bytes, and those behind them.
two_more :
    (content : ℕ → ℕ) (m : Mem) (addr p n q low high : ℕ)
    → low ≡ content p
    → high ≡ content (p + 1)
    → (if within (addr + 2) (n * 2) q
        then content (p + 2 + (q - (addr + 2)))
        else store (store m addr low) (addr + 1) high q)
      ≡ (if within addr (suc n * 2) q then content (p + (q - addr)) else m q)
two_more content m addr p n q low high el eh = elim (dec_lt q (addr + 2)) [
  | yes before ↦ elim (ℕ_discrete q addr) [
    | yes e ↦ let z : p + (q - addr) ≡ p = omega arith in ground (arith, ap content z)
    | no ne ↦ elim (ℕ_discrete q (addr + 1)) [
      | yes e ↦ let z : p + (q - addr) ≡ p + 1 = omega arith in ground (arith, ap content z)
      | no ne' ↦ ground arith
    ]
  ]
  | no behind ↦ ground (arith, ap content (ahead p addr q (omega arith)))
]

module _ {Hw : Type 0} (P : Ports Hw) (base dev_no : ℕ) (content : ℕ → ℕ)
    (disk : IsDisk P base dev_no content) where
  -- The words from `p` on come without a pause: they are in one sector, or the drive makes none.
  abbrev pub Flows : ℕ → ℕ → Type 0
  Flows p n =
      (hw : Hw) (q k : ℕ)
      → p < q
      → q < p + n * 2
      → q % 512 ≡ 0
      → disk.Between hw q (suc k)
      → disk.At hw q (suc k)

  -- What is left of a command.
  Left : Hw → ℕ → ℕ → Type 0
  Left hw p zero = disk.Good hw
  Left hw p (suc n) = disk.At hw p (suc n)

  next :
      (hw : Hw) (p n : ℕ)
      → disk.At hw p (suc n)
      → Flows p (suc n)
      → p % 2 ≡ 0
      → (((p + suc n * 2) % 512) ≡ 0)
      → Left (P.inw base hw).1 (p + 2) n
  unfolding Left
  next hw p zero at flow even whole =
      disk.done (P.inw base hw).1 (p + 2) 0 ((disk.word hw p 0 at).2 (omega (arith, whole)))
  next hw p (suc n) at flow even whole =
      let (same, inside, over) = disk.word hw p (suc n) at in
      elim (ℕ_discrete ((p + 2) % 512) 0) [
        | yes e ↦ flow (P.inw base hw).1 (p + 2) n (omega arith) (omega arith) e (over e)
        | no ne ↦ inside ne
      ]

  -- `rep insw` moves the disk's bytes to memory, up to the end of a sector.
  words-content :
      (n : ℕ) (m : Mem) (hw : Hw) (addr p : ℕ)
      → Left hw p n
      → Flows p n
      → p % 2 ≡ 0
      → ((p + n * 2) % 512) ≡ 0
      → disk.Good (insw P base addr n m hw).1
        × ((q : ℕ)
            → (insw P base addr n m hw).0 q
              ≡ (if within addr (n * 2) q then content (p + (q - addr)) else m q))
  unfolding insw Left
  words-content zero m hw addr p at flow even whole = (at, λ q. ground arith)
  words-content (suc n) m hw addr p at flow even whole =
      let w = (P.inw base hw).0 in
      let value : w ≡ content p + 256 * content (p + 1) = (disk.word hw p n at).0 in
      let low : content p < 256 = disk.bytes p in
      let high : content (p + 1) < 256 = disk.bytes (p + 1) in
      let (good, ih) =
        words-content n (store (store m addr (w % 256)) (addr + 1) (w / 256 % 256))
          (P.inw base hw).1 (addr + 2) (p + 2) (next hw p n at flow even whole)
          (λ hw q k lo hi. flow hw q k (omega (arith, lo)) (omega (arith, hi)))
          (omega (arith, even)) (omega (arith, whole)) in
      (
        good,
        λ q.
            ih q
            ∙ two_more content m addr p n q (w % 256) (w / 256 % 256)
                (omega (arith, value, low, high)) (omega (arith, value, low, high)),
      )

  pub insw-content :
      (n : ℕ) (m : Mem) (hw : Hw) (addr p : ℕ)
      → disk.At hw p (suc n)
      → Flows p (suc n)
      → p % 2 ≡ 0
      → ((p + suc n * 2) % 512) ≡ 0
      → disk.Good (insw P base addr (suc n) m hw).1
        × ((q : ℕ)
            → (insw P base addr (suc n) m hw).0 q
              ≡ (if within addr (suc n * 2) q then content (p + (q - addr)) else m q))
  unfolding Left
  insw-content n m hw addr p at flow even whole =
      words-content (suc n) m hw addr p at flow even whole
