-- ===== src/Ide/Examples.antt =====
-- Instances, on a drive that answers at once: it has a register for each part of a sector's number,
-- the place of the next word, and the number of words left.
use geniux.Base.{
  inr, ◌∙◌, ap, store, ℕ, suc, ◌+◌, ◌-◌, ◌*◌, ◌/◌, ◌%◌, ◌^◌, ◌<◌, ◌≤◌, ◌≡◌, ◌⊎◌, inl, refl, true,
  false, ◌==◌, if◌then◌else◌, arith, Mem, ok, panic, out_of_fuel, [],
}
use geniux.Str.Blocks.{within}
use geniux.Thread.Examples.{kernel}
use geniux.Ide.{Ports, Ide, IdeChannel, Disk, wait_disk, busy_wait, sector_out, max_lba}
use geniux.Ide.Writer.{IsWriter}
use geniux.Ide.Return.{IsDrive}
use geniux.Ide.Data.{IsDisk}
use geniux.Ide.Waiting.{idle, signalled, answered, wait_disk_lem, busy_wait-panic}
use geniux.Ide.Pairs.{swap_pairs_bytes, even, flip, swap_pairs_bytes_lem}
use geniux.Malloc.Examples.{sized}
use geniux.Ide.Partitions.{Scan, Search}

record Drive : Type 0 where
  sec_cnt : ℕ
  low : ℕ
  mid : ℕ
  high : ℕ
  place : ℕ
  left : ℕ
  stored : ℕ → ℕ

-- The byte at `p` of the drive.
abbrev content : ℕ → ℕ
content p = p % 251

abbrev out : ℕ → ℕ → Drive → Drive
out port b d =
    if port == 0x1f2
    then record d { sec_cnt = b }
    else if port == 0x1f3
    then record d { low = b }
    else if port == 0x1f4
    then record d { mid = b }
    else if port == 0x1f5
    then record d { high = b }
    else if port == 0x1f7
    then record d {
      place = (d.low + 2 ^ 8 * d.mid + 2 ^ 16 * d.high) * 512;
      left = (if d.sec_cnt == 0 then 256 * 512 / 2 else d.sec_cnt * 512 / 2);
    }
    else d

abbrev ports : Ports Drive
ports = record {
  outb = out;
  inb = λ port d. ((if d.left == 0 then 0x40 else 0x48), d);
  outw = λ port w d. record d {
    place = d.place + 2;
    left = d.left - 1;
    stored = store (store d.stored (d.place + 1) (w / 256 % 256)) d.place (w % 256);
  };
  inw = λ port d. (
    d.stored d.place % 256 + 256 * (d.stored (d.place + 1) % 256),
    record d { place = d.place + 2; left = d.left - 1 },
  );
}

drive-selected :
    (d : Drive) (lba cnt : ℕ)
    → lba ≤ max_lba
    → cnt < 256
    → ((out 0x1f7 0x20 (sector_out ports 0x1f0 0 lba cnt d)).place ≡ lba * 512)
      × ((out 0x1f7 0x20 (sector_out ports 0x1f0 0 lba cnt d)).left
          ≡ (if cnt == 0 then 256 * 512 / 2 else cnt * 512 / 2))
unfolding sector_out
drive-selected d lba cnt small byte = (omega arith, refl)

drive-taking :
    (d : Drive) (lba cnt : ℕ)
    → lba ≤ max_lba
    → cnt < 256
    → ((out 0x1f7 0x30 (sector_out ports 0x1f0 0 lba cnt d)).place ≡ lba * 512)
      × ((out 0x1f7 0x30 (sector_out ports 0x1f0 0 lba cnt d)).left
          ≡ (if cnt == 0 then 256 * 512 / 2 else cnt * 512 / 2))
unfolding sector_out
drive-taking d lba cnt small byte = (omega arith, refl)

not_empty : (d : Drive) (n : ℕ) → d.left ≡ suc n → (d.left == 0) ≡ false
not_empty d n h = ground arith

drive-kept :
    (d : Drive) (cmd lba cnt : ℕ)
    → (out 0x1f7 cmd (sector_out ports 0x1f0 0 lba cnt d)).stored ≡ d.stored
unfolding sector_out
drive-kept d cmd lba cnt = refl

-- Place and number of the words to come, and the bytes.
abbrev GivesAt : (ℕ → ℕ) → Drive → ℕ → ℕ → Type 0
GivesAt f d p n = (d.place ≡ p) × (d.left ≡ n) × ((q : ℕ) → d.stored q % 256 ≡ f q)

-- The drive as one that has the bytes `f`: it is never busy.
abbrev reader : (f : ℕ → ℕ) → ((q : ℕ) → f q < 256) → IsDisk ports 0x1f0 0 f
reader f bytes = record {
  Good = λ d. (q : ℕ) → d.stored q % 256 ≡ f q;
  Sought = GivesAt f;
  At = GivesAt f;
  Between = GivesAt f;
  chosen = λ d b held. held;
  done = λ d p n at. at.2;
  selected = λ d lba cnt held small byte.
      let (at, left) = drive-selected d lba cnt small byte in
      (at, left, λ q. ap (λ (m : ℕ → ℕ). m q % 256) (drive-kept d 0x20 lba cnt) ∙ held q);
  interrupt = λ d p n at. at;
  status = λ d p n at. (at, rw (not_empty d n at.1) refl, rw (not_empty d n at.1) refl);
  word = λ d p n at. (
    rw (at.0, at.2 p, at.2 (p + 1)) refl,
    λ inside. (omega (arith, at.0), omega (arith, at.1), at.2),
    λ over. (omega (arith, at.0), omega (arith, at.1), at.2),
  );
  bytes = bytes;
}

abbrev channel : IdeChannel
channel = record {
  port_base = 0x1f0;
  irq_no = 0x2e;
  lock = record {
    holder = 0;
    semaphore = record { value = 1; waiters = [] };
    holder_repeat_nr = 0;
  };
  expecting_intr = false;
  disk_done = idle;
}

abbrev disk : Disk
disk = record { my_channel = 0; dev_no = 0 }

abbrev start : Ide Drive
start = record {
  channels = λ _. channel;
  hw = record { sec_cnt = 0; low = 0; mid = 0; high = 0; place = 0; left = 0; stored = content };
  mem = λ _. 0;
  kernel = kernel;
}

abbrev TakesAt : Drive → ℕ → ℕ → Type 0
TakesAt d p n = (d.place ≡ p) × (d.left ≡ n)

abbrev writer : IsWriter ports 0x1f0 0
writer = record {
  content = λ d q. d.stored q % 256;
  Started = TakesAt;
  Taking = TakesAt;
  Between = TakesAt;
  chosen = λ d b q. refl;
  selected = λ d lba cnt small byte. (
    drive-taking d lba cnt small byte,
    λ q. ap (λ (m : ℕ → ℕ). m q % 256) (drive-kept d 0x30 lba cnt),
  );
  asked = λ d q. refl;
  begun = λ d p n at. inr (rw (not_empty d n at.1) refl, at);
  status = λ d p n at. (at, rw (not_empty d n at.1) refl);
  word = λ d p n w at. (
    λ inside. (omega (arith, at.0), omega (arith, at.1)),
    λ over. (omega (arith, at.0), omega (arith, at.1)),
    λ q. ground (arith, at.0),
  );
}

-- 300 sectors are written, from a memory that is not empty.
abbrev full : Ide Drive
full = record start { mem = λ a. a % 256 }

abbrev drive : IsDrive ports 0x1f0 0
drive = record {
  writer = writer;
  bytes = λ d q. omega arith;
  reader = reader;
  holds = λ f b d same. same;
}

-- A command was sent.
abbrev asked : Ide Drive
asked = record start { channels = λ _. record channel { expecting_intr = true } }

wait_disk_example : wait_disk ports false 4096 0 asked ≡ ok (answered ports asked 0 idle)
wait_disk_example = wait_disk_lem ports false 4096 0 asked (omega arith) refl refl

abbrev raised : Ide Drive
raised = record start {
  channels = λ _. record channel { expecting_intr = true; disk_done = signalled };
}

-- A drive that is always busy.
abbrev busy_ports : Ports Drive
busy_ports = record ports { inb = λ port d. (0x80, d) }

busy_wait_example : busy_wait busy_ports 5 (λ n. 7) disk start ≡ panic
busy_wait_example = busy_wait-panic busy_ports 4 (λ n. 7) disk start refl refl refl

swap_pairs_example :
    ((20 ≤ 254)
      × ((m' : Mem) × (swap_pairs_bytes 21 (λ a. a) 16 64 20 ≡ ok m')
          × ((q : ℕ) → m' q ≡ (if within 64 (even 20) q then 16 + flip (q - 64) else q))))
    ⊎ ((254 < 20) × (swap_pairs_bytes 21 (λ a. a) 16 64 20 ≡ out_of_fuel))
swap_pairs_example = swap_pairs_bytes_lem 21 (λ a. a) 16 64 20 (omega arith) (inl (omega arith))

abbrev nothing_found : Scan
nothing_found = record { ext_lba_base = 0; p_no = 0; l_no = 0; partition_list = [] }

-- A table with one entry used.
abbrev one_used : ℕ → ℕ
one_used p = if p == 450 then 0x83 else if p == 454 then 63 else if p == 458 then 100 else 0

abbrev searching : Search Drive
searching = record {
  ide = record start { hw = record start.hw { stored = one_used } };
  heap = sized;
  scan = nothing_found;
}
