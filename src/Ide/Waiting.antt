-- ===== src/Ide/Waiting.antt =====
-- The wait for a disk of device/ide.c: the interrupt and the semaphore `disk_done`.
use geniux.Base.{
  ℕ, suc, ◌+◌, ◌-◌, ◌<◌, ◌≡◌, inl, refl, ap, sym, ◌∙◌, Bool, true, false, not, ◌==◌, if◌then◌else◌,
  store, bit_and, arith, Option, none, some, ok, panic, ◌||◌, ==_refl, [], ◌∷◌, fun_ext,
}
use geniux.Sync.{Semaphore, sema_down, sema_up}
use geniux.Thread.{is_running}
use geniux.Thread.Invariant.{status}
use geniux.Timer.{mtime_sleep}
use geniux.Timer.Laws.{mtime_sleep-panic}
use geniux.Ide.{
  Ports, Ide, IdeChannel, Disk, port_of, intr_hd_handler, down_disk, wait_disk, busy_wait,
  busy_rounds, with_channel,
}

-- Nobody waits, and no interrupt is pending.
abbrev pub idle : Semaphore
idle = record { value = 0; waiters = [] }

-- An interrupt has come that nobody has waited for.
abbrev pub signalled : Semaphore
signalled = record { value = 1; waiters = [] }

-- The channel is one of the two that `ide_init` sets up.
abbrev pub IsChannel : ℕ → IdeChannel → Type 0
IsChannel c k = (k.irq_no ≡ 0x2e + c) × (c < 2)

module _ {Hw : Type 0} (P : Ports Hw) where
  pub store_same : (f : ℕ → IdeChannel) (c : ℕ) (k : IdeChannel) → store f c k c ≡ k
  store_same f c k = rw (==_refl c) refl

  pub store_twice :
      (f : ℕ → IdeChannel) (c : ℕ) (j k : IdeChannel) → store (store f c j) c k ≡ store f c k
  store_twice f c j k = fun_ext λ q. twice (c == q) k j (f q)
    where
      twice :
          (b : Bool) (x y z : IdeChannel)
          → (if b then x else (if b then y else z)) ≡ (if b then x else z)
      twice true x y z = refl
      twice false x y z = refl

  -- The state with the status read and the given semaphore.
  abbrev pub answered : Ide Hw → ℕ → Semaphore → Ide Hw
  answered s c sem = record s {
    channels =
        store s.channels c (record (s.channels c) { expecting_intr = false; disk_done = sem });
    hw = (P.inb ((s.channels c).port_base + 7) s.hw).1;
  }

  handler-answered :
      (n c : ℕ) (s : Ide Hw) (woken : Option ℕ) (sem : Semaphore)
      → n ≡ (s.channels c).irq_no
      → IsChannel c (s.channels c)
      → (s.channels c).expecting_intr ≡ true
      → sema_up (s.channels c).disk_done ≡ ok (woken, sem)
      → intr_hd_handler P n s ≡ ok (answered s c sem)
  unfolding intr_hd_handler
  handler-answered n c s woken sem same (irq, small) expecting up =
      let at : n - 0x20 - 0xe ≡ c = omega arith in
      let known : ((n == 0x2e) || (n == 0x2f)) ≡ true = ground arith in
      let own : ((s.channels c).irq_no == n) ≡ true = ground arith in
      rw (known, at, own, expecting, up) refl

  -- An interrupt that nothing expects changes nothing.
  pub intr_hd_handler-ignored :
      (n c : ℕ) (s : Ide Hw)
      → n ≡ (s.channels c).irq_no
      → IsChannel c (s.channels c)
      → (s.channels c).expecting_intr ≡ false
      → intr_hd_handler P n s ≡ ok s
  unfolding intr_hd_handler
  intr_hd_handler-ignored n c s same (irq, small) quiet =
      let at : n - 0x20 - 0xe ≡ c = omega arith in
      let known : ((n == 0x2e) || (n == 0x2f)) ≡ true = ground arith in
      let own : ((s.channels c).irq_no == n) ≡ true = ground arith in
      rw (known, at, own, quiet) refl

  down-signalled :
      (running c : ℕ) (s : Ide Hw)
      → (s.channels c).disk_done ≡ signalled
      → down_disk P running c s
        ≡ ok (true, with_channel P s c (record (s.channels c) { disk_done = idle }))
  unfolding down_disk sema_down
  down-signalled running c s free = rw free refl

  down-answered :
      (running c : ℕ) (s : Ide Hw)
      → down_disk P running c (answered s c signalled) ≡ ok (true, answered s c idle)
  down-answered running c s =
      let k = record (s.channels c) { expecting_intr = false; disk_done = signalled } in
      let same = store_same s.channels c k in
      down-signalled running c (answered s c signalled) (ap (λ j. j.disk_done) same)
      ∙ ap
          (λ j.
            ok (true, with_channel P (answered s c signalled) c (record j { disk_done = idle })))
          same
      ∙ ap (λ f. ok (true, record (answered s c idle) { channels = f }))
          (store_twice s.channels c k (record k { disk_done = idle }))

  -- The thread sleeps before the interrupt comes.
  abbrev sleeper : ℕ → Ide Hw → ℕ → Ide Hw
  sleeper running s c =
      with_channel P s c
        (record (s.channels c) { disk_done = record { value = 0; waiters = running ∷ [] } })

  down-sleeper :
      (running c : ℕ) (s : Ide Hw)
      → (s.channels c).disk_done ≡ idle
      → down_disk P running c s ≡ ok (false, sleeper running s c)
  unfolding down_disk sema_down
  down-sleeper running c s free = rw free refl

  answered-sleeper :
      (running c : ℕ) (s : Ide Hw) (sem : Semaphore)
      → answered (sleeper running s c) c sem ≡ answered s c sem
  answered-sleeper running c s sem =
      let k = record (s.channels c) { disk_done = record { value = 0; waiters = running ∷ [] } } in
      rw
        (
          store_same s.channels c k,
          store_twice s.channels c k (record k { expecting_intr = false; disk_done = sem }),
        )
        refl

  -- A wait for a command that was sent ends the same whether the interrupt comes early or late: the
  -- status has been read once, nothing is expected any more, and `disk_done` is as before.
  pub wait_disk_lem :
      (early : Bool) (running c : ℕ) (s : Ide Hw)
      → IsChannel c (s.channels c)
      → (s.channels c).expecting_intr ≡ true
      → (s.channels c).disk_done ≡ idle
      → wait_disk P early running c s ≡ ok (answered s c idle)
  unfolding wait_disk sema_up
  wait_disk_lem true running c s h expecting free =
      rw
        (
          handler-answered (s.channels c).irq_no c s none signalled refl h expecting (up free),
          down-answered running c s,
        )
        refl
    where
      up : (s.channels c).disk_done ≡ idle → sema_up (s.channels c).disk_done ≡ ok (none, signalled)
      up e = rw e refl
  wait_disk_lem false running c s h expecting free =
      let s2 = sleeper running s c in
      let k : s2.channels c
          ≡ record (s.channels c) { disk_done = record { value = 0; waiters = running ∷ [] } } =
        store_same s.channels c _ in
      let h2 : IsChannel c (s2.channels c) = rw k h in
      let x2 : (s2.channels c).expecting_intr ≡ true = rw k expecting in
      let up : sema_up (s2.channels c).disk_done ≡ ok (some running, signalled) = rw k refl in
      rw
        (
          down-sleeper running c s free,
          handler-answered (s.channels c).irq_no c s2 (some running) signalled
              (sym (ap (λ j. j.irq_no) k)) h2 x2 up,
          down-answered running c s2,
        )
        (ap ok (answered-sleeper running c s idle))

  rounds-ready :
      (left fuel : ℕ) (reads : ℕ → ℕ) (s : Ide Hw) (port : ℕ)
      → bit_and (P.inb port s.hw).0 0x80 ≡ 0
      → busy_rounds P (suc left) fuel reads port s
        ≡ ok (
          not (bit_and (P.inb port (P.inb port s.hw).1).0 8 == 0),
          record s { hw = (P.inb port (P.inb port s.hw).1).1 },
        )
  unfolding busy_rounds
  rounds-ready left fuel reads s port free = rw free refl

  rounds-panic :
      (left fuel : ℕ) (reads : ℕ → ℕ) (s : Ide Hw) (port : ℕ)
      → (bit_and (P.inb port s.hw).0 0x80 == 0) ≡ false
      → mtime_sleep fuel reads 10 s.kernel ≡ panic
      → busy_rounds P (suc left) fuel reads port s ≡ panic
  unfolding busy_rounds
  rounds-panic left fuel reads s port busy stop = rw (busy, stop) refl

  -- A disk that is not busy is asked once more, for DRQ.
  pub busy_wait-ready :
      (fuel : ℕ) (reads : ℕ → ℕ) (hd : Disk) (s : Ide Hw) (port : ℕ)
      → port_of P s hd 7 ≡ port
      → bit_and (P.inb port s.hw).0 0x80 ≡ 0
      → busy_wait P fuel reads hd s
        ≡ ok (
          not (bit_and (P.inb port (P.inb port s.hw).1).0 8 == 0),
          record s { hw = (P.inb port (P.inb port s.hw).1).1 },
        )
  unfolding busy_wait
  busy_wait-ready fuel reads hd s port at free =
      ap (λ n. busy_rounds P 29999 fuel reads n s) at ∙ rounds-ready 29998 fuel reads s port free

  -- A disk that is still busy at the first look, while the clock stands still and the caller is
  -- marked as running: the wait does not wait, it fails the ASSERT of the sleeping call.
  pub busy_wait-panic :
      (fuel : ℕ) (reads : ℕ → ℕ) (hd : Disk) (s : Ide Hw)
      → (bit_and (P.inb (port_of P s hd 7) s.hw).0 0x80 == 0) ≡ false
      → is_running (status s.kernel s.kernel.running) ≡ true
      → reads 1 ≡ reads 0
      → busy_wait P (suc fuel) reads hd s ≡ panic
  unfolding busy_wait
  busy_wait-panic fuel reads hd s busy live still =
      let stop =
        mtime_sleep-panic fuel reads 10 s.kernel live (omega arith) (inl (omega (arith, still))) in
      rounds-panic 29998 (suc fuel) reads s (port_of P s hd 7) busy stop

  handler-panic :
      (n c : ℕ) (s : Ide Hw)
      → n ≡ (s.channels c).irq_no
      → IsChannel c (s.channels c)
      → (s.channels c).expecting_intr ≡ true
      → (s.channels c).disk_done ≡ signalled
      → intr_hd_handler P n s ≡ panic
  unfolding intr_hd_handler sema_up
  handler-panic n c s same (irq, small) expecting pending =
      let at : n - 0x20 - 0xe ≡ c = omega arith in
      let known : ((n == 0x2e) || (n == 0x2f)) ≡ true = ground arith in
      let own : ((s.channels c).irq_no == n) ≡ true = ground arith in
      rw (known, at, own, expecting, pending) refl

  -- With `disk_done` already raised, as by the interrupt of an earlier command, a wait goes
  -- wrong: an interrupt that comes early fails an ASSERT, and else the thread does not wait for its
  -- own command, which stays expected.
  pub wait_disk-pending :
      (running c : ℕ) (s : Ide Hw)
      → IsChannel c (s.channels c)
      → (s.channels c).expecting_intr ≡ true
      → (s.channels c).disk_done ≡ signalled
      → (wait_disk P true running c s ≡ panic)
        × (wait_disk P false running c s
            ≡ ok (with_channel P s c (record (s.channels c) { disk_done = idle })))
  unfolding wait_disk
  wait_disk-pending running c s h expecting pending = (
    rw (handler-panic (s.channels c).irq_no c s refl h expecting pending) refl,
    rw (down-signalled running c s pending) refl,
  )
