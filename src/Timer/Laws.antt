-- ===== src/Timer/Laws.antt =====
-- What the clock of device/timer.c does.
use geniux.Base.{
  ℕ, suc, ◌+◌, ◌-◌, ◌*◌, ◌%◌, ◌^◌, ◌<◌, ◌≤◌, ◌≡◌, ◌↔◌, refl, sym, ◌∙◌, true, ◌==◌, store, arith,
  ◌⊎◌, Bool-cases, inl, inr, List, [], ◌∷◌, ok, panic,
}
use geniux.Interrupt.{is_off}
use geniux.Thread.{Kernel, Task, is_running}
use geniux.Thread.Invariant.{status, IsScheduled}
use geniux.Thread.Order.{line, in_line, schedule_lem}
use geniux.Thread.Yield.{thread_yield-panic}
use geniux.Timer.{
  div_round_up, sleep_loop, ticks_to_sleep, mtime_sleep, frequency_set, intr_timer_handler,
}

-- A thread that is marked as running, as the one that runs is, and asks to sleep for less than
-- 2 ^ 32 - 9 milliseconds never gets through: if the clock has not already passed the whole time at
-- the first test of the loop, `thread_yield` fails its ASSERT; and to sleep for 0 fails one too.
pub mtime_sleep-panic :
    (fuel : ℕ) (reads : ℕ → ℕ) (ms : ℕ) (k : Kernel)
    → is_running (status k k.running) ≡ true
    → ms < 2 ^ 32 - 9
    → (reads 1 + 2 ^ 32 - reads 0) % 2 ^ 32 * 10 < ms ⊎ (ms ≡ 0)
    → mtime_sleep (suc fuel) reads ms k ≡ panic
unfolding mtime_sleep ticks_to_sleep sleep_loop
mtime_sleep-panic fuel reads ms k live small soon = ground (arith, thread_yield-panic k live)

-- For a time whose rounding does not overflow, `mtime_sleep` asks for the least number of clock
-- ticks of 10 milliseconds that covers it.
pub div_round_up_lem :
    (ms : ℕ)
    → ms < 2 ^ 32 - 9
    → (ms ≤ div_round_up ms 10 * 10) × (div_round_up ms 10 * 10 < ms + 10)
div_round_up_lem ms h = (omega arith, omega arith)

-- The divisor that the timer takes from the two bytes written to a port.
abbrev pub divisor : List (ℕ × ℕ) → ℕ
divisor (c ∷ low ∷ high ∷ []) = low.1 + 256 * high.1
divisor _ = 0

-- `frequency_set` programs the value asked for only if it fits one byte: the high byte written is 0.
pub frequency_set-divisor :
    (port index rwl mode value : ℕ)
    → (divisor (frequency_set port index rwl mode value) ≡ value % 256)
      × ((divisor (frequency_set port index rwl mode value) ≡ value) ↔ (value < 256))
unfolding frequency_set
frequency_set-divisor port index rwl mode value =
    (omega arith, (λ e. omega arith, λ lt. omega arith))

-- The running thread's entry changes, but not its status.
abbrev pub touched : Kernel → Task → Kernel
touched k c = record k { task = store k.task k.running c }

pub touched-IsScheduled :
    (k : Kernel) (c : Task)
    → c.status ≡ status k k.running
    → IsScheduled k
    → IsScheduled (touched k c)
touched-IsScheduled k c e s =
    let q = s.queue in
    record {
      queue = record {
        distinct = q.distinct;
        queued = λ u. ground (arith, q.queued u);
        only = λ u h. ground (arith, q.only u);
        idle = ground (arith, q.idle);
      };
      current = ground (arith, s.current);
    }

touched-in_line :
    (k : Kernel) (c : Task) (xs : List ℕ)
    → c.status ≡ status k k.running
    → in_line (touched k c) xs ≡ in_line k xs
touched-in_line k c [] e = ground arith
touched-in_line k c (x ∷ xs) e = refl

pub touched-line :
    (k : Kernel) (c : Task) → c.status ≡ status k k.running → line (touched k c) ≡ line k
touched-line k c e =
    let same : is_running (status (touched k c) k.running) ≡ is_running (status k k.running) =
      ground arith in
    rw (touched-in_line k c k.ready e, same)

-- A clock interrupt, with interrupts off as the handler's gate sets them, while the scheduler's
-- invariant holds and the running thread's stack mark is whole: the clock counts on and the
-- invariant is kept. A thread with time left goes on with one tick less, and the ready list stays;
-- a thread with none left gives way to the first in line.
pub intr_timer_handler_lem :
    (ticks : ℕ) (k : Kernel)
    → IsScheduled k
    → is_off k.intr ≡ true
    → (k.task k.running).stack_magic ≡ 0x66666666
    → (k' : Kernel) × (intr_timer_handler ticks k ≡ ok ((ticks + 1) % 2 ^ 32, k'))
      × IsScheduled k'
      × (((0 < (k.task k.running).ticks)
            × (k'.running ≡ k.running)
            × (k'.ready ≡ k.ready)
            × ((k'.task k.running).ticks ≡ (k.task k.running).ticks - 1))
          ⊎ (((k.task k.running).ticks ≡ 0) × (k'.running ∷ k'.ready ≡ line k)))
unfolding intr_timer_handler
intr_timer_handler_lem ticks k s off whole = elim (Bool-cases ((k.task k.running).ticks == 0)) [
  | inl out ↦
      let (next, rest, e, k', run, s', at, left, flag) =
        schedule_lem (touched k counted) (touched-IsScheduled k counted refl s).queue off in
      (
        k',
        ground (arith, run),
        s',
        inr (ground arith, rw (at, left) (sym e ∙ touched-line k counted refl)),
      )
  | inr more ↦ (
    touched k (record counted { ticks = counted.ticks - 1 }),
    ground arith,
    touched-IsScheduled k (record counted { ticks = counted.ticks - 1 }) refl s,
    inl (ground arith, refl, refl, ground arith),
  )
]
  where
    counted : Task
    counted = record (k.task k.running) {
      elapsed_ticks = ((k.task k.running).elapsed_ticks + 1) % 2 ^ 32;
    }
