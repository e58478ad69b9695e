-- ===== src/Timer.antt =====
-- device/timer.c: the clock interrupt, the sleeping calls and the programming of the interval timer.
-- The count of clock interrupts changes under a sleeping thread, so `reads n` is what the n-th read
-- of `ticks` gives; the loop of `ticks_to_sleep` runs on fuel.
-- The children: one clock interrupt, how the ready list moves, and many interrupts.
pub mod Laws
pub mod Fair
pub mod Rounds
mod Examples
use geniux.Base.{
  ℕ, zero, suc, ◌+◌, ◌-◌, ◌*◌, ◌/◌, ◌%◌, ◌^◌, Bool, true, false, not, ◌==◌, ltb, if◌then◌else◌,
  store, List, [], ◌∷◌, Outcome, ok, out_of_fuel, ◌>>=◌, ◌>>◌, assert, bit_or,
}
use geniux.Thread.{Kernel, Task, schedule, thread_yield, resume}

abbrev pub irq0_frequency : ℕ
irq0_frequency = 100

-- `INPUT_FREQUENCY / IRQ0_FREQUENCY`
abbrev pub counter0_value : ℕ
counter0_value = 1193180 / irq0_frequency

abbrev pub mil_seconds_pre_intr : ℕ
mil_seconds_pre_intr = 1000 / irq0_frequency

-- `DIV_ROUND_UP` of kernel/global.h on `uint32_t`.
abbrev pub div_round_up : ℕ → ℕ → ℕ
div_round_up x step = (x + step + 2 ^ 32 - 1) % 2 ^ 32 / step

-- `while (ticks - start_tick < sleep_ticks) thread_yield();`, after `n` reads.
unfoldable pub sleep_loop : ℕ → (ℕ → ℕ) → ℕ → ℕ → ℕ → Kernel → Outcome Kernel
sleep_loop zero reads n start sleep k = out_of_fuel
sleep_loop (suc fuel) reads n start sleep k =
    let again = (do
      (old, k1) ← thread_yield k
      sleep_loop fuel reads (n + 1) start sleep (resume old k1)) in
    if ltb ((reads n + 2 ^ 32 - start) % 2 ^ 32) sleep then again else ok k

unfoldable pub ticks_to_sleep : ℕ → (ℕ → ℕ) → ℕ → Kernel → Outcome Kernel
ticks_to_sleep fuel reads sleep_ticks k = sleep_loop fuel reads 1 (reads 0) sleep_ticks k

unfoldable pub mtime_sleep : ℕ → (ℕ → ℕ) → ℕ → Kernel → Outcome Kernel
mtime_sleep fuel reads m_seconds k = do
  let sleep_ticks = div_round_up m_seconds mil_seconds_pre_intr
  assert (not (sleep_ticks == 0))
  ticks_to_sleep fuel reads sleep_ticks k

-- The writes to ports, each a port and a byte. In the last, the cast binds before the shift.
unfoldable pub frequency_set : ℕ → ℕ → ℕ → ℕ → ℕ → List (ℕ × ℕ)
frequency_set counter_port counter_no rwl counter_mode counter_value =
    (0x43, bit_or (bit_or (counter_no * 2 ^ 6) (rwl * 2 ^ 4)) (counter_mode * 2 ^ 1) % 256)
    ∷ (counter_port, counter_value % 256)
    ∷ (counter_port, counter_value % 256 / 2 ^ 8)
    ∷ []

-- What `timer_init` writes; it also registers the handler at 0x20.
unfoldable pub timer_init : List (ℕ × ℕ)
unfolding frequency_set
timer_init = frequency_set 0x40 0 3 2 counter0_value

-- The global `ticks` beside the kernel.
unfoldable pub intr_timer_handler : ℕ → Kernel → Outcome (ℕ × Kernel)
intr_timer_handler ticks k = do
  let cur = k.running
  assert ((k.task cur).stack_magic == 0x66666666)
  let ticks' = (ticks + 1) % 2 ^ 32
  let c = record (k.task cur) { elapsed_ticks = ((k.task cur).elapsed_ticks + 1) % 2 ^ 32 }
  if c.ticks == 0
      then (do k' ← schedule (record k { task = store k.task cur c }); ok (ticks', k'))
      else ok (ticks', record k { task = store k.task cur (record c { ticks = c.ticks - 1 }) })
