-- ===== src/Timer/Examples.antt =====
-- Tests and instances, in a state with one thread that runs and an idle thread that sleeps.
use geniux.Base.{
  ℕ, ◌+◌, ◌*◌, ◌%◌, ◌^◌, ◌≤◌, store, length, ◌≡◌, inl, refl, arith, [], ◌∷◌, ok, panic,
}
use geniux.Thread.{Kernel, ready_to_run}
use geniux.Timer.Fair.{interrupts, IsWhole}
use geniux.Timer.Rounds.{no_starvation}
use geniux.Thread.Invariant.{IsScheduled}
use geniux.Thread.Examples.{kernel}
use geniux.Timer.{mtime_sleep, timer_init, frequency_set}
use geniux.Timer.Laws.{mtime_sleep-panic}

timer_init_test : timer_init ≡ (0x43, 52) ∷ (0x40, 155) ∷ (0x40, 0) ∷ []
unfolding timer_init frequency_set
timer_init_test = refl

mtime_sleep_example : mtime_sleep 5 (λ n. n) 100 kernel ≡ panic
mtime_sleep_example = mtime_sleep-panic 4 (λ n. n) 100 kernel refl (omega arith) (inl (omega arith))

-- The same state with a third thread, at 12288, that is ready.
abbrev busy : Kernel
busy = record kernel {
  task = store kernel.task 12288 (record (kernel.task 4096) { status = ready_to_run });
  ready = 12288 ∷ [];
}

busy-IsScheduled : IsScheduled busy
busy-IsScheduled = record {
  queue = record {
    distinct = (refl, tt);
    queued = λ t. ground arith;
    only = λ t h. ground arith;
    idle = refl;
  };
  current = refl;
}

busy-IsWhole : IsWhole busy
busy-IsWhole = record {
  magic = λ u. ground arith;
  ticks = λ u. ground arith;
  priority = λ u. ground arith;
}

no_starvation_example :
    (n : ℕ) × (n ≤ length busy.ready * 256)
    × (k' : Kernel) × (interrupts n 7 busy ≡ ok ((7 + n) % 2 ^ 32, k'))
    × (k'.running ≡ 12288)
    × IsScheduled k'
no_starvation_example = no_starvation 7 12288 busy busy-IsScheduled busy-IsWhole refl
