-- ===== src/Sync/System.antt =====
-- Threads that share one lock of thread/sync.c, interleaved. A step is what one thread does between
-- two places where another may run: a test of the holder, a section with interrupts off, or the
-- writes of `try_lock` and `try_release` around `sema_down` and `sema_up`. Which thread runs is
-- free; a thread asleep runs only after `sema_up` has woken it.
use geniux.Base.{
  [], ℕ, ◌==◌, if◌then◌else◌, Option, none, some, store, Outcome, ok, blocked, ◌>>=◌, ◌≡◌, ◌≢◌, ◌+◌,
  ◌%◌, ◌^◌, ◌<◌,
}
use geniux.Sync.{Lock, entered, asleep, sema_down, sema_up, take_lock, drop_lock}

-- Where a thread stands: it does not use the lock; it is at the loop of `sema_down`; it sleeps
-- there; it has the semaphore but is not yet the holder; it holds the lock; it has given up the
-- lock but not yet the semaphore.
pub data Pc : Type 0 where
  outside at_down sleeping has_semaphore holding at_up : Pc

pub record Shared : Type 0 where
  pub lock : Lock
  pub pc : ℕ → Pc

-- What a thread that holds the lock chooses to do next.
pub data Choice : Type 0 where
  lock_again release : Choice

abbrev pub wake : Option ℕ → (ℕ → Pc) → ℕ → Pc
wake none pc = pc
wake (some w) pc = store pc w at_down

unfoldable pub down_step : ℕ → Shared → Outcome Shared
down_step t s = do
  r ← sema_down t s.lock.semaphore
  elim r [
    | entered sem ↦
        ok (record { lock = record s.lock { semaphore = sem }; pc = store s.pc t has_semaphore })
    | asleep sem ↦
        ok (record { lock = record s.lock { semaphore = sem }; pc = store s.pc t sleeping })
  ]

unfoldable pub hold_step : ℕ → Choice → Shared → Outcome Shared
hold_step t lock_again s =
    if s.lock.holder == t
    then ok (record s {
      lock = record s.lock { holder_repeat_nr = (s.lock.holder_repeat_nr + 1) % 2 ^ 32 };
    })
    else ok (record s { pc = store s.pc t at_down })
hold_step t release s = do
  (last, k) ← drop_lock t s.lock
  ok (record { lock = k; pc = (if last then store s.pc t at_up else s.pc) })

unfoldable pub up_step : ℕ → Shared → Outcome Shared
up_step t s = do
  (woken, sem) ← sema_up s.lock.semaphore
  ok (record { lock = record s.lock { semaphore = sem }; pc = wake woken (store s.pc t outside) })

-- One step of thread `t` from where it stands.
unfoldable pub step_from : Pc → ℕ → Choice → Shared → Outcome Shared
unfolding down_step hold_step up_step
step_from outside t c s = hold_step t lock_again s
step_from at_down t c s = down_step t s
step_from sleeping t c s = blocked
step_from has_semaphore t c s = do
  k ← take_lock t s.lock s.lock.semaphore
  ok (record { lock = k; pc = store s.pc t holding })
step_from holding t c s = hold_step t c s
step_from at_up t c s = up_step t s

unfoldable pub step : ℕ → Choice → Shared → Outcome Shared
unfolding step_from
step t c s = step_from (s.pc t) t c s

-- What is reached from a fresh lock that nobody uses. No thread stands at NULL, and the holder
-- nests fewer than 2 ^ 32 calls of `try_lock`, so that the count does not wrap.
abbrev pub fresh : Shared
fresh = record {
  lock = record {
    holder = 0;
    semaphore = record { value = 1; waiters = [] };
    holder_repeat_nr = 0;
  };
  pc = λ _. outside;
}

pub data Reach : Shared → Type 0 where
  start : Reach fresh
  later :
      {s t : Shared} (i : ℕ) (c : Choice)
      → Reach s
      → i ≢ 0
      → s.lock.holder_repeat_nr + 1 < 2 ^ 32
      → step i c s ≡ ok t
      → Reach t
