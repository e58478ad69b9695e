-- ===== src/Sync.antt =====
-- thread/sync.c: semaphores and reentrant locks. A thread is the address of its task_struct, and 0
-- is NULL. `waiters` holds the waiting threads, first come first, as the list of Links holds their
-- tags. `sema_down` is one round of its loop: the thread either gets the semaphore or goes to sleep,
-- and when it is woken it runs another round.
-- The children: threads that share one lock, their invariant, and what follows from it.
pub mod System
pub mod Invariant
pub mod Safety
pub mod Uncontended
mod Examples
use geniux.Base.{
  ℕ, zero, suc, ◌+◌, ◌-◌, ◌%◌, ◌^◌, Bool, true, false, not, ◌==◌, ltb, if◌then◌else◌, Option, none,
  some, List, [], ◌∷◌, ◌++◌, elem, Outcome, ok, panic, blocked, ◌>>=◌, ◌>>◌, assert,
}

pub record Semaphore : Type 0 where
  pub value : ℕ
  pub waiters : List ℕ

pub record Lock : Type 0 where
  pub holder : ℕ
  pub semaphore : Semaphore
  pub holder_repeat_nr : ℕ

unfoldable pub sema_init : ℕ → Semaphore
sema_init value = record { value = value; waiters = [] }

unfoldable pub lock_init : Lock
unfolding sema_init
lock_init = record { holder = 0; semaphore = sema_init 1; holder_repeat_nr = 0 }

-- How a round of `sema_down` ends: the thread has the semaphore, or it is blocked.
pub data Round : Type 0 where
  entered : Semaphore → Round
  asleep : Semaphore → Round

-- `running` is `running_thread()`; `find` on its own list is `elem`.
unfoldable pub sema_down : ℕ → Semaphore → Outcome Round
sema_down running s =
    if s.value == 0
    then (if elem running s.waiters
        then panic
        else ok (asleep (record s { waiters = s.waiters ++ running ∷ [] })))
    else (do
      let value' = s.value - 1
      assert (value' == 0)
      ok (entered (record s { value = value' })))

abbrev pop_waiter : List ℕ → Option ℕ × List ℕ
pop_waiter [] = (none, [])
pop_waiter (t ∷ ts) = (some t, ts)

-- The thread that `thread_unblock` is called for, if one waits, and the semaphore after. The value
-- is a `uint8_t`.
unfoldable pub sema_up : Semaphore → Outcome (Option ℕ × Semaphore)
sema_up s = do
  let (woken, rest) = pop_waiter s.waiters
  let value' = (s.value + 1) % 256
  assert (value' == 1)
  ok (woken, record { value = value'; waiters = rest })

-- What `try_lock` does once it has the semaphore.
unfoldable pub take_lock : ℕ → Lock → Semaphore → Outcome Lock
take_lock running k s = do
  assert (k.holder_repeat_nr == 0)
  ok (record { holder = running; semaphore = s; holder_repeat_nr = 1 })

-- A thread that has to wait is `blocked`; System follows it further.
unfoldable pub try_lock : ℕ → Lock → Outcome Lock
unfolding sema_down take_lock
try_lock running k =
    if not (k.holder == running)
    then (do
      r ← sema_down running k.semaphore
      elim r [ entered s ↦ take_lock running k s | asleep s ↦ blocked ])
    else ok (record k { holder_repeat_nr = (k.holder_repeat_nr + 1) % 2 ^ 32 })

-- The first part of `try_release`: whether `sema_up` is to follow, and the lock.
unfoldable pub drop_lock : ℕ → Lock → Outcome (Bool × Lock)
drop_lock running k = do
  assert (k.holder == running)
  if ltb 1 k.holder_repeat_nr
      then ok (false, record k { holder_repeat_nr = k.holder_repeat_nr - 1 })
      else (do
        assert (k.holder_repeat_nr == 1)
        ok (true, record k { holder = 0; holder_repeat_nr = 0 }))

-- The lock after, and the thread that is woken.
unfoldable pub try_release : ℕ → Lock → Outcome (Option ℕ × Lock)
unfolding drop_lock sema_up
try_release running k = do
  (last, k') ← drop_lock running k
  if last
      then (do (woken, s) ← sema_up k'.semaphore; ok (woken, record k' { semaphore = s }))
      else ok (none, k')
