-- ===== src/Ioqueue.antt =====
-- device/ioqueue.c: the ring of 64 characters between an interrupt handler and the threads that
-- read from it. `flag` is the interrupt status, `running` the calling thread. A call is one round of
-- its loop: it moves a character, or the thread blocks in `ioq_wait` with the queue's lock held, and
-- `after_wait` is what it does when it runs again, before the next round.
-- The children: the ring as a sequence, and the threads that wait.
pub mod Ring
pub mod Waiters
mod Examples
use geniux.Base.{
  ℕ, ◌+◌, ◌-◌, ◌%◌, Bool, true, false, not, ◌==◌, if◌then◌else◌, store, Option, none, some, Outcome,
  ok, ◌>>=◌, ◌>>◌, assert,
}
use geniux.Interrupt.{IntrStatus, is_off}
use geniux.Sync.{Lock, lock_init, try_lock, try_release}

abbrev pub bufsize : ℕ
bufsize = 64

pub record IoQueue : Type 0 where
  pub lock : Lock
  pub producer : ℕ
  pub consumer : ℕ
  pub buf : ℕ → ℕ
  pub head : ℕ
  pub tail : ℕ

unfoldable pub ioqueue_init : IoQueue → IoQueue
unfolding lock_init
ioqueue_init q = record q { lock = lock_init; producer = 0; consumer = 0; head = 0; tail = 0 }

unfoldable pub next_pos : ℕ → ℕ
next_pos pos = (pos + 1) % bufsize

-- `(tail - head) == 1` on `int32_t`.
unfoldable pub ioq_full : IntrStatus → IoQueue → Outcome Bool
ioq_full flag q = do assert (is_off flag); ok (q.tail == q.head + 1)

unfoldable pub ioq_empty : IntrStatus → IoQueue → Outcome Bool
ioq_empty flag q = do assert (is_off flag); ok (q.head == q.tail)

-- What stands in `*waiter` when the thread blocks. The source compares `*waiter` with
-- `running_thread()` and drops the result; nothing is assigned.
unfoldable pub ioq_wait : ℕ → ℕ → Outcome ℕ
ioq_wait running waiter = do assert (waiter == 0); let compared = waiter == running; ok waiter

-- The thread to hand to `thread_unblock`, and what stands in `*waiter` after.
unfoldable pub ioq_wakeup : ℕ → Outcome (ℕ × ℕ)
ioq_wakeup waiter = do assert (not (waiter == 0)); ok (waiter, 0)

-- `moved` has the character read, if one was, the thread woken, if one was, and the queue.
pub data Round : Type 0 where
  moved : Option ℕ → Option ℕ → IoQueue → Round
  waits : IoQueue → Round

abbrev wake_if : ℕ → Outcome (Option ℕ × ℕ)
wake_if waiter =
    if not (waiter == 0) then (do (t, w) ← ioq_wakeup waiter; ok (some t, w)) else ok (none, waiter)

unfoldable pub ioq_getchar : IntrStatus → ℕ → IoQueue → Outcome Round
unfolding ioq_empty ioq_wait ioq_wakeup next_pos
ioq_getchar flag running q = do
  assert (is_off flag)
  is_empty ← ioq_empty flag q
  if is_empty
      then (do
        l ← try_lock running q.lock
        c ← ioq_wait running q.consumer
        ok (waits (record q { lock = l; consumer = c })))
      else (do
        let ch = q.buf q.tail
        (woken, p) ← wake_if q.producer
        ok (moved (some ch) woken (record q { tail = next_pos q.tail; producer = p })))

unfoldable pub ioq_setchar : IntrStatus → ℕ → IoQueue → ℕ → Outcome Round
unfolding ioq_full ioq_wait ioq_wakeup next_pos
ioq_setchar flag running q byte = do
  assert (is_off flag)
  is_full ← ioq_full flag q
  if is_full
      then (do
        l ← try_lock running q.lock
        p ← ioq_wait running q.producer
        ok (waits (record q { lock = l; producer = p })))
      else (do
        (woken, c) ← wake_if q.consumer
        ok (
            moved none woken
              (record q { buf = store q.buf q.head byte; head = next_pos q.head; consumer = c })))

-- `try_release(&ioq->lock)` when the thread runs again.
unfoldable pub after_wait : ℕ → IoQueue → Outcome IoQueue
after_wait running q = do (woken, l) ← try_release running q.lock; ok (record q { lock = l })
