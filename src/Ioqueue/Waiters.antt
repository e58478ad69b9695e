-- ===== src/Ioqueue/Waiters.antt =====
-- Threads that wait in device/ioqueue.c. `ioq_wait` compares where it means to assign, so nobody is
-- ever recorded as waiting.
use geniux.Base.{[], ℕ, ◌≡◌, ◌≢◌, refl, arith, ◌⊎◌, inl, inr, none, ok, blocked}
use geniux.Interrupt.{IntrStatus, intr_off}
use geniux.Sync.{try_lock, lock_init}
use geniux.Ioqueue.{IoQueue, Round, moved, waits, ioq_getchar, ioq_setchar}

-- Nobody is recorded in the queue.
abbrev pub Unrecorded : IoQueue → Type 0
Unrecorded q = (q.producer ≡ 0) × (q.consumer ≡ 0)

-- The round woke nobody, and nobody is recorded after it.
abbrev pub WokeNobody : Round → Type 0
WokeNobody (moved ch woken q) = (woken ≡ none) × Unrecorded q
WokeNobody (waits q) = Unrecorded q

getchar-WokeNobody :
    (flag : IntrStatus) (running : ℕ) (q : IoQueue) (r : Round)
    → Unrecorded q
    → ioq_getchar flag running q ≡ ok r
    → WokeNobody r
unfolding ioq_getchar
getchar-WokeNobody flag running q (moved ch woken q') u e = ground arith
getchar-WokeNobody flag running q (waits q') u e = ground arith

setchar-WokeNobody :
    (flag : IntrStatus) (running : ℕ) (q : IoQueue) (byte : ℕ) (r : Round)
    → Unrecorded q
    → ioq_setchar flag running q byte ≡ ok r
    → WokeNobody r
unfolding ioq_setchar
setchar-WokeNobody flag running q byte (moved ch woken q') u e = ground arith
setchar-WokeNobody flag running q byte (waits q') u e = ground arith

-- From a queue with nobody recorded, as `ioqueue_init` leaves it, no round of `ioq_getchar` and none
-- of `ioq_setchar` ever wakes a thread, and nobody is recorded after it, also not the thread that
-- blocks: it is never woken by the queue.
pub nobody_woken :
    (flag : IntrStatus) (running : ℕ) (q : IoQueue) (byte : ℕ) (r : Round)
    → Unrecorded q
    → (ioq_getchar flag running q ≡ ok r) ⊎ (ioq_setchar flag running q byte ≡ ok r)
    → WokeNobody r
nobody_woken flag running q byte r u (inl e) = getchar-WokeNobody flag running q r u e
nobody_woken flag running q byte r u (inr e) = setchar-WokeNobody flag running q byte r u e

-- A thread that finds the queue empty and its lock free blocks with the lock held, and then any other
-- thread that reads the empty queue is stuck at the lock.
pub getchar-holds_lock :
    (q : IoQueue) (running other : ℕ)
    → Unrecorded q
    → q.head ≡ q.tail
    → q.lock ≡ lock_init
    → running ≢ 0
    → other ≢ running
    → (q' : IoQueue) × (ioq_getchar intr_off running q ≡ ok (waits q'))
      × (q'.lock.holder ≡ running)
      × (ioq_getchar intr_off other q' ≡ blocked)
unfolding ioq_getchar try_lock lock_init
getchar-holds_lock q running other u empty free live ne = (
  record q {
    lock = record {
      holder = running;
      semaphore = record { value = 0; waiters = [] };
      holder_repeat_nr = 1;
    };
  },
  ground arith,
  refl,
  ground arith,
)
