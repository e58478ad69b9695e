-- ===== src/Thread/Invariant.antt =====
-- What the scheduler of thread/thread.c keeps: who is on the ready list, and who runs.
use geniux.Base.{
  ℕ, ◌≡◌, refl, ap, true, false, if◌then◌else◌, store, List, [], ◌∷◌, ◌++◌, elem, elem-append, ok,
  arith, Bool-cases, inl, inr, subst,
}
use geniux.Interrupt.{intr_disable, intr_set_status, restore}
use geniux.Links.Chain.{Nodup, Nodup-snoc}
use geniux.Thread.{
  TaskStatus, running_now, ready_to_run, is_running, is_asleep, is_ready, is_dead, Kernel,
  set_status, resume, thread_unblock, requeue, wake_idle, switch_next, page_dir_activate,
  process_activate,
}

abbrev pub status : Kernel → ℕ → TaskStatus
status k t = (k.task t).status

-- The ready list holds each ready thread once and nobody else; only the thread that runs may be
-- marked as running; and the idle thread has not ended.
pub record IsQueue (k : Kernel) : Type 0 where
  pub distinct : Nodup k.ready
  pub queued : (t : ℕ) → elem t k.ready ≡ is_ready (status k t)
  pub only : (t : ℕ) → is_running (status k t) ≡ true → t ≡ k.running
  pub idle : is_dead (status k k.idle_thread) ≡ false

-- Besides, the thread that runs is marked so.
pub record IsScheduled (k : Kernel) : Type 0 where
  pub queue : IsQueue k
  pub current : is_running (status k k.running) ≡ true

-- The thread goes to the front of the line if it is asleep.
abbrev pub unblocked : Kernel → ℕ → Kernel
unblocked k t =
    if is_asleep (status k t)
    then set_status (record k { ready = t ∷ k.ready }) t ready_to_run
    else k

unblocked-IsQueue : (k : Kernel) (t : ℕ) → IsQueue k → IsQueue (unblocked k t)
unblocked-IsQueue k t q = elim (Bool-cases (is_asleep (status k t))) [
  | inl asleep ↦ rw asleep (record {
    distinct = (ground (arith, q.queued t), q.distinct);
    queued = λ u. ground (arith, q.queued u);
    only = λ u h. ground (arith, q.only u);
    idle = ground (arith, q.idle);
  })
  | inr awake ↦ rw awake q
]

pub restored :
    (k : Kernel) → (intr_set_status (intr_disable k.intr).0 (intr_disable k.intr).1).1 ≡ k.intr
restored k = restore k.intr

-- `thread_unblock` succeeds wherever the invariant holds.
pub thread_unblock-ok : (k : Kernel) (t : ℕ) → IsQueue k → thread_unblock k t ≡ ok (unblocked k t)
unfolding thread_unblock resume
thread_unblock-ok k t q = ground (arith, q.queued t, restored k)

-- What `wake_idle` comes to.
abbrev pub woken_idle : Kernel → List ℕ → Kernel
woken_idle k [] = unblocked k k.idle_thread
woken_idle k (x ∷ xs) = k

pub wake_idle-ok : (k : Kernel) (xs : List ℕ) → IsQueue k → wake_idle xs k ≡ ok (woken_idle k xs)
unfolding wake_idle
wake_idle-ok k [] q = thread_unblock-ok k k.idle_thread q
wake_idle-ok k (x ∷ xs) q = refl

pub woken_idle-IsQueue : (k : Kernel) (xs : List ℕ) → IsQueue k → IsQueue (woken_idle k xs)
woken_idle-IsQueue k [] q = unblocked-IsQueue k k.idle_thread q
woken_idle-IsQueue k (x ∷ xs) q = q

-- What `requeue` comes to.
abbrev pub requeued : Kernel → Kernel
requeued k =
    if is_running (status k k.running)
    then record k {
      ready = k.ready ++ k.running ∷ [];
      task = store k.task k.running (record (k.task k.running) {
        status = ready_to_run;
        ticks = (k.task k.running).priority;
      });
    }
    else k

pub requeue-ok : (k : Kernel) → IsQueue k → requeue k ≡ ok (requeued k)
unfolding requeue
requeue-ok k q = ground (arith, q.queued k.running)

pub requeued-IsQueue : (k : Kernel) → IsQueue k → IsQueue (requeued k)
requeued-IsQueue k q = elim (Bool-cases (is_running (status k k.running))) [
  | inl live ↦ rw live (record {
    distinct = Nodup-snoc k.ready k.running q.distinct (ground (arith, q.queued k.running));
    queued = λ u. ground (arith, q.queued u, elem-append u k.ready (k.running ∷ []));
    only = λ u h. ground (arith, q.only u);
    idle = ground (arith, q.idle);
  })
  | inr other ↦ rw other q
]

-- Nobody is marked as running once the caller is back in line.
pub requeued-none : (k : Kernel) → IsQueue k → (t : ℕ) → is_running (status (requeued k) t) ≡ false
requeued-none k q t = elim (Bool-cases (is_running (status k k.running))) [
  | inl live ↦ rw live (ground (arith, q.only t))
  | inr other ↦ rw other (ground (arith, q.only t))
]

-- What `switch_next` comes to.
abbrev pub switched : Kernel → ℕ → List ℕ → Kernel
switched k next rest =
    record (process_activate (set_status (record k { ready = rest }) next running_now) next) {
      running = next;
    }

pub switched-IsScheduled :
    (k : Kernel) (next : ℕ) (rest : List ℕ)
    → k.ready ≡ next ∷ rest
    → IsQueue k
    → ((t : ℕ) → is_running (status k t) ≡ false)
    → IsScheduled (switched k next rest)
unfolding process_activate page_dir_activate
switched-IsScheduled k next rest e q none_runs =
    let d : Nodup (next ∷ rest) = subst Nodup e q.distinct in
    record {
      queue = record {
        distinct = d.1;
        queued = λ u. ground (arith, q.queued u, ap (elem u) e, d.0);
        only = λ u h. ground (arith, none_runs u);
        idle = ground (arith, q.idle);
      };
      current = ground arith;
    }

pub switch_next-ok :
    (k : Kernel) (next : ℕ) (rest : List ℕ)
    → switch_next (next ∷ rest) k ≡ ok (switched k next rest)
unfolding switch_next
switch_next-ok k next rest = refl

unblocked-intr : (k : Kernel) (t : ℕ) → (unblocked k t).intr ≡ k.intr
unblocked-intr k t = elim (Bool-cases (is_asleep (status k t))) [
  | inl asleep ↦ rw asleep
  | inr awake ↦ rw awake
]

pub woken_idle-intr : (k : Kernel) (xs : List ℕ) → (woken_idle k xs).intr ≡ k.intr
woken_idle-intr k [] = unblocked-intr k k.idle_thread
woken_idle-intr k (x ∷ xs) = refl

pub requeued-intr : (k : Kernel) → (requeued k).intr ≡ k.intr
requeued-intr k = elim (Bool-cases (is_running (status k k.running))) [
  | inl live ↦ rw live
  | inr other ↦ rw other
]
