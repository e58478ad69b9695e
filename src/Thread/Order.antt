-- ===== src/Thread/Order.antt =====
-- `schedule` and `thread_block` of thread/thread.c: they always find a next thread, it is the first
-- in line, and the scheduler's invariant is kept.
use geniux.Base.{
  ℕ, ◌≡◌, refl, ap, ◌∙◌, true, if◌then◌else◌, List, [], ◌∷◌, ◌++◌, elem, ok, arith, Bool-cases, inl,
  inr,
}
use mathlib.Core.List.{append-nil}
use geniux.Interrupt.{is_off, intr_disable}
use geniux.Thread.{
  TaskStatus, is_running, is_asleep, Kernel, set_status, switch_next, schedule, page_dir_activate,
  process_activate,
}
use geniux.Thread.Invariant.{
  status, IsQueue, IsScheduled, woken_idle, wake_idle-ok, woken_idle-IsQueue, requeued, requeue-ok,
  requeued-IsQueue, requeued-none, switched, switched-IsScheduled, switch_next-ok, woken_idle-intr,
  requeued-intr,
}

-- Who is in line once the idle thread stands in for nobody and the caller is back.
abbrev pub in_line : Kernel → List ℕ → List ℕ
in_line k [] = if is_asleep (status k k.idle_thread) then k.idle_thread ∷ [] else []
in_line k (x ∷ xs) = x ∷ xs

abbrev pub line : Kernel → List ℕ
line k = in_line k k.ready ++ (if is_running (status k k.running) then k.running ∷ [] else [])

pub requeued-line :
    (k : Kernel) (xs : List ℕ)
    → k.ready ≡ xs
    → IsQueue k
    → (requeued (woken_idle k xs)).ready
      ≡ in_line k xs ++ (if is_running (status k k.running) then k.running ∷ [] else [])
requeued-line k [] e q = ground (arith, q.queued k.idle_thread)
requeued-line k (x ∷ xs) e q = ground (arith, append-nil xs)

line-cons :
    (k : Kernel) (xs : List ℕ)
    → k.ready ≡ xs
    → IsQueue k
    → (next : ℕ) × (rest : List ℕ) × (in_line k xs
          ++ (if is_running (status k k.running) then k.running ∷ [] else [])
        ≡ next ∷ rest)
line-cons k [] e q = elim (Bool-cases (is_asleep (status k k.idle_thread))) [
  | inl asleep ↦ (
    k.idle_thread,
    (if is_running (status k k.running) then k.running ∷ [] else []),
    ground arith,
  )
  | inr awake ↦ (
    k.running,
    [],
    ground (arith, q.queued k.idle_thread, q.idle, q.only k.idle_thread, ap (elem k.idle_thread) e),
  )
]
line-cons k (x ∷ xs) e q =
    (x, xs ++ (if is_running (status k k.running) then k.running ∷ [] else []), refl)

pub schedule-run :
    (k : Kernel) (next : ℕ) (rest : List ℕ)
    → IsQueue k
    → is_off k.intr ≡ true
    → (requeued (woken_idle k k.ready)).ready ≡ next ∷ rest
    → schedule k ≡ ok (switched (requeued (woken_idle k k.ready)) next rest)
unfolding schedule
schedule-run k next rest q off front =
    let k1 = woken_idle k k.ready in
    let q1 = woken_idle-IsQueue k k.ready q in
    rw (off, wake_idle-ok k k.ready q)
      (rw (requeue-ok k1 q1)
        (ap (λ l. switch_next l (requeued k1)) front ∙ switch_next-ok (requeued k1) next rest))

-- Where the scheduler's invariant holds and interrupts are off, `schedule` never fails: there is a
-- first thread in line, it runs next, the others stay in line in their order, and the invariant and
-- the interrupt flag are kept.
pub schedule_lem :
    (k : Kernel)
    → IsQueue k
    → is_off k.intr ≡ true
    → (next : ℕ) × (rest : List ℕ) × (line k ≡ next ∷ rest)
      × (k' : Kernel) × (schedule k ≡ ok k')
      × IsScheduled k'
      × (k'.running ≡ next)
      × (k'.ready ≡ rest)
      × (k'.intr ≡ k.intr)
unfolding process_activate page_dir_activate
schedule_lem k q off =
    let (next, rest, e) = line-cons k k.ready refl q in
    let k1 = woken_idle k k.ready in
    let q1 = woken_idle-IsQueue k k.ready q in
    let k2 = requeued k1 in
    let front : k2.ready ≡ next ∷ rest = requeued-line k k.ready refl q ∙ e in
    (
      next,
      rest,
      e,
      switched k2 next rest,
      schedule-run k next rest q off front,
      switched-IsScheduled k2 next rest front (requeued-IsQueue k1 q1) (requeued-none k1 q1),
      refl,
      refl,
      requeued-intr k1 ∙ woken_idle-intr k k.ready,
    )

-- The state in which `thread_block` calls `schedule`.
abbrev marked : Kernel → TaskStatus → Kernel
marked k stat = set_status (record k { intr = (intr_disable k.intr).1 }) k.running stat
