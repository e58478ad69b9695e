-- ===== src/Thread/Yield.antt =====
-- `thread_yield` of thread/thread.c. It puts the caller on the ready list, but forgets to mark it as
-- ready: the status goes to the variable of the interrupt flag.
use geniux.Base.{
  ℕ, ◌≡◌, refl, true, List, [], ◌∷◌, ◌++◌, elem, elem-append, ok, panic, arith, Bool-cases, inl,
  inr,
}
use geniux.Interrupt.{IntrStatus, intr_on, intr_off, is_off, intr_disable}
use geniux.Thread.{is_running, Kernel, wake_idle, requeue, schedule, thread_yield}
use geniux.Thread.Invariant.{status}

wake_idle-cons : (xs : List ℕ) (x : ℕ) (k : Kernel) → wake_idle (xs ++ x ∷ []) k ≡ ok k
unfolding wake_idle
wake_idle-cons [] x k = refl
wake_idle-cons (y ∷ ys) x k = refl

requeue-panic :
    (k : Kernel)
    → is_running (status k k.running) ≡ true
    → elem k.running k.ready ≡ true
    → requeue k ≡ panic
unfolding requeue
requeue-panic k live queued = rw (live, queued)

-- `schedule` of a thread that is marked as running and stands last on the ready list.
schedule-panic :
    (k : Kernel) (xs : List ℕ)
    → is_running (status k k.running) ≡ true
    → is_off k.intr ≡ true
    → schedule (record k { ready = xs ++ k.running ∷ [] }) ≡ panic
unfolding schedule
schedule-panic k xs live off =
    rw (off, wake_idle-cons xs k.running (record k { ready = xs ++ k.running ∷ [] }))
      (rw (
        requeue-panic (record k { ready = xs ++ k.running ∷ [] }) live
          (ground (arith, elem-append k.running xs (k.running ∷ [])))))

disable-off : (f : IntrStatus) → is_off (intr_disable f).1 ≡ true
unfolding intr_disable
disable-off intr_on = refl
disable-off intr_off = refl

-- `thread_yield` of a thread that is marked as running, as the one that runs is, fails an ASSERT in
-- every state, whoever is ready.
pub thread_yield-panic :
    (k : Kernel) → is_running (status k k.running) ≡ true → thread_yield k ≡ panic
unfolding thread_yield
thread_yield-panic k live = elim (Bool-cases (elem k.running k.ready)) [
  | inl queued ↦ rw queued
  | inr new ↦ rw (
    new,
    schedule-panic (record k { intr = (intr_disable k.intr).1 }) k.ready live (disable-off k.intr),
  )
]
