-- ===== src/Timer/Fair.antt =====
-- The clock of device/timer.c and the scheduler of thread/thread.c over many interrupts.
use geniux.Base.{
  ℕ, zero, suc, ◌+◌, ◌-◌, ◌%◌, ◌^◌, ◌<◌, ◌≡◌, refl, ap, ◌∙◌, true, store, arith, List, [], ◌∷◌,
  ◌++◌, Outcome, ok, ◌>>=◌, subst,
}
use geniux.Interrupt.{intr_off, is_off}
use geniux.Thread.{Kernel, Task, ready_to_run, is_running, process_activate, page_dir_activate}
use geniux.Thread.Invariant.{
  status, IsScheduled, woken_idle, requeued, switched, switched-IsScheduled, woken_idle-IsQueue,
  requeued-IsQueue, requeued-none,
}
use geniux.Thread.Order.{schedule-run}
use geniux.Timer.{intr_timer_handler}
use geniux.Timer.Laws.{touched, touched-IsScheduled}

-- The gate of the interrupt turns the flag off before the handler runs.
abbrev pub gated : Kernel → Kernel
gated k = record k { intr = intr_off }

-- The clock's interrupts, `n` of them, while no thread calls the scheduler itself.
unfoldable pub interrupts : ℕ → ℕ → Kernel → Outcome (ℕ × Kernel)
interrupts zero ticks k = ok (ticks, k)
interrupts (suc n) ticks k = do
  (ticks', k') ← intr_timer_handler ticks (gated k)
  interrupts n ticks' k'

-- The stack marks are whole, and the two counters are bytes.
pub record IsWhole (k : Kernel) : Type 0 where
  pub magic : (u : ℕ) → (k.task u).stack_magic ≡ 0x66666666
  pub ticks : (u : ℕ) → (k.task u).ticks < 256
  pub priority : (u : ℕ) → (k.task u).priority < 256

pub gated-IsScheduled : (k : Kernel) → IsScheduled k → IsScheduled (gated k)
gated-IsScheduled k s =
    let q = s.queue in
    record {
      queue = record { distinct = q.distinct; queued = q.queued; only = q.only; idle = q.idle };
      current = s.current;
    }

pub gated-IsWhole : (k : Kernel) → IsWhole k → IsWhole (gated k)
gated-IsWhole k w = record { magic = w.magic; ticks = w.ticks; priority = w.priority }

-- The entry of the running thread with the interrupt counted.
abbrev counted : Kernel → Task
counted k = record (k.task k.running) {
  elapsed_ticks = ((k.task k.running).elapsed_ticks + 1) % 2 ^ 32;
}

abbrev pub ticked : Kernel → Kernel
ticked k = touched k (record (counted k) { ticks = (k.task k.running).ticks - 1 })

pub ticked-IsScheduled : (k : Kernel) → IsScheduled k → IsScheduled (ticked k)
ticked-IsScheduled k s =
    touched-IsScheduled k (record (counted k) { ticks = (k.task k.running).ticks - 1 }) refl s

store-IsWhole :
    (k : Kernel) (t : ℕ) (c : Task)
    → c.stack_magic ≡ 0x66666666
    → c.ticks < 256
    → c.priority < 256
    → IsWhole k
    → IsWhole (record k { task = store k.task t c })
store-IsWhole k t c magic ticks priority w = record {
  magic = λ u. ground (arith, w.magic u);
  ticks = λ u. ground (arith, w.ticks u);
  priority = λ u. ground (arith, w.priority u);
}

pub ticked-IsWhole : (k : Kernel) → IsWhole k → IsWhole (ticked k)
ticked-IsWhole k w =
    store-IsWhole k k.running _ (w.magic k.running) (omega (arith, w.ticks k.running))
      (w.priority k.running) w

pub tick-more :
    (t n : ℕ) (k : Kernel)
    → IsWhole k
    → (k.task k.running).ticks ≡ suc n
    → intr_timer_handler t k ≡ ok ((t + 1) % 2 ^ 32, ticked k)
unfolding intr_timer_handler
tick-more t n k w e = ground (arith, w.magic k.running, e)

-- The running thread goes to the end of the line, with a new slice.
abbrev back : Kernel → Kernel
back k = record k {
  ready = k.ready ++ k.running ∷ [];
  task =
      store k.task k.running
        (record (k.task k.running) { status = ready_to_run; ticks = (k.task k.running).priority });
}

requeued-back : (k : Kernel) → is_running (status k k.running) ≡ true → requeued k ≡ back k
requeued-back k live = rw live refl

-- The state after a switch at the end of a slice.
abbrev pub rotated : Kernel → ℕ → List ℕ → Kernel
rotated k next rest = switched (back (touched k (counted k))) next rest

pub rotated-IsWhole :
    (k : Kernel) (next : ℕ) (rest : List ℕ) → IsWhole k → IsWhole (rotated k next rest)
unfolding process_activate page_dir_activate
rotated-IsWhole k next rest w =
    let k1 = touched k (counted k) in
    let w1 : IsWhole k1 =
      store-IsWhole k k.running (counted k) (w.magic k.running) (w.ticks k.running)
        (w.priority k.running) w in
    let w2 : IsWhole (back k1) = record {
      magic = λ u. ground (arith, w1.magic u, w1.magic k.running);
      ticks = λ u. ground (arith, w1.ticks u, w1.priority k.running);
      priority = λ u. ground (arith, w1.priority u, w1.priority k.running);
    } in
    record {
      magic = λ u. ground (arith, w2.magic u, w2.magic next);
      ticks = λ u. ground (arith, w2.ticks u, w2.ticks next);
      priority = λ u. ground (arith, w2.priority u, w2.priority next);
    }

pub tick-last :
    (t next : ℕ) (xs : List ℕ) (k : Kernel)
    → IsScheduled k
    → IsWhole k
    → is_off k.intr ≡ true
    → (k.task k.running).ticks ≡ 0
    → k.ready ≡ next ∷ xs
    → (intr_timer_handler t k ≡ ok ((t + 1) % 2 ^ 32, rotated k next (xs ++ k.running ∷ [])))
      × IsScheduled (rotated k next (xs ++ k.running ∷ []))
unfolding intr_timer_handler process_activate page_dir_activate
tick-last t next xs k s w off e r =
    let k1 = touched k (counted k) in
    let s1 : IsScheduled k1 = touched-IsScheduled k (counted k) refl s in
    let rest = xs ++ k.running ∷ [] in
    let line : k.ready ++ k.running ∷ [] ≡ next ∷ rest =
      ap (λ (l : List ℕ). l ++ k.running ∷ []) r in
    let awake : woken_idle k1 k1.ready ≡ k1 = ap (woken_idle k1) r in
    let after : requeued (woken_idle k1 k1.ready) ≡ back k1 =
      ap requeued awake ∙ requeued-back k1 s1.current in
    let front : (requeued (woken_idle k1 k1.ready)).ready ≡ next ∷ rest =
      ap (λ (j : Kernel). j.ready) after ∙ line in
    let run =
      schedule-run k1 next rest s1.queue off front
      ∙ ap (λ (j : Kernel). ok (switched j next rest)) after in
    let again =
      switched-IsScheduled (requeued (woken_idle k1 k1.ready)) next rest front
        (requeued-IsQueue (woken_idle k1 k1.ready) (woken_idle-IsQueue k1 k1.ready s1.queue))
        (requeued-none (woken_idle k1 k1.ready) (woken_idle-IsQueue k1 k1.ready s1.queue)) in
    (
      ground (arith, w.magic k.running, e, run),
      subst (λ (j : Kernel). IsScheduled (switched j next rest)) after again,
    )
