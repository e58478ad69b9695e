-- ===== src/Thread/Start.antt =====
-- How thread/thread.c starts: the first two threads.
use geniux.Base.{
  ℕ, ◌+◌, ◌%◌, ◌^◌, ◌≡◌, ◌≢◌, refl, ap, ◌∙◌, true, false, if◌then◌else◌, store, List, [], ◌∷◌, ◌++◌,
  elem, ok, arith, ◌==◌, ==_ne,
}
use geniux.Sync.{
  lock_init, sema_init, try_lock, try_release, sema_down, take_lock, drop_lock, sema_up,
}
use geniux.Thread.{
  Kernel, running_now, ready_to_run, is_dead, allocate_pid, init_thread, thread_create,
  thread_start, make_main_thread, thread_init,
}
use geniux.Thread.Invariant.{status, IsScheduled}

-- With its lock free `allocate_pid` counts on and frees the lock again.
pub allocate_pid-free :
    (k : Kernel)
    → k.running ≢ 0
    → k.pid_lock ≡ lock_init
    → allocate_pid k
      ≡ ok (
        (k.next_pid + 1) % 2 ^ 16,
        record k { pid_lock = lock_init; next_pid = (k.next_pid + 1) % 2 ^ 16 },
      )
unfolding allocate_pid try_lock try_release sema_down take_lock drop_lock sema_up lock_init
    sema_init
allocate_pid-free k live free = ground arith

-- What a step of the start leaves but for the statuses and the two lists.
record Keeps (k k' : Kernel) : Type 0 where
  running : k'.running ≡ k.running
  main : k'.main_thread ≡ k.main_thread
  free : k'.pid_lock ≡ lock_init

-- The kernel after `init_thread`.
abbrev pub initialised : Kernel → ℕ → List ℕ → ℕ → Kernel
initialised k t name prio =
    let pid = (k.next_pid + 1) % 2 ^ 16 in
    record k {
      pid_lock = lock_init;
      next_pid = pid;
      task = store k.task t (record {
        self_kstack = (t + 4096) % 2 ^ 32;
        pid = pid;
        status = (if t == k.main_thread then running_now else ready_to_run);
        priority = prio % 256;
        ticks = prio % 256;
        elapsed_ticks = 0;
        name = name;
        pgdir = 0;
        stack_magic = 0x66666666;
      });
    }

init_thread-ok :
    (k : Kernel) (t : ℕ) (name : List ℕ) (prio : ℕ)
    → t ≢ 0
    → k.running ≢ 0
    → k.pid_lock ≡ lock_init
    → (k' : Kernel) × (init_thread k t name prio ≡ ok k')
      × Keeps k k'
      × (k'.ready ≡ k.ready)
      × (k'.all ≡ k.all)
      × ((u : ℕ)
          → status k' u ≡ (
              if u == t
              then (if t == k.main_thread then running_now else ready_to_run)
              else status k u))
unfolding init_thread
init_thread-ok k t name prio there live free = (
  initialised k t name prio,
  rw (==_ne t 0 there, allocate_pid-free k live free) refl,
  record { running = refl; main = refl; free = refl },
  refl,
  refl,
  λ u. ground arith,
)

make_main_thread-ok :
    (k : Kernel)
    → k.running ≢ 0
    → k.pid_lock ≡ lock_init
    → k.all ≡ []
    → (k' : Kernel) × (make_main_thread k ≡ ok k')
      × (k'.running ≡ k.running)
      × (k'.main_thread ≡ k.running)
      × (k'.pid_lock ≡ lock_init)
      × (k'.ready ≡ k.ready)
      × (k'.all ≡ k.running ∷ [])
      × ((u : ℕ) → status k' u ≡ (if u == k.running then running_now else status k u))
unfolding make_main_thread
make_main_thread-ok k live free nobody =
    let (k1, e, keep, ready, all, st) =
      init_thread-ok (record k { main_thread = k.running }) k.running (109 ∷ 97 ∷ 105 ∷ 110 ∷ []) 31
        live live free in
    (
      record k1 { all = k1.all ++ k.running ∷ [] },
      ground (arith, e, all),
      keep.running,
      keep.main,
      keep.free,
      ready,
      ground (arith, all),
      λ u. ground (arith, st u),
    )

thread_start-ok :
    (k : Kernel) (kernel_thread t : ℕ) (name : List ℕ) (prio function func_arg : ℕ)
    → t ≢ 0
    → k.running ≢ 0
    → k.pid_lock ≡ lock_init
    → t ≢ k.main_thread
    → elem t k.ready ≡ false
    → elem t k.all ≡ false
    → (k' : Kernel) × (thread_start k kernel_thread t name prio function func_arg ≡ ok k')
      × (k'.running ≡ k.running)
      × (k'.ready ≡ k.ready ++ t ∷ [])
      × (k'.all ≡ k.all ++ t ∷ [])
      × ((u : ℕ) → status k' u ≡ (if u == t then ready_to_run else status k u))
unfolding thread_start thread_create
thread_start-ok k kernel_thread t name prio function func_arg there live free other new absent =
    let (k1, e, keep, ready, all, st) = init_thread-ok k t name prio there live free in
    let k2 = thread_create k1 kernel_thread t function func_arg in
    (
      record k2 { ready = k1.ready ++ t ∷ []; all = k1.all ++ t ∷ [] },
      ground (arith, e, ready, all),
      keep.running,
      ap (λ l. l ++ t ∷ []) ready,
      ap (λ l. l ++ t ∷ []) all,
      λ u. ground (arith, st u, st t),
    )

-- Where every address counts as that of an ended thread, `thread_init`, in a thread that is not at
-- NULL and with another page, not at NULL either, for the idle thread, succeeds: the caller runs, the idle thread alone is ready, both are on the list
-- of all threads, and the scheduler's invariant holds.
pub thread_init_lem :
    (k : Kernel) (kernel_thread page idle : ℕ)
    → ((t : ℕ) → is_dead (status k t) ≡ true)
    → k.running ≢ 0
    → page ≢ 0
    → page ≢ k.running
    → (k' : Kernel) × (thread_init k kernel_thread page idle ≡ ok k')
      × IsScheduled k'
      × (k'.running ≡ k.running)
      × (k'.ready ≡ page ∷ [])
      × (k'.all ≡ k.running ∷ page ∷ [])
      × (k'.idle_thread ≡ page)
unfolding thread_init
thread_init_lem k kernel_thread page idle nobody live there other =
    let (k1, e1, run1, main1, free1, ready1, all1, st1) =
      make_main_thread-ok (record k { ready = []; all = []; pid_lock = lock_init }) live refl
        refl in
    let (k2, e2, run2, ready2, all2, st2) =
      thread_start-ok k1 kernel_thread page (105 ∷ 100 ∷ 108 ∷ 101 ∷ []) 10 idle 0 there
        (ground (arith, run1)) free1 (ground (arith, main1)) (ground (arith, ready1))
        (ground (arith, all1)) in
    let front : k2.ready ≡ page ∷ [] = ready2 ∙ ap (λ l. l ++ page ∷ []) ready1 in
    (
      record k2 { idle_thread = page },
      rw (e1, e2) refl,
      record {
        queue = record {
          distinct = rw front (refl, tt);
          queued = λ t. ground (arith, front, st2 t, st1 t, nobody t);
          only = λ t h. ground (arith, run2, run1, st2 t, st1 t, nobody t);
          idle = ground (arith, st2 page);
        };
        current = ground (arith, run2, run1, st2 k2.running, st1 k2.running);
      },
      run2 ∙ run1,
      front,
      all2 ∙ ap (λ l. l ++ page ∷ []) all1,
      refl,
    )
