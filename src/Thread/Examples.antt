-- ===== src/Thread/Examples.antt =====
-- Tests and instances: the threads at 4096, which runs, and at 8192, the idle thread, which sleeps.
use geniux.Base.{ℕ, ◌≡◌, refl, arith, List, [], ◌∷◌, ok, store}
use geniux.Interrupt.{intr_off}
use geniux.Thread.{thread_init, TaskStatus, running_now, blocked_on, died, Task, Kernel, schedule}
use geniux.Thread.Invariant.{IsScheduled}
use geniux.Thread.Order.{schedule_lem}
use geniux.Thread.Start.{thread_init_lem}

abbrev task_of : TaskStatus → Task
task_of st = record {
  self_kstack = 0;
  pid = 1;
  status = st;
  priority = 31;
  ticks = 3;
  elapsed_ticks = 0;
  name = [];
  pgdir = 0;
  stack_magic = 0x66666666;
}

abbrev pub kernel : Kernel
kernel = record {
  task = store (store (λ _. task_of died) 4096 (task_of running_now)) 8192 (task_of blocked_on);
  ready = [];
  all = 4096 ∷ 8192 ∷ [];
  running = 4096;
  main_thread = 4096;
  idle_thread = 8192;
  intr = intr_off;
  words = λ _. 0;
  cr3 = 0;
  esp0 = 0;
  next_pid = 2;
  pid_lock = record {
    holder = 0;
    semaphore = record { value = 1; waiters = [] };
    holder_repeat_nr = 0;
  };
}

pub kernel-IsScheduled : IsScheduled kernel
kernel-IsScheduled = record {
  queue = record {
    distinct = tt;
    queued = λ t. ground arith;
    only = λ t h. ground arith;
    idle = refl;
  };
  current = refl;
}

schedule_example :
    (next : ℕ) × (rest : List ℕ) × (8192 ∷ 4096 ∷ [] ≡ next ∷ rest)
    × (k' : Kernel) × (schedule kernel ≡ ok k')
    × IsScheduled k'
    × (k'.running ≡ next)
    × (k'.ready ≡ rest)
    × (k'.intr ≡ intr_off)
schedule_example = schedule_lem kernel kernel-IsScheduled.queue refl

abbrev bare : Kernel
bare = record kernel { task = λ _. task_of died; all = []; idle_thread = 0; main_thread = 0 }

thread_init_example :
    (k' : Kernel) × (thread_init bare 0x1000 8192 0x2000 ≡ ok k')
    × IsScheduled k'
    × (k'.running ≡ 4096)
    × (k'.ready ≡ 8192 ∷ [])
    × (k'.all ≡ 4096 ∷ 8192 ∷ [])
    × (k'.idle_thread ≡ 8192)
thread_init_example =
    thread_init_lem bare 0x1000 8192 0x2000 (λ t. refl) (omega arith) (omega arith) (omega arith)
