-- ===== src/Thread.antt =====
-- thread/thread.c, with `process_activate` of userprog/process.c and `update_tss_esp` of
-- userprog/tss.c: threads, the ready list and the switch to the next thread. A thread is the address
-- of its task_struct, which is the start of a page. `ready` and `all` hold the threads whose tags the
-- lists of Links hold; `find` on them is `elem`. `running` is what `running_thread` reads from the
-- stack pointer, and `switch_to` (thread/switch.S) changes it. A function that switches returns the
-- state in which the next thread goes on; what follows the switch in its source is `resume`.
-- The children: the scheduler's invariant, how it moves, and `thread_yield`.
pub mod Invariant
pub mod Order
pub mod Yield
pub mod Start
pub mod Examples
use geniux.Base.{
  ℕ, zero, suc, ◌+◌, ◌-◌, ◌*◌, ◌%◌, ◌^◌, Bool, true, false, not, ◌&&◌, ◌||◌, ◌==◌, if◌then◌else◌,
  store, List, [], ◌∷◌, ◌++◌, elem, Option, none, some, Outcome, ok, panic, ◌>>=◌, ◌>>◌, assert,
}
use geniux.Interrupt.{IntrStatus, intr_on, intr_off, is_off, intr_disable, intr_set_status}
use geniux.Paging.{Words, addr_v2p}
use geniux.Sync.{lock_init, Lock, try_lock, try_release}

-- `enum task_status`
pub data TaskStatus : Type 0 where
  running_now ready_to_run blocked_on waiting hanging died : TaskStatus

abbrev pub is_running : TaskStatus → Bool
is_running running_now = true
is_running _ = false

-- The statuses that `thread_block` accepts and `thread_unblock` undoes.
abbrev pub is_asleep : TaskStatus → Bool
is_asleep blocked_on = true
is_asleep waiting = true
is_asleep hanging = true
is_asleep _ = false

abbrev pub is_ready : TaskStatus → Bool
is_ready ready_to_run = true
is_ready _ = false

abbrev pub is_dead : TaskStatus → Bool
is_dead died = true
is_dead _ = false

pub record Task : Type 0 where
  pub self_kstack : ℕ
  pub pid : ℕ
  pub status : TaskStatus
  pub priority : ℕ
  pub ticks : ℕ
  pub elapsed_ticks : ℕ
  pub name : List ℕ
  pub pgdir : ℕ
  pub stack_magic : ℕ

pub record Kernel : Type 0 where
  pub task : ℕ → Task
  pub ready : List ℕ
  pub all : List ℕ
  pub running : ℕ
  pub main_thread : ℕ
  pub idle_thread : ℕ
  pub intr : IntrStatus
  pub words : Words
  pub cr3 : ℕ
  pub esp0 : ℕ
  pub next_pid : ℕ
  pub pid_lock : Lock

abbrev pub set_status : Kernel → ℕ → TaskStatus → Kernel
set_status k t st = record k { task = store k.task t (record (k.task t) { status = st }) }

-- `intr_set_status(old_status)` when the thread goes on.
unfoldable pub resume : IntrStatus → Kernel → Kernel
resume old k = record k { intr = (intr_set_status old k.intr).1 }

-- `page_dir_activate` and `update_tss_esp`.
unfoldable pub page_dir_activate : Kernel → ℕ → Kernel
page_dir_activate k t = record k {
  cr3 = (if (k.task t).pgdir == 0 then 0x100000 else addr_v2p k.words (k.task t).pgdir);
}

unfoldable pub process_activate : Kernel → ℕ → Kernel
unfolding page_dir_activate
process_activate k t = record (page_dir_activate k t) {
  esp0 = (if not ((k.task t).pgdir == 0) then (t + 4096) % 2 ^ 32 else k.esp0);
}

unfoldable pub thread_unblock : Kernel → ℕ → Outcome Kernel
thread_unblock k t =
    let (old, off) = intr_disable k.intr in
    let k1 = record k { intr = off } in
    if is_asleep (k.task t).status
    then (do
      assert (not (elem t k1.ready))
      ok (resume old (set_status (record k1 { ready = t ∷ k1.ready }) t ready_to_run)))
    else ok (resume old k1)

-- The parts of `schedule`. A thread that only used up its time goes to the end of the line.
unfoldable pub requeue : Kernel → Outcome Kernel
requeue k =
    let cur = k.running in
    if is_running (k.task cur).status
    then (do
      assert (not (elem cur k.ready))
      ok (record k {
        ready = k.ready ++ cur ∷ [];
        task =
            store k.task cur
              (record (k.task cur) { status = ready_to_run; ticks = (k.task cur).priority });
      }))
    else ok k

-- The idle thread is woken if nobody is ready.
unfoldable pub wake_idle : List ℕ → Kernel → Outcome Kernel
wake_idle [] k = thread_unblock k k.idle_thread
wake_idle (_ ∷ _) k = ok k

-- `pop`, and the switch to the thread that it gives.
unfoldable pub switch_next : List ℕ → Kernel → Outcome Kernel
switch_next [] k = panic
switch_next (next ∷ rest) k =
    ok (record (process_activate (set_status (record k { ready = rest }) next running_now) next) {
      running = next;
    })

unfoldable pub schedule : Kernel → Outcome Kernel
schedule k = do
  assert (is_off k.intr)
  k1 ← wake_idle k.ready k
  k2 ← requeue k1
  switch_next k2.ready k2

-- The old status, which the blocked thread restores by `resume` once it runs again.
unfoldable pub thread_block : TaskStatus → Kernel → Outcome (IntrStatus × Kernel)
thread_block stat k = do
  assert (is_asleep stat)
  let (old, off) = intr_disable k.intr
  k' ← schedule (set_status (record k { intr = off }) k.running stat)
  ok (old, k')

-- The source assigns TASK_READY, which is 1 and so INTR_OFF, to `old_status`, and leaves the thread's
-- status as it is.
unfoldable pub thread_yield : Kernel → Outcome (IntrStatus × Kernel)
thread_yield k = do
  let cur = k.running
  let (old, off) = intr_disable k.intr
  assert (not (elem cur k.ready))
  k' ← schedule (record k { intr = off; ready = k.ready ++ cur ∷ [] })
  ok (intr_off, k')

-- The `thread_unblock` that `sema_up` calls for the thread that it wakes.
abbrev pub unblock_woken : Option ℕ → Kernel → Outcome Kernel
unblock_woken none k = ok k
unblock_woken (some t) k = thread_unblock k t

-- `pid_t` has 16 bits. The lock is free or held by the caller, or the call is blocked.
unfoldable pub allocate_pid : Kernel → Outcome (ℕ × Kernel)
allocate_pid k = do
  l ← try_lock k.running k.pid_lock
  let k1 = record k { pid_lock = l; next_pid = (k.next_pid + 1) % 2 ^ 16 }
  (woken, l') ← try_release k1.running k1.pid_lock
  k2 ← unblock_woken woken (record k1 { pid_lock = l' })
  ok (k2.next_pid, k2)

-- `memset` clears the whole task_struct and refuses NULL, as does `strcpy`, which comes behind it;
-- the name must fit its 16 bytes with its final 0.
unfoldable pub init_thread : Kernel → ℕ → List ℕ → ℕ → Outcome Kernel
init_thread k t name prio = do
  assert (not (t == 0))
  (pid, k1) ← allocate_pid k
  ok (record k1 {
    task = store k1.task t (record {
      self_kstack = (t + 4096) % 2 ^ 32;
      pid = pid;
      status = (if t == k.main_thread then running_now else ready_to_run);
      priority = prio % 256;
      ticks = prio % 256;
      elapsed_ticks = 0;
      name = name;
      pgdir = 0;
      stack_magic = 0x66666666;
    });
  })

-- `self_kstack` points to words, so each `sizeof` is scaled by 4: 4 * 76 and 4 * 32 bytes. The
-- thread_stack is ebp, ebx, edi, esi, eip, a return address, the function and its argument; `edi` is
-- not written, since the source writes `ebx` twice.
unfoldable pub thread_create : Kernel → (kernel_thread : ℕ) → ℕ → ℕ → ℕ → Kernel
thread_create k kernel_thread t function func_arg =
    let sp = ((k.task t).self_kstack + 2 ^ 32 - 4 * 76 - 4 * 32) % 2 ^ 32 in
    let w1 = store k.words (sp + 16) kernel_thread in
    let w2 = store w1 (sp + 24) function in
    let w3 = store w2 (sp + 28) func_arg in
    let w4 = store (store (store w3 (sp + 12) 0) (sp + 4) 0) sp 0 in
    record k { words = w4; task = store k.task t (record (k.task t) { self_kstack = sp }) }

-- `thread` is the page that `get_kernel_pages(1)` gives.
unfoldable pub thread_start :
    Kernel → (kernel_thread thread : ℕ) → List ℕ → ℕ → ℕ → ℕ → Outcome Kernel
thread_start k kernel_thread thread name prio function func_arg = do
  k1 ← init_thread k thread name prio
  let k2 = thread_create k1 kernel_thread thread function func_arg
  assert (not (elem thread k2.ready))
  let k3 = record k2 { ready = k2.ready ++ thread ∷ [] }
  assert (not (elem thread k3.all))
  ok (record k3 { all = k3.all ++ thread ∷ [] })

-- The code that the boot loader started becomes a thread; its name is "main".
unfoldable pub make_main_thread : Kernel → Outcome Kernel
unfolding init_thread
make_main_thread k = do
  k1 ← init_thread (record k { main_thread = k.running }) k.running (109 ∷ 97 ∷ 105 ∷ 110 ∷ []) 31
  assert (not (elem k.running k1.all))
  ok (record k1 { all = k1.all ++ k.running ∷ [] })

-- `page` is what `thread_start` gets for the thread "idle".
unfoldable pub thread_init : Kernel → (kernel_thread page idle : ℕ) → Outcome Kernel
unfolding make_main_thread thread_start
thread_init k kernel_thread page idle = do
  k1 ← make_main_thread (record k { ready = []; all = []; pid_lock = lock_init })
  k2 ← thread_start k1 kernel_thread page (105 ∷ 100 ∷ 108 ∷ 101 ∷ []) 10 idle 0
  ok (record k2 { idle_thread = page })
