-- ===== src/Process/Execute.antt =====
-- What `process_execute` of userprog/process.c leaves: a thread that is ready to run a program.
use geniux.Base.{
  ℕ, ◌≡◌, ◌≢◌, refl, sym, false, store, List, [], ◌∷◌, ◌++◌, elem, ok, ==_ne, ==_refl,
}
use geniux.Sync.{lock_init}
use geniux.Interrupt.{restore, intr_set_status, intr_disable}
use geniux.Alloc.{Memory, VirtualAddr}
use geniux.Alloc.Arenas.{block_desc_init}
use geniux.Alloc.Pages.{get_kernel_pages}
use geniux.Thread.{Kernel, init_thread, thread_create, resume, ready_to_run}
use geniux.Thread.Start.{allocate_pid-free, initialised}
use geniux.Process.{System, create_page_dir, create_user_vaddr_bitmap, process_execute}

-- A process to be started: the program and the name, and the addresses of the code that every
-- thread and every process starts in.
pub record Program : Type 0 where
  pub kernel_thread : ℕ
  pub start_process : ℕ
  pub filename : ℕ
  pub name : List ℕ

-- The threads before the new one has its page directory: its task is set up, and its stack.
abbrev pub prepared : Program → Kernel → ℕ → Memory → Memory → Kernel
prepared p k t m1 m2 =
    thread_create
      (record (initialised (record k { words = m1.words }) t p.name 31) { words = m2.words })
      p.kernel_thread t p.start_process p.filename

-- The kernel's heap has a page for the thread, pages for the bitmap of its range, and a page for its
-- directory.
pub record HasPages (p : Program) (s : System) (t : ℕ) (range : VirtualAddr) (pgdir : ℕ)
    (m3 : Memory) : Type 0 where
  pub m1 : Memory
  pub m2 : Memory
  pub thread_page : get_kernel_pages 1 s.memory ≡ ok (t, m1)
  pub live : t ≢ 0
  pub range_pages : create_user_vaddr_bitmap m1 ≡ ok (range, m2)
  pub directory :
      create_page_dir (record m2 { words = (prepared p s.kernel t m1 m2).words }) ≡ ok (pgdir, m3)

init_thread-free :
    (k : Kernel) (t : ℕ) (name : List ℕ)
    → t ≢ 0
    → k.running ≢ 0
    → k.pid_lock ≡ lock_init
    → init_thread k t name 31 ≡ ok (initialised k t name 31)
unfolding init_thread
init_thread-free k t name there live free = rw (==_ne t 0 there, allocate_pid-free k live free) refl

-- In a thread, with the lock of the thread numbers free and the pages at hand, `process_execute` of a
-- page that is on no list yet appends it to the ready threads and to all threads, ready to run, with
-- the directory, the range and free classes of blocks of its own; the interrupt flag, the running
-- thread, and the tasks and ranges of the others are as before.
pub process_execute_lem :
    (p : Program) (s : System) (t pgdir : ℕ) (range : VirtualAddr) (m3 : Memory)
    → s.kernel.running ≢ 0
    → s.kernel.pid_lock ≡ lock_init
    → t ≢ s.kernel.main_thread
    → elem t s.kernel.ready ≡ false
    → elem t s.kernel.all ≡ false
    → HasPages p s t range pgdir m3
    → (s' : System) × (process_execute p.kernel_thread p.start_process p.filename p.name s ≡ ok s')
      × (s'.kernel.ready ≡ s.kernel.ready ++ t ∷ [])
      × (s'.kernel.all ≡ s.kernel.all ++ t ∷ [])
      × ((s'.kernel.task t).status ≡ ready_to_run)
      × ((s'.kernel.task t).pgdir ≡ pgdir)
      × (s'.userprog_vaddr t ≡ range)
      × (s'.u_block_desc t ≡ block_desc_init)
      × (s'.kernel.intr ≡ s.kernel.intr)
      × (s'.kernel.running ≡ s.kernel.running)
      × ((u : ℕ)
          → u ≢ t
          → (s'.kernel.task u ≡ s.kernel.task u) × (s'.userprog_vaddr u ≡ s.userprog_vaddr u))
unfolding process_execute thread_create resume
process_execute_lem p s t pgdir range m3 run free main new absent h =
    let k0 = record s.kernel { words = h.m1.words } in
    let k2 = prepared p s.kernel t h.m1 h.m2 in
    let k3 = record k2 {
      words = m3.words;
      task = store k2.task t (record (k2.task t) { pgdir = pgdir });
    } in
    (
      record s {
        kernel = record k3 {
          intr = (intr_set_status (intr_disable k3.intr).0 (intr_disable k3.intr).1).1;
          ready = k3.ready ++ t ∷ [];
          all = k3.all ++ t ∷ [];
        };
        memory = m3;
        userprog_vaddr = store s.userprog_vaddr t range;
        u_block_desc = store s.u_block_desc t block_desc_init;
      },
      rw
          (
            h.thread_page,
            init_thread-free k0 t p.name h.live run free,
            h.range_pages,
            h.directory,
            new,
            absent,
          )
          refl,
      refl,
      refl,
      rw (==_refl t, ==_ne t s.kernel.main_thread main) refl,
      rw (==_refl t) refl,
      rw (==_refl t) refl,
      rw (==_refl t) refl,
      restore s.kernel.intr,
      refl,
      λ u ne. rw (==_ne t u (λ e. ne (sym e))) (refl, refl),
    )
