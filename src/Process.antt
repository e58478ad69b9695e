-- ===== src/Process.antt =====
-- userprog/process.c: a user's page directory, its range of addresses, and the start of its first
-- thread. The words of memory are the threads' and the allocator's at once: each step hands them on.
-- `process_activate` and `page_dir_activate` are in Thread. What is printed on a failure is left out.
-- The children: the directory, the range, and the thread that is left ready.
pub mod Directory
pub mod Range
pub mod Execute
mod Examples
use geniux.Base.{
  ℕ, zero, suc, ◌+◌, ◌-◌, ◌*◌, ◌/◌, ◌%◌, ◌^◌, Bool, not, ◌==◌, elem, if◌then◌else◌, store, List, [],
  ◌∷◌, ◌++◌, Mem, Outcome, ok, ◌>>=◌, ◌>>◌, assert,
}
use geniux.Bitmap.{bitmap_init}
use geniux.Paging.{Words, addr_v2p}
use geniux.Interrupt.{intr_disable}
use geniux.Alloc.{Memory, VirtualAddr, pf_user, entry, get_a_page}
use geniux.Alloc.Pages.{get_kernel_pages}
use geniux.Alloc.Arenas.{BlockDesc, block_desc_init}
use geniux.Thread.{Kernel, init_thread, thread_create, resume}
use geniux.Timer.{div_round_up}
use geniux.Tss.{selector_u_code, selector_u_data}

-- `memcpy` of `left` words.
unfoldable pub copy_words : ℕ → ℕ → ℕ → Words → Words
copy_words zero dst src w = w
copy_words (suc left) dst src w = copy_words left (dst + 4) (src + 4) (store w dst (w src))

-- The upper quarter of the running directory is copied; the last entry maps the directory itself.
unfoldable pub create_page_dir : Memory → Outcome (ℕ × Memory)
create_page_dir s = do
  (page_dir, s1) ← get_kernel_pages 1 s
  if page_dir == 0 then ok (0, s1) else (do
    let w = copy_words 256 (page_dir + 0x300 * 4) (0xfffff000 + 0x300 * 4) s1.words
    ok (
      page_dir,
      record s1 { words = store w (page_dir + 1023 * 4) (entry (addr_v2p w page_dir)) },
    ))

abbrev pub user_vaddr_start : ℕ
user_vaddr_start = 0x8048000

-- `userprog_vaddr` of a new process.
unfoldable pub create_user_vaddr_bitmap : Memory → Outcome (VirtualAddr × Memory)
create_user_vaddr_bitmap s = do
  let bitmap_pg_cnt = div_round_up ((0xc0000000 - user_vaddr_start) / 4096 / 8) 4096
  (bits, s1) ← get_kernel_pages bitmap_pg_cnt s
  let range : VirtualAddr = record {
    vaddr_bitmap = record {
      btmp_bytes_len = (0xc0000000 - user_vaddr_start) / 4096 / 8;
      bits = bits;
    };
    vaddr_start = user_vaddr_start;
  }
  bytes ← bitmap_init s1.bytes range.vaddr_bitmap
  ok (range, record s1 { bytes = bytes })

-- The threads, the allocator, and of each thread `userprog_vaddr` and `u_block_desc`.
pub record System : Type 0 where
  pub kernel : Kernel
  pub memory : Memory
  pub userprog_vaddr : ℕ → VirtualAddr
  pub u_block_desc : ℕ → List BlockDesc

unfoldable pub process_execute :
    (kernel_thread start_process : ℕ) → ℕ → List ℕ → System → Outcome System
process_execute kernel_thread start_process filename name s = do
  (thread, m1) ← get_kernel_pages 1 s.memory
  k1 ← init_thread (record s.kernel { words = m1.words }) thread name 31
  (range, m2) ← create_user_vaddr_bitmap (record m1 { words = k1.words })
  let k2 =
      thread_create (record k1 { words = m2.words }) kernel_thread thread start_process filename
  (pgdir, m3) ← create_page_dir (record m2 { words = k2.words })
  let k3 = record k2 {
    words = m3.words;
    task = store k2.task thread (record (k2.task thread) { pgdir = pgdir });
  }
  let (old, off) = intr_disable k3.intr
  assert (not (elem thread k3.ready))
  assert (not (elem thread k3.all))
  ok (record s {
    kernel =
        resume old
          (record k3 { intr = off; ready = k3.ready ++ thread ∷ []; all = k3.all ++ thread ∷ [] });
    memory = m3;
    userprog_vaddr = store s.userprog_vaddr thread range;
    u_block_desc = store s.u_block_desc thread block_desc_init;
  })

-- `struct intr_stack` of thread/thread.h without `vec_no` and `err_code`, which are not written.
pub record IntrStack : Type 0 where
  pub edi : ℕ
  pub esi : ℕ
  pub ebp : ℕ
  pub esp_dummy : ℕ
  pub ebx : ℕ
  pub edx : ℕ
  pub ecx : ℕ
  pub eax : ℕ
  pub gs : ℕ
  pub fs : ℕ
  pub es : ℕ
  pub ds : ℕ
  pub eip : ℕ
  pub cs : ℕ
  pub eflags : ℕ
  pub esp : ℕ
  pub ss : ℕ

-- The address of the frame, which becomes the stack pointer, and what `intr_exit` pops from it. The
-- flags are EFLAGS_IOPL_0, EFLAGS_MBS and EFLAGS_IF_1.
unfoldable pub start_process : ℕ → Kernel → Memory → Outcome (ℕ × IntrStack × Memory)
start_process function k s = do
  let proc_stack = ((k.task k.running).self_kstack + 32) % 2 ^ 32
  (page, s1) ← get_a_page k.running pf_user (0xc0000000 - 0x1000) s
  ok (
    proc_stack,
    record {
      edi = 0;
      esi = 0;
      ebp = 0;
      esp_dummy = 0;
      ebx = 0;
      edx = 0;
      ecx = 0;
      eax = 0;
      gs = 0;
      fs = selector_u_data;
      es = selector_u_data;
      ds = selector_u_data;
      eip = function;
      cs = selector_u_code;
      eflags = 0 + 2 + 2 ^ 9;
      esp = (page + 4096) % 2 ^ 32;
      ss = selector_u_data;
    },
    s1,
  )
