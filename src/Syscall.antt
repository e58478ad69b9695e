-- ===== src/Syscall.antt =====
-- userprog/syscall-init.c with the entry of kernel/kernel.S for int 0x80, the calls of
-- lib/user/syscall.c, and the printing that is built on them: `printk` of kernel/stdio-kernel.c and
-- `printf` of lib/stdio.c. `heap.contents` are the bytes of memory, with the stacks; a local array
-- on a stack is the address that it has.
-- The child: what `printk` and `printf` print.
pub mod Printing
mod Examples
use geniux.Base.{
  ℕ, zero, suc, ◌+◌, ◌-◌, ◌%◌, ◌^◌, Bool, true, false, ◌==◌, if◌then◌else◌, Mem, store, Option,
  none, some, List, [], ◌∷◌, Outcome, ok, panic, ◌>>=◌,
}
use geniux.Str.{fill, strlen}
use geniux.Thread.{Kernel, unblock_woken}
use geniux.Malloc.{Heap, sys_malloc, sys_free}
use geniux.Console.{Console, console_put_str}
use geniux.Stdio.{vsprintf}

-- The thread that runs is `running` of `kernel`.
pub record Machine : Type 0 where
  pub kernel : Kernel
  pub heap : Heap
  pub console : Console

-- The functions whose addresses the table has.
pub data SysFunction : Type 0 where
  getpid_function write_function malloc_function free_function : SysFunction

abbrev pub sys_getpid_nr : ℕ
sys_getpid_nr = 0

abbrev pub sys_write_nr : ℕ
sys_write_nr = 1

abbrev pub sys_malloc_nr : ℕ
sys_malloc_nr = 2

abbrev pub sys_free_nr : ℕ
sys_free_nr = 3

unfoldable pub syscall_init : (ℕ → Option SysFunction) → ℕ → Option SysFunction
syscall_init table =
    let t1 = store table sys_getpid_nr (some getpid_function) in
    let t2 = store t1 sys_write_nr (some write_function) in
    let t3 = store t2 sys_malloc_nr (some malloc_function) in
    store t3 sys_free_nr (some free_function)

unfoldable pub sys_getpid : Machine → ℕ
sys_getpid s = (s.kernel.task s.kernel.running).pid

-- `console_put_str`, with the thread that it wakes.
unfoldable pub put_text : ℕ → ℕ → Machine → Outcome Machine
put_text fuel str s = do
  (woken, c) ← console_put_str fuel s.kernel.running s.heap.contents str s.console
  k ← unblock_woken woken s.kernel
  ok (record s { kernel = k; console = c })

unfoldable pub sys_write : ℕ → ℕ → Machine → Outcome (ℕ × Machine)
unfolding put_text
sys_write fuel str s = do s1 ← put_text fuel str s; n ← strlen fuel s1.heap.contents str; ok (n, s1)

abbrev heap_now : Machine → Heap
heap_now s = record s.heap { running = s.kernel.running }

-- `sys_free` returns nothing, and its caller does not read `eax`: a 0 stands there.
unfoldable pub call_function : ℕ → SysFunction → ℕ → Machine → Outcome (ℕ × Machine)
unfolding sys_getpid sys_write
call_function fuel getpid_function ebx s = ok (sys_getpid s, s)
call_function fuel write_function ebx s = sys_write fuel ebx s
call_function fuel malloc_function ebx s = do
  (p, h) ← sys_malloc ebx (heap_now s)
  ok (p, record s { heap = h })
call_function fuel free_function ebx s = do
  h ← sys_free ebx (heap_now s)
  ok (0, record s { heap = h })

-- `int $0x80`. A call of an entry that is not set, which faults, is `panic`.
unfoldable pub syscall_handler :
    ℕ → (ℕ → Option SysFunction) → ℕ → ℕ → Machine → Outcome (ℕ × Machine)
syscall_handler fuel syscall_table eax ebx s = elim (syscall_table eax) [
  | none ↦ panic
  | some f ↦ call_function fuel f ebx s
]

module _ (fuel : ℕ) (syscall_table : ℕ → Option SysFunction) where
  unfoldable pub getpid : ℕ → Machine → Outcome (ℕ × Machine)
  getpid ebx s = syscall_handler fuel syscall_table sys_getpid_nr ebx s

  unfoldable pub write : ℕ → Machine → Outcome (ℕ × Machine)
  write str s = syscall_handler fuel syscall_table sys_write_nr str s

  unfoldable pub malloc : ℕ → Machine → Outcome (ℕ × Machine)
  malloc size s = syscall_handler fuel syscall_table sys_malloc_nr size s

  unfoldable pub free : ℕ → Machine → Outcome Machine
  free ptr s = do (eax, s1) ← syscall_handler fuel syscall_table sys_free_nr ptr s; ok s1

-- `char buf[1024] = { 0 }` at the address `buf`, and `vsprintf` into it.
unfoldable pub print_buffer : ℕ → ℕ → ℕ → (ℕ → ℕ) → Machine → Outcome (ℕ × Machine)
print_buffer fuel buf format args s = do
  (retval, m) ← vsprintf fuel (fill s.heap.contents buf 0 1024) buf format args
  ok (retval, record s { heap = record s.heap { contents = m } })

unfoldable pub printk : ℕ → ℕ → ℕ → (ℕ → ℕ) → Machine → Outcome Machine
unfolding print_buffer put_text
printk fuel buf format args s = do
  (retval, s1) ← print_buffer fuel buf format args s
  put_text fuel buf s1

-- The value that `write` returns is dropped.
unfoldable pub printf :
    ℕ → (ℕ → Option SysFunction) → ℕ → ℕ → (ℕ → ℕ) → Machine → Outcome (ℕ × Machine)
unfolding print_buffer write
printf fuel syscall_table buf format args s = do
  (retval, s1) ← print_buffer fuel buf format args s
  (n, s2) ← write fuel syscall_table buf s1
  ok (retval, s2)
