-- ===== src/Syscall/Printing.antt =====
-- What `printk` of kernel/stdio-kernel.c and `printf` of lib/stdio.c print on the console.
use geniux.Base.{
  ℕ, ◌+◌, ◌^◌, ◌<◌, ◌≤◌, ◌≡◌, ◌≢◌, ◌⊎◌, refl, ◌∙◌, false, ok, arith, Mem, List, length, elem,
  Option,
}
use geniux.Sync.{lock_init}
use geniux.Str.{fill}
use geniux.Str.Blocks.{fill-at}
use geniux.Str.Strings.{IsString, strlen_lem}
use geniux.Stdio.Text.{formatted}
use geniux.Stdio.Print.{Inputs, Inputs-same, vsprintf_lem}
use geniux.Console.Print.{prints, console_put_str_lem}
use geniux.Syscall.{
  Machine, SysFunction, syscall_init, put_text, sys_write, call_function, syscall_handler, write,
  print_buffer, printk, printf,
}

-- No thread has the console, and some thread runs.
abbrev pub Idle : Machine → Type 0
Idle s = (s.kernel.running ≢ 0) × (s.console.console_lock ≡ lock_init)

put_text-ok :
    (fuel str : ℕ) (xs : List ℕ) (s : Machine)
    → Idle s
    → IsString s.heap.contents str xs
    → length xs < fuel
    → put_text fuel str s ≡ ok (record s { console = prints s.console xs })
unfolding put_text
put_text-ok fuel str xs s (live, free) text more =
    rw
      (console_put_str_lem fuel s.kernel.running s.heap.contents str xs s.console live free text
        more)
      refl

write-ok :
    (fuel : ℕ) (table : ℕ → Option SysFunction) (str : ℕ) (xs : List ℕ) (s : Machine)
    → str ≢ 0
    → Idle s
    → IsString s.heap.contents str xs
    → length xs < fuel
    → write fuel (syscall_init table) str s
      ≡ ok (length xs, record s { console = prints s.console xs })
unfolding write syscall_handler syscall_init call_function sys_write
write-ok fuel table str xs s pos idle text more =
    rw
      (
        put_text-ok fuel str xs s idle text more,
        strlen_lem fuel s.heap.contents str xs pos text more,
      )
      refl

-- The place that is written is smaller than the one kept apart.
Inputs-shrink :
    (text : ℕ → List ℕ) (args : ℕ → ℕ) (room lo hi hi' : ℕ) (pos : 0 < lo)
    (words : (k : ℕ) → args k < 2 ^ 32) (m : Mem) (n index : ℕ) (f : List ℕ)
    → hi' ≤ hi
    → Inputs text args room lo hi pos words m n index f
    → Inputs text args room lo hi' pos words m n index f
Inputs-shrink text args room lo hi hi' pos words m n index f le i = record {
  format = i.format;
  apart = omega (arith, i.apart);
  sources = λ k h.
      let (live, s, apart, short) = i.sources k h in (live, s, omega (arith, apart, le), short);
}

-- A call with the arguments `args`, of which those at string directives point to the strings `text`
-- of at most `room` characters.
module _ (text : ℕ → List ℕ) (args : ℕ → ℕ) (room fuel buf format : ℕ) (f : List ℕ) (s : Machine)
    (pos : 0 < buf) (words : (k : ℕ) → args k < 2 ^ 32) (enough : length f + room < fuel)
    (long : length (formatted text args 0 f) < fuel)
    (fits : length (formatted text args 0 f) < 1024)
    (i : Inputs text args room buf (buf + 1023) pos words s.heap.contents 0 format f)
    (none : elem 0 (formatted text args 0 f) ≡ false) where
  -- The bytes of memory after, with nothing written but the buffer.
  abbrev OnlyBuffer : Mem → Type 0
  OnlyBuffer m' = (q : ℕ) → (q < buf) ⊎ (buf + 1023 < q) → m' q ≡ s.heap.contents q

  cleared :
      (q : ℕ) → (q < buf) ⊎ (buf + 1023 < q) → fill s.heap.contents buf 0 1024 q ≡ s.heap.contents q
  cleared q out = fill-at s.heap.contents buf 0 1024 q ∙ ground (arith, out)

  print_buffer-ok :
      (m' : Mem) × (print_buffer fuel buf format args s
        ≡ ok
            (length (formatted text args 0 f), record s { heap = record s.heap { contents = m' } }))
      × IsString m' buf (formatted text args 0 f)
      × OnlyBuffer m'
  unfolding print_buffer
  print_buffer-ok =
      let xs = formatted text args 0 f in
      let m0 = fill s.heap.contents buf 0 1024 in
      let i0 =
        Inputs-shrink text args room buf (buf + 1023) (buf + length xs) pos words m0 0 format f
          (omega (arith, fits))
          (Inputs-same text args room buf (buf + 1023) pos words s.heap.contents m0 0 format f
            cleared i) in
      let clear : m0 (buf + length xs) ≡ 0 =
        fill-at s.heap.contents buf 0 1024 (buf + length xs) ∙ ground (arith, fits) in
      let (m', ran, str, same) =
        vsprintf_lem text args room fuel m0 buf format f pos words enough long i0 clear none in
      (m', rw ran refl, str, λ q out. same q (omega (arith, out, fits)) ∙ cleared q out)

  -- `printk` prints the text that the format stands for, and writes nothing but its buffer.
  pub printk_lem :
      Idle s
      → (m' : Mem) × (printk fuel buf format args s
          ≡ ok (record s {
            heap = record s.heap { contents = m' };
            console = prints s.console (formatted text args 0 f);
          }))
        × OnlyBuffer m'
  unfolding printk
  printk_lem idle =
      let (m', ran, str, same) = print_buffer-ok in
      let after = record s { heap = record s.heap { contents = m' } } in
      (m', rw (ran, put_text-ok fuel buf (formatted text args 0 f) after idle str long) refl, same)

  -- `printf` by a user program, once `syscall_init` has run, with at most 1023 characters to print
  -- and none of them 0, while nobody has the console: through the system call `write` it appends
  -- exactly the text that the format stands for to what the console has printed, it returns the
  -- number of those characters, the console is free again, and of memory only the buffer changes.
  -- The arguments are words, the format and the strings that it prints do not meet the buffer, and
  -- the fuel is more than the characters of the text, and more than those of the format with the
  -- longest string.
  pub printf_lem :
      (table : ℕ → Option SysFunction)
      → Idle s
      → (m' : Mem) × (printf fuel (syscall_init table) buf format args s
          ≡ ok (
            length (formatted text args 0 f),
            record s {
              heap = record s.heap { contents = m' };
              console = prints s.console (formatted text args 0 f);
            },
          ))
        × OnlyBuffer m'
  unfolding printf
  printf_lem table idle =
      let (m', ran, str, same) = print_buffer-ok in
      let after = record s { heap = record s.heap { contents = m' } } in
      (
        m',
        rw
            (
              ran,
              write-ok fuel table buf (formatted text args 0 f) after (λ z. omega (arith, z, pos))
                  idle str long,
            )
            refl,
        same,
      )
