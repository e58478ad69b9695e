-- ===== src/Syscall/Examples.antt =====
-- Tests and instances: the kernel's main thread prints "%s %d" of "ok" and -7, and calls by number.
use geniux.Base.{
  ℕ, ◌+◌, ◌<◌, ◌≡◌, ◌⊎◌, inl, refl, sym, ap, subst, none, ok, arith, Mem, List, [], ◌∷◌, length,
  elem, Option, Outcome, ◌>>=◌,
}
use geniux.Sync.{lock_init}
use geniux.Thread.Examples.{kernel}
use geniux.Malloc.Examples.{heap}
use geniux.Stdio.Format.{IsSource}
use geniux.Stdio.Text.{formatted}
use geniux.Stdio.Print.{Inputs}
use geniux.Stdio.Examples.{
  greeting, word, two_args, both, greeting_text, two_args-words, one_string,
}
use geniux.Console.Print.{prints}
use geniux.Syscall.{
  Machine, SysFunction, syscall_init, getpid, syscall_handler, call_function, sys_getpid, printf,
}
use geniux.Syscall.Printing.{printf_lem}

abbrev machine : Machine
machine = record {
  kernel = kernel;
  heap = record heap { contents = both };
  console = record { console_lock = lock_init; written = 62 ∷ [] };
}

abbrev empty_table : ℕ → Option SysFunction
empty_table nr = none

abbrev result : Outcome (ℕ × Machine) → Outcome ℕ
result r = do (n, s) ← r; ok n

-- The running thread of `kernel` has the number 1.
getpid_test : result (getpid 9 (syscall_init empty_table) 0 machine) ≡ ok 1
unfolding getpid syscall_handler syscall_init call_function sys_getpid
getpid_test = refl

short : (bound : ℕ) → 5 < bound → length (formatted word two_args 0 greeting) < bound
short bound h = subst (λ (l : List ℕ). length l < bound) (sym greeting_text) h

inputs : Inputs word two_args 2 100 (100 + 1023) (omega arith) two_args-words both 0 16 greeting
inputs = record {
  format = (
    refl,
    omega arith,
    (refl, omega arith, (refl, omega arith, (refl, omega arith, (refl, omega arith, refl)))),
  );
  apart = inl (omega arith);
  sources = λ k h.
      subst (IsSource word two_args both 2 100 (100 + 1023)) (sym (one_string k h)) (
        omega arith,
        (refl, omega arith, (refl, omega arith, refl)),
        inl (omega arith),
        omega arith,
      );
}

printf_example :
    (m' : Mem) × (printf 9 (syscall_init empty_table) 100 16 two_args machine
      ≡ ok (
        length (formatted word two_args 0 greeting),
        record machine {
          heap = record machine.heap { contents = m' };
          console = prints machine.console (formatted word two_args 0 greeting);
        },
      ))
    × ((q : ℕ) → (q < 100) ⊎ (100 + 1023 < q) → m' q ≡ both q)
printf_example =
    printf_lem word two_args 2 9 100 16 greeting machine (omega arith) two_args-words (omega arith)
      (short 9 (omega arith)) (short 1024 (omega arith)) inputs (ap (elem 0) greeting_text)
      empty_table (omega arith, refl)
