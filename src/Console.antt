-- ===== src/Console.antt =====
-- device/console.c, and the routines of lib/kernel/print.S that it calls. `written` is what
-- `put_char` has been given, the first character first; the cursor and the video memory are left
-- out. A thread that has to wait for the console is `blocked`.
-- The children: what the console prints, and numbers.
pub mod Numbers
pub mod Print
mod Examples
use geniux.Base.{
  ℕ, zero, suc, ◌+◌, ◌-◌, ◌/◌, ◌%◌, ◌^◌, Bool, true, false, ◌==◌, ltb, if◌then◌else◌, Mem, Option,
  none, some, List, [], ◌∷◌, ◌++◌, Outcome, ok, out_of_fuel, ◌>>=◌,
}
use geniux.Sync.{Lock, lock_init, try_lock, try_release}

pub record Console : Type 0 where
  pub console_lock : Lock
  pub written : List ℕ

unfoldable pub put_char : ℕ → Console → Console
put_char ch c = record c { written = c.written ++ ch ∷ [] }

-- The loop reads one character after the other until it reads a 0.
unfoldable pub put_str : ℕ → Mem → ℕ → Console → Outcome Console
unfolding put_char
put_str zero m str c = out_of_fuel
put_str (suc fuel) m str c =
    let rest = put_str fuel m (str + 1) (put_char (m str) c) in if m str == 0 then ok c else rest

-- `put_int_buffer` after `ecx` rounds from the lowest digit on, in front of those already there.
unfoldable pub based_4bits : ℕ → ℕ → List ℕ → List ℕ
based_4bits zero eax buffer = buffer
based_4bits (suc ecx) eax buffer =
    let edx = eax % 16 in
    based_4bits ecx (eax / 16) ((if ltb 9 edx then edx - 10 + 65 else edx + 48) ∷ buffer)

-- The zeros in front are skipped, and one is printed where there is nothing else.
unfoldable pub skip_prefix_0 : List ℕ → List ℕ
skip_prefix_0 [] = 48 ∷ []
skip_prefix_0 (cl ∷ buffer) =
    let rest = skip_prefix_0 buffer in if cl == 48 then rest else cl ∷ buffer

abbrev put_each_num : List ℕ → Console → Console
put_each_num [] c = c
put_each_num (cl ∷ buffer) c = put_each_num buffer (put_char cl c)

unfoldable pub put_int : ℕ → Console → Console
unfolding put_char based_4bits skip_prefix_0
put_int num c = put_each_num (skip_prefix_0 (based_4bits 8 num [])) c

-- The message that it prints is left out.
unfoldable pub console_init : Console → Console
console_init c = record c { console_lock = lock_init }

unfoldable pub console_acquire : ℕ → Console → Outcome Console
console_acquire running c = do
  l ← try_lock running c.console_lock
  ok (record c { console_lock = l })

-- The thread that the release wakes, if one waits.
unfoldable pub console_release : ℕ → Console → Outcome (Option ℕ × Console)
console_release running c = do
  (woken, l) ← try_release running c.console_lock
  ok (woken, record c { console_lock = l })

unfoldable pub console_put_str : ℕ → ℕ → Mem → ℕ → Console → Outcome (Option ℕ × Console)
unfolding put_str console_acquire console_release
console_put_str fuel running m str c = do
  c1 ← console_acquire running c
  c2 ← put_str fuel m str c1
  console_release running c2

unfoldable pub console_put_char : ℕ → ℕ → Console → Outcome (Option ℕ × Console)
unfolding put_char console_acquire console_release
console_put_char running ch c = do
  c1 ← console_acquire running c
  console_release running (put_char (ch % 256) c1)

unfoldable pub console_put_int : ℕ → ℕ → Console → Outcome (Option ℕ × Console)
unfolding put_int console_acquire console_release
console_put_int running num c = do
  c1 ← console_acquire running c
  console_release running (put_int num c1)
