-- ===== src/Console/Print.antt =====
-- What a thread prints on the console of device/console.c when no other thread has it.
use geniux.Base.{
  ℕ, zero, suc, ◌+◌, ◌^◌, ◌<◌, ◌≡◌, ◌≢◌, refl, sym, ap, ◌∙◌, none, ok, arith, Mem, List, [], ◌∷◌,
  ◌++◌, length, ==_ne,
}
use mathlib.Core.List.{append-nil}
use geniux.Sync.{lock_init}
use geniux.Sync.Uncontended.{held_by, try_lock-free, try_release-held}
use geniux.Str.Strings.{IsString}
use geniux.Stdio.Text.{digits}
use geniux.Console.{
  Console, put_char, put_str, console_acquire, console_release, console_put_str, console_put_int,
}
use geniux.Console.Numbers.{append_one, put_int_lem}

-- The console with more characters printed.
abbrev pub prints : Console → List ℕ → Console
prints c xs = record c { written = c.written ++ xs }

pub put_str-ok :
    (fuel : ℕ) (m : Mem) (str : ℕ) (xs : List ℕ) (c : Console)
    → IsString m str xs
    → length xs < fuel
    → put_str fuel m str c ≡ ok (prints c xs)
unfolding put_str put_char
put_str-ok zero m str xs c s more = absurd (omega arith)
put_str-ok (suc fuel) m str [] c s more =
    rw s (ap (λ (l : List ℕ). ok (record c { written = l })) (sym (append-nil c.written)))
put_str-ok (suc fuel) m str (x ∷ xs) c s more =
    let next = put_str-ok fuel m (str + 1) xs (put_char x c) s.2 (omega arith) in
    let live = ==_ne x 0 s.1 in
    rw (s.0, live)
      (next ∙ ap (λ (l : List ℕ). ok (record c { written = l })) (append_one c.written xs x))

module _ (t : ℕ) (live : t ≢ 0) (c : Console) (free : c.console_lock ≡ lock_init) where
  acquired : console_acquire t c ≡ ok (record c { console_lock = held_by t })
  unfolding console_acquire
  acquired = rw (free, try_lock-free t live) refl

  released :
      (xs : List ℕ)
      → console_release t (record c { console_lock = held_by t; written = c.written ++ xs })
        ≡ ok (none, prints c xs)
  unfolding console_release
  released xs = rw (try_release-held t, free) refl

-- `console_put_str` of a string by a thread, while nobody has the console: the string is printed, and
-- the console is free again.
pub console_put_str_lem :
    (fuel t : ℕ) (m : Mem) (str : ℕ) (xs : List ℕ) (c : Console)
    → t ≢ 0
    → c.console_lock ≡ lock_init
    → IsString m str xs
    → length xs < fuel
    → console_put_str fuel t m str c ≡ ok (none, prints c xs)
unfolding console_put_str
console_put_str_lem fuel t m str xs c live free s more =
    rw
      (
        acquired t live c free,
        put_str-ok fuel m str xs (record c { console_lock = held_by t }) s more,
      )
      (released t live c free xs)

-- `console_put_int` of a word by a thread, while nobody has the console: it prints the upper-case
-- hexadecimal digits without leading zeros, those that `%x` of `vsprintf` stands for, and the console
-- is free again.
pub console_put_int_lem :
    (t num : ℕ) (c : Console)
    → t ≢ 0
    → c.console_lock ≡ lock_init
    → num < 2 ^ 32
    → console_put_int t num c ≡ ok (none, prints c (digits 10 16 num))
unfolding console_put_int
console_put_int_lem t num c live free small =
    rw (acquired t live c free, put_int_lem num (record c { console_lock = held_by t }) small)
      (released t live c free (digits 10 16 num))
