-- ===== src/Stdio.antt =====
-- lib/stdio.c: formatted printing into memory. The arguments behind `format` are the words that
-- `va_arg` reads one after the other, `args n` the n-th. The loops run on fuel.
-- The children: digits, the text that a format stands for, what the directives and the loop write,
-- and `vsprintf`.
pub mod Digits
pub mod Text
pub mod Numbers
pub mod Format
pub mod Directive
pub mod Print
pub mod Examples
use geniux.Base.{
  ℕ, zero, suc, ◌+◌, ◌-◌, ◌/◌, ◌%◌, ◌^◌, Bool, true, false, not, ◌==◌, ltb, if◌then◌else◌, store,
  Mem, Outcome, ok, out_of_fuel, ◌>>=◌,
}
use geniux.Str.{strcpy, strlen}

-- `m + '0'` or `m + 'A' - 10`
abbrev pub digit_char : ℕ → ℕ
digit_char m = if ltb m 10 then m + 48 else m + 65 - 10

-- The memory and the buffer's pointer after; `value` is written in as many rounds as it has digits.
unfoldable pub itoa : ℕ → Mem → ℕ → ℕ → ℕ → Outcome (Mem × ℕ)
itoa zero m value buf base = out_of_fuel
itoa (suc fuel) m value buf base = do
  let i = value / base
  let rest = itoa fuel m i buf base
  (m', buf') ← (if i == 0 then ok (m, buf) else rest)
  ok (store m' buf' (digit_char (value % base)), buf' + 1)

-- `case 'd'`: a negative number is an `arg_int` from 2 ^ 31 on.
unfoldable pub put_decimal : Mem → ℕ → ℕ → Outcome (Mem × ℕ)
unfolding itoa
put_decimal m buf arg =
    if ltb arg (2 ^ 31)
    then itoa 10 m arg buf 10
    else itoa 10 (store m buf 45) ((2 ^ 32 - arg) % 2 ^ 32) (buf + 1) 10

-- The loop of `vsprintf`, with `n` arguments taken. A directive that is not known is left out, and
-- its letter is read again as the next character.
unfoldable pub format_from : ℕ → Mem → (ℕ → ℕ) → ℕ → ℕ → ℕ → Outcome Mem
format_from zero m args n buf index = out_of_fuel
format_from (suc fuel) m args n buf index =
    let c = m (index + 1) in
    let literal = format_from fuel (store m buf (m index)) args n (buf + 1) (index + 1) in
    let string = (do
      (d, m1) ← strcpy fuel m buf (args n)
      k ← strlen fuel m1 (args n)
      format_from fuel m1 args (n + 1) (buf + k) (index + 2)) in
    let hexadecimal = (do
      (m1, buf') ← itoa 10 m (args n) buf 16
      format_from fuel m1 args (n + 1) buf' (index + 2)) in
    let decimal = (do
      (m1, buf') ← put_decimal m buf (args n)
      format_from fuel m1 args (n + 1) buf' (index + 2)) in
    let character =
      format_from fuel (store m buf (args n % 256)) args (n + 1) (buf + 1) (index + 2) in
    let unknown = format_from fuel m args n buf (index + 1) in
    if m index == 0
    then ok m
    else if not (m index == 37)
    then literal
    else if c == 115
    then string
    else if c == 120
    then hexadecimal
    else if c == 100
    then decimal
    else if c == 99
    then character
    else unknown

unfoldable pub vsprintf : ℕ → Mem → ℕ → ℕ → (ℕ → ℕ) → Outcome (ℕ × Mem)
unfolding format_from
vsprintf fuel m str format args = do
  m' ← format_from fuel m args 0 str format
  k ← strlen fuel m' str
  ok (k, m')

unfoldable pub sprintf : ℕ → Mem → ℕ → ℕ → (ℕ → ℕ) → Outcome (ℕ × Mem)
unfolding vsprintf
sprintf fuel m des format args = do (retval, m') ← vsprintf fuel m des format args; ok (retval, m')
