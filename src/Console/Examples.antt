-- ===== src/Console/Examples.antt =====
-- Tests and an instance: numbers on the console, and a string that thread 4096 prints.
use geniux.Base.{ℕ, ◌≡◌, refl, none, ok, arith, List, [], ◌∷◌}
use geniux.Sync.{lock_init}
use geniux.Stdio.Text.{digits}
use geniux.Console.{Console, put_int, put_char, based_4bits, skip_prefix_0, console_put_int}
use geniux.Console.Print.{prints, console_put_int_lem}

abbrev console : Console
console = record { console_lock = lock_init; written = [] }

abbrev text : Console → List ℕ
text c = c.written

-- 2023 is "7E7", and 0 is "0".
put_int_test :
    (text (put_int 2023 console) ≡ 55 ∷ 69 ∷ 55 ∷ []) × (text (put_int 0 console) ≡ 48 ∷ [])
unfolding put_int put_char based_4bits skip_prefix_0
put_int_test = (refl, refl)

console_put_int_example :
    console_put_int 4096 2023 console ≡ ok (none, prints console (digits 10 16 2023))
console_put_int_example = console_put_int_lem 4096 2023 console (omega arith) refl (omega arith)
