-- ===== src/Keyboard/Chars.antt =====
-- Which character a key of device/keyboard.c gives.
use geniux.Base.{
  ℕ, ◌-◌, ◌<◌, ◌≡◌, ◌≢◌, refl, Bool, true, false, not, ◌&&◌, ◌||◌, ◌==◌, ==_iff, leb, arith, ok,
  if◌then◌else◌, check_below, check_below_sound, Outcome,
}
use geniux.Interrupt.{intr_off}
use geniux.Ioqueue.{IoQueue, ioq_full}
use geniux.Keyboard.{Keyboard, char_of, uses_shift, put_key, intr_keyboard_handler}

abbrev pub is_letter : ℕ → Bool
is_letter c = leb 97 c && leb c 122

-- What a key should give: the capital of a letter where one of shift and caps lock is on, and the
-- key's upper symbol where shift is on.
unfoldable pub wanted : ℕ → Bool → Bool → ℕ
wanted code shift caps =
    let plain = char_of code false in
    if is_letter plain
    then (if (shift && not caps) || (not shift && caps) then plain - 32 else plain)
    else if shift
    then char_of code true
    else plain

abbrev agree : Bool → Bool → ℕ → Bool
agree shift caps code = char_of code (uses_shift code shift caps) == wanted code shift caps

table :
    (check_below 0x3b (agree true true) && check_below 0x3b (agree true false))
      && (check_below 0x3b (agree false true) && check_below 0x3b (agree false false))
    ≡ true
unfolding check_below char_of uses_shift wanted
table = refl

pub char-wanted :
    (code : ℕ) (shift caps : Bool)
    → code < 0x3b
    → char_of code (uses_shift code shift caps) ≡ wanted code shift caps
char-wanted code true true h =
    (==_iff _ _).0 (check_below_sound 0x3b (agree true true) code (ground (arith, table)) h)
char-wanted code true false h =
    (==_iff _ _).0 (check_below_sound 0x3b (agree true false) code (ground (arith, table)) h)
char-wanted code false true h =
    (==_iff _ _).0 (check_below_sound 0x3b (agree false true) code (ground (arith, table)) h)
char-wanted code false false h =
    (==_iff _ _).0 (check_below_sound 0x3b (agree false false) code (ground (arith, table)) h)

-- A key of the table that has a character, pressed with interrupts off while the queue is not
-- full: the handler puts one character, the capital of a letter where one of shift and caps lock is
-- on and the key's upper symbol where shift is on; and it changes nothing but the queue.
pub handler-char :
    (put : IoQueue → ℕ → Outcome IoQueue) (code : ℕ) (k : Keyboard) (q : IoQueue)
    → 0 < code
    → code < 0x3b
    → wanted code k.shift_status k.caps_lock_status ≢ 0
    → ioq_full intr_off k.ioqueue ≡ ok false
    → put k.ioqueue (wanted code k.shift_status k.caps_lock_status) ≡ ok q
    → intr_keyboard_handler put intr_off code k ≡ ok (record k { ioqueue = q })
unfolding intr_keyboard_handler put_key
handler-char put code k q lo hi some_char room e =
    let c = char-wanted code k.shift_status k.caps_lock_status hi in ground (arith, c)
