-- ===== src/Keyboard.antt =====
-- device/keyboard.c: the keyboard's interrupt handler. `scancode` is the byte read from port 0x60.
-- The source calls `ioq_putchar`, which no file of the repository defines: it is the parameter
-- `put`, what it does to the queue.
-- The children: the table of keys, the character of a key, the keys that change the state.
pub mod Keymap
pub mod Chars
pub mod Modifiers
mod Examples
use geniux.Base.{
  ℕ, ◌+◌, ◌-◌, ◌*◌, ◌/◌, ◌%◌, ◌^◌, Bool, true, false, not, ◌&&◌, ◌||◌, ◌==◌, ltb, if◌then◌else◌,
  List, [], ◌∷◌, Outcome, ok, ◌>>=◌,
}
use geniux.Interrupt.{IntrStatus}
use geniux.Ioqueue.{IoQueue, ioq_full}
use geniux.Keyboard.Keymap.{keymap, row}

pub record Keyboard : Type 0 where
  pub ctrl_status : Bool
  pub shift_status : Bool
  pub alt_status : Bool
  pub caps_lock_status : Bool
  pub ext_scancode : Bool
  pub ioqueue : IoQueue

-- `scancode & 0x0080`, and `scancode &= 0xff7f`.
abbrev pub is_break : ℕ → Bool
is_break scancode = scancode / 2 ^ 7 % 2 == 1

abbrev pub make_code : ℕ → ℕ
make_code scancode = scancode - scancode / 2 ^ 7 % 2 * 2 ^ 7

-- The keys of digits and symbols, where shift alone counts.
abbrev pub is_symbol : ℕ → Bool
is_symbol scancode =
    ltb scancode 0x0e
    || (scancode == 0x29)
    || (scancode == 0x1a)
    || (scancode == 0x1b)
    || (scancode == 0x2b)
    || (scancode == 0x27)
    || (scancode == 0x28)
    || (scancode == 0x33)
    || (scancode == 0x34)
    || (scancode == 0x35)

unfoldable pub uses_shift : ℕ → Bool → Bool → Bool
uses_shift scancode shift_down caps_lock =
    if is_symbol scancode
    then shift_down
    else if shift_down && caps_lock
    then false
    else if shift_down || caps_lock
    then true
    else false

-- `keymap[index][shift]`
unfoldable pub char_of : ℕ → Bool → ℕ
char_of scancode shift = let r = row keymap (scancode % 2 ^ 8) in if shift then r.1 else r.0

unfoldable pub released : ℕ → Keyboard → Keyboard
released code k =
    if (code == 0x1d) || (code == 0xe01d)
    then record k { ctrl_status = false }
    else if (code == 0x2a) || (code == 0x36)
    then record k { shift_status = false }
    else if (code == 0x38) || (code == 0xe038)
    then record k { alt_status = false }
    else k

unfoldable pub pressed : ℕ → Keyboard → Keyboard
pressed code k =
    if (code == 0x1d) || (code == 0xe01d)
    then record k { ctrl_status = true }
    else if (code == 0x2a) || (code == 0x36)
    then record k { shift_status = true }
    else if (code == 0x38) || (code == 0xe038)
    then record k { alt_status = true }
    else if code == 0x3a
    then record k { caps_lock_status = not k.caps_lock_status }
    else k

unfoldable pub put_key :
    (IoQueue → ℕ → Outcome IoQueue) → IntrStatus → ℕ → Keyboard → Outcome Keyboard
put_key put flag cur_char k = do
  full ← ioq_full flag k.ioqueue
  if full then ok k else (do q ← put k.ioqueue cur_char; ok (record k { ioqueue = q }))

unfoldable pub intr_keyboard_handler :
    (IoQueue → ℕ → Outcome IoQueue) → IntrStatus → ℕ → Keyboard → Outcome Keyboard
unfolding released pressed put_key uses_shift char_of
intr_keyboard_handler put flag scancode k =
    if scancode == 0xe0
    then ok (record k { ext_scancode = true })
    else if is_break scancode
    then ok (released (make_code scancode) k)
    else if (ltb 0 scancode && ltb scancode 0x3b) || (scancode == 0xe038) || (scancode == 0xe01d)
    then (let cur_char = char_of scancode (uses_shift scancode k.shift_status k.caps_lock_status) in
        if not (cur_char == 0) then put_key put flag cur_char k else ok (pressed scancode k))
    else ok k

-- The interrupts of a sequence of scan codes.
unfoldable pub type_all :
    (IoQueue → ℕ → Outcome IoQueue) → IntrStatus → List ℕ → Keyboard → Outcome Keyboard
unfolding intr_keyboard_handler
type_all put flag [] k = ok k
type_all put flag (c ∷ cs) k = do k' ← intr_keyboard_handler put flag c k; type_all put flag cs k'
