-- ===== src/Keyboard/Modifiers.antt =====
-- The state that the handler of device/keyboard.c keeps of the keys held down.
use geniux.Base.{
  ℕ, ◌+◌, ◌<◌, ◌≡◌, Bool, true, false, not, ◌&&◌, ◌||◌, ◌==◌, ltb, ok, if◌then◌else◌, Outcome, List,
  [], ◌∷◌, elem, ◌>>=◌,
}
use geniux.Keyboard.Chars.{wanted}
use geniux.Interrupt.{intr_off}
use geniux.Ioqueue.{IoQueue}
use geniux.Keyboard.{Keyboard, intr_keyboard_handler}

-- What a byte from the keyboard makes of a key's state, given the key's two make codes.
abbrev pub held : ℕ → ℕ → Bool → ℕ → Bool
held left right b c =
    if (c == left) || (c == right)
    then true
    else if (c == left + 128) || (c == right + 128)
    then false
    else b

abbrev pub after : ℕ → ℕ → Bool → List ℕ → Bool
after left right b [] = b
after left right b (c ∷ cs) = after left right (held left right b c) cs

-- Caps lock changes with each press.
abbrev pub caps_after : Bool → List ℕ → Bool
caps_after b [] = b
caps_after b (c ∷ cs) = caps_after (if c == 0x3a then not b else b) cs

abbrev pub AllBytes : List ℕ → Type 0
AllBytes [] = Unit {0}
AllBytes (c ∷ cs) = (c < 256) × AllBytes cs

-- The keys without a character, whatever shift is.
abbrev silent : ℕ → Bool
silent c = (c == 0) || (c == 0x1d) || (c == 0x2a) || (c == 0x36) || (c == 0x38) || (c == 0x3a)

-- What one interrupt does to the four states.
record Steps (k k' : Keyboard) (c : ℕ) : Type 0 where
  shift : k'.shift_status ≡ held 0x2a 0x36 k.shift_status c
  ctrl : k'.ctrl_status ≡ held 0x1d 0x1d k.ctrl_status c
  alt : k'.alt_status ≡ held 0x38 0x38 k.alt_status c
  caps : k'.caps_lock_status ≡ (if c == 0x3a then not k.caps_lock_status else k.caps_lock_status)

-- No state hangs on a byte that is none of these keys' codes.
abbrev plain : ℕ → Bool
plain c = not (silent c) && (ltb c 128 || (c == 0xe0))

-- The keys after a sequence of bytes, with the queue `q`.
abbrev pub keys_after : List ℕ → Keyboard → IoQueue → Keyboard
keys_after codes k q = record {
  ctrl_status = after 0x1d 0x1d k.ctrl_status codes;
  shift_status = after 0x2a 0x36 k.shift_status codes;
  alt_status = after 0x38 0x38 k.alt_status codes;
  caps_lock_status = caps_after k.caps_lock_status codes;
  ext_scancode = k.ext_scancode || elem 0xe0 codes;
  ioqueue = q;
}

-- What the queue is offered for a byte: the character of a pressed key that has one, if the queue is
-- not full.
abbrev pub offered : (IoQueue → ℕ → Outcome IoQueue) → ℕ → Bool → Bool → IoQueue → Outcome IoQueue
offered put c shift caps q =
    if ltb 0x3a c || silent c || (q.tail == q.head + 1) then ok q else put q (wanted c shift caps)

-- The same for a sequence of bytes, with shift and caps lock as they are then.
pub feed : (IoQueue → ℕ → Outcome IoQueue) → List ℕ → Bool → Bool → IoQueue → Outcome IoQueue
feed put [] shift caps q = ok q
feed put (c ∷ cs) shift caps q = do
  q' ← offered put c shift caps q
  feed put cs (held 0x2a 0x36 shift c) (if c == 0x3a then not caps else caps) q'

module _ (put : IoQueue → ℕ → Outcome IoQueue) where
  -- One interrupt.
  abbrev Handles : ℕ → Keyboard → Type 0
  Handles c k = intr_keyboard_handler put intr_off c k ≡ (
      offered put c k.shift_status k.caps_lock_status k.ioqueue >>= λ q.
      ok (keys_after (c ∷ []) k q))
