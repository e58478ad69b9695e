-- ===== src/Keyboard/Examples.antt =====
-- Tests and instances, with a queue that takes every character at its head.
use geniux.Base.{ℕ, ◌+◌, ◌%◌, ◌≡◌, refl, true, false, arith, store, ok, Outcome, List, [], ◌∷◌}
use geniux.Interrupt.{intr_off}
use geniux.Ioqueue.{IoQueue, ioq_full}
use geniux.Keyboard.{Keyboard, intr_keyboard_handler, char_of}
use geniux.Keyboard.Chars.{wanted, handler-char}

abbrev put : IoQueue → ℕ → Outcome IoQueue
put q c = ok (record q { buf = store q.buf q.head c; head = (q.head + 1) % 64 })

abbrev queue : IoQueue
queue = record {
  lock = record {
    holder = 0;
    semaphore = record { value = 1; waiters = [] };
    holder_repeat_nr = 0;
  };
  producer = 0;
  consumer = 0;
  buf = λ _. 0;
  head = 0;
  tail = 0;
}

abbrev keys : Keyboard
keys = record {
  ctrl_status = false;
  shift_status = true;
  alt_status = false;
  caps_lock_status = false;
  ext_scancode = false;
  ioqueue = queue;
}

-- With shift down the key of `a` gives `A`.
abbrev typed : IoQueue
typed = record queue { buf = store (λ _. 0) 0 65; head = 1 }

room : ioq_full intr_off queue ≡ ok false
unfolding ioq_full
room = refl

capital : wanted 0x1e true false ≡ 65
unfolding wanted char_of
capital = refl

handler-char_example :
    intr_keyboard_handler put intr_off 0x1e keys ≡ ok (record keys { ioqueue = typed })
unfolding wanted char_of
handler-char_example =
    handler-char put 0x1e keys typed (omega arith) (omega arith) (omega arith) room refl

-- Shift pressed, `a`, shift released, caps lock, a prefix and ctrl.
abbrev codes : List ℕ
codes = 0x2a ∷ 0x1e ∷ 0xaa ∷ 0x3a ∷ 0xe0 ∷ 0x1d ∷ []
