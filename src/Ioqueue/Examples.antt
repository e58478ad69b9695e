-- ===== src/Ioqueue/Examples.antt =====
-- Tests and instances: an empty queue, one that holds one character, and one that is full at 63.
use geniux.Base.{◌≡◌, refl, false, arith, inl, none, some, ok, [], ◌∷◌}
use geniux.Interrupt.{intr_off}
use geniux.Sync.{lock_init}
use geniux.Ioqueue.{IoQueue, ioq_full, moved, ioq_getchar, ioq_setchar}
use geniux.Ioqueue.Ring.{IsValid, contents, ioq_setchar-append, ioq_getchar-cons, ioq_full-wrap}
use geniux.Ioqueue.Waiters.{WokeNobody, nobody_woken}

abbrev none_held : IoQueue
none_held = record {
  lock = lock_init;
  producer = 0;
  consumer = 0;
  buf = λ i. i;
  head = 5;
  tail = 5;
}

abbrev one_held : IoQueue
one_held = record none_held { head = 6 }

abbrev full : IoQueue
full = record none_held { head = 63; tail = 0 }

setchar_example :
    (q' : IoQueue) × (ioq_setchar intr_off 4096 one_held 97 ≡ ok (moved none none q'))
    × IsValid q'
    × (contents q' ≡ 5 ∷ 97 ∷ [])
setchar_example = ioq_setchar-append one_held 4096 97 (omega arith) (omega arith)

getchar_example :
    (q' : IoQueue) × (ioq_getchar intr_off 4096 one_held ≡ ok (moved (some 5) none q'))
    × IsValid q'
    × (contents q' ≡ [])
getchar_example = ioq_getchar-cons one_held 4096 5 [] (omega arith) refl

full_wrap_example :
    (ioq_full intr_off full ≡ ok false)
    × (q' : IoQueue) × (ioq_setchar intr_off 4096 full 97 ≡ ok (moved none none q'))
    × (contents q' ≡ [])
full_wrap_example = ioq_full-wrap full 4096 97 (omega arith) refl refl

nobody_woken_example : WokeNobody (moved (some 5) none (record one_held { tail = 6 }))
unfolding ioq_getchar
nobody_woken_example =
    nobody_woken intr_off 4096 one_held 97 (moved (some 5) none (record one_held { tail = 6 }))
      (refl, refl) (inl refl)
