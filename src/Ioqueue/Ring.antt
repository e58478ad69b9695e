-- ===== src/Ioqueue/Ring.antt =====
-- The ring of device/ioqueue.c as the sequence of the characters in it.
use geniux.Base.{
  ℕ, zero, suc, ◌+◌, ◌-◌, ◌%◌, ◌<◌, ◌≡◌, ◌≢◌, refl, sym, ap, ◌∙◌, false, store, arith, none, some,
  ok, List, [], ◌∷◌, ◌++◌, length,
}
use geniux.Interrupt.{intr_off}
use geniux.Ioqueue.{IoQueue, ioq_full, moved, ioq_getchar, ioq_setchar}

-- The `n` characters from index `t` on, going round at 64.
abbrev pub window : (ℕ → ℕ) → ℕ → ℕ → List ℕ
window buf t zero = []
window buf t (suc n) = buf t ∷ window buf ((t + 1) % 64) n

-- How many characters stand between the tail and the head.
abbrev pub filled : IoQueue → ℕ
filled q = (q.head + 64 - q.tail) % 64

abbrev pub contents : IoQueue → List ℕ
contents q = window q.buf q.tail (filled q)

pub record IsValid (q : IoQueue) : Type 0 where
  pub head_in : q.head < 64
  pub tail_in : q.tail < 64
  pub no_producer : q.producer ≡ 0
  pub no_consumer : q.consumer ≡ 0

length-window : (buf : ℕ → ℕ) (t n : ℕ) → length (window buf t n) ≡ n
length-window buf t zero = refl
length-window buf t (suc n) = ap suc (length-window buf ((t + 1) % 64) n)

window-store :
    (buf : ℕ → ℕ) (t n i v : ℕ)
    → t < 64
    → n < 64
    → i ≡ (t + n) % 64
    → window (store buf i v) t (suc n) ≡ window buf t n ++ v ∷ []
window-store buf t zero i v ht hn e = ground arith
window-store buf t (suc n) i v ht hn e =
    ground (arith, window-store buf ((t + 1) % 64) n i v (omega arith) (omega arith) (omega arith))

window-suc :
    (buf : ℕ → ℕ) (t n m : ℕ) → n ≡ suc m → window buf t n ≡ buf t ∷ window buf ((t + 1) % 64) m
window-suc buf t n m e = ap (window buf t) e

-- With interrupts off, on a valid queue that is not full and would not become empty by wrapping,
-- `ioq_setchar` succeeds without waiting or waking: the character stands behind the others.
pub ioq_setchar-append :
    (q : IoQueue) (running byte : ℕ)
    → IsValid q
    → q.tail ≢ (q.head + 1) % 64
    → (q' : IoQueue) × (ioq_setchar intr_off running q byte ≡ ok (moved none none q'))
      × IsValid q'
      × (contents q' ≡ contents q ++ byte ∷ [])
unfolding ioq_setchar
ioq_setchar-append q running byte v room = (
  record q { buf = store q.buf q.head byte; head = (q.head + 1) % 64 },
  ground arith,
  ground arith,
  window-suc (store q.buf q.head byte) q.tail (((q.head + 1) % 64 + 64 - q.tail) % 64) (filled q)
        (omega arith)
      ∙ window-store q.buf q.tail (filled q) q.head byte v.tail_in (omega arith) (omega arith),
)

contents-empty : (q : IoQueue) → q.head ≡ q.tail → contents q ≡ []
contents-empty q e = let z : filled q ≡ 0 = omega arith in ap (window q.buf q.tail) z

pub length-contents : (q : IoQueue) → length (contents q) ≡ filled q
length-contents q = length-window q.buf q.tail (filled q)

contents-cons :
    (q : IoQueue)
    → IsValid q
    → q.head ≢ q.tail
    → contents q
      ≡ q.buf q.tail ∷ window q.buf ((q.tail + 1) % 64) ((q.head + 64 - (q.tail + 1) % 64) % 64)
contents-cons q v ne =
    window-suc q.buf q.tail (filled q) ((q.head + 64 - (q.tail + 1) % 64) % 64) (omega arith)

-- With interrupts off, on a valid queue whose first character is `x`, `ioq_getchar` returns `x`
-- without waiting or waking, and leaves the rest.
pub ioq_getchar-cons :
    (q : IoQueue) (running x : ℕ) (xs : List ℕ)
    → IsValid q
    → contents q ≡ x ∷ xs
    → (q' : IoQueue) × (ioq_getchar intr_off running q ≡ ok (moved (some x) none q'))
      × IsValid q'
      × (contents q' ≡ xs)
unfolding ioq_getchar
ioq_getchar-cons q running x xs v e =
    let ne : q.head ≢ q.tail = λ same. cc (contents-empty q same) in
    let split = contents-cons q v ne in
    (
      record q { tail = (q.tail + 1) % 64 },
      ground (arith, split),
      ground arith,
      ground (arith, split),
    )

-- With interrupts off, on a valid queue that holds 63 characters with its head at 63, and so its
-- tail at 0, `ioq_full` answers no, and `ioq_setchar` loses all of them and its own: the queue is
-- empty after it.
pub ioq_full-wrap :
    (q : IoQueue) (running byte : ℕ)
    → IsValid q
    → length (contents q) ≡ 63
    → q.head ≡ 63
    → (ioq_full intr_off q ≡ ok false)
      × (q' : IoQueue) × (ioq_setchar intr_off running q byte ≡ ok (moved none none q'))
      × (contents q' ≡ [])
unfolding ioq_full ioq_setchar
ioq_full-wrap q running byte v count h =
    let q' : IoQueue = record q { buf = store q.buf q.head byte; head = (q.head + 1) % 64 } in
    let n : filled q ≡ 63 = sym (length-contents q) ∙ count in
    (ground arith, q', ground arith, contents-empty q' (omega arith))
