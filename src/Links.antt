-- ===== src/Links.antt =====
-- lib/kernel/list.c: the kernel's doubly linked lists, whose elements are links inside other
-- objects. An element is its address. A `struct list` at address `l` is two guards: `head` at `l`
-- and `tail` at `l + 8`. The loops over a list run on fuel.
-- The children: chains of links, the operations that relink, the loops, and the lists themselves.
pub mod Chain
pub mod Insert
pub mod Remove
pub mod Walk
pub mod Refine
pub mod Apart
mod Examples
use geniux.Base.{
  ℕ, zero, suc, ◌+◌, ◌%◌, ◌^◌, Bool, true, false, not, Option, none, some, ◌==◌, if◌then◌else◌,
  store, Outcome, ok, out_of_fuel, ◌>>=◌, ◌>>◌, assert,
}
use geniux.Interrupt.{IntrStatus, intr_disable, intr_set_status}

-- The `prev` and `next` field of the element at each address, and the processor's interrupt flag.
pub record Links : Type 0 where
  pub prev : ℕ → ℕ
  pub next : ℕ → ℕ
  pub intr : IntrStatus

abbrev pub set_next : Links → ℕ → ℕ → Links
set_next s p q = record s { next = store s.next p q }

abbrev pub set_prev : Links → ℕ → ℕ → Links
set_prev s p q = record s { prev = store s.prev p q }

-- `&plist->tail`
abbrev pub tail : ℕ → ℕ
tail l = l + 8

unfoldable pub list_init : Links → ℕ → Links
list_init s l =
    let s1 = set_prev s l 0 in
    let s2 = set_next s1 l (tail l) in let s3 = set_prev s2 (tail l) l in set_next s3 (tail l) 0

unfoldable pub insert : Links → ℕ → ℕ → Links
insert s before elem =
    let (old, off) = intr_disable s.intr in
    let s1 = set_next (record s { intr = off }) elem before in
    let s2 = set_prev s1 elem (s1.prev before) in
    let s3 = set_next s2 (s2.prev before) elem in
    let s4 = set_prev s3 before elem in record s4 { intr = (intr_set_status old s4.intr).1 }

unfoldable pub push : Links → ℕ → ℕ → Links
push s l elem = insert s (s.next l) elem

unfoldable pub append : Links → ℕ → ℕ → Links
append s l elem = insert s (tail l) elem

unfoldable pub remove : Links → ℕ → Links
remove s elem =
    let (old, off) = intr_disable s.intr in
    let s1 = record s { intr = off } in
    let s2 = set_next s1 (s1.prev elem) (s1.next elem) in
    let s3 = set_prev s2 (s2.next elem) (s2.prev elem) in
    record s3 { intr = (intr_set_status old s3.intr).1 }

unfoldable pub pop : Links → ℕ → Outcome (ℕ × Links)
pop s l = do assert (not (s.next l == tail l)); let ret = s.next l; ok (ret, remove s (s.next l))

unfoldable pub empty : Links → ℕ → Bool
empty s l = s.next l == tail l

pub len_from : ℕ → Links → ℕ → ℕ → ℕ → Outcome ℕ
len_from zero s l next ret = out_of_fuel
len_from (suc fuel) s l next ret =
    let rest = len_from fuel s l (s.next next) ((ret + 1) % 2 ^ 32) in
    if next == tail l then ok ret else rest

unfoldable pub len : ℕ → Links → ℕ → Outcome ℕ
unfolding len_from
len fuel s l = len_from fuel s l (s.next l) 0

-- The callback is a test of the element and the argument; `none` is NULL.
pub traverse_from : ℕ → Links → ℕ → (ℕ → ℕ → Bool) → ℕ → ℕ → Outcome (Option ℕ)
traverse_from zero s l func arg elem = out_of_fuel
traverse_from (suc fuel) s l func arg elem =
    let rest = traverse_from fuel s l func arg (s.next elem) in
    if elem == tail l then ok none else if func elem arg then ok (some elem) else rest

unfoldable pub traversal : ℕ → Links → ℕ → (ℕ → ℕ → Bool) → ℕ → Outcome (Option ℕ)
unfolding traverse_from
traversal fuel s l func arg =
    if empty s l then ok none else traverse_from fuel s l func arg (s.next l)

pub find_from : ℕ → Links → ℕ → ℕ → ℕ → Outcome Bool
find_from zero s l obj ptr = out_of_fuel
find_from (suc fuel) s l obj ptr =
    let rest = find_from fuel s l obj (s.next ptr) in
    if ptr == tail l then ok false else if ptr == obj then ok true else rest

unfoldable pub find : ℕ → Links → ℕ → ℕ → Outcome Bool
unfolding find_from
find fuel s l obj = find_from fuel s l obj (s.next l)
