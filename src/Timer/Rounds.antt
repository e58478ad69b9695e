-- ===== src/Timer/Rounds.antt =====
-- No thread that is ready waits for ever: the scheduler of thread/thread.c under the clock.
use geniux.Base.{
  ℕ, zero, suc, ◌+◌, ◌*◌, ◌%◌, ◌^◌, ◌≤◌, ◌≡◌, refl, sym, ap, ◌∙◌, true, ◌==◌, arith, Bool-cases,
  inl, inr, List, [], ◌∷◌, ◌++◌, length, length-append, elem, ok, ◌>>=◌, Outcome, ==_iff,
}
use mathlib.Core.List.{append_assoc}
use geniux.Thread.{Kernel, process_activate, page_dir_activate}
use geniux.Thread.Invariant.{IsScheduled}
use geniux.Timer.{intr_timer_handler}
use geniux.Timer.Fair.{
  gated, interrupts, IsWhole, gated-IsScheduled, gated-IsWhole, ticked, ticked-IsScheduled,
  ticked-IsWhole, tick-more, rotated, rotated-IsWhole, tick-last,
}

-- What the clock's interrupts lead to: the first in line runs, and the caller is last.
record Switched (n t : ℕ) (k : Kernel) (next : ℕ) (rest : List ℕ) : Type 0 where
  after : Kernel
  ran : interrupts n t k ≡ ok ((t + n) % 2 ^ 32, after)
  scheduled : IsScheduled after
  whole : IsWhole after
  running : after.running ≡ next
  ready : after.ready ≡ rest ++ k.running ∷ []

-- A thread with `n` ticks left runs for `n` interrupts more, and at the next one the first in line
-- takes over.
slice :
    (n t next : ℕ) (rest : List ℕ) (k : Kernel)
    → IsScheduled k
    → IsWhole k
    → (k.task k.running).ticks ≡ n
    → k.ready ≡ next ∷ rest
    → Switched (suc n) t k next rest
unfolding interrupts process_activate page_dir_activate
slice zero t next rest k s w e r =
    let (run, again) =
      tick-last t next rest (gated k) (gated-IsScheduled k s) (gated-IsWhole k w) refl e r in
    record {
      after = rotated (gated k) next (rest ++ k.running ∷ []);
      ran = rw run refl;
      scheduled = again;
      whole = rotated-IsWhole (gated k) next (rest ++ k.running ∷ []) (gated-IsWhole k w);
      running = refl;
      ready = refl;
    }
slice (suc n) t next rest k s w e r =
    let g = gated k in
    let r1 =
      slice n ((t + 1) % 2 ^ 32) next rest (ticked g) (ticked-IsScheduled g (gated-IsScheduled k s))
        (ticked-IsWhole g (gated-IsWhole k w)) (ground (arith, e)) r in
    record {
      after = r1.after;
      ran =
          rw (tick-more t n g (gated-IsWhole k w) e)
            (r1.ran ∙ ap (λ (c : ℕ). ok (c, r1.after)) (omega arith));
      scheduled = r1.scheduled;
      whole = r1.whole;
      running = r1.running;
      ready = r1.ready;
    }

then_more {ℓ κ} :
    {A : Type ℓ} {B : Type κ} (r : Outcome A) (f g : A → Outcome B) (h : B → Outcome B)
    → ((x : A) → f x ≡ g x >>= h)
    → (r >>= f) ≡ ((r >>= g) >>= h)
then_more (ok x) f g h e = e x
then_more Outcome.panic f g h e = refl
then_more Outcome.blocked f g h e = refl
then_more Outcome.out_of_fuel f g h e = refl

interrupts-then :
    (a b t : ℕ) (k : Kernel)
    → interrupts (a + b) t k ≡ interrupts a t k >>= (λ (r : ℕ × Kernel). interrupts b r.0 r.1)
unfolding interrupts
interrupts-then zero b t k = ap (λ (n : ℕ). interrupts n t k) (omega arith)
interrupts-then (suc a) b t k =
    let more : suc a + b ≡ suc (a + b) = omega arith in
    rw more (then_more (intr_timer_handler t (gated k)) _ _ _ (λ r. interrupts-then a b r.0 r.1))

interrupts-add :
    (a b t u : ℕ) (k k1 : Kernel)
    → interrupts a t k ≡ ok (u, k1)
    → interrupts (a + b) t k ≡ interrupts b u k1
interrupts-add a b t u k k1 e = interrupts-then a b t k ∙ rw e refl

-- Where a number is on a list.
record At (u : ℕ) (l : List ℕ) : Type 0 where
  front : List ℕ
  rest : List ℕ
  split : l ≡ front ++ u ∷ rest

place : (u : ℕ) (l : List ℕ) → elem u l ≡ true → At u l
place u [] h = absurd (cc)
place u (x ∷ l) h = elim (Bool-cases (u == x)) [
  | inl same ↦ record {
    front = [];
    rest = l;
    split = ap (λ (y : ℕ). y ∷ l) (sym ((==_iff u x).0 same));
  }
  | inr other ↦
      let p = place u l (ground (arith, other, h)) in
      record { front = x ∷ p.front; rest = p.rest; split = ap (λ (m : List ℕ). x ∷ m) p.split }
]

-- After `n` interrupts the thread `u` runs, and everything is in order still.
record Runs (n t : ℕ) (k : Kernel) (u : ℕ) : Type 0 where
  after : Kernel
  ran : interrupts n t k ≡ ok ((t + n) % 2 ^ 32, after)
  running : after.running ≡ u
  scheduled : IsScheduled after

turn :
    (front : List ℕ) (t u : ℕ) (rest : List ℕ) (k : Kernel)
    → IsScheduled k
    → IsWhole k
    → k.ready ≡ front ++ u ∷ rest
    → (n : ℕ) × (n ≤ suc (length front) * 256) × Runs n t k u
turn [] t u rest k s w e =
    let r = slice (k.task k.running).ticks t u rest k s w refl e in
    (
      suc (k.task k.running).ticks,
      omega (arith, w.ticks k.running),
      record { after = r.after; ran = r.ran; running = r.running; scheduled = r.scheduled },
    )
turn (x ∷ front) t u rest k s w e =
    let m = suc (k.task k.running).ticks in
    let r = slice (k.task k.running).ticks t x (front ++ u ∷ rest) k s w refl e in
    let (n, few, v) =
      turn front ((t + m) % 2 ^ 32) u (rest ++ k.running ∷ []) r.after r.scheduled r.whole
        (r.ready ∙ append_assoc front (u ∷ rest) (k.running ∷ [])) in
    (
      m + n,
      omega (arith, few, w.ticks k.running),
      record {
        after = v.after;
        ran =
            interrupts-add m n t ((t + m) % 2 ^ 32) k r.after r.ran
            ∙ v.ran
            ∙ ap (λ (c : ℕ). ok (c, v.after)) (omega arith);
        running = v.running;
        scheduled = v.scheduled;
      },
    )

length-At : (u : ℕ) (l : List ℕ) (p : At u l) → suc (length p.front) ≤ length l
length-At u l p = omega (arith, ap length p.split, length-append p.front (u ∷ p.rest))

-- No ready thread starves: where the scheduler's invariant holds, the stack marks are whole, the
-- counters are bytes and no thread calls the scheduler itself, a thread on the ready list runs after
-- at most 256 clock interrupts for each thread on that list; none of these interrupts fails, the
-- clock counts them, and the invariant holds then.
pub no_starvation :
    (t u : ℕ) (k : Kernel)
    → IsScheduled k
    → IsWhole k
    → elem u k.ready ≡ true
    → (n : ℕ) × (n ≤ length k.ready * 256)
      × (k' : Kernel) × (interrupts n t k ≡ ok ((t + n) % 2 ^ 32, k'))
      × (k'.running ≡ u)
      × IsScheduled k'
no_starvation t u k s w h =
    let p = place u k.ready h in
    let (n, few, v) = turn p.front t u p.rest k s w p.split in
    (n, omega (arith, few, length-At u k.ready p), v.after, v.ran, v.running, v.scheduled)
