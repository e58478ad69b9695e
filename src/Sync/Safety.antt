-- ===== src/Sync/Safety.antt =====
-- What threads that share one lock of thread/sync.c can rely on, in every interleaving.
use geniux.Base.{
  ℕ, ◌+◌, ◌^◌, ◌<◌, ◌≤◌, ◌≡◌, ◌≢◌, ◌⊎◌, inl, inr, refl, sym, ap, ◌∙◌, true, ◌==◌, ltb, Outcome, ok,
  blocked, List, [], ◌∷◌, elem, arith, Bool-cases, subst,
}
use geniux.Sync.{sema_down, sema_up, take_lock, drop_lock}
use geniux.Sync.System.{
  Pc, outside, at_down, sleeping, has_semaphore, holding, at_up, Choice, lock_again, release,
  Shared, step, step_from, down_step, hold_step, up_step, Reach, start, later,
}
use geniux.Sync.Invariant.{
  Inv, Inv-fresh, Inv-down, Inv-enter, Inv-sleep, Inv-take, Inv-relock, Inv-unlock, Inv-drop,
  Inv-up, Inv-wake, Owned, Owned-taken, Owned-le, Owned-unique, owns,
}

-- What a step of a thread may come to: nothing while it sleeps, else a state with the invariant.
abbrev pub Steps : Outcome Shared → Shared → ℕ → Type 0
Steps r s i = ((s.pc i ≡ sleeping) × (r ≡ blocked)) ⊎ ((t : Shared) × (r ≡ ok t) × Inv t)

module _ (s : Shared) (inv : Inv s) (i : ℕ) (live : i ≢ 0) where
  value_le : s.lock.semaphore.value ≤ 1
  value_le = Owned-le _ s.pc inv.owned

  down-Steps : s.pc i ≡ at_down → Steps (down_step i s) s i
  unfolding down_step sema_down
  down-Steps at = elim (Bool-cases (s.lock.semaphore.value == 0)) [
    | inl taken ↦ inr (_, ground (arith, inv.waiting i), Inv-sleep s inv i live at (ground arith))
    | inr free ↦ inr (_, ground (arith, value_le), Inv-enter s inv i live at (ground arith))
  ]

  outside-Steps : (c : Choice) → s.pc i ≡ outside → Steps (hold_step i lock_again s) s i
  unfolding hold_step
  outside-Steps c at = inr (_, ground (arith, inv.holder_holds), Inv-down s inv i live at)

  hold-Steps :
      (c : Choice)
      → s.pc i ≡ holding
      → s.lock.holder_repeat_nr + 1 < 2 ^ 32
      → Steps (hold_step i c s) s i
  unfolding hold_step drop_lock
  hold-Steps lock_again at small =
      inr (_, ground (arith, inv.holder_is i at), Inv-relock s inv i live at small)
  hold-Steps release at small = elim (Bool-cases (ltb 1 s.lock.holder_repeat_nr)) [
    | inl nested ↦
        inr (_, ground (arith, inv.holder_is i at), Inv-unlock s inv i live at (ground arith))
    | inr single ↦
        inr (_, ground (arith, inv.holder_is i at, inv.counted), Inv-drop s inv i live at)
  ]

  taken : s.pc i ≡ at_up → s.lock.semaphore.value ≡ 0
  taken at = Owned-taken _ s.pc i (ground arith) inv.owned

  up-Steps :
      (ws : List ℕ) → s.pc i ≡ at_up → s.lock.semaphore.waiters ≡ ws → Steps (up_step i s) s i
  unfolding up_step sema_up
  up-Steps [] at nobody = inr (_, ground (arith, taken at), Inv-up s inv i live at nobody)
  up-Steps (w ∷ ws) at queue =
      inr (_, ground (arith, taken at), Inv-wake s inv i live w ws at queue)

  take-Steps : (c : Choice) → s.pc i ≡ has_semaphore → Steps (step_from has_semaphore i c s) s i
  unfolding step_from take_lock
  take-Steps c at = inr (_, ground (arith, uncounted), Inv-take s inv i live at)
    where
      uncounted : s.lock.holder_repeat_nr ≡ 0
      uncounted = elim (Bool-cases (s.lock.holder == 0)) [
        | inl e ↦ inv.uncounted (ground arith)
        | inr ne ↦ ground (
          arith,
          inv.holder_holds (ground arith),
          Owned-unique _ s.pc i s.lock.holder (ground arith)
              (ground (arith, inv.holder_holds (ground arith))) inv.owned,
        )
      ]

  at-Steps :
      (p : Pc) (c : Choice)
      → s.pc i ≡ p
      → s.lock.holder_repeat_nr + 1 < 2 ^ 32
      → Steps (step_from p i c s) s i
  unfolding step_from
  at-Steps outside c at small = outside-Steps c at
  at-Steps at_down c at small = down-Steps at
  at-Steps sleeping c at small = inl (at, refl)
  at-Steps has_semaphore c at small = take-Steps c at
  at-Steps holding c at small = hold-Steps c at small
  at-Steps at_up c at small = up-Steps s.lock.semaphore.waiters at refl

  step-Steps : (c : Choice) → s.lock.holder_repeat_nr + 1 < 2 ^ 32 → Steps (step i c s) s i
  unfolding step
  step-Steps c small = at-Steps (s.pc i) c refl small

Steps-Inv : (r : Outcome Shared) (s t : Shared) (i : ℕ) → Steps r s i → r ≡ ok t → Inv t
Steps-Inv r s t i (inl (at, e)) h = absurd (cc)
Steps-Inv r s t i (inr (u, e, inv)) h = subst Inv (ground (arith, e, h)) inv

pub Reach-Inv : {s : Shared} → Reach s → Inv s
Reach-Inv start = Inv-fresh
Reach-Inv (later {s} {t} i c r live small e) =
    Steps-Inv (step i c s) s t i (step-Steps s (Reach-Inv r) i live c small) e

-- In every reachable state at most one thread holds the lock, and it is the one that the lock's
-- `holder` names.
pub mutual_exclusion :
    {s : Shared}
    → Reach s
    → (i j : ℕ) → s.pc i ≡ holding
    → s.pc j ≡ holding
    → (i ≡ j) × (s.lock.holder ≡ i)
mutual_exclusion r i j hi hj =
    let inv = Reach-Inv r in (sym (inv.holder_is i hi) ∙ inv.holder_is j hj, inv.holder_is i hi)

-- In every reachable state, while fewer than 2 ^ 32 - 1 calls are nested, a thread that is not
-- asleep makes its next step, whatever it chooses: no ASSERT and no PANIC of semaphores and locks is
-- met, and the step does not block.
pub step-ok :
    {s : Shared}
    → Reach s
    → (i : ℕ) (c : Choice) → i ≢ 0
    → s.pc i ≢ sleeping
    → s.lock.holder_repeat_nr + 1 < 2 ^ 32
    → (t : Shared) × (step i c s ≡ ok t)
step-ok {s} r i c live awake small = elim (step-Steps s (Reach-Inv r) i live c small) [
  | inl (at, e) ↦ absurd (awake at)
  | inr (t, e, inv) ↦ (t, e)
]

-- No wake-up is lost: in every reachable state, if a thread sleeps, then some thread is awake
-- that owns the semaphore or is about to try it again.
pub no_lost_wakeup :
    {s : Shared}
    → Reach s
    → (w : ℕ) → s.pc w ≡ sleeping
    → (t : ℕ) × ((s.pc t ≡ at_down) ⊎ (owns (s.pc t) ≡ true))
no_lost_wakeup {s} r w asleep = go (Reach-Inv r).owned
  where
    go : Owned s.lock.semaphore.value s.pc → (t : ℕ) × ((s.pc t ≡ at_down) ⊎ (owns (s.pc t) ≡ true))
    go (inl (free, none_owns)) =
        let woken =
          (Reach-Inv r).awake free (λ e. ground (arith, (Reach-Inv r).waiting w, ap (elem w) e)) in
        (woken.0, inl woken.1)
    go (inr (taken, (o, owner, only))) = (o, inr owner)
