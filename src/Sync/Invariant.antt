-- ===== src/Sync/Invariant.antt =====
-- What holds of threads that share one lock of thread/sync.c: true of a fresh lock, and kept by
-- every step.
use geniux.Base.{
  subst, ℕ, ◌+◌, ◌-◌, ◌%◌, ◌^◌, ◌<◌, ◌≤◌, ◌≡◌, ◌≢◌, ◌⊎◌, inl, inr, refl, sym, ap, ◌∙◌, Bool, true,
  false, store, List, [], ◌∷◌, ◌++◌, elem, elem-append, arith, Bool-cases,
}
use geniux.Links.Chain.{Nodup, Nodup-snoc}
use geniux.Sync.System.{
  Pc, outside, at_down, sleeping, has_semaphore, holding, at_up, Shared, fresh,
}

-- The thread has taken the semaphore and not yet given it back.
abbrev pub owns : Pc → Bool
owns has_semaphore = true
owns holding = true
owns at_up = true
owns _ = false

abbrev pub sleeps : Pc → Bool
sleeps sleeping = true
sleeps _ = false

-- The semaphore is free and nobody owns it, or it is taken and exactly one thread owns it.
abbrev pub Owned : ℕ → (ℕ → Pc) → Type 0
Owned value pc =
    ((value ≡ 1) × ((t : ℕ) → owns (pc t) ≡ false))
    ⊎ ((value ≡ 0) × ((o : ℕ) × (owns (pc o) ≡ true) × ((t : ℕ) → owns (pc t) ≡ true → t ≡ o)))

pub record Inv (s : Shared) : Type 0 where
  pub owned : Owned s.lock.semaphore.value s.pc
  pub holder_is : (t : ℕ) → s.pc t ≡ holding → s.lock.holder ≡ t
  pub holder_holds : s.lock.holder ≢ 0 → s.pc s.lock.holder ≡ holding
  pub null : s.pc 0 ≡ outside
  pub uncounted : s.lock.holder ≡ 0 → s.lock.holder_repeat_nr ≡ 0
  pub counted : s.lock.holder ≢ 0 → 1 ≤ s.lock.holder_repeat_nr
  pub waiting : (t : ℕ) → elem t s.lock.semaphore.waiters ≡ sleeps (s.pc t)
  pub distinct : Nodup s.lock.semaphore.waiters
  pub awake :
      s.lock.semaphore.value ≡ 1 → s.lock.semaphore.waiters ≢ [] → (t : ℕ) × (s.pc t ≡ at_down)

pub Inv-fresh : Inv fresh
Inv-fresh = record {
  owned = inl (refl, λ t. refl);
  holder_is = λ t e. cc;
  holder_holds = λ ne. absurd (ne refl);
  null = refl;
  uncounted = λ _. refl;
  counted = λ ne. absurd (ne refl);
  waiting = λ t. refl;
  distinct = tt;
  awake = λ _ ne. absurd (ne refl);
}

Owned-keep :
    (v : ℕ) (pc : ℕ → Pc) (i : ℕ) (p : Pc)
    → owns p ≡ owns (pc i)
    → Owned v pc
    → Owned v (store pc i p)
Owned-keep v pc i p e (inl (free, none_owns)) = inl (free, λ t. ground (arith, none_owns t))
Owned-keep v pc i p e (inr (taken, (o, owner, only))) =
    inr (taken, (o, ground (arith, owner), λ t h. only t (ground (arith, h))))

Owned-take : (v : ℕ) (pc : ℕ → Pc) (i : ℕ) → v ≢ 0 → Owned v pc → Owned 0 (store pc i has_semaphore)
Owned-take v pc i ne (inl (free, none_owns)) =
    inr (refl, (i, ground arith, λ t h. ground (arith, none_owns t)))
Owned-take v pc i ne (inr (taken, o)) = absurd (ne taken)

pub Owned-taken : (v : ℕ) (pc : ℕ → Pc) (i : ℕ) → owns (pc i) ≡ true → Owned v pc → v ≡ 0
Owned-taken v pc i e (inl (free, none_owns)) = ground (arith, none_owns i)
Owned-taken v pc i e (inr (taken, o)) = taken

pub Owned-le : (v : ℕ) (pc : ℕ → Pc) → Owned v pc → v ≤ 1
Owned-le v pc (inl (free, none_owns)) = omega arith
Owned-le v pc (inr (taken, o)) = omega arith

pub Owned-unique :
    (v : ℕ) (pc : ℕ → Pc) (i t : ℕ)
    → owns (pc i) ≡ true
    → ((owns (pc t) ≡ true) ⊎ (i ≡ t))
    → Owned v pc
    → i ≡ t
Owned-unique v pc i t e (inr same) own = same
Owned-unique v pc i t e (inl h) (inl (free, none_owns)) = ground (arith, none_owns i)
Owned-unique v pc i t e (inl h) (inr (taken, (o, owner, only))) = ground (arith, only i e, only t h)

Owned-give :
    (v : ℕ) (pc : ℕ → Pc) (i : ℕ) → owns (pc i) ≡ true → Owned v pc → Owned 1 (store pc i outside)
Owned-give v pc i e (inl (free, none_owns)) = ground (arith, none_owns i)
Owned-give v pc i e (inr (taken, (o, owner, only))) = inl (
  refl,
  λ t. elim (Bool-cases (owns (pc t))) [
    | inl h ↦ ground (arith, only t h, only i e)
    | inr h ↦ ground arith
  ],
)

module _ (s : Shared) (inv : Inv s) (i : ℕ) (live : i ≢ 0) where
  -- A thread goes to the loop of `sema_down`.
  pub Inv-down : s.pc i ≡ outside → Inv (record s { pc = store s.pc i at_down })
  Inv-down at = record {
    owned = Owned-keep _ s.pc i at_down (ground arith) inv.owned;
    holder_is = λ t e. ground (arith, inv.holder_is t);
    holder_holds = λ ne. ground (arith, inv.holder_holds ne);
    null = ground (arith, inv.null);
    uncounted = inv.uncounted;
    counted = inv.counted;
    waiting = λ t. ground (arith, inv.waiting t);
    distinct = inv.distinct;
    awake = λ v ne. (i, ground arith);
  }

  -- It finds the semaphore free.
  pub Inv-enter :
      s.pc i ≡ at_down
      → s.lock.semaphore.value ≢ 0
      → Inv (record {
        lock = record s.lock { semaphore = record s.lock.semaphore { value = 0 } };
        pc = store s.pc i has_semaphore;
      })
  Inv-enter at free = record {
    owned = Owned-take _ s.pc i free inv.owned;
    holder_is = λ t e. ground (arith, inv.holder_is t);
    holder_holds = λ ne. ground (arith, inv.holder_holds ne);
    null = ground (arith, inv.null);
    uncounted = inv.uncounted;
    counted = inv.counted;
    waiting = λ t. ground (arith, inv.waiting t);
    distinct = inv.distinct;
    awake = λ v. absurd (omega arith);
  }

  -- It finds the semaphore taken.
  pub Inv-sleep :
      s.pc i ≡ at_down
      → s.lock.semaphore.value ≡ 0
      → Inv (record {
        lock = record s.lock {
          semaphore = record s.lock.semaphore { waiters = s.lock.semaphore.waiters ++ i ∷ [] };
        };
        pc = store s.pc i sleeping;
      })
  Inv-sleep at taken = record {
    owned = Owned-keep _ s.pc i sleeping (ground arith) inv.owned;
    holder_is = λ t e. ground (arith, inv.holder_is t);
    holder_holds = λ ne. ground (arith, inv.holder_holds ne);
    null = ground (arith, inv.null);
    uncounted = inv.uncounted;
    counted = inv.counted;
    waiting = λ t. ground (arith, inv.waiting t, elem-append t s.lock.semaphore.waiters (i ∷ []));
    distinct = Nodup-snoc s.lock.semaphore.waiters i inv.distinct (ground (arith, inv.waiting i));
    awake = λ v. absurd (omega arith);
  }

  -- With the semaphore it becomes the holder.
  pub Inv-take :
      s.pc i ≡ has_semaphore
      → Inv (record {
        lock = record { holder = i; semaphore = s.lock.semaphore; holder_repeat_nr = 1 };
        pc = store s.pc i holding;
      })
  Inv-take at = record {
    owned = Owned-keep _ s.pc i holding (ground arith) inv.owned;
    holder_is =
        λ t e. ground (arith, Owned-unique _ s.pc i t (ground arith) (ground arith) inv.owned);
    holder_holds = λ ne. ground arith;
    null = ground (arith, inv.null);
    uncounted = λ e. absurd (live e);
    counted = λ ne. omega arith;
    waiting = λ t. ground (arith, inv.waiting t);
    distinct = inv.distinct;
    awake = λ v. absurd (omega (arith, v, Owned-taken _ s.pc i (ground arith) inv.owned));
  }

  -- The holder locks again.
  pub Inv-relock :
      s.pc i ≡ holding
      → s.lock.holder_repeat_nr + 1 < 2 ^ 32
      → Inv (record s {
        lock = record s.lock { holder_repeat_nr = (s.lock.holder_repeat_nr + 1) % 2 ^ 32 };
      })
  Inv-relock at small = record {
    owned = inv.owned;
    holder_is = inv.holder_is;
    holder_holds = inv.holder_holds;
    null = inv.null;
    uncounted = λ e. absurd (live (sym (inv.holder_is i at) ∙ e));
    counted = λ ne. omega arith;
    waiting = inv.waiting;
    distinct = inv.distinct;
    awake = inv.awake;
  }

  -- The holder leaves one of several nested sections.
  pub Inv-unlock :
      s.pc i ≡ holding
      → 1 < s.lock.holder_repeat_nr
      → Inv (record s { lock = record s.lock { holder_repeat_nr = s.lock.holder_repeat_nr - 1 } })
  Inv-unlock at nested = record {
    owned = inv.owned;
    holder_is = inv.holder_is;
    holder_holds = inv.holder_holds;
    null = inv.null;
    uncounted = λ e. absurd (live (sym (inv.holder_is i at) ∙ e));
    counted = λ ne. omega arith;
    waiting = inv.waiting;
    distinct = inv.distinct;
    awake = inv.awake;
  }

  -- The holder leaves its last section.
  pub Inv-drop :
      s.pc i ≡ holding
      → Inv (record {
        lock = record s.lock { holder = 0; holder_repeat_nr = 0 };
        pc = store s.pc i at_up;
      })
  Inv-drop at = record {
    owned = Owned-keep _ s.pc i at_up (ground arith) inv.owned;
    holder_is =
        λ t e. ground (arith, Owned-unique _ s.pc i t (ground arith) (ground arith) inv.owned);
    holder_holds = λ ne. absurd (ne refl);
    null = ground (arith, inv.null);
    uncounted = λ e. refl;
    counted = λ ne. absurd (ne refl);
    waiting = λ t. ground (arith, inv.waiting t);
    distinct = inv.distinct;
    awake = λ v. absurd (omega (arith, v, Owned-taken _ s.pc i (ground arith) inv.owned));
  }

  -- It gives back the semaphore, and nobody waits.
  pub Inv-up :
      s.pc i ≡ at_up
      → s.lock.semaphore.waiters ≡ []
      → Inv (record {
        lock = record s.lock { semaphore = record { value = 1; waiters = [] } };
        pc = store s.pc i outside;
      })
  Inv-up at nobody = record {
    owned = Owned-give _ s.pc i (ground arith) inv.owned;
    holder_is = λ t e. ground (arith, inv.holder_is t);
    holder_holds = λ ne. ground (arith, inv.holder_holds ne);
    null = ground (arith, inv.null);
    uncounted = inv.uncounted;
    counted = inv.counted;
    waiting = λ t. ground (arith, inv.waiting t, ap (elem t) nobody);
    distinct = tt;
    awake = λ v ne. absurd (ne refl);
  }

  -- It gives back the semaphore and wakes the first that waits.
  pub Inv-wake :
      (w : ℕ) (ws : List ℕ)
      → s.pc i ≡ at_up
      → s.lock.semaphore.waiters ≡ w ∷ ws
      → Inv (record {
        lock = record s.lock { semaphore = record { value = 1; waiters = ws } };
        pc = store (store s.pc i outside) w at_down;
      })
  Inv-wake w ws at queue = record {
    owned =
        Owned-keep 1 (store s.pc i outside) w at_down (ground (arith, slept))
          (Owned-give _ s.pc i (ground arith) inv.owned);
    holder_is = λ t e. ground (arith, inv.holder_is t);
    holder_holds = λ ne. ground (arith, inv.holder_holds ne, slept);
    null = ground (arith, inv.null, slept);
    uncounted = inv.uncounted;
    counted = inv.counted;
    waiting = λ t. ground (arith, inv.waiting t, ap (elem t) queue, rest.0, slept);
    distinct = rest.1;
    awake = λ v ne. (w, ground arith);
  }
    where
      rest : Nodup (w ∷ ws)
      rest = subst Nodup queue inv.distinct

      slept : sleeps (s.pc w) ≡ true
      slept = ground (arith, inv.waiting w, ap (elem w) queue)
