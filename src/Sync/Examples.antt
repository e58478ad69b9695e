-- ===== src/Sync/Examples.antt =====
-- Tests and instances: thread 1 takes the lock, and thread 2 goes to sleep at it.
use geniux.Base.{ℕ, ◌≡◌, ◌≢◌, ◌⊎◌, refl, true, arith, some, store, ok, blocked, List, [], ◌∷◌}
use geniux.Sync.{Lock, sema_down, take_lock, try_lock, try_release}
use geniux.Sync.System.{
  at_down, sleeping, has_semaphore, holding, lock_again, Shared, fresh, step, Reach, start, later,
}
use geniux.Sync.Invariant.{owns}
use geniux.Sync.Safety.{mutual_exclusion, no_lost_wakeup}

abbrev held : ℕ → List ℕ → ℕ → ℕ → Lock
held value waiters holder n = record {
  holder = holder;
  semaphore = record { value = value; waiters = waiters };
  holder_repeat_nr = n;
}

abbrev s1 : Shared
s1 = record { lock = held 1 [] 0 0; pc = store fresh.pc 1 at_down }

abbrev s2 : Shared
s2 = record { lock = held 0 [] 0 0; pc = store s1.pc 1 has_semaphore }

abbrev s3 : Shared
s3 = record { lock = held 0 [] 1 1; pc = store s2.pc 1 holding }

abbrev s4 : Shared
s4 = record { lock = held 0 [] 1 1; pc = store s3.pc 2 at_down }

abbrev s5 : Shared
s5 = record { lock = held 0 (2 ∷ []) 1 1; pc = store s4.pc 2 sleeping }

reach : Reach s5
unfolding step sema_down take_lock
reach =
    later {s = s4} 2 lock_again
      (later {s = s3} 2 lock_again
        (later {s = s2} 1 lock_again
          (later {s = s1} 1 lock_again
            (later {s = fresh} 1 lock_again start (omega arith) (omega arith) refl) (omega arith)
            (omega arith) refl)
          (omega arith) (omega arith) refl)
        (omega arith) (omega arith) refl)
      (omega arith) (omega arith) refl

mutual_exclusion_example : (◌≡◌ {A = ℕ} 1 1) × (s5.lock.holder ≡ 1)
mutual_exclusion_example = mutual_exclusion reach 1 1 refl refl

awake_one : s5.pc 1 ≢ sleeping
awake_one = ground arith

no_lost_wakeup_example : (t : ℕ) × ((s5.pc t ≡ at_down) ⊎ (owns (s5.pc t) ≡ true))
no_lost_wakeup_example = no_lost_wakeup reach 2 refl

-- The release wakes thread 2.
release_wakes : try_release 1 s5.lock ≡ ok (some 2, held 1 [] 0 0)
unfolding try_release
release_wakes = refl

second_is_blocked : try_lock 2 s3.lock ≡ blocked
unfolding try_lock
second_is_blocked = refl
