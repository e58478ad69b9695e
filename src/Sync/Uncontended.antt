-- ===== src/Sync/Uncontended.antt =====
-- A lock of thread/sync.c that nobody else wants: it is taken and given back.
use geniux.Base.{ℕ, ◌≡◌, ◌≢◌, none, [], ok, arith}
use geniux.Sync.{
  Lock, lock_init, sema_init, try_lock, try_release, sema_down, sema_up, take_lock, drop_lock,
}

-- The lock while thread `t` has it.
abbrev pub held_by : ℕ → Lock
held_by t = record {
  holder = t;
  semaphore = record { value = 0; waiters = [] };
  holder_repeat_nr = 1;
}

pub try_lock-free : (t : ℕ) → t ≢ 0 → try_lock t lock_init ≡ ok (held_by t)
unfolding try_lock lock_init sema_init sema_down take_lock
try_lock-free t live = ground arith

pub try_release-held : (t : ℕ) → try_release t (held_by t) ≡ ok (none, lock_init)
unfolding try_release lock_init sema_init drop_lock sema_up
try_release-held t = ground arith
