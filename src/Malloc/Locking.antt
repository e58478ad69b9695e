-- ===== src/Malloc/Locking.antt =====
-- The pool lock around `sys_malloc` and `sys_free` of kernel/memory.c.
use geniux.Base.{ℕ, ◌≡◌, ◌≢◌, refl, ap, sym, ◌∙◌, ◌==◌, if◌then◌else◌, ok}
use geniux.Sync.{Lock, lock_init}
use geniux.Sync.Uncontended.{held_by, try_lock-free, try_release-held}
use geniux.Alloc.{Memory, PoolFlags, pf_kernel, pf_user, pool_of, with_lock}
use geniux.Malloc.{Heap, flags, lock_pool, release_pool}

-- The pool's lock is free, and the caller is a thread.
pub record CanLock (h : Heap) : Type 0 where
  pub free : (pool_of (flags h) h.memory).lock ≡ lock_init
  pub live : h.running ≢ 0

lock-with_lock : (f : PoolFlags) (l : Lock) (m : Memory) → (pool_of f (with_lock f l m)).lock ≡ l
lock-with_lock pf_kernel l m = refl
lock-with_lock pf_user l m = refl

pgdir-with_lock : (f : PoolFlags) (l : Lock) (m : Memory) → (with_lock f l m).pgdir ≡ m.pgdir
pgdir-with_lock pf_kernel l m = refl
pgdir-with_lock pf_user l m = refl

-- A lock that was free is free again.
with_lock-back :
    (f : PoolFlags) (k : Lock) (m : Memory)
    → (pool_of f m).lock ≡ lock_init
    → with_lock f lock_init (with_lock f k m) ≡ m
with_lock-back pf_kernel k m free = ap (λ (l : Lock). with_lock pf_kernel l m) (sym free)
with_lock-back pf_user k m free = ap (λ (l : Lock). with_lock pf_user l m) (sym free)

-- The heap while its caller has the pool's lock.
abbrev pub locked : Heap → Heap
locked h = record h { memory = with_lock (flags h) (held_by h.running) h.memory }

pub lock_pool-ok : (h : Heap) → CanLock h → lock_pool h ≡ ok (locked h)
unfolding lock_pool
lock_pool-ok h c = rw (c.free, try_lock-free h.running c.live) refl

-- The lock is given back by a heap whose memory is the one that was locked.
pub release_pool-ok :
    (h k : Heap)
    → CanLock h
    → k.memory ≡ (locked h).memory
    → k.running ≡ h.running
    → release_pool k ≡ ok (record k { memory = h.memory })
unfolding release_pool
release_pool-ok h k c same run =
    let f = flags h in
    let page : k.memory.pgdir ≡ h.memory.pgdir =
      ap (λ (m : Memory). m.pgdir) same ∙ pgdir-with_lock f (held_by h.running) h.memory in
    let g : flags k ≡ f = ap (λ (p : ℕ). if p == 0 then pf_kernel else pf_user) page in
    let lock : (pool_of (flags k) k.memory).lock ≡ held_by k.running =
      ap (λ (f : PoolFlags). (pool_of f k.memory).lock) g
      ∙ ap (λ (m : Memory). (pool_of f m).lock) same
      ∙ lock-with_lock f (held_by h.running) h.memory
      ∙ ap held_by (sym run) in
    let back : with_lock (flags k) lock_init k.memory ≡ h.memory =
      ap (λ (f : PoolFlags). with_lock f lock_init k.memory) g
      ∙ ap (λ (m : Memory). with_lock f lock_init m) same
      ∙ with_lock-back f (held_by h.running) h.memory c.free in
    rw (lock, try_release-held k.running) (ap (λ (m : Memory). ok (record k { memory = m })) back)

-- Locking does not change the pool that the caller uses.
pub flags-locked : (h : Heap) → flags (locked h) ≡ flags h
flags-locked h =
    ap (λ (p : ℕ). if p == 0 then pf_kernel else pf_user)
      (pgdir-with_lock (flags h) (held_by h.running) h.memory)
