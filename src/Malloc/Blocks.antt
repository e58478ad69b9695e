-- ===== src/Malloc/Blocks.antt =====
-- What `sys_malloc` of kernel/memory.c gives for a request of at most 1024 bytes.
use geniux.Base.{
  ℕ, ◌+◌, ◌-◌, ◌%◌, ◌^◌, ◌<◌, ◌≤◌, ◌≡◌, ◌≢◌, refl, ap, ◌∙◌, true, false, ◌&&◌, ltb, if◌then◌else◌,
  List, ◌∷◌, store, Mem, ok, arith, lt→ltb,
}
use geniux.Base.{==_refl}
use geniux.Str.Blocks.{within, memset_lem}
use geniux.Alloc.{pool_of}
use geniux.Alloc.Arenas.{block2arena, find_idx, find_idx-first}
use geniux.Malloc.{Heap, flags, set_free_list, take_block, malloc_small, sys_malloc}
use geniux.Malloc.Locking.{CanLock, locked, lock_pool-ok, release_pool-ok}

pub store-at {ℓ} : {A : Type ℓ} (f : ℕ → A) (p : ℕ) (v : A) → store f p v p ≡ v
store-at f p v = rw (==_refl p) refl

-- The heap after a block is taken off list `i` of `k`, with the lock released and `c` in the pages.
abbrev pub taken : Heap → Heap → ℕ → ℕ → List ℕ → Mem → Heap
taken h k i b l c =
    let a = block2arena b in
    record (set_free_list i l (record k {
      contents = c;
      arenas =
          store k.arenas a (record (k.arenas a) { cnt = ((k.arenas a).cnt + 2 ^ 32 - 1) % 2 ^ 32 });
    })) { memory = h.memory }

-- The bytes of the block are cleared, and no others change.
abbrev pub Cleared : ℕ → ℕ → Mem → Mem → Type 0
Cleared b size m m' = (q : ℕ) → m' q ≡ (if within b size q then 0 else m q)

pub take_block-ok :
    (h k : Heap) (i b : ℕ) (l : List ℕ)
    → CanLock h
    → k.memory ≡ (locked h).memory
    → k.running ≡ h.running
    → b ≢ 0
    → (c : Mem) × (take_block i (b ∷ l) k ≡ ok (b, taken h k i b l c))
      × Cleared b (k.descs i).block_size k.contents c
unfolding take_block
take_block-ok h k i b l can same run there =
    let (c, set, clear) = memset_lem k.contents b 0 (k.descs i).block_size there in
    let a = block2arena b in
    let k1 = set_free_list i l (record k {
      contents = c;
      arenas =
          store k.arenas a (record (k.arenas a) { cnt = ((k.arenas a).cnt + 2 ^ 32 - 1) % 2 ^ 32 });
    }) in
    (c, rw (set, release_pool-ok h k1 can same run) refl, clear)

-- A request is served if it is not 0 and below the size of the pool.
pub sys_malloc-small :
    (size : ℕ) (h : Heap)
    → CanLock h
    → 0 < size
    → size ≤ 1024
    → size < (pool_of (flags h) h.memory).pool_size
    → sys_malloc size h ≡ malloc_small size (locked h)
unfolding sys_malloc
sys_malloc-small size h can pos small below =
    let one : (ltb 0 size && ltb size (pool_of (flags h) h.memory).pool_size) ≡ true =
      rw (lt→ltb 0 size pos, lt→ltb size _ below) refl in
    let two : ltb 1024 size ≡ false = ground arith in rw (one, lock_pool-ok h can, two) refl

-- A block for the class that is looked up.
pub sys_malloc-listed :
    (size : ℕ) (h : Heap) (i b : ℕ) (l : List ℕ)
    → CanLock h
    → 0 < size
    → size ≤ 1024
    → size < (pool_of (flags h) h.memory).pool_size
    → find_idx 7 h.descs size 0 ≡ i
    → (h.descs i).free_list ≡ b ∷ l
    → b ≢ 0
    → (c : Mem) × (sys_malloc size h ≡ ok (b, taken h h i b l c))
      × Cleared b (h.descs i).block_size h.contents c
unfolding malloc_small
sys_malloc-listed size h i b l can pos small below class e there =
    let (c, run, clear) = take_block-ok h (locked h) i b l can refl refl there in
    (
      c,
      sys_malloc-small size h can pos small below
          ∙ rw (class, e) (ap (λ (l : List ℕ). take_block i l (locked h)) e ∙ run),
      clear,
    )

-- A request of 1 to 1024 bytes, less than the pool, while the pool's lock is free and the first class
-- that it fits, which is class `i`, has a free block: `sys_malloc` returns the first block of the
-- list of class `i` and takes it off; the count of its arena is one less, the bytes of the block, as
-- many as the class says, are cleared and no other byte of the heap changes, nor do the pages and
-- the lock.
pub sys_malloc-block :
    (size : ℕ) (h : Heap) (i b : ℕ) (l : List ℕ)
    → CanLock h
    → 0 < size
    → size ≤ 1024
    → size < (pool_of (flags h) h.memory).pool_size
    → i < 7
    → size ≤ (h.descs i).block_size
    → ((j : ℕ) → j < i → (h.descs j).block_size < size)
    → (h.descs i).free_list ≡ b ∷ l
    → b ≢ 0
    → (c : Mem) × (sys_malloc size h ≡ ok (b, taken h h i b l c))
      × Cleared b (h.descs i).block_size h.contents c
sys_malloc-block size h i b l can pos small below seven fits first e there =
    sys_malloc-listed size h i b l can pos small below
      (find_idx-first 7 h.descs size 0 i (omega arith) (omega (arith, seven)) fits
        (λ j lo lt. first j lt))
      e there
