-- ===== src/Malloc/Release.antt =====
-- What `sys_free` of kernel/memory.c does.
use geniux.Base.{
  ℕ, zero, suc, ◌+◌, ◌-◌, ◌%◌, ◌^◌, ◌<◌, ◌≤◌, ◌≡◌, ◌≢◌, inl, inr, refl, ap, sym, ◌∙◌, true, ◌==◌,
  leb, if◌then◌else◌, none, some, List, [], ◌∷◌, ◌++◌, store, ok, arith, ==_ne, ==_iff, Bool-cases,
}
use geniux.Alloc.{Memory, pool_of, mfree_page}
use geniux.Alloc.Arenas.{BlockDesc, block2arena}
use geniux.Alloc.Arenas.{find_idx}
use geniux.Malloc.{
  Heap, Arena, flags, release_pool, set_free_list, sys_malloc, sys_free, free_in, free_block,
}
use geniux.Malloc.Locking.{CanLock, locked, flags-locked, lock_pool-ok, release_pool-ok}
use geniux.Malloc.Blocks.{store-at, taken, sys_malloc-listed}

-- The addresses that `sys_free` takes: a kernel thread's are in the kernel's heap.
pub record CanFree (ptr : ℕ) (h : Heap) : Type 0 where
  pub live : ptr ≢ 0
  pub range : (if h.memory.pgdir == 0 then leb 0xc0100000 ptr else true) ≡ true

-- The heap with the block at `ptr` appended to list `i`, and counted in its arena.
abbrev pub given : Heap → ℕ → ℕ → Heap
given h i ptr =
    let a = block2arena ptr in
    set_free_list i ((h.descs i).free_list ++ ptr ∷ []) (record h {
      arenas = store h.arenas a (record (h.arenas a) { cnt = ((h.arenas a).cnt + 1) % 2 ^ 32 });
    })

free_block-ok :
    (h : Heap) (i ptr a : ℕ)
    → ((h.arenas a).cnt + 1) % 2 ^ 32 ≢ (h.descs i).block_per_arena
    → free_block i ptr a h
      ≡ ok (
          set_free_list i ((h.descs i).free_list ++ ptr ∷ []) (record h {
            arenas =
                store h.arenas a (record (h.arenas a) { cnt = ((h.arenas a).cnt + 1) % 2 ^ 32 });
          }))
unfolding free_block
free_block-ok h i ptr a ne = rw (==_ne _ _ ne) refl

-- The call around the work on the heap that `k` is the result of.
sys_free-around :
    (h k : Heap) (ptr : ℕ)
    → CanLock h
    → CanFree ptr h
    → free_in (h.arenas (block2arena ptr)) ptr (block2arena ptr) (locked h) ≡ ok k
    → sys_free ptr h ≡ release_pool k
unfolding sys_free
sys_free-around h k ptr can f e = rw (==_ne _ _ f.live, f.range, lock_pool-ok h can, e) refl

-- An arena with a descriptor is a small one.
free_in-small :
    (arena : Arena) (h : Heap) (i ptr a : ℕ)
    → arena.desc ≡ some i
    → free_in arena ptr a h ≡ free_block i ptr a h
unfolding free_in
free_in-small arena h i ptr a e = rw e refl

-- A block that the caller may free, of an arena that has other blocks in use, while the pool's lock
-- is free: `sys_free` appends it to the end of its class's list and counts one more free block in its
-- arena; nothing else changes.
pub sys_free-block :
    (h : Heap) (i ptr : ℕ)
    → CanLock h
    → CanFree ptr h
    → (h.arenas (block2arena ptr)).desc ≡ some i
    → ((h.arenas (block2arena ptr)).cnt + 1) % 2 ^ 32 ≢ (h.descs i).block_per_arena
    → sys_free ptr h ≡ ok (given h i ptr)
sys_free-block h i ptr can f e ne =
    let a = block2arena ptr in
    sys_free-around h (given (locked h) i ptr) ptr can f
      (free_in-small (h.arenas a) (locked h) i ptr a e ∙ free_block-ok (locked h) i ptr a ne)
    ∙ release_pool-ok h (given (locked h) i ptr) can refl refl

-- A large arena that the caller may free, while the pool's lock is free and its pages can be given
-- back: `sys_free` unmaps as many pages as the header counts.
pub sys_free-large :
    (h : Heap) (m : Memory) (ptr : ℕ)
    → CanLock h
    → CanFree ptr h
    → (h.arenas (block2arena ptr)).desc ≡ none
    → (h.arenas (block2arena ptr)).large ≡ true
    → mfree_page (flags h) (block2arena ptr) (h.arenas (block2arena ptr)).cnt (locked h).memory
      ≡ ok m
    → sys_free ptr h ≡ release_pool (record h { memory = m })
unfolding free_in
sys_free-large h m ptr can f e large free =
    let a = block2arena ptr in
    sys_free-around h (record (locked h) { memory = m }) ptr can f
      (rw (e, large, flags-locked h, free) refl)

cnt_back : (c : ℕ) → c < 2 ^ 32 → ((c + 2 ^ 32 - 1) % 2 ^ 32 + 1) % 2 ^ 32 ≡ c
cnt_back zero h = refl
cnt_back (suc c) h = omega arith

-- Two changes of the header at `a`, the second of which sets the count back.
cnt_kept :
    (f : ℕ → Arena) (a q : ℕ) (x y : Arena)
    → y.cnt ≡ (f a).cnt
    → (store (store f a x) a y q).cnt ≡ (f q).cnt
cnt_kept f a q x y h = elim (Bool-cases (a == q)) [
  | inl same ↦ rw same (h ∙ ap (λ (p : ℕ). (f p).cnt) ((==_iff a q).0 same))
  | inr other ↦ rw other refl
]

-- A request of 1 to 1024 bytes, less than the pool, that `sys_malloc` serves with the first block of
-- its class's free list, the block freed at once by a caller that may: both calls succeed, every
-- arena counts as many free blocks as before, the pages and the pool's lock are as they were, and the
-- block is the last of the list now. The block's arena is of that class and has other blocks in use,
-- and the pool's lock is free.
pub sys_malloc-sys_free :
    (size : ℕ) (h : Heap) (b i : ℕ) (l : List ℕ)
    → CanLock h
    → CanFree b h
    → 0 < size
    → size ≤ 1024
    → size < (pool_of (flags h) h.memory).pool_size
    → find_idx 7 h.descs size 0 ≡ i
    → (h.descs i).free_list ≡ b ∷ l
    → (h.arenas (block2arena b)).desc ≡ some i
    → (h.arenas (block2arena b)).cnt < 2 ^ 32
    → (h.arenas (block2arena b)).cnt ≢ (h.descs i).block_per_arena
    → (k : Heap) × (k' : Heap) × (sys_malloc size h ≡ ok (b, k))
      × (sys_free b k ≡ ok k')
      × (k'.memory ≡ h.memory)
      × ((k'.descs i).free_list ≡ l ++ b ∷ [])
      × ((a : ℕ) → (k'.arenas a).cnt ≡ (h.arenas a).cnt)
sys_malloc-sys_free size h b i l can f pos small below at e own word ne =
    let (c, run, clear) = sys_malloc-listed size h i b l can pos small below at e f.live in
    let k = taken h h i b l c in
    let a = block2arena b in
    let header : k.arenas a
        ≡ record (h.arenas a) { cnt = ((h.arenas a).cnt + 2 ^ 32 - 1) % 2 ^ 32 } =
      store-at h.arenas a _ in
    let class : k.descs i ≡ record (h.descs i) { free_list = l } = store-at h.descs i _ in
    let count : ((k.arenas a).cnt + 1) % 2 ^ 32 ≡ (h.arenas a).cnt =
      ap (λ (x : Arena). (x.cnt + 1) % 2 ^ 32) header ∙ cnt_back _ word in
    (
      k,
      given k i b,
      run,
      sys_free-block k i b (record { free = can.free; live = can.live })
          (record { live = f.live; range = f.range }) (ap (λ (x : Arena). x.desc) header ∙ own)
          (λ same. ne (sym count ∙ same ∙ ap (λ (d : BlockDesc). d.block_per_arena) class)),
      refl,
      ap (λ (d : BlockDesc). d.free_list) (store-at k.descs i _)
          ∙ ap (λ (d : BlockDesc). d.free_list ++ b ∷ []) class,
      λ q. cnt_kept h.arenas a q _ _ count,
    )
