-- ===== src/Malloc/Cutting.antt =====
-- How `sys_malloc` of kernel/memory.c cuts a new page into the blocks of a class.
use geniux.Base.{
  ℕ, zero, suc, ◌+◌, ◌-◌, ◌*◌, ◌%◌, ◌^◌, ◌<◌, ◌≤◌, ◌≡◌, ◌≢◌, refl, ap, sym, ◌∙◌, true, false, elem,
  if◌then◌else◌, some, List, [], ◌∷◌, ◌++◌, store, Mem, ok, arith, ==_ne, subst,
}
use geniux.Str.Blocks.{within, memset_lem}
use geniux.Alloc.{Memory, pool_of, malloc_page}
use geniux.Alloc.Arenas.{BlockDesc, arena2block, block2arena}
use geniux.Alloc.Arenas.{find_idx}
use geniux.Malloc.{
  Heap, Arena, flags, set_free_list, take_block, malloc_small, sys_malloc, new_arena, no_block,
  cut_blocks,
}
use geniux.Malloc.Locking.{CanLock, locked, flags-locked}
use geniux.Malloc.Blocks.{store-at, taken, sys_malloc-small, take_block-ok}

-- The addresses of `left` blocks of the arena at `a`, from the block `idx` on.
abbrev pub blocks_from : ℕ → ℕ → BlockDesc → ℕ → List ℕ
blocks_from zero a d idx = []
blocks_from (suc left) a d idx = arena2block a d idx ∷ blocks_from left a d (idx + 1)

-- Every address on a list is below a bound.
abbrev pub Below : List ℕ → ℕ → Type 0
Below [] b = Unit {0}
Below (x ∷ l) b = (x < b) × Below l b

absent : (l : List ℕ) (b : ℕ) → Below l b → elem b l ≡ false
absent [] b h = refl
absent (x ∷ l) b h = ground (arith, h.0, absent l b h.1)

Below-append : (l : List ℕ) (b c : ℕ) → Below l b → b < c → Below (l ++ b ∷ []) c
Below-append [] b c h lt = (lt, tt)
Below-append (x ∷ l) b c h lt = (omega (arith, h.0, lt), Below-append l b c h.1 lt)

append_assoc : (l : List ℕ) (x : ℕ) (r : List ℕ) → (l ++ x ∷ []) ++ r ≡ l ++ x ∷ r
append_assoc [] x r = refl
append_assoc (y ∷ l) x r = ap (λ (t : List ℕ). y ∷ t) (append_assoc l x r)

append_nil : (l : List ℕ) → l ++ [] ≡ l
append_nil [] = refl
append_nil (y ∷ l) = ap (λ (t : List ℕ). y ∷ t) (append_nil l)

add_mul : (i k s : ℕ) → (i + k) * s ≡ i * s + k * s
add_mul zero k s = omega arith
add_mul (suc i) k s = omega (arith, add_mul i k s)

next_block :
    (a idx left : ℕ) (d : BlockDesc)
    → 0 < d.block_size
    → a + 12 + (idx + suc left) * d.block_size < 2 ^ 32
    → arena2block a d idx < arena2block a d (idx + 1)
unfolding arena2block
next_block a idx left d pos small = omega (
  arith,
  pos,
  small,
  add_mul idx 1 d.block_size,
  add_mul idx (suc left) d.block_size,
  add_mul 1 left d.block_size,
)

cut_blocks-ok :
    (left a idx : ℕ) (d : BlockDesc) (l : List ℕ)
    → 0 < d.block_size
    → a + 12 + (idx + left) * d.block_size < 2 ^ 32
    → Below l (arena2block a d idx)
    → cut_blocks left a d idx l ≡ ok (l ++ blocks_from left a d idx)
unfolding cut_blocks
cut_blocks-ok zero a idx d l pos small h = ap ok (sym (append_nil l))
cut_blocks-ok (suc left) a idx d l pos small h =
    let b = arena2block a d idx in
    rw (absent l b h) (
      cut_blocks-ok left a (idx + 1) d (l ++ b ∷ []) pos
        (omega (
          arith,
          small,
          add_mul idx (suc left) d.block_size,
          add_mul (idx + 1) left d.block_size,
          add_mul idx 1 d.block_size,
          add_mul 1 left d.block_size,
        ))
        (Below-append l b _ h (next_block a idx left d pos small))
      ∙ ap ok (append_assoc l b (blocks_from left a d (idx + 1))))

-- `malloc_page` gives the page `a` with the pool's lock held, which leaves `m` when it is free again.
pub record NewPage (h : Heap) (a : ℕ) (m : Memory) : Type 0 where
  pub page :
      malloc_page (flags h) 1 (locked h).memory ≡ ok (a, (locked (record h { memory = m })).memory)
  pub free : CanLock (record h { memory = m })
  pub live : a ≢ 0
  pub aligned : a % 4096 ≡ 0

-- The heap with a new arena for the class `i`, all of its blocks free.
abbrev opened : Heap → Memory → ℕ → ℕ → Mem → Heap
opened h m i a c =
    let d = h.descs i in
    set_free_list i (blocks_from d.block_per_arena a d 0)
      (record (locked (record h { memory = m })) {
        contents = c;
        arenas =
            store h.arenas a (record { desc = some i; cnt = d.block_per_arena; large = false });
      })

new_arena-ok :
    (h : Heap) (m : Memory) (i a : ℕ)
    → NewPage h a m
    → (h.descs i).free_list ≡ []
    → 0 < (h.descs i).block_size
    → a + 12 + (h.descs i).block_per_arena * (h.descs i).block_size < 2 ^ 32
    → (c : Mem) × (new_arena i (locked h) ≡ ok (true, opened h m i a c))
unfolding new_arena
new_arena-ok h m i a new none_free pos small =
    let (c, set, clear) = memset_lem h.contents a 0 4096 new.live in
    let d = h.descs i in
    let cut : cut_blocks d.block_per_arena a d 0 d.free_list
        ≡ ok (blocks_from d.block_per_arena a d 0) =
      ap (λ (l : List ℕ). cut_blocks d.block_per_arena a d 0 l) none_free
      ∙ cut_blocks-ok d.block_per_arena a 0 d [] pos
          (omega (arith, small, add_mul 0 d.block_per_arena d.block_size)) tt in
    (c, rw (flags-locked h, new.page, ==_ne a 0 new.live, set, cut) refl)

le_mul : (n s : ℕ) → 0 < s → n ≤ n * s
le_mul zero s pos = omega arith
le_mul (suc n) s pos = omega (arith, pos, le_mul n s pos, add_mul 1 n s)

-- The first block stands behind the header, and its arena is found from it.
first_block :
    (a n : ℕ) (d : BlockDesc)
    → a % 4096 ≡ 0
    → a + 12 + suc n * d.block_size < 2 ^ 32
    → (arena2block a d 0 ≡ a + 12) × (block2arena (a + 12) ≡ a)
unfolding arena2block block2arena
first_block a n d aligned fits = (omega (arith, fits), omega (arith, aligned))

-- A request of 1 to 1024 bytes, less than the pool, when its class has no free block, the pool's lock
-- is free and a page is found: `sys_malloc` returns the first block behind the header of the new
-- arena, cleared; the others are the free list of the class, in the order of their addresses, and
-- the arena counts them.
pub sys_malloc-arena :
    (size : ℕ) (h : Heap) (m : Memory) (i a n : ℕ)
    → CanLock h
    → NewPage h a m
    → 0 < size
    → size ≤ 1024
    → size < (pool_of (flags h) h.memory).pool_size
    → find_idx 7 h.descs size 0 ≡ i
    → (h.descs i).free_list ≡ []
    → (h.descs i).block_per_arena ≡ suc n
    → 0 < (h.descs i).block_size
    → a + 12 + suc n * (h.descs i).block_size < 2 ^ 32
    → (k : Heap) × (sys_malloc size h ≡ ok (a + 12, k))
      × ((k.descs i).free_list ≡ blocks_from n a (h.descs i) 1)
      × ((k.arenas a).cnt ≡ n)
      × ((q : ℕ) → within (a + 12) (h.descs i).block_size q ≡ true → k.contents q ≡ 0)
      × (k.memory ≡ m)
unfolding malloc_small
sys_malloc-arena size h m i a n can new pos small below at none_free per some_size fits =
    let d = h.descs i in
    let h0 = record h { memory = m } in
    let (first, own) = first_block a n d new.aligned fits in
    let (c, made) =
      new_arena-ok h m i a new none_free some_size
        (subst (λ (p : ℕ). a + 12 + p * d.block_size < 2 ^ 32) (sym per) fits) in
    let k1 = opened h m i a c in
    let rest = blocks_from n a d 1 in
    let class : k1.descs i ≡ record d { free_list = blocks_from d.block_per_arena a d 0 } =
      store-at h.descs i _ in
    let list : (k1.descs i).free_list ≡ (a + 12) ∷ rest =
      ap (λ (e : BlockDesc). e.free_list) class
      ∙ ap (λ (p : ℕ). blocks_from p a d 0) per
      ∙ ap (λ (b : ℕ). b ∷ rest) first in
    let (c2, run, clear) =
      take_block-ok h0 k1 i (a + 12) rest new.free refl refl (λ e. omega (arith, e)) in
    let k = taken h0 k1 i (a + 12) rest c2 in
    let header : k1.arenas a ≡ record { desc = some i; cnt = d.block_per_arena; large = false } =
      store-at h.arenas a _ in
    let count : (k1.arenas a).cnt ≡ suc n = ap (λ (x : Arena). x.cnt) header ∙ per in
    (
      k,
      sys_malloc-small size h can pos small below
          ∙ rw (at, ap no_block none_free, made)
              (ap (λ (l : List ℕ). take_block i l k1) list ∙ run),
      ap (λ (e : BlockDesc). e.free_list) (store-at k1.descs i _),
      ap
            (λ (x : ℕ).
              (store k1.arenas x
                (record (k1.arenas x) { cnt = ((k1.arenas x).cnt + 2 ^ 32 - 1) % 2 ^ 32 }) a).cnt)
            own
          ∙ ap (λ (x : Arena). x.cnt) (store-at k1.arenas a _)
          ∙ omega (arith, count, fits, le_mul (suc n) d.block_size some_size),
      λ q inside.
          clear q
          ∙ ap (λ (z : ℕ). if within (a + 12) z q then 0 else k1.contents q)
              (ap (λ (e : BlockDesc). e.block_size) class)
          ∙ rw inside refl,
      refl,
    )
