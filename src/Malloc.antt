-- ===== src/Malloc.antt =====
-- kernel/memory.c: `sys_malloc` and `sys_free`. The header that an arena has at the start of its
-- page, and the links of a free list in its blocks, are kept apart from the bytes of the pages:
-- `arenas` has the headers by their addresses, and a free list is a sequence (Links). The section
-- with interrupts off around the cutting of an arena is left out, since the pool's lock is held.
-- `running` is `running_thread()`, and `descs` its descriptors: those of the kernel, or its own.
-- The children: the pool's lock, a block off a free list, a new arena, and a release.
pub mod Locking
pub mod Blocks
pub mod Release
pub mod Cutting
pub mod Examples
use geniux.Base.{
  ℕ, zero, suc, ◌+◌, ◌-◌, ◌*◌, ◌/◌, ◌%◌, ◌^◌, Bool, true, false, not, ◌&&◌, ◌==◌, ltb, leb, elem,
  if◌then◌else◌, Option, none, some, List, [], ◌∷◌, ◌++◌, store, Mem, Outcome, ok, panic, ◌>>=◌,
  ◌>>◌, assert,
}
use geniux.Str.{memset}
use geniux.Sync.{Lock, try_lock, try_release}
use geniux.Alloc.{
  Memory, PoolFlags, pf_kernel, pf_user, pool_of, with_lock, malloc_page, mfree_page,
}
use geniux.Alloc.Arenas.{BlockDesc, arena2block, block2arena, find_idx}

-- `desc` is the index of the descriptor, `none` for NULL.
pub record Arena : Type 0 where
  pub desc : Option ℕ
  pub cnt : ℕ
  pub large : Bool

pub record Heap : Type 0 where
  pub memory : Memory
  pub contents : Mem
  pub arenas : ℕ → Arena
  pub descs : ℕ → BlockDesc
  pub running : ℕ

abbrev pub flags : Heap → PoolFlags
flags h = if h.memory.pgdir == 0 then pf_kernel else pf_user

unfoldable pub lock_pool : Heap → Outcome Heap
lock_pool h = do
  l ← try_lock h.running (pool_of (flags h) h.memory).lock
  ok (record h { memory = with_lock (flags h) l h.memory })

unfoldable pub release_pool : Heap → Outcome Heap
release_pool h = do
  (woken, l) ← try_release h.running (pool_of (flags h) h.memory).lock
  ok (record h { memory = with_lock (flags h) l h.memory })

abbrev pub set_free_list : ℕ → List ℕ → Heap → Heap
set_free_list i l h = record h { descs = store h.descs i (record (h.descs i) { free_list = l }) }

-- More than 1024 bytes: whole pages, with a header in front.
unfoldable pub malloc_large : ℕ → Heap → Outcome (ℕ × Heap)
malloc_large size h = do
  let pg_cnt = (size + 12 + 4096 - 1) % 2 ^ 32 / 4096
  (a, m) ← malloc_page (flags h) pg_cnt h.memory
  let h1 = record h { memory = m }
  if a == 0 then (do h2 ← release_pool h1; ok (0, h2)) else (do
    c ← memset h1.contents a 0 (pg_cnt * 4096)
    h2 ← release_pool (record h1 {
      contents = c;
      arenas = store h1.arenas a (record { desc = none; cnt = pg_cnt; large = true });
    })
    ok ((a + 12) % 2 ^ 32, h2))

-- The blocks of a new arena from `block_idx` on are appended to a free list.
unfoldable pub cut_blocks : ℕ → ℕ → BlockDesc → ℕ → List ℕ → Outcome (List ℕ)
cut_blocks zero a desc block_idx l = ok l
cut_blocks (suc left) a desc block_idx l = do
  let b = arena2block a desc block_idx
  assert (not (elem b l))
  cut_blocks left a desc (block_idx + 1) (l ++ b ∷ [])

-- A page for a class with no free block: whether there was one.
unfoldable pub new_arena : ℕ → Heap → Outcome (Bool × Heap)
new_arena i h = do
  (a, m) ← malloc_page (flags h) 1 h.memory
  let h1 = record h { memory = m }
  let desc = h1.descs i
  if a == 0 then ok (false, h1) else (do
    c ← memset h1.contents a 0 4096
    l ← cut_blocks desc.block_per_arena a desc 0 desc.free_list
    ok (
      true,
      set_free_list i l (record h1 {
        contents = c;
        arenas =
            store h1.arenas a (record { desc = some i; cnt = desc.block_per_arena; large = false });
      }),
    ))

-- `pop` of the class's free list; an empty list fails its ASSERT.
unfoldable pub take_block : ℕ → List ℕ → Heap → Outcome (ℕ × Heap)
take_block i [] h = panic
take_block i (b ∷ l) h = do
  c ← memset h.contents b 0 (h.descs i).block_size
  let a = block2arena b
  let arena = h.arenas a
  h2 ← release_pool (
      set_free_list i l (record h {
        contents = c;
        arenas = store h.arenas a (record arena { cnt = (arena.cnt + 2 ^ 32 - 1) % 2 ^ 32 });
      }))
  ok (b, h2)

abbrev pub no_block : List ℕ → Bool
no_block [] = true
no_block (b ∷ l) = false

unfoldable pub malloc_small : ℕ → Heap → Outcome (ℕ × Heap)
malloc_small size h = do
  let i = find_idx 7 h.descs size 0
  (got, h1) ← (if no_block (h.descs i).free_list then new_arena i h else ok (true, h))
  if got then take_block i (h1.descs i).free_list h1 else (do h2 ← release_pool h1; ok (0, h2))

unfoldable pub sys_malloc : ℕ → Heap → Outcome (ℕ × Heap)
sys_malloc size h =
    if not (ltb 0 size && ltb size (pool_of (flags h) h.memory).pool_size)
    then ok (0, h)
    else (do h1 ← lock_pool h; if ltb 1024 size then malloc_large size h1 else malloc_small size h1)

-- `remove` of a block from the list that it is on.
abbrev pub without : ℕ → List ℕ → List ℕ
without b [] = []
without b (x ∷ xs) = let rest = without b xs in if x == b then xs else x ∷ rest

-- The loop that takes an arena's blocks off the free list.
unfoldable pub drop_blocks : ℕ → ℕ → BlockDesc → ℕ → List ℕ → Outcome (List ℕ)
drop_blocks zero a desc block_idx l = ok l
drop_blocks (suc left) a desc block_idx l = do
  let b = arena2block a desc block_idx
  assert (elem b l)
  drop_blocks left a desc (block_idx + 1) (without b l)

-- The block goes to the end of its class's list; an arena with no block in use is given back.
unfoldable pub free_block : ℕ → ℕ → ℕ → Heap → Outcome Heap
free_block i b a h = do
  let desc = h.descs i
  let arena = h.arenas a
  let l = desc.free_list ++ b ∷ []
  let cnt = (arena.cnt + 1) % 2 ^ 32
  let h1 = set_free_list i l (record h { arenas = store h.arenas a (record arena { cnt = cnt }) })
  if cnt == desc.block_per_arena
      then (do
        l' ← drop_blocks desc.block_per_arena a desc 0 l
        m ← mfree_page (flags h) a 1 h.memory
        ok (set_free_list i l' (record h1 { memory = m })))
      else ok h1

-- A small arena has a descriptor: the source would follow a null pointer, and that is `panic` here.
unfoldable pub free_in : Arena → ℕ → ℕ → Heap → Outcome Heap
free_in arena ptr a h = elim arena.desc [
  | none ↦
      if arena.large
      then (do m ← mfree_page (flags h) a arena.cnt h.memory; ok (record h { memory = m }))
      else panic
  | some i ↦ free_block i ptr a h
]

unfoldable pub sys_free : ℕ → Heap → Outcome Heap
sys_free ptr h = do
  assert (not (ptr == 0))
  assert (if h.memory.pgdir == 0 then leb 0xc0100000 ptr else true)
  h1 ← lock_pool h
  let a = block2arena ptr
  h2 ← free_in (h1.arenas a) ptr a h1
  release_pool h2
