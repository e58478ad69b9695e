-- ===== src/Malloc/Examples.antt =====
-- Instances, in a kernel thread's heap whose only arena, at 0xc0101000, has two blocks of 16 bytes on
-- the free list.
use geniux.Base.{zero, suc, ◌*◌, ◌^◌, ◌<◌, ℕ, ◌≡◌, refl, false, some, [], ◌∷◌, Mem, ok, arith}
use geniux.Sync.{lock_init}
use geniux.Base.{true, ◌+◌, leb, if◌then◌else◌, Outcome}
use geniux.Str.Blocks.{within}
use geniux.Bitmap.{bitmap_scan, bitmap_set, skip_full, skip_set, bit_set, bitmap_scan_test}
use geniux.Paging.{pte_ptr, pde_ptr}
use geniux.Alloc.{
  Memory, Pool, VirtualAddr, pf_kernel, with_lock, malloc_page, vaddr_get, map_pages, mark_pages,
  palloc, page_table_add,
}
use geniux.Malloc.Cutting.{NewPage, blocks_from, sys_malloc-arena}
use geniux.Alloc.Arenas.{find_idx}
use geniux.Malloc.{Heap, sys_malloc, sys_free}
use geniux.Malloc.Locking.{CanLock, locked}
use geniux.Malloc.Blocks.{taken, Cleared, sys_malloc-block}
use geniux.Malloc.Release.{CanFree, given, sys_free-block, sys_malloc-sys_free}

abbrev pub first : ℕ
first = 0xc010100c

abbrev pub second : ℕ
second = 0xc010101c

abbrev third : ℕ
third = 0xc010102c

abbrev memory : Memory
memory = record {
  kernel_pool = pool;
  user_pool = pool;
  kernel_vaddr = range;
  user_vaddr = range;
  bytes = λ a. 0;
  words = λ a. if leb 0xfffff000 a then 0x300007 else 0;
  pgdir = 0;
}
  where
    pool : Pool
    pool = record {
      pool_bitmap = record { btmp_bytes_len = 2; bits = 16 };
      phy_addr_start = 0x200000;
      pool_size = 0x10000;
      lock = lock_init;
    }

    range : VirtualAddr
    range = record {
      vaddr_bitmap = record { btmp_bytes_len = 2; bits = 32 };
      vaddr_start = 0xc0100000;
    }

abbrev pub heap : Heap
heap = record {
  memory = memory;
  contents = λ a. 7;
  arenas = λ a. record { desc = some 0; cnt = 2; large = false };
  descs = λ i. record { block_size = 16; block_per_arena = 255; free_list = first ∷ second ∷ [] };
  running = 4096;
}

heap-CanLock : CanLock heap
unfolding lock_init
heap-CanLock = record { free = refl; live = λ h. omega (arith, h) }

free_third : CanFree third heap
free_third = record { live = λ h. omega (arith, h); range = refl }

free_first : CanFree first heap
free_first = record { live = λ h. omega (arith, h); range = refl }

-- The classes have 16, 32, 64, ... bytes, and the second one has a free block.
abbrev pub sized : Heap
sized = record heap {
  descs =
      λ i. record { block_size = 16 * 2 ^ i; block_per_arena = 9; free_list = first ∷ second ∷ [] };
}

pub sized-CanLock : CanLock sized
unfolding lock_init
sized-CanLock = record { free = refl; live = λ h. omega (arith, h) }

below_two : (j : ℕ) → j < 1 → 16 * 2 ^ j < 20
below_two zero lt = omega arith
below_two (suc j) lt = absurd (omega (arith, lt))

sys_malloc-block_example :
    (c : Mem) × (sys_malloc 20 sized ≡ ok (first, taken sized sized 1 first (second ∷ []) c))
    × Cleared first 32 sized.contents c
sys_malloc-block_example =
    sys_malloc-block 20 sized 1 first (second ∷ []) sized-CanLock (omega arith) (omega arith)
      (omega arith) (omega arith) (omega arith) below_two refl (λ h. omega (arith, h))

sys_free-block_example : sys_free third heap ≡ ok (given heap 0 third)
sys_free-block_example =
    sys_free-block heap 0 third heap-CanLock free_third refl (λ h. omega (arith, h))

sys_malloc-sys_free_example :
    (k : Heap) × (k' : Heap) × (sys_malloc 10 heap ≡ ok (first, k))
    × (sys_free first k ≡ ok k')
    × (k'.memory ≡ heap.memory)
    × ((k'.descs 0).free_list ≡ second ∷ first ∷ [])
    × ((a : ℕ) → (k'.arenas a).cnt ≡ (heap.arenas a).cnt)
unfolding find_idx
sys_malloc-sys_free_example =
    sys_malloc-sys_free 10 heap first 0 (second ∷ []) heap-CanLock free_first (omega arith)
      (omega arith) (omega arith) refl refl refl (omega arith) (λ h. omega (arith, h))

-- The same heap when no class has a free block.
abbrev used_up : Heap
used_up = record heap {
  descs = λ i. record { block_size = 1024; block_per_arena = 3; free_list = [] };
}

abbrev state_after : Outcome (ℕ × Memory) → Memory
state_after (ok (a, s)) = s
state_after _ = memory

abbrev with_page : Memory
with_page =
    with_lock pf_kernel lock_init (state_after (malloc_page pf_kernel 1 (locked used_up).memory))

new_page : NewPage used_up 0xc0100000 with_page
unfolding lock_init malloc_page vaddr_get map_pages mark_pages palloc page_table_add bitmap_scan
    bitmap_set skip_full skip_set bit_set bitmap_scan_test pte_ptr pde_ptr
new_page = record {
  page = refl;
  free = record { free = refl; live = λ h. omega (arith, h) };
  live = λ h. omega (arith, h);
  aligned = refl;
}

used_up-CanLock : CanLock used_up
unfolding lock_init
used_up-CanLock = record { free = refl; live = λ h. omega (arith, h) }

sys_malloc-arena_example :
    (k : Heap) × (sys_malloc 600 used_up ≡ ok (0xc0100000 + 12, k))
    × ((k.descs 0).free_list ≡ blocks_from 2 0xc0100000 (used_up.descs 0) 1)
    × ((k.arenas 0xc0100000).cnt ≡ 2)
    × ((q : ℕ) → within (0xc0100000 + 12) 1024 q ≡ true → k.contents q ≡ 0)
    × (k.memory ≡ with_page)
unfolding find_idx
sys_malloc-arena_example =
    sys_malloc-arena 600 used_up with_page 0 0xc0100000 2 used_up-CanLock new_page (omega arith)
      (omega arith) (omega arith) refl refl refl (omega arith) (omega arith)
