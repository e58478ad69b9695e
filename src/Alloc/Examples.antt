-- ===== src/Alloc/Examples.antt =====
-- Instances: a memory where nothing is taken yet, and pages that are mapped one behind the other.
use geniux.Base.{
  ◌*◌, ◌^◌, [], ℕ, ◌+◌, ◌*◌, ◌/◌, ◌%◌, ◌^◌, ◌<◌, ◌≤◌, ◌≡◌, ◌≢◌, ◌⊎◌, refl, true, false, ◌==◌, ◌||◌,
  leb, arith, Mem, ok, panic, store, [], fun_ext, ap,
}
use geniux.Bitmap.{bitmap_scan_test, bitmap_scan, bitmap_set, skip_full, skip_set, bit_set}
use geniux.Bitmap.Scan.{IsFirstClear}
use geniux.Base.{if◌then◌else◌}
use geniux.Bitmap.{scan_run}
use geniux.Alloc.{mark_pages, malloc_page}
use geniux.Alloc.Granted.{Ready, Short, HasFrames}
use geniux.Alloc.Mapping.{malloc_page_lem}
use geniux.Paging.{pte_ptr, pde_ptr, addr_v2p}
use geniux.Alloc.{
  Memory, Pool, VirtualAddr, pf_kernel, palloc, vaddr_get, page_table_add, mfree_page, same_pool,
}
use geniux.Alloc.Frames.{palloc_lem, page_table_add_lem}
use geniux.Alloc.Free.{Mapped, Unmapped, mfree_page_lem}
use geniux.Alloc.Setup.{mem_pool_init, mem_pool_init_lem, layout, AllFree}
use geniux.Alloc.Arenas.{
  BlockDesc, IsClass, find_idx_lem, AreClasses, block_desc_init, init_descs, find_idx,
}

abbrev zeros : Mem
zeros = λ a. 0

-- Every page of the last directory entry's tables maps to 0x300000 with its flags.
abbrev start : Memory
start = layout 0x2000000 (record {
  kernel_pool = pool;
  user_pool = pool;
  kernel_vaddr = range;
  user_vaddr = range;
  bytes = zeros;
  words = λ a. 0x300007;
  pgdir = 0;
})
  where
    pool : Pool
    pool = record {
      pool_bitmap = record { btmp_bytes_len = 2; bits = 16 };
      phy_addr_start = 0x200000;
      pool_size = 0x10000;
      lock = record {
        holder = 0;
        semaphore = record { value = 1; waiters = [] };
        holder_repeat_nr = 0;
      };
    }

    range : VirtualAddr
    range = record {
      vaddr_bitmap = record { btmp_bytes_len = 2; bits = 32 };
      vaddr_start = 0xc0100000;
    }

zeros-IsBytes : (a : ℕ) → zeros a < 256
zeros-IsBytes a = omega arith

palloc_example :
    ((palloc zeros start.kernel_pool ≡ panic)
      × ((j : ℕ) → j < 480 * 8 → bitmap_scan_test zeros start.kernel_pool.pool_bitmap j ≡ true))
    ⊎ ((n : ℕ) × (m' : Mem) × (palloc zeros start.kernel_pool ≡ ok (0x200000 + n * 4096, m'))
        × IsFirstClear zeros start.kernel_pool.pool_bitmap n
        × ((a : ℕ) → m' a < 256)
        × ((j : ℕ)
            → bitmap_scan_test m' start.kernel_pool.pool_bitmap j
              ≡ ((j == n) || bitmap_scan_test zeros start.kernel_pool.pool_bitmap j)))
palloc_example = palloc_lem zeros start.kernel_pool zeros-IsBytes (omega arith)

abbrev one : Mem
one = store zeros 0xc009a000 1

abbrev two : Mem
two = store one 0xc009a000 3

first_frame : palloc zeros start.kernel_pool ≡ ok (0x200000, one)
unfolding palloc bitmap_scan bitmap_set skip_full skip_set bit_set
first_frame = refl

second_frame : palloc one start.kernel_pool ≡ ok (0x201000, two)
unfolding palloc bitmap_scan bitmap_set skip_full skip_set bit_set
second_frame = ap (λ (m : Mem). ok (0x201000, m)) (fun_ext λ a. ground arith)

range_clear : bitmap_scan_test zeros start.kernel_vaddr.vaddr_bitmap 5 ≡ false
unfolding bitmap_scan_test bit_set
range_clear = refl

abbrev hole : Memory
hole = record start { words = store (λ a. 1) 0xfff00400 0 }

page_table_add_example :
    (s' : Memory) × (page_table_add 0xc0100000 0x300000 hole ≡ ok s')
    × (s'.bytes ≡ zeros)
    × (s'.words (pte_ptr 0xc0100000) ≡ 0x300007)
    × ((u : ℕ)
        → u < 2 ^ 32
        → ((u / 4096 ≡ 0xc0100000 / 4096) × (addr_v2p s'.words u ≡ 0x300000 + u % 4096))
          ⊎ ((u / 4096 ≢ 0xc0100000 / 4096)
              × (s'.words (pte_ptr u) ≡ hole.words (pte_ptr u))
              × (addr_v2p s'.words u ≡ addr_v2p hole.words u)))
unfolding pte_ptr pde_ptr
page_table_add_example =
    page_table_add_lem 0xc0100000 0x300000 hole (omega arith) (omega arith) refl refl refl

start-Mapped : Mapped (same_pool start (addr_v2p start.words 0xc0100000)) 2 0xc0100000 start
unfolding addr_v2p
start-Mapped u lo hi al = ground arith

start_frame : 0x102000 ≤ addr_v2p start.words 0xc0100000
unfolding addr_v2p
start_frame = omega arith

mfree_page_example :
    (s' : Memory) × (mfree_page pf_kernel 0xc0100000 2 start ≡ ok s')
    × (s'.bytes ≡ zeros)
    × Unmapped 2 0xc0100000 start s'
mfree_page_example =
    mfree_page_lem pf_kernel 0xc0100000 2 start zeros-IsBytes (omega arith) refl (omega arith)
      start_frame start-Mapped

abbrev classes : ℕ → BlockDesc
classes i = record {
  block_size = 16 * 2 ^ i;
  block_per_arena = 4084 / (16 * 2 ^ i);
  free_list = [];
}

classes-AreClasses : AreClasses block_desc_init 0 classes
unfolding AreClasses block_desc_init init_descs
classes-AreClasses = (
  refl,
  refl,
  (refl, refl, (refl, refl, (refl, refl, (refl, refl, (refl, refl, (refl, refl, tt)))))),
)

find_idx_example :
    (k : ℕ) × (find_idx 7 classes 100 0 ≡ k) × (k < 7) × IsClass 100 0xc0100000 classes k
find_idx_example =
    find_idx_lem 100 0xc0100000 classes classes-AreClasses (omega arith) (omega arith) refl
      (omega arith)

mem_pool_init_example :
    (t : Memory) × (mem_pool_init 0x2000000 start ≡ ok t)
    × (t.kernel_pool.phy_addr_start ≡ 0x200000)
    × (t.kernel_pool.phy_addr_start + t.kernel_pool.pool_bitmap.btmp_bytes_len * 8 * 4096
        ≤ t.user_pool.phy_addr_start)
    × (t.user_pool.phy_addr_start + t.user_pool.pool_bitmap.btmp_bytes_len * 8 * 4096 ≤ 0x2000000)
    × (0 < t.kernel_pool.pool_bitmap.btmp_bytes_len)
    × (t.kernel_pool.pool_bitmap.bits + t.kernel_pool.pool_bitmap.btmp_bytes_len
        ≡ t.user_pool.pool_bitmap.bits)
    × (t.user_pool.pool_bitmap.bits + t.user_pool.pool_bitmap.btmp_bytes_len
        ≡ t.kernel_vaddr.vaddr_bitmap.bits)
    × (t.kernel_vaddr.vaddr_bitmap.bits + t.kernel_vaddr.vaddr_bitmap.btmp_bytes_len ≤ 0xc009e000)
    × AllFree t.bytes t.kernel_pool.pool_bitmap
    × AllFree t.bytes t.user_pool.pool_bitmap
    × AllFree t.bytes t.kernel_vaddr.vaddr_bitmap
mem_pool_init_example = mem_pool_init_lem 0x2000000 start (omega arith) (omega arith)

-- A memory whose page tables exist and map nothing.
abbrev fresh : Memory
fresh = record {
  kernel_pool = pool;
  user_pool = pool;
  kernel_vaddr = range;
  user_vaddr = range;
  bytes = zeros;
  words = λ a. if leb 0xfffff000 a then 0x300007 else 0;
  pgdir = 0;
}
  where
    pool : Pool
    pool = record {
      pool_bitmap = record { btmp_bytes_len = 2; bits = 16 };
      phy_addr_start = 0x200000;
      pool_size = 0x10000;
      lock = record {
        holder = 0;
        semaphore = record { value = 1; waiters = [] };
        holder_repeat_nr = 0;
      };
    }

    range : VirtualAddr
    range = record {
      vaddr_bitmap = record { btmp_bytes_len = 2; bits = 32 };
      vaddr_start = 0xc0100000;
    }

abbrev reserved : Memory
reserved = record fresh { bytes = store (store zeros 32 1) 32 3 }

two_reserved : vaddr_get pf_kernel 2 fresh ≡ ok (0xc0100000, reserved)
unfolding vaddr_get mark_pages bitmap_scan bitmap_set skip_full skip_set scan_run bit_set
    bitmap_scan_test
two_reserved = refl

tables-Ready : Ready 2 0xc0100000 fresh.words
unfolding pte_ptr pde_ptr
tables-Ready i lt = ground arith

malloc_page_example :
    ((malloc_page pf_kernel 2 fresh ≡ panic) × Short 2 reserved.bytes fresh.kernel_pool.pool_bitmap)
    ⊎ ((s' : Memory) × (malloc_page pf_kernel 2 fresh ≡ ok (0xc0100000, s'))
        × HasFrames fresh.kernel_pool 2 0xc0100000 reserved s')
malloc_page_example =
    malloc_page_lem fresh.kernel_pool (omega arith) refl (omega arith) 2 pf_kernel 0xc0100000 fresh
      reserved (omega arith) (omega arith) two_reserved (λ h. omega (arith, h)) refl
      (λ a. ground arith) refl (omega arith) tables-Ready
