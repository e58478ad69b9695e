-- ===== src/Process/Examples.antt =====
-- Instances: a memory whose page tables exist and map nothing, and whose frames are all free.
use geniux.Base.{ℕ, ◌+◌, ◌*◌, ◌<◌, ◌≤◌, ◌≡◌, refl, false, arith, leb, if◌then◌else◌, Outcome, ok}
use geniux.Str.{memset}
use geniux.Str.Blocks.{within}
use geniux.Bitmap.{
  bitmap_scan, bitmap_set, skip_full, skip_set, bit_set, bitmap_scan_test, scan_run,
}
use geniux.Paging.{addr_v2p, pte_ptr, pde_ptr}
use geniux.Sync.{lock_init}
use geniux.Alloc.{
  Memory, Pool, VirtualAddr, pf_kernel, malloc_page, vaddr_get, map_pages, mark_pages, palloc,
  page_table_add, entry,
}
use geniux.Alloc.Pages.{get_kernel_pages, clear_pages}
use geniux.Process.{create_page_dir, create_user_vaddr_bitmap}
use geniux.Process.Range.{bitmap_pg_cnt, create_user_vaddr_bitmap_lem}
use geniux.Process.Directory.{IsFresh, running_entry, create_page_dir_lem}

abbrev start : Memory
start = record {
  kernel_pool = pool;
  user_pool = pool;
  kernel_vaddr = range;
  user_vaddr = range;
  bytes = λ a. 0;
  words = λ a. if leb 0xfffff000 a then 0x300007 else 0;
  pgdir = 0;
}
  where
    pool : Pool
    pool = record {
      pool_bitmap = record { btmp_bytes_len = 8; bits = 16 };
      phy_addr_start = 0x200000;
      pool_size = 0x10000;
      lock = lock_init;
    }

    range : VirtualAddr
    range = record {
      vaddr_bitmap = record { btmp_bytes_len = 8; bits = 32 };
      vaddr_start = 0xc0100000;
    }

abbrev state_after : Outcome (ℕ × Memory) → Memory
state_after (ok (a, s)) = s
state_after _ = start

abbrev mapped : Memory
mapped = state_after (malloc_page pf_kernel 1 start)

abbrev with_range : Memory
with_range = state_after (get_kernel_pages 23 start)

get_kernel_pages-found : get_kernel_pages 23 start ≡ ok (0xc0100000, with_range)
unfolding get_kernel_pages clear_pages memset malloc_page vaddr_get map_pages mark_pages palloc
    page_table_add bitmap_scan bitmap_set skip_full skip_set scan_run bit_set bitmap_scan_test
    pte_ptr pde_ptr
get_kernel_pages-found = refl

malloc_page-found : malloc_page pf_kernel 1 start ≡ ok (0xc0100000, mapped)
unfolding malloc_page vaddr_get map_pages mark_pages palloc page_table_add bitmap_scan bitmap_set
    skip_full skip_set bit_set bitmap_scan_test pte_ptr pde_ptr
malloc_page-found = refl

fresh : IsFresh 0xc0100000
fresh = record { live = λ h. omega (arith, h); below = omega arith }

create_page_dir_example :
    (s' : Memory) × (create_page_dir start ≡ ok (0xc0100000, s'))
    × ((i : ℕ) → i < 768 → s'.words (0xc0100000 + 4 * i) ≡ 0)
    × ((i : ℕ) → 768 ≤ i → i < 1023 → s'.words (0xc0100000 + 4 * i) ≡ running_entry mapped.words i)
    × (s'.words (0xc0100000 + 4 * 1023) ≡ entry (addr_v2p mapped.words 0xc0100000))
    × ((a : ℕ) → within 0xc0100000 4096 a ≡ false → s'.words a ≡ mapped.words a)
create_page_dir_example = create_page_dir_lem start mapped 0xc0100000 malloc_page-found fresh

create_user_vaddr_bitmap_example :
    (range : VirtualAddr) × (s' : Memory) × (create_user_vaddr_bitmap start ≡ ok (range, s'))
    × (range.vaddr_start ≡ 0x8048000)
    × (range.vaddr_start + range.vaddr_bitmap.btmp_bytes_len * 8 * 4096 ≡ 0xc0000000)
    × (range.vaddr_bitmap.bits ≡ 0xc0100000)
    × (range.vaddr_bitmap.btmp_bytes_len ≤ bitmap_pg_cnt * 4096)
    × ((j : ℕ)
        → j < range.vaddr_bitmap.btmp_bytes_len * 8
        → bitmap_scan_test s'.bytes range.vaddr_bitmap j ≡ false)
    × ((a : ℕ)
        → within 0xc0100000 (bitmap_pg_cnt * 4096) a ≡ false
        → s'.bytes a ≡ with_range.bytes a)
    × (s'.words ≡ with_range.words)
create_user_vaddr_bitmap_example =
    create_user_vaddr_bitmap_lem start with_range 0xc0100000 get_kernel_pages-found
      (λ h. omega (arith, h))
