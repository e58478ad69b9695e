-- ===== src/Process/Range.antt =====
-- The range of addresses that userprog/process.c gives a new process.
use geniux.Base.{ℕ, ◌+◌, ◌-◌, ◌*◌, ◌/◌, ◌<◌, ◌≤◌, ◌≡◌, ◌≢◌, refl, false, ok, arith}
use geniux.Str.Blocks.{within}
use geniux.Bitmap.{bitmap_scan_test}
use geniux.Bitmap.Set.{bitmap_init_lem}
use geniux.Alloc.{Memory, VirtualAddr}
use geniux.Alloc.Pages.{get_kernel_pages}
use geniux.Process.{create_user_vaddr_bitmap, user_vaddr_start}

-- The pages of the bitmap of a process.
abbrev pub bitmap_pg_cnt : ℕ
bitmap_pg_cnt = 23

-- When the kernel's heap has the pages for the bitmap, `create_user_vaddr_bitmap` gives the process
-- the addresses from 0x8048000 to 0xc0000000, one bit for each page, and all of them are free; the
-- bitmap fits its pages, and nothing else in memory changes.
pub create_user_vaddr_bitmap_lem :
    (s s1 : Memory) (bits : ℕ)
    → get_kernel_pages bitmap_pg_cnt s ≡ ok (bits, s1)
    → bits ≢ 0
    → (range : VirtualAddr) × (s' : Memory) × (create_user_vaddr_bitmap s ≡ ok (range, s'))
      × (range.vaddr_start ≡ 0x8048000)
      × (range.vaddr_start + range.vaddr_bitmap.btmp_bytes_len * 8 * 4096 ≡ 0xc0000000)
      × (range.vaddr_bitmap.bits ≡ bits)
      × (range.vaddr_bitmap.btmp_bytes_len ≤ bitmap_pg_cnt * 4096)
      × ((j : ℕ)
          → j < range.vaddr_bitmap.btmp_bytes_len * 8
          → bitmap_scan_test s'.bytes range.vaddr_bitmap j ≡ false)
      × ((a : ℕ) → within bits (bitmap_pg_cnt * 4096) a ≡ false → s'.bytes a ≡ s1.bytes a)
      × (s'.words ≡ s1.words)
unfolding create_user_vaddr_bitmap
create_user_vaddr_bitmap_lem s s1 bits e live =
    let range : VirtualAddr = record {
      vaddr_bitmap = record {
        btmp_bytes_len = (0xc0000000 - user_vaddr_start) / 4096 / 8;
        bits = bits;
      };
      vaddr_start = user_vaddr_start;
    } in
    let (bytes, run, clear, rest) = bitmap_init_lem s1.bytes range.vaddr_bitmap live in
    (
      range,
      record s1 { bytes = bytes },
      rw (e, run) refl,
      refl,
      refl,
      refl,
      omega arith,
      clear,
      λ a out. rest a (ground (arith, out)),
      refl,
    )
