-- ===== src/Alloc/Setup.antt =====
-- `mem_pool_init` of kernel/memory.c: how the memory behind the first 2 MB is divided.
use geniux.Base.{
  ℕ, ◌+◌, ◌-◌, ◌*◌, ◌/◌, ◌%◌, ◌^◌, ◌<◌, ◌≤◌, ◌≡◌, ◌≢◌, refl, ◌∙◌, false, arith, Mem, Outcome, ok,
  ◌>>=◌,
}
use geniux.Bitmap.{Bitmap, bitmap_init, bitmap_scan_test}
use geniux.Bitmap.Set.{bitmap_init_lem, test-same}
use geniux.Sync.{lock_init}
use geniux.Alloc.{Memory}

-- The assignments before the first `bitmap_init`. No sum wraps but the subtraction; the numbers of
-- pages are `uint16_t`.
abbrev pub layout : ℕ → Memory → Memory
layout all_mem s =
    let used_mem = 4096 * 256 + 0x100000 in
    let all_free_pages = (all_mem + 2 ^ 32 - used_mem) % 2 ^ 32 / 4096 % 2 ^ 16 in
    let kernel_free_pages = all_free_pages / 2 in
    let user_free_pages = all_free_pages - kernel_free_pages in
    let kbm_length = kernel_free_pages / 8 in
    let ubm_length = user_free_pages / 8 in
    record s {
      kernel_pool = record {
        pool_bitmap = record { btmp_bytes_len = kbm_length; bits = 0xc009a000 };
        phy_addr_start = used_mem;
        pool_size = kernel_free_pages * 4096;
        lock = lock_init;
      };
      user_pool = record {
        pool_bitmap = record { btmp_bytes_len = ubm_length; bits = 0xc009a000 + kbm_length };
        phy_addr_start = used_mem + kernel_free_pages * 4096;
        pool_size = user_free_pages * 4096;
        lock = lock_init;
      };
      kernel_vaddr = record {
        vaddr_bitmap = record {
          btmp_bytes_len = kbm_length;
          bits = 0xc009a000 + kbm_length + ubm_length;
        };
        vaddr_start = 0xc0100000;
      };
    }

unfoldable pub mem_pool_init : ℕ → Memory → Outcome Memory
mem_pool_init all_mem s = do
  let t = layout all_mem s
  m1 ← bitmap_init t.bytes t.kernel_pool.pool_bitmap
  m2 ← bitmap_init m1 t.user_pool.pool_bitmap
  m3 ← bitmap_init m2 t.kernel_vaddr.vaddr_bitmap
  ok (record t { bytes = m3 })

abbrev pub AllFree : Mem → Bitmap → Type 0
AllFree m b = (j : ℕ) → j < b.btmp_bytes_len * 8 → bitmap_scan_test m b j ≡ false

-- `bitmap_init` clears the bitmap and keeps every clear one that lies before it.
init-AllFree :
    (m : Mem) (c : Bitmap)
    → c.bits ≢ 0
    → (m' : Mem) × (bitmap_init m c ≡ ok m')
      × AllFree m' c
      × ((b : Bitmap) → b.bits + b.btmp_bytes_len ≤ c.bits → AllFree m b → AllFree m' b)
init-AllFree m c ne =
    let (m', e, clear, rest) = bitmap_init_lem m c ne in
    (
      m',
      e,
      clear,
      λ b apart free j lt. test-same m m' b j (rest (b.bits + j / 8) (ground arith)) ∙ free j lt,
    )

-- In a machine with at least 64 KB and less than 256 MB behind the first 2 MB, `mem_pool_init`
-- succeeds: the frames of the kernel's pool, then those of the user's, lie one behind the other
-- between the first 2 MB and the end of the memory, their bitmaps and that of the kernel's addresses
-- follow each other and end below 0xc009e000, and all three are clear.
pub mem_pool_init_lem :
    (all_mem : ℕ) (s : Memory)
    → 0x210000 ≤ all_mem
    → all_mem < 0x10200000
    → (t : Memory) × (mem_pool_init all_mem s ≡ ok t)
      × (t.kernel_pool.phy_addr_start ≡ 0x200000)
      × (t.kernel_pool.phy_addr_start + t.kernel_pool.pool_bitmap.btmp_bytes_len * 8 * 4096
          ≤ t.user_pool.phy_addr_start)
      × (t.user_pool.phy_addr_start + t.user_pool.pool_bitmap.btmp_bytes_len * 8 * 4096 ≤ all_mem)
      × (0 < t.kernel_pool.pool_bitmap.btmp_bytes_len)
      × (t.kernel_pool.pool_bitmap.bits + t.kernel_pool.pool_bitmap.btmp_bytes_len
          ≡ t.user_pool.pool_bitmap.bits)
      × (t.user_pool.pool_bitmap.bits + t.user_pool.pool_bitmap.btmp_bytes_len
          ≡ t.kernel_vaddr.vaddr_bitmap.bits)
      × (t.kernel_vaddr.vaddr_bitmap.bits + t.kernel_vaddr.vaddr_bitmap.btmp_bytes_len ≤ 0xc009e000)
      × AllFree t.bytes t.kernel_pool.pool_bitmap
      × AllFree t.bytes t.user_pool.pool_bitmap
      × AllFree t.bytes t.kernel_vaddr.vaddr_bitmap
unfolding mem_pool_init
mem_pool_init_lem all_mem s lo hi =
    let t = layout all_mem s in
    let kp = t.kernel_pool.pool_bitmap in
    let up = t.user_pool.pool_bitmap in
    let kv = t.kernel_vaddr.vaddr_bitmap in
    let (m1, e1, free1, keep1) = init-AllFree t.bytes kp (omega arith) in
    let (m2, e2, free2, keep2) = init-AllFree m1 up (omega arith) in
    let (m3, e3, free3, keep3) = init-AllFree m2 kv (omega arith) in
    (
      record t { bytes = m3 },
      rw (e1, e2, e3) refl,
      refl,
      omega arith,
      omega arith,
      omega arith,
      refl,
      refl,
      omega arith,
      keep3 kp (omega arith) (keep2 kp (omega arith) free1),
      keep3 up (omega arith) free2,
      free3,
    )
