-- ===== src/Alloc.antt =====
-- kernel/memory.c: physical frames, ranges of virtual pages, and the entries that join them. The
-- bitmaps stand in `bytes` and the page tables in `words`, two parts of memory that never overlap.
-- A pointer is a number, and 0 is NULL; `invlpg` has no effect on memory. `user_vaddr` and `pgdir`
-- are the running thread's.
-- The children: frames and ranges, pages for callers and their frames, what freeing does, the
-- memory's partition, the blocks of an arena.
pub mod Frames
pub mod Pages
pub mod Granted
pub mod Mapping
pub mod Free
pub mod Setup
pub mod Arenas
mod Examples
use geniux.Base.{
  ℕ, zero, suc, ◌+◌, ◌-◌, ◌*◌, ◌/◌, ◌%◌, ◌^◌, Bool, true, false, not, ◌&&◌, ◌==◌, ltb, leb,
  if◌then◌else◌, Option, none, some, List, [], ◌∷◌, store, Mem, Outcome, ok, panic, ◌>>=◌, ◌>>◌,
  assert,
}
use geniux.Bitmap.{Bitmap, bitmap_scan, bitmap_set, bitmap_init}
use geniux.Paging.{Words, pte_ptr, pde_ptr, addr_v2p, page_table_pte_remove}
use geniux.Sync.{Lock, lock_init, try_lock, try_release}

pub record Pool : Type 0 where
  pub pool_bitmap : Bitmap
  pub phy_addr_start : ℕ
  pub pool_size : ℕ
  pub lock : Lock

pub record VirtualAddr : Type 0 where
  pub vaddr_bitmap : Bitmap
  pub vaddr_start : ℕ

pub data PoolFlags : Type 0 where
  pf_kernel pf_user : PoolFlags

pub record Memory : Type 0 where
  pub kernel_pool : Pool
  pub user_pool : Pool
  pub kernel_vaddr : VirtualAddr
  pub user_vaddr : VirtualAddr
  pub bytes : Mem
  pub words : Words
  pub pgdir : ℕ

unfoldable pub palloc : Mem → Pool → Outcome (ℕ × Mem)
palloc m p = do
  r ← bitmap_scan m p.pool_bitmap 1
  elim r [
    | none ↦ ok (0, m)
    | some bit_idx ↦ (do
      m' ← bitmap_set m p.pool_bitmap bit_idx 1
      ok ((bit_idx * 4096 + p.phy_addr_start) % 2 ^ 32, m'))
  ]

-- The pool that an address is in, and the index of its frame there.
unfoldable pub frame_bit : Memory → ℕ → Bitmap × ℕ
frame_bit s addr =
    if leb s.user_pool.phy_addr_start addr
    then (s.user_pool.pool_bitmap, (addr - s.user_pool.phy_addr_start) / 4096)
    else (s.kernel_pool.pool_bitmap, (addr + 2 ^ 32 - s.kernel_pool.phy_addr_start) % 2 ^ 32 / 4096)

unfoldable pub pfree : Memory → ℕ → Outcome Memory
unfolding frame_bit
pfree s addr = do
  let (b, i) = frame_bit s addr
  m' ← bitmap_set s.bytes b i 0
  ok (record s { bytes = m' })

-- `while (cnt < pg_cnt) bitmap_set(…, start + (cnt++), value);`
unfoldable pub mark_pages : ℕ → Mem → Bitmap → ℕ → ℕ → Outcome Mem
mark_pages zero m b start value = ok m
mark_pages (suc left) m b start value = do
  m' ← bitmap_set m b start value
  mark_pages left m' b (start + 1) value

abbrev pub range_of : PoolFlags → Memory → VirtualAddr
range_of pf_kernel s = s.kernel_vaddr
range_of pf_user s = s.user_vaddr

abbrev pub pool_of : PoolFlags → Memory → Pool
pool_of pf_kernel s = s.kernel_pool
pool_of pf_user s = s.user_pool

abbrev pub with_lock : PoolFlags → Lock → Memory → Memory
with_lock pf_kernel l s = record s { kernel_pool = record s.kernel_pool { lock = l } }
with_lock pf_user l s = record s { user_pool = record s.user_pool { lock = l } }

abbrev is_kernel : PoolFlags → Bool
is_kernel pf_kernel = true
is_kernel pf_user = false

unfoldable pub vaddr_remove : PoolFlags → ℕ → ℕ → Memory → Outcome Memory
unfolding mark_pages
vaddr_remove pf vaddr pg_cnt s = do
  let v = range_of pf s
  m' ← mark_pages pg_cnt s.bytes v.vaddr_bitmap ((vaddr + 2 ^ 32 - v.vaddr_start) % 2 ^ 32 / 4096) 0
  ok (record s { bytes = m' })

-- The last ASSERT, of a user's address only.
abbrev pub user_bound : PoolFlags → ℕ → Bool
user_bound pf_kernel vaddr = true
user_bound pf_user vaddr = ltb vaddr (0xc0000000 - 4096)

unfoldable pub vaddr_get : PoolFlags → ℕ → Memory → Outcome (ℕ × Memory)
unfolding mark_pages
vaddr_get pf pg_cnt s = do
  let v = range_of pf s
  r ← bitmap_scan s.bytes v.vaddr_bitmap pg_cnt
  elim r [
    | none ↦ ok (0, s)
    | some start ↦ (do
      m' ← mark_pages pg_cnt s.bytes v.vaddr_bitmap start 1
      let vaddr = (v.vaddr_start + start * 4096) % 2 ^ 32
      assert (user_bound pf vaddr)
      ok (vaddr, record s { bytes = m' }))
  ]

-- `page | PG_US_U | PG_RW_W | PG_P_1` sets the three lowest bits.
abbrev pub entry : ℕ → ℕ
entry page = page / 8 * 8 + 7

-- `memset(page, 0, PG_SIZE)` on the words of a page.
abbrev pub clear_page : Words → ℕ → Words
clear_page w page a = if a / 4096 == page / 4096 then 0 else w a

abbrev pub is_present : ℕ → Bool
is_present e = e % 2 == 1

unfoldable pub page_table_add : ℕ → ℕ → Memory → Outcome Memory
unfolding pde_ptr pte_ptr palloc
page_table_add vaddr page s = do
  let pde = pde_ptr vaddr
  let pte = pte_ptr vaddr
  if is_present (s.words pde)
      then (do
        assert (not (is_present (s.words pte)))
        ok (record s { words = store s.words pte (entry page) }))
      else (do
        (frame, m') ← palloc s.bytes s.kernel_pool
        let w = clear_page (store s.words pde (entry frame)) pte
        assert (not (is_present (w pte)))
        ok (record s { bytes = m'; words = store w pte (entry page) }))

-- The loop of `malloc_page`; the pages it has mapped stay mapped when a frame is missing.
unfoldable pub map_pages : ℕ → PoolFlags → ℕ → Memory → Outcome (Bool × Memory)
map_pages zero pf vaddr s = ok (true, s)
map_pages (suc cnt) pf vaddr s = do
  (page, m') ← palloc s.bytes (pool_of pf s)
  if page == 0 then ok (false, record s { bytes = m' }) else (do
    s' ← page_table_add vaddr page (record s { bytes = m' })
    map_pages cnt pf ((vaddr + 4096) % 2 ^ 32) s')

unfoldable pub malloc_page : PoolFlags → ℕ → Memory → Outcome (ℕ × Memory)
malloc_page pf pg_cnt s = do
  assert (ltb 0 pg_cnt && ltb pg_cnt 3840)
  (vaddr, s1) ← vaddr_get pf pg_cnt s
  if vaddr == 0
      then ok (0, s1)
      else (do (done, s2) ← map_pages pg_cnt pf vaddr s1; ok ((if done then vaddr else 0), s2))

-- What the ASSERT in the loops of `mfree_page` wants of a frame: to be in the pool of the first.
abbrev pub same_pool : Memory → ℕ → ℕ → Bool
same_pool s first addr =
    let up = s.user_pool.phy_addr_start in
    if leb up first then leb up addr else leb s.kernel_pool.phy_addr_start addr && ltb addr up

-- The loops of `mfree_page`.
unfoldable pub unmap_pages : ℕ → (ℕ → Bool) → ℕ → Memory → Outcome Memory
unfolding pfree addr_v2p page_table_pte_remove
unmap_pages zero allowed vaddr s = ok s
unmap_pages (suc left) allowed vaddr s = do
  let addr = addr_v2p s.words vaddr
  assert ((addr % 4096 == 0) && allowed addr)
  s' ← pfree s addr
  unmap_pages left allowed ((vaddr + 4096) % 2 ^ 32)
      (record s' { words = page_table_pte_remove s'.words vaddr })

unfoldable pub mfree_page : PoolFlags → ℕ → ℕ → Memory → Outcome Memory
unfolding unmap_pages vaddr_remove addr_v2p
mfree_page pf vaddr pg_cnt s = do
  assert (leb 1 pg_cnt && (vaddr % 4096 == 0))
  let addr = addr_v2p s.words vaddr
  assert ((addr % 4096 == 0) && leb 0x102000 addr)
  s' ← unmap_pages pg_cnt (same_pool s addr) vaddr s
  vaddr_remove pf vaddr pg_cnt s'

-- The address of a page that a caller chose. The pool's lock is free or held by the caller, or the
-- call is blocked; it stays held where the source returns NULL.
unfoldable pub get_a_page : ℕ → PoolFlags → ℕ → Memory → Outcome (ℕ × Memory)
unfolding palloc page_table_add
get_a_page running pf vaddr s = do
  l ← try_lock running (pool_of pf s).lock
  let s1 = with_lock pf l s
  let v = range_of pf s
  assert (if s.pgdir == 0 then is_kernel pf else not (is_kernel pf))
  let bit_idx = (vaddr + 2 ^ 32 - v.vaddr_start) % 2 ^ 32 / 4096
  assert (ltb 0 bit_idx)
  m1 ← bitmap_set s1.bytes v.vaddr_bitmap bit_idx 1
  (page, m2) ← palloc m1 (pool_of pf s1)
  let s2 = record s1 { bytes = m2 }
  if page == 0 then ok (0, s2) else (do
    s3 ← page_table_add vaddr page s2
    (woken, l') ← try_release running (pool_of pf s3).lock
    ok (vaddr, with_lock pf l' s3))
