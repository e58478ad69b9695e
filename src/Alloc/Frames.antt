-- ===== src/Alloc/Frames.antt =====
-- The frames and ranges that kernel/memory.c hands out.
use geniux.Base.{
  ℕ, zero, suc, ◌+◌, ◌*◌, ◌/◌, ◌%◌, ◌^◌, ◌<◌, ◌≤◌, ◌≡◌, ◌≢◌, ◌⊎◌, inl, inr, refl, ap, true, false,
  ◌&&◌, ◌||◌, ◌==◌, leb, ltb, arith, Mem, IsBytes, ok, panic, store,
}
use geniux.Bitmap.{Bitmap, bitmap_scan_test}
use geniux.Bitmap.Scan.{IsFirstClear, bitmap_scan-one}
use geniux.Bitmap.Set.{bitmap_set-one}
use geniux.Bitmap.Run.{IsClear, bitmap_scan-run}
use geniux.Alloc.{Pool, Memory, pf_kernel, palloc, vaddr_get, mark_pages, page_table_add, entry}
use geniux.Paging.{pte_ptr, pde_ptr, addr_v2p}
use geniux.Paging.Laws.{pte_ptr_lem}

-- The pool's frames end below 2 ^ 32.
abbrev pub IsPool : Pool → Type 0
IsPool p = p.phy_addr_start + p.pool_bitmap.btmp_bytes_len * 8 * 4096 ≤ 2 ^ 32

-- `palloc` on a pool in memory: if every frame is taken it panics; or else it returns the address
-- of the first free frame, which lies in the pool, takes that frame and no other.
pub palloc_lem :
    (m : Mem) (p : Pool)
    → IsBytes m
    → IsPool p
    → ((palloc m p ≡ panic)
        × ((j : ℕ)
            → j < p.pool_bitmap.btmp_bytes_len * 8
            → bitmap_scan_test m p.pool_bitmap j ≡ true))
      ⊎ ((n : ℕ) × (m' : Mem) × (palloc m p ≡ ok (p.phy_addr_start + n * 4096, m'))
          × IsFirstClear m p.pool_bitmap n
          × IsBytes m'
          × ((j : ℕ)
              → bitmap_scan_test m' p.pool_bitmap j
                ≡ ((j == n) || bitmap_scan_test m p.pool_bitmap j)))
unfolding palloc
palloc_lem m p h small = elim (bitmap_scan-one m p.pool_bitmap h) [
  | inl (e, full) ↦ inl (rw e, full)
  | inr (n, e, first) ↦
      let (m', set, h', bits, rest) = bitmap_set-one m p.pool_bitmap n h in
      let at : (n * 4096 + p.phy_addr_start) % 2 ^ 32 ≡ p.phy_addr_start + n * 4096 =
        omega (arith, first.0) in
      inr (n, m', rw (e, set) (ap (λ a. ok (a, m')) at), first, h', bits)
]

-- Two frames that `palloc` hands out one after the other are different.
pub palloc-distinct :
    (m m1 m2 : Mem) (p : Pool) (a b : ℕ)
    → IsBytes m
    → IsPool p
    → palloc m p ≡ ok (a, m1)
    → palloc m1 p ≡ ok (b, m2)
    → a ≢ b
palloc-distinct m m1 m2 p a b h small e1 e2 = elim (palloc_lem m p h small) [
  | inl (stop, full) ↦ ground (arith, stop, e1)
  | inr (n, m', e, first, h', bits) ↦
      let same : m' ≡ m1 = ground (arith, e, e1) in
      elim (palloc_lem m' p h' small) [
        | inl (stop, full) ↦ ground (arith, stop, e2, same)
        | inr (k, m'', e', second, h'', bits') ↦ ground (arith, e, e1, e', e2, second.1, bits k)
      ]
]

-- The loop that marks `n` pages sets exactly their bits.
pub mark_pages-set :
    (n : ℕ) (m : Mem) (b : Bitmap) (start : ℕ)
    → IsBytes m
    → (m' : Mem) × (mark_pages n m b start 1 ≡ ok m')
      × IsBytes m'
      × ((j : ℕ)
          → bitmap_scan_test m' b j
            ≡ ((leb start j && ltb j (start + n)) || bitmap_scan_test m b j))
unfolding mark_pages
mark_pages-set zero m b start h = (m, refl, h, λ j. ground arith)
mark_pages-set (suc n) m b start h =
    let (m1, e, h1, bits, rest) = bitmap_set-one m b start h in
    let (m2, e2, h2, bits2) = mark_pages-set n m1 b (start + 1) h1 in
    (m2, rw e e2, h2, λ j. ground (arith, bits j, bits2 j))

-- `vaddr_get` of two kernel pages or more, while some page of the range is free, and counting the
-- bit behind the bitmap as one page more: either it returns the address of the first of as many
-- free pages in a row, and takes these and no other, or it returns NULL and changes nothing, and
-- there are not so many free pages in a row.
pub vaddr_get_lem :
    (n i : ℕ) (s : Memory)
    → IsBytes s.bytes
    → 2 ≤ n
    → i < s.kernel_vaddr.vaddr_bitmap.btmp_bytes_len * 8
    → bitmap_scan_test s.bytes s.kernel_vaddr.vaddr_bitmap i ≡ false
    → ((start : ℕ) × (m' : Mem) × (vaddr_get pf_kernel n s
          ≡ ok ((s.kernel_vaddr.vaddr_start + start * 4096) % 2 ^ 32, record s { bytes = m' }))
        × IsClear s.bytes s.kernel_vaddr.vaddr_bitmap n start n
        × ((j : ℕ)
            → bitmap_scan_test m' s.kernel_vaddr.vaddr_bitmap j ≡ (
                (leb start j && ltb j (start + n))
                || bitmap_scan_test s.bytes s.kernel_vaddr.vaddr_bitmap j)))
      ⊎ ((vaddr_get pf_kernel n s ≡ ok (0, s))
          × ((start : ℕ)
              → start + n ≤ s.kernel_vaddr.vaddr_bitmap.btmp_bytes_len * 8 + 1
              → ¬ IsClear s.bytes s.kernel_vaddr.vaddr_bitmap n start n))
unfolding vaddr_get
vaddr_get_lem n i s h two lt free =
    elim (bitmap_scan-run s.bytes s.kernel_vaddr.vaddr_bitmap n i h two lt free) [
      | inl (start, e, clear, hi) ↦
          let (m', set, h', bits) = mark_pages-set n s.bytes s.kernel_vaddr.vaddr_bitmap start h in
          inl (start, m', rw (e, set), clear, bits)
      | inr (e, no_run) ↦ inr (rw e, no_run)
    ]

-- Where the table of a page is present and the page itself is not, `page_table_add` of a frame at a
-- multiple of 4096 succeeds: the entry of the page becomes the frame's address with the bits for
-- present, writable and user, the addresses of the page are translated to the frame, and the entry
-- and the translation of every other page are as before.
pub page_table_add_lem :
    (v frame : ℕ) (s : Memory)
    → v < 2 ^ 32
    → frame < 2 ^ 32
    → frame % 4096 ≡ 0
    → s.words (pde_ptr v) % 2 ≡ 1
    → s.words (pte_ptr v) % 2 ≡ 0
    → (s' : Memory) × (page_table_add v frame s ≡ ok s')
      × (s'.bytes ≡ s.bytes)
      × (s'.words (pte_ptr v) ≡ frame + 4 + 2 + 1)
      × ((u : ℕ)
          → u < 2 ^ 32
          → ((u / 4096 ≡ v / 4096) × (addr_v2p s'.words u ≡ frame + u % 4096))
            ⊎ ((u / 4096 ≢ v / 4096)
                × (s'.words (pte_ptr u) ≡ s.words (pte_ptr u))
                × (addr_v2p s'.words u ≡ addr_v2p s.words u)))
unfolding page_table_add addr_v2p
page_table_add_lem v frame s hv hf aligned table page = (
  record s { words = store s.words (pte_ptr v) (entry frame) },
  ground arith,
  refl,
  ground arith,
  λ u hu. ground (arith, (pte_ptr_lem u v hu hv).3),
)
