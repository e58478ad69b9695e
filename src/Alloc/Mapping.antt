-- ===== src/Alloc/Mapping.antt =====
-- `malloc_page` of kernel/memory.c: which frames the pages of a request get.
use geniux.Base.{
  ℕ, zero, suc, ◌+◌, ◌*◌, ◌%◌, ◌^◌, ◌<◌, ◌≤◌, ◌≡◌, ◌≢◌, ◌⊎◌, inl, inr, refl, ◌∙◌, true, false, ◌&&◌,
  ◌==◌, ltb, arith, IsBytes, ok, panic, ==_ne, subst,
}
use geniux.Paging.{pte_ptr, pde_ptr}
use geniux.Alloc.{Memory, Pool, PoolFlags, pool_of, map_pages, malloc_page, vaddr_get}
use geniux.Alloc.Frames.{IsPool, palloc_lem}
use geniux.Alloc.Granted.{
  Ready, Short, HasFrames, pool-same, added, page_table_add-run, Ready-added, extend, none,
  one_more,
}

module _ (p : Pool) (fits : IsPool p) (aligned : p.phy_addr_start % 4096 ≡ 0)
    (low : 0 < p.phy_addr_start) where
  -- The loop of `malloc_page`.
  pub map_pages_lem :
      (n : ℕ) (pf : PoolFlags) (v : ℕ) (s : Memory)
      → pool_of pf s ≡ p
      → IsBytes s.bytes
      → v % 4096 ≡ 0
      → v + n * 4096 ≤ 0xffc00000
      → Ready n v s.words
      → ((map_pages n pf v s ≡ panic) × Short n s.bytes p.pool_bitmap)
        ⊎ ((s' : Memory) × (map_pages n pf v s ≡ ok (true, s')) × HasFrames p n v s s')
  unfolding map_pages
  map_pages_lem zero pf v s same h al end r = inr (s, refl, none p fits aligned low v s)
  map_pages_lem (suc n) pf v s same h al end r = elim (palloc_lem s.bytes p h fits) [
    | inl (stop, full) ↦ inl (
      rw (same, stop) refl,
      record { few = 0; less = omega arith; last = λ i. i; rest = λ j lt. inl (full j lt) },
    )
    | inr (k, m1, got, first, h1, bits) ↦
        let page = p.phy_addr_start + k * 4096 in
        let s1 = added v page s m1 in
        let (table, free) =
          subst (λ (u : ℕ). (s.words (pde_ptr u) % 2 ≡ 1) × (s.words (pte_ptr u) % 2 ≡ 0)) (at v)
            (r 0 (omega arith)) in
        let there : (page == 0) ≡ false = ==_ne page 0 (λ e. omega (arith, e, low)) in
        let next : (v + 4096) % 2 ^ 32 ≡ v + 4096 = omega (arith, end) in
        let add = page_table_add-run v page (record s { bytes = m1 }) table free in
        elim (map_pages_lem n pf (v + 4096) s1 (pool-same pf s m1 s1.words ∙ same) h1
          (omega (arith, al)) (omega (arith, end)) (Ready-added n v page s.words al end r)) [
            | inl (stop, few) ↦ inl (
              rw (same, got, there, add, next) stop,
              one_more p fits aligned low n k s.bytes m1 bits few,
            )
            | inr (s', ran, f) ↦ inr (
              s',
              rw (same, got, there, add, next) ran,
              extend p fits aligned low n v k s m1 s' al end first bits f,
            )
          ]
  ]
    where
      at : (v : ℕ) → v + 0 * 4096 ≡ v
      at v = omega arith

  -- `malloc_page` of one page or more, when the range gives pages that have their tables and are not
  -- present, below the window of the page tables, and the pool's frames start at a multiple of 4096
  -- above 0 and end below 2 ^ 32: it returns the first page, and the entry of every page is a frame of
  -- its own that was free, with the bits for present, writable and user; these frames are taken and
  -- no others, and the entry and the translation of no other page change. Or else it panics, and
  -- fewer frames than pages are free.
  pub malloc_page_lem :
      (n : ℕ) (pf : PoolFlags) (v : ℕ) (s s1 : Memory)
      → 1 ≤ n
      → n < 3840
      → vaddr_get pf n s ≡ ok (v, s1)
      → v ≢ 0
      → pool_of pf s1 ≡ p
      → IsBytes s1.bytes
      → v % 4096 ≡ 0
      → v + n * 4096 ≤ 0xffc00000
      → Ready n v s1.words
      → ((malloc_page pf n s ≡ panic) × Short n s1.bytes p.pool_bitmap)
        ⊎ ((s' : Memory) × (malloc_page pf n s ≡ ok (v, s')) × HasFrames p n v s1 s')
  unfolding malloc_page
  malloc_page_lem n pf v s s1 one top got live same h al end r =
      let count : (ltb 0 n && ltb n 3840) ≡ true = ground arith in
      elim (map_pages_lem n pf v s1 same h al end r) [
        | inl (stop, few) ↦ inl (rw (count, got, ==_ne v 0 live, stop) refl, few)
        | inr (s', ran, f) ↦ inr (s', rw (count, got, ==_ne v 0 live, ran) refl, f)
      ]
