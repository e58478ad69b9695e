-- ===== src/Alloc/Free.antt =====
-- What kernel/memory.c does to give pages back.
use geniux.Base.{
  ℕ, zero, suc, ◌+◌, ◌-◌, ◌*◌, ◌/◌, ◌%◌, ◌^◌, ◌<◌, ◌≤◌, ◌≡◌, ◌⊎◌, inl, inr, refl, Bool, true, ◌&&◌,
  ◌==◌, leb, arith, Mem, IsBytes, ok, if◌then◌else◌, Bool-cases, ==_ne, ==_iff, ◌∙◌, false,
}
use geniux.Bitmap.{Bitmap}
use geniux.Bitmap.Set.{bitmap_set-zero}
use geniux.Alloc.{
  Memory, PoolFlags, range_of, pfree, frame_bit, mark_pages, vaddr_remove, unmap_pages, mfree_page,
  same_pool,
}
use geniux.Paging.{pte_ptr, addr_v2p, page_table_pte_remove}
use geniux.Paging.Laws.{pte_ptr_lem}

pub pfree_lem : (s : Memory) (addr : ℕ) → IsBytes s.bytes → pfree s addr ≡ ok s
unfolding pfree frame_bit
pfree_lem s addr h = elim (Bool-cases (leb s.user_pool.phy_addr_start addr)) [
  | inl e ↦ rw (e, bitmap_set-zero s.bytes _ ((addr - s.user_pool.phy_addr_start) / 4096) h) refl
  | inr e ↦
      rw
        (
          e,
          bitmap_set-zero s.bytes _ ((addr + 2 ^ 32 - s.kernel_pool.phy_addr_start) % 2 ^ 32 / 4096)
              h,
        )
        refl
]

mark_pages-zero :
    (n : ℕ) (m : Mem) (b : Bitmap) (start : ℕ) → IsBytes m → mark_pages n m b start 0 ≡ ok m
unfolding mark_pages
mark_pages-zero zero m b start h = refl
mark_pages-zero (suc n) m b start h =
    rw (bitmap_set-zero m b start h) (mark_pages-zero n m b (start + 1) h)

vaddr_remove_lem :
    (pf : PoolFlags) (vaddr n : ℕ) (s : Memory) → IsBytes s.bytes → vaddr_remove pf vaddr n s ≡ ok s
unfolding vaddr_remove
vaddr_remove_lem pf vaddr n s h =
    rw
      (mark_pages-zero n s.bytes (range_of pf s).vaddr_bitmap
        ((vaddr + 2 ^ 32 - (range_of pf s).vaddr_start) % 2 ^ 32 / 4096) h)
      refl

-- Every page of a range is mapped to the start of a frame that `allowed` accepts.
abbrev pub Mapped : (ℕ → Bool) → ℕ → ℕ → Memory → Type 0
Mapped allowed n v s =
    (u : ℕ)
    → v ≤ u
    → u < v + n * 4096
    → u % 4096 ≡ 0
    → ((addr_v2p s.words u % 4096 == 0) && allowed (addr_v2p s.words u)) ≡ true

-- In the range the entries lose their present bit and keep the rest; every other entry is as before.
abbrev pub Unmapped : ℕ → ℕ → Memory → Memory → Type 0
Unmapped n v s s' =
    (u : ℕ)
    → u < 2 ^ 32
    → ((v ≤ u) × (u < v + n * 4096) × (s'.words (pte_ptr u) ≡ s.words (pte_ptr u) / 2 * 2))
      ⊎ (((u < v) ⊎ (v + n * 4096 ≤ u)) × (s'.words (pte_ptr u) ≡ s.words (pte_ptr u)))

abbrev without : Memory → ℕ → Memory
without s v = record s { words = page_table_pte_remove s.words v }

remove-translation : (s : Memory) (v u : ℕ) → addr_v2p (without s v).words u ≡ addr_v2p s.words u
unfolding addr_v2p page_table_pte_remove
remove-translation s v u = ground arith

remove-entry :
    (s : Memory) (v u : ℕ)
    → v < 2 ^ 32
    → u < 2 ^ 32
    → (without s v).words (pte_ptr u) ≡ (
        if u / 4096 == v / 4096
        then s.words (pte_ptr u) - s.words (pte_ptr u) % 2
        else s.words (pte_ptr u))
unfolding page_table_pte_remove
remove-entry s v u hv hu = ground (arith, (pte_ptr_lem u v hu hv).3)

-- The first page, and those behind it.
lost :
    (n v u : ℕ)
    → v % 4096 ≡ 0
    → (old one all : ℕ) → v + suc n * 4096 ≤ 2 ^ 32
    → (((v + 4096) % 2 ^ 32 ≤ u) × (u < (v + 4096) % 2 ^ 32 + n * 4096) × (all ≡ one / 2 * 2))
      ⊎ (((u < (v + 4096) % 2 ^ 32) ⊎ ((v + 4096) % 2 ^ 32 + n * 4096 ≤ u)) × (all ≡ one))
    → one ≡ (if u / 4096 == v / 4096 then old - old % 2 else old)
    → ((v ≤ u) × (u < v + suc n * 4096) × (all ≡ old / 2 * 2))
      ⊎ (((u < v) ⊎ (v + suc n * 4096 ≤ u)) × (all ≡ old))
lost n v u page old one all end (inl (lo, hi, e)) f =
    let here : (u / 4096 == v / 4096) ≡ false =
      ==_ne _ _ (λ same. omega (arith, same, lo, hi, page, end)) in
    let g : one ≡ old = f ∙ rw here refl in
    inl (omega (arith, lo, hi, page, end), omega (arith, lo, hi, end), omega (arith, e, g))
lost n v u page old one all end (inr (out, e)) f = elim (Bool-cases (u / 4096 == v / 4096)) [
  | inl same ↦
      let at = (==_iff (u / 4096) (v / 4096)).0 same in
      let g : one ≡ old - old % 2 = f ∙ rw same refl in
      inl (omega (arith, at, page), omega (arith, at, page), omega (arith, e, g))
  | inr other ↦
      let ne : ¬ (u / 4096 ≡ v / 4096) = λ at. ground (arith, other, at) in
      let g : one ≡ old = f ∙ rw other refl in inr (omega (arith, out, page, end, ne), e ∙ g)
]

-- The loop of `mfree_page`, over pages that are all mapped to allowed frames.
unmap_pages-ok :
    (n : ℕ) (allowed : ℕ → Bool) (v : ℕ) (s : Memory)
    → IsBytes s.bytes
    → v % 4096 ≡ 0
    → v + n * 4096 ≤ 2 ^ 32
    → Mapped allowed n v s
    → (s' : Memory) × (unmap_pages n allowed v s ≡ ok s') × (s'.bytes ≡ s.bytes) × Unmapped n v s s'
unfolding unmap_pages
unmap_pages-ok zero allowed v s h page end mapped = (s, refl, refl, λ u hu. inr (omega arith, refl))
unmap_pages-ok (suc n) allowed v s h page end mapped =
    let first = mapped v (omega arith) (omega arith) page in
    let s1 = without s v in
    let mapped1 : Mapped allowed n ((v + 4096) % 2 ^ 32) s1 =
      λ u lo hi al. rw (remove-translation s v u) (mapped u (omega arith) (omega arith) al) in
    let (s2, e, same, un) =
      unmap_pages-ok n allowed ((v + 4096) % 2 ^ 32) s1 h (omega arith) (omega arith) mapped1 in
    (
      s2,
      rw (first, pfree_lem s (addr_v2p s.words v) h) e,
      same,
      λ u hu.
          lost n v u page (s.words (pte_ptr u)) (s1.words (pte_ptr u)) (s2.words (pte_ptr u))
            (omega (arith, end)) (un u hu) (remove-entry s v u (omega arith) hu),
    )

-- `mfree_page` of one page or more, whose entries all give frames of one pool, the first of them at
-- or above 0x102000, succeeds: it clears bit 0, the present bit, of each of their entries, leaves
-- the other bits of these entries and every other entry as they are, and changes no bit of any
-- bitmap: neither the frames nor the addresses become free.
pub mfree_page_lem :
    (pf : PoolFlags) (v n : ℕ) (s : Memory)
    → IsBytes s.bytes
    → 1 ≤ n
    → v % 4096 ≡ 0
    → v + n * 4096 ≤ 2 ^ 32
    → 0x102000 ≤ addr_v2p s.words v
    → Mapped (same_pool s (addr_v2p s.words v)) n v s
    → (s' : Memory) × (mfree_page pf v n s ≡ ok s') × (s'.bytes ≡ s.bytes) × Unmapped n v s s'
unfolding mfree_page
mfree_page_lem pf v n s h pos page end high mapped =
    let (s', e, same, un) =
      unmap_pages-ok n (same_pool s (addr_v2p s.words v)) v s h page end mapped in
    let first = mapped v (omega arith) (omega arith) page in
    let aligned : (addr_v2p s.words v % 4096 == 0) ≡ true = ground (arith, first) in
    (s', ground (arith, e, aligned, vaddr_remove_lem pf v n s' (λ a. rw same (h a))), same, un)
