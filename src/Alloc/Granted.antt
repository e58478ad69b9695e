-- ===== src/Alloc/Granted.antt =====
-- The frames that the pages of a request of `malloc_page` of kernel/memory.c get.
use geniux.Base.{
  ℕ, zero, suc, ◌+◌, ◌*◌, ◌/◌, ◌%◌, ◌^◌, ◌<◌, ◌≤◌, ◌≡◌, ◌≢◌, ◌⊎◌, inl, inr, refl, ap, sym, ◌∙◌,
  true, false, ◌||◌, ◌==◌, arith, Mem, ok, store, ==_ne, ==_iff, ==_refl, subst, ℕ_discrete,
}
use geniux.Bitmap.{Bitmap, bitmap_scan_test}
use geniux.Bitmap.Scan.{IsFirstClear}
use geniux.Paging.{Words, pte_ptr, pde_ptr, addr_v2p}
use geniux.Paging.Laws.{pte_ptr_lem}
use geniux.Alloc.{Memory, Pool, PoolFlags, pf_kernel, pf_user, pool_of, page_table_add, entry}
use geniux.Alloc.Frames.{IsPool}

-- The pages from `v` on have their table, and none of them is mapped.
abbrev pub Ready : ℕ → ℕ → Words → Type 0
Ready n v w =
    (i : ℕ) → i < n → (w (pde_ptr (v + i * 4096)) % 2 ≡ 1) × (w (pte_ptr (v + i * 4096)) % 2 ≡ 0)

-- Fewer than `n` frames of a bitmap are free: all of those that are stand among `few` numbers.
pub record Short (n : ℕ) (m : Mem) (b : Bitmap) : Type 0 where
  pub few : ℕ
  pub less : few < n
  pub last : ℕ → ℕ
  pub rest :
      (j : ℕ)
      → j < b.btmp_bytes_len * 8
      → (bitmap_scan_test m b j ≡ true) ⊎ ((i : ℕ) × (i < few) × (j ≡ last i))

-- The `n` pages from `v` on have frames of their own, which were free: the entry of each page is its
-- frame with the bits for present, writable and user. These frames are taken and no others, and the
-- entry and the translation of no other page change.
pub record HasFrames (p : Pool) (n v : ℕ) (s s' : Memory) : Type 0 where
  pub frame : ℕ → ℕ
  pub inside : (i : ℕ) → i < n → frame i < p.pool_bitmap.btmp_bytes_len * 8
  pub free : (i : ℕ) → i < n → bitmap_scan_test s.bytes p.pool_bitmap (frame i) ≡ false
  pub distinct : (i j : ℕ) → i < n → j < n → frame i ≡ frame j → i ≡ j
  pub taken : (i : ℕ) → i < n → bitmap_scan_test s'.bytes p.pool_bitmap (frame i) ≡ true
  pub others :
      (j : ℕ)
      → ((i : ℕ) → i < n → frame i ≢ j)
      → bitmap_scan_test s'.bytes p.pool_bitmap j ≡ bitmap_scan_test s.bytes p.pool_bitmap j
  pub mapped :
      (i o : ℕ)
      → i < n
      → o < 4096
      → addr_v2p s'.words (v + i * 4096 + o) ≡ p.phy_addr_start + frame i * 4096 + o
  pub entries :
      (i : ℕ)
      → i < n
      → s'.words (pte_ptr (v + i * 4096)) ≡ p.phy_addr_start + frame i * 4096 + 4 + 2 + 1
  pub rest :
      (u : ℕ)
      → u < 2 ^ 32
      → (u < v) ⊎ (v + n * 4096 ≤ u)
      → s'.words (pte_ptr u) ≡ s.words (pte_ptr u)
  pub kept :
      (u : ℕ) → u < 2 ^ 32 → (u < v) ⊎ (v + n * 4096 ≤ u) → addr_v2p s'.words u ≡ addr_v2p s.words u

pub pool-same :
    (pf : PoolFlags) (s : Memory) (m : Mem) (w : Words)
    → pool_of pf (record s { bytes = m; words = w }) ≡ pool_of pf s
pool-same pf_kernel s m w = refl
pool-same pf_user s m w = refl

-- The state after the first page has its frame.
abbrev pub added : ℕ → ℕ → Memory → Mem → Memory
added v page s m = record s { bytes = m; words = store s.words (pte_ptr v) (entry page) }

pub page_table_add-run :
    (v page : ℕ) (s : Memory)
    → s.words (pde_ptr v) % 2 ≡ 1
    → s.words (pte_ptr v) % 2 ≡ 0
    → page_table_add v page s ≡ ok (record s { words = store s.words (pte_ptr v) (entry page) })
unfolding page_table_add
page_table_add-run v page s table none = ground arith

-- The entries of two pages, and of a page and a table, are different words.
pte_apart :
    (a b : ℕ) → a < 2 ^ 32 → b < 2 ^ 32 → a / 4096 ≢ b / 4096 → (pte_ptr a == pte_ptr b) ≡ false
pte_apart a b ha hb ne = ==_ne (pte_ptr a) (pte_ptr b) (λ e. ne ((pte_ptr_lem a b ha hb).3.0 e))

pde_apart : (a b : ℕ) → a < 0xffc00000 → b < 2 ^ 32 → (pte_ptr a == pde_ptr b) ≡ false
unfolding pte_ptr pde_ptr
pde_apart a b ha hb = ==_ne _ _ (λ e. omega (arith, e))

pub Ready-added :
    (n v page : ℕ) (w : Words)
    → v % 4096 ≡ 0
    → v + suc n * 4096 ≤ 0xffc00000
    → Ready (suc n) v w
    → Ready n (v + 4096) (store w (pte_ptr v) (entry page))
Ready-added n v page w al end r i lt =
    let at : v + suc i * 4096 ≡ v + 4096 + i * 4096 = omega arith in
    let (table, none) =
      subst (λ (u : ℕ). (w (pde_ptr u) % 2 ≡ 1) × (w (pte_ptr u) % 2 ≡ 0)) at
        (r (suc i) (omega (arith, lt))) in
    let u = v + 4096 + i * 4096 in
    (
      rw (pde_apart v u (omega arith) (omega (arith, lt))) table,
      rw (pte_apart v u (omega arith) (omega (arith, lt)) (λ e. omega (arith, e, al))) none,
    )

-- The first page is translated to its frame, and every other page as before.
first_page :
    (v page o : ℕ) (w : Words)
    → v < 2 ^ 32
    → v % 4096 ≡ 0
    → page < 2 ^ 32
    → page % 4096 ≡ 0
    → o < 4096
    → addr_v2p (store w (pte_ptr v) (entry page)) (v + o) ≡ page + o
unfolding addr_v2p
first_page v page o w hv al hp whole ho =
    let same : pte_ptr v ≡ pte_ptr (v + o) =
      (pte_ptr_lem v (v + o) hv (omega (arith, hv, al, ho))).3.1 (omega (arith, al, ho)) in
    rw ((==_iff (pte_ptr v) (pte_ptr (v + o))).1 same) (omega (arith, hp, whole, ho, al))

other_page :
    (v page u : ℕ) (w : Words)
    → v < 2 ^ 32
    → u < 2 ^ 32
    → u / 4096 ≢ v / 4096
    → addr_v2p (store w (pte_ptr v) (entry page)) u ≡ addr_v2p w u
unfolding addr_v2p
other_page v page u w hv hu ne = rw (pte_apart v u hv hu (λ e. ne (sym e))) refl

-- The entries of the two.
first_entry :
    (v page : ℕ) (w : Words)
    → page % 4096 ≡ 0
    → store w (pte_ptr v) (entry page) (pte_ptr v) ≡ page + 4 + 2 + 1
first_entry v page w whole = rw (==_refl (pte_ptr v)) (omega (arith, whole))

other_entry :
    (v page u : ℕ) (w : Words)
    → v < 2 ^ 32
    → u < 2 ^ 32
    → u / 4096 ≢ v / 4096
    → store w (pte_ptr v) (entry page) (pte_ptr u) ≡ w (pte_ptr u)
other_entry v page u w hv hu ne = rw (pte_apart v u hv hu (λ e. ne (sym e))) refl

module _ (p : Pool) (fits : IsPool p) (aligned : p.phy_addr_start % 4096 ≡ 0)
    (low : 0 < p.phy_addr_start) where
  -- The frames of the first page and of the others.
  pub extend :
      (n v k : ℕ) (s : Memory) (m1 : Mem) (s' : Memory)
      → v % 4096 ≡ 0
      → v + suc n * 4096 ≤ 0xffc00000
      → IsFirstClear s.bytes p.pool_bitmap k
      → ((j : ℕ)
          → bitmap_scan_test m1 p.pool_bitmap j
            ≡ ((j == k) || bitmap_scan_test s.bytes p.pool_bitmap j))
      → HasFrames p n (v + 4096) (added v (p.phy_addr_start + k * 4096) s m1) s'
      → HasFrames p (suc n) v s s'
  extend n v k s m1 s' al end first bits f = record {
    frame = frame;
    inside = inside;
    free = free;
    distinct = distinct;
    taken = taken;
    others = λ j h.
        f.others j (λ i lt. h (suc i) (omega (arith, lt)))
        ∙ ground (arith, bits j, h zero (omega arith));
    mapped = mapped;
    entries = entries;
    rest = λ u hu out.
        f.rest u hu (omega (arith, out))
        ∙ other_entry v page u s.words (omega (arith, end)) hu (λ e. omega (arith, out, e, al));
    kept = λ u hu out.
        f.kept u hu (omega (arith, out))
        ∙ other_page v page u s.words (omega (arith, end)) hu (λ e. omega (arith, out, e, al));
  }
    where
      frame : ℕ → ℕ
      frame zero = k
      frame (suc i) = f.frame i

      page : ℕ
      page = p.phy_addr_start + k * 4096

      ne : (i : ℕ) → i < n → f.frame i ≢ k
      ne i lt = ground (arith, f.free i lt, bits (f.frame i))

      inside : (i : ℕ) → i < suc n → frame i < p.pool_bitmap.btmp_bytes_len * 8
      inside zero lt = first.0
      inside (suc i) lt = f.inside i (omega (arith, lt))

      free : (i : ℕ) → i < suc n → bitmap_scan_test s.bytes p.pool_bitmap (frame i) ≡ false
      free zero lt = first.1
      free (suc i) lt = ground (arith, f.free i (omega (arith, lt)), bits (f.frame i))

      distinct : (i j : ℕ) → i < suc n → j < suc n → frame i ≡ frame j → i ≡ j
      distinct zero zero hi hj e = refl
      distinct zero (suc j) hi hj e = absurd (ne j (omega (arith, hj)) (sym e))
      distinct (suc i) zero hi hj e = absurd (ne i (omega (arith, hi)) e)
      distinct (suc i) (suc j) hi hj e =
          ap suc (f.distinct i j (omega (arith, hi)) (omega (arith, hj)) e)

      taken : (i : ℕ) → i < suc n → bitmap_scan_test s'.bytes p.pool_bitmap (frame i) ≡ true
      taken zero lt = f.others k ne ∙ ground (arith, bits k)
      taken (suc i) lt = f.taken i (omega (arith, lt))

      mapped :
          (i o : ℕ)
          → i < suc n
          → o < 4096
          → addr_v2p s'.words (v + i * 4096 + o) ≡ p.phy_addr_start + frame i * 4096 + o
      mapped zero o lt ho =
          let at : v + 0 * 4096 + o ≡ v + o = omega arith in
          ap (addr_v2p s'.words) at
          ∙ f.kept (v + o) (omega (arith, end, ho)) (inl (omega (arith, ho)))
          ∙ first_page v page o s.words (omega (arith, end)) al (omega (arith, fits, first.0))
              (omega (arith, aligned)) ho
      mapped (suc i) o lt ho =
          let at : v + suc i * 4096 + o ≡ v + 4096 + i * 4096 + o = omega arith in
          ap (addr_v2p s'.words) at ∙ f.mapped i o (omega (arith, lt)) ho

      entries :
          (i : ℕ)
          → i < suc n
          → s'.words (pte_ptr (v + i * 4096)) ≡ p.phy_addr_start + frame i * 4096 + 4 + 2 + 1
      entries zero lt =
          let at : v + 0 * 4096 ≡ v = omega arith in
          ap (λ (u : ℕ). s'.words (pte_ptr u)) at
          ∙ f.rest v (omega (arith, end)) (inl (omega arith))
          ∙ first_entry v page s.words (omega (arith, aligned))
      entries (suc i) lt =
          let at : v + suc i * 4096 ≡ v + 4096 + i * 4096 = omega arith in
          ap (λ (u : ℕ). s'.words (pte_ptr u)) at ∙ f.entries i (omega (arith, lt))

  pub none : (v : ℕ) (s : Memory) → HasFrames p 0 v s s
  none v s = record {
    frame = λ i. 0;
    inside = λ i lt. absurd (omega (arith, lt));
    free = λ i lt. absurd (omega (arith, lt));
    distinct = λ i j hi hj e. absurd (omega (arith, hi));
    taken = λ i lt. absurd (omega (arith, lt));
    others = λ j h. refl;
    mapped = λ i o lt ho. absurd (omega (arith, lt));
    entries = λ i lt. absurd (omega (arith, lt));
    rest = λ u hu out. refl;
    kept = λ u hu out. refl;
  }

  pub one_more :
      (n k : ℕ) (m m1 : Mem)
      → ((j : ℕ)
          → bitmap_scan_test m1 p.pool_bitmap j ≡ ((j == k) || bitmap_scan_test m p.pool_bitmap j))
      → Short n m1 p.pool_bitmap
      → Short (suc n) m p.pool_bitmap
  one_more n k m m1 bits h = record {
    few = suc h.few;
    less = omega (arith, h.less);
    last = last;
    rest = rest;
  }
    where
      last : ℕ → ℕ
      last zero = k
      last (suc i) = h.last i

      rest :
          (j : ℕ)
          → j < p.pool_bitmap.btmp_bytes_len * 8
          → (bitmap_scan_test m p.pool_bitmap j ≡ true) ⊎ ((i : ℕ) × (i < suc h.few) × (j ≡ last i))
      rest j lt = elim (ℕ_discrete j k) [
        | yes e ↦ inr (0, omega arith, e)
        | no ne ↦ elim (h.rest j lt) [
          | inl t ↦ inl (ground (arith, t, bits j, ne))
          | inr (i, few, e) ↦ inr (suc i, omega (arith, few), e)
        ]
      ]
