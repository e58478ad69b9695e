-- ===== src/Process/Directory.antt =====
-- The page directory that userprog/process.c gives a new process.
use geniux.Base.{
  ℕ, zero, suc, ◌+◌, ◌-◌, ◌*◌, ◌/◌, ◌%◌, ◌^◌, ◌<◌, ◌≤◌, ◌≡◌, ◌≢◌, ◌⊎◌, inl, refl, ap, sym, ◌∙◌,
  ◌==◌, true, false, store, ok, arith, ==_ne, subst,
}
use geniux.Str.Blocks.{within, memset_lem}
use geniux.Paging.{Words, addr_v2p, pte_ptr}
use geniux.Alloc.{Memory, pf_kernel, malloc_page, entry}
use geniux.Alloc.Pages.{get_kernel_pages, clear_pages, clear_words}
use geniux.Process.{copy_words, create_page_dir}

-- Words outside the destination are kept.
copy_words-before :
    (left dst src a : ℕ) (w : Words)
    → (a < dst) ⊎ (dst + 4 * left ≤ a)
    → copy_words left dst src w a ≡ w a
unfolding copy_words
copy_words-before zero dst src a w apart = refl
copy_words-before (suc left) dst src a w apart =
    copy_words-before left (dst + 4) (src + 4) a (store w dst (w src)) (ground arith) ∙ ground arith

four : (a k : ℕ) → a + 4 + 4 * k ≡ a + 4 * suc k
four a k = omega arith

-- Apart from the source, the destination holds the source's words.
copy_words-at :
    (left dst src k : ℕ) (w : Words)
    → dst + 4 * left ≤ src
    → k < left
    → copy_words left dst src w (dst + 4 * k) ≡ w (src + 4 * k)
unfolding copy_words
copy_words-at zero dst src k w apart h = absurd (omega (arith, h))
copy_words-at (suc left) dst src zero w apart h =
    copy_words-before left (dst + 4) (src + 4) (dst + 4 * 0) (store w dst (w src))
      (inl (omega arith))
    ∙ ground arith
copy_words-at (suc left) dst src (suc k) w apart h =
    let other : (dst == src + 4 * suc k) ≡ false =
      ==_ne dst (src + 4 * suc k) (λ e. omega (arith, apart, e)) in
    ap (copy_words left (dst + 4) (src + 4) (store w dst (w src))) (sym (four dst k))
    ∙ copy_words-at left (dst + 4) (src + 4) k (store w dst (w src)) (omega arith)
        (omega (arith, h))
    ∙ ap (store w dst (w src)) (four src k)
    ∙ rw other refl

-- A page that was found is cleared.
get_kernel_pages-ok :
    (s s1 : Memory) (page : ℕ)
    → malloc_page pf_kernel 1 s ≡ ok (page, s1)
    → page ≢ 0
    → (bytes : ℕ → ℕ) × (get_kernel_pages 1 s
        ≡ ok (page, record s1 { bytes = bytes; words = clear_words s1.words page 4096 }))
unfolding get_kernel_pages clear_pages
get_kernel_pages-ok s s1 page e live =
    let (bytes, run, set) = memset_lem s1.bytes page 0 4096 live in
    (bytes, rw (e, ==_ne page 0 live, run) refl)

-- A kernel thread's page for a directory, below the window of the page tables.
pub record IsFresh (page : ℕ) : Type 0 where
  pub live : page ≢ 0
  pub below : page + 4096 ≤ 0xffc00000

-- The entry of the running directory that stands in the window of the page tables.
abbrev pub running_entry : Words → ℕ → ℕ
running_entry w i = w (0xfffff000 + 4 * i)

-- The words after the copy.
abbrev copied : Words → ℕ → Words
copied w page = copy_words 256 (page + 0x300 * 4) (0xfffff000 + 0x300 * 4) (clear_words w page 4096)

copied-apart : (w : Words) (page a : ℕ) → within page 4096 a ≡ false → copied w page a ≡ w a
copied-apart w page a out =
    copy_words-before 256 (page + 0x300 * 4) (0xfffff000 + 0x300 * 4) a (clear_words w page 4096)
      (ground arith)
    ∙ rw out refl

-- The window of the page tables lies above the directory.
pte_ptr-above : (page : ℕ) → page + 4096 ≤ 0xffc00000 → within page 4096 (pte_ptr page) ≡ false
unfolding pte_ptr
pte_ptr-above page below = ground arith

copied-user : (w : Words) (page i : ℕ) → i < 768 → copied w page (page + 4 * i) ≡ 0
copied-user w page i h =
    let inside : within page 4096 (page + 4 * i) ≡ true = ground arith in
    copy_words-before 256 (page + 0x300 * 4) (0xfffff000 + 0x300 * 4) (page + 4 * i)
      (clear_words w page 4096) (inl (omega (arith, h)))
    ∙ rw inside refl

copied-kernel :
    (w : Words) (page k : ℕ)
    → page + 4096 ≤ 0xffc00000
    → k < 256
    → copied w page (page + 4 * (768 + k)) ≡ running_entry w (768 + k)
copied-kernel w page k below h =
    let place : page + 4 * (768 + k) ≡ page + 0x300 * 4 + 4 * k = omega arith in
    let source : 0xfffff000 + 4 * (768 + k) ≡ 0xfffff000 + 0x300 * 4 + 4 * k = omega arith in
    let outside : within page 4096 (0xfffff000 + 0x300 * 4 + 4 * k) ≡ false = ground arith in
    ap (copied w page) place
    ∙ copy_words-at 256 (page + 0x300 * 4) (0xfffff000 + 0x300 * 4) k (clear_words w page 4096)
        (omega arith) h
    ∙ (rw outside refl)
    ∙ ap w (sym source)

addr_v2p-copied :
    (w : Words) (page : ℕ)
    → page + 4096 ≤ 0xffc00000
    → addr_v2p (copied w page) page ≡ addr_v2p w page
unfolding addr_v2p
addr_v2p-copied w page below =
    ap (λ (e : ℕ). (e / 2 ^ 12 * 2 ^ 12 + page % 2 ^ 12) % 2 ^ 32)
      (copied-apart w page (pte_ptr page) (pte_ptr-above page below))

not_last :
    (page i x : ℕ) (w : Words)
    → i < 1023
    → store w (page + 1023 * 4) x (page + 4 * i) ≡ w (page + 4 * i)
not_last page i x w h = ground arith

-- When the kernel's heap has a page, below the window of the page tables, `create_page_dir` makes a
-- directory of it: the entries of the user's 3 GB are empty, those of the kernel's last GB are the
-- running directory's, so that every process has the kernel in its upper quarter, but the last
-- entry maps the directory itself, and no word outside the page changes.
pub create_page_dir_lem :
    (s s1 : Memory) (page : ℕ)
    → malloc_page pf_kernel 1 s ≡ ok (page, s1)
    → IsFresh page
    → (s' : Memory) × (create_page_dir s ≡ ok (page, s'))
      × ((i : ℕ) → i < 768 → s'.words (page + 4 * i) ≡ 0)
      × ((i : ℕ) → 768 ≤ i → i < 1023 → s'.words (page + 4 * i) ≡ running_entry s1.words i)
      × (s'.words (page + 4 * 1023) ≡ entry (addr_v2p s1.words page))
      × ((a : ℕ) → within page 4096 a ≡ false → s'.words a ≡ s1.words a)
unfolding create_page_dir
create_page_dir_lem s s1 page e fresh =
    let (bytes, run) = get_kernel_pages-ok s s1 page e fresh.live in
    let w = copied s1.words page in
    let last = entry (addr_v2p w page) in
    (
      record s1 { bytes = bytes; words = store w (page + 1023 * 4) last },
      rw (run, ==_ne page 0 fresh.live) refl,
      λ i h. not_last page i last w (omega (arith, h)) ∙ copied-user s1.words page i h,
      λ i low high.
          not_last page i last w high
          ∙ subst (λ (n : ℕ). w (page + 4 * n) ≡ running_entry s1.words n) (omega (arith, low))
              (copied-kernel s1.words page (i - 768) fresh.below (omega (arith, low, high))),
      ground (arith, ap entry (addr_v2p-copied s1.words page fresh.below)),
      λ a out. ground (arith, out) ∙ copied-apart s1.words page a out,
    )
