-- ===== src/Paging/Laws.antt =====
-- The page-table addressing of kernel/memory.c: which words it reads and writes.
use geniux.Base.{ℕ, ◌+◌, ◌/◌, ◌%◌, ◌^◌, ◌<◌, ◌≤◌, ◌≡◌, ◌↔◌, arith, store}
use geniux.Paging.{Words, pte_ptr, pde_ptr, addr_v2p, page_table_pte_remove}

-- The entry of a page lies in the last 4 MB, at a multiple of 4, and two addresses have one entry
-- exactly when they lie in one page.
pub pte_ptr_lem :
    (a b : ℕ)
    → a < 2 ^ 32
    → b < 2 ^ 32
    → (0xffc00000 ≤ pte_ptr a)
      × (pte_ptr a < 2 ^ 32)
      × (pte_ptr a % 4 ≡ 0)
      × ((pte_ptr a ≡ pte_ptr b) ↔ (a / 4096 ≡ b / 4096))
unfolding pte_ptr
pte_ptr_lem a b ha hb =
    (omega arith, omega arith, omega arith, (λ e. omega arith, λ e. omega arith))

-- The directory entry is the table entry of the table entry: the directory maps itself.
pub pde_ptr-pte_ptr : (a : ℕ) → a < 2 ^ 32 → pde_ptr a ≡ pte_ptr (pte_ptr a)
unfolding pte_ptr pde_ptr
pde_ptr-pte_ptr a ha = omega arith

-- Once the entry of a page holds a frame with its flags, every address of the page is translated to
-- its place in that frame; and taking the entry's present bit away changes no translation.
pub addr_v2p_lem :
    (w : Words) (page frame flags v : ℕ)
    → page < 2 ^ 32
    → frame < 2 ^ 32
    → frame % 4096 ≡ 0
    → flags < 4096
    → v < 2 ^ 32
    → v / 4096 ≡ page / 4096
    → (addr_v2p (store w (pte_ptr page) (frame + flags)) v ≡ frame + v % 4096)
      × ((u : ℕ) → addr_v2p (page_table_pte_remove w page) u ≡ addr_v2p w u)
unfolding addr_v2p page_table_pte_remove
addr_v2p_lem w page frame flags v hp hf aligned hfl hv same =
    (ground (arith, same_entry), λ u. ground arith)
  where
    same_entry : pte_ptr v ≡ pte_ptr page
    same_entry = (pte_ptr_lem v page hv hp).3.1 same
