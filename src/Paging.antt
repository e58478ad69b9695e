-- ===== src/Paging.antt =====
-- The page-table addressing of kernel/memory.c: the recursive mapping through the last entry of the
-- page directory. An address is below 2 ^ 32, so the masks are written by `/` and `%`.
pub mod Laws
mod Examples
use geniux.Base.{ℕ, ◌+◌, ◌-◌, ◌*◌, ◌/◌, ◌%◌, ◌^◌, store}

-- The 32-bit words that stand at the addresses of page tables.
abbrev pub Words : Type 0
Words = ℕ → ℕ

abbrev pub pg_size : ℕ
pg_size = 4096

-- `(addr & 0xffc00000) >> 22` and `(addr & 0x003ff000) >> 12`
abbrev pub pde_idx : ℕ → ℕ
pde_idx addr = addr / 2 ^ 22

abbrev pub pte_idx : ℕ → ℕ
pte_idx addr = addr / 2 ^ 12 % 2 ^ 10

unfoldable pub pte_ptr : ℕ → ℕ
pte_ptr vaddr = (0xffc00000 + vaddr / 2 ^ 22 * 2 ^ 22 / 2 ^ 10 + pte_idx vaddr * 4) % 2 ^ 32

unfoldable pub pde_ptr : ℕ → ℕ
pde_ptr vaddr = (0xfffff000 + pde_idx vaddr * 4) % 2 ^ 32

-- `(*pte & 0xfffff000) + (vaddr & 0x00000fff)`
unfoldable pub addr_v2p : Words → ℕ → ℕ
unfolding pte_ptr
addr_v2p w vaddr = (w (pte_ptr vaddr) / 2 ^ 12 * 2 ^ 12 + vaddr % 2 ^ 12) % 2 ^ 32

-- `*pte &= ~PG_P_1` clears the lowest bit.
unfoldable pub page_table_pte_remove : Words → ℕ → Words
unfolding pte_ptr
page_table_pte_remove w vaddr = let pte = pte_ptr vaddr in store w pte (w pte - w pte % 2)
