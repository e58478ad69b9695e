-- ===== src/Alloc/Pages.antt =====
-- kernel/memory.c: `get_kernel_pages` and `get_user_pages`. The caller may use a page in either part
-- of memory, as bytes or as words, so it is cleared in both.
use geniux.Base.{ℕ, ◌*◌, ◌==◌, if◌then◌else◌, Outcome, ok, ◌>>=◌}
use geniux.Str.{memset}
use geniux.Str.Blocks.{within}
use geniux.Paging.{Words}
use geniux.Sync.{try_lock, try_release}
use geniux.Alloc.{Memory, pf_kernel, pf_user, with_lock, malloc_page}

abbrev pub clear_words : Words → ℕ → ℕ → Words
clear_words w vaddr size a = if within vaddr size a then 0 else w a

-- `if (vaddr != NULL) memset(vaddr, 0, pg_cnt*PG_SIZE);`
unfoldable pub clear_pages : ℕ → ℕ → Memory → Outcome Memory
clear_pages vaddr pg_cnt s = if vaddr == 0 then ok s else (do
  bytes ← memset s.bytes vaddr 0 (pg_cnt * 4096)
  ok (record s { bytes = bytes; words = clear_words s.words vaddr (pg_cnt * 4096) }))

unfoldable pub get_kernel_pages : ℕ → Memory → Outcome (ℕ × Memory)
get_kernel_pages pg_cnt s = do
  (vaddr, s1) ← malloc_page pf_kernel pg_cnt s
  s2 ← clear_pages vaddr pg_cnt s1
  ok (vaddr, s2)

-- The lock is free or held by the caller, or the call is blocked.
unfoldable pub get_user_pages : ℕ → ℕ → Memory → Outcome (ℕ × Memory)
get_user_pages running pg_cnt s = do
  l ← try_lock running s.user_pool.lock
  (vaddr, s1) ← malloc_page pf_user pg_cnt (with_lock pf_user l s)
  s2 ← clear_pages vaddr pg_cnt s1
  (woken, l') ← try_release running s2.user_pool.lock
  ok (vaddr, with_lock pf_user l' s2)
