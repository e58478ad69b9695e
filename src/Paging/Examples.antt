-- ===== src/Paging/Examples.antt =====
-- A test: the entry of the page at 0xc0100000, where the kernel's heap starts.
use geniux.Base.{◌≡◌, refl}
use geniux.Paging.{pte_ptr}

heap_entry : pte_ptr 0xc0100000 ≡ 0xfff00400
unfolding pte_ptr
heap_entry = refl
