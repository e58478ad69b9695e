-- ===== src/Str/Blocks.antt =====
-- memset, memcpy and memcmp of lib/string.c.
use geniux.Base.{
  Bool, sym, ◌∙◌, negsuc, ap, ℕ, zero, suc, ◌+◌, ◌-◌, ◌≤◌, ◌<◌, ◌≡◌, ◌≢◌, ◌⊎◌, refl, ◌&&◌, arith,
  ltb, leb, if◌then◌else◌, store, ok, Mem, ℤ, pos, IsBytes, ◌↔◌,
}
use geniux.Str.{fill, memset, copy, memcpy, compare_bytes, memcmp, char_lt}

-- Whether `q` is one of the `size` addresses from `p` on.
abbrev pub within : ℕ → ℕ → ℕ → Bool
within p size q = leb p q && ltb q (p + size)

pub fill-at :
    (m : Mem) (dst value size q : ℕ)
    → fill m dst value size q ≡ (if within dst size q then value else m q)
unfolding fill
fill-at m dst value zero q = ground arith
fill-at m dst value (suc size) q =
    ground (arith, fill-at (store m dst value) (dst + 1) value size q)

-- `memset` at a pointer other than NULL succeeds: the `size` bytes from `dst` on are `value`, and
-- every other byte is as before.
pub memset_lem :
    (m : Mem) (dst value size : ℕ)
    → dst ≢ 0
    → (m' : Mem) × (memset m dst value size ≡ ok m')
      × ((q : ℕ) → m' q ≡ (if within dst size q then value else m q))
unfolding memset
memset_lem m dst value size ne = (fill m dst value size, ground arith, fill-at m dst value size)

next_offset : (src dst q : ℕ) → dst < q → src + 1 + (q - (dst + 1)) ≡ src + (q - dst)
next_offset src dst q h = omega arith

copy-at :
    (m : Mem) (dst src size q : ℕ)
    → (dst ≤ src) ⊎ (src + size ≤ dst)
    → copy m dst src size q ≡ (if within dst size q then m (src + (q - dst)) else m q)
unfolding copy
copy-at m dst src zero q apart = ground arith
copy-at m dst src (suc size) q apart = ground (
  arith,
  copy-at (store m dst (m src)) (dst + 1) (src + 1) size q,
  λ (h : dst < q). ap m (next_offset src dst q h),
)

-- `memcpy` between pointers other than NULL, where the destination does not start inside the source
-- behind its first byte: the `size` bytes from `dst` on are those from `src` on as they were, and
-- every other byte is as before.
pub memcpy_lem :
    (m : Mem) (dst src size : ℕ)
    → dst ≢ 0
    → src ≢ 0
    → (dst ≤ src) ⊎ (src + size ≤ dst)
    → (m' : Mem) × (memcpy m dst src size ≡ ok m')
      × ((q : ℕ) → m' q ≡ (if within dst size q then m (src + (q - dst)) else m q))
unfolding memcpy
memcpy_lem m dst src size hd hs apart =
    (copy m dst src size, ground arith, λ q. copy-at m dst src size q apart)

next_index : (a i : ℕ) → a + 1 + i ≡ a + suc i
next_index a i = omega arith

add_zero : (a : ℕ) → a + 0 ≡ a
add_zero a = omega arith

module _ (m : Mem) (h : IsBytes m) where
  same-compare :
      (a b size : ℕ)
      → ((i : ℕ) → i < size → m (a + i) ≡ m (b + i))
      → compare_bytes m a b size ≡ pos 0
  unfolding compare_bytes
  same-compare a b zero same = refl
  same-compare a b (suc size) same =
      ground (arith, same 0, same-compare (a + 1) (b + 1) size (λ i lt. shifted i lt))
    where
      shifted : (i : ℕ) → i < size → m (a + 1 + i) ≡ m (b + 1 + i)
      shifted i lt = ground (arith, same (suc i))

  compare-same :
      (a b size : ℕ) → compare_bytes m a b size ≡ pos 0 → (i : ℕ) → i < size → m (a + i) ≡ m (b + i)
  unfolding compare_bytes
  compare-same a b zero e i lt = absurd (omega arith)
  compare-same a b (suc size) e zero lt = ground (arith, h a, h b)
  compare-same a b (suc size) e (suc i) lt = ground (
    arith,
    compare-same (a + 1) (b + 1) size (ground (arith, h a, h b)) i (omega arith),
    ap m (next_index a i),
    ap m (next_index b i),
  )

  -- What the first difference decides.
  abbrev pub sign : ℕ → ℕ → ℤ
  sign x y = if char_lt x y then negsuc 0 else pos 1

  compare-differ :
      (a b size i : ℕ)
      → i < size
      → ((j : ℕ) → j < i → m (a + j) ≡ m (b + j))
      → m (a + i) ≢ m (b + i)
      → compare_bytes m a b size ≡ sign (m (a + i)) (m (b + i))
  unfolding compare_bytes
  compare-differ a b zero i lt same ne = absurd (omega arith)
  compare-differ a b (suc size) zero lt same ne =
      ground (arith, h a, h b, ap m (add_zero a), ap m (add_zero b))
  compare-differ a b (suc size) (suc i) lt same ne = ground (
    arith,
    h a,
    h b,
    same 0,
    ap m (add_zero a),
    ap m (add_zero b),
    ap m (next_index a i),
    ap m (next_index b i),
    compare-differ (a + 1) (b + 1) size i (omega arith)
        (λ j lj. ap m (next_index a j) ∙ same (suc j) (omega arith) ∙ sym (ap m (next_index b j)))
        (λ e. ne (sym (ap m (next_index a i)) ∙ e ∙ ap m (next_index b i))),
  )

  -- `memcmp` on a memory of bytes returns 0 exactly when the two blocks hold the same bytes.
  pub memcmp-zero :
      (a b size : ℕ)
      → a ≢ 0
      → (memcmp m a b size ≡ ok (pos 0)) ↔ ((i : ℕ) → i < size → m (a + i) ≡ m (b + i))
  unfolding memcmp
  memcmp-zero a b size ne = (
    λ e. compare-same a b size (ground arith),
    λ same. ground (arith, same-compare a b size same),
  )

  -- Where two blocks differ first at `i`, `memcmp` on a memory of bytes returns -1 or 1 as the `char`
  -- there is less or greater.
  pub memcmp-differ :
      (a b size i : ℕ)
      → a ≢ 0
      → i < size
      → ((j : ℕ) → j < i → m (a + j) ≡ m (b + j))
      → m (a + i) ≢ m (b + i)
      → memcmp m a b size ≡ ok (sign (m (a + i)) (m (b + i)))
  unfolding memcmp
  memcmp-differ a b size i ne lt same differ =
      ground (arith, compare-differ a b size i lt same differ)
