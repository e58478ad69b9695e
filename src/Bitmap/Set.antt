-- ===== src/Bitmap/Set.antt =====
-- What `bitmap_set` and `bitmap_init` of lib/kernel/bitmap.c do to the bits.
use geniux.Base.{
  Mem, IsBytes, ap, ℕ, ◌+◌, ◌*◌, ◌/◌, ◌%◌, ◌^◌, ◌<◌, ◌≡◌, ◌≢◌, refl, false, ◌||◌, arith, bit_or,
  ◌==◌, store, ok, panic, fun_ext, Bool-cases, inl, inr,
}
use geniux.Bitmap.{bit_set, Bitmap, bitmap_scan_test, bitmap_set, bitmap_init}
use geniux.Str.Blocks.{within, memset_lem}
use geniux.Bitmap.Bits.{bit_set-zero, bit_set-or, and_ones}

abbrev pub set_byte : Mem → Bitmap → ℕ → Mem
set_byte m b i = store m (b.bits + i / 8) (bit_or (m (b.bits + i / 8)) (1 * 2 ^ (i % 8)) % 256)

store-IsBytes : (m : Mem) (a v : ℕ) → IsBytes m → v < 256 → IsBytes (store m a v)
store-IsBytes m a v h hv q = ground (arith, h q)

test-set_byte :
    (m : Mem) (b : Bitmap) (i j : ℕ)
    → IsBytes m
    → bitmap_scan_test (set_byte m b i) b j ≡ ((j == i) || bitmap_scan_test m b j)
unfolding bitmap_scan_test
test-set_byte m b i j h = elim (Bool-cases (b.bits + i / 8 == b.bits + j / 8)) [
  | inl e ↦ ground (arith, bit_set-or (m (b.bits + i / 8)) (i % 8) (j % 8), h (b.bits + i / 8))
  | inr e ↦ ground arith
]

-- On a memory of bytes `bitmap_set` with value 1 succeeds: it sets exactly the bit asked for,
-- leaves every other bit of the bitmap, and writes at no other address than that bit's byte.
pub bitmap_set-one :
    (m : Mem) (b : Bitmap) (i : ℕ)
    → IsBytes m
    → (m' : Mem) × (bitmap_set m b i 1 ≡ ok m')
      × IsBytes m'
      × ((j : ℕ) → bitmap_scan_test m' b j ≡ ((j == i) || bitmap_scan_test m b j))
      × ((a : ℕ) → a ≢ b.bits + i / 8 → m' a ≡ m a)
unfolding bitmap_set
bitmap_set-one m b i h = (
  set_byte m b i,
  refl,
  store-IsBytes m _ _ h (omega arith),
  (λ j. test-set_byte m b i j h),
  λ a ne. ground arith,
)

-- On a memory of bytes `bitmap_set` with value 0 changes nothing at all: no bit is ever cleared.
pub bitmap_set-zero : (m : Mem) (b : Bitmap) (i : ℕ) → IsBytes m → bitmap_set m b i 0 ≡ ok m
unfolding bitmap_set
bitmap_set-zero m b i h =
    let a = b.bits + i / 8 in ap ok (fun_ext λ q. ground (arith, and_ones (m a) (i % 8), h a))

-- Any other value fails the ASSERT.
pub bitmap_set-panic : (m : Mem) (b : Bitmap) (i v : ℕ) → 1 < v → bitmap_set m b i v ≡ panic
unfolding bitmap_set
bitmap_set-panic m b i v h = ground arith

-- `bitmap_init` on a bitmap whose bytes do not stand at NULL succeeds: every bit of the bitmap is
-- clear after it, and no other byte has changed.
pub bitmap_init_lem :
    (m : Mem) (b : Bitmap)
    → b.bits ≢ 0
    → (m' : Mem) × (bitmap_init m b ≡ ok m')
      × ((j : ℕ) → j < b.btmp_bytes_len * 8 → bitmap_scan_test m' b j ≡ false)
      × ((q : ℕ) → within b.bits b.btmp_bytes_len q ≡ false → m' q ≡ m q)
unfolding bitmap_init bitmap_scan_test
bitmap_init_lem m b ne =
    let r = memset_lem m b.bits 0 b.btmp_bytes_len ne in
    (
      r.0,
      r.1,
      λ j lt. ground (arith, r.2 (b.bits + j / 8), bit_set-zero (j % 8)),
      λ q out. ground (arith, r.2 q),
    )

-- A bit is read from its own byte alone.
pub test-same :
    (m m' : Mem) (b : Bitmap) (j : ℕ)
    → m' (b.bits + j / 8) ≡ m (b.bits + j / 8)
    → bitmap_scan_test m' b j ≡ bitmap_scan_test m b j
unfolding bitmap_scan_test
test-same m m' b j e = ap (λ x. bit_set x (j % 8)) e
