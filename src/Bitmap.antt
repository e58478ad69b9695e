-- ===== src/Bitmap.antt =====
-- lib/kernel/bitmap.c: the bitmaps that the page allocator keeps. A bitmap's bytes stand in the
-- machine's memory behind the pointer `bits`, so an index past `btmp_bytes_len` reads and writes
-- what stands there. Bitmaps lie below 2 ^ 32 and hold fewer than 2 ^ 31 bits, so no index wraps.
-- The children: bits within a byte, `bitmap_set`, the two scans.
pub mod Bits
pub mod Set
pub mod Scan
pub mod Run
mod Examples
use geniux.Base.{
  ℕ, zero, suc, ◌+◌, ◌-◌, ◌*◌, ◌/◌, ◌%◌, ◌^◌, ◌<◌, Bool, true, false, not, ◌&&◌, ◌||◌, Option, none,
  some, bit_and, bit_or, ltb, ◌==◌, if◌then◌else◌, store, Outcome, ok, ◌>>=◌, ◌>>◌, assert, Mem,
}
use geniux.Str.{memset}

pub record Bitmap : Type 0 where
  pub btmp_bytes_len : ℕ
  pub bits : ℕ

-- `byte & (BITMAP_MASK << k)`, as a condition.
unfoldable pub bit_set : ℕ → ℕ → Bool
bit_set byte k = not (bit_and byte (2 ^ k) == 0)

unfoldable pub bitmap_scan_test : Mem → Bitmap → ℕ → Bool
bitmap_scan_test m b bit_idx = bit_set (m (b.bits + bit_idx / 8)) (bit_idx % 8)

-- `while ((0xff == bits[i]) && i < len) i++;` in its at most `len - i` rounds.
unfoldable pub skip_full : Mem → Bitmap → ℕ → ℕ → ℕ
skip_full m b zero i = i
skip_full m b (suc left) i =
    let rest = skip_full m b left (i + 1) in
    if (0xff == m (b.bits + i)) && ltb i b.btmp_bytes_len then rest else i

-- `while (byte & (BITMAP_MASK << k)) k++;`: bit 8 of a byte is clear, so `8 - k` rounds are enough.
unfoldable pub skip_set : ℕ → ℕ → ℕ → ℕ
skip_set byte zero k = k
skip_set byte (suc left) k =
    let rest = skip_set byte left (k + 1) in if bit_set byte k then rest else k

-- `while (bits_left--) …`: the run of clear bits is `count` long before `next_bit`.
unfoldable pub scan_run : Mem → Bitmap → ℕ → ℕ → ℕ → ℕ → Option ℕ
scan_run m b cnt zero count next_bit = none
scan_run m b cnt (suc bits_left) count next_bit =
    let count' = if not (bitmap_scan_test m b next_bit) then count + 1 else 0 in
    let rest = scan_run m b cnt bits_left count' (next_bit + 1) in
    if count' == cnt then some (next_bit + 1 - cnt) else rest

-- The index found, or `none` for the -1 of the source.
unfoldable pub bitmap_scan : Mem → Bitmap → ℕ → Outcome (Option ℕ)
bitmap_scan m b cnt = do
  let i = skip_full m b b.btmp_bytes_len 0
  assert (ltb i b.btmp_bytes_len)
  let k = skip_set (m (b.bits + i)) 8 0
  let start = i * 8 + k
  if i == b.btmp_bytes_len
      then ok none
      else if cnt == 1
      then ok (some start)
      else ok (scan_run m b cnt (b.btmp_bytes_len * 8 - start) 1 (start + 1))

-- `bits[i] |= value << k` or `bits[i] &= ~(value << k)`; the result is cut to a `uint8_t`.
unfoldable pub bitmap_set : Mem → Bitmap → ℕ → ℕ → Outcome Mem
bitmap_set m b bit_idx value = do
  assert ((value == 0) || (value == 1))
  let a = b.bits + bit_idx / 8
  let k = bit_idx % 8
  if not (value == 0)
      then ok (store m a (bit_or (m a) (value * 2 ^ k) % 256))
      else ok (store m a (bit_and (m a) (2 ^ 32 - 1 - value * 2 ^ k) % 256))

pub bitmap_init : Mem → Bitmap → Outcome Mem
bitmap_init m b = memset m b.bits 0 b.btmp_bytes_len
