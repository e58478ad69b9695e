-- ===== src/Bitmap/Bits.antt =====
-- The bit operations of lib/kernel/bitmap.c on one byte, by tables over all bytes.
use mathlib.Core.Bool.{beq}
use geniux.Base.{
  ℕ, ◌*◌, ◌%◌, ◌^◌, ◌-◌, ◌<◌, ◌≡◌, refl, true, false, Bool, ◌||◌, arith, bit_and, bit_or, ◌==◌,
  ==_iff, check_below, check_below_sound, not, ltb, ◌&&◌,
}
use geniux.Bitmap.{bit_set, skip_set}

beq_sound : (a b : Bool) → beq a b ≡ true → a ≡ b
beq_sound a b h = ground arith

or_table :
    check_below 256 (λ x. check_below 8 (λ k.
      check_below 8 (λ j. beq (bit_set (bit_or x (1 * 2 ^ k) % 256) j) ((j == k) || bit_set x j))))
    ≡ true
unfolding check_below bit_set
or_table = refl

-- `byte |= 1 << k` sets bit `k` and leaves the other seven.
pub bit_set-or :
    (x k j : ℕ)
    → x < 256
    → k < 8
    → j < 8
    → bit_set (bit_or x (1 * 2 ^ k) % 256) j ≡ ((j == k) || bit_set x j)
bit_set-or x k j hx hk hj = beq_sound _ _ (
    check_below_sound 8 _ j (check_below_sound 8 _ k (check_below_sound 256 _ x or_table hx) hk) hj)

and_table :
    check_below 256 (λ x. check_below 8 (λ k. bit_and x (2 ^ 32 - 1 - 0 * 2 ^ k) % 256 == x)) ≡ true
unfolding check_below
and_table = refl

-- `byte &= ~(0 << k)` leaves the byte.
pub and_ones : (x k : ℕ) → x < 256 → k < 8 → bit_and x (2 ^ 32 - 1 - 0 * 2 ^ k) % 256 ≡ x
and_ones x k hx hk =
    (==_iff _ x).0 (check_below_sound 8 _ k (check_below_sound 256 _ x and_table hx) hk)

full_table : check_below 8 (λ k. bit_set 0xff k) ≡ true
unfolding check_below bit_set
full_table = refl

pub bit_set-full : (k : ℕ) → k < 8 → bit_set 0xff k ≡ true
bit_set-full k h = check_below_sound 8 _ k full_table h

zero_table : check_below 8 (λ k. not (bit_set 0 k)) ≡ true
unfolding check_below bit_set
zero_table = refl

pub bit_set-zero : (k : ℕ) → k < 8 → bit_set 0 k ≡ false
bit_set-zero k h = ground (arith, check_below_sound 8 (λ i. not (bit_set 0 i)) k zero_table h)

skip_table :
    check_below 255 (λ x.
      let k = skip_set x 8 0 in (ltb k 8 && not (bit_set x k)) && check_below k (λ j. bit_set x j))
    ≡ true
unfolding check_below bit_set skip_set
skip_table = refl

-- In a byte other than 0xff the second loop of `bitmap_scan` stops at the lowest clear bit.
pub skip_set_lem :
    (x : ℕ)
    → x < 256
    → (0xff == x) ≡ false
    → (skip_set x 8 0 < 8)
      × (bit_set x (skip_set x 8 0) ≡ false)
      × ((j : ℕ) → j < skip_set x 8 0 → bit_set x j ≡ true)
skip_set_lem x hx ne =
    let t = check_below_sound 255 _ x skip_table (ground arith) in
    (
      ground (arith, t),
      ground (arith, t),
      λ j. check_below_sound (skip_set x 8 0) (λ i. bit_set x i) j (ground (arith, t)),
    )
