-- ===== src/Bitmap/Scan.antt =====
-- `bitmap_scan` of lib/kernel/bitmap.c for one bit: the byte loop, the bit loop, and what `palloc`
-- relies on.
use geniux.Base.{
  Mem, IsBytes, dec_lt, ◌∙◌, ◌-◌, if◌then◌else◌, ℕ, zero, suc, ◌+◌, ◌*◌, ◌/◌, ◌%◌, ◌≤◌, ◌<◌, ◌≡◌,
  ◌⊎◌, refl, subst, sym, true, false, arith, ◌==◌, lt→ltb, ok, panic, some, Bool-cases, inl, inr,
}
use geniux.Bitmap.{Bitmap, bit_set, bitmap_scan_test, bitmap_scan, skip_full, skip_set, scan_run}
use geniux.Bitmap.Bits.{bit_set-full, skip_set_lem}

module _ (m : Mem) (b : Bitmap) where
  -- The byte loop may stop at `r`: at the length or at a byte other than 0xff, and every byte
  -- before is 0xff.
  abbrev pub Skipped : ℕ → Type 0
  Skipped r =
      (r ≤ b.btmp_bytes_len)
      × ((j : ℕ) → j < r → m (b.bits + j) ≡ 255)
      × (r < b.btmp_bytes_len → (0xff == m (b.bits + r)) ≡ false)

  skip_full-next :
      (left i : ℕ)
      → (0xff == m (b.bits + i)) ≡ true
      → i < b.btmp_bytes_len
      → skip_full m b (suc left) i ≡ skip_full m b left (i + 1)
  unfolding skip_full
  skip_full-next left i full lt = rw (full, lt→ltb i b.btmp_bytes_len lt)

  skip_full-stop : (left i : ℕ) → (0xff == m (b.bits + i)) ≡ false → skip_full m b (suc left) i ≡ i
  unfolding skip_full
  skip_full-stop left i free = rw free

  skip_full-zero : (i : ℕ) → skip_full m b zero i ≡ i
  unfolding skip_full
  skip_full-zero i = refl

  pub skip_full-Skipped :
      (left i : ℕ)
      → i + left ≡ b.btmp_bytes_len
      → ((j : ℕ) → j < i → m (b.bits + j) ≡ 255)
      → Skipped (skip_full m b left i)
  skip_full-Skipped zero i e before =
      subst Skipped (sym (skip_full-zero i)) (omega arith, before, λ lt. absurd (omega arith))
  skip_full-Skipped (suc left) i e before = elim (Bool-cases (0xff == m (b.bits + i))) [
    | inl full ↦
        subst Skipped (sym (skip_full-next left i full (omega arith)))
          (skip_full-Skipped left (i + 1) (omega arith) (λ j lt. ground (arith, before j)))
    | inr free ↦ subst Skipped (sym (skip_full-stop left i free)) (omega arith, before, λ _. free)
  ]

  -- The clear bit `n` is the first of the bitmap.
  abbrev pub IsFirstClear : ℕ → Type 0
  IsFirstClear n =
      (n < b.btmp_bytes_len * 8)
      × (bitmap_scan_test m b n ≡ false)
      × ((j : ℕ) → j < n → bitmap_scan_test m b j ≡ true)

  -- Where the two loops of `bitmap_scan` come to rest.
  abbrev pub first_byte : ℕ
  first_byte = skip_full m b b.btmp_bytes_len 0

  abbrev pub first_clear : ℕ
  first_clear = first_byte * 8 + skip_set (m (b.bits + first_byte)) 8 0

  -- A bit of a 0xff byte is set.
  pub test-full :
      (r j : ℕ)
      → ((i : ℕ) → i < r → m (b.bits + i) ≡ 255)
      → j / 8 < r
      → bitmap_scan_test m b j ≡ true
  unfolding bitmap_scan_test
  test-full r j full lt = rw (full (j / 8) lt) (bit_set-full (j % 8) (omega arith))

  pub test-at : (r k : ℕ) → k < 8 → bitmap_scan_test m b (r * 8 + k) ≡ bit_set (m (b.bits + r)) k
  unfolding bitmap_scan_test
  test-at r k h =
      let byte : (r * 8 + k) / 8 ≡ r = omega arith in
      let bit : (r * 8 + k) % 8 ≡ k = omega arith in rw (byte, bit)

  pub first_clear-IsFirstClear :
      IsBytes m → first_byte < b.btmp_bytes_len → IsFirstClear first_clear
  first_clear-IsFirstClear h lt = (omega (arith, low), test-at first_byte k low ∙ bit.1, before)
    where
      k : ℕ
      k = skip_set (m (b.bits + first_byte)) 8 0

      rest : Skipped first_byte
      rest = skip_full-Skipped b.btmp_bytes_len 0 (omega arith) (λ j le. absurd (omega arith))

      bit :
          (k < 8)
          × (bit_set (m (b.bits + first_byte)) k ≡ false)
          × ((j : ℕ) → j < k → bit_set (m (b.bits + first_byte)) j ≡ true)
      bit = skip_set_lem (m (b.bits + first_byte)) (h (b.bits + first_byte)) (rest.2 lt)

      low : k < 8
      low = bit.0

      before : (j : ℕ) → j < first_clear → bitmap_scan_test m b j ≡ true
      before j lt' = elim (dec_lt (j / 8) first_byte) [
        | yes p ↦ test-full first_byte j rest.1 p
        | no p ↦
            let e : j ≡ first_byte * 8 + (j - first_byte * 8) = omega arith in
            rw e (
              test-at first_byte (j - first_byte * 8) (omega (arith, low))
              ∙ bit.2 (j - first_byte * 8) (omega (arith, low)))
      ]

  -- If every byte is 0xff, the ASSERT of `bitmap_scan` fails whatever is asked for.
  scan-full : (cnt : ℕ) → first_byte ≡ b.btmp_bytes_len → bitmap_scan m b cnt ≡ panic
  unfolding bitmap_scan
  scan-full cnt e = ground (arith, e)

  -- Otherwise the two loops give the start.
  pub scan-start :
      (cnt : ℕ)
      → first_byte < b.btmp_bytes_len
      → bitmap_scan m b cnt ≡ (
          if cnt == 1
          then ok (some first_clear)
          else ok (scan_run m b cnt (b.btmp_bytes_len * 8 - first_clear) 1 (first_clear + 1)))
  unfolding bitmap_scan
  scan-start cnt lt = ground arith

  -- `bitmap_scan` for one bit, on a memory of bytes: either every bit of the bitmap is set, and the
  -- call panics; or it returns the index of the first clear bit.
  pub bitmap_scan-one :
      IsBytes m
      → ((bitmap_scan m b 1 ≡ panic)
          × ((j : ℕ) → j < b.btmp_bytes_len * 8 → bitmap_scan_test m b j ≡ true))
        ⊎ ((n : ℕ) × (bitmap_scan m b 1 ≡ ok (some n)) × IsFirstClear n)
  bitmap_scan-one h = elim (dec_lt first_byte b.btmp_bytes_len) [
    | yes lt ↦ inr (first_clear, scan-start 1 lt, first_clear-IsFirstClear h lt)
    | no ge ↦
        inl
          (scan-full 1 (omega (arith, rest.0)), λ j lt. test-full first_byte j rest.1 (omega arith))
  ]
    where
      rest : Skipped first_byte
      rest = skip_full-Skipped b.btmp_bytes_len 0 (omega arith) (λ j le. absurd (omega arith))
