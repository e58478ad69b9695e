-- ===== src/Bitmap/Run.antt =====
-- `bitmap_scan` of lib/kernel/bitmap.c for several bits: the loop that looks for a run.
use geniux.Base.{
  Mem, IsBytes, ap, ◌∙◌, Option-cases, subst, ==_iff, ℕ, zero, suc, ◌+◌, ◌*◌, ◌-◌, ◌≤◌, ◌<◌, ◌≡◌,
  ◌≢◌, ◌⊎◌, refl, true, false, arith, ◌==◌, not, if◌then◌else◌, none, some, ok, Bool-cases, inl,
  inr, dec_lt, ℕ_discrete,
}
use geniux.Bitmap.{Bitmap, bitmap_scan_test, bitmap_scan, scan_run}
use geniux.Bitmap.Scan.{
  IsFirstClear, Skipped, skip_full-Skipped, test-full, first_clear-IsFirstClear, first_clear,
  first_byte, scan-start,
}

module _ (m : Mem) (b : Bitmap) (cnt : ℕ) where
  -- The bits from `n` on, `len` of them, are clear.
  abbrev pub IsClear : ℕ → ℕ → Type 0
  IsClear n len = (j : ℕ) → n ≤ j → j < n + len → bitmap_scan_test m b j ≡ false

  -- The length of the run of clear bits after the bit `next` is read.
  abbrev step : ℕ → ℕ → ℕ
  step count next = if not (bitmap_scan_test m b next) then count + 1 else 0

  scan_run-suc :
      (left count next : ℕ)
      → scan_run m b cnt (suc left) count next ≡ (
          if step count next == cnt
          then some (next + 1 - cnt)
          else scan_run m b cnt left (step count next) (next + 1))
  unfolding scan_run
  scan_run-suc left count next = refl

  scan_run-zero : (count next : ℕ) → scan_run m b cnt zero count next ≡ none
  unfolding scan_run
  scan_run-zero count next = refl

  step-le : (count next : ℕ) → count ≤ next → step count next ≤ next + 1
  step-le count next le = ground arith

  step-IsClear :
      (count next : ℕ)
      → count ≤ next
      → IsClear (next - count) count
      → IsClear (next + 1 - step count next) (step count next)
  step-IsClear count next le clear j lo hi = elim (ℕ_discrete j next) [
    | yes e ↦ ground (arith, e)
    | no ne ↦ ground (arith, clear j)
  ]

  run-IsClear :
      (left count next n : ℕ)
      → count ≤ next
      → IsClear (next - count) count
      → scan_run m b cnt left count next ≡ some n
      → IsClear n cnt × (n + cnt ≤ next + left)
  run-IsClear zero count next n le clear e = cc (scan_run-zero count next)
  run-IsClear (suc left) count next n le clear e = elim (Bool-cases (step count next == cnt)) [
    | inl done ↦
        let c : step count next ≡ cnt = (==_iff _ _).0 done in
        let at : next + 1 - cnt ≡ n = ground (arith, scan_run-suc left count next, e) in
        (
          subst (λ k. IsClear k cnt) at
              (subst (λ k. IsClear (next + 1 - k) k) c (step-IsClear count next le clear)),
          omega (arith, step-le count next le),
        )
    | inr more ↦
        let r =
          run-IsClear left (step count next) (next + 1) n (step-le count next le)
            (step-IsClear count next le clear) (ground (arith, scan_run-suc left count next, e)) in
        (r.0, omega (arith, r.1))
  ]

  none-IsClear :
      (left count next n : ℕ)
      → count < cnt
      → count ≤ next
      → scan_run m b cnt left count next ≡ none
      → next - count ≤ n
      → n + cnt ≤ next + left
      → ¬ IsClear n cnt
  none-IsClear zero count next n lt le e lo hi clear = omega arith
  none-IsClear (suc left) count next n lt le e lo hi clear =
      let eq = scan_run-suc left count next in
      let more : (step count next == cnt) ≡ false = ground (arith, eq, e) in
      none-IsClear left (step count next) (next + 1) n (ground arith) (step-le count next le)
        (ground (arith, eq, e)) (ground (arith, clear next)) (omega arith) clear

  scan-many :
      cnt ≢ 1
      → first_byte m b < b.btmp_bytes_len
      → bitmap_scan m b cnt
        ≡ ok (scan_run m b cnt (b.btmp_bytes_len * 8 - first_clear m b) 1 (first_clear m b + 1))
  scan-many ne lt = ground (arith, scan-start m b cnt lt)

  -- What a call for `cnt` bits gives: a run, or the word that there is none.
  abbrev pub Found : Type 0
  Found =
      ((n : ℕ) × (bitmap_scan m b cnt ≡ ok (some n))
        × IsClear n cnt
        × (n + cnt ≤ b.btmp_bytes_len * 8 + 1))
      ⊎ ((bitmap_scan m b cnt ≡ ok none)
          × ((n : ℕ) → n + cnt ≤ b.btmp_bytes_len * 8 + 1 → ¬ IsClear n cnt))

  found : IsBytes m → 2 ≤ cnt → first_byte m b < b.btmp_bytes_len → Found
  found h two lt = elim (Option-cases (scan_run m b cnt left 1 (start + 1))) [
    | inl e ↦ inr (
      ground (arith, scan-many (omega arith) lt, e),
      λ n hi clear. elim (dec_lt n start) [
        | yes below ↦ ground (arith, first.2 n below, clear n)
        | no above ↦
            none-IsClear left 1 (start + 1) n two (omega arith) e (omega arith)
              (omega (arith, first.0)) clear
      ],
    )
    | inr (n, e) ↦
        let r =
          run-IsClear left 1 (start + 1) n (omega arith) (λ j lo hi. ground (arith, first.1)) e in
        inl (n, ground (arith, scan-many (omega arith) lt, e), r.0, omega (arith, r.1, first.0))
  ]
    where
      start : ℕ
      start = first_clear m b

      left : ℕ
      left = b.btmp_bytes_len * 8 - start

      first : IsFirstClear m b start
      first = first_clear-IsFirstClear m b h lt

  -- `bitmap_scan` for two bits or more, on a memory of bytes where some bit of the bitmap is clear:
  -- it either returns the start of a run of `cnt` clear bits, which ends at most one bit past the
  -- bitmap's last, or it returns -1 and there is no such run.
  pub bitmap_scan-run :
      (i : ℕ)
      → IsBytes m
      → 2 ≤ cnt
      → i < b.btmp_bytes_len * 8
      → bitmap_scan_test m b i ≡ false
      → Found
  bitmap_scan-run i h two lt free = elim (dec_lt (first_byte m b) b.btmp_bytes_len) [
    | yes p ↦ found h two p
    | no p ↦ ground (arith, test-full m b b.btmp_bytes_len i (λ j q. rest.1 j (omega arith)))
  ]
    where
      rest : Skipped m b (first_byte m b)
      rest = skip_full-Skipped m b b.btmp_bytes_len 0 (omega arith) (λ j q. absurd (omega arith))

-- If all bits of a bitmap but the last are set, and the bit behind its last is clear too, then
-- `bitmap_scan` for two bits returns the last bit: the run leaves the bitmap.
pub bitmap_scan-past_end :
    (m : Mem) (b : Bitmap)
    → IsBytes m
    → 0 < b.btmp_bytes_len
    → ((j : ℕ) → j < b.btmp_bytes_len * 8 - 1 → bitmap_scan_test m b j ≡ true)
    → bitmap_scan_test m b (b.btmp_bytes_len * 8 - 1) ≡ false
    → bitmap_scan_test m b (b.btmp_bytes_len * 8) ≡ false
    → bitmap_scan m b 2 ≡ ok (some (b.btmp_bytes_len * 8 - 1))
bitmap_scan-past_end m b h pos full last past =
    elim (bitmap_scan-run m b 2 (end - 1) h (omega arith) (omega arith) last) [
      | inl (n, e, clear, hi) ↦
          let at : n ≡ end - 1 = ground (arith, full n, clear n) in e ∙ ap (λ k. ok (some k)) at
      | inr (e, no_run) ↦ absurd (no_run (end - 1) (omega arith) λ j lo hi. both j (omega arith))
    ]
  where
    end : ℕ
    end = b.btmp_bytes_len * 8

    both : (j : ℕ) → (j ≡ end - 1) ⊎ (j ≡ end) → bitmap_scan_test m b j ≡ false
    both j (inl e) = rw e last
    both j (inr e) = rw e past
