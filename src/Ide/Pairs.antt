-- ===== src/Ide/Pairs.antt =====
-- `swap_pairs_bytes` of device/ide.c, which puts the text of a disk's words in order. Its index is a
-- `uint8_t`; the loop runs on fuel.
use geniux.Base.{
  ℕ, zero, suc, ◌+◌, ◌-◌, ◌*◌, ◌/◌, ◌%◌, ◌^◌, ◌<◌, ◌≤◌, ◌≡◌, ◌⊎◌, refl, ap, ◌∙◌, ◌==◌, ltb,
  if◌then◌else◌, store, Mem, Outcome, ok, out_of_fuel, arith, Bool-cases, inl, inr, true,
  ℕ_discrete, dec_lt,
}
use geniux.Str.Blocks.{within}

unfoldable pub swap_from : ℕ → Mem → ℕ → ℕ → ℕ → ℕ → Outcome Mem
swap_from zero m dst buf len idx = out_of_fuel
swap_from (suc fuel) m dst buf len idx =
    let m1 = store m (buf + idx + 1) (m dst) in
    let m2 = store m1 (buf + idx) (m1 (dst + 1)) in
    let rest = swap_from fuel m2 (dst + 2) buf len ((idx + 2) % 2 ^ 8) in
    if ltb idx len then rest else ok m

unfoldable pub swap_pairs_bytes : ℕ → Mem → ℕ → ℕ → ℕ → Outcome Mem
swap_pairs_bytes fuel m dst buf len = swap_from fuel m dst buf len 0

-- The place of a byte's partner.
unfoldable pub flip : ℕ → ℕ
flip i = if i % 2 == 0 then i + 1 else i - 1

-- An odd length is rounded up.
abbrev pub even : ℕ → ℕ
even len = (len + 1) / 2 * 2

flip_bound : (len i : ℕ) → i < even len → flip i < even len
unfolding flip
flip_bound len i h = elim (Bool-cases (i % 2 == 0)) [
  | inl e ↦ let z : i % 2 ≡ 0 = ground arith in rw e (omega arith)
  | inr e ↦ rw e (omega arith)
]

flip_even : (i : ℕ) → i % 2 ≡ 0 → flip i ≡ i + 1
unfolding flip
flip_even i h = rw h refl

flip_odd : (i : ℕ) → i % 2 ≡ 1 → flip i ≡ i - 1
unfolding flip
flip_odd i h = rw h refl

-- One round writes one pair.
pair_step :
    (m : Mem) (src buf len idx q : ℕ)
    → idx < len
    → idx % 2 ≡ 0
    → (src + even len ≤ buf) ⊎ (buf + even len ≤ src)
    → let m1 = store m (buf + idx + 1) (m (src + idx)) in
      let m2 = store m1 (buf + idx) (m1 (src + idx + 1)) in
      (if within (buf + (idx + 2)) (even len - (idx + 2)) q
        then m2 (src + flip (q - buf))
        else m2 q)
      ≡ (if within (buf + idx) (even len - idx) q then m (src + flip (q - buf)) else m q)
pair_step m src buf len idx q lt parity apart = elim (dec_lt q (buf + idx)) [
  | yes below ↦ ground arith
  | no at ↦ elim (ℕ_discrete q (buf + idx)) [
    | yes e ↦
        let f : src + flip (q - buf) ≡ src + idx + 1 =
          omega (arith, flip_even (q - buf) (omega arith)) in
        ground (arith, ap m f)
    | no ne ↦ elim (ℕ_discrete q (buf + idx + 1)) [
      | yes e ↦
          let f : src + flip (q - buf) ≡ src + idx =
            omega (arith, flip_odd (q - buf) (omega arith)) in
          ground (arith, ap m f)
      | no ne' ↦ ground (arith, flip_bound len (q - buf))
    ]
  ]
]

swap_step :
    (fuel : ℕ) (m : Mem) (src buf len idx : ℕ)
    → ltb idx len ≡ true
    → len ≤ 254
    → let m1 = store m (buf + idx + 1) (m (src + idx)) in
      let m2 = store m1 (buf + idx) (m1 (src + idx + 1)) in
      swap_from (suc fuel) m (src + idx) buf len idx
      ≡ swap_from fuel m2 (src + (idx + 2)) buf len (idx + 2)
unfolding swap_from
swap_step fuel m src buf len idx more small =
    let m1 = store m (buf + idx + 1) (m (src + idx)) in
    let m2 = store m1 (buf + idx) (m1 (src + idx + 1)) in
    let next : (idx + 2) % 2 ^ 8 ≡ idx + 2 = ground arith in
    let place : src + idx + 2 ≡ src + (idx + 2) = omega arith in
    rw more (
      ap (λ i. swap_from fuel m2 (src + idx + 2) buf len i) next
      ∙ ap (λ d. swap_from fuel m2 d buf len (idx + 2)) place)

swap_from-ok :
    (fuel : ℕ) (m : Mem) (src buf len idx : ℕ)
    → len - idx < fuel
    → idx % 2 ≡ 0
    → idx ≤ even len
    → len ≤ 254
    → (src + even len ≤ buf) ⊎ (buf + even len ≤ src)
    → (m' : Mem) × (swap_from fuel m (src + idx) buf len idx ≡ ok m')
      × ((q : ℕ)
          → m' q
            ≡ (if within (buf + idx) (even len - idx) q then m (src + flip (q - buf)) else m q))
unfolding swap_from
swap_from-ok zero m src buf len idx enough parity le small apart = absurd (omega arith)
swap_from-ok (suc fuel) m src buf len idx enough parity le small apart =
    elim (Bool-cases (ltb idx len)) [
      | inl more ↦
          let lt : idx < len = ground arith in
          let m1 = store m (buf + idx + 1) (m (src + idx)) in
          let m2 = store m1 (buf + idx) (m1 (src + idx + 1)) in
          let (m', run, r) =
            swap_from-ok fuel m2 src buf len (idx + 2) (omega arith) (omega arith) (omega arith)
              small apart in
          (
            m',
            swap_step fuel m src buf len idx more small ∙ run,
            λ q. r q ∙ pair_step m src buf len idx q lt parity apart,
          )
      | inr over ↦ (m, rw over refl, λ q. ground arith)
    ]

endless :
    (fuel : ℕ) (m : Mem) (dst buf len idx : ℕ)
    → 254 < len
    → idx % 2 ≡ 0
    → idx < 256
    → swap_from fuel m dst buf len idx ≡ out_of_fuel
unfolding swap_from
endless zero m dst buf len idx large parity small = refl
endless (suc fuel) m dst buf len idx large parity small =
    let more : ltb idx len ≡ true = ground arith in
    rw more (endless fuel _ (dst + 2) buf len ((idx + 2) % 2 ^ 8) large (omega arith) (omega arith))

-- For at most 254 bytes, between places that do not overlap and with more fuel than bytes, the loop
-- ends: in the buffer the two bytes of each pair have changed places, an odd length being rounded
-- up, and no other byte has changed. For 255 bytes or more the index wraps, and the loop does not end
-- with any fuel.
pub swap_pairs_bytes_lem :
    (fuel : ℕ) (m : Mem) (src buf len : ℕ)
    → len < fuel
    → (src + even len ≤ buf) ⊎ (buf + even len ≤ src)
    → ((len ≤ 254)
        × ((m' : Mem) × (swap_pairs_bytes fuel m src buf len ≡ ok m')
            × ((q : ℕ)
                → m' q ≡ (if within buf (even len) q then m (src + flip (q - buf)) else m q))))
      ⊎ ((254 < len) × (swap_pairs_bytes fuel m src buf len ≡ out_of_fuel))
unfolding swap_pairs_bytes
swap_pairs_bytes_lem fuel m src buf len enough apart = elim (dec_lt 254 len) [
  | no small ↦
      let y : buf + 0 ≡ buf = omega arith in
      let w : even len - 0 ≡ even len = omega arith in
      let (m', run, r) =
        swap_from-ok fuel m src buf len 0 (omega arith) refl (omega arith) (omega arith) apart in
      inl (
        omega arith,
        (m', ap (λ d. swap_from fuel m d buf len 0) (omega arith) ∙ run, λ q. r q ∙ rw (y, w) refl),
      )
  | yes large ↦ inr (large, endless fuel m src buf len 0 large refl (omega arith))
]
