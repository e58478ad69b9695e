-- ===== src/Stdio/Numbers.antt =====
-- The numbers that lib/stdio.c prints, as their digits.
use geniux.Base.{
  ℕ, zero, suc, ◌+◌, ◌-◌, ◌/◌, ◌%◌, ◌^◌, ◌<◌, ◌≤◌, ◌≡◌, ◌⊎◌, inl, inr, refl, ap, ◌∙◌, true, ◌==◌,
  ltb, arith, Mem, store, ok, List, [], ◌∷◌, ◌++◌, length, length-append, Bool-cases, subst,
}
use geniux.Stdio.{itoa, digit_char, put_decimal}
use geniux.Stdio.Digits.{Written, Written-store, Written-snoc, IsBase, fewer_digits}
use geniux.Stdio.Text.{digits, decimal}

-- The text `xs` stands in `m'` from `buf` on; outside, and behind it but for a 0, `m'` is `m`.
pub record Out (m : Mem) (buf : ℕ) (xs : List ℕ) (m' : Mem) : Type 0 where
  pub written : Written m' buf xs
  pub same : (q : ℕ) → (q < buf) ⊎ (buf + length xs < q) → m' q ≡ m q
  pub end : m (buf + length xs) ≡ 0 → m' (buf + length xs) ≡ 0

-- One character more.
pub snoc :
    (m m1 : Mem) (buf c : ℕ) (xs : List ℕ)
    → Written m1 buf xs
    → ((q : ℕ) → (q < buf) ⊎ (buf + length xs ≤ q) → m1 q ≡ m q)
    → Written (store m1 (buf + length xs) c) buf (xs ++ c ∷ [])
      × ((q : ℕ)
          → (q < buf) ⊎ (buf + length (xs ++ c ∷ []) ≤ q)
          → store m1 (buf + length xs) c q ≡ m q)
snoc m m1 buf c xs w same =
    let long : length (xs ++ c ∷ []) ≡ length xs + 1 = length-append xs (c ∷ []) in
    (
      Written-snoc (store m1 (buf + length xs) c) buf c xs
          (Written-store m1 buf (buf + length xs) c xs (omega arith) w) (ground arith),
      λ q out. ground (arith, long, same q),
    )

-- `itoa` writes the characters `xs`, and nothing behind them.
abbrev pub Puts : ℕ → ℕ → Mem → ℕ → ℕ → List ℕ → Type 0
Puts base fuel m value buf xs =
    (m' : Mem) × (itoa fuel m value buf base ≡ ok (m', buf + length xs))
    × Written m' buf xs
    × ((q : ℕ) → (q < buf) ⊎ (buf + length xs ≤ q) → m' q ≡ m q)

last :
    (base fuel : ℕ) (m : Mem) (value buf : ℕ) (m1 : Mem) (xs : List ℕ)
    → itoa (suc fuel) m value buf base
      ≡ ok (store m1 (buf + length xs) (digit_char (value % base)), buf + length xs + 1)
    → Written m1 buf xs
    → ((q : ℕ) → (q < buf) ⊎ (buf + length xs ≤ q) → m1 q ≡ m q)
    → Puts base (suc fuel) m value buf (xs ++ digit_char (value % base) ∷ [])
last base fuel m value buf m1 xs e w same =
    let c = digit_char (value % base) in
    let (written, outside) = snoc m m1 buf c xs w same in
    (
      store m1 (buf + length xs) c,
      e
          ∙ ap (λ (k : ℕ). ok (store m1 (buf + length xs) c, k))
              (omega (arith, length-append xs (c ∷ []))),
      written,
      outside,
    )

one_digit :
    (base fuel : ℕ) (m : Mem) (value buf : ℕ)
    → (value / base == 0) ≡ true
    → Puts base (suc fuel) m value buf (digits (suc fuel) base value)
unfolding itoa digits Written
one_digit base fuel m value buf e =
    let at : buf + 0 ≡ buf = omega arith in
    let single : digit_char (value % base) ∷ [] ≡ digits (suc fuel) base value = rw e refl in
    subst (Puts base (suc fuel) m value buf) single
      (last base fuel m value buf m [] (rw (e, at) refl) tt (λ q out. refl))

-- `itoa` writes the digits of a number in base 10 or 16, when it has fuel for them.
pub itoa-digits :
    (base fuel : ℕ) (m : Mem) (value buf : ℕ)
    → IsBase base
    → value < base ^ suc fuel
    → Puts base (suc fuel) m value buf (digits (suc fuel) base value)
unfolding itoa digits
itoa-digits base zero m value buf b small = elim (Bool-cases (value / base == 0)) [
  | inl e ↦ one_digit base zero m value buf e
  | inr e ↦ absurd (ground (arith, e, fewer_digits base zero value b small))
]
itoa-digits base (suc fuel) m value buf b small = elim (Bool-cases (value / base == 0)) [
  | inl e ↦ one_digit base (suc fuel) m value buf e
  | inr e ↦
      let (m1, ran, w, same) =
        itoa-digits base fuel m (value / base) buf b (fewer_digits base (suc fuel) value b small) in
      subst (Puts base (suc (suc fuel)) m value buf) (rw e refl) (
        last base (suc fuel) m value buf m1 (digits (suc fuel) base (value / base))
          (rw (e, ran) refl) w same)
]

-- What is written with nothing behind it is an `Out`.
pub Puts-Out :
    (m m' : Mem) (buf : ℕ) (xs : List ℕ)
    → Written m' buf xs
    → ((q : ℕ) → (q < buf) ⊎ (buf + length xs ≤ q) → m' q ≡ m q)
    → Out m buf xs m'
Puts-Out m m' buf xs w same = record {
  written = w;
  same = λ q out. same q (omega (arith, out));
  end = λ z. same (buf + length xs) (inr (omega arith)) ∙ z;
}

-- A signed number in decimal.
pub put_decimal-ok :
    (m : Mem) (buf arg : ℕ)
    → arg < 2 ^ 32
    → (m' : Mem) × (put_decimal m buf arg ≡ ok (m', buf + length (decimal arg)))
      × Out m buf (decimal arg) m'
unfolding put_decimal Written
put_decimal-ok m buf arg small = elim (Bool-cases (ltb arg (2 ^ 31))) [
  | inl e ↦
      let (m', ran, w, same) = itoa-digits 10 9 m arg buf (inl refl) (omega (arith, small)) in
      rw e (m', ran, Puts-Out m m' buf (digits 10 10 arg) w same)
  | inr e ↦
      let v = 2 ^ 32 - arg in
      let word : (2 ^ 32 - arg) % 2 ^ 32 ≡ v = ground (arith, e, small) in
      let (m', ran, w, same) =
        itoa-digits 10 9 (store m buf 45) v (buf + 1) (inl refl) (omega arith) in
      rw (e, word)
        (
          m',
          ran ∙ ap (λ (k : ℕ). ok (m', k)) (omega arith),
          Puts-Out m m' buf (45 ∷ digits 10 10 v) (same buf (inl (omega arith)) ∙ ground arith, w)
              (λ q out. same q (omega (arith, out)) ∙ ground (arith, out)),
        )
]
