-- ===== src/Stdio/Digits.antt =====
-- What `itoa` of lib/stdio.c writes.
use geniux.Base.{
  ℕ, zero, suc, ◌+◌, ◌-◌, ◌*◌, ◌/◌, ◌%◌, ◌^◌, ◌<◌, ◌≤◌, ◌≡◌, ◌⊎◌, inl, inr, refl, ap, ◌∙◌, true,
  false, ◌==◌, ltb, if◌then◌else◌, arith, Mem, store, ok, List, [], ◌∷◌, ◌++◌, length,
  length-append, Bool-cases, subst,
}
use geniux.Stdio.{itoa, digit_char}
use geniux.Str.Blocks.{within}

-- The characters stand at `p`, one behind the other.
unfoldable pub Written : Mem → ℕ → List ℕ → Type 0
Written m p [] = Unit
Written m p (x ∷ xs) = (m p ≡ x) × Written m (p + 1) xs

pub Written-store :
    (m : Mem) (p q v : ℕ) (xs : List ℕ)
    → p + length xs ≤ q
    → Written m p xs
    → Written (store m q v) p xs
unfolding Written
Written-store m p q v [] h w = tt
Written-store m p q v (x ∷ xs) h w =
    (ground (arith, w.0), Written-store m (p + 1) q v xs (omega arith) w.1)

pub Written-snoc :
    (m : Mem) (p v : ℕ) (xs : List ℕ)
    → Written m p xs
    → m (p + length xs) ≡ v
    → Written m p (xs ++ v ∷ [])
unfolding Written
Written-snoc m p v [] w e = (ap m (omega arith) ∙ e, tt)
Written-snoc m p v (x ∷ xs) w e = (w.0, Written-snoc m (p + 1) v xs w.1 (ap m (omega arith) ∙ e))

-- The number that characters denote, the most significant first, behind `acc`.
abbrev pub digit_value : ℕ → ℕ
digit_value c = if ltb c 58 then c - 48 else c - 55

unfoldable pub decode : ℕ → ℕ → List ℕ → ℕ
decode base acc [] = acc
decode base acc (c ∷ cs) = decode base (acc * base + digit_value c) cs

decode-snoc :
    (base acc c : ℕ) (xs : List ℕ)
    → decode base acc (xs ++ c ∷ []) ≡ decode base acc xs * base + digit_value c
unfolding decode
decode-snoc base acc c [] = refl
decode-snoc base acc c (x ∷ xs) = decode-snoc base (acc * base + digit_value x) c xs

-- `itoa` of a number of at most `fuel` digits.
abbrev pub Prints : ℕ → ℕ → Mem → ℕ → ℕ → Type 0
Prints base fuel m value buf =
    (m' : Mem) × (xs : List ℕ) × (itoa fuel m value buf base ≡ ok (m', buf + length xs))
    × Written m' buf xs
    × (decode base 0 xs ≡ value)
    × (0 < length xs)
    × (length xs ≤ fuel)
    × ((q : ℕ) → within buf (length xs) q ≡ false → m' q ≡ m q)

digit_value-char : (d : ℕ) → d < 16 → digit_value (digit_char d) ≡ d
digit_value-char d h = ground arith

-- The base is one that `vsprintf` uses.
abbrev pub IsBase : ℕ → Type 0
IsBase base = (base ≡ 10) ⊎ (base ≡ 16)

last_digit :
    (base value : ℕ)
    → IsBase base
    → value / base * base + digit_value (digit_char (value % base)) ≡ value
last_digit base value (inl e) =
    rw e (ap (λ d. value / 10 * 10 + d) (digit_value-char (value % 10) (omega arith)) ∙ omega arith)
last_digit base value (inr e) =
    rw e (ap (λ d. value / 16 * 16 + d) (digit_value-char (value % 16) (omega arith)) ∙ omega arith)

-- The last digit goes behind the others.
extend :
    (base fuel : ℕ) (m : Mem) (value buf : ℕ) (m1 : Mem) (xs : List ℕ)
    → IsBase base
    → itoa (suc fuel) m value buf base
      ≡ ok (store m1 (buf + length xs) (digit_char (value % base)), buf + length xs + 1)
    → Written m1 buf xs
    → decode base 0 xs ≡ value / base
    → length xs ≤ fuel
    → ((q : ℕ) → within buf (length xs) q ≡ false → m1 q ≡ m q)
    → Prints base (suc fuel) m value buf
extend base fuel m value buf m1 xs b e w d le same =
    let c = digit_char (value % base) in
    let long : length (xs ++ c ∷ []) ≡ length xs + 1 = length-append xs (c ∷ []) in
    (
      store m1 (buf + length xs) c,
      xs ++ c ∷ [],
      e ∙ ap (λ k. ok (store m1 (buf + length xs) c, k)) (omega (arith, long)),
      Written-snoc (store m1 (buf + length xs) c) buf c xs
          (Written-store m1 buf (buf + length xs) c xs (omega arith) w) (ground arith),
      decode-snoc base 0 c xs ∙ rw d (last_digit base value b),
      omega (arith, long),
      omega (arith, long),
      λ q out. ground (arith, long, same q),
    )

pub fewer_digits :
    (base fuel value : ℕ) → IsBase base → value < base ^ suc fuel → value / base < base ^ fuel
fewer_digits base fuel value (inl e) small =
    let ten : value < 10 ^ suc fuel = subst (λ b. value < b ^ suc fuel) e small in
    rw e (omega (arith, ten))
fewer_digits base fuel value (inr e) small =
    let sixteen : value < 16 ^ suc fuel = subst (λ b. value < b ^ suc fuel) e small in
    rw e (omega (arith, sixteen))

single :
    (base fuel : ℕ) (m : Mem) (value buf : ℕ)
    → IsBase base
    → (value / base == 0) ≡ true
    → Prints base (suc fuel) m value buf
unfolding itoa Written decode
single base fuel m value buf b e =
    extend base fuel m value buf m [] b
      (rw e (ap (λ k. ok (store m k (digit_char (value % base)), k + 1)) (omega arith))) tt
      (ground (arith, e)) (omega arith) (λ q out. refl)

-- `itoa` of a number in base 10 or 16, with fuel for its digits: it writes characters that denote
-- the number, at least one, returns the place behind them, and changes no other byte.
pub itoa_lem :
    (base fuel : ℕ) (m : Mem) (value buf : ℕ)
    → IsBase base
    → value < base ^ suc fuel
    → Prints base (suc fuel) m value buf
unfolding itoa
itoa_lem base zero m value buf b small = elim (Bool-cases (value / base == 0)) [
  | inl e ↦ single base zero m value buf b e
  | inr e ↦ absurd (ground (arith, e, fewer_digits base zero value b small))
]
itoa_lem base (suc fuel) m value buf b small = elim (Bool-cases (value / base == 0)) [
  | inl e ↦ single base (suc fuel) m value buf b e
  | inr e ↦
      let (m1, xs, ran, w, d, pos, le, same) =
        itoa_lem base fuel m (value / base) buf b (fewer_digits base (suc fuel) value b small) in
      extend base (suc fuel) m value buf m1 xs b (rw (e, ran) refl) w d le same
]
