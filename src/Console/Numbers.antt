-- ===== src/Console/Numbers.antt =====
-- What `put_int` of lib/kernel/print.S prints: the digits that `%x` of lib/stdio.c prints.
use geniux.Base.{
  ℕ, zero, suc, ◌+◌, ◌-◌, ◌/◌, ◌%◌, ◌^◌, ◌<◌, ◌≡◌, ◌≢◌, inl, inr, refl, sym, ap, ◌∙◌, ◌==◌, ltb,
  if◌then◌else◌, arith, List, [], ◌∷◌, ◌++◌, Bool-cases, ==_iff,
}
use mathlib.Core.List.{append-nil}
use geniux.Console.{Console, based_4bits, skip_prefix_0, put_each_num, put_int, put_char}
use geniux.Stdio.{digit_char}
use geniux.Stdio.Digits.{fewer_digits}
use geniux.Stdio.Text.{digits}

same_char : (d : ℕ) → d < 16 → (if ltb 9 d then d - 10 + 65 else d + 48) ≡ digit_char d
same_char d h = ground arith

fewer : (k value : ℕ) → value < 16 ^ suc k → value / 16 < 16 ^ k
fewer k value small = fewer_digits 16 k value (inr refl) small

keep :
    (d : ℕ) (buffer : List ℕ)
    → d < 16
    → d ≢ 0
    → skip_prefix_0 (digit_char d ∷ buffer) ≡ digit_char d ∷ buffer
unfolding skip_prefix_0
keep d buffer h ne = ground arith

pub append_one : (xs ys : List ℕ) (c : ℕ) → (xs ++ c ∷ []) ++ ys ≡ xs ++ c ∷ ys
append_one [] ys c = refl
append_one (x ∷ xs) ys c = ap (λ (l : List ℕ). x ∷ l) (append_one xs ys c)

-- Zeros in front are skipped.
zero_prefix :
    (k : ℕ) (buffer : List ℕ) → skip_prefix_0 (based_4bits k 0 buffer) ≡ skip_prefix_0 buffer
unfolding based_4bits skip_prefix_0
zero_prefix zero buffer = refl
zero_prefix (suc k) buffer = zero_prefix k (48 ∷ buffer)

-- A number of at most `k` digits that is not 0, with what is in the buffer behind it.
based_4bits-digits :
    (k value : ℕ) (buffer : List ℕ)
    → value < 16 ^ k
    → value ≢ 0
    → skip_prefix_0 (based_4bits k value buffer) ≡ digits (suc (suc k)) 16 value ++ buffer
unfolding based_4bits digits
based_4bits-digits zero value buffer small ne = absurd (omega arith)
based_4bits-digits (suc k) value buffer small ne =
    let c = digit_char (value % 16) in
    let low = same_char (value % 16) (omega arith) in
    elim (Bool-cases (value / 16 == 0)) [
      | inl e ↦
          let none : value / 16 ≡ 0 = (==_iff (value / 16) 0).0 e in
          ap (λ (d : ℕ). skip_prefix_0 (based_4bits k (value / 16) (d ∷ buffer))) low
          ∙ ap (λ (v : ℕ). skip_prefix_0 (based_4bits k v (c ∷ buffer))) none
          ∙ zero_prefix k (c ∷ buffer)
          ∙ keep (value % 16) buffer (omega arith) (omega arith)
          ∙ rw e refl
      | inr e ↦
          ap (λ (d : ℕ). skip_prefix_0 (based_4bits k (value / 16) (d ∷ buffer))) low
          ∙ based_4bits-digits k (value / 16) (c ∷ buffer) (fewer k value small)
              (λ z. ground (arith, e, z))
          ∙ sym (append_one (digits (suc (suc k)) 16 (value / 16)) buffer c)
          ∙ rw e refl
    ]

pub put_each_num-written :
    (buffer : List ℕ) (c : Console)
    → put_each_num buffer c ≡ record c { written = c.written ++ buffer }
unfolding put_char
put_each_num-written [] c =
    ap (λ (l : List ℕ). record c { written = l }) (sym (append-nil c.written))
put_each_num-written (x ∷ buffer) c =
    put_each_num-written buffer (put_char x c)
    ∙ ap (λ (l : List ℕ). record c { written = l }) (append_one c.written buffer x)

zero_digits : (num : ℕ) → num ≡ 0 → skip_prefix_0 (based_4bits 8 num []) ≡ digits 10 16 num
unfolding based_4bits skip_prefix_0 digits
zero_digits num e = rw e refl

-- `put_int` of a word prints the digits that `%x` prints.
pub put_int_lem :
    (num : ℕ) (c : Console)
    → num < 2 ^ 32
    → put_int num c ≡ record c { written = c.written ++ digits 10 16 num }
unfolding put_int
put_int_lem num c small =
    put_each_num-written (skip_prefix_0 (based_4bits 8 num [])) c
    ∙ ap (λ (l : List ℕ). record c { written = c.written ++ l })
        (elim (Bool-cases (num == 0)) [
          | inl e ↦ zero_digits num ((==_iff num 0).0 e)
          | inr e ↦
              based_4bits-digits 8 num [] (omega arith) (λ z. ground (arith, e, z))
              ∙ append-nil (digits 10 16 num)
        ])
