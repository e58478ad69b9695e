-- ===== src/Stdio/Text.antt =====
-- The text that a format stands for, by which `vsprintf` of lib/stdio.c is measured.
use geniux.Base.{
  ◌≡◌, refl, true, false, ℕ, zero, suc, ◌+◌, ◌-◌, ◌/◌, ◌%◌, ◌^◌, ◌==◌, ◌||◌, Bool, ltb,
  if◌then◌else◌, List, [], ◌∷◌, ◌++◌,
}
use geniux.Stdio.{digit_char}

-- The digits of a number of at most `most` digits, the highest first.
unfoldable pub digits : ℕ → ℕ → ℕ → List ℕ
digits zero base value = []
digits (suc most) base value =
    let higher = digits most base (value / base) in
    (if value / base == 0 then [] else higher) ++ digit_char (value % base) ∷ []

-- A word as a signed number in decimal.
abbrev pub decimal : ℕ → List ℕ
decimal arg = if ltb arg (2 ^ 31) then digits 10 10 arg else 45 ∷ digits 10 10 (2 ^ 32 - arg)

-- What stands for a directive, by its letter: `text` is the string that an argument points to.
abbrev pub shown : (ℕ → List ℕ) → (ℕ → ℕ) → ℕ → ℕ → List ℕ
shown text args n letter =
    if letter == 115
    then text n
    else if letter == 120
    then digits 10 16 (args n)
    else if letter == 100
    then decimal (args n)
    else (args n % 256) ∷ []

unfoldable pub is_directive : ℕ → Bool
is_directive letter = (letter == 115) || (letter == 120) || (letter == 100) || (letter == 99)

-- The text of a format from the argument `n` on. A directive that is not known is left out, and its
-- letter is read as the next character.
unfoldable pub formatted : (ℕ → List ℕ) → (ℕ → ℕ) → ℕ → List ℕ → List ℕ
unfolding is_directive
formatted text args n [] = []
formatted text args n (x ∷ []) = if x == 37 then [] else x ∷ []
formatted text args n (x ∷ d ∷ f) =
    let next = formatted text args n (d ∷ f) in
    let after = formatted text args (n + 1) f in
    if x == 37 then (if is_directive d then shown text args n d ++ after else next) else x ∷ next

-- The arguments that are read as strings.
unfoldable pub string_args : ℕ → List ℕ → List ℕ
unfolding is_directive
string_args n [] = []
string_args n (x ∷ []) = []
string_args n (x ∷ d ∷ f) =
    let next = string_args n (d ∷ f) in
    let after = string_args (n + 1) f in
    if x == 37
    then (if is_directive d then (if d == 115 then n ∷ after else after) else next)
    else next

-- The clauses of the two, by what is read.
module _ (text : ℕ → List ℕ) (args : ℕ → ℕ) (n x d : ℕ) (f : List ℕ) where
  pub alone_directive : (x == 37) ≡ true → formatted text args n (x ∷ []) ≡ []
  unfolding formatted
  alone_directive p = rw p refl

  pub alone_literal : (x == 37) ≡ false → formatted text args n (x ∷ []) ≡ x ∷ []
  unfolding formatted
  alone_literal p = rw p refl

  pub formatted-literal :
      (x == 37) ≡ false → formatted text args n (x ∷ d ∷ f) ≡ x ∷ formatted text args n (d ∷ f)
  unfolding formatted
  formatted-literal p = rw p refl

  pub formatted-unknown :
      (x == 37) ≡ true
      → is_directive d ≡ false
      → formatted text args n (x ∷ d ∷ f) ≡ formatted text args n (d ∷ f)
  unfolding formatted is_directive
  formatted-unknown p u = rw (p, u) refl

  pub formatted-known :
      (x == 37) ≡ true
      → is_directive d ≡ true
      → formatted text args n (x ∷ d ∷ f) ≡ shown text args n d ++ formatted text args (n + 1) f
  unfolding formatted is_directive
  formatted-known p u = rw (p, u) refl

pub string_args-literal :
    (n x d : ℕ) (f : List ℕ) → (x == 37) ≡ false → string_args n (x ∷ d ∷ f) ≡ string_args n (d ∷ f)
unfolding string_args
string_args-literal n x d f p = rw p refl

pub string_args-unknown :
    (n x d : ℕ) (f : List ℕ)
    → (x == 37) ≡ true
    → is_directive d ≡ false
    → string_args n (x ∷ d ∷ f) ≡ string_args n (d ∷ f)
unfolding string_args is_directive
string_args-unknown n x d f p u = rw (p, u) refl

pub string_args-known :
    (n x d : ℕ) (f : List ℕ)
    → (x == 37) ≡ true
    → is_directive d ≡ true
    → string_args n (x ∷ d ∷ f)
      ≡ (if d == 115 then n ∷ string_args (n + 1) f else string_args (n + 1) f)
unfolding string_args is_directive
string_args-known n x d f p u = rw (p, u) refl

pub string_args-alone : (n x : ℕ) → string_args n (x ∷ []) ≡ string_args n []
unfolding string_args
string_args-alone n x = refl

pub formatted-nil : (text : ℕ → List ℕ) (args : ℕ → ℕ) (n : ℕ) → formatted text args n [] ≡ []
unfolding formatted
formatted-nil text args n = refl
