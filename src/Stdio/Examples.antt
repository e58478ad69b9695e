-- ===== src/Stdio/Examples.antt =====
-- Tests and instances: 2026 in decimal, and formats with two directives.
use geniux.Base.{
  subst, sym, ap, ◌⊎◌, ◌<◌, length, elem, true, ℕ, zero, suc, ◌+◌, ◌-◌, ◌^◌, ◌≡◌, inl, refl, arith,
  Mem, store, ok, Outcome, ◌>>=◌, List, [], ◌∷◌,
}
use geniux.Stdio.{itoa, format_from, put_decimal, vsprintf}
use geniux.Str.Strings.{IsString}
use geniux.Stdio.Text.{formatted, digits, is_directive, string_args}
use geniux.Stdio.Format.{IsSource}
use geniux.Stdio.Print.{vsprintf_lem}

abbrev format : List ℕ
format = 37 ∷ 100 ∷ 44 ∷ 37 ∷ 120 ∷ []

abbrev load : Mem → ℕ → List ℕ → Mem
load m p [] = m
load m p (x ∷ xs) = load (store m p x) (p + 1) xs

abbrev args : ℕ → ℕ
args zero = 2 ^ 32 - 7
args (suc n) = 255

abbrev peek : Outcome Mem → Outcome (List ℕ)
peek r = do m ← r; ok (m 100 ∷ m 101 ∷ m 102 ∷ m 103 ∷ m 104 ∷ m 105 ∷ [])

-- "%d,%x" of -7 and 255 is "-7,FF".
format_test :
    peek (format_from 4 (load (λ a. 0) 16 format) args 0 100 16)
    ≡ ok (45 ∷ 55 ∷ 44 ∷ 70 ∷ 70 ∷ 0 ∷ [])
unfolding format_from put_decimal itoa
format_test = refl

-- "%s %d" at 16 of the string "ok" at 32 and -7 is "ok -7".
abbrev pub greeting : List ℕ
greeting = 37 ∷ 115 ∷ 32 ∷ 37 ∷ 100 ∷ []

abbrev pub word : ℕ → List ℕ
word n = 111 ∷ 107 ∷ []

abbrev pub two_args : ℕ → ℕ
two_args zero = 32
two_args (suc n) = 2 ^ 32 - 7

abbrev pub both : Mem
both = load (load (λ a. 0) 16 greeting) 32 (word 0)

pub greeting_text : formatted word two_args 0 greeting ≡ 111 ∷ 107 ∷ 32 ∷ 45 ∷ 55 ∷ []
unfolding formatted digits is_directive
greeting_text = refl

pub two_args-words : (k : ℕ) → two_args k < 2 ^ 32
two_args-words zero = omega arith
two_args-words (suc n) = omega arith

pub one_string : (k : ℕ) → elem k (string_args 0 greeting) ≡ true → k ≡ 0
unfolding string_args is_directive
one_string k h = ground (arith, h)

vsprintf_example :
    (m' : Mem) × (vsprintf 9 both 100 16 two_args
      ≡ ok (length (formatted word two_args 0 greeting), m'))
    × IsString m' 100 (formatted word two_args 0 greeting)
    × ((q : ℕ)
        → (q < 100) ⊎ (100 + length (formatted word two_args 0 greeting) < q)
        → m' q ≡ both q)
vsprintf_example =
    vsprintf_lem word two_args 2 9 both 100 16 greeting (omega arith) two_args-words (omega arith)
      (subst (λ (l : List ℕ). length l < 9) (sym greeting_text) (omega arith))
      (record {
        format = (
          refl,
          omega arith,
          (refl, omega arith, (refl, omega arith, (refl, omega arith, (refl, omega arith, refl)))),
        );
        apart = inl (omega arith);
        sources = λ k h.
            subst
              (λ (k : ℕ).
                IsSource word two_args both 2 100
                  (100 + length (formatted word two_args 0 greeting)) k)
              (sym (one_string k h))
              (
                omega arith,
                (refl, omega arith, (refl, omega arith, refl)),
                inl (omega arith),
                omega arith,
              );
      })
      (ap (λ (l : List ℕ). both (100 + length l)) greeting_text) (ap (elem 0) greeting_text)
