-- ===== src/Stdio/Format.antt =====
-- The loop of `vsprintf` of lib/stdio.c writes the text that its format stands for.
use geniux.Base.{
  ℕ, zero, suc, ◌+◌, ◌%◌, ◌<◌, ◌≤◌, ◌≡◌, ◌≢◌, ◌⊎◌, inl, inr, refl, ap, sym, ◌∙◌, false, ◌==◌, arith,
  Mem, store, ok, List, [], ◌∷◌, ◌++◌, length, length-append, subst, ◌>>=◌, ==_ne,
}
use geniux.Str.{strcpy, strlen}
use geniux.Str.Strings.{IsString, IsString-same}
use geniux.Stdio.{itoa, put_decimal, format_from}
use geniux.Stdio.Digits.{Written}
use geniux.Stdio.Text.{is_directive}
use geniux.Stdio.Numbers.{Out}

Written-append :
    (m m' : Mem) (p : ℕ) (xs ys : List ℕ)
    → Written m p xs
    → ((q : ℕ) → p ≤ q → q < p + length xs → m' q ≡ m q)
    → Written m' (p + length xs) ys
    → Written m' p (xs ++ ys)
unfolding Written
Written-append m m' p [] ys w same t = subst (λ (k : ℕ). Written m' k ys) (omega arith) t
Written-append m m' p (x ∷ xs) ys w same t = (
  same p (omega arith) (omega arith) ∙ w.0,
  Written-append m m' (p + 1) xs ys w.1 (λ q lo hi. same q (omega (arith, lo)) (omega (arith, hi)))
      (subst (λ (k : ℕ). Written m' k ys) (omega arith) t),
)

-- A piece, and the text behind it.
pub join :
    (m m1 m2 : Mem) (buf : ℕ) (xs ys : List ℕ)
    → Out m buf xs m1
    → Out m1 (buf + length xs) ys m2
    → Out m buf (xs ++ ys) m2
join m m1 m2 buf xs ys a b =
    let long : length (xs ++ ys) ≡ length xs + length ys = length-append xs ys in
    let at : buf + length (xs ++ ys) ≡ buf + length xs + length ys = omega (arith, long) in
    record {
      written = Written-append m1 m2 buf xs ys a.written (λ q lo hi. b.same q (inl hi)) b.written;
      same = λ q out. b.same q (omega (arith, out, long)) ∙ a.same q (omega (arith, out, long));
      end = λ z. ap m2 at ∙ b.end (ended (length ys) (ap m (sym at) ∙ z));
    }
  where
    ended : (n : ℕ) → m (buf + length xs + n) ≡ 0 → m1 (buf + length xs + n) ≡ 0
    ended zero z = ap m1 (omega arith) ∙ a.end (ap m (omega arith) ∙ z)
    ended (suc n) z = a.same (buf + length xs + suc n) (inr (omega arith)) ∙ z

-- The strings that a call reads lie outside of the place that it writes.
abbrev pub Apart : ℕ → ℕ → ℕ → List ℕ → Type 0
Apart lo hi p xs = (p + length xs < lo) ⊎ (hi < p)

-- The strings among the arguments.
abbrev pub IsSource : (ℕ → List ℕ) → (ℕ → ℕ) → Mem → ℕ → ℕ → ℕ → ℕ → Type 0
IsSource text args m room lo hi k =
    (args k ≢ 0)
    × IsString m (args k) (text k)
    × Apart lo hi (args k) (text k)
    × (length (text k) ≤ room)

pub IsString-apart :
    (m m' : Mem) (lo hi p : ℕ) (xs : List ℕ)
    → Apart lo hi p xs
    → ((q : ℕ) → (q < lo) ⊎ (hi < q) → m' q ≡ m q)
    → IsString m p xs
    → IsString m' p xs
IsString-apart m m' lo hi p xs apart same s =
    IsString-same m m' p xs s (λ q a b. same q (omega (arith, apart, a, b)))

-- One round of the loop, by the character that it reads.
module _ (fuel : ℕ) (m : Mem) (args : ℕ → ℕ) (n buf index : ℕ) where
  pub step-end : m index ≡ 0 → format_from (suc fuel) m args n buf index ≡ ok m
  unfolding format_from
  step-end e = rw e refl

  pub step-literal :
      (x : ℕ)
      → m index ≡ x
      → x ≢ 0
      → (x == 37) ≡ false
      → format_from (suc fuel) m args n buf index
        ≡ format_from fuel (store m buf x) args n (buf + 1) (index + 1)
  unfolding format_from
  step-literal x e live other = rw (e, ==_ne x 0 live, other) refl

  pub step-unknown :
      (d : ℕ)
      → m index ≡ 37
      → m (index + 1) ≡ d
      → is_directive d ≡ false
      → format_from (suc fuel) m args n buf index ≡ format_from fuel m args n buf (index + 1)
  unfolding format_from is_directive
  step-unknown d e at other = ground (arith, e, at, other)

  pub step-string :
      m index ≡ 37
      → m (index + 1) ≡ 115
      → format_from (suc fuel) m args n buf index ≡ (do
        (d, m1) ← strcpy fuel m buf (args n)
        k ← strlen fuel m1 (args n)
        format_from fuel m1 args (n + 1) (buf + k) (index + 2))
  unfolding format_from
  step-string e at = rw (e, at) refl

  pub step-hexadecimal :
      m index ≡ 37
      → m (index + 1) ≡ 120
      → format_from (suc fuel) m args n buf index ≡ (do
        (m1, buf') ← itoa 10 m (args n) buf 16
        format_from fuel m1 args (n + 1) buf' (index + 2))
  unfolding format_from
  step-hexadecimal e at = rw (e, at) refl

  pub step-decimal :
      m index ≡ 37
      → m (index + 1) ≡ 100
      → format_from (suc fuel) m args n buf index ≡ (do
        (m1, buf') ← put_decimal m buf (args n)
        format_from fuel m1 args (n + 1) buf' (index + 2))
  unfolding format_from
  step-decimal e at = rw (e, at) refl

  pub step-character :
      m index ≡ 37
      → m (index + 1) ≡ 99
      → format_from (suc fuel) m args n buf index
        ≡ format_from fuel (store m buf (args n % 256)) args (n + 1) (buf + 1) (index + 2)
  unfolding format_from
  step-character e at = rw (e, at) refl
