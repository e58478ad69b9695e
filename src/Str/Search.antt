-- ===== src/Str/Search.antt =====
-- strch, strrch and strchrs of lib/string.c on a terminated string.
use geniux.Base.{
  ℕ, zero, suc, ◌+◌, ◌<◌, ◌≡◌, ◌≢◌, arith, if◌then◌else◌, Option, none, some, ok, Mem, List, [],
  ◌∷◌, length,
}
use geniux.Str.{char_is, find_char, strch, find_last, strrch, count_char, strchrs}
use geniux.Str.Strings.{IsString}

-- Where the first, and the last, `ch` of `xs` stands if `xs` begins at `p`.
pub first_at : ℕ → List ℕ → ℕ → Option ℕ
first_at p [] ch = none
first_at p (x ∷ xs) ch = if char_is x ch then some p else first_at (p + 1) xs ch

abbrev or_else : Option ℕ → Option ℕ → Option ℕ
or_else none d = d
or_else (some p) d = some p

pub last_at : ℕ → List ℕ → ℕ → Option ℕ
last_at p [] ch = none
last_at p (x ∷ xs) ch = or_else (last_at (p + 1) xs ch) (if char_is x ch then some p else none)

pub count : List ℕ → ℕ → ℕ
count [] ch = 0
count (x ∷ xs) ch = (if char_is x ch then 1 else 0) + count xs ch

find_char-ok :
    (fuel : ℕ) (m : Mem) (p ch : ℕ) (xs : List ℕ)
    → IsString m p xs
    → length xs < fuel
    → find_char fuel m p ch ≡ ok (first_at p xs ch)
unfolding find_char first_at
find_char-ok zero m p ch xs s enough = absurd (omega arith)
find_char-ok (suc fuel) m p ch [] s enough = ground arith
find_char-ok (suc fuel) m p ch (x ∷ xs) s enough =
    ground (arith, find_char-ok fuel m (p + 1) ch xs s.2 (omega arith))

find_last-ok :
    (fuel : ℕ) (m : Mem) (p ch : ℕ) (xs : List ℕ) (chr : Option ℕ)
    → IsString m p xs
    → length xs < fuel
    → find_last fuel m p ch chr ≡ ok (or_else (last_at p xs ch) chr)
unfolding find_last last_at
find_last-ok zero m p ch xs chr s enough = absurd (omega arith)
find_last-ok (suc fuel) m p ch [] chr s enough = ground arith
find_last-ok (suc fuel) m p ch (x ∷ xs) chr s enough = ground (
  arith,
  find_last-ok fuel m (p + 1) ch xs (if char_is (m p) ch then some p else chr) s.2 (omega arith),
)

count_char-ok :
    (fuel : ℕ) (m : Mem) (p ch : ℕ) (xs : List ℕ) (n : ℕ)
    → IsString m p xs
    → length xs < fuel
    → count_char fuel m p ch n ≡ ok (n + count xs ch)
unfolding count_char count
count_char-ok zero m p ch xs n s enough = absurd (omega arith)
count_char-ok (suc fuel) m p ch [] n s enough = ground arith
count_char-ok (suc fuel) m p ch (x ∷ xs) n s enough = ground (
  arith,
  count_char-ok fuel m (p + 1) ch xs (if char_is (m p) ch then n + 1 else n) s.2 (omega arith),
)

-- On a string, with fuel for its length: `strch` returns the first place of the character,
-- `strrch` the last, NULL if there is none, and `strchrs` their number.
pub search_lem :
    (fuel : ℕ) (m : Mem) (p ch : ℕ) (xs : List ℕ)
    → p ≢ 0
    → IsString m p xs
    → length xs < fuel
    → (strch fuel m p ch ≡ ok (first_at p xs ch))
      × (strrch fuel m p ch ≡ ok (last_at p xs ch))
      × (strchrs fuel m p ch ≡ ok (count xs ch))
unfolding strch strrch strchrs
search_lem fuel m p ch xs ne s enough = (
  ground (arith, find_char-ok fuel m p ch xs s enough),
  ground (arith, find_last-ok fuel m p ch xs none s enough),
  ground (arith, count_char-ok fuel m p ch xs 0 s enough),
)
