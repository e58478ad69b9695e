-- ===== src/Links/Walk.antt =====
-- The loops of lib/kernel/list.c along a chain: len, find and traversal.
use geniux.Base.{
  ℕ, zero, suc, ◌+◌, ◌%◌, ◌^◌, ◌<◌, ◌≡◌, Bool, false, if◌then◌else◌, arith, List, [], ◌∷◌, elem,
  length, Option, none, some, ok,
}
use geniux.Links.{Links, tail, len_from, find_from, traverse_from}
use geniux.Links.Chain.{Chain}

-- The first element that the test accepts.
unfoldable pub first_match : (ℕ → ℕ → Bool) → ℕ → List ℕ → Option ℕ
first_match func arg [] = none
first_match func arg (x ∷ xs) = if func x arg then some x else first_match func arg xs

module _ (s : Links) (l : ℕ) where
  pub len_from-ok :
      (fuel p ret : ℕ) (xs : List ℕ)
      → Chain s p xs (tail l)
      → elem (tail l) xs ≡ false
      → length xs < fuel
      → ret + length xs < 2 ^ 32
      → len_from fuel s l (s.next p) ret ≡ ok (ret + length xs)
  unfolding len_from
  len_from-ok zero p ret xs c end enough small = absurd (omega arith)
  len_from-ok (suc fuel) p ret [] c end enough small = ground arith
  len_from-ok (suc fuel) p ret (x ∷ xs) c end enough small = ground (
    arith,
    len_from-ok fuel x ((ret + 1) % 2 ^ 32) xs c.2 (ground arith) (omega arith) (omega arith),
  )

  pub find_from-ok :
      (fuel p obj : ℕ) (xs : List ℕ)
      → Chain s p xs (tail l)
      → elem (tail l) xs ≡ false
      → length xs < fuel
      → find_from fuel s l obj (s.next p) ≡ ok (elem obj xs)
  unfolding find_from
  find_from-ok zero p obj xs c end enough = absurd (omega arith)
  find_from-ok (suc fuel) p obj [] c end enough = ground arith
  find_from-ok (suc fuel) p obj (x ∷ xs) c end enough =
      ground (arith, find_from-ok fuel x obj xs c.2 (ground arith) (omega arith))

  pub traverse_from-ok :
      (fuel p arg : ℕ) (func : ℕ → ℕ → Bool) (xs : List ℕ)
      → Chain s p xs (tail l)
      → elem (tail l) xs ≡ false
      → length xs < fuel
      → traverse_from fuel s l func arg (s.next p) ≡ ok (first_match func arg xs)
  unfolding traverse_from first_match
  traverse_from-ok zero p arg func xs c end enough = absurd (omega arith)
  traverse_from-ok (suc fuel) p arg func [] c end enough = ground arith
  traverse_from-ok (suc fuel) p arg func (x ∷ xs) c end enough =
      ground (arith, traverse_from-ok fuel x arg func xs c.2 (ground arith) (omega arith))
