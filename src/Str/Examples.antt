-- ===== src/Str/Examples.antt =====
-- Tests and instances: "ab" at 16, "abc" at 32.
use geniux.Base.{ℕ, ◌≡◌, refl, arith, some, ok, store, Mem, IsBytes, List, [], ◌∷◌}
use geniux.Str.{strch}
use geniux.Str.Strings.{IsString}

abbrev mem : Mem
mem = store (store (store (store (store (λ _. 0) 16 97) 17 98) 32 97) 33 98) 34 99

abbrev ab : List ℕ
ab = 97 ∷ 98 ∷ []

abbrev abc : List ℕ
abc = 97 ∷ 98 ∷ 99 ∷ []

mem-IsBytes : IsBytes mem
mem-IsBytes a = ground arith

ab_at : IsString mem 16 ab
ab_at = (refl, omega arith, (refl, omega arith, refl))

abc_at : IsString mem 32 abc
abc_at = (refl, omega arith, (refl, omega arith, (refl, omega arith, refl)))

first_at_test : strch 9 mem 32 98 ≡ ok (some 33)
unfolding strch
first_at_test = refl
