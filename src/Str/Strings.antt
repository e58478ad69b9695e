-- ===== src/Str/Strings.antt =====
-- strlen, strcpy, strcat and strcmp of lib/string.c on terminated strings.
use geniux.Base.{
  ◌↔◌, subst, ℕ, zero, suc, ◌+◌, ◌-◌, ◌≤◌, ◌<◌, ◌≡◌, ◌≢◌, ◌⊎◌, refl, sym, ap, ◌∙◌, false, arith,
  ◌==◌, if◌then◌else◌, store, ok, Mem, ℤ, pos, negsuc, IsBytes, List, [], ◌∷◌, ◌++◌, length,
}
use geniux.Str.{copy_string, strcpy, find_end, strlen, compare_strings, strcmp, strcat, char_lt}
use geniux.Str.Blocks.{within}

-- At `p` stand the characters `xs`, none of them 0, and then a 0.
abbrev pub IsString : Mem → ℕ → List ℕ → Type 0
IsString m p [] = m p ≡ 0
IsString m p (x ∷ xs) = (m p ≡ x) × (x ≢ 0) × IsString m (p + 1) xs

-- A string stays where its bytes do.
pub IsString-same :
    (m m' : Mem) (p : ℕ) (xs : List ℕ)
    → IsString m p xs
    → ((q : ℕ) → p ≤ q → q ≤ p + length xs → m' q ≡ m q)
    → IsString m' p xs
IsString-same m m' p [] s same = same p (omega arith) (omega arith) ∙ s
IsString-same m m' p (x ∷ xs) s same = (
  same p (omega arith) (omega arith) ∙ s.0,
  s.1,
  IsString-same m m' (p + 1) xs s.2 (λ q lo hi. same q (omega arith) (omega arith)),
)

pub find_end-ok :
    (fuel : ℕ) (m : Mem) (p : ℕ) (xs : List ℕ)
    → IsString m p xs
    → length xs < fuel
    → find_end fuel m p ≡ ok (p + length xs + 1)
unfolding find_end
find_end-ok zero m p xs s enough = absurd (omega arith)
find_end-ok (suc fuel) m p [] s enough = ground arith
find_end-ok (suc fuel) m p (x ∷ xs) s enough = ground (arith, find_end-ok fuel m (p + 1) xs)

-- `strlen` of a string of `length xs` characters returns that number, with more fuel than that.
pub strlen_lem :
    (fuel : ℕ) (m : Mem) (p : ℕ) (xs : List ℕ)
    → p ≢ 0
    → IsString m p xs
    → length xs < fuel
    → strlen fuel m p ≡ ok (length xs)
unfolding strlen
strlen_lem fuel m p xs ne s enough = ground (arith, find_end-ok fuel m p xs s enough)

-- The loop of `strcpy`, where the copy does not overwrite what it has yet to read.
pub copy_string-ok :
    (fuel : ℕ) (m : Mem) (dst src : ℕ) (xs : List ℕ)
    → IsString m src xs
    → length xs < fuel
    → (dst ≤ src) ⊎ (src + length xs < dst)
    → (m' : Mem) × (copy_string fuel m dst src ≡ ok m')
      × IsString m' dst xs
      × ((q : ℕ) → within dst (length xs + 1) q ≡ false → m' q ≡ m q)
unfolding copy_string
copy_string-ok zero m dst src xs s enough apart = absurd (omega arith)
copy_string-ok (suc fuel) m dst src [] s enough apart =
    (store m dst (m src), ground arith, ground arith, λ q out. ground arith)
copy_string-ok (suc fuel) m dst src (x ∷ xs) s enough apart =
    let rest =
      copy_string-ok fuel (store m dst (m src)) (dst + 1) (src + 1) xs
        (IsString-same m (store m dst (m src)) (src + 1) xs s.2 (λ q lo hi. ground arith))
        (omega arith) (omega arith) in
    (
      rest.0,
      ground (arith, rest.1),
      (ground (arith, rest.3 dst), s.1, rest.2),
      λ q out. ground (arith, rest.3 q),
    )

-- `strcpy` of a string, to a place that does not overlap what is still to be read, returns the
-- destination; there the same string stands, and no other byte has changed.
pub strcpy_lem :
    (fuel : ℕ) (m : Mem) (dst src : ℕ) (xs : List ℕ)
    → dst ≢ 0
    → src ≢ 0
    → IsString m src xs
    → length xs < fuel
    → (dst ≤ src) ⊎ (src + length xs < dst)
    → (m' : Mem) × (strcpy fuel m dst src ≡ ok (dst, m'))
      × IsString m' dst xs
      × ((q : ℕ) → within dst (length xs + 1) q ≡ false → m' q ≡ m q)
unfolding strcpy
strcpy_lem fuel m dst src xs hd hs s enough apart =
    let r = copy_string-ok fuel m dst src xs s enough apart in (r.0, ground (arith, r.1), r.2, r.3)

IsString-append :
    (m m' : Mem) (p : ℕ) (xs ys : List ℕ)
    → IsString m p xs
    → ((q : ℕ) → p ≤ q → q < p + length xs → m' q ≡ m q)
    → IsString m' (p + length xs) ys
    → IsString m' p (xs ++ ys)
IsString-append m m' p [] ys s same tail = subst (λ k. IsString m' k ys) (omega arith) tail
IsString-append m m' p (x ∷ xs) ys s same tail = (
  same p (omega arith) (omega arith) ∙ s.0,
  s.1,
  IsString-append m m' (p + 1) xs ys s.2 (λ q lo hi. same q (omega arith) (omega arith))
      (subst (λ k. IsString m' k ys) (omega arith) tail),
)

-- `strcat` of two strings, where the copy does not overwrite what it has yet to read, returns the
-- destination; there the two strings stand one behind the other, and no byte outside the place of
-- the second has changed.
pub strcat_lem :
    (fuel : ℕ) (m : Mem) (dst src : ℕ) (xs ys : List ℕ)
    → dst ≢ 0
    → src ≢ 0
    → IsString m dst xs
    → IsString m src ys
    → length xs < fuel
    → length ys < fuel
    → (dst + length xs ≤ src) ⊎ (src + length ys < dst + length xs)
    → (m' : Mem) × (strcat fuel m dst src ≡ ok (dst, m'))
      × IsString m' dst (xs ++ ys)
      × ((q : ℕ) → within (dst + length xs) (length ys + 1) q ≡ false → m' q ≡ m q)
unfolding strcat
strcat_lem fuel m dst src xs ys hd hs s t fs ft apart =
    let r = copy_string-ok fuel m (dst + length xs) src ys t ft apart in
    let end : dst + length xs + 1 - 1 ≡ dst + length xs = omega arith in
    (
      r.0,
      ground (arith, find_end-ok fuel m dst xs s fs, ap (λ k. copy_string fuel m k src) end, r.1),
      IsString-append m r.0 dst xs ys s (λ q lo hi. ground (arith, r.3 q)) r.2,
      r.3,
    )

-- What `strcmp` decides by: the first difference, where the end of a string counts as 0.
abbrev pub order : ℕ → ℕ → ℤ
order x y = if char_lt x y then negsuc 0 else if char_lt y x then pos 1 else pos 0

pub lexicographic : List ℕ → List ℕ → ℤ
lexicographic [] [] = pos 0
lexicographic [] (y ∷ ys) = order 0 y
lexicographic (x ∷ xs) [] = order x 0
lexicographic (x ∷ xs) (y ∷ ys) = if x == y then lexicographic xs ys else order x y

compare_strings-ok :
    (fuel : ℕ) (m : Mem) (a b : ℕ) (xs ys : List ℕ)
    → IsString m a xs
    → IsString m b ys
    → length xs < fuel
    → compare_strings fuel m a b ≡ ok (lexicographic xs ys)
unfolding compare_strings lexicographic
compare_strings-ok zero m a b xs ys s t enough = absurd (omega arith)
compare_strings-ok (suc fuel) m a b [] [] s t enough = ground arith
compare_strings-ok (suc fuel) m a b [] (y ∷ ys) s t enough = ground arith
compare_strings-ok (suc fuel) m a b (x ∷ xs) [] s t enough = ground arith
compare_strings-ok (suc fuel) m a b (x ∷ xs) (y ∷ ys) s t enough =
    ground (arith, compare_strings-ok fuel m (a + 1) (b + 1) xs ys s.2 t.2 (omega arith))

lexicographic-eq :
    (m : Mem) (a b : ℕ) (xs ys : List ℕ)
    → IsBytes m
    → IsString m a xs
    → IsString m b ys
    → lexicographic xs ys ≡ pos 0
    → xs ≡ ys
unfolding lexicographic
lexicographic-eq m a b [] [] h s t e = refl
lexicographic-eq m a b [] (y ∷ ys) h s t e = absurd (ground (arith, h b))
lexicographic-eq m a b (x ∷ xs) [] h s t e = absurd (ground (arith, h a))
lexicographic-eq m a b (x ∷ xs) (y ∷ ys) h s t e =
    ground (arith, h a, h b, lexicographic-eq m (a + 1) (b + 1) xs ys h s.2 t.2)

lexicographic_refl : (xs : List ℕ) → lexicographic xs xs ≡ pos 0
unfolding lexicographic
lexicographic_refl [] = refl
lexicographic_refl (x ∷ xs) = ground (arith, lexicographic_refl xs)

-- `strcmp` of two strings in a memory of bytes returns what the first difference decides, and it
-- returns 0 exactly when the strings are equal.
pub strcmp_lem :
    (fuel : ℕ) (m : Mem) (a b : ℕ) (xs ys : List ℕ)
    → IsBytes m
    → a ≢ 0
    → b ≢ 0
    → IsString m a xs
    → IsString m b ys
    → length xs < fuel
    → (strcmp fuel m a b ≡ ok (lexicographic xs ys))
      × ((strcmp fuel m a b ≡ ok (pos 0)) ↔ (xs ≡ ys))
unfolding strcmp
strcmp_lem fuel m a b xs ys h ha hb s t enough =
    let e : strcmp fuel m a b ≡ ok (lexicographic xs ys) =
      ground (arith, compare_strings-ok fuel m a b xs ys s t enough) in
    (
      e,
      (
        λ z. lexicographic-eq m a b xs ys h s t (ground (arith, e, z)),
        λ q. e ∙ ap ok (ap (λ l. lexicographic xs l) (sym q) ∙ lexicographic_refl xs),
      ),
    )
