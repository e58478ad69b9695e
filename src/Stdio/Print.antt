-- ===== src/Stdio/Print.antt =====
-- `vsprintf` of lib/stdio.c: it prints the text that its format stands for.
use geniux.Base.{
  ℕ, zero, suc, ◌+◌, ◌^◌, ◌<◌, ◌≤◌, ◌≡◌, ◌⊎◌, inl, inr, refl, ap, sym, ◌∙◌, true, false, ◌==◌,
  arith, Mem, store, ok, List, [], ◌∷◌, ◌++◌, length, length-append, Bool-cases, subst, elem,
  ==_iff, ==_refl,
}
use geniux.Str.Strings.{IsString, strlen_lem}
use geniux.Stdio.{format_from, vsprintf}
use geniux.Stdio.Digits.{Written}
use geniux.Stdio.Text.{
  shown, is_directive, formatted, string_args, alone_directive, alone_literal, formatted-literal,
  formatted-unknown, formatted-known, formatted-nil, string_args-literal, string_args-unknown,
  string_args-known, string_args-alone,
}
use geniux.Stdio.Numbers.{Out}
use geniux.Stdio.Format.{
  join, Apart, IsSource, IsString-apart, step-end, step-literal, step-unknown,
}
use geniux.Stdio.Directive.{one_character, directive}

-- What a directive adds to the strings that are read.
first_string :
    (n x d : ℕ) (f : List ℕ)
    → (x == 37) ≡ true
    → is_directive d ≡ true
    → (d == 115) ≡ true
    → elem n (string_args n (x ∷ d ∷ f)) ≡ true
first_string n x d f p known s = rw (string_args-known n x d f p known, s, ==_refl n) refl

behind_directive :
    (n x d : ℕ) (f : List ℕ)
    → (x == 37) ≡ true
    → is_directive d ≡ true
    → (k : ℕ) → elem k (string_args (n + 1) f) ≡ true
    → elem k (string_args n (x ∷ d ∷ f)) ≡ true
behind_directive n x d f p known k h = elim (Bool-cases (d == 115)) [
  | inl s ↦ rw (string_args-known n x d f p known, s, h) ground arith
  | inr s ↦ rw (string_args-known n x d f p known, s) h
]

no_directive : is_directive 0 ≡ false
unfolding is_directive
no_directive = refl

module _ (text : ℕ → List ℕ) (args : ℕ → ℕ) (room lo hi : ℕ) (pos : 0 < lo)
    (words : (k : ℕ) → args k < 2 ^ 32) where
  -- What the loop reads: the rest of the format, and the strings among the arguments.
  pub record Inputs (m : Mem) (n index : ℕ) (f : List ℕ) : Type 0 where
    pub format : IsString m index f
    pub apart : Apart lo hi index f
    pub sources : (k : ℕ) → elem k (string_args n f) ≡ true → IsSource text args m room lo hi k

  pub Inputs-same :
      (m m' : Mem) (n index : ℕ) (f : List ℕ)
      → ((q : ℕ) → (q < lo) ⊎ (hi < q) → m' q ≡ m q)
      → Inputs m n index f
      → Inputs m' n index f
  Inputs-same m m' n index f same i = record {
    format = IsString-apart m m' lo hi index f i.apart same i.format;
    apart = i.apart;
    sources = λ k h.
        let (live, s, apart, short) = i.sources k h in
        (live, IsString-apart m m' lo hi (args k) (text k) apart same s, apart, short);
  }

  -- The call of the loop ends, and has written `xs`.
  abbrev Formats : ℕ → Mem → ℕ → ℕ → ℕ → List ℕ → Type 0
  Formats fuel m n buf index xs =
      (m' : Mem) × (format_from fuel m args n buf index ≡ ok m') × Out m buf xs m'

  then_rest :
      (fuel : ℕ) (m m1 : Mem) (n n' buf index index' : ℕ) (xs ys : List ℕ)
      → format_from (suc fuel) m args n buf index
        ≡ format_from fuel m1 args n' (buf + length xs) index'
      → Out m buf xs m1
      → Formats fuel m1 n' (buf + length xs) index' ys
      → Formats (suc fuel) m n buf index (xs ++ ys)
  then_rest fuel m m1 n n' buf index index' xs ys e out (m2, ran, rest) =
      (m2, e ∙ ran, join m m1 m2 buf xs ys out rest)

  outside :
      (m m1 : Mem) (buf : ℕ) (xs : List ℕ)
      → Out m buf xs m1
      → lo ≤ buf
      → buf + length xs ≤ hi
      → (q : ℕ) → (q < lo) ⊎ (hi < q)
      → m1 q ≡ m q
  outside m m1 buf xs out above under q far = out.same q (omega (arith, above, under, far))

  -- The inputs from the next character on, or behind a directive.
  next-Inputs :
      (m : Mem) (n index x : ℕ) (f : List ℕ)
      → Inputs m n index (x ∷ f)
      → ((k : ℕ) → elem k (string_args n f) ≡ true → elem k (string_args n (x ∷ f)) ≡ true)
      → Inputs m n (index + 1) f
  next-Inputs m n index x f i fewer = record {
    format = i.format.2;
    apart = omega (arith, i.apart);
    sources = λ k h. i.sources k (fewer k h);
  }

  behind-Inputs :
      (m : Mem) (n index x d : ℕ) (f : List ℕ)
      → Inputs m n index (x ∷ d ∷ f)
      → ((k : ℕ)
          → elem k (string_args (n + 1) f) ≡ true
          → elem k (string_args n (x ∷ d ∷ f)) ≡ true)
      → Inputs m (n + 1) (index + 2) f
  behind-Inputs m n index x d f i fewer = record {
    format = subst (λ (p : ℕ). IsString m p f) (omega arith) i.format.2.2;
    apart = omega (arith, i.apart);
    sources = λ k h. i.sources k (fewer k h);
  }

  -- A character that is no directive, and the rest.
  literal :
      (f : List ℕ) (fuel : ℕ) (m : Mem) (n buf index x : ℕ)
      → Inputs m n index (x ∷ f)
      → (x == 37) ≡ false
      → formatted text args n (x ∷ f) ≡ x ∷ formatted text args n f
      → lo ≤ buf
      → buf + length (formatted text args n (x ∷ f)) ≤ hi
      → ((k : ℕ) → elem k (string_args n f) ≡ true → elem k (string_args n (x ∷ f)) ≡ true)
      → ((m1 : Mem)
          → Inputs m1 n (index + 1) f
          → buf + 1 + length (formatted text args n f) ≤ hi
          → Formats fuel m1 n (buf + 1) (index + 1) (formatted text args n f))
      → Formats (suc fuel) m n buf index (formatted text args n (x ∷ f))
  literal f fuel m n buf index x i other form above under fewer go =
      let m1 = store m buf x in
      let out = one_character m buf x in
      let under' : buf + length (x ∷ formatted text args n f) ≤ hi =
        subst (λ (l : List ℕ). buf + length l ≤ hi) form under in
      subst (Formats (suc fuel) m n buf index) (sym form) (
        then_rest fuel m m1 n n buf index (index + 1) (x ∷ []) (formatted text args n f)
          (step-literal fuel m args n buf index x i.format.0 i.format.1 other) out
          (go m1
            (Inputs-same m m1 n (index + 1) f
              (outside m m1 buf (x ∷ []) out above (omega (arith, under')))
              (next-Inputs m n index x f i fewer))
            (omega (arith, under'))))

  format_from-ok :
      (f : List ℕ) (fuel : ℕ) (m : Mem) (n buf index : ℕ)
      → length f + room < fuel
      → Inputs m n index f
      → lo ≤ buf
      → buf + length (formatted text args n f) ≤ hi
      → Formats fuel m n buf index (formatted text args n f)
  unfolding Written
  format_from-ok f zero m n buf index more i above under = absurd (omega (arith, more))
  format_from-ok [] (suc fuel) m n buf index more i above under =
      subst (Formats (suc fuel) m n buf index) (sym (formatted-nil text args n)) (
        m,
        step-end fuel m args n buf index i.format,
        record { written = tt; same = λ q out. refl; end = λ z. z },
      )
  format_from-ok (x ∷ []) (suc fuel) m n buf index more i above under =
      let fewer : (k : ℕ)
          → elem k (string_args n []) ≡ true
          → elem k (string_args n (x ∷ [])) ≡ true =
        λ k h. subst (λ (l : List ℕ). elem k l ≡ true) (sym (string_args-alone n x)) h in
      elim (Bool-cases (x == 37)) [
        | inl p ↦
            let e : m index ≡ 37 = i.format.0 ∙ (==_iff x 37).0 p in
            let none = formatted-nil text args n in
            let (m1, ran, out) =
              format_from-ok [] fuel m n buf (index + 1) (omega (arith, more))
                (next-Inputs m n index x [] i fewer) above
                (subst (λ (l : List ℕ). buf + length l ≤ hi)
                  (alone_directive text args n x x [] p ∙ sym none) under) in
            subst (Formats (suc fuel) m n buf index)
              (none ∙ sym (alone_directive text args n x x [] p))
              (m1, step-unknown fuel m args n buf index 0 e i.format.2 no_directive ∙ ran, out)
        | inr other ↦
            literal [] fuel m n buf index x i other
              (alone_literal text args n x x [] other
                ∙ ap (λ (l : List ℕ). x ∷ l) (sym (formatted-nil text args n)))
              above under fewer
              (λ m1 j room_left.
                format_from-ok [] fuel m1 n (buf + 1) (index + 1) (omega (arith, more)) j
                  (omega (arith, above)) room_left)
      ]
  format_from-ok (x ∷ d ∷ f) (suc fuel) m n buf index more i above under =
      elim (Bool-cases (x == 37)) [
        | inl p ↦ elim (Bool-cases (is_directive d)) [
          | inl known ↦
              let form = formatted-known text args n x d f p known in
              let rest = formatted text args (n + 1) f in
              let e : m index ≡ 37 = i.format.0 ∙ (==_iff x 37).0 p in
              let under' : buf + length (shown text args n d ++ rest) ≤ hi =
                subst (λ (l : List ℕ). buf + length l ≤ hi) form under in
              let long = length-append (shown text args n d) rest in
              let src : (d == 115) ≡ true → IsSource text args m room lo hi n =
                λ s. i.sources n (first_string n x d f p known s) in
              let (m1, step, out) =
                directive text args room lo hi pos words fuel m n buf index d (omega (arith, more))
                  e i.format.2.0 known src above (omega (arith, under', long)) in
              let i' = behind-Inputs m n index x d f i (behind_directive n x d f p known) in
              subst (Formats (suc fuel) m n buf index) (sym form) (
                then_rest fuel m m1 n (n + 1) buf index (index + 2) (shown text args n d) rest step
                  out
                  (format_from-ok f fuel m1 (n + 1) (buf + length (shown text args n d)) (index + 2)
                    (omega (arith, more))
                    (Inputs-same m m1 (n + 1) (index + 2) f
                      (outside m m1 buf (shown text args n d) out above
                        (omega (arith, under', long)))
                      i')
                    (omega (arith, above)) (omega (arith, under', long))))
          | inr unknown ↦
              let form = formatted-unknown text args n x d f p unknown in
              let e : m index ≡ 37 = i.format.0 ∙ (==_iff x 37).0 p in
              let i' = next-Inputs m n index x (d ∷ f) i (λ k h.
                subst (λ (l : List ℕ). elem k l ≡ true)
                  (sym (string_args-unknown n x d f p unknown)) h) in
              let (m1, ran, out) =
                format_from-ok (d ∷ f) fuel m n buf (index + 1) (omega (arith, more)) i' above
                  (subst (λ (l : List ℕ). buf + length l ≤ hi) form under) in
              subst (Formats (suc fuel) m n buf index) (sym form)
                (m1, step-unknown fuel m args n buf index d e i.format.2.0 unknown ∙ ran, out)
        ]
        | inr other ↦
            literal (d ∷ f) fuel m n buf index x i other (formatted-literal text args n x d f other)
              above under
              (λ k h.
                subst (λ (l : List ℕ). elem k l ≡ true) (sym (string_args-literal n x d f other)) h)
              (λ m1 j room_left.
                format_from-ok (d ∷ f) fuel m1 n (buf + 1) (index + 1) (omega (arith, more)) j
                  (omega (arith, above)) room_left)
      ]

Written-IsString :
    (m : Mem) (p : ℕ) (xs : List ℕ)
    → Written m p xs
    → m (p + length xs) ≡ 0
    → elem 0 xs ≡ false
    → IsString m p xs
unfolding Written
Written-IsString m p [] w e none = ap m (omega arith) ∙ e
Written-IsString m p (x ∷ xs) w e none =
    (w.0, ground arith, Written-IsString m (p + 1) xs w.1 (ap m (omega arith) ∙ e) (ground arith))

-- `vsprintf` of a format `f` at `format`, into a place at `str` that does not start at address 0:
-- it returns the length of the text that the format stands for, the text stands at `str` with a 0
-- behind it, and nothing but its bytes is written. The format and the strings that it prints do not
-- meet that place, the strings have at most `room` characters, the arguments are words, a 0 stands
-- already where the text ends, no character of the text is 0, and the fuel is more than the
-- characters of the format with `room`, and more than those of the text.
pub vsprintf_lem :
    (text : ℕ → List ℕ) (args : ℕ → ℕ) (room fuel : ℕ) (m : Mem) (str format : ℕ) (f : List ℕ)
    → (pos : 0 < str) → (words : (k : ℕ) → args k < 2 ^ 32) → length f + room < fuel
    → length (formatted text args 0 f) < fuel
    → Inputs text args room str (str + length (formatted text args 0 f)) pos words m 0 format f
    → m (str + length (formatted text args 0 f)) ≡ 0
    → elem 0 (formatted text args 0 f) ≡ false
    → (m' : Mem) × (vsprintf fuel m str format args ≡ ok (length (formatted text args 0 f), m'))
      × IsString m' str (formatted text args 0 f)
      × ((q : ℕ) → (q < str) ⊎ (str + length (formatted text args 0 f) < q) → m' q ≡ m q)
unfolding vsprintf
vsprintf_lem text args room fuel m str format f pos words more long i clear none =
    let xs = formatted text args 0 f in
    let (m', ran, out) =
      format_from-ok text args room str (str + length xs) pos words f fuel m 0 str format more i
        (omega arith) (omega arith) in
    let s = Written-IsString m' str xs out.written (out.end clear) none in
    let counted = strlen_lem fuel m' str xs (λ z. omega (arith, z, pos)) s long in
    (m', rw (ran, counted) refl, s, λ q far. out.same q far)
