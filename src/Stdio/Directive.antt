-- ===== src/Stdio/Directive.antt =====
-- What one directive of `vsprintf` of lib/stdio.c writes.
use geniux.Base.{
  ℕ, suc, ◌+◌, ◌%◌, ◌^◌, ◌<◌, ◌≤◌, ◌≡◌, ◌⊎◌, inl, inr, refl, ap, ◌∙◌, true, ◌==◌, arith, Mem, store,
  List, [], ◌∷◌, length, Bool-cases, subst, ==_iff, ==_refl,
}
use geniux.Str.Strings.{IsString, strcpy_lem, strlen_lem}
use geniux.Stdio.{format_from}
use geniux.Stdio.Digits.{Written}
use geniux.Stdio.Text.{digits, shown, is_directive}
use geniux.Stdio.Numbers.{Out, itoa-digits, Puts-Out, put_decimal-ok}
use geniux.Stdio.Format.{
  IsSource, IsString-apart, step-string, step-hexadecimal, step-decimal, step-character,
}

pub one_character : (m : Mem) (buf x : ℕ) → Out m buf (x ∷ []) (store m buf x)
unfolding Written
one_character m buf x = record {
  written = (rw (==_refl buf) refl, tt);
  same = λ q out. ground (arith, out);
  end = λ z. ground (arith, z);
}

string_end :
    (m : Mem) (p : ℕ) (xs : List ℕ) → IsString m p xs → Written m p xs × (m (p + length xs) ≡ 0)
unfolding Written
string_end m p [] s = (tt, ap m (omega arith) ∙ s)
string_end m p (x ∷ xs) s =
    let (w, e) = string_end m (p + 1) xs s.2 in ((s.0, w), ap m (omega arith) ∙ e)

module _ (text : ℕ → List ℕ) (args : ℕ → ℕ) (room lo hi : ℕ) (pos : 0 < lo)
    (words : (k : ℕ) → args k < 2 ^ 32) where
  string_piece :
      (fuel : ℕ) (m : Mem) (n buf index : ℕ)
      → room < fuel
      → m index ≡ 37
      → m (index + 1) ≡ 115
      → IsSource text args m room lo hi n
      → lo ≤ buf
      → buf + length (text n) ≤ hi
      → (m1 : Mem) × (format_from (suc fuel) m args n buf index
          ≡ format_from fuel m1 args (n + 1) (buf + length (text n)) (index + 2))
        × Out m buf (text n) m1
  string_piece fuel m n buf index more e at (live, s, apart, short) above under =
      let (m1, ran, copied, same) =
        strcpy_lem fuel m buf (args n) (text n) (λ z. omega (arith, z, pos, above)) live s
          (omega (arith, short, more)) (omega (arith, apart, above, under)) in
      let outside : (q : ℕ) → (q < buf) ⊎ (buf + length (text n) < q) → m1 q ≡ m q =
        λ q out. same q (ground (arith, out)) in
      let still : IsString m1 (args n) (text n) =
        IsString-apart m m1 lo hi (args n) (text n) apart
          (λ q out. outside q (omega (arith, out, above, under))) s in
      let (written, end) = string_end m1 buf (text n) copied in
      let long = strlen_lem fuel m1 (args n) (text n) live still (omega (arith, short, more)) in
      (
        m1,
        step-string fuel m args n buf index e at ∙ rw (ran, long) refl,
        record { written = written; same = outside; end = λ z. end },
      )

  -- A directive writes what stands for it.
  pub directive :
      (fuel : ℕ) (m : Mem) (n buf index d : ℕ)
      → room < fuel
      → m index ≡ 37
      → m (index + 1) ≡ d
      → is_directive d ≡ true
      → ((d == 115) ≡ true → IsSource text args m room lo hi n)
      → lo ≤ buf
      → buf + length (shown text args n d) ≤ hi
      → (m1 : Mem) × (format_from (suc fuel) m args n buf index
          ≡ format_from fuel m1 args (n + 1) (buf + length (shown text args n d)) (index + 2))
        × Out m buf (shown text args n d) m1
  unfolding is_directive
  directive fuel m n buf index d more e at known src above under = elim (Bool-cases (d == 115)) [
    | inl s ↦ rw s (
        string_piece fuel m n buf index more e (at ∙ (==_iff d 115).0 s) (src s) above
          (subst (λ (l : List ℕ). buf + length l ≤ hi) (rw s refl) under))
    | inr s ↦ elim (Bool-cases (d == 120)) [
      | inl x ↦
          let (m1, ran, w, same) =
            itoa-digits 16 9 m (args n) buf (inr refl) (omega (arith, words n)) in
          rw (s, x)
            (
              m1,
              step-hexadecimal fuel m args n buf index e (at ∙ (==_iff d 120).0 x) ∙ rw ran refl,
              Puts-Out m m1 buf (digits 10 16 (args n)) w same,
            )
      | inr x ↦ elim (Bool-cases (d == 100)) [
        | inl t ↦
            let (m1, ran, out) = put_decimal-ok m buf (args n) (words n) in
            rw (s, x, t)
              (
                m1,
                step-decimal fuel m args n buf index e (at ∙ (==_iff d 100).0 t) ∙ rw ran refl,
                out,
              )
        | inr t ↦
            let c : d ≡ 99 = ground (arith, known, s, x, t) in
            rw (s, x, t)
              (
                store m buf (args n % 256),
                step-character fuel m args n buf index e (at ∙ c),
                one_character m buf (args n % 256),
              )
      ]
    ]
  ]
