-- ===== src/Links/Chain.antt =====
-- Chains of links: the elements between two addresses, linked both ways.
use geniux.Base.{ℕ, ◌≡◌, ◌≢◌, refl, ◌∙◌, true, false, arith, List, [], ◌∷◌, ◌++◌, elem, elem-append}
use geniux.Links.{Links}

-- From `p` the `next` fields lead through `xs` to `q`, and the `prev` fields lead back.
abbrev pub Chain : Links → ℕ → List ℕ → ℕ → Type 0
Chain s p [] q = (s.next p ≡ q) × (s.prev q ≡ p)
Chain s p (x ∷ xs) q = (s.next p ≡ x) × (s.prev x ≡ p) × Chain s x xs q

abbrev pub Nodup : List ℕ → Type 0
Nodup [] = Unit {0}
Nodup (x ∷ xs) = (elem x xs ≡ false) × Nodup xs

-- The last of `p ∷ xs`, and the first of `xs` before `q`.
abbrev pub last : ℕ → List ℕ → ℕ
last p [] = p
last p (x ∷ xs) = last x xs

abbrev pub first : List ℕ → ℕ → ℕ
first [] q = q
first (x ∷ xs) q = x

pub elem-last : (p : ℕ) (xs : List ℕ) → elem (last p xs) (p ∷ xs) ≡ true
elem-last p [] = ground arith
elem-last p (x ∷ xs) = ground (arith, elem-last x xs)

pub last-ne : (a p : ℕ) (xs : List ℕ) → elem a (p ∷ xs) ≡ false → a ≢ last p xs
last-ne a p xs out e = ground (arith, elem-last p xs)

pub Chain-prev : (s : Links) (p : ℕ) (xs : List ℕ) (q : ℕ) → Chain s p xs q → s.prev q ≡ last p xs
Chain-prev s p [] q c = c.1
Chain-prev s p (x ∷ xs) q c = Chain-prev s x xs q c.2

pub Chain-next : (s : Links) (p : ℕ) (xs : List ℕ) (q : ℕ) → Chain s p xs q → s.next p ≡ first xs q
Chain-next s p [] q c = c.0
Chain-next s p (x ∷ xs) q c = c.0

-- A chain that passes through `e` is one up to it and one behind it.
pub Chain-split :
    (s : Links) (p e : ℕ) (xs ys : List ℕ) (q : ℕ)
    → Chain s p (xs ++ e ∷ ys) q
    → Chain s p xs e × Chain s e ys q
Chain-split s p e [] ys q c = ((c.0, c.1), c.2)
Chain-split s p e (x ∷ xs) ys q c = let r = Chain-split s x e xs ys q c.2 in ((c.0, c.1, r.0), r.1)

pub Chain-join :
    (s : Links) (p e : ℕ) (xs ys : List ℕ) (q : ℕ)
    → Chain s p xs e
    → Chain s e ys q
    → Chain s p (xs ++ e ∷ ys) q
Chain-join s p e [] ys q c d = (c.0, c.1, d)
Chain-join s p e (x ∷ xs) ys q c d = (c.0, c.1, Chain-join s x e xs ys q c.2 d)

-- A chain stays where the fields that it is made of stay.
pub Chain-same :
    (s t : Links) (p : ℕ) (xs : List ℕ) (q : ℕ)
    → Chain s p xs q
    → ((a : ℕ) → elem a (p ∷ xs) ≡ true → t.next a ≡ s.next a)
    → ((a : ℕ) → elem a (q ∷ xs) ≡ true → t.prev a ≡ s.prev a)
    → Chain t p xs q
Chain-same s t p [] q c n v = (n p (ground arith) ∙ c.0, v q (ground arith) ∙ c.1)
Chain-same s t p (x ∷ xs) q c n v = (
  n p (ground arith) ∙ c.0,
  v x (ground arith) ∙ c.1,
  Chain-same s t x xs q c.2 (λ a h. n a (ground arith)) (λ a h. v a (ground arith)),
)

pub first-ne : (a q : ℕ) (xs : List ℕ) → elem a (q ∷ xs) ≡ false → a ≢ first xs q
first-ne a q [] out e = ground (arith, e)
first-ne a q (x ∷ xs) out e = ground (arith, e)

pub not-elem-left : (a : ℕ) (xs ys : List ℕ) → elem a (xs ++ ys) ≡ false → elem a xs ≡ false
not-elem-left a xs ys out = ground (arith, elem-append a xs ys)

pub not-elem-right : (a : ℕ) (xs ys : List ℕ) → elem a (xs ++ ys) ≡ false → elem a ys ≡ false
not-elem-right a xs ys out = ground (arith, elem-append a xs ys)

pub Nodup-middle : (e : ℕ) (xs ys : List ℕ) → Nodup (xs ++ e ∷ ys) → elem e xs ≡ false
Nodup-middle e [] ys d = refl
Nodup-middle e (x ∷ xs) ys d =
    ground (arith, Nodup-middle e xs ys d.1, not-elem-right x xs (e ∷ ys) d.0)

-- Without its element, a list has no duplicates and no new members.
pub elem-without :
    (a e : ℕ) (xs ys : List ℕ) → elem a (xs ++ e ∷ ys) ≡ false → elem a (xs ++ ys) ≡ false
elem-without a e [] ys out = ground arith
elem-without a e (x ∷ xs) ys out = ground (arith, elem-without a e xs ys)

pub Nodup-without : (e : ℕ) (xs ys : List ℕ) → Nodup (xs ++ e ∷ ys) → Nodup (xs ++ ys)
Nodup-without e [] ys d = d.1
Nodup-without e (x ∷ xs) ys d = (elem-without x e xs ys d.0, Nodup-without e xs ys d.1)

pub Nodup-snoc : (xs : List ℕ) (e : ℕ) → Nodup xs → elem e xs ≡ false → Nodup (xs ++ e ∷ [])
Nodup-snoc [] e d out = (refl, tt)
Nodup-snoc (x ∷ xs) e d out =
    (ground (arith, elem-append x xs (e ∷ [])), Nodup-snoc xs e d.1 (ground arith))

pub elem-first : (xs : List ℕ) (q : ℕ) → elem (first xs q) (q ∷ xs) ≡ true
elem-first [] q = ground arith
elem-first (x ∷ xs) q = ground arith

pub Chain-back :
    (s : Links) (p : ℕ) (xs : List ℕ) (q : ℕ) → Chain s p xs q → s.prev (first xs q) ≡ p
Chain-back s p [] q c = c.1
Chain-back s p (x ∷ xs) q c = c.1
