-- ===== src/Links/Insert.antt =====
-- `insert` of lib/kernel/list.c puts an element before another.
use geniux.Base.{ℕ, ◌≡◌, ◌≢◌, false, ◌==◌, arith, List, [], ◌∷◌, ◌++◌, elem, if◌then◌else◌}
use geniux.Interrupt.{restore}
use geniux.Links.{Links, insert}
use geniux.Links.Chain.{Chain, Chain-prev, Chain-same, Nodup, last-ne}

-- What the four writes come to, for an element other than the one it goes before.
insert-next :
    (s : Links) (b e : ℕ)
    → e ≢ b
    → (a : ℕ)
    → (insert s b e).next a ≡ (if s.prev b == a then e else if e == a then b else s.next a)
unfolding insert
insert-next s b e ne a = ground arith

insert-prev :
    (s : Links) (b e : ℕ)
    → e ≢ b
    → (a : ℕ)
    → (insert s b e).prev a ≡ (if b == a then e else if e == a then s.prev b else s.prev a)
unfolding insert
insert-prev s b e ne a = ground arith

pub insert-intr : (s : Links) (b e : ℕ) → (insert s b e).intr ≡ s.intr
unfolding insert
insert-intr s b e = restore s.intr

pub insert-Chain :
    (s : Links) (p : ℕ) (xs : List ℕ) (b e : ℕ)
    → Chain s p xs b
    → elem e (b ∷ p ∷ xs) ≡ false
    → elem b xs ≡ false
    → Nodup (p ∷ xs)
    → Chain (insert s b e) p (xs ++ e ∷ []) b
insert-Chain s p [] b e c out end d = (
  ground (arith, insert-next s b e (ground arith) p),
  ground (arith, insert-prev s b e (ground arith) e),
  (
    ground (arith, insert-next s b e (ground arith) e),
    ground (arith, insert-prev s b e (ground arith) b),
  ),
)
insert-Chain s p (x ∷ xs) b e c out end d = (
  ground (arith, insert-next s b e (ground arith) p, Chain-prev s x xs b c.2, last-ne p x xs d.0),
  ground (arith, insert-prev s b e (ground arith) x),
  insert-Chain s x xs b e c.2 (ground arith) (ground arith) d.1,
)

-- A chain that `insert` does not touch: `e` is not on it, and the element before `b` is not on it.
pub insert-same :
    (s : Links) (p : ℕ) (xs : List ℕ) (q b e : ℕ)
    → e ≢ b
    → Chain s p xs q
    → elem e (q ∷ p ∷ xs) ≡ false
    → elem (s.prev b) (p ∷ xs) ≡ false
    → elem b (q ∷ xs) ≡ false
    → Chain (insert s b e) p xs q
insert-same s p xs q b e ne c out_e out_p out_b =
    Chain-same s (insert s b e) p xs q c (λ a h. ground (arith, insert-next s b e ne a))
      (λ a h. ground (arith, insert-prev s b e ne a))
