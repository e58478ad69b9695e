-- ===== src/Links/Remove.antt =====
-- `remove` of lib/kernel/list.c takes an element out of its chain.
use geniux.Base.{
  ℕ, ◌≡◌, ◌≢◌, ◌∙◌, sym, false, ◌==◌, arith, List, [], ◌∷◌, ◌++◌, elem, if◌then◌else◌,
}
use geniux.Interrupt.{restore}
use geniux.Links.{Links, remove}
use geniux.Links.Chain.{
  Chain, Chain-prev, Chain-next, Chain-split, Chain-same, Nodup, last, last-ne, first-ne,
  Nodup-middle, not-elem-left, not-elem-right,
}

remove-next :
    (s : Links) (e a : ℕ) → (remove s e).next a ≡ (if s.prev e == a then s.next e else s.next a)
unfolding remove
remove-next s e a = ground arith

-- `e` must not link to itself: its `next` field is read again after the first write.
remove-prev :
    (s : Links) (e a : ℕ)
    → s.prev e ≢ e
    → (remove s e).prev a ≡ (if s.next e == a then s.prev e else s.prev a)
unfolding remove
remove-prev s e a ne = ground arith

pub remove-intr : (s : Links) (e : ℕ) → (remove s e).intr ≡ s.intr
unfolding remove
remove-intr s e = restore s.intr

-- The element stands first.
remove-head :
    (s : Links) (p e : ℕ) (ys : List ℕ) (q : ℕ)
    → Chain s p (e ∷ ys) q
    → elem q (p ∷ e ∷ ys) ≡ false
    → Nodup (p ∷ e ∷ ys)
    → Chain (remove s e) p ys q
remove-head s p e [] q c end d =
    (ground (arith, remove-next s e p), ground (arith, remove-prev s e q))
remove-head s p e (y ∷ ys) q c end d = (
  ground (arith, remove-next s e p),
  ground (arith, remove-prev s e y),
  Chain-same s (remove s e) y ys q c.2.2 (λ a h. ground (arith, remove-next s e a))
      (λ a h. ground (arith, remove-prev s e a)),
)

pub remove-Chain :
    (s : Links) (p e : ℕ) (xs ys : List ℕ) (q : ℕ)
    → Chain s p (xs ++ e ∷ ys) q
    → elem q (p ∷ xs ++ e ∷ ys) ≡ false
    → Nodup (p ∷ xs ++ e ∷ ys)
    → Chain (remove s e) p (xs ++ ys) q
remove-Chain s p e [] ys q c end d = remove-head s p e ys q c end d
remove-Chain s p e (x ∷ xs) ys q c end d =
    let halves = Chain-split s x e xs ys q c.2 in
    let e_out : elem e (x ∷ xs) ≡ false = Nodup-middle e (x ∷ xs) ys d.1 in
    let before : s.prev e ≡ last x xs = Chain-prev s x xs e halves.0 in
    let back : s.prev e ≢ e = λ k. last-ne e x xs e_out (sym k ∙ before) in
    let p_out : elem p (x ∷ xs) ≡ false = not-elem-left p (x ∷ xs) (e ∷ ys) d.0 in
    let x_out : elem x (e ∷ ys) ≡ false = not-elem-right x xs (e ∷ ys) d.1.0 in
    (
      ground (arith, remove-next s e p, before, last-ne p x xs p_out),
      ground (
        arith,
        remove-prev s e x back,
        Chain-next s e ys q halves.1,
        first-ne x q ys (ground arith),
      ),
      remove-Chain s x e xs ys q c.2 (ground arith) d.1,
    )

-- A chain that `remove` does not touch: neither neighbour of `e` is on it.
pub remove-same :
    (s : Links) (p : ℕ) (xs : List ℕ) (q e : ℕ)
    → s.prev e ≢ e
    → Chain s p xs q
    → elem (s.prev e) (p ∷ xs) ≡ false
    → elem (s.next e) (q ∷ xs) ≡ false
    → Chain (remove s e) p xs q
remove-same s p xs q e ne c out_p out_n =
    Chain-same s (remove s e) p xs q c (λ a h. ground (arith, remove-next s e a))
      (λ a h. ground (arith, remove-prev s e a ne))
