-- ===== src/Links/Apart.antt =====
-- Several lists of lib/kernel/list.c stand in one memory: an operation on one keeps the others.
use geniux.Base.{ℕ, ◌≡◌, ◌≢◌, sym, true, false, arith, List, ◌∷◌, ◌++◌, elem, elem-append, subst}
use geniux.Links.{Links, tail, push, append, remove, insert}
use geniux.Links.Chain.{
  Chain, Chain-prev, Chain-next, Chain-split, last, elem-last, first, elem-first, Chain-back,
  Nodup-middle,
}
use geniux.Links.Insert.{insert-same}
use geniux.Links.Remove.{remove-same}
use geniux.Links.Refine.{IsList, push-insert, append-insert}

-- The elements and guards of a list.
abbrev pub cells : ℕ → List ℕ → List ℕ
cells l xs = tail l ∷ l ∷ xs

-- No element or guard of the one list is one of the other.
abbrev pub Apart : List ℕ → List ℕ → Type 0
Apart xs ys = (a : ℕ) → elem a xs ≡ true → elem a ys ≡ false

module _ (s : Links) (k : ℕ) (ys : List ℕ) (other : IsList s k ys) where
  insert-other :
      (b e : ℕ)
      → e ≢ b
      → elem e (cells k ys) ≡ false
      → elem b (cells k ys) ≡ false
      → elem (s.prev b) (cells k ys) ≡ false
      → IsList (insert s b e) k ys
  insert-other b e ne oe ob op = record {
    chain =
        insert-same s k ys (tail k) b e ne other.chain (ground arith) (ground arith) (ground arith);
    distinct = other.distinct;
    end = other.end;
  }

  module _ (l : ℕ) where
    -- Of two lists that share no element and no guard, `push` on the one, of an element that is new to
    -- both, keeps the other.
    pub push-other :
        (e : ℕ) (xs : List ℕ)
        → IsList s l xs
        → Apart (cells l xs) (cells k ys)
        → elem e (cells l xs) ≡ false
        → elem e (cells k ys) ≡ false
        → IsList (push s l e) k ys
    push-other e xs this apart new oe =
        let x = first xs (tail l) in
        let head : s.next l ≡ x = Chain-next s l xs (tail l) this.chain in
        let back : s.prev x ≡ l = Chain-back s l xs (tail l) this.chain in
        subst (λ t. IsList t k ys) (sym (push-insert s l e x head))
          (insert-other x e (ground (arith, elem-first xs (tail l))) oe
            (apart x (ground (arith, elem-first xs (tail l))))
            (apart (s.prev x) (ground (arith, back))))

    -- Of two lists that share no element and no guard, `append` on the one, of an element that is new
    -- to both, keeps the other.
    pub append-other :
        (e : ℕ) (xs : List ℕ)
        → IsList s l xs
        → Apart (cells l xs) (cells k ys)
        → elem e (cells l xs) ≡ false
        → elem e (cells k ys) ≡ false
        → IsList (append s l e) k ys
    append-other e xs this apart new oe =
        let back : s.prev (tail l) ≡ last l xs = Chain-prev s l xs (tail l) this.chain in
        subst (λ t. IsList t k ys) (sym (append-insert s l e))
          (insert-other (tail l) e (ground arith) oe (apart (tail l) (ground arith))
            (apart (s.prev (tail l)) (ground (arith, back, elem-last l xs))))

    -- Of two lists that share no element and no guard, `remove` of an element of the one keeps the
    -- other.
    pub remove-other :
        (e : ℕ) (us vs : List ℕ)
        → IsList s l (us ++ e ∷ vs)
        → Apart (cells l (us ++ e ∷ vs)) (cells k ys)
        → IsList (remove s e) k ys
    remove-other e us vs this apart = record {
      chain =
          remove-same s k ys (tail k) e back other.chain
            (ground (arith, apart (s.prev e) in_before))
            (ground (arith, apart (s.next e) in_after));
      distinct = other.distinct;
      end = other.end;
    }
      where
        halves : Chain s l us e × Chain s e vs (tail l)
        halves = Chain-split s l e us vs (tail l) this.chain

        before : s.prev e ≡ last l us
        before = Chain-prev s l us e halves.0

        after : s.next e ≡ first vs (tail l)
        after = Chain-next s e vs (tail l) halves.1

        back : s.prev e ≢ e
        back h = ground (arith, elem-last l us, Nodup-middle e (l ∷ us) vs this.distinct, before, h)

        in_before : elem (s.prev e) (cells l (us ++ e ∷ vs)) ≡ true
        in_before = ground (arith, before, elem-last l us, elem-append (last l us) us (e ∷ vs))

        in_after : elem (s.next e) (cells l (us ++ e ∷ vs)) ≡ true
        in_after =
            ground
              (arith, after, elem-first vs (tail l), elem-append (first vs (tail l)) us (e ∷ vs))
