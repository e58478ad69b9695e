-- ===== src/Links/Refine.antt =====
-- The lists of lib/kernel/list.c refine sequences of elements.
use geniux.Base.{
  ℕ, ◌^◌, ◌<◌, ◌≡◌, refl, sym, ap, ◌∙◌, Bool, false, ◌==◌, arith, List, [], ◌∷◌, ◌++◌, elem,
  elem-append, length, ok, panic, subst,
}
use geniux.Links.{
  Links, tail, list_init, push, append, remove, pop, empty, len, traversal, find, insert,
}
use geniux.Links.Chain.{Chain, Nodup, Nodup-snoc, Nodup-without, elem-without}
use geniux.Links.Insert.{insert-Chain, insert-same, insert-intr}
use geniux.Links.Remove.{remove-Chain, remove-intr}
use geniux.Links.Walk.{len_from-ok, find_from-ok, traverse_from-ok, first_match}

-- The list at `l` holds the elements `xs`, in order.
pub record IsList (s : Links) (l : ℕ) (xs : List ℕ) : Type 0 where
  pub chain : Chain s l xs (tail l)
  pub distinct : Nodup (l ∷ xs)
  pub end : elem (tail l) xs ≡ false

-- The element is neither on the list nor one of its guards.
abbrev pub IsNew : ℕ → ℕ → List ℕ → Type 0
IsNew e l xs = elem e (tail l ∷ l ∷ xs) ≡ false

-- `list_init` makes an empty list, whatever stood there.
pub list_init-IsList : (s : Links) (l : ℕ) → IsList (list_init s l) l []
unfolding list_init
list_init-IsList s l = ground arith

pub push-insert : (s : Links) (l e x : ℕ) → s.next l ≡ x → push s l e ≡ insert s x e
unfolding push
push-insert s l e x h = ap (λ k. insert s k e) h

pub append-insert : (s : Links) (l e : ℕ) → append s l e ≡ insert s (tail l) e
unfolding append
append-insert s l e = refl

push-Chain :
    (s : Links) (l e : ℕ) (xs : List ℕ)
    → IsList s l xs
    → IsNew e l xs
    → Chain (push s l e) l (e ∷ xs) (tail l)
push-Chain s l e [] h new =
    subst (λ t. Chain t l (e ∷ []) (tail l)) (sym (push-insert s l e (tail l) h.chain.0))
      (insert-Chain s l [] (tail l) e h.chain (ground arith) refl h.distinct)
push-Chain s l e (x ∷ xs) h new =
    let c = h.chain in
    let d = h.distinct in
    let end = h.end in
    let front = insert-Chain s l [] x e (c.0, c.1) (ground arith) refl (refl, tt) in
    let rest =
      insert-same s x xs (tail l) x e (ground arith) c.2 (ground arith) (ground arith)
        (ground arith) in
    subst (λ t. Chain t l (e ∷ x ∷ xs) (tail l)) (sym (push-insert s l e x c.0))
      (front.0, front.1, (front.2.0, front.2.1, rest))

-- On a list that holds `xs`, `push` of a new element gives one that holds it in front of `xs`, and
-- leaves the interrupt flag.
pub push-IsList :
    (s : Links) (l e : ℕ) (xs : List ℕ)
    → IsList s l xs
    → IsNew e l xs
    → IsList (push s l e) l (e ∷ xs) × ((push s l e).intr ≡ s.intr)
push-IsList s l e xs h new =
    let d = h.distinct in
    let end = h.end in
    (
      record {
        chain = push-Chain s l e xs h new;
        distinct = (ground arith, (ground arith, d.1));
        end = ground arith;
      },
      ap (λ t. t.intr) (push-insert s l e (s.next l) refl) ∙ insert-intr s (s.next l) e,
    )

-- On a list that holds `xs`, `append` of a new element gives one that holds it behind `xs`, and
-- leaves the interrupt flag.
pub append-IsList :
    (s : Links) (l e : ℕ) (xs : List ℕ)
    → IsList s l xs
    → IsNew e l xs
    → IsList (append s l e) l (xs ++ e ∷ []) × ((append s l e).intr ≡ s.intr)
append-IsList s l e xs h new =
    let d = h.distinct in
    let end = h.end in
    (
      record {
        chain =
            subst (λ t. Chain t l (xs ++ e ∷ []) (tail l)) (sym (append-insert s l e))
              (insert-Chain s l xs (tail l) e h.chain (ground arith) end d);
        distinct = Nodup-snoc (l ∷ xs) e d (ground arith);
        end = ground (arith, elem-append (tail l) xs (e ∷ []));
      },
      ap (λ t. t.intr) (append-insert s l e) ∙ insert-intr s (tail l) e,
    )

-- On a list that holds `e` between `xs` and `ys`, `remove` of `e` leaves `xs` and `ys`, and the
-- interrupt flag.
pub remove-IsList :
    (s : Links) (l e : ℕ) (xs ys : List ℕ)
    → IsList s l (xs ++ e ∷ ys)
    → IsList (remove s e) l (xs ++ ys) × ((remove s e).intr ≡ s.intr)
remove-IsList s l e xs ys h =
    let d = h.distinct in
    let end = h.end in
    (
      record {
        chain = remove-Chain s l e xs ys (tail l) h.chain (ground arith) d;
        distinct = Nodup-without e (l ∷ xs) ys d;
        end = elem-without (tail l) e xs ys end;
      },
      remove-intr s e,
    )

-- On a list that holds `x` in front of `xs`, `pop` succeeds: it returns `x`, and leaves `xs` and the
-- interrupt flag.
pub pop-cons :
    (s : Links) (l x : ℕ) (xs : List ℕ)
    → IsList s l (x ∷ xs)
    → (t : Links) × (pop s l ≡ ok (x, t)) × IsList t l xs × (t.intr ≡ s.intr)
unfolding pop
pop-cons s l x xs h =
    let r = remove-IsList s l x [] xs h in
    let end = h.end in (remove s x, ground (arith, h.chain.0), r.0, r.1)

-- On an empty list the ASSERT of `pop` fails.
pub pop-nil : (s : Links) (l : ℕ) → IsList s l [] → pop s l ≡ panic
unfolding pop
pop-nil s l h = ground (arith, h.chain.0)

empty-ok : (s : Links) (l : ℕ) (xs : List ℕ) → IsList s l xs → empty s l ≡ (length xs == 0)
unfolding empty
empty-ok s l [] h = ground (arith, h.chain.0)
empty-ok s l (x ∷ xs) h = let end = h.end in ground (arith, h.chain.0)

traversal-ok :
    (fuel : ℕ) (s : Links) (l : ℕ) (func : ℕ → ℕ → Bool) (arg : ℕ) (xs : List ℕ)
    → IsList s l xs
    → length xs < fuel
    → traversal fuel s l func arg ≡ ok (first_match func arg xs)
unfolding traversal first_match
traversal-ok fuel s l func arg [] h enough =
    ground (arith, empty-ok s l [] h, traverse_from-ok s l fuel l arg func [] h.chain h.end enough)
traversal-ok fuel s l func arg (x ∷ xs) h enough = ground (
  arith,
  empty-ok s l (x ∷ xs) h,
  traverse_from-ok s l fuel l arg func (x ∷ xs) h.chain h.end enough,
)

-- On a list that holds `xs`, with fuel for its length: `empty`, `len` and `find` answer as for the
-- sequence `xs`, and `traversal` returns the first element that the test accepts.
pub queries_lem :
    (fuel : ℕ) (s : Links) (l : ℕ) (xs : List ℕ)
    → IsList s l xs
    → length xs < fuel
    → length xs < 2 ^ 32
    → (empty s l ≡ (length xs == 0))
      × (len fuel s l ≡ ok (length xs))
      × ((obj : ℕ) → find fuel s l obj ≡ ok (elem obj xs))
      × ((func : ℕ → ℕ → Bool) (arg : ℕ)
          → traversal fuel s l func arg ≡ ok (first_match func arg xs))
unfolding len find
queries_lem fuel s l xs h enough small = (
  empty-ok s l xs h,
  len_from-ok s l fuel l 0 xs h.chain h.end enough (omega arith) ∙ ap ok (omega arith),
  λ obj. find_from-ok s l fuel l obj xs h.chain h.end enough,
  λ func arg. traversal-ok fuel s l func arg xs h enough,
)
