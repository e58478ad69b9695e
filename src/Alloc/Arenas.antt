-- ===== src/Alloc/Arenas.antt =====
-- The arenas of kernel/memory.c: a page cut into blocks of one size, behind a header of
-- sizeof(struct arena) = 12 bytes on the i386.
use geniux.Base.{
  ℕ, zero, suc, ◌+◌, ◌-◌, ◌*◌, ◌/◌, ◌%◌, ◌^◌, ◌<◌, ◌≤◌, ◌≡◌, ◌⊎◌, inl, inr, refl, arith, List, [],
  ◌∷◌, leb, if◌then◌else◌, dec_lt, ℕ_discrete, true, false, subst, sym,
}
use native.Mathlib.Nat.{div-mul-le_self}

pub record BlockDesc : Type 0 where
  pub block_size : ℕ
  pub block_per_arena : ℕ
  pub free_list : List ℕ

-- The loop of `block_desc_init`: `block_size` is a `uint16_t`.
unfoldable pub init_descs : ℕ → ℕ → List BlockDesc
init_descs zero block_size = []
init_descs (suc left) block_size =
    record { block_size = block_size; block_per_arena = (4096 - 12) / block_size; free_list = [] }
    ∷ init_descs left (block_size * 2 % 2 ^ 16)

unfoldable pub block_desc_init : List BlockDesc
unfolding init_descs
block_desc_init = init_descs 7 16

unfoldable pub arena2block : ℕ → BlockDesc → ℕ → ℕ
arena2block a desc idx = (a + 12 + idx * desc.block_size) % 2 ^ 32

unfoldable pub block2arena : ℕ → ℕ
block2arena b = b / 2 ^ 12 * 2 ^ 12

-- The loop of `sys_malloc` over the classes from `idx` on: the first one that a request fits; `left`
-- classes are still to be tried.
unfoldable pub find_idx : ℕ → (ℕ → BlockDesc) → ℕ → ℕ → ℕ
find_idx zero descs size idx = idx
find_idx (suc left) descs size idx =
    let rest = find_idx left descs size (idx + 1) in
    if leb size (descs idx).block_size then idx else rest

-- A class that the request fits, behind classes that it does not fit, is the one that is found.
pub find_idx-first :
    (left : ℕ) (descs : ℕ → BlockDesc) (size idx i : ℕ)
    → idx ≤ i
    → i < idx + left
    → size ≤ (descs i).block_size
    → ((j : ℕ) → idx ≤ j → j < i → (descs j).block_size < size)
    → find_idx left descs size idx ≡ i
unfolding find_idx
find_idx-first zero descs size idx i lo hi fits small = absurd (omega (arith, lo, hi))
find_idx-first (suc left) descs size idx i lo hi fits small = elim (ℕ_discrete idx i) [
  | yes e ↦
      let t : leb size (descs idx).block_size ≡ true =
        ground (arith, subst (λ (k : ℕ). size ≤ (descs k).block_size) (sym e) fits) in
      rw t e
  | no ne ↦
      let t : leb size (descs idx).block_size ≡ false =
        ground (arith, small idx (omega arith) (omega (arith, lo, ne))) in
      rw t (
        find_idx-first left descs size (idx + 1) i (omega (arith, lo, ne)) (omega (arith, hi)) fits
          (λ j above. small j (omega (arith, above))))
]

mul_mono : (c i j : ℕ) → i ≤ j → i * c ≤ j * c
mul_mono zero i j h = omega arith
mul_mono (suc c) i j h = omega (arith, mul_mono c i j h)

-- In an arena at `a` every block lies inside the page, behind the header, its arena is found from
-- its address, and no two blocks overlap.
abbrev pub Blocks : ℕ → BlockDesc → Type 0
Blocks a d =
    (i : ℕ)
    → i < d.block_per_arena
    → (a + 12 ≤ arena2block a d i)
      × (arena2block a d i + d.block_size ≤ a + 4096)
      × (block2arena (arena2block a d i) ≡ a)
      × ((j : ℕ)
          → i < j
          → j < d.block_per_arena
          → arena2block a d i + d.block_size ≤ arena2block a d j)

blocks_lem :
    (a : ℕ) (d : BlockDesc)
    → a % 4096 ≡ 0
    → a + 4096 ≤ 2 ^ 32
    → 0 < d.block_size
    → 12 + d.block_per_arena * d.block_size ≤ 4096
    → Blocks a d
unfolding arena2block block2arena
blocks_lem a d page at pos fits i lt =
    let c = d.block_size in
    let last : (i + 1) * c ≤ d.block_per_arena * c =
      mul_mono c (i + 1) d.block_per_arena (omega arith) in
    let next : (i + 1) * c ≡ i * c + c = omega arith in
    (
      omega (arith, last, next),
      omega (arith, last, next),
      omega (arith, last, next),
      λ j after inside. omega (
        arith,
        last,
        next,
        mul_mono c (i + 1) j (omega arith),
        mul_mono c j d.block_per_arena (omega arith),
        mul_mono c (j + 1) d.block_per_arena (omega arith),
      ),
    )

-- A table that `block_desc_init` has set up.
unfoldable pub AreClasses : List BlockDesc → ℕ → (ℕ → BlockDesc) → Type 0
AreClasses [] i descs = Unit
AreClasses (d ∷ ds) i descs =
    ((descs i).block_size ≡ d.block_size)
    × ((descs i).block_per_arena ≡ d.block_per_arena)
    × AreClasses ds (i + 1) descs

-- What is said of the class that a request gets.
abbrev pub IsClass : ℕ → ℕ → (ℕ → BlockDesc) → ℕ → Type 0
IsClass size a descs k =
    (size ≤ (descs k).block_size)
    × (((descs k).block_size < 2 * size) ⊎ ((descs k).block_size ≡ 16))
    × ((j : ℕ) → j < k → (descs j).block_size < size)
    × Blocks a (descs k)

-- The size of the last of `left + 1` classes.
reach : ℕ → ℕ → ℕ
reach zero c = c
reach (suc left) c = reach left (c * 2)

part : (c : ℕ) → 0 < c → 12 + (4096 - 12) / c * c ≤ 4096
part c pos = omega (arith, div-mul-le_self 4084 c)

-- The classes before the next one are too small, and the search goes on.
smaller :
    (i c size : ℕ) (descs : ℕ → BlockDesc)
    → (descs i).block_size ≡ c
    → c < size
    → ((j : ℕ) → j < i → (descs j).block_size < size)
    → (j : ℕ) → j < i + 1
    → (descs j).block_size < size
smaller i c size descs is more before j lt = elim (ℕ_discrete j i) [
  | yes e ↦ subst (λ (n : ℕ). (descs n).block_size < size) (sym e) (omega (arith, is, more))
  | no ne ↦ before j (omega (arith, lt, ne))
]

skip :
    (left i size : ℕ) (descs : ℕ → BlockDesc) (k : ℕ)
    → leb size (descs i).block_size ≡ false
    → find_idx left descs size (i + 1) ≡ k
    → find_idx (suc left) descs size i ≡ k
unfolding find_idx
skip left i size descs k t found = rw t found

-- The first of the classes fits.
here-IsClass :
    (left i c size a : ℕ) (descs : ℕ → BlockDesc)
    → (descs i).block_size ≡ c
    → (descs i).block_per_arena ≡ (4096 - 12) / c
    → 0 < c
    → size ≤ c
    → (c < 2 * size) ⊎ (c ≡ 16)
    → ((j : ℕ) → j < i → (descs j).block_size < size)
    → a % 4096 ≡ 0
    → a + 4096 ≤ 2 ^ 32
    → (k : ℕ) × (find_idx (suc left) descs size i ≡ k) × (k < i + suc left) × IsClass size a descs k
here-IsClass left i c size a descs is many pos here tight before page at =
    let fits : size ≤ (descs i).block_size = omega (arith, is, here) in
    (
      i,
      find_idx-first (suc left) descs size i i (omega arith) (omega arith) fits
          (λ j lo hi. absurd (omega (arith, lo, hi))),
      omega arith,
      (
        fits,
        omega (arith, is, tight),
        before,
        blocks_lem a (descs i) page at (omega (arith, is, pos)) (rw (is, many) (part c pos)),
      ),
    )

-- The classes from `i` on, of which the first has the size `c`.
search :
    (left i c size a : ℕ) (descs : ℕ → BlockDesc)
    → AreClasses (init_descs (suc left) c) i descs
    → 0 < c
    → size ≤ 1024
    → size ≤ reach left c
    → (c < 2 * size) ⊎ (c ≡ 16)
    → ((j : ℕ) → j < i → (descs j).block_size < size)
    → a % 4096 ≡ 0
    → a + 4096 ≤ 2 ^ 32
    → (k : ℕ) × (find_idx (suc left) descs size i ≡ k) × (k < i + suc left) × IsClass size a descs k
unfolding init_descs reach AreClasses
search zero i c size a descs h pos small fits tight before page at =
    here-IsClass zero i c size a descs h.0 h.1 pos fits tight before page at
search (suc left) i c size a descs h pos small fits tight before page at = elim (dec_lt c size) [
  | no here ↦
      here-IsClass (suc left) i c size a descs h.0 h.1 pos (omega (arith, here)) tight before page
        at
  | yes more ↦
      let whole : c * 2 % 2 ^ 16 ≡ c * 2 = omega (arith, more, small) in
      let next : AreClasses (init_descs (suc left) (c * 2)) (i + 1) descs =
        subst (λ (n : ℕ). AreClasses (init_descs (suc left) n) (i + 1) descs) whole h.2 in
      let (k, found, inside, class) =
        search left (i + 1) (c * 2) size a descs next (omega (arith, pos)) small fits
          (inl (omega (arith, more))) (λ j lt. smaller i c size descs h.0 more before j lt) page
          at in
      let t : leb size (descs i).block_size ≡ false = ground (arith, h.0, more) in
      (k, skip (suc left) i size descs k t found, omega (arith, inside), class)
]

-- A request of 1 to 1024 bytes, in a table of classes that `block_desc_init` has set up: the class
-- that `sys_malloc` looks up is the first one that the request fits, of less than twice its size or
-- the smallest one; and in an arena of that class at a page of memory every block lies inside the
-- page, behind the header, its arena is found from its address, and no two blocks overlap.
pub find_idx_lem :
    (size a : ℕ) (descs : ℕ → BlockDesc)
    → AreClasses block_desc_init 0 descs
    → 0 < size
    → size ≤ 1024
    → a % 4096 ≡ 0
    → a + 4096 ≤ 2 ^ 32
    → (k : ℕ) × (find_idx 7 descs size 0 ≡ k) × (k < 7) × IsClass size a descs k
unfolding block_desc_init reach
find_idx_lem size a descs h pos small page at =
    search 6 0 16 size a descs h (omega arith) small (omega (arith, small)) (inr refl)
      (λ j lt. absurd (omega (arith, lt))) page at
