-- ===== src/Heap/Arena.antt =====
-- The free list of lab8/kern/mm/kmalloc.c: a ring of blocks in the order of their addresses.
use os.Base.{ℕ, ◌≤◌, ◌<◌, ◌≡◌, ◌⊎◌, ◌↔◌, inl, inr, refl, List, [], ◌∷◌, ◌++◌, arith, ==_ne, ==_refl}
use os.Links.{store}
use os.Links.Chain.{NotIn, Fwd, Fwd-store}
use os.Heap.{Heap, offset}

-- Blocks of at least one unit from `a` up to `b`, none reaching into the next.
abbrev pub Seg : (ℕ → ℕ) → ℕ → List ℕ → ℕ → Type 0
Seg u a [] b = a ≤ b
Seg u a (x ∷ xs) b = (a ≤ x) × (0 < u x) × Seg u (offset x (u x)) xs b

-- The free list from `s` on: `hi` are the blocks above `s` and `lo` those below.
pub record IsArena (h : Heap) (top : ℕ) (lo : List ℕ) (s : ℕ) (hi : List ℕ) : Type 0 where
  pub ordered : Seg h.units 1 (lo ++ s ∷ hi) top
  pub ring : Fwd h.next s (hi ++ lo) s

-- The byte `q` is in one of the blocks.
abbrev pub Covers : (ℕ → ℕ) → List ℕ → ℕ → Type 0
Covers u [] q = ⊥
Covers u (x ∷ xs) q = ((x ≤ q) × (q < offset x (u x))) ⊎ Covers u xs q

abbrev pub Within : ℕ → ℕ → ℕ → Type 0
Within b n q = (b ≤ q) × (q < offset b n)

pub Seg-bounds : (u : ℕ → ℕ) (a : ℕ) (xs : List ℕ) (b : ℕ) → Seg u a xs b → a ≤ b
Seg-bounds u a [] b s = s
Seg-bounds u a (x ∷ xs) b (le, pos, s) = omega (arith, Seg-bounds u (offset x (u x)) xs b s)

pub Seg-split :
    (u : ℕ → ℕ) (a : ℕ) (xs ys : List ℕ) (b : ℕ)
    → Seg u a (xs ++ ys) b
    → (m : ℕ) × Seg u a xs m × Seg u m ys b
Seg-split u a [] ys b s = (a, omega arith, s)
Seg-split u a (x ∷ xs) ys b (le, pos, s) =
    let (m, left, right) = Seg-split u (offset x (u x)) xs ys b s in (m, (le, pos, left), right)

pub Seg-join :
    (u : ℕ → ℕ) (a : ℕ) (xs : List ℕ) (m : ℕ) (ys : List ℕ) (b : ℕ)
    → Seg u a xs m
    → Seg u m ys b
    → Seg u a (xs ++ ys) b
Seg-join u a [] m [] b s t = omega arith
Seg-join u a [] m (y ∷ ys) b s (le, pos, t) = (omega arith, pos, t)
Seg-join u a (x ∷ xs) m ys b (le, pos, s) t = (le, pos, Seg-join u (offset x (u x)) xs m ys b s t)

-- An address outside the bounds is none of the blocks.
pub Seg-below : (u : ℕ → ℕ) (a : ℕ) (xs : List ℕ) (b p : ℕ) → Seg u a xs b → p < a → NotIn p xs
Seg-below u a [] b p s lt = tt
Seg-below u a (x ∷ xs) b p (le, pos, s) lt =
    (λ e. omega arith, Seg-below u (offset x (u x)) xs b p s (omega arith))

pub Seg-above : (u : ℕ → ℕ) (a : ℕ) (xs : List ℕ) (b p : ℕ) → Seg u a xs b → b ≤ p → NotIn p xs
Seg-above u a [] b p s le = tt
Seg-above u a (x ∷ xs) b p (ge, pos, s) le = (
  λ e. omega (arith, Seg-bounds u (offset x (u x)) xs b s),
  Seg-above u (offset x (u x)) xs b p s le,
)

-- A write to a block that is none of these.
pub Seg-store :
    (u : ℕ → ℕ) (p v a : ℕ) (xs : List ℕ) (b : ℕ)
    → NotIn p xs
    → Seg u a xs b
    → Seg (store u p v) a xs b
Seg-store u p v a [] b n s = s
Seg-store u p v a (x ∷ xs) b (n, ns) (le, pos, s) =
    rw (==_ne p x n) (le, pos, Seg-store u p v (offset x (u x)) xs b ns s)

pub Covers-store :
    (u : ℕ → ℕ) (p v : ℕ) (xs : List ℕ) (q : ℕ)
    → NotIn p xs
    → Covers (store u p v) xs q ≡ Covers u xs q
Covers-store u p v [] q n = refl
Covers-store u p v (x ∷ xs) q (n, ns) = rw (==_ne p x n, Covers-store u p v xs q ns) refl

pub Covers-append :
    (u : ℕ → ℕ) (xs ys : List ℕ) (q : ℕ) → Covers u (xs ++ ys) q ↔ (Covers u xs q ⊎ Covers u ys q)
Covers-append u [] ys q = (λ c. inr c, λ c. elim c [ inl x ↦ absurd x | inr y ↦ y ])
Covers-append u (x ∷ xs) ys q = (
  λ c. elim c [
    | inl here ↦ inl (inl here)
    | inr rest ↦ elim ((Covers-append u xs ys q).0 rest) [ inl l ↦ inl (inr l) | inr r ↦ inr r ]
  ],
  λ c. elim c [
    | inl l ↦ elim l [
      | inl here ↦ inl here
      | inr rest ↦ inr ((Covers-append u xs ys q).1 (inl rest))
    ]
    | inr r ↦ inr ((Covers-append u xs ys q).1 (inr r))
  ],
)

-- A block `b` that takes over the successor of `a`.
pub Fwd-start :
    (f : ℕ → ℕ) (a b : ℕ) (xs : List ℕ) (e : ℕ)
    → NotIn b xs
    → Fwd f a xs e
    → Fwd (store f b (f a)) b xs e
Fwd-start f a b [] e n w = rw (==_refl b) w
Fwd-start f a b (x ∷ xs) e (n, ns) (w, ws) = (rw (==_refl b) w, Fwd-store f b (f a) x xs e n ns ws)
