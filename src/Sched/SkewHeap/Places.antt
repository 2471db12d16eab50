-- ===== src/Sched/SkewHeap/Places.antt =====
-- `skew_heap_remove` of lab8/libs/skew_heap.h: the place of an entry, and its parent.
use mathlib.Core.Path.{subst}
use os.Base.{ℕ, ◌+◌, ◌≤◌, ◌<◌, ◌≡◌, ◌≢◌, ◌⊎◌, inl, inr, refl, sym, arith, Bool-cases, ◌==◌, ==_iff}
use os.Sched.SkewHeap.{SkewHeap, null, node}
use os.Sched.SkewHeap.Content.{count}
use os.Sched.SkewHeap.Pointers.{Entries, Holds, size}

-- The entry `b` stands in the tree, with these subtrees.
pub data IsAt (b : ℕ) (bl br : SkewHeap) : SkewHeap → Type 0 where
  here : IsAt b bl br (node b bl br)
  in_left : (a : ℕ) (l r : SkewHeap) → IsAt b bl br l → IsAt b bl br (node a l r)
  in_right : (a : ℕ) (l r : SkewHeap) → IsAt b bl br r → IsAt b bl br (node a l r)

pub find-IsAt :
    (t : SkewHeap) (b : ℕ) → 0 < count b t → (bl : SkewHeap) × (br : SkewHeap) × IsAt b bl br t
find-IsAt null b lt = absurd (omega (arith, lt))
find-IsAt (node a l r) b lt = elim (Bool-cases (a == b)) [
  | inl hit ↦
      let e = (==_iff a b).0 hit in
      subst (λ c. (bl : SkewHeap) × (br : SkewHeap) × IsAt c bl br (node a l r)) e (l, r, here)
  | inr miss ↦ elim (Bool-cases (count b l == 0)) [
    | inl none_left ↦
        let (bl, br, i) = find-IsAt r b (ground (arith, lt, miss, none_left)) in
        (bl, br, in_right a l r i)
    | inr some_left ↦
        let (bl, br, i) = find-IsAt l b (ground (arith, some_left)) in (bl, br, in_left a l r i)
  ]
]

pub count-at :
    (b : ℕ) (bl br t : SkewHeap) (x : ℕ) → IsAt b bl br t → count x (node b bl br) ≤ count x t
count-at b bl br t x here = omega arith
count-at b bl br t x (in_left a l r i) = ground (arith, count-at b bl br l x i)
count-at b bl br t x (in_right a l r i) = ground (arith, count-at b bl br r x i)

pub size-at : (b : ℕ) (bl br t : SkewHeap) → IsAt b bl br t → size (node b bl br) ≤ size t
size-at b bl br t here = omega arith
size-at b bl br t (in_left a l r i) = omega (arith, size-at b bl br l i)
size-at b bl br t (in_right a l r i) = omega (arith, size-at b bl br r i)

module _ (s : Entries) (b : ℕ) (bl br : SkewHeap) where
  pub at-Holds :
      (t : SkewHeap) (q c : ℕ)
      → IsAt b bl br t
      → Holds s q c t
      → Holds s (s.parent b) b (node b bl br)
  at-Holds t q c here (at, ne, up, hl, hr) = (refl, ne, refl, hl, hr)
  at-Holds t q c (in_left a l r i) (at, ne, up, hl, hr) = at-Holds l a (s.left a) i hl
  at-Holds t q c (in_right a l r i) (at, ne, up, hl, hr) = at-Holds r a (s.right a) i hr

  -- It is the root, or the root is another.
  pub root_cases :
      (t : SkewHeap) (q c : ℕ)
      → IsAt b bl br t
      → Holds s q c t
      → ((x : ℕ) → count x t ≤ 1)
      → ((t ≡ node b bl br) × (c ≡ b) × (s.parent b ≡ q)) ⊎ (c ≢ b)
  root_cases t q c here (at, ne, up, hl, hr) once = inl (refl, at, up)
  root_cases t q c (in_left a l r i) (at, ne, up, hl, hr) once =
      inr (λ e. ground (arith, once b, count-at b bl br l b i, at, e))
  root_cases t q c (in_right a l r i) (at, ne, up, hl, hr) once =
      inr (λ e. ground (arith, once b, count-at b bl br r b i, at, e))

  -- The parent of an entry that is not the root stands in the tree, and not below the entry.
  abbrev ParentIn : SkewHeap → Type 0
  ParentIn t = (0 < count (s.parent b) t) × (count (s.parent b) (node b bl br) ≡ 0)

  direct :
      (a : ℕ) (l r x : SkewHeap)
      → s.parent b ≡ a
      → x ≡ node b bl br
      → ((y : ℕ) → count y x ≤ count y l + count y r)
      → ((y : ℕ) → count y (node a l r) ≤ 1)
      → ParentIn (node a l r)
  direct a l r x up same sub once =
      let gone : count a (node b bl br) ≡ 0 =
        subst (λ z. count a z ≡ 0) same (ground (arith, sub a, once a)) in
      subst (λ z. (0 < count z (node a l r)) × (count z (node b bl br) ≡ 0)) (sym up)
        (ground arith, gone)

  pub parent_in :
      (t : SkewHeap) (q c : ℕ)
      → IsAt b bl br t
      → Holds s q c t
      → ((x : ℕ) → count x t ≤ 1)
      → c ≢ b
      → ParentIn t
  parent_in t q c here (at, ne, up, hl, hr) once other = absurd (other at)
  parent_in t q c (in_left a l r i) (at, ne, up, hl, hr) once other =
      elim (root_cases l a (s.left a) i hl (λ x. ground (arith, once x))) [
        | inl (same, at_root, up_root) ↦ direct a l r l up_root same (λ y. omega arith) once
        | inr differs ↦
            let (lt, out) = parent_in l a (s.left a) i hl (λ x. ground (arith, once x)) differs in
            (ground (arith, lt), out)
      ]
  parent_in t q c (in_right a l r i) (at, ne, up, hl, hr) once other =
      elim (root_cases r a (s.right a) i hr (λ x. ground (arith, once x))) [
        | inl (same, at_root, up_root) ↦ direct a l r r up_root same (λ y. omega arith) once
        | inr differs ↦
            let (lt, out) = parent_in r a (s.right a) i hr (λ x. ground (arith, once x)) differs in
            (ground (arith, lt), out)
      ]
