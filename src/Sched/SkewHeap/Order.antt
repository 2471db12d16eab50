-- ===== src/Sched/SkewHeap/Order.antt =====
-- The heap order: where the comparison is that of a key, the root has the least key.
use os.Base.{ℕ, ◌≤◌, ◌≡◌, true, false, arith, ◌==◌, ltb, Bool-cases, inl, inr}
use os.Sched.SkewHeap.{SkewHeap, null, node, Sign, is_minus_one, merge, insert, remove}

-- Every entry satisfies `P`.
abbrev pub AllIn {ℓ} : (ℕ → Type ℓ) → SkewHeap → Type ℓ
AllIn P null = Unit
AllIn P (node a l r) = P a × AllIn P l × AllIn P r

-- No entry's key is below its ancestors'.
abbrev pub IsHeap : (ℕ → ℕ) → SkewHeap → Type 0
IsHeap key null = Unit
IsHeap key (node a l r) =
    AllIn (λ x. key a ≤ key x) l × AllIn (λ x. key a ≤ key x) r × IsHeap key l × IsHeap key r

pub AllIn-map {ℓ κ} :
    {P : ℕ → Type ℓ} {Q : ℕ → Type κ} (a : SkewHeap) → ((x : ℕ) → P x → Q x) → AllIn P a → AllIn Q a
AllIn-map null f u = tt
AllIn-map (node a l r) f u = (f a u.0, AllIn-map l f u.1, AllIn-map r f u.2)

module _ (comp : ℕ → ℕ → Sign) where
  -- The two branches of a merge of two nodes.
  pub merge-less :
      (a : ℕ) (al ar : SkewHeap) (b : ℕ) (bl br : SkewHeap)
      → is_minus_one (comp a b) ≡ true
      → merge comp (node a al ar) (node b bl br) ≡ node a (merge comp ar (node b bl br)) al
  unfolding merge
  merge-less a al ar b bl br e = rw (e, merge)

  pub merge-more :
      (a : ℕ) (al ar : SkewHeap) (b : ℕ) (bl br : SkewHeap)
      → is_minus_one (comp a b) ≡ false
      → merge comp (node a al ar) (node b bl br) ≡ node b (merge comp (node a al ar) br) bl
  unfolding merge
  merge-more a al ar b bl br e = rw (e, merge)

  pub AllIn-merge {ℓ} :
      (P : ℕ → Type ℓ) (a b : SkewHeap) → AllIn P a → AllIn P b → AllIn P (merge comp a b)
  unfolding merge
  AllIn-merge P null b u v = v
  AllIn-merge P (node a al ar) null u v = u
  AllIn-merge P (node a al ar) (node b bl br) u v = elim (Bool-cases (is_minus_one (comp a b))) [
    | inl e ↦ rw (merge-less a al ar b bl br e) (u.0, AllIn-merge P ar (node b bl br) u.2 v, u.1)
    | inr e ↦ rw (merge-more a al ar b bl br e) (v.0, AllIn-merge P (node a al ar) br u v.2, v.1)
  ]

  pub AllIn-remove {ℓ} :
      (P : ℕ → Type ℓ) (a : SkewHeap) (b : ℕ) → AllIn P a → AllIn P (remove comp a b)
  unfolding remove
  AllIn-remove P null b u = tt
  AllIn-remove P (node a l r) b u = elim (Bool-cases (a == b)) [
    | inl hit ↦ rw hit (AllIn-merge P l r u.1 u.2)
    | inr miss ↦ rw miss (u.0, AllIn-remove P l b u.1, AllIn-remove P r b u.2)
  ]

-- On the entries that satisfy `Fits` the comparison is that of the keys.
module _ (comp : ℕ → ℕ → Sign) (key : ℕ → ℕ) (Fits : ℕ → Type 0)
    (agrees : (a b : ℕ) → Fits a → Fits b → is_minus_one (comp a b) ≡ ltb (key a) (key b)) where
  -- Every key of a heap is at least its root's.
  over_root :
      (k a : ℕ) (l r : SkewHeap)
      → k ≤ key a
      → IsHeap key (node a l r)
      → AllIn (λ x. k ≤ key x) (node a l r)
  over_root k a l r le u =
      (le, AllIn-map l (λ x h. omega arith) u.0, AllIn-map r (λ x h. omega arith) u.1)

  pub merge-IsHeap :
      (a b : SkewHeap)
      → AllIn Fits a
      → AllIn Fits b
      → IsHeap key a
      → IsHeap key b
      → IsHeap key (merge comp a b)
  unfolding merge
  merge-IsHeap null b fa fb u v = v
  merge-IsHeap (node a al ar) null fa fb u v = u
  merge-IsHeap (node a al ar) (node b bl br) fa fb u v =
      let test = agrees a b fa.0 fb.0 in
      elim (Bool-cases (is_minus_one (comp a b))) [
        | inl e ↦ rw (merge-less comp a al ar b bl br e) (
          AllIn-merge comp (λ x. key a ≤ key x) ar (node b bl br) u.1
              (over_root (key a) b bl br (ground arith) v),
          u.0,
          merge-IsHeap ar (node b bl br) fa.2 fb u.3 v,
          u.2,
        )
        | inr e ↦ rw (merge-more comp a al ar b bl br e) (
          AllIn-merge comp (λ x. key b ≤ key x) (node a al ar) br
              (over_root (key b) a al ar (ground arith) u) v.1,
          v.0,
          merge-IsHeap (node a al ar) br fa fb.2 u v.3,
          v.2,
        )
      ]

  -- Insertion keeps the heap order.
  pub insert-IsHeap :
      (a : SkewHeap) (b : ℕ) → AllIn Fits a → Fits b → IsHeap key a → IsHeap key (insert comp a b)
  unfolding insert
  insert-IsHeap a b fa fb u = merge-IsHeap a (node b null null) fa (fb, tt, tt) u (tt, tt, tt, tt)

  -- Where the comparison says "less" exactly by the keys on all entries of a skew heap that is
  -- ordered by these keys, removal of any entry, also from the middle, leaves a heap ordered by the
  -- keys.
  pub remove-IsHeap :
      (a : SkewHeap) (b : ℕ) → AllIn Fits a → IsHeap key a → IsHeap key (remove comp a b)
  unfolding remove
  remove-IsHeap null b fa u = tt
  remove-IsHeap (node a l r) b fa u = elim (Bool-cases (a == b)) [
    | inl hit ↦ rw hit (merge-IsHeap l r fa.1 fa.2 u.2 u.3)
    | inr miss ↦ rw miss (
      AllIn-remove comp (λ x. key a ≤ key x) l b u.0,
      AllIn-remove comp (λ x. key a ≤ key x) r b u.1,
      remove-IsHeap l b fa.1 u.2,
      remove-IsHeap r b fa.2 u.3,
    )
  ]

pub AllIn-both {ℓ κ μ} :
    {P : ℕ → Type ℓ} {Q : ℕ → Type κ} {R : ℕ → Type μ} (a : SkewHeap)
    → ((x : ℕ) → P x → Q x → R x)
    → AllIn P a
    → AllIn Q a
    → AllIn R a
AllIn-both null f u v = tt
AllIn-both (node a l r) f u v = (f a u.0 v.0, AllIn-both l f u.1 v.1, AllIn-both r f u.2 v.2)

-- The heap order depends on the keys of the entries alone.
pub IsHeap-agree :
    (key key' : ℕ → ℕ) (a : SkewHeap) → AllIn (λ x. key x ≡ key' x) a → IsHeap key a → IsHeap key' a
IsHeap-agree key key' null e u = tt
IsHeap-agree key key' (node a l r) e u = (
  AllIn-both l (λ x q h. omega (arith, e.0)) e.1 u.0,
  AllIn-both r (λ x q h. omega (arith, e.0)) e.2 u.1,
  IsHeap-agree key key' l e.1 u.2,
  IsHeap-agree key key' r e.2 u.3,
)

-- The root has the least key.
pub root-le :
    (key : ℕ → ℕ) (a : ℕ) (l r : SkewHeap)
    → IsHeap key (node a l r)
    → AllIn (λ x. key a ≤ key x) (node a l r)
root-le key a l r u = (omega arith, u.0, u.1)
