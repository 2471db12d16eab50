-- ===== src/Sched/SkewHeap/Merging.antt =====
-- `skew_heap_merge` of lab8/libs/skew_heap.h: its stores make the merged tree.
use mathlib.Core.Path.{subst}
use os.Base.{
  ℕ, zero, suc, ◌+◌, ◌≤◌, ◌<◌, ◌≡◌, ◌≢◌, ◌⊎◌, inl, inr, refl, sym, ap, ◌∙◌, arith, true, false,
  Bool-cases, some, ◌>>=◌, ◌==◌, ==_ne, ==_refl, ==_iff,
}
use os.Links.{store}
use os.Sched.SkewHeap.{SkewHeap, null, node, Sign, is_minus_one, merge}
use os.Sched.SkewHeap.Content.{count, count-merge}
use os.Sched.SkewHeap.Order.{merge-less, merge-more}
use os.Sched.SkewHeap.Pointers.{
  Entries, set_parent, hang, skew_heap_merge, Holds, Same, size, Holds-same,
}

-- The root of a tree is NULL or one of its entries.
pub Holds-root : (s : Entries) (q p : ℕ) (t : SkewHeap) → Holds s q p t → (p ≡ 0) ⊎ (0 < count p t)
Holds-root s q p null h = inl h
Holds-root s q p (node a l r) (at, ne, up, hl, hr) = inr (ground (arith, at))

set_parent-null : (v p : ℕ) (s : Entries) → p ≡ 0 → set_parent p v s ≡ s
unfolding set_parent
set_parent-null v p s e = rw (e) refl

set_parent-some :
    (v p : ℕ) (s : Entries) → p ≢ 0 → set_parent p v s ≡ record s { parent = store s.parent p v }
unfolding set_parent
set_parent-some v p s ne = rw (==_ne p 0 ne) refl

null-Same : (v p : ℕ) (s : Entries) (x : ℕ) → p ≡ 0 → Same s (set_parent p v s) x
null-Same v p s x e = subst (λ t. Same s t x) (sym (set_parent-null v p s e)) (refl, refl, refl)

pub set_parent-Same :
    (v p : ℕ) (s : Entries) (x : ℕ) → (p ≡ 0) ⊎ (p ≢ x) → Same s (set_parent p v s) x
set_parent-Same v p s x (inl e) = null-Same v p s x e
set_parent-Same v p s x (inr ne) = elim (Bool-cases (p == 0)) [
  | inl e ↦ null-Same v p s x ((==_iff p 0).0 e)
  | inr e ↦
      subst (λ t. Same s t x) (sym (set_parent-some v p s (λ z. ground (arith, z, e))))
        (rw (==_ne p x ne) refl, refl, refl)
]

pub outside :
    (s : Entries) (q p : ℕ) (t : SkewHeap) (x : ℕ)
    → Holds s q p t
    → count x t ≡ 0
    → (p ≡ 0) ⊎ (p ≢ x)
outside s q p t x h out = elim (Holds-root s q p t h) [
  | inl e ↦ inl e
  | inr lt ↦ inr (λ e. omega (arith, ap (λ y. count y t) e, lt, out))
]

-- The parent of a root may be set.
pub set_parent-Holds :
    (v : ℕ) (s : Entries) (q p : ℕ) (t : SkewHeap)
    → ((x : ℕ) → count x t ≤ 1)
    → Holds s q p t
    → Holds (set_parent p v s) v p t
set_parent-Holds v s q p null once h = h
set_parent-Holds v s q p (node a l r) once (at, ne, up, hl, hr) =
    subst (λ t. Holds t v p (node a l r)) (sym (set_parent-some v p s (λ e. ne (sym at ∙ e))))
      (
        at,
        ne,
        rw (at, ==_refl a) refl,
        Holds-same s changed a (s.left a) l (λ x lt. same x (ground (arith, once a, lt))) hl,
        Holds-same s changed a (s.right a) r (λ x lt. same x (ground (arith, once a, lt))) hr,
      )
  where
    changed : Entries
    changed = record s { parent = store s.parent p v }

    same : (x : ℕ) → a ≢ x → Same s changed x
    same x ne = (rw (==_ne p x (λ e. ne (sym at ∙ e))) refl, refl, refl)

module _ (s s' : Entries) (a p q : ℕ) (m al : SkewHeap) (ne : a ≢ 0)
    (kept : Holds s a (s.left a) al) (merged : Holds s' q p m) (out_m : count a m ≡ 0)
    (out_l : count a al ≡ 0) (once : (x : ℕ) → count x m + count x al ≤ 1)
    (same : (x : ℕ) → count x m ≡ 0 → Same s s' x) where
  abbrev hung : Entries
  hung = record s' { left = store s'.left a p; right = store s'.right a (s.left a) }

  hung-Same : (x : ℕ) → a ≢ x → Same s' hung x
  hung-Same x differs = (refl, rw (==_ne a x differs) refl, rw (==_ne a x differs) refl)

  hung-Holds : Holds hung q p m
  hung-Holds =
      Holds-same s' hung q p m
        (λ x lt. hung-Same x (λ e. omega (arith, ap (λ y. count y m) e, lt, out_m))) merged

  abbrev raised : Entries
  raised = set_parent p a hung

  -- The entries of neither the merged tree nor the top keep their pointers.
  raised-Same : (x : ℕ) → count x m ≡ 0 → a ≢ x → Same s raised x
  raised-Same x out differs =
      let (f0, f1, f2) = same x out in
      let (g0, g1, g2) = hung-Same x differs in
      let (h0, h1, h2) = set_parent-Same a p hung x (outside hung q p m x hung-Holds out) in
      (h0 ∙ g0 ∙ f0, h1 ∙ g1 ∙ f1, h2 ∙ g2 ∙ f2)

  raised-Holds : Holds raised (s.parent a) a (node a m al)
  raised-Holds =
      let (up, left, right) = set_parent-Same a p hung a (outside hung q p m a hung-Holds out_m) in
      let at_left : raised.left a ≡ p = left ∙ rw (==_refl a) refl in
      let at_right : raised.right a ≡ s.left a = right ∙ rw (==_refl a) refl in
      (
        refl,
        ne,
        up ∙ (same a out_m).0,
        subst (λ x. Holds raised a x m) (sym at_left)
            (set_parent-Holds a hung q p m (λ x. omega (arith, once x)) hung-Holds),
        subst (λ x. Holds raised a x al) (sym at_right)
            (Holds-same s raised a (s.left a) al
              (λ x lt.
                raised-Same x (omega (arith, once x, lt))
                  (λ e. omega (arith, ap (λ y. count y al) e, lt, out_l)))
              kept),
      )

  -- A top that is hung over the merge of the rest.
  pub hang-Holds :
      Holds (hang a p (s.left a) s') (s.parent a) a (node a m al)
      × ((x : ℕ) → count x m ≡ 0 → a ≢ x → Same s (hang a p (s.left a) s') x)
  unfolding hang
  hang-Holds = (raised-Holds, raised-Same)

module _ (comp : ℕ → ℕ → Sign) where
  abbrev pub Merged : ℕ → ℕ → ℕ → Entries → SkewHeap → SkewHeap → Type 0
  Merged fuel pa pb s ta tb =
      (q : ℕ) × (p : ℕ) × (s' : Entries) × (skew_heap_merge comp fuel pa pb s ≡ some (p, s'))
      × Holds s' q p (merge comp ta tb)
      × ((x : ℕ) → count x ta + count x tb ≡ 0 → Same s s' x)

  left_null :
      (fuel pa pb : ℕ) (s : Entries)
      → pa ≡ 0
      → skew_heap_merge comp (suc fuel) pa pb s ≡ some (pb, s)
  unfolding skew_heap_merge
  left_null fuel pa pb s e = rw (skew_heap_merge, e) refl

  right_null :
      (fuel pa pb : ℕ) (s : Entries)
      → pa ≢ 0
      → pb ≡ 0
      → skew_heap_merge comp (suc fuel) pa pb s ≡ some (pa, s)
  unfolding skew_heap_merge
  right_null fuel pa pb s ne e = rw (skew_heap_merge, ==_ne pa 0 ne, e) refl

  less_round :
      (fuel a b : ℕ) (s : Entries)
      → a ≢ 0
      → b ≢ 0
      → is_minus_one (comp a b) ≡ true
      → skew_heap_merge comp (suc fuel) a b s
        ≡ (skew_heap_merge comp fuel (s.right a) b s >>= λ m. some (a, hang a m.0 (s.left a) m.1))
  unfolding skew_heap_merge
  less_round fuel a b s na nb e = rw (skew_heap_merge, ==_ne a 0 na, ==_ne b 0 nb, e) refl

  more_round :
      (fuel a b : ℕ) (s : Entries)
      → a ≢ 0
      → b ≢ 0
      → is_minus_one (comp a b) ≡ false
      → skew_heap_merge comp (suc fuel) a b s
        ≡ (skew_heap_merge comp fuel a (s.right b) s >>= λ m. some (b, hang b m.0 (s.left b) m.1))
  unfolding skew_heap_merge
  more_round fuel a b s na nb e = rw (skew_heap_merge, ==_ne a 0 na, ==_ne b 0 nb, e) refl

  pub merge-Holds :
      (ta tb : SkewHeap) (fuel pa pb qa qb : ℕ) (s : Entries)
      → Holds s qa pa ta
      → Holds s qb pb tb
      → ((x : ℕ) → count x ta + count x tb ≤ 1)
      → size ta + size tb < fuel
      → Merged fuel pa pb s ta tb
  unfolding merge
  merge-Holds ta tb zero pa pb qa qb s ha hb once enough = absurd (omega (arith, enough))
  merge-Holds null tb (suc fuel) pa pb qa qb s ha hb once enough =
      (qb, pb, s, left_null fuel pa pb s ha, hb, λ x out. (refl, refl, refl))
  merge-Holds (node a al ar) null (suc fuel) pa pb qa qb s ha hb once enough = (
    qa,
    pa,
    s,
    right_null fuel pa pb s (λ e. ha.1 (sym ha.0 ∙ e)) hb,
    ha,
    λ x out. (refl, refl, refl),
  )
  merge-Holds (node a al ar) (node b bl br) (suc fuel) pa pb qa qb s (ea, na, ua, hal, har)
        (eb, nb, ub, hbl, hbr) once enough =
      elim (Bool-cases (is_minus_one (comp a b))) [
        | inl e ↦
            let (q, p, s', ran, held, same) =
              merge-Holds ar (node b bl br) fuel (s.right a) b a qb s har (refl, nb, ub, hbl, hbr)
                (λ x. ground (arith, once x)) (omega (arith, enough)) in
            let sum = λ (x : ℕ). count-merge comp x ar (node b bl br) in
            let (top, kept) =
              hang-Holds s s' a p q (merge comp ar (node b bl br)) al na hal held
                (ground (arith, once a, sum a)) (ground (arith, once a))
                (λ x. ground (arith, once x, sum x))
                (λ x out. same x (omega (arith, sum x, out))) in
            (
              s.parent a,
              a,
              hang a p (s.left a) s',
              ap (λ c. skew_heap_merge comp (suc fuel) c pb s) ea
                  ∙ (ap (λ c. skew_heap_merge comp (suc fuel) a c s) eb
                      ∙ (less_round fuel a b s na nb e
                          ∙ ap (λ o. o >>= λ m. some (a, hang a m.0 (s.left a) m.1)) ran)),
              rw (merge-less comp a al ar b bl br e) top,
              λ x out. kept x (ground (arith, sum x, out)) (ground (arith, out)),
            )
        | inr e ↦
            let (q, p, s', ran, held, same) =
              merge-Holds (node a al ar) br fuel a (s.right b) qa b s (refl, na, ua, hal, har) hbr
                (λ x. ground (arith, once x)) (omega (arith, enough)) in
            let sum = λ (x : ℕ). count-merge comp x (node a al ar) br in
            let (top, kept) =
              hang-Holds s s' b p q (merge comp (node a al ar) br) bl nb hbl held
                (ground (arith, once b, sum b)) (ground (arith, once b))
                (λ x. ground (arith, once x, sum x))
                (λ x out. same x (omega (arith, sum x, out))) in
            (
              s.parent b,
              b,
              hang b p (s.left b) s',
              ap (λ c. skew_heap_merge comp (suc fuel) c pb s) ea
                  ∙ (ap (λ c. skew_heap_merge comp (suc fuel) a c s) eb
                      ∙ (more_round fuel a b s na nb e
                          ∙ ap (λ o. o >>= λ m. some (b, hang b m.0 (s.left b) m.1)) ran)),
              rw (merge-more comp a al ar b bl br e) top,
              λ x out. kept x (ground (arith, sum x, out)) (ground (arith, out)),
            )
      ]
