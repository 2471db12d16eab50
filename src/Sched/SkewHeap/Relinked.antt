-- ===== src/Sched/SkewHeap/Relinked.antt =====
-- `skew_heap_remove` of lab8/libs/skew_heap.h: a parent that leads to the merge of the subtrees instead.
use mathlib.Core.Path.{subst}
use os.Base.{ℕ, ◌≤◌, ◌<◌, ◌≡◌, ◌≢◌, inl, inr, refl, sym, ap, ◌∙◌, arith, ==_ne, ==_refl}
use os.Sched.SkewHeap.{SkewHeap, node, Sign, merge, remove}
use os.Sched.SkewHeap.Content.{count, remove_absent}
use os.Sched.SkewHeap.Pointers.{Entries, Holds, Same, Holds-same}
use os.Sched.SkewHeap.Merging.{Holds-root}
use os.Sched.SkewHeap.Places.{
  IsAt, here, in_left, in_right, count-at, at-Holds, root_cases, parent_in,
}

module _ (comp : ℕ → ℕ → Sign) where
  pub remove-hit : (b : ℕ) (l r : SkewHeap) → remove comp (node b l r) b ≡ merge comp l r
  unfolding remove
  remove-hit b l r = rw (==_refl b) refl

  pub remove-miss :
      (a b : ℕ) (l r : SkewHeap)
      → a ≢ b
      → remove comp (node a l r) b ≡ node a (remove comp l b) (remove comp r b)
  unfolding remove
  remove-miss a b l r ne = rw (==_ne a b ne) refl

-- The pointers `f`: the parent `p` of `b` leads to `rep`, with the merge below it, where it led to `b`.
pub record IsRelinked (comp : ℕ → ℕ → Sign) (s f : Entries) (b p : ℕ) (bl br : SkewHeap) (rep : ℕ)
    : Type 0 where
  pub up : s.parent b ≡ p
  pub merged : Holds f p rep (merge comp bl br)
  pub same : (x : ℕ) → count x (node b bl br) ≡ 0 → p ≢ x → Same s f x
  pub same_parent : f.parent p ≡ s.parent p
  pub was_left : s.left p ≡ b → (f.left p ≡ rep) × (f.right p ≡ s.right p)
  pub was_right : s.left p ≢ b → (f.left p ≡ s.left p) × (f.right p ≡ rep)

module _ (comp : ℕ → ℕ → Sign) (s f : Entries) (b p : ℕ) (bl br : SkewHeap) (rep : ℕ)
    (k : IsRelinked comp s f b p bl br rep) where
  -- A tree without the entry and its parent stays.
  aside :
      (t : SkewHeap) (q c : ℕ)
      → ((x : ℕ) → 0 < count x t → count x (node b bl br) ≡ 0)
      → count p t ≡ 0
      → Holds s q c t
      → Holds f q c t
  aside t q c off out h =
      Holds-same s f q c t
        (λ x lt. k.same x (off x lt) (λ e. omega (arith, ap (λ y. count y t) e, lt, out))) h

  root_gone : (t : SkewHeap) → t ≡ node b bl br → (a : ℕ) → a ≡ p → Holds f a rep (remove comp t b)
  root_gone t same a e =
      subst (λ z. Holds f z rep (remove comp t b)) (sym e)
        (subst (Holds f p rep) (sym (ap (λ u. remove comp u b) same ∙ remove-hit comp b bl br))
          k.merged)

  abbrev Once : SkewHeap → Type 0
  Once t = (x : ℕ) → count x t ≤ 1

  -- A node whose left subtree is the entry's.
  left_gone :
      (a : ℕ) (l r : SkewHeap) (q c : ℕ)
      → l ≡ node b bl br
      → s.left a ≡ b
      → s.parent b ≡ a
      → Holds s q c (node a l r)
      → Once (node a l r)
      → a ≢ b
      → Holds f q c (node a (remove comp l b) (remove comp r b))
  left_gone a l r q c same at_left up (at, ne, par, hl, hr) once differs =
      let e : a ≡ p = sym up ∙ k.up in
      let (fl, fr) = k.was_left (subst (λ z. s.left z ≡ b) e at_left) in
      let in_l : (x : ℕ) → count x (node b bl br) ≡ count x l = λ x. ap (count x) (sym same) in
      let absent_r : remove comp r b ≡ r =
        remove_absent comp r b (ground (arith, once b, in_l b)) in
      (
        at,
        ne,
        subst (λ z. f.parent z ≡ q) (sym e) (k.same_parent ∙ subst (λ z. s.parent z ≡ q) e par),
        subst (λ z. Holds f a z (remove comp l b)) (sym (subst (λ z. f.left z ≡ rep) (sym e) fl))
            (root_gone l same a e),
        subst (Holds f a (f.right a)) (sym absent_r) (
            subst (λ z. Holds f a z r) (sym (subst (λ z. f.right z ≡ s.right z) (sym e) fr))
              (aside r a (s.right a) (λ x lt. ground (arith, once x, in_l x, lt))
                (subst (λ z. count z r ≡ 0) e (ground (arith, once a))) hr)),
      )

  -- A node whose right subtree is the entry's.
  right_gone :
      (a : ℕ) (l r : SkewHeap) (q c : ℕ)
      → r ≡ node b bl br
      → s.parent b ≡ a
      → b ≢ 0
      → Holds s q c (node a l r)
      → Once (node a l r)
      → a ≢ b
      → Holds f q c (node a (remove comp l b) (remove comp r b))
  right_gone a l r q c same up some_b (at, ne, par, hl, hr) once differs =
      let e : a ≡ p = sym up ∙ k.up in
      let in_r : (x : ℕ) → count x (node b bl br) ≡ count x r = λ x. ap (count x) (sym same) in
      let not_in_l : count b l ≡ 0 = ground (arith, once b, in_r b) in
      let other : s.left a ≢ b = λ z. elim (Holds-root s a (s.left a) l hl) [
        | inl n ↦ some_b (sym z ∙ n)
        | inr lt ↦ omega (arith, ap (λ y. count y l) z, lt, not_in_l)
      ] in
      let (fl, fr) = k.was_right (subst (λ z. s.left z ≢ b) e other) in
      let absent_l : remove comp l b ≡ l = remove_absent comp l b not_in_l in
      (
        at,
        ne,
        subst (λ z. f.parent z ≡ q) (sym e) (k.same_parent ∙ subst (λ z. s.parent z ≡ q) e par),
        subst (Holds f a (f.left a)) (sym absent_l) (
            subst (λ z. Holds f a z l) (sym (subst (λ z. f.left z ≡ s.left z) (sym e) fl))
              (aside l a (s.left a) (λ x lt. ground (arith, once x, in_r x, lt))
                (subst (λ z. count z l ≡ 0) e (ground (arith, once a))) hl)),
        subst (λ z. Holds f a z (remove comp r b)) (sym (subst (λ z. f.right z ≡ rep) (sym e) fr))
            (root_gone r same a e),
      )

  pub relinked-Holds :
      (t : SkewHeap) (q c : ℕ)
      → IsAt b bl br t
      → Holds s q c t
      → Once t
      → c ≢ b
      → Holds f q c (remove comp t b)
  relinked-Holds t q c here (at, ne, par, hl, hr) once other = absurd (other at)
  relinked-Holds t q c (in_left a l r i) (at, ne, par, hl, hr) once other =
      let a_b : a ≢ b = λ e. other (at ∙ e) in
      let once_l : Once l = λ x. ground (arith, once x) in
      subst (Holds f q c) (sym (remove-miss comp a b l r a_b))
        (elim (root_cases s b bl br l a (s.left a) i hl once_l) [
          | inl (same, at_left, up) ↦
              left_gone a l r q c same at_left up (at, ne, par, hl, hr) once a_b
          | inr deeper ↦
              let (lt, out) = parent_in s b bl br l a (s.left a) i hl once_l deeper in
              let p_in : 0 < count p l = subst (λ z. 0 < count z l) k.up lt in
              let low = λ (x : ℕ). count-at b bl br l x i in
              let (e0, e1, e2) =
                k.same a (ground (arith, once a, low a))
                  (λ e. ground (arith, ap (λ y. count y l) e, p_in, once a)) in
              (
                at,
                ne,
                e0 ∙ par,
                subst (λ z. Holds f a z (remove comp l b)) (sym e1)
                    (relinked-Holds l a (s.left a) i hl once_l deeper),
                subst (Holds f a (f.right a))
                    (sym (remove_absent comp r b (ground (arith, once b, low b))))
                    (subst (λ z. Holds f a z r) (sym e2)
                      (aside r a (s.right a) (λ x lt. ground (arith, once x, low x, lt))
                        (ground (arith, once p, p_in)) hr)),
              )
        ])
  relinked-Holds t q c (in_right a l r i) (at, ne, par, hl, hr) once other =
      let a_b : a ≢ b = λ e. other (at ∙ e) in
      let once_r : Once r = λ x. ground (arith, once x) in
      subst (Holds f q c) (sym (remove-miss comp a b l r a_b))
        (elim (root_cases s b bl br r a (s.right a) i hr once_r) [
          | inl (same, at_right, up) ↦
              right_gone a l r q c same up (at-Holds s b bl br r a (s.right a) i hr).1
                (at, ne, par, hl, hr) once a_b
          | inr deeper ↦
              let (lt, out) = parent_in s b bl br r a (s.right a) i hr once_r deeper in
              let p_in : 0 < count p r = subst (λ z. 0 < count z r) k.up lt in
              let low = λ (x : ℕ). count-at b bl br r x i in
              let (e0, e1, e2) =
                k.same a (ground (arith, once a, low a))
                  (λ e. ground (arith, ap (λ y. count y r) e, p_in, once a)) in
              (
                at,
                ne,
                e0 ∙ par,
                subst (Holds f a (f.left a))
                    (sym (remove_absent comp l b (ground (arith, once b, low b))))
                    (subst (λ z. Holds f a z l) (sym e1)
                      (aside l a (s.left a) (λ x lt. ground (arith, once x, low x, lt))
                        (ground (arith, once p, p_in)) hl)),
                subst (λ z. Holds f a z (remove comp r b)) (sym e2)
                    (relinked-Holds r a (s.right a) i hr once_r deeper),
              )
        ])
