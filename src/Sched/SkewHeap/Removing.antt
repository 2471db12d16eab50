-- ===== src/Sched/SkewHeap/Removing.antt =====
-- `skew_heap_remove` of lab8/libs/skew_heap.h, of any entry of a heap.
use mathlib.Core.Path.{subst}
use os.Base.{
  ℕ, ◌+◌, ◌≤◌, ◌<◌, ◌≡◌, ◌≢◌, inl, inr, refl, sym, ap, ◌∙◌, arith, Bool-cases, ◌==◌, ==_ne, ==_refl,
  ==_iff, if◌then◌else◌, some, ◌>>=◌, ltb,
}
use os.Links.{store}
use os.Sched.SkewHeap.{SkewHeap, node, Sign, is_minus_one, merge, remove}
use os.Sched.SkewHeap.Content.{count, count-merge, count-remove}
use os.Sched.SkewHeap.Order.{AllIn, IsHeap, remove-IsHeap}
use os.Sched.SkewHeap.Pointers.{
  Entries, set_parent, replace, skew_heap_remove, Holds, Same, size, Holds-same, Holds-null,
}
use os.Sched.SkewHeap.Merging.{set_parent-Same, set_parent-Holds, outside, merge-Holds}
use os.Sched.SkewHeap.Places.{find-IsAt, count-at, size-at, at-Holds, root_cases, parent_in}
use os.Sched.SkewHeap.Relinked.{remove-hit, IsRelinked, relinked-Holds}

module _ (comp : ℕ → ℕ → Sign) (s s1 : Entries) (b p q rep : ℕ) (bl br : SkewHeap)
    (up : s.parent b ≡ p) (held : Holds s1 q rep (merge comp bl br))
    (same : (x : ℕ) → count x bl + count x br ≡ 0 → Same s s1 x)
    (once : (x : ℕ) → count x bl + count x br ≤ 1) where
  abbrev raised : Entries
  raised = set_parent rep p s1

  apart : (x : ℕ) → count x bl + count x br ≡ 0 → count x (merge comp bl br) ≡ 0
  apart x out = omega (arith, count-merge comp x bl br, out)

  raised-Same : (x : ℕ) → count x bl + count x br ≡ 0 → Same s raised x
  raised-Same x out =
      let (f0, f1, f2) = same x out in
      let (g0, g1, g2) =
        set_parent-Same p rep s1 x (outside s1 q rep (merge comp bl br) x held (apart x out)) in
      (g0 ∙ f0, g1 ∙ f1, g2 ∙ f2)

  raised-Holds : Holds raised p rep (merge comp bl br)
  raised-Holds =
      set_parent-Holds p s1 q rep (merge comp bl br)
        (λ x. omega (arith, count-merge comp x bl br, once x)) held

  module _ (out : count p (node b bl br) ≡ 0) where
    below : count p bl + count p br ≡ 0
    below = ground (arith, out)

    kept : (f : Entries) → ((x : ℕ) → p ≢ x → Same raised f x) → Holds f p rep (merge comp bl br)
    kept f rest =
        Holds-same raised f p rep (merge comp bl br)
          (λ x lt.
            rest x (λ e. omega (arith, ap (λ y. count y (merge comp bl br)) e, apart p below, lt)))
          raised-Holds

    rest-Same :
        (f : Entries)
        → ((x : ℕ) → p ≢ x → Same raised f x)
        → (x : ℕ) → count x (node b bl br) ≡ 0
        → p ≢ x
        → Same s f x
    rest-Same f rest x gone differs =
        let (f0, f1, f2) = raised-Same x (ground (arith, gone)) in
        let (g0, g1, g2) = rest x differs in (g0 ∙ f0, g1 ∙ f1, g2 ∙ f2)

    abbrev on_left : Entries
    on_left = record raised { left = store raised.left p rep }

    abbrev on_right : Entries
    on_right = record raised { right = store raised.right p rep }

    on_left-IsRelinked : s.left p ≡ b → IsRelinked comp s on_left b p bl br rep
    on_left-IsRelinked e =
        let rest : (x : ℕ) → p ≢ x → Same raised on_left x =
          λ x differs. (refl, rw (==_ne p x differs) refl, refl) in
        let (e0, e1, e2) = raised-Same p below in
        record {
          up = up;
          merged = kept on_left rest;
          same = rest-Same on_left rest;
          same_parent = e0;
          was_left = λ _. (rw (==_refl p) refl, e2);
          was_right = λ ne. absurd (ne e);
        }

    on_right-IsRelinked : s.left p ≢ b → IsRelinked comp s on_right b p bl br rep
    on_right-IsRelinked ne =
        let rest : (x : ℕ) → p ≢ x → Same raised on_right x =
          λ x differs. (refl, refl, rw (==_ne p x differs) refl) in
        let (e0, e1, e2) = raised-Same p below in
        record {
          up = up;
          merged = kept on_right rest;
          same = rest-Same on_right rest;
          same_parent = e0;
          was_left = λ e. absurd (ne e);
          was_right = λ _. (e1, rw (==_refl p) refl);
        }

    -- The links that `skew_heap_remove` leaves below a parent.
    replaced :
        (a : ℕ)
        → p ≢ 0
        → (f : Entries) × (replace comp a b p rep s1 ≡ (a, f)) × IsRelinked comp s f b p bl br rep
    unfolding replace
    replaced a some_p =
        let (e0, e1, e2) = raised-Same p below in
        elim (Bool-cases (raised.left p == b)) [
          | inl hit ↦
              let e = (==_iff (raised.left p) b).0 hit in
              (on_left, rw (==_ne p 0 some_p, hit) refl, on_left-IsRelinked (sym e1 ∙ e))
          | inr miss ↦ (
            on_right,
            rw (==_ne p 0 some_p, miss) refl,
            on_right-IsRelinked (λ e. ground (arith, miss, e1, e)),
          )
        ]

replaced_root :
    (comp : ℕ → ℕ → Sign) (a b p rep : ℕ) (s : Entries)
    → p ≡ 0
    → replace comp a b p rep s ≡ (rep, set_parent rep p s)
unfolding replace
replaced_root comp a b p rep s e = rw (e) refl

module _ (comp : ℕ → ℕ → Sign) (s : Entries) (t : SkewHeap) (fuel a b : ℕ) (h : Holds s 0 a t)
    (once : (x : ℕ) → count x t ≤ 1) (some_b : 0 < count b t) (enough : size t < fuel) where
  abbrev Removed : Type 0
  Removed =
      (a' : ℕ) × (s' : Entries) × (skew_heap_remove comp fuel a b s ≡ some (a', s'))
      × Holds s' 0 a' (remove comp t b)
      × ((x : ℕ) → count x t ≡ 0 → Same s s' x)

  -- The pointers make the tree from which the entry is removed.
  pub skew_heap_remove-Holds : Removed
  unfolding skew_heap_remove
  skew_heap_remove-Holds =
      let (bl, br, i) = find-IsAt t b some_b in
      let (_, _, _, hl, hr) = at-Holds s b bl br t 0 a i h in
      let low = λ (x : ℕ). count-at b bl br t x i in
      let once_below : (x : ℕ) → count x bl + count x br ≤ 1 = λ x. ground (arith, once x, low x) in
      let (q, rep, s1, ran, held, same) =
        merge-Holds comp bl br fuel (s.left b) (s.right b) b b s hl hr once_below
          (omega (arith, size-at b bl br t i, enough)) in
      let p = s.parent b in
      let finish = ap (λ o. o >>= λ m. some (replace comp a b p m.0 m.1)) ran in
      elim (root_cases s b bl br t 0 a i h once) [
        | inl (whole, at, top) ↦
            let same_tree : remove comp t b ≡ merge comp bl br =
              ap (λ z. remove comp z b) whole ∙ remove-hit comp b bl br in
            (
              rep,
              set_parent rep p s1,
              finish ∙ ap some (replaced_root comp a b p rep s1 top),
              subst (λ z. Holds (set_parent rep p s1) z rep (remove comp t b)) top
                  (subst (Holds (set_parent rep p s1) p rep) (sym same_tree)
                    (raised-Holds comp s s1 b p q rep bl br refl held same once_below)),
              λ x out.
                  raised-Same comp s s1 b p q rep bl br refl held same once_below x
                    (ground (arith, out, low x)),
            )
        | inr other ↦
            let (p_in, p_out) = parent_in s b bl br t 0 a i h once other in
            let some_p : p ≢ 0 =
              λ e. omega (arith, ap (λ y. count y t) e, p_in, Holds-null s 0 a t h) in
            let (f, linked, k) =
              replaced comp s s1 b p q rep bl br refl held same once_below p_out a some_p in
            (
              a,
              f,
              finish ∙ ap some linked,
              relinked-Holds comp s f b p bl br rep k t 0 a i h once other,
              λ x out.
                  k.same x (omega (arith, low x, out))
                    (λ e. omega (arith, ap (λ y. count y t) e, p_in, out)),
            )
      ]

module _ (comp : ℕ → ℕ → Sign) (key : ℕ → ℕ) (Fits : ℕ → Type 0)
    (agrees : (a b : ℕ) → Fits a → Fits b → is_minus_one (comp a b) ≡ ltb (key a) (key b)) where
  -- Let the pointers of some entries form a tree in which no entry stands twice and whose root has
  -- no parent, let the tree be ordered by keys, and let the comparison say "less" exactly by the
  -- keys on its entries. `skew_heap_remove` of any entry of the tree, at the root or below, given
  -- more rounds than the tree has entries, returns the root of a tree that the pointers then form:
  -- it is ordered by the keys, its root has no parent, the entry is gone, and every other entry
  -- stands in it as before; entries outside the tree keep their pointers.
  pub skew_heap_remove-IsHeap :
      (s : Entries) (t : SkewHeap) (fuel a b : ℕ)
      → Holds s 0 a t
      → ((x : ℕ) → count x t ≤ 1)
      → AllIn Fits t
      → IsHeap key t
      → 0 < count b t
      → size t < fuel
      → (a' : ℕ) × (s' : Entries) × (t' : SkewHeap) × (skew_heap_remove comp fuel a b s
          ≡ some (a', s'))
        × Holds s' 0 a' t'
        × IsHeap key t'
        × ((x : ℕ) → count x t' ≡ (if b == x then 0 else count x t))
        × ((x : ℕ) → count x t ≡ 0 → Same s s' x)
  skew_heap_remove-IsHeap s t fuel a b h once fits ordered some_b enough =
      let (a', s', ran, held, same) =
        skew_heap_remove-Holds comp s t fuel a b h once some_b enough in
      (
        a',
        s',
        remove comp t b,
        ran,
        held,
        remove-IsHeap comp key Fits agrees t b fits ordered,
        λ x. count-remove comp x t b (once b),
        same,
      )
