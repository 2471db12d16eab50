-- ===== src/Heap/Insert.antt =====
-- The second join of `slob_free` (lab8/kern/mm/kmalloc.c): the block before leads to the new one.
use os.Base.{
  ℕ, ◌+◌, ◌≡◌, ◌≢◌, inl, inr, refl, sym, List, [], ◌∷◌, ◌++◌, arith, true, false, Bool-cases, ◌==◌,
  ==_ne, ==_refl, ==_iff,
}
use mathlib.Core.Path.{subst}
use os.Links.{store}
use os.Links.Chain.{NotIn, NotIn-append, Fwd-store}
use os.Heap.{Heap, offset, join_prev}
use os.Heap.Arena.{
  Seg, Seg-split, Seg-join, Seg-bounds, Seg-below, Seg-above, Seg-store, IsArena, Fwd-start,
}
use os.Heap.Free.{Adds, SameCover, Covers-eq, Adds-pre, Adds-front, Adds-merged, IsAbove, IsLowest}

-- An arena that starts at `slobfree` and has the bytes that `xs` had, and the `n` units at `b`.
abbrev pub Freed : (ℕ → ℕ) → List ℕ → ℕ → ℕ → ℕ → Heap → Type 0
Freed u xs top b n k =
    (lo : List ℕ) × (hi : List ℕ) × IsArena k top lo k.slobfree hi
    × Adds u xs k.units (lo ++ k.slobfree ∷ hi) b n

Adds-same :
    (u u' u'' : ℕ → ℕ) (xs ys zs : List ℕ) (b n : ℕ)
    → Adds u xs u' ys b n
    → SameCover u' ys u'' zs
    → Adds u xs u'' zs b n
Adds-same u u' u'' xs ys zs b n add same q =
    (λ c. (add q).0 ((same q).0 c), λ c. (same q).1 ((add q).1 c))

-- `cur` takes over the block `b` right behind it.
Same-merged :
    (u : ℕ → ℕ) (pre : List ℕ) (cur b : ℕ) (post : List ℕ)
    → offset cur (u cur) ≡ b
    → NotIn cur pre
    → NotIn cur post
    → SameCover u (pre ++ cur ∷ b ∷ post) (store u cur (u cur + u b)) (pre ++ cur ∷ post)
Same-merged u pre cur b post e n_pre n_post q =
    let add = Adds-merged u cur b post e n_post in
    let back = Adds-front u cur (b ∷ post) in
    let both =
      Adds-pre u (store u cur (u cur + u b)) pre (b ∷ post) (cur ∷ post) cur (u cur)
        (Covers-eq u cur (u cur + u b) pre n_pre) add in
    let was =
      Adds-pre u u pre (b ∷ post) (cur ∷ b ∷ post) cur (u cur) (λ r. (λ c. c, λ c. c)) back in
    (λ c. (was q).1 ((both q).0 c), λ c. (both q).1 ((was q).0 c))

module _ (k : Heap) (top cur b : ℕ) where
  abbrev merged : Heap
  merged = record k {
    units = store k.units cur (k.units cur + k.units b);
    next = store k.next cur (k.next b);
    slobfree = cur;
  }

  join_prev-merged : (offset cur (k.units cur) == b) ≡ true → join_prev b cur k ≡ merged
  unfolding join_prev
  join_prev-merged touch = rw (touch) refl

  join_prev-linked :
      (offset cur (k.units cur) == b) ≡ false
      → join_prev b cur k ≡ record k { next = store k.next cur b; slobfree = cur }
  unfolding join_prev
  join_prev-linked apart = rw (apart) refl

  others :
      (pre post : List ℕ)
      → Seg k.units 1 (pre ++ cur ∷ b ∷ post) top
      → NotIn cur pre × NotIn cur post × (cur ≢ b)
  others pre post seg =
      let (m, left, (le, cur_pos, (after, b_pos, rest))) =
        Seg-split k.units 1 pre (cur ∷ b ∷ post) top seg in
      (
        Seg-above k.units 1 pre m cur left le,
        Seg-below k.units (offset b (k.units b)) post top cur rest (omega arith),
        λ e. omega arith,
      )

  pub join_prev-above :
      (u : ℕ → ℕ) (xs : List ℕ) (c n : ℕ) (pre post : List ℕ)
      → IsAbove k top pre cur b post
      → Adds u xs k.units (pre ++ cur ∷ b ∷ post) c n
      → Freed u xs top c n (join_prev b cur k)
  join_prev-above u xs c n pre post w add =
      let (n_pre, n_post, other) = others pre post w.ordered in
      let all = NotIn-append cur post pre n_post n_pre in
      let (m, left, (le, cur_pos, (after, b_pos, rest))) =
        Seg-split k.units 1 pre (cur ∷ b ∷ post) top w.ordered in
      let v = k.units cur + k.units b in
      elim (Bool-cases (offset cur (k.units cur) == b)) [
        | inl touch ↦
            let e = (==_iff (offset cur (k.units cur)) b).0 touch in
            let end : offset b (k.units b) ≡ offset cur v = omega (arith, e) in
            subst (Freed u xs top c n) (sym (join_prev-merged touch)) (
              pre,
              post,
              record {
                ordered =
                    Seg-join (store k.units cur v) 1 pre m (cur ∷ post) top
                      (Seg-store k.units cur v 1 pre m n_pre left)
                      (rw (==_refl cur) (
                        le,
                        omega arith,
                        subst (λ x. Seg (store k.units cur v) x post top) end
                            (Seg-store k.units cur v (offset b (k.units b)) post top n_post rest),
                      ));
                ring = Fwd-start k.next b cur (post ++ pre) cur all w.path;
              },
              Adds-same u k.units (store k.units cur v) xs (pre ++ cur ∷ b ∷ post)
                  (pre ++ cur ∷ post) c n add (Same-merged k.units pre cur b post e n_pre n_post),
            )
        | inr apart ↦ subst (Freed u xs top c n) (sym (join_prev-linked apart)) (
          pre,
          b ∷ post,
          record {
            ordered = w.ordered;
            ring = (
              rw (==_refl cur) refl,
              Fwd-store k.next cur b b (post ++ pre) cur other all w.path,
            );
          },
          add,
        )
      ]

  pub join_prev-lowest :
      (u : ℕ → ℕ) (xs : List ℕ) (c n : ℕ) (post : List ℕ)
      → IsLowest k top b post cur
      → Adds u xs k.units (b ∷ post ++ cur ∷ []) c n
      → Freed u xs top c n (join_prev b cur k)
  join_prev-lowest u xs c n post w add =
      let (least, b_pos, seg) = w.ordered in
      let (m, left, (le, cur_pos, room)) =
        Seg-split k.units (offset b (k.units b)) post (cur ∷ []) top seg in
      let up = Seg-bounds k.units (offset b (k.units b)) post m left in
      let n_post = Seg-above k.units (offset b (k.units b)) post m cur left le in
      let apart : (offset cur (k.units cur) == b) ≡ false =
        ==_ne (offset cur (k.units cur)) b (λ e. omega (arith, e, up, le)) in
      subst (Freed u xs top c n) (sym (join_prev-linked apart)) (
        b ∷ post,
        [],
        record {
          ordered = w.ordered;
          ring = (
            rw (==_refl cur) refl,
            Fwd-store k.next cur b b post cur (λ e. omega (arith, e, up, le)) n_post w.path,
          );
        },
        add,
      )
