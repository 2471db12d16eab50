-- ===== src/Heap/Free.antt =====
-- The first join of `slob_free` (lab8/kern/mm/kmalloc.c): a block is linked to what follows it.
use os.Base.{
  ℕ, ◌+◌, ◌≤◌, ◌<◌, ◌≡◌, ◌⊎◌, ◌↔◌, inl, inr, refl, sym, List, [], ◌∷◌, ◌++◌, arith, true, false,
  Bool-cases, ◌==◌, ==_ne, ==_refl, ==_iff, ltb,
}
use mathlib.Core.Path.{subst}
use os.Links.{store}
use os.Links.Chain.{NotIn, NotIn-left, NotIn-right, NotIn-append, Fwd}
use os.Heap.{Heap, offset, join_next}
use os.Heap.Arena.{
  Seg, Seg-split, Seg-join, Seg-store, Covers, Covers-store, Covers-append, Within, Fwd-start,
}

-- What a list of blocks covers, and the bytes of `b` beside it.
abbrev pub Adds : (ℕ → ℕ) → List ℕ → (ℕ → ℕ) → List ℕ → ℕ → ℕ → Type 0
Adds u xs u' ys b n = (q : ℕ) → Covers u' ys q ↔ (Covers u xs q ⊎ Within b n q)

abbrev pub SameCover : (ℕ → ℕ) → List ℕ → (ℕ → ℕ) → List ℕ → Type 0
SameCover u xs u' ys = (q : ℕ) → Covers u' ys q ↔ Covers u xs q

pub Covers-eq : (u : ℕ → ℕ) (p v : ℕ) (xs : List ℕ) → NotIn p xs → SameCover u xs (store u p v) xs
Covers-eq u p v xs n q =
    let e = Covers-store u p v xs q n in (λ c. subst (λ T. T) e c, λ c. subst (λ T. T) (sym e) c)

pub Adds-pre :
    (u u' : ℕ → ℕ) (pre xs ys : List ℕ) (b n : ℕ)
    → SameCover u pre u' pre
    → Adds u xs u' ys b n
    → Adds u (pre ++ xs) u' (pre ++ ys) b n
Adds-pre u u' pre xs ys b n same add q = (
  λ c. elim ((Covers-append u' pre ys q).0 c) [
    | inl l ↦ inl ((Covers-append u pre xs q).1 (inl ((same q).0 l)))
    | inr r ↦ elim ((add q).0 r) [
      | inl old ↦ inl ((Covers-append u pre xs q).1 (inr old))
      | inr new ↦ inr new
    ]
  ],
  λ c. elim c [
    | inl old ↦ elim ((Covers-append u pre xs q).0 old) [
      | inl l ↦ (Covers-append u' pre ys q).1 (inl ((same q).1 l))
      | inr r ↦ (Covers-append u' pre ys q).1 (inr ((add q).1 (inl r)))
    ]
    | inr new ↦ (Covers-append u' pre ys q).1 (inr ((add q).1 (inr new)))
  ],
)

pub Adds-front : (u : ℕ → ℕ) (b : ℕ) (xs : List ℕ) → Adds u xs u (b ∷ xs) b (u b)
Adds-front u b xs q =
    (λ c. elim c [ inl w ↦ inr w | inr r ↦ inl r ], λ c. elim c [ inl r ↦ inr r | inr w ↦ inl w ])

-- `b` takes over the block `y` right behind it.
pub Adds-merged :
    (u : ℕ → ℕ) (b y : ℕ) (xs : List ℕ)
    → offset b (u b) ≡ y
    → NotIn b xs
    → Adds u (y ∷ xs) (store u b (u b + u y)) (b ∷ xs) b (u b)
Adds-merged u b y xs e n q =
    let own : store u b (u b + u y) b ≡ u b + u y = rw (==_refl b) refl in
    (
      λ c. elim c [
        | inl w ↦ elim (Bool-cases (ltb q y)) [
          | inl lower ↦ inr (omega (arith, w), ground (arith, lower, e))
          | inr upper ↦ inl (inl (ground (arith, upper), omega (arith, w, own, e)))
        ]
        | inr r ↦ inl (inr ((Covers-eq u b (u b + u y) xs n q).0 r))
      ],
      λ c. elim c [
        | inl old ↦ elim old [
          | inl w ↦ inl (omega (arith, w, e), omega (arith, w, own, e))
          | inr r ↦ inr ((Covers-eq u b (u b + u y) xs n q).1 r)
        ]
        | inr w ↦ inl (omega (arith, w), omega (arith, w, own))
      ],
    )

-- Behind the block `s`, which is none of the others.
pub Adds-behind :
    (u u' : ℕ → ℕ) (s : ℕ) (xs ys : List ℕ) (b n : ℕ)
    → u' s ≡ u s
    → Adds u xs u' ys b n
    → Adds u (s ∷ xs) u' (s ∷ ys) b n
Adds-behind u u' s xs ys b n e add = Adds-pre u u' (s ∷ []) xs ys b n same add
  where
    same : SameCover u (s ∷ []) u' (s ∷ [])
    same q = (
      λ c. subst (λ k. ((s ≤ q) × (q < offset s k)) ⊎ ⊥) e c,
      λ c. subst (λ k. ((s ≤ q) × (q < offset s k)) ⊎ ⊥) (sym e) c,
    )

-- `b` is linked to what follows it, but `cur` does not lead to it yet: above `cur`, or lowest.
pub record IsAbove (h : Heap) (top : ℕ) (pre : List ℕ) (cur b : ℕ) (post : List ℕ) : Type 0 where
  pub ordered : Seg h.units 1 (pre ++ cur ∷ b ∷ post) top
  pub path : Fwd h.next b (post ++ pre) cur

pub record IsLowest (h : Heap) (top : ℕ) (b : ℕ) (post : List ℕ) (cur : ℕ) : Type 0 where
  pub ordered : Seg h.units 1 ((b ∷ post) ++ cur ∷ []) top
  pub path : Fwd h.next b post cur

module _ (h : Heap) (top b cur : ℕ) (pos : 0 < h.units b) where
  -- What `join_next` comes to, with the block `n` that follows `cur`.
  abbrev pub over : ℕ → Heap
  over n = record h {
    units = store h.units b (h.units b + h.units n);
    next = store h.next b (h.next n);
  }

  pub linked_over :
      (n : ℕ) → h.next cur ≡ n → (offset b (h.units b) == n) ≡ true → join_next b cur h ≡ over n
  unfolding join_next
  linked_over n here touch = rw (here, touch) refl

  pub linked :
      (n : ℕ)
      → h.next cur ≡ n
      → (offset b (h.units b) == n) ≡ false
      → join_next b cur h ≡ record h { next = store h.next b n }
  unfolding join_next
  linked n here apart = rw (here, apart) refl

  abbrev pub Result : List ℕ → List ℕ → Heap → Type 0
  Result lo xs k =
      (post : List ℕ) × IsAbove k top lo cur b post
      × Adds h.units (lo ++ cur ∷ xs) k.units (lo ++ cur ∷ b ∷ post) b (h.units b)

  -- Linking `b` to the block `y` that follows `cur`, or to the one behind that.
  pub join_next-IsAbove :
      (lo : List ℕ) (y : ℕ) (hi : List ℕ)
      → Seg h.units 1 (lo ++ cur ∷ y ∷ hi) top
      → Fwd h.next cur (y ∷ hi ++ lo) cur
      → NotIn b (lo ++ cur ∷ y ∷ hi)
      → offset cur (h.units cur) ≤ b
      → offset b (h.units b) ≤ y
      → Result lo (y ∷ hi) (join_next b cur h)
  join_next-IsAbove lo y hi seg (here, ring) n after before =
      let (m, left, right) = Seg-split h.units 1 lo (cur ∷ y ∷ hi) top seg in
      let (le, cur_pos, (gap, y_pos, rest)) = right in
      let n_lo = NotIn-left b lo (cur ∷ y ∷ hi) n in
      let (n_cur, (n_y, n_hi)) = NotIn-right b lo (cur ∷ y ∷ hi) n in
      let all = NotIn-append b hi lo n_hi n_lo in
      let u = h.units in
      elim (Bool-cases (offset b (u b) == y)) [
        | inl touch ↦
            let e = (==_iff (offset b (u b)) y).0 touch in
            let v = u b + u y in
            let u' = store u b v in
            let end : offset y (u y) ≡ offset b v = omega (arith, e) in
            subst (Result lo (y ∷ hi)) (sym (linked_over y here touch)) (
              hi,
              record {
                ordered = Seg-join u' 1 lo m (cur ∷ b ∷ hi) top (Seg-store u b v 1 lo m n_lo left) (
                    rw (==_ne b cur n_cur, ==_refl b)
                      (
                        le,
                        cur_pos,
                        (
                          after,
                          omega arith,
                          subst (λ x. Seg u' x hi top) end
                              (Seg-store u b v (offset y (u y)) hi top n_hi rest),
                        ),
                      ));
                path = Fwd-start h.next y b (hi ++ lo) cur all ring;
              },
              Adds-pre u u' lo (cur ∷ y ∷ hi) (cur ∷ b ∷ hi) b (u b) (Covers-eq u b v lo n_lo) (
                  Adds-behind u u' cur (y ∷ hi) (b ∷ hi) b (u b) (rw (==_ne b cur n_cur) refl)
                    (Adds-merged u b y hi e n_hi)),
            )
        | inr apart ↦ subst (Result lo (y ∷ hi)) (sym (linked y here apart)) (
          y ∷ hi,
          record {
            ordered =
                Seg-join u 1 lo m (cur ∷ b ∷ y ∷ hi) top left
                  (le, cur_pos, (after, pos, (before, y_pos, rest)));
            path =
                subst (λ x. Fwd (store h.next b x) b (y ∷ hi ++ lo) cur) here
                  (Fwd-start h.next cur b (y ∷ hi ++ lo) cur (n_y, all) (here, ring));
          },
          Adds-pre u u lo (cur ∷ y ∷ hi) (cur ∷ b ∷ y ∷ hi) b (u b) (λ q. (λ c. c, λ c. c))
              (Adds-behind u u cur (y ∷ hi) (b ∷ y ∷ hi) b (u b) refl (Adds-front u b (y ∷ hi))),
        )
      ]
