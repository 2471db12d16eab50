-- ===== src/Heap/Join.antt =====
-- The joins of `slob_free` (lab8/kern/mm/kmalloc.c) at the ends of the list, and the join with the block before.
use os.Base.{
  ℕ, ◌+◌, ◌≤◌, ◌<◌, ◌≡◌, ◌≢◌, ◌⊎◌, inl, inr, refl, sym, List, [], ◌∷◌, ◌++◌, length, arith, true,
  false, Bool-cases, ◌==◌, ==_ne, ==_refl, ==_iff,
}
use mathlib.Core.Path.{subst}
use os.Links.{store}
use os.Links.Chain.{NotIn, NotIn-left, Fwd, head_or}
use os.Heap.{Heap, offset, join_next}
use os.Heap.Arena.{Seg, Seg-split, Seg-join, Seg-store, Fwd-start}
use os.Heap.Walk.{next_lowest}
use os.Heap.Free.{
  Adds, Adds-pre, Adds-front, Adds-merged, Adds-behind, IsLowest, linked_over, linked, Result,
}

Seg-raise :
    (u : ℕ → ℕ) (a a' : ℕ) (xs : List ℕ) (s b : ℕ)
    → Seg u a (xs ++ s ∷ []) b
    → a' ≤ head_or xs s
    → Seg u a' (xs ++ s ∷ []) b
Seg-raise u a a' [] s b (le, pos, rest) le' = (le', pos, rest)
Seg-raise u a a' (x ∷ xs) s b (le, pos, rest) le' = (le', pos, rest)

module _ (h : Heap) (top b cur : ℕ) (pos : 0 < h.units b) where
  -- Behind the highest block.
  pub join_next-highest :
      (lo : List ℕ)
      → Seg h.units 1 (lo ++ cur ∷ []) top
      → Fwd h.next cur lo cur
      → NotIn b (lo ++ cur ∷ [])
      → offset cur (h.units cur) ≤ b
      → offset b (h.units b) ≤ top
      → Result h top b cur pos lo [] (join_next b cur h)
  join_next-highest lo seg ring n after room =
      let (m, left, (le, cur_pos, end)) = Seg-split h.units 1 lo (cur ∷ []) top seg in
      let (e, low) = next_lowest h top b lo cur ring seg in
      let apart : (offset b (h.units b) == h.next cur) ≡ false = ground (arith, e, low, after) in
      subst (Result h top b cur pos lo []) (sym (linked h top b cur pos (h.next cur) refl apart)) (
        [],
        record {
          ordered =
              Seg-join h.units 1 lo m (cur ∷ b ∷ []) top left (le, cur_pos, (after, pos, room));
          path = Fwd-start h.next cur b lo cur (NotIn-left b lo (cur ∷ []) n) ring;
        },
        Adds-pre h.units h.units lo (cur ∷ []) (cur ∷ b ∷ []) b (h.units b) (λ q. (λ c. c, λ c. c))
            (Adds-behind h.units h.units cur [] (b ∷ []) b (h.units b) refl
              (Adds-front h.units b [])),
      )

  abbrev pub Lowest : List ℕ → Heap → Type 0
  Lowest lo k =
      (post : List ℕ) × IsLowest k top b post cur
      × Adds h.units (lo ++ cur ∷ []) k.units (b ∷ post ++ cur ∷ []) b (h.units b)

  link_apart :
      (lo : List ℕ)
      → Seg h.units 1 (lo ++ cur ∷ []) top
      → Fwd h.next cur lo cur
      → NotIn b lo
      → 0 < b
      → offset b (h.units b) ≤ head_or lo cur
      → (offset b (h.units b) == h.next cur) ≡ false
      → Lowest lo (join_next b cur h)
  link_apart lo seg ring n least before apart =
      subst (Lowest lo) (sym (linked h top b cur pos (h.next cur) refl apart)) (
        lo,
        record {
          ordered =
              (omega arith, pos, Seg-raise h.units 1 (offset b (h.units b)) lo cur top seg before);
          path = Fwd-start h.next cur b lo cur n ring;
        },
        Adds-front h.units b (lo ++ cur ∷ []),
      )

  link_touch :
      (z : ℕ) (lo : List ℕ)
      → Seg h.units 1 (z ∷ lo ++ cur ∷ []) top
      → Fwd h.next cur (z ∷ lo) cur
      → NotIn b (lo ++ cur ∷ [])
      → 0 < b
      → (offset b (h.units b) == z) ≡ true
      → Lowest (z ∷ lo) (join_next b cur h)
  link_touch z lo (le, z_pos, seg) (here, ring) n least touch =
      let u = h.units in
      let e = (==_iff (offset b (u b)) z).0 touch in
      let v = u b + u z in
      let u' = store u b v in
      let end : offset z (u z) ≡ offset b v = omega (arith, e) in
      subst (Lowest (z ∷ lo)) (sym (linked_over h top b cur pos z here touch)) (
        lo,
        record {
          ordered = rw (==_refl b) (
            omega arith,
            omega arith,
            subst (λ x. Seg u' x (lo ++ cur ∷ []) top) end
                (Seg-store u b v (offset z (u z)) (lo ++ cur ∷ []) top n seg),
          );
          path = Fwd-start h.next z b lo cur (NotIn-left b lo (cur ∷ []) n) ring;
        },
        Adds-merged u b z (lo ++ cur ∷ []) e n,
      )

  -- Before the lowest block, where the highest leads.
  pub join_next-IsLowest :
      (lo : List ℕ)
      → Seg h.units 1 (lo ++ cur ∷ []) top
      → Fwd h.next cur lo cur
      → NotIn b (lo ++ cur ∷ [])
      → 0 < b
      → offset b (h.units b) ≤ head_or lo cur
      → (0 < length lo) ⊎ (offset b (h.units b) ≢ cur)
      → Lowest lo (join_next b cur h)
  join_next-IsLowest [] seg ring n least before alone =
      let other : offset b (h.units b) ≢ cur = elim alone [
        | inl l ↦ absurd (omega (arith, l))
        | inr r ↦ r
      ] in
      link_apart [] seg ring tt least before (
        subst (λ x. (offset b (h.units b) == x) ≡ false) (sym ring)
          (==_ne (offset b (h.units b)) cur other))
  join_next-IsLowest (z ∷ lo) seg (here, ring) (n, ns) least before alone =
      elim (Bool-cases (offset b (h.units b) == z)) [
        | inl touch ↦ link_touch z lo seg (here, ring) ns least touch
        | inr apart ↦
            link_apart (z ∷ lo) seg (here, ring) (n, NotIn-left b lo (cur ∷ []) ns) least before
              (subst (λ x. (offset b (h.units b) == x) ≡ false) (sym here) apart)
      ]
