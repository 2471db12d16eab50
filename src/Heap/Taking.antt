-- ===== src/Heap/Taking.antt =====
-- `slob_alloc` (lab8/kern/mm/kmalloc.c): a block that is taken out, and one that is cut.
use os.Base.{
  ℕ, ◌-◌, ◌≤◌, ◌<◌, ◌≡◌, ◌≢◌, inl, inr, refl, sym, List, [], ◌∷◌, ◌++◌, arith, Bool-cases, ==_ne,
  ==_refl, ltb→lt, ltb,
}
use mathlib.Core.Path.{subst}
use os.Links.{store}
use os.Links.Chain.{NotIn, Fwd, Fwd-store}
use os.Heap.{Heap, offset}
use os.Heap.Arena.{Seg, Seg-split, Seg-join, Seg-below, Seg-above, Seg-store, Fwd-start}
use os.Heap.Free.{Adds, SameCover, Covers-eq, Adds-pre, Adds-front}

Seg-lower : (u : ℕ → ℕ) (a a' : ℕ) (xs : List ℕ) (b : ℕ) → Seg u a xs b → a' ≤ a → Seg u a' xs b
Seg-lower u a a' [] b le le' = omega arith
Seg-lower u a a' (x ∷ xs) b (le, pos, rest) le' = (omega arith, pos, rest)

module _ (h : Heap) (top n cur : ℕ) (n_pos : 0 < n) where
  abbrev pub u : ℕ → ℕ
  u = h.units

  abbrev pub rest : ℕ
  rest = offset cur n

  abbrev pub cut : ℕ → ℕ
  cut = store (store u rest (u cur - n)) cur n

  -- The block is taken out whole.
  pub drop-ordered : (pre zs : List ℕ) → Seg u 1 (pre ++ cur ∷ zs) top → Seg u 1 (pre ++ zs) top
  drop-ordered pre zs seg =
      let (m, left, (le, pos, right)) = Seg-split u 1 pre (cur ∷ zs) top seg in
      Seg-join u 1 pre m zs top left (Seg-lower u (offset cur (u cur)) m zs top right (omega arith))

  pub drop-Adds : (pre zs : List ℕ) → Adds u (pre ++ zs) u (pre ++ cur ∷ zs) cur (u cur)
  drop-Adds pre zs =
      Adds-pre u u pre zs (cur ∷ zs) cur (u cur) (λ q. (λ c. c, λ c. c)) (Adds-front u cur zs)

  -- What is left behind the units is a block in its place.
  module _ (more : n < u cur) where
    pub cut-rest : cut rest ≡ u cur - n
    cut-rest = rw (==_ne cur rest (λ e. omega (arith, e)), ==_refl rest) refl

    cut-other : (xs : List ℕ) → NotIn cur xs → NotIn rest xs → SameCover cut xs u xs
    cut-other xs out out' q =
        let first = Covers-eq u rest (u cur - n) xs out' q in
        let second = Covers-eq (store u rest (u cur - n)) cur n xs out q in
        (λ c. second.1 (first.1 c), λ c. first.0 (second.0 c))

    pub cut-Seg :
        (a : ℕ) (xs : List ℕ) (b : ℕ) → NotIn cur xs → NotIn rest xs → Seg u a xs b → Seg cut a xs b
    cut-Seg a xs b out out' seg =
        Seg-store (store u rest (u cur - n)) cur n a xs b out
          (Seg-store u rest (u cur - n) a xs b out' seg)

    pub outside :
        (pre zs : List ℕ)
        → Seg u 1 (pre ++ cur ∷ zs) top
        → NotIn cur pre × NotIn rest pre × NotIn cur zs × NotIn rest zs
    outside pre zs seg =
        let (m, left, (le, pos, right)) = Seg-split u 1 pre (cur ∷ zs) top seg in
        (
          Seg-above u 1 pre m cur left le,
          Seg-above u 1 pre m rest left (omega (arith, le)),
          Seg-below u (offset cur (u cur)) zs top cur right (omega (arith, pos)),
          Seg-below u (offset cur (u cur)) zs top rest right (omega (arith, more)),
        )

    pub cut-ordered :
        (pre zs : List ℕ) → Seg u 1 (pre ++ cur ∷ zs) top → Seg cut 1 (pre ++ rest ∷ zs) top
    cut-ordered pre zs seg =
        let (out, out', after, after') = outside pre zs seg in
        let (m, left, (le, pos, right)) = Seg-split u 1 pre (cur ∷ zs) top seg in
        let end : offset cur (u cur) ≡ offset rest (cut rest) = omega (arith, cut-rest, more) in
        Seg-join cut 1 pre m (rest ∷ zs) top (cut-Seg 1 pre m out out' left) (
          omega (arith, le),
          omega (arith, cut-rest, more),
          subst (λ x. Seg cut x zs top) end
              (cut-Seg (offset cur (u cur)) zs top after after' right),
        )

    cut-front :
        (zs : List ℕ) → NotIn cur zs → NotIn rest zs → Adds cut (rest ∷ zs) u (cur ∷ zs) cur n
    cut-front zs out out' q = (
      λ c. elim c [
        | inl w ↦ elim (Bool-cases (ltb q rest)) [
          | inl lower ↦ inr (omega (arith, w), ltb→lt q rest lower)
          | inr upper ↦ inl (inl (ground (arith, upper), omega (arith, w, cut-rest, more)))
        ]
        | inr r ↦ inl (inr ((cut-other zs out out' q).0 r))
      ],
      λ c. elim c [
        | inl old ↦ elim old [
          | inl w ↦ inl (omega (arith, w), omega (arith, w, cut-rest, more))
          | inr r ↦ inr ((cut-other zs out out' q).1 r)
        ]
        | inr w ↦ inl (omega (arith, w), omega (arith, w, more))
      ],
    )

    pub cut-Adds :
        (pre zs : List ℕ)
        → Seg u 1 (pre ++ cur ∷ zs) top
        → Adds cut (pre ++ rest ∷ zs) u (pre ++ cur ∷ zs) cur n
    cut-Adds pre zs seg =
        let (out, out', after, after') = outside pre zs seg in
        Adds-pre cut u pre (rest ∷ zs) (cur ∷ zs) cur n (cut-other pre out out')
          (cut-front zs after after')

  -- The links, with the block `p` before.
  abbrev pub cut_next : ℕ → ℕ → ℕ
  cut_next p = store (store h.next p rest) rest (store h.next p rest cur)

  pub cut-ring :
      (p : ℕ) (ws : List ℕ)
      → p ≢ cur
      → p ≢ rest
      → NotIn p ws
      → NotIn rest ws
      → Fwd h.next p (cur ∷ ws) p
      → Fwd (cut_next p) p (rest ∷ ws) p
  cut-ring p ws other other' out out' (here, ring) = (
    rw (==_ne rest p (λ e. other' (sym e)), ==_refl p) refl,
    Fwd-start (store h.next p rest) cur rest ws p out'
        (Fwd-store h.next p rest cur ws p other out ring),
  )
