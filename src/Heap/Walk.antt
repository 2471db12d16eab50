-- ===== src/Heap/Walk.antt =====
-- The loop of `slob_free` (lab8/kern/mm/kmalloc.c): it comes to the block behind which a block goes.
use os.Base.{
  ℕ, zero, suc, ◌+◌, ◌≤◌, ◌<◌, ◌≡◌, inl, inr, refl, sym, ap, ◌∙◌, List, [], ◌∷◌, ◌++◌, append_assoc,
  append-nil, length, arith, some, true, false, Bool-cases, ltb, ltb→lt,
}
use mathlib.Core.Path.{subst}
use os.Links.Chain.{NotIn, NotIn-right, Fwd, head_or}
use os.Heap.{Heap, offset, fits_behind, find_place}
use os.Heap.Arena.{Seg, Seg-split, Seg-bounds}

-- The block `cur` of the list `xs` behind which `b` goes.
pub data IsPlace (h : Heap) (b : ℕ) (xs : List ℕ) : ℕ → Type 0 where
  between :
      (lo : List ℕ) (cur y : ℕ) (hi : List ℕ)
      → lo ++ cur ∷ y ∷ hi ≡ xs
      → cur < b
      → b < y
      → Fwd h.next cur (y ∷ hi ++ lo) cur
      → IsPlace h b xs cur
  above :
      (lo : List ℕ) (cur : ℕ)
      → lo ++ cur ∷ [] ≡ xs
      → cur < b
      → Fwd h.next cur lo cur
      → IsPlace h b xs cur
  below :
      (lo : List ℕ) (cur : ℕ)
      → lo ++ cur ∷ [] ≡ xs
      → b < head_or lo cur
      → Fwd h.next cur lo cur
      → IsPlace h b xs cur

pub Fwd-snoc :
    (f : ℕ → ℕ) (a : ℕ) (xs : List ℕ) (s e : ℕ) → Fwd f a xs s → f s ≡ e → Fwd f a (xs ++ s ∷ []) e
Fwd-snoc f a [] s e w v = (w, v)
Fwd-snoc f a (x ∷ xs) s e (w, ws) v = (w, Fwd-snoc f x xs s e ws v)

module _ (h : Heap) (top b : ℕ) where
  pub next_lowest :
      (lo : List ℕ) (s : ℕ)
      → Fwd h.next s lo s
      → Seg h.units 1 (lo ++ s ∷ []) top
      → (h.next s ≡ head_or lo s) × (head_or lo s ≤ s)
  next_lowest [] s w seg = (w, omega arith)
  next_lowest (z ∷ lo) s w (le, pos, seg) =
      let (m, left, right) = Seg-split h.units (offset z (h.units z)) lo (s ∷ []) top seg in
      (w.0, omega (arith, Seg-bounds h.units (offset z (h.units z)) lo m left, right.0))

  next_higher : (lo : List ℕ) (s y : ℕ) (hi : List ℕ) → Seg h.units 1 (lo ++ s ∷ y ∷ hi) top → s < y
  next_higher lo s y hi seg =
      let (m, left, right) = Seg-split h.units 1 lo (s ∷ y ∷ hi) top seg in
      omega (arith, right.2.0, right.1)

  abbrev Places : ℕ → ℕ → List ℕ → Type 0
  Places fuel s xs = (cur : ℕ) × (find_place fuel b s h ≡ some cur) × IsPlace h b xs cur

  here : (fuel s : ℕ) → fits_behind b s h ≡ true → find_place (suc fuel) b s h ≡ some s
  unfolding find_place
  here fuel s e = rw (find_place, e) refl

  further :
      (fuel s : ℕ) (y : ℕ)
      → h.next s ≡ y
      → fits_behind b s h ≡ false
      → find_place (suc fuel) b s h ≡ find_place fuel b y h
  unfolding find_place
  further fuel s y e miss = rw (find_place, miss) (ap (λ x. find_place fuel b x h) e)

  -- From a block below `b`, the walk goes up.
  upwards :
      (hi : List ℕ) (fuel : ℕ) (lo : List ℕ) (s : ℕ)
      → Seg h.units 1 (lo ++ s ∷ hi) top
      → Fwd h.next s (hi ++ lo) s
      → NotIn b hi
      → s < b
      → length hi < fuel
      → Places fuel s (lo ++ s ∷ hi)
  upwards hi zero lo s seg w n lt enough = absurd (omega arith)
  upwards [] (suc fuel) lo s seg w n lt enough =
      let (e, le) = next_lowest lo s w seg in
      let fits : fits_behind b s h ≡ true = ground (arith, e, le, lt) in
      (s, here fuel s fits, above lo s refl lt w)
  upwards (y ∷ hi) (suc fuel) lo s seg (e, w) (n, ns) lt enough = elim (Bool-cases (ltb b y)) [
    | inl stop ↦
        let fits : fits_behind b s h ≡ true = ground (arith, e, lt, stop) in
        (s, here fuel s fits, between lo s y hi refl lt (ltb→lt b y stop) (e, w))
    | inr on ↦
        let miss : fits_behind b s h ≡ false =
          let up = next_higher lo s y hi seg in ground (arith, e, lt, on, n, up) in
        let same : (lo ++ s ∷ []) ++ y ∷ hi ≡ lo ++ s ∷ y ∷ hi =
          append_assoc lo (s ∷ []) (y ∷ hi) in
        let (cur, ran, place) =
          upwards hi fuel (lo ++ s ∷ []) y (subst (λ xs. Seg h.units 1 xs top) (sym same) seg)
            (subst (λ xs. Fwd h.next y xs y) (append_assoc hi lo (s ∷ []))
              (Fwd-snoc h.next y (hi ++ lo) s y w e))
            ns (ground (arith, n, on)) (omega arith) in
        (cur, further fuel s y e miss ∙ ran, subst (λ xs. IsPlace h b xs cur) same place)
  ]

  -- From a block above `b`, the walk goes to the highest block, and on at the lowest.
  downwards :
      (hi : List ℕ) (fuel : ℕ) (lo : List ℕ) (s : ℕ)
      → Seg h.units 1 (lo ++ s ∷ hi) top
      → Fwd h.next s (hi ++ lo) s
      → NotIn b (lo ++ s ∷ hi)
      → b < s
      → length hi + length (lo ++ s ∷ hi) < fuel
      → Places fuel s (lo ++ s ∷ hi)
  downwards hi zero lo s seg w n lt enough = absurd (omega arith)
  downwards [] (suc fuel) [] s seg w n lt enough =
      let fits : fits_behind b s h ≡ true = ground (arith, w, lt) in
      (s, here fuel s fits, below [] s refl lt w)
  downwards [] (suc fuel) (z ∷ lo) s seg (e, w) (n, ns) lt enough =
      let (same, le) = next_lowest (z ∷ lo) s (e, w) seg in
      elim (Bool-cases (ltb b z)) [
        | inl stop ↦
            let fits : fits_behind b s h ≡ true = ground (arith, e, le, stop) in
            (s, here fuel s fits, below (z ∷ lo) s refl (ltb→lt b z stop) (e, w))
        | inr on ↦
            let miss : fits_behind b s h ≡ false = ground (arith, e, lt, on) in
            let (cur, ran, place) =
              upwards (lo ++ s ∷ []) fuel [] z seg
                (subst (λ xs. Fwd h.next z xs z) (sym (append-nil (lo ++ s ∷ [])))
                  (Fwd-snoc h.next z lo s z w e))
                ns (ground (arith, n, on)) (omega (arith, enough)) in
            (cur, further fuel s z e miss ∙ ran, place)
      ]
  downwards (y ∷ hi) (suc fuel) lo s seg (e, w) n lt enough =
      let up = next_higher lo s y hi seg in
      let miss : fits_behind b s h ≡ false = ground (arith, e, lt, up) in
      let same = append_assoc lo (s ∷ []) (y ∷ hi) in
      let (cur, ran, place) =
        downwards hi fuel (lo ++ s ∷ []) y (subst (λ xs. Seg h.units 1 xs top) (sym same) seg)
          (subst (λ xs. Fwd h.next y xs y) (append_assoc hi lo (s ∷ []))
            (Fwd-snoc h.next y (hi ++ lo) s y w e))
          (subst (NotIn b) (sym same) n) (omega arith) (omega (arith, enough, ap length same)) in
      (cur, further fuel s y e miss ∙ ran, subst (λ xs. IsPlace h b xs cur) same place)

  pub find_place-IsPlace :
      (hi : List ℕ) (fuel : ℕ) (lo : List ℕ) (s : ℕ)
      → Seg h.units 1 (lo ++ s ∷ hi) top
      → Fwd h.next s (hi ++ lo) s
      → NotIn b (lo ++ s ∷ hi)
      → length hi + length (lo ++ s ∷ hi) < fuel
      → Places fuel s (lo ++ s ∷ hi)
  find_place-IsPlace hi fuel lo s seg w n enough = elim (Bool-cases (ltb s b)) [
    | inl up ↦
        upwards hi fuel lo s seg w (NotIn-right b lo (s ∷ hi) n).1 (ltb→lt s b up) (omega arith)
    | inr down ↦
        downwards hi fuel lo s seg w n (ground (arith, down, (NotIn-right b lo (s ∷ hi) n).0))
          enough
  ]
