-- ===== src/Heap/Search.antt =====
-- `slob_alloc` (lab8/kern/mm/kmalloc.c): the search of the free list for a block that is large enough.
use os.Base.{
  ℕ, zero, suc, ◌+◌, ◌≤◌, ◌<◌, ◌≡◌, ◌⊎◌, inl, inr, refl, sym, ap, ◌∙◌, List, [], ◌∷◌, ◌++◌,
  append_assoc, append-nil, length, arith, some, true, false, Bool-cases, ◌==◌, ==_ne, leb, lt→ltb,
}
use mathlib.Core.Path.{subst}
use os.Links.Chain.{NotIn, NotIn-append, Fwd}
use os.Heap.{Heap, offset, take_units, alloc_loop, slob_alloc, slob_unit, slob_units, page_size}
use os.Heap.Arena.{Seg, Seg-split, Seg-below, Seg-above, IsArena}
use os.Heap.Walk.{Fwd-snoc}
use os.Heap.Cutting.{Turned, Taken, Takes, take_above, take_lowest}

-- A step on goes round in the same list.
Turned-next : (h : Heap) (xs : List ℕ) (p : ℕ) → Turned h xs p → Turned h xs (h.next p)
Turned-next h xs p ([], [], same, here) = subst (Turned h xs) (sym here) ([], [], same, here)
Turned-next h xs p (z ∷ lo, [], same, (here, ring)) = subst (Turned h xs) (sym here) (
  [],
  lo ++ p ∷ [],
  same,
  subst (λ ys. Fwd h.next z ys z) (sym (append-nil (lo ++ p ∷ [])))
      (Fwd-snoc h.next z lo p z ring here),
)
Turned-next h xs p (lo, y ∷ hi, same, (here, ring)) = subst (Turned h xs) (sym here) (
  lo ++ p ∷ [],
  hi,
  append_assoc lo (p ∷ []) (y ∷ hi) ∙ same,
  subst (λ ys. Fwd h.next y ys y) (append_assoc hi lo (p ∷ []))
      (Fwd-snoc h.next y (hi ++ lo) p y ring here),
)

-- Some block has the units.
abbrev pub Fits : (ℕ → ℕ) → ℕ → List ℕ → Type 0
Fits u n [] = ⊥
Fits u n (x ∷ xs) = (n ≤ u x) ⊎ Fits u n xs

Fits-append : (u : ℕ → ℕ) (n : ℕ) (xs ys : List ℕ) → Fits u n (xs ++ ys) → Fits u n xs ⊎ Fits u n ys
Fits-append u n [] ys f = inr f
Fits-append u n (x ∷ xs) ys (inl here) = inl (inl here)
Fits-append u n (x ∷ xs) ys (inr later) = elim (Fits-append u n xs ys later) [
  | inl l ↦ inl (inr l)
  | inr r ↦ inr r
]

Fits-left : (u : ℕ → ℕ) (n : ℕ) (xs ys : List ℕ) → Fits u n xs → Fits u n (xs ++ ys)
Fits-left u n [] ys f = elim f [ ]
Fits-left u n (x ∷ xs) ys (inl here) = inl here
Fits-left u n (x ∷ xs) ys (inr later) = inr (Fits-left u n xs ys later)

Fits-right : (u : ℕ → ℕ) (n : ℕ) (xs ys : List ℕ) → Fits u n ys → Fits u n (xs ++ ys)
Fits-right u n [] ys f = f
Fits-right u n (x ∷ xs) ys f = inr (Fits-right u n xs ys f)

module _ (h : Heap) (n : ℕ) (xs : List ℕ) where
  loop_takes :
      (fuel p cur : ℕ)
      → leb n (h.units cur) ≡ true
      → alloc_loop (suc fuel) n p cur h ≡ some (cur, take_units n p cur h)
  unfolding alloc_loop
  loop_takes fuel p cur e = rw (alloc_loop, e) refl

  loop_on :
      (fuel p cur : ℕ)
      → leb n (h.units cur) ≡ false
      → (cur == h.slobfree) ≡ false
      → alloc_loop (suc fuel) n p cur h ≡ alloc_loop fuel n cur (h.next cur) h
  unfolding alloc_loop
  loop_on fuel p cur e e' = rw (alloc_loop, e, e') refl

  abbrev Found : ℕ → ℕ → Type 0
  Found fuel p =
      (q : ℕ) × (alloc_loop fuel n p (h.next p) h ≡ some (h.next q, take_units n q (h.next q) h))
      × Turned h xs q
      × (n ≤ h.units (h.next q))

  stop_here : (fuel p : ℕ) → Turned h xs p → leb n (h.units (h.next p)) ≡ true → Found (suc fuel) p
  stop_here fuel p at e = (p, loop_takes fuel p (h.next p) e, at, ground (arith, e))

  -- From `p` the pointers lead through `ys` to `slobfree`, the last block that is looked at.
  search-Found :
      (ys : List ℕ) (fuel p : ℕ)
      → Turned h xs p
      → Fwd h.next p ys h.slobfree
      → NotIn h.slobfree ys
      → Fits h.units n (ys ++ h.slobfree ∷ [])
      → length ys < fuel
      → Found fuel p
  search-Found ys zero p at path out fits enough = absurd (omega (arith, enough))
  search-Found [] (suc fuel) p at path out fits enough =
      let big : n ≤ h.units h.slobfree = elim fits [ inl l ↦ l | inr r ↦ absurd r ] in
      stop_here fuel p at (ground (arith, ap h.units path, big))
  search-Found (y ∷ ys) (suc fuel) p at (here, path) (differs, out) fits enough =
      elim (Bool-cases (leb n (h.units (h.next p)))) [
        | inl big ↦ stop_here fuel p at big
        | inr small ↦
            let later : Fits h.units n (ys ++ h.slobfree ∷ []) = elim fits [
              | inl l ↦ absurd (ground (arith, l, ap h.units here, small))
              | inr r ↦ r
            ] in
            let on : (h.next p == h.slobfree) ≡ false =
              ==_ne (h.next p) h.slobfree (λ e. differs (sym e ∙ here)) in
            let (q, ran, turned, fit) =
              search-Found ys fuel (h.next p) (Turned-next h xs p at)
                (subst (λ x. Fwd h.next x ys h.slobfree) (sym here) path) out later
                (omega (arith, enough)) in
            (q, loop_on fuel p (h.next p) small on ∙ ran, turned, fit)
      ]

Turned-Takes :
    (h : Heap) (top n : ℕ) (n_pos : 0 < n) (xs : List ℕ) (q : ℕ)
    → Seg h.units 1 xs top
    → 1 < length xs
    → Turned h xs q
    → n ≤ h.units (h.next q)
    → Takes h top n (h.next q) n_pos q xs
Turned-Takes h top n n_pos xs q seg two ([], [], same, here) fits =
    absurd (omega (arith, two, ap length same))
Turned-Takes h top n n_pos xs q seg two (z ∷ lo, [], same, ring) fits =
    let first = sym ring.0 in
    subst (λ c. Takes h top n c n_pos q xs) first
      (subst (Takes h top n z n_pos q) same (
        take_lowest h top n z n_pos q lo (subst (λ ys. Seg h.units 1 ys top) (sym same) seg) ring
          (subst (λ c. n ≤ h.units c) ring.0 fits)))
Turned-Takes h top n n_pos xs q seg two (lo, y ∷ hi, same, ring) fits =
    let first = sym ring.0 in
    subst (λ c. Takes h top n c n_pos q xs) first
      (subst (Takes h top n y n_pos q) same (
        take_above h top n y n_pos q lo hi (subst (λ ys. Seg h.units 1 ys top) (sym same) seg) ring
          (subst (λ c. n ≤ h.units c) ring.0 fits)))

-- `k` differs from `h` in its free list only.
pub record OnlyList (h k : Heap) : Type 0 where
  pub order : k.order ≡ h.order
  pub pages : k.pages ≡ h.pages
  pub big_next : k.big_next ≡ h.big_next
  pub bigblocks : k.bigblocks ≡ h.bigblocks
  pub grants : k.grants ≡ h.grants
  pub returned : k.returned ≡ h.returned

take_units-OnlyList : (h : Heap) (n q cur : ℕ) → OnlyList h (take_units n q cur h)
unfolding take_units
take_units-OnlyList h n q cur =
    let same : (k : Heap) (c d : ℕ → ℕ)
        → OnlyList k (record k { units = c; next = d; slobfree = q }) =
      λ k c d. record {
        order = refl;
        pages = refl;
        big_next = refl;
        bigblocks = refl;
        grants = refl;
        returned = refl;
      } in
    elim (Bool-cases (h.units cur == n)) [
      | inl e ↦ rw (e) (same h _ _)
      | inr e ↦ rw (e) (same h _ _)
    ]

-- Let the free list be a ring as for `slob_free`, with two blocks or more, of which some has the
-- units for a size greater than 0, with a header more less than a page. Given as many rounds as
-- there are blocks, `slob_alloc` of the size returns a block; the list is such a ring again, its
-- blocks do not meet the units of that block, both together have the bytes that the list had, and
-- there is at most one block less; the block returned has its size in its field. Nothing else of
-- the heap has changed, and no page was asked for.
pub slob_alloc-Taken :
    (h : Heap) (top : ℕ) (lo hi : List ℕ) (fuel size : ℕ)
    → IsArena h top lo h.slobfree hi
    → 1 < length (lo ++ h.slobfree ∷ hi)
    → 0 < size
    → size + slob_unit < page_size
    → Fits h.units (slob_units size) (lo ++ h.slobfree ∷ hi)
    → length (hi ++ lo) < fuel
    → (cur : ℕ) × (k : Heap) × (slob_alloc fuel size h ≡ some (cur, k))
      × Taken h.units (lo ++ h.slobfree ∷ hi) top cur (slob_units size) k
      × OnlyList h k
unfolding slob_alloc
slob_alloc-Taken h top lo hi fuel size wf two pos small fits enough =
    let n = slob_units size in
    let xs = lo ++ h.slobfree ∷ hi in
    let n_pos : 0 < n = omega (arith, pos) in
    let (m, left, (le, s_pos, right)) = Seg-split h.units 1 lo (h.slobfree ∷ hi) top wf.ordered in
    let out =
      NotIn-append h.slobfree hi lo
        (Seg-below h.units (offset h.slobfree (h.units h.slobfree)) hi top h.slobfree right
          (omega (arith, s_pos)))
        (Seg-above h.units 1 lo m h.slobfree left le) in
    let turned : Fits h.units n ((hi ++ lo) ++ h.slobfree ∷ []) =
      elim (Fits-append h.units n lo (h.slobfree ∷ hi) fits) [
        | inl l ↦ Fits-left h.units n (hi ++ lo) (h.slobfree ∷ []) (Fits-right h.units n hi lo l)
        | inr (inl s) ↦ Fits-right h.units n (hi ++ lo) (h.slobfree ∷ []) (inl s)
        | inr (inr r) ↦
            Fits-left h.units n (hi ++ lo) (h.slobfree ∷ []) (Fits-left h.units n hi lo r)
      ] in
    let (q, ran, at, fit) =
      search-Found h n xs (hi ++ lo) fuel h.slobfree (lo, hi, refl, wf.ring) wf.ring out turned
        enough in
    (
      h.next q,
      take_units n q (h.next q) h,
      rw (lt→ltb (size + slob_unit) page_size small) ran,
      Turned-Takes h top n n_pos xs q wf.ordered two at fit,
      take_units-OnlyList h n q (h.next q),
    )
