-- ===== src/Heap/Freeing.antt =====
-- `slob_free` (lab8/kern/mm/kmalloc.c): its two joins, for a block that meets no free one.
use os.Base.{ℕ, ◌≤◌, ◌<◌, ◌≢◌, ◌⊎◌, inl, inr, sym, List, [], ◌∷◌, ◌++◌, length, arith, ==_ne}
use mathlib.Core.Path.{subst}
use os.Links.{store}
use os.Links.Chain.{NotIn, head_or}
use os.Heap.{Heap, offset, join_next, join_prev}
use os.Heap.Arena.{Seg}
use os.Heap.Walk.{IsPlace, between, above, below}
use os.Heap.Free.{join_next-IsAbove}
use os.Heap.Join.{join_next-highest, join_next-IsLowest}
use os.Heap.Insert.{Freed, join_prev-above, join_prev-lowest}

-- The `n` units at `b` meet none of the blocks.
abbrev pub Apart : (ℕ → ℕ) → List ℕ → ℕ → ℕ → Type 0
Apart u [] b n = Unit
Apart u (x ∷ xs) b n = ((offset b n ≤ x) ⊎ (offset x (u x) ≤ b)) × Apart u xs b n

-- `e` is not the only block.
abbrev pub NotAlone : List ℕ → ℕ → Type 0
NotAlone [] e = Unit
NotAlone (x ∷ []) e = e ≢ x
NotAlone (x ∷ y ∷ xs) e = Unit

pub Apart-NotIn :
    (u : ℕ → ℕ) (a : ℕ) (xs : List ℕ) (top b n : ℕ)
    → Seg u a xs top
    → Apart u xs b n
    → 0 < n
    → NotIn b xs
Apart-NotIn u a [] top b n seg apart pos = tt
Apart-NotIn u a (x ∷ xs) top b n (le, x_pos, seg) (here, rest) pos = (
  λ e. elim here [ inl l ↦ omega (arith, l) | inr r ↦ omega (arith, r) ],
  Apart-NotIn u (offset x (u x)) xs top b n seg rest pos,
)

Apart-right : (u : ℕ → ℕ) (xs ys : List ℕ) (b n : ℕ) → Apart u (xs ++ ys) b n → Apart u ys b n
Apart-right u [] ys b n apart = apart
Apart-right u (x ∷ xs) ys b n (here, rest) = Apart-right u xs ys b n rest

pub Apart-store :
    (u : ℕ → ℕ) (p v : ℕ) (xs : List ℕ) (b n : ℕ)
    → NotIn p xs
    → Apart u xs b n
    → Apart (store u p v) xs b n
Apart-store u p v [] b n out apart = tt
Apart-store u p v (x ∷ xs) b n (differs, out) (here, rest) =
    rw (==_ne p x differs) (here, Apart-store u p v xs b n out rest)

-- A block above is above all of the units, and one below ends before them.
Apart-before :
    (u : ℕ → ℕ) (x : ℕ) (xs : List ℕ) (b n : ℕ) → Apart u (x ∷ xs) b n → b < x → offset b n ≤ x
Apart-before u x xs b n (here, rest) lt = elim here [
  | inl l ↦ l
  | inr r ↦ absurd (omega (arith, r))
]

Apart-after :
    (u : ℕ → ℕ) (x : ℕ) (xs : List ℕ) (b n : ℕ) → Apart u (x ∷ xs) b n → x < b → offset x (u x) ≤ b
Apart-after u x xs b n (here, rest) lt = elim here [ inl l ↦ absurd (omega (arith, l)) | inr r ↦ r ]

Apart-head :
    (u : ℕ → ℕ) (lo : List ℕ) (cur b n : ℕ)
    → Apart u (lo ++ cur ∷ []) b n
    → b < head_or lo cur
    → offset b n ≤ head_or lo cur
Apart-head u [] cur b n apart lt = Apart-before u cur [] b n apart lt
Apart-head u (z ∷ lo) cur b n apart lt = Apart-before u z (lo ++ cur ∷ []) b n apart lt

NotAlone-cases :
    (lo : List ℕ) (cur e : ℕ) → NotAlone (lo ++ cur ∷ []) e → (0 < length lo) ⊎ (e ≢ cur)
NotAlone-cases [] cur e alone = inr alone
NotAlone-cases (z ∷ lo) cur e alone = inl (omega arith)

module _ (h : Heap) (top b : ℕ) (least : 0 < b) (pos : 0 < h.units b)
    (room : offset b (h.units b) ≤ top) where
  abbrev pub joined : ℕ → Heap
  joined cur = join_prev b cur (join_next b cur h)

  -- The two joins, wherever the loop ended.
  pub joined-Freed :
      (xs : List ℕ) (cur : ℕ)
      → Seg h.units 1 xs top
      → Apart h.units xs b (h.units b)
      → NotAlone xs (offset b (h.units b))
      → IsPlace h b xs cur
      → Freed h.units xs top b (h.units b) (joined cur)
  joined-Freed xs cur seg apart alone (between lo _ y hi same lt gt ring) =
      let seg' = subst (λ zs. Seg h.units 1 zs top) (sym same) seg in
      let apart' = subst (λ zs. Apart h.units zs b (h.units b)) (sym same) apart in
      let both = Apart-right h.units lo (cur ∷ y ∷ hi) b (h.units b) apart' in
      let (post, above_cur, add) =
        join_next-IsAbove h top b cur pos lo y hi seg' ring
          (Apart-NotIn h.units 1 (lo ++ cur ∷ y ∷ hi) top b (h.units b) seg' apart' pos)
          (Apart-after h.units cur (y ∷ hi) b (h.units b) both lt)
          (Apart-before h.units y hi b (h.units b) both.1 gt) in
      subst (λ zs. Freed h.units zs top b (h.units b) (joined cur)) same
        (join_prev-above (join_next b cur h) top cur b h.units (lo ++ cur ∷ y ∷ hi) b (h.units b) lo
          post above_cur add)
  joined-Freed xs cur seg apart alone (above lo _ same lt ring) =
      let seg' = subst (λ zs. Seg h.units 1 zs top) (sym same) seg in
      let apart' = subst (λ zs. Apart h.units zs b (h.units b)) (sym same) apart in
      let (post, above_cur, add) =
        join_next-highest h top b cur pos lo seg' ring
          (Apart-NotIn h.units 1 (lo ++ cur ∷ []) top b (h.units b) seg' apart' pos)
          (Apart-after h.units cur [] b (h.units b)
            (Apart-right h.units lo (cur ∷ []) b (h.units b) apart') lt)
          room in
      subst (λ zs. Freed h.units zs top b (h.units b) (joined cur)) same
        (join_prev-above (join_next b cur h) top cur b h.units (lo ++ cur ∷ []) b (h.units b) lo
          post above_cur add)
  joined-Freed xs cur seg apart alone (below lo _ same lt ring) =
      let seg' = subst (λ zs. Seg h.units 1 zs top) (sym same) seg in
      let apart' = subst (λ zs. Apart h.units zs b (h.units b)) (sym same) apart in
      let alone' = subst (λ zs. NotAlone zs (offset b (h.units b))) (sym same) alone in
      let (post, lowest, add) =
        join_next-IsLowest h top b cur pos lo seg' ring
          (Apart-NotIn h.units 1 (lo ++ cur ∷ []) top b (h.units b) seg' apart' pos) least
          (Apart-head h.units lo cur b (h.units b) apart' lt)
          (NotAlone-cases lo cur (offset b (h.units b)) alone') in
      subst (λ zs. Freed h.units zs top b (h.units b) (joined cur)) same
        (join_prev-lowest (join_next b cur h) top cur b h.units (lo ++ cur ∷ []) b (h.units b) post
          lowest add)
