-- ===== src/Mm/BestFit/Search.antt =====
-- The search loop of `best_fit_alloc_pages` against a search of the list of blocks.
use os.Base.{
  ℕ, zero, suc, ◌≤◌, ◌<◌, ◌≡◌, ◌≢◌, sym, ap, ◌∙◌, ◌⊎◌, inl, inr, List, [], ◌∷◌, ◌++◌, Option, none,
  some, arith, length, ltb, leb, if◌then◌else◌, ◌==◌, Bool-cases,
}
use mathlib.Core.Path.{subst}
use os.Links.Chain.{Fwd}
use os.Mm.FreeArea.{FreeArea, free_list, page_link}
use os.Mm.FreeArea.Blocks.{Block, Heads, links_of, All, All-All}
use os.Mm.BestFit.{search_best}

abbrev pub start_of : Option Block → Option ℕ
start_of none = none
start_of (some b) = some b.start

-- The search over the blocks: an exact fit ends it, else the smallest block that is large enough.
unfoldable pub best : ℕ → Option Block → ℕ → List Block → Option Block
best n found min_size [] = found
best n found min_size (b ∷ bs) =
    let keep = best n found min_size bs in
    let better = best n (some b) b.size bs in
    if leb n b.size
    then (if b.size == n then some b else if ltb b.size min_size then better else keep)
    else keep

-- The loop returns, with the fuel of one round for each block and one more, what the search finds.
pub search_best-eq-best :
    (fuel : ℕ) (s : FreeArea) (n le : ℕ) (found : Option Block) (min_size : ℕ) (bs : List Block)
    → length bs < fuel
    → Fwd s.links.next le (links_of bs) free_list
    → Heads s.pages bs
    → search_best fuel s n le (start_of found) min_size ≡ some (start_of (best n found min_size bs))
unfolding search_best best
search_best-eq-best zero s n le found min_size bs lt w h = absurd (omega arith)
search_best-eq-best (suc fuel) s n le found min_size [] lt w h = ground arith
search_best-eq-best (suc fuel) s n le found min_size (b ∷ bs) lt w h =
    let link = page_link b.start in
    ground (
      arith,
      search_best-eq-best fuel s n link found min_size bs (omega arith) w.1 h.1,
      search_best-eq-best fuel s n link (some b) b.size bs (omega arith) w.1 h.1,
    )

-- The block stands in the list, with these blocks before and behind it.
abbrev pub Stands : Block → List Block → Type 0
Stands b bs = (xs : List Block) × (ys : List Block) × (bs ≡ xs ++ b ∷ ys)

Stands-cons : (c b : Block) (bs : List Block) → Stands b bs → Stands b (c ∷ bs)
Stands-cons c b bs (xs, ys, e) = (c ∷ xs, ys, ap (◌∷◌ c) e)

-- `b` is large enough, and no block that is large enough is smaller.
abbrev pub IsSmallest : ℕ → Block → List Block → Type 0
IsSmallest n b bs = (n ≤ b.size) × All (λ c. n ≤ c.size → b.size ≤ c.size) bs

-- What one round of the search does.
data Round (n : ℕ) (found : Option Block) (min_size : ℕ) (b : Block) (bs : List Block)
    : Type 0 where
  exact : b.size ≡ n → best n found min_size (b ∷ bs) ≡ some b → Round n found min_size b bs
  smaller :
      n < b.size
      → b.size < min_size
      → best n found min_size (b ∷ bs) ≡ best n (some b) b.size bs
      → Round n found min_size b bs
  skipped :
      (b.size < n) ⊎ (min_size ≤ b.size)
      → best n found min_size (b ∷ bs) ≡ best n found min_size bs
      → Round n found min_size b bs

round :
    (n : ℕ) (found : Option Block) (min_size : ℕ) (b : Block) (bs : List Block)
    → Round n found min_size b bs
unfolding best
round n found min_size b bs = elim (Bool-cases (leb n b.size)) [
  | inr less ↦ skipped (inl (ground arith)) (rw less)
  | inl large ↦ elim (Bool-cases (b.size == n)) [
    | inl same ↦ exact (ground arith) (rw (large, same))
    | inr more ↦ elim (Bool-cases (ltb b.size min_size)) [
      | inl low ↦ smaller (ground arith) (ground arith) (rw (large, more, low))
      | inr high ↦ skipped (inr (ground arith)) (rw (large, more, high))
    ]
  ]
]

-- What the search ends with is what it began with or a block of the list.
pub best-Stands :
    (n : ℕ) (found : Option Block) (min_size : ℕ) (bs : List Block) (b : Block)
    → best n found min_size bs ≡ some b
    → (found ≡ some b) ⊎ Stands b bs
unfolding best
best-Stands n found min_size [] b e = inl e
best-Stands n found min_size (c ∷ bs) b e = elim (round n found min_size c bs) [
  | exact s q ↦ inr ([], bs, cc)
  | smaller lo hi q ↦ elim (best-Stands n (some c) c.size bs b (sym q ∙ e)) [
    | inl same ↦ inr ([], bs, cc)
    | inr st ↦ inr (Stands-cons c b bs st)
  ]
  | skipped k q ↦ elim (best-Stands n found min_size bs b (sym q ∙ e)) [
    | inl same ↦ inl same
    | inr st ↦ inr (Stands-cons c b bs st)
  ]
]

-- A block once found is only given up for a smaller one, so the last is the smallest.
pub best-IsSmallest :
    (n : ℕ) (found : Option Block) (min_size : ℕ) (bs : List Block) (b : Block)
    → n ≤ min_size
    → ((c : Block) → found ≡ some c → c.size ≡ min_size)
    → best n found min_size bs ≡ some b
    → (b.size ≤ min_size) × IsSmallest n b bs
unfolding best
best-IsSmallest n found min_size [] b h kept e =
    let same = kept b e in (omega arith, (omega arith, tt))
best-IsSmallest n found min_size (c ∷ bs) b h kept e = elim (round n found min_size c bs) [
  | exact same q ↦
      let hit : c ≡ b = cc in
      subst (λ d. (d.size ≤ min_size) × IsSmallest n d (c ∷ bs)) hit
        (omega arith, (omega arith, (λ _. omega arith, All-All _ bs (λ d g. omega arith))))
  | smaller lo hi q ↦
      let r =
        best-IsSmallest n (some c) c.size bs b (omega arith) (λ d g. ground arith) (sym q ∙ e) in
      (omega arith, (r.1.0, (λ _. r.0, r.1.1)))
  | skipped k q ↦
      let r = best-IsSmallest n found min_size bs b h kept (sym q ∙ e) in
      (r.0, (r.1.0, (λ g. omega arith, r.1.1)))
]

best-ne-none :
    (n : ℕ) (b : Block) (min_size : ℕ) (bs : List Block) → best n (some b) min_size bs ≢ none
unfolding best
best-ne-none n b min_size [] e = cc
best-ne-none n b min_size (c ∷ bs) e = elim (round n (some b) min_size c bs) [
  | exact same q ↦ cc
  | smaller lo hi q ↦ best-ne-none n c c.size bs (sym q ∙ e)
  | skipped k q ↦ best-ne-none n b min_size bs (sym q ∙ e)
]

-- A search that finds nothing has seen no block that is large enough.
pub best-none :
    (n min_size : ℕ) (bs : List Block)
    → All (λ c. c.size < min_size) bs
    → best n none min_size bs ≡ none
    → All (λ c. c.size < n) bs
best-none n min_size [] small e = tt
best-none n min_size (c ∷ bs) small e = elim (round n none min_size c bs) [
  | exact same q ↦ absurd (cc)
  | smaller lo hi q ↦ absurd (best-ne-none n c c.size bs (sym q ∙ e))
  | skipped k q ↦ (omega arith, best-none n min_size bs small.1 (sym q ∙ e))
]
