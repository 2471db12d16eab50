-- ===== src/Mm/BestFit/Free.antt =====
-- `best_fit_free_pages` on a well-formed free area: total, and well-formed again, with the block
-- joined to its neighbours.
use os.Base.{
  ℕ, ◌+◌, ◌≤◌, ◌<◌, ◌≡◌, refl, sym, ap, ◌∙◌, ◌≢◌, ◌⊎◌, inl, inr, List, [], ◌∷◌, ◌++◌, some, arith,
  false, append_assoc, if◌then◌else◌, ◌==◌, Bool-cases, lt→ltb,
}
use mathlib.Core.Path.{subst}
use os.Links.{list_next, list_prev}
use os.Links.Chain.{last_or, NotIn, NotIn-append, Fwd-after, Bwd-gap}
use os.Mm.FreeArea.{FreeArea, free_list, page_link}
use os.Mm.FreeArea.Blocks.{Block, Holds, links_of, links_of-append}
use os.Mm.FreeArea.Middle.{mid_ring, mid-Heads}
use os.Mm.FreeArea.Join.{joined, merge, merge-Holds}
use os.Mm.FreeArea.Wipe.{wiped, reset_used-eq-wiped, wiped-Holds}
use os.Mm.FreeArea.Insert.{Gap, block, inserted, inserted-Holds, apart_left, apart_right}
use os.Mm.BestFit.{best_fit_free_pages, merge_prev, merge_next}
use os.Mm.BestFit.Place.{link_block-eq}

-- `b` before `ys`, joined to the first of them if it ends where that begins.
abbrev pub join_next : Block → List Block → List Block
join_next b [] = b ∷ []
join_next b (c ∷ ys) = if b.start + b.size == c.start then joined b c ∷ ys else b ∷ c ∷ ys

-- `b` between `xs` and `ys`, joined to the last of `xs` and the first of `ys` that it touches.
abbrev pub put_between : List Block → Block → List Block → List Block
put_between [] b ys = join_next b ys
put_between (a ∷ []) b ys =
    if a.start + a.size == b.start then join_next (joined a b) ys else a ∷ join_next b ys
put_between (a ∷ x ∷ xs) b ys = a ∷ put_between (x ∷ xs) b ys

put_between-snoc :
    (zs : List Block) (a b : Block) (ys : List Block)
    → put_between (zs ++ a ∷ []) b ys
      ≡ zs
        ++ (if a.start + a.size == b.start then join_next (joined a b) ys else a ∷ join_next b ys)
put_between-snoc [] a b ys = refl
put_between-snoc (z ∷ []) a b ys = refl
put_between-snoc (z ∷ y ∷ zs) a b ys = ap (◌∷◌ z) (put_between-snoc (y ∷ zs) a b ys)

-- A list is empty or has a last entry.
snoc_cases : (xs : List Block) → (xs ≡ []) ⊎ ((zs : List Block) × (a : Block) × (xs ≡ zs ++ a ∷ []))
snoc_cases [] = inl refl
snoc_cases (x ∷ xs) = elim (snoc_cases xs) [
  | inl e ↦ inr ([], x, ap (◌∷◌ x) e)
  | inr (zs, a, e) ↦ inr (x ∷ zs, a, ap (◌∷◌ x) e)
]

last_or-snoc :
    (p : ℕ) (zs : List Block) (a : Block) → last_or p (links_of (zs ++ a ∷ [])) ≡ page_link a.start
last_or-snoc p [] a = refl
last_or-snoc p (z ∷ zs) a = last_or-snoc (page_link z.start) zs a

-- The merge with the next block, in each case of the code.
merge_next-touch :
    (s : FreeArea) (p q : ℕ)
    → list_next (page_link p) s.links ≡ page_link q
    → p + (s.pages p).property ≡ q
    → merge_next p s ≡ merge p q s
unfolding merge_next
merge_next-touch s p q next touch = rw next (ground arith)

merge_next-apart :
    (s : FreeArea) (p q : ℕ)
    → list_next (page_link p) s.links ≡ page_link q
    → p + (s.pages p).property ≢ q
    → merge_next p s ≡ s
unfolding merge_next
merge_next-apart s p q next apart = rw next (ground arith)

pub merge_next-last :
    (s : FreeArea) (p : ℕ) → list_next (page_link p) s.links ≡ free_list → merge_next p s ≡ s
unfolding merge_next
merge_next-last s p e = rw e refl

merge_next-Holds :
    {s : FreeArea} (xs : List Block) (b : Block) (ys : List Block)
    → Holds s (xs ++ b ∷ ys)
    → Holds (merge_next b.start s) (xs ++ join_next b ys)
merge_next-Holds {s} xs b [] h =
    let after =
      Fwd-after s.links.next free_list (links_of xs) (page_link b.start) [] free_list
        (mid_ring xs b [] h).forward in
    subst (λ t. Holds t (xs ++ b ∷ [])) (sym (merge_next-last s b.start after)) h
merge_next-Holds {s} xs b (c ∷ ys) h =
    let after =
      Fwd-after s.links.next free_list (links_of xs) (page_link b.start) (links_of (c ∷ ys))
        free_list (mid_ring xs b (c ∷ ys) h).forward in
    let size = (mid-Heads xs b (c ∷ ys) h).0.0 in
    elim (Bool-cases (b.start + b.size == c.start)) [
      | inl touch ↦
          rw (touch, merge_next-touch s b.start c.start after (ground arith))
            (merge-Holds xs b c ys h (ground arith))
      | inr apart ↦ rw (apart, merge_next-apart s b.start c.start after (ground arith)) h
    ]

-- The merge with the block before, in each case of the code.
merge_prev-touch :
    (s : FreeArea) (p q : ℕ)
    → list_prev (page_link q) s.links ≡ page_link p
    → p + (s.pages p).property ≡ q
    → merge_prev q s ≡ (merge p q s, p)
unfolding merge_prev
merge_prev-touch s p q before touch = rw before (ground arith)

pub merge_prev-apart :
    (s : FreeArea) (p q : ℕ)
    → list_prev (page_link q) s.links ≡ page_link p
    → p + (s.pages p).property ≢ q
    → merge_prev q s ≡ (s, q)
unfolding merge_prev
merge_prev-apart s p q before apart = rw before (ground arith)

merge_prev-first :
    (s : FreeArea) (q : ℕ) → list_prev (page_link q) s.links ≡ free_list → merge_prev q s ≡ (s, q)
unfolding merge_prev
merge_prev-first s q e = rw e refl

-- Both merges of `free_pages`, in their order.
abbrev pub merges : ℕ → FreeArea → FreeArea
merges base s = let merged = merge_prev base s in merge_next merged.1 merged.0

merges-snoc :
    {s : FreeArea} (zs : List Block) (a b : Block) (ys : List Block)
    → Holds s (zs ++ a ∷ b ∷ ys)
    → list_prev (page_link b.start) s.links ≡ page_link a.start
    → Holds (merges b.start s) (
        zs
        ++ (if a.start + a.size == b.start then join_next (joined a b) ys else a ∷ join_next b ys))
merges-snoc {s} zs a b ys h before =
    let size = (mid-Heads zs a (b ∷ ys) h).0.0 in
    elim (Bool-cases (a.start + a.size == b.start)) [
      | inl touch ↦
          rw (touch, merge_prev-touch s a.start b.start before (ground arith))
            (merge_next-Holds zs (joined a b) ys (merge-Holds zs a b ys h (ground arith)))
      | inr apart ↦
          rw (apart, merge_prev-apart s a.start b.start before (ground arith))
            (subst (λ ws. Holds (merge_next b.start s) ws)
              (append_assoc zs (a ∷ []) (join_next b ys))
              (merge_next-Holds (zs ++ a ∷ []) b ys
                (subst (λ ws. Holds s ws) (sym (append_assoc zs (a ∷ []) (b ∷ ys))) h)))
    ]

before-eq :
    {s : FreeArea} (xs : List Block) (b : Block) (ys : List Block)
    → Holds s (xs ++ b ∷ ys)
    → list_prev (page_link b.start) s.links ≡ last_or free_list (links_of xs)
before-eq {s} xs b ys h =
    Bwd-gap s.links.prev free_list (links_of xs) (links_of (b ∷ ys)) free_list
      (mid_ring xs b ys h).backward

merges-first :
    {s : FreeArea} (b : Block) (ys : List Block)
    → Holds s (b ∷ ys)
    → Holds (merges b.start s) (join_next b ys)
merges-first {s} b ys h =
    rw (merge_prev-first s b.start (before-eq [] b ys h)) (merge_next-Holds [] b ys h)

merges-last :
    {s : FreeArea} (zs : List Block) (a b : Block) (ys : List Block)
    → Holds s ((zs ++ a ∷ []) ++ b ∷ ys)
    → Holds (merges b.start s) (put_between (zs ++ a ∷ []) b ys)
merges-last {s} zs a b ys h = rw (put_between-snoc zs a b ys) (
    merges-snoc zs a b ys (subst (λ ws. Holds s ws) (append_assoc zs (a ∷ []) (b ∷ ys)) h)
      (before-eq (zs ++ a ∷ []) b ys h ∙ last_or-snoc free_list zs a))

pub merges-Holds :
    {s : FreeArea} (xs : List Block) (b : Block) (ys : List Block)
    → Holds s (xs ++ b ∷ ys)
    → Holds (merges b.start s) (put_between xs b ys)
merges-Holds {s} xs b ys h = elim (snoc_cases xs) [
  | inl nil ↦
      subst (λ ws. Holds s (ws ++ b ∷ ys) → Holds (merges b.start s) (put_between ws b ys))
        (sym nil) (merges-first b ys) h
  | inr (zs, a, e) ↦
      subst (λ ws. Holds s (ws ++ b ∷ ys) → Holds (merges b.start s) (put_between ws b ys)) (sym e)
        (merges-last zs a b ys) h
]

module _ {s : FreeArea} (xs : List Block) (base n : ℕ) (ys : List Block) (h : Holds s (xs ++ ys))
    (g : Gap s xs base n ys) (pos : 0 < n)
    (used : (q : ℕ) → base ≤ q → q < base + n → (s.pages q).reserved ≡ false) where
  pub unlinked : (q : ℕ) → base ≤ q → q < base + n → NotIn (page_link q) (links_of (xs ++ ys))
  unlinked q lo hi =
      subst (λ zs. NotIn (page_link q) zs) (sym (links_of-append xs ys))
        (NotIn-append (page_link q) (links_of xs) (links_of ys)
          (apart_left xs base n ys h g pos q lo) (apart_right xs base n ys h g pos q hi))

  abbrev clean : FreeArea
  clean = record s { pages = wiped n base s.pages }

  abbrev linked : FreeArea
  linked = inserted (last_or free_list (links_of xs)) base n clean

  linked-Holds : Holds linked (xs ++ block base n ∷ ys)
  linked-Holds =
      inserted-Holds xs base n ys (wiped-Holds n base unlinked h)
        (record { left = g.left; right = g.right }) pos

  runs : best_fit_free_pages base n s ≡ some (merges base linked)
  unfolding best_fit_free_pages
  runs =
      rw
        (
          lt→ltb 0 n pos,
          reset_used-eq-wiped n base s (λ q lo hi. (used q lo hi, h.only q (unlinked q lo hi))),
          link_block-eq {s = clean} xs base n ys (wiped-Holds n base unlinked h)
              (record { left = g.left; right = g.right }) pos,
        )
        refl

  -- On a well-formed free area with blocks xs below and ys above the n > 0 pages from base, none of
  -- these pages reserved, `best_fit_free_pages` returns, and the area is well-formed again: the new
  -- block stands between xs and ys, joined to the last block of xs if that ends at base and to the
  -- first of ys if that begins where the new one ends.
  pub best_fit_free_pages-Holds :
      (t : FreeArea) × (best_fit_free_pages base n s ≡ some t)
      × Holds t (put_between xs (block base n) ys)
  best_fit_free_pages-Holds =
      (merges base linked, runs, merges-Holds xs (block base n) ys linked-Holds)
