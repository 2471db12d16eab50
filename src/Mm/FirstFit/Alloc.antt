-- ===== src/Mm/FirstFit/Alloc.antt =====
-- `default_alloc_pages` on a well-formed free area: total, first fit, and well-formed again.
use os.Base.{
  ℕ, zero, suc, ◌+◌, ◌^◌, ◌≤◌, ◌<◌, ◌≡◌, refl, ap, inl, inr, List, [], ◌∷◌, ◌++◌, Option, none,
  some, arith, length, ltb, leb, ltb→lt, if◌then◌else◌, Bool-cases,
}
use mathlib.Core.Path.{subst}
use os.Links.{list_add}
use os.Links.Chain.{Fwd}
use os.Mm.FreeArea.{FreeArea, free_list, page_link}
use os.Mm.FreeArea.Blocks.{
  Block, Holds, Heads, links_of, All, All-map, size-le-total, total, total-le, length-le-total,
}
use os.Mm.BestFit.{take_block}
use os.Mm.BestFit.Take.{without, take_block-Holds}
use os.Mm.FirstFit.{default_alloc_pages, search_first, took, take_first}

-- The first block that is large enough, with the blocks before it, or none.
abbrev pub first : ℕ → List Block → Option Block
first n [] = none
first n (b ∷ bs) = if leb n b.size then some b else first n bs

abbrev start_of : Option Block → Option ℕ
start_of none = none
start_of (some b) = some b.start

search_first-eq :
    (fuel : ℕ) (s : FreeArea) (n le : ℕ) (bs : List Block)
    → length bs < fuel
    → Fwd s.links.next le (links_of bs) free_list
    → Heads s.pages bs
    → search_first fuel s n le ≡ some (start_of (first n bs))
unfolding search_first
search_first-eq zero s n le bs lt w h = absurd (omega arith)
search_first-eq (suc fuel) s n le [] lt w h = ground arith
search_first-eq (suc fuel) s n le (b ∷ bs) lt w h =
    ground (arith, search_first-eq fuel s n (page_link b.start) bs (omega arith) w.1 h.1)

-- The code of best_fit_pmm.c for the same step treats the head of the list apart, to the same end.
take_first-eq : (page n : ℕ) (s : FreeArea) → take_first page n s ≡ take_block page n s
unfolding take_first take_block list_add
take_first-eq page n s = ground arith

-- What the allocator does with the free blocks `bs`: it refuses where every block is too small,
-- and else takes the first `n` pages of the first block that is large enough.
pub data AllocatesFirst (n : ℕ) (s : FreeArea) (bs : List Block)
    : Option (Option ℕ × FreeArea) → Type 0 where
  refuses :
      {r : Option (Option ℕ × FreeArea)}
      → All (λ c. c.size < n) bs
      → r ≡ some (none, s)
      → AllocatesFirst n s bs r
  takes :
      {r : Option (Option ℕ × FreeArea)} (xs : List Block) (b : Block) (ys : List Block)
      (t : FreeArea)
      → bs ≡ xs ++ b ∷ ys
      → All (λ c. c.size < n) xs
      → n ≤ b.size
      → r ≡ some (some b.start, t)
      → Holds t (xs ++ without n b ys)
      → AllocatesFirst n s bs r

abbrev FirstOf : ℕ → List Block → Option Block → Type 0
FirstOf n bs none = All (λ c. c.size < n) bs
FirstOf n bs (some b) =
    (xs : List Block) × (ys : List Block) × (bs ≡ xs ++ b ∷ ys)
    × All (λ c. c.size < n) xs
    × (n ≤ b.size)

first-FirstOf : (n : ℕ) (bs : List Block) (o : Option Block) → first n bs ≡ o → FirstOf n bs o
first-FirstOf n [] none e = tt
first-FirstOf n [] (some b) e = absurd (cc)
first-FirstOf n (c ∷ bs) none e = (ground arith, first-FirstOf n bs none (ground arith))
first-FirstOf n (c ∷ bs) (some b) e = elim (Bool-cases (leb n c.size)) [
  | inl large ↦ ([], bs, ground arith, tt, ground arith)
  | inr less ↦
      let (xs, ys, split, low, fit) = first-FirstOf n bs (some b) (ground arith) in
      (c ∷ xs, ys, ap (◌∷◌ c) split, (ground arith, low), fit)
]

module _ {s : FreeArea} {bs : List Block} (n : ℕ) (h : Holds s bs) (pos : 0 < n) where
  bounds :
      (s.nr_free ≡ total bs)
      × (total bs ≤ s.npage)
      × (s.npage + 1 < 2 ^ 32)
      × (length bs ≤ total bs)
  bounds = omega (
    arith,
    h.counted,
    h.small,
    total-le 0 bs s.npage h.within,
    length-le-total 0 bs s.npage h.within,
  )

  searched : search_first (suc s.npage) s n free_list ≡ some (start_of (first n bs))
  searched =
      search_first-eq (suc s.npage) s n free_list bs (omega (arith, bounds)) h.ring.forward h.heads

  runs : n ≤ s.nr_free → default_alloc_pages n s ≡ some (took n s (start_of (first n bs)))
  unfolding default_alloc_pages
  runs le = ground (arith, searched)

  refused : s.nr_free < n → default_alloc_pages n s ≡ some (none, s)
  unfolding default_alloc_pages
  refused lt = ground arith

  after : (o : Option Block) → FirstOf n bs o → AllocatesFirst n s bs (some (took n s (start_of o)))
  unfolding took
  after none low = refuses low refl
  after (some b) (xs, ys, split, low, fit) =
      takes xs b ys (take_first b.start n s) split low fit refl (
        rw (take_first-eq b.start n s)
          (take_block-Holds xs b ys n (subst (Holds s) split h) pos fit))

  -- On a well-formed free area and for n > 0 pages, `default_alloc_pages` returns. Either every
  -- free block is smaller than n, the result is NULL and nothing changes; or the result is the
  -- first page of the first block, by address, of at least n pages, and the area is well-formed
  -- again with that block replaced by what it has beyond n pages, or dropped if nothing is left.
  pub default_alloc_pages-AllocatesFirst : AllocatesFirst n s bs (default_alloc_pages n s)
  default_alloc_pages-AllocatesFirst = elim (Bool-cases (ltb s.nr_free n)) [
    | inr le ↦ rw (runs (ground arith)) (after (first n bs) (first-FirstOf n bs (first n bs) refl))
    | inl lt ↦
        let short : s.nr_free < n = ltb→lt s.nr_free n lt in
        refuses (All-map _ _ bs (λ b q. omega (arith, bounds)) (size-le-total bs)) (refused short)
  ]
