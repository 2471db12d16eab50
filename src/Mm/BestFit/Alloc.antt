-- ===== src/Mm/BestFit/Alloc.antt =====
-- `best_fit_alloc_pages` on a well-formed free area: total, best fit, and well-formed again.
use os.Base.{
  ℕ, suc, ◌+◌, ◌^◌, ◌≤◌, ◌<◌, ◌≡◌, refl, sym, inl, inr, List, ◌∷◌, ◌++◌, Option, none, some, arith,
  length, ltb, ltb→lt, Bool-cases,
}
use mathlib.Core.Path.{subst}
use os.Mm.FreeArea.{FreeArea, free_list, word}
use os.Mm.FreeArea.Blocks.{
  Block, Holds, All, All-map, size-le-total, total, total-le, length-le-total,
}
use os.Mm.BestFit.{best_fit_alloc_pages, search_best, take_found, take_block}
use os.Mm.BestFit.Take.{without, take_block-Holds}
use os.Mm.BestFit.Search.{
  best, start_of, search_best-eq-best, IsSmallest, best-Stands, best-IsSmallest, best-none,
}

-- What the allocator does with the free blocks `bs`: it refuses where every block is too small,
-- and else takes the first `n` pages of a smallest block among those that are large enough.
pub data Allocates (n : ℕ) (s : FreeArea) (bs : List Block)
    : Option (Option ℕ × FreeArea) → Type 0 where
  refuses :
      {r : Option (Option ℕ × FreeArea)}
      → All (λ c. c.size < n) bs
      → r ≡ some (none, s)
      → Allocates n s bs r
  takes :
      {r : Option (Option ℕ × FreeArea)} (xs : List Block) (b : Block) (ys : List Block)
      (t : FreeArea)
      → bs ≡ xs ++ b ∷ ys
      → IsSmallest n b bs
      → r ≡ some (some b.start, t)
      → Holds t (xs ++ without n b ys)
      → Allocates n s bs r

module _ {s : FreeArea} {bs : List Block} (n : ℕ) (h : Holds s bs) (pos : 0 < n) where
  bounds :
      (s.nr_free ≡ total bs)
      × (total bs ≤ s.npage)
      × (s.npage + 1 < 2 ^ 32)
      × (length bs ≤ total bs)
  bounds = omega (
    arith,
    h.counted,
    h.small,
    total-le 0 bs s.npage h.within,
    length-le-total 0 bs s.npage h.within,
  )

  abbrev chosen : Option Block
  chosen = best n none (s.nr_free + 1) bs

  searched :
      search_best (suc s.npage) s n free_list none (word (s.nr_free + 1)) ≡ some (start_of chosen)
  searched =
      let w : word (s.nr_free + 1) ≡ s.nr_free + 1 = omega (arith, bounds) in
      rw w (
        search_best-eq-best (suc s.npage) s n free_list none (s.nr_free + 1) bs
          (omega (arith, bounds)) h.ring.forward h.heads)

  runs : n ≤ s.nr_free → best_fit_alloc_pages n s ≡ some (take_found n s (start_of chosen))
  unfolding best_fit_alloc_pages
  runs le = ground (arith, searched)

  refused : s.nr_free < n → best_fit_alloc_pages n s ≡ some (none, s)
  unfolding best_fit_alloc_pages
  refused lt = ground arith

  after :
      (o : Option Block)
      → o ≡ chosen
      → n ≤ s.nr_free
      → Allocates n s bs (some (take_found n s (start_of o)))
  unfolding take_found
  after none e le =
      refuses
        (best-none n (s.nr_free + 1) bs
          (All-map _ _ bs (λ b q. omega (arith, bounds)) (size-le-total bs)) (sym e))
        refl
  after (some b) e le =
      let smallest =
        best-IsSmallest n none (s.nr_free + 1) bs b (omega arith) (λ c g. absurd (cc)) (sym e) in
      elim (best-Stands n none (s.nr_free + 1) bs b (sym e)) [
        | inl no_b ↦ absurd (cc)
        | inr (xs, ys, split) ↦
            takes xs b ys (take_block b.start n s) split smallest.1 refl
              (take_block-Holds xs b ys n (subst (Holds s) split h) pos smallest.1.0)
      ]

  -- On a well-formed free area and for n > 0 pages, `best_fit_alloc_pages` returns. Either every
  -- free block is smaller than n, the result is NULL and nothing changes; or the result is the
  -- first page of a smallest block of at least n pages, and the area is well-formed again with that
  -- block replaced by what it has beyond n pages, or dropped if nothing is left.
  pub best_fit_alloc_pages-Allocates : Allocates n s bs (best_fit_alloc_pages n s)
  best_fit_alloc_pages-Allocates = elim (Bool-cases (ltb s.nr_free n)) [
    | inr le ↦ rw (runs (ground arith)) (after chosen refl (ground arith))
    | inl lt ↦
        let short : s.nr_free < n = ltb→lt s.nr_free n lt in
        refuses (All-map _ _ bs (λ b q. omega (arith, bounds)) (size-le-total bs)) (refused short)
  ]
