-- ===== src/Mm/FirstFit/Append.antt =====
-- `default_free_pages` of a block behind all free blocks: the loop goes on after the insertion and
-- inserts the block once more, behind itself.
use os.Base.{
  ℕ, suc, ◌+◌, ◌≤◌, ◌<◌, ◌≡◌, refl, inl, inr, List, [], ◌∷◌, some, arith, true, false, Bool-cases,
  lt→ltb, ltb,
}
use os.Links.{list_add, list_add_after, list_next, list_prev, list_empty, add_between}
use os.Links.Chain.{last_or, NotIn, NotIn-last, Fwd-last}
use os.Links.Ring.{list_empty-IsRing, NotIn-of_prev_self}
use os.Mm.FreeArea.{FreeArea, free_list, page_link}
use os.Mm.FreeArea.Blocks.{
  Block, Holds, Within, links_of, All, length-le-total, total-le, NotIn-above,
}
use os.Mm.FreeArea.Wipe.{wiped, reset_used-eq-wiped}
use os.Mm.Place.{place}
use os.Mm.Place.Order.{place_loop-append, appended}
use os.Mm.BestFit.{publish}
use os.Mm.BestFit.Free.{merge_prev-apart, merge_next-last}
use os.Mm.FirstFit.{default_free_pages}

below : (lo base : ℕ) (xs : List Block) → Within lo xs base → All (λ b. ltb base b.start ≡ false) xs
below lo base [] w = tt
below lo base (x ∷ xs) w =
    let rest = below (x.start + x.size) base xs w.2 in
    let top = total-le (x.start + x.size) xs base w.2 in (ground arith, rest)

module _ {s : FreeArea} (x : Block) (xs : List Block) (base n : ℕ) (h : Holds s (x ∷ xs))
    (left : Within 0 (x ∷ xs) base) (top : base + n ≤ s.npage) (pos : 0 < n)
    (used : (q : ℕ) → base ≤ q → q < base + n → (s.pages q).reserved ≡ false) where
  unlinked : (q : ℕ) → base ≤ q → NotIn (page_link q) (links_of (x ∷ xs))
  unlinked q lo = NotIn-above q 0 (x ∷ xs) base lo left

  abbrev last : ℕ
  last = last_or free_list (links_of (x ∷ xs))

  -- The state that the call leaves.
  abbrev broken : FreeArea
  broken =
      let t = publish base n (record s { pages = wiped n base s.pages }) in
      record t { links = appended (last_or free_list (links_of (x ∷ xs))) base s.links }

  placed :
      place
        (λ page. ltb base page)
        base
        (publish base n (record s { pages = wiped n base s.pages }))
      ≡ some broken
  unfolding place publish
  placed =
      let low = total-le 0 (x ∷ xs) base left in
      let few = length-le-total 0 (x ∷ xs) base left in
      elim (Bool-cases (list_empty free_list s.links)) [
        | inl empty ↦ absurd (cons_ne ((list_empty-IsRing h.ring).0 empty))
        | inr more ↦
            rw
              (
                more,
                place_loop-append (suc s.npage) (λ page. ltb base page) base free_list s.links x xs
                    (omega arith) (below 0 base (x ∷ xs) left) (ground arith) (omega arith)
                    (unlinked base (omega arith)) h.ring.forward,
              )
              refl
      ]
    where
      cons_ne : links_of (x ∷ xs) ≡ [] → ⊥
      cons_ne e = cc

  -- The block's `prev` pointer leads to the block itself.
  self :
      (list_prev (page_link base) broken.links ≡ page_link base)
      × (list_next (page_link base) broken.links ≡ free_list)
  unfolding list_add list_add_after add_between
  self =
      let apart =
        NotIn-last (page_link base) free_list (links_of (x ∷ xs)) (omega arith)
          (unlinked base (omega arith)) in
      let end = Fwd-last s.links.next free_list (links_of (x ∷ xs)) free_list h.ring.forward in
      ground (arith, apart, end)

  sized : (broken.pages base).property ≡ n
  unfolding publish
  sized = let small = h.small in ground arith

  runs : default_free_pages base n s ≡ some broken
  unfolding default_free_pages
  runs =
      rw
        (
          lt→ltb 0 n pos,
          reset_used-eq-wiped n base s (λ q lo hi. (used q lo hi, h.only q (unlinked q lo))),
          placed,
        )
        (rw
          (
            merge_prev-apart broken base base self.0 (omega (arith, sized)),
            merge_next-last broken base self.1,
          )
          refl)

  flagged : (broken.pages base).is_head ≡ true
  unfolding publish
  flagged = ground arith

  not_held : (cs : List Block) → ¬ (Holds broken cs)
  not_held cs k = cc (
    flagged,
    k.only base (
        NotIn-of_prev_self broken.links.prev (page_link base) free_list (links_of cs) free_list
          self.0 k.ring.backward k.ring.distinct),
  )

  -- On a well-formed free area with at least one free block, let n > 0 pages from base lie above
  -- all free blocks, none of them reserved. `default_free_pages` returns, but the `prev` pointer of
  -- the new block leads to that block itself, while its first page carries PG_property; and the
  -- area is well-formed for no list of blocks.
  pub default_free_pages-not-Holds :
      (t : FreeArea) × (default_free_pages base n s ≡ some t)
      × (list_prev (page_link base) t.links ≡ page_link base)
      × ((t.pages base).is_head ≡ true)
      × ((cs : List Block) → ¬ (Holds t cs))
  default_free_pages-not-Holds = (broken, runs, self.0, flagged, not_held)
