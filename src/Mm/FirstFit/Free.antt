-- ===== src/Mm/FirstFit/Free.antt =====
-- `default_init_memmap` into an empty free area, and `default_free_pages` of a block that goes
-- before another one or into an empty list: well-formed again, with the block joined.
use os.Base.{
  ℕ, zero, suc, ◌+◌, ◌≤◌, ◌<◌, ◌≡◌, refl, inl, inr, List, [], ◌∷◌, ◌++◌, some, arith, true, false,
  Bool-cases, lt→ltb, ltb,
}
use mathlib.Core.Path.{subst}
use os.Links.{list_add, list_empty}
use os.Links.Chain.{last_or}
use os.Links.Ring.{IsRing, list_empty-IsRing, list_add_before-eq-after}
use os.Mm.FreeArea.{Page, FreeArea, free_list, page_link, reset_reserved, set_page}
use os.Mm.FreeArea.Blocks.{
  Block, Holds, Within, links_of, links_of-append, All, length-le-total, total-le,
}
use os.Mm.FreeArea.Wipe.{wiped, reset_used-eq-wiped, wiped-Holds}
use os.Mm.FreeArea.Insert.{Gap, block, inserted, inserted-Holds}
use os.Mm.Place.{place}
use os.Mm.Place.Order.{place_loop-before}
use os.Mm.BestFit.{publish}
use os.Mm.BestFit.Free.{put_between, merges, merges-Holds, unlinked}
use os.Mm.FirstFit.{default_init_memmap, default_free_pages}

below : (lo base : ℕ) (xs : List Block) → Within lo xs base → All (λ b. ltb base b.start ≡ false) xs
below lo base [] w = tt
below lo base (x ∷ xs) w =
    let rest = below (x.start + x.size) base xs w.2 in
    let top = total-le (x.start + x.size) xs base w.2 in (ground arith, rest)

-- Where the insertion goes right, it puts the block behind those below it.
placed_empty :
    {s : FreeArea} (base n : ℕ)
    → Holds s []
    → place (λ page. ltb base page) base (publish base n s) ≡ some (inserted free_list base n s)
unfolding place publish list_add
placed_empty {s} base n h = rw ((list_empty-IsRing h.ring).1 refl) refl

placed_before :
    {s : FreeArea} (xs : List Block) (base n : ℕ) (y : Block) (ys : List Block)
    → Holds s (xs ++ y ∷ ys)
    → Gap s xs base n (y ∷ ys)
    → 0 < n
    → place (λ page. ltb base page) base (publish base n s)
      ≡ some (inserted (last_or free_list (links_of xs)) base n s)
unfolding place publish
placed_before {s} xs base n y ys h g pos =
    let ring = subst (λ zs. IsRing s.links free_list zs) (links_of-append xs (y ∷ ys)) h.ring in
    let low = total-le 0 xs base g.left in
    let high = total-le (base + n) (y ∷ ys) s.npage g.right in
    let few = length-le-total 0 xs base g.left in
    elim (Bool-cases (list_empty free_list s.links)) [
      | inl empty ↦ absurd (links_ne xs y ys ((list_empty-IsRing h.ring).0 empty))
      | inr more ↦
          rw
            (
              more,
              place_loop-before (suc (suc (suc s.npage))) (λ page. ltb base page) base free_list
                  s.links xs y ys (omega arith) (below 0 base xs g.left) (ground (arith, g.right.0))
                  h.ring.forward,
              list_add_before-eq-after (page_link base) (links_of xs) (links_of (y ∷ ys)) ring,
            )
            refl
    ]
  where
    links_ne : (us : List Block) (b : Block) (bs : List Block) → links_of (us ++ b ∷ bs) ≡ [] → ⊥
    links_ne [] b bs e = cc
    links_ne (u ∷ us) b bs e = cc

module _ {s : FreeArea} (xs : List Block) (base n : ℕ) (ys : List Block) (h : Holds s (xs ++ ys))
    (g : Gap s xs base n ys) (pos : 0 < n)
    (used : (q : ℕ) → base ≤ q → q < base + n → (s.pages q).reserved ≡ false) where
  abbrev linked : FreeArea
  linked =
      inserted (last_or free_list (links_of xs)) base n (record s { pages = wiped n base s.pages })

  runs :
      place
          (λ page. ltb base page)
          base
          (publish base n (record s { pages = wiped n base s.pages }))
        ≡ some linked
      → default_free_pages base n s ≡ some (merges base linked)
  unfolding default_free_pages
  runs placed =
      rw
        (
          lt→ltb 0 n pos,
          reset_used-eq-wiped n base s
              (λ q lo hi. (used q lo hi, h.only q (unlinked xs base n ys h g pos used q lo hi))),
          placed,
        )
        refl

  joined_up : Holds (merges base linked) (put_between xs (block base n) ys)
  joined_up = merges-Holds xs (block base n) ys (
      inserted-Holds xs base n ys (wiped-Holds n base (unlinked xs base n ys h g pos used) h)
        (record { left = g.left; right = g.right }) pos)

module _ {s : FreeArea} (xs : List Block) (base n : ℕ) (y : Block) (ys : List Block)
    (h : Holds s (xs ++ y ∷ ys)) (g : Gap s xs base n (y ∷ ys)) (pos : 0 < n)
    (used : (q : ℕ) → base ≤ q → q < base + n → (s.pages q).reserved ≡ false) where
  -- On a well-formed free area with blocks xs below and at least one block y above the n > 0 pages
  -- from base, none of these pages reserved, `default_free_pages` returns, and the area is
  -- well-formed again: the new block stands before y, joined to the last block of xs if that ends
  -- at base and to y if y begins where the new one ends.
  pub default_free_pages-Holds :
      (t : FreeArea) × (default_free_pages base n s ≡ some t)
      × Holds t (put_between xs (block base n) (y ∷ ys))
  default_free_pages-Holds = (
    merges base (linked xs base n (y ∷ ys) h g pos used),
    runs xs base n (y ∷ ys) h g pos used (
        placed_before xs base n y ys
          (wiped-Holds n base (unlinked xs base n (y ∷ ys) h g pos used) h)
          (record { left = g.left; right = g.right }) pos),
    joined_up xs base n (y ∷ ys) h g pos used,
  )

-- The loop of `init_memmap` over pages of which none has the flag PG_property.
reset_reserved-eq :
    (n p : ℕ) (s : FreeArea)
    → ((q : ℕ) → p ≤ q → q < p + n → (s.pages q).reserved ≡ true)
    → ((q : ℕ) → (s.pages q).is_head ≡ false)
    → (pages : ℕ → Page) × (reset_reserved n p s ≡ some (record s { pages = pages }))
      × ((q : ℕ) → (pages q).is_head ≡ false)
unfolding reset_reserved
reset_reserved-eq zero p s r k = (s.pages, refl, k)
reset_reserved-eq (suc n) p s r k = rw (r p (omega arith) (omega arith)) (
    reset_reserved-eq n (suc p)
      (record s {
        pages =
            set_page s.pages p
              (record { ref = 0; reserved = false; is_head = false; property = 0 });
      })
      (λ q lo hi. ground (arith, r q (omega arith) (omega arith))) (λ q. ground (arith, k q)))

-- On a well-formed free area without blocks, `default_init_memmap` of n > 0 reserved pages inside
-- memory returns, and the area is well-formed with these pages as its one block.
pub default_init_memmap-Holds :
    {s : FreeArea} (base n : ℕ)
    → Holds s []
    → 0 < n
    → base + n ≤ s.npage
    → ((q : ℕ) → base ≤ q → q < base + n → (s.pages q).reserved ≡ true)
    → (t : FreeArea) × (default_init_memmap base n s ≡ some t) × Holds t (block base n ∷ [])
unfolding default_init_memmap
default_init_memmap-Holds {s} base n h pos top reserved =
    let (pages, ran, unset) = reset_reserved-eq n base s reserved (λ q. h.only q tt) in
    let clean : FreeArea = record s { pages = pages } in
    let held : Holds clean [] = record {
      ring = h.ring;
      within = h.within;
      heads = tt;
      only = λ q _. unset q;
      counted = h.counted;
      small = h.small;
    } in
    (
      inserted free_list base n clean,
      rw (lt→ltb 0 n pos, ran, placed_empty base n held) refl,
      inserted-Holds [] base n [] held (record { left = omega arith; right = top }) pos,
    )
