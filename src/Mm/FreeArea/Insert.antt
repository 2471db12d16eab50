-- ===== src/Mm/FreeArea/Insert.antt =====
-- A new block in the list of free blocks.
use os.Base.{ℕ, ◌+◌, ◌≤◌, ◌<◌, ◌≡◌, sym, List, ◌∷◌, ◌++◌, arith, false, ◌^◌}
use mathlib.Core.Path.{subst}
use os.Links.{list_add_after}
use os.Links.Chain.{NotIn, last_or, NotIn-append, NotIn-left, NotIn-right}
use os.Links.Ring.{IsRing, list_add_after-IsRing}
use os.Mm.FreeArea.{
  FreeArea, free_list, page_link, set_page, word, with_property, set_page_property, add_free,
}
use os.Mm.FreeArea.Blocks.{
  Block, Holds, Within, Heads, links_of, total, links_of-append, total-append, Within-append,
  Within-left, NotIn-above, NotIn-below, Heads-append, Heads-left, Heads-right, Heads-set_page,
  total-le, end_of-le,
}

abbrev pub block : ℕ → ℕ → Block
block base n = record { start = base; size = n }

-- The stores that make a free block of `n` pages at `base`, and put it behind the entry `le`.
abbrev pub inserted : ℕ → ℕ → ℕ → FreeArea → FreeArea
inserted le base n s =
    let t = add_free n (set_page_property base (with_property base (word n) s)) in
    record t { links = list_add_after le (page_link base) t.links }

-- The pages from `base` lie between the blocks of `xs` and those of `ys`.
pub record Gap (s : FreeArea) (xs : List Block) (base n : ℕ) (ys : List Block) : Type 0 where
  pub left : Within 0 xs base
  pub right : Within (base + n) ys s.npage

module _ {s : FreeArea} (xs : List Block) (base n : ℕ) (ys : List Block) (h : Holds s (xs ++ ys))
    (g : Gap s xs base n ys) (pos : 0 < n) where
  pub apart_left : (q : ℕ) → base ≤ q → NotIn (page_link q) (links_of xs)
  apart_left q le = NotIn-above q 0 xs base le g.left

  pub apart_right : (q : ℕ) → q < base + n → NotIn (page_link q) (links_of ys)
  apart_right q lt = NotIn-below q (base + n) ys s.npage lt g.right

  ring : IsRing s.links free_list (links_of xs ++ links_of ys)
  ring = subst (λ zs. IsRing s.links free_list zs) (links_of-append xs ys) h.ring

  fits :
      (base + n ≤ s.npage)
      × (s.npage + 1 < 2 ^ 32)
      × (total xs ≤ base)
      × (base + n + total ys ≤ s.npage)
      × (s.nr_free ≡ total xs + total ys)
  fits = omega (
    arith,
    h.small,
    h.counted,
    total-append xs ys,
    total-le 0 xs base g.left,
    total-le (base + n) ys s.npage g.right,
  )

  heads :
      Heads (inserted (last_or free_list (links_of xs)) base n s).pages (xs ++ block base n ∷ ys)
  heads =
      let own = set_page s.pages base (record (s.pages base) { property = word n }) in
      let here_left = apart_left base (omega arith) in
      let here_right = apart_right base (omega arith) in
      Heads-append (inserted (last_or free_list (links_of xs)) base n s).pages xs
        (block base n ∷ ys)
        (Heads-set_page own base _ xs here_left
          (Heads-set_page s.pages base _ xs here_left (Heads-left s.pages xs ys h.heads)))
        (
          ground (arith, fits),
          Heads-set_page own base _ ys here_right
              (Heads-set_page s.pages base _ ys here_right (Heads-right s.pages xs ys h.heads)),
        )

  only :
      (p : ℕ)
      → NotIn (page_link p) (links_of xs ++ page_link base ∷ links_of ys)
      → ((inserted (last_or free_list (links_of xs)) base n s).pages p).is_head ≡ false
  only p k =
      let left = NotIn-left (page_link p) (links_of xs) (page_link base ∷ links_of ys) k in
      let right = NotIn-right (page_link p) (links_of xs) (page_link base ∷ links_of ys) k in
      let both =
        subst (λ zs. NotIn (page_link p) zs) (sym (links_of-append xs ys))
          (NotIn-append (page_link p) (links_of xs) (links_of ys) left right.1) in
      ground (arith, right.0, h.only p both)

  -- The new block stands at its place by address, and the free area is well-formed.
  pub inserted-Holds :
      Holds (inserted (last_or free_list (links_of xs)) base n s) (xs ++ block base n ∷ ys)
  inserted-Holds = record {
    ring =
        subst
          (λ zs. IsRing (inserted (last_or free_list (links_of xs)) base n s).links free_list zs)
          (sym (links_of-append xs (block base n ∷ ys)))
          (list_add_after-IsRing (page_link base) (links_of xs) (links_of ys) (omega arith)
            (NotIn-append (page_link base) (links_of xs) (links_of ys)
              (apart_left base (omega arith)) (apart_right base (omega arith)))
            ring);
    within =
        Within-append 0 xs (block base n ∷ ys) s.npage (Within-left 0 xs ys s.npage h.within)
          (end_of-le 0 xs base g.left, pos, g.right);
    heads = heads;
    only = λ p k.
        only p (subst (λ zs. NotIn (page_link p) zs) (links_of-append xs (block base n ∷ ys)) k);
    counted = omega (arith, fits, total-append xs (block base n ∷ ys));
    small = h.small;
  }
