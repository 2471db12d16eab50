-- ===== src/Mm/FreeArea/Middle.antt =====
-- A block in the middle of the list of free blocks: what is known of its neighbours.
use os.Base.{ℕ, ◌+◌, ◌≤◌, ◌<◌, ◌≡◌, sym, ◌≢◌, List, ◌∷◌, ◌++◌, arith, false}
use mathlib.Core.Path.{subst}
use os.Links.Chain.{NotIn, NotIn-append}
use os.Links.Ring.{IsRing}
use os.Mm.FreeArea.{FreeArea, free_list, page_link}
use os.Mm.FreeArea.Blocks.{
  Block, Holds, Within, Heads, links_of, total, end_of, links_of-append, total-append, Within-left,
  Within-right, Within-le, NotIn-above, NotIn-below, Heads-left, Heads-right,
}

module _ {s : FreeArea} (xs : List Block) (b : Block) (ys : List Block)
    (h : Holds s (xs ++ b ∷ ys)) where
  pub mid_ring : IsRing s.links free_list (links_of xs ++ page_link b.start ∷ links_of ys)
  mid_ring = subst (λ zs. IsRing s.links free_list zs) (links_of-append xs (b ∷ ys)) h.ring

  pub mid_within : Within (end_of 0 xs) (b ∷ ys) s.npage
  mid_within = Within-right 0 xs (b ∷ ys) s.npage h.within

  pub left_within : Within 0 xs (end_of 0 xs)
  left_within = Within-left 0 xs (b ∷ ys) s.npage h.within

  pub left-Heads : Heads s.pages xs
  left-Heads = Heads-left s.pages xs (b ∷ ys) h.heads

  pub mid-Heads : Heads s.pages (b ∷ ys)
  mid-Heads = Heads-right s.pages xs (b ∷ ys) h.heads

  pub mid_counted : s.nr_free ≡ total xs + b.size + total ys
  mid_counted = omega (arith, h.counted, total-append xs (b ∷ ys))

  -- The block ends within memory.
  pub mid_end : b.start + b.size ≤ s.npage
  mid_end = Within-le (b.start + b.size) ys s.npage mid_within.2

  -- Of the block's pages only the first is linked.
  pub mid_not_linked :
      (p : ℕ)
      → b.start < p
      → p < b.start + b.size
      → NotIn (page_link p) (links_of xs ++ links_of ys)
  mid_not_linked p above below =
      NotIn-append (page_link p) (links_of xs) (links_of ys)
        (NotIn-above p 0 xs (end_of 0 xs) (omega (arith, mid_within)) left_within)
        (NotIn-below p (b.start + b.size) ys s.npage below mid_within.2)

  -- The block's own link stands nowhere else.
  pub mid_apart_left : NotIn (page_link b.start) (links_of xs)
  mid_apart_left = NotIn-above b.start 0 xs (end_of 0 xs) mid_within.0 left_within

  pub mid_apart_right : NotIn (page_link b.start) (links_of ys)
  mid_apart_right =
      NotIn-below b.start (b.start + b.size) ys s.npage (omega (arith, mid_within)) mid_within.2

  -- A page that heads no other block and is not this block's first carries no flag.
  pub mid_only :
      (p : ℕ)
      → p ≢ b.start
      → NotIn (page_link p) (links_of xs)
      → NotIn (page_link p) (links_of ys)
      → (s.pages p).is_head ≡ false
  mid_only p ne left right = h.only p (
      subst (λ zs. NotIn (page_link p) zs) (sym (links_of-append xs (b ∷ ys)))
        (NotIn-append (page_link p) (links_of xs) (links_of (b ∷ ys)) left (omega arith, right)))
