-- ===== src/Mm/FreeArea/Blocks.antt =====
-- The abstract view of a free area: the list of its free blocks, in address order.
use os.Base.{
  ℕ, ◌+◌, ◌^◌, ◌≤◌, ◌<◌, ◌≡◌, refl, Bool, true, false, List, [], ◌∷◌, ◌++◌, arith, length, ltb,
  if◌then◌else◌,
}
use os.Links.Chain.{NotIn}
use os.Links.Ring.{IsRing}
use os.Mm.FreeArea.{Page, FreeArea, free_list, page_link, set_page}

pub record Block : Type 0 where
  pub start : ℕ
  pub size : ℕ

abbrev pub links_of : List Block → List ℕ
links_of [] = []
links_of (b ∷ bs) = page_link b.start ∷ links_of bs

abbrev pub total : List Block → ℕ
total [] = 0
total (b ∷ bs) = b.size + total bs

-- Blocks of at least one page, none overlapping the next, between the pages `lo` and `hi`.
abbrev pub Within : ℕ → List Block → ℕ → Type 0
Within lo [] hi = lo ≤ hi
Within lo (b ∷ bs) hi = (lo ≤ b.start) × (0 < b.size) × Within (b.start + b.size) bs hi

-- The page fields of a free block's first page.
abbrev pub IsHead : (ℕ → Page) → Block → Type 0
IsHead pages b = ((pages b.start).property ≡ b.size) × ((pages b.start).is_head ≡ true)

abbrev pub Heads : (ℕ → Page) → List Block → Type 0
Heads pages [] = Unit
Heads pages (b ∷ bs) = IsHead pages b × Heads pages bs

-- `free_list` threads the blocks `bs`, which do not overlap; their first pages carry their sizes and
-- the flag PG_property, no other page carries the flag; `nr_free` counts their pages,
-- and cannot wrap.
pub record Holds (s : FreeArea) (bs : List Block) : Type 0 where
  pub ring : IsRing s.links free_list (links_of bs)
  pub within : Within 0 bs s.npage
  pub heads : Heads s.pages bs
  pub only : (p : ℕ) → NotIn (page_link p) (links_of bs) → (s.pages p).is_head ≡ false
  pub counted : s.nr_free ≡ total bs
  pub small : s.npage + 1 < 2 ^ 32

-- `p` lies in one of the blocks.
abbrev pub covers : List Block → ℕ → Bool
covers [] p = false
covers (b ∷ bs) p =
    if ltb p b.start then covers bs p else if ltb p (b.start + b.size) then true else covers bs p

pub links_of-append : (xs ys : List Block) → links_of (xs ++ ys) ≡ links_of xs ++ links_of ys
links_of-append [] ys = refl
links_of-append (x ∷ xs) ys = rw (links_of-append xs ys)

pub total-append : (xs ys : List Block) → total (xs ++ ys) ≡ total xs + total ys
total-append [] ys = omega arith
total-append (x ∷ xs) ys = omega (arith, total-append xs ys)

-- Where the blocks of `xs` end: `lo` if there are none.
abbrev pub end_of : ℕ → List Block → ℕ
end_of lo [] = lo
end_of lo (b ∷ bs) = end_of (b.start + b.size) bs

pub Within-append :
    (lo : ℕ) (xs ys : List Block) (hi : ℕ)
    → Within lo xs (end_of lo xs)
    → Within (end_of lo xs) ys hi
    → Within lo (xs ++ ys) hi
Within-append lo [] ys hi u v = v
Within-append lo (x ∷ xs) ys hi u v = (u.0, u.1, Within-append (x.start + x.size) xs ys hi u.2 v)

pub Within-left :
    (lo : ℕ) (xs ys : List Block) (hi : ℕ) → Within lo (xs ++ ys) hi → Within lo xs (end_of lo xs)
Within-left lo [] ys hi w = omega arith
Within-left lo (x ∷ xs) ys hi w = (w.0, w.1, Within-left (x.start + x.size) xs ys hi w.2)

pub Within-right :
    (lo : ℕ) (xs ys : List Block) (hi : ℕ) → Within lo (xs ++ ys) hi → Within (end_of lo xs) ys hi
Within-right lo [] ys hi w = w
Within-right lo (x ∷ xs) ys hi w = Within-right (x.start + x.size) xs ys hi w.2

pub Within-le : (lo : ℕ) (bs : List Block) (hi : ℕ) → Within lo bs hi → lo ≤ hi
Within-le lo [] hi w = w
Within-le lo (b ∷ bs) hi w = omega (arith, Within-le (b.start + b.size) bs hi w.2)

pub Within-lower :
    (lo lo' : ℕ) (bs : List Block) (hi : ℕ) → lo' ≤ lo → Within lo bs hi → Within lo' bs hi
Within-lower lo lo' [] hi h w = omega arith
Within-lower lo lo' (b ∷ bs) hi h w = (omega arith, w.1, w.2)

pub total-le : (lo : ℕ) (bs : List Block) (hi : ℕ) → Within lo bs hi → lo + total bs ≤ hi
total-le lo [] hi w = omega arith
total-le lo (b ∷ bs) hi w = omega (arith, total-le (b.start + b.size) bs hi w.2)

pub length-le-total : (lo : ℕ) (bs : List Block) (hi : ℕ) → Within lo bs hi → length bs ≤ total bs
length-le-total lo [] hi w = omega arith
length-le-total lo (b ∷ bs) hi w = omega (arith, length-le-total (b.start + b.size) bs hi w.2)

-- A page below all blocks heads none of them.
pub NotIn-below :
    (p lo : ℕ) (bs : List Block) (hi : ℕ)
    → p < lo
    → Within lo bs hi
    → NotIn (page_link p) (links_of bs)
NotIn-below p lo [] hi h w = tt
NotIn-below p lo (b ∷ bs) hi h w =
    (omega arith, NotIn-below p (b.start + b.size) bs hi (omega arith) w.2)

-- Nor does a page behind them all.
pub NotIn-above :
    (p lo : ℕ) (bs : List Block) (hi : ℕ)
    → hi ≤ p
    → Within lo bs hi
    → NotIn (page_link p) (links_of bs)
NotIn-above p lo [] hi h w = tt
NotIn-above p lo (b ∷ bs) hi h w = (
  omega (arith, Within-le (b.start + b.size) bs hi w.2),
  NotIn-above p (b.start + b.size) bs hi h w.2,
)

-- The head of the list is no block's link.
pub NotIn-free_list : (bs : List Block) → NotIn free_list (links_of bs)
NotIn-free_list [] = tt
NotIn-free_list (b ∷ bs) = (omega arith, NotIn-free_list bs)

pub Heads-append :
    (pages : ℕ → Page) (xs ys : List Block)
    → Heads pages xs
    → Heads pages ys
    → Heads pages (xs ++ ys)
Heads-append pages [] ys u v = v
Heads-append pages (x ∷ xs) ys u v = (u.0, Heads-append pages xs ys u.1 v)

pub Heads-left : (pages : ℕ → Page) (xs ys : List Block) → Heads pages (xs ++ ys) → Heads pages xs
Heads-left pages [] ys h = tt
Heads-left pages (x ∷ xs) ys h = (h.0, Heads-left pages xs ys h.1)

pub Heads-right : (pages : ℕ → Page) (xs ys : List Block) → Heads pages (xs ++ ys) → Heads pages ys
Heads-right pages [] ys h = h
Heads-right pages (x ∷ xs) ys h = Heads-right pages xs ys h.1

-- A page that heads no block may be changed.
pub Heads-set_page :
    (pages : ℕ → Page) (p : ℕ) (v : Page) (bs : List Block)
    → NotIn (page_link p) (links_of bs)
    → Heads pages bs
    → Heads (set_page pages p v) bs
Heads-set_page pages p v [] n h = tt
Heads-set_page pages p v (b ∷ bs) n h = (ground arith, Heads-set_page pages p v bs n.1 h.1)

-- A property of every block of a list.
abbrev pub All {ℓ} : (Block → Type ℓ) → List Block → Type ℓ
All P [] = Unit
All P (b ∷ bs) = P b × All P bs

pub size-le-total : (bs : List Block) → All (λ b. b.size ≤ total bs) bs
size-le-total bs = go 0 bs (omega arith)
  where
    go : (k : ℕ) (cs : List Block) → k + total cs ≤ total bs → All (λ b. b.size ≤ total bs) cs
    go k [] h = tt
    go k (c ∷ cs) h = (omega arith, go (k + c.size) cs (omega arith))

pub All-map {ℓ κ} :
    (P : Block → Type ℓ) (Q : Block → Type κ) (bs : List Block)
    → ((b : Block) → P b → Q b)
    → All P bs
    → All Q bs
All-map P Q [] f h = tt
All-map P Q (b ∷ bs) f h = (f b h.0, All-map P Q bs f h.1)

pub All-All {ℓ} : (P : Block → Type ℓ) (bs : List Block) → ((b : Block) → P b) → All P bs
All-All P [] f = tt
All-All P (b ∷ bs) f = (f b, All-All P bs f)

pub end_of-le : (lo : ℕ) (bs : List Block) (hi : ℕ) → Within lo bs hi → end_of lo bs ≤ hi
end_of-le lo [] hi w = w
end_of-le lo (b ∷ bs) hi w = end_of-le (b.start + b.size) bs hi w.2
