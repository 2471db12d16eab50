-- ===== src/Mm/Place/Order.antt =====
-- The insertion loop on a well-formed ring: right where the block goes before another one, wrong
-- where it goes to the end.
use os.Base.{
  ℕ, zero, suc, ◌<◌, ◌≡◌, sym, ◌≢◌, Bool, List, [], ◌∷◌, ◌++◌, some, arith, true, false, length,
}
use os.Links.{Links, list_next, list_add, list_add_after, list_add_before, add_between}
use os.Links.Chain.{Fwd, NotIn, last_or}
use os.Mm.FreeArea.{free_list, page_link}
use os.Mm.FreeArea.Blocks.{Block, links_of, All}
use os.Mm.Place.{place_loop}

-- A block that goes before `y` and behind those of `xs` is put before `y`.
pub place_loop-before :
    (fuel : ℕ) (test : ℕ → Bool) (base le : ℕ) (l : Links) (xs : List Block) (y : Block)
    (ys : List Block)
    → length xs < fuel
    → All (λ b. test b.start ≡ false) xs
    → test y.start ≡ true
    → Fwd l.next le (links_of (xs ++ y ∷ ys)) free_list
    → place_loop fuel test base le l ≡ some (list_add_before (page_link y.start) (page_link base) l)
unfolding place_loop
place_loop-before zero test base le l xs y ys lt u v w = absurd (omega arith)
place_loop-before (suc fuel) test base le l [] y ys lt u v w = ground arith
place_loop-before (suc fuel) test base le l (x ∷ []) y ys lt u v w =
    ground
      (arith, place_loop-before fuel test base (page_link x.start) l [] y ys (omega arith) tt v w.1)
place_loop-before (suc fuel) test base le l (x ∷ z ∷ xs) y ys lt u v w = ground (
  arith,
  place_loop-before fuel test base (page_link x.start) l (z ∷ xs) y ys (omega arith) u.1 v w.1,
)

-- What the loop makes of the links when the block goes behind the last entry `e`: the block is
-- added there, and then once more behind itself.
abbrev pub appended : ℕ → ℕ → Links → Links
appended e base l = list_add (page_link base) (page_link base) (list_add e (page_link base) l)

-- The last rounds, from the last entry on.
place_loop_self :
    (fuel : ℕ) (test : ℕ → Bool) (base le : ℕ) (l : Links)
    → test base ≡ false
    → list_next le l ≡ page_link base
    → list_next (page_link base) l ≡ free_list
    → place_loop (suc (suc fuel)) test base le l
      ≡ some (list_add (page_link base) (page_link base) l)
unfolding place_loop list_add list_add_after add_between
place_loop_self fuel test base le l off here last = ground arith

-- The `next` pointers after one insertion.
list_add-next :
    (e n : ℕ) (l : Links)
    → e ≢ n
    → ((list_add e n l).next e ≡ n) × ((list_add e n l).next n ≡ l.next e)
unfolding list_add list_add_after add_between
list_add-next e n l ne = (ground arith, ground arith)

pub place_loop-append :
    (fuel : ℕ) (test : ℕ → Bool) (base le : ℕ) (l : Links) (x : Block) (xs : List Block)
    → length xs < fuel
    → All (λ b. test b.start ≡ false) (x ∷ xs)
    → test base ≡ false
    → le ≢ page_link base
    → NotIn (page_link base) (links_of (x ∷ xs))
    → Fwd l.next le (links_of (x ∷ xs)) free_list
    → place_loop (suc (suc fuel)) test base le l
      ≡ some (appended (last_or le (links_of (x ∷ xs))) base l)
unfolding place_loop
place_loop-append zero test base le l x xs lt u off ne new w = absurd (omega arith)
place_loop-append (suc fuel) test base le l x [] lt u off ne new w =
    let link = page_link x.start in
    let step = list_add-next link (page_link base) l (λ e. new.0 (sym e)) in
    ground (arith, step, place_loop_self fuel test base link (list_add link (page_link base) l) off)
place_loop-append (suc fuel) test base le l x (z ∷ xs) lt u off ne new w = ground (
  arith,
  place_loop-append fuel test base (page_link x.start) l z xs (omega arith) u.1 off
      (λ e. new.0 (sym e)) new.1 w.1,
)
