-- ===== src/Mm/BestFit/Place.antt =====
-- The place of a block that comes back: `find_place` and `link_block`.
use os.Base.{
  ℕ, zero, suc, ◌+◌, ◌≤◌, ◌<◌, ◌≡◌, refl, List, [], ◌∷◌, ◌++◌, some, arith, length, Bool-cases, inl,
  inr,
}
use os.Links.{list_empty, list_add}
use os.Links.Chain.{Fwd, last_or}
use os.Links.Ring.{list_empty-IsRing}
use os.Mm.FreeArea.{FreeArea, free_list, page_link}
use os.Mm.FreeArea.Blocks.{Block, Holds, Within, links_of, length-le-total, total-le}
use os.Mm.FreeArea.Insert.{Gap, inserted}
use os.Mm.BestFit.{find_place, link_block, publish}

-- The loop stops behind the last block that begins below `base`.
find_place-eq :
    (fuel : ℕ) (s : FreeArea) (base le lo hi n : ℕ) (xs ys : List Block)
    → length xs < fuel
    → Within lo xs base
    → Within (base + n) ys hi
    → 0 < n
    → Fwd s.links.next le (links_of (xs ++ ys)) free_list
    → find_place fuel s base le ≡ some (last_or le (links_of xs))
unfolding find_place
find_place-eq zero s base le lo hi n xs ys lt u v pos w = absurd (omega arith)
find_place-eq (suc fuel) s base le lo hi n [] [] lt u v pos w = ground arith
find_place-eq (suc fuel) s base le lo hi n [] (y ∷ ys) lt u v pos w = ground arith
find_place-eq (suc fuel) s base le lo hi n (x ∷ xs) ys lt u v pos w =
    let low = Within-start (x.start + x.size) xs base u.2 in
    ground (
      arith,
      low,
      find_place-eq fuel s base (page_link x.start) (x.start + x.size) hi n xs ys (omega arith) u.2
          v pos w.1,
    )
  where
    Within-start : (k : ℕ) (zs : List Block) (top : ℕ) → Within k zs top → k ≤ top
    Within-start k [] top p = p
    Within-start k (z ∷ zs) top p = omega (arith, Within-start (z.start + z.size) zs top p.2)

no_links : (xs ys : List Block) → links_of (xs ++ ys) ≡ [] → xs ≡ []
no_links [] ys e = refl
no_links (x ∷ xs) ys e = cc

-- On a well-formed area the block is linked behind the blocks below it.
pub link_block-eq :
    {s : FreeArea} (xs : List Block) (base n : ℕ) (ys : List Block)
    → Holds s (xs ++ ys)
    → Gap s xs base n ys
    → 0 < n
    → link_block base (publish base n s)
      ≡ some (inserted (last_or free_list (links_of xs)) base n s)
unfolding link_block publish list_add
link_block-eq {s} xs base n ys h g pos = elim (Bool-cases (list_empty free_list s.links)) [
  | inl empty ↦
      let nil = no_links xs ys ((list_empty-IsRing h.ring).0 empty) in rw (empty, nil) refl
  | inr more ↦
      let low = total-le 0 xs base g.left in
      let high = total-le (base + n) ys s.npage g.right in
      let few = length-le-total 0 xs base g.left in
      rw
        (
          more,
          find_place-eq (suc s.npage) (publish base n s) base free_list 0 s.npage n xs ys
              (omega arith) g.left g.right pos h.ring.forward,
        )
        refl
]
