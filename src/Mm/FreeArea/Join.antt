-- ===== src/Mm/FreeArea/Join.antt =====
-- Joining a free block to the one that begins where it ends.
use os.Base.{ℕ, ◌+◌, ◌<◌, ◌^◌, ◌≡◌, sym, ◌≢◌, List, [], ◌∷◌, ◌++◌, arith, true, false, append_assoc}
use mathlib.Core.Path.{subst}
use os.Links.{list_del}
use os.Links.Chain.{NotIn, NotIn-left, NotIn-right}
use os.Links.Ring.{IsRing, list_del-IsRing}
use os.Mm.FreeArea.{
  FreeArea, free_list, page_link, set_page, word, with_property, clear_page_property,
}
use os.Mm.FreeArea.Blocks.{
  Block, Holds, Within, Heads, links_of, end_of, links_of-append, total-append, Within-append,
  NotIn-above, Heads-append, Heads-set_page,
}
use os.Mm.FreeArea.Middle.{
  mid_ring, mid_within, left_within, left-Heads, mid-Heads, mid_counted, mid_apart_left,
  mid_apart_right, mid_only, mid_end,
}

abbrev pub joined : Block → Block → Block
joined a b = record { start = a.start; size = a.size + b.size }

-- The stores of a merge: `a` takes the pages of `b`, whose flag is cleared and whose link is cut.
abbrev pub merge : ℕ → ℕ → FreeArea → FreeArea
merge a b s =
    let widened = with_property a (word ((s.pages a).property + (s.pages b).property)) s in
    let cleared = clear_page_property b widened in
    record cleared { links = list_del (page_link b) cleared.links }

module _ {s : FreeArea} (xs : List Block) (a b : Block) (ys : List Block)
    (h : Holds s (xs ++ a ∷ b ∷ ys)) (touch : a.start + a.size ≡ b.start) where
  regrouped : Holds s ((xs ++ a ∷ []) ++ b ∷ ys)
  regrouped = subst (λ zs. Holds s zs) (sym (append_assoc xs (a ∷ []) (b ∷ ys))) h

  fields :
      ((s.pages a.start).property ≡ a.size)
      × ((s.pages b.start).property ≡ b.size)
      × (a.start < b.start)
      × (a.size + b.size < 2 ^ 32)
      × ((s.pages a.start).is_head ≡ true)
  fields =
      let heads = mid-Heads xs a (b ∷ ys) h in
      let w = mid_within xs a (b ∷ ys) h in
      let e = mid_end (xs ++ a ∷ []) b ys regrouped in
      let small = h.small in (heads.0.0, heads.1.0.0, omega arith, omega arith, heads.0.1)

  cut :
      IsRing
        (list_del (page_link b.start) s.links)
        free_list
        (links_of xs ++ page_link a.start ∷ links_of ys)
  cut =
      let before = links_of xs in
      let here = page_link a.start ∷ [] in
      let ring =
        subst (λ zs. IsRing s.links free_list zs)
          (sym (append_assoc before here (page_link b.start ∷ links_of ys)))
          (mid_ring xs a (b ∷ ys) h) in
      subst (λ zs. IsRing (list_del (page_link b.start) s.links) free_list zs)
        (append_assoc before here (links_of ys))
        (list_del-IsRing (before ++ here) (page_link b.start) (links_of ys) ring)

  left_apart : NotIn (page_link b.start) (links_of xs)
  left_apart =
      NotIn-above b.start 0 xs (end_of 0 xs) (omega (arith, mid_within xs a (b ∷ ys) h))
        (left_within xs a (b ∷ ys) h)

  only :
      (p : ℕ)
      → NotIn (page_link p) (links_of xs ++ page_link a.start ∷ links_of ys)
      → ((merge a.start b.start s).pages p).is_head ≡ false
  only p k =
      let left = NotIn-left (page_link p) (links_of xs) (page_link a.start ∷ links_of ys) k in
      let right = NotIn-right (page_link p) (links_of xs) (page_link a.start ∷ links_of ys) k in
      ground (
        arith,
        mid_only xs a (b ∷ ys) h p,
        λ (q : p ≢ b.start). mid_only xs a (b ∷ ys) h p (omega arith) left (omega arith, right.1),
      )

  heads : Heads (merge a.start b.start s).pages (xs ++ joined a b ∷ ys)
  heads =
      let old = s.pages a.start in
      let wide =
        set_page s.pages a.start
          (record old { property = word (old.property + (s.pages b.start).property) }) in
      let own = mid-Heads xs a (b ∷ ys) h in
      let a_right = mid_apart_right xs a (b ∷ ys) h in
      let b_right = mid_apart_right (xs ++ a ∷ []) b ys regrouped in
      Heads-append (merge a.start b.start s).pages xs (joined a b ∷ ys)
        (Heads-set_page wide b.start _ xs left_apart (
          Heads-set_page s.pages a.start _ xs (mid_apart_left xs a (b ∷ ys) h)
            (left-Heads xs a (b ∷ ys) h)))
        (
          ground (arith, fields),
          Heads-set_page wide b.start _ ys b_right
              (Heads-set_page s.pages a.start _ ys a_right.1 own.1.1),
        )

  -- After the merge the two blocks are one, and the free area is well-formed.
  pub merge-Holds : Holds (merge a.start b.start s) (xs ++ joined a b ∷ ys)
  merge-Holds = record {
    ring =
        subst (λ zs. IsRing (list_del (page_link b.start) s.links) free_list zs)
          (sym (links_of-append xs (joined a b ∷ ys))) cut;
    within =
        let w = mid_within xs a (b ∷ ys) h in
        Within-append 0 xs (joined a b ∷ ys) s.npage (left_within xs a (b ∷ ys) h)
          (w.0, omega arith, subst (λ k. Within k ys s.npage) (omega arith) w.2.2);
    heads = heads;
    only = λ p k.
        only p (subst (λ zs. NotIn (page_link p) zs) (links_of-append xs (joined a b ∷ ys)) k);
    counted = omega (arith, mid_counted xs a (b ∷ ys) h, total-append xs (joined a b ∷ ys));
    small = h.small;
  }
