-- ===== src/Mm/BestFit/Take.antt =====
-- Taking pages out of a free block: `take_block` on a well-formed free area.
use os.Base.{
  ℕ, ◌+◌, ◌-◌, ◌^◌, ◌≤◌, ◌<◌, ◌≡◌, sym, inl, inr, true, false, not, List, ◌∷◌, ◌++◌, arith, ltb,
  ltb→lt, if◌then◌else◌, ◌==◌, Bool-cases,
}
use mathlib.Core.Path.{subst, fun_ext}
use os.Links.{Links, list_add, list_add_after, list_del, list_prev}
use os.Links.Chain.{NotIn, last_or, NotIn-left, NotIn-right, Bwd-gap}
use os.Links.Ring.{IsRing, list_del-IsRing, list_add_after-IsRing}
use os.Mm.FreeArea.{Page, FreeArea, free_list, page_link, set_page}
use os.Mm.FreeArea.Blocks.{
  Block, Holds, Heads, links_of, end_of, links_of-append, total-append, Within-append, Within-lower,
  Heads-append, Heads-set_page, total-le,
}
use os.Mm.FreeArea.Middle.{
  mid_ring, mid_within, left_within, left-Heads, mid-Heads, mid_counted, mid_not_linked,
  mid_apart_left, mid_apart_right, mid_only,
}
use os.Mm.BestFit.{take_block}

-- What stays of the block `b` when its first `n` pages are taken.
abbrev pub rest_of : Block → ℕ → Block
rest_of b n = record { start = b.start + n; size = b.size - n }

-- The blocks from `b` on, when `n` pages of `b` are taken.
abbrev pub without : ℕ → Block → List Block → List Block
without n b ys = if ltb n b.size then rest_of b n ∷ ys else ys

list_add_after_either :
    (prev e : ℕ) (l : Links)
    → (if not (prev == free_list) then list_add_after prev e l else list_add free_list e l)
      ≡ list_add_after prev e l
unfolding list_add
list_add_after_either prev e l = ground arith

module _ {s : FreeArea} (xs : List Block) (b : Block) (ys : List Block) (n : ℕ)
    (h : Holds s (xs ++ b ∷ ys)) (pos : 0 < n) where
  before : list_prev (page_link b.start) s.links ≡ last_or free_list (links_of xs)
  before =
      Bwd-gap s.links.prev free_list (links_of xs) (links_of (b ∷ ys)) free_list
        (mid_ring xs b ys h).backward

  unlinked : IsRing (list_del (page_link b.start) s.links) free_list (links_of xs ++ links_of ys)
  unlinked = list_del-IsRing (links_of xs) (page_link b.start) (links_of ys) (mid_ring xs b ys h)

  size_at : (s.pages b.start).property ≡ b.size
  size_at = (mid-Heads xs b ys h).0.0

  small_count : (s.nr_free < 2 ^ 32) × (b.size ≤ s.nr_free)
  small_count =
      omega (
        arith,
        mid_counted xs b ys h,
        total-le 0 (xs ++ b ∷ ys) s.npage h.within,
        h.counted,
        h.small,
      )

  -- The state after the whole block is taken.
  abbrev whole_state : FreeArea
  whole_state = record s {
    links = list_del (page_link b.start) s.links;
    pages = set_page s.pages b.start (record (s.pages b.start) { is_head = false });
    nr_free = s.nr_free - n;
  }

  whole-eq : n ≡ b.size → take_block b.start n s ≡ whole_state
  unfolding take_block
  whole-eq e = ground (arith, size_at, small_count)

  whole-only :
      (p : ℕ)
      → NotIn (page_link p) (links_of xs ++ links_of ys)
      → (whole_state.pages p).is_head ≡ false
  whole-only p k = ground (
    arith,
    mid_only xs b ys h p,
    NotIn-left (page_link p) (links_of xs) (links_of ys) k,
    NotIn-right (page_link p) (links_of xs) (links_of ys) k,
  )

  whole : n ≡ b.size → Holds (take_block b.start n s) (xs ++ ys)
  whole e =
      subst (λ t. Holds t (xs ++ ys)) (sym (whole-eq e))
        (record {
          ring =
              subst (λ zs. IsRing whole_state.links free_list zs) (sym (links_of-append xs ys))
                unlinked;
          within = Within-append 0 xs ys s.npage (left_within xs b ys h) (
              Within-lower (b.start + b.size) (end_of 0 xs) ys s.npage
                (omega (arith, mid_within xs b ys h)) (mid_within xs b ys h).2);
          heads =
              Heads-append whole_state.pages xs ys
                (Heads-set_page s.pages b.start _ xs (mid_apart_left xs b ys h)
                  (left-Heads xs b ys h))
                (Heads-set_page s.pages b.start _ ys (mid_apart_right xs b ys h)
                  (mid-Heads xs b ys h).1);
          only =
              λ p k. whole-only p (subst (λ zs. NotIn (page_link p) zs) (links_of-append xs ys) k);
          counted = omega (arith, mid_counted xs b ys h, total-append xs ys);
          small = h.small;
        })

  abbrev split_at : ℕ
  split_at = b.start + n

  -- The state after the first `n` pages are taken and more are left.
  abbrev part_pages : ℕ → Page
  part_pages =
      set_page
        (set_page s.pages split_at
          (record (s.pages split_at) { is_head = true; property = b.size - n }))
        b.start (record (s.pages b.start) { is_head = false })

  abbrev part_state : FreeArea
  part_state = record s {
    links =
        list_add_after (last_or free_list (links_of xs)) (page_link split_at)
          (list_del (page_link b.start) s.links);
    pages = part_pages;
    nr_free = s.nr_free - n;
  }

  part_links : n < b.size → (take_block b.start n s).links ≡ part_state.links
  unfolding take_block
  part_links lt = ground (
    arith,
    size_at,
    before,
    list_add_after_either (list_prev (page_link b.start) s.links) (page_link split_at)
        (list_del (page_link b.start) s.links),
  )

  part_page : n < b.size → (p : ℕ) → (take_block b.start n s).pages p ≡ part_pages p
  unfolding take_block
  part_page lt p = ground (arith, size_at, small_count)

  part_count :
      n < b.size
      → ((take_block b.start n s).nr_free ≡ s.nr_free - n)
        × ((take_block b.start n s).npage ≡ s.npage)
  unfolding take_block
  part_count lt = ground (arith, size_at, small_count)

  part-eq : n < b.size → take_block b.start n s ≡ part_state
  part-eq lt = λ i. record {
    links = part_links lt i;
    pages = fun_ext (part_page lt) i;
    nr_free = (part_count lt).0 i;
    npage = (part_count lt).1 i;
  }

  split_apart : n < b.size → NotIn (page_link split_at) (links_of xs ++ links_of ys)
  split_apart lt = mid_not_linked xs b ys h split_at (omega arith) (omega arith)

  part-only :
      n < b.size
      → (p : ℕ) → NotIn (page_link p) (links_of xs ++ page_link split_at ∷ links_of ys)
      → (part_pages p).is_head ≡ false
  part-only lt p k =
      let right = NotIn-right (page_link p) (links_of xs) (page_link split_at ∷ links_of ys) k in
      let left = NotIn-left (page_link p) (links_of xs) (page_link split_at ∷ links_of ys) k in
      ground (arith, mid_only xs b ys h p, left, right)

  part-Heads : n < b.size → Heads part_pages (xs ++ rest_of b n ∷ ys)
  part-Heads lt =
      let apart = split_apart lt in
      let once =
        set_page s.pages split_at
          (record (s.pages split_at) { is_head = true; property = b.size - n }) in
      Heads-append part_pages xs (rest_of b n ∷ ys)
        (Heads-set_page once b.start _ xs (mid_apart_left xs b ys h) (
          Heads-set_page s.pages split_at _ xs
            (NotIn-left (page_link split_at) (links_of xs) (links_of ys) apart)
            (left-Heads xs b ys h)))
        (
          ground arith,
          Heads-set_page once b.start _ ys (mid_apart_right xs b ys h) (
              Heads-set_page s.pages split_at _ ys
                (NotIn-right (page_link split_at) (links_of xs) (links_of ys) apart)
                (mid-Heads xs b ys h).1),
        )

  part : n < b.size → Holds (take_block b.start n s) (xs ++ rest_of b n ∷ ys)
  part lt =
      subst (λ t. Holds t (xs ++ rest_of b n ∷ ys)) (sym (part-eq lt))
        (record {
          ring =
              subst (λ zs. IsRing part_state.links free_list zs)
                (sym (links_of-append xs (rest_of b n ∷ ys)))
                (list_add_after-IsRing (page_link split_at) (links_of xs) (links_of ys)
                  (omega arith) (split_apart lt) unlinked);
          within = Within-append 0 xs (rest_of b n ∷ ys) s.npage (left_within xs b ys h) (
            omega (arith, mid_within xs b ys h),
            omega arith,
            Within-lower (b.start + b.size) (b.start + n + (b.size - n)) ys s.npage (omega arith)
                (mid_within xs b ys h).2,
          );
          heads = part-Heads lt;
          only = λ p k.
              part-only lt p
                (subst (λ zs. NotIn (page_link p) zs) (links_of-append xs (rest_of b n ∷ ys)) k);
          counted = omega (arith, mid_counted xs b ys h, total-append xs (rest_of b n ∷ ys));
          small = h.small;
        })

  -- Taking `n` pages of a block leaves the other blocks, and what is left of that one, in place.
  pub take_block-Holds : n ≤ b.size → Holds (take_block b.start n s) (xs ++ without n b ys)
  take_block-Holds le = elim (Bool-cases (ltb n b.size)) [
    | inl lt ↦ rw lt (part (ltb→lt n b.size lt))
    | inr ge ↦ rw ge (whole (ground arith))
  ]
