-- ===== src/Mm/BestFit.antt =====
-- lab2/Best-Fit/kern/mm/best_fit_pmm.c: the best-fit page allocator.
pub mod Take
pub mod Search
pub mod Alloc
pub mod Place
pub mod Free
use os.Base.{
  ℕ, zero, suc, ◌+◌, ◌-◌, ◌^◌, ◌%◌, Bool, true, false, Option, none, some, ◌==◌, ltb, leb,
  if◌then◌else◌, ◌>>=◌, ◌>>◌, check, not,
}
use os.Links.{
  Links, list_empty, list_add, list_add_after, list_add_before, list_del, list_next, list_prev,
}
use os.Mm.FreeArea.{
  Page, FreeArea, word, free_list, page_link, le2page, with_property, set_page_property,
  clear_page_property, add_free, sub_free, reset_reserved, reset_used,
}
use os.Mm.Place.{place}

-- The new block's page fields and `nr_free`.
unfoldable pub publish : ℕ → ℕ → FreeArea → FreeArea
publish base n s = add_free n (set_page_property base (with_property base (word n) s))

-- The place in the list is found by size, not by address.
unfoldable pub best_fit_init_memmap : ℕ → ℕ → FreeArea → Option FreeArea
best_fit_init_memmap base n s = do
  check (ltb 0 n)
  clean ← reset_reserved n base s
  let ready = publish base n clean
  place (λ page. ltb (ready.pages base).property (ready.pages page).property) base ready

-- The search of `best_fit_alloc_pages` from the entry behind `le`: the page and its `min_size` so far.
unfoldable pub search_best : ℕ → FreeArea → ℕ → ℕ → Option ℕ → ℕ → Option (Option ℕ)
search_best zero s n le page min_size = none
search_best (suc fuel) s n le page min_size =
    let le' = list_next le s.links in
    let p = le2page le' in
    let size = (s.pages p).property in
    let keep = search_best fuel s n le' page min_size in
    let better = search_best fuel s n le' (some p) size in
    if le' == free_list
    then some page
    else if leb n size
    then (if size == n then some (some p) else if ltb size min_size then better else keep)
    else keep

-- The block `page` is unlinked; what it has beyond `n` pages goes back in its place.
unfoldable pub take_block : ℕ → ℕ → FreeArea → FreeArea
take_block page n s =
    let prev = list_prev (page_link page) s.links in
    let unlinked = record s { links = list_del (page_link page) s.links } in
    let p = page + n in
    let split =
      set_page_property p
        (with_property p (word ((s.pages page).property + 2 ^ 32 - word n)) unlinked) in
    let rest =
      if not (prev == free_list)
      then record split { links = list_add_after prev (page_link p) split.links }
      else record split { links = list_add free_list (page_link p) split.links } in
    clear_page_property page (sub_free n (if ltb n (s.pages page).property then rest else unlinked))

-- What follows the search: the page that it found is taken, if it found one.
unfoldable pub take_found : ℕ → FreeArea → Option ℕ → Option ℕ × FreeArea
take_found n s none = (none, s)
take_found n s (some page) = (some page, take_block page n s)

-- `none` in the outer option is a panic or no fuel; in the inner one it is the code's NULL.
unfoldable pub best_fit_alloc_pages : ℕ → FreeArea → Option (Option ℕ × FreeArea)
best_fit_alloc_pages n s = do
  check (ltb 0 n)
  let found = search_best (suc s.npage) s n free_list none (word (s.nr_free + 1))
  if ltb s.nr_free n then some (none, s) else found >>= λ page. some (take_found n s page)

-- The loop of `best_fit_free_pages`: the last entry at or below `base`.
unfoldable pub find_place : ℕ → FreeArea → ℕ → ℕ → Option ℕ
find_place zero s base le = none
find_place (suc fuel) s base le =
    let next = list_next le s.links in
    let further = find_place fuel s base next in
    if next == free_list then some le else if ltb base (le2page next) then some le else further

-- The block behind `base`'s entry in the list is joined to it if it ends where `base` begins.
unfoldable pub merge_prev : ℕ → FreeArea → FreeArea × ℕ
merge_prev base s =
    let le = list_prev (page_link base) s.links in
    let p = le2page le in
    let size = (s.pages p).property in
    let joined = with_property p (word (size + (s.pages base).property)) s in
    let cleared = clear_page_property base joined in
    if le == free_list
    then (s, base)
    else if p + size == base
    then (record cleared { links = list_del (page_link base) cleared.links }, p)
    else (s, base)

unfoldable pub merge_next : ℕ → FreeArea → FreeArea
merge_next base s =
    let le = list_next (page_link base) s.links in
    let p = le2page le in
    let size = (s.pages base).property in
    let joined = with_property base (word (size + (s.pages p).property)) s in
    let cleared = clear_page_property p joined in
    if le == free_list
    then s
    else if base + size == p
    then record cleared { links = list_del (page_link p) cleared.links }
    else s

unfoldable pub link_block : ℕ → FreeArea → Option FreeArea
link_block base s =
    if list_empty free_list s.links
    then some (record s { links = list_add free_list (page_link base) s.links })
    else find_place (suc s.npage) s base free_list >>= λ le.
        some (record s { links = list_add_after le (page_link base) s.links })

unfoldable pub best_fit_free_pages : ℕ → ℕ → FreeArea → Option FreeArea
best_fit_free_pages base n s = do
  check (ltb 0 n)
  clean ← reset_used n base s
  linked ← link_block base (publish base n clean)
  let merged = merge_prev base linked
  some (merge_next merged.1 merged.0)
