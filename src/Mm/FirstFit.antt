-- ===== src/Mm/FirstFit.antt =====
-- lab8/kern/mm/default_pmm.c: the first-fit page allocator.
pub mod Alloc
pub mod Free
pub mod Append
use os.Base.{
  ℕ, zero, suc, ◌+◌, ◌-◌, ◌^◌, Bool, Option, none, some, ◌==◌, ltb, leb, if◌then◌else◌, ◌>>=◌, ◌>>◌,
  check,
}
use os.Links.{Links, list_add, list_del, list_next, list_prev}
use os.Mm.FreeArea.{
  Page, FreeArea, word, free_list, page_link, le2page, with_property, set_page_property,
  clear_page_property, add_free, sub_free, reset_reserved, reset_used,
}
use os.Mm.Place.{place}
use os.Mm.BestFit.{publish, merge_prev, merge_next}

unfoldable pub default_init_memmap : ℕ → ℕ → FreeArea → Option FreeArea
default_init_memmap base n s = do
  check (ltb 0 n)
  clean ← reset_reserved n base s
  place (λ page. ltb base page) base (publish base n clean)

-- The search loop of `default_alloc_pages`, from the entry behind `le`.
unfoldable pub search_first : ℕ → FreeArea → ℕ → ℕ → Option (Option ℕ)
search_first zero s n le = none
search_first (suc fuel) s n le =
    let le' = list_next le s.links in
    let further = search_first fuel s n le' in
    if le' == free_list
    then some none
    else if leb n (s.pages (le2page le')).property
    then some (some (le2page le'))
    else further

-- The block is unlinked; what it has beyond `n` pages goes back in its place.
unfoldable pub take_first : ℕ → ℕ → FreeArea → FreeArea
take_first page n s =
    let prev = list_prev (page_link page) s.links in
    let unlinked = record s { links = list_del (page_link page) s.links } in
    let p = page + n in
    let split =
      set_page_property p
        (with_property p (word ((s.pages page).property + 2 ^ 32 - word n)) unlinked) in
    let rest = record split { links = list_add prev (page_link p) split.links } in
    clear_page_property page (sub_free n (if ltb n (s.pages page).property then rest else unlinked))

unfoldable pub took : ℕ → FreeArea → Option ℕ → Option ℕ × FreeArea
took n s none = (none, s)
took n s (some page) = (some page, take_first page n s)

unfoldable pub default_alloc_pages : ℕ → FreeArea → Option (Option ℕ × FreeArea)
default_alloc_pages n s = do
  check (ltb 0 n)
  let found = search_first (suc s.npage) s n free_list
  if ltb s.nr_free n then some (none, s) else found >>= λ page. some (took n s page)

-- The two merges at the end are those of best_fit_pmm.c, text for text.
unfoldable pub default_free_pages : ℕ → ℕ → FreeArea → Option FreeArea
default_free_pages base n s = do
  check (ltb 0 n)
  clean ← reset_used n base s
  linked ← place (λ page. ltb base page) base (publish base n clean)
  let merged = merge_prev base linked
  some (merge_next merged.1 merged.0)
