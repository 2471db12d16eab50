-- ===== src/Mm/Place.antt =====
-- The insertion loop that `default_init_memmap` and `default_free_pages` of
-- lab8/kern/mm/default_pmm.c and `best_fit_init_memmap` of
-- lab2/Best-Fit/kern/mm/best_fit_pmm.c share; they differ in the test that stops it.
pub mod Order
use os.Base.{ℕ, zero, suc, Bool, Option, none, some, ◌==◌, ltb, if◌then◌else◌, ◌>>=◌}
use os.Links.{Links, list_add, list_add_before, list_next, list_empty}
use os.Mm.FreeArea.{Page, FreeArea, free_list, page_link, le2page}

-- One pass from the entry behind `le`: before the first page that passes the test, or behind the
-- last entry. The second case does not leave the loop.
unfoldable pub place_loop : ℕ → (ℕ → Bool) → ℕ → ℕ → Links → Option Links
place_loop zero goes_before base le l = none
place_loop (suc fuel) goes_before base le l =
    let le' = list_next le l in
    let l' = if list_next le' l == free_list then list_add le' (page_link base) l else l in
    let further = place_loop fuel goes_before base le' l' in
    if le' == free_list
    then some l
    else if goes_before (le2page le')
    then some (list_add_before le' (page_link base) l)
    else further

-- The insertion: `list_empty` is the first test of all three functions.
unfoldable pub place : (ℕ → Bool) → ℕ → FreeArea → Option FreeArea
place goes_before base s =
    if list_empty free_list s.links
    then some (record s { links = list_add free_list (page_link base) s.links })
    else place_loop (suc (suc (suc s.npage))) goes_before base free_list s.links >>= λ l.
        some (record s { links = l })
