-- ===== src/Examples/Memory.antt =====
-- The page allocators on an area of 32 pages with the free blocks 2..5 and 10..15.
use os.Base.{
  ℕ, ◌≡◌, refl, List, [], ◌∷◌, Option, some, arith, true, false, ◌==◌, if◌then◌else◌, ◌>>=◌,
}
use os.Links.{
  list_prev, list_add, list_add_after, list_add_before, add_between, list_del, del_between,
  list_empty,
}
use os.Mm.FreeArea.{Page, FreeArea, reset_used}
use os.Mm.FreeArea.Blocks.{Block, Holds}
use os.Mm.FreeArea.Insert.{block}
use os.Mm.Place.{place, place_loop}
use os.Mm.BestFit.{publish, merge_prev, merge_next, best_fit_alloc_pages, best_fit_free_pages}
use os.Mm.BestFit.Alloc.{Allocates, best_fit_alloc_pages-Allocates}
use os.Mm.BestFit.Free.{best_fit_free_pages-Holds}
use os.Mm.FirstFit.{
  default_alloc_pages, default_free_pages, default_init_memmap, search_first, took, take_first,
}
use os.Mm.FirstFit.Alloc.{AllocatesFirst, default_alloc_pages-AllocatesFirst}
use os.Mm.FirstFit.Free.{default_free_pages-Holds, default_init_memmap-Holds}
use os.Mm.FirstFit.Append.{default_free_pages-not-Holds}

abbrev head_of : ℕ → Page
head_of n = record { ref = 0; reserved = false; is_head = true; property = n }

abbrev in_use : Page
in_use = record { ref = 1; reserved = false; is_head = false; property = 0 }

abbrev area : FreeArea
area = record {
  links = record {
    next = λ q. if q == 0 then 3 else if q == 3 then 11 else 0;
    prev = λ q. if q == 0 then 11 else if q == 11 then 3 else 0;
  };
  pages = λ p. if p == 2 then head_of 4 else if p == 10 then head_of 6 else in_use;
  nr_free = 10;
  npage = 32;
}

abbrev blocks : List Block
blocks = block 2 4 ∷ block 10 6 ∷ []

area-Holds : Holds area blocks
area-Holds = record {
  ring = record {
    forward = (refl, (refl, refl));
    backward = (refl, (refl, refl));
    distinct = omega arith;
  };
  within = omega arith;
  heads = ((refl, refl), ((refl, refl), tt));
  only = λ p k. ground arith;
  counted = refl;
  small = omega arith;
}

best_fit_alloc_pages-Allocates_example : Allocates 5 area blocks (best_fit_alloc_pages 5 area)
best_fit_alloc_pages-Allocates_example = best_fit_alloc_pages-Allocates 5 area-Holds (omega arith)

default_alloc_pages-AllocatesFirst_example :
    AllocatesFirst 5 area blocks (default_alloc_pages 5 area)
default_alloc_pages-AllocatesFirst_example =
    default_alloc_pages-AllocatesFirst 5 area-Holds (omega arith)

-- The pages 6..9 fill the gap, and one block is left.
best_fit_free_pages-Holds_example :
    (t : FreeArea) × (best_fit_free_pages 6 4 area ≡ some t) × Holds t (block 2 14 ∷ [])
best_fit_free_pages-Holds_example =
    best_fit_free_pages-Holds (block 2 4 ∷ []) 6 4 (block 10 6 ∷ []) area-Holds
      (record { left = omega arith; right = omega arith }) (omega arith) (λ q lo hi. ground arith)

default_free_pages-Holds_example :
    (t : FreeArea) × (default_free_pages 6 3 area ≡ some t) × Holds t (block 2 7 ∷ block 10 6 ∷ [])
default_free_pages-Holds_example =
    default_free_pages-Holds (block 2 4 ∷ []) 6 3 (block 10 6) [] area-Holds
      (record { left = omega arith; right = omega arith }) (omega arith) (λ q lo hi. ground arith)

-- The pages 16..19 follow the last block, and are not joined to it.
default_free_pages-not-Holds_example :
    (t : FreeArea) × (default_free_pages 16 4 area ≡ some t)
    × (list_prev 17 t.links ≡ 17)
    × ((t.pages 16).is_head ≡ true)
    × ((cs : List Block) → ¬ (Holds t cs))
default_free_pages-not-Holds_example =
    default_free_pages-not-Holds (block 2 4) (block 10 6 ∷ []) 16 4 area-Holds (omega arith)
      (omega arith) (omega arith) (λ q lo hi. ground arith)

-- An area without free blocks, all of its pages reserved.
abbrev empty_area : FreeArea
empty_area = record {
  links = record { next = λ q. q; prev = λ q. q };
  pages = λ p. record { ref = 0; reserved = true; is_head = false; property = 0 };
  nr_free = 0;
  npage = 32;
}

empty_area-Holds : Holds empty_area []
empty_area-Holds = record {
  ring = record { forward = refl; backward = refl; distinct = omega arith };
  within = omega arith;
  heads = tt;
  only = λ p k. refl;
  counted = refl;
  small = omega arith;
}

default_init_memmap-Holds_example :
    (t : FreeArea) × (default_init_memmap 4 20 empty_area ≡ some t) × Holds t (block 4 20 ∷ [])
default_init_memmap-Holds_example =
    default_init_memmap-Holds 4 20 empty_area-Holds (omega arith) (omega arith) (λ q lo hi. refl)

-- The two pages that two allocations of 7 pages return after the pages from 16 to the end of memory
-- have come back behind all free blocks.
abbrev two_allocations : Option (Option ℕ × Option ℕ)
two_allocations = do
  s ← default_free_pages 16 16 area
  first ← default_alloc_pages 7 s
  second ← default_alloc_pages 7 first.1
  some (first.0, second.0)

-- The second allocation returns the pages of the first once more.
allocated_twice : two_allocations ≡ some (some 16, some 16)
unfolding default_free_pages default_alloc_pages reset_used place place_loop publish merge_prev
    merge_next search_first took take_first list_add list_add_after list_add_before add_between
    list_del del_between list_empty
allocated_twice = refl
