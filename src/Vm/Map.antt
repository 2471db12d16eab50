-- ===== src/Vm/Map.antt =====
-- `mm_map` of lab8/kern/mm/vmm.c on a sorted list of disjoint areas.
use os.Base.{ℕ, ◌+◌, ◌<◌, ◌≡◌, refl, sym, ◌∙◌, none, some, arith, true, false, if◌then◌else◌}
use mathlib.Core.Path.{subst}
use os.Vm.{
  Vma, Mm, inside, search_vma, find_vma, insert_vma_struct, ok, mm_map, round_down, round_up, word,
  user_access,
}
use os.Vm.Areas.{Among, IsMm, find_vma-eq-search, find_vma-IsMm, search_vma_unique}
use os.Vm.Insert.{
  clear, placed, placed-Among, search_vma-clear, inserted, insert_vma_struct-eq, inserted-IsMm,
}

-- The pages that `mm_map` rounds its range to.
abbrev pub area_of : ℕ → ℕ → ℕ → Vma
area_of addr len flags = record {
  start = round_down addr;
  end = round_up (word (addr + len));
  flags = flags;
}

user_access-lt : (start end : ℕ) → user_access start end ≡ true → start < end
user_access-lt start end h = ground (arith, h)

module _ {mm : Mm} (addr len flags : ℕ) (h : IsMm mm)
    (user : user_access (round_down addr) (round_up (word (addr + len))) ≡ true) where
  nonempty : (area_of addr len flags).start < (area_of addr len flags).end
  nonempty = user_access-lt (round_down addr) (round_up (word (addr + len))) user

  entering : insert_vma_struct (area_of addr len flags) (find_vma (round_down addr) mm).1 ≡ (
      if clear (area_of addr len flags) mm.mmap
      then some (inserted (area_of addr len flags) (find_vma (round_down addr) mm).1)
      else none)
  unfolding find_vma
  entering =
      insert_vma_struct-eq (area_of addr len flags) (find_vma-IsMm h (round_down addr)) nonempty

  abbrev added : Mm
  added = inserted (area_of addr len flags) (find_vma (round_down addr) mm).1

  added-IsMm : clear (area_of addr len flags) mm.mmap ≡ true → IsMm added
  unfolding find_vma
  added-IsMm free =
      inserted-IsMm (area_of addr len flags) (find_vma-IsMm h (round_down addr)) nonempty free

  added_areas : added.mmap ≡ placed (area_of addr len flags) mm.mmap
  unfolding find_vma
  added_areas = refl

  -- On a well-formed address space, for a range that rounds to user pages which no area overlaps,
  -- and with memory for a new area, `mm_map` returns 0; the space is well-formed again, its areas
  -- are the old ones and the new one at its place by start, and `find_vma` of any address in the
  -- range gives the new one.
  pub mm_map-ok :
      clear (area_of addr len flags) mm.mmap ≡ true
      → (t : Mm) × (mm_map true addr len flags mm ≡ some (ok, t))
        × IsMm t
        × (t.mmap ≡ placed (area_of addr len flags) mm.mmap)
        × ((q : ℕ)
            → inside q (area_of addr len flags) ≡ true
            → (find_vma q t).0 ≡ some (area_of addr len flags))
  unfolding mm_map
  mm_map-ok free = (
    added,
    rw
        (
          user,
          find_vma-eq-search h (round_down addr)
              ∙ search_vma-clear (area_of addr len flags) mm.mmap nonempty free,
          entering,
          free,
        )
        refl,
    added-IsMm free,
    added_areas,
    λ q hit.
        find_vma-eq-search (added-IsMm free) q
        ∙ search_vma_unique 0 q (area_of addr len flags) added.mmap (added-IsMm free).apart
            (subst (Among (area_of addr len flags)) (sym added_areas)
              (placed-Among (area_of addr len flags) mm.mmap))
            hit,
  )

  -- On a well-formed address space, for a range that rounds to user pages whose first address lies
  -- in no area but which some area overlaps, and with memory for a new area, `mm_map` does not
  -- return an error: an assertion in `insert_vma_struct` fails.
  pub mm_map-stops :
      search_vma (round_down addr) mm.mmap ≡ none
      → clear (area_of addr len flags) mm.mmap ≡ false
      → mm_map true addr len flags mm ≡ none
  unfolding mm_map
  mm_map-stops outside overlap =
      rw (user, find_vma-eq-search h (round_down addr) ∙ outside, entering, overlap) refl
