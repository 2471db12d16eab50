-- ===== src/Examples/Space.antt =====
-- lab8/kern/mm/vmm.c: an address space with two areas of a page each.
use os.Base.{ℕ, ◌≡◌, refl, [], ◌∷◌, none, some, inl, inr, arith, Bool, true}
use os.Vm.{
  Vma, Mm, find_vma, mm_map, ok, insert_vma_struct, user_mem_check, search_vma, inside, word,
}
use os.Vm.Areas.{IsMm}
use os.Vm.Insert.{placed}
use os.Vm.Map.{mm_map-ok, mm_map-stops}
use os.Vm.Access.{AllGranted, user_mem_check-AllGranted}

abbrev code : Vma
code = record { start = 0x20_0000; end = 0x20_1000; flags = 3 }

abbrev heap : Vma
heap = record { start = 0x30_0000; end = 0x30_1000; flags = 3 }

abbrev space : Mm
space = record { mmap = code ∷ heap ∷ []; cache = some heap; map_count = 2 }

space-IsMm : IsMm space
space-IsMm = record {
  apart = (omega arith, omega arith, (omega arith, omega arith, tt));
  cached = inr (inl refl);
}

abbrev gap : Vma
gap = record { start = 0x25_0000; end = 0x25_2000; flags = 1 }

mm_map-ok_example :
    (t : Mm) × (mm_map true 0x25_0010 0x1234 1 space ≡ some (ok, t))
    × IsMm t
    × (t.mmap ≡ placed gap space.mmap)
    × ((q : ℕ) → inside q gap ≡ true → (find_vma q t).0 ≡ some gap)
mm_map-ok_example = mm_map-ok 0x25_0010 0x1234 1 space-IsMm refl refl

-- The range begins in no area, and reaches into the second one.
mm_map-stops_example : mm_map true 0x2f_f000 0x1800 1 space ≡ none
unfolding search_vma
mm_map-stops_example = mm_map-stops 0x2f_f000 0x1800 1 space-IsMm refl refl refl

user_mem_check-AllGranted_example :
    (b : Bool) × (t : Mm) × (user_mem_check (some space) 0x20_0010 16 true ≡ some (b, some t))
    × IsMm t
    × (b ≡ true → AllGranted true space.mmap 0x20_0010 0x20_0020)
user_mem_check-AllGranted_example = user_mem_check-AllGranted 0x20_0010 16 true space-IsMm

-- The range is granted.
user_mem_check_granted :
    user_mem_check (some space) 0x20_0010 16 true
    ≡ some (true, some (record space { cache = some code }))
unfolding user_mem_check os.Vm.check_areas find_vma search_vma
user_mem_check_granted = refl
