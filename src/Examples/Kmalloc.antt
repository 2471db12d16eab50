-- ===== src/Examples/Kmalloc.antt =====
-- lab8/kern/mm/kmalloc.c: two free blocks of 32 bytes, at 4096 and 4160, and a page at 16384 that may be had.
use os.Base.{
  ℕ, ◌≡◌, inl, inr, refl, [], ◌∷◌, some, arith, ◌==◌, if◌then◌else◌, ◌>>=◌, none, List, ◌++◌,
}
use os.Heap.{
  Heap, slob_free, find_place, join_next, join_prev, slob_alloc, alloc_loop, take_units,
  get_free_pages, kmalloc, kfree, find_big, free_pages, find_order, order_from,
}
use os.Heap.Arena.{IsArena}
use os.Heap.Insert.{Freed}
use os.Heap.Bytes.{IsFreeable, slob_free-Freed}
use os.Heap.Free.{SameCover}
use os.Heap.Cutting.{Taken}
use os.Heap.Search.{OnlyList, slob_alloc-Taken}
use os.Heap.Restore.{kfree-kmalloc}
use os.Heap.Orders.{InOrder, find_order-InOrder}

abbrev two_blocks : Heap
two_blocks = record {
  units = λ p. 2;
  next = λ p. if p == 4096 then 4160 else 4096;
  slobfree = 4096;
  order = λ p. 0;
  pages = λ p. 0;
  big_next = λ p. 0;
  bigblocks = 0;
  grants = 16384 ∷ 20480 ∷ [];
  returned = [];
}

two_blocks-IsArena : IsArena two_blocks 8192 [] 4096 (4160 ∷ [])
two_blocks-IsArena = record {
  ordered = (omega arith, omega arith, (omega arith, omega arith, omega arith));
  ring = (refl, refl);
}

-- The block between the two touches both.
gap-IsFreeable : IsFreeable two_blocks 8192 (4096 ∷ 4160 ∷ []) 4128 2
gap-IsFreeable = record {
  apart = (inr (omega arith), (inl (omega arith), tt));
  alone = tt;
  least = omega arith;
  pos = omega arith;
  room = omega arith;
}

slob_free-Freed_example :
    (k : Heap) × (slob_free 4 4128 32 two_blocks ≡ some k)
    × Freed two_blocks.units (4096 ∷ 4160 ∷ []) 8192 4128 2 k
slob_free-Freed_example =
    slob_free-Freed two_blocks 8192 [] (4160 ∷ []) 4 4128 32 two_blocks-IsArena gap-IsFreeable
      (omega arith)

find_order-InOrder_example : InOrder (find_order 8193) 8193
find_order-InOrder_example = find_order-InOrder 8193 (omega arith)

joins_both : (slob_free 4 4128 32 two_blocks >>= λ k. some (k.units 4096)) ≡ some 6
unfolding slob_free find_place join_next join_prev
joins_both = refl

-- A request of 32 bytes takes three units, so it needs the page; what is left of that is 253 units.
takes_page :
    (kmalloc 6 32 two_blocks >>= λ r. some (r.0 ∷ r.1.units 16384 ∷ r.1.units 16432 ∷ []))
    ≡ some (16400 ∷ 3 ∷ 253 ∷ [])
unfolding kmalloc slob_alloc alloc_loop take_units get_free_pages slob_free find_place join_next
    join_prev
takes_page = refl

-- Given back, it is part of the page's block again.
gives_back :
    (kmalloc 6 32 two_blocks >>= λ r. kfree 6 r.0 r.1 >>= λ k. some (k.units 16384)) ≡ some 256
unfolding kmalloc slob_alloc alloc_loop take_units get_free_pages slob_free find_place join_next
    join_prev kfree find_big free_pages
gives_back = refl

-- 8193 bytes get two pages, which have 8192.
too_small : find_order 8193 ≡ 1
unfolding find_order order_from
too_small = refl

-- With a third block, of 128 bytes at 4224.
abbrev three_blocks : Heap
three_blocks = record two_blocks {
  units = λ p. if p == 4224 then 8 else 2;
  next = λ p. if p == 4096 then 4160 else if p == 4160 then 4224 else 4096;
}

three_blocks-IsArena : IsArena three_blocks 8192 [] 4096 (4160 ∷ 4224 ∷ [])
three_blocks-IsArena = record {
  ordered = (
    omega arith,
    omega arith,
    (omega arith, omega arith, (omega arith, omega arith, omega arith)),
  );
  ring = (refl, (refl, refl));
}

no_big_block : (q : ℕ) → find_big 7 q 0 0 three_blocks ≡ some none
unfolding find_big
no_big_block q = refl

slob_alloc-Taken_example :
    (cur : ℕ) × (k : Heap) × (slob_alloc 3 48 three_blocks ≡ some (cur, k))
    × Taken three_blocks.units (4096 ∷ 4160 ∷ 4224 ∷ []) 8192 cur 3 k
    × OnlyList three_blocks k
slob_alloc-Taken_example =
    slob_alloc-Taken three_blocks 8192 [] (4160 ∷ 4224 ∷ []) 3 48 three_blocks-IsArena (omega arith)
      (omega arith) (omega arith) (inr (inr (inl (omega arith)))) (omega arith)

kfree-kmalloc_example :
    (p : ℕ) × (k : Heap) × (r : Heap) × (kmalloc 7 32 three_blocks ≡ some (p, k))
    × (kfree 7 p k ≡ some r)
    × (lo' : List ℕ) × (hi' : List ℕ) × IsArena r 8192 lo' r.slobfree hi'
    × SameCover three_blocks.units (4096 ∷ 4160 ∷ 4224 ∷ []) r.units (lo' ++ r.slobfree ∷ hi')
kfree-kmalloc_example =
    kfree-kmalloc three_blocks 8192 [] (4160 ∷ 4224 ∷ []) 7 32 three_blocks-IsArena (omega arith)
      (omega arith) (omega arith) (inr (inr (inl (omega arith)))) (λ q c. no_big_block q)
      (omega arith)

-- A size that `kmalloc` takes for a small one, and for which `slob_alloc` stops at its assertion.
too_large : (kmalloc 6 4064 two_blocks >>= λ r. some r.0) ≡ none
unfolding kmalloc slob_alloc
too_large = refl
