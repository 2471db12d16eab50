-- ===== src/Sched/SkewHeap/Content.antt =====
-- What a heap holds: no operation loses an entry or makes one up, whatever the comparison says.
use os.Base.{ℕ, ◌+◌, ◌≤◌, ◌≡◌, ◌≢◌, refl, arith, ◌==◌, if◌then◌else◌}
use os.Sched.SkewHeap.Order.{AllIn}
use os.Sched.SkewHeap.{SkewHeap, null, node, Sign, merge, insert, remove}

-- How often the entry stands in the heap.
abbrev pub count : ℕ → SkewHeap → ℕ
count x null = 0
count x (node a l r) = (if a == x then 1 else 0) + count x l + count x r

module _ (comp : ℕ → ℕ → Sign) where
  pub count-merge : (x : ℕ) (a b : SkewHeap) → count x (merge comp a b) ≡ count x a + count x b
  unfolding merge
  count-merge x null b = omega arith
  count-merge x (node a al ar) null = omega arith
  count-merge x (node a al ar) (node b bl br) =
      ground (arith, count-merge x ar (node b bl br), count-merge x (node a al ar) br)

  -- `skew_heap_insert` adds the entry once and changes no other.
  pub count-insert :
      (x : ℕ) (a : SkewHeap) (b : ℕ)
      → count x (insert comp a b) ≡ (if b == x then 1 else 0) + count x a
  unfolding insert
  count-insert x a b = omega (arith, count-merge x a (node b null null))

  pub remove_absent : (a : SkewHeap) (b : ℕ) → count b a ≡ 0 → remove comp a b ≡ a
  unfolding remove
  remove_absent null b h = refl
  remove_absent (node a l r) b h =
      ground (arith, remove_absent l b (ground arith), remove_absent r b (ground arith))

  -- Whatever the comparison, removal of an entry that stands in the skew heap at most once leaves
  -- no occurrence of it and the same number of every other entry.
  pub count-remove :
      (x : ℕ) (a : SkewHeap) (b : ℕ)
      → count b a ≤ 1
      → count x (remove comp a b) ≡ (if b == x then 0 else count x a)
  unfolding remove
  count-remove x null b h = ground arith
  count-remove x (node a l r) b h = ground (
    arith,
    count-merge x l r,
    count-remove x l b (ground arith),
    count-remove x r b (ground arith),
  )

-- An entry that stands nowhere differs from every entry.
pub absent : (b : ℕ) (a : SkewHeap) → count b a ≡ 0 → AllIn (λ x. x ≢ b) a
absent b null h = tt
absent b (node a l r) h = (ground arith, absent b l (ground arith), absent b r (ground arith))
