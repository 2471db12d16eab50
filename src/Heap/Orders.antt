-- ===== src/Heap/Orders.antt =====
-- `find_order` (lab8/kern/mm/kmalloc.c): for which sizes it gives an order.
use os.Base.{
  ℕ, zero, suc, ◌*◌, ◌/◌, ◌^◌, ◌%◌, ◌≤◌, ◌<◌, inl, inr, arith, Bool-cases, ltb, ltb→lt, ◌≡◌, lt→ltb,
}
use os.Heap.{order_from, find_order}

-- The sizes of an order: each order doubles 4097, not 4096.
abbrev pub InOrder : ℕ → ℕ → Type 0
InOrder zero size = size ≤ 4096
InOrder (suc o) size = (4097 * 2 ^ o ≤ size) × (size < 4097 * 2 ^ suc o)

InOrder-half : (o size : ℕ) → 4096 < size → InOrder o (size / 2) → InOrder (suc o) size
InOrder-half zero size big half = (omega arith, omega arith)
InOrder-half (suc o) size big (low, high) = (omega (arith, low), omega (arith, high))

order_from-InOrder : (fuel size : ℕ) → size < 4097 * 2 ^ fuel → InOrder (order_from fuel size) size
unfolding order_from
order_from-InOrder zero size lt = omega arith
order_from-InOrder (suc fuel) size lt = elim (Bool-cases (ltb 4096 size)) [
  | inl big ↦ rw (big) (
      InOrder-half (order_from fuel (size / 2)) size (ltb→lt 4096 size big)
        (order_from-InOrder fuel (size / 2) (omega (arith, lt))))
  | inr small ↦ rw (small) (ground (arith, small))
]

-- For a size below 2^31 `find_order` gives 0 exactly where the size is at most 4096, and any
-- greater order o exactly where the size is at least 4097 * 2^(o - 1) and less than 4097 * 2^o.
pub find_order-InOrder : (size : ℕ) → size < 2 ^ 31 → InOrder (find_order size) size
unfolding find_order
find_order-InOrder size lt =
    let same : size % 2 ^ 32 ≡ size = omega (arith, lt) in
    rw (same, lt→ltb size (2 ^ 31) lt) (order_from-InOrder 64 size (omega (arith, lt)))
