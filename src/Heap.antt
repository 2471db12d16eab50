-- ===== src/Heap.antt =====
-- lab8/kern/mm/kmalloc.c: the kernel heap. Pointers are byte addresses, 0 for NULL; a `slob_t` has 16
-- bytes, and pointer arithmetic is in these units. The fields of all blocks are functions of their
-- addresses.
pub mod Arena
pub mod Walk
pub mod Free
pub mod Join
pub mod Insert
pub mod Freeing
pub mod Bytes
pub mod Orders
pub mod Taking
pub mod Beside
pub mod Cutting
pub mod Search
pub mod Restore
use Prim.Native.Nat.{bit_and}
use os.Base.{
  ℕ, zero, suc, ◌+◌, ◌-◌, ◌*◌, ◌/◌, ◌%◌, ◌^◌, Bool, true, false, not, ◌&&◌, ◌||◌, Option, none,
  some, List, [], ◌∷◌, ◌++◌, ◌==◌, ltb, leb, if◌then◌else◌, ◌>>=◌, ◌>>◌, check,
}
use os.Links.{store}

-- `units` and `next` of the blocks, `order`, `pages` and `next` of the big blocks, and the two roots.
-- `grants` are the addresses that the next calls of the page allocator return, NULL once there are no
-- more; `returned` is what it has been given back, the last first.
pub record Heap : Type 0 where
  pub units : ℕ → ℕ
  pub next : ℕ → ℕ
  pub slobfree : ℕ
  pub order : ℕ → ℕ
  pub pages : ℕ → ℕ
  pub big_next : ℕ → ℕ
  pub bigblocks : ℕ
  pub grants : List ℕ
  pub returned : List (ℕ × ℕ)

abbrev pub page_size : ℕ
page_size = 4096

abbrev pub slob_unit : ℕ
slob_unit = 16

abbrev pub slob_units : ℕ → ℕ
slob_units size = (size + slob_unit - 1) / slob_unit

-- The address `n` units behind `p`.
abbrev pub offset : ℕ → ℕ → ℕ
offset p n = p + slob_unit * n

unfoldable pub get_free_pages : Heap → ℕ × Heap
get_free_pages h = elim h.grants [ [] ↦ (0, h) | p ∷ ps ↦ (p, record h { grants = ps }) ]

unfoldable pub free_pages : ℕ → ℕ → Heap → Heap
free_pages p order h = record h { returned = (p, 2 ^ order) ∷ h.returned }

-- Where `slob_free` leaves its loop.
abbrev pub fits_behind : ℕ → ℕ → Heap → Bool
fits_behind b cur h =
    (ltb cur b && ltb b (h.next cur)) || (leb (h.next cur) cur && (ltb cur b || ltb b (h.next cur)))

unfoldable pub find_place : ℕ → ℕ → ℕ → Heap → Option ℕ
find_place zero b cur h = none
find_place (suc fuel) b cur h =
    let rest = find_place fuel b (h.next cur) h in if fits_behind b cur h then some cur else rest

-- The two joins behind the loop.
unfoldable pub join_next : ℕ → ℕ → Heap → Heap
join_next b cur h =
    let n = h.next cur in
    if offset b (h.units b) == n
    then record h {
      units = store h.units b (h.units b + h.units n);
      next = store h.next b (h.next n);
    }
    else record h { next = store h.next b n }

unfoldable pub join_prev : ℕ → ℕ → Heap → Heap
join_prev b cur h =
    if offset cur (h.units cur) == b
    then record h {
      units = store h.units cur (h.units cur + h.units b);
      next = store h.next cur (h.next b);
      slobfree = cur;
    }
    else record h { next = store h.next cur b; slobfree = cur }

unfoldable pub slob_free : ℕ → ℕ → ℕ → Heap → Option Heap
slob_free fuel b size h =
    let sized =
      if not (size == 0) then record h { units = store h.units b (slob_units size) } else h in
    let placed = find_place fuel b sized.slobfree sized >>= λ cur.
    some (join_prev b cur (join_next b cur sized)) in
    if b == 0 then some h else placed

-- A block that is large enough is cut, or taken whole; `prev` leads to it.
unfoldable pub take_units : ℕ → ℕ → ℕ → Heap → Heap
take_units units prev cur h =
    let rest = offset cur units in
    if h.units cur == units
    then record h { next = store h.next prev (h.next cur); slobfree = prev }
    else record h {
      next = store (store h.next prev rest) rest (store h.next prev rest cur);
      units = store (store h.units rest (h.units cur - units)) cur units;
      slobfree = prev;
    }

-- The loop of `slob_alloc`, as every caller calls it, without an alignment. The fuel counts the
-- rounds, and bounds each insertion of a new page as well.
unfoldable pub alloc_loop : ℕ → ℕ → ℕ → ℕ → Heap → Option (ℕ × Heap)
alloc_loop zero units prev cur h = none
alloc_loop (suc fuel) units prev cur h = elim (leb units (h.units cur)) [
  | true ↦ some (cur, take_units units prev cur h)
  | false ↦ elim (cur == h.slobfree) [
    | false ↦ alloc_loop fuel units cur (h.next cur) h
    | true ↦ elim ((get_free_pages h).0 == 0) [
      | true ↦ some (0, (get_free_pages h).1)
      | false ↦ slob_free fuel (get_free_pages h).0 page_size (get_free_pages h).1 >>= λ h'.
          alloc_loop fuel units h'.slobfree (h'.next h'.slobfree) h'
    ]
  ]
]

unfoldable pub slob_alloc : ℕ → ℕ → Heap → Option (ℕ × Heap)
slob_alloc fuel size h =
    check (ltb (size + slob_unit) page_size)
    >> alloc_loop fuel (slob_units size) h.slobfree (h.next h.slobfree) h

-- The loop of `find_order`, with 64 rounds for a 32-bit size.
unfoldable pub order_from : ℕ → ℕ → ℕ
order_from zero size = 0
order_from (suc fuel) size =
    let rest = order_from fuel (size / 2) in if ltb 4096 size then suc rest else 0

-- Its parameter is a signed number of 32 bits.
unfoldable pub find_order : ℕ → ℕ
find_order size = if ltb (size % 2 ^ 32) (2 ^ 31) then order_from 64 (size % 2 ^ 32) else 0

-- `sizeof(bigblock_t)` is 24.
unfoldable pub kmalloc : ℕ → ℕ → Heap → Option (ℕ × Heap)
kmalloc fuel size h =
    let small = slob_alloc fuel (size + slob_unit) h >>= λ r.
    some (if not (r.0 == 0) then offset r.0 1 else 0, r.1) in
    let big = slob_alloc fuel 24 h >>= λ r.
    let bb = r.0 in
    let t = record r.1 { order = store r.1.order bb (find_order size) } in
    let given = get_free_pages t in
    let u = record given.1 { pages = store given.1.pages bb given.0 } in
    let linked = record u { big_next = store u.big_next bb u.bigblocks; bigblocks = bb } in
    let undone = slob_free fuel bb 24 u >>= λ v. some (0, v) in
    if bb == 0
    then some (0, r.1)
    else if not (given.0 == 0)
    then some (given.0, linked)
    else undone in
    if ltb size (page_size - slob_unit) then small else big

-- The big block whose pages begin at `block`, with `last` pointing to it: 0 stands for `bigblocks`.
unfoldable pub find_big : ℕ → ℕ → ℕ → ℕ → Heap → Option (Option (ℕ × ℕ))
find_big zero block last bb h = none
find_big (suc fuel) block last bb h =
    let rest = find_big fuel block bb (h.big_next bb) h in
    if bb == 0 then some none else if h.pages bb == block then some (some (last, bb)) else rest

unfoldable pub kfree : ℕ → ℕ → Heap → Option Heap
kfree fuel block h =
    let small = slob_free fuel (block - slob_unit) 0 h in
    let big = find_big fuel block 0 h.bigblocks h >>= λ found. elim found [
      | none ↦ small
      | some (last, bb) ↦
          let unlinked =
            if last == 0
            then record h { bigblocks = h.big_next bb }
            else record h { big_next = store h.big_next last (h.big_next bb) } in
          slob_free fuel bb 24 (free_pages block (h.order bb) unlinked)
    ] in
    if block == 0 then some h else if block % page_size == 0 then big else small

unfoldable pub ksize : ℕ → ℕ → Heap → Option ℕ
ksize fuel block h =
    let small = (h.units (block - slob_unit) * slob_unit) % 2 ^ 32 in
    let big = find_big fuel block 0 h.bigblocks h >>= λ found.
    some (elim found [ none ↦ small | some (last, bb) ↦ (page_size * 2 ^ h.order bb) % 2 ^ 32 ]) in
    if block == 0 then some 0 else if block % page_size == 0 then big else some small
