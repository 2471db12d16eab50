-- ===== src/Heap/Restore.antt =====
-- `kmalloc` and then `kfree` (lab8/kern/mm/kmalloc.c) of what it returned.
use os.Base.{
  ℕ, zero, suc, ◌+◌, ◌-◌, ◌*◌, ◌%◌, ◌≤◌, ◌<◌, ◌≡◌, ◌≢◌, inl, inr, refl, sym, ap, ◌∙◌, List, [], ◌∷◌,
  ◌++◌, length, length-append, arith, some, none, Bool-cases, ◌==◌, ==_ne, lt→ltb,
}
use mathlib.Core.Path.{subst}
use os.Heap.{
  Heap, offset, slob_alloc, slob_free, slob_unit, slob_units, page_size, kmalloc, kfree, find_big,
}
use os.Heap.Arena.{Seg, Seg-bounds, IsArena, Covers, Within}
use os.Heap.Free.{SameCover}
use os.Heap.Insert.{Freed}
use os.Heap.Beside.{NotAlone-two}
use os.Heap.Bytes.{IsFreeable, freed_units, slob_free-Freed}
use os.Heap.Cutting.{Taken}
use os.Heap.Search.{Fits, OnlyList, slob_alloc-Taken}

Covers-bounds :
    (u : ℕ → ℕ) (a : ℕ) (xs : List ℕ) (top q : ℕ)
    → Seg u a xs top
    → Covers u xs q
    → (a ≤ q) × (q < top)
Covers-bounds u a [] top q seg c = absurd c
Covers-bounds u a (x ∷ xs) top q (le, pos, seg) (inl w) =
    (omega (arith, le, w), omega (arith, w, Seg-bounds u (offset x (u x)) xs top seg))
Covers-bounds u a (x ∷ xs) top q (le, pos, seg) (inr c) =
    let (low, high) = Covers-bounds u (offset x (u x)) xs top q seg c in
    (omega (arith, le, low), high)

module _ (h k : Heap) (top : ℕ) (xs : List ℕ) (cur n : ℕ) (n_pos : 0 < n)
    (t : Taken h.units xs top cur n k) where
  abbrev left : List ℕ
  left = t.lo ++ k.slobfree ∷ t.hi

  taken-IsFreeable :
      Seg h.units 1 xs top → 2 < length xs → IsFreeable k top left cur (freed_units cur 0 k)
  taken-IsFreeable seg three =
      let first =
        Covers-bounds h.units 1 xs top cur seg
          ((t.bytes cur).1 (inr (omega arith, omega (arith, n_pos)))) in
      let last =
        Covers-bounds h.units 1 xs top (offset cur n - 1) seg
          ((t.bytes (offset cur n - 1)).1 (inr (omega (arith, n_pos), omega (arith, n_pos)))) in
      subst (IsFreeable k top left cur) (sym t.own) (record {
        apart = t.apart;
        alone = NotAlone-two left (offset cur n) (omega (arith, t.kept, three));
        least = omega (arith, first);
        pos = n_pos;
        room = omega (arith, last);
      })

  -- What `slob_free` makes of the rest covers what there was.
  abbrev Restored : Heap → Type 0
  Restored r =
      (lo : List ℕ) × (hi : List ℕ) × IsArena r top lo r.slobfree hi
      × SameCover h.units xs r.units (lo ++ r.slobfree ∷ hi)

  Freed-Restored : (r : Heap) → Freed k.units left top cur (freed_units cur 0 k) r → Restored r
  Freed-Restored r (lo, hi, wf, add) = (
    lo,
    hi,
    wf,
    λ q. (
      λ c. elim ((add q).0 c) [
        | inl old ↦ (t.bytes q).1 (inl old)
        | inr w ↦ (t.bytes q).1 (inr (subst (λ v. Within cur v q) t.own w))
      ],
      λ c. elim ((t.bytes q).0 c) [
        | inl old ↦ (add q).1 (inl old)
        | inr w ↦ (add q).1 (inr (subst (λ v. Within cur v q) (sym t.own) w))
      ],
    ),
  )

  taken_freed :
      (fuel : ℕ)
      → Seg h.units 1 xs top
      → 2 < length xs
      → length xs + length xs < fuel
      → (r : Heap) × (slob_free fuel cur 0 k ≡ some r) × Restored r
  taken_freed fuel seg three enough =
      let short : length t.hi + length left < fuel =
        omega (arith, t.most, enough, length-append t.lo (k.slobfree ∷ t.hi)) in
      let (r, ran, freed) =
        slob_free-Freed k top t.lo t.hi fuel cur 0 t.arena (taken-IsFreeable seg three) short in
      (r, ran, Freed-Restored r freed)

find_big-same :
    (h k : Heap) (fuel p last bb : ℕ)
    → OnlyList h k
    → find_big fuel p last bb k ≡ find_big fuel p last bb h
unfolding find_big
find_big-same h k zero p last bb same = refl
find_big-same h k (suc fuel) p last bb same =
    rw (find_big-same h k fuel p bb (k.big_next bb) same, same.pages, same.big_next) refl

kfree_small :
    (k : Heap) (fuel p : ℕ)
    → p ≢ 0
    → find_big fuel p 0 k.bigblocks k ≡ some none
    → kfree fuel p k ≡ slob_free fuel (p - slob_unit) 0 k
unfolding kfree
kfree_small k fuel p some_block small = elim (Bool-cases (p % page_size == 0)) [
  | inl aligned ↦ rw (==_ne p 0 some_block, aligned, small) refl
  | inr inside ↦ rw (==_ne p 0 some_block, inside) refl
]

kmalloc_small :
    (h k : Heap) (fuel size cur : ℕ)
    → size < page_size - slob_unit
    → cur ≢ 0
    → slob_alloc fuel (size + slob_unit) h ≡ some (cur, k)
    → kmalloc fuel size h ≡ some (offset cur 1, k)
unfolding kmalloc
kmalloc_small h k fuel size cur small found ran =
    rw (lt→ltb size (page_size - slob_unit) small, ran, ==_ne cur 0 found) refl

-- Let the free list be a ring as for `slob_free`, with three blocks or more, of which some has the
-- units for a size greater than 0, with 32 bytes more less than a page, and a header; let the
-- search of `kfree` through the big blocks end within the rounds given, and find none that begins
-- at a byte of a free block. Given more rounds than twice the number of blocks, `kmalloc` of the
-- size returns an address, `kfree` of this address then returns, and the list is such a ring again,
-- of exactly the bytes that it had before.
pub kfree-kmalloc :
    (h : Heap) (top : ℕ) (lo hi : List ℕ) (fuel size : ℕ)
    → IsArena h top lo h.slobfree hi
    → 2 < length (lo ++ h.slobfree ∷ hi)
    → 0 < size
    → size + 2 * slob_unit < page_size
    → Fits h.units (slob_units (size + slob_unit)) (lo ++ h.slobfree ∷ hi)
    → ((q : ℕ)
        → Covers h.units (lo ++ h.slobfree ∷ hi) q
        → find_big fuel q 0 h.bigblocks h ≡ some none)
    → length (lo ++ h.slobfree ∷ hi) + length (lo ++ h.slobfree ∷ hi) < fuel
    → (p : ℕ) × (k : Heap) × (r : Heap) × (kmalloc fuel size h ≡ some (p, k))
      × (kfree fuel p k ≡ some r)
      × (lo' : List ℕ) × (hi' : List ℕ) × IsArena r top lo' r.slobfree hi'
      × SameCover h.units (lo ++ h.slobfree ∷ hi) r.units (lo' ++ r.slobfree ∷ hi')
kfree-kmalloc h top lo hi fuel size wf three pos small fits no_big enough =
    let xs = lo ++ h.slobfree ∷ hi in
    let n = slob_units (size + slob_unit) in
    let walk : length (hi ++ lo) < fuel =
      omega (arith, enough, length-append hi lo, length-append lo (h.slobfree ∷ hi)) in
    let (cur, k, ran, t, same) =
      slob_alloc-Taken h top lo hi fuel (size + slob_unit) wf (omega (arith, three)) (omega arith)
        (omega (arith, small)) fits walk in
    let n_pos : 0 < n = omega arith in
    let first =
      Covers-bounds h.units 1 xs top cur wf.ordered
        ((t.bytes cur).1 (inr (omega arith, omega arith))) in
    let p = offset cur 1 in
    let inside : Covers h.units xs p = (t.bytes p).1 (inr (omega arith, omega (arith, pos))) in
    let plain : find_big fuel p 0 k.bigblocks k ≡ some none =
      find_big-same h k fuel p 0 k.bigblocks same
      ∙ (ap (λ b. find_big fuel p 0 b h) same.bigblocks ∙ no_big p inside) in
    let (r, freed, (lo', hi', wf', same')) =
      taken_freed h k top xs cur n n_pos t fuel wf.ordered three enough in
    let back : p - slob_unit ≡ cur = omega arith in
    (
      p,
      k,
      r,
      kmalloc_small h k fuel size cur (omega (arith, small)) (λ e. omega (arith, e, first)) ran,
      kfree_small k fuel p (λ e. omega (arith, e)) plain
          ∙ (ap (λ b. slob_free fuel b 0 k) back ∙ freed),
      lo',
      hi',
      wf',
      same',
    )
