-- ===== src/Heap/Bytes.antt =====
-- `slob_free` (lab8/kern/mm/kmalloc.c): the free list afterwards, and its bytes.
use os.Base.{
  ℕ, ◌+◌, ◌≤◌, ◌<◌, ◌≡◌, inl, inr, refl, sym, ap, List, ◌∷◌, ◌++◌, length, arith, some, false,
  Bool-cases, not, ◌==◌, ==_ne, ==_refl, if◌then◌else◌, ◌>>=◌,
}
use mathlib.Core.Path.{subst}
use os.Links.{store}
use os.Links.Chain.{NotIn}
use os.Heap.{Heap, offset, join_next, join_prev, slob_free, slob_units, find_place}
use os.Heap.Arena.{Seg-store, IsArena}
use os.Heap.Walk.{find_place-IsPlace}
use os.Heap.Free.{Covers-eq}
use os.Heap.Insert.{Freed}
use os.Heap.Freeing.{Apart, Apart-NotIn, Apart-store, NotAlone, joined, joined-Freed}

-- The units that `slob_free` gives back: `size` counts, and where it is 0 the field of the block.
abbrev pub freed_units : ℕ → ℕ → Heap → ℕ
freed_units b size h = if not (size == 0) then slob_units size else h.units b

abbrev sized : ℕ → ℕ → Heap → Heap
sized b size h =
    if not (size == 0) then record h { units = store h.units b (slob_units size) } else h

-- Where a block of `n` units at `b` may go back: beside the free blocks `xs`, below `top`, and not
-- right below the only one of them.
pub record IsFreeable (h : Heap) (top : ℕ) (xs : List ℕ) (b n : ℕ) : Type 0 where
  pub apart : Apart h.units xs b n
  pub alone : NotAlone xs (offset b n)
  pub least : 0 < b
  pub pos : 0 < n
  pub room : offset b n ≤ top

module _ (h : Heap) (top : ℕ) (lo hi : List ℕ) where
  abbrev Run : ℕ → ℕ → ℕ → Type 0
  Run fuel b n =
      (k : Heap) × ((find_place fuel b h.slobfree h >>= λ cur.
      some (join_prev b cur (join_next b cur h)))
        ≡ some k)
      × Freed h.units (lo ++ h.slobfree ∷ hi) top b n k

  placed-Freed :
      (fuel b : ℕ)
      → IsArena h top lo h.slobfree hi
      → IsFreeable h top (lo ++ h.slobfree ∷ hi) b (h.units b)
      → length hi + length (lo ++ h.slobfree ∷ hi) < fuel
      → Run fuel b (h.units b)
  placed-Freed fuel b wf ok enough =
      let xs = lo ++ h.slobfree ∷ hi in
      let out = Apart-NotIn h.units 1 xs top b (h.units b) wf.ordered ok.apart ok.pos in
      let (cur, ran, place) =
        find_place-IsPlace h top b hi fuel lo h.slobfree wf.ordered wf.ring out enough in
      (
        joined h top b ok.least ok.pos ok.room cur,
        ap (λ o. o >>= λ c. some (join_prev b c (join_next b c h))) ran,
        joined-Freed h top b ok.least ok.pos ok.room xs cur wf.ordered ok.apart ok.alone place,
      )

Freed-resized :
    (u : ℕ → ℕ) (p v : ℕ) (xs : List ℕ) (top b n : ℕ) (k : Heap)
    → NotIn p xs
    → Freed (store u p v) xs top b n k
    → Freed u xs top b n k
Freed-resized u p v xs top b n k out (lo, hi, wf, add) = (
  lo,
  hi,
  wf,
  λ q. (
    λ c. elim ((add q).0 c) [ inl old ↦ inl ((Covers-eq u p v xs out q).0 old) | inr w ↦ inr w ],
    λ c. elim c [
      | inl old ↦ (add q).1 (inl ((Covers-eq u p v xs out q).1 old))
      | inr w ↦ (add q).1 (inr w)
    ],
  ),
)

sized-Freed :
    (h : Heap) (top : ℕ) (lo hi : List ℕ) (fuel b v : ℕ)
    → IsArena h top lo h.slobfree hi
    → IsFreeable h top (lo ++ h.slobfree ∷ hi) b v
    → length hi + length (lo ++ h.slobfree ∷ hi) < fuel
    → (k : Heap) × ((find_place fuel b h.slobfree (record h { units = store h.units b v })
          >>= λ cur.
              some (join_prev b cur (join_next b cur (record h { units = store h.units b v }))))
        ≡ some k)
      × Freed h.units (lo ++ h.slobfree ∷ hi) top b v k
sized-Freed h top lo hi fuel b v wf ok enough =
    let xs = lo ++ h.slobfree ∷ hi in
    let out = Apart-NotIn h.units 1 xs top b v wf.ordered ok.apart ok.pos in
    let own : v ≡ store h.units b v b = rw (==_refl b) refl in
    let (k, ran, freed) =
      placed-Freed (record h { units = store h.units b v }) top lo hi fuel b
        (record { ordered = Seg-store h.units b v 1 xs top out wf.ordered; ring = wf.ring })
        (subst (IsFreeable (record h { units = store h.units b v }) top xs b) own (record {
          apart = Apart-store h.units b v xs b v out ok.apart;
          alone = ok.alone;
          least = ok.least;
          pos = ok.pos;
          room = ok.room;
        }))
        enough in
    (
      k,
      ran,
      Freed-resized h.units b v xs top b v k out
          (subst (λ n. Freed (store h.units b v) xs top b n k) (sym own) freed),
    )

-- Let the free list be a ring of blocks of at least one unit in the order of their addresses, none
-- reaching into the next, below some address, and start anywhere. Let the units that `slob_free` is
-- to give back, by its size or else by the field of the block, be at least one, begin at an address
-- other than NULL, end below that address too, meet no free block, and not end where the only free
-- block begins. Given more rounds than there are blocks, and blocks above the start once more, it
-- returns; the list is such a ring again, and its bytes are those it had and those given back.
pub slob_free-Freed :
    (h : Heap) (top : ℕ) (lo hi : List ℕ) (fuel b size : ℕ)
    → IsArena h top lo h.slobfree hi
    → IsFreeable h top (lo ++ h.slobfree ∷ hi) b (freed_units b size h)
    → length hi + length (lo ++ h.slobfree ∷ hi) < fuel
    → (k : Heap) × (slob_free fuel b size h ≡ some k)
      × Freed h.units (lo ++ h.slobfree ∷ hi) top b (freed_units b size h) k
unfolding slob_free
slob_free-Freed h top lo hi fuel b size wf ok enough =
    let some_block : (b == 0) ≡ false = ==_ne b 0 (λ e. omega (arith, e, ok.least)) in
    elim (Bool-cases (size == 0)) [
      | inl whole ↦
          let n : freed_units b size h ≡ h.units b = rw (whole) refl in
          let (k, ran, freed) =
            placed-Freed h top lo hi fuel b wf
              (subst (IsFreeable h top (lo ++ h.slobfree ∷ hi) b) n ok) enough in
          (
            k,
            rw (some_block, whole) ran,
            subst (λ v. Freed h.units (lo ++ h.slobfree ∷ hi) top b v k) (sym n) freed,
          )
      | inr part ↦
          let n : freed_units b size h ≡ slob_units size = rw (part) refl in
          let (k, ran, freed) =
            sized-Freed h top lo hi fuel b (slob_units size) wf
              (subst (IsFreeable h top (lo ++ h.slobfree ∷ hi) b) n ok) enough in
          (
            k,
            rw (some_block, part) ran,
            subst (λ v. Freed h.units (lo ++ h.slobfree ∷ hi) top b v k) (sym n) freed,
          )
    ]
