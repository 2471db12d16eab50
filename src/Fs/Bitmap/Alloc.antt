-- ===== src/Fs/Bitmap/Alloc.antt =====
-- `bitmap_alloc` and `bitmap_free` on the set of free indices.
use os.Base.{
  ℕ, zero, suc, ◌+◌, ◌*◌, ◌/◌, ◌%◌, ◌≤◌, ◌<◌, ◌≡◌, refl, ap, ◌∙◌, ◌≢◌, Bool, true, false, not, ◌&&◌,
  ◌||◌, Option, none, some, arith, ◌==◌, ltb, lt→ltb, if◌then◌else◌, Bool-cases, ==_refl, inl, inr,
}
use mathlib.Core.Path.{subst, ap₂}
use os.Fs.Bitmap.{
  Bitmap, toggle, nonzero, first_bit, take_bit, alloc_from, bitmap_alloc, bitmap_translate,
  bitmap_test, bitmap_free,
}

-- Whether the block of an index is free.
abbrev pub bit : Bitmap → ℕ → Bool
bit b i = b.map (i / 32) (i % 32)

-- The words hold the bits; those behind the last one are not free.
pub record IsBitmap (b : Bitmap) : Type 0 where
  pub sized : b.nwords ≡ (b.nbits + 31) / 32
  pub leftover : (i : ℕ) → b.nbits ≤ i → i < b.nwords * 32 → bit b i ≡ false

pub data Allocates (b : Bitmap) : Option (Option ℕ × Bitmap) → Type 0 where
  full :
      {r : Option (Option ℕ × Bitmap)}
      → ((i : ℕ) → i < b.nbits → bit b i ≡ false)
      → r ≡ some (none, b)
      → Allocates b r
  takes :
      {r : Option (Option ℕ × Bitmap)} (i : ℕ) (t : Bitmap)
      → r ≡ some (some i, t)
      → i < b.nbits
      → bit b i ≡ true
      → ((j : ℕ) → j < i → bit b j ≡ false)
      → bit t i ≡ false
      → ((j : ℕ) → j ≢ i → bit t j ≡ bit b j)
      → IsBitmap t
      → Allocates b r

nonzero-false : (n : ℕ) (w : ℕ → Bool) → nonzero n w ≡ false → (o : ℕ) → o < n → w o ≡ false
unfolding nonzero
nonzero-false zero w e o lt = absurd (omega arith)
nonzero-false (suc n) w e o lt = elim (Bool-cases (o == n)) [
  | inl here ↦ subst (λ k. w k ≡ false) (ground (arith, here)) (left (w n) (nonzero n w) e)
  | inr other ↦ nonzero-false n w (right (w n) (nonzero n w) e) o (ground (arith, other, lt))
]
  where
    left : (a c : Bool) → (a || c) ≡ false → a ≡ false
    left true c e = cc
    left false c e = refl

    right : (a c : Bool) → (a || c) ≡ false → c ≡ false
    right true c e = cc
    right false c e = e

all_clear : (n : ℕ) (w : ℕ → Bool) → ((o : ℕ) → o < n → w o ≡ false) → nonzero n w ≡ false
unfolding nonzero
all_clear zero w e = refl
all_clear (suc n) w e = rw (e n (omega arith)) (all_clear n w (λ o lt. e o (omega arith)))

abbrev Finds : ℕ → ℕ → (ℕ → Bool) → Option ℕ → Type 0
Finds n lo w none = (o : ℕ) → lo ≤ o → o < lo + n → w o ≡ false
Finds n lo w (some i) =
    (lo ≤ i) × (i < lo + n) × (w i ≡ true) × ((o : ℕ) → lo ≤ o → o < i → w o ≡ false)

first_bit-Finds : (n lo : ℕ) (w : ℕ → Bool) → Finds n lo w (first_bit n lo w)
unfolding first_bit
first_bit-Finds zero lo w = λ o a c. absurd (omega arith)
first_bit-Finds (suc n) lo w = elim (Bool-cases (w lo)) [
  | inl set ↦ rw (first_bit, set) (omega arith, omega arith, set, λ o a c. absurd (omega arith))
  | inr clear ↦
      rw (first_bit, clear) (later (first_bit n (suc lo) w) clear (first_bit-Finds n (suc lo) w))
]
  where
    more :
        (hi : ℕ)
        → w lo ≡ false
        → ((o : ℕ) → suc lo ≤ o → o < hi → w o ≡ false)
        → (o : ℕ) → lo ≤ o
        → o < hi
        → w o ≡ false
    more hi clear rest o a c = elim (Bool-cases (o == lo)) [
      | inl here ↦ subst (λ k. w k ≡ false) (ground (arith, here)) clear
      | inr other ↦ rest o (ground (arith, other)) c
    ]

    later : (r : Option ℕ) → w lo ≡ false → Finds n (suc lo) w r → Finds (suc n) lo w r
    later none clear q = λ o a c. more (suc lo + n) clear q o a (omega arith)
    later (some i) clear q = (omega (arith, q.0), omega (arith, q.1), q.2, more i clear q.3)

module _ {b : Bitmap} (h : IsBitmap b) where
  within : (i : ℕ) → i < b.nwords * 32 → bit b i ≡ true → i < b.nbits
  within i lt set = elim (Bool-cases (ltb i b.nbits)) [
    | inl low ↦ ground (arith, low)
    | inr high ↦ absurd (let clear = h.leftover i (ground (arith, high)) lt in cc)
  ]

  -- What is clear below a word, and below an offset in it, is clear below the index of that offset.
  in_word :
      (ix o : ℕ)
      → o ≤ 32
      → ((j : ℕ) → j < ix * 32 → bit b j ≡ false)
      → ((p : ℕ) → p < o → b.map ix p ≡ false)
      → (j : ℕ) → j < ix * 32 + o
      → bit b j ≡ false
  in_word ix o small below inner j low = elim (Bool-cases (ltb j (ix * 32))) [
    | inl lower ↦ below j (ground (arith, lower))
    | inr upper ↦
        let above : ix * 32 ≤ j = ground (arith, upper) in
        let word : j / 32 ≡ ix = omega arith in
        let offset : j % 32 < o = omega arith in
        ap (λ i. b.map i (j % 32)) word ∙ inner (j % 32) offset
  ]

  -- The bit of an index is one of the word that it lies in.
  module _ (ix o : ℕ) (small : o < 32) where
    at_index : bit b (ix * 32 + o) ≡ b.map ix o
    at_index =
        let word : (ix * 32 + o) / 32 ≡ ix = omega arith in
        let offset : (ix * 32 + o) % 32 ≡ o = omega arith in ap₂ b.map word offset

    cleared : bit (record b { map = toggle ix o b.map }) (ix * 32 + o) ≡ not (b.map ix o)
    cleared =
        let word : (ix * 32 + o) / 32 ≡ ix = omega arith in
        let offset : (ix * 32 + o) % 32 ≡ o = omega arith in
        rw (word, offset, ==_refl ix, ==_refl o) refl

    unchanged : (j : ℕ) → j ≢ ix * 32 + o → bit (record b { map = toggle ix o b.map }) j ≡ bit b j
    unchanged j ne = ground (arith, ne)

  take_bit-Allocates :
      (ix : ℕ) (r : Option ℕ)
      → ix < b.nwords
      → ((j : ℕ) → j < ix * 32 → bit b j ≡ false)
      → Finds 32 0 (b.map ix) r
      → nonzero 32 (b.map ix) ≡ true
      → Allocates b (take_bit ix r b)
  unfolding take_bit
  take_bit-Allocates ix none lt below q some_bit =
      let none_set = all_clear 32 (b.map ix) (λ o small. q o (omega arith) small) in absurd (cc)
  take_bit-Allocates ix (some o) lt below q some_bit =
      let set : bit b (ix * 32 + o) ≡ true = at_index ix o q.1 ∙ q.2 in
      let inside = within (ix * 32 + o) (omega (arith, q.1)) set in
      let same = unchanged ix o q.1 in
      takes (ix * 32 + o) (record b { map = toggle ix o b.map }) refl inside set
        (λ j low. in_word ix o (omega arith) below (λ o' a. q.3 o' (omega arith) a) j low)
        (cleared ix o q.1 ∙ ap not q.2) same
        (record {
          sized = h.sized;
          leftover = λ j lo hi. same j (omega arith) ∙ h.leftover j lo hi;
        })

  alloc_from-Allocates :
      (n ix : ℕ)
      → n + ix ≡ b.nwords
      → ((j : ℕ) → j < ix * 32 → bit b j ≡ false)
      → Allocates b (alloc_from n ix b)
  unfolding alloc_from
  alloc_from-Allocates zero ix e below = full (λ i lt. below i (omega (arith, h.sized, e))) refl
  alloc_from-Allocates (suc n) ix e below = elim (Bool-cases (nonzero 32 (b.map ix))) [
    | inl set ↦
        rw (alloc_from, set)
          (take_bit-Allocates ix (first_bit 32 0 (b.map ix)) (omega arith) below
            (first_bit-Finds 32 0 (b.map ix)) set)
    | inr clear ↦
        rw (alloc_from, clear)
          (alloc_from-Allocates n (suc ix) (omega arith) (λ j low.
            in_word ix 32 (omega arith) below (nonzero-false 32 (b.map ix) clear) j (omega arith)))
  ]

-- On a well-formed map `bitmap_alloc` returns. Either no block is free and the result is -E_NO_MEM
-- with the map as it was; or the result is the lowest free index, which is then in use, while no
-- other bit changes; the map is well-formed again.
pub bitmap_alloc-Allocates : (b : Bitmap) → IsBitmap b → Allocates b (bitmap_alloc b)
unfolding bitmap_alloc
bitmap_alloc-Allocates b h =
    alloc_from-Allocates h b.nwords 0 (omega arith) (λ j lt. absurd (omega arith))

-- On a well-formed map `bitmap_free` of an index of the map that is in use returns; `bitmap_test`
-- then finds it free, no other bit changes, and the map is well-formed again.
pub bitmap_free-IsBitmap :
    {b : Bitmap} (i : ℕ)
    → IsBitmap b
    → i < b.nbits
    → bit b i ≡ false
    → (t : Bitmap) × (bitmap_free b i ≡ some t)
      × (bitmap_test t i ≡ some true)
      × ((j : ℕ) → j ≢ i → bit t j ≡ bit b j)
      × IsBitmap t
unfolding bitmap_free bitmap_test bitmap_translate
bitmap_free-IsBitmap {b} i h lt used =
    let t : Bitmap = record b {
      map = λ j o. if j == i / 32 && (o == i % 32) then true else b.map j o;
    } in
    let same : (j : ℕ) → j ≢ i → bit t j ≡ bit b j = λ j ne. ground (arith, ne) in
    (
      t,
      rw (lt→ltb i b.nbits lt, used) refl,
      rw (lt→ltb i b.nbits lt, ==_refl (i / 32), ==_refl (i % 32)) refl,
      same,
      record { sized = h.sized; leftover = λ j lo hi. same j (omega arith) ∙ h.leftover j lo hi },
    )
