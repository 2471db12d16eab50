-- ===== src/Fs/Bitmap/Create.antt =====
-- `bitmap_create`: all blocks are free, and the leftover bits of the last word are not.
use os.Base.{
  ℕ, zero, suc, ◌+◌, ◌-◌, ◌*◌, ◌/◌, ◌%◌, ◌^◌, ◌≤◌, ◌<◌, ◌≡◌, refl, ◌∙◌, Bool, true, false, not,
  ◌&&◌, some, arith, ◌==◌, ltb, leb, lt→ltb, if◌then◌else◌, Bool-cases, inl, inr, ==_ne,
}
use os.Fs.Bitmap.{Bitmap, toggle, toggle_from, bitmap_create}
use os.Fs.Bitmap.Alloc.{IsBitmap, bit}

toggle_from-eq :
    (n ix offset : ℕ) (m : ℕ → ℕ → Bool) (i o : ℕ)
    → toggle_from n ix offset m i o
      ≡ (if i == ix && (leb offset o && ltb o (offset + n)) then not (m i o) else m i o)
unfolding toggle_from
toggle_from-eq zero ix offset m i o = ground arith
toggle_from-eq (suc n) ix offset m i o =
    ground (arith, toggle_from-eq n ix (suc offset) (toggle ix offset m) i o)

module _ (nbits : ℕ) (pos : 0 < nbits) (few : nbits + 32 < 2 ^ 32) where
  abbrev created : (ℕ → ℕ → Bool) → Bitmap
  created m = record { nbits = nbits; nwords = (nbits + 31) / 32; map = m }

  abbrev left_over : ℕ → ℕ → Bool
  left_over =
      let ix = (nbits + 31) / 32 - 1 in
      toggle_from (32 - (nbits - ix * 32)) ix (nbits - ix * 32) (λ i o. true)

  fits : ltb nbits ((nbits + 32) % 2 ^ 32) ≡ true
  fits = lt→ltb nbits ((nbits + 32) % 2 ^ 32) (omega arith)

  last_word :
      (nbits == (nbits + 31) / 32 * 32) ≡ false → (nbits / 32 == (nbits + 31) / 32 - 1) ≡ true
  last_word part = ground (arith, part)

  some_over :
      (nbits == (nbits + 31) / 32 * 32) ≡ false
      → (ltb 0 (nbits - ((nbits + 31) / 32 - 1) * 32)
          && ltb (nbits - ((nbits + 31) / 32 - 1) * 32) 32)
        ≡ true
  some_over part = ground (arith, part)

  over_clear :
      (i : ℕ) → nbits ≤ i → i < (nbits + 31) / 32 * 32 → left_over (i / 32) (i % 32) ≡ false
  over_clear i lo hi =
      let ix = (nbits + 31) / 32 - 1 in
      let word : i / 32 ≡ ix = omega arith in
      let above : nbits - ix * 32 ≤ i % 32 = omega arith in
      toggle_from-eq (32 - (nbits - ix * 32)) ix (nbits - ix * 32) (λ i o. true) (i / 32) (i % 32)
      ∙ ground (arith, word, above)

  bits_set : (i : ℕ) → i < nbits → left_over (i / 32) (i % 32) ≡ true
  bits_set i lt =
      let ix = (nbits + 31) / 32 - 1 in
      let below : i / 32 ≡ ix → i % 32 < nbits - ix * 32 = λ e. omega arith in
      toggle_from-eq (32 - (nbits - ix * 32)) ix (nbits - ix * 32) (λ i o. true) (i / 32) (i % 32)
      ∙ ground (arith, below)

  -- With memory, `bitmap_create` of more than 0 bits, with 32 more still below 2^32, returns a
  -- well-formed map of that many bits, all of them free.
  pub bitmap_create-IsBitmap :
      (b : Bitmap) × (bitmap_create true nbits ≡ some (some b))
      × (b.nbits ≡ nbits)
      × IsBitmap b
      × ((i : ℕ) → i < nbits → bit b i ≡ true)
  unfolding bitmap_create
  bitmap_create-IsBitmap = elim (Bool-cases (nbits == (nbits + 31) / 32 * 32)) [
    | inl whole ↦ (
      created (λ i o. true),
      rw (==_ne nbits 0 (omega arith), fits, whole) refl,
      refl,
      record { sized = refl; leftover = λ i lo hi. absurd (ground (arith, whole)) },
      λ i lt. refl,
    )
    | inr part ↦ (
      created left_over,
      rw (==_ne nbits 0 (omega arith), fits, part, last_word part, some_over part) refl,
      refl,
      record { sized = refl; leftover = over_clear },
      bits_set,
    )
  ]
