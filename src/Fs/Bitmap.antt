-- ===== src/Fs/Bitmap.antt =====
-- lab8/kern/fs/sfs/bitmap.c: the map of free blocks. A word is its 32 bits, and a bit that is set
-- stands for a free block.
pub mod Alloc
pub mod Create
use os.Base.{
  ℕ, zero, suc, ◌+◌, ◌-◌, ◌*◌, ◌/◌, ◌%◌, ◌^◌, Bool, true, false, not, ◌&&◌, ◌||◌, Option, none,
  some, ◌==◌, ltb, if◌then◌else◌, ◌>>=◌, ◌>>◌, check,
}

pub record Bitmap : Type 0 where
  pub nbits : ℕ
  pub nwords : ℕ
  pub map : ℕ → ℕ → Bool

-- `map[ix] ^= 1 << offset`.
abbrev pub toggle : ℕ → ℕ → (ℕ → ℕ → Bool) → ℕ → ℕ → Bool
toggle ix offset m i o = if i == ix && (o == offset) then not (m i o) else m i o

-- The loop over the leftover bits: `n` of them from `offset` on.
unfoldable pub toggle_from : ℕ → ℕ → ℕ → (ℕ → ℕ → Bool) → ℕ → ℕ → Bool
toggle_from zero ix offset m = m
toggle_from (suc n) ix offset m = toggle_from n ix (suc offset) (toggle ix offset m)

-- `fits` says whether both calls of `kmalloc` succeed; without memory the result is NULL.
unfoldable pub bitmap_create : Bool → ℕ → Option (Option Bitmap)
bitmap_create fits nbits = do
  check (not (nbits == 0) && ltb nbits ((nbits + 32) % 2 ^ 32))
  let nwords = (nbits + 31) / 32
  let ix = nwords - 1
  let overbits = nbits - ix * 32
  let full : Bitmap = record { nbits = nbits; nwords = nwords; map = λ i o. true }
  let cut =
      check (nbits / 32 == ix)
      >> check (ltb 0 overbits && ltb overbits 32)
      >> some (some (record full { map = toggle_from (32 - overbits) ix overbits full.map }))
  if not fits then some none else if not (nbits == nwords * 32) then cut else some (some full)

-- `map[ix] != 0`: one of the lowest `n` bits is set.
unfoldable pub nonzero : ℕ → (ℕ → Bool) → Bool
nonzero zero w = false
nonzero (suc n) w = w n || nonzero n w

-- The inner loop: the first set bit among the `n` from `offset` on.
unfoldable pub first_bit : ℕ → ℕ → (ℕ → Bool) → Option ℕ
first_bit zero offset w = none
first_bit (suc n) offset w =
    let further = first_bit n (suc offset) w in if w offset then some offset else further

-- The bit that was found is cleared; it is an error that a word other than 0 has none.
unfoldable pub take_bit : ℕ → Option ℕ → Bitmap → Option (Option ℕ × Bitmap)
take_bit ix none b = none
take_bit ix (some offset) b =
    some (some (ix * 32 + offset), record b { map = toggle ix offset b.map })

-- The outer loop over the `n` words from `ix` on. In the result, `none` is -E_NO_MEM.
unfoldable pub alloc_from : ℕ → ℕ → Bitmap → Option (Option ℕ × Bitmap)
alloc_from zero ix b = some (none, b)
alloc_from (suc n) ix b =
    let further = alloc_from n (suc ix) b in
    if nonzero 32 (b.map ix) then take_bit ix (first_bit 32 0 (b.map ix)) b else further

unfoldable pub bitmap_alloc : Bitmap → Option (Option ℕ × Bitmap)
bitmap_alloc b = alloc_from b.nwords 0 b

-- The word and the offset of an index.
unfoldable pub bitmap_translate : Bitmap → ℕ → Option (ℕ × ℕ)
bitmap_translate b index = check (ltb index b.nbits) >> some (index / 32, index % 32)

unfoldable pub bitmap_test : Bitmap → ℕ → Option Bool
bitmap_test b index = bitmap_translate b index >>= λ at. some (b.map at.0 at.1)

unfoldable pub bitmap_free : Bitmap → ℕ → Option Bitmap
bitmap_free b index = bitmap_translate b index >>= λ at.
    check (not (b.map at.0 at.1))
    >> some (record b { map = λ i o. if i == at.0 && (o == at.1) then true else b.map i o })

-- The length of the data, in bytes.
unfoldable pub bitmap_getdata : Bitmap → ℕ × (ℕ → ℕ → Bool)
bitmap_getdata b = (4 * b.nwords, b.map)
