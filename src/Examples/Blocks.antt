-- ===== src/Examples/Blocks.antt =====
-- lab8/kern/fs/sfs/bitmap.c: a map of 40 blocks, of which the first two are in use.
use os.Base.{ℕ, ◌≡◌, ◌≢◌, refl, true, not, ◌&&◌, some, arith, ltb, ◌==◌, ◌<◌}
use os.Fs.Bitmap.{Bitmap, bitmap_create, bitmap_alloc, bitmap_free, bitmap_test}
use os.Fs.Bitmap.Alloc.{IsBitmap, bit, Allocates, bitmap_alloc-Allocates, bitmap_free-IsBitmap}
use os.Fs.Bitmap.Create.{bitmap_create-IsBitmap}

abbrev blocks : Bitmap
blocks = record {
  nbits = 40;
  nwords = 2;
  map = λ i o. not (i == 0 && ltb o 2) && not (i == 1 && not (ltb o 8));
}

blocks-IsBitmap : IsBitmap blocks
blocks-IsBitmap = record { sized = refl; leftover = λ i lo hi. ground arith }

bitmap_create-IsBitmap_example :
    (b : Bitmap) × (bitmap_create true 40 ≡ some (some b))
    × (b.nbits ≡ 40)
    × IsBitmap b
    × ((i : ℕ) → i < 40 → bit b i ≡ true)
bitmap_create-IsBitmap_example = bitmap_create-IsBitmap 40 (omega arith) (omega arith)

bitmap_alloc-Allocates_example : Allocates blocks (bitmap_alloc blocks)
bitmap_alloc-Allocates_example = bitmap_alloc-Allocates blocks blocks-IsBitmap

bitmap_free-IsBitmap_example :
    (t : Bitmap) × (bitmap_free blocks 1 ≡ some t)
    × (bitmap_test t 1 ≡ some true)
    × ((j : ℕ) → j ≢ 1 → bit t j ≡ bit blocks j)
    × IsBitmap t
bitmap_free-IsBitmap_example = bitmap_free-IsBitmap 1 blocks-IsBitmap (omega arith) refl
