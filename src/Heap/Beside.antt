-- ===== src/Heap/Beside.antt =====
-- `slob_alloc` (lab8/kern/mm/kmalloc.c): what is taken meets no block that is left.
use os.Base.{ℕ, suc, ◌≤◌, ◌<◌, ◌≡◌, inl, inr, refl, List, [], ◌∷◌, ◌++◌, length, arith, ==_refl}
use os.Heap.{Heap, offset}
use os.Heap.Arena.{Seg, Seg-split, Seg-bounds}
use os.Heap.Freeing.{Apart, NotAlone}
use os.Heap.Taking.{rest, cut, outside, cut-Seg}

Apart-lower : (u : ℕ → ℕ) (a : ℕ) (xs : List ℕ) (m b n : ℕ) → Seg u a xs m → m ≤ b → Apart u xs b n
Apart-lower u a [] m b n seg le = tt
Apart-lower u a (x ∷ xs) m b n (ge, pos, seg) le = (
  inr (omega (arith, Seg-bounds u (offset x (u x)) xs m seg, le)),
  Apart-lower u (offset x (u x)) xs m b n seg le,
)

Apart-upper :
    (u : ℕ → ℕ) (a : ℕ) (xs : List ℕ) (m b n : ℕ) → Seg u a xs m → offset b n ≤ a → Apart u xs b n
Apart-upper u a [] m b n seg le = tt
Apart-upper u a (x ∷ xs) m b n (ge, pos, seg) le = (
  inl (omega (arith, ge, le)),
  Apart-upper u (offset x (u x)) xs m b n seg (omega (arith, ge, le)),
)

Apart-append :
    (u : ℕ → ℕ) (xs ys : List ℕ) (b n : ℕ)
    → Apart u xs b n
    → Apart u ys b n
    → Apart u (xs ++ ys) b n
Apart-append u [] ys b n left right = right
Apart-append u (x ∷ xs) ys b n (here, left) right = (here, Apart-append u xs ys b n left right)

pub dropped-Apart :
    (u : ℕ → ℕ) (top : ℕ) (pre : List ℕ) (cur : ℕ) (zs : List ℕ)
    → Seg u 1 (pre ++ cur ∷ zs) top
    → Apart u (pre ++ zs) cur (u cur)
dropped-Apart u top pre cur zs seg =
    let (m, left, (le, pos, right)) = Seg-split u 1 pre (cur ∷ zs) top seg in
    Apart-append u pre zs cur (u cur) (Apart-lower u 1 pre m cur (u cur) left le)
      (Apart-upper u (offset cur (u cur)) zs top cur (u cur) right (omega arith))

pub length-dropped :
    (pre : List ℕ) (x : ℕ) (zs : List ℕ) → length (pre ++ x ∷ zs) ≤ suc (length (pre ++ zs))
length-dropped [] x zs = omega arith
length-dropped (y ∷ pre) x zs = omega (arith, length-dropped pre x zs)

pub length-replaced :
    (pre : List ℕ) (x y : ℕ) (zs : List ℕ) → length (pre ++ x ∷ zs) ≤ suc (length (pre ++ y ∷ zs))
length-replaced [] x y zs = omega arith
length-replaced (z ∷ pre) x y zs = omega (arith, length-replaced pre x y zs)

pub length-fewer :
    (pre : List ℕ) (x : ℕ) (zs : List ℕ) → length (pre ++ zs) ≤ length (pre ++ x ∷ zs)
length-fewer [] x zs = omega arith
length-fewer (y ∷ pre) x zs = omega (arith, length-fewer pre x zs)

pub length-alike :
    (pre : List ℕ) (x y : ℕ) (zs : List ℕ) → length (pre ++ y ∷ zs) ≤ length (pre ++ x ∷ zs)
length-alike [] x y zs = omega arith
length-alike (z ∷ pre) x y zs = omega (arith, length-alike pre x y zs)

pub NotAlone-two : (xs : List ℕ) (e : ℕ) → 1 < length xs → NotAlone xs e
NotAlone-two [] e two = tt
NotAlone-two (x ∷ []) e two = absurd (omega (arith, two))
NotAlone-two (x ∷ y ∷ xs) e two = tt

module _ (h : Heap) (top n cur : ℕ) (n_pos : 0 < n) (more : n < h.units cur) where
  pub cut_own : cut h top n cur n_pos cur ≡ n
  cut_own = rw (==_refl cur) refl

  pub cut-Apart :
      (pre zs : List ℕ)
      → Seg h.units 1 (pre ++ cur ∷ zs) top
      → Apart (cut h top n cur n_pos) (pre ++ rest h top n cur n_pos ∷ zs) cur n
  cut-Apart pre zs seg =
      let (out, out', after, after') = outside h top n cur n_pos more pre zs seg in
      let (m, left, (le, pos, right)) = Seg-split h.units 1 pre (cur ∷ zs) top seg in
      let c = cut h top n cur n_pos in
      Apart-append c pre (rest h top n cur n_pos ∷ zs) cur n
        (Apart-lower c 1 pre m cur n (cut-Seg h top n cur n_pos more 1 pre m out out' left) le)
        (
          inl (omega arith),
          Apart-upper c (offset cur (h.units cur)) zs top cur n
              (cut-Seg h top n cur n_pos more (offset cur (h.units cur)) zs top after after' right)
              (omega (arith, more)),
        )
