-- ===== src/Strings/Memory.antt =====
-- `memmove`, `memcpy` and `memset` of lab8/libs/string.c, byte by byte.
use os.Base.{
  ℕ, zero, suc, ◌+◌, ◌-◌, ◌≤◌, ◌<◌, ◌≡◌, ◌&&◌, arith, ltb, leb, if◌then◌else◌, Bool-cases, inl, inr,
  ltb→lt,
}
use os.Strings.{put, memset, copy_up, copy_down, memmove, memcpy}

-- The bytes of `m`, those from `d` on replaced by the `n` bytes from `s` on.
abbrev pub moved : ℕ → ℕ → ℕ → (ℕ → ℕ) → ℕ → ℕ
moved d s n m q = if leb d q && ltb q (d + n) then m (s + (q - d)) else m q

copy_up-eq :
    (n d s : ℕ) (m : ℕ → ℕ) (q : ℕ) → (s < d → s + n ≤ d) → copy_up n d s m q ≡ moved d s n m q
unfolding copy_up
copy_up-eq zero d s m q apart = ground arith
copy_up-eq (suc n) d s m q apart =
    let next =
      copy_up-eq n (suc d) (suc s) (put d (m s) m) q (λ lt. omega (arith, apart (omega arith))) in
    let shift : d < q → suc s + (q - suc d) ≡ s + (q - d) = λ lt. omega arith in
    let start : q ≡ d → s + (q - d) ≡ s = λ e. omega arith in
    elim (Bool-cases (ltb d q)) [
      | inl lt ↦ ground (arith, next, shift (ltb→lt d q lt), apart)
      | inr ge ↦ ground (arith, next, start, apart)
    ]

copy_down-eq : (n d s : ℕ) (m : ℕ → ℕ) (q : ℕ) → s < d → copy_down n d s m q ≡ moved d s n m q
unfolding copy_down
copy_down-eq zero d s m q apart = ground arith
copy_down-eq (suc n) d s m q apart =
    let next = copy_down-eq n d s (put (d + n) (m (s + n)) m) q apart in
    let end : q ≡ d + n → s + (q - d) ≡ s + n = λ e. omega arith in ground (arith, next, end)

-- After `memmove` of n bytes, also between areas that overlap, each byte of the destination is what
-- the source held there before the call, and every other byte is as before.
pub memmove-eq-moved : (d s n : ℕ) (m : ℕ → ℕ) (q : ℕ) → memmove d s n m q ≡ moved d s n m q
unfolding memmove
memmove-eq-moved d s n m q = elim (Bool-cases (ltb s d && ltb d (s + n))) [
  | inl overlap ↦ rw overlap (copy_down-eq n d s m q (ground (arith, overlap)))
  | inr apart ↦ rw apart (copy_up-eq n d s m q (λ lt. ground (arith, apart)))
]

pub memcpy-eq-moved :
    (d s n : ℕ) (m : ℕ → ℕ) (q : ℕ) → (s < d → s + n ≤ d) → memcpy d s n m q ≡ moved d s n m q
unfolding memcpy
memcpy-eq-moved d s n m q apart = copy_up-eq n d s m q apart

-- `memset` sets the `n` bytes from `s` on to `c`, and no other.
pub memset-eq :
    (s c n : ℕ) (m : ℕ → ℕ) (q : ℕ)
    → memset s c n m q ≡ (if leb s q && ltb q (s + n) then c else m q)
unfolding memset
memset-eq s c zero m q = ground arith
memset-eq s c (suc n) m q = ground (arith, memset-eq (suc s) c n (put s c m) q)
