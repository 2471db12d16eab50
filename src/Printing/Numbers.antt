-- ===== src/Printing/Numbers.antt =====
-- What `printnum` of lab8/libs/printfmt.c prints: pad characters, then the numeral.
use os.Base.{
  ℕ, zero, suc, ◌-◌, ◌*◌, ◌/◌, ◌%◌, ◌^◌, ◌≤◌, ◌<◌, ◌≡◌, refl, ap, ◌∙◌, List, [], ◌∷◌, ◌++◌,
  append_assoc, length, length-append, replicate, arith, some, leb, Bool-cases, false, inl, inr,
  if◌then◌else◌,
}
use native.Mathlib.Nat.{div-lt_iff_lt-mul}
use os.Printing.{digit_char, pad, printnum}

-- The numeral of a number, its most significant digit first.
unfoldable pub numeral : ℕ → ℕ → ℕ → List ℕ
numeral zero num base = []
numeral (suc fuel) num base =
    let before = numeral fuel (num / base) base in
    (if leb base num then before else []) ++ digit_char (num % base) ∷ []

pad-eq-replicate : (width padc : ℕ) → pad (suc width) padc ≡ replicate width padc
unfolding pad
pad-eq-replicate zero padc = refl
pad-eq-replicate (suc n) padc = ground (arith, pad-eq-replicate n padc)

pad-eq : (width padc : ℕ) → pad width padc ≡ replicate (width - 1) padc
unfolding pad
pad-eq zero padc = refl
pad-eq (suc n) padc = pad-eq-replicate n padc ∙ ap (λ k. replicate k padc) (omega arith)

aligned :
    (width padc : ℕ) (ds : List ℕ) (c : ℕ)
    → some ((replicate (width - 1 - length ds) padc ++ ds) ++ c ∷ [])
      ≡ some (replicate (width - length (ds ++ c ∷ [])) padc ++ (ds ++ c ∷ []))
aligned width padc ds c =
    rw (append_assoc (replicate (width - 1 - length ds) padc) ds (c ∷ [])) (
      ap (λ k. some (replicate k padc ++ (ds ++ c ∷ [])))
        (omega (arith, length-append ds (c ∷ []))))

pub twice : (n : ℕ) → 2 ^ suc n ≡ 2 * 2 ^ n
twice n = omega arith

pub fewer : (num base k : ℕ) → 2 ≤ base → num < 2 * k → num / base < k
fewer num base k two lt =
    (div-lt_iff_lt-mul {k = base} {x = num} {y = k} (omega arith)).1 (grind arith)

-- Where the fuel is as large as the number of bits, `printnum` prints.
pub printnum-eq :
    (fuel num base width padc : ℕ)
    → 2 ≤ base
    → num < 2 ^ suc fuel
    → printnum (suc fuel) num base width padc
      ≡ some (
          replicate (width - length (numeral (suc fuel) num base)) padc
          ++ numeral (suc fuel) num base)
unfolding printnum numeral
printnum-eq zero num base width padc two lt =
    let small : leb base num ≡ false = ground arith in rw (numeral, small, pad-eq width padc) refl
printnum-eq (suc fuel) num base width padc two lt = elim (Bool-cases (leb base num)) [
  | inr small ↦ rw (numeral, small, pad-eq width padc) refl
  | inl large ↦
      let less = fewer num base (2 ^ suc fuel) two (omega (arith, lt, twice (suc fuel))) in
      rw (large, printnum-eq fuel (num / base) base (width - 1) padc two less)
        (aligned width padc (numeral (suc fuel) (num / base) base) (digit_char (num % base)))
]
