-- ===== src/Printing/Digits.antt =====
-- The characters that `printnum` of lab8/libs/printfmt.c takes for digits, as `strtol` of
-- lab8/libs/string.c reads them.
use os.Base.{
  ℕ, zero, suc, ◌+◌, ◌/◌, ◌%◌, ◌≤◌, ◌<◌, ◌≡◌, refl, List, [], ◌∷◌, ◌++◌, length, length-append,
  arith, some, Bool, true, false, ◌&&◌, ltb, leb, if◌then◌else◌, ◌==◌, ==_iff, Bool-cases, ltb→lt,
  sym, ap, ◌∙◌, ◌≢◌, inl, inr,
}
use mathlib.Core.Path.{subst}
use native.Mathlib.Nat.{mod-lt}
use os.Strings.Number.{digit}
use os.Strings.Number.Reading.{Holds, Holds-append}
use os.Printing.{digit_char}
use os.Printing.Numbers.{numeral}

abbrev code : ℕ → ℕ
code d = if ltb d 10 then 48 + d else 87 + d

-- Whether the table gives these codes for the first `count` digits.
coded : ℕ → Bool
coded zero = true
coded (suc d) = (digit_char d == code d) && coded d

coded-eq-code : (d count : ℕ) → d < count → coded count ≡ true → digit_char d ≡ code d
unfolding coded
coded-eq-code d zero lt ok = absurd (omega arith)
coded-eq-code d (suc last) lt ok = elim (Bool-cases (d == last)) [
  | inl here ↦
      subst (λ n. digit_char n ≡ code n) (sym ((==_iff d last).0 here))
        ((==_iff (digit_char last) (code last)).0 (and_left (digit_char last == code last) _ ok))
  | inr below ↦
      coded-eq-code d last (ground (arith, below)) (and_right (digit_char last == code last) _ ok)
]
  where
    and_left : (a b : Bool) → (a && b) ≡ true → a ≡ true
    and_left true b e = refl
    and_left false b e = cc

    and_right : (a b : Bool) → (a && b) ≡ true → b ≡ true
    and_right true b e = e
    and_right false b e = cc

all_coded : coded 16 ≡ true
unfolding coded
all_coded = refl

digit_char-eq-code : (d : ℕ) → d < 16 → digit_char d ≡ code d
digit_char-eq-code d h = coded-eq-code d 16 h all_coded

pub digit-digit_char : (d : ℕ) → d < 16 → digit (digit_char d) ≡ some d
unfolding digit
digit-digit_char d h = rw (digit_char-eq-code d h) (ground arith)

-- Neither a blank, nor a sign, nor an "x".
abbrev pub Chars : List ℕ → Type 0
Chars [] = Unit
Chars (c ∷ cs) = (47 < c) × (c < 103) × Chars cs

digit_char-Chars : (d : ℕ) → d < 16 → Chars (digit_char d ∷ [])
digit_char-Chars d h = rw (digit_char-eq-code d h) (ground arith, ground arith, tt)

Chars-append : (xs ys : List ℕ) → Chars xs → Chars ys → Chars (xs ++ ys)
Chars-append [] ys h k = k
Chars-append (x ∷ xs) ys (a, b, h) k = (a, b, Chars-append xs ys h k)

pub Chars-at :
    (m : ℕ → ℕ) (s : ℕ) (cs : List ℕ) (i : ℕ)
    → Holds m s cs
    → Chars cs
    → i < length cs
    → (47 < m (s + i)) × (m (s + i) < 103)
Chars-at m s [] i h k lt = absurd (omega arith)
Chars-at m s (c ∷ cs) zero (e, h) (a, b, k) lt = ground (arith, e, a, b)
Chars-at m s (c ∷ cs) (suc i) (e, h) (a, b, k) lt =
    ground (arith, Chars-at m (suc s) cs i h k (omega arith))

pub numeral-Chars : (fuel num base : ℕ) → 2 ≤ base → base ≤ 16 → Chars (numeral fuel num base)
unfolding numeral
numeral-Chars zero num base two most = tt
numeral-Chars (suc fuel) num base two most =
    let last = digit_char-Chars (num % base) (omega (arith, mod-lt num {m = base} (omega arith))) in
    elim (Bool-cases (leb base num)) [
      | inl large ↦ rw large (
          Chars-append (numeral fuel (num / base) base) (digit_char (num % base) ∷ [])
            (numeral-Chars fuel (num / base) base two most) last)
      | inr small ↦ rw small last
    ]

pub length-numeral : (fuel num base : ℕ) → length (numeral fuel num base) ≤ fuel
unfolding numeral
length-numeral zero num base = omega arith
length-numeral (suc fuel) num base = elim (Bool-cases (leb base num)) [
  | inl large ↦ rw large (
      omega (
        arith,
        length-append (numeral fuel (num / base) base) (digit_char (num % base) ∷ []),
        length-numeral fuel (num / base) base,
      ))
  | inr small ↦ rw small (omega arith)
]

numeral_nonempty : (fuel num base : ℕ) → 0 < length (numeral (suc fuel) num base)
unfolding numeral
numeral_nonempty fuel num base =
    let before = if leb base num then numeral fuel (num / base) base else [] in
    omega (arith, length-append before (digit_char (num % base) ∷ []))

-- The first character of a numeral with a NUL byte behind it is a digit, and the next is no "x".
pub numeral_front :
    (num base : ℕ) (m : ℕ → ℕ) (s : ℕ)
    → 2 ≤ base
    → base ≤ 16
    → Holds m s (numeral 64 num base ++ 0 ∷ [])
    → (47 < m s) × (m (s + 1) ≢ 120)
numeral_front num base m s two most h =
    let ds = numeral 64 num base in
    let both = Holds-append m s ds (0 ∷ []) h in
    let chars = numeral-Chars 64 num base two most in
    let many = numeral_nonempty 63 num base in
    let start : m (s + 0) ≡ m s = ap m (omega arith) in
    (
      omega (arith, Chars-at m s ds 0 both.0 chars many, start),
      λ x. elim (Bool-cases (ltb 1 (length ds))) [
        | inl more ↦ omega (arith, Chars-at m s ds 1 both.0 chars (ltb→lt 1 (length ds) more), x)
        | inr one ↦
            let end : s + length ds ≡ s + 1 = ground (arith, one, many) in
            omega (arith, sym (ap m end) ∙ both.1.0, x)
      ],
    )
