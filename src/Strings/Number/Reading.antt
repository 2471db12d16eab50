-- ===== src/Strings/Number/Reading.antt =====
-- What `strtol` of lab8/libs/string.c makes of a text whose characters are known.
use os.Base.{
  ℕ, zero, suc, ◌+◌, ◌*◌, ◌<◌, ◌≡◌, refl, List, [], ◌∷◌, ◌++◌, length, arith, some, false, ◌≢◌,
}
use mathlib.Core.Path.{subst}
use os.Strings.Number.{long, skip_blanks, sign, prefix, digit, digits}

-- The text stands at `s`.
abbrev pub Holds : (ℕ → ℕ) → ℕ → List ℕ → Type 0
Holds m s [] = Unit
Holds m s (c ∷ cs) = (m s ≡ c) × Holds m (suc s) cs

pub Holds-append :
    (m : ℕ → ℕ) (s : ℕ) (xs ys : List ℕ)
    → Holds m s (xs ++ ys)
    → Holds m s xs × Holds m (s + length xs) ys
Holds-append m s [] ys h = (tt, subst (λ t. Holds m t ys) (omega arith) h)
Holds-append m s (x ∷ xs) ys (e, h) =
    let rest = Holds-append m (suc s) xs ys h in
    ((e, rest.0), subst (λ t. Holds m t ys) (omega arith) rest.1)

pub skip_blanks_none :
    (fuel : ℕ) (m : ℕ → ℕ) (s : ℕ) → 32 < m s → 0 < fuel → skip_blanks fuel m s ≡ some s
unfolding skip_blanks
skip_blanks_none zero m s gt lt = absurd (omega arith)
skip_blanks_none (suc fuel) m s gt lt = ground (arith, gt)

pub sign_absent : (m : ℕ → ℕ) (s : ℕ) → 45 < m s → sign m s ≡ (false, s)
unfolding sign
sign_absent m s h = ground (arith, h)

-- Without an "x" behind the first character there is no prefix, unless the base is left open.
pub prefix_absent :
    (m : ℕ → ℕ) (s base : ℕ) → base ≢ 0 → m (s + 1) ≢ 120 → prefix m s base ≡ (base, s)
unfolding prefix
prefix_absent m s base ne no_x = ground (arith, ne, no_x)

-- One round of the loop on a digit, and the round that ends it.
pub digits_step :
    (fuel : ℕ) (m : ℕ → ℕ) (s base val d : ℕ)
    → digit (m s) ≡ some d
    → d < base
    → digits (suc fuel) m s base val ≡ digits fuel m (suc s) base (long (val * base + d))
unfolding digits
digits_step fuel m s base val d e lt = ground (arith, e, lt)

pub digits_end :
    (fuel : ℕ) (m : ℕ → ℕ) (s base val : ℕ)
    → m s ≡ 0
    → 0 < fuel
    → digits fuel m s base val ≡ some (val, s)
unfolding digits digit
digits_end zero m s base val e lt = absurd (omega arith)
digits_end (suc fuel) m s base val e lt = rw (digits, e) refl
