-- ===== src/Strings/Number.antt =====
-- `strtol` of lab8/libs/string.c. A `long` is its 64-bit pattern, which arithmetic wraps; `base` is 0
-- or between 2 and 36, as the comment on the function demands.
pub mod Reading
use os.Base.{
  ℕ, zero, suc, ◌+◌, ◌-◌, ◌*◌, ◌%◌, ◌^◌, Bool, true, false, ◌&&◌, ◌||◌, Option, none, some, ◌==◌,
  leb, if◌then◌else◌, ◌>>=◌,
}

abbrev pub long : ℕ → ℕ
long n = n % 2 ^ 64

abbrev pub negated : ℕ → ℕ
negated n = long (2 ^ 64 - n)

unfoldable pub skip_blanks : ℕ → (ℕ → ℕ) → ℕ → Option ℕ
skip_blanks zero m s = none
skip_blanks (suc fuel) m s =
    let rest = skip_blanks fuel m (suc s) in if (m s == 32) || (m s == 9) then rest else some s

-- Whether there is a minus, and where the number goes on.
unfoldable pub sign : (ℕ → ℕ) → ℕ → Bool × ℕ
sign m s = if m s == 43 then (false, s + 1) else if m s == 45 then (true, s + 1) else (false, s)

-- The base, and where its digits begin.
unfoldable pub prefix : (ℕ → ℕ) → ℕ → ℕ → ℕ × ℕ
prefix m s base =
    if ((base == 0) || (base == 16)) && ((m s == 48) && (m (s + 1) == 120))
    then (16, s + 2)
    else if (base == 0) && (m s == 48)
    then (8, s + 1)
    else if base == 0
    then (10, s)
    else (base, s)

-- What a character counts as a digit.
unfoldable pub digit : ℕ → Option ℕ
digit c =
    if leb 48 c && leb c 57
    then some (c - 48)
    else if leb 97 c && leb c 122
    then some (c - 97 + 10)
    else if leb 65 c && leb c 90
    then some (c - 65 + 10)
    else none

-- The loop over the digits: the value, and where it ends.
unfoldable pub digits : ℕ → (ℕ → ℕ) → ℕ → ℕ → ℕ → Option (ℕ × ℕ)
digits zero m s base val = none
digits (suc fuel) m s base val = elim (digit (m s)) [
  | none ↦ some (val, s)
  | some dig ↦ elim (leb base dig) [
    | true ↦ some (val, s)
    | false ↦ digits fuel m (suc s) base (long (val * base + dig))
  ]
]

-- The value, and what `*endptr` is set to. The fuel bounds the blanks, and the digits.
unfoldable pub strtol : ℕ → (ℕ → ℕ) → ℕ → ℕ → Option (ℕ × ℕ)
strtol fuel m s base = skip_blanks fuel m s >>= λ t.
    digits fuel m (prefix m (sign m t).1 base).1 (prefix m (sign m t).1 base).0 0 >>= λ r.
    some (if (sign m t).0 then negated r.0 else r.0, r.1)
