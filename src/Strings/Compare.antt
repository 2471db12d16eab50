-- ===== src/Strings/Compare.antt =====
-- The string routines of lab8/libs/string.c against the lists of the strings' bytes.
use mathlib.Core.Path.{ap₂, subst}
use os.Base.{
  ℕ, zero, suc, ◌+◌, ◌≤◌, ◌<◌, ◌≡◌, refl, ◌≢◌, ◌↔◌, List, [], ◌∷◌, length, some, arith, ap, sym,
  ◌∙◌, ==_refl, ==_ne, ◌==◌, if◌then◌else◌, Bool-cases, inl, inr,
}
use os.Strings.{ℤ, pos, minus, put, strlen, strcmp, strcpy, copy_up}

-- The string at `s` has the bytes `cs`, and ends in a NUL byte behind them.
abbrev pub IsString : (ℕ → ℕ) → ℕ → List ℕ → Type 0
IsString m s [] = m s ≡ 0
IsString m s (c ∷ cs) = (m s ≡ c) × (c ≢ 0) × IsString m (suc s) cs

pub strlen-eq-length :
    (fuel : ℕ) (m : ℕ → ℕ) (s : ℕ) (cs : List ℕ)
    → IsString m s cs
    → length cs < fuel
    → strlen fuel m s ≡ some (length cs)
unfolding strlen
strlen-eq-length zero m s cs str lt = absurd (omega arith)
strlen-eq-length (suc fuel) m s [] str lt = ground arith
strlen-eq-length (suc fuel) m s (c ∷ cs) str lt =
    rw (strlen-eq-length fuel m (suc s) cs str.2 (omega arith)) (ground arith)

-- The difference of the first two bytes that differ; a string that ends counts as a 0 there.
abbrev pub difference : List ℕ → List ℕ → ℤ
difference [] [] = pos 0
difference [] (d ∷ ds) = minus 0 d
difference (c ∷ cs) [] = minus c 0
difference (c ∷ cs) (d ∷ ds) = if c == d then difference cs ds else minus c d

pub strcmp-eq-difference :
    (fuel : ℕ) (m : ℕ → ℕ) (s t : ℕ) (cs ds : List ℕ)
    → IsString m s cs
    → IsString m t ds
    → length cs < fuel
    → strcmp fuel m s t ≡ some (difference cs ds)
unfolding strcmp
strcmp-eq-difference zero m s t cs ds u v lt = absurd (omega arith)
strcmp-eq-difference (suc fuel) m s t [] [] u v lt = rw (u, v) refl
strcmp-eq-difference (suc fuel) m s t [] (d ∷ ds) u v lt = rw (u, v.0) refl
strcmp-eq-difference (suc fuel) m s t (c ∷ cs) [] u v lt = rw (u.0, v) (ground (arith, u.1))
strcmp-eq-difference (suc fuel) m s t (c ∷ cs) (d ∷ ds) u v lt =
    rw (strcmp-eq-difference fuel m (suc s) (suc t) cs ds u.2 v.2 (omega arith), u.0, v.0)
      (ground (arith, u.1))

minus_zero : (a b : ℕ) → minus a b ≡ pos 0 → a ≡ b
minus_zero a b e = ground arith

difference-zero :
    (cs ds : List ℕ) (m : ℕ → ℕ) (s t : ℕ)
    → IsString m s cs
    → IsString m t ds
    → difference cs ds ≡ pos 0
    → cs ≡ ds
difference-zero [] [] m s t u v e = refl
difference-zero [] (d ∷ ds) m s t u v e = absurd (v.1 (omega (arith, minus_zero 0 d e)))
difference-zero (c ∷ cs) [] m s t u v e = absurd (u.1 (omega (arith, minus_zero c 0 e)))
difference-zero (c ∷ cs) (d ∷ ds) m s t u v e = elim (Bool-cases (c == d)) [
  | inl same ↦
      let here : c ≡ d = ground (arith, same) in
      let rest = difference-zero cs ds m (suc s) (suc t) u.2 v.2 (ground (arith, same, e)) in
      ap₂ (λ x xs. x ∷ xs) here rest
  | inr differ ↦ absurd (
      let equal : c ≡ d = minus_zero c d (ground (arith, differ, e)) in
      ground (arith, differ, equal))
]

difference_self : (cs : List ℕ) → difference cs cs ≡ pos 0
difference_self [] = refl
difference_self (c ∷ cs) = rw (==_refl c) (difference_self cs)

some-inj : {a b : ℤ} → some a ≡ some b → a ≡ b
some-inj e = cc

-- On two strings, given as many rounds as the first has bytes and one more, `strcmp` returns 0
-- exactly where the strings are equal.
pub strcmp-zero :
    (fuel : ℕ) (m : ℕ → ℕ) (s t : ℕ) (cs ds : List ℕ)
    → IsString m s cs
    → IsString m t ds
    → length cs < fuel
    → (strcmp fuel m s t ≡ some (pos 0)) ↔ (cs ≡ ds)
strcmp-zero fuel m s t cs ds u v lt =
    let run = strcmp-eq-difference fuel m s t cs ds u v lt in
    (
      λ e. difference-zero cs ds m s t u v (some-inj (sym run ∙ e)),
      λ e. run ∙ ap some (subst (λ es. difference cs es ≡ pos 0) e (difference_self cs)),
    )

IsString-put :
    (p c : ℕ) (m : ℕ → ℕ) (s : ℕ) (cs : List ℕ)
    → (s ≤ p → s + length cs < p)
    → IsString m s cs
    → IsString (put p c m) s cs
IsString-put p c m s [] apart u = ground (arith, u, apart)
IsString-put p c m s (b ∷ cs) apart u = (
  ground (arith, u.0, apart),
  u.1,
  IsString-put p c m (suc s) cs (λ le. omega (arith, apart)) u.2,
)

-- Where the destination does not begin inside the string and its NUL byte, unless at its start or
-- before it, `strcpy` returns, given as many rounds as the string has bytes and one more, and does
-- what a copy of the string with its NUL byte from the lowest address upwards does.
pub strcpy-eq-copy_up :
    (fuel d s : ℕ) (m : ℕ → ℕ) (cs : List ℕ)
    → IsString m s cs
    → length cs < fuel
    → (s < d → s + length cs < d)
    → strcpy fuel d s m ≡ some (copy_up (suc (length cs)) d s m)
unfolding strcpy copy_up
strcpy-eq-copy_up zero d s m cs u lt apart = absurd (omega arith)
strcpy-eq-copy_up (suc fuel) d s m [] u lt apart = rw u refl
strcpy-eq-copy_up (suc fuel) d s m (c ∷ cs) u lt apart =
    let rest =
      strcpy-eq-copy_up fuel (suc d) (suc s) (put d (m s) m) cs
        (IsString-put d (m s) m (suc s) cs (λ le. omega (arith, apart)) u.2) (omega arith)
        (λ lt. omega (arith, apart)) in
    rw (==_ne (m s) 0 (λ e. u.1 (sym u.0 ∙ e))) rest
