-- ===== src/Printing/RoundTrip.antt =====
-- Numbers that lab8/libs/printfmt.c prints into a buffer, read by `strtol` of lab8/libs/string.c.
use os.Base.{
  ℕ, zero, suc, ◌+◌, ◌-◌, ◌*◌, ◌/◌, ◌%◌, ◌^◌, ◌≤◌, ◌<◌, ◌≡◌, ◌≢◌, refl, ap, ◌∙◌, List, [], ◌∷◌,
  ◌++◌, length, length-append, replicate, take_all, arith, some, leb, leb→le, Bool-cases, true,
  false, inl, inr,
}
use mathlib.Core.Path.{subst}
use native.Mathlib.Nat.{mod-lt, mod-eq_of_lt, div-le_self, div-add-mod}
use os.Strings.Number.{digit, sign, prefix, digits, strtol, negated}
use os.Strings.Number.Reading.{
  Holds, Holds-append, skip_blanks_none, sign_absent, prefix_absent, digits_step, digits_end,
}
use os.Printing.{
  digit_char, printnum, print_number, Conversion, decimal, unsigned, octal, pointer, hex, vsnprintf,
}
use os.Printing.Buffer.{vsnprintf-eq}
use os.Printing.Numbers.{numeral, printnum-eq, fewer, twice}
use os.Printing.Digits.{length-numeral, numeral_front, digit-digit_char}

module _ (base : ℕ) (two : 2 ≤ base) (most : base ≤ 16) where
  digits_to :
      (num val fuel : ℕ) (m : ℕ → ℕ) (s : ℕ)
      → num < 2 ^ 64
      → val * base + num % base ≡ num
      → m s ≡ digit_char (num % base)
      → 0 < fuel
      → digits fuel m s base val ≡ digits (fuel - 1) m (s + 1) base num
  digits_to num val zero m s fits e h lt = absurd (omega arith)
  digits_to num val (suc fuel) m s fits e h lt =
      let small : num % base < base = mod-lt num {m = base} (omega arith) in
      digits_step fuel m s base val (num % base)
        (ap digit h ∙ digit-digit_char (num % base) (omega (arith, small))) small
      ∙ ground (arith, e, fits)

  -- The loop over the digits gets through `ds` with the value `num`, whatever follows.
  abbrev Reads : ℕ → List ℕ → Type 0
  Reads num ds =
      (fuel : ℕ) (m : ℕ → ℕ) (s : ℕ)
      → Holds m s ds
      → length ds ≤ fuel
      → digits fuel m s base 0 ≡ digits (fuel - length ds) m (s + length ds) base num

  Reads-one : (num : ℕ) → num < 2 ^ 64 → num < base → Reads num (digit_char (num % base) ∷ [])
  Reads-one num fits lt fuel m s (e, h) enough =
      digits_to num 0 fuel m s fits (omega (arith, mod-eq_of_lt lt)) e (omega arith)

  Reads-more :
      (num : ℕ) (ds : List ℕ)
      → num < 2 ^ 64
      → Reads (num / base) ds
      → Reads num (ds ++ digit_char (num % base) ∷ [])
  Reads-more num ds fits r fuel m s h enough =
      let both = Holds-append m s ds (digit_char (num % base) ∷ []) h in
      let long = length-append ds (digit_char (num % base) ∷ []) in
      r fuel m s both.0 (omega (arith, long))
      ∙ digits_to num (num / base) (fuel - length ds) m (s + length ds) fits
          (grind (arith, div-add-mod num base)) both.1.0 (omega (arith, long))
      ∙ rw long (
          ap (λ k. digits k m (s + length ds + 1) base num) (omega arith)
          ∙ ap (λ k. digits (fuel - (length ds + 1)) m k base num) (omega arith))

  Reads-numeral :
      (n num : ℕ) → num < 2 ^ suc n → num < 2 ^ 64 → Reads num (numeral (suc n) num base)
  unfolding numeral
  Reads-numeral zero num lt fits =
      let small : leb base num ≡ false = ground arith in rw small (Reads-one num fits (omega arith))
  Reads-numeral (suc n) num lt fits = elim (Bool-cases (leb base num)) [
    | inr small ↦ rw (numeral, small) (Reads-one num fits (ground (arith, small)))
    | inl large ↦
        let less = fewer num base (2 ^ suc n) two (omega (arith, lt, twice (suc n))) in
        rw large (
          Reads-more num (numeral (suc n) (num / base) base) fits
            (Reads-numeral n (num / base) less (omega (arith, div-le_self num base))))
  ]

  -- The numeral of a 64-bit number, with a NUL byte behind it.
  reading :
      (num fuel : ℕ) (m : ℕ → ℕ) (s : ℕ)
      → num < 2 ^ 64
      → Holds m s (numeral 64 num base ++ 0 ∷ [])
      → length (numeral 64 num base) < fuel
      → digits fuel m s base 0 ≡ some (num, s + length (numeral 64 num base))
  reading num fuel m s fits h enough =
      let both = Holds-append m s (numeral 64 num base) (0 ∷ []) h in
      Reads-numeral 63 num fits fits fuel m s both.0 (omega arith)
      ∙ digits_end (fuel - length (numeral 64 num base)) m (s + length (numeral 64 num base)) base
          num both.1.0 (omega (arith, enough))

  bare :
      (num fuel : ℕ) (m : ℕ → ℕ) (s : ℕ)
      → num < 2 ^ 64
      → Holds m s (numeral 64 num base ++ 0 ∷ [])
      → length (numeral 64 num base) < fuel
      → strtol fuel m s base ≡ some (num, s + length (numeral 64 num base))
  unfolding strtol
  bare num fuel m s fits h enough =
      let front = numeral_front num base m s two most h in
      rw
        (
          skip_blanks_none fuel m s (omega (arith, front)) (omega arith),
          sign_absent m s (omega (arith, front)),
          prefix_absent m s base (omega arith) front.1,
          reading num fuel m s fits h enough,
        )
        refl

-- "-" before a decimal numeral, and "0x" before a hexadecimal one.
negative :
    (num fuel : ℕ) (m : ℕ → ℕ) (s : ℕ)
    → num < 2 ^ 64
    → Holds m s (45 ∷ numeral 64 num 10 ++ 0 ∷ [])
    → length (numeral 64 num 10) < fuel
    → strtol fuel m s 10 ≡ some (negated num, s + 1 + length (numeral 64 num 10))
unfolding strtol sign
negative num fuel m s fits (e, h) enough =
    let text : Holds m (s + 1) (numeral 64 num 10 ++ 0 ∷ []) =
      subst (λ t. Holds m t (numeral 64 num 10 ++ 0 ∷ [])) (omega arith) h in
    let front = numeral_front num 10 m (s + 1) (omega arith) (omega arith) text in
    let minus : sign m s ≡ (true, s + 1) = rw (sign, e) refl in
    rw
      (
        skip_blanks_none fuel m s (omega (arith, e)) (omega arith),
        minus,
        prefix_absent m (s + 1) 10 (omega arith) front.1,
        reading 10 (omega arith) (omega arith) num fuel m (s + 1) fits text enough,
      )
      refl

prefixed :
    (num fuel : ℕ) (m : ℕ → ℕ) (s : ℕ)
    → num < 2 ^ 64
    → Holds m s (48 ∷ 120 ∷ numeral 64 num 16 ++ 0 ∷ [])
    → length (numeral 64 num 16) < fuel
    → strtol fuel m s 16 ≡ some (num, s + 2 + length (numeral 64 num 16))
unfolding strtol prefix
prefixed num fuel m s fits (e, (e', h)) enough =
    let text : Holds m (s + 2) (numeral 64 num 16 ++ 0 ∷ []) =
      subst (λ t. Holds m t (numeral 64 num 16 ++ 0 ∷ [])) (omega arith) h in
    let hexadecimal : prefix m s 16 ≡ (16, s + 2) = ground (arith, e, e') in
    rw
      (
        skip_blanks_none fuel m s (omega (arith, e)) (omega arith),
        sign_absent m s (omega (arith, e)),
        hexadecimal,
        reading 16 (omega arith) (omega arith) num fuel m (s + 2) fits text enough,
      )
      refl

-- The base in which a conversion prints.
abbrev pub base_of : Conversion → ℕ
base_of decimal = 10
base_of unsigned = 10
base_of octal = 8
base_of pointer = 16
base_of hex = 16

printnum_bare :
    (num base padc : ℕ)
    → 2 ≤ base
    → num < 2 ^ 64
    → printnum 64 num base 0 padc ≡ some (numeral 64 num base)
printnum_bare num base padc two fits =
    let none_padded : 0 - length (numeral 64 num base) ≡ 0 = omega arith in
    printnum-eq 63 num base 0 padc two fits
    ∙ ap (λ n. some (replicate n padc ++ numeral 64 num base)) none_padded

-- What the round trip is about.
abbrev pub IsRead : Conversion → ℕ → ℕ → ℕ → ℕ → (ℕ → ℕ) → List ℕ → Type 0
IsRead c num padc str size m out =
    (m' : ℕ → ℕ) × (print_number c num 0 padc ≡ some out)
    × (vsnprintf str size out m ≡ some (length out, m'))
    × (strtol size m' str (base_of c) ≡ some (num, str + length out))

module _ (num padc str size : ℕ) (m : ℕ → ℕ) (fits : num < 2 ^ 64) (here : str ≢ 0)
    (room : 66 < size) where
  recovered :
      (c : Conversion) (out : List ℕ)
      → print_number c num 0 padc ≡ some out
      → length out < size
      → ((m' : ℕ → ℕ)
          → Holds m' str (out ++ 0 ∷ [])
          → strtol size m' str (base_of c) ≡ some (num, str + length out))
      → (out : List ℕ) × IsRead c num padc str size m out
  recovered c out printed short read =
      let done = vsnprintf-eq str size out m here (omega arith) in
      (
        out,
        (
          done.0,
          printed,
          done.1,
          read done.0 (
              subst (λ t. Holds done.0 str (t ++ 0 ∷ [])) (take_all (size - 1) out (omega arith))
                done.2),
        ),
      )

  -- The conversions that print the numeral alone.
  unsigned_back :
      (c : Conversion)
      → 2 ≤ base_of c
      → base_of c ≤ 16
      → print_number c num 0 padc ≡ printnum 64 num (base_of c) 0 padc
      → (out : List ℕ) × IsRead c num padc str size m out
  unsigned_back c two most e =
      let short = length-numeral 64 num (base_of c) in
      recovered c (numeral 64 num (base_of c)) (e ∙ printnum_bare num (base_of c) padc two fits)
        (omega (arith, short))
        (λ m' h. bare (base_of c) two most num size m' str fits h (omega (arith, short)))

  -- Any 64-bit number, as any conversion of `vprintfmt` for numbers prints it without a width by
  -- `vsnprintf` into a buffer of more than 66 bytes at an address other than NULL, is read back by
  -- `strtol` in the base of the conversion, up to the end of what was printed: negative numbers as
  -- %d prints them, and the prefix that %p prints, included.
  pub strtol-print_number : (c : Conversion) → (out : List ℕ) × IsRead c num padc str size m out
  unfolding print_number
  strtol-print_number unsigned = unsigned_back unsigned (omega arith) (omega arith) refl
  strtol-print_number octal = unsigned_back octal (omega arith) (omega arith) refl
  strtol-print_number hex = unsigned_back hex (omega arith) (omega arith) refl
  strtol-print_number pointer =
      let short = length-numeral 64 num 16 in
      recovered pointer (48 ∷ 120 ∷ numeral 64 num 16)
        (rw (printnum_bare num 16 padc (omega arith) fits) refl) (omega (arith, short))
        (λ m' h.
          prefixed num size m' str fits h (omega (arith, short))
          ∙ ap (λ e. some (num, e)) (omega arith))
  strtol-print_number decimal = elim (Bool-cases (leb (2 ^ 63) num)) [
    | inr positive ↦ unsigned_back decimal (omega arith) (omega arith) (rw positive refl)
    | inl below ↦
        let short = length-numeral 64 (2 ^ 64 - num) 10 in
        let big : 2 ^ 63 ≤ num = leb→le (2 ^ 63) num below in
        let less : 2 ^ 64 - num < 2 ^ 64 = omega (arith, big) in
        let back : negated (2 ^ 64 - num) ≡ num = omega (arith, big, fits) in
        recovered decimal (45 ∷ numeral 64 (2 ^ 64 - num) 10)
          (rw (below, printnum_bare (2 ^ 64 - num) 10 padc (omega arith) less) refl)
          (omega (arith, short))
          (λ m' h.
            negative (2 ^ 64 - num) size m' str less h (omega (arith, short))
            ∙ rw back (ap (λ e. some (num, e)) (omega arith)))
  ]
