-- ===== src/Printing.antt =====
-- lab8/libs/printfmt.c: how numbers are printed, and printing into a buffer. What is printed is the
-- list of the characters that `putch` gets, in order.
pub mod Numbers
pub mod Digits
pub mod RoundTrip
pub mod Buffer
use os.Base.{
  ℕ, zero, suc, ◌+◌, ◌-◌, ◌/◌, ◌%◌, ◌^◌, Bool, true, false, ◌||◌, Option, none, some, List, [], ◌∷◌,
  ◌++◌, ◌==◌, ltb, leb, if◌then◌else◌, ◌>>=◌, get_or,
}
use os.Strings.{put}

-- "0123456789abcdef"
abbrev pub numerals : List ℕ
numerals = 48 ∷ 49 ∷ 50 ∷ 51 ∷ 52 ∷ 53 ∷ 54 ∷ 55 ∷ 56 ∷ 57 ∷ 97 ∷ 98 ∷ 99 ∷ 100 ∷ 101 ∷ 102 ∷ []

abbrev pub digit_char : ℕ → ℕ
digit_char d = get_or numerals d 0

-- The loop over the pad characters. A width that is negative in C is 0 here: neither pads.
unfoldable pub pad : ℕ → ℕ → List ℕ
pad zero padc = []
pad (suc width) padc = let rest = pad width padc in if ltb 0 width then padc ∷ rest else []

-- `none` is a recursion deeper than the fuel.
unfoldable pub printnum : ℕ → ℕ → ℕ → ℕ → ℕ → Option (List ℕ)
printnum zero num base width padc = none
printnum (suc fuel) num base width padc =
    let deeper = printnum fuel (num / base) base (width - 1) padc in
    let before = if leb base num then deeper else some (pad width padc) in
    before >>= λ cs. some (cs ++ digit_char (num % base) ∷ [])

-- The conversions of `vprintfmt` that print a number.
pub data Conversion : Type 0 where
  decimal unsigned octal pointer hex : Conversion

-- From the argument's 64-bit pattern on, as the labels `case 'd'` to `number` treat it; 64 calls are
-- enough for any pattern.
unfoldable pub print_number : Conversion → ℕ → ℕ → ℕ → Option (List ℕ)
print_number decimal num width padc =
    let minus = printnum 64 (2 ^ 64 - num) 10 width padc >>= λ cs. some (45 ∷ cs) in
    let plain = printnum 64 num 10 width padc in if leb (2 ^ 63) num then minus else plain
print_number unsigned num width padc = printnum 64 num 10 width padc
print_number octal num width padc = printnum 64 num 8 width padc
print_number pointer num width padc = printnum 64 num 16 width padc >>= λ cs. some (48 ∷ 120 ∷ cs)
print_number hex num width padc = printnum 64 num 16 width padc

-- `struct sprintbuf`, and the memory that it points into.
pub record SprintBuf : Type 0 where
  pub buf : ℕ
  pub ebuf : ℕ
  pub cnt : ℕ
  pub memory : ℕ → ℕ

unfoldable pub sprintputch : ℕ → SprintBuf → SprintBuf
sprintputch ch b =
    let t = record b { cnt = b.cnt + 1 } in
    if ltb b.buf b.ebuf then record t { buf = b.buf + 1; memory = put b.buf ch b.memory } else t

-- `vprintfmt` with `sprintputch`, where it prints `out`.
unfoldable pub print_into : List ℕ → SprintBuf → SprintBuf
print_into [] b = b
print_into (ch ∷ out) b = print_into out (sprintputch ch b)

-- `none` is -E_INVAL; otherwise the count, and the memory. A buffer of no bytes ends before it begins.
unfoldable pub vsnprintf : ℕ → ℕ → List ℕ → (ℕ → ℕ) → Option (ℕ × (ℕ → ℕ))
vsnprintf str size out m =
    let b = print_into out (record { buf = str; ebuf = str + size - 1; cnt = 0; memory = m }) in
    if (str == 0) || ltb (str + size - 1) str then none else some (b.cnt, put b.buf 0 b.memory)
