-- ===== src/Examples/Text.antt =====
-- lab8/libs/string.c: the string "ab" at the addresses 100 and 200.
use os.Base.{ℕ, ◌≡◌, refl, ◌↔◌, List, [], ◌∷◌, some, arith, ◌==◌, if◌then◌else◌}
use os.Strings.{pos, memmove, strlen, strcmp}
use os.Strings.Memory.{memmove-eq-moved}
use os.Strings.Compare.{IsString, strlen-eq-length, strcmp-zero}

abbrev text : ℕ → ℕ
text q =
    if q == 100
    then 97
    else if q == 101
    then 98
    else if q == 200
    then 97
    else if q == 201
    then 98
    else 0

abbrev ab : List ℕ
ab = 97 ∷ 98 ∷ []

text-IsString : IsString text 100 ab
text-IsString = (refl, omega arith, (refl, omega arith, refl))

copy-IsString : IsString text 200 ab
copy-IsString = (refl, omega arith, (refl, omega arith, refl))

-- The areas 10..13 and 12..15 overlap.
memmove-eq-moved_example : memmove 12 10 4 (λ q. q) 15 ≡ 13
memmove-eq-moved_example = memmove-eq-moved 12 10 4 (λ q. q) 15

strlen-eq-length_example : strlen 5 text 100 ≡ some 2
strlen-eq-length_example = strlen-eq-length 5 text 100 ab text-IsString (omega arith)

strcmp-zero_example : (strcmp 5 text 100 200 ≡ some (pos 0)) ↔ (ab ≡ ab)
strcmp-zero_example = strcmp-zero 5 text 100 200 ab ab text-IsString copy-IsString (omega arith)
