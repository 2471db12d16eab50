-- ===== src/Strings.antt =====
-- lab8/libs/string.c: the routines on memory and on strings. Memory maps an address to a byte; a
-- `char` is unsigned, as on RISC-V. A loop that ends only at a NUL byte runs on fuel, and is `none`
-- without it.
pub mod Memory
pub mod Compare
pub mod Number
use os.Base.{
  ℕ, zero, suc, ◌+◌, ◌-◌, Bool, true, false, not, ◌&&◌, Option, none, some, ◌==◌, ltb, leb,
  if◌then◌else◌, ◌>>=◌,
}

-- An `int` result: the difference of two bytes.
pub data ℤ : Type 0 where
  pos negsuc : ℕ → ℤ

abbrev pub minus : ℕ → ℕ → ℤ
minus a b = if leb b a then pos (a - b) else negsuc (b - a - 1)

abbrev pub put : ℕ → ℕ → (ℕ → ℕ) → ℕ → ℕ
put p c m q = if p == q then c else m q

unfoldable pub memset : ℕ → ℕ → ℕ → (ℕ → ℕ) → ℕ → ℕ
memset s c zero m = m
memset s c (suc n) m = memset (suc s) c n (put s c m)

-- The loop upwards, which is that of `memcpy` too.
unfoldable pub copy_up : ℕ → ℕ → ℕ → (ℕ → ℕ) → ℕ → ℕ
copy_up zero d s m = m
copy_up (suc n) d s m = copy_up n (suc d) (suc s) (put d (m s) m)

-- The loop downwards from the ends of both areas.
unfoldable pub copy_down : ℕ → ℕ → ℕ → (ℕ → ℕ) → ℕ → ℕ
copy_down zero d s m = m
copy_down (suc n) d s m = copy_down n d s (put (d + n) (m (s + n)) m)

unfoldable pub memmove : ℕ → ℕ → ℕ → (ℕ → ℕ) → ℕ → ℕ
memmove d s n m = if ltb s d && ltb d (s + n) then copy_down n d s m else copy_up n d s m

unfoldable pub memcpy : ℕ → ℕ → ℕ → (ℕ → ℕ) → ℕ → ℕ
memcpy d s n m = copy_up n d s m

unfoldable pub memcmp : ℕ → ℕ → ℕ → (ℕ → ℕ) → ℤ
memcmp s t zero m = pos 0
memcmp s t (suc n) m = if not (m s == m t) then minus (m s) (m t) else memcmp (suc s) (suc t) n m

unfoldable pub strlen : ℕ → (ℕ → ℕ) → ℕ → Option ℕ
strlen zero m s = none
strlen (suc fuel) m s =
    let rest = strlen fuel m (suc s) in if m s == 0 then some 0 else rest >>= λ n. some (suc n)

unfoldable pub strnlen : ℕ → (ℕ → ℕ) → ℕ → ℕ
strnlen zero m s = 0
strnlen (suc len) m s = let rest = strnlen len m (suc s) in if m s == 0 then 0 else suc rest

unfoldable pub strcpy : ℕ → ℕ → ℕ → (ℕ → ℕ) → Option (ℕ → ℕ)
strcpy zero d s m = none
strcpy (suc fuel) d s m =
    let m' = put d (m s) m in
    let rest = strcpy fuel (suc d) (suc s) m' in if m s == 0 then some m' else rest

-- `src` stands still at its NUL byte, which fills the rest.
unfoldable pub strncpy : ℕ → ℕ → ℕ → (ℕ → ℕ) → ℕ → ℕ
strncpy zero d s m = m
strncpy (suc len) d s m = strncpy len (suc d) (if not (m s == 0) then suc s else s) (put d (m s) m)

unfoldable pub strcat : ℕ → ℕ → ℕ → (ℕ → ℕ) → Option (ℕ → ℕ)
strcat fuel d s m = strlen fuel m d >>= λ n. strcpy fuel (d + n) s m

unfoldable pub strcmp : ℕ → (ℕ → ℕ) → ℕ → ℕ → Option ℤ
strcmp zero m s t = none
strcmp (suc fuel) m s t =
    let rest = strcmp fuel m (suc s) (suc t) in
    if not (m s == 0) && (m s == m t) then rest else some (minus (m s) (m t))

unfoldable pub strncmp : ℕ → (ℕ → ℕ) → ℕ → ℕ → ℤ
strncmp zero m s t = pos 0
strncmp (suc n) m s t =
    let rest = strncmp n m (suc s) (suc t) in
    if not (m s == 0) && (m s == m t) then rest else minus (m s) (m t)

unfoldable pub strchr : ℕ → (ℕ → ℕ) → ℕ → ℕ → Option (Option ℕ)
strchr zero m s c = none
strchr (suc fuel) m s c =
    let rest = strchr fuel m (suc s) c in
    if m s == 0 then some none else if m s == c then some (some s) else rest

unfoldable pub strfind : ℕ → (ℕ → ℕ) → ℕ → ℕ → Option ℕ
strfind zero m s c = none
strfind (suc fuel) m s c =
    let rest = strfind fuel m (suc s) c in
    if m s == 0 then some s else if m s == c then some s else rest
