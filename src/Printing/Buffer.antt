-- ===== src/Printing/Buffer.antt =====
-- `vsnprintf` of lab8/libs/printfmt.c: a buffer that may be too small for what is printed.
use os.Base.{
  ℕ, zero, suc, ◌+◌, ◌-◌, ◌≤◌, ◌<◌, ◌≡◌, ◌≢◌, ◌⊎◌, ◌∙◌, refl, List, [], ◌∷◌, ◌++◌, length,
  length-take, take, arith, some, ltb, inl, inr, false, lt→ltb, ◌==◌, ==_ne, min,
}
use mathlib.Core.Path.{subst}
use os.Strings.{put}
use os.Strings.Number.Reading.{Holds}
use os.Printing.{SprintBuf, sprintputch, print_into, vsnprintf}

-- How printing `out` at `s`, with room for `n` characters, changes the buffer.
record IsPrinted (b : SprintBuf) (n : ℕ) (out : List ℕ) (t : SprintBuf) : Type 0 where
  pub count : t.cnt ≡ b.cnt + length out
  pub position : t.buf ≡ b.buf + min n (length out)
  pub text : Holds t.memory b.buf (take n out)
  pub before : (q : ℕ) → q < b.buf → t.memory q ≡ b.memory q
  pub behind : (q : ℕ) → t.buf ≤ q → t.memory q ≡ b.memory q

print_into-full :
    (out : List ℕ) (b : SprintBuf) → ltb b.buf b.ebuf ≡ false → IsPrinted b 0 out (print_into out b)
unfolding print_into sprintputch
print_into-full [] b full = record {
  count = omega arith;
  position = omega arith;
  text = tt;
  before = λ q lt. refl;
  behind = λ q le. refl;
}
print_into-full (ch ∷ out) b full = rw full (
    let rest = print_into-full out (record b { cnt = b.cnt + 1 }) full in
    record {
      count = omega (arith, rest.count);
      position = omega (arith, rest.position);
      text = tt;
      before = rest.before;
      behind = rest.behind;
    })

print_into-IsPrinted :
    (out : List ℕ) (n : ℕ) (b : SprintBuf)
    → b.buf + n ≡ b.ebuf
    → IsPrinted b n out (print_into out b)
unfolding print_into sprintputch
print_into-IsPrinted out zero b e = print_into-full out b (ground (arith, e))
print_into-IsPrinted [] (suc n) b e = record {
  count = omega arith;
  position = omega arith;
  text = tt;
  before = λ q lt. refl;
  behind = λ q le. refl;
}
print_into-IsPrinted (ch ∷ out) (suc n) b e =
    let t : SprintBuf = record {
      buf = b.buf + 1;
      ebuf = b.ebuf;
      cnt = b.cnt + 1;
      memory = put b.buf ch b.memory;
    } in
    let rest = print_into-IsPrinted out n t (omega (arith, e)) in
    rw (lt→ltb b.buf b.ebuf (omega (arith, e))) (record {
      count = omega (arith, rest.count);
      position = omega (arith, rest.position);
      text = (
        rest.before b.buf (omega arith) ∙ ground arith,
        subst (λ s. Holds (print_into out t).memory s (take n out)) (omega arith) rest.text,
      );
      before = λ q lt. rest.before q (omega (arith, lt)) ∙ ground (arith, lt);
      behind = λ q le. rest.behind q le ∙ ground (arith, le, rest.position);
    })

pub ended :
    (m : ℕ → ℕ) (s c : ℕ) (xs : List ℕ)
    → Holds m s xs
    → Holds (put (s + length xs) c m) s (xs ++ c ∷ [])
ended m s c [] h = (ground arith, tt)
ended m s c (x ∷ xs) (e, h) = (
  ground (arith, e),
  subst (λ t. Holds (put t c m) (suc s) (xs ++ c ∷ [])) (omega arith) (ended m (suc s) c xs h),
)

-- With a buffer that begins at an address other than NULL and has at least one byte, `vsnprintf`
-- returns the number of characters printed, however many fit; it stores those that fit with one
-- byte to spare and a NUL byte behind them, and changes no byte outside the buffer.
pub vsnprintf-eq :
    (str size : ℕ) (out : List ℕ) (m : ℕ → ℕ)
    → str ≢ 0
    → 0 < size
    → (m' : ℕ → ℕ) × (vsnprintf str size out m ≡ some (length out, m'))
      × Holds m' str (take (size - 1) out ++ 0 ∷ [])
      × ((q : ℕ) → (q < str) ⊎ (str + size ≤ q) → m' q ≡ m q)
unfolding vsnprintf
vsnprintf-eq str size out m here some_bytes =
    let b : SprintBuf = record { buf = str; ebuf = str + size - 1; cnt = 0; memory = m } in
    let t = print_into out b in
    let done = print_into-IsPrinted out (size - 1) b (omega arith) in
    let end : str + length (take (size - 1) out) ≡ t.buf =
      omega (arith, done.position, length-take (size - 1) out) in
    (
      put t.buf 0 t.memory,
      rw done.count (ground (arith, here, some_bytes)),
      subst (λ p. Holds (put p 0 t.memory) str (take (size - 1) out ++ 0 ∷ [])) end
          (ended t.memory str 0 (take (size - 1) out) done.text),
      λ q outside. elim outside [
        | inl below ↦ ground (arith, below, done.before q below, done.position)
        | inr above ↦
            let le : t.buf ≤ q = omega (arith, above, done.position) in
            let ne : (t.buf == q) ≡ false = ==_ne t.buf q (omega (arith, above, done.position)) in
            rw ne (done.behind q le)
      ],
    )
