-- ===== src/Stdin/Buffer.antt =====
-- The ring of lab8/kern/fs/devs/dev_stdin.c as the list of characters that are to be read.
use os.Base.{
  ℕ, zero, suc, ◌+◌, ◌-◌, ◌%◌, ◌≤◌, ◌<◌, ◌≡◌, refl, sym, ap, ◌∙◌, List, [], ◌∷◌, ◌++◌, length, min,
  take, drop, arith, true, false, Bool-cases, inl, inr, ltb, ◌==◌, ==_ne, ==_refl, if◌then◌else◌,
}
use mathlib.Core.Path.{ap₂}
use os.Strings.{put}
use os.Stdin.{Console, stdin_bufsize, store_char, take_ready}

-- The `n` characters from position `r` on.
unfoldable pub slots : (ℕ → ℕ) → ℕ → ℕ → List ℕ
slots b r zero = []
slots b r (suc n) = b (r % stdin_bufsize) ∷ slots b (r + 1) n

abbrev pub pending : Console → List ℕ
pending t = slots t.stdin_buffer t.p_rpos (t.p_wpos - t.p_rpos)

pub record IsConsole (t : Console) : Type 0 where
  pub ordered : t.p_rpos ≤ t.p_wpos
  pub bounded : t.p_wpos ≤ t.p_rpos + stdin_bufsize

length-slots : (b : ℕ → ℕ) (r n : ℕ) → length (slots b r n) ≡ n
unfolding slots
length-slots b r zero = refl
length-slots b r (suc n) = ap suc (length-slots b (r + 1) n)

pub length-pending : (t : Console) → length (pending t) ≡ t.p_wpos - t.p_rpos
length-pending t = length-slots t.stdin_buffer t.p_rpos (t.p_wpos - t.p_rpos)

-- A character at a position that is none of these.
slots-put :
    (b : ℕ → ℕ) (c p r n : ℕ)
    → r + n ≤ p
    → p < r + stdin_bufsize
    → slots (put (p % stdin_bufsize) c b) r n ≡ slots b r n
unfolding slots
slots-put b c p r zero ge lt = refl
slots-put b c p r (suc n) ge lt =
    let other : (p % stdin_bufsize == r % stdin_bufsize) ≡ false = ==_ne _ _ (omega arith) in
    rw (other, slots-put b c p (r + 1) n (omega arith) (omega arith)) refl

slots-next :
    (b : ℕ → ℕ) (r n : ℕ) → slots b r (suc n) ≡ slots b r n ++ b ((r + n) % stdin_bufsize) ∷ []
unfolding slots
slots-next b r zero = ap (λ k. b (k % stdin_bufsize) ∷ []) (omega arith)
slots-next b r (suc n) =
    ap (λ cs. b (r % stdin_bufsize) ∷ cs)
      (slots-next b (r + 1) n
        ∙ ap (λ k. slots b (r + 1) n ++ b (k % stdin_bufsize) ∷ []) (omega arith))

slots-full :
    (b : ℕ → ℕ) (c r n : ℕ)
    → n ≡ stdin_bufsize
    → slots (put ((r + n) % stdin_bufsize) c b) r n ≡ c ∷ drop 1 (slots b r n)
unfolding slots
slots-full b c r zero e = absurd (omega arith)
slots-full b c r (suc n) e =
    let same : (r + suc n) % stdin_bufsize ≡ r % stdin_bufsize = omega (arith, e) in
    rw
      (
        slots-put b c (r + suc n) (r + 1) n (omega arith) (omega (arith, e)),
        same,
        ==_refl (r % stdin_bufsize),
      )
      refl

-- What a character does to the list of those that are to be read.
abbrev pub accepted : ℕ → List ℕ → List ℕ
accepted c cs = if ltb (length cs) stdin_bufsize then cs ++ c ∷ [] else c ∷ drop 1 cs

written :
    (b : ℕ → ℕ) (c r w n : ℕ)
    → w ≡ r + n
    → n ≤ stdin_bufsize
    → slots (put (w % stdin_bufsize) c b) r ((if ltb (w - r) stdin_bufsize then w + 1 else w) - r)
      ≡ accepted c (slots b r n)
written b c r w n e le =
    let held = length-slots b r n in
    let b' = put (w % stdin_bufsize) c b in
    elim (Bool-cases (ltb n stdin_bufsize)) [
      | inl less ↦
          let grown : (if ltb (w - r) stdin_bufsize then w + 1 else w) - r ≡ suc n =
            ground (arith, less, e) in
          let room : ltb (length (slots b r n)) stdin_bufsize ≡ true = ground (arith, held, less) in
          let last : b' ((r + n) % stdin_bufsize) ≡ c =
            ap (λ k. b' (k % stdin_bufsize)) (sym e) ∙ rw (==_refl (w % stdin_bufsize)) refl in
          rw room (
            ap (slots b' r) grown
            ∙ slots-next b' r n
            ∙ ap₂ (λ cs k. cs ++ k ∷ [])
                (slots-put b c w r n (omega arith) (ground (arith, less, e))) last)
      | inr full ↦
          let kept : (if ltb (w - r) stdin_bufsize then w + 1 else w) - r ≡ n =
            ground (arith, full, e) in
          let none_free : ltb (length (slots b r n)) stdin_bufsize ≡ false =
            ground (arith, held, full) in
          rw none_free (
            ap (slots b' r) kept
            ∙ ap (λ k. slots (put (k % stdin_bufsize) c b) r n) e
            ∙ slots-full b c r n (ground (arith, full, le)))
    ]

-- As long as fewer characters are to be read than the buffer holds, a new one comes last; after
-- that, it replaces the first.
pub store_char-pending :
    (c : ℕ) (t : Console) → IsConsole t → pending (store_char c t) ≡ accepted c (pending t)
unfolding store_char
store_char-pending c t h =
    written t.stdin_buffer c t.p_rpos t.p_wpos (t.p_wpos - t.p_rpos) (omega (arith, h.ordered))
      (omega (arith, h.bounded))

pub store_char-IsConsole : (c : ℕ) (t : Console) → IsConsole t → IsConsole (store_char c t)
unfolding store_char
store_char-IsConsole c t h = record { ordered = ground (arith, h); bounded = ground (arith, h) }

take_ready-length :
    (len n : ℕ) (t : Console)
    → t.p_wpos ≡ t.p_rpos + n
    → take_ready len t
      ≡ (take len (slots t.stdin_buffer t.p_rpos n), record t { p_rpos = t.p_rpos + min len n })
unfolding take_ready slots
take_ready-length zero n t e = ap (λ r. ([], record t { p_rpos = r })) (omega arith)
take_ready-length (suc len) zero t e =
    let done : ltb t.p_rpos t.p_wpos ≡ false = ground (arith, e) in
    rw done (ap (λ r. ([], record t { p_rpos = r })) (omega arith))
take_ready-length (suc len) (suc n) t e =
    let more : ltb t.p_rpos t.p_wpos ≡ true = ground (arith, e) in
    let t' : Console = record t { p_rpos = t.p_rpos + 1 } in
    let moved : t.p_rpos + 1 + min len n ≡ t.p_rpos + min (suc len) (suc n) = omega arith in
    rw (more, take_ready-length len n t' (omega (arith, e)))
      (ap (λ r. (take (suc len) (slots t.stdin_buffer t.p_rpos (suc n)), record t { p_rpos = r }))
        moved)

abbrev pub advanced : ℕ → Console → Console
advanced len t = record t { p_rpos = t.p_rpos + min len (t.p_wpos - t.p_rpos) }

pub take_ready-pending :
    (len : ℕ) (t : Console)
    → IsConsole t
    → take_ready len t ≡ (take len (pending t), advanced len t)
take_ready-pending len t h =
    take_ready-length len (t.p_wpos - t.p_rpos) t (omega (arith, h.ordered))

slots-drop : (b : ℕ → ℕ) (k r n : ℕ) → slots b (r + min k n) (n - min k n) ≡ drop k (slots b r n)
unfolding slots
slots-drop b zero r n = ap₂ (slots b) (omega arith) (omega arith)
slots-drop b (suc k) r zero = ap (slots b (r + min (suc k) 0)) empty
  where
    empty : 0 - min (suc k) 0 ≡ 0
    empty = omega arith
slots-drop b (suc k) r (suc n) = ap₂ (slots b) start count ∙ slots-drop b k (r + 1) n
  where
    start : r + min (suc k) (suc n) ≡ r + 1 + min k n
    start = omega arith

    count : suc n - min (suc k) (suc n) ≡ n - min k n
    count = omega arith

pub advanced-IsConsole : (len : ℕ) (t : Console) → IsConsole t → IsConsole (advanced len t)
advanced-IsConsole len t h = record {
  ordered = omega (arith, h.ordered);
  bounded = omega (arith, h.bounded);
}

pub advanced-pending : (len : ℕ) (t : Console) → pending (advanced len t) ≡ drop len (pending t)
advanced-pending len t =
    ap (slots t.stdin_buffer (t.p_rpos + min len (t.p_wpos - t.p_rpos))) rest
    ∙ slots-drop t.stdin_buffer len t.p_rpos (t.p_wpos - t.p_rpos)
  where
    rest :
        t.p_wpos - (t.p_rpos + min len (t.p_wpos - t.p_rpos))
        ≡ t.p_wpos - t.p_rpos - min len (t.p_wpos - t.p_rpos)
    rest = omega arith
