-- ===== src/Links/Chain.antt =====
-- Chains of pointers: one direction of a list of list.h, under stores.
use os.Base.{ℕ, ◌≡◌, sym, ◌≢◌, List, [], ◌∷◌, ◌++◌, arith}
use os.Links.{store}

-- `z` is no entry of the list.
abbrev pub NotIn : ℕ → List ℕ → Type 0
NotIn z [] = Unit
NotIn z (x ∷ xs) = (z ≢ x) × NotIn z xs

-- No entry stands twice.
abbrev pub Distinct : List ℕ → Type 0
Distinct [] = Unit
Distinct (x ∷ xs) = NotIn x xs × Distinct xs

-- From `a` the pointers lead through `xs` to `b`.
abbrev pub Fwd : (ℕ → ℕ) → ℕ → List ℕ → ℕ → Type 0
Fwd f a [] b = f a ≡ b
Fwd f a (x ∷ xs) b = (f a ≡ x) × Fwd f x xs b

-- From `b` the pointers lead back through `xs` to `a`.
abbrev pub Bwd : (ℕ → ℕ) → ℕ → List ℕ → ℕ → Type 0
Bwd f a [] b = f b ≡ a
Bwd f a (x ∷ xs) b = (f x ≡ a) × Bwd f x xs b

abbrev pub last_or : ℕ → List ℕ → ℕ
last_or a [] = a
last_or a (x ∷ xs) = last_or x xs

abbrev pub head_or : List ℕ → ℕ → ℕ
head_or [] b = b
head_or (x ∷ xs) b = x

pub NotIn-append : (z : ℕ) (xs ys : List ℕ) → NotIn z xs → NotIn z ys → NotIn z (xs ++ ys)
NotIn-append z [] ys h k = k
NotIn-append z (x ∷ xs) ys h k = (h.0, NotIn-append z xs ys h.1 k)

pub NotIn-left : (z : ℕ) (xs ys : List ℕ) → NotIn z (xs ++ ys) → NotIn z xs
NotIn-left z [] ys h = tt
NotIn-left z (x ∷ xs) ys h = (h.0, NotIn-left z xs ys h.1)

pub NotIn-right : (z : ℕ) (xs ys : List ℕ) → NotIn z (xs ++ ys) → NotIn z ys
NotIn-right z [] ys h = h
NotIn-right z (x ∷ xs) ys h = NotIn-right z xs ys h.1

pub NotIn-last : (z a : ℕ) (xs : List ℕ) → z ≢ a → NotIn z xs → z ≢ last_or a xs
NotIn-last z a [] h k = h
NotIn-last z a (x ∷ xs) h k = NotIn-last z x xs k.0 k.1

pub NotIn-head : (z : ℕ) (ys : List ℕ) (b : ℕ) → NotIn z ys → z ≢ b → z ≢ head_or ys b
NotIn-head z [] b h k = k
NotIn-head z (y ∷ ys) b h k = h.0

pub Distinct-right : (xs ys : List ℕ) → Distinct (xs ++ ys) → Distinct ys
Distinct-right [] ys d = d
Distinct-right (x ∷ xs) ys d = Distinct-right xs ys d.1

-- An entry of a list without repetition may be taken out, and put in anywhere.
pub Distinct-delete :
    (xs : List ℕ) (e : ℕ) (ys : List ℕ)
    → Distinct (xs ++ e ∷ ys)
    → Distinct (xs ++ ys) × NotIn e (xs ++ ys)
Distinct-delete [] e ys d = (d.1, d.0)
Distinct-delete (x ∷ xs) e ys d =
    let r = Distinct-delete xs e ys d.1 in
    let n = NotIn-right x xs (e ∷ ys) d.0 in
    ((NotIn-append x xs ys (NotIn-left x xs (e ∷ ys) d.0) n.1, r.0), (λ q. n.0 (sym q), r.1))

pub Distinct-insert :
    (xs : List ℕ) (e : ℕ) (ys : List ℕ)
    → Distinct (xs ++ ys)
    → NotIn e (xs ++ ys)
    → Distinct (xs ++ e ∷ ys)
Distinct-insert [] e ys d n = (n, d)
Distinct-insert (x ∷ xs) e ys d n = (
  NotIn-append x xs (e ∷ ys) (NotIn-left x xs ys d.0) (λ q. n.0 (sym q), NotIn-right x xs ys d.0),
  Distinct-insert xs e ys d.1 n.1,
)

pub NotIn-insert :
    (z : ℕ) (xs : List ℕ) (e : ℕ) (ys : List ℕ)
    → NotIn z (xs ++ ys)
    → z ≢ e
    → NotIn z (xs ++ e ∷ ys)
NotIn-insert z [] e ys n h = (h, n)
NotIn-insert z (x ∷ xs) e ys n h = (n.0, NotIn-insert z xs e ys n.1 h)

pub Fwd-store :
    (f : ℕ → ℕ) (p v a : ℕ) (xs : List ℕ) (b : ℕ)
    → p ≢ a
    → NotIn p xs
    → Fwd f a xs b
    → Fwd (store f p v) a xs b
Fwd-store f p v a [] b h k w = ground arith
Fwd-store f p v a (x ∷ xs) b h k w = (ground arith, Fwd-store f p v x xs b k.0 k.1 w.1)

pub Bwd-store :
    (f : ℕ → ℕ) (p v a : ℕ) (xs : List ℕ) (b : ℕ)
    → NotIn p xs
    → p ≢ b
    → Bwd f a xs b
    → Bwd (store f p v) a xs b
Bwd-store f p v a [] b k h w = ground arith
Bwd-store f p v a (x ∷ xs) b k h w = (ground arith, Bwd-store f p v x xs b k.1 h w.1)

pub Fwd-insert :
    (f : ℕ → ℕ) (e a : ℕ) (xs ys : List ℕ) (b : ℕ)
    → Distinct (a ∷ xs ++ ys)
    → e ≢ a
    → NotIn e (xs ++ ys)
    → Fwd f a (xs ++ ys) b
    → Fwd (store (store f (last_or a xs) e) e (head_or ys b)) a (xs ++ e ∷ ys) b
Fwd-insert f e a [] [] b d h k w = (ground arith, ground arith)
Fwd-insert f e a [] (y ∷ ys) b d h k w =
    let below = Fwd-store f a e y ys b d.0.0 d.0.1 w.1 in
    (ground arith, (ground arith, Fwd-store (store f a e) e y y ys b k.0 k.1 below))
Fwd-insert f e a (x ∷ xs) ys b d h k w = (
  ground (arith, NotIn-last a x xs d.0.0 (NotIn-left a xs ys d.0.1)),
  Fwd-insert f e x xs ys b d.1 k.0 k.1 w.1,
)

pub Bwd-insert :
    (f : ℕ → ℕ) (e a : ℕ) (xs ys : List ℕ) (b : ℕ)
    → Distinct (xs ++ ys)
    → NotIn b (xs ++ ys)
    → NotIn e (xs ++ ys)
    → e ≢ b
    → Bwd f a (xs ++ ys) b
    → Bwd (store (store f (head_or ys b) e) e (last_or a xs)) a (xs ++ e ∷ ys) b
Bwd-insert f e a [] [] b d n k h w = (ground arith, ground arith)
Bwd-insert f e a [] (y ∷ ys) b d n k h w =
    let below = Bwd-store f y e y ys b d.0 (λ q. n.0 (sym q)) w.1 in
    (ground arith, (ground arith, Bwd-store (store f y e) e a y ys b k.1 h below))
Bwd-insert f e a (x ∷ xs) ys b d n k h w = (
  ground (arith, NotIn-head x ys b (NotIn-right x xs ys d.0) (λ q. n.0 (sym q))),
  Bwd-insert f e x xs ys b d.1 n.1 k.1 h w.1,
)

pub Fwd-delete :
    (f : ℕ → ℕ) (a : ℕ) (xs : List ℕ) (e : ℕ) (ys : List ℕ) (b : ℕ)
    → Distinct (a ∷ xs ++ e ∷ ys)
    → Fwd f a (xs ++ e ∷ ys) b
    → Fwd (store f (last_or a xs) (head_or ys b)) a (xs ++ ys) b
Fwd-delete f a [] e [] b d w = ground arith
Fwd-delete f a [] e (y ∷ ys) b d w = (ground arith, Fwd-store f a y y ys b d.0.1.0 d.0.1.1 w.1.1)
Fwd-delete f a (x ∷ xs) e ys b d w = (
  ground (arith, NotIn-last a x xs d.0.0 (NotIn-left a xs (e ∷ ys) d.0.1)),
  Fwd-delete f x xs e ys b d.1 w.1,
)

pub Bwd-delete :
    (f : ℕ → ℕ) (a : ℕ) (xs : List ℕ) (e : ℕ) (ys : List ℕ) (b : ℕ)
    → Distinct (xs ++ e ∷ ys)
    → NotIn b (xs ++ e ∷ ys)
    → Bwd f a (xs ++ e ∷ ys) b
    → Bwd (store f (head_or ys b) (last_or a xs)) a (xs ++ ys) b
Bwd-delete f a [] e [] b d n w = ground arith
Bwd-delete f a [] e (y ∷ ys) b d n w =
    (ground arith, Bwd-store f y a y ys b d.1.0 (λ q. n.1.0 (sym q)) w.1.1)
Bwd-delete f a (x ∷ xs) e ys b d n w = (
  ground (arith, NotIn-head x ys b (NotIn-right x xs (e ∷ ys) d.0).1 (λ q. n.0 (sym q))),
  Bwd-delete f x xs e ys b d.1 n.1 w.1,
)

-- What the pointers at the gap between `xs` and `ys` hold.
pub Fwd-gap :
    (f : ℕ → ℕ) (a : ℕ) (xs ys : List ℕ) (b : ℕ)
    → Fwd f a (xs ++ ys) b
    → f (last_or a xs) ≡ head_or ys b
Fwd-gap f a [] [] b w = w
Fwd-gap f a [] (y ∷ ys) b w = w.0
Fwd-gap f a (x ∷ xs) ys b w = Fwd-gap f x xs ys b w.1

pub Bwd-gap :
    (f : ℕ → ℕ) (a : ℕ) (xs ys : List ℕ) (b : ℕ)
    → Bwd f a (xs ++ ys) b
    → f (head_or ys b) ≡ last_or a xs
Bwd-gap f a [] [] b w = w
Bwd-gap f a [] (y ∷ ys) b w = w.0
Bwd-gap f a (x ∷ xs) ys b w = Bwd-gap f x xs ys b w.1

pub Fwd-after :
    (f : ℕ → ℕ) (a : ℕ) (xs : List ℕ) (e : ℕ) (ys : List ℕ) (b : ℕ)
    → Fwd f a (xs ++ e ∷ ys) b
    → f e ≡ head_or ys b
Fwd-after f a [] e [] b w = w.1
Fwd-after f a [] e (y ∷ ys) b w = w.1.0
Fwd-after f a (x ∷ xs) e ys b w = Fwd-after f x xs e ys b w.1

pub Fwd-last : (f : ℕ → ℕ) (a : ℕ) (xs : List ℕ) (b : ℕ) → Fwd f a xs b → f (last_or a xs) ≡ b
Fwd-last f a [] b w = w
Fwd-last f a (x ∷ xs) b w = Fwd-last f x xs b w.1
