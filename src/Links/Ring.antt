-- ===== src/Links/Ring.antt =====
-- The operations of list.h on a well-formed ring act as the operations on the list of its entries.
use os.Base.{ℕ, ◌≡◌, refl, sym, ◌≢◌, List, [], ◌∷◌, ◌++◌, arith, true, ◌↔◌}
use os.Links.{
  Links, list_init, add_between, del_between, list_add, list_add_after, list_add_before, list_del,
  list_del_init, list_empty,
}
use os.Links.Chain.{
  NotIn, Distinct, Fwd, Bwd, last_or, head_or, Fwd-insert, Bwd-insert, Fwd-delete, Bwd-delete,
  Fwd-gap, Bwd-gap, Distinct-insert, Distinct-delete, NotIn-insert, Fwd-store, Bwd-store, Fwd-after,
}

-- The entries of the ring at the head `h`, in the order of the `next` pointers; the `prev` pointers
-- lead back the same way, and no entry stands twice.
pub record IsRing (l : Links) (h : ℕ) (xs : List ℕ) : Type 0 where
  pub forward : Fwd l.next h xs h
  pub backward : Bwd l.prev h xs h
  pub distinct : Distinct (h ∷ xs)

pub list_init-IsRing : (h : ℕ) (l : Links) → IsRing (list_init h l) h []
unfolding list_init
list_init-IsRing h l = record {
  forward = ground arith;
  backward = ground arith;
  distinct = (tt, tt);
}

pub list_empty-IsRing :
    {l : Links} {h : ℕ} {xs : List ℕ} → IsRing l h xs → (list_empty h l ≡ true) ↔ (xs ≡ [])
unfolding list_empty
list_empty-IsRing {l} {h} {xs = []} r = (λ _. refl, λ _. ground (arith, r.forward))
list_empty-IsRing {l} {h} {xs = x ∷ xs} r =
    (λ e. absurd (r.distinct.0.0 (ground (arith, r.forward))), λ e. cc)

-- The gap behind `xs` and before `ys`: the entries on both sides point at one another.
pub next_gap :
    {l : Links} {h : ℕ} (xs ys : List ℕ)
    → IsRing l h (xs ++ ys)
    → l.next (last_or h xs) ≡ head_or ys h
next_gap {l} {h} xs ys r = Fwd-gap l.next h xs ys h r.forward

pub prev_gap :
    {l : Links} {h : ℕ} (xs ys : List ℕ)
    → IsRing l h (xs ++ ys)
    → l.prev (head_or ys h) ≡ last_or h xs
prev_gap {l} {h} xs ys r = Bwd-gap l.prev h xs ys h r.backward

add_between-IsRing :
    {l : Links} {h : ℕ} (e : ℕ) (xs ys : List ℕ)
    → e ≢ h
    → NotIn e (xs ++ ys)
    → IsRing l h (xs ++ ys)
    → IsRing (add_between e (last_or h xs) (head_or ys h) l) h (xs ++ e ∷ ys)
unfolding add_between
add_between-IsRing {l} {h} e xs ys ne new r = record {
  forward = Fwd-insert l.next e h xs ys h r.distinct ne new r.forward;
  backward = Bwd-insert l.prev e h xs ys h r.distinct.1 r.distinct.0 new ne r.backward;
  distinct = (
    NotIn-insert h xs e ys r.distinct.0 (λ q. ne (sym q)),
    Distinct-insert xs e ys r.distinct.1 new,
  );
}

-- In a well-formed ring that holds xs and ys, a new entry that is not the head, added after the
-- last of xs (after the head where xs is empty), stands between xs and ys, and the ring is
-- well-formed.
pub list_add_after-IsRing :
    {l : Links} {h : ℕ} (e : ℕ) (xs ys : List ℕ)
    → e ≢ h
    → NotIn e (xs ++ ys)
    → IsRing l h (xs ++ ys)
    → IsRing (list_add_after (last_or h xs) e l) h (xs ++ e ∷ ys)
unfolding list_add_after
list_add_after-IsRing {l} {h} e xs ys ne new r =
    rw (next_gap xs ys r) (add_between-IsRing e xs ys ne new r)

-- In a well-formed ring that holds xs and ys, a new entry that is not the head, added before the
-- first of ys (before the head where ys is empty), stands between xs and ys, and the ring is
-- well-formed.
pub list_add_before-IsRing :
    {l : Links} {h : ℕ} (e : ℕ) (xs ys : List ℕ)
    → e ≢ h
    → NotIn e (xs ++ ys)
    → IsRing l h (xs ++ ys)
    → IsRing (list_add_before (head_or ys h) e l) h (xs ++ e ∷ ys)
unfolding list_add_before
list_add_before-IsRing {l} {h} e xs ys ne new r =
    rw (prev_gap xs ys r) (add_between-IsRing e xs ys ne new r)

pub list_add-IsRing :
    {l : Links} {h : ℕ} (e : ℕ) (xs ys : List ℕ)
    → e ≢ h
    → NotIn e (xs ++ ys)
    → IsRing l h (xs ++ ys)
    → IsRing (list_add (last_or h xs) e l) h (xs ++ e ∷ ys)
unfolding list_add
list_add-IsRing e xs ys ne new r = list_add_after-IsRing e xs ys ne new r

-- Deletion of any entry.
pub list_del-IsRing :
    {l : Links} {h : ℕ} (xs : List ℕ) (e : ℕ) (ys : List ℕ)
    → IsRing l h (xs ++ e ∷ ys)
    → IsRing (list_del e l) h (xs ++ ys)
unfolding list_del del_between
list_del-IsRing {l} {h} xs e ys r =
    let cut = Distinct-delete xs e ys r.distinct.1 in
    let apart = Distinct-delete (h ∷ xs) e ys r.distinct in
    let before = Bwd-gap l.prev h xs (e ∷ ys) h r.backward in
    let after = Fwd-after l.next h xs e ys h r.forward in
    rw (before, after)
      (record {
        forward = Fwd-delete l.next h xs e ys h r.distinct r.forward;
        backward = Bwd-delete l.prev h xs e ys h r.distinct.1 r.distinct.0 r.backward;
        distinct = apart.0;
      })

-- Deletion by `list_del_init` of any entry of a well-formed ring leaves the others in their order
-- in a well-formed ring, and the entry as the head of an empty one.
pub list_del_init-IsRing :
    {l : Links} {h : ℕ} (xs : List ℕ) (e : ℕ) (ys : List ℕ)
    → IsRing l h (xs ++ e ∷ ys)
    → IsRing (list_del_init e l) h (xs ++ ys) × IsRing (list_del_init e l) e []
unfolding list_del_init list_init
list_del_init-IsRing {l} {h} xs e ys r =
    let cut = list_del-IsRing xs e ys r in
    let gone = (Distinct-delete (h ∷ xs) e ys r.distinct).1 in
    (
      record {
        forward = Fwd-store (list_del e l).next e e h (xs ++ ys) h gone.0 gone.1 cut.forward;
        backward = Bwd-store (list_del e l).prev e e h (xs ++ ys) h gone.1 gone.0 cut.backward;
        distinct = cut.distinct;
      },
      list_init-IsRing e (list_del e l),
    )

-- Inserting before an entry is inserting behind the one before it.
pub list_add_before-eq-after :
    {l : Links} {h : ℕ} (e : ℕ) (xs ys : List ℕ)
    → IsRing l h (xs ++ ys)
    → list_add_before (head_or ys h) e l ≡ list_add_after (last_or h xs) e l
unfolding list_add_before list_add_after
list_add_before-eq-after e xs ys r = rw (next_gap xs ys r, prev_gap xs ys r) refl

-- An entry that points back at itself stands in no ring.
pub NotIn-of_prev_self :
    (f : ℕ → ℕ) (e a : ℕ) (xs : List ℕ) (b : ℕ)
    → f e ≡ e
    → Bwd f a xs b
    → Distinct (a ∷ xs)
    → NotIn e xs
NotIn-of_prev_self f e a [] b self w d = tt
NotIn-of_prev_self f e a (x ∷ xs) b self w d =
    (ground arith, NotIn-of_prev_self f e x xs b self w.1 d.1)

-- An entry that points on to itself stands in no ring.
pub NotIn-of_next_self :
    (f : ℕ → ℕ) (e a : ℕ) (xs : List ℕ) (b : ℕ)
    → f e ≡ e
    → Fwd f a xs b
    → NotIn b xs
    → Distinct xs
    → NotIn e xs
NotIn-of_next_self f e a [] b self w n d = tt
NotIn-of_next_self f e a (x ∷ []) b self w n d = (ground arith, tt)
NotIn-of_next_self f e a (x ∷ y ∷ xs) b self w n d =
    (ground arith, NotIn-of_next_self f e x (y ∷ xs) b self w.1 n.1 d.1)
