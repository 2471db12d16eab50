-- ===== src/Vm/Insert.antt =====
-- `insert_vma_struct` of lab8/kern/mm/vmm.c on a sorted list of disjoint areas.
use os.Base.{
  ℕ, ◌+◌, ◌≤◌, ◌<◌, ◌≡◌, refl, ap, sym, ◌∙◌, inl, inr, List, [], ◌∷◌, Option, none, some, arith,
  Bool, true, false, ◌&&◌, ◌||◌, ltb, leb, if◌then◌else◌, Bool-cases, ◌>>=◌, ◌>>◌, check, lt→ltb,
}
use os.Vm.{Vma, Mm, search_vma, check_vma_overlap, check_prev, insert_behind, insert_vma_struct}
use os.Vm.Areas.{Apart, Among, IsCached, IsMm}

-- No area overlaps `v`.
abbrev pub clear : Vma → List Vma → Bool
clear v [] = true
clear v (w ∷ ws) = (leb v.end w.start || leb w.end v.start) && clear v ws

-- Insertion before the first area that starts later.
abbrev pub placed : Vma → List Vma → List Vma
placed v [] = v ∷ []
placed v (w ∷ ws) = if ltb v.start w.start then v ∷ w ∷ ws else w ∷ placed v ws

abbrev Below : Option Vma → ℕ → Type 0
Below none lo = Unit
Below (some p) lo = (p.start < p.end) × (p.end ≤ lo)

abbrev behind : Option Vma → Vma → Bool
behind none v = true
behind (some p) v = leb p.end v.start

clear-below : (v : Vma) (lo : ℕ) (vs : List Vma) → v.end ≤ lo → Apart lo vs → clear v vs ≡ true
clear-below v lo [] le a = refl
clear-below v lo (w ∷ ws) le a = ground (arith, clear-below v w.end ws (omega (arith, a)) a.2, a)

check_prev-eq :
    (p : Option Vma) (v : Vma) (lo : ℕ)
    → Below p lo
    → v.start < v.end
    → check_prev p v ≡ check (behind p v)
unfolding check_vma_overlap
check_prev-eq none v lo b lt = refl
check_prev-eq (some p) v lo b lt = ground (arith, b)

gather :
    {A : Type 0} (x y c : Bool) (z : A)
    → y ≡ c
    → (check x >> check y >> some z) ≡ (if x && c then some z else none)
gather true true c z e = rw (sym e) refl
gather true false c z e = rw (sym e) refl
gather false y c z e = refl

prefixed :
    (x : Bool) (w : Vma) (vs : List Vma)
    → ((if x then some vs else none) >>= λ us. some (w ∷ us)) ≡ (if x then some (w ∷ vs) else none)
prefixed true w vs = refl
prefixed false w vs = refl

behind-Below : (p : Option Vma) (v : Vma) (lo : ℕ) → Below p lo → lo ≤ v.start → behind p v ≡ true
behind-Below none v lo b le = refl
behind-Below (some p) v lo b le = ground (arith, b)

overlaps :
    (v w : Vma)
    → v.start < v.end
    → w.start < w.end
    → check_vma_overlap v w ≡ check (leb v.end w.start)
unfolding check_vma_overlap
overlaps v w lt a = ground arith

insert_behind-eq :
    (p : Option Vma) (v : Vma) (lo : ℕ) (vs : List Vma)
    → Below p lo
    → v.start < v.end
    → Apart lo vs
    → insert_behind v p vs ≡ (if behind p v && clear v vs then some (placed v vs) else none)
unfolding insert_behind
insert_behind-eq p v lo [] b lt a = rw (check_prev-eq p v lo b lt) (ground arith)
insert_behind-eq p v lo (w ∷ ws) b lt a = elim (Bool-cases (ltb v.start w.start)) [
  | inl first ↦
      rw (check_prev-eq p v lo b lt, first, overlaps v w lt a.1)
        (gather (behind p v) (leb v.end w.start) (clear v (w ∷ ws)) (v ∷ w ∷ ws)
          (elim (Bool-cases (leb v.end w.start)) [
            | inl le ↦ rw le (sym (clear-below v w.end ws (ground (arith, le, a)) a.2))
            | inr gt ↦ ground (arith, gt, first, a)
          ]))
  | inr later ↦
      rw (insert_behind-eq (some w) v w.end ws (a.1, omega arith) lt a.2, later)
        (prefixed (leb w.end v.start && clear v ws) w (placed v ws)
          ∙ ap (λ x. if x then some (w ∷ placed v ws) else none)
              (let le : w.start ≤ v.start = ground (arith, later) in
                rw (behind-Below p v lo b (omega (arith, a.0))) (ground (arith, le, lt))))
]

placed-Apart :
    (v : Vma) (lo : ℕ) (vs : List Vma)
    → lo ≤ v.start
    → v.start < v.end
    → Apart lo vs
    → clear v vs ≡ true
    → Apart lo (placed v vs)
placed-Apart v lo [] le lt a c = (le, lt, tt)
placed-Apart v lo (w ∷ ws) le lt a c = elim (Bool-cases (ltb v.start w.start)) [
  | inl first ↦ rw first (le, lt, (ground (arith, c, first, a), a.1, a.2))
  | inr later ↦
      rw later
        (a.0, a.1, placed-Apart v w.end ws (ground (arith, c, later, a)) lt a.2 (ground (arith, c)))
]

pub placed-Among : (v : Vma) (vs : List Vma) → Among v (placed v vs)
placed-Among v [] = inl refl
placed-Among v (w ∷ ws) = elim (Bool-cases (ltb v.start w.start)) [
  | inl first ↦ rw first (inl refl)
  | inr later ↦ rw later (inr (placed-Among v ws))
]

Among-placed : (u v : Vma) (vs : List Vma) → Among u vs → Among u (placed v vs)
Among-placed u v [] q = absurd q
Among-placed u v (w ∷ ws) q = elim (Bool-cases (ltb v.start w.start)) [
  | inl first ↦ rw first (inr q)
  | inr later ↦ rw later (elim q [ inl e ↦ inl e | inr r ↦ inr (Among-placed u v ws r) ])
]

pub search_vma-clear :
    (v : Vma) (vs : List Vma) → v.start < v.end → clear v vs ≡ true → search_vma v.start vs ≡ none
unfolding search_vma
search_vma-clear v [] lt c = refl
search_vma-clear v (w ∷ ws) lt c = ground (arith, c, search_vma-clear v ws lt)

abbrev pub inserted : Vma → Mm → Mm
inserted v mm = record mm { mmap = placed v mm.mmap; map_count = mm.map_count + 1 }

-- On a well-formed address space, `insert_vma_struct` of an area of at least one byte puts it
-- before the first area that starts later and counts it, if no area overlaps it, and fails an
-- assertion otherwise.
pub insert_vma_struct-eq :
    {mm : Mm} (v : Vma)
    → IsMm mm
    → v.start < v.end
    → insert_vma_struct v mm ≡ (if clear v mm.mmap then some (inserted v mm) else none)
unfolding insert_vma_struct
insert_vma_struct-eq {mm} v h lt =
    rw (lt→ltb v.start v.end lt, insert_behind-eq none v 0 mm.mmap tt lt h.apart)
      (settle (clear v mm.mmap) (placed v mm.mmap))
  where
    settle :
        (x : Bool) (vs : List Vma)
        → ((if x then some vs else none) >>= λ us.
            some (record mm { mmap = us; map_count = mm.map_count + 1 }))
          ≡ (if x then some (record mm { mmap = vs; map_count = mm.map_count + 1 }) else none)
    settle true vs = refl
    settle false vs = refl

pub inserted-IsMm :
    {mm : Mm} (v : Vma) → IsMm mm → v.start < v.end → clear v mm.mmap ≡ true → IsMm (inserted v mm)
inserted-IsMm {mm} v h lt c = record {
  apart = placed-Apart v 0 mm.mmap (omega arith) lt h.apart c;
  cached = kept mm.cache h.cached;
}
  where
    kept : (o : Option Vma) → IsCached o mm.mmap → IsCached o (placed v mm.mmap)
    kept none q = tt
    kept (some u) q = Among-placed u v mm.mmap q
