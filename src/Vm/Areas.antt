-- ===== src/Vm/Areas.antt =====
-- The list of areas: sorted and disjoint, with the area found last among them.
use os.Base.{
  ℕ, ◌≤◌, ◌<◌, ◌≡◌, refl, ap, sym, ◌∙◌, ◌⊎◌, inl, inr, List, [], ◌∷◌, Option, none, some, arith,
  true, if◌then◌else◌, Bool-cases,
}
use mathlib.Core.Path.{subst}
use os.Vm.{Vma, Mm, inside, search_vma, find_vma}

-- Areas of at least one byte, from `lo` up, none reaching into the next.
abbrev pub Apart : ℕ → List Vma → Type 0
Apart lo [] = Unit
Apart lo (v ∷ vs) = (lo ≤ v.start) × (v.start < v.end) × Apart v.end vs

abbrev pub Among : Vma → List Vma → Type 0
Among v [] = ⊥
Among v (w ∷ ws) = (v ≡ w) ⊎ Among v ws

abbrev pub IsCached : Option Vma → List Vma → Type 0
IsCached none vs = Unit
IsCached (some v) vs = Among v vs

pub record IsMm (mm : Mm) : Type 0 where
  pub apart : Apart 0 mm.mmap
  pub cached : IsCached mm.cache mm.mmap

low : (lo : ℕ) (v : Vma) (vs : List Vma) → Apart lo vs → Among v vs → lo ≤ v.start
low lo v [] a q = absurd q
low lo v (w ∷ ws) a (inl e) = subst (λ u. lo ≤ u.start) (sym e) a.0
low lo v (w ∷ ws) a (inr q) = omega (arith, low w.end v ws a.2 q, a.0, a.1)

-- An address lies in one area at most.
pub search_vma_unique :
    (lo addr : ℕ) (v : Vma) (vs : List Vma)
    → Apart lo vs
    → Among v vs
    → inside addr v ≡ true
    → search_vma addr vs ≡ some v
unfolding search_vma
search_vma_unique lo addr v [] a q h = absurd q
search_vma_unique lo addr v (w ∷ ws) a (inl e) h =
    rw (sym (ap (inside addr) e) ∙ h) (ap some (sym e))
search_vma_unique lo addr v (w ∷ ws) a (inr q) h =
    let above = low w.end v ws a.2 q in
    ground (arith, above, h, search_vma_unique w.end addr v ws a.2 q h)

pub search_vma-Among :
    (addr : ℕ) (vs : List Vma) (v : Vma)
    → search_vma addr vs ≡ some v
    → Among v vs × (inside addr v ≡ true)
unfolding search_vma
search_vma-Among addr [] v e = absurd (cc)
search_vma-Among addr (w ∷ ws) v e = elim (Bool-cases (inside addr w)) [
  | inl hit ↦ ground (arith, hit, e)
  | inr miss ↦ ground (arith, miss, e, search_vma-Among addr ws v)
]

module _ {mm : Mm} (h : IsMm mm) (addr : ℕ) where
  -- On a well-formed address space, `find_vma`, which tries the area found last first, gives the
  -- area that a search through all areas gives.
  pub find_vma-eq-search : (find_vma addr mm).0 ≡ search_vma addr mm.mmap
  unfolding find_vma
  find_vma-eq-search = by_cache mm.cache h.cached
    where
      by_cache :
          (c : Option Vma)
          → IsCached c mm.mmap
          → (elim c [
            | none ↦ search_vma addr mm.mmap
            | some v ↦ if inside addr v then some v else search_vma addr mm.mmap
          ])
            ≡ search_vma addr mm.mmap
      by_cache none q = refl
      by_cache (some v) q = elim (Bool-cases (inside addr v)) [
        | inl hit ↦ rw hit (sym (search_vma_unique 0 addr v mm.mmap h.apart q hit))
        | inr miss ↦ rw miss refl
      ]

  -- The space that `find_vma` leaves is well-formed again, whatever it caches.
  pub find_vma-IsMm : IsMm (find_vma addr mm).1
  unfolding find_vma
  find_vma-IsMm = record { apart = h.apart; cached = by_cache mm.cache h.cached }
    where
      kept :
          (c o : Option Vma)
          → IsCached c mm.mmap
          → ((v : Vma) → o ≡ some v → Among v mm.mmap)
          → IsCached (elim o [ none ↦ c | some v ↦ some v ]) mm.mmap
      kept c none q f = q
      kept c (some v) q f = f v refl

      by_cache :
          (c : Option Vma)
          → IsCached c mm.mmap
          → IsCached
              (elim (elim c as (λ x. Option Vma) [
                | none ↦ search_vma addr mm.mmap
                | some v ↦ if inside addr v then some v else search_vma addr mm.mmap
              ]) [ none ↦ c | some v ↦ some v ])
              mm.mmap
      by_cache none q =
          kept none (search_vma addr mm.mmap) q (λ v e. (search_vma-Among addr mm.mmap v e).0)
      by_cache (some v) q = elim (Bool-cases (inside addr v)) [
        | inl hit ↦ rw hit q
        | inr miss ↦ rw miss (
            kept (some v) (search_vma addr mm.mmap) q
              (λ u e. (search_vma-Among addr mm.mmap u e).0))
      ]
