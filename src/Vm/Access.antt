-- ===== src/Vm/Access.antt =====
-- `user_mem_check` returns, and grants only ranges whose every address lies in an area with the
-- right flag.
use os.Base.{
  ℕ, zero, suc, ◌+◌, ◌-◌, ◌≤◌, ◌<◌, ◌≡◌, refl, sym, ◌∙◌, inl, inr, List, Option, none, some, arith,
  Bool, true, false, not, ◌&&◌, ltb, if◌then◌else◌, Bool-cases,
}
use mathlib.Core.Path.{subst}
use os.Vm.{
  Vma, Mm, inside, search_vma, find_vma, has, permits, check_areas, user_mem_check, user_access,
  word,
}
use os.Vm.Areas.{
  Among, IsMm, find_vma-eq-search, find_vma-IsMm, search_vma_unique, search_vma-Among,
}

-- The address lies in an area that may be read, or written.
abbrev pub Granted : Bool → List Vma → ℕ → Type 0
Granted write vs q =
    (v : Vma) × (search_vma q vs ≡ some v) × (has (if write then 2 else 1) v.flags ≡ true)

abbrev pub AllGranted : Bool → List Vma → ℕ → ℕ → Type 0
AllGranted write vs start end = (q : ℕ) → start ≤ q → q < end → Granted write vs q

abbrev pub Answers : Bool → ℕ → ℕ → Mm → Option (Bool × Mm) → Type 0
Answers write start end mm r =
    (b : Bool) × (t : Mm) × (r ≡ some (b, t))
    × IsMm t
    × (t.mmap ≡ mm.mmap)
    × (b ≡ true → AllGranted write mm.mmap start end)

find_vma-mmap : (addr : ℕ) (mm : Mm) → (find_vma addr mm).1.mmap ≡ mm.mmap
unfolding find_vma
find_vma-mmap addr mm = refl

permits-has :
    (write : Bool) (start : ℕ) (v : Vma)
    → permits write start v ≡ true
    → has (if write then 2 else 1) v.flags ≡ true
permits-has write start v h =
    both (not (ltb start v.start)) (has (if write then 2 else 1) v.flags) _ h
  where
    both : (a b c : Bool) → (a && b && c) ≡ true → b ≡ true
    both true true c e = refl
    both true false c e = cc
    both false b c e = cc

-- One round, given the rounds after it.
module _ {mm : Mm} (h : IsMm mm) (fuel : ℕ) (write : Bool) (start end : ℕ)
    (further : (v : Vma)
      → start < v.end
      → Answers write v.end end
          (find_vma start mm).1
          (check_areas fuel write v.end end (find_vma start mm).1)) where
  entered : (v : Vma) → (find_vma start mm).0 ≡ some v → Among v mm.mmap × (inside start v ≡ true)
  entered v e = search_vma-Among start mm.mmap v (sym (find_vma-eq-search h start) ∙ e)

  granted_here :
      (v : Vma)
      → (find_vma start mm).0 ≡ some v
      → permits write start v ≡ true
      → AllGranted write (find_vma start mm).1.mmap v.end end
      → AllGranted write mm.mmap start end
  granted_here v e allowed rest q lo hi =
      let hit = entered v e in
      elim (Bool-cases (ltb q v.end)) [
        | inl low ↦ (
          v,
          search_vma_unique 0 q v mm.mmap h.apart hit.0 (ground (arith, hit.1, low)),
          permits-has write start v allowed,
        )
        | inr high ↦
            subst (λ vs. Granted write vs q) (find_vma-mmap start mm)
              (rest q (ground (arith, high)) hi)
      ]

  round :
      (o : Option Vma)
      → (find_vma start mm).0 ≡ o
      → Answers write start end mm (elim o [
        | none ↦ some (false, (find_vma start mm).1)
        | some v ↦ elim (permits write start v) [
          | false ↦ some (false, (find_vma start mm).1)
          | true ↦ check_areas fuel write v.end end (find_vma start mm).1
        ]
      ])
  round none e =
      (false, (find_vma start mm).1, refl, find_vma-IsMm h start, find_vma-mmap start mm, λ x. cc)
  round (some v) e = elim (Bool-cases (permits write start v)) [
    | inr refused ↦
        rw refused (
          false,
          (find_vma start mm).1,
          refl,
          find_vma-IsMm h start,
          find_vma-mmap start mm,
          λ x. cc,
        )
    | inl allowed ↦
        let (b, u, ran, valid, same, granted) = further v (ground (arith, (entered v e).1)) in
        rw allowed (
          b,
          u,
          ran,
          valid,
          same ∙ find_vma-mmap start mm,
          λ yes. granted_here v e allowed (granted yes),
        )
  ]

check_areas-Answers :
    (fuel : ℕ) (write : Bool) (start end : ℕ) (mm : Mm)
    → IsMm mm
    → end - start < fuel
    → Answers write start end mm (check_areas fuel write start end mm)
unfolding check_areas
check_areas-Answers zero write start end mm h lt = absurd (omega arith)
check_areas-Answers (suc fuel) write start end mm h lt = elim (Bool-cases (ltb start end)) [
  | inr done ↦
      rw (check_areas, done) (true, mm, refl, h, refl, λ _ q lo hi. absurd (ground (arith, done)))
  | inl more ↦
      rw (check_areas, more)
        (round h fuel write start end
          (λ v lt'.
            check_areas-Answers fuel write v.end end (find_vma start mm).1 (find_vma-IsMm h start)
              (ground (arith, lt', more, lt)))
          (find_vma start mm).0 refl)
]

-- On a well-formed address space `user_mem_check` returns, and leaves the space well-formed. Where
-- the answer is yes, every address from the first up to the end of the range, taken modulo 2^64,
-- lies in an area whose flags allow reading, or writing where that was asked.
pub user_mem_check-AllGranted :
    {mm : Mm} (addr len : ℕ) (write : Bool)
    → IsMm mm
    → (b : Bool) × (t : Mm) × (user_mem_check (some mm) addr len write ≡ some (b, some t))
      × IsMm t
      × (b ≡ true → AllGranted write mm.mmap addr (word (addr + len)))
unfolding user_mem_check
user_mem_check-AllGranted {mm} addr len write h =
    elim (Bool-cases (user_access addr (word (addr + len)))) [
      | inr outside ↦ (false, mm, rw outside refl, h, λ x. cc)
      | inl user ↦
          let (b, t, ran, valid, _, granted) =
            check_areas-Answers (suc (word (addr + len) - addr)) write addr (word (addr + len)) mm h
              (omega arith) in
          (b, t, rw (user, ran) refl, valid, granted)
    ]
