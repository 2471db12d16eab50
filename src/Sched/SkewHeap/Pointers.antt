-- ===== src/Sched/SkewHeap/Pointers.antt =====
-- lab8/libs/skew_heap.h on its pointers: an entry is its address, 0 for NULL.
use os.Base.{
  ℕ, zero, suc, ◌+◌, ◌<◌, ◌≡◌, ◌≢◌, refl, sym, ◌∙◌, arith, true, false, Option, none, some, ◌>>=◌,
  ◌==◌, if◌then◌else◌,
}
use mathlib.Core.Path.{subst}
use os.Links.{store}
use os.Sched.SkewHeap.{SkewHeap, null, node, Sign, is_minus_one}
use os.Sched.SkewHeap.Content.{count}

pub record Entries : Type 0 where
  pub parent : ℕ → ℕ
  pub left : ℕ → ℕ
  pub right : ℕ → ℕ

unfoldable pub skew_heap_init : ℕ → Entries → Entries
skew_heap_init a s = record {
  parent = store s.parent a 0;
  left = store s.left a 0;
  right = store s.right a 0;
}

-- `p->parent = a`, unless `p` is NULL.
unfoldable pub set_parent : ℕ → ℕ → Entries → Entries
set_parent p a s = if p == 0 then s else record s { parent = store s.parent p a }

-- The stores of a merge that keeps `a` at the top, with `l` the merge of the rest.
unfoldable pub hang : ℕ → ℕ → ℕ → Entries → Entries
hang a l r s = set_parent l a (record s { left = store s.left a l; right = store s.right a r })

module _ (comp : ℕ → ℕ → Sign) where
  unfoldable pub skew_heap_merge : ℕ → ℕ → ℕ → Entries → Option (ℕ × Entries)
  skew_heap_merge zero a b s = none
  skew_heap_merge (suc fuel) a b s = elim (a == 0) [
    | true ↦ some (b, s)
    | false ↦ elim (b == 0) [
      | true ↦ some (a, s)
      | false ↦ elim (is_minus_one (comp a b)) [
        | true ↦ skew_heap_merge fuel (s.right a) b s >>= λ m. some (a, hang a m.0 (s.left a) m.1)
        | false ↦ skew_heap_merge fuel a (s.right b) s >>= λ m. some (b, hang b m.0 (s.left b) m.1)
      ]
    ]
  ]

  unfoldable pub skew_heap_insert : ℕ → ℕ → ℕ → Entries → Option (ℕ × Entries)
  skew_heap_insert fuel a b s = skew_heap_merge fuel a b (skew_heap_init b s)

  -- What `skew_heap_remove` does once the subtrees of `b` are merged.
  unfoldable pub replace : ℕ → ℕ → ℕ → ℕ → Entries → ℕ × Entries
  replace a b p rep s =
      let t = set_parent rep p s in
      let linked =
        if t.left p == b
        then record t { left = store t.left p rep }
        else record t { right = store t.right p rep } in
      if p == 0 then (rep, t) else (a, linked)

  unfoldable pub skew_heap_remove : ℕ → ℕ → ℕ → Entries → Option (ℕ × Entries)
  skew_heap_remove fuel a b s =
      skew_heap_merge fuel (s.left b) (s.right b) s >>= λ m. some (replace a b (s.parent b) m.0 m.1)

-- The pointers at `p` form the tree `t`, with `q` as the parent of its root.
abbrev pub Holds : Entries → ℕ → ℕ → SkewHeap → Type 0
Holds s q p null = p ≡ 0
Holds s q p (node a l r) =
    (p ≡ a) × (a ≢ 0) × (s.parent a ≡ q) × Holds s a (s.left a) l × Holds s a (s.right a) r

-- The entry has the same pointers in both.
abbrev pub Same : Entries → Entries → ℕ → Type 0
Same s s' x = (s'.parent x ≡ s.parent x) × (s'.left x ≡ s.left x) × (s'.right x ≡ s.right x)

abbrev pub size : SkewHeap → ℕ
size null = 0
size (node a l r) = suc (size l + size r)

-- A tree stays where its entries keep their pointers.
pub Holds-same :
    (s s' : Entries) (q p : ℕ) (t : SkewHeap)
    → ((x : ℕ) → 0 < count x t → Same s s' x)
    → Holds s q p t
    → Holds s' q p t
Holds-same s s' q p null same h = h
Holds-same s s' q p (node a l r) same (at, ne, up, hl, hr) =
    let (e0, e1, e2) = same a (ground arith) in
    (
      at,
      ne,
      e0 ∙ up,
      subst (λ x. Holds s' a x l) (sym e1)
          (Holds-same s s' a (s.left a) l (λ x lt. same x (ground (arith, lt))) hl),
      subst (λ x. Holds s' a x r) (sym e2)
          (Holds-same s s' a (s.right a) r (λ x lt. same x (ground (arith, lt))) hr),
    )

-- NULL is no entry.
pub Holds-null : (s : Entries) (q p : ℕ) (t : SkewHeap) → Holds s q p t → count 0 t ≡ 0
Holds-null s q p null h = refl
Holds-null s q p (node a l r) (at, ne, up, hl, hr) =
    ground (arith, ne, Holds-null s a (s.left a) l hl, Holds-null s a (s.right a) r hr)
