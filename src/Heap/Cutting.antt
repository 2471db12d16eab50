-- ===== src/Heap/Cutting.antt =====
-- `slob_alloc` (lab8/kern/mm/kmalloc.c): taking units from a block of the free list.
use os.Base.{
  ℕ, suc, ◌≤◌, ◌<◌, ◌≡◌, inl, inr, refl, sym, ap, List, [], ◌∷◌, ◌++◌, append_assoc, length, arith,
  true, false, Bool-cases, ◌==◌, ==_iff,
}
use mathlib.Core.Path.{subst}
use os.Links.{store}
use os.Links.Chain.{NotIn-left, NotIn-append, Fwd}
use os.Heap.{Heap, offset, take_units}
use os.Heap.Arena.{Seg, Seg-split, Seg-bounds, Seg-below, Seg-above, IsArena, Fwd-start}
use os.Heap.Free.{Adds}
use os.Heap.Freeing.{Apart}
use os.Heap.Beside.{
  dropped-Apart, length-dropped, length-replaced, length-fewer, length-alike, cut_own, cut-Apart,
}
use os.Heap.Taking.{
  rest, cut, cut_next, outside, drop-ordered, drop-Adds, cut-ordered, cut-Adds, cut-ring,
}

-- The free list as it lies in memory, passed through from `p`.
abbrev pub Turned : Heap → List ℕ → ℕ → Type 0
Turned h xs p = (lo : List ℕ) × (hi : List ℕ) × (lo ++ p ∷ hi ≡ xs) × Fwd h.next p (hi ++ lo) p

-- `k` has the bytes that `xs` had, but for the `n` units at `cur`, which were among them, and at most
-- one block less and none more; the block taken knows its size.
pub record Taken (u : ℕ → ℕ) (xs : List ℕ) (top cur n : ℕ) (k : Heap) : Type 0 where
  pub lo : List ℕ
  pub hi : List ℕ
  pub arena : IsArena k top lo k.slobfree hi
  pub bytes : Adds k.units (lo ++ k.slobfree ∷ hi) u xs cur n
  pub apart : Apart k.units (lo ++ k.slobfree ∷ hi) cur n
  pub own : k.units cur ≡ n
  pub kept : length xs ≤ suc (length (lo ++ k.slobfree ∷ hi))
  pub most : length (lo ++ k.slobfree ∷ hi) ≤ length xs

module _ (h : Heap) (top n cur : ℕ) (n_pos : 0 < n) (q : ℕ) where
  take_units-whole :
      (h.units cur == n) ≡ true
      → take_units n q cur h ≡ record h { next = store h.next q (h.next cur); slobfree = q }
  unfolding take_units
  take_units-whole e = rw (e) refl

  take_units-part :
      (h.units cur == n) ≡ false
      → take_units n q cur h ≡ record h {
        next = cut_next h top n cur n_pos q;
        units = cut h top n cur n_pos;
        slobfree = q;
      }
  unfolding take_units
  take_units-part e = rw (e) refl

  abbrev pub Takes : List ℕ → Type 0
  Takes xs = Taken h.units xs top cur n (take_units n q cur h)

  -- The block that follows `q` in memory.
  pub take_above :
      (lo hi : List ℕ)
      → Seg h.units 1 (lo ++ q ∷ cur ∷ hi) top
      → Fwd h.next q (cur ∷ hi ++ lo) q
      → n ≤ h.units cur
      → Takes (lo ++ q ∷ cur ∷ hi)
  take_above lo hi seg ring fits =
      let (m, left, (le, q_pos, (after, cur_pos, right))) =
        Seg-split h.units 1 lo (q ∷ cur ∷ hi) top seg in
      let out =
        NotIn-append q hi lo
          (Seg-below h.units (offset cur (h.units cur)) hi top q right (omega (arith, after)))
          (Seg-above h.units 1 lo m q left le) in
      let same = append_assoc lo (q ∷ []) (cur ∷ hi) in
      let seg' = subst (λ zs. Seg h.units 1 zs top) (sym same) seg in
      elim (Bool-cases (h.units cur == n)) [
        | inl all ↦
            let e = (==_iff (h.units cur) n).0 all in
            let same' = append_assoc lo (q ∷ []) hi in
            subst (Taken h.units (lo ++ q ∷ cur ∷ hi) top cur n) (sym (take_units-whole all))
              (record {
                lo = lo;
                hi = hi;
                arena = record {
                  ordered =
                      subst (λ zs. Seg h.units 1 zs top) same'
                        (drop-ordered h top n cur n_pos (lo ++ q ∷ []) hi seg');
                  ring = Fwd-start h.next cur q (hi ++ lo) q out ring.1;
                };
                bytes =
                    subst (λ zs. Adds h.units zs h.units (lo ++ q ∷ cur ∷ hi) cur n) same'
                      (subst (λ zs. Adds h.units ((lo ++ q ∷ []) ++ hi) h.units zs cur n) same
                        (subst
                          (Adds h.units ((lo ++ q ∷ []) ++ hi) h.units ((lo ++ q ∷ []) ++ cur ∷ hi)
                            cur)
                          e (drop-Adds h top n cur n_pos (lo ++ q ∷ []) hi)));
                apart =
                    subst (λ zs. Apart h.units zs cur n) same'
                      (subst (Apart h.units ((lo ++ q ∷ []) ++ hi) cur) e
                        (dropped-Apart h.units top (lo ++ q ∷ []) cur hi seg'));
                own = e;
                kept =
                    omega (
                      arith,
                      ap length same,
                      ap length same',
                      length-dropped (lo ++ q ∷ []) cur hi,
                    );
                most =
                    omega
                      (arith, ap length same, ap length same', length-fewer (lo ++ q ∷ []) cur hi);
              })
        | inr less ↦
            let more : n < h.units cur = ground (arith, less, fits) in
            let here = rest h top n cur n_pos in
            let same' = append_assoc lo (q ∷ []) (here ∷ hi) in
            let (_, out_lo, _, out_hi) = outside h top n cur n_pos more (lo ++ q ∷ []) hi seg' in
            subst (Taken h.units (lo ++ q ∷ cur ∷ hi) top cur n) (sym (take_units-part less))
              (record {
                lo = lo;
                hi = here ∷ hi;
                arena = record {
                  ordered =
                      subst (λ zs. Seg (cut h top n cur n_pos) 1 zs top) same'
                        (cut-ordered h top n cur n_pos more (lo ++ q ∷ []) hi seg');
                  ring =
                      cut-ring h top n cur n_pos q (hi ++ lo) (λ e. omega (arith, e, after))
                        (λ e. omega (arith, e, after)) out
                        (NotIn-append here hi lo out_hi (NotIn-left here lo (q ∷ []) out_lo)) ring;
                };
                bytes =
                    subst (λ zs. Adds (cut h top n cur n_pos) zs h.units (lo ++ q ∷ cur ∷ hi) cur n)
                      same'
                      (subst
                        (λ zs.
                          Adds (cut h top n cur n_pos) ((lo ++ q ∷ []) ++ here ∷ hi) h.units zs cur
                            n)
                        same (cut-Adds h top n cur n_pos more (lo ++ q ∷ []) hi seg'));
                apart =
                    subst (λ zs. Apart (cut h top n cur n_pos) zs cur n) same'
                      (cut-Apart h top n cur n_pos more (lo ++ q ∷ []) hi seg');
                own = cut_own h top n cur n_pos more;
                kept = omega (
                  arith,
                  ap length same,
                  ap length same',
                  length-replaced (lo ++ q ∷ []) cur here hi,
                );
                most = omega (
                  arith,
                  ap length same,
                  ap length same',
                  length-alike (lo ++ q ∷ []) cur here hi,
                );
              })
      ]

  -- The lowest block, to which the highest leads.
  pub take_lowest :
      (lo : List ℕ)
      → Seg h.units 1 (cur ∷ lo ++ q ∷ []) top
      → Fwd h.next q (cur ∷ lo) q
      → n ≤ h.units cur
      → Takes (cur ∷ lo ++ q ∷ [])
  take_lowest lo seg ring fits =
      let (m, left, (le, q_pos, end)) =
        Seg-split h.units (offset cur (h.units cur)) lo (q ∷ []) top seg.2 in
      let up = Seg-bounds h.units (offset cur (h.units cur)) lo m left in
      let out = Seg-above h.units (offset cur (h.units cur)) lo m q left le in
      elim (Bool-cases (h.units cur == n)) [
        | inl all ↦
            let e = (==_iff (h.units cur) n).0 all in
            subst (Taken h.units (cur ∷ lo ++ q ∷ []) top cur n) (sym (take_units-whole all))
              (record {
                lo = lo;
                hi = [];
                arena = record {
                  ordered = drop-ordered h top n cur n_pos [] (lo ++ q ∷ []) seg;
                  ring = Fwd-start h.next cur q lo q out ring.1;
                };
                bytes =
                    subst (Adds h.units (lo ++ q ∷ []) h.units (cur ∷ lo ++ q ∷ []) cur) e
                      (drop-Adds h top n cur n_pos [] (lo ++ q ∷ []));
                apart =
                    subst (Apart h.units (lo ++ q ∷ []) cur) e
                      (dropped-Apart h.units top [] cur (lo ++ q ∷ []) seg);
                own = e;
                kept = omega arith;
                most = omega arith;
              })
        | inr less ↦
            let more : n < h.units cur = ground (arith, less, fits) in
            let here = rest h top n cur n_pos in
            let (_, _, _, out_hi) = outside h top n cur n_pos more [] (lo ++ q ∷ []) seg in
            subst (Taken h.units (cur ∷ lo ++ q ∷ []) top cur n) (sym (take_units-part less))
              (record {
                lo = here ∷ lo;
                hi = [];
                arena = record {
                  ordered = cut-ordered h top n cur n_pos more [] (lo ++ q ∷ []) seg;
                  ring =
                      cut-ring h top n cur n_pos q lo (λ e. omega (arith, e, up, le, more))
                        (λ e. omega (arith, e, up, le, more)) out
                        (NotIn-left here lo (q ∷ []) out_hi) ring;
                };
                bytes = cut-Adds h top n cur n_pos more [] (lo ++ q ∷ []) seg;
                apart = cut-Apart h top n cur n_pos more [] (lo ++ q ∷ []) seg;
                own = cut_own h top n cur n_pos more;
                kept = omega arith;
                most = omega arith;
              })
      ]
