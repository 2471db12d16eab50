-- ===== src/Process/Pid.antt =====
-- `get_pid` of lab8/kern/process/proc.c: the pid that it returns belongs to no process.
use os.Base.{
  ℕ, zero, suc, ◌+◌, ◌-◌, ◌*◌, ◌≤◌, ◌<◌, ◌≡◌, ◌≢◌, refl, sym, ◌∙◌, List, [], ◌∷◌, ◌++◌, length,
  arith, some, Option, ◌>>=◌, true, false, Bool-cases, inl, inr, ltb, leb, ◌==◌, ==_ne, ◌&&◌,
  if◌then◌else◌, append_assoc, append-nil,
}
use mathlib.Core.Path.{subst}
use os.Links.{Links}
use os.Links.Chain.{NotIn, Fwd}
use os.Links.Ring.{IsRing}
use os.Process.{Processes, max_pid, scan_pids, get_pid}

-- `last` is the pid of none of the entries, and none has a pid between it and `safe`.
abbrev pub Clear : (ℕ → ℕ) → ℕ → ℕ → List ℕ → Type 0
Clear pid last safe [] = Unit
Clear pid last safe (x ∷ xs) =
    (pid (x - 1) ≢ last) × (last < pid (x - 1) → safe ≤ pid (x - 1)) × Clear pid last safe xs

-- A pid of none of the entries.
abbrev pub Free : (ℕ → ℕ) → ℕ → List ℕ → Type 0
Free pid f [] = Unit
Free pid f (x ∷ xs) = (pid (x - 1) ≢ f) × Free pid f xs

-- How often `last_pid` can grow before it comes to `f`.
abbrev distance : ℕ → ℕ → ℕ
distance f last = if leb last f then f - last else max_pid - last + f

nearer :
    (f last : ℕ) → last ≢ f → f < max_pid → last < max_pid → distance f (last + 1) < distance f last
nearer f last ne high most = ground arith

Clear-next :
    (pid : ℕ → ℕ) (last safe : ℕ) (xs : List ℕ)
    → last + 1 < safe
    → Clear pid last safe xs
    → Clear pid (last + 1) safe xs
Clear-next pid last safe [] lt c = tt
Clear-next pid last safe (x ∷ xs) lt (a, b, c) = (
  λ e. absurd (omega (arith, b (omega arith))),
  λ q. b (omega arith),
  Clear-next pid last safe xs lt c,
)

Clear-lower :
    (pid : ℕ → ℕ) (last safe low : ℕ) (xs : List ℕ)
    → low ≤ safe
    → Clear pid last safe xs
    → Clear pid last low xs
Clear-lower pid last safe low [] le c = tt
Clear-lower pid last safe low (x ∷ xs) le (a, b, c) =
    (a, λ q. omega (arith, b q), Clear-lower pid last safe low xs le c)

Clear-append :
    (pid : ℕ → ℕ) (last safe : ℕ) (xs ys : List ℕ)
    → Clear pid last safe xs
    → Clear pid last safe ys
    → Clear pid last safe (xs ++ ys)
Clear-append pid last safe [] ys c d = d
Clear-append pid last safe (x ∷ xs) ys (a, b, c) d = (a, b, Clear-append pid last safe xs ys c d)

record IsPid (pid : ℕ → ℕ) (last safe : ℕ) (xs : List ℕ) : Type 0 where
  pub positive : 0 < last
  pub below : last < safe
  pub bounded : safe ≤ max_pid
  pub clear : Clear pid last safe xs

module _ (links : Links) (pid : ℕ → ℕ) (f : ℕ) (low : 0 < f) (high : f < max_pid) (xs : List ℕ)
    (free : Free pid f xs) (ring : Fwd links.next 0 xs 0) where
  abbrev Scans : ℕ → ℕ → ℕ → ℕ → Type 0
  Scans fuel le last safe =
      (last' : ℕ) × (safe' : ℕ) × (scan_pids fuel links pid le last safe ≡ some (last', safe'))
      × IsPid pid last' safe' xs

  step :
      (fuel le last safe fuel' le' last' safe' : ℕ)
      → scan_pids fuel links pid le last safe ≡ scan_pids fuel' links pid le' last' safe'
      → Scans fuel' le' last' safe'
      → Scans fuel le last safe
  step fuel le last safe fuel' le' last' safe' e (l, s, ran, ok) = (l, s, e ∙ ran, ok)

  scan_end :
      (fuel le last safe : ℕ)
      → links.next le ≡ 0
      → scan_pids (suc fuel) links pid le last safe ≡ some (last, safe)
  unfolding scan_pids
  scan_end fuel le last safe e = rw (scan_pids, e) refl

  module _ (fuel le last safe : ℕ) where
    -- What one round does with the entry `x` that comes next.
    abbrev Round : ℕ → Type 0
    Round x =
        x ≢ 0
        → ((pid (x - 1) == last) ≡ true
            → leb safe (last + 1) ≡ true
            → scan_pids (suc fuel) links pid le last safe
              ≡ scan_pids fuel links pid 0 (if leb max_pid (last + 1) then 1 else last + 1) max_pid)
          × ((pid (x - 1) == last) ≡ true
              → leb safe (last + 1) ≡ false
              → scan_pids (suc fuel) links pid le last safe
                ≡ scan_pids fuel links pid x (last + 1) safe)
          × ((pid (x - 1) == last) ≡ false
              → scan_pids (suc fuel) links pid le last safe
                ≡ scan_pids fuel links pid x last (
                    if ltb last (pid (x - 1)) && ltb (pid (x - 1)) safe then pid (x - 1) else safe))

    round : Round (links.next le)
    unfolding scan_pids
    round nonzero =
        let n = ==_ne (links.next le) 0 nonzero in
        (
          λ taken over. rw (scan_pids, n, taken, over) refl,
          λ taken room. rw (scan_pids, n, taken, room) refl,
          λ differs. rw (scan_pids, n, differs) refl,
        )

  -- One walk, from behind the entries `done` on; `again` is what a walk from the start comes to.
  walk :
      (fuel le last safe : ℕ) (done rest : List ℕ)
      → done ++ rest ≡ xs
      → Fwd links.next le rest 0
      → NotIn 0 rest
      → Free pid f rest
      → length rest < fuel
      → IsPid pid last safe done
      → ((k l : ℕ)
          → fuel ≤ k + suc (length rest)
          → 0 < l
          → l < max_pid
          → distance f l < distance f last
          → Scans k 0 l max_pid)
      → Scans fuel le last safe
  walk zero le last safe done rest split chain nz fr lt ok again = absurd (omega arith)
  walk (suc fuel) le last safe done [] split chain nz fr lt ok again = (
    last,
    safe,
    scan_end fuel le last safe chain,
    subst (IsPid pid last safe) (sym (append-nil done) ∙ split) ok,
  )
  walk (suc fuel) le last safe done (x ∷ rest) split (here, chain) (x_ne, nz) (other, fr) lt ok
        again =
      let turn =
        subst (Round fuel le last safe) here (round fuel le last safe) (λ e. x_ne (sym e)) in
      let split' : (done ++ x ∷ []) ++ rest ≡ xs = append_assoc done (x ∷ []) rest ∙ split in
      elim (Bool-cases (pid (x - 1) == last)) [
        | inl taken ↦
            let ne : last ≢ f = ground (arith, taken, other) in
            elim (Bool-cases (leb safe (last + 1))) [
              | inl over ↦ step _ _ _ _ _ _ _ _ (turn.0 taken over) (
                  again fuel (if leb max_pid (last + 1) then 1 else last + 1) (omega arith)
                    (ground arith) (ground (arith, ok.below, ok.bounded, over))
                    (ground (arith, ok.below, ok.bounded, ne, low, high)))
              | inr room ↦ step _ _ _ _ _ _ _ _ (turn.1 taken room) (
                  walk fuel x (last + 1) safe (done ++ x ∷ []) rest split' chain nz fr (omega arith)
                    (record {
                      positive = omega arith;
                      below = ground (arith, room);
                      bounded = ok.bounded;
                      clear =
                          Clear-append pid (last + 1) safe done (x ∷ [])
                            (Clear-next pid last safe done (ground (arith, room)) ok.clear)
                            (ground (arith, taken), λ q. absurd (ground (arith, taken, q)), tt);
                    })
                    (λ k l enough pos most less. again k l (omega (arith, enough)) pos most (
                      omega (
                        arith,
                        less,
                        nearer f last ne (omega (arith, high))
                            (omega (arith, ok.bounded, ok.below)),
                      ))))
            ]
        | inr differs ↦
            let safe' =
              if ltb last (pid (x - 1)) && ltb (pid (x - 1)) safe then pid (x - 1) else safe in
            step _ _ _ _ _ _ _ _ (turn.2 differs) (
              walk fuel x last safe' (done ++ x ∷ []) rest split' chain nz fr (omega arith)
                (record {
                  positive = ok.positive;
                  below = ground (arith, ok.below);
                  bounded = ground (arith, ok.bounded);
                  clear =
                      Clear-append pid last safe' done (x ∷ [])
                        (Clear-lower pid last safe safe' done (ground arith) ok.clear)
                        (ground (arith, differs), λ q. ground (arith, q), tt);
                })
                (λ k l enough pos most less. again k l (omega (arith, enough)) pos most less))
      ]

  scans :
      (d fuel l : ℕ)
      → NotIn 0 xs
      → distance f l ≤ d
      → d * suc (length xs) + length xs < fuel
      → 0 < l
      → l < max_pid
      → Scans fuel 0 l max_pid
  scans zero fuel l nz near enough pos most =
      walk fuel 0 l max_pid [] xs refl ring nz free (omega arith)
        (record { positive = pos; below = most; bounded = omega arith; clear = tt })
        (λ k l' left pos' most' less. absurd (omega (arith, near, less)))
  scans (suc d) fuel l nz near enough pos most =
      walk fuel 0 l max_pid [] xs refl ring nz free (grind arith)
        (record { positive = pos; below = most; bounded = omega arith; clear = tt })
        (λ k l' left pos' most' less.
          scans d k l' nz (omega (arith, less, near)) (grind (arith, left, enough)) pos' most')

-- What `get_pid` relies on: none of the entries has a pid strictly between the two variables.
abbrev pub Between : (ℕ → ℕ) → ℕ → ℕ → List ℕ → Type 0
Between pid last safe [] = Unit
Between pid last safe (x ∷ xs) =
    (last < pid (x - 1) → safe ≤ pid (x - 1)) × Between pid last safe xs

pub record IsNumbered (t : Processes) (xs : List ℕ) : Type 0 where
  pub last_bounded : t.last_pid ≤ max_pid
  pub safe_bounded : t.next_safe ≤ max_pid
  pub between : Between t.pid t.last_pid t.next_safe xs

Clear-Between :
    (pid : ℕ → ℕ) (last safe : ℕ) (xs : List ℕ)
    → Between pid last safe xs
    → last + 1 < safe
    → Clear pid (last + 1) safe xs
Clear-Between pid last safe [] b lt = tt
Clear-Between pid last safe (x ∷ xs) (b, bs) lt = (
  λ e. absurd (omega (arith, b (omega arith))),
  λ q. b (omega arith),
  Clear-Between pid last safe xs bs lt,
)

Between-Clear :
    (pid : ℕ → ℕ) (last safe : ℕ) (xs : List ℕ) → Clear pid last safe xs → Between pid last safe xs
Between-Clear pid last safe [] c = tt
Between-Clear pid last safe (x ∷ xs) (a, b, c) = (b, Between-Clear pid last safe xs c)

Free-Clear : (pid : ℕ → ℕ) (last safe : ℕ) (xs : List ℕ) → Clear pid last safe xs → Free pid last xs
Free-Clear pid last safe [] c = tt
Free-Clear pid last safe (x ∷ xs) (a, b, c) = (a, Free-Clear pid last safe xs c)

-- Let `proc_list` be a well-formed ring in which no process has a pid strictly between `last_pid`
-- and `next_safe`, both at most MAX_PID, and let some pid from 1 to MAX_PID - 1 be free. Given
-- MAX_PID walks through the list and one more, `get_pid` returns, for all its restarts: the pid is
-- from 1 to MAX_PID - 1 and belongs to no process, and the two variables are again as the next call
-- needs them.
pub get_pid-Free :
    (t : Processes) (xs : List ℕ) (f fuel : ℕ)
    → IsRing t.proc_list 0 xs
    → IsNumbered t xs
    → 0 < f
    → f < max_pid
    → Free t.pid f xs
    → max_pid * suc (length xs) + length xs < fuel
    → (p : ℕ) × (safe : ℕ) × (get_pid fuel t
        ≡ some (p, record t { last_pid = p; next_safe = safe }))
      × (0 < p)
      × (p < max_pid)
      × Free t.pid p xs
      × IsNumbered (record t { last_pid = p; next_safe = safe }) xs
unfolding get_pid
get_pid-Free t xs f fuel ring numbered low high free enough = elim (Bool-cases (leb max_pid last)) [
  | inl wraps ↦
      found (scan_pids fuel t.proc_list t.pid 0 1 max_pid) (rw (get_pid, wraps) refl)
        (from 1 (omega arith) (omega arith))
  | inr within ↦ elim (Bool-cases (leb t.next_safe last)) [
    | inl unsafe ↦
        found (scan_pids fuel t.proc_list t.pid 0 last max_pid) (rw (get_pid, within, unsafe) refl)
          (from last (omega arith) (ground (arith, within)))
    | inr safe ↦ found (some (last, t.next_safe)) (rw (get_pid, within, safe) refl) (
      last,
      t.next_safe,
      refl,
      record {
        positive = omega arith;
        below = ground (arith, safe);
        bounded = numbered.safe_bounded;
        clear =
            Clear-Between t.pid t.last_pid t.next_safe xs numbered.between (ground (arith, safe));
      },
    )
  ]
]
  where
    last : ℕ
    last = t.last_pid + 1

    from :
        (l : ℕ)
        → 0 < l
        → l < max_pid
        → Scans t.proc_list t.pid f low high xs free ring.forward fuel 0 l max_pid
    from l pos most =
        scans t.proc_list t.pid f low high xs free ring.forward max_pid fuel l ring.distinct.0
          (ground (arith, low, high)) enough pos most

    found :
        (r : Option (ℕ × ℕ))
        → get_pid fuel t ≡ (r >>= λ r. some (r.0, record t { last_pid = r.0; next_safe = r.1 }))
        → (p : ℕ) × (safe : ℕ) × (r ≡ some (p, safe)) × IsPid t.pid p safe xs
        → (p : ℕ) × (safe : ℕ) × (get_pid fuel t
            ≡ some (p, record t { last_pid = p; next_safe = safe }))
          × (0 < p)
          × (p < max_pid)
          × Free t.pid p xs
          × IsNumbered (record t { last_pid = p; next_safe = safe }) xs
    found r e (p, safe, ran, ok) = (
      p,
      safe,
      e ∙ rw ran refl,
      ok.positive,
      omega (arith, ok.below, ok.bounded),
      Free-Clear t.pid p safe xs ok.clear,
      record {
        last_bounded = omega (arith, ok.below, ok.bounded);
        safe_bounded = ok.bounded;
        between = Between-Clear t.pid p safe xs ok.clear;
      },
    )
