-- ===== src/Process/Table.antt =====
-- The table of processes (lab8/kern/process/proc.c): `find_proc` through the hash list, and what
-- `do_fork` enters into the tables.
use os.Base.{
  ℕ, zero, suc, ◌+◌, ◌-◌, ◌*◌, ◌<◌, ◌≡◌, ◌≢◌, refl, sym, ap, ◌∙◌, List, [], ◌∷◌, length, arith,
  Bool, true, false, Bool-cases, inl, inr, lt→ltb, ◌==◌, ==_ne, ==_refl, if◌then◌else◌, Option,
  some, none, map,
}
use mathlib.Core.Path.{subst}
use os.Links.{Links, store, list_add}
use os.Links.Chain.{NotIn, Fwd}
use os.Links.Ring.{IsRing, list_add-IsRing}
use os.Process.{
  Processes, max_pid, list_link, hash_link, find_from, find_proc, pid_hashfn, hash_proc, set_links,
  enter_proc,
}
use os.Process.Pid.{Free, IsNumbered, get_pid-Free}
use os.Process.Family.{IsFamily, set_links-IsFamily, store_self}

-- The first of some processes with a pid.
abbrev pub with_pid : (ℕ → ℕ) → ℕ → List ℕ → Option ℕ
with_pid pid q [] = none
with_pid pid q (p ∷ ps) = if pid p == q then some p else with_pid pid q ps

module _ (fuel list le pid : ℕ) (t : Processes) where
  -- What one round makes of the entry `x` that comes next, and of its process `p`.
  abbrev Round : ℕ → ℕ → Type 0
  Round x p =
      find_from (suc fuel) list le pid t
      ≡ (if t.pid p == pid then some (some p) else find_from fuel list x pid t)

  round : list ≢ t.hash_list.next le → Round (t.hash_list.next le) (t.hash_list.next le - 1024)
  unfolding find_from
  round ne =
      let more = ==_ne (t.hash_list.next le) list (λ e. ne (sym e)) in
      elim (Bool-cases (t.pid (t.hash_list.next le - 1024) == pid)) [
        | inl hit ↦ rw (find_from, more, hit) refl
        | inr miss ↦ rw (find_from, more, miss) refl
      ]

find_from-with_pid :
    (fuel list le pid : ℕ) (t : Processes) (ps : List ℕ)
    → Fwd t.hash_list.next le (map hash_link ps) list
    → NotIn list (map hash_link ps)
    → length ps < fuel
    → find_from fuel list le pid t ≡ some (with_pid t.pid pid ps)
unfolding find_from
find_from-with_pid zero list le pid t ps chain apart lt = absurd (omega arith)
find_from-with_pid (suc fuel) list le pid t [] chain apart lt =
    rw (find_from, chain, ==_refl list) refl
find_from-with_pid (suc fuel) list le pid t (p ∷ ps) (here, chain) (ne, apart) lt =
    let turn =
      subst (λ x. list ≢ x → Round fuel list le pid t x (x - 1024)) here (round fuel list le pid t)
        ne in
    let back : 1024 + p - 1024 ≡ p = omega arith in
    let rest = find_from-with_pid fuel list (hash_link p) pid t ps chain apart (omega arith) in
    subst (Round fuel list le pid t (hash_link p)) back turn ∙ rw rest (chosen (t.pid p == pid))
  where
    chosen :
        (b : Bool)
        → (if b then some (some p) else some (with_pid t.pid pid ps))
          ≡ some (if b then some p else with_pid t.pid pid ps)
    chosen true = refl
    chosen false = refl

-- `find_proc` gives the first process of the bucket that has the pid.
pub find_proc-with_pid :
    (fuel pid : ℕ) (t : Processes) (ps : List ℕ)
    → IsRing t.hash_list (pid_hashfn pid) (map hash_link ps)
    → 0 < pid
    → pid < max_pid
    → length ps < fuel
    → find_proc fuel pid t ≡ some (with_pid t.pid pid ps)
unfolding find_proc
find_proc-with_pid fuel pid t ps ring low high lt =
    rw (lt→ltb 0 pid low, lt→ltb pid max_pid high)
      (find_from-with_pid fuel (pid_hashfn pid) (pid_hashfn pid) pid t ps ring.forward
        ring.distinct.0 lt)

first_found :
    (k list pid : ℕ) (t : Processes) (p : ℕ)
    → t.hash_list.next list ≡ hash_link p
    → list ≢ hash_link p
    → t.pid p ≡ pid
    → find_from (suc k) list list pid t ≡ some (some p)
first_found k list pid t p here ne same =
    let turn =
      subst (λ x. list ≢ x → Round k list list pid t x (x - 1024)) here (round k list list pid t)
        ne in
    let back : 1024 + p - 1024 ≡ p = omega arith in
    let hit : (t.pid p == pid) ≡ true = ap (λ x. x == pid) same ∙ ==_refl pid in
    subst (Round k list list pid t (hash_link p)) back turn ∙ rw hit refl

pid_hashfn-lt : (q : ℕ) → pid_hashfn q < 1024
unfolding pid_hashfn
pid_hashfn-lt q = omega arith

NotIn-map :
    (f : ℕ → ℕ) (p : ℕ) (ps : List ℕ)
    → ((a b : ℕ) → f a ≡ f b → a ≡ b)
    → NotIn p ps
    → NotIn (f p) (map f ps)
NotIn-map f p [] inj n = tt
NotIn-map f p (x ∷ xs) inj (n, ns) = (λ e. n (inj p x e), NotIn-map f p xs inj ns)

front-IsRing :
    {l : Links} {h : ℕ} (e : ℕ) (xs : List ℕ)
    → e ≢ h
    → NotIn e xs
    → IsRing l h xs
    → IsRing (list_add h e l) h (e ∷ xs)
front-IsRing e xs ne new r = list_add-IsRing e [] xs ne new r

module _ (t : Processes) (proc f fuel : ℕ) (ps cs : List ℕ) (buckets : ℕ → List ℕ)
    (listed : IsRing t.proc_list 0 (map list_link ps)) (numbered : IsNumbered t (map list_link ps))
    (hashed : (b : ℕ) → b < 1024 → IsRing t.hash_list b (map hash_link (buckets b)))
    (new : NotIn proc ps) (unhashed : (b : ℕ) → NotIn proc (buckets b)) (low : 0 < f)
    (high : f < max_pid) (free : Free t.pid f (map list_link ps))
    (enough : max_pid * suc (length (map list_link ps)) + length (map list_link ps) < fuel)
    (there : proc ≢ 0) (family : IsFamily t (t.parent proc) cs) (child : NotIn proc cs) where
  -- What is entered, with the pid `q`.
  abbrev entered : ℕ → ℕ → Processes
  entered q safe =
      set_links proc
        (hash_proc proc (record t { last_pid = q; next_safe = safe; pid = store t.pid proc q }))

  entered-find_proc :
      (q safe k : ℕ) → 0 < q → q < max_pid → find_proc (suc k) q (entered q safe) ≡ some (some proc)
  unfolding find_proc set_links hash_proc
  entered-find_proc q safe k low high =
      let r = store t.pid proc q proc in
      let b = pid_hashfn r in
      let apart : hash_link proc ≢ b = λ e. omega (arith, pid_hashfn-lt r, e) in
      let ring =
        front-IsRing (hash_link proc) (map hash_link (buckets b)) apart
          (NotIn-map hash_link proc (buckets b) (λ x y e. omega arith) (unhashed b))
          (hashed b (pid_hashfn-lt r)) in
      rw (lt→ltb 0 q low, lt→ltb q max_pid high)
        (subst
          (λ x.
            find_from (suc k) (pid_hashfn x) (pid_hashfn x) x (entered q safe) ≡ some (some proc))
          (store_self t.pid proc q)
          (first_found k b r (entered q safe) proc ring.forward.0 (λ e. apart (sym e)) refl))

  entered-IsRing : (q safe : ℕ) → IsRing (entered q safe).proc_list 0 (map list_link (proc ∷ ps))
  unfolding set_links hash_proc
  entered-IsRing q safe =
      front-IsRing (list_link proc) (map list_link ps) (λ e. omega arith)
        (NotIn-map list_link proc ps (λ x y e. omega arith) new) listed

  entered-IsFamily : (q safe : ℕ) → IsFamily (entered q safe) (t.parent proc) (proc ∷ cs)
  unfolding hash_proc
  entered-IsFamily q safe =
      set_links-IsFamily
        {t = hash_proc proc (record t { last_pid = q; next_safe = safe; pid = store t.pid proc q })}
        proc cs there
        (record { first = family.first; chain = family.chain; parents = family.parents }) child

  -- Let `proc_list` be a well-formed ring of some processes that satisfies what `get_pid` relies
  -- on, let every bucket of the hash list be a well-formed ring, let the new process stand in none
  -- of these, and be no child of its parent yet, and let some pid be free. Given enough fuel, the
  -- part of `do_fork` that enters the process returns: its pid is that of no process in the list,
  -- `find_proc` of this pid gives the process at once, the process is the first of `proc_list`, and
  -- it is the youngest child of its parent.
  pub enter_proc-find_proc :
      (q : ℕ) × (t' : Processes) × (enter_proc fuel proc t ≡ some t')
      × Free t.pid q (map list_link ps)
      × (t'.pid proc ≡ q)
      × (find_proc 1 q t' ≡ some (some proc))
      × IsRing t'.proc_list 0 (map list_link (proc ∷ ps))
      × IsFamily t' (t.parent proc) (proc ∷ cs)
  unfolding enter_proc set_links hash_proc
  enter_proc-find_proc =
      let (q, safe, ran, pos, most, fresh, ok) =
        get_pid-Free t (map list_link ps) f fuel listed numbered low high free enough in
      (
        q,
        entered q safe,
        rw ran refl,
        fresh,
        store_self t.pid proc q,
        entered-find_proc q safe 0 pos most,
        entered-IsRing q safe,
        entered-IsFamily q safe,
      )
