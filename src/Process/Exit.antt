-- ===== src/Process/Exit.antt =====
-- `do_exit` of lab8/kern/process/proc.c: the children go to `initproc`.
use os.Base.{
  ℕ, zero, suc, ◌≡◌, ◌≢◌, ◌<◌, refl, sym, ap, ◌∙◌, List, [], ◌∷◌, length, arith, true, false, Bool,
  Bool-cases, inl, inr, ◌==◌, ==_ne, ==_iff, if◌then◌else◌, ◌&&◌, ◌||◌, some,
}
use mathlib.Core.List.{reverse_aux}
use mathlib.Core.Path.{subst}
use os.Links.{store}
use os.Links.Chain.{head_or}
use os.Sched.Queue.{Sys, SchedClass, is_zombie}
use os.Sched.Core.{wakeup_proc}
use os.Process.{Processes, store_unless_null, give_children, tell_parent, do_exit, wt_child}
use os.Process.Family.{
  Siblings, AllOf, IsFamily, Agree-store, AllOf-Agree, AllOf-apart, Siblings-front, Siblings-others,
  head-NotIn, Siblings-NotIn, store_self, store_ne,
}

-- `cs` are left of the children of `current`; `yptr` of the first is of no account.
record IsGiving (t : Processes) (current : ℕ) (cs ds : List ℕ) : Type 0 where
  pub prev : ℕ
  pub first : t.cptr current ≡ head_or cs 0
  pub chain : Siblings t.yptr t.optr prev cs
  pub parents : AllOf t.parent current cs
  pub taken : IsFamily t t.initproc ds

-- What one round of the loop does to the family.
abbrev given : ℕ → Processes → Processes
given current t =
    let proc = t.cptr current in
    let init = t.initproc in
    let cptr = store t.cptr current (t.optr proc) in
    let older = cptr init in
    record t {
      yptr = store_unless_null (store t.yptr proc 0) older proc;
      optr = store t.optr proc older;
      parent = store t.parent proc init;
      cptr = store cptr init proc;
    }

-- The same with the values at hand.
abbrev handed : ℕ → ℕ → Processes → ℕ → ℕ → Processes
handed current c t next older = record t {
  yptr = store_unless_null (store t.yptr c 0) older c;
  optr = store t.optr c older;
  parent = store t.parent c t.initproc;
  cptr = store (store t.cptr current next) t.initproc c;
}

given-eq :
    (t : Processes) (current c next older : ℕ)
    → t.cptr current ≡ c
    → t.optr c ≡ next
    → current ≢ t.initproc
    → t.cptr t.initproc ≡ older
    → given current t ≡ handed current c t next older
given-eq t current c next older first ol ne taken =
    ap (λ x. handed current x t (t.optr x) (store t.cptr current (t.optr x) t.initproc)) first
    ∙ ap (λ n. handed current c t n (store t.cptr current n t.initproc)) ol
    ∙ ap (handed current c t next) (store_ne t.cptr current next t.initproc ne ∙ taken)

given-IsGiving :
    (t : Processes) (current c : ℕ) (cs ds : List ℕ)
    → current ≢ t.initproc
    → IsGiving t current (c ∷ cs) ds
    → IsGiving (given current t) current cs (c ∷ ds)
given-IsGiving t current c cs ds ne h =
    let (c_ne, yo, ol, new, chain) = h.chain in
    let init = t.initproc in
    let older = head_or ds 0 in
    let fresh = AllOf-apart t.parent current init c ds h.taken.parents h.parents.0 ne in
    let other =
      head-NotIn t.parent init current ds cs h.taken.parents h.parents.1 (λ e. ne (sym e))
        (Siblings-NotIn t.yptr t.optr c cs chain) in
    subst (λ u. IsGiving u current cs (c ∷ ds))
      (sym (given-eq t current c (head_or cs 0) older h.first ol ne h.taken.first))
      (record {
        prev = c;
        first =
            store_ne (store t.cptr current (head_or cs 0)) init c current (λ e. ne (sym e))
            ∙ store_self t.cptr current (head_or cs 0);
        chain = Siblings-others t.yptr t.optr c c older cs new other chain;
        parents =
            AllOf-Agree t.parent (store t.parent c init) current cs
              (Agree-store t.parent c init cs new) h.parents.1;
        taken = record {
          first = store_self (store t.cptr current (head_or cs 0)) init c;
          chain = Siblings-front t.yptr t.optr 0 c ds c_ne fresh h.taken.chain;
          parents = (
            store_self t.parent c init,
            AllOf-Agree t.parent (store t.parent c init) init ds
                (Agree-store t.parent c init ds fresh) h.taken.parents,
          );
        };
      })

rescheduled :
    {t : Processes} {current : ℕ} {cs ds : List ℕ} (s : Sys)
    → IsGiving t current cs ds
    → IsGiving (record t { sys = s }) current cs ds
rescheduled s h = record {
  prev = h.prev;
  first = h.first;
  chain = h.chain;
  parents = h.parents;
  taken = record { first = h.taken.first; chain = h.taken.chain; parents = h.taken.parents };
}

and_true : (b : Bool) → b ≡ (b && true)
and_true true = refl
and_true false = refl

and_false : (b : Bool) → false ≡ (b && false)
and_false true = refl
and_false false = refl

-- Whether one of the processes is a zombie.
abbrev pub any_zombie : Sys → List ℕ → Bool
any_zombie s [] = false
any_zombie s (c ∷ cs) = is_zombie (s.procs c).state || any_zombie s cs

module _ (cls : SchedClass) (current : ℕ) where
  -- The loop ends with `ds` and what it gave to `initproc`, and in the state `s` of the scheduler.
  abbrev Gives : ℕ → Processes → List ℕ → Sys → Type 0
  Gives fuel t ds s =
      (t' : Processes) × (give_children cls fuel current t ≡ some t')
      × IsFamily t' current []
      × IsFamily t' t'.initproc ds
      × (t'.sys ≡ s)

  ends :
      (fuel : ℕ) (t : Processes) (ds : List ℕ)
      → IsGiving t current [] ds
      → Gives (suc fuel) t ds t.sys
  unfolding give_children
  ends fuel t ds h = (
    t,
    rw (give_children, h.first) refl,
    record { first = h.first; chain = tt; parents = tt },
    h.taken,
    refl,
  )

  wakes : Processes → ℕ → Bool
  wakes t c = is_zombie (t.sys.procs c).state && ((t.sys.procs t.initproc).wait_state == wt_child)

  quiet_round :
      (fuel : ℕ) (t : Processes)
      → t.cptr current ≢ 0
      → wakes t (t.cptr current) ≡ false
      → give_children cls (suc fuel) current t ≡ give_children cls fuel current (given current t)
  unfolding give_children wakes
  quiet_round fuel t there quiet = rw (give_children, ==_ne (t.cptr current) 0 there, quiet) refl

  waking_round :
      (fuel : ℕ) (t : Processes) (s : Sys)
      → t.cptr current ≢ 0
      → wakes t (t.cptr current) ≡ true
      → wakeup_proc cls t.initproc t.sys ≡ some s
      → give_children cls (suc fuel) current t
        ≡ give_children cls fuel current (record (given current t) { sys = s })
  unfolding give_children wakes
  waking_round fuel t s there loud woken =
      rw (give_children, ==_ne (t.cptr current) 0 there, loud, woken) refl

  there :
      {t : Processes} {c : ℕ} {cs ds : List ℕ} → IsGiving t current (c ∷ cs) ds → t.cptr current ≢ 0
  there h e = h.chain.0 (sym h.first ∙ e)

  idle_quiet :
      (t : Processes) (c : ℕ)
      → ((t.sys.procs t.initproc).wait_state == wt_child) ≡ false
      → wakes t c ≡ false
  unfolding wakes
  idle_quiet t c idle = elim (Bool-cases (is_zombie (t.sys.procs c).state)) [
    | inl z ↦ rw (z, idle) refl
    | inr n ↦ rw n refl
  ]

  -- `initproc` does not wait for a child, or has been woken.
  settled :
      (fuel : ℕ) (t : Processes) (cs ds : List ℕ)
      → current ≢ t.initproc
      → ((t.sys.procs t.initproc).wait_state == wt_child) ≡ false
      → IsGiving t current cs ds
      → length cs < fuel
      → Gives fuel t (reverse_aux cs ds) t.sys
  settled zero t cs ds ne idle h lt = absurd (omega arith)
  settled (suc fuel) t [] ds ne idle h lt = ends fuel t ds h
  settled (suc fuel) t (c ∷ cs) ds ne idle h lt =
      let (t', ran, none_left, all, same) =
        settled fuel (given current t) cs (c ∷ ds) ne idle (given-IsGiving t current c cs ds ne h)
          (omega arith) in
      (
        t',
        quiet_round fuel t (there h) (idle_quiet t (t.cptr current) idle) ∙ ran,
        none_left,
        all,
        same,
      )

  -- `initproc` waits, and is woken at the first zombie.
  waits :
      (fuel : ℕ) (t : Processes) (s : Sys) (cs ds : List ℕ)
      → current ≢ t.initproc
      → ((t.sys.procs t.initproc).wait_state == wt_child) ≡ true
      → wakeup_proc cls t.initproc t.sys ≡ some s
      → ((s.procs t.initproc).wait_state == wt_child) ≡ false
      → IsGiving t current cs ds
      → length cs < fuel
      → Gives fuel t (reverse_aux cs ds) (if any_zombie t.sys cs then s else t.sys)
  unfolding wakes
  waits zero t s cs ds ne idle woken up h lt = absurd (omega arith)
  waits (suc fuel) t s [] ds ne idle woken up h lt = ends fuel t ds h
  waits (suc fuel) t s (c ∷ cs) ds ne idle woken up h lt =
      let next = given-IsGiving t current c cs ds ne h in
      elim (Bool-cases (is_zombie (t.sys.procs c).state)) [
        | inl dead ↦
            let u : Processes = record (given current t) { sys = s } in
            let (t', ran, none_left, all, same) =
              settled fuel u cs (c ∷ ds) ne up (rescheduled s next) (omega arith) in
            (
              t',
              waking_round fuel t s (there h) (ap (λ x. wakes t x) h.first ∙ rw (dead, idle) refl)
                    woken
                  ∙ ran,
              none_left,
              all,
              rw dead same,
            )
        | inr alive ↦
            let (t', ran, none_left, all, same) =
              waits fuel (given current t) s cs (c ∷ ds) ne idle woken up next (omega arith) in
            (
              t',
              quiet_round fuel t (there h) (ap (λ x. wakes t x) h.first ∙ rw alive refl) ∙ ran,
              none_left,
              all,
              rw alive same,
            )
      ]

  give_children-IsFamily :
      (fuel : ℕ) (t : Processes) (s : Sys) (cs ds : List ℕ)
      → current ≢ t.initproc
      → IsFamily t current cs
      → IsFamily t t.initproc ds
      → length cs < fuel
      → ((t.sys.procs t.initproc).wait_state ≡ wt_child → wakeup_proc cls t.initproc t.sys ≡ some s)
      → (s.procs t.initproc).wait_state ≢ wt_child
      → Gives fuel t (reverse_aux cs ds) (
          if any_zombie t.sys cs && ((t.sys.procs t.initproc).wait_state == wt_child)
          then s
          else t.sys)
  give_children-IsFamily fuel t s cs ds ne h k lt woken up =
      let giving : IsGiving t current cs ds = record {
        prev = 0;
        first = h.first;
        chain = h.chain;
        parents = h.parents;
        taken = k;
      } in
      elim (Bool-cases ((t.sys.procs t.initproc).wait_state == wt_child)) [
        | inl waiting ↦ rw waiting (
            subst (λ b. Gives fuel t (reverse_aux cs ds) (if b then s else t.sys))
              (and_true (any_zombie t.sys cs))
              (waits fuel t s cs ds ne waiting (woken ((==_iff _ _).0 waiting)) (==_ne _ _ up)
                giving lt))
        | inr idle ↦ rw idle (
            subst (λ b. Gives fuel t (reverse_aux cs ds) (if b then s else t.sys))
              (and_false (any_zombie t.sys cs)) (settled fuel t cs ds ne idle giving lt))
      ]

-- Let a process other than `idleproc` and `initproc` have the children cs, and `initproc` the
-- children ds, let waking its parent succeed where the parent waits for a child, and let waking
-- `initproc` succeed where that waits, so that it no longer waits. Given one round more than it has
-- children, `do_exit` returns: the process has no children left, and those of `initproc` are cs, in
-- reverse order, followed by ds; `initproc` has been woken exactly if it waited for a child and one
-- of cs is a zombie.
pub do_exit-IsFamily :
    (cls : SchedClass) (fuel : ℕ) (t : Processes) (s s' : Sys) (cs ds : List ℕ)
    → t.sys.current ≢ t.sys.idleproc
    → t.sys.current ≢ t.initproc
    → IsFamily t t.sys.current cs
    → IsFamily t t.initproc ds
    → length cs < fuel
    → tell_parent cls t.sys.current t ≡ some s
    → ((s.procs t.initproc).wait_state ≡ wt_child → wakeup_proc cls t.initproc s ≡ some s')
    → (s'.procs t.initproc).wait_state ≢ wt_child
    → (t' : Processes) × (do_exit cls fuel t ≡ some t')
      × IsFamily t' t.sys.current []
      × IsFamily t' t'.initproc (reverse_aux cs ds)
      × (t'.sys
          ≡ (if any_zombie s cs && ((s.procs t.initproc).wait_state == wt_child) then s' else s))
unfolding do_exit
do_exit-IsFamily cls fuel t s s' cs ds not_idle ne h k lt told woken up =
    let current = t.sys.current in
    let (t', ran, none_left, all, same) =
      give_children-IsFamily cls current fuel (record t { sys = s }) s' cs ds ne
        (record { first = h.first; chain = h.chain; parents = h.parents })
        (record { first = k.first; chain = k.chain; parents = k.parents }) lt woken up in
    (
      t',
      rw (==_ne current t.sys.idleproc not_idle, ==_ne current t.initproc ne, told) ran,
      none_left,
      all,
      same,
    )
