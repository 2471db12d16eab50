-- ===== src/Sched/RoundRobin/Fifo.antt =====
-- The round-robin class keeps a queue in order of arrival, whose counters and flags are right.
use os.Base.{
  ℕ, ◌+◌, ◌^◌, ◌≤◌, ◌<◌, ◌≡◌, refl, sym, List, [], ◌∷◌, ◌++◌, append-nil, arith, true, false, none,
  some, length, length-append, Bool-cases, inl, inr,
}
use mathlib.Core.Path.{subst}
use os.Links.{list_empty, list_add_before, list_del_init}
use os.Links.Chain.{NotIn, NotIn-right}
use os.Links.Ring.{
  IsRing, list_init-IsRing, list_add_before-IsRing, list_del_init-IsRing, NotIn-of_next_self,
  list_empty-IsRing,
}
use os.Sched.Queue.{Sys, run_list, run_link}
use os.Sched.RoundRobin.{rr_init, rr_enqueue, rr_dequeue, rr_pick_next, admit, count_down}

abbrev pub run_links : List ℕ → List ℕ
run_links [] = []
run_links (p ∷ ps) = run_link p ∷ run_links ps

pub run_links-append : (ps qs : List ℕ) → run_links (ps ++ qs) ≡ run_links ps ++ run_links qs
run_links-append [] qs = refl
run_links-append (p ∷ ps) qs = rw (run_links-append ps qs)

abbrev pub AllProcs {ℓ} : (ℕ → Type ℓ) → List ℕ → Type ℓ
AllProcs P [] = Unit
AllProcs P (p ∷ ps) = P p × AllProcs P ps

pub AllProcs-append {ℓ} :
    (P : ℕ → Type ℓ) (ps qs : List ℕ) → AllProcs P ps → AllProcs P qs → AllProcs P (ps ++ qs)
AllProcs-append P [] qs u v = v
AllProcs-append P (p ∷ ps) qs u v = (u.0, AllProcs-append P ps qs u.1 v)

pub AllProcs-map {ℓ κ} :
    (P : ℕ → Type ℓ) (Q : ℕ → Type κ) (ps : List ℕ)
    → ((p : ℕ) → P p → Q p)
    → AllProcs P ps
    → AllProcs Q ps
AllProcs-map P Q [] f u = tt
AllProcs-map P Q (p ∷ ps) f u = (f p u.0, AllProcs-map P Q ps f u.1)

pub AllProcs-left {ℓ} : (P : ℕ → Type ℓ) (ps qs : List ℕ) → AllProcs P (ps ++ qs) → AllProcs P ps
AllProcs-left P [] qs u = tt
AllProcs-left P (p ∷ ps) qs u = (u.0, AllProcs-left P ps qs u.1)

pub AllProcs-right {ℓ} : (P : ℕ → Type ℓ) (ps qs : List ℕ) → AllProcs P (ps ++ qs) → AllProcs P qs
AllProcs-right P [] qs u = u
AllProcs-right P (p ∷ ps) qs u = AllProcs-right P ps qs u.1

-- The queue holds the processes `ps`, the longest waiting first.
pub record IsQueue (s : Sys) (ps : List ℕ) : Type 0 where
  pub ring : IsRing s.rq.links run_list (run_links ps)
  pub counted : s.rq.proc_num ≡ length ps
  pub few : length ps < 2 ^ 32
  pub flags : AllProcs (λ p. (s.procs p).on_rq ≡ true) ps

-- The process is linked into no queue: its `run_link` is a list of its own.
abbrev pub IsDetached : Sys → ℕ → Type 0
IsDetached s p = list_empty (run_link p) s.rq.links ≡ true

pub rr_init-IsQueue : (s : Sys) → IsQueue (record s { rq = rr_init s.rq }) []
unfolding rr_init
rr_init-IsQueue s = record {
  ring = list_init-IsRing run_list s.rq.links;
  counted = refl;
  few = omega arith;
  flags = tt;
}

self_linked : (s : Sys) (p : ℕ) → IsDetached s p → s.rq.links.next (run_link p) ≡ run_link p
unfolding list_empty
self_linked s p alone = ground arith

-- A detached process is not in the queue.
pub detached-NotIn :
    {s : Sys} {ps : List ℕ} (p : ℕ)
    → IsQueue s ps
    → IsDetached s p
    → NotIn (run_link p) (run_links ps)
detached-NotIn {s} {ps} p q alone =
    NotIn-of_next_self s.rq.links.next (run_link p) run_list (run_links ps) run_list
      (self_linked s p alone) q.ring.forward q.ring.distinct.0 q.ring.distinct.1

-- The state that `RR_enqueue` leaves.
abbrev pub enqueued : ℕ → Sys → Sys
enqueued p s =
    admit p
      (record s { rq = record s.rq { links = list_add_before run_list (run_link p) s.rq.links } })

module _ {s : Sys} {ps : List ℕ} (p : ℕ) (q : IsQueue s ps) (alone : IsDetached s p)
    (few : length ps + 1 < 2 ^ 32) where
  ring : IsRing (enqueued p s).rq.links run_list (run_links (ps ++ p ∷ []))
  ring =
      subst (λ zs. IsRing (enqueued p s).rq.links run_list zs) (sym (run_links-append ps (p ∷ [])))
        (list_add_before-IsRing (run_link p) (run_links ps) [] (omega arith)
          (subst (λ zs. NotIn (run_link p) zs) (sym (append-nil (run_links ps)))
            (detached-NotIn p q alone))
          (subst (λ zs. IsRing s.rq.links run_list zs) (sym (append-nil (run_links ps))) q.ring))

  flags : AllProcs (λ r. ((enqueued p s).procs r).on_rq ≡ true) (ps ++ p ∷ [])
  flags =
      AllProcs-append (λ r. ((enqueued p s).procs r).on_rq ≡ true) ps (p ∷ [])
        (AllProcs-map (λ r. (s.procs r).on_rq ≡ true) _ ps (λ r h. ground arith) q.flags)
        (ground arith, tt)

  -- A process that is linked into no queue, put into a queue of ps with room for one more below
  -- 2^32, is accepted; the queue is well-formed and holds ps and then the process, whose time slice
  -- is at most the maximum of the queue.
  pub rr_enqueue-IsQueue :
      (rr_enqueue p s ≡ some (enqueued p s))
      × IsQueue (enqueued p s) (ps ++ p ∷ [])
      × (((enqueued p s).procs p).time_slice ≤ s.rq.max_time_slice)
  unfolding rr_enqueue
  rr_enqueue-IsQueue = (
    rw alone refl,
    record {
      ring = ring;
      counted = omega (arith, q.counted, length-append ps (p ∷ []));
      few = omega (arith, length-append ps (p ∷ []));
      flags = flags;
    },
    ground arith,
  )

-- Enqueueing a process that already waits in a well-formed queue fails the assertion.
pub rr_enqueue_twice :
    {s : Sys} (ps : List ℕ) (p : ℕ) (qs : List ℕ) → IsQueue s (ps ++ p ∷ qs) → rr_enqueue p s ≡ none
unfolding rr_enqueue
rr_enqueue_twice {s} ps p qs q = elim (Bool-cases (list_empty (run_link p) s.rq.links)) [
  | inr linked ↦ rw linked refl
  | inl alone ↦ absurd (
      (NotIn-right (run_link p) (run_links ps) (run_links (p ∷ qs)) (
          subst (λ zs. NotIn (run_link p) zs) (run_links-append ps (p ∷ qs))
            (detached-NotIn p q alone))).0
        refl)
]

-- The pick is the process that has waited longest, or NULL where the queue is empty.
pub rr_pick_next-eq-head :
    {s : Sys} (ps : List ℕ)
    → IsQueue s ps
    → rr_pick_next s ≡ some (elim ps [ [] ↦ none | p ∷ rest ↦ some p ], s)
unfolding rr_pick_next
rr_pick_next-eq-head {s} [] q = ground (arith, q.ring.forward)
rr_pick_next-eq-head {s} (p ∷ ps) q = ground (arith, q.ring.forward)

-- The state that `RR_dequeue` leaves.
abbrev pub dequeued : ℕ → Sys → Sys
dequeued p s = record s {
  rq = record s.rq {
    links = list_del_init (run_link p) s.rq.links;
    proc_num = count_down s.rq.proc_num;
  };
}

module _ {s : Sys} (ps : List ℕ) (p : ℕ) (qs : List ℕ) (q : IsQueue s (ps ++ p ∷ qs)) where
  links : IsRing s.rq.links run_list (run_links ps ++ run_link p ∷ run_links qs)
  links = subst (λ zs. IsRing s.rq.links run_list zs) (run_links-append ps (p ∷ qs)) q.ring

  cut :
      IsRing (dequeued p s).rq.links run_list (run_links ps ++ run_links qs)
      × IsRing (dequeued p s).rq.links (run_link p) []
  cut = list_del_init-IsRing (run_links ps) (run_link p) (run_links qs) links

  attached : list_empty (run_link p) s.rq.links ≡ false
  attached = elim (Bool-cases (list_empty (run_link p) s.rq.links)) [
    | inr linked ↦ linked
    | inl alone ↦ absurd (
        (NotIn-right (run_link p) (run_links ps) (run_links (p ∷ qs)) (
            subst (λ zs. NotIn (run_link p) zs) (run_links-append ps (p ∷ qs))
              (detached-NotIn p q alone))).0
          refl)
  ]

  -- A process that waits anywhere in a well-formed queue can be taken out: the call returns, the
  -- queue holds the others in their order and is well-formed, and the process is linked into no
  -- queue.
  pub rr_dequeue-IsQueue :
      (rr_dequeue p s ≡ some (dequeued p s))
      × IsQueue (dequeued p s) (ps ++ qs)
      × IsDetached (dequeued p s) p
  unfolding rr_dequeue
  rr_dequeue-IsQueue =
      let flag = (AllProcs-right _ ps (p ∷ qs) q.flags).0 in
      (
        rw (attached, flag) refl,
        record {
          ring =
              subst (λ zs. IsRing (dequeued p s).rq.links run_list zs)
                (sym (run_links-append ps qs)) cut.0;
          counted = omega (arith, q.counted, q.few, length-append ps (p ∷ qs), length-append ps qs);
          few = omega (arith, q.few, length-append ps (p ∷ qs), length-append ps qs);
          flags =
              AllProcs-append _ ps qs (AllProcs-left _ ps (p ∷ qs) q.flags)
                (AllProcs-right _ ps (p ∷ qs) q.flags).1;
        },
        (list_empty-IsRing cut.1).1 refl,
      )
