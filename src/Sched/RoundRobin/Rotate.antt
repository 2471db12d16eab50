-- ===== src/Sched/RoundRobin/Rotate.antt =====
-- `schedule` with the round-robin class: the processes take turns.
use os.Base.{
  ℕ, zero, suc, ◌+◌, ◌^◌, ◌<◌, ◌≡◌, refl, sym, ap, ◌≢◌, List, [], ◌∷◌, ◌++◌, append_assoc, arith,
  true, false, Option, some, ◌==◌, ==_ne, ◌>>=◌, length, length-append,
}
use mathlib.Core.Path.{subst}
use os.Links.Ring.{IsRing}
use os.Sched.Queue.{Sys, run_list, set_proc, is_runnable}
use os.Sched.Core.{schedule, sched_class_enqueue, choose_next, switch_to}
use os.Sched.RoundRobin.{default_sched_class, rr_enqueue, rr_dequeue}
use os.Sched.RoundRobin.Fifo.{
  IsQueue, IsDetached, run_links, AllProcs, AllProcs-append, AllProcs-map, enqueued, dequeued,
  rr_enqueue-IsQueue, rr_dequeue-IsQueue, rr_pick_next-eq-head,
}

-- The process may run, and is not the idle process.
abbrev pub IsLive : Sys → ℕ → Type 0
IsLive s p = (is_runnable (s.procs p).state ≡ true) × (p ≢ s.idleproc)

-- `current` runs, and `ps` wait, the longest waiting first; all may run.
pub record Turn (s : Sys) (ps : List ℕ) : Type 0 where
  pub queue : IsQueue s ps
  pub detached : IsDetached s s.current
  pub room : length ps + 1 < 2 ^ 32
  pub live : AllProcs (IsLive s) (s.current ∷ ps)

abbrev cleared : Sys → Sys
cleared s = set_proc s.current (record (s.procs s.current) { need_resched = false }) s

-- The state after `schedule`, when `n` is the next process.
abbrev pub turned : ℕ → Sys → Sys
turned n s = switch_to default_sched_class n (dequeued n (enqueued s.current (cleared s)))

module _ {s : Sys} {ps : List ℕ} (t : Turn s ps) (n : ℕ) (qs : List ℕ)
    (e : ps ++ s.current ∷ [] ≡ n ∷ qs) where
  held : IsQueue (cleared s) ps
  held = record {
    ring = t.queue.ring;
    counted = t.queue.counted;
    few = t.queue.few;
    flags = AllProcs-map (λ r. (s.procs r).on_rq ≡ true) _ ps (λ r h. ground arith) t.queue.flags;
  }

  entered :
      (rr_enqueue s.current (cleared s) ≡ some (enqueued s.current (cleared s)))
      × IsQueue (enqueued s.current (cleared s)) (n ∷ qs)
  entered =
      let r = rr_enqueue-IsQueue s.current held t.detached t.room in
      (r.0, subst (λ zs. IsQueue (enqueued s.current (cleared s)) zs) e r.1)

  left :
      (rr_dequeue n (enqueued s.current (cleared s))
        ≡ some (dequeued n (enqueued s.current (cleared s))))
      × IsQueue (dequeued n (enqueued s.current (cleared s))) qs
      × IsDetached (dequeued n (enqueued s.current (cleared s))) n
  left = rr_dequeue-IsQueue [] n qs entered.1

  schedule-eq : schedule default_sched_class s ≡ some (turned n s)
  unfolding schedule sched_class_enqueue choose_next default_sched_class
  schedule-eq =
      let apart : (s.current == s.idleproc) ≡ false = ==_ne s.current s.idleproc t.live.0.1 in
      rw (t.live.0.0, apart, entered.0, rr_pick_next-eq-head (n ∷ qs) entered.1, left.0) refl

  same_state : (r : ℕ) → ((turned n s).procs r).state ≡ (s.procs r).state
  same_state r = ground arith

  same_rq : (turned n s).rq ≡ (dequeued n (enqueued s.current (cleared s))).rq
  same_rq = ground arith

  same_idle : (turned n s).idleproc ≡ s.idleproc
  same_idle = ground arith

  same_flag :
      (r : ℕ)
      → ((dequeued n (enqueued s.current (cleared s))).procs r).on_rq ≡ true
      → ((turned n s).procs r).on_rq ≡ true
  same_flag r h = ground arith

  all-IsLive : AllProcs (IsLive s) (n ∷ qs)
  all-IsLive =
      subst (AllProcs (IsLive s)) e
        (AllProcs-append (IsLive s) ps (s.current ∷ []) t.live.1 (t.live.0, tt))

  now : (turned n s).current ≡ n
  now = ground arith

  turned-Turn : Turn (turned n s) qs
  turned-Turn =
      let lives =
        AllProcs-map (IsLive s) (IsLive (turned n s)) (n ∷ qs)
          (λ r h. (rw (same_state r) h.0, rw same_idle h.1)) all-IsLive in
      record {
        queue = record {
          ring = subst (λ q. IsRing q.links run_list (run_links qs)) (sym same_rq) left.1.ring;
          counted = rw same_rq left.1.counted;
          few = left.1.few;
          flags = AllProcs-map _ _ qs same_flag left.1.flags;
        };
        detached = subst (λ r. IsDetached (turned n s) r) (sym now) (rw same_rq left.2);
        room = omega (arith, ap length e, length-append ps (s.current ∷ []), t.room);
        live = (subst (IsLive (turned n s)) (sym now) lives.0, lives.1);
      }

-- Calls of `schedule` in a row.
abbrev pub schedules : ℕ → Sys → Option Sys
schedules zero s = some s
schedules (suc k) s = schedule default_sched_class s >>= schedules k

-- Under the round-robin class, with the current process running and the processes xs, y, ys waiting
-- in this order, all runnable and none idle, the current one linked into no queue and the count of
-- waiting processes below 2^32 - 1: one call of `schedule` more than xs has processes returns, and
-- afterwards y runs and ys, the process that ran before, xs wait in this order, all as before
-- runnable and not idle.
pub schedules-Turn :
    (xs : List ℕ) {s : Sys} (y : ℕ) (ys : List ℕ)
    → Turn s (xs ++ y ∷ ys)
    → (t : Sys) × (schedules (suc (length xs)) s ≡ some t)
      × (t.current ≡ y)
      × Turn t (ys ++ s.current ∷ xs)
schedules-Turn [] {s} y ys h = (
  turned y s,
  rw (schedule-eq h y (ys ++ s.current ∷ []) refl) refl,
  now h y (ys ++ s.current ∷ []) refl,
  turned-Turn h y (ys ++ s.current ∷ []) refl,
)
schedules-Turn (x ∷ xs) {s} y ys h =
    let rest = xs ++ (y ∷ (ys ++ s.current ∷ [])) in
    let e : (x ∷ xs ++ y ∷ ys) ++ s.current ∷ [] ≡ x ∷ rest =
      ap (◌∷◌ x) (append_assoc xs (y ∷ ys) (s.current ∷ [])) in
    let (t, ran, at, turn) =
      schedules-Turn xs {s = turned x s} y (ys ++ s.current ∷ []) (turned-Turn h x rest e) in
    (
      t,
      rw (schedule-eq h x rest e) ran,
      at,
      subst (λ zs. Turn t zs) (append_assoc ys (s.current ∷ []) (x ∷ xs))
          (subst (λ r. Turn t ((ys ++ s.current ∷ []) ++ r ∷ xs)) (now h x rest e) turn),
    )
