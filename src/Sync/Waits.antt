-- ===== src/Sync/Waits.antt =====
-- The waits of a queue, and what waking the first of them does.
use mathlib.Core.Path.{ap₂, subst}
use os.Base.{
  ℕ, ◌≡◌, refl, ap, sym, ◌∙◌, ◌≢◌, inl, inr, List, [], ◌∷◌, ◌++◌, true, false, some, none, Option,
  append-nil, arith, ◌==◌, Bool-cases, ==_refl, ==_ne, ◌>>=◌, suc, zero, length, ◌<◌, >>=-eq-some,
}
use os.Links.{Links, list_init, list_add_before, list_empty, list_del_init}
use os.Links.Chain.{NotIn, Fwd, Fwd-store, Bwd-store}
use os.Links.Ring.{
  IsRing, list_del_init-IsRing, list_init-IsRing, list_add_before-IsRing, list_empty-IsRing,
}
use os.Sched.Queue.{Sys, SchedClass, sleeping, set_proc}
use os.Sched.Core.{wakeup_proc}
use os.Sync.{
  Wait, Kernel, set_wait, wait_queue_del, wait_queue_first, wakeup_wait, wakeup_all, wakeup_queue,
  wait_init, wait_queue_add, wait_current_set, wait_current_del, wait_in_queue,
}

abbrev pub AllQueued : (ℕ → Wait) → ℕ → List ℕ → Type 0
AllQueued waits sem [] = Unit
AllQueued waits sem (w ∷ ws) = ((waits w).wait_queue ≡ sem) × AllQueued waits sem ws

-- The waits `ws` stand in the queue, the longest first.
pub record IsWaitQueue (k : Kernel) (queue : ℕ) (ws : List ℕ) : Type 0 where
  pub ring : IsRing k.links queue ws
  pub queued : AllQueued k.waits queue ws

next_differs :
    (f : ℕ → ℕ) (w : ℕ) (ws : List ℕ) (sem : ℕ)
    → Fwd f w ws sem
    → w ≢ sem
    → NotIn w ws
    → (f w == w) ≡ false
next_differs f w [] sem e ne new = ==_ne (f w) w (λ q. ne (sym q ∙ e))
next_differs f w (x ∷ xs) sem e ne new = ==_ne (f w) w (λ q. new.0 (sym q ∙ e.0))

-- The queue that the waits stand in does not change with their other fields.
pub AllQueued-agree :
    (a b : ℕ → Wait) (sem : ℕ) (ws : List ℕ)
    → ((x : ℕ) → (b x).wait_queue ≡ (a x).wait_queue)
    → AllQueued a sem ws
    → AllQueued b sem ws
AllQueued-agree a b sem [] e q = tt
AllQueued-agree a b sem (w ∷ ws) e q = (e w ∙ q.0, AllQueued-agree a b sem ws e q.1)

pub AllQueued-add :
    (a b : ℕ → Wait) (sem : ℕ) (ws : List ℕ) (w : ℕ)
    → NotIn w ws
    → ((x : ℕ) → x ≢ w → (b x).wait_queue ≡ (a x).wait_queue)
    → (b w).wait_queue ≡ sem
    → AllQueued a sem ws
    → AllQueued b sem (ws ++ w ∷ [])
AllQueued-add a b sem [] w new e here q = (here, tt)
AllQueued-add a b sem (x ∷ xs) w new e here q =
    (e x (λ r. new.0 (sym r)) ∙ q.0, AllQueued-add a b sem xs w new.1 e here q.1)

-- The state after the wait `w` has been taken out and woken, which left the scheduler's state `s`.
abbrev pub roused : ℕ → ℕ → Sys → Kernel → Kernel
roused w flags s k = record (set_wait w (record (k.waits w) { wakeup_flags = flags }) k) {
  links = list_del_init w k.links;
  sys = s;
}

no_first : {k : Kernel} {queue : ℕ} → IsWaitQueue k queue [] → wait_queue_first queue k ≡ none
unfolding wait_queue_first
no_first {k} {queue} h = rw (h.ring.forward, ==_refl queue) refl

module _ {k : Kernel} {queue : ℕ} (w : ℕ) (ws : List ℕ) (h : IsWaitQueue k queue (w ∷ ws)) where
  pub first_wait : wait_queue_first queue k ≡ some w
  unfolding wait_queue_first
  first_wait = rw (h.ring.forward.0, ==_ne w queue (λ e. h.ring.distinct.0.0 (sym e))) refl

  linked : list_empty w k.links ≡ false
  unfolding list_empty
  linked =
      next_differs k.links.next w ws queue h.ring.forward.1 (λ e. h.ring.distinct.0.0 (sym e))
        h.ring.distinct.1.0

  pub wakeup_wait-eq :
      (cls : SchedClass) (flags : ℕ)
      → wakeup_wait cls queue w flags true k
        ≡ (wakeup_proc cls (k.waits w).proc k.sys >>= λ s. some (roused w flags s k))
  unfolding wakeup_wait wait_queue_del
  wakeup_wait-eq cls flags =
      let there : ((k.waits w).wait_queue == queue) ≡ true =
        ap (λ q. q == queue) h.queued.0 ∙ ==_refl queue in
      rw (linked, there, ==_refl w) refl

  pub roused-IsWaitQueue : (flags : ℕ) (s : Sys) → IsWaitQueue (roused w flags s k) queue ws
  roused-IsWaitQueue flags s = record {
    ring = (list_del_init-IsRing [] w ws h.ring).0;
    queued =
        AllQueued-agree k.waits (roused w flags s k).waits queue ws
          (λ x. elim (Bool-cases (w == x)) [
            | inl here ↦ rw here (ap (λ y. (k.waits y).wait_queue) (ground (arith, here)))
            | inr other ↦ rw other refl
          ])
          h.queued.1;
  }

-- The scheduler's state once the running process sleeps.
abbrev pub asleep : ℕ → Kernel → Sys
asleep wait_state k =
    set_proc k.sys.current
      (record (k.sys.procs k.sys.current) { state = sleeping; wait_state = wait_state }) k.sys

-- The state once it waits in the queue.
abbrev pub enqueued : ℕ → ℕ → ℕ → Kernel → Kernel
enqueued w queue wait_state k =
    let t = wait_init w k.sys.current k in
    let u = set_wait w (record (t.waits w) { wait_queue = queue }) t in
    record u { sys = asleep wait_state k; links = list_add_before queue w u.links }

pub set-wait :
    (w queue wait_state : ℕ) (k : Kernel)
    → wait_current_set queue w wait_state k ≡ some (enqueued w queue wait_state k)
unfolding wait_current_set wait_queue_add wait_init
set-wait w queue wait_state k = rw ((list_empty-IsRing (list_init-IsRing w k.links)).1 refl) refl

list_init-apart :
    {l : Links} {h : ℕ} (e : ℕ) (xs : List ℕ)
    → e ≢ h
    → NotIn e xs
    → IsRing l h xs
    → IsRing (list_init e l) h xs
unfolding list_init
list_init-apart {l} {h} e xs ne new r = record {
  forward = Fwd-store l.next e e h xs h ne new r.forward;
  backward = Bwd-store l.prev e e h xs h new ne r.backward;
  distinct = r.distinct;
}

module _ {k : Kernel} {queue : ℕ} (wait_state w : ℕ) (ws : List ℕ) (h : IsWaitQueue k queue ws)
    (ne : w ≢ queue) (new : NotIn w ws) where
  pub waiting-IsWaitQueue : IsWaitQueue (enqueued w queue wait_state k) queue (ws ++ w ∷ [])
  unfolding wait_init
  waiting-IsWaitQueue = record {
    ring = list_add_before-IsRing w ws [] ne (subst (NotIn w) (sym (append-nil ws)) new) (
        subst (IsRing (list_init w k.links) queue) (sym (append-nil ws))
          (list_init-apart w ws ne new h.ring));
    queued =
        AllQueued-add k.waits (enqueued w queue wait_state k).waits queue ws w new
          (λ x differs. rw (==_ne w x (λ e. differs (sym e))) refl) (rw (==_refl w) refl) h.queued;
  }

-- The processes of some waits, and waking them one after the other.
abbrev pub procs_of : (ℕ → Wait) → List ℕ → List ℕ
procs_of waits [] = []
procs_of waits (w ∷ ws) = (waits w).proc ∷ procs_of waits ws

procs_of-agree :
    (a b : ℕ → Wait) (ws : List ℕ)
    → ((x : ℕ) → (b x).proc ≡ (a x).proc)
    → procs_of b ws ≡ procs_of a ws
procs_of-agree a b [] e = refl
procs_of-agree a b (w ∷ ws) e = ap₂ (λ p ps. p ∷ ps) (e w) (procs_of-agree a b ws e)

module _ (cls : SchedClass) where
  abbrev pub wake_procs : List ℕ → Sys → Option Sys
  wake_procs [] s = some s
  wake_procs (p ∷ ps) s = wakeup_proc cls p s >>= λ t. wake_procs ps t

  wakeup_all-eq :
      (fuel queue flags : ℕ) (k : Kernel) (ws : List ℕ) (s : Sys)
      → IsWaitQueue k queue ws
      → length ws < fuel
      → wake_procs (procs_of k.waits ws) k.sys ≡ some s
      → (t : Kernel) × (wakeup_all cls fuel queue flags (wait_queue_first queue k) k ≡ some t)
        × (t.sys ≡ s)
        × IsWaitQueue t queue []
  unfolding wakeup_all
  wakeup_all-eq zero queue flags k ws s h lt woken = absurd (omega arith)
  wakeup_all-eq (suc fuel) queue flags k [] s h lt woken = (k, rw (no_first h) refl, cc, h)
  wakeup_all-eq (suc fuel) queue flags k (w ∷ ws) s h lt woken =
      let (mid, first, rest) =
        >>=-eq-some (wakeup_proc cls (k.waits w).proc k.sys)
          (λ t. wake_procs (procs_of k.waits ws) t) woken in
      let same = procs_of-agree k.waits (roused w flags mid k).waits ws (λ x.
        elim (Bool-cases (w == x)) [
          | inl here ↦ rw here (ap (λ y. (k.waits y).proc) (ground (arith, here)))
          | inr other ↦ rw other refl
        ]) in
      let (t, ran, left, empty) =
        wakeup_all-eq fuel queue flags (roused w flags mid k) ws s
          (roused-IsWaitQueue w ws h flags mid) (omega arith)
          (ap (λ ps. wake_procs ps mid) same ∙ rest) in
      (t, rw (first_wait w ws h) (rw (wakeup_wait-eq w ws h cls flags, first) ran), left, empty)

  -- Let a wait queue hold the waits ws, and let waking their processes one after the other, in this
  -- order, succeed. `wakeup_queue` that deletes the waits returns, given one round more than there
  -- are waits; it leaves the state of the scheduler that waking these processes leaves, and an
  -- empty queue.
  pub wakeup_queue-wake_procs :
      (fuel queue flags : ℕ) (k : Kernel) (ws : List ℕ) (s : Sys)
      → IsWaitQueue k queue ws
      → length ws < fuel
      → wake_procs (procs_of k.waits ws) k.sys ≡ some s
      → (t : Kernel) × (wakeup_queue cls fuel queue flags true k ≡ some t)
        × (t.sys ≡ s)
        × IsWaitQueue t queue []
  unfolding wakeup_queue
  wakeup_queue-wake_procs fuel queue flags k ws s h lt woken =
      wakeup_all-eq fuel queue flags k ws s h lt woken

  pub wakeup_queue-one :
      (fuel queue flags : ℕ) (k : Kernel) (w : ℕ) (s : Sys)
      → IsWaitQueue k queue (w ∷ [])
      → 1 < fuel
      → wakeup_proc cls (k.waits w).proc k.sys ≡ some s
      → wakeup_queue cls fuel queue flags true k ≡ some (roused w flags s k)
  unfolding wakeup_queue wakeup_all
  wakeup_queue-one zero queue flags k w s h lt woken = absurd (omega arith)
  wakeup_queue-one (suc zero) queue flags k w s h lt woken = absurd (omega arith)
  wakeup_queue-one (suc (suc fuel)) queue flags k w s h lt woken =
      let k' = roused w flags s k in
      let last : wakeup_all cls (suc fuel) queue flags (wait_queue_first queue k') k' ≡ some k' =
        rw (no_first (roused-IsWaitQueue w [] h flags s)) refl in
      rw (first_wait w [] h) (rw (wakeup_wait-eq w [] h cls flags, woken) last)

-- A wait that has been woken stands in no queue, so that its process has nothing to take out.
pub roused_out :
    {k : Kernel} {queue : ℕ} (w : ℕ) (ws : List ℕ) (flags : ℕ) (s : Sys)
    → IsWaitQueue k queue (w ∷ ws)
    → wait_current_del queue w (roused w flags s k) ≡ some (roused w flags s k)
unfolding wait_current_del wait_in_queue
roused_out w ws flags s h =
    rw ((list_empty-IsRing (list_del_init-IsRing [] w ws h.ring).1).1 refl) refl
