-- ===== src/Sync/Semaphore.antt =====
-- A semaphore hands its units out in the order of the waits.
use os.Base.{
  ℕ, ◌≡◌, refl, ◌∙◌, ◌≢◌, ◌⊎◌, inl, inr, List, [], ◌∷◌, ◌++◌, false, some, ==_refl, ◌>>=◌,
}
use os.Links.Chain.{NotIn}
use os.Links.Ring.{IsRing, list_del_init-IsRing, list_empty-IsRing}
use os.Sched.Queue.{Sys, SchedClass}
use os.Sched.Core.{wakeup_proc}
use os.Sync.Waits.{
  AllQueued, IsWaitQueue, roused, first_wait, wakeup_wait-eq, roused-IsWaitQueue, asleep, enqueued,
  set-wait, waiting-IsWaitQueue,
}
use os.Sync.{
  Kernel, wt_ksem, wait_init, wait_current_del, wait_in_queue, up, down_start, down_finish,
}

-- The waits `ws` stand in the queue of the semaphore, the longest first; none does while the
-- semaphore is free.
pub record IsSem (k : Kernel) (sem : ℕ) (ws : List ℕ) : Type 0 where
  pub ring : IsRing k.links sem ws
  pub queued : AllQueued k.waits sem ws
  pub idle : (k.values sem ≡ 0) ⊎ (ws ≡ [])

-- The queue of a semaphore.
waits_of : {k : Kernel} {sem : ℕ} {ws : List ℕ} → IsSem k sem ws → IsWaitQueue k sem ws
waits_of h = record { ring = h.ring; queued = h.queued }

module _ {k : Kernel} {sem : ℕ} (w : ℕ) (ws : List ℕ) (h : IsSem k sem (w ∷ ws)) where
  up-eq :
      (cls : SchedClass)
      → (k.sys.procs (k.waits w).proc).wait_state ≡ wt_ksem
      → up cls sem k ≡ (wakeup_proc cls (k.waits w).proc k.sys >>= λ s. some (roused w wt_ksem s k))
  unfolding up
  up-eq cls waits =
      rw (up, first_wait w ws (waits_of h), waits) (wakeup_wait-eq w ws (waits_of h) cls wt_ksem)

  roused-IsSem : (s : Sys) → IsSem (roused w wt_ksem s k) sem ws
  roused-IsSem s =
      let rest = roused-IsWaitQueue w ws (waits_of h) wt_ksem s in
      record {
        ring = rest.ring;
        queued = rest.queued;
        idle = elim h.idle [ inl zero ↦ inl zero | inr e ↦ absurd (cc) ];
      }

  finishes : (s : Sys) → down_finish sem w (roused w wt_ksem s k) ≡ some (roused w wt_ksem s k)
  unfolding down_finish wait_current_del wait_in_queue
  finishes s =
      rw ((list_empty-IsRing (list_del_init-IsRing [] w ws h.ring).1).1 refl, ==_refl w) refl

  -- Let a semaphore have waits in its queue and no units, and let the process of the first wait be
  -- one that waits for a semaphore. Where waking that process succeeds, `up` returns, leaves the
  -- value alone and takes the first wait out, the others keeping their order; and the rest of
  -- `down` for that wait then returns at once and changes nothing.
  pub up-down_finish :
      (cls : SchedClass) (s : Sys)
      → (k.sys.procs (k.waits w).proc).wait_state ≡ wt_ksem
      → wakeup_proc cls (k.waits w).proc k.sys ≡ some s
      → (t : Kernel) × (up cls sem k ≡ some t)
        × (t.sys ≡ s)
        × (t.values sem ≡ k.values sem)
        × IsSem t sem ws
        × (down_finish sem w t ≡ some t)
  up-down_finish cls s waits woken = (
    roused w wt_ksem s k,
    up-eq cls waits ∙ rw woken refl,
    refl,
    refl,
    roused-IsSem s,
    finishes s,
  )

module _ {k : Kernel} {sem : ℕ} (w : ℕ) (ws : List ℕ) (h : IsSem k sem ws) (ne : w ≢ sem)
    (new : NotIn w ws) (none_left : k.values sem ≡ 0) where
  waiting-IsSem : IsSem (enqueued w sem wt_ksem k) sem (ws ++ w ∷ [])
  unfolding wait_init
  waiting-IsSem =
      let q = waiting-IsWaitQueue wt_ksem w ws (waits_of h) ne new in
      record { ring = q.ring; queued = q.queued; idle = inl none_left }

  -- On a semaphore without units, with a wait that is neither its head nor in its queue, `down` up
  -- to its call of `schedule` returns; the running process is marked as sleeping for a semaphore,
  -- the wait stands at the end of the queue, and there are still no units.
  pub down_start-IsSem :
      (t : Kernel) × (down_start sem w k ≡ some (false, t))
      × (t.sys ≡ asleep wt_ksem k)
      × (t.values sem ≡ 0)
      × IsSem t sem (ws ++ w ∷ [])
  unfolding down_start wait_init
  down_start-IsSem = (
    enqueued w sem wt_ksem k,
    rw (none_left, set-wait w sem wt_ksem k) refl,
    refl,
    none_left,
    waiting-IsSem,
  )
