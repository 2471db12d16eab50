-- ===== src/Sync.antt =====
-- lab8/kern/sync/wait.c and sem.c: wait queues and semaphores. Interrupts are off in each function,
-- so each is one step; `down` is two, before and after the call of `schedule`.
-- A wait queue, or the semaphore that it belongs to, is the address of its `wait_head`, and a wait
-- that of its `wait_link`. The process of a wait is never NULL, and the value of a semaphore, which no
-- operation makes negative, is a natural number.
pub mod Waits
pub mod Semaphore
use os.Base.{
  ℕ, zero, suc, ◌+◌, ◌-◌, Bool, true, false, not, ◌&&◌, Option, none, some, ◌==◌, ltb,
  if◌then◌else◌, ◌>>=◌, ◌>>◌, check,
}
use os.Links.{Links, list_init, list_empty, list_add_before, list_del_init, list_next, list_prev}
use os.Sched.Queue.{ProcState, sleeping, Proc, Sys, SchedClass, set_proc}
use os.Sched.Core.{wakeup_proc}

pub record Wait : Type 0 where
  pub proc : ℕ
  pub wakeup_flags : ℕ
  pub wait_queue : ℕ

-- The scheduler's state, the links of all queues and waits, the waits, and the semaphores' values.
pub record Kernel : Type 0 where
  pub sys : Sys
  pub links : Links
  pub waits : ℕ → Wait
  pub values : ℕ → ℕ

abbrev pub wt_interrupted : ℕ
wt_interrupted = 0x8000_0000

abbrev pub wt_ksem : ℕ
wt_ksem = 0x100

abbrev pub set_wait : ℕ → Wait → Kernel → Kernel
set_wait w v k = record k { waits = λ x. if w == x then v else k.waits x }

abbrev pub set_value : ℕ → ℕ → Kernel → Kernel
set_value sem v k = record k { values = λ x. if sem == x then v else k.values x }

unfoldable pub wait_init : ℕ → ℕ → Kernel → Kernel
wait_init w p k =
    let t = set_wait w (record (k.waits w) { proc = p; wakeup_flags = wt_interrupted }) k in
    record t { links = list_init w t.links }

unfoldable pub wait_queue_init : ℕ → Kernel → Kernel
wait_queue_init queue k = record k { links = list_init queue k.links }

unfoldable pub wait_queue_add : ℕ → ℕ → Kernel → Option Kernel
wait_queue_add queue w k = do
  check (list_empty w k.links)
  let t = set_wait w (record (k.waits w) { wait_queue = queue }) k
  some (record t { links = list_add_before queue w t.links })

-- The assertion that most operations begin with: the wait stands in the queue.
abbrev pub check_queued : ℕ → ℕ → Kernel → Option (Unit {0})
check_queued queue w k = check (not (list_empty w k.links) && ((k.waits w).wait_queue == queue))

unfoldable pub wait_queue_del : ℕ → ℕ → Kernel → Option Kernel
wait_queue_del queue w k = do
  check_queued queue w k
  some (record k { links = list_del_init w k.links })

-- The wait at a link, or NULL at the head of the queue.
abbrev pub unless_head : ℕ → ℕ → Option ℕ
unless_head queue le = if not (le == queue) then some le else none

unfoldable pub wait_queue_next : ℕ → ℕ → Kernel → Option (Option ℕ)
wait_queue_next queue w k = check_queued queue w k >> some (unless_head queue (list_next w k.links))

unfoldable pub wait_queue_prev : ℕ → ℕ → Kernel → Option (Option ℕ)
wait_queue_prev queue w k = check_queued queue w k >> some (unless_head queue (list_prev w k.links))

unfoldable pub wait_queue_first : ℕ → Kernel → Option ℕ
wait_queue_first queue k = unless_head queue (list_next queue k.links)

unfoldable pub wait_queue_last : ℕ → Kernel → Option ℕ
wait_queue_last queue k = unless_head queue (list_prev queue k.links)

unfoldable pub wait_queue_empty : ℕ → Kernel → Bool
wait_queue_empty queue k = list_empty queue k.links

unfoldable pub wait_in_queue : ℕ → Kernel → Bool
wait_in_queue w k = not (list_empty w k.links)

-- The macro `wait_current_del`.
unfoldable pub wait_current_del : ℕ → ℕ → Kernel → Option Kernel
wait_current_del queue w k = if wait_in_queue w k then wait_queue_del queue w k else some k

unfoldable pub wait_current_set : ℕ → ℕ → ℕ → Kernel → Option Kernel
wait_current_set queue w wait_state k =
    let t = wait_init w k.sys.current k in
    let p = t.sys.current in
    let asleep = record (t.sys.procs p) { state = sleeping; wait_state = wait_state } in
    wait_queue_add queue w (record t { sys = set_proc p asleep t.sys })

unfoldable pub sem_init : ℕ → ℕ → Kernel → Kernel
sem_init sem value k = wait_queue_init sem (set_value sem value k)

unfoldable pub try_down : ℕ → Kernel → Bool × Kernel
try_down sem k =
    if ltb 0 (k.values sem) then (true, set_value sem (k.values sem - 1) k) else (false, k)

module _ (cls : SchedClass) where
  unfoldable pub wakeup_wait : ℕ → ℕ → ℕ → Bool → Kernel → Option Kernel
  wakeup_wait queue w wakeup_flags del k = do
    t ← (if del then wait_queue_del queue w k else some k)
    let u = set_wait w (record (t.waits w) { wakeup_flags = wakeup_flags }) t
    s ← wakeup_proc cls (u.waits w).proc u.sys
    some (record u { sys = s })

  unfoldable pub wakeup_first : ℕ → ℕ → Bool → Kernel → Option Kernel
  wakeup_first queue wakeup_flags del k = elim (wait_queue_first queue k) [
    | none ↦ some k
    | some w ↦ wakeup_wait queue w wakeup_flags del k
  ]

  -- The two loops of `wakeup_queue`, from the wait that was found.
  unfoldable pub wakeup_all : ℕ → ℕ → ℕ → Option ℕ → Kernel → Option Kernel
  wakeup_all zero queue flags w k = none
  wakeup_all (suc fuel) queue flags none k = some k
  wakeup_all (suc fuel) queue flags (some w) k = wakeup_wait queue w flags true k >>= λ t.
      wakeup_all fuel queue flags (wait_queue_first queue t) t

  unfoldable pub wakeup_each : ℕ → ℕ → ℕ → Option ℕ → Kernel → Option Kernel
  wakeup_each zero queue flags w k = none
  wakeup_each (suc fuel) queue flags none k = some k
  wakeup_each (suc fuel) queue flags (some w) k = wakeup_wait queue w flags false k >>= λ t.
      wait_queue_next queue w t >>= λ next. wakeup_each fuel queue flags next t

  unfoldable pub wakeup_queue : ℕ → ℕ → ℕ → Bool → Kernel → Option Kernel
  wakeup_queue fuel queue flags del k =
      if del
      then wakeup_all fuel queue flags (wait_queue_first queue k) k
      else wakeup_each fuel queue flags (wait_queue_first queue k) k

  -- `__up`, with `WT_KSEM` as `up` passes it.
  unfoldable pub up : ℕ → Kernel → Option Kernel
  up sem k = elim (wait_queue_first sem k) [
    | none ↦ some (set_value sem (k.values sem + 1) k)
    | some w ↦
        check ((k.sys.procs (k.waits w).proc).wait_state == wt_ksem)
        >> wakeup_wait sem w wt_ksem true k
  ]

-- `__down` up to the call of `schedule`, which follows as a step of its own where the semaphore is
-- not free: whether it was free, and the state. `w` is the wait on the caller's stack.
unfoldable pub down_start : ℕ → ℕ → Kernel → Option (Bool × Kernel)
down_start sem w k =
    let asleep = wait_current_set sem w wt_ksem k >>= λ t. some (false, t) in
    if ltb 0 (k.values sem) then some (true, set_value sem (k.values sem - 1) k) else asleep

-- The rest of `__down` once the process runs again, and the assertion of `down` on its result.
unfoldable pub down_finish : ℕ → ℕ → Kernel → Option Kernel
down_finish sem w k = do
  t ← wait_current_del sem w k
  let result = if not ((t.waits w).wakeup_flags == wt_ksem) then (t.waits w).wakeup_flags else 0
  check (result == 0)
  some t
