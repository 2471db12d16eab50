-- ===== src/Sched/Timer.antt =====
-- The timers of lab8/kern/schedule/sched.c. `timer_list` is the list of the timers in it; each
-- holds in `expires` the ticks from the timer before it, so that a tick changes only the first.
pub mod Deadlines
pub mod Ticks
use Prim.Native.Nat.{bit_and}
use os.Base.{
  ℕ, ◌+◌, ◌-◌, ◌%◌, ◌^◌, Bool, true, false, not, List, [], ◌∷◌, Option, none, some, ◌==◌, ltb,
  if◌then◌else◌, ◌>>=◌, ◌>>◌, check,
}
use os.Sched.Queue.{Sys, SchedClass}
use os.Sched.RoundRobin.{default_sched_class}
use os.Sched.Core.{wakeup_proc, sched_class_proc_tick}

-- `timer_t`: the timer's own number stands for its address.
pub record Timer : Type 0 where
  pub id : ℕ
  pub proc : ℕ
  pub expires : ℕ

unfoldable pub timer_init : Timer → ℕ → ℕ → Timer
timer_init t p expires = record t { proc = p; expires = expires }

-- The list of timers, and the scheduler's state.
unfoldable pub sched_init : Sys → List Timer × Sys
sched_init s = ([], record s { rq = default_sched_class.init (record s.rq { max_time_slice = 5 }) })

abbrev pub wt_interrupted : ℕ
wt_interrupted = 0x8000_0000

-- The loop of `add_timer` from one entry on. The subtractions are made only where they do not wrap.
unfoldable pub place_timer : Timer → List Timer → List Timer
place_timer t [] = t ∷ []
place_timer t (next ∷ rest) =
    if ltb t.expires next.expires
    then t ∷ record next { expires = next.expires - t.expires } ∷ rest
    else next ∷ place_timer (record t { expires = t.expires - next.expires }) rest

abbrev pub in_list : ℕ → List Timer → Bool
in_list id [] = false
in_list id (t ∷ ts) = if t.id == id then true else in_list id ts

-- The assertions: the timer has time left, and is in no list.
unfoldable pub add_timer : Timer → List Timer → Option (List Timer)
add_timer t ts = do check (ltb 0 t.expires); check (not (in_list t.id ts)); some (place_timer t ts)

-- The timer behind the deleted one inherits what it had left.
abbrev pub inherit : ℕ → List Timer → List Timer
inherit left [] = []
inherit left (next ∷ rest) =
    if left == 0
    then next ∷ rest
    else record next { expires = (next.expires + left) % 2 ^ 32 } ∷ rest

unfoldable pub del_timer : ℕ → List Timer → List Timer
del_timer id [] = []
del_timer id (t ∷ ts) = if t.id == id then inherit t.expires ts else t ∷ del_timer id ts

module _ (cls : SchedClass) where
  -- The body of the loop of `run_timer_list`: a process that waits must be interruptible.
  unfoldable pub wake_expired : ℕ → Sys → Option Sys
  wake_expired p s = do
    let waits = (s.procs p).wait_state
    check (if not (waits == 0) then not (bit_and waits wt_interrupted == 0) else true)
    wakeup_proc cls p s

  -- The loop: the timers at 0 are deleted, and their processes woken.
  unfoldable pub expire : List Timer → Sys → Option (List Timer × Sys)
  expire [] s = some ([], s)
  expire (t ∷ ts) s =
      let woken = wake_expired t.proc s >>= λ s'. expire ts s' in
      if t.expires == 0 then woken else some (t ∷ ts, s)

  unfoldable pub tick_timers : List Timer → Sys → Option (List Timer × Sys)
  tick_timers [] s = some ([], s)
  tick_timers (t ∷ ts) s = do
    check (not (t.expires == 0))
    expire (record t { expires = t.expires - 1 } ∷ ts) s

  unfoldable pub run_timer_list : List Timer → Sys → Option (List Timer × Sys)
  run_timer_list ts s = do
    ticked ← tick_timers ts s
    some (ticked.0, sched_class_proc_tick cls ticked.1.current ticked.1)
