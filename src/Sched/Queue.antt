-- ===== src/Sched/Queue.antt =====
-- `struct run_queue` and `struct sched_class` (lab8/kern/schedule/sched.h), and the fields of
-- `struct proc_struct` (lab8/kern/process/proc.h) that scheduling reads and writes.
-- A process is a number; its `run_link` has the address one above, `run_list` the address 0.
use os.Base.{ℕ, suc, Bool, true, false, Option, ◌==◌, if◌then◌else◌}
use os.Links.{Links}
use os.Sched.SkewHeap.{SkewHeap}

pub data ProcState : Type 0 where
  uninit sleeping runnable zombie : ProcState

pub record Proc : Type 0 where
  pub state : ProcState
  pub runs : ℕ
  pub need_resched : Bool
  pub wait_state : ℕ
  pub on_rq : Bool
  pub time_slice : ℕ
  pub stride : ℕ
  pub priority : ℕ

-- `links` holds the pointers of `run_list` and of every `run_link`.
pub record RunQueue : Type 0 where
  pub links : Links
  pub proc_num : ℕ
  pub max_time_slice : ℕ
  pub run_pool : SkewHeap

-- What the scheduler's functions share: the queue `rq`, the process table, `current`, `idleproc`.
pub record Sys : Type 0 where
  pub rq : RunQueue
  pub procs : ℕ → Proc
  pub current : ℕ
  pub idleproc : ℕ

abbrev pub run_list : ℕ
run_list = 0

abbrev pub run_link : ℕ → ℕ
run_link p = suc p

abbrev pub set_proc : ℕ → Proc → Sys → Sys
set_proc p v s = record s { procs = λ q. if p == q then v else s.procs q }

-- `none` is a failed assertion.
pub record SchedClass : Type 0 where
  pub init : RunQueue → RunQueue
  pub enqueue : ℕ → Sys → Option Sys
  pub dequeue : ℕ → Sys → Option Sys
  pub pick_next : Sys → Option (Option ℕ × Sys)
  pub proc_tick : ℕ → Sys → Sys

abbrev pub is_runnable : ProcState → Bool
is_runnable runnable = true
is_runnable uninit = false
is_runnable sleeping = false
is_runnable zombie = false

abbrev pub is_zombie : ProcState → Bool
is_zombie zombie = true
is_zombie uninit = false
is_zombie sleeping = false
is_zombie runnable = false
