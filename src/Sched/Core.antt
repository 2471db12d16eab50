-- ===== src/Sched/Core.antt =====
-- lab8/kern/schedule/sched.c: the class-independent scheduler. Interrupts are off in each function,
-- so each is one step. Of `proc_run` only the change of `current` is modelled: the rest of it
-- switches the page table and the registers.
use os.Base.{ℕ, ◌+◌, true, false, not, Option, none, some, ◌==◌, if◌then◌else◌, ◌>>=◌, ◌>>◌, check}
use os.Sched.Queue.{runnable, Sys, SchedClass, set_proc, is_runnable, is_zombie}

module _ (cls : SchedClass) where
  unfoldable pub sched_class_enqueue : ℕ → Sys → Option Sys
  sched_class_enqueue p s = if not (p == s.idleproc) then cls.enqueue p s else some s

  unfoldable pub sched_class_proc_tick : ℕ → Sys → Sys
  sched_class_proc_tick p s =
      if not (p == s.idleproc)
      then cls.proc_tick p s
      else set_proc p (record (s.procs p) { need_resched = true }) s

  -- A process that is already runnable only gets a warning.
  unfoldable pub wakeup_proc : ℕ → Sys → Option Sys
  wakeup_proc p s = do
    check (not (is_zombie (s.procs p).state))
    let woken = set_proc p (record (s.procs p) { state = runnable; wait_state = 0 }) s
    if not (is_runnable (s.procs p).state)
        then (if not (p == s.current) then sched_class_enqueue p woken else some woken)
        else some s

  -- The choice of the next process: the class's pick, taken out of the queue, or `idleproc`.
  unfoldable pub choose_next : Sys → Option (ℕ × Sys)
  choose_next s = cls.pick_next s >>= λ picked. elim picked.0 [
    | none ↦ some (s.idleproc, picked.1)
    | some next ↦ cls.dequeue next picked.1 >>= λ t. some (next, t)
  ]

  -- `next->runs++`, and `proc_run` where the process changes.
  abbrev pub switch_to : ℕ → Sys → Sys
  switch_to next s =
      let counted = set_proc next (record (s.procs next) { runs = (s.procs next).runs + 1 }) s in
      if not (next == s.current) then record counted { current = next } else counted

  unfoldable pub schedule : Sys → Option Sys
  schedule s = do
    let cleared = set_proc s.current (record (s.procs s.current) { need_resched = false }) s
    queued ←
        (if is_runnable (s.procs s.current).state
          then sched_class_enqueue s.current cleared
          else some cleared)
    chosen ← choose_next queued
    some (switch_to chosen.0 chosen.1)
