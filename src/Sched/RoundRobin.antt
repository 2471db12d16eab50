-- ===== src/Sched/RoundRobin.antt =====
-- lab8/kern/schedule/default_sched.c: the round-robin scheduling class.
pub mod Fifo
pub mod Rotate
use os.Base.{
  ℕ, ◌+◌, ◌-◌, ◌%◌, ◌^◌, Bool, true, false, not, ◌&&◌, ◌||◌, Option, none, some, ◌==◌, ltb,
  if◌then◌else◌, ◌>>=◌, ◌>>◌, check, pred,
}
use os.Links.{list_init, list_empty, list_add_before, list_del_init, list_next}
use os.Sched.Queue.{Proc, RunQueue, Sys, SchedClass, run_list, run_link, set_proc}

-- `unsigned int` counting.
abbrev pub count_up : ℕ → ℕ
count_up n = (n + 1) % 2 ^ 32

abbrev pub count_down : ℕ → ℕ
count_down n = (n + 2 ^ 32 - 1) % 2 ^ 32

unfoldable pub rr_init : RunQueue → RunQueue
rr_init rq = record rq { links = list_init run_list rq.links; proc_num = 0 }

-- The part that both classes share: the time slice is renewed if it is used up or too long, and
-- the process and the queue's count are updated.
abbrev pub admit : ℕ → Sys → Sys
admit p s =
    let proc = s.procs p in
    let slice =
      if proc.time_slice == 0 || ltb s.rq.max_time_slice proc.time_slice
      then s.rq.max_time_slice
      else proc.time_slice in
    let t = set_proc p (record proc { time_slice = slice; on_rq = true }) s in
    record t { rq = record t.rq { proc_num = count_up t.rq.proc_num } }

unfoldable pub rr_enqueue : ℕ → Sys → Option Sys
rr_enqueue p s = do
  check (list_empty (run_link p) s.rq.links)
  let linked = list_add_before run_list (run_link p) s.rq.links
  some (admit p (record s { rq = record s.rq { links = linked } }))

unfoldable pub rr_dequeue : ℕ → Sys → Option Sys
rr_dequeue p s = do
  check (not (list_empty (run_link p) s.rq.links) && (s.procs p).on_rq)
  some (record s {
    rq = record s.rq {
      links = list_del_init (run_link p) s.rq.links;
      proc_num = count_down s.rq.proc_num;
    };
  })

unfoldable pub rr_pick_next : Sys → Option (Option ℕ × Sys)
rr_pick_next s =
    let le = list_next run_list s.rq.links in
    if not (le == run_list) then some (some (pred le), s) else some (none, s)

unfoldable pub rr_proc_tick : ℕ → Sys → Sys
rr_proc_tick p s =
    let proc = s.procs p in
    let slice = if ltb 0 proc.time_slice then proc.time_slice - 1 else proc.time_slice in
    let resched = if slice == 0 then true else proc.need_resched in
    set_proc p (record proc { time_slice = slice; need_resched = resched }) s

unfoldable pub default_sched_class : SchedClass
default_sched_class = record {
  init = rr_init;
  enqueue = rr_enqueue;
  dequeue = rr_dequeue;
  pick_next = rr_pick_next;
  proc_tick = rr_proc_tick;
}
