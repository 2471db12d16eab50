-- ===== src/Sched/Stride.antt =====
-- lab8/kern/schedule/default_sched_stride.c: the stride scheduling class, over the skew heap.
pub mod Window
use os.Base.{
  ℕ, ◌+◌, ◌-◌, ◌/◌, ◌%◌, ◌^◌, Bool, true, false, not, ◌&&◌, Option, none, some, ◌==◌, ltb,
  if◌then◌else◌, ◌>>=◌, ◌>>◌, check,
}
use os.Links.{list_init}
use os.Sched.SkewHeap.{SkewHeap, null, node, Sign, minus_one, zero, one, insert, remove}
use os.Sched.Queue.{Proc, RunQueue, Sys, SchedClass, run_list, set_proc}
use os.Sched.RoundRobin.{admit, count_down}

abbrev pub big_stride : ℕ
big_stride = 2 ^ 30

-- The sign of the difference of two strides, read as an `int32_t`.
unfoldable pub stride_sign : ℕ → ℕ → Sign
stride_sign a b =
    let c = (a + 2 ^ 32 - b) % 2 ^ 32 in
    if c == 0 then zero else if ltb c (2 ^ 31) then one else minus_one

unfoldable pub proc_stride_comp_f : (ℕ → Proc) → ℕ → ℕ → Sign
proc_stride_comp_f procs p q = stride_sign (procs p).stride (procs q).stride

unfoldable pub stride_init : RunQueue → RunQueue
stride_init rq = record rq { links = list_init run_list rq.links; run_pool = null; proc_num = 0 }

unfoldable pub stride_enqueue : ℕ → Sys → Option Sys
stride_enqueue p s =
    let pool = insert (proc_stride_comp_f s.procs) s.rq.run_pool p in
    some (admit p (record s { rq = record s.rq { run_pool = pool } }))

unfoldable pub stride_dequeue : ℕ → Sys → Option Sys
stride_dequeue p s = do
  check ((s.procs p).on_rq && ltb 0 s.rq.proc_num)
  some (record s {
    rq = record s.rq {
      run_pool = remove (proc_stride_comp_f s.procs) s.rq.run_pool p;
      proc_num = count_down s.rq.proc_num;
    };
  })

-- A division by a priority of 0 is undefined in C, and stops the model.
unfoldable pub pick_root : SkewHeap → Sys → Option (Option ℕ × Sys)
pick_root null s = some (none, s)
pick_root (node p l r) s = do
  let proc = s.procs p
  check (ltb 0 proc.priority)
  let stride = (proc.stride + big_stride / proc.priority) % 2 ^ 32
  some (some p, set_proc p (record proc { stride = stride }) s)

unfoldable pub stride_pick_next : Sys → Option (Option ℕ × Sys)
stride_pick_next s = pick_root s.rq.run_pool s

unfoldable pub stride_proc_tick : ℕ → Sys → Sys
stride_proc_tick p s =
    let proc = s.procs p in
    let slice = if ltb 0 proc.time_slice then proc.time_slice - 1 else proc.time_slice in
    let resched = if slice == 0 then true else proc.need_resched in
    set_proc p (record proc { time_slice = slice; need_resched = resched }) s

unfoldable pub stride_sched_class : SchedClass
stride_sched_class = record {
  init = stride_init;
  enqueue = stride_enqueue;
  dequeue = stride_dequeue;
  pick_next = stride_pick_next;
  proc_tick = stride_proc_tick;
}
