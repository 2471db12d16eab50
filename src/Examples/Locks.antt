-- ===== src/Examples/Locks.antt =====
-- lab8/kern/sync/sem.c: process 1 runs, and process 5 waits for the semaphore 10 with the wait 20.
use os.Base.{ℕ, ◌≡◌, refl, [], ◌∷◌, some, inl, arith, ◌==◌, if◌then◌else◌, true, false}
use os.Links.{list_add_before, list_empty}
use os.Sched.SkewHeap.{null}
use os.Sched.Queue.{runnable, sleeping, Proc, Sys, set_proc}
use os.Sched.Core.{wakeup_proc, sched_class_enqueue}
use os.Sched.RoundRobin.{default_sched_class, rr_enqueue, admit}
use os.Sync.{Kernel, wt_ksem, up, down_start, down_finish, wakeup_queue}
use os.Sync.Waits.{IsWaitQueue, wakeup_queue-wake_procs}
use os.Sync.Waits.{asleep}
use os.Sync.Semaphore.{IsSem, up-down_finish, down_start-IsSem}

abbrev procs : ℕ → Proc
procs p = record {
  state = if p == 5 then sleeping else runnable;
  runs = 0;
  need_resched = false;
  wait_state = if p == 5 then wt_ksem else 0;
  on_rq = true;
  time_slice = 5;
  stride = 0;
  priority = 1;
}

abbrev pub kernel : Kernel
kernel = record {
  sys = record {
    rq = record {
      links = record { next = λ q. q; prev = λ q. q };
      proc_num = 0;
      max_time_slice = 5;
      run_pool = null;
    };
    procs = procs;
    current = 1;
    idleproc = 0;
  };
  links = record {
    next = λ q. if q == 10 then 20 else if q == 20 then 10 else q;
    prev = λ q. if q == 10 then 20 else if q == 20 then 10 else q;
  };
  waits = λ w. record { proc = if w == 20 then 5 else 1; wakeup_flags = 0; wait_queue = 10 };
  values = λ sem. 0;
}

pub kernel-IsSem : IsSem kernel 10 (20 ∷ [])
kernel-IsSem = record {
  ring = record { forward = (refl, refl); backward = (refl, refl); distinct = omega arith };
  queued = (refl, tt);
  idle = inl refl;
}

-- The scheduler's state once process 5 has been woken.
abbrev pub woken : Sys
woken =
    let t = set_proc 5 (record (procs 5) { state = runnable; wait_state = 0 }) kernel.sys in
    admit 5 (record t { rq = record t.rq { links = list_add_before 0 6 t.rq.links } })

pub wakes : wakeup_proc default_sched_class 5 kernel.sys ≡ some woken
unfolding wakeup_proc sched_class_enqueue rr_enqueue default_sched_class list_empty
wakes = refl

up-down_finish_example :
    (t : Kernel) × (up default_sched_class 10 kernel ≡ some t)
    × (t.sys ≡ woken)
    × (t.values 10 ≡ 0)
    × IsSem t 10 []
    × (down_finish 10 20 t ≡ some t)
up-down_finish_example = up-down_finish 20 [] kernel-IsSem default_sched_class woken refl wakes

down_start-IsSem_example :
    (t : Kernel) × (down_start 10 30 kernel ≡ some (false, t))
    × (t.sys ≡ asleep wt_ksem kernel)
    × (t.values 10 ≡ 0)
    × IsSem t 10 (20 ∷ 30 ∷ [])
down_start-IsSem_example =
    down_start-IsSem 30 (20 ∷ []) kernel-IsSem (omega arith) (omega arith) refl

wakeup_queue-wake_procs_example :
    (t : Kernel) × (wakeup_queue default_sched_class 2 10 wt_ksem true kernel ≡ some t)
    × (t.sys ≡ woken)
    × IsWaitQueue t 10 []
wakeup_queue-wake_procs_example =
    wakeup_queue-wake_procs default_sched_class 2 10 wt_ksem kernel (20 ∷ []) woken
      (record { ring = kernel-IsSem.ring; queued = kernel-IsSem.queued }) (omega arith)
      (rw wakes refl)
