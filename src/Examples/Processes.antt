-- ===== src/Examples/Processes.antt =====
-- lab8/kern/process/proc.c: process 10 (`initproc`, pid 1) has the child 20 (pid 2), which runs and has the
-- children 40 and 30; 30 is a zombie.
use os.Base.{ℕ, sym, none, ◌<◌, ◌≡◌, refl, [], ◌∷◌, some, arith, ◌==◌, if◌then◌else◌, true, false}
use os.Links.{Links}
use os.Vm.{user_mem_check}
use mathlib.Core.Path.{subst}
use os.Links.Ring.{IsRing}
use os.Sched.SkewHeap.{null}
use os.Sched.Queue.{runnable, zombie, sleeping, Proc, Sys, set_proc}
use os.Sched.RoundRobin.{default_sched_class}
use os.Process.{
  Processes, get_pid, enter_proc, find_proc, do_exit, do_wait, inval, User, check_code_store,
  store_int, reaped, asleep, wt_child, tell_parent, pid_hashfn, max_pid,
}
use os.Process.Pid.{IsNumbered, Free, get_pid-Free}
use os.Process.Family.{IsFamily}
use os.Process.Table.{enter_proc-find_proc}
use os.Process.Exit.{do_exit-IsFamily}
use os.Process.Wait.{do_wait-reaped, do_wait-asleep}

abbrev procs : ℕ → Proc
procs p = record {
  state = if p == 30 then zombie else runnable;
  runs = 0;
  need_resched = false;
  wait_state = 0;
  on_rq = true;
  time_slice = 5;
  stride = 0;
  priority = 1;
}

abbrev self : Links
self = record { next = λ q. q; prev = λ q. q }

abbrev family : Processes
family = record {
  sys = record {
    rq = record { links = self; proc_num = 0; max_time_slice = 5; run_pool = null };
    procs = procs;
    current = 20;
    idleproc = 5;
  };
  proc_list = self;
  hash_list = self;
  pid = λ p. if p == 10 then 1 else if p == 20 then 2 else 3;
  parent = λ p. if p == 20 then 10 else 20;
  cptr = λ p. if p == 10 then 20 else if p == 20 then 40 else 0;
  yptr = λ p. if p == 30 then 40 else 0;
  optr = λ p. if p == 40 then 30 else 0;
  nr_process = 4;
  last_pid = 3;
  next_safe = 8192;
  initproc = 10;
}

current-IsFamily : IsFamily family 20 (40 ∷ 30 ∷ [])
current-IsFamily = record {
  first = refl;
  chain = (
    λ e. omega (arith, e),
    refl,
    refl,
    (λ e. omega (arith, e), tt),
    (λ e. omega (arith, e), refl, refl, tt, tt),
  );
  parents = (refl, (refl, tt));
}

init-IsFamily : IsFamily family 10 (20 ∷ [])
init-IsFamily = record {
  first = refl;
  chain = (λ e. omega (arith, e), refl, refl, tt, tt);
  parents = (refl, tt);
}

-- 30 with the pid 3 is the only process that is listed, and the only one of its bucket. A kernel
-- thread has no address space, and may have the code stored anywhere in the kernel's memory.
abbrev bucketed : Processes
bucketed = record family {
  proc_list = record { next = λ q. if q == 0 then 31 else 0; prev = λ q. if q == 0 then 31 else 0 };
  hash_list = record {
    next = λ q. if q == 874 then 1054 else 874;
    prev = λ q. if q == 874 then 1054 else 874;
  };
}

abbrev thread : User
thread = record { mm = none; memory = λ q. 0 }

abbrev code_address : ℕ
code_address = 0xFFFF_FFFF_C030_0000

bucket : pid_hashfn 3 ≡ 874
unfolding pid_hashfn
bucket = refl

code_checked : check_code_store code_address thread ≡ some (true, thread)
unfolding check_code_store user_mem_check
code_checked = refl

bucketed-IsRing : IsRing bucketed.proc_list 0 (31 ∷ [])
bucketed-IsRing = record { forward = (refl, refl); backward = (refl, refl); distinct = omega arith }

bucket-IsRing : IsRing bucketed.hash_list (pid_hashfn 3) (1054 ∷ [])
bucket-IsRing =
    subst (λ h. IsRing bucketed.hash_list h (1054 ∷ [])) (sym bucket)
      (record { forward = (refl, refl); backward = (refl, refl); distinct = omega arith })

-- 40 lives, so that its older sibling 30 is the one that is found.
do_wait-reaped_example :
    (t : Processes) × (do_wait 3 0 code_address (λ p. 7) thread bucketed
      ≡ some (reaped 30, record thread { memory = store_int code_address 7 (λ q. 0) }, t))
    × IsFamily t 20 (40 ∷ [])
    × IsRing t.proc_list 0 []
    × IsRing t.hash_list (pid_hashfn 3) []
    × (t.nr_process ≡ 3)
    × (t.sys ≡ family.sys)
do_wait-reaped_example =
    do_wait-reaped bucketed 3 code_address (λ p. 7) thread thread (40 ∷ []) 30 [] [] [] [] []
      code_checked
      (record {
        first = current-IsFamily.first;
        chain = current-IsFamily.chain;
        parents = current-IsFamily.parents;
      })
      refl refl (λ e. omega (arith, e)) (λ e. omega (arith, e)) (omega arith) bucketed-IsRing
      bucket-IsRing

-- The child 20 of `initproc` has no children of its own once these are gone, and `initproc` waits.
abbrev waiting : Processes
waiting = record family { sys = record family.sys { current = 10 } }

do_wait-asleep_example :
    do_wait 2 0 code_address (λ p. 7) thread waiting
    ≡ some (
      asleep,
      thread,
      record waiting {
        sys =
            set_proc 10 (record (procs 10) { state = sleeping; wait_state = wt_child }) waiting.sys;
      },
    )
do_wait-asleep_example =
    do_wait-asleep waiting 2 code_address (λ p. 7) true thread thread (20 ∷ []) code_checked
      (record {
        first = init-IsFamily.first;
        chain = init-IsFamily.chain;
        parents = init-IsFamily.parents;
      })
      refl (omega arith)

-- An address of user space is refused.
code_refused : do_wait 3 0 4096 (λ p. 7) thread bucketed ≡ some (inval, thread, bucketed)
unfolding do_wait check_code_store user_mem_check
code_refused = refl

abbrev dead : Sys
dead = set_proc 20 (record (procs 20) { state = zombie }) family.sys

told : tell_parent default_sched_class 20 family ≡ some dead
unfolding tell_parent
told = refl

do_exit-IsFamily_example :
    (t : Processes) × (do_exit default_sched_class 3 family ≡ some t)
    × IsFamily t 20 []
    × IsFamily t t.initproc (30 ∷ 40 ∷ 20 ∷ [])
    × (t.sys ≡ dead)
do_exit-IsFamily_example =
    do_exit-IsFamily default_sched_class 3 family dead dead (40 ∷ 30 ∷ []) (20 ∷ [])
      (λ e. omega (arith, e)) (λ e. omega (arith, e)) current-IsFamily init-IsFamily (omega arith)
      told (λ e. absurd (omega (arith, e))) (λ e. omega (arith, e))

-- The two that are listed have the pids 1 and 2, and 1 was the last to be given.
abbrev listed : Processes
listed = record family {
  proc_list = record {
    next = λ q. if q == 0 then 11 else if q == 11 then 21 else 0;
    prev = λ q. if q == 0 then 21 else if q == 21 then 11 else 0;
  };
  last_pid = 1;
  next_safe = 2;
}

listed-IsRing : IsRing listed.proc_list 0 (11 ∷ 21 ∷ [])
listed-IsRing = record {
  forward = (refl, (refl, refl));
  backward = (refl, (refl, refl));
  distinct = omega arith;
}

listed-IsNumbered : IsNumbered listed (11 ∷ 21 ∷ [])
listed-IsNumbered = record {
  last_bounded = omega arith;
  safe_bounded = omega arith;
  between = (λ lt. absurd (omega (arith, lt)), (λ lt. omega arith, tt));
}

get_pid-Free_example :
    (p : ℕ) × (safe : ℕ) × (get_pid 30000 listed
      ≡ some (p, record listed { last_pid = p; next_safe = safe }))
    × (0 < p)
    × (p < max_pid)
    × Free listed.pid p (11 ∷ 21 ∷ [])
    × IsNumbered (record listed { last_pid = p; next_safe = safe }) (11 ∷ 21 ∷ [])
get_pid-Free_example =
    get_pid-Free listed (11 ∷ 21 ∷ []) 100 30000 listed-IsRing listed-IsNumbered (omega arith)
      (omega arith) (λ e. omega (arith, e), (λ e. omega (arith, e), tt)) (omega arith)

-- With the pids in use, the walk goes on to 3.
get_pid_next : get_pid 10 listed ≡ some (3, record listed { last_pid = 3; next_safe = 8192 })
unfolding get_pid os.Process.scan_pids
get_pid_next = refl

-- The process 60, a child of the running one, is entered.
abbrev forking : Processes
forking = record listed { hash_list = self }

enter_proc-find_proc_example :
    (q : ℕ) × (t : Processes) × (enter_proc 30000 60 forking ≡ some t)
    × Free forking.pid q (11 ∷ 21 ∷ [])
    × (t.pid 60 ≡ q)
    × (find_proc 1 q t ≡ some (some 60))
    × IsRing t.proc_list 0 (61 ∷ 11 ∷ 21 ∷ [])
    × IsFamily t 20 (60 ∷ 40 ∷ 30 ∷ [])
enter_proc-find_proc_example =
    enter_proc-find_proc forking 60 100 30000 (10 ∷ 20 ∷ []) (40 ∷ 30 ∷ []) (λ b. []) listed-IsRing
      (record {
        last_bounded = listed-IsNumbered.last_bounded;
        safe_bounded = listed-IsNumbered.safe_bounded;
        between = listed-IsNumbered.between;
      })
      (λ b lt. record { forward = refl; backward = refl; distinct = (tt, tt) })
      (λ e. omega (arith, e), (λ e. omega (arith, e), tt)) (λ b. tt) (omega arith) (omega arith)
      (λ e. omega (arith, e), (λ e. omega (arith, e), tt)) (omega arith) (λ e. omega (arith, e))
      (record {
        first = current-IsFamily.first;
        chain = current-IsFamily.chain;
        parents = current-IsFamily.parents;
      })
      (λ e. omega (arith, e), (λ e. omega (arith, e), tt))
