-- ===== src/Examples/Schedule.antt =====
-- The schedulers: process 1 runs, 2 and 3 wait.
use os.Base.{
  ℕ, ◌+◌, ◌≡◌, ◌^◌, refl, List, [], ◌∷◌, some, arith, true, false, ◌==◌, ltb, if◌then◌else◌, ◌>>=◌,
  ◌-◌,
}
use os.Links.{list_empty}
use os.Sched.SkewHeap.{SkewHeap, null, node, Sign, minus_one, zero, one}
use os.Sched.SkewHeap.Content.{count}
use os.Sched.SkewHeap.Order.{IsHeap}
use os.Sched.SkewHeap.Pointers.{
  Entries, Holds, Same, skew_heap_init, set_parent, hang, skew_heap_merge, skew_heap_insert,
  replace, skew_heap_remove,
}
use os.Sched.SkewHeap.Removing.{skew_heap_remove-IsHeap}
use os.Sched.Queue.{runnable, Proc, Sys}
use os.Sched.RoundRobin.{default_sched_class}
use os.Sched.RoundRobin.Fifo.{IsQueue}
use os.Sched.RoundRobin.Rotate.{Turn, schedules, schedules-Turn}
use os.Sched.Timer.{Timer, add_timer, tick_timers}
use os.Sched.Timer.Deadlines.{deadlines, schedule_at, add_timer-deadlines}
use os.Sched.Timer.Ticks.{wake_all, tick_timers-deadlines}

abbrev waiting : ℕ → Proc
waiting p = record {
  state = runnable;
  runs = 0;
  need_resched = false;
  wait_state = 0;
  on_rq = true;
  time_slice = 5;
  stride = if p == 2 then 2 ^ 32 - 1 else if p == 3 then 4 else 6;
  priority = 2;
}

abbrev sys : Sys
sys = record {
  rq = record {
    links = record {
      next = λ q. if q == 0 then 3 else if q == 3 then 4 else if q == 4 then 0 else q;
      prev = λ q. if q == 0 then 4 else if q == 4 then 3 else if q == 3 then 0 else q;
    };
    proc_num = 2;
    max_time_slice = 5;
    run_pool = node 2 (node 3 null null) null;
  };
  procs = waiting;
  current = 1;
  idleproc = 0;
}

sys-IsQueue : IsQueue sys (2 ∷ 3 ∷ [])
sys-IsQueue = record {
  ring = record {
    forward = (refl, (refl, refl));
    backward = (refl, (refl, refl));
    distinct = omega arith;
  };
  counted = refl;
  few = omega arith;
  flags = (refl, (refl, tt));
}

sys-Turn : Turn sys (2 ∷ 3 ∷ [])
unfolding list_empty
sys-Turn = record {
  queue = sys-IsQueue;
  detached = refl;
  room = omega arith;
  live = ((refl, omega arith), ((refl, omega arith), ((refl, omega arith), tt)));
}

schedules-Turn_example :
    (t : Sys) × (schedules 2 sys ≡ some t) × (t.current ≡ 3) × Turn t (1 ∷ 2 ∷ [])
schedules-Turn_example = schedules-Turn (2 ∷ []) 3 [] sys-Turn

-- The true strides: that of process 2 has not wrapped, those of the others have.
abbrev strides : ℕ → ℕ
strides p = if p == 2 then 2 ^ 32 - 1 else if p == 3 then 2 ^ 32 + 4 else 2 ^ 32 + 6

abbrev by_number : ℕ → ℕ → Sign
by_number a b = if ltb a b then minus_one else if a == b then zero else one

-- 2 over 5 and 3, and 7 below 3 on the left.
abbrev four_entries : Entries
four_entries = record {
  parent = λ x. if x == 2 then 0 else if x == 7 then 3 else 2;
  left = λ x. if x == 2 then 5 else if x == 3 then 7 else 0;
  right = λ x. if x == 2 then 3 else 0;
}

abbrev four_tree : SkewHeap
four_tree = node 2 (node 5 null null) (node 3 (node 7 null null) null)

four-Holds : Holds four_entries 0 2 four_tree
four-Holds = (
  refl,
  λ e. omega (arith, e),
  refl,
  (refl, λ e. omega (arith, e), refl, refl, refl),
  (refl, λ e. omega (arith, e), refl, (refl, λ e. omega (arith, e), refl, refl, refl), refl),
)

skew_heap_remove-IsHeap_example :
    (a : ℕ) × (s : Entries) × (t : SkewHeap) × (skew_heap_remove by_number 5 2 3 four_entries
      ≡ some (a, s))
    × Holds s 0 a t
    × IsHeap (λ x. x) t
    × ((x : ℕ) → count x t ≡ (if 3 == x then 0 else count x four_tree))
    × ((x : ℕ) → count x four_tree ≡ 0 → Same four_entries s x)
skew_heap_remove-IsHeap_example =
    skew_heap_remove-IsHeap by_number (λ x. x) (λ _. Unit {0}) (λ a b _ _. ground arith)
      four_entries four_tree 5 2 3 four-Holds (λ x. ground arith)
      (tt, (tt, tt, tt), (tt, (tt, tt, tt), tt))
      (
        (omega arith, tt, tt),
        (omega arith, (omega arith, tt, tt), tt),
        (tt, tt, tt, tt),
        ((omega arith, tt, tt), tt, (tt, tt, tt, tt), tt),
      )
      (omega arith) (omega arith)

-- 7 takes the place of 3, on the right of 2.
relinked :
    (skew_heap_remove by_number 5 2 3 four_entries >>= λ m.
    some (m.0 ∷ m.1.left 2 ∷ m.1.right 2 ∷ m.1.parent 7 ∷ []))
    ≡ some (2 ∷ 5 ∷ 7 ∷ 2 ∷ [])
unfolding skew_heap_remove skew_heap_merge replace set_parent
relinked = refl

-- 1 becomes the root, with 2 on its left.
inserted :
    (skew_heap_insert by_number 5 2 1 four_entries >>= λ m.
    some (m.0 ∷ m.1.left 1 ∷ m.1.parent 2 ∷ []))
    ≡ some (1 ∷ 2 ∷ 1 ∷ [])
unfolding skew_heap_insert skew_heap_init skew_heap_merge hang set_parent
inserted = refl

abbrev timers : List Timer
timers =
    record { id = 1; proc = 2; expires = 1 }
    ∷ record { id = 2; proc = 3; expires = 0 }
    ∷ record { id = 3; proc = 7; expires = 4 }
    ∷ []

add_timer-deadlines_example :
    (us : List Timer) × (add_timer (record { id = 9; proc = 8; expires = 3 }) timers ≡ some us)
    × (deadlines 0 us ≡ schedule_at (record { id = 9; proc = 8; time = 3 }) (deadlines 0 timers))
add_timer-deadlines_example =
    add_timer-deadlines (record { id = 9; proc = 8; expires = 3 }) timers (omega arith) refl

tick_timers-deadlines_example :
    (us : List Timer) × (tick_timers default_sched_class timers sys
      ≡ (wake_all default_sched_class (2 ∷ 3 ∷ []) sys >>= λ s'. some (us, s')))
    × (deadlines 0 us ≡ record { id = 3; proc = 7; time = 4 } ∷ [])
tick_timers-deadlines_example =
    tick_timers-deadlines default_sched_class (record { id = 1; proc = 2; expires = 1 })
      (record { id = 2; proc = 3; expires = 0 } ∷ record { id = 3; proc = 7; expires = 4 } ∷ []) sys
      (omega arith)
