-- ===== src/Sched.antt =====
-- The scheduler: lab8/kern/schedule and lab8/libs/skew_heap.h.
pub mod SkewHeap
pub mod Queue
pub mod RoundRobin
pub mod Core
pub mod Stride
pub mod Timer
