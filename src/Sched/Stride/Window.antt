-- ===== src/Sched/Stride/Window.antt =====
-- Strides wrap at 2^32. While the true strides of the processes in the queue lie within BIG_STRIDE
-- of each other, the comparison of the wrapped ones is right, the pick has the least stride, and the
-- strides stay within BIG_STRIDE of each other.
use os.Base.{ℕ, ◌+◌, ◌/◌, ◌%◌, ◌^◌, ◌≤◌, ◌<◌, ◌≡◌, true, arith, ◌==◌, ltb, if◌then◌else◌}
use mathlib.Core.Path.{subst}
use os.Sched.SkewHeap.{SkewHeap, node, is_minus_one, merge, insert}
use os.Sched.SkewHeap.Content.{count}
use os.Sched.SkewHeap.Order.{AllIn, IsHeap}
use os.Sched.Queue.{Proc, Sys, set_proc}
use os.Sched.RoundRobin.{admit, count_down}
use os.Sched.Stride.{big_stride, stride_sign, proc_stride_comp_f}

-- For two strides less than 2^31 apart, the comparison of their values modulo 2^32 says "less"
-- exactly where the first is less than the second.
pub stride_sign-eq-ltb :
    (a b : ℕ)
    → a < b + 2 ^ 31
    → b < a + 2 ^ 31
    → is_minus_one (stride_sign (a % 2 ^ 32) (b % 2 ^ 32)) ≡ ltb a b
unfolding stride_sign
stride_sign-eq-ltb a b h k = ground arith

-- `true_stride` gives each process the stride that it would have without wrapping.
abbrev pub Fits : (ℕ → Proc) → (ℕ → ℕ) → ℕ → ℕ → Type 0
Fits procs true_stride low x =
    ((procs x).stride ≡ true_stride x % 2 ^ 32)
    × (low ≤ true_stride x)
    × (true_stride x ≤ low + big_stride)

pub record IsPool (s : Sys) (true_stride : ℕ → ℕ) (low : ℕ) : Type 0 where
  pub fits : AllIn (Fits s.procs true_stride low) s.rq.run_pool
  pub heap : IsHeap true_stride s.rq.run_pool
  pub once : (x : ℕ) → count x s.rq.run_pool ≤ 1

-- The state that `stride_enqueue` leaves.
abbrev entered : ℕ → Sys → Sys
entered p s =
    let pool = insert (proc_stride_comp_f s.procs) s.rq.run_pool p in
    admit p (record s { rq = record s.rq { run_pool = pool } })

-- The true strides after the process `p` has been picked.
abbrev pub passed : (ℕ → Proc) → (ℕ → ℕ) → ℕ → ℕ → ℕ
passed procs true_stride p x =
    if p == x then true_stride p + big_stride / (procs p).priority else true_stride x

abbrev picked : ℕ → Sys → Sys
picked p s =
    let proc = s.procs p in
    let stride = (proc.stride + big_stride / proc.priority) % 2 ^ 32 in
    set_proc p (record proc { stride = stride }) s

-- The state after the root of the pool has been picked and dequeued.
abbrev left : ℕ → SkewHeap → SkewHeap → Sys → Sys
left p l r s =
    let t = picked p s in
    record t {
      rq = record t.rq {
        run_pool = merge (proc_stride_comp_f t.procs) l r;
        proc_num = count_down t.rq.proc_num;
      };
    }

module _ {s : Sys} {true_stride : ℕ → ℕ} {low : ℕ} (p : ℕ) (l r : SkewHeap)
    (v : IsPool s true_stride low) (e : s.rq.run_pool ≡ node p l r)
    (some_priority : 0 < (s.procs p).priority) (queued : (s.procs p).on_rq ≡ true)
    (counted : 0 < s.rq.proc_num) where
  fits : AllIn (Fits s.procs true_stride low) (node p l r)
  fits = subst (AllIn (Fits s.procs true_stride low)) e v.fits

  heap : IsHeap true_stride (node p l r)
  heap = subst (IsHeap true_stride) e v.heap

  once : (x : ℕ) → count x (node p l r) ≤ 1
  once x = subst (λ h. count x h ≤ 1) e (v.once x)
