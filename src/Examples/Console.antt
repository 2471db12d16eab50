-- ===== src/Examples/Console.antt =====
-- lab8/libs/printfmt.c and lab8/kern/fs/devs/dev_stdin.c: -1 printed into a buffer at the address 100,
-- and a keyboard buffer in which "ab" waits to be read.
use os.Base.{ℕ, ◌-◌, ◌^◌, ◌≤◌, ◌<◌, ◌≡◌, ◌⊎◌, refl, List, [], ◌∷◌, some, arith, ◌==◌, if◌then◌else◌}
use os.Strings.Number.Reading.{Holds}
use os.Printing.{decimal, vsnprintf}
use os.Printing.Buffer.{vsnprintf-eq}
use os.Printing.RoundTrip.{IsRead, strtol-print_number}
use os.Sched.RoundRobin.{default_sched_class}
use os.Sync.Waits.{IsWaitQueue, asleep, wake_procs}
use os.Stdin.{
  Console, wt_kbd, dev_stdin_write, dev_stdin_read, read_resumed, read_on, finished, waiting,
}
use os.Stdin.Buffer.{IsConsole, pending, slots}
use os.Stdin.Waiting.{
  dev_stdin_read-waiting, dev_stdin_write-pending, dev_stdin_write-read_resumed,
  dev_stdin_read-type_in, type_in,
}
use os.Examples.Locks.{kernel, kernel-IsSem, woken, wakes}

strtol-print_number_example : (out : List ℕ) × IsRead decimal (2 ^ 64 - 1) 32 100 80 (λ q. 0) out
strtol-print_number_example =
    strtol-print_number (2 ^ 64 - 1) 32 100 80 (λ q. 0) (omega arith) (λ e. omega (arith, e))
      (omega arith) decimal

-- "abc" does not fit into three bytes.
vsnprintf-eq_example :
    (m : ℕ → ℕ) × (vsnprintf 100 3 (97 ∷ 98 ∷ 99 ∷ []) (λ q. 7) ≡ some (3, m))
    × Holds m 100 (97 ∷ 98 ∷ 0 ∷ [])
    × ((q : ℕ) → (q < 100) ⊎ (103 ≤ q) → m q ≡ 7)
vsnprintf-eq_example =
    vsnprintf-eq 100 3 (97 ∷ 98 ∷ 99 ∷ []) (λ q. 7) (λ e. omega (arith, e)) (omega arith)

abbrev console : Console
console = record {
  kernel = kernel;
  stdin_buffer = λ q. if q == 5 then 97 else 98;
  p_rpos = 5;
  p_wpos = 7;
}

console-IsConsole : IsConsole console
console-IsConsole = record { ordered = omega arith; bounded = omega arith }

console-IsWaitQueue : IsWaitQueue kernel 10 (20 ∷ [])
console-IsWaitQueue = record { ring = kernel-IsSem.ring; queued = kernel-IsSem.queued }

-- A reader of three characters takes its place behind the wait 20.
dev_stdin_read-waiting_example :
    (t : Console) × (dev_stdin_read 10 30 3 console ≡ some (waiting (97 ∷ 98 ∷ []) 1, t))
    × IsConsole t
    × (pending t ≡ [])
    × (t.kernel.sys ≡ asleep wt_kbd kernel)
    × IsWaitQueue t.kernel 10 (20 ∷ 30 ∷ [])
unfolding slots
dev_stdin_read-waiting_example =
    dev_stdin_read-waiting 10 30 3 console-IsConsole (20 ∷ []) (omega arith) console-IsWaitQueue
      (λ e. omega (arith, e)) (λ e. omega (arith, e), tt)

one_woken : wake_procs default_sched_class (5 ∷ []) kernel.sys ≡ some woken
one_woken = rw wakes refl

dev_stdin_write-pending_example :
    (t : Console) × (dev_stdin_write default_sched_class 2 10 99 console ≡ some t)
    × IsConsole t
    × (pending t ≡ 97 ∷ 98 ∷ 99 ∷ [])
    × (t.kernel.sys ≡ woken)
    × IsWaitQueue t.kernel 10 []
unfolding slots
dev_stdin_write-pending_example =
    dev_stdin_write-pending default_sched_class 2 10 99 console-IsConsole (λ e. omega (arith, e))
      (20 ∷ []) woken console-IsWaitQueue (omega arith) one_woken

-- The reader of the wait 20 got "x", and wants two characters more.
dev_stdin_write-read_resumed_example :
    (t : Console) × (dev_stdin_write default_sched_class 2 10 99 console ≡ some t)
    × (t.kernel.sys ≡ woken)
    × (pending t ≡ 97 ∷ 98 ∷ 99 ∷ [])
    × (read_resumed 10 20 (120 ∷ []) 2 t ≡ read_on 10 20 (120 ∷ []) 2 t)
unfolding slots
dev_stdin_write-read_resumed_example =
    dev_stdin_write-read_resumed default_sched_class 2 10 99 console-IsConsole
      (λ e. omega (arith, e)) 20 2 (120 ∷ []) woken console-IsWaitQueue (omega arith) wakes

-- With no reader in the queue 40, "cd" is typed.
abbrev free : Console
free = record console { kernel = record kernel { links = record { next = λ q. q; prev = λ q. q } } }

free-IsWaitQueue : IsWaitQueue free.kernel 40 []
free-IsWaitQueue = record {
  ring = record { forward = refl; backward = refl; distinct = (tt, tt) };
  queued = tt;
}

dev_stdin_read-type_in_example :
    (t : Console) × (u : Console) × (type_in default_sched_class 1 40 (99 ∷ 100 ∷ []) free ≡ some t)
    × (dev_stdin_read 40 30 4 t ≡ some (finished (97 ∷ 98 ∷ 99 ∷ 100 ∷ []), u))
    × (pending u ≡ [])
unfolding slots
dev_stdin_read-type_in_example =
    dev_stdin_read-type_in default_sched_class 1 40 30 (99 ∷ 100 ∷ []) free
      (record { ordered = omega arith; bounded = omega arith }) free-IsWaitQueue (omega arith)
      (λ e. omega (arith, e), (λ e. omega (arith, e), tt)) (omega arith)
