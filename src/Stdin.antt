-- ===== src/Stdin.antt =====
-- lab8/kern/fs/devs/dev_stdin.c: the keyboard's buffer, which the interrupt handler fills and `read`
-- empties. Interrupts are off in both, except where `read` waits; there it is cut into steps.
-- `queue` is the address of the wait queue. The positions only grow; they are natural numbers.
pub mod Buffer
pub mod Waiting
use os.Base.{
  ℕ, zero, suc, ◌+◌, ◌-◌, ◌%◌, Bool, true, false, not, Option, none, some, List, [], ◌∷◌, ◌++◌,
  length, ◌==◌, ltb, if◌then◌else◌, ◌>>=◌,
}
use os.Strings.{put}
use os.Sched.Queue.{SchedClass}
use os.Sync.{
  Kernel, wait_queue_init, wait_queue_empty, wakeup_queue, wait_current_set, wait_current_del,
}

abbrev pub stdin_bufsize : ℕ
stdin_bufsize = 4096

abbrev pub wt_kbd : ℕ
wt_kbd = 0x8000_0004

-- `stdin_buffer`, `p_rpos`, `p_wpos`, and what the rest of the kernel holds.
pub record Console : Type 0 where
  pub kernel : Kernel
  pub stdin_buffer : ℕ → ℕ
  pub p_rpos : ℕ
  pub p_wpos : ℕ

unfoldable pub stdin_device_init : ℕ → Console → Console
stdin_device_init queue t = record t {
  p_rpos = 0;
  p_wpos = 0;
  kernel = wait_queue_init queue t.kernel;
}

-- What `dev_stdin_write` does before it looks at the waits.
unfoldable pub store_char : ℕ → Console → Console
store_char c t = record t {
  stdin_buffer = put (t.p_wpos % stdin_bufsize) c t.stdin_buffer;
  p_wpos = if ltb (t.p_wpos - t.p_rpos) stdin_bufsize then t.p_wpos + 1 else t.p_wpos;
}

unfoldable pub dev_stdin_write : SchedClass → ℕ → ℕ → ℕ → Console → Option Console
dev_stdin_write cls fuel queue c t =
    let woken = wakeup_queue cls fuel queue wt_kbd true t.kernel >>= λ k.
    some (record (store_char c t) { kernel = k }) in
    if not (c == 0)
    then (if not (wait_queue_empty queue t.kernel) then woken else some (store_char c t))
    else some t

-- The loop of `dev_stdin_read` up to the count, or to an empty buffer.
unfoldable pub take_ready : ℕ → Console → List ℕ × Console
take_ready zero t = ([], t)
take_ready (suc len) t =
    let rest = take_ready len (record t { p_rpos = t.p_rpos + 1 }) in
    if ltb t.p_rpos t.p_wpos
    then (t.stdin_buffer (t.p_rpos % stdin_bufsize) ∷ rest.0, rest.1)
    else ([], t)

-- A read has returned these characters, or waits with these and so many to come.
pub data Reading : Type 0 where
  finished : List ℕ → Reading
  waiting : List ℕ → ℕ → Reading

-- `w` is the wait on the caller's stack, and `got` what stands in the caller's buffer.
unfoldable pub read_on : ℕ → ℕ → List ℕ → ℕ → Console → Option (Reading × Console)
read_on queue w got len t =
    let ready = take_ready len t in
    let asleep = wait_current_set queue w wt_kbd ready.1.kernel >>= λ k.
    some (waiting (got ++ ready.0) (len - length ready.0), record ready.1 { kernel = k }) in
    if ltb (length ready.0) len then asleep else some (finished (got ++ ready.0), ready.1)

unfoldable pub dev_stdin_read : ℕ → ℕ → ℕ → Console → Option (Reading × Console)
dev_stdin_read queue w len t = read_on queue w [] len t

-- What follows the call of `schedule`, once the process runs again.
unfoldable pub read_resumed : ℕ → ℕ → List ℕ → ℕ → Console → Option (Reading × Console)
read_resumed queue w got len t = wait_current_del queue w t.kernel >>= λ k.
    let t' : Console = record t { kernel = k } in
    if (k.waits w).wakeup_flags == wt_kbd
    then read_on queue w got len t'
    else some (finished got, t')
