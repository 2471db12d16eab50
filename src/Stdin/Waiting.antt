-- ===== src/Stdin/Waiting.antt =====
-- What the readers and the interrupt handler of lab8/kern/fs/devs/dev_stdin.c make of the list of
-- characters that are to be read.
use os.Base.{
  ℕ, ◌+◌, ◌-◌, ◌≤◌, ◌<◌, ◌≡◌, ◌≢◌, refl, sym, ap, ◌∙◌, List, [], ◌∷◌, ◌++◌, length, take, drop,
  take_all, drop_all, length-take, arith, some, Option, true, false, Bool-cases, inl, inr, ltb,
  lt→ltb, ◌>>=◌, ==_ne, ==_refl, if◌then◌else◌, append_assoc, append-nil, length-append,
}
use os.Links.{Links, list_empty}
use os.Links.Chain.{NotIn}
use os.Links.Ring.{IsRing, list_empty-IsRing}
use os.Sched.Queue.{Sys, SchedClass}
use os.Sched.Core.{wakeup_proc}
use os.Sync.{wait_queue_empty}
use os.Sync.Waits.{
  IsWaitQueue, asleep, enqueued, waiting-IsWaitQueue, set-wait, wake_procs, procs_of,
  wakeup_queue-wake_procs, roused, roused_out, wakeup_queue-one,
}
use os.Stdin.{
  Console, stdin_bufsize, wt_kbd, store_char, dev_stdin_write, finished, waiting, read_on,
  dev_stdin_read, read_resumed,
}
use os.Stdin.Buffer.{
  pending, IsConsole, accepted, store_char-pending, store_char-IsConsole, take_ready-pending,
  advanced, advanced-IsConsole, advanced-pending,
}

module _ {t : Console} (queue w len : ℕ) (h : IsConsole t) where
  -- A read of no more characters than are to be read returns them, and leaves the rest.
  pub dev_stdin_read-finished :
      len ≤ length (pending t)
      → (t' : Console) × (dev_stdin_read queue w len t ≡ some (finished (take len (pending t)), t'))
        × IsConsole t'
        × (pending t' ≡ drop len (pending t))
        × (t'.kernel ≡ t.kernel)
  unfolding dev_stdin_read read_on
  dev_stdin_read-finished le =
      let all : ltb (length (take len (pending t))) len ≡ false =
        ground (arith, length-take len (pending t)) in
      (
        advanced len t,
        rw (take_ready-pending len t h, all) refl,
        advanced-IsConsole len t h,
        advanced-pending len t,
        refl,
      )

  -- Where the wait queue holds the waits ws, and the caller's wait is neither its head nor one of
  -- them, a read of more characters than are to be read takes them all and waits: the process
  -- sleeps for the keyboard, its wait stands at the end of the queue, and it lacks as many
  -- characters as were missing.
  pub dev_stdin_read-waiting :
      (ws : List ℕ)
      → length (pending t) < len
      → IsWaitQueue t.kernel queue ws
      → w ≢ queue
      → NotIn w ws
      → (t' : Console) × (dev_stdin_read queue w len t
          ≡ some (waiting (pending t) (len - length (pending t)), t'))
        × IsConsole t'
        × (pending t' ≡ [])
        × (t'.kernel.sys ≡ asleep wt_kbd t.kernel)
        × IsWaitQueue t'.kernel queue (ws ++ w ∷ [])
  unfolding dev_stdin_read read_on
  dev_stdin_read-waiting ws lt q ne new =
      let all = take_all len (pending t) (omega (arith, lt)) in
      let short : ltb (length (pending t)) len ≡ true = lt→ltb _ _ lt in
      (
        record (advanced len t) { kernel = enqueued w queue wt_kbd t.kernel },
        rw (take_ready-pending len t h, all, short, set-wait w queue wt_kbd t.kernel) refl,
        record {
          ordered = (advanced-IsConsole len t h).ordered;
          bounded = (advanced-IsConsole len t h).bounded;
        },
        advanced-pending len t ∙ drop_all len (pending t) (omega (arith, lt)),
        refl,
        waiting-IsWaitQueue wt_kbd w ws q ne new,
      )

occupied : {l : Links} {q w : ℕ} {ws : List ℕ} → IsRing l q (w ∷ ws) → list_empty q l ≡ false
occupied {l} {q} r = elim (Bool-cases (list_empty q l)) [
  | inl e ↦ absurd (cons_ne ((list_empty-IsRing r).0 e))
  | inr e ↦ e
]
  where
    cons_ne : {w : ℕ} {ws : List ℕ} → w ∷ ws ≢ []
    cons_ne e = cc

module _ {t : Console} (cls : SchedClass) (fuel queue c : ℕ) (h : IsConsole t) (there : c ≢ 0) where
  -- Let the positions of the keyboard buffer be in order and at most its size apart, let the wait
  -- queue hold the waits ws, and let waking their processes one after the other succeed.
  -- `dev_stdin_write` of a character other than NUL returns, given one round more than there are
  -- waits: the character comes last of those that are to be read if these do not fill the buffer,
  -- and replaces the first of them otherwise; the positions are in order again, these processes
  -- have been woken, and the queue is empty.
  pub dev_stdin_write-pending :
      (ws : List ℕ) (s : Sys)
      → IsWaitQueue t.kernel queue ws
      → length ws < fuel
      → wake_procs cls (procs_of t.kernel.waits ws) t.kernel.sys ≡ some s
      → (t' : Console) × (dev_stdin_write cls fuel queue c t ≡ some t')
        × IsConsole t'
        × (pending t' ≡ accepted c (pending t))
        × (t'.kernel.sys ≡ s)
        × IsWaitQueue t'.kernel queue []
  unfolding dev_stdin_write wait_queue_empty store_char
  dev_stdin_write-pending [] s q lt woken = (
    store_char c t,
    rw ((list_empty-IsRing q.ring).1 refl, ==_ne c 0 there) refl,
    store_char-IsConsole c t h,
    store_char-pending c t h,
    cc,
    record { ring = q.ring; queued = tt },
  )
  dev_stdin_write-pending (w ∷ ws) s q lt woken =
      let (k, ran, left, empty) =
        wakeup_queue-wake_procs cls fuel queue wt_kbd t.kernel (w ∷ ws) s q lt woken in
      (
        record (store_char c t) { kernel = k },
        rw (occupied q.ring, ==_ne c 0 there, ran) refl,
        record {
          ordered = (store_char-IsConsole c t h).ordered;
          bounded = (store_char-IsConsole c t h).bounded;
        },
        store_char-pending c t h,
        left,
        empty,
      )

  -- Where one reader waits for the keyboard and waking its process succeeds, `dev_stdin_write` of a
  -- character other than NUL, given two rounds, wakes it and stores the character; the reader that
  -- runs again finds its wait out of the queue, and goes on reading with what it has.
  pub dev_stdin_write-read_resumed :
      (w len : ℕ) (got : List ℕ) (s : Sys)
      → IsWaitQueue t.kernel queue (w ∷ [])
      → 1 < fuel
      → wakeup_proc cls (t.kernel.waits w).proc t.kernel.sys ≡ some s
      → (t' : Console) × (dev_stdin_write cls fuel queue c t ≡ some t')
        × (t'.kernel.sys ≡ s)
        × (pending t' ≡ accepted c (pending t))
        × (read_resumed queue w got len t' ≡ read_on queue w got len t')
  unfolding dev_stdin_write wait_queue_empty store_char read_resumed
  dev_stdin_write-read_resumed w len got s q lt woken = (
    record (store_char c t) { kernel = roused w wt_kbd s t.kernel },
    rw
        (
          occupied q.ring,
          ==_ne c 0 there,
          wakeup_queue-one cls fuel queue wt_kbd t.kernel w s q lt woken,
        )
        refl,
    refl,
    store_char-pending c t h,
    rw (roused_out w [] wt_kbd s q, ==_refl w) refl,
  )

-- None is NUL, which the handler drops.
abbrev pub AllTyped : List ℕ → Type 0
AllTyped [] = Unit
AllTyped (c ∷ cs) = (c ≢ 0) × AllTyped cs

-- Typing characters one after the other.
module _ (cls : SchedClass) (fuel queue : ℕ) where
  abbrev pub type_in : List ℕ → Console → Option Console
  type_in [] t = some t
  type_in (c ∷ cs) t = dev_stdin_write cls fuel queue c t >>= λ t'. type_in cs t'

  type_in-pending :
      (cs : List ℕ) (t : Console)
      → IsConsole t
      → IsWaitQueue t.kernel queue []
      → 0 < fuel
      → AllTyped cs
      → length (pending t) + length cs ≤ stdin_bufsize
      → (t' : Console) × (type_in cs t ≡ some t') × IsConsole t' × (pending t' ≡ pending t ++ cs)
  type_in-pending [] t h q lt all le = (t, refl, h, sym (append-nil (pending t)))
  type_in-pending (c ∷ cs) t h q lt (there, all) le =
      let (u, ran, hu, held, same, qu) =
        dev_stdin_write-pending cls fuel queue c h there [] t.kernel.sys q lt refl in
      let room : ltb (length (pending t)) stdin_bufsize ≡ true = lt→ltb _ _ (omega arith) in
      let grown : pending u ≡ pending t ++ c ∷ [] =
        held ∙ ap (λ b. if b then pending t ++ c ∷ [] else c ∷ drop 1 (pending t)) room in
      let (v, rest, hv, all_held) =
        type_in-pending cs u hu qu lt all
          (omega (arith, ap length grown, length-append (pending t) (c ∷ []))) in
      (
        v,
        rw ran rest,
        hv,
        all_held ∙ ap (λ p. p ++ cs) grown ∙ append_assoc (pending t) (c ∷ []) cs,
      )

  -- Characters other than NUL that are typed while nobody waits, and that fit into the keyboard
  -- buffer behind those that are to be read, are read in the order in which they were typed, behind
  -- the older ones; nothing is left.
  pub dev_stdin_read-type_in :
      (w : ℕ) (cs : List ℕ) (t : Console)
      → IsConsole t
      → IsWaitQueue t.kernel queue []
      → 0 < fuel
      → AllTyped cs
      → length (pending t) + length cs ≤ stdin_bufsize
      → (t' : Console) × (t'' : Console) × (type_in cs t ≡ some t')
        × (dev_stdin_read queue w (length (pending t) + length cs) t'
            ≡ some (finished (pending t ++ cs), t''))
        × (pending t'' ≡ [])
  dev_stdin_read-type_in w cs t h q lt all le =
      let (u, ran, hu, held) = type_in-pending cs t h q lt all le in
      let size : length (pending u) ≡ length (pending t) + length cs =
        ap length held ∙ length-append (pending t) cs in
      let (v, read, hv, left, same) =
        dev_stdin_read-finished queue w (length (pending t) + length cs) hu (omega (arith, size)) in
      (
        u,
        v,
        ran,
        read
            ∙ ap (λ p. some (finished p, v))
                (take_all (length (pending t) + length cs) (pending u) (omega (arith, size))
                  ∙ held),
        left ∙ drop_all (length (pending t) + length cs) (pending u) (omega (arith, size)),
      )
