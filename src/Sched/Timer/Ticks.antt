-- ===== src/Sched/Timer/Ticks.antt =====
-- One tick of the clock: whom `run_timer_list` wakes, and what becomes of the other deadlines.
use mathlib.Core.Path.{ap₂, fun_ext}
use os.Base.{
  ℕ, ◌+◌, ◌-◌, ◌<◌, ◌≡◌, refl, sym, ap, ◌∙◌, false, List, [], ◌∷◌, map, Option, none, some, arith,
  ◌==◌, if◌then◌else◌, ◌>>=◌, Bool-cases, inl, inr,
}
use os.Sched.Queue.{Sys, SchedClass}
use os.Sched.Timer.{Timer, expire, tick_timers, wake_expired}
use os.Sched.Timer.Deadlines.{Deadline, deadlines}

-- The processes whose deadline is the next tick, in the order of the list.
abbrev pub due : List Deadline → List ℕ
due [] = []
due (d ∷ ds) = if d.time == 1 then d.proc ∷ due ds else []

abbrev pub later : List Deadline → List Deadline
later [] = []
later (d ∷ ds) = if d.time == 1 then later ds else d ∷ ds

abbrev pub earlier : Deadline → Deadline
earlier d = record d { time = d.time - 1 }

abbrev kept : List Timer → List Timer
kept [] = []
kept (t ∷ ts) = if t.expires == 0 then kept ts else t ∷ ts

abbrev expired : List Timer → List ℕ
expired [] = []
expired (t ∷ ts) = if t.expires == 0 then t.proc ∷ expired ts else []

>>=-assoc :
    {A B C : Type 0} (m : Option A) (f : A → Option B) (g : B → Option C)
    → (m >>= λ a. f a >>= g) ≡ (m >>= f >>= g)
>>=-assoc none f g = refl
>>=-assoc (some a) f g = refl

-- One tick less: seen from a tick later, every deadline is a tick earlier.
earlier-deadlines :
    (now : ℕ) (ts : List Timer) → deadlines now ts ≡ map earlier (deadlines (now + 1) ts)
earlier-deadlines now [] = refl
earlier-deadlines now (t ∷ ts) =
    let sum : now + 1 + t.expires ≡ now + t.expires + 1 = omega arith in
    let here : now + t.expires ≡ now + 1 + t.expires - 1 = omega arith in
    ap₂ (λ k ds. record { id = t.id; proc = t.proc; time = k } ∷ ds) here
      (earlier-deadlines (now + t.expires) ts ∙ ap (λ k. map earlier (deadlines k ts)) (sym sum))

due-expired : (now : ℕ) (ts : List Timer) → now ≡ 1 → due (deadlines now ts) ≡ expired ts
due-expired now [] e = refl
due-expired now (t ∷ ts) e = ground (arith, due-expired (now + t.expires) ts)

later-kept :
    (now : ℕ) (ts : List Timer) → now ≡ 1 → later (deadlines now ts) ≡ deadlines now (kept ts)
later-kept now [] e = refl
later-kept now (t ∷ ts) e = ground (arith, later-kept (now + t.expires) ts, e)

module _ (cls : SchedClass) where
  abbrev pub wake_all : List ℕ → Sys → Option Sys
  wake_all [] s = some s
  wake_all (p ∷ ps) s = wake_expired cls p s >>= λ s'. wake_all ps s'

  expire-eq :
      (ts : List Timer) (s : Sys)
      → expire cls ts s ≡ (wake_all (expired ts) s >>= λ s'. some (kept ts, s'))
  unfolding expire
  expire-eq [] s = refl
  expire-eq (t ∷ ts) s = elim (Bool-cases (t.expires == 0)) [
    | inr more ↦ rw more refl
    | inl up ↦ rw up (
        ap (λ f. wake_expired cls t.proc s >>= f) (fun_ext (expire-eq ts))
        ∙ >>=-assoc (wake_expired cls t.proc s) (wake_all (expired ts)) (λ s'. some (kept ts, s')))
  ]

  -- On a list whose first timer has ticks left, one tick wakes the processes whose deadline it is,
  -- in the order of their timers and no others, and stops the kernel exactly where one of these
  -- wakeups does; the timers of these processes are deleted, and every other deadline is one tick
  -- nearer.
  pub tick_timers-deadlines :
      (t : Timer) (ts : List Timer) (s : Sys)
      → 0 < t.expires
      → (us : List Timer) × (tick_timers cls (t ∷ ts) s
          ≡ (wake_all (due (deadlines 0 (t ∷ ts))) s >>= λ s'. some (us, s')))
        × (deadlines 0 us ≡ map earlier (later (deadlines 0 (t ∷ ts))))
  unfolding tick_timers
  tick_timers-deadlines t ts s pos =
      let first : Timer = record t { expires = t.expires - 1 } in
      let nearer : 1 + (t.expires - 1) ≡ 0 + t.expires = omega arith in
      let same : deadlines 1 (first ∷ ts) ≡ deadlines 0 (t ∷ ts) =
        ap (λ k. record { id = t.id; proc = t.proc; time = k } ∷ deadlines k ts) nearer in
      let running : (t.expires == 0) ≡ false = ground arith in
      (
        kept (first ∷ ts),
        rw running (
            expire-eq (first ∷ ts) s
            ∙ ap (λ ps. wake_all ps s >>= λ s'. some (kept (first ∷ ts), s'))
                (sym (due-expired 1 (first ∷ ts) refl) ∙ ap due same)),
        earlier-deadlines 0 (kept (first ∷ ts))
            ∙ ap (map earlier) (sym (later-kept 1 (first ∷ ts) refl) ∙ ap later same),
      )
