-- ===== src/Sched/Timer/Deadlines.antt =====
-- The list of timers as a sorted list of deadlines: what `add_timer` and `del_timer` do to it.
use os.Base.{
  ℕ, ◌+◌, ◌-◌, ◌%◌, ◌^◌, ◌<◌, ◌≡◌, refl, ap, ◌∙◌, false, List, [], ◌∷◌, some, arith, ◌==◌, ltb,
  lt→ltb, if◌then◌else◌,
}
use os.Sched.Timer.{Timer, place_timer, add_timer, inherit, del_timer, in_list}

-- A timer's number, its process, and the ticks until it expires, counted from `now`.
pub record Deadline : Type 0 where
  pub id : ℕ
  pub proc : ℕ
  pub time : ℕ

abbrev pub deadlines : ℕ → List Timer → List Deadline
deadlines now [] = []
deadlines now (t ∷ ts) =
    record { id = t.id; proc = t.proc; time = now + t.expires } ∷ deadlines (now + t.expires) ts

-- Insertion behind all deadlines that are not later.
abbrev pub schedule_at : Deadline → List Deadline → List Deadline
schedule_at d [] = d ∷ []
schedule_at d (e ∷ es) = if ltb d.time e.time then d ∷ e ∷ es else e ∷ schedule_at d es

abbrev pub cancel : ℕ → List Deadline → List Deadline
cancel id [] = []
cancel id (d ∷ ds) = if d.id == id then ds else d ∷ cancel id ds

-- Every deadline is below the bound.
abbrev pub Before : ℕ → List Deadline → Type 0
Before bound [] = Unit
Before bound (d ∷ ds) = (d.time < bound) × Before bound ds

abbrev deadline_of : ℕ → Timer → Deadline
deadline_of now t = record { id = t.id; proc = t.proc; time = now + t.expires }

place_timer-deadlines :
    (now : ℕ) (t : Timer) (ts : List Timer)
    → deadlines now (place_timer t ts) ≡ schedule_at (deadline_of now t) (deadlines now ts)
unfolding place_timer
place_timer-deadlines now t [] = refl
place_timer-deadlines now t (next ∷ rest) = ground (
  arith,
  place_timer-deadlines (now + next.expires) (record t { expires = t.expires - next.expires }) rest,
)

-- `add_timer` of a timer that has ticks left and is in no list returns; in the list of deadlines
-- the timer, due after the ticks that it was given, stands behind all that are not later, and no
-- other deadline moves.
pub add_timer-deadlines :
    (t : Timer) (ts : List Timer)
    → 0 < t.expires
    → in_list t.id ts ≡ false
    → (us : List Timer) × (add_timer t ts ≡ some us)
      × (deadlines 0 us
          ≡ schedule_at (record { id = t.id; proc = t.proc; time = t.expires }) (deadlines 0 ts))
unfolding add_timer
add_timer-deadlines t ts pos new = (
  place_timer t ts,
  rw (lt→ltb 0 t.expires pos, new) refl,
  place_timer-deadlines 0 t ts
      ∙ ap (λ k. schedule_at (record { id = t.id; proc = t.proc; time = k }) (deadlines 0 ts))
          (omega arith),
)

inherit-deadlines :
    (now left : ℕ) (ts : List Timer)
    → Before (2 ^ 32) (deadlines (now + left) ts)
    → deadlines now (inherit left ts) ≡ deadlines (now + left) ts
inherit-deadlines now left [] b = refl
inherit-deadlines now left (next ∷ rest) b =
    let sum : now + (next.expires + left) % 2 ^ 32 ≡ now + left + next.expires = omega arith in
    ground (arith, sum)

-- Where all deadlines are below 2^32, `del_timer` takes the first timer of the given number out of
-- the list of deadlines, if there is one, and no other deadline moves.
pub del_timer-deadlines :
    (id now : ℕ) (ts : List Timer)
    → Before (2 ^ 32) (deadlines now ts)
    → deadlines now (del_timer id ts) ≡ cancel id (deadlines now ts)
unfolding del_timer
del_timer-deadlines id now [] b = refl
del_timer-deadlines id now (t ∷ ts) b =
    ground (
      arith,
      inherit-deadlines now t.expires ts b.1,
      del_timer-deadlines id (now + t.expires) ts b.1,
    )
