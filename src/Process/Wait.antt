-- ===== src/Process/Wait.antt =====
-- `do_wait` of lab8/kern/process/proc.c for any child, from the youngest to the oldest.
use os.Base.{
  ℕ, zero, suc, ◌≡◌, ◌≢◌, ◌<◌, ◌-◌, refl, sym, ap, ◌∙◌, List, [], ◌∷◌, ◌++◌, length, arith, true,
  false, Bool, ==_ne, if◌then◌else◌, ◌||◌, ◌==◌, not, some, none,
}
use os.Links.Chain.{head_or}
use os.Sched.Queue.{is_zombie, sleeping, set_proc}
use os.Process.{
  Processes, find_zombie, search_child, do_wait, reaped, asleep, bad_proc, unhash_proc,
  remove_links, wt_child, User, store_int, check_code_store, inval, wait_round, list_link,
  hash_link, pid_hashfn,
}
use os.Links.Ring.{IsRing, list_del-IsRing}
use os.Process.Family.{Siblings, IsFamily, remove_links-IsFamily}
use os.Process.Exit.{any_zombie}

abbrev pub nonempty : List ℕ → Bool
nonempty [] = false
nonempty (c ∷ cs) = true

or_true : (b : Bool) → (b || true) ≡ true
or_true true = refl
or_true false = refl

or_false : (b : Bool) → (b || false) ≡ b
or_false true = refl
or_false false = refl

both_false : (a b : Bool) → (a || b) ≡ false → (a ≡ false) × (b ≡ false)
both_false true b e = cc
both_false false b e = (refl, e)

module _ (t : Processes) where
  live_round :
      (fuel c : ℕ) (flag : Bool)
      → c ≢ 0
      → is_zombie (t.sys.procs c).state ≡ false
      → find_zombie (suc fuel) c flag t ≡ find_zombie fuel (t.optr c) true t
  unfolding find_zombie
  live_round fuel c flag ne alive = rw (find_zombie, ==_ne c 0 ne, alive) refl

  dead_round :
      (fuel c : ℕ) (flag : Bool)
      → c ≢ 0
      → is_zombie (t.sys.procs c).state ≡ true
      → find_zombie (suc fuel) c flag t ≡ some (true, some c)
  unfolding find_zombie
  dead_round fuel c flag ne dead = rw (find_zombie, ==_ne c 0 ne, dead) refl

  find_zombie-none :
      (fuel prev : ℕ) (flag : Bool) (cs : List ℕ)
      → Siblings t.yptr t.optr prev cs
      → any_zombie t.sys cs ≡ false
      → length cs < fuel
      → find_zombie fuel (head_or cs 0) flag t ≡ some (flag || nonempty cs, none)
  unfolding find_zombie
  find_zombie-none zero prev flag cs s alive lt = absurd (omega arith)
  find_zombie-none (suc fuel) prev flag [] s alive lt =
      ap (λ b. some (b, none)) (sym (or_false flag))
  find_zombie-none (suc fuel) prev flag (c ∷ cs) (ne, yo, ol, new, s) alive lt =
      let (here, rest) = both_false _ _ alive in
      live_round fuel c flag ne here
      ∙ ap (λ x. find_zombie fuel x true t) ol
      ∙ find_zombie-none fuel c true cs s rest (omega arith)
      ∙ ap (λ b. some (b, none)) (sym (or_true flag))

  find_zombie_first :
      (fuel prev : ℕ) (flag : Bool) (xs : List ℕ) (z : ℕ) (ys : List ℕ)
      → Siblings t.yptr t.optr prev (xs ++ z ∷ ys)
      → any_zombie t.sys xs ≡ false
      → is_zombie (t.sys.procs z).state ≡ true
      → length xs < fuel
      → find_zombie fuel (head_or (xs ++ z ∷ ys) 0) flag t ≡ some (true, some z)
  find_zombie_first zero prev flag xs z ys s alive dead lt = absurd (omega arith)
  find_zombie_first (suc fuel) prev flag [] z ys (ne, yo, ol, new, s) alive dead lt =
      dead_round fuel z flag ne dead
  find_zombie_first (suc fuel) prev flag (x ∷ xs) z ys (ne, yo, ol, new, s) alive dead lt =
      let (here, rest) = both_false _ _ alive in
      live_round fuel x flag ne here
      ∙ ap (λ y. find_zombie fuel y true t) ol
      ∙ find_zombie_first fuel x true xs z ys s rest dead (omega arith)

module _ (t : Processes) (fuel code_store : ℕ) (exit_code : ℕ → ℕ) where
  -- What the parent has of a child's exit.
  abbrev told : ℕ → User → User
  told z v =
      if not (code_store == 0)
      then record v { memory = store_int code_store (exit_code z) v.memory }
      else v

  reaping_round :
      (v : User) (xs : List ℕ) (z : ℕ) (ys : List ℕ)
      → IsFamily t t.sys.current (xs ++ z ∷ ys)
      → any_zombie t.sys xs ≡ false
      → is_zombie (t.sys.procs z).state ≡ true
      → z ≢ t.sys.idleproc
      → z ≢ t.initproc
      → length xs < fuel
      → wait_round fuel 0 code_store exit_code v t
        ≡ some (reaped z, told z v, remove_links z (unhash_proc z t))
  unfolding wait_round search_child
  reaping_round v xs z ys h alive dead not_idle not_init lt =
      let search =
        ap (λ c. find_zombie fuel c false t) h.first
        ∙ find_zombie_first t fuel 0 false xs z ys h.chain alive dead lt in
      rw (search, ==_ne z t.sys.idleproc not_idle, ==_ne z t.initproc not_init) refl

  checked_round :
      (ok : Bool) (u v : User)
      → check_code_store code_store u ≡ some (ok, v)
      → do_wait fuel 0 code_store exit_code u t
        ≡ (if not ok then some (inval, v, t) else wait_round fuel 0 code_store exit_code v t)
  unfolding do_wait
  checked_round ok u v e = rw (e) refl

  -- Let the check of `code_store` pass, which it does for NULL; let the caller have children of
  -- which some are zombies, let the youngest of these be neither `idleproc` nor `initproc`, and let
  -- it be in the list of processes and in the bucket of its pid, both well-formed rings. `do_wait`
  -- for any child, given as many rounds as there are younger children and one more, takes this
  -- child out: it stores the code that the child exited with, unless `code_store` is NULL, the
  -- other children keep their order, the rings have the other processes in their order, there is
  -- one process less, and the state of the scheduler does not change.
  pub do_wait-reaped :
      (u v : User) (xs : List ℕ) (z : ℕ) (ys ps qs hs ks : List ℕ)
      → check_code_store code_store u ≡ some (true, v)
      → IsFamily t t.sys.current (xs ++ z ∷ ys)
      → any_zombie t.sys xs ≡ false
      → is_zombie (t.sys.procs z).state ≡ true
      → z ≢ t.sys.idleproc
      → z ≢ t.initproc
      → length xs < fuel
      → IsRing t.proc_list 0 (ps ++ list_link z ∷ qs)
      → IsRing t.hash_list (pid_hashfn (t.pid z)) (hs ++ hash_link z ∷ ks)
      → (t' : Processes) × (do_wait fuel 0 code_store exit_code u t ≡ some (reaped z, told z v, t'))
        × IsFamily t' t.sys.current (xs ++ ys)
        × IsRing t'.proc_list 0 (ps ++ qs)
        × IsRing t'.hash_list (pid_hashfn (t.pid z)) (hs ++ ks)
        × (t'.nr_process ≡ t.nr_process - 1)
        × (t'.sys ≡ t.sys)
  unfolding unhash_proc remove_links
  do_wait-reaped u v xs z ys ps qs hs ks ok h alive dead not_idle not_init lt listed hashed = (
    remove_links z (unhash_proc z t),
    checked_round true u v ok ∙ reaping_round v xs z ys h alive dead not_idle not_init lt,
    remove_links-IsFamily {t = unhash_proc z t} t.sys.current xs z ys
        (record { first = h.first; chain = h.chain; parents = h.parents }),
    list_del-IsRing ps (list_link z) qs listed,
    list_del-IsRing hs (hash_link z) ks hashed,
    refl,
    refl,
  )

  -- Let the check of `code_store` come to an end, and let the caller have no child that is a
  -- zombie. `do_wait` for any child, given one round more than it has children, answers -E_INVAL
  -- where the check fails; where it passes, it puts the caller to sleep, waiting for a child, if it
  -- has children, and answers -E_BAD_PROC if it has none. But for that sleep, and for what the
  -- check does to the address space, nothing changes.
  pub do_wait-asleep :
      (ok : Bool) (u v : User) (cs : List ℕ)
      → check_code_store code_store u ≡ some (ok, v)
      → IsFamily t t.sys.current cs
      → any_zombie t.sys cs ≡ false
      → length cs < fuel
      → do_wait fuel 0 code_store exit_code u t ≡ (
          if not ok
          then some (inval, v, t)
          else if nonempty cs
          then some (
            asleep,
            v,
            record t {
              sys =
                  set_proc t.sys.current
                    (record (t.sys.procs t.sys.current) { state = sleeping; wait_state = wt_child })
                    t.sys;
            },
          )
          else some (bad_proc, v, t))
  unfolding wait_round search_child
  do_wait-asleep ok u v cs e h alive lt =
      let search =
        ap (λ c. find_zombie fuel c false t) h.first
        ∙ find_zombie-none t fuel 0 false cs h.chain alive lt in
      checked_round ok u v e ∙ rw search refl
