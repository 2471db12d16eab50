-- ===== src/Process.antt =====
-- lab8/kern/process/proc.c: pids, the table of processes, and the family of each process; and hash32
-- of lab8/libs/hash.c. A process is a number, 0 for NULL; its `list_link` has the address one above,
-- and `proc_list` the address 0; its `hash_link` has the address 1024 above, and the buckets of
-- `hash_list` the addresses below 1024.
pub mod Pid
pub mod Family
pub mod Table
pub mod Exit
pub mod Wait
use os.Base.{
  ℕ, zero, suc, ◌+◌, ◌-◌, ◌*◌, ◌/◌, ◌%◌, ◌^◌, Bool, true, false, not, ◌&&◌, ◌||◌, Option, none,
  some, ◌==◌, ltb, leb, if◌then◌else◌, ◌>>=◌,
}
use os.Links.{Links, store, list_add, list_del, list_next}
use os.Sched.Queue.{ProcState, sleeping, zombie, is_zombie, Proc, Sys, SchedClass, set_proc}
use os.Sched.Core.{wakeup_proc}
use os.Vm.{Mm, user_mem_check}

abbrev pub max_pid : ℕ
max_pid = 8192

abbrev pub wt_child : ℕ
wt_child = 0x8000_0001

-- The fields of all processes, and the variables of proc.c.
pub record Processes : Type 0 where
  pub sys : Sys
  pub proc_list : Links
  pub hash_list : Links
  pub pid : ℕ → ℕ
  pub parent : ℕ → ℕ
  pub cptr : ℕ → ℕ
  pub yptr : ℕ → ℕ
  pub optr : ℕ → ℕ
  pub nr_process : ℕ
  pub last_pid : ℕ
  pub next_safe : ℕ
  pub initproc : ℕ

abbrev pub list_link : ℕ → ℕ
list_link p = suc p

abbrev pub hash_link : ℕ → ℕ
hash_link p = 1024 + p

-- A write through a pointer that is checked against NULL first.
abbrev pub store_unless_null : (ℕ → ℕ) → ℕ → ℕ → ℕ → ℕ
store_unless_null f p v = if not (p == 0) then store f p v else f

unfoldable pub set_links : ℕ → Processes → Processes
set_links proc t =
    let older = t.cptr (t.parent proc) in
    record t {
      proc_list = list_add 0 (list_link proc) t.proc_list;
      yptr = store_unless_null (store t.yptr proc 0) older proc;
      optr = store t.optr proc older;
      cptr = store t.cptr (t.parent proc) proc;
      nr_process = t.nr_process + 1;
    }

unfoldable pub remove_links : ℕ → Processes → Processes
remove_links proc t = record t {
  proc_list = list_del (list_link proc) t.proc_list;
  yptr = store_unless_null t.yptr (t.optr proc) (t.yptr proc);
  optr = store_unless_null t.optr (t.yptr proc) (t.optr proc);
  cptr = if not (t.yptr proc == 0) then t.cptr else store t.cptr (t.parent proc) (t.optr proc);
  nr_process = t.nr_process - 1;
}

-- The walk through `proc_list` from the entry `le` on, and the walks that follow it: the values of
-- `last_pid` and `next_safe` at the end.
unfoldable pub scan_pids : ℕ → Links → (ℕ → ℕ) → ℕ → ℕ → ℕ → Option (ℕ × ℕ)
scan_pids zero links pid le last safe = none
scan_pids (suc fuel) links pid le last safe =
    let p = links.next le - 1 in
    elim (links.next le == 0) [
      | true ↦ some (last, safe)
      | false ↦ elim (pid p == last) [
        | true ↦ elim (leb safe (last + 1)) [
          | true ↦
              scan_pids fuel links pid 0 (if leb max_pid (last + 1) then 1 else last + 1) max_pid
          | false ↦ scan_pids fuel links pid (links.next le) (last + 1) safe
        ]
        | false ↦
            scan_pids fuel links pid (links.next le) last
              (if ltb last (pid p) && ltb (pid p) safe then pid p else safe)
      ]
    ]

unfoldable pub get_pid : ℕ → Processes → Option (ℕ × Processes)
get_pid fuel t =
    let last = t.last_pid + 1 in
    let scanned =
      if leb max_pid last
      then scan_pids fuel t.proc_list t.pid 0 1 max_pid
      else if leb t.next_safe last
      then scan_pids fuel t.proc_list t.pid 0 last max_pid
      else some (last, t.next_safe) in
    scanned >>= λ r. some (r.0, record t { last_pid = r.0; next_safe = r.1 })

-- `hash32` with the 10 bits that `pid_hashfn` asks for.
unfoldable pub pid_hashfn : ℕ → ℕ
pid_hashfn val = val * 0x9e37_0001 % 2 ^ 32 / 2 ^ 22

unfoldable pub hash_proc : ℕ → Processes → Processes
hash_proc proc t = record t {
  hash_list = list_add (pid_hashfn (t.pid proc)) (hash_link proc) t.hash_list;
}

unfoldable pub unhash_proc : ℕ → Processes → Processes
unhash_proc proc t = record t { hash_list = list_del (hash_link proc) t.hash_list }

-- The loop of `find_proc` from the entry `le` on: `some none` is NULL.
unfoldable pub find_from : ℕ → ℕ → ℕ → ℕ → Processes → Option (Option ℕ)
find_from zero list le pid t = none
find_from (suc fuel) list le pid t =
    let next = list_next le t.hash_list in
    elim (next == list) [
      | true ↦ some none
      | false ↦ elim (t.pid (next - 1024) == pid) [
        | true ↦ some (some (next - 1024))
        | false ↦ find_from fuel list next pid t
      ]
    ]

unfoldable pub find_proc : ℕ → ℕ → Processes → Option (Option ℕ)
find_proc fuel pid t =
    let found = find_from fuel (pid_hashfn pid) (pid_hashfn pid) pid t in
    if ltb 0 pid && ltb pid max_pid then found else some none

-- The part of `do_fork` between local_intr_save and local_intr_restore, for a process whose parent
-- has been set.
unfoldable pub enter_proc : ℕ → ℕ → Processes → Option Processes
enter_proc fuel proc t = get_pid fuel t >>= λ r.
    some (set_links proc (hash_proc proc (record r.1 { pid = store r.1.pid proc r.0 })))

module _ (cls : SchedClass) where
  -- The loop of `do_exit` that gives the children of `current` to `initproc`.
  unfoldable pub give_children : ℕ → ℕ → Processes → Option Processes
  give_children zero current t = none
  give_children (suc fuel) current t =
      let proc = t.cptr current in
      let init = t.initproc in
      let cptr = store t.cptr current (t.optr proc) in
      let older = cptr init in
      let u = record t {
        yptr = store_unless_null (store t.yptr proc 0) older proc;
        optr = store t.optr proc older;
        parent = store t.parent proc init;
        cptr = store cptr init proc;
      } in
      let woken = wakeup_proc cls init t.sys in
      elim (proc == 0) [
        | true ↦ some t
        | false ↦
            elim (is_zombie (t.sys.procs proc).state
              && ((t.sys.procs init).wait_state == wt_child)) [
                | true ↦ woken >>= λ s. give_children fuel current (record u { sys = s })
                | false ↦ give_children fuel current u
              ]
      ]

  -- The zombie's parent is woken where it waits for a child.
  unfoldable pub tell_parent : ℕ → Processes → Option Sys
  tell_parent current t =
      let dead = set_proc current (record (t.sys.procs current) { state = zombie }) t.sys in
      let woken = wakeup_proc cls (t.parent current) dead in
      if (dead.procs (t.parent current)).wait_state == wt_child then woken else some dead

  -- Up to the call of `schedule`; an exit of `idleproc` or `initproc` panics. Giving back the memory
  -- and the files, and the exit code, are left out.
  unfoldable pub do_exit : ℕ → Processes → Option Processes
  do_exit fuel t =
      let current = t.sys.current in
      let rest = tell_parent current t >>= λ s. give_children fuel current (record t { sys = s }) in
      if (current == t.sys.idleproc) || (current == t.initproc) then none else rest

-- The loop of `do_wait` over the children from `proc` on: whether there is one, and the zombie.
unfoldable pub find_zombie : ℕ → ℕ → Bool → Processes → Option (Bool × Option ℕ)
find_zombie zero proc haskid t = none
find_zombie (suc fuel) proc haskid t = elim (proc == 0) [
  | true ↦ some (haskid, none)
  | false ↦ elim (is_zombie (t.sys.procs proc).state) [
    | true ↦ some (true, some proc)
    | false ↦ find_zombie fuel (t.optr proc) true t
  ]
]

-- What `do_wait` comes to: the child that is taken out, sleep until a child exits, -E_BAD_PROC, or
-- -E_INVAL.
pub data Waited : Type 0 where
  reaped : ℕ → Waited
  asleep bad_proc inval : Waited

-- The address space of the caller, and the bytes of its memory.
pub record User : Type 0 where
  pub mm : Option Mm
  pub memory : ℕ → ℕ

-- A 32-bit number, with its lowest byte first.
unfoldable pub store_int : ℕ → ℕ → (ℕ → ℕ) → ℕ → ℕ
store_int p v m =
    store (store (store (store m p (v % 256)) (p + 1) (v / 256 % 256)) (p + 2) (v / 2 ^ 16 % 256))
      (p + 3) (v / 2 ^ 24 % 256)

-- The check of `code_store`, where it is not NULL.
unfoldable pub check_code_store : ℕ → User → Option (Bool × User)
check_code_store code_store u =
    let checked =
      user_mem_check u.mm code_store 4 true >>= λ r. some (r.0, record u { mm = r.1 }) in
    if not (code_store == 0) then checked else some (true, u)

-- The search of a round, for any child (`pid` 0) or for one.
unfoldable pub search_child : ℕ → ℕ → Processes → Option (Bool × Option ℕ)
search_child fuel pid t =
    let current = t.sys.current in
    let one = find_proc fuel pid t >>= λ found. some (elim found [
      | none ↦ (false, none)
      | some proc ↦
          if t.parent proc == current
          then (true, if is_zombie (t.sys.procs proc).state then some proc else none)
          else (false, none)
    ]) in
    if not (pid == 0) then one else find_zombie fuel (t.cptr current) false t

-- A round, from `repeat` up to the call of `schedule`, behind which another round comes, or to the
-- end; waiting for `idleproc` or `initproc` panics. `exit_code` are the codes that the processes
-- exited with. Giving back the memory of the child is left out, and so is the exit of a process that
-- has been killed when it runs again.
unfoldable pub wait_round :
    ℕ → ℕ → ℕ → (ℕ → ℕ) → User → Processes → Option (Waited × User × Processes)
wait_round fuel pid code_store exit_code u t = search_child fuel pid t >>= λ r.
    let current = t.sys.current in
    let sleeper = record (t.sys.procs current) { state = sleeping; wait_state = wt_child } in
    let none_found =
      if r.0
      then some (asleep, u, record t { sys = set_proc current sleeper t.sys })
      else some (bad_proc, u, t) in
    elim r.1 [
      | none ↦ none_found
      | some proc ↦
          let told =
            if not (code_store == 0)
            then record u { memory = store_int code_store (exit_code proc) u.memory }
            else u in
          if (proc == t.sys.idleproc) || (proc == t.initproc)
          then none
          else some (reaped proc, told, remove_links proc (unhash_proc proc t))
    ]

-- The call up to the end of its first round.
unfoldable pub do_wait : ℕ → ℕ → ℕ → (ℕ → ℕ) → User → Processes → Option (Waited × User × Processes)
do_wait fuel pid code_store exit_code u t = check_code_store code_store u >>= λ c.
    if not c.0 then some (inval, c.1, t) else wait_round fuel pid code_store exit_code c.1 t
