-- ===== src/Fs/Operations/Open.antt =====
-- `file_open` of lab8/kern/fs/file.c: the lowest free descriptor, or the table as it was.
use os.Base.{
  ℕ, ◌<◌, ◌≡◌, refl, ap, sym, ◌≢◌, Bool, true, Option, none, some, arith, ◌==◌, ltb, lt→ltb,
  if◌then◌else◌, Bool-cases, inl, inr, ==_refl, ==_ne, ◌>>=◌, ◌>>◌, check,
}
use mathlib.Core.Path.{subst}
use Prim.Native.Nat.{bit_and}
use os.Fs.File.{
  fd_none, fd_init, File, Files, Result, done, failed, Vfs, e_inval, e_max_open, is_none, set_file,
  first_none, take_entry, fd_array_alloc, fd_array_free,
}
use os.Fs.Operations.{file_open, open_entry, open_at, finish_open, access_mode}
use os.Fs.Operations.Table.{IsTable, Counted, Keeps, IsTable-changed}
use os.Fs.Operations.Entry.{
  AllTaken, Opens, Finds, first_none-Finds, none_status, Keeps-trans, checked, free_init, filled,
  finished, opens_init, opens, refuses,
}

module _ {W : Type 0} (vfs : Vfs W) (nentry : ℕ)
    (opens_keep : (path flags : ℕ) (s : Files W) → Keeps s (vfs.vfs_open path flags s).1)
    (nodes : (path flags node : ℕ) (s : Files W)
      → (vfs.vfs_open path flags s).0 ≡ done node
      → node ≢ 0)
    (fstat_keeps : (node : ℕ) (s : Files W) → Keeps s (vfs.vop_fstat node s).1)
    (close_keeps : (node : ℕ) (s : Files W) → Keeps s (vfs.vfs_close node s)) where
  -- The entry `i` of `s` has been taken in `u`.
  module _ (s : Files W) (h : IsTable nentry s.files_count s.fd_array) (i : ℕ) (lt : i < nentry)
      (free : is_none (s.fd_array i).status ≡ true) (lowest : AllTaken s.fd_array 0 i) where
    abbrev taken : Files W
    taken = set_file i (record (s.fd_array i) { status = fd_init; node = 0 }) s

    count : (s.fd_array i).open_count ≡ 0
    count =
        subst (λ x. Counted x (s.fd_array i).open_count) (none_status (s.fd_array i).status free)
          (h.counted i lt)

    take_entry-eq : take_entry vfs nentry i s ≡ some (done i, taken)
    unfolding take_entry
    take_entry-eq = checked (s.fd_array i).open_count (done i, taken) count

    module _ (u : Files W) (k : Keeps taken u) where
      status_u : (u.fd_array i).status ≡ fd_init
      status_u = rw (k.0, ==_refl i) refl

      count_u : (u.fd_array i).open_count ≡ 0
      count_u = rw (k.0, ==_refl i) count

      own_u : (u.fd_array i).fd ≡ i
      own_u = rw (k.0, ==_refl i) (h.own i lt)

      others : (j : ℕ) → j ≢ i → u.fd_array j ≡ s.fd_array j
      others j ne = rw (k.0, ==_ne i j (λ q. ne (sym q))) refl

      others_set : (f : File) (j : ℕ) → j ≢ i → (set_file i f u).fd_array j ≡ s.fd_array j
      others_set f j ne = rw (==_ne i j (λ q. ne (sym q))) (others j ne)

      set-IsTable :
          (f : File)
          → f.fd ≡ i
          → Counted f.status f.open_count
          → IsTable nentry u.files_count (set_file i f u).fd_array
      set-IsTable f own counted =
          subst (λ c. IsTable nentry c (set_file i f u).fd_array) (sym k.1)
            (IsTable-changed i h (others_set f) (rw (==_refl i) own) (rw (==_refl i) counted))

      same_status :
          (j : ℕ)
          → ((set_file i (record (u.fd_array i) { status = fd_none }) u).fd_array j).status
            ≡ (s.fd_array j).status
      same_status j = elim (Bool-cases (i == j)) [
        | inl here ↦ rw here (
            sym (
              subst (λ x. (s.fd_array x).status ≡ fd_none) (ground (arith, here))
                (none_status (s.fd_array i).status free)))
        | inr other ↦ rw other (ap (λ f. f.status) (others j (ground (arith, other))))
      ]

      gives_back :
          (e : ℕ) → Opens nentry s (fd_array_free vfs nentry i u >>= λ t. some (failed e, t))
      gives_back e =
          refuses e (set_file i (record (u.fd_array i) { status = fd_none }) u)
            (rw (free_init vfs nentry i u status_u count_u) refl) same_status
            (set-IsTable (record (u.fd_array i) { status = fd_none }) own_u count_u)

      finish_open-eq :
          (mode : Bool × Bool) (node pos : ℕ)
          → node ≢ 0
          → finish_open vfs nentry i mode node pos u
            ≡ some (done i, finished i (filled mode node pos (u.fd_array i)) u)
      unfolding finish_open
      finish_open-eq mode node pos ne =
          let f = filled mode node pos (u.fd_array i) in
          let t = finished i f u in
          let ready =
            opens_init vfs nentry i (set_file i f u) (rw (==_refl i) status_u)
              (λ e. ne (subst (λ b. (if b then f else u.fd_array i).node ≡ 0) (==_refl i) e)) in
          let own : (t.fd_array i).fd ≡ i = rw (==_refl i) own_u in
          rw ready (ap (λ n. some (done n, t)) own)

      finishes :
          (mode : Bool × Bool) (node pos : ℕ)
          → node ≢ 0
          → Opens nentry s (finish_open vfs nentry i mode node pos u)
      finishes mode node pos ne =
          let f = filled mode node pos (u.fd_array i) in
          let same : (j : ℕ) → j ≢ i → (finished i f u).fd_array j ≡ s.fd_array j =
            λ j other. rw (==_ne i j (λ q. other (sym q))) (others j other) in
          opens i (finished i f u) (finish_open-eq mode node pos ne) lt lowest free
            (rw (==_refl i) refl) (rw (==_refl i) (omega (arith, count_u))) same
            (subst (λ c. IsTable nentry c (finished i f u).fd_array) (sym k.1)
              (IsTable-changed i h same (rw (==_refl i) own_u)
                (rw (==_refl i) (omega (arith, count_u)))))

    settles :
        (u : Files W) (flags : ℕ) (mode : Bool × Bool) (node : ℕ)
        → Keeps taken u
        → node ≢ 0
        → Opens nentry s (open_at vfs nentry i flags mode node u)
    unfolding open_at
    settles u flags mode node k ne = elim (Bool-cases (bit_and flags 0x20 == 0)) [
      | inl plain ↦ rw plain (finishes u k mode node 0 ne)
      | inr append ↦ rw append (at_end (vfs.vop_fstat node u).0)
    ]
      where
        at_end :
            (o : Result ℕ)
            → Opens nentry s (elim o as (λ x. Option (Result ℕ × Files W)) [
              | done size ↦ finish_open vfs nentry i mode node size (vfs.vop_fstat node u).1
              | failed e ↦
                  fd_array_free vfs nentry i (vfs.vfs_close node (vfs.vop_fstat node u).1) >>= λ t.
                  some (failed e, t)
            ])
        at_end (done size) =
            finishes (vfs.vop_fstat node u).1
              (Keeps-trans taken u (vfs.vop_fstat node u).1 k (fstat_keeps node u)) mode node size
              ne
        at_end (failed e) =
            gives_back (vfs.vfs_close node (vfs.vop_fstat node u).1)
              (Keeps-trans taken (vfs.vop_fstat node u).1
                (vfs.vfs_close node (vfs.vop_fstat node u).1)
                (Keeps-trans taken u (vfs.vop_fstat node u).1 k (fstat_keeps node u))
                (close_keeps node (vfs.vop_fstat node u).1))
              e

    enters :
        (path flags : ℕ) (mode : Bool × Bool)
        → Opens nentry s (open_entry vfs nentry i path flags mode taken)
    unfolding open_entry
    enters path flags mode = by_node (vfs.vfs_open path flags taken).0 refl
      where
        by_node :
            (o : Result ℕ)
            → (vfs.vfs_open path flags taken).0 ≡ o
            → Opens nentry s (elim o as (λ x. Option (Result ℕ × Files W)) [
              | done node ↦ open_at vfs nentry i flags mode node (vfs.vfs_open path flags taken).1
              | failed e ↦ fd_array_free vfs nentry i (vfs.vfs_open path flags taken).1 >>= λ t.
                  some (failed e, t)
            ])
        by_node (done node) q =
            settles (vfs.vfs_open path flags taken).1 flags mode node (opens_keep path flags taken)
              (nodes path flags node taken q)
        by_node (failed e) q =
            gives_back (vfs.vfs_open path flags taken).1 (opens_keep path flags taken) e

  -- Let the table be consistent (every entry knows its place, and has users exactly if it is open
  -- or closed), and let the operations on inodes leave it alone, those that open giving a node
  -- other than NULL. `file_open` returns. Either the result is the lowest free descriptor, whose
  -- entry is then open with one user while no other entry changes; or it is an error, and every
  -- entry has the status it had. The table is consistent again.
  pub file_open-Opens :
      (path flags : ℕ) (s : Files W)
      → IsTable nentry s.files_count s.fd_array
      → Opens nentry s (file_open vfs nentry path flags s)
  unfolding file_open fd_array_alloc
  file_open-Opens path flags s h = by_mode (access_mode flags)
    where
      by_entry :
          (mode : Bool × Bool) (o : Option ℕ)
          → Finds nentry 0 s.fd_array o
          → Opens nentry s (
              (check (ltb 0 s.files_count) >> elim o as (λ x. Option (Result ℕ × Files W)) [
                | none ↦ some (failed e_max_open, s)
                | some i ↦ take_entry vfs nentry i s
              ])
              >>= λ r. elim r.0 as (λ x. Option (Result ℕ × Files W)) [
                | failed e ↦ some (failed e, r.1)
                | done i ↦ open_entry vfs nentry i path flags mode r.1
              ])
      by_entry mode none q =
          rw (lt→ltb 0 s.files_count h.in_use) (refuses e_max_open s refl (λ j. refl) h)
      by_entry mode (some i) q =
          rw (lt→ltb 0 s.files_count h.in_use, take_entry-eq s h i (omega (arith, q.1)) q.3 q.2)
            (enters s h i (omega (arith, q.1)) q.3 q.2 path flags mode)

      by_mode :
          (o : Option (Bool × Bool))
          → Opens nentry s (elim o as (λ x. Option (Result ℕ × Files W)) [
            | none ↦ some (failed e_inval, s)
            | some mode ↦ fd_array_alloc vfs nentry none s >>= λ r. elim r.0 [
              | failed e ↦ some (failed e, r.1)
              | done i ↦ open_entry vfs nentry i path flags mode r.1
            ]
          ])
      by_mode none = refuses e_inval s refl (λ j. refl) h
      by_mode (some mode) =
          by_entry mode (first_none nentry 0 s.fd_array) (first_none-Finds nentry 0 s.fd_array)
