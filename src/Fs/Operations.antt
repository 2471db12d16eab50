-- ===== src/Fs/Operations.antt =====
-- lab8/kern/fs/file.c: the operations on open files that the system calls end in.
pub mod Table
pub mod Entry
pub mod Open
use Prim.Native.Nat.{bit_and}
use os.Base.{
  ℕ, ◌+◌, ◌%◌, ◌^◌, Bool, true, false, not, Option, none, some, ◌==◌, if◌then◌else◌, ◌>>=◌, ◌>>◌,
  check,
}
use os.Fs.Iobuf.{Iobuf, word, iobuf_init, iobuf_used}
use os.Fs.File.{
  Status, fd_none, fd_init, fd_opened, fd_closed, File, Files, Result, done, failed, e_inval, Vfs,
  is_opened, set_file, fd_array_alloc, fd_array_free, fd_array_acquire, fd_array_release,
  fd_array_open, fd_array_close, fd_array_dup, fd2file,
}

-- Whether `open_flags` asks for reading and for writing.
abbrev pub access_mode : ℕ → Option (Bool × Bool)
access_mode flags =
    let mode = bit_and flags 3 in
    if mode == 0
    then some (true, false)
    else if mode == 1
    then some (false, true)
    else if mode == 2
    then some (true, true)
    else none

module _ {W : Type 0} (vfs : Vfs W) (nentry : ℕ) where
  -- The end of `file_open`: the entry gets its fields and is opened.
  unfoldable pub finish_open : ℕ → Bool × Bool → ℕ → ℕ → Files W → Option (Result ℕ × Files W)
  finish_open i mode node pos s = do
    let file = s.fd_array i
    let filled =
        set_file i (record file { pos = pos; node = node; readable = mode.0; writable = mode.1 }) s
    t ← fd_array_open vfs nentry i filled
    some (done (t.fd_array i).fd, t)

  -- The case of `O_APPEND`: the position is the size of the file.
  unfoldable pub open_at : ℕ → ℕ → Bool × Bool → ℕ → Files W → Option (Result ℕ × Files W)
  open_at i flags mode node s =
      if bit_and flags 0x20 == 0
      then finish_open i mode node 0 s
      else elim (vfs.vop_fstat node s).0 [
        | done size ↦ finish_open i mode node size (vfs.vop_fstat node s).1
        | failed e ↦
            fd_array_free vfs nentry i (vfs.vfs_close node (vfs.vop_fstat node s).1) >>= λ t.
            some (failed e, t)
      ]

  unfoldable pub open_entry : ℕ → ℕ → ℕ → Bool × Bool → Files W → Option (Result ℕ × Files W)
  open_entry i path flags mode s = elim (vfs.vfs_open path flags s).0 [
    | done node ↦ open_at i flags mode node (vfs.vfs_open path flags s).1
    | failed e ↦
        fd_array_free vfs nentry i (vfs.vfs_open path flags s).1 >>= λ t. some (failed e, t)
  ]

  unfoldable pub file_open : ℕ → ℕ → Files W → Option (Result ℕ × Files W)
  file_open path flags s = elim (access_mode flags) [
    | none ↦ some (failed e_inval, s)
    | some mode ↦ fd_array_alloc vfs nentry none s >>= λ r. elim r.0 [
      | failed e ↦ some (failed e, r.1)
      | done i ↦ open_entry i path flags mode r.1
    ]
  ]

  -- The start that the operations on a descriptor share: its entry, or -E_INVAL.
  abbrev pub with_file :
      {A : Type 0} → ℕ → (ℕ → Option (Result A × Files W)) → Files W → Option (Result A × Files W)
  with_file fd body s =
      fd2file vfs nentry fd s >>= λ r. elim r [ failed e ↦ some (failed e, s) | done i ↦ body i ]

  unfoldable pub file_close : ℕ → Files W → Option (Result (Unit {0}) × Files W)
  file_close fd s = with_file fd (λ i. fd_array_close vfs nentry i s >>= λ t. some (done tt, t)) s

  -- A code as a result.
  abbrev pub coded : ℕ → Result (Unit {0})
  coded code = if code == 0 then done tt else failed code

  -- The common part of `file_read` and `file_write`: the transfer, and the new position unless the
  -- file was closed meanwhile. The results: the code, and the number of bytes moved.
  unfoldable pub transfer :
      (ℕ → Iobuf → Files W → ℕ × Iobuf × Files W)
      → ℕ
      → ℕ
      → ℕ
      → Files W
      → Option (Result (Unit {0}) × ℕ × Files W)
  transfer move i base len s = do
    held ← fd_array_acquire vfs nentry i s
    let file = held.fd_array i
    let moved = move file.node (iobuf_init base len file.pos) held
    let copied = iobuf_used moved.1
    let after = moved.2.fd_array i
    let advanced =
        if is_opened after.status
        then set_file i (record after { pos = word (after.pos + copied) }) moved.2
        else moved.2
    t ← fd_array_release vfs nentry i advanced
    some (coded moved.0, copied, t)

  unfoldable pub file_read : ℕ → ℕ → ℕ → Files W → Option (Result (Unit {0}) × ℕ × Files W)
  file_read fd base len s = fd2file vfs nentry fd s >>= λ r. elim r [
    | failed e ↦ some (failed e, 0, s)
    | done i ↦
        if not (s.fd_array i).readable
        then some (failed e_inval, 0, s)
        else transfer vfs.vop_read i base len s
  ]

  unfoldable pub file_write : ℕ → ℕ → ℕ → Files W → Option (Result (Unit {0}) × ℕ × Files W)
  file_write fd base len s = fd2file vfs nentry fd s >>= λ r. elim r [
    | failed e ↦ some (failed e, 0, s)
    | done i ↦
        if not (s.fd_array i).writable
        then some (failed e_inval, 0, s)
        else transfer vfs.vop_write i base len s
  ]

  -- The position that `whence` selects.
  unfoldable pub seek_target : ℕ → ℕ → ℕ → Files W → Result ℕ × Files W
  seek_target i pos whence s =
      let at_end = elim (vfs.vop_fstat (s.fd_array i).node s).0 as (λ x. Result ℕ) [
        | done size ↦ done (word (pos + size))
        | failed e ↦ failed e
      ] in
      if whence == 0
      then (done pos, s)
      else if whence == 1
      then (done (word (pos + (s.fd_array i).pos)), s)
      else if whence == 2
      then (at_end, (vfs.vop_fstat (s.fd_array i).node s).1)
      else (failed e_inval, s)

  unfoldable pub seek_to : ℕ → Result ℕ × Files W → Result (Unit {0}) × Files W
  seek_to i (failed e, s) = (failed e, s)
  seek_to i (done pos, s) =
      let (code, t) = vfs.vop_tryseek (s.fd_array i).node pos s in
      (coded code, if code == 0 then set_file i (record (t.fd_array i) { pos = pos }) t else t)

  unfoldable pub file_seek : ℕ → ℕ → ℕ → Files W → Option (Result (Unit {0}) × Files W)
  file_seek fd pos whence s =
      with_file fd
        (λ i. do
          held ← fd_array_acquire vfs nentry i s
          let sought = seek_to i (seek_target i pos whence held)
          t ← fd_array_release vfs nentry i sought.1
          some (sought.0, t))
        s

  unfoldable pub file_fstat : ℕ → Files W → Option (Result ℕ × Files W)
  file_fstat fd s =
      with_file fd
        (λ i. do
          held ← fd_array_acquire vfs nentry i s
          let stat = vfs.vop_fstat (held.fd_array i).node held
          t ← fd_array_release vfs nentry i stat.1
          some (stat.0, t))
        s

  unfoldable pub file_fsync : ℕ → Files W → Option (Result (Unit {0}) × Files W)
  file_fsync fd s =
      with_file fd
        (λ i. do
          held ← fd_array_acquire vfs nentry i s
          let synced = vfs.vop_fsync (held.fd_array i).node held
          t ← fd_array_release vfs nentry i synced.1
          some (coded synced.0, t))
        s

  -- The result is the new offset in the directory; `name` and `size` are the address and the size of
  -- the buffer for the name.
  unfoldable pub file_getdirentry : ℕ → ℕ → ℕ → ℕ → Files W → Option (Result ℕ × Files W)
  file_getdirentry fd name size offset s =
      with_file fd
        (λ i. do
          held ← fd_array_acquire vfs nentry i s
          let read = vfs.vop_getdirentry (held.fd_array i).node (iobuf_init name size offset) held
          t ← fd_array_release vfs nentry i read.2
          some (if read.0 == 0 then done (word (offset + iobuf_used read.1)) else failed read.0, t))
        s

  unfoldable pub file_dup : ℕ → Option ℕ → Files W → Option (Result ℕ × Files W)
  file_dup fd1 fd2 s =
      with_file fd1
        (λ from. fd_array_alloc vfs nentry fd2 s >>= λ r. elim r.0 [
          | failed e ↦ some (failed e, r.1)
          | done to ↦ fd_array_dup vfs nentry to from r.1 >>= λ t. some (done (t.fd_array to).fd, t)
        ])
        s
