-- ===== src/Fs/File.antt =====
-- lab8/kern/fs/file.c: the table of open files. The operations on inodes that it calls are a record
-- of functions: each may change the table too, since it may sleep while another thread that
-- shares the table runs. A descriptor is a number, and any from `nentry` up is invalid, as are the
-- negative ones; a request for any free one, NO_FD, is `none`.
use os.Base.{
  ℕ, zero, suc, ◌+◌, ◌-◌, Bool, true, false, not, ◌&&◌, ◌||◌, Option, none, some, ◌==◌, ltb,
  if◌then◌else◌, ◌>>=◌, ◌>>◌, check,
}
use os.Fs.Iobuf.{Iobuf}

pub data Status : Type 0 where
  fd_none fd_init fd_opened fd_closed : Status

pub record File : Type 0 where
  pub status : Status
  pub readable : Bool
  pub writable : Bool
  pub fd : ℕ
  pub pos : ℕ
  pub node : ℕ
  pub open_count : ℕ

-- The table, and the state behind the inodes.
pub record Files (W : Type 0) : Type 0 where
  pub files_count : ℕ
  pub fd_array : ℕ → File
  pub world : W

-- A value, or the number of an error code that is returned negated.
pub data Result (A : Type 0) : Type 0 where
  done : A → Result A
  failed : ℕ → Result A

abbrev pub e_inval : ℕ
e_inval = 3

abbrev pub e_busy : ℕ
e_busy = 15

abbrev pub e_max_open : ℕ
e_max_open = 22

-- The operations of vfsfile.c and inode.h that file.c calls. A code of 0 is success.
pub record Vfs (W : Type 0) : Type 0 where
  pub vfs_open : ℕ → ℕ → Files W → Result ℕ × Files W
  pub vfs_close : ℕ → Files W → Files W
  pub vop_fstat : ℕ → Files W → Result ℕ × Files W
  pub vop_read : ℕ → Iobuf → Files W → ℕ × Iobuf × Files W
  pub vop_write : ℕ → Iobuf → Files W → ℕ × Iobuf × Files W
  pub vop_tryseek : ℕ → ℕ → Files W → ℕ × Files W
  pub vop_fsync : ℕ → Files W → ℕ × Files W
  pub vop_getdirentry : ℕ → Iobuf → Files W → ℕ × Iobuf × Files W
  pub vop_ref_inc : ℕ → Files W → Files W
  pub vop_open_inc : ℕ → Files W → Files W

abbrev pub is_none : Status → Bool
is_none fd_none = true
is_none fd_init = false
is_none fd_opened = false
is_none fd_closed = false

abbrev pub is_init : Status → Bool
is_init fd_none = false
is_init fd_init = true
is_init fd_opened = false
is_init fd_closed = false

abbrev pub is_opened : Status → Bool
is_opened fd_none = false
is_opened fd_init = false
is_opened fd_opened = true
is_opened fd_closed = false

abbrev pub is_closed : Status → Bool
is_closed fd_none = false
is_closed fd_init = false
is_closed fd_opened = false
is_closed fd_closed = true

abbrev pub set_file : {W : Type 0} → ℕ → File → Files W → Files W
set_file i f s = record s { fd_array = λ j. if i == j then f else s.fd_array j }

abbrev pub fopen_count_inc : File → File
fopen_count_inc f = record f { open_count = f.open_count + 1 }

abbrev pub fopen_count_dec : File → File
fopen_count_dec f = record f { open_count = f.open_count - 1 }

-- The first `n` entries are free, and know their place.
unfoldable pub fd_array_init : ℕ → (ℕ → File) → ℕ → File
fd_array_init n a i =
    if ltb i n then record (a i) { open_count = 0; status = fd_none; fd = i } else a i

-- The search for a free entry among the `n` from `fd` on.
unfoldable pub first_none : ℕ → ℕ → (ℕ → File) → Option ℕ
first_none zero fd a = none
first_none (suc n) fd a =
    let further = first_none n (suc fd) a in if is_none (a fd).status then some fd else further

module _ {W : Type 0} (vfs : Vfs W) (nentry : ℕ) where
  -- The label `found`.
  unfoldable pub take_entry : ℕ → Files W → Option (Result ℕ × Files W)
  take_entry i s = do
    check ((s.fd_array i).open_count == 0)
    some (done i, set_file i (record (s.fd_array i) { status = fd_init; node = 0 }) s)

  -- The result is the index of the entry.
  unfoldable pub fd_array_alloc : Option ℕ → Files W → Option (Result ℕ × Files W)
  fd_array_alloc none s = check (ltb 0 s.files_count) >> elim (first_none nentry 0 s.fd_array) [
    | none ↦ some (failed e_max_open, s)
    | some i ↦ take_entry i s
  ]
  fd_array_alloc (some fd) s =
      check (ltb 0 s.files_count)
      >> (if ltb fd nentry
          then (if is_none (s.fd_array fd).status then take_entry fd s else some (failed e_busy, s))
          else some (failed e_inval, s))

  unfoldable pub fd_array_free : ℕ → Files W → Option (Files W)
  fd_array_free i s = do
    check (is_init (s.fd_array i).status || is_closed (s.fd_array i).status)
    check ((s.fd_array i).open_count == 0)
    let t = if is_closed (s.fd_array i).status then vfs.vfs_close (s.fd_array i).node s else s
    some (set_file i (record (t.fd_array i) { status = fd_none }) t)

  unfoldable pub fd_array_acquire : ℕ → Files W → Option (Files W)
  fd_array_acquire i s = do
    check (is_opened (s.fd_array i).status)
    some (set_file i (fopen_count_inc (s.fd_array i)) s)

  unfoldable pub fd_array_release : ℕ → Files W → Option (Files W)
  fd_array_release i s = do
    check (is_opened (s.fd_array i).status || is_closed (s.fd_array i).status)
    check (ltb 0 (s.fd_array i).open_count)
    let t = set_file i (fopen_count_dec (s.fd_array i)) s
    if (t.fd_array i).open_count == 0 then fd_array_free i t else some t

  unfoldable pub fd_array_open : ℕ → Files W → Option (Files W)
  fd_array_open i s = do
    check (is_init (s.fd_array i).status && not ((s.fd_array i).node == 0))
    some (set_file i (fopen_count_inc (record (s.fd_array i) { status = fd_opened })) s)

  unfoldable pub fd_array_close : ℕ → Files W → Option (Files W)
  fd_array_close i s = do
    check (is_opened (s.fd_array i).status)
    check (ltb 0 (s.fd_array i).open_count)
    let t = set_file i (fopen_count_dec (record (s.fd_array i) { status = fd_closed })) s
    if (t.fd_array i).open_count == 0 then fd_array_free i t else some t

  unfoldable pub fd_array_dup : ℕ → ℕ → Files W → Option (Files W)
  fd_array_dup to from s = do
    check (is_init (s.fd_array to).status && is_opened (s.fd_array from).status)
    let file = s.fd_array from
    let copied =
        set_file to
          (record (s.fd_array to) {
            pos = file.pos;
            readable = file.readable;
            writable = file.writable;
          })
          s
    let counted = vfs.vop_open_inc file.node (vfs.vop_ref_inc file.node copied)
    fd_array_open to (set_file to (record (counted.fd_array to) { node = file.node }) counted)

  unfoldable pub fd2file : ℕ → Files W → Option (Result ℕ)
  fd2file fd s =
      if ltb fd nentry
      then (do
        check (ltb 0 s.files_count)
        some (
            if is_opened (s.fd_array fd).status && ((s.fd_array fd).fd == fd)
            then done fd
            else failed e_inval))
      else some (failed e_inval)

  unfoldable pub file_testfd : ℕ → Bool → Bool → Files W → Option Bool
  file_testfd fd readable writable s = fd2file fd s >>= λ r. some (elim r [
    | failed e ↦ false
    | done i ↦
        if readable && not (s.fd_array i).readable
        then false
        else if writable && not (s.fd_array i).writable
        then false
        else true
  ])
