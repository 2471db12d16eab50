-- ===== src/Examples/Files.antt =====
-- lab8/kern/fs/file.c: a table of four entries, of which the first and the third are open, on a file
-- system in which every operation succeeds.
use os.Base.{
  ℕ, suc, ◌≡◌, ◌≢◌, refl, some, arith, ◌==◌, if◌then◌else◌, true, false, Bool-cases, inl, inr,
}
use os.Fs.File.{fd_none, fd_opened, File, Files, done, Vfs}
use os.Fs.Operations.{file_open, file_close}
use os.Fs.Operations.Table.{IsTable, file_close-last}
use os.Fs.Operations.Entry.{Opens}
use os.Fs.Operations.Open.{file_open-Opens}

abbrev vfs : Vfs ℕ
vfs = record {
  vfs_open = λ path flags s. (done (suc path), s);
  vfs_close = λ node s. s;
  vop_fstat = λ node s. (done 7, s);
  vop_read = λ node iob s. (0, iob, s);
  vop_write = λ node iob s. (0, iob, s);
  vop_tryseek = λ node pos s. (0, s);
  vop_fsync = λ node s. (0, s);
  vop_getdirentry = λ node iob s. (0, iob, s);
  vop_ref_inc = λ node s. s;
  vop_open_inc = λ node s. s;
}

abbrev entry : ℕ → File
entry i = record {
  status = if i == 0 then fd_opened else if i == 2 then fd_opened else fd_none;
  readable = true;
  writable = false;
  fd = i;
  pos = 0;
  node = 9;
  open_count = if i == 0 then 1 else if i == 2 then 2 else 0;
}

abbrev files : Files ℕ
files = record { files_count = 1; fd_array = entry; world = 0 }

files-IsTable : IsTable 4 1 entry
files-IsTable = record {
  in_use = omega arith;
  own = λ i lt. refl;
  counted = λ i lt. elim (Bool-cases (i == 0)) [
    | inl e ↦ rw e (omega arith)
    | inr e ↦ rw e (elim (Bool-cases (i == 2)) [ inl f ↦ rw f (omega arith) | inr f ↦ rw f refl ])
  ];
}

file_open-Opens_example : Opens 4 files (file_open vfs 4 20 0 files)
file_open-Opens_example =
    file_open-Opens vfs 4 (λ path flags s. (refl, refl)) (λ path flags node s e z. cc)
      (λ node s. (refl, refl)) (λ node s. (refl, refl)) 20 0 files files-IsTable

file_close-last_example :
    (t : Files ℕ) × (file_close vfs 4 0 files ≡ some (done tt, t))
    × ((t.fd_array 0).status ≡ fd_none)
    × ((j : ℕ) → j ≢ 0 → t.fd_array j ≡ files.fd_array j)
    × IsTable 4 t.files_count t.fd_array
file_close-last_example =
    file_close-last vfs 4 files 0 files-IsTable (omega arith) refl (λ node s. (refl, refl)) refl
