-- ===== src/Fs/Operations/Table.antt =====
-- The table of open files stays consistent through `file_close` and the transfers.
use os.Base.{
  ℕ, ◌-◌, ◌<◌, ◌≡◌, refl, sym, ◌≢◌, true, some, arith, ◌==◌, lt→ltb, Bool-cases, inl, inr, ==_refl,
  ==_ne,
}
use mathlib.Core.Path.{subst}
use os.Fs.File.{
  Status, fd_none, fd_init, fd_opened, fd_closed, File, Files, done, Vfs, set_file, fopen_count_dec,
  fd_array_free, fd_array_close, fd2file,
}
use os.Fs.Operations.{file_close}

-- An entry counts its users exactly while it is open, or closed and still in use.
abbrev pub Counted : Status → ℕ → Type 0
Counted fd_none n = n ≡ 0
Counted fd_init n = n ≡ 0
Counted fd_opened n = 0 < n
Counted fd_closed n = 0 < n

pub record IsTable (nentry : ℕ) (count : ℕ) (a : ℕ → File) : Type 0 where
  pub in_use : 0 < count
  pub own : (i : ℕ) → i < nentry → (a i).fd ≡ i
  pub counted : (i : ℕ) → i < nentry → Counted (a i).status (a i).open_count

-- The state keeps the table.
abbrev pub Keeps : {W : Type 0} → Files W → Files W → Type 0
Keeps s t = (t.fd_array ≡ s.fd_array) × (t.files_count ≡ s.files_count)

-- A table that differs from another in one entry.
pub IsTable-changed :
    {nentry count : ℕ} {a b : ℕ → File} (i : ℕ)
    → IsTable nentry count a
    → ((j : ℕ) → j ≢ i → b j ≡ a j)
    → (b i).fd ≡ i
    → Counted (b i).status (b i).open_count
    → IsTable nentry count b
IsTable-changed {nentry} {count} {a} {b} i h same own counted = record {
  in_use = h.in_use;
  own = λ j lt. elim (Bool-cases (j == i)) [
    | inl here ↦ subst (λ k. (b k).fd ≡ k) (ground (arith, here)) own
    | inr other ↦ subst (λ f. f.fd ≡ j) (sym (same j (ground (arith, other)))) (h.own j lt)
  ];
  counted = λ j lt. elim (Bool-cases (j == i)) [
    | inl here ↦ subst (λ k. Counted (b k).status (b k).open_count) (ground (arith, here)) counted
    | inr other ↦
        subst (λ f. Counted f.status f.open_count) (sym (same j (ground (arith, other))))
          (h.counted j lt)
  ];
}

-- The state behind the last user but one of an entry.
abbrev pub shut : {W : Type 0} → ℕ → Files W → Files W
shut fd s = set_file fd (fopen_count_dec (record (s.fd_array fd) { status = fd_closed })) s

module _ {W : Type 0} (vfs : Vfs W) (nentry : ℕ) where
  fd2file-eq :
      (s : Files W) (fd : ℕ)
      → IsTable nentry s.files_count s.fd_array
      → fd < nentry
      → (s.fd_array fd).status ≡ fd_opened
      → fd2file vfs nentry fd s ≡ some (done fd)
  unfolding fd2file
  fd2file-eq s fd h lt e =
      rw (lt→ltb fd nentry lt, lt→ltb 0 s.files_count h.in_use, e, ==_of (h.own fd lt)) refl
    where
      ==_of : {a b : ℕ} → a ≡ b → (a == b) ≡ true
      ==_of e = ground (arith, e)

  module _ (s : Files W) (fd : ℕ) (h : IsTable nentry s.files_count s.fd_array) (lt : fd < nentry)
      (opened : (s.fd_array fd).status ≡ fd_opened) where
    abbrev freed : Files W
    freed =
        let t = vfs.vfs_close (s.fd_array fd).node (shut fd s) in
        set_file fd (record (t.fd_array fd) { status = fd_none }) t

    -- On a consistent table, `file_close` of a valid open descriptor with more than one user
    -- returns 0 and only marks its entry closed, with one user less; the table is consistent again.
    pub file_close-shared :
        1 < (s.fd_array fd).open_count
        → (file_close vfs nentry fd s ≡ some (done tt, shut fd s))
          × IsTable nentry s.files_count (shut fd s).fd_array
    unfolding file_close fd_array_close
    file_close-shared more = (
      rw
          (
            fd2file-eq s fd h lt opened,
            opened,
            lt→ltb 0 (s.fd_array fd).open_count (omega arith),
            ==_refl fd,
            ==_ne ((s.fd_array fd).open_count - 1) 0 (omega arith),
          )
          refl,
      IsTable-changed fd h (λ j ne. rw (==_ne fd j (λ e. ne (sym e))) refl)
          (rw (==_refl fd) (h.own fd lt)) (rw (==_refl fd) (omega arith)),
    )

    module _ (closes : (node : ℕ) (s : Files W) → Keeps s (vfs.vfs_close node s)) where
      runs_last : (s.fd_array fd).open_count ≡ 1 → fd_array_close vfs nentry fd s ≡ some freed
      unfolding fd_array_close fd_array_free
      runs_last one = rw (opened, one, ==_refl fd) refl

      -- On a consistent table, where closing an inode leaves the table alone, `file_close` of a
      -- valid open descriptor with one user returns 0, frees its entry and changes no other; the
      -- table is consistent again.
      pub file_close-last :
          (s.fd_array fd).open_count ≡ 1
          → (t : Files W) × (file_close vfs nentry fd s ≡ some (done tt, t))
            × ((t.fd_array fd).status ≡ fd_none)
            × ((j : ℕ) → j ≢ fd → t.fd_array j ≡ s.fd_array j)
            × IsTable nentry t.files_count t.fd_array
      unfolding file_close
      file_close-last one =
          let kept = closes (s.fd_array fd).node (shut fd s) in
          let others : (j : ℕ) → j ≢ fd → freed.fd_array j ≡ s.fd_array j =
            λ j ne. rw (==_ne fd j (λ e. ne (sym e)), kept.0, ==_ne fd j (λ e. ne (sym e))) refl in
          (
            freed,
            rw (fd2file-eq s fd h lt opened, runs_last one) refl,
            rw (==_refl fd) refl,
            others,
            subst (λ c. IsTable nentry c freed.fd_array) (sym kept.1)
                (IsTable-changed fd h others (rw (==_refl fd, kept.0, ==_refl fd) (h.own fd lt))
                  (rw (==_refl fd, kept.0, ==_refl fd) (omega (arith, one)))),
          )
