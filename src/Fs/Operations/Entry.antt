-- ===== src/Fs/Operations/Entry.antt =====
-- Steps of `file_open` of lab8/kern/fs/file.c: the search for an entry, and what becomes of it.
use os.Base.{
  ℕ, zero, suc, ◌+◌, ◌≤◌, ◌<◌, ◌≡◌, refl, sym, ◌∙◌, ◌≢◌, Bool, true, false, Option, none, some,
  arith, ◌==◌, Bool-cases, inl, inr, ==_ne, ◌>>◌, check,
}
use mathlib.Core.Path.{subst}
use os.Fs.File.{
  Status, fd_none, fd_init, fd_opened, fd_closed, File, Files, Result, done, failed, Vfs, is_none,
  set_file, first_none, fd_array_free, fd_array_open, fopen_count_inc,
}
use os.Fs.Operations.Table.{IsTable, Keeps}

-- No free entry from `lo` to before `hi`.
abbrev pub AllTaken : (ℕ → File) → ℕ → ℕ → Type 0
AllTaken a lo hi = (j : ℕ) → lo ≤ j → j < hi → is_none (a j).status ≡ false

-- What a call of `file_open` may do to the table.
pub data Opens (nentry : ℕ) {W : Type 0} (s : Files W) : Option (Result ℕ × Files W) → Type 0 where
  opens :
      {r : Option (Result ℕ × Files W)} (fd : ℕ) (t : Files W)
      → r ≡ some (done fd, t)
      → fd < nentry
      → AllTaken s.fd_array 0 fd
      → is_none (s.fd_array fd).status ≡ true
      → (t.fd_array fd).status ≡ fd_opened
      → (t.fd_array fd).open_count ≡ 1
      → ((j : ℕ) → j ≢ fd → t.fd_array j ≡ s.fd_array j)
      → IsTable nentry t.files_count t.fd_array
      → Opens nentry s r
  refuses :
      {r : Option (Result ℕ × Files W)} (e : ℕ) (t : Files W)
      → r ≡ some (failed e, t)
      → ((j : ℕ) → (t.fd_array j).status ≡ (s.fd_array j).status)
      → IsTable nentry t.files_count t.fd_array
      → Opens nentry s r

abbrev pub Finds : ℕ → ℕ → (ℕ → File) → Option ℕ → Type 0
Finds n fd a none = AllTaken a fd (fd + n)
Finds n fd a (some i) = (fd ≤ i) × (i < fd + n) × AllTaken a fd i × (is_none (a i).status ≡ true)

pub first_none-Finds : (n fd : ℕ) (a : ℕ → File) → Finds n fd a (first_none n fd a)
unfolding first_none
first_none-Finds zero fd a = λ j lo hi. absurd (omega arith)
first_none-Finds (suc n) fd a = elim (Bool-cases (is_none (a fd).status)) [
  | inl free ↦
      rw (first_none, free) (omega arith, omega arith, λ j lo hi. absurd (omega arith), free)
  | inr taken ↦
      rw (first_none, taken) (later (first_none n (suc fd) a) taken (first_none-Finds n (suc fd) a))
]
  where
    more : (hi : ℕ) → is_none (a fd).status ≡ false → AllTaken a (suc fd) hi → AllTaken a fd hi
    more hi taken rest j lo up = elim (Bool-cases (j == fd)) [
      | inl here ↦ subst (λ k. is_none (a k).status ≡ false) (ground (arith, here)) taken
      | inr other ↦ rest j (ground (arith, other)) up
    ]

    later :
        (o : Option ℕ) → is_none (a fd).status ≡ false → Finds n (suc fd) a o → Finds (suc n) fd a o
    later none taken q = λ j lo hi. more (suc fd + n) taken q j lo (omega arith)
    later (some i) taken q = (omega (arith, q.0), omega (arith, q.1), more i taken q.2, q.3)

pub none_status : (x : Status) → is_none x ≡ true → x ≡ fd_none
none_status fd_none e = refl
none_status fd_init e = cc
none_status fd_opened e = cc
none_status fd_closed e = cc

pub Keeps-trans : {W : Type 0} (s t u : Files W) → Keeps s t → Keeps t u → Keeps s u
Keeps-trans s t u p q = (q.0 ∙ p.0, q.1 ∙ p.1)

pub checked : {A : Type 0} (n : ℕ) (a : A) → n ≡ 0 → (check (n == 0) >> some a) ≡ some a
checked n a e = subst (λ k. (check (k == 0) >> some a) ≡ some a) (sym e) refl

pub free_init :
    {W : Type 0} (vfs : Vfs W) (nentry i : ℕ) (u : Files W)
    → (u.fd_array i).status ≡ fd_init
    → (u.fd_array i).open_count ≡ 0
    → fd_array_free vfs nentry i u
      ≡ some (set_file i (record (u.fd_array i) { status = fd_none }) u)
unfolding fd_array_free
free_init vfs nentry i u st cnt = rw (st, cnt) refl

-- The entry as `finish_open` fills it, and the state that it leaves.
abbrev pub filled : Bool × Bool → ℕ → ℕ → File → File
filled mode node pos f = record f { pos = pos; node = node; readable = mode.0; writable = mode.1 }

abbrev pub finished : {W : Type 0} → ℕ → File → Files W → Files W
finished i f u =
    let v = set_file i f u in
    set_file i (fopen_count_inc (record (v.fd_array i) { status = fd_opened })) v

pub opens_init :
    {W : Type 0} (vfs : Vfs W) (nentry i : ℕ) (v : Files W)
    → (v.fd_array i).status ≡ fd_init
    → (v.fd_array i).node ≢ 0
    → fd_array_open vfs nentry i v
      ≡ some (set_file i (fopen_count_inc (record (v.fd_array i) { status = fd_opened })) v)
unfolding fd_array_open
opens_init vfs nentry i v st ne = rw (st, ==_ne (v.fd_array i).node 0 ne) refl
