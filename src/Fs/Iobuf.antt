-- ===== src/Fs/Iobuf.antt =====
-- lab8/kern/fs/iobuf.c: the record of a transfer in progress. Its numbers are 64-bit words.
use os.Base.{
  ℕ, ◌+◌, ◌-◌, ◌%◌, ◌^◌, Bool, Option, some, ◌==◌, ltb, leb, if◌then◌else◌, ◌>>=◌, ◌>>◌, check,
}
use os.Strings.{memmove, memset}

pub record Iobuf : Type 0 where
  pub io_base : ℕ
  pub io_offset : ℕ
  pub io_len : ℕ
  pub io_resid : ℕ

-- The result codes: 0, or -E_NO_MEM.
pub data Moved : Type 0 where
  all_moved no_mem : Moved

abbrev pub word : ℕ → ℕ
word n = n % 2 ^ 64

unfoldable pub iobuf_init : ℕ → ℕ → ℕ → Iobuf
iobuf_init base len offset = record {
  io_base = base;
  io_offset = offset;
  io_len = len;
  io_resid = len;
}

abbrev pub iobuf_used : Iobuf → ℕ
iobuf_used iob = word (iob.io_len + 2 ^ 64 - iob.io_resid)

unfoldable pub iobuf_skip : Iobuf → ℕ → Option Iobuf
iobuf_skip iob n = do
  check (leb n iob.io_resid)
  some (record iob {
    io_base = word (iob.io_base + n);
    io_offset = word (iob.io_offset + n);
    io_resid = iob.io_resid - n;
  })

-- As much of `len` bytes as the buffer still takes.
abbrev pub portion : Iobuf → ℕ → ℕ
portion iob len = if ltb len iob.io_resid then len else iob.io_resid

abbrev pub outcome : ℕ → ℕ → Moved
outcome alen len = if len - alen == 0 then all_moved else no_mem

-- `m2b` tells whether the bytes go to the buffer. The results: the code, the number of bytes moved,
-- the record and the memory.
unfoldable pub iobuf_move : Iobuf → ℕ → ℕ → Bool → (ℕ → ℕ) → Option (Moved × ℕ × Iobuf × (ℕ → ℕ))
iobuf_move iob dat len m2b m =
    let alen = portion iob len in
    let m' = if m2b then memmove iob.io_base dat alen m else memmove dat iob.io_base alen m in
    let moved = iobuf_skip iob alen >>= λ iob'. some (outcome alen len, alen, iob', m') in
    if ltb 0 alen then moved else some (outcome alen len, alen, iob, m)

unfoldable pub iobuf_move_zeros : Iobuf → ℕ → (ℕ → ℕ) → Option (Moved × ℕ × Iobuf × (ℕ → ℕ))
iobuf_move_zeros iob len m =
    let alen = portion iob len in
    let m' = memset iob.io_base 0 alen m in
    let moved = iobuf_skip iob alen >>= λ iob'. some (outcome alen len, alen, iob', m') in
    if ltb 0 alen then moved else some (outcome alen len, alen, iob, m)
