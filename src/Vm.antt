-- ===== src/Vm.antt =====
-- lab8/kern/mm/vmm.c: the areas of a user address space. An area is its three fields; the list of
-- areas is the list of these, in the order of the links. Addresses are 64-bit words.
pub mod Areas
pub mod Insert
pub mod Map
pub mod Access
use Prim.Native.Nat.{bit_and}
use os.Base.{
  ℕ, zero, suc, ◌+◌, ◌-◌, ◌%◌, ◌^◌, Bool, true, false, not, ◌&&◌, Option, none, some, List, [], ◌∷◌,
  ◌==◌, ltb, leb, if◌then◌else◌, ◌>>=◌, ◌>>◌, check,
}
use os.Strings.{memcpy}

pub record Vma : Type 0 where
  pub start : ℕ
  pub end : ℕ
  pub flags : ℕ

pub record Mm : Type 0 where
  pub mmap : List Vma
  pub cache : Option Vma
  pub map_count : ℕ

-- The results of `mm_map`: 0 or a negated error code.
pub data Status : Type 0 where
  ok e_inval e_no_mem : Status

abbrev pub word : ℕ → ℕ
word n = n % 2 ^ 64

abbrev pub page_size : ℕ
page_size = 4096

abbrev pub round_down : ℕ → ℕ
round_down a = a - a % page_size

abbrev pub round_up : ℕ → ℕ
round_up a = round_down (word (a + page_size - 1))

abbrev pub user_access : ℕ → ℕ → Bool
user_access start end = leb 0x0020_0000 start && ltb start end && leb end 0x8000_0000

abbrev pub kern_access : ℕ → ℕ → Bool
kern_access start end =
    leb 0xFFFF_FFFF_C020_0000 start && ltb start end && leb end 0xFFFF_FFFF_C800_0000

abbrev pub mm_create : Mm
mm_create = record { mmap = []; cache = none; map_count = 0 }

abbrev pub inside : ℕ → Vma → Bool
inside addr v = leb v.start addr && ltb addr v.end

unfoldable pub search_vma : ℕ → List Vma → Option Vma
search_vma addr [] = none
search_vma addr (v ∷ vs) = if inside addr v then some v else search_vma addr vs

-- The area that was found last is tried first.
unfoldable pub find_vma : ℕ → Mm → Option Vma × Mm
find_vma addr mm =
    let found = search_vma addr mm.mmap in
    let vma : Option Vma = elim mm.cache [
      | none ↦ found
      | some v ↦ if inside addr v then some v else found
    ] in
    (vma, record mm { cache = elim vma [ none ↦ mm.cache | some v ↦ some v ] })

-- The three assertions.
unfoldable pub check_vma_overlap : Vma → Vma → Option (Unit {0})
check_vma_overlap prev next = do
  check (ltb prev.start prev.end)
  check (leb prev.end next.start)
  check (ltb next.start next.end)

-- The check against the area before, if there is one.
abbrev pub check_prev : Option Vma → Vma → Option (Unit {0})
check_prev none v = some tt
check_prev (some prev) v = check_vma_overlap prev v

-- The loop of `insert_vma_struct` from the areas behind `prev`, and what follows it.
unfoldable pub insert_behind : Vma → Option Vma → List Vma → Option (List Vma)
insert_behind v prev [] = check_prev prev v >> some (v ∷ [])
insert_behind v prev (next ∷ rest) =
    let here = check_prev prev v >> check_vma_overlap v next >> some (v ∷ next ∷ rest) in
    let further = insert_behind v (some next) rest >>= λ vs. some (next ∷ vs) in
    if ltb v.start next.start then here else further

unfoldable pub insert_vma_struct : Vma → Mm → Option Mm
insert_vma_struct v mm = do
  check (ltb v.start v.end)
  vs ← insert_behind v none mm.mmap
  some (record mm { mmap = vs; map_count = mm.map_count + 1 })

-- `fits` says whether `kmalloc` has memory for the new area.
unfoldable pub mm_map : Bool → ℕ → ℕ → ℕ → Mm → Option (Status × Mm)
mm_map fits addr len flags mm =
    let start = round_down addr in
    let end = round_up (word (addr + len)) in
    let found = find_vma start mm in
    let taken : Bool = elim found.0 [ none ↦ false | some v ↦ ltb v.start end ] in
    let added =
      insert_vma_struct (record { start = start; end = end; flags = flags }) found.1 >>= λ mm'.
      some (ok, mm') in
    if not (user_access start end)
    then some (e_inval, mm)
    else if taken
    then some (e_inval, found.1)
    else if fits
    then added
    else some (e_no_mem, found.1)

abbrev pub has : ℕ → ℕ → Bool
has flag flags = not (bit_and flags flag == 0)

-- The tests of `user_mem_check` on the area that holds `start`.
abbrev pub permits : Bool → ℕ → Vma → Bool
permits write start v =
    not (ltb start v.start)
    && has (if write then 2 else 1) v.flags
    && not (write && has 8 v.flags && ltb start (word (v.start + page_size)))

unfoldable pub check_areas : ℕ → Bool → ℕ → ℕ → Mm → Option (Bool × Mm)
check_areas zero write start end mm = none
check_areas (suc fuel) write start end mm = elim (ltb start end) [
  | false ↦ some (true, mm)
  | true ↦ elim (find_vma start mm).0 [
    | none ↦ some (false, (find_vma start mm).1)
    | some v ↦ elim (permits write start v) [
      | false ↦ some (false, (find_vma start mm).1)
      | true ↦ check_areas fuel write v.end end (find_vma start mm).1
    ]
  ]
]

-- The end of the range is taken modulo 2^64, both in the test and in the loop.
unfoldable pub user_mem_check : Option Mm → ℕ → ℕ → Bool → Option (Bool × Option Mm)
user_mem_check none addr len write = some (kern_access addr (word (addr + len)), none)
user_mem_check (some mm) addr len write =
    let end = word (addr + len) in
    let walk = check_areas (suc (end - addr)) write addr end mm in
    if not (user_access addr end) then some (false, some mm) else walk >>= λ r. some (r.0, some r.1)

unfoldable pub copy_from_user :
    Option Mm → ℕ → ℕ → ℕ → Bool → (ℕ → ℕ) → Option (Bool × Option Mm × (ℕ → ℕ))
copy_from_user mm dst src len writable m = do
  checked ← user_mem_check mm src len writable
  some (if not checked.0 then (false, checked.1, m) else (true, checked.1, memcpy dst src len m))

unfoldable pub copy_to_user : Option Mm → ℕ → ℕ → ℕ → (ℕ → ℕ) → Option (Bool × Option Mm × (ℕ → ℕ))
copy_to_user mm dst src len m = do
  checked ← user_mem_check mm dst len true
  some (if not checked.0 then (false, checked.1, m) else (true, checked.1, memcpy dst src len m))
