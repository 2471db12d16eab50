-- ===== src/Mm/FreeArea.antt =====
-- What the page allocators share: `struct Page` and its flag macros (lab8/kern/mm/memlayout.h) and
-- the `free_area_t` of default_pmm.c and best_fit_pmm.c.
-- The page at index `i` of `pages` has its `page_link` at the address `i + 1`; `free_list` is 0.
pub mod Blocks
pub mod Middle
pub mod Join
pub mod Wipe
pub mod Insert
use os.Base.{
  ℕ, zero, suc, ◌+◌, ◌-◌, ◌%◌, ◌^◌, Bool, true, false, not, ◌&&◌, Option, none, some, ◌==◌,
  if◌then◌else◌, ◌>>=◌, ◌>>◌, check, pred,
}
use os.Links.{Links, list_init}

pub record Page : Type 0 where
  pub ref : ℕ
  pub reserved : Bool
  pub is_head : Bool
  pub property : ℕ

pub record FreeArea : Type 0 where
  pub links : Links
  pub pages : ℕ → Page
  pub nr_free : ℕ
  pub npage : ℕ

-- `unsigned int` arithmetic.
abbrev pub word : ℕ → ℕ
word n = n % 2 ^ 32

abbrev pub free_list : ℕ
free_list = 0

abbrev pub page_link : ℕ → ℕ
page_link p = suc p

abbrev pub le2page : ℕ → ℕ
le2page le = pred le

abbrev pub set_page : (ℕ → Page) → ℕ → Page → ℕ → Page
set_page f p v q = if p == q then v else f q

abbrev pub with_property : ℕ → ℕ → FreeArea → FreeArea
with_property p v s = record s { pages = set_page s.pages p (record (s.pages p) { property = v }) }

-- `SetPageProperty` and `ClearPageProperty`.
abbrev pub set_page_property : ℕ → FreeArea → FreeArea
set_page_property p s = record s {
  pages = set_page s.pages p (record (s.pages p) { is_head = true });
}

abbrev pub clear_page_property : ℕ → FreeArea → FreeArea
clear_page_property p s = record s {
  pages = set_page s.pages p (record (s.pages p) { is_head = false });
}

abbrev pub add_free : ℕ → FreeArea → FreeArea
add_free n s = record s { nr_free = word (s.nr_free + n) }

abbrev pub sub_free : ℕ → FreeArea → FreeArea
sub_free n s = record s { nr_free = word (s.nr_free + 2 ^ 32 - word n) }

unfoldable pub init : FreeArea → FreeArea
unfolding list_init
init s = record s { links = list_init free_list s.links; nr_free = 0 }

unfoldable pub nr_free_pages : FreeArea → ℕ
nr_free_pages s = s.nr_free

-- The loop of `init_memmap` over `n` pages from `p`: each must be reserved, and is reset.
unfoldable pub reset_reserved : ℕ → ℕ → FreeArea → Option FreeArea
reset_reserved zero p s = some s
reset_reserved (suc n) p s = do
  check (s.pages p).reserved
  reset_reserved n (suc p) (record s {
    pages =
        set_page s.pages p (record { ref = 0; reserved = false; is_head = false; property = 0 });
  })

-- The loop of `free_pages`: no page may be reserved or head a free block; flags and count are reset.
unfoldable pub reset_used : ℕ → ℕ → FreeArea → Option FreeArea
reset_used zero p s = some s
reset_used (suc n) p s = do
  check (not (s.pages p).reserved && not (s.pages p).is_head)
  reset_used n (suc p) (record s {
    pages = set_page s.pages p (record (s.pages p) { ref = 0; reserved = false; is_head = false });
  })
