-- ===== src/Links.antt =====
-- lab8/libs/list.h: circular doubly linked lists threaded through other structures.
-- An entry is an address; the two pointers of every entry are two functions.
pub mod Chain
pub mod Ring
use os.Base.{ℕ, ◌==◌, if◌then◌else◌, Bool}

-- The `next` and `prev` pointers of all entries.
pub record Links : Type 0 where
  pub next : ℕ → ℕ
  pub prev : ℕ → ℕ

-- A store of `v` at the address `p`.
abbrev pub store : (ℕ → ℕ) → ℕ → ℕ → ℕ → ℕ
store f p v q = if p == q then v else f q

unfoldable pub list_init : ℕ → Links → Links
list_init elm l = record l { next = store l.next elm elm; prev = store l.prev elm elm }

-- `__list_add(elm, prev, next)`: four stores.
unfoldable pub add_between : ℕ → ℕ → ℕ → Links → Links
add_between elm p n l = record l {
  next = store (store l.next p elm) elm n;
  prev = store (store l.prev n elm) elm p;
}

-- `__list_del(prev, next)`: two stores.
unfoldable pub del_between : ℕ → ℕ → Links → Links
del_between p n l = record l { next = store l.next p n; prev = store l.prev n p }

unfoldable pub list_add_after : ℕ → ℕ → Links → Links
list_add_after listelm elm l = add_between elm listelm (l.next listelm) l

unfoldable pub list_add_before : ℕ → ℕ → Links → Links
list_add_before listelm elm l = add_between elm (l.prev listelm) listelm l

unfoldable pub list_add : ℕ → ℕ → Links → Links
list_add listelm elm l = list_add_after listelm elm l

unfoldable pub list_del : ℕ → Links → Links
list_del listelm l = del_between (l.prev listelm) (l.next listelm) l

unfoldable pub list_del_init : ℕ → Links → Links
list_del_init listelm l = list_init listelm (list_del listelm l)

unfoldable pub list_empty : ℕ → Links → Bool
list_empty list l = l.next list == list

abbrev pub list_next : ℕ → Links → ℕ
list_next listelm l = l.next listelm

abbrev pub list_prev : ℕ → Links → ℕ
list_prev listelm l = l.prev listelm
