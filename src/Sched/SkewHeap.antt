-- ===== src/Sched/SkewHeap.antt =====
-- lab8/libs/skew_heap.h: the priority queue of the stride scheduler.
-- An entry is the number of the structure that it is embedded in. The pointers `left` and `right`
-- are the subtrees of a node; `parent` is the node's place in the tree and is not kept apart.
-- Pointers has the operations as the source has them, on the three pointers of each entry; the entries
-- of a heap make such a tree.
pub mod Content
pub mod Order
pub mod Pointers
pub mod Merging
pub mod Places
pub mod Relinked
pub mod Removing
use os.Base.{ℕ, Bool, true, false, ◌==◌, if◌then◌else◌}

pub data SkewHeap : Type 0 where
  null : SkewHeap
  node : ℕ → SkewHeap → SkewHeap → SkewHeap

-- The result of a `compare_f`: -1, 0 or 1.
pub data Sign : Type 0 where
  minus_one zero one : Sign

abbrev pub is_minus_one : Sign → Bool
is_minus_one minus_one = true
is_minus_one zero = false
is_minus_one one = false

module _ (comp : ℕ → ℕ → Sign) where
  unfoldable pub merge : SkewHeap → SkewHeap → SkewHeap
  merge null b = b
  merge (node a al ar) null = node a al ar
  merge (node a al ar) (node b bl br) = elim (is_minus_one (comp a b)) [
    | true ↦ node a (merge ar (node b bl br)) al
    | false ↦ node b (merge (node a al ar) br) bl
  ]

  unfoldable pub insert : SkewHeap → ℕ → SkewHeap
  insert a b = merge a (node b null null)

  -- The node of the entry `b`, wherever it stands, gives way to the merge of its subtrees.
  unfoldable pub remove : SkewHeap → ℕ → SkewHeap
  remove null b = null
  remove (node a l r) b =
      let merged = merge l r in
      let kept = node a (remove l b) (remove r b) in if a == b then merged else kept
