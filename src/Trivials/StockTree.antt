-- ===== src/Trivials/StockTree.antt =====
-- trivials/stock_tree_trivial.cpp: a prefix tree of stock codes, strings of the digits '0' to '9'.
-- A code is the list of its characters without the closing 0. Of the ten pointers of a node the
-- last ones are left out where they are null. `none` is an access outside of them.
pub mod Find
mod Tests
use cpp_linux_learn.Common.{
  ℕ, zero, suc, ◌-◌, Bool, true, false, ◌&&◌, Option, none, some, List, [], ◌∷◌, length, leb, ◌==◌,
  if◌then◌else◌,
}

-- `StockPrefixNode`: `realVal` and `children`.
mutual
  pub data Node : Type 0 where
    node : Option (List ℕ) → Children → Node

  pub data Children : Type 0 where
    nulls : Children
    null : Children → Children
    child : Node → Children → Children

unfoldable pub new_node : Node
new_node = node none nulls

-- `children[k]`, and a write to it.
unfoldable pub get_child : Children → ℕ → Option Node
get_child nulls k = none
get_child (null cs) zero = none
get_child (null cs) (suc k) = get_child cs k
get_child (child n cs) zero = some n
get_child (child n cs) (suc k) = get_child cs k

unfoldable pub set_child : Children → ℕ → Node → Children
set_child nulls zero m = child m nulls
set_child nulls (suc k) m = null (set_child nulls k m)
set_child (null cs) zero m = child m cs
set_child (null cs) (suc k) m = null (set_child cs k m)
set_child (child n cs) zero m = child m cs
set_child (child n cs) (suc k) m = child n (set_child cs k m)

-- `*p - '0'`, as an index of `children`.
unfoldable pub child_index : ℕ → Option ℕ
child_index c = if leb 48 c && leb c 57 then some (c - 48) else none

-- `find` from a node on: whether the walk ends with the code, at a node with a value.
unfoldable pub find : Node → List ℕ → Option Bool
find (node none cs) [] = some false
find (node (some v) cs) [] = some true
find (node v cs) (c ∷ code) = elim (child_index c) [
  | none ↦ none
  | some k ↦ elim (get_child cs k) [ none ↦ some false | some m ↦ find m code ]
]

abbrev pub child_or_new : Option Node → Node
child_or_new none = new_node
child_or_new (some m) = m

-- `insert` from a node on, with the whole code to copy at the end.
unfoldable pub insert_from : List ℕ → Node → List ℕ → Option Node
insert_from whole (node v cs) [] =
    if length whole == 0 then some (node v cs) else some (node (some whole) cs)
insert_from whole (node v cs) (c ∷ code) = elim (child_index c) [
  | none ↦ none
  | some k ↦ elim (insert_from whole (child_or_new (get_child cs k)) code) [
    | none ↦ none
    | some m ↦ some (node v (set_child cs k m))
  ]
]

unfoldable pub insert : Node → List ℕ → Option Node
insert t code = insert_from code t code
