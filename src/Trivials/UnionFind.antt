-- ===== src/Trivials/UnionFind.antt =====
-- trivials/union_find_trivial.cpp: the union-find structure. `vecFat` is a list; `none` is an access
-- outside it, or a `find` that goes on for longer than its fuel.
pub mod Roots
mod Tests
use cpp_linux_learn.Common.{
  ℕ, zero, suc, Option, none, some, List, get_elem?, set, ◌==◌, if◌then◌else◌,
}

unfoldable pub find : ℕ → List ℕ → ℕ → Option (ℕ × List ℕ)
find zero vec_fat u = none
find (suc fuel) vec_fat u = elim (get_elem? vec_fat u) [
  | none ↦ none
  | some p ↦
      let rest = find fuel vec_fat p in
      if p == u
      then some (p, vec_fat)
      else elim rest [ none ↦ none | some (r, vec_fat') ↦ some (r, set vec_fat' u r) ]
]

-- `vecFat[find(v)] = find(u)`, with the right side first, as C++17 has it.
unfoldable pub union_val : ℕ → ℕ → ℕ → List ℕ → Option (List ℕ)
union_val fuel u v vec_fat = elim (find fuel vec_fat u) [
  | none ↦ none
  | some (ru, vec_fat1) ↦ elim (find fuel vec_fat1 v) [
    | none ↦ none
    | some (rv, vec_fat2) ↦ some (set vec_fat2 rv ru)
  ]
]
