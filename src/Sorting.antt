-- ===== src/Sorting.antt =====
-- test/quickSort.cpp and test/topk.cpp: quickSort, which is generic in the elements, and topkhelper
-- and topK, which repeat its partition. A vector is a list, and an access outside it is `none`. The
-- order `<=` of the elements is the parameter `le`. A position is an int of the source; the bound
-- `right`, which is -1 for an empty vector, is kept as `stop`, which is `right + 1`. The loops with
-- no bound of their own run on fuel; that the given fuel is enough is part of what is proved.
pub mod Places
pub mod Scan
pub mod Partition
pub mod Quick
pub mod Copies
pub mod Select
pub mod Reference
mod Tests
use cpp_linux_learn.Common.{
  ℕ, zero, suc, ◌+◌, ◌-◌, ◌>>=◌, Bool, true, false, Option, none, some, List, [], ◌∷◌, ltb, ◌==◌,
  if◌then◌else◌, length, get_elem?, set, take,
}

-- `swap(nums[i], nums[j])`.
unfoldable pub swap {ℓ} : {A : Type ℓ} → List A → ℕ → ℕ → Option (List A)
swap xs i j = do x ← get_elem? xs i; y ← get_elem? xs j; some (set (set xs i y) j x)

-- `ans.push_back(input[i])` for each `i` below `n`, after the first `i` of them.
unfoldable pub copy_from {ℓ} : {A : Type ℓ} → List A → ℕ → ℕ → Option (List A)
copy_from xs i zero = some []
copy_from xs i (suc n) = do x ← get_elem? xs i; rest ← copy_from xs (suc i) n; some (x ∷ rest)

module _ {ℓ} {A : Type ℓ} (le : A → A → Bool) where
  -- `while (i < j && p <= nums[j]) j--`: the position at which it ends.
  unfoldable pub move_down : List A → A → ℕ → ℕ → Option ℕ
  move_down xs p i zero = some zero
  move_down xs p i (suc j) = elim (ltb i (suc j)) [
    | true ↦ do x ← get_elem? xs (suc j); if le p x then move_down xs p i j else some (suc j)
    | false ↦ some (suc j)
  ]

  -- `while (i < j && nums[i] <= p) i++`, with `j - i` as the last argument.
  unfoldable pub move_up : List A → A → ℕ → ℕ → Option ℕ
  move_up xs p i zero = some i
  move_up xs p i (suc d) = do x ← get_elem? xs i; if le x p then move_up xs p (suc i) d else some i

  -- The loop `while (i < j)`: the vector and the last `i`.
  unfoldable pub partition : ℕ → List A → A → ℕ → ℕ → Option (List A × ℕ)
  partition zero xs p i j = none
  partition (suc fuel) xs p i j = elim (ltb i j) [
    | true ↦ do
      j' ← move_down xs p i j
      i' ← move_up xs p i (j' - i)
      ys ← swap xs i' j'
      partition fuel ys p i' j'
    | false ↦ some (xs, i)
  ]

  -- What both functions do before their recursive calls, where `left < right`.
  unfoldable pub split_at_pivot : List A → ℕ → ℕ → Option (List A × ℕ)
  split_at_pivot xs left stop = do
    p ← get_elem? xs left
    (ys, i) ← partition (stop - left) xs p left (stop - 1)
    zs ← swap ys left i
    some (zs, i)

  unfoldable pub quick_sort : ℕ → List A → ℕ → ℕ → Option (List A)
  quick_sort zero xs left stop = none
  quick_sort (suc fuel) xs left stop = elim (ltb (left + 1) stop) [
    | true ↦ do
      (ys, i) ← split_at_pivot xs left stop
      zs ← quick_sort fuel ys left i
      quick_sort fuel zs (i + 1) stop
    | false ↦ some xs
  ]

  -- The call of `main`: `quickSort(nums, 0, nums.size() - 1)`.
  unfoldable pub sort_all : List A → Option (List A)
  sort_all xs = quick_sort (length xs + 1) xs 0 (length xs)

  -- The argument `k` of the source, which is -1 in the call for no elements, is `count - 1`.
  unfoldable pub topkhelper : ℕ → List A → ℕ → ℕ → ℕ → Option (List A)
  topkhelper zero xs count left stop = none
  topkhelper (suc fuel) xs count left stop = elim (ltb (left + 1) stop) [
    | true ↦ do
      (ys, i) ← split_at_pivot xs left stop
      elim (ltb (i + 1) count) [
        | true ↦ topkhelper fuel ys count (i + 1) stop
        | false ↦ elim (ltb count (i + 1)) [
          | true ↦ topkhelper fuel ys count left i
          | false ↦ some ys
        ]
      ]
    | false ↦ some xs
  ]

  -- The answer and the vector afterwards.
  unfoldable pub top_k : List A → ℕ → Option (List A × List A)
  top_k xs k = do
    ys ← topkhelper (length xs + 1) xs k 0 (length xs)
    ans ← copy_from ys 0 k
    some (ans, ys)
