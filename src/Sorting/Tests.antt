-- ===== src/Sorting/Tests.antt =====
-- The vectors that the two programs sort.
use cpp_linux_learn.Common.{ℕ, ◌≡◌, refl, true, some, List, [], ◌∷◌, leb, arith}
use cpp_linux_learn.Sorting.{
  sort_all, quick_sort, top_k, topkhelper, split_at_pivot, partition, move_down, move_up, swap,
  copy_from,
}
use cpp_linux_learn.Sorting.Scan.{IsOrder}
use cpp_linux_learn.Sorting.Select.{Answer, top_k_lem}
use cpp_linux_learn.Sorting.Reference.{insertion_sort, sort_all-eq-insertion_sort}

leb-IsOrder : IsOrder leb
leb-IsOrder = record { total = λ a b h. ground arith; trans = λ a b c h k. ground arith }

leb_antisymm : (a b : ℕ) → leb a b ≡ true → leb b a ≡ true → a ≡ b
leb_antisymm a b h k = ground arith

abbrev nums : List ℕ
nums = 3 ∷ 0 ∷ 1 ∷ []

abbrev input : List ℕ
input = 3 ∷ 0 ∷ 1 ∷ 5 ∷ 4 ∷ 7 ∷ 2 ∷ 9 ∷ []

sorted_nums : sort_all leb nums ≡ some (0 ∷ 1 ∷ 3 ∷ [])
unfolding sort_all quick_sort split_at_pivot partition move_down move_up swap
sorted_nums = refl

top_five : top_k leb input 5 ≡ some (2 ∷ 0 ∷ 1 ∷ 3 ∷ 4 ∷ [], 2 ∷ 0 ∷ 1 ∷ 3 ∷ 4 ∷ 7 ∷ 5 ∷ 9 ∷ [])
unfolding top_k topkhelper split_at_pivot partition move_down move_up swap copy_from
top_five = refl

sort_all-eq-insertion_sort_example : sort_all leb nums ≡ some (insertion_sort leb nums)
sort_all-eq-insertion_sort_example = sort_all-eq-insertion_sort leb leb-IsOrder leb_antisymm nums

top_k_lem_example :
    (ans : List ℕ) × (rest : List ℕ) × (ys : List ℕ) × Answer leb input 5 ans rest ys
top_k_lem_example = top_k_lem leb leb-IsOrder input 5 (omega arith)
