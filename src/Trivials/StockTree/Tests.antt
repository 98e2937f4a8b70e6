-- ===== src/Trivials/StockTree/Tests.antt =====
-- Runs of the prefix tree.
use cpp_linux_learn.Common.{ℕ, ◌≡◌, true, some, List, [], ◌∷◌, if◌then◌else◌, arith}
use cpp_linux_learn.Trivials.StockTree.{Node, new_node, insert, find}
use cpp_linux_learn.Trivials.StockTree.Find.{same_code, find-insert}

-- "10" and "12".
abbrev code_10 : List ℕ
code_10 = 49 ∷ 48 ∷ []

abbrev code_12 : List ℕ
code_12 = 49 ∷ 50 ∷ []

find-insert_example :
    (t : Node) × (insert new_node code_10 ≡ some t)
    × (find t code_12 ≡ (if same_code code_10 code_12 then some true else find new_node code_12))
find-insert_example =
    find-insert new_node code_10 code_12 (omega arith)
      (omega arith, omega arith, (omega arith, omega arith, tt))
      (omega arith, omega arith, (omega arith, omega arith, tt))
