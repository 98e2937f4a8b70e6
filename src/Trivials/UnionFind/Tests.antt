-- ===== src/Trivials/UnionFind/Tests.antt =====
-- Runs of the union-find structure.
use cpp_linux_learn.Common.{ℕ, ◌≡◌, refl, some, List, [], ◌∷◌, ◌==◌, arith, if◌then◌else◌}
use cpp_linux_learn.Trivials.UnionFind.{union_val}
use cpp_linux_learn.Trivials.UnionFind.Roots.{Root, here, up, HasRoot, union_val-HasRoot}

-- 2 is below 1, which is below 0; 3 is alone.
abbrev chain : List ℕ
chain = 0 ∷ 0 ∷ 1 ∷ 3 ∷ []

chain_2-Root : Root chain 2 0 2
chain_2-Root = up refl refl (up refl refl (here refl))

chain_3-Root : Root chain 3 3 0
chain_3-Root = here refl

union_val-HasRoot_example :
    (fat : List ℕ) × (union_val 3 3 2 chain ≡ some fat) × HasRoot fat 2 (if 0 == 0 then 3 else 0)
union_val-HasRoot_example =
    union_val-HasRoot 3 3 2 chain 3 0 0 2 2 0 2 chain_3-Root chain_2-Root (omega arith)
      (omega arith) chain_2-Root
