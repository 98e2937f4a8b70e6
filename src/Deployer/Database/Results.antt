-- ===== src/Deployer/Database/Results.antt =====
-- StragetyDeployer/SQLiteDatabase.cpp: the statements and result sets, and the loop over a result set in
-- the queries of dboperatefunc.cpp. A prepared statement is given by what `sqlite3_step` returns, call
-- by call, and by the row that it stands on; the column functions read that row. A statement that was
-- moved from or did not compile is `none`.
use cpp_linux_learn.Common.{
  ℕ, ◌≡◌, refl, sym, ap, ◌∙◌, Bool, true, false, Option, none, some, List, [], ◌∷◌, ◌++◌,
  if◌then◌else◌,
}

-- What `sqlite3_step` returns: SQLITE_ROW with the row, SQLITE_DONE, SQLITE_OK, or another code.
pub data StepCode (Row : Type 0) : Type 0 where
  row : Row → StepCode Row
  done ok : StepCode Row
  other : ℕ → StepCode Row

module _ {Row : Type 0} where
  -- `execute` and, with the rows that `sqlite3_changes` counts, `executeInsert` and
  -- `executeUpdateDelete`. The last two step a statement that did not compile all the same: SQLite
  -- answers that with SQLITE_MISUSE, which is 21.
  unfoldable pub is_complete : StepCode Row → Bool
  is_complete (row r) = false
  is_complete done = true
  is_complete ok = true
  is_complete (other e) = false

  unfoldable pub execute : Option (StepCode Row) → Bool
  execute none = false
  execute (some c) = is_complete c

  unfoldable pub execute_changes : Option (StepCode Row) → ℕ → Option ℕ
  execute_changes none changes = none
  execute_changes (some c) changes = if is_complete c then some changes else none

  -- The loop `while (resultSet.next())` over a statement: the rows that the body sees.
  unfoldable pub next_rows : List (StepCode Row) → List Row
  next_rows [] = []
  next_rows (row r ∷ rest) = r ∷ next_rows rest
  next_rows (done ∷ rest) = []
  next_rows (ok ∷ rest) = []
  next_rows (other e ∷ rest) = []

  unfoldable pub query_rows : Option (List (StepCode Row)) → List Row
  query_rows none = []
  query_rows (some codes) = next_rows codes

  abbrev pub all_rows : List Row → List (StepCode Row)
  all_rows [] = []
  all_rows (r ∷ rs) = row r ∷ all_rows rs

  abbrev IsEnd : StepCode Row → Type 0
  IsEnd (row r) = ⊥
  IsEnd done = Unit
  IsEnd ok = Unit
  IsEnd (other e) = Unit

  -- The loop sees the rows up to the first code that is no row, whatever that is: a result that an error
  -- cuts short is one with fewer rows.
  pub query_rows_lem :
      (rs : List Row) (end : StepCode Row) (rest : List (StepCode Row))
      → IsEnd end
      → query_rows (some (all_rows rs ++ (end ∷ rest))) ≡ rs
  unfolding query_rows next_rows
  query_rows_lem [] (row r) rest e = absurd e
  query_rows_lem [] done rest e = refl
  query_rows_lem [] ok rest e = refl
  query_rows_lem [] (other c) rest e = refl
  query_rows_lem (r ∷ rs) end rest e = ap (◌∷◌ r) (query_rows_lem rs end rest e)

  -- So a query that breaks off reads as one that ends, and as one on a statement that did not compile
  -- when it breaks off at once.
  pub query_rows-broken :
      (rs : List Row) (e : ℕ) (rest rest' : List (StepCode Row))
      → query_rows (some (all_rows rs ++ (other e ∷ rest)))
        ≡ query_rows (some (all_rows rs ++ (done ∷ rest')))
  query_rows-broken rs e rest rest' =
      query_rows_lem rs (other e) rest tt ∙ sym (query_rows_lem rs done rest' tt)
