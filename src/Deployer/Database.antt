-- ===== src/Deployer/Database.antt =====
-- StragetyDeployer/dbopmacros.h: the loops that run a prepared statement for each object. SQLite is a
-- parameter, the record of its calls on a connection: whether a text compiles, a step with an object's
-- values bound (the changed rows, or an error), the message of the last error, and the three commands of
-- `SQLiteDatabase.cpp`, lines 213 to 226. Opening and closing the connection are not modelled.
pub mod Documented
pub mod Atomic
pub mod Results
pub mod Rows
pub mod Objects
pub mod Tests
use cpp_linux_learn.Common.{ℕ, Bool, true, false, Option, none, some, List, [], ◌∷◌, if◌then◌else◌}

pub record Sqlite (Db Row : Type 0) : Type 0 where
  pub prepare : List ℕ → Db → Bool
  pub step : List ℕ → Row → Db → Db × Option ℕ
  pub errmsg : Db → List ℕ
  pub begin_transaction : Db → Db
  pub commit_transaction : Db → Db
  pub rollback_transaction : Db → Db

-- A connection and `StaticDefines::sqlite_error_msg`.
pub record Store (Db : Type 0) : Type 0 where
  pub db : Db
  pub error_msg : List ℕ

module _ {Db Row : Type 0} (lib : Sqlite Db Row) where
  -- The loop over `objVec`: the result is that of the last step, or negative at the first error.
  abbrev pub after_step :
      (ℕ → Store Db → Store Db × Option ℕ) → Store Db → Db × Option ℕ → Store Db × Option ℕ
  after_step loop st (d, none) = (record { db = d; error_msg = lib.errmsg d }, none)
  after_step loop st (d, some n) = loop n (record st { db = d })

  unfoldable pub step_rows : List ℕ → List Row → ℕ → Store Db → Store Db × Option ℕ
  step_rows sql [] res st = (st, some res)
  step_rows sql (r ∷ rs) res st = after_step (λ n t. step_rows sql rs n t) st (lib.step sql r st.db)

  abbrev pub ended : Store Db × Option ℕ → Store Db × Option ℕ
  ended (st, none) = (record st { db = lib.rollback_transaction st.db }, none)
  ended (st, some n) = (record st { db = lib.commit_transaction st.db }, some n)

  abbrev pub not_compiled : Store Db → Store Db × Option ℕ
  not_compiled st = (record st { error_msg = lib.errmsg st.db }, none)

  -- `InsertByVector`, and `UpdateByVector`, which differs in what it prints.
  unfoldable pub insert_by_vector : List ℕ → List Row → Store Db → Store Db × Option ℕ
  insert_by_vector sql [] st = (st, some 0)
  insert_by_vector sql (r ∷ rs) st =
      if lib.prepare sql st.db then ended (step_rows sql (r ∷ rs) 0 st) else not_compiled st

  unfoldable pub update_by_vector : List ℕ → List Row → Store Db → Store Db × Option ℕ
  update_by_vector = insert_by_vector

  -- `DeleteByVector`.
  unfoldable pub delete_by_vector : List ℕ → List Row → Store Db → Store Db × Option ℕ
  delete_by_vector sql [] st = (st, some 0)
  delete_by_vector sql (r ∷ rs) st =
      if lib.prepare sql st.db
      then ended (step_rows sql (r ∷ rs) 0 (record st { db = lib.begin_transaction st.db }))
      else not_compiled st

  -- `delBySql`, on a text that is not empty.
  abbrev pub with_error : Store Db → Db × Option ℕ → Store Db × Option ℕ
  with_error st (d, none) = (record { db = d; error_msg = lib.errmsg d }, none)
  with_error st (d, some n) = (record st { db = d }, some n)

  unfoldable pub delete_by_text : Row → List ℕ → Store Db → Store Db × Option ℕ
  delete_by_text no_values [] st = (record st { error_msg = [] }, some 0)
  delete_by_text no_values (b ∷ bs) st =
      let cleared = record st { error_msg = [] } in
      if lib.prepare (b ∷ bs) st.db
      then ended (with_error cleared (lib.step (b ∷ bs) no_values (lib.begin_transaction st.db)))
      else not_compiled cleared
