-- ===== src/Deployer/Database/Documented.antt =====
-- StragetyDeployer/dbopmacros.h: what SQLite documents of the calls that its loops make.
use cpp_linux_learn.Common.{ℕ, ◌≡◌, ◌⊎◌, Bool, true, false, Option, none, some, List, [], ◌∷◌}
use cpp_linux_learn.Deployer.Database.{Sqlite}

abbrev pub is_negative : Option ℕ → Bool
is_negative none = true
is_negative (some n) = false

module _ {Db Row Content : Type 0} (lib : Sqlite Db Row)
    (effect : List ℕ → Row → Content → Option Content) where
  -- All objects, or none when one of them fails; and those before the first that fails.
  abbrev pub next_all : (Content → Option Content) → Option Content → Option Content
  next_all f none = none
  next_all f (some c) = f c

  abbrev pub apply_all : List ℕ → List Row → Content → Option Content
  apply_all sql [] c = some c
  apply_all sql (r ∷ rs) c = next_all (apply_all sql rs) (effect sql r c)

  abbrev pub or_same : Content → Option Content → Content
  or_same c none = c
  or_same c (some d) = d

  abbrev pub next_prefix : (Content → Content) → Content → Option Content → Content
  next_prefix f c none = c
  next_prefix f c (some d) = f d

  abbrev pub apply_prefix : List ℕ → List Row → Content → Content
  apply_prefix sql [] c = c
  apply_prefix sql (r ∷ rs) c = next_prefix (apply_prefix sql rs) c (effect sql r c)

  abbrev pub fails : Option Content → Bool
  fails none = true
  fails (some c) = false

  -- What SQLite documents of these calls, on a connection where `effect` is what a step does to what the
  -- connection sees of the tables, or an error. A step that succeeds does not end a transaction, and
  -- outside of one it stays. A step that fails changes nothing, but within a transaction SQLite may roll
  -- that back by itself. A commit ends the transaction and keeps its changes, or fails: then the
  -- transaction stays open, or SQLite rolls it back. `saved` are the tables as other connections see them
  -- while the transaction is open, which are those at its begin.
  pub record IsSqlite (content saved : Db → Content) (autocommit : Db → Bool) : Type 0 where
    pub step_result :
        (sql : List ℕ) (r : Row) (d : Db)
        → is_negative (lib.step sql r d).1 ≡ fails (effect sql r (content d))
    pub step_content :
        (sql : List ℕ) (r : Row) (d : Db) (c : Content)
        → effect sql r (content d) ≡ some c
        → (content (lib.step sql r d).0 ≡ c) × (autocommit (lib.step sql r d).0 ≡ autocommit d)
    pub step_saved :
        (sql : List ℕ) (r : Row) (d : Db) (c : Content)
        → effect sql r (content d) ≡ some c
        → autocommit d ≡ false
        → saved (lib.step sql r d).0 ≡ saved d
    pub step_failed :
        (sql : List ℕ) (r : Row) (d : Db)
        → effect sql r (content d) ≡ none
        → autocommit d ≡ true
        → (content (lib.step sql r d).0 ≡ content d) × (autocommit (lib.step sql r d).0 ≡ true)
    pub step_failed_within :
        (sql : List ℕ) (r : Row) (d : Db)
        → effect sql r (content d) ≡ none
        → autocommit d ≡ false
        → ((saved (lib.step sql r d).0 ≡ saved d) × (autocommit (lib.step sql r d).0 ≡ false))
          ⊎ ((content (lib.step sql r d).0 ≡ saved d) × (autocommit (lib.step sql r d).0 ≡ true))
    pub begin_content : (d : Db) → content (lib.begin_transaction d) ≡ content d
    pub begin_saved :
        (d : Db)
        → autocommit d ≡ true
        → (saved (lib.begin_transaction d) ≡ content d)
          × (autocommit (lib.begin_transaction d) ≡ false)
    pub commit_content :
        (d : Db) → autocommit d ≡ true → content (lib.commit_transaction d) ≡ content d
    pub commit_within :
        (d : Db)
        → autocommit d ≡ false
        → ((content (lib.commit_transaction d) ≡ content d)
            × (autocommit (lib.commit_transaction d) ≡ true))
          ⊎ (((content (lib.commit_transaction d) ≡ saved d)
                × (autocommit (lib.commit_transaction d) ≡ true))
              ⊎ ((saved (lib.commit_transaction d) ≡ saved d)
                  × (autocommit (lib.commit_transaction d) ≡ false)))
    pub rollback_saved :
        (d : Db)
        → autocommit d ≡ false
        → (content (lib.rollback_transaction d) ≡ saved d)
          × (autocommit (lib.rollback_transaction d) ≡ true)
    pub rollback_content :
        (d : Db)
        → autocommit d ≡ true
        → (content (lib.rollback_transaction d) ≡ content d)
          × (autocommit (lib.rollback_transaction d) ≡ true)
