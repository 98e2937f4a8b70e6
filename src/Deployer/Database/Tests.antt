-- ===== src/Deployer/Database/Tests.antt =====
-- StragetyDeployer/dbopmacros.h: a table of numbers without repetition, as a database.
use cpp_linux_learn.Common.{
  ℕ, ◌≡◌, refl, ap, ◌∙◌, inl, codes, arith, Bool, true, false, Option, none, some, List, [], ◌∷◌,
  ◌==◌, if◌then◌else◌,
}
use cpp_linux_learn.Deployer.Protocol.{server_config, element_size}
use cpp_linux_learn.Deployer.Serving.{has_size}
use cpp_linux_learn.Deployer.Database.Rows.{
  Value, text, int_value, layout, IsFitting, fits_none, fits_text, fits_number,
}
use cpp_linux_learn.Deployer.Database.Objects.{
  query_objects, insert_objects, insert_sql, one_more, no_rows, insert_objects-query_objects,
}
use cpp_linux_learn.Deployer.Database.{Sqlite, Store, step_rows, insert_by_vector}
use cpp_linux_learn.Deployer.Database.Documented.{
  is_negative, apply_all, apply_prefix, fails, IsSqlite,
}
use cpp_linux_learn.Deployer.Database.Atomic.{insert_by_vector-prefix}

-- The table, the table at the beginning of the transaction, and whether there is none.
record Table : Type 0 where
  now : List ℕ
  before : List ℕ
  free : Bool

abbrev has : ℕ → List ℕ → Bool
has n [] = false
has n (x ∷ xs) = let rest = has n xs in if x == n then true else rest

-- A statement that adds a number, and fails when it is there.
abbrev add : List ℕ → ℕ → List ℕ → Option (List ℕ)
add sql n xs = if has n xs then none else some (n ∷ xs)

abbrev add_step : Table → Option (List ℕ) → Table × Option ℕ
add_step t none = (t, none)
add_step t (some xs) = (record t { now = xs }, some 1)

abbrev table_lib : Sqlite Table ℕ
table_lib = record {
  prepare = λ sql t. true;
  step = λ sql n t. add_step t (add sql n t.now);
  errmsg = λ t. [];
  begin_transaction = λ t. record t { before = t.now; free = false };
  commit_transaction = λ t. record t { free = true };
  rollback_transaction = λ t. if t.free then t else record t { now = t.before; free = true };
}

step_negative :
    (t : Table) (o : Option (List ℕ)) → is_negative (add_step t o).1 ≡ fails table_lib add o
step_negative t none = refl
step_negative t (some xs) = refl

step_added :
    (t : Table) (o : Option (List ℕ)) (xs : List ℕ)
    → o ≡ some xs
    → ((add_step t o).0.now ≡ xs)
      × ((add_step t o).0.free ≡ t.free)
      × ((add_step t o).0.before ≡ t.before)
step_added t none xs e = absurd (cc e)
step_added t (some ys) xs e = (cc e, refl, refl)

step_same : (t : Table) (o : Option (List ℕ)) → o ≡ none → (add_step t o).0 ≡ t
step_same t none e = refl
step_same t (some xs) e = absurd (cc e)

still_free :
    (t : Table) (b : Bool)
    → b ≡ true
    → (if b then t else record t { now = t.before; free = true }) ≡ t
still_free t true e = refl
still_free t false e = absurd (cc e)

table_lib-IsSqlite : IsSqlite table_lib add (λ t. t.now) (λ t. t.before) (λ t. t.free)
table_lib-IsSqlite = record {
  step_result = λ sql n t. step_negative t (add sql n t.now);
  step_content =
      λ sql n t xs e. let (added, free, _) = step_added t (add sql n t.now) xs e in (added, free);
  step_saved = λ sql n t xs e h. (step_added t (add sql n t.now) xs e).2;
  step_failed = λ sql n t e h.
      let same = step_same t (add sql n t.now) e in
      (ap (λ u. u.now) same, ap (λ u. u.free) same ∙ h);
  step_failed_within = λ sql n t e h.
      let same = step_same t (add sql n t.now) e in
      inl (ap (λ u. u.before) same, ap (λ u. u.free) same ∙ h);
  begin_content = λ t. refl;
  begin_saved = λ t h. (refl, refl);
  commit_content = λ t h. refl;
  commit_within = λ t h. inl (refl, refl);
  rollback_saved = λ t h. rw h (refl, refl);
  rollback_content = λ t h.
      let same : (if t.free then t else record t { now = t.before; free = true }) ≡ t =
        still_free t t.free h in
      (ap (λ u. u.now) same, ap (λ u. u.free) same ∙ h);
}

abbrev a_store : Store Table
a_store = record { db = record { now = 5 ∷ []; before = []; free = true }; error_msg = [] }

insert_by_vector-prefix_example :
    let out = insert_by_vector table_lib [] (6 ∷ 5 ∷ 7 ∷ []) a_store in
    (out.0.db.now ≡ apply_prefix table_lib add [] (6 ∷ 5 ∷ 7 ∷ []) (5 ∷ []))
    × (is_negative out.1
        ≡ fails table_lib add (apply_all table_lib add [] (6 ∷ 5 ∷ 7 ∷ []) (5 ∷ [])))
insert_by_vector-prefix_example =
    insert_by_vector-prefix table_lib add table_lib-IsSqlite [] 6 (5 ∷ 7 ∷ []) a_store refl refl

-- The first of the three stays after the failed insertion.
kept_row : (insert_by_vector table_lib [] (6 ∷ 5 ∷ 7 ∷ []) a_store).0.db.now ≡ 6 ∷ 5 ∷ []
unfolding insert_by_vector step_rows
kept_row = refl

-- A table of rows that takes every one.
abbrev row_lib : Sqlite (List (List Value)) (List Value)
row_lib = record {
  prepare = λ sql d. true;
  step = λ sql r d. (r ∷ d, some 1);
  errmsg = λ d. [];
  begin_transaction = λ d. d;
  commit_transaction = λ d. d;
  rollback_transaction = λ d. d;
}

abbrev row_store : Store (List (List Value))
row_store = record { db = []; error_msg = [] }

abbrev a_row : List Value
a_row = text (codes "localhost") ∷ text (codes "127.0.0.1") ∷ int_value 5889 ∷ []

a_row-IsFitting : IsFitting (layout server_config) a_row
a_row-IsFitting = fits_text 64 (codes "localhost") _ _ refl (omega arith) (
    fits_text 64 (codes "127.0.0.1") _ _ refl (omega arith)
      (fits_number 5889 _ _ (omega arith) fits_none))

insert_objects-query_objects_example :
    (objects : List (List ℕ)) × (query_objects server_config (a_row ∷ []) ≡ some objects)
    × (has_size (element_size server_config) objects ≡ true)
    × (insert_objects row_lib server_config objects row_store
        ≡ some (insert_by_vector row_lib (insert_sql server_config) (a_row ∷ []) row_store))
insert_objects-query_objects_example =
    insert_objects-query_objects row_lib server_config (a_row ∷ []) row_store
      (one_more a_row [] a_row-IsFitting no_rows)
