-- ===== src/Deployer/Database/Objects.antt =====
-- StragetyDeployer/dboperatefunc.cpp: the functions of the five tables. Their objects are bound before the
-- loop: where the bytes of one have no 0 behind a text, the whole call is `none`.
use cpp_linux_learn.Common.{
  ℕ, zero, suc, ◌≡◌, refl, ◌>>=◌, true, Option, none, some, List, [], ◌∷◌, drop, codes, ==_self,
}
use cpp_linux_learn.Deployer.Protocol.{
  Element, manage_user, server_config, strategy_config, deploy_config, deploy_group, element_size,
}
use cpp_linux_learn.Deployer.Serving.{has_size}
use cpp_linux_learn.Deployer.Database.{
  Sqlite, Store, insert_by_vector, update_by_vector, delete_by_vector,
}
use cpp_linux_learn.Deployer.Database.Rows.{
  Field, Value, layout, field_size, field_value, object_of_row, row_of_object, IsFitting,
  total_size-layout, row_of_object-object_of_row,
}

-- The statements, and which columns are bound to their places.
abbrev pub delete_sql : Element → List ℕ
delete_sql manage_user = codes "delete from ManageUser where ManagerName=?"
delete_sql server_config = codes "delete from ServerConfig where ServerName=?"
delete_sql strategy_config = codes "delete from StrategyConfig where ConfigName=? and ManagerName=?"
delete_sql deploy_config = codes "delete from DeployConfig where ConfigName=? and ManagerName=?"
delete_sql deploy_group = codes "delete from DeployGroup where GroupName=? and ManagerName=?"

abbrev pub delete_columns : Element → List ℕ
delete_columns manage_user = 0 ∷ []
delete_columns server_config = 0 ∷ []
delete_columns strategy_config = 0 ∷ 4 ∷ []
delete_columns deploy_config = 0 ∷ 6 ∷ []
delete_columns deploy_group = 0 ∷ 3 ∷ []

abbrev pub insert_sql : Element → List ℕ
insert_sql manage_user = codes "insert into ManageUser(ManagerName, ManagerPasswd) values(?,?)"
insert_sql server_config =
    codes "insert into ServerConfig(ServerName, ServerIP, ServerPort) values(?,?,?)"
insert_sql strategy_config =
    codes
      "insert into StrategyConfig(ConfigName, PlatformName, StragetyName, SrcRootDir, ManagerName) values(?,?,?,?,?)"
insert_sql deploy_config =
    codes
      "insert into DeployConfig(ConfigName, ServerName, UserName, UserPasswd, DstRootDir, ExeUser, ManagerName) values(?,?,?,?,?,?,?)"
insert_sql deploy_group =
    codes
      "insert into DeployGroup(GroupName, StragetyConfig, DeployConfig, ManagerName) values(?,?,?,?)"

abbrev pub update_sql : Element → List ℕ
update_sql manage_user =
    codes "update ManageUser set ManagerName=?, ManagerPasswd=? where ManagerName=?"
update_sql server_config =
    codes "update ServerConfig set ServerIP=?, ServerPort=? where  ServerName=?"
update_sql strategy_config =
    codes
      "update StrategyConfig set PlatformName=?, StragetyName=?, SrcRootDir=?, ManagerName=? where ConfigName=? and ManagerName=?"
update_sql deploy_config =
    codes
      "update DeployConfig set ServerName=?, UserName=?, UserPasswd=?, DstRootDir=?, ExeUser=?, ManagerName=? where ConfigName=? and ManagerName=?"
update_sql deploy_group =
    codes
      "update DeployConfig set StragetyConfig=?, DeployConfig=?, ManagerName=? where GroupName=? and ManagerName=?"

abbrev pub update_columns : Element → List ℕ
update_columns manage_user = 0 ∷ 1 ∷ 0 ∷ []
update_columns server_config = 1 ∷ 2 ∷ 0 ∷ []
update_columns strategy_config = 1 ∷ 2 ∷ 3 ∷ 4 ∷ 0 ∷ 4 ∷ []
update_columns deploy_config = 1 ∷ 2 ∷ 3 ∷ 4 ∷ 5 ∷ 6 ∷ 0 ∷ 6 ∷ []
update_columns deploy_group = 1 ∷ 2 ∷ 3 ∷ 0 ∷ 3 ∷ []

-- `STMT_BIND` of some columns.
abbrev pub column : List Field → ℕ → List ℕ → Option Value
column [] i obj = none
column (f ∷ fs) zero obj = field_value f obj
column (f ∷ fs) (suc i) obj = column fs i (drop (field_size f) obj)

abbrev pub bind : List Field → List ℕ → List ℕ → Option (List Value)
bind fs [] obj = some []
bind fs (i ∷ is) obj = do v ← column fs i obj; vs ← bind fs is obj; some (v ∷ vs)

abbrev pub all_some {ℓ κ} : {A : Type ℓ} {B : Type κ} → (A → Option B) → List A → Option (List B)
all_some f [] = some []
all_some f (a ∷ as') = do b ← f a; bs ← all_some f as'; some (b ∷ bs)

-- The queries, on the rows of the result.
unfoldable pub query_objects : Element → List (List Value) → Option (List (List ℕ))
query_objects e rows = all_some (object_of_row (layout e)) rows

module _ {Db : Type 0} (lib : Sqlite Db (List Value)) where
  unfoldable pub delete_objects : Element → List (List ℕ) → Store Db → Option (Store Db × Option ℕ)
  delete_objects e objects st = do
    rows ← all_some (bind (layout e) (delete_columns e)) objects
    some (delete_by_vector lib (delete_sql e) rows st)

  unfoldable pub insert_objects : Element → List (List ℕ) → Store Db → Option (Store Db × Option ℕ)
  insert_objects e objects st = do
    rows ← all_some (row_of_object (layout e)) objects
    some (insert_by_vector lib (insert_sql e) rows st)

  unfoldable pub update_objects : Element → List (List ℕ) → Store Db → Option (Store Db × Option ℕ)
  update_objects e objects st = do
    rows ← all_some (bind (layout e) (update_columns e)) objects
    some (update_by_vector lib (update_sql e) rows st)

-- All rows fit the table's structure.
pub data AllFitting (fs : List Field) : List (List Value) → Type 0 where
  no_rows : AllFitting fs []
  one_more :
      (vs : List Value) (rows : List (List Value))
      → IsFitting fs vs
      → AllFitting fs rows
      → AllFitting fs (vs ∷ rows)

rows_of_objects :
    (e : Element) (rows : List (List Value))
    → AllFitting (layout e) rows
    → (objects : List (List ℕ)) × (all_some (object_of_row (layout e)) rows ≡ some objects)
      × (has_size (element_size e) objects ≡ true)
      × (all_some (row_of_object (layout e)) objects ≡ some rows)
rows_of_objects e _ no_rows = ([], refl, refl, refl)
rows_of_objects e _ (one_more vs rows h later) =
    let (objects, made, sized, read) = rows_of_objects e rows later in
    let (o, made1, size1, read1) = row_of_object-object_of_row (layout e) vs h in
    (
      o ∷ objects,
      rw (made1, ◌>>=◌, made),
      rw (size1, total_size-layout e, ==_self (element_size e)) sized,
      rw (read1, ◌>>=◌, read),
    )

-- The rows of a table that a query finds, where their texts are shorter than the arrays and without 0,
-- become objects of the structure's size; and inserting these objects runs the table's insertion with exactly
-- those rows, in order.
pub insert_objects-query_objects :
    {Db : Type 0} (lib : Sqlite Db (List Value)) (e : Element) (rows : List (List Value))
    (st : Store Db)
    → AllFitting (layout e) rows
    → (objects : List (List ℕ)) × (query_objects e rows ≡ some objects)
      × (has_size (element_size e) objects ≡ true)
      × (insert_objects lib e objects st ≡ some (insert_by_vector lib (insert_sql e) rows st))
unfolding query_objects insert_objects
insert_objects-query_objects lib e rows st h =
    let (objects, made, sized, read) = rows_of_objects e rows h in (objects, made, sized, rw read)
