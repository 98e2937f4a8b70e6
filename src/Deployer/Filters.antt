-- ===== src/Deployer/Filters.antt =====
-- StragetyDeployer/DispatcherService.cpp, lines 275-285 and 329-339: the statement built from filters.
use cpp_linux_learn.Common.{
  ℕ, ◌+◌, ◌≡◌, refl, ap, Bool, true, false, Bool-cases, inl, inr, none, some, List, [], ◌∷◌, ◌++◌,
  append_assoc, length, length-append, arith, ltb, if◌then◌else◌, ◌>>=◌, codes, until_nul,
}
use cpp_linux_learn.Deployer.Protocol.{
  ColumnFilter, Element, manage_user, server_config, strategy_config, deploy_config, deploy_group,
  table_name,
}
use cpp_linux_learn.Deployer.Service.{sprintf64, condition, conditions, statement}

-- Whether a name and a value, up to their first 0, leave room for the text around them.
abbrev pub is_short : ColumnFilter → Bool
is_short f = ltb (length (until_nul f.col_name) + length (until_nul f.col_val)) 56

abbrev pub all_short : List ColumnFilter → Bool
all_short [] = true
all_short (f ∷ fs) = let rest = all_short fs in if is_short f then rest else false

abbrev pub clauses : List ColumnFilter → List ℕ
clauses [] = []
clauses (f ∷ fs) = condition f ++ clauses fs

length-condition :
    (f : ColumnFilter)
    → length (condition f) ≡ 8 + length (until_nul f.col_name) + length (until_nul f.col_val)
length-condition f = omega (
  arith,
  length-append (until_nul f.col_name) (codes "=\"" ++ (until_nul f.col_val ++ codes "\"")),
  length-append (until_nul f.col_val) (codes "\""),
)

sprintf64-condition :
    (f : ColumnFilter) → sprintf64 (condition f) ≡ (if is_short f then some (condition f) else none)
unfolding sprintf64
sprintf64-condition f = ground (arith, length-condition f)

conditions_lem :
    (fs : List ColumnFilter) → conditions fs ≡ (if all_short fs then some (clauses fs) else none)
unfolding conditions
conditions_lem [] = refl
conditions_lem (f ∷ fs) = elim (Bool-cases (is_short f)) [
  | inl a ↦
      rw (sprintf64-condition f, a, ◌>>=◌, conditions_lem fs)
        (elim (Bool-cases (all_short fs)) [ inl b ↦ rw b | inr b ↦ rw b ])
  | inr a ↦ rw (sprintf64-condition f, a)
]

ended :
    (ch : List ℕ) (fs : List ColumnFilter)
    → (conditions fs >>= λ conds. some ((ch ++ conds) ++ codes ";"))
      ≡ (if all_short fs then some (ch ++ (clauses fs ++ codes ";")) else none)
ended ch fs = rw (conditions_lem fs) (elim (Bool-cases (all_short fs)) [
  | inl b ↦ rw b (ap some (append_assoc ch (clauses fs) (codes ";")))
  | inr b ↦ rw b
])

abbrev opening : List ℕ → Element → List ℕ
opening verb e = verb ++ (table_name e ++ codes " where 1=1")

-- The statement of a query is the table's selection followed by one clause for each filter in order, and it
-- is built exactly when every filter's name and value have fewer than 56 bytes together. A longer filter
-- is printed beyond the 64 bytes of the buffer. A deletion's statement is the same of its verb.
pub statement_lem :
    (e : Element) (fs : List ColumnFilter)
    → (statement (codes "select * from ") (table_name e) fs ≡ (
        if all_short fs
        then some (
            codes "select * from "
            ++ (table_name e ++ (codes " where 1=1" ++ (clauses fs ++ codes ";"))))
        else none))
      × (statement (codes "delete from ") (table_name e) fs ≡ (
          if all_short fs
          then some (
              codes "delete from "
              ++ (table_name e ++ (codes " where 1=1" ++ (clauses fs ++ codes ";"))))
          else none))
unfolding statement sprintf64
statement_lem manage_user fs = (
  ended (opening (codes "select * from ") manage_user) fs,
  ended (opening (codes "delete from ") manage_user) fs,
)
statement_lem server_config fs = (
  ended (opening (codes "select * from ") server_config) fs,
  ended (opening (codes "delete from ") server_config) fs,
)
statement_lem strategy_config fs = (
  ended (opening (codes "select * from ") strategy_config) fs,
  ended (opening (codes "delete from ") strategy_config) fs,
)
statement_lem deploy_config fs = (
  ended (opening (codes "select * from ") deploy_config) fs,
  ended (opening (codes "delete from ") deploy_config) fs,
)
statement_lem deploy_group fs = (
  ended (opening (codes "select * from ") deploy_group) fs,
  ended (opening (codes "delete from ") deploy_group) fs,
)
