-- ===== src/Deployer/Service/Answers.antt =====
-- StragetyDeployer/DispatcherService.h, lines 171-325: what a thread of the pool sends when the
-- database has answered, and the flag that it sets. `failed` says that the result was negative,
-- `error` is `sqlite_error_msg`. Each sends to the router that the client has at that time.
use cpp_linux_learn.Common.{
  ℕ, ◌>>=◌, ◌-◌, ◌+◌, Bool, true, false, Option, some, List, [], ◌∷◌, ltb, length, slice, overlay,
  if◌then◌else◌, codes, until_nul,
}
use cpp_linux_learn.Deployer.Protocol.{
  Element, element_code, passive_response, Response, response_frame, int_frame, strcpy64, zeros64,
  Sent,
}
use cpp_linux_learn.Deployer.Service.State.{Service, find_client, Step}
use cpp_linux_learn.Deployer.Service.Commands.{inner_send, respond, store_cache_bool}
use cpp_linux_learn.Deployer.Cmd
use cpp_linux_learn.Deployer.Err

-- `strncpy` of at most 63 bytes into the cleared array.
abbrev pub strncpy63 : List ℕ → List ℕ
strncpy63 text = overlay zeros64 (slice (until_nul text) 0 63)

-- The response of the five functions; `ok` is the text of a success.
abbrev pub answer : ℕ → Bool → List ℕ → List ℕ → ℕ → Response
answer cmd failed error ok reqid = record {
  error_id = if failed then Err.db_error else Err.success;
  err_msg = if failed then strncpy63 error else strcpy64 zeros64 ok;
  request_id = reqid;
  cmd_type = cmd;
}

-- `onQryBySql`, on the objects of the query.
abbrev pub send_rows : ℕ → ℕ → List (List ℕ) → List Sent
send_rows n i [] = []
send_rows n i (o ∷ os) = inner_send o (ltb i (n - 1)) ∷ send_rows n (i + 1) os

abbrev pub is_error : List ℕ → Bool
is_error [] = false
is_error (b ∷ bs) = true

unfoldable pub on_qry_by_sql :
    Element → List ℕ → ℕ → List (List ℕ) → List ℕ → Service → Option (List Sent)
on_qry_by_sql e id reqid rows error s = do
  c ← find_client id s.clients
  some (
      inner_send c.router true
      ∷ inner_send (int_frame passive_response) true
      ∷ inner_send
          (response_frame
            (answer Cmd.query (is_error error) error (codes "Query Successfully") reqid))
          true
      ∷ inner_send (int_frame (element_code e)) (ltb 0 (length rows))
      ∷ send_rows (length rows) 0 rows)

-- The four others send the response alone, and a success on managers calls for a new cache.
abbrev pub finish : ℕ → List ℕ → Element → List ℕ → ℕ → Bool → List ℕ → Service → Option Step
finish cmd ok e id reqid failed error s = do
  c ← find_client id s.clients
  some record {
    service = if failed then s else store_cache_bool e s;
    sends = respond c.router (answer cmd failed error ok reqid);
    tasks = [];
  }

unfoldable pub on_del_by_sql : Element → List ℕ → ℕ → Bool → List ℕ → Service → Option Step
on_del_by_sql = finish Cmd.del_by_col (codes "Delete Successfully")

unfoldable pub on_ins_by_objects : Element → List ℕ → ℕ → Bool → List ℕ → Service → Option Step
on_ins_by_objects = finish Cmd.insert (codes "Insert Successfully")

unfoldable pub on_del_by_objects : Element → List ℕ → ℕ → Bool → List ℕ → Service → Option Step
on_del_by_objects = finish Cmd.delete (codes "Delete Successfully")

unfoldable pub on_upd_by_objects : Element → List ℕ → ℕ → Bool → List ℕ → Service → Option Step
on_upd_by_objects = finish Cmd.update (codes "Update Successfully")
