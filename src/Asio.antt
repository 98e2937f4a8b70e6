-- ===== src/Asio.antt =====
-- boostAsioTest/serverEnd.cpp: the handlers of ServerEnd. The clients that shared pointers refer to are
-- the list `objects`, and a pointer is a position in it; the map holds a null pointer after `reset`.
-- The calls that a handler makes into asio are the events that it returns. What asio puts in the read
-- buffer is a parameter of readHandler. `none` is a pointer to no client. What the handlers print is
-- not modelled.
pub mod Forgotten
mod Tests
use cpp_linux_learn.Common.{
  ℕ, zero, suc, ◌+◌, ◌>>=◌, Bool, true, false, Option, none, some, List, [], ◌∷◌, ◌++◌, ltb, ◌==◌,
  ◌=ᵇ◌, if◌then◌else◌, length, get_elem?, set, codes, until_nul,
}

pub record Client : Type 0 where
  pub id : ℕ
  pub hbt_count : ℕ
  pub is_open : Bool

pub record ServerEnd : Type 0 where
  pub objects : List Client
  pub client_map : List (ℕ × Option ℕ)
  pub max_cli_id : ℕ
  pub ava_ids : List ℕ

-- async_accept, async_read_some and async_write_some for a client, and async_wait.
pub data Started : Type 0 where
  accepting reading writing : ℕ → Started
  waiting : Started

-- The error of a handler: none, the one that the handler names, any other.
pub data ErrorCode : Type 0 where
  success named failure : ErrorCode

-- `avaIdSet.insert`, in order and without repetition.
pub insert_id : ℕ → List ℕ → List ℕ
insert_id i [] = i ∷ []
insert_id i (j ∷ js) =
    let rest = insert_id i js in
    if ltb i j then i ∷ j ∷ js else (if i == j then j ∷ js else j ∷ rest)

-- createClientId.
unfoldable pub create_client_id : ServerEnd → List ℕ → ServerEnd × ℕ
create_client_id s [] = (record s { max_cli_id = suc s.max_cli_id }, suc s.max_cli_id)
create_client_id s (i ∷ is) = (record s { ava_ids = is }, i)

unfoldable pub async_accept : ServerEnd → ServerEnd × List Started
async_accept s =
    let (t, i) = create_client_id s s.ava_ids in
    let client : Client = record { id = i; hbt_count = 0; is_open = true } in
    (record t { objects = t.objects ++ (client ∷ []) }, accepting (length t.objects) ∷ [])

-- `sock.close()` and the recycling of the id.
unfoldable pub close_client : ℕ → Client → ServerEnd → ServerEnd
unfolding insert_id
close_client p c s = record s {
  objects = set s.objects p (record c { is_open = false });
  ava_ids = insert_id c.id s.ava_ids;
}

-- One entry in the loop of deadlineTimerHandle.
unfoldable pub beat : ℕ → Client → ServerEnd → ServerEnd × Option ℕ × List Started
unfolding close_client
beat p c s =
    let counted = record c { hbt_count = suc c.hbt_count } in
    if ltb 5 counted.hbt_count
    then (close_client p counted s, none, [])
    else (record s { objects = set s.objects p counted }, some p, writing p ∷ [])

-- The loop, over the entries that are left: what becomes of them, the state, and what was started.
unfoldable pub beat_all :
    List (ℕ × Option ℕ) → ServerEnd → Option (List (ℕ × Option ℕ) × ServerEnd × List Started)
unfolding beat
beat_all [] s = some ([], s, [])
beat_all ((i, none) ∷ entries) s = do
  (kept, t, started) ← beat_all entries s
  some ((i, none) ∷ kept, t, started)
beat_all ((i, some p) ∷ entries) s = do
  c ← get_elem? s.objects p
  let first = beat p c s
  (kept, t, started) ← beat_all entries first.0
  some ((i, first.1) ∷ kept, t, first.2 ++ started)

unfoldable pub deadline_timer_handle : ServerEnd → Option (ServerEnd × List Started)
deadline_timer_handle s = do
  (kept, t, started) ← beat_all s.client_map s
  some (record t { client_map = kept }, started ++ (waiting ∷ []))

-- `clientMap.erase(id)` and `clientMap.insert`, which leaves an entry that is there.
pub erase_id : ℕ → List (ℕ × Option ℕ) → List (ℕ × Option ℕ)
erase_id i [] = []
erase_id i ((j, p) ∷ entries) = if j == i then entries else (j, p) ∷ erase_id i entries

pub insert_client : ℕ → ℕ → List (ℕ × Option ℕ) → List (ℕ × Option ℕ)
insert_client i p [] = (i, some p) ∷ []
insert_client i p ((j, q) ∷ entries) =
    if j == i then (j, q) ∷ entries else (j, q) ∷ insert_client i p entries

abbrev pub accepted : ErrorCode → ℕ → Client → ServerEnd → ServerEnd × List Started
accepted success p c s =
    let (t, more) = async_accept (record s { client_map = insert_client c.id p s.client_map }) in
    (t, reading p ∷ more)
accepted named p c s =
    (record s { ava_ids = insert_id c.id s.ava_ids; client_map = erase_id c.id s.client_map }, [])
accepted failure p c s =
    (record s { ava_ids = insert_id c.id s.ava_ids; client_map = erase_id c.id s.client_map }, [])

unfoldable pub accept_handler : ErrorCode → ℕ → ServerEnd → Option (ServerEnd × List Started)
unfolding async_accept create_client_id insert_client erase_id insert_id
accept_handler err p s = do c ← get_elem? s.objects p; some (accepted err p c s)

-- readHandler: `named` is `interrupted`. `buffer` is the text in the buffer, and 0 bytes are passed over.
abbrev pub after_read : ErrorCode → ℕ → List ℕ → ℕ → Client → ServerEnd → ServerEnd
after_read success zero buffer p c s = s
after_read success (suc n) buffer p c s =
    if until_nul buffer =ᵇ codes "Heart Beat"
    then record s { objects = set s.objects p (record c { hbt_count = 0 }) }
    else s
after_read named n buffer p c s = s
after_read failure n buffer p c s = close_client p c s

unfoldable pub read_handler :
    ErrorCode → ℕ → List ℕ → ℕ → ServerEnd → Option (ServerEnd × List Started)
unfolding close_client
read_handler err n buffer p s = do
  c ← get_elem? s.objects p
  some (after_read err n buffer p c s, [])

-- writeHandler: `named` is `broken_pipe`.
abbrev pub after_write : ErrorCode → ℕ → Client → ServerEnd → ServerEnd × List Started
after_write success p c s = (s, reading p ∷ [])
after_write named p c s = (close_client p c s, [])
after_write failure p c s = (s, [])

unfoldable pub write_handler : ErrorCode → ℕ → ServerEnd → Option (ServerEnd × List Started)
unfolding close_client
write_handler err p s = do c ← get_elem? s.objects p; some (after_write err p c s)

-- The handlers in the order in which `ioService.run()` calls them.
pub data Handler : Type 0 where
  deadline_called : Handler
  accept_called : ErrorCode → ℕ → Handler
  read_called : ErrorCode → ℕ → List ℕ → ℕ → Handler
  write_called : ErrorCode → ℕ → Handler

unfoldable pub handle : Handler → ServerEnd → Option (ServerEnd × List Started)
unfolding deadline_timer_handle accept_handler read_handler write_handler
handle deadline_called s = deadline_timer_handle s
handle (accept_called err p) s = accept_handler err p s
handle (read_called err n buffer p) s = read_handler err n buffer p s
handle (write_called err p) s = write_handler err p s

unfoldable pub run : List Handler → ServerEnd → Option ServerEnd
run [] s = some s
run (h ∷ hs) s = do (t, started) ← handle h s; run hs t
