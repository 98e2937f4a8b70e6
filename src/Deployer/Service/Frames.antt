-- ===== src/Deployer/Service/Frames.antt =====
-- StragetyDeployer/DispatcherService.h, lines 147-169, and the reads of DispatcherService.cpp: the
-- frames of the message that are still to come are the state. A `recv` beyond the last one, which
-- would take a frame of the next message, is `none`, as are a failed `assert`, a `memcpy` beyond a
-- frame and a `sprintf` beyond its buffer.
use cpp_linux_learn.Common.{
  ℕ, ◌>>=◌, Option, none, some, List, [], ◌∷◌, ◌++◌, length, slice, ltb, leb, if◌then◌else◌, codes,
  until_nul,
}
use cpp_linux_learn.Deployer.Protocol.{ColumnFilter, int_of_frame}

abbrev pub recv : List (List ℕ) → Option (List ℕ × List (List ℕ))
recv [] = none
recv (f ∷ fs) = some (f, fs)

-- `recvPodObject<int>`.
unfoldable pub recv_pod_object : List (List ℕ) → Option (ℕ × List (List ℕ))
recv_pod_object fs = do (f, rest) ← recv fs; n ← int_of_frame f; some (n, rest)

-- `recvVecObject<T>` with `sizeof(T)`.
unfoldable pub recv_vec_object : ℕ → List (List ℕ) → Option (List (List ℕ))
recv_vec_object size [] = some []
recv_vec_object size (f ∷ fs) =
    let rest = recv_vec_object size fs in
    if leb size (length f) then (do objects ← rest; some (slice f 0 size ∷ objects)) else none

-- The loop that receives the filters.
unfoldable pub recv_filters : List (List ℕ) → Option (List ColumnFilter)
recv_filters [] = some []
recv_filters (name ∷ []) = none
recv_filters (name ∷ val ∷ fs) = do
  filters ← recv_filters fs
  some (record { col_name = name; col_val = val } ∷ filters)

-- `sprintf` into `char ch[64]`.
unfoldable pub sprintf64 : List ℕ → Option (List ℕ)
sprintf64 text = if ltb (length text) 64 then some text else none

-- The loop that appends the filters to the statement.
abbrev pub condition : ColumnFilter → List ℕ
condition f =
    codes " and " ++ (until_nul f.col_name ++ (codes "=\"" ++ (until_nul f.col_val ++ codes "\"")))

unfoldable pub conditions : List ColumnFilter → Option (List ℕ)
conditions [] = some []
conditions (f ∷ fs) = do ch ← sprintf64 (condition f); later ← conditions fs; some (ch ++ later)

-- The statement: `verb` is the format up to the table's name.
unfoldable pub statement : List ℕ → List ℕ → List ColumnFilter → Option (List ℕ)
statement verb table filters = do
  ch ← sprintf64 (verb ++ (table ++ codes " where 1=1"))
  conds ← conditions filters
  some ((ch ++ conds) ++ codes ";")
