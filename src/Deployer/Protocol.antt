-- ===== src/Deployer/Protocol.antt =====
-- StragetyDeployer/CommonStruct.h and CommonStruct.cpp: commands, elements and responses. A frame of
-- a ZeroMQ message is the list of its bytes; a structure travels as its object representation, that
-- of a little-endian machine with 4-byte ints.
pub mod Frames
use cpp_linux_learn.Common.{
  ℕ, ◌+◌, ◌<◌, ◌≡◌, refl, Option, none, some, List, [], ◌∷◌, ◌++◌, length, slice, codes, overlay,
  block_from, replicate, ltb, leb, ◌==◌, if◌then◌else◌, Bool,
}
use cpp_linux_learn.Solcom.Codec.Digits.{le_bytes, le_value}

-- `EElementType`; `sizeof` of the structure, packed to 4 bytes; and `AllTableNames`. Outside of the
-- table is `none`.
pub data Element : Type 0 where
  manage_user server_config strategy_config deploy_config deploy_group : Element

abbrev pub element_code : Element → ℕ
element_code manage_user = 0
element_code server_config = 1
element_code strategy_config = 2
element_code deploy_config = 3
element_code deploy_group = 4

abbrev pub element_of : ℕ → Option Element
element_of n =
    if n == 0
    then some manage_user
    else if n == 1
    then some server_config
    else if n == 2
    then some strategy_config
    else if n == 3
    then some deploy_config
    else if n == 4
    then some deploy_group
    else none

abbrev pub element_size : Element → ℕ
element_size manage_user = 128
element_size server_config = 132
element_size strategy_config = 640
element_size deploy_config = 640
element_size deploy_group = 256

abbrev pub table_name : Element → List ℕ
table_name manage_user = codes "ManageUser"
table_name server_config = codes "ServerConfig"
table_name strategy_config = codes "StrategyConfig"
table_name deploy_config = codes "DeployConfig"
table_name deploy_group = codes "DeployGroup"

-- `STCMsgPattern`.
abbrev pub passive_response : ℕ
passive_response = 0

abbrev pub active_push : ℕ
active_push = 1

-- `ReqResponse` with its base: `err_msg` are the 64 bytes of the array.
pub record Response : Type 0 where
  pub error_id : ℕ
  pub err_msg : List ℕ
  pub request_id : ℕ
  pub cmd_type : ℕ

-- An `int` as a frame, and a frame read as one; `none` is a frame of another size.
abbrev pub int_frame : ℕ → List ℕ
int_frame n = le_bytes 4 n

unfoldable pub int_of_frame : List ℕ → Option ℕ
int_of_frame f = if length f == 4 then some (le_value f) else none

-- `memcpy` of an `int` from the front of a frame; `none` reads beyond its end.
unfoldable pub int_at_front : List ℕ → Option ℕ
int_at_front f = if leb 4 (length f) then some (le_value (slice f 0 4)) else none

abbrev pub response_frame : Response → List ℕ
response_frame r =
    le_bytes 4 r.error_id ++ (r.err_msg ++ (le_bytes 4 r.request_id ++ le_bytes 4 r.cmd_type))

unfoldable pub response_of_frame : List ℕ → Option Response
response_of_frame f =
    if length f == 76
    then some (record {
      error_id = le_value (slice f 0 4);
      err_msg = slice f 4 64;
      request_id = le_value (slice f 68 4);
      cmd_type = le_value (slice f 72 4);
    })
    else none

-- `strcpy` into the array, over what it held.
abbrev pub strcpy64 : List ℕ → List ℕ → List ℕ
strcpy64 old text = overlay old (text ++ 0 ∷ [])

-- `strncpy` of at most 63 bytes into the array that `memset` has cleared.
abbrev pub zeros64 : List ℕ
zeros64 = replicate 64 0

-- `ColumnFilter`.
pub record ColumnFilter : Type 0 where
  pub col_name : List ℕ
  pub col_val : List ℕ

-- One `zmq_send`: the frame, and whether `ZMQ_SNDMORE` says that the message goes on.
pub record Sent : Type 0 where
  pub frame : List ℕ
  pub more : Bool

-- The frames of one whole message; `none` when the last flag says more or one before it does not.
unfoldable pub message_of : List Sent → Option (List (List ℕ))
message_of [] = none
message_of (s ∷ []) = if s.more then none else some (s.frame ∷ [])
message_of (s ∷ t ∷ ss) =
    let rest = message_of (t ∷ ss) in
    if s.more then elim rest [ none ↦ none | some fs ↦ some (s.frame ∷ fs) ] else none
