-- ===== src/Solcom/Codec.antt =====
-- solcomapi/src/CommonStruct.h, ISerializable.h, SillyCommand.h, PackageCodec.h,
-- SerializableFactory.h and SerializableCache.h: the package head, the commands and their bytes.
-- A value goes to the wire as its object representation, that of a little-endian machine. The bytes
-- of a `double` and of a `char[32]` are only moved, so they are kept as bytes.
pub mod Digits
pub mod Head
pub mod RoundTrip
use Digits.{le_bytes, le_value}
use cpp_linux_learn.Common.{
  ◌>>=◌, ℕ, ◌+◌, Option, none, some, List, [], ◌∷◌, ◌++◌, length, slice, take, drop, get_or, ◌==◌,
  if◌then◌else◌,
}
use cpp_linux_learn.Solcom.ByteArray.{ByteArray, append, head_intercept}

-- `EPkgReqRtnType` and `ERequestType`.
abbrev pub type_req : ℕ
type_req = 0

abbrev pub type_rtn : ℕ
type_rtn = 1

abbrev pub type_heartbeat : ℕ
type_heartbeat = 1

abbrev pub type_test_cmd : ℕ
type_test_cmd = 2

-- `ERecvStatType`.
pub data RecvStat : Type 0 where
  recv_head recv_body : RecvStat

-- `PackageHeadField`, packed to 12 bytes.
pub record PackageHead : Type 0 where
  pub version_id : ℕ
  pub req_rtn_type : ℕ
  pub pkg_body_len : ℕ
  pub request_id : ℕ

abbrev pub package_head_len : ℕ
package_head_len = 12

abbrev pub head_bytes : PackageHead → List ℕ
head_bytes h =
    le_bytes 1 h.version_id
    ++ le_bytes 1 h.req_rtn_type
    ++ le_bytes 2 h.pkg_body_len
    ++ le_bytes 8 h.request_id

abbrev pub head_of_bytes : List ℕ → PackageHead
head_of_bytes bs = record {
  version_id = le_value (slice bs 0 1);
  req_rtn_type = le_value (slice bs 1 1);
  pkg_body_len = le_value (slice bs 2 2);
  request_id = le_value (slice bs 4 8);
}

unfoldable pub encode_head : PackageHead → ByteArray → Option ByteArray
encode_head h a = append (head_bytes h) a

unfoldable pub decode_head : ByteArray → Option (PackageHead × ByteArray)
decode_head a = do (bs, a') ← head_intercept package_head_len a; some (head_of_bytes bs, a')

-- The members that a class adds to `ISerializable`: none (also for HeartbeatCommand), or those of
-- TestCommand.
pub data Members : Type 0 where
  plain : Members
  test : (str_data db_data int_data : List ℕ) → Members

pub record Serializable : Type 0 where
  pub n_type : ℕ
  pub members : Members

-- `sizeof(*this)` inside ISerializable: a pointer to the virtual table and one byte, aligned. No
-- class overrides the member.
unfoldable pub data_size : Serializable → ℕ
data_size obj = 16

unfoldable pub serialize_members : Members → ByteArray → Option ByteArray
serialize_members plain a = some a
serialize_members (test str_data db_data int_data) a = do
  a1 ← append str_data a
  a2 ← append db_data a1
  append int_data a2

-- `Serialize`: the first byte is the type, for every class.
unfoldable pub serialize : Serializable → ByteArray → Option ByteArray
unfolding serialize_members
serialize obj a = do a1 ← append (obj.n_type ∷ []) a; serialize_members obj.members a1

unfoldable pub deserialize_members : Members → ByteArray → Option (Members × ByteArray)
deserialize_members plain a = some (plain, a)
deserialize_members (test _ _ _) a = do
  (str_data, a1) ← head_intercept 32 a
  (db_data, a2) ← head_intercept 8 a1
  (int_data, a3) ← head_intercept 4 a2
  some (test str_data db_data int_data, a3)

-- `Deserialize` overwrites the members of the object that it is called on.
unfoldable pub deserialize : Serializable → ByteArray → Option (Serializable × ByteArray)
unfolding deserialize_members
deserialize obj a = do
  (type_bytes, a1) ← head_intercept 1 a
  (members, a2) ← deserialize_members obj.members a1
  some (record { n_type = get_or type_bytes 0 0; members = members }, a2)

unfoldable pub heartbeat_command : Serializable
heartbeat_command = record { n_type = type_heartbeat; members = plain }

-- The constructor of TestCommand, over the bytes that `sprintf` and `rand` give its members.
unfoldable pub test_command : (str_data db_data int_data : List ℕ) → Serializable
test_command s d i = record { n_type = type_test_cmd; members = test s d i }

-- `SerializableFactory::CreateObject`, with the members that a new TestCommand happens to get.
unfoldable pub create_object : Members → ℕ → Option Serializable
create_object fresh t =
    if t == type_heartbeat
    then some (record { n_type = type_heartbeat; members = plain })
    else if t == type_test_cmd
    then some (record { n_type = type_test_cmd; members = fresh })
    else none

-- `SerializableCache`.
pub record SerializableCache : Type 0 where
  pub hb_cmd : Serializable
  pub tst_cmd : Serializable

unfoldable pub get_cached_obj : SerializableCache → ℕ → Option Serializable
get_cached_obj c t =
    if t == type_heartbeat
    then some c.hb_cmd
    else if t == type_test_cmd
    then some c.tst_cmd
    else none

-- `GetCachedObj` hands out a pointer into the cache, through which the caller writes.
unfoldable pub store_cached_obj : SerializableCache → ℕ → Serializable → SerializableCache
store_cached_obj c t obj =
    if t == type_heartbeat
    then record c { hb_cmd = obj }
    else if t == type_test_cmd
    then record c { tst_cmd = obj }
    else c
