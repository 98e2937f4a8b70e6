-- ===== src/Solcom/Codec/Head.antt =====
-- The package head through its 12 bytes.
use cpp_linux_learn.Common.{◌>>=◌, ℕ, ◌+◌, ◌^◌, ◌<◌, ◌≡◌, refl, some, List, ◌++◌, length}
use cpp_linux_learn.Solcom.ByteArray.{ByteArray, IsValid, contents}
use cpp_linux_learn.Solcom.ByteArray.Window.{head_intercept_known}
use cpp_linux_learn.Solcom.Codec.{
  PackageHead, head_bytes, head_of_bytes, package_head_len, decode_head,
}
use cpp_linux_learn.Solcom.Codec.Digits.{le_bytes, le_value-le_bytes}

-- The fields are within their types.
pub record InRange (h : PackageHead) : Type 0 where
  pub version_u8 : h.version_id < 256
  pub type_u8 : h.req_rtn_type < 256
  pub len_u16 : h.pkg_body_len < 2 ^ 16
  pub id_u64 : h.request_id < 2 ^ 64

pub length-head_bytes : (h : PackageHead) → length (head_bytes h) ≡ 12
unfolding le_bytes
length-head_bytes h = refl

pub head_of_bytes-head_bytes : (h : PackageHead) → InRange h → head_of_bytes (head_bytes h) ≡ h
unfolding le_bytes
head_of_bytes-head_bytes h r = λ i. record {
  version_id = le_value-le_bytes 1 h.version_id r.version_u8 i;
  req_rtn_type = le_value-le_bytes 1 h.req_rtn_type r.type_u8 i;
  pkg_body_len = le_value-le_bytes 2 h.pkg_body_len r.len_u16 i;
  request_id = le_value-le_bytes 8 h.request_id r.id_u64 i;
}

-- `decodeHead` reads the first 12 bytes in use as a head, and steps over them.
pub decode_head_known :
    (a : ByteArray) (head rest : List ℕ)
    → IsValid a
    → contents a ≡ head ++ rest
    → length head ≡ package_head_len
    → (decode_head a ≡ some (head_of_bytes head, record a { left = a.left + package_head_len }))
      × (contents (record a { left = a.left + package_head_len }) ≡ rest)
      × IsValid (record a { left = a.left + package_head_len })
unfolding decode_head
decode_head_known a head rest v e n =
    let (r, c, w) = head_intercept_known a head rest v e in
    (rw (← n) (rw (r, ◌>>=◌)), rw (← n) c, rw (← n) w)
