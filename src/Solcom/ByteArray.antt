-- ===== src/Solcom/ByteArray.antt =====
-- solcomapi/src/CByteArray.h: a block of bytes with a left and a right position.
-- The bytes in use are those from `left` up to, and without, `right`. The members check nothing:
-- an access outside the block, which is undefined behaviour in C++, is `none` here.
pub mod Window
pub mod Grow
use cpp_linux_learn.Common.{
  ◌>>=◌, ℕ, ◌+◌, ◌-◌, ◌*◌, ◌≤◌, ◌<◌, ◌^◌, Bool, Option, none, some, List, flatten, length, slice,
  new_block, copy_in, copy_out, ltb, add32, sub32, if◌then◌else◌,
}

-- `pCharArr` with the bytes it points to, `nCapacity`, `nRight` and `nLeft`. The positions are
-- 32-bit patterns, for the members that move them take no account of the sign.
pub record ByteArray : Type 0 where
  pub chars : List ℕ
  pub capacity : ℕ
  pub right : ℕ
  pub left : ℕ

-- The constructor. `junk` is what the fresh block holds.
unfoldable pub create : (ℕ → ℕ) → ℕ → ByteArray
create junk cap =
    let n = if ltb 1424 cap then cap else 1424 in
    record { chars = new_block junk n; capacity = n; right = 0; left = 0 }

unfoldable pub init : ByteArray → ByteArray
init a = record a { right = 0; left = 0 }

-- `nCapacity` keeps its old value.
unfoldable pub reallocate : (ℕ → ℕ) → ℕ → ByteArray → Option ByteArray
reallocate junk new_cap a =
    if ltb a.capacity new_cap
    then (do
      bytes ← copy_out a.chars a.left (sub32 a.right a.left)
      chars' ← copy_in (new_block junk new_cap) a.left bytes
      some (record a { chars = chars' }))
    else some a

unfoldable pub left_forward : ℕ → ByteArray → ByteArray
left_forward n a = record a { left = add32 a.left n }

unfoldable pub left_backward : ℕ → ByteArray → ByteArray
left_backward n a = record a { left = sub32 a.left n }

unfoldable pub right_forward : ℕ → ByteArray → ByteArray
right_forward n a = record a { right = add32 a.right n }

unfoldable pub right_backward : ℕ → ByteArray → ByteArray
right_backward n a = record a { right = sub32 a.right n }

-- `Append`, of one value as of an array: `bs` are the bytes of the value, or of all the items.
unfoldable pub append : List ℕ → ByteArray → Option ByteArray
append bs a = do
  chars' ← copy_in a.chars a.right bs
  some (record a { chars = chars'; right = add32 a.right (length bs) })

-- `Prepend`.
unfoldable pub prepend : List ℕ → ByteArray → Option ByteArray
prepend bs a = do
  chars' ← copy_in a.chars (sub32 a.left (length bs)) bs
  some (record a { chars = chars'; left = sub32 a.left (length bs) })

-- `HeadIntercept`: the bytes read, and the array behind them.
unfoldable pub head_intercept : ℕ → ByteArray → Option (List ℕ × ByteArray)
head_intercept n a = do
  bs ← copy_out a.chars a.left n
  some (bs, record a { left = add32 a.left n })

-- `TailIntercept` of one value.
unfoldable pub tail_intercept : ℕ → ByteArray → Option (List ℕ × ByteArray)
tail_intercept n a = do
  bs ← copy_out a.chars (sub32 a.right n) n
  some (bs, record a { right = sub32 a.right n })

-- `TailIntercept` of `count` items of `size` bytes: it steps over all of them and copies one.
unfoldable pub tail_intercept_array : ℕ → ℕ → ByteArray → Option (List ℕ × ByteArray)
tail_intercept_array size count a = do
  bs ← copy_out a.chars (sub32 a.right (size * count)) size
  some (bs, record a { right = sub32 a.right (size * count) })

-- The bytes in use.
abbrev pub contents : ByteArray → List ℕ
contents a = slice a.chars a.left (a.right - a.left)

-- What the callers have to see to.
pub record IsValid (a : ByteArray) : Type 0 where
  pub ordered : a.left ≤ a.right
  pub inside : a.right ≤ length a.chars
  pub int_sized : length a.chars < 2 ^ 31
