-- ===== src/Solcom/Tests.antt =====
-- Runs of CByteArray, CachedBuffer and the commands on small values.

use cpp_linux_learn.Common.{ℕ, ◌-◌, ◌^◌, ◌≡◌, refl, some, List, [], ◌∷◌, replicate, arith}
use cpp_linux_learn.Solcom.ByteArray.{ByteArray, IsValid, contents}
use cpp_linux_learn.Solcom.CachedBuffer.{CachedBuffer}
use cpp_linux_learn.Solcom.CachedBuffer.Positions
use cpp_linux_learn.Solcom.CachedBuffer.Fifo
use cpp_linux_learn.Solcom.CachedBuffer.Fifo.{
  enqueue, dequeue, post, take_front, post_refines, take_front_refines,
}
use cpp_linux_learn.Solcom.CachedBuffer.Refine.{Call, posts, takes, run, run_queue, run_refines}
use cpp_linux_learn.Solcom.Codec.{PackageHead, test, Serializable, serialize, deserialize}
use cpp_linux_learn.Solcom.Codec.Head.{InRange}
use cpp_linux_learn.Solcom.Codec.RoundTrip.{deserialize-serialize}

abbrev junk : ℕ → ℕ
junk i = 7

-- Three bytes in use, of ten.
abbrev some_bytes : ByteArray
some_bytes = record {
  chars = 0 ∷ 1 ∷ 2 ∷ 3 ∷ 4 ∷ 5 ∷ 6 ∷ 7 ∷ 8 ∷ 9 ∷ [];
  capacity = 10;
  right = 6;
  left = 3;
}

some_bytes-IsValid : IsValid some_bytes
some_bytes-IsValid = omega arith

abbrev new_bytes : List ℕ
new_bytes = 40 ∷ 41 ∷ []

-- An array of 2 that was given a block of 10.
abbrev grown_bytes : ByteArray
grown_bytes = record some_bytes { capacity = 2 }

grown_bytes-IsValid : IsValid grown_bytes
grown_bytes-IsValid = omega arith

-- Two slots, at the wrap of the positions: the one element waits in the second.
abbrev wrapping : CachedBuffer ℕ
wrapping = record {
  elements = 10 ∷ 11 ∷ [];
  capacity = 2;
  head = 2 ^ 64 - 1;
  current = 2 ^ 64 - 1;
  tail = 2 ^ 64 - 1;
}

wrapping-IsValid : Positions.IsValid wrapping
wrapping-IsValid = record {
  power = (1, refl, omega arith);
  sized = refl;
  fits = omega arith;
  head_u64 = omega arith;
  tail_u64 = omega arith;
}

abbrev some_calls : List (Call ℕ)
some_calls = takes ∷ posts 20 ∷ posts 21 ∷ posts 22 ∷ takes ∷ takes ∷ takes ∷ []

run_example : run 0 wrapping some_calls ≡ run_queue 2 (Fifo.contents 0 wrapping) some_calls
run_example = run_refines 0 some_calls wrapping wrapping-IsValid

abbrev fresh : CachedBuffer ℕ
fresh = record { elements = 10 ∷ 11 ∷ []; capacity = 2; head = 0; current = 0; tail = 2 ^ 64 - 1 }

-- An empty array with room for 60 bytes.
abbrev empty_array : ByteArray
empty_array = record { chars = replicate 60 0; capacity = 60; right = 0; left = 0 }

empty_array-IsValid : IsValid empty_array
empty_array-IsValid = omega arith

abbrev a_command : Serializable
a_command = record { n_type = 2; members = test (replicate 32 65) (replicate 8 1) (replicate 4 2) }

abbrev old_command : Serializable
old_command = record { n_type = 2; members = test [] [] [] }

deserialize-serialize_example :
    (b c : ByteArray) × (serialize a_command empty_array ≡ some b)
    × (deserialize old_command b ≡ some (a_command, c))
    × (contents c ≡ [])
deserialize-serialize_example =
    deserialize-serialize a_command old_command empty_array (refl, refl, refl) tt
      empty_array-IsValid refl (omega arith)

abbrev a_head : PackageHead
a_head = record { version_id = 1; req_rtn_type = 0; pkg_body_len = 300; request_id = 70000 }

a_head-InRange : InRange a_head
a_head-InRange = omega arith
