-- ===== src/Solcom/Codec/RoundTrip.antt =====
-- Commands through their bytes: what `Serialize` writes, `Deserialize` reads.
use cpp_linux_learn.Common.{
  ◌>>=◌, ℕ, ◌+◌, ◌≤◌, ◌<◌, ◌≡◌, refl, ap, sym, ◌∙◌, some, List, [], ◌∷◌, ◌++◌, length, arith,
  append_assoc, append-nil, length-append,
}
use cpp_linux_learn.Solcom.ByteArray.{ByteArray, IsValid, contents, head_intercept}
use cpp_linux_learn.Solcom.ByteArray.Window.{Holds, append_lem, head_intercept_known}
use cpp_linux_learn.Solcom.Codec.{
  Members, plain, test, Serializable, serialize_members, serialize, deserialize_members,
  deserialize, data_size, PackageHead, head_bytes, encode_head, decode_head,
}
use cpp_linux_learn.Solcom.Codec.Head.{
  InRange, length-head_bytes, head_of_bytes-head_bytes, decode_head_known,
}

-- The bytes of a command on the wire.
abbrev pub members_wire : Members → List ℕ
members_wire plain = []
members_wire (test s d i) = s ++ (d ++ i)

abbrev pub wire : Serializable → List ℕ
wire obj = obj.n_type ∷ members_wire obj.members

-- The members have the sizes of `char[32]`, `double` and `int`.
abbrev pub IsSized : Members → Type 0
IsSized plain = Unit {0}
IsSized (test s d i) = (length s ≡ 32) × (length d ≡ 8) × (length i ≡ 4)

abbrev pub SameClass : Members → Members → Type 0
SameClass plain plain = Unit {0}
SameClass plain (test _ _ _) = ⊥
SameClass (test _ _ _) plain = ⊥
SameClass (test _ _ _) (test _ _ _) = Unit {0}

-- `a'` is `a` with `bs` behind the bytes in use.
abbrev pub Extends : ByteArray → List ℕ → ByteArray → Type 0
Extends a bs a' =
    Holds a (contents a ++ bs) a' × (a'.left ≡ a.left) × (a'.right ≡ a.right + length bs)

Extends-trans :
    {a b c : ByteArray} (xs ys : List ℕ) → Extends a xs b → Extends b ys c → Extends a (xs ++ ys) c
Extends-trans {a} {b} {c} xs ys (h, l, r) (k, m, q) = (
  record {
    valid = k.valid;
    bytes = k.bytes ∙ ap (λ zs. zs ++ ys) h.bytes ∙ append_assoc (contents a) xs ys;
    same_size = k.same_size ∙ h.same_size;
    same_capacity = k.same_capacity ∙ h.same_capacity;
  },
  m ∙ l,
  omega (arith, q, r, length-append xs ys),
)

serialize_members_lem :
    (m : Members) (a : ByteArray)
    → IsValid a
    → a.right + length (members_wire m) ≤ length a.chars
    → (a' : ByteArray) × (serialize_members m a ≡ some a') × Extends a (members_wire m) a'
unfolding serialize_members
serialize_members_lem plain a v room = (
  a,
  refl,
  (
    record {
      valid = v;
      bytes = sym (append-nil (contents a));
      same_size = refl;
      same_capacity = refl;
    },
    refl,
    omega arith,
  ),
)
serialize_members_lem (test s d i) a v room =
    let size : length (s ++ (d ++ i)) ≡ length s + (length d + length i) =
      omega (arith, length-append s (d ++ i), length-append d i) in
    let (a1, e1, h1, l1, r1) = append_lem a s v (omega (arith, room, size)) in
    let (a2, e2, h2, l2, r2) =
      append_lem a1 d h1.valid (omega (arith, room, size, r1, h1.same_size)) in
    let (a3, e3, h3, l3, r3) =
      append_lem a2 i h2.valid (omega (arith, room, size, r1, h1.same_size, r2, h2.same_size)) in
    (
      a3,
      rw (e1, ◌>>=◌) (rw (e2, ◌>>=◌) e3),
      Extends-trans s (d ++ i) (h1, l1, r1) (Extends-trans d i (h2, l2, r2) (h3, l3, r3)),
    )

-- Where the block has room for them, `Serialize` puts the bytes of the object behind those in use.
pub serialize_lem :
    (obj : Serializable) (a : ByteArray)
    → IsValid a
    → a.right + length (wire obj) ≤ length a.chars
    → (a' : ByteArray) × (serialize obj a ≡ some a') × Extends a (wire obj) a'
unfolding serialize
serialize_lem obj a v room =
    let (a1, e1, h1, l1, r1) = append_lem a (obj.n_type ∷ []) v (omega (arith, room)) in
    let (a2, e2, x2) =
      serialize_members_lem obj.members a1 h1.valid (omega (arith, room, r1, h1.same_size)) in
    (
      a2,
      rw (e1, ◌>>=◌) e2,
      Extends-trans (obj.n_type ∷ []) (members_wire obj.members) (h1, l1, r1) x2,
    )

-- What lies behind the bytes read.
abbrev pub Reads : ByteArray → List ℕ → ByteArray → Type 0
Reads a rest a' = (contents a' ≡ rest) × IsValid a' × (length a'.chars ≡ length a.chars)

deserialize_members_lem :
    (m old : Members) (a : ByteArray) (rest : List ℕ)
    → IsSized m
    → SameClass old m
    → IsValid a
    → contents a ≡ members_wire m ++ rest
    → (a' : ByteArray) × (deserialize_members old a ≡ some (m, a')) × Reads a rest a'
unfolding deserialize_members
deserialize_members_lem plain plain a rest z c v e = (a, refl, (e, v, refl))
deserialize_members_lem plain (test _ _ _) a rest z c v e = absurd c
deserialize_members_lem (test s d i) plain a rest z c v e = absurd c
deserialize_members_lem (test s d i) (test _ _ _) a rest z c v e =
    let (e1, c1, v1) =
      head_intercept_known a s (d ++ (i ++ rest)) v
        (e ∙ append_assoc s (d ++ i) rest ∙ ap (◌++◌ s) (append_assoc d i rest)) in
    let a1 = record a { left = a.left + length s } in
    let (e2, c2, v2) = head_intercept_known a1 d (i ++ rest) v1 c1 in
    let a2 = record a { left = a.left + length s + length d } in
    let (e3, c3, v3) = head_intercept_known a2 i rest v2 c2 in
    (
      record a { left = a.left + length s + length d + length i },
      rw (ap (λ n. head_intercept n a) (sym z.0) ∙ e1, ◌>>=◌)
          (rw (ap (λ n. head_intercept n a1) (sym z.1) ∙ e2, ◌>>=◌)
            (rw (ap (λ n. head_intercept n a2) (sym z.2) ∙ e3, ◌>>=◌))),
      (c3, v3, refl),
    )

-- `Deserialize` on an object of the same class, whatever that held, reads back what `Serialize`
-- wrote, byte for byte, and leaves what lies behind it.
pub deserialize_lem :
    (obj old : Serializable) (a : ByteArray) (rest : List ℕ)
    → IsSized obj.members
    → SameClass old.members obj.members
    → IsValid a
    → contents a ≡ wire obj ++ rest
    → (a' : ByteArray) × (deserialize old a ≡ some (obj, a')) × Reads a rest a'
unfolding deserialize
deserialize_lem obj old a rest z c v e =
    let (e1, c1, v1) =
      head_intercept_known a (obj.n_type ∷ []) (members_wire obj.members ++ rest) v e in
    let (a2, e2, r2) = deserialize_members_lem obj.members old.members _ rest z c v1 c1 in
    (a2, rw (e1, ◌>>=◌) (rw (e2, ◌>>=◌)), r2)

-- An object that is written to an empty array with room for it is read back from there by any
-- object of its class, and the array is empty again.
pub deserialize-serialize :
    (obj old : Serializable) (a : ByteArray)
    → IsSized obj.members
    → SameClass old.members obj.members
    → IsValid a
    → contents a ≡ []
    → a.right + length (wire obj) ≤ length a.chars
    → (b c : ByteArray) × (serialize obj a ≡ some b)
      × (deserialize old b ≡ some (obj, c))
      × (contents c ≡ [])
deserialize-serialize obj old a z s v e room =
    let (b, w, (h, l, r)) = serialize_lem obj a v room in
    let (c, d, q) =
      deserialize_lem obj old b [] z s h.valid
        (h.bytes ∙ ap (λ xs. xs ++ wire obj) e ∙ sym (append-nil (wire obj))) in
    (b, c, w, d, q.0)

-- A head within its types that is written to an empty array with room for it is read back.
pub decode_head-encode_head :
    (h : PackageHead) (a : ByteArray)
    → InRange h
    → IsValid a
    → contents a ≡ []
    → a.right + 12 ≤ length a.chars
    → (b c : ByteArray) × (encode_head h a ≡ some b)
      × (decode_head b ≡ some (h, c))
      × (contents c ≡ [])
unfolding encode_head
decode_head-encode_head h a r v e room =
    let (b, w, k, l, q) =
      append_lem a (head_bytes h) v (omega (arith, room, length-head_bytes h)) in
    let (d, c, _) =
      decode_head_known b (head_bytes h) [] k.valid
        (k.bytes ∙ ap (λ xs. xs ++ head_bytes h) e ∙ sym (append-nil (head_bytes h)))
        (length-head_bytes h) in
    let behind = record b { left = b.left + 12 } in
    (b, behind, w, d ∙ ap (λ x. some (x, behind)) (head_of_bytes-head_bytes h r), c)

-- The size that `dataSize` promises to exceed is exceeded by every TestCommand: its wire form has
-- 45 bytes, `dataSize` says 16.
pub data_size-lt-wire :
    (t : ℕ) (s d i : List ℕ)
    → IsSized (test s d i)
    → let obj : Serializable = record { n_type = t; members = test s d i } in
      (length (wire obj) ≡ 45) × (data_size obj < length (wire obj))
unfolding data_size
data_size-lt-wire t s d i z =
    let size : length (s ++ (d ++ i)) ≡ 44 =
      omega (arith, length-append s (d ++ i), length-append d i, z) in
    omega (arith, size)
