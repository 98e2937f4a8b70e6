-- ===== src/Deployer/Database/Rows.antt =====
-- StragetyDeployer/dboperatefunc.cpp, lines 8 to 93, and the bindings of dbopmacros.h: a row of a table
-- becomes an object field by field, and an object is bound field by field. A text that does not fit its
-- array, a column that is not there or of the other kind, and a text without its 0 are `none`.
use cpp_linux_learn.Common.{
  ℕ, zero, suc, ◌+◌, ◌^◌, ◌<◌, ◌≡◌, refl, ◌∙◌, ◌>>=◌, Bool-cases, inl, inr, Option, none, some,
  List, [], ◌∷◌, ◌++◌, length, length-append, length-overlay, length-replicate, overlay, replicate,
  slice, drop, drop-append, take-append, ltb, lt→ltb, ◌==◌, if◌then◌else◌, until_nul, c_string,
  arith,
}
use cpp_linux_learn.Solcom.Codec.Digits.{le_bytes, le_value, length-le_bytes, le_value-le_bytes}
use cpp_linux_learn.Deployer.Protocol.{
  Element, manage_user, server_config, strategy_config, deploy_config, deploy_group, element_size,
}

-- A field of a structure: an array of chars of a size, or an int; and a column's value.
pub data Field : Type 0 where
  chars : ℕ → Field
  number : Field

pub data Value : Type 0 where
  text : List ℕ → Value
  int_value : ℕ → Value

-- The structures' fields, which are the columns in their order.
abbrev pub layout : Element → List Field
layout manage_user = chars 64 ∷ chars 64 ∷ []
layout server_config = chars 64 ∷ chars 64 ∷ number ∷ []
layout strategy_config = chars 64 ∷ chars 128 ∷ chars 128 ∷ chars 256 ∷ chars 64 ∷ []
layout deploy_config =
    chars 64 ∷ chars 64 ∷ chars 64 ∷ chars 64 ∷ chars 256 ∷ chars 64 ∷ chars 64 ∷ []
layout deploy_group = chars 64 ∷ chars 64 ∷ chars 64 ∷ chars 64 ∷ []

-- `memset` and `strcpy` of a column into its field.
unfoldable pub field_bytes : Field → Value → Option (List ℕ)
field_bytes (chars n) (text t) =
    if ltb (length (until_nul t)) n then some (overlay (replicate n 0) (until_nul t)) else none
field_bytes (chars n) (int_value k) = none
field_bytes number (text t) = none
field_bytes number (int_value k) = some (le_bytes 4 k)

unfoldable pub object_of_row : List Field → List Value → Option (List ℕ)
object_of_row [] vs = some []
object_of_row (f ∷ fs) [] = none
object_of_row (f ∷ fs) (v ∷ vs) = do
  bytes ← field_bytes f v
  rest ← object_of_row fs vs
  some (bytes ++ rest)

-- What `bindString` and `bindInteger` are given of an object from a field on.
abbrev pub field_size : Field → ℕ
field_size (chars n) = n
field_size number = 4

unfoldable pub field_value : Field → List ℕ → Option Value
field_value (chars n) obj = do t ← c_string obj; some (text t)
field_value number obj = some (int_value (le_value (slice obj 0 4)))

unfoldable pub row_of_object : List Field → List ℕ → Option (List Value)
row_of_object [] obj = some []
row_of_object (f ∷ fs) obj = do
  v ← field_value f obj
  vs ← row_of_object fs (drop (field_size f) obj)
  some (v ∷ vs)

-- The values that fit the fields: a text without 0 and shorter than its array, a number of 32 bits.
pub data IsFitting : List Field → List Value → Type 0 where
  fits_none : IsFitting [] []
  fits_text :
      (n : ℕ) (t : List ℕ) (fs : List Field) (vs : List Value)
      → until_nul t ≡ t
      → length t < n
      → IsFitting fs vs
      → IsFitting (chars n ∷ fs) (text t ∷ vs)
  fits_number :
      (k : ℕ) (fs : List Field) (vs : List Value)
      → k < 2 ^ 32
      → IsFitting fs vs
      → IsFitting (number ∷ fs) (int_value k ∷ vs)

abbrev pub total_size : List Field → ℕ
total_size [] = 0
total_size (f ∷ fs) = field_size f + total_size fs

c_string-overlay :
    (n : ℕ) (t rest : List ℕ)
    → until_nul t ≡ t
    → length t < n
    → c_string (overlay (replicate n 0) t ++ rest) ≡ some t
c_string-overlay zero t rest h k = absurd (omega arith)
c_string-overlay (suc n) [] rest h k = refl
c_string-overlay (suc n) (b ∷ bs) rest h k = elim (Bool-cases (b == 0)) [
  | inl e ↦ let none_left : [] ≡ b ∷ bs = (rw e) ∙ h in absurd (cc none_left)
  | inr e ↦
      let whole : b ∷ until_nul bs ≡ b ∷ bs = (rw e) ∙ h in
      rw e (rw (c_string-overlay n bs rest (cc whole) (omega arith)))
]

length-cleared : (n : ℕ) (t : List ℕ) → length (overlay (replicate n 0) t) ≡ n
length-cleared n t = length-overlay (replicate n 0) t ∙ length-replicate n 0

-- A row whose values fit is made into an object, and binding that object gives the row again.
pub row_of_object-object_of_row :
    (fs : List Field) (vs : List Value)
    → IsFitting fs vs
    → (obj : List ℕ) × (object_of_row fs vs ≡ some obj)
      × (length obj ≡ total_size fs)
      × (row_of_object fs obj ≡ some vs)
unfolding object_of_row row_of_object field_bytes field_value
row_of_object-object_of_row fs vs fits_none = ([], refl, refl, refl)
row_of_object-object_of_row _ _ (fits_text n t fs vs h k later) =
    let (o, made, size, read) = row_of_object-object_of_row fs vs later in
    let front = overlay (replicate n 0) t in
    (
      front ++ o,
      rw (h, lt→ltb (length t) n k, made),
      omega (arith, length-append front o, length-cleared n t, size),
      rw (c_string-overlay n t o h k, drop-append front o n (length-cleared n t), read),
    )
row_of_object-object_of_row _ _ (fits_number k fs vs h later) =
    let (o, made, size, read) = row_of_object-object_of_row fs vs later in
    let front = le_bytes 4 k in
    (
      front ++ o,
      rw made,
      omega (arith, length-append front o, length-le_bytes 4 k, size),
      rw (
        drop-append front o 4 (length-le_bytes 4 k),
        read,
        take-append front o 4 (length-le_bytes 4 k),
        le_value-le_bytes 4 k h,
      ),
    )

-- The sizes of the structures are those of their fields.
pub total_size-layout : (e : Element) → total_size (layout e) ≡ element_size e
total_size-layout manage_user = refl
total_size-layout server_config = refl
total_size-layout strategy_config = refl
total_size-layout deploy_config = refl
total_size-layout deploy_group = refl
