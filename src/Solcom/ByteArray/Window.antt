-- ===== src/Solcom/ByteArray/Window.antt =====
-- What the members of CByteArray do to the bytes in use.
use cpp_linux_learn.Common.{
  ap, sym, take, drop, take-append_self, drop-append_self, length-append, ℕ, ◌+◌, ◌-◌, ◌≤◌, ◌≡◌,
  refl, ap₂, ◌∙◌, some, List, ◌++◌, length, slice, splice, arith, copy_in-fits, copy_out-fits,
  slice_split, slice-splice_self, slice-splice_before, slice-splice_behind, length-splice,
  length-slice, sub32,
}
use cpp_linux_learn.Solcom.ByteArray.{
  ByteArray, IsValid, contents, append, prepend, head_intercept, tail_intercept,
}

-- `a'` is a valid array with the bytes `bs` in use, in a block of the size of that of `a`.
pub record Holds (a : ByteArray) (bs : List ℕ) (a' : ByteArray) : Type 0 where
  pub valid : IsValid a'
  pub bytes : contents a' ≡ bs
  pub same_size : length a'.chars ≡ length a.chars
  pub same_capacity : a'.capacity ≡ a.capacity

pub slice_append :
    (xs bs : List ℕ) (l r m : ℕ)
    → l ≤ r
    → m ≡ r + length bs
    → m ≤ length xs
    → slice (splice xs r bs) l (m - l) ≡ slice xs l (r - l) ++ bs
slice_append xs bs l r m h e k =
    slice_split (splice xs r bs) l r (r - l) (length bs) (m - l) (omega arith) (omega arith)
      (omega (arith, length-splice xs r bs))
    ∙ ap₂ ◌++◌ (slice-splice_before xs l (r - l) r bs (omega arith))
        (slice-splice_self xs r bs (omega arith))

slice_prepend :
    (xs bs : List ℕ) (l r m : ℕ)
    → l ≤ r
    → l ≡ m + length bs
    → r ≤ length xs
    → slice (splice xs m bs) m (r - m) ≡ bs ++ slice xs l (r - l)
slice_prepend xs bs l r m h e k =
    slice_split (splice xs m bs) m l (length bs) (r - l) (r - m) (omega arith) (omega arith)
      (omega (arith, length-splice xs m bs))
    ∙ ap₂ ◌++◌ (slice-splice_self xs m bs (omega arith))
        (slice-splice_behind xs l (r - l) m bs (omega arith))

-- Where the block has room behind the right position, `Append` succeeds and puts the bytes behind
-- those in use; the left position stays.
pub append_lem :
    (a : ByteArray) (bs : List ℕ)
    → IsValid a
    → a.right + length bs ≤ length a.chars
    → (a' : ByteArray) × (append bs a ≡ some a')
      × Holds a (contents a ++ bs) a'
      × (a'.left ≡ a.left)
      × (a'.right ≡ a.right + length bs)
unfolding append
append_lem a bs v room = (
  record a { chars = splice a.chars a.right bs; right = a.right + length bs },
  ground (arith, copy_in-fits a.chars a.right bs room),
  record {
    valid = omega (arith, length-splice a.chars a.right bs);
    bytes = slice_append a.chars bs a.left a.right _ v.ordered refl room;
    same_size = length-splice a.chars a.right bs;
    same_capacity = refl;
  },
  refl,
  refl,
)

-- Where as many bytes lie before the left position, `Prepend` succeeds and puts the new bytes in
-- front of those in use; the right position stays.
pub prepend_lem :
    (a : ByteArray) (bs : List ℕ)
    → IsValid a
    → length bs ≤ a.left
    → (a' : ByteArray) × (prepend bs a ≡ some a')
      × Holds a (bs ++ contents a) a'
      × (a'.left ≡ a.left - length bs)
      × (a'.right ≡ a.right)
unfolding prepend
prepend_lem a bs v room = (
  record a { chars = splice a.chars (a.left - length bs) bs; left = a.left - length bs },
  ground (arith, wraps_back, copy_in-fits a.chars (a.left - length bs) bs (omega arith)),
  record {
    valid = omega (arith, length-splice a.chars (a.left - length bs) bs);
    bytes = slice_prepend a.chars bs a.left a.right _ v.ordered (omega arith) v.inside;
    same_size = length-splice a.chars (a.left - length bs) bs;
    same_capacity = refl;
  },
  refl,
  refl,
)
  where
    wraps_back : sub32 a.left (length bs) ≡ a.left - length bs
    wraps_back = omega arith

-- Of at least `n` bytes in use `HeadIntercept` returns the first `n`, and leaves the others.
pub head_intercept_lem :
    (a : ByteArray) (n : ℕ)
    → IsValid a
    → a.left + n ≤ a.right
    → (bs : List ℕ) × (a' : ByteArray) × (head_intercept n a ≡ some (bs, a'))
      × (contents a ≡ bs ++ contents a')
      × (length bs ≡ n)
      × (a' ≡ record a { left = a.left + n })
unfolding head_intercept
head_intercept_lem a n v room = (
  slice a.chars a.left n,
  record a { left = a.left + n },
  ground (arith, copy_out-fits a.chars a.left n (omega arith)),
  slice_split a.chars a.left (a.left + n) n (a.right - (a.left + n)) (a.right - a.left)
      (omega arith) refl (omega arith),
  length-slice a.chars a.left n (omega arith),
  refl,
)

-- Of at least `n` bytes in use `TailIntercept` returns the last `n`, and leaves the others.
pub tail_intercept_lem :
    (a : ByteArray) (n : ℕ)
    → IsValid a
    → a.left + n ≤ a.right
    → (bs : List ℕ) × (a' : ByteArray) × (tail_intercept n a ≡ some (bs, a'))
      × (contents a ≡ contents a' ++ bs)
      × (length bs ≡ n)
      × (a' ≡ record a { right = a.right - n })
unfolding tail_intercept
tail_intercept_lem a n v room = (
  slice a.chars (a.right - n) n,
  record a { right = a.right - n },
  ground (arith, wraps_back, copy_out-fits a.chars (a.right - n) n (omega arith)),
  slice_split a.chars a.left (a.right - n) (a.right - n - a.left) n (a.right - a.left) (omega arith)
      (omega arith) (omega arith),
  length-slice a.chars (a.right - n) n (omega arith),
  refl,
)
  where
    wraps_back : sub32 a.right n ≡ a.right - n
    wraps_back = omega arith

length-contents : (a : ByteArray) → IsValid a → length (contents a) ≡ a.right - a.left
length-contents a v = length-slice a.chars a.left (a.right - a.left) (omega (arith, v))

-- The same where the first bytes in use are known.
pub head_intercept_known :
    (a : ByteArray) (bs rest : List ℕ)
    → IsValid a
    → contents a ≡ bs ++ rest
    → (head_intercept (length bs) a ≡ some (bs, record a { left = a.left + length bs }))
      × (contents (record a { left = a.left + length bs }) ≡ rest)
      × IsValid (record a { left = a.left + length bs })
unfolding head_intercept
head_intercept_known a bs rest v e = (
  ground (
    arith,
    copy_out-fits a.chars a.left (length bs) (omega (arith, room)),
    first,
    room,
    v.inside,
    v.int_sized,
  ),
  sym (drop-append_self (length bs) known (contents a') (sym known_length))
      ∙ ap (drop (length bs)) (sym split ∙ e)
      ∙ drop-append_self (length bs) bs rest refl,
  omega (arith, room),
)
  where
    a' : ByteArray
    a' = record a { left = a.left + length bs }

    known : List ℕ
    known = slice a.chars a.left (length bs)

    room : a.left + length bs ≤ a.right
    room = omega (arith, v, length-contents a v, ap (λ xs. length xs) e, length-append bs rest)

    split : contents a ≡ known ++ contents a'
    split =
        slice_split a.chars a.left (a.left + length bs) (length bs) (a.right - (a.left + length bs))
          (a.right - a.left) (omega (arith, room)) refl (omega (arith, v, room))

    known_length : length known ≡ length bs
    known_length = length-slice a.chars a.left (length bs) (omega (arith, v, room))

    first : known ≡ bs
    first =
        sym (take-append_self (length bs) known (contents a') (sym known_length))
        ∙ ap (take (length bs)) (sym split ∙ e)
        ∙ take-append_self (length bs) bs rest refl
