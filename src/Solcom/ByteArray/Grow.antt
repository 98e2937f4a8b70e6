-- ===== src/Solcom/ByteArray/Grow.antt =====
-- `Reallocate`, and the array form of `TailIntercept`.
use cpp_linux_learn.Common.{
  ℕ, zero, suc, ◌+◌, ◌-◌, ◌*◌, ◌≤◌, ◌<◌, ◌^◌, ◌≡◌, refl, ap, sym, ◌∙◌, none, some, List, ◌++◌,
  length, slice, splice, arith, new_block, length-new_block, copy_out-fits, copy_in-fits,
  copy_in-overflows, slice_split, slice-splice_self, length-splice, length-slice, sub32,
}
use cpp_linux_learn.Solcom.ByteArray.{
  ByteArray, IsValid, contents, reallocate, tail_intercept_array,
}

module _ (junk : ℕ → ℕ) (new_cap : ℕ) (a : ByteArray) (v : IsValid a) where
  grown : List ℕ
  grown = splice (new_block junk new_cap) a.left (contents a)

  length-contents : length (contents a) ≡ a.right - a.left
  length-contents = length-slice a.chars a.left (a.right - a.left) (omega (arith, v))

  distance : sub32 a.right a.left ≡ a.right - a.left
  distance = omega (arith, v)

  -- A larger block takes over the bytes in use, as long as the right position fits in it. The
  -- positions stay, and so does the capacity that the array believes in.
  pub reallocate_lem :
      a.capacity < new_cap
      → a.right ≤ new_cap
      → new_cap < 2 ^ 31
      → (a' : ByteArray) × (reallocate junk new_cap a ≡ some a')
        × IsValid a'
        × (contents a' ≡ contents a)
        × (length a'.chars ≡ new_cap)
        × (a' ≡ record a { chars = a'.chars })
  unfolding reallocate grown
  reallocate_lem larger room small = (
    record a { chars = grown },
    ground (
      arith,
      distance,
      copy_out-fits a.chars a.left (a.right - a.left) (omega (arith, v)),
      copy_in-fits (new_block junk new_cap) a.left (contents a)
          (omega (arith, v, length-contents, length-new_block junk new_cap)),
    ),
    omega (
      arith,
      v,
      length-splice (new_block junk new_cap) a.left (contents a),
      length-new_block junk new_cap,
    ),
    ap (slice grown a.left) (sym length-contents)
        ∙ slice-splice_self (new_block junk new_cap) a.left (contents a)
            (omega (arith, v, length-contents, length-new_block junk new_cap)),
    length-splice (new_block junk new_cap) a.left (contents a) ∙ length-new_block junk new_cap,
    refl,
  )

  -- An array that was given a larger block before still compares with its first capacity, so a
  -- request between that and the right position moves the bytes into a block that is too small.
  pub reallocate_overflow :
      a.capacity < new_cap → new_cap < a.right → reallocate junk new_cap a ≡ none
  unfolding reallocate
  reallocate_overflow larger small = ground (
    arith,
    distance,
    copy_out-fits a.chars a.left (a.right - a.left) (omega (arith, v)),
    copy_in-overflows (new_block junk new_cap) a.left (contents a)
        (omega (arith, v, length-contents, length-new_block junk new_cap)),
  )

one_item : (size count : ℕ) → 0 < count → size * count ≡ size + size * (count - 1)
one_item size zero h = absurd (omega arith)
one_item size (suc k) h = let e : suc k - 1 ≡ k = omega arith in rw e (omega arith)

-- The array form of `TailIntercept` takes `count` items off the end and returns the first of them.
pub tail_intercept_array_lem :
    (size count : ℕ) (a : ByteArray)
    → IsValid a
    → 0 < count
    → a.left + size * count ≤ a.right
    → (bs lost : List ℕ) × (a' : ByteArray) × (tail_intercept_array size count a ≡ some (bs, a'))
      × (contents a ≡ contents a' ++ (bs ++ lost))
      × (length bs ≡ size)
      × (length lost ≡ size * (count - 1))
unfolding tail_intercept_array
tail_intercept_array_lem size count a v some_items room = (
  slice a.chars start size,
  slice a.chars (start + size) rest,
  record a { right = start },
  ground (arith, wraps_back, copy_out-fits a.chars start size (omega (arith, total))),
  slice_split a.chars a.left start (start - a.left) (size * count) (a.right - a.left) (omega arith)
        (omega arith) (omega arith)
      ∙ ap (◌++◌ (slice a.chars a.left (start - a.left))) (
          slice_split a.chars start (start + size) size rest (size * count) total refl
            (omega (arith, total))),
  length-slice a.chars start size (omega (arith, total)),
  length-slice a.chars (start + size) rest (omega (arith, total)),
)
  where
    start : ℕ
    start = a.right - size * count

    rest : ℕ
    rest = size * (count - 1)

    total : size * count ≡ size + size * (count - 1)
    total = one_item size count some_items

    wraps_back : sub32 a.right (size * count) ≡ a.right - size * count
    wraps_back = omega arith
