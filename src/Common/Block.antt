-- ===== src/Common/Block.antt =====
-- A heap block of bytes, and `memcpy` into it and out of it. `none` is an access outside the block.
use Prim.Native.Nat.{ℕ, zero, suc, ◌+◌, ◌≤◌, ◌<◌}
use mathlib.Core.Path.{◌≡◌, refl, ap}
use mathlib.Core.List.{List, [], ◌∷◌, ◌++◌}
use mathlib.Core.Option.{Option, none, some}
use native.Mathlib.Omega.{arith}
use cpp_linux_learn.Common.Tests.{leb, le→leb, if◌then◌else◌}
use cpp_linux_learn.Common.Lists.{length, take, drop}

-- What `new char[n]` hands out holds bytes that nobody chose: `junk i` at index `i`.
abbrev pub block_from : (ℕ → ℕ) → ℕ → ℕ → List ℕ
block_from junk i zero = []
block_from junk i (suc n) = junk i ∷ block_from junk (i + 1) n

abbrev pub new_block : (ℕ → ℕ) → ℕ → List ℕ
new_block junk n = block_from junk 0 n

-- The bytes `bs` over the first ones of a block, and over those from index `p` on.
abbrev pub overlay : List ℕ → List ℕ → List ℕ
overlay xs [] = xs
overlay [] (b ∷ bs) = []
overlay (x ∷ xs) (b ∷ bs) = b ∷ overlay xs bs

abbrev pub splice : List ℕ → ℕ → List ℕ → List ℕ
splice xs zero bs = overlay xs bs
splice [] (suc p) bs = []
splice (x ∷ xs) (suc p) bs = x ∷ splice xs p bs

abbrev pub slice : List ℕ → ℕ → ℕ → List ℕ
slice xs p n = take n (drop p xs)

-- `memcpy(block + p, bs, length bs)` and `memcpy(dst, block + p, n)`.
unfoldable pub copy_in : List ℕ → ℕ → List ℕ → Option (List ℕ)
copy_in xs p bs = if leb (p + length bs) (length xs) then some (splice xs p bs) else none

unfoldable pub copy_out : List ℕ → ℕ → ℕ → Option (List ℕ)
copy_out xs p n = if leb (p + n) (length xs) then some (slice xs p n) else none

length-block_from : (junk : ℕ → ℕ) (i n : ℕ) → length (block_from junk i n) ≡ n
length-block_from junk i zero = refl
length-block_from junk i (suc n) = ap suc (length-block_from junk (i + 1) n)

pub length-new_block : (junk : ℕ → ℕ) (n : ℕ) → length (new_block junk n) ≡ n
length-new_block junk n = length-block_from junk 0 n

pub length-overlay : (xs bs : List ℕ) → length (overlay xs bs) ≡ length xs
length-overlay xs [] = refl
length-overlay [] (b ∷ bs) = refl
length-overlay (x ∷ xs) (b ∷ bs) = ap suc (length-overlay xs bs)

pub length-splice : (xs : List ℕ) (p : ℕ) (bs : List ℕ) → length (splice xs p bs) ≡ length xs
length-splice xs zero bs = length-overlay xs bs
length-splice [] (suc p) bs = refl
length-splice (x ∷ xs) (suc p) bs = ap suc (length-splice xs p bs)

pub length-slice : (xs : List ℕ) (p n : ℕ) → p + n ≤ length xs → length (slice xs p n) ≡ n
length-slice xs zero zero h = refl
length-slice [] zero (suc n) h = absurd (omega arith)
length-slice (x ∷ xs) zero (suc n) h = ap suc (length-slice xs zero n (omega arith))
length-slice [] (suc p) zero h = refl
length-slice [] (suc p) (suc n) h = absurd (omega arith)
length-slice (x ∷ xs) (suc p) n h = length-slice xs p n (omega arith)

-- A slice is the slice of its first `k` bytes and the slice behind them.
pub slice_split :
    (xs : List ℕ) (p q k n m : ℕ)
    → m ≡ k + n
    → q ≡ p + k
    → q ≤ length xs
    → slice xs p m ≡ slice xs p k ++ slice xs q n
slice_split xs zero q zero n m e f h =
    let e' : m ≡ n = omega arith in let f' : q ≡ 0 = omega arith in rw (e', f')
slice_split [] zero q (suc k) n m e f h = absurd (omega arith)
slice_split (x ∷ xs) zero zero (suc k) n m e f h = absurd (omega arith)
slice_split (x ∷ xs) zero (suc q) (suc k) n zero e f h = absurd (omega arith)
slice_split (x ∷ xs) zero (suc q) (suc k) n (suc m) e f h =
    ap (◌∷◌ x) (slice_split xs zero q k n m (omega arith) (omega arith) (omega arith))
slice_split [] (suc p) q k n m e f h = absurd (omega arith)
slice_split (x ∷ xs) (suc p) zero k n m e f h = absurd (omega arith)
slice_split (x ∷ xs) (suc p) (suc q) k n m e f h =
    slice_split xs p q k n m e (omega arith) (omega arith)

take-overlay : (xs bs : List ℕ) → length bs ≤ length xs → take (length bs) (overlay xs bs) ≡ bs
take-overlay xs [] h = refl
take-overlay [] (b ∷ bs) h = absurd (omega arith)
take-overlay (x ∷ xs) (b ∷ bs) h = ap (◌∷◌ b) (take-overlay xs bs (omega arith))

-- What a copy wrote, what lies before it, and what lies behind it.
pub slice-splice_self :
    (xs : List ℕ) (q : ℕ) (bs : List ℕ)
    → q + length bs ≤ length xs
    → slice (splice xs q bs) q (length bs) ≡ bs
slice-splice_self xs zero bs h = take-overlay xs bs (omega arith)
slice-splice_self [] (suc q) [] h = refl
slice-splice_self [] (suc q) (b ∷ bs) h = absurd (omega arith)
slice-splice_self (x ∷ xs) (suc q) bs h = slice-splice_self xs q bs (omega arith)

pub slice-splice_before :
    (xs : List ℕ) (p n q : ℕ) (bs : List ℕ) → p + n ≤ q → slice (splice xs q bs) p n ≡ slice xs p n
slice-splice_before xs zero zero q bs h = refl
slice-splice_before xs zero (suc n) zero bs h = absurd (omega arith)
slice-splice_before [] zero (suc n) (suc q) bs h = refl
slice-splice_before (x ∷ xs) zero (suc n) (suc q) bs h =
    ap (◌∷◌ x) (slice-splice_before xs zero n q bs (omega arith))
slice-splice_before xs (suc p) n zero bs h = absurd (omega arith)
slice-splice_before [] (suc p) n (suc q) bs h = refl
slice-splice_before (x ∷ xs) (suc p) n (suc q) bs h = slice-splice_before xs p n q bs (omega arith)

drop-overlay : (xs bs : List ℕ) (p : ℕ) → length bs ≤ p → drop p (overlay xs bs) ≡ drop p xs
drop-overlay xs [] p h = refl
drop-overlay [] (b ∷ bs) p h = refl
drop-overlay (x ∷ xs) (b ∷ bs) zero h = absurd (omega arith)
drop-overlay (x ∷ xs) (b ∷ bs) (suc p) h = drop-overlay xs bs p (omega arith)

pub slice-splice_behind :
    (xs : List ℕ) (p n q : ℕ) (bs : List ℕ)
    → q + length bs ≤ p
    → slice (splice xs q bs) p n ≡ slice xs p n
slice-splice_behind xs p n zero bs h = ap (take n) (drop-overlay xs bs p (omega arith))
slice-splice_behind [] p n (suc q) bs h = refl
slice-splice_behind (x ∷ xs) zero n (suc q) bs h = absurd (omega arith)
slice-splice_behind (x ∷ xs) (suc p) n (suc q) bs h = slice-splice_behind xs p n q bs (omega arith)

pub copy_in-fits :
    (xs : List ℕ) (p : ℕ) (bs : List ℕ)
    → p + length bs ≤ length xs
    → copy_in xs p bs ≡ some (splice xs p bs)
unfolding copy_in
copy_in-fits xs p bs h = rw (le→leb _ _ h)

pub copy_out-fits :
    (xs : List ℕ) (p n : ℕ) → p + n ≤ length xs → copy_out xs p n ≡ some (slice xs p n)
unfolding copy_out
copy_out-fits xs p n h = rw (le→leb _ _ h)

pub copy_in-overflows :
    (xs : List ℕ) (p : ℕ) (bs : List ℕ) → length xs < p + length bs → copy_in xs p bs ≡ none
unfolding copy_in
copy_in-overflows xs p bs h = ground arith

pub copy_out-overflows : (xs : List ℕ) (p n : ℕ) → length xs < p + n → copy_out xs p n ≡ none
unfolding copy_out
copy_out-overflows xs p n h = ground arith
