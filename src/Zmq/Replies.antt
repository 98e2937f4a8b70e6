-- ===== src/Zmq/Replies.antt =====
-- The replies of the workers to the requests of the clients.
use cpp_linux_learn.Common.{
  ℕ, zero, suc, ◌+◌, ◌-◌, ◌≤◌, ◌<◌, ◌≡◌, ◌≢◌, refl, ap, ◌∙◌, true, false, none, some, List, [], ◌∷◌,
  append_assoc, length-append, take_all, drop-append_self, ◌++◌, ltb, if◌then◌else◌, length, take,
  replicate, codes, until_nul, arith,
}
use cpp_linux_learn.Zmq.{is_digit, first_digit, received, reply}

-- Neither a digit nor the end of a string.
abbrev pub NoDigit : List ℕ → Type 0
NoDigit [] = Unit
NoDigit (c ∷ cs) = (is_digit c ≡ false) × NoDigit cs

abbrev pub NoNul : List ℕ → Type 0
NoNul [] = Unit
NoNul (c ∷ cs) = (c ≢ 0) × NoNul cs

first_digit-append :
    (pre rest : List ℕ) (d n : ℕ)
    → NoDigit pre
    → is_digit d ≡ true
    → length pre < n
    → first_digit (pre ++ (d ∷ rest)) n ≡ length pre
unfolding first_digit
first_digit-append pre rest d zero f t h = absurd (omega arith)
first_digit-append [] rest d (suc n) f t h = rw t refl
first_digit-append (c ∷ pre) rest d (suc n) f t h =
    rw f.0 (ap suc (first_digit-append pre rest d n f.1 t (omega arith)))

take-append_more :
    (xs ys : List ℕ) (n : ℕ) → length xs ≤ n → take n (xs ++ ys) ≡ xs ++ take (n - length xs) ys
take-append_more [] ys n h = ap (λ k. take k ys) (omega arith)
take-append_more (x ∷ xs) ys zero h = absurd (omega arith)
take-append_more (x ∷ xs) ys (suc n) h =
    let same : suc n - suc (length xs) ≡ n - length xs = omega arith in
    rw same (ap (◌∷◌ x) (take-append_more xs ys n (omega arith)))

until_nul-append : (xs rest : List ℕ) → NoNul xs → until_nul (xs ++ (0 ∷ rest)) ≡ xs
until_nul-append [] rest f = refl
until_nul-append (x ∷ xs) rest f = ground (arith, until_nul-append xs rest f.1)

received_lem :
    (message : List ℕ)
    → length message ≤ 31
    → received message ≡ message ++ (0 ∷ take (31 - length message) (replicate 31 0))
unfolding received
received_lem message h =
    let left : 32 - length message ≡ suc (31 - length message) = omega arith in
    let whole = take_all 31 message h in
    rw whole (
      take-append_more message (replicate 32 0) 32 (omega arith)
      ∙ ap (λ k. message ++ take k (replicate 32 0)) left)

few : (n : ℕ) → ltb (suc (suc (suc (suc (suc (suc (suc n))))))) 32 ≡ ltb n 25
few n = ground arith

-- A request of at most 31 bytes that ends in a text which begins with its first digit, with no zero byte
-- in that text, is answered with "World_" and that text when the text has at most 25 bytes. A longer one
-- is written beyond the end of the array of the answer.
pub reply_lem :
    (pre rest : List ℕ) (d : ℕ)
    → NoDigit pre
    → is_digit d ≡ true
    → NoNul (d ∷ rest)
    → length pre + suc (length rest) ≤ 31
    → reply (pre ++ (d ∷ rest))
      ≡ (if ltb (length rest) 25 then some (codes "World_" ++ (d ∷ rest)) else none)
unfolding reply
reply_lem pre rest d f t nul h =
    let text = d ∷ rest in
    let message = pre ++ text in
    let size = length-append pre text in
    let zeros = take (31 - length message) (replicate 31 0) in
    let buffer : received message ≡ pre ++ (text ++ (0 ∷ zeros)) =
      received_lem message (omega arith) ∙ append_assoc pre text (0 ∷ zeros) in
    let at = first_digit-append pre (rest ++ (0 ∷ zeros)) d 31 f t (omega arith) in
    let after = drop-append_self (length pre) pre (text ++ (0 ∷ zeros)) refl in
    let end = until_nul-append text zeros nul in
    rw (buffer, at, after, end)
      (ap (λ b. if b then some (codes "World_" ++ text) else none) (few (length rest)))
