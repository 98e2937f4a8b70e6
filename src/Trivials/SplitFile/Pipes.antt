-- ===== src/Trivials/SplitFile/Pipes.antt =====
-- fixwrite and fixread: what they report is what they moved.
use cpp_linux_learn.Common.{
  ℕ, ◌+◌, ◌≡◌, refl, ap, ◌∙◌, inl, inr, false, Option, none, some, List, [], ◌∷◌, ◌++◌, append-nil,
  append_assoc, ◌==◌, length, take, drop, take-append-drop, length-append, Bool-cases, OnSome,
  OnSome-some, OnSome-none, arith,
}
use cpp_linux_learn.Trivials.SplitFile.{Outcome, moved, write_error, Chunk, got, fixwrite, fixread}

-- What fixwrite says of the bytes that it has written.
abbrev pub Reports : Option ℕ × List ℕ → Type 0
Reports (some n, bytes) = n ≡ length bytes
Reports (none, bytes) = bytes ≡ []

-- The bytes written are a beginning of the buffer, and the result counts them.
abbrev pub Wrote : List ℕ → Option ℕ × List ℕ → Type 0
Wrote bytes r = ((rest : List ℕ) × (r.1 ++ rest ≡ bytes)) × Reports r

fixwrite_from :
    (os : List Outcome) (buf sent : List ℕ) → OnSome (Wrote (sent ++ buf)) (fixwrite os buf sent)
unfolding fixwrite
fixwrite_from [] [] sent = OnSome-some (([], refl), refl)
fixwrite_from [] (b ∷ buf) sent = OnSome-none
fixwrite_from (moved n ∷ os) [] sent = OnSome-some (([], refl), refl)
fixwrite_from (write_error ∷ os) [] sent = OnSome-some (([], refl), refl)
fixwrite_from (write_error ∷ os) (b ∷ buf) [] = OnSome-some ((b ∷ buf, refl), refl)
fixwrite_from (write_error ∷ os) (b ∷ buf) (c ∷ sent) = OnSome-some ((b ∷ buf, refl), refl)
fixwrite_from (moved n ∷ os) (b ∷ buf) sent = elim (Bool-cases (n == 0)) [
  | inl stuck ↦ rw stuck (OnSome-some ((b ∷ buf, refl), refl))
  | inr more ↦
      let parts = take-append-drop n (b ∷ buf) in
      let whole : (sent ++ take n (b ∷ buf)) ++ drop n (b ∷ buf) ≡ sent ++ (b ∷ buf) =
        append_assoc sent _ _ ∙ ap (λ l. sent ++ l) parts in
      rw more (rw whole at (fixwrite_from os (drop n (b ∷ buf)) (sent ++ take n (b ∷ buf))))
]

-- Whatever the calls of `write` return, when fixwrite returns it has written a beginning of the buffer
-- and returns its length, or it returns -1 and has written nothing.
pub fixwrite_lem :
    (os : List Outcome) (buf : List ℕ) (r : Option ℕ × List ℕ)
    → fixwrite os buf [] ≡ some r
    → ((rest : List ℕ) × (r.1 ++ rest ≡ buf)) × Reports r
fixwrite_lem os buf r e = (fixwrite_from os buf []).holds r e

-- The chunks of calls of `read` that brought something.
abbrev pub chunks : List (List ℕ) → List Chunk
chunks [] = []
chunks (c ∷ cs) = got c ∷ chunks cs

abbrev pub joined : List (List ℕ) → List ℕ
joined [] = []
joined (c ∷ cs) = c ++ joined cs

abbrev pub AllFilled : List (List ℕ) → Type 0
AllFilled [] = Unit
AllFilled ([] ∷ cs) = ⊥
AllFilled ((b ∷ c) ∷ cs) = AllFilled cs

fixread_from :
    (cs : List (List ℕ)) (read : List ℕ) (len : ℕ)
    → AllFilled cs
    → length read + length (joined cs) ≡ len
    → fixread (chunks cs) len read ≡ some (some len, read ++ joined cs)
unfolding fixread
fixread_from [] read len f e =
    let all : length read ≡ len = omega arith in let whole = append-nil read in ground arith
fixread_from ([] ∷ cs) read len f e = absurd f
fixread_from ((b ∷ c) ∷ cs) read len f e =
    let more : (length read == len) ≡ false = ground (arith, length-append (b ∷ c) (joined cs)) in
    let split = length-append read (b ∷ c) in
    let split' = length-append (b ∷ c) (joined cs) in
    rw more (
      fixread_from cs (read ++ (b ∷ c)) len f (omega arith)
      ∙ ap (λ l. some (some len, l)) (append_assoc read (b ∷ c) (joined cs)))

-- When fixread is brought bytes in parts, none of them empty, that together have the length it asks for,
-- it returns that length and has read exactly these bytes in order.
pub fixread_lem :
    (cs : List (List ℕ)) (len : ℕ)
    → AllFilled cs
    → length (joined cs) ≡ len
    → fixread (chunks cs) len [] ≡ some (some len, joined cs)
fixread_lem cs len f e = fixread_from cs [] len f (omega arith)
