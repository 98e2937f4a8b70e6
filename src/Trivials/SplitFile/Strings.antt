-- ===== src/Trivials/SplitFile/Strings.antt =====
-- splitString at one character.
use cpp_linux_learn.Common.{
  ℕ, zero, suc, ◌+◌, ◌-◌, ◌≤◌, ◌<◌, ◌≡◌, refl, sym, ap, ap₂, ◌∙◌, ◌≢◌, ◌⊎◌, inl, inr, none, some,
  List, [], ◌∷◌, ◌++◌, ◌==◌, if◌then◌else◌, length, take, drop, ==_iff, length-drop, Bool-cases,
  List-cases, le→leb, arith,
}
use cpp_linux_learn.Trivials.SplitFile.{
  is_one_of, first_of, find_first_of, substr, split_from, split_string,
}

module _ (c : ℕ) where
  -- A character in front of the first part.
  abbrev push : ℕ → List (List ℕ) → List (List ℕ)
  push x [] = (x ∷ []) ∷ []
  push x (p ∷ ps) = (x ∷ p) ∷ ps

  -- The text cut at every `c`, by recursion on the text.
  pieces : List ℕ → List (List ℕ)
  pieces [] = [] ∷ []
  pieces (x ∷ xs) = if x == c then [] ∷ pieces xs else push x (pieces xs)

  -- The parts with a `c` between them.
  abbrev pub join : List (List ℕ) → List ℕ
  join [] = []
  join (p ∷ []) = p
  join (p ∷ q ∷ ps) = p ++ (c ∷ join (q ∷ ps))

  abbrev pub IsFree : List ℕ → Type 0
  IsFree [] = Unit
  IsFree (x ∷ xs) = (x ≢ c) × IsFree xs

  abbrev pub AllFree : List (List ℕ) → Type 0
  AllFree [] = Unit
  AllFree (p ∷ ps) = IsFree p × AllFree ps

  -- Where the first `c` is, and what that says of the parts.
  record Found (t : List ℕ) (pos : ℕ) (k : ℕ) : Type 0 where
    at : first_of (c ∷ []) t pos ≡ some (pos + k)
    below : k < length t
    parts : pieces t ≡ take k t ∷ pieces (drop (suc k) t)

  first_of_lem :
      (t : List ℕ) (pos : ℕ)
      → ((first_of (c ∷ []) t pos ≡ none) × (pieces t ≡ t ∷ [])) ⊎ ((k : ℕ) × Found t pos k)
  unfolding first_of is_one_of pieces
  first_of_lem [] pos = inl (refl, refl)
  first_of_lem (x ∷ t) pos = elim (Bool-cases (x == c)) [
    | inl here ↦ inr (0, record { at = ground arith; below = omega arith; parts = rw here refl })
    | inr other ↦ elim (first_of_lem t (suc pos)) [
      | inl (e, f) ↦ inl (ground arith, rw (other, f) refl)
      | inr (k, found) ↦ inr (
        suc k,
        record {
          at = ground (arith, found.at);
          below = omega (arith, found.below);
          parts = rw (other, found.parts) refl;
        },
      )
    ]
  ]

  drop-nil : (n : ℕ) → drop {A = ℕ} n [] ≡ []
  drop-nil zero = refl
  drop-nil (suc n) = refl

  drop-drop : (n m : ℕ) (s : List ℕ) → drop n (drop m s) ≡ drop (m + n) s
  drop-drop n zero s = ap (λ k. drop k s) (omega arith)
  drop-drop n (suc m) [] = drop-nil n ∙ sym (drop-nil (suc m + n))
  drop-drop n (suc m) (x ∷ s) =
      drop-drop n m s ∙ (let more : suc m + n ≡ suc (m + n) = omega arith in rw more refl)

  substr-rest : (s : List ℕ) (pos : ℕ) → pos ≤ length s → substr s pos none ≡ some (drop pos s)
  unfolding substr
  substr-rest s pos h = rw (le→leb pos (length s) h) refl

  substr-part :
      (s : List ℕ) (pos n : ℕ) → pos ≤ length s → substr s pos (some n) ≡ some (take n (drop pos s))
  unfolding substr
  substr-part s pos n h = rw (le→leb pos (length s) h) refl

  split_from-last :
      (fuel : ℕ) (s : List ℕ) (lpos : ℕ)
      → lpos ≤ length s
      → find_first_of (c ∷ []) s lpos ≡ none
      → split_from (suc fuel) s (c ∷ []) lpos ≡ some (drop lpos s ∷ [])
  unfolding split_from
  split_from-last fuel s lpos h e = ground (arith, e, substr-rest s lpos h)

  split_from-next :
      (fuel : ℕ) (s : List ℕ) (lpos k : ℕ) {rest : List (List ℕ)}
      → lpos ≤ length s
      → find_first_of (c ∷ []) s lpos ≡ some (lpos + k)
      → split_from fuel s (c ∷ []) (lpos + suc k) ≡ some rest
      → split_from (suc fuel) s (c ∷ []) lpos ≡ some (take k (drop lpos s) ∷ rest)
  unfolding split_from
  split_from-next fuel s lpos k h e r =
      let width : lpos + k - lpos ≡ k = omega arith in
      let after : lpos + k + 1 ≡ lpos + suc k = omega arith in
      let part = rw width at (substr-part s lpos (lpos + k - lpos) h) in
      let last = rw (sym after) at r in ground (arith, e, part, last, width)

  split_from_lem :
      (fuel : ℕ) (s : List ℕ) (lpos : ℕ)
      → lpos ≤ length s
      → length s < lpos + fuel
      → split_from fuel s (c ∷ []) lpos ≡ some (pieces (drop lpos s))
  split_from_lem zero s lpos h b = absurd (omega arith)
  split_from_lem (suc fuel) s lpos h b = elim (first_of_lem (drop lpos s) lpos) [
    | inl (e, f) ↦ split_from-last fuel s lpos h (unfold find_first_of in e) ∙ ap some (sym f)
    | inr (k, found) ↦
        let inside : lpos + suc k ≤ length s = omega (arith, found.below, length-drop lpos s) in
        let rest = split_from_lem fuel s (lpos + suc k) inside (omega arith) in
        let cut = sym (drop-drop (suc k) lpos s) in
        split_from-next fuel s lpos k h (unfold find_first_of in found.at) rest
        ∙ ap some (ap (λ l. take k (drop lpos s) ∷ pieces l) cut ∙ sym found.parts)
  ]

  join-push : (x : ℕ) (ps : List (List ℕ)) → join (push x ps) ≡ x ∷ join ps
  join-push x [] = refl
  join-push x (p ∷ []) = refl
  join-push x (p ∷ q ∷ ps) = refl

  join-empty : (ps : List (List ℕ)) → ps ≢ [] → join ([] ∷ ps) ≡ c ∷ join ps
  join-empty [] h = absurd (h refl)
  join-empty (p ∷ ps) h = refl

  pieces-ne : (s : List ℕ) → pieces s ≢ []
  unfolding pieces
  pieces-ne [] e = cc e
  pieces-ne (x ∷ s) e = elim (Bool-cases (x == c)) [
    | inl here ↦ let f = rw here at e in cc f
    | inr other ↦ push-ne x (pieces s) (rw other at e)
  ]
    where
      push-ne : (x : ℕ) (ps : List (List ℕ)) → push x ps ≢ []
      push-ne x [] e = cc e
      push-ne x (p ∷ ps) e = cc e

  push-AllFree : (x : ℕ) (ps : List (List ℕ)) → x ≢ c → AllFree ps → AllFree (push x ps)
  push-AllFree x [] h f = ((h, tt), tt)
  push-AllFree x (p ∷ ps) h f = ((h, f.0), f.1)

  join-pieces : (s : List ℕ) → join (pieces s) ≡ s
  unfolding pieces
  join-pieces [] = refl
  join-pieces (x ∷ s) = elim (Bool-cases (x == c)) [
    | inl here ↦
        let same : x ≡ c = (==_iff x c).0 here in
        rw here (join-empty (pieces s) (pieces-ne s) ∙ ap₂ ◌∷◌ (sym same) (join-pieces s))
    | inr other ↦ rw other (join-push x (pieces s) ∙ ap (◌∷◌ x) (join-pieces s))
  ]

  pieces-AllFree : (s : List ℕ) → AllFree (pieces s)
  unfolding pieces
  pieces-AllFree [] = (tt, tt)
  pieces-AllFree (x ∷ s) = elim (Bool-cases (x == c)) [
    | inl here ↦ rw here (tt, pieces-AllFree s)
    | inr other ↦ rw other (push-AllFree x (pieces s) (ground arith) (pieces-AllFree s))
  ]

  -- splitString at one character throws nothing and ends; its parts, with that character between them,
  -- are the text, and none of them holds the character.
  pub split_string_lem :
      (s : List ℕ)
      → (parts : List (List ℕ)) × (split_string s (c ∷ []) ≡ some parts)
        × (join parts ≡ s)
        × AllFree parts
  unfolding split_string
  split_string_lem s = (
    pieces s,
    split_from_lem (length s + 1) s 0 (omega arith) (omega arith),
    join-pieces s,
    pieces-AllFree s,
  )

  -- There is always a first part.
  pub split_string-first :
      (s : List ℕ) → (p : List ℕ) × (ps : List (List ℕ)) × (split_string s (c ∷ []) ≡ some (p ∷ ps))
  unfolding split_string
  split_string-first s =
      let runs = split_from_lem (length s + 1) s 0 (omega arith) (omega arith) in
      elim (List-cases (pieces s)) [
        | inl e ↦ absurd (pieces-ne s e)
        | inr (p, ps, e) ↦ (p, ps, runs ∙ ap some e)
      ]
