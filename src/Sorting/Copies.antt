-- ===== src/Sorting/Copies.antt =====
-- The elements that topK copies, and the places of two lists one behind the other.
use native.Mathlib.Nat.{zero-add, suc-add}
use cpp_linux_learn.Common.{
  ℕ, zero, suc, ◌+◌, ◌≤◌, ◌<◌, ◌≡◌, refl, ap, ◌∙◌, some, List, [], ◌∷◌, ◌++◌, length, get_elem?,
  take, drop, arith,
}
use cpp_linux_learn.Sorting.{copy_from}

module _ {ℓ} {A : Type ℓ} where
  copy_from-cons : (n i : ℕ) (x : A) (xs : List A) → copy_from (x ∷ xs) (suc i) n ≡ copy_from xs i n
  unfolding copy_from
  copy_from-cons zero i x xs = refl
  copy_from-cons (suc n) i x xs = rw (copy_from-cons n (suc i) x xs) refl

  pub copy_from_lem :
      (n i : ℕ) (xs : List A) → i + n ≤ length xs → copy_from xs i n ≡ some (take n (drop i xs))
  unfolding copy_from
  copy_from_lem zero i xs h = refl
  copy_from_lem (suc n) zero (x ∷ xs) h =
      rw (copy_from-cons n zero x xs, copy_from_lem n zero xs (omega arith)) refl
  copy_from_lem (suc n) zero [] h = absurd (omega arith)
  copy_from_lem (suc n) (suc i) (x ∷ xs) h =
      rw (copy_from-cons (suc n) i x xs) (copy_from_lem (suc n) i xs (omega arith))
  copy_from_lem (suc n) (suc i) [] h = absurd (omega arith)

  pub get_elem?-append_left :
      (xs ys : List A) (j : ℕ) (x : A)
      → get_elem? xs j ≡ some x
      → (j < length xs) × (get_elem? (xs ++ ys) j ≡ some x)
  get_elem?-append_left [] ys j x e = absurd (cc e)
  get_elem?-append_left (y ∷ xs) ys zero x e = (omega arith, e)
  get_elem?-append_left (y ∷ xs) ys (suc j) x e =
      let (b, f) = get_elem?-append_left xs ys j x e in (omega arith, f)

  pub get_elem?-append_right :
      (xs ys : List A) (i : ℕ) → get_elem? (xs ++ ys) (length xs + i) ≡ get_elem? ys i
  get_elem?-append_right [] ys i = ap (get_elem? ys) (zero-add i)
  get_elem?-append_right (x ∷ xs) ys i =
      ap (get_elem? (x ∷ xs ++ ys)) (suc-add (length xs) i) ∙ get_elem?-append_right xs ys i
