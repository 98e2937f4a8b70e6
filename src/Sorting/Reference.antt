-- ===== src/Sorting/Reference.antt =====
-- Insertion sort as the reference: by an order that tells elements apart quickSort returns the same.
use mathlib.Core.Logic.Or
use mathlib.Core.List.{Mem, Perm, mem-cons, mem-cons_self, not-mem-nil}
use mathlib.Core.List.Perm
use mathlib.Core.Bool.{Bool-set}
use cpp_linux_learn.Common.{
  ℕ, zero, suc, ◌<◌, ◌≡◌, refl, ap, ap₂, ◌∙◌, inl, inr, Bool, true, some, List, [], ◌∷◌,
  if◌then◌else◌, length, get_elem?, Bool-cases, arith,
}
use cpp_linux_learn.Sorting.{sort_all}
use cpp_linux_learn.Sorting.Scan.{IsOrder, IsOrder-refl}
use cpp_linux_learn.Sorting.Quick.{Ascending, sort_all_lem}

module _ {ℓ} {A : Type ℓ} (le : A → A → Bool) where
  unfoldable pub insert : A → List A → List A
  insert x [] = x ∷ []
  insert x (y ∷ ys) = if le x y then x ∷ y ∷ ys else y ∷ insert x ys

  unfoldable pub insertion_sort : List A → List A
  insertion_sort [] = []
  insertion_sort (x ∷ xs) = insert x (insertion_sort xs)

  insert-perm : (x : A) (ys : List A) → Perm (insert x ys) (x ∷ ys)
  unfolding insert
  insert-perm x [] = Perm.rfl
  insert-perm x (y ∷ ys) = elim (Bool-cases (le x y)) [
    | inl t ↦ rw t Perm.rfl
    | inr f ↦ rw f (Perm.trans (Perm.cons y (insert-perm x ys)) (Perm.swap x y ys))
  ]

  insertion_sort-perm : (xs : List A) → Perm (insertion_sort xs) xs
  unfolding insertion_sort
  insertion_sort-perm [] = Perm.rfl
  insertion_sort-perm (x ∷ xs) =
      Perm.trans (insert-perm x (insertion_sort xs)) (Perm.cons x (insertion_sort-perm xs))

  abbrev IsLeast : A → List A → Type ℓ
  IsLeast x ys = (y : A) → Mem y ys → le x y ≡ true

  -- Each element is below all that follow.
  abbrev IsSorted : List A → Type ℓ
  IsSorted [] = Unit
  IsSorted (x ∷ xs) = IsLeast x xs × IsSorted xs

  IsLeast-cons : {x y : A} {ys : List A} → le x y ≡ true → IsLeast x ys → IsLeast x (y ∷ ys)
  IsLeast-cons {x} p h z m = Or.elim (Bool-set _ _) (mem-cons.0 m) (λ e. rw e p) (h z)

  IsLeast-perm : {x : A} {ys zs : List A} → Perm zs ys → IsLeast x ys → IsLeast x zs
  IsLeast-perm p h z m = h z ((Perm.mem_iff p).0 m)

  -- An element that is below those at all positions.
  IsLeast-of_places :
      (x : A) (ys : List A)
      → ((i : ℕ) (y : A) → get_elem? ys i ≡ some y → le x y ≡ true)
      → IsLeast x ys
  IsLeast-of_places x [] h z m = absurd (not-mem-nil m)
  IsLeast-of_places x (y ∷ ys) h z m =
      IsLeast-cons (h 0 y refl) (IsLeast-of_places x ys λ i w e. h (suc i) w e) z m

  place_lt : (xs : List A) (i : ℕ) (x : A) → get_elem? xs i ≡ some x → i < length xs
  place_lt [] i x e = absurd (cc e)
  place_lt (y ∷ xs) zero x e = omega arith
  place_lt (y ∷ xs) (suc i) x e = omega (arith, place_lt xs i x e)

  Ascending-IsSorted : (xs : List A) → Ascending le 0 (length xs) xs → IsSorted xs
  Ascending-IsSorted [] a = tt
  Ascending-IsSorted (x ∷ xs) a = (
    IsLeast-of_places x xs λ i y e.
        a 0 (suc i) x y (omega arith) (omega arith) (omega (arith, place_lt xs i y e)) refl e,
    Ascending-IsSorted xs
        λ j k u v p q r e f. a (suc j) (suc k) u v (omega arith) (omega arith) (omega arith) e f,
  )

  module _ (o : IsOrder le) where
    insert-IsSorted : (x : A) (ys : List A) → IsSorted ys → IsSorted (insert x ys)
    unfolding insert
    insert-IsSorted x [] s = ((λ y m. absurd (not-mem-nil m)), tt)
    insert-IsSorted x (y ∷ ys) s = elim (Bool-cases (le x y)) [
      | inl t ↦ rw t (IsLeast-cons t (λ z m. o.trans x y z t (s.0 z m)), s)
      | inr f ↦ rw f (
        IsLeast-perm (insert-perm x ys) (IsLeast-cons (o.total x y f) s.0),
        insert-IsSorted x ys s.1,
      )
    ]

    insertion_sort-IsSorted : (xs : List A) → IsSorted (insertion_sort xs)
    unfolding insertion_sort
    insertion_sort-IsSorted [] = tt
    insertion_sort-IsSorted (x ∷ xs) =
        insert-IsSorted x (insertion_sort xs) (insertion_sort-IsSorted xs)

    module _ (antisymm : (a b : A) → le a b ≡ true → le b a ≡ true → a ≡ b) where
      front_le : {x y : A} {xs ys : List A} → IsLeast x xs → Perm (y ∷ ys) (x ∷ xs) → le x y ≡ true
      front_le {x} {y} h p = IsLeast-cons (IsOrder-refl o x) h y ((Perm.mem_iff p).0 mem-cons_self)

      sorted_unique : (xs ys : List A) → IsSorted xs → IsSorted ys → Perm xs ys → xs ≡ ys
      sorted_unique [] ys s t p = Perm.nil-eq p
      sorted_unique (x ∷ xs) [] s t p = Perm.eq-nil p
      sorted_unique (x ∷ xs) (y ∷ ys) s t p =
          let same = antisymm x y (front_le s.0 (Perm.symm p)) (front_le t.0 p) in
          let rest = Perm.cons_inv (Perm.trans p (Perm.symm (Perm.cons' same Perm.rfl))) in
          ap₂ ◌∷◌ same (sorted_unique xs ys s.1 t.1 rest)

      -- By an order that is total and transitive and in which no two elements are below each other,
      -- quickSort of a whole vector returns what insertion sort does.
      pub sort_all-eq-insertion_sort : (xs : List A) → sort_all le xs ≡ some (insertion_sort xs)
      sort_all-eq-insertion_sort xs =
          let (ys, e, p, a) = sort_all_lem le o xs in
          let perm = Perm.trans p (Perm.symm (insertion_sort-perm xs)) in
          let same =
            sorted_unique ys (insertion_sort xs) (Ascending-IsSorted ys a)
              (insertion_sort-IsSorted xs) perm in
          e ∙ ap some same
