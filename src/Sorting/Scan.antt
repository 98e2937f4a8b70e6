-- ===== src/Sorting/Scan.antt =====
-- The order of the elements, and the two inner loops of the partition: where they stop.
use cpp_linux_learn.Common.{
  ℕ, zero, suc, ◌+◌, ◌≤◌, ◌<◌, ◌≡◌, refl, ◌∙◌, ◌⊎◌, inl, inr, Bool, true, false, some, List, length,
  get_elem?, get_elem?-lt, Bool-cases, arith,
}
use native.Mathlib.Decide.{ℕ_discrete, dec_lt}
use cpp_linux_learn.Sorting.{move_down, move_up}
use cpp_linux_learn.Sorting.Places.{AllIn}

-- What the source relies on of `<=`.
pub record IsOrder {ℓ} {A : Type ℓ} (le : A → A → Bool) : Type ℓ where
  pub total : (a b : A) → le a b ≡ false → le b a ≡ true
  pub trans : (a b c : A) → le a b ≡ true → le b c ≡ true → le a c ≡ true

pub IsOrder-refl {ℓ} : {A : Type ℓ} {le : A → A → Bool} → IsOrder le → (a : A) → le a a ≡ true
IsOrder-refl {le = le} o a = elim (Bool-cases (le a a)) [ inl t ↦ t | inr f ↦ o.total a a f ]

module _ {ℓ} {A : Type ℓ} (le : A → A → Bool) where
  pub record Down (xs : List A) (p : A) (i j : ℕ) (j' : ℕ) : Type ℓ where
    pub moves : move_down le xs p i j ≡ some j'
    pub lower : i ≤ j'
    pub upper : j' ≤ j
    pub passed : AllIn (suc j') (suc j) xs (λ x. le p x ≡ true)
    pub ends : (j' ≡ i) ⊎ ((x : A) × (get_elem? xs j' ≡ some x) × (le p x ≡ false))

  module _ (xs : List A) (p : A) (i j : ℕ) where
    move_down-stays : ¬ (i < suc j) → move_down le xs p i (suc j) ≡ some (suc j)
    unfolding move_down
    move_down-stays h = ground arith

    module _ {x : A} (l : i < suc j) (ex : get_elem? xs (suc j) ≡ some x) where
      move_down-next : le p x ≡ true → move_down le xs p i (suc j) ≡ move_down le xs p i j
      unfolding move_down
      move_down-next t = ground arith

      move_down-ends : le p x ≡ false → move_down le xs p i (suc j) ≡ some (suc j)
      unfolding move_down
      move_down-ends f = ground arith

  pub move_down_lem :
      (xs : List A) (p : A) (i j : ℕ) → i ≤ j → j < length xs → (j' : ℕ) × Down xs p i j j'
  move_down_lem xs p i zero a b = (
    zero,
    record {
      moves = move_down-zero;
      lower = a;
      upper = omega arith;
      passed = λ k x q r e. absurd (omega arith);
      ends = inl (omega arith);
    },
  )
    where
      move_down-zero : move_down le xs p i zero ≡ some zero
      move_down-zero = unfold move_down in refl
  move_down_lem xs p i (suc j) a b = elim (dec_lt i (suc j)) [
    | no n ↦ (
      suc j,
      record {
        moves = move_down-stays xs p i j n;
        lower = a;
        upper = omega arith;
        passed = λ k x q r e. absurd (omega arith);
        ends = inl (omega arith);
      },
    )
    | yes l ↦
        let (x, ex) = get_elem?-lt xs (suc j) b in
        elim (Bool-cases (le p x)) [
          | inl t ↦
              let (j', d) = move_down_lem xs p i j (omega arith) (omega arith) in
              (
                j',
                record {
                  moves = move_down-next xs p i j l ex t ∙ d.moves;
                  lower = d.lower;
                  upper = omega (arith, d.upper);
                  passed = λ k y q r e. elim (ℕ_discrete k (suc j)) [
                    | yes s ↦ ground arith
                    | no s ↦ d.passed k y q (omega arith) e
                  ];
                  ends = d.ends;
                },
              )
          | inr f ↦ (
            suc j,
            record {
              moves = move_down-ends xs p i j l ex f;
              lower = a;
              upper = omega arith;
              passed = λ k y q r e. absurd (omega arith);
              ends = inr (x, ex, f);
            },
          )
        ]
  ]

  pub record Up (xs : List A) (p : A) (i d : ℕ) (i' : ℕ) : Type ℓ where
    pub moves : move_up le xs p i d ≡ some i'
    pub lower : i ≤ i'
    pub upper : i' ≤ i + d
    pub passed : AllIn i i' xs (λ x. le x p ≡ true)
    pub ends : (i' ≡ i + d) ⊎ ((x : A) × (get_elem? xs i' ≡ some x) × (le x p ≡ false))

  pub move_up_lem :
      (d : ℕ) (xs : List A) (p : A) (i : ℕ) → i + d < length xs → (i' : ℕ) × Up xs p i d i'
  unfolding move_up
  move_up_lem zero xs p i b = (
    i,
    record {
      moves = refl;
      lower = omega arith;
      upper = omega arith;
      passed = λ k x q r e. absurd (omega arith);
      ends = inl (omega arith);
    },
  )
  move_up_lem (suc d) xs p i b =
      let (x, ex) = get_elem?-lt xs i (omega arith) in
      elim (Bool-cases (le x p)) [
        | inl t ↦
            let (i', u) = move_up_lem d xs p (suc i) (omega arith) in
            (
              i',
              record {
                moves = rw (ex, t) u.moves;
                lower = omega (arith, u.lower);
                upper = omega (arith, u.upper);
                passed = λ k y q r e. elim (ℕ_discrete k i) [
                  | yes s ↦ ground arith
                  | no s ↦ u.passed k y (omega arith) r e
                ];
                ends = elim u.ends [ inl m ↦ inl (omega arith) | inr g ↦ inr g ];
              },
            )
        | inr f ↦ (
          i,
          record {
            moves = rw (ex, f) refl;
            lower = omega arith;
            upper = omega arith;
            passed = λ k y q r e. absurd (omega arith);
            ends = inr (x, ex, f);
          },
        )
      ]
