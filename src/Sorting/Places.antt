-- ===== src/Sorting/Places.antt =====
-- Swaps of the places of a vector between two positions, and what they keep.
use mathlib.Core.List.{Perm}
use mathlib.Core.List.Perm
use cpp_linux_learn.Common.{
  ℕ, zero, suc, ◌≤◌, ◌<◌, ◌≡◌, refl, sym, ◌∙◌, some, List, [], ◌∷◌, ◌==◌, if◌then◌else◌, length,
  get_elem?, set, length-set, get_elem?-lt, arith,
}
use native.Mathlib.Decide.{dec_lt, ℕ_discrete}
use cpp_linux_learn.Sorting.{swap}

module _ {ℓ} {A : Type ℓ} where
  -- Every element at a position from `lo` on and before `hi` has the property.
  abbrev pub AllIn : ℕ → ℕ → List A → (A → Type 0) → Type ℓ
  AllIn lo hi xs P = (k : ℕ) (x : A) → lo ≤ k → k < hi → get_elem? xs k ≡ some x → P x

  -- The same elements, with those outside the positions from `lo` on and before `hi` in place.
  pub record Rearranged (lo hi : ℕ) (xs ys : List A) : Type ℓ where
    pub perm : Perm ys xs
    pub size : length ys ≡ length xs
    pub before : (k : ℕ) → k < lo → get_elem? ys k ≡ get_elem? xs k
    pub after : (k : ℕ) → hi ≤ k → get_elem? ys k ≡ get_elem? xs k
    pub within :
        (k : ℕ) (x : A)
        → lo ≤ k
        → k < hi
        → get_elem? ys k ≡ some x
        → (j : ℕ) × (lo ≤ j) × (j < hi) × (get_elem? xs j ≡ some x)

  pub Rearranged-refl : {lo hi : ℕ} {xs : List A} → Rearranged lo hi xs xs
  Rearranged-refl = record {
    perm = Perm.rfl;
    size = refl;
    before = λ k h. refl;
    after = λ k h. refl;
    within = λ k x p q e. (k, p, q, e);
  }

  pub Rearranged-trans :
      {lo hi : ℕ} {xs ys zs : List A}
      → Rearranged lo hi xs ys
      → Rearranged lo hi ys zs
      → Rearranged lo hi xs zs
  Rearranged-trans r s = record {
    perm = Perm.trans s.perm r.perm;
    size = s.size ∙ r.size;
    before = λ k h. s.before k h ∙ r.before k h;
    after = λ k h. s.after k h ∙ r.after k h;
    within = λ k x p q e. let (j, a, b, c) = s.within k x p q e in r.within j x a b c;
  }

  -- A part is within the whole.
  pub Rearranged-widen :
      {lo' hi' : ℕ} {xs ys : List A} (lo hi : ℕ)
      → lo ≤ lo'
      → hi' ≤ hi
      → lo' ≤ hi'
      → Rearranged lo' hi' xs ys
      → Rearranged lo hi xs ys
  Rearranged-widen {lo'} {hi'} {xs} {ys} lo hi a b c r = record {
    perm = r.perm;
    size = r.size;
    before = λ k h. r.before k (omega arith);
    after = λ k h. r.after k (omega arith);
    within = λ k x p q e. elim (dec_lt k lo') [
      | yes l ↦ (k, p, q, sym (r.before k l) ∙ e)
      | no l ↦ elim (dec_lt k hi') [
        | yes m ↦
            let (j, u, v, w) = r.within k x (omega arith) m e in (j, omega arith, omega arith, w)
        | no m ↦ (k, p, q, sym (r.after k (omega arith)) ∙ e)
      ]
    ];
  }

  pub AllIn-Rearranged :
      {lo hi : ℕ} {xs ys : List A} {P : A → Type 0}
      → Rearranged lo hi xs ys
      → AllIn lo hi xs P
      → AllIn lo hi ys P
  AllIn-Rearranged r all k x p q e = let (j, a, b, c) = r.within k x p q e in all j x a b c

  set-perm :
      (xs : List A) (i : ℕ) (x v : A) → get_elem? xs i ≡ some x → Perm (x ∷ set xs i v) (v ∷ xs)
  set-perm [] i x v e = absurd (cc e)
  set-perm (y ∷ xs) zero x v e = let same : y ≡ x = cc e in rw same (Perm.swap v x xs)
  set-perm (y ∷ xs) (suc i) x v e =
      Perm.trans (Perm.swap y x _)
        (Perm.trans (Perm.cons y (set-perm xs i x v e)) (Perm.swap v y xs))

  get_elem?-set_at :
      (xs : List A) (i j : ℕ) (v : A)
      → i < length xs
      → get_elem? (set xs i v) j ≡ (if i == j then some v else get_elem? xs j)
  get_elem?-set_at [] i j v h = absurd (omega arith)
  get_elem?-set_at (x ∷ xs) zero zero v h = refl
  get_elem?-set_at (x ∷ xs) zero (suc j) v h = ground arith
  get_elem?-set_at (x ∷ xs) (suc i) zero v h = ground arith
  get_elem?-set_at (x ∷ xs) (suc i) (suc j) v h = ground (arith, get_elem?-set_at xs i j v)

  -- What a swap of two places leaves at each position.
  pub record Swapped (xs : List A) (i j : ℕ) (ys : List A) : Type ℓ where
    pub swapped : swap xs i j ≡ some ys
    pub perm : Perm ys xs
    pub size : length ys ≡ length xs
    pub places :
        (k : ℕ)
        → get_elem? ys k
          ≡ (if j == k then get_elem? xs i else if i == k then get_elem? xs j else get_elem? xs k)

  pub swap_lem :
      (xs : List A) (i j : ℕ) → i < length xs → j < length xs → (ys : List A) × Swapped xs i j ys
  unfolding swap
  swap_lem xs i j hi hj =
      let (x, ex) = get_elem?-lt xs i hi in
      let (y, ey) = get_elem?-lt xs j hj in
      let zs = set xs i y in
      let hz : j < length zs = omega (arith, length-set xs i y) in
      let kept : get_elem? zs j ≡ some y = ground (arith, get_elem?-set_at xs i j y) in
      (
        set zs j x,
        record {
          swapped = rw (ex, ey) refl;
          perm = Perm.cons_inv (Perm.trans (set-perm zs j y x kept) (set-perm xs i x y ex));
          size = length-set zs j x ∙ length-set xs i y;
          places = λ k. ground (arith, get_elem?-set_at zs j k x, get_elem?-set_at xs i k y);
        },
      )

  pub Swapped-Rearranged :
      {xs ys : List A} {i j : ℕ} (lo hi : ℕ)
      → lo ≤ i
      → i < hi
      → lo ≤ j
      → j < hi
      → Swapped xs i j ys
      → Rearranged lo hi xs ys
  Swapped-Rearranged {xs} {ys} {i} {j} lo hi a b c d s = record {
    perm = s.perm;
    size = s.size;
    before = λ k h. ground (arith, s.places k);
    after = λ k h. ground (arith, s.places k);
    within = λ k x p q e. elim (ℕ_discrete j k) [
      | yes m ↦ (i, a, b, ground (arith, s.places k))
      | no m ↦ elim (ℕ_discrete i k) [
        | yes n ↦ (j, c, d, ground (arith, s.places k))
        | no n ↦ (k, p, q, ground (arith, s.places k))
      ]
    ];
  }
