-- ===== src/Sorting/Partition.antt =====
-- The partition of quickSort and topkhelper: its loops end, and where the pivot lands.
use cpp_linux_learn.Common.{
  ℕ, zero, suc, ◌+◌, ◌-◌, ◌≤◌, ◌<◌, ◌≡◌, refl, ◌∙◌, ◌⊎◌, inl, inr, Bool, true, some, List, length,
  get_elem?, get_elem?-lt, arith,
}
use native.Mathlib.Decide.{ℕ_discrete, dec_lt}
use cpp_linux_learn.Sorting.{move_down, move_up, partition, split_at_pivot, swap}
use cpp_linux_learn.Sorting.Places.{
  AllIn, Rearranged, Rearranged-refl, Rearranged-trans, Swapped, swap_lem, Swapped-Rearranged,
}
use cpp_linux_learn.Sorting.Scan.{IsOrder, IsOrder-refl, Down, Up, move_down_lem, move_up_lem}

module _ {ℓ} {A : Type ℓ} (le : A → A → Bool) where
  -- The loop's invariant, between the positions `lo` and `hi`, with the pivot at `lo`.
  record Parting (lo hi : ℕ) (xs : List A) (p : A) (i j : ℕ) : Type ℓ where
    fits : hi ≤ length xs
    from : lo ≤ i
    apart : i ≤ j
    to : j < hi
    below : AllIn lo (suc i) xs (λ x. le x p ≡ true)
    above : AllIn (suc j) hi xs (λ x. le p x ≡ true)
    pivot : get_elem? xs lo ≡ some p

  record Round (lo hi : ℕ) (xs : List A) (p : A) (i j : ℕ) (ys : List A) (i' j' : ℕ) : Type ℓ where
    down : move_down le xs p i j ≡ some j'
    up : move_up le xs p i (j' - i) ≡ some i'
    swapped : swap xs i' j' ≡ some ys
    kept : Parting lo hi ys p i' j'
    closer : j' + i < j + i'
    moved : Rearranged lo hi xs ys

  module _ (o : IsOrder le) {lo hi : ℕ} {xs : List A} {p : A} {i j : ℕ}
      (v : Parting lo hi xs p i j) where
    open v use {fits, from, apart, to, below, above, pivot}

    -- Where the second loop stops is either where the first stopped, or further on than it began.
    later_stop :
        {j' i' : ℕ} → i < j → Down le xs p i j j' → Up le xs p i (j' - i) i' → (i' ≡ j') ⊎ (i < i')
    later_stop {j'} {i'} l d u = elim u.ends [
      | inl e ↦ inl (omega (arith, d.lower))
      | inr (x, ex, f) ↦ elim (dec_lt i i') [
        | yes m ↦ inr m
        | no m ↦ let t = below i' x (omega (arith, u.lower)) (omega arith) ex in absurd (cc)
      ]
    ]

    module _ (l : i < j) {j' i' : ℕ} {ys : List A} (d : Down le xs p i j j')
        (u : Up le xs p i (j' - i) i') (s : Swapped xs i' j' ys) where
      met : i' ≤ j'
      met = omega (arith, u.upper, d.lower)

      -- What the swap puts at the place where the second loop stopped is below the pivot.
      stop_below : (x : A) → get_elem? xs j' ≡ some x → le x p ≡ true
      stop_below x ex = elim d.ends [
        | inl e ↦ below j' x (omega (arith, d.lower)) (omega arith) ex
        | inr (y, ey, f) ↦ let same : y ≡ x = cc in o.total p x (rw same at f)
      ]

      round_below : AllIn lo (suc i') ys (λ x. le x p ≡ true)
      round_below k x q r e = elim (ℕ_discrete i' k) [
        | yes m ↦ elim (ℕ_discrete j' k) [
          | yes n ↦ stop_below x (ground (arith, s.places k))
          | no n ↦ stop_below x (ground (arith, s.places k))
        ]
        | no m ↦ elim (dec_lt i k) [
          | yes n ↦ u.passed k x (omega arith) (omega arith) (ground (arith, s.places k, met))
          | no n ↦
              let first : k < i' = omega (arith, u.lower) in
              below k x q (omega arith) (ground (arith, s.places k, met))
        ]
      ]

      round_above : AllIn (suc j') hi ys (λ x. le p x ≡ true)
      round_above k x q r e = elim (dec_lt j k) [
        | yes n ↦ above k x (omega arith) r (ground (arith, s.places k, met))
        | no n ↦ d.passed k x q (omega arith) (ground (arith, s.places k, met))
      ]

      round_pivot : get_elem? ys lo ≡ some p
      round_pivot = elim (later_stop l d u) [
        | inl e ↦ elim (ℕ_discrete i' lo) [
          | yes n ↦ ground (arith, s.places lo, pivot)
          | no n ↦
              let first : lo < i' = omega (arith, u.lower) in ground (arith, s.places lo, pivot)
        ]
        | inr m ↦ let first : lo < i' = omega arith in ground (arith, s.places lo, met, pivot)
      ]

      round_closer : j' + i < j + i'
      round_closer = elim (later_stop l d u) [
        | inl e ↦ omega (arith, d.lower, d.upper, u.lower)
        | inr m ↦ omega (arith, d.upper)
      ]

      round_lem : Round lo hi xs p i j ys i' j'
      round_lem = record {
        down = d.moves;
        up = u.moves;
        swapped = s.swapped;
        closer = round_closer;
        moved =
            Swapped-Rearranged lo hi (omega (arith, u.lower)) (omega (arith, d.upper, met))
              (omega (arith, d.lower)) (omega (arith, d.upper)) s;
        kept = record {
          fits = omega (arith, s.size);
          from = omega (arith, u.lower);
          apart = met;
          to = omega (arith, d.upper);
          below = round_below;
          above = round_above;
          pivot = round_pivot;
        };
      }

    round : i < j → (ys : List A) × (i' : ℕ) × (j' : ℕ) × Round lo hi xs p i j ys i' j'
    round l =
        let (j', d) = move_down_lem le xs p i j apart (omega arith) in
        let (i', u) = move_up_lem le (j' - i) xs p i (omega (arith, d.lower, d.upper)) in
        let in_range : i' < length xs = omega (arith, u.upper, d.lower, d.upper) in
        let (ys, s) = swap_lem xs i' j' in_range (omega (arith, d.upper)) in
        (ys, i', j', round_lem l d u s)

  pub record Parted (lo hi : ℕ) (xs : List A) (p : A) (ys : List A) (m : ℕ) : Type ℓ where
    pub from : lo ≤ m
    pub to : m < hi
    pub below : AllIn lo m ys (λ x. le x p ≡ true)
    pub above : AllIn (suc m) hi ys (λ x. le p x ≡ true)
    pub pivot : get_elem? ys m ≡ some p
    pub moved : Rearranged lo hi xs ys

  module _ {lo hi : ℕ} {xs ys zs : List A} {p : A} {m : ℕ} (v : Parting lo hi ys p m m)
      (moved : Rearranged lo hi xs ys) (s : Swapped ys lo m zs) where
    -- The pivot goes from the first place to the last of those below it.
    parted_below : AllIn lo m zs (λ x. le x p ≡ true)
    parted_below k x q r e = elim (ℕ_discrete lo k) [
      | yes n ↦
          let taken : get_elem? ys m ≡ some x = ground (arith, s.places k) in
          v.below m x v.from (omega arith) taken
      | no n ↦ v.below k x q (omega arith) (ground (arith, s.places k))
    ]

    parted : Parted lo hi xs p zs m
    parted = record {
      from = v.from;
      to = v.to;
      below = parted_below;
      above = λ k x q r e. v.above k x q r (ground (arith, s.places k, v.from));
      pivot = ground (arith, s.places m, v.pivot);
      moved =
          Rearranged-trans moved
            (Swapped-Rearranged lo hi (omega arith) (omega (arith, v.from, v.to)) v.from v.to s);
    }

  module _ (o : IsOrder le) where
    partition-next :
        (fuel : ℕ) {lo hi : ℕ} {xs ys : List A} {p : A} {i j i' j' : ℕ}
        → i < j
        → Round lo hi xs p i j ys i' j'
        → partition le (suc fuel) xs p i j ≡ partition le fuel ys p i' j'
    unfolding partition
    partition-next fuel l r = ground (arith, r.down, r.up, r.swapped)

    partition-ends :
        (fuel : ℕ) (xs : List A) (p : A) (i j : ℕ)
        → ¬ (i < j)
        → partition le (suc fuel) xs p i j ≡ some (xs, i)
    unfolding partition
    partition-ends fuel xs p i j n = ground arith

    partition_lem :
        (fuel : ℕ) {lo hi : ℕ} {xs : List A} {p : A} {i j : ℕ}
        → j < i + fuel
        → Parting lo hi xs p i j
        → (ys : List A) × (m : ℕ) × (partition le fuel xs p i j ≡ some (ys, m))
          × Parting lo hi ys p m m
          × Rearranged lo hi xs ys
    partition_lem zero h v = absurd (omega (arith, v.apart))
    partition_lem (suc fuel) {lo} {hi} {xs} {p} {i} {j} h v = elim (dec_lt i j) [
      | yes l ↦
          let (ys, i', j', r) = round o v l in
          let (zs, m, e, w, moved) = partition_lem fuel (omega (arith, r.closer)) r.kept in
          (zs, m, partition-next fuel l r ∙ e, w, Rearranged-trans r.moved moved)
      | no n ↦
          let same : j ≡ i = omega (arith, v.apart) in
          (xs, i, partition-ends fuel xs p i j n, rw same at v, Rearranged-refl)
    ]

    pub split_at_pivot_lem :
        (xs : List A) (left stop : ℕ)
        → left + 1 < stop
        → stop ≤ length xs
        → (ys : List A) × (m : ℕ) × (p : A) × (split_at_pivot le xs left stop ≡ some (ys, m))
          × Parted left stop xs p ys m
    unfolding split_at_pivot
    split_at_pivot_lem xs left stop l b =
        let (p, ep) = get_elem?-lt xs left (omega arith) in
        let start : Parting left stop xs p left (stop - 1) = record {
          fits = b;
          from = omega arith;
          apart = omega arith;
          to = omega arith;
          below = λ k x q r e.
              let at : k ≡ left = omega arith in
              let same : p ≡ x = cc (ep, e, at) in rw same (IsOrder-refl o x);
          above = λ k x q r e. absurd (omega arith);
          pivot = ep;
        } in
        let (ys, m, e, v, moved) = partition_lem (stop - left) (omega arith) start in
        let (zs, s) =
          swap_lem ys left m (omega (arith, v.fits, v.to)) (omega (arith, v.fits, v.to)) in
        (zs, m, p, rw (ep, e, s.swapped) refl, parted v moved s)
