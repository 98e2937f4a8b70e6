-- ===== src/Sorting/Quick.antt =====
-- quickSort: with fuel for the size of the part it ends, rearranges the part and leaves it ascending.
use mathlib.Core.List.{Perm}
use cpp_linux_learn.Common.{
  ℕ, zero, suc, ◌+◌, ◌≤◌, ◌<◌, ◌≡◌, sym, ◌∙◌, Bool, true, some, List, length, get_elem?, arith,
}
use native.Mathlib.Decide.{dec_lt}
use cpp_linux_learn.Sorting.{quick_sort, sort_all, split_at_pivot}
use cpp_linux_learn.Sorting.Places.{
  AllIn, Rearranged, Rearranged-refl, Rearranged-trans, Rearranged-widen, AllIn-Rearranged,
}
use cpp_linux_learn.Sorting.Scan.{IsOrder, IsOrder-refl}
use cpp_linux_learn.Sorting.Partition.{Parted, split_at_pivot_lem}

module _ {ℓ} {A : Type ℓ} (le : A → A → Bool) where
  -- No element from `lo` on and before `hi` stands behind a greater one.
  abbrev pub Ascending : ℕ → ℕ → List A → Type ℓ
  Ascending lo hi xs =
      (j k : ℕ) (x y : A)
      → lo ≤ j
      → j < k
      → k < hi
      → get_elem? xs j ≡ some x
      → get_elem? xs k ≡ some y
      → le x y ≡ true

  record Sorts (fuel : ℕ) (xs : List A) (left stop : ℕ) (ys : List A) : Type ℓ where
    runs : quick_sort le fuel xs left stop ≡ some ys
    moved : Rearranged left stop xs ys
    ascending : Ascending left stop ys

  module _ (o : IsOrder le) {left stop m : ℕ} {p : A} {xs ys zs us : List A} where
    -- Both parts in order, with the pivot between them, are in order.
    parts-Ascending :
        Parted le left stop xs p ys m
        → Rearranged left m ys zs
        → Ascending left m zs
        → Rearranged (m + 1) stop zs us
        → Ascending (m + 1) stop us
        → Ascending left stop us
    parts-Ascending v r a s b j k x y q l t ex ey = elim (dec_lt m j) [
      | yes n ↦ b j k x y (omega arith) l t ex ey
      | no n ↦ elim (dec_lt k m) [
        | yes l' ↦
            a j k x y q l l' (sym (s.before j (omega arith)) ∙ ex)
              (sym (s.before k (omega arith)) ∙ ey)
        | no n' ↦ o.trans x p y (low (omega arith)) (high (omega arith))
      ]
    ]
      where
        pivot : get_elem? us m ≡ some p
        pivot = s.before m (omega arith) ∙ (r.after m (omega arith) ∙ v.pivot)

        low : j ≤ m → le x p ≡ true
        low c = elim (dec_lt j m) [
          | yes l' ↦ AllIn-Rearranged r v.below j x q l' (sym (s.before j (omega arith)) ∙ ex)
          | no n' ↦
              let at : j ≡ m = omega arith in
              let same : p ≡ x = cc (pivot, ex, at) in rw same (IsOrder-refl o x)
        ]

        above : AllIn (m + 1) stop zs (λ w. le p w ≡ true)
        above i w c d e = v.above i w (omega arith) d (sym (r.after i (omega arith)) ∙ e)

        high : m ≤ k → le p y ≡ true
        high c = elim (dec_lt m k) [
          | yes l' ↦ AllIn-Rearranged s above k y (omega arith) t ey
          | no n' ↦
              let at : k ≡ m = omega arith in
              let same : p ≡ y = cc (pivot, ey, at) in rw same (IsOrder-refl o y)
        ]

  module _ (fuel : ℕ) (xs : List A) (left stop : ℕ) where
    quick_sort-ends : ¬ (left + 1 < stop) → quick_sort le (suc fuel) xs left stop ≡ some xs
    unfolding quick_sort
    quick_sort-ends n = ground arith

    quick_sort-next :
        {ys zs : List A} {m : ℕ}
        → left + 1 < stop
        → split_at_pivot le xs left stop ≡ some (ys, m)
        → quick_sort le fuel ys left m ≡ some zs
        → quick_sort le (suc fuel) xs left stop ≡ quick_sort le fuel zs (m + 1) stop
    unfolding quick_sort
    quick_sort-next l e f = ground arith

  module _ (o : IsOrder le) where
    quick_sort_lem :
        (fuel : ℕ) (xs : List A) (left stop : ℕ)
        → left ≤ stop
        → stop < left + fuel
        → stop ≤ length xs
        → (ys : List A) × Sorts fuel xs left stop ys
    quick_sort_lem zero xs left stop c h b = (
      xs,
      record {
        runs = absurd (omega arith);
        moved = Rearranged-refl;
        ascending = λ j k x y q l t ex ey. absurd (omega arith);
      },
    )
    quick_sort_lem (suc fuel) xs left stop c h b = elim (dec_lt (left + 1) stop) [
      | no n ↦ (
        xs,
        record {
          runs = quick_sort-ends fuel xs left stop n;
          moved = Rearranged-refl;
          ascending = λ j k x y q l t ex ey. absurd (omega arith);
        },
      )
      | yes l ↦
          let (ys, m, p, e, v) = split_at_pivot_lem le o xs left stop l b in
          let (zs, r) =
            quick_sort_lem fuel ys left m v.from (omega (arith, v.to))
              (omega (arith, v.to, v.moved.size)) in
          let (us, s) =
            quick_sort_lem fuel zs (m + 1) stop (omega (arith, v.to)) (omega (arith, v.from))
              (omega (arith, v.moved.size, r.moved.size)) in
          (
            us,
            record {
              runs = quick_sort-next fuel xs left stop l e r.runs ∙ s.runs;
              moved = Rearranged-trans v.moved (
                  Rearranged-trans
                    (Rearranged-widen left stop (omega arith) (omega (arith, v.to)) v.from r.moved)
                    (Rearranged-widen left stop (omega (arith, v.from)) (omega arith)
                      (omega (arith, v.to)) s.moved));
              ascending = parts-Ascending o v r.moved r.ascending s.moved s.ascending;
            },
          )
    ]

    -- quickSort of a whole vector, as `main` calls it, by an order that is total and transitive ends
    -- with no access outside the vector. The result has the same elements, each as often, and no
    -- element behind a greater one.
    pub sort_all_lem :
        (xs : List A)
        → (ys : List A) × (sort_all le xs ≡ some ys) × Perm ys xs × Ascending 0 (length ys) ys
    unfolding sort_all
    sort_all_lem xs =
        let (ys, s) =
          quick_sort_lem (length xs + 1) xs 0 (length xs) (omega arith) (omega arith)
            (omega arith) in
        (ys, s.runs, s.moved.perm, rw (s.moved.size) s.ascending)
