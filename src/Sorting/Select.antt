-- ===== src/Sorting/Select.antt =====
-- topkhelper and topK: the elements that are chosen, and that there are enough of them.
use mathlib.Core.List.{Perm}
use cpp_linux_learn.Common.{
  ℕ, zero, suc, ◌+◌, ◌≤◌, ◌<◌, ◌≡◌, refl, sym, ◌∙◌, Bool, true, some, List, [], ◌++◌, length,
  get_elem?, take, drop, take-append-drop, length-take, length-drop, arith,
}
use native.Mathlib.Decide.{dec_lt}
use cpp_linux_learn.Sorting.{topkhelper, top_k, split_at_pivot}
use cpp_linux_learn.Sorting.Places.{
  AllIn, Rearranged, Rearranged-refl, Rearranged-trans, Rearranged-widen, AllIn-Rearranged,
}
use cpp_linux_learn.Sorting.Copies.{copy_from_lem, get_elem?-append_left, get_elem?-append_right}
use cpp_linux_learn.Sorting.Scan.{IsOrder, IsOrder-refl}
use cpp_linux_learn.Sorting.Partition.{Parted, split_at_pivot_lem}

module _ {ℓ} {A : Type ℓ} (le : A → A → Bool) where
  -- No element before `count` is greater than one from `count` on, within a part.
  abbrev pub Divided : ℕ → ℕ → ℕ → List A → Type ℓ
  Divided count lo hi xs =
      (j k : ℕ) (x y : A)
      → lo ≤ j
      → j < count
      → count ≤ k
      → k < hi
      → get_elem? xs j ≡ some x
      → get_elem? xs k ≡ some y
      → le x y ≡ true

  record Selects (fuel : ℕ) (xs : List A) (count left stop : ℕ) (ys : List A) : Type ℓ where
    runs : topkhelper le fuel xs count left stop ≡ some ys
    moved : Rearranged left stop xs ys
    divided : Divided count left stop ys

  module _ (o : IsOrder le) {left stop m : ℕ} {p : A} {xs ys : List A}
      (v : Parted le left stop xs p ys m) where
    low : AllIn left (m + 1) ys (λ x. le x p ≡ true)
    low k x q r e = elim (dec_lt k m) [
      | yes l ↦ v.below k x q l e
      | no n ↦
          let at : k ≡ m = omega arith in
          let same : p ≡ x = cc (v.pivot, e, at) in rw same (IsOrder-refl o x)
    ]

    high : AllIn m stop ys (λ x. le p x ≡ true)
    high k x q r e = elim (dec_lt m k) [
      | yes l ↦ v.above k x (omega arith) r e
      | no n ↦
          let at : k ≡ m = omega arith in
          let same : p ≡ x = cc (v.pivot, e, at) in rw same (IsOrder-refl o x)
    ]

    -- The three ways in which the pivot's place decides.
    pivot_at : {count : ℕ} → m + 1 ≡ count → Divided count left stop ys
    pivot_at h j k x y q l a t ex ey =
        o.trans x p y (low j x q (omega arith) ex) (high k y (omega arith) t ey)

    pivot_before :
        {count : ℕ} {zs : List A}
        → m + 1 < count
        → Rearranged (m + 1) stop ys zs
        → Divided count (m + 1) stop zs
        → Divided count left stop zs
    pivot_before h r d j k x y q l a t ex ey = elim (dec_lt m j) [
      | yes n ↦ d j k x y (omega arith) l a t ex ey
      | no n ↦
          o.trans x p y (low j x q (omega arith) (sym (r.before j (omega arith)) ∙ ex))
            (AllIn-Rearranged r (λ i w c e f. high i w (omega arith) e f) k y (omega arith) t ey)
    ]

    pivot_after :
        {count : ℕ} {zs : List A}
        → count < m + 1
        → Rearranged left m ys zs
        → Divided count left m zs
        → Divided count left stop zs
    pivot_after h r d j k x y q l a t ex ey = elim (dec_lt k m) [
      | yes n ↦ d j k x y q l a n ex ey
      | no n ↦
          o.trans x p y (AllIn-Rearranged r v.below j x q (omega arith) ex)
            (high k y (omega arith) t (sym (r.after k (omega arith)) ∙ ey))
    ]

  module _ (fuel : ℕ) (xs : List A) (count left stop : ℕ) where
    topkhelper-ends : ¬ (left + 1 < stop) → topkhelper le (suc fuel) xs count left stop ≡ some xs
    unfolding topkhelper
    topkhelper-ends n = ground arith

    module _ {ys : List A} {m : ℕ} (l : left + 1 < stop)
        (e : split_at_pivot le xs left stop ≡ some (ys, m)) where
      topkhelper-right :
          m + 1 < count
          → topkhelper le (suc fuel) xs count left stop ≡ topkhelper le fuel ys count (m + 1) stop
      unfolding topkhelper
      topkhelper-right c = ground arith

      topkhelper-left :
          count < m + 1
          → topkhelper le (suc fuel) xs count left stop ≡ topkhelper le fuel ys count left m
      unfolding topkhelper
      topkhelper-left c = ground arith

      topkhelper-done : m + 1 ≡ count → topkhelper le (suc fuel) xs count left stop ≡ some ys
      unfolding topkhelper
      topkhelper-done c = ground arith

  module _ (o : IsOrder le) where
    topkhelper_lem :
        (fuel : ℕ) (xs : List A) (count left stop : ℕ)
        → left ≤ stop
        → stop < left + fuel
        → stop ≤ length xs
        → (ys : List A) × Selects fuel xs count left stop ys
    topkhelper_lem zero xs count left stop g h b = (
      xs,
      record {
        runs = absurd (omega arith);
        moved = Rearranged-refl;
        divided = λ j k x y q l a t ex ey. absurd (omega arith);
      },
    )
    topkhelper_lem (suc fuel) xs count left stop g h b = elim (dec_lt (left + 1) stop) [
      | no n ↦ (
        xs,
        record {
          runs = topkhelper-ends fuel xs count left stop n;
          moved = Rearranged-refl;
          divided = λ j k x y q l a t ex ey. absurd (omega arith);
        },
      )
      | yes l ↦
          let (ys, m, p, e, v) = split_at_pivot_lem le o xs left stop l b in
          elim (dec_lt (m + 1) count) [
            | yes c ↦
                let (zs, r) =
                  topkhelper_lem fuel ys count (m + 1) stop (omega (arith, v.to))
                    (omega (arith, v.from)) (omega (arith, v.moved.size)) in
                (
                  zs,
                  record {
                    runs = topkhelper-right fuel xs count left stop l e c ∙ r.runs;
                    moved = Rearranged-trans v.moved (
                        Rearranged-widen left stop (omega (arith, v.from)) (omega arith)
                          (omega (arith, v.to)) r.moved);
                    divided = pivot_before o v c r.moved r.divided;
                  },
                )
            | no c ↦ elim (dec_lt count (m + 1)) [
              | yes d ↦
                  let (zs, r) =
                    topkhelper_lem fuel ys count left m v.from (omega (arith, v.to))
                      (omega (arith, v.to, v.moved.size)) in
                  (
                    zs,
                    record {
                      runs = topkhelper-left fuel xs count left stop l e d ∙ r.runs;
                      moved = Rearranged-trans v.moved (
                          Rearranged-widen left stop (omega arith) (omega (arith, v.to)) v.from
                            r.moved);
                      divided = pivot_after o v d r.moved r.divided;
                    },
                  )
              | no d ↦ (
                ys,
                record {
                  runs = topkhelper-done fuel xs count left stop l e (omega arith);
                  moved = v.moved;
                  divided = pivot_at o v (omega arith);
                },
              )
            ]
          ]
    ]

  -- The answer of topK on a vector of at least `k` elements, by an order that is total and
  -- transitive: `k` elements that with the others are those of the vector, each as often, and none of
  -- which is greater than one of the others.
  pub record Answer (xs : List A) (k : ℕ) (ans rest ys : List A) : Type ℓ where
    pub returns : top_k le xs k ≡ some (ans, ys)
    pub count : length ans ≡ k
    pub perm : Perm (ans ++ rest) xs
    pub least :
        (j i : ℕ) (x y : A) → get_elem? ans j ≡ some x → get_elem? rest i ≡ some y → le x y ≡ true

  module _ (o : IsOrder le) where
    -- topK of a vector by an order that is total and transitive, for a number of elements that the
    -- vector has, returns an `Answer`: that many elements of the vector, of which none is greater than
    -- one of those left out.
    pub top_k_lem :
        (xs : List A) (k : ℕ)
        → k ≤ length xs
        → (ans : List A) × (rest : List A) × (ys : List A) × Answer xs k ans rest ys
    top_k_lem xs k h =
        let (ys, s) =
          topkhelper_lem o (length xs + 1) xs k 0 (length xs) (omega arith) (omega arith)
            (omega arith) in
        let parts = take-append-drop k ys in
        let many : length (take k ys) ≡ k = omega (arith, length-take k ys) in
        (
          take k ys,
          drop k ys,
          ys,
          record {
            returns =
                unfold top_k in
                rw (s.runs, copy_from_lem k 0 ys (omega (arith, s.moved.size))) refl;
            count = many;
            perm = rw parts s.moved.perm;
            least = λ j i x y ex ey.
                let (b, e) = get_elem?-append_left (take k ys) (drop k ys) j x ex in
                let f = get_elem?-append_right (take k ys) (drop k ys) i in
                let (c, g) = get_elem?-append_left (drop k ys) [] i y ey in
                s.divided j (length (take k ys) + i) x y (omega arith) (omega arith) (omega arith)
                  (omega (arith, length-drop k ys, s.moved.size)) (rw parts at e)
                  (rw parts at (f ∙ ey));
          },
        )
