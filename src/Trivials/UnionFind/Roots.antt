-- ===== src/Trivials/UnionFind/Roots.antt =====
-- The roots of a union-find structure, through path compression and union.
use cpp_linux_learn.Common.{
  ℕ, zero, suc, ◌≤◌, ◌<◌, ◌≡◌, refl, ap, sym, ◌∙◌, subst, true, false, some, List, arith, inl, inr,
  Bool-cases, get_elem?, set, get_elem?-set_self, get_elem?-set_ne, ◌==◌, if◌then◌else◌,
}
use cpp_linux_learn.Trivials.UnionFind.{find, union_val}

-- `r` is the root of `u`, `n` steps up.
pub data Root (vec_fat : List ℕ) : ℕ → ℕ → ℕ → Type 0 where
  here : {u : ℕ} → get_elem? vec_fat u ≡ some u → Root vec_fat u u 0
  up :
      {u p r n : ℕ}
      → get_elem? vec_fat u ≡ some p
      → (p == u) ≡ false
      → Root vec_fat p r n
      → Root vec_fat u r (suc n)

abbrev pub HasRoot : List ℕ → ℕ → ℕ → Type 0
HasRoot vec_fat u r = (n : ℕ) × Root vec_fat u r n

-- The same, in at most `k` steps.
abbrev pub LowRoot : List ℕ → ℕ → ℕ → ℕ → Type 0
LowRoot vec_fat u r k = (n : ℕ) × Root vec_fat u r n × (n ≤ k)

Root-top : {vec_fat : List ℕ} {u r n : ℕ} → Root vec_fat u r n → get_elem? vec_fat r ≡ some r
Root-top (here e) = e
Root-top (up e ne h) = Root-top h

Root-unique : {vec_fat : List ℕ} {u r s n k : ℕ} → Root vec_fat u r n → Root vec_fat u s k → r ≡ s
Root-unique (here e) (here f) = refl
Root-unique (here e) (up f ne h) = absurd (ground (arith, e, f, ne))
Root-unique (up e ne h) (here f) = absurd (ground (arith, e, f, ne))
Root-unique {vec_fat} {u} {r} {s} (up {p = p} {n = n} e ne h) (up {p = q} f ne' g) =
    let same : p ≡ q = ground (arith, e, f) in
    Root-unique (subst (λ x. Root vec_fat x r n) same h) g

-- An element that is not written to keeps its parent.
get-elsewhere :
    (vec_fat : List ℕ) (x : ℕ) {p : ℕ} (u r : ℕ)
    → get_elem? vec_fat x ≡ some p
    → (x == u) ≡ false
    → get_elem? (set vec_fat u r) x ≡ some p
get-elsewhere vec_fat x u r e ne =
    get_elem?-set_ne vec_fat u x r (λ f. absurd (ground (arith, f, ne))) ∙ e

get-written :
    (vec_fat : List ℕ) (x : ℕ) {p : ℕ} (u r : ℕ)
    → get_elem? vec_fat x ≡ some p
    → (x == u) ≡ true
    → get_elem? (set vec_fat u r) x ≡ some r
get-written vec_fat x {p} u r e eq =
    let same : x ≡ u = ground (arith, eq) in
    subst (λ y. get_elem? (set vec_fat u r) y ≡ some r) (sym same)
      (get_elem?-set_self vec_fat u p r (ap (get_elem? vec_fat) (sym same) ∙ e))

-- Path compression: writing its root to an element changes the root of none.
set-HasRoot :
    {vec_fat : List ℕ} {u r m x s k : ℕ}
    → Root vec_fat u r m
    → Root vec_fat x s k
    → LowRoot (set vec_fat u r) x s k
set-HasRoot {vec_fat} {u} {r} {m} {x} hu (here e) = elim (Bool-cases (x == u)) [
  | inl eq ↦
      let same : x ≡ u = ground (arith, eq) in
      let root : r ≡ x = Root-unique (subst (λ y. Root vec_fat y r m) (sym same) hu) (here e) in
      (0, here (get-written vec_fat x u r e eq ∙ ap some root), omega arith)
  | inr ne ↦ (0, here (get-elsewhere vec_fat x u r e ne), omega arith)
]
set-HasRoot {vec_fat} {u} {r} {m} {x} {s} {k} hu (up {p = p} {n = k'} e ne g) =
    elim (Bool-cases (x == u)) [
      | inl eq ↦
          let same : x ≡ u = ground (arith, eq) in
          let root : r ≡ s =
            Root-unique (subst (λ y. Root vec_fat y r m) (sym same) hu) (up e ne g) in
          let differ : (r == x) ≡ false = ground (arith, Root-top hu, e, ne) in
          let differ' : (r == u) ≡ false = ground (arith, differ, same) in
          subst (λ y. LowRoot (set vec_fat u r) x y (suc k')) root
            (
              1,
              up (get-written vec_fat x u r e eq) differ
                  (here (get-elsewhere vec_fat r u r (Root-top hu) differ')),
              omega arith,
            )
      | inr off ↦
          let (n, h, low) = set-HasRoot hu g in
          (suc n, up (get-elsewhere vec_fat x u r e off) ne h, omega (arith, low))
    ]

-- Linking: writing one root to another moves the elements of the second, and no others.
link-HasRoot :
    {vec_fat : List ℕ} {u r x s k : ℕ}
    → get_elem? vec_fat u ≡ some u
    → get_elem? vec_fat r ≡ some r
    → Root vec_fat x s k
    → HasRoot (set vec_fat u r) x (if s == u then r else s)
link-HasRoot {vec_fat} {u} {r} {x} at_u at_r (here e) = elim (Bool-cases (x == u)) [
  | inl eq ↦ rw eq (elim (Bool-cases (r == u)) [
    | inl eq' ↦
        let same : x ≡ r = ground (arith, eq, eq') in
        (
          0,
          subst (λ y. Root (set vec_fat u r) x y 0) same
              (here (get-written vec_fat x u r e eq ∙ ap some (sym same))),
        )
    | inr ne ↦
        let differ : (r == x) ≡ false = ground (arith, eq, ne) in
        (1, up (get-written vec_fat x u r e eq) differ (here (get-elsewhere vec_fat r u r at_r ne)))
  ])
  | inr ne ↦ rw ne (0, here (get-elsewhere vec_fat x u r e ne))
]
link-HasRoot {vec_fat} {u} {r} {x} at_u at_r (up {p = p} e ne g) =
    let off : (x == u) ≡ false = elim (Bool-cases (x == u)) [
      | inl eq ↦
          let same : x ≡ u = ground (arith, eq) in
          absurd (ground (arith, ap (get_elem? vec_fat) same ∙ at_u, same, e, ne))
      | inr off ↦ off
    ] in
    let (n, h) = link-HasRoot at_u at_r g in (suc n, up (get-elsewhere vec_fat x u r e off) ne h)

find-LowRoot :
    (fuel : ℕ) (vec_fat : List ℕ) (u r n : ℕ)
    → Root vec_fat u r n
    → n < fuel
    → (vec_fat' : List ℕ) × (find fuel vec_fat u ≡ some (r, vec_fat'))
      × ((x s k : ℕ) → Root vec_fat x s k → LowRoot vec_fat' x s k)
unfolding find
find-LowRoot zero vec_fat u r n h l = absurd (omega arith)
find-LowRoot (suc fuel) vec_fat u r n (here e) l =
    (vec_fat, ground (arith, e), λ x s k g. (k, g, omega arith))
find-LowRoot (suc fuel) vec_fat u r n (up {p = p} {n = m} e ne h) l =
    let (vec_fat', f, keep) = find-LowRoot fuel vec_fat p r m h (omega arith) in
    let (j, hu, _) = keep u r (suc m) (up e ne h) in
    (
      set vec_fat' u r,
      ground (arith, e, ne, f),
      λ x s k g.
          (let (i, h', low) = keep x s k g in
            let (i', h'', low') = set-HasRoot hu h' in (i', h'', omega (arith, low, low'))),
    )

-- `find` on an element that has a root, with fuel for the steps to it, returns that root, and any
-- other element keeps its root, in no more steps.
pub find-HasRoot :
    (fuel : ℕ) (vec_fat : List ℕ) (u r n x s k : ℕ)
    → Root vec_fat u r n
    → n < fuel
    → Root vec_fat x s k
    → (vec_fat' : List ℕ) × (find fuel vec_fat u ≡ some (r, vec_fat')) × LowRoot vec_fat' x s k
find-HasRoot fuel vec_fat u r n x s k h l g =
    let (vec_fat', f, keep) = find-LowRoot fuel vec_fat u r n h l in (vec_fat', f, keep x s k g)

-- `unionVal` of two elements that have roots, with fuel for the steps to them, puts the set of the
-- second under the root of the first: an element whose root was that of the second has the root of
-- the first now, and any other keeps its own.
pub union_val-HasRoot :
    (fuel u v : ℕ) (vec_fat : List ℕ) (ru rv n m x s k : ℕ)
    → Root vec_fat u ru n
    → Root vec_fat v rv m
    → n < fuel
    → m < fuel
    → Root vec_fat x s k
    → (vec_fat' : List ℕ) × (union_val fuel u v vec_fat ≡ some vec_fat')
      × HasRoot vec_fat' x (if s == rv then ru else s)
unfolding union_val
union_val-HasRoot fuel u v vec_fat ru rv n m x s k hu hv l l' hx =
    let (fat1, f1, keep1) = find-LowRoot fuel vec_fat u ru n hu l in
    let (m1, hv1, low1) = keep1 v rv m hv in
    let (fat2, f2, keep2) = find-LowRoot fuel fat1 v rv m1 hv1 (omega (arith, low1, l')) in
    let (n1, hu1, _) = keep1 u ru n hu in
    let (n2, hu2, _) = keep2 u ru n1 hu1 in
    let (m2, hv2, _) = keep2 v rv m1 hv1 in
    let (k1, hx1, _) = keep1 x s k hx in
    let (k2, hx2, _) = keep2 x s k1 hx1 in
    (set fat2 rv ru, ground (arith, f1, f2), link-HasRoot (Root-top hv2) (Root-top hu2) hx2)
