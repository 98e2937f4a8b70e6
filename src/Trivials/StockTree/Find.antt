-- ===== src/Trivials/StockTree/Find.antt =====
-- The prefix tree is a set of codes.
use cpp_linux_learn.Common.{
  ℕ, zero, suc, ◌-◌, ◌≤◌, ◌<◌, ◌≡◌, ◌≢◌, refl, ap, sym, ◌∙◌, Bool, true, false, Option, none, some,
  List, [], ◌∷◌, length, ◌==◌, arith, inl, inr, Bool-cases, if◌then◌else◌,
}
use cpp_linux_learn.Trivials.StockTree.{
  Node, node, Children, nulls, null, child, new_node, get_child, set_child, child_index, find,
  child_or_new, insert_from, insert,
}

-- A string of digits.
abbrev pub IsCode : List ℕ → Type 0
IsCode [] = Unit {0}
IsCode (c ∷ code) = (48 ≤ c) × (c ≤ 57) × IsCode code

abbrev pub same_code : List ℕ → List ℕ → Bool
same_code [] [] = true
same_code [] (d ∷ ds) = false
same_code (c ∷ cs) [] = false
same_code (c ∷ cs) (d ∷ ds) = let rest = same_code cs ds in if c == d then rest else false

get_child-set_child_self :
    (cs : Children) (k : ℕ) (m : Node) → get_child (set_child cs k m) k ≡ some m
unfolding get_child set_child
get_child-set_child_self nulls zero m = refl
get_child-set_child_self nulls (suc k) m = get_child-set_child_self nulls k m
get_child-set_child_self (null cs) zero m = refl
get_child-set_child_self (null cs) (suc k) m = get_child-set_child_self cs k m
get_child-set_child_self (child n cs) zero m = refl
get_child-set_child_self (child n cs) (suc k) m = get_child-set_child_self cs k m

get_child-set_child_ne :
    (cs : Children) (k j : ℕ) (m : Node) → k ≢ j → get_child (set_child cs k m) j ≡ get_child cs j
unfolding get_child set_child
get_child-set_child_ne cs zero zero m h = absurd (h refl)
get_child-set_child_ne nulls zero (suc j) m h = refl
get_child-set_child_ne nulls (suc k) zero m h = refl
get_child-set_child_ne nulls (suc k) (suc j) m h =
    get_child-set_child_ne nulls k j m (λ e. h (ap suc e))
get_child-set_child_ne (null cs) zero (suc j) m h = refl
get_child-set_child_ne (null cs) (suc k) zero m h = refl
get_child-set_child_ne (null cs) (suc k) (suc j) m h =
    get_child-set_child_ne cs k j m (λ e. h (ap suc e))
get_child-set_child_ne (child n cs) zero (suc j) m h = refl
get_child-set_child_ne (child n cs) (suc k) zero m h = refl
get_child-set_child_ne (child n cs) (suc k) (suc j) m h =
    get_child-set_child_ne cs k j m (λ e. h (ap suc e))

child_index-digit : (c : ℕ) → 48 ≤ c → c ≤ 57 → child_index c ≡ some (c - 48)
unfolding child_index
child_index-digit c l h = ground arith

find-new_node : (code : List ℕ) → IsCode code → find new_node code ≡ some false
unfolding find new_node get_child
find-new_node [] i = refl
find-new_node (c ∷ code) (l, h, i) = rw (child_index-digit c l h, find) refl

-- The child that a code goes on at, found or new, answers like the place it was taken from.
find-child_or_new :
    (o : Option Node) (code : List ℕ)
    → IsCode code
    → find (child_or_new o) code ≡ elim o [ none ↦ some false | some m ↦ find m code ]
find-child_or_new none code i = find-new_node code i
find-child_or_new (some m) code i = refl

abbrev find_below : Option Node → List ℕ → Option Bool
find_below o code = elim o [ none ↦ some false | some m ↦ find m code ]

find-node :
    (v : Option (List ℕ)) (cs : Children) (c : ℕ) (code : List ℕ)
    → 48 ≤ c
    → c ≤ 57
    → find (node v cs) (c ∷ code) ≡ find_below (get_child cs (c - 48)) code
unfolding find
find-node v cs c code l h = rw (child_index-digit c l h, find) refl

find-node_end : (v : Option (List ℕ)) (cs ds : Children) → find (node v cs) [] ≡ find (node v ds) []
unfolding find
find-node_end none cs ds = refl
find-node_end (some x) cs ds = refl

-- An answer below the child that was written, and below another.
find-set_child :
    (v : Option (List ℕ)) (cs : Children) (c d : ℕ) (m : Node) (other : List ℕ)
    → 48 ≤ c
    → 48 ≤ d
    → d ≤ 57
    → find (node v (set_child cs (c - 48) m)) (d ∷ other)
      ≡ (if c == d then find m other else find (node v cs) (d ∷ other))
find-set_child v cs c d m other l l' h' =
    find-node v (set_child cs (c - 48) m) d other l' h' ∙ elim (Bool-cases (c == d)) [
      | inl e ↦
          let same : d - 48 ≡ c - 48 = ground (arith, e) in
          rw e (
            ap (λ k. find_below (get_child (set_child cs (c - 48) m) k) other) same
            ∙ ap (λ o. find_below o other) (get_child-set_child_self cs (c - 48) m))
      | inr e ↦
          let differ : c - 48 ≢ d - 48 = λ x. absurd (ground (arith, e, x, l, l')) in
          rw e (
            ap (λ o. find_below o other) (get_child-set_child_ne cs (c - 48) (d - 48) m differ)
            ∙ sym (find-node v cs d other l' h'))
    ]

find-insert_from :
    (whole : List ℕ) (t : Node) (code other : List ℕ)
    → 0 < length whole
    → IsCode code
    → IsCode other
    → (t' : Node) × (insert_from whole t code ≡ some t')
      × (find t' other ≡ (if same_code code other then some true else find t other))
unfolding insert_from find
find-insert_from whole (node v cs) [] [] n i j = (node (some whole) cs, ground arith, refl)
find-insert_from whole (node v cs) [] (d ∷ other) n i j = (node (some whole) cs, ground arith, refl)
find-insert_from whole (node v cs) (c ∷ code) [] n (l, h, i) j =
    let (m, e, _) = find-insert_from whole (child_or_new (get_child cs (c - 48))) code [] n i tt in
    let t' = node v (set_child cs (c - 48) m) in
    (t', ground (arith, child_index-digit c l h, e), find-node_end v (set_child cs (c - 48) m) cs)
find-insert_from whole (node v cs) (c ∷ code) (d ∷ other) n (l, h, i) (l', h', j) =
    let o = get_child cs (c - 48) in
    let (m, e, f) = find-insert_from whole (child_or_new o) code other n i j in
    let t' = node v (set_child cs (c - 48) m) in
    (
      t',
      ground (arith, child_index-digit c l h, e),
      find-set_child v cs c d m other l l' h' ∙ elim (Bool-cases (c == d)) [
        | inl g ↦
            let same : c - 48 ≡ d - 48 = ground (arith, g) in
            let below : find (child_or_new o) other ≡ find (node v cs) (d ∷ other) =
              find-child_or_new o other j
              ∙ ap (λ k. find_below (get_child cs k) other) same
              ∙ sym (find-node v cs d other l' h') in
            rw g (f ∙ ap (λ x. if same_code code other then some true else x) below)
        | inr g ↦ rw g refl
      ],
    )

-- Inserting a code that is not empty succeeds, and then exactly this code and those that were found
-- before are found.
pub find-insert :
    (t : Node) (code other : List ℕ)
    → 0 < length code
    → IsCode code
    → IsCode other
    → (t' : Node) × (insert t code ≡ some t')
      × (find t' other ≡ (if same_code code other then some true else find t other))
unfolding insert
find-insert t code other n i j = find-insert_from code t code other n i j
