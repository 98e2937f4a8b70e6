-- ===== src/Solcom/CachedBuffer/Window.antt =====
-- The elements that a ring holds from a position on, for any capacity.
use native.Mathlib.Nat.{mod-add-mod, mod-eq_of_lt, mod-eq-sub-mod, mod-lt}
use native.Mathlib.Decide.{dec_lt}
use cpp_linux_learn.Common.{
  ℕ, zero, suc, ◌+◌, ◌-◌, ◌%◌, ◌<◌, ◌≡◌, ◌≢◌, refl, ap, ap₂, sym, ◌∙◌, List, [], ◌∷◌, ◌++◌, arith,
  length, get_or, set, get_or-set_self, get_or-set_ne,
}

module _ {ℓ} {A : Type ℓ} (d : A) (elements : List A) (capacity : ℕ) where
  -- `n` elements, the first in the slot of position `p`.
  abbrev pub window : ℕ → ℕ → List A
  window p zero = []
  window p (suc n) = get_or elements (p % capacity) d ∷ window (p + 1) n

  -- Only the slot of the position counts.
  pub window_mod : (p q n : ℕ) → p % capacity ≡ q % capacity → window p n ≡ window q n
  window_mod p q zero e = refl
  window_mod p q (suc n) e =
      ap₂ ◌∷◌ (ap (λ i. get_or elements i d) e) (window_mod (p + 1) (q + 1) n next)
    where
      next : (p + 1) % capacity ≡ (q + 1) % capacity
      next =
          sym (mod-add-mod p capacity 1)
          ∙ ap (λ (t : ℕ). (t + 1) % capacity) e
          ∙ mod-add-mod q capacity 1

  pub length-window : (p n : ℕ) → length (window p n) ≡ n
  length-window p zero = refl
  length-window p (suc n) = ap suc (length-window (p + 1) n)

-- Two positions less than the capacity apart have different slots.
slots-ne : (capacity p j : ℕ) → 0 < j → j < capacity → (p + j) % capacity ≢ p % capacity
slots-ne capacity p j pos small =
    rw (sym (mod-add-mod p capacity j)) (apart (p % capacity) (mod-lt p (omega arith)))
  where
    apart : (r : ℕ) → r < capacity → (r + j) % capacity ≢ r
    apart r h = elim (dec_lt (r + j) capacity) [
      | yes lt ↦ omega (arith, mod-eq_of_lt lt)
      | no ge ↦ omega (
        arith,
        mod-eq-sub-mod {n = r + j} {m = capacity} (omega arith),
        mod-eq_of_lt {n = r + j - capacity} {m = capacity} (omega arith),
      )
    ]

-- A write to the slot behind a window that is not full makes it longer by that element.
pub window-set {ℓ} :
    {A : Type ℓ} (d : A) (elements : List A) (capacity : ℕ) (x : A) (n p i : ℕ)
    → length elements ≡ capacity
    → n < capacity
    → i ≡ (p + n) % capacity
    → window d (set elements i x) capacity p (suc n) ≡ window d elements capacity p n ++ x ∷ []
window-set d elements capacity x zero p i l h e =
    let e' : p % capacity ≡ i = sym (e ∙ ap (λ (t : ℕ). t % capacity) (omega arith)) in
    rw (e', get_or-set_self elements i x d (omega (arith, mod-lt (p + 0) {m = capacity} h)))
window-set d elements capacity x (suc n) p i l h e =
    ap₂ ◌∷◌
      (get_or-set_ne elements i (p % capacity) x d
        (λ q. slots-ne capacity p (suc n) (omega arith) h (sym e ∙ q)))
      (window-set d elements capacity x n (p + 1) i l (omega arith)
        (e ∙ ap (λ (t : ℕ). t % capacity) (omega arith)))
