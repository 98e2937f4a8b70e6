-- ===== src/Common/Text.antt =====
-- Text as the list of its bytes, and C strings.
use Prim.Native.Char.{code}
use Prim.Native.String.{String}
use Prim.Native.Nat.{ℕ}
use mathlib.Core.Bool.{Bool, true, false}
use mathlib.Core.List.{List, [], ◌∷◌}
use mathlib.Core.Option.{Option, none, some}
use mathlib.Core.Path.{◌≡◌, refl}
use native.Mathlib.Omega.{arith}
use cpp_linux_learn.Common.Tests.{◌>>=◌, ◌==◌, if◌then◌else◌}

abbrev pub codes : String → List ℕ
codes String.[] = []
codes (String.◌∷◌ c s) = code c ∷ codes s

-- `std::string(p)`: the bytes before the first 0, which has to come before the end of the memory.
abbrev pub c_string : List ℕ → Option (List ℕ)
c_string [] = none
c_string (b ∷ bs) =
    let rest = c_string bs in if b == 0 then some [] else (rest >>= λ s. some (b ∷ s))

-- `c_str()` read by a function that stops at the first 0.
abbrev pub until_nul : List ℕ → List ℕ
until_nul [] = []
until_nul (b ∷ bs) = let rest = until_nul bs in if b == 0 then [] else b ∷ rest

infix 50 ◌=ᵇ◌
abbrev pub ◌=ᵇ◌ : List ℕ → List ℕ → Bool
[] =ᵇ [] = true
[] =ᵇ (y ∷ ys) = false
(x ∷ xs) =ᵇ [] = false
(x ∷ xs) =ᵇ (y ∷ ys) = let rest = xs =ᵇ ys in if x == y then rest else false

pub eq_self : (xs : List ℕ) → (xs =ᵇ xs) ≡ true
eq_self [] = refl
eq_self (x ∷ xs) = ground (arith, eq_self xs)

pub eq-≡ : (xs ys : List ℕ) → (xs =ᵇ ys) ≡ true → xs ≡ ys
eq-≡ [] [] h = refl
eq-≡ [] (y ∷ ys) h = absurd (cc h)
eq-≡ (x ∷ xs) [] h = absurd (cc h)
eq-≡ (x ∷ xs) (y ∷ ys) h = ground (arith, eq-≡ xs ys)
