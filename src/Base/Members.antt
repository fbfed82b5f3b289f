-- ===== src/Base/Members.antt =====
-- Lists of addresses without repetition.
use Prim.Native.Nat.{ℕ}
use mathlib.Core.Path.{◌≡◌, refl}
use mathlib.Core.Logic.{◌≢◌, inl, inr}
use mathlib.Core.Bool.{Bool, true, false, ◌||◌}
use mathlib.Core.List.{List, [], ◌∷◌, ◌++◌}
use native.Mathlib.Omega.{arith}
use banj_os.Base.Test.{◌==◌, if◌then◌else◌, Bool-cases}

abbrev pub has : ℕ → List ℕ → Bool
has a [] = false
has a (x ∷ xs) = (x == a) || has a xs

abbrev pub Distinct : List ℕ → Type 0
Distinct [] = Unit {0}
Distinct (x ∷ xs) = (has x xs ≡ false) × Distinct xs

pub has-append : (a : ℕ) (xs ys : List ℕ) → has a (xs ++ ys) ≡ (has a xs || has a ys)
has-append a [] ys = refl
has-append a (x ∷ xs) ys = ground (arith, has-append a xs ys)

-- A node outside a list is no node of it.
pub ne_of_mem : (q p : ℕ) (xs : List ℕ) → has q xs ≡ false → has p xs ≡ true → q ≢ p
ne_of_mem q p xs h i = ground arith

-- The list without its first `n`.
unfoldable pub erase : ℕ → List ℕ → List ℕ
erase n [] = []
erase n (x ∷ xs) = if x == n then xs else x ∷ erase n xs

pub has-erase : (a n : ℕ) (xs : List ℕ) → has a xs ≡ false → has a (erase n xs) ≡ false
unfolding erase
has-erase a n [] h = refl
has-erase a n (x ∷ xs) h = ground (arith, has-erase a n xs)

pub Distinct-erase : (n : ℕ) (xs : List ℕ) → Distinct xs → Distinct (erase n xs)
unfolding erase
Distinct-erase n [] d = tt
Distinct-erase n (x ∷ xs) d = elim (Bool-cases (x == n)) [
  | inl e ↦ rw e d.1
  | inr e ↦ rw e (has-erase x n xs d.0, Distinct-erase n xs d.1)
]

pub erase_self : (n : ℕ) (xs : List ℕ) → Distinct xs → has n (erase n xs) ≡ false
unfolding erase
erase_self n [] d = refl
erase_self n (x ∷ xs) d = ground (arith, erase_self n xs)

pub erase-head : (x : ℕ) (xs : List ℕ) → erase x (x ∷ xs) ≡ xs
unfolding erase
erase-head x xs = ground arith
