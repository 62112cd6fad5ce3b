-- ===== src/Prelude/Lists.antt =====
-- Lists measured and indexed by native numbers, filtered by Boolean tests.
use Prim.Native.Nat.{ℕ, zero, suc, ◌+◌, ◌≤◌}
use mathlib.Core.Path.{◌≡◌, refl, ap}
use mathlib.Core.Logic.{inl, inr}
use mathlib.Core.Bool.{Bool, true, false, ◌||◌}
use mathlib.Core.List.{List, [], ◌∷◌, ◌++◌}
use mathlib.Core.Option.{Option, none, some}
use native.Mathlib.Omega.{arith}
use gitna.Prelude.Tests.{if◌then◌else◌, Bool-cases}

module _ {ℓ} {A : Type ℓ} where
  abbrev pub length : List A → ℕ
  length [] = 0
  length (x ∷ xs) = suc (length xs)

  abbrev pub get_elem? : List A → ℕ → Option A
  get_elem? [] i = none
  get_elem? (x ∷ xs) zero = some x
  get_elem? (x ∷ xs) (suc i) = get_elem? xs i

  -- `xs.at(-1)`
  abbrev pub get_last? : List A → Option A
  get_last? [] = none
  get_last? (x ∷ []) = some x
  get_last? (x ∷ y ∷ xs) = get_last? (y ∷ xs)

  -- `xs.filter(p)`
  abbrev pub keep : (A → Bool) → List A → List A
  keep p [] = []
  keep p (x ∷ xs) = let rest = keep p xs in if p x then x ∷ rest else rest

  -- `xs.find(p)`
  abbrev pub find_first : (A → Bool) → List A → Option A
  find_first p [] = none
  find_first p (x ∷ xs) = let rest = find_first p xs in if p x then some x else rest

  -- `xs.some(p)`
  abbrev pub any_of : (A → Bool) → List A → Bool
  any_of p [] = false
  any_of p (x ∷ xs) = p x || any_of p xs

  abbrev pub All {κ} : (A → Type κ) → List A → Type κ
  All P [] = Unit
  All P (x ∷ xs) = P x × All P xs

  pub length-append : (xs ys : List A) → length (xs ++ ys) ≡ length xs + length ys
  length-append [] ys = omega arith
  length-append (x ∷ xs) ys = omega (arith, length-append xs ys)

  pub length-keep-le : (p : A → Bool) (xs : List A) → length (keep p xs) ≤ length xs
  length-keep-le p [] = omega arith
  length-keep-le p (x ∷ xs) = ground (arith, length-keep-le p xs)

module _ {A : Type 0} where
  -- `find` returns the first element that passes, and nothing when none passes.
  abbrev pub FindsFirst : (A → Bool) → List A → Option A → Type 0
  FindsFirst p xs none = All (λ x. p x ≡ false) xs
  FindsFirst p xs (some x) =
      (before : List A) × (after : List A) × (xs ≡ before ++ x ∷ after)
      × (p x ≡ true)
      × All (λ y. p y ≡ false) before

  pub FindsFirst-cons :
      (p : A → Bool) (y : A) (xs : List A) (o : Option A)
      → p y ≡ false
      → FindsFirst p xs o
      → FindsFirst p (y ∷ xs) o
  FindsFirst-cons p y xs none no_y f = (no_y, f)
  FindsFirst-cons p y xs (some x) no_y f = (y ∷ f.0, f.1, ap (◌∷◌ y) f.2, f.3, (no_y, f.4))

  pub find_first-FindsFirst : (p : A → Bool) (xs : List A) → FindsFirst p xs (find_first p xs)
  find_first-FindsFirst p [] = tt
  find_first-FindsFirst p (x ∷ xs) = elim (Bool-cases (p x)) [
    | inl here ↦ rw here ([], xs, refl, here, tt)
    | inr later ↦ rw later (FindsFirst-cons p x xs _ later (find_first-FindsFirst p xs))
  ]
