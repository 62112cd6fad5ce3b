-- ===== src/FileTrees/Names.antt =====
-- The name that a file gets in a list is not used by another file.
use gitna.Prelude.{
  Bool-cases, length-keep-le, text_dec, arith, includes, includes, ◌≡◌, ℕ, zero, suc, ◌≤◌, ◌<◌,
  List, [], ◌∷◌, ◌++◌, refl, Text, true, false, inl, inr, leb, keep, length,
}
use gitna.FileTrees.{invisible_separator, unused_name}

-- How many of the names are at least so long.
count_long : ℕ → List Text → ℕ
count_long n used = length (keep (λ t. leb n (length t)) used)

count_long-le : (n : ℕ) (used : List Text) → count_long (suc n) used ≤ count_long n used
unfolding count_long
count_long-le n [] = omega arith
count_long-le n (t ∷ used) = ground (arith, count_long-le n used)

-- A name that is used is as long as itself, and not longer.
count_long-lt :
    (name : Text) (used : List Text)
    → includes used name ≡ true
    → count_long (suc (length name)) used < count_long (length name) used
unfolding count_long
count_long-lt name [] h = ground arith
count_long-lt name (t ∷ used) h = elim (text_dec t name) [
  | yes same ↦ rw same (ground (arith, count_long-le (length name) used))
  | no other ↦ ground (arith, count_long-lt name used, count_long-le (length name) used)
]

length-snoc : (name : Text) (c : ℕ) → length (name ++ c ∷ []) ≡ suc (length name)
length-snoc [] c = refl
length-snoc (d ∷ name) c = omega (arith, length-snoc name c)

unused_name_fuel :
    (fuel : ℕ) (name : Text) (used : List Text)
    → count_long (length name) used < fuel
    → includes used (unused_name fuel name used) ≡ false
unfolding unused_name
unused_name_fuel zero name used h = elim h [ ]
unused_name_fuel (suc fuel) name used h = elim (Bool-cases (includes used name)) [
  | inl taken ↦ rw taken (
      unused_name_fuel fuel (name ++ invisible_separator ∷ []) used (
        rw (length-snoc name invisible_separator)
          (omega (arith, h, count_long-lt name used taken))))
  | inr free ↦ rw free free
]

-- The fuel, one more than the number of the names that are used, is enough.
pub unused_name_free :
    (name : Text) (used : List Text)
    → includes used (unused_name (suc (length used)) name used) ≡ false
unfolding count_long
unused_name_free name used =
    unused_name_fuel (suc (length used)) name used
      (omega (arith, length-keep-le (λ t. leb (length name) (length t)) used))
