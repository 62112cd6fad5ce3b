-- ===== src/Directories/Rebuilding.antt =====
-- Which directories the rebuilding of the tree keeps: those that are reached from the root through
-- directories that list the next one.
use gitna.Prelude.{
  length-map_delete-lt, length-map_delete-le, refl, ap, ◌∙◌, inr, inl, ◌≤◌, ◌<◌, Bool-cases,
  map_has, keys, arith, length, false, true, length, keys, map_has, ◌≡◌, All, JsMap, JsMap, ℕ, zero,
  suc, List, Text,
}
use gitna.Directories.{
  entry_of, parent_directory, is_listed, [], ◌∷◌, true, false, remove_directory, remove_orphans,
  removal_passes, removal_pass, Directories, is_removable,
}

-- A directory that is loaded and reached from the loaded root through the children of its parents.
pub data Anchored (m : JsMap (List Text)) : Text → Type 0 where
  at_root : map_has [] m ≡ true → Anchored m []
  in_parent :
      (key : Text)
      → map_has key m ≡ true
      → is_listed m (parent_directory key) (entry_of key) ≡ true
      → Anchored m (parent_directory key)
      → Anchored m key

-- The removals that lead from one state to another.
pub data Removals : Directories → Directories → Type 0 where
  no_removal : (s : Directories) → Removals s s
  removal :
      (key : Text) (s t : Directories)
      → is_removable s key ≡ true
      → Removals (remove_directory key s) t
      → Removals s t

-- The passes remove directories, one at a time.
Removals-append : (s t u : Directories) → Removals s t → Removals t u → Removals s u
Removals-append _ _ u (no_removal s) q = q
Removals-append _ _ u (removal key s t h p) q =
    removal key s u h (Removals-append (remove_directory key s) t u p q)

removal_pass-Removals : (names : List Text) (s : Directories) → Removals s (removal_pass names s).0
unfolding removal_pass
removal_pass-Removals [] s = no_removal s
removal_pass-Removals (key ∷ names) s = elim (Bool-cases (is_removable s key)) [
  | inl yes_it_is ↦
      rw yes_it_is
        (removal key s _ yes_it_is (removal_pass-Removals names (remove_directory key s)))
  | inr no_it_is_not ↦ rw no_it_is_not (removal_pass-Removals names s)
]

removal_passes-Removals : (fuel : ℕ) (s : Directories) → Removals s (removal_passes fuel s)
unfolding removal_passes
removal_passes-Removals zero s = no_removal s
removal_passes-Removals (suc fuel) s =
    elim (Bool-cases (removal_pass (keys s.directory_children) s).1) [
      | inl more ↦ rw more (
          Removals-append _ _ _ (removal_pass-Removals (keys s.directory_children) s)
            (removal_passes-Removals fuel (removal_pass (keys s.directory_children) s).0))
      | inr over ↦ rw over (removal_pass-Removals (keys s.directory_children) s)
    ]

pub remove_orphans-Removals : (s : Directories) → Removals s (remove_orphans s)
unfolding remove_orphans
remove_orphans-Removals s = removal_passes-Removals _ s

-- Each pass but the last makes the children fewer, so that the passes are enough.
length-removal_pass-le :
    (names : List Text) (s : Directories)
    → length (removal_pass names s).0.directory_children ≤ length s.directory_children
unfolding removal_pass remove_directory
length-removal_pass-le [] s = omega arith
length-removal_pass-le (key ∷ names) s = elim (Bool-cases (is_removable s key)) [
  | inl yes_it_is ↦ rw yes_it_is (
      omega (
        arith,
        length-removal_pass-le names (remove_directory key s),
        length-map_delete-le key s.directory_children,
      ))
  | inr no_it_is_not ↦ rw no_it_is_not (length-removal_pass-le names s)
]

-- A pass that does not begin with a removal is the rest of it.
removal_pass-skips :
    (names : List Text) (s : Directories) (key : Text)
    → is_removable s key ≡ false
    → removal_pass (key ∷ names) s ≡ removal_pass names s
unfolding removal_pass
removal_pass-skips names s key h = rw h refl

length-removal_pass-lt :
    (names : List Text) (s : Directories)
    → (removal_pass names s).1 ≡ true
    → length (removal_pass names s).0.directory_children < length s.directory_children
unfolding removal_pass remove_directory is_removable
length-removal_pass-lt [] s h = ground arith
length-removal_pass-lt (key ∷ names) s h = elim (Bool-cases (is_removable s key)) [
  | inl yes_it_is ↦ rw yes_it_is (
      omega (
        arith,
        length-removal_pass-le names (remove_directory key s),
        length-map_delete-lt key s.directory_children (ground arith),
      ))
  | inr no_it_is_not ↦
      rw no_it_is_not
        (length-removal_pass-lt names s (cc (h, removal_pass-skips names s key no_it_is_not)))
]

-- A pass that removes nothing leaves the state as it is, and no directory of it is to be removed.
removal_pass-still :
    (names : List Text) (s : Directories)
    → (removal_pass names s).1 ≡ false
    → ((removal_pass names s).0 ≡ s) × All (λ key. is_removable s key ≡ false) names
unfolding removal_pass
removal_pass-still [] s h = (refl, tt)
removal_pass-still (key ∷ names) s h = elim (Bool-cases (is_removable s key)) [
  | inl yes_it_is ↦ ground arith
  | inr no_it_is_not ↦
      let skips = removal_pass-skips names s key no_it_is_not in
      let (same, all) = removal_pass-still names s (cc (h, skips)) in
      (ap (λ r. r.0) skips ∙ same, (no_it_is_not, all))
]

unfoldable pub AllKept : Directories → Type 0
AllKept s = All (λ key. is_removable s key ≡ false) (keys s.directory_children)

removal_passes-AllKept :
    (fuel : ℕ) (s : Directories)
    → length s.directory_children < fuel
    → AllKept (removal_passes fuel s)
unfolding removal_passes AllKept
removal_passes-AllKept zero s h = elim h [ ]
removal_passes-AllKept (suc fuel) s h =
    elim (Bool-cases (removal_pass (keys s.directory_children) s).1) [
      | inl more ↦ rw more (
          removal_passes-AllKept fuel (removal_pass (keys s.directory_children) s).0
            (omega (arith, h, length-removal_pass-lt (keys s.directory_children) s more)))
      | inr over ↦
          let (same, all) = removal_pass-still (keys s.directory_children) s over in
          rw over (rw same all)
    ]

pub remove_orphans-AllKept : (s : Directories) → AllKept (remove_orphans s)
unfolding remove_orphans
remove_orphans-AllKept s = removal_passes-AllKept _ s (omega arith)
