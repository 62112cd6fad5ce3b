-- ===== src/Directories/Reaching.antt =====
-- The rebuilding of the tree keeps a directory when it is reached from the root, with its children as they
-- were, and no other.
use gitna.Directories.Entries.{IsForgotten, rebuild_paths-entries, HasEntriesOf}
use gitna.Prelude.{
  ◌∙◌, is_some, ap, Bool-cases, sym, refl, get-delete, text_dec, inr, inl, ◌<◌, length, ◌==◌, arith,
  length, keys, Option-cases, keys, none, get-delete_ne, map_has, false, map_delete, true, any_of,
  ◌≢◌, map_delete, All, any_of, ◌⊎◌, map_has, ◌≡◌, JsMap, map_get, JsMap, map_get, Bool, ℕ, zero,
  suc, List, Text,
}
use mathlib.Core.Path.{subst}
use gitna.Directories.{
  publish_paths, remove_orphans, rebuild_paths, ◌∷◌, slash, true, is_empty, [], false, entry_of,
  parent_directory, remove_directory, is_listed, Bool, is_orphan, Directories, is_removable,
}
use gitna.Directories.Rebuilding.{
  remove_orphans-Removals, remove_orphans-AllKept, AllKept, Anchored, at_root, in_parent, Removals,
  no_removal, removal,
}

is_orphan-root : (m : JsMap (List Text)) → is_orphan m [] ≡ false
unfolding is_orphan
is_orphan-root m = refl

is_orphan-listed :
    (m : JsMap (List Text)) (key : Text)
    → is_listed m (parent_directory key) (entry_of key) ≡ true
    → is_orphan m key ≡ false
unfolding is_orphan
is_orphan-listed m key h = ground arith

pub Anchored-kept : (m : JsMap (List Text)) (key : Text) → Anchored m key → is_orphan m key ≡ false
Anchored-kept m _ (at_root h) = is_orphan-root m
Anchored-kept m _ (in_parent key h listed up) = is_orphan-listed m key listed

-- A directory that is reached is another one than an orphan.
Anchored-ne :
    (m : JsMap (List Text)) (key orphan : Text)
    → Anchored m key
    → is_orphan m orphan ≡ true
    → orphan ≢ key
Anchored-ne m key orphan a h = λ same. cc (Anchored-kept m key a, same, h)

is_listed-delete :
    (m : JsMap (List Text)) (key parent entry : Text)
    → key ≢ parent
    → is_listed (map_delete key m) parent entry ≡ is_listed m parent entry
unfolding is_listed
is_listed-delete m key parent entry ne = cc (get-delete_ne key parent m ne)

-- The removal of an orphan takes no directory away that is reached.
Anchored-delete :
    (m : JsMap (List Text)) (key orphan : Text)
    → is_orphan m orphan ≡ true
    → Anchored m key
    → Anchored (map_delete orphan m) key
Anchored-delete m _ orphan h (at_root has) =
    at_root (cc (has, get-delete_ne orphan [] m (Anchored-ne m [] orphan (at_root has) h)))
Anchored-delete m _ orphan h (in_parent key has listed up) =
    in_parent key
      (cc (
        has,
        get-delete_ne orphan key m (Anchored-ne m key orphan (in_parent key has listed up) h),
      ))
      (cc (
        listed,
        is_listed-delete m orphan (parent_directory key) (entry_of key)
            (Anchored-ne m (parent_directory key) orphan up h),
      ))
      (Anchored-delete m (parent_directory key) orphan h up)

children-remove :
    (s : Directories) (key : Text)
    → (remove_directory key s).directory_children ≡ map_delete key s.directory_children
unfolding remove_directory
children-remove s key = refl

orphan-of_removable :
    (s : Directories) (key : Text)
    → is_removable s key ≡ true
    → is_orphan s.directory_children key ≡ true
unfolding is_removable
orphan-of_removable s key h = ground arith

Anchored-Removals :
    (s t : Directories) (key : Text)
    → Removals s t
    → Anchored s.directory_children key
    → Anchored t.directory_children key
Anchored-Removals _ _ key (no_removal s) a = a
Anchored-Removals _ _ key (removal orphan s t h p) a =
    Anchored-Removals (remove_directory orphan s) t key p (
      subst (λ m. Anchored m key) (sym (children-remove s orphan))
        (Anchored-delete s.directory_children key orphan (orphan-of_removable s orphan h) a))

-- Removals leave the children of a directory as they are, or take them away.
pub get-Removals :
    (s t : Directories) (key : Text)
    → Removals s t
    → (map_get key t.directory_children ≡ map_get key s.directory_children)
      ⊎ (map_get key t.directory_children ≡ none)
get-Removals _ _ key (no_removal s) = inl refl
get-Removals _ _ key (removal orphan s t h p) =
    elim (get-Removals (remove_directory orphan s) t key p) [
      | inr gone ↦ inr gone
      | inl kept ↦
          ground (arith, kept, get-delete orphan key s.directory_children, children-remove s orphan)
    ]

has_slash : Text → Bool
has_slash = any_of (λ d. d == slash)

length-parent : (key : Text) → is_empty key ≡ false → length (parent_directory key) < length key
unfolding parent_directory
length-parent [] h = ground arith
length-parent (c ∷ []) h = omega arith
length-parent (c ∷ d ∷ s) h = ground (arith, length-parent (d ∷ s) refl)

has-listed :
    (m : JsMap (List Text)) (parent entry : Text)
    → is_listed m parent entry ≡ true
    → map_has parent m ≡ true
unfolding is_listed
has-listed m parent entry h = elim (Option-cases (map_get parent m)) [
  | inl missing ↦ ground (arith, missing)
  | inr found ↦ cc (found.1)
]

listed-of_kept :
    (m : JsMap (List Text)) (key : Text)
    → is_orphan m key ≡ false
    → is_empty key ≡ false
    → is_listed m (parent_directory key) (entry_of key) ≡ true
unfolding is_orphan
listed-of_kept m key h ne = ground arith

-- Where no directory is an orphan, every directory that is loaded is reached.
Anchored-of_kept :
    (m : JsMap (List Text))
    → ((key : Text) → map_has key m ≡ true → is_orphan m key ≡ false)
    → (n : ℕ) (key : Text) → length key < n
    → map_has key m ≡ true
    → Anchored m key
Anchored-of_kept m kept zero key h has = elim h [ ]
Anchored-of_kept m kept (suc n) [] h has = at_root has
Anchored-of_kept m kept (suc n) (c ∷ s) h has =
    let listed = listed-of_kept m (c ∷ s) (kept (c ∷ s) has) refl in
    in_parent (c ∷ s) has listed (
      Anchored-of_kept m kept n (parent_directory (c ∷ s))
        (omega (arith, h, length-parent (c ∷ s) refl))
        (has-listed m (parent_directory (c ∷ s)) (entry_of (c ∷ s)) listed))

All-lookup :
    {V : Type 0} (P : Text → Type 0) (m : JsMap V) (key : Text)
    → All P (keys m)
    → map_has key m ≡ true
    → P key
unfolding map_get
All-lookup P [] key all has = ground arith
All-lookup P ((j, v) ∷ m) key (p, all) has = elim (text_dec j key) [
  | yes same ↦ subst P same p
  | no other ↦ All-lookup P m key all (ground arith)
]

is_orphan-kept :
    (s : Directories) (key : Text)
    → is_removable s key ≡ false
    → map_has key s.directory_children ≡ true
    → is_orphan s.directory_children key ≡ false
unfolding is_removable
is_orphan-kept s key h has = ground arith

pub remove_orphans-Anchored :
    (s : Directories) (key : Text)
    → map_has key (remove_orphans s).directory_children ≡ true
    → Anchored (remove_orphans s).directory_children key
unfolding AllKept
remove_orphans-Anchored s key has =
    let after = remove_orphans s in
    Anchored-of_kept after.directory_children
      (λ k has_k.
        is_orphan-kept after k
          (All-lookup (λ j. is_removable after j ≡ false) after.directory_children k
            (remove_orphans-AllKept s) has_k)
          has_k)
      (suc (length key)) key (omega arith) has

is_listed-shrinks :
    (m smaller : JsMap (List Text)) (parent entry : Text)
    → (map_get parent smaller ≡ map_get parent m) ⊎ (map_get parent smaller ≡ none)
    → is_listed smaller parent entry ≡ true
    → is_listed m parent entry ≡ true
unfolding is_listed
is_listed-shrinks m smaller parent entry (inl same) h = cc (same, h)
is_listed-shrinks m smaller parent entry (inr gone) h = ground (arith, gone)

has-shrinks :
    (m smaller : JsMap (List Text)) (key : Text)
    → (map_get key smaller ≡ map_get key m) ⊎ (map_get key smaller ≡ none)
    → map_has key smaller ≡ true
    → (map_get key smaller ≡ map_get key m) × (map_has key m ≡ true)
has-shrinks m smaller key (inl same) h = (same, cc (same, h))
has-shrinks m smaller key (inr gone) h = ground (arith, gone)

-- A directory that is reached after removals was reached before.
Anchored-shrinks :
    (m smaller : JsMap (List Text)) (key : Text)
    → ((k : Text) → (map_get k smaller ≡ map_get k m) ⊎ (map_get k smaller ≡ none))
    → Anchored smaller key
    → Anchored m key
Anchored-shrinks m smaller _ shrinks (at_root has) =
    at_root (has-shrinks m smaller [] (shrinks []) has).1
Anchored-shrinks m smaller _ shrinks (in_parent key has listed up) =
    in_parent key (has-shrinks m smaller key (shrinks key) has).1
      (is_listed-shrinks m smaller _ _ (shrinks (parent_directory key)) listed)
      (Anchored-shrinks m smaller (parent_directory key) shrinks up)

has-of_Anchored : (m : JsMap (List Text)) (key : Text) → Anchored m key → map_has key m ≡ true
has-of_Anchored m _ (at_root has) = has
has-of_Anchored m _ (in_parent key has listed up) = has

-- A directory that is reached has everything that it had, a loaded one that is not reached is forgotten with
-- its page aborted, and one that is not loaded is left alone.
abbrev pub IsKeptOrGone : Directories → Directories → Text → Type 0
IsKeptOrGone s t key =
    (Anchored s.directory_children key × HasEntriesOf s t key)
    ⊎ ((Anchored s.directory_children key → ⊥)
        × (((map_has key s.directory_children ≡ true) × IsForgotten s t key)
            ⊎ ((map_has key s.directory_children ≡ false) × HasEntriesOf s t key)))

children-rebuild :
    (s : Directories) → (rebuild_paths s).directory_children ≡ (remove_orphans s).directory_children
unfolding rebuild_paths publish_paths
children-rebuild s = refl

-- A directory that the rebuilding leaves loaded was reached, and one that was reached is left loaded.
Anchored-of_rebuilt :
    (s : Directories) (key : Text)
    → map_has key (rebuild_paths s).directory_children ≡ true
    → Anchored s.directory_children key
Anchored-of_rebuilt s key has =
    Anchored-shrinks s.directory_children (remove_orphans s).directory_children key
      (λ k. get-Removals s (remove_orphans s) k (remove_orphans-Removals s))
      (remove_orphans-Anchored s key (cc (has, children-rebuild s)))

has-of_reached :
    (s : Directories) (key : Text)
    → Anchored s.directory_children key
    → map_has key (rebuild_paths s).directory_children ≡ true
has-of_reached s key a = cc (
  children-rebuild s,
  has-of_Anchored (remove_orphans s).directory_children key
      (Anchored-Removals s (remove_orphans s) key (remove_orphans-Removals s) a),
)

-- Rebuilding the tree leaves a directory that is reached from the loaded root, each listed by the one before
-- it, with the children, the cursor, the error, the generation, the request, the controller and the paged
-- mark that it had; of any other loaded directory it leaves none of these, and aborts its page; and it
-- leaves a directory that is not loaded alone.
pub rebuild_paths-IsKeptOrGone :
    (s : Directories) (key : Text) → IsKeptOrGone s (rebuild_paths s) key
rebuild_paths-IsKeptOrGone s key = elim (rebuild_paths-entries s key) [
  | inr (has, forgotten) ↦
      inr
        (λ a. ground (arith, forgotten.0.no_children, has-of_reached s key a), inl (has, forgotten))
  | inl e ↦ elim (Bool-cases (map_has key s.directory_children)) [
    | inl loaded ↦ inl (Anchored-of_rebuilt s key (ap is_some e.same_children ∙ loaded), e)
    | inr unloaded ↦ inr (
      λ a. ground (arith, unloaded, has-of_Anchored s.directory_children key a),
      inr (unloaded, e),
    )
  ]
]
