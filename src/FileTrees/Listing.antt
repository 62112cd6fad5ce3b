-- ===== src/FileTrees/Listing.antt =====
-- The names of the files in a list stand for their paths.
use gitna.FileTrees.Names.{unused_name_free}
use gitna.Prelude.{
  coalesce_or, ends_with_slash, ends_with_slash, ends_with_slash, get-set, append_assoc, not, ◌||◌,
  get-set_ne, Bool-cases, ◌&&◌, includes-append, append-nil, ◌===◌, Option-cases, get-set_self,
  map_has, map_has, arith, text_dec, map_set, ◌↔◌, map_set, map_get, ◌≡◌, map_get, includes, JsMap,
  JsMap, includes, List, [], ◌∷◌, ◌++◌, refl, Text, true, false, inl, inr, Option, none, some, sym,
}
use mathlib.Core.Path.{subst}
use gitna.FileTrees.{
  list_name, not, create_repository_list_source, no_names, add_list_names, add_list_name, ListNames,
  FileTreeSource, TreeFile,
}

-- No text is there twice.
unfoldable pub AllDistinct : List Text → Type 0
AllDistinct [] = Unit
AllDistinct (t ∷ texts) = (includes texts t ≡ false) × AllDistinct texts

-- Each map is the inverse of the other.
pub AreInverse : JsMap Text → JsMap Text → Type 0
AreInverse to_name to_path =
    (path name : Text) → (map_get path to_name ≡ some name) ↔ (map_get name to_path ≡ some path)

some-injective : {t u : Text} → some t ≡ some u → t ≡ u
some-injective e = ground arith

none-ne-some : (t : Text) → ◌≡◌ {A = Option Text} none (some t) → ⊥
none-ne-some t e = cc

AreInverse-set :
    (to_name to_path : JsMap Text) (path name : Text)
    → map_get path to_name ≡ none
    → map_get name to_path ≡ none
    → AreInverse to_name to_path
    → AreInverse (map_set path name to_name) (map_set name path to_path)
unfolding AreInverse
AreInverse-set to_name to_path path name new free inverse p d = elim (text_dec path p) [
  | yes same_path ↦ elim (text_dec name d) [
    | yes same_name ↦ (
      λ h. cc (get-set_self name path to_path, same_name, same_path),
      λ h. cc (get-set_self path name to_name, same_path, same_name),
    )
    | no other_name ↦ (
      λ h. absurd (other_name (some-injective (cc (get-set_self path name to_name, same_path, h)))),
      λ h. absurd (
          none-ne-some d (
            cc (
              new,
              same_path,
              (inverse p d).1 (cc (get-set_ne name d path to_path other_name, h)),
            ))),
    )
  ]
  | no other_path ↦ elim (text_dec name d) [
    | yes same_name ↦ (
      λ h. absurd (
          none-ne-some p (
            cc (
              free,
              same_name,
              (inverse p d).0 (cc (get-set_ne path p name to_name other_path, h)),
            ))),
      λ h. absurd (other_path (some-injective (cc (get-set_self name path to_path, same_name, h)))),
    )
    | no other_name ↦ (
      λ h. cc (
        get-set_ne name d path to_path other_name,
        (inverse p d).0 (cc (get-set_ne path p name to_name other_path, h)),
      ),
      λ h. cc (
        get-set_ne path p name to_name other_path,
        (inverse p d).1 (cc (get-set_ne name d path to_path other_name, h)),
      ),
    )
  ]
]

-- The names that are shown are those that stand for a path, the two maps are inverse, and the files that
-- have a name are those of the paths that do not end in a slash.
pub record IsListing (paths : List Text) (names : ListNames) : Type 0 where
  pub are_inverse : AreInverse names.item_id_to_path names.path_to_item_id
  pub are_shown :
      (name : Text) → includes names.display_paths name ≡ map_has name names.path_to_item_id
  pub are_listed :
      (path : Text)
      → map_has path names.item_id_to_path ≡ (includes paths path && not (ends_with_slash path))
  pub are_distinct : AllDistinct names.display_paths

AllDistinct-snoc :
    (texts : List Text) (t : Text)
    → AllDistinct texts
    → includes texts t ≡ false
    → AllDistinct (texts ++ t ∷ [])
unfolding AllDistinct
AllDistinct-snoc [] t all h = (refl, tt)
AllDistinct-snoc (u ∷ texts) t (new, all) h = (
  ground (arith, includes-append texts (t ∷ []) u, new, h),
  AllDistinct-snoc texts t all (ground arith),
)

none-of_has : (m : JsMap Text) (key : Text) → map_has key m ≡ false → map_get key m ≡ none
none-of_has m key h = elim (Option-cases (map_get key m)) [
  | inl missing ↦ missing
  | inr found ↦ ground (arith, found.1)
]

has-set : (k j v : Text) (m : JsMap Text) → map_has j (map_set k v m) ≡ (k === j || map_has j m)
has-set k j v m = ground (arith, get-set k j v m)

-- A directory in between changes nothing.
skipped-IsListing :
    (paths : List Text) (path : Text) (names : ListNames)
    → ends_with_slash path ≡ true
    → IsListing paths names
    → IsListing (paths ++ path ∷ []) names
skipped-IsListing paths path names slash l = record {
  are_inverse = l.are_inverse;
  are_shown = l.are_shown;
  are_listed = λ p. ground (arith, l.are_listed p, includes-append paths (path ∷ []) p, slash);
  are_distinct = l.are_distinct;
}

named-IsListing :
    (paths : List Text) (path name : Text) (names : ListNames)
    → ends_with_slash path ≡ false
    → includes paths path ≡ false
    → includes names.display_paths name ≡ false
    → IsListing paths names
    → IsListing (paths ++ path ∷ []) (record {
      display_paths = names.display_paths ++ name ∷ [];
      path_to_item_id = map_set name path names.path_to_item_id;
      item_id_to_path = map_set path name names.item_id_to_path;
    })
named-IsListing paths path name names file new free l = record {
  are_inverse =
      AreInverse-set names.item_id_to_path names.path_to_item_id path name
        (none-of_has names.item_id_to_path path (ground (arith, l.are_listed path, new)))
        (none-of_has names.path_to_item_id name (cc (l.are_shown name, free))) l.are_inverse;
  are_shown = λ d. ground (
    arith,
    l.are_shown d,
    includes-append names.display_paths (name ∷ []) d,
    has-set name d path names.path_to_item_id,
  );
  are_listed = λ p. ground (
    arith,
    l.are_listed p,
    includes-append paths (path ∷ []) p,
    has-set path p name names.item_id_to_path,
    file,
  );
  are_distinct = AllDistinct-snoc names.display_paths name l.are_distinct free;
}

add_list_name-IsListing :
    (paths : List Text) (path : Text) (names : ListNames)
    → includes paths path ≡ false
    → IsListing paths names
    → IsListing (paths ++ path ∷ []) (add_list_name path names)
unfolding add_list_name
add_list_name-IsListing paths path names new l = elim (Bool-cases (ends_with_slash path)) [
  | inl directory ↦ rw directory (skipped-IsListing paths path names directory l)
  | inr file ↦ rw file (
      named-IsListing paths path _ names file new
        (unused_name_free (list_name path) names.display_paths) l)
]

-- No text of one list is in the other.
AllNew : List Text → List Text → Type 0
AllNew [] paths = Unit
AllNew (t ∷ more) paths = (includes paths t ≡ false) × AllNew more paths

AllNew-snoc :
    (more paths : List Text) (t : Text)
    → includes more t ≡ false
    → AllNew more paths
    → AllNew more (paths ++ t ∷ [])
unfolding AllNew
AllNew-snoc [] paths t h new = tt
AllNew-snoc (u ∷ more) paths t h (new, all) = (
  ground (arith, includes-append paths (t ∷ []) u, new, h),
  AllNew-snoc more paths t (ground arith) all,
)

AllNew-empty : (more : List Text) → AllNew more []
unfolding AllNew
AllNew-empty [] = tt
AllNew-empty (t ∷ more) = (refl, AllNew-empty more)

add_list_names-IsListing :
    (more paths : List Text) (names : ListNames)
    → AllDistinct more
    → AllNew more paths
    → IsListing paths names
    → IsListing (paths ++ more) (add_list_names more names)
unfolding add_list_names AllDistinct AllNew
add_list_names-IsListing [] paths names distinct new l =
    subst (λ ps. IsListing ps names) (sym (append-nil paths)) l
add_list_names-IsListing (path ∷ more) paths names (other, distinct) (fresh, new) l =
    subst (λ ps. IsListing ps (add_list_names more (add_list_name path names)))
      (append_assoc paths (path ∷ []) more)
      (add_list_names-IsListing more (paths ++ path ∷ []) (add_list_name path names) distinct
        (AllNew-snoc more paths path other new) (add_list_name-IsListing paths path names fresh l))

no_names-IsListing : IsListing [] no_names
unfolding AreInverse AllDistinct map_get
no_names-IsListing = record {
  are_inverse = λ p d. (λ h. absurd (none-ne-some d h), λ h. absurd (none-ne-some p h));
  are_shown = λ d. refl;
  are_listed = λ p. refl;
  are_distinct = tt;
}

abbrev pub source_names : FileTreeSource → ListNames
source_names source = record {
  display_paths = source.paths;
  path_to_item_id = source.path_to_item_id;
  item_id_to_path = coalesce_or source.item_id_to_path [];
}

-- In the list of paths of which none is there twice, the files have names that are all different, each path
-- that does not end in a slash has one, and the map from names to paths is the inverse of that from paths to
-- names.
pub list_source-IsListing :
    (paths : List Text) (changes : List TreeFile)
    → AllDistinct paths
    → IsListing paths (source_names (create_repository_list_source paths changes))
unfolding create_repository_list_source
list_source-IsListing paths changes distinct =
    add_list_names-IsListing paths [] no_names distinct (AllNew-empty paths) no_names-IsListing
