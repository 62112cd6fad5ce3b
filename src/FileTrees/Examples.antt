-- ===== src/FileTrees/Examples.antt =====
-- A list of two files and a directory, one of them with the name that the other would get.
use gitna.Prelude.{◌≡◌, List, [], ◌∷◌, ◌++◌, refl, Text, codes, text_dec}
use native.Mathlib.Decide.{ℕ_discrete}
use gitna.FileTrees.{
  list_name, list_separator, invisible_separator, unused_name, add_list_name, add_list_names,
  create_repository_list_source,
}
use gitna.FileTrees.Listing.{AllDistinct, IsListing, source_names, list_source-IsListing}

-- "a/b", and the file "a › b".
abbrev twin_paths : List Text
twin_paths = codes "a/" ∷ codes "a/b" ∷ (codes "a" ++ list_separator ++ codes "b") ∷ []

twin_names :
    (create_repository_list_source twin_paths []).paths
    ≡ (codes "a" ++ list_separator ++ codes "b")
      ∷ (codes "a" ++ list_separator ++ codes "b" ++ invisible_separator ∷ [])
      ∷ []
unfolding text_dec ℕ_discrete list_name unused_name add_list_name add_list_names
    create_repository_list_source
twin_names = refl

list_source-IsListing_example :
    IsListing twin_paths (source_names (create_repository_list_source twin_paths []))
unfolding AllDistinct text_dec ℕ_discrete
list_source-IsListing_example = list_source-IsListing twin_paths [] (refl, (refl, (refl, tt)))
