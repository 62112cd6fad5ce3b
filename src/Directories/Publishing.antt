-- ===== src/Directories/Publishing.antt =====
-- What the rebuilding of the tree publishes: the paths that some loaded directory lists, and which of them
-- are directories that are not loaded, are ignored, or are known to be empty.
use gitna.Directories.Reaching.{remove_orphans-Anchored}
use gitna.Prelude.{
  includes-set_add_all, set_add_all, set_add_all, false, includes-keep, not, includes-sort_texts,
  ◌||◌, ◌∷◌, arith, true, any_of, any_of, keys, ◌&&◌, keys, All, values, Bool, keep, keep, ◌≡◌,
  map_has, map_has, values, JsMap, JsMap, map_get, map_get, includes, includes, List, Text, refl,
}
use gitna.Directories.{
  false, not, [], true, Bool, remove_orphans, publish_paths, rebuild_paths, all_children,
  is_unloaded, Directories,
}
use gitna.Directories.Rebuilding.{Anchored}

-- Some loaded directory lists the path.
abbrev pub lists : JsMap (List Text) → Text → Bool
lists children path = any_of (λ c. includes c path) (values children)

includes-all_children :
    (more : List (List Text)) (paths : List Text) (p : Text)
    → includes (all_children more paths) p ≡ (any_of (λ c. includes c p) more || includes paths p)
unfolding all_children
includes-all_children [] paths p = refl
includes-all_children (children ∷ more) paths p = ground (
  arith,
  includes-all_children more (set_add_all children paths) p,
  includes-set_add_all children paths p,
)

includes-all :
    (m : JsMap (List Text)) (p : Text) → includes (all_children (values m) []) p ≡ lists m p
includes-all m p = ground (arith, includes-all_children (values m) [] p)

-- The paths that are shown are those that the loaded directories list; the directories to open are those of
-- them that are neither loaded nor known to be empty; only they are marked as ignored or empty; and every
-- loaded directory is reached from the root.
pub record IsAccurate (s : Directories) : Type 0 where
  pub paths_listed : (p : Text) → includes s.repository_paths p ≡ lists s.directory_children p
  pub unloaded_listed :
      (p : Text)
      → includes s.unloaded_directories p ≡ (lists s.directory_children p && is_unloaded s p)
  pub ignored_listed :
      (p : Text)
      → (includes s.repository_ignored_paths p && not (lists s.directory_children p)) ≡ false
  pub empty_listed :
      (p : Text)
      → (includes s.known_empty_directories p && not (lists s.directory_children p)) ≡ false
  pub all_anchored : All (Anchored s.directory_children) (keys s.directory_children)

keep-listed :
    (m : JsMap (List Text)) (marked : List Text) (p : Text)
    → (includes (keep (includes (all_children (values m) [])) marked) p && not (lists m p)) ≡ false
keep-listed m marked p =
    ground (arith, includes-keep (includes (all_children (values m) [])) marked p, includes-all m p)

is_unloaded-publish :
    (s : Directories) (p : Text)
    → lists s.directory_children p ≡ true
    → is_unloaded (publish_paths s) p ≡ is_unloaded s p
unfolding is_unloaded publish_paths
is_unloaded-publish s p h = ground (
  arith,
  includes-keep (includes (all_children (values s.directory_children) [])) s.known_empty_directories
      p,
  includes-all s.directory_children p,
)

unloaded-publish :
    (s : Directories) (p : Text)
    → includes (publish_paths s).unloaded_directories p
      ≡ (lists s.directory_children p && is_unloaded (publish_paths s) p)
unfolding publish_paths
unloaded-publish s p = ground (
  arith,
  includes-keep (is_unloaded s) (all_children (values s.directory_children) []) p,
  includes-all s.directory_children p,
  is_unloaded-publish s p,
)

paths-publish :
    (s : Directories) (p : Text)
    → includes (publish_paths s).repository_paths p ≡ lists s.directory_children p
unfolding publish_paths
paths-publish s p = ground (
  arith,
  includes-sort_texts (all_children (values s.directory_children) []) p,
  includes-all s.directory_children p,
)

pub publish-IsAccurate :
    (s : Directories)
    → All (Anchored s.directory_children) (keys s.directory_children)
    → IsAccurate (publish_paths s)
unfolding publish_paths
publish-IsAccurate s anchored = record {
  paths_listed = λ p. paths-publish s p;
  unloaded_listed = λ p. unloaded-publish s p;
  ignored_listed = λ p. keep-listed s.directory_children s.repository_ignored_paths p;
  empty_listed = λ p. keep-listed s.directory_children s.known_empty_directories p;
  all_anchored = anchored;
}

has-head : {V : Type 0} (k : Text) (v : V) (m : JsMap V) → map_has k ((k, v) ∷ m) ≡ true
unfolding map_get
has-head k v m = ground arith

has-tail :
    {V : Type 0} (k j : Text) (v : V) (m : JsMap V)
    → map_has k m ≡ true
    → map_has k ((j, v) ∷ m) ≡ true
unfolding map_get
has-tail k j v m h = ground arith

-- What holds of every key that the map has holds of its keys.
pub All-of_has :
    {V : Type 0} (P : Text → Type 0) (m : JsMap V)
    → ((k : Text) → map_has k m ≡ true → P k)
    → All P (keys m)
All-of_has P [] h = tt
All-of_has P ((j, v) ∷ m) h =
    (h j (has-head j v m), All-of_has P m (λ k has. h k (has-tail k j v m has)))

pub rebuild_paths-IsAccurate : (s : Directories) → IsAccurate (rebuild_paths s)
unfolding rebuild_paths
rebuild_paths-IsAccurate s = publish-IsAccurate (remove_orphans s) (
    All-of_has (Anchored (remove_orphans s).directory_children)
      (remove_orphans s).directory_children (λ k has. remove_orphans-Anchored s k has))
