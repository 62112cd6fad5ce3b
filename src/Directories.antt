-- ===== src/Directories.antt =====
-- web/src/diffshub/gitna/repository.tsx, the directories of the file explorer: their state, and
-- rebuildOrdinaryTreePaths. An abort controller and the promise of its page have one number.
pub mod Rebuilding
mod Entries
pub mod Reaching
pub mod Publishing
use gitna.Prelude.{
  ends_with_slash, ◌||◌, zero, suc, ℕ, Bool, true, false, not, ◌&&◌, Option, List, [], ◌∷◌, ◌++◌,
  ◌==◌, if◌then◌else◌, coalesce_or, length, keep, any_of, Text, codes, includes, sort_texts, JsMap,
  map_get, map_has, map_delete, keys, values, set_delete, set_add_all,
}
use gitna.History.{abort}

pub data EntryKind : Type 0 where
  directory_kind : EntryKind
  file_kind : EntryKind

pub record DirectoryEntry : Type 0 where
  pub kind : EntryKind
  pub name : Text
  pub path : Text
  pub has_children : Option Bool
  pub ignored : Option Bool

pub data WatchCoverage : Type 0 where
  complete_coverage : WatchCoverage
  partial_coverage : WatchCoverage

pub record DirectoryEntries : Type 0 where
  pub generation : ℕ
  pub directory : Text
  pub entries : List DirectoryEntry
  pub truncated : Bool
  pub next_cursor : Option Text
  pub watch_coverage : Option WatchCoverage

pub record Directories : Type 0 where
  pub repository_epoch : ℕ
  pub repository_paths : List Text
  pub repository_ignored_paths : List Text
  pub repository_files_loading : Bool
  pub repository_files_error : Option Text
  pub repository_files_generation : ℕ
  pub unloaded_directories : List Text
  pub known_empty_directories : List Text
  pub paged_directories : List Text
  pub directory_errors : JsMap Text
  pub watch_coverage : WatchCoverage
  pub directory_children : JsMap (List Text)
  pub directory_cursors : JsMap Text
  pub directory_generations : JsMap ℕ
  pub directory_requests : JsMap ℕ
  pub directory_controllers : JsMap ℕ
  pub aborted : List ℕ
  pub next_controller : ℕ

abbrev pub slash : ℕ
slash = b'/'

-- `text.slice(0, -1)`
unfoldable pub drop_last : Text → Text
drop_last [] = []
drop_last (c ∷ []) = []
drop_last (c ∷ d ∷ s) = c ∷ drop_last (d ∷ s)

-- `directory.replace(/\/$/, '')`
unfoldable pub directory_key : Text → Text
directory_key directory = if ends_with_slash directory then drop_last directory else directory

-- `separator < 0 ? '' : loaded.slice(0, separator)` with the last separator
unfoldable pub parent_directory : Text → Text
parent_directory [] = []
parent_directory (c ∷ s) =
    let parent = parent_directory s in if any_of (λ d. d == slash) s then c ∷ parent else []

abbrev pub is_empty : Text → Bool
is_empty [] = true
is_empty (c ∷ s) = false

-- The entry of a directory in the children of its parent.
abbrev pub entry_of : Text → Text
entry_of key = key ++ codes "/"

unfoldable pub is_listed : JsMap (List Text) → Text → Text → Bool
is_listed children parent entry = includes (coalesce_or (map_get parent children) []) entry

-- The parent of a loaded directory is not loaded or does not list it.
unfoldable pub is_orphan : JsMap (List Text) → Text → Bool
is_orphan children key =
    not (is_empty key) && not (is_listed children (parent_directory key) (entry_of key))

unfoldable pub remove_directory : Text → Directories → Directories
remove_directory key s = record s {
  aborted = abort (map_get key s.directory_controllers) s.aborted;
  directory_children = map_delete key s.directory_children;
  directory_controllers = map_delete key s.directory_controllers;
  directory_cursors = map_delete key s.directory_cursors;
  directory_errors = map_delete key s.directory_errors;
  directory_generations = map_delete key s.directory_generations;
  directory_requests = map_delete key s.directory_requests;
  paged_directories = set_delete key s.paged_directories;
}

unfoldable pub is_removable : Directories → Text → Bool
is_removable s key = map_has key s.directory_children && is_orphan s.directory_children key

-- One pass over the loaded directories, and whether it removed one of them.
unfoldable pub removal_pass : List Text → Directories → Directories × Bool
removal_pass [] s = (s, false)
removal_pass (key ∷ rest) s =
    let removes = is_removable s key in
    let (next, removed) = removal_pass rest (if removes then remove_directory key s else s) in
    (next, removes || removed)

-- The passes, until one removes nothing.
unfoldable pub removal_passes : ℕ → Directories → Directories
removal_passes zero s = s
removal_passes (suc fuel) s =
    let (next, removed) = removal_pass (keys s.directory_children) s in
    let rest = removal_passes fuel next in if removed then rest else next

unfoldable pub remove_orphans : Directories → Directories
remove_orphans s = removal_passes (suc (length s.directory_children)) s

unfoldable pub all_children : List (List Text) → List Text → List Text
all_children [] paths = paths
all_children (children ∷ more) paths = all_children more (set_add_all children paths)

unfoldable pub is_unloaded : Directories → Text → Bool
is_unloaded s path =
    ends_with_slash path
    && not (map_has (drop_last path) s.directory_children)
    && not (includes s.known_empty_directories path)

unfoldable pub publish_paths : Directories → Directories
publish_paths s =
    let all_paths = all_children (values s.directory_children) [] in
    record s {
      unloaded_directories = keep (is_unloaded s) all_paths;
      known_empty_directories = keep (includes all_paths) s.known_empty_directories;
      repository_ignored_paths = keep (includes all_paths) s.repository_ignored_paths;
      repository_paths = sort_texts all_paths;
    }

unfoldable pub rebuild_paths : Directories → Directories
rebuild_paths s = publish_paths (remove_orphans s)
