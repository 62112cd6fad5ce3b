-- ===== src/FileTrees.antt =====
-- web/src/diffshub/gitna/SourceControlWorkflow.tsx, the helpers of its trees and lists of files:
-- trimDirectoryPath, repositoryItemParent, repositoryDropDestination, isHiddenRepositoryPath,
-- mutationPaths, gitStatus, createRepositoryTreeSource, createRepositoryListSource, filterRepositoryPaths
-- and createTreeSource; the child Discards has discardConfirmationCopy.
mod Discards
mod Names
mod Listing
mod Examples
use gitna.Prelude.{
  to_text, ltb, ◌-◌, ends_with_slash, ℕ, zero, suc, ◌+◌, Bool, true, false, not, ◌&&◌, List, [],
  ◌∷◌, ◌++◌, map, Option, none, some, if◌then◌else◌, ◌==◌, is_some, length, keep, any_of, Text,
  ◌===◌, codes, includes, sort_texts, last_segment, split, JsMap, map_get, map_set, map_has, keys,
  set_add_all,
}
use gitna.History.{ChangeKind, added, deleted, renamed, untracked}
use gitna.Accumulator.{same_status, GitStatus}
use gitna.Directories.{drop_last, slash, is_empty}

pub record TreeFile : Type 0 where
  pub kind : ChangeKind
  pub old_path : Option Text
  pub path : Text

pub record GitStatusEntry : Type 0 where
  pub path : Text
  pub status : GitStatus

pub record FileTreeSource : Type 0 where
  pub git_status : List GitStatusEntry
  pub path_count : ℕ
  pub paths : List Text
  pub path_to_item_id : JsMap Text
  pub item_id_to_path : Option (JsMap Text)

unfoldable pub trim_directory_path : Text → Text
trim_directory_path path = if ends_with_slash path then drop_last path else path

-- `path.slice(0, path.lastIndexOf('/') + 1)`, which is empty without a slash
unfoldable pub up_to_last_slash : Text → Text
up_to_last_slash [] = []
up_to_last_slash (c ∷ path) =
    let rest = up_to_last_slash path in if any_of (λ d. d == slash) (c ∷ path) then c ∷ rest else []

unfoldable pub repository_item_parent : Bool → Text → Text
repository_item_parent is_directory path =
    if is_directory then trim_directory_path path ++ codes "/" else up_to_last_slash path

-- `directoryPath == null ? '' : trimDirectoryPath(directoryPath)`
unfoldable pub drop_directory : Option Text → Text
drop_directory none = []
drop_directory (some directory) = trim_directory_path directory

unfoldable pub repository_drop_destination : Text → Option Text → Text
repository_drop_destination source directory_path =
    let name = last_segment slash (trim_directory_path source) in
    let directory = drop_directory directory_path in
    if is_empty directory then name else directory ++ slash ∷ name

-- `segment.length > 1 && segment.startsWith('.')`
unfoldable pub is_hidden_segment : Text → Bool
is_hidden_segment [] = false
is_hidden_segment (c ∷ []) = false
is_hidden_segment (c ∷ d ∷ segment) = c == b'.'

unfoldable pub is_hidden_repository_path : Text → Bool
is_hidden_repository_path path =
    let (head, rest) = split slash path in any_of is_hidden_segment (head ∷ rest)

unfoldable pub changed_paths : TreeFile → List Text
changed_paths change = elim change.old_path [
  | none ↦ change.path ∷ []
  | some old_path ↦ old_path ∷ change.path ∷ []
]

unfoldable pub all_changed_paths : List TreeFile → List Text
all_changed_paths [] = []
all_changed_paths (change ∷ changes) = changed_paths change ++ all_changed_paths changes

unfoldable pub mutation_paths : List TreeFile → List Text
mutation_paths changes = set_add_all (all_changed_paths changes) []

unfoldable pub git_status : ChangeKind → GitStatus
git_status added = GitStatus.added
git_status untracked = GitStatus.untracked
git_status deleted = GitStatus.deleted
git_status renamed = GitStatus.renamed
git_status _ = GitStatus.modified

-- `new Map(changes.map((change) => [change.path, gitStatus(change.kind)]))`, with what was set before
unfoldable pub set_statuses : List TreeFile → JsMap GitStatus → JsMap GitStatus
set_statuses [] statuses = statuses
set_statuses (change ∷ changes) statuses =
    set_statuses changes (map_set change.path (git_status change.kind) statuses)

unfoldable pub set_identities : List Text → JsMap Text → JsMap Text
set_identities [] identity = identity
set_identities (path ∷ paths) identity = set_identities paths (map_set path path identity)

unfoldable pub create_repository_tree_source : List Text → List TreeFile → FileTreeSource
create_repository_tree_source paths changes =
    let identity = set_identities (keep (λ path. not (ends_with_slash path)) paths) [] in
    record {
      git_status = map (λ c. record { path = c.path; status = git_status c.kind }) changes;
      path_count = length paths;
      paths = paths;
      path_to_item_id = identity;
      item_id_to_path = some identity;
    }

-- The separator of a file's name in a list, ' › ', and the invisible one that tells two names apart.
abbrev pub list_separator : Text
list_separator = 32 ∷ 8250 ∷ 32 ∷ []

abbrev pub invisible_separator : ℕ
invisible_separator = 8291

-- `path.replaceAll('/', ' › ')`
unfoldable pub list_name : Text → Text
list_name [] = []
list_name (c ∷ path) =
    let rest = list_name path in if c == slash then list_separator ++ rest else c ∷ rest

-- `while (used.has(display)) display += '\u2063'`, on fuel
unfoldable pub unused_name : ℕ → Text → List Text → Text
unused_name zero display used = display
unused_name (suc fuel) display used =
    let later = unused_name fuel (display ++ invisible_separator ∷ []) used in
    if includes used display then later else display

-- The names of the list so far, with the maps between names and paths.
pub record ListNames : Type 0 where
  pub display_paths : List Text
  pub path_to_item_id : JsMap Text
  pub item_id_to_path : JsMap Text

-- The names that are used are those that are shown.
unfoldable pub add_list_name : Text → ListNames → ListNames
add_list_name path names =
    let display =
      unused_name (suc (length names.display_paths)) (list_name path) names.display_paths in
    if ends_with_slash path then names else record {
      display_paths = names.display_paths ++ display ∷ [];
      path_to_item_id = map_set display path names.path_to_item_id;
      item_id_to_path = map_set path display names.item_id_to_path;
    }

unfoldable pub add_list_names : List Text → ListNames → ListNames
add_list_names [] names = names
add_list_names (path ∷ paths) names = add_list_names paths (add_list_name path names)

abbrev pub no_names : ListNames
no_names = record { display_paths = []; path_to_item_id = []; item_id_to_path = [] }

unfoldable pub status_entry : Text → Option GitStatus → List GitStatusEntry
status_entry display none = []
status_entry display (some status) = record { path = display; status = status } ∷ []

-- `statusesByPath.get(pathToItemId.get(display)!)`
unfoldable pub status_of : JsMap GitStatus → Option Text → Option GitStatus
status_of statuses none = none
status_of statuses (some original) = map_get original statuses

unfoldable pub list_statuses : JsMap GitStatus → JsMap Text → List Text → List GitStatusEntry
list_statuses statuses path_to_item_id [] = []
list_statuses statuses path_to_item_id (display ∷ displays) =
    status_entry display (status_of statuses (map_get display path_to_item_id))
    ++ list_statuses statuses path_to_item_id displays

unfoldable pub create_repository_list_source : List Text → List TreeFile → FileTreeSource
create_repository_list_source paths changes =
    let names = add_list_names paths no_names in
    record {
      git_status =
          list_statuses (set_statuses changes []) names.path_to_item_id names.display_paths;
      path_count = length names.display_paths;
      paths = names.display_paths;
      path_to_item_id = names.path_to_item_id;
      item_id_to_path = some names.item_id_to_path;
    }

-- Whether the status is selected.
unfoldable pub is_selected : List GitStatus → Option GitStatus → Bool
is_selected selected none = false
is_selected selected (some status) = any_of (same_status status) selected

unfoldable pub filter_repository_paths : List Text → List TreeFile → List GitStatus → List Text
filter_repository_paths paths changes [] = paths
filter_repository_paths paths changes (status ∷ selected) =
    let statuses = set_statuses changes [] in
    keep (λ path. is_selected (status ∷ selected) (map_get path statuses)) paths

-- `for (const file of files) byPath.set(file.path, file)`
unfoldable pub set_files : List TreeFile → JsMap TreeFile → JsMap TreeFile
set_files [] by_path = by_path
set_files (file ∷ files) by_path = set_files files (map_set file.path file by_path)

unfoldable pub kind_entry : JsMap TreeFile → Text → List GitStatusEntry
kind_entry by_path path = elim (map_get path by_path) [
  | none ↦ []
  | some file ↦ record { path = path; status = git_status file.kind } ∷ []
]

unfoldable pub kind_entries : JsMap TreeFile → List Text → List GitStatusEntry
kind_entries by_path [] = []
kind_entries by_path (path ∷ paths) = kind_entry by_path path ++ kind_entries by_path paths

unfoldable pub create_tree_source : List TreeFile → FileTreeSource
create_tree_source files =
    let by_path = set_files files [] in
    let paths = sort_texts (keys by_path) in
    record {
      git_status = kind_entries by_path paths;
      path_count = length paths;
      paths = paths;
      path_to_item_id = set_identities paths [];
      item_id_to_path = none;
    }
