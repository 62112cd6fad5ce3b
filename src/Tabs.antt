-- ===== src/Tabs.antt =====
-- web/src/diffshub/gitna/repository.tsx, the files that are open: opening, selecting, comparing, closing
-- and renaming. The documents are the store of web/src/diffshub/gitna/documents.ts.
pub mod Closing
pub mod Invariant
mod Examples
use gitna.Prelude.{
  ends_with_slash, includes, ℕ, ◌+◌, Bool, true, false, not, ◌&&◌, ◌||◌, Option, none, some, List,
  [], ◌∷◌, ◌++◌, map, ◌==◌, if◌then◌else◌, is_some, length, keep, any_of, find_first, get_last?,
  Text, ◌===◌, codes,
}
use gitna.Documents.{DocumentStore, DocumentSnapshot, get_document, delete_document}
use gitna.History.{ChangeKind, deleted, CommitFile, CommitDiffTarget}

pub data ChangeScope : Type 0 where
  unstaged staged : ChangeScope

pub record FileChange : Type 0 where
  pub path : Text
  pub old_path : Option Text
  pub kind : ChangeKind
  pub scope : ChangeScope
  pub is_staged : Bool
  pub conflicted : Bool

pub record Selection : Type 0 where
  pub scope : ChangeScope
  pub change : FileChange

pub record CompareTarget : Type 0 where
  pub from : Text
  pub to : Text
  pub label : Text

pub record CompareDiffTarget : Type 0 where
  pub from : Text
  pub to : Text
  pub path : Text
  pub old_path : Option Text
  pub kind : ChangeKind

pub record RepositoryFileComparison : Type 0 where
  pub left_path : Text
  pub right_path : Text
  pub version : ℕ

pub record WorktreeRename : Type 0 where
  pub source : Text
  pub destination : Text
  pub version : ℕ

pub data ConnectionState : Type 0 where
  connecting connected reconnecting reconciling unreachable session_error : ConnectionState

-- The changes of the snapshot, when there is one, are the staged and the unstaged ones.
pub record Tabs : Type 0 where
  pub repository_paths : List Text
  pub changes : Option (List FileChange × List FileChange)
  pub connection_state : ConnectionState
  pub documents : DocumentStore
  pub selection : Option Selection
  pub commit_diff : Option CommitDiffTarget
  pub compare_target : Option CompareTarget
  pub compare_files : List CommitFile
  pub compare_diff : Option CompareDiffTarget
  pub repository_file_path : Option Text
  pub repository_open_paths : List Text
  pub repository_selected_paths : List Text
  pub repository_file_comparison : Option RepositoryFileComparison
  pub repository_file_comparison_active : Bool
  pub repository_file_reveal_version : ℕ
  pub worktree_rename : Option WorktreeRename

pub is_deleted : ChangeKind → Bool
is_deleted deleted = true
is_deleted _ = false

is_unstaged : ChangeScope → Bool
is_unstaged unstaged = true
is_unstaged staged = false

-- `path.startsWith(prefix)` with the rest, `path.slice(prefix.length)`
unfoldable pub strip_prefix : Text → Text → Option Text
strip_prefix [] path = some path
strip_prefix (c ∷ cs) [] = none
strip_prefix (c ∷ cs) (d ∷ ds) = let rest = strip_prefix cs ds in if c == d then rest else none

pub is_untitled_path : Text → Bool
is_untitled_path path = is_some (strip_prefix (codes "untitled:") path)

untitled_document : Tabs → Text → Option DocumentSnapshot
untitled_document t path = elim (strip_prefix (codes "untitled:") path) [
  | none ↦ none
  | some id ↦ get_document t.documents id
]

all_changes : Option (List FileChange × List FileChange) → List FileChange
all_changes none = []
all_changes (some (staged_ones, unstaged_ones)) = staged_ones ++ unstaged_ones

shows_in_commit : Option CommitDiffTarget → Text → Bool
shows_in_commit none path = false
shows_in_commit (some diff) path = diff.path === path && not (is_deleted diff.kind)

can_open_change : List FileChange → Bool → Bool
can_open_change changes otherwise =
    if any_of (λ c. is_unstaged c.scope && is_deleted c.kind) changes
    then false
    else if any_of (λ c. not (is_deleted c.kind)) changes
    then true
    else if any_of (λ c. is_deleted c.kind) changes
    then false
    else otherwise

pub can_open_repository_file : Tabs → Text → Bool
can_open_repository_file t path =
    if is_untitled_path path
    then is_some (untitled_document t path)
    else if ends_with_slash path
    then false
    else if includes t.repository_paths path
    then true
    else can_open_change (keep (λ c. c.path === path) (all_changes t.changes))
        (if shows_in_commit t.commit_diff path then true else includes t.repository_paths path)

is_disconnected : ConnectionState → Bool
is_disconnected reconnecting = true
is_disconnected unreachable = true
is_disconnected session_error = true
is_disconnected connecting = false
is_disconnected connected = false
is_disconnected reconciling = false

open_tab : Tabs → Text → Bool → Tabs
open_tab t path reveal = record t {
  selection = none;
  commit_diff = none;
  compare_diff = none;
  repository_file_comparison_active = false;
  repository_file_path = some path;
  repository_selected_paths = path ∷ [];
  repository_open_paths =
      if includes t.repository_open_paths path
      then t.repository_open_paths
      else t.repository_open_paths ++ path ∷ [];
  repository_file_reveal_version =
      if reveal then t.repository_file_reveal_version + 1 else t.repository_file_reveal_version;
}

pub select_repository_file : Tabs → Text → Bool → Tabs
select_repository_file t path reveal =
    let is_open = includes t.repository_open_paths path in
    if is_disconnected t.connection_state && not is_open && not (is_untitled_path path)
    then t
    else if not (can_open_repository_file t path) && not is_open
    then t
    else open_tab t path reveal

-- `[...new Set(paths)]`
pub distinct : List Text → List Text
distinct [] = []
distinct (path ∷ paths) = path ∷ keep (λ p. not (p === path)) (distinct paths)

pub set_repository_selected_paths : Tabs → List Text → Tabs
set_repository_selected_paths t paths = record t { repository_selected_paths = distinct paths }

can_compare : Tabs → Text → Text → Bool
can_compare t left_path right_path =
    not (left_path === right_path)
    && not (ends_with_slash left_path)
    && not (ends_with_slash right_path)
    && can_open_repository_file t left_path
    && can_open_repository_file t right_path

leave_diffs : Tabs → Tabs
leave_diffs t = record t {
  selection = none;
  commit_diff = none;
  compare_target = none;
  compare_files = [];
  compare_diff = none;
}

compare_selected : Tabs → List Text → Tabs
compare_selected t (left_path ∷ right_path ∷ []) =
    if can_compare t left_path right_path
    then record (leave_diffs t) {
      repository_file_comparison =
          some (record { left_path = left_path; right_path = right_path; version = 0 });
      repository_file_comparison_active = true;
    }
    else t
compare_selected t _ = t

pub open_repository_file_comparison : Tabs → Tabs
open_repository_file_comparison t = compare_selected t t.repository_selected_paths

pub activate_repository_file_comparison : Tabs → Tabs
activate_repository_file_comparison t =
    if not (is_some t.repository_file_comparison) || t.repository_file_comparison_active
    then t
    else record (leave_diffs t) { repository_file_comparison_active = true }

swapped : RepositoryFileComparison → RepositoryFileComparison
swapped c = record { left_path = c.right_path; right_path = c.left_path; version = c.version + 1 }

swap_from : Tabs → Option RepositoryFileComparison → Tabs
swap_from t none = t
swap_from t (some c) = record t {
  repository_file_comparison = some (swapped c);
  repository_file_comparison_active = true;
  repository_selected_paths = c.right_path ∷ c.left_path ∷ [];
}

pub swap_repository_file_comparison : Tabs → Tabs
swap_repository_file_comparison t = swap_from t t.repository_file_comparison

pub close_repository_file_comparison : Tabs → Tabs
close_repository_file_comparison t = record t {
  repository_file_comparison = none;
  repository_file_comparison_active = false;
}

-- `openPaths.slice(0, openPaths.indexOf(path))` and `openPaths.slice(openPaths.indexOf(path) + 1)`; with
-- an index of -1 the first is all but the last path and the second is all paths.
without_last : List Text → List Text
without_last [] = []
without_last (path ∷ []) = []
without_last (path ∷ next ∷ rest) = path ∷ without_last (next ∷ rest)

before_of : Text → List Text → List Text
before_of path [] = []
before_of path (p ∷ ps) = let rest = before_of path ps in if p === path then [] else p ∷ rest

after_of : Text → List Text → List Text
after_of path [] = []
after_of path (p ∷ ps) = let rest = after_of path ps in if p === path then ps else rest

sides_of : Text → List Text → List Text × List Text
sides_of path paths =
    if includes paths path
    then (before_of path paths, after_of path paths)
    else (without_last paths, paths)

-- `next ?? previous ?? null`
or_else : Option Text → Option Text → Option Text
or_else none fallback = fallback
or_else (some path) fallback = some path

-- `paths.findLast(test)`
last_of : (Text → Bool) → List Text → Option Text
last_of p [] = none
last_of p (path ∷ paths) = or_else (last_of p paths) (if p path then some path else none)

neighbour : (Text → Bool) → List Text × List Text → Option Text
neighbour stays (before, after) = or_else (find_first stays after) (last_of stays before)

as_list : Option Text → List Text
as_list none = []
as_list (some path) = path ∷ []

delete_untitled : List Text → DocumentStore → DocumentStore
delete_untitled [] store = store
delete_untitled (path ∷ paths) store = elim (strip_prefix (codes "untitled:") path) [
  | none ↦ delete_untitled paths store
  | some id ↦ delete_untitled paths (delete_document store id)
]

leave_closed : Tabs → List Text → List Text → Option Text → Tabs
leave_closed t open_paths closing none = t
leave_closed t open_paths closing (some path) =
    if includes closing path
    then (let next = neighbour (λ p. not (includes closing p)) (sides_of path open_paths) in
        record t { repository_file_path = next; repository_selected_paths = as_list next })
    else t

close_tabs : Tabs → List Text → Tabs
close_tabs t closing =
    let kept = record t {
      repository_open_paths = keep (λ p. not (includes closing p)) t.repository_open_paths;
      documents = delete_untitled (distinct closing) t.documents;
    } in
    leave_closed kept t.repository_open_paths closing t.repository_file_path

pub close_repository_files : Tabs → List Text → Bool → Tabs
close_repository_files t paths close_comparison =
    if not (any_of (λ p. includes paths p) t.repository_open_paths)
      && not (close_comparison && is_some t.repository_file_comparison)
    then t
    else close_tabs (if close_comparison then close_repository_file_comparison t else t) paths

with_slash : Text → Text
with_slash path = if ends_with_slash path then path else path ++ b'/' ∷ []

pub remap : Text → Text → Text → Text
remap source destination path =
    if path === source then destination else elim (strip_prefix (with_slash source) path) [
      | none ↦ path
      | some rest ↦ with_slash destination ++ rest
    ]

remap_comparison : (Text → Text) → RepositoryFileComparison → RepositoryFileComparison
remap_comparison f c = record {
  left_path = f c.left_path;
  right_path = f c.right_path;
  version = c.version + 1;
}

rename_version : Option WorktreeRename → ℕ
rename_version none = 0
rename_version (some rename) = rename.version

-- `value == null ? null : f(value)`
map_present : {A : Type 0} → (A → A) → Option A → Option A
map_present f none = none
map_present f (some a) = some (f a)

-- What `renameWorktreeEntry` does once the server has renamed the entry.
pub rename_worktree_entry : Tabs → Text → Text → Tabs
rename_worktree_entry t source destination =
    let f = remap source destination in
    record t {
      repository_open_paths = map f t.repository_open_paths;
      repository_file_path = map_present f t.repository_file_path;
      repository_selected_paths = map f t.repository_selected_paths;
      repository_file_comparison = map_present (remap_comparison f) t.repository_file_comparison;
      worktree_rename = some (record {
        source = source;
        destination = destination;
        version = rename_version t.worktree_rename + 1;
      });
    }

pub data TabEvent : Type 0 where
  selects_file : Text → Bool → TabEvent
  selects_paths : List Text → TabEvent
  opens_comparison activates_comparison swaps_comparison closes_comparison : TabEvent
  closes_files : List Text → Bool → TabEvent
  renames_entry : Text → Text → TabEvent

pub handle : Tabs → TabEvent → Tabs
handle t (selects_file path reveal) = select_repository_file t path reveal
handle t (selects_paths paths) = set_repository_selected_paths t paths
handle t opens_comparison = open_repository_file_comparison t
handle t activates_comparison = activate_repository_file_comparison t
handle t swaps_comparison = swap_repository_file_comparison t
handle t closes_comparison = close_repository_file_comparison t
handle t (closes_files paths close_comparison) = close_repository_files t paths close_comparison
handle t (renames_entry source destination) = rename_worktree_entry t source destination

pub handle_all : Tabs → List TabEvent → Tabs
handle_all t [] = t
handle_all t (e ∷ es) = handle_all (handle t e) es
