-- ===== src/DirectoryPages.antt =====
-- web/src/diffshub/gitna/repository.tsx, the pages of the directories: loadOrdinaryDirectory,
-- loadMoreOrdinaryDirectory, fetchOrdinaryDirectoryPage, and what invalidateReadWork does to them. A page
-- is cut at its `await`: one function begins it, another settles it with the answer of the server.
mod Runs
mod Preserving
mod Accurate
mod Frames
mod Generations
mod Loading
mod Examples
use gitna.Prelude.{
  suc, ℕ, Bool, true, false, not, ◌&&◌, ◌||◌, Option, none, some, List, [], ◌∷◌, ◌++◌, map, ltb,
  ◌==◌, if◌then◌else◌, coalesce_or, is_some, Text, codes, sort_texts, JsMap, map_get, map_set,
  map_delete, values, set_add, set_delete, set_add_all, zero,
}
use gitna.History.{Answer, arrived, failed, is_member}
use gitna.Directories.{
  complete_coverage, directory_kind, file_kind, DirectoryEntry, DirectoryEntries, Directories,
  directory_key, is_empty, rebuild_paths,
}

-- A page that waits for the server.
pub record PageRead : Type 0 where
  pub key : Text
  pub cursor : Option Text
  pub epoch : ℕ
  pub controller : ℕ

-- What a load does: it has the paths, it has null, it joins the page of a number, or it begins one.
pub data Load : Type 0 where
  has_paths : List Text → Load
  has_null : Load
  joins_page : ℕ → Load
  begins_page : PageRead → Load

-- How a page ends.
pub data PageEnd : Type 0 where
  page_paths : List Text → PageEnd
  page_null : PageEnd
  page_error : Text → PageEnd

unfoldable pub fetch_page : Directories → Text → Option Text → Directories × Load
fetch_page s key cursor = (
  record s {
    directory_controllers = map_set key s.next_controller s.directory_controllers;
    directory_requests = map_set key s.next_controller s.directory_requests;
    repository_files_loading = true;
    directory_errors = map_delete key s.directory_errors;
    next_controller = suc s.next_controller;
  },
  begins_page (record {
    key = key;
    cursor = cursor;
    epoch = s.repository_epoch;
    controller = s.next_controller;
  }),
)

-- `existing ?? fetch`
unfoldable pub join_or_fetch : Directories → Text → Option Text → Option ℕ → Directories × Load
join_or_fetch s key cursor (some n) = (s, joins_page n)
join_or_fetch s key cursor none = fetch_page s key cursor

unfoldable pub load_key : Directories → Text → Option (List Text) → Directories × Load
load_key s key (some loaded) = (s, has_paths loaded)
load_key s key none = join_or_fetch s key none (map_get key s.directory_requests)

-- `loadOrdinaryDirectory` without a refresh
unfoldable pub load_directory : Directories → Text → ℕ → Directories × Load
load_directory s directory operation_epoch =
    let key = directory_key directory in
    if not (operation_epoch == s.repository_epoch)
    then (s, has_null)
    else load_key s key (map_get key s.directory_children)

-- `loadOrdinaryDirectory` with a refresh; with a page on the way it waits for that one to end, and
-- then it comes back here by `resume_refresh`.
unfoldable pub refresh_directory : Directories → Text → ℕ → Directories × Load
refresh_directory s directory operation_epoch =
    let key = directory_key directory in
    if not (operation_epoch == s.repository_epoch)
    then (s, has_null)
    else join_or_fetch s key none (map_get key s.directory_requests)

unfoldable pub resume_refresh : Directories → Text → ℕ → Directories × Load
resume_refresh s key operation_epoch =
    if not (operation_epoch == s.repository_epoch)
    then (s, has_null)
    else join_or_fetch s key none (map_get key s.directory_requests)

unfoldable pub load_rest : Directories → Text → Option Text → Directories × Load
load_rest s key none = (s, has_paths (coalesce_or (map_get key s.directory_children) []))
load_rest s key (some cursor) = join_or_fetch s key (some cursor) (map_get key s.directory_requests)

unfoldable pub load_more_directory : Directories → Text → Directories × Load
load_more_directory s directory =
    let key = directory_key directory in load_rest s key (map_get key s.directory_cursors)

abbrev pub is_number : ℕ → Option ℕ → Bool
is_number n none = false
is_number n (some m) = m == n

abbrev pub is_nil : JsMap ℕ → Bool
is_nil [] = true
is_nil (e ∷ m) = false

-- `this.ordinaryDirectoryControllers.get(key) === controller`
unfoldable pub is_current_page : Directories → PageRead → Bool
is_current_page s r = is_number r.controller (map_get r.key s.directory_controllers)

unfoldable pub is_superseded : Directories → PageRead → Bool
is_superseded s r = is_member r.controller s.aborted || not (is_current_page s r)

-- The `finally` of a page.
unfoldable pub finish_page : Directories → PageRead → Directories
finish_page s r =
    let requests = map_delete r.key s.directory_requests in
    if is_current_page s r
    then record s {
      directory_controllers = map_delete r.key s.directory_controllers;
      directory_requests = requests;
      repository_files_loading =
          if r.epoch == s.repository_epoch
          then not (is_nil requests)
          else s.repository_files_loading;
    }
    else s

-- The children that a first page replaces lose their marks.
unfoldable pub forget_marks : List Text → Directories → Directories
forget_marks [] s = s
forget_marks (path ∷ paths) s = forget_marks paths (record s {
  repository_ignored_paths = set_delete path s.repository_ignored_paths;
  known_empty_directories = set_delete path s.known_empty_directories;
})

abbrev pub is_true : Option Bool → Bool
is_true none = false
is_true (some b) = b

unfoldable pub is_known_empty : DirectoryEntry → Bool
is_known_empty entry = elim entry.kind [
  | directory_kind ↦ elim entry.has_children [ none ↦ false | some b ↦ not b ]
  | file_kind ↦ false
]

unfoldable pub mark_entries : List DirectoryEntry → Directories → Directories
mark_entries [] s = s
mark_entries (entry ∷ entries) s = mark_entries entries (record s {
  repository_ignored_paths =
      if is_true entry.ignored
      then set_add entry.path s.repository_ignored_paths
      else set_delete entry.path s.repository_ignored_paths;
  known_empty_directories =
      if is_known_empty entry
      then set_add entry.path s.known_empty_directories
      else set_delete entry.path s.known_empty_directories;
})

-- `page.nextCursor` when it is neither missing nor empty
unfoldable pub further_cursor : Option Text → Option Text
further_cursor none = none
further_cursor (some cursor) = if is_empty cursor then none else some cursor

unfoldable pub set_cursor : Text → Option Text → Directories → Directories
set_cursor key none s = record s {
  directory_cursors = map_delete key s.directory_cursors;
  paged_directories = set_delete key s.paged_directories;
}
set_cursor key (some cursor) s = record s {
  directory_cursors = map_set key cursor s.directory_cursors;
  paged_directories = set_add key s.paged_directories;
}

-- The children that the new page joins: none for a first page.
unfoldable pub previous_children : Directories → PageRead → List Text
previous_children s r = coalesce_or (map_get r.key s.directory_children) []

unfoldable pub kept_children : Option Text → List Text → List Text
kept_children none previous = []
kept_children (some cursor) previous = previous

unfoldable pub replaced_children : Option Text → List Text → List Text
replaced_children none previous = previous
replaced_children (some cursor) previous = []

-- The children of the directory with the page.
unfoldable pub joined_paths : Directories → PageRead → DirectoryEntries → List Text
joined_paths s r page =
    sort_texts (
      set_add_all (map (λ e. e.path) page.entries) (kept_children r.cursor (previous_children s r)))

-- What a page that is accepted sets before the tree is rebuilt.
unfoldable pub store_page : Directories → PageRead → DirectoryEntries → Directories
store_page s r page =
    let s1 = record s {
      watch_coverage = coalesce_or page.watch_coverage s.watch_coverage;
      repository_files_generation = page.generation;
      directory_generations = map_set r.key page.generation s.directory_generations;
    } in
    let s2 = forget_marks (replaced_children r.cursor (previous_children s r)) s1 in
    let s3 = mark_entries page.entries s2 in
    set_cursor r.key (further_cursor page.next_cursor) (record s3 {
      directory_children = map_set r.key (joined_paths s r page) s3.directory_children;
    })

unfoldable pub adopt_page : Directories → PageRead → DirectoryEntries → Directories
adopt_page s r page = record (rebuild_paths (store_page s r page)) { repository_files_error = none }

unfoldable pub fail_page : Directories → PageRead → Text → Directories
fail_page s r message = record s {
  directory_errors = map_set r.key message s.directory_errors;
  repository_files_error = some message;
}

-- A further page is of another generation than the directory.
unfoldable pub has_changed : Directories → PageRead → DirectoryEntries → Bool
has_changed s r page =
    is_some r.cursor
    && is_some (map_get r.key s.directory_generations)
    && not (is_number page.generation (map_get r.key s.directory_generations))

unfoldable pub answer_page :
    Directories → PageRead → Answer DirectoryEntries → Directories × PageEnd
answer_page s r (arrived page) =
    if ltb page.generation s.repository_files_generation
    then (s, page_null)
    else if has_changed s r page
    then (
      fail_page s r (codes "Folder changed while directory was loading"),
      page_error (codes "Folder changed while directory was loading"),
    )
    else (adopt_page s r page, page_paths (joined_paths s r page))
answer_page s r (failed status message) = (fail_page s r message, page_error message)

unfoldable pub settle_page :
    Directories → PageRead → Answer DirectoryEntries → Directories × PageEnd
settle_page s r answer =
    if is_superseded s r
    then (finish_page s r, page_null)
    else (finish_page (answer_page s r answer).0 r, (answer_page s r answer).1)

-- What `invalidateReadWork` does to the directories.
unfoldable pub invalidate_directories : Directories → Directories
invalidate_directories s = record s {
  repository_epoch = suc s.repository_epoch;
  repository_files_loading = false;
  repository_files_error = none;
  directory_errors = [];
  aborted = values s.directory_controllers ++ s.aborted;
}
