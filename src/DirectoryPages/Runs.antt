-- ===== src/DirectoryPages/Runs.antt =====
-- Runs of the directories: the pages in flight, and the events in any order.
use gitna.Prelude.{ℕ, zero, suc, List, [], ◌∷◌, Option, none, some, Text, false}
use gitna.History.{Answer}
use gitna.Directories.{DirectoryEntries, Directories, complete_coverage}
use gitna.DirectoryPages.{
  PageRead, Load, has_paths, has_null, joins_page, begins_page, load_directory, refresh_directory,
  resume_refresh, load_more_directory, settle_page, invalidate_directories,
}

pub record PagesWorld : Type 0 where
  pub state : Directories
  pub reads : List PageRead

pub data PagesEvent : Type 0 where
  opens_directory : Text → ℕ → PagesEvent
  refreshes_directory : Text → ℕ → PagesEvent
  resumes_refresh : Text → ℕ → PagesEvent
  opens_more : Text → PagesEvent
  answers_page : ℕ → Answer DirectoryEntries → PagesEvent
  invalidates_directories : PagesEvent

-- The page of the index, and the other ones.
unfoldable pub take_page : ℕ → List PageRead → Option PageRead × List PageRead
take_page i [] = (none, [])
take_page zero (r ∷ reads) = (some r, reads)
take_page (suc i) (r ∷ reads) = let (taken, rest) = take_page i reads in (taken, r ∷ rest)

-- A page that was begun waits for the server.
unfoldable pub waiting_page : Load → List PageRead → List PageRead
waiting_page (has_paths paths) reads = reads
waiting_page has_null reads = reads
waiting_page (joins_page n) reads = reads
waiting_page (begins_page r) reads = r ∷ reads

unfoldable pub with_load : List PageRead → Directories × Load → PagesWorld
with_load reads (s, load) = record { state = s; reads = waiting_page load reads }

unfoldable pub with_answer :
    PagesWorld → Answer DirectoryEntries → Option PageRead × List PageRead → PagesWorld
with_answer w answer (none, rest) = w
with_answer w answer (some r, rest) = record {
  state = (settle_page w.state r answer).0;
  reads = rest;
}

unfoldable pub pages_step : PagesWorld → PagesEvent → PagesWorld
pages_step w (opens_directory directory epoch) =
    with_load w.reads (load_directory w.state directory epoch)
pages_step w (refreshes_directory directory epoch) =
    with_load w.reads (refresh_directory w.state directory epoch)
pages_step w (resumes_refresh key epoch) = with_load w.reads (resume_refresh w.state key epoch)
pages_step w (opens_more directory) = with_load w.reads (load_more_directory w.state directory)
pages_step w (answers_page i answer) = with_answer w answer (take_page i w.reads)
pages_step w invalidates_directories = record w { state = invalidate_directories w.state }

unfoldable pub pages_run : PagesWorld → List PagesEvent → PagesWorld
pages_run w [] = w
pages_run w (e ∷ events) = pages_run (pages_step w e) events

abbrev pub no_directories : Directories
no_directories = record {
  repository_epoch = 0;
  repository_paths = [];
  repository_ignored_paths = [];
  repository_files_loading = false;
  repository_files_error = none;
  repository_files_generation = 0;
  unloaded_directories = [];
  known_empty_directories = [];
  paged_directories = [];
  directory_errors = [];
  watch_coverage = complete_coverage;
  directory_children = [];
  directory_cursors = [];
  directory_generations = [];
  directory_requests = [];
  directory_controllers = [];
  aborted = [];
  next_controller = 0;
}

abbrev pub no_pages : PagesWorld
no_pages = record { state = no_directories; reads = [] }
