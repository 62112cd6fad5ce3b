-- ===== src/DirectoryPages/Frames.antt =====
-- What the adoption of a page leaves alone, up to the removal of orphans.
use gitna.Prelude.{
  map_set, map_set, Option, JsMap, JsMap, ◌≡◌, List, Text, refl, ap, ◌∙◌, [], ◌∷◌, none, some,
}
use gitna.Directories.{DirectoryEntries, DirectoryEntry, Directories}
use gitna.DirectoryPages.{
  further_cursor, Option, set_cursor, mark_entries, forget_marks, PageRead, ℕ, store_page,
}

-- The parts of the state that the marks do not touch.
abbrev pub with_marks : Directories → Directories → Directories
with_marks s t = record s {
  repository_ignored_paths = t.repository_ignored_paths;
  known_empty_directories = t.known_empty_directories;
}

forget_marks-frame :
    (paths : List Text) (s : Directories)
    → forget_marks paths s ≡ with_marks s (forget_marks paths s)
unfolding forget_marks
forget_marks-frame [] s = refl
forget_marks-frame (path ∷ paths) s = forget_marks-frame paths _

mark_entries-frame :
    (entries : List DirectoryEntry) (s : Directories)
    → mark_entries entries s ≡ with_marks s (mark_entries entries s)
unfolding mark_entries
mark_entries-frame [] s = refl
mark_entries-frame (entry ∷ entries) s = mark_entries-frame entries _

-- The requests of a state, with what says that they are on the way.
pub record HasRequestsOf (s t : Directories) : Type 0 where
  pub same_controllers : t.directory_controllers ≡ s.directory_controllers
  pub same_requests : t.directory_requests ≡ s.directory_requests
  pub same_aborted : t.aborted ≡ s.aborted
  pub same_loading : t.repository_files_loading ≡ s.repository_files_loading

set_cursor-HasRequestsOf :
    (key : Text) (cursor : Option Text) (s : Directories)
    → HasRequestsOf s (set_cursor key cursor s)
unfolding set_cursor
set_cursor-HasRequestsOf key none s = record {
  same_controllers = refl;
  same_requests = refl;
  same_aborted = refl;
  same_loading = refl;
}
set_cursor-HasRequestsOf key (some cursor) s = record {
  same_controllers = refl;
  same_requests = refl;
  same_aborted = refl;
  same_loading = refl;
}

marks-HasRequestsOf :
    (entries : List DirectoryEntry) (paths : List Text) (s : Directories)
    → HasRequestsOf s (mark_entries entries (forget_marks paths s))
marks-HasRequestsOf entries paths s =
    let m = mark_entries-frame entries (forget_marks paths s) in
    let f = forget_marks-frame paths s in
    record {
      same_controllers = ap (λ t. t.directory_controllers) m ∙ ap (λ t. t.directory_controllers) f;
      same_requests = ap (λ t. t.directory_requests) m ∙ ap (λ t. t.directory_requests) f;
      same_aborted = ap (λ t. t.aborted) m ∙ ap (λ t. t.aborted) f;
      same_loading =
          ap (λ t. t.repository_files_loading) m ∙ ap (λ t. t.repository_files_loading) f;
    }

-- A page that is stored leaves the requests alone.
pub store_page-HasRequestsOf :
    (s : Directories) (r : PageRead) (page : DirectoryEntries)
    → HasRequestsOf s (store_page s r page)
unfolding store_page
store_page-HasRequestsOf s r page =
    let c = set_cursor-HasRequestsOf r.key (further_cursor page.next_cursor) _ in
    let m = marks-HasRequestsOf page.entries _ _ in
    record {
      same_controllers = c.same_controllers ∙ m.same_controllers;
      same_requests = c.same_requests ∙ m.same_requests;
      same_aborted = c.same_aborted ∙ m.same_aborted;
      same_loading = c.same_loading ∙ m.same_loading;
    }

-- The generations of a state.
pub record HasGenerations (generation : ℕ) (generations : JsMap ℕ) (t : Directories) : Type 0 where
  pub is_generation : t.repository_files_generation ≡ generation
  pub are_generations : t.directory_generations ≡ generations

set_cursor-HasGenerations :
    (key : Text) (cursor : Option Text) (s : Directories)
    → HasGenerations s.repository_files_generation s.directory_generations (set_cursor key cursor s)
unfolding set_cursor
set_cursor-HasGenerations key none s = record { is_generation = refl; are_generations = refl }
set_cursor-HasGenerations key (some cursor) s = record {
  is_generation = refl;
  are_generations = refl;
}

marks-HasGenerations :
    (entries : List DirectoryEntry) (paths : List Text) (s : Directories)
    → HasGenerations s.repository_files_generation s.directory_generations
        (mark_entries entries (forget_marks paths s))
marks-HasGenerations entries paths s =
    let m = mark_entries-frame entries (forget_marks paths s) in
    let f = forget_marks-frame paths s in
    record {
      is_generation =
          ap (λ t. t.repository_files_generation) m ∙ ap (λ t. t.repository_files_generation) f;
      are_generations = ap (λ t. t.directory_generations) m ∙ ap (λ t. t.directory_generations) f;
    }

-- A page that is stored sets its generation, for the explorer and for its directory.
pub store_page-HasGenerations :
    (s : Directories) (r : PageRead) (page : DirectoryEntries)
    → HasGenerations page.generation
        (map_set r.key page.generation s.directory_generations)
        (store_page s r page)
unfolding store_page
store_page-HasGenerations s r page =
    let c = set_cursor-HasGenerations r.key (further_cursor page.next_cursor) _ in
    let m = marks-HasGenerations page.entries _ _ in
    record {
      is_generation = c.is_generation ∙ m.is_generation;
      are_generations = c.are_generations ∙ m.are_generations;
    }
