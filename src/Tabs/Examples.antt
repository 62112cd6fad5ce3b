-- ===== src/Tabs/Examples.antt =====
-- Runs of the open files on small inputs.
use gitna.Prelude.{includes, not, keep, ◌≡◌, refl, true, false, none, some, List, [], ◌∷◌, codes}
use gitna.Documents.{new_store}
use gitna.Tabs.{
  Tabs, TabEvent, connected, selects_file, closes_files, renames_entry, handle_all,
  close_repository_files,
}
use gitna.Tabs.Invariant.{IsShownOpen, handle_all-IsShownOpen}
use gitna.Tabs.Closing.{close_repository_files-open}

abbrev no_tabs : Tabs
no_tabs = record {
  repository_paths = codes "a" ∷ codes "b/c" ∷ [];
  changes = none;
  connection_state = connected;
  documents = new_store;
  selection = none;
  commit_diff = none;
  compare_target = none;
  compare_files = [];
  compare_diff = none;
  repository_file_path = none;
  repository_open_paths = [];
  repository_selected_paths = [];
  repository_file_comparison = none;
  repository_file_comparison_active = false;
  repository_file_reveal_version = 0;
  worktree_rename = none;
}

abbrev tab_events : List TabEvent
tab_events =
    selects_file (codes "a") false
    ∷ selects_file (codes "b/c") true
    ∷ renames_entry (codes "b") (codes "d")
    ∷ closes_files (codes "d/c" ∷ []) false
    ∷ []

no_tabs-IsShownOpen : IsShownOpen no_tabs
unfolding IsShownOpen
no_tabs-IsShownOpen = refl

handle_all-IsShownOpen_example : IsShownOpen (handle_all no_tabs tab_events)
handle_all-IsShownOpen_example = handle_all-IsShownOpen no_tabs tab_events no_tabs-IsShownOpen

abbrev two_tabs : Tabs
two_tabs = record no_tabs {
  repository_file_path = some (codes "a");
  repository_open_paths = codes "a" ∷ codes "b/c" ∷ [];
}

close_repository_files-open_example :
    (close_repository_files two_tabs (codes "a" ∷ []) false).repository_open_paths
    ≡ keep (λ p. not (includes (codes "a" ∷ []) p)) two_tabs.repository_open_paths
close_repository_files-open_example = close_repository_files-open two_tabs (codes "a" ∷ []) false
