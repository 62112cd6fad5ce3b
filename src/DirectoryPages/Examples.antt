-- ===== src/DirectoryPages/Examples.antt =====
-- Runs of the pages on small trees.
use gitna.Prelude.{
  map_get, map_set, map_delete, text_dec, is_before, insert_text, sort_texts, set_add, set_delete,
  set_add_all, set_add_all, set_add_all, set_delete, set_delete, set_add, set_add, map_delete,
  map_delete, map_set, map_set, map_get, map_get, sort_texts, sort_texts, insert_text, is_before,
  text_dec, ◌≡◌, List, refl, [], ◌∷◌, true, false, none, some, codes,
}
use gitna.History.{is_member, abort, arrived}
use gitna.Directories.{
  drop_last, directory_key, parent_directory, is_listed, is_orphan, remove_directory, is_removable,
  removal_pass, removal_passes, remove_orphans, all_children, is_unloaded, publish_paths,
  rebuild_paths, directory_key, drop_last, rebuild_paths, DirectoryEntry, DirectoryEntries,
  Directories, directory_kind, file_kind,
}
use gitna.Directories.Reaching.{IsKeptOrGone, rebuild_paths-IsKeptOrGone}
use gitna.Directories.Publishing.{IsAccurate}
use gitna.DirectoryPages.{
  fetch_page, join_or_fetch, load_key, load_directory, refresh_directory, resume_refresh, load_rest,
  load_more_directory, is_current_page, is_superseded, finish_page, forget_marks, is_known_empty,
  mark_entries, further_cursor, set_cursor, previous_children, kept_children, replaced_children,
  joined_paths, store_page, adopt_page, fail_page, has_changed, answer_page, settle_page,
  invalidate_directories,
}
use gitna.DirectoryPages.Runs.{
  take_page, waiting_page, with_load, with_answer, pages_step, PagesEvent, opens_directory,
  refreshes_directory, answers_page, no_directories, no_pages, pages_run,
}
use gitna.DirectoryPages.Accurate.{pages_run-IsAccurate}
use gitna.DirectoryPages.Generations.{IsFreshTree, pages_run-IsFreshTree}
use gitna.DirectoryPages.Loading.{IsShown, pages_run-IsShown}

abbrev folder_entry : DirectoryEntry
folder_entry = record {
  kind = directory_kind;
  name = codes "a";
  path = codes "a/";
  has_children = some true;
  ignored = none;
}

abbrev file_entry : DirectoryEntry
file_entry = record {
  kind = file_kind;
  name = codes "b";
  path = codes "a/b";
  has_children = none;
  ignored = some true;
}

abbrev root_page : DirectoryEntries
root_page = record {
  generation = 1;
  directory = [];
  entries = folder_entry ∷ [];
  truncated = false;
  next_cursor = none;
  watch_coverage = none;
}

-- The root with its first page, which does not list the folder.
abbrev short_page : DirectoryEntries
short_page = record root_page { entries = []; next_cursor = some (codes "next") }

abbrev folder_page : DirectoryEntries
folder_page = record root_page { directory = codes "a"; entries = file_entry ∷ [] }

-- The root and the folder in it are opened, and then the root is refreshed, without the folder.
abbrev opened_events : List PagesEvent
opened_events =
    opens_directory [] 0
    ∷ answers_page 0 (arrived root_page)
    ∷ opens_directory (codes "a/") 0
    ∷ answers_page 0 (arrived folder_page)
    ∷ []

abbrev refreshed_events : List PagesEvent
refreshed_events =
    opens_directory [] 0
    ∷ answers_page 0 (arrived root_page)
    ∷ opens_directory (codes "a/") 0
    ∷ refreshes_directory [] 0
    ∷ answers_page 0 (arrived short_page)
    ∷ answers_page 0 (arrived folder_page)
    ∷ []

opened_paths :
    (pages_run no_pages opened_events).state.repository_paths ≡ codes "a/" ∷ codes "a/b" ∷ []
unfolding text_dec is_before insert_text sort_texts map_get map_set map_delete set_add set_delete
    set_add_all drop_last directory_key parent_directory is_listed is_orphan remove_directory
    is_removable removal_pass removal_passes remove_orphans all_children is_unloaded publish_paths
    rebuild_paths fetch_page join_or_fetch load_key load_directory refresh_directory resume_refresh
    load_rest load_more_directory is_current_page is_superseded finish_page forget_marks
    is_known_empty mark_entries further_cursor set_cursor previous_children kept_children
    replaced_children joined_paths store_page adopt_page fail_page has_changed answer_page
    settle_page invalidate_directories take_page waiting_page with_load with_answer pages_step
    pages_run is_member abort
opened_paths = refl

opened_ignored :
    (pages_run no_pages opened_events).state.repository_ignored_paths ≡ codes "a/b" ∷ []
unfolding text_dec is_before insert_text sort_texts map_get map_set map_delete set_add set_delete
    set_add_all drop_last directory_key parent_directory is_listed is_orphan remove_directory
    is_removable removal_pass removal_passes remove_orphans all_children is_unloaded publish_paths
    rebuild_paths fetch_page join_or_fetch load_key load_directory refresh_directory resume_refresh
    load_rest load_more_directory is_current_page is_superseded finish_page forget_marks
    is_known_empty mark_entries further_cursor set_cursor previous_children kept_children
    replaced_children joined_paths store_page adopt_page fail_page has_changed answer_page
    settle_page invalidate_directories take_page waiting_page with_load with_answer pages_step
    pages_run is_member abort
opened_ignored = refl

-- A page of a folder that its parent no longer lists ends, and the explorer still shows that it loads.
refreshed_loading : (pages_run no_pages refreshed_events).state.repository_files_loading ≡ true
unfolding text_dec is_before insert_text sort_texts map_get map_set map_delete set_add set_delete
    set_add_all drop_last directory_key parent_directory is_listed is_orphan remove_directory
    is_removable removal_pass removal_passes remove_orphans all_children is_unloaded publish_paths
    rebuild_paths fetch_page join_or_fetch load_key load_directory refresh_directory resume_refresh
    load_rest load_more_directory is_current_page is_superseded finish_page forget_marks
    is_known_empty mark_entries further_cursor set_cursor previous_children kept_children
    replaced_children joined_paths store_page adopt_page fail_page has_changed answer_page
    settle_page invalidate_directories take_page waiting_page with_load with_answer pages_step
    pages_run is_member abort
refreshed_loading = refl

refreshed_requests : (pages_run no_pages refreshed_events).state.directory_requests ≡ []
unfolding text_dec is_before insert_text sort_texts map_get map_set map_delete set_add set_delete
    set_add_all drop_last directory_key parent_directory is_listed is_orphan remove_directory
    is_removable removal_pass removal_passes remove_orphans all_children is_unloaded publish_paths
    rebuild_paths fetch_page join_or_fetch load_key load_directory refresh_directory resume_refresh
    load_rest load_more_directory is_current_page is_superseded finish_page forget_marks
    is_known_empty mark_entries further_cursor set_cursor previous_children kept_children
    replaced_children joined_paths store_page adopt_page fail_page has_changed answer_page
    settle_page invalidate_directories take_page waiting_page with_load with_answer pages_step
    pages_run is_member abort
refreshed_requests = refl

refreshed_reads : (pages_run no_pages refreshed_events).reads ≡ []
unfolding text_dec is_before insert_text sort_texts map_get map_set map_delete set_add set_delete
    set_add_all drop_last directory_key parent_directory is_listed is_orphan remove_directory
    is_removable removal_pass removal_passes remove_orphans all_children is_unloaded publish_paths
    rebuild_paths fetch_page join_or_fetch load_key load_directory refresh_directory resume_refresh
    load_rest load_more_directory is_current_page is_superseded finish_page forget_marks
    is_known_empty mark_entries further_cursor set_cursor previous_children kept_children
    replaced_children joined_paths store_page adopt_page fail_page has_changed answer_page
    settle_page invalidate_directories take_page waiting_page with_load with_answer pages_step
    pages_run is_member abort
refreshed_reads = refl

-- A folder that is loaded without its parent.
abbrev orphan_state : Directories
orphan_state = record no_directories {
  directory_children = (codes "a", codes "a/b" ∷ []) ∷ ([], codes "c/" ∷ []) ∷ [];
}

rebuild_paths-IsKeptOrGone_example :
    IsKeptOrGone orphan_state (rebuild_paths orphan_state) (codes "a")
rebuild_paths-IsKeptOrGone_example = rebuild_paths-IsKeptOrGone orphan_state (codes "a")

no_directories-IsAccurate : IsAccurate no_directories
no_directories-IsAccurate = record {
  paths_listed = λ p. refl;
  unloaded_listed = λ p. refl;
  ignored_listed = λ p. refl;
  empty_listed = λ p. refl;
  all_anchored = tt;
}

pages_run-IsAccurate_example : IsAccurate (pages_run no_pages opened_events).state
pages_run-IsAccurate_example = pages_run-IsAccurate no_pages opened_events no_directories-IsAccurate

pages_run-IsFreshTree_example : IsFreshTree 0 (pages_run no_pages opened_events).state
pages_run-IsFreshTree_example = pages_run-IsFreshTree no_pages opened_events tt

no_directories-IsShown : IsShown no_directories
unfolding IsShown
no_directories-IsShown = (refl, tt)

pages_run-IsShown_example : IsShown (pages_run no_pages refreshed_events).state
pages_run-IsShown_example = pages_run-IsShown no_pages refreshed_events no_directories-IsShown
