-- ===== src/FileSearch/Examples.antt =====
-- Two searches, of which the first is answered last.
use gitna.Prelude.{List, [], ◌∷◌, refl, codes, none, true, false}
use gitna.History.{arrived, failed}
use gitna.FileSearch.{
  SearchWorld, SearchEvent, begins_search, answers_search, FileSearchResults, search_run,
}
use gitna.FileSearch.Waiting.{IsWaiting, search_run-IsWaiting}

abbrev no_search : SearchWorld
no_search = record {
  state = record {
    request = 0;
    controller = none;
    aborted = [];
    results = [];
    result_query = none;
    result_include_ignored = false;
    complete = false;
    loading = false;
    error = none;
  };
  reads = [];
}

abbrev no_files : FileSearchResults
no_files = record { generation = 1; results = []; complete = true }

abbrev two_searches : List SearchEvent
two_searches =
    begins_search (codes "a") false
    ∷ begins_search (codes "ab") false
    ∷ answers_search 0 1 (arrived no_files)
    ∷ answers_search 0 1 (failed none (codes "aborted"))
    ∷ []

no_search-IsWaiting : IsWaiting no_search
unfolding IsWaiting
no_search-IsWaiting = (refl, tt)

search_run-IsWaiting_example : IsWaiting (search_run no_search two_searches)
search_run-IsWaiting_example = search_run-IsWaiting no_search two_searches no_search-IsWaiting
