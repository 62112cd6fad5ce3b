-- ===== src/History/Examples.antt =====
-- Runs of the loading of the commit graph on small pages.
use gitna.Prelude.{arith, refl, true, false, none, some, List, [], ◌∷◌}
use gitna.Graph.{head_parent, GraphCommit, compute_graph}
use gitna.Graph.Paging.{HasFirstParent}
use gitna.History.{
  History, GraphPage, Event, asks_refresh, asks_more, invalidates, answers_page, answers_count,
  arrived, World, refreshing, step, run, invalidate_reads,
}
use gitna.History.Rows.{IsDrawn, run-IsDrawn}
use gitna.History.Staleness.{IsSame, invalidate_reads-run}

abbrev no_history : History
no_history = record {
  graph_commits = [];
  graph_rows = compute_graph [];
  graph_has_more = false;
  graph_tip = [];
  graph_generation = 0;
  graph_total = none;
  graph_loading = false;
  graph_error = none;
  graph_count_loading = false;
  graph_request = 0;
  graph_count_request = 0;
  graph_controller = none;
  graph_count_controller = none;
  aborted = [];
  aborted_counts = [];
  graph_count_cache = [];
  repository_epoch = 0;
  expanded = [];
  commit_files = [];
  commit_stats = [];
  commit_diff = none;
}

abbrev newest : GraphCommit
newest = record {
  oid = b'b' ∷ [];
  parents = (b'a' ∷ []) ∷ [];
  subject = [];
  author_name = [];
  author_time = [];
  refs = [];
  branches = none;
}

abbrev oldest : GraphCommit
oldest = record newest { oid = b'a' ∷ []; parents = [] }

abbrev first_page : GraphPage
first_page = record { commits = newest ∷ []; has_more = true; tip = b'b' ∷ []; generation = 1 }

abbrev second_page : GraphPage
second_page = record first_page { commits = newest ∷ oldest ∷ []; has_more = false }

abbrev at_start : World
at_start = record { history = no_history; in_flight = [] }

abbrev loading_events : List Event
loading_events =
    asks_refresh 0
    ∷ answers_page 0 (arrived first_page)
    ∷ asks_more
    ∷ answers_page 1 (arrived second_page)
    ∷ answers_count 0 (arrived (record { tip = b'b' ∷ []; generation = 1; total = 2 }))
    ∷ []

newest-HasFirstParent : HasFirstParent newest
unfolding head_parent
newest-HasFirstParent e = cc

oldest-HasFirstParent : HasFirstParent oldest
unfolding head_parent
oldest-HasFirstParent e = cc

run-IsDrawn_example : IsDrawn (run at_start loading_events).history
run-IsDrawn_example =
    run-IsDrawn at_start loading_events (refl, tt)
      (
        tt,
        (
          (newest-HasFirstParent, tt),
          (tt, ((newest-HasFirstParent, (oldest-HasFirstParent, tt)), (tt, tt))),
        ),
      )

abbrev waiting : World
waiting = record {
  history = record no_history {
    graph_request = 1;
    graph_controller = some 1;
    graph_loading = true;
  };
  in_flight =
      refreshing
        (record { request = 1; count_request = 1; epoch = 0; attempt = 0; count_recovery = 0 })
      ∷ [];
}

abbrev late_answers : List Event
late_answers = answers_page 0 (arrived first_page) ∷ []

invalidate_reads-run_example :
    IsSame (run (step waiting invalidates) late_answers).history (invalidate_reads waiting.history)
invalidate_reads-run_example = invalidate_reads-run waiting late_answers (omega arith, tt) (tt, tt)
