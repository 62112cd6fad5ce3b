-- ===== src/Snapshot/Examples.antt =====
-- Runs of the reads of the snapshot on small inputs.
use gitna.Prelude.{ℕ, refl, true, false, none, List, [], ◌∷◌, codes, arith}
use gitna.History.{History, arrived}
use gitna.Graph.{compute_graph}
use gitna.Actions.{unknown, changed}
use gitna.Git.{GitState, RepoSnapshot}
use gitna.Snapshot.{
  SnapshotState, SnapshotWorld, SnapshotEvent, wants_snapshot, invalidates_reads, answers_snapshot,
  snapshot_run,
}
use gitna.Snapshot.Generations.{IsFresh, snapshot_run-IsFresh}
use gitna.Snapshot.Live.{IsServed}
use gitna.Snapshot.Wanted.{snapshot_run-IsServed}

abbrev empty_history : History
empty_history = record {
  graph_commits = [];
  graph_rows = compute_graph [];
  graph_has_more = false;
  graph_tip = [];
  graph_generation = 0;
  graph_total = none;
  graph_loading = false;
  graph_error = none;
  graph_count_loading = false;
  graph_request = 0;
  graph_count_request = 0;
  graph_controller = none;
  graph_count_controller = none;
  aborted = [];
  aborted_counts = [];
  graph_count_cache = [];
  repository_epoch = 0;
  expanded = [];
  commit_files = [];
  commit_stats = [];
  commit_diff = none;
}

abbrev no_git : GitState
no_git = record {
  history = empty_history;
  graph_reveal = none;
  files_loading = [];
  files_error = [];
  git_detail_epoch = 0;
  branches = [];
  remotes = [];
  branches_loading = false;
  branches_error = none;
  branches_request = 0;
  stashes = [];
  stashes_loading = false;
  stashes_error = none;
  stashes_request = 0;
  tags = [];
  tags_loading = false;
  tags_error = none;
  tags_request = 0;
  compare_target = none;
  compare_files = [];
  compare_diff = none;
  compare_loading = false;
  compare_error = none;
  compare_request = 0;
  conflicts = [];
  conflicts_loading = false;
  conflicts_error = none;
  conflicts_request = 0;
  selection = none;
  repository_file_total = none;
  repository_file_total_generation = 0;
  repository_file_count_loading = false;
  repository_file_count_request = 0;
}

abbrev no_snapshot : SnapshotState
no_snapshot = record {
  snapshot = none;
  generation = 0;
  loading = false;
  error = none;
  refresh_again = false;
  pending_file_membership_refresh = unknown;
  refresh_promise = none;
  next_operation = 0;
  git = no_git;
}

abbrev small_snapshot : ℕ → RepoSnapshot
small_snapshot generation = record {
  app_version = codes "1";
  repository = true;
  root = codes "/r";
  head_oid = none;
  head_branch = none;
  upstream = none;
  ahead = 0;
  behind = 0;
  operation = [];
  staged_changes = [];
  unstaged_changes = [];
  conflicts = none;
  generation = generation;
}

abbrev no_reads : SnapshotWorld
no_reads = record { state = no_snapshot; reads = [] }

abbrev some_events : List SnapshotEvent
some_events =
    wants_snapshot unknown
    ∷ wants_snapshot changed
    ∷ answers_snapshot 0 (arrived (small_snapshot 2))
    ∷ invalidates_reads
    ∷ wants_snapshot changed
    ∷ answers_snapshot 1 (arrived (small_snapshot 3))
    ∷ answers_snapshot 0 (arrived (small_snapshot 1))
    ∷ []

no_snapshot-IsFresh : IsFresh 0 no_snapshot
unfolding IsFresh
no_snapshot-IsFresh = (omega arith, tt)

snapshot_run-IsFresh_example : IsFresh 0 (snapshot_run no_reads some_events).state
snapshot_run-IsFresh_example = snapshot_run-IsFresh 0 no_reads some_events no_snapshot-IsFresh

no_reads-IsServed : IsServed no_reads
unfolding IsServed
no_reads-IsServed = ((refl, refl), tt)

snapshot_run-IsServed_example : IsServed (snapshot_run no_reads some_events)
snapshot_run-IsServed_example = snapshot_run-IsServed no_reads some_events no_reads-IsServed
