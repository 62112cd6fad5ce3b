-- ===== src/Connection/Examples.antt =====
-- Runs of the connection on small inputs.
use gitna.Prelude.{
  leb, leb, ◌≤◌, ◌||◌, ◌&&◌, not, ◌+◌, ◌≡◌, refl, true, false, none, some, List, [], ◌∷◌, codes,
}
use gitna.Actions.{unknown}
use gitna.History.{History}
use gitna.Graph.{compute_graph}
use gitna.Git.{GitState}
use gitna.Tabs.{connecting, reconnecting}
use gitna.Reads.{
  ReconciliationOutcome, reconciliation_outcome, ReconciliationOutcome, succeeded_outcome,
  failed_outcome,
}
use gitna.Snapshot.{SnapshotState}
use gitna.Reconciliation.{
  succeeded_result, succeeded_result, is_connected, is_connected, Connection,
}
use gitna.Connection.{
  fire_recovery, ℕ, not, ConnectionEvent, connects, opens, fails, recovery_fires, refreshes_folder,
  settles, connection_run, schedule_again,
}
use gitna.Connection.Soundness.{IsSound}
use gitna.Connection.Consistency.{connection_run-IsSound}
use gitna.Connection.Recovery.{IsAway, IsProbing, IsProbedOrProbing, schedule_again-IsProbing}

abbrev empty_history : History
empty_history = record {
  graph_commits = [];
  graph_rows = compute_graph [];
  graph_has_more = false;
  graph_tip = [];
  graph_generation = 0;
  graph_total = none;
  graph_loading = false;
  graph_error = none;
  graph_count_loading = false;
  graph_request = 0;
  graph_count_request = 0;
  graph_controller = none;
  graph_count_controller = none;
  aborted = [];
  aborted_counts = [];
  graph_count_cache = [];
  repository_epoch = 0;
  expanded = [];
  commit_files = [];
  commit_stats = [];
  commit_diff = none;
}

abbrev no_git : GitState
no_git = record {
  history = empty_history;
  graph_reveal = none;
  files_loading = [];
  files_error = [];
  git_detail_epoch = 0;
  branches = [];
  remotes = [];
  branches_loading = false;
  branches_error = none;
  branches_request = 0;
  stashes = [];
  stashes_loading = false;
  stashes_error = none;
  stashes_request = 0;
  tags = [];
  tags_loading = false;
  tags_error = none;
  tags_request = 0;
  compare_target = none;
  compare_files = [];
  compare_diff = none;
  compare_loading = false;
  compare_error = none;
  compare_request = 0;
  conflicts = [];
  conflicts_loading = false;
  conflicts_error = none;
  conflicts_request = 0;
  selection = none;
  repository_file_total = none;
  repository_file_total_generation = 0;
  repository_file_count_loading = false;
  repository_file_count_request = 0;
}

abbrev no_snapshot : SnapshotState
no_snapshot = record {
  snapshot = none;
  generation = 0;
  loading = false;
  error = none;
  refresh_again = false;
  pending_file_membership_refresh = unknown;
  refresh_promise = none;
  next_operation = 0;
  git = no_git;
}

abbrev new_connection : Connection
new_connection = record {
  reads = record { state = no_snapshot; reads = [] };
  connection_state = connecting;
  connection_error = none;
  connection_last_success_at = none;
  event_source = none;
  next_source = 0;
  source_open = false;
  source_has_opened = false;
  disposed = false;
  readiness_epoch = none;
  reconciliation_epoch = 0;
  reconciliation_promise = none;
  pending_reconciliation = none;
  unresolved_reconciliation_failure = none;
  recovery_timer = none;
  recovery_started_at = none;
  recovery_notice_at = none;
  recovery_notice_delivered = false;
  recovery_transport_lost = false;
  recovery_attempt = 0;
  retry_due_at = none;
  refresh_timer = false;
  refresh_files = false;
  refresh_graph = false;
  initial_refresh_started = false;
  initial_refresh_promise = none;
  initial_refresh_result = none;
}

new_connection-IsSound : IsSound new_connection
unfolding IsSound is_connected
new_connection-IsSound e = cc

abbrev connection_events : List ConnectionEvent
connection_events =
    connects 0 500
    ∷ refreshes_folder
    ∷ opens 10
    ∷ settles (succeeded_outcome ∷ []) false 20 100
    ∷ settles (succeeded_outcome ∷ succeeded_outcome ∷ []) false 30 100
    ∷ fails 40 700
    ∷ recovery_fires 2000 300
    ∷ []

connection_run-IsSound_example : IsSound (connection_run new_connection connection_events)
connection_run-IsSound_example =
    connection_run-IsSound new_connection connection_events new_connection-IsSound

abbrev lost_connection : Connection
lost_connection = record new_connection {
  connection_state = reconnecting;
  event_source = some 0;
  recovery_transport_lost = true;
}

away_now : is_connected lost_connection.connection_state ≡ false
unfolding is_connected
away_now = refl

abbrev no_answer : ReconciliationOutcome
no_answer = failed_outcome (codes "no answer") (codes "snapshot")

failed_again :
    (not (succeeded_result no_answer.result && no_answer.authoritative)
      || lost_connection.recovery_transport_lost)
    ≡ true
unfolding reconciliation_outcome
failed_again = refl

lost_connection-IsAway : IsAway lost_connection
lost_connection-IsAway = record {
  is_open = refl;
  has_source = refl;
  not_connected = away_now;
  is_idle = refl;
}

schedule_again-IsProbing_example :
    let scheduled = schedule_again lost_connection no_answer 40 250 in
    (deadline : ℕ) × (deadline ≤ 40 + 15000)
    × IsProbing scheduled deadline
    × IsProbedOrProbing (leb deadline 20000) (fire_recovery scheduled 20000 100) deadline
schedule_again-IsProbing_example =
    schedule_again-IsProbing lost_connection no_answer 40 250 20000 100 lost_connection-IsAway
      failed_again
