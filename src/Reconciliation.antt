-- ===== src/Reconciliation.antt =====
-- web/src/diffshub/gitna/repository.tsx, the reconciliation of what the client shows with the server:
-- performReconciliation, finishReconciliation and startReconciliation up to its first `await`. The state of
-- the connection holds the reads of the snapshot (Snapshot); what the other reads gave is an argument.
-- Times are in milliseconds. An operation that has lost its promise has lost its lifecycle or its source,
-- so that it changes nothing more: only the one that has the promise is kept.
use gitna.Prelude.{
  ℕ, Bool, true, false, not, ◌&&◌, ◌||◌, Option, none, some, List, ◌==◌, if◌then◌else◌, is_some,
  find_first, Text,
}
use gitna.Git.{RepoSnapshot}
use gitna.Tabs.{
  ConnectionState, connecting, connected, reconnecting, reconciling, unreachable, session_error,
}
use gitna.Reads.{
  ReadResult, has_succeeded, has_failed, is_obsolete, ReconciliationOutcome, reconciliation_outcome,
  obsolete_outcome, succeeded_outcome,
}
use gitna.Actions.{FileMembershipRefresh, stronger_file_membership_refresh}
use gitna.Snapshot.{SnapshotState, SnapshotWorld, snapshot_step, wants_snapshot, epoch_of}

pub record ReconciliationIntent : Type 0 where
  pub probe_only : Bool
  pub file_membership : FileMembershipRefresh
  pub include_explorer : Bool
  pub include_git : Bool

-- What a reconciliation waits for: the snapshot, or the reads of the explorer and of git.
pub data Phase : Type 0 where
  reads_snapshot : Phase
  reads_rest : Bool → Bool → Phase

pub record Reconciliation : Type 0 where
  pub owner : Option ℕ
  pub lifecycle : ℕ
  pub settled_read_epoch : ℕ
  pub intent : ReconciliationIntent
  pub outcome : ReconciliationOutcome
  pub phase : Phase
  pub previous_repository : Option Bool
  pub replaces_source : Bool

pub record RecoveryTimer : Type 0 where
  pub due : ℕ
  pub notice_at : Option ℕ
  pub owner : Option ℕ
  pub owner_epoch : ℕ

pub record InitialRefresh : Type 0 where
  pub read_epoch : ℕ
  pub lifecycle : ℕ

pub record Connection : Type 0 where
  pub reads : SnapshotWorld
  pub connection_state : ConnectionState
  pub connection_error : Option Text
  pub connection_last_success_at : Option ℕ
  pub event_source : Option ℕ
  pub next_source : ℕ
  pub source_open : Bool
  pub source_has_opened : Bool
  pub disposed : Bool
  pub readiness_epoch : Option ℕ
  pub reconciliation_epoch : ℕ
  pub reconciliation_promise : Option Reconciliation
  pub pending_reconciliation : Option ReconciliationIntent
  pub unresolved_reconciliation_failure : Option Text
  pub recovery_timer : Option RecoveryTimer
  pub recovery_started_at : Option ℕ
  pub recovery_notice_at : Option ℕ
  pub recovery_notice_delivered : Bool
  pub recovery_transport_lost : Bool
  pub recovery_attempt : ℕ
  pub retry_due_at : Option ℕ
  pub refresh_timer : Bool
  pub refresh_files : Bool
  pub refresh_graph : Bool
  pub initial_refresh_started : Bool
  pub initial_refresh_promise : Option InitialRefresh
  pub initial_refresh_result : Option ReconciliationOutcome

abbrev pub read_epoch : Connection → ℕ
read_epoch c = epoch_of c.reads.state

unfoldable pub is_connected : ConnectionState → Bool
is_connected connected = true
is_connected connecting = false
is_connected reconnecting = false
is_connected reconciling = false
is_connected unreachable = false
is_connected session_error = false

abbrev pub set_connection_state : Connection → ConnectionState → Option Text → Connection
set_connection_state c state error = record c { connection_state = state; connection_error = error }

abbrev pub succeeded_result : ReadResult → Bool
succeeded_result has_succeeded = true
succeeded_result has_failed = false
succeeded_result is_obsolete = false

abbrev pub failed_result : ReadResult → Bool
failed_result has_failed = true
failed_result has_succeeded = false
failed_result is_obsolete = false

abbrev pub obsolete_result : ReadResult → Bool
obsolete_result is_obsolete = true
obsolete_result has_succeeded = false
obsolete_result has_failed = false

unfoldable pub repository_of : Option RepoSnapshot → Option Bool
repository_of none = none
repository_of (some snapshot) = some snapshot.repository

unfoldable pub shown_repository : Connection → Option Bool
shown_repository c = repository_of c.reads.state.snapshot

-- The state of a connection whose source is closed.
unfoldable pub closed_state : Connection → ConnectionState
closed_state c =
    if c.recovery_notice_delivered
    then unreachable
    else if c.source_has_opened
    then reconnecting
    else connecting

-- `performReconciliation` up to its first `await`.
unfoldable pub perform_begin : Connection → ReconciliationIntent → Connection
unfolding closed_state
perform_begin c intent =
    let shown =
      if not c.source_open || not (is_connected c.connection_state)
      then set_connection_state c (if c.source_open then reconciling else closed_state c)
          (if c.source_open || c.recovery_notice_delivered then c.connection_error else none)
      else c in
    record shown { reads = snapshot_step c.reads (wants_snapshot intent.file_membership) }

-- The repository has become a git repository, or is none any more.
unfoldable pub capability_changed : Option Bool → Option Bool → Bool
capability_changed none now = false
capability_changed (some before) none = true
capability_changed (some true) (some now) = not now
capability_changed (some false) (some now) = now

-- What comes after the snapshot was read: the reconciliation is over, or goes on with the other reads.
pub data Performed : Type 0 where
  is_over : Connection → ReconciliationOutcome → Performed
  goes_on : Connection → Phase → Performed

unfoldable pub drop_readiness : Connection → Bool → Connection
drop_readiness c probe_only = if probe_only then c else record c { readiness_epoch = none }

unfoldable pub perform_snapshot : Connection → Reconciliation → ReconciliationOutcome → Performed
unfolding drop_readiness
perform_snapshot c r outcome =
    let changed = capability_changed r.previous_repository (shown_repository c) in
    if not (r.settled_read_epoch == read_epoch c)
    then is_over c obsolete_outcome
    else if not (succeeded_result outcome.result)
    then is_over (drop_readiness c r.intent.probe_only) outcome
    else if r.intent.probe_only
    then is_over c (reconciliation_outcome has_succeeded none none false false)
    else goes_on (if changed then set_connection_state c reconciling none else c)
        (reads_rest (r.intent.include_explorer || changed) (r.intent.include_git || changed))

-- `results.find(failed) ?? results.find(obsolete)`
unfoldable pub first_of :
    Option ReconciliationOutcome → Option ReconciliationOutcome → Option ReconciliationOutcome
first_of none other = other
first_of (some outcome) other = some outcome

unfoldable pub unsuccessful : List ReconciliationOutcome → Option ReconciliationOutcome
unsuccessful results =
    first_of (find_first (λ o. failed_result o.result) results)
      (find_first (λ o. obsolete_result o.result) results)

unfoldable pub is_epoch : Option ℕ → ℕ → Bool
is_epoch none epoch = false
is_epoch (some e) epoch = e == epoch

unfoldable pub conclude :
    Connection → ℕ → Bool → Option ReconciliationOutcome → Connection × ReconciliationOutcome
conclude c epoch is_full (some outcome) = (record c { readiness_epoch = none }, outcome)
conclude c epoch is_full none =
    let ready = if is_full then some epoch else c.readiness_epoch in
    (
      record c { readiness_epoch = ready },
      reconciliation_outcome has_succeeded none none false (is_epoch ready epoch),
    )

-- The end of `performReconciliation`, with the outcomes of the explorer, its generations, git and the graph.
unfoldable pub perform_reads :
    Connection
    → Reconciliation
    → Bool
    → Bool
    → List ReconciliationOutcome
    → Connection × ReconciliationOutcome
unfolding conclude
perform_reads c r include_explorer include_git results =
    if not (r.settled_read_epoch == read_epoch c)
    then (c, obsolete_outcome)
    else conclude c (read_epoch c) (include_explorer && include_git) (unsuccessful results)

unfoldable pub next_failure : Connection → ReconciliationOutcome → Option Text
next_failure c outcome =
    if failed_result outcome.result
    then outcome.failure
    else if succeeded_result outcome.result && outcome.authoritative
    then none
    else c.unresolved_reconciliation_failure

-- Everything that an outage set is reset.
unfoldable pub settled_connection : Connection → ℕ → Connection
settled_connection c now = record c {
  connection_last_success_at = some now;
  recovery_started_at = none;
  recovery_notice_at = none;
  recovery_notice_delivered = false;
  recovery_transport_lost = false;
  recovery_attempt = 0;
  retry_due_at = none;
  recovery_timer = none;
  connection_state = connected;
  connection_error = none;
}

unfoldable pub finish_reconciliation : Connection → ReconciliationOutcome → ℕ → Connection
unfolding settled_connection
finish_reconciliation c outcome now =
    let failure = next_failure c outcome in
    let noted = record c { unresolved_reconciliation_failure = failure } in
    if succeeded_result outcome.result && outcome.authoritative && c.source_open
    then settled_connection noted now
    else if failed_result outcome.result && outcome.session_error
    then set_connection_state noted session_error outcome.failure
    else if c.source_open
    then set_connection_state noted reconciling failure
    else if not c.recovery_notice_delivered
    then set_connection_state noted (if c.source_has_opened then reconnecting else connecting)
        failure
    else noted

unfoldable pub merge_intent :
    Option ReconciliationIntent → ReconciliationIntent → ReconciliationIntent
merge_intent none intent = intent
merge_intent (some pending) intent = record {
  probe_only = pending.probe_only && intent.probe_only;
  file_membership = stronger_file_membership_refresh pending.file_membership intent.file_membership;
  include_explorer = pending.include_explorer || intent.include_explorer;
  include_git = pending.include_git || intent.include_git;
}

-- A pending read of the snapshot learns of the intent too.
unfoldable pub strengthen_reads : SnapshotState → FileMembershipRefresh → SnapshotState
strengthen_reads s membership =
    if is_some s.refresh_promise
    then record s {
      pending_file_membership_refresh =
          stronger_file_membership_refresh s.pending_file_membership_refresh membership;
    }
    else s

unfoldable pub join_reconciliation : Connection → ReconciliationIntent → Connection
join_reconciliation c intent = record c {
  pending_reconciliation = some (merge_intent c.pending_reconciliation intent);
  reads = record c.reads { state = strengthen_reads c.reads.state intent.file_membership };
}

-- The head of the loop of `startReconciliation`, and `performReconciliation` up to its `await`.
unfoldable pub begin_reconciliation :
    Connection → Option ℕ → ℕ → ReconciliationIntent → ReconciliationOutcome → Bool → Connection
begin_reconciliation c owner lifecycle intent outcome replaces_source =
    let begun = perform_begin (record c { pending_reconciliation = none }) intent in
    record begun {
      reconciliation_promise = some (record {
        owner = owner;
        lifecycle = lifecycle;
        settled_read_epoch = read_epoch c;
        intent = intent;
        outcome = outcome;
        phase = reads_snapshot;
        previous_repository = shown_repository c;
        replaces_source = replaces_source;
      });
    }

unfoldable pub start_reconciliation : Connection → ReconciliationIntent → Bool → Connection
start_reconciliation c intent replaces_source =
    if is_some c.reconciliation_promise
    then join_reconciliation c intent
    else begin_reconciliation c c.event_source c.reconciliation_epoch intent succeeded_outcome
        replaces_source
