-- ===== src/Connection.antt =====
-- web/src/diffshub/gitna/repository.tsx, the connection to the server: connectEvents with its handlers,
-- scheduleRecovery, retryConnection, refreshCurrentFolder, disposeConnection and the end of
-- startReconciliation, as steps of one state. A timer or a source is known by what it holds or by its number.
mod Soundness
mod Handlers
pub mod Consistency
pub mod Recovery
mod Examples
use gitna.Prelude.{
  zero, suc, suc, ℕ, ◌+◌, ◌*◌, ◌/◌, Bool, true, false, not, ◌&&◌, ◌||◌, Option, none, some, List,
  [], ◌∷◌, ◌==◌, if◌then◌else◌, is_some, coalesce_or, ltb, leb, Text, codes,
}
use gitna.History.{Answer}
use gitna.Git.{RepoSnapshot}
use gitna.Tabs.{ConnectionState, connecting, connected, reconnecting, reconciling, unreachable}
use gitna.Reads.{ReconciliationOutcome, obsolete_outcome, succeeded_outcome}
use gitna.Actions.{FileMembershipRefresh, unknown, unchanged, changed}
use gitna.Snapshot.{
  SnapshotState, SnapshotEvent, snapshot_step, wants_snapshot, invalidates_reads, answers_snapshot,
}
use gitna.Reconciliation.{
  Connection, Reconciliation, ReconciliationIntent, Phase, reads_snapshot, reads_rest,
  RecoveryTimer, InitialRefresh, Performed, is_over, goes_on, read_epoch, is_connected,
  set_connection_state, succeeded_result, perform_snapshot, perform_reads, finish_reconciliation,
  begin_reconciliation, start_reconciliation,
}

-- `RECOVERY_DELAYS` and `RECOVERY_OUTAGE_NOTICE`
pub recovery_delay : ℕ → ℕ
recovery_delay zero = 1000
recovery_delay (suc zero) = 2000
recovery_delay (suc (suc zero)) = 4000
recovery_delay (suc (suc (suc zero))) = 8000
recovery_delay (suc (suc (suc (suc n)))) = 15000

abbrev pub recovery_outage_notice : ℕ
recovery_outage_notice = 10000

minimum : ℕ → ℕ → ℕ
minimum m n = if leb m n then m else n

-- The delay with its jitter, in whole milliseconds, when `Math.random()` gives `random` thousandths.
pub jittered : ℕ → ℕ → ℕ
unfolding minimum
jittered attempt random = minimum (recovery_delay attempt * (2000 + random) / 2500) 15000

-- The earlier of two times, either of which may be missing.
pub earliest : Option ℕ → Option ℕ → Option ℕ
earliest none n = n
earliest (some m) none = some m
earliest (some m) (some n) = some (minimum m n)

pub wanted_notice : Connection → Option ℕ
wanted_notice c =
    if c.recovery_transport_lost && not c.source_open && not c.recovery_notice_delivered
    then c.recovery_notice_at
    else none

pub arm_at : Connection → Option ℕ → Connection
arm_at c none = c
arm_at c (some due) = record c {
  recovery_timer = some (record {
    due = due;
    notice_at = wanted_notice c;
    owner = c.event_source;
    owner_epoch = c.reconciliation_epoch;
  });
}

-- A timer for what is due first, unless there is one.
arm_recovery : Connection → Connection
arm_recovery c =
    if is_some c.recovery_timer
    then c
    else arm_at c (
        earliest (if is_some c.reconciliation_promise then none else c.retry_due_at)
          (wanted_notice c))

-- The deadline of the next probe, unless there is one or a probe runs.
set_deadline : Connection → ℕ → ℕ → Connection
set_deadline c now random =
    if is_some c.retry_due_at || is_some c.reconciliation_promise
    then c
    else record c { retry_due_at = some (now + jittered c.recovery_attempt random) }

pub schedule_recovery : Connection → Bool → ℕ → ℕ → Connection
schedule_recovery c force now random =
    if c.disposed || not (is_some c.event_source) || is_connected c.connection_state
    then c
    else arm_recovery (
        set_deadline
          (record c {
            recovery_started_at = some (coalesce_or c.recovery_started_at now);
            recovery_timer = if force then none else c.recovery_timer;
          })
          now random)

-- `invalidateReadWork`, of the connection and of the snapshot.
pub invalidate_read_work : Connection → Connection
invalidate_read_work c = record c {
  reads = snapshot_step c.reads invalidates_reads;
  readiness_epoch = none;
  initial_refresh_promise = none;
  initial_refresh_result = none;
}

-- What `disposeConnection` forgets unless the outage goes on with another source.
pub forget_outage : Connection → Connection
forget_outage c = record c {
  unresolved_reconciliation_failure = none;
  recovery_started_at = none;
  recovery_notice_at = none;
  recovery_notice_delivered = false;
  recovery_transport_lost = false;
  recovery_attempt = 0;
  retry_due_at = none;
}

pub close_source : Connection → Connection
close_source c = record (invalidate_read_work c) {
  disposed = true;
  refresh_timer = false;
  recovery_timer = none;
  reconciliation_epoch = c.reconciliation_epoch + 1;
  pending_reconciliation = none;
  reconciliation_promise = none;
  source_open = false;
  source_has_opened = false;
  event_source = none;
  connection_state = connecting;
  connection_error = none;
}

pub dispose_connection : Connection → Bool → Connection
dispose_connection c preserve_recovery =
    if not (is_some c.event_source)
    then c
    else (let closed = close_source c in if preserve_recovery then closed else forget_outage closed)

-- A new source; its handlers have nothing to refresh yet.
pub open_source : Connection → Connection
open_source c = record c {
  disposed = false;
  event_source = some c.next_source;
  next_source = c.next_source + 1;
  refresh_files = false;
  refresh_graph = false;
}

pub connect_events : Connection → ℕ → ℕ → Connection
connect_events c now random =
    let opened = open_source c in
    if is_some c.event_source
    then c
    else if is_some c.retry_due_at || c.recovery_transport_lost
    then schedule_recovery opened false now random
    else opened

pub replace_source : Connection → ℕ → ℕ → Connection
replace_source c now random = connect_events (dispose_connection c true) now random

-- A pending read of the snapshot is told at once that files may have come or gone.
warn_reads : SnapshotState → SnapshotState
warn_reads s =
    if is_some s.refresh_promise then record s { pending_file_membership_refresh = changed } else s

pub schedule_snapshot : Connection → Bool → Bool → Connection
schedule_snapshot c include_files include_graph = record c {
  reads = if include_files then record c.reads { state = warn_reads c.reads.state } else c.reads;
  refresh_files = c.refresh_files || include_files;
  refresh_graph = c.refresh_graph || include_graph;
  refresh_timer = true;
}

-- The timer of `scheduleSnapshot`.
pub fire_refresh : Connection → Connection
fire_refresh c =
    start_reconciliation
      (record c { refresh_timer = false; refresh_files = false; refresh_graph = false })
      (record {
        probe_only = not c.source_open;
        file_membership = if c.refresh_files then changed else unchanged;
        include_explorer = c.refresh_files;
        include_git = c.refresh_graph;
      })
      false

-- `startReconciliation(probeOnly)` with its defaults
pub reconcile_all : Connection → Bool → Bool → Connection
reconcile_all c probe_only replaces_source =
    start_reconciliation c
      (record {
        probe_only = probe_only;
        file_membership = unknown;
        include_explorer = true;
        include_git = true;
      })
      replaces_source

pub show_open : Connection → Connection
show_open c = record c {
  source_open = true;
  recovery_transport_lost = false;
  recovery_notice_at = none;
  recovery_notice_delivered = false;
  recovery_timer = none;
}

succeeded_before : Option ReconciliationOutcome → Bool
succeeded_before none = false
succeeded_before (some outcome) = succeeded_result outcome.result

-- The handler of `open`, before it notes that the source has opened.
pub handle_open : Connection → Option ReconciliationOutcome → ℕ → Connection
handle_open c result now =
    if c.initial_refresh_started && is_some c.initial_refresh_promise
    then set_connection_state c reconciling none
    else if not c.source_has_opened && succeeded_before result
    then finish_reconciliation c (coalesce_or result obsolete_outcome) now
    else if c.initial_refresh_started && is_some result
    then reconcile_all c false false
    else if c.source_has_opened
    then schedule_snapshot (set_connection_state c reconciling none) true true
    else if c.initial_refresh_started
    then reconcile_all (set_connection_state c reconciling none) false false
    else set_connection_state c reconciling none

pub source_opens : Connection → ℕ → Connection
source_opens c now =
    if is_some c.event_source
    then record (handle_open (show_open c) c.initial_refresh_result now) {
      source_has_opened = true;
    }
    else c

-- The first error of an outage starts the clock of its notice.
begin_outage : Connection → ℕ → Connection
begin_outage c now = if c.recovery_transport_lost then c else record c {
  recovery_started_at = some now;
  recovery_notice_at = some (now + recovery_outage_notice);
  recovery_notice_delivered = false;
  recovery_transport_lost = true;
}

pub source_fails : Connection → ℕ → ℕ → Connection
source_fails c now random =
    if is_some c.event_source
    then schedule_recovery
        (set_connection_state
          (begin_outage (invalidate_read_work (record c { source_open = false })) now) reconnecting
          (some (codes "Backend connection lost")))
        false now random
    else c

is_notice_due : Option ℕ → ℕ → Bool
is_notice_due none now = false
is_notice_due (some notice) now = leb notice now

-- The notice of a long outage.
pub give_notice : Connection → Option ℕ → ℕ → Connection
give_notice c notice_at now =
    if is_notice_due notice_at now && not c.source_open && not c.recovery_notice_delivered
    then set_connection_state (record c { recovery_notice_delivered = true }) unreachable
        (some (coalesce_or c.connection_error (codes "Backend unreachable")))
    else c

is_retry_due : Option ℕ → ℕ → Bool
is_retry_due none now = false
is_retry_due (some due) now = leb due now

pub probe : Connection → Bool → Connection
probe c replaces_source =
    reconcile_all (record c { retry_due_at = none; recovery_attempt = c.recovery_attempt + 1 })
      (not c.source_open) replaces_source

is_owner : Option ℕ → Option ℕ → Bool
is_owner none none = true
is_owner none (some n) = false
is_owner (some m) none = false
is_owner (some m) (some n) = m == n

pub run_recovery : Connection → RecoveryTimer → ℕ → ℕ → Connection
run_recovery c timer now random =
    let noticed = give_notice c timer.notice_at now in
    schedule_recovery
      (if is_some c.reconciliation_promise || not (is_retry_due c.retry_due_at now)
        then noticed
        else probe noticed true)
      false now random

pub fire_timer : Connection → Option RecoveryTimer → ℕ → ℕ → Connection
fire_timer c none now random = c
fire_timer c (some timer) now random =
    let fired = record c { recovery_timer = none } in
    if is_owner timer.owner c.event_source && timer.owner_epoch == c.reconciliation_epoch
    then run_recovery fired timer now random
    else fired

pub fire_recovery : Connection → ℕ → ℕ → Connection
fire_recovery c now random = fire_timer c c.recovery_timer now random

pub begin_retry : Connection → ℕ → Connection
begin_retry c now = record c {
  recovery_timer = none;
  recovery_started_at = some (coalesce_or c.recovery_started_at now);
}

-- `retryConnection` up to its `await`; `source_closed` tells that the source has given up.
pub retry_connection : Connection → Bool → ℕ → ℕ → Connection
retry_connection c source_closed now random =
    let begun = begin_retry c now in
    let sourced =
      (if not (is_some c.event_source) || source_closed
        then replace_source begun now random
        else begun) in
    schedule_recovery
      (if is_some sourced.reconciliation_promise then sourced else probe sourced false) false now
      random

-- `refreshCurrentFolder` up to its `await`
pub refresh_current_folder : Connection → Connection
refresh_current_folder c =
    if is_some c.initial_refresh_promise
    then c
    else record (reconcile_all (record c { initial_refresh_started = true }) false false) {
      initial_refresh_promise =
          some (record { read_epoch = read_epoch c; lifecycle = c.reconciliation_epoch });
    }

-- The end of `refreshCurrentFolder`.
pub settle_initial : Connection → Option InitialRefresh → ReconciliationOutcome → Connection
settle_initial c none outcome = c
settle_initial c (some i) outcome = record c {
  initial_refresh_promise = none;
  initial_refresh_result =
      if i.lifecycle == c.reconciliation_epoch && i.read_epoch == read_epoch c
      then some outcome
      else c.initial_refresh_result;
}

-- A connection that is not back is probed again.
pub schedule_again : Connection → ReconciliationOutcome → ℕ → ℕ → Connection
schedule_again c outcome now random =
    if not (is_connected c.connection_state)
      && (not (succeeded_result outcome.result && outcome.authoritative)
          || c.recovery_transport_lost)
    then schedule_recovery (record c { retry_due_at = none }) true now random
    else c

-- What the caller of an operation does: the initial refresh keeps its outcome, and a probe replaces a source
-- that has given up.
report_outcome : Connection → Reconciliation → ReconciliationOutcome → Bool → ℕ → ℕ → Connection
report_outcome c r outcome source_closed now random =
    let settled = settle_initial c c.initial_refresh_promise outcome in
    if r.replaces_source && succeeded_result outcome.result && source_closed
    then replace_source settled now random
    else settled

-- The end of an operation of `startReconciliation`.
end_reconciliation : Connection → Reconciliation → ReconciliationOutcome → Bool → ℕ → ℕ → Connection
end_reconciliation c r ended source_closed now random =
    let outcome = if r.settled_read_epoch == read_epoch c then ended else obsolete_outcome in
    let finished = finish_reconciliation (record c { reconciliation_promise = none }) outcome now in
    report_outcome (schedule_again finished outcome now random) r outcome source_closed now random

-- A partial follow-up cannot erase an outcome that is no success.
next_outcome : Reconciliation → ReconciliationOutcome → ReconciliationOutcome
next_outcome r current =
    if not (succeeded_result current.result)
      || (r.intent.include_explorer && r.intent.include_git && not r.intent.probe_only)
      || succeeded_result r.outcome.result
    then current
    else r.outcome

closed_intent : Connection → ReconciliationIntent → ReconciliationIntent
closed_intent c intent = if c.source_open then intent else record intent { probe_only = true }

-- The loop goes on with the intent that came meanwhile, or is over.
loop_reconciliation :
    Connection
    → Reconciliation
    → ReconciliationOutcome
    → Option ReconciliationIntent
    → Bool
    → ℕ
    → ℕ
    → Connection
loop_reconciliation c r outcome none source_closed now random =
    end_reconciliation c r outcome source_closed now random
loop_reconciliation c r outcome (some intent) source_closed now random =
    begin_reconciliation c r.owner r.lifecycle (closed_intent c intent) outcome r.replaces_source

settle_performed : Reconciliation → Performed → Bool → ℕ → ℕ → Connection
settle_performed r (is_over c current) source_closed now random =
    loop_reconciliation c r (next_outcome r current) c.pending_reconciliation source_closed now
      random
settle_performed r (goes_on c phase) source_closed now random = record c {
  reconciliation_promise = some (record r { phase = phase });
}

perform : Connection → Reconciliation → Phase → List ReconciliationOutcome → Performed
perform c r reads_snapshot [] = is_over c obsolete_outcome
perform c r reads_snapshot (outcome ∷ outcomes) = perform_snapshot c r outcome
perform c r (reads_rest include_explorer include_git) outcomes =
    let (done, outcome) = perform_reads c r include_explorer include_git outcomes in
    is_over done outcome

is_own : Connection → Reconciliation → Bool
is_own c r =
    r.lifecycle == c.reconciliation_epoch
    && (not (is_some r.owner) || is_owner r.owner c.event_source)

settle_current :
    Connection → Option Reconciliation → List ReconciliationOutcome → Bool → ℕ → ℕ → Connection
settle_current c none outcomes source_closed now random = c
settle_current c (some r) outcomes source_closed now random =
    if is_own c r
    then settle_performed r (perform c r r.phase outcomes) source_closed now random
    else record c { reconciliation_promise = none }

-- What the reconciliation waits for has come: the outcome of the snapshot, or those of the other reads.
pub settle_reconciliation : Connection → List ReconciliationOutcome → Bool → ℕ → ℕ → Connection
settle_reconciliation c outcomes source_closed now random =
    settle_current c c.reconciliation_promise outcomes source_closed now random

-- What can happen to the connection. The first number is the time, the second one is random; `retried` is
-- the end of `retryConnection`, after its `await`.
pub data ConnectionEvent : Type 0 where
  connects : ℕ → ℕ → ConnectionEvent
  disposes : ConnectionEvent
  opens : ℕ → ConnectionEvent
  fails : ℕ → ℕ → ConnectionEvent
  invalidates : Bool → ConnectionEvent
  refresh_fires : ConnectionEvent
  recovery_fires : ℕ → ℕ → ConnectionEvent
  retries : Bool → ℕ → ℕ → ConnectionEvent
  retried : ℕ → ℕ → ConnectionEvent
  refreshes_folder : ConnectionEvent
  reads_answer : ℕ → Answer RepoSnapshot → ConnectionEvent
  settles : List ReconciliationOutcome → Bool → ℕ → ℕ → ConnectionEvent

pub connection_step : Connection → ConnectionEvent → Connection
connection_step c (connects now random) = connect_events c now random
connection_step c disposes = dispose_connection c false
connection_step c (opens now) = source_opens c now
connection_step c (fails now random) = source_fails c now random
connection_step c (invalidates files) =
    if is_some c.event_source then schedule_snapshot c files false else c
connection_step c refresh_fires = if c.refresh_timer then fire_refresh c else c
connection_step c (recovery_fires now random) = fire_recovery c now random
connection_step c (retries source_closed now random) = retry_connection c source_closed now random
connection_step c (retried now random) = schedule_recovery c false now random
connection_step c refreshes_folder = refresh_current_folder c
connection_step c (reads_answer i answer) = record c {
  reads = snapshot_step c.reads (answers_snapshot i answer);
}
connection_step c (settles outcomes source_closed now random) =
    settle_reconciliation c outcomes source_closed now random

pub connection_run : Connection → List ConnectionEvent → Connection
connection_run c [] = c
connection_run c (e ∷ es) = connection_run (connection_step c e) es
