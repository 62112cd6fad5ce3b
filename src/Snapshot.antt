-- ===== src/Snapshot.antt =====
-- web/src/diffshub/gitna/repository.tsx, the snapshot of the repository: readSnapshot with its loop, and
-- what invalidateReadWork does to it and to the state of git. The loop is cut at its `await`; a running operation is known by its
-- number, and the promise of one that ends is dropped in the same step.
pub mod Generations
pub mod Live
pub mod Rounds
pub mod Wanted
mod Examples
use gitna.Prelude.{
  zero, suc, ℕ, ◌+◌, Bool, true, false, not, ◌&&◌, ◌||◌, Option, none, some, List, [], ◌∷◌, ◌++◌,
  ltb, ◌==◌, if◌then◌else◌, coalesce_or, Text, ◌===◌, codes, JsMap,
}
use gitna.History.{abort, History, CommitFile, invalidate_reads, Answer, arrived, failed}
use gitna.Git.{ConflictEntry, RepoSnapshot, GitState, invalidate_git_loading, clear_git_state}
use gitna.Tabs.{FileChange, Selection, CompareTarget, CompareDiffTarget}
use gitna.Reads.{
  ReconciliationOutcome, reconciliation_outcome, has_failed, obsolete_outcome, succeeded_outcome,
}
use gitna.Actions.{
  FileMembershipRefresh, unknown, unchanged, changed, stronger_file_membership_refresh,
  reconcile_selection,
}

pub record SnapshotState : Type 0 where
  pub snapshot : Option RepoSnapshot
  pub generation : ℕ
  pub loading : Bool
  pub error : Option Text
  pub refresh_again : Bool
  pub pending_file_membership_refresh : FileMembershipRefresh
  pub refresh_promise : Option ℕ
  pub next_operation : ℕ
  pub git : GitState

-- A read of the snapshot that waits for the server: the operation and the round of its loop.
pub record SnapshotRead : Type 0 where
  pub number : ℕ
  pub operation_epoch : ℕ
  pub epoch : ℕ
  pub requested : FileMembershipRefresh

-- What an operation does next: it waits for the server, or it is over.
pub data Progress : Type 0 where
  waits : SnapshotRead → Progress
  ends : ReconciliationOutcome → Progress

abbrev pub epoch_of : SnapshotState → ℕ
epoch_of s = s.git.history.repository_epoch

-- `finally { if (this.refreshPromise === operation) this.refreshPromise = null }`
pub release_promise : ℕ → Option ℕ → Option ℕ
release_promise n none = none
release_promise n (some m) = if m == n then none else some m

pub finish_operation : SnapshotState → ℕ → ReconciliationOutcome → SnapshotState × Progress
finish_operation s n outcome =
    (record s { refresh_promise = release_promise n s.refresh_promise }, ends outcome)

-- The head of the loop: another round when it is wanted, in the epoch of the operation.
pub next_round : SnapshotState → ℕ → ℕ → ReconciliationOutcome → SnapshotState × Progress
next_round s n operation_epoch result =
    if not s.refresh_again
    then finish_operation s n result
    else if not (operation_epoch == epoch_of s)
    then finish_operation s n obsolete_outcome
    else (
      record s {
        refresh_again = false;
        pending_file_membership_refresh = unknown;
        loading = true;
        error = none;
      },
      waits (record {
        number = n;
        operation_epoch = operation_epoch;
        epoch = epoch_of s;
        requested = s.pending_file_membership_refresh;
      }),
    )

-- A wish to read: it joins the operation that runs, or starts one.
wish_snapshot : SnapshotState → FileMembershipRefresh → SnapshotState
wish_snapshot s membership = record s {
  refresh_again = true;
  pending_file_membership_refresh =
      stronger_file_membership_refresh s.pending_file_membership_refresh membership;
}

start_operation : SnapshotState → SnapshotState × List Progress
start_operation s =
    let n = s.next_operation in
    let (started, progress) =
      next_round (record s { next_operation = n + 1 }) n (epoch_of s) obsolete_outcome in
    (record started { refresh_promise = some n }, progress ∷ [])

start_unless : Option ℕ → SnapshotState → SnapshotState × List Progress
start_unless (some n) s = (s, [])
start_unless none s = start_operation s

pub read_snapshot : SnapshotState → FileMembershipRefresh → SnapshotState × List Progress
read_snapshot s membership = start_unless s.refresh_promise (wish_snapshot s membership)

-- The operations of git that leave conflicts behind.
is_conflict_operation : Text → Bool
is_conflict_operation operation =
    operation === codes "merge"
    || operation === codes "rebase"
    || operation === codes "cherry-pick"
    || operation === codes "revert"

is_unchanged : FileMembershipRefresh → Bool
is_unchanged unchanged = true
is_unchanged unknown = false
is_unchanged changed = false

-- The count of files is carried to the new generation when no file came or went.
adopt_git : GitState → RepoSnapshot → ℕ → FileMembershipRefresh → GitState
adopt_git g next previous_generation membership = record g {
  repository_file_total_generation =
      if is_unchanged membership && g.repository_file_total_generation == previous_generation
      then next.generation
      else g.repository_file_total_generation;
  selection = reconcile_selection g.selection next.staged_changes next.unstaged_changes;
  conflicts_request = g.conflicts_request + 1;
  conflicts_loading = false;
  conflicts_error = none;
  conflicts = if is_conflict_operation next.operation then coalesce_or next.conflicts [] else [];
}

-- A newer snapshot is adopted; one of the same generation changes nothing.
adopt_snapshot : SnapshotState → RepoSnapshot → FileMembershipRefresh → SnapshotState
adopt_snapshot s next requested =
    if ltb s.generation next.generation
    then record s {
      generation = next.generation;
      snapshot = some next;
      git =
          adopt_git s.git next s.generation
            (stronger_file_membership_refresh requested s.pending_file_membership_refresh);
    }
    else s

pub accept_snapshot : SnapshotState → RepoSnapshot → FileMembershipRefresh → SnapshotState
accept_snapshot s next requested =
    let adopted = adopt_snapshot s next requested in
    record adopted {
      pending_file_membership_refresh = unknown;
      error = none;
      git = if next.repository then adopted.git else clear_git_state adopted.git;
    }

is_session_status : Option ℕ → Bool
is_session_status none = false
is_session_status (some status) = status == 403 || status == 404

is_same_epoch : SnapshotState → SnapshotRead → Bool
is_same_epoch s r = r.epoch == epoch_of s && r.operation_epoch == epoch_of s

-- A round whose epoch is still the current one, after its answer.
pub settle_round : SnapshotState → SnapshotRead → Answer RepoSnapshot → SnapshotState × Progress
settle_round s r (arrived next) =
    if ltb next.generation s.generation
    then next_round (record s { loading = false }) r.number r.operation_epoch obsolete_outcome
    else next_round (record (accept_snapshot s next r.requested) { loading = false }) r.number
        r.operation_epoch succeeded_outcome
settle_round s r (failed status message) =
    next_round (record s { error = some message; loading = false }) r.number r.operation_epoch
      (reconciliation_outcome has_failed (some message) (some (codes "snapshot"))
        (is_session_status status) true)

pub settle_snapshot : SnapshotState → SnapshotRead → Answer RepoSnapshot → SnapshotState × Progress
settle_snapshot s r answer =
    if is_same_epoch s r
    then settle_round s r answer
    else finish_operation s r.number obsolete_outcome

-- What `invalidateReadWork` does to the snapshot and to the git state.
pub invalidate_snapshot_reads : SnapshotState → SnapshotState
invalidate_snapshot_reads s =
    let g = invalidate_git_loading s.git in
    record s {
      refresh_again = false;
      pending_file_membership_refresh = unknown;
      refresh_promise = none;
      loading = false;
      error = none;
      git = record g {
        history = invalidate_reads g.history;
        repository_file_count_loading = false;
        branches_request = g.branches_request + 1;
        stashes_request = g.stashes_request + 1;
        tags_request = g.tags_request + 1;
        repository_file_count_request = g.repository_file_count_request + 1;
      };
    }

pub record SnapshotWorld : Type 0 where
  pub state : SnapshotState
  pub reads : List SnapshotRead

pub data SnapshotEvent : Type 0 where
  wants_snapshot : FileMembershipRefresh → SnapshotEvent
  invalidates_reads : SnapshotEvent
  answers_snapshot : ℕ → Answer RepoSnapshot → SnapshotEvent

pub waiting_of : Progress → List SnapshotRead
waiting_of (waits r) = r ∷ []
waiting_of (ends outcome) = []

waiting_of_all : List Progress → List SnapshotRead
waiting_of_all [] = []
waiting_of_all (p ∷ ps) = waiting_of p ++ waiting_of_all ps

pub put_read_back :
    SnapshotRead
    → Option (SnapshotRead × List SnapshotRead)
    → Option (SnapshotRead × List SnapshotRead)
put_read_back r none = none
put_read_back r (some (q, qs)) = some (q, r ∷ qs)

pub take_read : ℕ → List SnapshotRead → Option (SnapshotRead × List SnapshotRead)
take_read i [] = none
take_read zero (r ∷ rs) = some (r, rs)
take_read (suc i) (r ∷ rs) = put_read_back r (take_read i rs)

settle_taken :
    SnapshotWorld → Answer RepoSnapshot → Option (SnapshotRead × List SnapshotRead) → SnapshotWorld
settle_taken w answer none = w
settle_taken w answer (some (r, rest)) =
    let (s, progress) = settle_snapshot w.state r answer in
    record { state = s; reads = waiting_of progress ++ rest }

pub snapshot_step : SnapshotWorld → SnapshotEvent → SnapshotWorld
snapshot_step w (wants_snapshot membership) =
    let (s, started) = read_snapshot w.state membership in
    record { state = s; reads = waiting_of_all started ++ w.reads }
snapshot_step w invalidates_reads = record w { state = invalidate_snapshot_reads w.state }
snapshot_step w (answers_snapshot i answer) = settle_taken w answer (take_read i w.reads)

pub snapshot_run : SnapshotWorld → List SnapshotEvent → SnapshotWorld
snapshot_run w [] = w
snapshot_run w (e ∷ es) = snapshot_run (snapshot_step w e) es
