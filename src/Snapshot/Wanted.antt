-- ===== src/Snapshot/Wanted.antt =====
-- A wish to read the snapshot is not lost.
use gitna.Prelude.{
  ℕ, ◌+◌, ◌≡◌, refl, sym, ◌∙◌, Bool, true, Option, none, some, List, [], ◌∷◌, ◌++◌, arith,
}
use mathlib.Core.Path.{subst}
use gitna.History.{invalidate_reads, Answer}
use gitna.Reads.{obsolete_outcome}
use gitna.Actions.{FileMembershipRefresh}
use gitna.Git.{invalidate_git_loading, RepoSnapshot}
use gitna.Snapshot.{
  wish_snapshot, start_unless, start_operation, waiting_of_all, invalidate_snapshot_reads,
  adopt_snapshot, is_same_epoch, settle_taken, settle_snapshot, accept_snapshot, settle_round,
  release_promise, finish_operation, next_round, put_read_back, waiting_of, take_read,
  SnapshotState, SnapshotRead, SnapshotWorld, SnapshotEvent, wants_snapshot, invalidates_reads,
  answers_snapshot, snapshot_step, snapshot_run, Progress, waits, ends, epoch_of,
}
use gitna.Snapshot.Live.{
  Serves, IsKnown, AllKnown, IsServed, live-stale, known-stale, IsKnown-dropped, IsKnown-fresh,
  TakenParts, none-ne-some, take_read-Parts,
}
use gitna.Snapshot.Rounds.{
  waiting-IsServed, begin_round, round_of, next_round-again, settle_snapshot-IsServed,
}

settle_taken-IsServed :
    (w : SnapshotWorld) (answer : Answer RepoSnapshot)
    (o : Option (SnapshotRead × List SnapshotRead))
    → IsServed w
    → TakenParts
        (epoch_of w.state)
        (IsKnown (epoch_of w.state) w.state.refresh_promise w.state.next_operation)
        w.reads
        o
    → IsServed (settle_taken w answer o)
unfolding settle_taken IsServed
settle_taken-IsServed w answer none served parts = served
settle_taken-IsServed w answer (some (r, rest)) served (taken, known_r, known) =
    settle_snapshot-IsServed w.state r answer w.reads rest taken served.0 known_r known

Serves-joined :
    (promise : Option ℕ) (before after : Bool) (n : ℕ) (reads : List SnapshotRead)
    → promise ≡ some n
    → Serves promise before reads
    → Serves promise after reads
Serves-joined promise before after n [] e served = absurd (none-ne-some (sym served.0 ∙ e))
Serves-joined promise before after n (r ∷ []) e served = served
Serves-joined promise before after n (r ∷ q ∷ rest) e served = served

Serves-none :
    (promise : Option ℕ) (again : Bool) (reads : List SnapshotRead)
    → promise ≡ none
    → Serves promise again reads
    → reads ≡ []
Serves-none promise again [] e served = refl
Serves-none promise again (r ∷ []) e served = absurd (none-ne-some (sym e ∙ served))
Serves-none promise again (r ∷ q ∷ rest) e served = absurd served

-- The state in which a new operation waits.
abbrev started_state : SnapshotState → SnapshotState
started_state s = record (begin_round s) {
  next_operation = s.next_operation + 1;
  refresh_promise = some s.next_operation;
}

start_operation_lem :
    (s : SnapshotState)
    → s.refresh_again ≡ true
    → start_operation s ≡ (started_state s, waits (round_of s s.next_operation) ∷ [])
unfolding start_operation
start_operation_lem s again =
    rw
      (next_round-again (record s { next_operation = s.next_operation + 1 }) s.next_operation
        obsolete_outcome again)
      refl

abbrev wanted_world : SnapshotState × List Progress → List SnapshotRead → SnapshotWorld
wanted_world (s, started) reads = record { state = s; reads = waiting_of_all started ++ reads }

start_unless-IsServed :
    (s : SnapshotState) (membership : FileMembershipRefresh) (reads : List SnapshotRead)
    (o : Option ℕ)
    → s.refresh_promise ≡ o
    → IsServed (record { state = s; reads = reads })
    → IsServed (wanted_world (start_unless o (wish_snapshot s membership)) reads)
unfolding start_unless wish_snapshot IsServed waiting_of_all waiting_of
start_unless-IsServed s membership reads (some n) e (served, known) =
    (Serves-joined s.refresh_promise s.refresh_again true n _ e served, known)
start_unless-IsServed s membership reads none e (served, known) =
    let wished = wish_snapshot s membership in
    subst (λ x. IsServed (wanted_world x reads)) (sym (start_operation_lem wished refl))
      (waiting-IsServed (started_state wished) (round_of wished s.next_operation) reads refl
        (omega arith) refl refl (Serves-none s.refresh_promise s.refresh_again _ e served)
        (IsKnown-fresh (epoch_of s) s.next_operation s.refresh_promise reads known))

invalidate-IsServed :
    (s : SnapshotState) (reads : List SnapshotRead)
    → AllKnown s reads
    → IsServed (record { state = invalidate_snapshot_reads s; reads = reads })
unfolding IsServed invalidate_snapshot_reads invalidate_reads invalidate_git_loading
invalidate-IsServed s reads known =
    rw
      (live-stale (epoch_of s + 1) reads
        (known-stale (epoch_of s) s.refresh_promise s.next_operation reads known))
      (
        (refl, refl),
        IsKnown-dropped (epoch_of s) (epoch_of s + 1) s.next_operation s.next_operation
            s.refresh_promise reads (omega arith) (omega arith) known,
      )

snapshot_step-IsServed :
    (w : SnapshotWorld) (e : SnapshotEvent) → IsServed w → IsServed (snapshot_step w e)
unfolding snapshot_step IsServed gitna.Snapshot.read_snapshot start_unless
snapshot_step-IsServed w (answers_snapshot i answer) served =
    settle_taken-IsServed w answer (take_read i w.reads) served
      (take_read-Parts (epoch_of w.state) _ i w.reads served.1)
snapshot_step-IsServed w invalidates_reads (served, known) =
    invalidate-IsServed w.state w.reads known
snapshot_step-IsServed w (wants_snapshot membership) served =
    start_unless-IsServed w.state membership w.reads w.state.refresh_promise refl served

-- Whatever is wished, invalidated and answered in whatever order, at most one read of the current epoch
-- waits for the server; while the snapshot is wanted again, one does, and its operation has the promise.
pub snapshot_run-IsServed :
    (w : SnapshotWorld) (es : List SnapshotEvent) → IsServed w → IsServed (snapshot_run w es)
unfolding snapshot_run
snapshot_run-IsServed w [] served = served
snapshot_run-IsServed w (e ∷ es) served =
    snapshot_run-IsServed (snapshot_step w e) es (snapshot_step-IsServed w e served)
