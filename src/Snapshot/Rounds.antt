-- ===== src/Snapshot/Rounds.antt =====
-- A round of a read of the snapshot keeps its promise or drops it at the end.
use gitna.Prelude.{
  ltb, ℕ, ◌<◌, ◌≡◌, refl, sym, ◌∙◌, true, false, Option, none, some, List, [], ◌∷◌, arith, inl, inr,
  Bool-cases,
}
use mathlib.Core.Path.{subst}
use gitna.History.{Answer, arrived, failed}
use gitna.Reads.{obsolete_outcome, succeeded_outcome, ReconciliationOutcome}
use gitna.Actions.{unknown, FileMembershipRefresh}
use gitna.Git.{invalidate_git_loading, RepoSnapshot}
use gitna.Snapshot.{
  wish_snapshot, start_unless, start_operation, waiting_of_all, invalidate_snapshot_reads,
  adopt_snapshot, is_same_epoch, settle_taken, settle_snapshot, accept_snapshot, settle_round,
  release_promise, finish_operation, next_round, put_read_back, waiting_of, take_read,
  SnapshotState, SnapshotRead, SnapshotWorld, SnapshotEvent, wants_snapshot, invalidates_reads,
  answers_snapshot, snapshot_step, snapshot_run, Progress, waits, ends, epoch_of,
}
use gitna.Snapshot.Live.{
  is_live, live, Serves, is_promised, IsKnown, AllKnown, IsServed, IsKnown-dropped, IsTaken,
  same_number, world_of,
}

-- The number of the operation that has the promise ends: nothing is wanted and nothing is live.
pub ended-IsServed :
    (s : SnapshotState) (n : ℕ) (result : ReconciliationOutcome) (rest : List SnapshotRead)
    → s.refresh_promise ≡ some n
    → s.refresh_again ≡ false
    → live (epoch_of s) rest ≡ []
    → AllKnown s rest
    → IsServed (world_of (finish_operation s n result) rest)
unfolding IsServed waiting_of finish_operation release_promise
ended-IsServed s n result rest promised enough none_live known =
    let dropped : release_promise n s.refresh_promise ≡ none =
      rw (promised, release_promise, same_number n) refl in
    rw (none_live, dropped)
      (
        (refl, enough),
        IsKnown-dropped (epoch_of s) (epoch_of s) s.next_operation s.next_operation
            s.refresh_promise rest (omega arith) (omega arith) known,
      )

pub live-new :
    (epoch : ℕ) (rest : List SnapshotRead) (r : SnapshotRead)
    → r.epoch ≡ epoch
    → r.operation_epoch ≡ epoch
    → live epoch rest ≡ []
    → live epoch (r ∷ rest) ≡ r ∷ []
live-new epoch rest r e o none_live = rw (e, o, same_number epoch, none_live) refl

-- An operation that has the promise waits for the server.
pub waiting-IsServed :
    (s : SnapshotState) (r : SnapshotRead) (rest : List SnapshotRead)
    → s.refresh_promise ≡ some r.number
    → r.number < s.next_operation
    → r.epoch ≡ epoch_of s
    → r.operation_epoch ≡ epoch_of s
    → live (epoch_of s) rest ≡ []
    → AllKnown s rest
    → IsServed (world_of (s, waits r) rest)
unfolding IsServed waiting_of
waiting-IsServed s r rest promised given same operation none_live known = (
  subst (Serves s.refresh_promise s.refresh_again)
      (sym (live-new (epoch_of s) rest r same operation none_live)) promised,
  ((omega (arith, same), given, λ e. rw (same, operation, same_number (epoch_of s)) refl), known),
)

-- The state and the read of another round.
abbrev pub begin_round : SnapshotState → SnapshotState
begin_round s = record s {
  refresh_again = false;
  pending_file_membership_refresh = unknown;
  loading = true;
  error = none;
}

abbrev pub round_of : SnapshotState → ℕ → SnapshotRead
round_of s n = record {
  number = n;
  operation_epoch = epoch_of s;
  epoch = epoch_of s;
  requested = s.pending_file_membership_refresh;
}

pub next_round-again :
    (s : SnapshotState) (n : ℕ) (result : ReconciliationOutcome)
    → s.refresh_again ≡ true
    → next_round s n (epoch_of s) result ≡ (begin_round s, waits (round_of s n))
unfolding next_round
next_round-again s n result again = simp (again, same_number)

pub next_round-enough :
    (s : SnapshotState) (n : ℕ) (result : ReconciliationOutcome)
    → s.refresh_again ≡ false
    → next_round s n (epoch_of s) result ≡ finish_operation s n result
unfolding next_round
next_round-enough s n result enough = simp (enough)

pub next_round-IsServed :
    (s : SnapshotState) (n : ℕ) (result : ReconciliationOutcome) (rest : List SnapshotRead)
    → s.refresh_promise ≡ some n
    → n < s.next_operation
    → live (epoch_of s) rest ≡ []
    → AllKnown s rest
    → IsServed (world_of (next_round s n (epoch_of s) result) rest)
next_round-IsServed s n result rest promised given none_live known =
    elim (Bool-cases s.refresh_again) [
      | inr enough ↦
          subst (λ x. IsServed (world_of x rest)) (sym (next_round-enough s n result enough))
            (ended-IsServed s n result rest promised enough none_live known)
      | inl again ↦
          subst (λ x. IsServed (world_of x rest)) (sym (next_round-again s n result again))
            (waiting-IsServed (begin_round s) (round_of s n) rest promised given refl refl none_live
              known)
    ]

-- What a snapshot that is accepted leaves as it was.
abbrev pub IsSameCore : SnapshotState → SnapshotState → Type 0
IsSameCore s t =
    (t.refresh_promise ≡ s.refresh_promise)
    × (t.next_operation ≡ s.next_operation)
    × (epoch_of t ≡ epoch_of s)

pub accept_snapshot-core :
    (s : SnapshotState) (next : RepoSnapshot) (requested : FileMembershipRefresh)
    → IsSameCore s (accept_snapshot s next requested)
unfolding accept_snapshot adopt_snapshot gitna.Git.clear_git_state gitna.Snapshot.adopt_git
    gitna.Git.clear_history gitna.Git.invalidate_git_loading
accept_snapshot-core s next requested = elim (Bool-cases (ltb s.generation next.generation)) [
  | inl newer ↦ elim (Bool-cases next.repository) [
    | inl git ↦ rw (accept_snapshot, adopt_snapshot, newer, git) (refl, refl, refl)
    | inr plain ↦ rw (accept_snapshot, adopt_snapshot, newer, plain) (refl, refl, refl)
  ]
  | inr older ↦ elim (Bool-cases next.repository) [
    | inl git ↦ rw (accept_snapshot, adopt_snapshot, older, git) (refl, refl, refl)
    | inr plain ↦ rw (accept_snapshot, adopt_snapshot, older, plain) (refl, refl, refl)
  ]
]

pub adopted-IsServed :
    (s t : SnapshotState) (n : ℕ) (rest : List SnapshotRead)
    → IsSameCore s t
    → s.refresh_promise ≡ some n
    → n < s.next_operation
    → live (epoch_of s) rest ≡ []
    → AllKnown s rest
    → IsServed (world_of (next_round t n (epoch_of s) succeeded_outcome) rest)
adopted-IsServed s t n rest (promise, next, epoch) promised given none_live known = rw (← epoch) (
    next_round-IsServed t n succeeded_outcome rest (promise ∙ promised) (rw next given)
      (rw epoch none_live) (rw (promise, next, epoch) known))

-- The answer to a read that is not live.
pub settle_snapshot-live :
    (s : SnapshotState) (r : SnapshotRead) (answer : Answer RepoSnapshot)
    → is_live (epoch_of s) r ≡ true
    → settle_snapshot s r answer ≡ settle_round s r answer
unfolding settle_snapshot is_same_epoch
settle_snapshot-live s r answer alive = rw alive refl

pub settle_snapshot-dead :
    (s : SnapshotState) (r : SnapshotRead) (answer : Answer RepoSnapshot)
    → is_live (epoch_of s) r ≡ false
    → settle_snapshot s r answer ≡ finish_operation s r.number obsolete_outcome
unfolding settle_snapshot is_same_epoch
settle_snapshot-dead s r answer dead = rw dead refl

pub live_operation :
    (epoch : ℕ) (r : SnapshotRead) → is_live epoch r ≡ true → r.operation_epoch ≡ epoch
live_operation epoch r alive = ground (arith, alive)

pub not_promised :
    (s : SnapshotState) (r : SnapshotRead)
    → IsKnown (epoch_of s) s.refresh_promise s.next_operation r
    → is_live (epoch_of s) r ≡ false
    → is_promised s.refresh_promise r.number ≡ false
not_promised s r known dead = elim (Bool-cases (is_promised s.refresh_promise r.number)) [
  | inl e ↦ absurd (cc (known.2 e, dead))
  | inr e ↦ e
]

pub release_promise-other :
    (n : ℕ) (o : Option ℕ) → is_promised o n ≡ false → release_promise n o ≡ o
unfolding release_promise
release_promise-other n none e = refl
release_promise-other n (some m) e = rw e refl

pub dropped-IsServed :
    (s : SnapshotState) (n : ℕ) (reads rest : List SnapshotRead)
    → live (epoch_of s) rest ≡ live (epoch_of s) reads
    → Serves s.refresh_promise s.refresh_again (live (epoch_of s) reads)
    → is_promised s.refresh_promise n ≡ false
    → AllKnown s rest
    → IsServed (world_of (finish_operation s n obsolete_outcome) rest)
unfolding IsServed waiting_of finish_operation
dropped-IsServed s n reads rest same served other known =
    rw (release_promise-other n s.refresh_promise other, same) (served, known)

-- The same for the answer to a live read, whatever it is.
pub settle_round-IsServed :
    (s : SnapshotState) (r : SnapshotRead) (answer : Answer RepoSnapshot) (rest : List SnapshotRead)
    → r.operation_epoch ≡ epoch_of s
    → s.refresh_promise ≡ some r.number
    → r.number < s.next_operation
    → live (epoch_of s) rest ≡ []
    → AllKnown s rest
    → IsServed (world_of (settle_round s r answer) rest)
unfolding settle_round
settle_round-IsServed s r (failed status message) rest same promised given none_live known =
    rw same (
      next_round-IsServed (record s { error = some message; loading = false }) r.number _ rest
        promised given none_live known)
settle_round-IsServed s r (arrived next) rest same promised given none_live known =
    elim (Bool-cases (ltb next.generation s.generation)) [
      | inl old ↦
          rw (settle_round, old, same)
            (next_round-IsServed (record s { loading = false }) r.number obsolete_outcome rest
              promised given none_live known)
      | inr new ↦
          rw (settle_round, new, same)
            (adopted-IsServed s (record (accept_snapshot s next r.requested) { loading = false })
              r.number rest (accept_snapshot-core s next r.requested) promised given none_live
              known)
    ]

pub settle_snapshot-IsServed :
    (s : SnapshotState) (r : SnapshotRead) (answer : Answer RepoSnapshot)
    (reads rest : List SnapshotRead)
    → IsTaken (epoch_of s) reads r rest
    → Serves s.refresh_promise s.refresh_again (live (epoch_of s) reads)
    → IsKnown (epoch_of s) s.refresh_promise s.next_operation r
    → AllKnown s rest
    → IsServed (world_of (settle_snapshot s r answer) rest)
settle_snapshot-IsServed s r answer reads rest taken served known_r known =
    elim (Bool-cases (is_live (epoch_of s) r)) [
      | inl alive ↦
          let (promised, none_live) = taken.1 alive s.refresh_promise s.refresh_again served in
          subst (λ x. IsServed (world_of x rest)) (sym (settle_snapshot-live s r answer alive))
            (settle_round-IsServed s r answer rest (live_operation (epoch_of s) r alive) promised
              known_r.1 none_live known)
      | inr dead ↦
          subst (λ x. IsServed (world_of x rest)) (sym (settle_snapshot-dead s r answer dead))
            (dropped-IsServed s r.number reads rest (taken.0 dead) served
              (not_promised s r known_r dead) known)
    ]
