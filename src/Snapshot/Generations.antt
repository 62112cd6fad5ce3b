-- ===== src/Snapshot/Generations.antt =====
-- The snapshot that is shown is never replaced by an older one.
use gitna.Prelude.{
  inr, inl, Bool-cases, ℕ, ◌≤◌, ◌≡◌, refl, Option, none, some, List, [], ◌∷◌, ltb, arith,
}
use gitna.History.{Answer, arrived, failed}
use gitna.Reads.{obsolete_outcome, ReconciliationOutcome}
use gitna.Actions.{FileMembershipRefresh}
use gitna.Git.{RepoSnapshot}
use gitna.Snapshot.{
  wish_snapshot, is_same_epoch, start_operation, invalidate_snapshot_reads, start_unless,
  settle_snapshot, settle_taken, read_snapshot, accept_snapshot, finish_operation, settle_round,
  adopt_snapshot, next_round, SnapshotState, SnapshotRead, SnapshotWorld, SnapshotEvent,
  wants_snapshot, invalidates_reads, answers_snapshot, snapshot_step, snapshot_run,
}

abbrev Shows : Option RepoSnapshot → ℕ → Type 0
Shows none generation = Unit
Shows (some snapshot) generation = snapshot.generation ≡ generation

-- The generation is at least the given one, and it is that of the snapshot, if there is one.
unfoldable pub IsFresh : ℕ → SnapshotState → Type 0
IsFresh least s = (least ≤ s.generation) × Shows s.snapshot s.generation

same-IsFresh :
    (least : ℕ) (s t : SnapshotState)
    → IsFresh least s
    → (t.snapshot ≡ s.snapshot) × (t.generation ≡ s.generation)
    → IsFresh least t
unfolding IsFresh
same-IsFresh least s t f (e, g) = rw (e, g) f

next_round-same :
    (s : SnapshotState) (n operation_epoch : ℕ) (result : ReconciliationOutcome)
    → let t = (next_round s n operation_epoch result).0 in
      (t.snapshot ≡ s.snapshot) × (t.generation ≡ s.generation)
unfolding next_round finish_operation
next_round-same s n operation_epoch result = ground arith

adopt_snapshot-IsFresh :
    (least : ℕ) (s : SnapshotState) (next : RepoSnapshot) (requested : FileMembershipRefresh)
    → IsFresh least s
    → IsFresh least (adopt_snapshot s next requested)
unfolding IsFresh adopt_snapshot
adopt_snapshot-IsFresh least s next requested f =
    elim (Bool-cases (ltb s.generation next.generation)) [
      | inl newer ↦ rw (adopt_snapshot, newer) (ground (arith, f.0, newer), refl)
      | inr older ↦ rw (adopt_snapshot, older) f
    ]

accept_snapshot-IsFresh :
    (least : ℕ) (s : SnapshotState) (next : RepoSnapshot) (requested : FileMembershipRefresh)
    → IsFresh least s
    → IsFresh least (accept_snapshot s next requested)
unfolding accept_snapshot
accept_snapshot-IsFresh least s next requested f =
    same-IsFresh least (adopt_snapshot s next requested) _
      (adopt_snapshot-IsFresh least s next requested f) (refl, refl)

settle_round-IsFresh :
    (least : ℕ) (s : SnapshotState) (r : SnapshotRead) (answer : Answer RepoSnapshot)
    → IsFresh least s
    → IsFresh least (settle_round s r answer).0
unfolding settle_round
settle_round-IsFresh least s r (arrived next) f =
    elim (Bool-cases (ltb next.generation s.generation)) [
      | inl old ↦ rw (settle_round, old) (same-IsFresh least s _ f (next_round-same _ _ _ _))
      | inr new ↦
          rw (settle_round, new)
            (same-IsFresh least (accept_snapshot s next r.requested) _
              (accept_snapshot-IsFresh least s next r.requested f) (next_round-same _ _ _ _))
    ]
settle_round-IsFresh least s r (failed status message) f =
    same-IsFresh least s _ f (next_round-same _ _ _ _)

settle_snapshot-IsFresh :
    (least : ℕ) (s : SnapshotState) (r : SnapshotRead) (answer : Answer RepoSnapshot)
    → IsFresh least s
    → IsFresh least (settle_snapshot s r answer).0
unfolding settle_snapshot IsFresh finish_operation
settle_snapshot-IsFresh least s r answer f = elim (Bool-cases (is_same_epoch s r)) [
  | inl same ↦ rw (settle_snapshot, same) (settle_round-IsFresh least s r answer f)
  | inr other ↦
      rw (settle_snapshot, other)
        (same-IsFresh least s (finish_operation s r.number obsolete_outcome).0 f (refl, refl))
]

read_snapshot-same :
    (s : SnapshotState) (membership : FileMembershipRefresh) (o : Option ℕ)
    → let t = (start_unless o (wish_snapshot s membership)).0 in
      (t.snapshot ≡ s.snapshot) × (t.generation ≡ s.generation)
unfolding start_unless start_operation wish_snapshot
read_snapshot-same s membership (some n) = (refl, refl)
read_snapshot-same s membership none = next_round-same _ _ _ _

settle_taken-IsFresh :
    (least : ℕ) (w : SnapshotWorld) (answer : Answer RepoSnapshot)
    (o : Option (SnapshotRead × List SnapshotRead))
    → IsFresh least w.state
    → IsFresh least (settle_taken w answer o).state
unfolding settle_taken
settle_taken-IsFresh least w answer none f = f
settle_taken-IsFresh least w answer (some (r, rest)) f =
    settle_snapshot-IsFresh least w.state r answer f

snapshot_step-IsFresh :
    (least : ℕ) (w : SnapshotWorld) (e : SnapshotEvent)
    → IsFresh least w.state
    → IsFresh least (snapshot_step w e).state
unfolding snapshot_step read_snapshot invalidate_snapshot_reads
snapshot_step-IsFresh least w (wants_snapshot membership) f =
    same-IsFresh least w.state _ f (read_snapshot-same w.state membership w.state.refresh_promise)
snapshot_step-IsFresh least w invalidates_reads f = same-IsFresh least w.state _ f (refl, refl)
snapshot_step-IsFresh least w (answers_snapshot i answer) f =
    settle_taken-IsFresh least w answer _ f

-- Whatever is wished, invalidated and answered in whatever order, the generation never falls, and the
-- snapshot that is shown, if any, keeps being that of the generation.
pub snapshot_run-IsFresh :
    (least : ℕ) (w : SnapshotWorld) (es : List SnapshotEvent)
    → IsFresh least w.state
    → IsFresh least (snapshot_run w es).state
unfolding snapshot_run
snapshot_run-IsFresh least w [] f = f
snapshot_run-IsFresh least w (e ∷ es) f =
    snapshot_run-IsFresh least (snapshot_step w e) es (snapshot_step-IsFresh least w e f)
