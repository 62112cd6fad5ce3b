-- ===== src/Connection/Consistency.antt =====
-- The client is shown as connected only while its source is open and no outage is pending.
use gitna.Prelude.{
  inl, inr, ◌==◌, Bool-cases, ℕ, Bool, true, false, Option, none, some, List, [], ◌∷◌, if-holds,
}
use gitna.Reads.{ReconciliationOutcome}
use gitna.Reconciliation.{
  succeeded_result, read_epoch, reads_snapshot, perform_reads, conclude, perform_snapshot,
  drop_readiness, Connection, Reconciliation, ReconciliationIntent,
}
use gitna.Connection.{
  disposes, refresh_fires, refreshes_folder, settles, reads_answer, retried, retries,
  recovery_fires, invalidates, fails, opens, goes_on, connects, reads_rest, is_over,
  settle_reconciliation, Phase, schedule_again, settle_performed, report_outcome, settle_current,
  loop_reconciliation, fire_recovery, perform, Performed, end_reconciliation, ConnectionEvent,
  connection_step, connection_run,
}
use gitna.Connection.Soundness.{
  IsSound, schedule_recovery-IsSound, finish_reconciliation-IsSound, begin_reconciliation-IsSound,
  dispose_connection-IsSound, connect_events-IsSound, replace_source-IsSound, fire_refresh-IsSound,
  schedule_snapshot-IsSound, reconciling-IsSound,
}
use gitna.Connection.Handlers.{
  late-IsSound, freed-IsSound, read-IsSound, drop_readiness-IsSound, conclude-IsSound,
  source_opens-IsSound, source_fails-IsSound, fire_timer-IsSound, retry_connection-IsSound,
  refresh_current_folder-IsSound, settle_initial-IsSound,
}

schedule_again-IsSound :
    (c : Connection) (outcome : ReconciliationOutcome) (now random : ℕ)
    → IsSound c
    → IsSound (schedule_again c outcome now random)
unfolding schedule_again
schedule_again-IsSound c outcome now random v =
    if-holds IsSound _ _ _
      (schedule_recovery-IsSound (record c { retry_due_at = none }) true now random
        (late-IsSound c v))
      v

report_outcome-IsSound :
    (c : Connection) (r : Reconciliation) (outcome : ReconciliationOutcome) (source_closed : Bool)
    (now random : ℕ)
    → IsSound c
    → IsSound (report_outcome c r outcome source_closed now random)
unfolding report_outcome
report_outcome-IsSound c r outcome source_closed now random v =
    let settled = settle_initial-IsSound c c.initial_refresh_promise outcome v in
    if-holds IsSound _ _ _ (replace_source-IsSound _ now random settled) settled

end_reconciliation-IsSound :
    (c : Connection) (r : Reconciliation) (ended : ReconciliationOutcome) (source_closed : Bool)
    (now random : ℕ)
    → IsSound c
    → IsSound (end_reconciliation c r ended source_closed now random)
unfolding end_reconciliation
end_reconciliation-IsSound c r ended source_closed now random v =
    report_outcome-IsSound _ r _ source_closed now random (
      schedule_again-IsSound _ _ now random (
        finish_reconciliation-IsSound (record c { reconciliation_promise = none }) _ now
          (freed-IsSound c none v)))

loop_reconciliation-IsSound :
    (c : Connection) (r : Reconciliation) (outcome : ReconciliationOutcome)
    (o : Option ReconciliationIntent) (source_closed : Bool) (now random : ℕ)
    → IsSound c
    → IsSound (loop_reconciliation c r outcome o source_closed now random)
unfolding loop_reconciliation
loop_reconciliation-IsSound c r outcome none source_closed now random v =
    end_reconciliation-IsSound c r outcome source_closed now random v
loop_reconciliation-IsSound c r outcome (some intent) source_closed now random v =
    begin_reconciliation-IsSound c _ _ _ _ _ v

IsSoundPerformed : Performed → Type 0
IsSoundPerformed (is_over c outcome) = IsSound c
IsSoundPerformed (goes_on c phase) = IsSound c

settle_performed-IsSound :
    (r : Reconciliation) (p : Performed) (source_closed : Bool) (now random : ℕ)
    → IsSoundPerformed p
    → IsSound (settle_performed r p source_closed now random)
unfolding settle_performed IsSoundPerformed
settle_performed-IsSound r (is_over c current) source_closed now random v =
    loop_reconciliation-IsSound c r _ c.pending_reconciliation source_closed now random v
settle_performed-IsSound r (goes_on c phase) source_closed now random v =
    freed-IsSound c (some (record r { phase = phase })) v

perform_snapshot-IsSound :
    (c : Connection) (r : Reconciliation) (outcome : ReconciliationOutcome)
    → IsSound c
    → IsSoundPerformed (perform_snapshot c r outcome)
unfolding perform_snapshot drop_readiness IsSoundPerformed
perform_snapshot-IsSound c r outcome v = elim (Bool-cases (r.settled_read_epoch == read_epoch c)) [
  | inr stale ↦ rw (perform_snapshot, stale) v
  | inl same ↦ elim (Bool-cases (succeeded_result outcome.result)) [
    | inr bad ↦ rw (perform_snapshot, same, bad) (drop_readiness-IsSound c r.intent.probe_only v)
    | inl good ↦ elim (Bool-cases r.intent.probe_only) [
      | inl only ↦ rw (perform_snapshot, same, good, only) v
      | inr full ↦
          rw (perform_snapshot, same, good, full)
            (if-holds IsSound _ _ _ (reconciling-IsSound c none) v)
    ]
  ]
]

perform_reads-IsSound :
    (c : Connection) (r : Reconciliation) (explorer git : Bool)
    (outcomes : List ReconciliationOutcome)
    → IsSound c
    → IsSound (perform_reads c r explorer git outcomes).0
unfolding perform_reads conclude
perform_reads-IsSound c r explorer git outcomes v =
    if-holds (λ (x : Connection × ReconciliationOutcome). IsSound x.0) _ _ _ v
      (conclude-IsSound c _ _ _ v)

perform-IsSound :
    (c : Connection) (r : Reconciliation) (phase : Phase) (outcomes : List ReconciliationOutcome)
    → IsSound c
    → IsSoundPerformed (perform c r phase outcomes)
unfolding perform IsSoundPerformed
perform-IsSound c r reads_snapshot [] v = v
perform-IsSound c r reads_snapshot (outcome ∷ outcomes) v = perform_snapshot-IsSound c r outcome v
perform-IsSound c r (reads_rest explorer git) outcomes v =
    perform_reads-IsSound c r explorer git outcomes v

settle_current-IsSound :
    (c : Connection) (o : Option Reconciliation) (outcomes : List ReconciliationOutcome)
    (source_closed : Bool) (now random : ℕ)
    → IsSound c
    → IsSound (settle_current c o outcomes source_closed now random)
unfolding settle_current
settle_current-IsSound c none outcomes source_closed now random v = v
settle_current-IsSound c (some r) outcomes source_closed now random v =
    if-holds IsSound _ _ _
      (settle_performed-IsSound r _ source_closed now random
        (perform-IsSound c r r.phase outcomes v))
      (freed-IsSound c none v)

connection_step-IsSound :
    (c : Connection) (e : ConnectionEvent) → IsSound c → IsSound (connection_step c e)
unfolding connection_step fire_recovery settle_reconciliation
connection_step-IsSound c (connects now random) v = connect_events-IsSound c now random v
connection_step-IsSound c disposes v = dispose_connection-IsSound c false v
connection_step-IsSound c (opens now) v = source_opens-IsSound c now v
connection_step-IsSound c (fails now random) v = source_fails-IsSound c now random v
connection_step-IsSound c (invalidates files) v =
    if-holds IsSound _ _ _ (schedule_snapshot-IsSound c files false v) v
connection_step-IsSound c refresh_fires v = if-holds IsSound _ _ _ (fire_refresh-IsSound c v) v
connection_step-IsSound c (recovery_fires now random) v =
    fire_timer-IsSound c c.recovery_timer now random v
connection_step-IsSound c (retries source_closed now random) v =
    retry_connection-IsSound c source_closed now random v
connection_step-IsSound c (retried now random) v = schedule_recovery-IsSound c false now random v
connection_step-IsSound c refreshes_folder v = refresh_current_folder-IsSound c v
connection_step-IsSound c (reads_answer i answer) v = read-IsSound c _ v
connection_step-IsSound c (settles outcomes source_closed now random) v =
    settle_current-IsSound c c.reconciliation_promise outcomes source_closed now random v

-- Whatever happens to the connection in whatever order, it is shown as connected only while its source is
-- open and no outage, notice, deadline or recovery timer is left.
pub connection_run-IsSound :
    (c : Connection) (es : List ConnectionEvent) → IsSound c → IsSound (connection_run c es)
unfolding connection_run
connection_run-IsSound c [] v = v
connection_run-IsSound c (e ∷ es) v =
    connection_run-IsSound (connection_step c e) es (connection_step-IsSound c e v)
