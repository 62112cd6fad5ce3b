-- ===== src/Connection/Handlers.antt =====
-- The handlers of the source, of the timers and of a retry keep the connection sound.
use gitna.Prelude.{
  ◌||◌, coalesce_or, codes, ◌+◌, ℕ, refl, Bool, true, false, Option, none, some, if-holds, is_some,
}
use gitna.Reads.{ReconciliationOutcome}
use gitna.Snapshot.{SnapshotWorld}
use gitna.Reconciliation.{
  conclude, set_connection_state, InitialRefresh, RecoveryTimer, drop_readiness, Connection,
  Reconciliation, is_connected,
}
use gitna.Connection.{
  invalidate_read_work, begin_outage, not, source_fails, give_notice, begin_retry, fire_timer,
  unreachable, reconnecting, retry_connection, source_opens, refresh_current_folder, settle_initial,
  run_recovery, probe, show_open, reconcile_all, handle_open,
}
use gitna.Connection.Soundness.{
  IsSound, schedule_recovery-IsSound, away-IsSound, reconcile_all-IsSound, replace_source-IsSound,
  show_open-IsSound, handle_open-IsSound, opened_once-IsSound, untimed-IsSound, started-IsSound,
  promised-IsSound,
}

pub lost-IsSound :
    (c : Connection)
    → IsSound (set_connection_state c reconnecting (some (codes "Backend connection lost")))
unfolding is_connected
lost-IsSound c =
    away-IsSound (set_connection_state c reconnecting (some (codes "Backend connection lost"))) refl

pub noticed-IsSound :
    (c : Connection)
    → IsSound (
        set_connection_state
          (record c { recovery_notice_delivered = true })
          unreachable
          (some (coalesce_or c.connection_error (codes "Backend unreachable"))))
unfolding is_connected
noticed-IsSound c =
    away-IsSound
      (set_connection_state (record c { recovery_notice_delivered = true }) unreachable
        (some (coalesce_or c.connection_error (codes "Backend unreachable"))))
      refl

pub probing-IsSound :
    (c : Connection)
    → IsSound c
    → IsSound (record c { retry_due_at = none; recovery_attempt = c.recovery_attempt + 1 })
unfolding IsSound
probing-IsSound c v e = let (a, b, d, f, g) = v e in (a, b, d, refl, g)

pub begun-IsSound : (c : Connection) (now : ℕ) → IsSound c → IsSound (begin_retry c now)
unfolding IsSound begin_retry
begun-IsSound c now v e = let (a, b, d, f, g) = v e in (a, b, d, f, refl)

pub late-IsSound : (c : Connection) → IsSound c → IsSound (record c { retry_due_at = none })
unfolding IsSound
late-IsSound c v e = let (a, b, d, f, g) = v e in (a, b, d, refl, g)

pub freed-IsSound :
    (c : Connection) (o : Option Reconciliation)
    → IsSound c
    → IsSound (record c { reconciliation_promise = o })
unfolding IsSound
freed-IsSound c o v = v

pub read-IsSound :
    (c : Connection) (w : SnapshotWorld) → IsSound c → IsSound (record c { reads = w })
unfolding IsSound
read-IsSound c w v = v

pub drop_readiness-IsSound :
    (c : Connection) (probe_only : Bool) → IsSound c → IsSound (drop_readiness c probe_only)
unfolding IsSound drop_readiness
drop_readiness-IsSound c true v = v
drop_readiness-IsSound c false v = v

pub conclude-IsSound :
    (c : Connection) (epoch : ℕ) (full : Bool) (o : Option ReconciliationOutcome)
    → IsSound c
    → IsSound (conclude c epoch full o).0
unfolding IsSound conclude
conclude-IsSound c epoch full none v = v
conclude-IsSound c epoch full (some outcome) v = v

pub source_opens-IsSound : (c : Connection) (now : ℕ) → IsSound c → IsSound (source_opens c now)
unfolding source_opens
source_opens-IsSound c now v =
    if-holds IsSound _ _ _
      (opened_once-IsSound (handle_open (show_open c) c.initial_refresh_result now)
        (handle_open-IsSound (show_open c) c.initial_refresh_result now (show_open-IsSound c v)))
      v

pub source_fails-IsSound :
    (c : Connection) (now random : ℕ) → IsSound c → IsSound (source_fails c now random)
unfolding source_fails
source_fails-IsSound c now random v =
    if-holds IsSound _ _ _
      (schedule_recovery-IsSound _ false now random
        (lost-IsSound (begin_outage (invalidate_read_work (record c { source_open = false })) now)))
      v

pub give_notice-IsSound :
    (c : Connection) (notice_at : Option ℕ) (now : ℕ)
    → IsSound c
    → IsSound (give_notice c notice_at now)
unfolding give_notice
give_notice-IsSound c notice_at now v = if-holds IsSound _ _ _ (noticed-IsSound c) v

pub probe-IsSound :
    (c : Connection) (replaces_source : Bool) → IsSound c → IsSound (probe c replaces_source)
unfolding probe
probe-IsSound c replaces_source v =
    reconcile_all-IsSound
      (record c { retry_due_at = none; recovery_attempt = c.recovery_attempt + 1 }) _
      replaces_source (probing-IsSound c v)

pub run_recovery-IsSound :
    (c : Connection) (timer : RecoveryTimer) (now random : ℕ)
    → IsSound c
    → IsSound (run_recovery c timer now random)
unfolding run_recovery
run_recovery-IsSound c timer now random v =
    let noticed = give_notice-IsSound c timer.notice_at now v in
    schedule_recovery-IsSound _ false now random
      (if-holds IsSound _ _ _ noticed (probe-IsSound _ true noticed))

pub fire_timer-IsSound :
    (c : Connection) (o : Option RecoveryTimer) (now random : ℕ)
    → IsSound c
    → IsSound (fire_timer c o now random)
unfolding fire_timer
fire_timer-IsSound c none now random v = v
fire_timer-IsSound c (some timer) now random v =
    if-holds IsSound _ _ _
      (run_recovery-IsSound (record c { recovery_timer = none }) timer now random
        (untimed-IsSound c v))
      (untimed-IsSound c v)

pub retry_connection-IsSound :
    (c : Connection) (source_closed : Bool) (now random : ℕ)
    → IsSound c
    → IsSound (retry_connection c source_closed now random)
unfolding retry_connection
retry_connection-IsSound c source_closed now random v =
    let sourced =
      (if-holds IsSound (not (is_some c.event_source) || source_closed) _ _
        (replace_source-IsSound (begin_retry c now) now random (begun-IsSound c now v))
        (begun-IsSound c now v)) in
    schedule_recovery-IsSound _ false now random
      (if-holds IsSound _ _ _ sourced (probe-IsSound _ false sourced))

pub refresh_current_folder-IsSound :
    (c : Connection) → IsSound c → IsSound (refresh_current_folder c)
unfolding refresh_current_folder
refresh_current_folder-IsSound c v = if-holds IsSound _ _ _ v (
    promised-IsSound (reconcile_all (record c { initial_refresh_started = true }) false false) _ (
      reconcile_all-IsSound (record c { initial_refresh_started = true }) false false
        (started-IsSound c v)))

pub settle_initial-IsSound :
    (c : Connection) (o : Option InitialRefresh) (outcome : ReconciliationOutcome)
    → IsSound c
    → IsSound (settle_initial c o outcome)
unfolding settle_initial IsSound
settle_initial-IsSound c none outcome v = v
settle_initial-IsSound c (some i) outcome v = v
