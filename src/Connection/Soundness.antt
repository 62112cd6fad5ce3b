-- ===== src/Connection/Soundness.antt =====
-- Being sound: connected only while the source is open and no outage is pending. What begins a
-- reconciliation, opens or closes a source keeps it.
use gitna.Prelude.{Text, ℕ, ◌≡◌, refl, Bool, true, false, Option, none, arith, if-holds}
use gitna.Reads.{ReconciliationOutcome}
use gitna.Reconciliation.{
  set_connection_state, InitialRefresh, join_reconciliation, settled_connection, closed_state,
  Connection, ReconciliationIntent, is_connected, finish_reconciliation, begin_reconciliation,
  start_reconciliation, perform_begin,
}
use gitna.Connection.{
  reconciling, forget_outage, replace_source, schedule_snapshot, close_source, dispose_connection,
  open_source, show_open, fire_refresh, reconcile_all, handle_open, connect_events, arm_at,
  set_deadline, arm_recovery, schedule_recovery,
}

-- If the client is connected, the source is open and no outage, notice, deadline or timer is left.
unfoldable pub IsSound : Connection → Type 0
IsSound c =
    is_connected c.connection_state ≡ true
    → (c.source_open ≡ true)
      × (c.recovery_transport_lost ≡ false)
      × (c.recovery_notice_delivered ≡ false)
      × (c.retry_due_at ≡ none)
      × (c.recovery_timer ≡ none)

pub schedule_recovery-IsSound :
    (c : Connection) (force : Bool) (now random : ℕ)
    → IsSound c
    → IsSound (schedule_recovery c force now random)
unfolding IsSound schedule_recovery arm_recovery set_deadline arm_at
schedule_recovery-IsSound c force now random v = ground arith

pub finish_reconciliation-IsSound :
    (c : Connection) (outcome : ReconciliationOutcome) (now : ℕ)
    → IsSound c
    → IsSound (finish_reconciliation c outcome now)
unfolding IsSound finish_reconciliation settled_connection is_connected
finish_reconciliation-IsSound c outcome now v = ground arith

-- A state in which the client is not connected.
pub away-IsSound : (c : Connection) → is_connected c.connection_state ≡ false → IsSound c
unfolding IsSound
away-IsSound c away e = cc

pub perform_begin-IsSound :
    (c : Connection) (intent : ReconciliationIntent) → IsSound c → IsSound (perform_begin c intent)
unfolding IsSound perform_begin closed_state is_connected
perform_begin-IsSound c intent v = ground arith

pub begin_reconciliation-IsSound :
    (c : Connection) (owner : Option ℕ) (lifecycle : ℕ) (intent : ReconciliationIntent)
    (outcome : ReconciliationOutcome) (replaces_source : Bool)
    → IsSound c
    → IsSound (begin_reconciliation c owner lifecycle intent outcome replaces_source)
unfolding IsSound begin_reconciliation
begin_reconciliation-IsSound c owner lifecycle intent outcome replaces_source v =
    perform_begin-IsSound (record c { pending_reconciliation = none }) intent v

pub join-IsSound :
    (c : Connection) (intent : ReconciliationIntent)
    → IsSound c
    → IsSound (join_reconciliation c intent)
unfolding IsSound join_reconciliation
join-IsSound c intent v = v

pub start_reconciliation-IsSound :
    (c : Connection) (intent : ReconciliationIntent) (replaces_source : Bool)
    → IsSound c
    → IsSound (start_reconciliation c intent replaces_source)
unfolding start_reconciliation
start_reconciliation-IsSound c intent replaces_source v =
    if-holds IsSound _ _ _ (join-IsSound c intent v)
      (begin_reconciliation-IsSound c _ _ intent _ replaces_source v)

pub reconcile_all-IsSound :
    (c : Connection) (probe_only replaces_source : Bool)
    → IsSound c
    → IsSound (reconcile_all c probe_only replaces_source)
unfolding reconcile_all
reconcile_all-IsSound c probe_only replaces_source v =
    start_reconciliation-IsSound c _ replaces_source v

pub closed-IsSound : (c : Connection) → IsSound (close_source c)
unfolding close_source is_connected
closed-IsSound c = away-IsSound (close_source c) refl

pub forgotten-IsSound : (c : Connection) → IsSound (forget_outage (close_source c))
unfolding close_source forget_outage is_connected
forgotten-IsSound c = away-IsSound (forget_outage (close_source c)) refl

pub opened-IsSound : (c : Connection) → IsSound c → IsSound (open_source c)
unfolding IsSound open_source
opened-IsSound c v = v

pub dispose_connection-IsSound :
    (c : Connection) (preserve : Bool) → IsSound c → IsSound (dispose_connection c preserve)
unfolding dispose_connection
dispose_connection-IsSound c preserve v =
    if-holds IsSound _ _ _ v (if-holds IsSound _ _ _ (closed-IsSound c) (forgotten-IsSound c))

pub connect_events-IsSound :
    (c : Connection) (now random : ℕ) → IsSound c → IsSound (connect_events c now random)
unfolding connect_events
connect_events-IsSound c now random v = if-holds IsSound _ _ _ v (
    if-holds IsSound _ _ _
      (schedule_recovery-IsSound (open_source c) false now random (opened-IsSound c v))
      (opened-IsSound c v))

pub replace_source-IsSound :
    (c : Connection) (now random : ℕ) → IsSound c → IsSound (replace_source c now random)
unfolding replace_source
replace_source-IsSound c now random v =
    connect_events-IsSound _ now random (dispose_connection-IsSound c true v)

pub fire_refresh-IsSound : (c : Connection) → IsSound c → IsSound (fire_refresh c)
unfolding fire_refresh IsSound
fire_refresh-IsSound c v =
    start_reconciliation-IsSound
      (record c { refresh_timer = false; refresh_files = false; refresh_graph = false }) _ false v

pub show_open-IsSound : (c : Connection) → IsSound c → IsSound (show_open c)
unfolding IsSound show_open
show_open-IsSound c v e = let (a, b, d, f, g) = v e in (refl, refl, refl, f, refl)

pub schedule_snapshot-IsSound :
    (c : Connection) (files graph : Bool) → IsSound c → IsSound (schedule_snapshot c files graph)
unfolding IsSound schedule_snapshot
schedule_snapshot-IsSound c files graph v = v

pub reconciling-IsSound :
    (c : Connection) (error : Option Text) → IsSound (set_connection_state c reconciling error)
unfolding is_connected
reconciling-IsSound c error = away-IsSound (set_connection_state c reconciling error) refl

pub handle_open-IsSound :
    (c : Connection) (result : Option ReconciliationOutcome) (now : ℕ)
    → IsSound c
    → IsSound (handle_open c result now)
unfolding handle_open
handle_open-IsSound c result now v = if-holds IsSound _ _ _ (reconciling-IsSound c none) (
    if-holds IsSound _ _ _ (finish_reconciliation-IsSound c _ now v) (
      if-holds IsSound _ _ _ (reconcile_all-IsSound c false false v) (
        if-holds IsSound _ _ _
          (schedule_snapshot-IsSound (set_connection_state c reconciling none) true true
            (reconciling-IsSound c none))
          (if-holds IsSound _ _ _
            (reconcile_all-IsSound (set_connection_state c reconciling none) false false
              (reconciling-IsSound c none))
            (reconciling-IsSound c none)))))

pub opened_once-IsSound :
    (c : Connection) → IsSound c → IsSound (record c { source_has_opened = true })
unfolding IsSound
opened_once-IsSound c v = v

pub untimed-IsSound : (c : Connection) → IsSound c → IsSound (record c { recovery_timer = none })
unfolding IsSound
untimed-IsSound c v e = let (a, b, d, f, g) = v e in (a, b, d, f, refl)

pub started-IsSound :
    (c : Connection) → IsSound c → IsSound (record c { initial_refresh_started = true })
unfolding IsSound
started-IsSound c v = v

pub promised-IsSound :
    (c : Connection) (o : Option InitialRefresh)
    → IsSound c
    → IsSound (record c { initial_refresh_promise = o })
unfolding IsSound
promised-IsSound c o v = v
