-- ===== src/Connection/Recovery.antt =====
-- A connection that is not back is probed again, soon.
use gitna.Tabs.{unreachable}
use gitna.Connection.{
  is_notice_due, reconcile_all, arm_at, set_deadline, wanted_notice, schedule_recovery, minimum,
  earliest, arm_recovery, schedule_again, jittered, give_notice, probe, run_recovery, fire_timer,
  fire_recovery, is_owner, is_retry_due,
}
use gitna.Prelude.{
  codes, codes, if◌then◌else◌, sym, ap, ◌∙◌, if-holds, coalesce_or, coalesce_or, inr, ◌∙◌, ap, inl,
  Bool-cases, if-holds, ◌==◌, ℕ, ◌+◌, ◌≤◌, ◌≡◌, refl, Bool, true, false, not, ◌&&◌, ◌||◌, Option,
  none, some, arith, is_some, leb,
}
use mathlib.Core.Path.{subst}
use gitna.Reads.{ReconciliationOutcome}
use gitna.Reconciliation.{
  set_connection_state, set_connection_state, begin_reconciliation, begin_reconciliation,
  start_reconciliation, start_reconciliation, Connection, RecoveryTimer, is_connected,
  succeeded_result,
}

jittered_bound : (attempt random : ℕ) → jittered attempt random ≤ 15000
unfolding jittered minimum
jittered_bound attempt random = ground arith

-- The connection has a source, is not connected, and no operation runs.
pub record IsAway (c : Connection) : Type 0 where
  pub is_open : c.disposed ≡ false
  pub has_source : is_some c.event_source ≡ true
  pub not_connected : is_connected c.connection_state ≡ false
  pub is_idle : c.reconciliation_promise ≡ none

-- A timer of this source and lifecycle that fires by then.
pub record IsOwnTimer (c : Connection) (timer : RecoveryTimer) (deadline : ℕ) : Type 0 where
  pub fires_by : timer.due ≤ deadline
  pub own_source : timer.owner ≡ c.event_source
  pub own_epoch : timer.owner_epoch ≡ c.reconciliation_epoch

-- The deadline of the next probe, and a timer that fires by then.
pub record IsProbing (c : Connection) (deadline : ℕ) : Type 0 where
  pub is_away : IsAway c
  pub has_deadline : c.retry_due_at ≡ some deadline
  pub timer : RecoveryTimer
  pub is_armed : c.recovery_timer ≡ some timer
  pub is_own : IsOwnTimer c timer deadline

earliest_bound : (n : ℕ) (o : Option ℕ) → (m : ℕ) × (earliest (some n) o ≡ some m) × (m ≤ n)
unfolding earliest minimum
earliest_bound n none = (n, refl, omega arith)
earliest_bound n (some k) = (minimum n k, refl, ground arith)

-- There is a deadline and no timer.
record HasFired (c : Connection) (deadline : ℕ) : Type 0 where
  is_away : IsAway c
  no_timer : c.recovery_timer ≡ none
  has_deadline : c.retry_due_at ≡ some deadline

arm_recovery-IsProbing :
    (c : Connection) (deadline : ℕ) → HasFired c deadline → IsProbing (arm_recovery c) deadline
unfolding arm_recovery arm_at earliest wanted_notice
arm_recovery-IsProbing c deadline h =
    let (m, e, bound) = earliest_bound deadline (wanted_notice c) in
    let away = h.is_away in
    rw (h.no_timer, away.is_idle, h.has_deadline, e, arm_at)
      (record {
        is_away = record {
          is_open = away.is_open;
          has_source = away.has_source;
          not_connected = away.not_connected;
          is_idle = away.is_idle;
        };
        has_deadline = h.has_deadline;
        timer = record {
          due = m;
          notice_at = wanted_notice c;
          owner = c.event_source;
          owner_epoch = c.reconciliation_epoch;
        };
        is_armed = refl;
        is_own = record { fires_by = bound; own_source = refl; own_epoch = refl };
      })

-- A deadline is set when there is none, and else stays.
set_deadline_new :
    (c : Connection) (now random : ℕ)
    → c.reconciliation_promise ≡ none
    → c.retry_due_at ≡ none
    → set_deadline c now random
      ≡ record c { retry_due_at = some (now + jittered c.recovery_attempt random) }
unfolding set_deadline
set_deadline_new c now random idle no_deadline = rw (idle, no_deadline) refl

set_deadline_kept :
    (c : Connection) (deadline now random : ℕ)
    → c.retry_due_at ≡ some deadline
    → set_deadline c now random ≡ c
unfolding set_deadline
set_deadline_kept c deadline now random due = rw due refl

-- What is scheduled while the client is away.
abbrev scheduled : Connection → Bool → ℕ → Connection
scheduled c force now = record c {
  recovery_started_at = some (coalesce_or c.recovery_started_at now);
  recovery_timer = if force then none else c.recovery_timer;
}

schedule_recovery_away :
    (c : Connection) (force : Bool) (now random : ℕ)
    → IsAway c
    → schedule_recovery c force now random
      ≡ arm_recovery (set_deadline (scheduled c force now) now random)
unfolding schedule_recovery
schedule_recovery_away c force now random away =
    rw (away.is_open, away.has_source, away.not_connected) refl

same-IsAway :
    (c d : Connection)
    → d.disposed ≡ c.disposed
    → d.event_source ≡ c.event_source
    → is_connected d.connection_state ≡ is_connected c.connection_state
    → d.reconciliation_promise ≡ c.reconciliation_promise
    → IsAway c
    → IsAway d
same-IsAway c d p q r s away = record {
  is_open = p ∙ away.is_open;
  has_source = ap is_some q ∙ away.has_source;
  not_connected = r ∙ away.not_connected;
  is_idle = s ∙ away.is_idle;
}

schedule_recovery-forced :
    (c : Connection) (now random : ℕ)
    → IsAway c
    → c.retry_due_at ≡ none
    → IsProbing (schedule_recovery c true now random) (now + jittered c.recovery_attempt random)
schedule_recovery-forced c now random away no_deadline =
    let t = scheduled c true now in
    let deadline = now + jittered c.recovery_attempt random in
    subst (λ d. IsProbing d deadline)
      (sym (
        schedule_recovery_away c true now random away
        ∙ ap arm_recovery (set_deadline_new t now random away.is_idle no_deadline)))
      (arm_recovery-IsProbing (record t { retry_due_at = some deadline }) deadline
        (record {
          is_away =
              same-IsAway c (record t { retry_due_at = some deadline }) refl refl refl refl away;
          no_timer = refl;
          has_deadline = refl;
        }))

schedule_recovery_kept :
    (c : Connection) (deadline now random : ℕ)
    → HasFired c deadline
    → IsProbing (schedule_recovery c false now random) deadline
schedule_recovery_kept c deadline now random h =
    let t = scheduled c false now in
    subst (λ d. IsProbing d deadline)
      (sym (
        schedule_recovery_away c false now random h.is_away
        ∙ ap arm_recovery (set_deadline_kept t deadline now random h.has_deadline)))
      (arm_recovery-IsProbing t deadline (record {
        is_away = same-IsAway c t refl refl refl refl h.is_away;
        no_timer = h.no_timer;
        has_deadline = h.has_deadline;
      }))

give_notice-HasFired :
    (c : Connection) (notice_at : Option ℕ) (deadline now : ℕ)
    → HasFired c deadline
    → HasFired (give_notice c notice_at now) deadline
unfolding give_notice is_connected
give_notice-HasFired c notice_at deadline now h =
    let noticed =
      set_connection_state (record c { recovery_notice_delivered = true }) unreachable
        (some (coalesce_or c.connection_error (codes "Backend unreachable"))) in
    if-holds (λ d. HasFired d deadline)
      (is_notice_due notice_at now && not c.source_open && not c.recovery_notice_delivered) noticed
      c
      (record {
        is_away = record {
          is_open = h.is_away.is_open;
          has_source = h.is_away.has_source;
          not_connected = refl;
          is_idle = h.is_away.is_idle;
        };
        no_timer = h.no_timer;
        has_deadline = h.has_deadline;
      })
      h

promise-arm_at :
    (c : Connection) (due : Option ℕ)
    → (arm_at c due).reconciliation_promise ≡ c.reconciliation_promise
unfolding arm_at
promise-arm_at c none = refl
promise-arm_at c (some due) = refl

-- An operation that runs still runs after the timer is armed again.
promise-arm_recovery :
    (c : Connection) → (arm_recovery c).reconciliation_promise ≡ c.reconciliation_promise
unfolding arm_recovery
promise-arm_recovery c = elim (Bool-cases (is_some c.recovery_timer)) [
  | inl armed ↦ rw armed refl
  | inr free ↦ rw free (promise-arm_at c _)
]

promise-set_deadline :
    (c : Connection) (now random : ℕ)
    → (set_deadline c now random).reconciliation_promise ≡ c.reconciliation_promise
unfolding set_deadline
promise-set_deadline c now random =
    elim (Bool-cases (is_some c.retry_due_at || is_some c.reconciliation_promise)) [
      | inl kept ↦ rw kept refl
      | inr new ↦ rw new refl
    ]

promise-schedule_recovery :
    (c : Connection) (now random : ℕ)
    → (schedule_recovery c false now random).reconciliation_promise ≡ c.reconciliation_promise
unfolding schedule_recovery
promise-schedule_recovery c now random =
    elim (Bool-cases
      (c.disposed || not (is_some c.event_source) || is_connected c.connection_state)) [
        | inl left ↦ rw left refl
        | inr goes ↦ rw goes (
            promise-arm_recovery (set_deadline (scheduled c false now) now random)
            ∙ promise-set_deadline (scheduled c false now) now random)
      ]

promise-probe :
    (c : Connection) (replaces : Bool)
    → c.reconciliation_promise ≡ none
    → is_some (probe c replaces).reconciliation_promise ≡ true
unfolding probe reconcile_all start_reconciliation begin_reconciliation
promise-probe c replaces idle = rw idle refl

-- When the timer fires: at or after the deadline the probe runs, and before it the deadline stays, and a
-- timer is armed again.
abbrev pub IsProbedOrProbing : Bool → Connection → ℕ → Type 0
IsProbedOrProbing true c deadline = is_some c.reconciliation_promise ≡ true
IsProbedOrProbing false c deadline = IsProbing c deadline

-- No probe is begun when the timer fires before the deadline.
waits-HasFired :
    (c : Connection) (deadline now : ℕ)
    → HasFired c deadline
    → (is_some c.reconciliation_promise || not (is_retry_due c.retry_due_at now))
      ≡ not (leb deadline now)
unfolding is_retry_due
waits-HasFired c deadline now h = rw (h.is_away.is_idle, h.has_deadline) refl

run_recovery-probes :
    (c : Connection) (timer : RecoveryTimer) (deadline now random : ℕ)
    → HasFired c deadline
    → IsProbedOrProbing (leb deadline now) (run_recovery c timer now random) deadline
unfolding run_recovery
run_recovery-probes c timer deadline now random h =
    let noticed = give_notice-HasFired c timer.notice_at deadline now h in
    let n = give_notice c timer.notice_at now in
    elim (Bool-cases (leb deadline now)) [
      | inl over ↦
          rw (waits-HasFired c deadline now h, over)
            (ap is_some (promise-schedule_recovery (probe n true) now random)
              ∙ promise-probe n true noticed.is_away.is_idle)
      | inr early ↦
          rw (waits-HasFired c deadline now h, early)
            (schedule_recovery_kept n deadline now random noticed)
    ]

is_owner_self : (o : Option ℕ) → is_owner o o ≡ true
unfolding is_owner
is_owner_self none = refl
is_owner_self (some n) = ground arith

eq_self : (n : ℕ) → (n == n) ≡ true
eq_self n = ground arith

fire_recovery-probes :
    (c : Connection) (deadline now random : ℕ)
    → IsProbing c deadline
    → IsProbedOrProbing (leb deadline now) (fire_recovery c now random) deadline
unfolding fire_recovery fire_timer run_recovery
fire_recovery-probes c deadline now random p =
    rw
      (
        p.is_armed,
        p.is_own.own_source,
        p.is_own.own_epoch,
        is_owner_self c.event_source,
        eq_self c.reconciliation_epoch,
      )
      (run_recovery-probes (record c { recovery_timer = none }) p.timer deadline now random
        (record {
          is_away = record {
            is_open = p.is_away.is_open;
            has_source = p.is_away.has_source;
            not_connected = p.is_away.not_connected;
            is_idle = p.is_away.is_idle;
          };
          no_timer = refl;
          has_deadline = p.has_deadline;
        }))

-- When an operation of a source is over without an authoritative success, or an outage goes on, and the
-- client is not connected, the deadline of the next probe is set within fifteen seconds, and a timer of this
-- source is armed that fires by then; when it fires, the probe runs if the deadline is reached, and else the
-- deadline stays and such a timer is armed again.
pub schedule_again-IsProbing :
    (c : Connection) (outcome : ReconciliationOutcome) (now random fired_at random_then : ℕ)
    → IsAway c
    → (not (succeeded_result outcome.result && outcome.authoritative) || c.recovery_transport_lost)
      ≡ true
    → let scheduled = schedule_again c outcome now random in
      (deadline : ℕ) × (deadline ≤ now + 15000)
      × IsProbing scheduled deadline
      × IsProbedOrProbing
          (leb deadline fired_at)
          (fire_recovery scheduled fired_at random_then)
          deadline
unfolding schedule_again
schedule_again-IsProbing c outcome now random fired_at random_then away again =
    let cleared = record c { retry_due_at = none } in
    let p =
      schedule_recovery-forced cleared now random (same-IsAway c cleared refl refl refl refl away)
        refl in
    let deadline = now + jittered c.recovery_attempt random in
    rw (away.not_connected, again)
      (
        deadline,
        omega (arith, jittered_bound c.recovery_attempt random),
        p,
        fire_recovery-probes _ deadline fired_at random_then p,
      )
