-- ===== src/Actions/Overlap.antt =====
-- Runs of actions that are attempted, settled and finished in any order, while the connection changes and
-- the view is closed and opened: mutate, operation and runWorktreeOperation of repository.tsx.
use gitna.Prelude.{
  ap, ◌===◌, ◌∙◌, ◌≡◌, refl, ℕ, zero, suc, Bool, true, false, Option, none, some, List, [], ◌∷◌,
  Text, if◌then◌else◌, inl, inr, Bool-cases, codes,
}
use gitna.Tabs.{ConnectionState}
use gitna.Actions.{
  active_op_label, busy_reason, get_action_disabled_reason, acknowledge_uncertain_mutation,
  dismiss_from, dismiss_mutation_error, Session, Begun, refused, begun, Outcome, done, api_error,
  unknown_error, begin_action, begin_unless, settle_action, finish_action, backend,
}

-- An action that runs, and whether its request was answered.
abbrev pub Running : Type 0
Running = Text × Bool

pub record ActionWorld : Type 0 where
  pub session : Session
  pub running : List Running

pub data ActionEvent : Type 0 where
  attempts_action : Text → ActionEvent
  settles_action : ℕ → Outcome → ActionEvent
  finishes_action : ℕ → ActionEvent
  connection_changes : ConnectionState → Option Text → ActionEvent
  view_changes : Bool → ActionEvent
  acknowledges_uncertain : ActionEvent
  dismisses_error : Text → ActionEvent

unfoldable pub attempted : Begun → Text → List Running → ActionWorld
attempted (refused s) op running = record { session = s; running = running }
attempted (begun s) op running = record { session = s; running = (op, false) ∷ running }

-- The request of the action of the index is answered, once.
unfoldable pub settle_at : ℕ → Outcome → Session → List Running → ActionWorld
settle_at i outcome s [] = record { session = s; running = [] }
settle_at zero outcome s ((op, false) ∷ rest) = record {
  session = settle_action s op outcome;
  running = (op, true) ∷ rest;
}
settle_at zero outcome s ((op, true) ∷ rest) = record { session = s; running = (op, true) ∷ rest }
settle_at (suc i) outcome s (r ∷ rest) =
    let w = settle_at i outcome s rest in record w { running = r ∷ w.running }

-- The action of the index ends after the refreshes, once its request was answered.
unfoldable pub finish_at : ℕ → Session → List Running → ActionWorld
finish_at i s [] = record { session = s; running = [] }
finish_at zero s ((op, true) ∷ rest) = record { session = finish_action s; running = rest }
finish_at zero s ((op, false) ∷ rest) = record { session = s; running = (op, false) ∷ rest }
finish_at (suc i) s (r ∷ rest) = let w = finish_at i s rest in record w { running = r ∷ w.running }

unfoldable pub action_step : ActionWorld → ActionEvent → ActionWorld
action_step w (attempts_action op) = attempted (begin_action w.session op) op w.running
action_step w (settles_action i outcome) = settle_at i outcome w.session w.running
action_step w (finishes_action i) = finish_at i w.session w.running
action_step w (connection_changes state error) = record w {
  session = record w.session { connection_state = state; connection_error = error };
}
action_step w (view_changes closed) = record w { session = record w.session { disposed = closed } }
action_step w acknowledges_uncertain = record w {
  session = acknowledge_uncertain_mutation w.session;
}
action_step w (dismisses_error error) = record w {
  session = dismiss_mutation_error w.session error;
}

unfoldable pub action_run : ActionWorld → List ActionEvent → ActionWorld
action_run w [] = w
action_run w (e ∷ events) = action_run (action_step w e) events

-- The session is busy with the one action that runs, or idle.
unfoldable pub IsExclusive : List Running → Session → Type 0
IsExclusive [] s = s.busy ≡ false
IsExclusive ((op, answered) ∷ []) s = (s.busy ≡ true) × (s.active_op ≡ some op)
IsExclusive (r ∷ q ∷ rest) s = ⊥

-- What another action gets while one runs: the refusal, with the reason.
abbrev pub RefusesOther : List Running → Session → Text → Type 0
RefusesOther [] s other = Unit
RefusesOther ((op, answered) ∷ rest) s other =
    begin_action s other
    ≡ refused (record s {
      mutation_error = some (
          if s.disposed
          then codes "This repository view is closed. Reopen Gitna to continue."
          else busy_reason (active_op_label (some op)));
    })

-- The parts of the session that say what runs.
same-IsExclusive :
    (running : List Running) (s t : Session)
    → t.busy ≡ s.busy
    → t.active_op ≡ s.active_op
    → IsExclusive running s
    → IsExclusive running t
unfolding IsExclusive
same-IsExclusive [] s t b a h = b ∙ h
same-IsExclusive (r ∷ []) s t b a (busy, active) = (b ∙ busy, a ∙ active)
same-IsExclusive (r ∷ q ∷ rest) s t b a h = h

-- The reason against another action while one runs.
reason_while_busy :
    (s : Session) (op : Text)
    → s.busy ≡ true
    → s.active_op ≡ some op
    → get_action_disabled_reason s backend
      ≡ some (
          if s.disposed
          then codes "This repository view is closed. Reopen Gitna to continue."
          else busy_reason (active_op_label (some op)))
unfolding get_action_disabled_reason
reason_while_busy s op busy active = elim (Bool-cases s.disposed) [
  | inl closed ↦ rw closed refl
  | inr opened ↦ rw (opened, busy, active) refl
]

refused_while_busy :
    (s : Session) (op other : Text)
    → s.busy ≡ true
    → s.active_op ≡ some op
    → begin_action s other
      ≡ refused (record s {
        mutation_error = some (
            if s.disposed
            then codes "This repository view is closed. Reopen Gitna to continue."
            else busy_reason (active_op_label (some op)));
      })
unfolding begin_action begin_unless
refused_while_busy s op other busy active =
    ap (λ reason. begin_unless reason s other) (reason_while_busy s op busy active)

begun-IsExclusive :
    (s : Session) (op : Text) (reason : Option Text)
    → IsExclusive [] s
    → let w = attempted (begin_unless reason s op) op [] in IsExclusive w.running w.session
unfolding attempted IsExclusive begin_unless
begun-IsExclusive s op none idle = (refl, refl)
begun-IsExclusive s op (some reason) idle = idle

attempt-IsExclusive :
    (s : Session) (op : Text) (running : List Running)
    → IsExclusive running s
    → let w = attempted (begin_action s op) op running in IsExclusive w.running w.session
unfolding attempted IsExclusive begin_action
attempt-IsExclusive s op [] idle =
    begun-IsExclusive s op (get_action_disabled_reason s backend) idle
attempt-IsExclusive s op ((first, answered) ∷ []) (busy, active) =
    rw (refused_while_busy s first op busy active) (busy, active)
attempt-IsExclusive s op (r ∷ q ∷ rest) h = elim h [ ]

busy-settle :
    (s : Session) (op : Text) (outcome : Outcome)
    → ((settle_action s op outcome).busy ≡ s.busy)
      × ((settle_action s op outcome).active_op ≡ s.active_op)
unfolding settle_action
busy-settle s op done = (refl, refl)
busy-settle s op (api_error message) = (refl, refl)
busy-settle s op (unknown_error message) = (refl, refl)

settle-IsExclusive :
    (i : ℕ) (outcome : Outcome) (s : Session) (running : List Running)
    → IsExclusive running s
    → let w = settle_at i outcome s running in IsExclusive w.running w.session
unfolding settle_at IsExclusive
settle-IsExclusive i outcome s [] h = h
settle-IsExclusive zero outcome s ((op, false) ∷ []) (busy, active) =
    let same = busy-settle s op outcome in (same.0 ∙ busy, same.1 ∙ active)
settle-IsExclusive zero outcome s ((op, true) ∷ []) h = h
settle-IsExclusive (suc i) outcome s ((op, answered) ∷ []) h = h
settle-IsExclusive i outcome s (r ∷ q ∷ rest) h = elim h [ ]

finish-IsExclusive :
    (i : ℕ) (s : Session) (running : List Running)
    → IsExclusive running s
    → let w = finish_at i s running in IsExclusive w.running w.session
unfolding finish_at IsExclusive finish_action
finish-IsExclusive i s [] h = h
finish-IsExclusive zero s ((op, false) ∷ []) h = h
finish-IsExclusive zero s ((op, true) ∷ []) h = refl
finish-IsExclusive (suc i) s ((op, answered) ∷ []) h = h
finish-IsExclusive i s (r ∷ q ∷ rest) h = elim h [ ]

dismiss_from-busy :
    (s : Session) (error : Text) (shown : Option Text)
    → ((dismiss_from s error shown).busy ≡ s.busy)
      × ((dismiss_from s error shown).active_op ≡ s.active_op)
unfolding dismiss_from
dismiss_from-busy s error none = (refl, refl)
dismiss_from-busy s error (some text) = elim (Bool-cases (text === error)) [
  | inl same ↦ rw same (refl, refl)
  | inr other ↦ rw other (refl, refl)
]

dismiss-busy :
    (s : Session) (error : Text)
    → ((dismiss_mutation_error s error).busy ≡ s.busy)
      × ((dismiss_mutation_error s error).active_op ≡ s.active_op)
unfolding dismiss_mutation_error
dismiss-busy s error = dismiss_from-busy s error s.mutation_error

step-IsExclusive :
    (w : ActionWorld) (e : ActionEvent)
    → IsExclusive w.running w.session
    → IsExclusive (action_step w e).running (action_step w e).session
unfolding action_step acknowledge_uncertain_mutation
step-IsExclusive w (attempts_action op) h = attempt-IsExclusive w.session op w.running h
step-IsExclusive w (settles_action i outcome) h = settle-IsExclusive i outcome w.session w.running h
step-IsExclusive w (finishes_action i) h = finish-IsExclusive i w.session w.running h
step-IsExclusive w (connection_changes state error) h =
    same-IsExclusive w.running w.session _ refl refl h
step-IsExclusive w (view_changes closed) h = same-IsExclusive w.running w.session _ refl refl h
step-IsExclusive w acknowledges_uncertain h = same-IsExclusive w.running w.session _ refl refl h
step-IsExclusive w (dismisses_error error) h =
    let same = dismiss-busy w.session error in
    same-IsExclusive w.running w.session _ (same.0) (same.1) h

refuses :
    (running : List Running) (s : Session) (other : Text)
    → IsExclusive running s
    → RefusesOther running s other
unfolding IsExclusive
refuses [] s other h = tt
refuses ((op, answered) ∷ []) s other (busy, active) = refused_while_busy s op other busy active
refuses (r ∷ q ∷ rest) s other h = elim h [ ]

-- Whatever actions are attempted, settled and finished in whatever order, and whatever the connection does
-- meanwhile, starting where it is so: at most one action runs, the session is busy exactly while it runs and
-- names it, and as long as it runs any other action is refused, because the view is closed or with the label
-- of the one that runs, and changes only the error that is shown.
pub action_run-IsExclusive :
    (w : ActionWorld) (events : List ActionEvent) (other : Text)
    → IsExclusive w.running w.session
    → IsExclusive (action_run w events).running (action_run w events).session
      × RefusesOther (action_run w events).running (action_run w events).session other
unfolding action_run
action_run-IsExclusive w [] other h = (h, refuses w.running w.session other h)
action_run-IsExclusive w (e ∷ events) other h =
    action_run-IsExclusive (action_step w e) events other (step-IsExclusive w e h)
