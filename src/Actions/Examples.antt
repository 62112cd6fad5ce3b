-- ===== src/Actions/Examples.antt =====
-- Runs of the actions on small inputs.
use gitna.Prelude.{List, [], ◌∷◌, max, ◌⊎◌, ◌≡◌, ◌↔◌, refl, true, false, none, some, codes}
use gitna.Tabs.{reconnecting, connected}
use gitna.Actions.{
  connection_reason, begin_unless, api_error, Session, backend, get_action_disabled_reason,
  begin_action, refused, begun, busy_reason, active_op_label, unknown, unchanged, changed,
  stronger_file_membership_refresh,
}
use gitna.Actions.Guards.{get_action_disabled_reason-none}
use gitna.Actions.Overlap.{
  settle_at, attempted, action_step, ActionWorld, ActionEvent, attempts_action, connection_changes,
  settles_action, action_run, IsExclusive, RefusesOther, action_run-IsExclusive,
}
use gitna.Actions.Choices.{strength, stronger_file_membership_refresh-IsJoin}

abbrev idle_session : Session
idle_session = record {
  disposed = false;
  busy = false;
  active_op = none;
  connection_state = connected;
  connection_error = none;
  mutation_error = none;
  uncertain_mutation = none;
}

abbrev staging_session : Session
staging_session = record idle_session { busy = true; active_op = some (codes "stage") }

get_action_disabled_reason-none_example :
    (get_action_disabled_reason staging_session backend ≡ none) ↔ (
      (staging_session.disposed ≡ false)
      × (staging_session.busy ≡ false)
      × (staging_session.connection_state ≡ connected))
get_action_disabled_reason-none_example = get_action_disabled_reason-none staging_session

abbrev no_action : ActionWorld
no_action = record { session = idle_session; running = [] }

-- Staging begins, a patch is refused, staging is answered while the connection is lost, and ends.
abbrev one_action : List ActionEvent
one_action =
    attempts_action (codes "stage")
    ∷ attempts_action (codes "patch")
    ∷ connection_changes reconnecting none
    ∷ settles_action 0 (api_error (codes "no"))
    ∷ []

one_action-running : (action_run no_action one_action).running ≡ (codes "stage", true) ∷ []
unfolding action_run action_step attempted settle_at begin_action begin_unless
    get_action_disabled_reason connection_reason gitna.Actions.is_open_folder
one_action-running = refl

no_action-IsExclusive : IsExclusive no_action.running no_action.session
unfolding IsExclusive
no_action-IsExclusive = refl

action_run-IsExclusive_example :
    IsExclusive (action_run no_action one_action).running (action_run no_action one_action).session
    × RefusesOther
        (action_run no_action one_action).running
        (action_run no_action one_action).session
        (codes "commit")
action_run-IsExclusive_example =
    action_run-IsExclusive no_action one_action (codes "commit") no_action-IsExclusive

stronger_file_membership_refresh-IsJoin_example :
    (stronger_file_membership_refresh unchanged changed
      ≡ stronger_file_membership_refresh changed unchanged)
    × (stronger_file_membership_refresh (stronger_file_membership_refresh unchanged changed) unknown
        ≡ stronger_file_membership_refresh unchanged
            (stronger_file_membership_refresh changed unknown))
    × (stronger_file_membership_refresh unchanged unchanged ≡ unchanged)
    × (stronger_file_membership_refresh unknown unchanged ≡ unchanged)
    × ((stronger_file_membership_refresh unchanged changed ≡ unchanged)
        ⊎ (stronger_file_membership_refresh unchanged changed ≡ changed))
    × (strength (stronger_file_membership_refresh unchanged changed)
        ≡ max (strength unchanged) (strength changed))
stronger_file_membership_refresh-IsJoin_example =
    stronger_file_membership_refresh-IsJoin unchanged changed unknown
