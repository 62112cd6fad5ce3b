-- ===== src/Actions/Guards.antt =====
-- When an action may begin.
use gitna.Prelude.{◌≡◌, ◌↔◌, refl, Bool, true, false, Option, none, some, Text, if◌then◌else◌}
use gitna.Tabs.{
  ConnectionState, connecting, connected, reconnecting, reconciling, unreachable, session_error,
}
use gitna.Actions.{is_open_folder, connection_reason, Session, backend, get_action_disabled_reason}

connection_reason-none :
    (c : ConnectionState) (error : Option Text) → connection_reason c error ≡ none → c ≡ connected
unfolding connection_reason
connection_reason-none connecting error e = absurd cc
connection_reason-none connected error e = refl
connection_reason-none reconnecting error e = absurd cc
connection_reason-none reconciling error e = absurd cc
connection_reason-none unreachable error e = absurd cc
connection_reason-none session_error error e = absurd cc

if-none :
    (t : Bool) (reason : Text) (o : Option Text)
    → (if t then some reason else o) ≡ none
    → (t ≡ false) × (o ≡ none)
if-none true reason o e = absurd cc
if-none false reason o e = (refl, e)

when_none :
    (s : Session)
    → get_action_disabled_reason s backend ≡ none
    → (s.disposed ≡ false) × (s.busy ≡ false) × (s.connection_state ≡ connected)
unfolding get_action_disabled_reason is_open_folder
when_none s e =
    let (not_closed, e1) = if-none s.disposed _ _ e in
    let (idle, e2) = if-none s.busy _ _ e1 in
    (not_closed, idle, connection_reason-none s.connection_state s.connection_error e2)

-- An action of the backend has no reason against it exactly when the view is not closed, no action is in
-- progress and the backend is connected.
pub get_action_disabled_reason-none :
    (s : Session)
    → (get_action_disabled_reason s backend ≡ none)
      ↔ ((s.disposed ≡ false) × (s.busy ≡ false) × (s.connection_state ≡ connected))
unfolding get_action_disabled_reason is_open_folder connection_reason
get_action_disabled_reason-none s =
    (when_none s, λ (not_closed, idle, ready). rw (not_closed, idle, ready) refl)
