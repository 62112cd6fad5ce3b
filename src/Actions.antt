-- ===== src/Actions.antt =====
-- web/src/diffshub/gitna/repository.tsx, the guard of the actions and what an action does to the session:
-- getActionDisabledReason, mutate, operation, runWorktreeOperation; and reconcileSelection.
-- The refreshes that end an action are in the modules of what they read.
pub mod Guards
pub mod Overlap
pub mod Choices
mod Examples
use gitna.Prelude.{
  is_before, Bool, true, false, not, ◌&&◌, Option, none, some, List, [], ◌∷◌, ◌++◌, find_first,
  get_last?, if◌then◌else◌, Text, ◌===◌, codes, leb, JsMap, map_get, ◌==◌, ℕ,
}
use gitna.Tabs.{
  ConnectionState, connecting, connected, reconnecting, reconciling, unreachable, session_error,
  ChangeScope, staged, unstaged, FileChange, Selection,
}

-- How sure it is that the files of the repository are the same as before.
pub data FileMembershipRefresh : Type 0 where
  unknown unchanged changed : FileMembershipRefresh

pub stronger_file_membership_refresh :
    FileMembershipRefresh → FileMembershipRefresh → FileMembershipRefresh
stronger_file_membership_refresh changed next = changed
stronger_file_membership_refresh unchanged changed = changed
stronger_file_membership_refresh unchanged unknown = unchanged
stronger_file_membership_refresh unchanged unchanged = unchanged
stronger_file_membership_refresh unknown next = next

-- `changes.find(test) ?? changes.at(-1)`
nearest_of : Option FileChange → Option FileChange → Option FileChange
nearest_of none last = last
nearest_of (some change) last = some change

select_change : Option FileChange → Option Selection
select_change none = none
select_change (some change) = some (record { scope = change.scope; change = change })

changes_of : ChangeScope → List FileChange → List FileChange → List FileChange
changes_of staged staged_ones unstaged_ones = staged_ones
changes_of unstaged staged_ones unstaged_ones = unstaged_ones

reselect : Selection → Option FileChange → List FileChange → Option Selection
reselect s (some change) ordered = some (record { scope = s.scope; change = change })
reselect s none ordered = select_change (
    nearest_of (find_first (λ c. not (is_before c.path s.change.path)) ordered) (get_last? ordered))

pub reconcile_selection : Option Selection → List FileChange → List FileChange → Option Selection
reconcile_selection none staged_ones unstaged_ones = none
reconcile_selection (some s) staged_ones unstaged_ones =
    reselect s
      (find_first (λ c. c.path === s.change.path) (changes_of s.scope staged_ones unstaged_ones))
      (staged_ones ++ unstaged_ones)

pub record Session : Type 0 where
  pub disposed : Bool
  pub busy : Bool
  pub active_op : Option Text
  pub connection_state : ConnectionState
  pub connection_error : Option Text
  pub mutation_error : Option Text
  pub uncertain_mutation : Option Text

pub data ActionPolicy : Type 0 where
  backend open_folder : ActionPolicy

op_labels : JsMap Text
op_labels =
    (codes "stage", codes "Staging")
    ∷ (codes "unstage", codes "Unstaging")
    ∷ (codes "discard", codes "Discarding")
    ∷ (codes "delete", codes "Deleting")
    ∷ (codes "patch", codes "Applying patch")
    ∷ (codes "commit", codes "Committing")
    ∷ (codes "create-branch", codes "Creating branch")
    ∷ (codes "switch-branch", codes "Switching branch")
    ∷ (codes "open-folder", codes "Opening folder")
    ∷ (codes "save-file", codes "Saving file")
    ∷ (codes "create-entry", codes "Creating entry")
    ∷ (codes "rename-entry", codes "Renaming entry")
    ∷ (codes "delete-branch", codes "Deleting branch")
    ∷ (codes "fetch", codes "Fetching")
    ∷ (codes "pull", codes "Pulling")
    ∷ (codes "push", codes "Pushing")
    ∷ (codes "push-upstream", codes "Publishing")
    ∷ (codes "stash-push", codes "Stashing")
    ∷ (codes "stash-apply", codes "Applying stash")
    ∷ (codes "stash-pop", codes "Popping stash")
    ∷ (codes "stash-drop", codes "Dropping stash")
    ∷ (codes "create-tag", codes "Creating tag")
    ∷ (codes "delete-tag", codes "Deleting tag")
    ∷ (codes "push-tag", codes "Pushing tag")
    ∷ (codes "cherry-pick", codes "Cherry-picking")
    ∷ (codes "cherry-pick-abort", codes "Aborting cherry-pick")
    ∷ (codes "cherry-pick-continue", codes "Continuing cherry-pick")
    ∷ (codes "revert", codes "Reverting")
    ∷ (codes "revert-abort", codes "Aborting revert")
    ∷ (codes "revert-continue", codes "Continuing revert")
    ∷ (codes "reset", codes "Resetting")
    ∷ (codes "merge", codes "Merging")
    ∷ (codes "merge-abort", codes "Aborting merge")
    ∷ (codes "merge-continue", codes "Continuing merge")
    ∷ (codes "rebase", codes "Rebasing")
    ∷ (codes "rebase-abort", codes "Aborting rebase")
    ∷ (codes "rebase-continue", codes "Continuing rebase")
    ∷ (codes "resolve-ours", codes "Resolving conflict")
    ∷ (codes "resolve-theirs", codes "Resolving conflict")
    ∷ (codes "resolve-both", codes "Resolving conflict")
    ∷ []

label_of : Text → Option Text → Text
label_of op none = op
label_of op (some label) = label

pub active_op_label : Option Text → Option Text
active_op_label none = none
active_op_label (some op) = some (label_of op (map_get op op_labels))

pub busy_reason : Option Text → Text
busy_reason none = codes "Another operation is in progress. Wait for it to finish."
busy_reason (some label) =
    codes "Another operation is in progress (" ++ label ++ codes "). Wait for it to finish."

-- `${error == null ? '' : ` ${error}${tail}`}`
with_error : Option Text → Text → Text
with_error none tail = []
with_error (some error) tail = b' ' ∷ error ++ tail

connection_reason : ConnectionState → Option Text → Option Text
connection_reason connected error = none
connection_reason connecting error =
    some (codes "Connecting to backend. Wait for connection and refresh to complete.")
connection_reason reconnecting error =
    some (codes "Backend connection interrupted. Wait for reconnection or refresh to retry.")
connection_reason reconciling error = some (
    codes "Refreshing backend state. Wait for refresh to complete."
    ++ with_error error (codes " Refresh to retry."))
connection_reason unreachable error =
    some (codes "Backend unreachable. Retry the connection or reopen Gitna.")
connection_reason session_error error =
    some (codes "Backend session error. Reopen Gitna using its current URL." ++ with_error error [])

is_open_folder : ActionPolicy → Bool
is_open_folder backend = false
is_open_folder open_folder = true

pub get_action_disabled_reason : Session → ActionPolicy → Option Text
get_action_disabled_reason s policy =
    if s.disposed
    then some (codes "This repository view is closed. Reopen Gitna to continue.")
    else if s.busy
    then some (busy_reason (active_op_label s.active_op))
    else if is_open_folder policy
    then none
    else connection_reason s.connection_state s.connection_error

-- An action up to its `await`: refused with a reason, or begun.
pub data Begun : Type 0 where
  refused : Session → Begun
  begun : Session → Begun

begin_unless : Option Text → Session → Text → Begun
begin_unless (some reason) s op = refused (record s { mutation_error = some reason })
begin_unless none s op = begun (record s { busy = true; active_op = some op })

pub begin_action : Session → Text → Begun
begin_action s op = begin_unless (get_action_disabled_reason s backend) s op

-- How the request of an action ends: done, an error that the server gave, or an error of which it is not
-- known whether the server did the work.
pub data Outcome : Type 0 where
  done : Outcome
  api_error : Text → Outcome
  unknown_error : Text → Outcome

uncertain_text : Text → Text
uncertain_text label =
    label
    ++ codes " outcome is unknown. Gitna could not confirm whether the backend completed it. "
    ++ codes "Inspect the repository before repeating the action."

shown_label : Text → Option Text → Text
shown_label op none = op
shown_label op (some label) = label

pub settle_action : Session → Text → Outcome → Session
settle_action s op done = record s { mutation_error = none }
settle_action s op (api_error message) = record s { mutation_error = some message }
settle_action s op (unknown_error message) = record s {
  mutation_error = some message;
  uncertain_mutation = some (uncertain_text (shown_label op (active_op_label s.active_op)));
}

-- The end of the `finally`, after the refreshes.
pub finish_action : Session → Session
finish_action s = record s { busy = false; active_op = none }

pub acknowledge_uncertain_mutation : Session → Session
acknowledge_uncertain_mutation s = record s { uncertain_mutation = none }

dismiss_from : Session → Text → Option Text → Session
dismiss_from s error none = s
dismiss_from s error (some shown) =
    if shown === error then record s { mutation_error = none } else s

pub dismiss_mutation_error : Session → Text → Session
dismiss_mutation_error s error = dismiss_from s error s.mutation_error
