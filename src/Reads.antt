-- ===== src/Reads.antt =====
-- web/src/diffshub/gitna/repository.tsx, the reads of which only the latest counts: refreshFolders,
-- readBranches, readStashes, readTags and refreshConflicts. Each is cut at its `await`; the answers of the
-- server are arguments.
pub mod Latest
mod Examples
use gitna.Prelude.{
  ℕ, ◌+◌, Bool, true, false, ◌&&◌, Option, none, some, List, [], ◌∷◌, ◌==◌, if◌then◌else◌, Text,
  codes,
}
use gitna.History.{Answer, arrived, failed}

pub data ReadResult : Type 0 where
  has_succeeded has_failed is_obsolete : ReadResult

pub record ReconciliationOutcome : Type 0 where
  pub result : ReadResult
  pub failure : Option Text
  pub source : Option Text
  pub session_error : Bool
  pub authoritative : Bool

unfoldable pub reconciliation_outcome :
    ReadResult → Option Text → Option Text → Bool → Bool → ReconciliationOutcome
reconciliation_outcome result failure source session_error authoritative = record {
  result = result;
  failure = failure;
  source = source;
  session_error = session_error;
  authoritative = authoritative;
}

abbrev pub obsolete_outcome : ReconciliationOutcome
obsolete_outcome = reconciliation_outcome is_obsolete none none false true

abbrev pub succeeded_outcome : ReconciliationOutcome
succeeded_outcome = reconciliation_outcome has_succeeded none none false true

abbrev pub failed_outcome : Text → Text → ReconciliationOutcome
failed_outcome message source =
    reconciliation_outcome has_failed (some message) (some source) false true

-- What is read of the repository, with the number of its latest request.
pub record Resource (A : Type 0) : Type 0 where
  pub value : A
  pub loading : Bool
  pub error : Option Text
  pub request : ℕ
  pub repository_epoch : ℕ

pub record Token : Type 0 where
  pub request : ℕ
  pub epoch : ℕ

module _ {A : Type 0} where
  pub begin_read : Resource A → Resource A × Token
  begin_read r =
      let request = r.request + 1 in
      (
        record r { request = request; loading = true; error = none },
        record { request = request; epoch = r.repository_epoch },
      )

  pub is_latest : Resource A → Token → Bool
  is_latest r t = t.request == r.request && t.epoch == r.repository_epoch

  pub settle_read : Text → Resource A → Token → Answer A → Resource A × ReconciliationOutcome
  settle_read source r t (arrived value) =
      if is_latest r t
      then (record r { value = value; loading = false }, succeeded_outcome)
      else (r, obsolete_outcome)
  settle_read source r t (failed status message) =
      if is_latest r t
      then (record r { error = some message; loading = false }, failed_outcome message source)
      else (r, obsolete_outcome)

  pub settle_folders : Resource A → Token → Answer A → Resource A
  settle_folders r t answer = (settle_read (codes "folders") r t answer).0

  pub settle_stashes : Resource A → Token → Answer A → Resource A × ReconciliationOutcome
  settle_stashes = settle_read (codes "stashes")

  pub settle_tags : Resource A → Token → Answer A → Resource A × ReconciliationOutcome
  settle_tags = settle_read (codes "tags")

  -- The conflicts are asked of no epoch.
  pub settle_conflicts : Resource A → ℕ → Answer A → Resource A
  settle_conflicts r request (arrived value) =
      if request == r.request then record r { value = value; loading = false } else r
  settle_conflicts r request (failed status message) =
      if request == r.request then record r { error = some message; loading = false } else r

module _ {A B : Type 0} where
  -- The branches and the remotes are one resource: both answers are waited for.
  settle_pair : Resource (A × B) → Answer A → Answer B → Resource (A × B) × ReconciliationOutcome
  settle_pair r (failed status message) remotes = (
    record r { error = some message; loading = false },
    failed_outcome message (codes "branches"),
  )
  settle_pair r (arrived branches) (failed status message) =
      (record r { error = some message; loading = false }, failed_outcome message (codes "remotes"))
  settle_pair r (arrived branches) (arrived remotes) =
      (record r { value = (branches, remotes); loading = false }, succeeded_outcome)

  pub settle_branches :
      Resource (A × B) → Token → Answer A → Answer B → Resource (A × B) × ReconciliationOutcome
  settle_branches r t branches remotes =
      if is_latest r t then settle_pair r branches remotes else (r, obsolete_outcome)
