-- ===== src/FileTrees/Discards.antt =====
-- web/src/diffshub/gitna/SourceControlWorkflow.tsx: discardConfirmationCopy, the words of the question
-- before changes are discarded.
use gitna.Prelude.{
  ℕ, ◌-◌, Bool, true, false, not, ◌&&◌, List, [], ◌∷◌, ◌++◌, Option, none, some, if◌then◌else◌,
  ◌==◌, ltb, length, keep, Text, codes, to_text,
}
use gitna.History.{ChangeKind, untracked}
use gitna.FileTrees.{TreeFile}

pub record DiscardConfirmationCopy : Type 0 where
  pub confirm_label : Text
  pub message : Text
  pub title : Text

unfoldable pub is_untracked : ChangeKind → Bool
is_untracked untracked = true
is_untracked _ = false

abbrev pub file_word : ℕ → Text
file_word n = if n == 1 then codes "file" else codes "files"

unfoldable pub restore_effect : ℕ → List Text
restore_effect tracked =
    if ltb 0 tracked
    then (codes "restore " ++ to_text tracked ++ codes " tracked " ++ file_word tracked) ∷ []
    else []

unfoldable pub delete_effect : ℕ → List Text
delete_effect untracked_count =
    if ltb 0 untracked_count
    then (codes "permanently delete "
        ++ to_text untracked_count
        ++ codes " untracked "
        ++ file_word untracked_count)
      ∷ []
    else []

-- `effects.join(' and ')`
unfoldable pub join_effects : List Text → Text
join_effects [] = []
join_effects (effect ∷ []) = effect
join_effects (effect ∷ next ∷ effects) = effect ++ codes " and " ++ join_effects (next ∷ effects)

unfoldable pub single_copy : Text → Bool → DiscardConfirmationCopy
single_copy name deletes =
    if deletes
    then record {
      title = codes "Delete untracked file " ++ name ++ codes "?";
      message = codes "This permanently deletes the file. This cannot be undone.";
      confirm_label = codes "Delete file";
    }
    else record {
      title = codes "Discard changes to " ++ name ++ codes "?";
      message = codes "The file will be restored to its staged version. This cannot be undone.";
      confirm_label = codes "Discard changes";
    }

unfoldable pub scope_of : Option Text → Text
scope_of none = codes "all changes"
scope_of (some name) = codes "changes in " ++ name

unfoldable pub group_copy : Option Text → ℕ → ℕ → DiscardConfirmationCopy
group_copy name count untracked_count = record {
  title = codes "Discard " ++ scope_of name ++ codes "?";
  message =
      codes "This will "
      ++ join_effects (restore_effect (count - untracked_count) ++ delete_effect untracked_count)
      ++ codes ". This cannot be undone.";
  confirm_label =
      if untracked_count == count then codes "Delete files" else codes "Discard changes";
}

unfoldable pub discard_confirmation_copy :
    Option Text → List TreeFile → Bool → DiscardConfirmationCopy
discard_confirmation_copy name changes is_group =
    let count = length changes in
    let untracked_count = length (keep (λ c. is_untracked c.kind) changes) in
    elim name [
      | none ↦ group_copy none count untracked_count
      | some given ↦
          if not is_group && count == 1
          then single_copy given (untracked_count == 1)
          else group_copy (some given) count untracked_count
    ]
