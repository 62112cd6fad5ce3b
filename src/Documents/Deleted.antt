-- ===== src/Documents/Deleted.antt =====
-- A document after its deletion, while its id is not created again.
use gitna.Prelude.{
  get-delete, ◌≡◌, ◌∙◌, sym, Bool, false, Option, none, List, [], ◌∷◌, Text, ℕ, arith, map_get,
  text_dec, ◌===◌, All,
}
use mathlib.Core.Path.{subst}
use gitna.Documents.{
  bind_path, set_save_error, acknowledge_save, begin_save, unknown_document, err, update_content,
  DocumentStore, SaveOptions, delete_document, get_document,
}
use gitna.Documents.Revisions.{
  Call, creates_untitled, creates_bound, updates, begins, acknowledges, fails, binds, deletes, step,
  run,
}
use gitna.Documents.Saving.{target, step-Untouched, unknown_id_throws}

-- The call creates a document under the id.
abbrev pub creates : Text → Call → Bool
creates id (creates_untitled j contents folder_key label) = j === id
creates id (creates_bound j path contents options) = j === id
creates id (updates j contents) = false
creates id (begins j) = false
creates id (acknowledges j revision contents options) = false
creates id (fails j) = false
creates id (binds j path label) = false
creates id (deletes j) = false

-- No document is under the id.
abbrev IsMissing : Text → DocumentStore → Type 0
IsMissing id s = map_get id s.documents ≡ none

delete-IsMissing : (s : DocumentStore) (id : Text) → IsMissing id (delete_document s id)
unfolding delete_document
delete-IsMissing s id = ground (arith, get-delete id id s.documents)

abbrev no_options : SaveOptions
no_options = record { path = none; baseline_hash = none; label = none }

-- A call that finds no document leaves the store as it is.
step_unknown :
    (s : DocumentStore) (call : Call)
    → creates (target call) call ≡ false
    → IsMissing (target call) s
    → IsMissing (target call) (step s call)
unfolding step
step_unknown s (creates_untitled j contents folder_key label) no_creation h = ground arith
step_unknown s (creates_bound j path contents options) no_creation h = ground arith
step_unknown s (updates j contents) no_creation h =
    cc (h, (unknown_id_throws s j contents [] 0 no_options none h).0)
step_unknown s (begins j) no_creation h =
    cc (h, (unknown_id_throws s j [] [] 0 no_options none h).1)
step_unknown s (acknowledges j revision contents options) no_creation h =
    cc (h, (unknown_id_throws s j contents [] revision options none h).2)
step_unknown s (fails j) no_creation h = cc (h, (unknown_id_throws s j [] [] 0 no_options none h).3)
step_unknown s (binds j path label) no_creation h =
    cc (h, (unknown_id_throws s j [] path 0 no_options label h).4)
step_unknown s (deletes j) no_creation h = delete-IsMissing s j

step-IsMissing :
    (s : DocumentStore) (call : Call) (id : Text)
    → creates id call ≡ false
    → IsMissing id s
    → IsMissing id (step s call)
step-IsMissing s call id no_creation h = elim (text_dec (target call) id) [
  | no other ↦ step-Untouched s call id other ∙ h
  | yes same ↦
      subst (λ j. IsMissing j (step s call)) same
        (step_unknown s call (subst (λ j. creates j call ≡ false) (sym same) no_creation)
          (subst (λ j. IsMissing j s) (sym same) h))
]

run-IsMissing :
    (s : DocumentStore) (calls : List Call) (id : Text)
    → All (λ call. creates id call ≡ false) calls
    → IsMissing id s
    → IsMissing id (run s calls)
unfolding run
run-IsMissing s [] id none_creates h = h
run-IsMissing s (call ∷ calls) id (no_creation, none_creates) h =
    run-IsMissing (step s call) calls id none_creates (step-IsMissing s call id no_creation h)

-- After a document was deleted, whatever calls follow, throwing or not, as long as none of them creates one
-- under its id: no document is got under the id, and each of the five methods that need one throws the
-- unknown-document error.
pub deleted_id_throws :
    (s : DocumentStore) (id contents path : Text) (revision : ℕ) (options : SaveOptions)
    (label : Option Text) (calls : List Call)
    → All (λ call. creates id call ≡ false) calls
    → let t = run (delete_document s id) calls in
      (get_document t id ≡ none)
      × (update_content t id contents ≡ err (unknown_document id))
      × (begin_save t id ≡ err (unknown_document id))
      × (acknowledge_save t id revision contents options ≡ err (unknown_document id))
      × (set_save_error t id ≡ err (unknown_document id))
      × (bind_path t id path label ≡ err (unknown_document id))
unfolding get_document
deleted_id_throws s id contents path revision options label calls none_creates =
    let t = run (delete_document s id) calls in
    let missing =
      run-IsMissing (delete_document s id) calls id none_creates (delete-IsMissing s id) in
    let throws = unknown_id_throws t id contents path revision options label missing in
    (ground (arith, missing), throws.0, throws.1, throws.2, throws.3, throws.4)
