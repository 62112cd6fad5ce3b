-- ===== src/Documents/Revisions.antt =====
-- The calls of the document store as one type, and what holds of every store that they reach.
use gitna.Prelude.{
  inl, inr, Bool-cases, ltb, Option-cases, none, some, get-delete, ℕ, ◌≤◌, ◌≡◌, Option, some, List,
  [], ◌∷◌, arith, Text, map_get, get-set,
}
use gitna.Documents.{
  acknowledged, require_document, new_store, DocumentRecord, DocumentStore, Result, ok, err, ◌>>=◌,
  Outcome, BoundOptions, SaveOptions, clean, put, create_untitled, create_bound, edited,
  with_settled_state, update_content, begin_save, acknowledge_save, set_save_error, bind_path,
  delete_document, settled_state,
}

pub data Call : Type 0 where
  creates_untitled : Text → Text → Option Text → Option Text → Call
  creates_bound : Text → Text → Text → BoundOptions → Call
  updates : Text → Text → Call
  begins : Text → Call
  acknowledges : Text → ℕ → Text → SaveOptions → Call
  fails : Text → Call
  binds : Text → Text → Option Text → Call
  deletes : Text → Call

-- A call that throws has changed nothing.
abbrev pub store_after : DocumentStore → Result Outcome → DocumentStore
store_after s (ok o) = o.0
store_after s (err e) = s

unfoldable pub step : DocumentStore → Call → DocumentStore
step s (creates_untitled id contents folder_key label) =
    (create_untitled id contents folder_key label s).0
step s (creates_bound id path contents options) = (create_bound id path contents options s).0
step s (updates id contents) = store_after s (update_content s id contents)
step s (begins id) = store_after s (begin_save s id)
step s (acknowledges id revision contents options) =
    store_after s (acknowledge_save s id revision contents options)
step s (fails id) = store_after s (set_save_error s id)
step s (binds id path label) = store_after s (bind_path s id path label)
step s (deletes id) = delete_document s id

unfoldable pub run : DocumentStore → List Call → DocumentStore
run s [] = s
run s (c ∷ cs) = run (step s c) cs

-- What holds of a record that the map holds under `id`.
pub record IsSound (id : Text) (d : DocumentRecord) : Type 0 where
  pub keyed : d.id ≡ id
  pub saved_first : d.saved_revision ≤ d.revision
  pub clean_saved : d.save_state ≡ clean → d.contents ≡ d.saved_contents

pub record IsValid (s : DocumentStore) : Type 0 where
  pub at_id : (id : Text) (d : DocumentRecord) → map_get id s.documents ≡ some d → IsSound id d

put-IsValid :
    (s : DocumentStore) (id : Text) (d : DocumentRecord)
    → IsValid s
    → IsSound id d
    → IsValid (put s id d)
unfolding put
put-IsValid s id d v h = record {
  at_id = λ j e p. ground (arith, get-set id j d s.documents, v.at_id j e);
}

edited-IsSound :
    (id contents : Text) (d : DocumentRecord)
    → IsSound id d
    → IsSound id (with_settled_state (edited contents d))
unfolding edited with_settled_state settled_state
edited-IsSound id contents d h = ground arith

acknowledged-IsSound :
    (id : Text) (revision : ℕ) (contents : Text) (options : SaveOptions) (d : DocumentRecord)
    → revision ≤ d.revision
    → IsSound id d
    → IsSound id (acknowledged revision contents options d)
unfolding acknowledged settled_state
acknowledged-IsSound id revision contents options d b h = ground arith

-- A method first finds its record: without one the store stays as it is.
pub require_cases :
    (P : DocumentStore → Type 0) (s : DocumentStore) (id : Text)
    (f : DocumentRecord → Result Outcome)
    → P s
    → ((d : DocumentRecord) → map_get id s.documents ≡ some d → P (store_after s (f d)))
    → P (store_after s (require_document s id >>= f))
unfolding require_document
require_cases P s id f missing found = elim (Option-cases (map_get id s.documents)) [
  | inl e ↦ rw (e, require_document) missing
  | inr (d, e) ↦ rw (e, require_document) (found d e)
]

update_content-IsValid :
    (s : DocumentStore) (id contents : Text)
    → IsValid s
    → IsValid (store_after s (update_content s id contents))
unfolding update_content
update_content-IsValid s id contents v =
    require_cases IsValid s id _ v
      λ d e. put-IsValid s id _ v (edited-IsSound id contents d (v.at_id id d e))

acknowledge_save-IsValid :
    (s : DocumentStore) (id : Text) (revision : ℕ) (contents : Text) (options : SaveOptions)
    → IsValid s
    → IsValid (store_after s (acknowledge_save s id revision contents options))
unfolding acknowledge_save
acknowledge_save-IsValid s id revision contents options v = require_cases IsValid s id _ v (λ d e.
    elim (Bool-cases (ltb d.revision revision)) [
      | inl future ↦ rw future v
      | inr known ↦ rw known (
          put-IsValid s id _ v
            (acknowledged-IsSound id revision contents options d (ground arith) (v.at_id id d e)))
    ])

create_untitled-IsValid :
    (s : DocumentStore) (id contents : Text) (folder_key label : Option Text)
    → IsValid s
    → IsValid (create_untitled id contents folder_key label s).0
unfolding create_untitled
create_untitled-IsValid s id contents folder_key none v =
    put-IsValid _ id _ (record { at_id = v.at_id }) (ground arith)
create_untitled-IsValid s id contents folder_key (some label) v =
    put-IsValid s id _ v (ground arith)

-- Every call, throwing or not, keeps the records keyed by their own id, no saved revision ahead of
-- the current one, and a clean record equal to what was saved.
pub step-IsValid : (s : DocumentStore) (c : Call) → IsValid s → IsValid (step s c)
unfolding step create_bound begin_save set_save_error bind_path delete_document
step-IsValid s (creates_untitled id contents folder_key label) v =
    create_untitled-IsValid s id contents folder_key label v
step-IsValid s (creates_bound id path contents options) v = put-IsValid s id _ v (ground arith)
step-IsValid s (updates id contents) v = update_content-IsValid s id contents v
step-IsValid s (begins id) v =
    require_cases IsValid s id _ v λ d e. put-IsValid s id _ v (ground (arith, v.at_id id d e))
step-IsValid s (acknowledges id revision contents options) v =
    acknowledge_save-IsValid s id revision contents options v
step-IsValid s (fails id) v =
    require_cases IsValid s id _ v λ d e. put-IsValid s id _ v (ground (arith, v.at_id id d e))
step-IsValid s (binds id path label) v =
    require_cases IsValid s id _ v λ d e. put-IsValid s id _ v (ground (arith, v.at_id id d e))
step-IsValid s (deletes id) v = record {
  at_id = λ j d p. ground (arith, get-delete id j s.documents, v.at_id j d);
}

-- So it holds after any sequence of calls on a new store.
pub run-IsValid : (s : DocumentStore) (cs : List Call) → IsValid s → IsValid (run s cs)
unfolding run
run-IsValid s [] v = v
run-IsValid s (c ∷ cs) v = run-IsValid (step s c) cs (step-IsValid s c v)

pub new_store-IsValid : IsValid new_store
unfolding map_get
new_store-IsValid = record { at_id = λ id d p. cc }
