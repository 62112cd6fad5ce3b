-- ===== src/Documents/Saving.antt =====
-- What saving, editing and failing calls do to one document, and what they leave of the others.
use gitna.Prelude.{
  ap, ◌∙◌, refl, get-set_ne, Bool-cases, get-set_self, get-delete_ne, ℕ, ◌+◌, ◌≤◌, ◌≡◌, ◌≢◌, not,
  Option, none, some, arith, Text, ◌===◌, map_get, if◌then◌else◌, ltb, inl, inr,
}
use gitna.Documents.{
  require_document, with_settled_state, put, DocumentRecord, DocumentStore, ok, err, SaveOptions,
  clean, dirty, unknown_document, update_content, begin_save, acknowledge_save, set_save_error,
  bind_path, create_untitled, create_bound, delete_document, get_document, snapshot, acknowledged,
  edited, settled_state, Outcome,
}
use gitna.Documents.Revisions.{
  require_cases, Call, creates_untitled, creates_bound, updates, begins, acknowledges, fails, binds,
  deletes, step, store_after,
}

-- The methods that need a document throw when there is none under the id.
pub unknown_id_throws :
    (s : DocumentStore) (id contents path : Text) (revision : ℕ) (options : SaveOptions)
    (label : Option Text)
    → map_get id s.documents ≡ none
    → (update_content s id contents ≡ err (unknown_document id))
      × (begin_save s id ≡ err (unknown_document id))
      × (acknowledge_save s id revision contents options ≡ err (unknown_document id))
      × (set_save_error s id ≡ err (unknown_document id))
      × (bind_path s id path label ≡ err (unknown_document id))
unfolding update_content begin_save acknowledge_save set_save_error bind_path
unknown_id_throws s id contents path revision options label h = ground arith

get_document-put :
    (s : DocumentStore) (id : Text) (d : DocumentRecord)
    → get_document (put s id d) id ≡ some (snapshot d)
unfolding get_document put
get_document-put s id d = rw (get-set_self id d s.documents, get_document)

map_get-put :
    (s : DocumentStore) (id : Text) (d : DocumentRecord)
    → map_get id (put s id d).documents ≡ some d
unfolding put
map_get-put s id d = get-set_self id d s.documents

update_content_found :
    (s : DocumentStore) (id c : Text) (d : DocumentRecord)
    → map_get id s.documents ≡ some d
    → let d' = with_settled_state (edited c d) in
      update_content s id c ≡ ok (put s id d', snapshot d')
unfolding update_content
update_content_found s id c d h = rw (h, require_document)

acknowledge_save_found :
    (s : DocumentStore) (id : Text) (r : ℕ) (c : Text) (options : SaveOptions) (d : DocumentRecord)
    → map_get id s.documents ≡ some d
    → r ≤ d.revision
    → let d' = acknowledged r c options d in
      acknowledge_save s id r c options ≡ ok (put s id d', snapshot d')
unfolding acknowledge_save
acknowledge_save_found s id r c options d h b = rw (h, require_document) (ground arith)

edited_fields :
    (c : Text) (d : DocumentRecord)
    → let d' = with_settled_state (edited c d) in (d'.contents ≡ c) × (d.revision ≤ d'.revision)
unfolding edited with_settled_state settled_state
edited_fields c d = ground arith

acknowledged_fields :
    (r : ℕ) (c : Text) (options : SaveOptions) (d : DocumentRecord)
    → let o = snapshot (acknowledged r c options d) in
      (o.contents ≡ d.contents)
      × (o.saved_revision ≡ r)
      × (o.is_dirty ≡ not (d.contents === c))
      × (o.save_state ≡ (if d.contents === c then clean else dirty))
unfolding acknowledged snapshot settled_state
acknowledged_fields r c options d = ground arith

-- The save of revision `r` with the contents `c`, acknowledged after the document `id` was edited to
-- `c'`: the call returns a snapshot that keeps `c'`, records `r` as saved, and is dirty exactly when
-- `c'` is not `c`; its save state says the same, and `get_document` then returns that snapshot.
pub acknowledge-update :
    (s : DocumentStore) (id c' c : Text) (r : ℕ) (options : SaveOptions) (d : DocumentRecord)
    → map_get id s.documents ≡ some d
    → r ≤ d.revision
    → let s' = store_after s (update_content s id c') in
      (o : Outcome) × (acknowledge_save s' id r c options ≡ ok o)
      × (get_document o.0 id ≡ some o.1)
      × (o.1.contents ≡ c')
      × (o.1.saved_revision ≡ r)
      × (o.1.is_dirty ≡ not (c' === c))
      × (o.1.save_state ≡ (if c' === c then clean else dirty))
acknowledge-update s id c' c r options d h b =
    let d' = with_settled_state (edited c' d) in
    let a = acknowledged r c options d' in
    let e = edited_fields c' d in
    let f = acknowledged_fields r c options d' in
    rw (update_content_found s id c' d h) (
      (put (put s id d') id a, snapshot a),
      acknowledge_save_found (put s id d') id r c options d' (map_get-put s id d') (omega arith),
      get_document-put (put s id d') id a,
      f.0 ∙ e.0,
      f.1,
      f.2 ∙ ap (λ t. not (t === c)) e.0,
      f.3 ∙ ap (λ t. if t === c then clean else dirty) e.0,
    )

-- The document that a call is about.
abbrev pub target : Call → Text
target (creates_untitled id contents folder_key label) = id
target (creates_bound id path contents options) = id
target (updates id contents) = id
target (begins id) = id
target (acknowledges id revision contents options) = id
target (fails id) = id
target (binds id path label) = id
target (deletes id) = id

abbrev Untouched : Text → DocumentStore → DocumentStore → Type 0
Untouched j s t = map_get j t.documents ≡ map_get j s.documents

put-Untouched :
    (j id : Text) (s : DocumentStore) (d : DocumentRecord) → id ≢ j → Untouched j s (put s id d)
unfolding put
put-Untouched j id s d h = get-set_ne id j d s.documents h

delete-Untouched : (j id : Text) (s : DocumentStore) → id ≢ j → Untouched j s (delete_document s id)
unfolding delete_document
delete-Untouched j id s h = get-delete_ne id j s.documents h

acknowledge_save-Untouched :
    (j id : Text) (s : DocumentStore) (r : ℕ) (c : Text) (options : SaveOptions)
    → id ≢ j
    → Untouched j s (store_after s (acknowledge_save s id r c options))
unfolding acknowledge_save
acknowledge_save-Untouched j id s r c options h = require_cases (Untouched j s) s id _ refl λ d e.
    elim (Bool-cases (ltb d.revision r)) [
      | inl future ↦ rw future
      | inr known ↦ rw known (put-Untouched j id s (acknowledged r c options d) h)
    ]

pub step-Untouched :
    (s : DocumentStore) (call : Call) (j : Text) → target call ≢ j → Untouched j s (step s call)
unfolding step create_untitled create_bound update_content begin_save set_save_error bind_path
step-Untouched s (creates_untitled id contents folder_key none) j h =
    put-Untouched j id (record s { next_untitled = s.next_untitled + 1 }) _ h
step-Untouched s (creates_untitled id contents folder_key (some label)) j h =
    put-Untouched j id s _ h
step-Untouched s (creates_bound id path contents options) j h = put-Untouched j id s _ h
step-Untouched s (updates id contents) j h =
    require_cases (Untouched j s) s id _ refl (λ d e. put-Untouched j id s _ h)
step-Untouched s (begins id) j h =
    require_cases (Untouched j s) s id _ refl (λ d e. put-Untouched j id s _ h)
step-Untouched s (acknowledges id r c options) j h = acknowledge_save-Untouched j id s r c options h
step-Untouched s (fails id) j h =
    require_cases (Untouched j s) s id _ refl (λ d e. put-Untouched j id s _ h)
step-Untouched s (binds id path label) j h =
    require_cases (Untouched j s) s id _ refl (λ d e. put-Untouched j id s _ h)
step-Untouched s (deletes id) j h = delete-Untouched j id s h

-- A call about one document, throwing or not, leaves every other document as it was.
pub step-get_document :
    (s : DocumentStore) (call : Call) (j : Text)
    → target call ≢ j
    → get_document (step s call) j ≡ get_document s j
unfolding get_document
step-get_document s call j h = rw (step-Untouched s call j h, get_document)
