-- ===== src/Documents.antt =====
-- web/src/diffshub/gitna/documents.ts: the open documents with their revisions and save states.
-- The random identifier that `documentId` draws is an argument of the two operations that create.
pub mod Revisions
pub mod Saving
pub mod Deleted
pub mod Labels
mod Examples
use gitna.Prelude.{
  ℕ, suc, ◌+◌, Bool, true, false, not, Option, none, some, List, [], ◌∷◌, ◌++◌, map, ltb,
  if◌then◌else◌, coalesce_or, find_first, Text, codes, ◌===◌, last_segment, to_text, JsMap, map_get,
  map_set, map_delete, values,
}

pub data DocumentSaveState : Type 0 where
  clean dirty saving error : DocumentSaveState

pub record DocumentRecord : Type 0 where
  pub id : Text
  pub folder_key : Option Text
  pub path : Option Text
  pub label : Text
  pub contents : Text
  pub revision : ℕ
  pub saved_revision : ℕ
  pub saved_contents : Text
  pub baseline_hash : Option Text
  pub save_state : DocumentSaveState

pub record DocumentSnapshot : Type 0 where
  pub id : Text
  pub folder_key : Option Text
  pub path : Option Text
  pub label : Text
  pub contents : Text
  pub revision : ℕ
  pub saved_revision : ℕ
  pub baseline_hash : Option Text
  pub is_dirty : Bool
  pub save_state : DocumentSaveState

unfoldable pub snapshot : DocumentRecord → DocumentSnapshot
snapshot d = record {
  id = d.id;
  folder_key = d.folder_key;
  path = d.path;
  label = d.label;
  contents = d.contents;
  revision = d.revision;
  saved_revision = d.saved_revision;
  baseline_hash = d.baseline_hash;
  is_dirty = not (d.contents === d.saved_contents);
  save_state = d.save_state;
}

pub record DocumentStore : Type 0 where
  pub documents : JsMap DocumentRecord
  pub next_untitled : ℕ

abbrev pub new_store : DocumentStore
new_store = record { documents = []; next_untitled = 1 }

-- The errors that the methods throw.
pub data DocumentError : Type 0 where
  unknown_document : Text → DocumentError
  future_revision : ℕ → DocumentError

pub data Result {ℓ} (A : Type ℓ) : Type ℓ where
  ok : A → Result A
  err : DocumentError → Result A

infixl 5 ◌>>=◌
abbrev pub ◌>>=◌ {ℓ κ} : {A : Type ℓ} {B : Type κ} → Result A → (A → Result B) → Result B
ok a >>= f = f a
err e >>= f = err e

-- What a method that succeeds leaves: the store, and the snapshot that it returns.
abbrev pub Outcome : Type 0
Outcome = DocumentStore × DocumentSnapshot

next_untitled_label : DocumentStore → Text × DocumentStore
next_untitled_label s =
    (codes "Untitled-" ++ to_text s.next_untitled, record s { next_untitled = s.next_untitled + 1 })

choose_label : Option Text → DocumentStore → Text × DocumentStore
choose_label none s = next_untitled_label s
choose_label (some label) s = (label, s)

put : DocumentStore → Text → DocumentRecord → DocumentStore
put s id d = record s { documents = map_set id d s.documents }

abbrev untitled_document : Text → Text → Option Text → Text → DocumentRecord
untitled_document id contents folder_key label = record {
  id = id;
  folder_key = folder_key;
  path = none;
  label = label;
  contents = contents;
  revision = 0;
  saved_revision = 0;
  saved_contents = contents;
  baseline_hash = none;
  save_state = if contents === [] then clean else dirty;
}

unfoldable pub create_untitled : Text → Text → Option Text → Option Text → DocumentStore → Outcome
unfolding next_untitled_label choose_label put snapshot
create_untitled id contents folder_key label s =
    let (document_label, s') = choose_label label s in
    let document = untitled_document id contents folder_key document_label in
    (put s' id document, snapshot document)

pub record BoundOptions : Type 0 where
  pub folder_key : Option Text
  pub baseline_hash : Option Text
  pub label : Option Text

abbrev base_name : Text → Text
base_name path = last_segment b'/' path

abbrev bound_document : Text → Text → Text → BoundOptions → DocumentRecord
bound_document id path contents options = record {
  id = id;
  folder_key = options.folder_key;
  path = some path;
  label = coalesce_or options.label (base_name path);
  contents = contents;
  revision = 0;
  saved_revision = 0;
  saved_contents = contents;
  baseline_hash = options.baseline_hash;
  save_state = clean;
}

unfoldable pub create_bound : Text → Text → Text → BoundOptions → DocumentStore → Outcome
unfolding put snapshot
create_bound id path contents options s =
    let document = bound_document id path contents options in (put s id document, snapshot document)

-- `get`
unfoldable pub get_document : DocumentStore → Text → Option DocumentSnapshot
unfolding snapshot
get_document s id = elim (map_get id s.documents) [ none ↦ none | some d ↦ some (snapshot d) ]

-- `list`
unfoldable pub list_documents : DocumentStore → List DocumentSnapshot
unfolding snapshot
list_documents s = map snapshot (values s.documents)

has_path : Text → DocumentRecord → Bool
has_path path d = elim d.path [ none ↦ false | some p ↦ p === path ]

unfoldable pub find_by_path : DocumentStore → Text → Option DocumentSnapshot
unfolding has_path snapshot
find_by_path s path = elim (find_first (has_path path) (values s.documents)) [
  | none ↦ none
  | some d ↦ some (snapshot d)
]

unfoldable pub require_document : DocumentStore → Text → Result DocumentRecord
require_document s id = elim (map_get id s.documents) [
  | none ↦ err (unknown_document id)
  | some d ↦ ok d
]

-- The methods below mutate the record that the map holds: the record is put back under its key.
replaced : DocumentStore → Text → DocumentRecord → Result Outcome
unfolding put snapshot
replaced s id d = ok (put s id d, snapshot d)

settled_state : Text → Text → DocumentSaveState
settled_state contents saved_contents = if contents === saved_contents then clean else dirty

edited : Text → DocumentRecord → DocumentRecord
edited contents d =
    if contents === d.contents
    then d
    else record d { contents = contents; revision = d.revision + 1 }

with_settled_state : DocumentRecord → DocumentRecord
unfolding settled_state
with_settled_state d = record d { save_state = settled_state d.contents d.saved_contents }

unfoldable pub update_content : DocumentStore → Text → Text → Result Outcome
unfolding replaced edited with_settled_state require_document
update_content s id contents = do
  document ← require_document s id
  replaced s id (with_settled_state (edited contents document))

unfoldable pub begin_save : DocumentStore → Text → Result Outcome
unfolding replaced require_document
begin_save s id = do
  document ← require_document s id
  replaced s id (record document { save_state = saving })

pub record SaveOptions : Type 0 where
  pub path : Option Text
  pub baseline_hash : Option Text
  pub label : Option Text

relabelled : SaveOptions → DocumentRecord → DocumentRecord
relabelled options d = elim options.path [
  | some p ↦ record d { path = some p; label = coalesce_or options.label (base_name p) }
  | none ↦ elim options.label [ some l ↦ record d { label = l } | none ↦ d ]
]

rebased : SaveOptions → DocumentRecord → DocumentRecord
rebased options d = elim options.baseline_hash [
  | some h ↦ record d { baseline_hash = some h }
  | none ↦ d
]

acknowledged : ℕ → Text → SaveOptions → DocumentRecord → DocumentRecord
unfolding relabelled rebased with_settled_state
acknowledged revision contents options d = with_settled_state (
    rebased options
      (relabelled options (record d { saved_contents = contents; saved_revision = revision })))

unfoldable pub acknowledge_save : DocumentStore → Text → ℕ → Text → SaveOptions → Result Outcome
unfolding replaced acknowledged require_document
acknowledge_save s id revision contents options = do
  document ← require_document s id
  if ltb document.revision revision
      then err (future_revision revision)
      else replaced s id (acknowledged revision contents options document)

unfoldable pub set_save_error : DocumentStore → Text → Result Outcome
unfolding replaced require_document
set_save_error s id = do
  document ← require_document s id
  replaced s id (record document { save_state = error })

unfoldable pub bind_path : DocumentStore → Text → Text → Option Text → Result Outcome
unfolding replaced require_document
bind_path s id path label = do
  document ← require_document s id
  replaced s id (record document { path = some path; label = coalesce_or label (base_name path) })

unfoldable pub delete_document : DocumentStore → Text → DocumentStore
delete_document s id = record s { documents = map_delete id s.documents }
