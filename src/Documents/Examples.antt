-- ===== src/Documents/Examples.antt =====
-- The theorems on documents at concrete stores.
use gitna.Prelude.{
  sym, map_set, values, ◌≡◌, ◌≢◌, refl, not, false, none, some, List, [], ◌∷◌, arith, Text, codes,
  map_get, ◌===◌, text_dec, if◌then◌else◌,
}
use gitna.Documents.{
  delete_document, DocumentStore, new_store, Outcome, SaveOptions, unknown_document, err, ok, clean,
  dirty, create_untitled, update_content, begin_save, acknowledge_save, set_save_error, bind_path,
  get_document, find_by_path,
}
use gitna.Documents.Revisions.{
  Call, creates_untitled, updates, begins, acknowledges, deletes, step, run, IsValid, run-IsValid,
  new_store-IsValid, store_after,
}
use gitna.Documents.Saving.{acknowledge-update, step-get_document}
use gitna.Documents.Deleted.{deleted_id_throws}
use gitna.Documents.Labels.{
  untitled_labels_differ, find_by_path_first, FirstAtPath, create_untitled-is_dirty,
}

abbrev id_a : Text
id_a = codes "a"

abbrev id_b : Text
id_b = codes "b"

abbrev no_options : SaveOptions
no_options = record { path = none; baseline_hash = none; label = none }

abbrev session : List Call
session =
    creates_untitled id_a [] none none
    ∷ updates id_a (codes "one")
    ∷ begins id_a
    ∷ updates id_a (codes "two")
    ∷ acknowledges id_a 1 (codes "one") no_options
    ∷ deletes id_b
    ∷ []

run-IsValid_example : IsValid (run new_store session)
run-IsValid_example = run-IsValid new_store session new_store-IsValid

abbrev one_document : DocumentStore
one_document = run new_store (creates_untitled id_a [] none none ∷ updates id_a (codes "one") ∷ [])

-- Calls after the deletion, of which one throws and one creates another document.
abbrev later_calls : List Call
later_calls = updates id_a [] ∷ creates_untitled id_b [] none none ∷ begins id_b ∷ []

deleted_id_throws_example :
    let t = run (delete_document one_document id_a) later_calls in
    (get_document t id_a ≡ none)
    × (update_content t id_a [] ≡ err (unknown_document id_a))
    × (begin_save t id_a ≡ err (unknown_document id_a))
    × (acknowledge_save t id_a 0 [] no_options ≡ err (unknown_document id_a))
    × (set_save_error t id_a ≡ err (unknown_document id_a))
    × (bind_path t id_a [] none ≡ err (unknown_document id_a))
unfolding text_dec
deleted_id_throws_example =
    deleted_id_throws one_document id_a [] [] 0 no_options none later_calls
      (refl, (refl, (refl, tt)))

acknowledge-update_example :
    let s' = store_after one_document (update_content one_document id_a (codes "two")) in
    (o : Outcome) × (acknowledge_save s' id_a 1 (codes "one") no_options ≡ ok o)
    × (get_document o.0 id_a ≡ some o.1)
    × (o.1.contents ≡ codes "two")
    × (o.1.saved_revision ≡ 1)
    × (o.1.is_dirty ≡ not (codes "two" === codes "one"))
    × (o.1.save_state ≡ (if codes "two" === codes "one" then clean else dirty))
unfolding run step create_untitled update_content map_get map_set text_dec
acknowledge-update_example =
    acknowledge-update one_document id_a (codes "two") (codes "one") 1 no_options _ refl
      (omega arith)

id_a-ne-id_b : id_a ≢ id_b
id_a-ne-id_b e = ground arith

step-get_document_example :
    get_document (step one_document (updates id_b [])) id_a ≡ get_document one_document id_a
step-get_document_example =
    step-get_document one_document (updates id_b []) id_a (λ e. id_a-ne-id_b (sym e))

untitled_labels_differ_example :
    let first = create_untitled id_a [] none none new_store in
    let second = create_untitled id_b [] none none (run first.0 session) in
    first.1.label ≢ second.1.label
untitled_labels_differ_example = untitled_labels_differ new_store id_a id_b [] [] none none session

find_by_path_first_example :
    FirstAtPath (codes "x") (values one_document.documents) (find_by_path one_document (codes "x"))
find_by_path_first_example = find_by_path_first one_document (codes "x")

create_untitled-is_dirty_example :
    let o = create_untitled id_a (codes "one") none none new_store in
    (o.1.save_state ≡ dirty) × (o.1.is_dirty ≡ false)
create_untitled-is_dirty_example =
    create_untitled-is_dirty new_store id_a (codes "one") none none (λ e. cc)
