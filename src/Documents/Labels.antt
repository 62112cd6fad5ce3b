-- ===== src/Documents/Labels.antt =====
-- Untitled labels, and the look-up of a document by its path.
use gitna.Prelude.{
  All, FindsFirst, find_first-FindsFirst, ℕ, ◌+◌, ◌≤◌, ◌≡◌, ◌≢◌, refl, Option, none, some, List, [],
  ◌∷◌, ◌++◌, arith, Text, codes, to_text-injective, append_left_cancel, true, false, values,
}
use gitna.Documents.{
  DocumentSnapshot, dirty, delete_document, acknowledge_save, bind_path, set_save_error, begin_save,
  update_content, DocumentRecord, DocumentStore, create_untitled, create_bound, find_by_path,
  snapshot, has_path,
}
use gitna.Documents.Revisions.{Call, creates_untitled, step, run}

-- The counter of `s` has not passed that of `t`.
abbrev Counts : ℕ → DocumentStore → Type 0
Counts n t = n ≤ t.next_untitled

step-Counts : (n : ℕ) (s : DocumentStore) (c : Call) → Counts n s → Counts n (step s c)
unfolding step create_untitled create_bound update_content begin_save set_save_error bind_path
    acknowledge_save delete_document
step-Counts n s (creates_untitled id contents folder_key none) h = omega arith
step-Counts n s _ h = ground arith

run-Counts : (n : ℕ) (s : DocumentStore) (cs : List Call) → Counts n s → Counts n (run s cs)
unfolding run
run-Counts n s [] h = h
run-Counts n s (c ∷ cs) h = run-Counts n (step s c) cs (step-Counts n s c h)

-- Two documents created without a label have different labels, whatever calls come between.
pub untitled_labels_differ :
    (s : DocumentStore) (id id' contents contents' : Text) (key key' : Option Text) (cs : List Call)
    → let first = create_untitled id contents key none s in
      let second = create_untitled id' contents' key' none (run first.0 cs) in
      first.1.label ≢ second.1.label
unfolding create_untitled
untitled_labels_differ s id id' contents contents' key key' cs e =
    let later =
      run-Counts (s.next_untitled + 1) (create_untitled id contents key none s).0 cs
        (omega arith) in
    let same = to_text-injective _ _ (append_left_cancel (codes "Untitled-") _ _ e) in
    absurd (omega (arith, later, same))

-- `find_by_path` on a list of records.
abbrev pub FirstAtPath : Text → List DocumentRecord → Option DocumentSnapshot → Type 0
FirstAtPath path ds none = All (λ d. d.path ≢ some path) ds
FirstAtPath path ds (some o) =
    (before : List DocumentRecord) × (d : DocumentRecord) × (after : List DocumentRecord) × (ds
      ≡ before ++ d ∷ after)
    × (o ≡ snapshot d)
    × (d.path ≡ some path)
    × All (λ e. e.path ≢ some path) before

has_path-eq : (path : Text) (d : DocumentRecord) → has_path path d ≡ true → d.path ≡ some path
unfolding has_path
has_path-eq path d h = ground arith

has_path-ne : (path : Text) (d : DocumentRecord) → has_path path d ≡ false → d.path ≢ some path
unfolding has_path
has_path-ne path d h e = ground arith

All-has_path :
    (path : Text) (ds : List DocumentRecord)
    → All (λ d. has_path path d ≡ false) ds
    → All (λ d. d.path ≢ some path) ds
All-has_path path [] h = tt
All-has_path path (d ∷ ds) h = (has_path-ne path d h.0, All-has_path path ds h.1)

snapshot_first :
    (path : Text) (ds : List DocumentRecord) (o : Option DocumentRecord)
    → FindsFirst (has_path path) ds o
    → FirstAtPath path ds (elim o [ none ↦ none | some d ↦ some (snapshot d) ])
snapshot_first path ds none h = All-has_path path ds h
snapshot_first path ds (some d) h =
    (h.0, d, h.1, h.2, refl, has_path-eq path d h.3, All-has_path path h.0 h.4)

-- `find_by_path` returns the snapshot of the first document, in the order of creation, that has the
-- path, and nothing exactly when no document has it.
pub find_by_path_first :
    (s : DocumentStore) (path : Text) → FirstAtPath path (values s.documents) (find_by_path s path)
unfolding find_by_path
find_by_path_first s path =
    snapshot_first path (values s.documents) _
      (find_first-FindsFirst (has_path path) (values s.documents))

-- A document created with contents and without a path is marked as dirty, while its snapshot's own
-- comparison of the contents with the saved ones says that it is not.
pub create_untitled-is_dirty :
    (s : DocumentStore) (id contents : Text) (folder_key label : Option Text)
    → contents ≢ []
    → let o = create_untitled id contents folder_key label s in
      (o.1.save_state ≡ dirty) × (o.1.is_dirty ≡ false)
unfolding create_untitled
create_untitled-is_dirty s id contents folder_key none h = ground arith
create_untitled-is_dirty s id contents folder_key (some label) h = ground arith
