-- ===== src/Accumulator/Entries.antt =====
-- Appending an entry keeps every item registered: each step of it, and a whole patch.
use gitna.Prelude.{
  codes, ℕ, ◌≡◌, ◌≢◌, refl, ap, ◌∙◌, Bool, false, Option, none, some, List, [], ◌∷◌, ◌++◌, arith,
  if◌then◌else◌, length, Text, ◌===◌, map_get, map_has, Bool-cases, inl, inr,
}
use gitna.Accumulator.{
  new, semantic_suffix, is_deleted, map_change_type_to_git_status, Accumulator, new_accumulator,
  PathState, FileDiff, ChangeTypes, create_unique_item_id, choose_item_id, create_fallback_item_id,
  create_superseded_item_id, rename_current_path_item, supersede, push_item, record_path,
  append_file_diff, append_all, previous_state, update_git_status_by_path, drop_git_status,
  change_git_status, record_git_status_remove, record_git_status_set, put_git_status, tree_path_of,
  count_file,
}
use gitna.Accumulator.Ids.{create_unique_item_id_free}
use gitna.Accumulator.Items.{
  id_at, order_at, IsRegistered, rename-IsRegistered, push-IsRegistered, state-IsRegistered,
  id_at-push, id_at_within,
}

abbrev pub IsValid : Accumulator → Type 0
IsValid a = IsRegistered a.item_id_to_file a.items a.path_state_by_tree_path

create_unique_item_id-IsValid :
    (a : Accumulator) (base : Text) → IsValid a → IsValid (create_unique_item_id a base).1
unfolding create_unique_item_id
create_unique_item_id-IsValid a base h = elim (Bool-cases (map_has base a.item_id_to_file)) [
  | inl taken ↦ rw (taken, create_unique_item_id) h
  | inr open_id ↦ rw (open_id, create_unique_item_id) h
]

create_unique_keeps :
    (a : Accumulator) (base : Text)
    → let b = (create_unique_item_id a base).1 in
      (b.item_id_to_file ≡ a.item_id_to_file)
      × (b.items ≡ a.items)
      × (b.path_state_by_tree_path ≡ a.path_state_by_tree_path)
unfolding create_unique_item_id
create_unique_keeps a base = ground arith

rename_current-IsValid :
    (a : Accumulator) (tree_path : Text) (st : PathState)
    → IsValid a
    → map_get tree_path a.path_state_by_tree_path ≡ some st
    → IsValid (rename_current_path_item a tree_path st).1
unfolding rename_current_path_item create_superseded_item_id
rename_current-IsValid a tree_path st h s =
    let base = tree_path ++ semantic_suffix st.current_type in
    let b = (create_unique_item_id a base).1 in
    let k = create_unique_keeps a base in
    rename-IsRegistered b.item_id_to_file b.items b.path_state_by_tree_path tree_path
      (create_unique_item_id a base).0 st (create_unique_item_id-IsValid a base h)
      (ap (map_get tree_path) k.2 ∙ s)
      (ap (map_has (create_unique_item_id a base).0) k.0 ∙ create_unique_item_id_free a base)

supersede-IsValid :
    (a : Accumulator) (tree_path : Text) (previous : Option PathState)
    → IsValid a
    → ((st : PathState)
        → previous ≡ some st
        → map_get tree_path a.path_state_by_tree_path ≡ some st)
    → IsValid (supersede a tree_path previous).1
unfolding supersede
supersede-IsValid a tree_path none h s = h
supersede-IsValid a tree_path (some st) h s = rename_current-IsValid a tree_path st h (s st refl)

choose_item_id-IsValid :
    (a : Accumulator) (tree_path : Text)
    → IsValid a
    → let (id, c) = choose_item_id a tree_path in IsValid c × (map_has id c.item_id_to_file ≡ false)
unfolding choose_item_id create_fallback_item_id
choose_item_id-IsValid a tree_path h = elim (Bool-cases (map_has tree_path a.item_id_to_file)) [
  | inl taken ↦
      let base = tree_path ++ codes "?2" in
      rw (taken, choose_item_id)
        (
          create_unique_item_id-IsValid a base h,
          ap (map_has (create_unique_item_id a base).0) (create_unique_keeps a base).0
              ∙ create_unique_item_id_free a base,
        )
  | inr open_id ↦ rw (open_id, choose_item_id) (h, open_id)
]

push_item-IsValid :
    (a : Accumulator) (id : Text) (d : FileDiff)
    → IsValid a
    → map_has id a.item_id_to_file ≡ false
    → IsValid (push_item a id d)
unfolding push_item
push_item-IsValid a id d h fresh =
    push-IsRegistered a.item_id_to_file a.items a.path_state_by_tree_path _ _ h fresh refl

update_git_status_keeps :
    (a : Accumulator) (p : Text) (t : ChangeTypes) (had : Bool)
    → let b = update_git_status_by_path a p t had in
      (b.item_id_to_file ≡ a.item_id_to_file)
      × (b.items ≡ a.items)
      × (b.path_state_by_tree_path ≡ a.path_state_by_tree_path)
unfolding update_git_status_by_path drop_git_status change_git_status put_git_status
    record_git_status_set record_git_status_remove map_change_type_to_git_status is_deleted
update_git_status_keeps a p new had = ground arith
update_git_status_keeps a p _ had = ground arith

record_path-IsValid :
    (a : Accumulator) (p : Text) (item : ℕ) (id : Text) (d : FileDiff) (previous : Option PathState)
    → IsValid a
    → id_at a.items item ≡ some id
    → ((q : Text) (su : PathState)
        → map_get q a.path_state_by_tree_path ≡ some su
        → su.current_item ≢ item)
    → IsValid (record_path a p item id d previous)
unfolding record_path
record_path-IsValid a p item id d previous h e fresh_place =
    rw
      (
        (update_git_status_keeps _ p d.change_type _).0,
        (update_git_status_keeps _ p d.change_type _).1,
        (update_git_status_keeps _ p d.change_type _).2,
      )
      (state-IsRegistered a.item_id_to_file a.items a.path_state_by_tree_path p _ h e fresh_place)

previous_state_found :
    (a : Accumulator) (path tree_path : Text) (st : PathState)
    → previous_state a path tree_path ≡ some st
    → map_get tree_path a.path_state_by_tree_path ≡ some st
unfolding previous_state
previous_state_found a path tree_path st e = ground arith

id_at-push_item :
    (a : Accumulator) (id : Text) (d : FileDiff)
    → id_at (push_item a id d).items (length a.items) ≡ some id
unfolding push_item
id_at-push_item a id d =
    ground
      (arith, id_at-push (length a.items) (record { id = id; file_diff = d; version = 0 }) a.items)

push_item_place :
    (a : Accumulator) (id : Text) (d : FileDiff) (q : Text) (su : PathState)
    → IsValid a
    → map_get q (push_item a id d).path_state_by_tree_path ≡ some su
    → su.current_item ≢ length a.items
unfolding push_item
push_item_place a id d q su h e p =
    absurd
      (omega (arith, id_at_within a.items su.current_item su.current_item_id (h.current q su e)))

finish-IsValid :
    (c : Accumulator) (id p : Text) (d : FileDiff) (previous : Option PathState)
    → IsValid c
    → map_has id c.item_id_to_file ≡ false
    → IsValid (
        if d.name === []
        then push_item c id d
        else record_path (push_item c id d) p (length c.items) id d previous)
finish-IsValid c id p d previous h fresh =
    let pushed = push_item-IsValid c id d h fresh in
    elim (Bool-cases (d.name === [])) [
      | inl e ↦ rw e pushed
      | inr e ↦ rw e (
          record_path-IsValid (push_item c id d) p (length c.items) id d previous pushed
            (id_at-push_item c id d) (λ q su. push_item_place c id d q su h))
    ]

-- Appending a diff entry keeps every item registered under its own id at its own place.
pub append_file_diff-IsValid :
    (a : Accumulator) (d : FileDiff) (prefix : Option Text)
    → IsValid a
    → IsValid (append_file_diff a d prefix).1
unfolding append_file_diff
append_file_diff-IsValid a d prefix h =
    let tree_path = tree_path_of prefix d.name in
    let counted : Accumulator = record a { diff_stats = count_file d a.diff_stats } in
    let previous = previous_state a d.name tree_path in
    let b = (supersede counted tree_path previous).1 in
    let hb =
      supersede-IsValid counted tree_path previous h (previous_state_found a d.name tree_path) in
    let hc = choose_item_id-IsValid b tree_path hb in
    finish-IsValid (choose_item_id b tree_path).1 (choose_item_id b tree_path).0 tree_path d
      previous hc.0 hc.1

new_accumulator-IsValid : IsValid new_accumulator
unfolding map_get
new_accumulator-IsValid = record {
  registered = λ i id e. cc;
  current = λ p st e. cc;
  apart = λ p q st su e f n. cc;
}

append_all-IsValid :
    (a : Accumulator) (ds : List (FileDiff × Option Text)) → IsValid a → IsValid (append_all a ds)
unfolding append_all
append_all-IsValid a [] h = h
append_all-IsValid a ((d, prefix) ∷ ds) h =
    append_all-IsValid (append_file_diff a d prefix).1 ds (append_file_diff-IsValid a d prefix h)

-- After any entries, appended to a new accumulator, two places that hold the same id are the same
-- place, and that is the order registered for the id.
pub append_all-ids :
    (ds : List (FileDiff × Option Text)) (i j : ℕ) (id : Text)
    → let a = append_all new_accumulator ds in
      id_at a.items i ≡ some id
      → id_at a.items j ≡ some id
      → (i ≡ j) × (order_at a.item_id_to_file id ≡ some i)
append_all-ids ds i j id e f =
    let h = append_all-IsValid new_accumulator ds new_accumulator-IsValid in
    (ground (arith, h.registered i id e, h.registered j id f), h.registered i id e)
