-- ===== src/Accumulator/Examples.antt =====
-- The theorems on the accumulator at a patch that deletes a file and adds it again.
use gitna.Prelude.{
  map_delete, map_set, text_dec, to_text, ℕ_discrete, ◌≡◌, refl, Option, none, some, List, [], ◌∷◌,
  Text, codes, map_has, map_get, false, ℕ,
}
use gitna.Accumulator.{
  append_file_diff, record_path, update_git_status_by_path, saw_deleted_in, previous_state,
  change_git_status, map_change_type_to_git_status, has_status, push_item, choose_item_id,
  supersede, put_git_status, record_git_status_set, tree_path_of, add_text, count_file, count_hunks,
  create_fallback_item_id, create_superseded_item_id, drop_git_status, free_suffix, is_deleted,
  move_key, record_git_status_remove, rename_current_path_item, rename_item, same_status,
  semantic_suffix, suffixed, without_text, Accumulator, new_accumulator, FileDiff, ChangeTypes, new,
  append_all, create_unique_item_id, snapshot_tree_source,
}
use gitna.Accumulator.Ids.{create_unique_item_id_free}
use gitna.Accumulator.Items.{id_at, order_at}
use gitna.Accumulator.Entries.{append_all-ids}
use gitna.Accumulator.Patches.{snapshot-patch, statuses_of, fields_of, apply_patch}

abbrev entry : ChangeTypes → FileDiff × Option Text
entry t = (record { name = codes "a"; change_type = t; unified_line_count = 3; hunks = [] }, none)

abbrev entries : List (FileDiff × Option Text)
entries = entry ChangeTypes.deleted ∷ entry new ∷ []

abbrev collected : Accumulator
collected = append_all new_accumulator entries

second_id : id_at collected.items 1 ≡ some (codes "a")
unfolding append_all append_file_diff text_dec record_path update_git_status_by_path saw_deleted_in
    previous_state map_get map_set change_git_status map_change_type_to_git_status has_status
    push_item choose_item_id supersede put_git_status record_git_status_set tree_path_of add_text
    count_file count_hunks create_fallback_item_id create_superseded_item_id create_unique_item_id
    drop_git_status free_suffix is_deleted move_key record_git_status_remove
    rename_current_path_item rename_item same_status semantic_suffix suffixed without_text
    map_delete to_text ℕ_discrete
second_id = refl

append_all-ids_example :
    (◌≡◌ {A = ℕ} 1 1) × (order_at collected.item_id_to_file (codes "a") ≡ some 1)
append_all-ids_example = append_all-ids entries 1 1 (codes "a") second_id second_id

create_unique_item_id_free_example :
    map_has (create_unique_item_id collected (codes "a")).0 collected.item_id_to_file ≡ false
create_unique_item_id_free_example = create_unique_item_id_free collected (codes "a")

snapshot-patch_example :
    let (s, b) = snapshot_tree_source collected in
    let t = (snapshot_tree_source (append_all b (entry ChangeTypes.deleted ∷ []))).0 in
    map_get (codes "a") (statuses_of t)
    ≡ apply_patch (fields_of t).git_status_patch (codes "a") (map_get (codes "a") (statuses_of s))
snapshot-patch_example = snapshot-patch collected (entry ChangeTypes.deleted ∷ []) (codes "a")
