-- ===== src/Accumulator.antt =====
-- web/src/diffshub/lib/diffsHubDataAccumulator.ts and mapChangeTypeToGitStatus.ts: the diff entries of a
-- patch collected for the viewer, the file tree and the comment index.
-- An item is shared by several fields of the source, and renaming it is seen through all of them: the
-- model keeps the items once, in `items`, and every other field refers to an item by its index there.
pub mod Ids
pub mod Items
pub mod Entries
pub mod Statuses
pub mod Patches
mod Examples
use gitna.Prelude.{
  ℕ, zero, suc, ◌+◌, Bool, true, false, not, ◌&&◌, ◌||◌, Option, none, some, List, [], ◌∷◌, ◌++◌,
  map, ltb, if◌then◌else◌, coalesce_or, is_some, length, get_elem?, keep, any_of, Text, codes,
  ◌===◌, to_text, JsMap, map_get, map_set, map_delete, map_has, values,
}

pub data ChangeTypes : Type 0 where
  new deleted rename_pure rename_changed change : ChangeTypes

pub data GitStatus : Type 0 where
  added deleted renamed modified untracked : GitStatus

unfoldable pub map_change_type_to_git_status : ChangeTypes → GitStatus
map_change_type_to_git_status new = added
map_change_type_to_git_status ChangeTypes.deleted = GitStatus.deleted
map_change_type_to_git_status rename_pure = renamed
map_change_type_to_git_status rename_changed = renamed
map_change_type_to_git_status change = modified

-- What the accumulator reads of a parsed diff.
pub record Hunk : Type 0 where
  pub addition_lines : ℕ
  pub deletion_lines : ℕ

pub record FileDiff : Type 0 where
  pub name : Text
  pub change_type : ChangeTypes
  pub unified_line_count : ℕ
  pub hunks : List Hunk

pub record DiffStats : Type 0 where
  pub added_lines : ℕ
  pub deleted_lines : ℕ
  pub file_count : ℕ
  pub total_lines_of_code : ℕ

pub record SidebarFile : Type 0 where
  pub file_order : ℕ
  pub path : Text

pub record Item : Type 0 where
  pub id : Text
  pub file_diff : FileDiff
  pub version : ℕ

pub record PathState : Type 0 where
  pub current_item : ℕ
  pub current_item_id : Text
  pub current_type : ChangeTypes
  pub saw_deleted : Bool

pub record GitStatusPatch : Type 0 where
  pub remove : List Text
  pub set : JsMap GitStatus

pub record TreeFields : Type 0 where
  pub git_status : JsMap GitStatus
  pub git_status_patch : Option GitStatusPatch
  pub path_count : ℕ
  pub paths : List Text
  pub path_to_item_id : JsMap Text

-- A tree source without and with a previous source.
pub data TreeSource : Type 0 where
  first_source : TreeFields → TreeSource
  next_source : TreeFields → TreeSource → TreeSource

pub record Accumulator : Type 0 where
  pub diff_stats : DiffStats
  pub file_index : ℕ
  pub git_status_by_path : JsMap GitStatus
  pub item_id_to_file : JsMap SidebarFile
  pub items : List Item
  pub last_tree_source : Option TreeSource
  pub next_collision_suffix_by_base : JsMap ℕ
  pub pending_remove_paths : List Text
  pub pending_set_by_path : JsMap GitStatus
  pub pending_items : List ℕ
  pub pending_item_by_id : JsMap ℕ
  pub path_to_item_id : JsMap Text
  pub path_state_by_tree_path : JsMap PathState
  pub paths : List Text

pub record ItemIdRename : Type 0 where
  pub old_id : Text
  pub new_id : Text

abbrev pub new_accumulator : Accumulator
new_accumulator = record {
  diff_stats = record {
    added_lines = 0;
    deleted_lines = 0;
    file_count = 0;
    total_lines_of_code = 0;
  };
  file_index = 0;
  git_status_by_path = [];
  item_id_to_file = [];
  items = [];
  last_tree_source = none;
  next_collision_suffix_by_base = [];
  pending_remove_paths = [];
  pending_set_by_path = [];
  pending_items = [];
  pending_item_by_id = [];
  path_to_item_id = [];
  path_state_by_tree_path = [];
  paths = [];
}

-- `${base}-${suffix}`
pub suffixed : Text → ℕ → Text
suffixed base suffix = base ++ b'-' ∷ to_text suffix

-- The loop that advances the suffix while the id is taken. Its fuel is one more than the number of
-- ids, which is enough.
pub free_suffix : ℕ → Text → JsMap SidebarFile → ℕ → ℕ
free_suffix zero base taken suffix = suffix
free_suffix (suc f) base taken suffix =
    let later = free_suffix f base taken (suffix + 1) in
    if map_has (suffixed base suffix) taken then later else suffix

pub create_unique_item_id : Accumulator → Text → Text × Accumulator
create_unique_item_id a base_id =
    if map_has base_id a.item_id_to_file
    then (let start = coalesce_or (map_get base_id a.next_collision_suffix_by_base) 2 in
        let suffix = free_suffix (length a.item_id_to_file + 1) base_id a.item_id_to_file start in
        (
          suffixed base_id suffix,
          record a {
            next_collision_suffix_by_base =
                map_set base_id (suffix + 1) a.next_collision_suffix_by_base;
          },
        ))
    else (base_id, a)

semantic_suffix : ChangeTypes → Text
semantic_suffix ChangeTypes.deleted = codes "?deleted"
semantic_suffix _ = codes "?previous"

create_superseded_item_id : Accumulator → Text → ChangeTypes → Text × Accumulator
create_superseded_item_id a tree_path change_type =
    create_unique_item_id a (tree_path ++ semantic_suffix change_type)

create_fallback_item_id : Accumulator → Text → Text × Accumulator
create_fallback_item_id a tree_path = create_unique_item_id a (tree_path ++ codes "?2")

-- `item.id = id` on the item at an index.
pub rename_item : ℕ → Text → List Item → List Item
rename_item i id [] = []
rename_item zero id (x ∷ xs) = record x { id = id } ∷ xs
rename_item (suc i) id (x ∷ xs) = x ∷ rename_item i id xs

-- `itemIdToFile.delete(oldId)` and `.set(newId, file)`, when there is a file.
pub move_key {ℓ} : {V : Type ℓ} → Text → Text → JsMap V → JsMap V
move_key old_id new_id m = elim (map_get old_id m) [
  | none ↦ m
  | some v ↦ map_set new_id v (map_delete old_id m)
]

pub rename_current_path_item : Accumulator → Text → PathState → Option ItemIdRename × Accumulator
rename_current_path_item a tree_path state =
    let old_id = state.current_item_id in
    let (new_id, b) = create_superseded_item_id a tree_path state.current_type in
    let c = record b {
      items = rename_item state.current_item new_id b.items;
      path_state_by_tree_path =
          map_set tree_path (record state { current_item_id = new_id }) b.path_state_by_tree_path;
      item_id_to_file = move_key old_id new_id b.item_id_to_file;
      pending_item_by_id = move_key old_id new_id b.pending_item_by_id;
    } in
    (
      if map_has old_id b.pending_item_by_id
          then none
          else some (record { old_id = old_id; new_id = new_id }),
      c,
    )

without_text : Text → List Text → List Text
without_text t = keep (λ u. not (u === t))

-- `set.add(text)`
add_text : Text → List Text → List Text
add_text t ts = if any_of (λ u. u === t) ts then ts else ts ++ t ∷ []

record_git_status_set : Accumulator → Text → GitStatus → Accumulator
record_git_status_set a path status = record a {
  pending_remove_paths = without_text path a.pending_remove_paths;
  pending_set_by_path = map_set path status a.pending_set_by_path;
}

record_git_status_remove : Accumulator → Text → Accumulator
record_git_status_remove a path = record a {
  pending_set_by_path = map_delete path a.pending_set_by_path;
  pending_remove_paths = add_text path a.pending_remove_paths;
}

-- `if (gitStatusByPath.delete(treePath)) recordGitStatusRemove(…)`
drop_git_status : Accumulator → Text → Accumulator
drop_git_status a tree_path =
    if map_has tree_path a.git_status_by_path
    then record_git_status_remove
        (record a { git_status_by_path = map_delete tree_path a.git_status_by_path }) tree_path
    else a

pub same_status : GitStatus → GitStatus → Bool
same_status added added = true
same_status GitStatus.deleted GitStatus.deleted = true
same_status renamed renamed = true
same_status modified modified = true
same_status untracked untracked = true
same_status _ _ = false

put_git_status : Accumulator → Text → GitStatus → Accumulator
put_git_status a tree_path status =
    record_git_status_set
      (record a { git_status_by_path = map_set tree_path status a.git_status_by_path }) tree_path
      status

has_status : GitStatus → Option GitStatus → Bool
has_status status none = false
has_status status (some s) = same_status s status

change_git_status : Accumulator → Text → GitStatus → Accumulator
change_git_status a tree_path modified = drop_git_status a tree_path
change_git_status a tree_path status =
    if has_status status (map_get tree_path a.git_status_by_path)
    then a
    else put_git_status a tree_path status

is_deleted : ChangeTypes → Bool
is_deleted ChangeTypes.deleted = true
is_deleted _ = false

pub update_git_status_by_path : Accumulator → Text → ChangeTypes → Bool → Accumulator
update_git_status_by_path a tree_path change_type had_deleted_entry =
    if had_deleted_entry && not (is_deleted change_type)
    then drop_git_status a tree_path
    else change_git_status a tree_path (map_change_type_to_git_status change_type)

count_hunks : List Hunk → DiffStats → DiffStats
count_hunks [] st = st
count_hunks (h ∷ hs) st = count_hunks hs (record st {
  added_lines = st.added_lines + h.addition_lines;
  deleted_lines = st.deleted_lines + h.deletion_lines;
})

count_file : FileDiff → DiffStats → DiffStats
unfolding count_hunks
count_file d st = count_hunks d.hunks (record st {
  file_count = st.file_count + 1;
  total_lines_of_code = st.total_lines_of_code + d.unified_line_count;
})

tree_path_of : Option Text → Text → Text
tree_path_of none path = path
tree_path_of (some prefix) path = prefix ++ b'/' ∷ path

-- The id of a new item: its tree path, unless that is taken.
pub choose_item_id : Accumulator → Text → Text × Accumulator
choose_item_id a tree_path =
    if map_has tree_path a.item_id_to_file
    then create_fallback_item_id a tree_path
    else (tree_path, a)

-- The new item, pushed and registered under its id.
pub push_item : Accumulator → Text → FileDiff → Accumulator
push_item a id d = record a {
  file_index = a.file_index + 1;
  items = a.items ++ record { id = id; file_diff = d; version = 0 } ∷ [];
  pending_items = a.pending_items ++ length a.items ∷ [];
  pending_item_by_id = map_set id (length a.items) a.pending_item_by_id;
  item_id_to_file =
      map_set id (record { file_order = length a.items; path = d.name }) a.item_id_to_file;
}

saw_deleted_in : Option PathState → Bool
saw_deleted_in none = false
saw_deleted_in (some state) = state.saw_deleted

-- The path of an item with a name: the tree path is listed once, leads to the new item, and gets the
-- status and the state of its last entry.
pub record_path : Accumulator → Text → ℕ → Text → FileDiff → Option PathState → Accumulator
record_path a tree_path item id d previous =
    let saw_deleted = saw_deleted_in previous in
    let b = record a {
      paths = if is_some previous then a.paths else a.paths ++ tree_path ∷ [];
      path_to_item_id = map_set tree_path id a.path_to_item_id;
    } in
    let c = update_git_status_by_path b tree_path d.change_type saw_deleted in
    record c {
      path_state_by_tree_path =
          map_set tree_path
            (record {
              current_item = item;
              current_item_id = id;
              current_type = d.change_type;
              saw_deleted = saw_deleted || is_deleted d.change_type;
            })
            c.path_state_by_tree_path;
    }

pub supersede : Accumulator → Text → Option PathState → Option ItemIdRename × Accumulator
supersede a tree_path none = (none, a)
supersede a tree_path (some state) = rename_current_path_item a tree_path state

pub previous_state : Accumulator → Text → Text → Option PathState
previous_state a path tree_path =
    if path === [] then none else map_get tree_path a.path_state_by_tree_path

pub append_file_diff : Accumulator → FileDiff → Option Text → Option ItemIdRename × Accumulator
append_file_diff a d prefix =
    let path = d.name in
    let tree_path = tree_path_of prefix path in
    let counted = record a { diff_stats = count_file d a.diff_stats } in
    let previous = previous_state a path tree_path in
    let (item_id_rename, b) = supersede counted tree_path previous in
    let (id, c) = choose_item_id b tree_path in
    let pushed = push_item c id d in
    (
      item_id_rename,
      if path === [] then pushed else record_path pushed tree_path (length c.items) id d previous,
    )

-- `takePendingDiffsHubItems`: the items are returned by index.
pub take_pending_items : Accumulator → List ℕ × Accumulator
take_pending_items a = (a.pending_items, record a { pending_items = []; pending_item_by_id = [] })

-- An empty part of the patch is left out by the source, and empty here.
pending_patch : Accumulator → List Text → JsMap GitStatus → Option GitStatusPatch × Accumulator
pending_patch a [] [] = (none, a)
pending_patch a remove set = (
  some (record { remove = remove; set = set }),
  record a { pending_remove_paths = []; pending_set_by_path = [] },
)

pub take_pending_git_status_patch : Accumulator → Option GitStatusPatch × Accumulator
unfolding pending_patch
take_pending_git_status_patch a = pending_patch a a.pending_remove_paths a.pending_set_by_path

linked_source : TreeFields → Option TreeSource → TreeSource
linked_source fields none = first_source fields
linked_source fields (some previous) = next_source fields previous

-- The arrays and maps that the source shares with the accumulator are read up to `path_count`, so the
-- model copies them.
pub snapshot_tree_source : Accumulator → TreeSource × Accumulator
snapshot_tree_source a =
    let (patch, b) = take_pending_git_status_patch a in
    let fields : TreeFields = record {
      git_status = b.git_status_by_path;
      git_status_patch = if is_some a.last_tree_source then patch else none;
      path_count = length b.paths;
      paths = b.paths;
      path_to_item_id = b.path_to_item_id;
    } in
    let source = linked_source fields a.last_tree_source in
    (source, record b { last_tree_source = some source })

pub record LoadedData : Type 0 where
  pub item_id_to_file : JsMap SidebarFile
  pub diff_stats : DiffStats
  pub items : List Item
  pub tree_source : TreeSource

pub snapshot_data : Accumulator → LoadedData × Accumulator
snapshot_data a =
    let (source, b) = snapshot_tree_source a in
    (
      record {
        item_id_to_file = a.item_id_to_file;
        diff_stats = a.diff_stats;
        items = a.items;
        tree_source = source;
      },
      b,
    )

-- The loop of `buildDiffsHubData` over the entries of the parsed patches, each with its prefix.
pub append_all : Accumulator → List (FileDiff × Option Text) → Accumulator
append_all a [] = a
append_all a ((d, prefix) ∷ rest) = append_all (append_file_diff a d prefix).1 rest
