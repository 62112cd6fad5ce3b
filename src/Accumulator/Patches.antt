-- ===== src/Accumulator/Patches.antt =====
-- Two successive tree sources of one accumulator, with entries appended in between.
use gitna.Prelude.{
  ℕ, ◌≡◌, refl, ap, ◌∙◌, sym, Bool, Option, none, some, List, [], ◌∷◌, arith, if◌then◌else◌, Text,
  ◌===◌, JsMap, map_get, is_some, Bool-cases, inl, inr, length,
}
use gitna.Accumulator.{
  new, is_deleted, map_change_type_to_git_status, record_git_status_remove, record_git_status_set,
  put_git_status, change_git_status, drop_git_status, Accumulator, ChangeTypes, GitStatus,
  GitStatusPatch, FileDiff, PathState, TreeFields, TreeSource, first_source, next_source,
  update_git_status_by_path, append_file_diff, append_all, supersede, choose_item_id, push_item,
  record_path, snapshot_tree_source, take_pending_git_status_patch, pending_patch, linked_source,
  count_file, tree_path_of, previous_state,
}
use gitna.Accumulator.Statuses.{
  patched, IsTracked, update-IsTracked, choose-KeepsStatus, supersede-KeepsStatus,
  IsTracked-KeepsStatus,
}

-- The accumulator is tracked from `base`, and `source` is the last source that it gave.
record IsFollowing (base : JsMap GitStatus) (source : TreeSource) (a : Accumulator) : Type 0 where
  tracked : IsTracked base a
  linked : a.last_tree_source ≡ some source

source-update :
    (a : Accumulator) (p : Text) (t : ChangeTypes) (had : Bool)
    → (update_git_status_by_path a p t had).last_tree_source ≡ a.last_tree_source
unfolding update_git_status_by_path drop_git_status change_git_status put_git_status
    record_git_status_set record_git_status_remove map_change_type_to_git_status is_deleted
source-update a p new had = ground arith
source-update a p _ had = ground arith

record_path-IsFollowing :
    (base : JsMap GitStatus) (source : TreeSource) (a : Accumulator) (p : Text) (item : ℕ)
    (id : Text) (d : FileDiff) (previous : Option PathState)
    → IsFollowing base source a
    → IsFollowing base source (record_path a p item id d previous)
unfolding record_path
record_path-IsFollowing base source a p item id d previous h = record {
  tracked = record {
    at_path =
        (update-IsTracked base _ p d.change_type _
          (record { at_path = h.tracked.at_path })).at_path;
  };
  linked = source-update _ p d.change_type _ ∙ h.linked;
}

append-IsFollowing :
    (base : JsMap GitStatus) (source : TreeSource) (a : Accumulator) (d : FileDiff)
    (prefix : Option Text)
    → IsFollowing base source a
    → IsFollowing base source (append_file_diff a d prefix).1
unfolding append_file_diff
append-IsFollowing base source a d prefix h =
    let tree_path = tree_path_of prefix d.name in
    let counted : Accumulator = record a { diff_stats = count_file d a.diff_stats } in
    let previous = previous_state a d.name tree_path in
    let b = (supersede counted tree_path previous).1 in
    let kb = supersede-KeepsStatus counted tree_path previous in
    let c = (choose_item_id b tree_path).1 in
    let kc = choose-KeepsStatus b tree_path in
    let tracked_c =
      IsTracked-KeepsStatus base b c kc
        (IsTracked-KeepsStatus base counted b kb (record { at_path = h.tracked.at_path })) in
    let id = (choose_item_id b tree_path).0 in
    let pushed : IsFollowing base source (push_item c id d) =
      unfold push_item in
      record {
        tracked = record { at_path = tracked_c.at_path };
        linked = kc.source ∙ kb.source ∙ h.linked;
      } in
    elim (Bool-cases (d.name === [])) [
      | inl e ↦ rw e pushed
      | inr e ↦ rw e (
          record_path-IsFollowing base source (push_item c id d) tree_path (length c.items) id d
            previous pushed)
    ]

append_all-IsFollowing :
    (base : JsMap GitStatus) (source : TreeSource) (a : Accumulator)
    (ds : List (FileDiff × Option Text))
    → IsFollowing base source a
    → IsFollowing base source (append_all a ds)
unfolding append_all
append_all-IsFollowing base source a [] h = h
append_all-IsFollowing base source a ((d, prefix) ∷ ds) h =
    append_all-IsFollowing base source (append_file_diff a d prefix).1 ds
      (append-IsFollowing base source a d prefix h)

abbrev pub fields_of : TreeSource → TreeFields
fields_of (first_source f) = f
fields_of (next_source f previous) = f

abbrev pub statuses_of : TreeSource → JsMap GitStatus
statuses_of s = (fields_of s).git_status

-- The statuses of a source's path after its patch is applied; with no patch, as they were.
abbrev pub apply_patch : Option GitStatusPatch → Text → Option GitStatus → Option GitStatus
apply_patch none p old = old
apply_patch (some patch) p old = patched patch.remove patch.set p old

pending_patch_empties :
    (a : Accumulator) (remove : List Text) (set : JsMap GitStatus)
    → a.pending_remove_paths ≡ remove
    → a.pending_set_by_path ≡ set
    → let b = (pending_patch a remove set).1 in
      (b.pending_remove_paths ≡ [])
      × (b.pending_set_by_path ≡ [])
      × (b.git_status_by_path ≡ a.git_status_by_path)
unfolding pending_patch
pending_patch_empties a [] [] r s = (r, s, refl)
pending_patch_empties a (x ∷ xs) set r s = (refl, refl, refl)
pending_patch_empties a [] (x ∷ xs) r s = (refl, refl, refl)

pending_patch_applies :
    (a : Accumulator) (remove : List Text) (set : JsMap GitStatus) (p : Text)
    (old : Option GitStatus)
    → apply_patch (pending_patch a remove set).0 p old ≡ patched remove set p old
unfolding pending_patch map_get
pending_patch_applies a [] [] p old = refl
pending_patch_applies a (x ∷ xs) set p old = refl
pending_patch_applies a [] (x ∷ xs) p old = refl

fields-linked : (f : TreeFields) (o : Option TreeSource) → fields_of (linked_source f o) ≡ f
unfolding linked_source
fields-linked f none = refl
fields-linked f (some previous) = refl

statuses-snapshot :
    (a : Accumulator) → statuses_of (snapshot_tree_source a).0 ≡ a.git_status_by_path
unfolding snapshot_tree_source take_pending_git_status_patch
statuses-snapshot a =
    ap (λ (f : TreeFields). f.git_status) (fields-linked _ a.last_tree_source)
    ∙ (pending_patch_empties a a.pending_remove_paths a.pending_set_by_path refl refl).2

patch-snapshot :
    (a : Accumulator)
    → (fields_of (snapshot_tree_source a).0).git_status_patch
      ≡ (if is_some a.last_tree_source then (take_pending_git_status_patch a).0 else none)
unfolding snapshot_tree_source
patch-snapshot a = ap (λ (f : TreeFields). f.git_status_patch) (fields-linked _ a.last_tree_source)

patch-snapshot_linked :
    (a : Accumulator) (s : TreeSource)
    → a.last_tree_source ≡ some s
    → (fields_of (snapshot_tree_source a).0).git_status_patch ≡ (take_pending_git_status_patch a).0
patch-snapshot_linked a s e =
    patch-snapshot a ∙ ap (λ o. if is_some o then (take_pending_git_status_patch a).0 else none) e

snapshot-IsFollowing :
    (a : Accumulator)
    → let (s, b) = snapshot_tree_source a in IsFollowing (a.git_status_by_path) s b
unfolding snapshot_tree_source take_pending_git_status_patch map_get
snapshot-IsFollowing a =
    let k = pending_patch_empties a a.pending_remove_paths a.pending_set_by_path refl refl in
    record { tracked = record { at_path = λ p. rw (k.0, k.1) (ap (map_get p) k.2) }; linked = refl }

-- Of two successive sources of one accumulator, with any entries appended in between, the patch of the
-- second leads at every path from the status in the first to the status in the second.
pub snapshot-patch :
    (a : Accumulator) (ds : List (FileDiff × Option Text)) (p : Text)
    → let (s, b) = snapshot_tree_source a in
      let t = (snapshot_tree_source (append_all b ds)).0 in
      map_get p (statuses_of t)
      ≡ apply_patch (fields_of t).git_status_patch p (map_get p (statuses_of s))
snapshot-patch a ds p =
    let (s, b) = snapshot_tree_source a in
    let c = append_all b ds in
    let f = append_all-IsFollowing a.git_status_by_path s b ds (snapshot-IsFollowing a) in
    rw (statuses-snapshot c, statuses-snapshot a, patch-snapshot_linked c s f.linked)
      (f.tracked.at_path p
        ∙ sym (
            unfold take_pending_git_status_patch in
            pending_patch_applies c c.pending_remove_paths c.pending_set_by_path p
              (map_get p a.git_status_by_path)))
