-- ===== src/Accumulator/Statuses.antt =====
-- The status patches of successive tree sources: what a consumer that holds the statuses of one
-- source gets by applying the patch of the next.
use gitna.Prelude.{
  codes, ◌≡◌, refl, Bool, false, ◌||◌, ◌&&◌, not, Option, none, some, List, [], ◌∷◌, ◌++◌, arith,
  if◌then◌else◌, Text, ◌===◌, any_of, JsMap, map_get, map_has, get-set, get-delete, Bool-cases, inl,
  inr,
}
use gitna.Accumulator.{
  semantic_suffix, has_status, Accumulator, ChangeTypes, GitStatus, PathState,
  update_git_status_by_path, drop_git_status, change_git_status, put_git_status,
  record_git_status_set, record_git_status_remove, map_change_type_to_git_status, is_deleted,
  without_text, add_text, supersede, rename_current_path_item, create_superseded_item_id,
  create_unique_item_id, choose_item_id, create_fallback_item_id,
}

abbrev pub contains : Text → List Text → Bool
contains t = any_of (λ u. u === t)

contains-append :
    (t u : Text) (ts : List Text) → contains t (ts ++ u ∷ []) ≡ (u === t || contains t ts)
contains-append t u [] = refl
contains-append t u (v ∷ ts) = ground (arith, contains-append t u ts)

contains-add :
    (t u : Text) (ts : List Text) → contains t (add_text u ts) ≡ (u === t || contains t ts)
unfolding add_text
contains-add t u ts = ground (arith, contains-append t u ts)

contains-without :
    (t u : Text) (ts : List Text)
    → contains t (without_text u ts) ≡ (if u === t then false else contains t ts)
unfolding without_text
contains-without t u [] = ground arith
contains-without t u (v ∷ ts) = ground (arith, contains-without t u ts)

-- A status after a patch: removed, or set, or as it was.
abbrev pub patched : List Text → JsMap GitStatus → Text → Option GitStatus → Option GitStatus
patched remove set p old =
    if contains p remove then none else elim (map_get p set) [ none ↦ old | some s ↦ some s ]

-- The pending changes lead from the statuses `base` to the present ones.
pub record IsTracked (base : JsMap GitStatus) (a : Accumulator) : Type 0 where
  pub at_path :
      (p : Text)
      → map_get p a.git_status_by_path
        ≡ patched a.pending_remove_paths a.pending_set_by_path p (map_get p base)

drop-IsTracked :
    (base : JsMap GitStatus) (a : Accumulator) (q : Text)
    → IsTracked base a
    → IsTracked base (drop_git_status a q)
unfolding drop_git_status record_git_status_remove
drop-IsTracked base a q h = record {
  at_path = λ p. ground (
    arith,
    h.at_path p,
    get-delete q p a.git_status_by_path,
    get-delete q p a.pending_set_by_path,
    contains-add p q a.pending_remove_paths,
  );
}

put-IsTracked :
    (base : JsMap GitStatus) (a : Accumulator) (q : Text) (s : GitStatus)
    → IsTracked base a
    → IsTracked base (put_git_status a q s)
unfolding put_git_status record_git_status_set
put-IsTracked base a q s h = record {
  at_path = λ p. ground (
    arith,
    h.at_path p,
    get-set q p s a.git_status_by_path,
    get-set q p s a.pending_set_by_path,
    contains-without p q a.pending_remove_paths,
  );
}

change-IsTracked :
    (base : JsMap GitStatus) (a : Accumulator) (q : Text) (s : GitStatus)
    → IsTracked base a
    → IsTracked base (change_git_status a q s)
unfolding change_git_status
change-IsTracked base a q GitStatus.modified h = drop-IsTracked base a q h
change-IsTracked base a q s h = elim (Bool-cases (has_status s (map_get q a.git_status_by_path))) [
  | inl e ↦ rw (e, change_git_status) h
  | inr e ↦ rw (e, change_git_status) (put-IsTracked base a q s h)
]

pub update-IsTracked :
    (base : JsMap GitStatus) (a : Accumulator) (q : Text) (t : ChangeTypes) (had : Bool)
    → IsTracked base a
    → IsTracked base (update_git_status_by_path a q t had)
unfolding update_git_status_by_path
update-IsTracked base a q t had h = elim (Bool-cases (had && not (is_deleted t))) [
  | inl e ↦ rw e (drop-IsTracked base a q h)
  | inr e ↦ rw e (change-IsTracked base a q (map_change_type_to_git_status t) h)
]

-- What the steps of an append leave of the statuses and of the last source.
pub record KeepsStatus (a b : Accumulator) : Type 0 where
  pub statuses : b.git_status_by_path ≡ a.git_status_by_path
  pub removes : b.pending_remove_paths ≡ a.pending_remove_paths
  pub sets : b.pending_set_by_path ≡ a.pending_set_by_path
  pub source : b.last_tree_source ≡ a.last_tree_source

create_unique-KeepsStatus :
    (a : Accumulator) (base : Text) → KeepsStatus a (create_unique_item_id a base).1
unfolding create_unique_item_id
create_unique-KeepsStatus a base = ground arith

pub choose-KeepsStatus : (a : Accumulator) (p : Text) → KeepsStatus a (choose_item_id a p).1
unfolding choose_item_id create_fallback_item_id
choose-KeepsStatus a p = elim (Bool-cases (map_has p a.item_id_to_file)) [
  | inl e ↦ rw (e, choose_item_id) (create_unique-KeepsStatus a (p ++ codes "?2"))
  | inr e ↦
      rw (e, choose_item_id)
        (record { statuses = refl; removes = refl; sets = refl; source = refl })
]

pub supersede-KeepsStatus :
    (a : Accumulator) (p : Text) (previous : Option PathState)
    → KeepsStatus a (supersede a p previous).1
unfolding supersede rename_current_path_item create_superseded_item_id
supersede-KeepsStatus a p none = record {
  statuses = refl;
  removes = refl;
  sets = refl;
  source = refl;
}
supersede-KeepsStatus a p (some st) =
    let k = create_unique-KeepsStatus a (p ++ semantic_suffix st.current_type) in
    record { statuses = k.statuses; removes = k.removes; sets = k.sets; source = k.source }

pub IsTracked-KeepsStatus :
    (base : JsMap GitStatus) (a b : Accumulator)
    → KeepsStatus a b
    → IsTracked base a
    → IsTracked base b
IsTracked-KeepsStatus base a b k h = record {
  at_path = λ p. rw (k.statuses, k.removes, k.sets) (h.at_path p);
}
