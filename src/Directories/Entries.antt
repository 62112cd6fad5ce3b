-- ===== src/Directories/Entries.antt =====
-- What the removals leave of a directory in every map of the explorer.
use gitna.Prelude.{
  map_delete, is_some, map_delete, sym, ◌≡◌, ◌≢◌, ◌⊎◌, inl, inr, refl, ◌∙◌, ap, true, false, Option,
  none, some, List, [], ◌∷◌, Text, arith, JsMap, map_get, map_has, text_dec, get-delete,
  get-delete_ne, includes, set_delete, not, ◌&&◌, ◌===◌,
}
use mathlib.Core.Path.{subst}
use gitna.History.{abort, is_member}
use gitna.Directories.{
  remove_orphans, publish_paths, rebuild_paths, ℕ, Directories, remove_directory, is_removable,
}
use gitna.Directories.Rebuilding.{remove_orphans-Removals, Removals, no_removal, removal}

-- Every map and set has the same of the directory in both states.
pub record HasEntriesOf (s t : Directories) (key : Text) : Type 0 where
  pub same_children : map_get key t.directory_children ≡ map_get key s.directory_children
  pub same_cursor : map_get key t.directory_cursors ≡ map_get key s.directory_cursors
  pub same_error : map_get key t.directory_errors ≡ map_get key s.directory_errors
  pub same_generation : map_get key t.directory_generations ≡ map_get key s.directory_generations
  pub same_request : map_get key t.directory_requests ≡ map_get key s.directory_requests
  pub same_controller : map_get key t.directory_controllers ≡ map_get key s.directory_controllers
  pub same_paged : includes t.paged_directories key ≡ includes s.paged_directories key

-- No map and no set has anything of the directory.
pub record HasNoEntries (t : Directories) (key : Text) : Type 0 where
  pub no_children : map_get key t.directory_children ≡ none
  pub no_cursor : map_get key t.directory_cursors ≡ none
  pub no_error : map_get key t.directory_errors ≡ none
  pub no_generation : map_get key t.directory_generations ≡ none
  pub no_request : map_get key t.directory_requests ≡ none
  pub no_controller : map_get key t.directory_controllers ≡ none
  pub not_paged : includes t.paged_directories key ≡ false

-- The controller, if there is one, was aborted.
abbrev pub IsAborted : Option ℕ → List ℕ → Type 0
IsAborted none aborted = Unit
IsAborted (some n) aborted = is_member n aborted ≡ true

-- Nothing is left of the directory, and its page was aborted.
abbrev pub IsForgotten : Directories → Directories → Text → Type 0
IsForgotten s t key = HasNoEntries t key × IsAborted (map_get key s.directory_controllers) t.aborted

includes-set_delete :
    (t : Text) (texts : List Text) (p : Text)
    → includes (set_delete t texts) p ≡ (not (t === p) && includes texts p)
unfolding set_delete
includes-set_delete t [] p = ground arith
includes-set_delete t (u ∷ texts) p = ground (arith, includes-set_delete t texts p)

remove-HasEntriesOf :
    (s : Directories) (orphan key : Text)
    → orphan ≢ key
    → HasEntriesOf s (remove_directory orphan s) key
unfolding remove_directory
remove-HasEntriesOf s orphan key ne = record {
  same_children = get-delete_ne orphan key s.directory_children ne;
  same_cursor = get-delete_ne orphan key s.directory_cursors ne;
  same_error = get-delete_ne orphan key s.directory_errors ne;
  same_generation = get-delete_ne orphan key s.directory_generations ne;
  same_request = get-delete_ne orphan key s.directory_requests ne;
  same_controller = get-delete_ne orphan key s.directory_controllers ne;
  same_paged = ground (arith, includes-set_delete orphan s.paged_directories key, ne);
}

get-delete_self : {V : Type 0} (key : Text) (m : JsMap V) → map_get key (map_delete key m) ≡ none
get-delete_self key m = ground (arith, get-delete key key m)

remove-HasNoEntries : (s : Directories) (key : Text) → HasNoEntries (remove_directory key s) key
unfolding remove_directory
remove-HasNoEntries s key = record {
  no_children = get-delete_self key s.directory_children;
  no_cursor = get-delete_self key s.directory_cursors;
  no_error = get-delete_self key s.directory_errors;
  no_generation = get-delete_self key s.directory_generations;
  no_request = get-delete_self key s.directory_requests;
  no_controller = get-delete_self key s.directory_controllers;
  not_paged = ground (arith, includes-set_delete key s.paged_directories key);
}

-- What has nothing keeps having nothing, and what was aborted stays aborted.
pub kept-HasNoEntries :
    (s t : Directories) (key : Text)
    → HasNoEntries s key
    → HasEntriesOf s t key
    → HasNoEntries t key
kept-HasNoEntries s t key n e = record {
  no_children = e.same_children ∙ n.no_children;
  no_cursor = e.same_cursor ∙ n.no_cursor;
  no_error = e.same_error ∙ n.no_error;
  no_generation = e.same_generation ∙ n.no_generation;
  no_request = e.same_request ∙ n.no_request;
  no_controller = e.same_controller ∙ n.no_controller;
  not_paged = e.same_paged ∙ n.not_paged;
}

pub entries_trans :
    (s t u : Directories) (key : Text)
    → HasEntriesOf s t key
    → HasEntriesOf t u key
    → HasEntriesOf s u key
entries_trans s t u key e f = record {
  same_children = f.same_children ∙ e.same_children;
  same_cursor = f.same_cursor ∙ e.same_cursor;
  same_error = f.same_error ∙ e.same_error;
  same_generation = f.same_generation ∙ e.same_generation;
  same_request = f.same_request ∙ e.same_request;
  same_controller = f.same_controller ∙ e.same_controller;
  same_paged = f.same_paged ∙ e.same_paged;
}

entries_refl : (s : Directories) (key : Text) → HasEntriesOf s s key
entries_refl s key = record {
  same_children = refl;
  same_cursor = refl;
  same_error = refl;
  same_generation = refl;
  same_request = refl;
  same_controller = refl;
  same_paged = refl;
}

remove-HasNoEntries_kept :
    (s : Directories) (orphan key : Text)
    → HasNoEntries s key
    → HasNoEntries (remove_directory orphan s) key
remove-HasNoEntries_kept s orphan key n = elim (text_dec orphan key) [
  | yes same ↦ rw same (remove-HasNoEntries s key)
  | no other ↦ kept-HasNoEntries s _ key n (remove-HasEntriesOf s orphan key other)
]

Removals-HasNoEntries :
    (s t : Directories) (key : Text) → Removals s t → HasNoEntries s key → HasNoEntries t key
Removals-HasNoEntries _ _ key (no_removal s) n = n
Removals-HasNoEntries _ _ key (removal orphan s t h p) n =
    Removals-HasNoEntries (remove_directory orphan s) t key p
      (remove-HasNoEntries_kept s orphan key n)

member-abort :
    (n : ℕ) (controller : Option ℕ) (aborted : List ℕ)
    → is_member n aborted ≡ true
    → is_member n (abort controller aborted) ≡ true
unfolding abort is_member
member-abort n none aborted h = h
member-abort n (some m) aborted h = ground (arith, h)

Removals-aborted :
    (s t : Directories) (n : ℕ)
    → Removals s t
    → is_member n s.aborted ≡ true
    → is_member n t.aborted ≡ true
unfolding remove_directory
Removals-aborted _ _ n (no_removal s) h = h
Removals-aborted _ _ n (removal orphan s t r p) h =
    Removals-aborted (remove_directory orphan s) t n p
      (member-abort n (map_get orphan s.directory_controllers) s.aborted h)

IsAborted-abort :
    (controller : Option ℕ) (aborted : List ℕ) → IsAborted controller (abort controller aborted)
unfolding abort is_member
IsAborted-abort none aborted = tt
IsAborted-abort (some n) aborted = ground arith

IsAborted-Removals :
    (s t : Directories) (controller : Option ℕ)
    → Removals s t
    → IsAborted controller s.aborted
    → IsAborted controller t.aborted
IsAborted-Removals s t none p h = tt
IsAborted-Removals s t (some n) p h = Removals-aborted s t n p h

-- The directory that is removed was loaded, and is forgotten.
removed-IsForgotten :
    (s t : Directories) (key : Text)
    → is_removable s key ≡ true
    → Removals (remove_directory key s) t
    → (map_has key s.directory_children ≡ true) × IsForgotten s t key
unfolding is_removable remove_directory
removed-IsForgotten s t key h p = (
  ground (arith, h),
  (
    Removals-HasNoEntries (remove_directory key s) t key p (remove-HasNoEntries s key),
    IsAborted-Removals (remove_directory key s) t (map_get key s.directory_controllers) p
        (IsAborted-abort (map_get key s.directory_controllers) s.aborted),
  ),
)

-- What happens to a directory after another one was removed.
after_removal :
    (s t : Directories) (orphan key : Text)
    → orphan ≢ key
    → HasEntriesOf (remove_directory orphan s) t key
      ⊎ ((map_has key (remove_directory orphan s).directory_children ≡ true)
          × IsForgotten (remove_directory orphan s) t key)
    → HasEntriesOf s t key ⊎ ((map_has key s.directory_children ≡ true) × IsForgotten s t key)
after_removal s t orphan key ne (inl e) =
    inl (entries_trans s _ t key (remove-HasEntriesOf s orphan key ne) e)
after_removal s t orphan key ne (inr (has, (n, aborted))) =
    let e = remove-HasEntriesOf s orphan key ne in
    inr (
      ap is_some (sym e.same_children) ∙ has,
      (n, subst (λ c. IsAborted c t.aborted) e.same_controller aborted),
    )

-- Removals leave a directory as it was in every map, or leave nothing of it and its page aborted; that
-- happens only to a directory that was loaded.
pub Removals-entries :
    (s t : Directories) (key : Text)
    → Removals s t
    → HasEntriesOf s t key ⊎ ((map_has key s.directory_children ≡ true) × IsForgotten s t key)
Removals-entries _ _ key (no_removal s) = inl (entries_refl s key)
Removals-entries _ _ key (removal orphan s t h p) = elim (text_dec orphan key) [
  | yes same ↦ inr (
      subst (λ k. (map_has k s.directory_children ≡ true) × IsForgotten s t k) same
        (removed-IsForgotten s t orphan h p))
  | no other ↦
      after_removal s t orphan key other (Removals-entries (remove_directory orphan s) t key p)
]

-- Publishing the paths leaves the maps alone.
publish-HasEntriesOf : (s : Directories) (key : Text) → HasEntriesOf s (publish_paths s) key
unfolding publish_paths
publish-HasEntriesOf s key = record {
  same_children = refl;
  same_cursor = refl;
  same_error = refl;
  same_generation = refl;
  same_request = refl;
  same_controller = refl;
  same_paged = refl;
}

aborted-publish : (s : Directories) → (publish_paths s).aborted ≡ s.aborted
unfolding publish_paths
aborted-publish s = refl

-- What the removals leave of a directory, the rebuilding leaves.
pub rebuild_paths-entries :
    (s : Directories) (key : Text)
    → HasEntriesOf s (rebuild_paths s) key
      ⊎ ((map_has key s.directory_children ≡ true) × IsForgotten s (rebuild_paths s) key)
unfolding rebuild_paths
rebuild_paths-entries s key =
    let t = remove_orphans s in
    let published = publish-HasEntriesOf t key in
    elim (Removals-entries s t key (remove_orphans-Removals s)) [
      | inl e ↦ inl (entries_trans s t (publish_paths t) key e published)
      | inr (has, (n, aborted)) ↦ inr (
        has,
        (
          kept-HasNoEntries t (publish_paths t) key n published,
          subst (IsAborted (map_get key s.directory_controllers)) (sym (aborted-publish t)) aborted,
        ),
      )
    ]
