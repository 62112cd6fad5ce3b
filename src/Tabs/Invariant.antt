-- ===== src/Tabs/Invariant.antt =====
-- The file that is shown is one of the open ones.
use gitna.Prelude.{
  includes, if-holds, arith, ◌≡◌, refl, ap, Bool, true, false, not, inl, inr, Option, none, some,
  List, [], ◌∷◌, ◌++◌, map, keep, find_first, Text, ◌===◌, Bool-cases,
}
use gitna.Tabs.{
  remap, rename_worktree_entry, swap_repository_file_comparison,
  activate_repository_file_comparison, open_repository_file_comparison,
  set_repository_selected_paths, RepositoryFileComparison, leave_diffs, compare_selected, swap_from,
  map_present, select_repository_file, open_tab, close_repository_file_comparison, close_tabs,
  sides_of, or_else, leave_closed, neighbour, close_repository_files, after_of, last_of, before_of,
  without_last, Tabs, TabEvent, selects_file, selects_paths, opens_comparison, activates_comparison,
  swaps_comparison, closes_comparison, closes_files, renames_entry, handle, handle_all,
}

abbrev pub shown_in : Option Text → List Text → Bool
shown_in none paths = true
shown_in (some path) paths = includes paths path

unfoldable pub IsShownOpen : Tabs → Type 0
IsShownOpen t = shown_in t.repository_file_path t.repository_open_paths ≡ true

same_text : (s t : Text) → (s === t) ≡ true → s ≡ t
same_text s t e = ground (arith, e)

same_self : (s : Text) → (s === s) ≡ true
same_self s = ground arith

includes-append : (xs : List Text) (q : Text) → includes (xs ++ q ∷ []) q ≡ true
includes-append [] q = ground (arith, same_self q)
includes-append (x ∷ xs) q = ground (arith, includes-append xs q)

includes-keep :
    (p : Text → Bool) (xs : List Text) (q : Text)
    → includes xs q ≡ true
    → p q ≡ true
    → includes (keep p xs) q ≡ true
includes-keep p [] q e holds = e
includes-keep p (x ∷ xs) q e holds = elim (Bool-cases (x === q)) [
  | inl same ↦ ground (arith, same_text x q same, holds, same)
  | inr other ↦ ground (arith, includes-keep p xs q, e, holds, other)
]

includes-map :
    (f : Text → Text) (xs : List Text) (q : Text)
    → includes xs q ≡ true
    → includes (map f xs) (f q) ≡ true
includes-map f [] q e = absurd (cc)
includes-map f (x ∷ xs) q e = elim (Bool-cases (x === q)) [
  | inl same ↦ rw (same_text x q same) ground (arith, same_self (f q))
  | inr other ↦ ground (arith, includes-map f xs q, e, other)
]

-- The chosen neighbour passes the test and is in the list.
abbrev Chosen : (Text → Bool) → List Text → Option Text → Type 0
Chosen p xs none = Unit
Chosen p xs (some q) = (p q ≡ true) × (includes xs q ≡ true)

Chosen-or_else :
    (p : Text → Bool) (xs : List Text) (o fallback : Option Text)
    → Chosen p xs o
    → Chosen p xs fallback
    → Chosen p xs (or_else o fallback)
unfolding or_else
Chosen-or_else p xs none fallback c d = d
Chosen-or_else p xs (some q) fallback c d = c

Chosen-sub :
    (p : Text → Bool) (xs ys : List Text) (o : Option Text)
    → ((q : Text) → includes xs q ≡ true → includes ys q ≡ true)
    → Chosen p xs o
    → Chosen p ys o
Chosen-sub p xs ys none sub c = tt
Chosen-sub p xs ys (some q) sub (holds, e) = (holds, sub q e)

includes-cons :
    (x : Text) (xs : List Text) (q : Text) → includes xs q ≡ true → includes (x ∷ xs) q ≡ true
includes-cons x xs q e = ground (arith, e)

Chosen-here :
    (p : Text → Bool) (x : Text) (xs : List Text) → p x ≡ true → Chosen p (x ∷ xs) (some x)
Chosen-here p x xs here = (here, ground (arith, same_self x))

find_first-Chosen : (p : Text → Bool) (xs : List Text) → Chosen p xs (find_first p xs)
find_first-Chosen p [] = tt
find_first-Chosen p (x ∷ xs) = elim (Bool-cases (p x)) [
  | inl here ↦ rw here (Chosen-here p x xs here)
  | inr later ↦ rw later (Chosen-sub p xs (x ∷ xs) _ (includes-cons x xs) (find_first-Chosen p xs))
]

last_of-Chosen : (p : Text → Bool) (xs : List Text) → Chosen p xs (last_of p xs)
unfolding last_of
last_of-Chosen p [] = tt
last_of-Chosen p (x ∷ xs) =
    Chosen-or_else p (x ∷ xs) (last_of p xs) _
      (Chosen-sub p xs (x ∷ xs) _ (includes-cons x xs) (last_of-Chosen p xs))
      (elim (Bool-cases (p x)) [
        | inl here ↦ rw here (Chosen-here p x xs here)
        | inr later ↦ rw later tt
      ])

after_of-includes :
    (path : Text) (xs : List Text) (q : Text)
    → includes (after_of path xs) q ≡ true
    → includes xs q ≡ true
unfolding after_of
after_of-includes path [] q e = e
after_of-includes path (x ∷ xs) q e = ground (arith, after_of-includes path xs q, e)

before_of-includes :
    (path : Text) (xs : List Text) (q : Text)
    → includes (before_of path xs) q ≡ true
    → includes xs q ≡ true
unfolding before_of
before_of-includes path [] q e = e
before_of-includes path (x ∷ xs) q e = ground (arith, before_of-includes path xs q, e)

without_last-includes :
    (xs : List Text) (q : Text) → includes (without_last xs) q ≡ true → includes xs q ≡ true
unfolding without_last
without_last-includes [] q e = e
without_last-includes (x ∷ []) q e = absurd cc
without_last-includes (x ∷ y ∷ xs) q e = ground (arith, without_last-includes (y ∷ xs) q, e)

neighbour-Chosen :
    (stays : Text → Bool) (path : Text) (xs : List Text)
    → Chosen stays xs (neighbour stays (sides_of path xs))
unfolding neighbour sides_of or_else
neighbour-Chosen stays path xs = elim (Bool-cases (includes xs path)) [
  | inl e ↦
      rw (neighbour, sides_of, e)
        (Chosen-or_else stays xs _ _
          (Chosen-sub stays _ xs _ (after_of-includes path xs) (find_first-Chosen stays _))
          (Chosen-sub stays _ xs _ (before_of-includes path xs) (last_of-Chosen stays _)))
  | inr e ↦
      rw (neighbour, sides_of, e)
        (Chosen-or_else stays xs _ _ (find_first-Chosen stays xs)
          (Chosen-sub stays _ xs _ (without_last-includes xs) (last_of-Chosen stays _)))
]

Chosen-shown_in :
    (p : Text → Bool) (xs : List Text) (o : Option Text)
    → Chosen p xs o
    → shown_in o (keep p xs) ≡ true
Chosen-shown_in p xs none c = refl
Chosen-shown_in p xs (some q) (holds, e) = includes-keep p xs q e holds

leave_closed-IsShownOpen :
    (t : Tabs) (xs closing : List Text) (o : Option Text)
    → t.repository_open_paths ≡ keep (λ p. not (includes closing p)) xs
    → t.repository_file_path ≡ o
    → shown_in o xs ≡ true
    → IsShownOpen (leave_closed t xs closing o)
unfolding IsShownOpen leave_closed
leave_closed-IsShownOpen t xs closing none opened shown e = rw shown refl
leave_closed-IsShownOpen t xs closing (some path) opened shown e =
    elim (Bool-cases (includes closing path)) [
      | inl f ↦ rw (leave_closed, f, opened) (Chosen-shown_in _ xs _ (neighbour-Chosen _ path xs))
      | inr f ↦ rw (leave_closed, f, opened, shown) (includes-keep _ xs path e (ap not f))
    ]

close_repository_files-IsShownOpen :
    (t : Tabs) (paths : List Text) (close_comparison : Bool)
    → IsShownOpen t
    → IsShownOpen (close_repository_files t paths close_comparison)
unfolding IsShownOpen close_repository_files close_tabs close_repository_file_comparison
close_repository_files-IsShownOpen t paths true e =
    if-holds IsShownOpen _ _ _ e (leave_closed-IsShownOpen _ _ paths _ refl refl e)
close_repository_files-IsShownOpen t paths false e =
    if-holds IsShownOpen _ _ _ e (leave_closed-IsShownOpen _ _ paths _ refl refl e)

open_tab-IsShownOpen :
    (t : Tabs) (path : Text) (reveal : Bool) → IsShownOpen (open_tab t path reveal)
unfolding IsShownOpen open_tab
open_tab-IsShownOpen t path reveal = elim (Bool-cases (includes t.repository_open_paths path)) [
  | inl e ↦ rw (open_tab, e) e
  | inr e ↦ rw (open_tab, e) (includes-append t.repository_open_paths path)
]

select_repository_file-IsShownOpen :
    (t : Tabs) (path : Text) (reveal : Bool)
    → IsShownOpen t
    → IsShownOpen (select_repository_file t path reveal)
unfolding select_repository_file
select_repository_file-IsShownOpen t path reveal e =
    if-holds IsShownOpen _ _ _ e (if-holds IsShownOpen _ _ _ e (open_tab-IsShownOpen t path reveal))

compare_selected-IsShownOpen :
    (t : Tabs) (paths : List Text) → IsShownOpen t → IsShownOpen (compare_selected t paths)
unfolding IsShownOpen compare_selected leave_diffs
compare_selected-IsShownOpen t [] e = e
compare_selected-IsShownOpen t (path ∷ []) e = e
compare_selected-IsShownOpen t (left ∷ right ∷ []) e = if-holds IsShownOpen _ _ _ e e
compare_selected-IsShownOpen t (left ∷ right ∷ next ∷ rest) e = e

swap_from-IsShownOpen :
    (t : Tabs) (o : Option RepositoryFileComparison) → IsShownOpen t → IsShownOpen (swap_from t o)
unfolding IsShownOpen swap_from
swap_from-IsShownOpen t none e = e
swap_from-IsShownOpen t (some c) e = e

shown_in-map :
    (f : Text → Text) (o : Option Text) (xs : List Text)
    → shown_in o xs ≡ true
    → shown_in (map_present f o) (map f xs) ≡ true
unfolding map_present
shown_in-map f none xs e = refl
shown_in-map f (some path) xs e = includes-map f xs path e

handle-IsShownOpen : (t : Tabs) (e : TabEvent) → IsShownOpen t → IsShownOpen (handle t e)
unfolding IsShownOpen handle set_repository_selected_paths open_repository_file_comparison
    activate_repository_file_comparison leave_diffs swap_repository_file_comparison
    close_repository_file_comparison rename_worktree_entry
handle-IsShownOpen t (selects_file path reveal) d =
    select_repository_file-IsShownOpen t path reveal d
handle-IsShownOpen t (selects_paths paths) d = d
handle-IsShownOpen t opens_comparison d = compare_selected-IsShownOpen t _ d
handle-IsShownOpen t activates_comparison d = if-holds IsShownOpen _ _ _ d d
handle-IsShownOpen t swaps_comparison d = swap_from-IsShownOpen t _ d
handle-IsShownOpen t closes_comparison d = d
handle-IsShownOpen t (closes_files paths close_comparison) d =
    close_repository_files-IsShownOpen t paths close_comparison d
handle-IsShownOpen t (renames_entry source destination) d =
    shown_in-map (remap source destination) t.repository_file_path t.repository_open_paths d

-- If the file that is shown, if any, is an open one, it stays so whatever is opened, selected, compared,
-- closed or renamed.
pub handle_all-IsShownOpen :
    (t : Tabs) (es : List TabEvent) → IsShownOpen t → IsShownOpen (handle_all t es)
unfolding handle_all
handle_all-IsShownOpen t [] d = d
handle_all-IsShownOpen t (e ∷ es) d =
    handle_all-IsShownOpen (handle t e) es (handle-IsShownOpen t e d)
