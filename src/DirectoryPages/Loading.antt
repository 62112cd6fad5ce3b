-- ===== src/DirectoryPages/Loading.antt =====
-- While a page that was not aborted has the promise of a directory, the explorer shows that it loads.
use gitna.DirectoryPages.Frames.{store_page-HasRequestsOf}
use gitna.Prelude.{
  sym, ◌≤◌, ◌||◌, ◌===◌, map_set, values, values, All, arith, if◌then◌else◌, not, Bool-cases,
  map_set, Option, map_delete, JsMap, ◌++◌, map_delete, ◌≡◌, JsMap, Bool, List, Text, refl, ℕ, [],
  ◌∷◌, true, false, inl, inr, none, some, ap, ◌∙◌,
}
use mathlib.Core.Path.{subst}
use gitna.History.{abort, is_member}
use gitna.Directories.{
  publish_paths, DirectoryEntries, rebuild_paths, remove_directory, Directories,
}
use gitna.Directories.Rebuilding.{remove_orphans-Removals, Removals, no_removal, removal}
use gitna.DirectoryPages.Preserving.{IsKept, pages_run-keeps}
use gitna.DirectoryPages.{
  store_page, is_nil, is_current_page, not, PageRead, fetch_page, finish_page, Option, Bool,
  invalidate_directories, adopt_page, fail_page,
}
use gitna.DirectoryPages.Runs.{PagesEvent, PagesWorld, pages_run}

-- Every controller was aborted, unless the explorer shows that it loads.
abbrev pub AllShown : List ℕ → Bool → JsMap ℕ → Type 0
AllShown aborted loading m = All (λ e. (is_member e.1 aborted || loading) ≡ true) m

-- A promise and its controller are there together, and a page that was not aborted is shown.
unfoldable pub IsShown : Directories → Type 0
IsShown s =
    (s.directory_requests ≡ s.directory_controllers)
    × AllShown s.aborted s.repository_files_loading s.directory_controllers

AllShown-delete :
    (aborted : List ℕ) (loading : Bool) (key : Text) (m : JsMap ℕ)
    → AllShown aborted loading m
    → AllShown aborted loading (map_delete key m)
unfolding map_delete
AllShown-delete aborted loading key [] h = tt
AllShown-delete aborted loading key ((j, n) ∷ m) (h, all) = elim (Bool-cases (j === key)) [
  | inl same ↦ rw same (AllShown-delete aborted loading key m all)
  | inr other ↦ rw other (h, AllShown-delete aborted loading key m all)
]

AllShown-loading : (aborted : List ℕ) (m : JsMap ℕ) → AllShown aborted true m
AllShown-loading aborted [] = tt
AllShown-loading aborted (e ∷ m) = (ground arith, AllShown-loading aborted m)

-- What is left is shown when the explorer loads as long as something is left.
AllShown-left : (aborted : List ℕ) (m : JsMap ℕ) → AllShown aborted (not (is_nil m)) m
AllShown-left aborted [] = tt
AllShown-left aborted (e ∷ m) = AllShown-loading aborted (e ∷ m)

is_member-cons : (n k : ℕ) (ns : List ℕ) → is_member n ns ≡ true → is_member n (k ∷ ns) ≡ true
unfolding is_member
is_member-cons n k ns h = ground arith

AllShown-cons :
    (aborted : List ℕ) (n : ℕ) (loading : Bool) (m : JsMap ℕ)
    → AllShown aborted loading m
    → AllShown (n ∷ aborted) loading m
AllShown-cons aborted n loading [] h = tt
AllShown-cons aborted n loading (e ∷ m) (h, all) =
    (ground (arith, h, is_member-cons e.1 n aborted), AllShown-cons aborted n loading m all)

AllShown-abort :
    (aborted : List ℕ) (controller : Option ℕ) (loading : Bool) (m : JsMap ℕ)
    → AllShown aborted loading m
    → AllShown (abort controller aborted) loading m
unfolding abort
AllShown-abort aborted none loading m h = h
AllShown-abort aborted (some n) loading m h = AllShown-cons aborted n loading m h

is_member-inside : (n : ℕ) (before after : List ℕ) → is_member n (before ++ n ∷ after) ≡ true
unfolding is_member
is_member-inside n [] after = ground arith
is_member-inside n (k ∷ before) after = ground (arith, is_member-inside n before after)

append-cons :
    (before : List ℕ) (n : ℕ) (after : List ℕ) → (before ++ n ∷ []) ++ after ≡ before ++ n ∷ after
append-cons [] n after = refl
append-cons (k ∷ before) n after = ap (◌∷◌ k) (append-cons before n after)

-- Controllers that are all aborted need not be shown.
AllShown-aborted :
    (before aborted : List ℕ) (loading : Bool) (m : JsMap ℕ)
    → AllShown (before ++ (values m ++ aborted)) loading m
AllShown-aborted before aborted loading [] = tt
AllShown-aborted before aborted loading ((j, n) ∷ m) = (
  ap (λ b. b || loading) (is_member-inside n before (values m ++ aborted)),
  subst (λ ns. AllShown ns loading m) (append-cons before n (values m ++ aborted))
      (AllShown-aborted (before ++ n ∷ []) aborted loading m),
)

fetch-IsShown :
    (s : Directories) (key : Text) (cursor : Option Text)
    → IsShown s
    → IsShown (fetch_page s key cursor).0
unfolding IsShown fetch_page
fetch-IsShown s key cursor (same, h) =
    (ap (map_set key s.next_controller) same, AllShown-loading s.aborted _)

fail-IsShown :
    (s : Directories) (r : PageRead) (message : Text) → IsShown s → IsShown (fail_page s r message)
unfolding IsShown fail_page
fail-IsShown s r message h = h

if-AllShown :
    (t : Bool) (aborted : List ℕ) (loading other : Bool) (m : JsMap ℕ)
    → AllShown aborted loading m
    → AllShown aborted other m
    → AllShown aborted (if t then loading else other) m
if-AllShown true aborted loading other m p q = p
if-AllShown false aborted loading other m p q = q

finish-IsShown : (s : Directories) (r : PageRead) → IsShown s → IsShown (finish_page s r)
unfolding IsShown finish_page
finish-IsShown s r (same, h) = elim (Bool-cases (is_current_page s r)) [
  | inl current ↦ rw current (
    ap (map_delete r.key) same,
    if-AllShown _ s.aborted _ _ _
        (subst (λ m. AllShown s.aborted (not (is_nil m)) (map_delete r.key s.directory_controllers))
          (ap (map_delete r.key) (sym same))
          (AllShown-left s.aborted (map_delete r.key s.directory_controllers)))
        (AllShown-delete s.aborted s.repository_files_loading r.key s.directory_controllers h),
  )
  | inr late ↦ rw late (same, h)
]

invalidate-IsShown : (s : Directories) → IsShown s → IsShown (invalidate_directories s)
unfolding IsShown invalidate_directories
invalidate-IsShown s (same, h) = (same, AllShown-aborted [] s.aborted false s.directory_controllers)

Removals-IsShown : (s t : Directories) → Removals s t → IsShown s → IsShown t
unfolding IsShown remove_directory
Removals-IsShown _ _ (no_removal s) h = h
Removals-IsShown _ _ (removal key s t removable p) (same, h) =
    Removals-IsShown (remove_directory key s) t p (
      ap (map_delete key) same,
      AllShown-abort s.aborted _ s.repository_files_loading _
          (AllShown-delete s.aborted s.repository_files_loading key s.directory_controllers h),
    )

store_page-IsShown :
    (s : Directories) (r : PageRead) (page : DirectoryEntries)
    → IsShown s
    → IsShown (store_page s r page)
unfolding IsShown
store_page-IsShown s r page (same, h) =
    let f = store_page-HasRequestsOf s r page in
    (
      f.same_requests ∙ same ∙ sym f.same_controllers,
      rw (f.same_controllers) (rw (f.same_aborted) (rw (f.same_loading) h)),
    )

adopt-IsShown :
    (s : Directories) (r : PageRead) (page : DirectoryEntries)
    → s.repository_files_generation ≤ page.generation
    → IsShown s
    → IsShown (adopt_page s r page)
unfolding IsShown adopt_page rebuild_paths publish_paths
adopt-IsShown s r page fresh h =
    Removals-IsShown (store_page s r page) _ (remove_orphans-Removals (store_page s r page))
      (store_page-IsShown s r page h)

IsShown-IsKept : IsKept IsShown
IsShown-IsKept = record {
  on_fetch = fetch-IsShown;
  on_adopt = adopt-IsShown;
  on_fail = fail-IsShown;
  on_finish = finish-IsShown;
  on_invalidate = invalidate-IsShown;
}

-- Whatever is opened, refreshed, answered and invalidated in whatever order, starting where it is so: a
-- directory has a promise exactly when it has a controller, of the same page, and while one of them was not
-- aborted the explorer shows that it loads.
pub pages_run-IsShown :
    (w : PagesWorld) (events : List PagesEvent)
    → IsShown w.state
    → IsShown (pages_run w events).state
pages_run-IsShown w events h = pages_run-keeps IsShown IsShown-IsKept w events h
