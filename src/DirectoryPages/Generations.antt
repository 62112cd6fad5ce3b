-- ===== src/DirectoryPages/Generations.antt =====
-- The generation of the explorer never falls, and no directory is of a later one.
use gitna.DirectoryPages.Frames.{store_page-HasGenerations}
use gitna.Prelude.{
  ◌===◌, All, Option, arith, Bool-cases, map_set, map_set, ◌≤◌, map_delete, JsMap, map_delete,
  JsMap, List, Text, ℕ, [], ◌∷◌, inl, inr,
}
use gitna.Directories.{
  publish_paths, DirectoryEntries, rebuild_paths, remove_directory, Directories,
}
use gitna.Directories.Rebuilding.{remove_orphans-Removals, Removals, no_removal, removal}
use gitna.DirectoryPages.Preserving.{IsKept, pages_run-keeps}
use gitna.DirectoryPages.{
  is_current_page, store_page, Option, finish_page, adopt_page, fetch_page, PageRead,
  invalidate_directories, fail_page,
}
use gitna.DirectoryPages.Runs.{PagesEvent, PagesWorld, pages_run}

-- No directory is of a later generation than the bound.
abbrev pub AllOlder : ℕ → JsMap ℕ → Type 0
AllOlder bound m = All (λ e. e.1 ≤ bound) m

AllOlder-delete :
    (bound : ℕ) (key : Text) (m : JsMap ℕ) → AllOlder bound m → AllOlder bound (map_delete key m)
unfolding map_delete
AllOlder-delete bound key [] h = tt
AllOlder-delete bound key ((j, n) ∷ m) (h, all) = elim (Bool-cases (j === key)) [
  | inl same ↦ rw same (AllOlder-delete bound key m all)
  | inr other ↦ rw other (h, AllOlder-delete bound key m all)
]

AllOlder-raise :
    (bound later : ℕ) (m : JsMap ℕ) → bound ≤ later → AllOlder bound m → AllOlder later m
AllOlder-raise bound later [] h all = tt
AllOlder-raise bound later ((j, n) ∷ m) h (p, all) =
    (omega (arith, p, h), AllOlder-raise bound later m h all)

AllOlder-set :
    (bound n : ℕ) (key : Text) (m : JsMap ℕ)
    → n ≤ bound
    → AllOlder bound m
    → AllOlder bound (map_set key n m)
unfolding map_set
AllOlder-set bound n key [] h all = (h, tt)
AllOlder-set bound n key ((j, k) ∷ m) h (p, all) = elim (Bool-cases (j === key)) [
  | inl same ↦ rw same (h, all)
  | inr other ↦ rw other (p, AllOlder-set bound n key m h all)
]

-- The generation of the explorer is at least the bound, and no directory is of a later one.
unfoldable pub IsFreshTree : ℕ → Directories → Type 0
IsFreshTree least s =
    (least ≤ s.repository_files_generation)
    × AllOlder s.repository_files_generation s.directory_generations

Removals-IsFreshTree :
    (least : ℕ) (s t : Directories) → Removals s t → IsFreshTree least s → IsFreshTree least t
unfolding IsFreshTree remove_directory
Removals-IsFreshTree least _ _ (no_removal s) h = h
Removals-IsFreshTree least _ _ (removal key s t removable p) (l, all) =
    Removals-IsFreshTree least (remove_directory key s) t p
      (l, AllOlder-delete s.repository_files_generation key s.directory_generations all)

store_page-IsFreshTree :
    (least : ℕ) (s : Directories) (r : PageRead) (page : DirectoryEntries)
    → s.repository_files_generation ≤ page.generation
    → IsFreshTree least s
    → IsFreshTree least (store_page s r page)
unfolding IsFreshTree
store_page-IsFreshTree least s r page fresh (l, all) =
    let h = store_page-HasGenerations s r page in
    rw (h.is_generation) (
      rw (h.are_generations) (
        omega (arith, l, fresh),
        AllOlder-set page.generation page.generation r.key s.directory_generations (omega arith) (
            AllOlder-raise s.repository_files_generation page.generation s.directory_generations
              fresh all),
      ))

adopt-IsFreshTree :
    (least : ℕ) (s : Directories) (r : PageRead) (page : DirectoryEntries)
    → s.repository_files_generation ≤ page.generation
    → IsFreshTree least s
    → IsFreshTree least (adopt_page s r page)
unfolding IsFreshTree adopt_page rebuild_paths publish_paths
adopt-IsFreshTree least s r page fresh h =
    Removals-IsFreshTree least (store_page s r page) _
      (remove_orphans-Removals (store_page s r page))
      (store_page-IsFreshTree least s r page fresh h)

finish-IsFreshTree :
    (least : ℕ) (s : Directories) (r : PageRead)
    → IsFreshTree least s
    → IsFreshTree least (finish_page s r)
unfolding IsFreshTree finish_page
finish-IsFreshTree least s r h = elim (Bool-cases (is_current_page s r)) [
  | inl current ↦ rw current h
  | inr late ↦ rw late h
]

fetch-IsFreshTree :
    (least : ℕ) (s : Directories) (key : Text) (cursor : Option Text)
    → IsFreshTree least s
    → IsFreshTree least (fetch_page s key cursor).0
unfolding IsFreshTree fetch_page
fetch-IsFreshTree least s key cursor h = h

fail-IsFreshTree :
    (least : ℕ) (s : Directories) (r : PageRead) (message : Text)
    → IsFreshTree least s
    → IsFreshTree least (fail_page s r message)
unfolding IsFreshTree fail_page
fail-IsFreshTree least s r message h = h

invalidate-IsFreshTree :
    (least : ℕ) (s : Directories)
    → IsFreshTree least s
    → IsFreshTree least (invalidate_directories s)
unfolding IsFreshTree invalidate_directories
invalidate-IsFreshTree least s h = h

IsFreshTree-IsKept : (least : ℕ) → IsKept (IsFreshTree least)
IsFreshTree-IsKept least = record {
  on_fetch = fetch-IsFreshTree least;
  on_adopt = adopt-IsFreshTree least;
  on_fail = fail-IsFreshTree least;
  on_finish = finish-IsFreshTree least;
  on_invalidate = invalidate-IsFreshTree least;
}

-- Whatever is opened, refreshed, answered and invalidated in whatever order, the generation of the explorer
-- never falls, and no directory is of a later generation, when none was at first.
pub pages_run-IsFreshTree :
    (w : PagesWorld) (events : List PagesEvent)
    → AllOlder w.state.repository_files_generation w.state.directory_generations
    → IsFreshTree w.state.repository_files_generation (pages_run w events).state
unfolding IsFreshTree
pages_run-IsFreshTree w events all =
    let least = w.state.repository_files_generation in
    pages_run-keeps (IsFreshTree least) (IsFreshTree-IsKept least) w events (omega arith, all)
